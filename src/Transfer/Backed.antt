-- ===== src/Transfer/Backed.antt =====
-- The supply of every token is the sum of its holders' balances: the invariant, and how each
-- statement of a Transfer moves the two sides.
use clear_evmi_plugin.Prelude.{
  ℕ, ◌≡◌, refl, sym, ◌∙◌, Bool, true, false, max, nat_equality, list_equality, pair_equality,
  if◌then◌else◌,
}
use clear_evmi_plugin.Prelude.Int.{ℤ, pos, ◌+ℤ◌, int_laws}
use clear_evmi_plugin.Text.{Text}
use clear_evmi_plugin.Kind.{ContractKind, reserve_type}
use clear_evmi_plugin.Table.Column.{column-upsert, upsert-present_self}
use clear_evmi_plugin.Db.{Db}
use clear_evmi_plugin.Balances.{
  Ledger, reserve_ledger, iou_ledger, curve_ledger, new_reserve, new_iou, new_pool, ensure_reserve,
  ensure_iou, ensure_curve, touch_reserve, touch_iou, touch_curve,
}
use clear_evmi_plugin.Transfer.{ensure_token_row, bump_supply}
use clear_evmi_plugin.Transfer.Sums.{
  held, supply, has_row, same_token, share, adjusted, held-adjusted, supply-adjusted,
  has_row-adjusted, held-bump_supply, supply-bump_supply,
}
use clear_evmi_plugin.Exec.{write}
use clear_evmi_plugin.Exec.Ensures.{Ensures, Keeps, Ensures-write}

-- For every ledger, chain and token: what the holders have together is the token's supply.
pub record IsBacked (d : Db) : Type 0 where
  pub at : (b : Ledger) (c : ℕ) (owner : Text) → held b c owner d ≡ supply b c owner d

-- The same, but for one token, whose holders are ahead of its supply by `n`, and which has its row.
pub record IsAhead (a : Ledger) (i : ℕ) (o : Text) (n : ℤ) (d : Db) : Type 0 where
  pub at :
      (b : Ledger) (c : ℕ) (owner : Text)
      → held b c owner d ≡ supply b c owner d +ℤ share a i o n b c owner
  pub there : has_row a i o d ≡ true

regroup : (s m n : ℤ) → s +ℤ m +ℤ n ≡ s +ℤ (m +ℤ n)
regroup s m n = omega int_laws

plus_share_zero :
    (a : Ledger) (i : ℕ) (o : Text) (b : Ledger) (c : ℕ) (owner : Text) (s : ℤ)
    → s ≡ s +ℤ share a i o (pos 0) b c owner
plus_share_zero a i o b c owner s = by_test (same_token a i o b c owner)
  where
    by_test : (t : Bool) → s ≡ s +ℤ (if t then pos 0 else pos 0)
    by_test true = omega int_laws
    by_test false = omega int_laws

module _ (a : Ledger) (i : ℕ) (o : Text) where
  share-+ℤ :
      (m n : ℤ) (b : Ledger) (c : ℕ) (owner : Text)
      → share a i o (m +ℤ n) b c owner ≡ share a i o m b c owner +ℤ share a i o n b c owner
  share-+ℤ m n b c owner = by_test (same_token a i o b c owner)
    where
      by_test :
          (t : Bool)
          → (if t then m +ℤ n else pos 0) ≡ (if t then m else pos 0) +ℤ (if t then n else pos 0)
      by_test true = refl
      by_test false = omega int_laws

  pub adjusted-IsAhead :
      (m n : ℤ) (h : Text) (block : ℕ) (d : Db)
      → IsAhead a i o m d
      → IsAhead a i o (m +ℤ n) (adjusted a i o h n block d)
  adjusted-IsAhead m n h block d p = record {
    at = λ b c owner.
        rw
          (
            held-adjusted i o h n block c owner d a b,
            supply-adjusted i o h n block c owner d a b,
            p.at b c owner,
            share-+ℤ m n b c owner,
          )
          (regroup (supply b c owner d) (share a i o m b c owner) (share a i o n b c owner));
    there = rw (has_row-adjusted i o h n block i o d a a) p.there;
  }

  -- Once the supply has caught up, every token is backed.
  pub bump_supply-IsBacked :
      (n : ℤ) (block : ℕ) (d : Db) → IsAhead a i o n d → IsBacked (bump_supply a i o n block d)
  bump_supply-IsBacked n block d p = record {
    at = λ b c owner. rw (
      held-bump_supply i o n block c owner d a b,
      supply-bump_supply i o n block c owner d a b p.there,
      p.at b c owner,
    );
  }

-- The tables that `IsBacked` reads are the same.
pub record SameLedgers (d d' : Db) : Type 0 where
  pub lp : d'.reserve_lp_balances ≡ d.reserve_lp_balances
  pub iou : d'.iou_balances ≡ d.iou_balances
  pub curve : d'.curve_lp_balances ≡ d.curve_lp_balances
  pub reserves : d'.reserves ≡ d.reserves
  pub iou_tokens : d'.iou_tokens ≡ d.iou_tokens
  pub pools : d'.curve_pools ≡ d.curve_pools

pub SameLedgers-IsBacked : {d d' : Db} → SameLedgers d d' → IsBacked d → IsBacked d'
SameLedgers-IsBacked {d} {d'} s p = record { at = at }
  where
    at : (b : Ledger) (c : ℕ) (owner : Text) → held b c owner d' ≡ supply b c owner d'
    at reserve_ledger c owner = rw (s.lp, s.reserves) (p.at reserve_ledger c owner)
    at iou_ledger c owner = rw (s.iou, s.iou_tokens) (p.at iou_ledger c owner)
    at curve_ledger c owner = rw (s.curve, s.pools) (p.at curve_ledger c owner)

-- A statement on other tables keeps every token backed.
pub Keeps-other : (f : Db → Db) → ((d : Db) → SameLedgers d (f d)) → Keeps IsBacked (write f)
Keeps-other f h = Ensures-write f (λ d p. SameLedgers-IsBacked (h d) p)

pub IsBacked-IsAhead :
    (a : Ledger) (i : ℕ) (o : Text) (d : Db)
    → IsBacked d
    → has_row a i o d ≡ true
    → IsAhead a i o (pos 0) d
IsBacked-IsAhead a i o d p there = record {
  at = λ b c owner. p.at b c owner ∙ plus_share_zero a i o b c owner (supply b c owner d);
  there = there;
}

pub IsAhead-IsBacked :
    (a : Ledger) (i : ℕ) (o : Text) (d : Db) → IsAhead a i o (pos 0) d → IsBacked d
IsAhead-IsBacked a i o d p = record {
  at = λ b c owner. p.at b c owner ∙ sym (plus_share_zero a i o b c owner (supply b c owner d));
}

-- A token's row is inserted with supply 0, or only its last block moves.
module _ (i : ℕ) (o : Text) (block : ℕ) where
  touch_reserve-at :
      (kind : Text) (d : Db)
      → IsBacked d
      → (b : Ledger) (c : ℕ) (owner : Text)
      → held b c owner (touch_reserve i o kind block d)
        ≡ supply b c owner (touch_reserve i o kind block d)
  unfolding touch_reserve
  touch_reserve-at kind d p reserve_ledger c owner =
      p.at reserve_ledger c owner
      ∙ sym (
          column-upsert (λ row. row.lp_supply) (i, o) (c, owner) (new_reserve kind block)
            (λ row. record row { last_block = max row.last_block block }) d.reserves refl
            (λ w. refl))
  touch_reserve-at kind d p iou_ledger c owner = p.at iou_ledger c owner
  touch_reserve-at kind d p curve_ledger c owner = p.at curve_ledger c owner

  touch_reserve-has_row :
      (kind : Text) (d : Db) → has_row reserve_ledger i o (touch_reserve i o kind block d) ≡ true
  unfolding touch_reserve
  touch_reserve-has_row kind d =
      upsert-present_self (i, o) (new_reserve kind block)
        (λ row. record row { last_block = max row.last_block block }) d.reserves

  touch_iou-at :
      (d : Db)
      → IsBacked d
      → (b : Ledger) (c : ℕ) (owner : Text)
      → held b c owner (touch_iou i o block d) ≡ supply b c owner (touch_iou i o block d)
  unfolding touch_iou
  touch_iou-at d p reserve_ledger c owner = p.at reserve_ledger c owner
  touch_iou-at d p iou_ledger c owner =
      p.at iou_ledger c owner
      ∙ sym (
          column-upsert (λ row. row.total_supply) (i, o) (c, owner) (new_iou block)
            (λ row. record row { last_block = max row.last_block block }) d.iou_tokens refl
            (λ w. refl))
  touch_iou-at d p curve_ledger c owner = p.at curve_ledger c owner

  touch_iou-has_row : (d : Db) → has_row iou_ledger i o (touch_iou i o block d) ≡ true
  unfolding touch_iou
  touch_iou-has_row d =
      upsert-present_self (i, o) (new_iou block)
        (λ row. record row { last_block = max row.last_block block }) d.iou_tokens

  touch_curve-at :
      (d : Db)
      → IsBacked d
      → (b : Ledger) (c : ℕ) (owner : Text)
      → held b c owner (touch_curve i o block d) ≡ supply b c owner (touch_curve i o block d)
  unfolding touch_curve
  touch_curve-at d p reserve_ledger c owner = p.at reserve_ledger c owner
  touch_curve-at d p iou_ledger c owner = p.at iou_ledger c owner
  touch_curve-at d p curve_ledger c owner =
      p.at curve_ledger c owner
      ∙ sym (
          column-upsert (λ row. row.lp_supply) (i, o) (c, owner) (new_pool block)
            (λ row. record row { last_block = max row.last_block block }) d.curve_pools refl
            (λ w. refl))

  touch_curve-has_row : (d : Db) → has_row curve_ledger i o (touch_curve i o block d) ≡ true
  unfolding touch_curve
  touch_curve-has_row d =
      upsert-present_self (i, o) (new_pool block)
        (λ row. record row { last_block = max row.last_block block }) d.curve_pools

  pub touch_reserve-IsBacked :
      (kind : Text) (d : Db) → IsBacked d → IsBacked (touch_reserve i o kind block d)
  touch_reserve-IsBacked kind d p = record { at = touch_reserve-at kind d p }

  pub ensure_token_row-IsAhead :
      (a : Ledger) (k : ContractKind)
      → Ensures IsBacked (ensure_token_row a i o k block) (λ _. IsAhead a i o (pos 0))
  unfolding ensure_token_row ensure_reserve ensure_iou ensure_curve
  ensure_token_row-IsAhead reserve_ledger k =
      Ensures-write (touch_reserve i o (reserve_type k) block) λ d p.
        IsBacked-IsAhead reserve_ledger i o (touch_reserve i o (reserve_type k) block d)
          (record { at = touch_reserve-at (reserve_type k) d p })
          (touch_reserve-has_row (reserve_type k) d)
  ensure_token_row-IsAhead iou_ledger k = Ensures-write (touch_iou i o block) λ d p.
      IsBacked-IsAhead iou_ledger i o (touch_iou i o block d) (record { at = touch_iou-at d p })
        (touch_iou-has_row d)
  ensure_token_row-IsAhead curve_ledger k = Ensures-write (touch_curve i o block) λ d p.
      IsBacked-IsAhead curve_ledger i o (touch_curve i o block d)
        (record { at = touch_curve-at d p }) (touch_curve-has_row d)
