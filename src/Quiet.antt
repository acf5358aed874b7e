-- ===== src/Quiet.antt =====
-- Calls that leave alone what Transfers and the claim of a log own: the balances of every ERC20
-- ledger, the supplies of the tokens, and the ledger of processed events; and that lose nothing of
-- what is written once and for all.
pub mod Rules
pub mod Additions
pub mod Shared
pub mod Reserves
pub mod Discovery
pub mod Folds
pub mod Pools
pub mod Transfers
use clear_evmi_plugin.Prelude.{
  ℕ, String, ◌≡◌, refl, sym, subst, ◌∙◌, Bool, true, false, Option, none, some, inl, inr,
  Bool-cases, ◌==◌, nat_equality, list_equality, pair_equality, if◌then◌else◌,
}
use clear_evmi_plugin.Prelude.Int.{ℤ}
use clear_evmi_plugin.Text.{Text}
use clear_evmi_plugin.Table.{Table}
use clear_evmi_plugin.Db.{Db, ReserveRow, IouRow, PoolRow}
use clear_evmi_plugin.Balances.{
  Ledger, reserve_ledger, iou_ledger, curve_ledger, Balances, balances_of,
}
use clear_evmi_plugin.Transfer.Sums.{supply, held}
use clear_evmi_plugin.Transfer.Backed.{IsBacked}
use clear_evmi_plugin.Records.{Kept, kept, KeptIn, Extends, KeptIn-refl, KeptIn-trans}
use clear_evmi_plugin.Exec.{Exec}
use clear_evmi_plugin.Exec.Ensures.{Keeps, Ensures, Claims}

-- The tables that hold them.
pub record Amounts : Type 0 where
  pub lp_balances : Balances
  pub iou_balances : Balances
  pub curve_balances : Balances
  pub reserves : Table (ℕ × Text) ReserveRow
  pub iou_tokens : Table (ℕ × Text) IouRow
  pub pools : Table (ℕ × Text) PoolRow
  pub processed : Table String ℕ

abbrev pub amounts_of : Db → Amounts
amounts_of d = record {
  lp_balances = d.reserve_lp_balances;
  iou_balances = d.iou_balances;
  curve_balances = d.curve_lp_balances;
  reserves = d.reserves;
  iou_tokens = d.iou_tokens;
  pools = d.curve_pools;
  processed = d.processed_events;
}

-- All the tables that a quiet call must not disturb.
abbrev pub footprint : Db → Amounts × Kept
footprint d = (amounts_of d, kept d)

-- The second tables hold the same balances, supplies and processed events as the first.
pub record SameAmounts (d d' : Db) : Type 0 where
  pub balances : (b : Ledger) → balances_of b d' ≡ balances_of b d
  pub supplies : (b : Ledger) (c : ℕ) (owner : Text) → supply b c owner d' ≡ supply b c owner d
  pub processed : d'.processed_events ≡ d.processed_events

by_ledger :
    (d d' : Db)
    → d'.reserve_lp_balances ≡ d.reserve_lp_balances
    → d'.iou_balances ≡ d.iou_balances
    → d'.curve_lp_balances ≡ d.curve_lp_balances
    → (b : Ledger) → balances_of b d' ≡ balances_of b d
by_ledger d d' p q r reserve_ledger = p
by_ledger d d' p q r iou_ledger = q
by_ledger d d' p q r curve_ledger = r

pub SameAmounts-refl : (d : Db) → SameAmounts d d
SameAmounts-refl d = record { balances = λ b. refl; supplies = λ b c owner. refl; processed = refl }

pub SameAmounts-trans : {d d' d'' : Db} → SameAmounts d d' → SameAmounts d' d'' → SameAmounts d d''
SameAmounts-trans p q = record {
  balances = λ b. q.balances b ∙ p.balances b;
  supplies = λ b c owner. q.supplies b c owner ∙ p.supplies b c owner;
  processed = q.processed ∙ p.processed;
}

pub amounts_of-SameAmounts : {d d' : Db} → amounts_of d' ≡ amounts_of d → SameAmounts d d'
amounts_of-SameAmounts {d} {d'} e = record {
  balances =
      by_ledger d d' (λ i. (e i).lp_balances) (λ i. (e i).iou_balances) (λ i. (e i).curve_balances);
  supplies = same;
  processed = λ i. (e i).processed;
}
  where
    same : (b : Ledger) (c : ℕ) (owner : Text) → supply b c owner d' ≡ supply b c owner d
    same reserve_ledger c owner = let h : d'.reserves ≡ d.reserves = λ i. (e i).reserves in rw h
    same iou_ledger c owner = let h : d'.iou_tokens ≡ d.iou_tokens = λ i. (e i).iou_tokens in rw h
    same curve_ledger c owner = let h : d'.curve_pools ≡ d.curve_pools = λ i. (e i).pools in rw h

pub SameAmounts-IsBacked : {d d' : Db} → SameAmounts d d' → IsBacked d → IsBacked d'
SameAmounts-IsBacked {d} {d'} s p = record {
  at = λ b c owner.
      let h : held b c owner d' ≡ held b c owner d = rw (s.balances b) in
      h ∙ (p.at b c owner ∙ sym (s.supplies b c owner));
}

-- The same amounts, and nothing lost of what is written once and for all.
pub record Quietly (d d' : Db) : Type 0 where
  pub amounts : SameAmounts d d'
  pub extends : Extends d d'

pub Quietly-refl : (d : Db) → Quietly d d
Quietly-refl d = record { amounts = SameAmounts-refl d; extends = KeptIn-refl (kept d) }

pub Quietly-trans : {d d' d'' : Db} → Quietly d d' → Quietly d' d'' → Quietly d d''
Quietly-trans p q = record {
  amounts = SameAmounts-trans p.amounts q.amounts;
  extends = KeptIn-trans p.extends q.extends;
}

pub footprint-Quietly : {d d' : Db} → footprint d' ≡ footprint d → Quietly d d'
footprint-Quietly {d} {d'} e = record {
  amounts = amounts_of-SameAmounts (λ i. (e i).0);
  extends = subst (KeptIn (kept d)) (λ i. (sym e i).1) (KeptIn-refl (kept d));
}

-- Whatever the tables are, the call does not disturb them, unless it returns an error.
pub record IsQuiet {A : Type 0} (m : Exec A) : Type 0 where
  pub keeps : (d : Db) → Keeps (Quietly d) m
