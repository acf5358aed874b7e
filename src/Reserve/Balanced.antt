-- ===== src/Reserve/Balanced.antt =====
-- A balanced deposit or withdrawal moves the physical token balances of a reserve by its amounts.
use clear_evmi_plugin.Prelude.{
  ℕ, ◌+◌, ◌≡◌, refl, sym, ◌∙◌, ap, subst, Bool, true, false, ◌||◌, List, [], ◌∷◌, Option, none,
  some, coalesce, or_else, ◌==◌, ==-eq, inl, inr, Bool-cases, nat_equality, list_equality,
  triple_equality, if◌then◌else◌,
}
use clear_evmi_plugin.Prelude.Int.{ℤ, pos, ◌+ℤ◌, ◌-ℤ◌, int_laws}
use clear_evmi_plugin.Text.{Text, text}
use clear_evmi_plugin.Args.{is_empty, neg, zero_text}
use clear_evmi_plugin.Args.Signs.{numeric-minus}
use clear_evmi_plugin.Postgres.{Postgres}
use clear_evmi_plugin.Table.Column.{column}
use clear_evmi_plugin.Db.{Db, AssetRow, BalanceRow}
use clear_evmi_plugin.Balances.{adjust_token_balance}
use clear_evmi_plugin.Transfer.Holdings.{Holding, share, add_balance-column}
use clear_evmi_plugin.Reserve.{signed, is_at, asset_at, apply_amounts}
use clear_evmi_plugin.Exec.{pure, numeric_arg, ◌>>◌}
use clear_evmi_plugin.Exec.Ensures.{
  Ensures, Ensures-pure, Ensures-write, Ensures-bind, Ensures-then, Ensures-if, Ensures-weaken,
  Ensures-numeric_arg,
}

-- The database reads the texts as the numbers beside them, and their `neg` as the opposite numbers.
abbrev pub AreRead : Postgres → List (Text × ℤ) → Type 0
AreRead pg [] = Unit {0}
AreRead pg ((v, n) ∷ amounts) =
    ((pg.numeric v ≡ some n) × (pg.numeric (neg v) ≡ some (pos 0 -ℤ n))) × AreRead pg amounts

unfoldable pub texts_of : List (Text × ℤ) → List Text
texts_of [] = []
texts_of ((v, n) ∷ amounts) = v ∷ texts_of amounts

-- The asset that is registered at a position, the last one of several.
unfoldable pub registered_at : ℕ → List (Text × AssetRow) → Option Text
registered_at i [] = none
registered_at i ((asset, a) ∷ rows) =
    or_else (registered_at i rows) (if is_at i a.position then some asset else none)

asset_at-registered_at :
    (i : ℕ) (rows : List (Text × AssetRow)) (found : Text)
    → asset_at i rows found ≡ coalesce (registered_at i rows) found
unfolding asset_at registered_at
asset_at-registered_at i [] found = refl
asset_at-registered_at i ((asset, a) ∷ rows) found =
    asset_at-registered_at i rows (if is_at i a.position then asset else found)
    ∙ by_test (is_at i a.position) (registered_at i rows)
  where
    by_test :
        (b : Bool) (o : Option Text)
        → coalesce o (if b then asset else found)
          ≡ coalesce (or_else o (if b then some asset else none)) found
    by_test true none = refl
    by_test false none = refl
    by_test b (some x) = refl

-- What a list of amounts from position `i` on pays to a holding: an amount goes to the asset at its
-- position, and to none where there is no asset.
unfoldable pub paid : Holding → ℕ → Text → List (Text × AssetRow) → ℕ → List (Text × ℤ) → ℤ
paid key c reserve rows i [] = pos 0
paid key c reserve rows i ((v, n) ∷ amounts) =
    let rest = paid key c reserve rows (i + 1) amounts in
    let asset = coalesce (registered_at i rows) [] in
    (if is_empty asset then pos 0 else share (c, reserve, asset) key n) +ℤ rest

abbrev pub token_balance : Holding → Db → ℤ
token_balance key d = column (λ (row : BalanceRow). row.balance) key d.reserve_token_balances

abbrev pub signed_number : Bool → ℤ → ℤ
signed_number true n = pos 0 -ℤ n
signed_number false n = n

module _ (pg : Postgres) (key : Holding) where
  -- The texts that are passed over are no number, or zero.
  passed-zero :
      (v : Text) (n : ℤ)
      → (is_empty v || v == zero_text || v == text "-0") ≡ true
      → pg.numeric v ≡ some n
      → n ≡ pos 0
  unfolding text zero_text
  passed-zero v n h e = elim (Bool-cases (is_empty v)) [
    | inl empty ↦ unreadable v n empty e
    | inr filled ↦ elim (Bool-cases (v == zero_text)) [
      | inl zero ↦
          let read = subst (λ (t : Text). pg.numeric t ≡ some n) (==-eq v zero_text zero) e in
          cc (pg.numeric_zero)
      | inr nonzero ↦
          let minus : (v == text "-0") ≡ true = rw (filled, nonzero) at h in
          let read = subst (λ (t : Text). pg.numeric t ≡ some n) (==-eq v (text "-0") minus) e in
          minus_zero n read
    ]
  ]
    where
      unreadable : (v : Text) (n : ℤ) → is_empty v ≡ true → pg.numeric v ≡ some n → n ≡ pos 0
      unreadable [] n empty e = cc (pg.numeric_empty)
      unreadable (b ∷ v) n empty e = cc

      minus_zero : (n : ℤ) → pg.numeric (text "-0") ≡ some n → n ≡ pos 0
      minus_zero n read =
          let opposite : n ≡ pos 0 -ℤ pos 0 =
            numeric-minus pg zero_text (pos 0) n pg.numeric_zero read in
          opposite ∙ omega int_laws

  no_share : (x : ℤ) (owner : Holding) → x ≡ x +ℤ share owner key (pos 0)
  no_share x owner = by_test (owner == key)
    where
      by_test : (b : Bool) → x ≡ x +ℤ (if b then pos 0 else pos 0)
      by_test true = omega int_laws
      by_test false = omega int_laws

  -- A flow by a text that is read as `n`.
  pub adjust_token_balance-column :
      (x n : ℤ) (c : ℕ) (reserve asset v : Text) (block : ℕ)
      → is_empty asset ≡ false
      → pg.numeric v ≡ some n
      → Ensures
          (λ d. token_balance key d ≡ x)
          (adjust_token_balance pg c reserve asset v block)
          (λ _ d. token_balance key d ≡ x +ℤ share (c, reserve, asset) key n)
  unfolding adjust_token_balance
  adjust_token_balance-column x n c reserve asset v block named read =
      let owner : Holding = (c, reserve, asset) in
      rw named (
        Ensures-if (is_empty v || v == zero_text || v == text "-0") (pure tt) _
          (λ skipped.
            let nothing : n ≡ pos 0 = passed-zero v n skipped read in
            Ensures-pure tt _
              (λ d p. p ∙ (no_share x owner ∙ ap (λ m. x +ℤ share owner key m) (sym nothing))))
          (λ _. Ensures-bind (numeric_arg pg v) _ _ _ (Ensures-numeric_arg pg v) λ m.
            Ensures-write _ λ d p.
              add_balance-column owner key m block d.reserve_token_balances
              ∙ let same : m ≡ n = cc in rw (p.0, same)))

  module _ (c : ℕ) (reserve : Text) (negate : Bool) (block : ℕ)
      (rows : List (Text × AssetRow)) where
    -- One amount, where its position has an asset.
    by_asset :
        (x n : ℤ) (asset v : Text)
        → pg.numeric v ≡ some n
        → pg.numeric (neg v) ≡ some (pos 0 -ℤ n)
        → is_empty asset ≡ false
        → Ensures
            (λ d. token_balance key d ≡ x)
            (adjust_token_balance pg c reserve asset (signed negate v) block)
            (λ _ d.
              token_balance key d ≡ x +ℤ signed_number negate (share (c, reserve, asset) key n))
    by_asset x n asset v plain opposite named = by_sign negate
      where
        owner : Holding
        owner = (c, reserve, asset)

        opposite_share :
            (b : Bool) → (if b then pos 0 -ℤ n else pos 0) ≡ pos 0 -ℤ (if b then n else pos 0)
        opposite_share true = refl
        opposite_share false = omega int_laws

        by_sign :
            (s : Bool)
            → Ensures
                (λ d. token_balance key d ≡ x)
                (adjust_token_balance pg c reserve asset (signed s v) block)
                (λ _ d. token_balance key d ≡ x +ℤ signed_number s (share owner key n))
        by_sign true =
            subst
              (λ m.
                Ensures (λ d. token_balance key d ≡ x)
                  (adjust_token_balance pg c reserve asset (neg v) block)
                  (λ _ d. token_balance key d ≡ x +ℤ m))
              (opposite_share (owner == key))
              (adjust_token_balance-column x (pos 0 -ℤ n) c reserve asset (neg v) block named
                opposite)
        by_sign false = adjust_token_balance-column x n c reserve asset v block named plain

    pub apply_amounts-column :
        (amounts : List (Text × ℤ)) (i : ℕ) (x : ℤ)
        → AreRead pg amounts
        → Ensures
            (λ d. token_balance key d ≡ x)
            (apply_amounts pg c reserve negate block rows i (texts_of amounts))
            (λ _ d.
              token_balance key d ≡ x +ℤ signed_number negate (paid key c reserve rows i amounts))
    unfolding apply_amounts texts_of paid
    apply_amounts-column [] i x h = Ensures-pure tt _ (λ d p. p ∙ nothing negate)
      where
        nothing : (s : Bool) → x ≡ x +ℤ signed_number s (pos 0)
        nothing true = omega int_laws
        nothing false = omega int_laws
    apply_amounts-column ((v, n) ∷ amounts) i x h =
        rw (asset_at-registered_at i rows [])
          (by_name (is_empty asset) refl (λ y. apply_amounts-column amounts (i + 1) y h.1))
      where
        asset : Text
        asset = coalesce (registered_at i rows) []

        rest : ℤ
        rest = paid key c reserve rows (i + 1) amounts

        own : ℤ
        own = share (c, reserve, asset) key n

        added :
            (s : Bool) (a r : ℤ)
            → x +ℤ signed_number s a +ℤ signed_number s r ≡ x +ℤ signed_number s (a +ℤ r)
        added true a r = omega int_laws
        added false a r = omega int_laws

        none_added : (s : Bool) (r : ℤ) → x +ℤ signed_number s r ≡ x +ℤ signed_number s (pos 0 +ℤ r)
        none_added true r = omega int_laws
        none_added false r = omega int_laws

        by_name :
            (unnamed : Bool)
            → is_empty asset ≡ unnamed
            → ((y : ℤ)
                → Ensures
                    (λ d. token_balance key d ≡ y)
                    (apply_amounts pg c reserve negate block rows (i + 1) (texts_of amounts))
                    (λ _ d. token_balance key d ≡ y +ℤ signed_number negate rest))
            → Ensures
                (λ d. token_balance key d ≡ x)
                (if unnamed
                  then apply_amounts pg c reserve negate block rows (i + 1) (texts_of amounts)
                  else adjust_token_balance pg c reserve asset (signed negate v) block
                    >> apply_amounts pg c reserve negate block rows (i + 1) (texts_of amounts))
                (λ _ d.
                  token_balance key d
                  ≡ x +ℤ signed_number negate ((if unnamed then pos 0 else own) +ℤ rest))
        by_name true e ih = Ensures-weaken _ _ _ (ih x) (λ _ d p. p ∙ none_added negate rest)
        by_name false e ih =
            Ensures-then _ _ (λ d. token_balance key d ≡ x +ℤ signed_number negate own) _
              (by_asset x n asset v h.0.0 h.0.1 e)
              (Ensures-weaken _ _ _ (ih _) (λ _ d p. p ∙ added negate own rest))
