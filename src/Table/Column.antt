-- ===== src/Table/Column.antt =====
-- A counter column of one row, 0 where there is no row, under the statements on the table.
use clear_evmi_plugin.Prelude.{
  ◌≡◌, refl, Bool, true, false, Option, none, some, Equality, ◌==◌, ==-eq, ==-refl, inl, inr,
  Bool-cases, if◌then◌else◌,
}
use mathlib.Core.Option
use clear_evmi_plugin.Prelude.Int.{ℤ, pos, ◌+ℤ◌, int_laws}
use clear_evmi_plugin.Table.{Table, find, upsert, modify}
use clear_evmi_plugin.Table.Laws.{find-upsert, find-modify, upserted}

module _ {ℓ} {V : Type ℓ} where
  abbrev pub is_some : Option V → Bool
  is_some none = false
  is_some (some v) = true

  abbrev pub value_or_zero : (V → ℤ) → Option V → ℤ
  value_or_zero get none = pos 0
  value_or_zero get (some v) = get v

same_plus_zero : (a : ℤ) → a ≡ a +ℤ pos 0
same_plus_zero a = omega int_laws

module _ {ℓ κ} {K : Type ℓ} {V : Type κ} ⦃e : Equality K⦄ where
  abbrev pub is_present : K → Table K V → Bool
  is_present k t = is_some (find k t)

  abbrev pub column : (V → ℤ) → K → Table K V → ℤ
  column get k t = value_or_zero get (find k t)

  pub upsert-present :
      (k j : K) (v : V) (f : V → V) (t : Table K V)
      → is_present j (upsert k v f t) ≡ (if k == j then true else is_present j t)
  upsert-present k j v f t = rw (find-upsert k j v f t) (by_test (k == j))
    where
      by_test :
          (b : Bool)
          → is_some (if b then some (upserted v f (find k t)) else find j t)
            ≡ (if b then true else is_some (find j t))
      by_test true = refl
      by_test false = refl

  pub upsert-present_self :
      (k : K) (v : V) (f : V → V) (t : Table K V) → is_present k (upsert k v f t) ≡ true
  upsert-present_self k v f t = rw (upsert-present k k v f t, ==-refl k)

  pub modify-present :
      (k j : K) (f : V → V) (t : Table K V) → is_present j (modify k f t) ≡ is_present j t
  modify-present k j f t = rw (find-modify k j f t) (by_value (k == j) (find j t))
    where
      by_value : (b : Bool) (o : Option V) → is_some (if b then Option.map f o else o) ≡ is_some o
      by_value true none = refl
      by_value true (some v) = refl
      by_value false o = refl

  module _ (get : V → ℤ) where
    -- An insert-or-touch with a zero column changes the column of no row.
    pub column-upsert :
        (k j : K) (v : V) (f : V → V) (t : Table K V)
        → get v ≡ pos 0
        → ((w : V) → get (f w) ≡ get w)
        → column get j (upsert k v f t) ≡ column get j t
    column-upsert k j v f t zero same = rw (find-upsert k j v f t) (elim (Bool-cases (k == j)) [
      | inl met ↦ rw (met, ==-eq k j met) (by_value (find j t))
      | inr other ↦ rw other
    ])
      where
        by_value : (o : Option V) → get (upserted v f o) ≡ value_or_zero get o
        by_value none = zero
        by_value (some w) = same w

    -- An addition to the column of a row that is there.
    pub column-modify :
        (k j : K) (f : V → V) (n : ℤ) (t : Table K V)
        → ((w : V) → get (f w) ≡ get w +ℤ n)
        → is_present k t ≡ true
        → column get j (modify k f t) ≡ column get j t +ℤ (if k == j then n else pos 0)
    column-modify k j f n t added there = rw (find-modify k j f t) (elim (Bool-cases (k == j)) [
      | inl met ↦ rw met (by_value (find j t) (rw (==-eq k j met) at there))
      | inr other ↦ rw other (same_plus_zero (column get j t))
    ])
      where
        by_value :
            (o : Option V)
            → is_some o ≡ true
            → value_or_zero get (Option.map f o) ≡ value_or_zero get o +ℤ n
        by_value none h = cc
        by_value (some w) h = added w

    -- An update that leaves the column alone.
    pub column-modify_same :
        (k j : K) (f : V → V) (t : Table K V)
        → ((w : V) → get (f w) ≡ get w)
        → column get j (modify k f t) ≡ column get j t
    column-modify_same k j f t same = rw (find-modify k j f t) (by_value (k == j) (find j t))
      where
        by_value :
            (b : Bool) (o : Option V)
            → value_or_zero get (if b then Option.map f o else o) ≡ value_or_zero get o
        by_value true none = refl
        by_value true (some w) = same w
        by_value false o = refl
