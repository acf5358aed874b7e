-- ===== src/Table/Sums.antt =====
-- The sum of a column over the rows whose key passes a test, and what an upsert adds to it.
use clear_evmi_plugin.Prelude.{
  ◌≡◌, Bool, true, false, [], ◌∷◌, Equality, ◌==◌, ==-eq, inl, inr, Bool-cases, if◌then◌else◌,
}
use clear_evmi_plugin.Prelude.Int.{ℤ, pos, ◌+ℤ◌, int_laws}
use clear_evmi_plugin.Table.{Table, upsert}

+ℤ_zero : (a : ℤ) → a +ℤ pos 0 ≡ a
+ℤ_zero a = omega int_laws

+ℤ_right : (a b c : ℤ) → a +ℤ (b +ℤ c) ≡ a +ℤ b +ℤ c
+ℤ_right a b c = omega int_laws

add_first : (a n s : ℤ) → a +ℤ n +ℤ s ≡ a +ℤ s +ℤ n
add_first a n s = omega int_laws

module _ {ℓ κ} {K : Type ℓ} {V : Type κ} (mine : K → Bool) (amount : V → ℤ) where
  unfoldable pub sum_where : Table K V → ℤ
  sum_where [] = pos 0
  sum_where ((k, v) ∷ t) = (if mine k then amount v else pos 0) +ℤ sum_where t

  module _ ⦃e : Equality K⦄ (k : K) (v : V) (f : V → V) (n : ℤ) (inserted : amount v ≡ n)
      (updated : (w : V) → amount (f w) ≡ amount w +ℤ n) where
    met :
        (j : K) (w : V) (s : ℤ)
        → j ≡ k
        → (if mine j then amount (f w) else pos 0) +ℤ s
          ≡ (if mine j then amount w else pos 0) +ℤ s +ℤ (if mine k then n else pos 0)
    met j w s h = rw h (by_test (mine k))
      where
        by_test :
            (b : Bool)
            → (if b then amount (f w) else pos 0) +ℤ s
              ≡ (if b then amount w else pos 0) +ℤ s +ℤ (if b then n else pos 0)
        by_test true = rw (updated w) (add_first (amount w) n s)
        by_test false = omega int_laws

    pub sum_where-upsert :
        (t : Table K V) → sum_where (upsert k v f t) ≡ sum_where t +ℤ (if mine k then n else pos 0)
    unfolding sum_where upsert
    sum_where-upsert [] = rw inserted (omega int_laws)
    sum_where-upsert ((j, w) ∷ t) = elim (Bool-cases (j == k)) [
      | inl same ↦ rw same (met j w (sum_where t) (==-eq j k same))
      | inr other ↦
          rw (other, sum_where-upsert t)
            (+ℤ_right (if mine j then amount w else pos 0) (sum_where t)
              (if mine k then n else pos 0))
    ]
