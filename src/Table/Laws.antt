-- ===== src/Table/Laws.antt =====
-- What a lookup shows after each statement, at every key.
use clear_evmi_plugin.Prelude.{
  ◌≡◌, refl, [], ◌∷◌, Option, none, some, Equality, ◌==◌, arith, if◌then◌else◌,
}
use mathlib.Core.Option
use clear_evmi_plugin.Table.{Table, find, upsert, insert_new, modify}

-- The row that an upsert leaves, by the row that it met.
abbrev pub upserted {ℓ} : {V : Type ℓ} → V → (V → V) → Option V → V
upserted v f none = v
upserted v f (some w) = f w

module _ {ℓ κ} {K : Type ℓ} {V : Type κ} ⦃e : Equality K⦄ where
  pub find-upsert :
      (k j : K) (v : V) (f : V → V) (t : Table K V)
      → find j (upsert k v f t) ≡ (if k == j then some (upserted v f (find k t)) else find j t)
  unfolding find upsert
  find-upsert k j v f [] = refl
  find-upsert k j v f ((i, w) ∷ t) =
      ground (arith, e.same_iff k j, e.same_iff i k, e.same_iff i j, find-upsert k j v f t)

  pub find-insert_new :
      (k j : K) (v : V) (t : Table K V)
      → find j (insert_new k v t)
        ≡ (if k == j then some (upserted v (λ w. w) (find k t)) else find j t)
  unfolding insert_new
  find-insert_new k j v t = find-upsert k j v (λ w. w) t

  pub find-modify :
      (k j : K) (f : V → V) (t : Table K V)
      → find j (modify k f t) ≡ (if k == j then Option.map f (find j t) else find j t)
  unfolding find modify
  find-modify k j f [] = ground arith
  find-modify k j f ((i, w) ∷ t) =
      ground (arith, e.same_iff k j, e.same_iff i k, e.same_iff i j, find-modify k j f t)

  pub ruleset table_laws = (find-upsert, find-insert_new, find-modify)
