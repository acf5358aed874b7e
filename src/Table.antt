-- ===== src/Table.antt =====
-- Tables with a primary key, and the statements that the exporter makes on them.
pub mod Laws
pub mod Column
pub mod Sums
pub mod Tallies
use clear_evmi_plugin.Prelude.{
  Bool, true, false, List, [], ◌∷◌, Option, none, some, Equality, ◌==◌, if◌then◌else◌,
}

-- The rows in the order of insertion, each behind its primary key.
abbrev pub Table {ℓ κ} : Type ℓ → Type κ → Type (ℓ ⊔ κ)
Table K V = List (K × V)

module _ {ℓ κ} {K : Type ℓ} {V : Type κ} ⦃e : Equality K⦄ where
  -- SELECT … WHERE key = k
  unfoldable pub find : K → Table K V → Option V
  find k [] = none
  find k ((j, v) ∷ t) = if j == k then some v else find k t

  -- INSERT … VALUES (k, v) ON CONFLICT (key) DO UPDATE SET …
  unfoldable pub upsert : K → V → (V → V) → Table K V → Table K V
  upsert k v f [] = (k, v) ∷ []
  upsert k v f ((j, w) ∷ t) = if j == k then (j, f w) ∷ t else (j, w) ∷ upsert k v f t

  -- INSERT … VALUES (k, v) ON CONFLICT (key) DO NOTHING
  unfoldable pub insert_new : K → V → Table K V → Table K V
  unfolding upsert
  insert_new k v t = upsert k v (λ w. w) t

  -- UPDATE … SET … WHERE key = k
  unfoldable pub modify : K → (V → V) → Table K V → Table K V
  modify k f [] = []
  modify k f ((j, w) ∷ t) = if j == k then (j, f w) ∷ modify k f t else (j, w) ∷ modify k f t
