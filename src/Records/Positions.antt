-- ===== src/Records/Positions.antt =====
-- The positions of a reserve's assets: 0, 1, 2 and so on, in the order in which they were listed.
use clear_evmi_plugin.Prelude.{
  ℕ, ◌+◌, ◌≡◌, ap, some, refl, subst, sym, ◌∙◌, Bool, true, false, ◌&&◌, List, [], ◌∷◌, ◌==◌, ==-eq,
  ==-refl, inl, inr, Bool-cases, nat_equality, list_equality, pair_equality, triple_equality,
  if◌then◌else◌, arith,
}
use clear_evmi_plugin.Text.{Text}
use clear_evmi_plugin.Table.{Table, upsert}
use clear_evmi_plugin.Db.{AssetRow}
use clear_evmi_plugin.Prelude.Int.{ℤ, ◌+ℤ◌}
use clear_evmi_plugin.Valuation.{rows_of}
use clear_evmi_plugin.Transfer.{mirror_supply, is_iou}
use clear_evmi_plugin.Reserve.Assets.{count}

abbrev pub Assets : Type 0
Assets = Table (ℕ × Text × Text) AssetRow

-- The positions are `n`, `n + 1` and so on.
abbrev pub IsNumbered : ℕ → List (Text × AssetRow) → Type 0
IsNumbered n [] = Unit {0}
IsNumbered n ((asset, a) ∷ rows) = (a.position ≡ some n) × IsNumbered (n + 1) rows

abbrev pub KeepsNumbers : Assets → Assets → Type 0
KeepsNumbers t t' =
    (c : ℕ) (r : Text) → IsNumbered 0 (rows_of c r t) → IsNumbered 0 (rows_of c r t')

abbrev is_key : ℕ × Text × Text → ℕ × Text × Text → Bool
is_key a b = a == b

-- A statement that leaves every position alone.
pub mirror_supply-IsNumbered :
    (i : ℕ) (iou : Text) (m : ℤ) (c : ℕ) (r : Text) (n : ℕ) (t : Assets)
    → IsNumbered n (rows_of c r t)
    → IsNumbered n (rows_of c r (mirror_supply i iou m t))
unfolding mirror_supply rows_of
mirror_supply-IsNumbered i iou m c r n [] h = h
mirror_supply-IsNumbered i iou m c r n (((j, reserve, asset), a) ∷ t) h =
    by_test (j == c && reserve == r) (j == i && is_iou iou a) h
      (λ k. mirror_supply-IsNumbered i iou m c r k t)
  where
    by_test :
        (own met : Bool)
        → IsNumbered n (if own then (asset, a) ∷ rows_of c r t else rows_of c r t)
        → ((k : ℕ)
            → IsNumbered k (rows_of c r t)
            → IsNumbered k (rows_of c r (mirror_supply i iou m t)))
        → IsNumbered n (
            if own
            then (asset, if met then record a { iou_supply = a.iou_supply +ℤ m } else a)
              ∷ rows_of c r (mirror_supply i iou m t)
            else rows_of c r (mirror_supply i iou m t))
    by_test true true h ih = (h.0, ih (n + 1) h.1)
    by_test true false h ih = (h.0, ih (n + 1) h.1)
    by_test false met h ih = ih n h

module _ (i : ℕ) (reserve asset : Text) (v : AssetRow) (f : AssetRow → AssetRow)
    (same : (a : AssetRow) → (f a).position ≡ a.position) where
  -- Another reserve's rows are untouched.
  pub rows_of-upsert_other :
      (c : ℕ) (r : Text) (t : Assets)
      → (i == c && reserve == r) ≡ false
      → rows_of c r (upsert (i, reserve, asset) v f t) ≡ rows_of c r t
  unfolding rows_of upsert
  rows_of-upsert_other c r [] h = rw h
  rows_of-upsert_other c r (((j, other, b), a) ∷ t) h =
      by_key (is_key (j, other, b) (i, reserve, asset)) refl (rows_of-upsert_other c r t h)
    where
      apart : is_key (j, other, b) (i, reserve, asset) ≡ true → (j == c && other == r) ≡ false
      apart e =
          let met : ◌≡◌ {A = ℕ × Text × Text} (j, other, b) (i, reserve, asset) =
            ==-eq (j, other, b) (i, reserve, asset) e in
          subst (λ (key : ℕ × Text × Text). (key.0 == c && key.1 == r) ≡ false) (sym met) h

      by_key :
          (met : Bool)
          → is_key (j, other, b) (i, reserve, asset) ≡ met
          → rows_of c r (upsert (i, reserve, asset) v f t) ≡ rows_of c r t
          → rows_of c r (
              if met
              then ((j, other, b), f a) ∷ t
              else ((j, other, b), a) ∷ upsert (i, reserve, asset) v f t)
            ≡ rows_of c r (((j, other, b), a) ∷ t)
      by_key true e rest = rw (apart e)
      by_key false e rest = rw rest

  -- The reserve's own gain a row at the end, or one of them is replaced.
  pub upsert-IsNumbered :
      (n : ℕ) (t : Assets)
      → v.position ≡ some (n + count (rows_of i reserve t))
      → IsNumbered n (rows_of i reserve t)
      → IsNumbered n (rows_of i reserve (upsert (i, reserve, asset) v f t))
  unfolding rows_of upsert count
  upsert-IsNumbered n [] e h = rw (==-refl i, ==-refl reserve) (e ∙ ap some (omega arith), tt)
  upsert-IsNumbered n (((j, other, b), a) ∷ t) e h =
      by_key (is_key (j, other, b) (i, reserve, asset)) refl (λ k. upsert-IsNumbered k t)
    where
      own : is_key (j, other, b) (i, reserve, asset) ≡ true → (j == i && other == reserve) ≡ true
      own e =
          let met : ◌≡◌ {A = ℕ × Text × Text} (j, other, b) (i, reserve, asset) =
            ==-eq (j, other, b) (i, reserve, asset) e in
          subst (λ (key : ℕ × Text × Text). (key.0 == i && key.1 == reserve) ≡ true) (sym met)
            (rw (==-refl i, ==-refl reserve))

      by_own :
          (p : Bool)
          → (j == i && other == reserve) ≡ p
          → ((k : ℕ)
              → v.position ≡ some (k + count (rows_of i reserve t))
              → IsNumbered k (rows_of i reserve t)
              → IsNumbered k (rows_of i reserve (upsert (i, reserve, asset) v f t)))
          → v.position
            ≡ some (n + count (if p then (b, a) ∷ rows_of i reserve t else rows_of i reserve t))
          → IsNumbered n (if p then (b, a) ∷ rows_of i reserve t else rows_of i reserve t)
          → IsNumbered n (
              if p
              then (b, a) ∷ rows_of i reserve (upsert (i, reserve, asset) v f t)
              else rows_of i reserve (upsert (i, reserve, asset) v f t))
      by_own true q ih e h = (h.0, ih (n + 1) (e ∙ ap some (omega arith)) h.1)
      by_own false q ih e h = ih n e h

      by_key :
          (met : Bool)
          → is_key (j, other, b) (i, reserve, asset) ≡ met
          → ((k : ℕ)
              → v.position ≡ some (k + count (rows_of i reserve t))
              → IsNumbered k (rows_of i reserve t)
              → IsNumbered k (rows_of i reserve (upsert (i, reserve, asset) v f t)))
          → IsNumbered n (
              rows_of i reserve (
                if met
                then ((j, other, b), f a) ∷ t
                else ((j, other, b), a) ∷ upsert (i, reserve, asset) v f t))
      by_key true q ih = rw (own q) (same a ∙ (rw (own q) at h).0, (rw (own q) at h).1)
      by_key false q ih = by_own (j == i && other == reserve) refl ih e h

  pub upsert-KeepsNumbers :
      (t : Assets)
      → v.position ≡ some (count (rows_of i reserve t))
      → KeepsNumbers t (upsert (i, reserve, asset) v f t)
  upsert-KeepsNumbers t e c r h = elim (Bool-cases (i == c && reserve == r)) [
    | inl own ↦
        let met : ◌≡◌ {A = ℕ × Text} (i, reserve) (c, r) = ==-eq (i, reserve) (c, r) own in
        subst
          (λ (key : ℕ × Text).
            IsNumbered 0 (rows_of key.0 key.1 t)
            → IsNumbered 0 (rows_of key.0 key.1 (upsert (i, reserve, asset) v f t)))
          met (upsert-IsNumbered 0 t (e ∙ ap some (omega arith))) h
    | inr other ↦ subst (IsNumbered 0) (sym (rows_of-upsert_other c r t other)) h
  ]
