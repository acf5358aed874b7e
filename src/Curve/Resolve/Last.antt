-- ===== src/Curve/Resolve/Last.antt =====
-- The pool of a deployment is the emitter of the last candidate before it.
use clear_evmi_plugin.Prelude.{
  ℕ, ◌≤◌, ◌≡◌, refl, ap, subst, ==-refl, sym, ◌∙◌, Bool, true, false, ◌&&◌, ◌||◌, List, [], ◌∷◌,
  ltb, ◌==◌, ◌⊎◌, inl, inr, Bool-cases, list_equality, nat_equality, if◌then◌else◌, arith,
}
use clear_evmi_plugin.Text.{Text}
use clear_evmi_plugin.Address.{zero_address}
use clear_evmi_plugin.Rpc.{ReceiptLog}
use clear_evmi_plugin.Curve.Resolve.{is_candidate, pick}

-- Where a log stands in a receipt.
pub data Holds (l : ReceiptLog) : List ReceiptLog → Type 0 where
  here : (logs : List ReceiptLog) → Holds l (l ∷ logs)
  there : (m : ReceiptLog) (logs : List ReceiptLog) → Holds l logs → Holds l (m ∷ logs)

-- No log has the zero address.
abbrev pub Emitted : List ReceiptLog → Type 0
Emitted logs = (l : ReceiptLog) → Holds l logs → (l.address == zero_address) ≡ false

module _ (factory : Text) (deploy_index : ℕ) where
  -- The pool after one more log.
  abbrev after : Text × ℕ → ReceiptLog → Text × ℕ
  after best l =
      if is_candidate factory deploy_index l && (best.0 == zero_address || ltb best.1 l.index)
      then (l.address, l.index)
      else best

  -- What one log does to a pool that is known.
  record Later (best : Text × ℕ) (l : ReceiptLog) : Type 0 where
    known : ((after best l).0 == zero_address) ≡ false
    keeps : best.1 ≤ (after best l).1
    counts : is_candidate factory deploy_index l ≡ true → l.index ≤ (after best l).1

  after-Later :
      (best : Text × ℕ) (l : ReceiptLog)
      → (best.0 == zero_address) ≡ false
      → (l.address == zero_address) ≡ false
      → Later best l
  after-Later best l h k = record {
    known = by_known (is_candidate factory deploy_index l) (ltb best.1 l.index);
    keeps = ground (arith, h);
    counts = λ c. ground (arith, h, c);
  }
    where
      by_known :
          (b c : Bool)
          → ((if b && (best.0 == zero_address || c) then (l.address, l.index) else best).0
              == zero_address)
            ≡ false
      by_known true c = rw h (by_later c)
        where
          by_later :
              (c : Bool) → ((if c then (l.address, l.index) else best).0 == zero_address) ≡ false
          by_later true = k
          by_later false = h
      by_known false c = h

  -- A pool is known, whose log is no earlier than the candidate `l`.
  abbrev Covers : ReceiptLog → Text × ℕ → Type 0
  Covers l best = ((best.0 == zero_address) ≡ false) × (l.index ≤ best.1)

  pick-Covers :
      (l : ReceiptLog) (logs : List ReceiptLog) (best : Text × ℕ)
      → Emitted logs
      → Covers l best
      → Covers l (pick factory deploy_index best logs)
  unfolding pick
  pick-Covers l [] best emitted covers = covers
  pick-Covers l (m ∷ logs) best emitted (known, before) =
      let step = after-Later best m known (emitted m (here logs)) in
      pick-Covers l logs (after best m) (λ n h. emitted n (there m logs h))
        (step.known, (let h = step.keeps in omega (arith, h, before)))

  -- From a pool that is known.
  pick-known :
      (l : ReceiptLog) (logs : List ReceiptLog) (best : Text × ℕ)
      → Emitted logs
      → (best.0 == zero_address) ≡ false
      → Holds l logs
      → is_candidate factory deploy_index l ≡ true
      → Covers l (pick factory deploy_index best logs)
  unfolding pick
  pick-known m _ best emitted known (here logs) c =
      let step = after-Later best m known (emitted m (here logs)) in
      pick-Covers m logs (after best m) (λ n h. emitted n (there m logs h))
        (step.known, step.counts c)
  pick-known l _ best emitted known (there m logs h) c =
      let step = after-Later best m known (emitted m (here logs)) in
      pick-known l logs (after best m) (λ n h. emitted n (there m logs h)) step.known h c

  after-first :
      (best : Text × ℕ) (l : ReceiptLog)
      → is_candidate factory deploy_index l ≡ true
      → (best.0 == zero_address) ≡ true
      → after best l ≡ (l.address, l.index)
  after-first best l c h = rw (c, h)

  after-other :
      (best : Text × ℕ) (l : ReceiptLog)
      → is_candidate factory deploy_index l ≡ false
      → after best l ≡ best
  after-other best l c = rw c

  -- From the start, when no pool is known.
  pick-unknown :
      (l : ReceiptLog) (logs : List ReceiptLog) (best : Text × ℕ)
      → Emitted logs
      → (best.0 == zero_address) ≡ true
      → Holds l logs
      → is_candidate factory deploy_index l ≡ true
      → Covers l (pick factory deploy_index best logs)
  unfolding pick
  pick-unknown m _ best emitted unknown (here logs) c =
      subst (λ (b : Text × ℕ). Covers m (pick factory deploy_index b logs))
        (sym (after-first best m c unknown))
        (pick-Covers m logs (m.address, m.index) (λ n h. emitted n (there m logs h))
          (emitted m (here logs), ground arith))
  pick-unknown l _ best emitted unknown (there m logs h) c =
      elim (Bool-cases (is_candidate factory deploy_index m)) [
        | inl first ↦
            subst (λ (b : Text × ℕ). Covers l (pick factory deploy_index b logs))
              (sym (after-first best m first unknown))
              (pick-known l logs (m.address, m.index) (λ n k. emitted n (there m logs k))
                (emitted m (here logs)) h c)
        | inr other ↦
            subst (λ (b : Text × ℕ). Covers l (pick factory deploy_index b logs))
              (sym (after-other best m other))
              (pick-unknown l logs best (λ n k. emitted n (there m logs k)) unknown h c)
      ]

  after-cases :
      (best : Text × ℕ) (l : ReceiptLog)
      → (after best l ≡ best)
        ⊎ ((is_candidate factory deploy_index l ≡ true) × (after best l ≡ (l.address, l.index)))
  after-cases best l =
      by_test (is_candidate factory deploy_index l) (best.0 == zero_address || ltb best.1 l.index)
        refl
    where
      by_test :
          (a b : Bool)
          → is_candidate factory deploy_index l ≡ a
          → ((if a && b then (l.address, l.index) else best) ≡ best)
            ⊎ ((is_candidate factory deploy_index l ≡ true)
                × ((if a && b then (l.address, l.index) else best) ≡ (l.address, l.index)))
      by_test true true e = inr (e, refl)
      by_test true false e = inl refl
      by_test false b e = inl refl

  -- Where a pool comes from: it is what it was, or a candidate of the receipt announced it.
  abbrev Announced : Text × ℕ → List ReceiptLog → Text × ℕ → Type 0
  Announced best logs found =
      (found ≡ best)
      ⊎ ((l : ReceiptLog) × (Holds l logs
            × ((is_candidate factory deploy_index l ≡ true) × (found ≡ (l.address, l.index)))))

  pick-Announced :
      (logs : List ReceiptLog) (best : Text × ℕ)
      → Announced best logs (pick factory deploy_index best logs)
  unfolding pick
  pick-Announced [] best = inl refl
  pick-Announced (m ∷ logs) best = elim (pick-Announced logs (after best m)) [
    | inr (l, (h, rest)) ↦ inr (l, (there m logs h, rest))
    | inl same ↦ elim (after-cases best m) [
      | inl kept ↦ inl (same ∙ kept)
      | inr (c, taken) ↦ inr (m, (here logs, (c, same ∙ taken)))
    ]
  ]

  -- The pool that a receipt gives: where no log has the zero address and the candidate `l` is in
  -- the receipt, it is the emitter of a candidate in the receipt whose index is no smaller than that of
  -- `l`. So it is the last contract that announced itself before the deployment.
  pub pick-last :
      (l : ReceiptLog) (logs : List ReceiptLog)
      → Emitted logs
      → Holds l logs
      → is_candidate factory deploy_index l ≡ true
      → (m : ReceiptLog) × (Holds m logs
          × ((is_candidate factory deploy_index m ≡ true)
              × ((pick factory deploy_index (zero_address, 0) logs ≡ (m.address, m.index))
                  × (l.index ≤ m.index))))
  pick-last l logs emitted h c =
      by_origin (pick factory deploy_index (zero_address, 0) logs) refl
        (pick-unknown l logs (zero_address, 0) emitted (==-refl zero_address) h c)
        (pick-Announced logs (zero_address, 0))
    where
      by_origin :
          (found : Text × ℕ)
          → pick factory deploy_index (zero_address, 0) logs ≡ found
          → Covers l found
          → Announced (zero_address, 0) logs found
          → (m : ReceiptLog) × (Holds m logs
              × ((is_candidate factory deploy_index m ≡ true)
                  × ((pick factory deploy_index (zero_address, 0) logs ≡ (m.address, m.index))
                      × (l.index ≤ m.index))))
      by_origin found e (known, before) (inl same) =
          cc (known, ap (λ (f : Text × ℕ). f.0 == zero_address) same, ==-refl zero_address)
      by_origin found e (known, before) (inr (m, (k, (d, same)))) =
          (m, (k, (d, (e ∙ same, subst (λ (f : Text × ℕ). l.index ≤ f.1) same before))))
