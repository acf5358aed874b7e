-- ===== src/Oracle/Invalidated.antt =====
-- What becomes of an asset's price that governance has invalidated.
use mathlib.Core.Bool.{true≢false}
use clear_evmi_plugin.Prelude.{
  ℕ, ◌≡◌, refl, coalesce, ap, sym, ◌∙◌, Bool, false, ◌⊎◌, inl, inr, Bool-cases, ==-eq, Option, none,
  some, ◌==◌, ==-refl, nat_equality, list_equality, pair_equality, string_equality,
}
use clear_evmi_plugin.Prelude.Int.{ℤ, pos}
use clear_evmi_plugin.Text.{Text}
use clear_evmi_plugin.Args.{is_empty}
use clear_evmi_plugin.Postgres.{Postgres}
use clear_evmi_plugin.Table.{Table, find, upsert}
use clear_evmi_plugin.Table.Laws.{find-upsert, upserted}
use clear_evmi_plugin.Db.{Db, OracleRow}
use clear_evmi_plugin.Event.{LogEvent}
use clear_evmi_plugin.Oracle.{
  asset, fold, fold_oracle, with_asset, append_price, handle_oracle_configured, handle_oracle_rate,
  handle_oracle_redemption, handle_oracle_invalidated, handle_oracle_max_confidence,
  handle_oracle_publish,
}
use clear_evmi_plugin.Exec.{Exec, pure, numeric_opt, ◌>>=◌}
use clear_evmi_plugin.Exec.Ensures.{
  Ensures, Keeps, Ensures-pure, Ensures-write, Ensures-if, Ensures-then, Ensures-read, Ensures-bind,
}

-- The price of a row and the time of its feed.
abbrev pub quote_of : OracleRow → Option ℤ × Option ℤ
quote_of row = (row.price, row.publish_time)

abbrev pub quote_in : Option OracleRow → Option (Option ℤ × Option ℤ)
quote_in none = none
quote_in (some row) = some (quote_of row)

-- The price is 0, and the feed's time NULL.
abbrev pub IsUnpriced : ℕ × Text → Db → Type 0
IsUnpriced key d = quote_in (find key d.oracle_prices) ≡ some (some (pos 0), none)

abbrev invalid : Option ℤ × Option ℤ
invalid = (some (pos 0), none)

-- An event that leaves an invalid price so, or is of another asset.
abbrev Spares : Bool → (OracleRow → OracleRow) → Type 0
Spares own set =
    (own ≡ false) ⊎ ((row : OracleRow) → quote_of row ≡ invalid → quote_of (set row) ≡ invalid)

some_injective : (a b : Option ℤ × Option ℤ) → some a ≡ some b → a ≡ b
some_injective a b e = ap (λ o. coalesce o a) e

invalid-upserted :
    (fresh : OracleRow) (set : OracleRow → OracleRow) (o : Option OracleRow)
    → quote_of fresh ≡ invalid
    → ((row : OracleRow) → quote_of (set row) ≡ invalid)
    → some (quote_of (upserted fresh set o)) ≡ some invalid
invalid-upserted fresh set none e h = ap some e
invalid-upserted fresh set (some row) e h = ap some (h row)

upsert-invalid :
    (own : ℕ × Text) (fresh : OracleRow) (set : OracleRow → OracleRow)
    (t : Table (ℕ × Text) OracleRow)
    → quote_of fresh ≡ invalid
    → ((row : OracleRow) → quote_of (set row) ≡ invalid)
    → quote_in (find own (upsert own fresh set t)) ≡ some invalid
upsert-invalid own fresh set t e h =
    ap quote_in (find-upsert own own fresh set t)
    ∙ rw (==-refl own) (invalid-upserted fresh set (find own t) e h)

module _ (key : ℕ × Text) (own : ℕ × Text) (fresh : OracleRow) (set : OracleRow → OracleRow)
    (spares : Spares (own == key) set) where
  upserted-quote :
      (o : Option OracleRow)
      → ((row : OracleRow) → quote_of row ≡ invalid → quote_of (set row) ≡ invalid)
      → quote_in o ≡ some invalid
      → some (quote_of (upserted fresh set o)) ≡ some invalid
  upserted-quote none same h = cc
  upserted-quote (some row) same h = ap some (same row (some_injective (quote_of row) invalid h))

  quote-upsert :
      (t : Table (ℕ × Text) OracleRow)
      → quote_in (find key t) ≡ some invalid
      → quote_in (find key (upsert own fresh set t)) ≡ some invalid
  quote-upsert t h = elim (Bool-cases (own == key)) [
    | inr other ↦ ap quote_in (find-upsert own key fresh set t) ∙ rw other h
    | inl mine ↦ elim spares [
      | inl other ↦ cc
      | inr same ↦
          ap quote_in (find-upsert own key fresh set t)
          ∙ rw mine (
              upserted-quote (find own t) same
                (ap (λ k. quote_in (find k t)) (==-eq own key mine) ∙ h))
    ]
  ]

module _ (key : ℕ × Text) (pg : Postgres) (log : LogEvent) where
  abbrev pub own_key : ℕ × Text
  own_key = (log.chain_id, asset pg log)

  fold-Keeps :
      (set : OracleRow → OracleRow)
      → Spares (own_key == key) set
      → Keeps (IsUnpriced key) (fold pg log set)
  unfolding fold fold_oracle
  fold-Keeps set spares =
      Ensures-write _ (λ d p. quote-upsert key own_key _ set spares d.oracle_prices p)

  with_asset-Keeps :
      (m : Exec (Unit {0}))
      → Keeps (IsUnpriced key) m
      → Keeps (IsUnpriced key) (with_asset pg log m)
  unfolding with_asset
  with_asset-Keeps m h =
      Ensures-if (is_empty (asset pg log)) (pure tt) m
        (λ _. Ensures-pure tt (λ _. IsUnpriced key) (λ d p. p)) (λ _. h)

  opt-Keeps :
      (o : Option Text) (f : Option ℤ → Exec (Unit {0}))
      → ((n : Option ℤ) → Keeps (IsUnpriced key) (f n))
      → Keeps (IsUnpriced key) (numeric_opt pg o >>= f)
  unfolding numeric_opt
  opt-Keeps none f h =
      Ensures-bind _ _ (λ _. IsUnpriced key) _ (Ensures-pure none (λ _. IsUnpriced key) (λ d p. p))
        h
  opt-Keeps (some v) f h =
      Ensures-bind _ _ (λ _. IsUnpriced key) _
        (Ensures-read pg v _ (λ n. Ensures-pure (some n) (λ _. IsUnpriced key) (λ d p. p))) h

  pub configured-Keeps : Keeps (IsUnpriced key) (handle_oracle_configured pg log)
  unfolding handle_oracle_configured
  configured-Keeps = with_asset-Keeps _ (
      opt-Keeps _ _ (λ a.
        opt-Keeps _ _
          (λ b. opt-Keeps _ _ (λ c. opt-Keeps _ _ (λ r. fold-Keeps _ (inr (λ row h. h)))))))

  pub redemption-Keeps : Keeps (IsUnpriced key) (handle_oracle_redemption pg log)
  unfolding handle_oracle_redemption
  redemption-Keeps = with_asset-Keeps _ (Ensures-read pg _ _ (λ p. fold-Keeps _ (inr (λ row h. h))))

  pub max_confidence-Keeps : Keeps (IsUnpriced key) (handle_oracle_max_confidence pg log)
  unfolding handle_oracle_max_confidence
  max_confidence-Keeps =
      with_asset-Keeps _ (Ensures-read pg _ _ (λ p. fold-Keeps _ (inr (λ row h. h))))

  pub rate-Keeps : (own_key == key) ≡ false → Keeps (IsUnpriced key) (handle_oracle_rate pg log)
  unfolding handle_oracle_rate append_price
  rate-Keeps other = with_asset-Keeps _ (
      Ensures-read pg _ _ (λ p.
        Ensures-then _ _ (IsUnpriced key) _ (fold-Keeps _ (inl other))
          (Ensures-write _ (λ d h. h))))

  pub publish-Keeps :
      (own_key == key) ≡ false → Keeps (IsUnpriced key) (handle_oracle_publish pg log)
  unfolding handle_oracle_publish
  publish-Keeps other =
      with_asset-Keeps _ (Ensures-read pg _ _ (λ p. opt-Keeps _ _ (λ t. fold-Keeps _ (inl other))))

  pub invalidated-Keeps : Keeps (IsUnpriced key) (handle_oracle_invalidated pg log)
  unfolding handle_oracle_invalidated
  invalidated-Keeps = with_asset-Keeps _ (fold-Keeps _ (inr (λ row h. refl)))

-- Right after the event, of the asset itself.
pub invalidated-IsUnpriced :
    (pg : Postgres) (log : LogEvent)
    → is_empty (asset pg log) ≡ false
    → Ensures
        (λ d. Unit {0})
        (handle_oracle_invalidated pg log)
        (λ _. IsUnpriced (log.chain_id, asset pg log))
unfolding handle_oracle_invalidated with_asset fold fold_oracle
invalidated-IsUnpriced pg log named =
    Ensures-if (is_empty (asset pg log)) _ _ (λ e. absurd (true≢false (sym e ∙ named)))
      (λ _.
        Ensures-write _ (λ d p.
          upsert-invalid (log.chain_id, asset pg log) _ _ d.oracle_prices refl (λ row. refl)))
