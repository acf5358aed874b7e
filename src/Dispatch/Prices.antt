-- ===== src/Dispatch/Prices.antt =====
-- Sequences of events of an oracle, by the price of one asset.
use clear_evmi_plugin.Prelude.{
  ℕ, ◌≡◌, String, subst, sym, Bool, true, false, ◌&&◌, ◌||◌, List, [], ◌∷◌, ◌==◌, arith,
  nat_equality, list_equality, pair_equality, string_equality,
}
use clear_evmi_plugin.Text.{Text}
use clear_evmi_plugin.Args.{is_empty}
use clear_evmi_plugin.Event.{LogEvent}
use clear_evmi_plugin.Kind.{oracle_kind}
use clear_evmi_plugin.Oracle.{asset, handle_oracle_invalidated}
use clear_evmi_plugin.Oracle.Invalidated.{
  IsUnpriced, own_key, configured-Keeps, redemption-Keeps, max_confidence-Keeps, rate-Keeps,
  publish-Keeps, invalidated-Keeps, invalidated-IsUnpriced,
}
use clear_evmi_plugin.Dispatch.{Setup, dispatch, select_case, cases_of, oracle_cases}
use clear_evmi_plugin.Exec.{Exec, pure, ◌>>◌}
use clear_evmi_plugin.Exec.Ensures.{Ensures, Keeps, Ensures-pure, Ensures-if, Ensures-then}

-- Events of an oracle, one after another.
unfoldable pub dispatch_each : Setup → List LogEvent → Exec (Unit {0})
dispatch_each setup [] = pure tt
dispatch_each setup (log ∷ logs) = dispatch setup log oracle_kind >> dispatch_each setup logs

module _ (setup : Setup) (key : ℕ × Text) where
  -- Whether a log sets the price of the asset.
  abbrev pub is_price_event : LogEvent → Bool
  is_price_event log =
      (log.event_name == "ClearOracleRateChanged" || log.event_name == "PriceUpdated")
      && own_key key setup.pg log == key

  not_own :
      (rate publish own : Bool) → ((rate || publish) && own) ≡ false → rate ≡ true → own ≡ false
  not_own rate publish own h e = ground arith

  not_own_either :
      (rate publish own : Bool) → ((rate || publish) && own) ≡ false → publish ≡ true → own ≡ false
  not_own_either rate publish own h e = ground arith

  rate-other :
      (log : LogEvent)
      → is_price_event log ≡ false
      → (log.event_name == "ClearOracleRateChanged") ≡ true
      → (own_key key setup.pg log == key) ≡ false
  rate-other log =
      not_own (log.event_name == "ClearOracleRateChanged") (log.event_name == "PriceUpdated")
        (own_key key setup.pg log == key)

  publish-other :
      (log : LogEvent)
      → is_price_event log ≡ false
      → (log.event_name == "PriceUpdated") ≡ true
      → (own_key key setup.pg log == key) ≡ false
  publish-other log =
      not_own_either (log.event_name == "ClearOracleRateChanged") (log.event_name == "PriceUpdated")
        (own_key key setup.pg log == key)

  dispatch-IsUnpriced :
      (log : LogEvent)
      → is_price_event log ≡ false
      → Keeps (IsUnpriced key) (dispatch setup log oracle_kind)
  unfolding dispatch select_case cases_of oracle_cases
  dispatch-IsUnpriced log spares =
      Ensures-if (log.event_name == "OracleConfigured") _ _ (λ _. configured-Keeps key setup.pg log)
        (λ _.
          Ensures-if (log.event_name == "ClearOracleRateChanged") _ _
            (λ e. rate-Keeps key setup.pg log (rate-other log spares e))
            (λ _.
              Ensures-if (log.event_name == "ClearOracleRedemptionPriceChanged") _ _
                (λ _. redemption-Keeps key setup.pg log)
                (λ _.
                  Ensures-if (log.event_name == "ClearOraclePriceInvalidated") _ _
                    (λ _. invalidated-Keeps key setup.pg log)
                    (λ _.
                      Ensures-if (log.event_name == "PriceUpdated") _ _
                        (λ e. publish-Keeps key setup.pg log (publish-other log spares e))
                        (λ _.
                          Ensures-if (log.event_name == "AssetMaxConfidenceBpsUpdated") _ _
                            (λ _. max_confidence-Keeps key setup.pg log)
                            (λ _. Ensures-pure tt (λ _. IsUnpriced key) (λ d h. h)))))))

  abbrev pub any_price_event : List LogEvent → Bool
  any_price_event [] = false
  any_price_event (log ∷ logs) = is_price_event log || any_price_event logs

  dispatch_each-IsUnpriced :
      (logs : List LogEvent)
      → any_price_event logs ≡ false
      → Keeps (IsUnpriced key) (dispatch_each setup logs)
  unfolding dispatch_each
  dispatch_each-IsUnpriced [] h = Ensures-pure tt (λ _. IsUnpriced key) (λ d p. p)
  dispatch_each-IsUnpriced (log ∷ logs) h =
      Ensures-then _ _ (IsUnpriced key) _ (dispatch-IsUnpriced log (ground arith))
        (dispatch_each-IsUnpriced logs (ground arith))

select_invalidated :
    (setup : Setup) (log : LogEvent) (name : String)
    → name ≡ "ClearOraclePriceInvalidated"
    → select_case name (oracle_cases setup log) ≡ handle_oracle_invalidated setup.pg log
unfolding select_case oracle_cases
select_invalidated setup log name e = rw e

-- Once governance has invalidated the price of an asset, it stays 0, with no time of the feed, whatever
-- events of the oracle follow without an error, until one that sets the price of that asset.
pub invalidated-stays :
    (setup : Setup) (log : LogEvent)
    → log.event_name ≡ "ClearOraclePriceInvalidated"
    → is_empty (asset setup.pg log) ≡ false
    → (logs : List LogEvent) → any_price_event setup (log.chain_id, asset setup.pg log) logs ≡ false
    → Ensures
        (λ d. Unit {0})
        (dispatch setup log oracle_kind >> dispatch_each setup logs)
        (λ _. IsUnpriced (log.chain_id, asset setup.pg log))
unfolding dispatch cases_of
invalidated-stays setup log e named logs quiet =
    let key : ℕ × Text = (log.chain_id, asset setup.pg log) in
    Ensures-then _ _ (IsUnpriced key) _
      (subst (λ m. Ensures (λ d. Unit {0}) m (λ _. IsUnpriced key))
        (sym (select_invalidated setup log log.event_name e))
        (invalidated-IsUnpriced setup.pg log named))
      (dispatch_each-IsUnpriced setup key logs quiet)
