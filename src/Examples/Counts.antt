-- ===== src/Examples/Counts.antt =====
-- The theorems on counted swaps, on listed tokens, on invalidated prices and on array arguments at concrete inputs.
use clear_evmi_plugin.Prelude.{false, ◌≡◌, refl, [], ◌∷◌, none, some, string_equality}
use clear_evmi_plugin.Text.{text, to_lower, trim_space}
use clear_evmi_plugin.Kind.{base_reserve_kind, oracle_kind}
use clear_evmi_plugin.Table.{find}
use clear_evmi_plugin.Reserve.Events.{handle_reserve_swap}
use clear_evmi_plugin.Reserve.SwapCount.{CountsSwaps, handle_reserve_swap-CountsSwaps}
use clear_evmi_plugin.Curve.{handle_curve_swap}
use clear_evmi_plugin.Curve.SwapCount.{CountsTrades, handle_curve_swap-CountsTrades}
use clear_evmi_plugin.Event.{LogEvent}
use clear_evmi_plugin.Exec.Ensures.{Ensures}
use clear_evmi_plugin.ArrayArg.{split_array_arg, elements}
use clear_evmi_plugin.Json.Strings.{quoted_array, all_plain}
use clear_evmi_plugin.ArrayArg.RoundTrip.{split_array_arg-quoted_array}
use clear_evmi_plugin.ArrayArg.Sprint.{sprinted, is_word, all_words, split_array_arg-sprinted}
use clear_evmi_plugin.Rpc.{Rpc}
use clear_evmi_plugin.Args.{arg}
use clear_evmi_plugin.Oracle.{asset}
use clear_evmi_plugin.Oracle.Invalidated.{IsUnpriced}
use clear_evmi_plugin.Dispatch.{dispatch}
use clear_evmi_plugin.Dispatch.Prices.{dispatch_each, invalidated-stays}
use clear_evmi_plugin.Exec.{World, ok, ◌>>◌, ◌>>=◌, statement, write}
use clear_evmi_plugin.Token.{
  is_complete, no_meta, ensure_token, register_token, claim_token, meta_for, fetch_token_meta,
  store_meta,
}
use clear_evmi_plugin.Token.Once.{ensure_token-asks_once}
use clear_evmi_plugin.Address.{is_zero_addr, norm_addr, zero_address}
use clear_evmi_plugin.Examples.{setup, server, mint, start}

-- A swap of 30 of the token 0xa for 20 of the token 0xb, and one of a Curve pool.
abbrev swapped : LogEvent
swapped = record mint {
  id = "swapped";
  event_name = "Swap";
  args =
      ("tokenIn", text "0xa")
      ∷ ("tokenOut", text "0xb")
      ∷ ("amountIn", text "30")
      ∷ ("amountOut", text "20")
      ∷ [];
}

abbrev exchanged : LogEvent
exchanged = record mint {
  id = "exchanged";
  event_name = "TokenExchange";
  args =
      ("sold_id", text "0")
      ∷ ("tokens_sold", text "30")
      ∷ ("bought_id", text "1")
      ∷ ("tokens_bought", text "29")
      ∷ [];
}

handle_reserve_swap-CountsSwaps_example :
    Ensures
      (λ d. CountsSwaps d × (find swapped.id d.reserve_swaps ≡ none))
      (handle_reserve_swap server swapped base_reserve_kind)
      (λ _. CountsSwaps)
handle_reserve_swap-CountsSwaps_example =
    handle_reserve_swap-CountsSwaps server swapped base_reserve_kind

handle_curve_swap-CountsTrades_example :
    Ensures
      (λ d. CountsTrades d × (find exchanged.id d.curve_swaps ≡ none))
      (handle_curve_swap server exchanged false)
      (λ _. CountsTrades)
handle_curve_swap-CountsTrades_example = handle_curve_swap-CountsTrades server exchanged false

split_array_arg-quoted_array_example :
    split_array_arg (quoted_array (text "10" ∷ text "0xa b" ∷ []))
    ≡ elements (text "10" ∷ text "0xa b" ∷ [])
unfolding text all_plain
split_array_arg-quoted_array_example =
    split_array_arg-quoted_array (text "10" ∷ text "0xa b" ∷ []) refl

split_array_arg-sprinted_example :
    split_array_arg (sprinted (text "aB") (text "0xC" ∷ []))
    ≡ elements (text "0xaB" ∷ text "0xC" ∷ [])
unfolding text is_word all_words
split_array_arg-sprinted_example = split_array_arg-sprinted (text "aB") (text "0xC" ∷ []) refl refl

-- An endpoint that names every token T.
abbrev endpoint : Rpc
endpoint = record {
  to_address = λ s. s;
  is_zero_hash = λ s. false;
  token_call = λ addr. some (record { name = some (text " T "); symbol = none; decimals = some 6 });
  receipt_of = λ hash. none;
  pool_call = λ pool factory. none;
}

after_first : World
after_first = (ensure_token (some endpoint) 1 (text "0xT") 7 no_meta start).1

first_call : ensure_token (some endpoint) 1 (text "0xT") 7 no_meta start ≡ (ok tt, after_first)
unfolding after_first ensure_token register_token claim_token meta_for fetch_token_meta store_meta
    is_zero_addr to_lower trim_space text zero_address ◌>>=◌ statement find is_complete write
first_call = refl

ensure_token-asks_once_example :
    ensure_token (some endpoint) 1 (text "0xT") 9 no_meta after_first
    ≡ ensure_token none 1 (text "0xT") 9 no_meta after_first
ensure_token-asks_once_example =
    ensure_token-asks_once 1 (text "0xT") (some endpoint) 7 no_meta start after_first first_call
      (some endpoint) 9 no_meta after_first refl

-- The price of the asset 0xA is invalidated; then its redemption price changes, and another price.
abbrev invalidation : LogEvent
invalidation = record mint {
  id = "invalidation";
  event_name = "ClearOraclePriceInvalidated";
  args = ("asset", text "0xA") ∷ [];
}

abbrev redemption : LogEvent
redemption = record invalidation {
  id = "redemption";
  event_name = "ClearOracleRedemptionPriceChanged";
  args = ("asset", text "0xA") ∷ ("redemptionPrice", text "99") ∷ [];
}

abbrev other_price : LogEvent
other_price = record invalidation {
  id = "other_price";
  event_name = "ClearOracleRateChanged";
  args = ("asset", text "0xB") ∷ ("price", text "101") ∷ [];
}

invalidated-stays_example :
    Ensures
      (λ d. Unit {0})
      (dispatch setup invalidation oracle_kind
        >> dispatch_each setup (redemption ∷ other_price ∷ []))
      (λ _. IsUnpriced (1, asset setup.pg invalidation))
unfolding text asset arg to_lower trim_space norm_addr
invalidated-stays_example =
    invalidated-stays setup invalidation refl refl (redemption ∷ other_price ∷ []) refl
