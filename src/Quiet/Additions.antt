-- ===== src/Quiet/Additions.antt =====
-- Statements that add to what is written once and for all are quiet.
use clear_evmi_plugin.Prelude.{
  ℕ, String, refl, Option, Bool, nat_equality, list_equality, pair_equality, triple_equality,
  string_equality,
}
use clear_evmi_plugin.Prelude.Int.{ℤ}
use clear_evmi_plugin.Text.{Text}
use clear_evmi_plugin.Address.{norm_addr, norm_addr_idem}
use clear_evmi_plugin.Kind.{ContractKind}
use clear_evmi_plugin.Table.{insert_new}
use clear_evmi_plugin.Db.{Source, SwapRow, ActivityRow, PriceRow, CurveSwapRow, LiquidityRow}
use clear_evmi_plugin.Registry.{persist_contract}
use clear_evmi_plugin.Token.{TokenMeta, claim_token, store_meta}
use clear_evmi_plugin.Reserve.Assets.{list_asset}
use clear_evmi_plugin.Exec.{write}
use clear_evmi_plugin.Records.{
  kept, contracts-KeptIn, swaps-KeptIn, activity-KeptIn, prices-KeptIn, curve_swaps-KeptIn,
  liquidity-KeptIn, tokens-KeptIn, assets-KeptIn,
}
use clear_evmi_plugin.Records.Tokens.{insert_new-KnowsTokens, modify-KnowsTokens}
use clear_evmi_plugin.Records.Positions.{upsert-KeepsNumbers}
use clear_evmi_plugin.Quiet.{amounts_of-SameAmounts, IsQuiet}
use clear_evmi_plugin.Quiet.Rules.{pure-IsQuiet, if-IsQuiet, statement-IsQuiet, write_more-IsQuiet}

pub add_swap-IsQuiet :
    (k : String) (v : SwapRow)
    → IsQuiet (write (λ d. record d { reserve_swaps = insert_new k v d.reserve_swaps }))
add_swap-IsQuiet k v = write_more-IsQuiet _ (λ d. refl) (λ d. swaps-KeptIn (kept d) k v)

pub add_activity-IsQuiet :
    (k : String) (v : ActivityRow)
    → IsQuiet (write (λ d. record d { reserve_activity = insert_new k v d.reserve_activity }))
add_activity-IsQuiet k v = write_more-IsQuiet _ (λ d. refl) (λ d. activity-KeptIn (kept d) k v)

pub add_price-IsQuiet :
    (k : String) (v : PriceRow)
    → IsQuiet
        (write (λ d. record d { oracle_price_history = insert_new k v d.oracle_price_history }))
add_price-IsQuiet k v = write_more-IsQuiet _ (λ d. refl) (λ d. prices-KeptIn (kept d) k v)

pub add_curve_swap-IsQuiet :
    (k : String) (v : CurveSwapRow)
    → IsQuiet (write (λ d. record d { curve_swaps = insert_new k v d.curve_swaps }))
add_curve_swap-IsQuiet k v = write_more-IsQuiet _ (λ d. refl) (λ d. curve_swaps-KeptIn (kept d) k v)

pub add_liquidity-IsQuiet :
    (k : String) (v : LiquidityRow)
    → IsQuiet (write (λ d. record d { curve_liquidity = insert_new k v d.curve_liquidity }))
add_liquidity-IsQuiet k v = write_more-IsQuiet _ (λ d. refl) (λ d. liquidity-KeptIn (kept d) k v)

pub persist_contract-IsQuiet :
    (c : ℕ) (addr : Text) (k : ContractKind) (source : Source) (block : ℕ)
    → IsQuiet (persist_contract c addr k source block)
unfolding persist_contract
persist_contract-IsQuiet c addr k source block =
    write_more-IsQuiet _ (λ d. refl)
      (λ d. contracts-KeptIn (kept d) c (norm_addr addr) _ (norm_addr_idem addr).0)

module _ (c : ℕ) (addr : Text) where
  pub claim_token-IsQuiet : (block : ℕ) → IsQuiet (claim_token c addr block)
  unfolding claim_token
  claim_token-IsQuiet block = statement-IsQuiet _ λ d. record {
    amounts = amounts_of-SameAmounts refl;
    extends = tokens-KeptIn (kept d) _ (insert_new-KnowsTokens (c, addr) _ d.tokens);
  }

  pub store_meta-IsQuiet : (created : Bool) (m : TokenMeta) → IsQuiet (store_meta c addr created m)
  unfolding store_meta
  store_meta-IsQuiet created m = if-IsQuiet _ _ _ (pure-IsQuiet tt) (
      write_more-IsQuiet _ (λ d. refl)
        (λ d. tokens-KeptIn (kept d) _ (modify-KnowsTokens (c, addr) m d.tokens)))

pub list_asset-IsQuiet :
    (i : ℕ) (reserve asset : Text) (decimals : Option ℤ) (iou : Option Text) (weight : Option ℤ)
    → IsQuiet (write (list_asset i reserve asset decimals iou weight))
unfolding list_asset
list_asset-IsQuiet i reserve asset decimals iou weight =
    write_more-IsQuiet _ (λ d. refl)
      λ d.
        assets-KeptIn (kept d) _
          (upsert-KeepsNumbers i reserve asset _ _ (λ a. refl) d.reserve_assets refl)
