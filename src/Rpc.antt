-- ===== src/Rpc.antt =====
-- What the plugin asks of the chain's RPC endpoint (package w3) and of the host (package exporter).
-- Both are outside the repository: a function from a request to its answer, `none` where the
-- request itself fails.
use clear_evmi_plugin.Prelude.{ℕ, Bool, List, Option}
use clear_evmi_plugin.Text.{Text}

-- The answers to `name()`, `symbol()` and `decimals()` of one batched request: `none` for a call
-- that reverted.
pub record TokenAnswers : Type 0 where
  pub name : Option Text
  pub symbol : Option Text
  pub decimals : Option ℕ

-- The arguments of a log that decodes as an ERC20 Transfer.
pub record Minted : Type 0 where
  pub from : Text
  pub to : Text
  pub value : ℕ

-- A log of a receipt, its addresses in lower case, with its Transfer where it is one.
pub record ReceiptLog : Type 0 where
  pub index : ℕ
  pub address : Text
  pub transfer : Option Minted

-- The answers of a pool and of its factory's registry. The decimals of the coins are texts, empty
-- where the registry has none.
pub record PoolAnswers : Type 0 where
  pub token : TokenAnswers
  pub coins : Option (List Text)
  pub coin_decimals : Option (List Text)
  pub implementation : Option Text
  pub is_meta : Option Bool

pub record Rpc : Type 0 where
  -- `common.HexToAddress`, printed in lower case, and whether `common.HexToHash` gives zero
  pub to_address : Text → Text
  pub is_zero_hash : Text → Bool
  pub token_call : Text → Option TokenAnswers
  pub receipt_of : Text → Option (List ReceiptLog)
  pub pool_call : Text → Text → Option PoolAnswers

-- A log source that the host is asked to create.
pub record LogSource : Type 0 where
  pub parent : ℕ
  pub address : Text
  pub abi : ℕ
  pub start_block : ℕ

pub record Host : Type 0 where
  -- the id of the ABI of a name, where the host has it
  pub get_abi : Text → Option (Option ℕ)
  -- the id of the pool ABI, registered under a name
  pub upsert_abi : Text → Option ℕ
  pub accepts_source : LogSource → Bool
