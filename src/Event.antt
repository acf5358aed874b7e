-- ===== src/Event.antt =====
-- `exporter.LogEvent`: a decoded log, as the indexer hands it over.
use clear_evmi_plugin.Prelude.{ℕ, String}
use clear_evmi_plugin.Text.{Text}
use clear_evmi_plugin.Args.{Args}

pub record LogEvent : Type 0 where
  pub id : String
  pub chain_id : ℕ
  pub source_id : ℕ
  pub contract_name : Text
  pub address : Text
  pub event_name : String
  pub args : Args
  pub block_number : ℕ
  pub block_timestamp : ℕ
  pub log_index : ℕ
  pub transaction_hash : Text
