-- ===== src/Registry.antt =====
-- registry.go: which kind of contract an address is, in the memory of the exporter and in the table
-- `clear_contracts`, which outlasts it. One thread handles the events, so the lock is not modelled.
use clear_evmi_plugin.Prelude.{
  ℕ, zero, suc, Bool, true, false, ◌||◌, List, [], ◌∷◌, Option, none, some, ◌==◌, nat_equality,
  list_equality, pair_equality, if◌then◌else◌,
}
use clear_evmi_plugin.Text.{Text}
use clear_evmi_plugin.Address.{norm_addr}
use clear_evmi_plugin.Kind.{ContractKind, unknown_kind, classify, kind_token, kind_from_string}
use clear_evmi_plugin.Args.{is_empty}
use clear_evmi_plugin.Table.{Table, find, upsert, insert_new}
use clear_evmi_plugin.Db.{ContractRow, Source, config, dynamic}
use clear_evmi_plugin.Event.{LogEvent}
use clear_evmi_plugin.Exec.{Exec, ok, pure, select, write, ◌>>=◌, ◌>>◌}

abbrev pub is_unknown : ContractKind → Bool
is_unknown unknown_kind = true
is_unknown k = false

abbrev pub Registry : Type 0
Registry = Table Text ContractKind

-- The entry of a Go map is written.
abbrev pub remember : Text → ContractKind → Registry → Registry
remember addr k reg = upsert addr k (λ _. k) reg

unfoldable pub remember_kind : Text → ContractKind → Exec (Unit {0})
remember_kind addr k w = (ok tt, record w { registry = remember (norm_addr addr) k w.registry })

-- A block number of a nullable column: 0 is NULL.
abbrev pub block_or_null : ℕ → Option ℕ
block_or_null zero = none
block_or_null (suc n) = some (suc n)

unfoldable pub persist_contract : ℕ → Text → ContractKind → Source → ℕ → Exec (Unit {0})
persist_contract chain_id addr k source block = write (λ d. record d {
  contracts =
      insert_new (chain_id, norm_addr addr)
        (record { kind = kind_token k; source = source; first_block = block_or_null block })
        d.contracts;
})

unfoldable pub track_contract : ℕ → Text → ContractKind → ℕ → Exec (Unit {0})
track_contract chain_id addr k block =
    let a = norm_addr addr in
    if is_empty a || is_unknown k
    then pure tt
    else (do remember_kind a k; persist_contract chain_id a k dynamic block)

unfoldable pub discover : LogEvent → Text → Exec ContractKind
discover log addr =
    let k = classify log.contract_name in
    do
      remember_kind addr k
      if is_unknown k
          then pure k
          else (do persist_contract log.chain_id addr k dynamic log.block_number; pure k)

-- The kind of the log's contract: by address, and on first sight by the ABI name.
unfoldable pub resolve_kind : LogEvent → Exec ContractKind
unfolding discover
resolve_kind log w =
    let addr = norm_addr log.address in
    elim (find addr w.registry) [ some k ↦ pure k w | none ↦ discover log addr w ]

-- `contractConfig`
pub record ContractConfig : Type 0 where
  pub address : Text
  pub kind : Text

-- `seedContracts`: the configured contracts become rows that win over discovered ones.
unfoldable pub seed_contracts : ℕ → List ContractConfig → Exec (Unit {0})
seed_contracts chain_id [] = pure tt
seed_contracts chain_id (c ∷ cs) =
    let addr = norm_addr c.address in
    let k = kind_from_string c.kind in
    let rest = seed_contracts chain_id cs in
    if is_empty addr || is_unknown k then rest else (do
      write (λ d. record d {
        contracts =
            upsert (chain_id, addr)
              (record { kind = kind_token k; source = config; first_block = none })
              (λ row. record row { kind = kind_token k; source = config }) d.contracts;
      })
      rest)

-- The rows of one chain, read into a fresh registry.
unfoldable pub registry_of : ℕ → Table (ℕ × Text) ContractRow → Registry → Registry
registry_of chain_id [] reg = reg
registry_of chain_id (((i, addr), row) ∷ rows) reg =
    let k = kind_from_string row.kind in
    registry_of chain_id rows (
      if i == chain_id
      then (if is_unknown k then reg else remember (norm_addr addr) k reg)
      else reg)

unfoldable pub load_registry : ℕ → Exec (Unit {0})
unfolding registry_of ◌>>=◌
load_registry chain_id = do
  reg ← select (λ d. registry_of chain_id d.contracts [])
  λ w. (ok tt, record w { registry = reg })
