-- ===== src/Patch.antt =====
-- `upsertPatch` of handlers.go and the handlers that fold setters into one row with it or in its
-- manner: reserve settings, the factory's protocol config, the Curve deployer's config.
pub mod Latest
use clear_evmi_plugin.Prelude.{
  ℕ, ◌||◌, List, [], ◌∷◌, Option, none, some, ◌==◌, nat_equality, list_equality, pair_equality,
  string_equality, if◌then◌else◌,
}
use clear_evmi_plugin.Prelude.Int.{ℤ}
use clear_evmi_plugin.Text.{Text, text}
use clear_evmi_plugin.Address.{norm_addr, is_zero_addr}
use clear_evmi_plugin.Kind.{ContractKind, reserve_type}
use clear_evmi_plugin.Args.{arg, is_empty, null_num}
use clear_evmi_plugin.Postgres.{Postgres}
use clear_evmi_plugin.Table.{Table, upsert}
use clear_evmi_plugin.Db.{Db, Cell, null, words, number, PatchRow}
use clear_evmi_plugin.Event.{LogEvent}
use clear_evmi_plugin.Balances.{ensure_reserve}
use clear_evmi_plugin.Exec.{
  Exec, bad_argument, pure, raise, numeric_arg, numeric_opt, write, ◌>>=◌, ◌>>◌,
}

-- The flat list of columns and values, in pairs; `none` where it is malformed.
unfoldable pub pairs_of : List Text → Option (List (Text × Text))
pairs_of [] = none
pairs_of (col ∷ []) = none
pairs_of (col ∷ val ∷ []) = some ((col, val) ∷ [])
pairs_of (col ∷ val ∷ next ∷ rest) = elim (pairs_of (next ∷ rest)) [
  | none ↦ none
  | some pairs ↦ some ((col, val) ∷ pairs)
]

-- What the column of a name holds: all but `curve_factory` are NUMERIC in the patched tables.
unfoldable pub convert : Postgres → List (Text × Text) → Exec (Table Text Cell)
convert pg [] = pure []
convert pg ((col, val) ∷ pairs) =
    let rest = convert pg pairs in
    if col == text "curve_factory"
    then (do cells ← rest; pure ((col, words val) ∷ cells))
    else (do n ← numeric_arg pg val; cells ← rest; pure ((col, number n) ∷ cells))

-- `SET c = EXCLUDED.c` for each column of the event
unfoldable pub set_cells : Table Text Cell → Table Text Cell → Table Text Cell
set_cells [] cells = cells
set_cells ((col, v) ∷ new) cells = set_cells new (upsert col v (λ _. v) cells)

unfoldable pub patch_row :
    ℕ × Text → Text → Table Text Cell → ℕ → Table (ℕ × Text) PatchRow → Table (ℕ × Text) PatchRow
patch_row key kind new block t =
    upsert key (record { kind = kind; cells = set_cells new []; last_block = block })
      (λ row. record row { cells = set_cells new row.cells; last_block = block }) t

pub data PatchTable : Type 0 where
  reserve_settings protocol_config curve_deployer_config : PatchTable

unfoldable pub patch_table : PatchTable → ℕ × Text → Text → Table Text Cell → ℕ → Db → Db
unfolding patch_row
patch_table reserve_settings key kind new block d = record d {
  reserve_settings = patch_row key kind new block d.reserve_settings;
}
patch_table protocol_config key kind new block d = record d {
  protocol_config = patch_row key kind new block d.protocol_config;
}
patch_table curve_deployer_config key kind new block d = record d {
  curve_deployer_config = patch_row key kind new block d.curve_deployer_config;
}

module _ (pg : Postgres) (log : LogEvent) where
  unfoldable pub patch_pairs :
      PatchTable → Text → Text → Option (List (Text × Text)) → Exec (Unit {0})
  patch_pairs table addr kind none = raise bad_argument
  patch_pairs table addr kind (some pairs) = do
    new ← convert pg pairs
    write (patch_table table (log.chain_id, addr) kind new log.block_number)

  unfoldable pub upsert_patch : PatchTable → Text → Text → List Text → Exec (Unit {0})
  unfolding patch_pairs pairs_of
  upsert_patch table addr kind col_vals = patch_pairs table addr kind (pairs_of col_vals)

  unfoldable pub handle_reserve_settings : ContractKind → List Text → Exec (Unit {0})
  handle_reserve_settings k col_vals =
      let reserve = norm_addr log.address in
      do
        ensure_reserve log.chain_id reserve (reserve_type k) log.block_number
        upsert_patch reserve_settings reserve (reserve_type k) col_vals

  unfoldable pub handle_curve_deployer_config : List Text → Exec (Unit {0})
  handle_curve_deployer_config col_vals =
      upsert_patch curve_deployer_config (norm_addr log.address) [] col_vals

  unfoldable pub handle_factory_config : Text → Text → Exec (Unit {0})
  handle_factory_config col value =
      if is_empty value
      then pure tt
      else write (
          patch_table protocol_config (log.chain_id, norm_addr log.address) []
            ((col, words value) ∷ []) log.block_number)

  number_or_null : Option ℤ → Cell
  number_or_null none = null
  number_or_null (some n) = number n

  unfoldable pub handle_factory_implementation : Text → Text → Exec (Unit {0})
  unfolding number_or_null
  handle_factory_implementation impl_col version_col =
      let impl = norm_addr (arg log.args "implementation") in
      if is_empty impl || is_zero_addr impl then pure tt else (do
        version ← numeric_opt pg (null_num log.args "version")
        write (
            patch_table protocol_config (log.chain_id, norm_addr log.address) []
              ((impl_col, words impl) ∷ (version_col, number_or_null version) ∷ [])
              log.block_number))
