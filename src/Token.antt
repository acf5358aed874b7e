-- ===== src/Token.antt =====
-- The directory of ERC20 tokens: `tokenMeta` and `fetchTokenMeta` of curve.go, `ensureToken` and
-- `ensureTokens` of handlers.go.
pub mod Once
use clear_evmi_plugin.Prelude.{
  ℕ, Bool, ◌&&◌, ◌||◌, not, List, [], ◌∷◌, Option, none, some, is_none, or_else, nat_equality,
  list_equality, pair_equality, if◌then◌else◌,
}
use clear_evmi_plugin.Prelude.Int.{ℤ, pos}
use clear_evmi_plugin.Text.{Text, trim_space}
use clear_evmi_plugin.Address.{norm_addr, is_zero_addr}
use clear_evmi_plugin.Args.{is_empty, null_empty}
use clear_evmi_plugin.Registry.{block_or_null}
use clear_evmi_plugin.Table.{find, insert_new, modify}
use clear_evmi_plugin.Db.{TokenRow}
use clear_evmi_plugin.Rpc.{TokenAnswers, Rpc}
use clear_evmi_plugin.Exec.{Exec, request_failed, pure, raise, statement, write, ◌>>=◌, ◌>>◌}

-- What an ERC20 says about itself; an empty text and `none` are unknown.
pub record TokenMeta : Type 0 where
  pub name : Text
  pub symbol : Text
  pub decimals : Option ℤ

abbrev pub no_meta : TokenMeta
no_meta = record { name = []; symbol = []; decimals = none }

unfoldable pub is_complete : TokenMeta → Bool
is_complete m = not (is_empty m.name) && not (is_empty m.symbol) && not (is_none m.decimals)

unfoldable pub is_empty_meta : TokenMeta → Bool
is_empty_meta m = is_empty m.name && is_empty m.symbol && is_none m.decimals

unfoldable pub with_fallback : TokenMeta → TokenMeta → TokenMeta
with_fallback m hints = record {
  name = if is_empty m.name then hints.name else m.name;
  symbol = if is_empty m.symbol then hints.symbol else m.symbol;
  decimals = or_else m.decimals hints.decimals;
}

trimmed : Option Text → Text
trimmed none = []
trimmed (some s) = trim_space s

as_decimals : Option ℕ → Option ℤ
as_decimals none = none
as_decimals (some n) = some (pos n)

unfoldable pub read_answers : TokenAnswers → TokenMeta
unfolding trimmed as_decimals
read_answers a = record {
  name = trimmed a.name;
  symbol = trimmed a.symbol;
  decimals = as_decimals a.decimals;
}

unfoldable pub fetch_token_meta : Rpc → Text → Exec TokenMeta
fetch_token_meta rpc addr = elim (rpc.token_call addr) [
  | none ↦ raise request_failed
  | some a ↦ pure (read_answers a)
]

-- The hints, completed by the chain where that is asked for and can be.
unfoldable pub meta_for : Option Rpc → Text → Bool → TokenMeta → Exec TokenMeta
meta_for none addr created hints = pure hints
meta_for (some rpc) addr created hints =
    if created && not (is_complete hints)
    then (do fetched ← fetch_token_meta rpc addr; pure (with_fallback fetched hints))
    else pure hints

-- `UPDATE clear_tokens SET name = COALESCE(name, NULLIF($3, '')), …`
unfoldable pub patch_token : TokenMeta → TokenRow → TokenRow
patch_token m row = record row {
  name = or_else row.name (null_empty m.name);
  symbol = or_else row.symbol (null_empty m.symbol);
  decimals = or_else row.decimals m.decimals;
}

unfoldable pub claim_token : ℕ → Text → ℕ → Exec Bool
claim_token chain_id addr block = statement (λ d. (
  is_none (find (chain_id, addr) d.tokens),
  record d {
    tokens =
        insert_new (chain_id, addr)
          (record {
            name = none;
            symbol = none;
            decimals = none;
            first_block = block_or_null block;
          })
          d.tokens;
  },
))

unfoldable pub store_meta : ℕ → Text → Bool → TokenMeta → Exec (Unit {0})
store_meta chain_id addr created m =
    if not created && is_empty_meta m
    then pure tt
    else write (λ d. record d { tokens = modify (chain_id, addr) (patch_token m) d.tokens })

unfoldable pub register_token : Option Rpc → ℕ → Text → ℕ → TokenMeta → Exec (Unit {0})
register_token rpc chain_id addr block hints = do
  created ← claim_token chain_id addr block
  m ← meta_for rpc addr created hints
  store_meta chain_id addr created m

unfoldable pub ensure_token : Option Rpc → ℕ → Text → ℕ → TokenMeta → Exec (Unit {0})
ensure_token rpc chain_id raw block hints =
    let addr = norm_addr raw in
    if is_empty addr || is_zero_addr addr
    then pure tt
    else register_token rpc chain_id addr block hints

unfoldable pub ensure_tokens : Option Rpc → ℕ → List Text → ℕ → Exec (Unit {0})
ensure_tokens rpc chain_id [] block = pure tt
ensure_tokens rpc chain_id (addr ∷ addrs) block =
    let rest = ensure_tokens rpc chain_id addrs block in
    do ensure_token rpc chain_id addr block no_meta; rest
