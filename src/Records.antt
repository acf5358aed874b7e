-- ===== src/Records.antt =====
-- What is written once and for all: rows that no statement changes or removes, the known metadata
-- of tokens, and the positions of a reserve's assets.
pub mod Tokens
pub mod Positions
pub mod Contracts
use clear_evmi_plugin.Prelude.{
  ℕ, String, ◌≡◌, refl, ◌∙◌, ap, Bool, true, false, Option, none, some, Equality, ◌==◌, ==-eq, inl,
  inr, Bool-cases, nat_equality, list_equality, pair_equality, triple_equality, string_equality,
  if◌then◌else◌,
}
use clear_evmi_plugin.Text.{Text}
use clear_evmi_plugin.Table.{Table, find, insert_new}
use clear_evmi_plugin.Table.Laws.{find-insert_new, upserted}
use clear_evmi_plugin.Db.{
  Db, ContractRow, TokenRow, AssetRow, SwapRow, ActivityRow, PriceRow, CurveSwapRow, LiquidityRow,
}
use clear_evmi_plugin.Address.{norm_addr}
use clear_evmi_plugin.Records.Contracts.{IsKeyed, insert_new-IsKeyed}
use clear_evmi_plugin.Records.Tokens.{KnowsTokens, KnowsTokens-refl, KnowsTokens-trans}
use clear_evmi_plugin.Records.Positions.{Assets, KeepsNumbers}

module _ {ℓ κ} {K : Type ℓ} {V : Type κ} ⦃e : Equality K⦄ where
  -- Every row of the first table is in the second, unchanged.
  abbrev pub HoldsRows : Table K V → Table K V → Type (ℓ ⊔ κ)
  HoldsRows t t' = (k : K) (v : V) → find k t ≡ some v → find k t' ≡ some v

  pub insert_new-HoldsRows : (k : K) (v : V) (t : Table K V) → HoldsRows t (insert_new k v t)
  insert_new-HoldsRows k v t j w h = rw (find-insert_new k j v t) (elim (Bool-cases (k == j)) [
    | inl met ↦ rw (met, ==-eq k j met, h)
    | inr other ↦ rw (other, h)
  ])

-- The tables that hold them.
pub record Kept : Type 0 where
  pub processed : Table String ℕ
  pub contracts : Table (ℕ × Text) ContractRow
  pub swaps : Table String SwapRow
  pub activity : Table String ActivityRow
  pub prices : Table String PriceRow
  pub curve_swaps : Table String CurveSwapRow
  pub liquidity : Table String LiquidityRow
  pub tokens : Table (ℕ × Text) TokenRow
  pub assets : Table (ℕ × Text × Text) AssetRow

abbrev pub kept : Db → Kept
kept d = record {
  processed = d.processed_events;
  contracts = d.contracts;
  swaps = d.reserve_swaps;
  activity = d.reserve_activity;
  prices = d.oracle_price_history;
  curve_swaps = d.curve_swaps;
  liquidity = d.curve_liquidity;
  tokens = d.tokens;
  assets = d.reserve_assets;
}

-- The second tables only add to the first: claims, contracts, swaps, activity, prices and liquidity
-- events stay as recorded, tokens keep what is known of them, and assets their positions.
pub record KeptIn (a b : Kept) : Type 0 where
  pub processed : HoldsRows a.processed b.processed
  pub contracts : HoldsRows a.contracts b.contracts
  pub keyed : IsKeyed a.contracts → IsKeyed b.contracts
  pub swaps : HoldsRows a.swaps b.swaps
  pub activity : HoldsRows a.activity b.activity
  pub prices : HoldsRows a.prices b.prices
  pub curve_swaps : HoldsRows a.curve_swaps b.curve_swaps
  pub liquidity : HoldsRows a.liquidity b.liquidity
  pub tokens : KnowsTokens a.tokens b.tokens
  pub positions : KeepsNumbers a.assets b.assets

abbrev pub Extends : Db → Db → Type 0
Extends d d' = KeptIn (kept d) (kept d')

pub KeptIn-refl : (a : Kept) → KeptIn a a
KeptIn-refl a = record {
  processed = λ k v h. h;
  contracts = λ k v h. h;
  keyed = λ h. h;
  swaps = λ k v h. h;
  activity = λ k v h. h;
  prices = λ k v h. h;
  curve_swaps = λ k v h. h;
  liquidity = λ k v h. h;
  tokens = KnowsTokens-refl a.tokens;
  positions = λ c r h. h;
}

pub KeptIn-trans : {a b c : Kept} → KeptIn a b → KeptIn b c → KeptIn a c
KeptIn-trans {a} {b} {c} p q = record {
  processed = λ k v h. q.processed k v (p.processed k v h);
  contracts = λ k v h. q.contracts k v (p.contracts k v h);
  keyed = λ h. q.keyed (p.keyed h);
  swaps = λ k v h. q.swaps k v (p.swaps k v h);
  activity = λ k v h. q.activity k v (p.activity k v h);
  prices = λ k v h. q.prices k v (p.prices k v h);
  curve_swaps = λ k v h. q.curve_swaps k v (p.curve_swaps k v h);
  liquidity = λ k v h. q.liquidity k v (p.liquidity k v h);
  tokens = KnowsTokens-trans a.tokens b.tokens c.tokens p.tokens q.tokens;
  positions = λ c r h. q.positions c r (p.positions c r h);
}

-- One table gains a row, or the tokens or assets change.
module _ (a : Kept) where
  pub processed-KeptIn :
      (k : String) (v : ℕ) → KeptIn a (record a { processed = insert_new k v a.processed })
  processed-KeptIn k v = record {
    processed = insert_new-HoldsRows k v a.processed;
    contracts = λ j w h. h;
    keyed = λ h. h;
    swaps = λ j w h. h;
    activity = λ j w h. h;
    prices = λ j w h. h;
    curve_swaps = λ j w h. h;
    liquidity = λ j w h. h;
    tokens = KnowsTokens-refl a.tokens;
    positions = λ c r h. h;
  }

  pub contracts-KeptIn :
      (c : ℕ) (addr : Text) (v : ContractRow)
      → norm_addr addr ≡ addr
      → KeptIn a (record a { contracts = insert_new (c, addr) v a.contracts })
  contracts-KeptIn c addr v normal = record {
    processed = λ j w h. h;
    contracts = insert_new-HoldsRows (c, addr) v a.contracts;
    keyed = insert_new-IsKeyed c addr v a.contracts normal;
    swaps = λ j w h. h;
    activity = λ j w h. h;
    prices = λ j w h. h;
    curve_swaps = λ j w h. h;
    liquidity = λ j w h. h;
    tokens = KnowsTokens-refl a.tokens;
    positions = λ c r h. h;
  }

  pub swaps-KeptIn :
      (k : String) (v : SwapRow) → KeptIn a (record a { swaps = insert_new k v a.swaps })
  swaps-KeptIn k v = record {
    processed = λ j w h. h;
    contracts = λ j w h. h;
    keyed = λ h. h;
    swaps = insert_new-HoldsRows k v a.swaps;
    activity = λ j w h. h;
    prices = λ j w h. h;
    curve_swaps = λ j w h. h;
    liquidity = λ j w h. h;
    tokens = KnowsTokens-refl a.tokens;
    positions = λ c r h. h;
  }

  pub activity-KeptIn :
      (k : String) (v : ActivityRow) → KeptIn a (record a { activity = insert_new k v a.activity })
  activity-KeptIn k v = record {
    processed = λ j w h. h;
    contracts = λ j w h. h;
    keyed = λ h. h;
    swaps = λ j w h. h;
    activity = insert_new-HoldsRows k v a.activity;
    prices = λ j w h. h;
    curve_swaps = λ j w h. h;
    liquidity = λ j w h. h;
    tokens = KnowsTokens-refl a.tokens;
    positions = λ c r h. h;
  }

  pub prices-KeptIn :
      (k : String) (v : PriceRow) → KeptIn a (record a { prices = insert_new k v a.prices })
  prices-KeptIn k v = record {
    processed = λ j w h. h;
    contracts = λ j w h. h;
    keyed = λ h. h;
    swaps = λ j w h. h;
    activity = λ j w h. h;
    prices = insert_new-HoldsRows k v a.prices;
    curve_swaps = λ j w h. h;
    liquidity = λ j w h. h;
    tokens = KnowsTokens-refl a.tokens;
    positions = λ c r h. h;
  }

  pub curve_swaps-KeptIn :
      (k : String) (v : CurveSwapRow)
      → KeptIn a (record a { curve_swaps = insert_new k v a.curve_swaps })
  curve_swaps-KeptIn k v = record {
    processed = λ j w h. h;
    contracts = λ j w h. h;
    keyed = λ h. h;
    swaps = λ j w h. h;
    activity = λ j w h. h;
    prices = λ j w h. h;
    curve_swaps = insert_new-HoldsRows k v a.curve_swaps;
    liquidity = λ j w h. h;
    tokens = KnowsTokens-refl a.tokens;
    positions = λ c r h. h;
  }

  pub liquidity-KeptIn :
      (k : String) (v : LiquidityRow)
      → KeptIn a (record a { liquidity = insert_new k v a.liquidity })
  liquidity-KeptIn k v = record {
    processed = λ j w h. h;
    contracts = λ j w h. h;
    keyed = λ h. h;
    swaps = λ j w h. h;
    activity = λ j w h. h;
    prices = λ j w h. h;
    curve_swaps = λ j w h. h;
    liquidity = insert_new-HoldsRows k v a.liquidity;
    tokens = KnowsTokens-refl a.tokens;
    positions = λ c r h. h;
  }

  pub tokens-KeptIn :
      (t : Table (ℕ × Text) TokenRow) → KnowsTokens a.tokens t → KeptIn a (record a { tokens = t })
  tokens-KeptIn t h = record {
    processed = λ j w h. h;
    contracts = λ j w h. h;
    keyed = λ h. h;
    swaps = λ j w h. h;
    activity = λ j w h. h;
    prices = λ j w h. h;
    curve_swaps = λ j w h. h;
    liquidity = λ j w h. h;
    tokens = h;
    positions = λ c r h. h;
  }

  pub assets-KeptIn : (t : Assets) → KeepsNumbers a.assets t → KeptIn a (record a { assets = t })
  assets-KeptIn t h = record {
    processed = λ j w h. h;
    contracts = λ j w h. h;
    keyed = λ h. h;
    swaps = λ j w h. h;
    activity = λ j w h. h;
    prices = λ j w h. h;
    curve_swaps = λ j w h. h;
    liquidity = λ j w h. h;
    tokens = KnowsTokens-refl a.tokens;
    positions = h;
  }
