-- ===== src/Kind.antt =====
-- `contractKind` and its conversions from and to texts: db.go, registry.go, and
-- `reserveKindFromType` of handlers.go.
pub mod Names
use clear_evmi_plugin.Prelude.{
  ◌==◌, Bool, true, false, ◌&&◌, ◌||◌, List, [], ◌∷◌, if◌then◌else◌, nat_equality, list_equality,
}
use clear_evmi_plugin.Text.{Text, text, to_lower, trim_space, contains}

pub data ContractKind : Type 0 where
  unknown_kind base_reserve_kind meta_reserve_kind iou_kind curve_kind : ContractKind
  oracle_kind factory_kind curve_deployer_kind curve_factory_kind : ContractKind

unfoldable pub classify : Text → ContractKind
classify contract_name =
    let n = to_lower contract_name in
    if contains n (text "oracle")
    then oracle_kind
    else if contains n (text "factory")
        && (contains n (text "curve") || contains n (text "stableswap"))
    then curve_factory_kind
    else if contains n (text "deployer")
    then curve_deployer_kind
    else if contains n (text "factory") && contains n (text "reserve")
    then factory_kind
    else if contains n (text "meta") && contains n (text "reserve")
    then meta_reserve_kind
    else if contains n (text "base") && contains n (text "reserve")
    then base_reserve_kind
    else if contains n (text "reserve")
    then base_reserve_kind
    else if contains n (text "iou")
    then iou_kind
    else if contains n (text "curve") || contains n (text "stableswap") || contains n (text "pool")
    then curve_kind
    else unknown_kind

unfoldable pub reserve_type : ContractKind → Text
reserve_type meta_reserve_kind = text "meta"
reserve_type base_reserve_kind = text "base"
reserve_type k = text "reserve"

-- `contractKind.String`
unfoldable pub kind_token : ContractKind → Text
kind_token base_reserve_kind = text "base_reserve"
kind_token meta_reserve_kind = text "meta_reserve"
kind_token iou_kind = text "iou"
kind_token curve_kind = text "curve"
kind_token oracle_kind = text "oracle"
kind_token factory_kind = text "factory"
kind_token curve_deployer_kind = text "curve_deployer"
kind_token curve_factory_kind = text "curve_factory"
kind_token k = text "unknown"

-- The strings of one `case` of a `switch`.
abbrev pub one_of : Text → List Text → Bool
one_of s [] = false
one_of s (c ∷ cs) = s == c || one_of s cs

unfoldable pub kind_from_string : Text → ContractKind
kind_from_string s =
    let n = to_lower (trim_space s) in
    if one_of n (text "base_reserve" ∷ text "basereserve" ∷ text "base" ∷ [])
    then base_reserve_kind
    else if one_of n (text "meta_reserve" ∷ text "metareserve" ∷ text "meta" ∷ [])
    then meta_reserve_kind
    else if one_of n (text "iou" ∷ [])
    then iou_kind
    else if one_of n (text "curve" ∷ text "pool" ∷ text "stableswap" ∷ text "stableswapng" ∷ [])
    then curve_kind
    else if one_of n (text "oracle" ∷ [])
    then oracle_kind
    else if one_of n (text "factory" ∷ text "reserve_factory" ∷ text "reservefactory" ∷ [])
    then factory_kind
    else if one_of n (
        text "curve_deployer"
        ∷ text "curvedeployer"
        ∷ text "pool_deployer"
        ∷ text "pooldeployer"
        ∷ text "deployer"
        ∷ [])
    then curve_deployer_kind
    else if one_of n (
        text "curve_factory"
        ∷ text "curvefactory"
        ∷ text "stableswap_factory"
        ∷ text "stableswapfactory"
        ∷ text "pool_factory"
        ∷ text "poolfactory"
        ∷ [])
    then curve_factory_kind
    else unknown_kind

unfoldable pub reserve_kind_from_type : Text → ContractKind
reserve_kind_from_type s =
    let n = to_lower (trim_space s) in
    if one_of n (text "0" ∷ text "base_reserve" ∷ text "basereserve" ∷ text "base" ∷ [])
    then base_reserve_kind
    else if one_of n (text "1" ∷ text "meta_reserve" ∷ text "metareserve" ∷ text "meta" ∷ [])
    then meta_reserve_kind
    else unknown_kind
