-- ===== src/Kind/Names.antt =====
-- The names of kinds: what is stored is read back, and letter case does not matter.
use clear_evmi_plugin.Prelude.{◌≡◌, refl, sym, ◌∙◌, ◌↔◌, Bool, false, ◌||◌, arith}
use clear_evmi_plugin.Text.{Text, text, to_lower, trim_space, contains}
use clear_evmi_plugin.Text.Laws.{to_lower_idem}
use clear_evmi_plugin.Kind.{
  ContractKind, unknown_kind, base_reserve_kind, meta_reserve_kind, iou_kind, curve_kind,
  oracle_kind, factory_kind, curve_deployer_kind, curve_factory_kind, classify, kind_token,
  kind_from_string,
}

token_normal : (k : ContractKind) → to_lower (trim_space (kind_token k)) ≡ kind_token k
unfolding to_lower trim_space kind_token text
token_normal unknown_kind = refl
token_normal base_reserve_kind = refl
token_normal meta_reserve_kind = refl
token_normal iou_kind = refl
token_normal curve_kind = refl
token_normal oracle_kind = refl
token_normal factory_kind = refl
token_normal curve_deployer_kind = refl
token_normal curve_factory_kind = refl

kind_of_token : (k : ContractKind) → kind_from_string (kind_token k) ≡ k
unfolding kind_from_string to_lower trim_space kind_token text
kind_of_token unknown_kind = refl
kind_of_token base_reserve_kind = refl
kind_of_token meta_reserve_kind = refl
kind_of_token iou_kind = refl
kind_of_token curve_kind = refl
kind_of_token oracle_kind = refl
kind_of_token factory_kind = refl
kind_of_token curve_deployer_kind = refl
kind_of_token curve_factory_kind = refl

same_normal :
    (s t : Text)
    → to_lower (trim_space s) ≡ to_lower (trim_space t)
    → kind_from_string s ≡ kind_from_string t
unfolding kind_from_string
same_normal s t h = rw h

-- A text that is the stored token of a kind, up to letter case and surrounding space, is read as
-- that kind.
pub kind_from_string-kind_token :
    (k : ContractKind) (s : Text) → to_lower (trim_space s) ≡ kind_token k → kind_from_string s ≡ k
kind_from_string-kind_token k s h =
    same_normal s (kind_token k) (h ∙ sym (token_normal k)) ∙ kind_of_token k

-- The letter case of an ABI name does not matter to its classification.
pub classify-to_lower : (name : Text) → classify (to_lower name) ≡ classify name
unfolding classify
classify-to_lower name = rw (to_lower_idem name)

-- Some word by which an ABI name is classified occurs in the name.
pub named_by : Text → Bool
named_by name =
    let n = to_lower name in
    contains n (text "oracle")
    || contains n (text "deployer")
    || contains n (text "reserve")
    || contains n (text "iou")
    || contains n (text "curve")
    || contains n (text "stableswap")
    || contains n (text "pool")

-- A contract stays unknown exactly when its ABI name holds none of the words oracle, deployer,
-- reserve, iou, curve, stableswap and pool, in any letter case. The word factory alone does not
-- classify.
pub classify-unknown_iff : (name : Text) → (classify name ≡ unknown_kind) ↔ (named_by name ≡ false)
unfolding classify named_by
classify-unknown_iff name = ground arith
