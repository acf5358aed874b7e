-- ===== src/Args.antt =====
-- The helpers of db.go and handlers.go on the decoded arguments of an event: a Go map from names
-- to texts, in which a missing key reads as the empty text.
pub mod Signs
use clear_evmi_plugin.Prelude.{
  String, Bool, true, false, ◌||◌, not, List, [], ◌∷◌, Option, none, some, ◌==◌, if◌then◌else◌,
  nat_equality, list_equality, string_equality,
}
use clear_evmi_plugin.Text.{Text, text, to_lower, trim_space, trim_zeros, has_prefix}

abbrev pub Args : Type 0
Args = List (String × Text)

-- `args[key]`
unfoldable pub arg : Args → String → Text
arg [] key = []
arg ((k, v) ∷ args) key = if k == key then v else arg args key

abbrev pub is_empty : Text → Bool
is_empty [] = true
is_empty (c ∷ s) = false

unfoldable pub first_arg : Args → List String → Text
first_arg args [] = []
first_arg args (k ∷ keys) =
    let v = arg args k in if not (is_empty v) then v else first_arg args keys

unfoldable pub zero_text : Text
unfolding text
zero_text = text "0"

unfoldable pub num : Args → String → Text
num args key = let v = arg args key in if not (is_empty v) then v else zero_text

unfoldable pub num_or_zero : Text → Text
num_or_zero v = if is_empty v then zero_text else v

-- `v[1:]`
abbrev pub tail_of : Text → Text
tail_of [] = []
tail_of (c ∷ s) = s

unfoldable pub neg : Text → Text
neg v =
    if is_empty v || v == zero_text
    then zero_text
    else if has_prefix v (b'-' ∷ [])
    then tail_of v
    else b'-' ∷ v

unfoldable pub null_num : Args → String → Option Text
null_num args key = let v = arg args key in if not (is_empty v) then some v else none

unfoldable pub null_empty : Text → Option Text
null_empty s = if is_empty s then none else some s

-- `parseBool`: NULL is `none`.
unfoldable pub parse_bool : Text → Option Bool
parse_bool word =
    let s = to_lower (trim_space word) in
    if is_empty s
    then none
    else if s == text "true" || s == text "1" || s == text "0x1"
    then some true
    else if s == text "false" || s == text "0" || s == text "0x0"
    then some false
    else if has_prefix s (text "0x")
    then some (not (is_empty (trim_zeros (tail_of (tail_of s)))))
    else none
