-- ===== src/ArrayArg/RoundTrip.antt =====
-- Array arguments that a server serializes, read back.
use clear_evmi_plugin.Prelude.{
  ℕ, ◌≡◌, refl, ap, ◌∙◌, true, not, List, [], ◌∷◌, ◌++◌, ◌||◌, arith, if◌then◌else◌,
}
use clear_evmi_plugin.Text.{
  keep_right, Text, trim_space, drop_left, drop_right, is_space, has_prefix,
}
use clear_evmi_plugin.Args.{is_empty}
use clear_evmi_plugin.Json.{json_array}
use clear_evmi_plugin.Json.Strings.{
  quoted_array, all_plain, between_commas, json_array-quoted_array,
}
use clear_evmi_plugin.ArrayArg.{
  ArrayArg, split_array_arg, elements, absent, not_array, ends_with, by_json,
}

unfoldable pub bracketed : Text → Text
bracketed s = s ++ b']' ∷ []

pub drop_right-bracketed : (s : Text) → drop_right is_space (bracketed s) ≡ bracketed s
unfolding drop_right bracketed is_space
drop_right-bracketed [] = refl
drop_right-bracketed (c ∷ []) = refl
drop_right-bracketed (c ∷ d ∷ s) = ap (keep_right is_space c) (drop_right-bracketed (d ∷ s))

pub ends_with-bracketed : (c : ℕ) (s : Text) → ends_with b']' (c ∷ bracketed s) ≡ true
unfolding ends_with bracketed
ends_with-bracketed c [] = refl
ends_with-bracketed c (d ∷ s) = ends_with-bracketed d s

trim_space-quoted_array : (els : List Text) → trim_space (quoted_array els) ≡ quoted_array els
unfolding trim_space drop_left is_space quoted_array bracketed
trim_space-quoted_array els = drop_right-bracketed (b'[' ∷ between_commas els)

quoted_array-ends_with : (els : List Text) → ends_with b']' (quoted_array els) ≡ true
unfolding quoted_array bracketed
quoted_array-ends_with els = ends_with-bracketed b'[' (between_commas els)

begins : (els : List Text) → has_prefix (quoted_array els) (b'[' ∷ []) ≡ true
unfolding quoted_array has_prefix
begins els = refl

pub read_brackets :
    (s : Text) (a : ArrayArg)
    → has_prefix s (b'[' ∷ []) ≡ true
    → ends_with b']' s ≡ true
    → (if is_empty s
        then absent
        else if not (has_prefix s (b'[' ∷ [])) || not (ends_with b']' s)
        then not_array
        else a)
      ≡ a
unfolding has_prefix
read_brackets [] a p e = cc
read_brackets (c ∷ s) a p e = ground arith

-- An array of texts that a server serializes as JSON strings is read back as it was: given that no
-- byte of them is a quote, a backslash or a control byte.
pub split_array_arg-quoted_array :
    (els : List Text) → all_plain els ≡ true → split_array_arg (quoted_array els) ≡ elements els
unfolding split_array_arg by_json
split_array_arg-quoted_array els plain =
    rw (trim_space-quoted_array els, split_array_arg)
      (read_brackets (quoted_array els) (by_json (quoted_array els) (json_array (quoted_array els)))
          (begins els) (quoted_array-ends_with els)
        ∙ ap (by_json (quoted_array els)) (json_array-quoted_array els plain))
