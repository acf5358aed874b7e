-- ===== src/ArrayArg.antt =====
-- `splitArrayArg`, `jsonArrayArg` and `jsonStrings` of db.go: array arguments in either rendering.
mod Tests
pub mod RoundTrip
pub mod Sprint
use clear_evmi_plugin.Prelude.{
  ℕ, Bool, true, false, ◌&&◌, ◌||◌, not, String, List, [], ◌∷◌, map, Option, none, some, nat_eq,
  if◌then◌else◌,
}
use clear_evmi_plugin.Text.{Text, text, to_lower, trim_space, is_space, has_prefix}
use clear_evmi_plugin.Json.{json_array}
use clear_evmi_plugin.Exec.{Exec, pure, raise, bad_argument}
use clear_evmi_plugin.Args.{Args, arg, is_empty, tail_of}

-- `strings.HasSuffix(s, "]")`, and the text without its last byte
unfoldable pub ends_with : ℕ → Text → Bool
ends_with e [] = false
ends_with e (c ∷ []) = nat_eq c e
ends_with e (c ∷ d ∷ s) = ends_with e (d ∷ s)

unfoldable pub init_of : Text → Text
init_of [] = []
init_of (c ∷ []) = []
init_of (c ∷ d ∷ s) = c ∷ init_of (d ∷ s)

-- A byte in front of the fields that follow it: of the first of them, unless a space comes next.
abbrev begin_field : ℕ → Text → List Text → List Text
begin_field c [] fs = (c ∷ []) ∷ fs
begin_field c (d ∷ s) [] = (c ∷ []) ∷ []
begin_field c (d ∷ s) (f ∷ fs) = if is_space d then (c ∷ []) ∷ f ∷ fs else (c ∷ f) ∷ fs

-- `strings.Fields`
unfoldable pub fields : Text → List Text
unfolding is_space
fields [] = []
fields (c ∷ s) = let fs = fields s in if is_space c then fs else begin_field c s fs

-- What `splitArrayArg` returns: an error, a nil slice, or elements, perhaps none.
pub data ArrayArg : Type 0 where
  not_array absent : ArrayArg
  elements : List Text → ArrayArg

-- The fmt.Sprint rendering, between the brackets.
sprint_elements : Text → ArrayArg
unfolding fields
sprint_elements inner = if is_empty inner then absent else elements (fields inner)

by_json : Text → Option (List Text) → ArrayArg
unfolding sprint_elements init_of trim_space
by_json s (some els) = elements els
by_json s none = sprint_elements (trim_space (init_of (tail_of s)))

unfoldable pub split_array_arg : Text → ArrayArg
unfolding by_json ends_with json_array has_prefix
split_array_arg raw =
    let s = trim_space raw in
    if is_empty s
    then absent
    else if not (has_prefix s (b'[' ∷ [])) || not (ends_with b']' s)
    then not_array
    else by_json s (json_array s)

-- A JSONB column for an array argument: NULL, or an array of strings.
unfoldable pub json_elements : Bool → ArrayArg → Exec (Option (List Text))
json_elements lower not_array = raise bad_argument
json_elements lower absent = pure none
json_elements lower (elements els) = pure (some (if lower then map to_lower els else els))

unfoldable pub json_array_arg : Args → String → Bool → Exec (Option (List Text))
unfolding json_elements
json_array_arg args key lower = json_elements lower (split_array_arg (arg args key))
