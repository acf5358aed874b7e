-- ===== src/Json.antt =====
-- What `encoding/json` does for `splitArrayArg` of db.go: which texts `json.Unmarshal` accepts as an
-- array, and the elements that it hands over. As in that package, a scanner steps from byte to byte
-- with a stack of the open brackets. The texts hold no `\u` escape: they are numbers and addresses.
mod Scan
pub mod Strings
use clear_evmi_plugin.Prelude.{
  ℕ, Bool, true, false, List, [], ◌∷◌, Option, none, some, map, reverse, ◌==◌, nat_eq, nat_equality,
  list_equality, if◌then◌else◌,
}
use clear_evmi_plugin.Text.{Text, text}
use clear_evmi_plugin.Json.Scan.{Scanner, step, start, is_end}

scan : Text → Option Scanner → Option Scanner
scan [] o = o
scan (c ∷ s) none = none
scan (c ∷ s) (some m) = scan s (step c m)

unescape : ℕ → ℕ
unescape c =
    if nat_eq c b'b'
    then 8
    else if nat_eq c b'f'
    then 12
    else if nat_eq c b'n'
    then 10
    else if nat_eq c b'r'
    then 13
    else if nat_eq c b't'
    then 9
    else c

-- The value of a quoted text, from behind its opening quote; the flag tells of a backslash before.
unquote : Bool → Text → Text
unfolding unescape
unquote b [] = []
unquote true (c ∷ s) = unescape c ∷ unquote false s
unquote false (c ∷ s) =
    let rest = unquote false s in
    let behind = unquote true s in
    if nat_eq c b'"' then [] else if nat_eq c 92 then behind else c ∷ rest

-- An element as `splitArrayArg` takes it: the value of a string, the empty text for null, which
-- `json.Unmarshal` leaves as it finds it, and else the token as it stands.
element : Text → Text
unfolding unquote text
element [] = []
element (c ∷ s) =
    if nat_eq c b'"' then unquote false s else if (c ∷ s) == text "null" then [] else c ∷ s

-- `none` where `json.Unmarshal` fails.
unfoldable pub json_array : Text → Option (List Text)
unfolding scan element step start is_end
json_array s = elim (scan s (some start)) [
  | none ↦ none
  | some m ↦ if is_end m then some (map element (reverse m.out)) else none
]
