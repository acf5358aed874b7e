-- ===== src/Text.antt =====
-- Go strings as lists of bytes, with what db.go, registry.go and handlers.go use of the package
-- `strings`: ToLower, TrimSpace, Trim, HasPrefix, Contains. The texts are ASCII, where these act on
-- each byte.
pub mod Laws
use Prim.Native.Char.{code}
use clear_evmi_plugin.Prelude.{
  ℕ, ◌+◌, String, Bool, true, false, ◌&&◌, ◌||◌, List, [], ◌∷◌, map, leb, nat_eq, if◌then◌else◌,
}

abbrev pub Text : Type 0
Text = List ℕ

-- A literal.
unfoldable pub text : String → Text
text String.[] = []
text (String.◌∷◌ c s) = code c ∷ text s

unfoldable pub to_lower_byte : ℕ → ℕ
to_lower_byte c = if leb b'A' c && leb c b'Z' then c + 32 else c

unfoldable pub to_lower : Text → Text
unfolding to_lower_byte
to_lower = map to_lower_byte

unfoldable pub is_space : ℕ → Bool
is_space c = (leb 9 c && leb c 13) || nat_eq c 32

unfoldable pub drop_left : (ℕ → Bool) → Text → Text
drop_left p [] = []
drop_left p (c ∷ s) = if p c then drop_left p s else c ∷ s

abbrev pub keep_right : (ℕ → Bool) → ℕ → Text → Text
keep_right p c [] = if p c then [] else c ∷ []
keep_right p c (d ∷ s) = c ∷ d ∷ s

unfoldable pub drop_right : (ℕ → Bool) → Text → Text
drop_right p [] = []
drop_right p (c ∷ s) = keep_right p c (drop_right p s)

unfoldable pub trim_space : Text → Text
unfolding drop_left drop_right is_space
trim_space s = drop_right is_space (drop_left is_space s)

-- `strings.Trim(s, "0")`
unfoldable pub trim_zeros : Text → Text
unfolding drop_left drop_right
trim_zeros s = drop_right (λ c. nat_eq c b'0') (drop_left (λ c. nat_eq c b'0') s)

unfoldable pub has_prefix : Text → Text → Bool
has_prefix s [] = true
has_prefix [] (p ∷ ps) = false
has_prefix (c ∷ s) (p ∷ ps) = nat_eq c p && has_prefix s ps

unfoldable pub contains : Text → Text → Bool
unfolding has_prefix
contains [] sub = has_prefix [] sub
contains (c ∷ s) sub = has_prefix (c ∷ s) sub || contains s sub
