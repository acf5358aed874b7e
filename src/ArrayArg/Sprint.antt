-- ===== src/ArrayArg/Sprint.antt =====
-- Array arguments of addresses that Go's fmt.Sprint renders, read back.
use clear_evmi_plugin.Prelude.{
  ℕ, ◌≡◌, refl, ap, ◌∙◌, Bool, true, false, ◌&&◌, not, List, [], ◌∷◌, ◌++◌, none, arith,
}
use clear_evmi_plugin.Text.{
  Text, keep_right, trim_space, drop_left, drop_right, is_space, has_prefix,
}
use clear_evmi_plugin.Json.{json_array}
use clear_evmi_plugin.Json.Strings.{json_array-hex}
use clear_evmi_plugin.ArrayArg.{
  split_array_arg, elements, ends_with, init_of, fields, begin_field, by_json, sprint_elements,
}
use clear_evmi_plugin.ArrayArg.RoundTrip.{
  read_brackets, bracketed, drop_right-bracketed, ends_with-bracketed,
}

-- Not empty, and without spaces.
unfoldable pub is_word : Text → Bool
unfolding is_space
is_word [] = false
is_word (c ∷ []) = not (is_space c)
is_word (c ∷ d ∷ s) = not (is_space c) && is_word (d ∷ s)

unfoldable pub all_words : List Text → Bool
unfolding is_word
all_words [] = true
all_words (s ∷ els) = is_word s && all_words els

-- Each of the further elements behind a space.
unfoldable pub spaced : List Text → Text
spaced [] = []
spaced (s ∷ els) = 32 ∷ (s ++ spaced els)

-- The elements, the first of which is `0x` and what follows.
unfoldable pub between_spaces : Text → List Text → Text
unfolding spaced
between_spaces s els = (b'0' ∷ b'x' ∷ s) ++ spaced els

-- `[0xa 0xb]`
unfoldable pub sprinted : Text → List Text → Text
unfolding between_spaces
sprinted s els = b'[' ∷ (between_spaces s els ++ b']' ∷ [])

is_word-first : (c : ℕ) (s : Text) → is_word (c ∷ s) ≡ true → is_space c ≡ false
unfolding is_word
is_word-first c [] h = ground arith
is_word-first c (d ∷ s) h = ground arith

begin_field-space : (c : ℕ) (s : Text) (fs : List Text) → begin_field c (32 ∷ s) fs ≡ (c ∷ []) ∷ fs
unfolding is_space
begin_field-space c s [] = refl
begin_field-space c s (f ∷ fs) = refl

fields-word :
    (s : Text) (els : List Text)
    → is_word s ≡ true
    → fields (s ++ spaced els) ≡ s ∷ fields (spaced els)
unfolding fields is_word spaced is_space
fields-word [] els h = cc
fields-word (c ∷ []) [] h = ground arith
fields-word (c ∷ []) (t ∷ els) h =
    ground (arith, begin_field-space c (t ++ spaced els) (fields (t ++ spaced els)))
fields-word (c ∷ d ∷ s) els h = ground (arith, fields-word (d ∷ s) els, is_word-first d s)

fields-spaced : (els : List Text) → all_words els ≡ true → fields (spaced els) ≡ els
unfolding fields all_words spaced
fields-spaced [] h = refl
fields-spaced (s ∷ els) h = ground (arith, fields-word s els, fields-spaced els)

init_of-bracketed : (s : Text) → init_of (bracketed s) ≡ s
unfolding init_of bracketed
init_of-bracketed [] = refl
init_of-bracketed (c ∷ []) = refl
init_of-bracketed (c ∷ d ∷ s) = ap (λ t. c ∷ t) (init_of-bracketed (d ∷ s))

drop_right-word :
    (s : Text) (els : List Text)
    → is_word s ≡ true
    → all_words els ≡ true
    → drop_right is_space (s ++ spaced els) ≡ s ++ spaced els
unfolding drop_right is_word all_words spaced is_space
drop_right-word [] els h k = cc
drop_right-word (c ∷ []) [] h k = ground arith
drop_right-word (c ∷ []) ([] ∷ els) h k = cc
drop_right-word (c ∷ []) ((d ∷ s) ∷ els) h k =
    ap (λ t. keep_right is_space c (keep_right is_space 32 t))
      (drop_right-word (d ∷ s) els (ground arith) (ground arith))
drop_right-word (c ∷ d ∷ s) els h k =
    ap (keep_right is_space c) (drop_right-word (d ∷ s) els (ground arith) k)

hex-IsWord : (s : Text) → is_word s ≡ true → is_word (b'0' ∷ b'x' ∷ s) ≡ true
unfolding is_word is_space
hex-IsWord [] h = cc
hex-IsWord (c ∷ s) h = h

trim_space-sprinted : (s : Text) (els : List Text) → trim_space (sprinted s els) ≡ sprinted s els
unfolding trim_space drop_left is_space sprinted bracketed
trim_space-sprinted s els = drop_right-bracketed (b'[' ∷ between_spaces s els)

trim_space-between_spaces :
    (s : Text) (els : List Text)
    → is_word s ≡ true
    → all_words els ≡ true
    → trim_space (between_spaces s els) ≡ between_spaces s els
unfolding trim_space drop_left is_space between_spaces
trim_space-between_spaces s els h k = drop_right-word (b'0' ∷ b'x' ∷ s) els (hex-IsWord s h) k

begins : (s : Text) (els : List Text) → has_prefix (sprinted s els) (b'[' ∷ []) ≡ true
unfolding sprinted has_prefix
begins s els = refl

sprinted-ends_with : (s : Text) (els : List Text) → ends_with b']' (sprinted s els) ≡ true
unfolding sprinted bracketed
sprinted-ends_with s els = ends_with-bracketed b'[' (between_spaces s els)

between_spaces-elements :
    (s : Text) (els : List Text)
    → is_word s ≡ true
    → all_words els ≡ true
    → sprint_elements (between_spaces s els) ≡ elements ((b'0' ∷ b'x' ∷ s) ∷ els)
unfolding sprint_elements between_spaces
between_spaces-elements s els h k =
    let first : Text = b'0' ∷ b'x' ∷ s in
    ap elements
      (fields-word first els (hex-IsWord s h) ∙ ap (λ fs. first ∷ fs) (fields-spaced els k))

sprinted-elements :
    (s : Text) (els : List Text)
    → is_word s ≡ true
    → all_words els ≡ true
    → by_json (sprinted s els) none ≡ elements ((b'0' ∷ b'x' ∷ s) ∷ els)
unfolding by_json sprinted bracketed
sprinted-elements s els h k =
    ap (λ t. sprint_elements (trim_space t)) (init_of-bracketed (between_spaces s els))
    ∙ ap sprint_elements (trim_space-between_spaces s els h k)
    ∙ between_spaces-elements s els h k

json_array-sprinted : (s : Text) (els : List Text) → json_array (sprinted s els) ≡ none
unfolding sprinted between_spaces
json_array-sprinted s els = json_array-hex ((s ++ spaced els) ++ b']' ∷ [])

-- An array of addresses that a server renders as fmt.Sprint does, not empty, is read back as it was:
-- given that there is no space in them, and that the first begins with `0x`, with more behind it.
pub split_array_arg-sprinted :
    (s : Text) (els : List Text)
    → is_word s ≡ true
    → all_words els ≡ true
    → split_array_arg (sprinted s els) ≡ elements ((b'0' ∷ b'x' ∷ s) ∷ els)
unfolding split_array_arg
split_array_arg-sprinted s els h k =
    rw (trim_space-sprinted s els, split_array_arg)
      (read_brackets (sprinted s els) (by_json (sprinted s els) (json_array (sprinted s els)))
          (begins s els) (sprinted-ends_with s els)
        ∙ ap (by_json (sprinted s els)) (json_array-sprinted s els)
        ∙ sprinted-elements s els h k)
