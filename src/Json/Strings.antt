-- ===== src/Json/Strings.antt =====
-- The JSON rendering of a list of texts, as a server that serializes array arguments writes it, and how
-- the scanner of `json.Unmarshal` reads it.
use clear_evmi_plugin.Prelude.{
  ℕ, ◌≡◌, refl, ap, sym, ◌∙◌, Bool, true, false, ◌&&◌, not, List, [], ◌∷◌, ◌++◌, Option, none, some,
  map, reverse, leb, nat_eq, arith,
}
use mathlib.Core.List.{reverse_aux, reverse-reverse, append_assoc}
use clear_evmi_plugin.Text.{Text}
use clear_evmi_plugin.Json.{scan, json_array, element, unquote}
use clear_evmi_plugin.Json.Scan.{Scanner, array, step, start, is_end, after_value, string_value}

-- A byte that stands for itself inside a JSON string.
unfoldable pub is_plain_byte : ℕ → Bool
is_plain_byte c = leb 32 c && not (nat_eq c b'"') && not (nat_eq c 92)

unfoldable pub is_plain : Text → Bool
unfolding is_plain_byte
is_plain [] = true
is_plain (c ∷ s) = is_plain_byte c && is_plain s

unfoldable pub all_plain : List Text → Bool
unfolding is_plain
all_plain [] = true
all_plain (s ∷ els) = is_plain s && all_plain els

abbrev quoted : Text → Text
quoted s = b'"' ∷ (s ++ b'"' ∷ [])

unfoldable pub commas : List Text → Text
commas [] = []
commas (s ∷ els) = b',' ∷ (quoted s ++ commas els)

unfoldable pub between_commas : List Text → Text
unfolding commas
between_commas [] = []
between_commas (s ∷ els) = quoted s ++ commas els

-- `["a","b"]`
unfoldable pub quoted_array : List Text → Text
unfolding between_commas
quoted_array els = b'[' ∷ (between_commas els ++ b']' ∷ [])

scan-none : (t : Text) → scan t none ≡ none
unfolding scan
scan-none [] = refl
scan-none (c ∷ t) = refl

scan-append : (s t : Text) (o : Option Scanner) → scan (s ++ t) o ≡ scan t (scan s o)
unfolding scan
scan-append [] [] o = refl
scan-append [] (c ∷ t) o = refl
scan-append (c ∷ s) t none = sym (scan-none t)
scan-append (c ∷ s) t (some m) = scan-append s t (step c m)

abbrev inside : Text → List Text → Scanner
inside token out = record { state = string_value; stack = array ∷ []; token = token; out = out }

abbrev behind : Text → List Text → Scanner
behind token out = record { state = after_value; stack = array ∷ []; token = token; out = out }

step-plain :
    (c : ℕ) (token : Text) (out : List Text)
    → is_plain_byte c ≡ true
    → step c (inside token out) ≡ some (inside (c ∷ token) out)
unfolding step is_plain_byte
step-plain c token out h = ground arith

step-quote :
    (token : Text) (out : List Text)
    → step b'"' (inside token out) ≡ some (behind (b'"' ∷ token) out)
unfolding step
step-quote token out = refl

scan-plain :
    (s token : Text) (out : List Text)
    → is_plain s ≡ true
    → scan s (some (inside token out)) ≡ some (inside (reverse_aux s token) out)
unfolding scan is_plain
scan-plain [] token out h = refl
scan-plain (c ∷ s) token out h =
    ap (scan s) (step-plain c token out (ground arith))
    ∙ scan-plain s (c ∷ token) out (ground arith)

-- The closing quote, and the token up to it.
scan-quoted :
    (s token : Text) (out : List Text)
    → is_plain s ≡ true
    → scan (s ++ b'"' ∷ []) (some (inside token out))
      ≡ some (behind (b'"' ∷ reverse_aux s token) out)
unfolding scan
scan-quoted s token out h =
    scan-append s (b'"' ∷ []) (some (inside token out))
    ∙ ap (scan (b'"' ∷ [])) (scan-plain s token out h)
    ∙ step-quote (reverse_aux s token) out

abbrev backwards : Text → Text
backwards s = b'"' ∷ reverse_aux s (b'"' ∷ [])

reverse_aux-reverse_aux {ℓ} :
    {A : Type ℓ} (s t r : List A) → reverse_aux (reverse_aux s t) r ≡ reverse_aux t (s ++ r)
reverse_aux-reverse_aux [] t r = refl
reverse_aux-reverse_aux (c ∷ s) t r = reverse_aux-reverse_aux s (c ∷ t) r

reverse-backwards : (s : Text) → reverse (backwards s) ≡ quoted s
reverse-backwards s = reverse_aux-reverse_aux s (b'"' ∷ []) (b'"' ∷ [])

-- An element behind its opening quote.
scan-element :
    (s rest : Text) (out : List Text)
    → is_plain s ≡ true
    → scan (((s ++ b'"' ∷ []) ++ rest) ++ b']' ∷ []) (some (inside (b'"' ∷ []) out))
      ≡ scan (rest ++ b']' ∷ []) (some (behind (backwards s) out))
scan-element s rest out h =
    let before = some (inside (b'"' ∷ []) out) in
    ap (λ t. scan t before) (append_assoc (s ++ b'"' ∷ []) rest (b']' ∷ []))
    ∙ scan-append (s ++ b'"' ∷ []) (rest ++ b']' ∷ []) before
    ∙ ap (scan (rest ++ b']' ∷ [])) (scan-quoted s (b'"' ∷ []) out h)

abbrev ended : List Text → Scanner
ended out = record { state = after_value; stack = []; token = []; out = out }

scan-commas :
    (els : List Text) (token : Text) (out : List Text)
    → all_plain els ≡ true
    → scan (commas els ++ b']' ∷ []) (some (behind token out))
      ≡ some (record {
        state = after_value;
        stack = [];
        token = [];
        out = reverse_aux (map quoted els) (reverse token ∷ out);
      })
unfolding scan commas all_plain step
scan-commas [] token out h = refl
scan-commas (s ∷ els) token out h =
    scan-element s (commas els) (reverse token ∷ out) (ground arith)
    ∙ scan-commas els (backwards s) (reverse token ∷ out) (ground arith)
    ∙ ap (λ t. some (ended (reverse_aux (map quoted els) (t ∷ reverse token ∷ out))))
        (reverse-backwards s)

unquote-quoted : (s : Text) → is_plain s ≡ true → unquote false (s ++ b'"' ∷ []) ≡ s
unfolding unquote is_plain is_plain_byte
unquote-quoted [] h = refl
unquote-quoted (c ∷ s) h = ground (arith, unquote-quoted s)

elements-quoted : (els : List Text) → all_plain els ≡ true → map element (map quoted els) ≡ els
unfolding element all_plain
elements-quoted [] h = refl
elements-quoted (s ∷ els) h = ground (arith, unquote-quoted s, elements-quoted els)

scan-quoted_array :
    (els : List Text)
    → all_plain els ≡ true
    → scan (quoted_array els) (some start) ≡ some (ended (reverse (map quoted els)))
unfolding scan quoted_array between_commas all_plain start step
scan-quoted_array [] h = refl
scan-quoted_array (s ∷ els) h =
    scan-element s (commas els) [] (ground arith)
    ∙ scan-commas els (backwards s) [] (ground arith)
    ∙ ap (λ t. some (ended (reverse_aux (map quoted els) (t ∷ [])))) (reverse-backwards s)

-- What `json.Unmarshal` hands over of the rendering are the texts.
pub json_array-quoted_array :
    (els : List Text) → all_plain els ≡ true → json_array (quoted_array els) ≡ some els
unfolding json_array is_end
json_array-quoted_array els h =
    rw (scan-quoted_array els h, json_array)
      (ap some (ap (map element) (reverse-reverse (map quoted els)) ∙ elements-quoted els h))

-- An array whose first element begins like a hexadecimal number is no JSON.
pub json_array-hex : (t : Text) → json_array (b'[' ∷ b'0' ∷ b'x' ∷ t) ≡ none
unfolding json_array scan start step
json_array-hex t = rw (scan-none t)
