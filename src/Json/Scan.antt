-- ===== src/Json/Scan.antt =====
-- The steps of the scanner.
use clear_evmi_plugin.Prelude.{
  ℕ, Bool, true, false, ◌&&◌, ◌||◌, List, [], ◌∷◌, Option, none, some, leb, ltb, nat_eq, reverse,
  if◌then◌else◌,
}
use clear_evmi_plugin.Text.{Text, text}

-- What the scanner expects of the next byte.
pub data State : Type 0 where
  open_array : State
  value value_or_end key key_or_end colon after_value : State
  string_value string_value_escape string_key string_key_escape : State
  minus zero_digit digits point fraction exponent exponent_sign exponent_digits : State
  literal : Text → State

pub data Bracket : Type 0 where
  array object : Bracket

pub record Scanner : Type 0 where
  pub state : State
  -- the open brackets, the innermost first
  pub stack : List Bracket
  -- the bytes of the element that is being read, and the elements read, both backwards
  pub token : Text
  pub out : List Text

unfoldable pub start : Scanner
start = record { state = open_array; stack = []; token = []; out = [] }

is_blank : ℕ → Bool
is_blank c = nat_eq c 32 || nat_eq c 9 || nat_eq c 10 || nat_eq c 13

is_digit : ℕ → Bool
is_digit c = leb b'0' c && leb c b'9'

is_escape : ℕ → Bool
is_escape x =
    nat_eq x b'"'
    || nat_eq x 92
    || nat_eq x b'/'
    || nat_eq x b'b'
    || nat_eq x b'f'
    || nat_eq x b'n'
    || nat_eq x b'r'
    || nat_eq x b't'

-- The byte belongs to the element, and the scanner goes on in a state.
abbrev take : ℕ → State → Scanner → Option Scanner
take c s m = some (record m { state = s; token = c ∷ m.token })

abbrev open_with : ℕ → Bracket → State → Scanner → Option Scanner
open_with c b s m = some (record m { state = s; stack = b ∷ m.stack; token = c ∷ m.token })

-- A byte between tokens: it counts only inside an element.
skip : ℕ → Scanner → Scanner
skip c m = elim m.stack [
  | [] ↦ m
  | ◌∷◌ b s ↦ elim s [ [] ↦ m | ◌∷◌ b' s' ↦ record m { token = c ∷ m.token } ]
]

-- An element of the outer array ends.
flush : List Bracket → State → Scanner → Scanner
flush s st m = record m { state = st; stack = s; token = []; out = reverse m.token ∷ m.out }

-- A comma or a bracket behind a value.
close_or_next : ℕ → List Bracket → Scanner → Option Scanner
unfolding flush
close_or_next c [] m = none
close_or_next c (array ∷ []) m =
    if nat_eq c b','
    then some (flush (array ∷ []) value m)
    else if nat_eq c b']'
    then some (flush [] after_value m)
    else none
close_or_next c (array ∷ b ∷ s) m =
    if nat_eq c b','
    then take c value m
    else if nat_eq c b']'
    then some (record m { state = after_value; stack = b ∷ s; token = c ∷ m.token })
    else none
close_or_next c (object ∷ s) m =
    if nat_eq c b','
    then take c key m
    else if nat_eq c b'}'
    then some (record m { state = after_value; stack = s; token = c ∷ m.token })
    else none

behind_value : ℕ → Scanner → Option Scanner
unfolding close_or_next is_blank skip
behind_value c m =
    if is_blank c
    then some (record (skip c m) { state = after_value })
    else close_or_next c m.stack m

begin_value : ℕ → Scanner → Option Scanner
unfolding is_digit is_blank skip text
begin_value c m =
    if is_blank c
    then some (skip c m)
    else if nat_eq c b'"'
    then take c string_value m
    else if nat_eq c b'['
    then open_with c array value_or_end m
    else if nat_eq c b'{'
    then open_with c object key_or_end m
    else if nat_eq c b'-'
    then take c minus m
    else if nat_eq c b'0'
    then take c zero_digit m
    else if is_digit c
    then take c digits m
    else if nat_eq c b't'
    then take c (literal (text "rue")) m
    else if nat_eq c b'f'
    then take c (literal (text "alse")) m
    else if nat_eq c b'n'
    then take c (literal (text "ull")) m
    else none

-- The end of an array right behind its opening bracket.
end_empty : List Bracket → ℕ → Scanner → Option Scanner
end_empty [] c m = none
end_empty (b ∷ []) c m = some (record m { state = after_value; stack = [] })
end_empty (b ∷ b' ∷ s) c m =
    some (record m { state = after_value; stack = b' ∷ s; token = c ∷ m.token })

in_string : ℕ → State → State → State → Scanner → Option Scanner
in_string c here behind_escape closed m =
    if nat_eq c b'"'
    then take c closed m
    else if nat_eq c 92
    then take c behind_escape m
    else if ltb c 32
    then none
    else take c here m

behind_escape : ℕ → State → Scanner → Option Scanner
unfolding is_escape
behind_escape c here m = if is_escape c then take c here m else none

mantissa_end : ℕ → Scanner → Option Scanner
unfolding behind_value
mantissa_end c m = if nat_eq c b'e' || nat_eq c b'E' then take c exponent m else behind_value c m

integer_end : ℕ → Scanner → Option Scanner
unfolding mantissa_end
integer_end c m = if nat_eq c b'.' then take c point m else mantissa_end c m

step_at : State → ℕ → Scanner → Option Scanner
unfolding begin_value behind_value end_empty in_string behind_escape integer_end
step_at open_array c m =
    if is_blank c
    then some m
    else if nat_eq c b'['
    then some (record m { state = value_or_end; stack = array ∷ [] })
    else none
step_at value c m = begin_value c m
step_at value_or_end c m = if nat_eq c b']' then end_empty m.stack c m else begin_value c m
step_at key c m =
    if is_blank c then some (skip c m) else if nat_eq c b'"' then take c string_key m else none
step_at key_or_end c m =
    if is_blank c
    then some (skip c m)
    else if nat_eq c b'"'
    then take c string_key m
    else if nat_eq c b'}'
    then end_empty m.stack c m
    else none
step_at colon c m =
    if is_blank c then some (skip c m) else if nat_eq c b':' then take c value m else none
step_at after_value c m = behind_value c m
step_at string_value c m = in_string c string_value string_value_escape after_value m
step_at string_value_escape c m = behind_escape c string_value m
step_at string_key c m = in_string c string_key string_key_escape colon m
step_at string_key_escape c m = behind_escape c string_key m
step_at minus c m =
    if nat_eq c b'0' then take c zero_digit m else if is_digit c then take c digits m else none
step_at zero_digit c m = integer_end c m
step_at digits c m = if is_digit c then take c digits m else integer_end c m
step_at point c m = if is_digit c then take c fraction m else none
step_at fraction c m = if is_digit c then take c fraction m else mantissa_end c m
step_at exponent c m =
    if nat_eq c b'+' || nat_eq c b'-'
    then take c exponent_sign m
    else if is_digit c
    then take c exponent_digits m
    else none
step_at exponent_sign c m = if is_digit c then take c exponent_digits m else none
step_at exponent_digits c m = if is_digit c then take c exponent_digits m else behind_value c m
step_at (literal []) c m = behind_value c m
step_at (literal (l ∷ ls)) c m =
    if nat_eq c l
    then take c (elim ls [ [] ↦ after_value | ◌∷◌ x xs ↦ literal (x ∷ xs) ]) m
    else none

unfoldable pub step : ℕ → Scanner → Option Scanner
unfolding step_at
step c m = step_at m.state c m

-- The text is one array and blanks around it.
unfoldable pub is_end : Scanner → Bool
is_end m = elim m.state [ after_value ↦ elim m.stack [ [] ↦ true | ◌∷◌ b s ↦ false ] | _ ↦ false ]
