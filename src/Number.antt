-- ===== src/Number.antt =====
-- `strconv.ParseInt(s, 10, 64)`, and `nullInt` of handlers.go and `coinDecimals` of curve.go, which
-- use it.
use clear_evmi_plugin.Prelude.{
  ℕ, zero, suc, ◌+◌, ◌-◌, ◌*◌, ◌^◌, ◌&&◌, String, List, [], ◌∷◌, Option, none, some, leb, nat_eq,
  if◌then◌else◌,
}
use clear_evmi_plugin.Prelude.Int.{ℤ, pos, negsuc}
use clear_evmi_plugin.Text.{Text, trim_space}
use clear_evmi_plugin.Args.{Args, arg}

-- The digits read so far, and those to come.
unfoldable pub digits_from : ℕ → Text → Option ℕ
digits_from n [] = some n
digits_from n (c ∷ s) =
    let rest = digits_from (n * 10 + (c - b'0')) s in
    if leb b'0' c && leb c b'9' then rest else none

-- One digit at least.
unfoldable pub natural : Text → Option ℕ
unfolding digits_from
natural [] = none
natural (c ∷ s) = digits_from 0 (c ∷ s)

abbrev pub negated : ℕ → ℤ
negated zero = pos zero
negated (suc n) = negsuc n

-- Out of the range of int64 is an error.
positive_int64 : Option ℕ → Option ℤ
positive_int64 none = none
positive_int64 (some n) = if leb n (2 ^ 63 - 1) then some (pos n) else none

negative_int64 : Option ℕ → Option ℤ
negative_int64 none = none
negative_int64 (some n) = if leb n (2 ^ 63) then some (negated n) else none

unfoldable pub parse_int : Text → Option ℤ
unfolding natural positive_int64 negative_int64
parse_int [] = none
parse_int (c ∷ s) =
    if nat_eq c b'-'
    then negative_int64 (natural s)
    else if nat_eq c b'+'
    then positive_int64 (natural s)
    else positive_int64 (natural (c ∷ s))

unfoldable pub null_int : Args → String → Option ℤ
null_int args key = parse_int (trim_space (arg args key))

-- The i-th entry, NULL past the end or where it is no number.
unfoldable pub coin_decimals : List Text → ℕ → Option ℤ
coin_decimals [] i = none
coin_decimals (d ∷ ds) zero = parse_int d
coin_decimals (d ∷ ds) (suc i) = coin_decimals ds i
