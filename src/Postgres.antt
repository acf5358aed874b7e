-- ===== src/Postgres.antt =====
-- The database server, which is not part of the repository: what the statements rely on.
use clear_evmi_plugin.Prelude.{ℕ, ◌≡◌, ◌&&◌, Bool, true, leb, [], ◌∷◌, Option, none, some}
use clear_evmi_plugin.Prelude.Int.{ℤ, pos, ◌-ℤ◌}
use clear_evmi_plugin.Text.{Text}
use clear_evmi_plugin.Args.{zero_text}

-- A NUMERIC value of a view: `mantissa / 10 ^ scale`.
pub record Decimal : Type 0 where
  pub mantissa : ℤ
  pub scale : ℕ

-- An ASCII digit.
abbrev pub is_digit : ℕ → Bool
is_digit c = leb b'0' c && leb c b'9'

pub record Postgres : Type 0 where
  -- the input function of NUMERIC and BIGINT on the text of an integer; `none` is a refused text
  pub numeric : Text → Option ℤ
  -- `trunc(a / b)`
  pub trunc_div : Decimal → Decimal → Decimal
  pub numeric_zero : numeric zero_text ≡ some (pos 0)
  pub numeric_empty : numeric [] ≡ none
  -- an unsigned number is accepted with a minus sign too, and is negated by it
  pub numeric_signed :
      (c : ℕ) (s : Text) (a : ℤ)
      → is_digit c ≡ true
      → numeric (c ∷ s) ≡ some a
      → numeric (b'-' ∷ c ∷ s) ≡ some (pos 0 -ℤ a)
  -- what is accepted with a minus sign in front is accepted without it
  pub numeric_unsigned :
      (s : Text) (b : ℤ) → numeric (b'-' ∷ s) ≡ some b → numeric s ≡ some (pos 0 -ℤ b)
