-- ===== src/Args/Signs.antt =====
-- `neg` negates what the database reads.
use clear_evmi_plugin.Prelude.{
  ◌≡◌, ◌||◌, Bool, refl, ap, true, false, [], ◌∷◌, some, ◌==◌, ==-eq, inl, inr, ℕ, nat_eq,
  Bool-cases, nat_equality, list_equality,
}
use clear_evmi_plugin.Prelude.Int.{ℤ, pos, ◌-ℤ◌, int_laws}
use clear_evmi_plugin.Text.{Text, has_prefix}
use clear_evmi_plugin.Args.{zero_text, neg}
use clear_evmi_plugin.Postgres.{Postgres, is_digit}

neg_zero : (v : Text) → (v == zero_text) ≡ true → neg v ≡ zero_text
unfolding neg
neg_zero [] h = refl
neg_zero (c ∷ s) h = rw h

neg_minus : (s : Text) → neg (b'-' ∷ s) ≡ s
unfolding neg has_prefix zero_text
neg_minus s = refl

neg_plain :
    (c : ℕ) (s : Text)
    → ((c ∷ s) == zero_text) ≡ false
    → nat_eq c b'-' ≡ false
    → neg (c ∷ s) ≡ b'-' ∷ c ∷ s
unfolding neg has_prefix
neg_plain c s h k = rw (h, k)

-- The text starts as a decimal integer does: with a digit or a minus sign.
abbrev pub is_decimal : Text → Bool
is_decimal [] = false
is_decimal (c ∷ s) = nat_eq c b'-' || is_digit c

module _ (pg : Postgres) where
  -- The database accepts `neg` of every amount that it accepts, and reads the negation there: of the
  -- texts that start with a digit or with a minus sign.
  pub numeric-neg :
      (v : Text) (a : ℤ)
      → is_decimal v ≡ true
      → pg.numeric v ≡ some a
      → pg.numeric (neg v) ≡ some (pos 0 -ℤ a)
  numeric-neg [] a d h = cc
  numeric-neg (c ∷ s) a d h = elim (Bool-cases ((c ∷ s) == zero_text)) [
    | inl zero ↦
        rw (neg_zero (c ∷ s) zero) (zero_negated a (rw (==-eq (c ∷ s) zero_text zero) at h))
    | inr nonzero ↦ elim (Bool-cases (nat_eq c b'-')) [
      | inl minus ↦
          let e : c ≡ b'-' = ==-eq c b'-' minus in
          let unsigned : pg.numeric s ≡ some (pos 0 -ℤ a) = pg.numeric_unsigned s a (rw e at h) in
          cc (unsigned, neg_minus s, ap (λ (d : ℕ). neg (d ∷ s)) e)
      | inr plain ↦
          rw (neg_plain c s nonzero plain)
            (pg.numeric_signed c s a (digit (nat_eq c b'-') (is_digit c) plain d) h)
    ]
  ]
    where
      zero_negated :
          (a : ℤ) → pg.numeric zero_text ≡ some a → pg.numeric zero_text ≡ some (pos 0 -ℤ a)
      zero_negated a h =
          let e : a ≡ pos 0 = cc (pg.numeric_zero) in
          let f : pos 0 -ℤ a ≡ pos 0 = rw e (omega int_laws) in cc (pg.numeric_zero)

      digit : (b d : Bool) → b ≡ false → (b || d) ≡ true → d ≡ true
      digit true d h k = cc
      digit false d h k = k

  -- Where the database accepts a text and the text behind a minus sign, the second is the negation.
  pub numeric-minus :
      (v : Text) (a b : ℤ) → pg.numeric v ≡ some a → pg.numeric (b'-' ∷ v) ≡ some b → b ≡ pos 0 -ℤ a
  numeric-minus v a b h k =
      let unsigned = pg.numeric_unsigned v b k in
      let e : a ≡ pos 0 -ℤ b = cc in rw e (omega int_laws)

  negated_zero :
      (a b : ℤ) → pg.numeric zero_text ≡ some a → pg.numeric zero_text ≡ some b → b ≡ pos 0 -ℤ a
  negated_zero a b h k =
      let e : a ≡ pos 0 = cc (pg.numeric_zero) in
      let f : b ≡ pos 0 = cc (pg.numeric_zero) in rw (e, f) (omega int_laws)

  negated_minus :
      (s : Text) (a b : ℤ) → pg.numeric (b'-' ∷ s) ≡ some a → pg.numeric s ≡ some b → b ≡ pos 0 -ℤ a
  negated_minus s a b h k = rw (numeric-minus s b a k h) (omega int_laws)

  -- Where the database accepts an amount and its `neg`, the second is the negation of the first.
  pub numeric-opposite :
      (v : Text) (a b : ℤ) → pg.numeric v ≡ some a → pg.numeric (neg v) ≡ some b → b ≡ pos 0 -ℤ a
  numeric-opposite [] a b h k = cc (pg.numeric_empty)
  numeric-opposite (c ∷ s) a b h k = elim (Bool-cases ((c ∷ s) == zero_text)) [
    | inl zero ↦
        negated_zero a b (rw (==-eq (c ∷ s) zero_text zero) at h) (rw (neg_zero (c ∷ s) zero) at k)
    | inr nonzero ↦ elim (Bool-cases (nat_eq c b'-')) [
      | inl minus ↦
          let e : c ≡ b'-' = ==-eq c b'-' minus in
          negated_minus s a b (rw e at h) (cc (k, neg_minus s, ap (λ (d : ℕ). neg (d ∷ s)) e))
      | inr plain ↦ numeric-minus (c ∷ s) a b h (rw (neg_plain c s nonzero plain) at k)
    ]
  ]
