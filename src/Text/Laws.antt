-- ===== src/Text/Laws.antt =====
-- ToLower and TrimSpace are idempotent and commute, so normalising a text twice changes nothing.
use clear_evmi_plugin.Prelude.{ℕ, ◌≡◌, refl, Bool, true, not, [], ◌∷◌, arith}
use clear_evmi_plugin.Text.{
  Text, to_lower_byte, to_lower, is_space, drop_left, keep_right, drop_right, trim_space,
}

to_lower_byte_idem : (c : ℕ) → to_lower_byte (to_lower_byte c) ≡ to_lower_byte c
unfolding to_lower_byte
to_lower_byte_idem c = ground arith

is_space-to_lower_byte : (c : ℕ) → is_space (to_lower_byte c) ≡ is_space c
unfolding is_space to_lower_byte
is_space-to_lower_byte c = ground arith

pub to_lower_idem : (s : Text) → to_lower (to_lower s) ≡ to_lower s
unfolding to_lower
to_lower_idem [] = refl
to_lower_idem (c ∷ s) = cc (to_lower_byte_idem c, to_lower_idem s)

drop_left-to_lower : (s : Text) → drop_left is_space (to_lower s) ≡ to_lower (drop_left is_space s)
unfolding drop_left to_lower
drop_left-to_lower [] = refl
drop_left-to_lower (c ∷ s) = ground (arith, is_space-to_lower_byte c, drop_left-to_lower s)

keep_right-to_lower :
    (c : ℕ) (s : Text)
    → keep_right is_space (to_lower_byte c) (to_lower s) ≡ to_lower (keep_right is_space c s)
unfolding to_lower
keep_right-to_lower c [] = ground (arith, is_space-to_lower_byte c)
keep_right-to_lower c (d ∷ s) = refl

drop_right-to_lower :
    (s : Text) → drop_right is_space (to_lower s) ≡ to_lower (drop_right is_space s)
unfolding drop_right to_lower
drop_right-to_lower [] = refl
drop_right-to_lower (c ∷ s) =
    rw (drop_right-to_lower s) (keep_right-to_lower c (drop_right is_space s))

pub trim_space-to_lower : (s : Text) → trim_space (to_lower s) ≡ to_lower (trim_space s)
unfolding trim_space
trim_space-to_lower s = rw (drop_left-to_lower s) (drop_right-to_lower (drop_left is_space s))

-- The text is empty or begins with a byte that is kept.
abbrev begins_kept : (ℕ → Bool) → Text → Bool
begins_kept p [] = true
begins_kept p (c ∷ s) = not (p c)

module _ (p : ℕ → Bool) where
  drop_left-begins_kept : (s : Text) → begins_kept p (drop_left p s) ≡ true
  unfolding drop_left
  drop_left-begins_kept [] = refl
  drop_left-begins_kept (c ∷ s) = ground (arith, drop_left-begins_kept s)

  drop_left_kept : (s : Text) → begins_kept p s ≡ true → drop_left p s ≡ s
  unfolding drop_left
  drop_left_kept [] h = refl
  drop_left_kept (c ∷ s) h = ground arith

  keep_right-begins_kept :
      (c : ℕ) (s : Text) → not (p c) ≡ true → begins_kept p (keep_right p c s) ≡ true
  keep_right-begins_kept c [] h = ground arith
  keep_right-begins_kept c (d ∷ s) h = h

  drop_right-begins_kept :
      (s : Text) → begins_kept p s ≡ true → begins_kept p (drop_right p s) ≡ true
  unfolding drop_right
  drop_right-begins_kept [] h = refl
  drop_right-begins_kept (c ∷ s) h = keep_right-begins_kept c (drop_right p s) h

  drop_right-keep_right :
      (c : ℕ) (s : Text) → drop_right p s ≡ s → drop_right p (keep_right p c s) ≡ keep_right p c s
  unfolding drop_right
  drop_right-keep_right c [] h = ground arith
  drop_right-keep_right c (d ∷ s) h = rw h

  drop_right_idem : (s : Text) → drop_right p (drop_right p s) ≡ drop_right p s
  unfolding drop_right
  drop_right_idem [] = refl
  drop_right_idem (c ∷ s) = drop_right-keep_right c (drop_right p s) (drop_right_idem s)

pub trim_space_idem : (s : Text) → trim_space (trim_space s) ≡ trim_space s
unfolding trim_space
trim_space_idem s =
    let t = drop_left is_space s in
    let kept = drop_right-begins_kept is_space t (drop_left-begins_kept is_space s) in
    rw (drop_left_kept is_space (drop_right is_space t) kept) (drop_right_idem is_space t)
