-- ===== src/Prelude/Eq.antt =====
-- Boolean equality as an interface: the keys of maps and tables are its instances.
use Prim.Native.Nat.{ℕ}
use Prim.Native.String.{String}
use text.Mathlib.Text.{◌==◌ as str_eq}
use text.Mathlib.TextEquality.{eq_iff}
use mathlib.Core.Path.{◌≡◌, refl}
use mathlib.Core.Logic.{◌↔◌}
use mathlib.Core.Bool.{Bool, true, false, ◌&&◌}
use mathlib.Core.List.{List, [], ◌∷◌}
use native.Mathlib.Omega.{arith}
use clear_evmi_plugin.Prelude.Tests.{nat_eq}

pub record Equality {ℓ} (A : Type ℓ) : Type ℓ where
  -- whether two are the same
  pub same : A → A → Bool
  pub same_iff : (a b : A) → (same a b ≡ true) ↔ (a ≡ b)

instance abbrev pub string_equality : Equality String
string_equality = record { same = str_eq; same_iff = eq_iff }

pub nat_eq_iff : (a b : ℕ) → (nat_eq a b ≡ true) ↔ (a ≡ b)
nat_eq_iff a b = ground arith

instance abbrev pub nat_equality : Equality ℕ
nat_equality = record { same = nat_eq; same_iff = nat_eq_iff }

infix 50 ◌==◌
-- The test of whichever instance the type has.
abbrev pub ◌==◌ {ℓ} : {K : Type ℓ} ⦃tests : Equality K⦄ → K → K → Bool
◌==◌ ⦃tests⦄ = tests.same

module _ {ℓ} {A : Type ℓ} ⦃e : Equality A⦄ where
  pub ==-refl : (a : A) → (a == a) ≡ true
  ==-refl a = (e.same_iff a a).1 refl

  pub ==-eq : (a b : A) → (a == b) ≡ true → a ≡ b
  ==-eq a b = (e.same_iff a b).0

  pub ==-differ_sym : (a b : A) → (a == b) ≡ false → (b == a) ≡ false
  ==-differ_sym a b = ground (arith, e.same_iff a b, e.same_iff b a)

module _ {ℓ} {A : Type ℓ} ⦃e : Equality A⦄ where
  abbrev pub list_eq : List A → List A → Bool
  list_eq [] [] = true
  list_eq [] (y ∷ ys) = false
  list_eq (x ∷ xs) [] = false
  list_eq (x ∷ xs) (y ∷ ys) = e.same x y && list_eq xs ys

  pub list_eq_iff : (xs ys : List A) → (list_eq xs ys ≡ true) ↔ (xs ≡ ys)
  list_eq_iff [] [] = (λ h. refl, λ h. refl)
  list_eq_iff [] (y ∷ ys) = ground arith
  list_eq_iff (x ∷ xs) [] = ground arith
  list_eq_iff (x ∷ xs) (y ∷ ys) = ground (arith, e.same_iff x y, list_eq_iff xs ys)

  instance abbrev pub list_equality : Equality (List A)
  list_equality = record { same = list_eq; same_iff = list_eq_iff }

module _ {ℓ κ} {A : Type ℓ} {B : Type κ} ⦃e : Equality A⦄ ⦃f : Equality B⦄ where
  abbrev pub pair_eq : A × B → A × B → Bool
  pair_eq p q = e.same p.0 q.0 && f.same p.1 q.1

  pub pair_eq_iff : (p q : A × B) → (pair_eq p q ≡ true) ↔ (p ≡ q)
  pair_eq_iff p q = ground (arith, e.same_iff p.0 q.0, f.same_iff p.1 q.1)

  instance abbrev pub pair_equality : Equality (A × B)
  pair_equality = record { same = pair_eq; same_iff = pair_eq_iff }

module _ {ℓ κ μ} {A : Type ℓ} {B : Type κ} {C : Type μ} ⦃e : Equality A⦄ ⦃f : Equality B⦄
    ⦃g : Equality C⦄ where
  abbrev pub triple_eq : A × B × C → A × B × C → Bool
  triple_eq p q = e.same p.0 q.0 && f.same p.1 q.1 && g.same p.2 q.2

  pub triple_eq_iff : (p q : A × B × C) → (triple_eq p q ≡ true) ↔ (p ≡ q)
  triple_eq_iff p q = ground (arith, e.same_iff p.0 q.0, f.same_iff p.1 q.1, g.same_iff p.2 q.2)

  instance abbrev pub triple_equality : Equality (A × B × C)
  triple_equality = record { same = triple_eq; same_iff = triple_eq_iff }
