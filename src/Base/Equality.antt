-- ===== src/Base/Equality.antt =====
-- Equality tests as an instance, so that `==` serves numbers, texts, pairs and triples.
use Prim.Native.Nat.{ℕ}
use Prim.Native.String.{String}
use mathlib.Core.Bool.{Bool, true, false, ◌&&◌}
use mathlib.Core.Logic.{◌↔◌, ◌≢◌, inl, inr}
use mathlib.Core.List.{List, [], ◌∷◌}
use mathlib.Core.Path.{◌≡◌, refl}
use native.Mathlib.Omega.{arith}
use text.Mathlib.Text.{◌==◌ as str_eq}
use text.Mathlib.TextEquality.{eq_iff}
use inter_gate.Base.Tests.{nat_beq, Bool-cases}

pub record Eq {ℓ} (A : Type ℓ) : Type ℓ where
  pub equal : A → A → Bool
  pub equal_iff : (a b : A) → (equal a b ≡ true) ↔ (a ≡ b)

infix 50 ◌==◌
abbrev pub ◌==◌ {ℓ} : {A : Type ℓ} ⦃e : Eq A⦄ → A → A → Bool
◌==◌ ⦃e⦄ = e.equal

instance abbrev pub string_eq : Eq String
string_eq = record { equal = str_eq; equal_iff = eq_iff }

pub nat_beq_iff : (a b : ℕ) → (nat_beq a b ≡ true) ↔ (a ≡ b)
nat_beq_iff a b = ground arith

instance abbrev pub nat_eq : Eq ℕ
nat_eq = record { equal = nat_beq; equal_iff = nat_beq_iff }

module _ {ℓ κ} {A : Type ℓ} {B : Type κ} ⦃e : Eq A⦄ ⦃f : Eq B⦄ where
  abbrev pub pair_beq : A × B → A × B → Bool
  pair_beq (a, b) (c, d) = (a == c) && (b == d)

  pub pair_beq_iff : (p q : A × B) → (pair_beq p q ≡ true) ↔ (p ≡ q)
  pair_beq_iff (a, b) (c, d) = ground (arith, e.equal_iff a c, f.equal_iff b d)

  instance abbrev pub pair_eq : Eq (A × B)
  pair_eq = record { equal = pair_beq; equal_iff = pair_beq_iff }

module _ {ℓ} {A : Type ℓ} ⦃e : Eq A⦄ where
  abbrev pub triple_beq : A × A × A → A × A × A → Bool
  triple_beq (a, b, c) (x, y, z) = (a == x) && ((b == y) && (c == z))

  pub triple_beq_iff : (p q : A × A × A) → (triple_beq p q ≡ true) ↔ (p ≡ q)
  triple_beq_iff (a, b, c) (x, y, z) =
      ground (arith, e.equal_iff a x, e.equal_iff b y, e.equal_iff c z)

  instance abbrev pub triple_eq : Eq (A × A × A)
  triple_eq = record { equal = triple_beq; equal_iff = triple_beq_iff }

  abbrev pub list_beq : List A → List A → Bool
  list_beq [] [] = true
  list_beq (x ∷ xs) (y ∷ ys) = (x == y) && list_beq xs ys
  list_beq _ _ = false

  pub list_beq_iff : (xs ys : List A) → (list_beq xs ys ≡ true) ↔ (xs ≡ ys)
  list_beq_iff [] [] = ground arith
  list_beq_iff [] (y ∷ ys) = ground arith
  list_beq_iff (x ∷ xs) [] = ground arith
  list_beq_iff (x ∷ xs) (y ∷ ys) = ground (arith, e.equal_iff x y, list_beq_iff xs ys)

  instance abbrev pub list_eq : Eq (List A)
  list_eq = record { equal = list_beq; equal_iff = list_beq_iff }

  pub eq_refl : (a : A) → (a == a) ≡ true
  eq_refl a = (e.equal_iff a a).1 refl

  pub eq→path : (a b : A) → (a == b) ≡ true → a ≡ b
  eq→path a b h = (e.equal_iff a b).0 h

  pub eq_ne : (a b : A) → a ≢ b → (a == b) ≡ false
  eq_ne a b h = elim (Bool-cases (a == b)) [ inl p ↦ absurd (h (eq→path a b p)) | inr p ↦ p ]

  pub ne_of_eq : (a b : A) → (a == b) ≡ false → a ≢ b
  ne_of_eq a b h e = let t : (a == b) ≡ true = rw e (eq_refl b) in ground (arith, t, h)

  -- `a in xs`
  abbrev pub contains : List A → A → Bool
  contains [] a = false
  contains (x ∷ xs) a = let rest = contains xs a in elim (x == a) [ true ↦ true | false ↦ rest ]

  -- No element stands twice.
  abbrev pub IsDistinct : List A → Type 0
  IsDistinct [] = Unit
  IsDistinct (x ∷ xs) = (contains xs x ≡ false) × IsDistinct xs
