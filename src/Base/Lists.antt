-- ===== src/Base/Lists.antt =====
-- Lists measured and indexed by native numbers, under the library's names; filters, sums, bounds.
use Prim.Native.Nat.{ℕ, zero, suc, ◌+◌, ◌-◌, ◌≤◌, ◌<◌, min}
use mathlib.Core.Path.{◌≡◌, refl}
use mathlib.Core.Bool.{Bool, true, false}
use mathlib.Core.List.{List, [], ◌∷◌, ◌++◌}
use mathlib.Core.Option.{Option, none, some}
use mathlib.Core.Logic.{◌⊎◌, inl, inr}
use native.Mathlib.Omega.{arith}
use inter_gate.Base.Tests.{if◌then◌else◌, Bool-cases}

module _ {ℓ} {A : Type ℓ} where
  abbrev pub length : List A → ℕ
  length [] = 0
  length (x ∷ xs) = suc (length xs)

  abbrev pub get_elem? : List A → ℕ → Option A
  get_elem? [] i = none
  get_elem? (x ∷ xs) zero = some x
  get_elem? (x ∷ xs) (suc i) = get_elem? xs i

  abbrev pub get_or : List A → ℕ → A → A
  get_or [] i d = d
  get_or (x ∷ xs) zero d = x
  get_or (x ∷ xs) (suc i) d = get_or xs i d

  abbrev pub take : ℕ → List A → List A
  take zero xs = []
  take (suc n) [] = []
  take (suc n) (x ∷ xs) = x ∷ take n xs

  abbrev pub drop : ℕ → List A → List A
  drop zero xs = xs
  drop (suc n) [] = []
  drop (suc n) (x ∷ xs) = drop n xs

  -- `[x for x in xs if p(x)]`
  abbrev pub filter : (A → Bool) → List A → List A
  filter p [] = []
  filter p (x ∷ xs) = let rest = filter p xs in if p x then x ∷ rest else rest

  abbrev pub any : (A → Bool) → List A → Bool
  any p [] = false
  any p (x ∷ xs) = let rest = any p xs in if p x then true else rest

  abbrev pub sum : (A → ℕ) → List A → ℕ
  sum f [] = 0
  sum f (x ∷ xs) = f x + sum f xs

  abbrev pub All {κ} : (A → Type κ) → List A → Type κ
  All P [] = Unit
  All P (x ∷ xs) = P x × All P xs

  -- Membership with the place kept.
  abbrev pub Elem : A → List A → Type ℓ
  Elem a [] = Unit → ⊥
  Elem a (x ∷ xs) = (a ≡ x) ⊎ Elem a xs

  pub length-append : (xs ys : List A) → length (xs ++ ys) ≡ length xs + length ys
  length-append [] ys = omega arith
  length-append (x ∷ xs) ys = omega (arith, length-append xs ys)

  pub length-take : (n : ℕ) (xs : List A) → length (take n xs) ≡ min n (length xs)
  length-take zero xs = omega arith
  length-take (suc n) [] = omega arith
  length-take (suc n) (x ∷ xs) = omega (arith, length-take n xs)

  pub length-drop : (n : ℕ) (xs : List A) → length (drop n xs) ≡ length xs - n
  length-drop zero xs = omega arith
  length-drop (suc n) [] = omega arith
  length-drop (suc n) (x ∷ xs) = omega (arith, length-drop n xs)

  pub length-filter-le : (p : A → Bool) (xs : List A) → length (filter p xs) ≤ length xs
  length-filter-le p [] = omega arith
  length-filter-le p (x ∷ xs) = ground (arith, length-filter-le p xs)

  pub sum-append : (f : A → ℕ) (xs ys : List A) → sum f (xs ++ ys) ≡ sum f xs + sum f ys
  sum-append f [] ys = omega arith
  sum-append f (x ∷ xs) ys = omega (arith, sum-append f xs ys)

module _ {ℓ} {A : Type ℓ} where
  pub Elem-append_left : (a : A) (xs ys : List A) → Elem a xs → Elem a (xs ++ ys)
  Elem-append_left a [] ys h = absurd (h tt)
  Elem-append_left a (x ∷ xs) ys (inl e) = inl e
  Elem-append_left a (x ∷ xs) ys (inr h) = inr (Elem-append_left a xs ys h)

  pub Elem-append_right : (a : A) (xs ys : List A) → Elem a ys → Elem a (xs ++ ys)
  Elem-append_right a [] ys h = h
  Elem-append_right a (x ∷ xs) ys h = inr (Elem-append_right a xs ys h)

  pub Elem-append_cases : (a : A) (xs ys : List A) → Elem a (xs ++ ys) → Elem a xs ⊎ Elem a ys
  Elem-append_cases a [] ys h = inr h
  Elem-append_cases a (x ∷ xs) ys (inl e) = inl (inl e)
  Elem-append_cases a (x ∷ xs) ys (inr h) = elim (Elem-append_cases a xs ys h) [
    | inl k ↦ inl (inr k)
    | inr k ↦ inr k
  ]

  pub Elem-filter :
      (p : A → Bool) (a : A) (xs : List A) → Elem a xs → p a ≡ true → Elem a (filter p xs)
  Elem-filter p a [] h t = absurd (h tt)
  Elem-filter p a (x ∷ xs) (inl e) t = let u : p x ≡ true = rw (← e) t in rw u (inl e)
  Elem-filter p a (x ∷ xs) (inr h) t = elim (Bool-cases (p x)) [
    | inl u ↦ rw u (inr (Elem-filter p a xs h t))
    | inr u ↦ rw u (Elem-filter p a xs h t)
  ]

  pub filter-Elem :
      (p : A → Bool) (a : A) (xs : List A) → Elem a (filter p xs) → Elem a xs × (p a ≡ true)
  filter-Elem p a [] h = absurd (h tt)
  filter-Elem p a (x ∷ xs) h = elim (Bool-cases (p x)) [
    | inl u ↦ elim (rw u at h) [
      | inl e ↦ (inl e, rw e u)
      | inr k ↦ let r = filter-Elem p a xs k in (inr r.0, r.1)
    ]
    | inr u ↦ let r = filter-Elem p a xs (rw u at h) in (inr r.0, r.1)
  ]

  pub All-Elem {κ} : (P : A → Type κ) (a : A) (xs : List A) → All P xs → Elem a xs → P a
  All-Elem P a [] h m = absurd (m tt)
  All-Elem P a (x ∷ xs) h (inl e) = rw e h.0
  All-Elem P a (x ∷ xs) h (inr m) = All-Elem P a xs h.1 m

  pub Elem-All {κ} : (P : A → Type κ) (xs : List A) → ((a : A) → Elem a xs → P a) → All P xs
  Elem-All P [] h = tt
  Elem-All P (x ∷ xs) h = (h x (inl refl), Elem-All P xs (λ a m. h a (inr m)))

  pub All-append {κ} : (P : A → Type κ) (xs ys : List A) → All P xs → All P ys → All P (xs ++ ys)
  All-append P [] ys h k = k
  All-append P (x ∷ xs) ys h k = (h.0, All-append P xs ys h.1 k)

  pub get_elem?-Elem : (xs : List A) (i : ℕ) (a : A) → get_elem? xs i ≡ some a → Elem a xs
  get_elem?-Elem [] i a h = cc
  get_elem?-Elem (x ∷ xs) zero a h = inl (cc)
  get_elem?-Elem (x ∷ xs) (suc i) a h = inr (get_elem?-Elem xs i a h)

  pub drop-Elem : (n : ℕ) (a : A) (xs : List A) → Elem a (drop n xs) → Elem a xs
  drop-Elem zero a xs h = h
  drop-Elem (suc n) a [] h = h
  drop-Elem (suc n) a (x ∷ xs) h = inr (drop-Elem n a xs h)

  pub take-Elem : (n : ℕ) (a : A) (xs : List A) → Elem a (take n xs) → Elem a xs
  take-Elem zero a xs h = absurd (h tt)
  take-Elem (suc n) a [] h = h
  take-Elem (suc n) a (x ∷ xs) (inl e) = inl e
  take-Elem (suc n) a (x ∷ xs) (inr h) = inr (take-Elem n a xs h)

  pub Elem-take_or_drop :
      (n : ℕ) (a : A) (xs : List A) → Elem a xs → Elem a (take n xs) ⊎ Elem a (drop n xs)
  Elem-take_or_drop zero a xs h = inr h
  Elem-take_or_drop (suc n) a [] h = inl h
  Elem-take_or_drop (suc n) a (x ∷ xs) (inl e) = inl (inl e)
  Elem-take_or_drop (suc n) a (x ∷ xs) (inr h) = elim (Elem-take_or_drop n a xs h) [
    | inl k ↦ inl (inr k)
    | inr k ↦ inr k
  ]

  pub get_or-Elem : (xs : List A) (i : ℕ) (d : A) → i < length xs → Elem (get_or xs i d) xs
  get_or-Elem [] i d h = absurd (omega arith)
  get_or-Elem (x ∷ xs) zero d h = inl refl
  get_or-Elem (x ∷ xs) (suc i) d h = inr (get_or-Elem xs i d (omega arith))

  pub get_elem?-get_or :
      (xs : List A) (i : ℕ) (d : A) → i < length xs → get_elem? xs i ≡ some (get_or xs i d)
  get_elem?-get_or [] i d h = absurd (omega arith)
  get_elem?-get_or (x ∷ xs) zero d h = refl
  get_elem?-get_or (x ∷ xs) (suc i) d h = get_elem?-get_or xs i d (omega arith)

  pub Elem-get_or :
      (a d : A) (xs : List A) → Elem a xs → (i : ℕ) × (i < length xs) × (get_or xs i d ≡ a)
  Elem-get_or a d [] m = absurd (m tt)
  Elem-get_or a d (x ∷ xs) (inl e) = (0, omega arith, cc)
  Elem-get_or a d (x ∷ xs) (inr m) = let (i, h, e) = Elem-get_or a d xs m in (suc i, omega arith, e)
