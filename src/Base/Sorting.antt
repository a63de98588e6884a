-- ===== src/Base/Sorting.antt =====
-- Python's stable `sorted`, `min` and `max` by a key, over a Boolean order `le`.
use Prim.Native.Nat.{ℕ, zero, suc}
use mathlib.Core.Bool.{Bool, true, false}
use mathlib.Core.List.{List, [], ◌∷◌}
use mathlib.Core.Logic.{◌⊎◌, inl, inr}
use mathlib.Core.Path.{◌≡◌, refl, ◌∙◌}
use inter_gate.Base.Tests.{if◌then◌else◌, Bool-cases}
use inter_gate.Base.Lists.{All, Elem, All-Elem, drop-Elem, take, drop}

-- What `sorted` needs of its order to sort.
pub record Total {ℓ} {A : Type ℓ} (le : A → A → Bool) : Type ℓ where
  pub total : (a b : A) → le a b ≡ false → le b a ≡ true
  pub trans : (a b c : A) → le a b ≡ true → le b c ≡ true → le a c ≡ true

module _ {ℓ} {A : Type ℓ} (le : A → A → Bool) where
  -- Stable: a new element goes before those that are not below it.
  unfoldable pub place : A → List A → List A
  place a [] = a ∷ []
  place a (x ∷ xs) = if le a x then a ∷ x ∷ xs else x ∷ place a xs

  unfoldable pub sort : List A → List A
  unfolding place
  sort [] = []
  sort (x ∷ xs) = place x (sort xs)

  abbrev pub IsSorted : List A → Type ℓ
  IsSorted [] = Unit
  IsSorted (x ∷ xs) = All (λ y. le x y ≡ true) xs × IsSorted xs

  pub Elem-place : (a x : A) (xs : List A) → (a ≡ x) ⊎ Elem a xs → Elem a (place x xs)
  unfolding place
  Elem-place a x [] h = h
  Elem-place a x (y ∷ ys) h = elim (Bool-cases (le x y)) [
    | inl t ↦ rw t h
    | inr f ↦ rw f (elim h [
      | inl p ↦ inr (Elem-place a x ys (inl p))
      | inr m ↦ elim m [ inl p ↦ inl p | inr k ↦ inr (Elem-place a x ys (inr k)) ]
    ])
  ]

  pub place-Elem : (a x : A) (xs : List A) → Elem a (place x xs) → (a ≡ x) ⊎ Elem a xs
  unfolding place
  place-Elem a x [] h = h
  place-Elem a x (y ∷ ys) h = elim (Bool-cases (le x y)) [
    | inl t ↦ rw t at h
    | inr f ↦ elim (rw f at h) [
      | inl p ↦ inr (inl p)
      | inr m ↦ elim (place-Elem a x ys m) [ inl p ↦ inl p | inr k ↦ inr (inr k) ]
    ]
  ]

  pub Elem-sort : (a : A) (xs : List A) → Elem a xs → Elem a (sort xs)
  unfolding sort
  Elem-sort a [] h = h
  Elem-sort a (x ∷ xs) (inl p) = Elem-place a x (sort xs) (inl p)
  Elem-sort a (x ∷ xs) (inr m) = Elem-place a x (sort xs) (inr (Elem-sort a xs m))

  pub sort-Elem : (a : A) (xs : List A) → Elem a (sort xs) → Elem a xs
  unfolding sort
  sort-Elem a [] h = h
  sort-Elem a (x ∷ xs) h = elim (place-Elem a x (sort xs) h) [
    | inl p ↦ inl p
    | inr m ↦ inr (sort-Elem a xs m)
  ]

  module _ (t : Total le) where
    place-All : (P : A → Type 0) (x : A) (xs : List A) → P x → All P xs → All P (place x xs)
    unfolding place
    place-All P x [] p h = (p, tt)
    place-All P x (y ∷ ys) p h = elim (Bool-cases (le x y)) [
      | inl u ↦ rw u (p, h)
      | inr u ↦ rw u (h.0, place-All P x ys p h.1)
    ]

    above :
        (x y : A) (ys : List A)
        → le x y ≡ true
        → All (λ z. le y z ≡ true) ys
        → All (λ z. le x z ≡ true) ys
    above x y [] u h = tt
    above x y (z ∷ zs) u h = (t.trans x y z u h.0, above x y zs u h.1)

    place-IsSorted : (x : A) (xs : List A) → IsSorted xs → IsSorted (place x xs)
    unfolding place
    place-IsSorted x [] h = (tt, tt)
    place-IsSorted x (y ∷ ys) h = elim (Bool-cases (le x y)) [
      | inl u ↦ rw u ((u, above x y ys u h.0), h)
      | inr u ↦
          rw u (place-All (λ z. le y z ≡ true) x ys (t.total x y u) h.0, place-IsSorted x ys h.1)
    ]

    pub sort-IsSorted : (xs : List A) → IsSorted (sort xs)
    unfolding sort
    sort-IsSorted [] = tt
    sort-IsSorted (x ∷ xs) = place-IsSorted x (sort xs) (sort-IsSorted xs)

module _ {ℓ} {A : Type ℓ} (le : A → A → Bool) where
  -- In a sorted list what stands before a cut is below what stands behind it.
  pub take-le-drop :
      (n : ℕ) (a b : A) (xs : List A)
      → IsSorted le xs
      → Elem a (take n xs)
      → Elem b (drop n xs)
      → le a b ≡ true
  take-le-drop zero a b xs s m k = absurd (m tt)
  take-le-drop (suc n) a b [] s m k = absurd (m tt)
  take-le-drop (suc n) a b (x ∷ xs) s (inl e) k =
      rw e (All-Elem (λ y. le x y ≡ true) b xs s.0 (drop-Elem n b xs k))
  take-le-drop (suc n) a b (x ∷ xs) s (inr m) k = take-le-drop n a b xs s.1 m k

module _ {ℓ} {A : Type ℓ} (better : A → A → Bool) where
  -- `min(xs, key=…)` and `max(xs, key=…)`: the first element that no later one is better than.
  unfoldable pub first_best : A → List A → A
  first_best best [] = best
  first_best best (x ∷ xs) = first_best (if better x best then x else best) xs

  if_cases : (b : Bool) (x y : A) → ((if b then x else y) ≡ x) ⊎ ((if b then x else y) ≡ y)
  if_cases true x y = inl refl
  if_cases false x y = inr refl

  pub first_best-Elem : (a : A) (xs : List A) → Elem (first_best a xs) (a ∷ xs)
  unfolding first_best
  first_best-Elem a [] = inl refl
  first_best-Elem a (x ∷ xs) = elim (first_best-Elem (if better x a then x else a) xs) [
    | inl e ↦ elim (if_cases (better x a) x a) [ inl p ↦ inr (inl (e ∙ p)) | inr p ↦ inl (e ∙ p) ]
    | inr m ↦ inr (inr m)
  ]

  module _ (chain : (a b c : A) → better b a ≡ false → better c b ≡ false → better c a ≡ false)
      (anti : (a b : A) → better b a ≡ true → better a b ≡ false) where
    irreflexive : (a : A) → better a a ≡ false
    irreflexive a = elim (Bool-cases (better a a)) [ inl p ↦ anti a a p | inr p ↦ p ]

    choice :
        (b : Bool) (x a : A)
        → better x a ≡ b
        → (better x (if b then x else a) ≡ false) × (better a (if b then x else a) ≡ false)
    choice true x a e = (irreflexive x, anti a x e)
    choice false x a e = (e, irreflexive a)

    -- Where `better` is the strict part of a total order, nothing is better than what is chosen.
    pub first_best-best :
        (a : A) (xs : List A) (b : A) → Elem b (a ∷ xs) → better b (first_best a xs) ≡ false
    unfolding first_best
    first_best-best a [] b (inl e) = rw e (irreflexive a)
    first_best-best a [] b (inr m) = absurd (m tt)
    first_best-best a (x ∷ xs) b (inr (inr l)) =
        first_best-best (if better x a then x else a) xs b (inr l)
    first_best-best a (x ∷ xs) b (inr (inl e)) =
        let c = if better x a then x else a in
        rw e (
          chain (first_best c xs) c x (first_best-best c xs c (inl refl))
            (choice (better x a) x a refl).0)
    first_best-best a (x ∷ xs) b (inl e) =
        let c = if better x a then x else a in
        rw e (
          chain (first_best c xs) c a (first_best-best c xs c (inl refl))
            (choice (better x a) x a refl).1)
