-- ===== src/Base/Members.antt =====
-- `a in xs` and membership; lists with no key twice, and how many of their elements a list of
-- keys can select.
use Prim.Native.Nat.{◌+◌, ◌≤◌}
use mathlib.Core.Bool.{Bool, true}
use mathlib.Core.List.{List, [], ◌∷◌, map}
use mathlib.Core.Logic.{inl, inr, ◌≢◌}
use mathlib.Core.Path.{◌≡◌, refl, sym, ap, ◌∙◌}
use native.Mathlib.Omega.{arith}
use inter_gate.Base.Tests.{Bool-cases}
use inter_gate.Base.Equality.{Eq, ◌==◌, eq_ne, eq→path, contains}
use inter_gate.Base.Lists.{All, Elem, length, filter, All-Elem}

module _ {ℓ} {A : Type ℓ} ⦃e : Eq A⦄ where
  pub contains-Elem : (a : A) (xs : List A) → contains xs a ≡ true → Elem a xs
  contains-Elem a [] h = cc
  contains-Elem a (x ∷ xs) h = elim (Bool-cases (x == a)) [
    | inl p ↦ inl (sym (eq→path x a p))
    | inr p ↦ inr (contains-Elem a xs (ground arith))
  ]

  pub Elem-contains : (a : A) (xs : List A) → Elem a xs → contains xs a ≡ true
  Elem-contains a [] h = absurd (h tt)
  Elem-contains a (x ∷ xs) (inl p) = ground (arith, e.equal_iff x a)
  Elem-contains a (x ∷ xs) (inr h) = ground (arith, Elem-contains a xs h)

module _ {ℓ κ} {A : Type ℓ} {K : Type κ} (key : A → K) where
  pub Elem-map : (a : A) (xs : List A) → Elem a xs → Elem (key a) (map key xs)
  Elem-map a [] h = absurd (h tt)
  Elem-map a (x ∷ xs) (inl p) = inl (ap key p)
  Elem-map a (x ∷ xs) (inr h) = inr (Elem-map a xs h)

  pub map-Elem : (k : K) (xs : List A) → Elem k (map key xs) → (a : A) × Elem a xs × (k ≡ key a)
  map-Elem k [] h = absurd (h tt)
  map-Elem k (x ∷ xs) (inl p) = (x, inl refl, p)
  map-Elem k (x ∷ xs) (inr h) = let (a, m, p) = map-Elem k xs h in (a, inr m, p)

  -- No two places of the list have one key.
  abbrev pub DistinctBy : List A → Type κ
  DistinctBy [] = Unit
  DistinctBy (x ∷ xs) = All (λ y. key x ≢ key y) xs × DistinctBy xs

  pub distinct-eq :
      (a b : A) (xs : List A) → DistinctBy xs → Elem a xs → Elem b xs → key a ≡ key b → a ≡ b
  distinct-eq a b [] d h k p = absurd (h tt)
  distinct-eq a b (x ∷ xs) d (inl h) (inl k) p = rw (h, k) refl
  distinct-eq a b (x ∷ xs) d (inl h) (inr k) p =
      absurd (All-Elem (λ y. key x ≢ key y) b xs d.0 k (cc))
  distinct-eq a b (x ∷ xs) d (inr h) (inl k) p =
      absurd (All-Elem (λ y. key x ≢ key y) a xs d.0 h (cc))
  distinct-eq a b (x ∷ xs) d (inr h) (inr k) p = distinct-eq a b xs d.1 h k p

  All-filter :
      (p : A → Bool) (x : A) (xs : List A)
      → All (λ y. key x ≢ key y) xs
      → All (λ y. key x ≢ key y) (filter p xs)
  All-filter p x [] h = tt
  All-filter p x (y ∷ ys) h = elim (Bool-cases (p y)) [
    | inl t ↦ rw t (h.0, All-filter p x ys h.1)
    | inr t ↦ rw t (All-filter p x ys h.1)
  ]

  pub filter-DistinctBy : (p : A → Bool) (xs : List A) → DistinctBy xs → DistinctBy (filter p xs)
  filter-DistinctBy p [] d = tt
  filter-DistinctBy p (x ∷ xs) d = elim (Bool-cases (p x)) [
    | inl t ↦ rw t (All-filter p x xs d.0, filter-DistinctBy p xs d.1)
    | inr t ↦ rw t (filter-DistinctBy p xs d.1)
  ]

  module _ ⦃e : Eq K⦄ where
    none_with :
        (j k : K) (xs : List A)
        → k ≡ j
        → All (λ y. j ≢ key y) xs
        → length (filter (λ y. k == key y) xs) ≡ 0
    none_with j k [] p h = refl
    none_with j k (x ∷ xs) p h =
        rw (eq_ne k (key x) (λ q. h.0 (sym p ∙ q))) (none_with j k xs p h.1)

    one_with : (k : K) (xs : List A) → DistinctBy xs → length (filter (λ y. k == key y) xs) ≤ 1
    one_with k [] d = omega arith
    one_with k (x ∷ xs) d = elim (Bool-cases (k == key x)) [
      | inl p ↦ rw p (omega (arith, none_with (key x) k xs (eq→path k (key x) p) d.0))
      | inr p ↦ rw p (one_with k xs d.1)
    ]

    select_one_more :
        (k : K) (ks : List K) (xs : List A)
        → length (filter (λ y. contains (k ∷ ks) (key y)) xs)
          ≤ length (filter (λ y. k == key y) xs) + length (filter (λ y. contains ks (key y)) xs)
    select_one_more k ks [] = omega arith
    select_one_more k ks (x ∷ xs) = ground (arith, select_one_more k ks xs)

    -- A list of keys selects at most one element for each key.
    pub length-select-le :
        (ks : List K) (xs : List A)
        → DistinctBy xs
        → length (filter (λ y. contains ks (key y)) xs) ≤ length ks
    length-select-le [] xs d = select_none xs
      where
        select_none : (ys : List A) → length (filter (λ y. contains {A = K} [] (key y)) ys) ≤ 0
        select_none [] = omega arith
        select_none (y ∷ ys) = select_none ys
    length-select-le (k ∷ ks) xs d =
        omega (arith, select_one_more k ks xs, one_with k xs d, length-select-le ks xs d)
