-- ===== src/Pricing/Longest.antt =====
-- `config/pricing.py`: the longest prefix decides.
use inter_gate.Base.{
  ◌≤◌, ◌≡◌, refl, sym, ap, ◌∙◌, ◌⊎◌, inl, inr, true, false, none, some, List, [], ◌∷◌, arith,
  length, Elem, All, Elem-All, All-Elem, Bool-cases, leb→le,
}
use inter_gate.Base.Text.{Text, lower, starts_with}
use inter_gate.Base.Sorting.{Total, IsSorted, Elem-sort, sort-Elem, sort-IsSorted}
use inter_gate.Base.Dict.{Dict}
use inter_gate.Pricing.{Rule, longer_first, by_length, first_prefix, price_for}

module _ {V : Type 0} where
  longer_first_total : (a b : Rule V) → longer_first a b ≡ false → longer_first b a ≡ true
  longer_first_total a b h = ground arith

  longer_first_trans :
      (a b c : Rule V) → longer_first a b ≡ true → longer_first b c ≡ true → longer_first a c ≡ true
  longer_first_trans a b c h k = ground arith

  Total-longer_first : Total (longer_first {V = V})
  Total-longer_first = record { total = longer_first_total; trans = longer_first_trans }

  -- The price v stands in the table under a prefix of m, and no prefix of m in it is longer.
  abbrev pub IsLongest : Text → List (Rule V) → V → Type 0
  IsLongest m items v =
      (p : Text) × Elem (p, v) items
      × (starts_with m p ≡ true)
      × ((q : Text) (w : V) → Elem (q, w) items → starts_with m q ≡ true → length q ≤ length p)

  head_longest :
      (p : Text) (v : V) (rest : List (Rule V))
      → IsSorted longer_first ((p, v) ∷ rest)
      → (q : Text) (w : V) → Elem (q, w) ((p, v) ∷ rest)
      → length q ≤ length p
  head_longest p v rest s q w (inl e) = let f : q ≡ p = ap (λ x. x.0) e in rw f (omega arith)
  head_longest p v rest s q w (inr l) =
      leb→le (length q) (length p) (All-Elem (λ y. longer_first (p, v) y ≡ true) (q, w) rest s.0 l)

  other :
      (m p q : Text) (v w : V)
      → starts_with m p ≡ false
      → ◌≡◌ {A = Rule V} (q, w) (p, v)
      → starts_with m q ≡ false
  other m p q v w f e = let g : q ≡ p = ap (λ x. x.0) e in rw g f

  -- No prefix in the table is one of m.
  abbrev pub NoPrefix : Text → List (Rule V) → Type 0
  NoPrefix m items = (q : Text) (w : V) → Elem (q, w) items → starts_with m q ≡ false

  first_prefix_sorted :
      (m : Text) (items : List (Rule V))
      → IsSorted longer_first items
      → ((first_prefix m items ≡ none) × NoPrefix m items)
        ⊎ ((v : V) × (first_prefix m items ≡ some v) × IsLongest m items v)
  unfolding first_prefix
  first_prefix_sorted m [] s = inl (refl, λ q w h. absurd (h tt))
  first_prefix_sorted m ((p, v) ∷ rest) s = elim (Bool-cases (starts_with m p)) [
    | inl t ↦ inr (v, rw t refl, (p, inl refl, t, λ q w e h. head_longest p v rest s q w e))
    | inr f ↦ elim (first_prefix_sorted m rest s.1) [
      | inl (e, n) ↦ inl (rw f e, λ q w h. elim h [ inl g ↦ other m p q v w f g | inr l ↦ n q w l ])
      | inr (u, e, (r, l, t, top)) ↦ inr (
        u,
        rw f e,
        (
          r,
          inr l,
          t,
          λ q w h k. elim h [
            | inl g ↦ absurd (ff_tt (sym (other m p q v w f g) ∙ k))
            | inr i ↦ top q w i k
          ],
        ),
      )
    ]
  ]
    where
      ff_tt : false ≡ true → ⊥
      ff_tt e = cc

  -- The longest prefix of a table, wherever it stands in it, or none.
  first_prefix-by_length :
      (m : Text) (items : List (Rule V))
      → ((first_prefix m (by_length items) ≡ none) × NoPrefix m items)
        ⊎ ((v : V) × (first_prefix m (by_length items) ≡ some v) × IsLongest m items v)
  first_prefix-by_length m items =
      let into = Elem-sort longer_first in
      elim (first_prefix_sorted m (by_length items)
        (sort-IsSorted longer_first Total-longer_first items)) [
          | inl (e, n) ↦ inl (e, λ q w h. n q w (into (q, w) items h))
          | inr (v, e, (p, l, t, top)) ↦ inr (
            v,
            e,
            (p, sort-Elem longer_first (p, v) items l, t, λ q w h. top q w (into (q, w) items h)),
          )
        ]

  -- The price v stands in the table under a prefix of m, and every other prefix in it is no longer
  -- or not one of m.
  abbrev pub LongestPrice : Text → List (Rule V) → V → Type 0
  LongestPrice m items v =
      (p : Text) × Elem (p, v) items
      × (starts_with m p ≡ true)
      × All (λ r. (starts_with m r.0 ≡ false) ⊎ (length r.0 ≤ length p)) items

  abbrev pub NoPrice : Text → List (Rule V) → Type 0
  NoPrice m items = All (λ r. starts_with m r.0 ≡ false) items

  -- The longest prefix of a table, wherever it stands in it, or none.
  first_prefix-LongestPrice :
      (m : Text) (items : List (Rule V))
      → ((first_prefix m (by_length items) ≡ none) × NoPrice m items)
        ⊎ ((v : V) × (first_prefix m (by_length items) ≡ some v) × LongestPrice m items v)
  first_prefix-LongestPrice m items = elim (first_prefix-by_length m items) [
    | inl (e, n) ↦ inl (e, Elem-All (λ r. starts_with m r.0 ≡ false) items (λ r h. n r.0 r.1 h))
    | inr (v, e, (p, l, t, top)) ↦ inr (
      v,
      e,
      (
        p,
        l,
        t,
        Elem-All (λ r. (starts_with m r.0 ≡ false) ⊎ (length r.0 ≤ length p)) items
            (λ r h. elim (Bool-cases (starts_with m r.0)) [
              | inl s ↦ inr (top r.0 r.1 h s)
              | inr s ↦ inl s
            ]),
      ),
    )
  ]

  -- The price of a model is that of the longest rule of the client that is a prefix of its name
  -- in lower case; without one, that of the longest built-in prefix; without one, the default.
  pub price_for-longest :
      (overrides : Dict Text V) (prices : List (Rule V)) (default : V) (model : Text)
      → LongestPrice (lower model) overrides (price_for overrides prices default model)
        ⊎ (NoPrice (lower model) overrides
            × (LongestPrice (lower model) prices (price_for overrides prices default model)
                ⊎ (NoPrice (lower model) prices
                    × (price_for overrides prices default model ≡ default))))
  unfolding price_for
  price_for-longest overrides prices default model =
      let m = lower model in
      elim (first_prefix-LongestPrice m overrides) [
        | inr (v, e, l) ↦ inl (rw (price_for, e) l)
        | inl (e, n) ↦ inr (
          n,
          elim (first_prefix-LongestPrice m prices) [
            | inr (w, f, l) ↦ inl (rw (price_for, e, f) l)
            | inl (f, o) ↦ inr (o, rw (price_for, e, f) refl)
          ],
        )
      ]
