-- ===== src/Providers/Laws.antt =====
-- `providers/registry.py`: what is found is a known provider, the candidates, and the base URL.
use inter_gate.Base.{
  String, ◌≡◌, refl, ◌≢◌, sym, ◌∙◌, subst, ◌⊎◌, inl, inr, true, false, not, ◌&&◌, ◌||◌, Option,
  none, some, List, [], ◌∷◌, ◌++◌, arith, ◌==◌, string_eq, nat_eq, list_eq, if◌then◌else◌, if_both,
  contains, IsDistinct, Bool-cases, eq_refl, eq→path, ne_of_eq, Option-cases, Elem, All,
}
use inter_gate.Base.Text.{Text, codes, lower, strip, ends_in, rstrip-ends_in}
use inter_gate.Base.Dict
use inter_gate.Base.Dict.{Dict}
use inter_gate.Constants.{provider_base_urls, model_prefix_to_provider}
use inter_gate.Providers.{
  begins, detect_provider_by_path, provider_of_prefix, detect_provider_by_model, known_provider,
  header_choice, detect_provider, detect_by_request, or_provider, openai_style, add_candidates,
  fallbacks, candidate_providers, no_slash, given_url, resolve_base_url,
}

-- The name has an entry in `PROVIDER_BASE_URLS`.
abbrev pub IsKnown : String → Type 0
IsKnown p = Elem p (Dict.keys provider_base_urls)

by_path-IsKnown : (path : Text) → IsKnown (detect_provider_by_path path)
unfolding detect_provider_by_path
by_path-IsKnown path = if_both IsKnown _ _ _ (inr (inr (inl refl))) (
    if_both IsKnown _ _ _ (inr (inr (inr (inl refl))))
      (if_both IsKnown _ _ _ (inr (inr (inr (inr (inl refl))))) (inl refl)))

known_provider-Elem :
    (p : Text) (d : Dict String String) (x : String)
    → known_provider p d ≡ some x
    → Elem x (Dict.keys d)
unfolding known_provider
known_provider-Elem p [] x h = cc
known_provider-Elem p ((name, u) ∷ rest) x h = elim (Bool-cases (codes name == p)) [
  | inl e ↦ inl (cc)
  | inr e ↦ inr (known_provider-Elem p rest x (rw e at h))
]

-- Every provider of the table is known.
prefix-IsKnown :
    (m : Text) (table : List (String × String)) (x : String)
    → All (λ r. IsKnown r.1) table
    → provider_of_prefix m table ≡ some x
    → IsKnown x
unfolding provider_of_prefix
prefix-IsKnown m [] x a h = cc
prefix-IsKnown m ((prefix, q) ∷ rest) x a h = elim (Bool-cases (begins m prefix)) [
  | inl e ↦ let same : q ≡ x = ground arith in subst IsKnown same a.0
  | inr e ↦ prefix-IsKnown m rest x a.1 (rw e at h)
]

prefixes-IsKnown : All (λ r. IsKnown r.1) model_prefix_to_provider
prefixes-IsKnown =
    let openai : IsKnown "openai" = inl refl in
    let anthropic : IsKnown "anthropic" = inr (inr (inl refl)) in
    let google : IsKnown "google" = inr (inr (inr (inl refl))) in
    (
      openai,
      (
        openai,
        (
          openai,
          (
            openai,
            (
              openai,
              (
                openai,
                (
                  openai,
                  (
                    openai,
                    (openai, (anthropic, (google, (google, (google, (google, (google, tt))))))),
                  ),
                ),
              ),
            ),
          ),
        ),
      ),
    )

by_model-IsKnown :
    (model : Option Text) (x : String) → detect_provider_by_model model ≡ some x → IsKnown x
unfolding detect_provider_by_model
by_model-IsKnown none x h = cc
by_model-IsKnown (some []) x h = cc
by_model-IsKnown (some (c ∷ s)) x h =
    prefix-IsKnown (lower (c ∷ s)) model_prefix_to_provider x prefixes-IsKnown h

header-IsKnown : (header : Option Text) (x : String) → header_choice header ≡ some x → IsKnown x
unfolding header_choice
header-IsKnown none x h = cc
header-IsKnown (some t) x h = go (strip t) h
  where
    go :
        (s : Text)
        → (elim s [ [] ↦ none | c ∷ r ↦ known_provider (lower (c ∷ r)) provider_base_urls ])
          ≡ some x
        → IsKnown x
    go [] e = cc
    go (c ∷ r) e = known_provider-Elem (lower (c ∷ r)) provider_base_urls x e

or_provider-IsKnown :
    (o : Option String) (q : String)
    → ((x : String) → o ≡ some x → IsKnown x)
    → IsKnown q
    → IsKnown (or_provider o q)
or_provider-IsKnown none q h k = k
or_provider-IsKnown (some p) q h k = if_both IsKnown (p == "") q p k (h p refl)

request-IsKnown : (path : Text) (model : Option Text) → IsKnown (detect_by_request path model)
unfolding detect_by_request
request-IsKnown path model =
    let by_path = detect_provider_by_path path in
    if_both IsKnown (not (by_path == "openai")) _ _ (by_path-IsKnown path) (
      or_provider-IsKnown (detect_provider_by_model model) by_path (by_model-IsKnown model)
        (by_path-IsKnown path))

-- Whatever a client puts into the path, the model and the header, the provider that is detected
-- has an entry in the table of base URLs. A header that names a known provider decides; without
-- one, a path of another provider than OpenAI does; and on an OpenAI path it is the model's
-- provider, if its name tells one.
pub detect_provider-IsKnown :
    (path : Text) (model header : Option Text)
    → IsKnown (detect_provider path model header)
      × ((header_choice header ≡ some (detect_provider path model header))
          ⊎ ((header_choice header ≡ none)
              × (detect_provider_by_path path ≢ "openai")
              × (detect_provider path model header ≡ detect_provider_by_path path))
          ⊎ ((header_choice header ≡ none)
              × (detect_provider_by_path path ≡ "openai")
              × (detect_provider path model header
                  ≡ or_provider (detect_provider_by_model model) "openai")))
unfolding detect_provider detect_by_request
detect_provider-IsKnown path model header = elim (Option-cases (header_choice header)) [
  | inr (p, e) ↦
      (rw (detect_provider, e) (header-IsKnown header p e), inl (rw (detect_provider, e) refl))
  | inl e ↦ (
    rw (detect_provider, e) (request-IsKnown path model),
    inr (elim (Bool-cases (detect_provider_by_path path == "openai")) [
      | inl p ↦
          let q = eq→path (detect_provider_by_path path) "openai" p in
          inr (e, q, rw (detect_provider, e, q) refl)
      | inr p ↦
          inl
            (e, ne_of_eq (detect_provider_by_path path) "openai" p, rw (detect_provider, e, p) refl)
    ]),
  )
]

contains-append :
    (xs : List String) (p x : String) → contains (xs ++ p ∷ []) x ≡ (contains xs x || (p == x))
contains-append [] p x = ground (arith)
contains-append (y ∷ ys) p x = ground (arith, contains-append ys p x)

append-IsDistinct :
    (xs : List String) (p : String)
    → IsDistinct xs
    → contains xs p ≡ false
    → IsDistinct (xs ++ p ∷ [])
append-IsDistinct [] p d h = (refl, tt)
append-IsDistinct (x ∷ xs) p d h = (
  ground (arith, contains-append xs p x, d.0, h, eq_sym p x),
  append-IsDistinct xs p d.1 (ground (arith, h)),
)
  where
    eq_sym : (a b : String) → (a == b) ≡ (b == a)
    eq_sym a b = elim (Bool-cases (a == b)) [
      | inl e ↦ let f : a ≡ b = eq→path a b e in rw f refl
      | inr e ↦ elim (Bool-cases (b == a)) [
        | inl g ↦ let f : b ≡ a = eq→path b a g in rw f refl
        | inr g ↦ e ∙ sym g
      ]
    ]

-- What is added is either the start, or offered and not the primary.
add_candidates-IsDistinct :
    (primary : String) (ps out : List String)
    → IsDistinct out
    → IsDistinct (add_candidates primary ps out)
unfolding add_candidates
add_candidates-IsDistinct primary [] out d = d
add_candidates-IsDistinct primary (p ∷ ps) out d = elim (Bool-cases (contains out p)) [
  | inl e ↦ rw e (elim (Bool-cases (p == primary)) [
    | inl f ↦ rw f (add_candidates-IsDistinct primary ps out d)
    | inr f ↦ rw f (add_candidates-IsDistinct primary ps out d)
  ])
  | inr e ↦ rw e (elim (Bool-cases (p == primary)) [
    | inl f ↦ rw f (add_candidates-IsDistinct primary ps out d)
    | inr f ↦
        rw f (add_candidates-IsDistinct primary ps (out ++ p ∷ []) (append-IsDistinct out p d e))
  ])
]

add_candidates-contains :
    (primary : String) (ps out : List String) (x : String)
    → contains out primary ≡ true
    → contains (add_candidates primary ps out) x ≡ (contains out x || contains ps x)
unfolding add_candidates
add_candidates-contains primary [] out x h = ground arith
add_candidates-contains primary (p ∷ ps) out x h =
    let out' = if not (p == primary) && not (contains out p) then out ++ p ∷ [] else out in
    let kept : contains out' primary ≡ true = ground (arith, h, contains-append out p primary) in
    let ih = add_candidates-contains primary ps out' x kept in
    elim (Bool-cases (p == x)) [
      | inl e ↦
          let same : p ≡ x = eq→path p x e in
          let there : contains out' x ≡ true = subst (λ y. contains out' y ≡ true) same (has_p p) in
          ground (arith, ih, there, e)
      | inr e ↦
          let before : contains out' x ≡ contains out x =
            ground (arith, contains-append out p x, e) in
          ground (arith, ih, before, e)
    ]
  where
    has_p :
        (p : String)
        → contains (if not (p == primary) && not (contains out p) then out ++ p ∷ [] else out) p
          ≡ true
    has_p p = elim (Bool-cases (p == primary)) [
      | inl e ↦ let same : p ≡ primary = eq→path p primary e in ground (arith, same, h)
      | inr e ↦ ground (arith, contains-append out p p, eq_refl p)
    ]

add_candidates-head :
    (primary : String) (ps out : List String)
    → (rest : List String) × (add_candidates primary ps (primary ∷ out) ≡ primary ∷ rest)
unfolding add_candidates
add_candidates-head primary [] out = (out, refl)
add_candidates-head primary (p ∷ ps) out =
    elim (Bool-cases (not (p == primary) && not (contains (primary ∷ out) p))) [
      | inl e ↦ rw e (add_candidates-head primary ps (out ++ p ∷ []))
      | inr e ↦ rw e (add_candidates-head primary ps out)
    ]

-- The candidates begin with the primary provider, name none twice, and are exactly the primary
-- and, on a path in the style of OpenAI, the three fallbacks.
pub candidate_providers-exact :
    (primary : String) (path : Text)
    → ((rest : List String) × (candidate_providers primary path ≡ primary ∷ rest))
      × IsDistinct (candidate_providers primary path)
      × ((x : String)
          → contains (candidate_providers primary path) x
            ≡ (primary == x || (openai_style path && contains fallbacks x)))
unfolding candidate_providers
candidate_providers-exact primary path = elim (Bool-cases (openai_style path)) [
  | inl e ↦ rw e (
    add_candidates-head primary fallbacks [],
    add_candidates-IsDistinct primary fallbacks (primary ∷ []) (refl, tt),
    λ x.
        add_candidates-contains primary fallbacks (primary ∷ []) x (ground (arith, eq_refl primary))
        ∙ ground arith,
  )
  | inr e ↦ rw e (([], refl), (refl, tt), λ x. ground arith)
]

-- Nothing of the text is left behind its last slash.
abbrev pub IsTrimmed : Text → Type 0
IsTrimmed u = ends_in (λ c. c == b'/') u ≡ false

given_url-IsTrimmed : (o : Option Text) (u : Text) → given_url o ≡ some u → IsTrimmed u
given_url-IsTrimmed none u h = cc
given_url-IsTrimmed (some []) u h = cc
given_url-IsTrimmed (some (c ∷ s)) u h =
    let e : no_slash (c ∷ s) ≡ u = cc in subst IsTrimmed e (rstrip-ends_in (λ c. c == b'/') (c ∷ s))

-- A base URL that is resolved does not end in a slash. The key's own is taken if it has one, then
-- the default that is given, then that of the provider.
pub resolve_base_url-IsTrimmed :
    (provider : String) (key_base_url default_base_url : Option Text) (u : Text)
    → resolve_base_url provider key_base_url default_base_url ≡ some u
    → IsTrimmed u
      × ((given_url key_base_url ≡ some u)
          ⊎ ((given_url key_base_url ≡ none) × (given_url default_base_url ≡ some u))
          ⊎ ((given_url key_base_url ≡ none)
              × (given_url default_base_url ≡ none)
              × (given_url (some (codes (Dict.lookup_or provider "" provider_base_urls)))
                  ≡ some u)))
unfolding resolve_base_url
resolve_base_url-IsTrimmed provider k d u h = elim (Option-cases (given_url k)) [
  | inr (v, e) ↦
      let s : given_url k ≡ some u = e ∙ (rw (resolve_base_url, e) at h) in
      (given_url-IsTrimmed k u s, inl s)
  | inl e ↦ elim (Option-cases (given_url d)) [
    | inr (v, f) ↦
        let s : given_url d ≡ some u = f ∙ (rw (resolve_base_url, e, f) at h) in
        (given_url-IsTrimmed d u s, inr (inl (e, s)))
    | inl f ↦
        let s : given_url (some (codes (Dict.lookup_or provider "" provider_base_urls))) ≡ some u =
          rw (resolve_base_url, e, f) at h in
        (
          given_url-IsTrimmed (some (codes (Dict.lookup_or provider "" provider_base_urls))) u s,
          inr (inr (e, f, s)),
        )
  ]
]
