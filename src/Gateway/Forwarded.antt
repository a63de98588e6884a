-- ===== src/Gateway/Forwarded.antt =====
-- `gateway.py`: which headers go to the upstream.
use inter_gate.Base.{
  String, ◌≡◌, ◌≢◌, refl, ap, ◌∙◌, Elem, List, true, arith, ne_of_eq, ◌⊎◌, inl, inr, false, [], ◌∷◌,
  ◌++◌, ◌==◌, string_eq, nat_eq, list_eq, contains, All, Bool-cases, eq→path, sym,
}
use inter_gate.Base.Dict
use inter_gate.Base.Text.{Text, codes, lower}
use inter_gate.Gateway.Body.{Headers, private_headers, without, build_upstream_headers}

-- The names that stay at the gateway: the client's credentials, the host and the length of the
-- request as it was received, and the gateway's own switches.
abbrev pub withheld : List Text
withheld =
    codes "host"
    ∷ codes "authorization"
    ∷ codes "content-length"
    ∷ codes "cookie"
    ∷ codes "x-relay-provider"
    ∷ codes "x-relay-key"
    ∷ codes "x-relay-cache"
    ∷ codes "x-gateway-key"
    ∷ codes "x-api-key"
    ∷ []

-- The name of the header, in lower case, is none of those.
abbrev pub IsPublic : String × Text → Type 0
IsPublic h = All (λ (n : Text). n ≢ lower (codes h.0)) withheld

true_ne_false : true ≢ false
true_ne_false e = cc

ne-All : (t : Text) (names : List Text) → contains names t ≡ false → All (λ (n : Text). n ≢ t) names
ne-All t [] e = tt
ne-All t (n ∷ names) e = ground (arith, ne-All t names, ne_of_eq n t)

contains_none :
    (t : Text) (names : List Text) → All (λ (n : Text). n ≢ t) names → contains names t ≡ false
contains_none t [] h = refl
contains_none t (n ∷ names) h = elim (Bool-cases (n == t)) [
  | inl e ↦ absurd (h.0 (eq→path n t e))
  | inr e ↦ ground (arith, e, contains_none t names h.1)
]

without_complete :
    (headers : Headers) (h : String × Text)
    → Elem h headers
    → IsPublic h
    → Elem h (without private_headers headers)
unfolding without
without_complete [] h m p = absurd (m tt)
without_complete ((name, value) ∷ rest) h m p =
    elim (Bool-cases (contains private_headers (lower (codes name)))) [
      | inl e ↦ rw e (elim m [
        | inl same ↦
            let n : h.0 ≡ name = ap (λ (x : String × Text). x.0) same in
            let q = contains_none (lower (codes h.0)) private_headers p in
            let r : contains private_headers (lower (codes h.0)) ≡ true = rw n e in
            absurd (true_ne_false (sym r ∙ q))
        | inr l ↦ without_complete rest h l p
      ])
      | inr e ↦ rw e (elim m [ inl same ↦ inl same | inr l ↦ inr (without_complete rest h l p) ])
    ]

insert-Elem :
    (k : String) (v : Text) (d : Headers) (h : String × Text)
    → Elem h d
    → h.0 ≢ k
    → Elem h (Dict.insert k v d)
unfolding Dict.insert
insert-Elem k v [] h m n = absurd (m tt)
insert-Elem k v ((i, w) ∷ d) h m n = elim (Bool-cases (i == k)) [
  | inl e ↦ rw e (elim m [
    | inl same ↦ absurd (n (ap (λ (x : String × Text). x.0) same ∙ eq→path i k e))
    | inr l ↦ inr l
  ])
  | inr e ↦ rw e (elim m [ inl same ↦ inl same | inr l ↦ inr (insert-Elem k v d h l n) ])
]

IsPublic-name : (h : String × Text) → IsPublic h → h.0 ≢ "Authorization"
unfolding lower
IsPublic-name h p e = p.1.0 (ap (λ (s : String). lower (codes s)) (sym e))

-- The header that carries the key of the upstream.
abbrev pub IsKeyHeader : Text → String × Text → Type 0
IsKeyHeader plain_key h = ◌≡◌ {A = String × Text} h ("Authorization", codes "Bearer " ++ plain_key)

-- A header of the client is passed on, or its name is withheld.
passed_on :
    (headers : Headers) (plain_key : Text) (h : String × Text)
    → Elem h headers
    → Elem h (build_upstream_headers headers plain_key) ⊎ ¬ IsPublic h
unfolding build_upstream_headers
passed_on headers plain_key h m =
    let t = lower (codes h.0) in
    elim (Bool-cases (contains private_headers t)) [
      | inl e ↦ inr (λ p. true_ne_false (sym e ∙ contains_none t private_headers p))
      | inr e ↦
          let p : IsPublic h = ne-All t private_headers e in
          inl (
            insert-Elem "Authorization" (codes "Bearer " ++ plain_key)
              (without private_headers headers) h (without_complete headers h m p)
              (IsPublic-name h p))
    ]
