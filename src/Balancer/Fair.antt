-- ===== src/Balancer/Fair.antt =====
-- `services/load_balancer.py`: the fairness of the round robin and the bounds of what is recorded.
use inter_gate.Base.{
  get_elem?-get_or, none, some, ℕ, zero, suc, ◌+◌, ◌-◌, ◌%◌, ◌≤◌, ◌<◌, String, ◌≡◌, refl, sym,
  subst, leb, Elem, Elem-get_or, get_or-Elem, ◌∙◌, ap, inl, inr, List, [], ◌∷◌, ◌++◌, arith, ◌==◌,
  string_eq, triple_eq, list_eq, ltb, if◌then◌else◌, length, drop, get_or, length-drop, eq_refl,
  eq→path, ◌⊎◌, Bool-cases,
}
use native.Mathlib.Nat.{mod-add-mod, mod-lt, mod-eq_of_lt, add-mod_right}
use inter_gate.Base.Floats.{Floats}
use inter_gate.Base.Dict
use inter_gate.Base.Dict.{Dict, lookup-insert_self, lookup-insert, lookup-insert_ne}
use inter_gate.Keys.ApiKey.{ApiKey}
use inter_gate.Balancer.{LoadBalancer, report_latency, cursor, round_robin, group_key, ids_of}

module _ (fl : Floats) where
  open fl use {F}

  -- The keys that n calls in a row return, no other call of the group in between; a call that
  -- raises returns none.
  unfoldable pub rounds : LoadBalancer fl → ApiKey → List ApiKey → ℕ → List ApiKey
  rounds b k ks zero = []
  rounds b k ks (suc n) =
      let later = rounds (round_robin fl b k ks).0 k ks n in
      elim (round_robin fl b k ks).1 [ none ↦ later | some x ↦ x ∷ later ]

  round_robin-returns :
      (b : LoadBalancer fl) (k : ApiKey) (ks : List ApiKey)
      → (round_robin fl b k ks).1 ≡ some (get_or (k ∷ ks) (cursor fl b k ks % length (k ∷ ks)) k)
  unfolding round_robin
  round_robin-returns b k ks =
      get_elem?-get_or (k ∷ ks) (cursor fl b k ks % length (k ∷ ks)) k (omega arith)

  rounds-suc :
      (b : LoadBalancer fl) (k : ApiKey) (ks : List ApiKey) (n : ℕ)
      → rounds b k ks (suc n)
        ≡ get_or (k ∷ ks) (cursor fl b k ks % length (k ∷ ks)) k
          ∷ rounds (round_robin fl b k ks).0 k ks n
  unfolding rounds
  rounds-suc b k ks n = rw (rounds, round_robin-returns b k ks) refl

  cursor-round_robin :
      (b : LoadBalancer fl) (k : ApiKey) (ks : List ApiKey)
      → cursor fl (round_robin fl b k ks).0 k ks ≡ cursor fl b k ks % length (k ∷ ks) + 1
  unfolding round_robin
  cursor-round_robin b k ks = ground (
    arith,
    lookup-insert_self (group_key k) (cursor fl b k ks % length (k ∷ ks) + 1, ids_of (k ∷ ks)) b.rr,
    eq_refl (ids_of (k ∷ ks)),
  )

  length-rounds :
      (b : LoadBalancer fl) (k : ApiKey) (ks : List ApiKey) (n : ℕ) → length (rounds b k ks n) ≡ n
  unfolding rounds
  length-rounds b k ks zero = refl
  length-rounds b k ks (suc n) =
      rw (rounds-suc b k ks n) (omega (arith, length-rounds (round_robin fl b k ks).0 k ks n))

  -- The cursor after one round, seen i steps on.
  shift : (c i m : ℕ) → (c % m + 1 + i) % m ≡ (c + suc i) % m
  shift c i m =
      let assoc : c % m + 1 + i ≡ c % m + suc i = omega arith in rw assoc (mod-add-mod c m (suc i))

  -- In n rounds with the same candidates, the i-th returns the candidate i places behind the
  -- cursor, around the list.
  pub rounds-position :
      (b : LoadBalancer fl) (k : ApiKey) (ks : List ApiKey) (n i : ℕ)
      → i < n
      → get_or (rounds b k ks n) i k ≡ get_or (k ∷ ks) ((cursor fl b k ks + i) % length (k ∷ ks)) k
  unfolding rounds round_robin
  rounds-position b k ks zero i h = absurd (omega arith)
  rounds-position b k ks (suc n) zero h =
      let e : cursor fl b k ks + 0 ≡ cursor fl b k ks = omega arith in
      rw (rounds-suc b k ks n, e) refl
  rounds-position b k ks (suc n) (suc i) h =
      let c = cursor fl b k ks in
      let b₁ = (round_robin fl b k ks).0 in
      ap (λ (xs : List ApiKey). get_or xs (suc i) k) (rounds-suc b k ks n)
      ∙ rounds-position b₁ k ks n i (omega arith)
      ∙ ap (λ m. get_or (k ∷ ks) ((m + i) % length (k ∷ ks)) k) (cursor-round_robin b k ks)
      ∙ ap (λ m. get_or (k ∷ ks) m k) (shift c i (length (k ∷ ks)))

  -- Where the cursor stands at c, the place i is reached in less than m steps.
  steps_to : (c i m : ℕ) → i < m → (j : ℕ) × (j < m) × ((c + j) % m ≡ i)
  steps_to c i m h =
      let r : c % m < m = mod-lt c (omega arith) in
      elim (Bool-cases (leb (c % m) i)) [
        | inl p ↦
            let e : c % m + (i - c % m) ≡ i = ground arith in
            (
              i - c % m,
              omega arith,
              sym (mod-add-mod c m (i - c % m)) ∙ ap (λ x. x % m) e ∙ mod-eq_of_lt h,
            )
        | inr p ↦
            let e : c % m + (m + i - c % m) ≡ i + m = ground arith in
            (
              m + i - c % m,
              ground arith,
              sym (mod-add-mod c m (m + i - c % m))
                  ∙ ap (λ x. x % m) e
                  ∙ add-mod_right i m
                  ∙ mod-eq_of_lt h,
            )
      ]

  -- Wherever the cursor stands, as many rounds as there are candidates return every candidate.
  pub rounds-fair :
      (b : LoadBalancer fl) (k : ApiKey) (ks : List ApiKey) (x : ApiKey)
      → Elem x (k ∷ ks)
      → Elem x (rounds b k ks (length (k ∷ ks)))
  rounds-fair b k ks x m =
      let n = length (k ∷ ks) in
      let (i, h, e) = Elem-get_or x k (k ∷ ks) m in
      let (j, l, s) = steps_to (cursor fl b k ks) i n h in
      let found = get_or-Elem (rounds b k ks n) j k (omega (arith, length-rounds b k ks n)) in
      subst (λ y. Elem y (rounds b k ks n))
        (rounds-position b k ks n j l ∙ ap (λ p. get_or (k ∷ ks) p k) s ∙ e) found

  -- No key has more than twenty samples.
  abbrev pub IsBounded : LoadBalancer fl → Type 0
  IsBounded b = (id : String) → length (Dict.lookup_or id [] b.latencies) ≤ 20

  -- A report keeps the samples of every key at twenty or fewer, and leaves those of other keys.
  pub report_latency-IsBounded :
      (b : LoadBalancer fl) (key_id : String) (ms : F) (id : String)
      → IsBounded b
      → (length (Dict.lookup_or id [] (report_latency fl b key_id ms).latencies) ≤ 20)
        × ((key_id ≡ id)
            ⊎ (Dict.lookup_or id [] (report_latency fl b key_id ms).latencies
                ≡ Dict.lookup_or id [] b.latencies))
  unfolding report_latency
  report_latency-IsBounded b key_id ms id h =
      let q = Dict.lookup_or key_id [] b.latencies ++ ms ∷ [] in
      let kept = if ltb 20 (length q) then drop (length q - 20) q else q in
      let short : length kept ≤ 20 = ground (arith, length-drop (length q - 20) q) in
      elim (Bool-cases (key_id == id)) [
        | inl e ↦
            (ground (arith, lookup-insert key_id id kept b.latencies), inl (eq→path key_id id e))
        | inr e ↦ (
          ground (arith, lookup-insert key_id id kept b.latencies, h id),
          inr (ground (arith, lookup-insert key_id id kept b.latencies, e)),
        )
      ]
