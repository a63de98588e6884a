-- ===== src/Balancer/Choice.antt =====
-- `services/load_balancer.py`: what each strategy chooses.
use inter_gate.Base.{
  get_or, get_elem?-get_or, get_elem?-Elem, Elem-All, ℕ, ◌+◌, ◌%◌, ◌≤◌, String, ◌≡◌, refl, ◌≢◌, ◌⊎◌,
  inl, inr, sym, subst, true, false, not, Option, none, some, List, [], ◌∷◌, arith, ◌==◌, string_eq,
  triple_eq, list_eq, ltb, length, All, Elem, All-Elem, filter-Elem, Bool-cases, if_both,
  Option-cases,
}
use inter_gate.Base.Int.{leb_ℤ, eqb_ℤ}
use inter_gate.Base.Text.{codes, Total-text_leb}
use inter_gate.Base.Sorting.{
  Total, sort, IsSorted, Elem-sort, sort-Elem, sort-IsSorted, first_best-Elem, first_best-best,
}
use inter_gate.Base.Floats.{Floats}
use inter_gate.Keys.ApiKey.{ApiKey, Now}
use inter_gate.Balancer.{
  LoadBalancer, cursor, round_robin, weighted_from, weighted, last_of, best_pool, priority_pool,
  priority_leb, weight_of, pick_pool, by_priority, least_connections, active_of, average,
  response_from, response_time, score, smart, pick,
}

priority_leb_total : (a b : ApiKey) → priority_leb a b ≡ false → priority_leb b a ≡ true
priority_leb_total a b h = ground (arith, Total-text_leb.total (codes a.id) (codes b.id))

priority_leb_trans :
    (a b c : ApiKey) → priority_leb a b ≡ true → priority_leb b c ≡ true → priority_leb a c ≡ true
priority_leb_trans a b c h k =
    ground (arith, Total-text_leb.trans (codes a.id) (codes b.id) (codes c.id))

Total-priority_leb : Total priority_leb
Total-priority_leb = record { total = priority_leb_total; trans = priority_leb_trans }

-- A key of the pool is one of the keys, and its priority is not above that of any of them.
IsBest : List ApiKey → ApiKey → Type 0
IsBest keys x = Elem x keys × All (λ (j : ApiKey). leb_ℤ x.priority j.priority ≡ true) keys

best_pool-IsBest :
    (ks : List ApiKey) (x : ApiKey)
    → IsSorted priority_leb ks
    → Elem x (best_pool ks)
    → Elem x ks × ((j : ApiKey) → Elem j ks → leb_ℤ x.priority j.priority ≡ true)
best_pool-IsBest [] x s m = absurd (m tt)
best_pool-IsBest (k ∷ ks) x s m =
    let r = filter-Elem (λ (j : ApiKey). eqb_ℤ j.priority k.priority) x (k ∷ ks) m in
    let below = λ (j : ApiKey) (h : Elem j (k ∷ ks)). below_head j h r.1 in (r.0, below)
  where
    below_head :
        (j : ApiKey)
        → Elem j (k ∷ ks)
        → eqb_ℤ x.priority k.priority ≡ true
        → leb_ℤ x.priority j.priority ≡ true
    below_head j (inl e) h = rw e (ground arith)
    below_head j (inr l) h =
        let below = All-Elem (λ y. priority_leb k y ≡ true) j ks s.0 l in ground arith

best_pool-head : (x : ApiKey) (ks : List ApiKey) → Elem x ks → best_pool ks ≢ []
best_pool-head x [] m e = m tt
best_pool-head x (k ∷ ks) m e = ground arith

priority_pool-IsBest :
    (ks : List ApiKey) (x : ApiKey)
    → Elem x (priority_pool ks)
    → Elem x ks × ((j : ApiKey) → Elem j ks → leb_ℤ x.priority j.priority ≡ true)
priority_pool-IsBest ks x m =
    let r =
      best_pool-IsBest (sort priority_leb ks) x (sort-IsSorted priority_leb Total-priority_leb ks)
        m in
    (sort-Elem priority_leb x ks r.0, λ j h. r.1 j (Elem-sort priority_leb j ks h))

last_of-Elem : (k : ApiKey) (ks : List ApiKey) → Elem (last_of k ks) (k ∷ ks)
last_of-Elem k [] = inl refl
last_of-Elem k (x ∷ xs) = inr (last_of-Elem x xs)

module _ (fl : Floats) where
  open fl use {F, le, of_ℕ}

  some-injective : {u v : ApiKey} → some u ≡ some v → u ≡ v
  some-injective e = cc

  -- A key is returned, one of the keys.
  abbrev Chooses : List ApiKey → LoadBalancer fl × Option ApiKey → Type 0
  Chooses keys p = (x : ApiKey) × (p.1 ≡ some x) × Elem x keys

  round_robin-Chooses :
      (b : LoadBalancer fl) (k : ApiKey) (ks : List ApiKey)
      → Chooses (k ∷ ks) (round_robin fl b k ks)
  unfolding round_robin
  round_robin-Chooses b k ks =
      let idx = cursor fl b k ks % length (k ∷ ks) in
      let found = get_elem?-get_or (k ∷ ks) idx k (omega arith) in
      (get_or (k ∷ ks) idx k, found, get_elem?-Elem (k ∷ ks) idx (get_or (k ∷ ks) idx k) found)

  weighted_from-Elem :
      (r : F) (acc : ℕ) (ks : List ApiKey) (last : ApiKey)
      → (weighted_from fl r acc ks last ≡ last) ⊎ Elem (weighted_from fl r acc ks last) ks
  unfolding weighted_from
  weighted_from-Elem r acc [] last = inl refl
  weighted_from-Elem r acc (k ∷ ks) last =
      if_both (λ v. (v ≡ last) ⊎ Elem v (k ∷ ks)) (le r (of_ℕ (acc + weight_of k))) k
        (weighted_from fl r (acc + weight_of k) ks last) (inr (inl refl))
        (elim (weighted_from-Elem r (acc + weight_of k) ks last) [
          | inl e ↦ inl e
          | inr m ↦ inr (inr m)
        ])

  weighted-Elem : (r : F) (k : ApiKey) (ks : List ApiKey) → Elem (weighted fl r k ks) (k ∷ ks)
  unfolding weighted
  weighted-Elem r k ks = elim (weighted_from-Elem r 0 (k ∷ ks) (last_of k ks)) [
    | inl e ↦ subst (λ x. Elem x (k ∷ ks)) (sym e) (last_of-Elem k ks)
    | inr m ↦ m
  ]

  pick_pool-Chooses :
      (b : LoadBalancer fl) (pool : List ApiKey) → pool ≢ [] → Chooses pool (pick_pool fl b pool)
  unfolding pick_pool
  pick_pool-Chooses b [] h = absurd (h refl)
  pick_pool-Chooses b (p ∷ []) h = (p, refl, inl refl)
  pick_pool-Chooses b (p ∷ q ∷ ps) h = round_robin-Chooses b p (q ∷ ps)

  by_priority-pool :
      (b : LoadBalancer fl) (k : ApiKey) (ks : List ApiKey)
      → Chooses (priority_pool (k ∷ ks)) (by_priority fl b k ks)
  unfolding by_priority
  by_priority-pool b k ks =
      pick_pool-Chooses b (priority_pool (k ∷ ks)) (
        best_pool-head k (sort priority_leb (k ∷ ks))
          (Elem-sort priority_leb k (k ∷ ks) (inl refl)))

  -- The priority strategy chooses one of the keys, and no key has a smaller priority number.
  pub by_priority-minimal :
      (b : LoadBalancer fl) (k : ApiKey) (ks : List ApiKey)
      → (x : ApiKey) × ((by_priority fl b k ks).1 ≡ some x)
        × Elem x (k ∷ ks)
        × All (λ (j : ApiKey). leb_ℤ x.priority j.priority ≡ true) (k ∷ ks)
  by_priority-minimal b k ks =
      let (x, e, m) = by_priority-pool b k ks in
      let best = priority_pool-IsBest (k ∷ ks) x m in
      (x, e, best.0, Elem-All (λ (j : ApiKey). leb_ℤ x.priority j.priority ≡ true) (k ∷ ks) best.1)

  -- The least-connections strategy chooses one of the keys, and no key has fewer connections.
  pub least_connections-minimal :
      (b : LoadBalancer fl) (k : ApiKey) (ks : List ApiKey) (j : ApiKey)
      → Elem j (k ∷ ks)
      → Elem (least_connections fl b k ks) (k ∷ ks)
        × (active_of fl b (least_connections fl b k ks) ≤ active_of fl b j)
  unfolding least_connections
  least_connections-minimal b k ks j m =
      let fewer = λ (x y : ApiKey). ltb (active_of fl b x) (active_of fl b y) in
      let least =
        first_best-best fewer (λ x y z h l. ground arith) (λ x y h. ground arith) k ks j m in
      (first_best-Elem fewer k ks, ground arith)

  -- The smart strategy chooses one of the keys, and no key has a higher score.
  pub smart-maximal :
      (b : LoadBalancer fl) (now : Now) (k : ApiKey) (ks : List ApiKey) (j : ApiKey)
      → Elem j (k ∷ ks)
      → Elem (smart fl b now k ks) (k ∷ ks)
        × (le (score fl b now j) (score fl b now (smart fl b now k ks)) ≡ true)
  unfolding smart
  smart-maximal b now k ks j m =
      let better = λ (x y : ApiKey). not (le (score fl b now x) (score fl b now y)) in
      let top =
        first_best-best better
          (λ x y z h l.
            ground (arith, fl.trans (score fl b now z) (score fl b now y) (score fl b now x)))
          (λ x y h. ground (arith, fl.total (score fl b now x) (score fl b now y))) k ks j m in
      (first_best-Elem better k ks, ground arith)

  abbrev Held : Option (ApiKey × F) → ApiKey → Type 0
  Held none x = Unit → ⊥
  Held (some (kb, _)) x = x ≡ kb

  response_from-Elem :
      (b : LoadBalancer fl) (best : Option (ApiKey × F)) (ks : List ApiKey) (x : ApiKey)
      → response_from fl b best ks ≡ some x
      → Held best x ⊎ Elem x ks
  unfolding response_from
  response_from-Elem b none [] x h = cc
  response_from-Elem b (some (kb, ab)) [] x h = inl (cc)
  response_from-Elem b none (k ∷ ks) x h = elim (Option-cases (average fl b k)) [
    | inl e ↦ inr (inl (some-injective (sym (rw (response_from, e) at h))))
    | inr (a, e) ↦ inr (response_from-Elem b (some (k, a)) ks x (rw (response_from, e) at h))
  ]
  response_from-Elem b (some (kb, ab)) (k ∷ ks) x h = elim (Option-cases (average fl b k)) [
    | inl e ↦ inr (inl (some-injective (sym (rw (response_from, e) at h))))
    | inr (a, e) ↦ elim (Bool-cases (le ab a)) [
      | inl t ↦ elim (response_from-Elem b (some (kb, ab)) ks x (rw (response_from, e, t) at h)) [
        | inl p ↦ inl p
        | inr m ↦ inr (inr m)
      ]
      | inr f ↦ inr (response_from-Elem b (some (k, a)) ks x (rw (response_from, e, f) at h))
    ]
  ]

  response_time-Elem :
      (b : LoadBalancer fl) (k : ApiKey) (ks : List ApiKey)
      → Elem (response_time fl b k ks) (k ∷ ks)
  unfolding response_time
  response_time-Elem b k ks = elim (Option-cases (response_from fl b none (k ∷ ks))) [
    | inl e ↦ rw (response_time, e) (inl refl)
    | inr (x, e) ↦
        let chosen : response_time fl b k ks ≡ x = rw (response_time, e) refl in
        subst (λ y. Elem y (k ∷ ks)) (sym chosen)
          (elim (response_from-Elem b none (k ∷ ks) x e) [ inl f ↦ absurd (f tt) | inr m ↦ m ])
  ]

  pick-Chooses :
      (b : LoadBalancer fl) (now : Now) (r : F) (k : ApiKey) (ks : List ApiKey) (strategy : String)
      → Chooses (k ∷ ks) (pick fl b now r (k ∷ ks) strategy)
  unfolding pick
  pick-Chooses b now r k ks strategy =
      let P = Chooses (k ∷ ks) in
      if_both P (strategy == "round_robin") _ _ (round_robin-Chooses b k ks) (
        if_both P (strategy == "weighted_round_robin") _ _
          (weighted fl r k ks, refl, weighted-Elem r k ks)
          (if_both P (strategy == "priority") _ _
            (let (x, e, m, _) = by_priority-minimal b k ks in (x, e, m))
            (if_both P (strategy == "least_connections") _ _
              (least_connections fl b k ks, refl, (least_connections-minimal b k ks k (inl refl)).0)
              (if_both P (strategy == "response_time") _ _
                (response_time fl b k ks, refl, response_time-Elem b k ks)
                (smart fl b now k ks, refl, (smart-maximal b now k ks k (inl refl)).0)))))

  -- Under every strategy, the unknown ones included, `pick` returns a key exactly where it has
  -- candidates, and then one of them; no index into the candidates is out of range.
  pub pick-candidate :
      (b : LoadBalancer fl) (now : Now) (r : F) (keys : List ApiKey) (strategy : String)
      → ((pick fl b now r keys strategy).1 ≡ none) × (keys ≡ [])
        ⊎ ((x : ApiKey) × ((pick fl b now r keys strategy).1 ≡ some x) × Elem x keys)
  unfolding pick
  pick-candidate b now r [] strategy = inl (refl, refl)
  pick-candidate b now r (k ∷ ks) strategy = inr (pick-Chooses b now r k ks strategy)
