-- ===== src/Balancer.antt =====
-- `services/load_balancer.py`: the six strategies. The number that `random.uniform` draws and the
-- time are arguments.
pub mod Choice
pub mod Fair
use inter_gate.Base.{
  ℕ, zero, suc, ◌+◌, ◌-◌, ◌*◌, ◌%◌, ◌≤◌, ◌<◌, max, String, ◌≡◌, Bool, true, false, not, ◌&&◌,
  Option, none, some, List, [], ◌∷◌, ◌++◌, map, arith, ◌==◌, string_eq, triple_eq, list_eq, nat_beq,
  ltb, leb, if◌then◌else◌, length, drop, filter, get_elem?, sum, contains,
}
use inter_gate.Base.Int.{ℤ, pos, pos_part, neg_part, leb_ℤ, eqb_ℤ, sub_ℤ}
use inter_gate.Base.Text.{codes, text_leb}
use inter_gate.Base.Sorting.{sort, first_best}
use inter_gate.Base.Floats.{Floats, fmin}
use mathlib.Core.Option
use inter_gate.Base.Dict
use inter_gate.Base.Dict.{Dict}
use inter_gate.Keys.ApiKey.{
  ApiKey, Now, is_today, today_requests, today_errors, today_used, quota_remaining,
}

abbrev pub strategies : List String
strategies =
    "round_robin" ∷ "weighted_round_robin" ∷ "priority" ∷ "least_connections" ∷ "response_time"
    ∷ "smart" ∷ []

-- `(provider, base_url or "", grp)`
abbrev pub GroupKey : Type 0
GroupKey = String × String × String

abbrev pub group_key : ApiKey → GroupKey
group_key k = (k.provider, (elim k.base_url [ none ↦ "" | some u ↦ u ]), k.grp)

abbrev pub ids_of : List ApiKey → List String
ids_of = map (λ k. k.id)

-- `(priority, id)`
abbrev pub priority_leb : ApiKey → ApiKey → Bool
priority_leb a b =
    if eqb_ℤ a.priority b.priority
    then text_leb (codes a.id) (codes b.id)
    else leb_ℤ a.priority b.priority

-- `max(1, k.weight)`
abbrev pub weight_of : ApiKey → ℕ
weight_of k = max 1 (pos_part k.weight)

abbrev pub last_of : ApiKey → List ApiKey → ApiKey
last_of k [] = k
last_of k (x ∷ xs) = last_of x xs

abbrev pub best_pool : List ApiKey → List ApiKey
best_pool [] = []
best_pool (s ∷ ss) = filter (λ (k : ApiKey). eqb_ℤ k.priority s.priority) (s ∷ ss)

-- The keys of the best priority, in the order of priority and id.
abbrev pub priority_pool : List ApiKey → List ApiKey
priority_pool keys = best_pool (sort priority_leb keys)

module _ (fl : Floats) where
  open fl use {F, le, add, sub, mul, div, of_ℕ, of_ℤ, decimal}

  pub record LoadBalancer : Type 0 where
    pub rr : Dict GroupKey (ℕ × List String)
    pub latencies : Dict String (List F)
    pub active : Dict String ℕ

  unfoldable pub init : LoadBalancer
  init = record { rr = []; latencies = []; active = [] }

  unfoldable pub report_active : LoadBalancer → String → ℤ → LoadBalancer
  report_active b key_id delta = record b {
    active =
        Dict.insert key_id (Dict.lookup_or key_id 0 b.active + pos_part delta - neg_part delta)
          b.active;
  }

  unfoldable pub report_latency : LoadBalancer → String → F → LoadBalancer
  report_latency b key_id latency_ms =
      let q = Dict.lookup_or key_id [] b.latencies ++ latency_ms ∷ [] in
      record b {
        latencies =
            Dict.insert key_id (if ltb 20 (length q) then drop (length q - 20) q else q)
              b.latencies;
      }

  -- The cursor of a group for these candidates.
  abbrev pub cursor : LoadBalancer → ApiKey → List ApiKey → ℕ
  cursor b k ks = elim (Dict.lookup (group_key k) b.rr) [
    | none ↦ 0
    | some (c, ids) ↦ if ids == ids_of (k ∷ ks) then c else 0
  ]

  -- `_round_robin` of the keys `k ∷ ks`; none where `keys[idx]` raises.
  unfoldable pub round_robin : LoadBalancer → ApiKey → List ApiKey → LoadBalancer × Option ApiKey
  round_robin b k ks =
      let idx = cursor b k ks % length (k ∷ ks) in
      (
        record b { rr = Dict.insert (group_key k) (idx + 1, ids_of (k ∷ ks)) b.rr },
        get_elem? (k ∷ ks) idx,
      )

  -- The loop of `_weighted`, with what is returned if no key is reached.
  unfoldable pub weighted_from : F → ℕ → List ApiKey → ApiKey → ApiKey
  weighted_from r acc [] last = last
  weighted_from r acc (k ∷ ks) last =
      let rest = weighted_from r (acc + weight_of k) ks last in
      if le r (of_ℕ (acc + weight_of k)) then k else rest

  unfoldable pub weighted : F → ApiKey → List ApiKey → ApiKey
  unfolding weighted_from
  weighted r k ks = weighted_from r 0 (k ∷ ks) (last_of k ks)

  -- What `_priority` does with its pool; none where an index raises.
  unfoldable pub pick_pool : LoadBalancer → List ApiKey → LoadBalancer × Option ApiKey
  unfolding round_robin
  pick_pool b [] = (b, none)
  pick_pool b (p ∷ []) = (b, some p)
  pick_pool b (p ∷ q ∷ ps) = round_robin b p (q ∷ ps)

  unfoldable pub by_priority : LoadBalancer → ApiKey → List ApiKey → LoadBalancer × Option ApiKey
  unfolding pick_pool
  by_priority b k ks = pick_pool b (priority_pool (k ∷ ks))

  abbrev pub active_of : LoadBalancer → ApiKey → ℕ
  active_of b k = Dict.lookup_or k.id 0 b.active

  unfoldable pub least_connections : LoadBalancer → ApiKey → List ApiKey → ApiKey
  least_connections b k ks = first_best (λ x y. ltb (active_of b x) (active_of b y)) k ks

  abbrev pub fsum : F → List F → F
  fsum acc [] = acc
  fsum acc (x ∷ xs) = fsum (add acc x) xs

  abbrev pub mean : List F → Option F
  mean [] = none
  mean (x ∷ xs) = some (div (fsum (of_ℕ 0) (x ∷ xs)) (of_ℕ (length (x ∷ xs))))

  -- The mean of the samples of a key, none without samples.
  abbrev pub average : LoadBalancer → ApiKey → Option F
  average b k = mean (Dict.lookup_or k.id [] b.latencies)

  -- The loop of `_response_time` with the best key and its mean so far.
  unfoldable pub response_from : LoadBalancer → Option (ApiKey × F) → List ApiKey → Option ApiKey
  response_from b best [] = Option.map (λ p. p.0) best
  response_from b best (k ∷ ks) = elim (average b k) [
    | none ↦ some k
    | some avg ↦
        response_from b
          (elim best [
            | none ↦ some (k, avg)
            | some (kb, ab) ↦ if le ab avg then some (kb, ab) else some (k, avg)
          ])
          ks
  ]

  unfoldable pub response_time : LoadBalancer → ApiKey → List ApiKey → ApiKey
  unfolding response_from
  response_time b k ks = elim (response_from b none (k ∷ ks)) [ none ↦ k | some x ↦ x ]

  -- `ApiKey.error_rate`
  unfoldable pub error_rate : ApiKey → Now → F
  unfolding is_today today_requests today_errors
  error_rate k now =
      if is_today k now
      then (if nat_beq (today_requests k now) 0
          then of_ℕ 0
          else div (of_ℕ (today_errors k now)) (of_ℕ (today_requests k now)))
      else of_ℕ 0

  unfoldable pub score : LoadBalancer → Now → ApiKey → F
  unfolding error_rate quota_remaining
  score b now k =
      let s₁ = add (of_ℕ 0) (of_ℤ (sub_ℤ (pos 100) k.priority)) in
      let s₂ = add s₁ (mul (sub (of_ℕ 1) (error_rate k now)) (of_ℕ 20)) in
      let s₃ = sub s₂ (mul (of_ℕ (active_of b k)) (of_ℕ 2)) in
      let share = div (of_ℤ (quota_remaining k now)) (of_ℕ (max 1 (pos_part k.daily_quota))) in
      let s₄ = add s₃ (mul (fmin fl (of_ℕ 1) share) (of_ℕ 10)) in
      let s₅ = add s₄ (mul (of_ℕ (weight_of k)) (decimal 5 1)) in
      if ltb 0 k.last_used && ltb now.ms (k.last_used + 60_000) then add s₅ (of_ℕ 2) else s₅

  unfoldable pub smart : LoadBalancer → Now → ApiKey → List ApiKey → ApiKey
  unfolding score
  smart b now k ks = first_best (λ x y. not (le (score b now x) (score b now y))) k ks

  -- None without candidates, and where a strategy raises.
  unfoldable pub pick : LoadBalancer → Now → F → List ApiKey → String → LoadBalancer × Option ApiKey
  unfolding round_robin weighted by_priority least_connections response_time smart
  pick b now r [] strategy = (b, none)
  pick b now r (k ∷ ks) strategy =
      let (b₁, k₁) = round_robin b k ks in
      let (b₂, k₂) = by_priority b k ks in
      if strategy == "round_robin"
      then (b₁, k₁)
      else if strategy == "weighted_round_robin"
      then (b, some (weighted r k ks))
      else if strategy == "priority"
      then (b₂, k₂)
      else if strategy == "least_connections"
      then (b, some (least_connections b k ks))
      else if strategy == "response_time"
      then (b, some (response_time b k ks))
      else (b, some (smart b now k ks))
