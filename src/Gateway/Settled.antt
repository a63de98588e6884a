-- ===== src/Gateway/Settled.antt =====
-- `gateway.py`: the connections that the failover loop reports.
use inter_gate.Base.{
  ℕ, zero, suc, ◌+◌, ◌-◌, min, String, ◌≡◌, refl, ap, ◌∙◌, inl, inr, Bool, not, Option, none, some,
  List, [], ◌∷◌, arith, ◌==◌, string_eq, list_eq, nat_eq, if_both, filter, contains, length,
  Bool-cases, Option-cases, eq→path,
}
use inter_gate.Base.Int.{pos, negsuc}
use inter_gate.Base.Text.{Text}
use inter_gate.Base.Floats.{Floats}
use inter_gate.Base.Dict
use inter_gate.Base.Dict.{lookup-insert}
use inter_gate.Keys.ApiKey.{ApiKey, Now, Metadata}
use inter_gate.Balancer.{
  LoadBalancer, pick, report_active, report_latency, round_robin, pick_pool, by_priority,
  priority_pool,
}
use inter_gate.Limiter.{check_key_rpm, check_tpm}
use inter_gate.Providers.{resolve_base_url}
use inter_gate.Gateway.{join_base_and_path}
use inter_gate.Gateway.Upstream.{Job, Outcome, receive, accepted, Failure, Verdict}
use inter_gate.Gateway.Failover.{
  Gateway, Round, call_of, settle_answer, attempt, call_at, own_base_url, call_upstream, settle,
  failover, try_keys, quota_record, after_failure,
}
use inter_gate.Gateway.Attempts.{Verdict-cases}
use inter_gate.Constants.{max_retry_keys}

module _ (fl : Floats) where
  open fl use {F}

  -- The connections of a key that the balancer counts.
  abbrev pub connections : LoadBalancer fl → String → ℕ
  connections b id = Dict.lookup_or id 0 b.active

  pick_pool-active :
      (b : LoadBalancer fl) (pool : List ApiKey) → (pick_pool fl b pool).0.active ≡ b.active
  unfolding pick_pool round_robin
  pick_pool-active b [] = refl
  pick_pool-active b (p ∷ []) = refl
  pick_pool-active b (p ∷ q ∷ ps) = refl

  by_priority-active :
      (b : LoadBalancer fl) (k : ApiKey) (ks : List ApiKey)
      → (by_priority fl b k ks).0.active ≡ b.active
  unfolding by_priority
  by_priority-active b k ks = pick_pool-active b (priority_pool (k ∷ ks))

  pick-active :
      (b : LoadBalancer fl) (now : Now) (r : F) (keys : List ApiKey) (strategy : String)
      → (pick fl b now r keys strategy).0.active ≡ b.active
  unfolding pick round_robin
  pick-active b now r [] strategy = refl
  pick-active b now r (k ∷ ks) strategy =
      let P = λ (p : LoadBalancer fl × Option ApiKey). p.0.active ≡ b.active in
      if_both P (strategy == "round_robin") _ _ refl (
        if_both P (strategy == "weighted_round_robin") _ _ refl (
          if_both P (strategy == "priority") _ _ (by_priority-active b k ks) (
            if_both P (strategy == "least_connections") _ _ refl
              (if_both P (strategy == "response_time") _ _ refl refl))))

  -- One connection more and one less.
  report_active-undo :
      (b : LoadBalancer fl) (key_id id : String)
      → connections (report_active fl (report_active fl b key_id (pos 1)) key_id (negsuc 0)) id
        ≡ connections b id
  unfolding report_active
  report_active-undo b key_id id =
      let a = connections b key_id in
      let up = Dict.insert key_id (a + 1 - 0) b.active in
      elim (Bool-cases (key_id == id)) [
        | inl e ↦
            let same : key_id ≡ id = eq→path key_id id e in
            ground (
              arith,
              e,
              same,
              lookup-insert key_id id (a + 1 - 0) b.active,
              lookup-insert key_id key_id (a + 1 - 0) b.active,
              lookup-insert key_id id (Dict.lookup_or key_id 0 up + 0 - 1) up,
            )
        | inr e ↦ ground (
          arith,
          e,
          lookup-insert key_id id (a + 1 - 0) b.active,
          lookup-insert key_id id (Dict.lookup_or key_id 0 up + 0 - 1) up,
        )
      ]

  module _ (percent : F → String) (json_dumps : Metadata → String) where
    settle-active :
        (g : Gateway fl) (e : Round fl) (is_stream : Bool) (k : ApiKey) (o : Outcome)
        → (settle fl percent json_dumps g e is_stream k o).0.balancer.active ≡ g.balancer.active
    unfolding settle settle_answer after_failure quota_record report_latency
    settle-active g e is_stream k (Outcome.answered r) =
        let P = λ (x : Gateway fl × Verdict). x.0.balancer.active ≡ g.balancer.active in
        if_both P (accepted is_stream r.status) _ _ (if_both P is_stream _ _ refl refl) refl
    settle-active g e is_stream k (Outcome.raised u) = refl

    -- The report before a call and the one behind it cancel.
    call_upstream-connections :
        (g : Gateway fl) (e : Round fl) (job : Job) (k : ApiKey) (url : Text) (id : String)
        → connections (call_upstream fl percent json_dumps g e job k url).0.balancer id
          ≡ connections g.balancer id
    unfolding call_upstream report_active
    call_upstream-connections g e job k url id =
        let busy : Gateway fl = record g { balancer = report_active fl g.balancer k.id (pos 1) } in
        let o =
          receive job.is_stream
            (e.upstream (call_of fl percent json_dumps job (e.plain_key k) url)) in
        ap
          (λ active.
            Dict.lookup_or id 0 (Dict.insert k.id (Dict.lookup_or k.id 0 active + 0 - 1) active))
          (settle-active busy e job.is_stream k o)
        ∙ report_active-undo g.balancer k.id id

    call_at-connections :
        (g : Gateway fl) (e : Round fl) (job : Job) (last : Option Failure) (k : ApiKey)
        (base : Option Text) (id : String)
        → connections (call_at fl percent json_dumps g e job last k base).0.balancer id
          ≡ connections g.balancer id
    unfolding call_at
    call_at-connections g e job last k none id = refl
    call_at-connections g e job last k (some []) id = refl
    call_at-connections g e job last k (some (c ∷ s)) id =
        call_upstream-connections g e job k (join_base_and_path (c ∷ s) job.path) id

    attempt-connections :
        (g : Gateway fl) (e : Round fl) (job : Job) (last : Option Failure) (k : ApiKey)
        (id : String)
        → connections (attempt fl percent json_dumps g e job last k).0.balancer id
          ≡ connections g.balancer id
    unfolding attempt
    attempt-connections g e job last k id =
        let P =
          λ (r : Gateway fl × Verdict). connections r.0.balancer id ≡ connections g.balancer id in
        let r = check_key_rpm fl g.limiter e.mono k.id k.max_requests_per_minute in
        let limited : Gateway fl = record g {
          limiter = (check_tpm fl r.0 e.mono k.id job.tokens).0;
        } in
        if_both P (not r.1.0) _ _ refl (
          if_both P (e.plain_key k == []) _ _ refl (
            call_at-connections limited e job last k
              (resolve_base_url k.provider (own_base_url k) none) id))

    failover-connections :
        (n : ℕ) (g : Gateway fl) (env : ℕ → Round fl) (strategy : String) (job : Job)
        (keys : List ApiKey) (before : List String) (last : Option Failure) (id : String)
        → connections
            (failover fl percent json_dumps n g env strategy job keys before last).0.balancer
            id
          ≡ connections g.balancer id
    unfolding failover
    failover-connections zero g env strategy job keys before last id = refl
    failover-connections (suc n) g env strategy job keys before last id =
        let e = env (length before) in
        let left = filter (λ (k : ApiKey). not (contains before k.id)) keys in
        let p = pick fl g.balancer e.now e.draw left strategy in
        let g₁ : Gateway fl = record g { balancer = p.0 } in
        let picked =
          ap (λ active. Dict.lookup_or id 0 active)
            (pick-active g.balancer e.now e.draw left strategy) in
        elim (Option-cases p.1) [
          | inl c ↦ rw (failover, c) picked
          | inr (k, c) ↦
              let r = attempt fl percent json_dumps g₁ e job last k in
              let tried = attempt-connections g₁ e job last k id in
              elim (Verdict-cases r.1) [
                | inl (used, result, v) ↦ rw (failover, c, v) (tried ∙ picked)
                | inr (last', v) ↦
                    rw (failover, c, v)
                      (failover-connections n r.0 env strategy job keys (k.id ∷ before) last' id
                        ∙ tried
                        ∙ picked)
              ]
        ]

    -- However the attempts of a request end, the balancer counts as many connections of every key
    -- behind them as before.
    pub try_keys-connections :
        (g : Gateway fl) (env : ℕ → Round fl) (strategy : String) (job : Job) (keys : List ApiKey)
        (id : String)
        → connections (try_keys fl percent json_dumps g env strategy job keys).0.balancer id
          ≡ connections g.balancer id
    unfolding try_keys
    try_keys-connections g env strategy job keys id =
        failover-connections (min max_retry_keys (length keys)) g env strategy job keys [] none id
