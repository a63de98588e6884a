-- ===== src/Gateway/Failover.antt =====
-- `gateway.py`: the failover loop of `_handle`. What a decision rests on from outside the process
-- is an argument for each round: the clocks, the number drawn, the decrypted key and the upstream's
-- answer. Log rows and the response cache stand outside the loop.
use inter_gate.Base.{
  ℕ, zero, suc, ◌+◌, min, String, Bool, true, false, not, Option, none, some, List, [], ◌∷◌, ◌==◌,
  string_eq, nat_eq, list_eq, if◌then◌else◌, filter, contains, length,
}
use inter_gate.Base.Int.{pos, negsuc}
use inter_gate.Base.Text.{Text, codes}
use inter_gate.Base.Floats.{Floats}
use inter_gate.Base.Dict
use inter_gate.Constants.{max_retry_keys}
use inter_gate.Keys.ApiKey.{ApiKey, Now, Metadata}
use inter_gate.Keys.Manager.{KeyManager, Category, record_success, record_failure}
use inter_gate.Providers.{resolve_base_url}
use inter_gate.Balancer.{LoadBalancer, pick, report_active, report_latency}
use inter_gate.Limiter.{RateLimiter, check_key_rpm, check_tpm}
use inter_gate.Quota.{QuotaMonitor, AlertWrites, Tokens, record_usage}
use inter_gate.Gateway.{classify_status, join_base_and_path}
use inter_gate.Gateway.Body.{build_upstream_headers}
use inter_gate.Gateway.Upstream.{
  UpstreamResult, Sent, Outcome, Call, Job, Failure, Answer, Verdict, accepted, receive,
}

-- The object of a key as it is now: the entry of the cache, or the one picked if that is deleted.
abbrev pub current : KeyManager → ApiKey → ApiKey
current m k = elim (Dict.lookup k.id m.cache) [ none ↦ k | some c ↦ c ]

abbrev pub own_base_url : ApiKey → Option Text
own_base_url k = elim k.base_url [ none ↦ none | some u ↦ some (codes u) ]

abbrev pub no_tokens : Tokens
no_tokens = record { prompt = 0; completion = 0 }

abbrev pub is_quota : Category → Bool
is_quota Category.quota = true
is_quota _ = false

module _ (fl : Floats) where
  open fl use {F, of_ℕ}

  pub record Gateway : Type 0 where
    pub manager : KeyManager
    pub balancer : LoadBalancer fl
    pub limiter : RateLimiter fl
    pub quota : QuotaMonitor fl

  -- The outside of one round.
  pub record Round : Type 0 where
    pub now : Now
    pub mono : ℕ
    pub draw : F
    pub latency_ms : F
    pub plain_key : ApiKey → Text
    pub upstream : Call → Sent
    pub cost : Tokens → ℕ
    pub alert_writes : AlertWrites

  module _ (percent : F → String) (json_dumps : Metadata → String) where
    -- `_quota_record`; a cost is estimated where there are tokens.
    unfoldable pub quota_record : Gateway → Round → ApiKey → ℕ → Tokens → Gateway
    unfolding record_usage
    quota_record g e k status usage =
        let cost = if usage.prompt + usage.completion == 0 then 0 else e.cost usage in
        let (q, m, _) =
          record_usage fl percent json_dumps g.quota g.manager e.alert_writes e.now
            (current g.manager k) status usage cost in
        record g { quota = q; manager = m }

    -- `_after_failure`
    unfoldable pub after_failure : Gateway → Round → ApiKey → Category → Gateway
    unfolding quota_record record_failure
    after_failure g e k category =
        quota_record
          (record g { manager = record_failure json_dumps g.manager e.now k.id category }) e k
          (if is_quota category then 429 else 500) no_tokens

    -- What follows a response: it is sent on, or its status counts as a failure. A stream is handed
    -- on, and its books are closed by `finish_stream`.
    unfoldable pub settle_answer :
        Gateway → Round → Bool → ApiKey → UpstreamResult → Gateway × Verdict
    unfolding after_failure
    settle_answer g e is_stream k r =
        let g' : Gateway = record g {
          manager = record_success json_dumps g.manager e.now k.id;
          balancer = report_latency fl g.balancer k.id e.latency_ms;
        } in
        let booked = quota_record g' e k r.status r.usage in
        let category = classify_status r.status r.body in
        let failure : Failure = record {
          status = r.status;
          category = category;
          body = r.body;
          message = none;
        } in
        if accepted is_stream r.status
        then (if is_stream then (g, Verdict.done k r) else (booked, Verdict.done k r))
        else (after_failure g e k category, Verdict.next (some failure))

    -- What follows the upstream's answer inside the `try`.
    unfoldable pub settle : Gateway → Round → Bool → ApiKey → Outcome → Gateway × Verdict
    unfolding settle_answer
    settle g e is_stream k (Outcome.answered r) = settle_answer g e is_stream k r
    settle g e is_stream k (Outcome.raised u) = (
      after_failure g e k u.category,
      Verdict.next (
          some (record {
            status = u.status;
            category = u.category;
            body = [];
            message = some u.message;
          })),
    )

    -- The `finally` of `response_gen`, at the end of a stream or when the client leaves.
    unfoldable pub finish_stream : Gateway → Round → ApiKey → ℕ → Tokens → Gateway
    unfolding quota_record
    finish_stream g e k status usage =
        quota_record
          (record g {
            manager = record_success json_dumps g.manager e.now k.id;
            balancer = report_latency fl g.balancer k.id e.latency_ms;
          })
          e k status usage

    -- The request that goes to the upstream.
    abbrev pub call_of : Job → Text → Text → Call
    call_of job plain_key url = record {
      method = if job.is_stream then "POST" else job.method;
      url = url;
      headers = build_upstream_headers job.headers plain_key;
      body = job.body;
    }

    -- The request to the upstream between the two reports of `finally`.
    unfoldable pub call_upstream : Gateway → Round → Job → ApiKey → Text → Gateway × Verdict
    unfolding settle receive
    call_upstream g e job k url =
        let busy : Gateway = record g { balancer = report_active fl g.balancer k.id (pos 1) } in
        let sent = e.upstream (call_of job (e.plain_key k) url) in
        let (after, verdict) = settle busy e job.is_stream k (receive job.is_stream sent) in
        (record after { balancer = report_active fl after.balancer k.id (negsuc 0) }, verdict)

    -- The call at the base URL, if there is one.
    unfoldable pub call_at :
        Gateway → Round → Job → Option Failure → ApiKey → Option Text → Gateway × Verdict
    unfolding call_upstream
    call_at g e job last k none = (g, Verdict.next last)
    call_at g e job last k (some []) = (g, Verdict.next last)
    call_at g e job last k (some (c ∷ s)) =
        call_upstream g e job k (join_base_and_path (c ∷ s) job.path)

    -- A round with a key that is picked: its limits, its plain text, its URL, the call.
    unfoldable pub attempt : Gateway → Round → Job → Option Failure → ApiKey → Gateway × Verdict
    unfolding call_at
    attempt g e job last k =
        let (l₁, (admitted, _)) =
          check_key_rpm fl g.limiter e.mono k.id k.max_requests_per_minute in
        let g₁ : Gateway = record g { limiter = l₁ } in
        let (l₂, _) = check_tpm fl l₁ e.mono k.id job.tokens in
        let g₂ : Gateway = record g { limiter = l₂ } in
        let no_key : Gateway = record g₂ {
          manager = record_failure json_dumps g₂.manager e.now k.id Category.auth;
        } in
        let base = resolve_base_url k.provider (own_base_url k) none in
        if not admitted
        then (g₁, Verdict.next last)
        else if e.plain_key k == []
        then (no_key, Verdict.next last)
        else call_at g₂ e job last k base

    -- The loop, for at most n rounds: the gateway after it, the ids tried, and the answer. The
    -- round's outside is given for the number of keys tried before.
    unfoldable pub failover :
        ℕ
        → Gateway
        → (ℕ → Round)
        → String
        → Job
        → List ApiKey
        → List String
        → Option Failure
        → Gateway × List String × Answer
    unfolding attempt
    failover zero g env strategy job keys tried last = (g, tried, Answer.failed last)
    failover (suc n) g env strategy job keys tried last =
        let e = env (length tried) in
        let left = filter (λ (k : ApiKey). not (contains tried k.id)) keys in
        let (b, choice) = pick fl g.balancer e.now e.draw left strategy in
        elim choice [
          | none ↦ (record g { balancer = b }, tried, Answer.failed last)
          | some k ↦
              let (g', verdict) = attempt (record g { balancer = b }) e job last k in
              elim verdict [
                | Verdict.done used r ↦ (g', k.id ∷ tried, Answer.served used r)
                | Verdict.next last' ↦ failover n g' env strategy job keys (k.id ∷ tried) last'
              ]
        ]

    -- The loop as `_handle` starts it.
    unfoldable pub try_keys :
        Gateway → (ℕ → Round) → String → Job → List ApiKey → Gateway × List String × Answer
    unfolding failover
    try_keys g env strategy job keys =
        failover (min max_retry_keys (length keys)) g env strategy job keys [] none
