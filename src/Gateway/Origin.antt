-- ===== src/Gateway/Origin.antt =====
-- `gateway.py`: where the response comes from that the failover loop ends with.
use inter_gate.Base.{
  ℕ, zero, suc, min, String, ◌≡◌, ◌≢◌, refl, subst, Bool, true, not, Option, none, some, List, [],
  ◌∷◌, ◌==◌, string_eq, list_eq, nat_eq, if_both, contains, filter, filter-Elem, length, Bool-cases,
  inl, inr, Elem,
}
use inter_gate.Base.Floats.{Floats}
use inter_gate.Base.Text.{Text}
use inter_gate.Constants.{max_retry_keys}
use inter_gate.Keys.ApiKey.{ApiKey, Metadata}
use inter_gate.Balancer.{pick}
use inter_gate.Balancer.Choice.{pick-candidate}
use inter_gate.Limiter.{check_key_rpm, check_tpm}
use inter_gate.Providers.{resolve_base_url}
use inter_gate.Gateway.{join_base_and_path}
use inter_gate.Gateway.Attempts.{Verdict-cases}
use inter_gate.Gateway.Upstream.{Job, Outcome, Failure, Answer, Verdict, receive, accepted}
use inter_gate.Gateway.Failover.{
  Gateway, Round, call_of, settle_answer, settle, call_upstream, call_at, attempt, own_base_url,
  failover, try_keys,
}

-- A verdict that ends the loop carries the key and the response of the outcome.
abbrev pub IsFrom : Bool → ApiKey → Outcome → Verdict → Type 0
IsFrom is_stream k o (Verdict.next last) = Unit
IsFrom is_stream k o (Verdict.done used u) =
    (used ≡ k) × (o ≡ Outcome.answered u) × (accepted is_stream u.status ≡ true)

module _ (fl : Floats) (percent : fl.F → String) (json_dumps : Metadata → String) where
  -- What is answered in the round to the client's request when it is sent to the URL with the plain
  -- text of the key.
  abbrev pub outcome_at : Round fl → Job → ApiKey → Text → Outcome
  outcome_at e job k url =
      receive job.is_stream (e.upstream (call_of fl percent json_dumps job (e.plain_key k) url))

  -- The base URL of the key, which is not empty.
  abbrev pub IsBase : ApiKey → Text → Type 0
  IsBase k base = (resolve_base_url k.provider (own_base_url k) none ≡ some base) × (base ≢ [])

  -- The key is passed by, or the verdict is on the answer to the request at the key's base URL.
  abbrev pub IsCalled : Round fl → Job → ApiKey → Verdict → Type 0
  IsCalled e job k (Verdict.next last) = Unit
  IsCalled e job k (Verdict.done used u) =
      (base : Text) × IsBase k base
      × IsFrom job.is_stream k (outcome_at e job k (join_base_and_path base job.path))
          (Verdict.done used u)

  from-IsCalled :
      (e : Round fl) (job : Job) (k : ApiKey) (base : Text) (v : Verdict)
      → IsBase k base
      → IsFrom job.is_stream k (outcome_at e job k (join_base_and_path base job.path)) v
      → IsCalled e job k v
  from-IsCalled e job k base (Verdict.next last) b f = tt
  from-IsCalled e job k base (Verdict.done used u) b f = (base, b, f)

  settle-IsFrom :
      (g : Gateway fl) (e : Round fl) (is_stream : Bool) (k : ApiKey) (o : Outcome)
      → IsFrom is_stream k o (settle fl percent json_dumps g e is_stream k o).1
  unfolding settle settle_answer
  settle-IsFrom g e is_stream k (Outcome.raised u) = tt
  settle-IsFrom g e is_stream k (Outcome.answered u) =
      let P = λ (x : Gateway fl × Verdict). IsFrom is_stream k (Outcome.answered u) x.1 in
      elim (Bool-cases (accepted is_stream u.status)) [
        | inl t ↦ rw t (if_both P is_stream _ _ (refl, refl, t) (refl, refl, t))
        | inr t ↦ rw t tt
      ]

  call_at-IsCalled :
      (g : Gateway fl) (e : Round fl) (job : Job) (last : Option Failure) (k : ApiKey)
      (base : Option Text)
      → resolve_base_url k.provider (own_base_url k) none ≡ base
      → IsCalled e job k (call_at fl percent json_dumps g e job last k base).1
  unfolding call_at call_upstream
  call_at-IsCalled g e job last k none r = tt
  call_at-IsCalled g e job last k (some []) r = tt
  call_at-IsCalled g e job last k (some (c ∷ s)) r =
      from-IsCalled e job k (c ∷ s) _ (r, λ x. cc)
        (settle-IsFrom _ e job.is_stream k
          (outcome_at e job k (join_base_and_path (c ∷ s) job.path)))

  attempt-IsCalled :
      (g : Gateway fl) (e : Round fl) (job : Job) (last : Option Failure) (k : ApiKey)
      → IsCalled e job k (attempt fl percent json_dumps g e job last k).1
  unfolding attempt
  attempt-IsCalled g e job last k =
      let P = λ (x : Gateway fl × Verdict). IsCalled e job k x.1 in
      let c = check_key_rpm fl g.limiter e.mono k.id k.max_requests_per_minute in
      let limited : Gateway fl = record g {
        limiter = (check_tpm fl c.0 e.mono k.id job.tokens).0;
      } in
      if_both P (not c.1.0) _ _ tt (
        if_both P (e.plain_key k == []) _ _ tt (
          call_at-IsCalled limited e job last k (resolve_base_url k.provider (own_base_url k) none)
            refl))

  -- The response is the answer to the last key tried, a candidate, in the round behind the keys
  -- tried before it: to the client's request with this key's plain text at this key's base URL.
  abbrev pub IsServed : (ℕ → Round fl) → Job → List ApiKey → List String → Answer → Type 0
  IsServed env job keys tried (Answer.failed last) = Unit
  IsServed env job keys tried (Answer.served k u) =
      Elem k keys
      × (before : List String) × (tried ≡ k.id ∷ before)
      × (base : Text) × IsBase k base
      × (outcome_at (env (length before)) job k (join_base_and_path base job.path)
          ≡ Outcome.answered u)
      × (accepted job.is_stream u.status ≡ true)

  failover-IsServed :
      (n : ℕ) (g : Gateway fl) (env : ℕ → Round fl) (strategy : String) (job : Job)
      (keys : List ApiKey) (before : List String) (last : Option Failure)
      → let r = failover fl percent json_dumps n g env strategy job keys before last in
        IsServed env job keys r.1 r.2
  unfolding failover
  failover-IsServed zero g env strategy job keys before last = tt
  failover-IsServed (suc n) g env strategy job keys before last =
      let e = env (length before) in
      let left = filter (λ (k : ApiKey). not (contains before k.id)) keys in
      elim (pick-candidate fl g.balancer e.now e.draw left strategy) [
        | inl (p, empty) ↦ rw (failover, p) tt
        | inr (k, p, m) ↦
            let there = filter-Elem (λ (k : ApiKey). not (contains before k.id)) k keys m in
            let b = (pick fl g.balancer e.now e.draw left strategy).0 in
            let g₁ : Gateway fl = record g { balancer = b } in
            let r = attempt fl percent json_dumps g₁ e job last k in
            elim (Verdict-cases r.1) [
              | inl (used, u, q) ↦
                  let (base, own, (same, got, ok)) =
                    subst (IsCalled e job k) q (attempt-IsCalled g₁ e job last k) in
                  rw (failover, p, q, same) (there.0, before, refl, base, own, got, ok)
              | inr (last', q) ↦
                  rw (failover, p, q)
                    (failover-IsServed n r.0 env strategy job keys (k.id ∷ before) last')
            ]
      ]

  -- A response that the loop ends with is the answer to the last key tried, one of the candidates,
  -- in the round numbered by the keys tried before it: what came back when the client's request was
  -- sent with that key's plain text to the client's path at that key's base URL, which is not
  -- empty. Its status is one that the gateway sends on: a success, or below 400 for a stream.
  pub try_keys-IsServed :
      (g : Gateway fl) (env : ℕ → Round fl) (strategy : String) (job : Job) (keys : List ApiKey)
      → let r = try_keys fl percent json_dumps g env strategy job keys in
        IsServed env job keys r.1 r.2
  unfolding try_keys
  try_keys-IsServed g env strategy job keys =
      failover-IsServed (min max_retry_keys (length keys)) g env strategy job keys [] none
