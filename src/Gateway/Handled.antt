-- ===== src/Gateway/Handled.antt =====
-- `gateway.py`: what `_handle` changes, whichever way a request ends.
use inter_gate.Base.{
  String, ◌≡◌, refl, ◌∙◌, not, Option, none, some, List, [], ◌∷◌, ◌==◌, string_eq, nat_eq, if_both,
  contains, Option-cases, inl, inr,
}
use inter_gate.Base.Floats.{Floats}
use inter_gate.Base.Text.{Text}
use inter_gate.Keys.ApiKey.{ApiKey, Metadata}
use inter_gate.Cache
use inter_gate.Constants.{health_paths}
use inter_gate.Limiter.{check}
use inter_gate.Sync.Models.{Model}
use inter_gate.Gateway.{Permission, authorize, denied}
use inter_gate.Gateway.Upstream.{Job, Answer}
use inter_gate.Gateway.Failover.{try_keys}
use inter_gate.Gateway.Settled.{connections, try_keys-connections}
use inter_gate.Gateway.Replies.{Reply, Incoming}
use inter_gate.Gateway.Query.{Query, Python, read_body, query_of, job_of, cache_key_of}
use inter_gate.Gateway.Server.{Server, Outside, conclude}
use inter_gate.Gateway.Handle.{
  forward, through_cache, with_keys, route, or_models, with_body, with_permission, managed,
  local_models, limited, permitted, authorized, handle,
}

module _ (py : Python) (fl : Floats) (percent : fl.F → String)
    (json_dumps : Metadata → String) where
  -- The server has as many connections with the key as before.
  abbrev Balanced : Server fl → String → Server fl × Reply → Type 0
  Balanced s id x = connections fl x.0.gateway.balancer id ≡ connections fl s.gateway.balancer id

  conclude-Balanced :
      (s : Server fl) (io : Outside fl) (r : Incoming) (q : Query) (job : Job)
      (cache_key : Option String) (a : Answer) (id : String)
      → Balanced s id (conclude py fl s io r q job cache_key a)
  unfolding conclude
  conclude-Balanced s io r q job cache_key (Answer.served k u) id =
      if_both (Balanced s id) job.is_stream _ _ refl refl
  conclude-Balanced s io r q job cache_key (Answer.failed none) id = refl
  conclude-Balanced s io r q job cache_key (Answer.failed (some f)) id = refl

  forward-Balanced :
      (s : Server fl) (io : Outside fl) (r : Incoming) (q : Query) (cache_key : Option String)
      (keys : List ApiKey) (id : String)
      → Balanced s id (forward py fl percent json_dumps s io r q cache_key keys)
  unfolding forward
  forward-Balanced s io r q cache_key keys id =
      let job = job_of py r q in
      let tried =
        try_keys fl percent json_dumps s.gateway io.rounds s.load_balance_strategy job keys in
      let s₁ : Server fl = record s { gateway = tried.0 } in
      conclude-Balanced s₁ io r q job cache_key tried.2 id
      ∙ try_keys-connections fl percent json_dumps s.gateway io.rounds s.load_balance_strategy job
          keys id

  through_cache-Balanced :
      (s : Server fl) (io : Outside fl) (r : Incoming) (q : Query) (keys : List ApiKey)
      (id : String)
      → Balanced s id (through_cache py fl percent json_dumps s io r q keys)
  unfolding through_cache
  through_cache-Balanced s io r q keys id = elim (Option-cases (cache_key_of py r q)) [
    | inl e ↦ rw (through_cache, e) (forward-Balanced s io r q none keys id)
    | inr (key, e) ↦
        let found = Cache.get s.cache io.cache_now key in
        elim (Option-cases found.1) [
          | inl h ↦
              rw (through_cache, e, h)
                (forward-Balanced (record s { cache = found.0 }) io r q (some key) keys id)
          | inr (hit, h) ↦ rw (through_cache, e, h) refl
        ]
  ]

  with_keys-Balanced :
      (s : Server fl) (io : Outside fl) (r : Incoming) (q : Query) (keys : List ApiKey)
      (id : String)
      → Balanced s id (with_keys py fl percent json_dumps s io r q keys)
  unfolding with_keys
  with_keys-Balanced s io r q [] id = refl
  with_keys-Balanced s io r q (k ∷ ks) id = through_cache-Balanced s io r q (k ∷ ks) id

  route-Balanced :
      (s : Server fl) (io : Outside fl) (r : Incoming) (q : Query) (id : String)
      → Balanced s id (route py fl percent json_dumps s io r q)
  unfolding route
  route-Balanced s io r q id = with_keys-Balanced _ io r q _ id

  or_models-Balanced :
      (s : Server fl) (ms : Option (List (Text × Model))) (x : Server fl × Reply) (id : String)
      → Balanced s id x
      → Balanced s id (or_models py fl percent json_dumps s ms x)
  or_models-Balanced s none x id h = h
  or_models-Balanced s (some ms) x id h = refl

  limited-Balanced :
      (s : Server fl) (io : Outside fl) (r : Incoming) (q : Query) (id : String)
      → Balanced s id (limited py fl percent json_dumps s io r q)
  unfolding limited
  limited-Balanced s io r q id =
      let c = check fl s.gateway.limiter io.mono r.client_ip in
      let g = s.gateway in
      let s₁ : Server fl = record s { gateway = record g { limiter = c.0 } } in
      if_both (Balanced s id) (not c.1.0) _ _ refl (
        or_models-Balanced s₁ (local_models py fl percent json_dumps s₁ r q) _ id
          (route-Balanced s₁ io r q id))

  with_body-Balanced :
      (s : Server fl) (io : Outside fl) (r : Incoming) (p : Permission) (body : Option Text)
      (id : String)
      → Balanced s id (with_body py fl percent json_dumps s io r p body)
  unfolding with_body permitted
  with_body-Balanced s io r p none id = refl
  with_body-Balanced s io r p (some body) id =
      let q = query_of py s.syncer body in
      if_both (Balanced s id) (denied p q.model r.request.method) _ _ refl
        (limited-Balanced s io r q id)

  with_permission-Balanced :
      (s : Server fl) (io : Outside fl) (r : Incoming) (p : Option Permission) (id : String)
      → Balanced s id (with_permission py fl percent json_dumps s io r p)
  unfolding with_permission authorized
  with_permission-Balanced s io r none id = refl
  with_permission-Balanced s io r (some p) id =
      if_both (Balanced s id) (managed py fl percent json_dumps r.path) _ _ refl
        (with_body-Balanced s io r p (read_body py.int_of r) id)

  -- Whichever way a request ends, by a refusal, from the cache, with a response or with an error,
  -- the balancer counts as many connections of every key behind it as before.
  pub handle-connections :
      (s : Server fl) (io : Outside fl) (r : Incoming) (id : String)
      → connections fl (handle py fl percent json_dumps s io r).0.gateway.balancer id
        ≡ connections fl s.gateway.balancer id
  unfolding handle
  handle-connections s io r id =
      let a = authorize s.access io.mono io.stored r.request in
      let P = Balanced s id in
      if_both P (r.request.method == "OPTIONS") _ _ refl (
        if_both P (contains health_paths r.path) _ _ refl (
          if_both P (not s.gateway_enabled) _ _ refl
            (with_permission-Balanced (record s { access = a.0 }) io r a.1 id)))
