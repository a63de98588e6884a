-- ===== src/Gateway/Replayed.antt =====
-- `gateway.py`: the cache between two requests.
use inter_gate.Base.{
  ◌≢◌, ◌⊎◌, inl, inr, [], ◌∷◌, ◌+◌, ◌≤◌, ◌<◌, String, ◌≡◌, refl, true, false, some, List, string_eq,
}
use inter_gate.Base.Floats.{Floats}
use inter_gate.Keys.ApiKey.{ApiKey, Metadata}
use inter_gate.Cache
use inter_gate.Cache.{storable}
use inter_gate.Cache.Laws.{IsValid, put-get}
use inter_gate.Gateway.Upstream.{Job, Answer, UpstreamResult}
use inter_gate.Gateway.Replies.{Reply, Content, Incoming}
use inter_gate.Gateway.Query.{Query, Python, cache_key_of}
use inter_gate.Gateway.Server.{Server, Outside, conclude}
use inter_gate.Gateway.Handle.{through_cache, with_keys}

-- What a cached response leaves alone, and what it is.
pub record IsReplay (fl : Floats) (s : Server fl) (u : UpstreamResult) (x : Server fl × Reply)
    : Type 0 where
  pub status : x.1.status ≡ u.status
  pub content : x.1.content ≡ Content.bytes u.body
  pub keys : x.0.gateway.manager.cache ≡ s.gateway.manager.cache
  pub balancer : x.0.gateway.balancer ≡ s.gateway.balancer
  pub limiter : x.0.gateway.limiter ≡ s.gateway.limiter
  pub quota : x.0.gateway.quota ≡ s.gateway.quota

module _ (py : Python) (fl : Floats) (percent : fl.F → String)
    (json_dumps : Metadata → String) where
  through_cache-IsReplay :
      (s : Server fl) (later : Outside fl) (r : Incoming) (q : Query) (key : String)
      (u : UpstreamResult) (keys : List ApiKey)
      → cache_key_of py r q ≡ some key
      → (Cache.get s.cache later.cache_now key).1 ≡ some (u.status, u.headers, u.body)
      → IsReplay fl s u (through_cache py fl percent json_dumps s later r q keys)
  unfolding through_cache
  through_cache-IsReplay s later r q key u keys same hit =
      rw (through_cache, same, hit)
        (record {
          status = refl;
          content = refl;
          keys = refl;
          balancer = refl;
          limiter = refl;
          quota = refl;
        })

  cache-conclude :
      (s : Server fl) (io : Outside fl) (r : Incoming) (q : Query) (job : Job) (key : String)
      (k : ApiKey) (u : UpstreamResult)
      → job.is_stream ≡ false
      → (conclude py fl s io r q job (some key) (Answer.served k u)).0.cache
        ≡ Cache.put s.cache io.cached_at key u.status u.headers u.body
  unfolding conclude
  cache-conclude s io r q job key k u whole = rw whole refl

  -- After a response that is not a stream and that the cache accepts is concluded, and as long as
  -- no call of the cache comes between, this holds for every request with the same cache key that
  -- reaches the choice of keys within the time to live, if the cache can hold an entry at all:
  -- without a candidate key it is refused with 503, and otherwise it is answered with the status
  -- and the body of that response, and no key is picked, tried or charged for it. The rest of the
  -- server may be in any state.
  pub with_keys-conclude :
      (s s₂ : Server fl) (io later : Outside fl) (r r' : Incoming) (q q' : Query) (job : Job)
      (key : String) (k : ApiKey) (u : UpstreamResult) (keys : List ApiKey)
      → IsValid s.cache
      → 0 < s.cache.max_entries
      → storable s.cache.enabled s.cache.max_body_bytes u.status u.body ≡ true
      → later.cache_now ≤ io.cached_at + s.cache.ttl
      → job.is_stream ≡ false
      → cache_key_of py r' q' ≡ some key
      → s₂.cache ≡ (conclude py fl s io r q job (some key) (Answer.served k u)).0.cache
      → let x = with_keys py fl percent json_dumps s₂ later r' q' keys in
        (keys ≡ []) × (x.1.status ≡ 503) × (x.0.cache ≡ s₂.cache) ⊎ (keys ≢ []) × IsReplay fl s₂ u x
  unfolding with_keys
  with_keys-conclude s s₂ io later r r' q q' job key k u [] v pos ok fresh whole same kept =
      inl (refl, refl, refl)
  with_keys-conclude s s₂ io later r r' q q' job key k u (c ∷ cs) v pos ok fresh whole same kept =
      let hit =
        put-get s.cache io.cached_at later.cache_now key u.status u.headers u.body v pos ok fresh in
      let found : (Cache.get s₂.cache later.cache_now key).1 ≡ some (u.status, u.headers, u.body) =
        rw (kept, cache-conclude s io r q job key k u whole) hit in
      inr (λ e. cc, through_cache-IsReplay s₂ later r' q' key u (c ∷ cs) same found)
