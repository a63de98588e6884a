-- ===== src/Gateway/Server.antt =====
-- `gateway.py`: the state of the gateway, and how a request ends behind the attempts.
use inter_gate.Base.{
  ℕ, String, Bool, false, Option, none, some, List, [], string_eq, nat_eq, list_eq, if◌then◌else◌,
}
use inter_gate.Base.Floats.{Floats}
use inter_gate.Base.Text.{Text, codes}
use inter_gate.Base.Dict
use inter_gate.Cache
use inter_gate.Cache.{ResponseCache, make_key}
use inter_gate.Constants.{cache_hit_header}
use inter_gate.Keys.ApiKey.{Now}
use inter_gate.Keys.Manager.{KeyManager}
use inter_gate.Store.{LogEntry, enqueue_log}
use inter_gate.Sync.{ModelSyncer}
use inter_gate.Gateway.{GatewayKey, Access}
use inter_gate.Gateway.Body.{Headers, upstream_headers}
use inter_gate.Gateway.Upstream.{Job, Answer, UpstreamResult}
use inter_gate.Gateway.Failover.{Gateway, Round, no_tokens}
use inter_gate.Gateway.Replies.{Content, Reply, Incoming, error_reply, category_name, log_entry}
use inter_gate.Gateway.Query.{Query, real_model, Python, failure_message}

abbrev pub mark : String → Headers → Headers
mark word headers = Dict.insert cache_hit_header (codes word) headers

abbrev pub set_default : String → Text → Headers → Headers
set_default k v h = elim (Dict.lookup k h) [ none ↦ Dict.insert k v h | some _ ↦ h ]

-- The headers of `_stream_response`.
unfoldable pub stream_headers : Headers → Headers
unfolding upstream_headers
stream_headers h = set_default "X-Accel-Buffering" (codes "no") (
    set_default "Cache-Control" (codes "no-cache")
      (set_default "Content-Type" (codes "text/event-stream; charset=utf-8") (upstream_headers h)))

abbrev pub miss_headers : Option String → Headers → Headers
miss_headers none h = h
miss_headers (some key) h = mark "MISS" h

module _ (fl : Floats) where
  pub record Server : Type 0 where
    pub gateway : Gateway fl
    pub access : Access
    pub cache : ResponseCache
    pub syncer : ModelSyncer
    pub gateway_enabled : Bool
    pub load_balance_strategy : String

  -- What a request meets outside the process; `cache_now` and `cached_at` are the clock of the
  -- cache when it is read and when it is written.
  pub record Outside : Type 0 where
    pub now : Now
    pub mono : ℕ
    pub cache_now : ℕ
    pub cached_at : ℕ
    pub ts : ℕ
    pub latency_ms : ℕ
    pub stored : List GatewayKey
    pub rounds : ℕ → Round fl

module _ (fl : Floats) where
  -- `db.enqueue_log` of an entry.
  abbrev pub logged : Server fl → LogEntry → Server fl
  logged s d =
      let g = s.gateway in
      let m = g.manager in
      let m' : KeyManager = record m { db = enqueue_log m.db d } in
      record s { gateway = record g { manager = m' } }

  abbrev pub store_answer : Server fl → Outside fl → Option String → UpstreamResult → ResponseCache
  store_answer s io none u = s.cache
  store_answer s io (some key) u = Cache.put s.cache io.cached_at key u.status u.headers u.body

module _ (py : Python) (fl : Floats) where
  -- How the request ends behind the attempts. The cache and the log are written where the loop
  -- returns, which no other part of the state reads in between.
  unfoldable pub conclude :
      Server fl → Outside fl → Incoming → Query → Job → Option String → Answer → Server fl × Reply
  unfolding log_entry error_reply failure_message upstream_headers stream_headers
  conclude s io r q job cache_key (Answer.served k u) =
      let entry = log_entry io.ts io.latency_ms r (real_model q) u.status k.id false u.usage [] in
      let s₁ : Server fl = record s { cache = store_answer fl s io cache_key u } in
      let streamed : Reply = record {
        status = u.status;
        headers = stream_headers u.headers;
        content = Content.stream;
      } in
      let whole : Reply = record {
        status = u.status;
        headers = miss_headers cache_key (upstream_headers u.headers);
        content = Content.bytes u.body;
      } in
      if job.is_stream then (s, streamed) else (logged fl s₁ entry, whole)
  conclude s io r q job cache_key (Answer.failed none) =
      let message = codes "上游不可用" in
      (
        logged fl s (log_entry io.ts io.latency_ms r (real_model q) 502 "" false no_tokens message),
        error_reply py.loads 502 message "upstream" none [],
      )
  conclude s io r q job cache_key (Answer.failed (some f)) =
      let message = failure_message py job.is_stream f in
      (
        logged fl s
            (log_entry io.ts io.latency_ms r (real_model q) f.status "" false no_tokens message),
        error_reply py.loads f.status message (category_name f.category) none f.body,
      )
