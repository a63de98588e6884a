-- ===== src/Gateway/Handle.antt =====
-- `gateway.py`: `_handle`, from the request to the response. The clocks, what the database has under
-- `gateway_keys`, and the outside of each round are given with the request; `json.loads`,
-- `json.dumps`, the hash, the UTF-8 codec and `str` of a JSON value are parameters.
use inter_gate.Base.{
  String, Bool, true, not, Option, none, some, List, [], ◌∷◌, ◌++◌, ◌==◌, string_eq, nat_eq,
  list_eq, if◌then◌else◌, contains,
}
use inter_gate.Base.Floats.{Floats}
use inter_gate.Base.Text.{Text, codes}
use inter_gate.Base.Dict
use inter_gate.Cache
use inter_gate.Cache.{ResponseCache, make_key}
use inter_gate.Constants.{
  health_paths, stats_path, version_path, report_path, cache_stats_path, metrics_path, models_path,
  provider_header, key_name_header,
}
use inter_gate.Keys.ApiKey.{ApiKey, Metadata}
use inter_gate.Limiter.{check}
use inter_gate.Providers.{detect_provider}
use inter_gate.Sync.{all_enabled}
use inter_gate.Sync.Models.{Model}
use inter_gate.Gateway.{Permission, header, authorize, denied, pick_keys}
use inter_gate.Gateway.Body.{upstream_headers, cors_headers}
use inter_gate.Gateway.Failover.{try_keys, no_tokens}
use inter_gate.Gateway.Replies.{
  Content, Reply, Incoming, error_reply, refusal, page_reply, denied_message, codes_of, log_entry,
}
use inter_gate.Gateway.Query.{Query, real_model, Python, read_body, query_of, job_of, cache_key_of}
use inter_gate.Gateway.Server.{Server, Outside, logged, mark, conclude}

module _ (py : Python) (fl : Floats) (percent : fl.F → String)
    (json_dumps : Metadata → String) where
  -- The attempts with the candidate keys.
  unfoldable pub forward :
      Server fl → Outside fl → Incoming → Query → Option String → List ApiKey → Server fl × Reply
  unfolding conclude job_of try_keys
  forward s io r q cache_key keys =
      let job = job_of py r q in
      let (g, _, answer) =
        try_keys fl percent json_dumps s.gateway io.rounds s.load_balance_strategy job keys in
      conclude py fl (record s { gateway = g }) io r q job cache_key answer

  -- A response from the cache, or the attempts.
  unfoldable pub through_cache :
      Server fl → Outside fl → Incoming → Query → List ApiKey → Server fl × Reply
  unfolding forward cache_key_of
  through_cache s io r q keys = elim (cache_key_of py r q) [
    | none ↦ forward s io r q none keys
    | some key ↦
        let (cache, hit) = Cache.get s.cache io.cache_now key in
        let s₁ : Server fl = record s { cache = cache } in
        elim hit [
          | none ↦ forward s₁ io r q (some key) keys
          | some (status, headers, body) ↦ (
            logged fl s₁
                (log_entry io.ts io.latency_ms r (real_model q) status "" true no_tokens []),
            record {
              status = status;
              headers = mark "HIT" (upstream_headers headers);
              content = Content.bytes body;
            },
          )
        ]
  ]

  -- No key is an answer of its own.
  unfoldable pub with_keys :
      Server fl → Outside fl → Incoming → Query → List ApiKey → Server fl × Reply
  unfolding through_cache
  with_keys s io r q [] = (s, refusal 503 (codes "没有可用的上游 Key") "no_available_key")
  with_keys s io r q (k ∷ ks) = through_cache s io r q (k ∷ ks)

  -- The candidate keys, where the list of models is not what is asked for.
  unfoldable pub route : Server fl → Outside fl → Incoming → Query → Server fl × Reply
  unfolding with_keys pick_keys detect_provider
  route s io r q =
      let asked = Dict.lookup provider_header r.request.headers in
      let provider : String = elim q.entry [
        | some m ↦ m.provider
        | none ↦ detect_provider (codes r.path) (codes_of (real_model q)) asked
      ] in
      let forced = header r.request key_name_header in
      let sources : Option (List String) = elim q.entry [
        | none ↦ none
        | some m ↦ some m.source_keys
      ] in
      let g = s.gateway in
      let (m, keys) =
        pick_keys json_dumps g.manager io.now provider (codes r.path) forced q.model sources in
      let s₁ : Server fl = record s { gateway = record g { manager = m } } in
      with_keys s₁ io r q keys

  -- The list of the models, where it is asked for and not empty.
  unfoldable pub local_models : Server fl → Incoming → Query → Option (List (Text × Model))
  local_models s r q =
      let listed : Option (List (Text × Model)) = elim (all_enabled s.syncer) [
        | [] ↦ none
        | x ∷ xs ↦ some (x ∷ xs)
      ] in
      elim q.model [ none ↦ (if r.path == models_path then listed else none) | some _ ↦ none ]

  abbrev pub or_models :
      Server fl → Option (List (Text × Model)) → Server fl × Reply → Server fl × Reply
  or_models s none routed = routed
  or_models s (some ms) routed =
      (s, record { status = 200; headers = cors_headers; content = Content.models ms })

  -- The limits on requests.
  unfoldable pub limited : Server fl → Outside fl → Incoming → Query → Server fl × Reply
  unfolding route local_models check
  limited s io r q =
      let g = s.gateway in
      let (limiter, (ok, retry_after, reason)) = check fl g.limiter io.mono r.client_ip in
      let s₁ : Server fl = record s { gateway = record g { limiter = limiter } } in
      let message = codes "请求过于频繁(" ++ (codes reason ++ codes ")") in
      let refused = error_reply py.loads 429 message "rate_limit_exceeded" (some retry_after) [] in
      let routed = route s₁ io r q in
      if not ok then (s₁, refused) else or_models s₁ (local_models s₁ r q) routed

  abbrev pub reads_only : String → Bool
  reads_only method = contains ("GET" ∷ "HEAD" ∷ "OPTIONS" ∷ []) method

  -- The permission for the model.
  unfoldable pub permitted :
      Server fl → Outside fl → Incoming → Permission → Query → Server fl × Reply
  unfolding limited denied
  permitted s io r p q =
      let message = denied_message p q.model (reads_only r.request.method) in
      let admitted = limited s io r q in
      if denied p q.model r.request.method
      then (s, refusal 403 message "permission_denied")
      else admitted

  -- The management paths.
  abbrev pub managed : String → Bool
  managed path =
      contains (version_path ∷ stats_path ∷ report_path ∷ cache_stats_path ∷ metrics_path ∷ []) path

  unfoldable pub with_body :
      Server fl → Outside fl → Incoming → Permission → Option Text → Server fl × Reply
  unfolding permitted
  with_body s io r p none = (s, refusal 413 (codes "请求体过大") "request_too_large")
  with_body s io r p (some body) = permitted s io r p (query_of py s.syncer body)

  -- What follows the check of the caller's key.
  unfoldable pub authorized : Server fl → Outside fl → Incoming → Permission → Server fl × Reply
  unfolding with_body read_body
  authorized s io r p =
      let relayed : Server fl × Reply = elim (read_body py.int_of r) [
        | none ↦ (s, refusal 413 (codes "请求体过大") "request_too_large")
        | some body ↦ permitted s io r p (query_of py s.syncer body)
      ] in
      if managed r.path then (s, page_reply r.path) else relayed

  unfoldable pub with_permission :
      Server fl → Outside fl → Incoming → Option Permission → Server fl × Reply
  unfolding authorized
  with_permission s io r none = (s, refusal 401 (codes "未授权:网关 Key 无效") "authentication_error")
  with_permission s io r (some p) = authorized s io r p

  unfoldable pub handle : Server fl → Outside fl → Incoming → Server fl × Reply
  unfolding with_permission authorize
  handle s io r =
      let (a, permission) = authorize s.access io.mono io.stored r.request in
      let s₁ : Server fl = record s { access = a } in
      let checked : Server fl × Reply = elim permission [
        | none ↦ (s₁, refusal 401 (codes "未授权:网关 Key 无效") "authentication_error")
        | some p ↦ authorized s₁ io r p
      ] in
      if r.request.method == "OPTIONS"
      then (s, record { status = 204; headers = cors_headers; content = Content.empty })
      else if contains health_paths r.path
      then (s, page_reply r.path)
      else if not s.gateway_enabled
      then (s, refusal 503 (codes "网关已暂停,请在 Web 控制台开启") "gateway_paused")
      else checked
