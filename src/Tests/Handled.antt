-- ===== src/Tests/Handled.antt =====
-- Runs of the gateway's handler.
use inter_gate.Base.{
  ℕ, ◌≡◌, ◌≢◌, refl, ◌⊎◌, inl, true, none, some, [], ◌∷◌, arith, string_eq, list_eq, nat_eq, All,
  List, map, false,
}
use inter_gate.Base.Text.{codes, lower, lstrip, rstrip, strip}
use inter_gate.Base.Floats.{fixed_point}
use inter_gate.Base.Dict
use inter_gate.Cache.{ResponseCache, make_key}
use inter_gate.Cache.Laws.{IsValid}
use inter_gate.Gateway.{
  Request, Permission, GatewayKey, presented, authorize, refresh, extra_permission,
}
use inter_gate.Gateway.Grants.{IsGranted}
use inter_gate.Gateway.Body.{Headers, is_stream_request}
use inter_gate.Gateway.Upstream.{UpstreamResult, Answer}
use inter_gate.Gateway.Failover.{try_keys}
use inter_gate.Gateway.Origin.{IsServed, try_keys-IsServed}
use inter_gate.Gateway.Settled.{connections}
use inter_gate.Gateway.Replies.{Incoming}
use inter_gate.Gateway.Query.{Query, Python, cache_key_of}
use inter_gate.Gateway.Server.{Server, Outside, conclude}
use inter_gate.Gateway.Handle.{handle, with_keys}
use inter_gate.Gateway.Handled.{handle-connections}
use inter_gate.Gateway.Forbidden.{IsForbidden, IsUntouched, handle-IsUntouched}
use inter_gate.Gateway.Replayed.{IsReplay, with_keys-conclude}
use inter_gate.Web.Keys.{stripped, put_gateway_keys}
use inter_gate.Web.Removed.{authorize_all, put_gateway_keys-IsGranted}
use inter_gate.Tests.Data.{noon, no_json, key}
use inter_gate.Tests.Models.{synced_models}
use inter_gate.Tests.Requests.{
  gateway, rounds, job, access, percent, candidates, request, extra, response,
}

abbrev python : Python
python = record {
  loads = λ t. none;
  dumps = λ j. [];
  str = λ j. [];
  int_of = λ t. none;
  sha256 = λ bytes. "digest";
  encode = λ t. t;
}

abbrev cache : ResponseCache
cache = record {
  enabled = true;
  ttl = 300;
  max_entries = 2;
  max_body_bytes = 100;
  store = [];
  hits = 0;
  misses = 0;
}

cache-IsValid : IsValid cache
cache-IsValid = record { distinct = tt; bounded = omega arith }

abbrev server : Server fixed_point
server = record {
  gateway = gateway;
  access = access;
  cache = cache;
  syncer = synced_models;
  gateway_enabled = true;
  load_balance_strategy = "priority";
}

abbrev outside : ℕ → Outside fixed_point
outside t = record {
  now = noon;
  mono = t;
  cache_now = t;
  cached_at = t;
  ts = t;
  latency_ms = 12;
  stored = extra ∷ [];
  rounds = rounds;
}

-- A request with the additional key, which may only read, and one without a key.
abbrev post : Headers → Incoming
post headers = record {
  request = record { method = "POST"; headers = headers };
  path = "/v1/chat/completions";
  body = codes "{}";
  client_ip = "10.0.0.7";
}

handle-connections_example :
    connections fixed_point
      (handle python fixed_point percent no_json server (outside 9000) (post [])).0.gateway.balancer
      "a"
    ≡ connections fixed_point gateway.balancer "a"
handle-connections_example =
    handle-connections python fixed_point percent no_json server (outside 9000) (post []) "a"

no_key : IsForbidden python fixed_point percent no_json server (outside 9000) (post [])
unfolding authorize presented refresh extra_permission Dict.lookup lower
no_key = inl refl

handle-IsUntouched_example :
    IsUntouched python fixed_point percent no_json server
      (outside 9000)
      (post [])
      (handle python fixed_point percent no_json server (outside 9000) (post []))
handle-IsUntouched_example =
    handle-IsUntouched python fixed_point percent no_json server (outside 9000) (post []) no_key

abbrev query : Query
query = record { body = codes "{}"; object = none; model = none; entry = none }

one_digest : cache_key_of python (post []) query ≡ some "digest"
unfolding cache_key_of is_stream_request make_key
one_digest = refl

abbrev answered : UpstreamResult
answered = response 200 (codes "{}")

-- The server behind the response, and in another state with the same cache.
abbrev concluded : Server fixed_point
concluded =
    (conclude python fixed_point server (outside 10) (post []) query job (some "digest")
      (Answer.served (key "a") answered)).0

abbrev paused : Server fixed_point
paused = record concluded { gateway_enabled = false }

with_keys-conclude_example :
    let x =
      with_keys python fixed_point percent no_json paused
        (outside 310)
        (post [])
        query
        candidates in
    (candidates ≡ []) × (x.1.status ≡ 503) × (x.0.cache ≡ paused.cache)
    ⊎ (candidates ≢ []) × IsReplay fixed_point paused answered x
with_keys-conclude_example =
    with_keys-conclude python fixed_point percent no_json server paused (outside 10) (outside 310)
      (post []) (post []) query query job "digest" (key "a") answered candidates cache-IsValid
      (omega arith) refl (omega arith) refl one_digest refl

try_keys-IsServed_example :
    let r = try_keys fixed_point percent no_json gateway rounds "priority" job candidates in
    IsServed fixed_point percent no_json rounds job candidates r.1 r.2
try_keys-IsServed_example =
    try_keys-IsServed fixed_point percent no_json gateway rounds "priority" job candidates

abbrev sent : Headers
sent = ("accept", codes "*/*") ∷ ("cookie", codes "session") ∷ []

not_main : presented request ≢ access.gateway_key
unfolding presented Dict.lookup lower strip lstrip rstrip
not_main e = cc

-- One request without a key comes between.
abbrev before : List (ℕ × Request)
before = (8000, record { method = "GET"; headers = [] }) ∷ []

put_gateway_keys-IsGranted_example :
    let (a', stored) = put_gateway_keys access (extra ∷ []) in
    let answer = (authorize (authorize_all a' stored before) 9000 stored request).1 in
    ((p : Permission) × (answer ≡ some p)
      × IsGranted (presented request) (map stripped (extra ∷ [])) p)
    ⊎ (answer ≡ none)
      × All
          (λ (g : GatewayKey).
            (g.enabled ≡ false) ⊎ (presented request ≡ []) ⊎ (presented request ≢ strip g.key))
          (extra ∷ [])
put_gateway_keys-IsGranted_example =
    put_gateway_keys-IsGranted access (extra ∷ []) before 9000 request refl (λ e. cc) not_main
