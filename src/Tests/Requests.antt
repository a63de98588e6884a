-- ===== src/Tests/Requests.antt =====
-- Runs of the quota monitor and of the gateway.
use inter_gate.Base.{
  nat_eq, ℕ, ◌+◌, String, ◌≡◌, refl, ◌⊎◌, ◌≢◌, true, false, none, some, List, [], ◌∷◌, arith,
  string_eq, list_eq, if◌then◌else◌, ◌==◌,
}
use inter_gate.Base.Int.{pos}
use inter_gate.Base.Text.{Text, codes, lower, strip, lstrip, rstrip}
use inter_gate.Base.Floats.{fixed_point}
use inter_gate.Base.Dict
use inter_gate.Keys.ApiKey.{ApiKey, KeyStatus, today_used, today_requests}
use inter_gate.Quota.{Tokens, QuotaMonitor, AlertWrites, record_usage}
use inter_gate.Quota.Usage.{IsBounded, MayFail, used_up, record_usage-key}
use inter_gate.Gateway.{
  Request, Permission, GatewayKey, Access, presented, refresh, extra_permission, authorize,
}
use inter_gate.Gateway.Grants.{IsGranted, authorize-IsGranted}
use inter_gate.Gateway.Upstream.{Job, Call, Sent, UpstreamResult}
use inter_gate.Gateway.Failover.{Gateway, Round, try_keys}
use inter_gate.Gateway.Attempts.{Tried, try_keys-Tried}
use inter_gate.Tests.Data.{noon, no_json, key, manager}
use inter_gate.Tests.Routing.{balancer, limiter}

abbrev usage : Tokens
usage = record { prompt = 3; completion = 4 }

abbrev quota : QuotaMonitor fixed_point
quota = record { threshold = 900_000; warn_enabled = true; alerts = [] }

abbrev pub percent : ℕ → String
percent x = "100%"

abbrev pub writes : AlertWrites
writes = record { inserted = λ t. true; pruned = λ t. true }

-- A key whose daily quota one request may use up.
abbrev spender : ApiKey
spender = record (key "a") { daily_quota = pos 7 }

record_usage-key_example :
    let (q', m', _) =
      record_usage fixed_point percent no_json quota manager writes noon spender 200 usage 10 in
    (IsBounded fixed_point q' ⊎ MayFail fixed_point writes)
    × ((k : ApiKey) × (Dict.lookup "a" m'.cache ≡ some k)
        × (today_requests k noon ≡ today_requests spender noon + 1)
        × (today_used k noon ≡ today_used spender noon + 7)
        × (k.status ≡ (
            if used_up fixed_point quota spender noon 7
            then KeyStatus.exhausted
            else KeyStatus.active)))
record_usage-key_example =
    record_usage-key fixed_point percent no_json quota manager writes noon spender 200 usage 10
      (omega arith)

abbrev pub access : Access
access = record {
  gateway_key = codes "master";
  gateway_key_enabled = true;
  gkeys_cache = none;
  gkeys_ts = 0;
}

abbrev pub extra : GatewayKey
extra = record {
  key = codes "team";
  enabled = true;
  permission = "readonly";
  name = codes "team key";
  models = [];
}

abbrev pub request : Request
request = record { method = "GET"; headers = ("authorization", codes "Bearer team") ∷ [] }

abbrev pub team : Permission
team = record { permission = "readonly"; name = codes "team key"; models = [] }

let_in : (authorize access 9000 (extra ∷ []) request).1 ≡ some team
unfolding authorize Dict.lookup presented lower strip lstrip rstrip refresh extra_permission
let_in = refl

authorize-IsGranted_example :
    (access.gateway_key_enabled ≡ false)
    ⊎ ((access.gateway_key ≡ []) × (presented request ≡ []))
    ⊎ ((presented request ≢ []) × (presented request ≡ access.gateway_key))
    ⊎ IsGranted (presented request) (refresh access 9000 (extra ∷ [])).1 team
authorize-IsGranted_example = authorize-IsGranted access 9000 (extra ∷ []) request team let_in

abbrev pub gateway : Gateway fixed_point
gateway = record { manager = manager; balancer = balancer; limiter = limiter; quota = quota }

abbrev pub response : ℕ → Text → UpstreamResult
response status body = record { status = status; headers = []; body = body; usage = usage }

-- The upstream refuses the plain text of the first key and answers every other one.
abbrev answers : Call → Sent
answers call = Sent.came (
    if Dict.lookup_or "Authorization" [] call.headers == codes "Bearer a"
    then response 503 (codes "busy")
    else response 200 (codes "{}"))

abbrev pub job : Job
job = record {
  is_stream = false;
  path = codes "/v1/chat/completions";
  tokens = 5;
  method = "POST";
  headers = [];
  body = codes "{}";
}

abbrev pub rounds : ℕ → Round fixed_point
rounds n = record {
  now = noon;
  mono = 10;
  draw = 0;
  latency_ms = 12;
  plain_key = λ k. codes k.id;
  upstream = answers;
  cost = λ t. 10;
  alert_writes = writes;
}

abbrev pub candidates : List ApiKey
candidates = key "a" ∷ key "b" ∷ []

try_keys-Tried_example :
    Tried candidates [] 2
      (try_keys fixed_point percent no_json gateway rounds "priority" job candidates).1
      (try_keys fixed_point percent no_json gateway rounds "priority" job candidates).2
try_keys-Tried_example =
    try_keys-Tried fixed_point percent no_json gateway rounds "priority" job candidates
