-- ===== src/Gateway/Replies.antt =====
-- `gateway.py`: what the gateway answers with, and the entry that it makes in the log of requests.
use inter_gate.Base.{
  ℕ, ◌+◌, String, Bool, Option, none, some, List, [], ◌++◌, ◌==◌, string_eq, nat_eq, list_eq,
  if◌then◌else◌,
}
use inter_gate.Base.Text.{Text, codes}
use inter_gate.Base.Decimal.{show}
use inter_gate.Base.Dict
use inter_gate.Json.{Json, Fields}
use inter_gate.Constants.{retry_after_header, provider_header}
use inter_gate.Keys.Manager.{Category}
use inter_gate.Providers.{detect_provider}
use inter_gate.Quota.{Tokens}
use inter_gate.Store.{LogEntry}
use inter_gate.Sync.Models.{Model}
use inter_gate.Gateway.{Request, Permission}
use inter_gate.Gateway.Body.{Headers, passed_on, cors_headers}

-- The content of a response: that of the management paths and of the health check is left open.
pub data Content : Type 0 where
  empty : Content
  page : String → Content
  models : List (Text × Model) → Content
  bytes : Text → Content
  stream : Content
  error : Text → String → Content
  object : Fields → Content

pub record Reply : Type 0 where
  pub status : ℕ
  pub headers : Headers
  pub content : Content

-- A request as the server hands it over: its body is empty where reading it fails.
pub record Incoming : Type 0 where
  pub request : Request
  pub path : String
  pub body : Text
  pub client_ip : String

abbrev pub with_retry : Option ℕ → Headers
with_retry none = cors_headers
with_retry (some n) =
    if n == 0 then cors_headers else Dict.insert retry_after_header (show n) cors_headers

-- `_error`
unfoldable pub error_reply : (Text → Option Json) → ℕ → Text → String → Option ℕ → Text → Reply
unfolding passed_on
error_reply loads status message type retry_after body = elim (passed_on loads status body) [
  | some j ↦ record { status = status; headers = cors_headers; content = Content.object j }
  | none ↦ record {
    status = status;
    headers = with_retry retry_after;
    content = Content.error message type;
  }
]

abbrev pub refusal : ℕ → Text → String → Reply
refusal status message type = record {
  status = status;
  headers = cors_headers;
  content = Content.error message type;
}

abbrev pub page_reply : String → Reply
page_reply path = record { status = 200; headers = []; content = Content.page path }

abbrev pub category_name : Category → String
category_name Category.upstream = "upstream"
category_name Category.timeout = "timeout"
category_name Category.quota = "quota"
category_name Category.auth = "auth"
category_name Category.tpm = "tpm"

-- The text of `_permission_error` for a request that it refuses.
abbrev pub denied_message : Permission → Option String → Bool → Text
denied_message p model reads =
    if p.permission == "readonly"
    then (if reads then names_model model else codes "只读密钥不允许写请求")
    else names_model model
  where
    names_model : Option String → Text
    names_model none = []
    names_model (some m) = codes "密钥无权访问模型 " ++ codes m

abbrev pub codes_of : Option String → Option Text
codes_of none = none
codes_of (some s) = some (codes s)

-- The entry that `_log` makes.
unfoldable pub log_entry :
    (ts latency_ms : ℕ) → Incoming → Option String → ℕ → String → Bool → Tokens → Text → LogEntry
unfolding detect_provider
log_entry ts latency_ms r model status key_id cached usage message = record {
  ts = ts;
  path = r.path;
  method = r.request.method;
  status = status;
  provider =
      detect_provider (codes r.path) (codes_of model)
        (Dict.lookup provider_header r.request.headers);
  key_id = key_id;
  model = model;
  latency_ms = latency_ms;
  prompt_tokens = usage.prompt;
  completion_tokens = usage.completion;
  total_tokens = usage.prompt + usage.completion;
  cached = cached;
  error = message;
}
