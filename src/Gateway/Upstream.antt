-- ===== src/Gateway/Upstream.antt =====
-- `providers/upstream.py` and `gateway.py`: what an upstream does with a request, what the client makes
-- of it, and how a round of the failover loop and the request end.
use inter_gate.Base.{
  ℕ, ◌*◌, String, Bool, true, false, not, ◌&&◌, Option, none, some, ◌++◌, ltb, leb, string_eq,
  nat_eq, list_eq, if◌then◌else◌, length,
}
use inter_gate.Base.Text.{Text, codes}
use inter_gate.Keys.ApiKey.{ApiKey}
use inter_gate.Keys.Manager.{Category}
use inter_gate.Quota.{Tokens}
use inter_gate.Gateway.Body.{Headers}

-- A response of the upstream, with the token counts that `services/usage.py` reads off its body.
pub record UpstreamResult : Type 0 where
  pub status : ℕ
  pub headers : Headers
  pub body : Text
  pub usage : Tokens

-- How a call of the HTTP client ends: with a response, or with an exception and its text.
pub data Sent : Type 0 where
  came : UpstreamResult → Sent
  timed_out : Text → Sent
  broken : Text → Sent

-- `raise UpstreamError(message, status, category)`
pub record Raised : Type 0 where
  pub message : Text
  pub status : ℕ
  pub category : Category

pub data Outcome : Type 0 where
  answered : UpstreamResult → Outcome
  raised : Raised → Outcome

-- A request to an upstream.
pub record Call : Type 0 where
  pub method : String
  pub url : Text
  pub headers : Headers
  pub body : Text

-- What the loop knows of the client's request.
pub record Job : Type 0 where
  pub is_stream : Bool
  pub path : Text
  pub tokens : ℕ
  pub method : String
  pub headers : Headers
  pub body : Text

-- The last `UpstreamError`: with its own message, or with one that is read off the body.
pub record Failure : Type 0 where
  pub status : ℕ
  pub category : Category
  pub body : Text
  pub message : Option Text

-- How the request ends: with the response of a key, or with the last failure, if there was one.
pub data Answer : Type 0 where
  served : ApiKey → UpstreamResult → Answer
  failed : Option Failure → Answer

-- How a round ends: the next key is tried, with the last failure so far, or the request is served.
pub data Verdict : Type 0 where
  next : Option Failure → Verdict
  done : ApiKey → UpstreamResult → Verdict

-- The status of the failure's answer: `last_error.status if last_error else 502`.
abbrev pub answer_status : Answer → ℕ
answer_status (Answer.served k r) = r.status
answer_status (Answer.failed none) = 502
answer_status (Answer.failed (some f)) = f.status

-- `UpstreamResult.ok`
abbrev pub ok : ℕ → Bool
ok status = leb 200 status && ltb status 300

-- Whether the gateway sends the response on.
abbrev pub accepted : Bool → ℕ → Bool
accepted true status = not (leb 400 status)
accepted false status = ok status

abbrev pub max_response : ℕ
max_response = 16 * 1024 * 1024

abbrev pub error_502 : Text → Category → Outcome
error_502 message category =
    Outcome.raised (record { message = message; status = 502; category = category })

-- `UpstreamClient.forward` of a request that is not a stream, and `open_stream` of one that is.
unfoldable pub receive : Bool → Sent → Outcome
receive is_stream (Sent.timed_out e) = error_502 (codes "上游超时: " ++ e) Category.timeout
receive is_stream (Sent.broken e) = error_502 (codes "上游连接失败: " ++ e) Category.upstream
receive true (Sent.came r) = Outcome.answered r
receive false (Sent.came r) =
    if ltb max_response (length r.body)
    then error_502 (codes "上游响应过大") Category.upstream
    else Outcome.answered r
