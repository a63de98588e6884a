-- ===== src/Store/Rows.antt =====
-- The rows of `db/database.py`: the columns of `_init_schema`, and the queued writes.
use inter_gate.Base.{ℕ, String, Bool, Option, List}
use inter_gate.Base.Dict.{Dict}
use inter_gate.Base.Text.{Text}
use inter_gate.Json.{Json}
use inter_gate.Keys.ApiKey.{KeyRow}

-- The dict of a request log; the gateway passes None for the model of a request that names none.
pub record LogEntry : Type 0 where
  pub ts : ℕ
  pub path : String
  pub method : String
  pub status : ℕ
  pub provider : String
  pub key_id : String
  pub model : Option String
  pub latency_ms : ℕ
  pub prompt_tokens : ℕ
  pub completion_tokens : ℕ
  pub total_tokens : ℕ
  pub cached : Bool
  pub error : Text

-- A row of `request_logs`.
pub record LogRow : Type 0 where
  pub id : ℕ
  pub ts : ℕ
  pub path : String
  pub method : String
  pub status : ℕ
  pub provider : String
  pub key_id : String
  pub model : String
  pub latency_ms : ℕ
  pub prompt_tokens : ℕ
  pub completion_tokens : ℕ
  pub total_tokens : ℕ
  pub cached : Bool
  pub error : Text

-- The counters of a row of `stats_daily`; the cost in millionths of a dollar.
pub record Counts : Type 0 where
  pub requests : ℕ
  pub errors : ℕ
  pub prompt_tokens : ℕ
  pub completion_tokens : ℕ
  pub cost_usd : ℕ

-- Its primary key: date, provider, key id.
abbrev pub StatKey : Type 0
StatKey = String × String × String

pub data Pending : Type 0 where
  log : LogEntry → Pending
  stats : StatKey → Counts → Pending
  key : KeyRow → Pending

pub record Alert : Type 0 where
  pub id : ℕ
  pub ts : ℕ
  pub type : String
  pub key_id : String
  pub provider : String
  pub message : String

pub record Route : Type 0 where
  pub key_ids : List String
  pub enabled : Bool
  pub note : String
  pub updated_at : ℕ

-- A row of `model_cache`; the lists are stored as JSON and read back as they were.
pub record ModelRow : Type 0 where
  pub id : String
  pub name : Json
  pub provider : String
  pub source : String
  pub base_url : Text
  pub source_key : String
  pub source_keys : List String
  pub sources : List String
  pub owned_by : Json
  pub created : Json
  pub capabilities : List String
  pub enabled : Bool

pub record Database : Type 0 where
  pub api_keys : Dict String KeyRow
  pub request_logs : List LogRow
  pub next_log_id : ℕ
  pub stats_daily : Dict StatKey Counts
  pub alerts : List Alert
  pub next_alert_id : ℕ
  pub model_routes : Dict String Route
  pub model_states : Dict String Bool
  pub batch_pending : List Pending
  pub model_cache : Dict Text ModelRow
  pub settings : Dict String Json
