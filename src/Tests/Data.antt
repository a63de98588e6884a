-- ===== src/Tests/Data.antt =====
-- Keys, clocks and tables for the runs.
use inter_gate.Base.{ℕ, String, false, Option, none, some, [], ◌∷◌}
use inter_gate.Base.Int.{pos}
use inter_gate.Keys.ApiKey.{ApiKey, KeyRow, KeyStatus, Now, Metadata}
use inter_gate.Keys.Manager.{KeyManager}
use inter_gate.Store.{Database, LogEntry, LogRow, Counts, Pending}

abbrev pub noon : Now
noon = record { ms = 1_000_000; today = "2024-05-01"; month = "2024-05" }

abbrev pub later : Now
later = record { ms = 2_000_000; today = "2024-05-01"; month = "2024-05" }

abbrev pub no_json : Metadata → String
no_json _ = "{}"

abbrev pub key : String → ApiKey
key id = record {
  id = id;
  provider = "openai";
  encrypted_key = "cipher";
  name = "main";
  provider_id = "";
  note = "";
  base_url = none;
  grp = "";
  priority = pos 5;
  weight = pos 1;
  max_requests_per_minute = pos 0;
  daily_quota = pos 0;
  used_today = 7;
  used_month = 7;
  requests_today = 1;
  requests_month = 1;
  errors_today = 0;
  day_stamp = "2024-05-01";
  month_stamp = "2024-05";
  status = KeyStatus.active;
  last_tested = none;
  test_result = none;
  test_error = none;
  created_at = 900_000;
  last_used = 0;
  failure_count = 0;
  cooldown_until = none;
  metadata = [];
}

abbrev pub broken : ApiKey
broken = record (key "b") {
  status = KeyStatus.error;
  cooldown_until = some 500_000;
  failure_count = 3;
}

abbrev pub empty_db : Database
empty_db = record {
  api_keys = [];
  request_logs = [];
  next_log_id = 1;
  stats_daily = [];
  alerts = [];
  next_alert_id = 1;
  model_routes = [];
  model_states = [];
  batch_pending = [];
  model_cache = [];
  settings = [];
}

abbrev pub manager : KeyManager
manager = record { db = empty_db; cache = ("a", key "a") ∷ ("b", broken) ∷ [] }

abbrev pub row : String → KeyRow
row id = record {
  id = id;
  provider = "openai";
  encrypted_key = "cipher";
  name = "main";
  provider_id = "";
  note = "";
  base_url = none;
  grp = "";
  priority = pos 5;
  weight = pos 1;
  max_requests_per_minute = pos 0;
  daily_quota = pos 0;
  used_today = 7;
  used_month = 7;
  requests_today = 1;
  requests_month = 1;
  errors_today = 0;
  day_stamp = "2024-05-01";
  month_stamp = "2024-05";
  status = KeyStatus.active;
  last_tested = none;
  test_result = none;
  test_error = none;
  created_at = 900_000;
  last_used = 0;
  failure_count = 0;
  cooldown_until = none;
  metadata_json = "{}";
}

abbrev pub entry : Option String → LogEntry
entry model = record {
  ts = 1_000_000;
  path = "/v1/chat/completions";
  method = "POST";
  status = 200;
  provider = "openai";
  key_id = "a";
  model = model;
  latency_ms = 12;
  prompt_tokens = 3;
  completion_tokens = 4;
  total_tokens = 7;
  cached = false;
  error = [];
}

abbrev pub one_request : Counts
one_request = record {
  requests = 1;
  errors = 0;
  prompt_tokens = 3;
  completion_tokens = 4;
  cost_usd = 10;
}

-- A log, a statistic and a key are queued.
abbrev pub queued_db : Option String → Database
queued_db model = record empty_db {
  api_keys = ("a", row "a") ∷ [];
  batch_pending =
      Pending.log (entry model)
      ∷ Pending.stats ("2024-05-01", "openai", "a") one_request
      ∷ Pending.key (row "a")
      ∷ [];
}

abbrev pub log_at : ℕ → ℕ → LogRow
log_at id ts = record {
  id = id;
  ts = ts;
  path = "/v1/chat/completions";
  method = "POST";
  status = 200;
  provider = "openai";
  key_id = "a";
  model = "gpt-4o";
  latency_ms = 12;
  prompt_tokens = 3;
  completion_tokens = 4;
  total_tokens = 7;
  cached = false;
  error = [];
}

abbrev pub logged_db : Database
logged_db = record empty_db { request_logs = log_at 1 100 ∷ log_at 2 200 ∷ []; next_log_id = 3 }

-- Two providers on two days.
abbrev pub counted_db : Database
counted_db = record empty_db {
  stats_daily =
      (("2024-05-01", "openai", "a"), one_request)
      ∷ (("2024-05-02", "google", "b"), one_request)
      ∷ (("2024-05-02", "openai", "a"), one_request)
      ∷ [];
}
