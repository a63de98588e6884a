-- ===== src/Store.antt =====
-- `db/database.py`: the tables of the SQLite file as the writer's connection sees them, the
-- queue of the background writer, and the operations on both. A statement that breaks a NOT NULL
-- constraint raises, as SQLite documents.
mod Rows
pub mod ModelCache
pub mod Queries
pub mod Queue
pub mod Retention
pub use Rows.*
use inter_gate.Base.{
  ℕ, zero, suc, ◌+◌, ◌-◌, ◌*◌, ◌≤◌, ◌<◌, String, ◌≡◌, refl, Bool, true, false, ◌&&◌, ◌||◌, Option,
  none, some, List, [], ◌∷◌, ◌++◌, map, arith, ◌==◌, string_eq, triple_eq, nat_beq, ltb, leb,
  if◌then◌else◌, filter, take, contains, nat_eq, length,
}
use inter_gate.Base.Int.{ℤ, leb_ℤ, ltb_ℤ}
use inter_gate.Base.Text.{codes, text_leb}
use inter_gate.Json.{Json}
use inter_gate.Base.Dict
use inter_gate.Base.Dict.{Dict}
use inter_gate.Base.Sorting.{sort}
use inter_gate.Keys.ApiKey.{KeyRow}

-- ---- api keys

-- On a conflict every column but `created_at` is overwritten.
unfoldable pub merge_key : Option KeyRow → KeyRow → KeyRow
merge_key none d = d
merge_key (some old) d = record d { created_at = old.created_at }

unfoldable pub upsert_row : KeyRow → Dict String KeyRow → Dict String KeyRow
unfolding merge_key
upsert_row d table = Dict.insert d.id (merge_key (Dict.lookup d.id table) d) table

unfoldable pub upsert_key : Database → KeyRow → Database
unfolding upsert_row
upsert_key db d = record db { api_keys = upsert_row d db.api_keys }

unfoldable pub get_key : Database → String → Option KeyRow
get_key db key_id = Dict.lookup key_id db.api_keys

-- ORDER BY provider, priority, created_at
abbrev pub row_leb : KeyRow → KeyRow → Bool
row_leb a b =
    if a.provider == b.provider
    then (if leb_ℤ a.priority b.priority
        then (if leb_ℤ b.priority a.priority then leb a.created_at b.created_at else true)
        else false)
    else text_leb (codes a.provider) (codes b.provider)

unfoldable pub list_keys : Database → List KeyRow
list_keys db = sort row_leb (Dict.values db.api_keys)

unfoldable pub delete_key : Database → String → Database
delete_key db key_id = record db { api_keys = Dict.remove key_id db.api_keys }

-- ---- the queue of the background writer

abbrev pub enqueue : Database → Pending → Database
enqueue db item = record db { batch_pending = db.batch_pending ++ item ∷ [] }

unfoldable pub enqueue_log : Database → LogEntry → Database
enqueue_log db d = enqueue db (Pending.log d)

unfoldable pub enqueue_stats : Database → StatKey → Counts → Database
enqueue_stats db k c = enqueue db (Pending.stats k c)

unfoldable pub enqueue_key : Database → KeyRow → Database
enqueue_key db d = enqueue db (Pending.key d)

-- `_log_row`, with the id that AUTOINCREMENT gives.
abbrev pub log_row : ℕ → LogEntry → String → LogRow
log_row id d model = record {
  id = id;
  ts = d.ts;
  path = d.path;
  method = d.method;
  status = d.status;
  provider = d.provider;
  key_id = d.key_id;
  model = model;
  latency_ms = d.latency_ms;
  prompt_tokens = d.prompt_tokens;
  completion_tokens = d.completion_tokens;
  total_tokens = d.total_tokens;
  cached = d.cached;
  error = d.error;
}

-- `executemany` of the log inserts: the database after it, and whether it ran to its end. The
-- rows before a row that is refused stay in the open transaction.
unfoldable pub insert_logs : List LogEntry → Database → Database × Bool
insert_logs [] db = (db, true)
insert_logs (d ∷ ds) db = elim d.model [
  | none ↦ (db, false)
  | some m ↦ insert_logs ds (record db {
    request_logs = db.request_logs ++ log_row db.next_log_id d m ∷ [];
    next_log_id = db.next_log_id + 1;
  })
]

abbrev pub add_counts : Counts → Counts → Counts
add_counts a b = record {
  requests = a.requests + b.requests;
  errors = a.errors + b.errors;
  prompt_tokens = a.prompt_tokens + b.prompt_tokens;
  completion_tokens = a.completion_tokens + b.completion_tokens;
  cost_usd = a.cost_usd + b.cost_usd;
}

-- On a conflict the counters are added.
unfoldable pub upsert_stat : StatKey → Counts → Dict StatKey Counts → Dict StatKey Counts
upsert_stat k c table = elim (Dict.lookup k table) [
  | none ↦ Dict.insert k c table
  | some old ↦ Dict.insert k (add_counts old c) table
]

unfoldable pub upsert_stats : Database → StatKey → Counts → Database
unfolding upsert_stat
upsert_stats db k c = record db { stats_daily = upsert_stat k c db.stats_daily }

abbrev pub pending_logs : List Pending → List LogEntry
pending_logs [] = []
pending_logs (Pending.log d ∷ items) = d ∷ pending_logs items
pending_logs (_ ∷ items) = pending_logs items

abbrev pub pending_stats : List Pending → List (StatKey × Counts)
pending_stats [] = []
pending_stats (Pending.stats k c ∷ items) = (k, c) ∷ pending_stats items
pending_stats (_ ∷ items) = pending_stats items

abbrev pub pending_keys : List Pending → List KeyRow
pending_keys [] = []
pending_keys (Pending.key d ∷ items) = d ∷ pending_keys items
pending_keys (_ ∷ items) = pending_keys items

unfoldable pub write_stats : List (StatKey × Counts) → Dict StatKey Counts → Dict StatKey Counts
write_stats [] table = table
write_stats ((k, c) ∷ rest) table = write_stats rest (upsert_stat k c table)

unfoldable pub write_keys : List KeyRow → Dict String KeyRow → Dict String KeyRow
write_keys [] table = table
write_keys (d ∷ rest) table = write_keys rest (upsert_row d table)

-- `_write_flush`: the queue is emptied first; the statistics and the keys follow the logs, and
-- an exception skips what is left.
unfoldable pub write_flush : Database → Database
unfolding insert_logs write_stats write_keys
write_flush db =
    let items = db.batch_pending in
    let (after, complete) = insert_logs (pending_logs items) (record db { batch_pending = [] }) in
    if complete
    then record after {
      stats_daily = write_stats (pending_stats items) after.stats_daily;
      api_keys = write_keys (pending_keys items) after.api_keys;
    }
    else after

-- ---- retention

-- ORDER BY ts DESC; rows of one time stand newest first, as the index on `ts` is read backwards.
abbrev pub newer_leb : LogRow → LogRow → Bool
newer_leb a b = if nat_beq a.ts b.ts then leb b.id a.id else ltb b.ts a.ts

abbrev pub newest_ids : ℕ → List LogRow → List ℕ
newest_ids n rows = map (λ r. r.id) (take n (sort newer_leb rows))

abbrev pub day_ms : ℕ
day_ms = 86400 * 1000

-- `prune_logs(retention_days, max_entries)` at the time `now_ms`: the rows that are left and the
-- number that is returned, which counts the first statement only.
unfoldable pub prune_logs : Database → ℕ → ℕ → ℕ → Database × ℕ
prune_logs db now_ms retention_days max_entries =
    let recent =
      filter (λ (r : LogRow). leb now_ms (r.ts + retention_days * day_ms)) db.request_logs in
    let ids = newest_ids max_entries recent in
    (
      record db { request_logs = filter (λ (r : LogRow). contains ids r.id) recent },
      length db.request_logs - length recent,
    )

-- `clear_logs`
unfoldable pub clear_logs : Database → Database × ℕ
clear_logs db = (record db { request_logs = [] }, length db.request_logs)

-- ---- alerts

unfoldable pub insert_alert : Database → ℕ → String → String → String → String → Database × ℕ
insert_alert db ts type key_id provider message =
    let row : Alert = record {
      id = db.next_alert_id;
      ts = ts;
      type = type;
      key_id = key_id;
      provider = provider;
      message = message;
    } in
    (
      record db { alerts = db.alerts ++ row ∷ []; next_alert_id = db.next_alert_id + 1 },
      db.next_alert_id,
    )

abbrev pub newer_alert_leb : Alert → Alert → Bool
newer_alert_leb a b = if nat_beq a.ts b.ts then leb b.id a.id else ltb b.ts a.ts

unfoldable pub query_alerts : Database → ℕ → List Alert
query_alerts db limit = take limit (sort newer_alert_leb db.alerts)

unfoldable pub prune_alerts : Database → ℕ → Database × ℕ
prune_alerts db max_count =
    let ids = map (λ (a : Alert). a.id) (take max_count (sort newer_alert_leb db.alerts)) in
    let kept = filter (λ (a : Alert). contains ids a.id) db.alerts in
    (record db { alerts = kept }, length db.alerts - length kept)

-- ---- model routes and model states

unfoldable pub get_routes : Database → Dict String Route
get_routes db = db.model_routes

unfoldable pub set_route : Database → ℕ → String → List String → Bool → String → Database
set_route db now_ms model key_ids enabled note = record db {
  model_routes =
      Dict.insert model
        (record { key_ids = key_ids; enabled = enabled; note = note; updated_at = now_ms })
        db.model_routes;
}

unfoldable pub delete_route : Database → String → Database
delete_route db model = record db { model_routes = Dict.remove model db.model_routes }

unfoldable pub get_model_states : Database → Dict String Bool
get_model_states db = db.model_states

unfoldable pub set_model_state : Database → String → Bool → Database
set_model_state db model_id enabled = record db {
  model_states = Dict.insert model_id enabled db.model_states;
}

-- ---- settings; their values are stored as JSON and read back as they were

unfoldable pub get_setting : Database → String → Option Json
get_setting db name = Dict.lookup name db.settings

unfoldable pub set_setting : Database → String → Json → Database
set_setting db name value = record db { settings = Dict.insert name value db.settings }

-- `insert_log`: the database, and whether the statement succeeds.
unfoldable pub insert_log : Database → LogEntry → Database × Bool
unfolding insert_logs
insert_log db d = insert_logs (d ∷ []) db
