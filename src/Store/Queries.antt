-- ===== src/Store/Queries.antt =====
-- `db/database.py`: what the console reads of the request logs and of the daily statistics. Rows
-- of the statistics that a statement orders alike come in the order of the table here.
use inter_gate.Base.{
  ℕ, ◌+◌, ◌-◌, ◌*◌, ◌/◌, String, ◌<>◌, Bool, true, ◌&&◌, Option, none, some, List, [], ◌∷◌, ◌==◌,
  Eq, string_eq, nat_eq, leb, ltb, if◌then◌else◌, filter, take, drop, length,
}
use inter_gate.Base.Text.{codes, text_leb}
use inter_gate.Base.Sorting.{sort}
use inter_gate.Base.Dict
use inter_gate.Base.Dict.{Dict}
use inter_gate.Store.{Database, LogRow, Counts, StatKey, add_counts}

-- The arguments of `query_logs` that restrict it.
pub record LogFilter : Type 0 where
  pub provider : String
  pub status : Option ℕ
  pub key_id : String
  pub model : String
  pub ts_from : Option ℕ
  pub ts_to : Option ℕ

-- `AND column = ?` where the argument is not empty.
abbrev pub equal_if_given : String → String → Bool
equal_if_given wanted s = if wanted == "" then true else s == wanted

abbrev pub holds_if_given {ℓ} : {A : Type ℓ} → Option A → (A → Bool) → Bool
holds_if_given none p = true
holds_if_given (some a) p = p a

-- What SQLite does: its `LIKE` of a pattern and a text, and its `ORDER BY ts DESC`, which leaves the
-- order of rows of one time open.
module _ (like : String → String → Bool) (by_ts_desc : List LogRow → List LogRow) where
  unfoldable pub matches : LogFilter → LogRow → Bool
  matches f r =
      equal_if_given f.provider r.provider
      && (holds_if_given f.status (λ s. r.status == s)
          && (equal_if_given f.key_id r.key_id
              && ((if f.model == "" then true else like ("%" <> f.model <> "%") r.model)
                  && (holds_if_given f.ts_from (λ t. leb t r.ts)
                      && holds_if_given f.ts_to (λ t. leb r.ts t)))))

  -- `query_logs`: the page, and the count of all the rows that match.
  unfoldable pub query_logs : Database → (limit offset : ℕ) → LogFilter → List LogRow × ℕ
  unfolding matches
  query_logs db limit offset f =
      let found = filter (matches f) db.request_logs in
      (take limit (drop offset (by_ts_desc found)), length found)

-- ---- `GROUP BY`

abbrev pub no_counts : Counts
no_counts = record {
  requests = 0;
  errors = 0;
  prompt_tokens = 0;
  completion_tokens = 0;
  cost_usd = 0;
}

abbrev pub or_no_counts : Option Counts → Counts
or_no_counts none = no_counts
or_no_counts (some c) = c

module _ {ℓ κ} {R : Type ℓ} {K : Type κ} ⦃e : Eq K⦄ (key : R → K) (counts : R → Counts) where
  abbrev pub group_into : List R → Dict K Counts → Dict K Counts
  group_into [] groups = groups
  group_into (r ∷ rs) groups = group_into rs (
      Dict.insert (key r) (add_counts (or_no_counts (Dict.lookup (key r) groups)) (counts r))
        groups)

  -- The sums of the rows of each group.
  abbrev pub group_by : List R → Dict K Counts
  group_by rows = group_into rows []

abbrev pub StatRow : Type 0
StatRow = StatKey × Counts

abbrev pub more_requests : String × Counts → String × Counts → Bool
more_requests a b = leb b.1.requests a.1.requests

abbrev pub provider_of : StatRow → String
provider_of r = r.0.1

abbrev pub counts_of : StatRow → Counts
counts_of r = r.1

-- The rows of the days from one to another.
unfoldable pub stats_between : Database → (date_from date_to : String) → List StatRow
stats_between db date_from date_to =
    filter
      (λ (r : StatRow).
        text_leb (codes date_from) (codes r.0.0) && text_leb (codes r.0.0) (codes date_to))
      db.stats_daily

-- `stats_range`: the key is the primary key of the table, so that each group is a row.
abbrev pub date_leb : StatRow → StatRow → Bool
date_leb a b = text_leb (codes a.0.0) (codes b.0.0)

unfoldable pub stats_range : Database → (date_from date_to : String) → List StatRow
unfolding stats_between
stats_range db date_from date_to = sort date_leb (stats_between db date_from date_to)

-- What a request counts for.
abbrev pub log_counts : LogRow → Counts
log_counts r = record {
  requests = 1;
  errors = if leb 400 r.status then 1 else 0;
  prompt_tokens = r.prompt_tokens;
  completion_tokens = r.completion_tokens;
  cost_usd = 0;
}

abbrev pub more_tokens : String × Counts → String × Counts → Bool
more_tokens a b =
    leb (b.1.prompt_tokens + b.1.completion_tokens) (a.1.prompt_tokens + a.1.completion_tokens)

-- `token_usage_since`
unfoldable pub token_usage_since : Database → ℕ → Dict String Counts
token_usage_since db ts_ms = sort more_tokens (
    group_by (λ (r : LogRow). r.model) log_counts
      (filter (λ (r : LogRow). ltb r.status 400 && leb ts_ms r.ts) db.request_logs))

abbrev pub hour_ms : ℕ
hour_ms = 3600 * 1000

abbrev pub earlier_bucket : ℕ × Counts → ℕ × Counts → Bool
earlier_bucket a b = leb a.0 b.0

-- The rows of the last hours; the time is at least that many hours after the epoch.
abbrev pub logs_since : Database → ℕ → ℕ → List LogRow
logs_since db now_ms hours =
    filter (λ (r : LogRow). leb (now_ms - hours * hour_ms) r.ts) db.request_logs

-- `hourly_trend` at the time `now_ms`
unfoldable pub hourly_trend : Database → (now_ms hours : ℕ) → Dict ℕ Counts
hourly_trend db now_ms hours =
    sort earlier_bucket
      (group_by (λ (r : LogRow). r.ts / hour_ms) log_counts (logs_since db now_ms hours))

-- `cache_stats_today` behind its cache of three seconds: requests and hits.
unfoldable pub cache_stats_since : Database → ℕ → ℕ × ℕ
cache_stats_since db today_ms =
    let rows = filter (λ (r : LogRow). leb today_ms r.ts) db.request_logs in
    (length rows, length (filter (λ (r : LogRow). r.cached) rows))
