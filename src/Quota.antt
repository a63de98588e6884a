-- ===== src/Quota.antt =====
-- `services/quota.py`: what a request adds to its key, the warnings and the alerts. Webhooks are
-- an effect outside the process and leave no state behind. The texts of percentages are parameters.
pub mod Usage
use inter_gate.Base.{
  ℕ, ◌+◌, ◌-◌, ◌≤◌, String, ◌<>◌, ◌≡◌, Bool, true, false, not, ◌&&◌, Option, none, some, List, [],
  ◌∷◌, ◌++◌, map, ◌==◌, string_eq, ltb, leb, if◌then◌else◌, length, drop, take,
}
use mathlib.Core.List.{reverse}
use inter_gate.Base.Int.{ℤ, pos_part}
use inter_gate.Base.Floats.{Floats, fmin}
use inter_gate.Constants.{max_persisted_alerts}
use inter_gate.Keys.ApiKey.{ApiKey, KeyStatus, Now, Metadata, today_used}
use inter_gate.Keys.Manager.{KeyManager, persist_async}
use inter_gate.Store
use inter_gate.Store.{Alert, Database}
use inter_gate.Balancer.{error_rate}

-- The token counts of a response.
pub record Tokens : Type 0 where
  pub prompt : ℕ
  pub completion : ℕ

-- An alert as it is held in memory.
pub record Notice : Type 0 where
  pub ts : ℕ
  pub type : String
  pub key_id : String
  pub provider : String
  pub message : String

abbrev pub notice_of : Alert → Notice
notice_of r = record {
  ts = r.ts;
  type = r.type;
  key_id = r.key_id;
  provider = r.provider;
  message = r.message;
}

-- The resets and the additions of `record`.
abbrev pub roll_day : Now → ApiKey → ApiKey
roll_day now k =
    if not (k.day_stamp == now.today)
    then record k { day_stamp = now.today; used_today = 0; requests_today = 0; errors_today = 0 }
    else k

abbrev pub roll_month : Now → ApiKey → ApiKey
roll_month now k =
    if not (k.month_stamp == now.month)
    then record k { month_stamp = now.month; used_month = 0; requests_month = 0 }
    else k

abbrev pub is_error : ℕ → Bool
is_error status = leb 400 status

abbrev pub one_if : Bool → ℕ
one_if b = if b then 1 else 0

unfoldable pub add_usage : Now → ℕ → Tokens → ApiKey → ApiKey
add_usage now status usage key =
    let k = roll_month now (roll_day now key) in
    let n = usage.prompt + usage.completion in
    record k {
      used_today = k.used_today + n;
      used_month = k.used_month + n;
      requests_today = k.requests_today + 1;
      requests_month = k.requests_month + 1;
      errors_today = k.errors_today + one_if (is_error status);
      last_used = now.ms;
    }

-- Whether the database takes the insert of an alert and the pruning of the table, for each type of
-- alert; where one fails, the exception is logged.
pub record AlertWrites : Type 0 where
  pub inserted : String → Bool
  pub pruned : String → Bool

-- The last alert is of the type.
abbrev pub last_is : String → List Notice → Bool
last_is type [] = false
last_is type (a ∷ []) = a.type == type
last_is type (a ∷ b ∷ rest) = last_is type (b ∷ rest)

module _ (fl : Floats) where
  open fl use {F, le, div, of_ℕ, decimal}

  pub record QuotaMonitor : Type 0 where
    pub threshold : F
    pub warn_enabled : Bool
    pub alerts : List Notice

  -- `__init__` with `_load_alerts`
  unfoldable pub init : Database → F → Bool → QuotaMonitor
  init db threshold warn_enabled = record {
    threshold = threshold;
    warn_enabled = warn_enabled;
    alerts = map notice_of (reverse (Store.query_alerts db max_persisted_alerts));
  }

  -- `ApiKey.quota_ratio`
  unfoldable pub quota_ratio : ApiKey → Now → F
  unfolding today_used
  quota_ratio k now =
      if ltb 0 (pos_part k.daily_quota)
      then fmin fl (of_ℕ 1) (div (of_ℕ (today_used k now)) (of_ℕ (pos_part k.daily_quota)))
      else of_ℕ 0

  -- An alert is appended and written to the table, and both are cut to their bound; nothing is cut
  -- where the insert fails, and only the alerts in memory where the pruning fails.
  unfoldable pub raise_alert :
      QuotaMonitor → Database → AlertWrites → ℕ → String → ApiKey → String → QuotaMonitor × Database
  raise_alert q db io ts type k message =
      let a : Notice = record {
        ts = ts;
        type = type;
        key_id = k.id;
        provider = k.provider;
        message = message;
      } in
      let all = q.alerts ++ a ∷ [] in
      let (db', _) = Store.insert_alert db ts type k.id k.provider message in
      let cut : QuotaMonitor × Database = (
        record q { alerts = drop (length all - max_persisted_alerts) all },
        if io.pruned type then (Store.prune_alerts db' max_persisted_alerts).0 else db',
      ) in
      if not (io.inserted type)
      then (record q { alerts = all }, db)
      else if ltb max_persisted_alerts (length all)
      then cut
      else (record q { alerts = all }, db')

  module _ (percent : F → String) where
    -- The part of `_evaluate` about the quota.
    unfoldable pub evaluate_quota :
        QuotaMonitor
        → Database
        → AlertWrites
        → Now
        → ApiKey
        → (QuotaMonitor × Database) × ApiKey × List String
    unfolding quota_ratio raise_alert
    evaluate_quota q db io now k =
        let ratio = quota_ratio k now in
        let reached = "额度已达 " <> percent ratio in
        let k' : ApiKey = record k { status = KeyStatus.exhausted } in
        if ltb 0 (pos_part k.daily_quota) && le q.threshold ratio
        then (if le (of_ℕ 1) ratio
            then (
              raise_alert q db io now.ms "quota_exhausted" k' ("Key " <> k.name <> " 额度已耗尽"),
              k',
              reached ∷ "额度耗尽,Key 已禁用" ∷ [],
            )
            else ((q, db), k, reached ∷ []))
        else ((q, db), k, [])

    -- The part of `_evaluate` about the error rate.
    unfoldable pub evaluate_errors :
        QuotaMonitor
        → Database
        → AlertWrites
        → Now
        → ApiKey
        → (QuotaMonitor × Database) × List String
    unfolding raise_alert
    evaluate_errors q db io now k =
        let rate = error_rate fl k now in
        if leb 10 k.requests_today && not (le rate (decimal 5 1))
        then (
          if not (last_is "high_error_rate" q.alerts)
              then raise_alert q db io now.ms "high_error_rate" k
                  ("Key " <> k.name <> " 错误率过高 " <> percent rate)
              else (q, db),
          ("错误率过高 " <> percent rate) ∷ [],
        )
        else ((q, db), [])

    unfoldable pub evaluate :
        QuotaMonitor
        → Database
        → AlertWrites
        → Now
        → ApiKey
        → (QuotaMonitor × Database) × ApiKey × List String
    unfolding evaluate_quota evaluate_errors
    evaluate q db io now k =
        let ((q₁, db₁), k₁, w₁) = evaluate_quota q db io now k in
        let ((q₂, db₂), w₂) = evaluate_errors q₁ db₁ io now k₁ in
        if q.warn_enabled then ((q₂, db₂), k₁, w₁ ++ w₂) else ((q, db), k, [])

    -- `record`, with `on_key_changed` as the gateway sets it: `_persist_async`. `cost` is in
    -- millionths of a dollar.
    unfoldable pub record_usage :
        (Metadata → String)
        → QuotaMonitor
        → KeyManager
        → AlertWrites
        → Now
        → ApiKey
        → ℕ
        → Tokens
        → ℕ
        → QuotaMonitor × KeyManager × List String
    unfolding add_usage evaluate persist_async
    record_usage json_dumps q m io now key status usage cost =
        let k = add_usage now status usage key in
        let counts : Store.Counts = record {
          requests = 1;
          errors = one_if (is_error status);
          prompt_tokens = usage.prompt;
          completion_tokens = usage.completion;
          cost_usd = cost;
        } in
        let db = Store.enqueue_stats m.db (now.today, k.provider, k.id) counts in
        let ((q', db'), k', warnings) = evaluate q db io now k in
        (q', persist_async json_dumps (record m { db = db' }) now k', warnings)

-- `recent_alerts`
unfoldable pub recent_alerts : List Notice → ℕ → List Notice
recent_alerts alerts limit = drop (length alerts - limit) alerts
