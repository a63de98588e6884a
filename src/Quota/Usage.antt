-- ===== src/Quota/Usage.antt =====
-- `services/quota.py`: the counters follow the calendar, and the alerts in memory are bounded.
use inter_gate.Base.{
  Bool, Elem, true, false, if◌then◌else◌, ℕ, ◌+◌, ◌-◌, ◌≤◌, String, ◌<>◌, ◌≡◌, refl, sym, ap, ◌∙◌,
  not, ◌&&◌, some, List, [], ◌∷◌, ◌++◌, ◌⊎◌, inl, inr, arith, ◌==◌, string_eq, ltb, leb, if_both,
  length, length-drop, Bool-cases, eq_refl,
}
use inter_gate.Base.Int.{pos_part}
use inter_gate.Base.Floats.{Floats, fmin}
use inter_gate.Base.Dict
use inter_gate.Base.Dict.{Dict, lookup-insert_self}
use inter_gate.Constants.{max_persisted_alerts}
use inter_gate.Keys.ApiKey.{
  ApiKey, KeyStatus, Now, Metadata, is_today, is_this_month, today_used, today_requests,
  today_errors, this_month_used, this_month_requests,
}
use inter_gate.Keys.Manager.{KeyManager, persist_async}
use inter_gate.Store.{Database}
use inter_gate.Balancer.{error_rate}
use inter_gate.Quota.{
  AlertWrites, Tokens, Notice, add_usage, is_error, one_if, QuotaMonitor, raise_alert,
  evaluate_quota, evaluate_errors, evaluate, record_usage, quota_ratio, last_is,
}

-- A request adds its tokens, itself, and an error if its status is 400 or more, to what the key
-- shows for this day and this month; counters of an earlier day or month count as zero.
pub add_usage-counts :
    (now : Now) (status : ℕ) (usage : Tokens) (key : ApiKey)
    → (today_used (add_usage now status usage key) now
        ≡ today_used key now + (usage.prompt + usage.completion))
      × (today_requests (add_usage now status usage key) now ≡ today_requests key now + 1)
      × (today_errors (add_usage now status usage key) now
          ≡ today_errors key now + one_if (is_error status))
      × (this_month_used (add_usage now status usage key) now
          ≡ this_month_used key now + (usage.prompt + usage.completion))
      × (this_month_requests (add_usage now status usage key) now ≡ this_month_requests key now + 1)
unfolding add_usage today_used today_requests today_errors this_month_used this_month_requests
    is_today is_this_month
add_usage-counts now status usage key = elim (Bool-cases (key.day_stamp == now.today)) [
  | inl d ↦ elim (Bool-cases (key.month_stamp == now.month)) [
    | inl m ↦ ground (arith, d, m)
    | inr m ↦ ground (arith, d, m, eq_refl now.month)
  ]
  | inr d ↦ elim (Bool-cases (key.month_stamp == now.month)) [
    | inl m ↦ ground (arith, d, m, eq_refl now.today)
    | inr m ↦ ground (arith, d, m, eq_refl now.today, eq_refl now.month)
  ]
]

-- It changes neither the id nor the status nor the quota.
add_usage-id :
    (now : Now) (status : ℕ) (usage : Tokens) (key : ApiKey)
    → ((add_usage now status usage key).id ≡ key.id)
      × ((add_usage now status usage key).status ≡ key.status)
      × ((add_usage now status usage key).daily_quota ≡ key.daily_quota)
unfolding add_usage
add_usage-id now status usage key = elim (Bool-cases (key.day_stamp == now.today)) [
  | inl d ↦ elim (Bool-cases (key.month_stamp == now.month)) [
    | inl m ↦ ground (arith, d, m)
    | inr m ↦ ground (arith, d, m)
  ]
  | inr d ↦ elim (Bool-cases (key.month_stamp == now.month)) [
    | inl m ↦ ground (arith, d, m)
    | inr m ↦ ground (arith, d, m)
  ]
]

module _ (fl : Floats) where
  open fl use {F}

  -- No more alerts are held than the bound.
  abbrev pub IsBounded : QuotaMonitor fl → Type 0
  IsBounded q = length q.alerts ≤ max_persisted_alerts

  -- The inserts of alerts fail for one of the two types.
  abbrev pub MayFail : AlertWrites → Type 0
  MayFail io = (io.inserted "quota_exhausted" ≡ false) ⊎ (io.inserted "high_error_rate" ≡ false)

  raise_alert-IsBounded :
      (q : QuotaMonitor fl) (db : Database) (io : AlertWrites) (ts : ℕ) (type : String) (k : ApiKey)
      (message : String)
      → io.inserted type ≡ true
      → IsBounded (raise_alert fl q db io ts type k message).0
  unfolding raise_alert
  raise_alert-IsBounded q db io ts type k message stored =
      let a : Notice = record {
        ts = ts;
        type = type;
        key_id = k.id;
        provider = k.provider;
        message = message;
      } in
      let all = q.alerts ++ a ∷ [] in
      ground (arith, stored, length-drop (length all - max_persisted_alerts) all)

  -- The share of the daily quota that is used with so many tokens more, at most one.
  abbrev pub spent_ratio : ApiKey → Now → ℕ → F
  spent_ratio key now tokens =
      fmin fl (fl.of_ℕ 1)
        (fl.div (fl.of_ℕ (today_used key now + tokens)) (fl.of_ℕ (pos_part key.daily_quota)))

  -- The warnings are on, the key has a daily quota, and its share reaches both the threshold of the
  -- warning and one.
  abbrev pub used_up : QuotaMonitor fl → ApiKey → Now → ℕ → Bool
  used_up q key now tokens =
      let share = spent_ratio key now tokens in
      q.warn_enabled
      && (ltb 0 (pos_part key.daily_quota) && (fl.le q.threshold share && fl.le (fl.of_ℕ 1) share))

  module _ (percent : F → String) where
    -- The types of the alerts.
    abbrev kinds : List String
    kinds = "quota_exhausted" ∷ "high_error_rate" ∷ []

    evaluate_quota-IsBounded :
        (q : QuotaMonitor fl) (db : Database) (io : AlertWrites) (now : Now) (k : ApiKey)
        → ((t : String) → Elem t kinds → io.inserted t ≡ true)
        → IsBounded q
        → IsBounded (evaluate_quota fl percent q db io now k).0.0
    unfolding evaluate_quota
    evaluate_quota-IsBounded q db io now k stored h =
        let k' : ApiKey = record k { status = KeyStatus.exhausted } in
        let P = λ (r : (QuotaMonitor fl × Database) × ApiKey × List String). IsBounded r.0.0 in
        if_both P (ltb 0 (pos_part k.daily_quota) && fl.le q.threshold (quota_ratio fl k now)) _ _
          (if_both P (fl.le (fl.of_ℕ 1) (quota_ratio fl k now)) _ _
            (raise_alert-IsBounded q db io now.ms "quota_exhausted" k'
              ("Key " <> k.name <> " 额度已耗尽") (stored "quota_exhausted" (inl refl)))
            h)
          h

    evaluate_errors-IsBounded :
        (q : QuotaMonitor fl) (db : Database) (io : AlertWrites) (now : Now) (k : ApiKey)
        → ((t : String) → Elem t kinds → io.inserted t ≡ true)
        → IsBounded q
        → IsBounded (evaluate_errors fl percent q db io now k).0.0
    unfolding evaluate_errors
    evaluate_errors-IsBounded q db io now k stored h =
        let rate = error_rate fl k now in
        let message = "Key " <> k.name <> " 错误率过高 " <> percent rate in
        let P = λ (r : (QuotaMonitor fl × Database) × List String). IsBounded r.0.0 in
        if_both P (leb 10 k.requests_today && not (fl.le rate (fl.decimal 5 1))) _ _
          (if_both (λ (r : QuotaMonitor fl × Database). IsBounded r.0)
            (not (last_is "high_error_rate" q.alerts)) _ _
            (raise_alert-IsBounded q db io now.ms "high_error_rate" k message
              (stored "high_error_rate" (inr (inl refl))))
            h)
          h

    evaluate-IsBounded :
        (q : QuotaMonitor fl) (db : Database) (io : AlertWrites) (now : Now) (k : ApiKey)
        → ((t : String) → Elem t kinds → io.inserted t ≡ true)
        → IsBounded q
        → IsBounded (evaluate fl percent q db io now k).0.0
    unfolding evaluate
    evaluate-IsBounded q db io now k stored h =
        let r = evaluate_quota fl percent q db io now k in
        if_both (λ (r : (QuotaMonitor fl × Database) × ApiKey × List String). IsBounded r.0.0)
          q.warn_enabled _ _
          (evaluate_errors-IsBounded r.0.0 r.0.1 io now r.1 stored
            (evaluate_quota-IsBounded q db io now k stored h))
          h

    -- The key as it is, or exhausted.
    abbrev IsOrExhausted : ApiKey → ApiKey → Type 0
    IsOrExhausted k k' = (k' ≡ k) ⊎ (k' ≡ (record k { status = KeyStatus.exhausted }))

    evaluate-key :
        (q : QuotaMonitor fl) (db : Database) (io : AlertWrites) (now : Now) (k : ApiKey)
        → IsOrExhausted k (evaluate fl percent q db io now k).1
    unfolding evaluate evaluate_quota
    evaluate-key q db io now k =
        let P = λ (r : (QuotaMonitor fl × Database) × ApiKey × List String). IsOrExhausted k r.1 in
        if_both P q.warn_enabled _ _
          (if_both P (ltb 0 (pos_part k.daily_quota) && fl.le q.threshold (quota_ratio fl k now)) _
            _ (if_both P (fl.le (fl.of_ℕ 1) (quota_ratio fl k now)) _ _ (inr refl) (inl refl))
            (inl refl))
          (inl refl)

    cached :
        (now : Now) (status : ℕ) (usage : Tokens) (key k' : ApiKey) (cache : Dict String ApiKey)
        (st : KeyStatus)
        → k'.status ≡ st
        → IsOrExhausted (add_usage now status usage key) k'
        → (k : ApiKey) × (Dict.lookup key.id (Dict.insert k'.id k' cache) ≡ some k)
          × (today_requests k now ≡ today_requests key now + 1)
          × (today_used k now ≡ today_used key now + (usage.prompt + usage.completion))
          × (k.status ≡ st)
    unfolding today_used today_requests is_today
    cached now status usage key k' cache st same (inl e) =
        let (same_id, _, _) = add_usage-id now status usage key in
        let counts = add_usage-counts now status usage key in
        let id : k'.id ≡ key.id = ap (λ k. k.id) e ∙ same_id in
        (
          k',
          ap (λ i. Dict.lookup i (Dict.insert k'.id k' cache)) (sym id)
              ∙ lookup-insert_self k'.id k' cache,
          ap (λ k. today_requests k now) e ∙ counts.1,
          ap (λ k. today_used k now) e ∙ counts.0,
          same,
        )
    cached now status usage key k' cache st same (inr e) =
        let (same_id, _, _) = add_usage-id now status usage key in
        let counts = add_usage-counts now status usage key in
        let id : k'.id ≡ key.id = ap (λ k. k.id) e ∙ same_id in
        (
          k',
          ap (λ i. Dict.lookup i (Dict.insert k'.id k' cache)) (sym id)
              ∙ lookup-insert_self k'.id k' cache,
          ap (λ k. today_requests k now) e ∙ counts.1,
          ap (λ k. today_used k now) e ∙ counts.0,
          same,
        )

    -- A key becomes exhausted exactly where its quota is used up.
    evaluate-status :
        (q : QuotaMonitor fl) (db : Database) (io : AlertWrites) (now : Now) (k : ApiKey)
        → let share = quota_ratio fl k now in
          let ends =
            q.warn_enabled
            && (ltb 0 (pos_part k.daily_quota)
                && (fl.le q.threshold share && fl.le (fl.of_ℕ 1) share)) in
          (evaluate fl percent q db io now k).1.status
          ≡ (if ends then KeyStatus.exhausted else k.status)
    unfolding evaluate evaluate_quota quota_ratio
    evaluate-status q db io now k = elim (Bool-cases q.warn_enabled) [
      | inr off ↦ rw (evaluate, off) refl
      | inl on ↦ elim (Bool-cases (ltb 0 (pos_part k.daily_quota))) [
        | inr none_set ↦ rw (evaluate, evaluate_quota, on, none_set) refl
        | inl set ↦ elim (Bool-cases (fl.le q.threshold (quota_ratio fl k now))) [
          | inr low ↦ rw (evaluate, evaluate_quota, on, low, set) refl
          | inl warned ↦ elim (Bool-cases (fl.le (fl.of_ℕ 1) (quota_ratio fl k now))) [
            | inr some_left ↦ rw (evaluate, evaluate_quota, on, warned, some_left, set) refl
            | inl full ↦ rw (evaluate, evaluate_quota, on, warned, full, set) refl
          ]
        ]
      ]
    ]

    add_usage-ratio :
        (now : Now) (status : ℕ) (usage : Tokens) (key : ApiKey)
        → ltb 0 (pos_part key.daily_quota) ≡ true
        → quota_ratio fl (add_usage now status usage key) now
          ≡ spent_ratio key now (usage.prompt + usage.completion)
    unfolding quota_ratio
    add_usage-ratio now status usage key set =
        let (_, _, quota) = add_usage-id now status usage key in
        let counts = add_usage-counts now status usage key in
        rw (quota_ratio, quota, counts.0, set) refl

    record-status :
        (q : QuotaMonitor fl) (db : Database) (io : AlertWrites) (now : Now) (key : ApiKey)
        (status : ℕ) (usage : Tokens)
        → (evaluate fl percent q db io now (add_usage now status usage key)).1.status ≡ (
            if used_up q key now (usage.prompt + usage.completion)
            then KeyStatus.exhausted
            else key.status)
    record-status q db io now key status usage =
        let (_, same, quota) = add_usage-id now status usage key in
        let at_end = evaluate-status q db io now (add_usage now status usage key) in
        elim (Bool-cases (ltb 0 (pos_part key.daily_quota))) [
          | inl set ↦ at_end ∙ rw (add_usage-ratio now status usage key set, quota, same, set) refl
          | inr unset ↦ at_end ∙ rw (quota, same, unset) refl
        ]

    all_stored :
        (io : AlertWrites) → ((t : String) → Elem t kinds → io.inserted t ≡ true) ⊎ MayFail io
    all_stored io = elim (Bool-cases (io.inserted "quota_exhausted")) [
      | inr p ↦ inr (inl p)
      | inl p ↦ elim (Bool-cases (io.inserted "high_error_rate")) [
        | inr r ↦ inr (inr r)
        | inl r ↦ inl (both p r)
      ]
    ]
      where
        both :
            io.inserted "quota_exhausted" ≡ true
            → io.inserted "high_error_rate" ≡ true
            → (t : String) → Elem t kinds
            → io.inserted t ≡ true
        both p r t (inl e) = rw e p
        both p r t (inr (inl e)) = rw e r
        both p r t (inr (inr m)) = absurd (m tt)

    -- A request leaves the alerts in memory within their bound, if they were, or the insert of an
    -- alert of one of the two types fails. The cache holds its key with one request more and its
    -- tokens added. The key is exhausted if the warnings are on, it has a daily quota, and the share
    -- of it used, with these tokens, is at least the threshold of the warning and at least one;
    -- otherwise its status is as before.
    pub record_usage-key :
        (json_dumps : Metadata → String) (q : QuotaMonitor fl) (m : KeyManager) (io : AlertWrites)
        (now : Now) (key : ApiKey) (status : ℕ) (usage : Tokens) (cost : ℕ)
        → IsBounded q
        → let (q', m', _) = record_usage fl percent json_dumps q m io now key status usage cost in
          let tokens = usage.prompt + usage.completion in
          (IsBounded q' ⊎ MayFail io)
          × ((k : ApiKey) × (Dict.lookup key.id m'.cache ≡ some k)
              × (today_requests k now ≡ today_requests key now + 1)
              × (today_used k now ≡ today_used key now + tokens)
              × (k.status ≡ (if used_up q key now tokens then KeyStatus.exhausted else key.status)))
    unfolding record_usage persist_async
    record_usage-key json_dumps q m io now key status usage cost h = (
      elim (all_stored io) [
        | inl stored ↦ inl (evaluate-IsBounded q _ io now (add_usage now status usage key) stored h)
        | inr failing ↦ inr failing
      ],
      cached now status usage key _ m.cache _ (record-status q _ io now key status usage)
          (evaluate-key q _ io now (add_usage now status usage key)),
    )
