-- ===== src/Keys/Manager/Life.antt =====
-- The life cycle of a key: failures, the cooldown, recovery, and what undoes a stop.
use inter_gate.Base.{
  ℕ, suc, ◌+◌, ◌*◌, ◌≤◌, String, ◌≡◌, refl, ◌≢◌, Bool, Option, none, some, List, [], ◌∷◌, arith,
  ◌==◌, string_eq, leb, ltb, if◌then◌else◌, length, ap, ◌∙◌,
}
use inter_gate.Base.Dict
use inter_gate.Base.Dict.{Dict}
use inter_gate.Constants.{max_failure_threshold, cooldown_seconds}
use inter_gate.Keys.ApiKey.{ApiKey, KeyStatus, Now, Metadata, in_cooldown}
use inter_gate.Keys.Manager.{
  KeyManager, Category, get, persist_async, record_failure, penalise, list_active,
}
use inter_gate.Keys.Manager.Keyed.{IsKeyed, lookup-id}
use inter_gate.Keys.Manager.Invariant.{record_failure-IsKeyed}
use inter_gate.Keys.Manager.Active.{recovered, recovered_entry, list_active-recovers}

-- The failures that count towards the threshold and do not stop a key at once.
abbrev pub IsSoft : Category → Type 0
IsSoft c = (c ≢ Category.quota) × (c ≢ Category.auth)

penalise-id : (now : Now) (c : Category) (k : ApiKey) → (penalise now c k).id ≡ k.id
unfolding penalise
penalise-id now Category.quota k = refl
penalise-id now Category.auth k = refl
penalise-id now _ k = ground arith

-- The key after one failure.
abbrev pub failed : Now → Category → ApiKey → ApiKey
failed now c k =
    penalise now c (record k { failure_count = k.failure_count + 1; last_used = now.ms })

-- The status, the counter and the cooldown of a key after a failure that counts, at its count.
soft_penalty :
    (now : Now) (c : Category) (k : ApiKey)
    → IsSoft c
    → let k' = failed now c k in
      (k'.failure_count ≡ k.failure_count + 1)
      × (k'.status
          ≡ (if leb max_failure_threshold (k.failure_count + 1) then KeyStatus.error else k.status))
      × (k'.cooldown_until ≡ (
          if leb max_failure_threshold (k.failure_count + 1)
          then some (now.ms + cooldown_seconds * 1000)
          else k.cooldown_until))
unfolding penalise
soft_penalty now Category.quota k s = absurd (s.0 refl)
soft_penalty now Category.auth k s = absurd (s.1 refl)
soft_penalty now _ k s = ground arith

auth_status : (now : Now) (k : ApiKey) → (failed now Category.auth k).status ≡ KeyStatus.error
unfolding penalise
auth_status now k = refl

auth_recovers :
    (failed_at now : Now) (k : ApiKey)
    → failed_at.ms + cooldown_seconds * 1000 ≤ now.ms
    → (recovered now (failed failed_at Category.auth k)).status ≡ KeyStatus.active
unfolding penalise recovered in_cooldown
auth_recovers failed_at now k late = ground arith

module _ (json_dumps : Metadata → String) where
  pub get-persist_async :
      (m : KeyManager) (now : Now) (k : ApiKey) (j : String)
      → get (persist_async json_dumps m now k) j ≡ (if k.id == j then some k else get m j)
  unfolding persist_async get
  get-persist_async m now k j = Dict.lookup-insert k.id j k m.cache

  pub get-record_failure :
      (m : KeyManager) (now : Now) (j : String) (c : Category) {k : ApiKey}
      → get m j ≡ some k
      → k.id ≡ j
      → get (record_failure json_dumps m now j c) j ≡ some (failed now c k)
  unfolding record_failure
  get-record_failure m now j c {k} h e = ground (
    arith,
    get-persist_async m now (failed now c k) j,
    penalise-id now c (record k { failure_count = k.failure_count + 1; last_used = now.ms }),
    string_eq.equal_iff (failed now c k).id j,
  )

  -- A sequence of failures of one key, with the time of each.
  pub fail_all : KeyManager → String → List (Now × Category) → KeyManager
  fail_all m j [] = m
  fail_all m j ((now, c) ∷ rest) = fail_all (record_failure json_dumps m now j c) j rest

  abbrev pub AllSoft : List (Now × Category) → Type 0
  AllSoft [] = Unit
  AllSoft ((_, c) ∷ rest) = IsSoft c × AllSoft rest

  -- The cooldown that the last of the failures sets.
  abbrev pub last_cooldown : List (Now × Category) → Option ℕ
  last_cooldown [] = none
  last_cooldown ((now, _) ∷ []) = some (now.ms + cooldown_seconds * 1000)
  last_cooldown (_ ∷ e ∷ rest) = last_cooldown (e ∷ rest)

  -- A key as a number of failures that count leaves it.
  abbrev pub AfterFailures : ApiKey → ℕ → Option ℕ → Type 0
  AfterFailures k n cooldown =
      (k.failure_count ≡ n)
      × (k.status ≡ (if leb max_failure_threshold n then KeyStatus.error else KeyStatus.active))
      × (k.cooldown_until ≡ (if leb max_failure_threshold n then cooldown else none))

  one_failure :
      (now : Now) (c : Category) (k : ApiKey) (n : ℕ) (old : Option ℕ)
      → IsSoft c
      → AfterFailures k n old
      → AfterFailures (failed now c k) (n + 1) (some (now.ms + cooldown_seconds * 1000))
  one_failure now c k n old s h = ground (arith, soft_penalty now c k s)

  failures_from :
      (events : List (Now × Category)) (now : Now) (c : Category) (m : KeyManager) (j : String)
      (k : ApiKey) (n : ℕ) (old : Option ℕ)
      → AllSoft ((now, c) ∷ events)
      → get m j ≡ some k
      → k.id ≡ j
      → AfterFailures k n old
      → (k' : ApiKey) × (get (fail_all m j ((now, c) ∷ events)) j ≡ some k')
        × AfterFailures k' (n + length ((now, c) ∷ events)) (last_cooldown ((now, c) ∷ events))
  unfolding fail_all
  failures_from [] now c m j k n old s g e h =
      (failed now c k, get-record_failure m now j c g e, one_failure now c k n old s.0 h)
  failures_from ((now', c') ∷ rest) now c m j k n old s g e h =
      let (k', got, after) =
        failures_from rest now' c' (record_failure json_dumps m now j c) j (failed now c k) (n + 1)
          (some (now.ms + cooldown_seconds * 1000)) s.1 (get-record_failure m now j c g e)
          (penalise-id now c (record k { failure_count = k.failure_count + 1; last_used = now.ms })
            ∙ e)
          (one_failure now c k n old s.0 h) in
      (k', got, regroup k' n (length rest) (last_cooldown ((now', c') ∷ rest)) after)
    where
      regroup :
          (k : ApiKey) (a b : ℕ) (cd : Option ℕ)
          → AfterFailures k (a + 1 + suc b) cd
          → AfterFailures k (a + suc (suc b)) cd
      regroup k a b cd h = let e : a + 1 + suc b ≡ a + suc (suc b) = omega arith in rw e at h

  fail_all-IsKeyed :
      (m : KeyManager) (j : String) (events : List (Now × Category))
      → IsKeyed m.cache
      → IsKeyed (fail_all m j events).cache
  unfolding fail_all
  fail_all-IsKeyed m j [] h = h
  fail_all-IsKeyed m j ((now, c) ∷ rest) h =
      fail_all-IsKeyed (record_failure json_dumps m now j c) j rest
        (record_failure-IsKeyed json_dumps m now j c h)

  failures :
      (m : KeyManager) (j : String) (k : ApiKey) (events : List (Now × Category))
      → AllSoft events
      → get m j ≡ some k
      → k.id ≡ j
      → AfterFailures k 0 none
      → (k' : ApiKey) × (get (fail_all m j events) j ≡ some k')
        × AfterFailures k' (length events) (last_cooldown events)
  unfolding fail_all
  failures m j k [] s g e h = (k, g, h)
  failures m j k ((now, c) ∷ rest) s g e h =
      let (k', got, after) = failures_from rest now c m j k 0 none s g e h in
      let n : 0 + length ((now, c) ∷ rest) ≡ length ((now, c) ∷ rest) = omega arith in
      (k', got, rw n at after)

  -- The status that the next listing shows, by the number of failures and the last one's time.
  abbrev pub status_listed : Now → List (Now × Category) → KeyStatus
  status_listed now events =
      if leb max_failure_threshold (length events)
      then (elim (last_cooldown events) [
        | none ↦ KeyStatus.active
        | some t ↦ if ltb now.ms t then KeyStatus.error else KeyStatus.active
      ])
      else KeyStatus.active

  listed_status :
      (now : Now) (k : ApiKey) (events : List (Now × Category))
      → AfterFailures k (length events) (last_cooldown events)
      → (recovered now k).status ≡ status_listed now events
  unfolding recovered in_cooldown
  listed_status now k events h = ground arith

  -- The circuit breaker: after any sequence of failures of an ACTIVE key with none so far, each put
  -- down to the upstream, a timeout or a rate limit, the key is ACTIVE while there were fewer than
  -- three; from the third on it is ERROR and has a cooldown of five minutes from the last failure,
  -- and a listing at any time shows it ERROR within that cooldown and ACTIVE after it.
  pub fail_all-breaker :
      (m : KeyManager) (j : String) (k : ApiKey) (events : List (Now × Category)) (now : Now)
      (provider : Option String) (exclude_cooldown : Bool)
      → IsKeyed m.cache
      → get m j ≡ some k
      → k.status ≡ KeyStatus.active
      → k.failure_count ≡ 0
      → k.cooldown_until ≡ none
      → AllSoft events
      → (k₁ k₂ : ApiKey) × (get (fail_all m j events) j ≡ some k₁)
        × AfterFailures k₁ (length events) (last_cooldown events)
        × (get (list_active json_dumps (fail_all m j events) now provider exclude_cooldown).0 j
            ≡ some k₂)
        × (k₂.status ≡ status_listed now events)
  unfolding get
  fail_all-breaker m j k events now provider excl h g st fc cd s =
      let (k₁, got, after) = failures m j k events s g (lookup-id j k m.cache h g) (fc, st, cd) in
      let keyed = fail_all-IsKeyed m j events h in
      (
        k₁,
        recovered now k₁,
        got,
        after,
        list_active-recovers json_dumps now provider (fail_all m j events) excl j keyed
            ∙ ap (recovered_entry now) got,
        listed_status now k₁ events after,
      )

  -- An authentication failure of a key, whatever its status was, also one that was stopped by hand
  -- or whose quota is used up, makes it ERROR, and a listing once five minutes have passed puts it
  -- back to ACTIVE.
  pub record_failure-auth_reactivates :
      (m : KeyManager) (j : String) (k : ApiKey) (failed_at now : Now) (provider : Option String)
      (exclude_cooldown : Bool)
      → IsKeyed m.cache
      → get m j ≡ some k
      → failed_at.ms + cooldown_seconds * 1000 ≤ now.ms
      → let m₁ = record_failure json_dumps m failed_at j Category.auth in
        (k₁ k₂ : ApiKey) × (get m₁ j ≡ some k₁)
        × (k₁.status ≡ KeyStatus.error)
        × (get (list_active json_dumps m₁ now provider exclude_cooldown).0 j ≡ some k₂)
        × (k₂.status ≡ KeyStatus.active)
  unfolding get
  record_failure-auth_reactivates m j k failed_at now provider excl h g late =
      let m₁ = record_failure json_dumps m failed_at j Category.auth in
      let k₁ = failed failed_at Category.auth k in
      let got = get-record_failure m failed_at j Category.auth g (lookup-id j k m.cache h g) in
      (
        k₁,
        recovered now k₁,
        got,
        auth_status failed_at k,
        list_active-recovers json_dumps now provider m₁ excl j
              (record_failure-IsKeyed json_dumps m failed_at j Category.auth h)
            ∙ ap (recovered_entry now) got,
        auth_recovers failed_at now k late,
      )
