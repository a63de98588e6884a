-- ===== src/Keys/Manager.antt =====
-- `services/key_manager.py`: the keys in memory, their life cycle, and what is written back. The
-- objects of the source are shared: a change of a cached key is a change of the entry of its id.
-- Ciphers and the JSON printer are parameters, since they rest on packages outside the repository.
pub mod Keyed
pub mod Invariant
pub mod Probe
pub mod Life
pub mod Active
use inter_gate.Base.{
  ℕ, suc, ◌+◌, ◌*◌, ◌≤◌, ◌<◌, String, ◌<>◌, ◌≡◌, refl, ◌≢◌, Bool, true, false, not, ◌&&◌, Option,
  none, some, List, [], ◌∷◌, ◌++◌, arith, ◌==◌, string_eq, leb, if◌then◌else◌,
}
use inter_gate.Base.Int.{ℤ, leb_ℤ}
use inter_gate.Base.Text.{Text, codes, text_leb}
use inter_gate.Base.Sorting.{sort}
use inter_gate.Base.Dict
use inter_gate.Base.Dict.{Dict}
use inter_gate.Constants.{max_failure_threshold, cooldown_seconds, quota_exhausted_cooldown_ms}
use inter_gate.Keys.ApiKey.{
  ApiKey, KeyRow, KeyStatus, Now, Metadata, status_eq, in_cooldown, to_db_dict, from_row, or_none,
  or_text,
}
use inter_gate.Store
use inter_gate.Store.{Database}

pub record KeyManager : Type 0 where
  pub db : Database
  pub cache : Dict String ApiKey

-- What a failed request is put down to.
pub data Category : Type 0 where
  upstream timeout quota auth tpm : Category

-- `_load`: every row goes into the cache under its id.
unfoldable pub load_rows : List KeyRow → String → Now → Dict String ApiKey → Dict String ApiKey
load_rows [] fresh_id now cache = cache
load_rows (d ∷ rest) fresh_id now cache =
    let k = from_row d fresh_id now in load_rows rest fresh_id now (Dict.insert k.id k cache)

unfoldable pub load : Database → String → Now → KeyManager
load db fresh_id now = record { db = db; cache = load_rows (Store.list_keys db) fresh_id now [] }

unfoldable pub get : KeyManager → String → Option ApiKey
get m key_id = Dict.lookup key_id m.cache

-- sorted by (provider, priority)
abbrev pub listed_leb : ApiKey → ApiKey → Bool
listed_leb a b =
    if a.provider == b.provider
    then leb_ℤ a.priority b.priority
    else text_leb (codes a.provider) (codes b.provider)

unfoldable pub list_all : KeyManager → List ApiKey
list_all m = sort listed_leb (Dict.values m.cache)

-- `provider and k.provider != provider`
abbrev pub other_provider : Option String → ApiKey → Bool
other_provider none k = false
other_provider (some p) k = if p == "" then false else not (k.provider == p)

-- The part of the loop's body behind the recovery.
abbrev pub offer : Now → Option String → Bool → ApiKey → List ApiKey
offer now provider exclude_cooldown k =
    if not (status_eq k.status KeyStatus.active)
    then (if exclude_cooldown then [] else if other_provider provider k then [] else k ∷ [])
    else if other_provider provider k
    then []
    else if exclude_cooldown && in_cooldown k now
    then []
    else k ∷ []

-- The branches of `record_failure` on a key whose failure is counted already.
unfoldable pub penalise : Now → Category → ApiKey → ApiKey
penalise now Category.quota k = record k {
  status = KeyStatus.exhausted;
  cooldown_until = some (now.ms + quota_exhausted_cooldown_ms);
}
penalise now Category.auth k = record k {
  status = KeyStatus.error;
  cooldown_until = some (now.ms + cooldown_seconds * 1000);
}
penalise now _ k =
    if leb max_failure_threshold k.failure_count
    then record k {
      status = KeyStatus.error;
      cooldown_until = some (now.ms + cooldown_seconds * 1000);
    }
    else k

module _ (json_dumps : Metadata → String) where
  -- `_persist`: at once to the table.
  unfoldable pub persist : KeyManager → Now → ApiKey → KeyManager
  persist m now k = record m {
    db = Store.upsert_key m.db (to_db_dict k now json_dumps);
    cache = Dict.insert k.id k m.cache;
  }

  -- `_persist_async`: to the queue of the background writer.
  unfoldable pub persist_async : KeyManager → Now → ApiKey → KeyManager
  persist_async m now k = record m {
    db = Store.enqueue_key m.db (to_db_dict k now json_dumps);
    cache = Dict.insert k.id k m.cache;
  }

  -- `add_key` with the id drawn for it; `encrypted` is `encrypt_plaintext(plain_key.strip())`.
  unfoldable pub add_key :
      KeyManager
      → Now
      → (id provider encrypted name : String) → Option String
      → (grp : String) → (priority weight daily_quota max_requests_per_minute : ℤ)
      → (note provider_id : String) → KeyManager × ApiKey
  unfolding persist
  add_key m now id provider encrypted name base_url grp priority weight daily_quota
        max_requests_per_minute note provider_id =
      let k : ApiKey = record {
        id = id;
        provider = provider;
        encrypted_key = encrypted;
        name = or_text name (provider <> "-key");
        provider_id = provider_id;
        note = note;
        base_url = or_none base_url;
        grp = grp;
        priority = priority;
        weight = weight;
        max_requests_per_minute = max_requests_per_minute;
        daily_quota = daily_quota;
        used_today = 0;
        used_month = 0;
        requests_today = 0;
        requests_month = 0;
        errors_today = 0;
        day_stamp = "";
        month_stamp = "";
        status = KeyStatus.active;
        last_tested = none;
        test_result = none;
        test_error = none;
        created_at = now.ms;
        last_used = 0;
        failure_count = 0;
        cooldown_until = none;
        metadata = [];
      } in
      (persist m now k, k)

  -- `update_key`; `encrypted` is the cipher text of a new plain key, if one is given.
  unfoldable pub update_key : KeyManager → Now → ApiKey → Option String → KeyManager × ApiKey
  unfolding persist
  update_key m now k encrypted =
      let k' : ApiKey = elim encrypted [ none ↦ k | some e ↦ record k { encrypted_key = e } ] in
      (persist m now k', k')

  -- `_auto_recover`: the manager and the key as it is afterwards.
  unfoldable pub auto_recover : KeyManager → Now → ApiKey → KeyManager × ApiKey
  unfolding persist_async
  auto_recover m now k =
      if status_eq k.status KeyStatus.error
      then (let k' : ApiKey = record k {
        status = KeyStatus.active;
        failure_count = 0;
        cooldown_until = none;
      } in
          (persist_async m now k', k'))
      else (m, k)

  -- One round of the loop of `list_active`: the manager, and what is appended to `out`.
  unfoldable pub visit : KeyManager → Now → Option String → Bool → ApiKey → KeyManager × List ApiKey
  unfolding auto_recover
  visit m now provider exclude_cooldown k =
      if status_eq k.status KeyStatus.exhausted
      then (m, [])
      else if status_eq k.status KeyStatus.inactive
      then (m, [])
      else if status_eq k.status KeyStatus.error && not (in_cooldown k now)
      then (let (m', k') = auto_recover m now k in (m', offer now provider exclude_cooldown k'))
      else (m, offer now provider exclude_cooldown k)

  unfoldable pub visit_all :
      KeyManager → Now → Option String → Bool → List ApiKey → KeyManager × List ApiKey
  visit_all m now provider exclude_cooldown [] = (m, [])
  visit_all m now provider exclude_cooldown (k ∷ ks) =
      let (m', found) = visit m now provider exclude_cooldown k in
      let (m'', rest) = visit_all m' now provider exclude_cooldown ks in (m'', found ++ rest)

  unfoldable pub list_active : KeyManager → Now → Option String → Bool → KeyManager × List ApiKey
  unfolding visit visit_all
  list_active m now provider exclude_cooldown =
      visit_all m now provider exclude_cooldown (Dict.values m.cache)

  unfoldable pub record_success : KeyManager → Now → String → KeyManager
  unfolding get persist_async
  record_success m now key_id = elim (get m key_id) [
    | none ↦ m
    | some k ↦ persist_async m now (record k {
      last_used = now.ms;
      failure_count = 0;
      cooldown_until = none;
      status = KeyStatus.active;
    })
  ]

  unfoldable pub record_failure : KeyManager → Now → String → Category → KeyManager
  unfolding get persist_async penalise
  record_failure m now key_id category = elim (get m key_id) [
    | none ↦ m
    | some k ↦ persist_async m now (
        penalise now category
          (record k { failure_count = k.failure_count + 1; last_used = now.ms }))
  ]

  unfoldable pub set_status : KeyManager → Now → String → KeyStatus → KeyManager
  unfolding get persist
  set_status m now key_id status = elim (get m key_id) [
    | none ↦ m
    | some k ↦ persist m now (
        if status_eq status KeyStatus.active
        then record k { status = status; cooldown_until = none; failure_count = 0 }
        else record k { status = status })
  ]

-- `delete_key`: the manager, and whether the key was there.
unfoldable pub delete_key : KeyManager → String → KeyManager × Bool
delete_key m key_id = (
  record m { db = Store.delete_key m.db key_id; cache = Dict.remove key_id m.cache },
  elim (Dict.lookup key_id m.cache) [ none ↦ false | some _ ↦ true ],
)
