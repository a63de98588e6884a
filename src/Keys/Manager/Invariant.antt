-- ===== src/Keys/Manager/Invariant.antt =====
-- Every operation of the key manager keeps the cache keyed by the ids of its keys.
use inter_gate.Base.{
  String, ◌≡◌, Bool, Option, none, some, List, [], ◌∷◌, arith, Option-cases, inl, inr, string_eq,
}
use inter_gate.Base.Int.{ℤ}
use inter_gate.Base.Dict
use inter_gate.Base.Dict.{Dict}
use inter_gate.Keys.ApiKey.{ApiKey, KeyRow, KeyStatus, Now, Metadata, from_row}
use inter_gate.Store.{Database}
use inter_gate.Keys.Manager.{
  KeyManager, Category, load_rows, load, persist, persist_async, add_key, update_key, auto_recover,
  visit, visit_all, list_active, record_success, record_failure, set_status, delete_key, get,
}
use inter_gate.Base.Text.{Text}
use inter_gate.Providers.{resolve_base_url}
use inter_gate.Keys.Manager.Probe.{test_at, test_key, hint_or}
use inter_gate.Keys.Manager.Keyed.{IsKeyed, insert-IsKeyed, remove-IsKeyed}

load_rows-IsKeyed :
    (rows : List KeyRow) (fresh_id : String) (now : Now) (cache : Dict String ApiKey)
    → IsKeyed cache
    → IsKeyed (load_rows rows fresh_id now cache)
unfolding load_rows
load_rows-IsKeyed [] fresh_id now cache h = h
load_rows-IsKeyed (d ∷ rest) fresh_id now cache h =
    let k = from_row d fresh_id now in
    load_rows-IsKeyed rest fresh_id now (Dict.insert k.id k cache) (insert-IsKeyed k cache h)

module _ (json_dumps : Metadata → String) where
  -- One call of an operation of the key manager.
  pub data Step (m : KeyManager) : KeyManager → Type 0 where
    added :
        (now : Now) (id provider encrypted name : String) (base_url : Option String) (grp : String)
        (priority weight daily_quota rpm : ℤ) (note provider_id : String) {m' : KeyManager}
        → m'
          ≡ (add_key json_dumps m now id provider encrypted name base_url grp priority weight
              daily_quota rpm note provider_id).0
        → Step m m'
    updated :
        (now : Now) (k : ApiKey) (encrypted : Option String) {m' : KeyManager}
        → m' ≡ (update_key json_dumps m now k encrypted).0
        → Step m m'
    deleted : (key_id : String) {m' : KeyManager} → m' ≡ (delete_key m key_id).0 → Step m m'
    listed :
        (now : Now) (provider : Option String) (exclude_cooldown : Bool) {m' : KeyManager}
        → m' ≡ (list_active json_dumps m now provider exclude_cooldown).0
        → Step m m'
    succeeded :
        (now : Now) (key_id : String) {m' : KeyManager}
        → m' ≡ record_success json_dumps m now key_id
        → Step m m'
    failed :
        (now : Now) (key_id : String) (c : Category) {m' : KeyManager}
        → m' ≡ record_failure json_dumps m now key_id c
        → Step m m'
    set :
        (now : Now) (key_id : String) (status : KeyStatus) {m' : KeyManager}
        → m' ≡ set_status json_dumps m now key_id status
        → Step m m'
    written_back :
        (now : Now) (k : ApiKey) {m' : KeyManager}
        → m' ≡ persist_async json_dumps m now k
        → Step m m'
    probed :
        (now : Now) (key_id : String) (hint : Option String) (probe : ApiKey → Text → Bool × String)
        {m' : KeyManager}
        → m' ≡ (test_key json_dumps m now key_id hint probe).0
        → Step m m'

  pub data Reach (m : KeyManager) : KeyManager → Type 0 where
    here : Reach m m
    next : {m₁ m₂ : KeyManager} → Reach m m₁ → Step m₁ m₂ → Reach m m₂

  persist-IsKeyed :
      (m : KeyManager) (now : Now) (k : ApiKey)
      → IsKeyed m.cache
      → IsKeyed (persist json_dumps m now k).cache
  unfolding persist
  persist-IsKeyed m now k h = insert-IsKeyed k m.cache h

  persist_async-IsKeyed :
      (m : KeyManager) (now : Now) (k : ApiKey)
      → IsKeyed m.cache
      → IsKeyed (persist_async json_dumps m now k).cache
  unfolding persist_async
  persist_async-IsKeyed m now k h = insert-IsKeyed k m.cache h

  visit-IsKeyed :
      (m : KeyManager) (now : Now) (p : Option String) (excl : Bool) (k : ApiKey)
      → IsKeyed m.cache
      → IsKeyed (visit json_dumps m now p excl k).0.cache
  unfolding visit auto_recover
  visit-IsKeyed m now p excl k h = ground (
    arith,
    persist_async-IsKeyed m now
        (record k { status = KeyStatus.active; failure_count = 0; cooldown_until = none }) h,
  )

  visit_all-IsKeyed :
      (m : KeyManager) (now : Now) (p : Option String) (excl : Bool) (ks : List ApiKey)
      → IsKeyed m.cache
      → IsKeyed (visit_all json_dumps m now p excl ks).0.cache
  unfolding visit_all
  visit_all-IsKeyed m now p excl [] h = h
  visit_all-IsKeyed m now p excl (k ∷ ks) h =
      visit_all-IsKeyed (visit json_dumps m now p excl k).0 now p excl ks
        (visit-IsKeyed m now p excl k h)

  pub record_failure-IsKeyed :
      (m : KeyManager) (now : Now) (j : String) (c : Category)
      → IsKeyed m.cache
      → IsKeyed (record_failure json_dumps m now j c).cache
  unfolding record_failure
  record_failure-IsKeyed m now j c h = elim (Option-cases (get m j)) [
    | inl p ↦ rw (p, record_failure) h
    | inr (k, p) ↦ rw (p, record_failure) (persist_async-IsKeyed m now _ h)
  ]

  pub record_success-IsKeyed :
      (m : KeyManager) (now : Now) (j : String)
      → IsKeyed m.cache
      → IsKeyed (record_success json_dumps m now j).cache
  unfolding record_success
  record_success-IsKeyed m now j h = elim (Option-cases (get m j)) [
    | inl p ↦ rw (p, record_success) h
    | inr (k, p) ↦ rw (p, record_success) (persist_async-IsKeyed m now _ h)
  ]

  set_status-IsKeyed :
      (m : KeyManager) (now : Now) (j : String) (s : KeyStatus)
      → IsKeyed m.cache
      → IsKeyed (set_status json_dumps m now j s).cache
  unfolding set_status
  set_status-IsKeyed m now j s h = elim (Option-cases (get m j)) [
    | inl p ↦ rw (p, set_status) h
    | inr (k, p) ↦ rw (p, set_status) (persist-IsKeyed m now _ h)
  ]

  test_at-IsKeyed :
      (m : KeyManager) (now : Now) (k : ApiKey) (probe : ApiKey → Text → Bool × String)
      (base : Option Text)
      → IsKeyed m.cache
      → IsKeyed (test_at json_dumps m now k probe base).0.cache
  test_at-IsKeyed m now k probe none h = h
  test_at-IsKeyed m now k probe (some []) h = h
  test_at-IsKeyed m now k probe (some (c ∷ base)) h = persist-IsKeyed m now _ h

  test_key-IsKeyed :
      (m : KeyManager) (now : Now) (j : String) (hint : Option String)
      (probe : ApiKey → Text → Bool × String)
      → IsKeyed m.cache
      → IsKeyed (test_key json_dumps m now j hint probe).0.cache
  unfolding test_key
  test_key-IsKeyed m now j hint probe h = elim (Option-cases (get m j)) [
    | inl p ↦ rw (test_key, p) h
    | inr (k, p) ↦
        rw (test_key, p)
          (test_at-IsKeyed m now k probe
            (resolve_base_url k.provider (hint_or hint k.base_url) none) h)
  ]

  Step-IsKeyed : {m m' : KeyManager} → Step m m' → IsKeyed m.cache → IsKeyed m'.cache
  unfolding add_key update_key delete_key list_active
  Step-IsKeyed {m} (added now id p e n b g pr w q r nt pi eq) h = rw eq (persist-IsKeyed m now _ h)
  Step-IsKeyed {m} (updated now k e eq) h = rw eq (persist-IsKeyed m now _ h)
  Step-IsKeyed {m} (deleted j eq) h = rw eq (remove-IsKeyed j m.cache h)
  Step-IsKeyed {m} (listed now p excl eq) h =
      rw eq (visit_all-IsKeyed m now p excl (Dict.values m.cache) h)
  Step-IsKeyed {m} (succeeded now j eq) h = rw eq (record_success-IsKeyed m now j h)
  Step-IsKeyed {m} (failed now j c eq) h = rw eq (record_failure-IsKeyed m now j c h)
  Step-IsKeyed {m} (set now j s eq) h = rw eq (set_status-IsKeyed m now j s h)
  Step-IsKeyed {m} (written_back now k eq) h = rw eq (persist_async-IsKeyed m now k h)
  Step-IsKeyed {m} (probed now j hint probe eq) h = rw eq (test_key-IsKeyed m now j hint probe h)

  -- From a start that loads any database, whatever operations follow, the cache holds no id twice
  -- and every key under its own id.
  pub Reach-IsKeyed :
      (db : Database) (fresh_id : String) (now : Now) {m : KeyManager}
      → Reach (load db fresh_id now) m
      → IsKeyed m.cache
  unfolding load
  Reach-IsKeyed db fresh_id now here = load_rows-IsKeyed _ fresh_id now [] tt
  Reach-IsKeyed db fresh_id now (next r s) = Step-IsKeyed s (Reach-IsKeyed db fresh_id now r)
