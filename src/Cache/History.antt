-- ===== src/Cache/History.antt =====
-- Whatever the calls, the response cache returns nothing but what was accepted last for the key
-- and is still fresh.
use inter_gate.Base.{
  ℕ, zero, suc, ◌+◌, ◌-◌, ◌≤◌, String, ◌≡◌, refl, Bool, some, List, [], ◌∷◌, arith, ◌==◌, string_eq,
  if◌then◌else◌, length, drop, Option-cases, inl, inr, Bool-cases, ◌∙◌,
}
use inter_gate.Base.Text.{Text}
use inter_gate.Base.Dict
use inter_gate.Base.Dict.{Dict}
use inter_gate.Cache
use inter_gate.Cache.{CacheEntry, ResponseCache, to_end, evict, storable, pop_all, init, selected}
use inter_gate.Cache.Laws.{
  IsValid, get-IsValid, put-IsValid, init-IsValid, evict-drop, to_end-IsDict, length-remove-le,
}

-- One call of the cache, with the time and what it was given.
pub data Call : Type 0 where
  get : ℕ → String → Call
  put : ℕ → String → ℕ → Dict String Text → List ℕ → Call
  invalidate : String → Call

unfoldable pub run : List Call → ResponseCache → ResponseCache
run [] c = c
run (Call.get now key ∷ calls) c = run calls (Cache.get c now key).0
run (Call.put now key status headers body ∷ calls) c =
    run calls (Cache.put c now key status headers body)
run (Call.invalidate prefix ∷ calls) c = run calls (Cache.invalidate c prefix).0

-- The response that was accepted last for each key; it depends on the calls of `put` alone.
unfoldable pub accepted :
    (enabled : Bool) (max_body_bytes : ℕ)
    → List Call
    → Dict String CacheEntry
    → Dict String CacheEntry
accepted enabled max_body_bytes [] last = last
accepted enabled max_body_bytes (Call.put now key status headers body ∷ calls) last =
    accepted enabled max_body_bytes calls (
      if storable enabled max_body_bytes status body
      then Dict.insert key
          (record { status = status; headers = headers; body = body; created = now }) last
      else last)
accepted enabled max_body_bytes (_ ∷ calls) last = accepted enabled max_body_bytes calls last

-- Every entry of the store is one that `last` holds for its key.
abbrev Within : Dict String CacheEntry → Dict String CacheEntry → Type 0
Within store last =
    (q : String) (e : CacheEntry) → Dict.lookup q store ≡ some e → Dict.lookup q last ≡ some e

pub lookup-to_end :
    (q key : String) (e : CacheEntry) (d : Dict String CacheEntry)
    → Dict.IsDict d
    → Dict.lookup q (to_end key e d) ≡ (if key == q then some e else Dict.lookup q d)
unfolding Dict.lookup
lookup-to_end q key e d h = ground (
  arith,
  Dict.lookup-append q (Dict.remove key d) ((key, e) ∷ []),
  Dict.lookup-remove key q d h,
  string_eq.equal_iff key q,
)

lookup-drop-some :
    (n : ℕ) (q : String) (e : CacheEntry) (d : Dict String CacheEntry)
    → Dict.IsDict d
    → Dict.lookup q (drop n d) ≡ some e
    → Dict.lookup q d ≡ some e
unfolding Dict.lookup
lookup-drop-some zero q e d h p = p
lookup-drop-some (suc n) q e [] h p = p
lookup-drop-some (suc n) q e ((i, w) ∷ d) h p =
    ground (arith, lookup-drop-some n q e d h.1 p, string_eq.equal_iff i q)

lookup-remove-some :
    (key q : String) (e : CacheEntry) (d : Dict String CacheEntry)
    → Dict.IsDict d
    → Dict.lookup q (Dict.remove key d) ≡ some e
    → Dict.lookup q d ≡ some e
lookup-remove-some key q e d h p = ground (arith, Dict.lookup-remove key q d h)

pop_all-kept :
    (ks : List String) (d : Dict String CacheEntry)
    → Dict.IsDict d
    → Dict.IsDict (pop_all ks d)
      × ((q : String) (e : CacheEntry)
          → Dict.lookup q (pop_all ks d) ≡ some e
          → Dict.lookup q d ≡ some e)
      × (length (pop_all ks d) ≤ length d)
unfolding pop_all
pop_all-kept [] d h = (h, λ q e p. p, omega arith)
pop_all-kept (k ∷ ks) d h =
    let (dict, kept, small) = pop_all-kept ks (Dict.remove k d) (Dict.remove-IsDict k d h) in
    (dict, λ q e p. lookup-remove-some k q e d h (kept q e p), omega (arith, length-remove-le k d))

module _ (last : Dict String CacheEntry) where
  get-Within :
      (c : ResponseCache) (now : ℕ) (key : String)
      → IsValid c
      → Within c.store last
      → Within (Cache.get c now key).0.store last
  unfolding Cache.get
  get-Within c now key v w q e = elim (Option-cases (Dict.lookup key c.store)) [
    | inl p ↦ ground (arith, w q e)
    | inr (o, p) ↦ ground (
      arith,
      w q e,
      lookup-to_end q key o c.store v.distinct,
      lookup-remove-some key q e c.store v.distinct,
      string_eq.equal_iff key q,
    )
  ]

  invalidate-Within :
      (c : ResponseCache) (prefix : String)
      → IsValid c
      → Within c.store last
      → Within (Cache.invalidate c prefix).0.store last
  unfolding Cache.invalidate
  invalidate-Within c prefix v w q e p =
      w q e ((pop_all-kept (selected c.store prefix) c.store v.distinct).1 q e p)

pub invalidate-IsValid :
    (c : ResponseCache) (prefix : String) → IsValid c → IsValid (Cache.invalidate c prefix).0
unfolding Cache.invalidate
invalidate-IsValid c prefix v = record {
  distinct = (pop_all-kept (selected c.store prefix) c.store v.distinct).0;
  bounded = omega (arith, (pop_all-kept (selected c.store prefix) c.store v.distinct).2, v.bounded);
}

put-Within :
    (c : ResponseCache) (last : Dict String CacheEntry) (now : ℕ) (key : String) (status : ℕ)
    (headers : Dict String Text) (body : List ℕ)
    → IsValid c
    → Within c.store last
    → Within
        (Cache.put c now key status headers body).store
        (accepted c.enabled c.max_body_bytes (Call.put now key status headers body ∷ []) last)
unfolding Cache.put accepted
put-Within c last now key status headers body v w q e =
    elim (Bool-cases (storable c.enabled c.max_body_bytes status body)) [
      | inl p ↦
          let n : CacheEntry = record {
            status = status;
            headers = headers;
            body = body;
            created = now;
          } in
          rw p λ found. ground (
            arith,
            w q e,
            lookup-drop-some (length (to_end key n c.store) - c.max_entries) q e
                (to_end key n c.store) (to_end-IsDict key n c.store v.distinct)
                (rw evict-drop at found),
            lookup-to_end q key n c.store v.distinct,
            Dict.lookup-insert key q n last,
          )
      | inr p ↦ rw p (w q e)
    ]

-- The settings, the invariant and the store of a cache in the course of a run.
record Tracks (c₀ c : ResponseCache) (last : Dict String CacheEntry) : Type 0 where
  enabled : c.enabled ≡ c₀.enabled
  limit : c.max_body_bytes ≡ c₀.max_body_bytes
  ttl : c.ttl ≡ c₀.ttl
  valid : IsValid c
  within : Within c.store last

get-same :
    (c : ResponseCache) (now : ℕ) (key : String)
    → let c' = (Cache.get c now key).0 in
      (c'.enabled ≡ c.enabled) × (c'.max_body_bytes ≡ c.max_body_bytes) × (c'.ttl ≡ c.ttl)
unfolding Cache.get
get-same c now key = ground arith

get-Tracks :
    (c₀ c : ResponseCache) (last : Dict String CacheEntry) (now : ℕ) (key : String)
    → Tracks c₀ c last
    → Tracks c₀ (Cache.get c now key).0 last
get-Tracks c₀ c last now key t = record {
  enabled = (get-same c now key).0 ∙ t.enabled;
  limit = (get-same c now key).1 ∙ t.limit;
  ttl = (get-same c now key).2 ∙ t.ttl;
  valid = get-IsValid c now key t.valid;
  within = get-Within last c now key t.valid t.within;
}

put-same :
    (c : ResponseCache) (now : ℕ) (key : String) (status : ℕ) (headers : Dict String Text)
    (body : List ℕ)
    → let c' = Cache.put c now key status headers body in
      (c'.enabled ≡ c.enabled) × (c'.max_body_bytes ≡ c.max_body_bytes) × (c'.ttl ≡ c.ttl)
unfolding Cache.put
put-same c now key status headers body = ground arith

put-Tracks :
    (c₀ c : ResponseCache) (last : Dict String CacheEntry) (now : ℕ) (key : String) (status : ℕ)
    (headers : Dict String Text) (body : List ℕ)
    → Tracks c₀ c last
    → Tracks c₀
        (Cache.put c now key status headers body)
        (accepted c₀.enabled c₀.max_body_bytes (Call.put now key status headers body ∷ []) last)
put-Tracks c₀ c last now key status headers body t = record {
  enabled = (put-same c now key status headers body).0 ∙ t.enabled;
  limit = (put-same c now key status headers body).1 ∙ t.limit;
  ttl = (put-same c now key status headers body).2 ∙ t.ttl;
  valid = put-IsValid c now key status headers body t.valid;
  within =
      rw (← t.enabled, ← t.limit) (put-Within c last now key status headers body t.valid t.within);
}

invalidate-Tracks :
    (c₀ c : ResponseCache) (last : Dict String CacheEntry) (prefix : String)
    → Tracks c₀ c last
    → Tracks c₀ (Cache.invalidate c prefix).0 last
unfolding Cache.invalidate
invalidate-Tracks c₀ c last prefix t = record {
  enabled = t.enabled;
  limit = t.limit;
  ttl = t.ttl;
  valid = invalidate-IsValid c prefix t.valid;
  within = invalidate-Within last c prefix t.valid t.within;
}

run-Tracks :
    (calls : List Call) (c₀ c : ResponseCache) (last : Dict String CacheEntry)
    → Tracks c₀ c last
    → Tracks c₀ (run calls c) (accepted c₀.enabled c₀.max_body_bytes calls last)
unfolding run accepted
run-Tracks [] c₀ c last t = t
run-Tracks (Call.get now key ∷ calls) c₀ c last t =
    run-Tracks calls c₀ (Cache.get c now key).0 last (get-Tracks c₀ c last now key t)
run-Tracks (Call.put now key status headers body ∷ calls) c₀ c last t =
    run-Tracks calls c₀ (Cache.put c now key status headers body) _
      (put-Tracks c₀ c last now key status headers body t)
run-Tracks (Call.invalidate prefix ∷ calls) c₀ c last t =
    run-Tracks calls c₀ (Cache.invalidate c prefix).0 last (invalidate-Tracks c₀ c last prefix t)

get_hit :
    (c : ResponseCache) (now : ℕ) (key : String) (status : ℕ) (headers : Dict String Text)
    (body : List ℕ)
    → (Cache.get c now key).1 ≡ some (status, headers, body)
    → (e : CacheEntry) × (Dict.lookup key c.store ≡ some e)
      × (e.status ≡ status)
      × (e.headers ≡ headers)
      × (e.body ≡ body)
      × (now ≤ e.created + c.ttl)
unfolding Cache.get
get_hit c now key status headers body h = elim (Option-cases (Dict.lookup key c.store)) [
  | inl p ↦ absurd (ground arith)
  | inr (e, p) ↦ (e, p, ground arith, ground arith, ground arith, ground arith)
]

-- From an empty cache, after any calls, no key stands twice and the bound on the entries holds; and
-- whatever a lookup then returns is the response that was accepted last for that key, no older than
-- the time to live.
pub run-returns_accepted :
    (enabled : Bool) (ttl max_entries max_body_bytes : ℕ) (calls : List Call) (now : ℕ)
    (key : String) (status : ℕ) (headers : Dict String Text) (body : List ℕ)
    → (Cache.get (run calls (init enabled ttl max_entries max_body_bytes)) now key).1
      ≡ some (status, headers, body)
    → IsValid (run calls (init enabled ttl max_entries max_body_bytes))
      × ((e : CacheEntry) × (Dict.lookup key (accepted enabled max_body_bytes calls []) ≡ some e)
          × (e.status ≡ status)
          × (e.headers ≡ headers)
          × (e.body ≡ body)
          × (now ≤ e.created + ttl))
unfolding init Dict.lookup
run-returns_accepted enabled ttl max_entries max_body_bytes calls now key status headers body hit =
    let c₀ = init enabled ttl max_entries max_body_bytes in
    let c = run calls c₀ in
    let t = run-Tracks calls c₀ c₀ [] (record {
      enabled = refl;
      limit = refl;
      ttl = refl;
      valid = init-IsValid enabled ttl max_entries max_body_bytes;
      within = λ q e p. p;
    }) in
    let (e, found, s, h, b, fresh) = get_hit c now key status headers body hit in
    (t.valid, (e, t.within key e found, s, h, b, rw t.ttl at fresh))
