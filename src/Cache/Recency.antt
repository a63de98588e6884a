-- ===== src/Cache/Recency.antt =====
-- The order of the response cache, against the log of all its uses: what is evicted is the entry
-- whose last use is the longest ago.
use inter_gate.Base.{
  ℕ, zero, suc, ◌+◌, ◌-◌, ◌<◌, String, ◌≡◌, ◌≢◌, refl, inl, inr, Bool, false, none, some, List, [],
  ◌∷◌, ◌++◌, arith, ◌==◌, string_eq, eq→path, eq_ne, eq_refl, if◌then◌else◌, length, drop, All, sym,
  ap, ◌∙◌, Option-cases, Bool-cases, ltb,
}
use inter_gate.Base.Text.{Text}
use inter_gate.Base.Dict
use inter_gate.Base.Dict.{Dict}
use inter_gate.Cache
use inter_gate.Cache.{CacheEntry, ResponseCache, to_end, evict, storable, pop_all, init, selected}
use inter_gate.Cache.Laws.{IsValid, evict-drop, get-IsValid, put-IsValid, init-IsValid}
use inter_gate.Cache.History.{Call, run, lookup-to_end, invalidate-IsValid}

-- The number of uses since the key was used last, in a log with the latest use in front; the length
-- of the log, where the key was never used.
unfoldable pub uses_since : String → List String → ℕ
uses_since key [] = 0
uses_since key (k ∷ log) = let n = uses_since key log in if k == key then 0 else suc n

-- The keys of the calls that use an entry, the latest in front: a `put` of a response that is
-- accepted, and a `get` that returns one.
unfoldable pub uses : List Call → ResponseCache → List String → List String
uses [] c log = log
uses (Call.get now key ∷ calls) c log =
    let (c', hit) = Cache.get c now key in
    uses calls c' (elim hit [ none ↦ log | some _ ↦ key ∷ log ])
uses (Call.put now key status headers body ∷ calls) c log =
    uses calls (Cache.put c now key status headers body)
      (if storable c.enabled c.max_body_bytes status body then key ∷ log else log)
uses (Call.invalidate prefix ∷ calls) c log = uses calls (Cache.invalidate c prefix).0 log

-- The last use of each entry is longer ago than that of every entry behind it.
abbrev IsOrdered : List String → Dict String CacheEntry → Type 0
IsOrdered log [] = Unit
IsOrdered log ((k, e) ∷ d) =
    All (λ (x : String × CacheEntry). uses_since x.0 log < uses_since k log) d × IsOrdered log d

-- No entry is the key's.
abbrev IsFree : String → Dict String CacheEntry → Type 0
IsFree key d = All (λ (x : String × CacheEntry). (key == x.0) ≡ false) d

remove-All :
    (P : String × CacheEntry → Type 0) (key : String) (d : Dict String CacheEntry)
    → All P d
    → All P (Dict.remove key d)
unfolding Dict.remove
remove-All P key [] h = tt
remove-All P key ((i, w) ∷ d) h = elim (Bool-cases (i == key)) [
  | inl e ↦ rw e (h.1)
  | inr e ↦ rw e (h.0, remove-All P key d h.1)
]

remove-IsOrdered :
    (log : List String) (key : String) (d : Dict String CacheEntry)
    → IsOrdered log d
    → IsOrdered log (Dict.remove key d)
unfolding Dict.remove
remove-IsOrdered log key [] h = tt
remove-IsOrdered log key ((i, w) ∷ d) h = elim (Bool-cases (i == key)) [
  | inl e ↦ rw e (h.1)
  | inr e ↦ rw e (remove-All _ key d h.0, remove-IsOrdered log key d h.1)
]

pop_all-IsOrdered :
    (log : List String) (keys : List String) (d : Dict String CacheEntry)
    → IsOrdered log d
    → IsOrdered log (pop_all keys d)
unfolding pop_all
pop_all-IsOrdered log [] d h = h
pop_all-IsOrdered log (k ∷ keys) d h =
    pop_all-IsOrdered log keys (Dict.remove k d) (remove-IsOrdered log k d h)

drop-IsOrdered :
    (log : List String) (n : ℕ) (d : Dict String CacheEntry)
    → IsOrdered log d
    → IsOrdered log (drop n d)
drop-IsOrdered log zero d h = h
drop-IsOrdered log (suc n) [] h = h
drop-IsOrdered log (suc n) (x ∷ d) h = drop-IsOrdered log n d h.1

lookup-none-IsFree :
    (key : String) (d : Dict String CacheEntry) → Dict.lookup key d ≡ none → IsFree key d
unfolding Dict.lookup
lookup-none-IsFree key [] h = tt
lookup-none-IsFree key ((i, w) ∷ d) h =
    ground (arith, lookup-none-IsFree key d, string_eq.equal_iff i key, string_eq.equal_iff key i)

-- A use of a key that the entries do not have leaves their order, and it is the latest.
newest :
    (log : List String) (key k : String) (e : CacheEntry) (d : Dict String CacheEntry)
    → (key == k) ≡ false
    → IsFree key d
    → All (λ (x : String × CacheEntry). uses_since x.0 log < uses_since k log) d
    → All
        (λ (x : String × CacheEntry). uses_since x.0 (key ∷ log) < uses_since k (key ∷ log))
        (d ++ (key, e) ∷ [])
unfolding uses_since
newest log key k e [] n f h = (rw (n, eq_refl key) (omega arith), tt)
newest log key k e ((i, w) ∷ d) n f h =
    (rw (n, f.0) (omega (arith, h.0)), newest log key k e d n f.1 h.1)

append-IsOrdered :
    (log : List String) (key : String) (e : CacheEntry) (d : Dict String CacheEntry)
    → IsFree key d
    → IsOrdered log d
    → IsOrdered (key ∷ log) (d ++ (key, e) ∷ [])
append-IsOrdered log key e [] f h = (tt, tt)
append-IsOrdered log key e ((k, w) ∷ d) f h =
    (newest log key k e d f.0 f.1 h.0, append-IsOrdered log key e d f.1 h.1)

to_end-IsOrdered :
    (log : List String) (key : String) (e : CacheEntry) (d : Dict String CacheEntry)
    → Dict.IsDict d
    → IsOrdered log d
    → IsOrdered (key ∷ log) (to_end key e d)
to_end-IsOrdered log key e d v h =
    append-IsOrdered log key e (Dict.remove key d)
      (lookup-none-IsFree key (Dict.remove key d) (Dict.lookup-remove_self key d v))
      (remove-IsOrdered log key d h)

-- The log behind a call.
get-IsOrdered :
    (c : ResponseCache) (now : ℕ) (key : String) (log : List String)
    → IsValid c
    → IsOrdered log c.store
    → IsOrdered
        (elim (Cache.get c now key).1 [ none ↦ log | some _ ↦ key ∷ log ])
        (Cache.get c now key).0.store
unfolding Cache.get
get-IsOrdered c now key log v h = elim (Bool-cases c.enabled) [
  | inr off ↦ rw (Cache.get, off) h
  | inl on ↦ elim (Option-cases (Dict.lookup key c.store)) [
    | inl p ↦ rw (Cache.get, on, p) h
    | inr (e, p) ↦ elim (Bool-cases (ltb (e.created + c.ttl) now)) [
      | inl old ↦ rw (Cache.get, on, p, old) (remove-IsOrdered log key c.store h)
      | inr young ↦ rw (Cache.get, on, p, young) (to_end-IsOrdered log key e c.store v.distinct h)
    ]
  ]
]

put-IsOrdered :
    (c : ResponseCache) (now : ℕ) (key : String) (status : ℕ) (headers : Dict String Text)
    (body : List ℕ) (log : List String)
    → IsValid c
    → IsOrdered log c.store
    → IsOrdered
        (if storable c.enabled c.max_body_bytes status body then key ∷ log else log)
        (Cache.put c now key status headers body).store
unfolding Cache.put
put-IsOrdered c now key status headers body log v h =
    let e : CacheEntry = record {
      status = status;
      headers = headers;
      body = body;
      created = now;
    } in
    let all = to_end key e c.store in
    elim (Bool-cases (storable c.enabled c.max_body_bytes status body)) [
      | inl p ↦
          rw (Cache.put, p, evict-drop c.max_entries all)
            (drop-IsOrdered (key ∷ log) (length all - c.max_entries) all
              (to_end-IsOrdered log key e c.store v.distinct h))
      | inr p ↦ rw (Cache.put, p) h
    ]

invalidate-IsOrdered :
    (c : ResponseCache) (prefix : String) (log : List String)
    → IsOrdered log c.store
    → IsOrdered log (Cache.invalidate c prefix).0.store
unfolding Cache.invalidate
invalidate-IsOrdered c prefix log h = pop_all-IsOrdered log (selected c.store prefix) c.store h

run-IsOrdered :
    (calls : List Call) (c : ResponseCache) (log : List String)
    → IsValid c
    → IsOrdered log c.store
    → IsValid (run calls c) × IsOrdered (uses calls c log) (run calls c).store
unfolding run uses
run-IsOrdered [] c log v h = (v, h)
run-IsOrdered (Call.get now key ∷ calls) c log v h =
    run-IsOrdered calls (Cache.get c now key).0 _ (get-IsValid c now key v)
      (get-IsOrdered c now key log v h)
run-IsOrdered (Call.put now key status headers body ∷ calls) c log v h =
    run-IsOrdered calls (Cache.put c now key status headers body) _
      (put-IsValid c now key status headers body v)
      (put-IsOrdered c now key status headers body log v h)
run-IsOrdered (Call.invalidate prefix ∷ calls) c log v h =
    run-IsOrdered calls (Cache.invalidate c prefix).0 log (invalidate-IsValid c prefix v)
      (invalidate-IsOrdered c prefix log h)

init-IsOrdered : (enabled : Bool) (ttl n b : ℕ) → IsOrdered [] (init enabled ttl n b).store
unfolding init
init-IsOrdered enabled ttl n b = tt

below-lookup :
    (log : List String) (m n : ℕ) (j : String) (e : CacheEntry) (d : Dict String CacheEntry)
    → All (λ (x : String × CacheEntry). uses_since x.0 log < m) d
    → Dict.lookup j (drop n d) ≡ some e
    → uses_since j log < m
unfolding Dict.lookup
below-lookup log m zero j e [] h p = cc
below-lookup log m (suc n) j e [] h p = cc
below-lookup log m zero j e ((i, w) ∷ d) h p = elim (Bool-cases (i == j)) [
  | inl q ↦ rw (← eq→path i j q) (h.0)
  | inr q ↦ below-lookup log m zero j e d h.1 (rw q at p)
]
below-lookup log m (suc n) j e ((i, w) ∷ d) h p = below-lookup log m n j e d h.1 p

-- What is dropped from the front was used before what is left.
dropped-earlier :
    (log : List String) (n : ℕ) (old kept : String) (e e' : CacheEntry) (d : Dict String CacheEntry)
    → IsOrdered log d
    → Dict.lookup old d ≡ some e
    → Dict.lookup old (drop n d) ≡ none
    → Dict.lookup kept (drop n d) ≡ some e'
    → uses_since kept log < uses_since old log
unfolding Dict.lookup
dropped-earlier log zero old kept e e' d h p gone q = cc
dropped-earlier log (suc n) old kept e e' [] h p gone q = cc
dropped-earlier log (suc n) old kept e e' ((i, w) ∷ d) h p gone q = elim (Bool-cases (i == old)) [
  | inl s ↦ rw (← eq→path i old s) (below-lookup log (uses_since i log) n kept e' d h.0 q)
  | inr s ↦ dropped-earlier log n old kept e e' d h.1 (rw s at p) gone q
]

uses_since-other :
    (log : List String) (key k : String)
    → key ≢ k
    → uses_since k (key ∷ log) ≡ suc (uses_since k log)
unfolding uses_since
uses_since-other log key k n = rw (eq_ne key k n) refl

put-drops_oldest :
    (c : ResponseCache) (log : List String) (now : ℕ) (key : String) (status : ℕ)
    (headers : Dict String Text) (body : List ℕ) (old kept : String) (e e' : CacheEntry)
    → IsValid c
    → IsOrdered log c.store
    → key ≢ old
    → key ≢ kept
    → Dict.lookup old c.store ≡ some e
    → Dict.lookup old (Cache.put c now key status headers body).store ≡ none
    → Dict.lookup kept (Cache.put c now key status headers body).store ≡ some e'
    → uses_since kept log < uses_since old log
unfolding Cache.put
put-drops_oldest c log now key status headers body old kept e e' v h n n' held gone left =
    let new : CacheEntry = record {
      status = status;
      headers = headers;
      body = body;
      created = now;
    } in
    let all = to_end key new c.store in
    elim (Bool-cases (storable c.enabled c.max_body_bytes status body)) [
      | inr p ↦
          let same : Dict.lookup old c.store ≡ none = rw (Cache.put, p) at gone in
          absurd (none_some (sym same ∙ held))
      | inl p ↦
          let after : (Cache.put c now key status headers body).store
              ≡ drop (length all - c.max_entries) all =
            rw (Cache.put, p, evict-drop c.max_entries all) refl in
          let there : Dict.lookup old all ≡ some e =
            lookup-to_end old key new c.store v.distinct ∙ rw (eq_ne key old n) held in
          let earlier =
            dropped-earlier (key ∷ log) (length all - c.max_entries) old kept e e' all
              (to_end-IsOrdered log key new c.store v.distinct h) there
              (ap (Dict.lookup old) (sym after) ∙ gone)
              (ap (Dict.lookup kept) (sym after) ∙ left) in
          omega (arith, earlier, uses_since-other log key old n, uses_since-other log key kept n')
    ]
  where
    none_some : {x : CacheEntry} → none ≡ some x → ⊥
    none_some q = cc

-- Whatever calls came before on a new cache, if a `put` drops an entry of another key, then this
-- key was used before every other key whose entry is left: its last use, an accepted `put` or a
-- `get` that returned the entry, is longer ago.
pub put-evicts_oldest :
    (enabled : Bool) (ttl max_entries max_body_bytes : ℕ) (calls : List Call) (now : ℕ)
    (key : String) (status : ℕ) (headers : Dict String Text) (body : List ℕ) (old kept : String)
    (e e' : CacheEntry)
    → let start = init enabled ttl max_entries max_body_bytes in
      let c = run calls start in
      let after = Cache.put c now key status headers body in
      key ≢ old
      → key ≢ kept
      → Dict.lookup old c.store ≡ some e
      → Dict.lookup old after.store ≡ none
      → Dict.lookup kept after.store ≡ some e'
      → uses_since kept (uses calls start []) < uses_since old (uses calls start [])
put-evicts_oldest enabled ttl m b calls now key status headers body old kept e e' n n' held gone
      left =
    let start = init enabled ttl m b in
    let (v, h) =
      run-IsOrdered calls start [] (init-IsValid enabled ttl m b)
        (init-IsOrdered enabled ttl m b) in
    put-drops_oldest (run calls start) (uses calls start []) now key status headers body old kept e
      e' v h n n' held gone left
