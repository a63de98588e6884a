-- ===== src/Cache/Laws.antt =====
-- The response cache against what it promises: its bound, what a hit returns and what is evicted.
use inter_gate.Base.{
  ℕ, zero, suc, ◌+◌, ◌-◌, ◌≤◌, ◌<◌, String, ◌≡◌, refl, Bool, true, none, some, List, [], ◌∷◌, ◌++◌,
  arith, string_eq, ltb, length, drop, length-append, length-drop, Option-cases, inl, inr, eq_refl,
  Bool-cases,
}
use inter_gate.Base.Text.{Text}
use inter_gate.Base.Dict
use inter_gate.Base.Dict.{Dict}
use inter_gate.Cache
use inter_gate.Cache.{CacheEntry, ResponseCache, to_end, evict, storable, pop_all, init}

-- No key twice, and no more entries than the bound.
pub record IsValid (c : ResponseCache) : Type 0 where
  pub distinct : Dict.IsDict c.store
  pub bounded : length c.store ≤ c.max_entries

append-IsDict :
    (d : Dict String CacheEntry) (key : String) (e : CacheEntry)
    → Dict.IsDict d
    → Dict.lookup key d ≡ none
    → Dict.IsDict (d ++ (key, e) ∷ [])
unfolding Dict.lookup
append-IsDict [] key e h n = (refl, tt)
append-IsDict ((i, w) ∷ d) key e h n = ground (
  arith,
  append-IsDict d key e h.1,
  Dict.lookup-append i d ((key, e) ∷ []),
  string_eq.equal_iff i key,
  string_eq.equal_iff key i,
)

pub to_end-IsDict :
    (key : String) (e : CacheEntry) (d : Dict String CacheEntry)
    → Dict.IsDict d
    → Dict.IsDict (to_end key e d)
to_end-IsDict key e d h =
    append-IsDict (Dict.remove key d) key e (Dict.remove-IsDict key d h)
      (Dict.lookup-remove_self key d h)

-- What is evicted is the front, as far as the bound asks.
pub evict-drop : (n : ℕ) (d : Dict String CacheEntry) → evict n d ≡ drop (length d - n) d
unfolding evict
evict-drop n [] = let z : 0 - n ≡ 0 = omega arith in rw z refl
evict-drop n (e ∷ rest) = elim (Bool-cases (ltb n (length (e ∷ rest)))) [
  | inl p ↦
      let s : suc (length rest) - n ≡ suc (length rest - n) = ground arith in
      rw (p, s) (evict-drop n rest)
  | inr p ↦ let s : suc (length rest) - n ≡ 0 = ground arith in rw (p, s) refl
]

pub drop-IsDict : (n : ℕ) (d : Dict String CacheEntry) → Dict.IsDict d → Dict.IsDict (drop n d)
drop-IsDict zero d h = h
drop-IsDict (suc n) [] h = h
drop-IsDict (suc n) (e ∷ d) h = drop-IsDict n d h.1

drop-append_short :
    (n : ℕ) (d : Dict String CacheEntry) (key : String) (e : CacheEntry)
    → n ≤ length d
    → drop n (d ++ (key, e) ∷ []) ≡ drop n d ++ (key, e) ∷ []
drop-append_short zero d key e h = refl
drop-append_short (suc n) [] key e h = absurd (omega arith)
drop-append_short (suc n) (x ∷ d) key e h = drop-append_short n d key e (omega arith)

lookup-drop-none :
    (n : ℕ) (key : String) (d : Dict String CacheEntry)
    → Dict.lookup key d ≡ none
    → Dict.lookup key (drop n d) ≡ none
unfolding Dict.lookup
lookup-drop-none zero key d h = h
lookup-drop-none (suc n) key [] h = h
lookup-drop-none (suc n) key ((i, w) ∷ d) h = lookup-drop-none n key d (ground arith)

-- A lookup of the key that was moved to the end, whatever was evicted.
lookup-evict_end :
    (n : ℕ) (key : String) (e : CacheEntry) (d : Dict String CacheEntry)
    → Dict.IsDict d
    → 0 < n
    → Dict.lookup key (evict n (to_end key e d)) ≡ some e
unfolding Dict.lookup
lookup-evict_end n key e d h pos =
    let r = Dict.remove key d in
    let k = length (to_end key e d) - n in
    let short : k ≤ length r = omega (arith, length-append r ((key, e) ∷ [])) in
    rw
      (
        evict-drop,
        drop-append_short k r key e short,
        Dict.lookup-append key (drop k r) ((key, e) ∷ []),
        lookup-drop-none k key r (Dict.lookup-remove_self key d h),
        Dict.lookup,
        eq_refl key,
      )
      refl

length-to_end :
    (key : String) (e : CacheEntry) (d : Dict String CacheEntry) {w : CacheEntry}
    → Dict.lookup key d ≡ some w
    → length (to_end key e d) ≡ length d
length-to_end key e d {w} h =
    omega
      (arith, length-append (Dict.remove key d) ((key, e) ∷ []), Dict.length-remove-some key w d h)

pub length-remove-le :
    (key : String) (d : Dict String CacheEntry) → length (Dict.remove key d) ≤ length d
length-remove-le key d = elim (Option-cases (Dict.lookup key d)) [
  | inl p ↦ rw (Dict.remove_absent key d p) (omega arith)
  | inr (w, p) ↦ omega (arith, Dict.length-remove-some key w d p)
]

length-evict-le : (n : ℕ) (d : Dict String CacheEntry) → length (evict n d) ≤ n
length-evict-le n d = rw evict-drop (omega (arith, length-drop (length d - n) d))

pub init-IsValid : (enabled : Bool) (ttl n b : ℕ) → IsValid (init enabled ttl n b)
unfolding init
init-IsValid enabled ttl n b = record { distinct = tt; bounded = omega arith }

pub get-IsValid :
    (c : ResponseCache) (now : ℕ) (key : String) → IsValid c → IsValid (Cache.get c now key).0
unfolding Cache.get
get-IsValid c now key v = elim (Option-cases (Dict.lookup key c.store)) [
  | inl p ↦ ground arith
  | inr (e, p) ↦ ground (
    arith,
    to_end-IsDict key e c.store v.distinct,
    length-to_end key e c.store p,
    Dict.remove-IsDict key c.store v.distinct,
    length-remove-le key c.store,
  )
]

pub put-IsValid :
    (c : ResponseCache) (now : ℕ) (key : String) (status : ℕ) (headers : Dict String Text)
    (body : List ℕ)
    → IsValid c
    → IsValid (Cache.put c now key status headers body)
unfolding Cache.put
put-IsValid c now key status headers body v =
    elim (Bool-cases (storable c.enabled c.max_body_bytes status body)) [
      | inl p ↦
          let e : CacheEntry = record {
            status = status;
            headers = headers;
            body = body;
            created = now;
          } in
          rw p (record {
            distinct =
                rw evict-drop
                  (drop-IsDict _ (to_end key e c.store) (to_end-IsDict key e c.store v.distinct));
            bounded = length-evict-le c.max_entries (to_end key e c.store);
          })
      | inr p ↦ rw p v
    ]

-- A response that the cache accepts is what a lookup of its key returns, for as long as the time to
-- live, if the cache can hold an entry at all.
pub put-get :
    (c : ResponseCache) (now later : ℕ) (key : String) (status : ℕ) (headers : Dict String Text)
    (body : List ℕ)
    → IsValid c
    → 0 < c.max_entries
    → storable c.enabled c.max_body_bytes status body ≡ true
    → later ≤ now + c.ttl
    → (Cache.get (Cache.put c now key status headers body) later key).1
      ≡ some (status, headers, body)
unfolding Cache.put Cache.get
put-get c now later key status headers body v pos ok fresh =
    let e : CacheEntry = record {
      status = status;
      headers = headers;
      body = body;
      created = now;
    } in
    ground (arith, lookup-evict_end c.max_entries key e c.store v.distinct pos)
