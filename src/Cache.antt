-- ===== src/Cache.antt =====
-- `services/cache.py`: the response cache, an ordered dict with the least recently used entry in
-- front. Times are readings of one clock, and `ttl` is in its unit. SHA-256 is a parameter.
pub mod Laws
pub mod History
pub mod Recency
use inter_gate.Base.{
  ℕ, ◌+◌, ◌≤◌, ◌<◌, String, ◌≡◌, Bool, true, false, ◌&&◌, Option, none, some, List, [], ◌∷◌, ◌++◌,
  map, arith, ◌==◌, string_eq, ltb, leb, if◌then◌else◌, length, filter,
}
use inter_gate.Base.Text.{Text, codes, starts_with}
use inter_gate.Base.Dict
use inter_gate.Base.Dict.{Dict}

pub record CacheEntry : Type 0 where
  pub status : ℕ
  pub headers : Dict String Text
  pub body : List ℕ
  pub created : ℕ

pub record ResponseCache : Type 0 where
  pub enabled : Bool
  pub ttl : ℕ
  pub max_entries : ℕ
  pub max_body_bytes : ℕ
  pub store : Dict String CacheEntry
  pub hits : ℕ
  pub misses : ℕ

-- `__init__`, of settings that are not negative. With a negative number of entries, which the
-- console lets through, the first `put` raises at `popitem`; with a negative time to live an entry
-- is never fresh.
unfoldable pub init : Bool → ℕ → ℕ → ℕ → ResponseCache
init enabled ttl max_entries max_body_bytes = record {
  enabled = enabled;
  ttl = ttl;
  max_entries = max_entries;
  max_body_bytes = max_body_bytes;
  store = [];
  hits = 0;
  misses = 0;
}

-- `make_key`, of the bytes of the method and the path.
unfoldable pub make_key : (List ℕ → String) → List ℕ → List ℕ → List ℕ → String
make_key sha256 method path body = sha256 (method ++ (0 ∷ (path ++ (0 ∷ body))))

-- `d.move_to_end(k)` of the entry `e`.
abbrev pub to_end : String → CacheEntry → Dict String CacheEntry → Dict String CacheEntry
to_end key e store = Dict.remove key store ++ (key, e) ∷ []

abbrev pub miss : ResponseCache → ResponseCache
miss c = record c { misses = c.misses + 1 }

unfoldable pub get :
    ResponseCache → ℕ → String → ResponseCache × Option (ℕ × Dict String Text × List ℕ)
get c now key =
    if c.enabled
    then (elim (Dict.lookup key c.store) [
      | none ↦ (miss c, none)
      | some e ↦
          if ltb (e.created + c.ttl) now
          then (miss (record c { store = Dict.remove key c.store }), none)
          else (
            record c { store = to_end key e c.store; hits = c.hits + 1 },
            some (e.status, e.headers, e.body),
          )
    ])
    else (miss c, none)

-- `while len(store) > max_entries: store.popitem(last=False)`
unfoldable pub evict : ℕ → Dict String CacheEntry → Dict String CacheEntry
evict max_entries [] = []
evict max_entries (e ∷ rest) =
    let smaller = evict max_entries rest in
    if ltb max_entries (length (e ∷ rest)) then smaller else e ∷ rest

-- What `put` refuses to store.
abbrev pub storable : Bool → ℕ → ℕ → List ℕ → Bool
storable enabled max_body_bytes status body =
    if enabled
    then (if ltb status 200
        then false
        else if leb 300 status
        then false
        else leb (length body) max_body_bytes)
    else false

unfoldable pub put : ResponseCache → ℕ → String → ℕ → Dict String Text → List ℕ → ResponseCache
unfolding evict
put c now key status headers body =
    if storable c.enabled c.max_body_bytes status body
    then (let e : CacheEntry = record {
      status = status;
      headers = headers;
      body = body;
      created = now;
    } in
        record c { store = evict c.max_entries (to_end key e c.store) })
    else c

-- `for k in keys: store.pop(k, None)`
unfoldable pub pop_all : List String → Dict String CacheEntry → Dict String CacheEntry
pop_all [] store = store
pop_all (k ∷ ks) store = pop_all ks (Dict.remove k store)

-- The keys that `invalidate` takes out.
abbrev pub selected : Dict String CacheEntry → String → List String
selected store prefix =
    let all = map (λ (e : String × CacheEntry). e.0) store in
    if prefix == "" then all else filter (λ (k : String). starts_with (codes k) (codes prefix)) all

unfoldable pub invalidate : ResponseCache → String → ResponseCache × ℕ
unfolding pop_all
invalidate c prefix =
    let keys = selected c.store prefix in (record c { store = pop_all keys c.store }, length keys)
