-- ===== src/Gateway.antt =====
-- `gateway.py`: who may call, which keys a request may use, how a failure is classified, and the
-- URL of the upstream. The bodies of the failover loop are in the child modules.
pub mod Grants
pub mod Body
pub mod Forwarded
pub mod Upstream
pub mod Failover
pub mod Attempts
pub mod Settled
pub mod Origin
pub mod Replies
pub mod Query
pub mod Server
pub mod Handle
pub mod Handled
pub mod Forbidden
pub mod Replayed
use inter_gate.Base.{
  ℕ, ◌+◌, ◌-◌, String, ◌≡◌, Bool, true, false, not, ◌&&◌, ◌||◌, Option, none, some, List, [], ◌∷◌,
  ◌++◌, ◌==◌, nat_eq, string_eq, list_eq, ltb, leb, if◌then◌else◌, filter, any, contains, take,
  drop, length,
}
use inter_gate.Base.Text.{
  Text, codes, lower, starts_with, contains_text, strip, rstrip, before, after,
}
use inter_gate.Base.Dict
use inter_gate.Base.Dict.{Dict}
use inter_gate.Constants.{quota_exhausted_keywords}
use inter_gate.Keys.ApiKey.{ApiKey, KeyStatus, Now, Metadata, status_eq}
use inter_gate.Keys.Manager.{KeyManager, Category, list_all, list_active}
use inter_gate.Store
use inter_gate.Store.{Database, Route}
use inter_gate.Providers.{candidate_providers, no_slash}

-- What the gateway reads of a request: its headers under their names in lower case.
pub record Request : Type 0 where
  pub method : String
  pub headers : Dict String Text

abbrev pub header : Request → String → Text
header r name = Dict.lookup_or name [] r.headers

pub record Permission : Type 0 where
  pub permission : String
  pub name : Text
  pub models : List String

-- An entry of the setting `gateway_keys`.
pub record GatewayKey : Type 0 where
  pub key : Text
  pub enabled : Bool
  pub permission : String
  pub name : Text
  pub models : List String

-- The settings and the cached list that `_authorize` reads.
pub record Access : Type 0 where
  pub gateway_key : Text
  pub gateway_key_enabled : Bool
  pub gkeys_cache : Option (List GatewayKey)
  pub gkeys_ts : ℕ

unfoldable pub presented : Request → Text
presented r =
    let auth = header r "authorization" in
    if starts_with (lower auth) (codes "bearer ")
    then strip (drop 7 auth)
    else if not (header r "x-api-key" == [])
    then header r "x-api-key"
    else header r "x-gateway-key"

abbrev pub full : Text → Permission
full name = record { permission = "full"; name = name; models = [] }

-- The loop over the additional keys.
unfoldable pub extra_permission : Text → List GatewayKey → Option Permission
extra_permission key [] = none
extra_permission key (g ∷ rest) =
    let later = extra_permission key rest in
    if g.enabled && (not (key == []) && (key == g.key))
    then some (record { permission = g.permission; name = g.name; models = g.models })
    else later

-- The list of the additional keys, read again after five seconds; times in milliseconds.
unfoldable pub refresh : Access → ℕ → List GatewayKey → Access × List GatewayKey
refresh a now stored = elim a.gkeys_cache [
  | none ↦ (record a { gkeys_cache = some stored; gkeys_ts = now }, stored)
  | some keys ↦
      if ltb (a.gkeys_ts + 5000) now
      then (record a { gkeys_cache = some stored; gkeys_ts = now }, stored)
      else (a, keys)
]

-- `_authorize` at the time `now`, with what the database has under `gateway_keys`.
unfoldable pub authorize : Access → ℕ → List GatewayKey → Request → Access × Option Permission
unfolding presented extra_permission refresh
authorize a now stored r =
    let key = presented r in
    let (a', keys) = refresh a now stored in
    let extra = extra_permission key keys in
    if not a.gateway_key_enabled
    then (a, some (full []))
    else if (a.gateway_key == []) && (key == [])
    then (a, some (full []))
    else if not (a.gateway_key == []) && (not (key == []) && (key == a.gateway_key))
    then (a, some (full (codes "主Key")))
    else (a', extra)

-- `invalidate_gateway_keys`
unfoldable pub invalidate_gateway_keys : Access → Access
invalidate_gateway_keys a = record a { gkeys_cache = none; gkeys_ts = 0 }

-- Whether `_permission_error` refuses.
unfoldable pub denied : Permission → Option String → String → Bool
denied p model method =
    if (p.permission == "readonly") && not (contains ("GET" ∷ "HEAD" ∷ "OPTIONS" ∷ []) method)
    then true
    else elim model [
      | none ↦ false
      | some m ↦ not (length p.models == 0) && (not (m == "") && not (contains p.models m))
    ]

-- `_classify_status` of the decoded body.
unfoldable pub classify_status : ℕ → Text → Category
classify_status status body =
    if status == 429
    then Category.tpm
    else if any (λ kw. contains_text (lower body) (codes kw)) quota_exhausted_keywords
    then Category.quota
    else if contains (401 ∷ 403 ∷ []) status
    then Category.auth
    else Category.upstream

abbrev pub is_active : ApiKey → Bool
is_active k = status_eq k.status KeyStatus.active

-- `_route_keys_for`
unfoldable pub route_keys_for : KeyManager → Option String → Option (List ApiKey)
route_keys_for m none = none
route_keys_for m (some model) = elim (Dict.lookup model (Store.get_routes m.db)) [
  | none ↦ none
  | some rule ↦
      let active = filter (λ k. is_active k && contains rule.key_ids k.id) (list_all m) in
      if not (model == "") && rule.enabled
      then (elim active [ [] ↦ none | k ∷ ks ↦ some (k ∷ ks) ])
      else none
]

module _ (json_dumps : Metadata → String) where
  -- The keys of the candidate providers, in their order.
  unfoldable pub collect : KeyManager → Now → List String → KeyManager × List ApiKey
  collect m now [] = (m, [])
  collect m now (p ∷ ps) =
      let (m₁, found) = list_active json_dumps m now (some p) true in
      let (m₂, rest) = collect m₁ now ps in (m₂, found ++ rest)

  -- The keys of an entry of the synced models that can be used.
  abbrev pub source_keys : KeyManager → Option (List String) → List ApiKey
  source_keys m none = []
  source_keys m (some ids) = filter (λ k. contains ids k.id && is_active k) (list_all m)

  -- The part of `_pick_keys` behind the entry of the model.
  unfoldable pub pick_default :
      KeyManager → Now → String → Text → Option String → KeyManager × List ApiKey
  unfolding collect route_keys_for
  pick_default m now provider path model = elim (route_keys_for m model) [
    | some ks ↦ (m, ks)
    | none ↦ collect m now (candidate_providers provider path)
  ]

  -- `_pick_keys`; `forced` is the header `x-relay-key`, and `entry` the `source_keys` of the entry
  -- that the public name of the model names.
  unfoldable pub pick_keys :
      KeyManager
      → Now
      → String
      → Text
      → Text
      → Option String
      → Option (List String)
      → KeyManager × List ApiKey
  unfolding pick_default
  pick_keys m now provider path forced model entry =
      let default = pick_default m now provider path model in
      if not (forced == [])
      then (
        m,
        filter is_active
            (filter (λ k. (codes k.id == forced) || (codes k.name == forced)) (list_all m)),
      )
      else (elim (source_keys m entry) [ [] ↦ default | k ∷ ks ↦ (m, k ∷ ks) ])

-- What stands behind the last slash, and what stands up to it.
abbrev pub tail_from : Text → Text → Text
tail_from acc [] = acc
tail_from acc (c ∷ s) = if c == b'/' then tail_from [] s else tail_from (acc ++ c ∷ []) s

abbrev pub last_part : Text → Text
last_part base = tail_from [] base

-- `_join_base_and_path`
unfoldable pub join_base_and_path : Text → Text → Text
join_base_and_path base path =
    let b = no_slash base in
    let p = if starts_with path (codes "/") then path else b'/' ∷ path in
    let p_path = before b'?' p in
    let p_query = after b'?' p in
    let p_head = before b'/' (after b'/' p_path) in
    let tail = last_part b in
    let b' =
      if not (tail == []) && (tail == p_head) then no_slash (drop_end (length tail) b) else b in
    b' ++ (p_path ++ (if not (p_query == []) then b'?' ∷ p_query else []))
  where
    drop_end : ℕ → Text → Text
    drop_end n s = take (length s - n) s
