-- ===== src/Web/Keys.antt =====
-- `webapp.py`: the handlers that change keys, on the key manager and the list of models, and the
-- one that replaces the additional keys of the gateway.
use inter_gate.Base.{
  String, not, Option, none, some, List, [], ◌==◌, string_eq, nat_eq, list_eq, filter, map,
  if◌then◌else◌,
}
use inter_gate.Base.Int.{ℤ}
use inter_gate.Base.Text.{strip}
use inter_gate.Base.Dict
use inter_gate.Keys.ApiKey.{ApiKey, KeyStatus, Now, Metadata, status_eq, or_none}
use inter_gate.Keys.Manager.{KeyManager, get, set_status, update_key, delete_key}
use inter_gate.Sync.{ModelSyncer, remove_by_key}
use inter_gate.Gateway.{Access, GatewayKey, invalidate_gateway_keys}

-- What the console works on: the database of the manager is that of the list of models.
pub record Console : Type 0 where
  pub manager : KeyManager
  pub syncer : ModelSyncer

-- What the body of a change of a key has, its numbers through `int`, and the cipher text of a new
-- plain key.
pub record Patch : Type 0 where
  pub name : Option String
  pub note : Option String
  pub base_url : Option String
  pub priority : Option ℤ
  pub weight : Option ℤ
  pub max_requests_per_minute : Option ℤ
  pub daily_quota : Option ℤ
  pub status : Option KeyStatus
  pub encrypted : Option String

abbrev pub given {ℓ} : {A : Type ℓ} → Option A → A → A
given none a = a
given (some b) a = b

-- `setattr` of the fields that the body has.
unfoldable pub patched : Patch → ApiKey → ApiKey
patched p k = record k {
  name = given p.name k.name;
  note = given p.note k.note;
  base_url = elim p.base_url [ none ↦ k.base_url | some u ↦ or_none (some u) ];
  priority = given p.priority k.priority;
  weight = given p.weight k.weight;
  max_requests_per_minute = given p.max_requests_per_minute k.max_requests_per_minute;
  daily_quota = given p.daily_quota k.daily_quota;
}

-- `syncer.remove_by_key`, over the database that the manager has.
unfoldable pub forget : Console → String → Console
unfolding remove_by_key
forget c key_id =
    let ((syncer, db), _) = remove_by_key c.syncer c.manager.db key_id in
    let m = c.manager in record { manager = record m { db = db }; syncer = syncer }

-- The handler of `DELETE /api/keys/{key_id}`.
unfoldable pub delete_handler : Console → String → Console
unfolding forget delete_key
delete_handler c key_id = forget (record c { manager = (delete_key c.manager key_id).0 }) key_id

-- The additional keys as they are stored.
abbrev pub stripped : GatewayKey → GatewayKey
stripped g = record g { key = strip g.key; name = strip g.name }

unfoldable pub clean_keys : List GatewayKey → List GatewayKey
unfolding strip
clean_keys keys = filter (λ (g : GatewayKey). not (g.key == [])) (map stripped keys)

-- The handler of `PUT /api/gateway-keys`: what is stored, and the cache of the gateway.
unfoldable pub put_gateway_keys : Access → List GatewayKey → Access × List GatewayKey
unfolding clean_keys invalidate_gateway_keys
put_gateway_keys a keys = (invalidate_gateway_keys a, clean_keys keys)

module _ (json_dumps : Metadata → String) where
  -- The part of the handler for the status of the body.
  unfoldable pub switch_status : Console → Now → String → Option KeyStatus → Console
  unfolding forget set_status
  switch_status c now key_id none = c
  switch_status c now key_id (some status) =
      let c' : Console = record c { manager = set_status json_dumps c.manager now key_id status } in
      let gone = forget c' key_id in if not (status_eq status KeyStatus.active) then gone else c'

  -- The handler of `PUT /api/keys/{key_id}`, none where it answers 404. The key is the object in the
  -- manager's cache; the sync that a key's return starts is a step of its own.
  unfoldable pub update_handler : Console → Now → String → Patch → Option Console
  unfolding patched switch_status update_key get
  update_handler c now key_id p = elim (get c.manager key_id) [
    | none ↦ none
    | some k ↦
        let k₁ = patched p k in
        let m = c.manager in
        let m₁ : KeyManager = record m { cache = Dict.insert key_id k₁ m.cache } in
        let c₁ = switch_status (record c { manager = m₁ }) now k.id p.status in
        let k₂ : ApiKey = elim (get c₁.manager k.id) [ none ↦ k₁ | some j ↦ j ] in
        some (record c₁ { manager = (update_key json_dumps c₁.manager now k₂ p.encrypted).0 })
  ]
