-- ===== src/Sync.antt =====
-- `services/sync.py`: the list of the models that the keys offer. The pulls of a sync run at the
-- same time, and each merges its models in one go once its answer is there: the order in which they
-- do is an argument. What a key's upstream lists, and whether the key can be decrypted, are too.
pub mod Capabilities
pub mod Models
pub mod PublicIds
pub mod Sources
pub mod Removal
pub mod Keyed
pub mod Reached
use inter_gate.Base.{
  ℕ, suc, ◌+◌, ◌<◌, String, ◌<>◌, ◌≡◌, Bool, true, false, not, ◌&&◌, ◌||◌, Option, none, some, List,
  [], ◌∷◌, ◌++◌, map, ◌==◌, string_eq, nat_eq, list_eq, pair_eq, if◌then◌else◌, contains, filter,
  take, length,
}
use inter_gate.Base.Text.{Text, codes, text_leb}
use inter_gate.Base.Sorting.{sort}
use inter_gate.Base.Decimal.{show}
use inter_gate.Base.Dict
use inter_gate.Base.Dict.{Dict}
use inter_gate.Json
use inter_gate.Json.{Json, Items, Fields, find, truth}
use Json.{null, text, arr, obj}
use Items.{nil, cons}
use inter_gate.Keys.ApiKey.{ApiKey, KeyStatus, status_eq}
use inter_gate.Store
use inter_gate.Store.{Database, ModelRow}
use inter_gate.Store.ModelCache.{save_model_cache, load_model_cache, set_model_cache_enabled}
use inter_gate.Providers.{resolve_base_url}
use Models.{ModelKey, Model, Source, fails, pull_all, add_once, pull}
use PublicIds.{assign_public_ids, index_from}

-- The index holds the objects of the list of models: here, their keys.
pub record ModelSyncer : Type 0 where
  pub models : Dict ModelKey Model
  pub states : Dict String Bool
  pub last_sync : Option ℕ
  pub sync_error : String
  pub public_index : Dict Text ModelKey

unfoldable pub rebuild_public_index : ModelSyncer → ModelSyncer
unfolding index_from
rebuild_public_index s = record s { public_index = index_from s.models [] }

abbrev pub row_of : Model → ModelRow
row_of m = record {
  id = m.id;
  name = m.name;
  provider = m.provider;
  source = m.source;
  base_url = m.base_url;
  source_key = m.source_key;
  source_keys = m.source_keys;
  sources = m.sources;
  owned_by = m.owned_by;
  created = m.created;
  capabilities = m.capabilities;
  enabled = m.enabled;
}

-- `_persist_models`
unfoldable pub persist_models : ModelSyncer → Database → Database
persist_models s db = (save_model_cache db (map row_of (Dict.values s.models))).0

-- A cached model, its switch as the states have it.
abbrev pub restored : Dict String Bool → ModelRow → Model
restored states r = record {
  id = r.id;
  name = r.name;
  provider = r.provider;
  source = r.source;
  base_url = r.base_url;
  source_key = r.source_key;
  source_keys = r.source_keys;
  sources = r.sources;
  owned_by = r.owned_by;
  created = r.created;
  capabilities = r.capabilities;
  enabled = Dict.lookup_or r.id r.enabled states;
  public_id = none;
}

-- The loop of `_load_cached_models`.
unfoldable pub restore_rows :
    Dict String Bool → List ModelRow → Dict ModelKey Model → Dict ModelKey Model
restore_rows states [] models = models
restore_rows states (r ∷ rows) models =
    restore_rows states rows (Dict.insert (r.id, (r.source, r.base_url)) (restored states r) models)

-- `__init__` over a database.
unfoldable pub start : Database → ModelSyncer
unfolding restore_rows assign_public_ids rebuild_public_index
start db =
    let states = Store.get_model_states db in
    rebuild_public_index (record {
      models = assign_public_ids (restore_rows states (load_model_cache db) []);
      states = states;
      last_sync = none;
      sync_error = "";
      public_index = [];
    })

abbrev pub eligible : List ApiKey → List ApiKey
eligible keys = take 20 (filter (λ (k : ApiKey). status_eq k.status KeyStatus.active) keys)

-- The text of the last exception, if a pull raised one.
abbrev pub last_error : (ApiKey → String) → (ApiKey → Source) → String → List ApiKey → String
last_error message sources error [] = error
last_error message sources error (k ∷ ks) =
    last_error message sources (if fails sources k then message k else error) ks

-- `sync`, the pulls in the order that `order` puts them in.
unfoldable pub sync :
    ModelSyncer
    → Database
    → (now_ms : ℕ) → (ApiKey → String)
    → (ApiKey → Source)
    → (List ApiKey → List ApiKey)
    → List ApiKey
    → ModelSyncer × Database
unfolding pull_all assign_public_ids rebuild_public_index persist_models
sync s db now_ms message sources order keys =
    let pulls = order (eligible keys) in
    let s₁ = rebuild_public_index (record s {
      models = assign_public_ids (pull_all s.states sources pulls []);
      sync_error = last_error message sources s.sync_error pulls;
      last_sync = some now_ms;
    }) in
    (s₁, persist_models s₁ db)

-- The loop of `remove_by_key`: what is left, and how many models are gone.
abbrev pub first_of : List String → String → String
first_of [] d = d
first_of (x ∷ xs) d = x

abbrev pub without_key : String → List String → List String
without_key key_id sks = filter (λ (x : String). not (x == key_id)) sks

unfoldable pub drop_key : String → Dict ModelKey Model → Dict ModelKey Model × ℕ
drop_key key_id [] = ([], 0)
drop_key key_id ((k, m) ∷ rest) =
    let (left, removed) = drop_key key_id rest in
    let sks = without_key key_id m.source_keys in
    let kept : Model = record m { source_keys = sks; source_key = first_of sks m.source_key } in
    if not (contains m.source_keys key_id)
    then ((k, m) ∷ left, removed)
    else if sks == []
    then (left, removed + 1)
    else ((k, kept) ∷ left, removed)

unfoldable pub remove_by_key : ModelSyncer → Database → String → (ModelSyncer × Database) × ℕ
unfolding drop_key persist_models rebuild_public_index
remove_by_key s db key_id =
    let (models, removed) = drop_key key_id s.models in
    let s₁ = rebuild_public_index (record s { models = models }) in
    ((s₁, persist_models s₁ db), removed)

unfoldable pub find_by_public_id : ModelSyncer → Text → Option Model
find_by_public_id s public_id = elim (Dict.lookup public_id s.public_index) [
  | none ↦ none
  | some k ↦ Dict.lookup k s.models
]

-- `_public_view` of a model: its public id for its id.
abbrev pub public_name : Model → Text
public_name m = elim m.public_id [ none ↦ codes m.id | some pid ↦ pid ]

unfoldable pub all_enabled : ModelSyncer → List (Text × Model)
all_enabled s =
    map (λ (m : Model). (public_name m, m))
      (filter (λ (m : Model). m.enabled) (Dict.values s.models))

-- The models that an id names, their own or the public one.
abbrev pub named_by : Text → Model → Bool
named_by model_id m =
    (codes m.id == model_id) || elim m.public_id [ none ↦ false | some pid ↦ pid == model_id ]

abbrev pub real_ids : Text → List Model → List String
real_ids model_id [] = []
real_ids model_id (m ∷ ms) =
    let rest = real_ids model_id ms in if named_by model_id m then add_once m.id rest else rest

abbrev pub switch : Text → Bool → Dict ModelKey Model → Dict ModelKey Model
switch model_id enabled [] = []
switch model_id enabled ((k, m) ∷ rest) =
    (k, (if named_by model_id m then record m { enabled = enabled } else m))
    ∷ switch model_id enabled rest

unfoldable pub set_states : List String → Bool → Dict String Bool → Dict String Bool
set_states [] enabled states = states
set_states (x ∷ xs) enabled states = set_states xs enabled (Dict.insert x enabled states)

unfoldable pub store_states : List String → Bool → Database → Database
store_states [] enabled db = db
store_states (x ∷ xs) enabled db =
    store_states xs enabled (set_model_cache_enabled (Store.set_model_state db x enabled) x enabled)

unfoldable pub set_enabled : ModelSyncer → Database → Text → Bool → ModelSyncer × Database
unfolding set_states store_states
set_enabled s db model_id enabled =
    let ids = real_ids model_id (Dict.values s.models) in
    (
      record s {
        models = switch model_id enabled s.models;
        states = set_states ids enabled s.states;
      },
      store_states ids enabled db,
    )
