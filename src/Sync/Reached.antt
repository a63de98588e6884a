-- ===== src/Sync/Reached.antt =====
-- `services/sync.py`: the states of the list of models that can be reached, and the public ids in
-- each of them.
use inter_gate.Base.{
  ℕ, String, ◌≡◌, refl, Bool, none, some, List, [], ◌∷◌, string_eq, pair_eq, list_eq, nat_eq,
  Bool-cases, inl, inr, ◌⊎◌, Elem,
}
use inter_gate.Base.Text.{Text}
use inter_gate.Base.Dict.{Dict, IsDict}
use inter_gate.Keys.ApiKey.{ApiKey}
use inter_gate.Store
use inter_gate.Store.{Database}
use inter_gate.Store.ModelCache.{load_model_cache}
use inter_gate.Sync.{
  ModelSyncer, start, sync, eligible, rebuild_public_index, remove_by_key, switch, named_by,
  set_enabled, restore_rows, find_by_public_id,
}
use inter_gate.Sync.Models.{ModelKey, Model, Source, pull_all}
use inter_gate.Sync.PublicIds.{assign_public_ids, index_from, index_one}
use inter_gate.Sync.Keyed.{
  restore_rows-IsDict, pull_all-IsDict, assign_from-IsDict, drop_key-IsDict, switch-IsDict,
}
use inter_gate.Sync.Removal.{Unnamed, find_by_public_id-rebuild_public_index}

-- What can be done to the list of models behind a start: a sync in any order of the pulls, the
-- removal of a key, a switch.
pub data Step : ModelSyncer → ModelSyncer → Type 0 where
  synced :
      {s : ModelSyncer} (db : Database) (now_ms : ℕ) (message : ApiKey → String)
      (sources : ApiKey → Source) (order : List ApiKey → List ApiKey) (keys : List ApiKey)
      → Step s (sync s db now_ms message sources order keys).0
  removed :
      {s : ModelSyncer} (db : Database) (key_id : String) → Step s (remove_by_key s db key_id).0.0
  switched :
      {s : ModelSyncer} (db : Database) (model_id : Text) (enabled : Bool)
      → Step s (set_enabled s db model_id enabled).0

-- The states of the list of models that can be reached.
pub data Reachable : ModelSyncer → Type 0 where
  started : (db : Database) → Reachable (start db)
  stepped : {s u : ModelSyncer} → Reachable s → Step s u → Reachable u

-- The models are a dict, and the index is theirs.
pub record IsIndexed (s : ModelSyncer) : Type 0 where
  pub models : IsDict s.models
  pub index : s.public_index ≡ index_from s.models []

index_from-switch :
    (name : Text) (on : Bool) (d : Dict ModelKey Model) (index : Dict Text ModelKey)
    → index_from (switch name on d) index ≡ index_from d index
unfolding index_from
index_from-switch name on [] index = refl
index_from-switch name on ((k, m) ∷ d) index = elim (Bool-cases (named_by name m)) [
  | inl t ↦ rw t (index_from-switch name on d (index_one k m.public_id index))
  | inr t ↦ rw t (index_from-switch name on d (index_one k m.public_id index))
]

step-IsIndexed : {s u : ModelSyncer} → Step s u → IsIndexed s → IsIndexed u
unfolding sync assign_public_ids rebuild_public_index remove_by_key set_enabled
step-IsIndexed {s} (synced db now_ms message sources order keys) h =
    let merged = pull_all s.states sources (order (eligible keys)) [] in
    record {
      models =
          assign_from-IsDict merged merged
            (pull_all-IsDict s.states sources (order (eligible keys)) [] tt);
      index = refl;
    }
step-IsIndexed {s} (removed db key_id) h = record {
  models = drop_key-IsDict key_id s.models h.models;
  index = refl;
}
step-IsIndexed {s} (switched db model_id enabled) h = record {
  models = switch-IsDict model_id enabled s.models h.models;
  index = rw (index_from-switch model_id enabled s.models []) h.index;
}

Reachable-IsIndexed : {s : ModelSyncer} → Reachable s → IsIndexed s
unfolding start assign_public_ids rebuild_public_index
Reachable-IsIndexed (started db) =
    let states = Store.get_model_states db in
    let rows = restore_rows states (load_model_cache db) [] in
    record {
      models =
          assign_from-IsDict rows rows (restore_rows-IsDict states (load_model_cache db) [] tt);
      index = refl;
    }
Reachable-IsIndexed (stepped r x) = step-IsIndexed x (Reachable-IsIndexed r)

-- Behind a start and any sequence of syncs, removals of keys and switches, the list of models has no
-- two entries with one id, source and base URL, and a public id finds an entry that has it, or none
-- where no entry has it.
pub find_by_public_id-Reachable :
    (s : ModelSyncer) (pid : Text)
    → Reachable s
    → IsDict s.models
      × (((k : ModelKey) × (m : Model) × Elem (k, m) s.models
            × (m.public_id ≡ some pid)
            × (find_by_public_id s pid ≡ some m))
          ⊎ (Unnamed s.models pid × (find_by_public_id s pid ≡ none)))
unfolding find_by_public_id rebuild_public_index
find_by_public_id-Reachable s pid r =
    let h = Reachable-IsIndexed r in
    (h.models, rw h.index (find_by_public_id-rebuild_public_index s pid h.models))
