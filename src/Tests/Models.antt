-- ===== src/Tests/Models.antt =====
-- Runs of the model sync, and of the console's handlers over it.
use inter_gate.Base.{
  String, ◌≡◌, ◌⊎◌, refl, Bool, false, ◌&&◌, none, some, List, [], ◌∷◌, ◌++◌, any, arith, string_eq,
  list_eq, nat_eq, pair_eq, Elem,
}
use inter_gate.Base.Text.{codes}
use inter_gate.Base.Dict
use inter_gate.Base.Dict.{IsDict}
use inter_gate.Json
use inter_gate.Json.{Json, Items, Fields}
use Json.{text, arr, obj}
use Items.{nil, cons}
use Fields.{end, field}
use inter_gate.Keys.ApiKey.{ApiKey}
use inter_gate.Keys.Manager.{get}
use inter_gate.Sync.{ModelSyncer, start, sync, eligible, find_by_public_id}
use inter_gate.Sync.Models.{ModelKey, Model, Source}
use inter_gate.Sync.Sources.{held, provides, IsOrder, held-sync}
use inter_gate.Sync.Removal.{Unnamed}
use inter_gate.Sync.Reached.{Step, Reachable, find_by_public_id-Reachable}
use inter_gate.Web.Keys.{Console, delete_handler}
use inter_gate.Web.Removed.{delete_handler-gone}
use inter_gate.Tests.Data.{key, empty_db, manager}

abbrev listing : Json
listing = obj (field "data" (arr (cons (obj (field "id" (text "gpt-4o") end)) nil)) end)

abbrev sources : ApiKey → Source
sources k = record { plain_key = codes "sk-1"; answer = some listing }

-- The first pull is the last to get its answer.
abbrev first_last : List ApiKey → List ApiKey
first_last [] = []
first_last (k ∷ ks) = ks ++ k ∷ []

any-append :
    (p : ApiKey → Bool) (ks : List ApiKey) (k : ApiKey) → any p (ks ++ k ∷ []) ≡ any p (k ∷ ks)
any-append p [] k = refl
any-append p (j ∷ ks) k = ground (arith, any-append p ks k)

first_last-IsOrder : IsOrder first_last
first_last-IsOrder p [] = refl
first_last-IsOrder p (k ∷ ks) = any-append p ks k

abbrev message : ApiKey → String
message k = "no answer"

abbrev both : List ApiKey
both = key "a" ∷ key "b" ∷ []

abbrev gpt : ModelKey
gpt = ("gpt-4o", ("main", codes "https://api.openai.com/v1"))

held-sync_example :
    held (sync (start empty_db) empty_db 5 message sources first_last both).0.models gpt "a"
    ≡ any (provides sources gpt "a") (eligible both)
held-sync_example =
    held-sync (start empty_db) empty_db 5 message sources first_last both gpt "a" first_last-IsOrder

abbrev pub synced_models : ModelSyncer
synced_models = (sync (start empty_db) empty_db 5 message sources first_last both).0

reached : Reachable synced_models
reached =
    Reachable.stepped (Reachable.started empty_db)
      (Step.synced empty_db 5 message sources first_last both)

find_by_public_id-Reachable_example :
    IsDict synced_models.models
    × (((k : ModelKey) × (m : Model) × Elem (k, m) synced_models.models
          × (m.public_id ≡ some (codes "main-gpt-4o"))
          × (find_by_public_id synced_models (codes "main-gpt-4o") ≡ some m))
        ⊎ (Unnamed synced_models.models (codes "main-gpt-4o")
            × (find_by_public_id synced_models (codes "main-gpt-4o") ≡ none)))
find_by_public_id-Reachable_example =
    find_by_public_id-Reachable synced_models (codes "main-gpt-4o") reached

manager-IsDict : IsDict manager.cache
unfolding Dict.lookup
manager-IsDict = (refl, (refl, tt))

synced_models-IsDict : IsDict synced_models.models
synced_models-IsDict = (find_by_public_id-Reachable synced_models [] reached).0

abbrev console : Console
console = record { manager = manager; syncer = synced_models }

delete_handler-gone_example :
    (get (delete_handler console "a").manager "a" ≡ none)
    × (held (delete_handler console "a").syncer.models gpt "a"
        ≡ (held synced_models.models gpt "a" && false))
delete_handler-gone_example =
    delete_handler-gone console "a" "a" gpt manager-IsDict synced_models-IsDict
