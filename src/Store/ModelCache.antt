-- ===== src/Store/ModelCache.antt =====
-- `db/database.py`: the table `model_cache`, which holds the synced models across a restart.
use inter_gate.Base.{
  String, Bool, List, [], ◌∷◌, ◌++◌, ◌==◌, string_eq, nat_eq, list_eq, if◌then◌else◌, ℕ, length,
}
use inter_gate.Base.Text.{Text, codes}
use inter_gate.Base.Dict
use inter_gate.Base.Dict.{Dict}
use inter_gate.Store.Rows.{ModelRow, Database}

-- The primary key: `id|source|base_url`.
abbrev pub row_key : ModelRow → Text
row_key r = codes r.id ++ (b'|' ∷ (codes r.source ++ (b'|' ∷ r.base_url)))

-- INSERT OR REPLACE of every row: a row that replaces another stands behind the rest.
unfoldable pub insert_rows : List ModelRow → Dict Text ModelRow → Dict Text ModelRow
insert_rows [] table = table
insert_rows (r ∷ rows) table =
    insert_rows rows (Dict.remove (row_key r) table ++ (row_key r, r) ∷ [])

-- `save_model_cache`: the whole table is written anew.
unfoldable pub save_model_cache : Database → List ModelRow → Database × ℕ
unfolding insert_rows
save_model_cache db models = (record db { model_cache = insert_rows models [] }, length models)

unfoldable pub load_model_cache : Database → List ModelRow
load_model_cache db = Dict.values db.model_cache

-- UPDATE … WHERE model_id = ?
unfoldable pub enable_rows : String → Bool → Dict Text ModelRow → Dict Text ModelRow
enable_rows model_id enabled [] = []
enable_rows model_id enabled ((k, r) ∷ table) =
    (k, (if r.id == model_id then record r { enabled = enabled } else r))
    ∷ enable_rows model_id enabled table

unfoldable pub set_model_cache_enabled : Database → String → Bool → Database
unfolding enable_rows
set_model_cache_enabled db model_id enabled = record db {
  model_cache = enable_rows model_id enabled db.model_cache;
}
