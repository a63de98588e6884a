-- ===== src/Sync/Models.antt =====
-- `services/sync.py`: what the upstream of a key lists, and how a pull of the key merges it.
use inter_gate.Base.{
  String, Bool, true, false, Option, none, some, List, [], ◌∷◌, ◌++◌, map, ◌==◌, string_eq, nat_eq,
  list_eq, pair_eq, if◌then◌else◌, contains,
}
use inter_gate.Base.Text.{Text, codes}
use inter_gate.Base.Dict
use inter_gate.Base.Dict.{Dict}
use inter_gate.Json
use inter_gate.Json.{Json, Items, Fields, find, truth}
use Json.{null, text, arr, obj}
use Items.{nil, cons}
use inter_gate.Keys.ApiKey.{ApiKey}
use inter_gate.Providers.{resolve_base_url}
use inter_gate.Sync.Capabilities.{infer_capabilities}

-- `(id, source, base_url)`
abbrev pub ModelKey : Type 0
ModelKey = String × (String × Text)

pub record Model : Type 0 where
  pub id : String
  pub name : Json
  pub provider : String
  pub source : String
  pub base_url : Text
  pub source_key : String
  pub source_keys : List String
  pub sources : List String
  pub owned_by : Json
  pub created : Json
  pub capabilities : List String
  pub enabled : Bool
  pub public_id : Option Text

abbrev pub anthropic_builtin_models : List String
anthropic_builtin_models =
    "claude-opus-4-20250514" ∷ "claude-sonnet-4-20250514" ∷ "claude-3-7-sonnet-20250219"
    ∷ "claude-3-5-sonnet-20241022" ∷ "claude-3-5-haiku-20241022" ∷ "claude-3-opus-20240229"
    ∷ "claude-3-haiku-20240307" ∷ []

-- ---- what an upstream lists

-- The objects among the items.
abbrev pub objects : Items → List Fields
objects nil = []
objects (cons (obj m) xs) = m ∷ objects xs
objects (cons _ xs) = objects xs

unfoldable pub extract_models : Json → List Fields
extract_models (obj fields) = elim (find "data" fields) [
  | some (arr xs) ↦ objects xs
  | _ ↦ elim (find "models" fields) [ some (arr xs) ↦ objects xs | _ ↦ [] ]
]
extract_models _ = []

-- `a or b` of two entries of a dict.
abbrev pub or_json : Option Json → Option Json → Option Json
or_json none b = b
or_json (some a) b = if truth a then some a else b

-- A listed model: its id, its name, its owner and its time of creation.
pub record Listed : Type 0 where
  pub id : String
  pub name : Json
  pub owned_by : Json
  pub created : Json

abbrev pub or_null : Option Json → Json
or_null none = null
or_null (some j) = j

-- What the loop of `_pull` makes of an entry: it is passed over, it is merged, or it raises.
pub data Entry : Type 0 where
  passed raises : Entry
  merges : Listed → Entry

abbrev pub read_id : Fields → Json → Entry
read_id m (text mid) = Entry.merges (record {
  id = mid;
  name = or_null (or_json (find "name" m) (some (text mid)));
  owned_by = elim (find "owned_by" m) [ none ↦ text "" | some o ↦ o ];
  created = or_null (find "created" m);
})
read_id m _ = Entry.raises

unfoldable pub read_entry : Fields → Entry
read_entry m = elim (or_json (find "id" m) (find "name" m)) [
  | none ↦ Entry.passed
  | some j ↦ if truth j then read_id m j else Entry.passed
]

-- ---- merging

-- `k.name or k.provider`
abbrev pub source_name : ApiKey → String
source_name k = if k.name == "" then k.provider else k.name

abbrev pub add_once : String → List String → List String
add_once x xs = if contains xs x then xs else xs ++ x ∷ []

-- The entry of a model that is there already, with one source more.
abbrev pub joined : ApiKey → Model → Model
joined k m = record m {
  source_keys = add_once k.id m.source_keys;
  sources = add_once (source_name k) m.sources;
}

abbrev pub state_of : Dict String Bool → String → Bool
state_of states mid = Dict.lookup_or mid true states

abbrev pub key_of : ApiKey → Text → Listed → ModelKey
key_of k base l = (l.id, (source_name k, base))

abbrev pub new_model : Dict String Bool → ApiKey → Text → Listed → Model
new_model states k base l = record {
  id = l.id;
  name = l.name;
  provider = k.provider;
  source = source_name k;
  base_url = base;
  source_key = k.id;
  source_keys = k.id ∷ [];
  sources = source_name k ∷ [];
  owned_by = l.owned_by;
  created = l.created;
  capabilities = infer_capabilities l.id;
  enabled = state_of states l.id;
  public_id = none;
}

-- What stands at the model's key after the merge, by what stood there.
abbrev pub entry_after : Dict String Bool → ApiKey → Text → Listed → Option Model → Model
entry_after states k base l (some m) = joined k m
entry_after states k base l none = new_model states k base l

unfoldable pub merge_model :
    Dict String Bool → ApiKey → Text → Listed → Dict ModelKey Model → Dict ModelKey Model
merge_model states k base l merged =
    let key = key_of k base l in
    Dict.insert key (entry_after states k base l (Dict.lookup key merged)) merged

abbrev pub builtin : String → Listed
builtin mid = record { id = mid; name = text mid; owned_by = text "anthropic"; created = null }

-- The entries up to the first that raises, and whether one does.
unfoldable pub listed_until : List Fields → List Listed × Bool
listed_until [] = ([], false)
listed_until (m ∷ ms) =
    let (rest, raised) = listed_until ms in
    elim (read_entry m) [
      | Entry.passed ↦ (rest, raised)
      | Entry.raises ↦ ([], true)
      | Entry.merges l ↦ (l ∷ rest, raised)
    ]

unfoldable pub merge_all :
    Dict String Bool → ApiKey → Text → List Listed → Dict ModelKey Model → Dict ModelKey Model
merge_all states k base [] merged = merged
merge_all states k base (l ∷ ls) merged =
    merge_all states k base ls (merge_model states k base l merged)

-- What a pull of the key finds: nothing, or a base URL and the models to merge; and whether it raises.
pub record Source : Type 0 where
  pub plain_key : Text
  pub answer : Option Json

abbrev pub base_of : ApiKey → Option Text
base_of k =
    resolve_base_url k.provider (elim k.base_url [ none ↦ none | some u ↦ some (codes u) ]) none

-- `if not data: return`
abbrev pub answered : Option Json → List Listed × Bool
answered none = ([], false)
answered (some j) = if truth j then listed_until (extract_models j) else ([], false)

unfoldable pub offered : ApiKey → Source → List Listed × Bool
unfolding listed_until
offered k source =
    if source.plain_key == []
    then ([], false)
    else if k.provider == "anthropic"
    then (map builtin anthropic_builtin_models, false)
    else answered source.answer

abbrev pub pull_at :
    Dict String Bool
    → (ApiKey → Source)
    → ApiKey
    → Option Text
    → Dict ModelKey Model
    → Dict ModelKey Model
pull_at states sources k none merged = merged
pull_at states sources k (some []) merged = merged
pull_at states sources k (some (c ∷ base)) merged =
    merge_all states k (c ∷ base) (offered k (sources k)).0 merged

-- `_pull` of a key whose answer is there.
unfoldable pub pull :
    Dict String Bool → (ApiKey → Source) → ApiKey → Dict ModelKey Model → Dict ModelKey Model
unfolding offered merge_all
pull states sources k merged = pull_at states sources k (base_of k) merged

-- Whether the pull of the key ends in its `except`.
abbrev pub fails : (ApiKey → Source) → ApiKey → Bool
fails sources k = elim (base_of k) [
  | none ↦ false
  | some [] ↦ false
  | some (c ∷ base) ↦ (offered k (sources k)).1
]

unfoldable pub pull_all :
    Dict String Bool → (ApiKey → Source) → List ApiKey → Dict ModelKey Model → Dict ModelKey Model
unfolding pull
pull_all states sources [] merged = merged
pull_all states sources (k ∷ ks) merged = pull_all states sources ks (pull states sources k merged)
