-- ===== src/Sync/PublicIds.antt =====
-- `services/sync.py`: the ids under which the gateway offers the models.
use inter_gate.Base.{
  ℕ, suc, Bool, Option, none, some, List, [], ◌∷◌, ◌++◌, ◌==◌, string_eq, nat_eq, list_eq, pair_eq,
  if◌then◌else◌, filter,
}
use inter_gate.Base.Text.{Text, codes, text_leb}
use inter_gate.Base.Sorting.{sort}
use inter_gate.Base.Decimal.{show}
use inter_gate.Base.Dict
use inter_gate.Base.Dict.{Dict}
use inter_gate.Sync.Models.{ModelKey, Model}

-- `{source}-{id}`
abbrev pub base_id : Model → Text
base_id m = codes m.source ++ (b'-' ∷ codes m.id)

-- `(base_url, id)`
abbrev pub place_leb : ModelKey × Model → ModelKey × Model → Bool
place_leb a b =
    if a.1.base_url == b.1.base_url
    then text_leb (codes a.1.id) (codes b.1.id)
    else text_leb a.1.base_url b.1.base_url

-- The models of a group with their ids, from the number n on.
abbrev pub numbered : Text → ℕ → List (ModelKey × Model) → Dict ModelKey Text
numbered pid n [] = []
numbered pid n (m ∷ ms) = (m.0, pid ++ (b'-' ∷ show n)) ∷ numbered pid (suc n) ms

abbrev pub group_ids : Text → List (ModelKey × Model) → Dict ModelKey Text
group_ids pid [] = []
group_ids pid (m ∷ []) = (m.0, pid) ∷ []
group_ids pid (m ∷ n ∷ ms) = numbered pid 1 (sort place_leb (m ∷ n ∷ ms))

abbrev pub group_of : Text → Dict ModelKey Model → List (ModelKey × Model)
group_of pid models = filter (λ (e : ModelKey × Model). base_id e.1 == pid) models

-- `_assign_public_ids`: every model gets the id that its group gives it.
unfoldable pub assign_from : Dict ModelKey Model → Dict ModelKey Model → Dict ModelKey Model
assign_from all [] = []
assign_from all ((k, m) ∷ rest) =
    (k, (record m { public_id = Dict.lookup k (group_ids (base_id m) (group_of (base_id m) all)) }))
    ∷ assign_from all rest

unfoldable pub assign_public_ids : Dict ModelKey Model → Dict ModelKey Model
unfolding assign_from
assign_public_ids models = assign_from models models

-- `_rebuild_public_index`
abbrev pub index_one : ModelKey → Option Text → Dict Text ModelKey → Dict Text ModelKey
index_one k none index = index
index_one k (some pid) index = Dict.insert pid k index

unfoldable pub index_from : Dict ModelKey Model → Dict Text ModelKey → Dict Text ModelKey
index_from [] index = index
index_from ((k, m) ∷ rest) index = index_from rest (index_one k m.public_id index)
