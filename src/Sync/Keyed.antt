-- ===== src/Sync/Keyed.antt =====
-- `services/sync.py`: the keys of the list of models under each operation.
use inter_gate.Base.{
  String, ◌≡◌, refl, Bool, Option, none, some, List, [], ◌∷◌, string_eq, pair_eq, list_eq, nat_eq,
  arith,
}
use inter_gate.Base.Text.{Text}
use inter_gate.Base.Dict
use inter_gate.Base.Dict.{Dict, IsDict, insert-IsDict}
use inter_gate.Keys.ApiKey.{ApiKey}
use inter_gate.Store.{ModelRow}
use inter_gate.Sync.{restore_rows, restored, drop_key, switch}
use inter_gate.Sync.Models.{
  ModelKey, Model, Source, Listed, merge_model, merge_all, pull, pull_at, pull_all, offered,
}
use inter_gate.Sync.PublicIds.{assign_from}

-- The operations that keep the dict a dict, and the entries that another has not.
pub restore_rows-IsDict :
    (states : Dict String Bool) (rows : List ModelRow) (d : Dict ModelKey Model)
    → IsDict d
    → IsDict (restore_rows states rows d)
unfolding restore_rows
restore_rows-IsDict states [] d h = h
restore_rows-IsDict states (r ∷ rows) d h =
    restore_rows-IsDict states rows _
      (insert-IsDict (r.id, (r.source, r.base_url)) (restored states r) d h)

merge_all-IsDict :
    (states : Dict String Bool) (k : ApiKey) (base : Text) (ls : List Listed)
    (d : Dict ModelKey Model)
    → IsDict d
    → IsDict (merge_all states k base ls d)
unfolding merge_all merge_model
merge_all-IsDict states k base [] d h = h
merge_all-IsDict states k base (l ∷ ls) d h =
    merge_all-IsDict states k base ls _ (insert-IsDict _ _ d h)

pull_at-IsDict :
    (states : Dict String Bool) (sources : ApiKey → Source) (k : ApiKey) (base : Option Text)
    (d : Dict ModelKey Model)
    → IsDict d
    → IsDict (pull_at states sources k base d)
pull_at-IsDict states sources k none d h = h
pull_at-IsDict states sources k (some []) d h = h
pull_at-IsDict states sources k (some (c ∷ base)) d h =
    merge_all-IsDict states k (c ∷ base) (offered k (sources k)).0 d h

pub pull_all-IsDict :
    (states : Dict String Bool) (sources : ApiKey → Source) (ks : List ApiKey)
    (d : Dict ModelKey Model)
    → IsDict d
    → IsDict (pull_all states sources ks d)
unfolding pull_all pull
pull_all-IsDict states sources [] d h = h
pull_all-IsDict states sources (k ∷ ks) d h =
    pull_all-IsDict states sources ks _ (pull_at-IsDict states sources k _ d h)

-- A list with the keys of another, or fewer, has what the other has not.
lookup-assign_from-none :
    (all d : Dict ModelKey Model) (k : ModelKey)
    → Dict.lookup k d ≡ none
    → Dict.lookup k (assign_from all d) ≡ none
unfolding assign_from Dict.lookup
lookup-assign_from-none all [] k h = refl
lookup-assign_from-none all ((j, m) ∷ d) k h = ground (arith, lookup-assign_from-none all d k)

pub assign_from-IsDict : (all d : Dict ModelKey Model) → IsDict d → IsDict (assign_from all d)
unfolding assign_from
assign_from-IsDict all [] h = tt
assign_from-IsDict all ((k, m) ∷ d) h =
    (lookup-assign_from-none all d k h.0, assign_from-IsDict all d h.1)

lookup-drop_key-none :
    (kid : String) (d : Dict ModelKey Model) (k : ModelKey)
    → Dict.lookup k d ≡ none
    → Dict.lookup k (drop_key kid d).0 ≡ none
unfolding drop_key Dict.lookup
lookup-drop_key-none kid [] k h = refl
lookup-drop_key-none kid ((j, m) ∷ d) k h = ground (arith, lookup-drop_key-none kid d k)

pub drop_key-IsDict :
    (kid : String) (d : Dict ModelKey Model) → IsDict d → IsDict (drop_key kid d).0
unfolding drop_key
drop_key-IsDict kid [] h = tt
drop_key-IsDict kid ((k, m) ∷ d) h =
    ground (arith, drop_key-IsDict kid d h.1, lookup-drop_key-none kid d k h.0)

lookup-switch-none :
    (name : Text) (on : Bool) (d : Dict ModelKey Model) (k : ModelKey)
    → Dict.lookup k d ≡ none
    → Dict.lookup k (switch name on d) ≡ none
unfolding Dict.lookup
lookup-switch-none name on [] k h = refl
lookup-switch-none name on ((j, m) ∷ d) k h = ground (arith, lookup-switch-none name on d k)

pub switch-IsDict :
    (name : Text) (on : Bool) (d : Dict ModelKey Model) → IsDict d → IsDict (switch name on d)
switch-IsDict name on [] h = tt
switch-IsDict name on ((k, m) ∷ d) h =
    (lookup-switch-none name on d k h.0, switch-IsDict name on d h.1)
