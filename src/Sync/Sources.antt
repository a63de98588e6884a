-- ===== src/Sync/Sources.antt =====
-- `services/sync.py`: the keys that a model is offered through after a sync, against the answers
-- of the upstreams.
use inter_gate.Base.{
  ℕ, String, ◌≡◌, refl, ◌∙◌, Bool, false, ◌&&◌, ◌||◌, Option, none, some, List, [], ◌∷◌, ◌++◌, any,
  contains, string_eq, nat_eq, list_eq, pair_eq, ◌==◌, arith, Bool-cases, eq→path, if◌then◌else◌,
  inl, inr,
}
use inter_gate.Base.Text.{Text}
use inter_gate.Base.Dict
use inter_gate.Base.Dict.{Dict, lookup-insert}
use inter_gate.Keys.ApiKey.{ApiKey}
use inter_gate.Store.{Database}
use inter_gate.Sync.{ModelSyncer, sync, eligible, rebuild_public_index}
use inter_gate.Sync.Models.{
  ModelKey, Model, Source, Listed, key_of, base_of, offered, merge_model, merge_all, pull, pull_all,
  add_once, joined, entry_after, pull_at,
}
use inter_gate.Sync.PublicIds.{assign_public_ids, assign_from}

-- The keys of an entry that may be missing.
abbrev pub keys_of : Option Model → List String
keys_of none = []
keys_of (some m) = m.source_keys

-- Whether the list of models has the model under the key.
abbrev pub held : Dict ModelKey Model → ModelKey → String → Bool
held models mk kid = contains (keys_of (Dict.lookup mk models)) kid

-- Whether the models that a key's upstream lists have the one.
abbrev pub offers_at : (ApiKey → Source) → ModelKey → ApiKey → Option Text → Bool
offers_at sources mk k none = false
offers_at sources mk k (some []) = false
offers_at sources mk k (some (c ∷ base)) =
    any (λ l. key_of k (c ∷ base) l == mk) (offered k (sources k)).0

abbrev pub offers : (ApiKey → Source) → ModelKey → ApiKey → Bool
offers sources mk k = offers_at sources mk k (base_of k)

abbrev pub provides : (ApiKey → Source) → ModelKey → String → ApiKey → Bool
provides sources mk kid k = (k.id == kid) && offers sources mk k

contains-append :
    (xs : List String) (y z : String) → contains (xs ++ y ∷ []) z ≡ (contains xs z || (y == z))
contains-append [] y z = ground arith
contains-append (x ∷ xs) y z = ground (arith, contains-append xs y z)

contains-add_once :
    (x : String) (xs : List String) (y : String)
    → contains (add_once x xs) y ≡ (contains xs y || (x == y))
contains-add_once x xs y = ground (arith, string_eq.equal_iff x y, contains-append xs x y)

contains-joined :
    (k : ApiKey) (m : Model) (kid : String)
    → contains (joined k m).source_keys kid ≡ (contains m.source_keys kid || (k.id == kid))
contains-joined k m kid = contains-add_once k.id m.source_keys kid

contains-entry_after :
    (states : Dict String Bool) (k : ApiKey) (base : Text) (l : Listed) (o : Option Model)
    (kid : String)
    → contains (entry_after states k base l o).source_keys kid
      ≡ (contains (keys_of o) kid || (k.id == kid))
contains-entry_after states k base l none kid = ground arith
contains-entry_after states k base l (some m) kid = contains-joined k m kid

held-insert :
    (mk key : ModelKey) (m : Model) (d : Dict ModelKey Model) (kid : String)
    → held (Dict.insert key m d) mk kid
      ≡ (if key == mk then contains m.source_keys kid else held d mk kid)
held-insert mk key m d kid = elim (Bool-cases (key == mk)) [
  | inl t ↦ rw (lookup-insert key mk m d, t) refl
  | inr t ↦ rw (lookup-insert key mk m d, t) refl
]

held-merge_model :
    (states : Dict String Bool) (k : ApiKey) (base : Text) (l : Listed) (d : Dict ModelKey Model)
    (mk : ModelKey) (kid : String)
    → held (merge_model states k base l d) mk kid
      ≡ (held d mk kid || ((k.id == kid) && (key_of k base l == mk)))
unfolding merge_model
held-merge_model states k base l d mk kid =
    let key : ModelKey = key_of k base l in
    let o : Option Model = Dict.lookup key d in
    let step = held-insert mk key (entry_after states k base l o) d kid in
    elim (Bool-cases (key == mk)) [
      | inl t ↦
          rw (step, t, contains-entry_after states k base l o kid, eq→path key mk t) (ground arith)
      | inr t ↦ rw (step, t) (ground arith)
    ]

held-merge_all :
    (states : Dict String Bool) (k : ApiKey) (base : Text) (ls : List Listed)
    (d : Dict ModelKey Model) (mk : ModelKey) (kid : String)
    → held (merge_all states k base ls d) mk kid
      ≡ (held d mk kid || ((k.id == kid) && any (λ l. key_of k base l == mk) ls))
unfolding merge_all
held-merge_all states k base [] d mk kid = ground arith
held-merge_all states k base (l ∷ ls) d mk kid =
    rw
      (
        held-merge_all states k base ls (merge_model states k base l d) mk kid,
        held-merge_model states k base l d mk kid,
      )
      (ground arith)

held-pull_at :
    (states : Dict String Bool) (sources : ApiKey → Source) (k : ApiKey) (base : Option Text)
    (d : Dict ModelKey Model) (mk : ModelKey) (kid : String)
    → held (pull_at states sources k base d) mk kid
      ≡ (held d mk kid || ((k.id == kid) && offers_at sources mk k base))
held-pull_at states sources k none d mk kid = ground arith
held-pull_at states sources k (some []) d mk kid = ground arith
held-pull_at states sources k (some (c ∷ base)) d mk kid =
    held-merge_all states k (c ∷ base) (offered k (sources k)).0 d mk kid

held-pull :
    (states : Dict String Bool) (sources : ApiKey → Source) (k : ApiKey) (d : Dict ModelKey Model)
    (mk : ModelKey) (kid : String)
    → held (pull states sources k d) mk kid ≡ (held d mk kid || provides sources mk kid k)
unfolding pull
held-pull states sources k d mk kid = held-pull_at states sources k (base_of k) d mk kid

held-pull_all :
    (states : Dict String Bool) (sources : ApiKey → Source) (ks : List ApiKey)
    (d : Dict ModelKey Model) (mk : ModelKey) (kid : String)
    → held (pull_all states sources ks d) mk kid
      ≡ (held d mk kid || any (provides sources mk kid) ks)
unfolding pull_all
held-pull_all states sources [] d mk kid = ground arith
held-pull_all states sources (k ∷ ks) d mk kid =
    rw
      (
        held-pull_all states sources ks (pull states sources k d) mk kid,
        held-pull states sources k d mk kid,
      )
      (ground arith)

held-assign_from :
    (all d : Dict ModelKey Model) (mk : ModelKey) (kid : String)
    → held (assign_from all d) mk kid ≡ held d mk kid
unfolding assign_from Dict.lookup
held-assign_from all [] mk kid = refl
held-assign_from all ((k, m) ∷ d) mk kid = elim (Bool-cases (k == mk)) [
  | inl t ↦ rw t refl
  | inr t ↦ rw t (held-assign_from all d mk kid)
]

-- A gathered run makes every pull once, in an order of its own.
abbrev pub IsOrder : (List ApiKey → List ApiKey) → Type 0
IsOrder order = (p : ApiKey → Bool) (ks : List ApiKey) → any p (order ks) ≡ any p ks

-- After a sync, a key stands among the keys of a model exactly when it is one of the first twenty
-- active keys and the model is in what its upstream lists: whatever the order in which the answers come.
pub held-sync :
    (s : ModelSyncer) (db : Database) (now_ms : ℕ) (message : ApiKey → String)
    (sources : ApiKey → Source) (order : List ApiKey → List ApiKey) (keys : List ApiKey)
    (mk : ModelKey) (kid : String)
    → IsOrder order
    → held (sync s db now_ms message sources order keys).0.models mk kid
      ≡ any (provides sources mk kid) (eligible keys)
unfolding sync assign_public_ids rebuild_public_index Dict.lookup
held-sync s db now_ms message sources order keys mk kid h =
    let merged : Dict ModelKey Model = pull_all s.states sources (order (eligible keys)) [] in
    held-assign_from merged merged mk kid
    ∙ (held-pull_all s.states sources (order (eligible keys)) [] mk kid
        ∙ h (provides sources mk kid) (eligible keys))
