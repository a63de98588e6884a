-- ===== src/Sync/Removal.antt =====
-- `services/sync.py`: the removal of a key from the list of models, and the index of the public
-- ids.
use inter_gate.Base.{
  ◌+◌, String, ◌≡◌, ◌≢◌, refl, sym, ◌∙◌, false, not, ◌&&◌, none, some, List, [], ◌∷◌, contains,
  string_eq, nat_eq, list_eq, pair_eq, ◌==◌, arith, length, Bool-cases, Option-cases, inl, inr,
  if◌then◌else◌, All, Elem, ap, ◌⊎◌, eq→path, eq_refl, ne_of_eq,
}
use inter_gate.Base.Text.{Text}
use inter_gate.Base.Dict
use inter_gate.Base.Dict.{Dict, IsDict, lookup-insert}
use inter_gate.Store.{Database}
use inter_gate.Sync.{
  ModelSyncer, drop_key, without_key, first_of, remove_by_key, rebuild_public_index,
  find_by_public_id,
}
use inter_gate.Sync.Models.{ModelKey, Model}
use inter_gate.Sync.PublicIds.{index_from, index_one}
use inter_gate.Sync.Sources.{held}

contains-without_key :
    (kid x : String) (sks : List String)
    → contains (without_key kid sks) x ≡ (contains sks x && not (kid == x))
contains-without_key kid x [] = refl
contains-without_key kid x (y ∷ ys) = ground (
  arith,
  string_eq.equal_iff y kid,
  string_eq.equal_iff y x,
  string_eq.equal_iff kid x,
  contains-without_key kid x ys,
)

contains-nil : (sks : List String) (x : String) → sks ≡ [] → contains sks x ≡ false
contains-nil [] x h = refl
contains-nil (y ∷ ys) x h = cc

unlisted :
    (kid x : String) (sks : List String)
    → contains sks kid ≡ false
    → contains sks x ≡ (contains sks x && not (kid == x))
unlisted kid x sks h = elim (Bool-cases (kid == x)) [
  | inl t ↦ rw (← eq→path kid x t, h) refl
  | inr t ↦ rw t (ground arith)
]

held-nil : (mk : ModelKey) (x : String) → held [] mk x ≡ false
unfolding Dict.lookup
held-nil mk x = refl

held-absent :
    (mk : ModelKey) (x : String) (d : Dict ModelKey Model)
    → Dict.lookup mk d ≡ none
    → held d mk x ≡ false
held-absent mk x d e = rw (held, e) refl

held-cons :
    (k mk : ModelKey) (m : Model) (d : Dict ModelKey Model) (x : String)
    → held ((k, m) ∷ d) mk x ≡ (if k == mk then contains m.source_keys x else held d mk x)
unfolding Dict.lookup
held-cons k mk m d x = elim (Bool-cases (k == mk)) [ inl t ↦ rw t refl | inr t ↦ rw t refl ]

pub held-drop_key :
    (kid : String) (d : Dict ModelKey Model) (mk : ModelKey) (x : String)
    → IsDict d
    → held (drop_key kid d).0 mk x ≡ (held d mk x && not (kid == x))
unfolding drop_key
held-drop_key kid [] mk x h = rw (held-nil mk x) refl
held-drop_key kid ((k, m) ∷ d) mk x h =
    let ih = held-drop_key kid d mk x h.1 in
    let here = held-cons k mk m d x in
    let left : Dict ModelKey Model = (drop_key kid d).0 in
    let same = held-cons k mk m left x in
    let kept : Model = record m {
      source_keys = without_key kid m.source_keys;
      source_key = first_of (without_key kid m.source_keys) m.source_key;
    } in
    let sks = contains-without_key kid x m.source_keys in
    let gone = contains-nil (without_key kid m.source_keys) x in
    elim (Bool-cases (contains m.source_keys kid)) [
      | inl t ↦ elim (Bool-cases (without_key kid m.source_keys == [])) [
        | inl u ↦ elim (Bool-cases (k == mk)) [
          | inl v ↦
              let none_left = held-absent mk x d (rw (← eq→path k mk v) h.0) in
              rw (t, u, here, v, ih, none_left, ← sks)
                (sym (gone (eq→path (without_key kid m.source_keys) [] u)))
          | inr v ↦ rw (t, u, here, v) ih
        ]
        | inr u ↦ elim (Bool-cases (k == mk)) [
          | inl v ↦ rw (t, u, here, held-cons k mk kept left x, v) sks
          | inr v ↦ rw (t, u, here, held-cons k mk kept left x, v) ih
        ]
      ]
      | inr t ↦ elim (Bool-cases (k == mk)) [
        | inl v ↦ rw (t, here, same, v) (unlisted kid x m.source_keys t)
        | inr v ↦ rw (t, here, same, v) ih
      ]
    ]

length-drop_key :
    (kid : String) (d : Dict ModelKey Model)
    → length (drop_key kid d).0 + (drop_key kid d).1 ≡ length d
unfolding drop_key
length-drop_key kid [] = omega arith
length-drop_key kid ((k, m) ∷ d) = ground (arith, length-drop_key kid d)

-- After a key is removed, no model is offered through it, every other key offers what it offered
-- before, and the number returned is that of the models that are gone.
pub held-remove_by_key :
    (s : ModelSyncer) (db : Database) (kid : String) (mk : ModelKey) (x : String)
    → IsDict s.models
    → (held (remove_by_key s db kid).0.0.models mk x ≡ (held s.models mk x && not (kid == x)))
      × (length (remove_by_key s db kid).0.0.models + (remove_by_key s db kid).1 ≡ length s.models)
unfolding remove_by_key rebuild_public_index
held-remove_by_key s db kid mk x h =
    (held-drop_key kid s.models mk x h, length-drop_key kid s.models)

-- ---- the index of the public ids

Elem-lookup :
    (k : ModelKey) (m : Model) (d : Dict ModelKey Model)
    → IsDict d
    → Elem (k, m) d
    → Dict.lookup k d ≡ some m
unfolding Dict.lookup
Elem-lookup k m [] h e = absurd (e tt)
Elem-lookup k m ((j, n) ∷ d) h (inl e) =
    let p : k ≡ j = ap (λ (u : ModelKey × Model). u.0) e in
    let q : m ≡ n = ap (λ (u : ModelKey × Model). u.1) e in rw (p, q, eq_refl j) refl
Elem-lookup k m ((j, n) ∷ d) h (inr e) = elim (Bool-cases (j == k)) [
  | inl t ↦
      let r : Dict.lookup j d ≡ some m = rw (eq→path j k t) (Elem-lookup k m d h.1 e) in
      let q : none ≡ some m = sym h.0 ∙ r in cc
  | inr t ↦ rw t (Elem-lookup k m d h.1 e)
]

-- A model of the list with the public id, to which the index leads.
abbrev pub Indexed : Dict ModelKey Model → Dict Text ModelKey → Text → Type 0
Indexed d index pid =
    (k : ModelKey) × (m : Model) × Elem (k, m) d
    × (m.public_id ≡ some pid)
    × (Dict.lookup pid index ≡ some k)

abbrev pub Unnamed : Dict ModelKey Model → Text → Type 0
Unnamed d pid = All (λ (e : ModelKey × Model). e.1.public_id ≢ some pid) d

index_from-cases :
    (pid : Text) (d : Dict ModelKey Model) (index : Dict Text ModelKey)
    → Indexed d (index_from d index) pid
      ⊎ (Unnamed d pid × (Dict.lookup pid (index_from d index) ≡ Dict.lookup pid index))
unfolding index_from
index_from-cases pid [] index = inr (tt, refl)
index_from-cases pid ((k, m) ∷ d) index =
    elim (index_from-cases pid d (index_one k m.public_id index)) [
      | inl (j, n, e, p, q) ↦ inl (j, n, inr e, p, q)
      | inr (a, e) ↦ elim (Option-cases m.public_id) [
        | inl o ↦ inr (
          (λ (u : m.public_id ≡ some pid). let v : none ≡ some pid = sym o ∙ u in cc, a),
          e ∙ rw o refl,
        )
        | inr (q, o) ↦ elim (Bool-cases (q == pid)) [
          | inl t ↦ inl (
            k,
            m,
            inl refl,
            o ∙ ap some (eq→path q pid t),
            e ∙ rw (o, lookup-insert q pid k index, t) refl,
          )
          | inr t ↦ inr (
            (
              λ (u : m.public_id ≡ some pid).
                  let v : some q ≡ some pid = sym o ∙ u in ne_of_eq q pid t (cc),
              a,
            ),
            e ∙ rw (o, lookup-insert q pid k index, t) refl,
          )
        ]
      ]
    ]

-- A public id finds a model of the list that has it, and finds none only where no model has it.
pub find_by_public_id-rebuild_public_index :
    (s : ModelSyncer) (pid : Text)
    → IsDict s.models
    → ((k : ModelKey) × (m : Model) × Elem (k, m) s.models
        × (m.public_id ≡ some pid)
        × (find_by_public_id (rebuild_public_index s) pid ≡ some m))
      ⊎ (Unnamed s.models pid × (find_by_public_id (rebuild_public_index s) pid ≡ none))
unfolding rebuild_public_index find_by_public_id Dict.lookup
find_by_public_id-rebuild_public_index s pid h = elim (index_from-cases pid s.models []) [
  | inl (k, m, e, p, q) ↦ inl (k, m, e, p, rw (find_by_public_id, q) (Elem-lookup k m s.models h e))
  | inr (a, e) ↦ inr (a, rw (find_by_public_id, e) refl)
]
