-- ===== src/Base/Dict.antt =====
-- A Python dict in insertion order, over keys with an equality test.
use Prim.Native.Nat.{◌+◌}
use mathlib.Core.Logic.{◌≢◌}
use mathlib.Core.List.{List, [], ◌∷◌, ◌++◌}
use mathlib.Core.Option.{Option, none, some}
use mathlib.Core.Path.{◌≡◌, refl}
use native.Mathlib.Omega.{arith}
use inter_gate.Base.Tests.{if◌then◌else◌}
use inter_gate.Base.Equality.{Eq, ◌==◌, eq_refl, eq_ne}
use inter_gate.Base.Lists.{length}

abbrev pub Dict {ℓ κ} : Type ℓ → Type κ → Type (ℓ ⊔ κ)
Dict K V = List (K × V)

module _ {ℓ κ} {K : Type ℓ} {V : Type κ} ⦃e : Eq K⦄ where
  -- `d.get(k)`
  unfoldable pub lookup : K → Dict K V → Option V
  lookup k [] = none
  lookup k ((j, v) ∷ d) = if j == k then some v else lookup k d

  -- `d[k] = v`
  unfoldable pub insert : K → V → Dict K V → Dict K V
  insert k v [] = (k, v) ∷ []
  insert k v ((j, w) ∷ d) = if j == k then (j, v) ∷ d else (j, w) ∷ insert k v d

  -- `d.pop(k, None)`
  unfoldable pub remove : K → Dict K V → Dict K V
  remove k [] = []
  remove k ((j, w) ∷ d) = if j == k then d else (j, w) ∷ remove k d

  -- `d.get(k, v)`
  abbrev pub lookup_or : K → V → Dict K V → V
  lookup_or k v d = elim (lookup k d) [ none ↦ v | some w ↦ w ]

  -- `d.values()`
  abbrev pub values : Dict K V → List V
  values [] = []
  values ((_, v) ∷ d) = v ∷ values d

  -- `d.keys()`
  abbrev pub keys : Dict K V → List K
  keys [] = []
  keys ((k, _) ∷ d) = k ∷ keys d

  -- No key stands twice.
  abbrev pub IsDict : Dict K V → Type κ
  IsDict [] = Unit
  IsDict ((k, _) ∷ d) = (lookup k d ≡ none) × IsDict d

  pub lookup-insert :
      (k j : K) (v : V) (d : Dict K V)
      → lookup j (insert k v d) ≡ (if k == j then some v else lookup j d)
  unfolding lookup insert
  lookup-insert k j v [] = refl
  lookup-insert k j v ((i, w) ∷ d) =
      ground (arith, e.equal_iff k j, e.equal_iff i k, e.equal_iff i j, lookup-insert k j v d)

  pub lookup-insert_self : (k : K) (v : V) (d : Dict K V) → lookup k (insert k v d) ≡ some v
  lookup-insert_self k v d = rw (lookup-insert k k v d, eq_refl k) refl

  pub lookup-insert_ne :
      (k j : K) (v : V) (d : Dict K V) → k ≢ j → lookup j (insert k v d) ≡ lookup j d
  lookup-insert_ne k j v d h = rw (lookup-insert k j v d, eq_ne k j h) refl

  pub insert-IsDict : (k : K) (v : V) (d : Dict K V) → IsDict d → IsDict (insert k v d)
  unfolding lookup insert
  insert-IsDict k v [] h = (refl, tt)
  insert-IsDict k v ((j, w) ∷ d) h =
      ground
        (arith, insert-IsDict k v d h.1, lookup-insert k j v d, e.equal_iff k j, e.equal_iff j k)

  pub lookup-remove_ne : (k j : K) (d : Dict K V) → k ≢ j → lookup j (remove k d) ≡ lookup j d
  unfolding lookup remove
  lookup-remove_ne k j [] h = refl
  lookup-remove_ne k j ((i, w) ∷ d) h =
      ground (arith, e.equal_iff i k, e.equal_iff i j, lookup-remove_ne k j d h)

  pub lookup-remove_self : (k : K) (d : Dict K V) → IsDict d → lookup k (remove k d) ≡ none
  unfolding lookup remove
  lookup-remove_self k [] h = refl
  lookup-remove_self k ((i, w) ∷ d) h = ground (arith, e.equal_iff i k, lookup-remove_self k d h.1)

  pub lookup-remove-none :
      (k j : K) (d : Dict K V) → lookup j d ≡ none → lookup j (remove k d) ≡ none
  unfolding lookup remove
  lookup-remove-none k j [] h = refl
  lookup-remove-none k j ((i, w) ∷ d) h = ground (arith, lookup-remove-none k j d)

  pub remove-IsDict : (k : K) (d : Dict K V) → IsDict d → IsDict (remove k d)
  unfolding lookup remove
  remove-IsDict k [] h = tt
  remove-IsDict k ((i, w) ∷ d) h =
      ground (arith, remove-IsDict k d h.1, lookup-remove-none k i d h.0)

  pub lookup-append :
      (k : K) (d f : Dict K V)
      → lookup k (d ++ f) ≡ (elim (lookup k d) [ none ↦ lookup k f | some v ↦ some v ])
  unfolding lookup
  lookup-append k [] f = refl
  lookup-append k ((i, w) ∷ d) f = ground (arith, lookup-append k d f)

  pub length-insert :
      (k : K) (v : V) (d : Dict K V)
      → length (insert k v d) ≡ (elim (lookup k d) [ none ↦ length d + 1 | some w ↦ length d ])
  unfolding lookup insert
  length-insert k v [] = omega arith
  length-insert k v ((i, w) ∷ d) = ground (arith, length-insert k v d)

  pub length-remove-some :
      (k : K) (w : V) (d : Dict K V) → lookup k d ≡ some w → length (remove k d) + 1 ≡ length d
  unfolding lookup remove
  length-remove-some k w [] h = cc
  length-remove-some k w ((i, u) ∷ d) h = ground (arith, length-remove-some k w d)

  pub remove_absent : (k : K) (d : Dict K V) → lookup k d ≡ none → remove k d ≡ d
  unfolding lookup remove
  remove_absent k [] h = refl
  remove_absent k ((i, u) ∷ d) h = ground (arith, remove_absent k d)

  pub lookup-remove :
      (k j : K) (d : Dict K V)
      → IsDict d
      → lookup j (remove k d) ≡ (if k == j then none else lookup j d)
  unfolding lookup remove
  lookup-remove k j [] h = ground arith
  lookup-remove k j ((i, w) ∷ d) h = ground (
    arith,
    e.equal_iff i k,
    e.equal_iff i j,
    e.equal_iff k j,
    lookup-remove k j d h.1,
    lookup-remove_self k d h.1,
  )
