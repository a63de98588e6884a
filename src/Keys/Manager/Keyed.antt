-- ===== src/Keys/Manager/Keyed.antt =====
-- The cache of the key manager holds each key once, under its own id, and every operation keeps
-- it so.
use inter_gate.Base.{
  String, ◌≡◌, refl, none, some, [], ◌∷◌, arith, ◌==◌, string_eq, Elem, inl, inr, Bool-cases,
}
use inter_gate.Base.Dict
use inter_gate.Base.Dict.{Dict}
use inter_gate.Keys.ApiKey.{ApiKey}

abbrev pub IsKeyed : Dict String ApiKey → Type 0
IsKeyed [] = Unit
IsKeyed ((i, k) ∷ d) = (i ≡ k.id) × (Dict.lookup i d ≡ none) × IsKeyed d

pub lookup-id :
    (j : String) (k : ApiKey) (d : Dict String ApiKey)
    → IsKeyed d
    → Dict.lookup j d ≡ some k
    → k.id ≡ j
unfolding Dict.lookup
lookup-id j k [] h e = cc
lookup-id j k ((i, w) ∷ d) h e = ground (arith, string_eq.equal_iff i j, lookup-id j k d h.2)

pub insert-IsKeyed :
    (k : ApiKey) (d : Dict String ApiKey) → IsKeyed d → IsKeyed (Dict.insert k.id k d)
unfolding Dict.insert Dict.lookup
insert-IsKeyed k [] h = (refl, refl, tt)
insert-IsKeyed k ((i, w) ∷ d) h = ground (
  arith,
  insert-IsKeyed k d h.2,
  Dict.lookup-insert k.id i k d,
  string_eq.equal_iff i k.id,
  string_eq.equal_iff k.id i,
)

pub remove-IsKeyed : (j : String) (d : Dict String ApiKey) → IsKeyed d → IsKeyed (Dict.remove j d)
unfolding Dict.remove
remove-IsKeyed j [] h = tt
remove-IsKeyed j ((i, w) ∷ d) h =
    ground (arith, remove-IsKeyed j d h.2, Dict.lookup-remove-none j i d h.1)

pub IsKeyed-IsDict : (d : Dict String ApiKey) → IsKeyed d → Dict.IsDict d
IsKeyed-IsDict [] h = tt
IsKeyed-IsDict (e ∷ d) h = (h.1, IsKeyed-IsDict d h.2)

pub Elem-lookup :
    (k : ApiKey) (d : Dict String ApiKey)
    → IsKeyed d
    → Elem k (Dict.values d)
    → Dict.lookup k.id d ≡ some k
unfolding Dict.lookup
Elem-lookup k [] h m = absurd (m tt)
Elem-lookup k ((i, w) ∷ d) h (inl e) = ground (arith, string_eq.equal_iff i k.id)
Elem-lookup k ((i, w) ∷ d) h (inr m) =
    ground (arith, Elem-lookup k d h.2 m, string_eq.equal_iff i k.id)

pub lookup-Elem :
    (j : String) (k : ApiKey) (d : Dict String ApiKey)
    → Dict.lookup j d ≡ some k
    → Elem k (Dict.values d)
unfolding Dict.lookup
lookup-Elem j k [] e = cc
lookup-Elem j k ((i, w) ∷ d) e = elim (Bool-cases (i == j)) [
  | inl p ↦ inl (ground arith)
  | inr p ↦ inr (lookup-Elem j k d (ground arith))
]
