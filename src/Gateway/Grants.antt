-- ===== src/Gateway/Grants.antt =====
-- `gateway.py`: whom `_authorize` lets in.
use inter_gate.Base.{
  ℕ, ◌≡◌, refl, ◌≢◌, ◌⊎◌, inl, inr, true, false, not, ◌&&◌, none, some, eq_refl, List, [], ◌∷◌,
  arith, ◌==◌, nat_eq, list_eq, Elem, Bool-cases, eq→path, ne_of_eq,
}
use inter_gate.Base.Text.{Text}
use inter_gate.Gateway.{
  Request, Permission, GatewayKey, Access, presented, extra_permission, refresh, authorize,
}

-- The permission is that of an enabled key of the list, which is the one presented.
abbrev pub IsGranted : Text → List GatewayKey → Permission → Type 0
IsGranted key keys p =
    (g : GatewayKey) × Elem g keys
    × (g.enabled ≡ true)
    × (key ≢ [])
    × (key ≡ g.key)
    × (p ≡ (record { permission = g.permission; name = g.name; models = g.models }))

pub extra_permission-IsGranted :
    (key : Text) (keys : List GatewayKey) (p : Permission)
    → extra_permission key keys ≡ some p
    → IsGranted key keys p
unfolding extra_permission
extra_permission-IsGranted key [] p h = cc
extra_permission-IsGranted key (g ∷ rest) p h =
    elim (Bool-cases (g.enabled && (not (key == []) && (key == g.key)))) [
      | inl e ↦
          let (on, given, same) = conditions (Bool-cases g.enabled) (Bool-cases (key == [])) e in
          (g, inl refl, on, given, same, granted (rw e at h))
      | inr e ↦
          let (f, m, on, given, same, r) = extra_permission-IsGranted key rest p (rw e at h) in
          (f, inr m, on, given, same, r)
    ]
  where
    granted :
        some (record { permission = g.permission; name = g.name; models = g.models }) ≡ some p
        → p ≡ (record { permission = g.permission; name = g.name; models = g.models })
    granted e = cc

    conditions :
        (g.enabled ≡ true) ⊎ (g.enabled ≡ false)
        → ((key == []) ≡ true) ⊎ ((key == []) ≡ false)
        → (g.enabled && (not (key == []) && (key == g.key))) ≡ true
        → (g.enabled ≡ true) × (key ≢ []) × (key ≡ g.key)
    conditions (inr off) b e = ground (arith, off, e)
    conditions (inl on) (inl empty) e = ground (arith, on, empty, e)
    conditions (inl on) (inr given) e =
        (on, ne_of_eq key [] given, eq→path key g.key (ground (arith, on, given, e)))

-- An enabled key of the list gets a permission.
pub extra_permission_complete :
    (key : Text) (keys : List GatewayKey) (g : GatewayKey)
    → Elem g keys
    → g.enabled ≡ true
    → key ≢ []
    → key ≡ g.key
    → extra_permission key keys ≢ none
unfolding extra_permission
extra_permission_complete key [] g m on given same = absurd (m tt)
extra_permission_complete key (f ∷ rest) g (inl e) on given same =
    ground (arith, e, on, same, eq_refl g.key, ne-eq key given)
  where
    ne-eq : (t : Text) → t ≢ [] → (t == []) ≡ false
    ne-eq [] n = absurd (n refl)
    ne-eq (c ∷ s) n = refl
extra_permission_complete key (f ∷ rest) g (inr l) on given same =
    ground (arith, extra_permission_complete key rest g l on given same)

matching :
    (expected key : Text)
    → ((key == []) ≡ true) ⊎ ((key == []) ≡ false)
    → (not (expected == []) && (not (key == []) && (key == expected))) ≡ true
    → (key ≢ []) × (key ≡ expected)
matching expected key (inl empty) e = absurd (ground (arith, empty, e))
matching expected key (inr given) e =
    (ne_of_eq key [] given, eq→path key expected (ground (arith, given, e)))

-- Who gets a permission: anyone where the check is switched off, a caller without a key where the
-- gateway has none, the holder of the gateway's key, and the holder of an enabled additional key
-- of the list as it was read last, with that key's permission. A key that is compared is not empty.
pub authorize-IsGranted :
    (a : Access) (now : ℕ) (stored : List GatewayKey) (r : Request) (p : Permission)
    → (authorize a now stored r).1 ≡ some p
    → (a.gateway_key_enabled ≡ false)
      ⊎ ((a.gateway_key ≡ []) × (presented r ≡ []))
      ⊎ ((presented r ≢ []) × (presented r ≡ a.gateway_key))
      ⊎ IsGranted (presented r) (refresh a now stored).1 p
unfolding authorize
authorize-IsGranted a now stored r p h = elim (Bool-cases a.gateway_key_enabled) [
  | inr off ↦ inl off
  | inl on ↦ inr (elim (Bool-cases ((a.gateway_key == []) && (presented r == []))) [
    | inl e ↦ inl (ground (arith, e))
    | inr e ↦
        inr
          (elim (Bool-cases (
            not (a.gateway_key == [])
            && (not (presented r == []) && (presented r == a.gateway_key)))) [
              | inl f ↦
                  inl (matching (a.gateway_key) (presented r) (Bool-cases (presented r == [])) f)
              | inr f ↦ inr (
                  extra_permission-IsGranted (presented r) (refresh a now stored).1 p
                    (ground (arith, on, e, f, h)))
            ])
  ])
]
