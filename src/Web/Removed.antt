-- ===== src/Web/Removed.antt =====
-- `webapp.py`: what a change of the keys at the console is worth to the gateway.
use inter_gate.Base.{
  ℕ, String, ◌≡◌, ◌≢◌, sym, ◌∙◌, true, false, not, ◌&&◌, none, some, List, [], ◌∷◌, ◌⊎◌, refl,
  Option, Option-cases, Bool-cases, map, All, Elem, Elem-All, eq→path, Elem-map, filter-Elem,
  Elem-filter, if_both, eq_ne, ne_of_eq, ltb, ◌+◌, arith, ◌==◌, string_eq, pair_eq, list_eq, nat_eq,
  inl, inr, if◌then◌else◌,
}
use inter_gate.Base.Dict.{IsDict, lookup-remove}
use inter_gate.Keys.Manager.{get, delete_key}
use inter_gate.Sync.Models.{ModelKey}
use inter_gate.Sync.Sources.{held}
use inter_gate.Sync.Removal.{held-remove_by_key}
use inter_gate.Gateway.{
  Request, Permission, GatewayKey, Access, presented, extra_permission, refresh, authorize,
  invalidate_gateway_keys,
}
use inter_gate.Gateway.Grants.{IsGranted, extra_permission-IsGranted, extra_permission_complete}
use inter_gate.Base.Text.{Text, strip}
use inter_gate.Web.Keys.{Console, forget, delete_handler, stripped, clean_keys, put_gateway_keys}

-- Behind a deletion the manager does not know the key and no model is offered through it, and for
-- every other key both are as before.
pub delete_handler-gone :
    (c : Console) (key_id other : String) (mk : ModelKey)
    → IsDict c.manager.cache
    → IsDict c.syncer.models
    → (get (delete_handler c key_id).manager other
        ≡ (if key_id == other then none else get c.manager other))
      × (held (delete_handler c key_id).syncer.models mk other
          ≡ (held c.syncer.models mk other && not (key_id == other)))
unfolding delete_handler forget delete_key get
delete_handler-gone c key_id other mk d e = (
  lookup-remove key_id other c.manager.cache d,
  (held-remove_by_key c.syncer (delete_key c.manager key_id).0.db key_id mk other e).0,
)

-- The gateway behind a list of requests, each with its time.
abbrev pub authorize_all : Access → List GatewayKey → List (ℕ × Request) → Access
authorize_all a stored [] = a
authorize_all a stored ((now, r) ∷ rest) = authorize_all (authorize a now stored r).0 stored rest

-- The list in the cache is the stored one, if there is a list.
abbrev IsFresh : List GatewayKey → Access → Type 0
IsFresh stored a = (a.gkeys_cache ≡ none) ⊎ (a.gkeys_cache ≡ some stored)

refresh-IsFresh :
    (a : Access) (now : ℕ) (stored : List GatewayKey)
    → IsFresh stored a
    → ((refresh a now stored).1 ≡ stored) × IsFresh stored (refresh a now stored).0
unfolding refresh
refresh-IsFresh a now stored (inl e) = rw e (refl, inr refl)
refresh-IsFresh a now stored (inr e) = elim (Bool-cases (ltb (a.gkeys_ts + 5000) now)) [
  | inl p ↦ rw (e, p) (refl, inr refl)
  | inr p ↦ rw (e, p) (refl, inr refl)
]

-- The settings and the freshness of the list outlive a request.
abbrev Keeps : List GatewayKey → Access → Access → Type 0
Keeps stored a b =
    (b.gateway_key_enabled ≡ a.gateway_key_enabled)
    × (b.gateway_key ≡ a.gateway_key)
    × IsFresh stored b

refresh-Keeps :
    (a : Access) (now : ℕ) (stored : List GatewayKey)
    → IsFresh stored a
    → Keeps stored a (refresh a now stored).0
unfolding refresh
refresh-Keeps a now stored (inl e) = rw e (refl, refl, inr refl)
refresh-Keeps a now stored (inr e) = elim (Bool-cases (ltb (a.gkeys_ts + 5000) now)) [
  | inl p ↦ rw (e, p) (refl, refl, inr refl)
  | inr p ↦ rw (e, p) (refl, refl, inr refl)
]

authorize-Keeps :
    (a : Access) (now : ℕ) (stored : List GatewayKey) (r : Request)
    → IsFresh stored a
    → Keeps stored a (authorize a now stored r).0
unfolding authorize
authorize-Keeps a now stored r f =
    let P = λ (x : Access × Option Permission). Keeps stored a x.0 in
    let key = presented r in
    if_both P (not a.gateway_key_enabled) _ _ (refl, refl, f)
      (if_both P ((a.gateway_key == []) && (key == [])) _ _ (refl, refl, f)
        (if_both P (not (a.gateway_key == []) && (not (key == []) && (key == a.gateway_key))) _ _
          (refl, refl, f) (refresh-Keeps a now stored f)))

authorize_all-Keeps :
    (a : Access) (stored : List GatewayKey) (before : List (ℕ × Request))
    → IsFresh stored a
    → Keeps stored a (authorize_all a stored before)
authorize_all-Keeps a stored [] f = (refl, refl, f)
authorize_all-Keeps a stored ((now, r) ∷ rest) f =
    let (on, main, f₁) = authorize-Keeps a now stored r f in
    let (on', main', f₂) = authorize_all-Keeps (authorize a now stored r).0 stored rest f₁ in
    (on' ∙ on, main' ∙ main, f₂)

authorize-extra :
    (a : Access) (now : ℕ) (stored : List GatewayKey) (r : Request)
    → a.gateway_key_enabled ≡ true
    → a.gateway_key ≢ []
    → presented r ≢ a.gateway_key
    → IsFresh stored a
    → (authorize a now stored r).1 ≡ extra_permission (presented r) stored
unfolding authorize
authorize-extra a now stored r on main other f = ground (
  arith,
  on,
  eq_ne a.gateway_key [] main,
  eq_ne (presented r) a.gateway_key other,
  (refresh-IsFresh a now stored f).0,
)

stripped-IsGranted :
    (keys : List GatewayKey) (key : Text) (p : Permission)
    → IsGranted key (clean_keys keys) p
    → IsGranted key (map stripped keys) p
unfolding clean_keys
stripped-IsGranted keys key p (g, m, on, given, same, r) = (
  g,
  (filter-Elem (λ (g : GatewayKey). not (g.key == [])) g (map stripped keys) m).0,
  on,
  given,
  same,
  r,
)

-- A key that is put and that the caller presents is let in.
refused :
    (keys : List GatewayKey) (key : Text) (g : GatewayKey)
    → extra_permission key (clean_keys keys) ≡ none
    → Elem g keys
    → (g.enabled ≡ false) ⊎ (key ≡ []) ⊎ (key ≢ strip g.key)
unfolding clean_keys
refused keys key g none_left m = elim (Bool-cases g.enabled) [
  | inr off ↦ inl off
  | inl on ↦ elim (Bool-cases (key == [])) [
    | inl e ↦ inr (inl (eq→path key [] e))
    | inr e ↦
        let given = ne_of_eq key [] e in
        inr (
          inr (λ same.
            let there =
              Elem-filter (λ (g : GatewayKey). not (g.key == [])) (stripped g) (map stripped keys)
                (Elem-map stripped g keys m)
                (let q : (strip g.key == []) ≡ false = rw (← same) e in rw q refl) in
            extra_permission_complete key (clean_keys keys) (stripped g) there on given same
              none_left))
  ]
]

-- After new additional keys are put, and before they are changed again, this holds in the process
-- that served the put for every request, whatever requests it has answered since: where the check
-- is on and the main key is not empty, a caller that does not present the main key is let in only
-- with an enabled one of the new keys, with the permission of such a key, and is let in with each
-- of them that is enabled and not empty. The new keys are compared as they are stored, without
-- spaces around them.
pub put_gateway_keys-IsGranted :
    (a : Access) (keys : List GatewayKey) (before : List (ℕ × Request)) (now : ℕ) (r : Request)
    → a.gateway_key_enabled ≡ true
    → a.gateway_key ≢ []
    → presented r ≢ a.gateway_key
    → let (a', stored) = put_gateway_keys a keys in
      let answer = (authorize (authorize_all a' stored before) now stored r).1 in
      ((p : Permission) × (answer ≡ some p) × IsGranted (presented r) (map stripped keys) p)
      ⊎ (answer ≡ none)
        × All
            (λ (g : GatewayKey).
              (g.enabled ≡ false) ⊎ (presented r ≡ []) ⊎ (presented r ≢ strip g.key))
            keys
unfolding put_gateway_keys invalidate_gateway_keys
put_gateway_keys-IsGranted a keys before now r on main other =
    let a' = (put_gateway_keys a keys).0 in
    let stored = clean_keys keys in
    let b = authorize_all a' stored before in
    let (on', main', f) = authorize_all-Keeps a' stored before (inl refl) in
    let e : (authorize b now stored r).1 ≡ extra_permission (presented r) stored =
      authorize-extra b now stored r (on' ∙ on) (λ x. main (sym main' ∙ x)) (λ x. other (x ∙ main'))
        f in
    elim (Option-cases (extra_permission (presented r) stored)) [
      | inl none_left ↦ inr (
        e ∙ none_left,
        Elem-All
            (λ (g : GatewayKey).
              (g.enabled ≡ false) ⊎ (presented r ≡ []) ⊎ (presented r ≢ strip g.key))
            keys (λ g m. refused keys (presented r) g none_left m),
      )
      | inr (p, granted) ↦ inl (
        p,
        e ∙ granted,
        stripped-IsGranted keys (presented r) p
            (extra_permission-IsGranted (presented r) stored p granted),
      )
    ]
