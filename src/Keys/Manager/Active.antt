-- ===== src/Keys/Manager/Active.antt =====
-- Which keys `list_active` offers, and what it changes.
use inter_gate.Base.{
  String, ◌≡◌, refl, Bool, true, false, not, ◌&&◌, ◌||◌, Option, none, some, List, [], ◌∷◌, ◌++◌,
  arith, ◌==◌, string_eq, if◌then◌else◌, Elem, inl, inr, ◌⊎◌, Elem-append_cases, Elem-append_left,
  Elem-append_right, subst, ap, ◌∙◌,
}
use inter_gate.Base.Dict
use inter_gate.Base.Dict.{Dict}
use inter_gate.Keys.ApiKey.{ApiKey, KeyStatus, Now, Metadata, status_eq, in_cooldown}
use inter_gate.Keys.Manager.{KeyManager, offer, other_provider, visit, visit_all, list_active}
use inter_gate.Keys.Manager.Keyed.{IsKeyed, Elem-lookup}

-- An ERROR key whose cooldown is over is ACTIVE again; every other key is as it was.
unfoldable pub recovered : Now → ApiKey → ApiKey
recovered now k =
    if status_eq k.status KeyStatus.error && not (in_cooldown k now)
    then record k { status = KeyStatus.active; failure_count = 0; cooldown_until = none }
    else k

-- The status and the time allow the key to be used.
abbrev pub IsUsable : Now → ApiKey → Type 0
IsUsable now k =
    ((k.status ≡ KeyStatus.active) ⊎ (k.status ≡ KeyStatus.error)) × (in_cooldown k now ≡ false)

abbrev pub recovered_entry : Now → Option ApiKey → Option ApiKey
recovered_entry now none = none
recovered_entry now (some k) = some (recovered now k)

recovered-id : (now : Now) (k : ApiKey) → (recovered now k).id ≡ k.id
unfolding recovered
recovered-id now k = ground arith

module _ (json_dumps : Metadata → String) (now : Now) (provider : Option String) where
  other_provider-recovered :
      (k : ApiKey)
      → other_provider provider k ≡ false
      → other_provider provider (recovered now k) ≡ false
  unfolding recovered
  other_provider-recovered k p = ground arith

  -- What one round offers.
  offered : Bool → ApiKey → List ApiKey
  offered excl k =
      if status_eq k.status KeyStatus.exhausted || status_eq k.status KeyStatus.inactive
      then []
      else offer now provider excl (recovered now k)

  offered_all : Bool → List ApiKey → List ApiKey
  offered_all excl [] = []
  offered_all excl (k ∷ ks) = offered excl k ++ offered_all excl ks

  visit-offered :
      (m : KeyManager) (excl : Bool) (k : ApiKey)
      → (visit json_dumps m now provider excl k).1 ≡ offered excl k
  unfolding visit offered recovered
  visit-offered m excl k = ground arith

  visit_all-offered :
      (m : KeyManager) (excl : Bool) (ks : List ApiKey)
      → (visit_all json_dumps m now provider excl ks).1 ≡ offered_all excl ks
  unfolding visit_all offered_all
  visit_all-offered m excl [] = refl
  visit_all-offered m excl (k ∷ ks) =
      cc (
        visit-offered m excl k,
        visit_all-offered (visit json_dumps m now provider excl k).0 excl ks,
      )

  visit-cache :
      (m : KeyManager) (excl : Bool) (k : ApiKey) (j : String)
      → Dict.lookup k.id m.cache ≡ some k
      → Dict.lookup j (visit json_dumps m now provider excl k).0.cache
        ≡ (if k.id == j then some (recovered now k) else Dict.lookup j m.cache)
  unfolding visit recovered
  visit-cache m excl k j h = ground (
    arith,
    Dict.lookup-insert k.id j
        (record k { status = KeyStatus.active; failure_count = 0; cooldown_until = none }) m.cache,
    string_eq.equal_iff k.id j,
  )

  -- The cache agrees with what is still to be visited.
  abbrev Agrees : Dict String ApiKey → Dict String ApiKey → Type 0
  Agrees d cache = (k : ApiKey) → Elem k (Dict.values d) → Dict.lookup k.id cache ≡ some k

  visit-Agrees :
      (m : KeyManager) (excl : Bool) (i : String) (k : ApiKey) (d : Dict String ApiKey)
      → IsKeyed ((i, k) ∷ d)
      → Agrees ((i, k) ∷ d) m.cache
      → Agrees d (visit json_dumps m now provider excl k).0.cache
  visit-Agrees m excl i k d h a k' e = rw (visit-cache m excl k k'.id (a k (inl refl))) (
      ground
        (arith, Elem-lookup k' d h.2 e, a k' (inr e), string_eq.equal_iff k.id k'.id, h.0, h.1))

  after_entry : Option ApiKey → Option ApiKey → Option ApiKey
  after_entry none old = old
  after_entry (some k) old = some (recovered now k)

  visit_all-cache :
      (m : KeyManager) (excl : Bool) (d : Dict String ApiKey) (j : String)
      → IsKeyed d
      → Agrees d m.cache
      → Dict.lookup j (visit_all json_dumps m now provider excl (Dict.values d)).0.cache
        ≡ after_entry (Dict.lookup j d) (Dict.lookup j m.cache)
  unfolding visit_all after_entry Dict.lookup
  visit_all-cache m excl [] j h a = refl
  visit_all-cache m excl ((i, k) ∷ d) j h a = ground (
    arith,
    visit_all-cache (visit json_dumps m now provider excl k).0 excl d j h.2
        (visit-Agrees m excl i k d h a),
    visit-cache m excl k j (a k (inl refl)),
    h.0,
    h.1,
    string_eq.equal_iff i j,
    string_eq.equal_iff k.id j,
  )

  -- `list_active` puts every ERROR key whose cooldown is over back to ACTIVE, whatever its
  -- provider, and leaves every other key of the cache alone.
  pub list_active-recovers :
      (m : KeyManager) (exclude_cooldown : Bool) (j : String)
      → IsKeyed m.cache
      → Dict.lookup j (list_active json_dumps m now provider exclude_cooldown).0.cache
        ≡ recovered_entry now (Dict.lookup j m.cache)
  unfolding list_active after_entry
  list_active-recovers m excl j h =
      rw (visit_all-cache m excl m.cache j h (λ k e. Elem-lookup k m.cache h e))
        (settle (Dict.lookup j m.cache))
    where
      settle : (o : Option ApiKey) → after_entry o o ≡ recovered_entry now o
      settle none = refl
      settle (some k) = refl

  offered_all-Elem :
      (excl : Bool) (k : ApiKey) (ks : List ApiKey)
      → Elem k (offered_all excl ks)
      → (k₀ : ApiKey) × Elem k₀ ks × Elem k (offered excl k₀)
  unfolding offered_all
  offered_all-Elem excl k [] e = absurd (e tt)
  offered_all-Elem excl k (x ∷ xs) e =
      elim (Elem-append_cases k (offered excl x) (offered_all excl xs) e) [
        | inl here ↦ (x, inl refl, here)
        | inr there ↦ let (k₀, m, o) = offered_all-Elem excl k xs there in (k₀, inr m, o)
      ]

  Elem-offered_all :
      (excl : Bool) (k k₀ : ApiKey) (ks : List ApiKey)
      → Elem k₀ ks
      → Elem k (offered excl k₀)
      → Elem k (offered_all excl ks)
  unfolding offered_all
  Elem-offered_all excl k k₀ [] m o = absurd (m tt)
  Elem-offered_all excl k k₀ (x ∷ xs) (inl e) o =
      Elem-append_left k (offered excl x) (offered_all excl xs) (rw (← e) o)
  Elem-offered_all excl k k₀ (x ∷ xs) (inr m) o =
      Elem-append_right k (offered excl x) (offered_all excl xs) (Elem-offered_all excl k k₀ xs m o)

  abbrev Fits : ApiKey → Type 0
  Fits k =
      (k.status ≡ KeyStatus.active)
      × (in_cooldown k now ≡ false)
      × (other_provider provider k ≡ false)

  -- A round offers nothing, or the recovered key where it may be used.
  offered-shape :
      (k : ApiKey)
      → (offered true k ≡ []) ⊎ ((offered true k ≡ recovered now k ∷ []) × Fits (recovered now k))
  unfolding offered
  offered-shape k = ground arith

  Elem-of_shape :
      (k r : ApiKey) (l : List ApiKey) (P : Type 0)
      → Elem k l
      → (l ≡ []) ⊎ ((l ≡ r ∷ []) × P)
      → (k ≡ r) × P
  Elem-of_shape k r l P e (inl h) = absurd (let f : Elem k [] = subst (Elem k) h e in f tt)
  Elem-of_shape k r l P e (inr h) =
      let f : Elem k (r ∷ []) = subst (Elem k) h.0 e in
      elim f [ inl p ↦ (p, h.1) | inr q ↦ absurd (q tt) ]

  usable-shape :
      (k : ApiKey)
      → IsUsable now k
      → other_provider provider (recovered now k) ≡ false
      → offered true k ≡ recovered now k ∷ []
  unfolding offered recovered in_cooldown
  usable-shape k u p = ground arith

  recovered-cached :
      (m : KeyManager) (k : ApiKey)
      → IsKeyed m.cache
      → Elem k (Dict.values m.cache)
      → Dict.lookup (recovered now k).id (list_active json_dumps m now provider true).0.cache
        ≡ some (recovered now k)
  recovered-cached m k h e =
      let after = (list_active json_dumps m now provider true).0.cache in
      ap (λ j. Dict.lookup j after) (recovered-id now k)
      ∙ list_active-recovers m true k.id h
      ∙ ap (recovered_entry now) (Elem-lookup k m.cache h e)

  -- What `list_active` returns, in one statement.
  list_active_lem :
      (m : KeyManager)
      → IsKeyed m.cache
      → let (after, found) = list_active json_dumps m now provider true in
        ((k : ApiKey)
          → Elem k found
          → (k.status ≡ KeyStatus.active)
            × (in_cooldown k now ≡ false)
            × (other_provider provider k ≡ false)
            × (Dict.lookup k.id after.cache ≡ some k))
        × ((k : ApiKey)
            → Elem k (Dict.values m.cache)
            → IsUsable now k
            → other_provider provider k ≡ false
            → Elem (recovered now k) found)
  unfolding list_active
  list_active_lem m h =
      let found = offered_all true (Dict.values m.cache) in
      rw (visit_all-offered m true (Dict.values m.cache)) (
        λ k e.
            let (k₀, there, here) = offered_all-Elem true k (Dict.values m.cache) e in
            let (same, fit) =
              Elem-of_shape k (recovered now k₀) (offered true k₀) (Fits (recovered now k₀)) here
                (offered-shape k₀) in
            (rw same fit.0, rw same fit.1, rw same fit.2, rw same (recovered-cached m k₀ h there)),
        λ k e u p.
            Elem-offered_all true (recovered now k) k (Dict.values m.cache) e
              (rw (usable-shape k u (other_provider-recovered k p)) (inl refl)),
      )

  -- Every key that `list_active` returns by default is, as it stands in the cache afterwards,
  -- ACTIVE, not in cooldown and, where a provider is given, of that provider.
  pub list_active_sound :
      (m : KeyManager) (k : ApiKey)
      → IsKeyed m.cache
      → Elem k (list_active json_dumps m now provider true).1
      → (k.status ≡ KeyStatus.active)
        × (in_cooldown k now ≡ false)
        × (other_provider provider k ≡ false)
        × (Dict.lookup k.id (list_active json_dumps m now provider true).0.cache ≡ some k)
  list_active_sound m k h = (list_active_lem m h).0 k

  -- Every cached key that can be used, ACTIVE or ERROR with its cooldown over, not in cooldown and,
  -- where a provider is given, of that provider, is returned by `list_active`, recovered.
  pub list_active_complete :
      (m : KeyManager) (k : ApiKey)
      → IsKeyed m.cache
      → Elem k (Dict.values m.cache)
      → IsUsable now k
      → other_provider provider k ≡ false
      → Elem (recovered now k) (list_active json_dumps m now provider true).1
  list_active_complete m k h = (list_active_lem m h).1 k
