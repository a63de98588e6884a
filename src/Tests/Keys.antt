-- ===== src/Tests/Keys.antt =====
-- Runs of the key manager.
use inter_gate.Base.{
  ◌≡◌, refl, inl, inr, true, false, none, some, List, [], ◌∷◌, arith, length, Elem, string_eq,
  ne_of_eq, ◌≢◌,
}
use inter_gate.Base.Dict
use inter_gate.Keys.ApiKey.{ApiKey, KeyStatus, Now, from_row, to_db_dict, in_cooldown}
use inter_gate.Store.{Database}
use inter_gate.Keys.RoundTrip.{rolled_over, from_row-to_db_dict}
use inter_gate.Keys.Manager.{
  Category, load, get, list_active, record_failure, record_success, other_provider,
}
use inter_gate.Keys.Manager.Keyed.{IsKeyed}
use inter_gate.Keys.Manager.Active.{
  recovered, recovered_entry, list_active_sound, list_active_complete, list_active-recovers,
}
use inter_gate.Keys.Manager.Invariant.{Reach, Step, Reach-IsKeyed}
use inter_gate.Keys.Manager.Life.{
  fail_all, AfterFailures, last_cooldown, status_listed, fail_all-breaker,
  record_failure-auth_reactivates,
}
use inter_gate.Tests.Data.{noon, later, no_json, key, row, broken, empty_db, manager}

from_row-to_db_dict_example :
    from_row (to_db_dict (key "a") noon no_json) "fresh" noon ≡ rolled_over (key "a") noon
from_row-to_db_dict_example =
    from_row-to_db_dict (key "a") noon no_json "fresh" (ne_of_eq "a" "" refl)
      (ne_of_eq "main" "" refl) (λ e. omega (arith, e))

manager-IsKeyed : IsKeyed manager.cache
unfolding Dict.lookup
manager-IsKeyed = (refl, refl, (refl, refl, tt))

-- A database with the row of one key.
abbrev stored_db : Database
stored_db = record empty_db { api_keys = ("a", row "a") ∷ [] }

Reach-IsKeyed_example :
    IsKeyed (record_success no_json (load stored_db "fresh" noon) later "a").cache
Reach-IsKeyed_example =
    Reach-IsKeyed no_json stored_db "fresh" noon
      (Reach.next Reach.here (Step.succeeded later "a" refl))

list_active-recovers_example :
    Dict.lookup "b" (list_active no_json manager later none true).0.cache
    ≡ recovered_entry later (Dict.lookup "b" manager.cache)
list_active-recovers_example =
    list_active-recovers no_json later none manager true "b" manager-IsKeyed

-- The second key comes back from its cooldown, and both are listed.
listed_first : Elem (key "a") (list_active no_json manager later (some "openai") true).1
unfolding list_active recovered in_cooldown Dict.lookup
listed_first = inl refl

list_active_sound_example :
    ((key "a").status ≡ KeyStatus.active)
    × (in_cooldown (key "a") later ≡ false)
    × (other_provider (some "openai") (key "a") ≡ false)
    × (Dict.lookup "a" (list_active no_json manager later (some "openai") true).0.cache
        ≡ some (key "a"))
list_active_sound_example =
    list_active_sound no_json later (some "openai") manager (key "a") manager-IsKeyed listed_first

broken_rested : in_cooldown broken later ≡ false
unfolding in_cooldown
broken_rested = refl

list_active_complete_example :
    Elem (recovered later broken) (list_active no_json manager later (some "openai") true).1
list_active_complete_example =
    list_active_complete no_json later (some "openai") manager broken manager-IsKeyed
      (inr (inl refl)) (inr refl, broken_rested) refl

abbrev failures : List (Now × Category)
failures = (noon, Category.timeout) ∷ (noon, Category.upstream) ∷ (later, Category.tpm) ∷ []

soft : (Category.timeout ≢ Category.quota) × (Category.timeout ≢ Category.auth)
soft = ((λ e. cc), (λ e. cc))

got : get manager "a" ≡ some (key "a")
unfolding get Dict.lookup
got = refl

fail_all-breaker_example :
    (k₁ k₂ : ApiKey) × (get (fail_all no_json manager "a" failures) "a" ≡ some k₁)
    × AfterFailures no_json k₁ (length failures) (last_cooldown no_json failures)
    × (get (list_active no_json (fail_all no_json manager "a" failures) later none true).0 "a"
        ≡ some k₂)
    × (k₂.status ≡ status_listed no_json later failures)
fail_all-breaker_example =
    fail_all-breaker no_json manager "a" (key "a") failures later none true manager-IsKeyed got refl
      refl refl (soft, (((λ e. cc), (λ e. cc)), (((λ e. cc), (λ e. cc)), tt)))

record_failure-auth_reactivates_example :
    (k₁ k₂ : ApiKey) × (get (record_failure no_json manager noon "a" Category.auth) "a" ≡ some k₁)
    × (k₁.status ≡ KeyStatus.error)
    × (get
          (list_active no_json
            (record_failure no_json manager noon "a" Category.auth)
            later
            none
            true).0
          "a"
        ≡ some k₂)
    × (k₂.status ≡ KeyStatus.active)
record_failure-auth_reactivates_example =
    record_failure-auth_reactivates no_json manager "a" (key "a") noon later none true
      manager-IsKeyed got (omega arith)
