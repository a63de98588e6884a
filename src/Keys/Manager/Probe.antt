-- ===== src/Keys/Manager/Probe.antt =====
-- `services/key_manager.py`: the test of a key. The answer of the upstream client is an argument.
use inter_gate.Base.{
  ◌+◌, ◌*◌, String, Bool, true, false, Option, none, some, [], ◌∷◌, ◌==◌, string_eq, if◌then◌else◌,
}
use inter_gate.Base.Text.{Text, codes}
use inter_gate.Constants.{cooldown_seconds}
use inter_gate.Keys.ApiKey.{ApiKey, KeyStatus, Now, Metadata}
use inter_gate.Keys.Manager.{KeyManager, get, persist}
use inter_gate.Providers.{resolve_base_url}

-- What the test returns: no such key, no base URL, or the answer with the key as it is afterwards.
pub data Tested : Type 0 where
  unknown no_base : Tested
  tested : Bool → String → ApiKey → Tested

-- `base_url_hint or k.base_url`
abbrev pub hint_or : Option String → Option String → Option Text
hint_or hint own =
    let own_codes : Option Text = elim own [ none ↦ none | some u ↦ some (codes u) ] in
    elim hint [ none ↦ own_codes | some h ↦ if h == "" then own_codes else some (codes h) ]

-- The key behind a test.
abbrev pub after_test : Now → ApiKey → Bool × String → ApiKey
after_test now k (true, message) = record k {
  last_tested = some now.ms;
  test_result = some "ok";
  test_error = some "";
  status = KeyStatus.active;
  cooldown_until = none;
  failure_count = 0;
}
after_test now k (false, message) = record k {
  last_tested = some now.ms;
  test_result = some "fail";
  test_error = some message;
  status = KeyStatus.error;
  cooldown_until = some (now.ms + cooldown_seconds * 1000);
}

module _ (json_dumps : Metadata → String) where
  abbrev pub test_at :
      KeyManager
      → Now
      → ApiKey
      → (ApiKey → Text → Bool × String)
      → Option Text
      → KeyManager × Tested
  test_at m now k probe none = (m, Tested.no_base)
  test_at m now k probe (some []) = (m, Tested.no_base)
  test_at m now k probe (some (c ∷ base)) =
      let answer = probe k (c ∷ base) in
      let k' = after_test now k answer in
      (persist json_dumps m now k', Tested.tested answer.0 answer.1 k')

  -- The test of the key that is there, or none.
  abbrev pub test_found :
      KeyManager
      → Now
      → Option String
      → (ApiKey → Text → Bool × String)
      → Option ApiKey
      → KeyManager × Tested
  test_found m now hint probe none = (m, Tested.unknown)
  test_found m now hint probe (some k) =
      test_at m now k probe (resolve_base_url k.provider (hint_or hint k.base_url) none)

  unfoldable pub test_key :
      KeyManager
      → Now
      → String
      → Option String
      → (ApiKey → Text → Bool × String)
      → KeyManager × Tested
  unfolding get persist resolve_base_url
  test_key m now key_id hint probe = test_found m now hint probe (get m key_id)
