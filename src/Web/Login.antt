-- ===== src/Web/Login.antt =====
-- `webapp.py`: the login, with the limit on failures of a client. Times are in milliseconds; the
-- limit is checked and a failure is recorded at a reading of the clock each.
use inter_gate.Base.{
  ℕ, ◌+◌, ◌*◌, ◌/◌, String, Bool, false, Option, none, some, List, [], ◌∷◌, ◌++◌, ◌==◌, string_eq,
  nat_eq, list_eq, ltb, leb, if◌then◌else◌, filter, length,
}
use inter_gate.Base.Dict
use inter_gate.Base.Dict.{Dict}
use inter_gate.Base.Text.{Text, codes}
use inter_gate.Web.Tokens.{Signer, make_token}
use inter_gate.Json.{Json}
use Json.{text}

abbrev pub login_max_failures : ℕ
login_max_failures = 5

abbrev pub login_window : ℕ
login_window = 60 * 1000

abbrev pub Attempts : Type 0
Attempts = Dict String (List ℕ)

-- `now - t < _LOGIN_WINDOW_SECONDS`
abbrev pub is_recent : ℕ → ℕ → Bool
is_recent now t = ltb now (t + login_window)

abbrev pub recent_of : ℕ → Option (List ℕ) → List ℕ
recent_of now none = []
recent_of now (some ts) = filter (is_recent now) ts

abbrev pub recent : Attempts → ℕ → String → List ℕ
recent attempts now ip = recent_of now (Dict.lookup ip attempts)

-- Whether `_check_login_attempts` raises.
unfoldable pub is_limited : Attempts → ℕ → String → Bool
is_limited attempts now ip = leb login_max_failures (length (recent attempts now ip))

-- `_record_login_attempt`
unfoldable pub record_attempt : Attempts → ℕ → String → Attempts
record_attempt attempts now ip = Dict.insert ip (recent attempts now ip ++ now ∷ []) attempts

-- A request for a login: the readings of the clock, and the password of its body.
pub record Call : Type 0 where
  pub ip : String
  pub checked : ℕ
  pub recorded : ℕ
  pub password : Option Json

pub data Outcome : Type 0 where
  limited wrong : Outcome
  token : Text → Outcome

-- `body.get("password") == pwd`
abbrev pub matches : Option Json → Text → Bool
matches (some (text p)) pwd = codes p == pwd
matches _ pwd = false

-- The handler of `/api/login`.
unfoldable pub login : Signer → (web_password : Text) → Attempts → Call → Attempts × Outcome
unfolding is_limited record_attempt make_token
login signer pwd attempts c =
    if is_limited attempts c.checked c.ip
    then (attempts, Outcome.limited)
    else if pwd == []
    then (attempts, Outcome.token (make_token signer pwd (c.recorded / 1000) (codes "local")))
    else if matches c.password pwd
    then (
      Dict.remove c.ip attempts,
      Outcome.token (make_token signer pwd (c.recorded / 1000) (codes "admin")),
    )
    else (record_attempt attempts c.recorded c.ip, Outcome.wrong)

-- A run of logins.
unfoldable pub logins : Signer → (web_password : Text) → Attempts → List Call → List Outcome
unfolding login
logins signer pwd attempts [] = []
logins signer pwd attempts (c ∷ cs) =
    let (attempts', outcome) = login signer pwd attempts c in
    outcome ∷ logins signer pwd attempts' cs
