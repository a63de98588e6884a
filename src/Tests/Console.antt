-- ===== src/Tests/Console.antt =====
-- Runs of the console's login, tokens and settings.
use inter_gate.Base.{
  ℕ, ◌-◌, String, Option, none, some, string_eq, ◌==◌, if◌then◌else◌, ◌≡◌, refl, List, [], ◌∷◌,
  arith, leb,
}
use inter_gate.Base.Text.{codes}
use inter_gate.Json
use inter_gate.Json.{Json}
use Json.{text, num}
use inter_gate.Base.Int.{ℤ, pos}
use inter_gate.Base.Dict
use inter_gate.Base.Dict.{Dict}
use inter_gate.Settings.{UserSettings, default_settings, from_dict, save_settings}
use inter_gate.Usage.{int}
use inter_gate.Web.Settings.{put_settings, updated, convert_all}
use inter_gate.Web.Saved.{IsSaved, put_settings-IsSaved}
use inter_gate.Tests.Data.{empty_db}
use inter_gate.Web.Tokens.{Signer, hour_of, make_token, verify_token}
use inter_gate.Web.Lifetime.{IsSigner, verify_token-make_token}
use inter_gate.Web.Login.{Call, logins}
use inter_gate.Web.Limited.{IsOrdered, counted_logins, logins-counted}

abbrev signer : Signer
signer = record { sign = λ s p. codes "beef"; encode = λ t. t; decode = λ t. some t }

signer-IsSigner : IsSigner signer
signer-IsSigner = record {
  round = λ t. refl;
  empty = refl;
  hex = λ s p. (refl, (refl, (refl, (refl, tt))));
}

verify_token-make_token_example :
    verify_token signer
      (codes "secret")
      9000
      (make_token signer (codes "secret") 7200 (codes "admin"))
    ≡ leb (hour_of 9000 - hour_of 7200) 24
verify_token-make_token_example =
    verify_token-make_token signer (codes "secret") (codes "admin") 7200 9000 signer-IsSigner refl
      (omega arith)

abbrev guess : ℕ → String → Call
guess t password = record {
  ip = "10.0.0.7";
  checked = t;
  recorded = t;
  password = some (text password);
}

-- Five wrong passwords, and then the right one, within a minute and behind it.
abbrev guesses : List Call
guesses =
    guess 1000 "a"
    ∷ guess 2000 "b"
    ∷ guess 3000 "c"
    ∷ guess 4000 "d"
    ∷ guess 5000 "e"
    ∷ guess 6000 "secret"
    ∷ guess 61_000 "secret"
    ∷ []

guesses-IsOrdered : IsOrdered 0 guesses
guesses-IsOrdered = (
  omega arith,
  omega arith,
  (
    omega arith,
    omega arith,
    (
      omega arith,
      omega arith,
      (
        omega arith,
        omega arith,
        (omega arith, omega arith, (omega arith, omega arith, (omega arith, omega arith, tt))),
      ),
    ),
  ),
)

logins-counted_example :
    logins signer (codes "secret") [] guesses
    ≡ counted_logins signer (codes "secret") (λ ip. []) guesses
logins-counted_example = logins-counted signer (codes "secret") guesses guesses-IsOrdered

-- A request that changes the port, as a number in a text, and nothing else.
abbrev read_port : String → Option ℤ
read_port t = if t == "8080" then some (pos 8080) else none

abbrev port_body : Dict String Json
port_body = ("port", text "8080") ∷ []

abbrev changed : UserSettings
changed = Dict.insert "port" (num (pos 8080)) default_settings

accepted :
    put_settings read_port (λ j. some j) empty_db default_settings port_body
    ≡ some (from_dict changed, save_settings empty_db (from_dict changed))
unfolding put_settings updated convert_all int Dict.insert Dict.lookup
accepted = refl

put_settings-IsSaved_example :
    IsSaved read_port (λ j. some j) (from_dict changed) (save_settings empty_db (from_dict changed))
put_settings-IsSaved_example =
    put_settings-IsSaved read_port (λ j. some j) empty_db
      (save_settings empty_db (from_dict changed)) default_settings (from_dict changed) port_body
      accepted
