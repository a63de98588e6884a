-- ===== src/Web/Tokens.antt =====
-- `webapp.py`: the signed tokens of the console. The hash and the base64 codec are parameters.
use inter_gate.Base.{
  ℕ, ◌/◌, Bool, false, ◌&&◌, Option, none, some, List, [], ◌∷◌, ◌++◌, ◌==◌, string_eq, nat_eq,
  list_eq, if◌then◌else◌, contains,
}
use inter_gate.Base.Int.{ℤ, pos, sub_ℤ, leb_ℤ}
use inter_gate.Base.Decimal.{show, read_int}
use inter_gate.Base.Text.{Text, codes}

-- `hmac.new(secret, payload, sha256).hexdigest()[:24]`, and base64 of a text, where decoding fails
-- for what is no base64 of a text.
pub record Signer : Type 0 where
  pub sign : Text → Text → Text
  pub encode : Text → Text
  pub decode : Text → Option Text

-- `s.rsplit(c, 1)`, where it has two parts.
unfoldable pub rsplit : ℕ → Text → Option (Text × Text)
rsplit c [] = none
rsplit c (d ∷ s) =
    let later = rsplit c s in
    elim later [
      | some (front, back) ↦ some (d ∷ front, back)
      | none ↦ if d == c then some ([], s) else none
    ]

abbrev pub hour_of : ℕ → ℕ
hour_of seconds = seconds / 3600

abbrev pub secret_of : Text → Text
secret_of web_password = if web_password == [] then codes "intergate-local" else web_password

abbrev pub payload_of : Text → ℕ → Text
payload_of role seconds = role ++ (b':' ∷ show (hour_of seconds))

-- `_make_token`
unfoldable pub make_token : Signer → (web_password : Text) → (seconds : ℕ) → Text → Text
unfolding show
make_token signer web_password seconds role =
    let payload = payload_of role seconds in
    signer.encode (payload ++ (b'.' ∷ signer.sign (secret_of web_password) payload))

abbrev pub roles : List Text
roles = codes "admin" ∷ codes "local" ∷ []

-- The age of a token in hours is one that is accepted.
abbrev pub is_fresh : ℕ → Option ℤ → Bool
is_fresh seconds none = false
is_fresh seconds (some hour) =
    let age = sub_ℤ (pos (hour_of seconds)) hour in leb_ℤ (pos 0) age && leb_ℤ age (pos 24)

-- The checks on the parts of a token.
abbrev pub accepts_payload : Signer → Text → ℕ → Text → Text → Option (Text × Text) → Bool
accepts_payload signer web_password seconds payload sig none = false
accepts_payload signer web_password seconds payload sig (some (role, hour)) =
    contains roles role
    && ((sig == signer.sign (secret_of web_password) payload) && is_fresh seconds (read_int hour))

abbrev pub accepts_raw : Signer → Text → ℕ → Option (Text × Text) → Bool
accepts_raw signer web_password seconds none = false
accepts_raw signer web_password seconds (some (payload, sig)) =
    accepts_payload signer web_password seconds payload sig (rsplit b':' payload)

abbrev pub accepts : Signer → Text → ℕ → Option Text → Bool
accepts signer web_password seconds none = false
accepts signer web_password seconds (some raw) =
    accepts_raw signer web_password seconds (rsplit b'.' raw)

-- `_verify_token`: an exception refuses.
unfoldable pub verify_token : Signer → (web_password : Text) → (seconds : ℕ) → Text → Bool
unfolding rsplit read_int
verify_token signer web_password seconds token =
    if token == [] then false else accepts signer web_password seconds (signer.decode token)
