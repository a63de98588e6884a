-- ===== src/Web.antt =====
-- `webapp.py`: the console's check of its callers. What follows is in the child modules: the tokens,
-- the login with its limit on failures, and the handlers that change keys.
pub mod Tokens
pub mod Lifetime
pub mod Login
pub mod Limited
pub mod Keys
pub mod Removed
pub mod Settings
pub mod Saved
use inter_gate.Base.{
  ℕ, String, Bool, true, false, ◌||◌, Option, none, some, List, [], ◌∷◌, ◌==◌, string_eq, list_eq,
  nat_eq, if◌then◌else◌, contains, drop,
}
use inter_gate.Base.Text.{Text, codes, lower, starts_with, strip}
use inter_gate.Gateway.{Request, header}
use Tokens.{Signer, verify_token}

-- `_is_public`
unfoldable pub is_public : Text → Bool
is_public path =
    (path == codes "/")
    || (starts_with path (codes "/api/login") || starts_with path (codes "/api/status"))

abbrev pub local_hosts : List String
local_hosts = "127.0.0.1" ∷ "::1" ∷ "localhost" ∷ []

abbrev pub bare_token : Text → Text
bare_token token =
    if starts_with (lower token) (codes "bearer ") then strip (drop 7 token) else token

-- `_authorized` at a time in seconds; the host is empty where there is no client.
unfoldable pub authorized : Signer → (web_password : Text) → ℕ → String → Request → Bool
unfolding verify_token lower strip
authorized signer web_password seconds host r =
    if web_password == []
    then contains local_hosts host
    else verify_token signer web_password seconds (bare_token (header r "authorization"))

-- The middleware: whether the request gets to its handler.
unfoldable pub admits : Signer → (web_password : Text) → ℕ → String → Text → Request → Bool
unfolding is_public authorized
admits signer web_password seconds host path r =
    is_public path || authorized signer web_password seconds host r
