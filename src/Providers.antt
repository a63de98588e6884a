-- ===== src/Providers.antt =====
-- `providers/registry.py`: which provider a request is for, and where its requests go.
pub mod Laws
use inter_gate.Base.{
  String, Bool, true, false, not, ◌&&◌, ◌||◌, Option, none, some, List, [], ◌∷◌, ◌++◌, ◌==◌,
  string_eq, nat_eq, list_eq, if◌then◌else◌, contains,
}
use inter_gate.Base.Text.{Text, codes, lower, starts_with, contains_text, strip, rstrip, before}
use inter_gate.Base.Dict
use inter_gate.Base.Dict.{Dict}
use inter_gate.Constants.{provider_base_urls, model_prefix_to_provider}

-- `p.startswith(s)` and `s in p` for a literal s.
abbrev pub begins : Text → String → Bool
begins p s = starts_with p (codes s)

abbrev pub has : Text → String → Bool
has p s = contains_text p (codes s)

unfoldable pub detect_provider_by_path : Text → String
detect_provider_by_path path =
    let p = before b'?' path in
    if begins p "/v1/messages"
    then "anthropic"
    else if begins p "/v1beta" || has p ":generateContent" || has p ":streamGenerateContent"
    then "google"
    else if begins p "/openai/deployments"
    then "azure"
    else "openai"

-- The loop of `detect_provider_by_model`.
unfoldable pub provider_of_prefix : Text → List (String × String) → Option String
provider_of_prefix m [] = none
provider_of_prefix m ((prefix, provider) ∷ rest) =
    let later = provider_of_prefix m rest in if begins m prefix then some provider else later

unfoldable pub detect_provider_by_model : Option Text → Option String
unfolding provider_of_prefix
detect_provider_by_model none = none
detect_provider_by_model (some []) = none
detect_provider_by_model (some (c ∷ s)) =
    provider_of_prefix (lower (c ∷ s)) model_prefix_to_provider

-- `p in C.PROVIDER_BASE_URLS`, with the key found.
unfoldable pub known_provider : Text → Dict String String → Option String
known_provider p [] = none
known_provider p ((name, _) ∷ rest) =
    let later = known_provider p rest in if codes name == p then some name else later

-- What the header names, if it names a known provider.
unfoldable pub header_choice : Option Text → Option String
unfolding known_provider
header_choice none = none
header_choice (some h) = elim (strip h) [
  | [] ↦ none
  | c ∷ s ↦ known_provider (lower (c ∷ s)) provider_base_urls
]

-- `p or q` for a provider that may be missing.
abbrev pub or_provider : Option String → String → String
or_provider none q = q
or_provider (some p) q = if p == "" then q else p

-- The rest of `detect_provider`, where the header names none.
unfoldable pub detect_by_request : Text → Option Text → String
unfolding detect_provider_by_path detect_provider_by_model
detect_by_request path model =
    let by_path = detect_provider_by_path path in
    let by_model = or_provider (detect_provider_by_model model) by_path in
    if not (by_path == "openai") then by_path else by_model

unfoldable pub detect_provider : Text → Option Text → Option Text → String
unfolding detect_by_request header_choice
detect_provider path model header_provider = elim (header_choice header_provider) [
  | some p ↦ p
  | none ↦ detect_by_request path model
]

abbrev pub openai_style : Text → Bool
openai_style path =
    not (begins path "/v1/messages")
    && (not (begins path "/v1beta") && not (has path ":generateContent"))

-- The loop of `candidate_providers`.
unfoldable pub add_candidates : String → List String → List String → List String
add_candidates primary [] out = out
add_candidates primary (p ∷ ps) out =
    add_candidates primary ps
      (if not (p == primary) && not (contains out p) then out ++ p ∷ [] else out)

abbrev pub fallbacks : List String
fallbacks = "custom" ∷ "openai" ∷ "azure" ∷ []

unfoldable pub candidate_providers : String → Text → List String
unfolding add_candidates
candidate_providers primary path =
    if openai_style path then add_candidates primary fallbacks (primary ∷ []) else primary ∷ []

unfoldable pub endpoint_kind : Text → String
endpoint_kind path =
    if has path "chat/completions" || has path "/messages"
    then "chat"
    else if has path "embeddings" || has path ":embedContent"
    then "embedding"
    else if has path "/images/"
    then "image"
    else if has path "/audio/transcriptions"
    then "audio"
    else if has path "/audio/speech"
    then "tts"
    else if has path "/completions"
    then "completion"
    else if has path ":generateContent" || has path ":streamGenerateContent"
    then "chat"
    else "other"

-- `s.rstrip("/")`
abbrev pub no_slash : Text → Text
no_slash = rstrip (λ c. c == b'/')

-- A base URL that is given, its end trimmed; none where it is missing or empty.
abbrev pub given_url : Option Text → Option Text
given_url none = none
given_url (some []) = none
given_url (some (c ∷ s)) = some (no_slash (c ∷ s))

unfoldable pub resolve_base_url : String → Option Text → Option Text → Option Text
resolve_base_url provider key_base_url default_base_url = elim (given_url key_base_url) [
  | some u ↦ some u
  | none ↦ elim (given_url default_base_url) [
    | some u ↦ some u
    | none ↦ given_url (some (codes (Dict.lookup_or provider "" provider_base_urls)))
  ]
]
