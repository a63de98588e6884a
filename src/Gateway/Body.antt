-- ===== src/Gateway/Body.antt =====
-- `gateway.py`: what the gateway reads off a request's body, the estimate of its tokens, the texts
-- of upstream errors, and the headers that it passes on. `json.loads` is a parameter.
use inter_gate.Base.{
  ℕ, ◌+◌, ◌/◌, max, String, Bool, false, Option, none, some, List, [], ◌∷◌, ◌++◌, string_eq, nat_eq,
  list_eq, leb, if◌then◌else◌, contains, take,
}
use inter_gate.Base.Dict
use inter_gate.Base.Dict.{Dict}
use inter_gate.Base.Text.{Text, codes, lower}
use inter_gate.Json
use inter_gate.Json.{Json, Items, Fields, find, as_object, as_text, len, truth}
use Json.{text, arr, obj}
use Items.{nil, cons}

module _ (loads : Text → Option Json) where
  -- `_parse_json_body`
  unfoldable pub parse_json_body : Text → Option Fields
  parse_json_body [] = none
  parse_json_body (c ∷ body) = elim (loads (c ∷ body)) [ none ↦ none | some j ↦ as_object j ]

  -- `_extract_error_text`, with `str` of a JSON value a parameter.
  unfoldable pub extract_error_text : (Json → Text) → Text → Text
  extract_error_text str body =
      let plain = take 300 body in
      let object : Option Fields = elim (loads body) [ none ↦ none | some j ↦ as_object j ] in
      elim object [
        | none ↦ plain
        | some j ↦ elim (find "error" j) [
          | some (obj e) ↦ elim (find "message" e) [ none ↦ [] | some m ↦ str m ]
          | some (text t) ↦ codes t
          | _ ↦ plain
        ]
      ]

  -- The body that `_error` sends on as it came: an object with an `error`.
  unfoldable pub passed_on : ℕ → Text → Option Fields
  passed_on status [] = none
  passed_on status (c ∷ body) =
      let object : Option Fields = elim (loads (c ∷ body)) [
        | none ↦ none
        | some j ↦ elim (as_object j) [
          | none ↦ none
          | some o ↦ elim (find "error" o) [ none ↦ none | some _ ↦ some o ]
        ]
      ] in
      if leb 400 status then object else none

-- `_extract_model`
unfoldable pub extract_model : Option Fields → Option String
extract_model none = none
extract_model (some j) = elim (find "model" j) [ none ↦ none | some m ↦ as_text m ]

-- `_is_stream_request`
unfoldable pub is_stream_request : Option Fields → Bool
is_stream_request none = false
is_stream_request (some j) = elim (find "stream" j) [ none ↦ false | some s ↦ truth s ]

abbrev pub media : List String
media = "image_url" ∷ "image" ∷ "input_audio" ∷ "audio" ∷ []

-- The characters of a text, if the value is one.
abbrev pub text_len : Option Json → ℕ
text_len (some (text t)) = len t
text_len _ = 0

-- A part of a message: its characters, and the flat charge of what is not text.
abbrev pub is_media : Option Json → Bool
is_media (some (text t)) = contains media t
is_media _ = false

abbrev pub part_len : Json → ℕ
part_len (text t) = len t
part_len (obj p) = text_len (find "text" p)
part_len _ = 0

abbrev pub part_charge : Json → ℕ
part_charge (obj p) = if is_media (find "type" p) then 1024 else 0
part_charge _ = 0

-- A sum over the items of an array.
abbrev pub sum_items : (Json → ℕ) → Items → ℕ
sum_items f nil = 0
sum_items f (cons x xs) = f x + sum_items f xs

-- `_content_len`: what it returns, and what it adds to `extra`.
abbrev pub content_len : Option Json → ℕ
content_len (some (text t)) = len t
content_len (some (arr xs)) = sum_items part_len xs
content_len _ = 0

abbrev pub content_charge : Option Json → ℕ
content_charge (some (arr xs)) = sum_items part_charge xs
content_charge _ = 0

-- A function of the content of a message, of a message that is an object.
abbrev pub of_message : (Option Json → ℕ) → Json → ℕ
of_message f (obj m) = f (find "content" m)
of_message f _ = 0

abbrev pub over_messages : (Option Json → ℕ) → Option Json → ℕ
over_messages f (some (arr xs)) = sum_items (of_message f) xs
over_messages f _ = 0

-- The characters of the field `prompt` or `input`.
abbrev pub field_len : Option Json → ℕ
field_len (some (text t)) = len t
field_len (some (arr xs)) = sum_items (λ x. text_len (some x)) xs
field_len _ = 0

-- `_estimate_tokens`
unfoldable pub estimate_tokens : Option Fields → ℕ
estimate_tokens none = 1
estimate_tokens (some j) =
    let chars =
      over_messages content_len (find "messages" j)
      + (field_len (find "prompt" j) + field_len (find "input" j)) in
    max 1 (chars / 4 + over_messages content_charge (find "messages" j))

-- Headers that are not sent on to the upstream.
abbrev pub private_headers : List Text
private_headers =
    codes "host"
    ∷ codes "authorization"
    ∷ codes "content-length"
    ∷ codes "cookie"
    ∷ codes "x-relay-provider"
    ∷ codes "x-relay-key"
    ∷ codes "x-relay-cache"
    ∷ codes "x-gateway-key"
    ∷ codes "x-api-key"
    ∷ []

abbrev pub hop_by_hop : List Text
hop_by_hop =
    codes "connection"
    ∷ codes "keep-alive"
    ∷ codes "proxy-authenticate"
    ∷ codes "proxy-authorization"
    ∷ codes "te"
    ∷ codes "trailers"
    ∷ codes "transfer-encoding"
    ∷ codes "upgrade"
    ∷ codes "content-length"
    ∷ codes "content-encoding"
    ∷ []

abbrev pub Headers : Type 0
Headers = Dict String Text

-- The headers whose names, in lower case, are not in the list.
unfoldable pub without : List Text → Headers → Headers
unfolding lower
without names [] = []
without names ((name, value) ∷ rest) =
    let kept = without names rest in
    if contains names (lower (codes name)) then kept else (name, value) ∷ kept

-- `_build_upstream_headers`
unfoldable pub build_upstream_headers : Headers → Text → Headers
unfolding without
build_upstream_headers headers plain_key =
    Dict.insert "Authorization" (codes "Bearer " ++ plain_key) (without private_headers headers)

abbrev pub cors_headers : Headers
cors_headers =
    ("Access-Control-Allow-Origin", codes "*")
    ∷ ("Access-Control-Allow-Methods", codes "GET,POST,PUT,PATCH,DELETE,OPTIONS")
    ∷ (
      "Access-Control-Allow-Headers",
      codes "Authorization,Content-Type,x-relay-provider,x-relay-key,x-gateway-key,x-api-key",
    )
    ∷ []

-- `d.update(other)`
abbrev pub update : Headers → Headers → Headers
update d [] = d
update d ((k, v) ∷ rest) = update (Dict.insert k v d) rest

-- `_upstream_headers`
unfoldable pub upstream_headers : Headers → Headers
unfolding without
upstream_headers headers = update (without hop_by_hop headers) cors_headers
