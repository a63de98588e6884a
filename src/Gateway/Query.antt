-- ===== src/Gateway/Query.antt =====
-- `gateway.py`: what `_handle` reads off a request, and what it makes of it for the upstream.
use inter_gate.Base.{
  ℕ, String, Bool, false, not, ◌&&◌, ◌||◌, Option, none, some, List, [], ◌∷◌, ◌==◌, string_eq,
  nat_eq, list_eq, ltb, leb, if◌then◌else◌, contains, length, take,
}
use inter_gate.Base.Int.{ℤ, pos, leb_ℤ}
use inter_gate.Base.Text.{Text, codes}
use inter_gate.Json
use inter_gate.Json.{Json, Fields, find, is_end}
use Json.{text, obj}
use Fields.{end, field}
use inter_gate.Cache.{make_key}
use inter_gate.Constants.{max_request_body_bytes}
use inter_gate.Sync.{ModelSyncer, find_by_public_id}
use inter_gate.Sync.Models.{Model}
use inter_gate.Gateway.{header}
use inter_gate.Gateway.Body.{
  parse_json_body, extract_error_text, extract_model, is_stream_request, estimate_tokens,
}
use inter_gate.Gateway.Upstream.{Job, Failure}
use inter_gate.Gateway.Replies.{Incoming}

-- What `_handle` reads off the body, and the entry that the public name of the model finds.
pub record Query : Type 0 where
  pub body : Text
  pub object : Option Fields
  pub model : Option String
  pub entry : Option Model

abbrev pub real_model : Query → Option String
real_model q = elim q.entry [ none ↦ q.model | some m ↦ some m.id ]

-- `d[k] = v` of a JSON object
unfoldable pub put_field : String → Json → Fields → Fields
put_field k v end = field k v end
put_field k v (field j w rest) =
    let later = put_field k v rest in if j == k then field j v rest else field j w later

-- `model == name` for a model that may be None
abbrev pub names : Option String → String → Bool
names none name = false
names (some m) name = m == name

-- `_read_body`; `int` of the header is a parameter.
unfoldable pub read_body : (Text → Option ℤ) → Incoming → Option Text
read_body int_of r =
    let announced : Option ℤ = int_of (header r.request "content-length") in
    let read : Option Text =
      if ltb max_request_body_bytes (length r.body) then none else some r.body in
    elim announced [
      | none ↦ read
      | some n ↦ if leb_ℤ n (pos max_request_body_bytes) then read else none
    ]

-- Parameters that stand for Python's library.
pub record Python : Type 0 where
  pub loads : Text → Option Json
  pub dumps : Fields → Text
  pub str : Json → Text
  pub int_of : Text → Option ℤ
  pub sha256 : List ℕ → String
  pub encode : Text → List ℕ

module _ (py : Python) where
  abbrev pub query_of : ModelSyncer → Text → Query
  query_of syncer body =
      let object = parse_json_body py.loads body in
      let model = extract_model object in
      let entry : Option Model = elim model [
        | none ↦ none
        | some m ↦ if m == "" then none else find_by_public_id syncer (codes m)
      ] in
      record { body = body; object = object; model = model; entry = entry }

  -- The body for the upstream, with the model under its own name.
  unfoldable pub upstream_body : Query → Text
  unfolding put_field
  upstream_body q = elim q.entry [
    | none ↦ q.body
    | some m ↦ elim q.object [
      | none ↦ q.body
      | some j ↦ if names q.model m.id then q.body else py.dumps (put_field "model" (text m.id) j)
    ]
  ]

  abbrev pub has_fields : Option Fields → Bool
  has_fields none = false
  has_fields (some j) = not (is_end j)

  unfoldable pub job_of : Incoming → Query → Job
  unfolding upstream_body is_stream_request
  job_of r q = record {
    is_stream = is_stream_request q.object || (r.request.method == "GET");
    path = codes r.path;
    tokens = estimate_tokens q.object;
    method =
        if has_fields q.object || not (upstream_body q == []) then "POST" else r.request.method;
    headers = r.request.headers;
    body = upstream_body q;
  }

  unfoldable pub cache_key_of : Incoming → Query → Option String
  unfolding is_stream_request make_key
  cache_key_of r q =
      if contains ("GET" ∷ "POST" ∷ []) r.request.method && not (is_stream_request q.object)
      then some (make_key py.sha256 (codes r.request.method) (py.encode (codes r.path)) q.body)
      else none

  -- `_extract_error_message` of `providers/upstream.py`
  unfoldable pub extract_error_message : Text → Text
  extract_error_message body =
      let plain = take 500 body in
      elim (py.loads body) [
        | some (obj j) ↦ elim (find "error" j) [
          | some (obj e) ↦ elim (find "message" e) [ none ↦ [] | some m ↦ py.str m ]
          | some (text t) ↦ codes t
          | _ ↦ take 500 (py.dumps j)
        ]
        | _ ↦ plain
      ]

  -- `last_error.message`
  unfoldable pub failure_message : Bool → Failure → Text
  unfolding extract_error_message
  failure_message is_stream f = elim f.message [
    | some m ↦ m
    | none ↦
        if is_stream
        then extract_error_text py.loads py.str f.body
        else if leb 400 f.status
        then extract_error_message f.body
        else []
  ]
