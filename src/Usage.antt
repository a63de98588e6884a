-- ===== src/Usage.antt =====
-- `services/usage.py`: the token counts of a response. Where `int` raises, the result is none;
-- `json.loads` is a parameter, and so is `int` of a string.
use inter_gate.Base.{String, Option, none, some, [], ◌==◌, nat_eq, list_eq, if◌then◌else◌, drop}
use inter_gate.Base.Int.{ℤ, pos, add_ℤ}
use inter_gate.Base.Text.{Text, codes, starts_with, strip}
use inter_gate.Json
use inter_gate.Json.{Json, Fields, find, as_object}
use Json.{bool, num, real, text}

-- The dict that `_normalize_usage` builds.
pub record Usage : Type 0 where
  pub prompt_tokens : Option ℤ
  pub completion_tokens : Option ℤ
  pub total_tokens : Option ℤ

abbrev pub no_usage : Usage
no_usage = record { prompt_tokens = none; completion_tokens = none; total_tokens = none }

-- `usage.get(k, 0)`
abbrev pub or_zero : Option ℤ → ℤ
or_zero none = pos 0
or_zero (some n) = n

module _ (int_of : String → Option ℤ) where
  -- `int(x)`
  unfoldable pub int : Json → Option ℤ
  int (bool b) = some (if b then pos 1 else pos 0)
  int (num n) = some n
  int (real nonzero n) = some n
  int (text s) = int_of s
  int _ = none

  -- `out[k] = int(u[k])` if k is in u: none where it raises.
  unfoldable pub copied : String → Fields → Option (Option ℤ)
  unfolding int
  copied k u = elim (find k u) [
    | none ↦ some none
    | some j ↦ elim (int j) [ none ↦ none | some n ↦ some (some n) ]
  ]

  -- The branch for Google's names, over what the other names gave.
  unfoldable pub google : Usage → Fields → Option Usage
  unfolding int
  google out u =
      let candidates : Option ℤ = elim (find "candidatesTokenCount" u) [
        | none ↦ some (pos 0)
        | some c ↦ int c
      ] in
      elim (find "promptTokenCount" u) [
        | none ↦ some out
        | some j ↦ elim (int j) [
          | none ↦ none
          | some p ↦ elim candidates [
            | none ↦ none
            | some c ↦ some (record {
              prompt_tokens = some p;
              completion_tokens = some c;
              total_tokens = some (add_ℤ p c);
            })
          ]
        ]
      ]

  unfoldable pub normalize_usage : Fields → Option Usage
  unfolding copied google
  normalize_usage u = elim (copied "prompt_tokens" u) [
    | none ↦ none
    | some p ↦ elim (copied "completion_tokens" u) [
      | none ↦ none
      | some c ↦ elim (copied "total_tokens" u) [
        | none ↦ none
        | some t ↦ google (record { prompt_tokens = p; completion_tokens = c; total_tokens = t }) u
      ]
    ]
  ]

  -- The object under a key, if there is one.
  abbrev pub object_at : String → Fields → Option Fields
  object_at k j = elim (find k j) [ none ↦ none | some v ↦ as_object v ]

  module _ (loads : Text → Option Json) where
    abbrev pub loads_object : Text → Option Fields
    loads_object body = elim (loads body) [ none ↦ none | some j ↦ as_object j ]

    unfoldable pub parse_usage_from_json : Text → Option Usage
    unfolding normalize_usage
    parse_usage_from_json body = elim (loads_object body) [
      | none ↦ some no_usage
      | some j ↦ elim (object_at "usage" j) [
        | some u ↦ normalize_usage u
        | none ↦ elim (object_at "usageMetadata" j) [
          | some u ↦ normalize_usage u
          | none ↦ some no_usage
        ]
      ]
    ]

    unfoldable pub parse_usage_from_sse_line : Text → Option Usage
    unfolding normalize_usage
    parse_usage_from_sse_line line =
        let payload = strip (drop 5 line) in
        let parsed : Option Usage = elim (loads_object payload) [
          | none ↦ some no_usage
          | some j ↦ elim (object_at "usage" j) [
            | some u ↦ normalize_usage u
            | none ↦ some no_usage
          ]
        ] in
        if starts_with line (codes "data:")
        then (if payload == codes "[DONE]"
            then some no_usage
            else if payload == []
            then some no_usage
            else parsed)
        else some no_usage
