-- ===== src/Web/Settings.antt =====
-- `webapp.py`: the handler that changes the settings. `int` of a text and `float` are parameters.
use inter_gate.Base.{String, Bool, true, false, ◌&&◌, Option, none, some, List, [], ◌∷◌, string_eq}
use inter_gate.Base.Int.{ℤ, pos, leb_ℤ}
use inter_gate.Base.Dict
use inter_gate.Base.Dict.{Dict, lookup-insert_self}
use inter_gate.Json
use inter_gate.Json.{Json}
use Json.{bool, num}
use inter_gate.Store.{Database}
use inter_gate.Settings.{UserSettings, from_dict, save_settings}
use inter_gate.Usage.{int}

abbrev pub int_fields : List String
int_fields =
    "port" ∷ "web_port" ∷ "max_concurrent" ∷ "cache_ttl_seconds" ∷ "cache_max_entries"
    ∷ "ip_rate_limit_per_minute" ∷ "global_rpm_limit" ∷ "token_rate_limit_per_minute"
    ∷ "sync_interval_minutes" ∷ "log_retention_days" ∷ "max_log_entries" ∷ []

abbrev pub float_fields : List String
float_fields = "quota_warn_threshold" ∷ "burst_multiplier" ∷ []

-- `d.update(other)`
unfoldable pub updated : Dict String Json → Dict String Json → Dict String Json
updated d [] = d
updated d ((k, v) ∷ rest) = updated (Dict.insert k v d) rest

module _ (int_of : String → Option ℤ) (float : Json → Option Json) where
  abbrev pub as_num : Option ℤ → Option Json
  as_num none = none
  as_num (some n) = some (num n)

  -- The value that a numeric field gets: a bool is left alone, and none where the conversion raises.
  abbrev pub converted : (Json → Option Json) → Json → Option Json
  converted f (bool b) = some (bool b)
  converted f j = f j

  abbrev pub convert_at :
      (Json → Option Json) → String → Dict String Json → Option Json → Option (Dict String Json)
  convert_at f name d none = some d
  convert_at f name d (some j) = elim (converted f j) [
    | none ↦ none
    | some v ↦ some (Dict.insert name v d)
  ]

  unfoldable pub convert_all :
      (Json → Option Json) → List String → Dict String Json → Option (Dict String Json)
  convert_all f [] d = some d
  convert_all f (name ∷ names) d = elim (convert_at f name d (Dict.lookup name d)) [
    | none ↦ none
    | some d' ↦ convert_all f names d'
  ]

  abbrev pub in_range : Option ℤ → Bool
  in_range none = false
  in_range (some n) = leb_ℤ (pos 1) n && leb_ℤ n (pos 65_535)

  abbrev pub is_port : Json → Bool
  is_port j = in_range (int int_of j)

  -- The check of a port; where `int` raises, the request fails too.
  abbrev pub port_or_absent : Option Json → Bool
  port_or_absent none = true
  port_or_absent (some j) = is_port j

  abbrev pub ports_ok : Dict String Json → Bool
  ports_ok d = port_or_absent (Dict.lookup "port" d) && port_or_absent (Dict.lookup "web_port" d)

  abbrev pub stored_if : Bool → Database → UserSettings → Option (UserSettings × Database)
  stored_if true db s = some (s, save_settings db s)
  stored_if false db s = none

  -- The settings of the running process and the database behind the request; none where it fails,
  -- with nothing changed.
  unfoldable pub put_settings :
      Database → UserSettings → Dict String Json → Option (UserSettings × Database)
  unfolding updated convert_all int from_dict save_settings
  put_settings db s body =
      elim (convert_all (λ j. as_num (int int_of j)) int_fields (updated s body)) [
        | none ↦ none
        | some d ↦ elim (convert_all float float_fields d) [
          | none ↦ none
          | some e ↦ stored_if (ports_ok e) db (from_dict e)
        ]
      ]
