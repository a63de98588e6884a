-- ===== src/Settings.antt =====
-- `config/settings.py` and `load_settings` of `main.py`: the settings, a dict of the fields of
-- `UserSettings`, whose values Python does not type. A fraction is kept as its integral part.
use inter_gate.Base.{String, true, false, Option, some, [], ◌∷◌, string_eq}
use inter_gate.Base.Int.{pos}
use inter_gate.Base.Dict
use inter_gate.Base.Dict.{Dict}
use inter_gate.Json
use inter_gate.Json.{Json, Fields}
use Json.{bool, num, real, text, obj}
use Fields.{end, field}
use inter_gate.Store.{Database, get_setting, set_setting}

abbrev pub UserSettings : Type 0
UserSettings = Dict String Json

-- The fields with their defaults.
abbrev pub default_settings : UserSettings
default_settings =
    ("gateway_enabled", bool true)
    ∷ ("host", text "0.0.0.0")
    ∷ ("port", num (pos 51_234))
    ∷ ("gateway_key", text "")
    ∷ ("gateway_key_enabled", bool true)
    ∷ ("max_concurrent", num (pos 50))
    ∷ ("workers", num (pos 1))
    ∷ ("load_balance_strategy", text "smart")
    ∷ ("cache_enabled", bool true)
    ∷ ("cache_ttl_seconds", num (pos 300))
    ∷ ("cache_max_entries", num (pos 500))
    ∷ ("rate_limit_enabled", bool true)
    ∷ ("ip_rate_limit_per_minute", num (pos 0))
    ∷ ("global_rpm_limit", num (pos 0))
    ∷ ("token_rate_limit_per_minute", num (pos 0))
    ∷ ("burst_multiplier", real true (pos 1))
    ∷ ("adaptive_tpm_enabled", bool true)
    ∷ ("quota_warn_threshold", real true (pos 0))
    ∷ ("quota_warn_enabled", bool true)
    ∷ ("sync_enabled", bool true)
    ∷ ("sync_interval_minutes", num (pos 60))
    ∷ ("log_retention_days", num (pos 7))
    ∷ ("max_log_entries", num (pos 5000))
    ∷ ("web_enabled", bool true)
    ∷ ("web_port", num (pos 51_235))
    ∷ ("web_password", text "")
    ∷ ("webhook_enabled", bool false)
    ∷ ("webhook_url", text "")
    ∷ ("webhook_secret", text "")
    ∷ ("upstream_max_connections", num (pos 100))
    ∷ ("upstream_max_keepalive", num (pos 20))
    ∷ []

-- The fields of a dict that are known, with the default where one is missing.
unfoldable pub known_from : UserSettings → Dict String Json → UserSettings
known_from [] d = []
known_from ((name, value) ∷ rest) d = (name, Dict.lookup_or name value d) ∷ known_from rest d

unfoldable pub from_dict : Dict String Json → UserSettings
unfolding known_from
from_dict d = known_from default_settings d

-- `to_dict`, as JSON, and back.
unfoldable pub to_fields : UserSettings → Fields
to_fields [] = end
to_fields ((name, value) ∷ rest) = field name value (to_fields rest)

unfoldable pub of_fields : Fields → Dict String Json
of_fields end = []
of_fields (field name value rest) = (name, value) ∷ of_fields rest

abbrev pub saved_fields : Option Json → Dict String Json
saved_fields (some (obj j)) = of_fields j
saved_fields _ = []

unfoldable pub save_settings : Database → UserSettings → Database
unfolding set_setting to_fields
save_settings db s = set_setting db "user_settings" (obj (to_fields s))

-- `load_settings`; what is saved is an object.
unfoldable pub load_settings : Database → UserSettings × Database
unfolding get_setting from_dict of_fields save_settings
load_settings db =
    let s = from_dict (saved_fields (get_setting db "user_settings")) in (s, save_settings db s)
