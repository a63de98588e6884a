-- ===== src/Constants.antt =====
-- The constants of `config/constants.py` that the models use.
use inter_gate.Base.{ℕ, ◌*◌, String, List, [], ◌∷◌}
use inter_gate.Base.Dict.{Dict}

abbrev pub max_failure_threshold : ℕ
max_failure_threshold = 3

abbrev pub cooldown_seconds : ℕ
cooldown_seconds = 300

abbrev pub max_retry_keys : ℕ
max_retry_keys = 3

abbrev pub max_request_body_bytes : ℕ
max_request_body_bytes = 32 * 1024 * 1024

abbrev pub quota_exhausted_cooldown_ms : ℕ
quota_exhausted_cooldown_ms = 30 * 60 * 1000

abbrev pub tpm_wait_budget_ms : ℕ
tpm_wait_budget_ms = 8000

abbrev pub max_persisted_alerts : ℕ
max_persisted_alerts = 200

abbrev pub health_paths : List String
health_paths = "/health" ∷ "/healthz" ∷ "/ping" ∷ []

abbrev pub stats_path : String
stats_path = "/relay/stats"

abbrev pub version_path : String
version_path = "/relay/version"

abbrev pub report_path : String
report_path = "/relay/report"

abbrev pub cache_stats_path : String
cache_stats_path = "/relay/cache"

abbrev pub metrics_path : String
metrics_path = "/relay/metrics"

abbrev pub models_path : String
models_path = "/v1/models"

abbrev pub provider_base_urls : Dict String String
provider_base_urls =
    ("openai", "https://api.openai.com/v1")
    ∷ ("opencode", "")
    ∷ ("anthropic", "https://api.anthropic.com")
    ∷ ("google", "https://generativelanguage.googleapis.com")
    ∷ ("azure", "")
    ∷ ("custom", "")
    ∷ []

abbrev pub model_prefix_to_provider : List (String × String)
model_prefix_to_provider =
    ("gpt-", "openai")
    ∷ ("o1", "openai")
    ∷ ("o3", "openai")
    ∷ ("o4", "openai")
    ∷ ("chatgpt", "openai")
    ∷ ("text-embedding", "openai")
    ∷ ("dall-e", "openai")
    ∷ ("whisper", "openai")
    ∷ ("tts-", "openai")
    ∷ ("claude", "anthropic")
    ∷ ("gemini", "google")
    ∷ ("palm", "google")
    ∷ ("chat-bison", "google")
    ∷ ("text-bison", "google")
    ∷ ("embedding-00", "google")
    ∷ []

abbrev pub quota_exhausted_keywords : List String
quota_exhausted_keywords =
    "free_quota_exhausted" ∷ "free quota" ∷ "insufficient_quota" ∷ "insufficient ledger balance"
    ∷ "insufficient_ledger_balance" ∷ "exceeded your current quota" ∷ "quota_exceeded"
    ∷ "quota exhausted" ∷ "billing_not_active" ∷ "billing not active" ∷ "billing_hard_limit"
    ∷ "credit_balance_too_low" ∷ "insufficient_credit" ∷ "insufficient credit" ∷ "out of credits"
    ∷ "not enough credit" ∷ "payment_required" ∷ "account_deactivated" ∷ "usage cap"
    ∷ "daily usage limit" ∷ "daily limit reached" ∷ []

abbrev pub provider_header : String
provider_header = "x-relay-provider"

abbrev pub key_name_header : String
key_name_header = "x-relay-key"

abbrev pub cache_hit_header : String
cache_hit_header = "x-relay-cache"

abbrev pub retry_after_header : String
retry_after_header = "retry-after"
