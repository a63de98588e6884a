-- ===== src/Tests/Routing.antt =====
-- Runs of the limiter, the balancer, the providers and the prices.
use inter_gate.Base.{
  ◌≤◌, String, ◌≡◌, refl, inl, inr, ◌⊎◌, ◌≢◌, true, ◌&&◌, ◌||◌, Option, none, some, List, [], ◌∷◌,
  arith, length, Elem, contains, IsDistinct, ◌==◌, string_eq,
}
use inter_gate.Base.Int.{pos}
use inter_gate.Base.Text.{Text, codes, lower, rstrip}
use inter_gate.Base.Floats.{fixed_point}
use inter_gate.Base.Dict
use inter_gate.Base.Dict.{Dict}
use inter_gate.Keys.ApiKey.{ApiKey}
use inter_gate.Limiter
use inter_gate.Limiter.{
  LimitSettings, SlidingWindow, Event, RateLimiter, new_window, minute, count, check, check_tpm,
  window_of, limit_for,
}
use inter_gate.Limiter.Window.{add_all, weight_in, count-add_all}
use inter_gate.Limiter.Requests.{Asked, counted, check_all, check_all-counted}
use inter_gate.Limiter.Adaptive.{InRange, check_tpm-InRange}
use inter_gate.Constants.{tpm_wait_budget_ms, provider_base_urls}
use inter_gate.Balancer.{LoadBalancer, pick}
use inter_gate.Balancer.Choice.{pick-candidate}
use inter_gate.Balancer.Fair.{rounds, rounds-fair}
use inter_gate.Providers.{
  detect_provider, detect_provider_by_path, detect_provider_by_model, header_choice, or_provider,
  candidate_providers, openai_style, fallbacks, resolve_base_url, given_url,
}
use inter_gate.Providers.Laws.{
  IsKnown, IsTrimmed, detect_provider-IsKnown, candidate_providers-exact,
  resolve_base_url-IsTrimmed,
}
use inter_gate.Pricing.{Rule, price_for}
use inter_gate.Pricing.Prices.{model_prices, default_price, Price}
use inter_gate.Pricing.Longest.{LongestPrice, NoPrice, price_for-longest}
use inter_gate.Tests.Data.{noon, key}

abbrev events : List Event
events = (5, 2) ∷ (9, 3) ∷ []

count-add_all_example : (count (add_all new_window events) 20).1 ≡ weight_in minute 20 events
count-add_all_example = count-add_all events 20 (omega arith, (omega arith, tt)) (omega arith)

abbrev limits : LimitSettings
limits = record {
  rate_limit_enabled = true;
  ip_rate_limit_per_minute = pos 1;
  global_rpm_limit = pos 2;
  adaptive_tpm_enabled = true;
}

abbrev pub limiter : RateLimiter fixed_point
limiter = Limiter.init fixed_point limits

limits_on : limiter.settings ≡ limits
unfolding Limiter.init
limits_on = refl

-- Two requests of one address; its limit is one in a minute.
abbrev asked : List Asked
asked = (10, "1.2.3.4") ∷ (11, "1.2.3.4") ∷ []

check_all-counted_example :
    check_all fixed_point (Limiter.init fixed_point limits) asked ≡ counted 2 1 [] [] asked
check_all-counted_example =
    check_all-counted fixed_point limits asked refl refl refl (omega arith, (omega arith, tt))

limiter-InRange : InRange fixed_point limiter.adaptive
unfolding Limiter.init limit_for Dict.lookup
limiter-InRange = record { floor = refl; ordered = refl; above = λ k. refl; below = λ k. refl }

check_tpm-InRange_example :
    let (r', answer) = check_tpm fixed_point limiter 10 "a" 5 in
    InRange fixed_point r'.adaptive
    × (fixed_point.le limiter.adaptive.min_tpm answer.2 ≡ true)
    × (fixed_point.le answer.2 limiter.adaptive.max_tpm ≡ true)
    × ((answer.0 ≡ true) ⊎ (fixed_point.le answer.1 (fixed_point.of_ℕ tpm_wait_budget_ms) ≡ true))
check_tpm-InRange_example =
    check_tpm-InRange fixed_point limiter 10 "a" 5 limiter-InRange (rw limits_on refl)

abbrev pub balancer : LoadBalancer fixed_point
balancer = record { rr = []; latencies = []; active = ("a", 3) ∷ [] }

abbrev others : List ApiKey
others = key "b" ∷ key "c" ∷ []

pick-candidate_example :
    ((pick fixed_point balancer noon 0 (key "a" ∷ others) "smart").1 ≡ none)
      × (key "a" ∷ others ≡ [])
    ⊎ ((x : ApiKey) × ((pick fixed_point balancer noon 0 (key "a" ∷ others) "smart").1 ≡ some x)
        × Elem x (key "a" ∷ others))
pick-candidate_example = pick-candidate fixed_point balancer noon 0 (key "a" ∷ others) "smart"

rounds-fair_example :
    Elem (key "c") (rounds fixed_point balancer (key "a") others (length (key "a" ∷ others)))
rounds-fair_example =
    rounds-fair fixed_point balancer (key "a") others (key "c") (inr (inr (inl refl)))

no_samples : (id : String) → length (Dict.lookup_or id [] balancer.latencies) ≤ 20
unfolding Dict.lookup
no_samples id = omega arith

abbrev chat_path : Text
chat_path = codes "/v1/chat/completions"

abbrev claude : Option Text
claude = some (codes "claude-3")

detect_provider-IsKnown_example :
    IsKnown (detect_provider chat_path claude none)
    × ((header_choice none ≡ some (detect_provider chat_path claude none))
        ⊎ ((header_choice none ≡ none)
            × (detect_provider_by_path chat_path ≢ "openai")
            × (detect_provider chat_path claude none ≡ detect_provider_by_path chat_path))
        ⊎ ((header_choice none ≡ none)
            × (detect_provider_by_path chat_path ≡ "openai")
            × (detect_provider chat_path claude none
                ≡ or_provider (detect_provider_by_model claude) "openai")))
detect_provider-IsKnown_example = detect_provider-IsKnown chat_path claude none

candidate_providers-exact_example :
    ((rest : List String) × (candidate_providers "google" chat_path ≡ "google" ∷ rest))
    × IsDistinct (candidate_providers "google" chat_path)
    × ((x : String)
        → contains (candidate_providers "google" chat_path) x
          ≡ ("google" == x || (openai_style chat_path && contains fallbacks x)))
candidate_providers-exact_example = candidate_providers-exact "google" chat_path

resolved :
    resolve_base_url "custom" (some (codes "http://host/v1/")) none ≡ some (codes "http://host/v1")
unfolding resolve_base_url rstrip
resolved = refl

resolve_base_url-IsTrimmed_example :
    IsTrimmed (codes "http://host/v1")
    × ((given_url (some (codes "http://host/v1/")) ≡ some (codes "http://host/v1"))
        ⊎ ((given_url (some (codes "http://host/v1/")) ≡ none)
            × (given_url none ≡ some (codes "http://host/v1")))
        ⊎ ((given_url (some (codes "http://host/v1/")) ≡ none)
            × (given_url none ≡ none)
            × (given_url (some (codes (Dict.lookup_or "custom" "" provider_base_urls)))
                ≡ some (codes "http://host/v1"))))
resolve_base_url-IsTrimmed_example =
    resolve_base_url-IsTrimmed "custom" (some (codes "http://host/v1/")) none
      (codes "http://host/v1") resolved

abbrev model : Text
model = codes "GPT-4o-mini"

abbrev prices : List (Rule (Price fixed_point))
prices = model_prices fixed_point

abbrev fallback : Price fixed_point
fallback = default_price fixed_point

price_for-longest_example :
    LongestPrice (lower model) [] (price_for [] prices fallback model)
    ⊎ (NoPrice {V = Price fixed_point} (lower model) []
        × (LongestPrice (lower model) prices (price_for [] prices fallback model)
            ⊎ (NoPrice (lower model) prices × (price_for [] prices fallback model ≡ fallback))))
price_for-longest_example = price_for-longest [] prices fallback model
