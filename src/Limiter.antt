-- ===== src/Limiter.antt =====
-- `services/rate_limiter.py`: sliding windows, the adaptive limit of tokens, and the limiter. Times
-- are readings of `time.monotonic`, in a unit in which `minute` is a minute; the sums of the
-- windows are sums of whole numbers, which floats hold exactly.
pub mod Window
pub mod Adaptive
pub mod Requests
use inter_gate.Base.{
  ℕ, suc, ◌+◌, ◌-◌, ◌*◌, ◌/◌, ◌≤◌, ◌<◌, max, String, ◌≡◌, Bool, true, false, not, Option, none,
  some, List, [], ◌∷◌, ◌++◌, arith, ◌==◌, string_eq, ltb, leb, if◌then◌else◌, length,
}
use inter_gate.Base.Int.{ℤ, pos_part}
use inter_gate.Base.Floats.{Floats, fmin, fmax}
use inter_gate.Base.Dict
use inter_gate.Base.Dict.{Dict}
use inter_gate.Constants.{tpm_wait_budget_ms}

-- An event: its time and its weight.
abbrev pub Event : Type 0
Event = ℕ × ℕ

pub record SlidingWindow : Type 0 where
  pub window : ℕ
  pub events : List Event
  pub sum : ℕ

-- The loop of `_prune`: what is left, and the sum.
unfoldable pub prune_from : ℕ → ℕ → List Event → ℕ → List Event × ℕ
prune_from window now [] total = ([], total)
prune_from window now ((ts, weight) ∷ events) total = elim (leb (ts + window) now) [
  | true ↦ prune_from window now events (total - weight)
  | false ↦ ((ts, weight) ∷ events, total)
]

unfoldable pub prune : SlidingWindow → ℕ → SlidingWindow
unfolding prune_from
prune w now =
    let (events, total) = prune_from w.window now w.events w.sum in
    record w { events = events; sum = total }

-- `add(weight)` and `count()` at the time `now`: the window and the number returned.
unfoldable pub add : SlidingWindow → ℕ → ℕ → SlidingWindow × ℕ
unfolding prune
add w now weight =
    let p = prune w now in
    (record p { events = p.events ++ (now, weight) ∷ []; sum = p.sum + weight }, p.sum + weight)

unfoldable pub count : SlidingWindow → ℕ → SlidingWindow × ℕ
unfolding prune
count w now = let p = prune w now in (p, p.sum)

-- Sixty seconds of nanoseconds.
unfoldable pub minute : ℕ
minute = 60 * 1_000_000_000

unfoldable pub new_window : SlidingWindow
new_window = record { window = minute; events = []; sum = 0 }

-- `d[k]` of a `defaultdict(SlidingWindow)`.
abbrev pub window_of : String → Dict String SlidingWindow → SlidingWindow
window_of k d = Dict.lookup_or k new_window d

-- The settings that the limiter reads.
pub record LimitSettings : Type 0 where
  pub rate_limit_enabled : Bool
  pub ip_rate_limit_per_minute : ℤ
  pub global_rpm_limit : ℤ
  pub adaptive_tpm_enabled : Bool

abbrev pub positive : ℤ → Bool
positive n = ltb 0 (pos_part n)

-- `_retry_after`
unfoldable pub retry_after : ℤ → ℕ
retry_after limit_per_min =
    if positive limit_per_min then max 1 (60 / pos_part limit_per_min + 1) else 1

module _ (fl : Floats) where
  open fl use {F, le, sub, mul, div, of_ℕ, decimal, floor_div}

  pub record AdaptiveTpm : Type 0 where
    pub enabled : Bool
    pub limits : Dict String F
    pub min_tpm : F
    pub max_tpm : F

  pub record RateLimiter : Type 0 where
    pub settings : LimitSettings
    pub ip : Dict String SlidingWindow
    pub global : SlidingWindow
    pub key : Dict String SlidingWindow
    pub tpm : Dict String SlidingWindow
    pub adaptive : AdaptiveTpm

  unfoldable pub limit_for : AdaptiveTpm → String → F
  limit_for a key_id = Dict.lookup_or key_id a.max_tpm a.limits

  unfoldable pub adjust_down : AdaptiveTpm → String → AdaptiveTpm
  adjust_down a key_id =
      if a.enabled
      then record a {
        limits =
            Dict.insert key_id
              (fmax fl a.min_tpm (mul (Dict.lookup_or key_id a.max_tpm a.limits) (decimal 85 2)))
              a.limits;
      }
      else a

  unfoldable pub adjust_up : AdaptiveTpm → String → AdaptiveTpm
  adjust_up a key_id =
      if a.enabled
      then record a {
        limits =
            Dict.insert key_id
              (fmin fl a.max_tpm
                (mul (Dict.lookup_or key_id a.max_tpm a.limits) (fl.add (of_ℕ 1) (decimal 2 2))))
              a.limits;
      }
      else a

  unfoldable pub init : LimitSettings → RateLimiter
  init settings = record {
    settings = settings;
    ip = [];
    global = new_window;
    key = [];
    tpm = [];
    adaptive = record {
      enabled = settings.adaptive_tpm_enabled;
      limits = [];
      min_tpm = of_ℕ 60;
      max_tpm = of_ℕ 100_000;
    };
  }

  -- The part of `check` behind the global limit.
  unfoldable pub check_ip : RateLimiter → ℕ → String → RateLimiter × (Bool × ℕ × String)
  check_ip r now ip =
      let limit = r.settings.ip_rate_limit_per_minute in
      if positive limit
      then (let (w, n) = add (window_of ip r.ip) now 1 in
          (
            record r { ip = Dict.insert ip w r.ip },
            if ltb (pos_part limit) n then (false, retry_after limit, "ip") else (true, 0, ""),
          ))
      else (r, (true, 0, ""))

  unfoldable pub check : RateLimiter → ℕ → String → RateLimiter × (Bool × ℕ × String)
  unfolding check_ip
  check r now ip =
      let limit = r.settings.global_rpm_limit in
      if r.settings.rate_limit_enabled
      then (if positive limit
          then (let (w, n) = add r.global now 1 in
              let r' : RateLimiter = record r { global = w } in
              if ltb (pos_part limit) n
              then (r', (false, retry_after limit, "global"))
              else check_ip r' now ip)
          else check_ip r now ip)
      else (r, (true, 0, ""))

  unfoldable pub check_key_rpm : RateLimiter → ℕ → String → ℤ → RateLimiter × (Bool × ℕ)
  check_key_rpm r now key_id max_rpm =
      if positive max_rpm
      then (let (w, n) = add (window_of key_id r.key) now 1 in
          (
            record r { key = Dict.insert key_id w r.key },
            if ltb (pos_part max_rpm) n then (false, retry_after max_rpm) else (true, 0),
          ))
      else (r, (true, 0))

  -- The weight that `check_tpm` books for a request that it admits.
  abbrev pub tpm_weight : ℕ → F → ℕ
  tpm_weight tokens limit = max 1 (tokens / max 1 (floor_div limit 60))

  -- `check_tpm`: whether the request is admitted, the wait in milliseconds and the limit.
  unfoldable pub check_tpm : RateLimiter → ℕ → String → ℕ → RateLimiter × (Bool × F × F)
  unfolding limit_for adjust_down adjust_up
  check_tpm r now key_id tokens =
      if r.settings.adaptive_tpm_enabled
      then (let limit = limit_for r.adaptive key_id in
          let (w, used) = count (window_of key_id r.tpm) now in
          let need = of_ℕ (used + tokens) in
          if le need limit
          then (let (w', _) = add w now (tpm_weight tokens limit) in
              (
                record r {
                  tpm = Dict.insert key_id w' r.tpm;
                  adaptive = adjust_up r.adaptive key_id;
                },
                (true, of_ℕ 0, limit),
              ))
          else (
            record r { tpm = Dict.insert key_id w r.tpm; adaptive = adjust_down r.adaptive key_id },
            (
              false,
              fmin fl (mul (div (sub need limit) limit) (of_ℕ 60_000)) (of_ℕ tpm_wait_budget_ms),
              limit,
            ),
          ))
      else (r, (true, of_ℕ 0, of_ℕ 0))
