-- ===== src/Limiter/Adaptive.antt =====
-- The adaptive limit of tokens: additive increase and multiplicative decrease within fixed bounds.
use inter_gate.Base.{ℕ, ◌+◌, String, ◌≡◌, refl, true, arith, string_eq, Bool-cases, inl, inr, ◌⊎◌}
use inter_gate.Base.Floats.{Floats, fmin, fmax, fmax_between, fmin_between, le_refl}
use inter_gate.Base.Dict
use inter_gate.Base.Dict.{Dict}
use inter_gate.Constants.{tpm_wait_budget_ms}
use inter_gate.Limiter.{
  AdaptiveTpm, RateLimiter, limit_for, adjust_down, adjust_up, check_tpm, count, window_of,
}

module _ (fl : Floats) where
  open fl use {F, le, of_ℕ, mul, decimal, trans, total, mul_below, mul_above}

  -- The bounds make sense, and the limit of every key lies between them.
  pub record InRange (a : AdaptiveTpm fl) : Type 0 where
    pub floor : le (of_ℕ 0) a.min_tpm ≡ true
    pub ordered : le a.min_tpm a.max_tpm ≡ true
    pub above : (k : String) → le a.min_tpm (limit_for fl a k) ≡ true
    pub below : (k : String) → le (limit_for fl a k) a.max_tpm ≡ true

  adjust_down-bounds :
      (a : AdaptiveTpm fl) (j k : String)
      → InRange a
      → (le a.min_tpm (limit_for fl (adjust_down fl a j) k) ≡ true)
        × (le (limit_for fl (adjust_down fl a j) k) a.max_tpm ≡ true)
  unfolding adjust_down limit_for
  adjust_down-bounds a j k v =
      let cur = limit_for fl a j in
      let less = mul cur (decimal 85 2) in
      let pos = trans (of_ℕ 0) a.min_tpm cur v.floor (v.above j) in
      let small = trans less cur a.max_tpm (mul_below cur pos) (v.below j) in
      ground (
        arith,
        fmax_between fl a.min_tpm a.max_tpm less v.ordered small,
        Dict.lookup-insert j k (fmax fl a.min_tpm less) a.limits,
        v.above k,
        v.below k,
      )

  adjust_up-bounds :
      (a : AdaptiveTpm fl) (j k : String)
      → InRange a
      → (le a.min_tpm (limit_for fl (adjust_up fl a j) k) ≡ true)
        × (le (limit_for fl (adjust_up fl a j) k) a.max_tpm ≡ true)
  unfolding adjust_up limit_for
  adjust_up-bounds a j k v =
      let cur = limit_for fl a j in
      let more = mul cur (fl.add (of_ℕ 1) (decimal 2 2)) in
      let pos = trans (of_ℕ 0) a.min_tpm cur v.floor (v.above j) in
      let large = trans a.min_tpm cur more (v.above j) (mul_above cur pos) in
      ground (
        arith,
        fmin_between fl a.min_tpm a.max_tpm more v.ordered large,
        Dict.lookup-insert j k (fmin fl a.max_tpm more) a.limits,
        v.above k,
        v.below k,
      )

  adjust_down-same :
      (a : AdaptiveTpm fl) (j : String)
      → ((adjust_down fl a j).min_tpm ≡ a.min_tpm) × ((adjust_down fl a j).max_tpm ≡ a.max_tpm)
  unfolding adjust_down
  adjust_down-same a j = ground arith

  adjust_up-same :
      (a : AdaptiveTpm fl) (j : String)
      → ((adjust_up fl a j).min_tpm ≡ a.min_tpm) × ((adjust_up fl a j).max_tpm ≡ a.max_tpm)
  unfolding adjust_up
  adjust_up-same a j = ground arith

  adjust_down-InRange : (a : AdaptiveTpm fl) (j : String) → InRange a → InRange (adjust_down fl a j)
  unfolding adjust_down
  adjust_down-InRange a j v =
      let (lo, hi) = adjust_down-same a j in
      record {
        floor = rw lo v.floor;
        ordered = rw (lo, hi) v.ordered;
        above = λ k. rw lo (adjust_down-bounds a j k v).0;
        below = λ k. rw hi (adjust_down-bounds a j k v).1;
      }

  adjust_up-InRange : (a : AdaptiveTpm fl) (j : String) → InRange a → InRange (adjust_up fl a j)
  unfolding adjust_up
  adjust_up-InRange a j v =
      let (lo, hi) = adjust_up-same a j in
      record {
        floor = rw lo v.floor;
        ordered = rw (lo, hi) v.ordered;
        above = λ k. rw lo (adjust_up-bounds a j k v).0;
        below = λ k. rw hi (adjust_up-bounds a j k v).1;
      }

  wait_within : (x hi : F) → le (fmin fl x hi) hi ≡ true
  wait_within x hi = ground (arith, le_refl fl hi)

  -- Whatever a request asks for, the limits of all keys stay between the two bounds, and so is the
  -- limit that is reported; a request that has to wait has to wait no longer than the budget.
  pub check_tpm-InRange :
      (r : RateLimiter fl) (now : ℕ) (key_id : String) (tokens : ℕ)
      → InRange r.adaptive
      → r.settings.adaptive_tpm_enabled ≡ true
      → let (r', answer) = check_tpm fl r now key_id tokens in
        InRange r'.adaptive
        × (le r.adaptive.min_tpm answer.2 ≡ true)
        × (le answer.2 r.adaptive.max_tpm ≡ true)
        × ((answer.0 ≡ true) ⊎ (le answer.1 (of_ℕ tpm_wait_budget_ms) ≡ true))
  unfolding check_tpm
  check_tpm-InRange r now key_id tokens v on =
      let limit = limit_for fl r.adaptive key_id in
      let used = (count (window_of key_id r.tpm) now).1 in
      rw on (elim (Bool-cases (le (of_ℕ (used + tokens)) limit)) [
        | inl p ↦
            rw p (adjust_up-InRange r.adaptive key_id v, v.above key_id, v.below key_id, inl refl)
        | inr p ↦ rw p (
          adjust_down-InRange r.adaptive key_id v,
          v.above key_id,
          v.below key_id,
          inr (wait_within _ (of_ℕ tpm_wait_budget_ms)),
        )
      ])
