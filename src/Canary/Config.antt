-- ===== src/Canary/Config.antt =====
-- CanaryConfig: the policy of a rollout and its validation. from_yaml, which reads a file, is left out.
pub mod Ladder
use turboserve.Prelude.{
  ℕ, zero, suc, Bool, true, false, ◌&&◌, ◌||◌, not, Option, none, some, List, [], ◌∷◌, ltb, leb,
  ◌==◌, if◌then◌else◌, Result, ok, err, value_error,
}
use turboserve.Canary.{Fraction}

pub record CanaryConfig : Type 0 where
  pub steps : List ℕ
  pub step_hold_s : ℕ
  pub window_s : ℕ
  pub min_requests : ℕ
  pub max_error_rate : Fraction
  pub max_p95_ttft_ms : Option ℕ
  pub max_p95_ratio_vs_stable : Fraction
  pub stall_timeout_s : Option ℕ
  pub max_samples_per_lane : ℕ

-- `1 <= step <= 100` for every step.
unfoldable pub all_in_range : List ℕ → Bool
all_in_range [] = true
all_in_range (s ∷ ss) = (leb 1 s && leb s 100) && all_in_range ss

-- Each step is above the one before it.
unfoldable pub is_increasing : ℕ → List ℕ → Bool
is_increasing earlier [] = true
is_increasing earlier (later ∷ ss) = ltb earlier later && is_increasing later ss

unfoldable pub last_step : ℕ → List ℕ → ℕ
last_step s [] = s
last_step s (t ∷ ts) = last_step t ts

-- `_steps_are_monotone_and_complete`
unfoldable pub check_steps : List ℕ → Bool
unfolding all_in_range is_increasing last_step
check_steps [] = false
check_steps (s ∷ ss) = all_in_range (s ∷ ss) && (is_increasing s ss && (last_step s ss == 100))

abbrev pub is_positive : Option ℕ → Bool
is_positive none = true
is_positive (some n) = ltb 0 n

-- The constraints of the fields, and the validator of the steps.
unfoldable pub validate : CanaryConfig → Result CanaryConfig
unfolding check_steps
validate c =
    if check_steps c.steps
      && (ltb 0 c.step_hold_s
          && (ltb 0 c.window_s
              && (ltb 0 c.min_requests
                  && (leb c.max_error_rate.numerator c.max_error_rate.denominator
                      && (is_positive c.max_p95_ttft_ms
                          && (ltb 0 c.max_p95_ratio_vs_stable.numerator
                              && (is_positive c.stall_timeout_s
                                  && ltb 0 c.max_samples_per_lane)))))))
    then ok c
    else err value_error
