-- ===== src/Canary.antt =====
-- The controller of progressive delivery (turboserve/canary/controller.py): lanes, samples and the
-- summary of a lane. Times and latencies are exact numbers of a unit, which is the caller's; a
-- percentile, which is interpolated, is in hundredths of that unit. A rate is a fraction.
pub mod Percentile
pub mod Window
pub mod Config
pub mod Controller
use turboserve.Prelude.{ℕ, ◌*◌, Bool, Option, Result, ok, err, value_error, ltb, if◌then◌else◌}

pub data Lane : Type 0 where
  stable_lane canary_lane : Lane

pub record Sample : Type 0 where
  pub t : ℕ
  pub succeeded : Bool
  pub ttft_ms : Option ℕ
  pub e2e_ms : Option ℕ

pub record LaneSummary : Type 0 where
  pub lane : Lane
  pub requests : ℕ
  pub errors : ℕ
  pub p95_ttft_ms : Option ℕ
  pub p95_e2e_ms : Option ℕ
  pub window_s : Option ℕ

-- The constructor with `__post_init__`.
unfoldable pub lane_summary : LaneSummary → Result LaneSummary
lane_summary s = if ltb s.requests s.errors then err value_error else ok s

pub record Fraction : Type 0 where
  pub numerator : ℕ
  pub denominator : ℕ

-- `a / b > limit`, for a positive `b`.
abbrev pub exceeds : ℕ → ℕ → Fraction → Bool
exceeds a b limit = ltb (limit.numerator * b) (a * limit.denominator)
