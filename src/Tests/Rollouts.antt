-- ===== src/Tests/Rollouts.antt =====
-- A rollout over two steps, with holds of ten and at least five requests.
use turboserve.Prelude.{ℕ, ◌≡◌, refl, Bool, true, false, none, some, [], ◌∷◌, ok, arith}
use turboserve.Canary.{Lane, stable_lane, canary_lane, Sample, LaneSummary}
use turboserve.Canary.Percentile.{percentile}
use turboserve.Canary.Percentile.Ranks.{IsPercentile, percentile-IsPercentile}
use turboserve.Canary.Config.{CanaryConfig, validate}
use turboserve.Canary.Config.Ladder.{IsPolicy, validate-IsPolicy}
use turboserve.Canary.Window.{prune, empty_window}
use turboserve.Canary.Window.Expiry.{recent}
use turboserve.Canary.Window.InOrder.{observe_all, observe_all-recent}
use turboserve.Canary.Controller.{
  CanaryController, promoted, Decision, init, start, tick, judge, is_running, recorded, begun,
}
use turboserve.Canary.Controller.Gates.{IsWithin, IsVerdict, judge-IsVerdict}
use turboserve.Canary.Controller.Rollout.{Reach, here, next, starts, ticks, IsSound}
use turboserve.Canary.Controller.Reachable.{Reach-IsSound}
use turboserve.Canary.Controller.Moves.{IsMove, tick-IsMove}
use turboserve.Canary.Controller.Promotion.{tick_all, tick_all-promoted}

abbrev config : CanaryConfig
config = record {
  steps = 5 ∷ 100 ∷ [];
  step_hold_s = 10;
  window_s = 60;
  min_requests = 5;
  max_error_rate = record { numerator = 1; denominator = 200 };
  max_p95_ttft_ms = none;
  max_p95_ratio_vs_stable = record { numerator = 5; denominator = 4 };
  stall_timeout_s = some 90;
  max_samples_per_lane = 1000;
}

is_valid : validate config ≡ ok config
unfolding validate
is_valid = refl

policy : IsPolicy config
policy = (validate-IsPolicy config is_valid).1

abbrev healthy : Lane → LaneSummary
healthy lane = record {
  lane = lane;
  requests = 8;
  errors = 0;
  p95_ttft_ms = some 2000;
  p95_e2e_ms = none;
  window_s = some 60;
}

-- After `start` at the time 1.
abbrev rollout : CanaryController
rollout = (start (118 ∷ 50 ∷ []) 1 (init config)).1

path : Reach (init config) (tick 3 none none rollout).1
path = next (next here (starts (118 ∷ 50 ∷ []) 1)) (ticks 3 none none)

runs : is_running rollout.state ≡ true
unfolding start
runs = refl

healthy-IsWithin : IsWithin config (healthy stable_lane) (healthy canary_lane)
healthy-IsWithin = record {
  few_errors = omega arith;
  fast = tt;
  close_ttft = λ h p. omega arith;
  close_e2e = λ h. tt;
}

validate-IsPolicy_example : (config ≡ config) × IsPolicy config
validate-IsPolicy_example = validate-IsPolicy config is_valid

judge-IsVerdict_example :
    IsVerdict 20
      (healthy stable_lane)
      (healthy canary_lane)
      rollout
      (judge 20 (healthy stable_lane) (healthy canary_lane) rollout).0
judge-IsVerdict_example = judge-IsVerdict 20 (healthy stable_lane) (healthy canary_lane) rollout

Reach-IsSound_example : IsSound config (tick 3 none none rollout).1
Reach-IsSound_example = Reach-IsSound config policy path

tick-IsMove_example :
    (d : Decision) × ((tick 20 none none rollout).0 ≡ ok d)
    × IsMove rollout d (tick 20 none none rollout).1
tick-IsMove_example =
    tick-IsMove config policy 20 none none rollout
      (Reach-IsSound config policy (next here (starts (118 ∷ 50 ∷ []) 1))) runs

tick_all-promoted_example :
    (tick_all (11 ∷ 21 ∷ []) (healthy stable_lane) (healthy canary_lane) rollout).state ≡ promoted
unfolding start recorded begun
tick_all-promoted_example =
    tick_all-promoted (healthy stable_lane) (healthy canary_lane) (11 ∷ 21 ∷ []) rollout runs
      (omega arith) healthy-IsWithin (omega arith, (omega arith, tt)) (omega arith) refl

abbrev sample : ℕ → Bool → Sample
sample t succeeded = record { t = t; succeeded = succeeded; ttft_ms = some 3; e2e_ms = none }

observe_all-recent_example :
    (prune 100
      (observe_all (sample 5 true ∷ sample 70 false ∷ []) (empty_window canary_lane 60 10))).samples
    ≡ recent 60 100 (sample 5 true ∷ sample 70 false ∷ [])
observe_all-recent_example =
    observe_all-recent canary_lane 60 10 100 (sample 5 true ∷ sample 70 false ∷ [])
      (omega arith, (omega arith, omega arith)) (omega arith)

percentile-IsPercentile_example :
    (p : ℕ) × (percentile (7 ∷ 3 ∷ 9 ∷ []) 95 ≡ ok (some p)) × IsPercentile (7 ∷ 3 ∷ 9 ∷ []) 95 p
percentile-IsPercentile_example = percentile-IsPercentile 7 (3 ∷ 9 ∷ []) 95 (omega arith)
