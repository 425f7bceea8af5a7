-- ===== src/Canary/Window.antt =====
-- LaneWindow: the sliding window of one lane's samples, oldest first. The latest time seen, which
-- starts at minus infinity, is `none` until a time is seen. `t < latest - window_s` is written as
-- `t + window_s < latest`.
pub mod Expiry
pub mod InOrder
use turboserve.Prelude.{
  ℕ, zero, suc, ◌+◌, ◌-◌, max, Bool, true, false, not, Option, none, some, List, [], ◌∷◌, ◌++◌,
  length, drop, ltb, ◌==◌, if◌then◌else◌, Result, ok, err, value_error, Exec,
}
use turboserve.Canary.{Lane, Sample, LaneSummary, lane_summary}
use turboserve.Canary.Percentile.{percentile}

pub record LaneWindow : Type 0 where
  pub lane : Lane
  pub window_s : ℕ
  pub max_samples : ℕ
  pub samples : List Sample
  pub latest : Option ℕ

abbrev pub empty_window : Lane → ℕ → ℕ → LaneWindow
empty_window lane window_s max_samples = record {
  lane = lane;
  window_s = window_s;
  max_samples = max_samples;
  samples = [];
  latest = none;
}

-- `__init__`
unfoldable pub lane_window : Lane → ℕ → ℕ → Result LaneWindow
lane_window lane window_s max_samples =
    if window_s == 0
    then err value_error
    else if max_samples == 0
    then err value_error
    else ok (empty_window lane window_s max_samples)

abbrev pub later : Option ℕ → ℕ → ℕ
later none now = now
later (some latest) now = max latest now

-- Whether a time is older than the window.
abbrev pub is_expired : ℕ → ℕ → ℕ → Bool
is_expired window_s latest t = ltb (t + window_s) latest

-- The `while` loop of `prune`.
unfoldable pub drop_expired : ℕ → ℕ → List Sample → List Sample
drop_expired window_s latest [] = []
drop_expired window_s latest (s ∷ ss) =
    let rest = drop_expired window_s latest ss in
    if is_expired window_s latest s.t then rest else s ∷ ss

unfoldable pub prune : ℕ → LaneWindow → LaneWindow
unfolding drop_expired
prune now w =
    let latest = later w.latest now in
    record w { latest = some latest; samples = drop_expired w.window_s latest w.samples }

-- `append` of a deque with a `maxlen`.
unfoldable pub push : ℕ → List Sample → Sample → List Sample
push max_samples ss s = let grown = ss ++ s ∷ [] in drop (length grown - max_samples) grown

unfoldable pub observe : Bool → Option ℕ → Option ℕ → ℕ → LaneWindow → LaneWindow
unfolding prune push
observe succeeded ttft_ms e2e_ms now w =
    let w' = prune now w in
    if is_expired w.window_s (later w.latest now) now then w' else record w' {
      samples =
          push w'.max_samples w'.samples
            (record { t = now; succeeded = succeeded; ttft_ms = ttft_ms; e2e_ms = e2e_ms });
    }

unfoldable pub clear : LaneWindow → LaneWindow
clear w = record w { samples = []; latest = none }

-- `sum(1 for s in samples if not s.ok)`
unfoldable pub num_errors : List Sample → ℕ
num_errors [] = 0
num_errors (s ∷ ss) = (if s.succeeded then 0 else 1) + num_errors ss

abbrev pub measured : Bool → Option ℕ → List ℕ → List ℕ
measured true (some ms) rest = ms ∷ rest
measured true none rest = rest
measured false ms rest = rest

-- The latencies of the samples that succeeded and have one.
unfoldable pub latencies : (Sample → Option ℕ) → List Sample → List ℕ
latencies of [] = []
latencies of (s ∷ ss) = measured s.succeeded (of s) (latencies of ss)

unfoldable pub summary_of : LaneWindow → Result (Option ℕ) → Result (Option ℕ) → Result LaneSummary
unfolding num_errors lane_summary
summary_of w (err e) e2e = err e
summary_of w (ok ttft) (err e) = err e
summary_of w (ok ttft) (ok e2e) = lane_summary (record {
  lane = w.lane;
  requests = length w.samples;
  errors = num_errors w.samples;
  p95_ttft_ms = ttft;
  p95_e2e_ms = e2e;
  window_s = some w.window_s;
})

unfoldable pub summary : ℕ → Exec LaneWindow LaneSummary
unfolding prune summary_of latencies percentile
summary now w =
    let w' = prune now w in
    (
      summary_of w' (percentile (latencies Sample.ttft_ms w'.samples) 95)
          (percentile (latencies Sample.e2e_ms w'.samples) 95),
      w',
    )
