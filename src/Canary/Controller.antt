-- ===== src/Canary/Controller.antt =====
-- CanaryController: the state machine of a rollout. The moment of a call is an argument, which the
-- code takes from its caller or from its clock. A version is a text, as its characters. A reason is a
-- message for people, of which the constructors of Reason name the cases.
pub mod Gates
pub mod Rollout
pub mod Reachable
pub mod Moves
pub mod Promotion
use turboserve.Prelude.{
  ℕ, zero, suc, ◌+◌, ◌-◌, Bool, true, false, ◌&&◌, Option, none, some, List, [], ◌∷◌, ◌++◌, length,
  get_or, ltb, leb, ◌==◌, if◌then◌else◌, Result, ok, err, value_error, canary_error, Exec, continue,
}
use turboserve.Canary.{Lane, stable_lane, canary_lane, LaneSummary, exceeds}
use turboserve.Canary.Window
use turboserve.Canary.Window.{LaneWindow, empty_window}
use turboserve.Canary.Config.{CanaryConfig}

pub data CanaryState : Type 0 where
  idle canary promoted rolled_back : CanaryState

pub data DecisionKind : Type 0 where
  hold advance promote rollback : DecisionKind

pub data Reason : Type 0 where
  started aborted not_running stalled waiting_for_traffic : Reason
  error_rate p95_ttft ratio_ttft ratio_e2e : Reason
  holding all_held advancing : Reason

pub record Decision : Type 0 where
  pub kind : DecisionKind
  pub reason : Reason
  pub at : ℕ
  pub state : CanaryState
  pub weight : ℕ
  pub step_index : ℕ
  pub version : Option (List ℕ)
  pub stable_summary : Option LaneSummary
  pub canary_summary : Option LaneSummary

pub record CanaryController : Type 0 where
  pub config : CanaryConfig
  pub state : CanaryState
  pub version : Option (List ℕ)
  pub step_index : ℕ
  pub step_started_at : ℕ
  pub history : List Decision
  pub stable_window : LaneWindow
  pub canary_window : LaneWindow

abbrev pub init : CanaryConfig → CanaryController
init config = record {
  config = config;
  state = idle;
  version = none;
  step_index = 0;
  step_started_at = 0;
  history = [];
  stable_window = empty_window stable_lane config.window_s config.max_samples_per_lane;
  canary_window = empty_window canary_lane config.window_s config.max_samples_per_lane;
}

abbrev pub is_running : CanaryState → Bool
is_running canary = true
is_running _ = false

-- `canary_weight`, of a state at a step. A running rollout's step is one of the list's.
abbrev pub weight_at : CanaryState → List ℕ → ℕ → ℕ
weight_at canary steps i = get_or steps i 0
weight_at promoted steps i = 100
weight_at idle steps i = 0
weight_at rolled_back steps i = 0

abbrev pub canary_weight : CanaryController → ℕ
canary_weight c = weight_at c.state c.config.steps c.step_index

abbrev pub stable_weight : CanaryController → ℕ
stable_weight c = 100 - canary_weight c

abbrev pub decision :
    DecisionKind
    → Reason
    → ℕ
    → Option LaneSummary
    → Option LaneSummary
    → CanaryController
    → Decision
decision kind reason at s k c = record {
  kind = kind;
  reason = reason;
  at = at;
  state = c.state;
  weight = canary_weight c;
  step_index = c.step_index;
  version = c.version;
  stable_summary = s;
  canary_summary = k;
}

-- `_record`: the decision carries the state after it.
unfoldable pub recorded :
    DecisionKind
    → Reason
    → ℕ
    → Option LaneSummary
    → Option LaneSummary
    → CanaryController
    → Decision × CanaryController
recorded kind reason at s k c =
    let d = decision kind reason at s k c in (d, record c { history = c.history ++ d ∷ [] })

abbrev pub done : {S : Type 0} → Decision × S → Result Decision × S
done (d, c) = (ok d, c)

-- The fields that `start` writes.
unfoldable pub begun : List ℕ → ℕ → CanaryController → CanaryController
unfolding Window.clear
begun version now c = record c {
  version = some version;
  step_index = 0;
  step_started_at = now;
  state = canary;
  history = [];
  stable_window = Window.clear c.stable_window;
  canary_window = Window.clear c.canary_window;
}

unfoldable pub start : List ℕ → ℕ → Exec CanaryController Decision
unfolding recorded begun
start version now c =
    if is_running c.state
    then (err canary_error, c)
    else if length version == 0
    then (err value_error, c)
    else done (recorded advance started now none none (begun version now c))

unfoldable pub abort : ℕ → Exec CanaryController Decision
unfolding recorded
abort now c =
    if is_running c.state
    then done (recorded rollback aborted now none none (record c { state = rolled_back }))
    else (err canary_error, c)

unfoldable pub reset : CanaryController → CanaryController
unfolding Window.clear
reset c = record c {
  state = idle;
  version = none;
  step_index = 0;
  step_started_at = 0;
  history = [];
  stable_window = Window.clear c.stable_window;
  canary_window = Window.clear c.canary_window;
}

unfoldable pub observe : Lane → Bool → Option ℕ → Option ℕ → ℕ → CanaryController → CanaryController
unfolding Window.observe
observe stable_lane succeeded ttft_ms e2e_ms now c = record c {
  stable_window = Window.observe succeeded ttft_ms e2e_ms now c.stable_window;
}
observe canary_lane succeeded ttft_ms e2e_ms now c = record c {
  canary_window = Window.observe succeeded ttft_ms e2e_ms now c.canary_window;
}

-- `summary` of a lane, which expires samples of its window.
unfoldable pub lane_summary : Lane → ℕ → Exec CanaryController LaneSummary
unfolding Window.summary
lane_summary stable_lane now c =
    let (r, w) = Window.summary now c.stable_window in (r, record c { stable_window = w })
lane_summary canary_lane now c =
    let (r, w) = Window.summary now c.canary_window in (r, record c { canary_window = w })

abbrev pub is_over : Option ℕ → Option ℕ → Bool
is_over (some limit) (some p95) = ltb limit p95
is_over (some limit) none = false
is_over none p95 = false

-- One round of the loop over the pairs of percentiles.
abbrev pub is_slower : CanaryConfig → Option ℕ → Option ℕ → Bool
is_slower config (some canary_p95) (some stable_p95) =
    ltb 0 stable_p95 && exceeds canary_p95 stable_p95 config.max_p95_ratio_vs_stable
is_slower config none stable_p95 = false
is_slower config (some canary_p95) none = false

-- `_breach`
unfoldable pub breach : CanaryConfig → LaneSummary → LaneSummary → Option Reason
breach config s k =
    if exceeds k.errors k.requests config.max_error_rate
    then some error_rate
    else if is_over config.max_p95_ttft_ms k.p95_ttft_ms
    then some p95_ttft
    else if ltb s.requests config.min_requests
    then none
    else if is_slower config k.p95_ttft_ms s.p95_ttft_ms
    then some ratio_ttft
    else if is_slower config k.p95_e2e_ms s.p95_e2e_ms
    then some ratio_e2e
    else none

abbrev pub is_stalled : Option ℕ → ℕ → Bool
is_stalled none elapsed = false
is_stalled (some timeout) elapsed = leb timeout elapsed

-- The part of `tick` after the gates.
unfoldable pub proceed :
    ℕ → LaneSummary → LaneSummary → CanaryController → Decision × CanaryController
unfolding recorded
proceed now s k c =
    if ltb (now - c.step_started_at) c.config.step_hold_s
    then recorded hold holding now (some s) (some k) c
    else if leb (length c.config.steps - 1) c.step_index
    then recorded promote all_held now (some s) (some k) (record c { state = promoted })
    else recorded advance advancing now (some s) (some k)
        (record c { step_index = c.step_index + 1; step_started_at = now })

unfoldable pub judged :
    Option Reason → ℕ → LaneSummary → LaneSummary → CanaryController → Decision × CanaryController
unfolding recorded proceed
judged none now s k c = proceed now s k c
judged (some reason) now s k c =
    recorded rollback reason now (some s) (some k) (record c { state = rolled_back })

-- The part of `tick` with both summaries at hand. Holds and timeouts are positive, so a clock that
-- runs backwards, whose elapsed time the code has below zero, counts as no time elapsed.
unfoldable pub judge :
    ℕ → LaneSummary → LaneSummary → CanaryController → Decision × CanaryController
unfolding recorded judged breach
judge now s k c =
    if ltb k.requests c.config.min_requests
    then if is_stalled c.config.stall_timeout_s (now - c.step_started_at)
      then recorded rollback stalled now (some s) (some k) (record c { state = rolled_back })
      else recorded hold waiting_for_traffic now (some s) (some k) c
    else judged (breach c.config s k) now s k c

abbrev pub given_or_seen : Option LaneSummary → Lane → ℕ → Exec CanaryController LaneSummary
given_or_seen (some s) lane now c = (ok s, c)
given_or_seen none lane now c = lane_summary lane now c

unfoldable pub tick : ℕ → Option LaneSummary → Option LaneSummary → Exec CanaryController Decision
unfolding judge
tick now s k c =
    if is_running c.state
    then continue (given_or_seen s stable_lane now c) (λ stable_summary c'.
      continue (given_or_seen k canary_lane now c')
        (λ canary_summary c''. done (judge now stable_summary canary_summary c'')))
    else (ok (decision hold not_running now none none c), c)
