-- ===== src/Canary/Controller/Rollout.antt =====
-- Rollouts: the steps that a controller may take, and the invariant over them.
use turboserve.Prelude.{
  ℕ, ◌<◌, ◌≡◌, refl, sym, ap, ◌∙◌, Bool, true, Option, none, some, List, [], ◌∷◌, ◌++◌, arith,
  length, ok,
}
use turboserve.Canary.{Lane, stable_lane, canary_lane, LaneSummary}
use turboserve.Canary.Config.{CanaryConfig}
use turboserve.Canary.Window.Expiry.{summary-ok}
use turboserve.Canary.Controller.{
  CanaryController, Decision, DecisionKind, Reason, recorded, canary_weight, is_running, start,
  abort, reset, observe, tick, lane_summary, given_or_seen, decision,
}

-- `last_decision`
abbrev pub last_decision : List Decision → Option Decision
last_decision [] = none
last_decision (d ∷ []) = some d
last_decision (d ∷ e ∷ ds) = last_decision (e ∷ ds)

last_decision-append : (ds : List Decision) (d : Decision) → last_decision (ds ++ d ∷ []) ≡ some d
last_decision-append [] d = refl
last_decision-append (e ∷ []) d = refl
last_decision-append (e ∷ f ∷ ds) d = last_decision-append (f ∷ ds) d

-- One call of a method, whether it raises or not.
pub data Step (c : CanaryController) : CanaryController → Type 0 where
  starts : (version : List ℕ) (now : ℕ) → Step c (start version now c).1
  aborts : (now : ℕ) → Step c (abort now c).1
  resets : Step c (reset c)
  observes :
      (lane : Lane) (succeeded : Bool) (a b : Option ℕ) (now : ℕ)
      → Step c (observe lane succeeded a b now c)
  ticks : (now : ℕ) (s k : Option LaneSummary) → Step c (tick now s k c).1

pub data Reach (c : CanaryController) : CanaryController → Type 0 where
  here : Reach c c
  next : {d e : CanaryController} → Reach c d → Step d e → Reach c e

-- A decision shows where the controller stands.
pub record Shows (d : Decision) (c : CanaryController) : Type 0 where
  pub state : d.state ≡ c.state
  pub weight : d.weight ≡ canary_weight c
  pub step_index : d.step_index ≡ c.step_index
  pub version : d.version ≡ c.version

pub record IsSound (config : CanaryConfig) (c : CanaryController) : Type 0 where
  pub same_config : c.config ≡ config
  -- A running rollout stands on a step of the list.
  pub on_step : is_running c.state ≡ true → c.step_index < length config.steps
  -- The last decision of the history shows where the controller stands.
  pub replayed : (d : Decision) → last_decision c.history ≡ some d → Shows d c

-- The fields that only a rollout's own steps change.
pub record SameRollout (c c' : CanaryController) : Type 0 where
  pub config : c'.config ≡ c.config
  pub state : c'.state ≡ c.state
  pub version : c'.version ≡ c.version
  pub step_index : c'.step_index ≡ c.step_index
  pub step_started_at : c'.step_started_at ≡ c.step_started_at
  pub history : c'.history ≡ c.history

same : (c : CanaryController) → SameRollout c c
same c = record {
  config = refl;
  state = refl;
  version = refl;
  step_index = refl;
  step_started_at = refl;
  history = refl;
}

pub SameRollout-IsSound :
    (config : CanaryConfig) (c c' : CanaryController)
    → SameRollout c c'
    → IsSound config c
    → IsSound config c'
SameRollout-IsSound config c c' r v = record {
  same_config = r.config ∙ v.same_config;
  on_step = λ h. ground (arith, v.on_step, r.state, r.step_index);
  replayed = λ d h.
      let s = v.replayed d (ap last_decision (sym r.history) ∙ h) in
      record {
        state = s.state ∙ sym r.state;
        weight = cc (s.weight, r.state, r.config, r.step_index);
        step_index = s.step_index ∙ sym r.step_index;
        version = s.version ∙ sym r.version;
      };
}

pub observe-SameRollout :
    (lane : Lane) (succeeded : Bool) (a b : Option ℕ) (now : ℕ) (c : CanaryController)
    → SameRollout c (observe lane succeeded a b now c)
unfolding observe
observe-SameRollout stable_lane succeeded a b now c = record {
  config = refl;
  state = refl;
  version = refl;
  step_index = refl;
  step_started_at = refl;
  history = refl;
}
observe-SameRollout canary_lane succeeded a b now c = record {
  config = refl;
  state = refl;
  version = refl;
  step_index = refl;
  step_started_at = refl;
  history = refl;
}

pub given_or_seen-SameRollout :
    (o : Option LaneSummary) (lane : Lane) (now : ℕ) (c : CanaryController)
    → SameRollout c (given_or_seen o lane now c).1
unfolding lane_summary
given_or_seen-SameRollout (some s) lane now c = same c
given_or_seen-SameRollout none stable_lane now c = record {
  config = refl;
  state = refl;
  version = refl;
  step_index = refl;
  step_started_at = refl;
  history = refl;
}
given_or_seen-SameRollout none canary_lane now c = record {
  config = refl;
  state = refl;
  version = refl;
  step_index = refl;
  step_started_at = refl;
  history = refl;
}

pub given_or_seen-ok :
    (o : Option LaneSummary) (lane : Lane) (now : ℕ) (c : CanaryController)
    → (s : LaneSummary) × ((given_or_seen o lane now c).0 ≡ ok s)
unfolding lane_summary
given_or_seen-ok (some s) lane now c = (s, refl)
given_or_seen-ok none stable_lane now c = summary-ok now c.stable_window
given_or_seen-ok none canary_lane now c = summary-ok now c.canary_window

-- Recording a decision.
pub recorded-IsSound :
    (kind : DecisionKind) (reason : Reason) (now : ℕ) (s k : Option LaneSummary)
    (config : CanaryConfig) (c : CanaryController)
    → c.config ≡ config
    → (is_running c.state ≡ true → c.step_index < length config.steps)
    → IsSound config (recorded kind reason now s k c).1
unfolding recorded
recorded-IsSound kind reason now s k config c e h = record {
  same_config = e;
  on_step = h;
  replayed = λ d g.
      let last = last_decision-append c.history (decision kind reason now s k c) in
      record {
        state = cc (last, g);
        weight = cc (last, g);
        step_index = cc (last, g);
        version = cc (last, g);
      };
}
