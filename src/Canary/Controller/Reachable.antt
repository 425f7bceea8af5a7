-- ===== src/Canary/Controller/Reachable.antt =====
-- What holds of every controller that its methods lead to.
use turboserve.Prelude.{
  ℕ, ◌+◌, ◌-◌, ◌≤◌, ◌<◌, ◌≡◌, refl, sym, ap, subst, ◌∙◌, true, false, Option, none, some, List,
  arith, length, ltb, leb, ◌==◌, inl, inr, Bool-cases, Result, continue-ok,
}
use turboserve.Canary.{stable_lane, canary_lane, LaneSummary}
use turboserve.Canary.Config.{CanaryConfig}
use turboserve.Canary.Config.Ladder.{IsPolicy}
use turboserve.Canary.Controller.{
  CanaryController, CanaryState, idle, canary, promoted, rolled_back, Decision, hold, advance,
  promote, rollback, Reason, breach, proceed, judged, judge, canary_weight, stable_weight, init,
  is_running, start, abort, reset, tick, given_or_seen, done, is_stalled, advancing, holding,
  all_held, waiting_for_traffic, stalled, started, begun,
}
use turboserve.Canary.Controller.Rollout.{
  Step, starts, aborts, resets, observes, ticks, Reach, here, next, IsSound, SameRollout,
  SameRollout-IsSound, observe-SameRollout, given_or_seen-SameRollout, given_or_seen-ok,
  recorded-IsSound,
}

module _ (config : CanaryConfig) (policy : IsPolicy config) where
  first_step : 0 < length config.steps
  first_step = policy.ladder.nonempty

  proceed-IsSound :
      (now : ℕ) (s k : LaneSummary) (c : CanaryController)
      → IsSound config c
      → is_running c.state ≡ true
      → IsSound config (proceed now s k c).1
  unfolding proceed
  proceed-IsSound now s k c v r =
      elim (Bool-cases (ltb (now - c.step_started_at) c.config.step_hold_s)) [
        | inl h ↦
            rw h
              (recorded-IsSound hold holding now (some s) (some k) config c v.same_config v.on_step)
        | inr h ↦ elim (Bool-cases (leb (length c.config.steps - 1) c.step_index)) [
          | inl g ↦
              rw (h, g)
                (recorded-IsSound promote all_held now (some s) (some k) config _ v.same_config
                  (λ e. cc))
          | inr g ↦
              rw (h, g)
                (recorded-IsSound advance advancing now (some s) (some k) config _ v.same_config
                  (λ e. ground (arith, g, ap (λ x. length x.steps) v.same_config)))
        ]
      ]

  judged-IsSound :
      (o : Option Reason) (now : ℕ) (s k : LaneSummary) (c : CanaryController)
      → IsSound config c
      → is_running c.state ≡ true
      → IsSound config (judged o now s k c).1
  unfolding judged
  judged-IsSound none now s k c v r = proceed-IsSound now s k c v r
  judged-IsSound (some reason) now s k c v r =
      recorded-IsSound rollback reason now (some s) (some k) config _ v.same_config (λ e. cc)

  judge-IsSound :
      (now : ℕ) (s k : LaneSummary) (c : CanaryController)
      → IsSound config c
      → is_running c.state ≡ true
      → IsSound config (judge now s k c).1
  unfolding judge
  judge-IsSound now s k c v r = elim (Bool-cases (ltb k.requests c.config.min_requests)) [
    | inr h ↦ rw h (judged-IsSound (breach c.config s k) now s k c v r)
    | inl h ↦ elim (Bool-cases (is_stalled c.config.stall_timeout_s (now - c.step_started_at))) [
      | inl g ↦
          rw (h, g)
            (recorded-IsSound rollback stalled now (some s) (some k) config _ v.same_config
              (λ e. cc))
      | inr g ↦
          rw (h, g)
            (recorded-IsSound hold waiting_for_traffic now (some s) (some k) config c v.same_config
              v.on_step)
    ]
  ]

  -- A tick judges two summaries: those given, or else those of the windows.
  pub record IsJudged (now : ℕ) (c : CanaryController) (r : Result Decision × CanaryController)
      : Type 0 where
    pub stable_summary : LaneSummary
    pub canary_summary : LaneSummary
    pub before : CanaryController
    pub same_rollout : SameRollout c before
    pub judged : r ≡ done (judge now stable_summary canary_summary before)

  SameRollout-trans :
      {a b c : CanaryController} → SameRollout a b → SameRollout b c → SameRollout a c
  SameRollout-trans r q = record {
    config = q.config ∙ r.config;
    state = q.state ∙ r.state;
    version = q.version ∙ r.version;
    step_index = q.step_index ∙ r.step_index;
    step_started_at = q.step_started_at ∙ r.step_started_at;
    history = q.history ∙ r.history;
  }

  pub tick-IsJudged :
      (now : ℕ) (s k : Option LaneSummary) (c : CanaryController)
      → is_running c.state ≡ true
      → IsJudged now c (tick now s k c)
  unfolding tick
  tick-IsJudged now s k c r =
      let first = given_or_seen s stable_lane now c in
      let (a, e) = given_or_seen-ok s stable_lane now c in
      let (b, f) = given_or_seen-ok k canary_lane now first.1 in
      record {
        stable_summary = a;
        canary_summary = b;
        before = (given_or_seen k canary_lane now first.1).1;
        same_rollout =
            SameRollout-trans (given_or_seen-SameRollout s stable_lane now c)
              (given_or_seen-SameRollout k canary_lane now first.1);
        judged =
            rw r
              (continue-ok first _ e ∙ continue-ok (given_or_seen k canary_lane now first.1) _ f);
      }

  tick-not_running :
      (now : ℕ) (s k : Option LaneSummary) (c : CanaryController)
      → is_running c.state ≡ false
      → c ≡ (tick now s k c).1
  unfolding tick
  tick-not_running now s k c h = ground arith

  tick-IsSound :
      (now : ℕ) (s k : Option LaneSummary) (c : CanaryController)
      → IsSound config c
      → IsSound config (tick now s k c).1
  tick-IsSound now s k c v = elim (Bool-cases (is_running c.state)) [
    | inr h ↦ subst (IsSound config) (tick-not_running now s k c h) v
    | inl h ↦
        let j = tick-IsJudged now s k c h in
        subst (λ r. IsSound config r.1) (sym j.judged)
          (judge-IsSound now j.stable_summary j.canary_summary j.before
            (SameRollout-IsSound config c j.before j.same_rollout v)
            (ap is_running j.same_rollout.state ∙ h))
  ]

  start-IsSound :
      (version : List ℕ) (now : ℕ) (c : CanaryController)
      → IsSound config c
      → IsSound config (start version now c).1
  unfolding start
  start-IsSound version now c v = elim (Bool-cases (is_running c.state)) [
    | inl h ↦ rw h v
    | inr h ↦ elim (Bool-cases (length version == 0)) [
      | inl g ↦ rw (h, g) v
      | inr g ↦
          rw (h, g)
            (recorded-IsSound advance started now none none config (begun version now c)
              v.same_config (λ e. first_step))
    ]
  ]

  abort-IsSound :
      (now : ℕ) (c : CanaryController) → IsSound config c → IsSound config (abort now c).1
  unfolding abort
  abort-IsSound now c v = elim (Bool-cases (is_running c.state)) [
    | inl h ↦ rw h (recorded-IsSound rollback _ now none none config _ v.same_config (λ e. cc))
    | inr h ↦ rw h v
  ]

  reset-IsSound : (c : CanaryController) → IsSound config c → IsSound config (reset c)
  unfolding reset
  reset-IsSound c v = record {
    same_config = v.same_config;
    on_step = λ e. cc;
    replayed = λ d e. cc;
  }

  Step-IsSound : {c d : CanaryController} → Step c d → IsSound config c → IsSound config d
  Step-IsSound {c} (starts version now) v = start-IsSound version now c v
  Step-IsSound {c} (aborts now) v = abort-IsSound now c v
  Step-IsSound {c} resets v = reset-IsSound c v
  Step-IsSound {c} (observes lane succeeded a b now) v =
      SameRollout-IsSound config c _ (observe-SameRollout lane succeeded a b now c) v
  Step-IsSound {c} (ticks now s k) v = tick-IsSound now s k c v

  -- Under a policy that was validated, whatever methods are called on a new controller: a running
  -- rollout stands on a step of the list, and the last decision of the history shows the state, the
  -- weight, the step and the version that the controller has.
  pub Reach-IsSound : {c : CanaryController} → Reach (init config) c → IsSound config c
  Reach-IsSound here = record { same_config = refl; on_step = λ e. cc; replayed = λ d e. cc }
  Reach-IsSound (next r st) = Step-IsSound st (Reach-IsSound r)

  weight-bounded : (c : CanaryController) → IsSound config c → canary_weight c ≤ 100
  weight-bounded c v = bounded c.state refl
    where
      bounded : (x : CanaryState) → c.state ≡ x → canary_weight c ≤ 100
      bounded idle e = rw e (omega arith)
      bounded promoted e = rw e (omega arith)
      bounded rolled_back e = rw e (omega arith)
      bounded canary e =
          rw (e, v.same_config)
            (policy.ladder.in_range c.step_index (v.on_step (ap is_running e))).1

  -- The weights of the lanes of a reachable controller are percentages that add up to 100.
  pub Reach-weights :
      {c : CanaryController}
      → Reach (init config) c
      → (canary_weight c ≤ 100) × (canary_weight c + stable_weight c ≡ 100)
  Reach-weights {c} r = let b = weight-bounded c (Reach-IsSound r) in (b, omega arith)
