-- ===== src/Canary/Controller/Moves.antt =====
-- How a tick moves the weight of the canary lane.
use turboserve.Prelude.{
  ℕ, suc, ◌+◌, ◌-◌, ◌<◌, ◌≡◌, refl, sym, ap, subst, ◌∙◌, true, false, Option, none, some, List,
  arith, length, get_or, ltb, leb, inl, inr, Bool-cases, ok,
}
use turboserve.Canary.{LaneSummary}
use turboserve.Canary.Config.{CanaryConfig}
use turboserve.Canary.Config.Ladder.{IsPolicy}
use turboserve.Canary.Controller.{
  CanaryController, CanaryState, idle, canary, promoted, rolled_back, Decision, hold, advance,
  promote, rollback, Reason, breach, recorded, proceed, judged, judge, canary_weight, weight_at,
  is_running, tick, is_stalled, holding, stalled, waiting_for_traffic,
}
use turboserve.Canary.Controller.Rollout.{IsSound, SameRollout, SameRollout-IsSound}
use turboserve.Canary.Controller.Reachable.{tick-IsJudged}

-- What each decision does to a running rollout.
pub record IsMove (c : CanaryController) (d : Decision) (c' : CanaryController) : Type 0 where
  pub stays : d.kind ≡ hold → (is_running c'.state ≡ true) × (canary_weight c' ≡ canary_weight c)
  pub rises : d.kind ≡ advance → (is_running c'.state ≡ true) × (canary_weight c < canary_weight c')
  -- The canary is promoted only from the last step, at which it serves everything.
  pub ends : d.kind ≡ promote → (c'.state ≡ promoted) × (canary_weight c ≡ 100)
  pub falls : d.kind ≡ rollback → (c'.state ≡ rolled_back) × (canary_weight c' ≡ 0)

weight_at-running :
    (x : CanaryState) (steps : List ℕ) (i : ℕ)
    → is_running x ≡ true
    → weight_at x steps i ≡ get_or steps i 0
weight_at-running canary steps i e = refl
weight_at-running idle steps i e = cc
weight_at-running promoted steps i e = cc
weight_at-running rolled_back steps i e = cc

recorded-hold :
    (reason : Reason) (now : ℕ) (s k : Option LaneSummary) (c : CanaryController)
    → is_running c.state ≡ true
    → IsMove c (recorded hold reason now s k c).0 (recorded hold reason now s k c).1
unfolding recorded
recorded-hold reason now s k c r = record {
  stays = λ e. (r, refl);
  rises = λ e. cc;
  ends = λ e. cc;
  falls = λ e. cc;
}

recorded-rollback :
    (reason : Reason) (now : ℕ) (s k : Option LaneSummary) (c : CanaryController)
    → IsMove c
        (recorded rollback reason now s k (record c { state = rolled_back })).0
        (recorded rollback reason now s k (record c { state = rolled_back })).1
unfolding recorded
recorded-rollback reason now s k c = record {
  stays = λ e. cc;
  rises = λ e. cc;
  ends = λ e. cc;
  falls = λ e. (refl, refl);
}

module _ (config : CanaryConfig) (policy : IsPolicy config) where
  proceed-IsMove :
      (now : ℕ) (s k : LaneSummary) (c : CanaryController)
      → IsSound config c
      → is_running c.state ≡ true
      → IsMove c (proceed now s k c).0 (proceed now s k c).1
  unfolding proceed recorded
  proceed-IsMove now s k c v r =
      elim (Bool-cases (ltb (now - c.step_started_at) c.config.step_hold_s)) [
        | inl h ↦ rw h (recorded-hold holding now (some s) (some k) c r)
        | inr h ↦ elim (Bool-cases (leb (length c.config.steps - 1) c.step_index)) [
          | inl g ↦
              rw (h, g)
                (record {
                  stays = λ e. cc;
                  rises = λ e. cc;
                  ends = λ e.
                      (refl, weight_at-running c.state c.config.steps c.step_index r ∙ at_end g);
                  falls = λ e. cc;
                })
          | inr g ↦
              rw (h, g)
                (record {
                  stays = λ e. cc;
                  rises = λ e. (r, above g);
                  ends = λ e. cc;
                  falls = λ e. cc;
                })
        ]
      ]
    where
      size : length c.config.steps ≡ length config.steps
      size = ap (λ x. length x.steps) v.same_config

      at_end :
          leb (length c.config.steps - 1) c.step_index ≡ true
          → get_or c.config.steps c.step_index 0 ≡ 100
      at_end g =
          let last : c.step_index ≡ length config.steps - 1 =
            ground (arith, size, v.on_step r, g) in
          ap (λ x. get_or x.steps c.step_index 0) v.same_config
          ∙ ap (λ i. get_or config.steps i 0) last
          ∙ policy.ladder.complete

      above :
          leb (length c.config.steps - 1) c.step_index ≡ false
          → canary_weight c < weight_at c.state c.config.steps (c.step_index + 1)
      above g =
          let one : suc c.step_index ≡ c.step_index + 1 = omega arith in
          let lift : get_or config.steps c.step_index 0 < get_or config.steps (c.step_index + 1) 0 =
            subst (λ i. get_or config.steps c.step_index 0 < get_or config.steps i 0) one
              (policy.ladder.rising c.step_index (ground (arith, size, g))) in
          rw
            (
              weight_at-running c.state c.config.steps c.step_index r,
              weight_at-running c.state c.config.steps (c.step_index + 1) r,
            )
            (subst (λ x. get_or x.steps c.step_index 0 < get_or x.steps (c.step_index + 1) 0)
              (sym v.same_config) lift)

  judged-IsMove :
      (o : Option Reason) (now : ℕ) (s k : LaneSummary) (c : CanaryController)
      → IsSound config c
      → is_running c.state ≡ true
      → IsMove c (judged o now s k c).0 (judged o now s k c).1
  unfolding judged
  judged-IsMove none now s k c v r = proceed-IsMove now s k c v r
  judged-IsMove (some reason) now s k c v r = recorded-rollback reason now (some s) (some k) c

  judge-IsMove :
      (now : ℕ) (s k : LaneSummary) (c : CanaryController)
      → IsSound config c
      → is_running c.state ≡ true
      → IsMove c (judge now s k c).0 (judge now s k c).1
  unfolding judge
  judge-IsMove now s k c v r = elim (Bool-cases (ltb k.requests c.config.min_requests)) [
    | inr h ↦ rw h (judged-IsMove (breach c.config s k) now s k c v r)
    | inl h ↦ elim (Bool-cases (is_stalled c.config.stall_timeout_s (now - c.step_started_at))) [
      | inl g ↦ rw (h, g) (recorded-rollback stalled now (some s) (some k) c)
      | inr g ↦ rw (h, g) (recorded-hold waiting_for_traffic now (some s) (some k) c r)
    ]
  ]

  SameRollout-weight :
      (b c : CanaryController) → SameRollout c b → canary_weight b ≡ canary_weight c
  SameRollout-weight b c r = cc (r.state, r.config, r.step_index)

  SameRollout-IsMove :
      (b c : CanaryController) (d : Decision) (c' : CanaryController)
      → SameRollout c b
      → IsMove b d c'
      → IsMove c d c'
  SameRollout-IsMove b c d c' r m =
      let w = SameRollout-weight b c r in
      record {
        stays = λ e. ((m.stays e).0, (m.stays e).1 ∙ w);
        rises = λ e. ((m.rises e).0, subst (λ n. n < canary_weight c') w (m.rises e).1);
        ends = λ e. ((m.ends e).0, sym w ∙ (m.ends e).1);
        falls = m.falls;
      }

  -- In a running rollout of a validated policy that stands on a step of it, whose history shows where
  -- it stands, a tick raises nothing, whether the summaries are given or those of the windows. HOLD
  -- leaves the weight, ADVANCE raises it, PROMOTE comes only at the weight 100 and ends the rollout
  -- promoted, and ROLLBACK ends it rolled back with the weight 0.
  pub tick-IsMove :
      (now : ℕ) (s k : Option LaneSummary) (c : CanaryController)
      → IsSound config c
      → is_running c.state ≡ true
      → (d : Decision) × ((tick now s k c).0 ≡ ok d) × IsMove c d (tick now s k c).1
  tick-IsMove now s k c v r =
      let j = tick-IsJudged config policy now s k c r in
      let x = judge now j.stable_summary j.canary_summary j.before in
      (
        x.0,
        ap (λ y. y.0) j.judged,
        subst (λ y. IsMove c x.0 y.1) (sym j.judged)
            (SameRollout-IsMove j.before c x.0 x.1 j.same_rollout (
              judge-IsMove now j.stable_summary j.canary_summary j.before
                (SameRollout-IsSound config c j.before j.same_rollout v)
                (ap is_running j.same_rollout.state ∙ r))),
      )
