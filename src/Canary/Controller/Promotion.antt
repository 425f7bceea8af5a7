-- ===== src/Canary/Controller/Promotion.antt =====
-- A rollout whose canary stays healthy.
use turboserve.Prelude.{
  ℕ, suc, ◌+◌, ◌≤◌, ◌<◌, ◌≡◌, sym, subst, true, some, List, [], ◌∷◌, arith, length,
}
use turboserve.Canary.{LaneSummary}
use turboserve.Canary.Controller.{
  CanaryController, promoted, recorded, proceed, judged, judge, is_running, tick,
}
use turboserve.Canary.Controller.Gates.{IsWithin, breach-IsWithin}

-- One tick after another, each with the same two summaries.
unfoldable pub tick_all : List ℕ → LaneSummary → LaneSummary → CanaryController → CanaryController
unfolding tick
tick_all [] s k c = c
tick_all (now ∷ ts) s k c = tick_all ts s k (tick now (some s) (some k) c).1

-- Each moment is at least a hold after the one before it.
abbrev pub IsSpaced : ℕ → ℕ → List ℕ → Type 0
IsSpaced step_hold_s earlier [] = Unit
IsSpaced step_hold_s earlier (now ∷ ts) =
    (earlier + step_hold_s ≤ now) × IsSpaced step_hold_s now ts

module _ (s k : LaneSummary) where
  judge-healthy :
      (now : ℕ) (c : CanaryController)
      → c.config.min_requests ≤ k.requests
      → IsWithin c.config s k
      → (judge now s k c) ≡ proceed now s k c
  unfolding judge judged
  judge-healthy now c h w = ground (arith, (breach-IsWithin c.config s k).1 w)

  -- A healthy tick after the hold, before the last step and at it.
  tick-advances :
      (now : ℕ) (c : CanaryController)
      → is_running c.state ≡ true
      → c.config.min_requests ≤ k.requests
      → IsWithin c.config s k
      → c.step_started_at + c.config.step_hold_s ≤ now
      → suc c.step_index < length c.config.steps
      → ((tick now (some s) (some k) c).1.config ≡ c.config)
        × (is_running (tick now (some s) (some k) c).1.state ≡ true)
        × ((tick now (some s) (some k) c).1.step_index ≡ suc c.step_index)
        × ((tick now (some s) (some k) c).1.step_started_at ≡ now)
  unfolding tick proceed recorded
  tick-advances now c r h w t l =
      rw (r, judge-healthy now c h w) (ground arith, ground arith, ground arith, ground arith)

  tick-promotes :
      (now : ℕ) (c : CanaryController)
      → is_running c.state ≡ true
      → c.config.min_requests ≤ k.requests
      → IsWithin c.config s k
      → c.step_started_at + c.config.step_hold_s ≤ now
      → suc c.step_index ≡ length c.config.steps
      → (tick now (some s) (some k) c).1.state ≡ promoted
  unfolding tick proceed recorded
  tick-promotes now c r h w t l = rw (r, judge-healthy now c h w) (ground arith)

  -- A running rollout whose canary has enough requests and passes every gate is promoted by as many
  -- ticks as it has steps left, each at least a hold after the one before it.
  pub tick_all-promoted :
      (moments : List ℕ) (c : CanaryController)
      → is_running c.state ≡ true
      → c.config.min_requests ≤ k.requests
      → IsWithin c.config s k
      → IsSpaced c.config.step_hold_s c.step_started_at moments
      → 0 < length moments
      → c.step_index + length moments ≡ length c.config.steps
      → (tick_all moments s k c).state ≡ promoted
  unfolding tick_all
  tick_all-promoted [] c r h w p z l = absurd (omega arith)
  tick_all-promoted (now ∷ []) c r h w p z l = tick-promotes now c r h w p.0 (omega arith)
  tick_all-promoted (now ∷ later ∷ ts) c r h w p z l =
      let (e, q, i, t) = tick-advances now c r h w p.0 (omega arith) in
      let d = (tick now (some s) (some k) c).1 in
      tick_all-promoted (later ∷ ts) d q (subst (λ x. x.min_requests ≤ k.requests) (sym e) h)
        (subst (λ x. IsWithin x s k) (sym e) w)
        (subst (λ x. IsSpaced x.step_hold_s d.step_started_at (later ∷ ts)) (sym e)
          (subst (λ u. IsSpaced c.config.step_hold_s u (later ∷ ts)) (sym t) p.1))
        (omega arith) (rw e (omega (arith, i, l)))
