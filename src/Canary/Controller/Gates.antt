-- ===== src/Canary/Controller/Gates.antt =====
-- What `tick` decides: the gates, stated without the code's order of tests.
use turboserve.Prelude.{
  ℕ, ◌-◌, ◌*◌, ◌≤◌, ◌<◌, ◌≡◌, ◌↔◌, ◌⊎◌, refl, Bool, true, false, Option, none, some, arith, ltb,
  leb, inl, inr, Bool-cases,
}
use turboserve.Canary.{LaneSummary, Fraction}
use turboserve.Canary.Config.{CanaryConfig}
use turboserve.Canary.Controller.{
  CanaryController, Decision, DecisionKind, hold, advance, promote, rollback, Reason, is_over,
  is_slower, is_stalled, breach, recorded, proceed, judged, judge,
}

-- The fraction `a / b` is at most the limit.
abbrev pub AtMost : ℕ → ℕ → Fraction → Type 0
AtMost a b limit = a * limit.denominator ≤ limit.numerator * b

-- A percentile of the canary lane is close enough to the stable lane's, where both are known.
abbrev pub IsClose : CanaryConfig → Option ℕ → Option ℕ → Type 0
IsClose config (some a) (some b) = 0 < b → AtMost a b config.max_p95_ratio_vs_stable
IsClose config none b = Unit
IsClose config (some a) none = Unit

abbrev pub IsUnder : Option ℕ → Option ℕ → Type 0
IsUnder (some limit) (some p95) = p95 ≤ limit
IsUnder (some limit) none = Unit
IsUnder none p95 = Unit

-- Every gate is passed.
pub record IsWithin (config : CanaryConfig) (s k : LaneSummary) : Type 0 where
  pub few_errors : AtMost k.errors k.requests config.max_error_rate
  pub fast : IsUnder config.max_p95_ttft_ms k.p95_ttft_ms
  pub close_ttft : config.min_requests ≤ s.requests → IsClose config k.p95_ttft_ms s.p95_ttft_ms
  pub close_e2e : config.min_requests ≤ s.requests → IsClose config k.p95_e2e_ms s.p95_e2e_ms

is_over-IsUnder : (limit p95 : Option ℕ) → (is_over limit p95 ≡ false) ↔ IsUnder limit p95
is_over-IsUnder none p95 = (λ e. tt, λ u. refl)
is_over-IsUnder (some limit) none = (λ e. tt, λ u. refl)
is_over-IsUnder (some limit) (some p95) = ground arith

is_slower-IsClose :
    (config : CanaryConfig) (a b : Option ℕ) → (is_slower config a b ≡ false) ↔ IsClose config a b
is_slower-IsClose config none b = (λ e. tt, λ u. refl)
is_slower-IsClose config (some a) none = (λ e. tt, λ u. refl)
is_slower-IsClose config (some a) (some b) = (λ e h. ground arith, λ u. ground (arith, u))

-- `_breach` finds nothing exactly if every gate is passed.
pub breach-IsWithin :
    (config : CanaryConfig) (s k : LaneSummary) → (breach config s k ≡ none) ↔ IsWithin config s k
unfolding breach
breach-IsWithin config s k = (
  λ e. record {
    few_errors = ground arith;
    fast = (is_over-IsUnder config.max_p95_ttft_ms k.p95_ttft_ms).0 (ground arith);
    close_ttft = λ h. (is_slower-IsClose config k.p95_ttft_ms s.p95_ttft_ms).0 (ground arith);
    close_e2e = λ h. (is_slower-IsClose config k.p95_e2e_ms s.p95_e2e_ms).0 (ground arith);
  },
  passes,
)
  where
    passes : IsWithin config s k → breach config s k ≡ none
    passes v = elim (Bool-cases (ltb s.requests config.min_requests)) [
      | inl h ↦
          ground (
            arith,
            h,
            v.few_errors,
            (is_over-IsUnder config.max_p95_ttft_ms k.p95_ttft_ms).1 v.fast,
          )
      | inr h ↦ ground (
        arith,
        h,
        v.few_errors,
        (is_over-IsUnder config.max_p95_ttft_ms k.p95_ttft_ms).1 v.fast,
        (is_slower-IsClose config k.p95_ttft_ms s.p95_ttft_ms).1 (v.close_ttft (ground arith)),
        (is_slower-IsClose config k.p95_e2e_ms s.p95_e2e_ms).1 (v.close_e2e (ground arith)),
      )
    ]

-- A step has lasted for its stall timeout, where there is one.
pub data HasStalled (limit : Option ℕ) (elapsed : ℕ) : Type 0 where
  since : (timeout : ℕ) → limit ≡ some timeout → timeout ≤ elapsed → HasStalled limit elapsed

is_stalled-HasStalled :
    (limit : Option ℕ) (elapsed : ℕ) → (is_stalled limit elapsed ≡ true) ↔ HasStalled limit elapsed
is_stalled-HasStalled limit elapsed = (stalls limit, stalled limit)
  where
    stalls : (limit : Option ℕ) → is_stalled limit elapsed ≡ true → HasStalled limit elapsed
    stalls none e = cc
    stalls (some timeout) e = since timeout refl (ground (arith, e))

    stalled : (limit : Option ℕ) → HasStalled limit elapsed → is_stalled limit elapsed ≡ true
    stalled none (since timeout e l) = cc e
    stalled (some t) (since timeout e l) = let same : t ≡ timeout = cc e in ground (arith, same, l)

-- The canary moves on: to the next step, or to the end.
abbrev pub moves_on : DecisionKind → Bool
moves_on advance = true
moves_on promote = true
moves_on hold = false
moves_on rollback = false

abbrev pub is_rollback : DecisionKind → Bool
is_rollback rollback = true
is_rollback hold = false
is_rollback advance = false
is_rollback promote = false

-- The grounds for a decision on two summaries.
pub record IsVerdict (now : ℕ) (s k : LaneSummary) (c : CanaryController) (d : Decision)
    : Type 0 where
  pub moved : (moves_on d.kind ≡ true) ↔ (
      (c.config.min_requests ≤ k.requests)
      × IsWithin c.config s k
      × (c.config.step_hold_s ≤ now - c.step_started_at))
  pub failed : (is_rollback d.kind ≡ true) ↔ (
      ((k.requests < c.config.min_requests)
        × HasStalled c.config.stall_timeout_s (now - c.step_started_at))
      ⊎ ((c.config.min_requests ≤ k.requests) × ¬ IsWithin c.config s k))

proceed-kind :
    (now : ℕ) (s k : LaneSummary) (c : CanaryController)
    → (moves_on (proceed now s k c).0.kind ≡ leb c.config.step_hold_s (now - c.step_started_at))
      × (is_rollback (proceed now s k c).0.kind ≡ false)
unfolding proceed recorded
proceed-kind now s k c = (ground arith, ground arith)

judged-IsVerdict :
    (o : Option Reason) (now : ℕ) (s k : LaneSummary) (c : CanaryController)
    → breach c.config s k ≡ o
    → c.config.min_requests ≤ k.requests
    → IsVerdict now s k c (judged o now s k c).0
unfolding judged recorded
judged-IsVerdict none now s k c e h =
    let (p, q) = proceed-kind now s k c in
    let within = (breach-IsWithin c.config s k).0 e in
    record {
      moved = (λ m. (h, within, ground (arith, m, p)), λ (a, b, l). ground (arith, p, l));
      failed = (λ r. cc (r, q), λ r. absurd (refuted within r));
    }
  where
    refuted :
        IsWithin c.config s k
        → (((k.requests < c.config.min_requests)
              × HasStalled c.config.stall_timeout_s (now - c.step_started_at))
            ⊎ ((c.config.min_requests ≤ k.requests) × ¬ IsWithin c.config s k))
        → ⊥
    refuted within (inl (l, t)) = omega arith
    refuted within (inr (l, n)) = n within
judged-IsVerdict (some reason) now s k c e h = record {
  moved = (λ m. cc, λ (a, b, l). cc (e, (breach-IsWithin c.config s k).1 b));
  failed = (λ r. inr (h, λ b. cc (e, (breach-IsWithin c.config s k).1 b)), λ r. refl);
}

-- A tick on two summaries moves the canary on exactly if it had enough requests, passes every gate,
-- and held the step long enough; it rolls back exactly if the canary fails a gate on enough requests,
-- or if it has too few of them at the stall timeout.
pub judge-IsVerdict :
    (now : ℕ) (s k : LaneSummary) (c : CanaryController) → IsVerdict now s k c (judge now s k c).0
unfolding judge recorded
judge-IsVerdict now s k c = elim (Bool-cases (ltb k.requests c.config.min_requests)) [
  | inr h ↦ rw h (judged-IsVerdict (breach c.config s k) now s k c refl (ground arith))
  | inl h ↦ elim (Bool-cases (is_stalled c.config.stall_timeout_s (now - c.step_started_at))) [
    | inl g ↦
        rw (h, g)
          (record {
            moved = (λ m. cc, λ (a, b, l). ground (arith, a));
            failed = (
              λ r. inl (
                ground arith,
                (is_stalled-HasStalled c.config.stall_timeout_s (now - c.step_started_at)).0 g,
              ),
              λ r. refl,
            );
          })
    | inr g ↦
        rw (h, g)
          (record {
            moved = (λ m. cc, λ (a, b, l). ground (arith, a));
            failed = (λ r. cc, λ r. absurd (waits h g r));
          })
  ]
]
  where
    waits :
        ltb k.requests c.config.min_requests ≡ true
        → is_stalled c.config.stall_timeout_s (now - c.step_started_at) ≡ false
        → (((k.requests < c.config.min_requests)
              × HasStalled c.config.stall_timeout_s (now - c.step_started_at))
            ⊎ ((c.config.min_requests ≤ k.requests) × ¬ IsWithin c.config s k))
        → ⊥
    waits h g (inl (l, t)) =
        cc (g, (is_stalled-HasStalled c.config.stall_timeout_s (now - c.step_started_at)).1 t)
    waits h g (inr (l, n)) = ground arith
