-- ===== src/Canary/Config/Ladder.antt =====
-- What the validation of a CanaryConfig gives.
use turboserve.Prelude.{
  ℕ, zero, suc, ◌-◌, ◌≤◌, ◌<◌, ◌≡◌, refl, true, List, [], ◌∷◌, arith, length, get_or, ok,
}
use turboserve.Canary.Config.{
  CanaryConfig, all_in_range, is_increasing, last_step, check_steps, validate,
}

pub record IsLadder (steps : List ℕ) : Type 0 where
  pub nonempty : 0 < length steps
  pub in_range : (i : ℕ) → i < length steps → (1 ≤ get_or steps i 0) × (get_or steps i 0 ≤ 100)
  pub rising : (i : ℕ) → suc i < length steps → get_or steps i 0 < get_or steps (suc i) 0
  pub complete : get_or steps (length steps - 1) 0 ≡ 100

all_in_range-at :
    (steps : List ℕ) (i : ℕ)
    → all_in_range steps ≡ true
    → i < length steps
    → (1 ≤ get_or steps i 0) × (get_or steps i 0 ≤ 100)
unfolding all_in_range
all_in_range-at [] i e h = elim h [ ]
all_in_range-at (s ∷ ss) zero e h = ground arith
all_in_range-at (s ∷ ss) (suc i) e h = all_in_range-at ss i (ground arith) (omega arith)

is_increasing-at :
    (s : ℕ) (ss : List ℕ) (i : ℕ)
    → is_increasing s ss ≡ true
    → suc i < length (s ∷ ss)
    → get_or (s ∷ ss) i 0 < get_or (s ∷ ss) (suc i) 0
unfolding is_increasing
is_increasing-at s [] i e h = absurd (omega arith)
is_increasing-at s (t ∷ ts) zero e h = ground arith
is_increasing-at s (t ∷ ts) (suc i) e h = is_increasing-at t ts i (ground arith) (omega arith)

last_step-at : (s : ℕ) (ss : List ℕ) → get_or (s ∷ ss) (length ss) 0 ≡ last_step s ss
unfolding last_step
last_step-at s [] = refl
last_step-at s (t ∷ ts) = last_step-at t ts

check_steps-IsLadder : (steps : List ℕ) → check_steps steps ≡ true → IsLadder steps
unfolding check_steps
check_steps-IsLadder [] e = cc
check_steps-IsLadder (s ∷ ss) e = record {
  nonempty = omega arith;
  in_range = λ i h. all_in_range-at (s ∷ ss) i (ground arith) h;
  rising = λ i h. is_increasing-at s ss i (ground arith) h;
  complete = ground (arith, last_step-at s ss);
}

-- What the controller relies on.
pub record IsPolicy (c : CanaryConfig) : Type 0 where
  pub ladder : IsLadder c.steps
  pub holds : 0 < c.step_hold_s
  pub needs : 0 < c.min_requests

-- A configuration that passes the validation is left as it is, and its steps are a ladder: at least
-- one, each in [1, 100], each above the one before it, the last one 100; its holds and its minimum of
-- requests are positive.
pub validate-IsPolicy :
    (c : CanaryConfig) {d : CanaryConfig} → validate c ≡ ok d → (d ≡ c) × IsPolicy c
unfolding validate
validate-IsPolicy c {d} e = (
  ground arith,
  record {
    ladder = check_steps-IsLadder c.steps (ground arith);
    holds = ground arith;
    needs = ground arith;
  },
)
