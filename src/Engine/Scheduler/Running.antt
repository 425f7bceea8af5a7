-- ===== src/Engine/Scheduler/Running.antt =====
-- `_schedule_running`: the running sequences get their tokens, and some are preempted for others.
use turboserve.Prelude.{
  ℕ, suc, ◌+◌, ◌≤◌, ◌<◌, ◌≡◌, ◌≢◌, refl, sym, ap, subst, ◌∙◌, Bool, true, false, not, ◌||◌, List,
  [], ◌∷◌, length, inl, inr, arith, count, count-cons, ltb, ◌==◌, ltb→lt, Bool-cases, ==_iff,
  Result, ok, err, continue, continue-ok,
}
use turboserve.Engine.Sequence.{Sequence, num_tokens, num_new_tokens_to_compute}
use turboserve.Engine.Scheduler.{SchedulerConfig}
use turboserve.Engine.Scheduler.Step.{
  StepState, Budget, object, exhausted, is_running, is_unsplittable, emit,
}
use turboserve.Engine.Scheduler.Schedule.{make_room, run_chunk, schedule_one, schedule_running}
use turboserve.Engine.Scheduler.StepState.{IsStep, IsCarried, IsCarried-trans, IsCarried-refl}
use turboserve.Engine.Scheduler.Emitting.{emit-Emits}
use turboserve.Engine.Scheduler.MakingRoom.{Rooms}
use turboserve.Engine.Scheduler.MakingRoom.{make_room-Rooms}

-- What one sequence's turn does to the step: it may join the batch, and it and others may change
-- from running to preempted.
pub record Turns (config : SchedulerConfig) (size id : ℕ) (st : StepState)
    (r : Result (Unit {0}) × StepState) : Type 0 where
  pub returned : r.0 ≡ ok tt
  pub step : IsStep config size r.1
  pub carried : IsCarried st.scheduler r.1.scheduler
  pub moved :
      (k : ℕ)
      → count k r.1.scheduler.running + count k r.1.scheduler.preempted
        ≡ count k st.scheduler.running + count k st.scheduler.preempted
  pub others : (k : ℕ) → id ≢ k → count k r.1.scheduled_ids ≡ count k st.scheduled_ids

pub num_new-bounds :
    (s : Sequence) (budget : ℕ)
    → s.num_computed_tokens ≤ num_tokens s
    → (num_new_tokens_to_compute s budget ≤ budget)
      × (s.num_computed_tokens + num_new_tokens_to_compute s budget ≤ num_tokens s)
unfolding num_new_tokens_to_compute
num_new-bounds s budget h = (ground arith, ground arith)

module _ (blake2b : List ℕ → List ℕ) (config : SchedulerConfig) (size id : ℕ) where
  stays : (st : StepState) → IsStep config size st → Turns config size id st (ok tt, st)
  stays st v = record {
    returned = refl;
    step = v;
    carried = IsCarried-refl st.scheduler;
    moved = λ k. refl;
    others = λ k n. refl;
  }

  -- After `_make_room`, in either case.
  after_room :
      (n : ℕ) (st : StepState) (r : Result Bool × StepState)
      → count id st.scheduled_ids ≡ 0
      → 0 < n
      → n ≤ st.budget.tokens
      → 0 < st.budget.seqs
      → Sequence.num_computed_tokens (object st id) + n ≤ num_tokens (object st id)
      → Rooms config size id n st r
      → Turns config size id st
          (continue r (λ fits st'. elim fits [ true ↦ emit id n 0 st' | false ↦ (ok tt, st') ]))
  after_room n st (err e, st') z p t q k x = cc x.returned
  after_room n st (ok false, st') z p t q k x = record {
    returned = refl;
    step = x.step;
    carried = x.carried;
    moved = x.moved;
    others = λ j o. ap (count j) x.same_scheduled;
  }
  after_room n st (ok true, st') z p t q k x =
      let (a, b, c) = x.granted (cc x.returned) in
      let e =
        emit-Emits config size id n 0 st' x.step a (ap (count id) x.same_scheduled ∙ z) p
          (subst (λ (y : Budget). n ≤ y.tokens) (sym x.same_budget) t)
          (subst (λ (y : Budget). 0 < y.seqs) (sym x.same_budget) q)
          (subst (λ (y : Sequence). y.num_computed_tokens + n ≤ num_tokens y) (sym c) k) b in
      record {
        returned = e.returned;
        step = e.step;
        carried = IsCarried-trans x.carried e.carried;
        moved = λ j.
            ap (λ l. count j l + count j (emit id n 0 st').1.scheduler.preempted) e.same_running
            ∙ ap (λ l. count j st'.scheduler.running + count j l) e.same_preempted
            ∙ x.moved j;
        others =
            λ j o. ground (arith, e.added j, ap (count j) x.same_scheduled, (==_iff id j).0, o);
      }

  run_chunk-Turns :
      (n : ℕ) (st : StepState)
      → IsStep config size st
      → 0 < count id st.scheduler.running
      → count id st.scheduled_ids ≡ 0
      → 0 < n
      → n ≤ st.budget.tokens
      → 0 < st.budget.seqs
      → Sequence.num_computed_tokens (object st id) + n ≤ num_tokens (object st id)
      → Turns config size id st (run_chunk blake2b id n st)
  unfolding run_chunk
  run_chunk-Turns n st v h z p t q k =
      after_room n st (make_room blake2b (suc (length st.scheduler.running)) id n st) z p t q k (
        make_room-Rooms blake2b config size id n (suc (length st.scheduler.running)) st v h z
          (omega arith))

  abbrev wanted : StepState → ℕ
  wanted st = num_new_tokens_to_compute (object st id) st.budget.tokens

  -- The turn is passed.
  abbrev passes : StepState → Bool
  passes st =
      not (is_running (Sequence.status (object st id)))
      || ((wanted st == 0) || is_unsplittable st id (wanted st))

  runs_on :
      (st : StepState)
      → passes st ≡ false
      → (is_running (Sequence.status (object st id)) ≡ true) × (0 < wanted st)
  runs_on st e = (ground (arith, e), ground (arith, e))

  running_status :
      (st : StepState)
      → IsStep config size st
      → 0 < count id st.scheduler.running + count id st.scheduler.preempted
      → is_running (Sequence.status (object st id)) ≡ true
      → 0 < count id st.scheduler.running
  running_status st v h e = elim (Bool-cases (ltb 0 (count id st.scheduler.preempted))) [
    | inr f ↦ ground (arith, h, f)
    | inl f ↦ cc (e, ap is_running (v.orderly.resumes id (ltb→lt 0 _ f)).status_is)
  ]

  -- One sequence's turn, while the budgets last.
  pub schedule_one-Turns :
      (st : StepState)
      → IsStep config size st
      → 0 < count id st.scheduler.running + count id st.scheduler.preempted
      → count id st.scheduled_ids ≡ 0
      → exhausted st.budget ≡ false
      → Turns config size id st (schedule_one blake2b id st)
  unfolding schedule_one
  schedule_one-Turns st v h z x = elim (Bool-cases (passes st)) [
    | inl e ↦ rw (e, schedule_one) (stays st v)
    | inr e ↦
        let (f, p) = runs_on st e in
        let runs = running_status st v h f in
        let (a, b) =
          num_new-bounds (object st id) st.budget.tokens (v.orderly.runs id runs).sound.computed in
        rw (e, schedule_one) (run_chunk-Turns (wanted st) st v runs z p a (ground (arith, x)) b)
  ]

module _ (blake2b : List ℕ → List ℕ) (config : SchedulerConfig) (size : ℕ) where
  -- What the turns of several sequences do to the step.
  pub record Rounds (st : StepState) (r : Result (Unit {0}) × StepState) : Type 0 where
    pub returned : r.0 ≡ ok tt
    pub step : IsStep config size r.1
    pub carried : IsCarried st.scheduler r.1.scheduler

  at_head : (id : ℕ) (ids : List ℕ) → 0 < count id (id ∷ ids)
  at_head id ids = ground (arith, count-cons id id ids)

  in_tail : (k id : ℕ) (ids : List ℕ) → 0 < count k ids → 0 < count k (id ∷ ids)
  in_tail k id ids l = omega (arith, count-cons k id ids, l)

  distinct :
      (k id : ℕ) (ids : List ℕ) → ((j : ℕ) → count j (id ∷ ids) ≤ 1) → 0 < count k ids → id ≢ k
  distinct k id ids o l q = ground (arith, o k, count-cons k id ids, l, (==_iff id k).1 q)

  -- The loop over sequences that are running or have been preempted since the snapshot, none of which
  -- is in the batch.
  pub schedule_running-Rounds :
      (ids : List ℕ) (st : StepState)
      → IsStep config size st
      → ((k : ℕ)
          → 0 < count k ids
          → 0 < count k st.scheduler.running + count k st.scheduler.preempted)
      → ((k : ℕ) → 0 < count k ids → count k st.scheduled_ids ≡ 0)
      → ((k : ℕ) → count k ids ≤ 1)
      → Rounds st (schedule_running blake2b ids st)
  unfolding schedule_running
  schedule_running-Rounds [] st v h z o = record {
    returned = refl;
    step = v;
    carried = IsCarried-refl st.scheduler;
  }
  schedule_running-Rounds (id ∷ ids) st v h z o = elim (Bool-cases (exhausted st.budget)) [
    | inl e ↦
        rw (e, schedule_running)
          (record { returned = refl; step = v; carried = IsCarried-refl st.scheduler })
    | inr e ↦
        let here = at_head id ids in
        let t = schedule_one-Turns blake2b config size id st v (h id here) (z id here) e in
        let rest =
          schedule_running-Rounds ids (schedule_one blake2b id st).1 t.step
            (λ k l. omega (arith, h k (in_tail k id ids l), t.moved k))
            (λ k l. t.others k (distinct k id ids o l) ∙ z k (in_tail k id ids l))
            (λ k. omega (arith, o k, count-cons k id ids)) in
        rw (e, schedule_running)
          (rw
            (continue-ok (schedule_one blake2b id st) (λ u. schedule_running blake2b ids)
              t.returned)
            (record {
              returned = rest.returned;
              step = rest.step;
              carried = IsCarried-trans t.carried rest.carried;
            }))
  ]
