-- ===== src/Engine/Scheduler/MakingRoom.antt =====
-- Scheduler._make_room (turboserve/engine/core/scheduler.py): preemption until a sequence can grow.
use turboserve.Prelude.{
  ℕ, zero, suc, ◌+◌, ◌≤◌, ◌<◌, ◌≡◌, ◌≢◌, refl, ap, ◌∙◌, Bool, true, false, List, [], ◌∷◌, length,
  inl, inr, arith, count, count-nil, count-cons, count-append, Bool-cases, Option-cases, ==_iff,
  Result, ok, err, continue, continue-ok,
}
use turboserve.Engine.BlockManager.Growth.{can_append}
use turboserve.Engine.WaitQueue.{remove_first}
use turboserve.Engine.WaitQueue.Contents.{count-remove_first}
use turboserve.Engine.Scheduler.{SchedulerConfig}
use turboserve.Engine.Scheduler.Step.{StepState, object, pick_victim}
use turboserve.Engine.Scheduler.Schedule.{preempt, make_room}
use turboserve.Engine.Scheduler.StepState.{IsStep, IsCarried, IsCarried-trans, IsCarried-refl}
use turboserve.Engine.Scheduler.Preempting.{
  Preempts, preempt-Preempts, pick_victim-IsVictim, length-remove_first, count-le-length,
}

-- What `_make_room` does to the step: the requester can grow, or has been preempted itself.
pub record Rooms (config : SchedulerConfig) (size id n : ℕ) (st : StepState)
    (r : Result Bool × StepState) : Type 0 where
  pub fits : Bool
  pub returned : r.0 ≡ ok fits
  pub step : IsStep config size r.1
  pub carried : IsCarried st.scheduler r.1.scheduler
  pub same_scheduled : r.1.scheduled_ids ≡ st.scheduled_ids
  pub same_budget : r.1.budget ≡ st.budget
  pub moved :
      (k : ℕ)
      → count k r.1.scheduler.running + count k r.1.scheduler.preempted
        ≡ count k st.scheduler.running + count k st.scheduler.preempted
  pub granted :
      fits ≡ true
      → (0 < count id r.1.scheduler.running)
        × (can_append r.1.scheduler.block_manager (object r.1 id) n ≡ true)
        × (object r.1 id ≡ object st id)

module _ (blake2b : List ℕ → List ℕ) (config : SchedulerConfig) (size id n : ℕ) where
  moved_by :
      (v k : ℕ) (st : StepState) (r : Result (Unit {0}) × StepState)
      → 0 < count v st.scheduler.running
      → Preempts config size v st r
      → count k r.1.scheduler.running + count k r.1.scheduler.preempted
        ≡ count k st.scheduler.running + count k st.scheduler.preempted
  moved_by v k st r h p = omega (
    arith,
    ap (count k) p.running_is,
    ap (count k) p.preempted_is,
    count-remove_first v k st.scheduler.running h,
    count-append k st.scheduler.preempted (v ∷ []),
    count-cons k v [],
    count-nil k,
  )

  gives_way :
      (st : StepState) (r : Result (Unit {0}) × StepState)
      → 0 < count id st.scheduler.running
      → Preempts config size id st r
      → Rooms config size id n st (continue r (λ u st'. (ok false, st')))
  gives_way st (ok u, st') h p = record {
    fits = false;
    returned = refl;
    step = p.step;
    carried = p.carried;
    same_scheduled = p.same_scheduled;
    same_budget = p.same_budget;
    moved = λ k. moved_by id k st (ok u, st') h p;
    granted = λ e. cc;
  }
  gives_way st (err e, st') h p = cc p.returned

  after_victim :
      (v : ℕ) (st : StepState) (r : Result (Unit {0}) × StepState) (x : Result Bool × StepState)
      → 0 < count v st.scheduler.running
      → v ≢ id
      → Preempts config size v st r
      → Rooms config size id n r.1 x
      → Rooms config size id n st x
  after_victim v st r x h o p y = record {
    fits = y.fits;
    returned = y.returned;
    step = y.step;
    carried = IsCarried-trans p.carried y.carried;
    same_scheduled = y.same_scheduled ∙ p.same_scheduled;
    same_budget = y.same_budget ∙ p.same_budget;
    moved = λ k. y.moved k ∙ moved_by v k st r h p;
    granted = λ e. let (a, b, c) = y.granted e in (a, b, c ∙ p.others id o);
  }

  -- In a step whose scheduler and batch are in order, for a running sequence that is not in the batch,
  -- with at least as many rounds as there are running sequences: `_make_room` comes to an end, raises
  -- nothing, keeps the order and preempts no sequence of the batch; if it returns True, the sequence
  -- still runs and can grow.
  pub make_room-Rooms :
      (rounds : ℕ) (st : StepState)
      → IsStep config size st
      → 0 < count id st.scheduler.running
      → count id st.scheduled_ids ≡ 0
      → length st.scheduler.running ≤ rounds
      → Rooms config size id n st (make_room blake2b rounds id n st)
  unfolding make_room
  make_room-Rooms zero st v h z l =
      absurd (omega (arith, l, h, count-le-length id st.scheduler.running))
  make_room-Rooms (suc rounds) st v h z l =
      elim (Bool-cases (can_append st.scheduler.block_manager (object st id) n)) [
        | inl e ↦
            rw (e, make_room)
              (record {
                fits = true;
                returned = refl;
                step = v;
                carried = IsCarried-refl st.scheduler;
                same_scheduled = refl;
                same_budget = refl;
                moved = λ k. refl;
                granted = λ f. (h, e, refl);
              })
        | inr e ↦ elim (Option-cases (pick_victim st.scheduler st.scheduled_ids id)) [
          | inl f ↦
              rw (e, f, make_room)
                (gives_way st (preempt blake2b id st) h
                  (preempt-Preempts blake2b config size id st v h z))
          | inr (w, f) ↦
              let x = pick_victim-IsVictim st.scheduler st.scheduled_ids id w f in
              let p = preempt-Preempts blake2b config size w st v x.runs x.unscheduled in
              rw (e, f, make_room)
                (rw
                  (continue-ok (preempt blake2b w st) (λ u. make_room blake2b rounds id n)
                    p.returned)
                  (after_victim w st (preempt blake2b w st) _ x.runs x.other p (
                    make_room-Rooms rounds (preempt blake2b w st).1 p.step
                      (still_running w st.scheduler.running
                        (preempt blake2b w st).1.scheduler.running x.runs x.other p.running_is h)
                      (ap (count id) p.same_scheduled ∙ z)
                      (omega (
                        arith,
                        l,
                        ap length p.running_is,
                        length-remove_first w st.scheduler.running x.runs,
                      )))))
        ]
      ]
    where
      still_running :
          (w : ℕ) (R R' : List ℕ)
          → 0 < count w R
          → w ≢ id
          → R' ≡ remove_first w R
          → 0 < count id R
          → 0 < count id R'
      still_running w R R' a o e b =
          ground (arith, ap (count id) e, count-remove_first w id R a, b, (==_iff w id).0, o)
