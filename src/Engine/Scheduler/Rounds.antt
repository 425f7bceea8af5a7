-- ===== src/Engine/Scheduler/Rounds.antt =====
-- The loop of the admissions.
use turboserve.Prelude.{
  ℕ, zero, suc, ◌+◌, ◌≤◌, ◌<◌, ◌≡◌, refl, ap, ap₂, subst, ◌∙◌, Bool, true, false, ◌||◌, Option,
  none, some, List, [], ◌∷◌, drop, inl, inr, arith, count, count-nil, count-cons, mem, ◌==◌,
  if◌then◌else◌, Bool-cases, ==_iff, Result, ok, err, continue, continue-ok,
}
use turboserve.Engine.Sequence.{SeqStatus, waiting, preempted}
use turboserve.Engine.BlockManager
use turboserve.Engine.BlockManager.{Work, can_allocate}
use turboserve.Engine.BlockManager.Admission.{can_allocate-ok}
use turboserve.Engine.WaitQueue
use turboserve.Engine.WaitQueue.{WaitQueue, contents}
use turboserve.Engine.WaitQueue.Contents.{IsHandout, pop-IsHandout, empty, handed}
use turboserve.Engine.Scheduler.{SchedulerConfig, work_of, on_work}
use turboserve.Engine.Scheduler.Holdings.{frame_of}
use turboserve.Engine.Scheduler.Frames.{Framed-all, unowned}
use turboserve.Engine.Scheduler.Invariant.{tenant_in}
use turboserve.Engine.Scheduler.Admitting.{IsFunded, allocate-IsFunded}
use turboserve.Engine.Scheduler.Step.{StepState, object, in_scheduler, exhausted, dequeue}
use turboserve.Engine.Scheduler.Schedule.{
  consider, consider_by, admit_funded, admit_waiting, admit_one, schedule_admissions,
}
use turboserve.Engine.Scheduler.StepState.{IsStep, IsCarried, IsCarried-refl, IsCarried-trans}
use turboserve.Engine.Scheduler.Admissions.{Admits, Source, ends}
use turboserve.Engine.Scheduler.Funding.{admit_funded-Admits}
use turboserve.Engine.Scheduler.Running.{Rounds}

abbrev with_queues : StepState → List ℕ → WaitQueue → StepState
with_queues s P Q = record s { scheduler = record s.scheduler { preempted = P; waiting = Q } }

abbrev one : Bool → ℕ
one b = if b then 1 else 0

abbrev done : StepState → Result (Unit {0}) × StepState
done s = (ok tt, s)

abbrev popping : StepState → WaitQueue → Result ℕ × StepState
popping s q = (
  (WaitQueue.pop q).0,
  record s { scheduler = record s.scheduler { waiting = (WaitQueue.pop q).1 } },
)

abbrev popped : StepState → WaitQueue → Result (Unit {0}) × StepState
popped s q = continue (popping s q) (λ id s'. done s')

module _ (config : SchedulerConfig) (size : ℕ) (st : StepState) (v : IsStep config size st)
    (id : ℕ) where
  -- The head of the preempted queue.
  preempted-Source :
      (ids : List ℕ) → st.scheduler.preempted ≡ id ∷ ids → Source true id preempted st
  unfolding dequeue
  preempted-Source ids e = record {
    idle = v.orderly.resumes id here;
    not_running = omega (arith, v.orderly.once id, here);
    in_preempted = λ l. refl;
    in_waiting = λ l. absurd (omega (arith, v.orderly.once id, here, l));
    P = drop 1 st.scheduler.preempted;
    Q = st.scheduler.waiting;
    dequeues = λ s p q. ap₂ (λ P Q. done (with_queues s P Q)) (ap (drop 1) p) q;
    out_preempted =
        ground
          (arith, ap (λ l. count id (drop 1 l)) e, all, count-cons id id ids, v.orderly.once id);
    out_waiting = omega (arith, v.orderly.once id, here);
    others = λ k n. (
      ground (
        arith,
        ap (λ l. count k (drop 1 l)) e,
        ap (count k) e,
        count-cons k id ids,
        (==_iff id k).0,
        n,
      ),
      refl,
    );
    once = omega (arith, v.orderly.once id, here);
    queue = v.orderly.queue;
  }
    where
      all : count id st.scheduler.preempted ≡ count id (id ∷ ids)
      all = ap (count id) e

      here : 0 < count id st.scheduler.preempted
      here = ground (arith, all, count-cons id id ids)

  -- The request that `peek` shows.
  waiting-Source :
      st.scheduler.preempted ≡ []
      → WaitQueue.peek st.scheduler.waiting ≡ ok (some id)
      → Source false id waiting st
  unfolding dequeue
  waiting-Source e p =
      of_handout (pop-IsHandout (tenant_in st.scheduler.store) st.scheduler.waiting v.orderly.queue)
    where
      of_handout :
          IsHandout (tenant_in st.scheduler.store) st.scheduler.waiting → Source false id waiting st
      of_handout (empty a b c) = cc
      of_handout (handed x a b c) =
          let same : x ≡ id = cc (a, p) in
          let counts : (k : ℕ)
              → count k (contents st.scheduler.waiting)
                ≡ count k (contents (WaitQueue.pop st.scheduler.waiting).1)
                  + (if id == k then 1 else 0) =
            λ k.
              ground
                (arith, c.counted k, count-cons k x [], count-nil k, ap (λ j. one (j == k)) same) in
          let here : 0 < count id (contents st.scheduler.waiting) = ground (arith, counts id) in
          record {
            idle = v.orderly.waits id here;
            not_running = omega (arith, v.orderly.once id, here);
            in_preempted = λ l. absurd (omega (arith, v.orderly.once id, here, l));
            in_waiting = λ l. refl;
            P = st.scheduler.preempted;
            Q = (WaitQueue.pop st.scheduler.waiting).1;
            dequeues = λ s q r.
                ap (popped s) r
                ∙ continue-ok (popping s st.scheduler.waiting) _ b
                ∙ ap (λ P. done (with_queues s P (WaitQueue.pop st.scheduler.waiting).1)) q;
            out_preempted = omega (arith, v.orderly.once id, here);
            out_waiting = ground (arith, counts id, v.orderly.once id);
            others = λ k n. (refl, ground (arith, counts k, (==_iff id k).0, n));
            once = omega (arith, v.orderly.once id, here);
            queue = c.queue;
          }

module _ (blake2b : List ℕ → List ℕ) (config : SchedulerConfig) (size now : ℕ) where
  -- The sequence at the head of its queue.
  consider-Admits :
      (id : ℕ) (from_preempted : Bool) (t : SeqStatus) (st : StepState)
      → IsStep config size st
      → Source from_preempted id t st
      → 0 < st.budget.seqs
      → Admits config size st (consider blake2b id from_preempted now st)
  unfolding consider consider_by
  consider-Admits id from_preempted t st v src q = elim (Bool-cases (mem id st.preempted_now)) [
    | inl e ↦ rw (e, consider) (ends config size st v)
    | inr e ↦
        let framed = Framed-all v.orderly.holding in
        let (b, g) =
          can_allocate-ok blake2b (frame_of framed) st.scheduler.block_manager (object st id)
            (unowned framed v.orderly.holding) in
        rw (e, g, consider) (by_answer b g)
  ]
    where
      by_answer :
          (b : Bool)
          → can_allocate blake2b st.scheduler.block_manager (object st id) ≡ ok b
          → Admits config size st (consider_by blake2b id from_preempted now (ok b) st)
      by_answer false g = ends config size st v
      by_answer true g =
          let f = allocate-IsFunded blake2b id t v.orderly src.not_running src.idle g in
          let r = BlockManager.allocate blake2b (work_of id st.scheduler) in
          rw
            (continue-ok (in_scheduler (on_work id (BlockManager.allocate blake2b)) st)
              (λ cached. admit_funded blake2b id from_preempted now cached) f.returned)
            (admit_funded-Admits blake2b config size id now t from_preempted st v src r.1 f.cached
              (subst
                (λ x.
                  IsFunded id t st.scheduler.block_manager st.scheduler.store st.scheduler.running
                    (x, r.1))
                f.returned f)
              q)

  admit_one-Admits :
      (st : StepState)
      → IsStep config size st
      → 0 < st.budget.seqs
      → Admits config size st (admit_one blake2b now st.scheduler.preempted st)
  unfolding admit_one admit_waiting
  admit_one-Admits st v q = of_queue st.scheduler.preempted refl
    where
      of_peek :
          (x : Result (Option ℕ))
          → st.scheduler.preempted ≡ []
          → WaitQueue.peek st.scheduler.waiting ≡ x
          → Admits config size st (admit_waiting blake2b now x st)
      of_peek (ok (some id)) e p =
          consider-Admits id false waiting st v (waiting-Source config size st v id e p) q
      of_peek (ok none) e p = ends config size st v
      of_peek (err y) e p = absurd (
          no_error
            (pop-IsHandout (tenant_in st.scheduler.store) st.scheduler.waiting v.orderly.queue))
        where
          no_error : IsHandout (tenant_in st.scheduler.store) st.scheduler.waiting → ⊥
          no_error (empty a b c) = cc
          no_error (handed x a b c) = cc

      of_queue :
          (l : List ℕ)
          → st.scheduler.preempted ≡ l
          → Admits config size st (admit_one blake2b now l st)
      of_queue [] e = of_peek (WaitQueue.peek st.scheduler.waiting) e refl
      of_queue (id ∷ ids) e =
          consider-Admits id true preempted st v (preempted-Source config size st v id ids e) q

  -- As many rounds as sequences are left in the budget are enough.
  pub schedule_admissions-Rounds :
      (rounds : ℕ) (st : StepState)
      → IsStep config size st
      → st.budget.seqs ≤ rounds
      → Rounds blake2b config size st (schedule_admissions blake2b rounds now st)
  unfolding schedule_admissions
  schedule_admissions-Rounds zero st v l =
      rw (exhausted_at st.budget.tokens st.budget.seqs (omega arith), schedule_admissions)
        (record { returned = refl; step = v; carried = IsCarried-refl st.scheduler })
    where
      exhausted_at : (a b : ℕ) → b ≡ 0 → ((a == 0) || (b == 0)) ≡ true
      exhausted_at a b e = ground (arith, e)
  schedule_admissions-Rounds (suc rounds) st v l = elim (Bool-cases (exhausted st.budget)) [
    | inl e ↦
        rw (e, schedule_admissions)
          (record { returned = refl; step = v; carried = IsCarried-refl st.scheduler })
    | inr e ↦
        let a = admit_one-Admits st v (ground (arith, e)) in
        rw (e, schedule_admissions)
          (rw (continue-ok (admit_one blake2b now st.scheduler.preempted st) _ a.returned) (
            by_more a.more a.step a.carried (λ m.
              schedule_admissions-Rounds rounds (admit_one blake2b now st.scheduler.preempted st).1
                a.step (omega (arith, a.spent m, l)))))
  ]
    where
      next : Result Bool × StepState
      next = admit_one blake2b now st.scheduler.preempted st

      by_more :
          (more : Bool)
          → IsStep config size next.1
          → IsCarried st.scheduler next.1.scheduler
          → (more ≡ true
              → Rounds blake2b config size next.1 (schedule_admissions blake2b rounds now next.1))
          → Rounds blake2b config size st (elim more [
            | true ↦ schedule_admissions blake2b rounds now next.1
            | false ↦ (ok tt, next.1)
          ])
      by_more false x c rest = record { returned = refl; step = x; carried = c }
      by_more true x c rest = record {
        returned = (rest refl).returned;
        step = (rest refl).step;
        carried = IsCarried-trans c (rest refl).carried;
      }
