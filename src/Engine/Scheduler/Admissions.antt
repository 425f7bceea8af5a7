-- ===== src/Engine/Scheduler/Admissions.antt =====
-- `_schedule_admissions`: queued sequences get blocks and join the running ones.
use turboserve.Prelude.{
  ℕ, ◌+◌, ◌≤◌, ◌<◌, ◌≡◌, ◌≢◌, refl, Bool, true, false, List, arith, count, Result, ok,
}
use turboserve.Engine.Sequence.{Sequence, SeqStatus, waiting, preempted, ceil_div}
use turboserve.Engine.BlockManager.{BlockManager}
use turboserve.Engine.BlockManager.Growth.{can_append}
use turboserve.Engine.WaitQueue.{WaitQueue, contents}
use turboserve.Engine.WaitQueue.Contents.{IsQueue}
use turboserve.Engine.Scheduler.{SchedulerConfig}
use turboserve.Engine.Scheduler.Invariant.{Idles, tenant_in}
use turboserve.Engine.Scheduler.Step.{StepState, object, dequeue}
use turboserve.Engine.Scheduler.StepState.{IsStep, IsCarried, IsCarried-refl}

ceil_div_le : (a b size : ℕ) → a ≤ b → ceil_div a size ≤ ceil_div b size
ceil_div_le a b size h = grind arith

-- Fewer tokens fit where more do.
pub can_append-le :
    (m : BlockManager) (s : Sequence) (n k : ℕ)
    → n ≤ k
    → can_append m s k ≡ true
    → can_append m s n ≡ true
unfolding can_append
can_append-le m s n k h e =
    ground
      (arith, e, ceil_div_le (s.num_computed_tokens + n) (s.num_computed_tokens + k) m.block_size)

-- One round of the admissions: whether there may be another, for which a sequence has been admitted.
pub record Admits (config : SchedulerConfig) (size : ℕ) (st : StepState)
    (r : Result Bool × StepState) : Type 0 where
  pub more : Bool
  pub returned : r.0 ≡ ok more
  pub step : IsStep config size r.1
  pub carried : IsCarried st.scheduler r.1.scheduler
  pub spent : more ≡ true → r.1.budget.seqs + 1 ≡ st.budget.seqs

pub ends :
    (config : SchedulerConfig) (size : ℕ) (st : StepState)
    → IsStep config size st
    → Admits config size st (ok false, st)
ends config size st v = record {
  more = false;
  returned = refl;
  step = v;
  carried = IsCarried-refl st.scheduler;
  spent = λ e. cc;
}

-- The queue that a sequence of status `t` is found in, and what is left of the queues after `dequeue`.
pub record Source (from_preempted : Bool) (id : ℕ) (t : SeqStatus) (st : StepState) : Type 0 where
  pub idle : Idles t id (object st id)
  pub not_running : count id st.scheduler.running ≡ 0
  pub in_preempted : 0 < count id st.scheduler.preempted → t ≡ preempted
  pub in_waiting : 0 < count id (contents st.scheduler.waiting) → t ≡ waiting
  pub P : List ℕ
  pub Q : WaitQueue
  pub dequeues :
      (s : StepState)
      → s.scheduler.preempted ≡ st.scheduler.preempted
      → s.scheduler.waiting ≡ st.scheduler.waiting
      → dequeue from_preempted s
        ≡ (ok tt, record s { scheduler = record s.scheduler { preempted = P; waiting = Q } })
  pub out_preempted : count id P ≡ 0
  pub out_waiting : count id (contents Q) ≡ 0
  pub others :
      (k : ℕ)
      → id ≢ k
      → (count k P ≡ count k st.scheduler.preempted)
        × (count k (contents Q) ≡ count k (contents st.scheduler.waiting))
  pub once : count id st.scheduler.preempted + count id (contents st.scheduler.waiting) ≡ 1
  pub queue : IsQueue (tenant_in st.scheduler.store) Q
