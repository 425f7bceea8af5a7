-- ===== src/Engine/Scheduler/Schedule.antt =====
-- Scheduler.schedule (turboserve/engine/core/scheduler.py) and its helpers that call the block manager. A
-- `while` loop gets as many rounds as can be needed: each round of `_make_room` takes a sequence out of the
-- running ones, and each round of the admissions but the last takes one from the budget of sequences.
use turboserve.Prelude.{
  ℕ, zero, suc, ◌+◌, Bool, true, false, not, ◌||◌, Option, none, some, List, [], ◌∷◌, ◌++◌, length,
  mem, ◌==◌, Result, ok, err, out_of_fuel, Exec, continue,
}
use turboserve.Engine.Sequence.{Sequence, num_new_tokens_to_compute}
use turboserve.Engine.BlockManager
use turboserve.Engine.BlockManager.{BlockManager, can_allocate}
use turboserve.Engine.BlockManager.Growth.{can_append}
use turboserve.Engine.BlockManager.Publication
use turboserve.Engine.BlockManager.Publication.{publish_computed_blocks}
use turboserve.Engine.WaitQueue
use turboserve.Engine.WaitQueue.{remove_first}
use turboserve.Engine.SchedulerOutput.{SchedulerOutput}
use turboserve.Engine.Scheduler.{Scheduler, on_work}
use turboserve.Engine.Scheduler.Step.{
  exhausted, StepState, object, in_scheduler, is_running, is_unsplittable, emit, pick_victim,
  num_tokens_of, dequeue, started, set_aside,
}

module _ (blake2b : List ℕ → List ℕ) where
  -- `_preempt`
  unfoldable pub preempt : ℕ → Exec StepState (Unit {0})
  unfolding Publication.preempt set_aside
  preempt id st =
      continue (in_scheduler (on_work id (Publication.preempt blake2b)) st)
        (λ u st'. (ok tt, set_aside id st'))

  -- `_make_room`, with the number of rounds that are left.
  unfoldable pub make_room : ℕ → ℕ → ℕ → Exec StepState Bool
  unfolding can_append pick_victim preempt
  make_room zero id n st = (err out_of_fuel, st)
  make_room (suc rounds) id n st = elim (can_append st.scheduler.block_manager (object st id) n) [
    | true ↦ (ok true, st)
    | false ↦ elim (pick_victim st.scheduler st.scheduled_ids id) [
      | none ↦ continue (preempt id st) (λ u st'. (ok false, st'))
      | some victim ↦ continue (preempt victim st) (λ u. make_room rounds id n)
    ]
  ]

  unfoldable pub run_chunk : ℕ → ℕ → Exec StepState (Unit {0})
  unfolding make_room emit
  run_chunk id n st =
      continue (make_room (suc (length st.scheduler.running)) id n st)
        (λ fits st'. elim fits [ true ↦ emit id n 0 st' | false ↦ (ok tt, st') ])

  -- The body of the loop of `_schedule_running`.
  unfoldable pub schedule_one : ℕ → Exec StepState (Unit {0})
  unfolding num_new_tokens_to_compute run_chunk
  schedule_one id st =
      let n = num_new_tokens_to_compute (object st id) st.budget.tokens in
      elim (not (is_running (Sequence.status (object st id)))
        || ((n == 0) || is_unsplittable st id n)) [ true ↦ (ok tt, st) | false ↦ run_chunk id n st ]

  -- `_schedule_running`, over a snapshot of the running sequences.
  unfoldable pub schedule_running : List ℕ → Exec StepState (Unit {0})
  unfolding schedule_one
  schedule_running [] st = (ok tt, st)
  schedule_running (id ∷ ids) st = elim (exhausted st.budget) [
    | true ↦ (ok tt, st)
    | false ↦ continue (schedule_one id st) (λ u. schedule_running ids)
  ]

  -- The rest of a round of the admissions, once the sequence has its blocks.
  unfoldable pub admit_funded : ℕ → Bool → ℕ → ℕ → Exec StepState Bool
  unfolding num_new_tokens_to_compute Publication.release dequeue started emit
  admit_funded id from_preempted now cached st =
      let n = num_new_tokens_to_compute (object st id) st.budget.tokens in
      elim ((n == 0) || is_unsplittable st id n) [
        | true ↦
            continue (in_scheduler (on_work id (Publication.release blake2b)) st)
              (λ u st'. (ok false, st'))
        | false ↦ continue (dequeue from_preempted st) (λ u st'.
            continue (emit id n cached (started id cached now st')) (λ v st''. (ok true, st'')))
      ]

  unfoldable pub consider_by : ℕ → Bool → ℕ → Result Bool → Exec StepState Bool
  unfolding admit_funded BlockManager.allocate
  consider_by id from_preempted now (err e) st = (err e, st)
  consider_by id from_preempted now (ok false) st = (ok false, st)
  consider_by id from_preempted now (ok true) st =
      continue (in_scheduler (on_work id (BlockManager.allocate blake2b)) st)
        (λ cached. admit_funded id from_preempted now cached)

  unfoldable pub consider : ℕ → Bool → ℕ → Exec StepState Bool
  unfolding consider_by can_allocate
  consider id from_preempted now st = elim (mem id st.preempted_now) [
    | true ↦ (ok false, st)
    | false ↦
        consider_by id from_preempted now
          (can_allocate blake2b st.scheduler.block_manager (object st id)) st
  ]

  unfoldable pub admit_waiting : ℕ → Result (Option ℕ) → Exec StepState Bool
  unfolding consider
  admit_waiting now (err e) st = (err e, st)
  admit_waiting now (ok none) st = (ok false, st)
  admit_waiting now (ok (some id)) st = consider id false now st

  -- A round of the admissions, and whether there may be another.
  unfoldable pub admit_one : ℕ → List ℕ → Exec StepState Bool
  unfolding consider admit_waiting WaitQueue.peek
  admit_one now [] st = admit_waiting now (WaitQueue.peek st.scheduler.waiting) st
  admit_one now (id ∷ ids) st = consider id true now st

  -- `_schedule_admissions`, with the number of rounds that are left.
  unfoldable pub schedule_admissions : ℕ → ℕ → Exec StepState (Unit {0})
  unfolding admit_one
  schedule_admissions zero now st = elim (exhausted st.budget) [
    | true ↦ (ok tt, st)
    | false ↦ (err out_of_fuel, st)
  ]
  schedule_admissions (suc rounds) now st = elim (exhausted st.budget) [
    | true ↦ (ok tt, st)
    | false ↦
        continue (admit_one now st.scheduler.preempted st) (λ more st'. elim more [
          | true ↦ schedule_admissions rounds now st'
          | false ↦ (ok tt, st')
        ])
  ]

  unfoldable pub publish_all : List ℕ → Exec Scheduler (Unit {0})
  unfolding publish_computed_blocks
  publish_all [] c = (ok tt, c)
  publish_all (id ∷ ids) c =
      let (r, m) = publish_computed_blocks blake2b (c.store id) c.block_manager in
      continue (r, record c { block_manager = m }) (λ n. publish_all ids)

  abbrev pub first_state : Scheduler → StepState
  first_state c = record {
    scheduler = c;
    budget = record { tokens = c.config.max_num_batched_tokens; seqs = c.config.max_num_seqs };
    scheduled_ids = [];
    prefills = [];
    decodes = [];
    preempted_now = [];
    gave_way = [];
    num_cached_tokens = 0;
  }

  abbrev pub output_of : StepState → SchedulerOutput
  output_of st = record {
    scheduled = st.prefills ++ st.decodes;
    preempted = st.gave_way;
    num_prefill_tokens = num_tokens_of st.prefills;
    num_decode_tokens = num_tokens_of st.decodes;
    num_prefill_seqs = length st.prefills;
    num_decode_seqs = length st.decodes;
    num_cached_tokens = st.num_cached_tokens;
  }

  abbrev pub counted : StepState → Scheduler
  counted st = record st.scheduler {
    num_steps = st.scheduler.num_steps + 1;
    num_prefill_tokens = st.scheduler.num_prefill_tokens + num_tokens_of st.prefills;
    num_decode_tokens = st.scheduler.num_decode_tokens + num_tokens_of st.decodes;
    num_cached_tokens = st.scheduler.num_cached_tokens + st.num_cached_tokens;
  }

  unfoldable pub batch_of : ℕ → Exec StepState (Unit {0})
  unfolding schedule_running schedule_admissions
  batch_of now st =
      continue (schedule_running st.scheduler.running st)
        (λ u st'. schedule_admissions st'.budget.seqs now st')

  unfoldable pub finished_step : Result (Unit {0}) × StepState → Result SchedulerOutput × Scheduler
  unfolding num_tokens_of
  finished_step (err e, st) = (err e, st.scheduler)
  finished_step (ok u, st) = (ok (output_of st), counted st)

  unfoldable pub schedule : ℕ → Exec Scheduler SchedulerOutput
  unfolding publish_all batch_of finished_step
  schedule now c =
      continue (publish_all c.running c) (λ u c'. finished_step (batch_of now (first_state c')))
