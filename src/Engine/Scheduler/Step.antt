-- ===== src/Engine/Scheduler/Step.antt =====
-- What Scheduler.schedule (turboserve/engine/core/scheduler.py) builds a batch with: the variables of a
-- step that its helpers share are the fields of StepState.
use turboserve.Prelude.Integers.{ltb_int}
use turboserve.Prelude.{
  ℕ, ◌+◌, ◌-◌, Bool, true, false, not, ◌&&◌, ◌||◌, Option, none, some, List, [], ◌∷◌, ◌++◌, drop,
  add_to, mem, ltb, ◌==◌, if◌then◌else◌, Result, ok, err, Exec, continue,
}
use turboserve.Engine.Sequence
use turboserve.Engine.Sequence.{
  Sequence, SeqStatus, waiting, running, preempted, finished, num_prompt_tokens,
  num_uncomputed_tokens, num_new_tokens_to_compute, tokens_in_range, stamped,
}
use turboserve.Engine.BlockManager.Growth.{append_slots}
use turboserve.Engine.WaitQueue
use turboserve.Engine.WaitQueue.{remove_first}
use turboserve.Engine.SchedulerOutput.{ScheduledSeq, checked}
use turboserve.Engine.Scheduler.{Scheduler, write, on_work, on_seq}

pub record Budget : Type 0 where
  pub tokens : ℕ
  pub seqs : ℕ

abbrev pub exhausted : Budget → Bool
exhausted b = (b.tokens == 0) || (b.seqs == 0)

pub record StepState : Type 0 where
  pub scheduler : Scheduler
  pub budget : Budget
  pub scheduled_ids : List ℕ
  pub prefills : List ScheduledSeq
  pub decodes : List ScheduledSeq
  pub preempted_now : List ℕ
  -- `out.preempted` and `out.num_cached_tokens`
  pub gave_way : List ℕ
  pub num_cached_tokens : ℕ

abbrev pub object : StepState → ℕ → Sequence
object st id = st.scheduler.store id

abbrev pub in_scheduler : {A : Type 0} → Exec Scheduler A → Exec StepState A
in_scheduler f st = ((f st.scheduler).0, record st { scheduler = (f st.scheduler).1 })

abbrev pub is_running : SeqStatus → Bool
is_running running = true
is_running _ = false

-- A prompt that does not fit the step and may not be split.
abbrev pub is_unsplittable : StepState → ℕ → ℕ → Bool
is_unsplittable st id n =
    not st.scheduler.config.enable_chunked_prefill && ltb n (num_uncomputed_tokens (object st id))

-- The end of `_emit`, for a prefill or a decode.
unfoldable pub recorded_as : Bool → ScheduledSeq → StepState → StepState
recorded_as is_prefill item st = record st {
  budget = record { tokens = st.budget.tokens - item.num_new_tokens; seqs = st.budget.seqs - 1 };
  scheduled_ids = add_to item.seq_id st.scheduled_ids;
  prefills = if is_prefill then st.prefills ++ item ∷ [] else st.prefills;
  decodes = if is_prefill then st.decodes else st.decodes ++ item ∷ [];
}

unfoldable pub recorded : ScheduledSeq → StepState → StepState
unfolding recorded_as
recorded item st = recorded_as item.is_prefill item st

unfoldable pub item_of : Sequence → ℕ → ℕ → ℕ → List ℕ → List ℕ → ScheduledSeq
item_of s id n cached slots tokens =
    let start = s.num_computed_tokens in
    let is_prefill = ltb start (num_prompt_tokens s) in
    record {
      seq_id = id;
      num_new_tokens = n;
      context_len = start + n;
      token_ids = tokens;
      slot_mapping = slots;
      block_table = s.block_table;
      is_prefill = is_prefill;
      is_chunk = is_prefill && ltb (start + n) (num_prompt_tokens s);
      num_cached_tokens = cached;
    }

unfoldable pub emitted : ℕ → ℕ → Result ScheduledSeq → Exec StepState (Unit {0})
unfolding Sequence.advance_computed recorded
emitted id n (err e) st = (err e, st)
emitted id n (ok item) st =
    continue (in_scheduler (on_seq id (Sequence.advance_computed n)) st)
      (λ target st'. (ok tt, recorded item st'))

unfoldable pub built : ℕ → ℕ → ℕ → List ℕ → Sequence → Result (List ℕ) → Result ScheduledSeq
unfolding checked item_of
built id n cached slots s (err e) = err e
built id n cached slots s (ok tokens) = checked (item_of s id n cached slots tokens)

-- `_emit`
unfoldable pub emit : ℕ → ℕ → ℕ → Exec StepState (Unit {0})
unfolding append_slots emitted built tokens_in_range
emit id n cached st = continue (in_scheduler (on_work id (append_slots n)) st) (λ slots st'.
    let s = object st' id in
    emitted id n
      (built id n cached slots s
        (tokens_in_range s s.num_computed_tokens (s.num_computed_tokens + n)))
      st')

-- Whether `other` may be preempted for `requester`.
unfoldable pub is_candidate : Scheduler → List ℕ → ℕ → ℕ → Bool
is_candidate c scheduled_ids requester other =
    not (other == requester)
    && (not (mem other scheduled_ids) && is_running (Sequence.status (c.store other)))

unfoldable pub candidates : Scheduler → List ℕ → ℕ → List ℕ → List ℕ
unfolding is_candidate
candidates c scheduled_ids requester [] = []
candidates c scheduled_ids requester (id ∷ ids) =
    let rest = candidates c scheduled_ids requester ids in
    if is_candidate c scheduled_ids requester id then id ∷ rest else rest

-- `(priority, -seq_id)` of `a` is less than that of `b`.
unfoldable pub goes_before : Sequence → Sequence → Bool
goes_before a b =
    if ltb_int a.priority b.priority
    then true
    else if ltb_int b.priority a.priority
    then false
    else ltb b.seq_id a.seq_id

-- `min`, with the best one so far.
unfoldable pub least_of : (ℕ → Sequence) → ℕ → List ℕ → ℕ
unfolding goes_before
least_of store best [] = best
least_of store best (id ∷ ids) =
    least_of store (if goes_before (store id) (store best) then id else best) ids

unfoldable pub first_victim : (ℕ → Sequence) → List ℕ → Option ℕ
unfolding least_of
first_victim store [] = none
first_victim store (id ∷ ids) = some (least_of store id ids)

-- `_pick_victim`
unfoldable pub pick_victim : Scheduler → List ℕ → ℕ → Option ℕ
unfolding candidates first_victim
pick_victim c scheduled_ids requester =
    first_victim c.store (candidates c scheduled_ids requester c.running)

unfoldable pub num_tokens_of : List ScheduledSeq → ℕ
num_tokens_of [] = 0
num_tokens_of (item ∷ items) = item.num_new_tokens + num_tokens_of items

-- Out of the queue that the sequence was found in.
unfoldable pub dequeue : Bool → Exec StepState (Unit {0})
unfolding WaitQueue.pop
dequeue true st = (
  ok tt,
  record st { scheduler = record st.scheduler { preempted = drop 1 st.scheduler.preempted } },
)
dequeue false st =
    let popped = WaitQueue.pop st.scheduler.waiting in
    continue (popped.0, record st { scheduler = record st.scheduler { waiting = popped.1 } })
      (λ id st'. (ok tt, st'))

unfoldable pub started : ℕ → ℕ → ℕ → StepState → StepState
started id cached now st =
    let s = object st id in
    record st {
      scheduler = record st.scheduler {
        store =
            write id
              (record s {
                status = running;
                timing = record s.timing {
                  t_first_scheduled = stamped s.timing.t_first_scheduled now;
                };
              })
              st.scheduler.store;
        running = st.scheduler.running ++ id ∷ [];
        num_admitted = st.scheduler.num_admitted + 1;
      };
      num_cached_tokens = st.num_cached_tokens + cached;
    }

unfoldable pub set_aside : ℕ → StepState → StepState
unfolding remove_first
set_aside id st = record st {
  scheduler = record st.scheduler {
    running = remove_first id st.scheduler.running;
    preempted = st.scheduler.preempted ++ id ∷ [];
    num_preemptions = st.scheduler.num_preemptions + 1;
  };
  preempted_now = add_to id st.preempted_now;
  gave_way = st.gave_way ++ id ∷ [];
}
