-- ===== src/Engine/Scheduler/Emitting.antt =====
-- `_emit`: slots, the entry of the batch and the progress of one running sequence.
use turboserve.Prelude.{
  ℕ, ◌+◌, ◌-◌, ◌*◌, ◌/◌, ◌≤◌, ◌<◌, ◌≡◌, refl, sym, ap, subst, ◌∙◌, true, List, length, slice, drop,
  length-take, length-drop, length-append, get_elem?-ge, arith, count, ltb, ◌==◌, if◌then◌else◌,
  ◌||◌, Result, ok, err, value_error, is_ok, continue, continue-ok,
}
use native.Mathlib.Decide.{dec_lt}
use turboserve.Engine.Sequence
use turboserve.Engine.Sequence.{
  Sequence, running, num_prompt_tokens, num_tokens, token_ids, tokens_in_range,
}
use turboserve.Engine.Sequence.Tokens.{tokens_in_range-slice}
use turboserve.Engine.BlockManager.{Work}
use turboserve.Engine.BlockManager.Growth.{can_append, append_slots}
use turboserve.Engine.BlockManager.Ownership.{Frame}
use turboserve.Engine.BlockManager.Slots.{IsSlots, IsAppended}
use turboserve.Engine.BlockManager.Keeping.{append_slots-IsKept}
use turboserve.Engine.SchedulerOutput.{ScheduledSeq}
use turboserve.Engine.SchedulerOutput.Batch.{IsShare, checked-ok}
use turboserve.Engine.Scheduler.{SchedulerConfig, write, work_of, on_work}
use turboserve.Engine.Scheduler.Step.{
  StepState, object, in_scheduler, recorded, recorded_as, item_of, emitted, built, emit,
}
use turboserve.Engine.Scheduler.Holdings.{write-same}
use turboserve.Engine.Scheduler.Frames.{touch, write-write}
use turboserve.Engine.Scheduler.Invariant.{IsScheduler, move-IsOrderly, stay-IsMove}
use turboserve.Engine.Scheduler.Moves.{append_slots-IsOrderly}
use turboserve.Engine.Scheduler.StepState.{
  IsStep, IsCarried, SameRequest, write-SameRequest, recorded_as-IsStep, count-add_new,
}

below : (a b size : ℕ) → 0 < size → a / size < b → a < b * size
below a b size h k = grind arith

-- Slots for positions mean that the table covers them.
slots-cover :
    (size : ℕ) (table : List ℕ) (start n : ℕ) (slots : List ℕ)
    → 0 < size
    → 0 < n
    → IsSlots size table start n slots
    → start + n ≤ length table * size
slots-cover size table start n slots h p v =
    let (b, e, f) = v.slot (n - 1) (omega arith) in
    elim (dec_lt ((start + (n - 1)) / size) (length table)) [
      | yes l ↦ omega (arith, below (start + (n - 1)) (length table) size h l)
      | no g ↦ cc (e, get_elem?-ge table ((start + (n - 1)) / size) (omega arith))
    ]

-- The entry that `_emit` builds has the right lengths.
module _ (size : ℕ) (s : Sequence) (id n cached : ℕ) (slots : List ℕ) where
  abbrev made : ScheduledSeq
  made = item_of s id n cached slots (slice s.num_computed_tokens n (token_ids s))

  made-IsShare :
      0 < n
      → s.num_computed_tokens + n ≤ num_tokens s
      → length slots ≡ n
      → s.num_computed_tokens + n ≤ length s.block_table * size
      → IsShare size made
  unfolding item_of
  made-IsShare h k l c = record {
    computes = h;
    tokens = omega (
      arith,
      length-take n (drop s.num_computed_tokens (token_ids s)),
      length-drop s.num_computed_tokens (token_ids s),
      length-append s.prompt_token_ids s.output_token_ids,
    );
    slots = l;
    context = omega arith;
    covers = c;
  }

  built-ok :
      s.num_computed_tokens + n ≤ num_tokens s
      → IsShare size made
      → built id n cached slots s
          (tokens_in_range s s.num_computed_tokens (s.num_computed_tokens + n))
        ≡ ok made
  unfolding built
  built-ok k v =
      ap (built id n cached slots s)
        (tokens_in_range-slice s s.num_computed_tokens (s.num_computed_tokens + n) ∙ in_range)
      ∙ checked-ok size made v
    where
      shift : s.num_computed_tokens + n - s.num_computed_tokens ≡ n
      shift = omega arith

      in_range :
          (if ltb (num_tokens s) (s.num_computed_tokens + n)
              || ltb (s.num_computed_tokens + n) s.num_computed_tokens
            then err value_error
            else ok (
                slice s.num_computed_tokens
                  (s.num_computed_tokens + n - s.num_computed_tokens)
                  (token_ids s)))
          ≡ ok (slice s.num_computed_tokens n (token_ids s))
      in_range = ground (arith, ap (λ j. slice s.num_computed_tokens j (token_ids s)) shift)

abbrev progressed : ℕ → Sequence → Sequence
progressed n s = record s { num_computed_tokens = s.num_computed_tokens + n }

advance-ok :
    (n : ℕ) (s : Sequence)
    → s.num_computed_tokens + n ≤ num_tokens s
    → Sequence.advance_computed n s ≡ (ok (s.num_computed_tokens + n), progressed n s)
unfolding Sequence.advance_computed
advance-ok n s h = ground arith

-- What `_emit` does to the step.
pub record Emits (config : SchedulerConfig) (size id : ℕ) (st : StepState)
    (r : Result (Unit {0}) × StepState) : Type 0 where
  pub returned : r.0 ≡ ok tt
  pub step : IsStep config size r.1
  pub carried : IsCarried st.scheduler r.1.scheduler
  pub same_running : r.1.scheduler.running ≡ st.scheduler.running
  pub same_preempted : r.1.scheduler.preempted ≡ st.scheduler.preempted
  pub same_now : r.1.preempted_now ≡ st.preempted_now
  pub added :
      (k : ℕ) → count k r.1.scheduled_ids ≡ (if id == k then 1 else 0) + count k st.scheduled_ids
  pub spent : r.1.budget.seqs + 1 ≡ st.budget.seqs

module _ (config : SchedulerConfig) (size id n cached : ℕ) (st : StepState)
    (v : IsStep config size st) (h : 0 < count id st.scheduler.running)
    (z : count id st.scheduled_ids ≡ 0) (p : 0 < n) (t : n ≤ st.budget.tokens)
    (q : 0 < st.budget.seqs)
    (k : Sequence.num_computed_tokens (object st id) + n ≤ num_tokens (object st id))
    (c : can_append st.scheduler.block_manager (object st id) n ≡ true) where
  abbrev w : Work
  w = work_of id st.scheduler

  abbrev r : Work
  r = (append_slots n w).1

  abbrev st1 : StepState
  st1 = record st {
    scheduler = record st.scheduler {
      block_manager = r.manager;
      store = write id r.seq st.scheduler.store;
    };
  }

  abbrev s1 : Sequence
  s1 = object st1 id

  abbrev st2 : StepState
  st2 = record st1 {
    scheduler = record st1.scheduler { store = write id (progressed n s1) st1.scheduler.store };
  }

  there : s1 ≡ r.seq
  there = write-same id r.seq st.scheduler.store

  appended : (F : Frame) × IsAppended F n w (append_slots n w)
  appended = (append_slots-IsOrderly id v.orderly h n k).0

  orderly1 : IsScheduler st1.scheduler
  orderly1 = (append_slots-IsOrderly id v.orderly h n k).1

  same_tokens : num_tokens s1 ≡ num_tokens (object st id)
  same_tokens =
      let x = append_slots-IsKept n w in
      omega (arith, ap num_tokens there, ap length x.same_prompt, ap length x.same_outputs)

  same_progress : s1.num_computed_tokens ≡ Sequence.num_computed_tokens (object st id)
  same_progress = ap Sequence.num_computed_tokens there ∙ appended.1.same_progress

  in_time : s1.num_computed_tokens + n ≤ num_tokens s1
  in_time = omega (arith, k, same_tokens, same_progress)

  given : (l : List ℕ) × ((append_slots n w).0 ≡ ok l)
  given = of_result (append_slots n w).0 (appended.1.outcome ∙ c)
    where
      of_result : (x : Result (List ℕ)) → is_ok x ≡ true → (l : List ℕ) × (x ≡ ok l)
      of_result (ok l) e = (l, refl)
      of_result (err x) e = cc

  abbrev item : ScheduledSeq
  item = made size s1 id n cached given.0

  share : IsShare size item
  share =
      let slots = appended.1.slots given.0 given.1 in
      made-IsShare size s1 id n cached given.0 p in_time slots.sized (
        subst (λ b. s1.num_computed_tokens + n ≤ length s1.block_table * b) v.same_size
          (omega (
            arith,
            slots-cover w.manager.block_size r.seq.block_table w.seq.num_computed_tokens n given.0
                v.orderly.sized p slots,
            same_progress,
            ap (λ (y : Sequence). length y.block_table * w.manager.block_size) there,
          )))

  orderly2 : IsScheduler st2.scheduler
  orderly2 =
      let x = orderly1.runs id h in
      move-IsOrderly id (progressed n s1) r.manager r.manager st1.scheduler.store
        st.scheduler.running st.scheduler.running st.scheduler.preempted st.scheduler.preempted
        st.scheduler.waiting st.scheduler.waiting
        (stay-IsMove id (progressed n s1) r.manager r.manager st1.scheduler.store
          st.scheduler.running st.scheduler.preempted st.scheduler.waiting orderly1 h
          (touch id (progressed n s1) orderly1.holding
            (record { same_id = refl; same_table = refl; progress = omega arith }))
          refl refl
          (record {
            sound = record {
              named = x.sound.named;
              prompted = x.sound.prompted;
              computed = in_time;
            };
            status_is = x.status_is;
          })
          refl)
        orderly1

  runs_to : emit id n cached st ≡ (ok tt, recorded item st2)
  unfolding emit emitted
  runs_to =
      continue-ok (in_scheduler (on_work id (append_slots n)) st) _ given.1
      ∙ ap (λ b. emitted id n b st1) (built-ok size s1 id n cached given.0 in_time share)
      ∙ ap
          (λ (a : Result ℕ × Sequence).
            continue
              (
                a.0,
                record st1 {
                  scheduler = record st1.scheduler { store = write id a.1 st1.scheduler.store };
                },
              )
              (λ target st'. (ok tt, recorded item st')))
          (advance-ok n s1 in_time)

  step2 : IsStep config size st2
  step2 = record {
    orderly = orderly2;
    same_config = v.same_config;
    same_size = (append_slots-IsKept n w).same_size ∙ v.same_size;
    tokens = v.tokens;
    seqs = v.seqs;
    listed = v.listed;
    once = v.once;
    in_running = v.in_running;
    prefills_fit = v.prefills_fit;
    decodes_fit = v.decodes_fit;
  }

  carried2 : IsCarried st.scheduler st2.scheduler
  carried2 = record {
    same_config = refl;
    same_index = refl;
    same_counter = refl;
    requests = λ j.
        subst (λ f. SameRequest (st.scheduler.store j) (f j))
          (sym (write-write id r.seq (progressed n s1) st.scheduler.store))
          (write-SameRequest id (progressed n s1) st.scheduler.store
            (record {
              request = ap Sequence.request_id there ∙ (append_slots-IsKept n w).same_request;
              prompt = ap Sequence.prompt_token_ids there ∙ (append_slots-IsKept n w).same_prompt;
              outputs = ap Sequence.output_token_ids there ∙ (append_slots-IsKept n w).same_outputs;
            })
            j);
    same_places = λ j. refl;
  }

  -- For a running sequence that is not in the batch and has the tokens, where the budgets and the pool
  -- have room, `_emit` raises nothing, adds the sequence to the batch and keeps the step in order.
  pub emit-Emits : Emits config size id st (emit id n cached st)
  unfolding recorded recorded_as item_of
  emit-Emits = subst (Emits config size id st) (sym runs_to) (record {
    returned = refl;
    step = recorded_as-IsStep config size item.is_prefill item st2 step2 share h z t q;
    carried = carried2;
    same_running = refl;
    same_preempted = refl;
    same_now = refl;
    added = λ j. count-add_new j id st.scheduled_ids z;
    spent = omega (arith, q);
  })
