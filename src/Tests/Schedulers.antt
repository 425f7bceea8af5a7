-- ===== src/Tests/Schedulers.antt =====
-- A scheduler under `tenant_fair` with a pool of two blocks of four tokens, where request 0 of tenant `a` waits.
use turboserve.Prelude.{
  ℕ, zero, suc, ◌+◌, ◌*◌, ◌≤◌, ◌≡◌, refl, sym, subst, ◌<◌, length, range_from, true, false, count,
  some, none, List, [], ◌∷◌, ok, arith, count-nil, count-cons,
}
use turboserve.Prelude.Dict.{get, put, remove}
use turboserve.Engine.PrefixHash.{num_full}
use turboserve.Engine.Sequence.{Sequence}
use turboserve.Engine.WaitQueue.{WaitQueue, Tenant, push, pop, next_in, contents, entries}
use turboserve.Engine.WaitQueue.Contents.{
  IsQueue, IsExchange, IsHandout, push-IsExchange, pop-IsHandout,
}
use turboserve.Engine.WaitQueue.Times.{times}
use turboserve.Engine.WaitQueue.Fairness.{Run, start, pushes, pops, Run-bounded}
use turboserve.Prelude.Integers.{pos}
use turboserve.Engine.Sequence.{stop, running}
use turboserve.Engine.Scheduler.{
  Scheduler, SchedulerConfig, init, tenant_fair, fcfs, no_sequence, add_request, add_sequence,
  abort_request, finish,
}
use turboserve.Engine.Scheduler.StepState.{places}
use turboserve.Engine.Scheduler.Live.{IsLive}
use turboserve.Engine.Scheduler.Detaching.{IsGone}
use turboserve.Engine.Scheduler.Requests.{finish-IsGone}
use turboserve.Engine.Scheduler.Arrivals.{IsAnswer, add_sequence-IsAnswer}
use turboserve.Engine.Scheduler.Life.{IsAborted, abort_request-IsAborted}
use turboserve.Engine.Scheduler.Reachable.{Reach, here, adds, schedules, aborts}
use turboserve.Engine.Scheduler.Start.{init-Reach-IsLive}
use turboserve.Engine.Scheduler.Holdings.{references}
use turboserve.Engine.Scheduler.Invariant.{IsScheduler}
use turboserve.Engine.Scheduler.Schedule.{schedule, make_room, first_state}
use turboserve.Engine.Scheduler.Scheduling.{
  IsBatch, schedule-IsBatch, schedule-validate, first-IsStep,
}
use turboserve.Engine.Scheduler.Step.{pick_victim}
use turboserve.Engine.Scheduler.Victims.{IsChoice, pick_victim-IsChoice}
use turboserve.Engine.Scheduler.MakingRoom.{Rooms}
use turboserve.Engine.Scheduler.MakingRoom.{make_room-Rooms}
use turboserve.Engine.SchedulerOutput.{SchedulerOutput, build_attn_metadata}
use turboserve.Engine.AttnMetadata.{AttnMetadata, validate}
use turboserve.Tests.Allocator.{pool, pool-IsPool}
use turboserve.Tests.Managers.{no_refs}
use turboserve.Tests.Caches.{digest}
use turboserve.Tests.Sequences.{request}

abbrev tenant_of : ℕ → Tenant
tenant_of k = b'a' ∷ []

abbrev nobody : WaitQueue
nobody = record {
  tenant_fair = true;
  charges = [];
  unit = 6;
  fifo = [];
  queues = [];
  vtime = [];
  now = 0;
}

nobody-IsQueue : IsQueue tenant_of nobody
nobody-IsQueue = record { backlogged = tt }

pushed : IsExchange tenant_of nobody [] (0 ∷ []) (push (request 0 []) nobody)
pushed = push-IsExchange tenant_of (request 0 []) nobody refl nobody-IsQueue

abbrev queue : WaitQueue
queue = push (request 0 []) nobody

queue-IsQueue : IsQueue tenant_of queue
queue-IsQueue = pushed.queue

pop-IsHandout_example : IsHandout tenant_of queue
pop-IsHandout_example = pop-IsHandout tenant_of queue queue-IsQueue

abbrev fresh : Scheduler
fresh = record {
  config = record {
    max_num_seqs = 2;
    max_num_batched_tokens = 8;
    block_size = 4;
    num_blocks = none;
    enable_chunked_prefill = true;
    enable_prefix_caching = true;
    policy = tenant_fair;
    tenant_charges = [];
    unit = 6;
  };
  block_manager = record { allocator = pool; block_size = 4; state = [] };
  store = λ k. request k [];
  waiting = queue;
  preempted = [];
  running = [];
  by_request = ((b'r' ∷ 0 ∷ []), 0) ∷ [];
  seq_counter = 1;
  num_steps = 0;
  num_preemptions = 0;
  num_finished = 0;
  num_admitted = 0;
  num_prefill_tokens = 0;
  num_decode_tokens = 0;
  num_cached_tokens = 0;
}

queue_holds : contents queue ≡ 0 ∷ []
unfolding contents push entries put get
queue_holds = refl

fresh-IsScheduler : IsScheduler fresh
unfolding references
fresh-IsScheduler = record {
  holding = record {
    pool = pool-IsPool;
    counted = no_refs;
    each = λ k l. absurd (omega (arith, count-nil k, l));
  };
  sized = omega arith;
  same_size = refl;
  once = λ k. rw queue_holds (ground (arith, count-cons k 0 [], count-nil k));
  runs = λ k l. absurd (omega (arith, count-nil k, l));
  resumes = λ k l. absurd (omega (arith, count-nil k, l));
  waits = λ k l. record {
    sound = record { named = refl; prompted = omega arith; computed = omega arith };
    status_is = refl;
    empty = refl;
  };
  queue = queue-IsQueue;
}

schedule-IsBatch_example : IsBatch fresh (schedule digest 3 fresh)
schedule-IsBatch_example = schedule-IsBatch digest 3 fresh fresh-IsScheduler

first-IsBatch : IsBatch fresh (schedule digest 3 fresh)
first-IsBatch = schedule-IsBatch digest 3 fresh fresh-IsScheduler

abbrev batch : SchedulerOutput
batch = record {
  scheduled =
      record {
        seq_id = 0;
        num_new_tokens = 5;
        context_len = 5;
        token_ids = 5 ∷ 6 ∷ 7 ∷ 8 ∷ 9 ∷ [];
        slot_mapping = 0 ∷ 1 ∷ 2 ∷ 3 ∷ 4 ∷ [];
        block_table = 0 ∷ 1 ∷ [];
        is_prefill = true;
        is_chunk = false;
        num_cached_tokens = 0;
      }
      ∷ [];
  preempted = [];
  num_prefill_tokens = 5;
  num_decode_tokens = 0;
  num_prefill_seqs = 1;
  num_decode_seqs = 0;
  num_cached_tokens = 0;
}

one_batch : (schedule digest 3 fresh).0 ≡ ok batch
unfolding schedule put get push count num_full remove
one_batch = refl

schedule-validate_example :
    (m : AttnMetadata) × (build_attn_metadata 4 none batch ≡ ok m) × (validate (some 4) m ≡ ok tt)
schedule-validate_example =
    schedule-validate digest 3 fresh batch fresh-IsScheduler one_batch (omega arith)

-- After the step, request 0 runs.
abbrev second : Scheduler
second = (schedule digest 3 fresh).1

second-IsScheduler : IsScheduler second
second-IsScheduler = first-IsBatch.valid

now_running : second.running ≡ 0 ∷ []
unfolding schedule put get push count num_full remove
now_running = refl

make_room-Rooms_example :
    Rooms second.config second.block_manager.block_size 0 1
      (first_state digest second)
      (make_room digest 1 0 1 (first_state digest second))
make_room-Rooms_example =
    make_room-Rooms digest second.config second.block_manager.block_size 0 1 1
      (first_state digest second) (first-IsStep digest second second-IsScheduler)
      (subst (λ (l : List ℕ). 0 < count 0 l) (sym now_running) (ground (arith, count-cons 0 0 [])))
      (count-nil 0) (subst (λ (l : List ℕ). length l ≤ 1) (sym now_running) (omega arith))

-- Tenant `b` comes later and is served while `a` waits.
abbrev tenant_by : ℕ → Tenant
tenant_by zero = b'a' ∷ []
tenant_by (suc k) = b'b' ∷ []

abbrev of_b : Sequence
of_b = record (request 1 []) { tenant_id = b'b' ∷ [] }

-- `a` waits with a virtual time of 6, since it was served before.
abbrev behind : WaitQueue
behind = record {
  tenant_fair = true;
  charges = [];
  unit = 6;
  fifo = [];
  queues = (b'a' ∷ [], 0 ∷ []) ∷ [];
  vtime = (b'a' ∷ [], 6) ∷ [];
  now = 0;
}

behind-IsQueue : IsQueue tenant_by behind
unfolding get
behind-IsQueue = record {
  backlogged = (record { waits = omega arith; timed = refl; filed = only }, refl, tt);
}
  where
    only : (k : ℕ) → 0 < count k (0 ∷ []) → tenant_by k ≡ b'a' ∷ []
    only zero l = refl
    only (suc k) l = absurd (grind (arith, count-cons (suc k) 0 [], count-nil (suc k), l))

served : Run tenant_by behind (pop (push of_b behind)).1 ((b'b' ∷ []) ∷ [])
unfolding push put get next_in
served = pops (b'b' ∷ []) (pushes of_b start refl) refl

Run-bounded_example : 0 + 1 * 6 ≤ 6 + 6
unfolding get times
Run-bounded_example =
    Run-bounded tenant_by (b'a' ∷ []) (b'b' ∷ []) refl behind-IsQueue refl served refl (omega arith)

abbrev small : SchedulerConfig
small = record {
  max_num_seqs = 2;
  max_num_batched_tokens = 8;
  block_size = 4;
  num_blocks = some 2;
  enable_chunked_prefill = true;
  enable_prefix_caching = true;
  policy = fcfs;
  tenant_charges = [];
  unit = 1;
}

-- As `init` makes it.
abbrev empty_scheduler : Scheduler
empty_scheduler = record {
  config = small;
  block_manager = record { allocator = pool; block_size = 4; state = [] };
  store = λ k. no_sequence;
  waiting = record nobody { tenant_fair = false; unit = 1 };
  preempted = [];
  running = [];
  by_request = [];
  seq_counter = 0;
  num_steps = 0;
  num_preemptions = 0;
  num_finished = 0;
  num_admitted = 0;
  num_prefill_tokens = 0;
  num_decode_tokens = 0;
  num_cached_tokens = 0;
}

starts : init small none ≡ ok empty_scheduler
unfolding init range_from
starts = refl

abbrev asked : Scheduler
asked =
    (add_request (b'q' ∷ []) (5 ∷ 6 ∷ [])
      (record { max_tokens = 2; stop_token_ids = []; ignore_eos = false }) (b'a' ∷ []) (pos 0) 0 0
      empty_scheduler).1

-- A request comes in, is scheduled and is aborted.
calls :
    Reach digest empty_scheduler (abort_request digest (b'q' ∷ []) 3 (schedule digest 2 asked).1).1
calls = aborts (b'q' ∷ []) 3 (
    schedules 2 (
      adds (b'q' ∷ []) (5 ∷ 6 ∷ [])
        (record { max_tokens = 2; stop_token_ids = []; ignore_eos = false }) (b'a' ∷ []) (pos 0) 0 0
        here))

init-Reach-IsLive_example :
    IsLive (abort_request digest (b'q' ∷ []) 3 (schedule digest 2 asked).1).1
init-Reach-IsLive_example = init-Reach-IsLive digest small starts calls

asked-IsLive : IsLive asked
asked-IsLive = init-Reach-IsLive digest small starts (
    adds (b'q' ∷ []) (5 ∷ 6 ∷ [])
      (record { max_tokens = 2; stop_token_ids = []; ignore_eos = false }) (b'a' ∷ []) (pos 0) 0 0
      here)

abort_request-IsAborted_example :
    IsAborted (b'q' ∷ []) asked (abort_request digest (b'q' ∷ []) 3 asked)
abort_request-IsAborted_example = abort_request-IsAborted digest (b'q' ∷ []) 3 asked asked-IsLive

placed : 0 < places fresh 0
placed = rw queue_holds (ground (arith, count-cons 0 0 [], count-nil 0))

finish-IsGone_example :
    ((finish digest 0 stop none 3 fresh).0 ≡ ok tt)
    × IsGone 0 stop fresh (finish digest 0 stop none 3 fresh).1
finish-IsGone_example = finish-IsGone digest 0 stop none 3 fresh fresh-IsScheduler placed

add_sequence-IsAnswer_example : IsAnswer (request 1 []) fresh (add_sequence (request 1 []) fresh)
add_sequence-IsAnswer_example =
    add_sequence-IsAnswer (request 1 []) fresh fresh-IsScheduler (record {
      prompted = omega arith;
      no_blocks = refl;
      computed = omega arith;
      unlisted = rw queue_holds (ground (arith, count-cons 1 0 [], count-nil 1));
    })

-- Three requests run, the last two could yield to the first.
abbrev crowded : Scheduler
crowded = record fresh {
  running = 0 ∷ 1 ∷ 2 ∷ [];
  store = λ k. record (request k []) { status = running };
}

pick_victim-IsChoice_example : IsChoice crowded [] 0 (pick_victim crowded [] 0)
pick_victim-IsChoice_example = pick_victim-IsChoice crowded [] 0
