-- ===== src/Engine/Scheduler.antt =====
-- Scheduler (turboserve/engine/core/scheduler.py): its state, and what requests go through outside a
-- step. The queues refer to Sequence objects that the block manager and the runtime change too, so
-- the objects stand in a store, under their ids, and the queues hold ids.
pub mod Step
pub mod Schedule
pub mod Holdings
pub mod Frames
pub mod Invariant
pub mod Moves
pub mod Admitting
pub mod StepState
pub mod Emitting
pub mod Preempting
pub mod Victims
pub mod MakingRoom
pub mod Running
pub mod Admissions
pub mod Funding
pub mod Rounds
pub mod Scheduling
pub mod Retiring
pub mod Detaching
pub mod Requests
pub mod Arrivals
pub mod Live
pub mod Life
pub mod Reachable
pub mod Start
use turboserve.Prelude.Integers.{ℤ, pos}
use turboserve.Prelude.{
  ℕ, zero, suc, ◌+◌, Bool, true, false, not, ◌&&◌, Option, none, some, List, [], ◌∷◌, ◌++◌, length,
  mem, ltb, ◌==◌, if◌then◌else◌, Result, ok, err, value_error, Exec, continue,
}
use turboserve.Prelude.Dict.{Dict, get, put, remove}
use turboserve.Prelude.Keys.{bytes_eq}
use turboserve.Engine.PrefixCache.{is_some}
use turboserve.Engine.Sequence
use turboserve.Engine.Sequence.{
  Sequence, SamplingParams, FinishReason, waiting, stop, abort, check_stop, num_blocks_needed,
}
use turboserve.Engine.BlockManager
use turboserve.Engine.BlockManager.{BlockManager, Work}
use turboserve.Engine.BlockManager.Publication
use turboserve.Engine.WaitQueue
use turboserve.Engine.WaitQueue.{WaitQueue, Tenant, remove_first}

pub data SchedulerPolicy : Type 0 where
  fcfs tenant_fair : SchedulerPolicy

abbrev pub is_fair : SchedulerPolicy → Bool
is_fair fcfs = false
is_fair tenant_fair = true

-- `1 / weight` of the tenants with a weight, in `unit`s.
pub record SchedulerConfig : Type 0 where
  pub max_num_seqs : ℕ
  pub max_num_batched_tokens : ℕ
  pub block_size : ℕ
  pub num_blocks : Option ℕ
  pub enable_chunked_prefill : Bool
  pub enable_prefix_caching : Bool
  pub policy : SchedulerPolicy
  pub tenant_charges : Dict Tenant ℕ
  pub unit : ℕ

pub record Scheduler : Type 0 where
  pub config : SchedulerConfig
  pub block_manager : BlockManager
  pub store : ℕ → Sequence
  pub waiting : WaitQueue
  pub preempted : List ℕ
  pub running : List ℕ
  pub by_request : Dict (List ℕ) ℕ
  pub seq_counter : ℕ
  pub num_steps : ℕ
  pub num_preemptions : ℕ
  pub num_finished : ℕ
  pub num_admitted : ℕ
  pub num_prefill_tokens : ℕ
  pub num_decode_tokens : ℕ
  pub num_cached_tokens : ℕ

-- What the store holds at an id that no sequence has.
abbrev pub no_sequence : Sequence
no_sequence = record {
  seq_id = 0;
  request_id = [];
  prompt_token_ids = [];
  sampling = record { max_tokens = 0; stop_token_ids = []; ignore_eos = false };
  tenant_id = [];
  priority = pos 0;
  lora_id = 0;
  output_token_ids = [];
  block_table = [];
  num_computed_tokens = 0;
  status = Sequence.finished;
  finish_reason = some abort;
  stop_token_id = none;
  timing = record {
    t_arrival = none;
    t_first_scheduled = none;
    t_first_token = none;
    t_finish = none;
    num_cached_prompt_tokens = 0;
  };
  num_preemptions = 0;
}

unfoldable pub with_manager : SchedulerConfig → BlockManager → Result Scheduler
unfolding WaitQueue.init
with_manager config m =
    if m.block_size == config.block_size
    then ok (record {
      config = config;
      block_manager = m;
      store = λ id. no_sequence;
      waiting = WaitQueue.init (is_fair config.policy) config.tenant_charges config.unit;
      preempted = [];
      running = [];
      by_request = [];
      seq_counter = 0;
      num_steps = 0;
      num_preemptions = 0;
      num_finished = 0;
      num_admitted = 0;
      num_prefill_tokens = 0;
      num_decode_tokens = 0;
      num_cached_tokens = 0;
    })
    else err value_error

abbrev created : SchedulerConfig → Result BlockManager → Result Scheduler
created config (ok m) = with_manager config m
created config (err e) = err e

unfoldable pub init : SchedulerConfig → Option BlockManager → Result Scheduler
unfolding with_manager BlockManager.create
init config (some m) = with_manager config m
init config none = elim config.num_blocks [
  | none ↦ err value_error
  | some n ↦ created config (BlockManager.create n config.block_size config.enable_prefix_caching)
]

-- An assignment to the object `id`.
abbrev pub write : ℕ → Sequence → (ℕ → Sequence) → ℕ → Sequence
write id s store k = if k == id then s else store k

-- A method of the block manager, called with the object `id`.
abbrev pub work_of : ℕ → Scheduler → Work
work_of id c = record { manager = c.block_manager; seq = c.store id }

abbrev pub worked : {A : Type 0} → ℕ → Scheduler → Result A × Work → Result A × Scheduler
worked id c (r, w) = (r, record c { block_manager = w.manager; store = write id w.seq c.store })

abbrev pub on_work : {A : Type 0} → ℕ → Exec Work A → Exec Scheduler A
on_work id f c = worked id c (f (work_of id c))

-- A method of the object `id`.
abbrev pub on_seq : {A : Type 0} → ℕ → Exec Sequence A → Exec Scheduler A
on_seq id f c = ((f (c.store id)).0, record c { store = write id (f (c.store id)).1 c.store })

-- The rejections of `add_sequence`.
unfoldable pub is_too_long : Scheduler → Sequence → Bool
is_too_long c s =
    if c.config.enable_chunked_prefill
    then false
    else ltb c.config.max_num_batched_tokens (Sequence.num_tokens s)

unfoldable pub add_sequence : Sequence → Exec Scheduler (Unit {0})
unfolding is_too_long WaitQueue.push
add_sequence s c =
    if is_some (get c.by_request s.request_id)
    then (err value_error, c)
    else if ltb c.block_manager.allocator.num_blocks (num_blocks_needed s c.config.block_size)
    then (err value_error, c)
    else if is_too_long c s
    then (err value_error, c)
    else (
      ok tt,
      record c {
        store = write s.seq_id (record s { status = waiting }) c.store;
        by_request = put c.by_request s.request_id s.seq_id;
        waiting = WaitQueue.push s c.waiting;
      },
    )

-- The counter has moved on, and the sequence may have been refused for an empty prompt.
unfoldable pub requested : ℕ → Result Sequence → Exec Scheduler ℕ
unfolding add_sequence
requested arrival (err e) c = (err e, c)
requested arrival (ok s) c =
    continue (add_sequence (record s { timing = record s.timing { t_arrival = some arrival } }) c)
      (λ u c'. (ok s.seq_id, c'))

unfoldable pub add_request :
    List ℕ → List ℕ → SamplingParams → List ℕ → ℤ → ℕ → ℕ → Exec Scheduler ℕ
unfolding requested Sequence.init
add_request request_id prompt sampling tenant priority lora_id arrival c =
    if is_some (get c.by_request request_id)
    then (err value_error, c)
    else requested arrival
        (Sequence.init c.seq_counter request_id prompt sampling tenant priority lora_id)
        (record c { seq_counter = c.seq_counter + 1 })

-- `_detach`
unfoldable pub detach : ℕ → Scheduler → Scheduler
unfolding remove_first WaitQueue.remove_seq
detach id c =
    let index = remove c.by_request (Sequence.request_id (c.store id)) in
    if mem id c.running
    then record c { running = remove_first id c.running; by_request = index }
    else if mem id c.preempted
    then record c { preempted = remove_first id c.preempted; by_request = index }
    else record c { waiting = (WaitQueue.remove_seq (c.store id) c.waiting).1; by_request = index }

module _ (blake2b : List ℕ → List ℕ) where
  unfoldable pub finish : ℕ → FinishReason → Option ℕ → ℕ → Exec Scheduler (Unit {0})
  unfolding Publication.free Sequence.finish detach
  finish id reason stop_token_id now c =
      let marked = record c {
        store = write id (Sequence.finish reason stop_token_id now (c.store id)) c.store;
      } in
      continue (on_work id (Publication.free blake2b) marked) (λ u freed.
        (ok tt, record (detach id freed) { num_finished = (detach id freed).num_finished + 1 }))

  unfoldable pub abort_request : List ℕ → ℕ → Exec Scheduler Bool
  unfolding finish
  abort_request request_id now c = elim (get c.by_request request_id) [
    | none ↦ (ok false, c)
    | some id ↦ continue (finish id abort none now c) (λ u c'. (ok true, c'))
  ]

  -- The token by which a sequence stopped, for the reason STOP.
  abbrev stop_token : FinishReason → ℕ → Option ℕ
  stop_token stop token = some token
  stop_token _ token = none

  unfoldable pub append_token : ℕ → ℕ → Option ℕ → ℕ → Exec Scheduler (Option FinishReason)
  unfolding Sequence.append_token check_stop finish
  append_token id token eos now c =
      continue (on_seq id (Sequence.append_token token now) c) (λ u c'.
        elim (check_stop (c'.store id) token eos) [
          | none ↦ (ok none, c')
          | some reason ↦
              continue (finish id reason (stop_token reason token) now c')
                (λ v c''. (ok (some reason), c''))
        ])

unfoldable pub reset : Scheduler → Scheduler
unfolding WaitQueue.clear Publication.reset
reset c = record c {
  waiting = WaitQueue.clear c.waiting;
  preempted = [];
  running = [];
  by_request = [];
  block_manager = Publication.reset c.block_manager;
}
