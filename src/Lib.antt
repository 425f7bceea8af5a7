-- ===== src/Lib.antt =====
-- turboserve: the engine's scheduler over its paged key/value cache, the controller of canary rollouts,
-- and the gateway's limits.
--
-- turboserve serves a language model. The engine stores the keys and values of attention in a pool of
-- fixed-size blocks. A block is free, in use by one or more sequences, or retained: kept by the prefix
-- cache with nobody using it, until the pool needs it again. The parts are modelled one by one and
-- composed as the code composes them.
--   Engine/BlockAllocator.antt   src/turboserve/engine/core/kv_cache.py: BlockAllocator, which counts
--     references and keeps the free list and the retained set. BlockRecycler, a Protocol, is the record
--     Recycler, its contract the record RecyclerLaws in Engine/BlockAllocator/Custody.antt.
--     check_invariants is in Engine/BlockAllocator/Totals.antt.
--   Engine/PrefixHash.antt       src/turboserve/engine/core/prefix_cache.py: the hash chain.
--   Engine/PrefixCache.antt      the same file: PrefixCache, the index from hashes to blocks with LRU
--     eviction; Engine/PrefixCache/Recycling.antt makes it the allocator's recycler.
--   Engine/Sequence.antt         src/turboserve/engine/core/sequence.py: Sequence.
--   Engine/BlockManager.antt     src/turboserve/engine/core/block_manager.py: BlockManager, with
--     Growth.antt (append_slots, slot_mapping, can_append) and Publication.antt
--     (publish_computed_blocks, free, release, preempt, reset) below it.
--   Engine/WaitQueue.antt        src/turboserve/engine/core/scheduler.py: _WaitQueue, the requests that
--     wait, first come first served or by weighted fair queueing.
--   Engine/Scheduler.antt        the same file: Scheduler, with the lives of the requests; the step,
--     Scheduler.schedule, is in Engine/Scheduler/Schedule.antt, and what a batch is built with in
--     Engine/Scheduler/Step.antt.
--   Engine/SchedulerOutput.antt  the same file: ScheduledSeq and SchedulerOutput, what a step returns.
--   Engine/AttnMetadata.antt     src/turboserve/engine/core/types.py: AttnMetadata, what the batch is
--     built into for the kernels.
-- A new version of a model is delivered by a canary rollout: its share of the traffic rises step by
-- step, as long as it passes the gates on errors and latency.
--   Canary.antt                  src/turboserve/canary/controller.py: lanes, samples, summaries.
--   Canary/Window.antt           LaneWindow, the sliding window of a lane.
--   Canary/Percentile.antt       src/turboserve/bench/records.py: percentile.
--   Canary/Config.antt           CanaryConfig and its validation.
--   Canary/Controller.antt       CanaryController.
-- The gateway refuses a tenant's request that is over its quota.
--   Gateway/TokenBucket.antt     src/turboserve/gateway/limits.py: TokenBucket.
--   Gateway/TenantLimiter.antt   the same file: TenantLimiter, with its concurrency slots.
-- The engine, the controller and the limits share no state.
-- A definition has the name of the method that it models; `match` and `remove` are named find_match
-- and remove_block, and a private method loses its underscore. An object is a record; a method that
-- may raise is a function from the state to a Result and the state after it, since what was written
-- before a raise stays written. The allocator holds the recycler by reference, so the recycler's
-- state is a field of the allocator, and the block manager reaches its prefix cache there. The
-- sequence that a method of the manager mutates is passed with the manager, in the record Work.
--
-- The scheduler's queues, its index of requests and its batches refer to Sequence objects, which the
-- block manager mutates as well. The objects stand in a store, a function from ids, and a reference is
-- an id. Texts, as tenants and request ids, are lists of code points. A weight of a tenant enters as its
-- charge 1 / weight, in whole numbers of a unit. An assigned clock value is an argument, `now`.
--
-- Numbers that the code keeps from going below zero are natural numbers. Loops are structural
-- recursion: over the lists that they go through, or on the number of rounds that the code fixes
-- before the loop (blocks to take, slots to write, hashes to append), so they need no fuel. Two
-- `while` loops of the step have rounds as fuel, and the error out_of_fuel for its end: _make_room
-- gets one round more than there are running sequences, since each of its preemptions takes one out
-- of them, and the admissions get the sequences left in the budget, since each round but the last
-- takes one.
--
-- Times and latencies of the canary controller, floats in the code, are exact numbers of a unit that
-- is the caller's, percentiles are in hundredths of it, and rates are fractions. The buckets of the
-- limits count milliseconds and fractions of a token. Rounding of floats is not modelled.
--
-- A parameter: hashlib.blake2b, a function from the bytes that it was fed to the digest. The chain's
-- theorem asks that digests have 16 bytes, the size that the code sets.
--
-- The theorems on the manager are about one sequence in a Frame: how many references the other
-- sequences hold on each block, and which blocks are private to one of them. They hold for every
-- frame. Engine/Scheduler/Frames.antt makes a frame of all running sequences but one, and so carries
-- them over to the scheduler.
--
-- Not modelled: the tensors of KVCache; the scheduler's check_invariants, stats and adapter context;
-- sampling, speculative decoding, adapters, the model, the rest of the gateway, the drivers of the
-- canary controller, the chaos harness and the benchmarks; logging and repr.
pub mod Canary
pub mod Engine
pub mod Gateway
pub mod Prelude
pub mod Tests
