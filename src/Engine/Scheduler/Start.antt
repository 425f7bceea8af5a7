-- ===== src/Engine/Scheduler/Start.antt =====
-- Scheduler.__init__ (turboserve/engine/core/scheduler.py), with a block manager of its own.
use turboserve.Prelude.{
  ℕ, ◌<◌, ◌≡◌, refl, subst, Bool, true, false, Option, none, some, List, [], inl, inr, replicate,
  range_from, arith, count, count-nil, get_or-replicate, Bool-cases, Result, ok, err, value_error,
  ◌==◌,
}
use turboserve.Prelude.Dict.{Dict, get-nil}
use turboserve.Prelude.Keys.{nat_eq, bytes_eq}
use turboserve.Engine.BlockAllocator
use turboserve.Engine.BlockAllocator.{BlockAllocator, refs_at}
use turboserve.Engine.BlockAllocator.Partition.{init-IsPartition}
use turboserve.Engine.PrefixCache
use turboserve.Engine.PrefixCache.{PrefixCache, contains_block, empty}
use turboserve.Engine.PrefixCache.Index.{empty-IsIndex}
use turboserve.Engine.PrefixCache.Recycling.{cache_recycler}
use turboserve.Engine.BlockManager
use turboserve.Engine.BlockManager.{BlockManager, prefix_cache}
use turboserve.Engine.BlockManager.Pool.{IsPool}
use turboserve.Engine.BlockManager.Adoption.{SameSize}
use turboserve.Engine.WaitQueue
use turboserve.Engine.WaitQueue.{Tenant, contents, contents_by, entries}
use turboserve.Engine.WaitQueue.Contents.{IsQueue}
use turboserve.Engine.Scheduler.{
  Scheduler, SchedulerConfig, init, with_manager, created, no_sequence, is_fair,
}
use turboserve.Engine.Scheduler.Holdings.{references}
use turboserve.Engine.Scheduler.Live.{IsLive}
use turboserve.Engine.Scheduler.Reachable.{Reach, Reach-IsLive}

-- A manager as `create` leaves it.
record IsUnused (m : BlockManager) : Type 0 where
  pool : IsPool m.allocator
  unreferenced : (b : ℕ) → refs_at m.allocator b ≡ 0
  sized : 0 < m.block_size
  same_size : SameSize m.block_size (prefix_cache m)

abbrev recycler_of : ℕ → Bool → Option PrefixCache
recycler_of size true = some (empty size)
recycler_of size false = none

abbrev manager_of : ℕ → ℕ → Bool → BlockManager
manager_of n size caching = record {
  allocator = record {
    num_blocks = n;
    block_size = size;
    refs = replicate n 0;
    free = range_from 0 n;
    retained = [];
    recycler = recycler_of size caching;
  };
  block_size = size;
  state = [];
}

no_size :
    (n size : ℕ) (caching : Bool)
    → size == 0 ≡ true
    → BlockManager.create n size caching ≡ err value_error
unfolding BlockManager.create PrefixCache.init BlockAllocator.init
no_size n size true e = rw (e, BlockManager.create) refl
no_size n size false e = rw (e, BlockManager.create) refl

made :
    (n size : ℕ) (caching : Bool)
    → size == 0 ≡ false
    → BlockManager.create n size caching ≡ ok (manager_of n size caching)
unfolding BlockManager.create PrefixCache.init BlockAllocator.init
made n size true e = rw (e, BlockManager.create) (rw (e, BlockAllocator.init) refl)
made n size false e = rw (e, BlockManager.create) refl

manager_of-IsPool :
    (n size : ℕ) (caching : Bool)
    → size == 0 ≡ false
    → IsPool (BlockManager.allocator (manager_of n size caching))
unfolding contains_block BlockAllocator.init
manager_of-IsPool n size true e = record {
  partition = init-IsPartition n size (some (empty size)) (rw e refl);
  in_custody = record { same = λ b. refl };
  index = empty-IsIndex size;
  kept = λ b h. cc;
}
manager_of-IsPool n size false e = record {
  partition = init-IsPartition n size none (rw e refl);
  in_custody = record { same = λ b. refl };
  index = tt;
  kept = λ b h. cc;
}

SameSize-of :
    (n size : ℕ) (caching : Bool) → SameSize size (prefix_cache (manager_of n size caching))
SameSize-of n size true = refl
SameSize-of n size false = tt

create-IsUnused :
    (n size : ℕ) (caching : Bool) {m : BlockManager}
    → BlockManager.create n size caching ≡ ok m
    → IsUnused m
create-IsUnused n size caching {m} e = elim (Bool-cases (size == 0)) [
  | inl z ↦ absurd (cc (no_size n size caching z, e))
  | inr z ↦
      let same : manager_of n size caching ≡ m = cc (made n size caching z, e) in
      subst IsUnused same (record {
        pool = manager_of-IsPool n size caching z;
        unreferenced = λ b. get_or-replicate n b 0;
        sized = ground (arith, z);
        same_size = SameSize-of n size caching;
      })
]

none_queued :
    (b : Bool) (charges : Dict Tenant ℕ) (unit k : ℕ)
    → count k (contents (WaitQueue.init b charges unit)) ≡ 0
unfolding WaitQueue.init contents contents_by entries
none_queued true charges unit k = count-nil k
none_queued false charges unit k = count-nil k

init-IsQueue :
    (f : ℕ → Tenant) (b : Bool) (charges : Dict Tenant ℕ) (unit : ℕ)
    → IsQueue f (WaitQueue.init b charges unit)
unfolding WaitQueue.init
init-IsQueue f true charges unit = record { backlogged = tt }
init-IsQueue f false charges unit = record { backlogged = tt }

-- The state with which a scheduler begins.
abbrev beginning : SchedulerConfig → BlockManager → Scheduler
beginning config m = record {
  config = config;
  block_manager = m;
  store = λ id. no_sequence;
  waiting = WaitQueue.init (is_fair config.policy) config.tenant_charges config.unit;
  preempted = [];
  running = [];
  by_request = [];
  seq_counter = 0;
  num_steps = 0;
  num_preemptions = 0;
  num_finished = 0;
  num_admitted = 0;
  num_prefill_tokens = 0;
  num_decode_tokens = 0;
  num_cached_tokens = 0;
}

beginning-IsLive :
    (config : SchedulerConfig) (m : BlockManager) → IsUnused m → IsLive (beginning config m)
unfolding references
beginning-IsLive config m u =
    let q = none_queued (is_fair config.policy) config.tenant_charges config.unit in
    record {
      orderly = record {
        holding = record {
          pool = u.pool;
          counted = u.unreferenced;
          each = λ k l. absurd (omega (arith, l, count-nil k));
        };
        sized = u.sized;
        same_size = u.same_size;
        once = λ k. omega (arith, q k, count-nil k);
        runs = λ k l. absurd (omega (arith, l, count-nil k));
        resumes = λ k l. absurd (omega (arith, l, count-nil k));
        waits = λ k l. absurd (omega (arith, l, q k));
        queue = init-IsQueue _ (is_fair config.policy) config.tenant_charges config.unit;
      };
      listed = λ k l. absurd (omega (arith, l, q k, count-nil k));
      queued = λ r k e. cc (get-nil {K = List ℕ} {V = ℕ} r, e);
      fresh = λ k l. omega (arith, q k, count-nil k);
    }

with_manager-IsLive :
    (config : SchedulerConfig) (m : BlockManager) {c : Scheduler}
    → IsUnused m
    → with_manager config m ≡ ok c
    → IsLive c
unfolding with_manager
with_manager-IsLive config m {c} u e = elim (Bool-cases (m.block_size == config.block_size)) [
  | inl f ↦
      let s : with_manager config m ≡ ok (beginning config m) = rw f refl in
      let same : beginning config m ≡ c = cc (s, e) in
      subst IsLive same (beginning-IsLive config m u)
  | inr f ↦ let s : with_manager config m ≡ err value_error = rw f refl in absurd (cc (s, e))
]

created-IsLive :
    (config : SchedulerConfig) (r : Result BlockManager) {c : Scheduler}
    → ((m : BlockManager) → r ≡ ok m → IsUnused m)
    → created config r ≡ ok c
    → IsLive c
created-IsLive config (ok m) u e = with_manager-IsLive config m (u m refl) e
created-IsLive config (err x) u e = cc e

sized-IsLive :
    (config : SchedulerConfig) (n : Option ℕ) {c : Scheduler}
    → (elim n [
      | none ↦ err value_error
      | some k ↦
          created config (BlockManager.create k config.block_size config.enable_prefix_caching)
    ])
      ≡ ok c
    → IsLive c
sized-IsLive config none e = cc e
sized-IsLive config (some k) e =
    created-IsLive config (BlockManager.create k config.block_size config.enable_prefix_caching)
      (λ m f. create-IsUnused k config.block_size config.enable_prefix_caching f) e

init-IsLive : (config : SchedulerConfig) {c : Scheduler} → init config none ≡ ok c → IsLive c
unfolding init
init-IsLive config e = sized-IsLive config config.num_blocks e

-- Of a scheduler that has made its own block manager, whatever the order of later calls of
-- add_request, schedule, append_token, finish and abort, those of append_token and finish
-- for queued sequences: the queues and the blocks are in order, the index has exactly the queued sequences, each
-- under its request, and the ids to come are unused.
pub init-Reach-IsLive :
    (blake2b : List ℕ → List ℕ) (config : SchedulerConfig) {c d : Scheduler}
    → init config none ≡ ok c
    → Reach blake2b c d
    → IsLive d
init-Reach-IsLive blake2b config e w = Reach-IsLive blake2b w (init-IsLive config e)
