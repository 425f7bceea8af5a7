-- ===== src/Tests/Allocator.antt =====
-- A pool of two blocks with an empty prefix cache as its recycler.
use turboserve.Prelude.{
  ◌≡◌, refl, true, some, [], ◌∷◌, ltb, ok, is_ok, arith, ◌↔◌, range_from, count-cons, count-nil,
}
use turboserve.Prelude.Keys.{nat_eq}
use turboserve.Engine.BlockAllocator.{BlockAllocator, init, num_allocatable, allocate}
use turboserve.Engine.BlockAllocator.Partition.{IsPartition, init-IsPartition}
use turboserve.Engine.BlockAllocator.Runs.{
  decrefs, increfs, run, run-IsPartition, allocates, resets,
}
use turboserve.Engine.BlockAllocator.Custody.{IsCustody, allocate-ok_iff}
use turboserve.Engine.BlockAllocator.Totals.{
  check_invariants, IsWellTyped, check_invariants-IsPartition,
}
use turboserve.Engine.BlockAllocator.References.{IsFreshIn, allocate-IsFreshIn}
use turboserve.Engine.PrefixCache.{PrefixCache, empty, contains_block}
use turboserve.Engine.PrefixCache.Index.{empty-IsIndex}
use turboserve.Engine.PrefixCache.Recycling.{cache_recycler, cache_laws, held_by}
use turboserve.Engine.BlockManager.Pool.{IsPool}

abbrev pub pool : BlockAllocator PrefixCache
pool = record {
  num_blocks = 2;
  block_size = 4;
  refs = 0 ∷ 0 ∷ [];
  free = 0 ∷ 1 ∷ [];
  retained = [];
  recycler = some (empty 4);
}

pub pool-IsPartition : IsPartition pool
unfolding init range_from
pool-IsPartition = init-IsPartition 2 4 (some (empty 4)) refl

pool-IsCustody : IsCustody held_by pool
pool-IsCustody = record { same = λ b. refl }

pub pool-IsPool : IsPool pool
unfolding contains_block
pool-IsPool = record {
  partition = pool-IsPartition;
  in_custody = pool-IsCustody;
  index = empty-IsIndex 4;
  kept = λ b h. cc;
}

pool-IsWellTyped : IsWellTyped pool
pool-IsWellTyped = record {
  sized = refl;
  in_range = λ b h. ground (
    arith,
    pool-IsPartition.sized,
    pool-IsPartition.once b,
    count-cons b 0 (1 ∷ []),
    count-cons b 1 [],
    count-nil b,
  );
  is_set = λ b. ground (arith, count-nil b);
}

run-IsPartition_example :
    IsPartition (run (allocates ∷ increfs 0 ∷ decrefs 0 ∷ decrefs 0 ∷ decrefs 7 ∷ resets ∷ []) pool)
run-IsPartition_example =
    run-IsPartition (allocates ∷ increfs 0 ∷ decrefs 0 ∷ decrefs 0 ∷ decrefs 7 ∷ resets ∷ []) pool
      pool-IsPartition

allocate-ok_iff_example : is_ok (allocate pool).0 ≡ ltb 0 (num_allocatable pool)
allocate-ok_iff_example = allocate-ok_iff held_by cache_laws pool pool-IsPartition pool-IsCustody

check_invariants-IsPartition_example : (check_invariants pool ≡ true) ↔ IsPartition pool
check_invariants-IsPartition_example = check_invariants-IsPartition pool pool-IsWellTyped

pub first_block : (allocate pool).0 ≡ ok 0
unfolding allocate
first_block = refl

allocate-IsFreshIn_example : IsFreshIn pool 0 (allocate pool).1
allocate-IsFreshIn_example = allocate-IsFreshIn pool pool-IsPartition first_block
