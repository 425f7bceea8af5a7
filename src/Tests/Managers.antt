-- ===== src/Tests/Managers.antt =====
-- A manager of two blocks of four tokens, with one sequence and nobody else in the frame.
use turboserve.Prelude.{
  count, add_to, ◌-◌, true, ℕ, zero, suc, ◌+◌, ◌*◌, ◌%◌, ◌≡◌, refl, some, [], ◌∷◌, get_elem?, ok,
  arith, count-nil,
}
use turboserve.Prelude.Dict.{get, put}
use turboserve.Prelude.Keys.{nat_eq}
use turboserve.Engine.BlockAllocator.{allocate, refs_at}
use turboserve.Engine.PrefixCache.Recycling.{cache_recycler, on_zero_refs}
use turboserve.Engine.Sequence.{token_ids, preempted, num_tokens, reset_for_recompute}
use turboserve.Engine.BlockManager
use turboserve.Engine.BlockManager.{can_allocate, BlockManager, Work, SeqBlocks, prefix_cache}
use turboserve.Engine.BlockManager.Growth.{append_slots, can_append}
use turboserve.Engine.BlockManager.Admission.{can_allocate-can_append}
use turboserve.Engine.PrefixHash.{num_full, block_hash, root_hash}
use turboserve.Engine.BlockManager.Publication.{free, preempt, publish_computed_blocks}
use turboserve.Engine.BlockManager.Ownership.{Frame, IsOwned, IsPrivate, allocate-IsOwned}
use turboserve.Engine.BlockManager.Adoption.{IsManaged, IsAdmission, SameSize, allocate-IsAdmission}
use turboserve.Engine.BlockManager.Slots.{
  IsAppended, append_slots-IsAppended, append_slots-IsPrivate,
}
use turboserve.Engine.BlockManager.Freeing.{IsFreed, SameBlocks, free-IsFreed, preempt-IsFreed}
use turboserve.Engine.BlockManager.KeptHashes.{IsChained}
use turboserve.Engine.BlockManager.PublishedHashes.{
  IsPublication, publish_computed_blocks-IsPublication,
}
use turboserve.Tests.Allocator.{pool, pool-IsPool, first_block}
use turboserve.Tests.Caches.{digest}
use turboserve.Tests.Sequences.{request}

abbrev alone : Frame
alone = record { refs = λ b. 0; Private = λ b. ⊥; once = λ b h. elim h [ ] }

pub no_refs : (b : ℕ) → refs_at pool b ≡ 0
no_refs zero = refl
no_refs (suc zero) = refl
no_refs (suc (suc b)) = refl

pool-IsOwned : IsOwned alone pool [] 0
pool-IsOwned = record {
  pool = pool-IsPool;
  counted = λ b. ground (arith, no_refs b, count-nil b);
  framed = λ b h. elim h [ ];
  own = λ i b h g. cc;
}

abbrev arriving : Work
arriving = record {
  manager = record { allocator = pool; block_size = 4; state = [] };
  seq = request 0 [];
}

-- The request once it is known to the manager.
abbrev known : Work
known = record {
  manager = record {
    allocator = pool;
    block_size = 4;
    state = (0, record { hashes = []; num_published = 0 }) ∷ [];
  };
  seq = request 0 [];
}

known-IsManaged : IsManaged alone known
unfolding get
known-IsManaged = record {
  blocks = record { hashes = []; num_published = 0 };
  known = refl;
  owned = pool-IsOwned;
  complete = omega arith;
}

append_slots-IsAppended_example : IsAppended alone 5 known (append_slots 5 known)
append_slots-IsAppended_example =
    append_slots-IsAppended alone 5 known known-IsManaged (omega arith) (omega arith)

five_slots : (append_slots 5 known).0 ≡ ok (0 ∷ 1 ∷ 2 ∷ 3 ∷ 4 ∷ [])
unfolding append_slots allocate get
five_slots = refl

append_slots-IsPrivate_example :
    (b : ℕ) × (get_elem? (0 ∷ 1 ∷ 2 ∷ 3 ∷ 4 ∷ []) 4 ≡ some (b * 4 + (0 + 4) % 4))
    × IsPrivate (append_slots 5 known).1.manager.allocator b
append_slots-IsPrivate_example =
    append_slots-IsPrivate alone 5 known known-IsManaged (omega arith) (omega arith) five_slots 4
      (omega arith)

-- The request holds block 0, which is computed.
abbrev holding : Work
holding = record {
  manager = record {
    allocator = (allocate pool).1;
    block_size = 4;
    state = (0, record { hashes = []; num_published = 0 }) ∷ [];
  };
  seq = record (request 0 (0 ∷ [])) { num_computed_tokens = 4 };
}

holding-IsOwned : IsOwned alone holding.manager.allocator holding.seq.block_table 0
holding-IsOwned = allocate-IsOwned alone pool [] 0 0 first_block pool-IsOwned

holding-IsManaged : IsManaged alone holding
unfolding get
holding-IsManaged = record {
  blocks = record { hashes = []; num_published = 0 };
  known = refl;
  owned = holding-IsOwned;
  complete = omega arith;
}

free-IsFreed_example :
    IsFreed alone holding.seq (free digest holding)
    × SameBlocks
        (free digest holding).1.manager
        (publish_computed_blocks digest holding.seq holding.manager).1
free-IsFreed_example = free-IsFreed alone digest holding holding-IsManaged (omega arith)

preempt-IsFreed_example :
    IsFreed alone holding.seq (preempt digest holding)
    × ((preempt digest holding).1.seq.status ≡ preempted)
    × ((preempt digest holding).1.seq.num_computed_tokens ≡ 0)
    × (token_ids (preempt digest holding).1.seq ≡ token_ids holding.seq)
    × IsOwned alone (preempt digest holding).1.manager.allocator [] 0
preempt-IsFreed_example = preempt-IsFreed alone digest holding holding-IsManaged (omega arith)

holding-IsChained : IsChained digest holding.manager.block_size holding.seq holding-IsManaged.blocks
unfolding holding-IsManaged
holding-IsChained i h e = cc e

publish_computed_blocks-IsPublication_example :
    IsPublication digest alone holding 0
      (publish_computed_blocks digest holding.seq holding.manager)
unfolding holding-IsManaged
publish_computed_blocks-IsPublication_example =
    publish_computed_blocks-IsPublication digest alone holding holding-IsManaged (omega arith)
      holding-IsChained

-- The preempted request comes back, and finds its block in the cache.
abbrev back : Work
back = (preempt digest holding).1

back_tokens : num_tokens back.seq ≡ 5
unfolding preempt reset_for_recompute get allocate on_zero_refs put
back_tokens = refl

back_size : SameSize back.manager.block_size (prefix_cache back.manager)
unfolding preempt reset_for_recompute get allocate on_zero_refs put
back_size = refl

back_adopts : (BlockManager.allocate digest back).1.seq.block_table ≡ 0 ∷ []
unfolding preempt reset_for_recompute get num_full BlockManager.allocate allocate on_zero_refs put
    block_hash root_hash count add_to
back_adopts = refl

allocate-IsAdmission_example : IsAdmission digest alone back (BlockManager.allocate digest back)
allocate-IsAdmission_example =
    allocate-IsAdmission digest alone back
      (preempt-IsFreed alone digest holding holding-IsManaged (omega arith)).0.emptied
      (omega (arith, back_tokens)) back_size
      (preempt-IsFreed alone digest holding holding-IsManaged (omega arith)).4

lets_in : can_allocate digest arriving.manager arriving.seq ≡ ok true
unfolding can_allocate num_full get
lets_in = refl

can_allocate-can_append_example :
    can_append
      (BlockManager.allocate digest arriving).1.manager
      (BlockManager.allocate digest arriving).1.seq
      (5 - (BlockManager.allocate digest arriving).1.seq.num_computed_tokens)
    ≡ true
can_allocate-can_append_example =
    can_allocate-can_append digest alone arriving refl (omega arith) refl pool-IsOwned lets_in
