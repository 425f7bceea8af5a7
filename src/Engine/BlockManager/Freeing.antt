-- ===== src/Engine/BlockManager/Freeing.antt =====
-- Giving the blocks of a sequence back: `free` and `preempt` of BlockManager.
use turboserve.Prelude.{
  ℕ, ◌+◌, ◌≤◌, ◌≡◌, refl, ◌∙◌, none, List, [], ◌∷◌, arith, count, count-nil, count-cons, Result, ok,
  err, continue-ok, continue-keeps,
}
use turboserve.Prelude.Dict.{get, get-remove}
use turboserve.Prelude.Keys.{nat_eq}
use turboserve.Engine.BlockAllocator.{BlockAllocator, refs_at, decref, decref_many}
use turboserve.Engine.BlockAllocator.References.{TakenOnce, decref-TakenOnce}
use turboserve.Engine.PrefixCache.{PrefixCache, Digest}
use turboserve.Engine.PrefixCache.Recycling.{cache_recycler}
use turboserve.Engine.BlockManager.{Work, BlockManager, prefix_cache}
use turboserve.Engine.BlockManager.Publication.{
  dropped, free_blocks, publish_computed_blocks, free, preempt,
}
use turboserve.Engine.BlockManager.PublishLoop.{publish_computed_blocks-IsManaged}
use turboserve.Engine.BlockManager.Adoption.{IsManaged}
use turboserve.Engine.Sequence
use turboserve.Engine.Sequence.{Sequence, token_ids, preempted, reset_for_recompute}
use turboserve.Engine.BlockManager.Pool.{IsPool}
use turboserve.Engine.BlockManager.PoolSteps.{decref-IsPool}
use turboserve.Engine.BlockManager.PoolEntries.{block_of, decref-caches, decref-block_of, decref-ok}
use turboserve.Engine.BlockManager.Ownership.{Frame, IsOwned, IsPrivate}

decref_many-block_of :
    (bs : List ℕ) (h : Digest) (p : BlockAllocator PrefixCache)
    → block_of (decref_many bs p).1.recycler h ≡ block_of p.recycler h
unfolding decref_many
decref_many-block_of [] h p = refl
decref_many-block_of (b ∷ bs) h p =
    continue-keeps (λ q. block_of q.recycler h ≡ block_of p.recycler h) (decref b p) _
      (decref-block_of b h p) (λ a q e k. decref_many-block_of bs h q ∙ k)

-- For every hash a manager's cache has the same block.
abbrev pub SameBlocks : BlockManager → BlockManager → Type 0
SameBlocks m n = (h : Digest) → block_of (prefix_cache m) h ≡ block_of (prefix_cache n) h

dropped-SameBlocks :
    (w : Work) (r : Result ℕ × BlockAllocator PrefixCache) (h : Digest)
    → block_of (prefix_cache (dropped w r).1.manager) h ≡ block_of r.1.recycler h
unfolding dropped
dropped-SameBlocks w (ok n, p) h = refl
dropped-SameBlocks w (err e, p) h = refl

free_blocks-SameBlocks : (w : Work) → SameBlocks (free_blocks w).1.manager w.manager
unfolding free_blocks
free_blocks-SameBlocks w h =
    dropped-SameBlocks w (decref_many w.seq.block_table w.manager.allocator) h
    ∙ decref_many-block_of w.seq.block_table h w.manager.allocator

module _ (F : Frame) where
  -- The pool when the sequence still holds the references of a list.
  pub record IsHeld (p : BlockAllocator PrefixCache) (bs : List ℕ) : Type 0 where
    pub pool : IsPool p
    pub counted : (b : ℕ) → refs_at p b ≡ F.refs b + count b bs
    pub framed : (b : ℕ) → F.Private b → IsPrivate p b

  decref-IsHeld :
      (b a : ℕ) (bs : List ℕ) (p : BlockAllocator PrefixCache)
      → (decref b p).0 ≡ ok a
      → IsHeld p (b ∷ bs)
      → IsHeld (decref b p).1 bs
  decref-IsHeld b a bs p e v = record {
    pool = decref-IsPool b p v.pool;
    counted = λ c. ground (arith, t c, v.counted c, count-cons c b bs);
    framed = λ c h. (
      ground (arith, t c, v.counted c, (v.framed c h).0, F.once c h, count-cons c b bs),
      decref-caches b c p ∙ (v.framed c h).1,
    );
  }
    where
      t : TakenOnce b (decref b p).1 p
      t = decref-TakenOnce b p v.pool.partition e

  decref_many-IsHeld :
      (bs : List ℕ) (p : BlockAllocator PrefixCache)
      → IsHeld p bs
      → (n : ℕ) × ((decref_many bs p).0 ≡ ok n) × IsHeld (decref_many bs p).1 []
  unfolding decref_many
  decref_many-IsHeld [] p v = (0, refl, v)
  decref_many-IsHeld (b ∷ bs) p v =
      let (a, e) = decref-ok b p v.pool (ground (arith, v.counted b, count-cons b b bs)) in
      rw (continue-ok (decref b p) (λ c. decref_many bs) e)
        (decref_many-IsHeld bs (decref b p).1 (decref-IsHeld b a bs p e v))

  -- A sequence without its blocks: the pool holds the references of the others, no more.
  pub record IsFreed (s : Sequence) (r : Result (Unit {0}) × Work) : Type 0 where
    pub returned : r.0 ≡ ok tt
    pub emptied : r.1.seq.block_table ≡ []
    pub pool : IsPool r.1.manager.allocator
    pub counted : (b : ℕ) → refs_at r.1.manager.allocator b ≡ F.refs b
    pub framed : (b : ℕ) → F.Private b → IsPrivate r.1.manager.allocator b
    pub same_tokens : token_ids r.1.seq ≡ token_ids s
    pub forgotten : get r.1.manager.state s.seq_id ≡ none

  dropped-IsFreed :
      (w : Work) (r : Result ℕ × BlockAllocator PrefixCache) (n : ℕ)
      → r.0 ≡ ok n
      → IsHeld r.1 []
      → IsFreed w.seq (dropped w r)
  unfolding dropped
  dropped-IsFreed w (err x, p) n e v = cc e
  dropped-IsFreed w (ok k, p) n e v = record {
    returned = refl;
    emptied = refl;
    pool = v.pool;
    counted = λ b. ground (arith, v.counted b, count-nil b);
    framed = v.framed;
    same_tokens = refl;
    forgotten = ground (arith, get-remove w.manager.state w.seq.seq_id w.seq.seq_id);
  }

  -- Whatever the other sequences own, giving back the blocks of a sequence raises nothing, leaves the
  -- sequence without a block and the manager without an entry for it, keeps the pool's invariant, and
  -- leaves on every block exactly the references of the other sequences, whose private blocks stay
  -- private.
  pub free_blocks-IsFreed :
      (w : Work) (from : ℕ)
      → IsOwned F w.manager.allocator w.seq.block_table from
      → IsFreed w.seq (free_blocks w)
  unfolding free_blocks
  free_blocks-IsFreed w from v =
      let (n, e, h) =
        decref_many-IsHeld w.seq.block_table w.manager.allocator
          (record { pool = v.pool; counted = v.counted; framed = v.framed }) in
      dropped-IsFreed w (decref_many w.seq.block_table w.manager.allocator) n e h

  module _ (blake2b : List ℕ → List ℕ) where
    -- For a managed sequence that has computed no more tokens than it holds, whatever the other
    -- sequences own: `free` raises nothing, leaves the sequence without a block and the manager without
    -- an entry for it, keeps the pool's invariant, and leaves on every block exactly the references of
    -- the other sequences, whose private blocks stay private; and the cache has for every hash the block
    -- that it has once `publish_computed_blocks` is through.
    pub free-IsFreed :
        (w : Work)
        → IsManaged F w
        → w.seq.num_computed_tokens ≤ Sequence.num_tokens w.seq
        → IsFreed w.seq (free blake2b w)
          × SameBlocks
              (free blake2b w).1.manager
              (publish_computed_blocks blake2b w.seq w.manager).1
    unfolding free
    free-IsFreed w v t =
        let ((n, e), m) = publish_computed_blocks-IsManaged blake2b F w v t in
        let left : Work = record w {
          manager = (publish_computed_blocks blake2b w.seq w.manager).1;
        } in
        rw (e, free)
          (free_blocks-IsFreed left m.blocks.num_published m.owned, free_blocks-SameBlocks left)

    -- As for `free`, `preempt` raises nothing, and it leaves the sequence preempted, with no block and
    -- no progress, its tokens kept, and the pool as `allocate` needs it to admit the sequence again.
    pub preempt-IsFreed :
        (w : Work)
        → IsManaged F w
        → w.seq.num_computed_tokens ≤ Sequence.num_tokens w.seq
        → IsFreed w.seq (preempt blake2b w)
          × ((preempt blake2b w).1.seq.status ≡ preempted)
          × ((preempt blake2b w).1.seq.num_computed_tokens ≡ 0)
          × (token_ids (preempt blake2b w).1.seq ≡ token_ids w.seq)
          × IsOwned F (preempt blake2b w).1.manager.allocator [] 0
    unfolding preempt reset_for_recompute
    preempt-IsFreed w v t =
        let f = (free-IsFreed w v t).0 in
        rw (continue-ok (free blake2b w) _ f.returned) (
          record {
            returned = refl;
            emptied = refl;
            pool = f.pool;
            counted = f.counted;
            framed = f.framed;
            same_tokens = f.same_tokens;
            forgotten = f.forgotten;
          },
          refl,
          refl,
          f.same_tokens,
          record {
            pool = f.pool;
            counted = λ b. ground (arith, f.counted b, count-nil b);
            framed = f.framed;
            own = λ i b h g. cc;
          },
        )
