-- ===== src/Engine/Scheduler/Retiring.antt =====
-- BlockManager.free, called for a sequence that a scheduler retires, wherever it stands.
use turboserve.Prelude.{
  ℕ, ◌-◌, ◌/◌, ◌≤◌, ◌≡◌, refl, sym, ap, subst, Option, none, some, List, [], length, min, inl, inr,
  arith, count, Result, Result-cases, ok, err,
}
use turboserve.Prelude.Dict.{get}
use turboserve.Prelude.Keys.{nat_eq}
use turboserve.Engine.BlockAllocator.{BlockAllocator, decref_many}
use turboserve.Engine.PrefixCache.{PrefixCache}
use turboserve.Engine.PrefixCache.Recycling.{cache_recycler}
use turboserve.Engine.Sequence.{Sequence, num_tokens}
use turboserve.Engine.BlockManager.{SeqBlocks, BlockManager, Work, prefix_cache}
use turboserve.Engine.BlockManager.Publication.{
  publish_computed_blocks, publish_with, publish_from, written, free, free_blocks, dropped,
}
use turboserve.Engine.BlockManager.Ownership.{Frame, IsOwned}
use turboserve.Engine.BlockManager.Freeing.{IsFreed, free-IsFreed, free_blocks-IsFreed}
use turboserve.Engine.BlockManager.Keeping.{free-IsKept}
use turboserve.Engine.WaitQueue.{remove_first}
use turboserve.Engine.Scheduler.{write}
use turboserve.Engine.Scheduler.Holdings.{IsHolding, frame_of, IsSplit-first, IsSplit-last}
use turboserve.Engine.Scheduler.Frames.{Framed-part, Framed-all, focus, leave, unowned}

module _ (blake2b : List ℕ → List ℕ) where
  -- A sequence with no block has nothing to publish.
  record PublishesNothing (m : BlockManager) (r : Result ℕ × BlockManager) : Type 0 where
    returned : r.0 ≡ ok 0
    same_pool : r.1.allocator ≡ m.allocator

  publish_with-PublishesNothing :
      (c : Option PrefixCache) (o : Option SeqBlocks) (s : Sequence) (m : BlockManager)
      → prefix_cache m ≡ c
      → s.block_table ≡ []
      → PublishesNothing m (publish_with blake2b c o s m)
  unfolding publish_with publish_from written
  publish_with-PublishesNothing none o s m e h = record { returned = refl; same_pool = refl }
  publish_with-PublishesNothing (some c) none s m e h = record { returned = refl; same_pool = refl }
  publish_with-PublishesNothing (some c) (some blocks) s m e h =
      let none_full : min (s.num_computed_tokens / m.block_size) (length s.block_table)
            - blocks.num_published
          ≡ 0 =
        omega (arith, ap length h) in
      rw none_full (record {
        returned = refl;
        same_pool = ap (λ o. record m.allocator { recycler = o }) (sym e);
      })

  idle_free :
      (F : Frame) (w : Work)
      → w.seq.block_table ≡ []
      → IsOwned F w.manager.allocator [] 0
      → IsFreed F w.seq (free blake2b w)
  unfolding free publish_computed_blocks
  idle_free F w h v =
      let p =
        publish_with-PublishesNothing (prefix_cache w.manager) (get w.manager.state w.seq.seq_id)
          w.seq w.manager refl h in
      rw (p.returned, free)
        (free_blocks-IsFreed F
          (record w { manager = (publish_computed_blocks blake2b w.seq w.manager).1 }) 0
          (subst (λ l. IsOwned F (publish_computed_blocks blake2b w.seq w.manager).1.allocator l 0)
            (sym h) (subst (λ a. IsOwned F a [] 0) (sym p.same_pool) v)))

  dropped-finish_reason :
      (w : Work) (r : Result ℕ × BlockAllocator PrefixCache)
      → Sequence.finish_reason (dropped w r).1.seq ≡ w.seq.finish_reason
  unfolding dropped
  dropped-finish_reason w (ok n, p) = refl
  dropped-finish_reason w (err e, p) = refl

  pub free-finish_reason :
      (w : Work) → Sequence.finish_reason (free blake2b w).1.seq ≡ w.seq.finish_reason
  unfolding free free_blocks
  free-finish_reason w = elim (Result-cases (publish_computed_blocks blake2b w.seq w.manager).0) [
    | inl (n, e) ↦
        rw (e, free)
          (dropped-finish_reason
            (record w { manager = (publish_computed_blocks blake2b w.seq w.manager).1 })
            (decref_many w.seq.block_table
              (publish_computed_blocks blake2b w.seq w.manager).1.allocator))
    | inr (x, e) ↦ rw (e, free) refl
  ]

  -- After `free` of `id`, the others hold their blocks.
  pub record IsLeft (id : ℕ) (store : ℕ → Sequence) (R : List ℕ) (r : Result (Unit {0}) × Work)
      : Type 0 where
    pub returned : r.0 ≡ ok tt
    pub held : IsHolding r.1.manager (write id r.1.seq store) R
    pub emptied : r.1.seq.block_table ≡ []

  module _ (id : ℕ) {m : BlockManager} {store : ℕ → Sequence} {R : List ℕ} (v : IsHolding m store R)
      (named : Sequence.seq_id (store id) ≡ id) where
    pub free_running-IsLeft :
        count id R ≡ 1
        → Sequence.num_computed_tokens (store id) ≤ num_tokens (store id)
        → IsLeft id store
            (remove_first id R)
            (free blake2b (record { manager = m; seq = store id }))
    free_running-IsLeft h c =
        let w : Work = record { manager = m; seq = store id } in
        let split = IsSplit-first id R h in
        let framed = Framed-part id (remove_first id R) split v in
        let f = (free-IsFreed (frame_of framed) blake2b w (focus id framed split v) c).0 in
        record {
          returned = f.returned;
          held =
              leave id framed (free blake2b w).1 _ split named (free-IsKept blake2b w) f.pool
                f.counted f.framed;
          emptied = f.emptied;
        }

    pub free_queued-IsLeft :
        count id R ≡ 0
        → Sequence.block_table (store id) ≡ []
        → IsLeft id store R (free blake2b (record { manager = m; seq = store id }))
    free_queued-IsLeft z e =
        let w : Work = record { manager = m; seq = store id } in
        let framed = Framed-all v in
        let f = idle_free (frame_of framed) w e (unowned framed v) in
        record {
          returned = f.returned;
          held =
              leave id framed (free blake2b w).1 _ (IsSplit-last id R z) named
                (free-IsKept blake2b w) f.pool f.counted f.framed;
          emptied = f.emptied;
        }
