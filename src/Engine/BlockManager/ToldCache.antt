-- ===== src/Engine/BlockManager/ToldCache.antt =====
-- The loop of `publish_computed_blocks` of BlockManager (turboserve/engine/core/block_manager.py), with
-- the cache that it tells of the blocks.
use turboserve.Prelude.{
  ℕ, zero, suc, ◌+◌, ◌-◌, ◌*◌, ◌≤◌, ◌<◌, ◌≡◌, sym, ap, subst, ◌∙◌, Bool, true, false, some, List,
  arith, length, get_elem?-lt, ◌==◌, Bool-cases, Option-cases, inl, inr, Result, ok, err,
  continue-ok,
}
use turboserve.Prelude.Dict.{get, get-put}
use turboserve.Prelude.Keys.{nat_eq, bytes_eq, bytes_beq_iff}
use turboserve.Engine.BlockAllocator.{BlockAllocator}
use turboserve.Engine.PrefixCache.{PrefixCache, Digest, insert, is_some, contains_block}
use turboserve.Engine.Sequence
use turboserve.Engine.Sequence.{Sequence, token_ids}
use turboserve.Engine.BlockManager.{SeqBlocks}
use turboserve.Engine.BlockManager.Publication.{
  extend_hashes, insert_found, published, publish_one, publish_from,
}
use turboserve.Engine.BlockManager.Publishing.{extend_hashes-IsExtended}
use turboserve.Engine.BlockManager.Ownership.{Frame, IsOwned}
use turboserve.Engine.BlockManager.PoolEntries.{insert-ok}
use turboserve.Engine.BlockManager.PublishLoop.{publish_one-IsPublished, first_le, mul_suc_le}
use turboserve.Engine.BlockManager.KeptHashes.{hash_at, IsChained, extend_hashes-IsChained}

module _ (blake2b : List ℕ → List ℕ) (size : ℕ) (s : Sequence) where
  -- From block `old` on, the prefixes of the published blocks are in the cache.
  pub record IsTold (old : ℕ) (c : PrefixCache) (blocks : SeqBlocks) : Type 0 where
    pub chained_is : IsChained blake2b size s blocks
    pub cached :
        (i : ℕ)
        → old ≤ i
        → i < blocks.num_published
        → is_some (get c.by_hash (hash_at blake2b size s (suc i))) ≡ true

-- An inserted hash is in the cache, with all that were there.
insert-found :
    (b : ℕ) (h : Digest) (c : PrefixCache)
    → contains_block c b ≡ false
    → is_some (get (insert b h c).1.by_hash h) ≡ true
unfolding insert contains_block
insert-found b h c e = elim (Option-cases (get c.by_hash h)) [
  | inl m ↦ ground (arith, m, get-put c.by_hash h h b, bytes_beq_iff h h)
  | inr (x, m) ↦ ground (arith, m)
]

insert-kept :
    (b : ℕ) (h k : Digest) (c : PrefixCache)
    → is_some (get c.by_hash k) ≡ true
    → is_some (get (insert b h c).1.by_hash k) ≡ true
unfolding insert
insert-kept b h k c e = ground (arith, get-put c.by_hash h k b, e)

module _ (blake2b : List ℕ → List ℕ) (F : Frame) (p : BlockAllocator PrefixCache) (size : ℕ)
    (s : Sequence) (old : ℕ) where
  inserted-IsTold :
      (num : ℕ) (blocks : SeqBlocks) (b : ℕ) (h : Digest) (c : PrefixCache)
      → contains_block c b ≡ false
      → h ≡ hash_at blake2b size s (suc blocks.num_published)
      → IsTold blake2b size s old c blocks
      → IsTold blake2b size s old
          (published blake2b num blocks (insert b h c)).1.0
          (published blake2b num blocks (insert b h c)).1.1
  unfolding published
  inserted-IsTold num blocks b h c z q v =
      let (a, f) = insert-ok b h c z in
      at (insert b h c) a f (insert-found b h c z) (λ k. insert-kept b h k c)
    where
      at :
          (r : Result Bool × PrefixCache) (a : Bool)
          → r.0 ≡ ok a
          → is_some (get r.1.by_hash h) ≡ true
          → ((k : Digest) → is_some (get c.by_hash k) ≡ true → is_some (get r.1.by_hash k) ≡ true)
          → IsTold blake2b size s old
              (published blake2b num blocks r).1.0
              (published blake2b num blocks r).1.1
      at (err x, c') a f found kept = cc f
      at (ok new, c') a f found kept = record {
        chained_is = v.chained_is;
        cached = λ i l g. elim (Bool-cases (i == blocks.num_published)) [
          | inl e ↦
              let same : blocks.num_published ≡ i = ground (arith, e) in
              subst (λ j. is_some (get c'.by_hash (hash_at blake2b size s (suc j))) ≡ true) same
                (subst (λ k. is_some (get c'.by_hash k) ≡ true) q found)
          | inr e ↦ kept (hash_at blake2b size s (suc i)) (v.cached i l (ground (arith, e, g)))
        ];
      }

  publish_one-IsTold :
      (num : ℕ) (c : PrefixCache) (blocks : SeqBlocks)
      → IsOwned F (record p { recycler = some c }) s.block_table blocks.num_published
      → blocks.num_published < length s.block_table
      → suc blocks.num_published * size ≤ Sequence.num_tokens s
      → IsTold blake2b size s old c blocks
      → IsTold blake2b size s old
          (publish_one blake2b size s num (c, blocks)).1.0
          (publish_one blake2b size s num (c, blocks)).1.1
  unfolding publish_one insert_found
  publish_one-IsTold num c blocks v l k t =
      let index = blocks.num_published in
      let n = suc index - length blocks.hashes in
      let r = extend_hashes blake2b n size s blocks in
      let bound = mul_suc_le index (length blocks.hashes) size (Sequence.num_tokens s) k in
      let x = extend_hashes-IsExtended blake2b size s n blocks bound in
      let y = extend_hashes-IsChained blake2b size s n blocks bound t.chained_is in
      let (b, e) = get_elem?-lt s.block_table index l in
      let (h, f) = get_elem?-lt r.1.hashes index (omega (arith, x.longer)) in
      rw (x.returned, publish_one, e, f, insert_found)
        (inserted-IsTold num r.1 b h c (v.own index b (omega arith) e).1
          (y index h f ∙ ap (λ i. hash_at blake2b size s (suc i)) (sym x.same_progress))
          (record {
            chained_is = y;
            cached = λ i g j. t.cached i g (omega (arith, j, x.same_progress));
          }))

  pub publish_from-IsTold :
      (n num : ℕ) (c : PrefixCache) (blocks : SeqBlocks)
      → IsOwned F (record p { recycler = some c }) s.block_table blocks.num_published
      → (0 < n → blocks.num_published + n ≤ length s.block_table)
      → (0 < n → (blocks.num_published + n) * size ≤ Sequence.num_tokens s)
      → IsTold blake2b size s old c blocks
      → IsTold blake2b size s old
          (publish_from blake2b n size s num (c, blocks)).1.0
          (publish_from blake2b n size s num (c, blocks)).1.1
  unfolding publish_from
  publish_from-IsTold zero num c blocks v l k t = t
  publish_from-IsTold (suc n) num c blocks v l k t =
      let r = publish_one blake2b size s num (c, blocks) in
      let short = first_le blocks.num_published n size (Sequence.num_tokens s) (k (omega arith)) in
      let x =
        publish_one-IsPublished blake2b F p size s num c blocks v (omega (arith, l (omega arith)))
          short in
      let e : r.1.1.num_published + n ≡ blocks.num_published + suc n = omega (arith, x.progress) in
      rw (continue-ok r (λ more. publish_from blake2b n size s more) x.returned) (
        publish_from-IsTold n x.num_new r.1.0 r.1.1
          (subst (IsOwned F (record p { recycler = some r.1.0 }) s.block_table) (sym x.progress)
            x.owned)
          (λ z. rw e (l (omega arith))) (λ z. rw e (k (omega arith)))
          (publish_one-IsTold num c blocks v (omega (arith, l (omega arith))) short t))
