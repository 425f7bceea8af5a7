-- ===== src/Engine/BlockManager/PublishedHashes.antt =====
-- What `publish_computed_blocks` of BlockManager (turboserve/engine/core/block_manager.py) tells the
-- prefix cache.
use turboserve.Prelude.{
  ℕ, suc, ◌+◌, ◌-◌, ◌*◌, ◌/◌, ◌≤◌, ◌<◌, ◌≡◌, refl, sym, subst, ◌∙◌, true, Option, none, some, List,
  arith, length, min, Result, ok,
}
use turboserve.Prelude.Dict.{get, get-put}
use turboserve.Prelude.Keys.{nat_eq, bytes_eq}
use turboserve.Engine.PrefixCache.{PrefixCache, is_some}
use turboserve.Engine.Sequence
use turboserve.Engine.Sequence.{Sequence, token_ids}
use turboserve.Engine.BlockManager.{SeqBlocks, BlockManager, Work, prefix_cache}
use turboserve.Engine.BlockManager.Publication.{
  publish_from, written, publish_with, publish_computed_blocks,
}
use turboserve.Engine.BlockManager.Ownership.{Frame, IsOwned}
use turboserve.Engine.BlockManager.Adoption.{IsManaged}
use turboserve.Engine.BlockManager.PublishLoop.{
  publish_from-IsPublished, publish_computed_blocks-IsManaged, full_le,
}
use turboserve.Engine.BlockManager.KeptHashes.{hash_at, IsChained}
use turboserve.Engine.BlockManager.ToldCache.{publish_from-IsTold}

same_value : {A : Type 0} {a b : A} → some a ≡ some b → a ≡ b
same_value e = cc e

module _ (blake2b : List ℕ → List ℕ) (F : Frame) where
  -- What the cache and the bookkeeping of a sequence are after its blocks are published.
  pub record IsPublication (w : Work) (old : ℕ) (r : Result ℕ × BlockManager) : Type 0 where
    pub num_new : ℕ
    pub returned : r.0 ≡ ok num_new
    pub managed : IsManaged F (record w { manager = r.1 })
    pub chained_is :
        (blocks : SeqBlocks)
        → get r.1.state w.seq.seq_id ≡ some blocks
        → IsChained blake2b w.manager.block_size w.seq blocks
    pub reached :
        (c : PrefixCache) (blocks : SeqBlocks) (i : ℕ)
        → prefix_cache r.1 ≡ some c
        → get r.1.state w.seq.seq_id ≡ some blocks
        → i < length w.seq.block_table
        → suc i * w.manager.block_size ≤ w.seq.num_computed_tokens
        → 0 < w.manager.block_size
        → i < blocks.num_published
    pub cached :
        (c : PrefixCache) (blocks : SeqBlocks) (i : ℕ)
        → prefix_cache r.1 ≡ some c
        → get r.1.state w.seq.seq_id ≡ some blocks
        → old ≤ i
        → i < blocks.num_published
        → is_some (get c.by_hash (hash_at blake2b w.manager.block_size w.seq (suc i))) ≡ true

full_lt :
    (i computed size len old : ℕ)
    → i < len
    → suc i * size ≤ computed
    → 0 < size
    → i < old + (min (computed / size) len - old)
full_lt i computed size len old l h z =
    let d : suc i ≤ computed / size = grind arith in omega (arith, d, l)

module _ (blake2b : List ℕ → List ℕ) (F : Frame) where
  publish_with-IsPublication :
      (w : Work) (c : PrefixCache) (blocks : SeqBlocks) (num : ℕ)
      → (publish_with blake2b (some c) (some blocks) w.seq w.manager).0 ≡ ok num
      → IsManaged F
          (record w { manager = (publish_with blake2b (some c) (some blocks) w.seq w.manager).1 })
      → IsOwned F
          (record w.manager.allocator { recycler = some c })
          w.seq.block_table
          blocks.num_published
      → blocks.num_published * w.manager.block_size ≤ w.seq.num_computed_tokens
      → w.seq.num_computed_tokens ≤ Sequence.num_tokens w.seq
      → IsChained blake2b w.manager.block_size w.seq blocks
      → IsPublication blake2b F w blocks.num_published
          (publish_with blake2b (some c) (some blocks) w.seq w.manager)
  unfolding publish_with written
  publish_with-IsPublication w c blocks num e m v h t ch =
      let size = w.manager.block_size in
      let len = length w.seq.block_table in
      let n = min (w.seq.num_computed_tokens / size) len - blocks.num_published in
      let bound : (blocks.num_published + n) * size ≤ w.seq.num_computed_tokens =
        full_le blocks.num_published w.seq.num_computed_tokens size len h in
      let x =
        publish_from-IsPublished blake2b F w.manager.allocator size w.seq n 0 c blocks v
          (λ z. omega arith) (λ z. omega (arith, bound)) in
      let y =
        publish_from-IsTold blake2b F w.manager.allocator size w.seq blocks.num_published n 0 c
          blocks v (λ z. omega arith) (λ z. omega (arith, bound))
          (record { chained_is = ch; cached = λ i l g. absurd (omega arith) }) in
      let r = publish_from blake2b n size w.seq 0 (c, blocks) in
      let state : get (written blake2b w.seq.seq_id w.manager r).1.state w.seq.seq_id ≡ some r.1.1 =
        ground (arith, get-put w.manager.state w.seq.seq_id w.seq.seq_id r.1.1) in
      record {
        num_new = num;
        returned = e;
        managed = m;
        chained_is =
            λ b f. subst (IsChained blake2b size w.seq) (same_value (sym state ∙ f)) y.chained_is;
        reached = λ d b i g f l k z.
            subst (λ a. i < a.num_published) (same_value (sym state ∙ f))
              (rw x.progress
                (full_lt i w.seq.num_computed_tokens size len blocks.num_published l k z));
        cached = λ d b i g f l k.
            let same : r.1.1 ≡ b = same_value (sym state ∙ f) in
            subst (λ a. is_some (get a.by_hash (hash_at blake2b size w.seq (suc i))) ≡ true)
              (same_value g) (y.cached i l (subst (λ a. i < a.num_published) (sym same) k));
      }

  publish_found-IsPublication :
      (o : Option PrefixCache) (w : Work) (v : IsManaged F w) (num : ℕ)
      → prefix_cache w.manager ≡ o
      → (publish_with blake2b o (some v.blocks) w.seq w.manager).0 ≡ ok num
      → IsManaged F
          (record w { manager = (publish_with blake2b o (some v.blocks) w.seq w.manager).1 })
      → w.seq.num_computed_tokens ≤ Sequence.num_tokens w.seq
      → IsChained blake2b w.manager.block_size w.seq v.blocks
      → IsPublication blake2b F w v.blocks.num_published
          (publish_with blake2b o (some v.blocks) w.seq w.manager)
  unfolding publish_with
  publish_found-IsPublication none w v num e f m t ch = record {
    num_new = num;
    returned = f;
    managed = m;
    chained_is = λ b g.
        subst (IsChained blake2b w.manager.block_size w.seq) (same_value (sym v.known ∙ g)) ch;
    reached = λ c b i g. cc;
    cached = λ c b i g. cc;
  }
  publish_found-IsPublication (some c) w v num e f m t ch =
      publish_with-IsPublication w c v.blocks num f m
        (subst
          (λ o.
            IsOwned F (record w.manager.allocator { recycler = o }) w.seq.block_table
              v.blocks.num_published)
          e v.owned)
        v.complete t ch

  -- For a managed sequence that has computed no more tokens than it holds and whose kept hashes are
  -- those of its prefixes, whatever the other sequences own: `publish_computed_blocks` raises nothing
  -- and leaves the sequence managed and the kept hashes those of its prefixes; with a cache, and a
  -- block size that is not zero, every block of the table whose tokens are all computed then counts
  -- as published, and the cache has an entry for the hash of every prefix that this call published.
  pub publish_computed_blocks-IsPublication :
      (w : Work) (v : IsManaged F w)
      → w.seq.num_computed_tokens ≤ Sequence.num_tokens w.seq
      → IsChained blake2b w.manager.block_size w.seq v.blocks
      → IsPublication blake2b F w v.blocks.num_published
          (publish_computed_blocks blake2b w.seq w.manager)
  unfolding publish_computed_blocks
  publish_computed_blocks-IsPublication w v t ch =
      let ((n, e), m) = publish_computed_blocks-IsManaged blake2b F w v t in
      let with : Option SeqBlocks → Result ℕ × BlockManager =
        λ g. publish_with blake2b (prefix_cache w.manager) g w.seq w.manager in
      subst (λ g. IsPublication blake2b F w v.blocks.num_published (with g)) (sym v.known)
        (publish_found-IsPublication (prefix_cache w.manager) w v n refl
          (subst (λ g. (with g).0 ≡ ok n) v.known e)
          (subst (λ g. IsManaged F (record w { manager = (with g).1 })) v.known m) t ch)
