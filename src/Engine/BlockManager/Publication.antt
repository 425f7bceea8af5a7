-- ===== src/Engine/BlockManager/Publication.antt =====
-- BlockManager: `publish_computed_blocks`, `free`, `release`, `preempt` and `reset`.
use turboserve.Prelude.{
  ℕ, zero, suc, ◌+◌, ◌-◌, ◌/◌, min, Bool, Option, none, some, List, [], ◌∷◌, ◌++◌, length,
  get_elem?, get_or, ◌==◌, if◌then◌else◌, Result, ok, err, index_error, Exec, continue,
}
use turboserve.Prelude.Dict.{get, put, remove}
use turboserve.Prelude.Keys.{nat_eq}
use turboserve.Engine.BlockAllocator
use turboserve.Engine.BlockAllocator.{BlockAllocator}
use turboserve.Engine.PrefixHash.{root_hash, block_hash}
use turboserve.Engine.PrefixCache
use turboserve.Engine.PrefixCache.{PrefixCache, Digest}
use turboserve.Engine.PrefixCache.Recycling.{cache_recycler}
use turboserve.Engine.Sequence.{Sequence, block_tokens, reset_for_recompute}
use turboserve.Engine.BlockManager.{SeqBlocks, BlockManager, Work, prefix_cache}

unfoldable pub dropped : Work → Result ℕ × BlockAllocator PrefixCache → Result (Unit {0}) × Work
dropped w (err e, p) = (err e, record w { manager = record w.manager { allocator = p } })
dropped w (ok n, p) = (
  ok tt,
  record {
    manager = record w.manager { allocator = p; state = remove w.manager.state w.seq.seq_id };
    seq = record w.seq { block_table = [] };
  },
)

unfoldable pub free_blocks : Exec Work (Unit {0})
unfolding dropped BlockAllocator.decref_many
free_blocks w = dropped w (BlockAllocator.decref_many w.seq.block_table w.manager.allocator)

module _ (blake2b : List ℕ → List ℕ) where
  unfoldable pub chained :
      ℕ → Sequence → SeqBlocks → Result (List ℕ) → Result (Unit {0}) × SeqBlocks
  chained size s blocks (err e) = (err e, blocks)
  chained size s blocks (ok tokens) =
      let i = length blocks.hashes in
      let parent =
        if i == 0 then root_hash blake2b else get_or blocks.hashes (i - 1) (root_hash blake2b) in
      (
        ok tt,
        record blocks { hashes = blocks.hashes ++ block_hash blake2b parent tokens s.lora_id ∷ [] },
      )

  -- The inner loop: `n` more hashes of the chain.
  unfoldable pub extend_hashes : ℕ → ℕ → Sequence → Exec SeqBlocks (Unit {0})
  unfolding chained block_tokens
  extend_hashes zero size s blocks = (ok tt, blocks)
  extend_hashes (suc n) size s blocks =
      continue (chained size s blocks (block_tokens s (length blocks.hashes) size))
        (λ u. extend_hashes n size s)

  -- `cache.insert(block_table[index], hashes[index])`
  unfoldable pub insert_found : Option ℕ → Option Digest → Exec PrefixCache Bool
  unfolding PrefixCache.insert
  insert_found (some b) (some h) c = PrefixCache.insert b h c
  insert_found none h c = (err index_error, c)
  insert_found (some b) none c = (err index_error, c)

  unfoldable pub published :
      ℕ → SeqBlocks → Result Bool × PrefixCache → Result ℕ × (PrefixCache × SeqBlocks)
  published count blocks (err e, c) = (err e, (c, blocks))
  published count blocks (ok new, c) = (
    ok (if new then count + 1 else count),
    (c, record blocks { num_published = blocks.num_published + 1 }),
  )

  -- One round of the outer loop, with the number of blocks published so far.
  unfoldable pub publish_one : ℕ → Sequence → ℕ → Exec (PrefixCache × SeqBlocks) ℕ
  unfolding extend_hashes insert_found published
  publish_one size s count (c, blocks) =
      let index = blocks.num_published in
      let extended = extend_hashes (suc index - length blocks.hashes) size s blocks in
      elim extended.0 [
        | err e ↦ (err e, (c, extended.1))
        | ok u ↦
            published count extended.1
              (insert_found (get_elem? s.block_table index) (get_elem? extended.1.hashes index) c)
      ]

  unfoldable pub publish_from : ℕ → ℕ → Sequence → ℕ → Exec (PrefixCache × SeqBlocks) ℕ
  unfolding publish_one
  publish_from zero size s count st = (ok count, st)
  publish_from (suc n) size s count st =
      continue (publish_one size s count st) (λ more. publish_from n size s more)

  -- The cache and the bookkeeping are objects: what was written to them stays, also after a raise.
  unfoldable pub written :
      ℕ → BlockManager → Result ℕ × (PrefixCache × SeqBlocks) → Result ℕ × BlockManager
  written id m (r, (c, blocks)) = (
    r,
    record m {
      allocator = record m.allocator { recycler = some c };
      state = put m.state id blocks;
    },
  )

  unfoldable pub publish_with :
      Option PrefixCache → Option SeqBlocks → Sequence → BlockManager → Result ℕ × BlockManager
  unfolding publish_from written
  publish_with (some c) (some blocks) s m =
      let full = min (s.num_computed_tokens / m.block_size) (length s.block_table) in
      written s.seq_id m (publish_from (full - blocks.num_published) m.block_size s 0 (c, blocks))
  publish_with none blocks s m = (ok 0, m)
  publish_with (some c) none s m = (ok 0, m)

  unfoldable pub publish_computed_blocks : Sequence → BlockManager → Result ℕ × BlockManager
  unfolding publish_with
  publish_computed_blocks s m = publish_with (prefix_cache m) (get m.state s.seq_id) s m

  unfoldable pub free : Exec Work (Unit {0})
  unfolding publish_computed_blocks free_blocks
  free w =
      let (r, m) = publish_computed_blocks w.seq w.manager in
      elim r [
        | err e ↦ (err e, record w { manager = m })
        | ok n ↦ free_blocks (record w { manager = m })
      ]

  unfoldable pub unprogressed : Sequence → Sequence
  unprogressed s = record s {
    num_computed_tokens = 0;
    timing = record s.timing { num_cached_prompt_tokens = 0 };
  }

  unfoldable pub release : Exec Work (Unit {0})
  unfolding free unprogressed
  release w = continue (free w) (λ u w'. (ok tt, record w' { seq = unprogressed w'.seq }))

  unfoldable pub preempt : Exec Work (Unit {0})
  unfolding free reset_for_recompute
  preempt w = continue (free w) (λ u w'. (ok tt, record w' { seq = reset_for_recompute w'.seq }))

unfoldable pub reset : BlockManager → BlockManager
unfolding BlockAllocator.reset PrefixCache.reset
reset m =
    let p = BlockAllocator.reset m.allocator in
    record m {
      state = [];
      allocator = elim p.recycler [
        | none ↦ p
        | some c ↦ record p { recycler = some (PrefixCache.reset c) }
      ];
    }
