-- ===== src/Engine/BlockManager/CachedPrefix.antt =====
-- The cached prefix of a sequence, as BlockManager (turboserve/engine/core/block_manager.py) looks it
-- up for `allocate`.
use turboserve.Prelude.{
  ℕ, suc, ◌-◌, ◌*◌, ◌/◌, ◌≤◌, ◌<◌, ◌≡◌, sym, true, Option, none, some, List, arith, length,
  length-append, get_elem?, min,
}
use turboserve.Prelude.Dict.{get}
use turboserve.Prelude.Keys.{nat_eq, bytes_eq}
use turboserve.Engine.PrefixHash.{num_full}
use turboserve.Engine.PrefixCache.{PrefixCache, find_match}
use turboserve.Engine.PrefixHash.Soundness.{prefix_hash}
use turboserve.Engine.PrefixCache.Matching.{find_match-IsLongestMatch}
use turboserve.Engine.Sequence
use turboserve.Engine.Sequence.{Sequence, token_ids}
use turboserve.Engine.BlockManager.{Work, max_hit_blocks}

-- A block table holds the cached prefix of a sequence: block for block what the cache has for the
-- hash of the prefix that ends there, up to the first prefix that it does not have or to the last
-- token, which is never taken from the cache.
pub record AdoptsPrefix (blake2b : List ℕ → List ℕ) (c : PrefixCache) (s : Sequence)
    (table : List ℕ) : Type 0 where
  pub hit :
      (i b : ℕ)
      → get_elem? table i ≡ some b
      → get c.by_hash (prefix_hash blake2b (token_ids s) c.block_size s.lora_id (suc i)) ≡ some b
  pub stopped :
      0 < c.block_size
      → suc (length table) * c.block_size < Sequence.num_tokens s
      → get c.by_hash
          (prefix_hash blake2b (token_ids s) c.block_size s.lora_id (suc (length table)))
        ≡ none

below_cap : (k n size : ℕ) → 0 < size → suc k * size < n → k < min (n / size) ((n - 1) / size)
below_cap k n size h l =
    let a : suc k ≤ n / size = grind arith in
    let b : suc k ≤ (n - 1) / size = grind arith in omega (arith, a, b)

below_num_full :
    (s : Sequence) (k size m : ℕ)
    → 0 < size
    → m ≡ size
    → suc k * size < Sequence.num_tokens s
    → k < num_full (token_ids s) size (some ((Sequence.num_tokens s - 1) / m))
unfolding num_full
below_num_full s k size m h e l =
    rw (length-append s.prompt_token_ids s.output_token_ids, e)
      (below_cap k (Sequence.num_tokens s) size h l)

module _ (blake2b : List ℕ → List ℕ) where
  pub match-AdoptsPrefix :
      (c : PrefixCache) (w : Work)
      → c.block_size ≡ w.manager.block_size
      → AdoptsPrefix blake2b c w.seq
          (find_match blake2b
            (token_ids w.seq)
            w.seq.lora_id
            (some (max_hit_blocks w.manager w.seq))
            true
            c).0.block_ids
  match-AdoptsPrefix c w z =
      let cap : Option ℕ = some (max_hit_blocks w.manager w.seq) in
      let found = (find_match blake2b (token_ids w.seq) w.seq.lora_id cap true c).0 in
      let l = (find_match-IsLongestMatch blake2b (token_ids w.seq) w.seq.lora_id c cap true).0 in
      record {
        hit = λ i b e. (l.block_at i b e).0;
        stopped = λ h k. l.stopped (
            below_num_full w.seq (length found.block_ids) c.block_size w.manager.block_size h
              (sym z) k);
      }
