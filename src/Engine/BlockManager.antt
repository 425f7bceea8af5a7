-- ===== src/Engine/BlockManager.antt =====
-- BlockManager (turboserve/engine/core/block_manager.py): which KV blocks a sequence gets. The
-- allocator holds the prefix cache as its recycler, and the manager's `_prefix_cache` is that very
-- object, as `create` wires them. A method takes the sequence that it mutates with the manager.
pub mod Growth
pub mod Publication
pub mod Pool
pub mod PoolSteps
pub mod PoolEntries
pub mod Ownership
pub mod Adoption
pub mod Admission
pub mod Slots
pub mod Publishing
pub mod PublishLoop
pub mod KeptHashes
pub mod ToldCache
pub mod PublishedHashes
pub mod CachedPrefix
pub mod Freeing
pub mod CacheSizes
pub mod Keeping
use turboserve.Prelude.{
  ℕ, zero, suc, ◌+◌, ◌-◌, ◌*◌, ◌/◌, ◌%◌, min, Bool, true, false, Option, none, some, List, [], ◌∷◌,
  ◌++◌, length, get_elem?, get_or, ltb, leb, ◌==◌, if◌then◌else◌, Result, ok, err, value_error,
  index_error, Exec, continue, mem,
}
use turboserve.Prelude.Dict.{Dict, get, put, remove}
use turboserve.Prelude.Keys.{nat_eq}
use turboserve.Engine.BlockAllocator
use turboserve.Engine.BlockAllocator.{BlockAllocator}
use turboserve.Engine.PrefixHash.{root_hash, block_hash}
use turboserve.Engine.PrefixCache
use turboserve.Engine.PrefixCache.{
  PrefixCache, PrefixMatch, Digest, num_blocks, num_tokens, find_match,
}
use turboserve.Engine.PrefixCache.Recycling.{cache_recycler}
use turboserve.Engine.Sequence
use turboserve.Engine.Sequence.{Sequence, token_ids, ceil_div, block_tokens, reset_for_recompute}

pub record SeqBlocks : Type 0 where
  pub hashes : List Digest
  pub num_published : ℕ

pub record BlockManager : Type 0 where
  pub allocator : BlockAllocator PrefixCache
  pub block_size : ℕ
  pub state : Dict ℕ SeqBlocks

-- What a method may change: the manager, and the sequence that it is called with.
pub record Work : Type 0 where
  pub manager : BlockManager
  pub seq : Sequence

abbrev pub prefix_cache : BlockManager → Option PrefixCache
prefix_cache m = m.allocator.recycler

abbrev managed : ℕ → Result (BlockAllocator PrefixCache) → Result BlockManager
managed size (ok p) = ok (record { allocator = p; block_size = size; state = [] })
managed size (err e) = err e

unfoldable pub create : ℕ → ℕ → Bool → Result BlockManager
unfolding PrefixCache.init BlockAllocator.init
create n size true = elim (PrefixCache.init size) [
  | ok c ↦ managed size (BlockAllocator.init n size (some c))
  | err e ↦ err e
]
create n size false = managed size (BlockAllocator.init n size none)

-- At least one token is left to compute.
abbrev pub max_hit_blocks : BlockManager → Sequence → ℕ
max_hit_blocks m s = (Sequence.num_tokens s - 1) / m.block_size

-- `sum(1 for b in block_ids if is_retained(b))`
unfoldable pub retained_hits : BlockAllocator PrefixCache → List ℕ → Result ℕ
unfolding BlockAllocator.is_retained
retained_hits p [] = ok 0
retained_hits p (b ∷ bs) = elim (BlockAllocator.is_retained p b) [
  | err e ↦ err e
  | ok retained ↦ elim (retained_hits p bs) [
    | ok n ↦ ok ((if retained then 1 else 0) + n)
    | err e ↦ err e
  ]
]

-- `needed - hits <= allocatable - retained`, over the integers.
unfoldable pub fits : ℕ → ℕ → ℕ → Result ℕ → Result Bool
fits needed hits allocatable (ok retained) = ok (leb (needed + retained) (allocatable + hits))
fits needed hits allocatable (err e) = err e

module _ (blake2b : List ℕ → List ℕ) where
  unfoldable pub can_allocate_with : Option PrefixCache → BlockManager → Sequence → Result Bool
  unfolding find_match retained_hits fits
  can_allocate_with none m s =
      ok (
        leb (Sequence.num_blocks_needed s m.block_size)
          (BlockAllocator.num_allocatable m.allocator))
  can_allocate_with (some c) m s =
      let found =
        (find_match blake2b (token_ids s) s.lora_id (some (max_hit_blocks m s)) false c).0 in
      fits (Sequence.num_blocks_needed s m.block_size) (num_blocks found)
        (BlockAllocator.num_allocatable m.allocator) (retained_hits m.allocator found.block_ids)

  unfoldable pub can_allocate : BlockManager → Sequence → Result Bool
  unfolding can_allocate_with
  can_allocate m s = can_allocate_with (prefix_cache m) m s

-- `cache.acquire(b)` on the cache that the allocator holds.
unfoldable pub acquire_in : ℕ → BlockAllocator PrefixCache → BlockAllocator PrefixCache
unfolding PrefixCache.acquire
acquire_in b p = elim p.recycler [
  | none ↦ p
  | some c ↦ record p { recycler = some (PrefixCache.acquire b c) }
]

-- Take a reference on a cached block, retained or in use.
unfoldable pub take_block : ℕ → Exec (BlockAllocator PrefixCache) ℕ
unfolding BlockAllocator.is_retained BlockAllocator.adopt BlockAllocator.incref
take_block b p = elim (BlockAllocator.is_retained p b) [
  | err e ↦ (err e, p)
  | ok true ↦ BlockAllocator.adopt b p
  | ok false ↦ BlockAllocator.incref b p
]

-- The loop of `allocate` over the matched blocks. It changes the pool and the block table.
unfoldable pub adopt_all : List ℕ → Exec (BlockAllocator PrefixCache × List ℕ) (Unit {0})
unfolding take_block acquire_in
adopt_all [] s = (ok tt, s)
adopt_all (b ∷ bs) (p, table) = elim (take_block b p).0 [
  | err e ↦ (err e, ((take_block b p).1, table))
  | ok c ↦ adopt_all bs (acquire_in b (take_block b p).1, table ++ b ∷ [])
]

-- The end of `allocate`.
unfoldable pub admit : SeqBlocks → ℕ → Exec Work ℕ
admit blocks cached w = (
  ok cached,
  record {
    manager = record w.manager { state = put w.manager.state w.seq.seq_id blocks };
    seq = record w.seq {
      num_computed_tokens = cached;
      timing = record w.seq.timing {
        num_cached_prompt_tokens = min cached (Sequence.num_prompt_tokens w.seq);
      };
    };
  },
)

unfoldable pub adopted :
    PrefixMatch → Work → Result (Unit {0}) × (BlockAllocator PrefixCache × List ℕ) → Result ℕ × Work
unfolding admit
adopted found w (r, (p, table)) =
    let w' : Work = record {
      manager = record w.manager { allocator = p };
      seq = record w.seq { block_table = table };
    } in
    elim r [
      | err e ↦ (err e, w')
      | ok u ↦
          admit (record { hashes = found.hashes; num_published = num_blocks found })
            (num_tokens found) w'
    ]

module _ (blake2b : List ℕ → List ℕ) where
  unfoldable pub allocate_with : Option PrefixCache → Exec Work ℕ
  unfolding adopted adopt_all find_match
  allocate_with none w = admit (record { hashes = []; num_published = 0 }) 0 w
  allocate_with (some c) w =
      let found =
        find_match blake2b (token_ids w.seq) w.seq.lora_id (some (max_hit_blocks w.manager w.seq))
          true c in
      adopted found.0 w (
        adopt_all found.0.block_ids
          (record w.manager.allocator { recycler = some found.1 }, w.seq.block_table))

  unfoldable pub allocate : Exec Work ℕ
  unfolding allocate_with
  allocate w =
      if length w.seq.block_table == 0
      then allocate_with (prefix_cache w.manager) w
      else (err value_error, w)
