-- ===== src/Engine/PrefixCache.antt =====
-- PrefixCache (turboserve/engine/core/prefix_cache.py): hash -> block index with LRU eviction of
-- unreferenced blocks. The OrderedDict of evictable blocks is its list of keys, oldest first.
pub mod Index
pub mod Recycling
pub mod Matching
use turboserve.Prelude.{
  ℕ, zero, suc, ◌+◌, ◌-◌, ◌*◌, ◌≡◌, Bool, true, false, Option, none, some, List, [], ◌∷◌, ◌++◌,
  length, slice, mem, discard, count, if◌then◌else◌, ◌==◌, Result, ok, err, value_error, Exec,
}
use turboserve.Prelude.Dict
use turboserve.Prelude.Dict.{Dict, get, put, remove}
use turboserve.Prelude.Keys.{Eq, nat_eq, bytes_eq, bytes_beq}
use turboserve.Engine.PrefixHash.{root_hash, block_hash, num_full}

abbrev pub Digest : Type 0
Digest = List ℕ

pub record Entry : Type 0 where
  pub block_id : ℕ
  pub block_hash : Digest

pub record PrefixCache : Type 0 where
  pub block_size : ℕ
  pub by_hash : Dict Digest ℕ
  pub by_block : Dict ℕ Entry
  pub evictable : List ℕ
  pub hits : ℕ
  pub misses : ℕ
  pub inserts : ℕ
  pub evictions : ℕ

pub record PrefixMatch : Type 0 where
  pub block_ids : List ℕ
  pub hashes : List Digest
  pub block_size : ℕ

abbrev pub num_blocks : PrefixMatch → ℕ
num_blocks m = length m.block_ids

abbrev pub num_tokens : PrefixMatch → ℕ
num_tokens m = length m.block_ids * m.block_size

abbrev pub empty : ℕ → PrefixCache
empty block_size = record {
  block_size = block_size;
  by_hash = [];
  by_block = [];
  evictable = [];
  hits = 0;
  misses = 0;
  inserts = 0;
  evictions = 0;
}

unfoldable pub init : ℕ → Result PrefixCache
init block_size = if block_size == 0 then err value_error else ok (empty block_size)

abbrev pub is_some {ℓ} : {A : Type ℓ} → Option A → Bool
is_some none = false
is_some (some a) = true

unfoldable pub contains_block : PrefixCache → ℕ → Bool
unfolding get
contains_block c b = is_some (get c.by_block b)

unfoldable pub is_evictable : PrefixCache → ℕ → Bool
is_evictable c b = mem b c.evictable

abbrev pub blocks_of : List (ℕ × Digest) → List ℕ
blocks_of [] = []
blocks_of ((b, h) ∷ l) = b ∷ blocks_of l

abbrev pub hashes_of : List (ℕ × Digest) → List Digest
hashes_of [] = []
hashes_of ((b, h) ∷ l) = h ∷ hashes_of l

module _ (blake2b : List ℕ → List ℕ) where
  -- The loop of `match`, from block `index` on, for at most `n` more blocks: the blocks and their
  -- hashes up to the first miss.
  unfoldable pub match_from : PrefixCache → List ℕ → ℕ → Digest → ℕ → ℕ → List (ℕ × Digest)
  match_from c tokens lora parent index zero = []
  match_from c tokens lora parent index (suc n) =
      let h = block_hash blake2b parent (slice (index * c.block_size) c.block_size tokens) lora in
      let rest = match_from c tokens lora h (suc index) n in
      elim (get c.by_hash h) [ none ↦ [] | some b ↦ (b, h) ∷ rest ]

  unfoldable pub find_match : List ℕ → ℕ → Option ℕ → Bool → PrefixCache → PrefixMatch × PrefixCache
  unfolding match_from
  find_match tokens lora max_blocks recorded c =
      let n = num_full tokens c.block_size max_blocks in
      let found = match_from c tokens lora (root_hash blake2b) 0 n in
      (
        record { block_ids = blocks_of found; hashes = hashes_of found; block_size = c.block_size },
        if recorded
            then record c { hits = c.hits + length found; misses = c.misses + (n - length found) }
            else c,
      )

unfoldable pub insert_new : Option ℕ → ℕ → Digest → Exec PrefixCache Bool
insert_new (some other) b h c = (ok false, c)
insert_new none b h c = (
  ok true,
  record c {
    by_hash = put c.by_hash h b;
    by_block = put c.by_block b (record { block_id = b; block_hash = h });
    inserts = c.inserts + 1;
  },
)

unfoldable pub insert_at : Option Entry → ℕ → Digest → Exec PrefixCache Bool
unfolding insert_new
insert_at (some existing) b h c =
    if bytes_beq existing.block_hash h then (ok false, c) else (err value_error, c)
insert_at none b h c = insert_new (get c.by_hash h) b h c

unfoldable pub insert : ℕ → Digest → Exec PrefixCache Bool
unfolding insert_at
insert b h c = insert_at (get c.by_block b) b h c

unfoldable pub acquire : ℕ → PrefixCache → PrefixCache
acquire b c = record c { evictable = discard b c.evictable }

unfoldable pub release : ℕ → PrefixCache → Bool × PrefixCache
unfolding contains_block
release b c =
    if contains_block c b
    then (true, record c { evictable = discard b c.evictable ++ b ∷ [] })
    else (false, c)

-- Drop the entry of a block, if it is there, from both indexes.
unfoldable pub forget : Option Entry → ℕ → PrefixCache → PrefixCache
forget none b c = c
forget (some e) b c = record c {
  by_block = remove c.by_block b;
  by_hash = remove c.by_hash e.block_hash;
}

-- The loop of `evict`: at most `n` blocks, oldest first.
unfoldable pub evict_from : ℕ → List ℕ → PrefixCache → List ℕ × PrefixCache
unfolding forget
evict_from zero l c = ([], record c { evictable = l })
evict_from (suc n) [] c = ([], record c { evictable = [] })
evict_from (suc n) (b ∷ l) c =
    let (bs, c') = evict_from n l (forget (get c.by_block b) b c) in (b ∷ bs, c')

unfoldable pub evict : ℕ → PrefixCache → List ℕ × PrefixCache
unfolding evict_from
evict n c =
    let (bs, c') = evict_from n c.evictable c in
    (bs, record c' { evictions = c'.evictions + length bs })

unfoldable pub remove_entry : Option Entry → ℕ → PrefixCache → Bool × PrefixCache
unfolding forget
remove_entry none b c = (false, c)
remove_entry (some e) b c =
    let c' = forget (some e) b c in (true, record c' { evictable = discard b c'.evictable })

-- `remove`
unfoldable pub remove_block : ℕ → PrefixCache → Bool × PrefixCache
unfolding remove_entry
remove_block b c = remove_entry (get c.by_block b) b c

unfoldable pub remove_many : List ℕ → PrefixCache → ℕ × PrefixCache
unfolding remove_block
remove_many [] c = (0, c)
remove_many (b ∷ bs) c =
    let (known, c') = remove_block b c in
    let (n, c'') = remove_many bs c' in ((if known then 1 else 0) + n, c'')

unfoldable pub reset : PrefixCache → PrefixCache
reset c = record c { by_hash = []; by_block = []; evictable = [] }

unfoldable pub reset_stats : PrefixCache → PrefixCache
reset_stats c = record c { hits = 0; misses = 0; inserts = 0; evictions = 0 }
