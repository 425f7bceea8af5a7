-- ===== src/Engine/PrefixCache/Matching.antt =====
-- What `match` finds.
use native.Mathlib.Nat.{add-zero, suc-add, add-suc, zero-add}
use turboserve.Prelude.{
  ℕ, zero, suc, ◌+◌, ◌-◌, ◌≤◌, ◌<◌, ◌≡◌, refl, ap, Bool, Option, none, some, List, [], ◌∷◌, arith,
  length, get_elem?, if◌then◌else◌, Option-cases, inl, inr,
}
use turboserve.Prelude.Dict.{get}
use turboserve.Prelude.Keys.{bytes_eq}
use turboserve.Engine.PrefixHash.{root_hash, num_full}
use turboserve.Engine.PrefixHash.Soundness.{prefix_hash}
use turboserve.Engine.PrefixCache.{
  Digest, PrefixCache, PrefixMatch, blocks_of, hashes_of, match_from, find_match, num_blocks,
}

length-blocks_of : (l : List (ℕ × Digest)) → length (blocks_of l) ≡ length l
length-blocks_of [] = refl
length-blocks_of (x ∷ l) = ap suc (length-blocks_of l)

module _ (blake2b : List ℕ → List ℕ) (tokens : List ℕ) (lora : ℕ) where
  abbrev pub hash_of : PrefixCache → ℕ → Digest
  hash_of c i = prefix_hash blake2b tokens c.block_size lora i

  -- The walk from block `k` on has found these blocks: their hashes are those of the prefixes, each
  -- hash finds its block in the index, and the walk ended at the cap or at a miss.
  abbrev Walked : PrefixCache → ℕ → ℕ → List (ℕ × Digest) → Type 0
  Walked c k zero l = l ≡ []
  Walked c k (suc n) [] = get c.by_hash (hash_of c (suc k)) ≡ none
  Walked c k (suc n) ((b, h) ∷ l) =
      (h ≡ hash_of c (suc k)) × (get c.by_hash (hash_of c (suc k)) ≡ some b) × Walked c (suc k) n l

  match_from-Walked :
      (c : PrefixCache) (k n : ℕ)
      → Walked c k n (match_from blake2b c tokens lora (hash_of c k) k n)
  unfolding match_from prefix_hash
  match_from-Walked c k zero = refl
  match_from-Walked c k (suc n) = elim (Option-cases (get c.by_hash (hash_of c (suc k)))) [
    | inl e ↦ rw (e, match_from) e
    | inr (b, e) ↦ rw (e, match_from) (refl, e, match_from-Walked c (suc k) n)
  ]

  -- A match by its positions.
  record IsLongest (c : PrefixCache) (k n : ℕ) (bs : List ℕ) (hs : List Digest) : Type 0 where
    within : length bs ≤ n
    sized : length hs ≡ length bs
    block_at :
        (i b : ℕ)
        → get_elem? bs i ≡ some b
        → (get c.by_hash (hash_of c (suc (k + i))) ≡ some b)
          × (get_elem? hs i ≡ some (hash_of c (suc (k + i))))
    stopped : length bs < n → get c.by_hash (hash_of c (suc (k + length bs))) ≡ none

  Walked-IsLongest :
      (c : PrefixCache) (k n : ℕ) (l : List (ℕ × Digest))
      → Walked c k n l
      → IsLongest c k n (blocks_of l) (hashes_of l)
  Walked-IsLongest c k zero [] w = record {
    within = omega arith;
    sized = refl;
    block_at = λ i b e. cc;
    stopped = λ h. absurd (omega arith);
  }
  Walked-IsLongest c k zero (x ∷ l) w = cc
  Walked-IsLongest c k (suc n) [] w = record {
    within = omega arith;
    sized = refl;
    block_at = λ i b e. cc;
    stopped = λ h. rw add-zero w;
  }
  Walked-IsLongest c k (suc n) ((b, h) ∷ l) w =
      let v = Walked-IsLongest c (suc k) n l w.2 in
      record {
        within = omega (arith, v.within);
        sized = ap suc v.sized;
        block_at = at v;
        stopped = λ p. rw (add-suc, ← suc-add) (v.stopped (omega arith));
      }
    where
      at :
          IsLongest c (suc k) n (blocks_of l) (hashes_of l)
          → (i a : ℕ) → get_elem? (b ∷ blocks_of l) i ≡ some a
          → (get c.by_hash (hash_of c (suc (k + i))) ≡ some a)
            × (get_elem? (h ∷ hashes_of l) i ≡ some (hash_of c (suc (k + i))))
      at v zero a e = rw add-zero (cc (w.1, e), ap some w.0)
      at v (suc i) a e = rw (add-suc, ← suc-add) (v.block_at i a e)

  -- The longest run: at most the capped number of full blocks, each the block that the index has for
  -- the hash of the prefix that ends there, with that hash; and the next prefix, where the cap leaves
  -- one, is not in the index.
  pub record IsLongestMatch (c : PrefixCache) (n : ℕ) (m : PrefixMatch) : Type 0 where
    pub within : num_blocks m ≤ n
    pub sized : length m.hashes ≡ num_blocks m
    pub block_at :
        (i b : ℕ)
        → get_elem? m.block_ids i ≡ some b
        → (get c.by_hash (hash_of c (suc i)) ≡ some b)
          × (get_elem? m.hashes i ≡ some (hash_of c (suc i)))
    pub stopped : num_blocks m < n → get c.by_hash (hash_of c (suc (num_blocks m))) ≡ none

  -- `match` returns the longest unbroken run of cached full blocks from the start of the tokens,
  -- within the cap, and counts its hits and misses only where it is asked to record; it changes
  -- nothing else of the cache.
  pub find_match-IsLongestMatch :
      (c : PrefixCache) (cap : Option ℕ) (recorded : Bool)
      → IsLongestMatch c
          (num_full tokens c.block_size cap)
          (find_match blake2b tokens lora cap recorded c).0
        × ((find_match blake2b tokens lora cap recorded c).1 ≡ (
            if recorded
            then record c {
              hits = c.hits + num_blocks (find_match blake2b tokens lora cap recorded c).0;
              misses =
                  c.misses
                  + (num_full tokens c.block_size cap
                      - num_blocks (find_match blake2b tokens lora cap recorded c).0);
            }
            else c))
  unfolding find_match prefix_hash
  find_match-IsLongestMatch c cap recorded = (
    longest,
    rw
        (length-blocks_of (
          match_from blake2b c tokens lora (root_hash blake2b) 0
            (num_full tokens c.block_size cap)))
        refl,
  )
    where
      n : ℕ
      n = num_full tokens c.block_size cap

      l : List (ℕ × Digest)
      l = match_from blake2b c tokens lora (root_hash blake2b) 0 n

      v : IsLongest c 0 n (blocks_of l) (hashes_of l)
      v = Walked-IsLongest c 0 n l (match_from-Walked c 0 n)

      longest : IsLongestMatch c n (find_match blake2b tokens lora cap recorded c).0
      longest = record {
        within = v.within;
        sized = v.sized;
        block_at = λ i b e. rw zero-add at (v.block_at i b e);
        stopped = λ p. rw zero-add at (v.stopped p);
      }
