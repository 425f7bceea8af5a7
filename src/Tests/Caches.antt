-- ===== src/Tests/Caches.antt =====
-- A prefix cache of blocks of two tokens, with a digest that tells messages apart by their length.
use turboserve.Prelude.{
  ℕ, ◌%◌, ◌≡◌, refl, false, none, some, List, [], ◌∷◌, ◌⊎◌, length, replicate, length-replicate, ok,
  arith,
}
use turboserve.Prelude.Keys.{nat_eq, bytes_eq}
use turboserve.Engine.PrefixHash.{hash_digest_size, num_full, block_hash_chain}
use turboserve.Engine.PrefixHash.Encoding.{AllInt64}
use turboserve.Engine.PrefixHash.Soundness.{
  Collision, SamePrefix, prefix_hash, prefix_hash-SamePrefix, IsChain, block_hash_chain-IsChain,
}
use turboserve.Engine.PrefixCache.{PrefixCache, empty, find_match, insert, release}
use turboserve.Engine.PrefixCache.Index.{
  IsIndex, run, run-empty-IsIndex, inserts, releases, acquires, evicts,
}
use turboserve.Engine.PrefixCache.Matching.{IsLongestMatch, find_match-IsLongestMatch}

abbrev pub digest : List ℕ → List ℕ
digest m = replicate 16 (length m % 256)

digest-sized : (m : List ℕ) → length (digest m) ≡ hash_digest_size
digest-sized m = length-replicate 16 (length m % 256)

abbrev tokens : List ℕ
tokens = 5 ∷ 6 ∷ 7 ∷ 8 ∷ 9 ∷ []

-- Block 3 caches the first two tokens, and nobody refers to it.
abbrev filled : PrefixCache
filled = (release 3 (insert 3 (prefix_hash digest tokens 2 0 1) (empty 2)).1).1

prefix_hash-SamePrefix_example :
    SamePrefix digest digest-sized 2 tokens tokens 0 0 2 2 ⊎ Collision digest
prefix_hash-SamePrefix_example =
    prefix_hash-SamePrefix digest digest-sized 2 tokens tokens 0 0 1 1 small small (omega arith)
      (omega arith) (omega arith) (omega arith) refl
  where
    small : AllInt64 tokens
    small = (omega arith, (omega arith, (omega arith, (omega arith, (omega arith, tt)))))

block_hash_chain-IsChain_example :
    (hs : List (List ℕ)) × (block_hash_chain digest tokens 2 0 (some 1) ≡ ok hs)
    × IsChain digest tokens 2 0 (some 1) hs
block_hash_chain-IsChain_example = block_hash_chain-IsChain digest tokens 2 0 (some 1) (omega arith)

run-empty-IsIndex_example : IsIndex (
    run
      (inserts 3 (7 ∷ []) ∷ inserts 4 (7 ∷ []) ∷ releases 3 ∷ evicts 1 ∷ acquires 3 ∷ [])
      (empty 2))
run-empty-IsIndex_example =
    run-empty-IsIndex 2
      (inserts 3 (7 ∷ []) ∷ inserts 4 (7 ∷ []) ∷ releases 3 ∷ evicts 1 ∷ acquires 3 ∷ [])

find_match-IsLongestMatch_example :
    IsLongestMatch digest tokens 0 filled
      (num_full tokens filled.block_size none)
      (find_match digest tokens 0 none false filled).0
    × ((find_match digest tokens 0 none false filled).1 ≡ filled)
find_match-IsLongestMatch_example = find_match-IsLongestMatch digest tokens 0 filled none false
