-- ===== src/Engine/PrefixHash.antt =====
-- The hash chain of the prefix cache (turboserve/engine/core/prefix_cache.py): `block_hash` and
-- `block_hash_chain`. `hashlib.blake2b` is a parameter, a function from the bytes that were fed to
-- it to the digest. Token and adapter ids are natural numbers; the source encodes them as signed
-- 64-bit integers and raises OverflowError from 2 ^ 63 on, which no vocabulary reaches.
pub mod Encoding
pub mod Soundness
use Prim.Native.Char.{code}
use Prim.Native.String.{String}
use turboserve.Prelude.{
  ℕ, zero, suc, ◌+◌, ◌*◌, ◌/◌, ◌%◌, min, Option, none, some, List, [], ◌∷◌, ◌++◌, length, slice,
  Result, ok, err, value_error, ◌==◌, if◌then◌else◌,
}

-- The code points of a text, which are its bytes here.
abbrev codes : String → List ℕ
codes String.[] = []
codes (String.◌∷◌ c s) = code c ∷ codes s

abbrev pub hash_digest_size : ℕ
hash_digest_size = 16

abbrev pub root_seed : List ℕ
root_seed = codes "turboserve/prefix-cache/v1"

-- The `k` low bytes of `n`, the lowest first: `n.to_bytes(k, "little")` for `n` in range.
unfoldable pub le_bytes : ℕ → ℕ → List ℕ
le_bytes zero n = []
le_bytes (suc k) n = (n % 256) ∷ le_bytes k (n / 256)

unfoldable pub token_bytes : List ℕ → List ℕ
unfolding le_bytes
token_bytes [] = []
token_bytes (t ∷ ts) = le_bytes 8 t ++ token_bytes ts

-- What `block_hash` feeds to the digest, in order.
unfoldable pub message : List ℕ → List ℕ → ℕ → List ℕ
unfolding token_bytes
message parent tokens lora = parent ++ (le_bytes 8 lora ++ token_bytes tokens)

-- The full blocks, at most `max_blocks` of them where a cap is given.
unfoldable pub num_full : List ℕ → ℕ → Option ℕ → ℕ
num_full tokens size none = length tokens / size
num_full tokens size (some max_blocks) = min (length tokens / size) max_blocks

module _ (blake2b : List ℕ → List ℕ) where
  unfoldable pub root_hash : List ℕ
  root_hash = blake2b root_seed

  unfoldable pub block_hash : List ℕ → List ℕ → ℕ → List ℕ
  unfolding message
  block_hash parent tokens lora = blake2b (message parent tokens lora)

  -- The loop of `block_hash_chain`, from block `index` on, for `n` more blocks.
  unfoldable pub chain_from : List ℕ → ℕ → ℕ → List ℕ → ℕ → ℕ → List (List ℕ)
  unfolding block_hash
  chain_from tokens size lora parent index zero = []
  chain_from tokens size lora parent index (suc n) =
      let h = block_hash parent (slice (index * size) size tokens) lora in
      h ∷ chain_from tokens size lora h (suc index) n

  unfoldable pub block_hash_chain : List ℕ → ℕ → ℕ → Option ℕ → Result (List (List ℕ))
  unfolding chain_from root_hash num_full
  block_hash_chain tokens size lora max_blocks =
      if size == 0
      then err value_error
      else ok (chain_from tokens size lora root_hash 0 (num_full tokens size max_blocks))
