-- ===== src/Engine/BlockManager/Publishing.antt =====
-- The hashes that `publish_computed_blocks` extends a sequence's chain by.
use turboserve.Prelude.{
  ℕ, zero, suc, ◌+◌, ◌*◌, ◌≤◌, ◌<◌, ◌≡◌, refl, sym, subst, ◌∙◌, List, arith, length, length-append,
  Result, ok, slice,
}
use turboserve.Prelude.Keys.{nat_eq}
use turboserve.Engine.Sequence
use turboserve.Engine.Sequence.{Sequence, block_tokens, token_ids}
use turboserve.Engine.Sequence.Tokens.{block_tokens-slice}
use turboserve.Engine.BlockManager.{SeqBlocks}
use turboserve.Engine.BlockManager.Publication.{chained, extend_hashes}

pub suc_mul_le : (a n size tokens : ℕ) → (a + suc n) * size ≤ tokens → a * size + size ≤ tokens
suc_mul_le a n size tokens h = grind arith

pub shift_mul_le : (a n size tokens : ℕ) → (a + suc n) * size ≤ tokens → (a + 1 + n) * size ≤ tokens
shift_mul_le a n size tokens h = grind arith

module _ (blake2b : List ℕ → List ℕ) (size : ℕ) (s : Sequence) where
  pub full_block :
      (i : ℕ)
      → i * size + size ≤ Sequence.num_tokens s
      → block_tokens s i size ≡ ok (slice (i * size) size (token_ids s))
  full_block i h = block_tokens-slice s i size ∙ ground arith

  -- The hashes of full blocks can be computed.
  pub record IsExtended (n : ℕ) (blocks : SeqBlocks) (r : Result (Unit {0}) × SeqBlocks)
      : Type 0 where
    pub returned : r.0 ≡ ok tt
    pub longer : length r.1.hashes ≡ length blocks.hashes + n
    pub same_progress : r.1.num_published ≡ blocks.num_published

  IsExtended-after :
      (n : ℕ) (blocks b : SeqBlocks) (r : Result (Unit {0}) × SeqBlocks)
      → length b.hashes ≡ length blocks.hashes + 1
      → b.num_published ≡ blocks.num_published
      → IsExtended n b r
      → IsExtended (suc n) blocks r
  IsExtended-after n blocks b r e f x = record {
    returned = x.returned;
    longer = omega (arith, x.longer, e);
    same_progress = x.same_progress ∙ f;
  }

  pub extend_hashes-IsExtended :
      (n : ℕ) (blocks : SeqBlocks)
      → (0 < n → (length blocks.hashes + n) * size ≤ Sequence.num_tokens s)
      → IsExtended n blocks (extend_hashes blake2b n size s blocks)
  unfolding extend_hashes chained
  extend_hashes-IsExtended zero blocks h = record {
    returned = refl;
    longer = omega arith;
    same_progress = refl;
  }
  extend_hashes-IsExtended (suc n) blocks h =
      let tokens : List ℕ = slice (length blocks.hashes * size) size (token_ids s) in
      let b : SeqBlocks = (chained blake2b size s blocks (ok tokens)).1 in
      let e : length b.hashes ≡ length blocks.hashes + 1 = length-append blocks.hashes _ in
      rw
        (full_block (length blocks.hashes)
          (suc_mul_le (length blocks.hashes) n size (Sequence.num_tokens s) (h (omega arith))))
        (IsExtended-after n blocks b (extend_hashes blake2b n size s b) e refl (
          extend_hashes-IsExtended n b (λ l.
            subst (λ k. (k + n) * size ≤ Sequence.num_tokens s) (sym e)
              (shift_mul_le (length blocks.hashes) n size (Sequence.num_tokens s)
                (h (omega arith))))))
