-- ===== src/Engine/BlockManager/KeptHashes.antt =====
-- The hashes that BlockManager (turboserve/engine/core/block_manager.py) keeps of a sequence.
use turboserve.Prelude.{
  ◌⊎◌, ℕ, zero, suc, ◌+◌, ◌-◌, ◌*◌, ◌≤◌, ◌<◌, ◌≡◌, sym, ap, subst, ◌∙◌, some, List, [], ◌∷◌, ◌++◌,
  arith, length, length-append, get_elem?, get_or, get_elem?-lt, get_elem?-append_lt,
  get_elem?-append_ge, get_elem?-ge, ltb, ◌==◌, if◌then◌else◌, Bool-cases, inl, inr, ok, slice,
}
use turboserve.Prelude.Keys.{nat_eq, bytes_eq}
use turboserve.Engine.PrefixHash.{root_hash, block_hash}
use turboserve.Engine.PrefixHash.Soundness.{prefix_hash}
use turboserve.Engine.PrefixCache.{Digest}
use turboserve.Engine.Sequence
use turboserve.Engine.Sequence.{Sequence, token_ids}
use turboserve.Engine.BlockManager.{SeqBlocks}
use turboserve.Engine.BlockManager.Publication.{chained, extend_hashes}
use turboserve.Engine.BlockManager.Publishing.{full_block, suc_mul_le, shift_mul_le}

get_elem?-last :
    (xs : List Digest) (x h : Digest) (i : ℕ)
    → get_elem? (xs ++ x ∷ []) i ≡ some h
    → (get_elem? xs i ≡ some h) ⊎ ((i ≡ length xs) × (x ≡ h))
get_elem?-last xs x h i e = elim (Bool-cases (ltb i (length xs))) [
  | inl l ↦ inl (sym (get_elem?-append_lt xs (x ∷ []) i (ground (arith, l))) ∙ e)
  | inr l ↦
      let f = sym (get_elem?-append_ge xs (x ∷ []) i (ground (arith, l))) ∙ e in
      elim (Bool-cases (i == length xs)) [
        | inl q ↦
            let same : i - length xs ≡ 0 = ground (arith, q) in
            inr (ground (arith, q), cc (subst (λ k. get_elem? (x ∷ []) k ≡ some h) same f))
        | inr q ↦
            let beyond = get_elem?-ge (x ∷ []) (i - length xs) (ground (arith, l, q)) in
            absurd (cc (f, beyond))
      ]
]

get_or-some :
    (xs : List Digest) (i : ℕ) (d h : Digest) → get_elem? xs i ≡ some h → get_or xs i d ≡ h
get_or-some [] i d h e = cc e
get_or-some (x ∷ xs) zero d h e = cc e
get_or-some (x ∷ xs) (suc i) d h e = get_or-some xs i d h e

module _ (blake2b : List ℕ → List ℕ) (size : ℕ) (s : Sequence) where
  abbrev pub hash_at : ℕ → Digest
  hash_at i = prefix_hash blake2b (token_ids s) size s.lora_id i

  -- The kept hashes are those of the sequence's prefixes.
  abbrev pub IsChained : SeqBlocks → Type 0
  IsChained blocks = (i : ℕ) (h : Digest) → get_elem? blocks.hashes i ≡ some h → h ≡ hash_at (suc i)

  parent_is :
      (blocks : SeqBlocks)
      → IsChained blocks
      → (if length blocks.hashes == 0
          then root_hash blake2b
          else get_or blocks.hashes (length blocks.hashes - 1) (root_hash blake2b))
        ≡ hash_at (length blocks.hashes)
  unfolding prefix_hash
  parent_is blocks v = elim (Bool-cases (length blocks.hashes == 0)) [
    | inl e ↦ let z : length blocks.hashes ≡ 0 = ground (arith, e) in rw e (sym (ap hash_at z))
    | inr e ↦
        let (h, f) = get_elem?-lt blocks.hashes (length blocks.hashes - 1) (ground (arith, e)) in
        let n : suc (length blocks.hashes - 1) ≡ length blocks.hashes = ground (arith, e) in
        rw e (
          get_or-some blocks.hashes (length blocks.hashes - 1) (root_hash blake2b) h f
          ∙ v (length blocks.hashes - 1) h f
          ∙ ap hash_at n)
  ]

  chained-IsChained :
      (blocks : SeqBlocks)
      → IsChained blocks
      → IsChained
          (chained blake2b size s blocks
            (ok (slice (length blocks.hashes * size) size (token_ids s)))).1
  unfolding chained prefix_hash
  chained-IsChained blocks v i h e = elim (get_elem?-last blocks.hashes _ h i e) [
    | inl f ↦ v i h f
    | inr (q, f) ↦
        sym f
        ∙ ap
            (λ p.
              block_hash blake2b p (slice (length blocks.hashes * size) size (token_ids s))
                s.lora_id)
            (parent_is blocks v)
        ∙ ap (λ k. hash_at (suc k)) (sym q)
  ]

  pub extend_hashes-IsChained :
      (n : ℕ) (blocks : SeqBlocks)
      → (0 < n → (length blocks.hashes + n) * size ≤ Sequence.num_tokens s)
      → IsChained blocks
      → IsChained (extend_hashes blake2b n size s blocks).1
  unfolding extend_hashes chained
  extend_hashes-IsChained zero blocks h v = v
  extend_hashes-IsChained (suc n) blocks h v =
      let tokens : List ℕ = slice (length blocks.hashes * size) size (token_ids s) in
      let b : SeqBlocks = (chained blake2b size s blocks (ok tokens)).1 in
      let e : length b.hashes ≡ length blocks.hashes + 1 = length-append blocks.hashes _ in
      rw
        (full_block blake2b size s (length blocks.hashes)
          (suc_mul_le (length blocks.hashes) n size (Sequence.num_tokens s) (h (omega arith))))
        (extend_hashes-IsChained n b
          (λ l.
            subst (λ k. (k + n) * size ≤ Sequence.num_tokens s) (sym e)
              (shift_mul_le (length blocks.hashes) n size (Sequence.num_tokens s)
                (h (omega arith))))
          (chained-IsChained blocks v))
