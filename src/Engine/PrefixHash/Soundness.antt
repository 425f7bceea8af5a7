-- ===== src/Engine/PrefixHash/Soundness.antt =====
-- What a chained hash says of the adapter and the tokens, up to a collision of blake2b.
use native.Mathlib.Nat.{suc-mul, add-suc, add-zero, suc-add, zero-mul, zero-add}
use turboserve.Prelude.{
  true, subst, ◌/◌, ℕ, zero, suc, ◌+◌, ◌*◌, ◌≤◌, ◌<◌, ◌≡◌, ◌≢◌, refl, sym, ap, ◌∙◌, ◌⊎◌, inl, inr,
  Option, none, some, List, ◌++◌, arith, length, length-take, length-drop, take, drop, slice,
  take_add, get_elem?, ok, Bool-cases, if◌then◌else◌, ltb, ap₂,
}
use turboserve.Prelude.Keys.{bytes_beq, bytes_beq_iff}
use turboserve.Engine.PrefixHash.{
  hash_digest_size, root_seed, root_hash, message, block_hash, chain_from, num_full,
  block_hash_chain,
}
use turboserve.Engine.PrefixHash.Encoding.{
  IsInt64, AllInt64, AllInt64-take, AllInt64-drop, length-message, message-injective,
}

-- Two different inputs with one digest.
pub Collision : (List ℕ → List ℕ) → Type 0
Collision blake2b = (m : List ℕ) × (n : List ℕ) × (m ≢ n) × (blake2b m ≡ blake2b n)

module _ (blake2b : List ℕ → List ℕ) where
  -- The hash of the first `i` blocks, by recursion from the root.
  unfoldable pub prefix_hash : List ℕ → ℕ → ℕ → ℕ → List ℕ
  prefix_hash tokens size lora zero = root_hash blake2b
  prefix_hash tokens size lora (suc i) =
      block_hash blake2b (prefix_hash tokens size lora i) (slice (i * size) size tokens) lora

  chain_from-prefix_hash :
      (tokens : List ℕ) (size lora k n i : ℕ)
      → get_elem? (chain_from blake2b tokens size lora (prefix_hash tokens size lora k) k n) i
        ≡ (if ltb i n then some (prefix_hash tokens size lora (suc (k + i))) else none)
  unfolding chain_from prefix_hash
  chain_from-prefix_hash tokens size lora k zero i = ground arith
  chain_from-prefix_hash tokens size lora k (suc n) zero = rw add-zero (ground arith)
  chain_from-prefix_hash tokens size lora k (suc n) (suc i) =
      rw (chain_from-prefix_hash tokens size lora (suc k) n i, suc-add k i, add-suc k i)
        (ground arith)

  -- The digests agree, so the inputs do, or there is a collision.
  same_input : (m n : List ℕ) → blake2b m ≡ blake2b n → (m ≡ n) ⊎ Collision blake2b
  unfolding Collision
  same_input m n e = elim (Bool-cases (bytes_beq m n)) [
    | inl h ↦ inl ((bytes_beq_iff m n).0 h)
    | inr h ↦ inr (m, n, (λ p. cc (h, (bytes_beq_iff m n).1 p)), e)
  ]

module _ (blake2b : List ℕ → List ℕ)
    (sized : (m : List ℕ) → length (blake2b m) ≡ hash_digest_size) where
  length-prefix_hash :
      (tokens : List ℕ) (size lora i : ℕ) → length (prefix_hash blake2b tokens size lora i) ≡ 16
  unfolding prefix_hash block_hash root_hash
  length-prefix_hash tokens size lora zero = sized _
  length-prefix_hash tokens size lora (suc i) = sized _

  length-block :
      (tokens : List ℕ) (size i : ℕ)
      → suc i * size ≤ length tokens
      → length (slice (i * size) size tokens) ≡ size
  length-block tokens size i h = omega (
    arith,
    length-take size (drop (i * size) tokens),
    length-drop (i * size) tokens,
    suc-mul i size,
  )

  -- No block's message is as long as the root's seed.
  root-ne-message :
      (tokens : List ℕ) (size lora i : ℕ)
      → suc i * size ≤ length tokens
      → root_seed
        ≡ message (prefix_hash blake2b tokens size lora i) (slice (i * size) size tokens) lora
      → ⊥
  root-ne-message tokens size lora i h e = omega (
    arith,
    ap length e,
    length-message (prefix_hash blake2b tokens size lora i) (slice (i * size) size tokens) lora,
    length-prefix_hash tokens size lora i,
    length-block tokens size i h,
  )

  -- The same tokens and adapter, as far as the prefix goes.
  pub record SamePrefix (size : ℕ) (ts us : List ℕ) (l k i j : ℕ) : Type 0 where
    pub blocks : i ≡ j
    pub adapter : l ≡ k
    pub tokens : take (i * size) ts ≡ take (j * size) us

  step-SamePrefix :
      (size : ℕ) (ts us : List ℕ) (l k i j : ℕ)
      → take (i * size) ts ≡ take (j * size) us
      → i ≡ j
      → l ≡ k
      → slice (i * size) size ts ≡ slice (j * size) size us
      → SamePrefix size ts us l k (suc i) (suc j)
  step-SamePrefix size ts us l k i j p e a s = record {
    blocks = ap suc e;
    adapter = a;
    tokens =
        rw
          (suc-mul i size, suc-mul j size, take_add (i * size) size ts, take_add (j * size) size us)
          (ap₂ ◌++◌ p s);
  }

  -- What two equal hashes say of the last block.
  record SameLast (size : ℕ) (ts us : List ℕ) (l k i j : ℕ) : Type 0 where
    parents : prefix_hash blake2b ts size l i ≡ prefix_hash blake2b us size k j
    adapter : l ≡ k
    block : slice (i * size) size ts ≡ slice (j * size) size us

  last_block :
      (size : ℕ) (ts us : List ℕ) (l k i j : ℕ)
      → AllInt64 ts
      → AllInt64 us
      → IsInt64 l
      → IsInt64 k
      → prefix_hash blake2b ts size l (suc i) ≡ prefix_hash blake2b us size k (suc j)
      → SameLast size ts us l k i j ⊎ Collision blake2b
  unfolding prefix_hash block_hash
  last_block size ts us l k i j ht hu hl hk e = elim (same_input blake2b _ _ e) [
    | inr c ↦ inr c
    | inl m ↦
        let (p, a, s) =
          message-injective _ _ _ _ l k
            (length-prefix_hash ts size l i ∙ sym (length-prefix_hash us size k j)) m hl hk
            (AllInt64-take size _ (AllInt64-drop (i * size) ts ht))
            (AllInt64-take size _ (AllInt64-drop (j * size) us hu)) in
        inl (record { parents = p; adapter = a; block = s })
  ]

  root-ne-prefix_hash :
      (us : List ℕ) (size k j : ℕ)
      → suc j * size ≤ length us
      → root_hash blake2b ≡ prefix_hash blake2b us size k (suc j)
      → Collision blake2b
  unfolding prefix_hash block_hash root_hash
  root-ne-prefix_hash us size k j h e = elim (same_input blake2b _ _ e) [
    | inl m ↦ absurd (root-ne-message us size k j h m)
    | inr c ↦ c
  ]

  -- Up to a collision of blake2b, which is then exhibited, the hash of a nonempty run of full blocks
  -- determines the number of blocks, the adapter and every token of the prefix, provided that
  -- digests have 16 bytes and the ids are below 2 ^ 63.
  pub prefix_hash-SamePrefix :
      (size : ℕ) (ts us : List ℕ) (l k i j : ℕ)
      → AllInt64 ts
      → AllInt64 us
      → IsInt64 l
      → IsInt64 k
      → suc i * size ≤ length ts
      → suc j * size ≤ length us
      → prefix_hash blake2b ts size l (suc i) ≡ prefix_hash blake2b us size k (suc j)
      → SamePrefix size ts us l k (suc i) (suc j) ⊎ Collision blake2b
  unfolding prefix_hash
  prefix_hash-SamePrefix size ts us l k zero zero ht hu hl hk li lj e =
      elim (last_block size ts us l k zero zero ht hu hl hk e) [
        | inr c ↦ inr c
        | inl s ↦
            inl (step-SamePrefix size ts us l k zero zero (rw zero-mul refl) refl s.adapter s.block)
      ]
  prefix_hash-SamePrefix size ts us l k zero (suc j) ht hu hl hk li lj e =
      elim (last_block size ts us l k zero (suc j) ht hu hl hk e) [
        | inr c ↦ inr c
        | inl s ↦
            inr (root-ne-prefix_hash us size k j (omega (arith, suc-mul (suc j) size)) s.parents)
      ]
  prefix_hash-SamePrefix size ts us l k (suc i) zero ht hu hl hk li lj e =
      elim (last_block size ts us l k (suc i) zero ht hu hl hk e) [
        | inr c ↦ inr c
        | inl s ↦
            inr (
              root-ne-prefix_hash ts size l i (omega (arith, suc-mul (suc i) size)) (sym s.parents))
      ]
  prefix_hash-SamePrefix size ts us l k (suc i) (suc j) ht hu hl hk li lj e =
      elim (last_block size ts us l k (suc i) (suc j) ht hu hl hk e) [
        | inr c ↦ inr c
        | inl s ↦ longer s (
            prefix_hash-SamePrefix size ts us l k i j ht hu hl hk
              (omega (arith, suc-mul (suc i) size)) (omega (arith, suc-mul (suc j) size)) s.parents)
      ]
    where
      longer :
          SameLast size ts us l k (suc i) (suc j)
          → SamePrefix size ts us l k (suc i) (suc j) ⊎ Collision blake2b
          → SamePrefix size ts us l k (suc (suc i)) (suc (suc j)) ⊎ Collision blake2b
      longer s (inl r) =
          inl (step-SamePrefix size ts us l k (suc i) (suc j) r.tokens r.blocks s.adapter s.block)
      longer s (inr c) = inr c

-- The hashes of a run's full blocks: as many as there are, or as the cap allows.
pub record IsChain (blake2b : List ℕ → List ℕ) (tokens : List ℕ) (size lora : ℕ)
    (max_blocks : Option ℕ) (hs : List (List ℕ)) : Type 0 where
  pub full : length hs * size ≤ length tokens
  pub capped : (m : ℕ) → max_blocks ≡ some m → length hs ≤ m
  pub complete : (length tokens < suc (length hs) * size) ⊎ (max_blocks ≡ some (length hs))
  pub hash_at :
      (i : ℕ) → i < length hs → get_elem? hs i ≡ some (prefix_hash blake2b tokens size lora (suc i))

div_full : (n size : ℕ) → 0 < size → ((n / size) * size ≤ n) × (n < suc (n / size) * size)
div_full n size h = (grind arith, grind arith)

mul_le_full : (k n size : ℕ) → k ≤ n / size → 0 < size → k * size ≤ n
mul_le_full k n size h l = grind arith

capped_or_full :
    (n size : ℕ) (max_blocks : Option ℕ) (tokens : List ℕ)
    → 0 < size
    → num_full tokens size max_blocks ≡ n
    → (n * size ≤ length tokens)
      × ((m : ℕ) → max_blocks ≡ some m → n ≤ m)
      × ((length tokens < suc n * size) ⊎ (max_blocks ≡ some n))
unfolding num_full
capped_or_full n size none tokens h e =
    let (a, b) = div_full (length tokens) size h in
    (
      subst (λ k. k * size ≤ length tokens) e a,
      λ m p. cc p,
      inl (subst (λ k. length tokens < suc k * size) e b),
    )
capped_or_full n size (some m) tokens h e = (
  mul_le_full n (length tokens) size (omega (arith, e)) h,
  λ k p. let same : m ≡ k = cc p in omega (arith, e, same),
  elim (Bool-cases (ltb (length tokens / size) m)) [
    | inl l ↦
        let same : length tokens / size ≡ n = ground (arith, e, l) in
        inl (subst (λ k. length tokens < suc k * size) same (div_full (length tokens) size h).1)
    | inr l ↦ let same : m ≡ n = ground (arith, e, l) in inr (ap some same)
  ],
)

length-chain_from :
    (blake2b : List ℕ → List ℕ) (tokens : List ℕ) (size lora n : ℕ) (parent : List ℕ) (k : ℕ)
    → length (chain_from blake2b tokens size lora parent k n) ≡ n
unfolding chain_from
length-chain_from blake2b tokens size lora zero parent k = refl
length-chain_from blake2b tokens size lora (suc n) parent k = ap suc (
    length-chain_from blake2b tokens size lora n
      (block_hash blake2b parent (slice (k * size) size tokens) lora) (suc k))

-- `block_hash_chain` of a positive block size raises nothing. It lists the hashes of the prefixes as
-- they are defined by recursion from the root, each of a full block, at most `max_blocks` of them, and
-- stops only where the next block is not full or at the cap.
pub block_hash_chain-IsChain :
    (blake2b : List ℕ → List ℕ) (tokens : List ℕ) (size lora : ℕ) (max_blocks : Option ℕ)
    → 0 < size
    → (hs : List (List ℕ)) × (block_hash_chain blake2b tokens size lora max_blocks ≡ ok hs)
      × IsChain blake2b tokens size lora max_blocks hs
unfolding block_hash_chain prefix_hash
block_hash_chain-IsChain blake2b tokens size lora max_blocks h =
    let n = num_full tokens size max_blocks in
    let hs = chain_from blake2b tokens size lora (root_hash blake2b) 0 n in
    let sized : n ≡ length hs =
      sym (length-chain_from blake2b tokens size lora n (root_hash blake2b) 0) in
    let (a, b, c) = capped_or_full (length hs) size max_blocks tokens h sized in
    (
      hs,
      ground arith,
      record {
        full = a;
        capped = b;
        complete = c;
        hash_at = λ i l.
            chain_from-prefix_hash blake2b tokens size lora 0 n i
            ∙ (let t : ltb i n ≡ true = ground (arith, l, sized) in rw (t, zero-add) refl);
      },
    )
