-- ===== src/Engine/BlockManager/Admission.antt =====
-- `can_allocate` of BlockManager against what `allocate` leaves in the pool.
use turboserve.Prelude.{
  ℕ, ◌+◌, ◌-◌, ◌≤◌, ◌<◌, ◌≡◌, refl, sym, ap, subst, ◌∙◌, true, Option, none, some, List, [], ◌∷◌,
  ◌++◌, arith, length, count, mem, ltb, leb, if◌then◌else◌, Bool, lt→ltb, Bool-cases, inl, inr,
  Result, ok, err, Result-cases,
}
use turboserve.Engine.BlockAllocator.{BlockAllocator, num_allocatable, is_retained}
use turboserve.Engine.BlockAllocator.Partition.{IsPartition}
use turboserve.Engine.PrefixCache.{PrefixCache, PrefixMatch, num_tokens, find_match}
use turboserve.Engine.Sequence
use turboserve.Engine.Sequence.{Sequence, ceil_div, token_ids}
use turboserve.Engine.BlockManager.{
  BlockManager, Work, retained_hits, acquire_in, take_block, adopt_all, adopted, admit,
  allocate_with, allocate, can_allocate, can_allocate_with, fits, prefix_cache, max_hit_blocks,
}
use turboserve.Engine.BlockManager.Growth.{can_append}
use turboserve.Engine.BlockManager.Adoption.{SameSize, hits_cached, recorded, match_leaves_one}
use turboserve.Engine.BlockManager.Pool.{IndexOf, IsPool}
use turboserve.Engine.BlockManager.Pool.{
  take_block-ok, caches-take_block, take_block-Taken, acquire_in-recycler,
}
use turboserve.Engine.BlockManager.Ownership.{
  Frame, IsOwned, Adopted, adopt_all-Adopted, AllCached, AllCached-keep, take_block-IsOwned,
}

-- One block taken costs one allocatable block if it was retained, and nothing else.
record Costs (b : ℕ) (p q : BlockAllocator PrefixCache) : Type 0 where
  num_blocks : q.num_blocks ≡ p.num_blocks
  fewer : (c : ℕ) → count c q.retained ≤ count c p.retained
  cost : num_allocatable p ≤ num_allocatable q + (if mem b p.retained then 1 else 0)

take_block-Costs :
    (b a : ℕ) (p : BlockAllocator PrefixCache)
    → IsPartition p
    → (take_block b p).0 ≡ ok a
    → Costs b p (acquire_in b (take_block b p).1)
take_block-Costs b a p v e =
    let t = take_block-Taken b p e in
    rw (acquire_in-recycler b (take_block b p).1) (record {
      num_blocks = t.num_blocks;
      fewer = λ c. ground (arith, t.retained c);
      cost = ground (arith, t.shorter, v.once b, ap length t.free);
    })

retained_hits-split :
    (b : ℕ) (bs : List ℕ) (n : ℕ) (p : BlockAllocator PrefixCache)
    → retained_hits p (b ∷ bs) ≡ ok n
    → (ltb b p.num_blocks ≡ true)
      × ((m : ℕ) × (retained_hits p bs ≡ ok m) × (n ≡ (if mem b p.retained then 1 else 0) + m))
unfolding retained_hits is_retained
retained_hits-split b bs n p h = elim (Bool-cases (ltb b p.num_blocks)) [
  | inr e ↦ cc (h, e)
  | inl e ↦ elim (Result-cases (retained_hits p bs)) [
    | inr (x, g) ↦ cc (h, e, g)
    | inl (m, g) ↦ (e, (m, g, ground (arith, h, e, g)))
  ]
]

retained_hits-join :
    (b : ℕ) (bs : List ℕ) (m : ℕ) (p : BlockAllocator PrefixCache)
    → ltb b p.num_blocks ≡ true
    → retained_hits p bs ≡ ok m
    → retained_hits p (b ∷ bs) ≡ ok ((if mem b p.retained then 1 else 0) + m)
unfolding retained_hits is_retained
retained_hits-join b bs m p e g = ground (arith, e, g)

retained_hits-nil : (p : BlockAllocator PrefixCache) → retained_hits p [] ≡ ok 0
unfolding retained_hits
retained_hits-nil p = refl

-- Counting the retained blocks again later finds no more of them.
retained_hits-fewer :
    (bs : List ℕ) (n : ℕ) (p q : BlockAllocator PrefixCache)
    → q.num_blocks ≡ p.num_blocks
    → ((c : ℕ) → count c q.retained ≤ count c p.retained)
    → retained_hits p bs ≡ ok n
    → (k : ℕ) × (retained_hits q bs ≡ ok k) × (k ≤ n)
retained_hits-fewer [] n p q e f h = (0, retained_hits-nil q, omega arith)
retained_hits-fewer (b ∷ bs) n p q e f h =
    let (l, (m, g, s)) = retained_hits-split b bs n p h in
    let (k, i, j) = retained_hits-fewer bs m p q e f g in
    (
      (if mem b q.retained then 1 else 0) + k,
      retained_hits-join b bs k q (ap (ltb b) e ∙ l) i,
      ground (arith, f b, j, s),
    )

-- Adopting the cached blocks of a list costs no more allocatable blocks than are retained among them.
adopt_all-cost :
    (F : Frame) (bs table : List ℕ) (n : ℕ) (p : BlockAllocator PrefixCache)
    → AllCached F p bs
    → IsOwned F p table (length table)
    → retained_hits p bs ≡ ok n
    → num_allocatable p ≤ num_allocatable (adopt_all bs (p, table)).1.0 + n
unfolding adopt_all
adopt_all-cost F [] table n p h v r = omega arith
adopt_all-cost F (b ∷ bs) table n p h v r = elim (Result-cases (take_block b p).0) [
  | inr (x, e) ↦ cc (take_block-ok b p v.pool h.0, e)
  | inl (a, e) ↦
      rw (e, adopt_all)
        (let q = acquire_in b (take_block b p).1 in
          let t = take_block-Costs b a p v.pool.partition e in
          let (l, (m, g, s)) = retained_hits-split b bs n p r in
          let (k, i, j) = retained_hits-fewer bs m p q t.num_blocks t.fewer g in
          omega (
            arith,
            t.cost,
            s,
            j,
            adopt_all-cost F bs (table ++ b ∷ []) k q
                (AllCached-keep F p q bs (λ c. caches-take_block b c p e) h.1)
                (take_block-IsOwned F b a p table h.0 e v) i,
          ))
]

module _ (blake2b : List ℕ → List ℕ) (F : Frame) where
  -- A prompt that `can_allocate` lets in fits: what is left of it has blocks.
  abbrev pub Fits : Work → Result ℕ × Work → Type 0
  Fits w r =
      can_append r.1.manager r.1.seq (Sequence.num_tokens w.seq - r.1.seq.num_computed_tokens)
      ≡ true

  adopted-Fits :
      (w : Work) (found : PrefixMatch)
      (r : Result (Unit {0}) × (BlockAllocator PrefixCache × List ℕ))
      → Adopted F found.block_ids [] r
      → num_tokens found < Sequence.num_tokens w.seq
      → ceil_div (Sequence.num_tokens w.seq) w.manager.block_size
        ≤ num_allocatable r.1.0 + length found.block_ids
      → Fits w (adopted found w r)
  unfolding adopted admit can_append
  adopted-Fits w found (err x, (p, table)) v l h = cc v.returned
  adopted-Fits w found (ok u, (p, table)) v l h =
      let size : length table ≡ length found.block_ids = ap length v.extended in
      let whole : num_tokens found + (Sequence.num_tokens w.seq - num_tokens found)
          ≡ Sequence.num_tokens w.seq =
        omega (arith, l) in
      rw whole (ground (arith, size, h))

  let_in :
      (needed hits allocatable : ℕ) (r : Result ℕ)
      → fits needed hits allocatable r ≡ ok true
      → (n : ℕ) × (r ≡ ok n) × (needed + n ≤ allocatable + hits)
  unfolding fits
  let_in needed hits allocatable (ok n) h = (n, refl, ground arith)
  let_in needed hits allocatable (err x) h = cc

  allocate_with-Fits :
      (o : Option PrefixCache) (w : Work)
      → prefix_cache w.manager ≡ o
      → w.seq.block_table ≡ []
      → IsOwned F w.manager.allocator [] 0
      → ((c : PrefixCache)
          → o ≡ some c
          → num_tokens
              (find_match blake2b
                (token_ids w.seq)
                w.seq.lora_id
                (some (max_hit_blocks w.manager w.seq))
                true
                c).0
            < Sequence.num_tokens w.seq)
      → can_allocate_with blake2b o w.manager w.seq ≡ ok true
      → Fits w (allocate_with blake2b o w)
  unfolding allocate_with can_allocate_with admit can_append find_match
  allocate_with-Fits none w o e v l h = ground (arith, h, ap length e)
  allocate_with-Fits (some c) w o e v l h =
      let tokens : List ℕ = token_ids w.seq in
      let cap : Option ℕ = some (max_hit_blocks w.manager w.seq) in
      let found = find_match blake2b tokens w.seq.lora_id cap true c in
      let q : BlockAllocator PrefixCache = record w.manager.allocator { recycler = some found.1 } in
      let cached =
        hits_cached blake2b F tokens w.seq.lora_id cap c w.manager.allocator
          (subst IndexOf o v.pool.index) in
      let owned = recorded blake2b F tokens w.seq.lora_id cap c w.manager.allocator o v in
      let (n, g, b) =
        let_in (Sequence.num_blocks_needed w.seq w.manager.block_size) (length found.0.block_ids)
          (num_allocatable w.manager.allocator)
          (retained_hits w.manager.allocator found.0.block_ids) h in
      let (k, i, j) =
        retained_hits-fewer found.0.block_ids n w.manager.allocator q refl (λ a. omega arith) g in
      let cost = adopt_all-cost F found.0.block_ids [] k q cached owned i in
      subst (λ t. Fits w (adopted found.0 w (adopt_all found.0.block_ids (q, t)))) (sym e)
        (adopted-Fits w found.0 (adopt_all found.0.block_ids (q, []))
          (adopt_all-Adopted F found.0.block_ids [] q cached owned) (l c refl)
          (omega (arith, b, j, cost)))

  -- For a sequence with tokens and no block, in a manager whose cache has its block size, whatever the
  -- other sequences own: if `can_allocate` lets it in, then after `allocate` all of its tokens that
  -- are left to compute can be appended.
  pub can_allocate-can_append :
      (w : Work)
      → w.seq.block_table ≡ []
      → 0 < Sequence.num_tokens w.seq
      → SameSize w.manager.block_size (prefix_cache w.manager)
      → IsOwned F w.manager.allocator [] 0
      → can_allocate blake2b w.manager w.seq ≡ ok true
      → can_append
          (allocate blake2b w).1.manager
          (allocate blake2b w).1.seq
          (Sequence.num_tokens w.seq - (allocate blake2b w).1.seq.num_computed_tokens)
        ≡ true
  unfolding allocate can_allocate
  can_allocate-can_append w e t z v h = rw (ap length e) (
      allocate_with-Fits (prefix_cache w.manager) w refl e v
        (λ c o. match_leaves_one blake2b F c w t (subst (SameSize w.manager.block_size) o z)) h)

module _ (blake2b : List ℕ → List ℕ) (F : Frame) where
  -- Counting the retained blocks among cached ones raises nothing.
  retained_hits-ok :
      (bs : List ℕ) (p q : BlockAllocator PrefixCache)
      → q.num_blocks ≡ p.num_blocks
      → IsPool q
      → AllCached F q bs
      → (n : ℕ) × (retained_hits p bs ≡ ok n)
  retained_hits-ok [] p q e v c = (0, retained_hits-nil p)
  retained_hits-ok (b ∷ bs) p q e v (h, c) =
      let (n, g) = retained_hits-ok bs p q e v c in
      (
        (if mem b p.retained then 1 else 0) + n,
        retained_hits-join b bs n p (lt→ltb b p.num_blocks (omega (arith, (v.kept b h).0, e))) g,
      )

  can_allocate_with-ok :
      (o : Option PrefixCache) (m : BlockManager) (s : Sequence)
      → prefix_cache m ≡ o
      → IsOwned F m.allocator [] 0
      → (b : Bool) × (can_allocate_with blake2b o m s ≡ ok b)
  unfolding can_allocate_with fits find_match
  can_allocate_with-ok none m s e v = (_, refl)
  can_allocate_with-ok (some c) m s e v =
      let cap : Option ℕ = some (max_hit_blocks m s) in
      let found = find_match blake2b (token_ids s) s.lora_id cap true c in
      let (n, g) =
        retained_hits-ok found.0.block_ids m.allocator
          (record m.allocator { recycler = some found.1 }) refl
          (recorded blake2b F (token_ids s) s.lora_id cap c m.allocator e v).pool
          (hits_cached blake2b F (token_ids s) s.lora_id cap c m.allocator
            (subst IndexOf e v.pool.index)) in
      (
        leb (Sequence.num_blocks_needed s m.block_size + n)
            (num_allocatable m.allocator + length found.0.block_ids),
        rw g refl,
      )

  -- `can_allocate` raises nothing.
  pub can_allocate-ok :
      (m : BlockManager) (s : Sequence)
      → IsOwned F m.allocator [] 0
      → (b : Bool) × (can_allocate blake2b m s ≡ ok b)
  unfolding can_allocate
  can_allocate-ok m s v = can_allocate_with-ok (prefix_cache m) m s refl v
