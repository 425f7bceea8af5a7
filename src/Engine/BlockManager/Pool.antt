-- ===== src/Engine/BlockManager/Pool.antt =====
-- The allocator with the prefix cache inside: the invariant that BlockManager.check_invariants
-- checks across the two, and what each step of the manager does to it.
use turboserve.Prelude.{
  ℕ, ◌+◌, ◌<◌, ◌≡◌, refl, sym, ap, subst, ◌∙◌, Bool, true, false, Option, none, some, inl, inr,
  arith, count, count-nil, count-discard, length-discard, length, mem, ltb, ◌==◌, if◌then◌else◌,
  Bool-cases, Result, ok, err, is_ok, invalid_block,
}
use turboserve.Prelude.Keys.{nat_eq, bytes_eq}
use turboserve.Engine.BlockAllocator.{BlockAllocator, adopt, incref}
use turboserve.Engine.BlockAllocator.Partition.{IsPartition, adopt-IsPartition, incref-IsPartition}
use turboserve.Engine.BlockAllocator.Custody.{IsCustody, custody}
use turboserve.Engine.BlockAllocator.References.{TakenOnce, adopt-TakenOnce, incref-TakenOnce}
use turboserve.Engine.PrefixCache.{PrefixCache, contains_block, acquire}
use turboserve.Engine.PrefixCache.Index.{IsIndex, acquire-IsIndex}
use turboserve.Engine.PrefixCache.Recycling.{cache_recycler, held_by}
use turboserve.Engine.BlockManager.{acquire_in, take_block}

abbrev pub IndexOf : Option PrefixCache → Type 0
IndexOf none = Unit
IndexOf (some c) = IsIndex c

abbrev pub caches : Option PrefixCache → ℕ → Bool
caches none b = false
caches (some c) b = contains_block c b

pub record IsPool (p : BlockAllocator PrefixCache) : Type 0 where
  pub partition : IsPartition p
  pub in_custody : IsCustody held_by p
  pub index : IndexOf p.recycler
  -- A cached block is one of the pool's, and is not on the free list.
  pub kept : (b : ℕ) → caches p.recycler b ≡ true → (b < p.num_blocks) × (count b p.free ≡ 0)

module _ (b : ℕ) (p : BlockAllocator PrefixCache) where
  take_block_out : ltb b p.num_blocks ≡ false → take_block b p ≡ (err invalid_block, p)
  unfolding take_block
  take_block_out e = ground arith

  take_block_retained :
      ltb b p.num_blocks ≡ true → mem b p.retained ≡ true → take_block b p ≡ adopt b p
  unfolding take_block
  take_block_retained e m = ground arith

  take_block_shared :
      ltb b p.num_blocks ≡ true → mem b p.retained ≡ false → take_block b p ≡ incref b p
  unfolding take_block
  take_block_shared e m = ground arith

-- The three ways to go of `take_block`.
take_block_cases {ℓ} :
    (P : Result ℕ × BlockAllocator PrefixCache → Type ℓ) (b : ℕ) (p : BlockAllocator PrefixCache)
    → (ltb b p.num_blocks ≡ false → P (err invalid_block, p))
    → (mem b p.retained ≡ true → P (adopt b p))
    → (mem b p.retained ≡ false → P (incref b p))
    → P (take_block b p)
take_block_cases P b p out taken shared = elim (Bool-cases (ltb b p.num_blocks)) [
  | inr e ↦ subst P (sym (take_block_out b p e)) (out e)
  | inl e ↦ elim (Bool-cases (mem b p.retained)) [
    | inl m ↦ subst P (sym (take_block_retained b p e m)) (taken m)
    | inr m ↦ subst P (sym (take_block_shared b p e m)) (shared m)
  ]
]

pub take_block-TakenOnce :
    (b : ℕ) (p : BlockAllocator PrefixCache) {a : ℕ}
    → IsPartition p
    → (take_block b p).0 ≡ ok a
    → TakenOnce b p (take_block b p).1
take_block-TakenOnce b p {a} v =
    take_block_cases (λ r. r.0 ≡ ok a → TakenOnce b p r.1) b p (λ o e. cc)
      (λ m. adopt-TakenOnce b p v) (λ m. incref-TakenOnce b p v)

-- With its `acquire`, a block taken keeps the pool in order.
take_block-IsPartition :
    (b : ℕ) (p : BlockAllocator PrefixCache) → IsPartition p → IsPartition (take_block b p).1
take_block-IsPartition b p v =
    take_block_cases (λ r. IsPartition r.1) b p (λ o. v) (λ m. adopt-IsPartition b p v)
      (λ m. incref-IsPartition b p v)

-- What `take_block` leaves alone, and what it does to the retained blocks.
pub record Taken (b : ℕ) (p q : BlockAllocator PrefixCache) : Type 0 where
  pub recycler : q.recycler ≡ p.recycler
  pub free : q.free ≡ p.free
  pub num_blocks : q.num_blocks ≡ p.num_blocks
  pub retained : (c : ℕ) → count c q.retained ≡ (if b == c then 0 else count c p.retained)
  pub shorter : length q.retained + count b p.retained ≡ length p.retained

adopt-Taken :
    (b : ℕ) (p : BlockAllocator PrefixCache) {a : ℕ}
    → (adopt b p).0 ≡ ok a
    → Taken b p (adopt b p).1
unfolding adopt
adopt-Taken b p e = record {
  recycler = ground arith;
  free = ground arith;
  num_blocks = ground arith;
  retained = λ c. ground (arith, count-discard c b p.retained);
  shorter = ground (arith, length-discard b p.retained);
}

incref-Taken :
    (b : ℕ) (p : BlockAllocator PrefixCache) {a : ℕ}
    → mem b p.retained ≡ false
    → (incref b p).0 ≡ ok a
    → Taken b p (incref b p).1
unfolding incref
incref-Taken b p m e = record {
  recycler = ground arith;
  free = ground arith;
  num_blocks = ground arith;
  retained = λ c. ground arith;
  shorter = ground arith;
}

pub take_block-Taken :
    (b : ℕ) (p : BlockAllocator PrefixCache) {a : ℕ}
    → (take_block b p).0 ≡ ok a
    → Taken b p (take_block b p).1
take_block-Taken b p {a} =
    take_block_cases (λ r. r.0 ≡ ok a → Taken b p r.1) b p (λ o e. cc) (λ m. adopt-Taken b p)
      (λ m. incref-Taken b p m)

-- `take_block` raises nothing on a cached block.
pub take_block-ok :
    (b : ℕ) (p : BlockAllocator PrefixCache)
    → IsPool p
    → caches p.recycler b ≡ true
    → is_ok (take_block b p).0 ≡ true
unfolding take_block
take_block-ok b p v h = ground (arith, v.kept b, v.partition.once b)

abbrev pub acquired : ℕ → Option PrefixCache → Option PrefixCache
acquired b none = none
acquired b (some c) = some (acquire b c)

pub acquire_in-recycler :
    (b : ℕ) (p : BlockAllocator PrefixCache)
    → acquire_in b p ≡ record p { recycler = acquired b p.recycler }
unfolding acquire_in
acquire_in-recycler b p = ground arith

count-acquired :
    (o : Option PrefixCache) (b c : ℕ)
    → count c (custody held_by (acquired b o)) ≡ (if b == c then 0 else count c (custody held_by o))
unfolding acquire
count-acquired none b c = ground (arith, count-nil c)
count-acquired (some r) b c = count-discard c b r.evictable

acquired-IndexOf : (o : Option PrefixCache) (b : ℕ) → IndexOf o → IndexOf (acquired b o)
acquired-IndexOf none b v = tt
acquired-IndexOf (some c) b v = acquire-IsIndex b c v

caches-acquired : (o : Option PrefixCache) (b c : ℕ) → caches (acquired b o) c ≡ caches o c
unfolding acquire contains_block
caches-acquired none b c = refl
caches-acquired (some r) b c = refl

-- A cached block that a sequence takes, with the `acquire` that goes with it, keeps the pool's
-- invariant.
pub take_block-IsPool :
    (b : ℕ) (p : BlockAllocator PrefixCache) {a : ℕ}
    → IsPool p
    → (take_block b p).0 ≡ ok a
    → IsPool (acquire_in b (take_block b p).1)
take_block-IsPool b p v e = rw (acquire_in-recycler b (take_block b p).1) (record {
  partition = record { sized = q.sized; once = q.once };
  in_custody = record {
    same = λ c.
        ap (λ o. count c (custody held_by (acquired b o))) t.recycler
        ∙ count-acquired p.recycler b c
        ∙ ground (arith, t.retained c, v.in_custody.same c);
  };
  index =
      subst (λ o. IndexOf (acquired b o)) (sym t.recycler) (acquired-IndexOf p.recycler b v.index);
  kept = λ c h.
      let k = v.kept c (
        sym (caches-acquired p.recycler b c)
        ∙ ap (λ o. caches (acquired b o) c) (sym t.recycler)
        ∙ h) in
      (omega (arith, k, t.num_blocks), ap (count c) t.free ∙ k.1);
})
  where
    q : IsPartition (take_block b p).1
    q = take_block-IsPartition b p v.partition

    t : Taken b p (take_block b p).1
    t = take_block-Taken b p e

-- Taking a block changes no entry of the cache.
pub caches-take_block :
    (b c : ℕ) (p : BlockAllocator PrefixCache) {a : ℕ}
    → (take_block b p).0 ≡ ok a
    → caches (acquire_in b (take_block b p).1).recycler c ≡ caches p.recycler c
caches-take_block b c p e = rw (acquire_in-recycler b (take_block b p).1) (
    ap (λ o. caches (acquired b o) c) (Taken.recycler (take_block-Taken b p e))
    ∙ caches-acquired p.recycler b c)

pub acquire_in-TakenOnce :
    (b : ℕ) (p : BlockAllocator PrefixCache) {a : ℕ}
    → IsPartition p
    → (take_block b p).0 ≡ ok a
    → TakenOnce b p (acquire_in b (take_block b p).1)
acquire_in-TakenOnce b p v e =
    rw (acquire_in-recycler b (take_block b p).1) (take_block-TakenOnce b p v e)
