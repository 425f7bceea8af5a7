-- ===== src/Engine/BlockAllocator/Custody.antt =====
-- BlockAllocator with a recycler that keeps its contract: the contract, the recycler's custody against
-- `retained`, and when `allocate` succeeds.
use turboserve.Prelude.{
  ℕ, ◌+◌, min, ◌<◌, ◌≡◌, refl, ap, true, Option, none, some, List, [], ◌∷◌, inl, inr, arith, ltb,
  ◌==◌, Bool-cases, if◌then◌else◌, length, count, count-cons, count-nil, count-append,
  count-discard, mem, sum_below-cong, sum_below-count, Result, ok, err, is_ok, out_of_blocks, subst,
  length-append, ltb→lt,
}
use turboserve.Engine.BlockAllocator.{
  BlockAllocator, Recycler, num_free, num_allocatable, move_to_free, release_from, release_retained,
  reclaim_from, reclaim, pop_free, take_free, allocate,
}
use turboserve.Engine.BlockAllocator.Partition.{IsPartition}

module _ {R : Type 0} where
  pub release_from-recycler :
      (bs : List ℕ) (n : ℕ) (p : BlockAllocator R) → (release_from bs n p).1.recycler ≡ p.recycler
  unfolding release_from
  release_from-recycler [] n p = refl
  release_from-recycler (b ∷ bs) n p =
      ground
        (arith, release_from-recycler bs (if mem b p.retained then n + 1 else n) (move_to_free b p))

  -- A block that is not listed is as often on the free list as before.
  pub count-release_from_free :
      (bs : List ℕ) (n : ℕ) (p : BlockAllocator R) (c : ℕ)
      → count c bs ≡ 0
      → count c (release_from bs n p).1.free ≡ count c p.free
  unfolding release_from
  count-release_from_free [] n p c h = refl
  count-release_from_free (b ∷ bs) n p c h = ground (
    arith,
    count-cons c b bs,
    count-append c p.free (b ∷ []),
    count-cons c b [],
    count-nil c,
    count-release_from_free bs (if mem b p.retained then n + 1 else n) (move_to_free b p) c,
  )

-- The contract: what the recycler holds, and that it gives back blocks that it holds, as many as
-- asked for or all of them.
pub record RecyclerLaws (R : Type 0) ⦃rc : Recycler R⦄ (held : R → List ℕ) : Type 0 where
  pub count-on_zero_refs :
      (r : R) (b c : ℕ)
      → count b (held r) ≡ 0
      → count c (held (rc.on_zero_refs r b).1)
        ≡ (if (rc.on_zero_refs r b).0 then (if b == c then 1 else 0) else 0) + count c (held r)
  pub count-reclaim :
      (r : R) (n c : ℕ)
      → count c (rc.reclaim r n).0 + count c (held (rc.reclaim r n).1) ≡ count c (held r)
  pub length-reclaim : (r : R) (n : ℕ) → length (rc.reclaim r n).0 ≡ min n (length (held r))

abbrev pub custody : {R : Type 0} → (R → List ℕ) → Option R → List ℕ
custody held none = []
custody held (some r) = held r

-- The allocator's retained set and the recycler's custody are the same set.
pub record IsCustody {R : Type 0} (held : R → List ℕ) (p : BlockAllocator R) : Type 0 where
  pub same : (b : ℕ) → count b (custody held p.recycler) ≡ count b p.retained

module _ {R : Type 0} ⦃rc : Recycler R⦄ (held : R → List ℕ) (laws : RecyclerLaws R held) where
  length-same :
      (p : BlockAllocator R) (xs : List ℕ)
      → IsPartition p
      → ((b : ℕ) → count b xs ≡ count b p.retained)
      → length xs ≡ length p.retained
  length-same p xs v h = omega (
    arith,
    sum_below-count p.num_blocks xs (λ b k. ground (arith, v.once b, h b)),
    sum_below-count p.num_blocks p.retained (λ b k. ground (arith, v.once b)),
    sum_below-cong (λ b. count b xs) (λ b. count b p.retained) p.num_blocks (λ b k. h b),
  )

  -- A block that the recycler gives back when one is asked for.
  pub reclaim_one :
      (r : R) (p : BlockAllocator R)
      → IsPartition p
      → ((b : ℕ) → count b (held r) ≡ count b p.retained)
      → 0 < length p.retained
      → (b : ℕ) × ((rc.reclaim r 1).0 ≡ b ∷ []) × (0 < count b p.retained)
  reclaim_one r p v h k = one (rc.reclaim r 1).0 refl
    where
      size : length (rc.reclaim r 1).0 ≡ 1
      size = omega (arith, laws.length-reclaim r 1, length-same p (held r) v h)

      one :
          (l : List ℕ)
          → (rc.reclaim r 1).0 ≡ l
          → (b : ℕ) × ((rc.reclaim r 1).0 ≡ b ∷ []) × (0 < count b p.retained)
      one [] e = absurd (omega (arith, size, ap length e))
      one (b ∷ []) e =
          (b, e, ground (arith, laws.count-reclaim r 1 b, ap (count b) e, count-cons b b [], h b))
      one (b ∷ c ∷ l) e = absurd (omega (arith, size, ap length e))

  -- `release_retained` takes exactly the listed blocks out of the retained set.
  count-release_from :
      (bs : List ℕ) (n : ℕ) (p : BlockAllocator R) (c : ℕ)
      → ((b : ℕ) → 0 < count b bs → b < p.num_blocks)
      → count c (release_from bs n p).1.retained ≡ (if mem c bs then 0 else count c p.retained)
  unfolding release_from
  count-release_from [] n p c h = ground (arith, count-nil c)
  count-release_from (b ∷ bs) n p c h = ground (
    arith,
    h b (ground (arith, count-cons b b bs)),
    count-cons c b bs,
    count-discard c b p.retained,
    count-release_from bs (if mem b p.retained then n + 1 else n) (move_to_free b p) c
        (λ a k. ground (arith, h a, count-cons a b bs)),
  )

  -- Lists of blocks of the pool pass the range checks.
  release_from-ok :
      (bs : List ℕ) (n : ℕ) (p : BlockAllocator R)
      → ((b : ℕ) → 0 < count b bs → b < p.num_blocks)
      → is_ok (release_from bs n p).0 ≡ true
  unfolding release_from
  release_from-ok [] n p h = refl
  release_from-ok (b ∷ bs) n p h = ground (
    arith,
    h b (ground (arith, count-cons b b bs)),
    release_from-ok bs (if mem b p.retained then n + 1 else n) (move_to_free b p)
        (λ a k. ground (arith, h a, count-cons a b bs)),
  )

  pub reclaim_from-IsCustody :
      (o : Option R) (n : ℕ) (p : BlockAllocator R)
      → p.recycler ≡ o
      → IsPartition p
      → IsCustody held p
      → IsCustody held (reclaim_from o n p).1
  unfolding reclaim_from release_retained
  reclaim_from-IsCustody none n p e v w = w
  reclaim_from-IsCustody (some r) n p e v w = elim (Bool-cases (length p.retained == 0)) [
    | inl z ↦ rw z w
    | inr z ↦ rw z (record { same = same })
  ]
    where
      m : ℕ
      m = min n (length p.retained)

      q : BlockAllocator R
      q = record p { recycler = some (rc.reclaim r m).1 }

      holds : (b : ℕ) → count b (held r) ≡ count b p.retained
      holds b = subst (λ s. count b (custody held s) ≡ count b p.retained) e (w.same b)

      same :
          (b : ℕ)
          → count b (custody held (release_from (rc.reclaim r m).0 0 q).1.recycler)
            ≡ count b (release_from (rc.reclaim r m).0 0 q).1.retained
      same b = rw (release_from-recycler (rc.reclaim r m).0 0 q) (
          ground (
            arith,
            holds b,
            v.once b,
            laws.count-reclaim r m b,
            count-release_from (rc.reclaim r m).0 0 q b
                (λ a k. ground (arith, holds a, v.once a, laws.count-reclaim r m a)),
          ))

  -- A nonempty retained set gives back a block when the free list is empty.
  reclaim_from_one :
      (o : Option R) (p : BlockAllocator R)
      → p.recycler ≡ o
      → IsPartition p
      → IsCustody held p
      → 0 < length p.retained
      → (is_ok (reclaim_from o 1 p).0 ≡ true) × (0 < length (reclaim_from o 1 p).1.free)
  unfolding reclaim_from release_retained release_from move_to_free
  reclaim_from_one none p e v w h = absurd (
      omega (
        arith,
        length-same p [] v
            (λ b. subst (λ s. count b (custody held s) ≡ count b p.retained) e (w.same b)),
      ))
  reclaim_from_one (some r) p e v w h =
      let m1 : min 1 (length p.retained) ≡ 1 = omega arith in
      let (b, given, k) =
        reclaim_one r p v
          (λ b. subst (λ s. count b (custody held s) ≡ count b p.retained) e (w.same b)) h in
      rw (m1, given)
        (ground (arith, v.once b), ground (arith, v.once b, length-append p.free (b ∷ [])))

  pop_free-ok : (l : List ℕ) (p : BlockAllocator R) → is_ok (pop_free l p).0 ≡ ltb 0 (length l)
  unfolding pop_free
  pop_free-ok [] p = ground arith
  pop_free-ok (b ∷ rest) p = ground arith

  take_free-ok :
      (m : Result ℕ × BlockAllocator R)
      → is_ok m.0 ≡ true
      → 0 < length m.1.free
      → is_ok (take_free m).0 ≡ true
  unfolding take_free
  take_free-ok (ok k, p) h l = ground (arith, pop_free-ok p.free p)
  take_free-ok (err e, p) h l = cc

  allocate-ok :
      (p : BlockAllocator R)
      → IsPartition p
      → IsCustody held p
      → 0 < num_allocatable p
      → is_ok (allocate p).0 ≡ true
  unfolding allocate reclaim
  allocate-ok p v w h =
      take_free-ok (if num_free p == 0 then reclaim_from p.recycler 1 p else (ok 0, p))
        (ground (arith, reclaim_from_one p.recycler p refl v w))
        (ground (arith, reclaim_from_one p.recycler p refl v w))

  reclaim_from_none :
      (o : Option R) (p : BlockAllocator R) → length p.retained ≡ 0 → reclaim_from o 1 p ≡ (ok 0, p)
  unfolding reclaim_from
  reclaim_from_none none p h = refl
  reclaim_from_none (some r) p h = rw h refl

  pop_free_none :
      (l : List ℕ) (p : BlockAllocator R) → length l ≡ 0 → pop_free l p ≡ (err out_of_blocks, p)
  unfolding pop_free
  pop_free_none [] p h = refl
  pop_free_none (b ∷ l) p h = absurd (omega arith)

  pub allocate-err :
      (p : BlockAllocator R) → num_allocatable p ≡ 0 → allocate p ≡ (err out_of_blocks, p)
  unfolding allocate reclaim take_free
  allocate-err p h =
      let f : length p.free ≡ 0 = omega arith in
      rw (f, reclaim_from_none p.recycler p (omega arith)) (pop_free_none p.free p f)

  -- With a recycler that keeps its contract, from a pool in the three-state invariant whose retained
  -- set is the recycler's custody, `allocate` returns a block exactly when `num_allocatable` is not
  -- zero.
  pub allocate-ok_iff :
      (p : BlockAllocator R)
      → IsPartition p
      → IsCustody held p
      → is_ok (allocate p).0 ≡ ltb 0 (num_allocatable p)
  allocate-ok_iff p v w = elim (Bool-cases (ltb 0 (num_allocatable p))) [
    | inl e ↦ rw e (allocate-ok p v w (ltb→lt _ _ e))
    | inr e ↦ rw (e, allocate-err p (ground arith))
  ]
