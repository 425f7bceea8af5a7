-- ===== src/Engine/BlockAllocator/References.antt =====
-- What each operation of BlockAllocator does to the reference counts, and when it raises.
use turboserve.Prelude.{
  ℕ, ◌+◌, ◌-◌, ◌<◌, ◌≡◌, refl, ap, Option, none, some, List, [], ◌∷◌, arith, ◌==◌, if◌then◌else◌,
  length, get_or, set, get_or-set, count, count-cons, Result, ok, err, mem, min, sym, ◌∙◌, Error,
}
use turboserve.Engine.BlockAllocator.{
  BlockAllocator, Recycler, num_free, refs_at, adopt, incref, move_to_free, release_from,
  release_retained, release_to, decref, reclaim_from, reclaim, pop_free, take_free, allocate,
}
use turboserve.Engine.BlockAllocator.Partition.{IsPartition, reclaim-IsPartition}

-- `q` has one more reference than `p` on `b`, and as many on every other block.
abbrev pub TakenOnce : {R : Type 0} → ℕ → BlockAllocator R → BlockAllocator R → Type 0
TakenOnce b p q = (c : ℕ) → refs_at q c ≡ refs_at p c + (if b == c then 1 else 0)

module _ {R : Type 0} where
  pub adopt-TakenOnce :
      (b : ℕ) (p : BlockAllocator R) {a : ℕ}
      → IsPartition p
      → (adopt b p).0 ≡ ok a
      → TakenOnce b p (adopt b p).1
  unfolding adopt
  adopt-TakenOnce b p v e c = ground (arith, v.sized, v.once b, get_or-set p.refs b c 1 0)

  pub incref-TakenOnce :
      (b : ℕ) (p : BlockAllocator R) {a : ℕ}
      → IsPartition p
      → (incref b p).0 ≡ ok a
      → TakenOnce b p (incref b p).1
  unfolding incref
  incref-TakenOnce b p v e c = ground (arith, v.sized, get_or-set p.refs b c (refs_at p b + 1) 0)

  move_to_free-refs : (b : ℕ) (p : BlockAllocator R) → (move_to_free b p).refs ≡ p.refs
  unfolding move_to_free
  move_to_free-refs b p = ground arith

  release_from-refs :
      (bs : List ℕ) (n : ℕ) (p : BlockAllocator R) → (release_from bs n p).1.refs ≡ p.refs
  unfolding release_from
  release_from-refs [] n p = refl
  release_from-refs (b ∷ bs) n p = ground (
    arith,
    move_to_free-refs b p,
    release_from-refs bs (if mem b p.retained then n + 1 else n) (move_to_free b p),
  )

  pub release_retained-refs :
      (bs : List ℕ) (p : BlockAllocator R) → (release_retained bs p).1.refs ≡ p.refs
  unfolding release_retained
  release_retained-refs bs p = release_from-refs bs 0 p

module _ {R : Type 0} ⦃rc : Recycler R⦄ where
  release_to-refs : (r : Option R) (b : ℕ) (p : BlockAllocator R) → (release_to r b p).refs ≡ p.refs
  unfolding release_to
  release_to-refs none b p = refl
  release_to-refs (some r) b p = ground arith

  -- A `decref` that returns has dropped one reference of that block, and no other.
  pub decref-TakenOnce :
      (b : ℕ) (p : BlockAllocator R) {a : ℕ}
      → IsPartition p
      → (decref b p).0 ≡ ok a
      → TakenOnce b (decref b p).1 p
  unfolding decref
  decref-TakenOnce b p v e c = ground (
    arith,
    v.sized,
    get_or-set p.refs b c (refs_at p b - 1) 0,
    get_or-set p.refs b c 0 0,
    release_to-refs p.recycler b (record p { refs = set p.refs b 0 }),
  )

  reclaim_from-refs :
      (r : Option R) (n : ℕ) (p : BlockAllocator R) → (reclaim_from r n p).1.refs ≡ p.refs
  unfolding reclaim_from
  reclaim_from-refs none n p = refl
  reclaim_from-refs (some r) n p = ground (
    arith,
    release_retained-refs (rc.reclaim r (min n (length p.retained))).0
        (record p { recycler = some (rc.reclaim r (min n (length p.retained))).1 }),
  )

  pub reclaim-refs : (n : ℕ) (p : BlockAllocator R) → (reclaim n p).1.refs ≡ p.refs
  unfolding reclaim
  reclaim-refs n p = reclaim_from-refs p.recycler n p

  -- What the pool owes to a block that has just been taken.
  pub record IsFreshIn (p : BlockAllocator R) (b : ℕ) (q : BlockAllocator R) : Type 0 where
    pub inside : b < p.num_blocks
    pub unused : refs_at p b ≡ 0
    pub taken : TakenOnce b p q

  pop_free-IsFreshIn :
      (l : List ℕ) (p : BlockAllocator R) {b : ℕ}
      → p.free ≡ l
      → IsPartition p
      → (pop_free l p).0 ≡ ok b
      → IsFreshIn p b (pop_free l p).1
  unfolding pop_free
  pop_free-IsFreshIn [] p e v h = cc
  pop_free-IsFreshIn (a ∷ rest) p {b} e v h =
      let same : a ≡ b = cc in
      record {
        inside = ground (arith, v.once a, ap (count a) e, count-cons a a rest);
        unused = ground (arith, v.once a, ap (count a) e, count-cons a a rest);
        taken = λ c. ground (
          arith,
          v.sized,
          v.once a,
          ap (count a) e,
          count-cons a a rest,
          get_or-set p.refs a c 1 0,
        );
      }

  take_free-IsFreshIn :
      (p : BlockAllocator R) (m : Result ℕ × BlockAllocator R) {b : ℕ}
      → IsPartition m.1
      → m.1.refs ≡ p.refs
      → m.1.num_blocks ≡ p.num_blocks
      → (take_free m).0 ≡ ok b
      → IsFreshIn p b (take_free m).1
  unfolding take_free
  take_free-IsFreshIn p (err e, q) v r n h = cc
  take_free-IsFreshIn p (ok k, q) {b} v r n h =
      let f : IsFreshIn q b (pop_free q.free q).1 = pop_free-IsFreshIn q.free q refl v h in
      record {
        inside = omega (arith, f.inside);
        unused = ap (λ l. get_or l b 0) (sym r) ∙ f.unused;
        taken = λ c. ground (arith, f.taken c, ap (λ l. get_or l c 0) r);
      }

  pub release_from-num_blocks :
      (bs : List ℕ) (n : ℕ) (p : BlockAllocator R)
      → (release_from bs n p).1.num_blocks ≡ p.num_blocks
  unfolding release_from
  release_from-num_blocks [] n p = refl
  release_from-num_blocks (b ∷ bs) n p =
      ground (
        arith,
        release_from-num_blocks bs (if mem b p.retained then n + 1 else n) (move_to_free b p),
      )

  reclaim_from-num_blocks :
      (r : Option R) (n : ℕ) (p : BlockAllocator R)
      → (reclaim_from r n p).1.num_blocks ≡ p.num_blocks
  unfolding reclaim_from release_retained
  reclaim_from-num_blocks none n p = refl
  reclaim_from-num_blocks (some r) n p = ground (
    arith,
    release_from-num_blocks (rc.reclaim r (min n (length p.retained))).0 0
        (record p { recycler = some (rc.reclaim r (min n (length p.retained))).1 }),
  )

  pub reclaim-num_blocks :
      (n : ℕ) (p : BlockAllocator R) → (reclaim n p).1.num_blocks ≡ p.num_blocks
  unfolding reclaim
  reclaim-num_blocks n p = reclaim_from-num_blocks p.recycler n p

  -- From a pool in the three-state invariant, a block that `allocate` returns lies in the pool and
  -- had no owner, and the call adds the one reference to it and changes no other block's count.
  pub allocate-IsFreshIn :
      (p : BlockAllocator R) {b : ℕ}
      → IsPartition p
      → (allocate p).0 ≡ ok b
      → IsFreshIn p b (allocate p).1
  unfolding allocate
  allocate-IsFreshIn p v h =
      take_free-IsFreshIn p (if num_free p == 0 then reclaim 1 p else (ok 0, p))
        (ground (arith, reclaim-IsPartition 1 p v)) (ground (arith, reclaim-refs 1 p))
        (ground (arith, reclaim-num_blocks 1 p)) h

  pop_free-num_blocks :
      (l : List ℕ) (p : BlockAllocator R) → (pop_free l p).1.num_blocks ≡ p.num_blocks
  unfolding pop_free
  pop_free-num_blocks [] p = refl
  pop_free-num_blocks (b ∷ l) p = refl

  take_free-num_blocks :
      (m : Result ℕ × BlockAllocator R) → (take_free m).1.num_blocks ≡ m.1.num_blocks
  unfolding take_free
  take_free-num_blocks (ok k, p) = pop_free-num_blocks p.free p
  take_free-num_blocks (err e, p) = refl

  pub allocate-num_blocks : (p : BlockAllocator R) → (allocate p).1.num_blocks ≡ p.num_blocks
  unfolding allocate
  allocate-num_blocks p = ground (
    arith,
    take_free-num_blocks (if num_free p == 0 then reclaim 1 p else (ok 0, p)),
    reclaim-num_blocks 1 p,
  )

  take_free-err_refs :
      (m : Result ℕ × BlockAllocator R) {e : Error}
      → (take_free m).0 ≡ err e
      → (take_free m).1.refs ≡ m.1.refs
  unfolding take_free pop_free
  take_free-err_refs (err x, p) h = refl
  take_free-err_refs (ok n, p) h = ground arith

  -- A failed `allocate` has changed no count.
  pub allocate-err_refs :
      (p : BlockAllocator R) {e : Error} → (allocate p).0 ≡ err e → (allocate p).1.refs ≡ p.refs
  unfolding allocate
  allocate-err_refs p h =
      take_free-err_refs (if num_free p == 0 then reclaim 1 p else (ok 0, p)) h
      ∙ ground (arith, reclaim-refs 1 p)
