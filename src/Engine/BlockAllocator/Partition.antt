-- ===== src/Engine/BlockAllocator/Partition.antt =====
-- The three-state invariant of BlockAllocator (every block is free, in use or retained, and in one of
-- the three only) and its operations.
use turboserve.Prelude.{
  ℕ, ◌+◌, ◌-◌, ◌<◌, ◌≡◌, refl, Bool, true, false, Option, none, some, List, [], ◌∷◌, arith, ap, ltb,
  ◌==◌, Bool-cases, inl, inr, if◌then◌else◌, length, length-set, set, get_or-set, get_or-replicate,
  length-replicate, count, count-nil, count-cons, count-append, count-discard, count-add_to,
  count-range_from, Result, ok, err,
}
use turboserve.Engine.BlockAllocator.{
  BlockAllocator, Recycler, init, num_free, refs_at, adopt, incref, move_to_free, release_from,
  release_retained, reset, offered, release_to, decref, reclaim_from, reclaim, pop_free, take_free,
  allocate,
}

abbrev pub busy : ℕ → ℕ
busy c = if c == 0 then 0 else 1

module _ {R : Type 0} where
  pub record IsPartition (p : BlockAllocator R) : Type 0 where
    pub sized : length p.refs ≡ p.num_blocks
    pub once :
        (b : ℕ)
        → count b p.free + count b p.retained + busy (refs_at p b)
          ≡ (if ltb b p.num_blocks then 1 else 0)

  pub adopt-IsPartition : (b : ℕ) (p : BlockAllocator R) → IsPartition p → IsPartition (adopt b p).1
  unfolding adopt
  adopt-IsPartition b p v = record {
    sized = ground (arith, v.sized, length-set p.refs b 1);
    once = λ c. ground (
      arith,
      v.sized,
      v.once c,
      v.once b,
      count-discard c b p.retained,
      get_or-set p.refs b c 1 0,
    );
  }

  pub incref-IsPartition :
      (b : ℕ) (p : BlockAllocator R) → IsPartition p → IsPartition (incref b p).1
  unfolding incref
  incref-IsPartition b p v = record {
    sized = ground (arith, v.sized, length-set p.refs b (refs_at p b + 1));
    once = λ c. ground (arith, v.sized, v.once c, get_or-set p.refs b c (refs_at p b + 1) 0);
  }

  move_to_free-IsPartition :
      (b : ℕ) (p : BlockAllocator R) → IsPartition p → IsPartition (move_to_free b p)
  unfolding move_to_free
  move_to_free-IsPartition b p v = record {
    sized = ground (arith, v.sized);
    once = λ c. ground (
      arith,
      v.once c,
      v.once b,
      count-discard c b p.retained,
      count-append c p.free (b ∷ []),
      count-cons c b [],
      count-nil c,
    );
  }

  release_from-IsPartition :
      (bs : List ℕ) (n : ℕ) (p : BlockAllocator R)
      → IsPartition p
      → IsPartition (release_from bs n p).1
  unfolding release_from
  release_from-IsPartition [] n p v = v
  release_from-IsPartition (b ∷ bs) n p v = elim (Bool-cases (ltb b p.num_blocks)) [
    | inl inside ↦ rw inside (release_from-IsPartition bs _ _ (move_to_free-IsPartition b p v))
    | inr outside ↦ rw outside v
  ]

  pub release_retained-IsPartition :
      (bs : List ℕ) (p : BlockAllocator R) → IsPartition p → IsPartition (release_retained bs p).1
  unfolding release_retained
  release_retained-IsPartition bs p v = release_from-IsPartition bs 0 p v

  pub reset-IsPartition : (p : BlockAllocator R) → IsPartition (reset p)
  unfolding reset
  reset-IsPartition p = record {
    sized = length-replicate p.num_blocks 0;
    once = λ c. ground (
      arith,
      count-range_from c 0 p.num_blocks,
      count-nil c,
      get_or-replicate {A = ℕ} p.num_blocks c 0,
    );
  }

  -- A pool that the constructor accepts starts with every block free.
  pub init-IsPartition :
      (n size : ℕ) (r : Option R) {p : BlockAllocator R} → init n size r ≡ ok p → IsPartition p
  unfolding init
  init-IsPartition n size r {p} e = record {
    sized = ground (arith, length-replicate {A = ℕ} n 0);
    once = λ c. ground (arith, count-range_from c 0 n, count-nil c, get_or-replicate {A = ℕ} n c 0);
  }

module _ {R : Type 0} ⦃rc : Recycler R⦄ where
  -- A block in no state, as it is between its last `decref` and its release.
  record IsPartitionBut (b : ℕ) (p : BlockAllocator R) : Type 0 where
    sized : length p.refs ≡ p.num_blocks
    inside : b < p.num_blocks
    once :
        (c : ℕ)
        → count c p.free + count c p.retained + busy (refs_at p c) + (if b == c then 1 else 0)
          ≡ (if ltb c p.num_blocks then 1 else 0)

  offered-IsPartition :
      (b : ℕ) (answer : Bool × R) (p : BlockAllocator R)
      → IsPartitionBut b p
      → IsPartition (offered b answer p)
  unfolding offered
  offered-IsPartition b (true, r) p v = record {
    sized = v.sized;
    once = λ c. ground (arith, v.once c, v.once b, v.inside, count-add_to c b p.retained);
  }
  offered-IsPartition b (false, r) p v = record {
    sized = v.sized;
    once = λ c.
        ground (arith, v.once c, count-append c p.free (b ∷ []), count-cons c b [], count-nil c);
  }

  release_to-IsPartition :
      (r : Option R) (b : ℕ) (p : BlockAllocator R)
      → IsPartitionBut b p
      → IsPartition (release_to r b p)
  unfolding release_to
  release_to-IsPartition none b p v = record {
    sized = v.sized;
    once = λ c.
        ground (arith, v.once c, count-append c p.free (b ∷ []), count-cons c b [], count-nil c);
  }
  release_to-IsPartition (some r) b p v = offered-IsPartition b (rc.on_zero_refs r b) p v

  decref_last :
      (b : ℕ) (p : BlockAllocator R)
      → IsPartition p
      → b < p.num_blocks
      → refs_at p b ≡ 1
      → IsPartitionBut b (record p { refs = set p.refs b 0 })
  decref_last b p v h e = record {
    sized = ground (arith, v.sized, length-set p.refs b 0);
    inside = h;
    once = λ c. ground (arith, v.sized, v.once c, v.once b, get_or-set p.refs b c 0 0);
  }

  pub decref-IsPartition :
      (b : ℕ) (p : BlockAllocator R) → IsPartition p → IsPartition (decref b p).1
  unfolding decref
  decref-IsPartition b p v = ground (
    arith,
    release_to-IsPartition p.recycler b (record p { refs = set p.refs b 0 }),
    decref_last b p v,
    shared,
  )
    where
      shared :
          b < p.num_blocks
          → 1 < refs_at p b
          → IsPartition (record p { refs = set p.refs b (refs_at p b - 1) })
      shared h k = record {
        sized = ground (arith, v.sized, length-set p.refs b (refs_at p b - 1));
        once = λ c. ground (arith, v.sized, v.once c, get_or-set p.refs b c (refs_at p b - 1) 0);
      }

  reclaim_from-IsPartition :
      (r : Option R) (n : ℕ) (p : BlockAllocator R)
      → IsPartition p
      → IsPartition (reclaim_from r n p).1
  unfolding reclaim_from
  reclaim_from-IsPartition none n p v = v
  reclaim_from-IsPartition (some r) n p v = elim (Bool-cases (length p.retained == 0)) [
    | inl e ↦ rw e v
    | inr e ↦ rw e (release_retained-IsPartition _ _ (record { sized = v.sized; once = v.once }))
  ]

  pub reclaim-IsPartition :
      (n : ℕ) (p : BlockAllocator R) → IsPartition p → IsPartition (reclaim n p).1
  unfolding reclaim
  reclaim-IsPartition n p v = reclaim_from-IsPartition p.recycler n p v

  pop_free-IsPartition :
      (l : List ℕ) (p : BlockAllocator R)
      → p.free ≡ l
      → IsPartition p
      → IsPartition (pop_free l p).1
  unfolding pop_free
  pop_free-IsPartition [] p e v = v
  pop_free-IsPartition (b ∷ rest) p e v = record {
    sized = ground (arith, v.sized, length-set p.refs b 1);
    once = λ c. ground (
      arith,
      v.sized,
      v.once c,
      v.once b,
      ap (count c) e,
      ap (count b) e,
      count-cons c b rest,
      count-cons b b rest,
      get_or-set p.refs b c 1 0,
    );
  }

  take_free-IsPartition :
      (m : Result ℕ × BlockAllocator R) → IsPartition m.1 → IsPartition (take_free m).1
  unfolding take_free
  take_free-IsPartition (ok n, p) v = pop_free-IsPartition p.free p refl v
  take_free-IsPartition (err e, p) v = v

  pub allocate-IsPartition : (p : BlockAllocator R) → IsPartition p → IsPartition (allocate p).1
  unfolding allocate
  allocate-IsPartition p v =
      take_free-IsPartition (if num_free p == 0 then reclaim 1 p else (ok 0, p))
        (ground (arith, reclaim-IsPartition 1 p v))
