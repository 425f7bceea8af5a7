-- ===== src/Engine/BlockAllocator/Totals.antt =====
-- What BlockAllocator counts, and the check that it offers for debugging.
use turboserve.Prelude.{
  ℕ, zero, suc, ◌+◌, ◌≤◌, ◌<◌, ◌≡◌, refl, subst, ◌↔◌, Bool, true, ◌||◌, ◌&&◌, not, List, [], ◌∷◌,
  arith, ltb, ◌==◌, if◌then◌else◌, length, get_or, get_or-ge, count, mem, sum_below, sum_below-cong,
  sum_below-add, sum_below-count, sum_below-const_one, ok, Bool-cases, inl, inr, ltb→lt,
  sum_below-single,
}
use turboserve.Engine.BlockAllocator.{
  BlockAllocator, num_in_use, refs_at, Recycler, allocate, num_allocatable,
}
use turboserve.Engine.BlockAllocator.Partition.{IsPartition, busy, allocate-IsPartition}
use turboserve.Engine.BlockAllocator.References.{TakenOnce, allocate-IsFreshIn, allocate-num_blocks}

module _ {R : Type 0} (p : BlockAllocator R) (v : IsPartition p) where
  outside : (b : ℕ) → p.num_blocks ≤ b → (count b p.free ≡ 0) × (count b p.retained ≡ 0)
  outside b h = ground (arith, v.once b)

  pub totals :
      length p.free + length p.retained + sum_below (λ b. busy (refs_at p b)) p.num_blocks
      ≡ p.num_blocks
  totals = omega (
    arith,
    sum_below-count p.num_blocks p.free (λ b h. (outside b h).0),
    sum_below-count p.num_blocks p.retained (λ b h. (outside b h).1),
    sum_below-add (λ b. count b p.free) (λ b. count b p.retained) p.num_blocks,
    sum_below-add (λ b. count b p.free + count b p.retained) (λ b. busy (refs_at p b)) p.num_blocks,
    sum_below-cong (λ b. count b p.free + count b p.retained + busy (refs_at p b)) (λ b. 1)
        p.num_blocks (λ b h. ground (arith, v.once b)),
    sum_below-const_one p.num_blocks,
  )

  -- In a pool in the three-state invariant, `num_in_use`, computed by subtraction, is the number of
  -- blocks with at least one reference, and
  -- with the free and the retained blocks it makes up the pool.
  pub num_in_use_lem :
      (num_in_use p ≡ sum_below (λ b. busy (refs_at p b)) p.num_blocks)
      × (length p.free + length p.retained + num_in_use p ≡ p.num_blocks)
  num_in_use_lem = (omega (arith, totals), omega (arith, totals))

-- `len(set(xs)) == len(xs)`
unfoldable pub is_distinct : List ℕ → Bool
is_distinct [] = true
is_distinct (x ∷ xs) = not (mem x xs) && is_distinct xs

-- `not (set(xs) & set(ys))`
unfoldable pub is_disjoint : List ℕ → List ℕ → Bool
is_disjoint [] ys = true
is_disjoint (x ∷ xs) ys = not (mem x ys) && is_disjoint xs ys

-- The loop over `enumerate(self._refs)`, from the index `b`. A count below zero cannot be written.
unfoldable pub check_refs : ℕ → List ℕ → List ℕ → List ℕ → Bool
check_refs b [] free retained = true
check_refs b (c ∷ cs) free retained =
    (if c == 0 then mem b free || mem b retained else not (mem b free || mem b retained))
    && check_refs (suc b) cs free retained

unfoldable pub check_invariants : {R : Type 0} → BlockAllocator R → Bool
unfolding is_distinct is_disjoint check_refs
check_invariants p =
    is_distinct p.free && (is_disjoint p.free p.retained && check_refs 0 p.refs p.free p.retained)

is_distinct-count : (xs : List ℕ) → ((b : ℕ) → count b xs ≤ 1) → is_distinct xs ≡ true
unfolding is_distinct count
is_distinct-count [] h = refl
is_distinct-count (x ∷ xs) h = ground (arith, h x, is_distinct-count xs (λ b. omega (arith, h b)))

count-is_distinct : (xs : List ℕ) → is_distinct xs ≡ true → (b : ℕ) → count b xs ≤ 1
unfolding is_distinct count
count-is_distinct [] h b = omega arith
count-is_distinct (x ∷ xs) h b = ground (arith, count-is_distinct xs (ground arith) b)

is_disjoint-count :
    (xs ys : List ℕ) → ((b : ℕ) → count b xs + count b ys ≤ 1) → is_disjoint xs ys ≡ true
unfolding is_disjoint count
is_disjoint-count [] ys h = refl
is_disjoint-count (x ∷ xs) ys h =
    ground (arith, h x, is_disjoint-count xs ys (λ b. omega (arith, h b)))

count-is_disjoint :
    (xs ys : List ℕ) → is_disjoint xs ys ≡ true → (b : ℕ) → 0 < count b xs → count b ys ≡ 0
unfolding is_disjoint count
count-is_disjoint [] ys h b k = absurd (omega arith)
count-is_disjoint (x ∷ xs) ys h b k = ground (arith, count-is_disjoint xs ys (ground arith) b)

-- A block has a reference exactly when it is on neither list.
abbrev Placed : List ℕ → List ℕ → ℕ → ℕ → Type 0
Placed free retained b c = busy c ≡ (if mem b free || mem b retained then 0 else 1)

Placed-cast :
    (free retained : List ℕ) (c j k : ℕ)
    → j ≡ k
    → Placed free retained j c
    → Placed free retained k c
Placed-cast free retained c j k e = subst (λ i. Placed free retained i c) e

check_refs-Placed :
    (b : ℕ) (cs free retained : List ℕ)
    → ((i : ℕ) → i < length cs → Placed free retained (b + i) (get_or cs i 0))
    → check_refs b cs free retained ≡ true
unfolding check_refs
check_refs-Placed b [] free retained h = refl
check_refs-Placed b (c ∷ cs) free retained h = ground (
  arith,
  Placed-cast free retained c (b + 0) b (omega arith) (h 0 (omega arith)),
  check_refs-Placed (suc b) cs free retained (λ i k.
      Placed-cast free retained (get_or cs i 0) (b + suc i) (suc b + i) (omega arith)
        (h (suc i) (omega arith))),
)

Placed-check_refs :
    (b : ℕ) (cs free retained : List ℕ)
    → check_refs b cs free retained ≡ true
    → (i : ℕ) → i < length cs
    → Placed free retained (b + i) (get_or cs i 0)
unfolding check_refs
Placed-check_refs b [] free retained h i k = absurd (omega arith)
Placed-check_refs b (c ∷ cs) free retained h zero k =
    Placed-cast free retained c b (b + 0) (omega arith) (ground arith)
Placed-check_refs b (c ∷ cs) free retained h (suc i) k =
    Placed-cast free retained (get_or cs i 0) (suc b + i) (b + suc i) (omega arith)
      (Placed-check_refs (suc b) cs free retained (ground arith) i (omega arith))

-- What the fields of a pool are by their Python types and by the range checks of its methods.
pub record IsWellTyped {R : Type 0} (p : BlockAllocator R) : Type 0 where
  pub sized : length p.refs ≡ p.num_blocks
  pub in_range : (b : ℕ) → p.num_blocks ≤ b → count b p.free + count b p.retained ≡ 0
  pub is_set : (b : ℕ) → count b p.retained ≤ 1

-- On a pool whose fields are of their Python types and whose listed blocks lie in the pool,
-- `check_invariants` passes exactly if every block is in one of the three states.
pub check_invariants-IsPartition :
    {R : Type 0} (p : BlockAllocator R)
    → IsWellTyped p
    → (check_invariants p ≡ true) ↔ IsPartition p
unfolding check_invariants
check_invariants-IsPartition p t = (λ c. record { sized = t.sized; once = once c }, passes)
  where
    passes : IsPartition p → check_invariants p ≡ true
    passes v = ground (
      arith,
      is_distinct-count p.free (λ b. ground (arith, v.once b)),
      is_disjoint-count p.free p.retained (λ b. ground (arith, v.once b)),
      check_refs-Placed 0 p.refs p.free p.retained (λ i k.
          Placed-cast p.free p.retained (refs_at p i) i (0 + i) (omega arith)
            (ground (arith, v.once i, v.sized))),
    )

    once :
        check_invariants p ≡ true
        → (b : ℕ)
        → count b p.free + count b p.retained + busy (refs_at p b)
          ≡ (if ltb b p.num_blocks then 1 else 0)
    once c b = elim (Bool-cases (ltb b p.num_blocks)) [
      | inl inside ↦ rw inside (
          ground (
            arith,
            t.is_set b,
            count-is_distinct p.free (ground arith) b,
            count-is_disjoint p.free p.retained (ground arith) b,
            Placed-cast p.free p.retained (refs_at p b) (0 + b) b (omega arith) (
                Placed-check_refs 0 p.refs p.free p.retained (ground arith) b
                  (omega (arith, ltb→lt _ _ inside, t.sized))),
          ))
      | inr outside ↦ ground (arith, t.in_range b, get_or-ge p.refs b 0, t.sized)
    ]

-- One more reference on a block that had none makes one more block busy.
busy-TakenOnce :
    {R : Type 0} (p q : BlockAllocator R) (b : ℕ)
    → b < p.num_blocks
    → refs_at p b ≡ 0
    → TakenOnce b p q
    → sum_below (λ c. busy (refs_at q c)) p.num_blocks
      ≡ sum_below (λ c. busy (refs_at p c)) p.num_blocks + 1
busy-TakenOnce p q b h z t = ground (
  arith,
  sum_below-cong (λ c. busy (refs_at q c)) (λ c. busy (refs_at p c) + (if b == c then 1 else 0))
      p.num_blocks (λ c k. ground (arith, t c)),
  sum_below-add (λ c. busy (refs_at p c)) (λ c. if b == c then 1 else 0) p.num_blocks,
  sum_below-single b p.num_blocks,
)

-- From a pool in the three-state invariant, a successful `allocate` takes the returned block out of
-- the blocks that can be allocated, one less than before, whichever of them were reclaimed, and
-- puts it among those in use.
pub allocate-num_allocatable :
    {R : Type 0} ⦃rc : Recycler R⦄ (p : BlockAllocator R) {b : ℕ}
    → IsPartition p
    → (allocate p).0 ≡ ok b
    → (num_allocatable (allocate p).1 + 1 ≡ num_allocatable p)
      × (num_in_use (allocate p).1 ≡ num_in_use p + 1)
allocate-num_allocatable p {b} v h =
    let f = allocate-IsFreshIn p v h in
    let w = allocate-IsPartition p v in
    let n = allocate-num_blocks p in
    let grown : sum_below (λ c. busy (refs_at (allocate p).1 c)) (allocate p).1.num_blocks
        ≡ sum_below (λ c. busy (refs_at p c)) p.num_blocks + 1 =
      rw n (busy-TakenOnce p (allocate p).1 b f.inside f.unused f.taken) in
    (
      omega (arith, n, totals p v, totals (allocate p).1 w, grown),
      omega (arith, n, totals p v, totals (allocate p).1 w, grown),
    )
