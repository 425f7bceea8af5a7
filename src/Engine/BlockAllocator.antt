-- ===== src/Engine/BlockAllocator.antt =====
-- BlockAllocator (turboserve/engine/core/kv_cache.py): who owns which KV block. The recycler, a
-- Protocol in the source, is an interface here; its state lives in the allocator, which holds
-- the reference to it. Block ids and counts are Python ints that never go below zero.
pub mod Partition
pub mod Runs
pub mod Totals
pub mod Custody
pub mod CustodySteps
pub mod References
use turboserve.Prelude.{
  ℕ, zero, suc, ◌+◌, ◌-◌, min, ◌≡◌, Bool, true, false, ◌&&◌, not, Option, none, some, List, [], ◌∷◌,
  ◌++◌, ltb, ◌==◌, if◌then◌else◌, length, get_or, set, replicate, count, mem, discard, add_to,
  range_from, Result, ok, err, value_error, invalid_block, out_of_blocks, Exec, continue,
}

-- The hook by which a cache keeps freed blocks: `true` from `on_zero_refs` takes custody.
pub record Recycler (R : Type 0) : Type 0 where
  pub on_zero_refs : R → ℕ → Bool × R
  pub reclaim : R → ℕ → List ℕ × R

pub record BlockAllocator (R : Type 0) : Type 0 where
  pub num_blocks : ℕ
  pub block_size : ℕ
  pub refs : List ℕ
  pub free : List ℕ
  pub retained : List ℕ
  pub recycler : Option R

module _ {R : Type 0} where
  unfoldable pub init : ℕ → ℕ → Option R → Result (BlockAllocator R)
  init num_blocks block_size recycler =
      if block_size == 0
      then err value_error
      else ok (record {
        num_blocks = num_blocks;
        block_size = block_size;
        refs = replicate num_blocks 0;
        free = range_from 0 num_blocks;
        retained = [];
        recycler = recycler;
      })

  abbrev pub num_free : BlockAllocator R → ℕ
  num_free p = length p.free

  abbrev pub num_retained : BlockAllocator R → ℕ
  num_retained p = length p.retained

  abbrev pub num_allocatable : BlockAllocator R → ℕ
  num_allocatable p = length p.free + length p.retained

  abbrev pub num_in_use : BlockAllocator R → ℕ
  num_in_use p = p.num_blocks - length p.free - length p.retained

  -- The count of a block that passed the range check.
  abbrev pub refs_at : BlockAllocator R → ℕ → ℕ
  refs_at p b = get_or p.refs b 0

  unfoldable pub ref_count : BlockAllocator R → ℕ → Result ℕ
  ref_count p b = if ltb b p.num_blocks then ok (refs_at p b) else err invalid_block

  unfoldable pub is_free : BlockAllocator R → ℕ → Result Bool
  is_free p b =
      if ltb b p.num_blocks
      then ok ((refs_at p b == 0) && not (mem b p.retained))
      else err invalid_block

  unfoldable pub is_retained : BlockAllocator R → ℕ → Result Bool
  is_retained p b = if ltb b p.num_blocks then ok (mem b p.retained) else err invalid_block

  unfoldable pub adopt : ℕ → Exec (BlockAllocator R) ℕ
  adopt b p =
      if ltb b p.num_blocks
      then if mem b p.retained
        then (ok b, record p { refs = set p.refs b 1; retained = discard b p.retained })
        else (err invalid_block, p)
      else (err invalid_block, p)

  unfoldable pub incref : ℕ → Exec (BlockAllocator R) ℕ
  incref b p =
      if ltb b p.num_blocks
      then if refs_at p b == 0
        then (err invalid_block, p)
        else (ok (refs_at p b + 1), record p { refs = set p.refs b (refs_at p b + 1) })
      else (err invalid_block, p)

  -- The body of the loop of `release_retained` for a retained block.
  unfoldable pub move_to_free : ℕ → BlockAllocator R → BlockAllocator R
  move_to_free b p =
      if mem b p.retained
      then record p { free = p.free ++ b ∷ []; retained = discard b p.retained }
      else p

  unfoldable pub release_from : List ℕ → ℕ → Exec (BlockAllocator R) ℕ
  unfolding move_to_free
  release_from [] released p = (ok released, p)
  release_from (b ∷ bs) released p =
      let rest =
        release_from bs (if mem b p.retained then released + 1 else released) (move_to_free b p) in
      if ltb b p.num_blocks then rest else (err invalid_block, p)

  unfoldable pub release_retained : List ℕ → Exec (BlockAllocator R) ℕ
  unfolding release_from
  release_retained bs = release_from bs 0

  unfoldable pub reset : BlockAllocator R → BlockAllocator R
  reset p = record p {
    refs = replicate p.num_blocks 0;
    free = range_from 0 p.num_blocks;
    retained = [];
  }

module _ {R : Type 0} ⦃rc : Recycler R⦄ where
  -- `_release` with the recycler, and with what it answers.
  unfoldable pub offered : ℕ → Bool × R → BlockAllocator R → BlockAllocator R
  offered b (true, r) p = record p { retained = add_to b p.retained; recycler = some r }
  offered b (false, r) p = record p { free = p.free ++ b ∷ []; recycler = some r }

  unfoldable pub release_to : Option R → ℕ → BlockAllocator R → BlockAllocator R
  unfolding offered
  release_to none b p = record p { free = p.free ++ b ∷ [] }
  release_to (some r) b p = offered b (rc.on_zero_refs r b) p

  unfoldable pub decref : ℕ → Exec (BlockAllocator R) ℕ
  unfolding release_to
  decref b p =
      if ltb b p.num_blocks
      then if refs_at p b == 0
        then (err invalid_block, p)
        else if refs_at p b - 1 == 0
        then (ok 0, release_to p.recycler b (record p { refs = set p.refs b 0 }))
        else (ok (refs_at p b - 1), record p { refs = set p.refs b (refs_at p b - 1) })
      else (err invalid_block, p)

  -- `_reclaim`: the retained blocks that the recycler gives back go to the free list.
  unfoldable pub reclaim_from : Option R → ℕ → Exec (BlockAllocator R) ℕ
  unfolding release_retained
  reclaim_from none n p = (ok 0, p)
  reclaim_from (some r) n p =
      if length p.retained == 0
      then (ok 0, p)
      else let given = rc.reclaim r (min n (length p.retained)) in
        release_retained given.0 (record p { recycler = some given.1 })

  unfoldable pub reclaim : ℕ → Exec (BlockAllocator R) ℕ
  unfolding reclaim_from
  reclaim n p = reclaim_from p.recycler n p

  unfoldable pub pop_free : List ℕ → Exec (BlockAllocator R) ℕ
  pop_free [] p = (err out_of_blocks, p)
  pop_free (b ∷ rest) p = (ok b, record p { refs = set p.refs b 1; free = rest })

  -- An error of the reclaim passes through.
  unfoldable pub take_free : Result ℕ × BlockAllocator R → Result ℕ × BlockAllocator R
  unfolding pop_free
  take_free (err e, p) = (err e, p)
  take_free (ok released, p) = pop_free p.free p

  unfoldable pub allocate : Exec (BlockAllocator R) ℕ
  unfolding take_free reclaim
  allocate p = take_free (if num_free p == 0 then reclaim 1 p else (ok 0, p))

  unfoldable pub incref_many : List ℕ → Exec (BlockAllocator R) ℕ
  unfolding incref
  incref_many [] p = (ok 0, p)
  incref_many (b ∷ bs) p = continue (incref b p) (λ c. incref_many bs)

  unfoldable pub decref_many : List ℕ → Exec (BlockAllocator R) ℕ
  unfolding decref
  decref_many [] p = (ok 0, p)
  decref_many (b ∷ bs) p = continue (decref b p) (λ c. decref_many bs)

  -- `[self.allocate() for _ in range(count)]`
  unfoldable pub allocate_each : ℕ → Exec (BlockAllocator R) (List ℕ)
  unfolding allocate
  allocate_each zero p = (ok [], p)
  allocate_each (suc n) p =
      continue (allocate p) (λ b q. continue (allocate_each n q) (λ bs s. (ok (b ∷ bs), s)))

  unfoldable pub take_many : ℕ → Result ℕ × BlockAllocator R → Result (List ℕ) × BlockAllocator R
  unfolding allocate_each
  take_many n (err e, p) = (err e, p)
  take_many n (ok released, p) =
      if ltb (num_free p) n then (err out_of_blocks, p) else allocate_each n p

  unfoldable pub allocate_many : ℕ → Exec (BlockAllocator R) (List ℕ)
  unfolding take_many reclaim
  allocate_many n p =
      take_many n (if ltb (num_free p) n then reclaim (n - num_free p) p else (ok 0, p))
