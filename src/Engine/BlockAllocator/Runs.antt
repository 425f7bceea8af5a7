-- ===== src/Engine/BlockAllocator/Runs.antt =====
-- BlockAllocator over any sequence of its public calls.
use turboserve.Prelude.{
  ℕ, zero, suc, ◌-◌, List, [], ◌∷◌, arith, ltb, if◌then◌else◌, Result, ok, err, continue-keeps,
}
use turboserve.Engine.BlockAllocator.{
  BlockAllocator, Recycler, num_free, adopt, incref, release_retained, reset, decref, reclaim,
  allocate, allocate_each, take_many, allocate_many, incref_many, decref_many,
}
use turboserve.Engine.BlockAllocator.Partition.{
  IsPartition, adopt-IsPartition, incref-IsPartition, release_retained-IsPartition,
  reset-IsPartition, decref-IsPartition, reclaim-IsPartition, allocate-IsPartition,
}

module _ {R : Type 0} ⦃rc : Recycler R⦄ where
  incref_many-IsPartition :
      (bs : List ℕ) (p : BlockAllocator R) → IsPartition p → IsPartition (incref_many bs p).1
  unfolding incref_many
  incref_many-IsPartition [] p v = v
  incref_many-IsPartition (b ∷ bs) p v =
      continue-keeps IsPartition (incref b p) (λ c. incref_many bs) (incref-IsPartition b p v)
        (λ c q e w. incref_many-IsPartition bs q w)

  decref_many-IsPartition :
      (bs : List ℕ) (p : BlockAllocator R) → IsPartition p → IsPartition (decref_many bs p).1
  unfolding decref_many
  decref_many-IsPartition [] p v = v
  decref_many-IsPartition (b ∷ bs) p v =
      continue-keeps IsPartition (decref b p) (λ c. decref_many bs) (decref-IsPartition b p v)
        (λ c q e w. decref_many-IsPartition bs q w)

  allocate_each-IsPartition :
      (n : ℕ) (p : BlockAllocator R) → IsPartition p → IsPartition (allocate_each n p).1
  unfolding allocate_each
  allocate_each-IsPartition zero p v = v
  allocate_each-IsPartition (suc n) p v =
      continue-keeps IsPartition (allocate p) _ (allocate-IsPartition p v) (λ b q e w.
        continue-keeps IsPartition (allocate_each n q) _ (allocate_each-IsPartition n q w)
          (λ bs t d u. u))

  take_many-IsPartition :
      (n : ℕ) (m : Result ℕ × BlockAllocator R) → IsPartition m.1 → IsPartition (take_many n m).1
  unfolding take_many
  take_many-IsPartition n (ok k, p) v = ground (arith, allocate_each-IsPartition n p v)
  take_many-IsPartition n (err e, p) v = v

  allocate_many-IsPartition :
      (n : ℕ) (p : BlockAllocator R) → IsPartition p → IsPartition (allocate_many n p).1
  unfolding allocate_many
  allocate_many-IsPartition n p v =
      take_many-IsPartition n (if ltb (num_free p) n then reclaim (n - num_free p) p else (ok 0, p))
        (ground (arith, reclaim-IsPartition (n - num_free p) p v))

-- The public operations that change the pool.
pub data Op : Type 0 where
  allocates : Op
  allocates_many : ℕ → Op
  adopts increfs decrefs : ℕ → Op
  increfs_many decrefs_many releases : List ℕ → Op
  resets : Op

module _ {R : Type 0} ⦃rc : Recycler R⦄ where
  -- A call that raises leaves what it wrote before the raise.
  unfoldable pub step : Op → BlockAllocator R → BlockAllocator R
  step allocates p = (allocate p).1
  step (allocates_many n) p = (allocate_many n p).1
  step (adopts b) p = (adopt b p).1
  step (increfs b) p = (incref b p).1
  step (decrefs b) p = (decref b p).1
  step (increfs_many bs) p = (incref_many bs p).1
  step (decrefs_many bs) p = (decref_many bs p).1
  step (releases bs) p = (release_retained bs p).1
  step resets p = reset p

  unfoldable pub run : List Op → BlockAllocator R → BlockAllocator R
  unfolding step
  run [] p = p
  run (o ∷ os) p = run os (step o p)

  step-IsPartition : (o : Op) (p : BlockAllocator R) → IsPartition p → IsPartition (step o p)
  unfolding step
  step-IsPartition allocates p v = allocate-IsPartition p v
  step-IsPartition (allocates_many n) p v = allocate_many-IsPartition n p v
  step-IsPartition (adopts b) p v = adopt-IsPartition b p v
  step-IsPartition (increfs b) p v = incref-IsPartition b p v
  step-IsPartition (decrefs b) p v = decref-IsPartition b p v
  step-IsPartition (increfs_many bs) p v = incref_many-IsPartition bs p v
  step-IsPartition (decrefs_many bs) p v = decref_many-IsPartition bs p v
  step-IsPartition (releases bs) p v = release_retained-IsPartition bs p v
  step-IsPartition resets p v = reset-IsPartition p

  -- From a pool in which every block is in one state only (free, in use or retained), any sequence
  -- of public calls, those that raise included, leads to such a pool, whatever the recycler
  -- answers.
  pub run-IsPartition :
      (os : List Op) (p : BlockAllocator R) → IsPartition p → IsPartition (run os p)
  unfolding run
  run-IsPartition [] p v = v
  run-IsPartition (o ∷ os) p v = run-IsPartition os (step o p) (step-IsPartition o p v)
