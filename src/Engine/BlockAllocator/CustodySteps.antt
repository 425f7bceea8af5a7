-- ===== src/Engine/BlockAllocator/CustodySteps.antt =====
-- The calls of BlockAllocator, the retained set and the recycler's custody.
use turboserve.Prelude.{
  ℕ, ◌-◌, ◌≡◌, refl, Option, none, some, List, [], ◌∷◌, arith, ◌==◌, if◌then◌else◌, count,
  count-add_to, Result, ok, err, set,
}
use turboserve.Engine.BlockAllocator.{
  BlockAllocator, Recycler, num_free, refs_at, offered, release_to, decref, incref, reclaim_from,
  reclaim, pop_free, take_free, allocate,
}
use turboserve.Engine.BlockAllocator.Partition.{IsPartition}
use turboserve.Engine.BlockAllocator.Custody.{
  RecyclerLaws, custody, IsCustody, reclaim_from-IsCustody,
}

module _ {R : Type 0} ⦃rc : Recycler R⦄ (held : R → List ℕ) (laws : RecyclerLaws R held) where
  pop_free-IsCustody :
      (l : List ℕ) (p : BlockAllocator R) → IsCustody held p → IsCustody held (pop_free l p).1
  unfolding pop_free
  pop_free-IsCustody [] p w = w
  pop_free-IsCustody (b ∷ rest) p w = record { same = w.same }

  take_free-IsCustody :
      (m : Result ℕ × BlockAllocator R) → IsCustody held m.1 → IsCustody held (take_free m).1
  unfolding take_free
  take_free-IsCustody (ok k, p) w = pop_free-IsCustody p.free p w
  take_free-IsCustody (err e, p) w = w

  pub allocate-IsCustody :
      (p : BlockAllocator R) → IsPartition p → IsCustody held p → IsCustody held (allocate p).1
  unfolding allocate reclaim
  allocate-IsCustody p v w =
      take_free-IsCustody (if num_free p == 0 then reclaim_from p.recycler 1 p else (ok 0, p))
        (ground (arith, reclaim_from-IsCustody held laws p.recycler 1 p refl v w))

  pub incref-IsCustody :
      (b : ℕ) (p : BlockAllocator R) → IsCustody held p → IsCustody held (incref b p).1
  unfolding incref
  incref-IsCustody b p w = record { same = λ c. ground (arith, w.same c) }

  offered-IsCustody :
      (r : R) (b : ℕ) (p : BlockAllocator R)
      → ((c : ℕ) → count c (held r) ≡ count c p.retained)
      → count b p.retained ≡ 0
      → IsCustody held (offered b (rc.on_zero_refs r b) p)
  unfolding offered
  offered-IsCustody r b p w z = record {
    same =
        λ c. ground (arith, w c, w b, laws.count-on_zero_refs r b c, count-add_to c b p.retained);
  }

  release_to-IsCustody :
      (o : Option R) (b : ℕ) (p : BlockAllocator R)
      → ((c : ℕ) → count c (custody held o) ≡ count c p.retained)
      → p.recycler ≡ o
      → count b p.retained ≡ 0
      → IsCustody held (release_to o b p)
  unfolding release_to
  release_to-IsCustody none b p w e z = record { same = λ c. ground (arith, w c) }
  release_to-IsCustody (some r) b p w e z = offered-IsCustody r b p w z

  pub decref-IsCustody :
      (b : ℕ) (p : BlockAllocator R)
      → IsPartition p
      → IsCustody held p
      → IsCustody held (decref b p).1
  unfolding decref
  decref-IsCustody b p v w = ground (
    arith,
    v.once b,
    release_to-IsCustody p.recycler b (record p { refs = set p.refs b 0 }) w.same refl,
    shared,
  )
    where
      shared : IsCustody held (record p { refs = set p.refs b (refs_at p b - 1) })
      shared = record { same = w.same }
