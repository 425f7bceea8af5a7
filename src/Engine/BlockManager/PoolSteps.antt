-- ===== src/Engine/BlockManager/PoolSteps.antt =====
-- The pool's invariant under `decref` and `allocate`.
use turboserve.Prelude.{
  ℕ, ◌<◌, ◌≡◌, refl, sym, ap, subst, ◌∙◌, Bool, true, false, Option, none, some, List, [], ◌∷◌, inl,
  inr, arith, length, count, count-nil, count-cons, count-append, ◌==◌, if◌then◌else◌, Bool-cases,
  set, Result, ok, err, min,
}
use turboserve.Prelude.Keys.{nat_eq, bytes_eq}
use turboserve.Engine.BlockAllocator.{
  BlockAllocator, num_free, decref, allocate, release_to, offered, release_from, release_retained,
  reclaim_from, reclaim, pop_free, take_free,
}
use turboserve.Engine.BlockAllocator.Partition.{decref-IsPartition, allocate-IsPartition}
use turboserve.Engine.BlockAllocator.Custody.{release_from-recycler, count-release_from_free}
use turboserve.Engine.BlockAllocator.CustodySteps.{decref-IsCustody, allocate-IsCustody}
use turboserve.Engine.PrefixCache.{PrefixCache, contains_block}
use turboserve.Engine.PrefixCache.Index.{IsIndex, release-IsIndex, evict-IsIndex}
use turboserve.Engine.PrefixCache.Recycling
use turboserve.Engine.PrefixCache.Recycling.{
  cache_recycler, cache_laws, held_by, on_zero_refs, evict-oldest,
}
use turboserve.Engine.BlockManager.Pool.{IsPool, IndexOf, caches}
use turboserve.Engine.BlockAllocator.References.{release_from-num_blocks}

-- The part of the invariant that is about the cache, for a pool and the recycler it holds.
pub record IsKept (o : Option PrefixCache) (p : BlockAllocator PrefixCache) : Type 0 where
  pub index : IndexOf o
  pub kept : (b : ℕ) → caches o b ≡ true → (b < p.num_blocks) × (count b p.free ≡ 0)

pub release-contains :
    (b c : ℕ) (r : PrefixCache) → contains_block (on_zero_refs r b).1 c ≡ contains_block r c
unfolding on_zero_refs contains_block
release-contains b c r = ground arith

on_zero_refs-IsIndex : (b : ℕ) (r : PrefixCache) → IsIndex r → IsIndex (on_zero_refs r b).1
unfolding on_zero_refs
on_zero_refs-IsIndex b r v = release-IsIndex b r v

on_zero_refs-contains : (b : ℕ) (r : PrefixCache) → (on_zero_refs r b).0 ≡ contains_block r b
unfolding on_zero_refs
on_zero_refs-contains b r = ground arith

offered-IsKept :
    (b : ℕ) (r r' : PrefixCache) (answer : Bool) (p : BlockAllocator PrefixCache)
    → answer ≡ contains_block r b
    → ((c : ℕ) → contains_block r' c ≡ contains_block r c)
    → IsIndex r'
    → IsKept (some r) p
    → IsKept (offered b (answer, r') p).recycler (offered b (answer, r') p)
unfolding offered
offered-IsKept b r r' true p e same i v = record {
  index = i;
  kept = λ c h. v.kept c (sym (same c) ∙ h);
}
offered-IsKept b r r' false p e same i v = record {
  index = i;
  kept = λ c h. ground (
    arith,
    e,
    same c,
    v.kept c (sym (same c) ∙ h),
    count-append c p.free (b ∷ []),
    count-cons c b [],
    count-nil c,
  );
}

release_to-IsKept :
    (o : Option PrefixCache) (b : ℕ) (p : BlockAllocator PrefixCache)
    → p.recycler ≡ o
    → IsKept o p
    → IsKept (release_to o b p).recycler (release_to o b p)
unfolding release_to
release_to-IsKept none b p e v = record { index = subst IndexOf (sym e) tt; kept = λ c h. cc }
release_to-IsKept (some r) b p e v =
    offered-IsKept b r (on_zero_refs r b).1 (on_zero_refs r b).0 p (on_zero_refs-contains b r)
      (λ c. release-contains b c r) (on_zero_refs-IsIndex b r v.index) v

decref-IsKept :
    (b : ℕ) (p : BlockAllocator PrefixCache)
    → IsPool p
    → IsKept (decref b p).1.recycler (decref b p).1
unfolding decref
decref-IsKept b p v =
    ground (arith, release_to-IsKept p.recycler b (record p { refs = set p.refs b 0 }) refl, now)
  where
    now : IsKept p.recycler p
    now = record { index = v.index; kept = v.kept }

pub decref-IsPool : (b : ℕ) (p : BlockAllocator PrefixCache) → IsPool p → IsPool (decref b p).1
decref-IsPool b p v =
    let k = decref-IsKept b p v in
    record {
      partition = decref-IsPartition b p v.partition;
      in_custody = decref-IsCustody held_by cache_laws b p v.partition v.in_custody;
      index = k.index;
      kept = k.kept;
    }

pub reclaimed-contains :
    (r : PrefixCache) (n c : ℕ)
    → contains_block (Recycling.reclaim r n).1 c ≡ true
    → (contains_block r c ≡ true) × (count c (Recycling.reclaim r n).0 ≡ 0)
unfolding contains_block Recycling.reclaim
reclaimed-contains r n c h =
    let (given, left, entries) = evict-oldest n r in ground (arith, entries c, ap (count c) given)

reclaimed-IsIndex : (r : PrefixCache) (n : ℕ) → IsIndex r → IsIndex (Recycling.reclaim r n).1
unfolding Recycling.reclaim
reclaimed-IsIndex r n v = evict-IsIndex n r v

release_from-IsKept :
    (bs : List ℕ) (n : ℕ) (r : PrefixCache) (p : BlockAllocator PrefixCache)
    → p.recycler ≡ some r
    → IsIndex r
    → ((c : ℕ)
        → contains_block r c ≡ true
        → (c < p.num_blocks) × (count c p.free ≡ 0) × (count c bs ≡ 0))
    → IsKept (release_from bs n p).1.recycler (release_from bs n p).1
release_from-IsKept bs n r p e i h = rw (release_from-recycler bs n p ∙ e) (record {
  index = i;
  kept = λ c k.
      let (inside, off, unlisted) = h c k in
      (
        omega (arith, inside, release_from-num_blocks bs n p),
        count-release_from_free bs n p c unlisted ∙ off,
      );
})

pub reclaim_from-IsKept :
    (o : Option PrefixCache) (n : ℕ) (p : BlockAllocator PrefixCache)
    → p.recycler ≡ o
    → IsKept o p
    → IsKept (reclaim_from o n p).1.recycler (reclaim_from o n p).1
unfolding reclaim_from release_retained
reclaim_from-IsKept none n p e v = subst (λ o. IsKept o p) (sym e) v
reclaim_from-IsKept (some r) n p e v = elim (Bool-cases (length p.retained == 0)) [
  | inl z ↦ rw z (subst (λ o. IsKept o p) (sym e) v)
  | inr z ↦ rw z (
      release_from-IsKept (Recycling.reclaim r m).0 0 (Recycling.reclaim r m).1 q refl
        (reclaimed-IsIndex r m v.index)
        (λ c h.
          let (old, unlisted) = reclaimed-contains r m c h in
          let (inside, off) = v.kept c old in (inside, off, unlisted)))
]
  where
    m : ℕ
    m = min n (length p.retained)

    q : BlockAllocator PrefixCache
    q = record p { recycler = some (Recycling.reclaim r m).1 }

pop_free-IsKept :
    (l : List ℕ) (p : BlockAllocator PrefixCache)
    → p.free ≡ l
    → IsKept p.recycler p
    → IsKept (pop_free l p).1.recycler (pop_free l p).1
unfolding pop_free
pop_free-IsKept [] p e v = v
pop_free-IsKept (b ∷ rest) p e v = record {
  index = v.index;
  kept = λ c h. ground (arith, v.kept c h, ap (count c) e, count-cons c b rest);
}

take_free-IsKept :
    (m : Result ℕ × BlockAllocator PrefixCache)
    → IsKept m.1.recycler m.1
    → IsKept (take_free m).1.recycler (take_free m).1
unfolding take_free
take_free-IsKept (ok n, p) v = pop_free-IsKept p.free p refl v
take_free-IsKept (err e, p) v = v

allocate-IsKept :
    (p : BlockAllocator PrefixCache) → IsPool p → IsKept (allocate p).1.recycler (allocate p).1
unfolding allocate reclaim
allocate-IsKept p v =
    take_free-IsKept (if num_free p == 0 then reclaim_from p.recycler 1 p else (ok 0, p))
      (ground (arith, now, reclaim_from-IsKept p.recycler 1 p refl))
  where
    now : IsKept p.recycler p
    now = record { index = v.index; kept = v.kept }

pub allocate-IsPool : (p : BlockAllocator PrefixCache) → IsPool p → IsPool (allocate p).1
allocate-IsPool p v =
    let k = allocate-IsKept p v in
    record {
      partition = allocate-IsPartition p v.partition;
      in_custody = allocate-IsCustody held_by cache_laws p v.partition v.in_custody;
      index = k.index;
      kept = k.kept;
    }
