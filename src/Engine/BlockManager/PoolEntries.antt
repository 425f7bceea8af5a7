-- ===== src/Engine/BlockManager/PoolEntries.antt =====
-- The entries of the prefix cache inside the allocator: inserting one, and what the allocator's calls
-- do to them.
use turboserve.Prelude.{
  ℕ, ◌-◌, ◌<◌, ◌≡◌, ◌≢◌, refl, sym, ap, subst, ◌∙◌, Bool, true, false, Option, none, some, List, [],
  ◌∷◌, inl, inr, arith, length, count, count-cons, ◌==◌, if◌then◌else◌, Bool-cases, set, Result, ok,
  err, min, ◌⊎◌, Option-cases,
}
use turboserve.Prelude.Dict.{get, get-put}
use turboserve.Prelude.Keys.{nat_eq, bytes_eq}
use turboserve.Engine.BlockAllocator.{
  BlockAllocator, refs_at, num_free, decref, allocate, release_to, offered, release_retained,
  reclaim_from, reclaim, pop_free, take_free,
}
use turboserve.Engine.BlockAllocator.Custody.{custody, release_from-recycler}
use turboserve.Engine.PrefixCache.{PrefixCache, Digest, contains_block, insert}
use turboserve.Engine.PrefixCache.Index.{insert-IsIndex, entry}
use turboserve.Engine.PrefixCache.Recycling
use turboserve.Engine.PrefixCache.Recycling.{
  cache_recycler, cache_recycler-KeepsContract, cache_laws, held_by, on_zero_refs, evict-oldest,
}
use turboserve.Engine.BlockManager.Pool.{IsPool, IndexOf, caches}
use turboserve.Engine.BlockManager.PoolSteps.{
  IsKept, release-contains, reclaimed-contains, reclaim_from-IsKept,
}

insert-evictable : (b : ℕ) (h : Digest) (c : PrefixCache) → (insert b h c).1.evictable ≡ c.evictable
unfolding insert
insert-evictable b h c = ground arith

-- An insert adds at most the entry of its own block.
insert-contains :
    (b a : ℕ) (h : Digest) (c : PrefixCache)
    → contains_block (insert b h c).1 a ≡ true
    → (contains_block c a ≡ true) ⊎ (b ≡ a)
unfolding insert contains_block
insert-contains b a h c k = ground (arith, get-put c.by_block b a (entry b h))

-- A block that some sequence uses may be published.
pub insert-IsPool :
    (b : ℕ) (h : Digest) (c : PrefixCache) (p : BlockAllocator PrefixCache)
    → p.recycler ≡ some c
    → 0 < refs_at p b
    → IsPool p
    → IsPool (record p { recycler = some (insert b h c).1 })
insert-IsPool b h c p e used v = record {
  partition = record { sized = v.partition.sized; once = v.partition.once };
  in_custody = record {
    same = λ a.
        ap (count a) (insert-evictable b h c)
        ∙ subst (λ o. count a (custody held_by o) ≡ count a p.retained) e (v.in_custody.same a);
  };
  index = insert-IsIndex b h c (subst IndexOf e v.index);
  kept = λ a k. elim (insert-contains b a h c k) [
    | inl old ↦ v.kept a (ap (λ o. caches o a) e ∙ old)
    | inr same ↦
        subst (λ x. (x < p.num_blocks) × (count x p.free ≡ 0)) same
          (ground (arith, v.partition.once b))
  ];
}

-- Reclaiming only takes entries out of the cache.
reclaim_from-caches :
    (o : Option PrefixCache) (n c : ℕ) (p : BlockAllocator PrefixCache)
    → p.recycler ≡ o
    → caches (reclaim_from o n p).1.recycler c ≡ true
    → caches o c ≡ true
unfolding reclaim_from release_retained
reclaim_from-caches none n c p e h = ap (λ o. caches o c) (sym e) ∙ h
reclaim_from-caches (some r) n c p e h = elim (Bool-cases (length p.retained == 0)) [
  | inl z ↦ ap (λ o. caches o c) (sym e) ∙ (rw z at h)
  | inr z ↦
      (reclaimed-contains r m c (
        ap (λ o. caches o c) (sym (release_from-recycler (Recycling.reclaim r m).0 0 q))
        ∙ (rw z at h))).0
]
  where
    m : ℕ
    m = min n (length p.retained)

    q : BlockAllocator PrefixCache
    q = record p { recycler = some (Recycling.reclaim r m).1 }

pop_free-recycler :
    (l : List ℕ) (p : BlockAllocator PrefixCache) → (pop_free l p).1.recycler ≡ p.recycler
unfolding pop_free
pop_free-recycler [] p = refl
pop_free-recycler (b ∷ l) p = refl

take_free-recycler :
    (m : Result ℕ × BlockAllocator PrefixCache) → (take_free m).1.recycler ≡ m.1.recycler
unfolding take_free
take_free-recycler (ok n, p) = pop_free-recycler p.free p
take_free-recycler (err e, p) = refl

pub allocate-caches :
    (p : BlockAllocator PrefixCache) (c : ℕ)
    → caches (allocate p).1.recycler c ≡ true
    → caches p.recycler c ≡ true
unfolding allocate reclaim
allocate-caches p c h = ground (
  arith,
  ap (λ o. caches o c)
      (take_free-recycler (if num_free p == 0 then reclaim_from p.recycler 1 p else (ok 0, p))),
  reclaim_from-caches p.recycler 1 c p refl,
)

pop_free-member :
    (l : List ℕ) (p : BlockAllocator PrefixCache) {b : ℕ} → (pop_free l p).0 ≡ ok b → 0 < count b l
unfolding pop_free
pop_free-member [] p e = cc
pop_free-member (a ∷ l) p {b} e = ground (arith, count-cons b a l)

take_free-uncached :
    (m : Result ℕ × BlockAllocator PrefixCache) {b : ℕ}
    → IsKept m.1.recycler m.1
    → (take_free m).0 ≡ ok b
    → caches m.1.recycler b ≡ false
unfolding take_free
take_free-uncached (ok n, p) {b} v e = elim (Bool-cases (caches p.recycler b)) [
  | inl h ↦ absurd (omega (arith, pop_free-member p.free p e, v.kept b h))
  | inr h ↦ h
]
take_free-uncached (err x, p) v e = cc

-- A block that `allocate` returns is not in the cache.
pub allocate-uncached :
    (p : BlockAllocator PrefixCache) {b : ℕ}
    → IsPool p
    → (allocate p).0 ≡ ok b
    → caches (allocate p).1.recycler b ≡ false
unfolding allocate reclaim
allocate-uncached p {b} v e =
    ap (λ o. caches o b) (take_free-recycler m) ∙ take_free-uncached m kept e
  where
    m : Result ℕ × BlockAllocator PrefixCache
    m = if num_free p == 0 then reclaim_from p.recycler 1 p else (ok 0, p)

    now : IsKept p.recycler p
    now = record { index = v.index; kept = v.kept }

    kept : IsKept m.1.recycler m.1
    kept = ground (arith, now, reclaim_from-IsKept p.recycler 1 p refl)

-- Dropping a reference changes no entry of the cache.
release_to-caches :
    (o : Option PrefixCache) (b c : ℕ) (p : BlockAllocator PrefixCache)
    → p.recycler ≡ o
    → caches (release_to o b p).recycler c ≡ caches o c
unfolding release_to offered
release_to-caches none b c p e = ap (λ o. caches o c) e
release_to-caches (some r) b c p e = elim (Bool-cases (on_zero_refs r b).0) [
  | inl h ↦ rw (h, offered) (release-contains b c r)
  | inr h ↦ rw (h, offered) (release-contains b c r)
]

pub decref-caches :
    (b c : ℕ) (p : BlockAllocator PrefixCache)
    → caches (decref b p).1.recycler c ≡ caches p.recycler c
unfolding decref
decref-caches b c p =
    ground (arith, release_to-caches p.recycler b c (record p { refs = set p.refs b 0 }) refl)

-- The block that the cache has for a hash.
abbrev pub block_of : Option PrefixCache → Digest → Option ℕ
block_of none h = none
block_of (some c) h = get c.by_hash h

release_to-block_of :
    (o : Option PrefixCache) (b : ℕ) (h : Digest) (p : BlockAllocator PrefixCache)
    → p.recycler ≡ o
    → block_of (release_to o b p).recycler h ≡ block_of o h
unfolding release_to offered
release_to-block_of none b h p e = ap (λ o. block_of o h) e
release_to-block_of (some r) b h p e =
    let (f, g) = cache_recycler-KeepsContract.same_entries r b in
    elim (Bool-cases (on_zero_refs r b).0) [
      | inl k ↦ rw (k, offered) (ap (λ d. get d h) g)
      | inr k ↦ rw (k, offered) (ap (λ d. get d h) g)
    ]

pub decref-block_of :
    (b : ℕ) (h : Digest) (p : BlockAllocator PrefixCache)
    → block_of (decref b p).1.recycler h ≡ block_of p.recycler h
unfolding decref
decref-block_of b h p =
    ground (arith, release_to-block_of p.recycler b h (record p { refs = set p.refs b 0 }) refl)

-- A block with an owner can be dropped.
pub decref-ok :
    (b : ℕ) (p : BlockAllocator PrefixCache)
    → IsPool p
    → 0 < refs_at p b
    → (a : ℕ) × ((decref b p).0 ≡ ok a)
unfolding decref
decref-ok b p v h = (refs_at p b - 1, ground (arith, v.partition.once b))

-- Publishing a block that is not cached raises nothing.
pub insert-ok :
    (b : ℕ) (h : Digest) (c : PrefixCache)
    → contains_block c b ≡ false
    → (a : Bool) × ((insert b h c).0 ≡ ok a)
unfolding insert contains_block
insert-ok b h c e = elim (Option-cases (get c.by_hash h)) [
  | inl m ↦ (true, ground arith)
  | inr (x, m) ↦ (false, ground arith)
]

pub insert-caches :
    (b a : ℕ) (h : Digest) (c : PrefixCache)
    → b ≢ a
    → contains_block (insert b h c).1 a ≡ contains_block c a
unfolding insert contains_block
insert-caches b a h c n = ground (arith, get-put c.by_block b a (entry b h))
