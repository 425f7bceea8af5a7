-- ===== src/Engine/BlockManager/CacheSizes.antt =====
-- The block size of the prefix cache, through every method of BlockAllocator and PrefixCache
-- (turboserve/engine/core/kv_cache.py, prefix_cache.py).
use turboserve.Prelude.{
  ℕ, zero, suc, ◌+◌, ◌≡◌, refl, sym, ap, ◌∙◌, Bool, true, false, Option, none, some, List, [], ◌∷◌,
  ◌++◌, arith, length, mem, set, ◌==◌, min, if◌then◌else◌, Result, ok, err, continue-keeps,
  Result-cases, inl, inr,
}
use turboserve.Prelude.Dict.{get}
use turboserve.Prelude.Keys.{nat_eq}
use turboserve.Engine.BlockAllocator
use turboserve.Engine.BlockAllocator.{BlockAllocator}
use turboserve.Engine.PrefixCache
use turboserve.Engine.PrefixCache.{
  PrefixCache, PrefixMatch, find_match, num_blocks, num_tokens, is_some,
}
use turboserve.Engine.PrefixCache.Recycling.{cache_recycler, on_zero_refs, reclaim}
use turboserve.Engine.BlockManager.{acquire_in, take_block, adopt_all}
use turboserve.Engine.BlockManager.Growth.{grow}

abbrev pub cache_size : Option PrefixCache → Option ℕ
cache_size none = none
cache_size (some c) = some c.block_size

forget-size :
    (o : Option PrefixCache.Entry) (b : ℕ) (c : PrefixCache)
    → (PrefixCache.forget o b c).block_size ≡ c.block_size
unfolding PrefixCache.forget
forget-size none b c = refl
forget-size (some e) b c = refl

evict_from-size :
    (n : ℕ) (l : List ℕ) (c : PrefixCache)
    → (PrefixCache.evict_from n l c).1.block_size ≡ c.block_size
unfolding PrefixCache.evict_from
evict_from-size zero l c = refl
evict_from-size (suc n) [] c = refl
evict_from-size (suc n) (b ∷ l) c =
    evict_from-size n l (PrefixCache.forget (get c.by_block b) b c)
    ∙ forget-size (get c.by_block b) b c

evict-size : (n : ℕ) (c : PrefixCache) → (PrefixCache.evict n c).1.block_size ≡ c.block_size
unfolding PrefixCache.evict
evict-size n c = evict_from-size n c.evictable c

release-size : (b : ℕ) (c : PrefixCache) → (PrefixCache.release b c).1.block_size ≡ c.block_size
unfolding PrefixCache.release
release-size b c = ground arith

pub insert-size :
    (b : ℕ) (h : List ℕ) (c : PrefixCache) → (PrefixCache.insert b h c).1.block_size ≡ c.block_size
unfolding PrefixCache.insert PrefixCache.insert_at PrefixCache.insert_new
insert-size b h c = ground arith

-- The recycler under the allocator's methods.
abbrev pub recycler_size : BlockAllocator PrefixCache → Option ℕ
recycler_size p = cache_size p.recycler

move_to_free-size :
    (b : ℕ) (p : BlockAllocator PrefixCache)
    → recycler_size (BlockAllocator.move_to_free b p) ≡ recycler_size p
unfolding BlockAllocator.move_to_free
move_to_free-size b p = ground arith

release_from-size :
    (bs : List ℕ) (n : ℕ) (p : BlockAllocator PrefixCache)
    → recycler_size (BlockAllocator.release_from bs n p).1 ≡ recycler_size p
unfolding BlockAllocator.release_from
release_from-size [] n p = refl
release_from-size (b ∷ bs) n p = ground (
  arith,
  release_from-size bs (if mem b p.retained then n + 1 else n) (BlockAllocator.move_to_free b p),
  move_to_free-size b p,
)

reclaim_from-size :
    (o : Option PrefixCache) (n : ℕ) (p : BlockAllocator PrefixCache)
    → p.recycler ≡ o
    → recycler_size (BlockAllocator.reclaim_from o n p).1 ≡ recycler_size p
unfolding BlockAllocator.reclaim_from BlockAllocator.release_retained reclaim
reclaim_from-size none n p e = refl
reclaim_from-size (some c) n p e =
    let given = PrefixCache.evict (min n (length p.retained)) c in
    ground (
      arith,
      release_from-size given.0 0 (record p { recycler = some given.1 }),
      evict-size (min n (length p.retained)) c,
      e,
    )

take_free-size :
    (r : Result ℕ × BlockAllocator PrefixCache)
    → recycler_size (BlockAllocator.take_free r).1 ≡ recycler_size r.1
unfolding BlockAllocator.take_free
take_free-size (err e, p) = refl
take_free-size (ok n, p) = of_free p.free
  where
    of_free : (l : List ℕ) → recycler_size (BlockAllocator.pop_free l p).1 ≡ recycler_size p
    of_free [] = refl
    of_free (b ∷ l) = refl

allocate-size :
    (p : BlockAllocator PrefixCache) → recycler_size (BlockAllocator.allocate p).1 ≡ recycler_size p
unfolding BlockAllocator.allocate BlockAllocator.reclaim
allocate-size p = ground (
  arith,
  take_free-size (if BlockAllocator.num_free p == 0 then BlockAllocator.reclaim 1 p else (ok 0, p)),
  reclaim_from-size p.recycler 1 p refl,
)

release_to-size :
    (o : Option PrefixCache) (b : ℕ) (p : BlockAllocator PrefixCache)
    → p.recycler ≡ o
    → recycler_size (BlockAllocator.release_to o b p) ≡ recycler_size p
unfolding BlockAllocator.release_to on_zero_refs
release_to-size none b p e = refl
release_to-size (some c) b p e = of_answer (PrefixCache.release b c) (release-size b c)
  where
    of_answer :
        (a : Bool × PrefixCache)
        → a.1.block_size ≡ c.block_size
        → recycler_size (BlockAllocator.offered b a p) ≡ recycler_size p
    of_answer (true, d) f = ap some f ∙ sym (ap cache_size e)
    of_answer (false, d) f = ap some f ∙ sym (ap cache_size e)

decref-size :
    (b : ℕ) (p : BlockAllocator PrefixCache)
    → recycler_size (BlockAllocator.decref b p).1 ≡ recycler_size p
unfolding BlockAllocator.decref
decref-size b p =
    ground (arith, release_to-size p.recycler b (record p { refs = set p.refs b 0 }) refl)

pub decref_many-size :
    (bs : List ℕ) (p : BlockAllocator PrefixCache)
    → recycler_size (BlockAllocator.decref_many bs p).1 ≡ recycler_size p
unfolding BlockAllocator.decref_many
decref_many-size [] p = refl
decref_many-size (b ∷ bs) p =
    continue-keeps (λ q. recycler_size q ≡ recycler_size p) (BlockAllocator.decref b p) _
      (decref-size b p) (λ a q e h. decref_many-size bs q ∙ h)

take_block-size :
    (b : ℕ) (p : BlockAllocator PrefixCache) → recycler_size (take_block b p).1 ≡ recycler_size p
unfolding take_block BlockAllocator.is_retained BlockAllocator.adopt BlockAllocator.incref
take_block-size b p = ground arith

acquire_in-size :
    (b : ℕ) (p : BlockAllocator PrefixCache) → recycler_size (acquire_in b p) ≡ recycler_size p
unfolding acquire_in PrefixCache.acquire
acquire_in-size b p = ground arith

pub adopt_all-size :
    (bs table : List ℕ) (p : BlockAllocator PrefixCache)
    → recycler_size (adopt_all bs (p, table)).1.0 ≡ recycler_size p
unfolding adopt_all
adopt_all-size [] table p = refl
adopt_all-size (b ∷ bs) table p = elim (Result-cases (take_block b p).0) [
  | inr (x, e) ↦ rw (e, adopt_all) (take_block-size b p)
  | inl (a, e) ↦
      rw (e, adopt_all)
        (adopt_all-size bs (table ++ b ∷ []) (acquire_in b (take_block b p).1)
          ∙ acquire_in-size b (take_block b p).1
          ∙ take_block-size b p)
]

pub grow-size :
    (n : ℕ) (table : List ℕ) (p : BlockAllocator PrefixCache)
    → recycler_size (grow n (p, table)).1.0 ≡ recycler_size p
unfolding grow
grow-size zero table p = refl
grow-size (suc n) table p = elim (Result-cases (BlockAllocator.allocate p).0) [
  | inr (x, e) ↦ rw (e, grow) (allocate-size p)
  | inl (b, e) ↦
      rw (e, grow) (grow-size n (table ++ b ∷ []) (BlockAllocator.allocate p).1 ∙ allocate-size p)
]
