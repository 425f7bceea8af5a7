-- ===== src/Engine/PrefixCache/Recycling.antt =====
-- PrefixCache as the recycler of a BlockAllocator: `on_zero_refs` is `release` and `reclaim` is
-- `evict`, and its custody is the evictable blocks.
use turboserve.Prelude.{
  ℕ, zero, suc, ◌+◌, min, ◌≡◌, refl, ap, Bool, true, none, ◌++◌, List, [], ◌∷◌, arith, length,
  count, count-nil, count-cons, count-append, count-discard, discard, ◌==◌, if◌then◌else◌, take,
  drop, mem,
}
use turboserve.Prelude.Dict.{get}
use turboserve.Prelude.Keys.{nat_eq}
use turboserve.Engine.BlockAllocator.{Recycler}
use turboserve.Engine.BlockAllocator.Custody.{RecyclerLaws}
use turboserve.Engine.PrefixCache.Index.{get-forget}
use turboserve.Engine.PrefixCache.{
  PrefixCache, release, forget, evict_from, evict, is_some, contains_block,
}

-- `on_zero_refs`
unfoldable pub on_zero_refs : PrefixCache → ℕ → Bool × PrefixCache
unfolding release
on_zero_refs c b = release b c

unfoldable pub reclaim : PrefixCache → ℕ → List ℕ × PrefixCache
unfolding evict
reclaim c n = evict n c

instance abbrev pub cache_recycler : Recycler PrefixCache
cache_recycler = record { on_zero_refs = on_zero_refs; reclaim = reclaim }

-- The blocks in the cache's custody.
abbrev pub held_by : PrefixCache → List ℕ
held_by c = c.evictable

count-release :
    (c : PrefixCache) (b a : ℕ)
    → count b c.evictable ≡ 0
    → count a (on_zero_refs c b).1.evictable
      ≡ (if (on_zero_refs c b).0 then (if b == a then 1 else 0) else 0) + count a c.evictable
unfolding on_zero_refs
count-release c b a h = ground (
  arith,
  count-append a (discard b c.evictable) (b ∷ []),
  count-cons a b [],
  count-nil a,
  count-discard a b c.evictable,
)

count-evict_from :
    (n : ℕ) (l : List ℕ) (c : PrefixCache) (a : ℕ)
    → count a (evict_from n l c).0 + count a (evict_from n l c).1.evictable ≡ count a l
unfolding evict_from
count-evict_from zero l c a = ground (arith, count-nil a)
count-evict_from (suc n) [] c a = ground (arith, count-nil a)
count-evict_from (suc n) (b ∷ l) c a = ground (
  arith,
  count-evict_from n l (forget (get c.by_block b) b c) a,
  count-cons a b l,
  count-cons a b (evict_from n l (forget (get c.by_block b) b c)).0,
)

length-evict_from :
    (n : ℕ) (l : List ℕ) (c : PrefixCache) → length (evict_from n l c).0 ≡ min n (length l)
unfolding evict_from
length-evict_from zero l c = omega arith
length-evict_from (suc n) [] c = omega arith
length-evict_from (suc n) (b ∷ l) c =
    omega (arith, length-evict_from n l (forget (get c.by_block b) b c))

-- The contract of a recycler, for the evictable blocks.
pub cache_laws : RecyclerLaws PrefixCache held_by
unfolding reclaim
cache_laws = record {
  count-on_zero_refs = count-release;
  count-reclaim = λ c n a. count-evict_from n c.evictable c a;
  length-reclaim = λ c n. length-evict_from n c.evictable c;
}

evict_from-take :
    (n : ℕ) (l : List ℕ) (c : PrefixCache)
    → ((evict_from n l c).0 ≡ take n l) × ((evict_from n l c).1.evictable ≡ drop n l)
unfolding evict_from
evict_from-take zero l c = (refl, refl)
evict_from-take (suc n) [] c = (refl, refl)
evict_from-take (suc n) (b ∷ l) c =
    let (p, q) = evict_from-take n l (forget (get c.by_block b) b c) in (ap (◌∷◌ b) p, q)

get-evict_from :
    (n : ℕ) (l : List ℕ) (c : PrefixCache) (a : ℕ)
    → get (evict_from n l c).1.by_block a ≡ (if mem a (take n l) then none else get c.by_block a)
unfolding evict_from
get-evict_from zero l c a = ground (arith, count-nil a)
get-evict_from (suc n) [] c a = ground (arith, count-nil a)
get-evict_from (suc n) (b ∷ l) c a = ground (
  arith,
  get-evict_from n l (forget (get c.by_block b) b c) a,
  count-cons a b (take n l),
  get-forget (get c.by_block b) b a c refl,
)

-- `evict n` returns the `n` blocks that became evictable first, or all of them; it leaves the rest in
-- their order, and of the blocks it forgets the evicted ones and no other.
pub evict-oldest :
    (n : ℕ) (c : PrefixCache)
    → ((evict n c).0 ≡ take n c.evictable)
      × ((evict n c).1.evictable ≡ drop n c.evictable)
      × ((a : ℕ)
          → get (evict n c).1.by_block a
            ≡ (if mem a (take n c.evictable) then none else get c.by_block a))
unfolding evict
evict-oldest n c =
    let (p, q) = evict_from-take n c.evictable c in (p, q, λ a. get-evict_from n c.evictable c a)

-- What a pool may count on of its cache: the contract of a recycler; that a block without references
-- goes into custody exactly if it is cached, as the last to be evicted, and no entry changes; and that
-- the blocks given back are the oldest in custody, and that exactly those are forgotten.
pub record KeepsContract : Type 0 where
  pub laws : RecyclerLaws PrefixCache held_by
  pub takes_cached : (c : PrefixCache) (b : ℕ) → (on_zero_refs c b).0 ≡ is_some (get c.by_block b)
  pub queues_last :
      (c : PrefixCache) (b : ℕ)
      → is_some (get c.by_block b) ≡ true
      → (on_zero_refs c b).1.evictable ≡ discard b c.evictable ++ b ∷ []
  pub same_entries :
      (c : PrefixCache) (b : ℕ)
      → ((on_zero_refs c b).1.by_block ≡ c.by_block) × ((on_zero_refs c b).1.by_hash ≡ c.by_hash)
  pub gives_oldest :
      (c : PrefixCache) (n : ℕ)
      → ((reclaim c n).0 ≡ take n c.evictable) × ((reclaim c n).1.evictable ≡ drop n c.evictable)
  pub forgets_given :
      (c : PrefixCache) (n a : ℕ)
      → get (reclaim c n).1.by_block a
        ≡ (if mem a (take n c.evictable) then none else get c.by_block a)

-- PrefixCache keeps the contract that a pool needs of its recycler. A block without references goes
-- into its custody exactly if it is cached, after those that are there, and no entry changes. It gives
-- back the oldest blocks in custody, as many as asked for or all of them, and forgets exactly those.
pub cache_recycler-KeepsContract : KeepsContract
unfolding on_zero_refs reclaim contains_block
cache_recycler-KeepsContract = record {
  laws = cache_laws;
  takes_cached = λ c b. ground arith;
  queues_last = λ c b h. rw h refl;
  same_entries = λ c b. (ground arith, ground arith);
  gives_oldest = λ c n. let (p, q, r) = evict-oldest n c in (p, q);
  forgets_given = λ c n a. let (p, q, r) = evict-oldest n c in r a;
}
