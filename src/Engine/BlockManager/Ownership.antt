-- ===== src/Engine/BlockManager/Ownership.antt =====
-- Who owns which block. The invariant is stated for one sequence in a frame, which is what all the
-- other sequences hold: the manager's methods act on one sequence and must leave the frame alone.
use turboserve.Prelude.{
  ℕ, zero, suc, ◌+◌, ◌-◌, ◌≤◌, ◌<◌, ◌≡◌, refl, sym, ap, subst, ◌∙◌, true, false, some, List, [],
  ◌∷◌, ◌++◌, inl, inr, arith, length, get_elem?, get_elem?-ge, get_elem?-append_lt,
  get_elem?-append_ge, count, count-nil, count-cons, count-append, Result, ok, err, Result-cases,
  Error, get_or,
}
use turboserve.Engine.BlockAllocator.{BlockAllocator, refs_at, allocate}
use turboserve.Engine.BlockAllocator.References.{
  TakenOnce, IsFreshIn, allocate-IsFreshIn, allocate-err_refs,
}
use turboserve.Engine.PrefixCache.{PrefixCache}
use turboserve.Engine.PrefixCache.Recycling.{cache_recycler}
use turboserve.Engine.BlockManager.{acquire_in, take_block, adopt_all}
use turboserve.Engine.BlockManager.Growth.{grow}
use turboserve.Engine.BlockManager.Pool.{
  IsPool, caches, take_block-IsPool, take_block-ok, caches-take_block, acquire_in-TakenOnce,
}
use turboserve.Engine.BlockManager.PoolSteps.{allocate-IsPool}
use turboserve.Engine.BlockManager.PoolEntries.{allocate-caches, allocate-uncached}
use mathlib.Core.List.{append-nil, append_assoc}
use native.Mathlib.Decide.{dec_lt}

-- How many references the other sequences hold on each block, and which blocks are private to one
-- of them: neither shared nor published.
pub record Frame : Type 1 where
  pub refs : ℕ → ℕ
  pub Private : ℕ → Type 0
  pub once : (b : ℕ) → Private b → refs b ≡ 1

-- A block with one owner, which the prefix cache does not know.
abbrev pub IsPrivate : BlockAllocator PrefixCache → ℕ → Type 0
IsPrivate p b = (refs_at p b ≡ 1) × (caches p.recycler b ≡ false)

-- The pool's counts are the references of the frame and of one sequence's table; the frame's private
-- blocks are private, and so are the table's blocks from the first one not yet published.
pub record IsOwned (F : Frame) (p : BlockAllocator PrefixCache) (table : List ℕ) (from : ℕ)
    : Type 0 where
  pub pool : IsPool p
  pub counted : (b : ℕ) → refs_at p b ≡ F.refs b + count b table
  pub framed : (b : ℕ) → F.Private b → IsPrivate p b
  pub own : (i b : ℕ) → from ≤ i → get_elem? table i ≡ some b → IsPrivate p b

module _ (F : Frame) where
  -- One round of the loop of `allocate`, on a cached block.
  pub take_block-IsOwned :
      (b a : ℕ) (p : BlockAllocator PrefixCache) (table : List ℕ)
      → caches p.recycler b ≡ true
      → (take_block b p).0 ≡ ok a
      → IsOwned F p table (length table)
      → IsOwned F (acquire_in b (take_block b p).1) (table ++ b ∷ []) (length (table ++ b ∷ []))
  take_block-IsOwned b a p table hit e v = record {
    pool = take_block-IsPool b p v.pool e;
    counted = λ c.
        ground
          (arith, t c, v.counted c, count-append c table (b ∷ []), count-cons c b [], count-nil c);
    framed = λ c h.
        (ground (arith, t c, v.framed c h, hit), caches-take_block b c p e ∙ (v.framed c h).1);
    own = λ i c h g. cc (get_elem?-ge (table ++ b ∷ []) i h, g);
  }
    where
      t : TakenOnce b p (acquire_in b (take_block b p).1)
      t = acquire_in-TakenOnce b p v.pool.partition e

  abbrev pub AllCached : BlockAllocator PrefixCache → List ℕ → Type 0
  AllCached p [] = Unit
  AllCached p (b ∷ bs) = (caches p.recycler b ≡ true) × AllCached p bs

  pub AllCached-keep :
      (p q : BlockAllocator PrefixCache) (bs : List ℕ)
      → ((c : ℕ) → caches q.recycler c ≡ caches p.recycler c)
      → AllCached p bs
      → AllCached q bs
  AllCached-keep p q [] h v = tt
  AllCached-keep p q (b ∷ bs) h v = (h b ∙ v.0, AllCached-keep p q bs h v.1)

  -- The loop of `allocate` over cached blocks raises nothing.
  pub record Adopted (bs table : List ℕ)
      (r : Result (Unit {0}) × (BlockAllocator PrefixCache × List ℕ)) : Type 0 where
    pub returned : r.0 ≡ ok tt
    pub extended : r.1.1 ≡ table ++ bs
    pub owned : IsOwned F r.1.0 r.1.1 (length r.1.1)

  pub adopt_all-Adopted :
      (bs table : List ℕ) (p : BlockAllocator PrefixCache)
      → AllCached p bs
      → IsOwned F p table (length table)
      → Adopted bs table (adopt_all bs (p, table))
  unfolding adopt_all
  adopt_all-Adopted [] table p h v = record {
    returned = refl;
    extended = sym (append-nil table);
    owned = v;
  }
  adopt_all-Adopted (b ∷ bs) table p h v = elim (Result-cases (take_block b p).0) [
    | inr (x, e) ↦ cc (take_block-ok b p v.pool h.0, e)
    | inl (a, e) ↦
        rw (e, adopt_all)
          (let rest =
              adopt_all-Adopted bs (table ++ b ∷ []) (acquire_in b (take_block b p).1)
                (AllCached-keep p (acquire_in b (take_block b p).1) bs
                  (λ c. caches-take_block b c p e) h.1)
                (take_block-IsOwned b a p table h.0 e v) in
            record {
              returned = rest.returned;
              extended = rest.extended ∙ append_assoc table (b ∷ []) bs;
              owned = rest.owned;
            })
  ]

  allocate-IsOwned_err :
      (p : BlockAllocator PrefixCache) (table : List ℕ) (from : ℕ) {x : Error}
      → (allocate p).0 ≡ err x
      → IsOwned F p table from
      → IsOwned F (allocate p).1 table from
  allocate-IsOwned_err p table from e v = record {
    pool = allocate-IsPool p v.pool;
    counted = λ c. same c ∙ v.counted c;
    framed = λ c h. (same c ∙ (v.framed c h).0, uncached c (v.framed c h).1);
    own = λ i c h g. let k = v.own i c h g in (same c ∙ k.0, uncached c k.1);
  }
    where
      same : (c : ℕ) → refs_at (allocate p).1 c ≡ refs_at p c
      same c = ap (λ l. get_or l c 0) (allocate-err_refs p e)

      uncached : (c : ℕ) → caches p.recycler c ≡ false → caches (allocate p).1.recycler c ≡ false
      uncached c h = ground (arith, allocate-caches p c)

  pub allocate-IsOwned :
      (p : BlockAllocator PrefixCache) (table : List ℕ) (from b : ℕ)
      → (allocate p).0 ≡ ok b
      → IsOwned F p table from
      → IsOwned F (allocate p).1 (table ++ b ∷ []) from
  allocate-IsOwned p table from b e v = record {
    pool = allocate-IsPool p v.pool;
    counted = λ c. ground (
      arith,
      f.taken c,
      v.counted c,
      count-append c table (b ∷ []),
      count-cons c b [],
      count-nil c,
    );
    framed =
        λ c h. (ground (arith, f.taken c, (v.framed c h).0, f.unused), uncached c (v.framed c h).1);
    own = λ i c h g. elim (dec_lt i (length table)) [
      | yes l ↦
          let k = v.own i c h (sym (get_elem?-append_lt table (b ∷ []) i l) ∙ g) in
          (ground (arith, f.taken c, k.0, f.unused), uncached c k.1)
      | no l ↦
          subst (IsPrivate (allocate p).1) (last i c g l)
            (ground (arith, f.taken b, f.unused), allocate-uncached p v.pool e)
    ];
  }
    where
      f : IsFreshIn p b (allocate p).1
      f = allocate-IsFreshIn p v.pool.partition e

      uncached : (c : ℕ) → caches p.recycler c ≡ false → caches (allocate p).1.recycler c ≡ false
      uncached c h = ground (arith, allocate-caches p c)

      last : (i c : ℕ) → get_elem? (table ++ b ∷ []) i ≡ some c → ¬ (i < length table) → b ≡ c
      last i c g l =
          at_end (i - length table) (sym (get_elem?-append_ge table (b ∷ []) i (omega arith)) ∙ g)
        where
          at_end : (k : ℕ) → get_elem? (b ∷ []) k ≡ some c → b ≡ c
          at_end zero q = cc
          at_end (suc k) q = cc

  -- The loop of `append_slots`, whether it ends or the pool runs out.
  pub grow-IsOwned :
      (n : ℕ) (p : BlockAllocator PrefixCache) (table : List ℕ) (from : ℕ)
      → IsOwned F p table from
      → IsOwned F (grow n (p, table)).1.0 (grow n (p, table)).1.1 from
  unfolding grow
  grow-IsOwned zero p table from v = v
  grow-IsOwned (suc n) p table from v = elim (Result-cases (allocate p).0) [
    | inr (x, e) ↦ rw (e, grow) (allocate-IsOwned_err p table from e v)
    | inl (b, e) ↦
        rw (e, grow)
          (grow-IsOwned n (allocate p).1 (table ++ b ∷ []) from
            (allocate-IsOwned p table from b e v))
  ]
