-- ===== src/Engine/BlockManager/PublishLoop.antt =====
-- The loop of `publish_computed_blocks`, for a managed sequence.
use turboserve.Prelude.{
  ℕ, zero, suc, ◌+◌, ◌-◌, ◌*◌, ◌/◌, ◌≤◌, ◌<◌, ◌≡◌, ◌≢◌, refl, sym, subst, ◌∙◌, Bool, Option, none,
  some, List, arith, length, get_elem?, get_elem?-lt, min, count-get_elem?, count-get_elem?_twice,
  ltb, if◌then◌else◌, Bool-cases, inl, inr, Result, ok, err, continue-ok,
}
use turboserve.Prelude.Dict.{get-put}
use turboserve.Prelude.Keys.{nat_eq}
use turboserve.Engine.BlockAllocator.{BlockAllocator}
use turboserve.Engine.PrefixCache.{PrefixCache, Digest, insert}
use turboserve.Engine.Sequence
use turboserve.Engine.Sequence.{Sequence, block_tokens, token_ids}
use turboserve.Engine.BlockManager.{Work, SeqBlocks, prefix_cache}
use turboserve.Engine.BlockManager.Publication.{
  extend_hashes, insert_found, published, publish_one, publish_from, written, publish_with,
  publish_computed_blocks,
}
use turboserve.Engine.BlockManager.PoolEntries.{insert-ok, insert-caches, insert-IsPool}
use turboserve.Engine.BlockManager.Ownership.{Frame, IsOwned}
use turboserve.Engine.BlockManager.Adoption.{IsManaged}
use native.Mathlib.Nat.{le_trans}
use turboserve.Engine.BlockManager.Publishing.{extend_hashes-IsExtended}

-- The blocks that the prefix cache has been told about.
pub record IsPublished (F : Frame) (p : BlockAllocator PrefixCache) (table : List ℕ) (from : ℕ)
    (r : Result ℕ × (PrefixCache × SeqBlocks)) : Type 0 where
  pub num_new : ℕ
  pub returned : r.0 ≡ ok num_new
  pub progress : r.1.1.num_published ≡ from
  pub owned : IsOwned F (record p { recycler = some r.1.0 }) table from

module _ (F : Frame) (p : BlockAllocator PrefixCache) where
  other_block :
      (c : PrefixCache) (table : List ℕ) (from i b a : ℕ)
      → IsOwned F (record p { recycler = some c }) table from
      → get_elem? table from ≡ some b
      → suc from ≤ i
      → get_elem? table i ≡ some a
      → b ≢ a
  other_block c table from i b a v e h g same =
      let k = v.own from b (omega arith) e in
      let l = subst (λ x. get_elem? table i ≡ some x) (sym same) g in
      omega (arith, k.0, v.counted b, count-get_elem?_twice table from i b h e l)

  not_private :
      (c : PrefixCache) (table : List ℕ) (from b : ℕ)
      → IsOwned F (record p { recycler = some c }) table from
      → get_elem? table from ≡ some b
      → (a : ℕ) → F.Private a
      → b ≢ a
  not_private c table from b v e a h same =
      let k = subst F.Private (sym same) h in
      omega (arith, (v.framed b k).0, v.counted b, F.once b k, count-get_elem? table from b e)

  insert-IsOwned :
      (b : ℕ) (h : Digest) (c : PrefixCache) (table : List ℕ) (from : ℕ)
      → get_elem? table from ≡ some b
      → IsOwned F (record p { recycler = some c }) table from
      → IsOwned F (record p { recycler = some (insert b h c).1 }) table (suc from)
  insert-IsOwned b h c table from e v = record {
    pool =
        insert-IsPool b h c (record p { recycler = some c }) refl
          (omega (arith, (v.own from b (omega arith) e).0)) v.pool;
    counted = v.counted;
    framed = λ a g. (
      (v.framed a g).0,
      insert-caches b a h c (not_private c table from b v e a g) ∙ (v.framed a g).1,
    );
    own = λ i a l g.
        let k = v.own i a (omega arith) g in
        (k.0, insert-caches b a h c (other_block c table from i b a v e l g) ∙ k.1);
  }

pub first_le : (a n size tokens : ℕ) → (a + suc n) * size ≤ tokens → suc a * size ≤ tokens
first_le a n size tokens h = grind arith

mul_le : (a b size : ℕ) → a ≤ b → a * size ≤ b * size
mul_le a b size h = grind arith

div_mul_le : (n size : ℕ) → (n / size) * size ≤ n
div_mul_le n size = grind arith

pub full_le :
    (a computed size len : ℕ)
    → a * size ≤ computed
    → (a + (min (computed / size) len - a)) * size ≤ computed
full_le a computed size len h = elim (Bool-cases (ltb a (min (computed / size) len))) [
  | inl e ↦
      le_trans (mul_le (a + (min (computed / size) len - a)) (computed / size) size (ground arith))
        (div_mul_le computed size)
  | inr e ↦ let same : a + (min (computed / size) len - a) ≡ a = ground arith in rw same h
]

pub mul_suc_le :
    (a h size tokens : ℕ)
    → suc a * size ≤ tokens
    → 0 < suc a - h
    → (h + (suc a - h)) * size ≤ tokens
mul_suc_le a h size tokens k l = let e : h + (suc a - h) ≡ suc a = omega arith in rw e k

module _ (blake2b : List ℕ → List ℕ) (F : Frame) (p : BlockAllocator PrefixCache) (size : ℕ)
    (s : Sequence) where
  published-IsPublished :
      (num : ℕ) (blocks : SeqBlocks) (b : ℕ) (h : Digest) (c : PrefixCache) (from : ℕ)
      → blocks.num_published ≡ from
      → get_elem? s.block_table from ≡ some b
      → IsOwned F (record p { recycler = some c }) s.block_table from
      → IsPublished F p s.block_table (suc from) (published blake2b num blocks (insert b h c))
  unfolding published
  published-IsPublished num blocks b h c from q e v =
      let (a, f) = insert-ok b h c (v.own from b (omega arith) e).1 in
      at (insert b h c) a f (insert-IsOwned F p b h c s.block_table from e v)
    where
      at :
          (r : Result Bool × PrefixCache) (a : Bool)
          → r.0 ≡ ok a
          → IsOwned F (record p { recycler = some r.1 }) s.block_table (suc from)
          → IsPublished F p s.block_table (suc from) (published blake2b num blocks r)
      at (ok new, c') a f w = record {
        num_new = if new then num + 1 else num;
        returned = refl;
        progress = omega (arith, q);
        owned = w;
      }
      at (err x, c') a f w = cc f

  pub publish_one-IsPublished :
      (num : ℕ) (c : PrefixCache) (blocks : SeqBlocks)
      → IsOwned F (record p { recycler = some c }) s.block_table blocks.num_published
      → blocks.num_published < length s.block_table
      → suc blocks.num_published * size ≤ Sequence.num_tokens s
      → IsPublished F p s.block_table
          (suc blocks.num_published)
          (publish_one blake2b size s num (c, blocks))
  unfolding publish_one insert_found
  publish_one-IsPublished num c blocks v l k =
      let index = blocks.num_published in
      let n = suc index - length blocks.hashes in
      let r = extend_hashes blake2b n size s blocks in
      let x =
        extend_hashes-IsExtended blake2b size s n blocks
          (mul_suc_le index (length blocks.hashes) size (Sequence.num_tokens s) k) in
      let (b, e) = get_elem?-lt s.block_table index l in
      let (h, f) = get_elem?-lt r.1.hashes index (omega (arith, x.longer)) in
      rw (x.returned, publish_one, e, f, insert_found)
        (published-IsPublished num r.1 b h c index x.same_progress e v)

  pub publish_from-IsPublished :
      (n num : ℕ) (c : PrefixCache) (blocks : SeqBlocks)
      → IsOwned F (record p { recycler = some c }) s.block_table blocks.num_published
      → (0 < n → blocks.num_published + n ≤ length s.block_table)
      → (0 < n → (blocks.num_published + n) * size ≤ Sequence.num_tokens s)
      → IsPublished F p s.block_table
          (blocks.num_published + n)
          (publish_from blake2b n size s num (c, blocks))
  unfolding publish_from
  publish_from-IsPublished zero num c blocks v l k = record {
    num_new = num;
    returned = refl;
    progress = omega arith;
    owned = subst (IsOwned F (record p { recycler = some c }) s.block_table) (omega arith) v;
  }
  publish_from-IsPublished (suc n) num c blocks v l k =
      let r = publish_one blake2b size s num (c, blocks) in
      let x =
        publish_one-IsPublished num c blocks v (omega (arith, l (omega arith)))
          (first_le blocks.num_published n size (Sequence.num_tokens s) (k (omega arith))) in
      let e : r.1.1.num_published + n ≡ blocks.num_published + suc n = omega (arith, x.progress) in
      rw (continue-ok r (λ more. publish_from blake2b n size s more) x.returned) (
        subst (λ i. IsPublished F p s.block_table i (publish_from blake2b n size s x.num_new r.1)) e
          (publish_from-IsPublished n x.num_new r.1.0 r.1.1
            (subst (IsOwned F (record p { recycler = some r.1.0 }) s.block_table) (sym x.progress)
              x.owned)
            (λ z. rw e (l (omega arith))) (λ z. rw e (k (omega arith)))))

module _ (blake2b : List ℕ → List ℕ) (F : Frame) where
  written-IsManaged :
      (w : Work) (from : ℕ) (r : Result ℕ × (PrefixCache × SeqBlocks))
      → IsPublished F w.manager.allocator w.seq.block_table from r
      → from * w.manager.block_size ≤ w.seq.num_computed_tokens
      → IsManaged F (record w { manager = (written blake2b w.seq.seq_id w.manager r).1 })
  unfolding written
  written-IsManaged w from r x h = record {
    blocks = r.1.1;
    known = ground (arith, get-put w.manager.state w.seq.seq_id w.seq.seq_id r.1.1);
    owned =
        subst (IsOwned F (record w.manager.allocator { recycler = some r.1.0 }) w.seq.block_table)
          (sym x.progress) x.owned;
    complete = rw x.progress h;
  }

  publish_with-IsManaged :
      (w : Work) (c : PrefixCache) (blocks : SeqBlocks)
      → IsOwned F
          (record w.manager.allocator { recycler = some c })
          w.seq.block_table
          blocks.num_published
      → blocks.num_published * w.manager.block_size ≤ w.seq.num_computed_tokens
      → w.seq.num_computed_tokens ≤ Sequence.num_tokens w.seq
      → ((n : ℕ) × ((publish_with blake2b (some c) (some blocks) w.seq w.manager).0 ≡ ok n))
        × IsManaged F
            (record w { manager = (publish_with blake2b (some c) (some blocks) w.seq w.manager).1 })
  unfolding publish_with
  publish_with-IsManaged w c blocks v h t =
      let full =
        min (w.seq.num_computed_tokens / w.manager.block_size) (length w.seq.block_table) in
      let n = full - blocks.num_published in
      let bound : (blocks.num_published + n) * w.manager.block_size ≤ w.seq.num_computed_tokens =
        full_le blocks.num_published w.seq.num_computed_tokens w.manager.block_size
          (length w.seq.block_table) h in
      let x =
        publish_from-IsPublished blake2b F w.manager.allocator w.manager.block_size w.seq n 0 c
          blocks v (λ z. omega arith) (λ z. omega (arith, bound)) in
      ((x.num_new, x.returned), written-IsManaged w (blocks.num_published + n) _ x bound)

  publish_found-IsManaged :
      (o : Option PrefixCache) (w : Work) (v : IsManaged F w)
      → prefix_cache w.manager ≡ o
      → w.seq.num_computed_tokens ≤ Sequence.num_tokens w.seq
      → ((n : ℕ) × ((publish_with blake2b o (some v.blocks) w.seq w.manager).0 ≡ ok n))
        × IsManaged F
            (record w { manager = (publish_with blake2b o (some v.blocks) w.seq w.manager).1 })
  unfolding publish_with
  publish_found-IsManaged none w v e t = ((0, refl), v)
  publish_found-IsManaged (some c) w v e t =
      publish_with-IsManaged w c v.blocks
        (subst
          (λ o.
            IsOwned F (record w.manager.allocator { recycler = o }) w.seq.block_table
              v.blocks.num_published)
          e v.owned)
        v.complete t

  -- For a managed sequence that has computed no more tokens than it holds, whatever the other
  -- sequences own: `publish_computed_blocks` raises nothing and leaves the sequence managed.
  pub publish_computed_blocks-IsManaged :
      (w : Work)
      → IsManaged F w
      → w.seq.num_computed_tokens ≤ Sequence.num_tokens w.seq
      → ((n : ℕ) × ((publish_computed_blocks blake2b w.seq w.manager).0 ≡ ok n))
        × IsManaged F (record w { manager = (publish_computed_blocks blake2b w.seq w.manager).1 })
  unfolding publish_computed_blocks publish_with
  publish_computed_blocks-IsManaged w v t =
      subst
        (λ g.
          ((n : ℕ) × ((publish_with blake2b (prefix_cache w.manager) g w.seq w.manager).0 ≡ ok n))
          × IsManaged F (record w {
            manager = (publish_with blake2b (prefix_cache w.manager) g w.seq w.manager).1;
          }))
        (sym v.known) (publish_found-IsManaged (prefix_cache w.manager) w v refl t)
