-- ===== src/Engine/BlockManager/Keeping.antt =====
-- What every method of BlockManager (turboserve/engine/core/block_manager.py) leaves as it was: the other
-- sequences' bookkeeping, the sizes, and who the sequence is.
use turboserve.Prelude.{
  ℕ, zero, suc, ◌+◌, ◌-◌, ◌/◌, ◌≡◌, ◌≢◌, refl, sym, ap, ◌∙◌, Bool, true, Option, none, some, List,
  get_elem?, arith, length, ltb, ◌==◌, min, Result, ok, err, continue-keeps, continue-ok,
  Bool-cases, Result-cases, inl, inr,
}
use turboserve.Prelude.Dict.{get, get-put, get-remove}
use turboserve.Prelude.Keys.{nat_eq}
use turboserve.Engine.BlockAllocator
use turboserve.Engine.BlockAllocator.{BlockAllocator}
use turboserve.Engine.PrefixCache.{
  PrefixCache, PrefixMatch, find_match, num_blocks, num_tokens, is_some,
}
use turboserve.Engine.PrefixCache.Recycling.{cache_recycler}
use turboserve.Engine.Sequence
use turboserve.Engine.Sequence.{
  Sequence, SeqStatus, preempted, token_ids, ceil_div, block_tokens, reset_for_recompute,
}
use turboserve.Engine.BlockManager.{
  SeqBlocks, BlockManager, Work, prefix_cache, adopt_all, adopted, admit, allocate_with, allocate,
  max_hit_blocks,
}
use turboserve.Engine.BlockManager.Growth.{grow, mapped, append_slots}
use turboserve.Engine.BlockManager.Publication.{
  dropped, unprogressed, free_blocks, extend_hashes, insert_found, published, publish_one,
  publish_from, written, publish_with, publish_computed_blocks, free, release, preempt,
}
use turboserve.Engine.BlockManager.CacheSizes.{
  cache_size, insert-size, recycler_size, decref_many-size, adopt_all-size, grow-size,
}

-- What a method that is called with the sequence `w.seq` keeps, and the status that it leaves.
pub record IsKeptAs (s : SeqStatus) (w r : Work) : Type 0 where
  pub others : (j : ℕ) → w.seq.seq_id ≢ j → get r.manager.state j ≡ get w.manager.state j
  pub same_size : r.manager.block_size ≡ w.manager.block_size
  pub same_cache : cache_size (prefix_cache r.manager) ≡ cache_size (prefix_cache w.manager)
  pub same_id : r.seq.seq_id ≡ w.seq.seq_id
  pub same_request : r.seq.request_id ≡ w.seq.request_id
  pub same_tenant : r.seq.tenant_id ≡ w.seq.tenant_id
  pub same_prompt : r.seq.prompt_token_ids ≡ w.seq.prompt_token_ids
  pub same_outputs : r.seq.output_token_ids ≡ w.seq.output_token_ids
  pub status_is : r.seq.status ≡ s

abbrev pub IsKept : Work → Work → Type 0
IsKept w r = IsKeptAs w.seq.status w r

-- A new pool, the same bookkeeping, and a new block table or progress.
pool-IsKept :
    {s : SeqStatus} (w r : Work)
    → ((j : ℕ) → w.seq.seq_id ≢ j → get r.manager.state j ≡ get w.manager.state j)
    → r.manager.block_size ≡ w.manager.block_size
    → recycler_size r.manager.allocator ≡ recycler_size w.manager.allocator
    → r.seq.seq_id ≡ w.seq.seq_id
    → r.seq.request_id ≡ w.seq.request_id
    → r.seq.tenant_id ≡ w.seq.tenant_id
    → r.seq.prompt_token_ids ≡ w.seq.prompt_token_ids
    → r.seq.output_token_ids ≡ w.seq.output_token_ids
    → r.seq.status ≡ s
    → IsKeptAs s w r
pool-IsKept w r a b c d e f g h i = record {
  others = a;
  same_size = b;
  same_cache = c;
  same_id = d;
  same_request = e;
  same_tenant = f;
  same_prompt = g;
  same_outputs = h;
  status_is = i;
}

IsKept-trans : {w r t : Work} → IsKept w r → IsKept r t → IsKept w t
IsKept-trans a b = record {
  others = λ j n. b.others j (λ e. n (sym a.same_id ∙ e)) ∙ a.others j n;
  same_size = b.same_size ∙ a.same_size;
  same_cache = b.same_cache ∙ a.same_cache;
  same_id = b.same_id ∙ a.same_id;
  same_request = b.same_request ∙ a.same_request;
  same_tenant = b.same_tenant ∙ a.same_tenant;
  same_prompt = b.same_prompt ∙ a.same_prompt;
  same_outputs = b.same_outputs ∙ a.same_outputs;
  status_is = b.status_is ∙ a.status_is;
}

mapped-IsKept :
    (n : ℕ) (start : ℕ) (w : Work) (r : Result (Unit {0}) × (BlockAllocator PrefixCache × List ℕ))
    → recycler_size r.1.0 ≡ recycler_size w.manager.allocator
    → IsKept w (mapped start n w r).1
unfolding mapped
mapped-IsKept n start w (ok u, (p, table)) e =
    pool-IsKept w _ (λ j g. refl) refl e refl refl refl refl refl refl
mapped-IsKept n start w (err x, (p, table)) e =
    pool-IsKept w _ (λ j g. refl) refl e refl refl refl refl refl refl

refl-IsKept : (w : Work) → IsKept w w
refl-IsKept w = pool-IsKept w w (λ j g. refl) refl refl refl refl refl refl refl refl

abbrev need : ℕ → Work → ℕ
need n w = ceil_div (w.seq.num_computed_tokens + n) w.manager.block_size - length w.seq.block_table

pub append_slots-IsKept : (n : ℕ) (w : Work) → IsKept w (append_slots n w).1
unfolding append_slots
append_slots-IsKept n w = elim (Bool-cases (is_some (get w.manager.state w.seq.seq_id))) [
  | inr e ↦ rw e (refl-IsKept w)
  | inl e ↦
      rw e (elim (Bool-cases (ltb (Sequence.num_tokens w.seq) (w.seq.num_computed_tokens + n))) [
        | inl f ↦ rw f (refl-IsKept w)
        | inr f ↦ rw f (
            mapped-IsKept n w.seq.num_computed_tokens w
              (grow (need n w) (w.manager.allocator, w.seq.block_table))
              (grow-size (need n w) w.seq.block_table w.manager.allocator))
      ])
]

dropped-IsKept :
    (w : Work) (r : Result ℕ × BlockAllocator PrefixCache)
    → recycler_size r.1 ≡ recycler_size w.manager.allocator
    → IsKept w (dropped w r).1
unfolding dropped
dropped-IsKept w (err x, p) e = pool-IsKept w _ (λ j g. refl) refl e refl refl refl refl refl refl
dropped-IsKept w (ok n, p) e =
    pool-IsKept w _ (λ j g. ground (arith, get-remove w.manager.state w.seq.seq_id j, g)) refl e
      refl refl refl refl refl refl

free_blocks-IsKept : (w : Work) → IsKept w (free_blocks w).1
unfolding free_blocks
free_blocks-IsKept w =
    dropped-IsKept w (BlockAllocator.decref_many w.seq.block_table w.manager.allocator)
      (decref_many-size w.seq.block_table w.manager.allocator)

module _ (blake2b : List ℕ → List ℕ) where
  insert_found-size :
      (o : Option ℕ) (h : Option (List ℕ)) (c : PrefixCache)
      → (insert_found blake2b o h c).1.block_size ≡ c.block_size
  unfolding insert_found
  insert_found-size (some b) (some h) c = insert-size b h c
  insert_found-size (some b) none c = refl
  insert_found-size none h c = refl

  published-size :
      (n : ℕ) (blocks : SeqBlocks) (r : Result Bool × PrefixCache)
      → (published blake2b n blocks r).1.0.block_size ≡ r.1.block_size
  unfolding published
  published-size n blocks (ok new, c) = refl
  published-size n blocks (err e, c) = refl

  publish_one-size :
      (size : ℕ) (s : Sequence) (n : ℕ) (c : PrefixCache) (blocks : SeqBlocks)
      → (publish_one blake2b size s n (c, blocks)).1.0.block_size ≡ c.block_size
  unfolding publish_one
  publish_one-size size s n c blocks = elim (Result-cases extended.0) [
    | inr (x, e) ↦ rw (e, publish_one) refl
    | inl (u, e) ↦
        rw (e, publish_one)
          (published-size n extended.1 (insert_found blake2b block hash c)
            ∙ insert_found-size block hash c)
  ]
    where
      extended : Result (Unit {0}) × SeqBlocks
      extended =
          extend_hashes blake2b (suc blocks.num_published - length blocks.hashes) size s blocks

      block : Option ℕ
      block = get_elem? s.block_table blocks.num_published

      hash : Option (List ℕ)
      hash = get_elem? extended.1.hashes blocks.num_published

  publish_from-size :
      (k size : ℕ) (s : Sequence) (n : ℕ) (c : PrefixCache) (blocks : SeqBlocks)
      → (publish_from blake2b k size s n (c, blocks)).1.0.block_size ≡ c.block_size
  unfolding publish_from
  publish_from-size zero size s n c blocks = refl
  publish_from-size (suc k) size s n c blocks =
      continue-keeps (λ st. st.0.block_size ≡ c.block_size)
        (publish_one blake2b size s n (c, blocks)) (λ more. publish_from blake2b k size s more)
        (publish_one-size size s n c blocks)
        (λ a st e h. publish_from-size k size s a st.0 st.1 ∙ h)

  -- The manager after publishing.
  record IsPublishedIn (s : Sequence) (m r : BlockManager) : Type 0 where
    others : (j : ℕ) → s.seq_id ≢ j → get r.state j ≡ get m.state j
    same_size : r.block_size ≡ m.block_size
    same_cache : cache_size (prefix_cache r) ≡ cache_size (prefix_cache m)

  written-lem :
      (s : Sequence) (m : BlockManager) (r : Result ℕ × (PrefixCache × SeqBlocks))
      → some r.1.0.block_size ≡ cache_size (prefix_cache m)
      → IsPublishedIn s m (written blake2b s.seq_id m r).1
  unfolding written
  written-lem s m (a, (c, blocks)) e = record {
    others = λ j n. ground (arith, get-put m.state s.seq_id j blocks, n);
    same_size = refl;
    same_cache = e;
  }

  publish_with-lem :
      (o : Option PrefixCache) (g : Option SeqBlocks) (s : Sequence) (m : BlockManager)
      → prefix_cache m ≡ o
      → IsPublishedIn s m (publish_with blake2b o g s m).1
  unfolding publish_with
  publish_with-lem none g s m e = record {
    others = λ j n. refl;
    same_size = refl;
    same_cache = refl;
  }
  publish_with-lem (some c) none s m e = record {
    others = λ j n. refl;
    same_size = refl;
    same_cache = refl;
  }
  publish_with-lem (some c) (some blocks) s m e =
      written-lem s m (publish_from blake2b k m.block_size s 0 (c, blocks))
        (ap some (publish_from-size k m.block_size s 0 c blocks) ∙ sym (ap cache_size e))
    where
      k : ℕ
      k = min (s.num_computed_tokens / m.block_size) (length s.block_table) - blocks.num_published

  pub publish-IsKept :
      (w : Work)
      → IsKept w (record w { manager = (publish_computed_blocks blake2b w.seq w.manager).1 })
  unfolding publish_computed_blocks
  publish-IsKept w =
      let p =
        publish_with-lem (prefix_cache w.manager) (get w.manager.state w.seq.seq_id) w.seq w.manager
          refl in
      pool-IsKept w _ p.others p.same_size p.same_cache refl refl refl refl refl refl

  pub free-IsKept : (w : Work) → IsKept w (free blake2b w).1
  unfolding free
  free-IsKept w = elim (Result-cases (publish_computed_blocks blake2b w.seq w.manager).0) [
    | inr (x, e) ↦ rw (e, free) (publish-IsKept w)
    | inl (n, e) ↦ rw (e, free) (IsKept-trans (publish-IsKept w) (free_blocks-IsKept _))
  ]

  pub release-IsKept : (w : Work) → IsKept w (release blake2b w).1
  unfolding release unprogressed
  release-IsKept w =
      continue-keeps (λ r. IsKept w r) (free blake2b w) _ (free-IsKept w)
        (λ u r e k.
          IsKept-trans k (pool-IsKept r _ (λ j g. refl) refl refl refl refl refl refl refl refl))

  pub preempt-IsKept :
      (w : Work) {u : Unit {0}}
      → (free blake2b w).0 ≡ ok u
      → IsKeptAs preempted w (preempt blake2b w).1
  unfolding preempt reset_for_recompute
  preempt-IsKept w e = rw (continue-ok (free blake2b w) _ e) (
      let k = free-IsKept w in
      record {
        others = k.others;
        same_size = k.same_size;
        same_cache = k.same_cache;
        same_id = k.same_id;
        same_request = k.same_request;
        same_tenant = k.same_tenant;
        same_prompt = k.same_prompt;
        same_outputs = k.same_outputs;
        status_is = refl;
      })

  find_match-size :
      (tokens : List ℕ) (lora : ℕ) (cap : Option ℕ) (c : PrefixCache)
      → (find_match blake2b tokens lora cap true c).1.block_size ≡ c.block_size
  unfolding find_match
  find_match-size tokens lora cap c = refl

  admit-IsKept : (blocks : SeqBlocks) (n : ℕ) (w : Work) → IsKept w (admit blocks n w).1
  unfolding admit
  admit-IsKept blocks n w =
      pool-IsKept w _ (λ j g. ground (arith, get-put w.manager.state w.seq.seq_id j blocks, g)) refl
        refl refl refl refl refl refl refl

  adopted-IsKept :
      (found : PrefixMatch) (w : Work)
      (r : Result (Unit {0}) × (BlockAllocator PrefixCache × List ℕ))
      → recycler_size r.1.0 ≡ recycler_size w.manager.allocator
      → IsKept w (adopted found w r).1
  unfolding adopted
  adopted-IsKept found w (ok u, (p, table)) e =
      IsKept-trans (pool-IsKept w _ (λ j g. refl) refl e refl refl refl refl refl refl) (
        admit-IsKept (record { hashes = found.hashes; num_published = num_blocks found })
          (num_tokens found)
          (record {
            manager = record w.manager { allocator = p };
            seq = record w.seq { block_table = table };
          }))
  adopted-IsKept found w (err x, (p, table)) e =
      pool-IsKept w _ (λ j g. refl) refl e refl refl refl refl refl refl

  allocate_with-IsKept :
      (o : Option PrefixCache) (w : Work)
      → prefix_cache w.manager ≡ o
      → IsKept w (allocate_with blake2b o w).1
  unfolding allocate_with
  allocate_with-IsKept none w e = admit-IsKept _ _ w
  allocate_with-IsKept (some c) w e =
      adopted-IsKept found.0 w (adopt_all found.0.block_ids (start, w.seq.block_table)) (
        adopt_all-size found.0.block_ids w.seq.block_table start
        ∙ ap some (find_match-size (token_ids w.seq) w.seq.lora_id cap c)
        ∙ sym (ap cache_size e))
    where
      cap : Option ℕ
      cap = some (max_hit_blocks w.manager w.seq)

      found : PrefixMatch × PrefixCache
      found = find_match blake2b (token_ids w.seq) w.seq.lora_id cap true c

      start : BlockAllocator PrefixCache
      start = record w.manager.allocator { recycler = some found.1 }

  pub allocate-IsKept : (w : Work) → IsKept w (allocate blake2b w).1
  unfolding allocate
  allocate-IsKept w = elim (Bool-cases (length w.seq.block_table == 0)) [
    | inl e ↦ rw e (allocate_with-IsKept (prefix_cache w.manager) w refl)
    | inr e ↦ rw e (refl-IsKept w)
  ]
