-- ===== src/Engine/BlockManager/Adoption.antt =====
-- `allocate` of BlockManager: a sequence adopts the blocks of its cached prefix.
use turboserve.Prelude.{
  ℕ, suc, ◌-◌, ◌*◌, ◌/◌, ◌≤◌, ◌<◌, ◌≡◌, refl, sym, ap, subst, ◌∙◌, true, Option, none, some, List,
  [], ◌∷◌, arith, length, get_elem?, Result, ok, err, count, ap₂,
}
use turboserve.Prelude.Dict.{get, get-put}
use turboserve.Prelude.Keys.{nat_eq, bytes_eq}
use turboserve.Engine.BlockAllocator.{BlockAllocator}
use turboserve.Engine.PrefixHash.{num_full}
use turboserve.Engine.PrefixCache.{
  PrefixCache, PrefixMatch, contains_block, find_match, num_tokens, Entry, is_some,
}
use turboserve.Engine.PrefixCache.Index.{IsIndex}
use turboserve.Engine.PrefixCache.Matching.{IsLongestMatch, find_match-IsLongestMatch}
use turboserve.Engine.Sequence
use turboserve.Engine.Sequence.{Sequence, token_ids}
use turboserve.Engine.BlockManager.{
  Work, SeqBlocks, prefix_cache, max_hit_blocks, admit, adopted, adopt_all, allocate_with, allocate,
}
use turboserve.Engine.BlockManager.Pool.{caches, IndexOf}
use turboserve.Engine.BlockManager.Ownership.{Frame, IsOwned, AllCached, Adopted, adopt_all-Adopted}
use turboserve.Engine.PrefixCache.Recycling.{held_by}
use turboserve.Engine.BlockAllocator.Custody.{custody}
use native.Mathlib.Nat.{zero-mul}
use turboserve.Engine.BlockManager.CachedPrefix.{AdoptsPrefix, match-AdoptsPrefix}

-- A sequence that the manager knows, with its blocks owned in the frame.
pub record IsManaged (F : Frame) (w : Work) : Type 0 where
  pub blocks : SeqBlocks
  pub known : get w.manager.state w.seq.seq_id ≡ some blocks
  pub owned : IsOwned F w.manager.allocator w.seq.block_table blocks.num_published
  -- Only blocks whose tokens are all computed are published.
  pub complete : blocks.num_published * w.manager.block_size ≤ w.seq.num_computed_tokens

-- The cache of a manager has the manager's block size.
abbrev pub SameSize : ℕ → Option PrefixCache → Type 0
SameSize size none = Unit
SameSize size (some c) = c.block_size ≡ size

contains_of :
    (c : PrefixCache) (b : ℕ) {e : Entry} → get c.by_block b ≡ some e → contains_block c b ≡ true
unfolding contains_block
contains_of c b h = ap is_some h

num_full-le : (tokens : List ℕ) (size cap : ℕ) → num_full tokens size (some cap) ≤ cap
unfolding num_full
num_full-le tokens size cap = omega arith

module _ (blake2b : List ℕ → List ℕ) (F : Frame) where
  AllCached-at :
      (p : BlockAllocator PrefixCache) (bs : List ℕ)
      → ((i b : ℕ) → get_elem? bs i ≡ some b → caches p.recycler b ≡ true)
      → AllCached F p bs
  AllCached-at p [] h = tt
  AllCached-at p (b ∷ bs) h = (h 0 b refl, AllCached-at p bs (λ i. h (suc i)))

  -- Recording a lookup touches the statistics of the cache only.
  pub recorded :
      (tokens : List ℕ) (lora : ℕ) (cap : Option ℕ) (c : PrefixCache)
      (p : BlockAllocator PrefixCache)
      → p.recycler ≡ some c
      → IsOwned F p [] 0
      → IsOwned F (record p { recycler = some (find_match blake2b tokens lora cap true c).1 }) [] 0
  unfolding find_match contains_block
  recorded tokens lora cap c p e v =
      let i = subst (λ o. IndexOf o) e v.pool.index in
      record {
        pool = record {
          partition = record { sized = v.pool.partition.sized; once = v.pool.partition.once };
          in_custody = record {
            same = λ b.
                subst (λ o. count b (custody held_by o) ≡ count b p.retained) e
                  (v.pool.in_custody.same b);
          };
          index = record { owned = i.owned; found = i.found; cached = i.cached };
          kept = λ b h. v.pool.kept b (ap (λ o. caches o b) e ∙ h);
        };
        counted = v.counted;
        framed = λ b h. ((v.framed b h).0, ap (λ o. caches o b) (sym e) ∙ (v.framed b h).1);
        own = λ k b h g. cc;
      }

  same_entries :
      (tokens : List ℕ) (lora : ℕ) (cap : Option ℕ) (c : PrefixCache) (b : ℕ)
      → contains_block (find_match blake2b tokens lora cap true c).1 b ≡ contains_block c b
  unfolding find_match contains_block
  same_entries tokens lora cap c b = refl

  found_size :
      (tokens : List ℕ) (lora : ℕ) (cap : Option ℕ) (c : PrefixCache)
      → (find_match blake2b tokens lora cap true c).0.block_size ≡ c.block_size
  unfolding find_match
  found_size tokens lora cap c = refl

  pub hits_cached :
      (tokens : List ℕ) (lora : ℕ) (cap : Option ℕ) (c : PrefixCache)
      (p : BlockAllocator PrefixCache)
      → IsIndex c
      → AllCached F
          (record p { recycler = some (find_match blake2b tokens lora cap true c).1 })
          (find_match blake2b tokens lora cap true c).0.block_ids
  hits_cached tokens lora cap c p i =
      AllCached-at (record p { recycler = some (find_match blake2b tokens lora cap true c).1 })
        (find_match blake2b tokens lora cap true c).0.block_ids hit
    where
      l :
          IsLongestMatch blake2b tokens lora c
            (num_full tokens c.block_size cap)
            (find_match blake2b tokens lora cap true c).0
      l = (find_match-IsLongestMatch blake2b tokens lora c cap true).0

      hit :
          (k b : ℕ)
          → get_elem? (find_match blake2b tokens lora cap true c).0.block_ids k ≡ some b
          → contains_block (find_match blake2b tokens lora cap true c).1 b ≡ true
      hit k b e =
          same_entries tokens lora cap c b ∙ contains_of c b (i.found _ b ((l.block_at k b e).0))

  -- What `allocate` gives a sequence that holds no block.
  pub record IsAdmission (w : Work) (r : Result ℕ × Work) : Type 0 where
    pub cached : ℕ
    pub returned : r.0 ≡ ok cached
    pub progress : r.1.seq.num_computed_tokens ≡ cached
    pub covered : cached ≡ length r.1.seq.block_table * w.manager.block_size
    pub left : cached < Sequence.num_tokens w.seq
    pub managed : IsManaged F r.1
    pub adopts :
        (c : PrefixCache)
        → prefix_cache w.manager ≡ some c
        → AdoptsPrefix blake2b c w.seq r.1.seq.block_table

  admit-IsAdmission :
      (w : Work) (p : BlockAllocator PrefixCache) (table : List ℕ) (blocks : SeqBlocks) (n : ℕ)
      → n ≡ length table * w.manager.block_size
      → n < Sequence.num_tokens w.seq
      → IsOwned F p table blocks.num_published
      → blocks.num_published * w.manager.block_size ≤ n
      → ((c : PrefixCache) → prefix_cache w.manager ≡ some c → AdoptsPrefix blake2b c w.seq table)
      → IsAdmission w (
          admit blocks n (record {
            manager = record w.manager { allocator = p };
            seq = record w.seq { block_table = table };
          }))
  unfolding admit
  admit-IsAdmission w p table blocks n e l v k a = record {
    cached = n;
    returned = refl;
    progress = refl;
    covered = e;
    left = l;
    managed = record {
      blocks = blocks;
      known = ground (arith, get-put w.manager.state w.seq.seq_id w.seq.seq_id blocks);
      owned = v;
      complete = k;
    };
    adopts = a;
  }

  leaves_one : (n size hits : ℕ) → 0 < n → hits ≤ (n - 1) / size → hits * size < n
  leaves_one n size hits h k = grind arith

  adopted-IsAdmission :
      (w : Work) (found : PrefixMatch)
      (r : Result (Unit {0}) × (BlockAllocator PrefixCache × List ℕ))
      → found.block_size ≡ w.manager.block_size
      → num_tokens found < Sequence.num_tokens w.seq
      → Adopted F found.block_ids [] r
      → ((c : PrefixCache)
          → prefix_cache w.manager ≡ some c
          → AdoptsPrefix blake2b c w.seq found.block_ids)
      → IsAdmission w (adopted found w r)
  unfolding adopted
  adopted-IsAdmission w found (err x, (p, table)) e l v a = cc v.returned
  adopted-IsAdmission w found (ok u, (p, table)) e l v a =
      admit-IsAdmission w p table _ (num_tokens found)
        (ap₂ (λ t s. length t * s) (sym v.extended) e) l
        (subst (IsOwned F p table) (ap length v.extended) v.owned)
        (ground (arith, ap (λ s. length found.block_ids * s) (sym e)))
        (λ c g. subst (AdoptsPrefix blake2b c w.seq) (sym v.extended) (a c g))

  -- The matched tokens are fewer than the sequence's.
  pub match_leaves_one :
      (c : PrefixCache) (w : Work)
      → 0 < Sequence.num_tokens w.seq
      → c.block_size ≡ w.manager.block_size
      → num_tokens
          (find_match blake2b
            (token_ids w.seq)
            w.seq.lora_id
            (some (max_hit_blocks w.manager w.seq))
            true
            c).0
        < Sequence.num_tokens w.seq
  match_leaves_one c w h z =
      let cap : Option ℕ = some (max_hit_blocks w.manager w.seq) in
      let found = (find_match blake2b (token_ids w.seq) w.seq.lora_id cap true c).0 in
      let within =
        (find_match-IsLongestMatch blake2b (token_ids w.seq) w.seq.lora_id c cap true).0.within in
      subst (λ k. length found.block_ids * k < Sequence.num_tokens w.seq)
        (sym (found_size (token_ids w.seq) w.seq.lora_id cap c ∙ z))
        (leaves_one (Sequence.num_tokens w.seq) w.manager.block_size (length found.block_ids) h (
          omega (
            arith,
            within,
            num_full-le (token_ids w.seq) c.block_size (max_hit_blocks w.manager w.seq),
          )))

  allocate_with-IsAdmission :
      (o : Option PrefixCache) (w : Work)
      → prefix_cache w.manager ≡ o
      → w.seq.block_table ≡ []
      → 0 < Sequence.num_tokens w.seq
      → SameSize w.manager.block_size o
      → IsOwned F w.manager.allocator [] 0
      → IsAdmission w (allocate_with blake2b o w)
  unfolding allocate_with
  allocate_with-IsAdmission none w o e h z v =
      admit-IsAdmission w w.manager.allocator w.seq.block_table
        (record { hashes = []; num_published = 0 }) 0
        (ground (arith, ap length e, zero-mul w.manager.block_size)) h
        (subst (λ t. IsOwned F w.manager.allocator t 0) (sym e) v)
        (omega (arith, zero-mul w.manager.block_size)) (λ c g. cc (g, o))
  allocate_with-IsAdmission (some c) w o e h z v =
      adopted-IsAdmission w found.0 _ same bounded
        (subst (λ t. Adopted F found.0.block_ids [] (adopt_all found.0.block_ids (q, t))) (sym e)
          (adopt_all-Adopted F found.0.block_ids [] q
            (hits_cached tokens w.seq.lora_id cap c w.manager.allocator
              (subst IndexOf o v.pool.index))
            (recorded tokens w.seq.lora_id cap c w.manager.allocator o v)))
        (λ d g.
          let same : c ≡ d = cc (o, g) in
          subst (λ a. AdoptsPrefix blake2b a w.seq found.0.block_ids) same
            (match-AdoptsPrefix blake2b c w z))
    where
      tokens : List ℕ
      tokens = token_ids w.seq

      cap : Option ℕ
      cap = some (max_hit_blocks w.manager w.seq)

      found : PrefixMatch × PrefixCache
      found = find_match blake2b tokens w.seq.lora_id cap true c

      q : BlockAllocator PrefixCache
      q = record w.manager.allocator { recycler = some found.1 }

      same : found.0.block_size ≡ w.manager.block_size
      same = found_size tokens w.seq.lora_id cap c ∙ z

      bounded : num_tokens found.0 < Sequence.num_tokens w.seq
      bounded = match_leaves_one c w h z

  -- For a sequence with tokens and no block, in a manager whose cache has its block size, whatever
  -- the other sequences own: `allocate` raises nothing; with a cache, and a block size that is not
  -- zero, the new table is the longest run of blocks that the cache has for the hashes of the
  -- sequence's prefixes, short of its last token; `allocate` counts as computed the tokens that the
  -- blocks of the new table cover, leaves at least one token to compute, and keeps the pool's
  -- invariant, with every reference accounted for and the other sequences' private blocks
  -- untouched.
  pub allocate-IsAdmission :
      (w : Work)
      → w.seq.block_table ≡ []
      → 0 < Sequence.num_tokens w.seq
      → SameSize w.manager.block_size (prefix_cache w.manager)
      → IsOwned F w.manager.allocator [] 0
      → IsAdmission w (allocate blake2b w)
  unfolding allocate
  allocate-IsAdmission w e h z v =
      rw (ap length e) (allocate_with-IsAdmission (prefix_cache w.manager) w refl e h z v)
