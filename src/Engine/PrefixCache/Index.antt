-- ===== src/Engine/PrefixCache/Index.antt =====
-- The two indexes of PrefixCache and its evictable blocks: what `check_invariants` checks, and the
-- operations of the cache.
use turboserve.Prelude.{
  ℕ, zero, suc, ◌≤◌, ◌≡◌, refl, ap, Option, none, some, List, [], ◌∷◌, inl, inr, arith, count,
  count-nil, count-cons, count-append, count-discard, ◌==◌, ==_iff, if◌then◌else◌, Bool-cases,
  discard, sym, ◌∙◌,
}
use turboserve.Prelude.Dict.{get, get-nil, get-put, get-remove}
use turboserve.Prelude.Keys.{nat_eq, bytes_eq, bytes_beq_iff}
use turboserve.Engine.PrefixCache.{
  Digest, Entry, PrefixCache, empty, is_some, contains_block, insert_new, insert_at, insert,
  acquire, release, forget, evict_from, evict, remove_entry, remove_block, remove_many, reset,
  reset_stats,
}

abbrev pub entry : ℕ → Digest → Entry
entry b h = record { block_id = b; block_hash = h }

pub record IsIndex (c : PrefixCache) : Type 0 where
  -- A block's entry names the block, which its hash finds.
  pub owned :
      (b : ℕ) (e : Entry)
      → get c.by_block b ≡ some e
      → (e.block_id ≡ b) × (get c.by_hash e.block_hash ≡ some b)
  -- What a hash finds has an entry with that hash.
  pub found : (h : Digest) (b : ℕ) → get c.by_hash h ≡ some b → get c.by_block b ≡ some (entry b h)
  -- An evictable block stands once in the order, and is cached.
  pub cached : (b : ℕ) → count b c.evictable ≤ (if is_some (get c.by_block b) then 1 else 0)

pub empty-IsIndex : (size : ℕ) → IsIndex (empty size)
empty-IsIndex size = record {
  owned = λ b e p. cc (get-nil {K = ℕ} {V = Entry} b);
  found = λ h b p. cc (get-nil {K = Digest} {V = ℕ} h);
  cached = λ b. ground (arith, count-nil b);
}

insert_new-IsIndex :
    (o : Option ℕ) (b : ℕ) (h : Digest) (c : PrefixCache)
    → get c.by_hash h ≡ o
    → get c.by_block b ≡ none
    → IsIndex c
    → IsIndex (insert_new o b h c).1
unfolding insert_new
insert_new-IsIndex (some other) b h c p q v = v
insert_new-IsIndex none b h c p q v = record {
  owned = λ a e r. ground (
    arith,
    get-put c.by_block b a (entry b h),
    get-put c.by_hash h e.block_hash b,
    bytes_beq_iff h e.block_hash,
    v.owned a e,
  );
  found = λ k a r. ground (
    arith,
    get-put c.by_block b a (entry b h),
    get-put c.by_hash h k b,
    bytes_beq_iff h k,
    v.found k a,
  );
  cached = λ a. ground (arith, get-put c.by_block b a (entry b h), v.cached a);
}

insert_at-IsIndex :
    (o : Option Entry) (b : ℕ) (h : Digest) (c : PrefixCache)
    → get c.by_block b ≡ o
    → IsIndex c
    → IsIndex (insert_at o b h c).1
unfolding insert_at
insert_at-IsIndex none b h c q v = insert_new-IsIndex (get c.by_hash h) b h c refl q v
insert_at-IsIndex (some e) b h c q v = ground arith

pub insert-IsIndex : (b : ℕ) (h : Digest) (c : PrefixCache) → IsIndex c → IsIndex (insert b h c).1
unfolding insert
insert-IsIndex b h c v = insert_at-IsIndex (get c.by_block b) b h c refl v

pub acquire-IsIndex : (b : ℕ) (c : PrefixCache) → IsIndex c → IsIndex (acquire b c)
unfolding acquire
acquire-IsIndex b c v = record {
  owned = v.owned;
  found = v.found;
  cached = λ a. ground (arith, count-discard a b c.evictable, v.cached a);
}

pub release-IsIndex : (b : ℕ) (c : PrefixCache) → IsIndex c → IsIndex (release b c).1
unfolding release contains_block
release-IsIndex b c v = elim (Bool-cases (is_some (get c.by_block b))) [
  | inr h ↦ rw h v
  | inl h ↦ rw h (record {
    owned = v.owned;
    found = v.found;
    cached = λ a. ground (
      arith,
      h,
      v.cached a,
      count-append a (discard b c.evictable) (b ∷ []),
      count-cons a b [],
      count-nil a,
      count-discard a b c.evictable,
    );
  })
]

-- Without its order of evictable blocks.
record IsIndexBut (c : PrefixCache) : Type 0 where
  owned :
      (b : ℕ) (e : Entry)
      → get c.by_block b ≡ some e
      → (e.block_id ≡ b) × (get c.by_hash e.block_hash ≡ some b)
  found : (h : Digest) (b : ℕ) → get c.by_hash h ≡ some b → get c.by_block b ≡ some (entry b h)

forget-IsIndexBut :
    (o : Option Entry) (b : ℕ) (c : PrefixCache)
    → get c.by_block b ≡ o
    → IsIndexBut c
    → IsIndexBut (forget o b c)
unfolding forget
forget-IsIndexBut none b c p v = v
forget-IsIndexBut (some e) b c p v = record {
  owned = λ a f r. ground (
    arith,
    get-remove c.by_block b a,
    get-remove c.by_hash e.block_hash f.block_hash,
    bytes_beq_iff e.block_hash f.block_hash,
    v.owned a f,
    v.owned b e,
    v.found f.block_hash a,
  );
  found = λ h a r. ground (
    arith,
    get-remove c.by_block b a,
    get-remove c.by_hash e.block_hash h,
    bytes_beq_iff e.block_hash h,
    v.found h a,
    v.owned b e,
  );
}

pub get-forget :
    (o : Option Entry) (b a : ℕ) (c : PrefixCache)
    → get c.by_block b ≡ o
    → get (forget o b c).by_block a ≡ (if b == a then none else get c.by_block a)
unfolding forget
get-forget none b a c p = elim (Bool-cases (b == a)) [
  | inl e ↦ rw e (ap (get c.by_block) (sym ((==_iff b a).0 e)) ∙ p)
  | inr e ↦ rw e refl
]
get-forget (some e) b a c p = get-remove c.by_block b a

abbrev Fits : List ℕ → PrefixCache → Type 0
Fits l c = (a : ℕ) → count a l ≤ (if is_some (get c.by_block a) then 1 else 0)

evict_from-IsIndex :
    (n : ℕ) (l : List ℕ) (c : PrefixCache) → IsIndexBut c → Fits l c → IsIndex (evict_from n l c).1
unfolding evict_from
evict_from-IsIndex zero l c v f = record { owned = v.owned; found = v.found; cached = f }
evict_from-IsIndex (suc n) [] c v f = record { owned = v.owned; found = v.found; cached = f }
evict_from-IsIndex (suc n) (b ∷ l) c v f =
    evict_from-IsIndex n l (forget (get c.by_block b) b c)
      (forget-IsIndexBut (get c.by_block b) b c refl v)
      (λ a. ground (arith, get-forget (get c.by_block b) b a c refl, f a, count-cons a b l))

pub evict-IsIndex : (n : ℕ) (c : PrefixCache) → IsIndex c → IsIndex (evict n c).1
unfolding evict
evict-IsIndex n c v =
    let w =
      evict_from-IsIndex n c.evictable c (record { owned = v.owned; found = v.found }) v.cached in
    record { owned = w.owned; found = w.found; cached = w.cached }

remove_entry-IsIndex :
    (o : Option Entry) (b : ℕ) (c : PrefixCache)
    → get c.by_block b ≡ o
    → IsIndex c
    → IsIndex (remove_entry o b c).1
unfolding remove_entry
remove_entry-IsIndex none b c p v = v
remove_entry-IsIndex (some e) b c p v =
    let w = forget-IsIndexBut (some e) b c p (record { owned = v.owned; found = v.found }) in
    record {
      owned = w.owned;
      found = w.found;
      cached = λ a.
          ground (arith, get-forget (some e) b a c p, v.cached a, count-discard a b c.evictable);
    }

pub remove_block-IsIndex : (b : ℕ) (c : PrefixCache) → IsIndex c → IsIndex (remove_block b c).1
unfolding remove_block
remove_block-IsIndex b c v = remove_entry-IsIndex (get c.by_block b) b c refl v

remove_many-IsIndex : (bs : List ℕ) (c : PrefixCache) → IsIndex c → IsIndex (remove_many bs c).1
unfolding remove_many
remove_many-IsIndex [] c v = v
remove_many-IsIndex (b ∷ bs) c v =
    remove_many-IsIndex bs (remove_block b c).1 (remove_block-IsIndex b c v)

reset-IsIndex : (c : PrefixCache) → IsIndex (reset c)
unfolding reset
reset-IsIndex c =
    let w = empty-IsIndex c.block_size in
    record { owned = w.owned; found = w.found; cached = w.cached }

reset_stats-IsIndex : (c : PrefixCache) → IsIndex c → IsIndex (reset_stats c)
unfolding reset_stats
reset_stats-IsIndex c v = record { owned = v.owned; found = v.found; cached = v.cached }

-- The calls that change the cache; `find_match` changes the statistics alone.
pub data Op : Type 0 where
  inserts : ℕ → Digest → Op
  acquires releases evicts removes : ℕ → Op
  removes_many : List ℕ → Op
  resets resets_stats : Op

unfoldable pub step : Op → PrefixCache → PrefixCache
step (inserts b h) c = (insert b h c).1
step (acquires b) c = acquire b c
step (releases b) c = (release b c).1
step (evicts n) c = (evict n c).1
step (removes b) c = (remove_block b c).1
step (removes_many bs) c = (remove_many bs c).1
step resets c = reset c
step resets_stats c = reset_stats c

unfoldable pub run : List Op → PrefixCache → PrefixCache
unfolding step
run [] c = c
run (o ∷ os) c = run os (step o c)

step-IsIndex : (o : Op) (c : PrefixCache) → IsIndex c → IsIndex (step o c)
unfolding step
step-IsIndex (inserts b h) c v = insert-IsIndex b h c v
step-IsIndex (acquires b) c v = acquire-IsIndex b c v
step-IsIndex (releases b) c v = release-IsIndex b c v
step-IsIndex (evicts n) c v = evict-IsIndex n c v
step-IsIndex (removes b) c v = remove_block-IsIndex b c v
step-IsIndex (removes_many bs) c v = remove_many-IsIndex bs c v
step-IsIndex resets c v = reset-IsIndex c
step-IsIndex resets_stats c v = reset_stats-IsIndex c v

run-IsIndex : (os : List Op) (c : PrefixCache) → IsIndex c → IsIndex (run os c)
unfolding run
run-IsIndex [] c v = v
run-IsIndex (o ∷ os) c v = run-IsIndex os (step o c) (step-IsIndex o c v)

-- From the empty cache, any sequence of inserts (those that raise included), acquires, releases,
-- evictions, removals and resets leads to a cache whose two indexes are inverse to one another and
-- whose evictable blocks stand once in the order and are cached.
pub run-empty-IsIndex : (size : ℕ) (os : List Op) → IsIndex (run os (empty size))
run-empty-IsIndex size os = run-IsIndex os (empty size) (empty-IsIndex size)
