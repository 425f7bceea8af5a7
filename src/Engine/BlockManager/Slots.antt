-- ===== src/Engine/BlockManager/Slots.antt =====
-- `append_slots` of BlockManager: when it succeeds, which slots it returns, and what it keeps.
use turboserve.Prelude.{
  ℕ, zero, suc, ◌+◌, ◌-◌, ◌*◌, ◌/◌, ◌%◌, ◌≤◌, ◌<◌, ◌≡◌, refl, ap, subst, false, some, List, [], ◌∷◌,
  ◌++◌, inl, inr, arith, length, length-append, get_elem?, ltb, leb, if◌then◌else◌, Bool-cases,
  Result, ok, err, Error, out_of_blocks, is_ok, Result-cases, get_elem?-lt,
}
use turboserve.Prelude.Keys.{nat_eq}
use turboserve.Engine.BlockAllocator.{BlockAllocator, num_allocatable, allocate}
use turboserve.Engine.BlockAllocator.Custody.{allocate-ok_iff, allocate-err}
use turboserve.Engine.BlockAllocator.Totals.{allocate-num_allocatable}
use turboserve.Engine.PrefixCache.{PrefixCache, is_some}
use turboserve.Engine.PrefixCache.Recycling.{cache_recycler, cache_laws, held_by}
use turboserve.Engine.Sequence
use turboserve.Engine.Sequence.{Sequence, ceil_div}
use turboserve.Engine.BlockManager.{Work}
use turboserve.Engine.BlockManager.Growth.{
  can_append, slot_at, slots_from, slot_mapping, grow, mapped, append_slots,
}
use turboserve.Engine.BlockManager.Pool.{IsPool}
use turboserve.Engine.BlockManager.PoolSteps.{allocate-IsPool}
use turboserve.Engine.BlockManager.Ownership.{Frame, IsOwned, grow-IsOwned, IsPrivate}
use turboserve.Engine.BlockManager.Adoption.{IsManaged}
use native.Mathlib.Nat.{add-zero, add-suc, suc-add, le_trans}

-- The loop takes its blocks exactly if the pool has as many, and otherwise raises OutOfBlocksError.
abbrev Grown : ℕ → ℕ → List ℕ → Result (Unit {0}) × (BlockAllocator PrefixCache × List ℕ) → Type 0
Grown n available table r =
    if leb n available
    then (r.0 ≡ ok tt) × (length r.1.1 ≡ length table + n)
    else (r.0 ≡ err out_of_blocks) × (length r.1.1 ≤ length table + n)

grow-Grown :
    (n : ℕ) (p : BlockAllocator PrefixCache) (table : List ℕ)
    → IsPool p
    → Grown n (num_allocatable p) table (grow n (p, table))
unfolding grow
grow-Grown zero p table v = ground arith
grow-Grown (suc n) p table v = elim (Result-cases (allocate p).0) [
  | inl (b, e) ↦
      rw (e, grow)
        (ground (
          arith,
          (allocate-num_allocatable p v.partition e).0,
          length-append table (b ∷ []),
          grow-Grown n (allocate p).1 (table ++ b ∷ []) (allocate-IsPool p v),
        ))
  | inr (x, e) ↦ rw (e, grow) (refused x e)
]
  where
    refused :
        (x : Error)
        → (allocate p).0 ≡ err x
        → Grown (suc n) (num_allocatable p) table (err x, ((allocate p).1, table))
    refused x e = elim (Bool-cases (ltb 0 (num_allocatable p))) [
      | inl h ↦ cc (e, h, allocate-ok_iff held_by cache_laws p v.partition v.in_custody)
      | inr h ↦ ground (arith, e, allocate-err held_by cache_laws p)
    ]

-- One slot for each position: its block, from the table, times the block size, plus the offset.
pub record IsSlots (size : ℕ) (table : List ℕ) (start n : ℕ) (slots : List ℕ) : Type 0 where
  pub sized : length slots ≡ n
  pub slot :
      (i : ℕ)
      → i < n
      → (b : ℕ) × (get_elem? table ((start + i) / size) ≡ some b)
        × (get_elem? slots i ≡ some (b * size + (start + i) % size))

div_lt : (position size blocks : ℕ) → 0 < size → position < blocks * size → position / size < blocks
div_lt position size blocks h k = grind arith

slots_from-IsSlots :
    (n size start : ℕ) (table : List ℕ)
    → 0 < size
    → start + n ≤ length table * size
    → (slots : List ℕ) × (slots_from size table start n ≡ ok slots)
      × IsSlots size table start n slots
unfolding slots_from slot_at
slots_from-IsSlots zero size start table h k =
    ([], refl, record { sized = refl; slot = λ i l. elim l [ ] })
slots_from-IsSlots (suc n) size start table h k =
    let (b, e) =
      get_elem?-lt table (start / size) (div_lt start size (length table) h (omega arith)) in
    let (rest, f, s) = slots_from-IsSlots n size (suc start) table h (omega arith) in
    (
      (b * size + start % size) ∷ rest,
      rw (e, slot_at, f, slots_from) refl,
      record { sized = ap suc s.sized; slot = at b rest e s },
    )
  where
    at :
        (b : ℕ) (rest : List ℕ)
        → get_elem? table (start / size) ≡ some b
        → IsSlots size table (suc start) n rest
        → (i : ℕ) → i < suc n
        → (a : ℕ) × (get_elem? table ((start + i) / size) ≡ some a)
          × (get_elem? ((b * size + start % size) ∷ rest) i ≡ some (a * size + (start + i) % size))
    at b rest e s zero l = (b, rw add-zero e, rw add-zero refl)
    at b rest e s (suc i) l = rw (add-suc, ← suc-add) (s.slot i (omega arith))

-- What `append_slots` does to a managed sequence that has the tokens.
pub record IsAppended (F : Frame) (n : ℕ) (w : Work) (r : Result (List ℕ) × Work) : Type 0 where
  pub managed : IsManaged F r.1
  pub same_size : r.1.manager.block_size ≡ w.manager.block_size
  pub same_progress : r.1.seq.num_computed_tokens ≡ w.seq.num_computed_tokens
  -- It succeeds exactly if `can_append` says so, and otherwise the pool has run out.
  pub outcome : is_ok r.0 ≡ can_append w.manager w.seq n
  pub exhausted : (x : Error) → r.0 ≡ err x → x ≡ out_of_blocks
  pub slots :
      (l : List ℕ)
      → r.0 ≡ ok l
      → IsSlots w.manager.block_size r.1.seq.block_table w.seq.num_computed_tokens n l

-- `ceil_div n size` blocks hold `n` tokens.
ceil_div_covers : (n size : ℕ) → 0 < size → n ≤ ceil_div n size * size
ceil_div_covers n size h = grind arith

mul_le : (a b size : ℕ) → a ≤ b → a * size ≤ b * size
mul_le a b size h = grind arith

no_overrun : (a b : ℕ) → a ≤ b → ltb b a ≡ false
no_overrun a b h = ground arith

div_ge : (p c i size : ℕ) → 0 < size → p * size ≤ c → p ≤ (c + i) / size
div_ge p c i size h k = grind arith

module _ (F : Frame) where
  mapped-IsAppended :
      (n need : ℕ) (w : Work) (v : IsManaged F w)
      → need
        ≡ ceil_div (w.seq.num_computed_tokens + n) w.manager.block_size - length w.seq.block_table
      → 0 < w.manager.block_size
      → w.seq.num_computed_tokens + n ≤ Sequence.num_tokens w.seq
      → (r : Result (Unit {0}) × (BlockAllocator PrefixCache × List ℕ))
      → Grown need (num_allocatable w.manager.allocator) w.seq.block_table r
      → IsOwned F r.1.0 r.1.1 (IsManaged.blocks v).num_published
      → IsAppended F n w (mapped w.seq.num_computed_tokens n w r)
  unfolding mapped slot_mapping can_append
  mapped-IsAppended n need w v d h k (err x, (p, table)) g o = record {
    managed = record { blocks = v.blocks; known = v.known; owned = o; complete = v.complete };
    same_size = refl;
    same_progress = refl;
    outcome = ground (arith, g, d);
    exhausted = λ y e. ground (arith, g);
    slots = λ l e. cc;
  }
  mapped-IsAppended n need w v d h k (ok u, (p, table)) g o = record {
    managed = record { blocks = v.blocks; known = v.known; owned = o; complete = v.complete };
    same_size = refl;
    same_progress = refl;
    outcome = ground (arith, g, d, found.1);
    exhausted = λ y e. cc (e, found.1);
    slots = λ l e.
        subst (IsSlots w.manager.block_size table w.seq.num_computed_tokens n) (cc (e, found.1))
          found.2;
  }
    where
      long : ceil_div (w.seq.num_computed_tokens + n) w.manager.block_size ≤ length table
      long = ground (arith, g, d)

      found :
          (l : List ℕ) × (slots_from w.manager.block_size table w.seq.num_computed_tokens n ≡ ok l)
          × IsSlots w.manager.block_size table w.seq.num_computed_tokens n l
      found = slots_from-IsSlots n w.manager.block_size w.seq.num_computed_tokens table h (
          le_trans (ceil_div_covers (w.seq.num_computed_tokens + n) w.manager.block_size h)
            (mul_le _ _ w.manager.block_size long))

  -- For a managed sequence that holds the tokens to be computed, whatever the other sequences own:
  -- `append_slots` succeeds exactly when `can_append` says that it would, raises nothing but
  -- OutOfBlocksError, returns the slot of each new position, and in either case leaves the sequence
  -- managed and the frame's references and private blocks untouched.
  pub append_slots-IsAppended :
      (n : ℕ) (w : Work)
      → IsManaged F w
      → 0 < w.manager.block_size
      → w.seq.num_computed_tokens + n ≤ Sequence.num_tokens w.seq
      → IsAppended F n w (append_slots n w)
  unfolding append_slots
  append_slots-IsAppended n w v h k =
      rw
        (
          ap is_some v.known,
          no_overrun (w.seq.num_computed_tokens + n) (Sequence.num_tokens w.seq) k,
        )
        (mapped-IsAppended n need w v refl h k (grow need (w.manager.allocator, w.seq.block_table))
          (grow-Grown need w.manager.allocator w.seq.block_table v.owned.pool)
          (grow-IsOwned F need w.manager.allocator w.seq.block_table v.blocks.num_published
            v.owned))
    where
      need : ℕ
      need =
          ceil_div (w.seq.num_computed_tokens + n) w.manager.block_size - length w.seq.block_table

  -- The slots that `append_slots` returns lie in blocks that no other sequence and no cache entry
  -- refers to: a step never writes into shared KV.
  pub append_slots-IsPrivate :
      (n : ℕ) (w : Work) {l : List ℕ}
      → IsManaged F w
      → 0 < w.manager.block_size
      → w.seq.num_computed_tokens + n ≤ Sequence.num_tokens w.seq
      → (append_slots n w).0 ≡ ok l
      → (i : ℕ) → i < n
      → (b : ℕ) × (get_elem? l i
          ≡ some
              (b * w.manager.block_size + (w.seq.num_computed_tokens + i) % w.manager.block_size))
        × IsPrivate (append_slots n w).1.manager.allocator b
  append_slots-IsPrivate n w v h k e i lt =
      let a = append_slots-IsAppended n w v h k in
      let (b, f, g) = (a.slots _ e).slot i lt in
      (
        b,
        g,
        a.managed.owned.own ((w.seq.num_computed_tokens + i) / w.manager.block_size) b
            (div_ge a.managed.blocks.num_published w.seq.num_computed_tokens i w.manager.block_size
              h (ground (arith, a.managed.complete, a.same_size, a.same_progress)))
            f,
      )
