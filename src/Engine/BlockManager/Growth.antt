-- ===== src/Engine/BlockManager/Growth.antt =====
-- BlockManager: `can_append`, `append_slots` and `slot_mapping`.
use turboserve.Prelude.{
  ℕ, zero, suc, ◌+◌, ◌-◌, ◌*◌, ◌/◌, ◌%◌, Bool, false, none, some, List, [], ◌∷◌, ◌++◌, length,
  get_elem?, ltb, leb, if◌then◌else◌, Result, ok, err, value_error, Exec,
}
use turboserve.Prelude.Dict.{get}
use turboserve.Prelude.Keys.{nat_eq}
use turboserve.Engine.BlockAllocator
use turboserve.Engine.BlockAllocator.{BlockAllocator}
use turboserve.Engine.PrefixCache.{PrefixCache, is_some}
use turboserve.Engine.PrefixCache.Recycling.{cache_recycler}
use turboserve.Engine.Sequence
use turboserve.Engine.Sequence.{Sequence, ceil_div}
use turboserve.Engine.BlockManager.{BlockManager, Work}

-- `needed - len(block_table) <= num_allocatable`, over the integers.
unfoldable pub can_append : BlockManager → Sequence → ℕ → Bool
can_append m s n =
    let end = s.num_computed_tokens + n in
    if ltb (Sequence.num_tokens s) end
    then false
    else leb (ceil_div end m.block_size)
        (BlockAllocator.num_allocatable m.allocator + length s.block_table)

-- One slot, `table[position // size] * size + position % size`, if the table reaches that far.
unfoldable pub slot_at : ℕ → List ℕ → ℕ → Result ℕ
slot_at size table position = elim (get_elem? table (position / size)) [
  | none ↦ err value_error
  | some b ↦ ok (b * size + position % size)
]

-- The loop over `range(position, position + n)`.
unfoldable pub slots_from : ℕ → List ℕ → ℕ → ℕ → Result (List ℕ)
unfolding slot_at
slots_from size table position zero = ok []
slots_from size table position (suc n) = elim (slot_at size table position) [
  | err e ↦ err e
  | ok slot ↦ elim (slots_from size table (suc position) n) [
    | ok slots ↦ ok (slot ∷ slots)
    | err e ↦ err e
  ]
]

unfoldable pub slot_mapping : BlockManager → Sequence → ℕ → ℕ → Result (List ℕ)
unfolding slots_from
slot_mapping m s start n = slots_from m.block_size s.block_table start n

-- The `while` loop of `append_slots`, for the blocks that are missing.
unfoldable pub grow : ℕ → Exec (BlockAllocator PrefixCache × List ℕ) (Unit {0})
unfolding BlockAllocator.allocate
grow zero s = (ok tt, s)
grow (suc n) (p, table) = elim (BlockAllocator.allocate p).0 [
  | err e ↦ (err e, ((BlockAllocator.allocate p).1, table))
  | ok b ↦ grow n ((BlockAllocator.allocate p).1, table ++ b ∷ [])
]

unfoldable pub mapped :
    ℕ
    → ℕ
    → Work
    → Result (Unit {0}) × (BlockAllocator PrefixCache × List ℕ)
    → Result (List ℕ) × Work
unfolding slot_mapping
mapped start n w (r, (p, table)) =
    let w' : Work = record {
      manager = record w.manager { allocator = p };
      seq = record w.seq { block_table = table };
    } in
    elim r [ err e ↦ (err e, w') | ok u ↦ (slot_mapping w'.manager w'.seq start n, w') ]

unfoldable pub append_slots : ℕ → Exec Work (List ℕ)
unfolding mapped grow
append_slots n w =
    let start = w.seq.num_computed_tokens in
    let end = start + n in
    if is_some (get w.manager.state w.seq.seq_id)
    then if ltb (Sequence.num_tokens w.seq) end
      then (err value_error, w)
      else mapped start n w (
          grow (ceil_div end w.manager.block_size - length w.seq.block_table)
            (w.manager.allocator, w.seq.block_table))
    else (err value_error, w)
