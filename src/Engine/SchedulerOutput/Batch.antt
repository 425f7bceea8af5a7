-- ===== src/Engine/SchedulerOutput/Batch.antt =====
-- A step's entries, and the metadata that is built from them.
use turboserve.Prelude.{
  ℕ, ◌+◌, ◌*◌, ◌≤◌, ◌<◌, ◌≡◌, refl, sym, ap, ◌∙◌, false, none, some, List, [], ◌∷◌, ◌++◌, map,
  arith, length, length-append, ◌==◌, ok,
}
use turboserve.Engine.Sequence.{ceil_div}
use turboserve.Engine.AttnMetadata.{
  AttnMetadata, validate, maximum, build_query_start_loc, pad_row, pad_block_tables,
}
use turboserve.Engine.AttnMetadata.Built.{Entry, AreCovered, validate-ok, sum, length-map}
use turboserve.Engine.SchedulerOutput.{
  ScheduledSeq, SchedulerOutput, checked, check_tables, metadata_of, build_attn_metadata,
  concat_map,
}

-- The lengths fit, and the block table covers the context.
pub record IsShare (block_size : ℕ) (item : ScheduledSeq) : Type 0 where
  pub computes : 0 < item.num_new_tokens
  pub tokens : length item.token_ids ≡ item.num_new_tokens
  pub slots : length item.slot_mapping ≡ item.num_new_tokens
  pub context : item.num_new_tokens ≤ item.context_len
  pub covers : item.context_len ≤ length item.block_table * block_size

abbrev pub AreShares : ℕ → List ScheduledSeq → Type 0
AreShares block_size [] = Unit
AreShares block_size (item ∷ items) = IsShare block_size item × AreShares block_size items

pub AreShares-append :
    (block_size : ℕ) (xs ys : List ScheduledSeq)
    → AreShares block_size xs
    → AreShares block_size ys
    → AreShares block_size (xs ++ ys)
AreShares-append block_size [] ys v w = w
AreShares-append block_size (x ∷ xs) ys v w = (v.0, AreShares-append block_size xs ys v.1 w)

pub checked-ok :
    (block_size : ℕ) (item : ScheduledSeq) → IsShare block_size item → checked item ≡ ok item
unfolding checked
checked-ok block_size item v = ground (arith, v.computes, v.tokens, v.slots, v.context)

check_tables-ok :
    (block_size : ℕ) (items : List ScheduledSeq)
    → AreShares block_size items
    → check_tables block_size items ≡ ok tt
unfolding check_tables
check_tables-ok block_size [] v = refl
check_tables-ok block_size (item ∷ items) v =
    ground (arith, v.0.covers, check_tables-ok block_size items v.1)

abbrev entry_of : ScheduledSeq → Entry
entry_of item = record {
  query_len = item.num_new_tokens;
  context_len = item.context_len;
  blocks = item.block_table;
}

ceil_div-le : (n len size : ℕ) → 0 < size → n ≤ len * size → ceil_div n size ≤ len
ceil_div-le n len size h g = grind arith

AreCovered-shares :
    (block_size : ℕ) (items : List ScheduledSeq)
    → 0 < block_size
    → AreShares block_size items
    → AreCovered block_size (map entry_of items)
AreCovered-shares block_size [] h v = tt
AreCovered-shares block_size (item ∷ items) h v = (
  record {
    attends = v.0.context;
    covers = ceil_div-le item.context_len (length item.block_table) block_size h v.0.covers;
  },
  AreCovered-shares block_size items h v.1,
)

map-map_entry {ℓ} :
    {B : Type ℓ} (f : Entry → B) (items : List ScheduledSeq)
    → map f (map entry_of items) ≡ map (λ item. f (entry_of item)) items
map-map_entry f [] = refl
map-map_entry f (item ∷ items) = ap (◌∷◌ (f (entry_of item))) (map-map_entry f items)

slots_total :
    (block_size : ℕ) (items : List ScheduledSeq)
    → AreShares block_size items
    → length (concat_map ScheduledSeq.slot_mapping items)
      ≡ sum (map ScheduledSeq.num_new_tokens items)
unfolding concat_map sum
slots_total block_size [] v = refl
slots_total block_size (item ∷ items) v = omega (
  arith,
  length-append item.slot_mapping (concat_map ScheduledSeq.slot_mapping items),
  v.0.slots,
  slots_total block_size items v.1,
)

pad_rows :
    (width : ℕ) (items : List ScheduledSeq)
    → map (pad_row width) (map ScheduledSeq.block_table items)
      ≡ map (λ (e : Entry). pad_row width e.blocks) (map entry_of items)
pad_rows width [] = refl
pad_rows width (item ∷ items) = ap (◌∷◌ (pad_row width item.block_table)) (pad_rows width items)

-- For a batch that is not empty, of entries whose lengths fit and whose block tables cover their
-- contexts, `build_attn_metadata` raises nothing, and what it builds passes `validate` with the
-- block size.
pub build_attn_metadata-validate :
    (block_size : ℕ) (out : SchedulerOutput)
    → 0 < block_size
    → 0 < length out.scheduled
    → AreShares block_size out.scheduled
    → out.num_prefill_seqs + out.num_decode_seqs ≡ length out.scheduled
    → (m : AttnMetadata) × (build_attn_metadata block_size none out ≡ ok m)
      × (validate (some block_size) m ≡ ok tt)
unfolding build_attn_metadata metadata_of pad_block_tables
build_attn_metadata-validate block_size out h l v n = (
  built,
  rw
      (
        not_zero (length out.scheduled) l,
        not_zero block_size h,
        check_tables-ok block_size out.scheduled v,
      )
      refl,
  validate-ok block_size width (map entry_of out.scheduled) built
      (AreCovered-shares block_size out.scheduled h v)
      (record {
        tables = pad_rows width out.scheduled;
        contexts = sym (map-map_entry Entry.context_len out.scheduled);
        locs = ap build_query_start_loc queries;
        slots = slots_total block_size out.scheduled v ∙ ap sum queries;
        seqs = n ∙ sym (length-map entry_of out.scheduled);
        longest_query = ap maximum queries;
        longest_context = ap maximum (sym (map-map_entry Entry.context_len out.scheduled));
      }),
)
  where
    not_zero : (k : ℕ) → 0 < k → (k == 0) ≡ false
    not_zero k g = ground arith

    width : ℕ
    width = maximum (map length (map ScheduledSeq.block_table out.scheduled))

    queries :
        map ScheduledSeq.num_new_tokens out.scheduled
        ≡ map Entry.query_len (map entry_of out.scheduled)
    queries = sym (map-map_entry Entry.query_len out.scheduled)

    built : AttnMetadata
    built = record {
      slot_mapping = concat_map ScheduledSeq.slot_mapping out.scheduled;
      block_tables = map (pad_row width) (map ScheduledSeq.block_table out.scheduled);
      context_lens = map ScheduledSeq.context_len out.scheduled;
      query_start_loc = build_query_start_loc (map ScheduledSeq.num_new_tokens out.scheduled);
      max_query_len = maximum (map ScheduledSeq.num_new_tokens out.scheduled);
      max_context_len = maximum (map ScheduledSeq.context_len out.scheduled);
      num_prefill_seqs = out.num_prefill_seqs;
      num_decode_seqs = out.num_decode_seqs;
    }
