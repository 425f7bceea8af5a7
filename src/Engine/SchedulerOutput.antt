-- ===== src/Engine/SchedulerOutput.antt =====
-- ScheduledSeq and SchedulerOutput (turboserve/engine/core/scheduler.py): one step's batch. An entry
-- refers to its sequence by the id; what it reads of the sequence later it reads from the store.
pub mod Batch
use turboserve.Prelude.{
  ℕ, ◌+◌, ◌-◌, ◌*◌, Bool, true, false, not, Option, none, some, List, [], ◌∷◌, ◌++◌, map, length,
  replicate, range_from, ltb, ◌==◌, if◌then◌else◌, Result, ok, err, value_error,
}
use turboserve.Engine.Sequence.{Sequence}
use turboserve.Engine.AttnMetadata.{
  AttnMetadata, build_query_start_loc, pad_block_tables, maximum, require,
}

pub record ScheduledSeq : Type 0 where
  pub seq_id : ℕ
  pub num_new_tokens : ℕ
  pub context_len : ℕ
  pub token_ids : List ℕ
  pub slot_mapping : List ℕ
  pub block_table : List ℕ
  pub is_prefill : Bool
  pub is_chunk : Bool
  pub num_cached_tokens : ℕ

-- `__post_init__`
unfoldable pub checked : ScheduledSeq → Result ScheduledSeq
checked item =
    if item.num_new_tokens == 0
    then err value_error
    else require (length item.token_ids == item.num_new_tokens) (
        require (length item.slot_mapping == item.num_new_tokens)
          (if ltb item.context_len item.num_new_tokens then err value_error else ok item))

abbrev pub samples_token : ScheduledSeq → Bool
samples_token item = not item.is_chunk

abbrev pub item_positions : ScheduledSeq → List ℕ
item_positions item = range_from (item.context_len - item.num_new_tokens) item.num_new_tokens

pub record SchedulerOutput : Type 0 where
  pub scheduled : List ScheduledSeq
  pub preempted : List ℕ
  pub num_prefill_tokens : ℕ
  pub num_decode_tokens : ℕ
  pub num_prefill_seqs : ℕ
  pub num_decode_seqs : ℕ
  pub num_cached_tokens : ℕ

abbrev pub num_batched_tokens : SchedulerOutput → ℕ
num_batched_tokens out = out.num_prefill_tokens + out.num_decode_tokens

abbrev pub num_seqs : SchedulerOutput → ℕ
num_seqs out = length out.scheduled

abbrev pub sequences : SchedulerOutput → List ℕ
sequences out = map ScheduledSeq.seq_id out.scheduled

unfoldable pub sampled_of : List ScheduledSeq → List ScheduledSeq
sampled_of [] = []
sampled_of (item ∷ items) =
    let rest = sampled_of items in if samples_token item then item ∷ rest else rest

abbrev pub sampled : SchedulerOutput → List ScheduledSeq
sampled out = sampled_of out.scheduled

unfoldable pub indices_from : ℕ → List ScheduledSeq → List ℕ
indices_from offset [] = []
indices_from offset (item ∷ items) =
    let rest = indices_from (offset + item.num_new_tokens) items in
    if samples_token item then (offset + item.num_new_tokens - 1) ∷ rest else rest

abbrev pub sample_indices : SchedulerOutput → List ℕ
sample_indices out = indices_from 0 out.scheduled

-- `[x for item in items for x in f(item)]`
unfoldable pub concat_map : (ScheduledSeq → List ℕ) → List ScheduledSeq → List ℕ
concat_map f [] = []
concat_map f (item ∷ items) = f item ++ concat_map f items

abbrev pub input_token_ids : SchedulerOutput → List ℕ
input_token_ids out = concat_map ScheduledSeq.token_ids out.scheduled

abbrev pub positions : SchedulerOutput → List ℕ
positions out = concat_map item_positions out.scheduled

abbrev pub token_lora_ids : (ℕ → Sequence) → SchedulerOutput → List ℕ
token_lora_ids store out =
    concat_map (λ item. replicate item.num_new_tokens (Sequence.lora_id (store item.seq_id)))
      out.scheduled

-- The loop of `build_attn_metadata` raises if a block table is short.
unfoldable pub check_tables : ℕ → List ScheduledSeq → Result (Unit {0})
check_tables block_size [] = ok tt
check_tables block_size (item ∷ items) =
    if ltb (length item.block_table * block_size) item.context_len
    then err value_error
    else check_tables block_size items

unfoldable pub metadata_of :
    SchedulerOutput → Result (Unit {0}) → Result (List (List (Option ℕ))) → Result AttnMetadata
unfolding concat_map maximum build_query_start_loc
metadata_of out (err e) tables = err e
metadata_of out (ok u) (err e) = err e
metadata_of out (ok u) (ok tables) = ok (record {
  slot_mapping = concat_map ScheduledSeq.slot_mapping out.scheduled;
  block_tables = tables;
  context_lens = map ScheduledSeq.context_len out.scheduled;
  query_start_loc = build_query_start_loc (map ScheduledSeq.num_new_tokens out.scheduled);
  max_query_len = maximum (map ScheduledSeq.num_new_tokens out.scheduled);
  max_context_len = maximum (map ScheduledSeq.context_len out.scheduled);
  num_prefill_seqs = out.num_prefill_seqs;
  num_decode_seqs = out.num_decode_seqs;
})

unfoldable pub build_attn_metadata : ℕ → Option ℕ → SchedulerOutput → Result AttnMetadata
unfolding metadata_of check_tables pad_block_tables
build_attn_metadata block_size max_blocks out =
    if length out.scheduled == 0
    then err value_error
    else if block_size == 0
    then err value_error
    else metadata_of out (check_tables block_size out.scheduled)
        (pad_block_tables max_blocks (map ScheduledSeq.block_table out.scheduled))
