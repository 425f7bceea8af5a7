-- ===== src/Engine/Sequence.antt =====
-- Sequence (turboserve/engine/core/sequence.py): one request's tokens, blocks, progress and status.
-- Times are readings of a clock that the model never computes with. Text is its list of code points,
-- by which Python orders it. The random generator of torch is left out.
pub mod Tokens
pub mod Lifecycle
use turboserve.Prelude.Integers.{ℤ}
use turboserve.Prelude.{
  ℕ, zero, suc, ◌+◌, ◌-◌, ◌*◌, ◌/◌, min, Bool, true, false, ◌&&◌, ◌||◌, not, Option, none, some,
  List, [], ◌∷◌, ◌++◌, length, get_elem?, take, drop, slice, mem, count, ltb, leb, ◌==◌,
  if◌then◌else◌, Result, ok, err, value_error, index_error, Exec,
}

pub data SeqStatus : Type 0 where
  waiting running preempted finished : SeqStatus

pub data FinishReason : Type 0 where
  stop length_reached abort : FinishReason

-- The fields of SamplingParams that `check_stop` reads.
pub record SamplingParams : Type 0 where
  pub max_tokens : ℕ
  pub stop_token_ids : List ℕ
  pub ignore_eos : Bool

pub record RequestTiming : Type 0 where
  pub t_arrival : Option ℕ
  pub t_first_scheduled : Option ℕ
  pub t_first_token : Option ℕ
  pub t_finish : Option ℕ
  pub num_cached_prompt_tokens : ℕ

pub record Sequence : Type 0 where
  pub seq_id : ℕ
  pub request_id : List ℕ
  pub prompt_token_ids : List ℕ
  pub sampling : SamplingParams
  pub tenant_id : List ℕ
  pub priority : ℤ
  pub lora_id : ℕ
  pub output_token_ids : List ℕ
  pub block_table : List ℕ
  pub num_computed_tokens : ℕ
  pub status : SeqStatus
  pub finish_reason : Option FinishReason
  pub stop_token_id : Option ℕ
  pub timing : RequestTiming
  pub num_preemptions : ℕ

-- A request as it arrives: the constructor with its defaults, and `__post_init__`.
unfoldable pub init : ℕ → List ℕ → List ℕ → SamplingParams → List ℕ → ℤ → ℕ → Result Sequence
init seq_id request_id prompt sampling tenant_id priority lora_id =
    if length prompt == 0
    then err value_error
    else ok (record {
      seq_id = seq_id;
      request_id = request_id;
      prompt_token_ids = prompt;
      sampling = sampling;
      tenant_id = tenant_id;
      priority = priority;
      lora_id = lora_id;
      output_token_ids = [];
      block_table = [];
      num_computed_tokens = 0;
      status = waiting;
      finish_reason = none;
      stop_token_id = none;
      timing = record {
        t_arrival = none;
        t_first_scheduled = none;
        t_first_token = none;
        t_finish = none;
        num_cached_prompt_tokens = 0;
      };
      num_preemptions = 0;
    })

abbrev pub is_terminal : SeqStatus → Bool
is_terminal finished = true
is_terminal _ = false

abbrev pub num_prompt_tokens : Sequence → ℕ
num_prompt_tokens s = length s.prompt_token_ids

abbrev pub num_output_tokens : Sequence → ℕ
num_output_tokens s = length s.output_token_ids

abbrev pub num_tokens : Sequence → ℕ
num_tokens s = length s.prompt_token_ids + length s.output_token_ids

-- Not below zero: the computed tokens never pass the tokens.
abbrev pub num_uncomputed_tokens : Sequence → ℕ
num_uncomputed_tokens s = num_tokens s - s.num_computed_tokens

abbrev pub token_ids : Sequence → List ℕ
token_ids s = s.prompt_token_ids ++ s.output_token_ids

abbrev pub is_prefill : Sequence → Bool
is_prefill s = ltb s.num_computed_tokens (num_prompt_tokens s)

abbrev pub is_finished : Sequence → Bool
is_finished s = is_terminal s.status

-- A read that the source has checked to be in range.
unfoldable pub read : Option ℕ → Result ℕ
read (some t) = ok t
read none = err index_error

unfoldable pub token_at : Sequence → ℕ → Result ℕ
unfolding read
token_at s position =
    if ltb position (num_tokens s)
    then if ltb position (num_prompt_tokens s)
      then read (get_elem? s.prompt_token_ids position)
      else read (get_elem? s.output_token_ids (position - num_prompt_tokens s))
    else err index_error

unfoldable pub tokens_in_range : Sequence → ℕ → ℕ → Result (List ℕ)
tokens_in_range s start end =
    let prompt_len = num_prompt_tokens s in
    if ltb (num_tokens s) end || ltb end start
    then err value_error
    else if leb end prompt_len
    then ok (slice start (end - start) s.prompt_token_ids)
    else if leb prompt_len start
    then ok (slice (start - prompt_len) (end - start) s.output_token_ids)
    else ok (drop start s.prompt_token_ids ++ take (end - prompt_len) s.output_token_ids)

unfoldable pub block_tokens : Sequence → ℕ → ℕ → Result (List ℕ)
unfolding tokens_in_range
block_tokens s index block_size =
    let start = index * block_size in
    let end = start + block_size in
    if ltb (num_tokens s) end then err value_error else tokens_in_range s start end

-- `-(-n // size)`, for a positive size.
abbrev pub ceil_div : ℕ → ℕ → ℕ
ceil_div n size = (n + size - 1) / size

abbrev pub num_blocks_needed : Sequence → ℕ → ℕ
num_blocks_needed s block_size = ceil_div (num_tokens s) block_size

unfoldable pub num_new_tokens_to_compute : Sequence → ℕ → ℕ
num_new_tokens_to_compute s budget =
    if is_finished s || (budget == 0) then 0 else min budget (num_uncomputed_tokens s)

unfoldable pub advance_computed : ℕ → Exec Sequence ℕ
advance_computed n s =
    let target = s.num_computed_tokens + n in
    if ltb (num_tokens s) target
    then (err value_error, s)
    else (ok target, record s { num_computed_tokens = target })

unfoldable pub reset_for_recompute : Sequence → Sequence
reset_for_recompute s = record s {
  num_computed_tokens = 0;
  block_table = [];
  timing = record s.timing { num_cached_prompt_tokens = 0 };
  num_preemptions = s.num_preemptions + 1;
  status = preempted;
}

abbrev pub stamped : Option ℕ → ℕ → Option ℕ
stamped none now = some now
stamped (some t) now = some t

unfoldable pub append_token : ℕ → ℕ → Exec Sequence (Unit {0})
append_token token now s = if is_finished s then (err value_error, s) else (
  ok tt,
  record s {
    output_token_ids = s.output_token_ids ++ token ∷ [];
    timing = record s.timing { t_first_token = stamped s.timing.t_first_token now };
  },
)

abbrev pub is_eos : Option ℕ → ℕ → Bool
is_eos none token = false
is_eos (some eos) token = token == eos

unfoldable pub check_stop : Sequence → ℕ → Option ℕ → Option FinishReason
check_stop s token eos =
    if mem token s.sampling.stop_token_ids
    then some stop
    else if is_eos eos token && not s.sampling.ignore_eos
    then some stop
    else if leb s.sampling.max_tokens (num_output_tokens s)
    then some length_reached
    else none

unfoldable pub finish : FinishReason → Option ℕ → ℕ → Sequence → Sequence
finish reason stop_token_id now s = if is_finished s then s else record s {
  status = finished;
  finish_reason = some reason;
  stop_token_id = stop_token_id;
  timing = record s.timing { t_finish = some now };
}
