-- ===== src/Engine/AttnMetadata.antt =====
-- AttnMetadata (turboserve/engine/core/types.py): the description of a packed batch for attention. A
-- tensor of integers is a list, or a list of rows; PAD_BLOCK is `none`.
pub mod Built
use turboserve.Prelude.{
  ℕ, zero, suc, ◌+◌, ◌-◌, max, Bool, true, false, Option, none, some, List, [], ◌∷◌, ◌++◌, map,
  length, take, replicate, ltb, leb, ◌==◌, if◌then◌else◌, Result, ok, err, value_error, index_error,
}
use turboserve.Engine.Sequence.{ceil_div}

pub record AttnMetadata : Type 0 where
  pub slot_mapping : List ℕ
  pub block_tables : List (List (Option ℕ))
  pub context_lens : List ℕ
  pub query_start_loc : List ℕ
  pub max_query_len : ℕ
  pub max_context_len : ℕ
  pub num_prefill_seqs : ℕ
  pub num_decode_seqs : ℕ

abbrev pub num_seqs : AttnMetadata → ℕ
num_seqs m = m.num_prefill_seqs + m.num_decode_seqs

abbrev pub num_tokens : AttnMetadata → ℕ
num_tokens m = length m.slot_mapping

-- `max` of a list, and 0 of the empty one.
unfoldable pub maximum : List ℕ → ℕ
maximum [] = 0
maximum (x ∷ xs) = max x (maximum xs)

-- `cumsum`, from `a` on.
unfoldable pub cumsum : ℕ → List ℕ → List ℕ
cumsum a [] = []
cumsum a (x ∷ xs) = (a + x) ∷ cumsum (a + x) xs

unfoldable pub build_query_start_loc : List ℕ → List ℕ
unfolding cumsum
build_query_start_loc query_lens = 0 ∷ cumsum 0 query_lens

unfoldable pub pad_row : ℕ → List ℕ → List (Option ℕ)
pad_row width row = map some row ++ replicate (width - length row) none

abbrev lengths : List (List ℕ) → List ℕ
lengths rows = map length rows

unfoldable pub pad_block_tables : Option ℕ → List (List ℕ) → Result (List (List (Option ℕ)))
unfolding pad_row maximum
pad_block_tables none rows = ok (map (pad_row (maximum (lengths rows))) rows)
pad_block_tables (some max_blocks) rows =
    if ltb max_blocks (maximum (lengths rows))
    then err value_error
    else ok (map (pad_row max_blocks) rows)

-- `[b - a for a, b in zip(locs[:-1], locs[1:])]`
unfoldable pub differences_from : ℕ → List ℕ → List ℕ
differences_from a [] = []
differences_from a (b ∷ locs) = (b - a) ∷ differences_from b locs

unfoldable pub differences : List ℕ → List ℕ
unfolding differences_from
differences [] = []
differences (a ∷ locs) = differences_from a locs

abbrev pub query_lens : AttnMetadata → List ℕ
query_lens m = differences m.query_start_loc

-- No entry is less than the one before.
unfoldable pub is_rising_from : ℕ → List ℕ → Bool
is_rising_from a [] = true
is_rising_from a (b ∷ locs) = if ltb b a then false else is_rising_from b locs

-- `locs[-1]`
unfoldable pub last_from : ℕ → List ℕ → ℕ
last_from a [] = a
last_from a (b ∷ locs) = last_from b locs

-- Python's `if not condition: raise ValueError(…)`.
abbrev pub require {ℓ} : {A : Type ℓ} → Bool → Result A → Result A
require true r = r
require false r = err value_error

-- The number of entries of a row that are blocks.
unfoldable pub num_valid : List (Option ℕ) → ℕ
num_valid [] = 0
num_valid (none ∷ row) = num_valid row
num_valid (some b ∷ row) = num_valid row + 1

-- The checks of one sequence's blocks, if a block size is given.
unfoldable pub check_row : Option ℕ → ℕ → List (Option ℕ) → Bool
unfolding num_valid
check_row none ctx row = true
check_row (some block_size) ctx row =
    num_valid (take (ceil_div ctx block_size) row) == ceil_div ctx block_size

-- The loop over the sequences.
unfoldable pub check_rows : Option ℕ → List ℕ → List ℕ → List (List (Option ℕ)) → Result (Unit {0})
unfolding check_row
check_rows block_size [] [] rows = ok tt
check_rows block_size [] (q ∷ qs) rows = err value_error
check_rows block_size (ctx ∷ ctxs) [] rows = err value_error
check_rows block_size (ctx ∷ ctxs) (q ∷ qs) [] = err index_error
check_rows block_size (ctx ∷ ctxs) (q ∷ qs) (row ∷ rows) =
    require (leb q ctx)
      (require (check_row block_size ctx row) (check_rows block_size ctxs qs rows))

-- `if values and max(values) != expected`
unfoldable pub has_maximum : List ℕ → ℕ → Bool
unfolding maximum
has_maximum [] expected = true
has_maximum (x ∷ xs) expected = maximum (x ∷ xs) == expected

unfoldable pub check_locs : Option ℕ → AttnMetadata → List ℕ → Result (Unit {0})
unfolding is_rising_from last_from differences differences_from has_maximum check_rows
check_locs block_size m [] = err index_error
check_locs block_size m (a ∷ locs) = require (a == 0) (
    require (is_rising_from a locs) (
      require (last_from a locs == num_tokens m) (
        require (has_maximum (differences (a ∷ locs)) m.max_query_len) (
          require (has_maximum m.context_lens m.max_context_len)
            (check_rows block_size m.context_lens (differences (a ∷ locs)) m.block_tables)))))

-- The shapes and types of the tensors are the lists' own.
unfoldable pub validate : Option ℕ → AttnMetadata → Result (Unit {0})
unfolding check_locs
validate block_size m = require (length m.block_tables == num_seqs m) (
    require (length m.context_lens == num_seqs m) (
      require (length m.query_start_loc == num_seqs m + 1)
        (check_locs block_size m m.query_start_loc)))
