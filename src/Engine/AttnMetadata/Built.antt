-- ===== src/Engine/AttnMetadata/Built.antt =====
-- A packed batch that is put together from one entry for each sequence passes `validate`.
use native.Mathlib.Nat.{zero-add}
use turboserve.Prelude.{
  ℕ, zero, suc, ◌+◌, ◌-◌, ◌≤◌, ◌≡◌, ap, ap₂, refl, sym, ◌∙◌, true, Option, none, some, List, [],
  ◌∷◌, ◌++◌, map, arith, length, take, replicate, leb, ◌==◌, ok,
}
use turboserve.Engine.Sequence.{ceil_div}
use turboserve.Engine.AttnMetadata.{
  AttnMetadata, num_seqs, num_tokens, maximum, cumsum, build_query_start_loc, pad_row,
  differences_from, differences, is_rising_from, last_from, num_valid, check_row, check_rows,
  has_maximum, check_locs, validate,
}

unfoldable pub sum : List ℕ → ℕ
sum [] = 0
sum (x ∷ xs) = x + sum xs

differences-cumsum : (a : ℕ) (xs : List ℕ) → differences_from a (cumsum a xs) ≡ xs
unfolding differences_from cumsum
differences-cumsum a [] = refl
differences-cumsum a (x ∷ xs) = ap₂ (◌∷◌) (omega arith) (differences-cumsum (a + x) xs)

is_rising-cumsum : (a : ℕ) (xs : List ℕ) → is_rising_from a (cumsum a xs) ≡ true
unfolding is_rising_from cumsum
is_rising-cumsum a [] = refl
is_rising-cumsum a (x ∷ xs) = ground (arith, is_rising-cumsum (a + x) xs)

last-cumsum : (a : ℕ) (xs : List ℕ) → last_from a (cumsum a xs) ≡ a + sum xs
unfolding last_from cumsum sum
last-cumsum a [] = omega arith
last-cumsum a (x ∷ xs) = omega (arith, last-cumsum (a + x) xs)

length-cumsum : (a : ℕ) (xs : List ℕ) → length (cumsum a xs) ≡ length xs
unfolding cumsum
length-cumsum a [] = refl
length-cumsum a (x ∷ xs) = ap suc (length-cumsum (a + x) xs)

pub length-map {ℓ κ} :
    {A : Type ℓ} {B : Type κ} (f : A → B) (xs : List A) → length (map f xs) ≡ length xs
length-map f [] = refl
length-map f (x ∷ xs) = ap suc (length-map f xs)

-- The first `n` entries of a padded row are blocks, if the row has so many.
num_valid-pad_row :
    (n : ℕ) (row : List ℕ) (pad : List (Option ℕ))
    → n ≤ length row
    → num_valid (take n (map some row ++ pad)) ≡ n
unfolding num_valid
num_valid-pad_row zero row pad h = refl
num_valid-pad_row (suc n) [] pad h = absurd (omega arith)
num_valid-pad_row (suc n) (b ∷ row) pad h = omega (arith, num_valid-pad_row n row pad (omega arith))

has_maximum_lem : (xs : List ℕ) → has_maximum xs (maximum xs) ≡ true
unfolding has_maximum
has_maximum_lem [] = refl
has_maximum_lem (x ∷ xs) = ground arith

le→leb : (a b : ℕ) → a ≤ b → leb a b ≡ true
le→leb a b h = ground arith

==-refl : (a : ℕ) → (a == a) ≡ true
==-refl a = ground arith

-- One sequence of a batch: how many queries it contributes, how far it attends, and its blocks.
pub record Entry : Type 0 where
  pub query_len : ℕ
  pub context_len : ℕ
  pub blocks : List ℕ

pub record IsCovered (block_size : ℕ) (e : Entry) : Type 0 where
  pub attends : e.query_len ≤ e.context_len
  pub covers : ceil_div e.context_len block_size ≤ length e.blocks

abbrev pub AreCovered : ℕ → List Entry → Type 0
AreCovered block_size [] = Unit
AreCovered block_size (e ∷ es) = IsCovered block_size e × AreCovered block_size es

check_rows-ok :
    (block_size width : ℕ) (es : List Entry)
    → AreCovered block_size es
    → check_rows
        (some block_size)
        (map Entry.context_len es)
        (map Entry.query_len es)
        (map (λ e. pad_row width e.blocks) es)
      ≡ ok tt
unfolding check_rows check_row pad_row
check_rows-ok block_size width [] v = refl
check_rows-ok block_size width (e ∷ es) v =
    rw
      (
        le→leb e.query_len e.context_len v.0.attends,
        num_valid-pad_row (ceil_div e.context_len block_size) e.blocks
            (replicate (width - length e.blocks) none) v.0.covers,
        ==-refl (ceil_div e.context_len block_size),
      )
      (check_rows-ok block_size width es v.1)

-- The metadata that lists the entries one after the other.
pub record IsPacked (width : ℕ) (es : List Entry) (m : AttnMetadata) : Type 0 where
  pub tables : m.block_tables ≡ map (λ e. pad_row width e.blocks) es
  pub contexts : m.context_lens ≡ map Entry.context_len es
  pub locs : m.query_start_loc ≡ build_query_start_loc (map Entry.query_len es)
  pub slots : num_tokens m ≡ sum (map Entry.query_len es)
  pub seqs : num_seqs m ≡ length es
  pub longest_query : m.max_query_len ≡ maximum (map Entry.query_len es)
  pub longest_context : m.max_context_len ≡ maximum (map Entry.context_len es)

check_locs-ok :
    (block_size width : ℕ) (es : List Entry) (m : AttnMetadata)
    → AreCovered block_size es
    → IsPacked width es m
    → check_locs (some block_size) m (0 ∷ cumsum 0 (map Entry.query_len es)) ≡ ok tt
unfolding check_locs differences
check_locs-ok block_size width es m v p =
    rw
      (
        is_rising-cumsum 0 (map Entry.query_len es),
        last-cumsum 0 (map Entry.query_len es),
        p.slots,
        zero-add (sum (map Entry.query_len es)),
        ==-refl (sum (map Entry.query_len es)),
        differences-cumsum 0 (map Entry.query_len es),
        p.longest_query,
        has_maximum_lem (map Entry.query_len es),
        p.longest_context,
        p.contexts,
        has_maximum_lem (map Entry.context_len es),
        p.tables,
      )
      (check_rows-ok block_size width es v)

-- The metadata of entries that attend to their queries and whose blocks cover their contexts passes
-- `validate` with the block size.
pub validate-ok :
    (block_size width : ℕ) (es : List Entry) (m : AttnMetadata)
    → AreCovered block_size es
    → IsPacked width es m
    → validate (some block_size) m ≡ ok tt
unfolding validate build_query_start_loc
validate-ok block_size width es m v p =
    rw
      (
        ap length p.tables ∙ length-map _ es ∙ sym p.seqs,
        ==-refl (num_seqs m),
        ap length p.contexts ∙ length-map _ es ∙ sym p.seqs,
        ==-refl (num_seqs m),
        locs_length,
        ==-refl (num_seqs m + 1),
      )
      (ap (check_locs (some block_size) m) p.locs ∙ check_locs-ok block_size width es m v p)
  where
    locs_length : length m.query_start_loc ≡ num_seqs m + 1
    locs_length = omega (
      arith,
      ap length p.locs,
      length-cumsum 0 (map Entry.query_len es),
      length-map Entry.query_len es,
      p.seqs,
    )
