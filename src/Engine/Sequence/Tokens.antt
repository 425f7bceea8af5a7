-- ===== src/Engine/Sequence/Tokens.antt =====
-- The token accessors of Sequence, which avoid building the whole list, against that list.
use turboserve.Prelude.{
  ℕ, ◌+◌, ◌-◌, ◌*◌, ◌≤◌, ◌≡◌, ap, ap₂, ◌∙◌, ◌||◌, List, ◌++◌, arith, length, length-drop, take,
  drop, slice, take-append, drop-append, take-ge, drop-ge, get_elem?, get_elem?-append_lt,
  get_elem?-append_ge, ltb, if◌then◌else◌, ok, err, value_error, get_elem?-ge,
}
use turboserve.Engine.Sequence.{
  Sequence, num_tokens, num_prompt_tokens, token_ids, token_at, read, tokens_in_range, block_tokens,
}
use mathlib.Core.List.{append-nil}

-- `token_at` reads the concatenation of prompt and output, and raises IndexError past its end.
pub token_at-token_ids : (s : Sequence) (i : ℕ) → token_at s i ≡ read (get_elem? (token_ids s) i)
unfolding token_at
token_at-token_ids s i = ground (
  arith,
  get_elem?-append_lt s.prompt_token_ids s.output_token_ids i,
  get_elem?-append_ge s.prompt_token_ids s.output_token_ids i,
  get_elem?-ge s.output_token_ids (i - num_prompt_tokens s),
)

-- The part of a concatenation that lies across the seam, before it, or after it.
slice_before :
    (xs ys : List ℕ) (lo n : ℕ) → lo + n ≤ length xs → slice lo n (xs ++ ys) ≡ slice lo n xs
slice_before xs ys lo n h =
    let none_left : n - length (drop lo xs) ≡ 0 = omega (arith, length-drop lo xs) in
    ap (take n) (drop-append lo xs ys)
    ∙ take-append n (drop lo xs) (drop (lo - length xs) ys)
    ∙ ap (λ k. slice lo n xs ++ take k (drop (lo - length xs) ys)) none_left
    ∙ append-nil (slice lo n xs)

slice_after :
    (xs ys : List ℕ) (lo n : ℕ)
    → length xs ≤ lo
    → slice lo n (xs ++ ys) ≡ slice (lo - length xs) n ys
slice_after xs ys lo n h =
    ap (take n) (drop-append lo xs ys)
    ∙ ap (λ l. take n (l ++ drop (lo - length xs) ys)) (drop-ge lo xs h)

slice_across :
    (xs ys : List ℕ) (lo n : ℕ)
    → lo ≤ length xs
    → length xs ≤ lo + n
    → slice lo n (xs ++ ys) ≡ drop lo xs ++ take (lo + n - length xs) ys
slice_across xs ys lo n h k =
    let left : n - length (drop lo xs) ≡ lo + n - length xs = omega (arith, length-drop lo xs) in
    let start : lo - length xs ≡ 0 = omega arith in
    ap (take n) (drop-append lo xs ys)
    ∙ take-append n (drop lo xs) (drop (lo - length xs) ys)
    ∙ ap₂ ◌++◌ (take-ge n (drop lo xs) (omega (arith, length-drop lo xs)))
        (ap₂ (λ a b. take a (drop b ys)) left start)

-- `tokens_in_range` of a range inside the sequence is that slice of the concatenation of prompt and
-- output, on each of its three branches, and any other range raises ValueError.
pub tokens_in_range-slice :
    (s : Sequence) (start end : ℕ)
    → tokens_in_range s start end ≡ (
        if ltb (num_tokens s) end || ltb end start
        then err value_error
        else ok (slice start (end - start) (token_ids s)))
unfolding tokens_in_range
tokens_in_range-slice s start end = ground (
  arith,
  slice_before s.prompt_token_ids s.output_token_ids start (end - start),
  slice_after s.prompt_token_ids s.output_token_ids start (end - start),
  across,
)
  where
    same :
        start ≤ end
        → start + (end - start) - length s.prompt_token_ids ≡ end - length s.prompt_token_ids
    same a = omega arith

    across :
        start ≤ end
        → start ≤ length s.prompt_token_ids
        → length s.prompt_token_ids ≤ end
        → slice start (end - start) (token_ids s)
          ≡ drop start s.prompt_token_ids
            ++ take (end - length s.prompt_token_ids) s.output_token_ids
    across a b c =
        slice_across s.prompt_token_ids s.output_token_ids start (end - start) b (omega arith)
        ∙ ap (λ k. drop start s.prompt_token_ids ++ take k s.output_token_ids) (same a)

-- `block_tokens` of a full block is that block of the concatenation of prompt and output, and of a
-- block that is not full it raises ValueError.
pub block_tokens-slice :
    (s : Sequence) (index size : ℕ)
    → block_tokens s index size ≡ (
        if ltb (num_tokens s) (index * size + size)
        then err value_error
        else ok (slice (index * size) size (token_ids s)))
unfolding block_tokens
block_tokens-slice s index size = ground (
  arith,
  tokens_in_range-slice s (index * size) (index * size + size),
  ap (λ n. slice (index * size) n (token_ids s)) back,
)
  where
    back : index * size + size - index * size ≡ size
    back = omega arith
