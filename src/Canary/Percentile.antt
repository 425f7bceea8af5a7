-- ===== src/Canary/Percentile.antt =====
-- `percentile` (turboserve/bench/records.py), by linear interpolation between ranks, exactly: the
-- result is in hundredths of the unit of the values.
pub mod Bounds
pub mod Ranks
use turboserve.Prelude.{
  ℕ, ◌+◌, ◌-◌, ◌*◌, ◌/◌, ◌%◌, Option, none, some, List, [], ◌∷◌, length, get_or, ltb, leb, ◌==◌,
  if◌then◌else◌, Result, ok, err, value_error,
}

-- `sorted`
unfoldable pub insert_sorted : ℕ → List ℕ → List ℕ
insert_sorted x [] = x ∷ []
insert_sorted x (y ∷ ys) = if leb x y then x ∷ y ∷ ys else y ∷ insert_sorted x ys

unfoldable pub sorted : List ℕ → List ℕ
unfolding insert_sorted
sorted [] = []
sorted (x ∷ xs) = insert_sorted x (sorted xs)

-- The value at the rank `hundredths / 100` of a sorted list.
unfoldable pub interpolated : List ℕ → ℕ → ℕ
interpolated ordered hundredths =
    let low = get_or ordered (hundredths / 100) 0 in
    let high = get_or ordered (hundredths / 100 + 1) 0 in
    if hundredths % 100 == 0 then low * 100 else low * 100 + (high - low) * (hundredths % 100)

unfoldable pub percentile : List ℕ → ℕ → Result (Option ℕ)
unfolding sorted interpolated
percentile values q =
    if ltb 100 q
    then err value_error
    else if length values == 0
    then ok none
    else ok (some (interpolated (sorted values) (q * (length values - 1))))
