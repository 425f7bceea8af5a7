-- ===== src/Canary/Percentile/Bounds.antt =====
-- The range of a percentile.
use turboserve.Prelude.{
  ℕ, zero, suc, ◌+◌, ◌-◌, ◌*◌, ◌/◌, ◌%◌, ◌≤◌, ◌<◌, ◌≡◌, refl, false, some, List, [], ◌∷◌, arith,
  length, get_or, leb, ◌==◌, ok, Bool-cases, inl, inr,
}
use turboserve.Canary.Percentile.{insert_sorted, sorted, interpolated, percentile}

-- Every value lies between two bounds.
abbrev pub AllBetween : ℕ → ℕ → List ℕ → Type 0
AllBetween lo hi [] = Unit
AllBetween lo hi (x ∷ xs) = ((lo ≤ x) × (x ≤ hi)) × AllBetween lo hi xs

insert_sorted-AllBetween :
    (lo hi x : ℕ) (ys : List ℕ)
    → (lo ≤ x) × (x ≤ hi)
    → AllBetween lo hi ys
    → AllBetween lo hi (insert_sorted x ys)
unfolding insert_sorted
insert_sorted-AllBetween lo hi x [] b h = (b, tt)
insert_sorted-AllBetween lo hi x (y ∷ ys) b h = elim (Bool-cases (leb x y)) [
  | inl e ↦ rw e (b, h)
  | inr e ↦ rw e (h.0, insert_sorted-AllBetween lo hi x ys b h.1)
]

sorted-AllBetween : (lo hi : ℕ) (xs : List ℕ) → AllBetween lo hi xs → AllBetween lo hi (sorted xs)
unfolding sorted
sorted-AllBetween lo hi [] h = tt
sorted-AllBetween lo hi (x ∷ xs) h =
    insert_sorted-AllBetween lo hi x (sorted xs) h.0 (sorted-AllBetween lo hi xs h.1)

length-insert_sorted : (x : ℕ) (ys : List ℕ) → length (insert_sorted x ys) ≡ suc (length ys)
unfolding insert_sorted
length-insert_sorted x [] = refl
length-insert_sorted x (y ∷ ys) = ground (arith, length-insert_sorted x ys)

pub length-sorted : (xs : List ℕ) → length (sorted xs) ≡ length xs
unfolding sorted
length-sorted [] = refl
length-sorted (x ∷ xs) = omega (arith, length-insert_sorted x (sorted xs), length-sorted xs)

AllBetween-at :
    (lo hi : ℕ) (xs : List ℕ) (i : ℕ)
    → AllBetween lo hi xs
    → i < length xs
    → (lo ≤ get_or xs i 0) × (get_or xs i 0 ≤ hi)
AllBetween-at lo hi [] i h l = elim l [ ]
AllBetween-at lo hi (x ∷ xs) zero h l = h.0
AllBetween-at lo hi (x ∷ xs) (suc i) h l = AllBetween-at lo hi xs i h.1 (omega arith)

mul_le_right : (k r : ℕ) → r < 100 → k * r ≤ k * 100
mul_le_right k r h = grind arith

pub rank_le : (q m : ℕ) → q ≤ 100 → q * m ≤ m * 100
rank_le q m h = grind arith

-- The weighted mean of two values in hundredths.
mean_between :
    (a b r lo hi : ℕ)
    → (lo ≤ a) × (a ≤ hi)
    → (lo ≤ b) × (b ≤ hi)
    → r < 100
    → (lo * 100 ≤ a * 100 + (b - a) * r) × (a * 100 + (b - a) * r ≤ hi * 100)
mean_between a b r lo hi p q u = (omega (arith, p), omega (arith, p, q, mul_le_right (b - a) r u))

interpolated-between :
    (lo hi : ℕ) (xs : List ℕ) (h : ℕ)
    → AllBetween lo hi xs
    → 0 < length xs
    → h ≤ (length xs - 1) * 100
    → (lo * 100 ≤ interpolated xs h) × (interpolated xs h ≤ hi * 100)
unfolding interpolated
interpolated-between lo hi xs h v l k =
    let low = AllBetween-at lo hi xs (h / 100) v (omega arith) in
    elim (Bool-cases (h % 100 == 0)) [
      | inl e ↦ rw e (omega (arith, low), omega (arith, low))
      | inr e ↦ rw e (
          mean_between (get_or xs (h / 100) 0) (get_or xs (h / 100 + 1) 0) (h % 100) lo hi low
            (AllBetween-at lo hi xs (h / 100 + 1) v (partial e)) (omega arith))
    ]
  where
    partial : (h % 100 == 0) ≡ false → h / 100 + 1 < length xs
    partial e = let z : 0 < h % 100 = ground arith in omega (arith, z)

-- A percentile lies between any bounds of the values.
pub percentile-between :
    (lo hi x : ℕ) (xs : List ℕ) (q : ℕ)
    → AllBetween lo hi (x ∷ xs)
    → q ≤ 100
    → (p : ℕ) × (percentile (x ∷ xs) q ≡ ok (some p)) × (lo * 100 ≤ p) × (p ≤ hi * 100)
unfolding percentile
percentile-between lo hi x xs q v h =
    let size : length (sorted (x ∷ xs)) ≡ suc (length xs) = length-sorted (x ∷ xs) in
    let b =
      interpolated-between lo hi (sorted (x ∷ xs)) (q * length xs)
        (sorted-AllBetween lo hi (x ∷ xs) v) (omega (arith, size))
        (omega (arith, size, rank_le q (length xs) h)) in
    (interpolated (sorted (x ∷ xs)) (q * length xs), ground arith, b.0, b.1)
