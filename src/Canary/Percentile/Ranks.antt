-- ===== src/Canary/Percentile/Ranks.antt =====
-- `percentile` (turboserve/bench/records.py), by the ranks of the values.
use turboserve.Prelude.{
  ℕ, zero, suc, ◌+◌, ◌-◌, ◌*◌, ◌/◌, ◌%◌, ◌≤◌, ◌<◌, ◌≡◌, refl, ap, subst, true, false, some, List,
  [], ◌∷◌, arith, length, get_or, get_elem?, get_elem?-lt, leb, ◌==◌, ok, Bool-cases, inl, inr,
  count, count-cons,
}
use turboserve.Canary.Percentile.{insert_sorted, sorted, interpolated, percentile}
use turboserve.Canary.Percentile.Bounds.{length-sorted, rank_le}

-- No value is less than the one before.
abbrev pub IsRising : List ℕ → Type 0
IsRising [] = Unit
IsRising (x ∷ []) = Unit
IsRising (x ∷ y ∷ ys) = (x ≤ y) × IsRising (y ∷ ys)

insert_sorted-IsRising : (x : ℕ) (ys : List ℕ) → IsRising ys → IsRising (insert_sorted x ys)
unfolding insert_sorted
insert_sorted-IsRising x [] h = tt
insert_sorted-IsRising x (y ∷ []) h = elim (Bool-cases (leb x y)) [
  | inl e ↦ rw e (ground (arith, e), tt)
  | inr e ↦ rw e (ground (arith, e), tt)
]
insert_sorted-IsRising x (y ∷ z ∷ zs) h = elim (Bool-cases (leb x y)) [
  | inl e ↦ rw e (ground (arith, e), h)
  | inr e ↦ rw e (behind (insert_sorted-IsRising x (z ∷ zs) h.1) (ground (arith, e)))
]
  where
    further : leb x z ≡ false → insert_sorted x (z ∷ zs) ≡ z ∷ insert_sorted x zs
    further f = rw f refl

    behind : IsRising (insert_sorted x (z ∷ zs)) → y ≤ x → IsRising (y ∷ insert_sorted x (z ∷ zs))
    behind v l = elim (Bool-cases (leb x z)) [
      | inl f ↦ rw f (l, (ground (arith, f), h.1))
      | inr f ↦ rw f (h.0, subst IsRising (further f) v)
    ]

sorted-IsRising : (xs : List ℕ) → IsRising (sorted xs)
unfolding sorted
sorted-IsRising [] = tt
sorted-IsRising (x ∷ xs) = insert_sorted-IsRising x (sorted xs) (sorted-IsRising xs)

count-insert_sorted : (a x : ℕ) (ys : List ℕ) → count a (insert_sorted x ys) ≡ count a (x ∷ ys)
unfolding insert_sorted
count-insert_sorted a x [] = refl
count-insert_sorted a x (y ∷ ys) = elim (Bool-cases (leb x y)) [
  | inl e ↦ rw e refl
  | inr e ↦ rw e (
      omega (
        arith,
        count-insert_sorted a x ys,
        count-cons a y (insert_sorted x ys),
        count-cons a x (y ∷ ys),
        count-cons a y ys,
        count-cons a x ys,
      ))
]

count-sorted : (a : ℕ) (xs : List ℕ) → count a (sorted xs) ≡ count a xs
unfolding sorted
count-sorted a [] = refl
count-sorted a (x ∷ xs) = omega (
  arith,
  count-insert_sorted a x (sorted xs),
  count-sorted a xs,
  count-cons a x (sorted xs),
  count-cons a x xs,
)

-- The value in hundredths at a rank in hundredths: a listed value at a whole rank, and on the line
-- between the two next to it otherwise.
pub data IsAt (ys : List ℕ) (rank p : ℕ) : Type 0 where
  listed :
      (low : ℕ)
      → rank ≡ rank / 100 * 100
      → get_elem? ys (rank / 100) ≡ some low
      → p ≡ low * 100
      → IsAt ys rank p
  between :
      (low high part : ℕ)
      → rank ≡ rank / 100 * 100 + part
      → get_elem? ys (rank / 100) ≡ some low
      → get_elem? ys (rank / 100 + 1) ≡ some high
      → p + low * part ≡ low * 100 + high * part
      → IsAt ys rank p

-- The percentile of values, by the values in their order.
pub record IsPercentile (xs : List ℕ) (q p : ℕ) : Type 0 where
  pub ordered : List ℕ
  pub same_values : (a : ℕ) → count a ordered ≡ count a xs
  pub rising : IsRising ordered
  pub at_rank : IsAt ordered (q * (length xs - 1)) p

get_or-some : (xs : List ℕ) (i b : ℕ) → get_elem? xs i ≡ some b → get_or xs i 0 ≡ b
get_or-some [] i b e = cc e
get_or-some (x ∷ xs) zero b e = cc e
get_or-some (x ∷ xs) (suc i) b e = get_or-some xs i b e

rising_pair :
    (ys : List ℕ) (i a b : ℕ)
    → IsRising ys
    → get_elem? ys i ≡ some a
    → get_elem? ys (suc i) ≡ some b
    → a ≤ b
rising_pair [] i a b h e f = cc e
rising_pair (x ∷ []) zero a b h e f = cc f
rising_pair (x ∷ []) (suc i) a b h e f = cc e
rising_pair (x ∷ y ∷ ys) zero a b h e f =
    let p : x ≡ a = cc e in let q : y ≡ b = cc f in omega (arith, h.0, p, q)
rising_pair (x ∷ y ∷ ys) (suc i) a b h e f = rising_pair (y ∷ ys) i a b h.1 e f

on_line : (a b r : ℕ) → a ≤ b → a * 100 + (b - a) * r + a * r ≡ a * 100 + b * r
on_line a b r h = let (d, e) = difference in rw (← e) (grind arith)
  where
    difference : (d : ℕ) × (a + d ≡ b)
    difference = (b - a, omega arith)

interpolated-IsAt :
    (ys : List ℕ) (rank : ℕ)
    → IsRising ys
    → 0 < length ys
    → rank ≤ (length ys - 1) * 100
    → IsAt ys rank (interpolated ys rank)
unfolding interpolated
interpolated-IsAt ys rank v l h =
    let (a, e) = get_elem?-lt ys (rank / 100) (omega arith) in
    elim (Bool-cases (rank % 100 == 0)) [
      | inl z ↦
          rw z (listed a (whole_rank z) e (ap (λ x. x * 100) (get_or-some ys (rank / 100) a e)))
      | inr z ↦
          let (b, f) = get_elem?-lt ys (rank / 100 + 1) (partial z) in
          rw z (
            between a b (rank % 100) (omega arith) e f (
              rw (get_or-some ys (rank / 100) a e, get_or-some ys (rank / 100 + 1) b f)
                (on_line a b (rank % 100) (
                  rising_pair ys (rank / 100) a b v e
                    (subst (λ i. get_elem? ys i ≡ some b) (omega arith) f)))))
    ]
  where
    whole_rank : (rank % 100 == 0) ≡ true → rank ≡ rank / 100 * 100
    whole_rank z = let y : rank % 100 ≡ 0 = ground arith in omega (arith, y)

    partial : (rank % 100 == 0) ≡ false → rank / 100 + 1 < length ys
    partial z = let y : 0 < rank % 100 = ground arith in omega (arith, y)

-- A percentile up to the hundredth of a list that is not empty is there. It is the value at its rank
-- among the values in rising order, with every value as often as it is given: the value listed there at
-- a whole rank, and on the line between the two next to it otherwise.
pub percentile-IsPercentile :
    (x : ℕ) (xs : List ℕ) (q : ℕ)
    → q ≤ 100
    → (p : ℕ) × (percentile (x ∷ xs) q ≡ ok (some p)) × IsPercentile (x ∷ xs) q p
unfolding percentile
percentile-IsPercentile x xs q h =
    let ys = sorted (x ∷ xs) in
    let size : length ys ≡ suc (length xs) = length-sorted (x ∷ xs) in
    (
      interpolated ys (q * length xs),
      ground arith,
      record {
        ordered = ys;
        same_values = λ a. count-sorted a (x ∷ xs);
        rising = sorted-IsRising (x ∷ xs);
        at_rank =
            subst (λ m. IsAt ys (q * m) (interpolated ys (q * length xs))) others
              (interpolated-IsAt ys (q * length xs) (sorted-IsRising (x ∷ xs)) (omega (arith, size))
                (omega (arith, size, rank_le q (length xs) h)));
      },
    )
  where
    others : length xs ≡ length (x ∷ xs) - 1
    others = omega arith
