-- ===== src/Prelude/Counts.antt =====
-- Sets and queues of numbers, read through how often a number occurs in them.
use Prim.Native.Nat.{ℕ, zero, suc, ◌+◌, ◌≤◌, ◌<◌}
use mathlib.Core.Path.{◌≡◌, refl}
use mathlib.Core.Bool.{Bool}
use mathlib.Core.List.{List, [], ◌∷◌, ◌++◌}
use native.Mathlib.Omega.{arith}
use turboserve.Prelude.Tests.{ltb, ◌==◌, if◌then◌else◌}
use mathlib.Core.Option.{some}
use turboserve.Prelude.Lists.{length, get_elem?}

-- How often `a` stands in the list.
unfoldable pub count : ℕ → List ℕ → ℕ
count a [] = 0
count a (x ∷ xs) = (if x == a then 1 else 0) + count a xs

-- Python's `a in xs`.
abbrev pub mem : ℕ → List ℕ → Bool
mem a xs = ltb 0 (count a xs)

-- Python's `set.discard`, and `OrderedDict.pop(a, None)` on the keys.
unfoldable pub discard : ℕ → List ℕ → List ℕ
discard a [] = []
discard a (x ∷ xs) = let rest = discard a xs in if x == a then rest else x ∷ rest

-- Python's `set.add`; a set keeps no order.
unfoldable pub add_to : ℕ → List ℕ → List ℕ
unfolding count
add_to a xs = if mem a xs then xs else a ∷ xs

-- `range(lo, lo + n)`.
unfoldable pub range_from : ℕ → ℕ → List ℕ
range_from lo zero = []
range_from lo (suc n) = lo ∷ range_from (suc lo) n

pub count-nil : (a : ℕ) → count a [] ≡ 0
unfolding count
count-nil a = refl

pub count-cons : (a x : ℕ) (xs : List ℕ) → count a (x ∷ xs) ≡ (if x == a then 1 else 0) + count a xs
unfolding count
count-cons a x xs = refl

pub count-append : (a : ℕ) (xs ys : List ℕ) → count a (xs ++ ys) ≡ count a xs + count a ys
unfolding count
count-append a [] ys = omega arith
count-append a (x ∷ xs) ys = omega (arith, count-append a xs ys)

pub count-discard :
    (a b : ℕ) (xs : List ℕ) → count a (discard b xs) ≡ (if b == a then 0 else count a xs)
unfolding count discard
count-discard a b [] = ground arith
count-discard a b (x ∷ xs) = ground (arith, count-discard a b xs)

pub count-add_to :
    (a b : ℕ) (xs : List ℕ)
    → count a (add_to b xs)
      ≡ (if mem b xs then count a xs else (if b == a then 1 else 0) + count a xs)
unfolding add_to count
count-add_to a b xs = ground arith

pub count-range_from :
    (a lo n : ℕ)
    → count a (range_from lo n) ≡ (if ltb a lo then 0 else if ltb a (lo + n) then 1 else 0)
unfolding count range_from
count-range_from a lo zero = ground arith
count-range_from a lo (suc n) = ground (arith, count-range_from a (suc lo) n)

pub length-range_from : (lo n : ℕ) → length (range_from lo n) ≡ n
unfolding range_from
length-range_from lo zero = refl
length-range_from lo (suc n) = omega (arith, length-range_from (suc lo) n)

-- Discarding an element that stands there once shortens the list by one.
pub length-discard : (a : ℕ) (xs : List ℕ) → length (discard a xs) + count a xs ≡ length xs
unfolding count discard
length-discard a [] = omega arith
length-discard a (x ∷ xs) = ground (arith, length-discard a xs)

-- The sum of `f b` over `b < n`.
unfoldable pub sum_below : (ℕ → ℕ) → ℕ → ℕ
sum_below f zero = 0
sum_below f (suc n) = f n + sum_below f n

pub sum_below-cong :
    (f g : ℕ → ℕ) (n : ℕ) → ((b : ℕ) → b < n → f b ≡ g b) → sum_below f n ≡ sum_below g n
unfolding sum_below
sum_below-cong f g zero h = refl
sum_below-cong f g (suc n) h =
    omega (arith, h n (omega arith), sum_below-cong f g n (λ b lt. h b (omega arith)))

pub sum_below-add :
    (f g : ℕ → ℕ) (n : ℕ) → sum_below (λ b. f b + g b) n ≡ sum_below f n + sum_below g n
unfolding sum_below
sum_below-add f g zero = omega arith
sum_below-add f g (suc n) = omega (arith, sum_below-add f g n)

pub sum_below-const_zero : (n : ℕ) → sum_below (λ b. 0) n ≡ 0
unfolding sum_below
sum_below-const_zero zero = refl
sum_below-const_zero (suc n) = omega (arith, sum_below-const_zero n)

pub sum_below-const_one : (n : ℕ) → sum_below (λ b. 1) n ≡ n
unfolding sum_below
sum_below-const_one zero = refl
sum_below-const_one (suc n) = omega (arith, sum_below-const_one n)

pub sum_below-single :
    (x n : ℕ) → sum_below (λ b. if x == b then 1 else 0) n ≡ (if ltb x n then 1 else 0)
unfolding sum_below
sum_below-single x zero = ground arith
sum_below-single x (suc n) = ground (arith, sum_below-single x n)

-- A list whose members all lie below `n` is as long as the sum of the counts.
pub sum_below-count :
    (n : ℕ) (xs : List ℕ)
    → ((b : ℕ) → n ≤ b → count b xs ≡ 0)
    → sum_below (λ b. count b xs) n ≡ length xs
unfolding count
sum_below-count n [] h = sum_below-const_zero n
sum_below-count n (x ∷ xs) h = ground (
  arith,
  sum_below-add (λ b. if x == b then 1 else 0) (λ b. count b xs) n,
  sum_below-single x n,
  h x,
  sum_below-count n xs (λ b le. omega (arith, h b le)),
)

pub ruleset count_laws = (count-nil, count-cons, count-append, count-discard, count-add_to)

-- A member found at an index is counted.
pub count-get_elem? : (xs : List ℕ) (i b : ℕ) → get_elem? xs i ≡ some b → 0 < count b xs
unfolding count
count-get_elem? [] i b e = cc
count-get_elem? (x ∷ xs) zero b e = ground arith
count-get_elem? (x ∷ xs) (suc i) b e = ground (arith, count-get_elem? xs i b e)

-- One that stands at two places is counted twice.
pub count-get_elem?_twice :
    (xs : List ℕ) (i j b : ℕ)
    → i < j
    → get_elem? xs i ≡ some b
    → get_elem? xs j ≡ some b
    → 1 < count b xs
unfolding count
count-get_elem?_twice [] i j b h e f = cc
count-get_elem?_twice (x ∷ xs) i zero b h e f = elim h [ ]
count-get_elem?_twice (x ∷ xs) zero (suc j) b h e f = ground (arith, count-get_elem? xs j b f)
count-get_elem?_twice (x ∷ xs) (suc i) (suc j) b h e f =
    ground (arith, count-get_elem?_twice xs i j b (omega arith) e f)
