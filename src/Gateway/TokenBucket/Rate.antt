-- ===== src/Gateway/TokenBucket/Rate.antt =====
-- What a bucket grants over time, and the wait that it asks for.
use turboserve.Prelude.{
  ℕ, ◌+◌, ◌-◌, ◌*◌, ◌≤◌, ◌≡◌, sym, ap, subst, ◌∙◌, Bool, false, ◌&&◌, List, [], ◌∷◌, arith, ltb,
  leb, if◌then◌else◌, Bool-cases, inl, inr,
}
use native.Mathlib.Nat.{zero-mul}
use turboserve.Gateway.TokenBucket.{TokenBucket, refill, try_acquire, deficit}

-- An attempt to spend an amount at a time.
pub record Attempt : Type 0 where
  pub amount : ℕ
  pub at : ℕ

-- What a run of attempts grants in all, and the bucket after it.
unfoldable pub spend : List Attempt → TokenBucket → ℕ × TokenBucket
unfolding try_acquire
spend [] b = (0, b)
spend (a ∷ later) b =
    let r = try_acquire a.amount a.at b in
    let others = spend later r.1 in ((if r.0 then a.amount else 0) + others.0, others.1)

-- The times of the attempts, from one time to another.
abbrev pub IsBetween : ℕ → ℕ → List Attempt → Type 0
IsBetween lo hi [] = lo ≤ hi
IsBetween lo hi (a ∷ later) = (lo ≤ a.at) × IsBetween a.at hi later

IsBetween-le : (lo hi : ℕ) (attempts : List Attempt) → IsBetween lo hi attempts → lo ≤ hi
IsBetween-le lo hi [] h = h
IsBetween-le lo hi (a ∷ later) h = omega (arith, h.0, IsBetween-le a.at hi later h.1)

-- The books of one attempt: what is granted is covered by the refill and by what is used after it.
record IsBooked (amount now : ℕ) (b : TokenBucket) (r : Bool × TokenBucket) : Type 0 where
  covered : (if r.0 then amount else 0) + b.used ≤ r.1.used + (now - b.updated) * b.refill_per_ms
  kept : b.used ≤ b.capacity → r.1.used ≤ b.capacity
  same_capacity : r.1.capacity ≡ b.capacity
  same_refill : r.1.refill_per_ms ≡ b.refill_per_ms
  seen : b.updated ≤ now → r.1.updated ≡ now

try_acquire-IsBooked :
    (amount now : ℕ) (b : TokenBucket) → IsBooked amount now b (try_acquire amount now b)
unfolding try_acquire refill
try_acquire-IsBooked amount now b = record {
  covered = ground arith;
  kept = λ h. ground arith;
  same_capacity = ground arith;
  same_refill = ground arith;
  seen = λ h. ground arith;
}

split_time : (a b c r : ℕ) → a ≤ b → b ≤ c → (b - a) * r + (c - b) * r ≡ (c - a) * r
split_time a b c r h k = grind arith

spend-covered :
    (attempts : List Attempt) (b : TokenBucket) (now : ℕ)
    → IsBetween b.updated now attempts
    → b.used ≤ b.capacity
    → (spend attempts b).0 + b.used ≤ b.capacity + (now - b.updated) * b.refill_per_ms
unfolding spend
spend-covered [] b now h u = omega arith
spend-covered (a ∷ later) b now h u =
    let r = try_acquire a.amount a.at b in
    let k = try_acquire-IsBooked a.amount a.at b in
    let seen = k.seen h.0 in
    let ih : (spend later r.1).0 + r.1.used ≤ b.capacity + (now - a.at) * b.refill_per_ms =
      subst (λ t. (spend later r.1).0 + r.1.used ≤ b.capacity + (now - t) * b.refill_per_ms) seen
        (subst (λ f. (spend later r.1).0 + r.1.used ≤ b.capacity + (now - r.1.updated) * f)
          k.same_refill
          (subst (λ c. (spend later r.1).0 + r.1.used ≤ c + (now - r.1.updated) * r.1.refill_per_ms)
            k.same_capacity
            (spend-covered later r.1 now (subst (λ t. IsBetween t now later) (sym seen) h.1)
              (subst (λ c. r.1.used ≤ c) (sym k.same_capacity) (k.kept u))))) in
    omega (
      arith,
      ih,
      k.covered,
      split_time b.updated a.at now b.refill_per_ms h.0 (IsBetween-le a.at now later h.1),
    )

-- However the attempts to spend are made, in the order of their times: from a bucket that is not above
-- its capacity, what is granted up to a time is at most the capacity and what refills until then.
pub spend-bounded :
    (attempts : List Attempt) (b : TokenBucket) (now : ℕ)
    → IsBetween b.updated now attempts
    → b.used ≤ b.capacity
    → (spend attempts b).0 ≤ b.capacity + (now - b.updated) * b.refill_per_ms
spend-bounded attempts b now h u = omega (arith, spend-covered attempts b now h u)

refill-updated : (now : ℕ) (b : TokenBucket) → b.updated ≤ now → (refill now b).updated ≡ now
unfolding refill
refill-updated now b h = ground arith

refill-sizes :
    (now : ℕ) (b : TokenBucket)
    → ((refill now b).capacity ≡ b.capacity) × ((refill now b).refill_per_ms ≡ b.refill_per_ms)
unfolding refill
refill-sizes now b = (ground arith, ground arith)

le_unless_ltb : (a b : ℕ) → ltb a b ≡ false → b ≤ a
le_unless_ltb a b h = ground arith

no_wait : (wait r : ℕ) → wait ≡ 0 → wait * r ≡ 0
no_wait wait r e = rw e (zero-mul r)

acquire_later :
    (amount now wait : ℕ) (b : TokenBucket)
    → b.updated ≡ now
    → (try_acquire amount (now + wait) b).0
      ≡ (leb amount b.capacity && leb (amount + b.used - b.capacity) (wait * b.refill_per_ms))
unfolding try_acquire refill
acquire_later amount now wait b e =
    let z : (now + wait - b.updated) * b.refill_per_ms ≡ wait * b.refill_per_ms =
      ap (λ k. k * b.refill_per_ms) (waited e) in
    elim (Bool-cases (ltb b.updated (now + wait))) [
      | inl h ↦ ground (arith, h, z)
      | inr h ↦ ground (
        arith,
        h,
        no_wait wait b.refill_per_ms (omega (arith, e, le_unless_ltb b.updated (now + wait) h)),
      )
    ]
  where
    waited : b.updated ≡ now → now + wait - b.updated ≡ wait
    waited e = omega arith

-- With no other traffic, an amount can be spent after a wait exactly if it is at most the capacity and
-- the wait covers the deficit that `retry_after` divides by the refill. An amount above the capacity
-- can never be spent.
pub try_acquire-after :
    (amount now wait : ℕ) (b : TokenBucket)
    → b.updated ≤ now
    → (try_acquire amount (now + wait) (refill now b)).0
      ≡ (leb amount b.capacity && leb (deficit amount now b) (wait * b.refill_per_ms))
unfolding try_acquire refill deficit
try_acquire-after amount now wait b h =
    acquire_later amount now wait (refill now b) (refill-updated now b h)
    ∙ ground (arith, refill-sizes now b)
