-- ===== src/Gateway/TenantLimiter/Quota.antt =====
-- The check of a request in two phases, and the concurrency slots.
use turboserve.Prelude.{
  ℕ, zero, suc, ◌+◌, ◌-◌, ◌*◌, ◌≤◌, ◌≡◌, refl, sym, subst, ap, ◌∙◌, Bool, true, false, ◌&&◌, not,
  ◌||◌, Option, none, some, arith, ltb, leb, ◌==◌, Bool-cases, inl, inr,
}
use native.Mathlib.Nat.{zero-mul}
use turboserve.Gateway.TokenBucket
use turboserve.Gateway.TokenBucket.{TokenBucket, per_minute, whole, is_short}
use turboserve.Gateway.TenantLimiter.{
  Tenant, TenantLimiter, RateLimitExceeded, rpm, tpm, refilled, lacks, charged, refusal,
  check_tokens, check_request, charge_tokens, is_full, try_acquire_slot, release_slot, enter_slot,
  tenant_limiter,
}

abbrev pub is_none {ℓ} : {A : Type ℓ} → Option A → Bool
is_none none = true
is_none (some a) = false

-- What a bucket owes at a time: what was used of it, less what has refilled since.
abbrev pub owed : ℕ → TokenBucket → ℕ
owed now b = b.used - (now - b.updated) * b.refill_per_ms

-- Whether an amount fits into what a bucket has left; one that is not there has any amount.
abbrev pub affords : ℕ → ℕ → Option TokenBucket → Bool
affords amount now none = true
affords amount now (some b) = leb (amount + owed now b) b.capacity

-- Whether the quotas have room for a request with so many prompt tokens.
abbrev pub has_room : ℕ → ℕ → TenantLimiter → Bool
has_room n now l =
    affords (whole 1) now l.rpm_bucket && ((n == 0) || affords (whole n) now l.tpm_bucket)

-- The bucket owes `amount` more, and is otherwise the same.
abbrev pub Owes : ℕ → ℕ → Option TokenBucket → Option TokenBucket → Type 0
Owes amount now none o = o ≡ none
Owes amount now (some b) o =
    (b' : TokenBucket) × (o ≡ some b')
    × (b'.capacity ≡ b.capacity)
    × (b'.refill_per_ms ≡ b.refill_per_ms)
    × (owed now b' ≡ owed now b + amount)

-- A refilled bucket has used what it owes, up to now.
record IsRefilled (now : ℕ) (b r : TokenBucket) : Type 0 where
  same_capacity : r.capacity ≡ b.capacity
  same_refill : r.refill_per_ms ≡ b.refill_per_ms
  used_is : r.used ≡ owed now b
  current : now ≤ r.updated

nothing_more : (u now x r : ℕ) → now ≤ x → u - (now - x) * r ≡ u
nothing_more u now x r h = let z : now - x ≡ 0 = omega arith in rw z (omega (arith, zero-mul r))

refill-IsRefilled : (now : ℕ) (b : TokenBucket) → IsRefilled now b (TokenBucket.refill now b)
unfolding TokenBucket.refill
refill-IsRefilled now b = elim (Bool-cases (ltb b.updated now)) [
  | inl e ↦
      rw e
        (record { same_capacity = refl; same_refill = refl; used_is = refl; current = omega arith })
  | inr e ↦ rw e (record {
    same_capacity = refl;
    same_refill = refl;
    used_is = sym (nothing_more b.used now b.updated b.refill_per_ms (ground (arith, e)));
    current = ground (arith, e);
  })
]

lacks-affords :
    (amount now : ℕ) (o : Option TokenBucket) → lacks amount now o ≡ not (affords amount now o)
unfolding lacks
lacks-affords amount now none = refl
lacks-affords amount now (some b) =
    let x = refill-IsRefilled now b in ground (arith, x.same_capacity, x.used_is)

refilled-Owes : (now : ℕ) (o : Option TokenBucket) → Owes 0 now o (refilled now o)
unfolding refilled
refilled-Owes now none = refl
refilled-Owes now (some b) =
    let r = TokenBucket.refill now b in
    let x = refill-IsRefilled now b in
    (
      r,
      refl,
      x.same_capacity,
      x.same_refill,
      omega (arith, nothing_more r.used now r.updated r.refill_per_ms x.current, x.used_is),
    )

same-Owes : (now : ℕ) (o : Option TokenBucket) → Owes 0 now o o
same-Owes now none = refl
same-Owes now (some b) = (b, refl, refl, refl, omega arith)

charged-Owes : (amount now : ℕ) (o : Option TokenBucket) → Owes amount now o (charged amount now o)
unfolding charged TokenBucket.charge
charged-Owes amount now none = refl
charged-Owes amount now (some b) =
    let r = TokenBucket.refill now b in
    let x = refill-IsRefilled now b in
    (
      record r { used = r.used + amount },
      refl,
      x.same_capacity,
      x.same_refill,
      omega (
        arith,
        nothing_more (r.used + amount) now r.updated r.refill_per_ms x.current,
        x.used_is,
      ),
    )

is_none-refusal :
    (amount now : ℕ) (o : Option TokenBucket)
    → lacks amount now o ≡ true
    → (name : _) → is_none (refusal name amount now o) ≡ false
unfolding lacks refusal
is_none-refusal amount now none h name = cc
is_none-refusal amount now (some b) h name = refl

charged-refilled :
    (amount now : ℕ) (o : Option TokenBucket)
    → charged amount now (refilled now o) ≡ charged amount now o
unfolding charged refilled TokenBucket.charge TokenBucket.refill
charged-refilled amount now none = refl
charged-refilled amount now (some b) = ground arith

-- What `check_request` does: `none` if the request is admitted, and the exception if not.
pub record IsChecked (n now : ℕ) (l : TenantLimiter) (r : Option RateLimitExceeded × TenantLimiter)
    : Type 0 where
  pub decided : is_none r.0 ≡ has_room n now l
  -- A refused request costs nothing: both buckets owe what they owed.
  pub refused :
      has_room n now l ≡ false
      → Owes 0 now l.rpm_bucket r.1.rpm_bucket
        × Owes 0 now l.tpm_bucket r.1.tpm_bucket
        × (r.1.rejected ≡ l.rejected + 1)
        × (r.1.admitted ≡ l.admitted)
  pub passed :
      has_room n now l ≡ true
      → Owes (whole 1) now l.rpm_bucket r.1.rpm_bucket
        × Owes (whole n) now l.tpm_bucket r.1.tpm_bucket
        × (r.1.rejected ≡ l.rejected)
        × (r.1.admitted ≡ l.admitted + 1)

-- `check_request` admits a request exactly if the bucket of requests, where there is one, has room for
-- one more beside what it owes, and so does the bucket of tokens for the prompt's. An admitted request
-- makes the buckets owe one request and the prompt's tokens more; a refused one makes neither owe more.
pub check_request-IsChecked :
    (n now : ℕ) (l : TenantLimiter) → IsChecked n now l (check_request n now l)
unfolding check_request check_tokens
check_request-IsChecked n now l = elim (Bool-cases (lacks (whole 1) now l.rpm_bucket)) [
  | inl h ↦
      let a : affords (whole 1) now l.rpm_bucket ≡ false =
        ground (arith, h, lacks-affords (whole 1) now l.rpm_bucket) in
      rw h (record {
        decided = rw a (is_none-refusal (whole 1) now l.rpm_bucket h rpm);
        refused = λ e. (refilled-Owes now l.rpm_bucket, same-Owes now l.tpm_bucket, refl, refl);
        passed = λ e. ground (arith, a, e);
      })
  | inr h ↦ rw h (tokens n h)
]
  where
    tokens :
        (n : ℕ)
        → lacks (whole 1) now l.rpm_bucket ≡ false
        → IsChecked n now l
            (check_tokens n now (record l { rpm_bucket = refilled now l.rpm_bucket }))
    tokens zero h =
        let a : affords (whole 1) now l.rpm_bucket ≡ true =
          ground (arith, h, lacks-affords (whole 1) now l.rpm_bucket) in
        let one =
          subst (Owes (whole 1) now l.rpm_bucket)
            (sym (charged-refilled (whole 1) now l.rpm_bucket))
            (charged-Owes (whole 1) now l.rpm_bucket) in
        record {
          decided = rw a refl;
          refused = λ e. ground (arith, a, e);
          passed = λ e. (one, same-Owes now l.tpm_bucket, refl, refl);
        }
    tokens (suc n) h =
        let a : affords (whole 1) now l.rpm_bucket ≡ true =
          ground (arith, h, lacks-affords (whole 1) now l.rpm_bucket) in
        let one =
          subst (Owes (whole 1) now l.rpm_bucket)
            (sym (charged-refilled (whole 1) now l.rpm_bucket))
            (charged-Owes (whole 1) now l.rpm_bucket) in
        elim (Bool-cases (lacks (whole (suc n)) now l.tpm_bucket)) [
          | inl g ↦
              let b : affords (whole (suc n)) now l.tpm_bucket ≡ false =
                ground (arith, g, lacks-affords (whole (suc n)) now l.tpm_bucket) in
              rw g (record {
                decided =
                    rw (a, b)
                      (ground (arith, is_none-refusal (whole (suc n)) now l.tpm_bucket g tpm));
                refused = λ e.
                    (refilled-Owes now l.rpm_bucket, refilled-Owes now l.tpm_bucket, refl, refl);
                passed = λ e. ground (arith, a, b, e);
              })
          | inr g ↦
              let b : affords (whole (suc n)) now l.tpm_bucket ≡ true =
                ground (arith, g, lacks-affords (whole (suc n)) now l.tpm_bucket) in
              rw g (record {
                decided = rw (a, b) (ground arith);
                refused = λ e. ground (arith, a, b, e);
                passed = λ e. (one, charged-Owes (whole (suc n)) now l.tpm_bucket, refl, refl);
              })
        ]

-- One call of a method.
pub data Step (l : TenantLimiter) : TenantLimiter → Type 0 where
  checks : (n now : ℕ) → Step l (check_request n now l).1
  charges : (n now : ℕ) → Step l (charge_tokens n now l)
  enters : Step l (enter_slot l).1
  leaves : Step l (release_slot l)

pub data Reach (l : TenantLimiter) : TenantLimiter → Type 0 where
  here : Reach l l
  next : {m n : TenantLimiter} → Reach l m → Step m n → Reach l n

-- Within the limit of concurrent requests, where the tenant has one.
abbrev pub WithinLimit : Tenant → TenantLimiter → Type 0
WithinLimit tenant l =
    (l.tenant ≡ tenant) × ((limit : ℕ) → tenant.max_concurrency ≡ some limit → l.in_flight ≤ limit)

check_tokens-slots :
    (n now : ℕ) (l : TenantLimiter)
    → ((check_tokens n now l).1.tenant ≡ l.tenant)
      × ((check_tokens n now l).1.in_flight ≡ l.in_flight)
unfolding check_tokens
check_tokens-slots zero now l = (refl, refl)
check_tokens-slots (suc n) now l = (ground arith, ground arith)

check_request-slots :
    (n now : ℕ) (l : TenantLimiter)
    → ((check_request n now l).1.tenant ≡ l.tenant)
      × ((check_request n now l).1.in_flight ≡ l.in_flight)
unfolding check_request
check_request-slots n now l =
    let k = check_tokens-slots n now (record l { rpm_bucket = refilled now l.rpm_bucket }) in
    (ground (arith, k), ground (arith, k))

charge_tokens-slots :
    (n now : ℕ) (l : TenantLimiter)
    → ((charge_tokens n now l).tenant ≡ l.tenant)
      × ((charge_tokens n now l).in_flight ≡ l.in_flight)
unfolding charge_tokens
charge_tokens-slots zero now l = (refl, refl)
charge_tokens-slots (suc n) now l = (ground arith, ground arith)

enter_slot-WithinLimit :
    (tenant : Tenant) (l : TenantLimiter)
    → WithinLimit tenant l
    → WithinLimit tenant (enter_slot l).1
unfolding enter_slot try_acquire_slot
enter_slot-WithinLimit tenant l v =
    (ground (arith, v.0), λ limit e. room limit (ap Tenant.max_concurrency v.0 ∙ e))
  where
    room : (limit : ℕ) → l.tenant.max_concurrency ≡ some limit → (enter_slot l).1.in_flight ≤ limit
    room limit e = ground (arith, e, v.1 limit)

Step-WithinLimit :
    (tenant : Tenant) {l m : TenantLimiter} → Step l m → WithinLimit tenant l → WithinLimit tenant m
unfolding release_slot
Step-WithinLimit tenant {l} (checks n now) v =
    let k = check_request-slots n now l in (k.0 ∙ v.0, λ limit e. ground (arith, k, v.1 limit e))
Step-WithinLimit tenant {l} (charges n now) v =
    let k = charge_tokens-slots n now l in (k.0 ∙ v.0, λ limit e. ground (arith, k, v.1 limit e))
Step-WithinLimit tenant {l} enters v = enter_slot-WithinLimit tenant l v
Step-WithinLimit tenant {l} leaves v = (ground (arith, v.0), λ limit e. ground (arith, v.1 limit e))

-- Whatever methods are called on a new limiter, no more requests of the tenant are in flight than its
-- limit of concurrent requests.
pub Reach-WithinLimit :
    (tenant : Tenant) (now : ℕ) {l : TenantLimiter}
    → Reach (tenant_limiter tenant now) l
    → WithinLimit tenant l
Reach-WithinLimit tenant now here = (refl, λ limit e. omega arith)
Reach-WithinLimit tenant now (next r st) =
    Step-WithinLimit tenant st (Reach-WithinLimit tenant now r)

-- `slot` lets a request in exactly if the tenant is below its limit, and a request that is let in and
-- leaves gives its slot back.
pub enter_slot-release_slot :
    (l : TenantLimiter)
    → ((enter_slot l).0 ≡ not (is_full l.tenant.max_concurrency l.in_flight))
      × ((enter_slot l).0 ≡ true → release_slot (enter_slot l).1 ≡ l)
unfolding enter_slot try_acquire_slot release_slot
enter_slot-release_slot l = (ground arith, λ e. ground arith)
