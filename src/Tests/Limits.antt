-- ===== src/Tests/Limits.antt =====
-- A tenant with two requests a minute, ten tokens a minute and one request at a time.
use turboserve.Prelude.{◌+◌, ◌-◌, ◌*◌, ◌≤◌, ◌≡◌, ◌&&◌, some, List, [], ◌∷◌, leb, arith}
use turboserve.Gateway.TokenBucket.{TokenBucket, per_minute, refill, try_acquire, deficit, whole}
use turboserve.Gateway.TokenBucket.Rate.{Attempt, spend, spend-bounded, try_acquire-after}
use turboserve.Gateway.TenantLimiter.{
  Tenant, TenantLimiter, tenant_limiter, check_request, enter_slot,
}
use turboserve.Gateway.TenantLimiter.Quota.{
  IsChecked, check_request-IsChecked, here, next, checks, enters, WithinLimit, Reach-WithinLimit,
}

abbrev tenant : Tenant
tenant = record { rpm_limit = some 2; tpm_limit = some 10; max_concurrency = some 1 }

abbrev bucket : TokenBucket
bucket = per_minute 2 0

abbrev attempts : List Attempt
attempts = record { amount = whole 2; at = 5 } ∷ record { amount = whole 1; at = 6 } ∷ []

spend-bounded_example :
    (spend attempts bucket).0 ≤ bucket.capacity + (100 - bucket.updated) * bucket.refill_per_ms
spend-bounded_example =
    spend-bounded attempts bucket 100 (omega arith, (omega arith, omega arith)) (omega arith)

abbrev spent : TokenBucket
spent = record { capacity = 120000; refill_per_ms = 2; used = 120000; updated = 7 }

try_acquire-after_example : (try_acquire (whole 1) (10 + 30000) (refill 10 spent)).0 ≡ (
    leb (whole 1) spent.capacity && leb (deficit (whole 1) 10 spent) (30000 * spent.refill_per_ms))
try_acquire-after_example = try_acquire-after (whole 1) 10 30000 spent (omega arith)

check_request-IsChecked_example :
    IsChecked 12 3 (tenant_limiter tenant 0) (check_request 12 3 (tenant_limiter tenant 0))
check_request-IsChecked_example = check_request-IsChecked 12 3 (tenant_limiter tenant 0)

abbrev entered : TenantLimiter
entered = (enter_slot (check_request 4 3 (tenant_limiter tenant 0)).1).1

Reach-WithinLimit_example : WithinLimit tenant (enter_slot entered).1
Reach-WithinLimit_example =
    Reach-WithinLimit tenant 0 (next (next (next here (checks 4 3)) enters) enters)
