-- ===== src/Gateway/TenantLimiter.antt =====
-- TenantLimiter: the live quotas of one tenant. A refusal, an exception in the code, is a value with
-- the limit that refused and the wait that goes into Retry-After, as a fraction of milliseconds.
pub mod Quota
use turboserve.Prelude.{
  ℕ, zero, suc, ◌+◌, ◌-◌, ◌*◌, Bool, true, false, ◌&&◌, Option, none, some, ltb, leb, ◌==◌,
  if◌then◌else◌,
}
use turboserve.Gateway.TokenBucket
use turboserve.Gateway.TokenBucket.{TokenBucket, per_minute, whole, is_short}

pub data LimitName : Type 0 where
  rpm tpm concurrency : LimitName

pub record RateLimitExceeded : Type 0 where
  pub limit : LimitName
  pub missing : ℕ
  pub refill_per_ms : ℕ

-- The quotas of a tenant's configuration.
pub record Tenant : Type 0 where
  pub rpm_limit : Option ℕ
  pub tpm_limit : Option ℕ
  pub max_concurrency : Option ℕ

pub record TenantLimiter : Type 0 where
  pub tenant : Tenant
  pub rpm_bucket : Option TokenBucket
  pub tpm_bucket : Option TokenBucket
  pub in_flight : ℕ
  pub admitted : ℕ
  pub rejected : ℕ
  pub tokens_charged : ℕ

abbrev pub bucket_for : Option ℕ → ℕ → Option TokenBucket
bucket_for none now = none
bucket_for (some limit) now = some (per_minute limit now)

-- `__post_init__`
abbrev pub tenant_limiter : Tenant → ℕ → TenantLimiter
tenant_limiter tenant now = record {
  tenant = tenant;
  rpm_bucket = bucket_for tenant.rpm_limit now;
  tpm_bucket = bucket_for tenant.tpm_limit now;
  in_flight = 0;
  admitted = 0;
  rejected = 0;
  tokens_charged = 0;
}

-- Reading the level of a bucket refills it.
unfoldable pub refilled : ℕ → Option TokenBucket → Option TokenBucket
unfolding TokenBucket.refill
refilled now none = none
refilled now (some b) = some (TokenBucket.refill now b)

-- Whether a bucket that is there lacks an amount.
unfoldable pub lacks : ℕ → ℕ → Option TokenBucket → Bool
unfolding TokenBucket.refill
lacks amount now none = false
lacks amount now (some b) = is_short amount (TokenBucket.refill now b)

unfoldable pub charged : ℕ → ℕ → Option TokenBucket → Option TokenBucket
unfolding TokenBucket.charge
charged amount now none = none
charged amount now (some b) = some (TokenBucket.charge amount now b)

-- The exception of a bucket that lacks an amount.
unfoldable pub refusal : LimitName → ℕ → ℕ → Option TokenBucket → Option RateLimitExceeded
unfolding TokenBucket.deficit
refusal limit amount now none = none
refusal limit amount now (some b) = some (record {
  limit = limit;
  missing = TokenBucket.deficit amount now b;
  refill_per_ms = b.refill_per_ms;
})

abbrev pub is_there : Option TokenBucket → Bool
is_there none = false
is_there (some b) = true

-- The part of `check_request` on tokens, which a request without prompt tokens passes.
unfoldable pub check_tokens : ℕ → ℕ → TenantLimiter → Option RateLimitExceeded × TenantLimiter
unfolding refilled lacks charged refusal
check_tokens zero now l =
    (none, record l { rpm_bucket = charged (whole 1) now l.rpm_bucket; admitted = l.admitted + 1 })
check_tokens (suc n) now l =
    if lacks (whole (suc n)) now l.tpm_bucket
    then (
      refusal tpm (whole (suc n)) now l.tpm_bucket,
      record l { tpm_bucket = refilled now l.tpm_bucket; rejected = l.rejected + 1 },
    )
    else (
      none,
      record l {
        rpm_bucket = charged (whole 1) now l.rpm_bucket;
        tpm_bucket = charged (whole (suc n)) now l.tpm_bucket;
        tokens_charged =
            if is_there l.tpm_bucket then l.tokens_charged + suc n else l.tokens_charged;
        admitted = l.admitted + 1;
      },
    )

-- `none` if the request is admitted.
unfoldable pub check_request : ℕ → ℕ → TenantLimiter → Option RateLimitExceeded × TenantLimiter
unfolding check_tokens
check_request prompt_tokens now l =
    let l' : TenantLimiter = record l { rpm_bucket = refilled now l.rpm_bucket } in
    if lacks (whole 1) now l.rpm_bucket
    then (refusal rpm (whole 1) now l.rpm_bucket, record l' { rejected = l.rejected + 1 })
    else check_tokens prompt_tokens now l'

unfoldable pub charge_tokens : ℕ → ℕ → TenantLimiter → TenantLimiter
unfolding charged
charge_tokens zero now l = l
charge_tokens (suc n) now l =
    if is_there l.tpm_bucket
    then record l {
      tpm_bucket = charged (whole (suc n)) now l.tpm_bucket;
      tokens_charged = l.tokens_charged + suc n;
    }
    else l

abbrev pub is_full : Option ℕ → ℕ → Bool
is_full none in_flight = false
is_full (some limit) in_flight = leb limit in_flight

unfoldable pub try_acquire_slot : TenantLimiter → Bool × TenantLimiter
try_acquire_slot l =
    if is_full l.tenant.max_concurrency l.in_flight
    then (false, l)
    else (true, record l { in_flight = l.in_flight + 1 })

unfoldable pub release_slot : TenantLimiter → TenantLimiter
release_slot l = if ltb 0 l.in_flight then record l { in_flight = l.in_flight - 1 } else l

-- `slot`, on entry: the exception is raised with the wait that the limiter was given.
unfoldable pub enter_slot : TenantLimiter → Bool × TenantLimiter
unfolding try_acquire_slot
enter_slot l =
    let (entered, l') = try_acquire_slot l in
    if entered then (true, l') else (false, record l' { rejected = l'.rejected + 1 })
