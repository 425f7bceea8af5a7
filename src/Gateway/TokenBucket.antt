-- ===== src/Gateway/TokenBucket.antt =====
-- TokenBucket: a bucket of allowance that refills with time. Times are in milliseconds and amounts in
-- such a fraction of a token that the refill of a millisecond is a whole number of them, both exact
-- where the code has floats. The code's level, which never passes the capacity and may go below zero,
-- is the capacity less what is used, so `used` is a natural number.
pub mod Rate
use turboserve.Prelude.{
  ℕ, zero, suc, ◌+◌, ◌-◌, ◌*◌, Bool, true, false, ltb, ◌==◌, if◌then◌else◌, Result, ok, err,
  value_error,
}

pub record TokenBucket : Type 0 where
  pub capacity : ℕ
  pub refill_per_ms : ℕ
  pub used : ℕ
  pub updated : ℕ

-- The constructor, with the default level.
unfoldable pub token_bucket : ℕ → ℕ → ℕ → Result TokenBucket
token_bucket capacity refill_per_ms now =
    if capacity == 0
    then err value_error
    else if refill_per_ms == 0
    then err value_error
    else ok (record { capacity = capacity; refill_per_ms = refill_per_ms; used = 0; updated = now })

abbrev pub ms_per_minute : ℕ
ms_per_minute = 60000

-- A whole token, in the fractions of a bucket that refills by the minute.
abbrev pub whole : ℕ → ℕ
whole n = n * ms_per_minute

-- `per_minute` with the default burst. The refill of a millisecond is `limit` of the fractions.
abbrev pub per_minute : ℕ → ℕ → TokenBucket
per_minute limit now = record {
  capacity = whole limit;
  refill_per_ms = limit;
  used = 0;
  updated = now;
}

-- `_refill`: a time that is not after the last one changes nothing.
unfoldable pub refill : ℕ → TokenBucket → TokenBucket
refill now b =
    if ltb b.updated now
    then record b { used = b.used - (now - b.updated) * b.refill_per_ms; updated = now }
    else b

-- `level < amount`, with no level below zero to write.
abbrev pub is_short : ℕ → TokenBucket → Bool
is_short amount b = ltb b.capacity (amount + b.used)

unfoldable pub try_acquire : ℕ → ℕ → TokenBucket → Bool × TokenBucket
unfolding refill
try_acquire amount now b =
    let b' = refill now b in
    if is_short amount b' then (false, b') else (true, record b' { used = b'.used + amount })

unfoldable pub charge : ℕ → ℕ → TokenBucket → TokenBucket
unfolding refill
charge amount now b = let b' = refill now b in record b' { used = b'.used + amount }

unfoldable pub refund : ℕ → ℕ → TokenBucket → TokenBucket
unfolding refill
refund amount now b = let b' = refill now b in record b' { used = b'.used - amount }

-- What is missing for an amount, which `retry_after` divides by the refill; zero if nothing is.
unfoldable pub deficit : ℕ → ℕ → TokenBucket → ℕ
unfolding refill
deficit amount now b = let b' = refill now b in amount + b'.used - b'.capacity

unfoldable pub reset : ℕ → TokenBucket → TokenBucket
reset now b = record b { used = 0; updated = now }
