-- ===== src/Jobs/Retry/Backoff.antt =====
-- CalculateBackoff (internal/jobs/retry.go). A `time.Duration` is an int64 of nanoseconds, held as
-- its 64-bit pattern: a pattern from 2^63 on is negative.
pub mod Bounds
use repolens.Base.{
  ℕ, ◌+◌, ◌-◌, ◌*◌, ◌/◌, ◌%◌, ◌^◌, Bool, true, false, ◌||◌, Option, none, some, ltb, leb, nat_eq,
  if◌then◌else◌,
}

abbrev i64 : ℕ → ℕ
i64 n = n % 2 ^ 64

abbrev is_negative : ℕ → Bool
is_negative n = leb (2 ^ 63) n

-- a > b on int64
abbrev gt_i64 : ℕ → ℕ → Bool
gt_i64 a b =
    if is_negative a
    then (if is_negative b then ltb b a else false)
    else (if is_negative b then true else ltb b a)

abbrev is_pos : ℕ → Bool
is_pos n = gt_i64 n 0

abbrev pub millisecond : ℕ
millisecond = 1000000

abbrev pub second : ℕ
second = 1000 * millisecond

abbrev pub minute : ℕ
minute = 60 * second

-- `factor := 1 << uint(attempt-1)` and its cap
unfoldable pub backoff_factor : ℕ → ℕ
backoff_factor attempt =
    let n = (if nat_eq attempt 0 then 1 else attempt) in
    let factor = i64 (2 ^ (n - 1)) in
    if leb factor 0 || is_negative factor || ltb 64 factor then 64 else factor

-- The argument of `rand.Int63n`, backoff.Milliseconds()/4 + 1; `none` where it is not positive,
-- at which `Int63n` panics. Division rounds toward 0.
unfoldable pub jitter_bound : ℕ → Option ℕ
jitter_bound backoff =
    if is_negative backoff
    then (if nat_eq ((2 ^ 64 - backoff) / millisecond / 4) 0 then some 1 else none)
    else some (backoff / millisecond / 4 + 1)

with_jitter : (ℕ → ℕ) → ℕ → ℕ → Option ℕ → Option ℕ
with_jitter int63n backoff limit none = none
with_jitter int63n backoff limit (some n) =
    let total = i64 (backoff + int63n n * millisecond) in
    some (if gt_i64 total limit then limit else total)

-- From the product on: the cap, the jitter, and the cap again.
bounded_jitter : (ℕ → ℕ) → ℕ → ℕ → Option ℕ
unfolding with_jitter jitter_bound
bounded_jitter int63n product limit =
    let backoff = (if gt_i64 product limit then limit else product) in
    with_jitter int63n backoff limit (jitter_bound backoff)

-- `int63n` is `rand.Int63n` at this call.
unfoldable pub calculate_backoff : (ℕ → ℕ) → ℕ → ℕ → ℕ → Option ℕ
unfolding bounded_jitter
calculate_backoff int63n attempt base_duration max_duration =
    let base = (if is_pos base_duration then base_duration else second) in
    let limit = (if is_pos max_duration then max_duration else minute) in
    bounded_jitter int63n (i64 (base * backoff_factor attempt)) limit
