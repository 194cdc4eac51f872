-- ===== src/Jobs/Retry/Backoff/Bounds.antt =====
-- The exact factor and the range of CalculateBackoff (internal/jobs/retry.go).
use native.Mathlib.Nat.{pow-suc, suc-add}
use native.Mathlib.Numerals.{add-one}
use native.Mathlib.Decide.{dec_lt}
use repolens.Base.{
  ℕ, zero, suc, ◌+◌, ◌-◌, ◌*◌, ◌/◌, ◌^◌, ◌≤◌, ◌<◌, min, ◌≡◌, refl, ◌∙◌, ap, Bool, true, false, some,
  arith, if◌then◌else◌, nat_eq, nat_eq_iff,
}
use repolens.Jobs.Retry.Backoff.{
  backoff_factor, jitter_bound, with_jitter, bounded_jitter, calculate_backoff, i64, gt_i64, is_pos,
  second, minute, millisecond,
}

-- Far shifts leave nothing of the one bit.
pow_split : (m : ℕ) → 2 ^ (m + 64) ≡ 2 ^ m * 18446744073709551616
pow_split zero = refl
pow_split (suc m) = rw (suc-add, pow-suc, pow-suc) (omega (arith, pow_split m))

shifted_out : (k : ℕ) → 64 ≤ k → i64 (2 ^ k) ≡ 0
shifted_out k h = let e : k ≡ k - 64 + 64 = omega arith in rw (e, pow_split (k - 64)) (omega arith)

-- Whether the factor is right for the first shifts.
factors_agree : ℕ → Bool
factors_agree zero = true
factors_agree (suc n) =
    if nat_eq (backoff_factor (n + 1)) (2 ^ min n 6) then factors_agree n else false

factors_agree-lookup :
    (n k : ℕ)
    → factors_agree n ≡ true
    → k < n
    → nat_eq (backoff_factor (k + 1)) (2 ^ min k 6) ≡ true
unfolding factors_agree
factors_agree-lookup zero k h lt = absurd (omega arith)
factors_agree-lookup (suc n) k h lt = elim (dec_lt k n) [
  | yes below ↦ factors_agree-lookup n k (ground arith) below
  | no above ↦ let last : k ≡ n = omega arith in rw last (ground arith)
]

first_factors : factors_agree 64 ≡ true
unfolding factors_agree backoff_factor
first_factors = refl

factor_near : (k : ℕ) → k < 64 → backoff_factor (k + 1) ≡ 2 ^ min k 6
factor_near k h = (nat_eq_iff _ _).0 (factors_agree-lookup 64 k first_factors h)

shift_count : (k : ℕ) → (if nat_eq (k + 1) 0 then 1 else k + 1) - 1 ≡ k
shift_count k = ground arith

factor_far : (k : ℕ) → 64 ≤ k → backoff_factor (k + 1) ≡ 64
unfolding backoff_factor
factor_far k h = rw (shift_count k, shifted_out k h) refl

far_min : (k : ℕ) → 64 ≤ k → min (k + 1 - 1) 6 ≡ 6
far_min k h = omega arith

-- For every attempt number from 1 on, also where the shift wraps to a negative number or to 0, the
-- factor is 2^(attempt-1), capped at 64; attempt 0 counts as attempt 1.
pub backoff_factor-eq : (attempt : ℕ) → backoff_factor attempt ≡ 2 ^ min (attempt - 1) 6
backoff_factor-eq zero = unfold backoff_factor in refl
backoff_factor-eq (suc k) = elim (dec_lt k 64) [
  | yes near ↦ rw (← add-one) (factor_near k near ∙ ap (λ (t : ℕ). 2 ^ min t 6) (omega arith))
  | no far ↦ rw (← add-one) (rw (far_min k (omega arith)) (factor_far k (omega arith)))
]

factor_cap : (m : ℕ) → m ≤ 6 → (1 ≤ 2 ^ m) × (2 ^ m ≤ 64)
factor_cap zero h = omega arith
factor_cap (suc zero) h = omega arith
factor_cap (suc (suc zero)) h = omega arith
factor_cap (suc (suc (suc zero))) h = omega arith
factor_cap (suc (suc (suc (suc zero)))) h = omega arith
factor_cap (suc (suc (suc (suc (suc zero))))) h = omega arith
factor_cap (suc (suc (suc (suc (suc (suc zero)))))) h = omega arith
factor_cap (suc (suc (suc (suc (suc (suc (suc m))))))) h = omega arith

backoff_factor_bounds : (attempt : ℕ) → (1 ≤ backoff_factor attempt) × (backoff_factor attempt ≤ 64)
backoff_factor_bounds attempt =
    rw (backoff_factor-eq attempt) (factor_cap (min (attempt - 1) 6) (omega arith))

module _ (int63n : ℕ → ℕ) (int63n_range : (n : ℕ) → 0 < n → int63n n < n) where
  capped_jitter :
      (b limit : ℕ)
      → b ≤ limit
      → 0 < limit
      → limit < 2 ^ 62
      → (d : ℕ) × (with_jitter int63n b limit (jitter_bound b) ≡ some d)
        × (b ≤ d)
        × (d ≤ limit)
        × (4 * d ≤ 5 * b + 4 * millisecond)
  unfolding with_jitter jitter_bound
  capped_jitter b limit h hl hm =
      let n : ℕ = b / millisecond / 4 + 1 in
      let r : int63n n < n = int63n_range n (omega arith) in
      (min (b + int63n n * millisecond) limit, ground arith, omega arith, omega arith, omega arith)

  jittered :
      (p limit : ℕ)
      → p < 2 ^ 63
      → 0 < limit
      → limit < 2 ^ 62
      → (d : ℕ) × (bounded_jitter int63n p limit ≡ some d)
        × (min p limit ≤ d)
        × (d ≤ limit)
        × (4 * d ≤ 5 * min p limit + 4 * millisecond)
  unfolding bounded_jitter
  jittered p limit hp hl hm =
      let e : (if gt_i64 p limit then limit else p) ≡ min p limit = ground arith in
      rw e (capped_jitter (min p limit) limit (omega arith) hl hm)

  -- For a base below 2^56 ns and a cap below 2^62 ns, both positive, the computation does not
  -- overflow and does not panic. Its result lies between the capped exponential value
  -- min(base * 2^(attempt-1), cap), whose factor is at most 64, and the cap, and exceeds the former
  -- by at most a quarter and a millisecond.
  pub calculate_backoff_bounds :
      (attempt base limit : ℕ)
      → 0 < base
      → base < 2 ^ 56
      → 0 < limit
      → limit < 2 ^ 62
      → (d : ℕ) × (calculate_backoff int63n attempt base limit ≡ some d)
        × (min (base * 2 ^ min (attempt - 1) 6) limit ≤ d)
        × (d ≤ limit)
        × (4 * d ≤ 5 * min (base * 2 ^ min (attempt - 1) 6) limit + 4 * millisecond)
  unfolding calculate_backoff
  calculate_backoff_bounds attempt base limit h hb hl hm =
      let range = backoff_factor_bounds attempt in
      let product : base * backoff_factor attempt < 2 ^ 63 = grind arith in
      let e : i64 (base * backoff_factor attempt) ≡ base * backoff_factor attempt = omega arith in
      let b : (if is_pos base then base else second) ≡ base = ground arith in
      let l : (if is_pos limit then limit else minute) ≡ limit = ground arith in
      rw (← backoff_factor-eq attempt, b, l, e)
        (jittered (base * backoff_factor attempt) limit product hl hm)
