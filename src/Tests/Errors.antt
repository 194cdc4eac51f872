-- ===== src/Tests/Errors.antt =====
-- The retry policy on concrete errors.
use repolens.Base.{
  String, true, none, ◌↔◌, ◌⊎◌, ℕ, ◌-◌, ◌*◌, ◌+◌, ◌^◌, ◌≤◌, min, ◌≡◌, arith, some, [],
}
use repolens.Jobs.Model.{class_cancelled, user_cancel, shutdown}
use repolens.Jobs.Retry.Backoff.{backoff_factor, calculate_backoff, second, minute, millisecond}
use repolens.Jobs.Retry.Backoff.Bounds.{backoff_factor-eq, calculate_backoff_bounds}
use repolens.Jobs.Retry.Classify.{
  GoError, stop, join, http_status, classify_error, find_categorized, is_stop,
}
use repolens.Jobs.Retry.Classify.Laws.{classify-cancelled_iff}

-- The largest jitter that `rand.Int63n` allows.
abbrev largest : ℕ → ℕ
largest n = n - 1

calculate_backoff_bounds_example :
    (d : ℕ) × (calculate_backoff largest 5 second minute ≡ some d)
    × (min (second * 2 ^ min (5 - 1) 6) minute ≤ d)
    × (d ≤ minute)
    × (4 * d ≤ 5 * min (second * 2 ^ min (5 - 1) 6) minute + 4 * millisecond)
calculate_backoff_bounds_example =
    calculate_backoff_bounds largest (λ n h. omega arith) 5 second minute (omega arith)
      (omega arith) (omega arith) (omega arith)

abbrev overloaded : GoError
overloaded = join (http_status 503 []) (stop shutdown)

backoff_factor-eq_example : backoff_factor 64 ≡ 2 ^ min (64 - 1) 6
backoff_factor-eq_example = backoff_factor-eq 64

abbrev user_code : String
user_code = "CANCELLATION_REQUESTED"

classify-cancelled_iff_example :
    (classify_error (some overloaded) ≡ some (class_cancelled, "CANCELLATION_REQUESTED")) ↔ (
      (find_categorized overloaded ≡ some (class_cancelled, "CANCELLATION_REQUESTED"))
      ⊎ ((find_categorized overloaded ≡ none)
          × (is_stop user_cancel overloaded ≡ true)
          × (user_code ≡ "CANCELLATION_REQUESTED")))
classify-cancelled_iff_example = classify-cancelled_iff overloaded "CANCELLATION_REQUESTED"

abbrev status : ℕ
status = 503
