-- ===== src/Jobs/Retry/Classify/Laws.antt =====
-- Which errors become user cancellations, what wrapping changes, and which HTTP statuses are retried
-- (internal/jobs/retry.go).
use repolens.Base.{
  ℕ, ◌≤◌, String, ◌≡◌, ◌↔◌, ◌⊎◌, Bool, true, false, ◌||◌, Option, none, some, List, arith,
}
use repolens.Jobs.Model.{
  retryable, permanent, class_cancelled, user_cancel, ownership, lease_failure, cancel_poll_error,
  shutdown,
}
use repolens.Jobs.Retry.Classify.{
  GoError, wrap, find_categorized, find_status, is_stop, is_canceled, is_deadline, error_text,
  classify_text, classify_status, classify_sentinels, classify_error, http_status_to_error_class,
}

-- A status is retried exactly if it is 429 or from 500 to 599; every other one is permanent.
http_status-retryable_iff :
    (n : ℕ) → ((http_status_to_error_class n).0 ≡ retryable) ↔ ((n ≡ 429) ⊎ ((500 ≤ n) × (n ≤ 599)))
unfolding http_status_to_error_class
http_status-retryable_iff n = (λ h. ground arith, λ h. ground arith)

classify_status-class :
    (o : Option ℕ) (t : List ℕ)
    → ((classify_status o t).0 ≡ retryable) ⊎ ((classify_status o t).0 ≡ permanent)
unfolding classify_status http_status_to_error_class classify_text
classify_status-class none t = ground arith
classify_status-class (some n) t = ground arith

-- An error is classified as a user cancellation exactly if its first explicit category says so, or
-- it has no explicit category and wraps the user's cancellation: no lost lease, no shutdown, no
-- cancelled context and no text does.
pub classify-cancelled_iff :
    (e : GoError) (c : String)
    → (classify_error (some e) ≡ some (class_cancelled, c)) ↔ (
        (find_categorized e ≡ some (class_cancelled, c))
        ⊎ ((find_categorized e ≡ none)
            × (is_stop user_cancel e ≡ true)
            × (c ≡ "CANCELLATION_REQUESTED")))
unfolding classify_error classify_sentinels
classify-cancelled_iff e c =
    let k = classify_status-class (find_status e) (error_text e) in
    (λ h. ground arith, λ h. ground arith)

abbrev pub is_some : {A : Type 0} → Option A → Bool
is_some none = false
is_some (some a) = true

-- Something in the tree decides the class before the text is looked at.
abbrev pub is_recognised : GoError → Bool
is_recognised e =
    is_some (find_categorized e)
    || is_stop user_cancel e
    || is_stop ownership e
    || is_stop shutdown e
    || is_stop lease_failure e
    || is_stop cancel_poll_error e
    || is_canceled e
    || is_deadline e
    || is_some (find_status e)

-- Context added with `%w` does not change the class or the code of an error that has an explicit
-- category, a sentinel or an HTTP status: the text decides only where nothing else does.
classify-wrap :
    (p : List ℕ) (e : GoError)
    → is_recognised e ≡ true
    → classify_error (some (wrap p e)) ≡ classify_error (some e)
unfolding classify_error find_categorized is_stop is_canceled is_deadline find_status
    classify_status
classify-wrap p e h = ground arith
