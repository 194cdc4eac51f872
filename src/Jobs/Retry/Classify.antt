-- ===== src/Jobs/Retry/Classify.antt =====
-- ClassifyError and HTTPStatusToErrorClass (internal/jobs/retry.go). An error is the tree that
-- `errors.As` and `errors.Is` walk, depth first; a text is a list of ASCII codes.
pub mod Laws
use repolens.Base.{
  ℕ, ◌+◌, String, Bool, true, false, ◌&&◌, ◌||◌, Option, none, some, List, [], ◌∷◌, ◌++◌, map, leb,
  nat_eq, if◌then◌else◌,
}
use repolens.Base.Text.{codes, to_lower, contains}
use repolens.Jobs.Model.{
  ErrorClass, retryable, permanent, class_cancelled, class_ownership_lost, StopCause, user_cancel,
  ownership, lease_failure, cancel_poll_error, shutdown,
}

pub data GoError : Type 0 where
  text : List ℕ → GoError
  stop : StopCause → GoError
  context_canceled context_deadline_exceeded : GoError
  -- An error with an `HTTPStatusCode` method: its status and text.
  http_status : ℕ → List ℕ → GoError
  -- *CategorizedError: class, code and message, without and with a cause.
  categorized : ErrorClass → String → List ℕ → GoError
  caused : ErrorClass → String → List ℕ → GoError → GoError
  -- fmt.Errorf("prefix%w", e) and fmt.Errorf("%w: %w", a, b)
  wrap : List ℕ → GoError → GoError
  join : GoError → GoError → GoError

-- (StopCause).Error
stop_text : StopCause → String
stop_text user_cancel = "user cancellation requested"
stop_text ownership = "job ownership lost: claim token or lease is no longer valid"
stop_text lease_failure = "lease renewal failed"
stop_text cancel_poll_error = "cancel poll failed"
stop_text shutdown = "worker shutdown"

-- err.Error()
error_text : GoError → List ℕ
unfolding stop_text
error_text (text t) = t
error_text (stop c) = codes (stop_text c)
error_text context_canceled = codes "context canceled"
error_text context_deadline_exceeded = codes "context deadline exceeded"
error_text (http_status n t) = t
error_text (categorized k c m) = m
error_text (caused k c m e) = m ++ codes ": " ++ error_text e
error_text (wrap p e) = p ++ error_text e
error_text (join a b) = error_text a ++ codes ": " ++ error_text b

abbrev pub or_else : {A : Type 0} → Option A → Option A → Option A
or_else none b = b
or_else (some a) b = some a

-- errors.As(err, &catErr)
unfoldable pub find_categorized : GoError → Option (ErrorClass × String)
find_categorized (categorized k c m) = some (k, c)
find_categorized (caused k c m e) = some (k, c)
find_categorized (wrap p e) = find_categorized e
find_categorized (join a b) = or_else (find_categorized a) (find_categorized b)
find_categorized _ = none

-- errors.As(err, &statusErr)
unfoldable pub find_status : GoError → Option ℕ
find_status (http_status n t) = some n
find_status (caused k c m e) = find_status e
find_status (wrap p e) = find_status e
find_status (join a b) = or_else (find_status a) (find_status b)
find_status _ = none

abbrev pub same_stop : StopCause → StopCause → Bool
same_stop user_cancel user_cancel = true
same_stop ownership ownership = true
same_stop lease_failure lease_failure = true
same_stop cancel_poll_error cancel_poll_error = true
same_stop shutdown shutdown = true
same_stop _ _ = false

-- errors.Is(err, cause)
unfoldable pub is_stop : StopCause → GoError → Bool
is_stop s (stop c) = same_stop s c
is_stop s (caused k c m e) = is_stop s e
is_stop s (wrap p e) = is_stop s e
is_stop s (join a b) = is_stop s a || is_stop s b
is_stop s _ = false

-- errors.Is(err, context.Canceled), errors.Is(err, context.DeadlineExceeded)
unfoldable pub is_canceled : GoError → Bool
is_canceled context_canceled = true
is_canceled (caused k c m e) = is_canceled e
is_canceled (wrap p e) = is_canceled e
is_canceled (join a b) = is_canceled a || is_canceled b
is_canceled _ = false

unfoldable pub is_deadline : GoError → Bool
is_deadline context_deadline_exceeded = true
is_deadline (caused k c m e) = is_deadline e
is_deadline (wrap p e) = is_deadline e
is_deadline (join a b) = is_deadline a || is_deadline b
is_deadline _ = false

contains_any : List ℕ → List String → Bool
unfolding contains
contains_any t [] = false
contains_any t (p ∷ ps) = contains t (codes p) || contains_any t ps

abbrev permanent_words : List String
permanent_words = "invalid" ∷ "not found" ∷ "unsupported" ∷ "malformed" ∷ "ssrf" ∷ "forbidden" ∷ []

abbrev retryable_words : List String
retryable_words =
    "timeout" ∷ "deadline exceeded" ∷ "connection refused" ∷ "reset by peer" ∷ "429" ∷ "500" ∷ "502"
    ∷ "503" ∷ "504" ∷ "rate limit" ∷ "temporarily unavailable" ∷ []

-- The text checks at the end of ClassifyError.
classify_text : List ℕ → ErrorClass × String
unfolding contains_any to_lower
classify_text t =
    let s = to_lower t in
    if contains_any s permanent_words
    then (permanent, "PERMANENT_VALIDATION_ERROR")
    else if contains_any s retryable_words
    then (retryable, "TRANSIENT_NETWORK_ERROR")
    else (retryable, "UNKNOWN_RETRYABLE_ERROR")

unfoldable pub http_status_to_error_class : ℕ → ErrorClass × String
http_status_to_error_class n =
    if nat_eq n 429
    then (retryable, "HTTP_429_RATE_LIMITED")
    else if leb 500 n && leb n 599
    then (retryable, "HTTP_5XX_SERVER_ERROR")
    else if nat_eq n 400
    then (permanent, "HTTP_400_BAD_REQUEST")
    else if nat_eq n 401 || nat_eq n 403
    then (permanent, "HTTP_AUTH_FAILURE")
    else if nat_eq n 404
    then (permanent, "HTTP_404_NOT_FOUND")
    else (permanent, "HTTP_CLIENT_ERROR")

-- From the HTTP status on.
classify_status : Option ℕ → List ℕ → ErrorClass × String
unfolding http_status_to_error_class classify_text
classify_status (some n) t = http_status_to_error_class n
classify_status none t = classify_text t

-- The sentinels, in the order of the tests.
classify_sentinels : GoError → ErrorClass × String
unfolding is_stop is_canceled is_deadline classify_status find_status error_text
classify_sentinels e =
    if is_stop user_cancel e
    then (class_cancelled, "CANCELLATION_REQUESTED")
    else if is_stop ownership e
    then (class_ownership_lost, "OWNERSHIP_LOST")
    else if is_stop shutdown e
    then (class_ownership_lost, "WORKER_SHUTDOWN")
    else if is_stop lease_failure e
    then (retryable, "LEASE_RENEW_FAILED")
    else if is_stop cancel_poll_error e
    then (retryable, "CANCEL_POLL_FAILED")
    else if is_canceled e
    then (retryable, "CONTEXT_CANCELED")
    else if is_deadline e
    then (retryable, "CONTEXT_DEADLINE_EXCEEDED")
    else classify_status (find_status e) (error_text e)

abbrev or_category : Option (ErrorClass × String) → ErrorClass × String → ErrorClass × String
or_category (some kc) d = kc
or_category none d = d

-- `nil` has no class.
unfoldable pub classify_error : Option GoError → Option (ErrorClass × String)
unfolding classify_sentinels find_categorized
classify_error none = none
classify_error (some e) = some (or_category (find_categorized e) (classify_sentinels e))
