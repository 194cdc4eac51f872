-- ===== src/Jobs/Model.antt =====
-- internal/jobs/model.go and cause.go: the job row, its enumerations and the errors of the store.
-- Times are instants on one clock, in nanoseconds; a `NULL` column is `none`.
use repolens.Base.{ℕ, String, Bool, true, false, Option, some, ◌||◌}

pub data JobType : Type 0 where
  materialize_snapshot build_code_index build_retrieval run_diagnosis : JobType
  -- Any other text in the column; every `switch` of the source has a `default`.
  other : String → JobType

pub data JobStatus : Type 0 where
  pending running retry_wait succeeded failed cancelled : JobStatus

pub data TerminalReason : Type 0 where
  retryable_exhausted permanent_failure user_cancelled : TerminalReason

pub data ErrorClass : Type 0 where
  retryable permanent class_cancelled class_ownership_lost : ErrorClass

pub data StopCause : Type 0 where
  user_cancel ownership lease_failure cancel_poll_error shutdown : StopCause

pub record AnalysisJob : Type 0 where
  pub id : ℕ
  pub job_type : JobType
  pub resource_id : String
  pub status : JobStatus
  pub execution_generation : ℕ
  pub terminal_reason : Option TerminalReason
  pub attempt_count : ℕ
  pub execution_started : Bool
  pub max_attempts : ℕ
  pub next_run_at : ℕ
  pub worker_id : Option String
  pub claim_token : Option String
  pub lease_until : Option ℕ
  pub cancel_requested : Bool
  pub last_error_class : Option ErrorClass
  pub last_error_code : Option String
  pub last_error_message : Option String
  pub created_at : ℕ
  pub updated_at : ℕ
  pub finished_at : Option ℕ

-- What a store operation returns in place of a value: the sentinels, the conflicts that it
-- formats as text, and a fault of the driver.
pub data StoreError : Type 0 where
  ownership_lost already_finalized cancellation_not_requested cancellation_unsupported : StoreError
  no_rows unsupported_job_type state_conflict changed_meanwhile cannot_cancel : StoreError
  cannot_requeue retry_not_allowed driver_fault : StoreError

abbrev pub is_diagnosis : JobType → Bool
is_diagnosis run_diagnosis = true
is_diagnosis _ = false

abbrev pub is_pending : JobStatus → Bool
is_pending pending = true
is_pending _ = false

abbrev pub is_running : JobStatus → Bool
is_running running = true
is_running _ = false

abbrev pub is_retry_wait : JobStatus → Bool
is_retry_wait retry_wait = true
is_retry_wait _ = false

abbrev pub is_failed : JobStatus → Bool
is_failed failed = true
is_failed _ = false

abbrev pub is_cancelled : JobStatus → Bool
is_cancelled cancelled = true
is_cancelled _ = false

-- status IN ('PENDING', 'RETRY_WAIT')
abbrev pub is_claimable : JobStatus → Bool
is_claimable s = is_pending s || is_retry_wait s

-- status IN ('PENDING', 'RUNNING', 'RETRY_WAIT')
abbrev pub is_active : JobStatus → Bool
is_active s = is_claimable s || is_running s

-- isTerminalJobStatus
abbrev pub is_terminal_job_status : JobStatus → Bool
is_terminal_job_status succeeded = true
is_terminal_job_status failed = true
is_terminal_job_status cancelled = true
is_terminal_job_status _ = false

abbrev pub is_exhausted : Option TerminalReason → Bool
is_exhausted (some retryable_exhausted) = true
is_exhausted _ = false
