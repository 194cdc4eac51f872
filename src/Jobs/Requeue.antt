-- ===== src/Jobs/Requeue.antt =====
-- internal/jobs/store.go, the user's retries: ManualRequeueTx, RetryDiagnosis and the policy of
-- IsRetryableDiagnosisProviderFailure. Missing tables of test fixtures are left out.
pub mod Outcome
use repolens.Base.{
  ℕ, ◌+◌, String, Bool, false, not, ◌&&◌, Option, none, some, List, [], ◌∷◌, nat_eq, text_key,
  if◌then◌else◌,
}
use repolens.Base.Text.{codes, to_upper, trim_space, is_one_of}
use repolens.Sql.Result.{pure, fail, query, guard, ◌>>=◌, ◌>>◌}
use repolens.Jobs.Model.{
  JobType, build_retrieval, run_diagnosis, other, pending, ErrorClass, retryable, permanent,
  AnalysisJob, no_rows, unsupported_job_type, cannot_requeue, retry_not_allowed, is_failed,
  is_exhausted,
}
use repolens.Jobs.Db.{
  StoreTx, Resource, created, DiagnosisRun, RunStatus, resource_row, run_row, job_by_resource,
  update_job_by_resource, update_run, update_resource,
}
use repolens.Jobs.Business.{is_resource_failed, is_failed_run}

-- The row after a manual requeue: a new generation with a clean slate.
abbrev pub requeue_row : ℕ → AnalysisJob → AnalysisJob
requeue_row now j = record j {
  status = pending;
  execution_generation = j.execution_generation + 1;
  attempt_count = 0;
  execution_started = false;
  next_run_at = now;
  worker_id = none;
  claim_token = none;
  lease_until = none;
  cancel_requested = false;
  last_error_class = none;
  last_error_code = none;
  last_error_message = none;
  terminal_reason = none;
  finished_at = none;
  updated_at = now;
}

-- What the UPDATE sets; only retrieval_builds has an artifact to forget.
abbrev pub restore_resource_row : JobType → Resource → Resource
restore_resource_row build_retrieval r = record r {
  status = created;
  error_code = none;
  ready_at = none;
  artifact_path = "";
  artifact_hash = "";
}
restore_resource_row _ r = record r { status = created; error_code = none; ready_at = none }

abbrev pub restore_run_row : DiagnosisRun → DiagnosisRun
restore_run_row r = record r {
  status = RunStatus.queued;
  cancel_requested = false;
  final_attempt_id = none;
  version = r.version + 1;
}

-- A business row that exists in another state than FAILED refuses the requeue; a missing one does
-- not.
unfoldable pub refuse_existing : {A : Type 0} → Option A → StoreTx (Unit {0})
refuse_existing none = pure tt
refuse_existing (some _) = fail cannot_requeue

unfoldable pub restore_resource : JobType → String → StoreTx (Unit {0})
unfolding refuse_existing
restore_resource kind resource = do
  affected ←
      update_resource kind resource (λ r. is_resource_failed r.status) (restore_resource_row kind)
  row ← query (resource_row kind resource)
  if nat_eq affected 1 then pure tt else refuse_existing row

unfoldable pub restore_business : JobType → String → StoreTx (Unit {0})
unfolding restore_resource refuse_existing
restore_business run_diagnosis resource = do
  affected ← update_run resource (λ r. is_failed_run r.status) restore_run_row
  row ← query (run_row resource)
  if nat_eq affected 1 then pure tt else refuse_existing row
restore_business (other s) resource = fail unsupported_job_type
restore_business kind resource = restore_resource kind resource

unfoldable pub manual_requeue : JobType → String → ℕ → StoreTx (Unit {0})
unfolding restore_business
manual_requeue kind resource now = do
  restore_business kind resource
  affected ←
      update_job_by_resource kind resource
        (λ j. is_failed j.status && is_exhausted j.terminal_reason) (requeue_row now)
  guard (not (nat_eq affected 0)) cannot_requeue

abbrev pub retryable_provider_errors : List String
retryable_provider_errors =
    "PROVIDER_TIMEOUT" ∷ "PROVIDER_CONNECTION_FAILED" ∷ "PROVIDER_UPSTREAM_ERROR"
    ∷ "PROVIDER_RATE_LIMITED" ∷ "PROVIDER_5XX" ∷ "PROVIDER_NETWORK_ERROR" ∷ "HTTP_429_RATE_LIMITED"
    ∷ "HTTP_5XX_SERVER_ERROR" ∷ "TRANSIENT_NETWORK_ERROR" ∷ []

abbrev pub restartable_permanent_errors : List String
restartable_permanent_errors =
    "PROVIDER_PROGRESS_ABORTED" ∷ "PROVIDER_OUTCOME_UNKNOWN" ∷ "CHECKPOINT_SAVE_FAILED"
    ∷ "CHECKPOINT_VERSION_MISMATCH" ∷ []

-- strings.ToUpper(strings.TrimSpace(code))
abbrev pub normal_code : List ℕ → List ℕ
normal_code c = to_upper (trim_space c)

unfoldable pub is_retryable_diagnosis_provider_error : List ℕ → Bool
is_retryable_diagnosis_provider_error c = is_one_of (normal_code c) retryable_provider_errors

unfoldable pub is_retryable_diagnosis_provider_failure : Option ErrorClass → List ℕ → Bool
is_retryable_diagnosis_provider_failure (some permanent) c =
    is_one_of (normal_code c) restartable_permanent_errors
is_retryable_diagnosis_provider_failure (some retryable) c =
    is_retryable_diagnosis_provider_error (normal_code c)
is_retryable_diagnosis_provider_failure _ c = false

-- SELECT ... WHERE job_type = 'RUN_DIAGNOSIS' AND resource_id = ? AND status = 'FAILED'
unfoldable pub failed_job : Option AnalysisJob → StoreTx AnalysisJob
failed_job none = fail no_rows
failed_job (some j) = if is_failed j.status then pure j else fail no_rows

abbrev pub text_or_empty : Option String → String
text_or_empty none = ""
text_or_empty (some s) = s

unfoldable pub retry_diagnosis : String → ℕ → StoreTx (Unit {0})
unfolding failed_job
retry_diagnosis resource now = do
  row ← query (job_by_resource run_diagnosis resource)
  j ← failed_job row
  guard
      (is_retryable_diagnosis_provider_failure j.last_error_class
        (to_upper (codes (text_or_empty j.last_error_code))))
      retry_not_allowed
  runs ← update_run resource (λ r. is_failed_run r.status) restore_run_row
  guard (nat_eq runs 1) retry_not_allowed
  affected ←
      update_job_by_resource run_diagnosis resource (λ j. is_failed j.status) (requeue_row now)
  guard (nat_eq affected 1) retry_not_allowed
