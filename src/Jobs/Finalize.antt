-- ===== src/Jobs/Finalize.antt =====
-- internal/jobs/store.go, the claim-fenced end of an execution: loadOwnedRunningJobTx,
-- ConditionalFinalizeSuccessTx, ConditionalFinalizeFailureTx and ConditionalFinalizeCancelTx.
pub mod Fencing
pub mod Owner
pub mod Report
use repolens.Base.{
  ℕ, String, Bool, false, not, ◌&&◌, ◌||◌, Option, none, some, nat_eq, if◌then◌else◌,
}
use repolens.Sql.Result.{pure, fail, query, guard, ◌>>=◌, ◌>>◌}
use repolens.Jobs.Model.{
  retry_wait, succeeded, failed, cancelled, TerminalReason, user_cancelled, ErrorClass, AnalysisJob,
  ownership_lost, already_finalized, cancellation_not_requested, cancellation_unsupported,
  is_diagnosis, is_terminal_job_status,
}
use repolens.Jobs.Db.{StoreTx, job_row, update_job}
use repolens.Jobs.Claim.{holds_claim}
use repolens.Jobs.Business.{fail_business, cancel_diagnosis_run}

-- status = 'RUNNING' AND worker_id = ? AND claim_token = ? AND execution_started = TRUE
abbrev pub owns_execution : String → String → AnalysisJob → Bool
owns_execution worker token j = holds_claim worker token j && j.execution_started

unfoldable pub owned_or_lost : String → String → Option AnalysisJob → StoreTx AnalysisJob
owned_or_lost worker token none = fail ownership_lost
owned_or_lost worker token (some j) =
    if owns_execution worker token j then pure j else fail ownership_lost

unfoldable pub load_owned_running_job : ℕ → String → String → StoreTx AnalysisJob
unfolding owned_or_lost
load_owned_running_job id worker token = do row ← query (job_row id); owned_or_lost worker token row

abbrev pub cancel_row : ℕ → AnalysisJob → AnalysisJob
cancel_row now j = record j {
  status = cancelled;
  terminal_reason = some user_cancelled;
  finished_at = some now;
  updated_at = now;
}

unfoldable pub finalize_cancel : ℕ → String → String → ℕ → StoreTx (Unit {0})
unfolding load_owned_running_job
finalize_cancel id worker token now = do
  owned ← load_owned_running_job id worker token
  guard (is_diagnosis owned.job_type) cancellation_unsupported
  guard owned.cancel_requested cancellation_not_requested
  affected ←
      update_job id (λ j. owns_execution worker token j && j.cancel_requested) (cancel_row now)
  guard (not (nat_eq affected 0)) ownership_lost
  cancel_diagnosis_run owned.resource_id owned.execution_generation now

-- Where success meets a requested cancellation.
unfoldable pub cancel_or_unsupported : AnalysisJob → ℕ → String → String → ℕ → StoreTx (Unit {0})
cancel_or_unsupported owned id worker token now =
    if is_diagnosis owned.job_type
    then finalize_cancel id worker token now
    else fail cancellation_unsupported

unfoldable pub final_or_lost : Option AnalysisJob → StoreTx (Unit {0})
final_or_lost none = fail ownership_lost
final_or_lost (some j) =
    if is_terminal_job_status j.status then fail already_finalized else fail ownership_lost

-- What is made of an UPDATE of ConditionalFinalizeSuccessTx that met no row.
unfoldable pub recheck_success : ℕ → String → String → ℕ → Option AnalysisJob → StoreTx (Unit {0})
unfolding cancel_or_unsupported final_or_lost
recheck_success id worker token now none = fail ownership_lost
recheck_success id worker token now (some current) =
    if owns_execution worker token current && current.cancel_requested
    then cancel_or_unsupported current id worker token now
    else final_or_lost (some current)

abbrev pub success_row : ℕ → AnalysisJob → AnalysisJob
success_row now j = record j { status = succeeded; finished_at = some now; updated_at = now }

unfoldable pub mark_succeeded : ℕ → String → String → ℕ → StoreTx (Unit {0})
unfolding recheck_success
mark_succeeded id worker token now = do
  affected ←
      update_job id (λ j. owns_execution worker token j && not j.cancel_requested) (success_row now)
  current ← query (job_row id)
  if nat_eq affected 0 then recheck_success id worker token now current else pure tt

unfoldable pub finalize_success : ℕ → String → String → ℕ → StoreTx (Unit {0})
unfolding load_owned_running_job cancel_or_unsupported mark_succeeded
finalize_success id worker token now = do
  owned ← load_owned_running_job id worker token
  if owned.cancel_requested
      then cancel_or_unsupported owned id worker token now
      else mark_succeeded id worker token now

-- The failure that a worker reports.
pub record Failure : Type 0 where
  pub error_class : ErrorClass
  pub error_code : String
  pub error_message : String
  pub terminal_reason : Option TerminalReason
  pub is_terminal : Bool
  pub next_run_at : ℕ

abbrev pub failed_row : Failure → ℕ → AnalysisJob → AnalysisJob
failed_row f now j = record j {
  status = failed;
  terminal_reason = f.terminal_reason;
  last_error_class = some f.error_class;
  last_error_code = some f.error_code;
  last_error_message = some f.error_message;
  finished_at = some now;
  updated_at = now;
}

abbrev pub retry_row : Failure → ℕ → AnalysisJob → AnalysisJob
retry_row f now j = record j {
  status = retry_wait;
  next_run_at = f.next_run_at;
  last_error_class = some f.error_class;
  last_error_code = some f.error_code;
  last_error_message = some f.error_message;
  updated_at = now;
}

-- What is made of a failure UPDATE that met no row.
unfoldable pub recheck_failure :
    AnalysisJob → ℕ → String → String → ℕ → Option AnalysisJob → StoreTx (Unit {0})
recheck_failure owned id worker token now none = fail ownership_lost
recheck_failure owned id worker token now (some current) =
    if is_diagnosis owned.job_type
      && owns_execution worker token current
      && current.cancel_requested
    then finalize_cancel id worker token now
    else fail ownership_lost

-- After the UPDATE: a terminal failure fails the business object too.
unfoldable pub after_failure :
    AnalysisJob → ℕ → String → String → Failure → ℕ → ℕ → StoreTx (Unit {0})
unfolding recheck_failure
after_failure owned id worker token f now affected = do
  current ← query (job_row id)
  if nat_eq affected 0
      then recheck_failure owned id worker token now current
      else if f.is_terminal
      then fail_business id false f.error_code f.error_message now
      else pure tt

unfoldable pub mark_failed : AnalysisJob → ℕ → String → String → Failure → ℕ → StoreTx (Unit {0})
unfolding after_failure
mark_failed owned id worker token f now = do
  affected ←
      update_job id
        (λ j.
          owns_execution worker token j
          && (not (is_diagnosis owned.job_type) || not j.cancel_requested))
        (λ j. if f.is_terminal then failed_row f now j else retry_row f now j)
  after_failure owned id worker token f now affected

unfoldable pub finalize_failure : ℕ → String → String → Failure → ℕ → StoreTx (Unit {0})
unfolding load_owned_running_job mark_failed
finalize_failure id worker token f now = do
  owned ← load_owned_running_job id worker token
  if is_diagnosis owned.job_type && owned.cancel_requested
      then finalize_cancel id worker token now
      else mark_failed owned id worker token f now
