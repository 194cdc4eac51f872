-- ===== src/Jobs/Worker.antt =====
-- internal/jobs/worker.go: what the worker makes of a call of the store whose answer it may not get:
-- the reading of the durable row, and the loop resolveFinalization over rounds that go well or not.
-- Time-outs, delays between the rounds and log lines are left out.
pub mod Resolve
use repolens.Base.{
  ℕ, String, Bool, true, false, not, ◌&&◌, ◌||◌, Option, none, some, List, [], ◌∷◌, nat_eq, nat_key,
  text_key, ◌==◌, is_value, if◌then◌else◌,
}
use repolens.Sql.Result.{Result, ok, err, Delivery, transact}
use repolens.Jobs.Model.{
  JobStatus, pending, running, retry_wait, succeeded, failed, cancelled, TerminalReason,
  retryable_exhausted, permanent_failure, user_cancelled, ErrorClass, retryable, permanent,
  class_cancelled, class_ownership_lost, AnalysisJob, StoreError, ownership_lost, driver_fault,
  is_running, is_failed, is_cancelled, is_retry_wait,
}
use repolens.Jobs.Db.{Db, StoreTx, job_row}

-- What GetJobByID gives: a fault, or the row, `none` standing for sql.ErrNoRows.
pub data Reading : Type 0 where
  unreadable : Reading
  row : Option AnalysisJob → Reading

abbrev pub same_text : Option String → Option String → Bool
same_text (some a) (some b) = a == b
same_text _ _ = false

unfoldable pub same_execution_claim : AnalysisJob → AnalysisJob → String → Bool
same_execution_claim claim current worker =
    claim.execution_started
    && current.execution_started
    && is_value current.worker_id worker
    && same_text current.claim_token claim.claim_token
    && nat_eq current.execution_generation claim.execution_generation

abbrev pub is_succeeded : JobStatus → Bool
is_succeeded succeeded = true
is_succeeded _ = false

abbrev pub is_user_cancelled : Option TerminalReason → Bool
is_user_cancelled (some user_cancelled) = true
is_user_cancelled _ = false

unfoldable pub cancelled_finalization_expected : AnalysisJob → Bool
cancelled_finalization_expected j =
    is_cancelled j.status && j.cancel_requested && is_user_cancelled j.terminal_reason

unfoldable pub success_finalization_expected : AnalysisJob → Bool
success_finalization_expected j =
    is_succeeded j.status
    || is_cancelled j.status && j.cancel_requested && is_user_cancelled j.terminal_reason

abbrev pub same_class : ErrorClass → ErrorClass → Bool
same_class retryable retryable = true
same_class permanent permanent = true
same_class class_cancelled class_cancelled = true
same_class class_ownership_lost class_ownership_lost = true
same_class _ _ = false

abbrev pub is_class : Option ErrorClass → ErrorClass → Bool
is_class none c = false
is_class (some k) c = same_class k c

abbrev pub same_reason : Option TerminalReason → Option TerminalReason → Bool
same_reason (some retryable_exhausted) (some retryable_exhausted) = true
same_reason (some permanent_failure) (some permanent_failure) = true
same_reason (some user_cancelled) (some user_cancelled) = true
same_reason _ _ = false

unfoldable pub failure_finalization_expected :
    ErrorClass → String → Option TerminalReason → Bool → AnalysisJob → Bool
unfolding cancelled_finalization_expected
failure_finalization_expected class code reason terminal j =
    cancelled_finalization_expected j
    || (if terminal then is_failed j.status else is_retry_wait j.status)
      && is_class j.last_error_class class
      && is_value j.last_error_code code
      && (if terminal then same_reason j.terminal_reason reason else true)

pub data StartResolution : Type 0 where
  start_unknown start_ownership_lost not_started : StartResolution
  started : ℕ → StartResolution

-- resolveExecutionStart for the claim `job` of this worker.
unfoldable pub resolve_execution_start : AnalysisJob → String → Reading → StartResolution
resolve_execution_start job worker unreadable = start_unknown
resolve_execution_start job worker (row none) = start_unknown
resolve_execution_start job worker (row (some current)) =
    if nat_eq current.id job.id
      && is_running current.status
      && is_value current.worker_id worker
      && same_text current.claim_token job.claim_token
      && nat_eq current.execution_generation job.execution_generation
    then (if current.execution_started then started current.attempt_count else not_started)
    else start_ownership_lost

-- What happens to one round, at the clock `now`: `others` is what other transactions do before its call.
pub record Round : Type 0 where
  pub ended : Bool
  pub now : ℕ
  pub others : Db → Db
  pub delivery : Delivery
  pub readable : Bool

-- How resolveFinalization ends: it accepts, it loses ownership, the row left the claim for another
-- state, or the context ends. `unresolved`: it still loops after the rounds that were looked at.
pub data Resolution : Type 0 where
  accepted lost_ownership left_claim context_ended unresolved : Resolution

-- By the durable row, after an error; `none` is another round.
unfoldable pub judge : AnalysisJob → String → (AnalysisJob → Bool) → Reading → Option Resolution
unfolding same_execution_claim
judge claim worker expected unreadable = none
judge claim worker expected (row none) = some lost_ownership
judge claim worker expected (row (some current)) =
    if same_execution_claim claim current worker
    then (if expected current
        then some accepted
        else if is_running current.status && current.execution_started
        then none
        else some left_claim)
    else some lost_ownership

-- A nil answer ends the loop.
unfoldable pub conclude :
    AnalysisJob
    → String
    → (AnalysisJob → Bool)
    → Result StoreError (Unit {0})
    → Reading
    → Option Resolution
unfolding judge
conclude claim worker expected (ok _) reading = some accepted
conclude claim worker expected (err e) reading = judge claim worker expected reading

abbrev pub read_row : Bool → ℕ → Db → Reading
read_row readable id db = if readable then row (job_row id db) else unreadable

-- resolveFinalization: how it ends, and the database then.
unfoldable pub resolve_finalization :
    AnalysisJob
    → String
    → (ℕ → StoreTx (Unit {0}))
    → (AnalysisJob → Bool)
    → List Round
    → Db
    → Resolution × Db
unfolding conclude
resolve_finalization claim worker finalize expected [] db = (unresolved, db)
resolve_finalization claim worker finalize expected (r ∷ rs) db =
    let answer = transact driver_fault r.delivery (finalize r.now) (r.others db) in
    let rest = resolve_finalization claim worker finalize expected rs answer.1 in
    if r.ended
    then (context_ended, db)
    else elim (conclude claim worker expected answer.0 (read_row r.readable claim.id answer.1)) [
      | none ↦ rest
      | some end ↦ (end, answer.1)
    ]
