-- ===== src/Jobs/Business.antt =====
-- internal/jobs/store.go, the business side of a terminal job: failBusinessTx and
-- cancelDiagnosisRunTx. The missing tables that the source tolerates in test fixtures are left out.
use repolens.Base.{
  ℕ, ◌+◌, String, Bool, true, false, ◌&&◌, ◌||◌, Option, none, some, List, [], ◌∷◌, map, ltb,
  nat_eq, text_key, ◌==◌, if◌then◌else◌,
}
use repolens.Sql.Result.{ok, pure, fail, query, guard, ◌>>=◌, ◌>>◌}
use repolens.Jobs.Model.{
  JobType, run_diagnosis, other, AnalysisJob, unsupported_job_type, state_conflict, cannot_cancel,
  is_diagnosis,
}
use repolens.Jobs.Db.{
  StoreTx, scan, job_row, Resource, ResourceStatus, created, building, resource_failed,
  DiagnosisRun, RunStatus, DiagnosisAttempt, AttemptStatus, attempt_running, failed_terminal,
  abandoned, run_row, resource_row, update_run, update_resource,
}
use repolens.Jobs.Revision.{fail_analysis_revision}

-- status IN ('CREATED', 'MATERIALIZING') and status IN ('CREATED', 'BUILDING')
abbrev pub is_unfinished : ResourceStatus → Bool
is_unfinished created = true
is_unfinished building = true
is_unfinished _ = false

abbrev pub is_resource_failed : ResourceStatus → Bool
is_resource_failed resource_failed = true
is_resource_failed _ = false

-- status IN ('QUEUED', 'RUNNING')
abbrev pub is_open_run : RunStatus → Bool
is_open_run RunStatus.queued = true
is_open_run RunStatus.running = true
is_open_run _ = false

abbrev pub is_failed_run : RunStatus → Bool
is_failed_run RunStatus.failed = true
is_failed_run _ = false

abbrev pub is_cancelled_run : RunStatus → Bool
is_cancelled_run RunStatus.cancelled = true
is_cancelled_run _ = false

abbrev pub is_running_attempt : AttemptStatus → Bool
is_running_attempt attempt_running = true
is_running_attempt _ = false

-- WHERE diagnosis_run_id = ? AND execution_generation = ?
abbrev pub of_generation : String → ℕ → DiagnosisAttempt → Bool
of_generation run generation a =
    a.diagnosis_run_id == run && nat_eq a.execution_generation generation

-- An UPDATE of diagnosis_attempts by a condition that is no key; its count is not looked at.
unfoldable pub update_attempts :
    (DiagnosisAttempt → Bool) → (DiagnosisAttempt → DiagnosisAttempt) → StoreTx (Unit {0})
update_attempts c f db =
    ok (tt, record db { attempts = map (λ a. if c a then f a else a) db.attempts })

-- ORDER BY attempt_no DESC, created_at DESC: whether `a` comes before `b`.
abbrev pub is_later : DiagnosisAttempt → DiagnosisAttempt → Bool
is_later a b =
    ltb b.attempt_no a.attempt_no
    || nat_eq a.attempt_no b.attempt_no && ltb b.created_at a.created_at

unfoldable pub latest_of :
    (DiagnosisAttempt → Bool)
    → Option DiagnosisAttempt
    → List DiagnosisAttempt
    → Option DiagnosisAttempt
latest_of c best [] = best
latest_of c none (a ∷ rest) = latest_of c (if c a then some a else none) rest
latest_of c (some b) (a ∷ rest) = latest_of c (some (if c a && is_later a b then a else b)) rest

-- SELECT id FROM diagnosis_attempts WHERE c ORDER BY attempt_no DESC, created_at DESC LIMIT 1
unfoldable pub latest_attempt : (DiagnosisAttempt → Bool) → List DiagnosisAttempt → Option String
unfolding latest_of
latest_attempt c t = elim (latest_of c none t) [ none ↦ none | some a ↦ some a.id ]

abbrev pub fail_code : Bool → String → String
fail_code true code = "LEASE_EXPIRED_EXHAUSTED"
fail_code false code = if code == "" then "JOB_FAILED" else code

abbrev pub fail_message : Bool → String → String
fail_message true message = "Job lease expired and max attempts exceeded"
fail_message false message = message

abbrev pub fail_resource_row : String → Resource → Resource
fail_resource_row code r = record r { status = resource_failed; error_code = some code }

abbrev pub fail_run_row : DiagnosisRun → DiagnosisRun
fail_run_row r = record r { status = RunStatus.failed; version = r.version + 1 }

-- What a business UPDATE that met no row is held to: the row must be FAILED already.
unfoldable pub resource_is_failed : Option Resource → StoreTx (Unit {0})
resource_is_failed none = fail state_conflict
resource_is_failed (some r) = guard (is_resource_failed r.status) state_conflict

unfoldable pub run_is_failed : Option DiagnosisRun → StoreTx (Unit {0})
run_is_failed none = fail state_conflict
run_is_failed (some r) = guard (is_failed_run r.status) state_conflict

unfoldable pub fail_resource : JobType → String → String → StoreTx (Unit {0})
unfolding resource_is_failed
fail_resource kind resource code = do
  affected ← update_resource kind resource (λ r. is_unfinished r.status) (fail_resource_row code)
  row ← query (resource_row kind resource)
  if nat_eq affected 0 then resource_is_failed row else pure tt

unfoldable pub fail_run : String → StoreTx (Unit {0})
unfolding run_is_failed
fail_run run = do
  affected ← update_run run (λ r. is_open_run r.status) fail_run_row
  row ← query (run_row run)
  if nat_eq affected 0 then run_is_failed row else pure tt

-- The switch on the job type and the check of its result.
unfoldable pub fail_business_object : JobType → String → String → StoreTx (Unit {0})
unfolding fail_resource fail_run
fail_business_object run_diagnosis resource code = fail_run resource
fail_business_object (other s) resource code = fail unsupported_job_type
fail_business_object kind resource code = fail_resource kind resource code

-- The part for RUN_DIAGNOSIS: the running attempts of the generation end, and the run points to its
-- last attempt.
unfoldable pub fail_diagnosis_attempts : String → ℕ → Bool → ℕ → StoreTx (Unit {0})
unfolding latest_attempt
fail_diagnosis_attempts run generation reaped now = do
  update_attempts (λ a. of_generation run generation a && is_running_attempt a.status)
      (λ a. record a {
        status = if reaped then abandoned else failed_terminal;
        finished_at = some now;
      })
  latest ← query (λ db. latest_attempt (of_generation run generation) db.attempts)
  update_run run (λ r. is_failed_run r.status) (λ r. record r { final_attempt_id = latest })
  pure tt

unfoldable pub fail_business_of : AnalysisJob → Bool → String → String → ℕ → StoreTx (Unit {0})
unfolding fail_business_object fail_diagnosis_attempts fail_analysis_revision
fail_business_of j reaped code message now = do
  fail_business_object j.job_type j.resource_id (fail_code reaped code)
  if is_diagnosis j.job_type
      then fail_diagnosis_attempts j.resource_id j.execution_generation reaped now
      else pure tt
  fail_analysis_revision j.job_type j.resource_id (fail_code reaped code)
      (fail_message reaped message) now

unfoldable pub fail_business : ℕ → Bool → String → String → ℕ → StoreTx (Unit {0})
unfolding fail_business_of
fail_business id reaped code message now = do
  j ← scan (job_row id)
  fail_business_of j reaped code message now

abbrev pub cancel_run_row : Option String → DiagnosisRun → DiagnosisRun
cancel_run_row latest r = record r {
  status = RunStatus.cancelled;
  cancel_requested = true;
  final_attempt_id = elim latest [ none ↦ r.final_attempt_id | some a ↦ some a ];
  version = r.version + 1;
}

-- A run that is missing, or cancelled already, is accepted.
unfoldable pub run_is_cancelled : Option DiagnosisRun → StoreTx (Unit {0})
run_is_cancelled none = pure tt
run_is_cancelled (some r) = guard (is_cancelled_run r.status) cannot_cancel

unfoldable pub cancel_diagnosis_run : String → ℕ → ℕ → StoreTx (Unit {0})
unfolding latest_attempt run_is_cancelled
cancel_diagnosis_run run generation now = do
  update_attempts (λ a. of_generation run generation a && is_running_attempt a.status)
      (λ a. record a { status = abandoned; finished_at = some now })
  latest ← query (λ db. latest_attempt (of_generation run generation) db.attempts)
  affected ← update_run run (λ r. is_open_run r.status) (cancel_run_row latest)
  row ← query (run_row run)
  if nat_eq affected 0 then run_is_cancelled row else pure tt
