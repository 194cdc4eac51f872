-- ===== src/Jobs/Reap.antt =====
-- internal/jobs/store.go, lease recovery: ReapExpiredJobs, cancelExpiredDiagnosisTx,
-- diagnosisOutcomeUnknownMarker and failExpiredDiagnosisOutcomeUnknownTx.
pub mod Outcome
use repolens.Base.{
  ℕ, suc, ◌+◌, String, Bool, true, false, not, ◌&&◌, ◌||◌, Option, none, some, List, [], ◌∷◌, ltb,
  nat_eq, text_key, ◌==◌, if◌then◌else◌, take, filter,
}
use repolens.Sql.Result.{pure, fail, query, guard, ◌>>=◌, ◌>>◌}
use repolens.Jobs.Model.{
  pending, retry_wait, failed, cancelled, retryable_exhausted, permanent_failure, user_cancelled,
  permanent, class_ownership_lost, AnalysisJob, changed_meanwhile, cannot_cancel, driver_fault,
  is_diagnosis, is_running,
}
use repolens.Jobs.Db.{
  Db, StoreTx, DiagnosisRun, RunStatus, DiagnosisAttempt, AttemptStatus, attempt_running,
  failed_terminal, abandoned, run_row, update_job, update_run, update_attempt,
}
use repolens.Jobs.Business.{
  is_open_run, is_cancelled_run, is_running_attempt, of_generation, update_attempts, latest_attempt,
  fail_business,
}
use repolens.Jobs.Retry.Backoff.{second, minute, calculate_backoff}

-- lease_until < ?, false for NULL
abbrev pub lease_expired : ℕ → AnalysisJob → Bool
lease_expired now j = elim j.lease_until [ none ↦ false | some t ↦ ltb t now ]

abbrev pub is_expired : ℕ → AnalysisJob → Bool
is_expired now j = is_running j.status && lease_expired now j

abbrev pub expired_jobs : ℕ → ℕ → Db → List AnalysisJob
expired_jobs now batch_size db = take batch_size (filter (is_expired now) db.jobs)

-- WHERE diagnosis_run_id = ? AND execution_generation = ? AND attempt_no = ?
abbrev pub of_expired : AnalysisJob → DiagnosisAttempt → Bool
of_expired ej a =
    of_generation ej.resource_id ej.execution_generation a && nat_eq a.attempt_no ej.attempt_count

abbrev pub cancel_expired_row : ℕ → AnalysisJob → AnalysisJob
cancel_expired_row now j = record j {
  status = cancelled;
  terminal_reason = some user_cancelled;
  finished_at = some now;
  updated_at = now;
}

-- The run is cancelled and points to the expired attempt, which may be missing.
abbrev pub cancel_expired_run_row : Option String → DiagnosisRun → DiagnosisRun
cancel_expired_run_row latest r = record r {
  status = RunStatus.cancelled;
  cancel_requested = true;
  final_attempt_id = latest;
  version = r.version + 1;
}

unfoldable pub cancel_expired_diagnosis : AnalysisJob → ℕ → StoreTx (Unit {0})
unfolding latest_attempt
cancel_expired_diagnosis ej now = do
  affected ←
      update_job ej.id (λ j. is_running j.status && j.cancel_requested && lease_expired now j)
        (cancel_expired_row now)
  guard (nat_eq affected 1) changed_meanwhile
  update_attempts (λ a. of_expired ej a && is_running_attempt a.status)
      (λ a. record a { status = abandoned; finished_at = some now })
  latest ← query (λ db. latest_attempt (of_expired ej) db.attempts)
  runs ← update_run ej.resource_id (λ r. is_open_run r.status) (cancel_expired_run_row latest)
  row ← query (run_row ej.resource_id)
  if nat_eq runs 0
      then elim row [
        | none ↦ fail cannot_cancel
        | some r ↦ guard (is_cancelled_run r.status) cannot_cancel
      ]
      else pure tt

abbrev pub requeue_unstarted_row : ℕ → AnalysisJob → AnalysisJob
requeue_unstarted_row now j = record j {
  status = pending;
  next_run_at = now;
  worker_id = none;
  claim_token = none;
  lease_until = none;
  execution_started = false;
  finished_at = none;
  updated_at = now;
}

unfoldable pub requeue_unstarted : AnalysisJob → ℕ → StoreTx (Unit {0})
requeue_unstarted ej now = do
  affected ←
      update_job ej.id (λ j. is_running j.status && not j.execution_started)
        (requeue_unstarted_row now)
  guard (nat_eq affected 1) changed_meanwhile

abbrev pub is_open_attempt : AttemptStatus → Bool
is_open_attempt attempt_running = true
is_open_attempt abandoned = true
is_open_attempt _ = false

-- An attempt whose provider request may or may not have been answered.
abbrev pub is_outcome_unknown : AnalysisJob → DiagnosisAttempt → Bool
is_outcome_unknown ej a =
    of_expired ej a
    && is_open_attempt a.status
    && (a.checkpoint_error_code == "PROVIDER_OUTCOME_UNKNOWN" || a.provider_dispatch_unresolved)

unfoldable pub find_attempt :
    (DiagnosisAttempt → Bool) → List DiagnosisAttempt → Option DiagnosisAttempt
find_attempt c [] = none
find_attempt c (a ∷ rest) = if c a then some a else find_attempt c rest

-- The attempt with the marker, of the diagnosis whose job expired.
unfoldable pub diagnosis_outcome_unknown_marker : AnalysisJob → Db → Option DiagnosisAttempt
unfolding find_attempt
diagnosis_outcome_unknown_marker ej db = find_attempt (is_outcome_unknown ej) db.attempts

-- COALESCE(checkpoint_error_message, '') and the default text for an empty one
abbrev pub default_unknown_message : String
default_unknown_message =
    "provider request outcome could not be confirmed; automatic replay is disabled"

abbrev pub unknown_message : Option String → String
unknown_message none = default_unknown_message
unknown_message (some m) = if m == "" then default_unknown_message else m

abbrev pub fail_unknown_attempt : String → ℕ → DiagnosisAttempt → DiagnosisAttempt
fail_unknown_attempt message now a = record a {
  status = failed_terminal;
  finished_at = some now;
  error_code = "PROVIDER_OUTCOME_UNKNOWN";
  error_message = message;
  retryable = false;
}

abbrev pub is_running_run : RunStatus → Bool
is_running_run RunStatus.running = true
is_running_run _ = false

abbrev pub fail_unknown_job : String → ℕ → AnalysisJob → AnalysisJob
fail_unknown_job message now j = record j {
  status = failed;
  terminal_reason = some permanent_failure;
  last_error_class = some permanent;
  last_error_code = some "PROVIDER_OUTCOME_UNKNOWN";
  last_error_message = some message;
  finished_at = some now;
  updated_at = now;
}

unfoldable pub fail_expired_outcome_unknown :
    AnalysisJob → DiagnosisAttempt → ℕ → StoreTx (Unit {0})
fail_expired_outcome_unknown ej marker now = do
  let message = unknown_message marker.checkpoint_error_message
  attempts ← update_attempt marker.id (is_outcome_unknown ej) (fail_unknown_attempt message now)
  guard (nat_eq attempts 1) changed_meanwhile
  runs ←
      update_run ej.resource_id (λ r. is_running_run r.status && not r.cancel_requested)
        (λ r. record r {
          status = RunStatus.failed;
          final_attempt_id = some marker.id;
          version = r.version + 1;
        })
  guard (nat_eq runs 1) changed_meanwhile
  jobs ←
      update_job ej.id (λ j. is_running j.status && j.execution_started)
        (fail_unknown_job message now)
  guard (nat_eq jobs 1) changed_meanwhile

abbrev pub retry_expired_row : ℕ → ℕ → AnalysisJob → AnalysisJob
retry_expired_row next_run now j = record j {
  status = retry_wait;
  next_run_at = next_run;
  last_error_class = some class_ownership_lost;
  last_error_code = some "LEASE_EXPIRED";
  last_error_message = some "Job lease expired and worker did not renew";
  updated_at = now;
}

-- The retry of an expired job: the running attempt of a diagnosis is abandoned.
unfoldable pub retry_expired : AnalysisJob → ℕ → ℕ → StoreTx (Unit {0})
retry_expired ej backoff now = do
  affected ← update_job ej.id (λ _. true) (retry_expired_row (now + backoff) now)
  guard (nat_eq affected 1) changed_meanwhile
  update_attempts (λ a. is_diagnosis ej.job_type && of_expired ej a && is_running_attempt a.status)
      (λ a. record a {
        status = abandoned;
        finished_at = some now;
        error_code = "LEASE_EXPIRED";
        error_message = "Job lease expired; current attempt abandoned";
      })

abbrev pub fail_expired_row : ℕ → AnalysisJob → AnalysisJob
fail_expired_row now j = record j {
  status = failed;
  terminal_reason = some retryable_exhausted;
  last_error_class = some class_ownership_lost;
  last_error_code = some "LEASE_EXPIRED_EXHAUSTED";
  last_error_message = some "Job lease expired and max attempts exceeded";
  finished_at = some now;
  updated_at = now;
}

unfoldable pub fail_expired : AnalysisJob → ℕ → StoreTx (Unit {0})
fail_expired ej now = do
  fail_business ej.id true "LEASE_EXPIRED_EXHAUSTED" "Job lease expired and max attempts exceeded"
      now
  update_job ej.id (λ _. true) (fail_expired_row now)
  pure tt

-- A started job with no marker. A panic of the backoff would end the transaction.
unfoldable pub reap_started : (ℕ → ℕ) → AnalysisJob → ℕ → StoreTx (Unit {0})
unfolding retry_expired fail_expired
reap_started int63n ej now =
    if ltb ej.attempt_count ej.max_attempts
    then elim (calculate_backoff int63n ej.attempt_count second minute) [
      | none ↦ fail driver_fault
      | some backoff ↦ retry_expired ej backoff now
    ]
    else fail_expired ej now

unfoldable pub reap_marked :
    (ℕ → ℕ) → AnalysisJob → ℕ → Option DiagnosisAttempt → StoreTx (Unit {0})
unfolding reap_started
reap_marked int63n ej now none = reap_started int63n ej now
reap_marked int63n ej now (some marker) =
    if is_diagnosis ej.job_type
    then fail_expired_outcome_unknown ej marker now
    else reap_started int63n ej now

-- One round of the loop.
unfoldable pub reap_one : (ℕ → ℕ) → ℕ → AnalysisJob → StoreTx (Unit {0})
unfolding reap_marked
reap_one int63n now ej =
    if is_diagnosis ej.job_type && ej.cancel_requested
    then cancel_expired_diagnosis ej now
    else if not ej.execution_started
    then requeue_unstarted ej now
    else do marker ← query (diagnosis_outcome_unknown_marker ej); reap_marked int63n ej now marker

unfoldable pub reap_each : (ℕ → ℕ) → ℕ → List AnalysisJob → StoreTx ℕ
reap_each int63n now [] = pure 0
reap_each int63n now (ej ∷ rest) = do
  reap_one int63n now ej
  n ← reap_each int63n now rest
  pure (suc n)

unfoldable pub reap_expired_jobs : (ℕ → ℕ) → ℕ → ℕ → StoreTx ℕ
unfolding reap_each
reap_expired_jobs int63n batch_size now = do
  expired ← query (expired_jobs now batch_size)
  reap_each int63n now expired
