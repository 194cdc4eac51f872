-- ===== src/Jobs/Finalize/Owner.antt =====
-- What the owner of a running execution gets from the three ways of finalizing it
-- (internal/jobs/store.go).
use repolens.Base.{
  ◌∙◌, map, ℕ, String, ◌≡◌, refl, ◌&&◌, ◌||◌, not, nat_eq, Bool, true, false, Option, none, some,
  List, [], ◌∷◌, arith, nat_key, text_key, All, if◌then◌else◌,
}
use repolens.Sql.Result.{guard, ◌>>◌, bind_ok, pure, ok, ◌>>=◌}
use repolens.Sql.Table.{update, count_row, map_row, when_row, find-update_self}
use repolens.Jobs.Model.{
  cancellation_unsupported, cancellation_not_requested, ownership_lost, AnalysisJob, is_diagnosis,
}
use repolens.Jobs.Db.{
  StoreTx, update_job, abandoned, Db, DiagnosisRun, DiagnosisAttempt, job_row, job_row-hit, run_row,
  after_job, statements,
}
use repolens.Jobs.Rows.{IsCancelledAt}
use repolens.Jobs.Business.{
  fail_business, is_open_run, is_cancelled_run, is_running_attempt, of_generation, update_attempts,
  latest_attempt, cancel_run_row, run_is_cancelled, cancel_diagnosis_run,
}
use repolens.Jobs.Finalize.{
  failed_row, retry_row, after_failure, mark_failed, Failure, owns_execution,
  load_owned_running_job, owned_or_lost, cancel_row, finalize_cancel, success_row, mark_succeeded,
  cancel_or_unsupported, finalize_success, finalize_failure,
}

-- A run that a cancellation accepts: missing, open or cancelled already.
abbrev pub is_cancellable : Option DiagnosisRun → Bool
is_cancellable none = true
is_cancellable (some r) = is_open_run r.status || is_cancelled_run r.status

-- Missing or cancelled.
abbrev pub is_not_live : Option DiagnosisRun → Bool
is_not_live none = true
is_not_live (some r) = is_cancelled_run r.status

abbrev pub is_live_attempt : String → ℕ → DiagnosisAttempt → Bool
is_live_attempt run generation a = of_generation run generation a && is_running_attempt a.status

-- No attempt of the generation is left running.
abbrev pub IsQuiet : String → ℕ → List DiagnosisAttempt → Type 0
IsQuiet run generation t = All (λ a. is_live_attempt run generation a ≡ false) t

-- The rows after the UPDATE that abandons the running attempts.
abbrev abandoned_rows : String → ℕ → ℕ → List DiagnosisAttempt → List DiagnosisAttempt
abandoned_rows run generation now t =
    map
      (λ a.
        if is_live_attempt run generation a
        then record a { status = abandoned; finished_at = some now }
        else a)
      t

abandoned-IsQuiet :
    (run : String) (generation now : ℕ) (t : List DiagnosisAttempt)
    → IsQuiet run generation (abandoned_rows run generation now t)
abandoned-IsQuiet run generation now [] = tt
abandoned-IsQuiet run generation now (a ∷ t) =
    (ground arith, abandoned-IsQuiet run generation now t)

cancelled : (now : ℕ) (j : AnalysisJob) → IsCancelledAt now j (cancel_row now j)
cancelled now j = ground arith

-- The database after a cancellation.
abbrev quiet_db : String → ℕ → ℕ → Db → Db
quiet_db run generation now db =
    let t = abandoned_rows run generation now db.attempts in
    record db {
      attempts = t;
      runs =
          update (λ (r : DiagnosisRun). r.id) run (λ r. is_open_run r.status)
            (cancel_run_row (latest_attempt (of_generation run generation) t)) db.runs;
    }

cancelled_row :
    (latest : Option String) (o : Option DiagnosisRun) (db : Db)
    → is_cancellable o ≡ true
    → (is_not_live (map_row (when_row (λ r. is_open_run r.status) (cancel_run_row latest)) o)
        ≡ true)
      × ((if nat_eq (count_row (λ r. is_open_run r.status) o) 0
              then run_is_cancelled
                  (map_row (when_row (λ r. is_open_run r.status) (cancel_run_row latest)) o)
              else pure tt)
            db
          ≡ ok (tt, db))
unfolding run_is_cancelled ◌>>=◌
cancelled_row latest none db h = ground arith
cancelled_row latest (some r) db h = ground arith

cancel_run_quiet :
    (run : String) (generation now : ℕ) (db : Db)
    → is_cancellable (run_row run db) ≡ true
    → (cancel_diagnosis_run run generation now db ≡ ok (tt, quiet_db run generation now db))
      × (is_not_live (run_row run (quiet_db run generation now db)) ≡ true)
unfolding cancel_diagnosis_run ◌>>=◌ statements update_attempts
cancel_run_quiet run generation now db h =
    let latest =
      latest_attempt (of_generation run generation)
        (abandoned_rows run generation now db.attempts) in
    let row =
      find-update_self (λ (r : DiagnosisRun). r.id) run (λ r. is_open_run r.status)
        (cancel_run_row latest) db.runs (λ r. refl) in
    let (gone, accepted) =
      cancelled_row latest (run_row run db) (quiet_db run generation now db) h in
    (rw row accepted, rw row gone)

module _ (id : ℕ) (worker token : String) (now : ℕ) (db : Db) (j : AnalysisJob) where
  -- The rows that the UPDATE of a failure meets.
  abbrev pub may_fail : AnalysisJob → Bool
  may_fail k =
      owns_execution worker token k && (not (is_diagnosis j.job_type) || not k.cancel_requested)

  -- The database after that UPDATE.
  abbrev pub failed_db : Failure → Db
  failed_db f =
      after_job id may_fail (λ k. if f.is_terminal then failed_row f now k else retry_row f now k)
        db

  module _ (found : job_row id db ≡ some j) (owned : owns_execution worker token j ≡ true) where
    pub load_owned : load_owned_running_job id worker token db ≡ ok (j, db)
    unfolding load_owned_running_job owned_or_lost ◌>>=◌
    load_owned = rw (found, owned) refl

    pub success_loads :
        finalize_success id worker token now db
        ≡ (if j.cancel_requested
              then cancel_or_unsupported j id worker token now
              else mark_succeeded id worker token now)
            db
    unfolding finalize_success
    success_loads = bind_ok (load_owned_running_job id worker token) _ db db j load_owned

    failure_loads :
        (f : Failure)
        → finalize_failure id worker token f now db
          ≡ (if is_diagnosis j.job_type && j.cancel_requested
                then finalize_cancel id worker token now
                else mark_failed j id worker token f now)
              db
    unfolding finalize_failure
    failure_loads f = bind_ok (load_owned_running_job id worker token) _ db db j load_owned

    cancel_of_owned : AnalysisJob → StoreTx (Unit {0})
    cancel_of_owned owned = do
      guard (is_diagnosis owned.job_type) cancellation_unsupported
      guard owned.cancel_requested cancellation_not_requested
      affected ←
          update_job id (λ k. owns_execution worker token k && k.cancel_requested) (cancel_row now)
      guard (not (nat_eq affected 0)) ownership_lost
      cancel_diagnosis_run owned.resource_id owned.execution_generation now

    cancel_loads : finalize_cancel id worker token now db ≡ cancel_of_owned j db
    unfolding finalize_cancel cancel_of_owned
    cancel_loads =
        bind_ok (load_owned_running_job id worker token) cancel_of_owned db db j load_owned

    pub success_of_owner :
        j.cancel_requested ≡ false
        → (finalize_success id worker token now db
            ≡ ok (
              tt,
              after_job id
                  (λ k. owns_execution worker token k && not k.cancel_requested)
                  (success_row now)
                  db,
            ))
          × (job_row id (
                after_job id
                  (λ k. owns_execution worker token k && not k.cancel_requested)
                  (success_row now)
                  db)
              ≡ some (success_row now j))
    unfolding mark_succeeded ◌>>=◌ statements
    success_of_owner kept =
        let met : (owns_execution worker token j && not j.cancel_requested) ≡ true = ground arith in
        (
          success_loads ∙ (rw (kept, found, met) refl),
          job_row-hit id (λ k. owns_execution worker token k && not k.cancel_requested)
              (success_row now) db (λ k. refl) j found met,
        )

    -- A report on a diagnosis that was asked to stop is a cancellation.
    cancellation_wins :
        (f : Failure)
        → is_diagnosis j.job_type ≡ true
        → j.cancel_requested ≡ true
        → (finalize_success id worker token now db ≡ finalize_cancel id worker token now db)
          × (finalize_failure id worker token f now db ≡ finalize_cancel id worker token now db)
    unfolding cancel_or_unsupported
    cancellation_wins f diagnosis asked = (
      success_loads ∙ (rw (asked, diagnosis) refl),
      failure_loads f ∙ (rw (asked, diagnosis) refl),
    )

    -- What is left of a cancellation once the job's row is written.
    pub cancel_reduces :
        is_diagnosis j.job_type ≡ true
        → j.cancel_requested ≡ true
        → finalize_cancel id worker token now db
          ≡ cancel_diagnosis_run j.resource_id j.execution_generation now (
              after_job id
                (λ k. owns_execution worker token k && k.cancel_requested)
                (cancel_row now)
                db)
    unfolding cancel_of_owned ◌>>=◌ statements
    cancel_reduces diagnosis asked =
        let met : (owns_execution worker token j && j.cancel_requested) ≡ true = ground arith in
        cancel_loads ∙ rw (diagnosis, asked, found, met) refl

    -- Whatever the owner of a diagnosis that was asked to stop reports, success, any failure or the
    -- cancellation, has the same outcome, if the run is missing, open or cancelled already: the job
    -- is CANCELLED by its user with the attempts it had, the run is missing or CANCELLED, and no
    -- attempt of the generation is left running.
    pub cancel_is_consistent :
        (f : Failure)
        → is_diagnosis j.job_type ≡ true
        → j.cancel_requested ≡ true
        → is_cancellable (run_row j.resource_id db) ≡ true
        → (db' : Db) × (k : AnalysisJob) × (finalize_cancel id worker token now db ≡ ok (tt, db'))
          × (finalize_success id worker token now db ≡ ok (tt, db'))
          × (finalize_failure id worker token f now db ≡ ok (tt, db'))
          × (job_row id db' ≡ some k)
          × IsCancelledAt now j k
          × (is_not_live (run_row j.resource_id db') ≡ true)
          × IsQuiet j.resource_id j.execution_generation db'.attempts
    unfolding cancel_of_owned ◌>>=◌ statements
    cancel_is_consistent f diagnosis asked cancellable =
        let c : AnalysisJob → Bool = λ k. owns_execution worker token k && k.cancel_requested in
        let met : c j ≡ true = ground arith in
        let db1 = after_job id c (cancel_row now) db in
        let (run, gone) =
          cancel_run_quiet j.resource_id j.execution_generation now db1 cancellable in
        let db2 = quiet_db j.resource_id j.execution_generation now db1 in
        let done : finalize_cancel id worker token now db ≡ ok (tt, db2) =
          cancel_loads ∙ (rw (diagnosis, asked, found, met) run) in
        let wins = cancellation_wins f diagnosis asked in
        (
          db2,
          cancel_row now j,
          done,
          wins.0 ∙ done,
          wins.1 ∙ done,
          job_row-hit id c (cancel_row now) db (λ k. refl) j found met,
          cancelled now j,
          gone,
          abandoned-IsQuiet j.resource_id j.execution_generation now db.attempts,
        )

    failed_db-row :
        (f : Failure)
        → may_fail j ≡ true
        → job_row id (failed_db f)
          ≡ some (if f.is_terminal then failed_row f now j else retry_row f now j)
    failed_db-row f met =
        job_row-hit id may_fail
          (λ k. if f.is_terminal then failed_row f now k else retry_row f now k) db
          (λ k. ground arith) j found met

    pub transient_failure_of_owner :
        (f : Failure)
        → may_fail j ≡ true
        → f.is_terminal ≡ false
        → (finalize_failure id worker token f now db ≡ ok (tt, failed_db f))
          × (job_row id (failed_db f) ≡ some (retry_row f now j))
    unfolding mark_failed after_failure ◌>>=◌ statements
    transient_failure_of_owner f met transient =
        let kept : (is_diagnosis j.job_type && j.cancel_requested) ≡ false = ground arith in
        (
          failure_loads f ∙ rw (kept, found, met, transient) refl,
          failed_db-row f met ∙ rw transient refl,
        )

    -- A terminal failure goes on to the business object.
    pub terminal_failure_of_owner :
        (f : Failure)
        → may_fail j ≡ true
        → f.is_terminal ≡ true
        → (finalize_failure id worker token f now db
            ≡ fail_business id false f.error_code f.error_message now (failed_db f))
          × (job_row id (failed_db f) ≡ some (failed_row f now j))
    unfolding mark_failed after_failure ◌>>=◌ statements
    terminal_failure_of_owner f met terminal =
        let kept : (is_diagnosis j.job_type && j.cancel_requested) ≡ false = ground arith in
        (
          failure_loads f ∙ rw (kept, found, met, terminal) refl,
          failed_db-row f met ∙ rw terminal refl,
        )
