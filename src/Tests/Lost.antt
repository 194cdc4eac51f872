-- ===== src/Tests/Lost.antt =====
-- Lost answers and a manual requeue on the small database.
use repolens.Base.{ap, ◌+◌, ◌≡◌, refl, ◌⊎◌, true, false, some, List, [], ◌∷◌, nat_key}
use repolens.Sql.Result.{ok, err, lost_ack, aborted}
use repolens.Sql.Table.{find}
use repolens.Jobs.Model.{AnalysisJob, run_diagnosis, retryable_exhausted, cannot_requeue, JobStatus}
use repolens.Jobs.Db.{Db, RunStatus, job_key, job_row, job_by_resource}
use repolens.Jobs.Claim.{mark_execution_started}
use repolens.Jobs.Finalize.{finalize_success, success_row}
use repolens.Jobs.Requeue.{manual_requeue}
use repolens.Jobs.Rows.{IsRequeued}
use repolens.Jobs.Requeue.Outcome.{may_requeue, manual_requeue-outcome}
use repolens.Jobs.Worker.{
  Round, Resolution, accepted, success_finalization_expected, resolve_finalization,
  resolve_execution_start, started, row, same_execution_claim,
}
use repolens.Jobs.Worker.Resolve.{
  success_resolution_is_sound, lost_success_is_accepted, lost_start_is_resolved,
}
use repolens.Tests.Data.{diagnosis_job, open_run, db_with}

abbrev claimed : AnalysisJob
claimed = diagnosis_job true false

abbrev lost_round : Round
lost_round = record {
  ended = false;
  now = 10;
  others = λ db. db;
  delivery = lost_ack;
  readable = true;
}

abbrev rounds : List Round
rounds = record lost_round { delivery = aborted } ∷ lost_round ∷ []

lost_success_is_accepted_example :
    (db' : Db) × (resolve_finalization claimed "w"
        (finalize_success 1 "w" "t")
        success_finalization_expected
        (lost_round ∷ [])
        (db_with claimed)
      ≡ (accepted, db'))
    × (job_row 1 db' ≡ some (success_row 10 claimed))
unfolding find same_execution_claim
lost_success_is_accepted_example =
    lost_success_is_accepted claimed claimed "w" "t" 10 (λ db. db) [] (db_with claimed) refl refl
      refl refl

success_resolution_is_sound_example :
    (j : AnalysisJob) × (job_row 1
        (resolve_finalization claimed "w"
          (finalize_success 1 "w" "t")
          success_finalization_expected
          (lost_round ∷ [])
          (db_with claimed)).1
      ≡ some j)
    × (success_finalization_expected j ≡ true)
unfolding find same_execution_claim
success_resolution_is_sound_example =
    let answer =
      lost_success_is_accepted claimed claimed "w" "t" 10 (λ db. db) [] (db_with claimed) refl refl
        refl refl in
    success_resolution_is_sound claimed "w" "t" (lost_round ∷ []) (db_with claimed)
      (ap (λ (x : Resolution × Db). x.0) answer.1)

lost_start_is_resolved_example :
    (db' : Db) × (mark_execution_started 1 "w" "t" 1 10 (db_with (diagnosis_job false false))
      ≡ ok (2 + 1, db'))
    × (resolve_execution_start (diagnosis_job false false) "w" (row (job_row 1 db'))
        ≡ started (2 + 1))
unfolding find
lost_start_is_resolved_example =
    lost_start_is_resolved (diagnosis_job false false) (diagnosis_job false false) "w" "t" 10
      (db_with (diagnosis_job false false)) refl refl refl refl

-- A diagnosis that failed after its last retry.
abbrev exhausted_job : AnalysisJob
exhausted_job = record (diagnosis_job true false) {
  status = JobStatus.failed;
  terminal_reason = some retryable_exhausted;
  finished_at = some 50;
}

abbrev exhausted_db : Db
exhausted_db = record (db_with exhausted_job) {
  runs = record open_run { status = RunStatus.failed } ∷ [];
}

manual_requeue-outcome_example :
    ((may_requeue exhausted_job ≡ true)
      × ((db' : Db) × (k : AnalysisJob) × (manual_requeue run_diagnosis "run-1" 60 exhausted_db
            ≡ ok (tt, db'))
          × (job_by_resource run_diagnosis "run-1" db' ≡ some k)
          × IsRequeued 60 exhausted_job k))
    ⊎ ((may_requeue exhausted_job ≡ false)
        × (manual_requeue run_diagnosis "run-1" 60 exhausted_db ≡ err cannot_requeue))
unfolding find
manual_requeue-outcome_example =
    manual_requeue-outcome run_diagnosis "run-1" 60 exhausted_db exhausted_job refl refl
