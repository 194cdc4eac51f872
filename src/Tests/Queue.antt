-- ===== src/Tests/Queue.antt =====
-- The job store on the small database.
use repolens.Base.{
  leb, ℕ, ◌+◌, ◌≤◌, String, ◌≡◌, refl, arith, true, false, some, List, [], ◌∷◌, All, length,
  nat_key,
}
use repolens.Sql.Result.{ok, err}
use repolens.Sql.Table.{find}
use repolens.Jobs.Model.{AnalysisJob, run_diagnosis, ownership_lost}
use repolens.Jobs.Db.{Db, job_row, run_row}
use repolens.Jobs.Claim.{
  is_due, claim_jobs, mark_execution_started, start_row, return_undispatched_claim, renew_lease,
  is_cancel_requested,
}
use repolens.Jobs.Claim.Start.{mark_charges_once}
use repolens.Jobs.Rows.{IsSucceededAt, IsRetryAt, IsCancelledAt, IsOnlyJob}
use repolens.Jobs.Finalize.{finalize_cancel, finalize_success, finalize_failure}
use repolens.Jobs.Finalize.Fencing.{unclaimed_is_fenced}
use repolens.Jobs.Finalize.Owner.{IsQuiet, is_not_live, cancel_is_consistent}
use repolens.Jobs.Finalize.Report.{IsClosed, owner_reports_once}
use repolens.Jobs.Lifecycle.{IsWellFormed, Step}
use repolens.Jobs.Lifecycle.Traces.{
  Op, create, claim, start, fail_job, reap, ask_cancel, run_ops, IsSound, run_ops-IsSound,
}
use repolens.Jobs.Lifecycle.Exclusive.{claim_is_exclusive}
use repolens.Tests.Data.{diagnosis_job, build_job, db_with, timeout_failure, retrieval_spec}

abbrev fresh_db : Db
fresh_db = db_with (diagnosis_job false false)

abbrev running_db : Db
running_db = db_with (diagnosis_job true false)

abbrev asked_db : Db
asked_db = db_with (diagnosis_job true true)

abbrev numbered : ℕ → String
numbered n = "token"

-- Creation, a claim, a start, a failure, a request to cancel and the recovery of the lease.
abbrev day : List Op
day =
    create 6 retrieval_spec
    ∷ claim "v" numbered 5 50 7
    ∷ start 2 "v" "token" 1 8
    ∷ fail_job 2 "v" "token" (timeout_failure false) 9
    ∷ ask_cancel run_diagnosis "run-1" 10
    ∷ reap (λ n. 0) 4 200
    ∷ []

running_row : IsWellFormed (diagnosis_job true false)
running_row = ground arith

waiting_row : IsWellFormed build_job
waiting_row = ground arith

running_db-IsSound : IsSound running_db
unfolding find
running_db-IsSound = record {
  keyed = (refl, (refl, tt));
  unique = (refl, (refl, tt));
  fresh = (omega arith, (omega arith, tt));
  rows = (running_row, (waiting_row, tt));
}

run_ops-IsSound_example :
    IsSound (run_ops day running_db)
    × ((k : AnalysisJob) × (job_row 2 (run_ops day running_db) ≡ some k) × Step build_job k)
unfolding find
run_ops-IsSound_example =
    run_ops-IsSound day running_db 2 build_job
      ((refl, λ h. ground arith), (tt, (tt, (tt, (tt, (tt, tt)))))) running_db-IsSound refl

claim_is_exclusive_example :
    (out : List AnalysisJob) × (db' : Db) × (claim_jobs "v" numbered 5 50 7 running_db
      ≡ ok (out, db'))
    × (length out ≤ 5)
    × All
        (λ d.
          (r : AnalysisJob) × (job_row d.id db' ≡ some r)
          × (d.claim_token ≡ r.claim_token)
          × (r.worker_id ≡ some "v")
          × (r.lease_until ≡ some (7 + 50))
          × (r.execution_started ≡ false)
          × ((later : ℕ) → is_due later r ≡ false))
        out
claim_is_exclusive_example =
    claim_is_exclusive "v" numbered 5 50 7 running_db running_db-IsSound.keyed

mark_charges_once_example :
    (db' : Db) × (mark_execution_started 1 "w" "t" 1 10 fresh_db ≡ ok (2 + 1, db'))
    × (job_row 1 db' ≡ some (start_row 10 (diagnosis_job false false)))
    × (mark_execution_started 1 "w" "t" 1 20 db' ≡ ok (2 + 1, db'))
unfolding find
mark_charges_once_example =
    mark_charges_once 1 "w" "t" 1 10 20 fresh_db (diagnosis_job false false) refl refl refl refl

unclaimed_is_fenced_example :
    (mark_execution_started 1 "w" "old" 1 10 running_db ≡ err ownership_lost)
    × (return_undispatched_claim 1 "w" "old" 1 10 running_db ≡ err ownership_lost)
    × (renew_lease 1 "w" "old" 120 10 running_db ≡ err ownership_lost)
    × (is_cancel_requested 1 "w" "old" running_db ≡ err ownership_lost)
    × (finalize_success 1 "w" "old" 10 running_db ≡ err ownership_lost)
    × (finalize_failure 1 "w" "old" (timeout_failure true) 10 running_db ≡ err ownership_lost)
    × (finalize_cancel 1 "w" "old" 10 running_db ≡ err ownership_lost)
unfolding find
unclaimed_is_fenced_example =
    unclaimed_is_fenced 1 "w" "old" 1 120 10 (timeout_failure true) running_db refl

cancel_is_consistent_example :
    (db' : Db) × (k : AnalysisJob) × (finalize_cancel 1 "w" "t" 10 asked_db ≡ ok (tt, db'))
    × (finalize_success 1 "w" "t" 10 asked_db ≡ ok (tt, db'))
    × (finalize_failure 1 "w" "t" (timeout_failure true) 10 asked_db ≡ ok (tt, db'))
    × (job_row 1 db' ≡ some k)
    × IsCancelledAt 10 (diagnosis_job true true) k
    × (is_not_live (run_row "run-1" db') ≡ true)
    × IsQuiet "run-1" 1 db'.attempts
unfolding find
cancel_is_consistent_example =
    cancel_is_consistent 1 "w" "t" 10 asked_db (diagnosis_job true true) refl refl
      (timeout_failure true) refl refl refl

owner_reports_once_example :
    ((db' : Db) × (k : AnalysisJob) × (finalize_success 1 "w" "t" 10 running_db ≡ ok (tt, db'))
      × (job_row 1 db' ≡ some k)
      × IsSucceededAt 10 (diagnosis_job true false) k
      × ((t : ℕ) → is_due t k ≡ false)
      × IsOnlyJob 1 running_db db'
      × IsClosed 1 "w" "t" db')
    × ((db' : Db) × (k : AnalysisJob) × (finalize_failure 1 "w" "t"
            (timeout_failure false)
            10
            running_db
          ≡ ok (tt, db'))
        × (job_row 1 db' ≡ some k)
        × IsRetryAt
            (timeout_failure false).next_run_at
            (timeout_failure false).error_class
            "TIMEOUT"
            "timed out"
            (diagnosis_job true false)
            k
        × ((t : ℕ) → is_due t k ≡ leb (timeout_failure false).next_run_at t)
        × IsOnlyJob 1 running_db db'
        × IsClosed 1 "w" "t" db')
unfolding find
owner_reports_once_example =
    owner_reports_once 1 "w" "t" 10 (timeout_failure false) running_db (diagnosis_job true false)
      refl refl refl refl
