-- ===== src/Tests/Expiry.antt =====
-- The lease recovery on the small database, whose lease ended at 100.
use repolens.Base.{
  String, ℕ, ◌+◌, ◌-◌, ◌*◌, ◌^◌, ◌≤◌, min, ◌≡◌, refl, arith, true, false, some, nat_key, text_key,
}
use repolens.Sql.Result.{ok}
use repolens.Sql.Table.{find}
use repolens.Jobs.Model.{AnalysisJob, class_ownership_lost}
use repolens.Jobs.Db.{Db, job_row}
use repolens.Jobs.Rows.{IsFreed, IsRetryAt, IsOnlyJob}
use repolens.Jobs.Claim.{is_due}
use repolens.Jobs.Claim.Fencing.{IsUnclaimed}
use repolens.Jobs.Retry.Backoff.{second, minute}
use repolens.Jobs.Reap.{is_expired, reap_one, diagnosis_outcome_unknown_marker}
use repolens.Jobs.Reap.Outcome.{HasNoRunning, unstarted_is_returned, expired_is_retried}
use repolens.Tests.Data.{diagnosis_job, db_with}

abbrev largest_jitter : ℕ → ℕ
largest_jitter n = n - 1

unstarted_is_returned_example :
    (db' : Db) × (k : AnalysisJob) × (reap_one largest_jitter 200
        (diagnosis_job false false)
        (db_with (diagnosis_job false false))
      ≡ ok (tt, db'))
    × (job_row 1 db' ≡ some k)
    × IsFreed 200 (diagnosis_job false false) k
    × ((worker token : String) → IsUnclaimed 1 worker token db')
    × ((t : ℕ) → is_expired t k ≡ false)
    × ((t : ℕ) → 200 ≤ t → is_due t k ≡ true)
    × IsOnlyJob 1 (db_with (diagnosis_job false false)) db'
unfolding find
unstarted_is_returned_example =
    unstarted_is_returned largest_jitter 200 (diagnosis_job false false)
      (db_with (diagnosis_job false false)) refl refl refl refl

expired_is_retried_example :
    (d : ℕ) × (db' : Db) × (k : AnalysisJob) × (reap_one largest_jitter 200
        (diagnosis_job true false)
        (db_with (diagnosis_job true false))
      ≡ ok (tt, db'))
    × (job_row 1 db' ≡ some k)
    × IsRetryAt
        (200 + d)
        class_ownership_lost
        "LEASE_EXPIRED"
        "Job lease expired and worker did not renew"
        (diagnosis_job true false)
        k
    × ((worker token : String) → IsUnclaimed 1 worker token db')
    × HasNoRunning (diagnosis_job true false) db'.attempts
    × (min (second * 2 ^ min (2 - 1) 6) minute ≤ d)
    × (d ≤ minute)
unfolding find diagnosis_outcome_unknown_marker
expired_is_retried_example =
    expired_is_retried largest_jitter 200 (diagnosis_job true false)
      (db_with (diagnosis_job true false)) refl (λ n h. omega arith) refl refl refl (omega arith)
