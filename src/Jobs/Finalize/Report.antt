-- ===== src/Jobs/Finalize/Report.antt =====
-- What a report of the owner leaves, and what becomes of a second one (internal/jobs/store.go,
-- ConditionalFinalizeSuccessTx and ConditionalFinalizeFailureTx).
use repolens.Base.{ℕ, String, ◌≡◌, refl, true, false, some, arith, leb, nat_key, if◌then◌else◌}
use repolens.Sql.Result.{ok, err}
use repolens.Jobs.Model.{AnalysisJob, ownership_lost}
use repolens.Jobs.Db.{Db, job_row}
use repolens.Jobs.Rows.{IsSucceededAt, IsRetryAt, IsOnlyJob, after_job-IsOnlyJob}
use repolens.Jobs.Claim.{is_due}
use repolens.Jobs.Claim.Fencing.{IsUnclaimed}
use repolens.Jobs.Finalize.{
  Failure, owns_execution, success_row, retry_row, failed_row, finalize_success, finalize_failure,
}
use repolens.Jobs.Finalize.Fencing.{unclaimed_is_fenced}
use repolens.Jobs.Finalize.Owner.{may_fail, failed_db, success_of_owner, transient_failure_of_owner}

-- Both reports of the worker are refused.
abbrev pub IsClosed : ℕ → String → String → Db → Type 0
IsClosed id worker token db =
    (f : Failure) (later : ℕ)
    → (finalize_success id worker token later db ≡ err ownership_lost)
      × (finalize_failure id worker token f later db ≡ err ownership_lost)

closed :
    (id : ℕ) (worker token : String) (db : Db)
    → IsUnclaimed id worker token db
    → IsClosed id worker token db
closed id worker token db lost f later =
    let fenced = unclaimed_is_fenced id worker token 0 0 later f db lost in (fenced.4, fenced.5)

succeeded : (now : ℕ) (j : AnalysisJob) → IsSucceededAt now j (success_row now j)
succeeded now j = ground arith

retried :
    (f : Failure) (now : ℕ) (j : AnalysisJob)
    → IsRetryAt f.next_run_at f.error_class f.error_code f.error_message j (retry_row f now j)
retried f now j = ground arith

failure_keeps_id :
    (f : Failure) (now : ℕ) (k : AnalysisJob)
    → (if f.is_terminal then failed_row f now k else retry_row f now k).id ≡ k.id
failure_keeps_id f now k = ground arith

-- The owner of an execution that was not asked to stop reports once. Success leaves the job SUCCEEDED
-- at the time of the call; a failure that is not terminal leaves it in RETRY_WAIT with the reported
-- error, to be claimed from the reported time on and not before. Generation and attempts are as they
-- were, no other row changes, and each later report of the worker is refused as ownership lost.
pub owner_reports_once :
    (id : ℕ) (worker token : String) (now : ℕ) (f : Failure) (db : Db) (j : AnalysisJob)
    → job_row id db ≡ some j
    → owns_execution worker token j ≡ true
    → j.cancel_requested ≡ false
    → f.is_terminal ≡ false
    → ((db' : Db) × (k : AnalysisJob) × (finalize_success id worker token now db ≡ ok (tt, db'))
        × (job_row id db' ≡ some k)
        × IsSucceededAt now j k
        × ((t : ℕ) → is_due t k ≡ false)
        × IsOnlyJob id db db'
        × IsClosed id worker token db')
      × ((db' : Db) × (k : AnalysisJob) × (finalize_failure id worker token f now db ≡ ok (tt, db'))
          × (job_row id db' ≡ some k)
          × IsRetryAt f.next_run_at f.error_class f.error_code f.error_message j k
          × ((t : ℕ) → is_due t k ≡ leb f.next_run_at t)
          × IsOnlyJob id db db'
          × IsClosed id worker token db')
owner_reports_once id worker token now f db j found owned kept transient =
    let won = success_of_owner id worker token now db j found owned kept in
    let met : may_fail id worker token now db j j ≡ true = ground arith in
    let lost = transient_failure_of_owner id worker token now db j found owned f met transient in
    (
      (
        _,
        success_row now j,
        won.0,
        won.1,
        succeeded now j,
        λ t. refl,
        after_job-IsOnlyJob id _ (success_row now) db (λ k. refl),
        closed id worker token _ (rw won.1 refl),
      ),
      (
        failed_db id worker token now db j f,
        retry_row f now j,
        lost.0,
        lost.1,
        retried f now j,
        λ t. refl,
        after_job-IsOnlyJob id _ _ db (failure_keeps_id f now),
        closed id worker token _ (rw lost.1 refl),
      ),
    )
