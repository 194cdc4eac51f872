-- ===== src/Jobs/Finalize/Fencing.antt =====
-- Claim fencing: what a worker without the claim can do (internal/jobs/store.go).
use repolens.Base.{ℕ, String, ◌≡◌, refl, Option, none, some, arith, nat_key}
use repolens.Sql.Result.{err, ◌>>=◌}
use repolens.Sql.Table.{count_row}
use repolens.Jobs.Model.{AnalysisJob, ownership_lost}
use repolens.Jobs.Db.{Db, job_row}
use repolens.Jobs.Claim.{
  holds_claim, mark_execution_started, return_undispatched_claim, renew_lease, is_cancel_requested,
}
use repolens.Jobs.Claim.Fencing.{
  IsUnclaimed, mark_unclaimed, return_unclaimed, renew_unclaimed, poll_unclaimed,
}
use repolens.Jobs.Finalize.{
  Failure, owned_or_lost, load_owned_running_job, finalize_success, finalize_failure,
  finalize_cancel,
}

owned_lost :
    (worker token : String) (o : Option AnalysisJob) (db : Db)
    → count_row (holds_claim worker token) o ≡ 0
    → owned_or_lost worker token o db ≡ err ownership_lost
unfolding owned_or_lost ◌>>=◌
owned_lost worker token none db h = refl
owned_lost worker token (some j) db h = ground arith

load_lost :
    (id : ℕ) (worker token : String) (db : Db)
    → IsUnclaimed id worker token db
    → load_owned_running_job id worker token db ≡ err ownership_lost
unfolding load_owned_running_job ◌>>=◌
load_lost id worker token db lost = owned_lost worker token (job_row id db) db lost

-- A worker whose claim token or worker id is not the running row's, or whose job is not running or
-- does not exist, can change nothing: starting, renewing, returning, polling and all three ways of
-- finalizing report that ownership was lost.
pub unclaimed_is_fenced :
    (id : ℕ) (worker token : String) (generation until now : ℕ) (f : Failure) (db : Db)
    → IsUnclaimed id worker token db
    → (mark_execution_started id worker token generation now db ≡ err ownership_lost)
      × (return_undispatched_claim id worker token generation now db ≡ err ownership_lost)
      × (renew_lease id worker token until now db ≡ err ownership_lost)
      × (is_cancel_requested id worker token db ≡ err ownership_lost)
      × (finalize_success id worker token now db ≡ err ownership_lost)
      × (finalize_failure id worker token f now db ≡ err ownership_lost)
      × (finalize_cancel id worker token now db ≡ err ownership_lost)
unfolding finalize_success finalize_failure finalize_cancel ◌>>=◌
unclaimed_is_fenced id worker token generation until now f db lost =
    let l = load_lost id worker token db lost in
    (
      mark_unclaimed id worker token db lost generation now,
      return_unclaimed id worker token db lost generation now,
      renew_unclaimed id worker token db lost until now,
      poll_unclaimed id worker token db lost,
      ground (arith, l),
      ground (arith, l),
      ground (arith, l),
    )
