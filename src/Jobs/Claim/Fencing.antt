-- ===== src/Jobs/Claim/Fencing.antt =====
-- What the claim's operations do for a worker without the claim (internal/jobs/store.go).
use repolens.Base.{ℕ, String, ◌≡◌, refl, ◌&&◌, not, Option, none, some, arith, nat_eq, nat_key}
use repolens.Sql.Result.{err, ◌>>=◌}
use repolens.Sql.Table.{count_row, count_row_and}
use repolens.Jobs.Model.{AnalysisJob, ownership_lost}
use repolens.Jobs.Db.{Db, job_row, statements}
use repolens.Jobs.Claim.{
  holds_claim, lease_is_live, cancel_flag, mark_execution_started, return_undispatched_claim,
  renew_lease, is_cancel_requested,
}
use repolens.Jobs.Claim.Start.{mark_lost}

flag_lost :
    (worker token : String) (o : Option AnalysisJob) (db : Db)
    → count_row (holds_claim worker token) o ≡ 0
    → cancel_flag worker token o db ≡ err ownership_lost
unfolding cancel_flag ◌>>=◌
flag_lost worker token none db h = refl
flag_lost worker token (some j) db h = ground arith

abbrev pub IsUnclaimed : ℕ → String → String → Db → Type 0
IsUnclaimed id worker token db = count_row (holds_claim worker token) (job_row id db) ≡ 0

module _ (id : ℕ) (worker token : String) (db : Db) (lost : IsUnclaimed id worker token db) where
  generation_unclaimed :
      (generation : ℕ)
      → count_row
          (λ j. holds_claim worker token j && nat_eq j.execution_generation generation)
          (job_row id db)
        ≡ 0
  generation_unclaimed generation =
      count_row_and (holds_claim worker token) (λ j. nat_eq j.execution_generation generation)
        (job_row id db) lost

  pub mark_unclaimed :
      (generation now : ℕ)
      → mark_execution_started id worker token generation now db ≡ err ownership_lost
  mark_unclaimed generation now = mark_lost id worker token generation now db (
      count_row_and (λ j. holds_claim worker token j && nat_eq j.execution_generation generation)
        (lease_is_live now) (job_row id db) (generation_unclaimed generation))

  pub return_unclaimed :
      (generation now : ℕ)
      → return_undispatched_claim id worker token generation now db ≡ err ownership_lost
  unfolding return_undispatched_claim ◌>>=◌ statements
  return_unclaimed generation now = rw (
      count_row_and (λ j. holds_claim worker token j && nat_eq j.execution_generation generation)
        (λ j. not j.execution_started) (job_row id db) (generation_unclaimed generation))

  pub renew_unclaimed :
      (until now : ℕ) → renew_lease id worker token until now db ≡ err ownership_lost
  unfolding renew_lease ◌>>=◌ statements
  renew_unclaimed until now =
      rw (count_row_and (holds_claim worker token) (lease_is_live now) (job_row id db) lost)

  pub poll_unclaimed : is_cancel_requested id worker token db ≡ err ownership_lost
  unfolding is_cancel_requested ◌>>=◌
  poll_unclaimed = flag_lost worker token (job_row id db) db lost
