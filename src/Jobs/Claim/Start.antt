-- ===== src/Jobs/Claim/Start.antt =====
-- The execution-start boundary: MarkExecutionStarted (internal/jobs/store.go).
use repolens.Base.{
  ℕ, ◌+◌, ◌&&◌, not, String, ◌≡◌, refl, Bool, true, false, Option, none, some, arith, nat_key,
}
use repolens.Sql.Result.{ok, err, ◌>>=◌}
use repolens.Sql.Table.{count_row, count_row_and}
use repolens.Jobs.Model.{AnalysisJob, ownership_lost}
use repolens.Jobs.Db.{Db, job_row, job_row-hit, jobs_miss, after_job, statements}
use repolens.Jobs.Claim.{
  lease_is_live, holds_live_claim, start_row, started_attempt, mark_execution_started,
}

unstarted_lost :
    (c d : AnalysisJob → Bool) (o : Option AnalysisJob) (db : Db)
    → count_row c o ≡ 0
    → started_attempt (λ j. c j && d j) o db ≡ err ownership_lost
unfolding started_attempt ◌>>=◌
unstarted_lost c d none db h = refl
unstarted_lost c d (some j) db h = ground arith

module _ (id : ℕ) (worker token : String) (generation : ℕ) where
  abbrev may_start : ℕ → AnalysisJob → Bool
  may_start now j = holds_live_claim worker token generation now j && not j.execution_started

  -- The database after a start that is charged.
  abbrev pub started : ℕ → Db → Db
  started now = after_job id (may_start now) (start_row now)

  -- The owner of a live claim that has not started yet is charged exactly one attempt, and the row
  -- records the start.
  pub mark_first :
      (now : ℕ) (db : Db) (j : AnalysisJob)
      → job_row id db ≡ some j
      → holds_live_claim worker token generation now j ≡ true
      → j.execution_started ≡ false
      → (mark_execution_started id worker token generation now db
          ≡ ok (j.attempt_count + 1, started now db))
        × (job_row id (started now db) ≡ some (start_row now j))
  unfolding mark_execution_started ◌>>=◌ statements
  mark_first now db j found live fresh =
      let row =
        job_row-hit id (may_start now) (start_row now) db (λ j. refl) j found (ground arith) in
      (rw row (ground arith), row)

  -- Once started, a repeated call returns the same attempt number and changes nothing.
  pub mark_again :
      (now : ℕ) (db : Db) (j : AnalysisJob)
      → job_row id db ≡ some j
      → holds_live_claim worker token generation now j ≡ true
      → j.execution_started ≡ true
      → mark_execution_started id worker token generation now db ≡ ok (j.attempt_count, db)
  unfolding mark_execution_started ◌>>=◌ statements
  mark_again now db j found live again =
      let same = jobs_miss id (may_start now) (start_row now) db (rw found (ground arith)) in
      rw (same, found) (ground arith)

  -- Whoever does not hold the live claim is refused.
  pub mark_lost :
      (now : ℕ) (db : Db)
      → count_row (holds_live_claim worker token generation now) (job_row id db) ≡ 0
      → mark_execution_started id worker token generation now db ≡ err ownership_lost
  unfolding mark_execution_started ◌>>=◌ statements
  mark_lost now db lost =
      let same =
        jobs_miss id (may_start now) (start_row now) db (count_row_and _ _ (job_row id db) lost) in
      rw same (unstarted_lost _ _ (job_row id db) db lost)

  -- Who holds a live claim that has not started is charged exactly one attempt, and a call repeated
  -- at any time within the lease, as after a lost answer, returns the same attempt number and changes
  -- nothing.
  pub mark_charges_once :
      (now later : ℕ) (db : Db) (j : AnalysisJob)
      → job_row id db ≡ some j
      → holds_live_claim worker token generation now j ≡ true
      → lease_is_live later j ≡ true
      → j.execution_started ≡ false
      → (db' : Db) × (mark_execution_started id worker token generation now db
          ≡ ok (j.attempt_count + 1, db'))
        × (job_row id db' ≡ some (start_row now j))
        × (mark_execution_started id worker token generation later db'
            ≡ ok (j.attempt_count + 1, db'))
  mark_charges_once now later db j found live still fresh =
      let (first, row) = mark_first now db j found live fresh in
      (
        started now db,
        first,
        row,
        mark_again later (started now db) (start_row now j) row (ground arith) refl,
      )
