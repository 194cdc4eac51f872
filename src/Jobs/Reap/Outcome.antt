-- ===== src/Jobs/Reap/Outcome.antt =====
-- What the lease recovery makes of one expired job (internal/jobs/store.go, ReapExpiredJobs).
use repolens.Base.{
  ap, text_key, String, ℕ, ◌+◌, ◌-◌, ◌*◌, ◌^◌, ◌≤◌, ◌<◌, min, ◌≡◌, refl, ◌∙◌, Bool, true, false,
  not, ◌&&◌, ltb, arith, nat_key, none, some, List, [], ◌∷◌, All, map, if◌then◌else◌,
}
use repolens.Sql.Result.{ok, ◌>>=◌}
use repolens.Jobs.Model.{AnalysisJob, class_ownership_lost, is_running, is_diagnosis}
use repolens.Jobs.Db.{
  StoreTx, Db, DiagnosisAttempt, abandoned, job_row, job_row-hit, after_job, statements,
}
use repolens.Jobs.Rows.{IsFreed, IsRetryAt, IsOnlyJob, after_job-IsOnlyJob}
use repolens.Jobs.Claim.{is_due}
use repolens.Jobs.Claim.Fencing.{IsUnclaimed}
use repolens.Jobs.Business.{update_attempts, is_running_attempt}
use repolens.Jobs.Retry.Backoff.{calculate_backoff, second, minute}
use repolens.Jobs.Retry.Backoff.Bounds.{calculate_backoff_bounds}
use repolens.Jobs.Reap.{
  is_expired, of_expired, requeue_unstarted_row, requeue_unstarted, retry_expired_row,
  retry_expired, reap_started, reap_marked, reap_one, diagnosis_outcome_unknown_marker,
}

-- The row that an unstarted job's recovery may write.
abbrev pub is_unstarted : AnalysisJob → Bool
is_unstarted j = is_running j.status && not j.execution_started

returned : (now : ℕ) (j : AnalysisJob) → IsFreed now j (requeue_unstarted_row now j)
returned now j = ground arith

retried :
    (next_run now : ℕ) (j : AnalysisJob)
    → IsRetryAt next_run class_ownership_lost "LEASE_EXPIRED"
        "Job lease expired and worker did not renew" j
        (retry_expired_row next_run now j)
retried next_run now j = ground arith

second_branch :
    {A : Type 0} (a b : Bool) (x y z : A)
    → a ≡ false
    → b ≡ false
    → (if a then x else if not b then y else z) ≡ y
second_branch a b x y z p q = ground arith

third_branch :
    {A : Type 0} (a b : Bool) (x y z : A)
    → a ≡ false
    → b ≡ true
    → (if a then x else if not b then y else z) ≡ z
third_branch a b x y z p q = ground arith

module _ (ej : AnalysisJob) where
  -- The attempts after the one of the expired job is abandoned.
  abbrev lost_attempts : ℕ → List DiagnosisAttempt → List DiagnosisAttempt
  lost_attempts now t =
      map
        (λ a.
          if is_diagnosis ej.job_type && of_expired ej a && is_running_attempt a.status
          then record a {
            status = abandoned;
            finished_at = some now;
            error_code = "LEASE_EXPIRED";
            error_message = "Job lease expired; current attempt abandoned";
          }
          else a)
        t

  abbrev pub HasNoRunning : List DiagnosisAttempt → Type 0
  HasNoRunning t =
      All
        (λ a. (is_diagnosis ej.job_type && of_expired ej a && is_running_attempt a.status) ≡ false)
        t

  lost-HasNoRunning : (now : ℕ) (t : List DiagnosisAttempt) → HasNoRunning (lost_attempts now t)
  lost-HasNoRunning now [] = tt
  lost-HasNoRunning now (a ∷ t) = (ground arith, lost-HasNoRunning now t)

module _ (int63n : ℕ → ℕ) (now : ℕ) (ej : AnalysisJob) (db : Db)
    (found : job_row ej.id db ≡ some ej) where
  requeues :
      is_unstarted ej ≡ true
      → requeue_unstarted ej now db
        ≡ ok (tt, after_job ej.id is_unstarted (requeue_unstarted_row now) db)
  unfolding requeue_unstarted ◌>>=◌ statements
  requeues met = rw (found, met) refl

  takes_unstarted :
      (is_diagnosis ej.job_type && ej.cancel_requested) ≡ false
      → ej.execution_started ≡ false
      → reap_one int63n now ej db ≡ requeue_unstarted ej now db
  unfolding reap_one
  takes_unstarted kept fresh =
      ap (λ (m : StoreTx (Unit {0})). m db) (second_branch _ _ _ _ _ kept fresh)

  takes_started :
      (is_diagnosis ej.job_type && ej.cancel_requested) ≡ false
      → ej.execution_started ≡ true
      → diagnosis_outcome_unknown_marker ej db ≡ none
      → reap_one int63n now ej db ≡ reap_started int63n ej now db
  unfolding reap_one reap_marked ◌>>=◌
  takes_started kept ran unmarked =
      ap (λ (m : StoreTx (Unit {0})). m db) (third_branch _ _ _ _ _ kept ran) ∙ rw unmarked refl

  -- An expired job that never started, and that is no diagnosis asked to stop, waits again, due at
  -- once, without an owner and with the attempts it had. No claim on it holds any more, no later
  -- recovery takes it, and every later claim may; nothing else in the database changes.
  pub unstarted_is_returned :
      is_expired now ej ≡ true
      → (is_diagnosis ej.job_type && ej.cancel_requested) ≡ false
      → ej.execution_started ≡ false
      → (db' : Db) × (k : AnalysisJob) × (reap_one int63n now ej db ≡ ok (tt, db'))
        × (job_row ej.id db' ≡ some k)
        × IsFreed now ej k
        × ((worker token : String) → IsUnclaimed ej.id worker token db')
        × ((t : ℕ) → is_expired t k ≡ false)
        × ((t : ℕ) → now ≤ t → is_due t k ≡ true)
        × IsOnlyJob ej.id db db'
  unstarted_is_returned expired kept fresh =
      let met : is_unstarted ej ≡ true = ground arith in
      let row =
        job_row-hit ej.id is_unstarted (requeue_unstarted_row now) db (λ j. refl) ej found met in
      (
        after_job ej.id is_unstarted (requeue_unstarted_row now) db,
        requeue_unstarted_row now ej,
        takes_unstarted kept fresh ∙ requeues met,
        row,
        returned now ej,
        λ worker token. rw row refl,
        λ t. refl,
        λ t later. ground arith,
        after_job-IsOnlyJob ej.id is_unstarted (requeue_unstarted_row now) db (λ j. refl),
      )

  -- The database after the retry of the expired job is scheduled.
  abbrev retried_db : ℕ → Db
  retried_db d = record (after_job ej.id (λ _. true) (retry_expired_row (now + d) now) db) {
    attempts = lost_attempts ej now db.attempts;
  }

  retries : (d : ℕ) → retry_expired ej d now db ≡ ok (tt, retried_db d)
  unfolding retry_expired ◌>>=◌ statements update_attempts
  retries d = rw found refl

  starts_retry :
      (d : ℕ)
      → ej.attempt_count < ej.max_attempts
      → calculate_backoff int63n ej.attempt_count second minute ≡ some d
      → reap_started int63n ej now db ≡ retry_expired ej d now db
  unfolding reap_started
  starts_retry d again picked =
      let more : ltb ej.attempt_count ej.max_attempts ≡ true = ground arith in
      rw (more, picked) refl

  -- An expired execution with attempts left, without a provider request of unknown outcome and not of
  -- a diagnosis asked to stop, waits for a retry after the bounded backoff of its attempts, with the
  -- attempts it had and the error LEASE_EXPIRED; no claim on it holds any more. Of a diagnosis, no
  -- attempt of the expired execution is left running. The random source keeps to its range.
  pub expired_is_retried :
      ((n : ℕ) → 0 < n → int63n n < n)
      → (is_diagnosis ej.job_type && ej.cancel_requested) ≡ false
      → ej.execution_started ≡ true
      → diagnosis_outcome_unknown_marker ej db ≡ none
      → ej.attempt_count < ej.max_attempts
      → (d : ℕ) × (db' : Db) × (k : AnalysisJob) × (reap_one int63n now ej db ≡ ok (tt, db'))
        × (job_row ej.id db' ≡ some k)
        × IsRetryAt
            (now + d)
            class_ownership_lost
            "LEASE_EXPIRED"
            "Job lease expired and worker did not renew"
            ej
            k
        × ((worker token : String) → IsUnclaimed ej.id worker token db')
        × HasNoRunning ej db'.attempts
        × (min (second * 2 ^ min (ej.attempt_count - 1) 6) minute ≤ d)
        × (d ≤ minute)
  expired_is_retried range kept ran unmarked again =
      let (d, picked, least, most, spread) =
        calculate_backoff_bounds int63n range ej.attempt_count second minute (omega arith)
          (omega arith) (omega arith) (omega arith) in
      let row =
        job_row-hit ej.id (λ _. true) (retry_expired_row (now + d) now) db (λ j. refl) ej found
          refl in
      (
        d,
        retried_db d,
        retry_expired_row (now + d) now ej,
        takes_started kept ran unmarked ∙ starts_retry d again picked ∙ retries d,
        row,
        retried (now + d) now ej,
        λ worker token. rw row refl,
        lost-HasNoRunning ej now db.attempts,
        least,
        most,
      )
