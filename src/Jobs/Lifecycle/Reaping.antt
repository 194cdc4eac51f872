-- ===== src/Jobs/Lifecycle/Reaping.antt =====
-- One round of the lease recovery, at a database whose row is the expired one that was selected
-- (internal/jobs/store.go, ReapExpiredJobs).
use repolens.Base.{
  ◌+◌, nat_eq, ltb, ℕ, ◌≡◌, refl, ◌∙◌, sym, ◌==◌, ==_refl, nat_key, Bool, true, false, not, ◌&&◌,
  arith, Option, none, some,
}
use repolens.Sql.Result.{◌>>=◌}
use repolens.Sql.Moves.{Outcome-if, Outcome-Option, Moves, Outcome, Outcome-bind}
use repolens.Jobs.Model.{driver_fault, changed_meanwhile, AnalysisJob, is_running, is_diagnosis}
use repolens.Jobs.Db.{Db, DiagnosisAttempt, job_row}
use repolens.Jobs.Retry.Backoff.{second, minute, calculate_backoff}
use repolens.Jobs.Reap.{
  diagnosis_outcome_unknown_marker, is_expired, cancel_expired_diagnosis, requeue_unstarted,
  fail_expired_outcome_unknown, retry_expired, fail_expired, reap_started, reap_marked, reap_one,
  retry_expired_row, fail_expired_row, unknown_message,
}
use repolens.Jobs.Lifecycle.Rows.{
  widen_scope, JobsMove, JobsMove-preorder, cancel_expired-Step, requeue_unstarted-Step,
  fail_unknown-Step, retry_expired-Step, fail_expired-Step,
}
use repolens.Jobs.Lifecycle.Statements.{
  move_pure, move_query, move_fail, move_if, move_Option, move_guard, move_bind, move_job, move_run,
  move_attempt, move_attempts, update_job-Outcome,
}
use repolens.Jobs.Lifecycle.Final.{business-Moves}

-- The scope of a round.
abbrev pub only : ℕ → ℕ → Bool
only id k = k == id

abbrev nowhere : ℕ → Bool
nowhere k = false

module _ (int63n : ℕ → ℕ) (now : ℕ) (ej : AnalysisJob) where
  cancel_expired-Moves : Moves (JobsMove (only ej.id)) (cancel_expired_diagnosis ej now)
  unfolding cancel_expired_diagnosis
  cancel_expired-Moves =
      move_bind
        (move_job _ _ _ (==_refl ej.id) (λ j. refl)
          (λ j h. cancel_expired-Step now j (ground arith) (ground arith)))
        λ n. move_bind (move_guard _ _) λ _. move_bind (move_attempts _ _) λ _.
          move_bind (move_query _) λ l. move_bind (move_run _ _ _) λ n.
            move_bind (move_query _)
              λ r. move_if _ (move_Option r (move_fail _) (λ a. move_guard _ _)) (move_pure _)

  requeue_unstarted-Moves : Moves (JobsMove (only ej.id)) (requeue_unstarted ej now)
  unfolding requeue_unstarted
  requeue_unstarted-Moves =
      move_bind
        (move_job _ _ _ (==_refl ej.id) (λ j. refl)
          (λ j h. requeue_unstarted-Step now j (ground arith)))
        λ n. move_guard _ _

  fail_unknown-Moves :
      (marker : DiagnosisAttempt)
      → Moves (JobsMove (only ej.id)) (fail_expired_outcome_unknown ej marker now)
  unfolding fail_expired_outcome_unknown
  fail_unknown-Moves marker = move_bind (move_attempt _ _ _) λ n. move_bind (move_guard _ _) λ _.
      move_bind (move_run _ _ _) λ n. move_bind (move_guard _ _) λ _.
        move_bind
          (move_job _ _ _ (==_refl ej.id) (λ j. refl)
            (λ j h.
              fail_unknown-Step now j (unknown_message marker.checkpoint_error_message)
                (ground arith)))
          λ n. move_guard _ _

  module _ (db : Db) (found : job_row ej.id db ≡ some ej) (expired : is_expired now ej ≡ true) where
    -- The statements without a condition meet the row that was selected, which runs.
    same_runs :
        (t : Db) (j : AnalysisJob)
        → job_row ej.id t ≡ job_row ej.id db
        → job_row ej.id t ≡ some j
        → is_running j.status ≡ true
    same_runs t j still e = let same : some ej ≡ some j = sym found ∙ sym still ∙ e in ground arith

    retry_expired-Outcome :
        (backoff : ℕ) → Outcome (JobsMove (only ej.id)) db (retry_expired ej backoff now db)
    unfolding retry_expired
    retry_expired-Outcome backoff =
        let first =
          update_job-Outcome (only ej.id) ej.id (λ _. true) (retry_expired_row (now + backoff) now)
            db (==_refl ej.id) (λ j. refl)
            (λ j e h. retry_expired-Step now j (now + backoff) (same_runs db j refl e)) in
        let rest : (n : ℕ) → Moves (JobsMove (only ej.id)) _ =
          λ n. move_bind (move_guard (nat_eq n 1) changed_meanwhile) (λ _. move_attempts _ _) in
        Outcome-bind JobsMove-preorder (JobsMove (only ej.id)) _ _ db (λ t m. m) first
          (λ n t m. (rest n).at t)

    fail_expired-Outcome : Outcome (JobsMove (only ej.id)) db (fail_expired ej now db)
    unfolding fail_expired
    fail_expired-Outcome =
        Outcome-bind JobsMove-preorder (JobsMove nowhere) _ _ db
          (λ t m. widen_scope (λ k h. refl) m) ((business-Moves ej.id true _ _ now).at db)
          λ _ t m.
            Outcome-bind JobsMove-preorder (JobsMove (only ej.id)) _ _ t (λ u n. n)
              (update_job-Outcome (only ej.id) ej.id (λ _. true) (fail_expired_row now) t
                (==_refl ej.id) (λ j. refl)
                (λ j e h. fail_expired-Step now j (same_runs t j (m.others ej.id refl) e)))
              (λ n u k. (move_pure {scope = only ej.id} tt).at u)

    reap_started-Outcome : Outcome (JobsMove (only ej.id)) db (reap_started int63n ej now db)
    unfolding reap_started
    reap_started-Outcome =
        Outcome-if (JobsMove (only ej.id)) (ltb ej.attempt_count ej.max_attempts) _ _ db
          (Outcome-Option (JobsMove (only ej.id))
            (calculate_backoff int63n ej.attempt_count second minute) _ _ db
            ((move_fail {scope = only ej.id} driver_fault).at db)
            (λ backoff. retry_expired-Outcome backoff))
          fail_expired-Outcome

    reap_marked-Outcome :
        (marker : Option DiagnosisAttempt)
        → Outcome (JobsMove (only ej.id)) db (reap_marked int63n ej now marker db)
    unfolding reap_marked
    reap_marked-Outcome none = reap_started-Outcome
    reap_marked-Outcome (some marker) =
        Outcome-if (JobsMove (only ej.id)) (is_diagnosis ej.job_type) _ _ db
          ((fail_unknown-Moves marker).at db) reap_started-Outcome

    pub reap_one-Outcome : Outcome (JobsMove (only ej.id)) db (reap_one int63n now ej db)
    unfolding reap_one ◌>>=◌
    reap_one-Outcome =
        Outcome-if (JobsMove (only ej.id)) (is_diagnosis ej.job_type && ej.cancel_requested) _ _ db
          (cancel_expired-Moves.at db)
          (Outcome-if (JobsMove (only ej.id)) (not ej.execution_started) _ _ db
            (requeue_unstarted-Moves.at db)
            (reap_marked-Outcome (diagnosis_outcome_unknown_marker ej db)))
