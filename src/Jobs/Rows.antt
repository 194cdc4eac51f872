-- ===== src/Jobs/Rows.antt =====
-- What the store makes of a job's row, column by column (internal/jobs/store.go).
use repolens.Base.{ℕ, ◌+◌, ◌≡◌, String, Bool, false, none, some, nat_key, ◌==◌, refl}
use repolens.Sql.Table.{find-update_ne}
use repolens.Jobs.Model.{
  AnalysisJob, ErrorClass, pending, retry_wait, succeeded, cancelled, user_cancelled,
}
use repolens.Jobs.Db.{Db, job_row, after_job}

-- The columns that no statement of the store writes.
pub record IsSameJob (j k : AnalysisJob) : Type 0 where
  pub same_id : k.id ≡ j.id
  pub same_type : k.job_type ≡ j.job_type
  pub same_resource : k.resource_id ≡ j.resource_id
  pub same_limit : k.max_attempts ≡ j.max_attempts
  pub same_creation : k.created_at ≡ j.created_at

-- The same execution of the same job, with no attempt charged.
pub record IsSameExecution (j k : AnalysisJob) : Type 0 where
  pub same_job : IsSameJob j k
  pub same_generation : k.execution_generation ≡ j.execution_generation
  pub same_attempts : k.attempt_count ≡ j.attempt_count
  pub same_request : k.cancel_requested ≡ j.cancel_requested

-- The next execution, which has a clean row and is due at once.
pub record IsRequeued (now : ℕ) (j k : AnalysisJob) : Type 0 where
  pub same_job : IsSameJob j k
  pub is_pending : k.status ≡ pending
  pub next_generation : k.execution_generation ≡ j.execution_generation + 1
  pub no_attempts : k.attempt_count ≡ 0
  pub not_started : k.execution_started ≡ false
  pub is_due_now : k.next_run_at ≡ now
  pub no_worker : k.worker_id ≡ none
  pub no_token : k.claim_token ≡ none
  pub no_lease : k.lease_until ≡ none
  pub not_cancelled : k.cancel_requested ≡ false
  pub no_class : k.last_error_class ≡ none
  pub no_code : k.last_error_code ≡ none
  pub no_message : k.last_error_message ≡ none
  pub no_reason : k.terminal_reason ≡ none
  pub not_finished : k.finished_at ≡ none

-- The same execution, which waits without an owner and is due at once.
pub record IsFreed (now : ℕ) (j k : AnalysisJob) : Type 0 where
  pub same_execution : IsSameExecution j k
  pub is_pending : k.status ≡ pending
  pub is_due_now : k.next_run_at ≡ now
  pub no_worker : k.worker_id ≡ none
  pub no_token : k.claim_token ≡ none
  pub no_lease : k.lease_until ≡ none
  pub not_started : k.execution_started ≡ false
  pub not_finished : k.finished_at ≡ none

-- The same execution, which waits for a retry at a time, with an error.
pub record IsRetryAt (next_run : ℕ) (class : ErrorClass) (code message : String) (j k : AnalysisJob)
    : Type 0 where
  pub same_execution : IsSameExecution j k
  pub is_waiting : k.status ≡ retry_wait
  pub is_due_then : k.next_run_at ≡ next_run
  pub has_class : k.last_error_class ≡ some class
  pub has_code : k.last_error_code ≡ some code
  pub has_message : k.last_error_message ≡ some message
  pub same_reason : k.terminal_reason ≡ j.terminal_reason
  pub same_finish : k.finished_at ≡ j.finished_at

pub record IsSucceededAt (now : ℕ) (j k : AnalysisJob) : Type 0 where
  pub same_execution : IsSameExecution j k
  pub is_succeeded : k.status ≡ succeeded
  pub is_finished : k.finished_at ≡ some now
  pub same_reason : k.terminal_reason ≡ j.terminal_reason

pub record IsCancelledAt (now : ℕ) (j k : AnalysisJob) : Type 0 where
  pub same_execution : IsSameExecution j k
  pub is_cancelled : k.status ≡ cancelled
  pub has_reason : k.terminal_reason ≡ some user_cancelled
  pub is_finished : k.finished_at ≡ some now

-- Every other row of analysis_jobs and every other table is as before.
abbrev pub IsOnlyJob : ℕ → Db → Db → Type 0
IsOnlyJob id db db' =
    (record db' { jobs = db.jobs } ≡ db)
    × ((other : ℕ) → (id == other) ≡ false → job_row other db' ≡ job_row other db)

pub after_job-IsOnlyJob :
    (id : ℕ) (c : AnalysisJob → Bool) (f : AnalysisJob → AnalysisJob) (db : Db)
    → ((j : AnalysisJob) → (f j).id ≡ j.id)
    → IsOnlyJob id db (after_job id c f db)
after_job-IsOnlyJob id c f db keeps = (
  refl,
  λ other apart. find-update_ne (λ (j : AnalysisJob). j.id) id other c f db.jobs keeps apart,
)
