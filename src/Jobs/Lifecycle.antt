-- ===== src/Jobs/Lifecycle.antt =====
-- The life of a job row: its well-formedness, and what any committed operation of the store may do to
-- a row (internal/jobs, docs/state-machines.md).
pub mod Rows
pub mod Statements
pub mod Single
pub mod Restart
pub mod Final
pub mod Reaping
pub mod Loops
pub mod Traces
pub mod Exclusive
pub mod Served
pub mod Failed
pub mod Failing
use repolens.Base.{ℕ, ◌≤◌, ◌<◌, ◌≡◌, ◌⊎◌, Bool, true, false, Option, none, some}
use repolens.Jobs.Model.{
  AnalysisJob, running, cancelled, user_cancelled, is_diagnosis, is_running, is_cancelled,
  is_terminal_job_status,
}

abbrev pub is_set : {A : Type 0} → Option A → Bool
is_set none = false
is_set (some a) = true

-- What holds of every row between two operations.
pub record IsWellFormed (j : AnalysisJob) : Type 0 where
  -- A running row has an owner, a token and a lease.
  pub owned : is_running j.status ≡ true → is_set j.worker_id ≡ true
  pub token : is_running j.status ≡ true → is_set j.claim_token ≡ true
  pub leased : is_running j.status ≡ true → is_set j.lease_until ≡ true
  -- A running row that has started was charged an attempt.
  pub charged : is_running j.status ≡ true → j.execution_started ≡ true → 0 < j.attempt_count
  -- A row is finished exactly if its status is terminal.
  pub finished : is_set j.finished_at ≡ is_terminal_job_status j.status
  -- Only a diagnosis is cancelled, or asked to be.
  pub cancel_asked : j.cancel_requested ≡ true → is_diagnosis j.job_type ≡ true
  pub cancel_kind : is_cancelled j.status ≡ true → j.cancel_requested ≡ true
  pub cancel_reason : is_cancelled j.status ≡ true → j.terminal_reason ≡ some user_cancelled

-- From the row before to the row after.
pub record Step (j k : AnalysisJob) : Type 0 where
  pub id : k.id ≡ j.id
  pub job_type : k.job_type ≡ j.job_type
  pub resource_id : k.resource_id ≡ j.resource_id
  pub max_attempts : k.max_attempts ≡ j.max_attempts
  pub created_at : k.created_at ≡ j.created_at
  -- The execution generation never falls, and within one the attempts never fall.
  pub generation : j.execution_generation ≤ k.execution_generation
  pub attempts : k.execution_generation ≡ j.execution_generation → j.attempt_count ≤ k.attempt_count
  -- A terminal row changes only by a new generation.
  pub final :
      is_terminal_job_status j.status ≡ true
      → k.execution_generation ≡ j.execution_generation
      → k ≡ j
  pub well_formed : IsWellFormed j → IsWellFormed k
