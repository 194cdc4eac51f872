-- ===== src/Jobs/Lifecycle/Final.antt =====
-- Every way to finalize a job moves each row by a lawful step, with the business side included.
use repolens.Base.{if◌then◌else◌, refl, ℕ, String, Bool, ◌≡◌, true, arith}
use repolens.Sql.Moves.{Moves}
use repolens.Jobs.Model.{
  JobType, materialize_snapshot, build_code_index, build_retrieval, run_diagnosis, other,
  AnalysisJob,
}
use repolens.Jobs.Db.{Stage, materializing, building_code_index, building_retrieval}
use repolens.Jobs.Revision.{fail_analysis_revision, fail_stage}
use repolens.Jobs.Business.{
  fail_business_object, fail_diagnosis_attempts, fail_business, cancel_diagnosis_run,
}
use repolens.Jobs.Finalize.{
  failed_row, retry_row, Failure, load_owned_running_job, finalize_cancel, finalize_success,
  finalize_failure,
}
use repolens.Jobs.Lifecycle.Rows.{JobsMove, cancel-Step, success-Step, failure-Step}
use repolens.Jobs.Lifecycle.Statements.{
  move_pure, move_query, move_fail, move_if, move_Option, move_guard, move_bind, move_job, move_run,
  move_revision, move_resource, move_attempts, move_scan,
}

fail_stage-Moves :
    {scope : ℕ → Bool} (kind : JobType) (resource : String) (stage : Stage) (code message : String)
    (now : ℕ)
    → Moves (JobsMove scope) (fail_stage kind resource stage code message now)
unfolding fail_stage
fail_stage-Moves kind resource stage code message now =
    move_bind (move_bind (move_query _) (λ r. move_Option r (move_fail _) (λ a. move_pure _))) λ i.
      move_if _ (move_pure _) (
        move_bind (move_query _) λ r.
          move_bind (move_Option r (move_fail _) (λ a. move_pure _)) λ v.
            move_bind (move_guard _ _) λ _. move_bind (move_revision _ _ _) λ n.
              move_if _ (move_pure _) (
                move_bind (move_query _) λ r.
                  move_bind (move_Option r (move_fail _) (λ a. move_pure _))
                    λ v. move_bind (move_guard _ _) λ _. move_guard _ _))

fail_revision-Moves :
    {scope : ℕ → Bool} (kind : JobType) (resource code message : String) (now : ℕ)
    → Moves (JobsMove scope) (fail_analysis_revision kind resource code message now)
unfolding fail_analysis_revision
fail_revision-Moves materialize_snapshot resource code message now =
    fail_stage-Moves materialize_snapshot resource materializing code message now
fail_revision-Moves build_code_index resource code message now =
    fail_stage-Moves build_code_index resource building_code_index code message now
fail_revision-Moves build_retrieval resource code message now =
    fail_stage-Moves build_retrieval resource building_retrieval code message now
fail_revision-Moves _ resource code message now = move_pure _

object-Moves :
    {scope : ℕ → Bool} (kind : JobType) (resource code : String)
    → Moves (JobsMove scope) (fail_business_object kind resource code)
unfolding fail_business_object
object-Moves run_diagnosis resource code = move_bind (move_run _ _ _) λ n.
    move_bind (move_query _)
      λ r. move_if _ (move_Option r (move_fail _) (λ a. move_guard _ _)) (move_pure _)
object-Moves (other s) resource code = move_fail _
object-Moves kind resource code = move_bind (move_resource _ _ _ _) λ n.
    move_bind (move_query _)
      λ r. move_if _ (move_Option r (move_fail _) (λ a. move_guard _ _)) (move_pure _)

attempts-Moves :
    {scope : ℕ → Bool} (run : String) (generation : ℕ) (reaped : Bool) (now : ℕ)
    → Moves (JobsMove scope) (fail_diagnosis_attempts run generation reaped now)
unfolding fail_diagnosis_attempts
attempts-Moves run generation reaped now =
    move_bind (move_attempts _ _)
      λ _. move_bind (move_query _) λ l. move_bind (move_run _ _ _) λ n. move_pure _

pub business-Moves :
    {scope : ℕ → Bool} (id : ℕ) (reaped : Bool) (code message : String) (now : ℕ)
    → Moves (JobsMove scope) (fail_business id reaped code message now)
unfolding fail_business
business-Moves id reaped code message now = move_bind (move_scan _) λ j.
    move_bind (object-Moves _ _ _) λ _.
      move_bind (move_if _ (attempts-Moves _ _ _ _) (move_pure _))
        λ _. fail_revision-Moves j.job_type j.resource_id _ _ now

pub cancel_run-Moves :
    {scope : ℕ → Bool} (run : String) (generation now : ℕ)
    → Moves (JobsMove scope) (cancel_diagnosis_run run generation now)
unfolding cancel_diagnosis_run
cancel_run-Moves run generation now = move_bind (move_attempts _ _) λ _.
    move_bind (move_query _) λ l. move_bind (move_run _ _ _) λ n.
      move_bind (move_query _)
        λ r. move_if _ (move_Option r (move_pure _) (λ a. move_guard _ _)) (move_pure _)

load-Moves :
    {scope : ℕ → Bool} (id : ℕ) (worker token : String)
    → Moves (JobsMove scope) (load_owned_running_job id worker token)
unfolding load_owned_running_job
load-Moves id worker token =
    move_bind (move_query _)
      λ r. move_Option r (move_fail _) (λ j. move_if _ (move_pure _) (move_fail _))

pub cancel-Moves :
    {scope : ℕ → Bool} (id : ℕ) (worker token : String) (now : ℕ)
    → scope id ≡ true
    → Moves (JobsMove scope) (finalize_cancel id worker token now)
unfolding finalize_cancel
cancel-Moves id worker token now own = move_bind (load-Moves _ _ _) λ owned.
    move_bind (move_guard _ _) λ _. move_bind (move_guard _ _) λ _.
      move_bind
        (move_job _ _ _ own (λ j. refl) (λ j h. cancel-Step now j (ground arith) (ground arith)))
        λ n. move_bind (move_guard _ _) λ _. cancel_run-Moves _ _ _

pub success-Moves :
    {scope : ℕ → Bool} (id : ℕ) (worker token : String) (now : ℕ)
    → scope id ≡ true
    → Moves (JobsMove scope) (finalize_success id worker token now)
unfolding finalize_success
success-Moves id worker token now own = move_bind (load-Moves _ _ _) λ owned.
    move_if _ (move_if _ (cancel-Moves _ _ _ _ own) (move_fail _)) (
      move_bind (move_job _ _ _ own (λ j. refl) (λ j h. success-Step now j (ground arith))) λ n.
        move_bind (move_query _) λ r.
          move_if _
            (move_Option r (move_fail _) λ c.
              move_if _ (move_if _ (cancel-Moves _ _ _ _ own) (move_fail _))
                (move_if _ (move_fail _) (move_fail _)))
            (move_pure _))

failure_id :
    (f : Failure) (now : ℕ) (j : AnalysisJob)
    → j.id ≡ (if f.is_terminal then failed_row f now j else retry_row f now j).id
failure_id f now j = ground arith

pub failure-Moves :
    {scope : ℕ → Bool} (id : ℕ) (worker token : String) (f : Failure) (now : ℕ)
    → scope id ≡ true
    → Moves (JobsMove scope) (finalize_failure id worker token f now)
unfolding finalize_failure
failure-Moves id worker token f now own = move_bind (load-Moves _ _ _) λ owned.
    move_if _ (cancel-Moves _ _ _ _ own) (
      move_bind (move_job _ _ _ own (failure_id f now) (λ j h. failure-Step now j f (ground arith)))
        λ n. move_bind (move_query _) λ r.
          move_if _
            (move_Option r (move_fail _) (λ c. move_if _ (cancel-Moves _ _ _ _ own) (move_fail _)))
            (move_if _ (business-Moves _ _ _ _ _) (move_pure _)))
