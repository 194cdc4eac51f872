-- ===== src/Jobs/Lifecycle/Restart.antt =====
-- The user's retries start a new generation, which is a lawful step of a failed row.
use repolens.Base.{Bool, ℕ, String, arith}
use repolens.Sql.Moves.{Moves}
use repolens.Jobs.Model.{JobType, run_diagnosis, other}
use repolens.Jobs.Requeue.{restore_business, manual_requeue, retry_diagnosis}
use repolens.Jobs.Lifecycle.Rows.{JobsMove, requeue-Step}
use repolens.Jobs.Lifecycle.Statements.{
  everywhere, move_pure, move_query, move_fail, move_if, move_Option, move_guard, move_bind,
  move_job_by_resource, move_run, move_resource,
}

restore-Moves :
    {scope : ℕ → Bool} (kind : JobType) (resource : String)
    → Moves (JobsMove scope) (restore_business kind resource)
unfolding restore_business
restore-Moves run_diagnosis resource = move_bind (move_run _ _ _) λ n.
    move_bind (move_query _)
      λ r. move_if _ (move_pure _) (move_Option r (move_pure _) (λ a. move_fail _))
restore-Moves (other s) resource = move_fail _
restore-Moves kind resource = move_bind (move_resource _ _ _ _) λ n.
    move_bind (move_query _)
      λ r. move_if _ (move_pure _) (move_Option r (move_pure _) (λ a. move_fail _))

pub requeue-Moves :
    (kind : JobType) (resource : String) (now : ℕ)
    → Moves (JobsMove everywhere) (manual_requeue kind resource now)
unfolding manual_requeue
requeue-Moves kind resource now = move_bind (restore-Moves _ _) λ _.
    move_bind (move_job_by_resource _ _ _ _ (λ j e h. requeue-Step now j (ground arith)))
      λ n. move_guard _ _

pub retry-Moves :
    (resource : String) (now : ℕ) → Moves (JobsMove everywhere) (retry_diagnosis resource now)
unfolding retry_diagnosis
retry-Moves resource now = move_bind (move_query _) λ r.
    move_bind (move_Option r (move_fail _) (λ j. move_if _ (move_pure _) (move_fail _))) λ j.
      move_bind (move_guard _ _) λ _. move_bind (move_run _ _ _) λ n.
        move_bind (move_guard _ _) λ _.
          move_bind (move_job_by_resource _ _ _ _ (λ k e h. requeue-Step now k h))
            λ m. move_guard _ _
