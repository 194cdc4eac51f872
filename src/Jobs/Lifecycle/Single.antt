-- ===== src/Jobs/Lifecycle/Single.antt =====
-- Every operation of the store that works on one job moves each row by a lawful step.
use repolens.Base.{refl, ℕ, String, Bool, ◌≡◌, true, arith}
use repolens.Sql.Moves.{Moves}
use repolens.Jobs.Model.{JobType}
use repolens.Jobs.Claim.{
  mark_execution_started, return_undispatched_claim, renew_lease, request_cancel,
}
use repolens.Jobs.Lifecycle.Rows.{JobsMove, start-Step, release-Step, renew-Step, ask_cancel-Step}
use repolens.Jobs.Lifecycle.Statements.{
  everywhere, move_pure, move_query, move_fail, move_if, move_Option, move_guard, move_bind,
  move_job, move_job_by_resource, move_guarded,
}

pub mark-Moves :
    {scope : ℕ → Bool} (id : ℕ) (worker token : String) (generation now : ℕ)
    → scope id ≡ true
    → Moves (JobsMove scope) (mark_execution_started id worker token generation now)
unfolding mark_execution_started
mark-Moves id worker token generation now own =
    move_bind (move_job _ _ _ own (λ j. refl) (λ j h. start-Step now j worker token generation h))
      λ _.
        move_bind (move_query _)
          λ row. move_Option row (move_fail _) (λ j. move_if _ (move_pure _) (move_fail _))

pub return-Moves :
    {scope : ℕ → Bool} (id : ℕ) (worker token : String) (generation now : ℕ)
    → scope id ≡ true
    → Moves (JobsMove scope) (return_undispatched_claim id worker token generation now)
unfolding return_undispatched_claim
return-Moves id worker token generation now own =
    move_bind (move_job _ _ _ own (λ j. refl) (λ j h. release-Step now j (ground arith)))
      (λ n. move_guard _ _)

pub renew-Moves :
    {scope : ℕ → Bool} (id : ℕ) (worker token : String) (until now : ℕ)
    → scope id ≡ true
    → Moves (JobsMove scope) (renew_lease id worker token until now)
unfolding renew_lease
renew-Moves id worker token until now own =
    move_bind (move_job _ _ _ own (λ j. refl) (λ j h. renew-Step now j until (ground arith)))
      (λ n. move_guard _ _)

pub request_cancel-Moves :
    (kind : JobType) (resource : String) (now : ℕ)
    → Moves (JobsMove everywhere) (request_cancel kind resource now)
unfolding request_cancel
request_cancel-Moves kind resource now = move_guarded _ _ _ λ d.
    move_bind (move_job_by_resource _ _ _ _ (λ j e h. ask_cancel-Step now j (rw e d) h))
      (λ n. move_guard _ _)
