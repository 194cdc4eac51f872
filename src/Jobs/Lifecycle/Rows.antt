-- ===== src/Jobs/Lifecycle/Rows.antt =====
-- Each row that a statement of the store writes is a lawful step from the row that it met.
use repolens.Base.{
  nat_key, ℕ, String, ◌≡◌, refl, sym, subst, ◌∙◌, ◌&&◌, not, Bool, true, false, some, arith,
  if◌then◌else◌,
}
use repolens.Sql.Table.{Rows, Rows-refl, Rows-trans}
use repolens.Sql.Moves.{IsPreorder}
use repolens.Jobs.Model.{
  AnalysisJob, is_running, is_active, is_diagnosis, is_failed, is_terminal_job_status,
}
use repolens.Jobs.Db.{Db, job_row}
use repolens.Jobs.Claim.{is_due, claim_row, holds_live_claim, start_row, release_row}
use repolens.Jobs.Finalize.{Failure, cancel_row, success_row, failed_row, retry_row}
use repolens.Jobs.Reap.{
  cancel_expired_row, requeue_unstarted_row, fail_unknown_job, retry_expired_row, fail_expired_row,
}
use repolens.Jobs.Requeue.{requeue_row}
use repolens.Jobs.Lifecycle.{Step}

pub Step-refl : (j : AnalysisJob) → Step j j
Step-refl j = ground arith

pub Step-trans : (j k l : AnalysisJob) → Step j k → Step k l → Step j l
Step-trans j k l p q = record {
  id = q.id ∙ p.id;
  job_type = q.job_type ∙ p.job_type;
  resource_id = q.resource_id ∙ p.resource_id;
  max_attempts = q.max_attempts ∙ p.max_attempts;
  created_at = q.created_at ∙ p.created_at;
  generation = ground arith;
  attempts = λ e. ground arith;
  final = λ t e.
      let middle : k.execution_generation ≡ j.execution_generation =
        omega (arith, p.generation, q.generation) in
      let still : k ≡ j = p.final t middle in
      q.final (subst (λ (r : AnalysisJob). is_terminal_job_status r.status ≡ true) (sym still) t)
        (e ∙ sym middle)
      ∙ still;
  well_formed = λ w. q.well_formed (p.well_formed w);
}

-- What a body does to analysis_jobs that may write the rows in its scope only.
pub record JobsMove (scope : ℕ → Bool) (db db' : Db) : Type 0 where
  pub rows : Rows Step db.jobs db'.jobs
  pub next : db'.next_job_id ≡ db.next_job_id
  pub others : (k : ℕ) → scope k ≡ false → job_row k db' ≡ job_row k db

-- Nothing is written to analysis_jobs.
pub silent :
    {scope : ℕ → Bool} (db db' : Db)
    → db'.jobs ≡ db.jobs
    → db'.next_job_id ≡ db.next_job_id
    → JobsMove scope db db'
silent db db' e n = record {
  next = n;
  rows = rw e (Rows-refl Step Step-refl db.jobs);
  others = λ k h. rw e refl;
}

pub widen_scope :
    {s s' : ℕ → Bool} {a b : Db}
    → ((k : ℕ) → s' k ≡ false → s k ≡ false)
    → JobsMove s a b
    → JobsMove s' a b
widen_scope w m = record { rows = m.rows; next = m.next; others = λ k h. m.others k (w k h) }

pub JobsMove-preorder : {scope : ℕ → Bool} → IsPreorder (JobsMove scope)
JobsMove-preorder = record {
  same = λ db. silent db db refl refl;
  follow = λ a b c p q. record {
    rows = Rows-trans Step Step-trans a.jobs b.jobs c.jobs p.rows q.rows;
    next = q.next ∙ p.next;
    others = λ k h. q.others k h ∙ p.others k h;
  };
}

module _ (now : ℕ) (j : AnalysisJob) where
  pub claim-Step :
      (worker token : String) (lease : ℕ)
      → is_due now j ≡ true
      → Step j (claim_row worker token lease now j)
  claim-Step worker token lease h = ground arith

  pub start-Step :
      (worker token : String) (generation : ℕ)
      → (holds_live_claim worker token generation now j && not j.execution_started) ≡ true
      → Step j (start_row now j)
  start-Step worker token generation h = ground arith

  pub release-Step : is_running j.status ≡ true → Step j (release_row now j)
  release-Step h = ground arith

  pub renew-Step :
      (until : ℕ)
      → is_running j.status ≡ true
      → Step j (record j { lease_until = some until; updated_at = now })
  renew-Step until h = ground arith

  pub ask_cancel-Step :
      is_diagnosis j.job_type ≡ true
      → is_active j.status ≡ true
      → Step j (record j { cancel_requested = true; updated_at = now })
  ask_cancel-Step d h = ground arith

  pub cancel-Step :
      is_running j.status ≡ true → j.cancel_requested ≡ true → Step j (cancel_row now j)
  cancel-Step h c = ground arith

  pub success-Step : is_running j.status ≡ true → Step j (success_row now j)
  success-Step h = ground arith

  pub failure-Step :
      (f : Failure)
      → is_running j.status ≡ true
      → Step j (if f.is_terminal then failed_row f now j else retry_row f now j)
  failure-Step f h = ground arith

  pub requeue_unstarted-Step : is_running j.status ≡ true → Step j (requeue_unstarted_row now j)
  requeue_unstarted-Step h = ground arith

  pub fail_unknown-Step :
      (message : String) → is_running j.status ≡ true → Step j (fail_unknown_job message now j)
  fail_unknown-Step message h = ground arith

  pub retry_expired-Step :
      (next_run : ℕ) → is_running j.status ≡ true → Step j (retry_expired_row next_run now j)
  retry_expired-Step next_run h = ground arith

  pub fail_expired-Step : is_running j.status ≡ true → Step j (fail_expired_row now j)
  fail_expired-Step h = ground arith

  pub requeue-Step : is_failed j.status ≡ true → Step j (requeue_row now j)
  requeue-Step h = ground arith

  pub cancel_expired-Step :
      is_running j.status ≡ true → j.cancel_requested ≡ true → Step j (cancel_expired_row now j)
  cancel_expired-Step h c = ground arith
