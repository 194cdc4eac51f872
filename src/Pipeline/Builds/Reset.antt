-- ===== src/Pipeline/Builds/Reset.antt =====
-- internal/analysispipeline/store.go, resetJobTx: it always succeeds, and leaves a job that waits.
use repolens.Base.{
  ◌≡◌, refl, ap, ◌∙◌, ℕ, suc, String, true, false, none, some, List, [], ◌∷◌, ◌++◌, nat_key,
  text_key, Option-cases, inl, inr,
}
use repolens.Sql.Result.{ok, bind_ok}
use repolens.Sql.Table.{
  find, update, count_row, map_row, when_row, find-update_self, find-append_new,
}
use repolens.Sql.Read.{pure_step}
use repolens.Jobs.Model.{JobType, pending, AnalysisJob}
use repolens.Jobs.Db.{key_of, job_key}
use repolens.Pipeline.Model.{PipelineDb, pipeline_job, update_job_of}
use repolens.Pipeline.Store.{create_job_gorm, insert_new_job, pipeline_new_job}
use repolens.Pipeline.Builds.{restart_job_row, reset_job}

-- A job that a worker can claim at once, with a fresh count of attempts.
pub record IsWaiting (current now : ℕ) (j : AnalysisJob) : Type 0 where
  pub waits_again : j.status ≡ pending
  pub generation : j.execution_generation ≡ current
  pub is_due_now : j.next_run_at ≡ now
  pub no_attempts : j.attempt_count ≡ 0
  pub not_started : j.execution_started ≡ false
  pub unclaimed : j.claim_token ≡ none
  pub not_cancelled : j.cancel_requested ≡ false
  pub no_reason : j.terminal_reason ≡ none

abbrev pub HasWaiting : ℕ → ℕ → JobType → String → List AnalysisJob → Type 0
HasWaiting generation now kind resource jobs =
    (j : AnalysisJob) × (find key_of (kind, resource) jobs ≡ some j) × IsWaiting generation now j

pub restarted :
    (generation now : ℕ) (j : AnalysisJob)
    → IsWaiting generation now (restart_job_row generation now j)
restarted generation now j = record {
  waits_again = refl;
  generation = refl;
  is_due_now = refl;
  no_attempts = refl;
  not_started = refl;
  unclaimed = refl;
  not_cancelled = refl;
  no_reason = refl;
}

pub inserted :
    (id : ℕ) (kind : JobType) (resource : String) (generation now : ℕ)
    → IsWaiting generation now (pipeline_new_job id kind resource generation now)
inserted id kind resource generation now = record {
  waits_again = refl;
  generation = refl;
  is_due_now = refl;
  no_attempts = refl;
  not_started = refl;
  unclaimed = refl;
  not_cancelled = refl;
  no_reason = refl;
}

abbrev pub with_jobs : PipelineDb → List AnalysisJob → ℕ → PipelineDb
with_jobs db t next = record db { jobs = t; next_job_id = next }

-- resetJobTx always succeeds, and the job of the resource waits to be claimed.
abbrev pub ResetOutcome : ℕ → ℕ → JobType → String → PipelineDb → Type 0
ResetOutcome generation now kind resource db =
    (t : List AnalysisJob) × (next : ℕ) × (reset_job kind resource generation now db
      ≡ ok (tt, with_jobs db t next))
    × HasWaiting generation now kind resource t

abbrev pub reset_jobs : ℕ → ℕ → JobType → String → PipelineDb → List AnalysisJob
reset_jobs generation now kind resource db =
    update key_of (kind, resource) (λ _. true) (restart_job_row generation now) db.jobs

pub reset_finds :
    (kind : JobType) (resource : String) (generation now : ℕ) (db : PipelineDb)
    → find key_of (kind, resource) (reset_jobs generation now kind resource db)
      ≡ map_row
          (when_row (λ _. true) (restart_job_row generation now))
          (pipeline_job kind resource db)
reset_finds kind resource generation now db =
    find-update_self key_of (kind, resource) (λ _. true) (restart_job_row generation now) db.jobs
      (λ j. refl)

pub reset_creates :
    (kind : JobType) (resource : String) (generation now : ℕ) (db : PipelineDb)
    → pipeline_job kind resource db ≡ none
    → ResetOutcome generation now kind resource db
unfolding reset_job update_job_of create_job_gorm insert_new_job
reset_creates kind resource generation now db absent =
    let t = reset_jobs generation now kind resource db in
    let new = pipeline_new_job db.next_job_id kind resource generation now in
    let still : find key_of (kind, resource) t ≡ none =
      reset_finds kind resource generation now db
      ∙ ap (map_row (when_row (λ _. true) (restart_job_row generation now))) absent in
    (
      t ++ new ∷ [],
      suc db.next_job_id,
      bind_ok _ _ db (record db { jobs = t }) 0
            (ap (λ o. ok (count_row (λ _. true) o, record db { jobs = t })) absent)
          ∙ ap (λ o. insert_new_job new o (record db { jobs = t })) still,
      (
        new,
        find-append_new key_of (kind, resource) t new still refl,
        inserted db.next_job_id kind resource generation now,
      ),
    )

pub reset_restarts :
    (kind : JobType) (resource : String) (generation now : ℕ) (db : PipelineDb) (j : AnalysisJob)
    → pipeline_job kind resource db ≡ some j
    → ResetOutcome generation now kind resource db
unfolding reset_job update_job_of
reset_restarts kind resource generation now db j found =
    let t = reset_jobs generation now kind resource db in
    (
      t,
      db.next_job_id,
      bind_ok _ _ db (record db { jobs = t }) 1
            (ap (λ o. ok (count_row (λ _. true) o, record db { jobs = t })) found)
          ∙ pure_step tt (record db { jobs = t }),
      (
        restart_job_row generation now j,
        reset_finds kind resource generation now db
            ∙ ap (map_row (when_row (λ _. true) (restart_job_row generation now))) found,
        restarted generation now j,
      ),
    )

pub reset_outcome :
    (kind : JobType) (resource : String) (generation now : ℕ) (db : PipelineDb)
    → ResetOutcome generation now kind resource db
reset_outcome kind resource generation now db =
    elim (Option-cases (pipeline_job kind resource db)) [
      | inl absent ↦ reset_creates kind resource generation now db absent
      | inr (j, found) ↦ reset_restarts kind resource generation now db j found
    ]

-- What follows each statement may use that it changed one table alone.
