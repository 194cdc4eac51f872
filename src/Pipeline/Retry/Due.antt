-- ===== src/Pipeline/Retry/Due.antt =====
-- internal/analysispipeline/store.go and internal/jobs/store.go: the job that a retry leaves, as
-- ClaimJobs sees it.
use repolens.Base.{◌≡◌, refl, ◌≤◌, ◌+◌, ℕ, String, true, false, some, List, arith, length, filter}
use repolens.Sql.Result.{ok}
use repolens.Sql.Table.{find}
use repolens.Jobs.Model.{
  materialize_snapshot, build_code_index, build_retrieval, other, AnalysisJob, running,
}
use repolens.Jobs.Db.{Db, JobKey, key_of, job_key}
use repolens.Jobs.Claim.{is_due, claimed_job, claim_jobs}
use repolens.Jobs.Lifecycle.Served.{claim_serves_due}
use repolens.Pipeline.Model.{
  AnalysisRevision, Stage, stage_materializing, stage_building_code, stage_building_search,
  stage_ready, stage_failed, PipelineDb, is_ready_stage, decimal,
}
use repolens.Pipeline.Store.{Hashes}
use repolens.Pipeline.Builds.Reset.{HasWaiting}
use repolens.Pipeline.Retry.{retry_preparation_once}
use repolens.Pipeline.Retry.Unfinished.{HasWork}
use repolens.Pipeline.Retry.Restart.{retry_restarts_first_unfinished}

-- The job that runs a stage of the revision; there is none behind the last stage.
abbrev pub job_of_stage : AnalysisRevision → Stage → JobKey
job_of_stage r stage_materializing = (materialize_snapshot, r.snapshot_id)
job_of_stage r stage_building_code = (build_code_index, decimal r.code_index_build_id)
job_of_stage r stage_building_search = (build_retrieval, decimal r.retrieval_build_id)
job_of_stage r _ = (other "", "")

abbrev IsDueAt : ℕ → ℕ → JobKey → List AnalysisJob → Type 0
IsDueAt generation t key jobs =
    (j : AnalysisJob) × (find key_of key jobs ≡ some j)
    × (is_due t j ≡ true)
    × (j.execution_generation ≡ generation)
    × (j.attempt_count ≡ 0)

waiting_is_due :
    (generation now t : ℕ) (key : JobKey) (jobs : List AnalysisJob)
    → now ≤ t
    → HasWaiting generation now key.0 key.1 jobs
    → IsDueAt generation t key jobs
waiting_is_due generation now t key jobs later (j, found, waiting) = (
  j,
  found,
  rw (waiting.waits_again, waiting.is_due_now) (ground arith),
  waiting.generation,
  waiting.no_attempts,
)

work_is_due :
    (now t : ℕ) (stage : Stage) (r : AnalysisRevision) (db : PipelineDb)
    → now ≤ t
    → is_ready_stage stage ≡ false
    → HasWork now stage r db
    → IsDueAt r.execution_generation t (job_of_stage r stage) db.jobs
work_is_due now t stage_materializing r db later unfinished work =
    waiting_is_due r.execution_generation now t _ db.jobs later work
work_is_due now t stage_building_code r db later unfinished work =
    waiting_is_due r.execution_generation now t _ db.jobs later work
work_is_due now t stage_building_search r db later unfinished work =
    waiting_is_due r.execution_generation now t _ db.jobs later work
work_is_due now t stage_ready r db later unfinished work = ground (arith, unfinished)
work_is_due now t stage_failed r db later unfinished work = elim work [ ]

-- After a retry that commits before the last stage, any claim at that time or later on the table of
-- jobs that it leaves returns the job of the revision's stage, RUNNING for the claiming worker in the
-- revision's generation, if its batch has room for all jobs that are due.
pub retried_stage_is_served :
    (h : Hashes) (id : String) (now t : ℕ) (db db' : PipelineDb) (r : AnalysisRevision)
    (worker : String) (token : ℕ → String) (batch_size duration : ℕ) (q : Db)
    → retry_preparation_once h id now db ≡ ok (r, db')
    → is_ready_stage r.stage ≡ false
    → now ≤ t
    → q.jobs ≡ db'.jobs
    → length (filter (is_due t) q.jobs) ≤ batch_size
    → (out : List AnalysisJob) × (q' : Db) × (d : AnalysisJob) × (claim_jobs worker token batch_size
          duration t q
        ≡ ok (out, q'))
      × (find key_of (job_of_stage r r.stage) out ≡ some d)
      × (d.status ≡ running)
      × (d.worker_id ≡ some worker)
      × (d.execution_generation ≡ r.execution_generation)
      × (d.attempt_count ≡ 0)
retried_stage_is_served h id now t db db' r worker token batch_size duration q e unfinished later
      same room =
    let (old, found, restart) = retry_restarts_first_unfinished h id now db db' r e in
    let (j, there, due, generation, fresh) =
      work_is_due now t r.stage r db' later unfinished restart.work in
    let (out, q', n, claims, hit) =
      claim_serves_due worker token (t + duration) t batch_size duration (job_of_stage r r.stage) q
        j refl (rw same there) due room in
    (
      out,
      q',
      claimed_job worker (token n) (t + duration) t j,
      claims,
      hit,
      refl,
      refl,
      generation,
      fresh,
    )
