-- ===== src/Pipeline/Model.antt =====
-- The tables of the analysis pipeline: their rows (Rows), one function for each statement that reads or
-- updates a row by its key, and the tests of a status.
mod Rows
pub use Rows.*
use Prim.Native.String.{slice, ◌++◌ as str_append}
use repolens.Base.{
  ℕ, zero, suc, ◌/◌, ◌%◌, ◌+◌, String, Bool, true, false, Option, List, nat_key, text_key,
  if◌then◌else◌, ltb,
}
use repolens.Sql.Result.{ok, Tx}
use repolens.Sql.Table.{find, update, count_row}
use repolens.Jobs.Model.{AnalysisJob, JobType}
use repolens.Jobs.Db.{key_of, job_key}

abbrev pub PipelineTx : Type 0 → Type 0
PipelineTx A = Tx PipelineDb PipelineError A

abbrev pub is_preparing : RevisionStatus → Bool
is_preparing preparing = true
is_preparing _ = false

abbrev pub is_failed_revision : RevisionStatus → Bool
is_failed_revision revision_failed = true
is_failed_revision _ = false

abbrev pub is_ready_revision : RevisionStatus → Bool
is_ready_revision revision_ready = true
is_ready_revision _ = false

abbrev pub is_ready_stage : Stage → Bool
is_ready_stage stage_ready = true
is_ready_stage _ = false

abbrev pub is_ready_snapshot : SnapshotStatus → Bool
is_ready_snapshot snapshot_ready = true
is_ready_snapshot _ = false

abbrev pub is_materializing : SnapshotStatus → Bool
is_materializing materializing = true
is_materializing _ = false

abbrev pub is_ready_build : BuildStatus → Bool
is_ready_build build_ready = true
is_ready_build _ = false

abbrev pub is_building : BuildStatus → Bool
is_building building = true
is_building _ = false

abbrev pub revision_row : String → PipelineDb → Option AnalysisRevision
revision_row id db = find (λ (r : AnalysisRevision). r.id) id db.revisions

abbrev pub snapshot_row : String → PipelineDb → Option RepositorySnapshot
snapshot_row id db = find (λ (s : RepositorySnapshot). s.id) id db.snapshots

abbrev pub code_build_row : ℕ → PipelineDb → Option CodeIndexBuild
code_build_row id db = find (λ (b : CodeIndexBuild). b.id) id db.code_builds

abbrev pub retrieval_build_row : ℕ → PipelineDb → Option RetrievalBuild
retrieval_build_row id db = find (λ (b : RetrievalBuild). b.id) id db.retrieval_builds

abbrev pub pipeline_job : JobType → String → PipelineDb → Option AnalysisJob
pipeline_job kind resource db = find key_of (kind, resource) db.jobs

abbrev pub job_by_id : ℕ → PipelineDb → Option AnalysisJob
job_by_id id db = find (λ (j : AnalysisJob). j.id) id db.jobs

-- UPDATE ... SET f WHERE id = ? AND c on each table: the rows affected, and the new table.
unfoldable pub update_revision :
    String → (AnalysisRevision → Bool) → (AnalysisRevision → AnalysisRevision) → PipelineTx ℕ
update_revision id c f db = ok (
  count_row c (revision_row id db),
  record db { revisions = update (λ (r : AnalysisRevision). r.id) id c f db.revisions },
)

unfoldable pub update_snapshot :
    String → (RepositorySnapshot → Bool) → (RepositorySnapshot → RepositorySnapshot) → PipelineTx ℕ
update_snapshot id c f db = ok (
  count_row c (snapshot_row id db),
  record db { snapshots = update (λ (s : RepositorySnapshot). s.id) id c f db.snapshots },
)

unfoldable pub update_code_build :
    ℕ → (CodeIndexBuild → Bool) → (CodeIndexBuild → CodeIndexBuild) → PipelineTx ℕ
update_code_build id c f db = ok (
  count_row c (code_build_row id db),
  record db { code_builds = update (λ (b : CodeIndexBuild). b.id) id c f db.code_builds },
)

unfoldable pub update_retrieval_build :
    ℕ → (RetrievalBuild → Bool) → (RetrievalBuild → RetrievalBuild) → PipelineTx ℕ
update_retrieval_build id c f db = ok (
  count_row c (retrieval_build_row id db),
  record db { retrieval_builds = update (λ (b : RetrievalBuild). b.id) id c f db.retrieval_builds },
)

unfoldable pub update_pipeline_job :
    ℕ → (AnalysisJob → Bool) → (AnalysisJob → AnalysisJob) → PipelineTx ℕ
update_pipeline_job id c f db = ok (
  count_row c (job_by_id id db),
  record db { jobs = update (λ (j : AnalysisJob). j.id) id c f db.jobs },
)

unfoldable pub update_job_of :
    JobType → String → (AnalysisJob → Bool) → (AnalysisJob → AnalysisJob) → PipelineTx ℕ
update_job_of kind resource c f db = ok (
  count_row c (pipeline_job kind resource db),
  record db { jobs = update key_of (kind, resource) c f db.jobs },
)

digit : ℕ → String
digit n = slice "0123456789" n (n + 1)

-- The digits of n in front of the text.
decimal_loop : ℕ → ℕ → String → String
decimal_loop zero n text = text
decimal_loop (suc fuel) n text =
    let rest = decimal_loop fuel (n / 10) (str_append (digit (n % 10)) text) in
    if ltb n 10 then str_append (digit n) text else rest

-- fmt.Sprintf("%d", id); an int64 has at most 19 digits.
unfoldable pub decimal : ℕ → String
unfolding decimal_loop digit
decimal n = decimal_loop 20 n ""
