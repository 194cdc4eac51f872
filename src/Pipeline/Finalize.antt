-- ===== src/Pipeline/Finalize.antt =====
-- The finalizers of a stage: FinalizeSnapshotSuccess and FinalizeSnapshotSuccessWithRevision
-- (internal/snapshot/store.go), FinalizeRetrievalSuccess and FinalizeRetrievalSuccessWithRevision
-- (internal/codeintel/store/store.go). Each publishes the stage's row, advances the revision, makes
-- the next job and completes its own, in one transaction.
pub mod Owned
pub mod Published
use repolens.Base.{
  ℕ, ◌+◌, String, Bool, not, ◌&&◌, ◌||◌, Option, none, some, nat_eq, nat_key, text_key, ◌==◌,
  is_value, if◌then◌else◌,
}
use repolens.Sql.Result.{pure, fail, query, guard, ◌>>=◌, ◌>>◌}
use repolens.Sql.Read.{read}
use repolens.Jobs.Model.{JobType, build_code_index, succeeded, AnalysisJob, is_running}
use repolens.Pipeline.Model.{
  AnalysisRevision, revision_ready, stage_building_code, stage_ready, RepositorySnapshot,
  snapshot_ready, RetrievalBuild, build_ready, PipelineTx, lineage, record_not_found, duplicate_key,
  ownership_lost, finalize_conflict, not_ready_without_content, not_ready_without_artifact,
  is_preparing, is_materializing, is_building, is_ready_build, revision_row, code_build_row,
  retrieval_build_row, pipeline_job, job_by_id, update_revision, update_snapshot,
  update_retrieval_build, update_pipeline_job, decimal,
}
use repolens.Pipeline.Store.{Hashes, create_job_gorm, is_absent}
use repolens.Pipeline.Builds.{current_code_build, new_code_build, insert_code_build}

-- WHERE id = ? AND status = 'RUNNING' AND worker_id = ? AND claim_token = ? AND execution_started
-- AND NOT cancel_requested
abbrev pub owns_job : String → String → AnalysisJob → Bool
owns_job worker token j =
    is_running j.status
    && is_value j.worker_id worker
    && is_value j.claim_token token
    && j.execution_started
    && not j.cancel_requested

-- requireOwnedJob, whose caller FinalizeSnapshotSuccessWithRevision keeps the row.
unfoldable pub require_owned_job : ℕ → String → String → PipelineTx AnalysisJob
require_owned_job id worker token = do
  j ← read (job_by_id id) ownership_lost
  guard (owns_job worker token j) ownership_lost
  pure j

unfoldable pub finalize_owned_job : ℕ → String → String → ℕ → PipelineTx (Unit {0})
finalize_owned_job id worker token now = do
  affected ←
      update_pipeline_job id (owns_job worker token)
        (λ j. record j { status = succeeded; finished_at = some now; updated_at = now })
  guard (nat_eq affected 1) ownership_lost

-- What a materialization found.
pub record Materialized : Type 0 where
  pub materialized_path : String
  pub commit_sha : String
  pub content_hash : String
  pub file_count : ℕ
  pub total_bytes : ℕ

abbrev pub is_inexact : Materialized → Bool
is_inexact m =
    m.materialized_path == ""
    || m.commit_sha == ""
    || m.commit_sha == "pending"
    || m.content_hash == ""

abbrev pub materialized_row : Materialized → ℕ → RepositorySnapshot → RepositorySnapshot
materialized_row m now s = record s {
  materialized_path = m.materialized_path;
  commit_sha = m.commit_sha;
  content_hash = m.content_hash;
  file_count = m.file_count;
  total_bytes = m.total_bytes;
  status = snapshot_ready;
  ready_at = some now;
}

unfoldable pub finalize_materialization : String → Materialized → ℕ → PipelineTx (Unit {0})
finalize_materialization snapshot m now =
    if is_inexact m then fail not_ready_without_content else do
      affected ← update_snapshot snapshot (λ s. is_materializing s.status) (materialized_row m now)
      guard (nat_eq affected 1) finalize_conflict

unfoldable pub finalize_snapshot_success :
    ℕ → String → String → String → Materialized → ℕ → PipelineTx (Unit {0})
finalize_snapshot_success job worker token snapshot m now =
    if is_inexact m then fail not_ready_without_content else do
      require_owned_job job worker token
      affected ← update_snapshot snapshot (λ s. is_materializing s.status) (materialized_row m now)
      guard (nat_eq affected 1) finalize_conflict
      finalize_owned_job job worker token now

-- SELECT code_index_build_id FROM analysis_revisions WHERE id = ? AND status = 'PREPARING' AND
-- snapshot_id = ?: 0 if no row or no build is found.
abbrev pub is_prepared_from : String → AnalysisRevision → Bool
is_prepared_from snapshot r = is_preparing r.status && r.snapshot_id == snapshot

abbrev pub code_build_of : String → Option AnalysisRevision → ℕ
code_build_of snapshot none = 0
code_build_of snapshot (some r) = if is_prepared_from snapshot r then r.code_index_build_id else 0

-- A new build; uq_code_index_build refuses a second one of the versions.
unfoldable pub create_code_build : Hashes → String → String → String → ℕ → PipelineTx ℕ
create_code_build h revision snapshot module_path now = do
  same ← query (current_code_build h snapshot)
  guard (is_absent same) duplicate_key
  id ← query (λ db. db.next_code_build_id)
  insert_code_build (new_code_build id h revision snapshot module_path now)

unfoldable pub check_code_build : String → String → ℕ → PipelineTx ℕ
check_code_build revision snapshot id = do
  build ← read (code_build_row id) record_not_found
  guard (build.analysis_revision_id == revision && build.snapshot_id == snapshot) finalize_conflict
  pure id

unfoldable pub next_code_build : Hashes → String → String → String → ℕ → ℕ → PipelineTx ℕ
next_code_build h revision snapshot module_path now there =
    if nat_eq there 0
    then create_code_build h revision snapshot module_path now
    else check_code_build revision snapshot there

-- The job of the next stage, unless there is one.
unfoldable pub ensure_job : JobType → String → ℕ → ℕ → Option AnalysisJob → PipelineTx (Unit {0})
ensure_job kind resource generation now none = create_job_gorm kind resource generation now
ensure_job kind resource generation now (some _) = pure tt

abbrev pub code_stage_row : ℕ → ℕ → AnalysisRevision → AnalysisRevision
code_stage_row build now r = record r {
  stage = stage_building_code;
  code_index_build_id = build;
  version = r.version + 1;
  updated_at = now;
}

unfoldable pub finalize_snapshot_success_with_revision :
    Hashes
    → ℕ
    → String
    → String
    → String
    → Materialized
    → String
    → String
    → ℕ
    → PipelineTx (Unit {0})
finalize_snapshot_success_with_revision h job worker token snapshot m revision module_path now =
    if is_inexact m then fail not_ready_without_content else do
      owned ← require_owned_job job worker token
      published ←
          update_snapshot snapshot
            (λ s. is_materializing s.status && s.analysis_revision_id == revision)
            (materialized_row m now)
      guard (nat_eq published 1) finalize_conflict
      there ← query (λ db. code_build_of snapshot (revision_row revision db))
      build ← next_code_build h revision snapshot module_path now there
      waiting ← query (pipeline_job build_code_index (decimal build))
      ensure_job build_code_index (decimal build) owned.execution_generation now waiting
      advanced ← update_revision revision (is_prepared_from snapshot) (code_stage_row build now)
      guard (nat_eq advanced 1) finalize_conflict
      finalize_owned_job job worker token now

abbrev pub artifact_row : String → String → ℕ → ℕ → RetrievalBuild → RetrievalBuild
artifact_row path hash documents now b = record b {
  status = build_ready;
  artifact_path = path;
  artifact_hash = hash;
  document_count = documents;
  ready_at = some now;
}

unfoldable pub complete_retrieval_build : ℕ → String → String → ℕ → ℕ → PipelineTx (Unit {0})
complete_retrieval_build build path hash documents now =
    if path == "" || hash == "" then fail not_ready_without_artifact else do
      affected ←
          update_retrieval_build build (λ b. is_building b.status)
            (artifact_row path hash documents now)
      guard (nat_eq affected 1) finalize_conflict

unfoldable pub finalize_retrieval_success :
    ℕ → String → String → ℕ → String → String → ℕ → ℕ → PipelineTx (Unit {0})
finalize_retrieval_success job worker token build path hash documents now =
    if path == "" || hash == "" then fail not_ready_without_artifact else do
      require_owned_job job worker token
      affected ←
          update_retrieval_build build (λ b. is_building b.status)
            (artifact_row path hash documents now)
      guard (nat_eq affected 1) finalize_conflict
      finalize_owned_job job worker token now

abbrev pub is_indexed_by : ℕ → AnalysisRevision → Bool
is_indexed_by build r = is_preparing r.status && nat_eq r.retrieval_build_id build

abbrev pub ready_revision_row : ℕ → AnalysisRevision → AnalysisRevision
ready_revision_row now r = record r {
  status = revision_ready;
  stage = stage_ready;
  ready_at = some now;
  version = r.version + 1;
  updated_at = now;
}

unfoldable pub finalize_retrieval_success_with_revision :
    ℕ → String → String → ℕ → String → String → String → ℕ → ℕ → PipelineTx (Unit {0})
finalize_retrieval_success_with_revision job worker token build revision path hash documents now =
    if path == "" || hash == "" then fail not_ready_without_artifact else do
      require_owned_job job worker token
      product ← read (revision_row revision) lineage
      guard (is_indexed_by build product) lineage
      row ← read (retrieval_build_row build) record_not_found
      guard
          (row.analysis_revision_id == revision
            && nat_eq row.code_index_build_id product.code_index_build_id
            && is_building row.status)
          lineage
      code ← read (code_build_row product.code_index_build_id) record_not_found
      guard
          (code.analysis_revision_id == revision
            && code.snapshot_id == product.snapshot_id
            && is_ready_build code.status)
          lineage
      published ←
          update_retrieval_build build (λ b. is_building b.status)
            (artifact_row path hash documents now)
      guard (nat_eq published 1) finalize_conflict
      advanced ← update_revision revision (is_indexed_by build) (ready_revision_row now)
      guard (nat_eq advanced 1) lineage
      finalize_owned_job job worker token now
