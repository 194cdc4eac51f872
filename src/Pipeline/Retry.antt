-- ===== src/Pipeline/Retry.antt =====
-- internal/analysispipeline/store.go, retryPreparationOnce: the first stage that is not READY is
-- started again, in a new execution generation. The returned value is the row as the code keeps it
-- in memory.
pub mod Unfinished
pub mod Later
pub mod Restart
pub mod Published
pub mod Due
use repolens.Base.{
  ℕ, ◌+◌, String, Bool, true, ◌&&◌, none, some, nat_eq, nat_key, text_key, ◌==◌, if◌then◌else◌,
}
use repolens.Sql.Result.{pure, fail, query, guard, ◌>>=◌, ◌>>◌}
use repolens.Sql.Read.{read}
use repolens.Jobs.Model.{materialize_snapshot, build_code_index, build_retrieval}
use repolens.Pipeline.Model.{
  AnalysisRevision, RevisionStatus, preparing, revision_ready, revision_failed, stage_materializing,
  stage_building_code, stage_building_search, stage_ready, RepositorySnapshot, materializing,
  CodeIndexBuild, RetrievalBuild, PipelineTx, revision_not_found, retry_conflict, invalid_state,
  lineage, record_not_found, is_failed_revision, is_ready_snapshot, is_ready_build, revision_row,
  snapshot_row, code_build_row, retrieval_build_row, update_revision, update_snapshot, decimal,
}
use repolens.Pipeline.Store.{Hashes}
use repolens.Pipeline.Builds.{
  reset_job, reset_code_build, reset_retrieval_build, repository_module_path, ensure_code_build,
  ensure_retrieval_build,
}

abbrev pub restart_revision_row : ℕ → AnalysisRevision → AnalysisRevision
restart_revision_row now r = record r {
  status = preparing;
  stage = stage_materializing;
  error_code = "";
  error_message = "";
  ready_at = none;
  execution_generation = r.execution_generation + 1;
  version = r.version + 1;
  updated_at = now;
}

abbrev pub has_generation : AnalysisRevision → AnalysisRevision → Bool
has_generation value r =
    is_failed_revision r.status
    && nat_eq r.version value.version
    && nat_eq r.execution_generation value.execution_generation

unfoldable pub refuse_unless_failed : RevisionStatus → PipelineTx (Unit {0})
refuse_unless_failed revision_failed = pure tt
refuse_unless_failed preparing = fail retry_conflict
refuse_unless_failed revision_ready = fail invalid_state

abbrev pub owns_snapshot : AnalysisRevision → RepositorySnapshot → Bool
owns_snapshot value s =
    s.analysis_revision_id == value.id
    && s.repository_id == value.repository_id
    && s.commit_sha == value.commit_sha

abbrev pub owns_code_build : AnalysisRevision → CodeIndexBuild → Bool
owns_code_build value b = b.snapshot_id == value.snapshot_id && b.analysis_revision_id == value.id

abbrev pub owns_retrieval_build : AnalysisRevision → RetrievalBuild → Bool
owns_retrieval_build value b =
    nat_eq b.code_index_build_id value.code_index_build_id && b.analysis_revision_id == value.id

-- The UPDATE of a stage, whose condition is the id alone.
abbrev pub set_revision : AnalysisRevision → (AnalysisRevision → AnalysisRevision) → PipelineTx ℕ
set_revision value f = update_revision value.id (λ _. true) f

-- A later build of the revision, if it has one.
unfoldable pub reset_code_build_of : ℕ → PipelineTx ℕ
reset_code_build_of id = if nat_eq id 0 then pure 0 else reset_code_build id

unfoldable pub reset_retrieval_build_of : ℕ → PipelineTx ℕ
reset_retrieval_build_of id = if nat_eq id 0 then pure 0 else reset_retrieval_build id

unfoldable pub restart_snapshot : AnalysisRevision → ℕ → PipelineTx AnalysisRevision
restart_snapshot value now = do
  update_snapshot value.snapshot_id (λ _. true)
      (λ s. record s { status = materializing; error_code = ""; ready_at = none })
  reset_code_build_of value.code_index_build_id
  reset_retrieval_build_of value.retrieval_build_id
  reset_job materialize_snapshot value.snapshot_id value.execution_generation now
  pure value

abbrev pub at_code_index : ℕ → ℕ → AnalysisRevision → AnalysisRevision
at_code_index build now r = record r {
  stage = stage_building_code;
  code_index_build_id = build;
  updated_at = now;
}

unfoldable pub start_code_index : Hashes → AnalysisRevision → ℕ → PipelineTx AnalysisRevision
start_code_index h value now = do
  path ← query (repository_module_path value.repository_id)
  build ← ensure_code_build h value.id value.snapshot_id path now
  set_revision value (at_code_index build now)
  reset_job build_code_index (decimal build) value.execution_generation now
  pure (record value { stage = stage_building_code; code_index_build_id = build })

unfoldable pub restart_code_index : AnalysisRevision → ℕ → PipelineTx AnalysisRevision
restart_code_index value now = do
  reset_code_build value.code_index_build_id
  set_revision value (λ r. record r { stage = stage_building_code; updated_at = now })
  reset_job build_code_index (decimal value.code_index_build_id) value.execution_generation now
  pure (record value { stage = stage_building_code })

abbrev pub at_retrieval : ℕ → ℕ → AnalysisRevision → AnalysisRevision
at_retrieval build now r = record r {
  stage = stage_building_search;
  retrieval_build_id = build;
  updated_at = now;
}

unfoldable pub start_retrieval : Hashes → AnalysisRevision → ℕ → PipelineTx AnalysisRevision
start_retrieval h value now = do
  build ← ensure_retrieval_build h value.id value.code_index_build_id now
  set_revision value (at_retrieval build now)
  reset_job build_retrieval (decimal build) value.execution_generation now
  pure (record value { stage = stage_building_search; retrieval_build_id = build })

unfoldable pub restart_retrieval : AnalysisRevision → ℕ → PipelineTx AnalysisRevision
restart_retrieval value now = do
  reset_retrieval_build value.retrieval_build_id
  set_revision value (λ r. record r { stage = stage_building_search; updated_at = now })
  reset_job build_retrieval (decimal value.retrieval_build_id) value.execution_generation now
  pure (record value { stage = stage_building_search })

unfoldable pub publish_revision : AnalysisRevision → ℕ → PipelineTx AnalysisRevision
publish_revision value now = do
  set_revision value (λ r. record r {
    status = revision_ready;
    stage = stage_ready;
    ready_at = some now;
    updated_at = now;
  })
  pure (record value { status = revision_ready; stage = stage_ready; ready_at = some now })

unfoldable pub retry_retrieval : Hashes → AnalysisRevision → ℕ → PipelineTx AnalysisRevision
retry_retrieval h value now =
    if nat_eq value.retrieval_build_id 0 then start_retrieval h value now else do
      build ← read (retrieval_build_row value.retrieval_build_id) record_not_found
      guard (owns_retrieval_build value build) lineage
      if is_ready_build build.status
          then publish_revision value now
          else restart_retrieval value now

unfoldable pub retry_code_index : Hashes → AnalysisRevision → ℕ → PipelineTx AnalysisRevision
retry_code_index h value now =
    if nat_eq value.code_index_build_id 0 then start_code_index h value now else do
      build ← read (code_build_row value.code_index_build_id) record_not_found
      guard (owns_code_build value build) lineage
      if is_ready_build build.status
          then retry_retrieval h value now
          else restart_code_index value now

unfoldable pub retry_preparation_once : Hashes → String → ℕ → PipelineTx AnalysisRevision
retry_preparation_once h id now = do
  failed ← read (revision_row id) revision_not_found
  refuse_unless_failed failed.status
  affected ← update_revision id (has_generation failed) (restart_revision_row now)
  guard (nat_eq affected 1) retry_conflict
  snapshot ← read (snapshot_row failed.snapshot_id) record_not_found
  guard (owns_snapshot failed snapshot) lineage
  if is_ready_snapshot snapshot.status
      then retry_code_index h (restart_revision_row now failed) now
      else restart_snapshot (restart_revision_row now failed) now
