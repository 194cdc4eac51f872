-- ===== src/Pipeline/CodeIndex.antt =====
-- internal/codeintel/store/store.go: the finalizers of a code index, with and without a revision, and
-- the handing on of legacy rows, which have no revision, to the next stage.
pub mod Next
pub mod HandedOn
use repolens.Base.{
  false, ℕ, ◌+◌, String, Bool, true, false, not, ◌&&◌, ◌||◌, Option, none, some, nat_eq, nat_key,
  text_key, ◌==◌, if◌then◌else◌, ltb,
}
use repolens.Sql.Result.{pure, fail, query, guard, ◌>>=◌, ◌>>◌}
use repolens.Sql.Read.{read}
use repolens.Jobs.Model.{
  JobType, materialize_snapshot, build_code_index, build_retrieval, AnalysisJob,
}
use repolens.Jobs.Db.{same_type}
use repolens.Pipeline.Model.{
  AnalysisRevision, stage_building_search, CodeIndexBuild, RetrievalBuild, BuildStatus,
  build_created, building, PipelineTx, lineage, record_not_found, ownership_lost, finalize_conflict,
  not_ready_without_content, not_claimable, duplicate_key, legacy_not_building, is_preparing,
  is_building, is_materializing, revision_row, code_build_row, retrieval_build_row, job_by_id,
  pipeline_job, update_revision, update_snapshot, update_code_build, update_retrieval_build,
  decimal,
}
use repolens.Pipeline.Store.{Hashes, is_absent}
use repolens.Pipeline.Builds.{
  current_code_build, current_retrieval_build, new_code_build, new_retrieval_build,
  insert_code_build, insert_retrieval_build,
}
use repolens.Pipeline.Symbols.{AnalysisResult, save_analysis_result}
use repolens.Pipeline.Finalize.{
  owns_job, require_owned_job, finalize_owned_job, Materialized, is_inexact, materialized_row,
  ensure_job,
}

unfoldable pub finalize_code_index_success :
    ℕ → String → String → ℕ → AnalysisResult → ℕ → PipelineTx (Unit {0})
finalize_code_index_success job worker token build res now = do
  require_owned_job job worker token
  save_analysis_result build res now
  finalize_owned_job job worker token now

-- WHERE id = ? AND status = 'PREPARING' AND code_index_build_id = ?
abbrev pub is_built_by : ℕ → AnalysisRevision → Bool
is_built_by build r = is_preparing r.status && nat_eq r.code_index_build_id build

-- A new retrieval build of the production strategy; uq_retrieval_build refuses a second one.
unfoldable pub create_retrieval_build : Hashes → String → ℕ → ℕ → PipelineTx ℕ
create_retrieval_build h revision code_build now = do
  same ← query (current_retrieval_build h code_build)
  guard (is_absent same) duplicate_key
  id ← query (λ db. db.next_retrieval_build_id)
  insert_retrieval_build (new_retrieval_build id h revision code_build now)

-- The build that the revision names, which it takes over if it belongs to none.
unfoldable pub take_retrieval_build : String → RetrievalBuild → PipelineTx ℕ
take_retrieval_build revision b =
    if b.analysis_revision_id == ""
    then update_retrieval_build b.id (λ _. true) (λ x. record x { analysis_revision_id = revision })
    else pure 0

unfoldable pub check_retrieval_build : String → ℕ → ℕ → PipelineTx ℕ
check_retrieval_build revision code_build id = do
  b ← read (retrieval_build_row id) record_not_found
  guard
      (nat_eq b.code_index_build_id code_build
        && (b.analysis_revision_id == "" || b.analysis_revision_id == revision))
      lineage
  take_retrieval_build revision b
  pure id

unfoldable pub next_retrieval_build : Hashes → String → ℕ → ℕ → ℕ → PipelineTx ℕ
next_retrieval_build h revision code_build now there =
    if nat_eq there 0
    then create_retrieval_build h revision code_build now
    else check_retrieval_build revision code_build there

abbrev pub search_stage_row : ℕ → ℕ → AnalysisRevision → AnalysisRevision
search_stage_row build now r = record r {
  stage = stage_building_search;
  retrieval_build_id = build;
  version = r.version + 1;
  updated_at = now;
}

unfoldable pub finalize_code_index_success_with_revision :
    Hashes → ℕ → String → String → ℕ → String → AnalysisResult → ℕ → PipelineTx (Unit {0})
finalize_code_index_success_with_revision h job worker token build revision res now = do
  require_owned_job job worker token
  product ← read (revision_row revision) lineage
  guard (is_built_by build product) lineage
  code ← read (code_build_row build) record_not_found
  guard
      (code.analysis_revision_id == revision
        && code.snapshot_id == product.snapshot_id
        && is_building code.status)
      lineage
  save_analysis_result build res now
  id ← next_retrieval_build h revision build now product.retrieval_build_id
  waiting ← query (pipeline_job build_retrieval (decimal id))
  ensure_job build_retrieval (decimal id) product.execution_generation now waiting
  advanced ← update_revision revision (is_built_by build) (search_stage_row id now)
  guard (nat_eq advanced 1) lineage
  finalize_owned_job job worker token now

-- The owner's job must be the job of the resource.
unfoldable pub require_owned_pipeline_job :
    ℕ → String → String → JobType → String → PipelineTx AnalysisJob
require_owned_pipeline_job id worker token kind resource = do
  j ← read (job_by_id id) ownership_lost
  guard (same_type j.job_type kind && j.resource_id == resource && owns_job worker token j)
      ownership_lost
  pure j

-- ensureAnalysisJobTx: at least generation 1.
abbrev pub at_least_one : ℕ → ℕ
at_least_one generation = if ltb generation 1 then 1 else generation

unfoldable pub ensure_analysis_job : JobType → String → ℕ → ℕ → PipelineTx (Unit {0})
ensure_analysis_job kind resource generation now = do
  existing ← query (pipeline_job kind resource)
  ensure_job kind resource (at_least_one generation) now existing

-- createBuildTx, for a build that belongs to no revision.
unfoldable pub create_build : Hashes → String → String → ℕ → ℕ → PipelineTx ℕ
create_build h snapshot module_path generation now = do
  same ← query (current_code_build h snapshot)
  guard (is_absent same) duplicate_key
  id ← query (λ db. db.next_code_build_id)
  insert_code_build (new_code_build id h "" snapshot module_path now)
  ensure_analysis_job build_code_index (decimal id) generation now
  pure id

unfoldable pub get_or_create_build_with :
    Hashes → String → String → ℕ → ℕ → Option CodeIndexBuild → PipelineTx ℕ
get_or_create_build_with h snapshot module_path generation now none =
    create_build h snapshot module_path generation now
get_or_create_build_with h snapshot module_path generation now (some b) = do
  ensure_analysis_job build_code_index (decimal b.id) generation now
  pure b.id

-- getOrCreateBuildTx: the id of the build.
unfoldable pub get_or_create_build : Hashes → String → String → ℕ → ℕ → PipelineTx ℕ
get_or_create_build h snapshot module_path generation now = do
  there ← query (current_code_build h snapshot)
  get_or_create_build_with h snapshot module_path generation now there

-- createRetrievalBuildTx of the production strategy.
unfoldable pub create_legacy_retrieval_build : Hashes → ℕ → ℕ → ℕ → PipelineTx ℕ
create_legacy_retrieval_build h code_build generation now = do
  id ← create_retrieval_build h "" code_build now
  ensure_analysis_job build_retrieval (decimal id) generation now
  pure id

unfoldable pub get_or_create_retrieval_build_with :
    Hashes → ℕ → ℕ → ℕ → Option RetrievalBuild → PipelineTx ℕ
get_or_create_retrieval_build_with h code_build generation now none =
    create_legacy_retrieval_build h code_build generation now
get_or_create_retrieval_build_with h code_build generation now (some b) = do
  ensure_analysis_job build_retrieval (decimal b.id) generation now
  pure b.id

-- getOrCreateRetrievalBuildTx: the id of the build.
unfoldable pub get_or_create_retrieval_build : Hashes → ℕ → ℕ → ℕ → PipelineTx ℕ
get_or_create_retrieval_build h code_build generation now = do
  there ← query (current_retrieval_build h code_build)
  get_or_create_retrieval_build_with h code_build generation now there

-- FinalizeLegacySnapshotSuccessWithCodeIndexHandoff
unfoldable pub finalize_legacy_snapshot_success :
    Hashes → ℕ → String → String → String → Materialized → String → ℕ → PipelineTx (Unit {0})
finalize_legacy_snapshot_success h job worker token snapshot m module_path now =
    if is_inexact m then fail not_ready_without_content else do
      owned ← require_owned_pipeline_job job worker token materialize_snapshot snapshot
      published ←
          update_snapshot snapshot (λ s. is_materializing s.status && s.analysis_revision_id == "")
            (materialized_row m now)
      guard (nat_eq published 1) finalize_conflict
      get_or_create_build h snapshot module_path owned.execution_generation now
      finalize_owned_job job worker token now

-- FinalizeLegacyCodeIndexSuccessWithRetrievalHandoff
unfoldable pub finalize_legacy_code_index_success :
    Hashes → ℕ → String → String → ℕ → AnalysisResult → ℕ → PipelineTx (Unit {0})
finalize_legacy_code_index_success h job worker token build res now = do
  owned ← require_owned_pipeline_job job worker token build_code_index (decimal build)
  b ← read (code_build_row build) legacy_not_building
  guard (b.analysis_revision_id == "" && is_building b.status) legacy_not_building
  save_analysis_result build res now
  get_or_create_retrieval_build h build owned.execution_generation now
  finalize_owned_job job worker token now

-- status IN ('CREATED', 'BUILDING')
abbrev pub is_startable_build : BuildStatus → Bool
is_startable_build build_created = true
is_startable_build building = true
is_startable_build _ = false

abbrev pub is_building_code : Option CodeIndexBuild → Bool
is_building_code none = false
is_building_code (some b) = is_building b.status

abbrev pub is_building_retrieval : Option RetrievalBuild → Bool
is_building_retrieval none = false
is_building_retrieval (some b) = is_building b.status

unfoldable pub mark_build_building : ℕ → PipelineTx (Unit {0})
mark_build_building id = do
  affected ←
      update_code_build id (λ b. is_startable_build b.status) (λ b. record b { status = building })
  row ← query (code_build_row id)
  guard (not (nat_eq affected 0) || is_building_code row) not_claimable

unfoldable pub mark_retrieval_building : ℕ → PipelineTx (Unit {0})
mark_retrieval_building id = do
  affected ←
      update_retrieval_build id (λ b. is_startable_build b.status)
        (λ b. record b { status = building })
  row ← query (retrieval_build_row id)
  guard (not (nat_eq affected 0) || is_building_retrieval row) not_claimable
