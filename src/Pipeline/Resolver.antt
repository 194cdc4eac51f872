-- ===== src/Pipeline/Resolver.antt =====
-- internal/analysispipeline/resolver.go, ResolveReadyLineage and ResolveLegacyReady, and
-- ValidateLineage of internal/codeintel/store/store.go. The reads are statements of their own, here
-- over one state of the tables; faults of the driver are left out.
pub mod Chain
use repolens.Base.{ℕ, String, Bool, not, ◌&&◌, ◌||◌, nat_eq, text_key, ◌==◌, if◌then◌else◌, nat_key}
use repolens.Sql.Result.{pure, guard, ◌>>=◌, ◌>>◌}
use repolens.Sql.Read.{read}
use repolens.Pipeline.Model.{
  AnalysisRevision, RepositorySnapshot, CodeIndexBuild, RetrievalBuild, ResolvedLineage, PipelineTx,
  revision_not_found, snapshot_not_found, snapshot_not_ready, revision_not_ready, build_not_ready,
  build_lineage_mismatch, is_ready_revision, is_ready_stage, is_ready_snapshot, is_ready_build,
  revision_row, snapshot_row, code_build_row, retrieval_build_row,
}

unfoldable pub validate_code_build : String → ℕ → PipelineTx (Unit {0})
validate_code_build snapshot code_build = if nat_eq code_build 0 then pure tt else do
  build ← read (code_build_row code_build) build_lineage_mismatch
  guard (build.snapshot_id == snapshot) build_lineage_mismatch

unfoldable pub validate_retrieval_build : ℕ → ℕ → PipelineTx (Unit {0})
validate_retrieval_build code_build retrieval_build =
    if nat_eq retrieval_build 0 then pure tt else do
      build ← read (retrieval_build_row retrieval_build) build_lineage_mismatch
      guard (nat_eq code_build 0 || nat_eq build.code_index_build_id code_build)
          build_lineage_mismatch

unfoldable pub validate_lineage : String → String → ℕ → ℕ → PipelineTx (Unit {0})
validate_lineage repository snapshot code_build retrieval_build = do
  row ← read (snapshot_row snapshot) build_lineage_mismatch
  guard (row.repository_id == repository && is_ready_snapshot row.status) build_lineage_mismatch
  validate_code_build snapshot code_build
  validate_retrieval_build code_build retrieval_build

abbrev pub is_incomplete : AnalysisRevision → Bool
is_incomplete r =
    r.id == ""
    || r.repository_id == ""
    || r.commit_sha == ""
    || r.snapshot_id == ""
    || nat_eq r.code_index_build_id 0
    || nat_eq r.retrieval_build_id 0
    || r.pipeline_version == ""
    || r.pipeline_fingerprint == ""

abbrev pub snapshot_matches : AnalysisRevision → RepositorySnapshot → Bool
snapshot_matches r s =
    s.repository_id == r.repository_id
    && s.analysis_revision_id == r.id
    && s.commit_sha == r.commit_sha

abbrev pub lineage_of :
    AnalysisRevision → RepositorySnapshot → CodeIndexBuild → RetrievalBuild → ResolvedLineage
lineage_of r s c b = record {
  repository_id = r.repository_id;
  revision_id = r.id;
  commit_sha = r.commit_sha;
  snapshot_id = s.id;
  code_index_build_id = c.id;
  retrieval_build_id = b.id;
  pipeline_version = r.pipeline_version;
  pipeline_fingerprint = r.pipeline_fingerprint;
}

unfoldable pub resolve_ready_lineage : String → PipelineTx ResolvedLineage
resolve_ready_lineage id = do
  r ← read (revision_row id) revision_not_found
  guard (is_ready_revision r.status && is_ready_stage r.stage) revision_not_ready
  guard (not (is_incomplete r)) build_lineage_mismatch
  s ← read (snapshot_row r.snapshot_id) snapshot_not_found
  guard (is_ready_snapshot s.status) snapshot_not_ready
  guard (snapshot_matches r s) build_lineage_mismatch
  c ← read (code_build_row r.code_index_build_id) build_not_ready
  guard (c.snapshot_id == s.id && c.analysis_revision_id == r.id) build_lineage_mismatch
  guard (is_ready_build c.status) build_not_ready
  b ← read (retrieval_build_row r.retrieval_build_id) build_not_ready
  guard (nat_eq b.code_index_build_id c.id && b.analysis_revision_id == r.id) build_lineage_mismatch
  guard (is_ready_build b.status) build_not_ready
  validate_lineage r.repository_id s.id c.id b.id
  pure (lineage_of r s c b)

-- The lineage of a diagnosis that names its builds itself, without a revision.
unfoldable pub resolve_legacy_ready : String → String → ℕ → ℕ → PipelineTx ResolvedLineage
resolve_legacy_ready repository snapshot code_build retrieval_build = do
  guard
      (not (repository == "" || snapshot == "" || nat_eq code_build 0 || nat_eq retrieval_build 0))
      build_lineage_mismatch
  s ← read (snapshot_row snapshot) snapshot_not_found
  guard (is_ready_snapshot s.status) snapshot_not_ready
  guard (s.repository_id == repository) build_lineage_mismatch
  validate_lineage repository snapshot code_build retrieval_build
  c ← read (code_build_row code_build) build_not_ready
  guard (is_ready_build c.status) build_not_ready
  b ← read (retrieval_build_row retrieval_build) build_not_ready
  guard (is_ready_build b.status) build_not_ready
  pure (record {
    repository_id = repository;
    revision_id = "";
    commit_sha = s.commit_sha;
    snapshot_id = s.id;
    code_index_build_id = c.id;
    retrieval_build_id = b.id;
    pipeline_version = "";
    pipeline_fingerprint = "";
  })
