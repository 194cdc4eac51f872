-- ===== src/Pipeline/Builds.antt =====
-- internal/analysispipeline/store.go, what a retry resets, adopts or creates: resetJobTx,
-- resetCodeBuildTx, resetRetrievalBuildTx, repositoryModulePathTx, ensureCodeIndexBuildTx and
-- ensureRetrievalBuildTx.
pub mod Reset
pub mod Steps
use repolens.Base.{
  ℕ, suc, String, Bool, true, false, ◌&&◌, ◌||◌, Option, none, some, [], ◌∷◌, ◌++◌, nat_eq, nat_key,
  text_key, ◌==◌, if◌then◌else◌,
}
use repolens.Sql.Result.{ok, pure, query, guard, ◌>>=◌, ◌>>◌}
use repolens.Sql.Read.{first_row}
use repolens.Jobs.Model.{JobType, AnalysisJob, pending}
use repolens.Pipeline.Model.{
  Repository, CodeIndexBuild, AnalysisQuality, RetrievalBuild, BuildVersions, RetrievalVersions,
  build_created, PipelineDb, PipelineTx, lineage, update_code_build, update_retrieval_build,
  update_job_of,
}
use repolens.Pipeline.Store.{Hashes, create_job_gorm}

abbrev pub restart_job_row : ℕ → ℕ → AnalysisJob → AnalysisJob
restart_job_row generation now j = record j {
  status = pending;
  execution_generation = generation;
  attempt_count = 0;
  execution_started = false;
  next_run_at = now;
  worker_id = none;
  claim_token = none;
  lease_until = none;
  cancel_requested = false;
  terminal_reason = none;
  last_error_class = none;
  last_error_code = none;
  last_error_message = none;
  updated_at = now;
  finished_at = none;
}

unfoldable pub reset_job : JobType → String → ℕ → ℕ → PipelineTx (Unit {0})
reset_job kind resource generation now = do
  affected ← update_job_of kind resource (λ _. true) (restart_job_row generation now)
  if nat_eq affected 0 then create_job_gorm kind resource generation now else pure tt

unfoldable pub reset_code_build : ℕ → PipelineTx ℕ
reset_code_build id =
    update_code_build id (λ _. true)
      (λ b. record b { status = build_created; error_code = ""; ready_at = none })

unfoldable pub reset_retrieval_build : ℕ → PipelineTx ℕ
reset_retrieval_build id =
    update_retrieval_build id (λ _. true)
      (λ b. record b {
        status = build_created;
        error_code = "";
        artifact_path = "";
        artifact_hash = "";
        ready_at = none;
      })

abbrev pub name_or_id : String → Option Repository → String
name_or_id id none = id
name_or_id id (some r) = if r.name == "" then id else r.name

-- A missing row leaves the scanned text empty.
abbrev pub repository_module_path : String → PipelineDb → String
repository_module_path id db =
    name_or_id id (first_row (λ (r : Repository). r.id == id) db.repositories)

abbrev pub current_versions : Hashes → BuildVersions
current_versions h = record {
  parser_version = "v2.2.2";
  analyzer_version = "v2.2.4";
  symbol_schema_version = "v2.1.2";
  build_context_hash = h.build_context_hash;
}

abbrev pub production_versions : Hashes → RetrievalVersions
production_versions h = record {
  strategy = "BM25";
  retrieval_version = "v2.2.1";
  tokenizer_version = "v2.1.0";
  config_hash = h.config_hash;
}

abbrev pub same_versions : BuildVersions → BuildVersions → Bool
same_versions v w =
    v.parser_version == w.parser_version
    && v.analyzer_version == w.analyzer_version
    && v.symbol_schema_version == w.symbol_schema_version
    && v.build_context_hash == w.build_context_hash

abbrev pub same_retrieval_versions : RetrievalVersions → RetrievalVersions → Bool
same_retrieval_versions v w =
    v.strategy == w.strategy
    && v.retrieval_version == w.retrieval_version
    && v.tokenizer_version == w.tokenizer_version
    && v.config_hash == w.config_hash

-- The defaults of the columns, before an analysis.
abbrev pub no_analysis : AnalysisQuality
no_analysis = record {
  files_total = 0;
  files_parsed = 0;
  files_failed = 0;
  packages_total = 0;
  packages_typechecked = 0;
  packages_failed = 0;
  semantic_relations_count = 0;
  syntactic_relations_count = 0;
  heuristic_relations_count = 0;
  unresolved_relations_count = 0;
  symlinks_skipped = 0;
  warnings = [];
}

abbrev pub new_code_build : ℕ → Hashes → String → String → String → ℕ → CodeIndexBuild
new_code_build id h revision snapshot module_path now = record {
  id = id;
  snapshot_id = snapshot;
  analysis_revision_id = revision;
  versions = current_versions h;
  module_path = module_path;
  build_tags_hash = h.build_tags_hash;
  quality = no_analysis;
  symbol_count = 0;
  status = build_created;
  error_code = "";
  created_at = now;
  ready_at = none;
}

abbrev pub new_retrieval_build : ℕ → Hashes → String → ℕ → ℕ → RetrievalBuild
new_retrieval_build id h revision code_build now = record {
  id = id;
  code_index_build_id = code_build;
  analysis_revision_id = revision;
  versions = production_versions h;
  artifact_path = "";
  artifact_hash = "";
  document_count = 0;
  status = build_created;
  error_code = "";
  created_at = now;
  ready_at = none;
}

-- The row of uq_code_index_build, and of uq_retrieval_build, of the versions in use.
abbrev pub current_code_build : Hashes → String → PipelineDb → Option CodeIndexBuild
current_code_build h snapshot db =
    first_row (λ b. b.snapshot_id == snapshot && same_versions b.versions (current_versions h))
      db.code_builds

abbrev pub current_retrieval_build : Hashes → ℕ → PipelineDb → Option RetrievalBuild
current_retrieval_build h code_build db =
    first_row
      (λ b.
        nat_eq b.code_index_build_id code_build
        && same_retrieval_versions b.versions (production_versions h))
      db.retrieval_builds

unfoldable pub insert_code_build : CodeIndexBuild → PipelineTx ℕ
insert_code_build b db = ok (
  b.id,
  record db {
    code_builds = db.code_builds ++ b ∷ [];
    next_code_build_id = suc db.next_code_build_id;
  },
)

unfoldable pub insert_retrieval_build : RetrievalBuild → PipelineTx ℕ
insert_retrieval_build b db = ok (
  b.id,
  record db {
    retrieval_builds = db.retrieval_builds ++ b ∷ [];
    next_retrieval_build_id = suc db.next_retrieval_build_id;
  },
)

-- A build that is there is adopted if it belongs to no revision, and refused to another's.
unfoldable pub own_code_build : String → CodeIndexBuild → PipelineTx ℕ
own_code_build revision b =
    if b.analysis_revision_id == ""
    then update_code_build b.id (λ _. true) (λ c. record c { analysis_revision_id = revision })
    else pure 0

unfoldable pub adopt_code_build : String → CodeIndexBuild → PipelineTx ℕ
adopt_code_build revision b = do
  guard (b.analysis_revision_id == "" || b.analysis_revision_id == revision) lineage
  own_code_build revision b
  pure b.id

unfoldable pub own_retrieval_build : String → RetrievalBuild → PipelineTx ℕ
own_retrieval_build revision b =
    if b.analysis_revision_id == ""
    then update_retrieval_build b.id (λ _. true) (λ c. record c { analysis_revision_id = revision })
    else pure 0

unfoldable pub adopt_retrieval_build : String → RetrievalBuild → PipelineTx ℕ
adopt_retrieval_build revision b = do
  guard (b.analysis_revision_id == "" || b.analysis_revision_id == revision) lineage
  own_retrieval_build revision b
  pure b.id

unfoldable pub ensure_code_build_with :
    Hashes → String → String → String → ℕ → Option CodeIndexBuild → PipelineTx ℕ
ensure_code_build_with h revision snapshot module_path now (some b) = adopt_code_build revision b
ensure_code_build_with h revision snapshot module_path now none = do
  id ← query (λ db. db.next_code_build_id)
  insert_code_build (new_code_build id h revision snapshot module_path now)

-- ensureCodeIndexBuildTx: the id of the build.
unfoldable pub ensure_code_build : Hashes → String → String → String → ℕ → PipelineTx ℕ
unfolding ensure_code_build_with
ensure_code_build h revision snapshot module_path now = do
  there ← query (current_code_build h snapshot)
  ensure_code_build_with h revision snapshot module_path now there

unfoldable pub ensure_retrieval_build_with :
    Hashes → String → ℕ → ℕ → Option RetrievalBuild → PipelineTx ℕ
ensure_retrieval_build_with h revision code_build now (some b) = adopt_retrieval_build revision b
ensure_retrieval_build_with h revision code_build now none = do
  id ← query (λ db. db.next_retrieval_build_id)
  insert_retrieval_build (new_retrieval_build id h revision code_build now)

-- ensureRetrievalBuildTx: the id of the build.
unfoldable pub ensure_retrieval_build : Hashes → String → ℕ → ℕ → PipelineTx ℕ
unfolding ensure_retrieval_build_with
ensure_retrieval_build h revision code_build now = do
  there ← query (current_retrieval_build h code_build)
  ensure_retrieval_build_with h revision code_build now there
