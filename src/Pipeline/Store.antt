-- ===== src/Pipeline/Store.antt =====
-- internal/analysispipeline/store.go: CreatePreparation and one round of RetryPreparation with what
-- it calls. `now` is the clock of the call; new UUIDs and the SHA-256 hashes that identify a build
-- are arguments.
use Prim.Native.String.{len, ◌++◌ as str_append}
use repolens.Base.{
  ℕ, suc, String, Bool, true, false, not, ◌&&◌, ◌||◌, Option, none, some, [], ◌∷◌, ◌++◌, nat_eq,
  nat_key, text_key, ◌==◌, if◌then◌else◌,
}
use repolens.Sql.Result.{ok, err, pure, fail, query, guard, ◌>>=◌, ◌>>◌}
use repolens.Sql.Read.{first_row}
use repolens.Jobs.Model.{JobType, materialize_snapshot, AnalysisJob, pending}
use repolens.Pipeline.Model.{
  AnalysisRevision, preparing, stage_materializing, RepositorySnapshot, materializing, PipelineTx,
  invalid_identity, duplicate_key, pipeline_job,
}

pub record PrepareSpec : Type 0 where
  pub repository_id : String
  pub source_ref : String
  pub commit_sha : String
  pub pipeline_version : String
  pub pipeline_fingerprint : String
  pub snapshot_base_path : String
  -- not read by CreatePreparation
  pub module_path : String

-- BuildContextHash() and BuildTagsHash() of the default build context, and RetrievalConfigHash of the production strategy.
pub record Hashes : Type 0 where
  pub build_context_hash : String
  pub build_tags_hash : String
  pub config_hash : String

-- A job as the pipeline inserts it: PENDING, with three attempts.
abbrev pub pipeline_new_job : ℕ → JobType → String → ℕ → ℕ → AnalysisJob
pipeline_new_job id kind resource generation now = record {
  id = id;
  job_type = kind;
  resource_id = resource;
  status = pending;
  execution_generation = generation;
  terminal_reason = none;
  attempt_count = 0;
  execution_started = false;
  max_attempts = 3;
  next_run_at = now;
  worker_id = none;
  claim_token = none;
  lease_until = none;
  cancel_requested = false;
  last_error_class = none;
  last_error_code = none;
  last_error_message = none;
  created_at = now;
  updated_at = now;
  finished_at = none;
}

unfoldable pub insert_new_job : AnalysisJob → Option AnalysisJob → PipelineTx (Unit {0})
insert_new_job j (some _) db = err duplicate_key
insert_new_job j none db =
    ok (tt, record db { jobs = db.jobs ++ j ∷ []; next_job_id = suc db.next_job_id })

-- createJobGorm; uq_job_resource refuses a second job of a resource.
unfoldable pub create_job_gorm : JobType → String → ℕ → ℕ → PipelineTx (Unit {0})
create_job_gorm kind resource generation now db =
    insert_new_job (pipeline_new_job db.next_job_id kind resource generation now)
      (pipeline_job kind resource db) db

-- filepath.Join(SnapshotBasePath, RepositoryID, snapshotID, "source") on clean elements.
abbrev join_source : String → String → String → String
join_source base repository snapshot =
    str_append base
      (str_append "/" (str_append repository (str_append "/" (str_append snapshot "/source"))))

abbrev pub new_revision : String → String → PrepareSpec → ℕ → AnalysisRevision
new_revision id snapshot spec now = record {
  id = id;
  repository_id = spec.repository_id;
  source_ref = spec.source_ref;
  commit_sha = spec.commit_sha;
  pipeline_version = spec.pipeline_version;
  pipeline_fingerprint = spec.pipeline_fingerprint;
  snapshot_id = snapshot;
  code_index_build_id = 0;
  retrieval_build_id = 0;
  status = preparing;
  stage = stage_materializing;
  error_code = "";
  error_message = "";
  execution_generation = 1;
  version = 1;
  created_at = now;
  updated_at = now;
  ready_at = none;
}

abbrev pub new_snapshot : String → String → PrepareSpec → ℕ → RepositorySnapshot
new_snapshot id revision spec now = record {
  id = id;
  repository_id = spec.repository_id;
  analysis_revision_id = revision;
  commit_sha = spec.commit_sha;
  requested_ref = spec.source_ref;
  materialized_path = join_source spec.snapshot_base_path spec.repository_id id;
  content_hash = "";
  file_count = 0;
  total_bytes = 0;
  status = materializing;
  error_code = "";
  created_at = now;
  ready_at = none;
}

-- The primary key and uq_revision_identity.
abbrev pub same_revision_identity : AnalysisRevision → AnalysisRevision → Bool
same_revision_identity r s =
    r.id == s.id
    || r.repository_id == s.repository_id
      && r.commit_sha == s.commit_sha
      && r.pipeline_fingerprint == s.pipeline_fingerprint

-- The primary key and uq_snapshot_repo_commit_revision.
abbrev pub same_snapshot_identity : RepositorySnapshot → RepositorySnapshot → Bool
same_snapshot_identity r s =
    r.id == s.id
    || r.repository_id == s.repository_id
      && r.commit_sha == s.commit_sha
      && r.analysis_revision_id == s.analysis_revision_id

abbrev pub is_absent : {A : Type 0} → Option A → Bool
is_absent none = true
is_absent (some _) = false

pub insert_revision : AnalysisRevision → PipelineTx (Unit {0})
insert_revision r db = ok (tt, record db { revisions = db.revisions ++ r ∷ [] })

pub insert_snapshot : RepositorySnapshot → PipelineTx (Unit {0})
insert_snapshot s db = ok (tt, record db { snapshots = db.snapshots ++ s ∷ [] })

unfoldable pub create_preparation : String → String → PrepareSpec → ℕ → PipelineTx AnalysisRevision
create_preparation revision snapshot spec now =
    let r = new_revision revision snapshot spec now in
    let s = new_snapshot snapshot revision spec now in
    if spec.repository_id == ""
      || not (nat_eq (len spec.commit_sha) 40)
      || spec.pipeline_fingerprint == ""
    then fail invalid_identity
    else do
      same ← query (λ db. first_row (same_revision_identity r) db.revisions)
      guard (is_absent same) duplicate_key
      insert_revision r
      taken ← query (λ db. first_row (same_snapshot_identity s) db.snapshots)
      guard (is_absent taken) duplicate_key
      insert_snapshot s
      create_job_gorm materialize_snapshot snapshot 1 now
      pure r
