-- ===== src/Tests/Pipeline.antt =====
-- A revision with all three rows: FAILED before a retry, or waiting for its last finalizer.
use repolens.Base.{arith, ◌↔◌, ◌≡◌, refl, true, false, none, some, List, [], ◌∷◌}
use repolens.Jobs.Db.{Db, key_of, job_key}
use repolens.Sql.Result.{ok, ◌>>=◌}
use repolens.Sql.Read.{read}
use repolens.Sql.Table.{find, update}
use repolens.Jobs.Model.{AnalysisJob, build_code_index, build_retrieval, running, JobStatus}
use repolens.Pipeline.Model.{
  AnalysisRevision, RevisionStatus, preparing, revision_ready, revision_failed, Stage,
  stage_building_search, stage_ready, stage_building_code, RepositorySnapshot, snapshot_ready,
  CodeIndexBuild, RetrievalBuild, BuildStatus, build_ready, building, build_failed, build_created,
  ResolvedLineage, PipelineDb, update_revision, decimal, update_job_of, update_code_build,
  update_retrieval_build, update_pipeline_job,
}
use repolens.Pipeline.Store.{Hashes, pipeline_new_job, create_job_gorm, insert_new_job}
use repolens.Pipeline.Builds.{
  no_analysis, current_versions, production_versions, reset_job, reset_code_build,
}
use repolens.Pipeline.Retry.{
  refuse_unless_failed, retry_preparation_once, retry_code_index, retry_retrieval, publish_revision,
  restart_code_index,
}
use repolens.Pipeline.Retry.Restart.{Restarted, retry_restarts_first_unfinished}
use repolens.Pipeline.Retry.Due.{retried_stage_is_served}
use repolens.Tests.Data.{db_with, build_job}
use repolens.Jobs.Claim.{claim_jobs}
use repolens.Pipeline.Retry.Published.{retried_revision_is_resolved}
use repolens.Pipeline.Resolver.{lineage_of, resolve_ready_lineage}
use repolens.Pipeline.Resolver.Chain.{IsResolved, resolve_ready_lineage_iff}
use repolens.Pipeline.Finalize.{
  finalize_retrieval_success_with_revision, require_owned_job, finalize_owned_job, artifact_row,
  ready_revision_row,
}
use repolens.Pipeline.Finalize.Published.{IsPublished, finalized_revision_is_resolved}

abbrev pub two_hashes : Hashes
two_hashes = record { build_context_hash = "c0"; build_tags_hash = "t0"; config_hash = "f0" }

abbrev pub a_revision : RevisionStatus → Stage → AnalysisRevision
a_revision status stage = record {
  id = "rev";
  repository_id = "repo";
  source_ref = "main";
  commit_sha = "abc";
  pipeline_version = "v2";
  pipeline_fingerprint = "fp";
  snapshot_id = "snap";
  code_index_build_id = 7;
  retrieval_build_id = 12;
  status = status;
  stage = stage;
  error_code = "E";
  error_message = "failed";
  execution_generation = 2;
  version = 5;
  created_at = 1;
  updated_at = 2;
  ready_at = none;
}

abbrev a_snapshot : RepositorySnapshot
a_snapshot = record {
  id = "snap";
  repository_id = "repo";
  analysis_revision_id = "rev";
  commit_sha = "abc";
  requested_ref = "main";
  materialized_path = "/snapshots";
  content_hash = "h";
  file_count = 3;
  total_bytes = 100;
  status = snapshot_ready;
  error_code = "";
  created_at = 1;
  ready_at = some 2;
}

abbrev pub a_code_build : BuildStatus → CodeIndexBuild
a_code_build status = record {
  id = 7;
  snapshot_id = "snap";
  analysis_revision_id = "rev";
  versions = current_versions two_hashes;
  module_path = "m";
  build_tags_hash = "t0";
  quality = no_analysis;
  symbol_count = 0;
  status = status;
  error_code = "";
  created_at = 2;
  ready_at = none;
}

abbrev pub a_retrieval_build : BuildStatus → RetrievalBuild
a_retrieval_build status = record {
  id = 12;
  code_index_build_id = 7;
  analysis_revision_id = "rev";
  versions = production_versions two_hashes;
  artifact_path = "";
  artifact_hash = "";
  document_count = 0;
  status = status;
  error_code = "";
  created_at = 3;
  ready_at = none;
}

abbrev pub index_job : AnalysisJob
index_job = record {
  id = 4;
  job_type = build_retrieval;
  resource_id = "12";
  status = running;
  execution_generation = 2;
  terminal_reason = none;
  attempt_count = 1;
  execution_started = true;
  max_attempts = 3;
  next_run_at = 3;
  worker_id = some "w";
  claim_token = some "t";
  lease_until = some 90;
  cancel_requested = false;
  last_error_class = none;
  last_error_code = none;
  last_error_message = none;
  created_at = 3;
  updated_at = 3;
  finished_at = none;
}

abbrev pub pipeline_db : AnalysisRevision → CodeIndexBuild → RetrievalBuild → PipelineDb
pipeline_db r c b = record {
  repositories = [];
  revisions = r ∷ [];
  snapshots = a_snapshot ∷ [];
  code_builds = c ∷ [];
  retrieval_builds = b ∷ [];
  jobs = index_job ∷ [];
  code_files = [];
  symbols = [];
  relations = [];
  next_code_file_id = 1;
  next_symbol_id = 1;
  next_relation_id = 1;
  next_code_build_id = 8;
  next_retrieval_build_id = 13;
  next_job_id = 5;
}

-- A retry with every row READY.
abbrev finished_db : PipelineDb
finished_db =
    pipeline_db (a_revision revision_failed stage_building_search) (a_code_build build_ready)
      (a_retrieval_build build_ready)

abbrev published_revision : AnalysisRevision
published_revision = record (a_revision revision_ready stage_ready) {
  error_code = "";
  error_message = "";
  execution_generation = 3;
  version = 6;
  updated_at = 50;
  ready_at = some 50;
}

abbrev published_db : PipelineDb
published_db = record finished_db { revisions = published_revision ∷ [] }

retry_publishes :
    retry_preparation_once two_hashes "rev" 50 finished_db ≡ ok (published_revision, published_db)
unfolding retry_preparation_once ◌>>=◌ read find refuse_unless_failed update_revision update
    retry_code_index retry_retrieval publish_revision
retry_publishes = refl

-- A retry of a failed code index: its job is new, and its number is printed.
abbrev failed_db : PipelineDb
failed_db =
    pipeline_db (a_revision revision_failed stage_building_code) (a_code_build build_failed)
      (a_retrieval_build build_failed)

abbrev restarted_revision : AnalysisRevision
restarted_revision = record (a_revision preparing stage_building_code) {
  error_code = "";
  error_message = "";
  execution_generation = 3;
  version = 6;
  updated_at = 50;
}

abbrev restarted_db : PipelineDb
restarted_db = record failed_db {
  revisions = restarted_revision ∷ [];
  code_builds = a_code_build build_created ∷ [];
  jobs = index_job ∷ pipeline_new_job 5 build_code_index "7" 3 50 ∷ [];
  next_job_id = 6;
}

retry_restarts :
    retry_preparation_once two_hashes "rev" 50 failed_db ≡ ok (restarted_revision, restarted_db)
unfolding retry_preparation_once ◌>>=◌ read find refuse_unless_failed update_revision update
    retry_code_index restart_code_index reset_code_build update_code_build reset_job update_job_of
    create_job_gorm insert_new_job decimal
retry_restarts = refl

retry_restarts_first_unfinished_example :
    Restarted "rev" 50 failed_db restarted_revision restarted_db
retry_restarts_first_unfinished_example =
    retry_restarts_first_unfinished two_hashes "rev" 50 failed_db restarted_db restarted_revision
      retry_restarts

retried_revision_is_resolved_example :
    (s : RepositorySnapshot) × (c : CodeIndexBuild) × (b : RetrievalBuild) × (resolve_ready_lineage
        "rev" published_db
      ≡ ok (lineage_of published_revision s c b, published_db))
retried_revision_is_resolved_example =
    retried_revision_is_resolved two_hashes "rev" 50 finished_db published_db published_revision
      retry_publishes refl refl

abbrev published_lineage : ResolvedLineage
published_lineage = record {
  repository_id = "repo";
  revision_id = "rev";
  commit_sha = "abc";
  snapshot_id = "snap";
  code_index_build_id = 7;
  retrieval_build_id = 12;
  pipeline_version = "v2";
  pipeline_fingerprint = "fp";
}

resolve_ready_lineage_iff_example :
    (resolve_ready_lineage "rev" published_db ≡ ok (published_lineage, published_db))
    ↔ IsResolved "rev" published_db published_lineage
resolve_ready_lineage_iff_example = resolve_ready_lineage_iff "rev" published_db published_lineage

-- The last finalizer.
abbrev indexing_revision : AnalysisRevision
indexing_revision = a_revision preparing stage_building_search

abbrev indexing_db : PipelineDb
indexing_db = pipeline_db indexing_revision (a_code_build build_ready) (a_retrieval_build building)

abbrev indexed_db : PipelineDb
indexed_db = record indexing_db {
  revisions = ready_revision_row 60 indexing_revision ∷ [];
  retrieval_builds = artifact_row "/a" "ha" 9 60 (a_retrieval_build building) ∷ [];
  jobs =
      record index_job { status = JobStatus.succeeded; finished_at = some 60; updated_at = 60 }
      ∷ [];
}

finalizer_commits :
    finalize_retrieval_success_with_revision 4 "w" "t" 12 "rev" "/a" "ha" 9 60 indexing_db
    ≡ ok (tt, indexed_db)
unfolding finalize_retrieval_success_with_revision ◌>>=◌ read find update update_revision
    update_retrieval_build update_pipeline_job require_owned_job finalize_owned_job
finalizer_commits = refl

finalized_revision_is_resolved_example : IsPublished 4 indexing_revision a_snapshot 12 tt indexed_db
unfolding find
finalized_revision_is_resolved_example =
    finalized_revision_is_resolved 4 12 "w" "t" "/a" "ha" 9 60 indexing_revision a_snapshot
      indexing_db indexed_db refl refl refl refl refl finalizer_commits

-- A queue over the jobs that the retry leaves.
abbrev restarted_queue : Db
restarted_queue = record (db_with build_job) { jobs = restarted_db.jobs }

retried_stage_is_served_example :
    (out : List AnalysisJob) × (q' : Db) × (d : AnalysisJob) × (claim_jobs "w"
        (λ n. "token")
        5
        30
        70
        restarted_queue
      ≡ ok (out, q'))
    × (find key_of (build_code_index, decimal 7) out ≡ some d)
    × (d.status ≡ running)
    × (d.worker_id ≡ some "w")
    × (d.execution_generation ≡ 3)
    × (d.attempt_count ≡ 0)
retried_stage_is_served_example =
    retried_stage_is_served two_hashes "rev" 50 70 failed_db restarted_db restarted_revision "w"
      (λ n. "token") 5 30 restarted_queue retry_restarts refl (ground arith) refl (omega arith)
