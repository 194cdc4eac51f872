-- ===== src/Tests/Failed.antt =====
-- A build that fails for good, with the revision that it belongs to.
use repolens.Base.{◌≡◌, refl, true, none, some, [], ◌∷◌}
use repolens.Sql.Result.{ok, ◌>>=◌}
use repolens.Sql.Table.{find, update}
use repolens.Jobs.Model.{AnalysisJob, build_code_index, running}
use repolens.Jobs.Db.{
  statements, Db, Resource, building, resource_failed, AnalysisRevision, preparing, revision_failed,
  building_code_index,
}
use repolens.Jobs.Business.{fail_business}
use repolens.Jobs.Finalize.{failed_row, finalize_failure}
use repolens.Jobs.Lifecycle.Failed.{IsFailed}
use repolens.Jobs.Lifecycle.Failing.{terminal_failure_reaches_resource}
use repolens.Tests.Data.{build_job, db_with, timeout_failure}

abbrev running_build : AnalysisJob
running_build = record build_job {
  id = 1;
  status = running;
  worker_id = some "w";
  claim_token = some "t";
  lease_until = some 100;
  attempt_count = 1;
  execution_started = true;
}

abbrev open_build : Resource
open_build = record {
  id = "7";
  analysis_revision_id = "rev";
  parent_id = "snap";
  status = building;
  error_code = none;
  ready_at = none;
  artifact_path = "";
  artifact_hash = "";
}

abbrev open_revision : AnalysisRevision
open_revision = record {
  id = "rev";
  snapshot_id = some "snap";
  code_index_build_id = some "7";
  retrieval_build_id = none;
  status = preparing;
  stage = building_code_index;
  error_code = "";
  error_message = "";
  version = 1;
  updated_at = 3;
}

abbrev build_db : Db
build_db = record (db_with running_build) {
  code_builds = open_build ∷ [];
  revisions = open_revision ∷ [];
}

abbrev failed_revision : AnalysisRevision
failed_revision = record open_revision {
  status = revision_failed;
  error_code = "TIMEOUT";
  error_message = "timed out";
  version = 2;
  updated_at = 10;
}

abbrev failed_build_db : Db
failed_build_db = record (db_with (failed_row (timeout_failure true) 10 running_build)) {
  code_builds = record open_build { status = resource_failed; error_code = some "TIMEOUT" } ∷ [];
  revisions = failed_revision ∷ [];
}

committed : finalize_failure 1 "w" "t" (timeout_failure true) 10 build_db ≡ ok (tt, failed_build_db)
unfolding finalize_failure statements find update ◌>>=◌ fail_business
committed = refl

terminal_failure_reaches_resource_example : IsFailed build_code_index "7" failed_build_db
unfolding find
terminal_failure_reaches_resource_example =
    terminal_failure_reaches_resource 1 "w" "t" 10 build_db failed_build_db running_build
      (timeout_failure true) refl refl refl refl committed
