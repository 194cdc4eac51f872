-- ===== src/Tests/Data.antt =====
-- A small database: one diagnosis that runs, with its run and its attempt, and one waiting build.
use repolens.Base.{Bool, false, none, some, [], ◌∷◌}
use repolens.Jobs.Model.{
  build_code_index, run_diagnosis, pending, running, retryable, AnalysisJob, JobType,
}
use repolens.Jobs.Db.{Db, DiagnosisRun, RunStatus, DiagnosisAttempt, attempt_running}
use repolens.Jobs.Claim.{JobSpec}
use repolens.Jobs.Finalize.{Failure}

-- A diagnosis that was started by worker "w" under token "t" at its second attempt.
abbrev pub diagnosis_job : Bool → Bool → AnalysisJob
diagnosis_job started asked = record {
  id = 1;
  job_type = run_diagnosis;
  resource_id = "run-1";
  status = running;
  execution_generation = 1;
  terminal_reason = none;
  attempt_count = 2;
  execution_started = started;
  max_attempts = 3;
  next_run_at = 5;
  worker_id = some "w";
  claim_token = some "t";
  lease_until = some 100;
  cancel_requested = asked;
  last_error_class = none;
  last_error_code = none;
  last_error_message = none;
  created_at = 1;
  updated_at = 5;
  finished_at = none;
}

abbrev pub build_job : AnalysisJob
build_job = record {
  id = 2;
  job_type = build_code_index;
  resource_id = "7";
  status = pending;
  execution_generation = 1;
  terminal_reason = none;
  attempt_count = 0;
  execution_started = false;
  max_attempts = 3;
  next_run_at = 4;
  worker_id = none;
  claim_token = none;
  lease_until = none;
  cancel_requested = false;
  last_error_class = none;
  last_error_code = none;
  last_error_message = none;
  created_at = 2;
  updated_at = 2;
  finished_at = none;
}

abbrev pub open_run : DiagnosisRun
open_run = record {
  id = "run-1";
  status = RunStatus.running;
  cancel_requested = false;
  final_attempt_id = none;
  version = 3;
}

abbrev pub open_attempt : DiagnosisAttempt
open_attempt = record {
  id = "a-2";
  diagnosis_run_id = "run-1";
  execution_generation = 1;
  attempt_no = 2;
  status = attempt_running;
  finished_at = none;
  error_code = "";
  error_message = "";
  retryable = false;
  checkpoint_error_code = "";
  checkpoint_error_message = none;
  provider_dispatch_unresolved = false;
  created_at = 6;
}

abbrev pub db_with : AnalysisJob → Db
db_with j = record {
  jobs = j ∷ build_job ∷ [];
  next_job_id = 3;
  snapshots = [];
  code_builds = [];
  retrieval_builds = [];
  runs = open_run ∷ [];
  attempts = open_attempt ∷ [];
  revisions = [];
}

abbrev pub timeout_failure : Bool → Failure
timeout_failure terminal = record {
  error_class = retryable;
  error_code = "TIMEOUT";
  error_message = "timed out";
  terminal_reason = none;
  is_terminal = terminal;
  next_run_at = 90;
}

abbrev pub retrieval_spec : JobSpec
retrieval_spec = record {
  job_type = JobType.build_retrieval;
  resource_id = "9";
  status = none;
  execution_generation = 0;
  attempt_count = 0;
  max_attempts = 0;
  next_run_at = none;
  cancel_requested = false;
}
