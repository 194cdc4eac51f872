-- ===== src/Jobs/Db.antt =====
-- The tables that the stores share (migrations/*.sql): analysis_jobs, the three resource tables,
-- diagnosis_runs, diagnosis_attempts and analysis_revisions, and one function for each statement
-- that reads or updates a row by its key. Ids of builds are texts, as `resource_id` holds them.
use repolens.Base.{
  ℕ, String, Bool, true, false, ◌&&◌, Option, none, some, List, ◌≡◌, refl, ◌↔◌, arith, Eq, nat_key,
  text_key, ◌==◌, eq_iff,
}
use repolens.Sql.Result.{ok, err, Tx}
use repolens.Sql.Table.{find, update, count_row, map_row, when_row, find-update_self, update_noop}
use repolens.Jobs.Model.{
  JobType, materialize_snapshot, build_code_index, build_retrieval, run_diagnosis, other,
  AnalysisJob, StoreError, no_rows,
}

-- `building` stands for MATERIALIZING in repository_snapshots.
pub data ResourceStatus : Type 0 where
  created building ready resource_failed : ResourceStatus

-- A row of repository_snapshots, code_index_builds or retrieval_builds. `parent_id` is the
-- snapshot of a code index build and the code index build of a retrieval build.
pub record Resource : Type 0 where
  pub id : String
  pub analysis_revision_id : String
  pub parent_id : String
  pub status : ResourceStatus
  pub error_code : Option String
  pub ready_at : Option ℕ
  pub artifact_path : String
  pub artifact_hash : String

pub data RunStatus : Type 0 where
  queued running succeeded failed cancelled : RunStatus

pub record DiagnosisRun : Type 0 where
  pub id : String
  pub status : RunStatus
  pub cancel_requested : Bool
  pub final_attempt_id : Option String
  pub version : ℕ

pub data AttemptStatus : Type 0 where
  attempt_running attempt_succeeded failed_retryable failed_terminal attempt_cancelled abandoned :
      AttemptStatus

pub record DiagnosisAttempt : Type 0 where
  pub id : String
  pub diagnosis_run_id : String
  pub execution_generation : ℕ
  pub attempt_no : ℕ
  pub status : AttemptStatus
  pub finished_at : Option ℕ
  pub error_code : String
  pub error_message : String
  pub retryable : Bool
  pub checkpoint_error_code : String
  pub checkpoint_error_message : Option String
  pub provider_dispatch_unresolved : Bool
  pub created_at : ℕ

pub data RevisionStatus : Type 0 where
  preparing revision_ready revision_failed : RevisionStatus

pub data Stage : Type 0 where
  materializing building_code_index building_retrieval stage_ready : Stage

pub record AnalysisRevision : Type 0 where
  pub id : String
  pub snapshot_id : Option String
  pub code_index_build_id : Option String
  pub retrieval_build_id : Option String
  pub status : RevisionStatus
  pub stage : Stage
  pub error_code : String
  pub error_message : String
  pub version : ℕ
  pub updated_at : ℕ

pub record Db : Type 0 where
  pub jobs : List AnalysisJob
  -- AUTO_INCREMENT of analysis_jobs
  pub next_job_id : ℕ
  pub snapshots : List Resource
  pub code_builds : List Resource
  pub retrieval_builds : List Resource
  pub runs : List DiagnosisRun
  pub attempts : List DiagnosisAttempt
  pub revisions : List AnalysisRevision

abbrev pub same_type : JobType → JobType → Bool
same_type materialize_snapshot materialize_snapshot = true
same_type build_code_index build_code_index = true
same_type build_retrieval build_retrieval = true
same_type run_diagnosis run_diagnosis = true
same_type (other s) (other t) = s == t
same_type _ _ = false

-- The unique key uq_job_resource.
abbrev pub JobKey : Type 0
JobKey = JobType × String

abbrev pub same_key : JobKey → JobKey → Bool
same_key (a, s) (b, t) = same_type a b && s == t

pub same_key_iff : (a b : JobKey) → (same_key a b ≡ true) ↔ (a ≡ b)
same_key_iff (other x, s) (other y, t) =
    (λ h. ground (arith, eq_iff x y, eq_iff s t), λ h. ground (arith, eq_iff x y, eq_iff s t))
same_key_iff (a, s) (b, t) = (λ h. ground (arith, eq_iff s t), λ h. ground (arith, eq_iff s t))

instance abbrev pub job_key : Eq JobKey
job_key = record { same = same_key; same_iff = same_key_iff }

abbrev pub StoreTx : Type 0 → Type 0
StoreTx A = Tx Db StoreError A

-- QueryRow(...).Scan: `sql.ErrNoRows` if there is no row.
abbrev pub scan_row : {A : Type 0} → Option A → StoreTx A
scan_row none db = err no_rows
scan_row (some a) db = ok (a, db)

pub scan : {A : Type 0} → (Db → Option A) → StoreTx A
scan f db = scan_row (f db) db

abbrev pub job_row : ℕ → Db → Option AnalysisJob
job_row id db = find (λ (j : AnalysisJob). j.id) id db.jobs

abbrev pub key_of : AnalysisJob → JobKey
key_of j = (j.job_type, j.resource_id)

-- WHERE job_type = ? AND resource_id = ?
abbrev pub job_by_resource : JobType → String → Db → Option AnalysisJob
job_by_resource kind resource db = find key_of (kind, resource) db.jobs

abbrev pub run_row : String → Db → Option DiagnosisRun
run_row id db = find (λ (r : DiagnosisRun). r.id) id db.runs

abbrev pub revision_row : String → Db → Option AnalysisRevision
revision_row id db = find (λ (r : AnalysisRevision). r.id) id db.revisions

abbrev pub set_jobs : Db → List AnalysisJob → Db
set_jobs db t = record db { jobs = t }

-- UPDATE analysis_jobs SET f WHERE id = ? AND c: the rows affected, and the new table.
pub update_job : ℕ → (AnalysisJob → Bool) → (AnalysisJob → AnalysisJob) → StoreTx ℕ
update_job id c f db =
    ok
      (count_row c (job_row id db), set_jobs db (update (λ (j : AnalysisJob). j.id) id c f db.jobs))

-- UPDATE analysis_jobs SET f WHERE job_type = ? AND resource_id = ? AND c
pub update_job_by_resource :
    JobType → String → (AnalysisJob → Bool) → (AnalysisJob → AnalysisJob) → StoreTx ℕ
update_job_by_resource kind resource c f db = ok (
  count_row c (job_by_resource kind resource db),
  set_jobs db (update key_of (kind, resource) c f db.jobs),
)

pub update_run : String → (DiagnosisRun → Bool) → (DiagnosisRun → DiagnosisRun) → StoreTx ℕ
update_run id c f db = ok (
  count_row c (run_row id db),
  record db { runs = update (λ (r : DiagnosisRun). r.id) id c f db.runs },
)

abbrev pub attempt_row : String → Db → Option DiagnosisAttempt
attempt_row id db = find (λ (a : DiagnosisAttempt). a.id) id db.attempts

pub update_attempt :
    String → (DiagnosisAttempt → Bool) → (DiagnosisAttempt → DiagnosisAttempt) → StoreTx ℕ
update_attempt id c f db = ok (
  count_row c (attempt_row id db),
  record db { attempts = update (λ (a : DiagnosisAttempt). a.id) id c f db.attempts },
)

pub update_revision :
    String → (AnalysisRevision → Bool) → (AnalysisRevision → AnalysisRevision) → StoreTx ℕ
update_revision id c f db = ok (
  count_row c (revision_row id db),
  record db { revisions = update (λ (r : AnalysisRevision). r.id) id c f db.revisions },
)

-- The resource table of a job type, as `businessTable` names it: none for a diagnosis.
abbrev pub resource_table : JobType → Db → List Resource
resource_table materialize_snapshot db = db.snapshots
resource_table build_code_index db = db.code_builds
resource_table build_retrieval db = db.retrieval_builds
resource_table _ db = List.[]

abbrev pub set_resource_table : JobType → Db → List Resource → Db
set_resource_table materialize_snapshot db t = record db { snapshots = t }
set_resource_table build_code_index db t = record db { code_builds = t }
set_resource_table build_retrieval db t = record db { retrieval_builds = t }
set_resource_table _ db t = db

abbrev pub resource_row : JobType → String → Db → Option Resource
resource_row kind id db = find (λ (r : Resource). r.id) id (resource_table kind db)

pub update_resource : JobType → String → (Resource → Bool) → (Resource → Resource) → StoreTx ℕ
update_resource kind id c f db = ok (
  count_row c (resource_row kind id db),
  set_resource_table kind db (update (λ (r : Resource). r.id) id c f (resource_table kind db)),
)

-- Opens every statement above.
unfoldable pub statements : Unit {0}
unfolding scan update_job update_job_by_resource update_run update_attempt update_revision
    update_resource
statements = tt

-- The database after an UPDATE of analysis_jobs by id.
abbrev pub after_job : ℕ → (AnalysisJob → Bool) → (AnalysisJob → AnalysisJob) → Db → Db
after_job id c f db = set_jobs db (update (λ (j : AnalysisJob). j.id) id c f db.jobs)

module _ (id : ℕ) (c : AnalysisJob → Bool) (f : AnalysisJob → AnalysisJob) (db : Db) where
  pub job_row-after_job :
      ((j : AnalysisJob) → (f j).id ≡ j.id)
      → job_row id (after_job id c f db) ≡ map_row (when_row c f) (job_row id db)
  job_row-after_job h = find-update_self (λ (j : AnalysisJob). j.id) id c f db.jobs h

  pub job_row-hit :
      ((j : AnalysisJob) → (f j).id ≡ j.id)
      → (j : AnalysisJob) → job_row id db ≡ some j
      → c j ≡ true
      → job_row id (after_job id c f db) ≡ some (f j)
  job_row-hit h j found met = rw (job_row-after_job h, found, met)

  -- An UPDATE that meets no row leaves the table as it is.
  pub jobs_miss :
      count_row c (job_row id db) ≡ 0 → update (λ (j : AnalysisJob). j.id) id c f db.jobs ≡ db.jobs
  jobs_miss h = update_noop (λ (j : AnalysisJob). j.id) id c f db.jobs h

  pub update_job_lem : update_job id c f db ≡ ok (count_row c (job_row id db), after_job id c f db)
  unfolding update_job
  update_job_lem = refl
