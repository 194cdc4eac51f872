-- ===== src/Pipeline/Retry/Unfinished.antt =====
-- internal/analysispipeline/store.go: the first stage of a revision that is not READY, and what a
-- retry has to leave for it.
use repolens.Base.{
  ◌≡◌, refl, ℕ, ◌+◌, Bool, true, false, not, ◌&&◌, Option, none, some, nat_eq, nat_key, text_key,
  if◌then◌else◌,
}
use repolens.Jobs.Model.{materialize_snapshot, build_code_index, build_retrieval}
use repolens.Pipeline.Model.{
  AnalysisRevision, RevisionStatus, preparing, revision_ready, revision_failed, Stage,
  stage_materializing, stage_building_code, stage_building_search, stage_ready, stage_failed,
  RepositorySnapshot, CodeIndexBuild, RetrievalBuild, PipelineDb, is_failed_revision,
  is_ready_snapshot, is_ready_build, revision_row, snapshot_row, code_build_row,
  retrieval_build_row, decimal,
}
use repolens.Pipeline.Builds.Reset.{HasWaiting}
use repolens.Pipeline.Retry.{owns_snapshot, owns_code_build, owns_retrieval_build}

abbrev pub snapshot_is_ready : Option RepositorySnapshot → Bool
snapshot_is_ready none = false
snapshot_is_ready (some s) = is_ready_snapshot s.status

-- 0 is no build.
abbrev pub code_build_is_ready : ℕ → Option CodeIndexBuild → Bool
code_build_is_ready id none = false
code_build_is_ready id (some b) = not (nat_eq id 0) && is_ready_build b.status

abbrev pub retrieval_build_is_ready : ℕ → Option RetrievalBuild → Bool
retrieval_build_is_ready id none = false
retrieval_build_is_ready id (some b) = not (nat_eq id 0) && is_ready_build b.status

-- The specification: the first stage of the revision whose row is not READY.
pub first_unfinished : PipelineDb → AnalysisRevision → Stage
first_unfinished db r =
    if not (snapshot_is_ready (snapshot_row r.snapshot_id db))
    then stage_materializing
    else if not
        (code_build_is_ready r.code_index_build_id (code_build_row r.code_index_build_id db))
    then stage_building_code
    else if not (
        retrieval_build_is_ready r.retrieval_build_id (retrieval_build_row r.retrieval_build_id db))
    then stage_building_search
    else stage_ready

pub first_is_snapshot :
    (db : PipelineDb) (r : AnalysisRevision)
    → snapshot_is_ready (snapshot_row r.snapshot_id db) ≡ false
    → first_unfinished db r ≡ stage_materializing
unfolding first_unfinished
first_is_snapshot db r s = rw s refl

-- The snapshot is READY.
module _ (db : PipelineDb) (r : AnalysisRevision)
    (s : snapshot_is_ready (snapshot_row r.snapshot_id db) ≡ true) where
  pub first_is_code_index :
      code_build_is_ready r.code_index_build_id (code_build_row r.code_index_build_id db) ≡ false
      → first_unfinished db r ≡ stage_building_code
  unfolding first_unfinished
  first_is_code_index c = rw (s, c) refl

  -- The code index is too.
  module _
      (c : code_build_is_ready r.code_index_build_id (code_build_row r.code_index_build_id db)
        ≡ true) where
    pub first_is_retrieval :
        retrieval_build_is_ready r.retrieval_build_id (retrieval_build_row r.retrieval_build_id db)
          ≡ false
        → first_unfinished db r ≡ stage_building_search
    unfolding first_unfinished
    first_is_retrieval b = rw (s, c, b) refl

    pub first_is_none :
        retrieval_build_is_ready r.retrieval_build_id (retrieval_build_row r.retrieval_build_id db)
          ≡ true
        → first_unfinished db r ≡ stage_ready
    unfolding first_unfinished
    first_is_none b = rw (s, c, b) refl

pub no_code_build :
    (id : ℕ) (o : Option CodeIndexBuild) → nat_eq id 0 ≡ true → code_build_is_ready id o ≡ false
no_code_build id none z = refl
no_code_build id (some b) z = rw z refl

pub no_retrieval_build :
    (id : ℕ) (o : Option RetrievalBuild)
    → nat_eq id 0 ≡ true
    → retrieval_build_is_ready id o ≡ false
no_retrieval_build id none z = refl
no_retrieval_build id (some b) z = rw z refl

pub code_build_test :
    (id : ℕ) (b : CodeIndexBuild) (o : Option CodeIndexBuild)
    → nat_eq id 0 ≡ false
    → o ≡ some b
    → code_build_is_ready id o ≡ is_ready_build b.status
code_build_test id b o there found = rw (found, there) refl

pub retrieval_build_test :
    (id : ℕ) (b : RetrievalBuild) (o : Option RetrievalBuild)
    → nat_eq id 0 ≡ false
    → o ≡ some b
    → retrieval_build_is_ready id o ≡ is_ready_build b.status
retrieval_build_test id b o there found = rw (found, there) refl

-- The rows of a revision all of whose stages are READY.
pub record IsLinked (r : AnalysisRevision) (s : RepositorySnapshot) (c : CodeIndexBuild)
    (b : RetrievalBuild) (db : PipelineDb) : Type 0 where
  pub snapshot_found : snapshot_row r.snapshot_id db ≡ some s
  pub code_build_found : code_build_row r.code_index_build_id db ≡ some c
  pub retrieval_build_found : retrieval_build_row r.retrieval_build_id db ≡ some b
  pub ready_snapshot : is_ready_snapshot s.status ≡ true
  pub ready_code_build : is_ready_build c.status ≡ true
  pub ready_retrieval_build : is_ready_build b.status ≡ true
  pub snapshot_is_owned : owns_snapshot r s ≡ true
  pub code_build_is_owned : owns_code_build r c ≡ true
  pub retrieval_build_is_owned : owns_retrieval_build r b ≡ true

abbrev pub Linked : AnalysisRevision → PipelineDb → Type 0
Linked r db =
    (s : RepositorySnapshot) × (c : CodeIndexBuild) × (b : RetrievalBuild) × IsLinked r s c b db

-- What there is to do for the stage of a revision: the job that waits, or nothing.
abbrev pub HasWork : ℕ → Stage → AnalysisRevision → PipelineDb → Type 0
HasWork now stage_materializing r db =
    HasWaiting r.execution_generation now materialize_snapshot r.snapshot_id db.jobs
HasWork now stage_building_code r db =
    HasWaiting r.execution_generation now build_code_index (decimal r.code_index_build_id) db.jobs
HasWork now stage_building_search r db =
    HasWaiting r.execution_generation now build_retrieval (decimal r.retrieval_build_id) db.jobs
HasWork now stage_ready r db = Linked r db
HasWork now stage_failed r db = ⊥

abbrev pub status_of : Stage → RevisionStatus
status_of stage_ready = revision_ready
status_of stage_failed = revision_failed
status_of _ = preparing

pub record IsRestart (now : ℕ) (old : AnalysisRevision) (db : PipelineDb) (r : AnalysisRevision)
    (db' : PipelineDb) : Type 0 where
  pub was_failed : is_failed_revision old.status ≡ true
  pub stored : revision_row old.id db' ≡ some r
  pub same_id : r.id ≡ old.id
  pub next_generation : r.execution_generation ≡ old.execution_generation + 1
  pub next_version : r.version ≡ old.version + 1
  pub stage : r.stage ≡ first_unfinished db old
  pub status : r.status ≡ status_of r.stage
  pub work : HasWork now r.stage r db'
