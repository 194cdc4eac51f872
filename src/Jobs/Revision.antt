-- ===== src/Jobs/Revision.antt =====
-- internal/jobs/store.go, the product state behind a stage job: readRevisionResourceIdentityTx,
-- loadAnalysisRevisionTx, validateRevisionResourceLink and failAnalysisRevisionTx. The schemas
-- without revision columns that the source tolerates in test fixtures are left out.
use repolens.Base.{
  ℕ, ◌+◌, String, Bool, true, false, ◌&&◌, Option, none, some, nat_eq, text_key, ◌==◌, is_value,
  if◌then◌else◌,
}
use repolens.Sql.Result.{pure, fail, query, guard, ◌>>=◌, ◌>>◌}
use repolens.Jobs.Model.{
  JobType, materialize_snapshot, build_code_index, build_retrieval, state_conflict,
}
use repolens.Jobs.Db.{
  StoreTx, Resource, AnalysisRevision, RevisionStatus, preparing, revision_failed, Stage,
  materializing, building_code_index, building_retrieval, stage_ready, resource_row, revision_row,
  update_revision,
}

pub record RevisionResourceIdentity : Type 0 where
  pub revision_id : String
  pub snapshot_id : String
  pub code_index_build_id : String
  pub retrieval_build_id : String

-- The identity that the SELECT of each job type fills in; the other ids stay empty.
abbrev pub identity_of : JobType → String → Resource → RevisionResourceIdentity
identity_of materialize_snapshot resource r = record {
  revision_id = r.analysis_revision_id;
  snapshot_id = r.id;
  code_index_build_id = "";
  retrieval_build_id = "";
}
identity_of build_code_index resource r = record {
  revision_id = r.analysis_revision_id;
  snapshot_id = r.parent_id;
  code_index_build_id = resource;
  retrieval_build_id = "";
}
identity_of _ resource r = record {
  revision_id = r.analysis_revision_id;
  snapshot_id = "";
  code_index_build_id = r.parent_id;
  retrieval_build_id = resource;
}

unfoldable pub identity_or_conflict :
    JobType → String → Option Resource → StoreTx RevisionResourceIdentity
identity_or_conflict kind resource none = fail state_conflict
identity_or_conflict kind resource (some r) = pure (identity_of kind resource r)

-- `revision_id` is empty for a resource that no revision links.
unfoldable pub read_revision_resource_identity : JobType → String → StoreTx RevisionResourceIdentity
unfolding identity_or_conflict
read_revision_resource_identity kind resource = do
  row ← query (resource_row kind resource)
  identity_or_conflict kind resource row

unfoldable pub links_back : JobType → RevisionResourceIdentity → AnalysisRevision → Bool
links_back materialize_snapshot i r = is_value r.snapshot_id i.snapshot_id
links_back build_code_index i r =
    is_value r.snapshot_id i.snapshot_id && is_value r.code_index_build_id i.code_index_build_id
links_back build_retrieval i r =
    is_value r.code_index_build_id i.code_index_build_id
    && is_value r.retrieval_build_id i.retrieval_build_id
links_back _ i r = false

unfoldable pub validate_revision_resource_link :
    JobType → RevisionResourceIdentity → AnalysisRevision → StoreTx (Unit {0})
unfolding links_back
validate_revision_resource_link kind i r = guard (links_back kind i r) state_conflict

unfoldable pub load_or_conflict : Option AnalysisRevision → StoreTx AnalysisRevision
load_or_conflict none = fail state_conflict
load_or_conflict (some r) = pure r

abbrev pub is_preparing : RevisionStatus → Bool
is_preparing preparing = true
is_preparing _ = false

abbrev pub is_revision_failed : RevisionStatus → Bool
is_revision_failed revision_failed = true
is_revision_failed _ = false

abbrev pub same_stage : Stage → Stage → Bool
same_stage materializing materializing = true
same_stage building_code_index building_code_index = true
same_stage building_retrieval building_retrieval = true
same_stage stage_ready stage_ready = true
same_stage _ _ = false

abbrev pub fail_revision_row : Stage → String → String → ℕ → AnalysisRevision → AnalysisRevision
fail_revision_row stage code message now r = record r {
  status = revision_failed;
  stage = stage;
  error_code = code;
  error_message = message;
  version = r.version + 1;
  updated_at = now;
}

-- What failAnalysisRevisionTx accepts when its UPDATE met no row.
unfoldable pub recheck_revision : JobType → Stage → RevisionResourceIdentity → StoreTx (Unit {0})
unfolding validate_revision_resource_link load_or_conflict
recheck_revision kind stage i = do
  row ← query (revision_row i.revision_id)
  current ← load_or_conflict row
  validate_revision_resource_link kind i current
  guard (is_revision_failed current.status && same_stage current.stage stage) state_conflict

-- From the loaded identity on, for a resource that a revision links.
unfoldable pub fail_linked_revision :
    JobType → Stage → RevisionResourceIdentity → String → String → ℕ → StoreTx (Unit {0})
unfolding validate_revision_resource_link load_or_conflict recheck_revision
fail_linked_revision kind stage i code message now = do
  row ← query (revision_row i.revision_id)
  revision ← load_or_conflict row
  validate_revision_resource_link kind i revision
  affected ←
      update_revision i.revision_id (λ r. is_preparing r.status && same_stage r.stage stage)
        (fail_revision_row stage code message now)
  if nat_eq affected 1 then pure tt else recheck_revision kind stage i

unfoldable pub fail_stage : JobType → String → Stage → String → String → ℕ → StoreTx (Unit {0})
unfolding read_revision_resource_identity fail_linked_revision
fail_stage kind resource stage code message now = do
  i ← read_revision_resource_identity kind resource
  if i.revision_id == "" then pure tt else fail_linked_revision kind stage i code message now

-- A diagnosis has no stage of the pipeline.
unfoldable pub fail_analysis_revision : JobType → String → String → String → ℕ → StoreTx (Unit {0})
unfolding fail_stage
fail_analysis_revision materialize_snapshot resource code message now =
    fail_stage materialize_snapshot resource materializing code message now
fail_analysis_revision build_code_index resource code message now =
    fail_stage build_code_index resource building_code_index code message now
fail_analysis_revision build_retrieval resource code message now =
    fail_stage build_retrieval resource building_retrieval code message now
fail_analysis_revision _ resource code message now = pure tt
