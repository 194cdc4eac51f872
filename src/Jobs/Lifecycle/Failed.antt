-- ===== src/Jobs/Lifecycle/Failed.antt =====
-- What keeps the resource of a build job FAILED: the failure of the revision behind it
-- (internal/jobs/store.go, failAnalysisRevisionTx).
use repolens.Base.{ℕ, String, ◌≡◌, refl, Bool, true, text_key, Option, none, some, List}
use repolens.Sql.Moves.{
  IsPreorder, Moves, Moves-pure, Moves-query, Moves-fail, Moves-if, Moves-guard, Moves-bind,
}
use repolens.Jobs.Model.{
  JobType, materialize_snapshot, build_code_index, build_retrieval, run_diagnosis, other,
}
use repolens.Jobs.Db.{
  Db, Resource, AnalysisRevision, Stage, materializing, building_code_index, building_retrieval,
  resource_row, resource_table, update_revision, statements,
}
use repolens.Jobs.Revision.{
  fail_stage, fail_linked_revision, read_revision_resource_identity, identity_or_conflict,
  load_or_conflict, validate_revision_resource_link, recheck_revision, fail_analysis_revision,
  RevisionResourceIdentity,
}
use repolens.Jobs.Business.{is_resource_failed}

-- The resource is there and FAILED.
abbrev pub IsFailed : JobType → String → Db → Type 0
IsFailed kind id db =
    (r : Resource) × (resource_row kind id db ≡ some r) × (is_resource_failed r.status ≡ true)

-- A step that leaves a FAILED resource FAILED.
abbrev pub StaysFailed : JobType → String → Db → Db → Type 0
StaysFailed kind id a b = IsFailed kind id a → IsFailed kind id b

abbrev pub EndsFailed : JobType → String → Db → Db → Type 0
EndsFailed kind id a b = IsFailed kind id b

pub Stays-preorder : (kind : JobType) (id : String) → IsPreorder (StaysFailed kind id)
Stays-preorder kind id = record { same = λ s h. h; follow = λ s t u f g h. g (f h) }

same_table :
    (kind : JobType) (db : Db) (t : List AnalysisRevision)
    → resource_table kind (record db { revisions = t }) ≡ resource_table kind db
same_table materialize_snapshot db t = refl
same_table build_code_index db t = refl
same_table build_retrieval db t = refl
same_table run_diagnosis db t = refl
same_table (other s) db t = refl

module _ (kind : JobType) (id : String) where
  stay_revision :
      (r : String) (c : AnalysisRevision → Bool) (f : AnalysisRevision → AnalysisRevision)
      → Moves (StaysFailed kind id) (update_revision r c f)
  unfolding statements
  stay_revision r c f = record { at = λ db h. (h.0, rw (same_table kind db _) h.1, h.2) }

  stay_load : (row : Option AnalysisRevision) → Moves (StaysFailed kind id) (load_or_conflict row)
  unfolding load_or_conflict
  stay_load none = Moves-fail _
  stay_load (some r) = Moves-pure (Stays-preorder kind id) r

  stay_identity :
      (k : JobType) (resource : String) (row : Option Resource)
      → Moves (StaysFailed kind id) (identity_or_conflict k resource row)
  unfolding identity_or_conflict
  stay_identity k resource none = Moves-fail _
  stay_identity k resource (some r) = Moves-pure (Stays-preorder kind id) _

  stay_recheck :
      (k : JobType) (stage : Stage) (i : RevisionResourceIdentity)
      → Moves (StaysFailed kind id) (recheck_revision k stage i)
  unfolding recheck_revision validate_revision_resource_link load_or_conflict
  stay_recheck k stage i =
      let o = Stays-preorder kind id in
      Moves-bind o _ _ (Moves-query o _) λ row.
        Moves-bind o _ _ (stay_load row)
          λ current. Moves-bind o _ _ (Moves-guard o _ _) λ u. Moves-guard o _ _

  stay_linked :
      (k : JobType) (stage : Stage) (i : RevisionResourceIdentity) (code message : String) (now : ℕ)
      → Moves (StaysFailed kind id) (fail_linked_revision k stage i code message now)
  unfolding fail_linked_revision validate_revision_resource_link
  stay_linked k stage i code message now =
      let o = Stays-preorder kind id in
      Moves-bind o _ _ (Moves-query o _) λ row. Moves-bind o _ _ (stay_load row) λ revision.
        Moves-bind o _ _ (Moves-guard o _ _) λ u.
          Moves-bind o _ _ (stay_revision _ _ _)
            λ n. Moves-if _ _ _ (Moves-pure o _) (stay_recheck k stage i)

  stay_stage :
      (k : JobType) (resource : String) (stage : Stage) (code message : String) (now : ℕ)
      → Moves (StaysFailed kind id) (fail_stage k resource stage code message now)
  unfolding fail_stage read_revision_resource_identity
  stay_stage k resource stage code message now =
      let o = Stays-preorder kind id in
      Moves-bind o _ _ (Moves-bind o _ _ (Moves-query o _) (stay_identity k resource))
        λ i. Moves-if _ _ _ (Moves-pure o _) (stay_linked k stage i code message now)

  pub stay_failure :
      (k : JobType) (resource code message : String) (now : ℕ)
      → Moves (StaysFailed kind id) (fail_analysis_revision k resource code message now)
  unfolding fail_analysis_revision
  stay_failure materialize_snapshot resource code message now =
      stay_stage materialize_snapshot resource materializing code message now
  stay_failure build_code_index resource code message now =
      stay_stage build_code_index resource building_code_index code message now
  stay_failure build_retrieval resource code message now =
      stay_stage build_retrieval resource building_retrieval code message now
  stay_failure run_diagnosis resource code message now = Moves-pure (Stays-preorder kind id) _
  stay_failure (other s) resource code message now = Moves-pure (Stays-preorder kind id) _
