-- ===== src/Pipeline/Retry/Published.antt =====
-- internal/analysispipeline: a revision that a retry makes READY, as the resolver sees it.
use repolens.Base.{
  ◌≡◌, refl, sym, ap, ◌∙◌, subst, ℕ, String, Bool, true, not, ◌&&◌, some, nat_eq, text_key, nat_key,
  arith, ◌==◌, and_intro,
}
use repolens.Sql.Result.{ok}
use repolens.Sql.Table.{key-find}
use repolens.Pipeline.Model.{
  AnalysisRevision, Stage, stage_ready, RepositorySnapshot, CodeIndexBuild, RetrievalBuild,
  PipelineDb, is_ready_stage, is_ready_revision, revision_row,
}
use repolens.Pipeline.Store.{Hashes}
use repolens.Pipeline.Retry.{retry_preparation_once}
use repolens.Pipeline.Retry.Unfinished.{IsLinked, HasWork, status_of}
use repolens.Pipeline.Retry.Restart.{retry_restarts_first_unfinished}
use repolens.Pipeline.Resolver.{is_incomplete, lineage_of, resolve_ready_lineage}
use repolens.Pipeline.Resolver.Chain.{IsChain, chain_is_resolved}

is_stage_ready : (st : Stage) → is_ready_stage st ≡ true → st ≡ stage_ready
is_stage_ready stage_ready h = refl
is_stage_ready _ h = ground arith

swap_tests : (a b c : Bool) → (a && b && c) ≡ true → (b && a && c) ≡ true
swap_tests a b c h = ground arith

-- Linked rows of a stored READY revision with a complete identity are a chain.
pub linked-IsChain :
    (r : AnalysisRevision) (s : RepositorySnapshot) (c : CodeIndexBuild) (b : RetrievalBuild)
    (db : PipelineDb)
    → revision_row r.id db ≡ some r
    → (is_ready_revision r.status && is_ready_stage r.stage) ≡ true
    → not (is_incomplete r) ≡ true
    → IsLinked r s c b db
    → IsChain r s c b db
linked-IsChain r s c b db found ready complete h =
    let id_s : s.id ≡ r.snapshot_id =
      key-find (λ (x : RepositorySnapshot). x.id) r.snapshot_id db.snapshots s h.snapshot_found in
    let id_c : c.id ≡ r.code_index_build_id =
      key-find (λ (x : CodeIndexBuild). x.id) r.code_index_build_id db.code_builds c
        h.code_build_found in
    record {
      revision_found = found;
      snapshot_found = h.snapshot_found;
      code_build_found = h.code_build_found;
      retrieval_build_found = h.retrieval_build_found;
      is_ready = ready;
      is_complete = complete;
      snapshot_is_ready = h.ready_snapshot;
      code_build_is_ready = h.ready_code_build;
      retrieval_build_is_ready = h.ready_retrieval_build;
      snapshot_is_owned =
          swap_tests (s.analysis_revision_id == r.id) (s.repository_id == r.repository_id)
            (s.commit_sha == r.commit_sha) h.snapshot_is_owned;
      code_build_is_owned =
          subst (λ i. (c.snapshot_id == i && c.analysis_revision_id == r.id) ≡ true) (sym id_s)
            h.code_build_is_owned;
      retrieval_build_is_owned =
          subst (λ i. (nat_eq b.code_index_build_id i && b.analysis_revision_id == r.id) ≡ true)
            (sym id_c) h.retrieval_build_is_owned;
    }

-- If a retry commits with every stage READY, and the identity of the revision is complete, then the
-- resolver resolves the revision in the state that the retry leaves, to the revision's own builds.
pub retried_revision_is_resolved :
    (h : Hashes) (id : String) (now : ℕ) (db db' : PipelineDb) (r : AnalysisRevision)
    → retry_preparation_once h id now db ≡ ok (r, db')
    → is_ready_stage r.stage ≡ true
    → not (is_incomplete r) ≡ true
    → (s : RepositorySnapshot) × (c : CodeIndexBuild) × (b : RetrievalBuild)
      × (resolve_ready_lineage id db' ≡ ok (lineage_of r s c b, db'))
retried_revision_is_resolved h id now db db' r e ready complete =
    let (old, found, restart) = retry_restarts_first_unfinished h id now db db' r e in
    let last = is_stage_ready r.stage ready in
    let (s, c, b, linked) = subst (λ st. HasWork now st r db') last restart.work in
    let same : r.id ≡ id =
      restart.same_id ∙ key-find (λ (x : AnalysisRevision). x.id) id db.revisions old found in
    let stored : revision_row r.id db' ≡ some r =
      subst (λ i. revision_row i db' ≡ some r) (sym restart.same_id) restart.stored in
    let is_ready : (is_ready_revision r.status && is_ready_stage r.stage) ≡ true =
      and_intro _ _ (ap is_ready_revision (restart.status ∙ ap status_of last)) ready in
    (
      s,
      c,
      b,
      subst (λ i. resolve_ready_lineage i db' ≡ ok (lineage_of r s c b, db')) same
          (chain_is_resolved r s c b db'
            (linked-IsChain r s c b db' stored is_ready complete linked)),
    )
