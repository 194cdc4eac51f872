-- ===== src/Pipeline/Finalize/Published.antt =====
-- internal/codeintel/store/store.go, FinalizeRetrievalSuccessWithRevision: the last finalizer of the
-- pipeline, and the revision that it makes READY as the resolver sees it.
use repolens.Base.{
  ◌≡◌, refl, sym, subst, ℕ, String, true, not, ◌&&◌, ◌||◌, some, List, nat_eq, nat_key, text_key,
  ◌==◌, and_left, and_right, and_intro, nat_eq_iff,
}
use repolens.Sql.Result.{ok}
use repolens.Sql.Table.{find, key-find}
use repolens.Sql.Read.{
  Ensures, Ensures-ok, Ensures-fail, Ensures-if, Ensures-then, Ensures-bind, Ensures-read,
  Ensures-guard, read_found, Ensures-weaken,
}
use repolens.Jobs.Model.{AnalysisJob, succeeded}
use repolens.Pipeline.Model.{
  AnalysisRevision, RepositorySnapshot, CodeIndexBuild, RetrievalBuild, PipelineDb,
  is_ready_snapshot, is_ready_build, revision_row, snapshot_row, code_build_row,
  retrieval_build_row, job_by_id,
}
use repolens.Pipeline.Resolver.{is_incomplete, snapshot_matches, lineage_of, resolve_ready_lineage}
use repolens.Pipeline.Resolver.Chain.{IsChain, chain_is_resolved}
use repolens.Pipeline.Finalize.{
  artifact_row, is_indexed_by, ready_revision_row, finalize_retrieval_success_with_revision,
}
use repolens.Pipeline.Builds.Steps.{Ensures-update_revision, Ensures-update_retrieval_build}
use repolens.Pipeline.Finalize.Owned.{Completed, required, completed}

-- What the last finalizer leaves: a lineage for the revision, and its own job done.
abbrev pub IsPublished :
    ℕ → AnalysisRevision → RepositorySnapshot → ℕ → Unit {0} → PipelineDb → Type 0
IsPublished job r s build done db' =
    (c : CodeIndexBuild) × (b : RetrievalBuild) × (resolve_ready_lineage r.id db'
      ≡ ok (lineage_of r s c b, db'))
    × (b.id ≡ build)
    × (j : AnalysisJob) × (job_by_id job db' ≡ some j)
    × (j.status ≡ succeeded)

module _ (r : AnalysisRevision) (s : RepositorySnapshot) (db : PipelineDb)
    (complete : not (is_incomplete r) ≡ true) (found_r : revision_row r.id db ≡ some r)
    (found_s : snapshot_row r.snapshot_id db ≡ some s) (ready_s : is_ready_snapshot s.status ≡ true)
    (owned_s : snapshot_matches r s ≡ true) where
  -- The rows after both updates.
  module _ (now : ℕ) (c : CodeIndexBuild) (b : RetrievalBuild)
      (found_c : code_build_row r.code_index_build_id db ≡ some c)
      (owned_c : (c.analysis_revision_id == r.id
          && c.snapshot_id == r.snapshot_id
          && is_ready_build c.status)
        ≡ true)
      (owned_b : (b.analysis_revision_id == r.id
          && nat_eq b.code_index_build_id r.code_index_build_id)
        ≡ true)
      (ready_b : is_ready_build b.status ≡ true) (retrieval_builds : List RetrievalBuild)
      (revisions : List AnalysisRevision) (jobs : List AnalysisJob)
      (found_b : find (λ (x : RetrievalBuild). x.id) r.retrieval_build_id retrieval_builds ≡ some b)
      (found_r' : find (λ (x : AnalysisRevision). x.id) r.id revisions
        ≡ some (ready_revision_row now r)) where
    published-IsChain :
        IsChain
          (ready_revision_row now r)
          s
          c
          b
          (record db { retrieval_builds = retrieval_builds; revisions = revisions; jobs = jobs })
    published-IsChain =
        let id_s : s.id ≡ r.snapshot_id =
          key-find (λ (x : RepositorySnapshot). x.id) r.snapshot_id db.snapshots s found_s in
        let id_c : c.id ≡ r.code_index_build_id =
          key-find (λ (x : CodeIndexBuild). x.id) r.code_index_build_id db.code_builds c found_c in
        let both = and_left _ _ owned_c in
        record {
          revision_found = found_r';
          snapshot_found = found_s;
          code_build_found = found_c;
          retrieval_build_found = found_b;
          is_ready = refl;
          is_complete = complete;
          snapshot_is_ready = ready_s;
          code_build_is_ready = and_right _ _ owned_c;
          retrieval_build_is_ready = ready_b;
          snapshot_is_owned = owned_s;
          code_build_is_owned =
              and_intro _ _
                (subst (λ i. (c.snapshot_id == i) ≡ true) (sym id_s) (and_right _ _ both))
                (and_left _ _ both);
          retrieval_build_is_owned =
              and_intro _ _
                (subst (λ i. nat_eq b.code_index_build_id i ≡ true) (sym id_c)
                  (and_right _ _ owned_b))
                (and_left _ _ owned_b);
        }

  module _ (job build : ℕ) (worker token path hash : String) (documents now : ℕ) where
    publishes :
        Ensures
          (IsPublished job r s build)
          (finalize_retrieval_success_with_revision job worker token build r.id path hash documents
            now)
          db
    unfolding finalize_retrieval_success_with_revision
    publishes =
        Ensures-if (path == "" || hash == "") _ _ db (λ missing. Ensures-fail _ db)
          λ there. Ensures-bind _ _ _ db (required job worker token db) λ _ db0 same0.
            subst (Ensures (IsPublished job r s build) _) (sym same0) (
              Ensures-then _ _ db db r (read_found (revision_row r.id) _ db r found_r) (
                Ensures-guard (is_indexed_by build r) _ _ db λ indexed.
                  Ensures-read (retrieval_build_row build) _ _ db λ b found_b.
                    Ensures-guard _ _ _ db λ owned_b.
                      Ensures-read (code_build_row r.code_index_build_id) _ _ db λ c found_c.
                        Ensures-guard _ _ _ db λ owned_c.
                          Ensures-update_retrieval_build build _ _ _ db b found_b
                            (and_right _ _ owned_b) (λ x. refl)
                            λ retrieval_builds found_b'. Ensures-guard _ _ _ _ λ _.
                              Ensures-update_revision r.id _ _ _ _ r found_r indexed (λ x. refl)
                                λ revisions found_r'. Ensures-guard _ _ _ _ λ _.
                                  Ensures-weaken
                                    (Completed job (record db {
                                      retrieval_builds = retrieval_builds;
                                      revisions = revisions;
                                    }))
                                    _ _
                                    (λ _ db' (jobs, same, j, found_j, done, kept).
                                      let b' = artifact_row path hash documents now b in
                                      let at : r.retrieval_build_id ≡ build =
                                        (nat_eq_iff r.retrieval_build_id build).0
                                          (and_right _ _ indexed) in
                                      let chain =
                                        published-IsChain now c b' found_c owned_c
                                          (and_left _ _ owned_b) refl retrieval_builds revisions
                                          jobs
                                          (subst
                                            (λ i.
                                              find (λ (x : RetrievalBuild). x.id) i retrieval_builds
                                              ≡ some b')
                                            (sym at) found_b')
                                          found_r' in
                                      subst (IsPublished job r s build tt) (sym same) (
                                        c,
                                        b',
                                        chain_is_resolved (ready_revision_row now r) s c b'
                                            (record db {
                                              retrieval_builds = retrieval_builds;
                                              revisions = revisions;
                                              jobs = jobs;
                                            })
                                            chain,
                                        key-find (λ (x : RetrievalBuild). x.id) build
                                            db.retrieval_builds b found_b,
                                        j,
                                        found_j,
                                        done,
                                      ))
                                    (completed job worker token now _)))

-- Let a revision have a complete identity and a snapshot of its own that is READY. If the last
-- finalizer commits for it, then the resolver resolves it in the new state, to its own snapshot and
-- to the retrieval build of the call, and the job of the call is SUCCEEDED.
pub finalized_revision_is_resolved :
    (job build : ℕ) (worker token path hash : String) (documents now : ℕ) (r : AnalysisRevision)
    (s : RepositorySnapshot) (db db' : PipelineDb)
    → not (is_incomplete r) ≡ true
    → revision_row r.id db ≡ some r
    → snapshot_row r.snapshot_id db ≡ some s
    → is_ready_snapshot s.status ≡ true
    → snapshot_matches r s ≡ true
    → finalize_retrieval_success_with_revision job worker token build r.id path hash documents now
        db
      ≡ ok (tt, db')
    → IsPublished job r s build tt db'
finalized_revision_is_resolved job build worker token path hash documents now r s db db' complete
      found_r found_s ready_s owned_s e =
    Ensures-ok
      (publishes r s db complete found_r found_s ready_s owned_s job build worker token path hash
        documents now)
      e
