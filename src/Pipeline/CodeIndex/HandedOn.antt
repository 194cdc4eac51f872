-- ===== src/Pipeline/CodeIndex/HandedOn.antt =====
-- internal/codeintel/store/store.go, FinalizeCodeIndexSuccessWithRevision: how a finished code index is
-- handed on to the retrieval stage.
use repolens.Base.{
  ◌≡◌, refl, sym, subst, ℕ, ◌+◌, String, true, none, some, All, nat_eq, nat_key, text_key,
}
use repolens.Sql.Result.{ok, query, guard, ◌>>=◌}
use repolens.Sql.Table.{find, find-Rows}
use repolens.Sql.Read.{
  Ensures, Ensures-ok, Ensures-then, Ensures-bind, Ensures-query, Ensures-read, Ensures-guard,
  Ensures-weaken, read_found,
}
use repolens.Jobs.Model.{AnalysisJob, build_retrieval, succeeded}
use repolens.Jobs.Db.{key_of, job_key}
use repolens.Pipeline.Model.{
  AnalysisRevision, stage_building_search, CodeIndexBuild, build_ready, PipelineDb, revision_row,
  code_build_row, retrieval_build_row, job_by_id, pipeline_job, decimal, lineage, update_revision,
}
use repolens.Pipeline.Store.{Hashes}
use repolens.Pipeline.Builds.Steps.{Ensures-update_revision}
use repolens.Pipeline.Symbols.{AnalysisResult}
use repolens.Pipeline.Symbols.Linked.{IsUnlinked}
use repolens.Pipeline.Symbols.Commit.{saved}
use repolens.Pipeline.Finalize.{ensure_job, finalize_owned_job}
use repolens.Pipeline.Finalize.Owned.{Completed, KeepsKey, required, completed}
use repolens.Pipeline.CodeIndex.{
  is_built_by, next_retrieval_build, search_stage_row, finalize_code_index_success_with_revision,
}
use repolens.Pipeline.CodeIndex.Next.{IsNextBuild, hands_on, job_is_there}

-- What the finalizer of a code index leaves: the build READY, the revision one stage further with a
-- retrieval build of this code index, a job for that build, and its own job done.
pub record IsHandedOn (job build : ℕ) (r : AnalysisRevision) (db' : PipelineDb) : Type 0 where
  pub retrieval : ℕ
  pub advanced : AnalysisRevision
  pub code_build :
      (c : CodeIndexBuild) × (code_build_row build db' ≡ some c) × (c.status ≡ build_ready)
  pub stored : revision_row r.id db' ≡ some advanced
  pub next_stage : advanced.stage ≡ stage_building_search
  pub next_version : advanced.version ≡ r.version + 1
  pub names_build : advanced.retrieval_build_id ≡ retrieval
  pub build_found : IsNextBuild r.id build retrieval db'.retrieval_builds
  pub has_job : (j : AnalysisJob) × (pipeline_job build_retrieval (decimal retrieval) db' ≡ some j)
  pub own_job : (j : AnalysisJob) × (job_by_id job db' ≡ some j) × (j.status ≡ succeeded)

module _ (h : Hashes) (job build : ℕ) (worker token : String) (res : AnalysisResult) (now : ℕ)
    (r : AnalysisRevision) where
  -- After the result is saved.
  module _ (db1 : PipelineDb) (found : revision_row r.id db1 ≡ some r)
      (indexed : is_built_by build r ≡ true)
      (fresh : retrieval_build_row db1.next_retrieval_build_id db1 ≡ none)
      (built : (c : CodeIndexBuild) × (code_build_row build db1 ≡ some c)
        × (c.status ≡ build_ready)) where
    hands_over :
        Ensures
          (λ _ db'. IsHandedOn job build r db')
          (next_retrieval_build h r.id build now r.retrieval_build_id >>= λ id.
            query (pipeline_job build_retrieval (decimal id)) >>= λ waiting.
            ensure_job build_retrieval (decimal id) r.execution_generation now waiting >>= λ _.
            update_revision r.id (is_built_by build) (search_stage_row id now) >>= λ advanced.
            guard (nat_eq advanced 1) lineage >>= λ _. finalize_owned_job job worker token now)
          db1
    hands_over =
        Ensures-bind _ _ _ db1 (hands_on h r.id build now db1 r.retrieval_build_id fresh)
          λ id db2 (builds, next, same2, next_build).
            subst (Ensures (λ _ db'. IsHandedOn job build r db') _) (sym same2) (
              Ensures-query _ _ _ (
                Ensures-bind _ _ _ _
                  (job_is_there build_retrieval (decimal id) r.execution_generation now _ _ refl)
                  λ _ db3 (jobs, next_job, same3, j, found_j).
                    subst (Ensures (λ _ db'. IsHandedOn job build r db') _) (sym same3) (
                      Ensures-update_revision r.id _ _ _ _ r found indexed (λ x. refl)
                        λ revisions found_r. Ensures-guard _ _ _ _ λ _.
                          Ensures-weaken (Completed job _) _ _
                            (λ _ db' (jobs', same, own, found_own, done, kept).
                              let (k, found_k, key) =
                                find-Rows key_of KeepsKey (λ a b e. e) (build_retrieval, decimal id)
                                  jobs jobs' j kept found_j in
                              subst (λ x. IsHandedOn job build r x) (sym same)
                                (record {
                                  retrieval = id;
                                  advanced = search_stage_row id now r;
                                  code_build = built;
                                  stored = found_r;
                                  next_stage = refl;
                                  next_version = refl;
                                  names_build = refl;
                                  build_found = next_build;
                                  has_job = (k, found_k);
                                  own_job = (own, found_own, done);
                                }))
                            (completed job worker token now _))))

  finalizes :
      (db : PipelineDb)
      → All IsUnlinked res.relations
      → revision_row r.id db ≡ some r
      → retrieval_build_row db.next_retrieval_build_id db ≡ none
      → Ensures
          (λ _ db'. IsHandedOn job build r db')
          (finalize_code_index_success_with_revision h job worker token build r.id res now)
          db
  unfolding finalize_code_index_success_with_revision
  finalizes db unlinked found fresh =
      Ensures-bind _ _ _ db (required job worker token db) λ _ db0 same0.
        subst (Ensures (λ _ db'. IsHandedOn job build r db') _) (sym same0) (
          Ensures-then _ _ db db r (read_found (revision_row r.id) _ db r found) (
            Ensures-guard (is_built_by build r) _ _ db λ indexed.
              Ensures-read (code_build_row build) _ _ db λ c found_c.
                Ensures-guard _ _ _ db λ owned.
                  Ensures-bind _ _ _ db (saved build res now db unlinked) λ _ db1 is.
                    let (b, found_b, ready, count) = is.built in
                    let fresh1 : retrieval_build_row db1.next_retrieval_build_id db1 ≡ none =
                      rw (is.same_retrieval_builds, is.same_next_retrieval) fresh in
                    let found1 : revision_row r.id db1 ≡ some r =
                      subst (λ t. find (λ (x : AnalysisRevision). x.id) r.id t ≡ some r)
                        (sym is.same_revisions) found in
                    hands_over db1 found1 indexed fresh1 (b, found_b, ready)))

-- Let the next number of AUTO_INCREMENT be unused, and the relations of a result have no ids yet. If
-- the finalizer of a code index commits for a revision, then the build is READY, the revision is at
-- the retrieval stage in its next version, its retrieval build is there and is of this code index and
-- this revision, there is a job for that build, and the job of the call is SUCCEEDED.
pub finalized_code_index-IsHandedOn :
    (h : Hashes) (job build : ℕ) (worker token : String) (res : AnalysisResult) (now : ℕ)
    (r : AnalysisRevision) (db db' : PipelineDb)
    → All IsUnlinked res.relations
    → revision_row r.id db ≡ some r
    → retrieval_build_row db.next_retrieval_build_id db ≡ none
    → finalize_code_index_success_with_revision h job worker token build r.id res now db
      ≡ ok (tt, db')
    → IsHandedOn job build r db'
finalized_code_index-IsHandedOn h job build worker token res now r db db' unlinked found fresh e =
    Ensures-ok (finalizes h job build worker token res now r db unlinked found fresh) e
