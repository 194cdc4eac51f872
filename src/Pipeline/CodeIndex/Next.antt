-- ===== src/Pipeline/CodeIndex/Next.antt =====
-- internal/codeintel/store/store.go, FinalizeCodeIndexSuccessWithRevision: the retrieval build of a
-- finished code index and its job.
use repolens.Base.{
  ◌≡◌, refl, ap, ◌∙◌, subst, ℕ, String, true, ◌&&◌, ◌||◌, Option, none, some, List, nat_eq,
  nat_eq_iff, nat_key, text_key, ◌==◌, eq_iff, and_left, and_right,
}
use repolens.Sql.Table.{find, update, find-update_self, find-append_new, key-find, find-found}
use repolens.Sql.Read.{
  Ensures, Ensures-pure, Ensures-if, Ensures-bind, Ensures-query, Ensures-read, Ensures-guard,
  Ensures-run,
}
use repolens.Jobs.Model.{AnalysisJob, JobType}
use repolens.Jobs.Db.{key_of, job_key}
use repolens.Pipeline.Model.{
  RetrievalBuild, PipelineDb, retrieval_build_row, pipeline_job, update_retrieval_build,
}
use repolens.Pipeline.Store.{Hashes, create_job_gorm, insert_new_job, pipeline_new_job}
use repolens.Pipeline.Builds.{current_retrieval_build, new_retrieval_build, insert_retrieval_build}
use repolens.Pipeline.Finalize.{ensure_job}
use repolens.Pipeline.CodeIndex.{
  create_retrieval_build, take_retrieval_build, check_retrieval_build, next_retrieval_build,
}

-- The retrieval build of a code index, which belongs to the revision.
abbrev pub IsNextBuild : String → ℕ → ℕ → List RetrievalBuild → Type 0
IsNextBuild revision code id t =
    (b : RetrievalBuild) × (find (λ (x : RetrievalBuild). x.id) id t ≡ some b)
    × (b.code_index_build_id ≡ code)
    × (b.analysis_revision_id ≡ revision)

-- Only the retrieval builds have changed.
abbrev pub NextBuild : String → ℕ → PipelineDb → ℕ → PipelineDb → Type 0
NextBuild revision code db id db' =
    (t : List RetrievalBuild) × (next : ℕ) × (db'
      ≡ record db { retrieval_builds = t; next_retrieval_build_id = next })
    × IsNextBuild revision code id t

module _ (h : Hashes) (revision : String) (code now : ℕ) (db : PipelineDb) where
  -- AUTO_INCREMENT gives a number that no row has.
  pub creates :
      retrieval_build_row db.next_retrieval_build_id db ≡ none
      → Ensures (NextBuild revision code db) (create_retrieval_build h revision code now) db
  unfolding create_retrieval_build insert_retrieval_build
  creates fresh = Ensures-query (current_retrieval_build h code) _ db (
      Ensures-guard _ _ _ db λ absent. Ensures-query _ _ db (record {
        at =
            let new = new_retrieval_build db.next_retrieval_build_id h revision code now in
            (
              _,
              _,
              refl,
              (
                new,
                find-append_new (λ (x : RetrievalBuild). x.id) db.next_retrieval_build_id
                    db.retrieval_builds new fresh refl,
                refl,
                refl,
              ),
            );
      }))

  pub takes :
      (b : RetrievalBuild)
      → retrieval_build_row b.id db ≡ some b
      → (nat_eq b.code_index_build_id code
          && (b.analysis_revision_id == "" || b.analysis_revision_id == revision))
        ≡ true
      → Ensures (λ _ db'. NextBuild revision code db b.id db') (take_retrieval_build revision b) db
  unfolding take_retrieval_build update_retrieval_build
  takes b found owned =
      let same : b.code_index_build_id ≡ code =
        (nat_eq_iff b.code_index_build_id code).0 (and_left _ _ owned) in
      Ensures-if (b.analysis_revision_id == "") _ _ db
        (λ free. Ensures-run _ db _ _ refl (
          update (λ (x : RetrievalBuild). x.id) b.id (λ _. true)
              (λ x. record x { analysis_revision_id = revision }) db.retrieval_builds,
          db.next_retrieval_build_id,
          refl,
          (
            record b { analysis_revision_id = revision },
            find-update_self (λ (x : RetrievalBuild). x.id) b.id (λ _. true)
                  (λ x. record x { analysis_revision_id = revision }) db.retrieval_builds
                  (λ x. refl)
                ∙ rw found refl,
            same,
            refl,
          ),
        ))
        λ taken. Ensures-pure 0 db (
          db.retrieval_builds,
          db.next_retrieval_build_id,
          refl,
          (
            b,
            found,
            same,
            (eq_iff b.analysis_revision_id revision).0 (
                subst (λ x. (x || b.analysis_revision_id == revision) ≡ true) taken
                  (and_right (nat_eq b.code_index_build_id code) _ owned)),
          ),
        )

  pub checks :
      (id : ℕ) → Ensures (NextBuild revision code db) (check_retrieval_build revision code id) db
  unfolding check_retrieval_build
  checks id = Ensures-read (retrieval_build_row id) _ _ db λ b found.
      Ensures-guard _ _ _ db λ owned.
        Ensures-bind (λ _ db'. NextBuild revision code db id db') _ _ db
          (subst
            (λ i.
              Ensures (λ _ db'. NextBuild revision code db i db') (take_retrieval_build revision b)
                db)
            (key-find (λ (x : RetrievalBuild). x.id) id db.retrieval_builds b found)
            (takes b (find-found (λ (x : RetrievalBuild). x.id) id db.retrieval_builds b found)
              owned))
          λ n db' next. Ensures-pure id db' next

  pub hands_on :
      (there : ℕ)
      → retrieval_build_row db.next_retrieval_build_id db ≡ none
      → Ensures (NextBuild revision code db) (next_retrieval_build h revision code now there) db
  unfolding next_retrieval_build
  hands_on there fresh =
      Ensures-if (nat_eq there 0) _ _ db (λ absent. creates fresh) λ present. checks there

-- The job of a resource: there was one, or there is one now.
abbrev pub HasJob : JobType → String → PipelineDb → Unit {0} → PipelineDb → Type 0
HasJob kind resource db done db' =
    (t : List AnalysisJob) × (next : ℕ) × (db' ≡ record db { jobs = t; next_job_id = next })
    × (j : AnalysisJob) × (find key_of (kind, resource) t ≡ some j)

pub job_is_there :
    (kind : JobType) (resource : String) (generation now : ℕ) (db : PipelineDb)
    (o : Option AnalysisJob)
    → pipeline_job kind resource db ≡ o
    → Ensures (HasJob kind resource db) (ensure_job kind resource generation now o) db
unfolding ensure_job create_job_gorm insert_new_job
job_is_there kind resource generation now db none absent =
    let new = pipeline_new_job db.next_job_id kind resource generation now in
    Ensures-run (ensure_job kind resource generation now none) db _ tt
      (ap (λ o. insert_new_job new o db) absent)
      (_, _, refl, new, find-append_new key_of (kind, resource) db.jobs new absent refl)
job_is_there kind resource generation now db (some j) found =
    Ensures-pure tt db (db.jobs, db.next_job_id, refl, j, found)
