-- ===== src/Pipeline/Builds/Steps.antt =====
-- internal/analysispipeline/store.go: the tables that each statement of a retry leaves, for bodies
-- that go on from there.
use repolens.Base.{
  ◌≡◌, refl, sym, ◌∙◌, subst, ℕ, String, Bool, true, Option, none, some, List, nat_key, text_key,
  ◌==◌,
}
use repolens.Sql.Result.{◌>>=◌}
use repolens.Sql.Table.{find, update, find-update_self}
use repolens.Sql.Read.{
  Ensures, Ensures-then, Ensures-guard, Ensures-if, Ensures-bind, Ensures-query, Ensures-pure,
}
use repolens.Jobs.Model.{JobType, AnalysisJob}
use repolens.Jobs.Db.{job_key}
use repolens.Pipeline.Model.{
  retrieval_build_row, AnalysisRevision, RepositorySnapshot, CodeIndexBuild, RetrievalBuild,
  PipelineDb, PipelineTx, revision_row, update_revision, update_snapshot, update_code_build,
  update_retrieval_build,
}
use repolens.Pipeline.Store.{Hashes}
use repolens.Pipeline.Builds.{
  reset_job, reset_code_build, reset_retrieval_build, own_code_build, adopt_code_build,
  ensure_code_build_with, ensure_code_build, own_retrieval_build, adopt_retrieval_build,
  ensure_retrieval_build_with, ensure_retrieval_build, current_code_build, current_retrieval_build,
  insert_code_build, insert_retrieval_build,
}
use repolens.Pipeline.Builds.Reset.{HasWaiting, with_jobs, reset_outcome}

module _ {B : Type 0} {Q : B → PipelineDb → Type 0} where
  pub Ensures-reset_job :
      (kind : JobType) (resource : String) (generation now : ℕ) (f : Unit {0} → PipelineTx B)
      (db : PipelineDb)
      → ((t : List AnalysisJob) (next : ℕ)
          → HasWaiting generation now kind resource t
          → Ensures Q (f tt) (record db { jobs = t; next_job_id = next }))
      → Ensures Q (reset_job kind resource generation now >>= f) db
  Ensures-reset_job kind resource generation now f db k =
      let (t, next, e, waiting) = reset_outcome kind resource generation now db in
      Ensures-then (reset_job kind resource generation now) f db (with_jobs db t next) tt e
        (k t next waiting)

  pub Ensures-update_revision :
      (id : String) (c : AnalysisRevision → Bool) (g : AnalysisRevision → AnalysisRevision)
      (f : ℕ → PipelineTx B) (db : PipelineDb) (r : AnalysisRevision)
      → revision_row id db ≡ some r
      → c r ≡ true
      → ((x : AnalysisRevision) → (g x).id ≡ x.id)
      → ((t : List AnalysisRevision)
          → find (λ (x : AnalysisRevision). x.id) id t ≡ some (g r)
          → Ensures Q (f 1) (record db { revisions = t }))
      → Ensures Q (update_revision id c g >>= f) db
  unfolding update_revision
  Ensures-update_revision id c g f db r found meets keeps k =
      let t = update (λ (x : AnalysisRevision). x.id) id c g db.revisions in
      Ensures-then _ f db (record db { revisions = t }) 1 (rw (found, meets) refl)
        (k t (
          find-update_self (λ (x : AnalysisRevision). x.id) id c g db.revisions keeps
          ∙ rw (found, meets) refl))

  pub Ensures-update_retrieval_build :
      (id : ℕ) (c : RetrievalBuild → Bool) (g : RetrievalBuild → RetrievalBuild)
      (f : ℕ → PipelineTx B) (db : PipelineDb) (r : RetrievalBuild)
      → retrieval_build_row id db ≡ some r
      → c r ≡ true
      → ((x : RetrievalBuild) → (g x).id ≡ x.id)
      → ((t : List RetrievalBuild)
          → find (λ (x : RetrievalBuild). x.id) id t ≡ some (g r)
          → Ensures Q (f 1) (record db { retrieval_builds = t }))
      → Ensures Q (update_retrieval_build id c g >>= f) db
  unfolding update_retrieval_build
  Ensures-update_retrieval_build id c g f db r found meets keeps k =
      let t = update (λ (x : RetrievalBuild). x.id) id c g db.retrieval_builds in
      Ensures-then _ f db (record db { retrieval_builds = t }) 1 (rw (found, meets) refl)
        (k t (
          find-update_self (λ (x : RetrievalBuild). x.id) id c g db.retrieval_builds keeps
          ∙ rw (found, meets) refl))

  pub Ensures-update_snapshot :
      (id : String) (c : RepositorySnapshot → Bool) (g : RepositorySnapshot → RepositorySnapshot)
      (f : ℕ → PipelineTx B) (db : PipelineDb)
      → ((n : ℕ) (t : List RepositorySnapshot) → Ensures Q (f n) (record db { snapshots = t }))
      → Ensures Q (update_snapshot id c g >>= f) db
  unfolding update_snapshot
  Ensures-update_snapshot id c g f db k = Ensures-then _ f db _ _ refl (k _ _)

  pub Ensures-reset_code_build :
      (id : ℕ) (f : ℕ → PipelineTx B) (db : PipelineDb)
      → ((n : ℕ) (t : List CodeIndexBuild) → Ensures Q (f n) (record db { code_builds = t }))
      → Ensures Q (reset_code_build id >>= f) db
  unfolding reset_code_build update_code_build
  Ensures-reset_code_build id f db k = Ensures-then _ f db _ _ refl (k _ _)

  pub Ensures-reset_retrieval_build :
      (id : ℕ) (f : ℕ → PipelineTx B) (db : PipelineDb)
      → ((n : ℕ) (t : List RetrievalBuild) → Ensures Q (f n) (record db { retrieval_builds = t }))
      → Ensures Q (reset_retrieval_build id >>= f) db
  unfolding reset_retrieval_build update_retrieval_build
  Ensures-reset_retrieval_build id f db k = Ensures-then _ f db _ _ refl (k _ _)

-- An ensured build changes the table of its kind alone.
abbrev OnlyCodeBuilds : PipelineDb → ℕ → PipelineDb → Type 0
OnlyCodeBuilds db id db' =
    (t : List CodeIndexBuild) × (next : ℕ) × (db'
      ≡ record db { code_builds = t; next_code_build_id = next })

abbrev OnlyRetrievalBuilds : PipelineDb → ℕ → PipelineDb → Type 0
OnlyRetrievalBuilds db id db' =
    (t : List RetrievalBuild) × (next : ℕ) × (db'
      ≡ record db { retrieval_builds = t; next_retrieval_build_id = next })

owned_code_build :
    (revision : String) (b : CodeIndexBuild) (db : PipelineDb)
    → Ensures (OnlyCodeBuilds db) (own_code_build revision b) db
unfolding own_code_build update_code_build ◌>>=◌
owned_code_build revision b db =
    Ensures-if (b.analysis_revision_id == "") _ _ db
      (λ free. record { at = (_, db.next_code_build_id, refl) })
      (λ taken. record { at = (db.code_builds, db.next_code_build_id, refl) })

owned_retrieval_build :
    (revision : String) (b : RetrievalBuild) (db : PipelineDb)
    → Ensures (OnlyRetrievalBuilds db) (own_retrieval_build revision b) db
unfolding own_retrieval_build update_retrieval_build ◌>>=◌
owned_retrieval_build revision b db =
    Ensures-if (b.analysis_revision_id == "") _ _ db
      (λ free. record { at = (_, db.next_retrieval_build_id, refl) })
      (λ taken. record { at = (db.retrieval_builds, db.next_retrieval_build_id, refl) })

ensured_code_build :
    (h : Hashes) (revision snapshot path : String) (now : ℕ) (there : Option CodeIndexBuild)
    (db : PipelineDb)
    → Ensures (OnlyCodeBuilds db) (ensure_code_build_with h revision snapshot path now there) db
unfolding ensure_code_build_with adopt_code_build insert_code_build
ensured_code_build h revision snapshot path now (some b) db = Ensures-guard _ _ _ db λ _.
    Ensures-bind (OnlyCodeBuilds db) _ _ db (owned_code_build revision b db)
      λ id db' only. Ensures-pure b.id db' only
ensured_code_build h revision snapshot path now none db =
    Ensures-query _ _ db (record { at = (_, _, refl) })

ensured_retrieval_build :
    (h : Hashes) (revision : String) (code now : ℕ) (there : Option RetrievalBuild)
    (db : PipelineDb)
    → Ensures (OnlyRetrievalBuilds db) (ensure_retrieval_build_with h revision code now there) db
unfolding ensure_retrieval_build_with adopt_retrieval_build insert_retrieval_build
ensured_retrieval_build h revision code now (some b) db = Ensures-guard _ _ _ db λ _.
    Ensures-bind (OnlyRetrievalBuilds db) _ _ db (owned_retrieval_build revision b db)
      λ id db' only. Ensures-pure b.id db' only
ensured_retrieval_build h revision code now none db =
    Ensures-query _ _ db (record { at = (_, _, refl) })

module _ {B : Type 0} {Q : B → PipelineDb → Type 0} where
  pub Ensures-ensure_code_build :
      (h : Hashes) (revision snapshot path : String) (now : ℕ) (f : ℕ → PipelineTx B)
      (db : PipelineDb)
      → ((id : ℕ) (t : List CodeIndexBuild) (next : ℕ)
          → Ensures Q (f id) (record db { code_builds = t; next_code_build_id = next }))
      → Ensures Q (ensure_code_build h revision snapshot path now >>= f) db
  unfolding ensure_code_build
  Ensures-ensure_code_build h revision snapshot path now f db k =
      Ensures-bind (OnlyCodeBuilds db) _ f db
        (Ensures-query (current_code_build h snapshot) _ db
          (ensured_code_build h revision snapshot path now _ db))
        λ id db' (t, next, e). subst (Ensures Q (f id)) (sym e) (k id t next)

  pub Ensures-ensure_retrieval_build :
      (h : Hashes) (revision : String) (code now : ℕ) (f : ℕ → PipelineTx B) (db : PipelineDb)
      → ((id : ℕ) (t : List RetrievalBuild) (next : ℕ)
          → Ensures Q (f id) (record db { retrieval_builds = t; next_retrieval_build_id = next }))
      → Ensures Q (ensure_retrieval_build h revision code now >>= f) db
  unfolding ensure_retrieval_build
  Ensures-ensure_retrieval_build h revision code now f db k =
      Ensures-bind (OnlyRetrievalBuilds db) _ f db
        (Ensures-query (current_retrieval_build h code) _ db
          (ensured_retrieval_build h revision code now _ db))
        λ id db' (t, next, e). subst (Ensures Q (f id)) (sym e) (k id t next)
