-- ===== src/Pipeline/Finalize/Owned.antt =====
-- internal/codeintel/store/store.go, requireOwnedJob and finalizeOwnedJob, with which every finalizer
-- of the pipeline begins and ends.
use repolens.Base.{
  ◌≡◌, refl, ◌∙◌, ℕ, String, Bool, true, Option, none, some, List, nat_eq, nat_key, arith,
}
use repolens.Sql.Table.{Rows, Rows-update, find, update, count_row, find-update_self}
use repolens.Sql.Read.{
  Ensures, Ensures-pure, Ensures-then, Ensures-read, Ensures-guard, Ensures-last_guard,
}
use repolens.Jobs.Model.{AnalysisJob, succeeded}
use repolens.Jobs.Db.{key_of}
use repolens.Pipeline.Model.{PipelineDb, job_by_id, update_pipeline_job}
use repolens.Pipeline.Finalize.{owns_job, require_owned_job, finalize_owned_job}

-- A statement that affects one row has found it, and met its condition.
pub affects_one :
    {R : Type 0} (c : R → Bool) (o : Option R)
    → nat_eq (count_row c o) 1 ≡ true
    → (r : R) × (o ≡ some r) × (c r ≡ true)
affects_one c none h = ground arith
affects_one c (some r) h = (r, refl, ground arith)

-- The job of a finalizer that commits is SUCCEEDED; every job has kept its resource, and no other
-- table has changed.
abbrev pub KeepsKey : AnalysisJob → AnalysisJob → Type 0
KeepsKey j k = key_of k ≡ key_of j

abbrev pub Completed : ℕ → PipelineDb → Unit {0} → PipelineDb → Type 0
Completed id db done db' =
    (t : List AnalysisJob) × (db' ≡ record db { jobs = t })
    × (j : AnalysisJob) × (find (λ (x : AnalysisJob). x.id) id t ≡ some j)
    × (j.status ≡ succeeded)
    × Rows KeepsKey db.jobs t

pub required :
    (id : ℕ) (worker token : String) (db : PipelineDb)
    → Ensures (λ j db'. db' ≡ db) (require_owned_job id worker token) db
unfolding require_owned_job
required id worker token db =
    Ensures-read (job_by_id id) _ _ db
      λ j found. Ensures-guard _ _ _ db λ owned. Ensures-pure j db refl

pub completed :
    (id : ℕ) (worker token : String) (now : ℕ) (db : PipelineDb)
    → Ensures (Completed id db) (finalize_owned_job id worker token now) db
unfolding finalize_owned_job update_pipeline_job
completed id worker token now db =
    let c = owns_job worker token in
    let f : AnalysisJob → AnalysisJob =
      λ j. record j { status = succeeded; finished_at = some now; updated_at = now } in
    let t = update (λ (x : AnalysisJob). x.id) id c f db.jobs in
    Ensures-then _ _ db (record db { jobs = t }) (count_row c (job_by_id id db)) refl
      (Ensures-last_guard _ _ _ λ one.
        let (j, found, owned) = affects_one c (job_by_id id db) one in
        (
          t,
          refl,
          f j,
          find-update_self (λ (x : AnalysisJob). x.id) id c f db.jobs (λ x. refl)
              ∙ rw (found, owned) refl,
          refl,
          Rows-update (λ (x : AnalysisJob). x.id) KeepsKey id c f db.jobs (λ x. refl)
              (λ x at meets. refl),
        ))
