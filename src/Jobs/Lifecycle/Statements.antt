-- ===== src/Jobs/Lifecycle/Statements.antt =====
-- How each statement moves the rows of analysis_jobs, and how a body made of such statements does.
use repolens.Base.{
  sym, ap, ◌∙◌, ◌==◌, Bool-cases, inl, inr, not_both, String, ◌≡◌, refl, Bool, true, false, ℕ, List,
  Option, none, some, nat_key, if◌then◌else◌,
}
use repolens.Sql.Result.{pure, fail, query, guard, ◌>>=◌}
use repolens.Sql.Table.{Rows-update, Rows-update_found, find-update_ne}
use repolens.Sql.Moves.{
  Outcome, Moves, Moves-pure, Moves-query, Moves-fail, Moves-if, Moves-Option, Moves-guard,
  Moves-bind,
}
use repolens.Jobs.Model.{JobType, materialize_snapshot, AnalysisJob, StoreError}
use repolens.Jobs.Db.{
  Db, StoreTx, Resource, DiagnosisRun, DiagnosisAttempt, AnalysisRevision, job_key, job_row, key_of,
  set_resource_table, scan, scan_row, update_job, update_job_by_resource, update_run,
  update_attempt, update_revision, update_resource, statements,
}
use repolens.Jobs.Business.{update_attempts}
use repolens.Jobs.Lifecycle.{Step}
use repolens.Jobs.Lifecycle.Rows.{JobsMove, silent, JobsMove-preorder, Step-refl}

-- The scope of a body that may write every row.
abbrev pub everywhere : ℕ → Bool
everywhere k = true

out_of_scope : (scope : ℕ → Bool) (id k : ℕ) → scope id ≡ true → scope k ≡ false → (id == k) ≡ false
out_of_scope scope id k own out = elim (Bool-cases (id == k)) [
  | inl hit ↦ elim (not_both (sym (ap scope ((nat_key.same_iff id k).0 hit)) ∙ own) out) [ ]
  | inr miss ↦ miss
]

module _ {scope : ℕ → Bool} {A : Type 0} where
  pub move_pure : (a : A) → Moves {E = StoreError} (JobsMove scope) (pure a)
  move_pure a = Moves-pure JobsMove-preorder a

  pub move_query : (f : Db → A) → Moves {E = StoreError} (JobsMove scope) (query f)
  move_query f = Moves-query JobsMove-preorder f

  pub move_fail : (e : StoreError) → Moves {A = A} (JobsMove scope) (fail e)
  move_fail e = Moves-fail e

  pub move_if :
      (b : Bool) {m n : StoreTx A}
      → Moves (JobsMove scope) m
      → Moves (JobsMove scope) n
      → Moves (JobsMove scope) (if b then m else n)
  move_if b h k = Moves-if b _ _ h k

  pub move_Option :
      {X : Type 0} (x : Option X) {m : StoreTx A} {f : X → StoreTx A}
      → Moves (JobsMove scope) m
      → ((a : X) → Moves (JobsMove scope) (f a))
      → Moves (JobsMove scope) (elim x [ none ↦ m | some a ↦ f a ])
  move_Option x {m} {f} h k = Moves-Option x m f h k

pub move_guard : {scope : ℕ → Bool} (b : Bool) (e : StoreError) → Moves (JobsMove scope) (guard b e)
move_guard b e = Moves-guard JobsMove-preorder b e

pub move_bind :
    {scope : ℕ → Bool} {A B : Type 0} {m : StoreTx A} {f : A → StoreTx B}
    → Moves (JobsMove scope) m
    → ((a : A) → Moves (JobsMove scope) (f a))
    → Moves (JobsMove scope) (m >>= f)
move_bind {m} {f} h k = Moves-bind JobsMove-preorder m f h k

-- An UPDATE by id, with what is known of the row that it meets.
pub update_job-Outcome :
    (scope : ℕ → Bool) (id : ℕ) (c : AnalysisJob → Bool) (f : AnalysisJob → AnalysisJob) (db : Db)
    → scope id ≡ true
    → ((j : AnalysisJob) → j.id ≡ (f j).id)
    → ((j : AnalysisJob) → job_row id db ≡ some j → c j ≡ true → Step j (f j))
    → Outcome (JobsMove scope) db (update_job id c f db)
unfolding statements
update_job-Outcome scope id c f db own keeps h = record {
  rows = Rows-update_found (λ (j : AnalysisJob). j.id) Step id c f db.jobs Step-refl h;
  next = refl;
  others = λ k out.
      find-update_ne (λ (j : AnalysisJob). j.id) id k c f db.jobs (λ j. sym (keeps j))
        (out_of_scope scope id k own out);
}

pub move_job :
    {scope : ℕ → Bool} (id : ℕ) (c : AnalysisJob → Bool) (f : AnalysisJob → AnalysisJob)
    → scope id ≡ true
    → ((j : AnalysisJob) → j.id ≡ (f j).id)
    → ((j : AnalysisJob) → c j ≡ true → Step j (f j))
    → Moves (JobsMove scope) (update_job id c f)
move_job id c f own keeps h = record {
  at = λ db. update_job-Outcome _ id c f db own keeps (λ j e. h j);
}

pub move_job_by_resource :
    (kind : JobType) (resource : String) (c : AnalysisJob → Bool) (f : AnalysisJob → AnalysisJob)
    → ((j : AnalysisJob) → j.job_type ≡ kind → c j ≡ true → Step j (f j))
    → Moves (JobsMove everywhere) (update_job_by_resource kind resource c f)
unfolding statements
move_job_by_resource kind resource c f h = record {
  at = λ db. record {
    rows =
        Rows-update key_of Step (kind, resource) c f db.jobs Step-refl (λ j e. h j (λ i. (e i).0));
    next = refl;
    others = λ k out. elim (not_both refl out) [ ];
  };
}

pub move_run :
    {scope : ℕ → Bool} (id : String) (c : DiagnosisRun → Bool) (f : DiagnosisRun → DiagnosisRun)
    → Moves (JobsMove scope) (update_run id c f)
unfolding statements
move_run id c f = record { at = λ db. silent db _ refl refl }

pub move_attempt :
    {scope : ℕ → Bool} (id : String) (c : DiagnosisAttempt → Bool)
    (f : DiagnosisAttempt → DiagnosisAttempt)
    → Moves (JobsMove scope) (update_attempt id c f)
unfolding statements
move_attempt id c f = record { at = λ db. silent db _ refl refl }

pub move_revision :
    {scope : ℕ → Bool} (id : String) (c : AnalysisRevision → Bool)
    (f : AnalysisRevision → AnalysisRevision)
    → Moves (JobsMove scope) (update_revision id c f)
unfolding statements
move_revision id c f = record { at = λ db. silent db _ refl refl }

pub move_attempts :
    {scope : ℕ → Bool} (c : DiagnosisAttempt → Bool) (f : DiagnosisAttempt → DiagnosisAttempt)
    → Moves (JobsMove scope) (update_attempts c f)
unfolding update_attempts
move_attempts c f = record { at = λ db. silent db _ refl refl }

jobs-set_resource_table :
    (kind : JobType) (db : Db) (t : List Resource) → (set_resource_table kind db t).jobs ≡ db.jobs
jobs-set_resource_table materialize_snapshot db t = refl
jobs-set_resource_table _ db t = refl

next-set_resource_table :
    (kind : JobType) (db : Db) (t : List Resource)
    → (set_resource_table kind db t).next_job_id ≡ db.next_job_id
next-set_resource_table materialize_snapshot db t = refl
next-set_resource_table _ db t = refl

pub move_resource :
    {scope : ℕ → Bool} (kind : JobType) (id : String) (c : Resource → Bool)
    (f : Resource → Resource)
    → Moves (JobsMove scope) (update_resource kind id c f)
unfolding statements
move_resource kind id c f = record {
  at = λ db. silent db _ (jobs-set_resource_table kind db _) (next-set_resource_table kind db _);
}

scan_moves :
    (scope : ℕ → Bool) {A : Type 0} (x : Option A) (db : Db)
    → Outcome (JobsMove scope) db (scan_row x db)
unfolding statements
scan_moves scope none db = tt
scan_moves scope (some a) db = silent db db refl refl

pub move_scan :
    {scope : ℕ → Bool} {A : Type 0} (f : Db → Option A) → Moves (JobsMove scope) (scan f)
unfolding statements
move_scan f = record { at = λ db. scan_moves _ (f db) db }

-- What follows a guard may use that it passed.
pub move_guarded :
    {scope : ℕ → Bool} {A : Type 0} (b : Bool) (e : StoreError) (m : StoreTx A)
    → (b ≡ true → Moves (JobsMove scope) m)
    → Moves (JobsMove scope) (guard b e >>= λ _. m)
unfolding ◌>>=◌
move_guarded true e m h = record { at = (h refl).at }
move_guarded false e m h = record { at = λ db. tt }
