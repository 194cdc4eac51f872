-- ===== src/Jobs/Requeue/Outcome.antt =====
-- What a manual requeue makes of a job (internal/jobs/store.go, ManualRequeueTx).
use repolens.Base.{
  ◌⊎◌, List, ℕ, String, ◌≡◌, refl, ◌∙◌, ◌&&◌, not, nat_eq, Bool, true, false, Option, none, some,
  arith, text_key, if◌then◌else◌, Bool-cases, inl, inr,
}
use repolens.Sql.Result.{ok, err, pure, guard, bind_ok, ◌>>=◌}
use repolens.Sql.Table.{find, count_row, map_row, when_row, update, find-update_self}
use repolens.Jobs.Model.{
  JobType, materialize_snapshot, build_code_index, build_retrieval, run_diagnosis, other,
  AnalysisJob, cannot_requeue, is_failed, is_exhausted,
}
use repolens.Jobs.Db.{
  Db, StoreTx, Resource, DiagnosisRun, job_key, key_of, job_by_resource, resource_row,
  resource_table, run_row, set_jobs, set_resource_table, update_job_by_resource, statements,
}
use repolens.Jobs.Rows.{IsRequeued}
use repolens.Jobs.Business.{is_resource_failed, is_failed_run}
use repolens.Jobs.Requeue.{
  requeue_row, restore_resource_row, restore_run_row, refuse_existing, restore_resource,
  restore_business, manual_requeue,
}

-- Missing, or FAILED.
abbrev is_free : {A : Type 0} → (A → Bool) → Option A → Bool
is_free c none = true
is_free c (some r) = c r

-- The business object of the job may be restored.
abbrev pub is_restorable : JobType → String → Db → Bool
is_restorable run_diagnosis resource db =
    is_free (λ (r : DiagnosisRun). is_failed_run r.status) (run_row resource db)
is_restorable (other s) resource db = false
is_restorable kind resource db =
    is_free (λ (r : Resource). is_resource_failed r.status) (resource_row kind resource db)

freed :
    {A : Type 0} (c : A → Bool) (o : Option A) (s : Option A) (db : Db)
    → is_free c o ≡ true
    → (o ≡ none → s ≡ none)
    → (if nat_eq (count_row c o) 1 then pure tt else refuse_existing s) db ≡ ok (tt, db)
unfolding refuse_existing ◌>>=◌
freed c none s db h e = rw (e refl) refl
freed c (some r) s db h e = rw h refl

-- The database after the business object is restored.
abbrev restored_db : JobType → String → Db → Db
restored_db run_diagnosis resource db = record db {
  runs =
      update (λ (r : DiagnosisRun). r.id) resource (λ r. is_failed_run r.status) restore_run_row
        db.runs;
}
restored_db kind resource db = set_resource_table kind db (
    update (λ (r : Resource). r.id) resource (λ r. is_resource_failed r.status)
      (restore_resource_row kind) (resource_table kind db))

restored_db-jobs :
    (kind : JobType) (resource : String) (db : Db) → (restored_db kind resource db).jobs ≡ db.jobs
restored_db-jobs materialize_snapshot resource db = refl
restored_db-jobs _ resource db = refl

map_row-none : {A : Type 0} (f : A → A) (o : Option A) → o ≡ none → map_row f o ≡ none
map_row-none f o e = rw e refl

-- The resource table of a kind after the UPDATE.
abbrev resource_db : JobType → String → Db → Db
resource_db kind resource db = set_resource_table kind db (
    update (λ (r : Resource). r.id) resource (λ r. is_resource_failed r.status)
      (restore_resource_row kind) (resource_table kind db))

abbrev resource_after : JobType → String → Db → Option Resource
resource_after kind resource db =
    map_row (when_row (λ r. is_resource_failed r.status) (restore_resource_row kind))
      (resource_row kind resource db)

restores_resource :
    (kind : JobType) (resource : String) (db : Db)
    → resource_row kind resource (resource_db kind resource db) ≡ resource_after kind resource db
    → is_free (λ (r : Resource). is_resource_failed r.status) (resource_row kind resource db) ≡ true
    → restore_resource kind resource db ≡ ok (tt, resource_db kind resource db)
unfolding restore_resource ◌>>=◌ statements
restores_resource kind resource db row h = rw row (
    freed (λ (r : Resource). is_resource_failed r.status) (resource_row kind resource db)
      (resource_after kind resource db) (resource_db kind resource db) h (λ e. map_row-none _ _ e))

restore_keeps_id : (kind : JobType) (r : Resource) → (restore_resource_row kind r).id ≡ r.id
restore_keeps_id build_retrieval r = refl
restore_keeps_id _ r = refl

resource_updated :
    (kind : JobType) (resource : String) (t : List Resource)
    → find
        (λ (r : Resource). r.id)
        resource
        (update
          (λ (r : Resource). r.id)
          resource
          (λ r. is_resource_failed r.status)
          (restore_resource_row kind)
          t)
      ≡ map_row
          (when_row (λ r. is_resource_failed r.status) (restore_resource_row kind))
          (find (λ (r : Resource). r.id) resource t)
resource_updated kind resource t =
    find-update_self (λ (r : Resource). r.id) resource (λ r. is_resource_failed r.status)
      (restore_resource_row kind) t (restore_keeps_id kind)

restores :
    (kind : JobType) (resource : String) (db : Db)
    → is_restorable kind resource db ≡ true
    → restore_business kind resource db ≡ ok (tt, restored_db kind resource db)
unfolding restore_business ◌>>=◌ statements
restores (other s) resource db h = ground arith
restores run_diagnosis resource db h =
    rw
      (find-update_self (λ (r : DiagnosisRun). r.id) resource (λ r. is_failed_run r.status)
        restore_run_row db.runs (λ r. refl))
      (freed (λ (r : DiagnosisRun). is_failed_run r.status) (run_row resource db) _
        (restored_db run_diagnosis resource db) h (λ e. map_row-none _ _ e))
restores materialize_snapshot resource db h =
    restores_resource materialize_snapshot resource db
      (resource_updated materialize_snapshot resource db.snapshots) h
restores build_code_index resource db h =
    restores_resource build_code_index resource db
      (resource_updated build_code_index resource db.code_builds) h
restores build_retrieval resource db h =
    restores_resource build_retrieval resource db
      (resource_updated build_retrieval resource db.retrieval_builds) h

abbrev pub may_requeue : AnalysisJob → Bool
may_requeue j = is_failed j.status && is_exhausted j.terminal_reason

-- What follows the restoration.
requeue_of_restored : JobType → String → ℕ → Unit {0} → StoreTx (Unit {0})
requeue_of_restored kind resource now _ = do
  affected ← update_job_by_resource kind resource may_requeue (requeue_row now)
  guard (not (nat_eq affected 0)) cannot_requeue

requeue_restores :
    (kind : JobType) (resource : String) (now : ℕ) (db : Db)
    → is_restorable kind resource db ≡ true
    → manual_requeue kind resource now db
      ≡ requeue_of_restored kind resource now tt (restored_db kind resource db)
unfolding manual_requeue requeue_of_restored
requeue_restores kind resource now db h =
    bind_ok (restore_business kind resource) (requeue_of_restored kind resource now) db
      (restored_db kind resource db) tt (restores kind resource db h)

requeued : (now : ℕ) (j : AnalysisJob) → IsRequeued now j (requeue_row now j)
requeued now j = ground arith

-- A job whose business object is missing or FAILED is requeued exactly if it is FAILED because its
-- retries were exhausted. The row then waits, due at once, in the next generation, with no attempt,
-- owner, lease, error or requested cancellation left; any other job is refused.
pub manual_requeue-outcome :
    (kind : JobType) (resource : String) (now : ℕ) (db : Db) (j : AnalysisJob)
    → is_restorable kind resource db ≡ true
    → job_by_resource kind resource db ≡ some j
    → ((may_requeue j ≡ true)
        × ((db' : Db) × (k : AnalysisJob) × (manual_requeue kind resource now db ≡ ok (tt, db'))
            × (job_by_resource kind resource db' ≡ some k)
            × IsRequeued now j k))
      ⊎ ((may_requeue j ≡ false) × (manual_requeue kind resource now db ≡ err cannot_requeue))
unfolding requeue_of_restored ◌>>=◌ statements
manual_requeue-outcome kind resource now db j h found =
    let db1 = restored_db kind resource db in
    let found' : job_by_resource kind resource db1 ≡ some j =
      rw (restored_db-jobs kind resource db) found in
    let row =
      find-update_self key_of (kind, resource) may_requeue (requeue_row now) db1.jobs (λ k. refl) in
    elim (Bool-cases (may_requeue j)) [
      | inl may ↦ inl (
        may,
        (
          set_jobs db1 (update key_of (kind, resource) may_requeue (requeue_row now) db1.jobs),
          requeue_row now j,
          requeue_restores kind resource now db h ∙ rw (found', may) refl,
          row ∙ rw (found', may) refl,
          requeued now j,
        ),
      )
      | inr kept ↦ inr (kept, requeue_restores kind resource now db h ∙ rw (found', kept) refl)
    ]
