-- ===== src/Jobs/Lifecycle/Traces.antt =====
-- Every run of the job store: its operations as data, the state each leaves, and what holds of the
-- queue's rows after any sequence of them (internal/jobs/store.go, docs/state-machines.md).
use repolens.Base.{
  ℕ, suc, ◌<◌, String, ◌≡◌, refl, nat_key, true, arith, List, [], ◌∷◌, Option, none, some, All,
  All-map, All-append,
}
use repolens.Sql.Result.{Result, ok, err}
use repolens.Sql.Table.{
  find, IsKeyed, IsKeyed-Rows, IsKeyed-append, find-Rows, find-append, All-Rows,
}
use repolens.Sql.Moves.{Outcome}
use repolens.Jobs.Model.{StoreError, JobType, AnalysisJob, pending, is_pending, is_diagnosis}
use repolens.Jobs.Db.{Db, job_key, job_row, job_by_resource, key_of}
use repolens.Jobs.Claim.{
  JobSpec, new_job, insert_job, create_job, claim_jobs, mark_execution_started,
  return_undispatched_claim, renew_lease, request_cancel, or_default,
}
use repolens.Jobs.Finalize.{Failure, finalize_success, finalize_failure, finalize_cancel}
use repolens.Jobs.Reap.{reap_expired_jobs}
use repolens.Jobs.Requeue.{manual_requeue, retry_diagnosis}
use repolens.Jobs.Lifecycle.{IsWellFormed, Step}
use repolens.Jobs.Lifecycle.Rows.{JobsMove, Step-refl, Step-trans}
use repolens.Jobs.Lifecycle.Statements.{everywhere}
use repolens.Jobs.Lifecycle.Single.{mark-Moves, return-Moves, renew-Moves, request_cancel-Moves}
use repolens.Jobs.Lifecycle.Final.{cancel-Moves, success-Moves, failure-Moves}
use repolens.Jobs.Lifecycle.Restart.{requeue-Moves, retry-Moves}
use repolens.Jobs.Lifecycle.Loops.{IsKeyedById, claim-Outcome, reap-Outcome}

-- A call of the store, with the clock, the tokens and the random source that it meets.
pub data Op : Type 0 where
  create : ℕ → JobSpec → Op
  claim : String → (ℕ → String) → ℕ → ℕ → ℕ → Op
  start : ℕ → String → String → ℕ → ℕ → Op
  give_back : ℕ → String → String → ℕ → ℕ → Op
  renew : ℕ → String → String → ℕ → ℕ → Op
  ask_cancel : JobType → String → ℕ → Op
  succeed : ℕ → String → String → ℕ → Op
  fail_job : ℕ → String → String → Failure → ℕ → Op
  cancel : ℕ → String → String → ℕ → Op
  reap : (ℕ → ℕ) → ℕ → ℕ → Op
  requeue : JobType → String → ℕ → Op
  retry : String → ℕ → Op

-- The state after a call: an error is rolled back.
abbrev pub settle : {A : Type 0} → Result StoreError (A × Db) → Db → Db
settle (ok (a, db')) db = db'
settle (err e) db = db

unfoldable pub apply_op : Op → Db → Db
apply_op (create now spec) db = settle (create_job now spec db) db
apply_op (claim worker token batch duration now) db =
    settle (claim_jobs worker token batch duration now db) db
apply_op (start id worker token generation now) db =
    settle (mark_execution_started id worker token generation now db) db
apply_op (give_back id worker token generation now) db =
    settle (return_undispatched_claim id worker token generation now db) db
apply_op (renew id worker token until now) db = settle (renew_lease id worker token until now db) db
apply_op (ask_cancel kind resource now) db = settle (request_cancel kind resource now db) db
apply_op (succeed id worker token now) db = settle (finalize_success id worker token now db) db
apply_op (fail_job id worker token f now) db = settle (finalize_failure id worker token f now db) db
apply_op (cancel id worker token now) db = settle (finalize_cancel id worker token now db) db
apply_op (reap int63n batch now) db = settle (reap_expired_jobs int63n batch now db) db
apply_op (requeue kind resource now) db = settle (manual_requeue kind resource now db) db
apply_op (retry resource now) db = settle (retry_diagnosis resource now db) db

unfoldable pub run_ops : List Op → Db → Db
unfolding apply_op
run_ops [] db = db
run_ops (op ∷ ops) db = run_ops ops (apply_op op db)

-- A new job is created pending, and asked to cancel only if it is a diagnosis.
abbrev pub IsLawful : Op → Type 0
IsLawful (create now spec) =
    (is_pending (or_default pending spec.status) ≡ true)
    × (spec.cancel_requested ≡ true → is_diagnosis spec.job_type ≡ true)
IsLawful _ = Unit

-- The invariant of the queue's table.
pub record IsSound (db : Db) : Type 0 where
  -- The primary key and the unique key.
  pub keyed : IsKeyedById db.jobs
  pub unique : IsKeyed key_of db.jobs
  -- AUTO_INCREMENT is above every id.
  pub fresh : All (λ (j : AnalysisJob). j.id < db.next_job_id) db.jobs
  pub rows : All IsWellFormed db.jobs

-- Every row lives on, by a lawful step.
abbrev pub Survives : Db → Db → Type 0
Survives db db' =
    (id : ℕ) (j : AnalysisJob)
    → job_row id db ≡ some j
    → (k : AnalysisJob) × (job_row id db' ≡ some k) × Step j k

abbrev Good : Db → Db → Type 0
Good db db' = IsSound db' × Survives db db'

moves-Good : (db db' : Db) → JobsMove everywhere db db' → IsSound db → Good db db'
moves-Good db db' m s = (
  record {
    keyed = IsKeyed-Rows _ Step (λ a b t. t.id) db.jobs db'.jobs m.rows s.keyed;
    unique =
        IsKeyed-Rows key_of Step (λ a b t i. (t.job_type i, t.resource_id i)) db.jobs db'.jobs
          m.rows s.unique;
    fresh = rw m.next (
        All-Rows Step (λ (j : AnalysisJob). j.id < db.next_job_id) (λ a b t h. rw t.id h) db.jobs
          db'.jobs m.rows s.fresh);
    rows = All-Rows Step IsWellFormed (λ a b t h. t.well_formed h) db.jobs db'.jobs m.rows s.rows;
  },
  λ id j found. find-Rows _ Step (λ a b t. t.id) id db.jobs db'.jobs j m.rows found,
)

same-Good : (db : Db) → IsSound db → Good db db
same-Good db s = (s, λ id j found. (j, found, Step-refl j))

settle-Good :
    {A : Type 0} (r : Result StoreError (A × Db)) (db : Db)
    → Outcome (JobsMove everywhere) db r
    → IsSound db
    → Good db (settle r db)
settle-Good (ok (a, db')) db m s = moves-Good db db' m s
settle-Good (err e) db m s = same-Good db s

-- No row has the next id.
next_is_new :
    (n : ℕ) (t : List AnalysisJob)
    → All (λ (j : AnalysisJob). j.id < n) t
    → find (λ (j : AnalysisJob). j.id) n t ≡ none
unfolding find
next_is_new n [] h = refl
next_is_new n (j ∷ t) h = ground (arith, next_is_new n t h.1)

below_next :
    (n : ℕ) (t : List AnalysisJob)
    → All (λ (j : AnalysisJob). j.id < n) t
    → All (λ (j : AnalysisJob). j.id < suc n) t
below_next n t h =
    All-map (λ (j : AnalysisJob). j.id < n) (λ (j : AnalysisJob). j.id < suc n)
      (λ j b. ground arith) t h

new_job-IsWellFormed :
    (id now : ℕ) (spec : JobSpec) → IsLawful (create now spec) → IsWellFormed (new_job id now spec)
new_job-IsWellFormed id now spec h = ground arith

insert-Good :
    (j : AnalysisJob) (db : Db) (row : Option AnalysisJob)
    → job_by_resource j.job_type j.resource_id db ≡ row
    → j.id ≡ db.next_job_id
    → IsWellFormed j
    → IsSound db
    → Good db (settle (insert_job j row db) db)
unfolding insert_job
insert-Good j db (some taken) e i w s = same-Good db s
insert-Good j db none e i w s = (
  record {
    keyed = IsKeyed-append _ db.jobs j (rw i (next_is_new db.next_job_id db.jobs s.fresh)) s.keyed;
    unique = IsKeyed-append key_of db.jobs j e s.unique;
    fresh =
        All-append _ db.jobs (j ∷ []) (below_next db.next_job_id db.jobs s.fresh)
          (ground arith, tt);
    rows = All-append IsWellFormed db.jobs (j ∷ []) s.rows (w, tt);
  },
  λ id k found. (k, find-append _ id db.jobs k j found, Step-refl k),
)

apply-Good : (op : Op) (db : Db) → IsLawful op → IsSound db → Good db (apply_op op db)
unfolding apply_op create_job
apply-Good (create now spec) db l s =
    insert-Good (new_job db.next_job_id now spec) db
      (job_by_resource spec.job_type spec.resource_id db) refl refl
      (new_job-IsWellFormed db.next_job_id now spec l) s
apply-Good (claim worker token batch duration now) db l s =
    settle-Good _ db (claim-Outcome worker token batch duration now db s.keyed) s
apply-Good (start id worker token generation now) db l s =
    settle-Good _ db ((mark-Moves id worker token generation now refl).at db) s
apply-Good (give_back id worker token generation now) db l s =
    settle-Good _ db ((return-Moves id worker token generation now refl).at db) s
apply-Good (renew id worker token until now) db l s =
    settle-Good _ db ((renew-Moves id worker token until now refl).at db) s
apply-Good (ask_cancel kind resource now) db l s =
    settle-Good _ db ((request_cancel-Moves kind resource now).at db) s
apply-Good (succeed id worker token now) db l s =
    settle-Good _ db ((success-Moves id worker token now refl).at db) s
apply-Good (fail_job id worker token f now) db l s =
    settle-Good _ db ((failure-Moves id worker token f now refl).at db) s
apply-Good (cancel id worker token now) db l s =
    settle-Good _ db ((cancel-Moves id worker token now refl).at db) s
apply-Good (reap int63n batch now) db l s =
    settle-Good _ db (reap-Outcome int63n batch now db s.keyed) s
apply-Good (requeue kind resource now) db l s =
    settle-Good _ db ((requeue-Moves kind resource now).at db) s
apply-Good (retry resource now) db l s = settle-Good _ db ((retry-Moves resource now).at db) s

follow-Good : (a b c : Db) → Survives a b → Good b c → Good a c
follow-Good a b c p q = (
  q.0,
  λ id j found.
      let (k, found', first) = p id j found in
      let (l, found'', second) = q.1 id k found' in (l, found'', Step-trans j k l first second),
)

run-Good : (ops : List Op) (db : Db) → All IsLawful ops → IsSound db → Good db (run_ops ops db)
unfolding run_ops
run-Good [] db l s = same-Good db s
run-Good (op ∷ ops) db l s =
    let (sound, survives) = apply-Good op db l.0 s in
    follow-Good db (apply_op op db) (run_ops ops (apply_op op db)) survives
      (run-Good ops (apply_op op db) l.1 sound)

-- From a sound table, any sequence of the store's operations, in any interleaving of workers and with
-- any clocks, tokens and errors, where new jobs are created pending and asked to cancel only if they
-- are diagnoses: the table stays sound, that is, its keys are unique, every id is below the next one
-- and every row is well formed; and each row lives on by a lawful step, so that its identity and
-- its limit of attempts stay, its generation never falls, within a generation its attempts never
-- fall, and once it is terminal it changes only by a new generation.
pub run_ops-IsSound :
    (ops : List Op) (db : Db) (id : ℕ) (j : AnalysisJob)
    → All IsLawful ops
    → IsSound db
    → job_row id db ≡ some j
    → IsSound (run_ops ops db)
      × ((k : AnalysisJob) × (job_row id (run_ops ops db) ≡ some k) × Step j k)
run_ops-IsSound ops db id j l s found =
    let (sound, survives) = run-Good ops db l s in (sound, survives id j found)
