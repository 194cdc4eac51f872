-- ===== src/Jobs/Worker/Resolve.antt =====
-- Finalizing under lost answers (internal/jobs/worker.go, resolveFinalization).
use repolens.Base.{
  ◌+◌, ◌⊎◌, ℕ, String, ◌≡◌, refl, ◌∙◌, ap, Bool, true, false, not, ◌&&◌, Option, none, some, List,
  [], ◌∷◌, arith, nat_key, text_key, Option-cases, Bool-cases, inl, inr, if◌then◌else◌,
}
use repolens.Sql.Result.{
  Result, ok, err, Delivery, delivered, lost_ack, aborted, transact, bind_err, ◌>>=◌,
}
use repolens.Sql.Moves.{Outcome, Outcome-map}
use repolens.Jobs.Model.{
  AnalysisJob, StoreError, ownership_lost, cancellation_unsupported, driver_fault, is_diagnosis,
}
use repolens.Jobs.Db.{Db, StoreTx, job_row, job_row-hit, after_job}
use repolens.Sql.Table.{key-find}
use repolens.Jobs.Claim.{holds_live_claim, mark_execution_started}
use repolens.Jobs.Claim.Start.{mark_first, started as started_db}
use repolens.Jobs.Finalize.{
  owns_execution, owned_or_lost, load_owned_running_job, cancel_row, finalize_cancel, success_row,
  finalize_success, cancel_or_unsupported,
}
use repolens.Jobs.Finalize.Owner.{success_loads, cancel_reduces, success_of_owner}
use repolens.Jobs.Lifecycle.Rows.{JobsMove}
use repolens.Jobs.Lifecycle.Final.{cancel_run-Moves}
use repolens.Jobs.Worker.{
  resolve_execution_start, started, context_ended, row, Round, Resolution, accepted,
  same_execution_claim, success_finalization_expected, judge, conclude, read_row,
  resolve_finalization,
}

abbrev nowhere : ℕ → Bool
nowhere k = false

-- The row of the job is there and is as expected.
abbrev pub IsExpected : ℕ → (AnalysisJob → Bool) → Db → Type 0
IsExpected id expected db = (j : AnalysisJob) × (job_row id db ≡ some j) × (expected j ≡ true)

module _ (id : ℕ) (worker token : String) (now : ℕ) (db : Db) where
  unowned :
      (o : Option AnalysisJob)
      → job_row id db ≡ o
      → (o ≡ none) ⊎ ((j : AnalysisJob) × (o ≡ some j) × (owns_execution worker token j ≡ false))
      → load_owned_running_job id worker token db ≡ err ownership_lost
  unfolding load_owned_running_job owned_or_lost ◌>>=◌
  unowned o e (inl missing) = rw (e, missing) refl
  unowned o e (inr (j, found, other)) = rw (e, found, other) refl

  -- A cancellation of an owned job that commits leaves the row cancelled.
  cancel-IsExpected :
      (j : AnalysisJob)
      → job_row id db ≡ some j
      → owns_execution worker token j ≡ true
      → is_diagnosis j.job_type ≡ true
      → j.cancel_requested ≡ true
      → Outcome
          (λ (s t : Db). IsExpected id success_finalization_expected t)
          db
          (finalize_cancel id worker token now db)
  unfolding success_finalization_expected
  cancel-IsExpected j found owned diagnosis asked =
      let c : AnalysisJob → Bool = λ k. owns_execution worker token k && k.cancel_requested in
      let db1 = after_job id c (cancel_row now) db in
      let written = job_row-hit id c (cancel_row now) db (λ k. refl) j found (ground arith) in
      rw (cancel_reduces id worker token now db j found owned diagnosis asked) (
        Outcome-map (JobsMove nowhere) (λ (s t : Db). IsExpected id success_finalization_expected t)
          db1 db _ (λ t m. (cancel_row now j, m.others id refl ∙ written, ground arith))
          ((cancel_run-Moves {scope = nowhere} j.resource_id j.execution_generation now).at db1))

  -- What the owner's success is where the job was asked to stop.
  asked_success :
      (j : AnalysisJob)
      → job_row id db ≡ some j
      → owns_execution worker token j ≡ true
      → j.cancel_requested ≡ true
      → ((is_diagnosis j.job_type ≡ true)
          × (finalize_success id worker token now db ≡ finalize_cancel id worker token now db))
        ⊎ (finalize_success id worker token now db ≡ err cancellation_unsupported)
  unfolding cancel_or_unsupported ◌>>=◌
  asked_success j found owned asked = elim (Bool-cases (is_diagnosis j.job_type)) [
    | inl diagnosis ↦
        inl (
          diagnosis,
          success_loads id worker token now db j found owned ∙ rw (asked, diagnosis) refl,
        )
    | inr build ↦ inr (success_loads id worker token now db j found owned ∙ rw (asked, build) refl)
  ]

  success_of_owned :
      (j : AnalysisJob)
      → job_row id db ≡ some j
      → owns_execution worker token j ≡ true
      → Outcome
          (λ (s t : Db). IsExpected id success_finalization_expected t)
          db
          (finalize_success id worker token now db)
  unfolding success_finalization_expected
  success_of_owned j found owned = elim (Bool-cases j.cancel_requested) [
    | inl asked ↦ elim (asked_success j found owned asked) [
      | inl (diagnosis, cancels) ↦ rw cancels (cancel-IsExpected j found owned diagnosis asked)
      | inr refused ↦ rw refused tt
    ]
    | inr kept ↦
        let (done, written) = success_of_owner id worker token now db j found owned kept in
        rw done (success_row now j, written, refl)
  ]

  success_unowned :
      (job_row id db ≡ none)
        ⊎ ((j : AnalysisJob) × (job_row id db ≡ some j) × (owns_execution worker token j ≡ false))
      → finalize_success id worker token now db ≡ err ownership_lost
  unfolding finalize_success
  success_unowned h =
      bind_err (load_owned_running_job id worker token) _ db ownership_lost
        (unowned (job_row id db) refl h)

  -- A success that commits leaves the row as the worker expects it.
  success-IsExpected :
      Outcome
        (λ (s t : Db). IsExpected id success_finalization_expected t)
        db
        (finalize_success id worker token now db)
  success-IsExpected = elim (Option-cases (job_row id db)) [
    | inl missing ↦ rw (success_unowned (inl missing)) tt
    | inr (j, found) ↦ elim (Bool-cases (owns_execution worker token j)) [
      | inl owned ↦ success_of_owned j found owned
      | inr other ↦ rw (success_unowned (inr (j, found, other))) tt
    ]
  ]

module _ (claim : AnalysisJob) (worker : String) (expected : AnalysisJob → Bool) where
  judged :
      (readable : Bool) (db : Db)
      → judge claim worker expected (read_row readable claim.id db) ≡ some accepted
      → IsExpected claim.id expected db
  unfolding judge
  judged false db e = ground arith
  judged true db e = elim (Option-cases (job_row claim.id db)) [
    | inl missing ↦ ground arith
    | inr (j, found) ↦ (j, found, ground arith)
  ]

  round_ends :
      (ended : Bool) (o : Option Resolution) (db t : Db) (rest : Resolution × Db)
      → (o ≡ some accepted → IsExpected claim.id expected t)
      → (rest.0 ≡ accepted → IsExpected claim.id expected rest.1)
      → (if ended
          then (context_ended, db)
          else (elim o as (λ _. Resolution × Db) [ none ↦ rest | some end ↦ (end, t) ])).0
        ≡ accepted
      → IsExpected claim.id expected
          (if ended
            then (context_ended, db)
            else (elim o as (λ _. Resolution × Db) [ none ↦ rest | some end ↦ (end, t) ])).1
  round_ends true o db t rest here later e = ground arith
  round_ends false none db t rest here later e = later e
  round_ends false (some end) db t rest here later e = here (ap (λ (x : Resolution). some x) e)

  module _ (finalize : ℕ → StoreTx (Unit {0}))
      (commits : (now : ℕ) (db : Db)
        → Outcome (λ (s t : Db). IsExpected claim.id expected t) db (finalize now db)) where
    round_sound :
        (d : Delivery) (readable : Bool) (db : Db) (o : Result StoreError (Unit {0} × Db))
        → Outcome (λ (s t : Db). IsExpected claim.id expected t) db o
        → conclude claim worker expected
            (transact driver_fault d (λ s. o) db).0
            (read_row readable claim.id (transact driver_fault d (λ s. o) db).1)
          ≡ some accepted
        → IsExpected claim.id expected (transact driver_fault d (λ s. o) db).1
    unfolding transact conclude
    round_sound delivered readable db (ok (u, t)) h e = h
    round_sound delivered readable db (err f) h e = judged readable db e
    round_sound lost_ack readable db (ok (u, t)) h e = judged readable t e
    round_sound lost_ack readable db (err f) h e = judged readable db e
    round_sound aborted readable db o h e = judged readable db e

    round_sound_of :
        (d : Delivery) (readable : Bool) (m : StoreTx (Unit {0})) (db : Db)
        → Outcome (λ (s t : Db). IsExpected claim.id expected t) db (m db)
        → conclude claim worker expected
            (transact driver_fault d m db).0
            (read_row readable claim.id (transact driver_fault d m db).1)
          ≡ some accepted
        → IsExpected claim.id expected (transact driver_fault d m db).1
    unfolding transact
    round_sound_of delivered readable m db h e = round_sound delivered readable db (m db) h e
    round_sound_of lost_ack readable m db h e = round_sound lost_ack readable db (m db) h e
    round_sound_of aborted readable m db h e = round_sound aborted readable db (m db) h e

    resolve_sound :
        (rs : List Round) (db : Db)
        → (resolve_finalization claim worker finalize expected rs db).0 ≡ accepted
        → IsExpected claim.id expected (resolve_finalization claim worker finalize expected rs db).1
    unfolding resolve_finalization
    resolve_sound [] db e = ground arith
    resolve_sound (r ∷ rs) db e =
        let answer = transact driver_fault r.delivery (finalize r.now) (r.others db) in
        round_ends r.ended
          (conclude claim worker expected answer.0 (read_row r.readable claim.id answer.1)) db
          answer.1 (resolve_finalization claim worker finalize expected rs answer.1)
          (round_sound_of r.delivery r.readable (finalize r.now) (r.others db)
            (commits r.now (r.others db)))
          (resolve_sound rs answer.1) e

-- Whatever answers get lost, whatever cannot be read and whatever other transactions do before each
-- round: where the worker takes its success for recorded, the row of the job is SUCCEEDED, or
-- CANCELLED by the user's request.
pub success_resolution_is_sound :
    (claim : AnalysisJob) (worker token : String) (rs : List Round) (db : Db)
    → (resolve_finalization claim worker
        (finalize_success claim.id worker token)
        success_finalization_expected
        rs
        db).0
      ≡ accepted
    → (j : AnalysisJob) × (job_row claim.id
          (resolve_finalization claim worker
            (finalize_success claim.id worker token)
            success_finalization_expected
            rs
            db).1
        ≡ some j)
      × (success_finalization_expected j ≡ true)
success_resolution_is_sound claim worker token rs db e =
    resolve_sound claim worker success_finalization_expected
      (λ now. finalize_success claim.id worker token now)
      (λ now t. success-IsExpected claim.id worker token now t) rs db e

-- A commit whose answer is lost.
lost_answer :
    (m : StoreTx (Unit {0})) (db db' : Db)
    → m db ≡ ok (tt, db')
    → transact driver_fault lost_ack m db ≡ (err driver_fault, db')
unfolding transact
lost_answer m db db' committed =
    ap
      (λ (o : Result StoreError (Unit {0} × Db)).
        elim o as (λ _. Result StoreError (Unit {0}) × Db) [
          | ok (u, t) ↦ (err driver_fault, t)
          | err e ↦ (err e, db)
        ])
      committed

accepts_row :
    (claim j : AnalysisJob) (worker : String) (now : ℕ)
    → same_execution_claim claim j worker ≡ true
    → judge claim worker success_finalization_expected (row (some (success_row now j)))
      ≡ some accepted
unfolding judge success_finalization_expected
accepts_row claim j worker now ours = rw ours refl

-- The owner's success whose answer is lost after the commit is accepted in the same round, by the
-- row that it wrote, and is not repeated.
pub lost_success_is_accepted :
    (claim j : AnalysisJob) (worker token : String) (now : ℕ) (others : Db → Db) (rs : List Round)
    (db : Db)
    → job_row claim.id (others db) ≡ some j
    → owns_execution worker token j ≡ true
    → j.cancel_requested ≡ false
    → same_execution_claim claim j worker ≡ true
    → (db' : Db) × (resolve_finalization claim worker
          (finalize_success claim.id worker token)
          success_finalization_expected
          (record {
            ended = false;
            now = now;
            others = others;
            delivery = lost_ack;
            readable = true;
          }
            ∷ rs)
          db
        ≡ (accepted, db'))
      × (job_row claim.id db' ≡ some (success_row now j))
unfolding resolve_finalization
lost_success_is_accepted claim j worker token now others rs db found owned kept ours =
    let (done, written) =
      success_of_owner claim.id worker token now (others db) j found owned kept in
    let db' =
      after_job claim.id (λ k. owns_execution worker token k && not k.cancel_requested)
        (success_row now) (others db) in
    let lost = lost_answer (finalize_success claim.id worker token now) (others db) db' done in
    (db', rw (lost, written, accepts_row claim j worker now ours, lost) refl, written)

-- The start of an execution whose answer is lost after the commit is found in the durable row, with
-- the attempt that was charged.
pub lost_start_is_resolved :
    (job j : AnalysisJob) (worker token : String) (now : ℕ) (db : Db)
    → job.claim_token ≡ some token
    → job_row job.id db ≡ some j
    → holds_live_claim worker token job.execution_generation now j ≡ true
    → j.execution_started ≡ false
    → (db' : Db) × (mark_execution_started job.id worker token job.execution_generation now db
        ≡ ok (j.attempt_count + 1, db'))
      × (resolve_execution_start job worker (row (job_row job.id db'))
          ≡ started (j.attempt_count + 1))
unfolding resolve_execution_start
lost_start_is_resolved job j worker token now db ours found live fresh =
    let (charged, written) =
      mark_first job.id worker token job.execution_generation now db j found live fresh in
    let id = key-find (λ (k : AnalysisJob). k.id) job.id db.jobs j found in
    (
      started_db job.id worker token job.execution_generation now db,
      charged,
      rw written (ground (arith, ours, live, id)),
    )
