-- ===== src/Jobs/Lifecycle/Exclusive.antt =====
-- What a claim gives its worker, and keeps from every other worker (internal/jobs/store.go,
-- ClaimJobs).
use repolens.Base.{
  ℕ, suc, ◌+◌, ◌≤◌, String, ◌≡◌, refl, ◌∙◌, nat_key, text_key, true, false, arith, List, [], ◌∷◌,
  none, some, All, All-map, length, length-take, filter,
}
use repolens.Sql.Result.{bind_ok, pure, ok, ◌>>=◌}
use repolens.Sql.Table.{find, update, find-update_self, find-update_ne}
use repolens.Jobs.Model.{AnalysisJob}
use repolens.Jobs.Db.{Db, job_row, set_jobs, statements}
use repolens.Jobs.Claim.{is_due, claim_row, claimed_job, claim_each, claim_jobs, claim_candidates}
use repolens.Jobs.Lifecycle.Loops.{IsKeyedById, selected, other_row}

module _ (worker : String) (token : ℕ → String) (lease now : ℕ) where
  -- The jobs that are returned for the candidates, from the i-th token on.
  abbrev pub claimed_list : ℕ → List AnalysisJob → List AnalysisJob
  claimed_list i [] = []
  claimed_list i (c ∷ cs) = claimed_job worker (token i) lease now c ∷ claimed_list (suc i) cs

  -- The table after the loop.
  abbrev pub claimed_table : ℕ → List AnalysisJob → List AnalysisJob → List AnalysisJob
  claimed_table i [] t = t
  claimed_table i (c ∷ cs) t =
      claimed_table (suc i) cs (
        update (λ (j : AnalysisJob). j.id) c.id (λ _. true) (claim_row worker (token i) lease now)
          t)

  pub claim_each-eq :
      (i : ℕ) (cs : List AnalysisJob) (db : Db)
      → claim_each worker token lease now i cs db
        ≡ ok (claimed_list i cs, set_jobs db (claimed_table i cs db.jobs))
  unfolding claim_each ◌>>=◌ statements
  claim_each-eq i [] db = refl
  claim_each-eq i (c ∷ cs) db =
      let db1 = set_jobs db (
        update (λ (j : AnalysisJob). j.id) c.id (λ _. true) (claim_row worker (token i) lease now)
          db.jobs) in
      bind_ok (claim_each worker token lease now (suc i) cs)
        (λ rest. pure (claimed_job worker (token i) lease now c ∷ rest)) db1
        (set_jobs db1 (claimed_table (suc i) cs db1.jobs)) (claimed_list (suc i) cs)
        (claim_each-eq (suc i) cs db1)

  length-claimed_list : (i : ℕ) (cs : List AnalysisJob) → length (claimed_list i cs) ≡ length cs
  length-claimed_list i [] = refl
  length-claimed_list i (c ∷ cs) = omega (arith, length-claimed_list (suc i) cs)

  -- The loop leaves the rows that are no candidates.
  claimed_table-other :
      (k i : ℕ) (cs t : List AnalysisJob)
      → find (λ (j : AnalysisJob). j.id) k cs ≡ none
      → find (λ (j : AnalysisJob). j.id) k (claimed_table i cs t)
        ≡ find (λ (j : AnalysisJob). j.id) k t
  unfolding find
  claimed_table-other k i [] t h = refl
  claimed_table-other k i (c ∷ cs) t h =
      claimed_table-other k (suc i) cs _ (ground arith)
      ∙ find-update_ne (λ (j : AnalysisJob). j.id) c.id k (λ _. true)
          (claim_row worker (token i) lease now) t (λ j. refl) (ground arith)

  -- A returned job with the row that the table holds for it.
  abbrev IsHeld : List AnalysisJob → AnalysisJob → Type 0
  IsHeld t d =
      (r : AnalysisJob) × (find (λ (j : AnalysisJob). j.id) d.id t ≡ some r)
      × (d.claim_token ≡ r.claim_token)
      × (r.worker_id ≡ some worker)
      × (r.lease_until ≡ some lease)
      × (r.execution_started ≡ false)
      × ((later : ℕ) → is_due later r ≡ false)

  still_found :
      (c : AnalysisJob) (i : ℕ) (cs t : List AnalysisJob)
      → find (λ (j : AnalysisJob). j.id) c.id cs ≡ none
      → All (λ d. find (λ (j : AnalysisJob). j.id) d.id t ≡ some d) cs
      → All
          (λ d.
            find
              (λ (j : AnalysisJob). j.id)
              d.id
              (update
                (λ (j : AnalysisJob). j.id)
                c.id
                (λ _. true)
                (claim_row worker (token i) lease now)
                t)
            ≡ some d)
          cs
  unfolding find
  still_found c i [] t absent h = tt
  still_found c i (d ∷ cs) t absent h = (
    find-update_ne (λ (j : AnalysisJob). j.id) c.id d.id (λ _. true)
          (claim_row worker (token i) lease now) t (λ j. refl)
          (ground (arith, other_row c d cs absent))
        ∙ h.0,
    still_found c i cs t (ground arith) h.1,
  )

  claimed_list-IsHeld :
      (i : ℕ) (cs t : List AnalysisJob)
      → IsKeyedById cs
      → All (λ c. find (λ (j : AnalysisJob). j.id) c.id t ≡ some c) cs
      → All (IsHeld (claimed_table i cs t)) (claimed_list i cs)
  claimed_list-IsHeld i [] t k h = tt
  claimed_list-IsHeld i (c ∷ cs) t k h =
      let t1 =
        update (λ (j : AnalysisJob). j.id) c.id (λ _. true) (claim_row worker (token i) lease now)
          t in
      let row : find (λ (j : AnalysisJob). j.id) c.id t1
          ≡ some (claim_row worker (token i) lease now c) =
        rw
          (
            find-update_self (λ (j : AnalysisJob). j.id) c.id (λ _. true)
                (claim_row worker (token i) lease now) t (λ j. refl),
            h.0,
          )
          refl in
      (
        (
          claim_row worker (token i) lease now c,
          claimed_table-other c.id (suc i) cs t1 k.0 ∙ row,
          refl,
          refl,
          refl,
          refl,
          λ later. refl,
        ),
        claimed_list-IsHeld (suc i) cs t1 k.1 (still_found c i cs t k.0 h.1),
      )

-- Claiming always succeeds on a table with its primary key. It returns at most `batch_size` jobs, and
-- for each of them the table holds a row with the returned token, owned by the worker, with the
-- lease of the call and not started, which no later claim selects at any time.
pub claim_is_exclusive :
    (worker : String) (token : ℕ → String) (batch_size lease_duration now : ℕ) (db : Db)
    → IsKeyedById db.jobs
    → (out : List AnalysisJob) × (db' : Db) × (claim_jobs worker token batch_size lease_duration now
          db
        ≡ ok (out, db'))
      × (length out ≤ batch_size)
      × All
          (λ d.
            (r : AnalysisJob) × (job_row d.id db' ≡ some r)
            × (d.claim_token ≡ r.claim_token)
            × (r.worker_id ≡ some worker)
            × (r.lease_until ≡ some (now + lease_duration))
            × (r.execution_started ≡ false)
            × ((later : ℕ) → is_due later r ≡ false))
          out
unfolding claim_jobs ◌>>=◌
claim_is_exclusive worker token batch_size lease_duration now db k =
    let cs = claim_candidates now batch_size db in
    let lease = now + lease_duration in
    let s = selected (is_due now) batch_size db k in
    let found =
      All-map (λ c. (job_row c.id db ≡ some c) × (is_due now c ≡ true))
        (λ c. job_row c.id db ≡ some c) (λ c h. h.0) cs s.0 in
    let size = length-claimed_list worker token lease now 0 cs in
    let bound = length-take batch_size (filter (is_due now) db.jobs) in
    (
      claimed_list worker token lease now 0 cs,
      set_jobs db (claimed_table worker token lease now 0 cs db.jobs),
      claim_each-eq worker token lease now 0 cs db,
      omega (arith, size, bound),
      claimed_list-IsHeld worker token lease now 0 cs db.jobs s.1 found,
    )
