-- ===== src/Jobs/Lifecycle/Loops.antt =====
-- The two loops of the store over selected rows, ClaimJobs and ReapExpiredJobs: each round moves the
-- row that it was selected for, and leaves the rows of the later rounds as they were selected
-- (internal/jobs/store.go).
use repolens.Base.{
  ℕ, suc, ◌+◌, String, ◌≡◌, refl, sym, ◌∙◌, ==_refl, nat_key, Bool, true, false, arith, List, [],
  ◌∷◌, none, some, All, All-filter, All-take, filter, take,
}
use repolens.Sql.Result.{◌>>=◌}
use repolens.Sql.Table.{find, IsKeyed, IsKeyed-found, IsKeyed-filter, IsKeyed-take}
use repolens.Sql.Moves.{Outcome, Outcome-bind}
use repolens.Jobs.Model.{AnalysisJob}
use repolens.Jobs.Db.{Db, job_row}
use repolens.Jobs.Claim.{is_due, claim_row, claim_each, claim_jobs}
use repolens.Jobs.Reap.{is_expired, reap_each, reap_expired_jobs}
use repolens.Jobs.Lifecycle.Rows.{JobsMove, JobsMove-preorder, widen_scope, claim-Step}
use repolens.Jobs.Lifecycle.Statements.{everywhere, move_pure, update_job-Outcome}
use repolens.Jobs.Lifecycle.Reaping.{only, reap_one-Outcome}

-- The primary key of analysis_jobs.
abbrev pub IsKeyedById : List AnalysisJob → Type 0
IsKeyedById t = IsKeyed (λ (j : AnalysisJob). j.id) t

-- Rows that were selected by a condition and are still what the table holds.
abbrev pub IsSelected : (AnalysisJob → Bool) → Db → List AnalysisJob → Type 0
IsSelected p db cs = All (λ c. (job_row c.id db ≡ some c) × (p c ≡ true)) cs × IsKeyedById cs

pub selected :
    (p : AnalysisJob → Bool) (n : ℕ) (db : Db)
    → IsKeyedById db.jobs
    → IsSelected p db (take n (filter p db.jobs))
selected p n db k =
    let kept : All (λ c. job_row c.id db ≡ some c) db.jobs =
      IsKeyed-found (λ (j : AnalysisJob). j.id) db.jobs k in
    (
      All-take _ n _ (All-filter _ p db.jobs kept),
      IsKeyed-take _ n _ (IsKeyed-filter _ p db.jobs k),
    )

-- A row that the key of another does not find.
pub other_row :
    (c d : AnalysisJob) (cs : List AnalysisJob)
    → find (λ (j : AnalysisJob). j.id) c.id (d ∷ cs) ≡ none
    → only c.id d.id ≡ false
unfolding find
other_row c d cs absent = ground arith

rest_selected :
    (p : AnalysisJob → Bool) (c : AnalysisJob) (cs : List AnalysisJob) (db db' : Db)
    → JobsMove (only c.id) db db'
    → find (λ (j : AnalysisJob). j.id) c.id cs ≡ none
    → All (λ d. (job_row d.id db ≡ some d) × (p d ≡ true)) cs
    → All (λ d. (job_row d.id db' ≡ some d) × (p d ≡ true)) cs
unfolding find
rest_selected p c [] db db' m absent h = tt
rest_selected p c (d ∷ cs) db db' m absent h = (
  (m.others d.id (other_row c d cs absent) ∙ h.0.0, h.0.1),
  rest_selected p c cs db db' m (ground arith) h.1,
)

claim_each-Outcome :
    (worker : String) (token : ℕ → String) (lease now i : ℕ) (cs : List AnalysisJob) (db : Db)
    → IsSelected (is_due now) db cs
    → Outcome (JobsMove everywhere) db (claim_each worker token lease now i cs db)
unfolding claim_each
claim_each-Outcome worker token lease now i [] db s = (move_pure {scope = everywhere} []).at db
claim_each-Outcome worker token lease now i (c ∷ cs) db s =
    let first =
      update_job-Outcome (only c.id) c.id (λ _. true) (claim_row worker (token i) lease now) db
        (==_refl c.id) (λ j. refl)
        (λ j e h.
          let same : some c ≡ some j = sym s.0.0.0 ∙ e in
          claim-Step now j worker (token i) lease (ground arith)) in
    Outcome-bind JobsMove-preorder (JobsMove (only c.id)) _ _ db
      (λ t m. widen_scope (λ k h. ground arith) m) first
      λ n t m.
        Outcome-bind JobsMove-preorder (JobsMove everywhere) _ _ t (λ u q. q)
          (claim_each-Outcome worker token lease now (suc i) cs t
            (rest_selected (is_due now) c cs db t m s.1.0 s.0.1, s.1.1))
          (λ rest u q. (move_pure {scope = everywhere} _).at u)

pub claim-Outcome :
    (worker : String) (token : ℕ → String) (batch_size lease_duration now : ℕ) (db : Db)
    → IsKeyedById db.jobs
    → Outcome (JobsMove everywhere) db (claim_jobs worker token batch_size lease_duration now db)
unfolding claim_jobs ◌>>=◌
claim-Outcome worker token batch_size lease_duration now db k =
    claim_each-Outcome worker token (now + lease_duration) now 0 _ db
      (selected (is_due now) batch_size db k)

reap_each-Outcome :
    (int63n : ℕ → ℕ) (now : ℕ) (cs : List AnalysisJob) (db : Db)
    → IsSelected (is_expired now) db cs
    → Outcome (JobsMove everywhere) db (reap_each int63n now cs db)
unfolding reap_each
reap_each-Outcome int63n now [] db s = (move_pure {scope = everywhere} 0).at db
reap_each-Outcome int63n now (c ∷ cs) db s =
    Outcome-bind JobsMove-preorder (JobsMove (only c.id)) _ _ db
      (λ t m. widen_scope (λ k h. ground arith) m)
      (reap_one-Outcome int63n now c db s.0.0.0 s.0.0.1)
      λ _ t m.
        Outcome-bind JobsMove-preorder (JobsMove everywhere) _ _ t (λ u q. q)
          (reap_each-Outcome int63n now cs t
            (rest_selected (is_expired now) c cs db t m s.1.0 s.0.1, s.1.1))
          (λ rest u q. (move_pure {scope = everywhere} _).at u)

pub reap-Outcome :
    (int63n : ℕ → ℕ) (batch_size now : ℕ) (db : Db)
    → IsKeyedById db.jobs
    → Outcome (JobsMove everywhere) db (reap_expired_jobs int63n batch_size now db)
unfolding reap_expired_jobs ◌>>=◌
reap-Outcome int63n batch_size now db k =
    reap_each-Outcome int63n now _ db (selected (is_expired now) batch_size db k)
