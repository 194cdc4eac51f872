-- ===== src/Jobs/Lifecycle/Served.antt =====
-- A due job is claimed by a claim that is large enough for what is due (internal/jobs/store.go,
-- ClaimJobs).
use repolens.Base.{
  ℕ, zero, suc, ◌+◌, ◌≤◌, String, ◌≡◌, refl, Bool, true, arith, List, [], ◌∷◌, some, Eq, ◌==◌,
  length, filter, take, Bool-cases, inl, inr,
}
use repolens.Sql.Result.{ok, ◌>>=◌}
use repolens.Sql.Table.{find}
use repolens.Jobs.Model.{AnalysisJob}
use repolens.Jobs.Db.{Db, JobKey, key_of, job_key, set_jobs}
use repolens.Jobs.Claim.{is_due, claimed_job, claim_candidates, claim_jobs}
use repolens.Jobs.Lifecycle.Exclusive.{claimed_list, claimed_table, claim_each-eq}

find-filter :
    {R K : Type 0} ⦃e : Eq K⦄ (key : R → K) (k : K) (p : R → Bool) (t : List R) (r : R)
    → find key k t ≡ some r
    → p r ≡ true
    → find key k (filter p t) ≡ some r
unfolding find
find-filter key k p [] r found met = ground arith
find-filter key k p (a ∷ t) r found met = ground (arith, find-filter key k p t r)

take_all : {A : Type 0} (n : ℕ) (t : List A) → length t ≤ n → take n t ≡ t
take_all zero [] h = refl
take_all zero (a ∷ t) h = absurd (omega arith)
take_all (suc n) [] h = refl
take_all (suc n) (a ∷ t) h = rw (take_all n t (omega arith)) refl

module _ (worker : String) (token : ℕ → String) (lease now : ℕ) where
  find-claimed_list :
      (key : JobKey) (i : ℕ) (cs : List AnalysisJob) (c : AnalysisJob)
      → find key_of key cs ≡ some c
      → (n : ℕ) × (find key_of key (claimed_list worker token lease now i cs)
          ≡ some (claimed_job worker (token n) lease now c))
  unfolding find
  find-claimed_list key i [] c found = ground arith
  find-claimed_list key i (a ∷ cs) c found = elim (Bool-cases (key_of a == key)) [
    | inl hit ↦ (i, ground arith)
    | inr miss ↦ let (n, e) = find-claimed_list key (suc i) cs c (ground arith) in (n, ground arith)
  ]

  -- A due job is among those that a claim returns whose batch has room for all that is due.
  pub claim_serves_due :
      (batch_size duration : ℕ) (key : JobKey) (db : Db) (j : AnalysisJob)
      → lease ≡ now + duration
      → find key_of key db.jobs ≡ some j
      → is_due now j ≡ true
      → length (filter (is_due now) db.jobs) ≤ batch_size
      → (out : List AnalysisJob) × (db' : Db) × (n : ℕ) × (claim_jobs worker token batch_size
            duration now db
          ≡ ok (out, db'))
        × (find key_of key out ≡ some (claimed_job worker (token n) lease now j))
  unfolding claim_jobs ◌>>=◌
  claim_serves_due batch_size duration key db j lasts found due room =
      let cs = claim_candidates now batch_size db in
      let chosen : find key_of key cs ≡ some j =
        rw (take_all batch_size (filter (is_due now) db.jobs) room)
          (find-filter key_of key (is_due now) db.jobs j found due) in
      let (n, e) = find-claimed_list key 0 cs j chosen in
      (
        claimed_list worker token lease now 0 cs,
        set_jobs db (claimed_table worker token lease now 0 cs db.jobs),
        n,
        rw lasts (claim_each-eq worker token (now + duration) now 0 cs db),
        e,
      )
