-- ===== src/Jobs/Claim.antt =====
-- internal/jobs/store.go, the life of a claim: CreateJobTx, ClaimJobs, MarkExecutionStarted,
-- ReturnUndispatchedClaim, RenewLease, IsCancelRequested and RequestCancel. `now` is the clock of
-- the call, for the database's own clock too.
pub mod Start
pub mod Fencing
use repolens.Base.{
  ℕ, suc, ◌+◌, String, Bool, true, false, not, ◌&&◌, Option, none, some, List, [], ◌∷◌, ◌++◌, ltb,
  leb, nat_eq, text_key, is_value, if◌then◌else◌, take, filter,
}
use repolens.Sql.Result.{ok, err, pure, fail, query, guard, ◌>>=◌, ◌>>◌}
use repolens.Jobs.Model.{
  JobType, JobStatus, pending, running, AnalysisJob, ownership_lost, cancellation_not_requested,
  cancellation_unsupported, driver_fault, is_diagnosis, is_running, is_claimable, is_active,
}
use repolens.Jobs.Db.{Db, StoreTx, job_row, job_by_resource, update_job, update_job_by_resource}

-- What the caller of CreateJobTx fills in; `none` and 0 are the Go zero values, which it replaces.
pub record JobSpec : Type 0 where
  pub job_type : JobType
  pub resource_id : String
  pub status : Option JobStatus
  pub execution_generation : ℕ
  pub attempt_count : ℕ
  pub max_attempts : ℕ
  pub next_run_at : Option ℕ
  pub cancel_requested : Bool

abbrev pub or_default : {A : Type 0} → A → Option A → A
or_default d none = d
or_default d (some a) = a

abbrev pub new_job : ℕ → ℕ → JobSpec → AnalysisJob
new_job id now spec = record {
  id = id;
  job_type = spec.job_type;
  resource_id = spec.resource_id;
  status = or_default pending spec.status;
  execution_generation =
      if nat_eq spec.execution_generation 0 then 1 else spec.execution_generation;
  terminal_reason = none;
  attempt_count = spec.attempt_count;
  execution_started = false;
  max_attempts = if nat_eq spec.max_attempts 0 then 3 else spec.max_attempts;
  next_run_at = or_default now spec.next_run_at;
  worker_id = none;
  claim_token = none;
  lease_until = none;
  cancel_requested = spec.cancel_requested;
  last_error_class = none;
  last_error_code = none;
  last_error_message = none;
  created_at = now;
  updated_at = now;
  finished_at = none;
}

-- An INSERT that would repeat uq_job_resource is refused by the database.
unfoldable pub insert_job : AnalysisJob → Option AnalysisJob → StoreTx ℕ
insert_job j (some _) db = err driver_fault
insert_job j none db =
    ok (j.id, record db { jobs = db.jobs ++ j ∷ []; next_job_id = suc db.next_job_id })

unfoldable pub create_job : ℕ → JobSpec → StoreTx ℕ
unfolding insert_job
create_job now spec db =
    insert_job (new_job db.next_job_id now spec) (job_by_resource spec.job_type spec.resource_id db)
      db

abbrev pub is_due : ℕ → AnalysisJob → Bool
is_due now j = is_claimable j.status && leb j.next_run_at now

-- WHERE status IN (...) AND next_run_at <= ? ORDER BY id LIMIT ?
abbrev pub claim_candidates : ℕ → ℕ → Db → List AnalysisJob
claim_candidates now batch_size db = take batch_size (filter (is_due now) db.jobs)

-- The row that the UPDATE of ClaimJobs writes.
abbrev pub claim_row : String → String → ℕ → ℕ → AnalysisJob → AnalysisJob
claim_row worker token lease now j = record j {
  status = running;
  worker_id = some worker;
  claim_token = some token;
  lease_until = some lease;
  execution_started = false;
  updated_at = now;
}

-- The value that ClaimJobs returns for a candidate: what it selected and wrote, zero values elsewhere.
abbrev pub claimed_job : String → String → ℕ → ℕ → AnalysisJob → AnalysisJob
claimed_job worker token lease now c = record {
  id = c.id;
  job_type = c.job_type;
  resource_id = c.resource_id;
  status = running;
  execution_generation = c.execution_generation;
  terminal_reason = none;
  attempt_count = c.attempt_count;
  execution_started = false;
  max_attempts = c.max_attempts;
  next_run_at = now;
  worker_id = some worker;
  claim_token = some token;
  lease_until = some lease;
  cancel_requested = c.cancel_requested;
  last_error_class = none;
  last_error_code = none;
  last_error_message = none;
  created_at = 0;
  updated_at = now;
  finished_at = none;
}

-- The loop over the candidates. `token i` is the i-th `uuid.New()` of the call.
unfoldable pub claim_each :
    String → (ℕ → String) → ℕ → ℕ → ℕ → List AnalysisJob → StoreTx (List AnalysisJob)
claim_each worker token lease now i [] = pure []
claim_each worker token lease now i (c ∷ cs) = do
  update_job c.id (λ _. true) (claim_row worker (token i) lease now)
  rest ← claim_each worker token lease now (suc i) cs
  pure (claimed_job worker (token i) lease now c ∷ rest)

unfoldable pub claim_jobs : String → (ℕ → String) → ℕ → ℕ → ℕ → StoreTx (List AnalysisJob)
unfolding claim_each
claim_jobs worker token batch_size lease_duration now = do
  candidates ← query (claim_candidates now batch_size)
  claim_each worker token (now + lease_duration) now 0 candidates

-- lease_until > the database's clock, false for NULL
abbrev pub lease_is_live : ℕ → AnalysisJob → Bool
lease_is_live now j = elim j.lease_until [ none ↦ false | some t ↦ ltb now t ]

-- status = 'RUNNING' AND worker_id = ? AND claim_token = ?
abbrev pub holds_claim : String → String → AnalysisJob → Bool
holds_claim worker token j =
    is_running j.status && is_value j.worker_id worker && is_value j.claim_token token

-- What the UPDATE and the SELECT of MarkExecutionStarted share.
abbrev pub holds_live_claim : String → String → ℕ → ℕ → AnalysisJob → Bool
holds_live_claim worker token generation now j =
    holds_claim worker token j && nat_eq j.execution_generation generation && lease_is_live now j

abbrev pub start_row : ℕ → AnalysisJob → AnalysisJob
start_row now j = record j {
  execution_started = true;
  attempt_count = j.attempt_count + 1;
  updated_at = now;
}

-- The final SELECT: no row means that ownership was lost.
unfoldable pub started_attempt : (AnalysisJob → Bool) → Option AnalysisJob → StoreTx ℕ
started_attempt c none = fail ownership_lost
started_attempt c (some j) = if c j then pure j.attempt_count else fail ownership_lost

unfoldable pub mark_execution_started : ℕ → String → String → ℕ → ℕ → StoreTx ℕ
unfolding started_attempt
mark_execution_started id worker token generation now = do
  update_job id (λ j. holds_live_claim worker token generation now j && not j.execution_started)
      (start_row now)
  row ← query (job_row id)
  started_attempt (λ j. holds_live_claim worker token generation now j && j.execution_started) row

abbrev pub release_row : ℕ → AnalysisJob → AnalysisJob
release_row now j = record j {
  status = pending;
  worker_id = none;
  claim_token = none;
  lease_until = none;
  finished_at = none;
  updated_at = now;
}

unfoldable pub return_undispatched_claim : ℕ → String → String → ℕ → ℕ → StoreTx (Unit {0})
return_undispatched_claim id worker token generation now = do
  affected ←
      update_job id
        (λ j.
          holds_claim worker token j
          && nat_eq j.execution_generation generation
          && not j.execution_started)
        (release_row now)
  guard (nat_eq affected 1) ownership_lost

unfoldable pub renew_lease : ℕ → String → String → ℕ → ℕ → StoreTx (Unit {0})
renew_lease id worker token new_lease_until now = do
  affected ←
      update_job id (λ j. holds_claim worker token j && lease_is_live now j)
        (λ j. record j { lease_until = some new_lease_until; updated_at = now })
  guard (not (nat_eq affected 0)) ownership_lost

unfoldable pub cancel_flag : String → String → Option AnalysisJob → StoreTx Bool
cancel_flag worker token none = fail ownership_lost
cancel_flag worker token (some j) =
    if holds_claim worker token j then pure j.cancel_requested else fail ownership_lost

unfoldable pub is_cancel_requested : ℕ → String → String → StoreTx Bool
unfolding cancel_flag
is_cancel_requested id worker token = do row ← query (job_row id); cancel_flag worker token row

unfoldable pub request_cancel : JobType → String → ℕ → StoreTx (Unit {0})
request_cancel kind resource now = do
  guard (is_diagnosis kind) cancellation_unsupported
  affected ←
      update_job_by_resource kind resource (λ j. is_active j.status)
        (λ j. record j { cancel_requested = true; updated_at = now })
  guard (not (nat_eq affected 0)) cancellation_not_requested
