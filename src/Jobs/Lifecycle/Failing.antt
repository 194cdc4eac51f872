-- ===== src/Jobs/Lifecycle/Failing.antt =====
-- A terminal failure leaves the resource of a build job FAILED too (internal/jobs/store.go,
-- failBusinessTx).
use repolens.Base.{
  ap, subst, ℕ, String, ◌≡◌, refl, sym, ◌∙◌, Bool, true, false, nat_eq, text_key, Option, none,
  some, not_both, if◌then◌else◌,
}
use repolens.Sql.Result.{Result, Tx, ok, err, pure, guard, ◌>>=◌, bind_ok}
use repolens.Sql.Table.{update, count_row, map_row, when_row, find-update_self}
use repolens.Sql.Moves.{Outcome, Moves, Moves-pure, Moves-bind}
use repolens.Jobs.Model.{
  JobType, materialize_snapshot, build_code_index, build_retrieval, run_diagnosis, other,
  AnalysisJob, is_diagnosis, StoreError,
}
use repolens.Jobs.Db.{
  Db, Resource, resource_row, resource_table, set_resource_table, statements, job_row, scan,
  scan_row,
}
use repolens.Jobs.Business.{
  is_unfinished, is_resource_failed, fail_resource_row, resource_is_failed, fail_resource,
  fail_business_object, fail_business_of, fail_business,
}
use repolens.Jobs.Lifecycle.Failed.{IsFailed, EndsFailed, Stays-preorder, stay_failure}
use repolens.Jobs.Finalize.{Failure, failed_row, owns_execution, finalize_failure}
use repolens.Jobs.Finalize.Owner.{may_fail, terminal_failure_of_owner}

carried :
    {S E B : Type 0} (P : S → Type 0) (s t : S) (q : Result E (B × S))
    → P t
    → Outcome (λ (a b : S). P a → P b) t q
    → Outcome (λ (a b : S). P b) s q
carried P s t (err e) h m = tt
carried P s t (ok (b, u)) h m = m h

module _ {S E A B : Type 0} (P : S → Type 0) where
  rest_ends :
      (f : A → Tx S E B) (s : S) (r : Result E (A × S))
      → Outcome (λ (a b : S). P b) s r
      → ((a : A) → Moves (λ (a b : S). P a → P b) (f a))
      → Outcome (λ (a b : S). P b) s (elim r [ ok (a, t) ↦ f a t | err e ↦ err e ])
  rest_ends f s (err e) h k = tt
  rest_ends f s (ok (a, t)) h k = carried P s t (f a t) h ((k a).at t)

  -- A first part that ends in `P`, and a rest that keeps it.
  ends_bind :
      (m : Tx S E A) (f : A → Tx S E B) (s : S)
      → Outcome (λ (a b : S). P b) s (m s)
      → ((a : A) → Moves (λ (a b : S). P a → P b) (f a))
      → Outcome (λ (a b : S). P b) s ((m >>= f) s)
  unfolding ◌>>=◌
  ends_bind m f s h k = rest_ends f s (m s) h k

checked :
    (kind : JobType) (id : String) (s t : Db) (b : Bool) (e : StoreError)
    → (b ≡ true → IsFailed kind id t)
    → Outcome (EndsFailed kind id) s (guard b e t)
unfolding ◌>>=◌
checked kind id s t true e h = h refl
checked kind id s t false e h = tt

judged_row :
    (kind : JobType) (id code : String) (s t : Db) (r : Resource) (b : Bool)
    → resource_row kind id t ≡ some (if b then fail_resource_row code r else r)
    → Outcome {E = StoreError} (EndsFailed kind id) s (
        (if nat_eq (if b then 1 else 0) 0
            then resource_is_failed (some (if b then fail_resource_row code r else r))
            else pure tt)
          t)
unfolding resource_is_failed ◌>>=◌
judged_row kind id code s t r true e = (fail_resource_row code r, e, refl)
judged_row kind id code s t r false e =
    checked kind id s t (is_resource_failed r.status) _ (λ h. (r, e, h))

judged_resource :
    (kind : JobType) (id code : String) (s t : Db) (o : Option Resource)
    → resource_row kind id t
      ≡ map_row (when_row (λ r. is_unfinished r.status) (fail_resource_row code)) o
    → Outcome {E = StoreError} (EndsFailed kind id) s (
        (if nat_eq (count_row (λ r. is_unfinished r.status) o) 0
            then resource_is_failed (resource_row kind id t)
            else pure tt)
          t)
unfolding resource_is_failed ◌>>=◌
judged_resource kind id code s t none e = rw e tt
judged_resource kind id code s t (some r) e =
    rw e (judged_row kind id code s t r (is_unfinished r.status) e)

fail_resource-Failed :
    (kind : JobType) (id code : String) (db : Db)
    → resource_row kind id (
        set_resource_table kind db (
          update
            (λ (r : Resource). r.id)
            id
            (λ r. is_unfinished r.status)
            (fail_resource_row code)
            (resource_table kind db)))
      ≡ map_row
          (when_row (λ r. is_unfinished r.status) (fail_resource_row code))
          (resource_row kind id db)
    → Outcome (EndsFailed kind id) db (fail_resource kind id code db)
unfolding fail_resource statements ◌>>=◌
fail_resource-Failed kind id code db e =
    judged_resource kind id code db _ (resource_row kind id db) e

object_ends :
    (kind : JobType) (id code : String) (db : Db)
    → is_diagnosis kind ≡ false
    → Outcome (EndsFailed kind id) db (fail_business_object kind id code db)
unfolding fail_business_object ◌>>=◌
object_ends materialize_snapshot id code db h =
    fail_resource-Failed materialize_snapshot id code db (find-update_self _ _ _ _ _ (λ r. refl))
object_ends build_code_index id code db h =
    fail_resource-Failed build_code_index id code db (find-update_self _ _ _ _ _ (λ r. refl))
object_ends build_retrieval id code db h =
    fail_resource-Failed build_retrieval id code db (find-update_self _ _ _ _ _ (λ r. refl))
object_ends run_diagnosis id code db h = elim (not_both refl h) [ ]
object_ends (other s) id code db h = tt

business_ends :
    (j : AnalysisJob) (reaped : Bool) (code message : String) (now : ℕ) (db : Db)
    → is_diagnosis j.job_type ≡ false
    → Outcome
        (EndsFailed j.job_type j.resource_id)
        db
        (fail_business_of j reaped code message now db)
unfolding fail_business_of
business_ends j reaped code message now db h =
    ends_bind (IsFailed j.job_type j.resource_id) _ _ db (object_ends _ _ _ db h) λ u. rw h (
      Moves-bind (Stays-preorder _ _) _ _ (Moves-pure (Stays-preorder _ _) _)
        λ v. stay_failure j.job_type j.resource_id j.job_type j.resource_id _ _ _)

scanned :
    (id : ℕ) (db : Db) (j : AnalysisJob)
    → job_row id db ≡ some j
    → scan (job_row id) db ≡ ok (j, db)
unfolding statements
scanned id db j found = ap (λ (o : Option AnalysisJob). scan_row o db) found

fail_business-ends :
    (id : ℕ) (reaped : Bool) (code message : String) (now : ℕ) (db : Db) (j : AnalysisJob)
    → job_row id db ≡ some j
    → is_diagnosis j.job_type ≡ false
    → Outcome (EndsFailed j.job_type j.resource_id) db (fail_business id reaped code message now db)
unfolding fail_business
fail_business-ends id reaped code message now db j found h =
    subst (Outcome (EndsFailed j.job_type j.resource_id) db)
      (sym (bind_ok (scan (job_row id)) _ db db j (scanned id db j found)))
      (business_ends j reaped code message now db h)

-- A terminal failure that the owner reports for a job that is no diagnosis, once it is committed,
-- leaves the snapshot or the build that the job works on FAILED, whatever the revision behind it.
pub terminal_failure_reaches_resource :
    (id : ℕ) (worker token : String) (now : ℕ) (db d : Db) (j : AnalysisJob) (f : Failure)
    → job_row id db ≡ some j
    → owns_execution worker token j ≡ true
    → is_diagnosis j.job_type ≡ false
    → f.is_terminal ≡ true
    → finalize_failure id worker token f now db ≡ ok (tt, d)
    → IsFailed j.job_type j.resource_id d
terminal_failure_reaches_resource id worker token now db d j f found owned build terminal
      committed =
    let met : may_fail id worker token now db j j ≡ true = rw (owned, build) refl in
    let ended = terminal_failure_of_owner id worker token now db j found owned f met terminal in
    subst (Outcome (EndsFailed j.job_type j.resource_id) db) (sym ended.0 ∙ committed) (
      fail_business-ends id false f.error_code f.error_message now _ (failed_row f now j) ended.1
        build)
