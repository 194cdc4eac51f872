-- ===== src/Pipeline/Retry/Restart.antt =====
-- internal/analysispipeline/store.go, retryPreparationOnce: what a retry that commits has started,
-- against the first stage of the revision that is not READY.
use repolens.Base.{
  ◌≡◌, refl, sym, ◌∙◌, subst, ℕ, String, true, false, none, some, List, nat_eq, nat_key, text_key,
  ==_refl, Option-cases, inl, inr, and_intro,
}
use repolens.Sql.Result.{ok}
use repolens.Sql.Table.{key-find, find-found}
use repolens.Sql.Read.{
  Ensures, Ensures-ok, Ensures-pure, Ensures-fail, Ensures-if, Ensures-then, Ensures-read,
  Ensures-guard, Ensures-bind, Ensures-query, Ensures-weaken, Ensures-stop, read_missing,
  read_found,
}
use repolens.Jobs.Model.{materialize_snapshot, build_code_index, build_retrieval}
use repolens.Pipeline.Model.{
  AnalysisRevision, RevisionStatus, preparing, revision_ready, revision_failed, Stage,
  stage_materializing, stage_building_code, stage_building_search, RepositorySnapshot,
  CodeIndexBuild, RetrievalBuild, PipelineDb, is_failed_revision, is_ready_snapshot, is_ready_build,
  revision_row, snapshot_row, code_build_row, retrieval_build_row, decimal,
}
use repolens.Pipeline.Store.{Hashes}
use repolens.Pipeline.Builds.Steps.{
  Ensures-reset_job, Ensures-update_revision, Ensures-update_snapshot, Ensures-reset_code_build,
  Ensures-reset_retrieval_build, Ensures-ensure_code_build, Ensures-ensure_retrieval_build,
}
use repolens.Pipeline.Retry.{
  restart_revision_row, refuse_unless_failed, owns_snapshot, owns_code_build, owns_retrieval_build,
  restart_snapshot, start_code_index, restart_code_index, start_retrieval, restart_retrieval,
  publish_revision, retry_retrieval, retry_code_index, retry_preparation_once,
}
use repolens.Pipeline.Retry.Unfinished.{
  snapshot_is_ready, code_build_is_ready, first_unfinished, first_is_snapshot, first_is_code_index,
  first_is_retrieval, first_is_none, no_code_build, no_retrieval_build, code_build_test,
  retrieval_build_test, HasWork, status_of, IsRestart,
}
use repolens.Pipeline.Retry.Later.{Ensures-reset_code_build_of, Ensures-reset_retrieval_build_of}

-- The rest of a retry, after the revision's own update: `db` is the state before it.
module _ (h : Hashes) (now : ℕ) (old : AnalysisRevision) (db : PipelineDb)
    (revisions : List AnalysisRevision) where
  abbrev value : AnalysisRevision
  value = restart_revision_row now old

  abbrev value_at : Stage → ℕ → ℕ → AnalysisRevision
  value_at st code retrieval = record value {
    stage = st;
    code_index_build_id = code;
    retrieval_build_id = retrieval;
  }

  abbrev db1 : PipelineDb
  db1 = record db { revisions = revisions }

  module _ (failed : is_failed_revision old.status ≡ true)
      (found : revision_row old.id db1 ≡ some value) where
    IsRestart-value_at :
        (st : Stage) (code retrieval : ℕ) (db' : PipelineDb)
        → first_unfinished db old ≡ st
        → preparing ≡ status_of st
        → revision_row old.id db' ≡ some (value_at st code retrieval)
        → HasWork now st (value_at st code retrieval) db'
        → IsRestart now old db (value_at st code retrieval) db'
    IsRestart-value_at st code retrieval db' first status stored work = record {
      was_failed = failed;
      stored = stored;
      same_id = refl;
      next_generation = refl;
      next_version = refl;
      stage = sym first;
      status = status;
      work = work;
    }

    restarts_snapshot :
        first_unfinished db old ≡ stage_materializing
        → Ensures (IsRestart now old db) (restart_snapshot value now) db1
    unfolding restart_snapshot
    restarts_snapshot first = Ensures-update_snapshot old.snapshot_id _ _ _ db1 λ _ snapshots.
        Ensures-reset_code_build_of old.code_index_build_id _ _ λ _ code_builds.
          Ensures-reset_retrieval_build_of old.retrieval_build_id _ _ λ _ retrieval_builds.
            Ensures-reset_job materialize_snapshot old.snapshot_id _ now _ _ λ jobs next waiting.
              Ensures-pure _ _ (
                IsRestart-value_at stage_materializing old.code_index_build_id
                  old.retrieval_build_id _ first refl found waiting)

    restarts_code_index :
        first_unfinished db old ≡ stage_building_code
        → Ensures (IsRestart now old db) (restart_code_index value now) db1
    unfolding restart_code_index
    restarts_code_index first =
        Ensures-reset_code_build old.code_index_build_id _ db1 λ _ code_builds.
          Ensures-update_revision _ _ _ _ _ value found refl (λ x. refl)
            λ revisions' found'.
              Ensures-reset_job build_code_index (decimal old.code_index_build_id) _ now _ _
                λ jobs next waiting. Ensures-pure _ _ (
                  IsRestart-value_at stage_building_code old.code_index_build_id
                    old.retrieval_build_id _ first refl found' waiting)

    starts_code_index :
        first_unfinished db old ≡ stage_building_code
        → Ensures (IsRestart now old db) (start_code_index h value now) db1
    unfolding start_code_index
    starts_code_index first = Ensures-query _ _ db1 (
        Ensures-ensure_code_build h old.id old.snapshot_id _ now _ db1 λ id code_builds next.
          Ensures-update_revision _ _ _ _ _ value found refl (λ x. refl)
            λ revisions' found'.
              Ensures-reset_job build_code_index (decimal id) _ now _ _ λ jobs next waiting.
                Ensures-pure _ _ (
                  IsRestart-value_at stage_building_code id old.retrieval_build_id _ first refl
                    found' waiting))

    restarts_retrieval :
        first_unfinished db old ≡ stage_building_search
        → Ensures (IsRestart now old db) (restart_retrieval value now) db1
    unfolding restart_retrieval
    restarts_retrieval first =
        Ensures-reset_retrieval_build old.retrieval_build_id _ db1 λ _ retrieval_builds.
          Ensures-update_revision _ _ _ _ _ value found refl (λ x. refl)
            λ revisions' found'.
              Ensures-reset_job build_retrieval (decimal old.retrieval_build_id) _ now _ _
                λ jobs next waiting. Ensures-pure _ _ (
                  IsRestart-value_at stage_building_search old.code_index_build_id
                    old.retrieval_build_id _ first refl found' waiting)

    starts_retrieval :
        first_unfinished db old ≡ stage_building_search
        → Ensures (IsRestart now old db) (start_retrieval h value now) db1
    unfolding start_retrieval
    starts_retrieval first =
        Ensures-ensure_retrieval_build h old.id old.code_index_build_id now _ db1
          λ id retrieval_builds next.
            Ensures-update_revision _ _ _ _ _ value found refl (λ x. refl)
              λ revisions' found'.
                Ensures-reset_job build_retrieval (decimal id) _ now _ _ λ jobs next waiting.
                  Ensures-pure _ _ (
                    IsRestart-value_at stage_building_search old.code_index_build_id id _ first refl
                      found' waiting)

    -- The snapshot is found, and READY.
    module _ (s : RepositorySnapshot) (found_s : snapshot_row old.snapshot_id db ≡ some s)
        (owned_s : owns_snapshot old s ≡ true) (ready_s : is_ready_snapshot s.status ≡ true) where
      snapshot_test : snapshot_is_ready (snapshot_row old.snapshot_id db) ≡ true
      snapshot_test = rw (found_s, ready_s) refl

      -- The code index build too.
      module _ (c : CodeIndexBuild) (there_c : nat_eq old.code_index_build_id 0 ≡ false)
          (found_c : code_build_row old.code_index_build_id db ≡ some c)
          (owned_c : owns_code_build old c ≡ true) (ready_c : is_ready_build c.status ≡ true) where
        code_test :
            code_build_is_ready old.code_index_build_id (code_build_row old.code_index_build_id db)
            ≡ true
        code_test = code_build_test old.code_index_build_id c _ there_c found_c ∙ ready_c

        publishes :
            (b : RetrievalBuild)
            → nat_eq old.retrieval_build_id 0 ≡ false
            → retrieval_build_row old.retrieval_build_id db ≡ some b
            → owns_retrieval_build old b ≡ true
            → is_ready_build b.status ≡ true
            → Ensures (IsRestart now old db) (publish_revision value now) db1
        unfolding publish_revision
        publishes b there_b found_b owned_b ready_b =
            Ensures-update_revision _ _ _ _ _ value found refl (λ x. refl)
              λ revisions' found'. Ensures-pure _ _ (record {
                was_failed = failed;
                stored = found';
                same_id = refl;
                next_generation = refl;
                next_version = refl;
                stage = sym (
                    first_is_none db old snapshot_test code_test
                      (retrieval_build_test old.retrieval_build_id b _ there_b found_b ∙ ready_b));
                status = refl;
                work = (
                  s,
                  c,
                  b,
                  record {
                    snapshot_found = found_s;
                    code_build_found = found_c;
                    retrieval_build_found = found_b;
                    ready_snapshot = ready_s;
                    ready_code_build = ready_c;
                    ready_retrieval_build = ready_b;
                    snapshot_is_owned = owned_s;
                    code_build_is_owned = owned_c;
                    retrieval_build_is_owned = owned_b;
                  },
                );
              })

        retries_retrieval : Ensures (IsRestart now old db) (retry_retrieval h value now) db1
        unfolding retry_retrieval
        retries_retrieval =
            Ensures-if (nat_eq old.retrieval_build_id 0) _ _ db1
              (λ absent. starts_retrieval (
                first_is_retrieval db old snapshot_test code_test
                  (no_retrieval_build old.retrieval_build_id _ absent)))
              λ there.
                Ensures-read (retrieval_build_row old.retrieval_build_id) _ _ db1 λ b found_b.
                  Ensures-guard _ _ _ db1 λ owned_b.
                    Ensures-if (is_ready_build b.status) _ _ db1
                      (λ ready. publishes b there found_b owned_b ready)
                      λ unready. restarts_retrieval (
                        first_is_retrieval db old snapshot_test code_test
                          (retrieval_build_test old.retrieval_build_id b _ there found_b ∙ unready))

      retries_code_index : Ensures (IsRestart now old db) (retry_code_index h value now) db1
      unfolding retry_code_index
      retries_code_index =
          Ensures-if (nat_eq old.code_index_build_id 0) _ _ db1
            (λ absent. starts_code_index (
              first_is_code_index db old snapshot_test
                (no_code_build old.code_index_build_id _ absent)))
            λ there. Ensures-read (code_build_row old.code_index_build_id) _ _ db1 λ c found_c.
              Ensures-guard _ _ _ db1 λ owned_c.
                Ensures-if (is_ready_build c.status) _ _ db1
                  (λ ready. retries_retrieval c there found_c owned_c ready)
                  λ unready. restarts_code_index (
                    first_is_code_index db old snapshot_test
                      (code_build_test old.code_index_build_id c _ there found_c ∙ unready))

refused :
    (status : RevisionStatus) (db : PipelineDb)
    → Ensures
        (λ _ db'. (is_failed_revision status ≡ true) × (db' ≡ db))
        (refuse_unless_failed status)
        db
unfolding refuse_unless_failed
refused revision_failed db = Ensures-pure tt db (refl, refl)
refused preparing db = Ensures-fail _ db
refused revision_ready db = Ensures-fail _ db

retries_old :
    (h : Hashes) (now : ℕ) (old : AnalysisRevision) (db : PipelineDb)
    → revision_row old.id db ≡ some old
    → Ensures (IsRestart now old db) (retry_preparation_once h old.id now) db
unfolding retry_preparation_once
retries_old h now old db found =
    Ensures-then _ _ db db old (read_found (revision_row old.id) _ db old found) (
      Ensures-bind _ _ _ db (refused old.status db) λ _ db' (failed, same).
        subst (Ensures (IsRestart now old db) _) (sym same) (
          Ensures-update_revision _ _ _ _ db old found
            (and_intro _ _ (and_intro _ _ failed (==_refl old.version))
              (==_refl old.execution_generation))
            (λ x. refl)
            λ revisions found'. Ensures-guard _ _ _ _ λ _.
              Ensures-read (snapshot_row old.snapshot_id) _ _ _ λ s found_s.
                Ensures-guard _ _ _ _ λ owned_s.
                  Ensures-if (is_ready_snapshot s.status) _ _ _
                    (λ ready.
                      retries_code_index h now old db revisions failed found' s found_s owned_s
                        ready)
                    λ unready.
                      restarts_snapshot h now old db revisions failed found'
                        (first_is_snapshot db old (rw (found_s, unready) refl))))

abbrev pub Restarted : String → ℕ → PipelineDb → AnalysisRevision → PipelineDb → Type 0
Restarted id now db r db' =
    (old : AnalysisRevision) × (revision_row id db ≡ some old) × IsRestart now old db r db'

retry_missing :
    (h : Hashes) (id : String) (now : ℕ) (db : PipelineDb)
    → revision_row id db ≡ none
    → Ensures (Restarted id now db) (retry_preparation_once h id now) db
unfolding retry_preparation_once
retry_missing h id now db absent =
    Ensures-stop _ _ db _ (read_missing (revision_row id) _ db absent)

retries :
    (h : Hashes) (id : String) (now : ℕ) (db : PipelineDb)
    → Ensures (Restarted id now db) (retry_preparation_once h id now) db
retries h id now db = elim (Option-cases (revision_row id db)) [
  | inl absent ↦ retry_missing h id now db absent
  | inr (old, found) ↦
      Ensures-weaken (IsRestart now old db) _ db (λ r db' restart. (old, found, restart))
        (subst (λ i. Ensures (IsRestart now old db) (retry_preparation_once h i now) db)
          (key-find (λ (x : AnalysisRevision). x.id) id db.revisions old found)
          (retries_old h now old db
            (find-found (λ (x : AnalysisRevision). x.id) id db.revisions old found)))
]

-- A retry that commits has taken a FAILED revision into its next execution generation and version,
-- and has stored the row that it returns. The stage of the row is the first one that is not READY
-- (of snapshot, code index, retrieval index). The stage's job is PENDING and due, in the new
-- generation, with no attempts, no claim and no cancellation; with every stage READY the revision is
-- READY itself, and its three rows are there, READY and linked to it.
pub retry_restarts_first_unfinished :
    (h : Hashes) (id : String) (now : ℕ) (db db' : PipelineDb) (r : AnalysisRevision)
    → retry_preparation_once h id now db ≡ ok (r, db')
    → Restarted id now db r db'
retry_restarts_first_unfinished h id now db db' r e = Ensures-ok (retries h id now db) e
