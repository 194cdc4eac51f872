-- ===== src/Pipeline/Resolver/Chain.antt =====
-- internal/analysispipeline/resolver.go: which revisions are resolved, and to what.
use repolens.Base.{
  Bool-cases, inl, inr, and_left, and_intro, or_right, ◌≡◌, refl, sym, ap, ◌∙◌, ◌↔◌, subst, ℕ,
  String, true, not, ◌&&◌, some, nat_eq, text_key, nat_key, ◌==◌,
}
use repolens.Sql.Result.{ok, bind_ok}
use repolens.Sql.Table.{key-find, find-found}
use repolens.Sql.Read.{
  read_step, guard_step, guard_ok, pure_step, if_true, if_false, Ensures-then, Ensures, Ensures-ok,
  Ensures-pure, Ensures-read, Ensures-guard,
}
use repolens.Pipeline.Model.{
  AnalysisRevision, RepositorySnapshot, CodeIndexBuild, RetrievalBuild, ResolvedLineage, PipelineDb,
  is_ready_revision, is_ready_stage, is_ready_snapshot, is_ready_build, revision_row, snapshot_row,
  code_build_row, retrieval_build_row,
}
use repolens.Pipeline.Resolver.{
  validate_code_build, validate_retrieval_build, validate_lineage, is_incomplete, snapshot_matches,
  lineage_of, resolve_ready_lineage,
}

-- What holds of four rows that a READY revision stands on: each is found under the id that the one
-- above it names, all are READY, and each belongs to the revision.
pub record IsChain (r : AnalysisRevision) (s : RepositorySnapshot) (c : CodeIndexBuild)
    (b : RetrievalBuild) (db : PipelineDb) : Type 0 where
  pub revision_found : revision_row r.id db ≡ some r
  pub snapshot_found : snapshot_row r.snapshot_id db ≡ some s
  pub code_build_found : code_build_row r.code_index_build_id db ≡ some c
  pub retrieval_build_found : retrieval_build_row r.retrieval_build_id db ≡ some b
  pub is_ready : (is_ready_revision r.status && is_ready_stage r.stage) ≡ true
  pub is_complete : not (is_incomplete r) ≡ true
  pub snapshot_is_ready : is_ready_snapshot s.status ≡ true
  pub code_build_is_ready : is_ready_build c.status ≡ true
  pub retrieval_build_is_ready : is_ready_build b.status ≡ true
  pub snapshot_is_owned : snapshot_matches r s ≡ true
  pub code_build_is_owned : (c.snapshot_id == s.id && c.analysis_revision_id == r.id) ≡ true
  pub retrieval_build_is_owned :
      (nat_eq b.code_index_build_id c.id && b.analysis_revision_id == r.id) ≡ true

abbrev pub IsResolved : String → PipelineDb → ResolvedLineage → Type 0
IsResolved id db l =
    (r : AnalysisRevision) × (s : RepositorySnapshot) × (c : CodeIndexBuild) × (b : RetrievalBuild)
    × (r.id ≡ id)
    × IsChain r s c b db
    × (l ≡ lineage_of r s c b)

same_id :
    (id : String) (db : PipelineDb) (r : AnalysisRevision) → revision_row id db ≡ some r → r.id ≡ id
same_id id db r found = key-find (λ (x : AnalysisRevision). x.id) id db.revisions r found

validated_code_build :
    (snapshot : String) (c : CodeIndexBuild) (db : PipelineDb)
    → code_build_row c.id db ≡ some c
    → (c.snapshot_id == snapshot) ≡ true
    → validate_code_build snapshot c.id db ≡ ok (tt, db)
unfolding validate_code_build
validated_code_build snapshot c db found same = elim (Bool-cases (nat_eq c.id 0)) [
  | inl no_build ↦ if_true _ _ _ db no_build ∙ pure_step tt db
  | inr build ↦
      if_false _ _ _ db build
      ∙ read_step (code_build_row c.id) _ _ db c found
      ∙ guard_ok _ _ db same
]

validated_retrieval_build :
    (code_build : ℕ) (b : RetrievalBuild) (db : PipelineDb)
    → retrieval_build_row b.id db ≡ some b
    → nat_eq b.code_index_build_id code_build ≡ true
    → validate_retrieval_build code_build b.id db ≡ ok (tt, db)
unfolding validate_retrieval_build
validated_retrieval_build code_build b db found same = elim (Bool-cases (nat_eq b.id 0)) [
  | inl no_build ↦ if_true _ _ _ db no_build ∙ pure_step tt db
  | inr build ↦
      if_false _ _ _ db build
      ∙ read_step (retrieval_build_row b.id) _ _ db b found
      ∙ guard_ok _ _ db (or_right (nat_eq code_build 0) _ same)
]

validated :
    (repository : String) (s : RepositorySnapshot) (c : CodeIndexBuild) (b : RetrievalBuild)
    (db : PipelineDb)
    → snapshot_row s.id db ≡ some s
    → code_build_row c.id db ≡ some c
    → retrieval_build_row b.id db ≡ some b
    → (s.repository_id == repository && is_ready_snapshot s.status) ≡ true
    → (c.snapshot_id == s.id) ≡ true
    → nat_eq b.code_index_build_id c.id ≡ true
    → validate_lineage repository s.id c.id b.id db ≡ ok (tt, db)
unfolding validate_lineage
validated repository s c b db fs fc fb ready_s same_s same_c =
    read_step (snapshot_row s.id) _ _ db s fs
    ∙ guard_step _ _ _ db ready_s
    ∙ bind_ok _ _ db db tt (validated_code_build s.id c db fc same_s)
    ∙ validated_retrieval_build c.id b db fb same_c

chain_validated :
    (r : AnalysisRevision) (s : RepositorySnapshot) (c : CodeIndexBuild) (b : RetrievalBuild)
    (db : PipelineDb)
    → IsChain r s c b db
    → validate_lineage r.repository_id s.id c.id b.id db ≡ ok (tt, db)
chain_validated r s c b db h =
    validated r.repository_id s c b db
      (find-found (λ (x : RepositorySnapshot). x.id) r.snapshot_id db.snapshots s h.snapshot_found)
      (find-found (λ (x : CodeIndexBuild). x.id) r.code_index_build_id db.code_builds c
        h.code_build_found)
      (find-found (λ (x : RetrievalBuild). x.id) r.retrieval_build_id db.retrieval_builds b
        h.retrieval_build_found)
      (and_intro _ _ (and_left _ _ (and_left _ _ h.snapshot_is_owned)) h.snapshot_is_ready)
      (and_left _ _ h.code_build_is_owned) (and_left _ _ h.retrieval_build_is_owned)

-- The chain of a READY revision is resolved, to the ids of its rows.
pub chain_is_resolved :
    (r : AnalysisRevision) (s : RepositorySnapshot) (c : CodeIndexBuild) (b : RetrievalBuild)
    (db : PipelineDb)
    → IsChain r s c b db
    → resolve_ready_lineage r.id db ≡ ok (lineage_of r s c b, db)
unfolding resolve_ready_lineage
chain_is_resolved r s c b db h =
    read_step (revision_row r.id) _ _ db r h.revision_found
    ∙ guard_step _ _ _ db h.is_ready
    ∙ guard_step _ _ _ db h.is_complete
    ∙ read_step (snapshot_row r.snapshot_id) _ _ db s h.snapshot_found
    ∙ guard_step _ _ _ db h.snapshot_is_ready
    ∙ guard_step _ _ _ db h.snapshot_is_owned
    ∙ read_step (code_build_row r.code_index_build_id) _ _ db c h.code_build_found
    ∙ guard_step _ _ _ db h.code_build_is_owned
    ∙ guard_step _ _ _ db h.code_build_is_ready
    ∙ read_step (retrieval_build_row r.retrieval_build_id) _ _ db b h.retrieval_build_found
    ∙ guard_step _ _ _ db h.retrieval_build_is_owned
    ∙ guard_step _ _ _ db h.retrieval_build_is_ready
    ∙ bind_ok _ _ db db tt (chain_validated r s c b db h)
    ∙ pure_step (lineage_of r s c b) db

IsResolved-lineage :
    (id : String) (db : PipelineDb)
    → Ensures (λ l db'. IsResolved id db l × (db' ≡ db)) (resolve_ready_lineage id) db
unfolding resolve_ready_lineage
IsResolved-lineage id db = Ensures-read (revision_row id) _ _ db λ r fr.
    Ensures-guard _ _ _ db λ ready. Ensures-guard _ _ _ db λ complete.
      Ensures-read (snapshot_row r.snapshot_id) _ _ db λ s fs. Ensures-guard _ _ _ db λ ready_s.
        Ensures-guard _ _ _ db λ owned_s.
          Ensures-read (code_build_row r.code_index_build_id) _ _ db λ c fc.
            Ensures-guard _ _ _ db λ owned_c. Ensures-guard _ _ _ db λ ready_c.
              Ensures-read (retrieval_build_row r.retrieval_build_id) _ _ db λ b fb.
                Ensures-guard _ _ _ db λ owned_b. Ensures-guard _ _ _ db λ ready_b.
                  let same = same_id id db r fr in
                  let chain : IsChain r s c b db = record {
                    revision_found =
                        find-found (λ (x : AnalysisRevision). x.id) id db.revisions r fr;
                    snapshot_found = fs;
                    code_build_found = fc;
                    retrieval_build_found = fb;
                    is_ready = ready;
                    is_complete = complete;
                    snapshot_is_ready = ready_s;
                    code_build_is_ready = ready_c;
                    retrieval_build_is_ready = ready_b;
                    snapshot_is_owned = owned_s;
                    code_build_is_owned = owned_c;
                    retrieval_build_is_owned = owned_b;
                  } in
                  Ensures-then _ _ db db tt (chain_validated r s c b db chain)
                    (Ensures-pure (lineage_of r s c b) db ((r, s, c, b, same, chain, refl), refl))

-- ResolveReadyLineage returns a lineage exactly if the revision is READY with complete identity and
-- its snapshot, code index build and retrieval build are there, READY, its own and linked to each
-- other; the lineage holds their ids. The final ValidateLineage never refuses what passed before.
pub resolve_ready_lineage_iff :
    (id : String) (db : PipelineDb) (l : ResolvedLineage)
    → (resolve_ready_lineage id db ≡ ok (l, db)) ↔ IsResolved id db l
resolve_ready_lineage_iff id db l = (
  λ e. (Ensures-ok (IsResolved-lineage id db) e).0,
  λ (r, s, c, b, same, chain, is_l).
      subst (λ x. resolve_ready_lineage x db ≡ ok (l, db)) same
        (chain_is_resolved r s c b db chain ∙ ap (λ x. ok (x, db)) (sym is_l)),
)
