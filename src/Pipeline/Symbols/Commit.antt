-- ===== src/Pipeline/Symbols/Commit.antt =====
-- internal/codeintel/store/store.go, SaveAnalysisResult: what the symbol store has after a result is
-- saved.
use repolens.Base.{
  ◌≡◌, refl, sym, ◌∙◌, subst, ℕ, ◌+◌, true, some, List, [], ◌++◌, length, All, nat_eq, nat_key,
}
use repolens.Sql.Result.{Result, ok, err, ◌>>=◌}
use repolens.Sql.Table.{update, count_row, find-update_self}
use repolens.Sql.Read.{
  Ensures, Ensures-ok, Ensures-then, Ensures-query, Ensures-stop, Ensures-last_guard,
}
use repolens.Pipeline.Model.{
  Symbol, SymbolRelation, CodeIndexBuild, build_ready, PipelineDb, PipelineTx, PipelineError,
  is_building, code_build_row, update_code_build,
}
use repolens.Pipeline.Symbols.{
  AnalysisResult, IdMap, file_map, save_files, save_symbols, save_relations, save_related_tests,
  test_relation_keys, lift, insert_rows, analysed_row, save_analysis_result,
}
use repolens.Pipeline.Symbols.Known.{HasNoCollision, Saved, save_symbols-Saved}
use repolens.Pipeline.Symbols.Linked.{IsLinked, IsUnlinked, HasTest, relations-AreLinked}
use repolens.Pipeline.Finalize.Owned.{affects_one}

-- The build is READY, and the tables have grown by rows that belong together.
pub record IsSaved (build : ℕ) (res : AnalysisResult) (db db' : PipelineDb) : Type 0 where
  pub new_symbols : List Symbol
  pub new_relations : List SymbolRelation
  pub symbols : db'.symbols ≡ db.symbols ++ new_symbols
  pub relations : db'.relations ≡ db.relations ++ new_relations
  pub count : length new_symbols ≡ length res.symbols
  pub no_collision : HasNoCollision new_symbols
  pub are_linked : All (IsLinked new_symbols) new_relations
  pub are_tested : All (HasTest new_relations) res.related_tests
  pub built :
      (b : CodeIndexBuild) × (code_build_row build db' ≡ some b)
      × (b.status ≡ build_ready)
      × (b.symbol_count ≡ length new_symbols)
  pub same_revisions : db'.revisions ≡ db.revisions
  pub same_snapshots : db'.snapshots ≡ db.snapshots
  pub same_jobs : db'.jobs ≡ db.jobs
  pub same_retrieval_builds : db'.retrieval_builds ≡ db.retrieval_builds
  pub same_next_retrieval : db'.next_retrieval_build_id ≡ db.next_retrieval_build_id

module _ {A B : Type 0} {Q : B → PipelineDb → Type 0} where
  Ensures-lift :
      (r : Result PipelineError A) (f : A → PipelineTx B) (db : PipelineDb)
      → ((a : A) → r ≡ ok a → Ensures Q (f a) db)
      → Ensures Q (lift r >>= f) db
  unfolding lift
  Ensures-lift (err e) f db k = Ensures-stop _ f db e refl
  Ensures-lift (ok a) f db k = Ensures-then _ f db db a refl (k a refl)

module _ (build : ℕ) (res : AnalysisResult) (now : ℕ) (db : PipelineDb) where
  abbrev paths : IdMap
  paths = file_map (save_files build now db.next_code_file_id res.files) []

  abbrev saved_relations : IdMap → List SymbolRelation
  saved_relations hashes = save_relations build paths hashes db.next_relation_id res.relations

  abbrev rows_after : List Symbol → IdMap → List SymbolRelation → PipelineDb
  rows_after symbols hashes tests =
      let files = save_files build now db.next_code_file_id res.files in
      let relations = saved_relations hashes ++ tests in
      record db {
        code_builds =
            update (λ (b : CodeIndexBuild). b.id) build (λ b. is_building b.status)
              (analysed_row res now) db.code_builds;
        code_files = db.code_files ++ files;
        symbols = db.symbols ++ symbols;
        relations = db.relations ++ relations;
        next_code_file_id = db.next_code_file_id + length files;
        next_symbol_id = db.next_symbol_id + length symbols;
        next_relation_id = db.next_relation_id + length relations;
      }

  committed :
      (symbols : List Symbol) (hashes : IdMap) (tests : List SymbolRelation)
      → All IsUnlinked res.relations
      → save_symbols build paths db.next_symbol_id [] res.symbols ≡ ok (symbols, hashes)
      → save_related_tests build paths hashes
          (db.next_relation_id + length (saved_relations hashes))
          (test_relation_keys (saved_relations hashes))
          res.related_tests
        ≡ ok tests
      → nat_eq
          (count_row (λ (b : CodeIndexBuild). is_building b.status) (code_build_row build db))
          1
        ≡ true
      → IsSaved build res db (rows_after symbols hashes tests)
  committed symbols hashes tests unlinked e te one =
      let (known, new, clean, count) =
        subst (Saved [] res.symbols) e
          (save_symbols-Saved build paths db.next_symbol_id [] res.symbols) in
      let (linked, tested) =
        relations-AreLinked build paths hashes symbols known db.next_relation_id _ res.relations
          res.related_tests tests unlinked te in
      let (b, found, is) =
        affects_one (λ (b : CodeIndexBuild). is_building b.status) (code_build_row build db) one in
      record {
        new_symbols = symbols;
        new_relations = saved_relations hashes ++ tests;
        symbols = refl;
        relations = refl;
        count = count;
        no_collision = clean;
        are_linked = linked;
        are_tested = tested;
        built = (
          analysed_row res now b,
          find-update_self (λ (x : CodeIndexBuild). x.id) build (λ x. is_building x.status)
                (analysed_row res now) db.code_builds (λ x. refl)
              ∙ rw (found, is) refl,
          refl,
          sym count,
        );
        same_revisions = refl;
        same_snapshots = refl;
        same_jobs = refl;
        same_retrieval_builds = refl;
        same_next_retrieval = refl;
      }

  pub saved :
      All IsUnlinked res.relations
      → Ensures (λ _ db'. IsSaved build res db db') (save_analysis_result build res now) db
  unfolding save_analysis_result insert_rows update_code_build
  saved unlinked = Ensures-query _ _ db (
      Ensures-lift (save_symbols build paths db.next_symbol_id [] res.symbols) _ db
        λ (symbols, hashes) e. Ensures-lift _ _ db λ tests te. Ensures-then _ _ db _ tt refl (
          Ensures-then _ _ _ _ _ refl
            (Ensures-last_guard _ _ _ λ one. committed symbols hashes tests unlinked e te one)))

-- If a result whose relations have no ids yet is saved, then its build is READY and counts its
-- symbols; no two of the new symbols have the same hash; every symbol id of a new relation is the id
-- of a new symbol with the hash beside it; and every discovered test has a test relation among the
-- new ones. Revisions, snapshots, jobs and
-- retrieval builds are as before.
pub save_analysis_result-IsSaved :
    (build : ℕ) (res : AnalysisResult) (now : ℕ) (db db' : PipelineDb)
    → All IsUnlinked res.relations
    → save_analysis_result build res now db ≡ ok (tt, db')
    → IsSaved build res db db'
save_analysis_result-IsSaved build res now db db' unlinked e =
    Ensures-ok (saved build res now db unlinked) e
