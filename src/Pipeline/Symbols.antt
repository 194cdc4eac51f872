-- ===== src/Pipeline/Symbols.antt =====
-- internal/codeintel/store/store.go, saveAnalysisResultTx: the rows that an analysis adds to the
-- symbol store. Ids are the next numbers of each table, which the transaction holds to itself; the
-- maps of the source are lists in which the latest entry of a key comes first.
pub mod Known
pub mod Linked
pub mod Commit
use Prim.Native.Char.{nul}
use Prim.Native.String.{◌++◌ as str_append}
use repolens.Base.{
  ◌≡◌, ℕ, zero, suc, ◌+◌, String, Bool, true, false, not, ◌&&◌, Option, none, some, List, [], ◌∷◌,
  ◌++◌, nat_eq, length, nat_key, text_key, ◌==◌, if◌then◌else◌,
}
use repolens.Sql.Result.{Result, ok, err, pure, fail, query, guard, ◌>>=◌, ◌>>◌}
use repolens.Pipeline.Model.{
  CodeFile, Symbol, SymbolRelation, RelationType, test_relation, ResolutionKind, AnalysisQuality,
  CodeIndexBuild, build_ready, PipelineDb, PipelineError, PipelineTx, symbol_collision,
  missing_related_test, finalize_conflict, is_building, update_code_build,
}

pub record RelatedTestDiscovery : Type 0 where
  pub target_symbol_key_hash : String
  pub test_symbol_key_hash : String
  pub test_symbol_name : String
  pub test_file_path : String
  pub reason_code : String
  pub resolution_kind : ResolutionKind
  pub explanation : String
  pub test_line : ℕ

-- `build_tags_hash` is BuildTagsHash() of the build context.
pub record AnalysisResult : Type 0 where
  pub module_path : String
  pub build_tags_hash : String
  pub files : List CodeFile
  pub symbols : List Symbol
  pub relations : List SymbolRelation
  pub related_tests : List RelatedTestDiscovery
  pub quality : AnalysisQuality

-- fileMap and symbolMap: the id under a key.
abbrev pub IdMap : Type 0
IdMap = List (String × ℕ)

unfoldable pub lookup : String → IdMap → Option ℕ
lookup key [] = none
lookup key ((k, id) ∷ entries) = if k == key then some id else lookup key entries

abbrev pub is_found : Option ℕ → Bool
is_found none = false
is_found (some id) = true

-- The id of a Go map that has no entry is 0, which `if id, ok := ...` does not write.
abbrev pub id_or : ℕ → Option ℕ → ℕ
id_or old none = old
id_or old (some id) = id

abbrev pub file_row : ℕ → ℕ → ℕ → CodeFile → CodeFile
file_row build now id f = record f { id = id; code_index_build_id = build; created_at = now }

unfoldable pub save_files : ℕ → ℕ → ℕ → List CodeFile → List CodeFile
save_files build now next [] = []
save_files build now next (f ∷ fs) = file_row build now next f ∷ save_files build now (suc next) fs

unfoldable pub file_map : List CodeFile → IdMap → IdMap
file_map [] entries = entries
file_map (f ∷ fs) entries = file_map fs ((f.path, f.id) ∷ entries)

abbrev pub symbol_row : ℕ → IdMap → ℕ → Symbol → Symbol
symbol_row build files id s = record s {
  id = id;
  code_index_build_id = build;
  file_id = id_or s.file_id (lookup s.file_path files);
}

-- A hash that is there already is a collision.
unfoldable pub save_symbols :
    ℕ → IdMap → ℕ → IdMap → List Symbol → Result PipelineError (List Symbol × IdMap)
save_symbols build files next seen [] = ok ([], seen)
save_symbols build files next seen (s ∷ ss) = elim (is_found (lookup s.symbol_key_hash seen)) [
  | true ↦ err symbol_collision
  | false ↦ elim (save_symbols build files (suc next) ((s.symbol_key_hash, next) ∷ seen) ss) [
    | err e ↦ err e
    | ok (rows, entries) ↦ ok (symbol_row build files next s ∷ rows, entries)
  ]
]

-- The id of the symbol with the hash, if the hash is given and is known.
abbrev pub link : IdMap → String → Option ℕ → Option ℕ
link symbols hash old =
    if hash == "" then old else elim (lookup hash symbols) [ none ↦ old | some id ↦ some id ]

abbrev pub relation_row : ℕ → IdMap → IdMap → ℕ → SymbolRelation → SymbolRelation
relation_row build files symbols id r = record r {
  id = id;
  code_index_build_id = build;
  from_symbol_id = link symbols r.from_symbol_key_hash r.from_symbol_id;
  to_symbol_id = link symbols r.to_symbol_key_hash r.to_symbol_id;
  file_id = id_or r.file_id (lookup r.file_path files);
}

unfoldable pub save_relations : ℕ → IdMap → IdMap → ℕ → List SymbolRelation → List SymbolRelation
save_relations build files symbols next [] = []
save_relations build files symbols next (r ∷ rs) =
    relation_row build files symbols next r ∷ save_relations build files symbols (suc next) rs

abbrev pub is_test_relation : RelationType → Bool
is_test_relation test_relation = true
is_test_relation _ = false

-- relatedTestKey
pub related_test_key : String → String → String
related_test_key target test = str_append target (String.◌∷◌ nul test)

abbrev pub key_of_relation : SymbolRelation → String
key_of_relation r = related_test_key r.from_symbol_key_hash r.to_symbol_key_hash

-- testRelationKeys
unfoldable pub test_relation_keys : List SymbolRelation → List String
test_relation_keys [] = []
test_relation_keys (r ∷ rs) =
    let rest = test_relation_keys rs in
    if is_test_relation r.relation_type then key_of_relation r ∷ rest else rest

unfoldable pub has_key : String → List String → Bool
has_key key [] = false
has_key key (k ∷ ks) = if k == key then true else has_key key ks

-- Its confidence, a floating point number, is left out.
abbrev pub test_relation_row : ℕ → ℕ → ℕ → ℕ → ℕ → RelatedTestDiscovery → SymbolRelation
test_relation_row build id from to file d = record {
  id = id;
  code_index_build_id = build;
  from_symbol_id = some from;
  from_symbol_key_hash = d.target_symbol_key_hash;
  to_symbol_id = some to;
  to_symbol_key_hash = d.test_symbol_key_hash;
  relation_type = test_relation;
  resolution_kind = d.resolution_kind;
  reason_code = d.reason_code;
  reason_detail = d.explanation;
  target_name = d.test_symbol_name;
  file_path = d.test_file_path;
  file_id = file;
  line = d.test_line;
  column = 1;
}

-- The row of a discovery, whose target, test and file must be known.
abbrev pub discovered :
    ℕ
    → ℕ
    → Option ℕ
    → Option ℕ
    → Option ℕ
    → RelatedTestDiscovery
    → Result PipelineError SymbolRelation
discovered build id (some from) (some to) (some file) d =
    ok (test_relation_row build id from to file d)
discovered build id _ _ _ d = err missing_related_test

unfoldable pub save_related_tests :
    ℕ
    → IdMap
    → IdMap
    → ℕ
    → List String
    → List RelatedTestDiscovery
    → Result PipelineError (List SymbolRelation)
save_related_tests build files symbols next keys [] = ok []
save_related_tests build files symbols next keys (d ∷ ds) =
    let key = related_test_key d.target_symbol_key_hash d.test_symbol_key_hash in
    elim (has_key key keys) [
      | true ↦ save_related_tests build files symbols next keys ds
      | false ↦
          elim (discovered build next (lookup d.target_symbol_key_hash symbols)
            (lookup d.test_symbol_key_hash symbols) (lookup d.test_file_path files) d) [
              | err e ↦ err e
              | ok row ↦ elim (save_related_tests build files symbols (suc next) (key ∷ keys) ds) [
                | err e ↦ err e
                | ok rows ↦ ok (row ∷ rows)
              ]
            ]
    ]

unfoldable pub lift : {A : Type 0} → Result PipelineError A → PipelineTx A
lift (ok a) db = ok (a, db)
lift (err e) db = err e

unfoldable pub insert_rows :
    List CodeFile → List Symbol → List SymbolRelation → PipelineTx (Unit {0})
insert_rows files symbols relations db = ok (
  tt,
  record db {
    code_files = db.code_files ++ files;
    symbols = db.symbols ++ symbols;
    relations = db.relations ++ relations;
    next_code_file_id = db.next_code_file_id + length files;
    next_symbol_id = db.next_symbol_id + length symbols;
    next_relation_id = db.next_relation_id + length relations;
  },
)

abbrev pub analysed_row : AnalysisResult → ℕ → CodeIndexBuild → CodeIndexBuild
analysed_row res now b = record b {
  module_path = res.module_path;
  build_tags_hash = res.build_tags_hash;
  status = build_ready;
  quality = res.quality;
  symbol_count = length res.symbols;
  ready_at = some now;
}

unfoldable pub save_analysis_result : ℕ → AnalysisResult → ℕ → PipelineTx (Unit {0})
save_analysis_result build res now = do
  db ← query (λ db. db)
  let files = save_files build now db.next_code_file_id res.files in
      let paths = file_map files [] in
      do
        (symbols, hashes) ← lift (save_symbols build paths db.next_symbol_id [] res.symbols)
        let relations = save_relations build paths hashes db.next_relation_id res.relations in
            do
              tests ← lift (
                  save_related_tests build paths hashes (db.next_relation_id + length relations)
                    (test_relation_keys relations) res.related_tests)
              insert_rows files symbols (relations ++ tests)
              affected ← update_code_build build (λ b. is_building b.status) (analysed_row res now)
              guard (nat_eq affected 1) finalize_conflict
