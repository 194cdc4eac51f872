-- ===== src/Tests/Saved.antt =====
-- An analysis of one file with a function, its test, one call and one discovered test.
use repolens.Base.{String, ◌≡◌, refl, none, some, [], ◌∷◌}
use repolens.Sql.Result.{ok, ◌>>=◌}
use repolens.Sql.Table.{find, update}
use repolens.Pipeline.Model.{
  AnalysisRevision, update_revision, update_pipeline_job, decimal, Symbol, SymbolRelation,
  call_candidate, test_relation, semantic, heuristic, PipelineDb, building, preparing,
  stage_building_code, build_created, update_code_build,
}
use repolens.Pipeline.Builds.{no_analysis, new_retrieval_build, insert_retrieval_build}
use repolens.Jobs.Model.{AnalysisJob, JobStatus, build_code_index, build_retrieval}
use repolens.Sql.Read.{read, first_row}
use repolens.Pipeline.Store.{pipeline_new_job, create_job_gorm, insert_new_job}
use repolens.Pipeline.Finalize.{ensure_job, require_owned_job, finalize_owned_job}
use repolens.Pipeline.CodeIndex.{
  search_stage_row, create_retrieval_build, next_retrieval_build,
  finalize_code_index_success_with_revision,
}
use repolens.Pipeline.CodeIndex.HandedOn.{IsHandedOn, finalized_code_index-IsHandedOn}
use repolens.Pipeline.Symbols.{
  AnalysisResult, lookup, save_files, file_map, save_symbols, save_relations, test_relation_keys,
  has_key, save_related_tests, lift, insert_rows, save_analysis_result, analysed_row,
}
use repolens.Pipeline.Symbols.Commit.{IsSaved, save_analysis_result-IsSaved}
use repolens.Tests.Pipeline.{
  index_job, two_hashes, a_revision, a_code_build, a_retrieval_build, pipeline_db,
}

abbrev a_symbol : String → String → Symbol
a_symbol hash name = record {
  id = 0;
  code_index_build_id = 0;
  file_id = 0;
  file_path = "a.go";
  symbol_key_hash = hash;
  name = name;
}

abbrev a_call : SymbolRelation
a_call = record {
  id = 0;
  code_index_build_id = 0;
  from_symbol_id = none;
  from_symbol_key_hash = "h1";
  to_symbol_id = none;
  to_symbol_key_hash = "outside";
  relation_type = call_candidate;
  resolution_kind = semantic;
  reason_code = "CALL";
  reason_detail = "";
  target_name = "Println";
  file_path = "a.go";
  file_id = 0;
  line = 3;
  column = 2;
}

abbrev a_result : AnalysisResult
a_result = record {
  module_path = "m";
  build_tags_hash = "t0";
  files =
      record { id = 0; code_index_build_id = 0; path = "a.go"; content_hash = "c"; created_at = 0 }
      ∷ [];
  symbols = a_symbol "h1" "F" ∷ a_symbol "h2" "TestF" ∷ [];
  relations = a_call ∷ [];
  related_tests =
      record {
        target_symbol_key_hash = "h1";
        test_symbol_key_hash = "h2";
        test_symbol_name = "TestF";
        test_file_path = "a.go";
        reason_code = "NAME_MATCH";
        resolution_kind = heuristic;
        explanation = "";
        test_line = 9;
      }
      ∷ [];
  quality = no_analysis;
}

abbrev building_db : PipelineDb
building_db =
    pipeline_db (a_revision preparing stage_building_code) (a_code_build building)
      (a_retrieval_build build_created)

abbrev saved_db : PipelineDb
saved_db = record building_db {
  code_builds = analysed_row a_result 40 (a_code_build building) ∷ [];
  code_files =
      record { id = 1; code_index_build_id = 7; path = "a.go"; content_hash = "c"; created_at = 40 }
      ∷ [];
  symbols =
      record (a_symbol "h1" "F") { id = 1; code_index_build_id = 7; file_id = 1 }
      ∷ record (a_symbol "h2" "TestF") { id = 2; code_index_build_id = 7; file_id = 1 }
      ∷ [];
  relations =
      record a_call { id = 1; code_index_build_id = 7; from_symbol_id = some 1; file_id = 1 }
      ∷ record {
        id = 2;
        code_index_build_id = 7;
        from_symbol_id = some 1;
        from_symbol_key_hash = "h1";
        to_symbol_id = some 2;
        to_symbol_key_hash = "h2";
        relation_type = test_relation;
        resolution_kind = heuristic;
        reason_code = "NAME_MATCH";
        reason_detail = "";
        target_name = "TestF";
        file_path = "a.go";
        file_id = 1;
        line = 9;
        column = 1;
      }
      ∷ [];
  next_code_file_id = 2;
  next_symbol_id = 3;
  next_relation_id = 3;
}

result_is_saved : save_analysis_result 7 a_result 40 building_db ≡ ok (tt, saved_db)
unfolding save_analysis_result ◌>>=◌ find update update_code_build lift insert_rows save_files
    file_map lookup save_symbols save_relations test_relation_keys has_key save_related_tests
result_is_saved = refl

save_analysis_result-IsSaved_example : IsSaved 7 a_result building_db saved_db
save_analysis_result-IsSaved_example =
    save_analysis_result-IsSaved 7 a_result 40 building_db saved_db ((refl, refl), tt)
      result_is_saved

-- The finalizer of this code index, for a revision without a retrieval build.
abbrev coding_revision : AnalysisRevision
coding_revision = record (a_revision preparing stage_building_code) { retrieval_build_id = 0 }

abbrev code_job : AnalysisJob
code_job = record index_job { job_type = build_code_index; resource_id = "7" }

abbrev coding_db : PipelineDb
coding_db = record building_db {
  revisions = coding_revision ∷ [];
  retrieval_builds = [];
  jobs = code_job ∷ [];
}

abbrev handed_db : PipelineDb
handed_db = record saved_db {
  revisions = search_stage_row 13 40 coding_revision ∷ [];
  retrieval_builds = new_retrieval_build 13 two_hashes "rev" 7 40 ∷ [];
  jobs =
      record code_job { status = JobStatus.succeeded; finished_at = some 40; updated_at = 40 }
      ∷ pipeline_new_job 5 build_retrieval "13" 2 40
      ∷ [];
  next_retrieval_build_id = 14;
  next_job_id = 6;
}

finalizer_hands_on :
    finalize_code_index_success_with_revision two_hashes 4 "w" "t" 7 "rev" a_result 40 coding_db
    ≡ ok (tt, handed_db)
unfolding finalize_code_index_success_with_revision ◌>>=◌ read find update update_code_build
    update_revision lift insert_rows save_files file_map lookup save_symbols save_relations
    test_relation_keys has_key save_related_tests save_analysis_result require_owned_job
    next_retrieval_build create_retrieval_build insert_retrieval_build first_row ensure_job
    create_job_gorm insert_new_job finalize_owned_job update_pipeline_job decimal
finalizer_hands_on = refl

finalized_code_index-IsHandedOn_example : IsHandedOn 4 7 coding_revision handed_db
unfolding find
finalized_code_index-IsHandedOn_example =
    finalized_code_index-IsHandedOn two_hashes 4 7 "w" "t" a_result 40 coding_revision coding_db
      handed_db ((refl, refl), tt) refl refl finalizer_hands_on
