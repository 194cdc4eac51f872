-- ===== src/Pipeline/Model/Rows.antt =====
-- internal/revision/model.go, internal/snapshot/model.go, internal/codeintel/model/model.go and
-- internal/analysispipeline/lineage.go: the rows that the analysis pipeline keeps. Ids of builds are
-- the positive numbers of AUTO_INCREMENT, and 0 (or NULL) is no build.
use repolens.Base.{ℕ, String, Option, List}
use repolens.Jobs.Model.{AnalysisJob}

pub data RevisionStatus : Type 0 where
  preparing revision_ready revision_failed : RevisionStatus

pub data Stage : Type 0 where
  stage_materializing stage_building_code stage_building_search stage_ready stage_failed : Stage

pub record AnalysisRevision : Type 0 where
  pub id : String
  pub repository_id : String
  pub source_ref : String
  pub commit_sha : String
  pub pipeline_version : String
  pub pipeline_fingerprint : String
  pub snapshot_id : String
  pub code_index_build_id : ℕ
  pub retrieval_build_id : ℕ
  pub status : RevisionStatus
  pub stage : Stage
  pub error_code : String
  pub error_message : String
  pub execution_generation : ℕ
  pub version : ℕ
  pub created_at : ℕ
  pub updated_at : ℕ
  pub ready_at : Option ℕ

pub data SnapshotStatus : Type 0 where
  snapshot_created materializing snapshot_ready snapshot_failed : SnapshotStatus

pub record RepositorySnapshot : Type 0 where
  pub id : String
  pub repository_id : String
  pub analysis_revision_id : String
  pub commit_sha : String
  -- Ref and RequestedRef, which are written together
  pub requested_ref : String
  pub materialized_path : String
  pub content_hash : String
  pub file_count : ℕ
  pub total_bytes : ℕ
  pub status : SnapshotStatus
  pub error_code : String
  pub created_at : ℕ
  pub ready_at : Option ℕ

pub data BuildStatus : Type 0 where
  build_created building build_ready build_failed : BuildStatus

-- The columns of uq_code_index_build beside the snapshot, and of uq_retrieval_build beside the
-- code index build.
pub record BuildVersions : Type 0 where
  pub parser_version : String
  pub analyzer_version : String
  pub symbol_schema_version : String
  pub build_context_hash : String

pub record RetrievalVersions : Type 0 where
  pub strategy : String
  pub retrieval_version : String
  pub tokenizer_version : String
  pub config_hash : String

pub record AnalysisQuality : Type 0 where
  pub files_total : ℕ
  pub files_parsed : ℕ
  pub files_failed : ℕ
  pub packages_total : ℕ
  pub packages_typechecked : ℕ
  pub packages_failed : ℕ
  pub semantic_relations_count : ℕ
  pub syntactic_relations_count : ℕ
  pub heuristic_relations_count : ℕ
  pub unresolved_relations_count : ℕ
  pub symlinks_skipped : ℕ
  pub warnings : List String

pub record CodeIndexBuild : Type 0 where
  pub id : ℕ
  pub snapshot_id : String
  pub analysis_revision_id : String
  pub versions : BuildVersions
  pub module_path : String
  pub build_tags_hash : String
  pub quality : AnalysisQuality
  pub symbol_count : ℕ
  pub status : BuildStatus
  pub error_code : String
  pub created_at : ℕ
  pub ready_at : Option ℕ

pub record RetrievalBuild : Type 0 where
  pub id : ℕ
  pub code_index_build_id : ℕ
  pub analysis_revision_id : String
  pub versions : RetrievalVersions
  pub artifact_path : String
  pub artifact_hash : String
  pub document_count : ℕ
  pub status : BuildStatus
  pub error_code : String
  pub created_at : ℕ
  pub ready_at : Option ℕ

-- The columns of the symbol store that the code reads or writes by itself.
pub record CodeFile : Type 0 where
  pub id : ℕ
  pub code_index_build_id : ℕ
  pub path : String
  pub content_hash : String
  pub created_at : ℕ

pub record Symbol : Type 0 where
  pub id : ℕ
  pub code_index_build_id : ℕ
  pub file_id : ℕ
  pub file_path : String
  pub symbol_key_hash : String
  pub name : String

pub data RelationType : Type 0 where
  reference call_candidate test_relation : RelationType

pub data ResolutionKind : Type 0 where
  semantic syntactic heuristic unresolved : ResolutionKind

pub record SymbolRelation : Type 0 where
  pub id : ℕ
  pub code_index_build_id : ℕ
  pub from_symbol_id : Option ℕ
  pub from_symbol_key_hash : String
  pub to_symbol_id : Option ℕ
  pub to_symbol_key_hash : String
  pub relation_type : RelationType
  pub resolution_kind : ResolutionKind
  pub reason_code : String
  pub reason_detail : String
  pub target_name : String
  pub file_path : String
  pub file_id : ℕ
  pub line : ℕ
  pub column : ℕ

pub record Repository : Type 0 where
  pub id : String
  pub name : String

pub record PipelineDb : Type 0 where
  pub repositories : List Repository
  pub revisions : List AnalysisRevision
  pub snapshots : List RepositorySnapshot
  pub code_builds : List CodeIndexBuild
  pub retrieval_builds : List RetrievalBuild
  pub jobs : List AnalysisJob
  pub code_files : List CodeFile
  pub symbols : List Symbol
  pub relations : List SymbolRelation
  -- AUTO_INCREMENT of the tables with numbers as keys
  pub next_code_file_id : ℕ
  pub next_symbol_id : ℕ
  pub next_relation_id : ℕ
  pub next_code_build_id : ℕ
  pub next_retrieval_build_id : ℕ
  pub next_job_id : ℕ

-- ResolvedLineage
pub record ResolvedLineage : Type 0 where
  pub repository_id : String
  pub revision_id : String
  pub commit_sha : String
  pub snapshot_id : String
  pub code_index_build_id : ℕ
  pub retrieval_build_id : ℕ
  pub pipeline_version : String
  pub pipeline_fingerprint : String

-- The sentinels of the packages, the conflicts that they format as text, and the refusals of the
-- database.
pub data PipelineError : Type 0 where
  invalid_identity revision_not_found retry_conflict invalid_state lineage : PipelineError
  record_not_found duplicate_key ownership_lost finalize_conflict not_claimable : PipelineError
  not_ready_without_content not_ready_without_artifact invalid_transition : PipelineError
  snapshot_not_found snapshot_not_ready revision_not_ready build_not_ready : PipelineError
  build_lineage_mismatch symbol_collision missing_related_test legacy_not_building : PipelineError
