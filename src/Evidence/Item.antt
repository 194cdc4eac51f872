-- ===== src/Evidence/Item.antt =====
-- internal/evidence/item.go: the evidence items of an attempt, their table and the source that they
-- are read from. Texts of files are the codes of their bytes; a line number of 0 stands for every one
-- that is not positive.
use repolens.Base.{
  ℕ, String, Bool, ◌&&◌, ◌||◌, Option, none, some, List, [], ◌∷◌, ◌++◌, nat_eq, text_key, ◌==◌,
  if◌then◌else◌,
}
use repolens.Base.Text.{same_codes}
use repolens.Sql.Result.{Result, ok, err}

-- `other` is any text that the source does not list.
pub data SourceKind : Type 0 where
  initial_retrieval search_code read_file : SourceKind
  other : String → SourceKind

-- The sentinels, what SQL itself reports, and a source kind that is not supported.
pub data EvidenceError : Type 0 where
  evidence_not_found attempt_mismatch lineage_mismatch source_unavailable : EvidenceError
  evidence_hash_mismatch unsupported_source_kind not_persisted : EvidenceError

pub record AttemptEvidenceItem : Type 0 where
  pub id : String
  pub attempt_id : String
  pub diagnosis_run_id : String
  pub snapshot_id : String
  pub code_index_build_id : ℕ
  pub source_kind : SourceKind
  pub source_step_seq : Option ℕ
  pub retrieval_chunk_id : String
  pub file_path : String
  pub start_line : ℕ
  pub end_line : ℕ
  pub total_lines : ℕ
  pub raw_content_hash : List ℕ
  pub display_excerpt : List ℕ
  pub redaction_applied : Bool
  pub truncated : Bool
  pub created_at : ℕ

pub record IssueRequest : Type 0 where
  pub attempt_id : String
  pub diagnosis_run_id : String
  pub repository_id : String
  pub snapshot_id : String
  pub code_index_build_id : ℕ
  pub source_kind : SourceKind
  pub source_step_seq : ℕ
  pub retrieval_chunk_id : String
  pub file_path : String
  pub start_line : ℕ
  pub end_line : ℕ
  pub max_bytes : ℕ

pub record DraftLineage : Type 0 where
  pub attempt_id : String
  pub diagnosis_run_id : String
  pub repository_id : String
  pub snapshot_id : String
  pub code_index_build_id : ℕ

-- What the snapshot's files, its policy, the redaction and SHA-256 answer. A path is asked for with
-- its repository and its snapshot.
pub record EvidenceSource : Type 0 where
  pub can_issue : String → String → String → Bool
  -- The first line of the file and the others.
  pub open_file : String → String → String → Option (List ℕ × List (List ℕ))
  -- filepath.ToSlash(filepath.Clean(path))
  pub clean : String → String
  pub redact_secrets : List ℕ → List ℕ
  pub sha256_hex : List ℕ → List ℕ

-- The row that validateLineage joins from diagnosis_attempts and diagnosis_runs.
pub record AttemptLineage : Type 0 where
  pub diagnosis_run_id : String
  pub repository_id : String
  pub snapshot_id : String
  pub code_index_build_id : ℕ

abbrev pub ItemTable : Type 0
ItemTable = List AttemptEvidenceItem

-- WHERE attempt_id = ? AND id = ?
abbrev pub is_item : String → String → AttemptEvidenceItem → Bool
is_item attempt id i = i.attempt_id == attempt && i.id == id

-- The condition of FindCanonical, which is the unique key uq_attempt_evidence_identity.
abbrev pub is_canonical : String → String → String → ℕ → ℕ → List ℕ → AttemptEvidenceItem → Bool
is_canonical attempt snapshot path start_line end_line hash i =
    i.attempt_id == attempt
    && i.snapshot_id == snapshot
    && i.file_path == path
    && nat_eq i.start_line start_line
    && nat_eq i.end_line end_line
    && same_codes i.raw_content_hash hash

-- First: the first row that meets a condition.
unfoldable pub first : (AttemptEvidenceItem → Bool) → ItemTable → Option AttemptEvidenceItem
first c [] = none
first c (i ∷ t) = if c i then some i else first c t

unfoldable pub get_by_attempt_and_id :
    String → String → ItemTable → Result EvidenceError AttemptEvidenceItem
get_by_attempt_and_id attempt id t = elim (first (is_item attempt id) t) [
  | none ↦ err evidence_not_found
  | some i ↦ ok i
]

unfoldable pub find_by_id : String → ItemTable → Option AttemptEvidenceItem
find_by_id id t = first (λ i. i.id == id) t

unfoldable pub find_canonical :
    String → String → String → ℕ → ℕ → List ℕ → ItemTable → Option AttemptEvidenceItem
find_canonical attempt snapshot path start_line end_line hash t =
    first (is_canonical attempt snapshot path start_line end_line hash) t

-- What the primary key and the unique key refuse.
abbrev pub clashes : AttemptEvidenceItem → AttemptEvidenceItem → Bool
clashes i j =
    j.id == i.id
    || is_canonical i.attempt_id i.snapshot_id i.file_path i.start_line i.end_line
        i.raw_content_hash j

-- Create: an INSERT, refused where a row has a key of the new one.
unfoldable pub create : AttemptEvidenceItem → ItemTable → Result EvidenceError ItemTable
create i t = elim (first (clashes i) t) [ none ↦ ok (t ++ i ∷ []) | some j ↦ err not_persisted ]
