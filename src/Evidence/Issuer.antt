-- ===== src/Evidence/Issuer.antt =====
-- internal/evidence/item.go: EvidenceIssuerService over its table and the snapshot store, both given.
-- `others` is what other transactions do to the table between FindCanonical and Create.
pub mod Stored
pub mod Checks
pub mod RoundTrip
use repolens.Base.{
  ℕ, String, Bool, true, false, not, ◌&&◌, ◌||◌, Option, none, some, List, [], ◌∷◌, nat_eq, ltb,
  text_key, ◌==◌, if◌then◌else◌,
}
use repolens.Base.Text.{same_codes}
use repolens.Sql.Result.{Result, ok, err}
use repolens.Snapshot.Files.{FileRange, read_file_range}
use repolens.Evidence.Item.{
  SourceKind, other, EvidenceError, evidence_not_found, attempt_mismatch, lineage_mismatch,
  source_unavailable, evidence_hash_mismatch, unsupported_source_kind, not_persisted,
  AttemptEvidenceItem, IssueRequest, DraftLineage, EvidenceSource, AttemptLineage, ItemTable,
  get_by_attempt_and_id, find_by_id, find_canonical, create,
}

abbrev pub is_supported : SourceKind → Bool
is_supported (other s) = false
is_supported k = true

-- validateIssueRequest
unfoldable pub validate_issue_request : IssueRequest → Option EvidenceError
validate_issue_request q =
    if q.attempt_id == ""
      || q.diagnosis_run_id == ""
      || q.repository_id == ""
      || q.snapshot_id == ""
      || q.file_path == ""
    then some source_unavailable
    else if is_supported q.source_kind
    then none
    else some unsupported_source_kind

-- validateLineage, with the row of the attempt; no row leaves every field empty.
unfoldable pub validate_lineage : Option AttemptLineage → IssueRequest → Option EvidenceError
validate_lineage none q = some evidence_not_found
validate_lineage (some row) q =
    if row.diagnosis_run_id == ""
    then some evidence_not_found
    else if not (row.diagnosis_run_id == q.diagnosis_run_id)
        || not (row.repository_id == q.repository_id)
        || not (row.snapshot_id == q.snapshot_id)
        || not (nat_eq row.code_index_build_id q.code_index_build_id)
    then some lineage_mismatch
    else none

unfoldable pub read_evidence_range :
    EvidenceSource → String → String → String → ℕ → ℕ → ℕ → Option FileRange
read_evidence_range source repository snapshot path start_line end_line max_bytes =
    elim (source.open_file repository snapshot path) [
      | none ↦ none
      | some (line, rest) ↦
          read_file_range true (source.clean path) line rest start_line end_line max_bytes
    ]

abbrev pub differs : List ℕ → List ℕ → Bool
differs s t = not (same_codes s t)

abbrev pub new_item : EvidenceSource → String → ℕ → IssueRequest → FileRange → AttemptEvidenceItem
new_item source id now q r = record {
  id = id;
  attempt_id = q.attempt_id;
  diagnosis_run_id = q.diagnosis_run_id;
  snapshot_id = q.snapshot_id;
  code_index_build_id = q.code_index_build_id;
  source_kind = q.source_kind;
  source_step_seq = if ltb 0 q.source_step_seq then some q.source_step_seq else none;
  retrieval_chunk_id = q.retrieval_chunk_id;
  file_path = r.path;
  start_line = r.start_line;
  end_line = r.end_line;
  total_lines = r.total_lines;
  raw_content_hash = source.sha256_hex r.content;
  display_excerpt = source.redact_secrets r.content;
  redaction_applied = differs (source.redact_secrets r.content) r.content;
  truncated = r.truncated;
  created_at = now;
}

abbrev pub canonical_of : AttemptEvidenceItem → ItemTable → Option AttemptEvidenceItem
canonical_of i t =
    find_canonical i.attempt_id i.snapshot_id i.file_path i.start_line i.end_line i.raw_content_hash
      t

-- Create, and the second FindCanonical where it fails.
unfoldable pub settle_create :
    AttemptEvidenceItem → ItemTable → Result EvidenceError AttemptEvidenceItem × ItemTable
unfolding create find_canonical
settle_create i t = elim (create i t) [
  | ok t' ↦ (ok i, t')
  | err e ↦ elim (canonical_of i t) [ some j ↦ (ok j, t) | none ↦ (err not_persisted, t) ]
]

-- From the first FindCanonical on.
unfoldable pub issue_item :
    (ItemTable → ItemTable)
    → AttemptEvidenceItem
    → ItemTable
    → Result EvidenceError AttemptEvidenceItem × ItemTable
unfolding settle_create find_canonical
issue_item others i t = elim (canonical_of i t) [
  | some j ↦ (ok j, t)
  | none ↦ settle_create i (others t)
]

-- What is checked before anything is read: nothing, or the error.
abbrev pub refuse_issue :
    EvidenceSource → Option AttemptLineage → IssueRequest → Option EvidenceError
refuse_issue source row q = elim (validate_issue_request q) [
  | some e ↦ some e
  | none ↦ elim (validate_lineage row q) [
    | some e ↦ some e
    | none ↦
        if source.can_issue q.repository_id q.snapshot_id q.file_path
        then none
        else some source_unavailable
  ]
]

unfoldable pub issue :
    EvidenceSource
    → (String → Option AttemptLineage)
    → (ItemTable → ItemTable)
    → String
    → ℕ
    → IssueRequest
    → ItemTable
    → Result EvidenceError AttemptEvidenceItem × ItemTable
unfolding validate_issue_request validate_lineage read_evidence_range issue_item
issue source lineage_of others id now q t = elim (refuse_issue source (lineage_of q.attempt_id) q) [
  | some e ↦ (err e, t)
  | none ↦
      elim (read_evidence_range source q.repository_id q.snapshot_id q.file_path q.start_line
        q.end_line q.max_bytes) [
          | none ↦ (err source_unavailable, t)
          | some r ↦ issue_item others (new_item source id now q r) t
        ]
]

-- An item that another attempt was issued is told from one that does not exist.
unfoldable pub resolve : String → String → ItemTable → Result EvidenceError AttemptEvidenceItem
unfolding get_by_attempt_and_id find_by_id
resolve attempt id t =
    if attempt == "" || id == ""
    then err evidence_not_found
    else elim (get_by_attempt_and_id attempt id t) [
      | ok i ↦ ok i
      | err e ↦ elim (find_by_id id t) [
        | none ↦ err e
        | some foreign ↦ if foreign.attempt_id == attempt then err e else err attempt_mismatch
      ]
    ]

abbrev pub has_lineage : DraftLineage → AttemptEvidenceItem → Bool
has_lineage l i =
    i.diagnosis_run_id == l.diagnosis_run_id
    && i.snapshot_id == l.snapshot_id
    && nat_eq i.code_index_build_id l.code_index_build_id

-- What Verify makes of the range that it reads: nothing, or the error.
abbrev pub range_error :
    EvidenceSource → AttemptEvidenceItem → Option FileRange → Option EvidenceError
range_error source i none = some source_unavailable
range_error source i (some r) =
    if differs (source.sha256_hex r.content) i.raw_content_hash
      || not (nat_eq r.start_line i.start_line)
      || not (nat_eq r.end_line i.end_line)
    then some evidence_hash_mismatch
    else none

-- Nothing, or the error.
unfoldable pub verify : EvidenceSource → DraftLineage → AttemptEvidenceItem → Option EvidenceError
verify source l i =
    if not (i.attempt_id == l.attempt_id)
    then some attempt_mismatch
    else if not (has_lineage l i)
    then some lineage_mismatch
    else if not (source.can_issue l.repository_id i.snapshot_id i.file_path)
    then some source_unavailable
    else range_error source i (
        read_evidence_range source l.repository_id i.snapshot_id i.file_path i.start_line i.end_line
          0)
