-- ===== src/Evidence/Citation.antt =====
-- internal/evidence/citation.go: how a citation is checked against the snapshot. Texts are the codes
-- of their characters; a line number of 0 stands for every one that is not positive.
pub mod Again
use repolens.Base.{
  ℕ, String, Bool, true, false, not, ◌&&◌, ◌||◌, Option, none, some, List, [], ◌∷◌, nat_eq, ltb,
  text_key, ◌==◌, if◌then◌else◌,
}
use repolens.Base.Text.{same_codes, to_lower}

pub data CitationStatus : Type 0 where
  valid invalid unchecked : CitationStatus

-- The message of a rejection, less the values that it prints. The last two lines are what
-- ResolveReportDraft writes.
pub data ValidationError : Type 0 where
  snapshot_mismatch file_path_empty invalid_line_range excluded_by_policy : ValidationError
  file_missing read_failed hash_mismatch excerpt_mismatch excerpt_or_hash_required : ValidationError
  evidence_id_empty evidence_source_unavailable evidence_not_found : ValidationError
  evidence_attempt_mismatch evidence_lineage_mismatch evidence_content_hash_mismatch :
      ValidationError

-- The fields that the checks read or write. No error stands for the empty text.
pub record Citation : Type 0 where
  pub evidence_id : String
  pub code_index_build_id : ℕ
  pub reason : List ℕ
  pub snapshot_id : String
  pub file_path : String
  pub start_line : ℕ
  pub end_line : ℕ
  pub excerpt : List ℕ
  pub content_hash : List ℕ
  pub validation_status : CitationStatus
  pub validation_error : Option ValidationError

-- What the snapshot's store and its policy answer for one snapshot.
pub record SnapshotView : Type 0 where
  pub snapshot : String
  pub can_issue_evidence : String → Bool
  pub file_exists : String → Bool
  pub read_lines : String → ℕ → ℕ → Option (List ℕ)
  -- hex.EncodeToString of sha256.Sum256
  pub sha256_hex : List ℕ → List ℕ

abbrev pub is_empty : List ℕ → Bool
is_empty [] = true
is_empty (x ∷ xs) = false

-- strings.EqualFold against a text of hexadecimal digits.
abbrev pub equal_fold : List ℕ → List ℕ → Bool
equal_fold s t = same_codes (to_lower s) (to_lower t)

-- strings.ReplaceAll(s, "\r\n", "\n")
unfoldable pub normalize_newlines : List ℕ → List ℕ
normalize_newlines [] = []
normalize_newlines (x ∷ []) = x ∷ []
normalize_newlines (x ∷ y ∷ rest) =
    let tail = normalize_newlines (y ∷ rest) in
    if nat_eq x 13 && nat_eq y 10 then tail else x ∷ tail

abbrev pub reject : ValidationError → Citation → Citation
reject e c = record c { validation_status = invalid; validation_error = some e }

abbrev pub accept : Citation → Citation
accept c = record c { validation_status = valid; validation_error = none }

-- The part behind `c.ContentHash = actualHash`.
abbrev pub validate_excerpt : Bool → List ℕ → Citation → Citation
validate_excerpt has_content_hash content c =
    if not (is_empty c.excerpt)
    then if same_codes (normalize_newlines content) (normalize_newlines c.excerpt)
      then accept c
      else reject excerpt_mismatch c
    else if not has_content_hash
    then reject excerpt_or_hash_required c
    else accept c

-- From the answer of the store on.
abbrev pub validate_content : SnapshotView → Option (List ℕ) → Citation → Citation
validate_content view none c = reject read_failed c
validate_content view (some content) c =
    if not (is_empty c.content_hash) && not (equal_fold c.content_hash (view.sha256_hex content))
    then reject hash_mismatch c
    else validate_excerpt (not (is_empty c.content_hash)) content
        (record c { content_hash = view.sha256_hex content })

unfoldable pub validate : SnapshotView → Citation → Citation
validate view c =
    if not (c.snapshot_id == "") && not (c.snapshot_id == view.snapshot)
    then reject snapshot_mismatch c
    else if c.file_path == ""
    then reject file_path_empty c
    else if nat_eq c.start_line 0 || ltb c.end_line c.start_line
    then reject invalid_line_range c
    else if not (view.can_issue_evidence c.file_path)
    then reject excluded_by_policy c
    else if not (view.file_exists c.file_path)
    then reject file_missing c
    else validate_content view (view.read_lines c.file_path c.start_line c.end_line) c
