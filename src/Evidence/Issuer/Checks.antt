-- ===== src/Evidence/Issuer/Checks.antt =====
-- Each check of Issue, Resolve and Verify by itself, and the second read of a range.
use repolens.Base.{
  ℕ, String, ◌≡◌, refl, sym, ◌∙◌, Bool, true, false, not, ◌&&◌, ◌||◌, Option-cases, inl, inr,
  Option, none, some, List, text_key, nat_key, ◌==◌, if◌then◌else◌, arith, eq_iff, nat_eq_iff,
}
use repolens.Base.Text.{same_codes, same_codes_self, same_codes-eq}
use repolens.Sql.Result.{ok}
use repolens.Snapshot.Files.{FileRange, read_file_range}
use repolens.Snapshot.Files.Loop.{range_text}
use repolens.Snapshot.Files.ReadBack.{read_range_again, read_range_path}
use repolens.Evidence.Item.{
  EvidenceError, AttemptEvidenceItem, IssueRequest, DraftLineage, EvidenceSource, AttemptLineage,
  ItemTable, first, is_item, is_canonical, get_by_attempt_and_id,
}
use repolens.Evidence.Issuer.{
  range_error, has_lineage, refuse_issue, resolve, verify, validate_issue_request, validate_lineage,
  read_evidence_range,
}
use repolens.Evidence.Issuer.Stored.{IsIndexed, first_and}

-- A cleaned path names the same file, stays what it is, and is no less visible.
pub record IsLawfulSource (source : EvidenceSource) : Type 0 where
  pub open_clean : (r s p : String) → source.open_file r s (source.clean p) ≡ source.open_file r s p
  pub clean_again : (p : String) → source.clean (source.clean p) ≡ source.clean p
  pub issue_clean :
      (r s p : String)
      → source.can_issue r s p ≡ true
      → source.can_issue r s (source.clean p) ≡ true

module _ (source : EvidenceSource) (law : IsLawfulSource source)
    (repository snapshot : String) where
  -- A range that was read is read again at the path and the lines that it reports.
  pub reads_back :
      (path : String) (a e m : ℕ) (r : FileRange)
      → read_evidence_range source repository snapshot path a e m ≡ some r
      → (r.path ≡ source.clean path)
        × (range_text
              (read_evidence_range source repository snapshot r.path r.start_line r.end_line 0)
            ≡ some (r.content, r.start_line, r.end_line))
  unfolding read_evidence_range
  reads_back path a e m r h = elim (Option-cases (source.open_file repository snapshot path)) [
    | inl shut ↦ let bad : none ≡ some r = sym (rw (shut, read_evidence_range)) ∙ h in ground arith
    | inr ((line, rest), file) ↦
        let first_read : read_file_range true (source.clean path) line rest a e m ≡ some r =
          sym (rw (file, read_evidence_range)) ∙ h in
        let where_it_is = read_range_path (source.clean path) line rest a e m r first_read in
        let again = read_range_again (source.clean path) line rest a e m r first_read in
        let same_path : source.clean r.path ≡ source.clean path =
          rw where_it_is (law.clean_again path) in
        let same_file : source.open_file repository snapshot r.path ≡ some (line, rest) =
          rw where_it_is (law.open_clean repository snapshot path ∙ file) in
        (where_it_is, rw (same_file, read_evidence_range, same_path) again)
  ]

-- The lineage that a request names.
abbrev pub lineage_of_request : IssueRequest → DraftLineage
lineage_of_request q = record {
  attempt_id = q.attempt_id;
  diagnosis_run_id = q.diagnosis_run_id;
  repository_id = q.repository_id;
  snapshot_id = q.snapshot_id;
  code_index_build_id = q.code_index_build_id;
}

pub four_tests :
    (a b c d e : Bool) (x y : EvidenceError)
    → (if a then some x else if not b || not c || not d || not e then some y else none) ≡ none
    → (b ≡ true) × (d ≡ true) × (e ≡ true)
four_tests a b c d e x y h = ground arith

pub no_lineage : (q : IssueRequest) → ¬ (validate_lineage none q ≡ none)
unfolding validate_lineage
no_lineage q h = ground arith

pub lineage_matches :
    (q : IssueRequest) (l : AttemptLineage)
    → validate_lineage (some l) q ≡ none
    → (l.diagnosis_run_id ≡ q.diagnosis_run_id)
      × (l.snapshot_id ≡ q.snapshot_id)
      × (l.code_index_build_id ≡ q.code_index_build_id)
unfolding validate_lineage
lineage_matches q l h =
    let tests = four_tests _ _ _ _ _ _ _ h in
    (
      (eq_iff l.diagnosis_run_id q.diagnosis_run_id).0 tests.0,
      (eq_iff l.snapshot_id q.snapshot_id).0 tests.1,
      (nat_eq_iff l.code_index_build_id q.code_index_build_id).0 tests.2,
    )

pub unrefused :
    (source : EvidenceSource) (row : Option AttemptLineage) (q : IssueRequest)
    → refuse_issue source row q ≡ none
    → (validate_issue_request q ≡ none)
      × (validate_lineage row q ≡ none)
      × (source.can_issue q.repository_id q.snapshot_id q.file_path ≡ true)
unrefused source row q h = ground arith

pub names_attempt :
    (q : IssueRequest) → validate_issue_request q ≡ none → (q.attempt_id == "") ≡ false
unfolding validate_issue_request
names_attempt q h = ground arith

pub six_tests :
    (a b c d e f : Bool)
    → (a && b && c && d && e && f) ≡ true
    → (a ≡ true) × (b ≡ true) × (c ≡ true) × (d ≡ true) × (e ≡ true) × (f ≡ true)
six_tests a b c d e f h = ground arith

pub canonical_fields :
    (attempt snapshot path : String) (a e : ℕ) (hash : List ℕ) (j : AttemptEvidenceItem)
    → is_canonical attempt snapshot path a e hash j ≡ true
    → (j.attempt_id ≡ attempt)
      × (j.snapshot_id ≡ snapshot)
      × (j.file_path ≡ path)
      × (j.start_line ≡ a)
      × (j.end_line ≡ e)
      × (j.raw_content_hash ≡ hash)
canonical_fields attempt snapshot path a e hash j h =
    let tests = six_tests _ _ _ _ _ _ h in
    (
      (eq_iff j.attempt_id attempt).0 tests.0,
      (eq_iff j.snapshot_id snapshot).0 tests.1,
      (eq_iff j.file_path path).0 tests.2,
      (nat_eq_iff j.start_line a).0 tests.3,
      (nat_eq_iff j.end_line e).0 tests.4,
      same_codes-eq j.raw_content_hash hash tests.5,
    )

pub resolve_found :
    (attempt : String) (j : AttemptEvidenceItem) (t : ItemTable)
    → (attempt == "") ≡ false
    → (j.id == "") ≡ false
    → j.attempt_id ≡ attempt
    → IsIndexed t j
    → resolve attempt j.id t ≡ ok j
unfolding resolve get_by_attempt_and_id
resolve_found attempt j t named given own indexed =
    let hit : first (is_item attempt j.id) t ≡ some j =
      first_and (λ k. k.id == j.id) (λ k. k.attempt_id == attempt) t j indexed
        ((eq_iff j.attempt_id attempt).1 own) in
    rw (named, given, hit) refl

pub range_checked :
    (source : EvidenceSource) (j : AttemptEvidenceItem) (o : Option FileRange) (content : List ℕ)
    → range_text o ≡ some (content, j.start_line, j.end_line)
    → j.raw_content_hash ≡ source.sha256_hex content
    → range_error source j o ≡ none
range_checked source j none content h k = ground arith
range_checked source j (some r) content h k =
    let same : r.content ≡ content = ground arith in
    let hash : same_codes (source.sha256_hex r.content) j.raw_content_hash ≡ true =
      rw (same, k) (same_codes_self (source.sha256_hex content)) in
    ground arith

pub verify_passes :
    (source : EvidenceSource) (l : DraftLineage) (j : AttemptEvidenceItem) (content : List ℕ)
    → (j.attempt_id == l.attempt_id) ≡ true
    → has_lineage l j ≡ true
    → source.can_issue l.repository_id j.snapshot_id j.file_path ≡ true
    → range_text (
        read_evidence_range source l.repository_id j.snapshot_id j.file_path j.start_line j.end_line
          0)
      ≡ some (content, j.start_line, j.end_line)
    → j.raw_content_hash ≡ source.sha256_hex content
    → verify source l j ≡ none
unfolding verify
verify_passes source l j content own lineage seen again hash =
    rw (own, lineage, seen) (range_checked source j _ content again hash)
