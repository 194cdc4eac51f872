-- ===== src/Evidence/Draft.antt =====
-- internal/evidence/report_draft.go: how the evidence ids of a model's draft become citations. The
-- issuer is an interface; the service of item.go fills it (`service`).
pub mod Verified
pub mod Status
pub mod Reason
use repolens.Base.{
  ℕ, suc, zero, ◌-◌, String, Bool, true, false, not, ◌&&◌, ◌||◌, Option, none, some, List, [], ◌∷◌,
  map, take, length, ltb, leb, nat_eq, text_key, ◌==◌, if◌then◌else◌,
}
use repolens.Base.Text.{trim_space, trim_text}
use repolens.Sql.Result.{Result, ok, err}
use repolens.Evidence.Citation.{
  CitationStatus, valid, invalid, unchecked, Citation, ValidationError, evidence_id_empty,
  evidence_source_unavailable, evidence_not_found, evidence_attempt_mismatch,
  evidence_lineage_mismatch, evidence_content_hash_mismatch,
}
use repolens.Evidence.Item.{
  EvidenceError, AttemptEvidenceItem, DraftLineage, EvidenceSource, ItemTable,
}
use repolens.Evidence.Issuer.{resolve, verify, has_lineage}
use repolens.Evidence.Report.{
  Finding, ConclusionKind, Confidence, DiagnosisReportData, ReportError, validate_report_structure,
  structured_report_invalid,
}

-- The legacy fields of a citation are decoded and never read.
pub record CitationRef : Type 0 where
  pub evidence_id : String
  pub reason : List ℕ

pub record FindingDraft : Type 0 where
  pub title : List ℕ
  pub reasoning : List ℕ
  pub citations : List CitationRef

pub record ReportDraft : Type 0 where
  pub conclusion_kind : ConclusionKind
  pub summary : List ℕ
  pub root_cause : List ℕ
  pub findings : List FindingDraft
  pub recommended_checks : List (List ℕ)
  pub confirmed_facts : List (List ℕ)
  pub limitations : List (List ℕ)
  pub model_claimed_confidence : Option Confidence
  pub legacy_confidence : Option Confidence

-- EvidenceIssuer, with the method of EvidenceVerifier where the issuer has it.
pub record EvidenceIssuer : Type 0 where
  pub resolve : String → String → Result EvidenceError AttemptEvidenceItem
  pub verify : Option (DraftLineage → AttemptEvidenceItem → Option EvidenceError)

abbrev pub service : EvidenceSource → ItemTable → EvidenceIssuer
service source t = record {
  resolve = λ attempt id. resolve attempt id t;
  verify = some (verify source);
}

-- The decoder of utf8.ValidString: how many continuation bytes are due, and the range of the next.
pub record Utf8State : Type 0 where
  pub due : ℕ
  pub low : ℕ
  pub high : ℕ

abbrev pub expect : ℕ → ℕ → ℕ → Option Utf8State
expect due low high = some (record { due = due; low = low; high = high })

abbrev pub within : ℕ → ℕ → ℕ → Bool
within low high b = leb low b && leb b high

abbrev pub utf8_start : ℕ → Option Utf8State
utf8_start b =
    if ltb b 0x80
    then expect 0 0 0
    else if within 0xc2 0xdf b
    then expect 1 0x80 0xbf
    else if nat_eq b 0xe0
    then expect 2 0xa0 0xbf
    else if nat_eq b 0xed
    then expect 2 0x80 0x9f
    else if within 0xe1 0xef b
    then expect 2 0x80 0xbf
    else if nat_eq b 0xf0
    then expect 3 0x90 0xbf
    else if within 0xf1 0xf3 b
    then expect 3 0x80 0xbf
    else if nat_eq b 0xf4
    then expect 3 0x80 0x8f
    else none

unfoldable pub utf8_step : Utf8State → ℕ → Option Utf8State
utf8_step s b =
    if nat_eq s.due 0
    then utf8_start b
    else if within s.low s.high b
    then expect (s.due - 1) 0x80 0xbf
    else none

unfoldable pub utf8_from : Option Utf8State → List ℕ → Bool
utf8_from none t = false
utf8_from (some s) [] = nat_eq s.due 0
utf8_from (some s) (b ∷ t) = utf8_from (utf8_step s b) t

unfoldable pub is_valid_utf8 : List ℕ → Bool
unfolding utf8_from
is_valid_utf8 t = utf8_from (expect 0 0 0) t

-- for cut > 0 && !utf8.ValidString(reason[:cut])
unfoldable pub cut_back : ℕ → List ℕ → ℕ
unfolding is_valid_utf8
cut_back zero t = 0
cut_back (suc n) t =
    let less = cut_back n t in if is_valid_utf8 (take (suc n) t) then suc n else less

abbrev pub max_reason : ℕ
max_reason = 2048

abbrev pub limit_text : ℕ → List ℕ → List ℕ
limit_text limit t = if ltb limit (length t) then take (cut_back limit t) t else t

-- limitCitationReason; of the white space that strings.TrimSpace takes off, only the ASCII one.
unfoldable pub limit_citation_reason : List ℕ → List ℕ
limit_citation_reason reason = limit_text max_reason (trim_space reason)

unfoldable pub evidence_resolve_error : EvidenceError → ValidationError
evidence_resolve_error EvidenceError.evidence_not_found = evidence_not_found
evidence_resolve_error EvidenceError.attempt_mismatch = evidence_attempt_mismatch
evidence_resolve_error EvidenceError.lineage_mismatch = evidence_lineage_mismatch
evidence_resolve_error EvidenceError.evidence_hash_mismatch = evidence_content_hash_mismatch
evidence_resolve_error _ = evidence_source_unavailable

-- A citation without a location.
abbrev pub bare_citation :
    String → List ℕ → String → ℕ → CitationStatus → Option ValidationError → Citation
bare_citation id reason snapshot build status error = record {
  evidence_id = id;
  code_index_build_id = build;
  reason = reason;
  snapshot_id = snapshot;
  file_path = "";
  start_line = 0;
  end_line = 0;
  excerpt = [];
  content_hash = [];
  validation_status = status;
  validation_error = error;
}

abbrev pub located_citation : AttemptEvidenceItem → Citation → Citation
located_citation i c = record c {
  file_path = i.file_path;
  start_line = i.start_line;
  end_line = i.end_line;
  excerpt = i.display_excerpt;
  content_hash = i.raw_content_hash;
  validation_status = valid;
  validation_error = none;
}

abbrev pub with_error : ValidationError → Citation → Citation
with_error e c = record c { validation_error = some e }

abbrev pub verify_error : EvidenceIssuer → DraftLineage → AttemptEvidenceItem → Option EvidenceError
verify_error issuer l i = elim issuer.verify [ none ↦ none | some f ↦ f l i ]

-- What is made of an item that the issuer resolved: nothing, or the error.
abbrev pub item_error : EvidenceIssuer → DraftLineage → AttemptEvidenceItem → Option ValidationError
item_error issuer l i =
    if not (i.attempt_id == l.attempt_id)
    then some evidence_attempt_mismatch
    else if not (has_lineage l i)
    then some evidence_lineage_mismatch
    else elim (verify_error issuer l i) [ none ↦ none | some e ↦ some (evidence_resolve_error e) ]

abbrev pub settle_item : Option ValidationError → AttemptEvidenceItem → Citation → Citation
settle_item none i c = located_citation i c
settle_item (some e) i c = with_error e c

abbrev pub settle_citation :
    EvidenceIssuer → DraftLineage → Result EvidenceError AttemptEvidenceItem → Citation → Citation
settle_citation issuer l (err e) c = with_error (evidence_resolve_error e) c
settle_citation issuer l (ok i) c = settle_item (item_error issuer l i) i c

-- The body of the loop over the citations of a finding.
unfoldable pub resolve_citation : Option EvidenceIssuer → DraftLineage → CitationRef → Citation
resolve_citation issuer l ref =
    let id = trim_text ref.evidence_id in
    let c =
      bare_citation id (limit_citation_reason ref.reason) l.snapshot_id l.code_index_build_id
        invalid none in
    if id == "" then with_error evidence_id_empty c else elim issuer [
      | none ↦ with_error evidence_source_unavailable c
      | some s ↦ settle_citation s l (s.resolve l.attempt_id id) c
    ]

abbrev pub resolve_finding : (CitationRef → Citation) → FindingDraft → Finding
resolve_finding f d = record {
  title = d.title;
  reasoning = d.reasoning;
  citations = map f d.citations;
}

abbrev pub data_of : (CitationRef → Citation) → ReportDraft → DiagnosisReportData
data_of f d = record {
  conclusion_kind = d.conclusion_kind;
  summary = d.summary;
  root_cause = d.root_cause;
  findings = map (resolve_finding f) d.findings;
  recommended_checks = d.recommended_checks;
  model_claimed_confidence = elim d.model_claimed_confidence [
    | none ↦ d.legacy_confidence
    | some c ↦ some c
  ];
  confirmed_facts = d.confirmed_facts;
  limitations = d.limitations;
}

-- The citations that the structure of a draft is checked with.
abbrev pub draft_citation : CitationRef → Citation
draft_citation ref =
    bare_citation ref.evidence_id (limit_citation_reason ref.reason) "" 0 unchecked none

unfoldable pub validate_report_draft_structure :
    (DiagnosisReportData → Option ℕ) → Option ReportDraft → Option ReportError
validate_report_draft_structure marshal none = some structured_report_invalid
validate_report_draft_structure marshal (some d) =
    validate_report_structure marshal (data_of draft_citation d)

unfoldable pub resolve_report_draft :
    (DiagnosisReportData → Option ℕ)
    → Option EvidenceIssuer
    → DraftLineage
    → Option ReportDraft
    → Result ReportError DiagnosisReportData
resolve_report_draft marshal issuer l none = err structured_report_invalid
resolve_report_draft marshal issuer l (some d) =
    elim (validate_report_draft_structure marshal (some d)) [
      | some e ↦ err e
      | none ↦ ok (data_of (resolve_citation issuer l) d)
    ]
