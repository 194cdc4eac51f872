-- ===== src/Evidence/Report.antt =====
-- internal/evidence/report.go: the structure that a report must have and how it is classified. Texts
-- are the codes of their bytes. `marshal` is json.Marshal: no result is its error, and else the length
-- of the document. The legacy field `confidence` is read by neither function.
pub mod Quality
use repolens.Base.{
  ℕ, ◌+◌, ◌*◌, String, Bool, true, false, not, ◌&&◌, ◌||◌, Option, none, some, List, [], ◌∷◌, ◌++◌,
  length, ltb, nat_eq, if◌then◌else◌,
}
use repolens.Base.Text.{codes, trim_space}
use repolens.Evidence.Citation.{CitationStatus, valid, invalid, unchecked, Citation, is_empty}

pub record Finding : Type 0 where
  pub title : List ℕ
  pub reasoning : List ℕ
  pub citations : List Citation

-- `other` is any text that the source does not list.
pub data ConclusionKind : Type 0 where
  root_cause insufficient_evidence : ConclusionKind
  other : String → ConclusionKind

pub data ReportStatus : Type 0 where
  report_valid degraded report_insufficient_evidence report_invalid : ReportStatus

-- A floating point number, as the two comparisons of the source see it; NaN is `in_range`.
pub data Confidence : Type 0 where
  below_zero in_range above_one : Confidence

pub record DiagnosisReportData : Type 0 where
  pub conclusion_kind : ConclusionKind
  pub summary : List ℕ
  pub root_cause : List ℕ
  pub findings : List Finding
  pub recommended_checks : List (List ℕ)
  pub model_claimed_confidence : Option Confidence
  pub confirmed_facts : List (List ℕ)
  pub limitations : List (List ℕ)

pub data ReportError : Type 0 where
  structured_report_invalid conclusion_kind_invalid insufficient_fields_missing : ReportError
  root_cause_fields_missing confidence_out_of_range text_too_long too_many_items : ReportError
  field_too_long finding_incomplete finding_too_large citation_too_large : ReportError
  not_serialized report_too_large : ReportError

abbrev pub max_report_bytes : ℕ
max_report_bytes = 4 * 1024 * 1024

abbrev pub is_insufficient : ConclusionKind → Bool
is_insufficient insufficient_evidence = true
is_insufficient _ = false

abbrev pub is_known : ConclusionKind → Bool
is_known (other s) = false
is_known _ = true

abbrev pub out_of_range : Option Confidence → Bool
out_of_range (some below_zero) = true
out_of_range (some above_one) = true
out_of_range _ = false

abbrev pub no_items : {A : Type 0} → List A → Bool
no_items [] = true
no_items (x ∷ xs) = false

abbrev pub is_blank : List ℕ → Bool
is_blank s = is_empty (trim_space s)

-- A loop that returns at the first element with an error.
unfoldable pub first_error : {A E : Type 0} → (A → Option E) → List A → Option E
first_error f [] = none
first_error f (x ∷ xs) = elim (f x) [ some e ↦ some e | none ↦ first_error f xs ]

abbrev pub field_error : List ℕ → Option ReportError
field_error s = if ltb (8 * 1024) (length s) then some field_too_long else none

abbrev pub citation_error : Citation → Option ReportError
citation_error c =
    if ltb 512 (length (codes c.file_path))
      || ltb (32 * 1024) (length c.excerpt)
      || ltb (2 * 1024) (length c.reason)
    then some citation_too_large
    else none

unfoldable pub finding_error : Finding → Option ReportError
unfolding first_error
finding_error f =
    if is_blank f.title || is_blank f.reasoning
    then some finding_incomplete
    else if ltb (2 * 1024) (length f.title)
        || ltb (8 * 1024) (length f.reasoning)
        || ltb 16 (length f.citations)
    then some finding_too_large
    else first_error citation_error f.citations

-- The fields that the conclusion asks for.
abbrev pub required_error : DiagnosisReportData → Option ReportError
required_error d =
    if is_insufficient d.conclusion_kind
    then if no_items d.confirmed_facts || no_items d.limitations || no_items d.recommended_checks
      then some insufficient_fields_missing
      else none
    else if is_blank d.summary || is_blank d.root_cause || no_items d.findings
    then some root_cause_fields_missing
    else none

abbrev pub all_texts : DiagnosisReportData → List (List ℕ)
all_texts d =
    d.recommended_checks ++ d.confirmed_facts ++ d.limitations ++ (d.summary ∷ d.root_cause ∷ [])

-- ValidateReportBytes of the serialized report.
abbrev pub size_error : Option ℕ → Option ReportError
size_error none = some not_serialized
size_error (some n) = if ltb max_report_bytes n then some report_too_large else none

abbrev pub limits_error : DiagnosisReportData → Option ReportError
limits_error d =
    if out_of_range d.model_claimed_confidence
    then some confidence_out_of_range
    else if ltb (16 * 1024) (length d.summary) || ltb (16 * 1024) (length d.root_cause)
    then some text_too_long
    else if ltb 64 (length d.findings)
        || ltb 32 (length d.recommended_checks)
        || ltb 32 (length d.confirmed_facts)
        || ltb 32 (length d.limitations)
    then some too_many_items
    else none

infixr 30 ◌or_else◌
abbrev pub ◌or_else◌ : {E : Type 0} → Option E → Option E → Option E
some e or_else o = some e
none or_else o = o

unfoldable pub validate_report_structure :
    (DiagnosisReportData → Option ℕ) → DiagnosisReportData → Option ReportError
unfolding first_error finding_error
validate_report_structure marshal d =
    if not (is_known d.conclusion_kind)
    then some conclusion_kind_invalid
    else required_error d
      or_else limits_error d
      or_else first_error field_error (all_texts d)
      or_else first_error finding_error d.findings
      or_else size_error (marshal d)

-- The coverage is the quotient of the first two counts where there is a finding.
pub record ReportQuality : Type 0 where
  pub status : ReportStatus
  pub finding_count : ℕ
  pub supported_finding_count : ℕ
  pub unsupported_finding_count : ℕ
  pub valid_citation_count : ℕ
  pub invalid_citation_count : ℕ
  pub citation_coverage : Option (ℕ × ℕ)

abbrev pub no_quality : ReportStatus → ReportQuality
no_quality s = record {
  status = s;
  finding_count = 0;
  supported_finding_count = 0;
  unsupported_finding_count = 0;
  valid_citation_count = 0;
  invalid_citation_count = 0;
  citation_coverage = none;
}

-- The loop over the citations of a finding, with `hasValid`.
abbrev pub count_citation : CitationStatus → ReportQuality × Bool → ReportQuality × Bool
count_citation valid (q, seen) =
    (record q { valid_citation_count = q.valid_citation_count + 1 }, true)
count_citation invalid (q, seen) =
    (record q { invalid_citation_count = q.invalid_citation_count + 1 }, seen)
count_citation unchecked (q, seen) = (q, seen)

unfoldable pub count_citations : List Citation → ReportQuality × Bool → ReportQuality × Bool
count_citations [] s = s
count_citations (c ∷ cs) s = count_citations cs (count_citation c.validation_status s)

abbrev pub count_finding : ReportQuality × Bool → ReportQuality
count_finding (q, true) = record q { supported_finding_count = q.supported_finding_count + 1 }
count_finding (q, false) = record q { unsupported_finding_count = q.unsupported_finding_count + 1 }

-- The loop over the findings; a finding without citations takes its short way to the same count.
unfoldable pub count_findings : List Finding → ReportQuality → ReportQuality
unfolding count_citations
count_findings [] q = q
count_findings (f ∷ fs) q =
    count_findings fs (count_finding (count_citations f.citations (q, false)))

-- What follows the loop.
abbrev pub judge_quality : ReportQuality → ReportQuality
judge_quality q = record q {
  citation_coverage =
      if ltb 0 q.finding_count then some (q.supported_finding_count, q.finding_count) else none;
  status =
      if ltb 0 q.unsupported_finding_count || ltb 0 q.invalid_citation_count
      then degraded
      else q.status;
}

unfoldable pub classify_data :
    (DiagnosisReportData → Option ℕ) → DiagnosisReportData → ReportQuality × Option ReportError
classify_data marshal d = elim (validate_report_structure marshal d) [
  | some e ↦ (no_quality report_invalid, some e)
  | none ↦
      if is_insufficient d.conclusion_kind
      then (no_quality report_insufficient_evidence, none)
      else (
        judge_quality (
            count_findings d.findings
              (record (no_quality report_valid) { finding_count = length d.findings })),
        none,
      )
]

unfoldable pub classify_report :
    (DiagnosisReportData → Option ℕ)
    → Option DiagnosisReportData
    → Bool
    → ReportQuality × Option ReportError
unfolding classify_data
classify_report marshal none structured =
    (no_quality report_invalid, some structured_report_invalid)
classify_report marshal (some d) structured =
    if structured
    then classify_data marshal d
    else (no_quality report_invalid, some structured_report_invalid)
