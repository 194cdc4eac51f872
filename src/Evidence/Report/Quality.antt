-- ===== src/Evidence/Report/Quality.antt =====
-- What the counts of a classified report count.
use repolens.Base.{
  ℕ, ◌+◌, ◌≡◌, refl, sym, ap, ◌∙◌, arith, Bool, true, false, not, ◌&&◌, ◌||◌, Option, none, some,
  List, [], ◌∷◌, length, ltb, if◌then◌else◌,
}
use repolens.Evidence.Citation.{CitationStatus, valid, invalid, unchecked, Citation}
use repolens.Evidence.Report.{
  Finding, DiagnosisReportData, ReportQuality, report_valid, degraded, is_insufficient,
  validate_report_structure, count_citation, count_citations, count_finding, count_findings,
  classify_data, classify_report, judge_quality, no_quality,
}

abbrev pub is_valid_status : CitationStatus → Bool
is_valid_status valid = true
is_valid_status _ = false

abbrev pub is_invalid_status : CitationStatus → Bool
is_invalid_status invalid = true
is_invalid_status _ = false

abbrev pub bit : Bool → ℕ
bit b = if b then 1 else 0

-- The citations that a test of their status passes.
unfoldable pub count_status : (CitationStatus → Bool) → List Citation → ℕ
count_status p [] = 0
count_status p (c ∷ cs) = bit (p c.validation_status) + count_status p cs

abbrev pub has_status : (CitationStatus → Bool) → List Citation → Bool
has_status p cs = ltb 0 (count_status p cs)

-- A finding is supported by a VALID citation, and clean without an INVALID one.
unfoldable pub count_supported : List Finding → ℕ
count_supported [] = 0
count_supported (f ∷ fs) = bit (has_status is_valid_status f.citations) + count_supported fs

unfoldable pub count_unsupported : List Finding → ℕ
count_unsupported [] = 0
count_unsupported (f ∷ fs) =
    bit (not (has_status is_valid_status f.citations)) + count_unsupported fs

unfoldable pub all_supported : List Finding → Bool
all_supported [] = true
all_supported (f ∷ fs) =
    has_status is_valid_status f.citations
    && not (has_status is_invalid_status f.citations)
    && all_supported fs

unfoldable pub total_status : (CitationStatus → Bool) → List Finding → ℕ
total_status p [] = 0
total_status p (f ∷ fs) = count_status p f.citations + total_status p fs

abbrev add_citations : List Citation → ReportQuality → ReportQuality
add_citations cs q = record q {
  valid_citation_count = q.valid_citation_count + count_status is_valid_status cs;
  invalid_citation_count = q.invalid_citation_count + count_status is_invalid_status cs;
}

count_citation-eq :
    (s : CitationStatus) (q : ReportQuality) (seen : Bool)
    → count_citation s (q, seen) ≡ (
      record q {
        valid_citation_count = q.valid_citation_count + bit (is_valid_status s);
        invalid_citation_count = q.invalid_citation_count + bit (is_invalid_status s);
      },
      seen || is_valid_status s,
    )
count_citation-eq valid q seen = ground arith
count_citation-eq invalid q seen = ground arith
count_citation-eq unchecked q seen = ground arith

count_citations-eq :
    (cs : List Citation) (q : ReportQuality) (seen : Bool)
    → count_citations cs (q, seen) ≡ (add_citations cs q, seen || has_status is_valid_status cs)
unfolding count_citations count_status
count_citations-eq [] q seen = ground arith
count_citations-eq (c ∷ cs) q seen =
    ap (count_citations cs) (count_citation-eq c.validation_status q seen)
    ∙ count_citations-eq cs _ _
    ∙ ground arith

count_findings-eq :
    (fs : List Finding) (q : ReportQuality)
    → count_findings fs q ≡ record q {
      supported_finding_count = q.supported_finding_count + count_supported fs;
      unsupported_finding_count = q.unsupported_finding_count + count_unsupported fs;
      valid_citation_count = q.valid_citation_count + total_status is_valid_status fs;
      invalid_citation_count = q.invalid_citation_count + total_status is_invalid_status fs;
    }
unfolding count_findings count_supported count_unsupported total_status
count_findings-eq [] q = ground arith
count_findings-eq (f ∷ fs) q =
    ap (λ r. count_findings fs (count_finding r)) (count_citations-eq f.citations q false)
    ∙ count_findings-eq fs _
    ∙ ground arith

supported-unsupported : (fs : List Finding) → count_supported fs + count_unsupported fs ≡ length fs
unfolding count_supported count_unsupported
supported-unsupported [] = refl
supported-unsupported (f ∷ fs) = ground (arith, supported-unsupported fs)

-- Nothing is unsupported and nothing is INVALID exactly if all is supported.
all_supported-eq :
    (fs : List Finding)
    → not (ltb 0 (count_unsupported fs) || ltb 0 (total_status is_invalid_status fs))
      ≡ all_supported fs
unfolding count_unsupported total_status all_supported
all_supported-eq [] = refl
all_supported-eq (f ∷ fs) = ground (arith, all_supported-eq fs)

-- The quality behind the loops.
abbrev counted : List Finding → ReportQuality
counted fs = judge_quality (record (no_quality report_valid) {
  finding_count = length fs;
  supported_finding_count = count_supported fs;
  unsupported_finding_count = count_unsupported fs;
  valid_citation_count = total_status is_valid_status fs;
  invalid_citation_count = total_status is_invalid_status fs;
})

classified :
    (marshal : DiagnosisReportData → Option ℕ) (d : DiagnosisReportData)
    → validate_report_structure marshal d ≡ none
    → is_insufficient d.conclusion_kind ≡ false
    → classify_report marshal (some d) true ≡ (counted d.findings, none)
unfolding classify_report
classified marshal d accepted kind =
    rw (accepted, classify_data, kind, count_findings-eq d.findings _) (ground arith)

judged :
    (fs : List Finding)
    → (counted fs).status ≡ (if all_supported fs then report_valid else degraded)
judged fs = rw (sym (all_supported-eq fs)) (ground arith)

-- Of a root cause report whose structure is accepted, for any serializer: the findings split into the
-- supported and the others, the counted citations are the VALID and the INVALID ones, and the report
-- is VALID if each finding has a VALID citation and none an INVALID one, and DEGRADED if not.
pub classify_report-counts :
    (marshal : DiagnosisReportData → Option ℕ) (d : DiagnosisReportData)
    → validate_report_structure marshal d ≡ none
    → is_insufficient d.conclusion_kind ≡ false
    → let q = (classify_report marshal (some d) true).0 in
      (q.supported_finding_count ≡ count_supported d.findings)
      × (q.supported_finding_count + q.unsupported_finding_count ≡ length d.findings)
      × (q.valid_citation_count ≡ total_status is_valid_status d.findings)
      × (q.invalid_citation_count ≡ total_status is_invalid_status d.findings)
      × (q.status ≡ (if all_supported d.findings then report_valid else degraded))
classify_report-counts marshal d accepted kind =
    rw (classified marshal d accepted kind)
      (refl, supported-unsupported d.findings, refl, refl, judged d.findings)
