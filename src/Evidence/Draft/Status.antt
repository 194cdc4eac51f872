-- ===== src/Evidence/Draft/Status.antt =====
-- How the report that a draft is resolved to is classified, by what the draft cites.
use repolens.Base.{
  ℕ, ◌≡◌, refl, sym, ap, ◌∙◌, arith, Bool, true, false, not, ◌&&◌, Option-cases, inl, inr, Option,
  none, some, List, [], ◌∷◌, map, text_key, ◌==◌, if◌then◌else◌,
}
use repolens.Base.Text.{trim_text}
use repolens.Sql.Result.{Result, ok, err}
use repolens.Evidence.Citation.{
  valid, invalid, Citation, evidence_id_empty, evidence_attempt_mismatch, evidence_lineage_mismatch,
}
use repolens.Evidence.Item.{EvidenceError, AttemptEvidenceItem, DraftLineage}
use repolens.Evidence.Issuer.{has_lineage}
use repolens.Evidence.Report.{
  DiagnosisReportData, ReportError, validate_report_structure, classify_report, is_insufficient,
  report_valid, degraded, no_items,
}
use repolens.Evidence.Report.Quality.{
  is_valid_status, is_invalid_status, has_status, count_status, all_supported,
  classify_report-counts,
}
use repolens.Evidence.Draft.{
  CitationRef, FindingDraft, ReportDraft, EvidenceIssuer, resolve_citation, settle_citation,
  settle_item, item_error, verify_error, with_error, evidence_resolve_error, data_of,
  resolve_finding, resolve_report_draft, validate_report_draft_structure,
}

abbrev pub is_none : {A : Type 0} → Option A → Bool
is_none none = true
is_none (some a) = false

two_tests :
    (a b : Bool) (o : Option EvidenceError) (i : AttemptEvidenceItem) (c : Citation)
    → c.validation_status ≡ invalid
    → (settle_item
        (if not a
          then some evidence_attempt_mismatch
          else if not b
          then some evidence_lineage_mismatch
          else elim o [ none ↦ none | some e ↦ some (evidence_resolve_error e) ])
        i
        c).validation_status
      ≡ (if a && b && is_none o then valid else invalid)
two_tests false b o i c h = h
two_tests true false o i c h = h
two_tests true true none i c h = refl
two_tests true true (some e) i c h = h

module _ (issuer : EvidenceIssuer) (l : DraftLineage) where
  abbrev is_accepted_item : Result EvidenceError AttemptEvidenceItem → Bool
  is_accepted_item (err e) = false
  is_accepted_item (ok i) =
      i.attempt_id == l.attempt_id && has_lineage l i && is_none (verify_error issuer l i)

  -- The id is one that the issuer resolves for the attempt to an item of the lineage that it accepts.
  abbrev pub is_accepted : CitationRef → Bool
  is_accepted ref =
      not (trim_text ref.evidence_id == "")
      && is_accepted_item (issuer.resolve l.attempt_id (trim_text ref.evidence_id))

  unfoldable pub all_accepted : List CitationRef → Bool
  all_accepted [] = true
  all_accepted (r ∷ refs) = is_accepted r && all_accepted refs

  -- Every finding cites something, and nothing but accepted ids.
  unfoldable pub all_cited : List FindingDraft → Bool
  unfolding all_accepted
  all_cited [] = true
  all_cited (f ∷ fs) = not (no_items f.citations) && all_accepted f.citations && all_cited fs

  settle_item-status :
      (i : AttemptEvidenceItem) (c : Citation)
      → c.validation_status ≡ invalid
      → (settle_item (item_error issuer l i) i c).validation_status
        ≡ (if is_accepted_item (ok i) then valid else invalid)
  settle_item-status i c h =
      two_tests (i.attempt_id == l.attempt_id) (has_lineage l i) (verify_error issuer l i) i c h

  settle_citation-status :
      (o : Result EvidenceError AttemptEvidenceItem) (c : Citation)
      → c.validation_status ≡ invalid
      → (settle_citation issuer l o c).validation_status
        ≡ (if is_accepted_item o then valid else invalid)
  settle_citation-status (err e) c h = h
  settle_citation-status (ok i) c h = settle_item-status i c h

  named_status :
      (b : Bool) (o : Result EvidenceError AttemptEvidenceItem) (c : Citation)
      → c.validation_status ≡ invalid
      → (if b
          then with_error evidence_id_empty c
          else settle_citation issuer l o c).validation_status
        ≡ (if not b && is_accepted_item o then valid else invalid)
  named_status true o c h = h
  named_status false o c h = settle_citation-status o c h

  resolve_citation-status :
      (ref : CitationRef)
      → (resolve_citation (some issuer) l ref).validation_status
        ≡ (if is_accepted ref then valid else invalid)
  unfolding resolve_citation
  resolve_citation-status ref =
      named_status (trim_text ref.evidence_id == "")
        (issuer.resolve l.attempt_id (trim_text ref.evidence_id)) _ refl

  abbrev resolved : List CitationRef → List Citation
  resolved refs = map (resolve_citation (some issuer) l) refs

  none_invalid :
      (refs : List CitationRef)
      → not (has_status is_invalid_status (resolved refs)) ≡ all_accepted refs
  unfolding count_status all_accepted
  none_invalid [] = refl
  none_invalid (r ∷ refs) = ground (arith, resolve_citation-status r, none_invalid refs)

  some_valid :
      (refs : List CitationRef)
      → all_accepted refs ≡ true
      → has_status is_valid_status (resolved refs) ≡ not (no_items refs)
  unfolding count_status all_accepted
  some_valid [] h = refl
  some_valid (r ∷ refs) h = ground (arith, resolve_citation-status r)

  all_supported-eq-all_cited :
      (fs : List FindingDraft)
      → all_supported (map (resolve_finding (resolve_citation (some issuer) l)) fs) ≡ all_cited fs
  unfolding all_supported all_cited
  all_supported-eq-all_cited [] = refl
  all_supported-eq-all_cited (f ∷ fs) =
      ground
        (arith, none_invalid f.citations, some_valid f.citations, all_supported-eq-all_cited fs)

no_result_here :
    (e : ReportError) (r : DiagnosisReportData)
    → ¬ (◌≡◌ {A = Result ReportError DiagnosisReportData} (err e) (ok r))
no_result_here e r h = cc

ok_data : Result ReportError DiagnosisReportData → DiagnosisReportData → DiagnosisReportData
ok_data (ok r) d = r
ok_data (err e) d = d

resolved_data :
    (marshal : DiagnosisReportData → Option ℕ) (issuer : EvidenceIssuer) (l : DraftLineage)
    (d : ReportDraft) (r : DiagnosisReportData)
    → resolve_report_draft marshal (some issuer) l (some d) ≡ ok r
    → r ≡ data_of (resolve_citation (some issuer) l) d
unfolding resolve_report_draft ok_data
resolved_data marshal issuer l d r h =
    elim (Option-cases (validate_report_draft_structure marshal (some d))) [
      | inl fine ↦
          let made : resolve_report_draft marshal (some issuer) l (some d)
              ≡ ok (data_of (resolve_citation (some issuer) l) d) =
            rw (fine, resolve_report_draft) in
          ap (λ o. ok_data o r) (sym h ∙ made)
      | inr (e, bad) ↦
          let no_result : ◌≡◌ {A = Result ReportError DiagnosisReportData} (err e) (ok r) =
            sym (rw (bad, resolve_report_draft)) ∙ h in
          elim (no_result_here e r no_result) [ ]
    ]

-- A root cause draft whose structure is accepted, before and after it is resolved, becomes a VALID
-- report exactly if every finding cites something and cites only ids that the issuer resolves for the
-- attempt to items of its lineage that it accepts; else the report is DEGRADED.
pub resolved_report-status :
    (marshal : DiagnosisReportData → Option ℕ) (issuer : EvidenceIssuer) (l : DraftLineage)
    (d : ReportDraft) (r : DiagnosisReportData)
    → is_insufficient d.conclusion_kind ≡ false
    → resolve_report_draft marshal (some issuer) l (some d) ≡ ok r
    → validate_report_structure marshal r ≡ none
    → (classify_report marshal (some r) true).0.status
      ≡ (if all_cited issuer l d.findings then report_valid else degraded)
resolved_report-status marshal issuer l d r kind h fine =
    let same : r ≡ data_of (resolve_citation (some issuer) l) d =
      resolved_data marshal issuer l d r h in
    (classify_report-counts marshal r fine (rw same kind)).4
    ∙ rw (same, all_supported-eq-all_cited issuer l d.findings)
