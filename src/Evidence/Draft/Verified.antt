-- ===== src/Evidence/Draft/Verified.antt =====
-- The citations of a resolved draft, and what its classification says of them.
use repolens.Base.{
  ℕ, String, ◌≡◌, refl, subst, arith, Bool, true, false, not, Option, none, some, List, [], ◌∷◌,
  map, text_key, ◌==◌, eq_iff, if◌then◌else◌, All,
}
use repolens.Base.Text.{trim_text}
use repolens.Sql.Result.{Result, ok, err}
use repolens.Evidence.Citation.{valid, invalid, Citation, ValidationError, evidence_id_empty}
use repolens.Evidence.Item.{EvidenceError, AttemptEvidenceItem, DraftLineage}
use repolens.Evidence.Issuer.{has_lineage}
use repolens.Evidence.Report.{DiagnosisReportData, ReportError}
use repolens.Evidence.Draft.{
  CitationRef, FindingDraft, ReportDraft, EvidenceIssuer, resolve_citation, with_error,
  bare_citation, evidence_resolve_error, settle_citation, settle_item, item_error, verify_error,
  data_of, resolve_finding, resolve_report_draft, validate_report_draft_structure,
  limit_citation_reason,
}

-- What a citation copies of an item.
abbrev pub Cites : Citation → AttemptEvidenceItem → Type 0
Cites c i =
    (c.file_path ≡ i.file_path)
    × (c.start_line ≡ i.start_line)
    × (c.end_line ≡ i.end_line)
    × (c.excerpt ≡ i.display_excerpt)
    × (c.content_hash ≡ i.raw_content_hash)

-- The item was issued to the attempt under this id, and the issuer accepts it for the lineage.
abbrev pub IsAccepted : EvidenceIssuer → DraftLineage → String → AttemptEvidenceItem → Type 0
IsAccepted issuer l id i =
    (issuer.resolve l.attempt_id id ≡ ok i)
    × (i.attempt_id ≡ l.attempt_id)
    × (has_lineage l i ≡ true)
    × (verify_error issuer l i ≡ none)

-- A VALID citation copies an accepted item; any other is INVALID, has an error and has no
-- path, lines, text or hash.
pub data IsVerified (issuer : EvidenceIssuer) (l : DraftLineage) (c : Citation) : Type 0 where
  backed :
      (i : AttemptEvidenceItem)
      → c.validation_status ≡ valid
      → IsAccepted issuer l c.evidence_id i
      → Cites c i
      → IsVerified issuer l c
  refused :
      (e : ValidationError)
      → c.validation_status ≡ invalid
      → c.validation_error ≡ some e
      → c.file_path ≡ ""
      → c.start_line ≡ 0
      → c.end_line ≡ 0
      → c.excerpt ≡ []
      → c.content_hash ≡ []
      → IsVerified issuer l c

three_tests :
    (a b : Bool) (o : Option EvidenceError) (x y : ValidationError)
    (g : EvidenceError → ValidationError)
    → (if not a
        then some x
        else if not b
        then some y
        else elim o [ none ↦ none | some e ↦ some (g e) ])
      ≡ none
    → (a ≡ true) × (b ≡ true) × (o ≡ none)
three_tests a b none x y g h = ground arith
three_tests a b (some e) x y g h = ground arith

module _ (issuer : EvidenceIssuer) (l : DraftLineage) where
  item_accepted :
      (i : AttemptEvidenceItem)
      → item_error issuer l i ≡ none
      → (i.attempt_id ≡ l.attempt_id) × (has_lineage l i ≡ true) × (verify_error issuer l i ≡ none)
  item_accepted i h =
      let tests =
        three_tests (i.attempt_id == l.attempt_id) (has_lineage l i) (verify_error issuer l i) _ _ _
          h in
      ((eq_iff i.attempt_id l.attempt_id).0 tests.0, tests.1, tests.2)

  module _ (id : String) (reason : List ℕ) where
    abbrev start : Citation
    start = bare_citation id reason l.snapshot_id l.code_index_build_id invalid none

    settle_item-IsVerified :
        (i : AttemptEvidenceItem) (o : Option ValidationError)
        → issuer.resolve l.attempt_id id ≡ ok i
        → item_error issuer l i ≡ o
        → IsVerified issuer l (settle_item o i start)
    settle_item-IsVerified i (some e) found h = refused e refl refl refl refl refl refl refl
    settle_item-IsVerified i none found h =
        let good = item_accepted i h in
        backed i refl (found, good.0, good.1, good.2) (refl, refl, refl, refl, refl)

    settle_citation-IsVerified :
        (o : Result EvidenceError AttemptEvidenceItem)
        → issuer.resolve l.attempt_id id ≡ o
        → IsVerified issuer l (settle_citation issuer l o start)
    settle_citation-IsVerified (err e) h =
        refused (evidence_resolve_error e) refl refl refl refl refl refl refl
    settle_citation-IsVerified (ok i) h = settle_item-IsVerified i (item_error issuer l i) h refl

  one_citation :
      (id : String) (reason : List ℕ) (b : Bool)
      → IsVerified issuer l (
          if b
          then with_error evidence_id_empty (start id reason)
          else settle_citation issuer l (issuer.resolve l.attempt_id id) (start id reason))
  one_citation id reason true = refused evidence_id_empty refl refl refl refl refl refl refl
  one_citation id reason false = settle_citation-IsVerified id reason _ refl

  resolve_citation-IsVerified :
      (ref : CitationRef) → IsVerified issuer l (resolve_citation (some issuer) l ref)
  unfolding resolve_citation
  resolve_citation-IsVerified ref =
      one_citation (trim_text ref.evidence_id) (limit_citation_reason ref.reason)
        (trim_text ref.evidence_id == "")

  citations-AreVerified :
      (refs : List CitationRef)
      → All (IsVerified issuer l) (map (resolve_citation (some issuer) l) refs)
  citations-AreVerified [] = tt
  citations-AreVerified (r ∷ refs) = (resolve_citation-IsVerified r, citations-AreVerified refs)

  findings-AreVerified :
      (fs : List FindingDraft)
      → All
          (λ f. All (IsVerified issuer l) f.citations)
          (map (resolve_finding (resolve_citation (some issuer) l)) fs)
  findings-AreVerified [] = tt
  findings-AreVerified (f ∷ fs) = (citations-AreVerified f.citations, findings-AreVerified fs)

  abbrev AllVerified : Result ReportError DiagnosisReportData → Type 0
  AllVerified (err e) = Unit
  AllVerified (ok r) = All (λ f. All (IsVerified issuer l) f.citations) r.findings

  settled_draft :
      (d : ReportDraft) (o : Option ReportError)
      → AllVerified (elim o as (λ _. Result ReportError DiagnosisReportData) [
        | some e ↦ err e
        | none ↦ ok (data_of (resolve_citation (some issuer) l) d)
      ])
  settled_draft d none = findings-AreVerified d.findings
  settled_draft d (some e) = tt

-- Whatever ids a draft cites: in the report that it is resolved to, each citation is VALID and copies
-- the path, the lines, the excerpt and the hash of an item that the issuer resolved for the attempt
-- under the cited id and accepted for its lineage, or it is INVALID, has an error and has the line
-- numbers 0, no path, no excerpt and no hash.
pub resolve_report_draft-AreVerified :
    (marshal : DiagnosisReportData → Option ℕ) (issuer : EvidenceIssuer) (l : DraftLineage)
    (d : ReportDraft) (r : DiagnosisReportData)
    → resolve_report_draft marshal (some issuer) l (some d) ≡ ok r
    → All (λ f. All (IsVerified issuer l) f.citations) r.findings
unfolding resolve_report_draft
resolve_report_draft-AreVerified marshal issuer l d r h =
    subst (AllVerified issuer l) h
      (settled_draft issuer l d (validate_report_draft_structure marshal (some d)))
