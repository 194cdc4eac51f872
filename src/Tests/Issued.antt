-- ===== src/Tests/Issued.antt =====
-- Evidence of a file of three lines: its issue, a draft that cites it, and a reason that is cut.
use repolens.Base.{
  ℕ, zero, suc, false, String, ◌≡◌, refl, true, Option, none, some, List, [], ◌∷◌, All,
}
use repolens.Base.Text.{trim_space, same_codes, trim_text, codes}
use repolens.Sql.Result.{ok}
use repolens.Snapshot.Files.{FileRange, read_file_range, take_line}
use repolens.Snapshot.Files.Loop.{range_text}
use repolens.Snapshot.Files.Whole.{range_is_read_again}
use repolens.Evidence.Item.{
  first, create, find_canonical, get_by_attempt_and_id, AttemptEvidenceItem, IssueRequest,
  EvidenceSource, AttemptLineage, ItemTable, search_code,
}
use repolens.Evidence.Report.{
  DiagnosisReportData, root_cause, report_valid, validate_report_structure, classify_report,
}
use repolens.Evidence.Draft.{
  CitationRef, ReportDraft, service, resolve_citation, data_of, resolve_report_draft,
  validate_report_draft_structure, limit_citation_reason,
}
use repolens.Evidence.Draft.Verified.{IsVerified, resolve_report_draft-AreVerified}
use repolens.Evidence.Draft.Status.{all_cited, resolved_report-status}
use repolens.Evidence.Issuer.{read_evidence_range, issue, resolve, verify, new_item}
use repolens.Evidence.Issuer.Stored.{IsSoundTable}
use repolens.Evidence.Issuer.Checks.{IsLawfulSource, lineage_of_request}
use repolens.Evidence.Issuer.RoundTrip.{issued_evidence_is_accepted}

abbrev first_of : List ℕ
first_of = 97 ∷ 98 ∷ []

abbrev others_of : List (List ℕ)
others_of = (99 ∷ []) ∷ (100 ∷ 101 ∷ 102 ∷ 103 ∷ []) ∷ []

-- A limit of five bytes keeps two lines.
abbrev two_lines : FileRange
two_lines = record {
  path = "a.go";
  start_line = 1;
  end_line = 2;
  total_lines = 3;
  content = 97 ∷ 98 ∷ 10 ∷ 99 ∷ [];
  truncated = true;
}

within_limit : read_file_range true "a.go" first_of others_of 0 3 5 ≡ some two_lines
unfolding read_file_range take_line
within_limit = refl

-- So does a read that goes on to the end of the file.
to_the_end : read_file_range false "a.go" first_of others_of 0 3 5 ≡ some two_lines
unfolding read_file_range take_line
to_the_end = refl

range_is_read_again_example :
    range_text (read_file_range true "a.go" first_of others_of 1 2 0)
    ≡ some (two_lines.content, 1, 2)
range_is_read_again_example =
    range_is_read_again false true "a.go" first_of others_of 0 3 5 two_lines to_the_end

abbrev small_source : EvidenceSource
small_source = record {
  can_issue = λ r s p. true;
  open_file = λ r s p. some (first_of, others_of);
  clean = λ p. p;
  redact_secrets = λ s. s;
  sha256_hex = λ s. 48 ∷ s;
}

small_source-IsLawfulSource : IsLawfulSource small_source
small_source-IsLawfulSource = record {
  open_clean = λ r s p. refl;
  clean_again = λ p. refl;
  issue_clean = λ r s p h. refl;
}

abbrev lineage : String → Option AttemptLineage
lineage a = some (record {
  diagnosis_run_id = "run";
  repository_id = "repo";
  snapshot_id = "snap";
  code_index_build_id = 7;
})

abbrev request : IssueRequest
request = record {
  attempt_id = "att";
  diagnosis_run_id = "run";
  repository_id = "repo";
  snapshot_id = "snap";
  code_index_build_id = 7;
  source_kind = search_code;
  source_step_seq = 2;
  retrieval_chunk_id = "c";
  file_path = "a.go";
  start_line = 0;
  end_line = 3;
  max_bytes = 5;
}

abbrev item : AttemptEvidenceItem
item = new_item small_source "ev_1" 9 request two_lines

abbrev one_item : ItemTable
one_item = item ∷ []

-- Another transaction issued the same lines in between.
abbrev racing_item : AttemptEvidenceItem
racing_item = record item { id = "ev_0" }

racing_issue :
    issue small_source lineage (λ t. racing_item ∷ []) "ev_1" 9 request []
    ≡ (ok racing_item, racing_item ∷ [])
unfolding issue read_file_range take_line first create find_canonical same_codes
racing_issue = refl

racing-IsSoundTable : IsSoundTable lineage (racing_item ∷ [])
unfolding first
racing-IsSoundTable = record {
  indexed = (refl, tt);
  linked = ((refl, _, refl, refl, refl, refl), tt);
}

issued_evidence_is_accepted_example :
    (resolve "att" "ev_0" (racing_item ∷ []) ≡ ok racing_item)
    × (verify small_source (lineage_of_request request) racing_item ≡ none)
    × IsSoundTable lineage (racing_item ∷ [])
issued_evidence_is_accepted_example =
    issued_evidence_is_accepted small_source lineage (λ t. racing_item ∷ []) "ev_1" 9 request []
      small_source-IsLawfulSource refl (record { indexed = tt; linked = tt }) racing-IsSoundTable
      racing_item (racing_item ∷ []) racing_issue

abbrev cites : String → CitationRef
cites id = record { evidence_id = id; reason = codes " see here " }

abbrev draft : ReportDraft
draft = record {
  conclusion_kind = root_cause;
  summary = codes "s";
  root_cause = codes "r";
  findings =
      record { title = codes "t"; reasoning = codes "w"; citations = cites " ev_0 " ∷ [] } ∷ [];
  recommended_checks = [];
  confirmed_facts = [];
  limitations = [];
  model_claimed_confidence = none;
  legacy_confidence = none;
}

abbrev report : DiagnosisReportData
report =
    data_of
      (resolve_citation (some (service small_source (racing_item ∷ [])))
        (lineage_of_request request))
      draft

abbrev size : DiagnosisReportData → Option ℕ
size d = some 1000

resolved_draft :
    resolve_report_draft size
      (some (service small_source (racing_item ∷ [])))
      (lineage_of_request request)
      (some draft)
    ≡ ok report
unfolding resolve_report_draft validate_report_draft_structure validate_report_structure
    limit_citation_reason trim_space
resolved_draft = refl

accepted_report : validate_report_structure size report ≡ none
unfolding validate_report_structure resolve_citation resolve get_by_attempt_and_id first verify
    take_line read_file_range same_codes trim_text limit_citation_reason trim_space
    read_evidence_range
accepted_report = refl

resolve_report_draft-AreVerified_example :
    All
      (λ f.
        All
          (IsVerified (service small_source (racing_item ∷ [])) (lineage_of_request request))
          f.citations)
      report.findings
resolve_report_draft-AreVerified_example =
    resolve_report_draft-AreVerified size (service small_source (racing_item ∷ []))
      (lineage_of_request request) draft report resolved_draft

resolved_report-status_example : (classify_report size (some report) true).0.status ≡ report_valid
unfolding all_cited resolve get_by_attempt_and_id first verify take_line read_file_range same_codes
    trim_text read_evidence_range
resolved_report-status_example =
    resolved_report-status size (service small_source (racing_item ∷ []))
      (lineage_of_request request) draft report refl resolved_draft accepted_report

-- Characters of three bytes each, behind one byte: 2048 bytes end within a character.
abbrev long_tail : ℕ → List ℕ
long_tail zero = []
long_tail (suc n) = 0xe2 ∷ 0x82 ∷ 0xac ∷ long_tail n

abbrev long_reason : List ℕ
long_reason = 97 ∷ long_tail 700
