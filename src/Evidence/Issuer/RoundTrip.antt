-- ===== src/Evidence/Issuer/RoundTrip.antt =====
-- What Issue returns, Resolve finds and Verify accepts.
use repolens.Base.{
  ℕ, String, ◌≡◌, refl, sym, ap, ◌∙◌, subst, false, Option-cases, inl, inr, Option, none, some,
  text_key, nat_key, ◌==◌, arith, eq_iff, nat_eq_iff,
}
use repolens.Sql.Result.{Result, ok, err}
use repolens.Snapshot.Files.{FileRange}
use repolens.Evidence.Item.{
  EvidenceError, source_unavailable, AttemptEvidenceItem, IssueRequest, EvidenceSource,
  AttemptLineage, ItemTable,
}
use repolens.Evidence.Issuer.{
  issue_item, new_item, issue, refuse_issue, resolve, verify, validate_lineage, read_evidence_range,
}
use repolens.Evidence.Issuer.Stored.{IsSoundTable, IsLinked, Issued, After, issue_item-After}
use repolens.Evidence.Issuer.Checks.{
  IsLawfulSource, reads_back, lineage_of_request, no_lineage, lineage_matches, unrefused,
  names_attempt, canonical_fields, resolve_found, verify_passes,
}

module _ (source : EvidenceSource) (lineage_of : String → Option AttemptLineage)
    (others : ItemTable → ItemTable) (id : String) (now : ℕ) (q : IssueRequest)
    (t : ItemTable) where
  -- An issue that succeeds has passed every check, and has read its range.
  issue_opened :
      (j : AttemptEvidenceItem) (t' : ItemTable)
      → issue source lineage_of others id now q t ≡ (ok j, t')
      → (refuse_issue source (lineage_of q.attempt_id) q ≡ none)
        × (r : FileRange) × (read_evidence_range source q.repository_id q.snapshot_id q.file_path
              q.start_line q.end_line q.max_bytes
            ≡ some r)
        × (issue_item others (new_item source id now q r) t ≡ (ok j, t'))
  unfolding issue
  issue_opened j t' h = elim (Option-cases (refuse_issue source (lineage_of q.attempt_id) q)) [
    | inr (e, refused) ↦
        let bad : ◌≡◌ {A = Result EvidenceError AttemptEvidenceItem × ItemTable} (err e, t)
            (ok j, t') =
          sym (rw (refused, issue)) ∙ h in
        ground arith
    | inl passed ↦
        elim (Option-cases (
          read_evidence_range source q.repository_id q.snapshot_id q.file_path q.start_line
            q.end_line q.max_bytes)) [
              | inl unread ↦
                  let bad : ◌≡◌ {A = Result EvidenceError AttemptEvidenceItem × ItemTable}
                      (err source_unavailable, t) (ok j, t') =
                    sym (rw (passed, unread, issue)) ∙ h in
                  ground arith
              | inr (r, read) ↦ (passed, r, read, sym (rw (passed, read, issue)) ∙ h)
            ]
  ]

  new_item-IsLinked :
      (r : FileRange)
      → (id == "") ≡ false
      → validate_lineage (lineage_of q.attempt_id) q ≡ none
      → IsLinked lineage_of (new_item source id now q r)
  new_item-IsLinked r named passed = elim (Option-cases (lineage_of q.attempt_id)) [
    | inl absent ↦ let bad = rw absent at passed in absurd (no_lineage q bad)
    | inr (l, row) ↦
        let same = lineage_matches q l (rw row at passed) in (named, l, row, same.0, same.1, same.2)
  ]

  -- The returned row carries the run and the build that the request names.
  linked_request :
      (j : AttemptEvidenceItem)
      → IsLinked lineage_of j
      → j.attempt_id ≡ q.attempt_id
      → validate_lineage (lineage_of q.attempt_id) q ≡ none
      → (j.diagnosis_run_id ≡ q.diagnosis_run_id) × (j.code_index_build_id ≡ q.code_index_build_id)
  linked_request j linked own passed =
      let row : lineage_of q.attempt_id ≡ some linked.1 = sym (ap lineage_of own) ∙ linked.2 in
      let same = lineage_matches q linked.1 (rw row at passed) in
      (sym linked.3 ∙ same.0, sym linked.5 ∙ same.2)

  -- An item that is issued on a sound table, whatever sound writes come in between, can be resolved
  -- by its attempt and its id, and is accepted for the lineage of the request; the table stays sound.
  pub issued_evidence_is_accepted :
      IsLawfulSource source
      → (id == "") ≡ false
      → IsSoundTable lineage_of t
      → IsSoundTable lineage_of (others t)
      → (j : AttemptEvidenceItem) (t' : ItemTable)
      → issue source lineage_of others id now q t ≡ (ok j, t')
      → (resolve q.attempt_id j.id t' ≡ ok j)
        × (verify source (lineage_of_request q) j ≡ none)
        × IsSoundTable lineage_of t'
  issued_evidence_is_accepted law named sound later j t' h =
      let done = issue_opened j t' h in
      let r = done.1 in
      let checks = unrefused source (lineage_of q.attempt_id) q done.0 in
      let new = new_item source id now q r in
      let after =
        issue_item-After lineage_of others new t sound later (new_item-IsLinked r named checks.1) in
      let issued : Issued lineage_of new j t' = subst (After lineage_of new) done.3 after in
      let fields =
        canonical_fields q.attempt_id q.snapshot_id r.path r.start_line r.end_line
          (source.sha256_hex r.content) j issued.canonical in
      let same = linked_request j issued.linked fields.0 checks.1 in
      let back =
        reads_back source law q.repository_id q.snapshot_id q.file_path q.start_line q.end_line
          q.max_bytes r done.2 in
      (
        resolve_found q.attempt_id j t' (names_attempt q checks.0) issued.linked.0 fields.0
            issued.indexed,
        verify_passes source (lineage_of_request q) j r.content
            ((eq_iff j.attempt_id q.attempt_id).1 fields.0)
            (rw
              (
                (eq_iff j.diagnosis_run_id q.diagnosis_run_id).1 same.0,
                (eq_iff j.snapshot_id q.snapshot_id).1 fields.1,
                (nat_eq_iff j.code_index_build_id q.code_index_build_id).1 same.1,
              )
              refl)
            (rw (fields.1, fields.2, back.0)
              (law.issue_clean q.repository_id q.snapshot_id q.file_path checks.2))
            (rw (fields.1, fields.2, fields.3, fields.4) back.1) fields.5,
        issued.sound,
      )
