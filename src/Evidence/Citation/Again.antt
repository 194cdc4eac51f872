-- ===== src/Evidence/Citation/Again.antt =====
-- What a checked citation stands for, and what a second check makes of it.
use repolens.Base.{
  ℕ, ◌≡◌, inl, inr, refl, sym, ap, ◌∙◌, Bool, true, false, not, ◌&&◌, ◌||◌, not_both, Bool-cases,
  Option, none, some, List, nat_eq, ltb, text_key, ◌==◌, arith,
}
use repolens.Base.Text.{same_codes, same_codes_self, to_lower}
use repolens.Evidence.Citation.{
  CitationStatus, valid, ValidationError, excerpt_or_hash_required, Citation, SnapshotView,
  is_empty, equal_fold, normalize_newlines, accept, reject, validate, validate_content,
}

abbrev pub is_valid : CitationStatus → Bool
is_valid valid = true
is_valid _ = false

abbrev pub is_required : Option ValidationError → Bool
is_required (some excerpt_or_hash_required) = true
is_required _ = false

-- The citation names lines of a file of this snapshot that evidence may be issued for.
abbrev pub is_admitted : SnapshotView → Citation → Bool
is_admitted view c =
    (c.snapshot_id == "" || c.snapshot_id == view.snapshot)
    && not (c.file_path == "")
    && not (nat_eq c.start_line 0 || ltb c.end_line c.start_line)
    && view.can_issue_evidence c.file_path
    && view.file_exists c.file_path

admitted_validate :
    (view : SnapshotView) (c : Citation)
    → is_admitted view c ≡ true
    → validate view c
      ≡ validate_content view (view.read_lines c.file_path c.start_line c.end_line) c
unfolding validate
admitted_validate view c h = ground arith

refused_validate :
    (view : SnapshotView) (c : Citation)
    → is_admitted view c ≡ false
    → (is_valid (validate view c).validation_status ≡ false)
      × (is_required (validate view c).validation_error ≡ false)
unfolding validate
refused_validate view c h = ground arith

-- The excerpt, if there is one, is what the lines say, up to line ends.
abbrev pub is_quoted : List ℕ → Citation → Bool
is_quoted content c =
    is_empty c.excerpt || same_codes (normalize_newlines content) (normalize_newlines c.excerpt)

-- The citation with the hash of the lines.
abbrev pub stamp : SnapshotView → List ℕ → Citation → Citation
stamp view content c = record c { content_hash = view.sha256_hex content }

module _ (view : SnapshotView) (c : Citation) (content : List ℕ) where
  valid_content :
      is_valid (validate_content view (some content) c).validation_status ≡ true
      → (validate_content view (some content) c ≡ accept (stamp view content c))
        × (is_quoted content c ≡ true)
        × ((not (is_empty c.excerpt) || not (is_empty c.content_hash)) ≡ true)
  valid_content h = ground arith

  required_content :
      is_required (validate_content view (some content) c).validation_error ≡ true
      → (validate_content view (some content) c
          ≡ reject excerpt_or_hash_required (stamp view content c))
        × (is_empty c.excerpt ≡ true)
  required_content h = ground arith

  stamped_content :
      c.content_hash ≡ view.sha256_hex content
      → is_empty (view.sha256_hex content) ≡ false
      → is_quoted content c ≡ true
      → validate_content view (some content) c ≡ accept (stamp view content c)
  stamped_content same full quoted =
      let fold : equal_fold c.content_hash (view.sha256_hex content) ≡ true =
        rw same (same_codes_self (to_lower (view.sha256_hex content))) in
      let present : is_empty c.content_hash ≡ false = rw same full in ground arith

abbrev pub lines_of : SnapshotView → Citation → Option (List ℕ)
lines_of view c = view.read_lines c.file_path c.start_line c.end_line

module _ (view : SnapshotView) (c : Citation) where
  valid_lines :
      (o : Option (List ℕ))
      → is_valid (validate_content view o c).validation_status ≡ true
      → (content : List ℕ) × (o ≡ some content)
        × (validate_content view o c ≡ accept (stamp view content c))
        × (is_quoted content c ≡ true)
  valid_lines none h = elim (not_both h refl) [ ]
  valid_lines (some content) h =
      let found = valid_content view c content h in (content, refl, found.0, found.1)

  required_lines :
      (o : Option (List ℕ))
      → is_required (validate_content view o c).validation_error ≡ true
      → (content : List ℕ) × (o ≡ some content)
        × (validate_content view o c ≡ reject excerpt_or_hash_required (stamp view content c))
        × (is_empty c.excerpt ≡ true)
  required_lines none h = elim (not_both h refl) [ ]
  required_lines (some content) h =
      let found = required_content view c content h in (content, refl, found.0, found.1)

  -- A citation that is found VALID names lines of the snapshot that evidence may be issued for and
  -- that can be read; the result carries their hash, and the excerpt, if any, says what they say, up
  -- to line ends.
  pub valid_citation_is_quoted :
      is_valid (validate view c).validation_status ≡ true
      → (is_admitted view c ≡ true)
        × (content : List ℕ) × (lines_of view c ≡ some content)
        × (validate view c ≡ accept (stamp view content c))
        × (is_quoted content c ≡ true)
  valid_citation_is_quoted h = elim (Bool-cases (is_admitted view c)) [
    | inl a ↦
        let opened = admitted_validate view c a in
        let found = valid_lines (lines_of view c) (rw (sym opened) h) in
        (a, found.0, found.1, opened ∙ found.2, found.3)
    | inr n ↦ elim (not_both h (refused_validate view c n).0) [ ]
  ]

  required_citation :
      is_required (validate view c).validation_error ≡ true
      → (is_admitted view c ≡ true)
        × (content : List ℕ) × (lines_of view c ≡ some content)
        × (validate view c ≡ reject excerpt_or_hash_required (stamp view content c))
        × (is_empty c.excerpt ≡ true)
  required_citation h = elim (Bool-cases (is_admitted view c)) [
    | inl a ↦
        let opened = admitted_validate view c a in
        let found = required_lines (lines_of view c) (rw (sym opened) h) in
        (a, found.0, found.1, opened ∙ found.2, found.3)
    | inr n ↦ elim (not_both h (refused_validate view c n).1) [ ]
  ]

  stamped_validate :
      (content : List ℕ)
      → is_admitted view c ≡ true
      → lines_of view c ≡ some content
      → c.content_hash ≡ view.sha256_hex content
      → is_empty (view.sha256_hex content) ≡ false
      → is_quoted content c ≡ true
      → validate view c ≡ accept (stamp view content c)
  stamped_validate content a e same full quoted =
      admitted_validate view c a
      ∙ ap (λ o. validate_content view o c) e
      ∙ stamped_content view c content same full quoted

-- Checking a citation that was found VALID again changes nothing, where a hash is never empty.
valid_citation_stays :
    (view : SnapshotView) (c : Citation)
    → ((s : List ℕ) → is_empty (view.sha256_hex s) ≡ false)
    → is_valid (validate view c).validation_status ≡ true
    → validate view (validate view c) ≡ validate view c
valid_citation_stays view c full h =
    let found = valid_citation_is_quoted view c h in
    rw found.3 (
      stamped_validate view (accept (stamp view found.1 c)) found.1 found.0 found.2 refl
        (full found.1) found.4)

-- A citation that is rejected because it has neither an excerpt nor a hash leaves the check with the
-- hash of the lines, so that a second check finds it VALID, where a hash is never empty.
pub required_citation_is_accepted_next :
    (view : SnapshotView) (c : Citation)
    → ((s : List ℕ) → is_empty (view.sha256_hex s) ≡ false)
    → is_required (validate view c).validation_error ≡ true
    → is_valid (validate view (validate view c)).validation_status ≡ true
required_citation_is_accepted_next view c full h =
    let found = required_citation view c h in
    let next = reject excerpt_or_hash_required (stamp view found.1 c) in
    let quoted : is_quoted found.1 next ≡ true = rw found.4 refl in
    rw (found.3, stamped_validate view next found.1 found.0 found.2 refl (full found.1) quoted) refl
