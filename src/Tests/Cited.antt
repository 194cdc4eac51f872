-- ===== src/Tests/Cited.antt =====
-- Citations of a file of two lines.
use repolens.Base.{ℕ, ◌≡◌, refl, true, none, some, List, [], ◌∷◌}
use repolens.Base.Text.{same_codes}
use repolens.Evidence.Citation.{
  Citation, SnapshotView, unchecked, validate, accept, normalize_newlines,
}
use repolens.Evidence.Citation.Again.{
  is_admitted, is_valid, is_quoted, stamp, lines_of, valid_citation_is_quoted,
  required_citation_is_accepted_next,
}

abbrev two_lines : List ℕ
two_lines = 97 ∷ 13 ∷ 10 ∷ 98 ∷ []

-- A hash that is the text behind a digit.
abbrev small_view : SnapshotView
small_view = record {
  snapshot = "s";
  can_issue_evidence = λ p. true;
  file_exists = λ p. true;
  read_lines = λ p a b. some two_lines;
  sha256_hex = λ s. 48 ∷ s;
}

-- Without a hash.
abbrev citation_of : List ℕ → Citation
citation_of excerpt = record {
  evidence_id = "";
  code_index_build_id = 0;
  reason = [];
  snapshot_id = "s";
  file_path = "main.go";
  start_line = 1;
  end_line = 2;
  excerpt = excerpt;
  content_hash = [];
  validation_status = unchecked;
  validation_error = none;
}

abbrev quoting : Citation
quoting = citation_of (97 ∷ 10 ∷ 98 ∷ [])

valid_citation_is_quoted_example :
    (is_admitted small_view quoting ≡ true)
    × (content : List ℕ) × (lines_of small_view quoting ≡ some content)
    × (validate small_view quoting ≡ accept (stamp small_view content quoting))
    × (is_quoted content quoting ≡ true)
unfolding validate same_codes normalize_newlines
valid_citation_is_quoted_example = valid_citation_is_quoted small_view quoting refl

required_citation_is_accepted_next_example :
    is_valid (validate small_view (validate small_view (citation_of []))).validation_status ≡ true
unfolding validate same_codes normalize_newlines
required_citation_is_accepted_next_example =
    required_citation_is_accepted_next small_view (citation_of []) (λ s. refl) refl
