-- ===== src/Snapshot/Files/Whole.antt =====
-- Reading a range to the end of the file (readFileRangeAt without stopAtEnd, as ReadFileRange calls it)
-- against the bounded read, which stops behind its range.
use repolens.Base.{
  ℕ, ◌+◌, ◌≤◌, ◌<◌, ◌≡◌, refl, ap, sym, ◌∙◌, arith, Bool, Bool-cases, inl, inr, true, false, ◌&&◌,
  Option, none, some, List, String, max, ltb, if◌then◌else◌,
}
use repolens.Snapshot.Files.{LinesRead, read_from, FileRange, read_file_range, first_line}
use repolens.Snapshot.Files.Loop.{bounded, range_text, reaches, total_covers}
use repolens.Snapshot.Files.ReadBack.{read_range_again, read_file_range-eq, no_lines, checked_range}
use repolens.Snapshot.Files.ToEnd.{to_end, SameLines, agrees}

module _ (path : String) (s : ℕ) where
  checks_agree :
      (q r : LinesRead)
      → SameLines (some q) (some r)
      → q.actual_end_line < max (q.total_lines + 1) s
      → ((r.total_known && ltb r.total_lines s) ≡ false → s ≤ r.actual_end_line)
      → range_text (checked_range path s (some q)) ≡ range_text (checked_range path s (some r))
  checks_agree q r (text, last, known, inl stopped) low reach = ground arith
  checks_agree q r (text, last, known, inr same) low reach = ground arith

  ranges_agree :
      (o o' : Option LinesRead)
      → SameLines o o'
      → ((q : LinesRead)
          → o ≡ some q
          → q.total_known ≡ true
          → q.actual_end_line < max (q.total_lines + 1) s)
      → ((r : LinesRead)
          → o' ≡ some r
          → (r.total_known && ltb r.total_lines s) ≡ false
          → s ≤ r.actual_end_line)
      → range_text (checked_range path s o) ≡ range_text (checked_range path s o')
  ranges_agree none none h low reach = refl
  ranges_agree none (some r) h low reach = elim h [ ]
  ranges_agree (some q) none h low reach = elim h [ ]
  ranges_agree (some q) (some r) h low reach = checks_agree q r h (low q refl (h.2)) (reach r refl)

module _ (path : String) (line : List ℕ) (rest : List (List ℕ)) where
  range_agrees :
      (s e m : ℕ)
      → 0 < s
      → (ltb 0 e && ltb e s) ≡ false
      → range_text (checked_range path s (read_from (to_end s e m) (no_lines s) 1 line rest))
        ≡ range_text (checked_range path s (read_from (bounded s e m) (no_lines s) 1 line rest))
  range_agrees s e m pos_s range =
      ranges_agree path s _ _ (agrees s e m (no_lines s) 1 line rest)
        (λ q h known. total_covers (to_end s e m) (no_lines s) 1 line rest q (omega arith) h known)
        (λ r h valid.
          reaches s e m (no_lines s) 1 line rest r refl refl (omega arith) range h valid)

  read_to_end-eq :
      (a e m : ℕ)
      → read_file_range false path line rest a e m ≡ (
          if ltb 0 e && ltb e (first_line a)
          then none
          else checked_range path
              (first_line a)
              (read_from (to_end (first_line a) e m) (no_lines (first_line a)) 1 line rest))
  unfolding read_file_range
  read_to_end-eq a e m = ground arith

  -- Both reads return the same lines, or both fail.
  stop_is_unseen :
      (stop : Bool) (a e m : ℕ)
      → range_text (read_file_range stop path line rest a e m)
        ≡ range_text (read_file_range true path line rest a e m)
  stop_is_unseen true a e m = refl
  stop_is_unseen false a e m = elim (Bool-cases (ltb 0 e && ltb e (first_line a))) [
    | inl bad ↦ rw (read_to_end-eq a e m, read_file_range-eq path line rest a e m, bad) refl
    | inr range ↦
        rw (read_to_end-eq a e m, read_file_range-eq path line rest a e m, range)
          (range_agrees (first_line a) e m (ground arith) range)
  ]

text_of :
    (o : Option FileRange) (content : List ℕ) (first last : ℕ)
    → range_text o ≡ some (content, first, last)
    → (r : FileRange) × (o ≡ some r)
      × (r.content ≡ content)
      × (r.start_line ≡ first)
      × (r.end_line ≡ last)
text_of none content first last h = ground arith
text_of (some r) content first last h = (r, refl, ground arith, ground arith, ground arith)

-- Reading the returned range of a file again without a limit of bytes returns the same lines: the
-- content and both ends are what they were. Each of the two reads may stop behind its range or go on
-- to the end of the file.
pub range_is_read_again :
    (stop stop_again : Bool) (path : String) (line : List ℕ) (rest : List (List ℕ))
    (start_line end_line max_bytes : ℕ) (r : FileRange)
    → read_file_range stop path line rest start_line end_line max_bytes ≡ some r
    → range_text (read_file_range stop_again path line rest r.start_line r.end_line 0)
      ≡ some (r.content, r.start_line, r.end_line)
range_is_read_again stop stop_again path line rest start_line end_line max_bytes r h =
    let (q, read, text, first, last) =
      text_of (read_file_range true path line rest start_line end_line max_bytes) r.content
        r.start_line r.end_line
        (sym (stop_is_unseen path line rest stop start_line end_line max_bytes)
          ∙ ap range_text h) in
    stop_is_unseen path line rest stop_again r.start_line r.end_line 0
    ∙ rw (sym text, sym first, sym last)
        (read_range_again path line rest start_line end_line max_bytes q read)
