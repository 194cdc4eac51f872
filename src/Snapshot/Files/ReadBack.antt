-- ===== src/Snapshot/Files/ReadBack.antt =====
-- Reading again the lines that a read within a limit returned.
use repolens.Base.{
  ℕ, ◌-◌, ◌≤◌, ◌<◌, ◌≡◌, refl, arith, Bool-cases, inl, inr, true, false, ◌&&◌, Option, none, some,
  List, [], String, ltb, if◌then◌else◌,
}
use repolens.Snapshot.Files.{
  ReadState, LinesRead, read_from, FileRange, read_file_range, first_line, range_of,
}
use repolens.Snapshot.Files.Loop.{
  range_text, text_read, bounded, reads_again, reaches, total_covers,
}

abbrev pub no_lines : ℕ → ReadState
no_lines s = record { content = []; selected_lines = 0; actual_end_line = s - 1; truncated = false }

-- The part of the read behind the test of the range.
abbrev pub checked_range : String → ℕ → Option LinesRead → Option FileRange
checked_range path s none = none
checked_range path s (some r) =
    if r.total_known && ltb r.total_lines s then none else some (range_of path s r)

module _ (path : String) (line : List ℕ) (rest : List (List ℕ)) where
  opened :
      (s e m : ℕ) (r : FileRange) (o : Option LinesRead)
      → read_from (bounded s e m) (no_lines s) 1 line rest ≡ o
      → checked_range path s o ≡ some r
      → (q : LinesRead) × (read_from (bounded s e m) (no_lines s) 1 line rest ≡ some q)
        × ((q.total_known && ltb q.total_lines s) ≡ false)
        × (r ≡ range_of path s q)
  opened s e m r none e1 h = ground arith
  opened s e m r (some q) e1 h = (q, e1, ground arith, ground arith)

  closed :
      (s : ℕ) (content : List ℕ) (last : ℕ) (o : Option LinesRead)
      → read_from (bounded s last 0) (no_lines s) 1 line rest ≡ o
      → 0 < s
      → s ≤ last
      → text_read o ≡ some (content, last)
      → range_text (checked_range path s o) ≡ some (content, s, last)
  closed s content last none e1 pos_s high h = ground arith
  closed s content last (some q) e1 pos_s high h =
      ground (arith, total_covers (bounded s last 0) (no_lines s) 1 line rest q)

  again_from :
      (s e m : ℕ) (r : FileRange)
      → 0 < s
      → (ltb 0 e && ltb e s) ≡ false
      → checked_range path s (read_from (bounded s e m) (no_lines s) 1 line rest) ≡ some r
      → (r.start_line ≡ s)
        × (s ≤ r.end_line)
        × (range_text
              (checked_range path s (read_from (bounded s r.end_line 0) (no_lines s) 1 line rest))
            ≡ some (r.content, r.start_line, r.end_line))
  again_from s e m r pos_s range h =
      let first = opened s e m r _ refl h in
      let q = first.0 in
      let high : s ≤ q.actual_end_line =
        reaches s e m (no_lines s) 1 line rest q refl refl (omega arith) range first.1 first.2 in
      let again : text_read (read_from (bounded s q.actual_end_line 0) (no_lines s) 1 line rest)
          ≡ some (q.content, q.actual_end_line) =
        reads_again s e m (no_lines s) 1 line rest q refl (omega arith) (omega arith) high
          first.1 in
      rw first.3 (refl, high, closed s q.content q.actual_end_line _ refl pos_s high again)

  pub read_file_range-eq :
      (a e m : ℕ)
      → read_file_range true path line rest a e m ≡ (
          if ltb 0 e && ltb e (first_line a)
          then none
          else checked_range path
              (first_line a)
              (read_from (bounded (first_line a) e m) (no_lines (first_line a)) 1 line rest))
  unfolding read_file_range
  read_file_range-eq a e m = ground arith

-- Reading the returned range of a file again, without a limit of bytes, returns the same lines: the
-- content and both ends are what they were.
pub read_range_again :
    (path : String) (line : List ℕ) (rest : List (List ℕ)) (start_line end_line max_bytes : ℕ)
    (r : FileRange)
    → read_file_range true path line rest start_line end_line max_bytes ≡ some r
    → range_text (read_file_range true path line rest r.start_line r.end_line 0)
      ≡ some (r.content, r.start_line, r.end_line)
read_range_again path line rest start_line end_line max_bytes r h =
    elim (Bool-cases (ltb 0 end_line && ltb end_line (first_line start_line))) [
      | inl bad ↦ ground (arith, read_file_range-eq path line rest start_line end_line max_bytes)
      | inr range ↦
          let opened_range =
            rw (read_file_range-eq path line rest start_line end_line max_bytes, range) at h in
          let again =
            again_from path line rest (first_line start_line) end_line max_bytes r (ground arith)
              range opened_range in
          let same : first_line r.start_line ≡ r.start_line = ground (arith, again.0) in
          let good : (ltb 0 r.end_line && ltb r.end_line r.start_line) ≡ false =
            ground (arith, again.0, again.1) in
          rw (read_file_range-eq path line rest r.start_line r.end_line 0, same, good)
            (rw again.0 (rw again.0 at (again.2)))
    ]

pub read_range_path :
    (path : String) (line : List ℕ) (rest : List (List ℕ)) (start_line end_line max_bytes : ℕ)
    (r : FileRange)
    → read_file_range true path line rest start_line end_line max_bytes ≡ some r
    → r.path ≡ path
unfolding read_file_range
read_range_path path line rest start_line end_line max_bytes r h = ground arith
