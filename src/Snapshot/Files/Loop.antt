-- ===== src/Snapshot/Files/Loop.antt =====
-- The loop of readBoundedLines: two runs over the same lines, within a limit and without.
use repolens.Base.{
  ℕ, ◌+◌, ◌≤◌, ◌<◌, ◌≡◌, arith, Bool-cases, inl, inr, true, false, ◌&&◌, Option, none, some, List,
  [], ◌∷◌, max, ltb, if◌then◌else◌,
}
use repolens.Snapshot.Files.{
  ReadSpec, ReadState, LinesRead, keeps, take_line, read_from, is_done, lines_read, append_line,
  FileRange,
}

-- From a state that is not truncated, a read of lines behind it adds whole lines or nothing.
pub grows :
    (p : ReadSpec) (st : ReadState) (k : ℕ) (line : List ℕ) (rest : List (List ℕ)) (r : LinesRead)
    → p.stop_at_end ≡ true
    → st.truncated ≡ false
    → st.actual_end_line < max k p.start_line
    → read_from p st k line rest ≡ some r
    → (st.actual_end_line ≤ r.actual_end_line)
      × (r.actual_end_line ≡ st.actual_end_line → r.content ≡ st.content)
unfolding read_from take_line
grows p st k line [] r stop open_state low h = (ground arith, λ e. ground arith)
grows p st k line (next ∷ rest) r stop open_state low h = (
  ground
      (arith, grows p (append_line k line st) (k + 1) next rest r, grows p st (k + 1) next rest r),
  λ e.
      ground (
        arith,
        grows p (append_line k line st) (k + 1) next rest r,
        grows p st (k + 1) next rest r,
      ),
)

abbrev pub text_read : Option LinesRead → Option (List ℕ × ℕ)
text_read none = none
text_read (some r) = some (r.content, r.actual_end_line)

abbrev pub bounded : ℕ → ℕ → ℕ → ReadSpec
bounded s e m = record { start_line = s; requested_end = e; max_bytes = m; stop_at_end = true }

module _ (s e m : ℕ) (st : ReadState) (k : ℕ) (line : List ℕ) where
  skipped : k < s → take_line (bounded s e m) k line st ≡ keeps st
  unfolding take_line
  skipped h = ground arith

  taken :
      st.truncated ≡ false
      → s ≤ k
      → k ≤ e
      → take_line (bounded s e 0) k line st ≡ keeps (append_line k line st)
  unfolding take_line
  taken h a b = ground arith

abbrev next_round : ReadSpec → ReadState → ℕ → List ℕ → List (List ℕ) → Option LinesRead
next_round p st k next rest =
    if is_done p (k + 1) st
    then some (lines_read st (k + 1) false)
    else read_from p st (k + 1) next rest

module _ (s e m : ℕ) (st : ReadState) (k : ℕ) (line next : List ℕ) (rest : List (List ℕ)) where
  skipped_next :
      k < s
      → read_from (bounded s e m) st k line (next ∷ rest)
        ≡ next_round (bounded s e m) st k next rest
  unfolding read_from
  skipped_next h = rw (skipped s e m st k line h)

  taken_next :
      st.truncated ≡ false
      → s ≤ k
      → k ≤ e
      → read_from (bounded s e 0) st k line (next ∷ rest)
        ≡ next_round (bounded s e 0) (append_line k line st) k next rest
  unfolding read_from
  taken_next h a b = rw (taken s e 0 st k line h a b)

  -- Within a limit a selected line that counts is taken whole.
  kept_next :
      (r : LinesRead)
      → st.truncated ≡ false
      → st.actual_end_line < k
      → s ≤ k
      → k ≤ r.actual_end_line
      → read_from (bounded s e m) st k line (next ∷ rest) ≡ some r
      → next_round (bounded s e m) (append_line k line st) k next rest ≡ some r
  unfolding read_from take_line
  kept_next r open_state low in_range more h = ground arith

reads_last :
    (s e m : ℕ) (st : ReadState) (k : ℕ) (line : List ℕ) (r : LinesRead)
    → st.actual_end_line < max k s
    → k ≤ r.actual_end_line
    → s ≤ r.actual_end_line
    → read_from (bounded s e m) st k line [] ≡ some r
    → text_read (read_from (bounded s r.actual_end_line 0) st k line [])
      ≡ some (r.content, r.actual_end_line)
unfolding read_from take_line
reads_last s e m st k line r low more enough h = ground arith

-- The loop without a limit up to the last line that a read within one returned.
pub reads_again :
    (s e m : ℕ) (st : ReadState) (k : ℕ) (line : List ℕ) (rest : List (List ℕ)) (r : LinesRead)
    → st.truncated ≡ false
    → st.actual_end_line < max k s
    → k ≤ r.actual_end_line
    → s ≤ r.actual_end_line
    → read_from (bounded s e m) st k line rest ≡ some r
    → text_read (read_from (bounded s r.actual_end_line 0) st k line rest)
      ≡ some (r.content, r.actual_end_line)
reads_again s e m st k line [] r open_state low more enough h =
    reads_last s e m st k line r low more enough h
reads_again s e m st k line (next ∷ rest) r open_state low more enough h =
    elim (Bool-cases (ltb k s)) [
      | inl before ↦ ground (
        arith,
        skipped_next s e m st k line next rest,
        skipped_next s r.actual_end_line 0 st k line next rest,
        reads_again s e m st (k + 1) next rest r,
      )
      | inr inside ↦ ground (
        arith,
        kept_next s e m st k line next rest r,
        taken_next s r.actual_end_line 0 st k line next rest,
        grows (bounded s e m) (append_line k line st) (k + 1) next rest r,
        reads_again s e m (append_line k line st) (k + 1) next rest r,
      )
    ]

module _ (s e m : ℕ) (st : ReadState) (k : ℕ) (line : List ℕ) (r : LinesRead) where
  first_last :
      st.truncated ≡ false
      → st.selected_lines ≡ 0
      → k ≤ s
      → (ltb 0 e && ltb e s) ≡ false
      → read_from (bounded s e m) st k line [] ≡ some r
      → (r.total_known && ltb r.total_lines s) ≡ false
      → s ≤ r.actual_end_line
  unfolding read_from take_line
  first_last open_state none_yet low range h valid = ground arith

  -- The first line of the range is taken whole, or nothing is read.
  first_next :
      (next : List ℕ) (rest : List (List ℕ))
      → st.truncated ≡ false
      → st.selected_lines ≡ 0
      → s ≤ k
      → k ≤ s
      → (ltb 0 e && ltb e s) ≡ false
      → read_from (bounded s e m) st k line (next ∷ rest) ≡ some r
      → next_round (bounded s e m) (append_line k line st) k next rest ≡ some r
  unfolding read_from take_line
  first_next next rest open_state none_yet low high range h = ground arith

-- A read that succeeds has taken its first line.
pub reaches :
    (s e m : ℕ) (st : ReadState) (k : ℕ) (line : List ℕ) (rest : List (List ℕ)) (r : LinesRead)
    → st.truncated ≡ false
    → st.selected_lines ≡ 0
    → k ≤ s
    → (ltb 0 e && ltb e s) ≡ false
    → read_from (bounded s e m) st k line rest ≡ some r
    → (r.total_known && ltb r.total_lines s) ≡ false
    → s ≤ r.actual_end_line
reaches s e m st k line [] r open_state none_yet low range h valid =
    first_last s e m st k line r open_state none_yet low range h valid
reaches s e m st k line (next ∷ rest) r open_state none_yet low range h valid =
    elim (Bool-cases (ltb k s)) [
      | inl before ↦
          ground
            (arith, skipped_next s e m st k line next rest, reaches s e m st (k + 1) next rest r)
      | inr inside ↦ ground (
        arith,
        first_next s e m st k line r next rest,
        grows (bounded s e m) (append_line k line st) (k + 1) next rest r,
      )
    ]

abbrev pub range_text : Option FileRange → Option (List ℕ × ℕ × ℕ)
range_text none = none
range_text (some r) = some (r.content, r.start_line, r.end_line)

-- A file that was read to its end has the lines that were returned.
pub total_covers :
    (p : ReadSpec) (st : ReadState) (k : ℕ) (line : List ℕ) (rest : List (List ℕ)) (r : LinesRead)
    → st.actual_end_line < max k p.start_line
    → read_from p st k line rest ≡ some r
    → r.total_known ≡ true
    → r.actual_end_line < max (r.total_lines + 1) p.start_line
unfolding read_from take_line
total_covers p st k line [] r low h known = ground arith
total_covers p st k line (next ∷ rest) r low h known = ground (
  arith,
  total_covers p (append_line k line st) (k + 1) next rest r,
  total_covers p st (k + 1) next rest r,
  total_covers p (record st { truncated = true }) (k + 1) next rest r,
)
