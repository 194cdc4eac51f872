-- ===== src/Snapshot/Files.antt =====
-- internal/platform/snapshotstore/snapshotstore.go: how a range of lines is read from a file within a
-- limit of bytes (readBoundedLines, readFileRangeAt). A file is the list of its lines, never empty,
-- since what follows the last newline is a line too; the fragments of the buffered reader that a line
-- comes in are put together. A limit or a last line of 0 stands for every one that is not positive.
pub mod Loop
pub mod ReadBack
pub mod ToEnd
pub mod Whole
use repolens.Base.{
  ℕ, zero, suc, ◌+◌, ◌-◌, String, Bool, true, false, not, ◌&&◌, ◌||◌, Option, none, some, List, [],
  ◌∷◌, ◌++◌, length, ltb, leb, nat_eq, if◌then◌else◌,
}

pub record FileRange : Type 0 where
  pub path : String
  pub start_line : ℕ
  pub end_line : ℕ
  pub total_lines : ℕ
  pub content : List ℕ
  pub truncated : Bool

-- The arguments that do not change in the loop.
pub record ReadSpec : Type 0 where
  pub start_line : ℕ
  pub requested_end : ℕ
  pub max_bytes : ℕ
  pub stop_at_end : Bool

-- The variables of the loop. `lineNo` and `totalLines` are the same number.
pub record ReadState : Type 0 where
  pub content : List ℕ
  pub selected_lines : ℕ
  pub actual_end_line : ℕ
  pub truncated : Bool

pub record LinesRead : Type 0 where
  pub content : List ℕ
  pub actual_end_line : ℕ
  pub total_lines : ℕ
  pub truncated : Bool
  pub total_known : Bool

-- What one line does to the loop.
pub data LineOutcome : Type 0 where
  too_long stops : LineOutcome
  keeps : ReadState → LineOutcome

abbrev pub is_selected : ReadSpec → ℕ → ReadState → Bool
is_selected p k st =
    leb p.start_line k && (nat_eq p.requested_end 0 || leb k p.requested_end) && not st.truncated

abbrev pub exceeds : ReadSpec → ℕ → Bool
exceeds p n = ltb 0 p.max_bytes && ltb p.max_bytes n

abbrev pub append_line : ℕ → List ℕ → ReadState → ReadState
append_line k line st = record st {
  content = if ltb 0 st.selected_lines then st.content ++ (10 ∷ line) else st.content ++ line;
  selected_lines = st.selected_lines + 1;
  actual_end_line = k;
}

abbrev pub separator_bytes : ReadState → ℕ
separator_bytes st = if ltb 0 st.selected_lines then 1 else 0

-- A line that is selected.
abbrev pub select_line : ReadSpec → ℕ → List ℕ → ReadState → LineOutcome
select_line p k line st =
    if exceeds p (length line)
    then if nat_eq st.selected_lines 0
      then too_long
      else if p.stop_at_end
      then stops
      else keeps (record st { truncated = true })
    else if exceeds p (length st.content + separator_bytes st + length line)
    then if nat_eq st.selected_lines 0 then too_long else keeps (record st { truncated = true })
    else keeps (append_line k line st)

unfoldable pub take_line : ReadSpec → ℕ → List ℕ → ReadState → LineOutcome
take_line p k line st = if is_selected p k st then select_line p k line st else keeps st

-- Whether the loop stops before line `k`.
abbrev pub is_done : ReadSpec → ℕ → ReadState → Bool
is_done p k st = p.stop_at_end && (ltb 0 p.requested_end && ltb p.requested_end k || st.truncated)

abbrev pub lines_read : ReadState → ℕ → Bool → LinesRead
lines_read st total known = record {
  content = st.content;
  actual_end_line = st.actual_end_line;
  total_lines = total;
  truncated = st.truncated;
  total_known = known;
}

abbrev pub cut_off : ReadState → LinesRead
cut_off st = record {
  content = st.content;
  actual_end_line = st.actual_end_line;
  total_lines = 0;
  truncated = true;
  total_known = false;
}

-- The end of a line that others follow.
abbrev pub go_on :
    ReadSpec → ReadState → ℕ → (ReadState → Option LinesRead) → LineOutcome → Option LinesRead
go_on p st k later too_long = none
go_on p st k later stops = some (cut_off st)
go_on p st k later (keeps st') =
    if is_done p (k + 1) st' then some (lines_read st' (k + 1) false) else later st'

-- The end of the last line.
abbrev pub end_of_file : ReadState → ℕ → LineOutcome → Option LinesRead
end_of_file st k too_long = none
end_of_file st k stops = some (cut_off st)
end_of_file st k (keeps st') = some (lines_read st' k true)

-- The loop, at line `k` and with the lines behind it. No result is ErrLineTooLong.
unfoldable pub read_from : ReadSpec → ReadState → ℕ → List ℕ → List (List ℕ) → Option LinesRead
read_from p st k line [] = end_of_file st k (take_line p k line st)
read_from p st k line (next ∷ rest) =
    go_on p st k (λ st'. read_from p st' (k + 1) next rest) (take_line p k line st)

unfoldable pub read_bounded_lines : ReadSpec → List ℕ → List (List ℕ) → Option LinesRead
unfolding read_from
read_bounded_lines p line rest =
    read_from p
      (record {
        content = [];
        selected_lines = 0;
        actual_end_line = p.start_line - 1;
        truncated = false;
      })
      1 line rest

abbrev pub range_of : String → ℕ → LinesRead → FileRange
range_of path start_line r = record {
  path = path;
  start_line = start_line;
  end_line = r.actual_end_line;
  total_lines = if r.total_known then r.total_lines else 0;
  content = r.content;
  truncated = r.truncated;
}

abbrev pub first_line : ℕ → ℕ
first_line start_line = if nat_eq start_line 0 then 1 else start_line

-- readFileRangeAt behind the opening of the file, whose cleaned path is given.
unfoldable pub read_file_range :
    Bool → String → List ℕ → List (List ℕ) → ℕ → ℕ → ℕ → Option FileRange
unfolding read_bounded_lines
read_file_range stop_at_end path line rest start_line end_line max_bytes =
    if ltb 0 end_line && ltb end_line (first_line start_line)
    then none
    else elim (read_bounded_lines
        (record {
          start_line = first_line start_line;
          requested_end = end_line;
          max_bytes = max_bytes;
          stop_at_end = stop_at_end;
        })
        line rest) [
          | none ↦ none
          | some r ↦
              if r.total_known && ltb r.total_lines (first_line start_line)
              then none
              else some (range_of path (first_line start_line) r)
        ]
