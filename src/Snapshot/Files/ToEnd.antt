-- ===== src/Snapshot/Files/ToEnd.antt =====
-- The loop of readBoundedLines to the end of the file (without stopAtEnd) against the one that stops
-- behind its range.
use repolens.Base.{
  ℕ, ◌+◌, ◌≡◌, refl, sym, ◌∙◌, arith, Bool, inl, inr, true, false, ◌&&◌, ◌||◌, ◌⊎◌, Option, none,
  some, List, [], ◌∷◌, ltb, if◌then◌else◌,
}
use repolens.Snapshot.Files.{
  ReadSpec, ReadState, LinesRead, read_from, take_line, is_done, keeps, stops, too_long, go_on,
  end_of_file, cut_off, lines_read, LineOutcome,
}
use repolens.Snapshot.Files.Loop.{bounded}

abbrev pub to_end : ℕ → ℕ → ℕ → ReadSpec
to_end s e m = record { start_line = s; requested_end = e; max_bytes = m; stop_at_end = false }

-- The same lines; where both counted the lines of the file, the same number.
abbrev pub SameLines : Option LinesRead → Option LinesRead → Type 0
SameLines none none = Unit
SameLines (some q) (some r) =
    (q.content ≡ r.content)
    × (q.actual_end_line ≡ r.actual_end_line)
    × (q.total_known ≡ true)
    × ((r.total_known ≡ false) ⊎ (q.total_lines ≡ r.total_lines))
SameLines _ _ = ⊥

-- A whole file was read, and nothing was added.
abbrev Stays : ReadState → Option LinesRead → Type 0
Stays st none = ⊥
Stays st (some q) =
    (q.content ≡ st.content) × (q.actual_end_line ≡ st.actual_end_line) × (q.total_known ≡ true)

-- What a line does without a stop and with one: a stop cuts the range off before the line.
abbrev SameTake : ReadState → LineOutcome → LineOutcome → Type 0
SameTake st too_long too_long = Unit
SameTake st (keeps x) stops = x ≡ record st { truncated = true }
SameTake st (keeps x) (keeps y) = x ≡ y
SameTake _ _ _ = ⊥

module _ (s e m : ℕ) where
  idle :
      (st : ReadState) (k : ℕ) (line : List ℕ)
      → (ltb 0 e && ltb e k || st.truncated) ≡ true
      → take_line (to_end s e m) k line st ≡ keeps st
  unfolding take_line
  idle st k line h = ground arith

  -- Behind the range nothing is taken.
  closed :
      (st : ReadState) (k : ℕ) (line : List ℕ) (rest : List (List ℕ))
      → (ltb 0 e && ltb e k || st.truncated) ≡ true
      → Stays st (read_from (to_end s e m) st k line rest)
  unfolding read_from
  closed st k line [] h = rw (idle st k line h) (refl, refl, refl)
  closed st k line (next ∷ rest) h =
      rw (idle st k line h) (closed st (k + 1) next rest (ground arith))

  take_agrees :
      (st : ReadState) (k : ℕ) (line : List ℕ)
      → SameTake st (take_line (to_end s e m) k line st) (take_line (bounded s e m) k line st)
  unfolding take_line
  take_agrees st k line = ground arith

  last_agrees :
      (st : ReadState) (k : ℕ) (o o' : LineOutcome)
      → SameTake st o o'
      → SameLines (end_of_file st k o) (end_of_file st k o')
  last_agrees st k too_long too_long h = tt
  last_agrees st k too_long stops h = elim h [ ]
  last_agrees st k too_long (keeps x) h = elim h [ ]
  last_agrees st k stops o' h = elim h [ ]
  last_agrees st k (keeps x) too_long h = elim h [ ]
  last_agrees st k (keeps x) stops h = rw h (refl, refl, refl, inl refl)
  last_agrees st k (keeps x) (keeps y) h = rw h (refl, refl, refl, inr refl)

  stayed :
      (st : ReadState) (o : Option LinesRead) (r : LinesRead)
      → Stays st o
      → r.content ≡ st.content
      → r.actual_end_line ≡ st.actual_end_line
      → r.total_known ≡ false
      → SameLines o (some r)
  stayed st none r h same_text same_end unknown = elim h [ ]
  stayed st (some q) r h same_text same_end unknown =
      (h.0 ∙ sym same_text, h.1 ∙ sym same_end, h.2, inl unknown)

  round_agrees :
      (x : ReadState) (k : ℕ) (next : List ℕ) (rest : List (List ℕ)) (b : Bool)
      → is_done (bounded s e m) (k + 1) x ≡ b
      → SameLines
          (read_from (to_end s e m) x (k + 1) next rest)
          (read_from (bounded s e m) x (k + 1) next rest)
      → SameLines (read_from (to_end s e m) x (k + 1) next rest) (
          if b
          then some (lines_read x (k + 1) false)
          else read_from (bounded s e m) x (k + 1) next rest)
  round_agrees x k next rest true over h =
      stayed x _ (lines_read x (k + 1) false) (closed x (k + 1) next rest over) refl refl refl
  round_agrees x k next rest false over h = h

  -- What the loop does behind a line, with and without a stop.
  go_on_agrees :
      (st : ReadState) (k : ℕ) (next : List ℕ) (rest : List (List ℕ)) (o o' : LineOutcome)
      → SameTake st o o'
      → ((x : ReadState)
          → SameLines
              (read_from (to_end s e m) x (k + 1) next rest)
              (read_from (bounded s e m) x (k + 1) next rest))
      → SameLines
          (go_on (to_end s e m) st k (λ x. read_from (to_end s e m) x (k + 1) next rest) o)
          (go_on (bounded s e m) st k (λ x. read_from (bounded s e m) x (k + 1) next rest) o')
  go_on_agrees st k next rest too_long too_long h all = tt
  go_on_agrees st k next rest too_long stops h all = elim h [ ]
  go_on_agrees st k next rest too_long (keeps x) h all = elim h [ ]
  go_on_agrees st k next rest stops o' h all = elim h [ ]
  go_on_agrees st k next rest (keeps x) too_long h all = elim h [ ]
  go_on_agrees st k next rest (keeps x) stops h all =
      let cut = record st { truncated = true } in
      rw h (stayed cut _ (cut_off st) (closed cut (k + 1) next rest (ground arith)) refl refl refl)
  go_on_agrees st k next rest (keeps x) (keeps y) h all =
      rw h (round_agrees y k next rest _ refl (all y))

  pub agrees :
      (st : ReadState) (k : ℕ) (line : List ℕ) (rest : List (List ℕ))
      → SameLines
          (read_from (to_end s e m) st k line rest)
          (read_from (bounded s e m) st k line rest)
  unfolding read_from
  agrees st k line [] = last_agrees st k _ _ (take_agrees st k line)
  agrees st k line (next ∷ rest) =
      go_on_agrees st k next rest _ _ (take_agrees st k line) (λ x. agrees x (k + 1) next rest)
