-- ===== src/Indexing/Chunk/Coverage.antt =====
-- Which chunkers return, and that the chunks of a file put together are the file
-- (internal/indexing/chunk.go).
use repolens.Base.{
  append-nil, take-nil, take-all, drop-drop, ℕ, zero, suc, ◌+◌, ◌-◌, ◌≤◌, ◌<◌, ◌≡◌, ◌↔◌, ◌⊎◌, refl,
  sym, ap, ◌∙◌, false, Option, none, some, List, [], ◌∷◌, ◌++◌, arith, ltb, nat_key, length, take,
  drop, length-drop, take-append-drop, All,
}
use native.Mathlib.Decide.{dec_lt}
use repolens.Indexing.Chunk.{
  CodeChunker, new_code_chunker, CodeChunk, Chunking, chunks, still_loops, prepend, chunk_at,
  chunk_from, chunk_file,
}

module _ {A : Type 0} where
  drop-take : (a n : ℕ) (xs : List A) → drop a (take n xs) ≡ take (n - a) (drop a xs)
  drop-take zero n xs = let e : n ≡ n - 0 = omega arith in ap (λ (m : ℕ). take m xs) e
  drop-take (suc a) zero xs = let e : 0 - suc a ≡ 0 = omega arith in rw e refl
  drop-take (suc a) (suc n) [] = sym (take-nil (suc n - suc a))
  drop-take (suc a) (suc n) (x ∷ xs) =
      let e : suc n - suc a ≡ n - a = omega arith in rw e (drop-take a n xs)

  -- A window and what follows it, from the overlap on.
  window :
      (start target overlap : ℕ) (xs : List A)
      → overlap ≤ target
      → drop overlap (take target (drop start xs)) ++ drop (start + target) xs
        ≡ drop (start + overlap) xs
  window start target overlap xs h =
      let e : start + target ≡ start + overlap + (target - overlap) = omega arith in
      rw
        (
          drop-take overlap target (drop start xs),
          drop-drop overlap start xs,
          e,
          ← drop-drop (target - overlap) (start + overlap) xs,
        )
        (take-append-drop (target - overlap) (drop (start + overlap) xs))

  last_window :
      (start total overlap : ℕ) (xs : List A)
      → length xs ≡ total
      → drop overlap (take (total - start) (drop start xs)) ++ [] ≡ drop (start + overlap) xs
  last_window start total overlap xs h =
      let short : length (drop start xs) ≤ total - start = omega (arith, length-drop start xs) in
      rw (take-all (total - start) (drop start xs) short, drop-drop overlap start xs)
        (append-nil (drop (start + overlap) xs))

  -- The lines of the chunks, less the overlap of each.
  abbrev pub later_lines : ℕ → List (CodeChunk A) → List A
  later_lines overlap [] = []
  later_lines overlap (c ∷ cs) = drop overlap c.content ++ later_lines overlap cs

  -- The first chunk, and of each later one what its overlap with the chunk before does not hold.
  abbrev pub rebuild : ℕ → List (CodeChunk A) → List A
  rebuild overlap [] = []
  rebuild overlap (c ∷ cs) = c.content ++ later_lines overlap cs

  -- A chunk holds the lines that its numbers say, at least one and at most the target.
  abbrev pub IsWindow : ℕ → List A → CodeChunk A → Type 0
  IsWindow target lines c =
      (1 ≤ c.start_line)
      × (c.start_line ≤ c.end_line)
      × (c.end_line ≤ length lines)
      × (c.end_line < c.start_line + target)
      × (c.content ≡ take (c.end_line - (c.start_line - 1)) (drop (c.start_line - 1) lines))

module _ {A : Type 0} (c : CodeChunker) (progress : c.overlap_lines < c.target_chunk_lines)
    (lines : List A) where
  -- What the loop returns from a start on that still has lines behind the overlap.
  AreWindows : ℕ → Chunking A → Type 0
  AreWindows start r =
      (cs : List (CodeChunk A)) × (r ≡ chunks cs)
      × (later_lines c.overlap_lines cs ≡ drop (start + c.overlap_lines) lines)
      × All (IsWindow c.target_chunk_lines lines) cs

  last_round :
      (start : ℕ)
      → start < length lines
      → length lines ≤ start + c.target_chunk_lines
      → AreWindows start (chunks (chunk_at start (length lines) lines ∷ []))
  unfolding AreWindows
  last_round start inside last =
      let e : start + 1 - 1 ≡ start = omega arith in
      (
        chunk_at start (length lines) lines ∷ [],
        refl,
        last_window start (length lines) c.overlap_lines lines refl,
        ((omega arith, omega arith, omega arith, omega arith, rw e refl), tt),
      )

  next_round :
      (start : ℕ) (r : Chunking A)
      → start + c.target_chunk_lines < length lines
      → AreWindows (start + c.target_chunk_lines - c.overlap_lines) r
      → AreWindows start (prepend (chunk_at start (start + c.target_chunk_lines) lines) r)
  unfolding AreWindows
  next_round start r inside w =
      let (cs, returned, rebuilt, windows) = w in
      let e : start + 1 - 1 ≡ start = omega arith in
      let n : start + c.target_chunk_lines - start ≡ c.target_chunk_lines = omega arith in
      let m : start + c.target_chunk_lines - c.overlap_lines + c.overlap_lines
          ≡ start + c.target_chunk_lines =
        omega arith in
      (
        chunk_at start (start + c.target_chunk_lines) lines ∷ cs,
        rw returned refl,
        rw (rebuilt, n, m) (window start c.target_chunk_lines c.overlap_lines lines (omega arith)),
        ((omega arith, omega arith, omega arith, omega arith, rw e refl), windows),
      )

  last_round-eq :
      (rounds start : ℕ)
      → start < length lines
      → length lines ≤ start + c.target_chunk_lines
      → chunk_from (suc rounds) c start lines ≡ chunks (chunk_at start (length lines) lines ∷ [])
  unfolding chunk_from
  last_round-eq rounds start inside last = ground arith

  next_round-eq :
      (rounds start : ℕ)
      → start + c.target_chunk_lines < length lines
      → chunk_from (suc rounds) c start lines
        ≡ prepend
            (chunk_at start (start + c.target_chunk_lines) lines)
            (chunk_from rounds c (start + c.target_chunk_lines - c.overlap_lines) lines)
  unfolding chunk_from
  next_round-eq rounds start inside =
      let ahead : ltb (start + c.target_chunk_lines) c.overlap_lines ≡ false = ground arith in
      ground arith

  -- One round for each line that is left is enough.
  loop_windows :
      (rounds start : ℕ)
      → start + c.overlap_lines < length lines
      → length lines ≤ start + rounds
      → AreWindows start (chunk_from rounds c start lines)
  loop_windows zero start inside enough = absurd (omega arith)
  loop_windows (suc rounds) start inside enough =
      elim (dec_lt (start + c.target_chunk_lines) (length lines)) [
        | yes within ↦ rw (next_round-eq rounds start within) (
            next_round start _ within (
              loop_windows rounds (start + c.target_chunk_lines - c.overlap_lines) (omega arith)
                (omega arith)))
        | no over ↦
            rw (last_round-eq rounds start (omega arith) (omega arith))
              (last_round start (omega arith) (omega arith))
      ]

  -- The whole loop, from the first line on.
  first_windows :
      (rounds : ℕ)
      → c.target_chunk_lines < length lines
      → length lines ≤ rounds
      → (cs : List (CodeChunk A)) × (chunk_from rounds c 0 lines ≡ chunks cs)
        × (rebuild c.overlap_lines cs ≡ lines)
        × All (IsWindow c.target_chunk_lines lines) cs
  unfolding AreWindows
  first_windows zero long enough = absurd (omega arith)
  first_windows (suc rounds) long enough =
      let reach = 0 + c.target_chunk_lines in
      let whole : reach - 0 ≡ c.target_chunk_lines = omega arith in
      let back : reach - c.overlap_lines + c.overlap_lines ≡ c.target_chunk_lines = omega arith in
      let (cs, returned, rebuilt, windows) =
        loop_windows rounds (reach - c.overlap_lines) (omega arith) (omega arith) in
      (
        chunk_at 0 reach lines ∷ cs,
        next_round-eq rounds 0 (omega arith) ∙ rw returned refl,
        rw (rebuilt, back, whole) (take-append-drop c.target_chunk_lines lines),
        ((omega arith, omega arith, omega arith, omega arith, refl), windows),
      )

  -- A chunker whose overlap is below its target returns, for a file of at least one line, after at
  -- most one round of the loop per line. Its chunks are windows of the file, numbered from 1, of at
  -- least one line and at most the target; and the first chunk, with what each later one has behind
  -- its overlap, is the file: no line is lost, repeated or moved.
  pub chunk_file_covers :
      (rounds : ℕ)
      → 0 < length lines
      → length lines ≤ rounds
      → (cs : List (CodeChunk A)) × (chunk_file rounds c lines ≡ chunks cs)
        × (rebuild c.overlap_lines cs ≡ lines)
        × All (IsWindow c.target_chunk_lines lines) cs
  unfolding chunk_file AreWindows
  chunk_file_covers rounds some_line enough = elim (dec_lt c.target_chunk_lines (length lines)) [
    | yes long ↦
        let (cs, returned, rebuilt, windows) = first_windows rounds long enough in
        (cs, rw returned (ground arith), rebuilt, windows)
    | no short ↦ (
      record { start_line = 1; end_line = length lines; content = lines } ∷ [],
      ground arith,
      append-nil lines,
      (
        (
          omega arith,
          omega arith,
          omega arith,
          omega arith,
          sym (take-all (length lines - 0) lines (omega arith)),
        ),
        tt,
      ),
    )
  ]

-- An overlap that is not negative and below the target.
abbrev pub FitsIn : Option ℕ → ℕ → Type 0
FitsIn none target = ⊥
FitsIn (some o) target = o < target

-- Which chunkers are built with an overlap below their target: all but those with a target from 1 to
-- 10 whose overlap is negative or not below the target, for which the replacement overlap of 10 is
-- not below the target either.
new_chunker-progress_iff :
    (target : ℕ) (overlap : Option ℕ)
    → ((new_code_chunker target overlap).overlap_lines
        < (new_code_chunker target overlap).target_chunk_lines)
      ↔ ((target ≡ 0) ⊎ ((10 < target) ⊎ FitsIn overlap target))
unfolding new_code_chunker
new_chunker-progress_iff target none = (λ h. ground arith, λ h. ground arith)
new_chunker-progress_iff target (some o) = (λ h. ground arith, λ h. ground arith)

module _ {A : Type 0} where
  stuck_loop :
      (rounds : ℕ) (lines : List A)
      → 10 < length lines
      → chunk_from rounds (new_code_chunker 10 (some 10)) 0 lines ≡ still_loops
  unfolding chunk_from new_code_chunker
  stuck_loop zero lines long = refl
  stuck_loop (suc rounds) lines long = ground (arith, stuck_loop rounds lines long)

  -- A chunker for a target of 10 with an overlap of 10 never returns on a file of more than 10 lines:
  -- its loop starts again at the first line, however many rounds it runs.
  pub chunk_file-stuck :
      (rounds : ℕ) (lines : List A)
      → 10 < length lines
      → chunk_file rounds (new_code_chunker 10 (some 10)) lines ≡ still_loops
  unfolding chunk_file new_code_chunker
  chunk_file-stuck rounds lines long = ground (arith, stuck_loop rounds lines long)
