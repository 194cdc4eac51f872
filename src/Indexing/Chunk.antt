-- ===== src/Indexing/Chunk.antt =====
-- internal/indexing/chunk.go: the line windows of a file. Ids, hashes, the language and the symbol of
-- a chunk are left out: they do not influence where it begins and ends.
pub mod Coverage
use repolens.Base.{
  ℕ, zero, suc, ◌+◌, ◌-◌, Bool, ◌||◌, Option, none, some, List, [], ◌∷◌, ltb, leb, nat_eq, nat_key,
  length, take, drop, if◌then◌else◌,
}

pub record CodeChunker : Type 0 where
  pub target_chunk_lines : ℕ
  pub overlap_lines : ℕ

-- A target of 0 stands for one that is not positive, an overlap of `none` for a negative one.
unfoldable pub new_code_chunker : ℕ → Option ℕ → CodeChunker
new_code_chunker target_lines overlap =
    let target = (if nat_eq target_lines 0 then 60 else target_lines) in
    record {
      target_chunk_lines = target;
      overlap_lines = elim overlap [ none ↦ 10 | some o ↦ if leb target o then 10 else o ];
    }

-- `start_line` and `end_line` count from 1 and include both ends. `content` are the lines that the
-- source joins again.
pub record CodeChunk (A : Type 0) : Type 0 where
  pub start_line : ℕ
  pub end_line : ℕ
  pub content : List A

-- What becomes of ChunkFile: it returns, it panics at a slice with a negative bound, or it still loops
-- after the rounds that were looked at.
pub data Chunking (A : Type 0) : Type 0 where
  chunks : List (CodeChunk A) → Chunking A
  panics : Chunking A
  still_loops : Chunking A

abbrev pub prepend : {A : Type 0} → CodeChunk A → Chunking A → Chunking A
prepend c (chunks cs) = chunks (c ∷ cs)
prepend c panics = panics
prepend c still_loops = still_loops

abbrev pub chunk_at : {A : Type 0} → ℕ → ℕ → List A → CodeChunk A
chunk_at start end lines = record {
  start_line = start + 1;
  end_line = end;
  content = take (end - start) (drop start lines);
}

-- The loop from `start` on, for at most `rounds` rounds. The next start is
-- start + (target - overlap), which is negative where start + target < overlap.
unfoldable pub chunk_from : {A : Type 0} → ℕ → CodeChunker → ℕ → List A → Chunking A
chunk_from zero c start lines = still_loops
chunk_from (suc rounds) c start lines =
    let total = length lines in
    let reach = start + c.target_chunk_lines in
    let end = (if ltb total reach then total else reach) in
    let rest = chunk_from rounds c (reach - c.overlap_lines) lines in
    if leb total start
    then chunks []
    else if nat_eq end total
    then chunks (chunk_at start end lines ∷ [])
    else prepend (chunk_at start end lines) (if ltb reach c.overlap_lines then panics else rest)

-- ChunkFile on the lines of a file, for at most `rounds` rounds of its loop.
unfoldable pub chunk_file : {A : Type 0} → ℕ → CodeChunker → List A → Chunking A
unfolding chunk_from
chunk_file rounds c lines =
    if leb (length lines) c.target_chunk_lines
    then chunks (record { start_line = 1; end_line = length lines; content = lines } ∷ [])
    else chunk_from rounds c 0 lines
