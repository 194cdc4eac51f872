-- ===== src/Tests/Parts.antt =====
-- The chunker, the agent's guard and the diagnosis states on small inputs.
use repolens.Base.{
  ℕ, ◌-◌, ◌≤◌, String, ◌≡◌, refl, ◌↔◌, arith, true, none, some, List, [], ◌∷◌, All, length,
  text_key,
}
use repolens.Jobs.Db.{RunStatus, attempt_running}
use repolens.Jobs.Business.{cancel_run_row, fail_run_row}
use repolens.Jobs.Reap.{fail_unknown_attempt}
use repolens.Indexing.Chunk.{
  CodeChunker, CodeChunk, chunks, still_loops, new_code_chunker, chunk_file,
}
use repolens.Indexing.Chunk.Coverage.{rebuild, IsWindow, chunk_file_covers, chunk_file-stuck}
use repolens.Agent.Guard.{AgentGuard, default_guard_config, new_agent_guard, bump, record_tool_call}
use repolens.Agent.Guard.Budget.{
  accept_calls, occurrences, most_repeats, accepted_calls_are_bounded,
}
use repolens.Diagnosis.State.{
  is_valid_run_transition, is_valid_attempt_transition, store_writes_against_tables,
}
use repolens.Tests.Data.{open_run, open_attempt}

abbrev seven_lines : List ℕ
seven_lines = 1 ∷ 2 ∷ 3 ∷ 4 ∷ 5 ∷ 6 ∷ 7 ∷ []

abbrev small_chunker : CodeChunker
small_chunker = record { target_chunk_lines = 5; overlap_lines = 2 }

chunk_file_covers_example :
    (cs : List (CodeChunk ℕ)) × (chunk_file 7 small_chunker seven_lines ≡ chunks cs)
    × (rebuild 2 cs ≡ seven_lines)
    × All (IsWindow 5 seven_lines) cs
chunk_file_covers_example =
    chunk_file_covers small_chunker (omega arith) seven_lines 7 (omega arith) (omega arith)

abbrev eleven_lines : List ℕ
eleven_lines = 8 ∷ 9 ∷ 10 ∷ 11 ∷ seven_lines

chunk_file-stuck_example :
    chunk_file 1000 (new_code_chunker 10 (some 10)) eleven_lines ≡ still_loops
chunk_file-stuck_example = chunk_file-stuck 1000 eleven_lines (omega arith)

abbrev three_calls : List String
three_calls = "a" ∷ "a" ∷ "b" ∷ []

-- The default guard after these calls.
abbrev busy_guard : AgentGuard
busy_guard = record (new_agent_guard default_guard_config) {
  tool_call_count = 3;
  call_history = λ k. bump "b" (bump "a" (bump "a" (λ h. 0))) k;
  last_call_hash = "b";
}

accepted_calls_are_bounded_example :
    (length three_calls ≤ 12)
    × ((k : String) → occurrences k three_calls ≤ 3)
    × (most_repeats "" 0 three_calls ≤ 2 - 1)
unfolding accept_calls record_tool_call
accepted_calls_are_bounded_example =
    accepted_calls_are_bounded default_guard_config three_calls busy_guard refl

store_writes_against_tables_example :
    (is_valid_run_transition open_run.status (cancel_run_row none open_run).status ≡ true)
    × ((is_valid_run_transition open_run.status (fail_run_row open_run).status ≡ true)
        ↔ (open_run.status ≡ RunStatus.running))
    × ((is_valid_attempt_transition open_attempt.status
            (fail_unknown_attempt "lost" 9 open_attempt).status
          ≡ true)
        ↔ (open_attempt.status ≡ attempt_running))
store_writes_against_tables_example =
    store_writes_against_tables open_run open_attempt none "lost" 9 refl refl

abbrev five : ℕ
five = 5
