-- ===== src/Agent/Guard.antt =====
-- internal/agent/guard.go: the budgets of one agent run. A method changes the guard also where it
-- returns an error. Limits are taken as natural numbers: a limit of 0 stands for every limit of the
-- source that is not positive.
pub mod Budget
use repolens.Base.{
  ℕ, suc, ◌*◌, String, Bool, ◌&&◌, Option, none, some, List, ◌++◌, ltb, leb, nat_key, text_key,
  ◌==◌, if◌then◌else◌,
}

pub record GuardConfig : Type 0 where
  pub max_steps : ℕ
  pub max_tool_calls : ℕ
  pub max_search_calls : ℕ
  pub max_repeat_calls : ℕ
  pub max_tool_result_bytes : ℕ
  pub max_output_tokens : ℕ

abbrev pub default_guard_config : GuardConfig
default_guard_config = record {
  max_steps = 8;
  max_tool_calls = 12;
  max_search_calls = 3;
  max_repeat_calls = 2;
  max_tool_result_bytes = 32 * 1024;
  max_output_tokens = 4096;
}

-- `call_history` is the map with its zero value for a missing key.
pub record AgentGuard : Type 0 where
  pub cfg : GuardConfig
  pub step_count : ℕ
  pub tool_call_count : ℕ
  pub search_call_count : ℕ
  pub call_history : String → ℕ
  pub last_call_hash : String
  pub consecutive_same : ℕ

pub data GuardError : Type 0 where
  step_limit_exceeded tool_call_limit_exceeded search_budget_exceeded : GuardError
  repeated_call duplicate_threshold_exceeded : GuardError

abbrev pub new_agent_guard : GuardConfig → AgentGuard
new_agent_guard cfg = record {
  cfg = cfg;
  step_count = 0;
  tool_call_count = 0;
  search_call_count = 0;
  call_history = λ h. 0;
  last_call_hash = "";
  consecutive_same = 0;
}

unfoldable pub record_search_call : AgentGuard → AgentGuard × Option GuardError
record_search_call g =
    let n = suc g.search_call_count in
    (
      record g { search_call_count = n },
      if ltb 0 g.cfg.max_search_calls && ltb g.cfg.max_search_calls n
          then some search_budget_exceeded
          else none,
    )

unfoldable pub record_step : AgentGuard → AgentGuard × Option GuardError
record_step g =
    let n = suc g.step_count in
    (record g { step_count = n }, if ltb g.cfg.max_steps n then some step_limit_exceeded else none)

abbrev pub bump : String → (String → ℕ) → String → ℕ
bump h history k = if h == k then suc (history k) else history k

-- From the history on.
unfoldable pub count_call : String → AgentGuard → AgentGuard × Option GuardError
count_call h g =
    let history = bump h g.call_history in
    (
      record g { call_history = history },
      if ltb 3 (history h) then some duplicate_threshold_exceeded else none,
    )

-- The comparison with the last call.
unfoldable pub compare_call : String → AgentGuard → AgentGuard × Option GuardError
unfolding count_call
compare_call h g =
    let n = suc g.consecutive_same in
    if h == g.last_call_hash
    then (if leb g.cfg.max_repeat_calls n
        then (record g { consecutive_same = n }, some repeated_call)
        else count_call h (record g { consecutive_same = n }))
    else count_call h (record g { consecutive_same = 0; last_call_hash = h })

-- `hash` is the hexadecimal SHA-256 of name + ":" + argsJSON.
unfoldable pub record_tool_call : String → AgentGuard → AgentGuard × Option GuardError
unfolding compare_call
record_tool_call hash g =
    let n = suc g.tool_call_count in
    if ltb g.cfg.max_tool_calls n
    then (record g { tool_call_count = n }, some tool_call_limit_exceeded)
    else compare_call hash (record g { tool_call_count = n })
