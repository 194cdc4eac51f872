-- ===== src/Agent/Guard/Budget.antt =====
-- What a run of accepted tool calls cannot exceed (internal/agent/guard.go).
use repolens.Base.{
  ℕ, suc, max, ◌-◌, ◌+◌, ◌≤◌, String, ◌≡◌, refl, Option, none, some, List, [], ◌∷◌, arith, text_key,
  ◌==◌, if◌then◌else◌, length,
}
use repolens.Agent.Guard.{
  GuardError, GuardConfig, AgentGuard, new_agent_guard, bump, record_tool_call,
}

-- The guard after the calls with these hashes, if it accepted all of them.
unfoldable pub accept_calls : List String → AgentGuard → Option AgentGuard
accept_calls [] g = some g
accept_calls (h ∷ hs) g =
    let rest = accept_calls hs (record_tool_call h g).0 in
    elim (record_tool_call h g).1 [ none ↦ rest | some _ ↦ none ]

-- How often a hash occurs.
abbrev pub occurrences : String → List String → ℕ
occurrences k [] = 0
occurrences k (h ∷ hs) = if h == k then suc (occurrences k hs) else occurrences k hs

-- The most repeats in a row, after a call `k` that was repeated `n` times.
abbrev pub most_repeats : String → ℕ → List String → ℕ
most_repeats k n [] = n
most_repeats k n (h ∷ hs) =
    if h == k then most_repeats h (suc n) hs else max n (most_repeats h 0 hs)

-- What an accepted call did to the guard.
record IsCounted (h : String) (g g' : AgentGuard) : Type 0 where
  cfg : g'.cfg ≡ g.cfg
  calls : g'.tool_call_count ≡ suc g.tool_call_count
  limit : g'.tool_call_count ≤ g.cfg.max_tool_calls
  history : (k : String) → g'.call_history k ≡ bump h g.call_history k
  threshold : g'.call_history h ≤ 3
  last : g'.last_call_hash ≡ h
  repeats : g'.consecutive_same ≡ (if h == g.last_call_hash then suc g.consecutive_same else 0)
  repeat_limit : g'.consecutive_same ≤ g.cfg.max_repeat_calls - 1

record_tool_call-IsCounted :
    (h : String) (g : AgentGuard)
    → (record_tool_call h g).1 ≡ none
    → IsCounted h g (record_tool_call h g).0
unfolding record_tool_call
record_tool_call-IsCounted h g e = record {
  cfg = ground (arith, e);
  calls = ground (arith, e);
  limit = ground (arith, e);
  history = λ k. ground (arith, e);
  threshold = ground (arith, e);
  last = ground (arith, e, text_key.same_iff h g.last_call_hash);
  repeats = ground (arith, e);
  repeat_limit = ground (arith, e);
}

-- What a run of accepted calls did to the guard.
record AreCounted (hs : List String) (g g' : AgentGuard) : Type 0 where
  calls : g'.tool_call_count ≡ g.tool_call_count + length hs
  limit : g'.tool_call_count ≤ max g.tool_call_count g.cfg.max_tool_calls
  history : (k : String) → g'.call_history k ≡ g.call_history k + occurrences k hs
  threshold : (k : String) → g'.call_history k ≤ max 3 (g.call_history k)
  repeat_limit :
      most_repeats g.last_call_hash g.consecutive_same hs
      ≤ max g.consecutive_same (g.cfg.max_repeat_calls - 1)

accepted_step :
    (o : Option GuardError) (r : Option AgentGuard) (g : AgentGuard)
    → (elim o as (λ _. Option AgentGuard) [ none ↦ r | some _ ↦ none ]) ≡ some g
    → (o ≡ none) × (r ≡ some g)
accepted_step none r g e = (refl, e)
accepted_step (some f) r g e = ground arith

join_counted :
    (h : String) (hs : List String) (g g1 g' : AgentGuard)
    → IsCounted h g g1
    → AreCounted hs g1 g'
    → AreCounted (h ∷ hs) g g'
join_counted h hs g g1 g' p q = record {
  calls = omega (arith, p.calls, q.calls);
  limit = ground (arith, p.calls, p.limit, p.cfg, q.limit);
  history = λ k. ground (arith, p.history k, q.history k);
  threshold = λ k. ground (arith, p.history k, p.threshold, q.threshold k, text_key.same_iff h k);
  repeat_limit = ground (arith, p.last, p.repeats, p.repeat_limit, p.cfg, q.repeat_limit);
}

accepted_calls :
    (hs : List String) (g g' : AgentGuard) → accept_calls hs g ≡ some g' → AreCounted hs g g'
unfolding accept_calls
accepted_calls [] g g' e = ground arith
accepted_calls (h ∷ hs) g g' e =
    let (clean, rest) =
      accepted_step (record_tool_call h g).1 (accept_calls hs (record_tool_call h g).0) g' e in
    join_counted h hs g (record_tool_call h g).0 g' (record_tool_call-IsCounted h g clean)
      (accepted_calls hs (record_tool_call h g).0 g' rest)

-- Whatever calls a new guard accepts, they are at most the limit of tool calls, no call (by the hash
-- of its name and arguments) occurs more than three times, and no call is repeated in a row
-- `max_repeat_calls` times or more, a limit of 0 counting as 1.
pub accepted_calls_are_bounded :
    (cfg : GuardConfig) (hs : List String) (g : AgentGuard)
    → accept_calls hs (new_agent_guard cfg) ≡ some g
    → (length hs ≤ cfg.max_tool_calls)
      × ((k : String) → occurrences k hs ≤ 3)
      × (most_repeats "" 0 hs ≤ cfg.max_repeat_calls - 1)
accepted_calls_are_bounded cfg hs g e =
    let c = accepted_calls hs (new_agent_guard cfg) g e in
    (
      omega (arith, c.calls, c.limit),
      (λ k. omega (arith, c.history k, c.threshold k)),
      ground (arith, c.repeat_limit),
    )
