-- ===== src/Diagnosis/State.antt =====
-- internal/diagnosis/state.go: the transitions of a diagnosis run and of its attempts.
use repolens.Base.{String, Option, ◌+◌, ℕ, suc, ◌≤◌, ◌≡◌, ◌↔◌, Bool, true, false, arith}
use repolens.Jobs.Db.{
  DiagnosisRun, DiagnosisAttempt, RunStatus, AttemptStatus, attempt_running, attempt_succeeded,
  failed_retryable, failed_terminal, attempt_cancelled, abandoned,
}
use repolens.Jobs.Business.{is_open_run, cancel_run_row, fail_run_row}
use repolens.Jobs.Reap.{is_open_attempt, fail_unknown_attempt}

unfoldable pub is_valid_run_transition : RunStatus → RunStatus → Bool
is_valid_run_transition RunStatus.queued RunStatus.running = true
is_valid_run_transition RunStatus.queued RunStatus.cancelled = true
is_valid_run_transition RunStatus.running RunStatus.succeeded = true
is_valid_run_transition RunStatus.running RunStatus.failed = true
is_valid_run_transition RunStatus.running RunStatus.cancelled = true
is_valid_run_transition _ _ = false

unfoldable pub is_valid_attempt_transition : AttemptStatus → AttemptStatus → Bool
is_valid_attempt_transition attempt_running attempt_succeeded = true
is_valid_attempt_transition attempt_running failed_retryable = true
is_valid_attempt_transition attempt_running failed_terminal = true
is_valid_attempt_transition attempt_running attempt_cancelled = true
is_valid_attempt_transition attempt_running abandoned = true
is_valid_attempt_transition _ _ = false

-- A history of a run, as the steps that the table allows.
pub data RunPath : RunStatus → RunStatus → ℕ → Type 0 where
  here : {s : RunStatus} → RunPath s s 0
  step :
      {s t u : RunStatus} {n : ℕ}
      → is_valid_run_transition s t ≡ true
      → RunPath t u n
      → RunPath s u (suc n)

abbrev pub remaining : RunStatus → ℕ
remaining RunStatus.queued = 2
remaining RunStatus.running = 1
remaining _ = 0

abbrev pub is_final_run : RunStatus → Bool
is_final_run s = elim s [ RunStatus.queued ↦ false | RunStatus.running ↦ false | _ ↦ true ]

spends : (s t : RunStatus) → is_valid_run_transition s t ≡ true → suc (remaining t) ≤ remaining s
unfolding is_valid_run_transition
spends s t h = ground arith

path_is_bounded : (s t : RunStatus) (n : ℕ) → RunPath s t n → n + remaining t ≤ remaining s
path_is_bounded s t n here = omega arith
path_is_bounded s t n (step {t = u} h p) = omega (arith, spends s u h, path_is_bounded u t _ p)

-- Each step of the table uses up at least one of the steps that are left, at most two for a run that
-- waits: no run is in a state twice, and after n steps from `s` to `t` at most those of `s` less n
-- are left.
RunPath-bound :
    (s t : RunStatus) (n : ℕ) → RunPath s t n → (n + remaining t ≤ remaining s) × (remaining s ≤ 2)
RunPath-bound s t n p = (path_is_bounded s t n p, ground arith)

-- A status is final exactly if the table has no step from it.
final_run_iff :
    (s : RunStatus)
    → (is_final_run s ≡ true) ↔ ((t : RunStatus) → is_valid_run_transition s t ≡ false)
unfolding is_valid_run_transition
final_run_iff s =
    (λ h t. ground arith, λ h. ground (arith, h RunStatus.running, h RunStatus.failed))

-- What the job store writes to an open run or attempt against the tables: a cancellation is always a
-- step of the run's table, a terminal failure exactly if the run was RUNNING and not QUEUED, and the
-- failure of an attempt with an unknown outcome exactly if the attempt was RUNNING and not ABANDONED.
pub store_writes_against_tables :
    (r : DiagnosisRun) (a : DiagnosisAttempt) (latest : Option String) (message : String) (now : ℕ)
    → is_open_run r.status ≡ true
    → is_open_attempt a.status ≡ true
    → (is_valid_run_transition r.status (cancel_run_row latest r).status ≡ true)
      × ((is_valid_run_transition r.status (fail_run_row r).status ≡ true)
          ↔ (r.status ≡ RunStatus.running))
      × ((is_valid_attempt_transition a.status (fail_unknown_attempt message now a).status ≡ true)
          ↔ (a.status ≡ attempt_running))
unfolding is_valid_run_transition is_valid_attempt_transition
store_writes_against_tables r a latest message now h k =
    (ground arith, (λ e. ground arith, λ e. ground arith), (λ e. ground arith, λ e. ground arith))
