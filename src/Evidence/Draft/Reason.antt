-- ===== src/Evidence/Draft/Reason.antt =====
-- The reason of a citation is cut to fit its column (limitCitationReason).
use repolens.Base.{ℕ, zero, suc, Option, none, some, List, [], ◌∷◌}
use repolens.Evidence.Draft.{utf8_step, Utf8State}

-- The bytes that are due behind the first `n`; 9 stands for a text that is not well formed.
due_at : Option Utf8State → List ℕ → ℕ → ℕ
due_at none t n = 9
due_at (some s) t zero = s.due
due_at (some s) [] (suc n) = 9
due_at (some s) (b ∷ t) (suc n) = due_at (utf8_step s b) t n

abbrev start_state : Utf8State
start_state = record { due = 0; low = 0; high = 0 }
