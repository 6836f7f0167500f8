-- ===== src/Tracker/Steps.antt =====
-- The tracker among the goroutines that use it: handlers between Enter and Leave, and callers of Wait.
use onlybackup.Prelude.{ℕ, ◌+◌, ◌≡◌, true, false, some, List, [], ◌∷◌, ◌++◌}
use onlybackup.Tracker.{Tracker, new_tracker, is_closed, enter, leave, stop, start_wait}

-- `running` handlers are between Enter and Leave, `waiting` has the channels that callers of Wait receive
-- from, and `returned` counts the calls of Wait that have returned.
pub record System : Type 0 where
  pub tracker : Tracker
  pub running : ℕ
  pub waiting : List ℕ
  pub returned : ℕ

abbrev pub initial : System
initial = record { tracker = new_tracker; running = 0; waiting = []; returned = 0 }

pub data Step : System → System → Type 0 where
  entered :
      {s : System} {t : Tracker}
      → enter s.tracker ≡ (true, t)
      → Step s (record s { tracker = t; running = s.running + 1 })
  refused :
      {s : System} {t : Tracker} → enter s.tracker ≡ (false, t) → Step s (record s { tracker = t })
  left :
      {s : System} {t : Tracker} {n : ℕ}
      → s.running ≡ n + 1
      → leave s.tracker ≡ some t
      → Step s (record s { tracker = t; running = n })
  stopped : {s : System} → Step s (record s { tracker = stop s.tracker })
  wait_started :
      {s : System} {t : Tracker} {c : ℕ}
      → start_wait s.tracker ≡ (c, t)
      → Step s (record s { tracker = t; waiting = c ∷ s.waiting })
  wait_returned :
      {s : System} (c : ℕ) (before after : List ℕ)
      → s.waiting ≡ before ++ c ∷ after
      → is_closed c s.tracker ≡ true
      → Step s (record s { waiting = before ++ after; returned = s.returned + 1 })

pub data Reach : System → System → Type 0 where
  here : {s : System} → Reach s s
  then_step : {a b c : System} → Reach a b → Step b c → Reach a c
