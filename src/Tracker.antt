-- ===== src/Tracker.antt =====
-- The tracker of running work and the orderly stop of a server, internal/lifecycle/lifecycle.go. A channel is
-- its number in the order of making; receiving from it proceeds when it is closed.
pub mod Steps
pub mod Safety
use onlybackup.Prelude.{
  ℕ, zero, suc, ◌+◌, ◌-◌, Bool, true, false, ◌||◌, Option, none, some, List, [], ◌∷◌, ◌++◌, ◌==◌,
  nat_eq, if◌then◌else◌, String, any,
}

pub record Tracker : Type 0 where
  pub active : ℕ
  pub stopping : Bool
  pub drained : ℕ
  pub made : ℕ
  pub closed : List ℕ

-- NewTracker: the first channel is made and closed
unfoldable pub new_tracker : Tracker
new_tracker = record { active = 0; stopping = false; drained = 0; made = 1; closed = 0 ∷ [] }

-- `<-c` proceeds
unfoldable pub is_closed : ℕ → Tracker → Bool
is_closed c t = any (λ d. d == c) t.closed

admit_work : Tracker → Tracker
admit_work t =
    if t.active == 0
    then record t { drained = t.made; made = t.made + 1; active = 1 }
    else record t { active = t.active + 1 }

-- Enter
unfoldable pub enter : Tracker → Bool × Tracker
unfolding admit_work
enter t = if t.stopping then (false, t) else (true, admit_work t)

-- Leave; `none` is a panic, its own or that of close on a channel that is already closed
unfoldable pub leave : Tracker → Option Tracker
unfolding is_closed
leave t =
    if t.active == 0
    then none
    else if t.active == 1
    then (if is_closed t.drained t
        then none
        else some (record t { active = 0; closed = t.drained ∷ t.closed }))
    else some (record t { active = t.active - 1 })

-- Stop
unfoldable pub stop : Tracker → Tracker
stop t = record t { stopping = true }

-- the critical section of Wait: the channel that the caller then receives from
unfoldable pub start_wait : Tracker → ℕ × Tracker
start_wait t = (t.drained, record t { stopping = true })

-- Handler: `next` runs between Enter and Leave, or the request is refused with this status
unfoldable pub handle : Tracker → Option ℕ × Tracker
unfolding enter
handle t = let (admitted, t') = enter t in if admitted then (none, t') else (some 503, t')

-- What the error values of Serve are, as far as it tells them apart.
pub data ServeError : Type 0 where
  server_closed deadline_exceeded : ServeError
  other : String → ServeError
  orderly_stop : ServeError → ServeError

-- normalizeServeError and normalizeCloseError
unfoldable pub normalize_error : Option ServeError → Option ServeError
normalize_error (some server_closed) = none
normalize_error e = e

-- errors.Join, as the list of the errors that are not nil
unfoldable pub join_errors : List (Option ServeError) → List ServeError
join_errors [] = []
join_errors (none ∷ es) = join_errors es
join_errors (some e ∷ es) = e ∷ join_errors es

shutdown_failure : Option ServeError → Option ServeError
shutdown_failure none = none
shutdown_failure (some deadline_exceeded) = none
shutdown_failure (some e) = some (orderly_stop e)

is_some : Option ServeError → Bool
is_some none = false
is_some (some e) = true

close_failure : Option ServeError → Option ServeError → Option ServeError
close_failure none close = none
close_failure (some e) close = close

-- What ends the select of Serve: the server's own end, or the cancellation and what Shutdown then returns.
pub data Ending : Type 0 where
  served : Ending
  cancelled : (shutdown : Option ServeError) → Ending

-- The result of Serve, from what the calls of the server return. In both cases the tracker is stopped, and
-- then waited for, before Serve returns.
unfoldable pub serve_result :
    Ending → Option ServeError → Option ServeError → Bool × List ServeError
unfolding normalize_error join_errors shutdown_failure is_some close_failure
serve_result served serve close =
    (false, join_errors (normalize_error serve ∷ normalize_error close ∷ []))
serve_result (cancelled shutdown) serve close = (
  is_some shutdown,
  join_errors (
      shutdown_failure shutdown
      ∷ normalize_error (close_failure shutdown close)
      ∷ normalize_error serve
      ∷ []),
)
