-- ===== src/Tests/Running.antt =====
-- Runs of the tracker: a handler enters, a caller waits, the handler leaves, and the caller goes on.
use onlybackup.Prelude.{◌<◌, ◌≡◌, refl, true, false, some, [], ◌∷◌, All, any, arith}
use onlybackup.Tracker.{Tracker, new_tracker, is_closed, enter, leave, start_wait}
use onlybackup.Tracker.Steps.{
  System, initial, Reach, here, then_step, entered, left, wait_started, wait_returned,
}
use onlybackup.Tracker.Safety.{Wait-IsDrained, leave-IsLive}

abbrev waited : Tracker
waited = record { active = 1; stopping = true; drained = 1; made = 2; closed = 0 ∷ [] }

abbrev waiting : System
waiting = record { tracker = waited; running = 1; waiting = 1 ∷ []; returned = 0 }

abbrev drained : System
drained = record {
  tracker = record waited { active = 0; closed = 1 ∷ 0 ∷ [] };
  running = 0;
  waiting = [];
  returned = 1;
}

waiting-Reach : Reach initial waiting
unfolding enter start_wait new_tracker
waiting-Reach = then_step (then_step here (entered refl)) (wait_started refl)

drained-Reach : Reach initial drained
unfolding leave is_closed any
drained-Reach =
    then_step (then_step waiting-Reach (left {n = 0} refl refl)) (wait_returned 1 [] [] refl refl)

Wait-IsDrained_example :
    (drained.running ≡ 0) × (drained.tracker.active ≡ 0) × ((enter drained.tracker).0 ≡ false)
Wait-IsDrained_example = Wait-IsDrained drained drained-Reach (omega arith)

leave-IsLive_example :
    (0 < waiting.running → (t : Tracker) × (leave waiting.tracker ≡ some t))
    × (waiting.running ≡ 0 → All (λ c. is_closed c waiting.tracker ≡ true) waiting.waiting)
leave-IsLive_example = leave-IsLive waiting waiting-Reach
