-- ===== src/LiveView/Tests.antt =====
-- A session that a turn ends.
use rpinode.LiveView.{
  Event, action, turn, start, idle, run, step, act, handle_action, auto_stop, polls,
}
use rpinode.LiveView.Safety.{last_start, run-IsSafe}
use rpinode.Prelude.{ℕ, ◌+◌, ◌≡◌, refl, ◌≤◌, none, some, List, [], ◌∷◌, arith}

abbrev events : List (Event ℕ)
events = action 10 (start (some (7 ∷ [])) none) ∷ turn 100 ∷ turn 310 ∷ []

run-IsSafe_example :
    (n : ℕ) × (last_start events ≡ some n) × (309 ≤ n + 300) × (1 ≤ (run events idle).interval)
unfolding polls run step auto_stop handle_action act
run-IsSafe_example = run-IsSafe events 309 (omega arith, (omega arith, (omega arith, tt))) refl
