-- ===== src/LiveView.antt =====
-- The sessions of src/services/live_view.py: an action starts or stops the polling of points, and the
-- loop stops it by itself after a while. What a point is, and its reading, are left open. Times are in
-- seconds.
pub mod Safety
mod Tests
use rpinode.Prelude.{
  ℕ, zero, suc, ◌+◌, ◌-◌, Bool, true, false, ◌&&◌, not, Option, none, some, List, [], ◌∷◌, ◌==◌,
  length, ltb, max, if◌then◌else◌,
}

abbrev pub max_session_seconds : ℕ
max_session_seconds = 300

pub record Live {ℓ} (P : Type ℓ) : Type ℓ where
  pub active : Bool
  pub points_to_poll : List P
  pub interval : ℕ
  pub started_at : Option ℕ

-- The payload of an action, of which the points and the interval may be missing.
pub data Payload {ℓ} (P : Type ℓ) : Type ℓ where
  start : Option (List P) → Option ℕ → Payload P
  stop : Payload P
  other_action : Payload P

pub record Reply : Type 0 where
  pub active : Bool
  pub points : ℕ
  pub remaining_seconds : ℕ

abbrev given_interval : Option ℕ → ℕ
given_interval none = 1
given_interval (some n) = max 1 n

-- The time of the start, where the session is active and the time is not 0.
abbrev pub since : Bool → Option ℕ → Option ℕ
since false t = none
since true none = none
since true (some t) = if t == 0 then none else some t

abbrev remaining : ℕ → Option ℕ → ℕ
remaining now none = 0
remaining now (some t) = max_session_seconds + t - now

-- `time.time() - self.started_at > MAX_SESSION_SECONDS`
abbrev pub is_over : ℕ → Option ℕ → Bool
is_over now none = false
is_over now (some t) = ltb (t + max_session_seconds) now

module _ {ℓ} {P : Type ℓ} where
  abbrev given_points : Option (List P) → List P
  given_points none = []
  given_points (some ps) = ps

  unfoldable pub act : ℕ → Payload P → Live P → Live P
  act now (start points interval) l = record {
    active = true;
    points_to_poll = given_points points;
    interval = given_interval interval;
    started_at = some now;
  }
  act now stop l = record l { active = false; points_to_poll = []; started_at = none }
  act now other_action l = l

  unfoldable pub handle_action : ℕ → Payload P → Live P → Live P × Reply
  handle_action now p l =
      let l' = act now p l in
      (
        l',
        record {
          active = l'.active;
          points = length l'.points_to_poll;
          remaining_seconds = remaining now (since l'.active l'.started_at);
        },
      )

  -- The start of a turn of the loop: the automatic stop.
  unfoldable pub auto_stop : ℕ → Live P → Live P
  auto_stop now l =
      if is_over now (since l.active l.started_at)
      then record l { active = false; points_to_poll = []; started_at = none }
      else l

  abbrev pub no_points : List P → Bool
  no_points [] = true
  no_points (p ∷ ps) = false

  -- Whether a turn goes on to poll.
  unfoldable pub polls : ℕ → Live P → Bool
  polls now l = let l' = auto_stop now l in l'.active && not (no_points l'.points_to_poll)

  -- `__init__`
  abbrev pub idle : Live P
  idle = record { active = false; points_to_poll = []; interval = 1; started_at = none }

-- An action or a turn of the loop, with its time.
pub data Event {ℓ} (P : Type ℓ) : Type ℓ where
  action : ℕ → Payload P → Event P
  turn : ℕ → Event P

module _ {ℓ} {P : Type ℓ} where
  unfoldable pub step : Event P → Live P → Live P
  step (action now p) l = (handle_action now p l).0
  step (turn now) l = auto_stop now l

  unfoldable pub run : List (Event P) → Live P → Live P
  run [] l = l
  run (e ∷ events) l = run events (step e l)
