-- ===== src/Mstp/Control.antt =====
-- `start_mstp_session` and `stop_mstp_session` of src/services/bacnet_mstp.py: the one session that
-- there is at a time, and the parameters that a request may set.
pub mod Bounds
use mathlib.Core.Option
use rpinode.Prelude.Int.{ℤ, pos, negsuc, clamp}
use rpinode.Prelude.Options.{◌>>=◌}
use rpinode.Text.{Text, strip, text_eq}
use rpinode.Prelude.{
  ℕ, Bool, true, false, ◌&&◌, ◌||◌, Option, none, some, List, [], ◌∷◌, ◌==◌, if◌then◌else◌,
}

-- What `int(params.get(name, default))` meets: no value; one that is not a number (a `ValueError`);
-- one on which `int` raises another exception, which is not caught (`null`, a list, an object or an
-- infinite number); or a number.
pub data Raw : Type 0 where
  absent invalid uncaught : Raw
  number : ℤ → Raw

-- The device is the empty text where there is no value, and `none` where the value is not a text and
-- so has no `strip`.
pub record Request : Type 0 where
  pub device : Option Text
  pub baud : Raw
  pub mac : Raw
  pub max_master : Raw
  pub npoll : Raw
  pub cycle_ms : Raw
  pub sniff_ms : Raw

pub record Params : Type 0 where
  pub device : Text
  pub baud : ℕ
  pub mac : ℕ
  pub max_master : ℕ
  pub npoll : ℕ
  pub cycle_ms : ℕ
  pub sniff_ms : ℕ

abbrev pub default_baud : ℕ
default_baud = 38400

-- `baud in MSTP_BAUDS`
abbrev pub is_mstp_baud : ℕ → Bool
is_mstp_baud b = b == 9600 || b == 19200 || b == 38400 || b == 57600 || b == 76800 || b == 115200

-- The parameters, or `none` where an exception ends the request.
abbrev pub baud_of : Raw → Option ℕ
baud_of absent = some default_baud
baud_of invalid = some default_baud
baud_of uncaught = none
baud_of (number (negsuc n)) = some default_baud
baud_of (number (pos n)) = some (if is_mstp_baud n then n else default_baud)

-- `try: max(lo, min(hi, int(…))) except ValueError: default`
abbrev pub bounded : ℕ → ℕ → ℕ → Raw → Option ℕ
bounded default lo hi absent = some (clamp lo hi (pos default))
bounded default lo hi invalid = some default
bounded default lo hi uncaught = none
bounded default lo hi (number z) = some (clamp lo hi z)

unfoldable pub clean_params : Text → Request → Option Params
clean_params device r = do
  baud ← baud_of r.baud
  mac ← bounded 127 0 127 r.mac
  max_master ← bounded 127 0 127 r.max_master
  npoll ← bounded 2 1 50 r.npoll
  cycle_ms ← bounded 20000 5000 120000 r.cycle_ms
  sniff_ms ← bounded 5000 1000 30000 r.sniff_ms
  some (record {
    device = device;
    baud = baud;
    mac = mac;
    max_master = max_master;
    npoll = npoll;
    cycle_ms = cycle_ms;
    sniff_ms = sniff_ms;
  })

-- `_SESSION`: the parameters of the session, and whether it is running.
pub record Monitor : Type 0 where
  pub session : Option Params
  pub running : Bool

pub data Outcome : Type 0 where
  no_device already_running raised : Outcome
  not_found : Text → Outcome
  started : Text → ℕ → Outcome

abbrev pub is_running : Monitor → Bool
is_running m = elim m.session [ none ↦ false | some p ↦ m.running ]

-- The block under the lock.
abbrev pub open_session : Option Params → Monitor → Outcome × Monitor
open_session none m = (raised, m)
open_session (some p) m =
    if is_running m
    then (already_running, m)
    else (started p.device p.baud, record { session = some p; running = true })

-- `exists` is what the file system says of the device.
unfoldable pub start_mstp_session : (Text → Bool) → Request → Monitor → Outcome × Monitor
start_mstp_session exists r m = elim r.device [
  | none ↦ (raised, m)
  | some d ↦
      let device = strip d in
      if text_eq device []
      then (no_device, m)
      else if exists device
      then open_session (clean_params device r) m
      else (not_found device, m)
]

-- Whether there was a session to stop.
unfoldable pub stop_mstp_session : Monitor → Bool × Monitor
stop_mstp_session m =
    (elim m.session [ none ↦ false | some p ↦ true ], record { session = none; running = false })
