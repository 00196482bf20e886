-- ===== src/Mstp/Tests.antt =====
-- The diagnosis, the lines of the discovery tool, and a session of two rounds on small inputs.
use rpinode.Dict.{code_eq}
use rpinode.Mstp.Control.{absent, invalid, number, Request, Monitor, start_mstp_session}
use rpinode.Mstp.Control.Bounds.{IsStart, start_mstp_session-IsStart}
use rpinode.Mstp.Health.{bus_health, count_of}
use rpinode.Mstp.Health.Verdict.{bus_health-quiet, bus_health-has_error, has_error}
use rpinode.Mstp.Iam.{parse_iam}
use rpinode.Mstp.Iam.Lines.{iam_line, parse_iam-iam_line}
use rpinode.Mstp.Session.{Session, Listen, Cycle, new_session, joined, port_label, sniff, run}
use rpinode.Mstp.Session.Listening.{IsHeard, sniff-IsHeard, sniff_serial_error}
use rpinode.Mstp.Session.Rounds.{IsRun, run-IsRun}
use rpinode.Mstp.Stream.{Frame, Stats, parse_mstp_stream}
use rpinode.Prelude.Int.{pos, negsuc}
use rpinode.Text.{Text, codes, upper}
use rpinode.Prelude.{
  ℕ, ◌+◌, ◌*◌, ◌≤◌, ◌<◌, ◌≡◌, refl, ◌↔◌, ◌⊎◌, true, false, none, some, List, [], ◌∷◌, ◌++◌, arith,
}

abbrev stats : Stats
stats = record { crc_ok = 40; crc_bad = 0; stray_bytes = 3; frames_with_stray = 2; bytes = 400 }

-- 30 tokens and 10 frames with data.
abbrev types : List (ℕ × ℕ)
types = (0, 30) ∷ (5, 10) ∷ []

bus_health-quiet_example : ((bus_health stats types 7).anomalies ≡ []) ↔ (
    (1 ≤ 40)
    × (1 ≤ count_of 0 types)
    × (1 ≤ count_of 5 types + count_of 6 types)
    × (stats.crc_bad ≡ 0)
    × (2 * 2 < 40))
bus_health-quiet_example = bus_health-quiet stats types 7

bus_health-has_error_example : (has_error (bus_health stats types 7).anomalies ≡ true) ↔ (
    (stats.crc_ok ≡ 0)
    ⊎ ((count_of 0 types ≡ 0) ⊎ ((1 ≤ 0) × (stats.crc_ok + 0 ≤ 5 * stats.crc_bad))))
bus_health-has_error_example = bus_health-has_error stats types 7

parse_iam-iam_line_example :
    parse_iam (codes " " ++ (iam_line 1234 (codes "0a") 480 ++ 10 ∷ []))
    ≡ some (record { device = 1234; mac = upper (codes "0a"); apdu = 480 })
parse_iam-iam_line_example =
    parse_iam-iam_line (codes " ") (10 ∷ []) 1234 (codes "0a") 480 (refl, tt) (refl, tt)
      (refl, (refl, tt))

-- A token from station 1 to station 2, read in two pieces.
abbrev listening_well : Listen
listening_well = record {
  has_serial = true;
  open_error = none;
  chunks = (0x55 ∷ 0xff ∷ 0 ∷ 2 ∷ []) ∷ (1 ∷ 0 ∷ 0 ∷ 0x73 ∷ []) ∷ [];
  read_error = none;
  now = 105;
}

abbrev unplugged : Listen
unplugged = record {
  has_serial = true;
  open_error = some (codes "No such device");
  chunks = [];
  read_error = none;
  now = 100;
}

abbrev device : Text
device = codes "/dev/ttyUSB0"

sniff-IsHeard_example :
    (t : Session) × (frames : List Frame) × (heard_stats : Stats) × (sniff device listening_well
        new_session
      ≡ some t)
    × (parse_mstp_stream (joined listening_well.chunks) ≡ some (frames, heard_stats))
    × IsHeard (joined listening_well.chunks) frames new_session t
sniff-IsHeard_example = sniff-IsHeard device listening_well new_session refl refl

sniff_serial_error_example :
    (t : Session) × (u : Session) × (sniff device unplugged new_session ≡ some t)
    × (sniff device listening_well t ≡ some u)
    × (u.error ≡ some (port_label device ++ codes "No such device"))
sniff_serial_error_example =
    sniff_serial_error device (codes "No such device") unplugged listening_well new_session refl
      refl refl refl refl

-- A round that hears station 1 and gets its answer, and one that is stopped after listening.
abbrev cycles : List Cycle
cycles =
    record {
      stop_before = false;
      listen = listening_well;
      stop_between = false;
      discovery = record {
        available = true;
        launch_error = none;
        lines = (110, codes "IAM;77;01;480") ∷ (111, codes "noise") ∷ [];
      };
      ended_at = 125;
      stop_after = false;
    }
    ∷ record {
      stop_before = false;
      listen = record listening_well { now = 130 };
      stop_between = true;
      discovery = record { available = false; launch_error = none; lines = [] };
      ended_at = 130;
      stop_after = false;
    }
    ∷ []

run-IsRun_example :
    (t : Session) × (saved : List Session) × (run device cycles new_session ≡ some (t, saved))
    × IsRun 90 cycles new_session t saved
run-IsRun_example =
    run-IsRun device cycles new_session 90 (tt, tt)
      (omega arith, (omega arith, (omega arith, omega arith)), (omega arith, omega arith, tt))

abbrev request : Request
request = record {
  device = some (codes " /dev/ttyUSB0 ");
  baud = number (pos 12345);
  mac = number (negsuc 4);
  max_master = number (pos 300);
  npoll = invalid;
  cycle_ms = absent;
  sniff_ms = number (pos 10);
}

abbrev idle : Monitor
idle = record { session = none; running = false }

start_mstp_session-IsStart_example :
    IsStart (λ d. true) request idle (start_mstp_session (λ d. true) request idle)
start_mstp_session-IsStart_example = start_mstp_session-IsStart (λ d. true) request idle
