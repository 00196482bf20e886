-- ===== src/Mstp/Session.antt =====
-- `_MstpSession` of src/services/bacnet_mstp.py: a session that listens to the bus, asks who is
-- there, and keeps what it learns of each station. What the serial port, the discovery tool, the
-- clock and the other threads do in a round is an argument. A listening period never raises: its
-- decoder ends, so the `none` of a period stands for rounds that are never used up.
pub mod Registry
pub mod Listening
pub mod Rounds
use mathlib.Core.Option
use rpinode.Dict.{get, put, code_eq}
use rpinode.Mstp.Health.{Health, bus_health, count_types}
use rpinode.Mstp.Iam.{Iam, parse_iam}
use rpinode.Mstp.Stream.{Frame, Stats, parse_mstp_stream}
use rpinode.Text.{Text, codes, contains, hex_digit}
use rpinode.Prelude.{
  ℕ, zero, suc, ◌+◌, ◌*◌, ◌/◌, ◌%◌, Bool, true, false, Option, none, some, List, [], ◌∷◌, ◌++◌, ltb,
  ◌==◌, if◌then◌else◌, ◌||◌,
}

-- A station, by its address on the bus. Times are in seconds of the clock.
pub record Device : Type 0 where
  pub mac : Text
  pub device : Option ℕ
  pub apdu : Option ℕ
  pub first_seen : ℕ
  pub last_seen : ℕ
  pub last_iam : Option ℕ
  pub seen : ℕ
  pub frames : ℕ

abbrev pub Devices : Type 0
Devices = List (Text × Device)

pub data Phase : Type 0 where
  demarrage ecoute who_is arretee : Phase

-- What the session changes as it runs; the event of `stop` is an argument of each round.
pub record Session : Type 0 where
  pub cycles : ℕ
  pub last_cycle_at : Option ℕ
  pub error : Option Text
  pub phase : Phase
  pub health : Option Health
  pub devices : Devices

abbrev pub new_session : Session
new_session = record {
  cycles = 0;
  last_cycle_at = none;
  error = none;
  phase = demarrage;
  health = none;
  devices = [];
}

abbrev pub mstp_broadcast : ℕ
mstp_broadcast = 255

-- `f"{src:02X}"` of a byte.
abbrev pub hex2 : ℕ → Text
hex2 n = hex_digit b'A' (n / 16 % 16) ∷ hex_digit b'A' (n % 16) ∷ []

-- A station that was heard.
unfoldable pub heard : ℕ → Text → Option Device → Device
heard now mac none = record {
  mac = mac;
  device = none;
  apdu = none;
  first_seen = now;
  last_seen = now;
  last_iam = none;
  seen = 0;
  frames = 1;
}
heard now mac (some d) = record d { last_seen = now; frames = d.frames + 1 }

-- `for fr in frames`, without the counts of the types.
unfoldable pub note_frames : ℕ → List Frame → Devices → Devices
note_frames now [] devices = devices
note_frames now (f ∷ frames) devices =
    if f.src == mstp_broadcast
    then note_frames now frames devices
    else note_frames now frames
        (put (hex2 f.src) (heard now (hex2 f.src) (get (hex2 f.src) devices)) devices)

-- A station that has answered.
unfoldable pub answered : ℕ → Iam → Option Device → Device
answered now i none = record {
  mac = i.mac;
  device = some i.device;
  apdu = some i.apdu;
  first_seen = now;
  last_seen = now;
  last_iam = some now;
  seen = 1;
  frames = 0;
}
answered now i (some d) = record d {
  device = some i.device;
  apdu = some i.apdu;
  last_seen = now;
  last_iam = some now;
  seen = d.seen + 1;
}

abbrev note_iam : ℕ → Option Iam → Devices → Devices
note_iam now none devices = devices
note_iam now (some i) devices = put i.mac (answered now i (get i.mac devices)) devices

-- `_parse_line`
unfoldable pub parse_line : ℕ → Text → Devices → Devices
parse_line now line devices = note_iam now (parse_iam line) devices

-- The lines of the discovery tool, each with its time.
unfoldable pub parse_lines : List (ℕ × Text) → Devices → Devices
parse_lines [] devices = devices
parse_lines ((now, line) ∷ lines) devices = parse_lines lines (parse_line now line devices)

-- What a listening period meets: whether the serial library is there, the error of opening the
-- port, the pieces that are read before the time is over or the session is stopped, the error that
-- breaks the reading off, and the time at the end.
pub record Listen : Type 0 where
  pub has_serial : Bool
  pub open_error : Option Text
  pub chunks : List (List ℕ)
  pub read_error : Option Text
  pub now : ℕ

-- `data += chunk`
abbrev pub joined : List (List ℕ) → List ℕ
joined [] = []
joined (c ∷ chunks) = c ++ joined chunks

abbrev pub no_serial_text : Text
no_serial_text = codes "Module pyserial absent : écoute passive indisponible."

-- `_set_error` with an error, and nothing without.
abbrev set_error : Text → Option Text → Session → Session
set_error label none s = s
set_error label (some e) s = record s { error = some (label ++ e) }

-- `if self.error and "série" not in self.error: self.error = None`
unfoldable pub clear_error : Option Text → Option Text
clear_error none = none
clear_error (some e) = if contains (codes "série") e then some e else none

-- The block under the lock at the end of the period.
unfoldable pub update : ℕ → List Frame → Stats → Session → Session
update now frames stats s = record s {
  devices = note_frames now frames s.devices;
  health = some (bus_health stats (count_types frames []) now);
  error = clear_error s.error;
}

abbrev finish : ℕ → Option (List Frame × Stats) → Session → Option Session
finish now none s = none
finish now (some r) s = some (update now r.0 r.1 s)

abbrev pub port_label : Text → Text
port_label device = codes "Port série inaccessible (" ++ (device ++ codes ") : ")

-- The session whose port could not be opened.
abbrev pub unopened : Text → Text → Session → Session
unopened device e s = record s { phase = ecoute; error = some (port_label device ++ e) }

-- The session while the port is read.
abbrev pub listening : Listen → Session → Session
listening l s =
    set_error (codes "Lecture série interrompue : ") l.read_error (record s { phase = ecoute })

-- `_sniff` on the serial port `device`.
unfoldable pub sniff : Text → Listen → Session → Option Session
sniff device l s =
    if l.has_serial
    then elim l.open_error [
      | some e ↦ some (unopened device e s)
      | none ↦ finish l.now (parse_mstp_stream (joined l.chunks)) (listening l s)
    ]
    else some (record s { error = some no_serial_text })

-- What a Who-Is meets: whether the tool is there, the error of its start, the lines read before it
-- ends, breaks off or the session is stopped.
pub record Discovery : Type 0 where
  pub available : Bool
  pub launch_error : Option Text
  pub lines : List (ℕ × Text)

abbrev pub no_tool_text : Text
no_tool_text = codes "Binaire Who-Is MS/TP introuvable (/opt/rpinode-bacnet/mstp/bin/bacwi)."

-- `_whois`
unfoldable pub whois : Discovery → Session → Session
whois w s =
    if w.available
    then elim w.launch_error [
      | some e ↦ record s {
        phase = who_is;
        error = some (codes "Lancement du Who-Is impossible : " ++ e);
      }
      | none ↦ record s { phase = who_is; devices = parse_lines w.lines s.devices }
    ]
    else record s { error = some no_tool_text }

-- A round, and where the event of `stop` is seen to be set.
pub record Cycle : Type 0 where
  pub stop_before : Bool
  pub listen : Listen
  pub stop_between : Bool
  pub discovery : Discovery
  pub ended_at : ℕ
  pub stop_after : Bool

abbrev pub ended : Session → Session
ended s = record s { phase = arretee }

-- The rest of a round after its listening period: the session at its end.
unfoldable pub complete : Cycle → Session → Session
complete c s =
    let t = whois c.discovery s in
    record t { cycles = t.cycles + 1; last_cycle_at = some c.ended_at }

-- `_run`, over the rounds to come: the session at the end, and the sessions saved on the way. A
-- session whose rounds are used up is still running.
unfoldable pub run : Text → List Cycle → Session → Option (Session × List Session)
run device [] s = some (s, [])
run device (c ∷ cycles) s =
    if c.stop_before then some (ended s, []) else elim (sniff device c.listen s) [
      | none ↦ none
      | some t ↦
          if c.stop_between
          then some (ended t, [])
          else if c.stop_after
          then some (ended (complete c t), complete c t ∷ [])
          else Option.map (λ r. (r.0, complete c t ∷ r.1)) (run device cycles (complete c t))
    ]
