-- ===== src/Mstp/Session/Listening.antt =====
-- What a listening period learns from the bytes that it reads.
use rpinode.Dict.{get, put, code_eq, get-put}
use rpinode.Mstp.Health.{Health, bus_health, count_types, count_of, frame_token}
use rpinode.Mstp.Health.Verdict.{frames_of_type, count_of-count_types}
use rpinode.Mstp.Session.{
  Device, Devices, Session, Listen, joined, hex2, mstp_broadcast, heard, note_frames, set_error,
  clear_error, update, sniff, ecoute, port_label, unopened, listening, no_serial_text,
}
use rpinode.Mstp.Stream.{Frame, Stats, parse_mstp_stream}
use rpinode.Text.{Text, text_eq, codes, contains}
use rpinode.Text.Contains.{text_eq_iff, contains-append}
use rpinode.Mstp.Stream.Sound.{IsReport, parse_mstp_stream-IsReport}
use native.Mathlib.Nat.{zero-add}
use rpinode.Prelude.{
  ℕ, ◌+◌, ◌≡◌, refl, ◌∙◌, ap, ◌==◌, ltb, true, false, Option, none, some, List, [], ◌∷◌, ◌++◌, inl,
  inr, arith, Bool-cases, if◌then◌else◌, length,
}

-- The frames that came from the station `mac`: a frame from everyone is from no station.
abbrev pub frames_from : Text → List Frame → ℕ
frames_from mac [] = 0
frames_from mac (f ∷ frames) =
    if f.src == mstp_broadcast
    then frames_from mac frames
    else if text_eq (hex2 f.src) mac
    then frames_from mac frames + 1
    else frames_from mac frames

-- The frames that a registry has counted for a station.
abbrev frames_known : Option Device → ℕ
frames_known none = 0
frames_known (some d) = d.frames

abbrev pub frames_at : Text → Devices → ℕ
frames_at mac devices = frames_known (get mac devices)

frames_heard :
    (now : ℕ) (mac : Text) (o : Option Device) → (heard now mac o).frames ≡ frames_known o + 1
unfolding heard
frames_heard now mac none = refl
frames_heard now mac (some d) = refl

frames_at-put-heard :
    (now : ℕ) (mac k : Text) (devices : Devices)
    → frames_at mac (put k (heard now k (get k devices)) devices)
      ≡ (if text_eq k mac then frames_at mac devices + 1 else frames_at mac devices)
frames_at-put-heard now mac k devices = elim (Bool-cases (text_eq k mac)) [
  | inl same ↦
      let e : k ≡ mac = (text_eq_iff k mac).0 same in
      rw (
        get-put k mac (heard now k (get k devices)) devices,
        same,
        frames_heard now k (get k devices),
        e,
      )
  | inr apart ↦ rw (get-put k mac (heard now k (get k devices)) devices, apart)
]

frames_at-note_frames :
    (now : ℕ) (mac : Text) (frames : List Frame) (devices : Devices)
    → frames_at mac (note_frames now frames devices)
      ≡ frames_at mac devices + frames_from mac frames
unfolding note_frames
frames_at-note_frames now mac [] devices = omega arith
frames_at-note_frames now mac (f ∷ frames) devices = ground (
  arith,
  frames_at-note_frames now mac frames devices,
  frames_at-note_frames now mac frames
      (put (hex2 f.src) (heard now (hex2 f.src) (get (hex2 f.src) devices)) devices),
  frames_at-put-heard now mac (hex2 f.src) devices,
)

-- What a period leaves that heard these frames.
pub record IsHeard (stream : List ℕ) (frames : List Frame) (s t : Session) : Type 0 where
  pub counted :
      (mac : Text) → frames_at mac t.devices ≡ frames_at mac s.devices + frames_from mac frames
  pub report : Health
  pub diagnosed : t.health ≡ some report
  pub all_frames : report.frames ≡ length frames
  pub all_bytes : report.bytes ≡ length stream
  pub all_tokens : report.tokens ≡ frames_of_type frame_token frames
  pub ring : report.ring_ok ≡ ltb 0 (frames_of_type frame_token frames)
  pub cycles_kept : t.cycles ≡ s.cycles

pub sniff_bare :
    (device : Text) (l : Listen) (s : Session)
    → l.has_serial ≡ false
    → sniff device l s ≡ some (record s { error = some no_serial_text })
unfolding sniff
sniff_bare device l s bare = rw bare

set_error-keeps :
    (label : Text) (e : Option Text) (s : Session)
    → ((set_error label e s).devices ≡ s.devices) × ((set_error label e s).cycles ≡ s.cycles)
set_error-keeps label none s = (refl, refl)
set_error-keeps label (some e) s = (refl, refl)

pub listening-keeps :
    (l : Listen) (s : Session)
    → ((listening l s).devices ≡ s.devices) × ((listening l s).cycles ≡ s.cycles)
listening-keeps l s =
    set_error-keeps (codes "Lecture série interrompue : ") l.read_error
      (record s { phase = ecoute })

update-IsHeard :
    (stream : List ℕ) (l : Listen) (frames : List Frame) (stats : Stats) (s : Session)
    → IsReport stream frames stats
    → IsHeard stream frames s (update l.now frames stats (listening l s))
unfolding update bus_health get
update-IsHeard stream l frames stats s r =
    let (devices, cycles) = listening-keeps l s in
    let tokens : count_of frame_token (count_types frames []) ≡ frames_of_type frame_token frames =
      count_of-count_types frame_token frames [] ∙ zero-add _ in
    record {
      counted = λ mac. rw devices (frames_at-note_frames l.now mac frames s.devices);
      report = bus_health stats (count_types frames []) l.now;
      diagnosed = refl;
      all_frames = r.counted;
      all_bytes = r.sized;
      all_tokens = tokens;
      ring = ap (ltb 0) tokens;
      cycles_kept = cycles;
    }

module _ (device : Text) (l : Listen) (s : Session) (serial : l.has_serial ≡ true) where
  pub sniff-update :
      (frames : List Frame) (stats : Stats)
      → l.open_error ≡ none
      → parse_mstp_stream (joined l.chunks) ≡ some (frames, stats)
      → sniff device l s ≡ some (update l.now frames stats (listening l s))
  unfolding sniff
  sniff-update frames stats opens e = rw (serial, opens, e)

  pub sniff-unopened :
      (e : Text) → l.open_error ≡ some e → sniff device l s ≡ some (unopened device e s)
  unfolding sniff
  sniff-unopened e h = rw (serial, h)

-- A period whose serial library is there and whose port opens ends, even when the reading breaks
-- off, and works on what was read by then: each station's count of frames grows by the frames
-- decoded from it, those sent from everyone counting for none, and the diagnosis has the numbers of
-- the decoded frames, of the bytes read and of the tokens, the ring being in order exactly when
-- there is a token.
pub sniff-IsHeard :
    (device : Text) (l : Listen) (s : Session)
    → l.has_serial ≡ true
    → l.open_error ≡ none
    → (t : Session) × (frames : List Frame) × (stats : Stats) × (sniff device l s ≡ some t)
      × (parse_mstp_stream (joined l.chunks) ≡ some (frames, stats))
      × IsHeard (joined l.chunks) frames s t
sniff-IsHeard device l s serial opens =
    let (frames, stats, e, r) = parse_mstp_stream-IsReport (joined l.chunks) in
    (
      update l.now frames stats (listening l s),
      frames,
      stats,
      sniff-update device l s serial frames stats opens e,
      e,
      update-IsHeard (joined l.chunks) l frames stats s r,
    )

serial_error : (device e : Text) → contains (codes "série") (port_label device ++ e) ≡ true
serial_error device e =
    contains-append (codes "série") (codes "Port ")
      (codes " inaccessible (" ++ (device ++ codes ") : ") ++ e)

-- Once the port could not be opened, the error that says so is still shown after a period in which
-- the port was opened and read without any error.
pub sniff_serial_error :
    (device e : Text) (failed good : Listen) (s : Session)
    → failed.has_serial ≡ true
    → failed.open_error ≡ some e
    → good.has_serial ≡ true
    → good.open_error ≡ none
    → good.read_error ≡ none
    → (t : Session) × (u : Session) × (sniff device failed s ≡ some t)
      × (sniff device good t ≡ some u)
      × (u.error ≡ some (port_label device ++ e))
unfolding update clear_error
sniff_serial_error device e failed good s h1 h2 h3 h4 h5 =
    let (frames, stats, parsed, r) = parse_mstp_stream-IsReport (joined good.chunks) in
    (
      unopened device e s,
      update good.now frames stats (listening good (unopened device e s)),
      sniff-unopened device failed s h1 e h2,
      sniff-update device good (unopened device e s) h3 frames stats h4 parsed,
      rw (h5, serial_error device e),
    )
