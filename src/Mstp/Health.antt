-- ===== src/Mstp/Health.antt =====
-- `_bus_health` and `format_health_stats` of src/services/bacnet_mstp.py: the diagnosis of a
-- listening period.
pub mod Verdict
use mathlib.Core.Option
use rpinode.Dict.{get, put, nat_eq}
use rpinode.Mstp.Stream.{Frame, Stats}
use rpinode.Text.{Text, codes, decimal}
use rpinode.Prelude.{
  ℕ, zero, suc, ◌+◌, ◌*◌, Bool, true, false, Option, none, some, List, [], ◌∷◌, ◌++◌, max, ltb, leb,
  ◌==◌, if◌then◌else◌,
}

abbrev pub frame_token : ℕ
frame_token = 0

abbrev pub frame_poll_for_master : ℕ
frame_poll_for_master = 1

abbrev pub frame_reply_to_poll : ℕ
frame_reply_to_poll = 2

abbrev pub frame_data_expecting_reply : ℕ
frame_data_expecting_reply = 5

abbrev pub frame_data_not_expecting_reply : ℕ
frame_data_not_expecting_reply = 6

-- `types.get(t, 0)`
abbrev pub count_of : ℕ → List (ℕ × ℕ) → ℕ
count_of t types = Option.get_or (get t types) 0

-- `types[fr["type"]] = types.get(fr["type"], 0) + 1` over the frames.
unfoldable pub count_types : List Frame → List (ℕ × ℕ) → List (ℕ × ℕ)
count_types [] types = types
count_types (f ∷ frames) types = count_types frames (put f.ftype (count_of f.ftype types + 1) types)

-- What is wrong with the bus, with the numbers that its text prints.
pub data Anomaly : Type 0 where
  no_bytes no_token no_data : Anomaly
  no_frames : ℕ → Anomaly
  ignored_replies : ℕ → Anomaly
  corrupt : ℕ → ℕ → Anomaly
  stray : ℕ → Anomaly

pub data Level : Type 0 where
  warn error : Level

-- `100.0 * crc_bad / max(1, crc_bad + total) < 20`, without the division.
abbrev pub level : Anomaly → Level
level no_bytes = error
level (no_frames n) = error
level no_token = error
level (ignored_replies n) = warn
level no_data = warn
level (corrupt bad total) = if ltb (100 * bad) (20 * max 1 (bad + total)) then warn else error
level (stray n) = warn

pub record Health : Type 0 where
  pub at : ℕ
  pub frames : ℕ
  pub crc_bad : ℕ
  pub stray_bytes : ℕ
  pub bytes : ℕ
  pub tokens : ℕ
  pub polls : ℕ
  pub replies : ℕ
  pub data_frames : ℕ
  pub ring_ok : Bool
  pub anomalies : List Anomaly

-- The first block: whether frames, a token and data were seen.
abbrev traffic_anomalies : (total tokens replies data_frames bytes : ℕ) → List Anomaly
traffic_anomalies total tokens replies data_frames bytes =
    if total == 0
    then (if bytes == 0 then no_bytes ∷ [] else no_frames bytes ∷ [])
    else if tokens == 0
    then no_token ∷ (if replies == 0 then [] else ignored_replies replies ∷ [])
    else if data_frames == 0
    then no_data ∷ []
    else []

abbrev corrupt_anomalies : (bad total : ℕ) → List Anomaly
corrupt_anomalies bad total = if bad == 0 then [] else corrupt bad total ∷ []

-- `if total and frames_with_stray >= total * 0.5`
abbrev stray_anomalies : (total with_stray stray_bytes : ℕ) → List Anomaly
stray_anomalies total with_stray stray_bytes =
    if total == 0 then [] else if leb total (2 * with_stray) then stray stray_bytes ∷ [] else []

abbrev data_count : List (ℕ × ℕ) → ℕ
data_count types =
    count_of frame_data_expecting_reply types + count_of frame_data_not_expecting_reply types

unfoldable pub bus_health : Stats → List (ℕ × ℕ) → ℕ → Health
bus_health stats types now = record {
  at = now;
  frames = stats.crc_ok;
  crc_bad = stats.crc_bad;
  stray_bytes = stats.stray_bytes;
  bytes = stats.bytes;
  tokens = count_of frame_token types;
  polls = count_of frame_poll_for_master types;
  replies = count_of frame_reply_to_poll types;
  data_frames = data_count types;
  ring_ok = ltb 0 (count_of frame_token types);
  anomalies =
      traffic_anomalies stats.crc_ok (count_of frame_token types)
        (count_of frame_reply_to_poll types) (data_count types) stats.bytes
      ++ (corrupt_anomalies stats.crc_bad stats.crc_ok
          ++ stray_anomalies stats.crc_ok stats.frames_with_stray stats.stray_bytes);
}

abbrev part_if : ℕ → Text → Text
part_if n label = if n == 0 then [] else codes ", " ++ (decimal n ++ label)

-- The parts are joined by a comma.
unfoldable pub format_health_stats : Option Health → Text
format_health_stats none = codes "aucune écoute"
format_health_stats (some h) =
    (if h.ring_ok
      then codes "jeton OK (" ++ (decimal h.tokens ++ codes " jetons)")
      else codes "aucun jeton")
    ++ (codes ", "
        ++ (decimal h.frames
            ++ (codes " trames"
                ++ (part_if h.crc_bad (codes " erreurs CRC")
                    ++ part_if h.stray_bytes (codes " parasites")))))
