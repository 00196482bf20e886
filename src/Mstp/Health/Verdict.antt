-- ===== src/Mstp/Health/Verdict.antt =====
-- When the diagnosis finds nothing, when it finds an error, and that its counts are those of the
-- frames.
use rpinode.Dict.{put, nat_eq, get-put}
use rpinode.Mstp.Health.{
  Anomaly, warn, error, level, bus_health, count_of, count_types, frame_token,
  frame_data_expecting_reply, frame_data_not_expecting_reply,
}
use rpinode.Mstp.Stream.{Frame, Stats}
use rpinode.Prelude.{
  ℕ, ◌+◌, ◌*◌, ◌≤◌, ◌<◌, ◌≡◌, ◌↔◌, ◌⊎◌, inl, inr, Bool, true, false, List, [], ◌∷◌, ◌==◌, arith,
  Bool-cases, if◌then◌else◌,
}

-- The number of the frames of one type.
abbrev pub frames_of_type : ℕ → List Frame → ℕ
frames_of_type t [] = 0
frames_of_type t (f ∷ frames) =
    if f.ftype == t then frames_of_type t frames + 1 else frames_of_type t frames

count_of-put :
    (t k n : ℕ) (types : List (ℕ × ℕ))
    → count_of t (put k n types) ≡ (if k == t then n else count_of t types)
count_of-put t k n types = elim (Bool-cases (k == t)) [
  | inl same ↦ rw (get-put k t n types, same)
  | inr apart ↦ rw (get-put k t n types, apart)
]

pub count_of-count_types :
    (t : ℕ) (frames : List Frame) (types : List (ℕ × ℕ))
    → count_of t (count_types frames types) ≡ count_of t types + frames_of_type t frames
unfolding count_types
count_of-count_types t [] types = omega arith
count_of-count_types t (f ∷ frames) types = ground (
  arith,
  count_of-put t f.ftype (count_of f.ftype types + 1) types,
  count_of-count_types t frames (put f.ftype (count_of f.ftype types + 1) types),
)

-- The bus is found healthy exactly when frames, tokens and data were seen, no checksum was wrong,
-- and fewer than half of the frames came behind stray bytes.
pub bus_health-quiet :
    (stats : Stats) (types : List (ℕ × ℕ)) (now : ℕ)
    → ((bus_health stats types now).anomalies ≡ []) ↔ (
        (1 ≤ stats.crc_ok)
        × (1 ≤ count_of frame_token types)
        × (1
            ≤ count_of frame_data_expecting_reply types
              + count_of frame_data_not_expecting_reply types)
        × (stats.crc_bad ≡ 0)
        × (2 * stats.frames_with_stray < stats.crc_ok))
unfolding bus_health
bus_health-quiet stats types now = (λ h. ground arith, λ h. ground arith)

abbrev is_error : Anomaly → Bool
is_error a = elim (level a) [ warn ↦ false | error ↦ true ]

abbrev pub has_error : List Anomaly → Bool
has_error [] = false
has_error (a ∷ anomalies) = if is_error a then true else has_error anomalies

-- The diagnosis holds an error, not only warnings, exactly when no frame or no token was seen, or
-- one frame in five or more of all that were seen was corrupt.
pub bus_health-has_error :
    (stats : Stats) (types : List (ℕ × ℕ)) (now : ℕ)
    → (has_error (bus_health stats types now).anomalies ≡ true) ↔ (
        (stats.crc_ok ≡ 0)
        ⊎ ((count_of frame_token types ≡ 0)
            ⊎ ((1 ≤ stats.crc_bad) × (stats.crc_ok + stats.crc_bad ≤ 5 * stats.crc_bad))))
unfolding bus_health
bus_health-has_error stats types now = (λ h. ground arith, λ h. ground arith)
