-- ===== src/Mstp/Session/Registry.antt =====
-- The record of each station stays in order, whatever is heard and answered.
use rpinode.Dict.{get, put, code_eq, NoTwice, NoTwice-put, All-put_item, get-All}
use rpinode.Mstp.Iam.{Iam, parse_iam}
use rpinode.Mstp.Session.{
  Device, Devices, hex2, mstp_broadcast, heard, note_frames, answered, parse_line,
}
use rpinode.Mstp.Stream.{Frame}
use rpinode.Text.{Text}
use rpinode.Prelude.{
  ℕ, ◌+◌, ◌≤◌, ◌≡◌, refl, ◌==◌, inl, inr, none, some, List, [], ◌∷◌, All, arith, Bool-cases,
  Option-cases,
}

-- A station that was only heard has neither number nor answer; one that has answered has both, and
-- its last answer came from the first to the last time it was seen.
pub data IsNamed (d : Device) : Type 0 where
  silent : d.device ≡ none → d.apdu ≡ none → d.last_iam ≡ none → d.seen ≡ 0 → IsNamed d
  known :
      (device apdu at : ℕ)
      → d.device ≡ some device
      → d.apdu ≡ some apdu
      → d.last_iam ≡ some at
      → d.first_seen ≤ at
      → at ≤ d.last_seen
      → 1 ≤ d.seen
      → IsNamed d

-- The record of a station at time `now`, under its address.
pub record IsDevice (now : ℕ) (item : Text × Device) : Type 0 where
  pub own : item.1.mac ≡ item.0
  pub ordered : item.1.first_seen ≤ item.1.last_seen
  pub past : item.1.last_seen ≤ now
  pub met : 1 ≤ item.1.seen + item.1.frames
  pub named : IsNamed item.1

abbrev pub IsRegistry : ℕ → Devices → Type 0
IsRegistry now devices = All (IsDevice now) devices × NoTwice devices

pub IsRegistry-le :
    (t now : ℕ) (devices : Devices) → t ≤ now → IsRegistry t devices → IsRegistry now devices
IsRegistry-le t now [] h r = r
IsRegistry-le t now (item ∷ devices) h ((d, ds), (n, ns)) =
    let (rest, _) = IsRegistry-le t now devices h (ds, ns) in
    (
      (
        record {
          own = d.own;
          ordered = d.ordered;
          past = omega arith;
          met = d.met;
          named = d.named;
        },
        rest,
      ),
      (n, ns),
    )

IsNamed-heard :
    (now : ℕ) (d e : Device)
    → IsNamed d
    → d.last_seen ≤ now
    → e ≡ record d { last_seen = now; frames = d.frames + 1 }
    → IsNamed e
IsNamed-heard now d e (silent a b c z) h eq = rw eq (silent a b c z)
IsNamed-heard now d e (known i u at a b c f l z) h eq = rw eq (known i u at a b c f (omega arith) z)

IsDevice-heard :
    (now : ℕ) (mac : Text) (devices : Devices)
    → IsRegistry now devices
    → IsDevice now (mac, heard now mac (get mac devices))
unfolding heard
IsDevice-heard now mac devices (h, _) = elim (Option-cases (get mac devices)) [
  | inl gone ↦ rw gone record {
    own = refl;
    ordered = omega arith;
    past = omega arith;
    met = omega arith;
    named = silent refl refl refl refl;
  }
  | inr (d, found) ↦
      let old : IsDevice now (mac, d) = get-All (IsDevice now) mac d devices h found in
      rw found record {
        own = old.own;
        ordered = omega (arith, old.ordered, old.past);
        past = omega arith;
        met = omega arith;
        named = IsNamed-heard now d _ old.named old.past refl;
      }
]

IsDevice-answered :
    (now : ℕ) (i : Iam) (devices : Devices)
    → IsRegistry now devices
    → IsDevice now (i.mac, answered now i (get i.mac devices))
unfolding answered
IsDevice-answered now i devices (h, _) = elim (Option-cases (get i.mac devices)) [
  | inl gone ↦ rw gone record {
    own = refl;
    ordered = omega arith;
    past = omega arith;
    met = omega arith;
    named = known i.device i.apdu now refl refl refl (omega arith) (omega arith) (omega arith);
  }
  | inr (d, found) ↦
      let old : IsDevice now (i.mac, d) = get-All (IsDevice now) i.mac d devices h found in
      rw found record {
        own = old.own;
        ordered = omega (arith, old.ordered, old.past);
        past = omega arith;
        met = omega arith;
        named =
            known i.device i.apdu now refl refl refl (omega (arith, old.ordered, old.past))
              (omega arith) (omega arith);
      }
]

IsRegistry-put :
    (now : ℕ) (mac : Text) (d : Device) (devices : Devices)
    → IsDevice now (mac, d)
    → IsRegistry now devices
    → IsRegistry now (put mac d devices)
IsRegistry-put now mac d devices h (ds, ns) =
    (All-put_item (IsDevice now) mac d devices h ds, NoTwice-put mac d devices ns)

pub note_frames-IsRegistry :
    (now : ℕ) (frames : List Frame) (devices : Devices)
    → IsRegistry now devices
    → IsRegistry now (note_frames now frames devices)
unfolding note_frames
note_frames-IsRegistry now [] devices h = h
note_frames-IsRegistry now (f ∷ frames) devices h = elim (Bool-cases (f.src == mstp_broadcast)) [
  | inl everyone ↦ rw everyone (note_frames-IsRegistry now frames devices h)
  | inr one ↦ rw one (
      note_frames-IsRegistry now frames _
        (IsRegistry-put now (hex2 f.src) _ devices (IsDevice-heard now (hex2 f.src) devices h) h))
]

pub parse_line-IsRegistry :
    (now : ℕ) (line : Text) (devices : Devices)
    → IsRegistry now devices
    → IsRegistry now (parse_line now line devices)
unfolding parse_line
parse_line-IsRegistry now line devices h = elim (Option-cases (parse_iam line)) [
  | inl other ↦ rw other h
  | inr (i, iam) ↦ rw iam (IsRegistry-put now i.mac _ devices (IsDevice-answered now i devices h) h)
]
