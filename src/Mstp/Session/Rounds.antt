-- ===== src/Mstp/Session/Rounds.antt =====
-- The rounds of a session, and what is kept of the stations over all of them.
use mathlib.Core.Path.{subst}
use rpinode.Dict.{code_eq}
use rpinode.Mstp.Session.{
  Session, Devices, Listen, Discovery, Cycle, arretee, parse_line, parse_lines, whois, complete,
  ended, sniff, run, update, listening, unopened, no_serial_text, joined,
}
use rpinode.Mstp.Session.Listening.{sniff-update, sniff-unopened, sniff_bare, listening-keeps}
use rpinode.Mstp.Session.Registry.{
  IsRegistry, IsRegistry-le, note_frames-IsRegistry, parse_line-IsRegistry,
}
use rpinode.Mstp.Stream.{Frame, Stats}
use rpinode.Mstp.Stream.Sound.{parse_mstp_stream-IsReport}
use rpinode.Text.{Text}
use rpinode.Prelude.{
  ℕ, suc, ◌+◌, ◌≤◌, ◌≡◌, refl, sym, ◌∙◌, ap, ◌⊎◌, inl, inr, true, false, Option, some, List, [],
  ◌∷◌, length, arith, Bool-cases, Option-cases, if◌then◌else◌,
}

-- The clock does not go back over the lines of a discovery, from `now` to `last`.
abbrev pub AreTimed : ℕ → List (ℕ × Text) → ℕ → Type 0
AreTimed now [] last = now ≤ last
AreTimed now ((t, line) ∷ lines) last = (now ≤ t) × AreTimed t lines last

-- Nor over the rounds.
abbrev pub AreOrdered : ℕ → List Cycle → Type 0
AreOrdered now [] = Unit
AreOrdered now (c ∷ cycles) =
    (now ≤ c.listen.now)
    × AreTimed c.listen.now c.discovery.lines c.ended_at
    × AreOrdered c.ended_at cycles

-- The time that the rounds have reached when they end.
abbrev pub end_of : ℕ → List Cycle → ℕ
end_of now [] = now
end_of now (c ∷ cycles) =
    let rest = end_of c.ended_at cycles in
    if c.stop_before
    then now
    else if c.stop_between
    then c.listen.now
    else if c.stop_after
    then c.ended_at
    else rest

-- The stations of each session that was saved are in order at the end of its own round.
abbrev pub AreSaved : List Cycle → List Session → Type 0
AreSaved cycles [] = Unit
AreSaved [] (u ∷ saved) = ⊥
AreSaved (c ∷ cycles) (u ∷ saved) = IsRegistry c.ended_at u.devices × AreSaved cycles saved

parse_lines-IsRegistry :
    (lines : List (ℕ × Text)) (now last : ℕ) (devices : Devices)
    → AreTimed now lines last
    → IsRegistry now devices
    → IsRegistry last (parse_lines lines devices)
unfolding parse_lines
parse_lines-IsRegistry [] now last devices h r = IsRegistry-le now last devices h r
parse_lines-IsRegistry ((t, line) ∷ lines) now last devices (h, hs) r =
    parse_lines-IsRegistry lines t last (parse_line t line devices) hs
      (parse_line-IsRegistry t line devices (IsRegistry-le now t devices h r))

AreTimed-le : (lines : List (ℕ × Text)) (now last : ℕ) → AreTimed now lines last → now ≤ last
AreTimed-le [] now last h = h
AreTimed-le ((t, line) ∷ lines) now last (h, hs) = omega (arith, AreTimed-le lines t last hs)

abbrev IsNext : ℕ → Session → Option Session → Type 0
IsNext now s r = (t : Session) × (r ≡ some t) × IsRegistry now t.devices × (t.cycles ≡ s.cycles)

update-IsRegistry :
    (l : Listen) (frames : List Frame) (stats : Stats) (s : Session)
    → IsRegistry l.now s.devices
    → IsRegistry l.now (update l.now frames stats (listening l s)).devices
unfolding update
update-IsRegistry l frames stats s r =
    note_frames-IsRegistry l.now frames (listening l s).devices (rw (listening-keeps l s).0 r)

-- A listening period ends, and keeps the stations in order.
sniff-IsNext :
    (device : Text) (l : Listen) (s : Session)
    → IsRegistry l.now s.devices
    → IsNext l.now s (sniff device l s)
unfolding update
sniff-IsNext device l s r = elim (Bool-cases l.has_serial) [
  | inl serial ↦ elim (Option-cases l.open_error) [
    | inl opens ↦
        let (frames, stats, e, _) = parse_mstp_stream-IsReport (joined l.chunks) in
        (
          update l.now frames stats (listening l s),
          sniff-update device l s serial frames stats opens e,
          update-IsRegistry l frames stats s r,
          (listening-keeps l s).1,
        )
    | inr (e, h) ↦ (unopened device e s, sniff-unopened device l s serial e h, r, refl)
  ]
  | inr bare ↦ (record s { error = some no_serial_text }, sniff_bare device l s bare, r, refl)
]

whois-IsRegistry :
    (w : Discovery) (now last : ℕ) (s : Session)
    → AreTimed now w.lines last
    → IsRegistry now s.devices
    → IsRegistry last (whois w s).devices × ((whois w s).cycles ≡ s.cycles)
unfolding whois
whois-IsRegistry w now last s h r =
    let kept : IsRegistry last s.devices =
      IsRegistry-le now last s.devices (AreTimed-le w.lines now last h) r in
    elim (Bool-cases w.available) [
      | inl there ↦ elim (Option-cases w.launch_error) [
        | inl starts ↦
            rw (there, starts) (parse_lines-IsRegistry w.lines now last s.devices h r, refl)
        | inr (e, fails) ↦ rw (there, fails) (kept, refl)
      ]
      | inr absent ↦ rw absent (kept, refl)
    ]

complete-IsRegistry :
    (c : Cycle) (now : ℕ) (s : Session)
    → AreTimed now c.discovery.lines c.ended_at
    → IsRegistry now s.devices
    → IsRegistry c.ended_at (complete c s).devices × ((complete c s).cycles ≡ s.cycles + 1)
unfolding complete
complete-IsRegistry c now s h r =
    let (devices, cycles) = whois-IsRegistry c.discovery now c.ended_at s h r in
    (devices, omega arith)

-- What a run of rounds leaves that began in the session s at a time.
pub record IsRun (now : ℕ) (cycles : List Cycle) (s t : Session) (saved : List Session)
    : Type 0 where
  pub tidy : IsRegistry (end_of now cycles) t.devices
  pub saved_tidy : AreSaved cycles saved
  pub counted : t.cycles ≡ s.cycles + length saved
  pub over : (t.phase ≡ arretee) ⊎ (length saved ≡ length cycles)

-- No round was completed.
IsRun-none :
    (now : ℕ) (cycles : List Cycle) (s t : Session)
    → IsRegistry (end_of now cycles) t.devices
    → t.cycles ≡ s.cycles
    → (t.phase ≡ arretee) ⊎ (0 ≡ length cycles)
    → IsRun now cycles s t []
IsRun-none now cycles s t tidy same over = record {
  tidy = tidy;
  saved_tidy = tt;
  counted = omega arith;
  over = over;
}

-- One round was completed, and the session stopped then.
IsRun-ended :
    (now : ℕ) (c : Cycle) (cycles : List Cycle) (s u : Session)
    → end_of now (c ∷ cycles) ≡ c.ended_at
    → IsRegistry c.ended_at u.devices
    → u.cycles ≡ s.cycles + 1
    → IsRun now (c ∷ cycles) s (ended u) (u ∷ [])
IsRun-ended now c cycles s u at tidy one = record {
  tidy = subst (λ (k : ℕ). IsRegistry k u.devices) (sym at) tidy;
  saved_tidy = (tidy, tt);
  counted = omega arith;
  over = inl refl;
}

IsRun-again :
    (now : ℕ) (c : Cycle) (cycles : List Cycle) (s t u : Session) (saved : List Session)
    → end_of now (c ∷ cycles) ≡ end_of c.ended_at cycles
    → IsRegistry c.ended_at u.devices
    → u.cycles ≡ s.cycles + 1
    → IsRun c.ended_at cycles u t saved
    → IsRun now (c ∷ cycles) s t (u ∷ saved)
IsRun-again now c cycles s t u saved at tidy one h = record {
  tidy = subst (λ (k : ℕ). IsRegistry k t.devices) (sym at) h.tidy;
  saved_tidy = (tidy, h.saved_tidy);
  counted = omega (arith, h.counted);
  over = elim h.over [ inl stopped ↦ inl stopped | inr all ↦ inr (ap suc all) ];
}

module _ (device : Text) (c : Cycle) (cycles : List Cycle) (s : Session) where
  run_before : c.stop_before ≡ true → run device (c ∷ cycles) s ≡ some (ended s, [])
  unfolding run
  run_before h = rw h

  module _ (t : Session) (go : c.stop_before ≡ false) (e : sniff device c.listen s ≡ some t) where
    run_between : c.stop_between ≡ true → run device (c ∷ cycles) s ≡ some (ended t, [])
    unfolding run
    run_between h = simp (go, e, h)

    run_after :
        c.stop_between ≡ false
        → c.stop_after ≡ true
        → run device (c ∷ cycles) s ≡ some (ended (complete c t), complete c t ∷ [])
    unfolding run
    run_after h k = simp (go, e, h, k)

    run_on :
        (u : Session) (saved : List Session)
        → c.stop_between ≡ false
        → c.stop_after ≡ false
        → run device cycles (complete c t) ≡ some (u, saved)
        → run device (c ∷ cycles) s ≡ some (u, complete c t ∷ saved)
    unfolding run
    run_on u saved h k rest = simp (go, e, h, k, rest)

-- While the clock does not go back, a session whose stations are in order runs on without failing.
-- It counts the rounds that it completed and saves the session after each of them; at the end the
-- session is stopped, or all the rounds are completed. The stations are in order in every saved
-- session, at the time when its round ended, and at the end, at the last time that the rounds
-- reached: the end of the last completed round or of the listening period that was stopped after, or
-- the start. In order at a time means: no address stands twice, each record has its own address, was
-- seen first before last and last at that time or before, was heard or has answered, and has a device
-- number, a message length and a last answer exactly when it has answered, and that answer came
-- from the first to the last time it was seen.
pub run-IsRun :
    (device : Text) (cycles : List Cycle) (s : Session) (now : ℕ)
    → IsRegistry now s.devices
    → AreOrdered now cycles
    → (t : Session) × (saved : List Session) × (run device cycles s ≡ some (t, saved))
      × IsRun now cycles s t saved
run-IsRun device [] s now r h = (s, [], unfold run in refl, IsRun-none now [] s s r refl (inr refl))
run-IsRun device (c ∷ cycles) s now r (later, lines, hs) =
    let (t, e, r', n) =
      sniff-IsNext device c.listen s (IsRegistry-le now c.listen.now s.devices later r) in
    let (r'', one) = complete-IsRegistry c c.listen.now t lines r' in
    elim (Bool-cases c.stop_before) [
      | inl early ↦ (
        _,
        _,
        run_before device c cycles s early,
        IsRun-none now _ s (ended s) (rw early r) refl (inl refl),
      )
      | inr go ↦ elim (Bool-cases c.stop_between) [
        | inl between ↦ (
          _,
          _,
          run_between device c cycles s t go e between,
          IsRun-none now _ s (ended t) (rw (go, between) r') n (inl refl),
        )
        | inr on ↦ elim (Bool-cases c.stop_after) [
          | inl after ↦ (
            _,
            _,
            run_after device c cycles s t go e on after,
            IsRun-ended now c cycles s (complete c t) (rw (go, on, after) refl) r''
                (one ∙ ap (λ (k : ℕ). k + 1) n),
          )
          | inr again ↦
              let (u, saved, e', h) = run-IsRun device cycles (complete c t) c.ended_at r'' hs in
              (
                u,
                complete c t ∷ saved,
                run_on device c cycles s t go e u saved on again e',
                IsRun-again now c cycles s u (complete c t) saved (rw (go, on, again) refl) r''
                    (one ∙ ap (λ (k : ℕ). k + 1) n) h,
              )
        ]
      ]
    ]
