-- ===== src/LiveView/Safety.antt =====
-- A session does not outlive its start.
use rpinode.LiveView.{
  Live, start, stop, other_action, act, since, handle_action, is_over, auto_stop, polls, idle,
  Event, action, turn, step, run,
}
use rpinode.Prelude.{
  ℕ, ◌+◌, ◌≡◌, ◌≤◌, ◌⊎◌, inl, inr, refl, sym, ap, ◌∙◌, true, false, Option, none, some, List, [],
  ◌∷◌, arith, Bool-cases, All,
}

module _ {ℓ} {P : Type ℓ} where
  -- The time of the last start, if no stop came after it.
  abbrev last_start_from : Option ℕ → List (Event P) → Option ℕ
  last_start_from t [] = t
  last_start_from t (action now (start points interval) ∷ events) =
      last_start_from (some now) events
  last_start_from t (action now stop ∷ events) = last_start_from none events
  last_start_from t (action now other_action ∷ events) = last_start_from t events
  last_start_from t (turn now ∷ events) = last_start_from t events

  abbrev pub last_start : List (Event P) → Option ℕ
  last_start events = last_start_from none events

  -- The clock has left 0.
  abbrev pub IsLater : Event P → Type 0
  IsLater (action now p) = 1 ≤ now
  IsLater (turn now) = 1 ≤ now

  -- An active session has the time of the last start, which is not 0, and polls at most once in
  -- a second.
  record IsTimed (t : Option ℕ) (l : Live P) : Type 0 where
    session : (l.active ≡ false) ⊎ ((n : ℕ) × (t ≡ some n) × (l.started_at ≡ some n) × (1 ≤ n))
    interval : 1 ≤ l.interval

  stopped-IsTimed :
      (t : Option ℕ) (now : ℕ) (l : Live P) → IsTimed t l → IsTimed t (auto_stop now l)
  unfolding auto_stop
  stopped-IsTimed t now l h = elim (Bool-cases (is_over now (since l.active l.started_at))) [
    | inl over ↦ rw over record { session = inl refl; interval = h.interval }
    | inr going ↦ rw going h
  ]

  run-IsTimed :
      (t : Option ℕ) (events : List (Event P)) (l : Live P)
      → All IsLater events
      → IsTimed t l
      → IsTimed (last_start_from t events) (run events l)
  unfolding run step handle_action act
  run-IsTimed t [] l later h = h
  run-IsTimed t (action now (start points none) ∷ events) l (k, later) h =
      run-IsTimed (some now) events _ later
        record { session = inr (now, refl, refl, k); interval = omega arith }
  run-IsTimed t (action now (start points (some i)) ∷ events) l (k, later) h =
      run-IsTimed (some now) events _ later
        record { session = inr (now, refl, refl, k); interval = omega arith }
  run-IsTimed t (action now stop ∷ events) l (k, later) h =
      run-IsTimed none events _ later record { session = inl refl; interval = h.interval }
  run-IsTimed t (action now other_action ∷ events) l (k, later) h = run-IsTimed t events l later h
  run-IsTimed t (turn now ∷ events) l (k, later) h =
      run-IsTimed t events _ later (stopped-IsTimed t now l h)

  -- An active session that goes on after the test for its end is not over.
  timed-polls :
      (t : Option ℕ) (now : ℕ) (l : Live P)
      → IsTimed t l
      → polls now l ≡ true
      → (n : ℕ) × (t ≡ some n) × (now ≤ n + 300)
  unfolding polls auto_stop
  timed-polls t now l h e = elim (Bool-cases (is_over now (since l.active l.started_at))) [
    | inl over ↦ absurd (ground (arith, rw over at e))
    | inr going ↦ elim h.session [
      | inl off ↦ absurd (ground (arith, rw going at e))
      | inr (n, same, started, k) ↦
          let on : l.active ≡ true = ground (arith, rw going at e) in
          let whole : is_over now (since true (some n)) ≡ false =
            ap (λ b. is_over now (since b (some n))) (sym on)
            ∙ ap (λ o. is_over now (since l.active o)) (sym started)
            ∙ going in
          (n, same, ground arith)
    ]
  ]

  -- Whatever actions and turns of the loop follow each other, at times after 0: where a turn
  -- polls, the last start or stop was a start, at most 300 seconds before; and the pause after the
  -- poll is at least one second.
  pub run-IsSafe :
      (events : List (Event P)) (now : ℕ)
      → All IsLater events
      → polls now (run events idle) ≡ true
      → (n : ℕ) × (last_start events ≡ some n) × (now ≤ n + 300) × (1 ≤ (run events idle).interval)
  run-IsSafe events now later going =
      let h =
        run-IsTimed none events idle later
          (record { session = inl refl; interval = omega arith }) in
      let (n, last, in_time) = timed-polls (last_start events) now (run events idle) h going in
      (n, last, in_time, h.interval)
