-- ===== src/RemoteLog/Tests.antt =====
-- Three records, of which one has no entry, in batches of two.
use rpinode.RemoteLog.{Event, emit, turn, close, start}
use rpinode.RemoteLog.Runs.{IsFifo, run-IsFifo}
use rpinode.Prelude.{ℕ, zero, suc, Option, none, some, List, [], ◌∷◌, true, arith}

abbrev entry : ℕ → Option ℕ
entry zero = none
entry (suc n) = some n

abbrev events : List (Event ℕ)
events =
    emit 4
    ∷ emit 0
    ∷ emit 9
    ∷ turn 10 true
    ∷ turn 11 true
    ∷ turn 12 true
    ∷ emit 2
    ∷ close
    ∷ turn 50 true
    ∷ []

run-IsFifo_example : IsFifo entry 2 30 (start entry 2 30 5) events
run-IsFifo_example = run-IsFifo entry 2 30 5 events (omega arith)
