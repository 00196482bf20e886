-- ===== src/RemoteLog/Runs.antt =====
-- What a row of events makes of the handler, and the bounds of its batches.
use mathlib.Core.Path.{subst}
use rpinode.Prelude.{
  ℕ, ◌≡◌, ◌≤◌, ◌<◌, refl, sym, ap, ◌∙◌, inl, inr, Bool, Option, none, some, List, [], ◌∷◌, ◌++◌,
  length, arith, Bool-cases, All, length-append, All-append,
}
use mathlib.Core.List.{append_assoc, append-nil}
use rpinode.RemoteLog.{
  Batch, Handler, Event, emit, turn, close, as_entry, take_from, take_record, is_due, send_batch,
  flush, step, run, start,
}
use rpinode.RemoteLog.Fifo.{
  Fifo, Moves, no_move, then_move, all_logs, all_logs-append, entries, entries-append, view,
  emitted, total, view-take_from, step-Move,
}

module _ {ℓ κ} {R : Type ℓ} {E : Type κ} (entry : R → Option E)
    (batch_size flush_interval : ℕ) where
  take_from-handed :
      (queue : List R) (h : Handler R E)
      → (take_from entry batch_size flush_interval queue h).handed ≡ h.handed
  take_from-handed [] h = refl
  take_from-handed (r ∷ queue) h = refl

  length-as_entry : (o : Option E) → length (as_entry o) ≤ 1
  length-as_entry none = omega arith
  length-as_entry (some e) = omega arith

  take_from-buffer :
      (queue : List R) (h : Handler R E)
      → length h.buffer < batch_size
      → length (take_from entry batch_size flush_interval queue h).buffer ≤ batch_size
  take_from-buffer [] h l = omega arith
  take_from-buffer (r ∷ queue) h l =
      omega (arith, length-append h.buffer (as_entry (entry r)), length-as_entry (entry r))

  emitted_first :
      (e : Event R) (events : List (Event R))
      → entries entry (emitted (e ∷ [])) ++ entries entry (emitted events)
        ≡ entries entry (emitted (e ∷ events))
  emitted_first (emit r) events =
      ap (λ xs. xs ++ entries entry (emitted events)) (append-nil (as_entry (entry r)))
  emitted_first (turn now t) events = refl
  emitted_first close events = refl

  -- What a batch and the buffer may hold.
  pub record IsSmall (h : Handler R E) : Type κ where
    pub batches : All (λ b. (1 ≤ length b.logs) × (length b.logs ≤ batch_size)) h.handed
    pub buffer : length h.buffer < batch_size

  send_batch-small :
      (t : Bool) (logs : List E) (handed : List (Batch E))
      → length logs ≤ batch_size
      → All (λ b. (1 ≤ length b.logs) × (length b.logs ≤ batch_size)) handed
      → All (λ b. (1 ≤ length b.logs) × (length b.logs ≤ batch_size)) (send_batch t logs handed)
  send_batch-small t [] handed l h = h
  send_batch-small t (e ∷ logs) handed l h = All-append _ handed _ h ((omega arith, l), tt)

  flush-IsSmall :
      (now : ℕ) (t : Bool) (h : Handler R E)
      → 1 ≤ batch_size
      → All (λ b. (1 ≤ length b.logs) × (length b.logs ≤ batch_size)) h.handed
      → length h.buffer ≤ batch_size
      → IsSmall (flush entry batch_size flush_interval now t h)
  unfolding flush
  flush-IsSmall now t h some_size hs l =
      elim (Bool-cases (is_due entry batch_size flush_interval now h)) [
        | inl due ↦
            rw due
              record { batches = send_batch-small t h.buffer h.handed l hs; buffer = some_size }
        | inr wait ↦ rw wait record { batches = hs; buffer = ground arith }
      ]

  step-IsSmall :
      (e : Event R) (h : Handler R E)
      → 1 ≤ batch_size
      → IsSmall h
      → IsSmall (step entry batch_size flush_interval e h)
  unfolding step take_record
  step-IsSmall (emit r) h some_size k = record { batches = k.batches; buffer = k.buffer }
  step-IsSmall (turn now t) h some_size k = elim (Bool-cases h.is_stopped) [
    | inl stopped ↦ simp stopped k
    | inr on ↦ simp on (
        flush-IsSmall now t (take_from entry batch_size flush_interval h.queue h) some_size
          (subst
            (λ (bs : List (Batch E)).
              All (λ b. (1 ≤ length b.logs) × (length b.logs ≤ batch_size)) bs)
            (sym (take_from-handed h.queue h)) k.batches)
          (take_from-buffer h.queue h k.buffer))
  ]
  step-IsSmall close h some_size k = record { batches = k.batches; buffer = k.buffer }

  flush-total :
      (now : ℕ) (t : Bool) (h : Handler R E)
      → total entry (flush entry batch_size flush_interval now t h) ≡ total entry h
  unfolding flush
  flush-total now t h = elim (Bool-cases (is_due entry batch_size flush_interval now h)) [
    | inl due ↦ rw due (
        ap (λ (l : List E). l ++ entries entry h.queue) (all_logs-append h.handed t h.buffer)
        ∙ append_assoc (all_logs h.handed) h.buffer (entries entry h.queue))
    | inr wait ↦ rw wait refl
  ]

  step-total :
      (e : Event R) (h : Handler R E)
      → total entry (step entry batch_size flush_interval e h)
        ≡ total entry h ++ entries entry (emitted (e ∷ []))
  unfolding step take_record
  step-total (emit r) h =
      let last = as_entry (entry r) in
      ap (λ xs. all_logs h.handed ++ (h.buffer ++ xs)) (entries-append entry h.queue r)
      ∙ ap (λ xs. all_logs h.handed ++ xs)
          (sym (append_assoc h.buffer (entries entry h.queue) last))
      ∙ sym (append_assoc (all_logs h.handed) (h.buffer ++ entries entry h.queue) last)
      ∙ ap (λ xs. total entry h ++ xs) (sym (append-nil last))
  step-total (turn now t) h = elim (Bool-cases h.is_stopped) [
    | inl stopped ↦ simp stopped (sym (append-nil (total entry h)))
    | inr on ↦ simp on (
        flush-total now t (take_from entry batch_size flush_interval h.queue h)
        ∙ ap (λ (f : Fifo E). f.left ++ f.waiting)
            (view-take_from entry batch_size flush_interval h.queue h refl)
        ∙ sym (append-nil (total entry h)))
  ]
  step-total close h = sym (append-nil (total entry h))

  -- What a row of events makes of a handler.
  pub record IsFifo (h : Handler R E) (events : List (Event R)) : Type (ℓ ⊔ κ) where
    pub moves : Moves (view entry h) (view entry (run entry batch_size flush_interval events h))
    pub whole :
        total entry (run entry batch_size flush_interval events h)
        ≡ total entry h ++ entries entry (emitted events)
    pub small : IsSmall (run entry batch_size flush_interval events h)

  run-IsFifo-from :
      (h g : Handler R E) (events : List (Event R))
      → 1 ≤ batch_size
      → IsSmall g
      → Moves (view entry h) (view entry g)
      → Moves (view entry h) (view entry (run entry batch_size flush_interval events g))
        × (total entry (run entry batch_size flush_interval events g)
            ≡ total entry g ++ entries entry (emitted events))
        × IsSmall (run entry batch_size flush_interval events g)
  unfolding run
  run-IsFifo-from h g [] some_size k m = (m, sym (append-nil (total entry g)), k)
  run-IsFifo-from h g (e ∷ events) some_size k m =
      let next = step entry batch_size flush_interval e g in
      let (moves, whole, small) =
        run-IsFifo-from h next events some_size (step-IsSmall e g some_size k)
          (then_move m (step-Move entry batch_size flush_interval e g)) in
      (
        moves,
        whole
            ∙ ap (λ xs. xs ++ entries entry (emitted events)) (step-total e g)
            ∙ append_assoc (total entry g) (entries entry (emitted (e ∷ [])))
                (entries entry (emitted events))
            ∙ ap (λ xs. total entry g ++ xs) (emitted_first e events),
        small,
      )

  -- The handler is a first-in first-out queue in front of `_send_batch`: from its start, whatever
  -- records come, whenever the worker has its turns, and whenever it is closed, each step puts one
  -- entry at the end of what waits, or hands some of the first to `_send_batch`, or changes nothing.
  -- What was handed to `_send_batch` and what waits are together, in order, the entries of the records
  -- that came. This says nothing of what becomes of a batch there, which is dropped where the fleet
  -- has no token. A batch has at least one entry and at most the size of a batch, which is 1 or more,
  -- and fewer than that stay in the buffer.
  pub run-IsFifo :
      (now : ℕ) (events : List (Event R))
      → 1 ≤ batch_size
      → IsFifo (start entry batch_size flush_interval now) events
  run-IsFifo now events some_size =
      let first = start entry batch_size flush_interval now in
      let (moves, whole, small) =
        run-IsFifo-from first first events some_size (record { batches = tt; buffer = some_size })
          no_move in
      record { moves = moves; whole = whole; small = small }
