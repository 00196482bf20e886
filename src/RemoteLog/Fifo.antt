-- ===== src/RemoteLog/Fifo.antt =====
-- The handler as a first-in first-out queue in front of `_send_batch`.
use mathlib.Core.Path.{subst}
use rpinode.Prelude.{
  ℕ, ◌≡◌, refl, sym, ap, ◌∙◌, inl, inr, Bool, Option, none, some, List, [], ◌∷◌, ◌++◌, Bool-cases,
}
use mathlib.Core.List.{append_assoc, append-nil}
use rpinode.RemoteLog.{
  Batch, Handler, Event, emit, turn, close, as_entry, take_from, take_record, is_due, send_batch,
  flush, step,
}

-- The specification: what has left, and what waits, first come first.
pub record Fifo {ℓ} (E : Type ℓ) : Type ℓ where
  pub left : List E
  pub waiting : List E

-- What may happen to it: an entry comes last, or some of the first leave, or nothing.
pub data Move {ℓ} {E : Type ℓ} : Fifo E → Fifo E → Type ℓ where
  stays : (f : Fifo E) → Move f f
  comes :
      (left waiting : List E) (e : E)
      → Move
          (record { left = left; waiting = waiting })
          (record { left = left; waiting = waiting ++ e ∷ [] })
  leaves :
      (left go waiting : List E)
      → Move
          (record { left = left; waiting = go ++ waiting })
          (record { left = left ++ go; waiting = waiting })

-- A row of moves.
pub data Moves {ℓ} {E : Type ℓ} (f : Fifo E) : Fifo E → Type ℓ where
  no_move : Moves f f
  then_move : {g h : Fifo E} → Moves f g → Move g h → Moves f h

abbrev pub all_logs {ℓ} : {E : Type ℓ} → List (Batch E) → List E
all_logs [] = []
all_logs (b ∷ bs) = b.logs ++ all_logs bs

pub all_logs-append {ℓ} :
    {E : Type ℓ} (bs : List (Batch E)) (has_token : Bool) (logs : List E)
    → all_logs (send_batch has_token logs bs) ≡ all_logs bs ++ logs
all_logs-append bs has_token [] = sym (append-nil (all_logs bs))
all_logs-append [] has_token (e ∷ logs) = append-nil (e ∷ logs)
all_logs-append (b ∷ bs) has_token (e ∷ logs) =
    ap (λ xs. b.logs ++ xs) (all_logs-append bs has_token (e ∷ logs))
    ∙ sym (append_assoc b.logs (all_logs bs) (e ∷ logs))

-- The records that are put.
abbrev pub emitted {ℓ} : {R : Type ℓ} → List (Event R) → List R
emitted [] = []
emitted (emit r ∷ events) = r ∷ emitted events
emitted (turn now t ∷ events) = emitted events
emitted (close ∷ events) = emitted events

module _ {ℓ κ} {R : Type ℓ} {E : Type κ} (entry : R → Option E) where
  -- The entries of records, in order.
  abbrev pub entries : List R → List E
  entries [] = []
  entries (r ∷ rs) = as_entry (entry r) ++ entries rs

  pub entries-append :
      (rs : List R) (r : R) → entries (rs ++ r ∷ []) ≡ entries rs ++ as_entry (entry r)
  entries-append [] r = append-nil (as_entry (entry r))
  entries-append (q ∷ rs) r =
      ap (λ xs. as_entry (entry q) ++ xs) (entries-append rs r)
      ∙ sym (append_assoc (as_entry (entry q)) (entries rs) (as_entry (entry r)))

  -- The handler as a queue.
  abbrev pub view : Handler R E → Fifo E
  view h = record { left = all_logs h.handed; waiting = h.buffer ++ entries h.queue }

  -- Everything that came, in order.
  abbrev pub total : Handler R E → List E
  total h = all_logs h.handed ++ (h.buffer ++ entries h.queue)

  module _ (batch_size flush_interval : ℕ) where
    pub view-take_from :
        (queue : List R) (h : Handler R E)
        → h.queue ≡ queue
        → view (take_from entry batch_size flush_interval queue h) ≡ view h
    view-take_from [] h e = refl
    view-take_from (r ∷ queue) h e =
        ap (λ (w : List E). record { left = all_logs h.handed; waiting = w })
          (append_assoc h.buffer (as_entry (entry r)) (entries queue)
            ∙ ap (λ rs. h.buffer ++ entries rs) (sym e))

    pub flush-Move :
        (now : ℕ) (t : Bool) (h : Handler R E)
        → Move (view h) (view (flush entry batch_size flush_interval now t h))
    unfolding flush
    flush-Move now t h = elim (Bool-cases (is_due entry batch_size flush_interval now h)) [
      | inl due ↦ rw due (
          subst (λ (l : List E). Move (view h) (record { left = l; waiting = entries h.queue }))
            (sym (all_logs-append h.handed t h.buffer))
            (leaves (all_logs h.handed) h.buffer (entries h.queue)))
      | inr wait ↦ rw wait (stays (view h))
    ]

    entry-Move :
        (left waiting : List E) (o : Option E)
        → Move
            (record { left = left; waiting = waiting })
            (record { left = left; waiting = waiting ++ as_entry o })
    entry-Move left waiting none =
        subst
          (λ (w : List E).
            Move (record { left = left; waiting = waiting }) (record { left = left; waiting = w }))
          (sym (append-nil waiting)) (stays _)
    entry-Move left waiting (some e) = comes left waiting e

    -- Every event is a move.
    pub step-Move :
        (e : Event R) (h : Handler R E)
        → Move (view h) (view (step entry batch_size flush_interval e h))
    unfolding step take_record
    step-Move (emit r) h =
        subst (λ (w : List E). Move (view h) (record { left = all_logs h.handed; waiting = w }))
          (append_assoc h.buffer (entries h.queue) (as_entry (entry r))
            ∙ ap (λ xs. h.buffer ++ xs) (sym (entries-append h.queue r)))
          (entry-Move (all_logs h.handed) (h.buffer ++ entries h.queue) (entry r))
    step-Move (turn now t) h = elim (Bool-cases h.is_stopped) [
      | inl stopped ↦ simp stopped (stays (view h))
      | inr on ↦ simp on (
          subst
            (λ (v : Fifo E). Move v (
              view (
                flush entry batch_size flush_interval now t
                  (take_from entry batch_size flush_interval h.queue h))))
            (view-take_from h.queue h refl)
            (flush-Move now t (take_from entry batch_size flush_interval h.queue h)))
    ]
    step-Move close h = stays (view h)
