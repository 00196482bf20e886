-- ===== src/RemoteLog.antt =====
-- `FleetLogHandler` of src/services/remote_log.py: other threads put records in a queue, the worker
-- takes them one by one, makes entries of them and hands them to the fleet in batches. Times are in
-- seconds. How a record becomes an entry is an argument; a record for which that raises is dropped.
pub mod Fifo
pub mod Runs
mod Tests
use rpinode.Prelude.{
  ℕ, zero, suc, ◌+◌, ◌≡◌, Bool, true, false, ◌&&◌, ◌||◌, not, Option, none, some, List, [], ◌∷◌,
  ◌++◌, leb, length, if◌then◌else◌,
}

-- A batch that `_send_batch` was given, and whether the fleet had a token then: without one, and when
-- the sending raises, the batch is lost without a word.
pub record Batch {ℓ} (E : Type ℓ) : Type ℓ where
  pub has_token : Bool
  pub logs : List E

pub record Handler {ℓ κ} (R : Type ℓ) (E : Type κ) : Type (ℓ ⊔ κ) where
  pub queue : List R
  pub buffer : List E
  pub last_flush : ℕ
  pub is_stopped : Bool
  pub handed : List (Batch E)

-- What happens to a handler: a record, a turn of the worker at a time, where the wait for a record has
-- ended, or the end.
pub data Event {ℓ} (R : Type ℓ) : Type ℓ where
  emit : R → Event R
  turn : ℕ → Bool → Event R
  close : Event R

-- The entry of a record, if there is one, at the end of the others.
abbrev pub as_entry {ℓ} : {E : Type ℓ} → Option E → List E
as_entry none = []
as_entry (some e) = e ∷ []

abbrev pub is_empty {ℓ} : {E : Type ℓ} → List E → Bool
is_empty [] = true
is_empty (e ∷ es) = false

-- `_send_batch`, which returns at once without logs.
abbrev pub send_batch {ℓ} : {E : Type ℓ} → Bool → List E → List (Batch E) → List (Batch E)
send_batch has_token [] handed = handed
send_batch has_token (e ∷ logs) handed =
    handed ++ record { has_token = has_token; logs = e ∷ logs } ∷ []

module _ {ℓ κ} {R : Type ℓ} {E : Type κ} (entry : R → Option E)
    (batch_size flush_interval : ℕ) where
  -- `self.queue.get(timeout=1.0)` and the formatting.
  abbrev pub take_from : List R → Handler R E → Handler R E
  take_from [] h = h
  take_from (r ∷ queue) h = record h { queue = queue; buffer = h.buffer ++ as_entry (entry r) }

  unfoldable pub take_record : Handler R E → Handler R E
  take_record h = take_from h.queue h

  -- The test for a batch that is full or old enough.
  abbrev pub is_due : ℕ → Handler R E → Bool
  is_due now h =
      leb batch_size (length h.buffer)
      || (not (is_empty h.buffer) && leb (h.last_flush + flush_interval) now)

  unfoldable pub flush : ℕ → Bool → Handler R E → Handler R E
  flush now has_token h =
      if is_due now h
      then record h {
        handed = send_batch has_token h.buffer h.handed;
        buffer = [];
        last_flush = now;
      }
      else h

  unfoldable pub step : Event R → Handler R E → Handler R E
  step (emit r) h = record h { queue = h.queue ++ r ∷ [] }
  step (turn now has_token) h = if h.is_stopped then h else flush now has_token (take_record h)
  step close h = record h { is_stopped = true }

  unfoldable pub run : List (Event R) → Handler R E → Handler R E
  run [] h = h
  run (e ∷ events) h = run events (step e h)

  -- `__init__` at a time.
  abbrev pub start : ℕ → Handler R E
  start now = record { queue = []; buffer = []; last_flush = now; is_stopped = false; handed = [] }
