-- ===== src/Modbus/Socket.antt =====
-- The receiving half of a socket, and `_recv_exact` of src/services/modbus_tools.py.
pub mod Delivery
use rpinode.Modbus.Error.{ModbusError, closed, timed_out, no_connection, modbus, Result, ok, err}
use rpinode.Text.{Text}
use rpinode.Prelude.{
  ℕ, zero, suc, ◌+◌, ◌-◌, ◌≤◌, ◌≡◌, List, [], ◌∷◌, ◌++◌, length, take, drop, leb, ◌==◌,
  if◌then◌else◌,
}

-- Why a call of the socket raises: the time limit, or an error of the operating system.
pub data Fault : Type 0 where
  time_limit : Fault
  os_error : Text → Fault

-- What comes next on a connection: some bytes (none: the peer has closed it), or a fault.
pub data Event : Type 0 where
  chunk : List ℕ → Event
  fault : Fault → Event

-- A connection that could not be opened or written to, or one with what it will deliver.
pub data Link : Type 0 where
  refused : Fault → Link
  opened : List Event → Link

module _ (limit : Text) where
  -- The two handlers that every transaction has round its socket.
  abbrev pub raise_fault : Fault → ModbusError
  raise_fault time_limit = timed_out limit
  raise_fault (os_error reason) = no_connection reason

  abbrev pub rest_of : List ℕ → List Event → List Event
  rest_of [] events = events
  rest_of (b ∷ bs) events = chunk (b ∷ bs) ∷ events

  -- `while len(buf) < n`: `sock.recv(n - len(buf))` hands over at most what is asked for, and
  -- keeps the rest. A connection that delivers nothing more ends by the time limit.
  recv_from : List ℕ → ℕ → List Event → Result (List ℕ × List Event)
  recv_from buf zero events = ok (buf, events)
  recv_from buf (suc need) [] = err (modbus (timed_out limit))
  recv_from buf (suc need) (fault f ∷ events) = err (modbus (raise_fault f))
  recv_from buf (suc need) (chunk [] ∷ events) = err (modbus closed)
  recv_from buf (suc need) (chunk (b ∷ bs) ∷ events) =
      let more = recv_from (buf ++ b ∷ bs) (need - length bs) events in
      if leb (suc need) (length (b ∷ bs))
      then ok (buf ++ take (suc need) (b ∷ bs), rest_of (drop (suc need) (b ∷ bs)) events)
      else more

  unfoldable pub recv_exact : ℕ → List Event → Result (List ℕ × List Event)
  unfolding recv_from
  recv_exact n events = recv_from [] n events

  -- `sock.recv(1024)`
  unfoldable pub recv_some : ℕ → List Event → Result (List ℕ × List Event)
  recv_some most [] = err (modbus (timed_out limit))
  recv_some most (fault f ∷ events) = err (modbus (raise_fault f))
  recv_some most (chunk bs ∷ events) = ok (take most bs, rest_of (drop most bs) events)
