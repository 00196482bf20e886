-- ===== src/Modbus/Transaction.antt =====
-- `transaction` of src/services/modbus_tools.py: one request on a gateway, spaced from the one
-- before and retried. The lock makes the calls on one gateway follow each other, so a call is a
-- function of what the network does at each attempt. Times are in milliseconds;
-- the clock is read once where an attempt is over, for the reading after the loop as well.
pub mod Retries
use rpinode.Modbus.Error.{
  ModbusError, Exc, failed, no_serial_link, wrapped, modbus, index_error, struct_error, Result, ok,
  err, is_exception,
}
use rpinode.Modbus.Socket.{Link}
use rpinode.Modbus.Wire.{tcp_transaction, rtu_over_tcp_transaction}
use rpinode.Text.{Text, codes, is_digit, text_eq}
use rpinode.Prelude.{
  ℕ, zero, suc, ◌+◌, ◌-◌, Bool, true, false, ◌&&◌, ◌||◌, Option, none, some, List, [], ◌∷◌, ◌++◌,
  ltb, ◌==◌, if◌then◌else◌,
}

pub data Protocol : Type 0 where
  rtu_over_tcp rtu mstp tcp : Protocol

abbrev pub is_rtu : Protocol → Bool
is_rtu tcp = false
is_rtu _ = true

-- `re.match(r"^(\d{1,3}\.){3}\d{1,3}$", address)`, with the dots left to see and the digits of the
-- group so far; the final `$` also lets one line feed stand at the end.
dotted : ℕ → ℕ → Text → Bool
dotted dots seen [] = dots == 0 && ltb 0 seen
dotted dots seen (c ∷ s) =
    let digit = dotted dots (seen + 1) s in
    let dot = dotted (dots - 1) 0 s in
    if is_digit c
    then ltb seen 3 && digit
    else if c == b'.'
    then ltb 0 seen && (ltb 0 dots && dot)
    else c == 10 && (text_eq s [] && (dots == 0 && ltb 0 seen))

unfoldable pub is_ipv4 : Text → Bool
unfolding dotted text_eq
is_ipv4 s = dotted 3 0 s

-- What the network does at one attempt, and the time when the attempt is over.
pub record Attempt : Type 0 where
  pub link : Link
  pub over_at : ℕ

-- One attempt: an RTU line that is not reached over IP is not supported.
unfoldable pub attempt_once : Protocol → Text → Text → Link → Result (List ℕ)
attempt_once protocol address limit link =
    if is_rtu protocol
    then (if is_ipv4 address
        then rtu_over_tcp_transaction limit link
        else err (modbus no_serial_link))
    else tcp_transaction limit link

-- What a call leaves: its result, how many attempts it made, its pauses, and the time that is
-- kept for the next call on the gateway.
pub record Txn : Type 0 where
  pub result : Result (List ℕ)
  pub attempts : ℕ
  pub pauses : List ℕ
  pub last_time : ℕ

-- The other exceptions are wrapped with their text.
abbrev pub as_modbus : Exc → ModbusError
as_modbus (modbus e) = e
as_modbus index_error = wrapped (codes "index out of range")
as_modbus struct_error = wrapped (codes "unpack requires a buffer of 5 bytes")

-- An error of the slave itself is raised at once; any other error of an attempt is kept.
unfoldable pub is_final : Exc → Bool
is_final (modbus e) = is_exception e
is_final index_error = false
is_final struct_error = false

-- `last_error or ModbusError(…)`
abbrev pub last_or_failed : Option ModbusError → ModbusError
last_or_failed none = failed
last_or_failed (some e) = e

-- A pause of 150 ms stands between two attempts.
abbrev pub pause_before_retry : ℕ → List ℕ
pause_before_retry zero = []
pause_before_retry (suc left) = 150 ∷ []

module _ (run : Link → Result (List ℕ)) (network : ℕ → Attempt) where
  -- `for attempt in range(retries + 1)`, with the attempts left after the one at hand.
  unfoldable pub retry : ℕ → ℕ → Option ModbusError → List ℕ → ℕ → Txn
  retry zero k last pauses time = record {
    result = err (modbus (last_or_failed last));
    attempts = k;
    pauses = pauses;
    last_time = time;
  }
  retry (suc left) k last pauses time =
      let a = network k in
      elim (run a.link) [
        | ok body ↦ record {
          result = ok body;
          attempts = k + 1;
          pauses = pauses;
          last_time = a.over_at;
        }
        | err e ↦
            let again =
              retry left (k + 1) (some (as_modbus e)) (pauses ++ pause_before_retry left)
                a.over_at in
            if is_final e
            then record { result = err e; attempts = k + 1; pauses = pauses; last_time = a.over_at }
            else again
      ]

-- `if elapsed < 0.060: time.sleep(0.060 - elapsed)`, with the time of the last call on the gateway
-- and the time of the first look at the clock.
unfoldable pub spacing : ℕ → ℕ → List ℕ
spacing last now = if ltb now (last + 60) then (last + 60 - now) ∷ [] else []

-- The gateway's line of `_LAST_TXN_TIME` (0 at first), and the clock.
pub record Gateway : Type 0 where
  pub last_time : ℕ
  pub now : ℕ

unfoldable pub transaction : Protocol → Text → Text → ℕ → Gateway → (ℕ → Attempt) → Txn
transaction protocol address limit retries gateway network =
    retry (attempt_once protocol address limit) network (suc retries) 0 none
      (spacing gateway.last_time gateway.now) gateway.last_time
