-- ===== src/Modbus/Wire.antt =====
-- The two framings of src/services/modbus_tools.py: MBAP over TCP, and RTU frames over TCP with a
-- checksum.
pub mod Replies
pub mod Corrupt
mod Tests
use rpinode.Checksum.{crc_from}
use rpinode.Modbus.Error.{
  ModbusError, bad_mbap, empty_reply, rtu_too_short, exception, bad_crc, modbus, Result, ok, err,
  ◌>>=◌,
}
use rpinode.Modbus.Socket.{Event, Link, refused, opened, raise_fault, recv_exact, recv_some}
use rpinode.Text.{Text}
use rpinode.Prelude.{
  ℕ, zero, suc, ◌+◌, ◌-◌, ◌*◌, ◌/◌, ◌%◌, ◌≡◌, ◌||◌, Bool, List, [], ◌∷◌, ◌++◌, length, take, drop,
  get_or, leb, ltb, ◌==◌, if◌then◌else◌,
}

-- `struct.pack(">H", n)` and `struct.unpack(">H", …)` on two bytes.
abbrev pub be16 : ℕ → List ℕ
be16 n = n / 256 % 256 ∷ n % 256 ∷ []

abbrev pub from_be16 : ℕ → ℕ → ℕ
from_be16 hi lo = hi * 256 + lo

-- `crc16`
unfoldable pub crc16 : List ℕ → ℕ
unfolding crc_from
crc16 bytes = crc_from 0xa001 0xffff bytes

-- `func & 0x80`
abbrev pub is_error_reply : ℕ → Bool
is_error_reply func = func / 128 % 2 == 1

-- The end of both transactions: an empty body or a slave's exception is raised.
unfoldable pub check_body : List ℕ → Result (List ℕ)
check_body [] = err (modbus empty_reply)
check_body (func ∷ rest) =
    if is_error_reply func then err (modbus (exception (get_or rest 0 0))) else ok (func ∷ rest)

-- The request of `_txn_on_socket`.
unfoldable pub mbap_request : ℕ → ℕ → List ℕ → List ℕ
mbap_request unit tid pdu =
    be16 (tid % 65536) ++ (be16 0 ++ (be16 (length pdu + 1) ++ (unit % 256 ∷ pdu)))

module _ (limit : Text) where
  -- `_txn_on_socket`, after the request was sent.
  unfoldable pub txn_on_socket : List Event → Result (List ℕ)
  txn_on_socket events = recv_exact limit 7 events >>= λ first.
      let len = from_be16 (get_or first.0 4 0) (get_or first.0 5 0) in
      if ltb len 1
      then err (modbus bad_mbap)
      else (recv_exact limit (len - 1) first.1 >>= λ second. check_body second.0)

  -- `_tcp_transaction`
  unfoldable pub tcp_transaction : Link → Result (List ℕ)
  tcp_transaction (refused f) = err (modbus (raise_fault limit f))
  tcp_transaction (opened events) = txn_on_socket events

-- The request of `_rtu_over_tcp_transaction`: the checksum goes low byte first.
unfoldable pub rtu_request : ℕ → List ℕ → List ℕ
unfolding crc16
rtu_request unit pdu =
    let raw = unit % 256 ∷ pdu in raw ++ (crc16 raw % 256 ∷ crc16 raw / 256 % 256 ∷ [])

-- The checks on a whole response: its length, its checksum, its body.
unfoldable pub check_rtu : List ℕ → Result (List ℕ)
check_rtu full =
    let n = length full in
    let got = get_or full (n - 1) 0 * 256 + get_or full (n - 2) 0 in
    let want = crc16 (take (n - 2) full) in
    if ltb n 4
    then err (modbus rtu_too_short)
    else if got == want
    then check_body (drop 1 (take (n - 2) full))
    else err (modbus (bad_crc got want))

module _ (limit : Text) where
  -- How much of a response follows its first two bytes depends on the function code.
  unfoldable pub rtu_response : List Event → Result (List ℕ)
  rtu_response events = recv_exact limit 2 events >>= λ hdr.
      let fc = get_or hdr.0 1 0 in
      if is_error_reply fc
      then (recv_exact limit 3 hdr.1 >>= λ rest. ok (hdr.0 ++ rest.0))
      else if fc == 1 || fc == 2 || fc == 3 || fc == 4
      then (recv_exact limit 1 hdr.1 >>= λ size.
          recv_exact limit (get_or size.0 0 0 + 2) size.1 >>= λ rest.
          ok (hdr.0 ++ (size.0 ++ rest.0)))
      else if fc == 5 || fc == 6 || fc == 15 || fc == 16
      then (recv_exact limit 6 hdr.1 >>= λ rest. ok (hdr.0 ++ rest.0))
      else (recv_some limit 1024 hdr.1 >>= λ rest. ok (hdr.0 ++ rest.0))

  -- `_rtu_over_tcp_transaction`
  unfoldable pub rtu_over_tcp_transaction : Link → Result (List ℕ)
  rtu_over_tcp_transaction (refused f) = err (modbus (raise_fault limit f))
  rtu_over_tcp_transaction (opened events) = rtu_response events >>= check_rtu
