-- ===== src/Modbus/Wire/Tests.antt =====
-- The socket, the framings and the error kinds on small inputs.
use rpinode.Checksum.{shift_bits, shift_bit}
use rpinode.Modbus.Error.{
  Exc, exception, message, bad_crc, modbus, ok, err, illegal, classify_modbus_error,
}
use rpinode.Modbus.Error.Exceptions.{classify_modbus_error-exception}
use rpinode.Modbus.Socket.{Event, chunk, fault, os_error, opened, recv_exact}
use rpinode.Modbus.Socket.Delivery.{ahead, recv_exact-ahead, recv_exact_short}
use rpinode.Modbus.Wire.{crc16, check_body, tcp_transaction, rtu_over_tcp_transaction}
use rpinode.Modbus.Wire.Corrupt.{with_crc}
use rpinode.Modbus.Wire.Replies.{
  write, rtu_frame, tcp_transaction-reply, rtu_over_tcp_transaction-reply,
  rtu_over_tcp_transaction_one_byte,
}
use rpinode.Text.{Text, codes, starts_with}
use rpinode.Prelude.{ℕ, ◌≡◌, refl, List, [], ◌∷◌, take, drop, inl, inr, arith}

-- The checksum of a read of the first register of slave 1.
crc16_example : crc16 (1 ∷ 3 ∷ 0 ∷ 0 ∷ 0 ∷ 1 ∷ []) ≡ 0x0a84
unfolding crc16 shift_bits shift_bit
crc16_example = refl

-- A checksum error of a real frame that the probe counts as an illegal address, because the
-- printed checksum holds the two digits of an illegal address.
bad_crc_illegal : classify_modbus_error (message (bad_crc 0x0a84 0x0284)) ≡ illegal
unfolding classify_modbus_error message starts_with
bad_crc_illegal = refl

classify_modbus_error-exception_example : classify_modbus_error (message (exception 102)) ≡ illegal
classify_modbus_error-exception_example = classify_modbus_error-exception 102 (omega arith)

abbrev limit : Text
limit = codes "1.5"

abbrev events : List Event
events = chunk (1 ∷ 2 ∷ []) ∷ chunk (3 ∷ 4 ∷ 5 ∷ []) ∷ fault (os_error (codes "reset")) ∷ []

ahead_events : ahead events ≡ 1 ∷ 2 ∷ 3 ∷ 4 ∷ 5 ∷ []
unfolding ahead
ahead_events = refl

recv_exact-ahead_example :
    (rest : List Event) × (recv_exact limit 3 events ≡ ok (take 3 (ahead events), rest))
    × (ahead rest ≡ drop 3 (ahead events))
recv_exact-ahead_example = recv_exact-ahead limit 3 events (rw ahead_events (omega arith))

recv_exact_short_example : (e : Exc) × (recv_exact limit 6 events ≡ err e)
recv_exact_short_example = recv_exact_short limit 6 events (rw ahead_events (omega arith))

-- The reply to a read of one register of value 258, in two pieces.
abbrev body : List ℕ
body = 3 ∷ 2 ∷ 1 ∷ 2 ∷ []

abbrev tcp_events : List Event
tcp_events = chunk (0 ∷ 1 ∷ 0 ∷ []) ∷ chunk (0 ∷ 0 ∷ 5 ∷ 1 ∷ 3 ∷ 2 ∷ 1 ∷ 2 ∷ []) ∷ []

ahead-tcp_events : ahead tcp_events ≡ 0 ∷ 1 ∷ 0 ∷ 0 ∷ 0 ∷ 5 ∷ 1 ∷ 3 ∷ 2 ∷ 1 ∷ 2 ∷ []
unfolding ahead
ahead-tcp_events = refl

tcp_transaction-reply_example : tcp_transaction limit (opened tcp_events) ≡ check_body body
tcp_transaction-reply_example =
    tcp_transaction-reply limit 0 1 0 0 1 body [] tcp_events (omega arith) ahead-tcp_events

-- The echo of a write of the value 7 to register 2 of slave 1, in one piece.
abbrev echoed : List ℕ
echoed = 6 ∷ 0 ∷ 2 ∷ 0 ∷ 7 ∷ []

abbrev rtu_events : List Event
rtu_events = chunk (rtu_frame 1 echoed) ∷ []

ahead-rtu_events : ahead rtu_events ≡ rtu_frame 1 echoed
unfolding ahead
ahead-rtu_events = refl

rtu_over_tcp_transaction-reply_example :
    rtu_over_tcp_transaction limit (opened rtu_events) ≡ check_body echoed
rtu_over_tcp_transaction-reply_example =
    rtu_over_tcp_transaction-reply limit 1 echoed [] rtu_events (write 6 0 2 0 7 (inl (inr refl)))
      ahead-rtu_events

-- The echo with the value 9, and the checksum of the one with the value 7.
abbrev changed : List Event
changed = chunk (with_crc (1 ∷ 6 ∷ 0 ∷ 2 ∷ 0 ∷ 9 ∷ []) (crc16 (1 ∷ echoed))) ∷ []

ahead-changed :
    ahead changed ≡ with_crc (1 ∷ 6 ∷ 0 ∷ 2 ∷ 0 ∷ 9 ∷ []) (crc16 (1 ∷ 6 ∷ 0 ∷ 2 ∷ 0 ∷ 7 ∷ []))
unfolding ahead
ahead-changed = refl

rtu_over_tcp_transaction_one_byte_example :
    rtu_over_tcp_transaction limit (opened changed)
    ≡ err
        (modbus (bad_crc (crc16 (1 ∷ 6 ∷ 0 ∷ 2 ∷ 0 ∷ 7 ∷ [])) (crc16 (1 ∷ 6 ∷ 0 ∷ 2 ∷ 0 ∷ 9 ∷ []))))
rtu_over_tcp_transaction_one_byte_example =
    rtu_over_tcp_transaction_one_byte limit 1 (6 ∷ 0 ∷ 2 ∷ 0 ∷ 9 ∷ []) [] (1 ∷ 6 ∷ 0 ∷ 2 ∷ 0 ∷ [])
      [] 7 9 changed (write 6 0 2 0 9 (inl (inr refl))) refl
      (omega arith, (omega arith, (omega arith, (omega arith, (omega arith, tt))))) tt (omega arith)
      (omega arith) (omega arith) ahead-changed
