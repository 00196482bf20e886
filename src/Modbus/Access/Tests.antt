-- ===== src/Modbus/Access/Tests.antt =====
-- Reads of a slave that answers every request alike, and a transaction that is retried.
use rpinode.Modbus.Access.{Slave, request, read_registers, read_bits}
use rpinode.Modbus.Access.Registers.{
  registers_reply, Answers, read_registers-length, read_registers-reply,
}
use rpinode.Modbus.Access.Bits.{IsRead, read_bits-IsRead}
use rpinode.Modbus.Error.{modbus, exception, ok, err}
use rpinode.Modbus.Socket.{chunk, refused, opened, time_limit}
use rpinode.Modbus.Socket.Delivery.{ahead}
use rpinode.Modbus.Transaction.{tcp, Attempt, Gateway, attempt_once, spacing, transaction}
use rpinode.Modbus.Transaction.Retries.{Ends, transaction-Ends, transaction-exception}
use rpinode.Modbus.Wire.{check_body}
use rpinode.Modbus.Wire.Replies.{tcp_transaction-reply}
use rpinode.Text.{Text, codes}
use rpinode.Prelude.{
  ℕ, zero, suc, ◌≤◌, ◌≡◌, refl, ◌⊎◌, inl, Bool, List, [], ◌∷◌, length, arith, ◌∙◌,
}

abbrev gateway : Gateway
gateway = record { last_time = 1000; now = 1020 }

-- A slave behind TCP that sends `reply` to whatever it is asked.
abbrev answering : List ℕ → Slave
answering reply = record {
  protocol = tcp;
  address = codes "192.168.1.20";
  unit = 1;
  limit = codes "1.5";
  gateway = gateway;
  network = λ asked k. record { link = opened (chunk reply ∷ []); over_at = 1100 };
}

-- The header of a reply of n bytes, and the reply.
abbrev framed : ℕ → List ℕ → List ℕ
framed n body = 0 ∷ 1 ∷ 0 ∷ 0 ∷ 0 ∷ n ∷ 1 ∷ body

-- Two registers of values 258 and 65535.
abbrev two_registers : Slave
two_registers = answering (framed 7 (3 ∷ 4 ∷ 1 ∷ 2 ∷ 255 ∷ 255 ∷ []))

two_registers-Answers :
    Answers two_registers (request 3 40 2) (registers_reply 3 (258 ∷ 65535 ∷ []))
unfolding ahead
two_registers-Answers = record {
  over_tcp = refl;
  events = chunk (framed 7 (3 ∷ 4 ∷ 1 ∷ 2 ∷ 255 ∷ 255 ∷ [])) ∷ [];
  arrives = refl;
  t1 = 0;
  t0 = 1;
  p1 = 0;
  p0 = 0;
  unit = 1;
  more = [];
  reply = refl;
}

read_registers-reply_example : read_registers two_registers 3 40 2 ≡ ok (258 ∷ 65535 ∷ [])
read_registers-reply_example =
    read_registers-reply two_registers 3 40 (258 ∷ 65535 ∷ []) (inl refl) (omega arith)
      (omega arith) two_registers-Answers

abbrev holding : ℕ
holding = 3

read_registers-length_example :
    ((holding ≡ 3) ⊎ (holding ≡ 4)) × (1 ≤ 2) × (2 ≤ 125) × (length {A = ℕ} (258 ∷ 65535 ∷ []) ≡ 2)
read_registers-length_example =
    read_registers-length two_registers 3 40 2 (258 ∷ 65535 ∷ []) read_registers-reply_example

-- Twelve bits are asked for, and one byte comes back.
abbrev one_byte : Slave
one_byte = answering (framed 4 (1 ∷ 1 ∷ 5 ∷ []))

one_byte-Answers : Answers one_byte (request 1 0 12) (1 ∷ 1 ∷ 5 ∷ [])
unfolding ahead
one_byte-Answers = record {
  over_tcp = refl;
  events = chunk (framed 4 (1 ∷ 1 ∷ 5 ∷ [])) ∷ [];
  arrives = refl;
  t1 = 0;
  t0 = 1;
  p1 = 0;
  p0 = 0;
  unit = 1;
  more = [];
  reply = refl;
}

read_bits-IsRead_example :
    (bits : List Bool) × (read_bits one_byte 1 0 12 ≡ ok bits) × IsRead 12 (5 ∷ []) bits
read_bits-IsRead_example =
    read_bits-IsRead one_byte 1 0 12 1 (5 ∷ []) (inl refl) (omega arith) (omega arith) refl
      (omega arith) one_byte-Answers

-- The first attempt runs into the time limit, the second brings an exception of the slave.
abbrev busy : ℕ → Attempt
busy zero = record { link = refused time_limit; over_at = 1100 }
busy (suc k) = record { link = opened (chunk (framed 3 (0x83 ∷ 6 ∷ [])) ∷ []); over_at = 1300 }

abbrev address : Text
address = codes "192.168.1.20"

abbrev limit : Text
limit = codes "1.5"

transaction-Ends_example :
    Ends
      (attempt_once tcp address limit)
      busy
      3
      0
      (spacing 1000 1020)
      (transaction tcp address limit 2 gateway busy)
transaction-Ends_example = transaction-Ends tcp address limit 2 gateway busy

-- The exception comes at once.
abbrev refusing : ℕ → Attempt
refusing k = busy 1

refusing-exception : attempt_once tcp address limit (refusing 0).link ≡ err (modbus (exception 6))
unfolding attempt_once check_body ahead
refusing-exception =
    tcp_transaction-reply limit 0 1 0 0 1 (0x83 ∷ 6 ∷ []) [] (chunk (framed 3 (0x83 ∷ 6 ∷ [])) ∷ [])
      (omega arith) refl
    ∙ refl

transaction-exception_example : transaction tcp address limit 2 gateway refusing ≡ record {
  result = err (modbus (exception 6));
  attempts = 1;
  pauses = spacing 1000 1020;
  last_time = 1300;
}
transaction-exception_example =
    transaction-exception tcp address limit 2 gateway refusing 6 refusing-exception
