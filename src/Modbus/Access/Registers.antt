-- ===== src/Modbus/Access/Registers.antt =====
-- Reading registers: what a success means, and which values a slave's reply becomes.
use rpinode.Modbus.Access.{
  Slave, ask, sent, request, reply_data, words, in_range, max_registers, read_registers,
}
use rpinode.Modbus.Error.{Result, ok, err, modbus, inconsistent_reply, ◌>>=◌}
use rpinode.Modbus.Socket.{opened, Event}
use rpinode.Modbus.Socket.Delivery.{ahead}
use rpinode.Modbus.Transaction.{tcp, attempt_once}
use rpinode.Modbus.Transaction.Retries.{transaction_first}
use rpinode.Modbus.Wire.{mbap_request, check_body}
use rpinode.Modbus.Wire.Replies.{tcp_transaction-reply}
use rpinode.Prelude.{
  ℕ, zero, suc, ◌+◌, ◌*◌, ◌/◌, ◌%◌, ◌≤◌, ◌<◌, ◌≡◌, refl, ◌∙◌, ap, ap₂, ◌⊎◌, true, ◌||◌, List, [],
  ◌∷◌, ◌++◌, length, take, ◌==◌, arith, take_all, if◌then◌else◌, ==_refl,
}

-- What a slave answers to a read of registers: the function, the number of bytes, the values.
abbrev pub pack_words : List ℕ → List ℕ
pack_words [] = []
pack_words (v ∷ vs) = v / 256 ∷ v % 256 ∷ pack_words vs

abbrev pub registers_reply : ℕ → List ℕ → List ℕ
registers_reply function vs = function ∷ length (pack_words vs) ∷ pack_words vs

length-pack_words : (vs : List ℕ) → length (pack_words vs) ≡ length vs * 2
length-pack_words [] = refl
length-pack_words (v ∷ vs) = omega (arith, length-pack_words vs)

words-pack_words : (vs : List ℕ) → words (pack_words vs) ≡ vs
unfolding words
words-pack_words [] = refl
words-pack_words (v ∷ vs) = ap₂ ◌∷◌ (omega arith) (words-pack_words vs)

length-words : (n : ℕ) (found : List ℕ) → length found ≡ n * 2 → length (words found) ≡ n
unfolding words
length-words zero [] h = refl
length-words zero (hi ∷ found) h = absurd (omega arith)
length-words (suc n) [] h = absurd (omega arith)
length-words (suc n) (hi ∷ []) h = absurd (omega arith)
length-words (suc n) (hi ∷ lo ∷ found) h = ap suc (length-words n found (omega arith))

-- The end of a read, on the result of its transaction.
abbrev decode : ℕ → Result (List ℕ) → Result (List ℕ)
decode count r = do
  body ← r
  found ← reply_data body
  if length found == count * 2 then ok (words found) else err (modbus inconsistent_reply)

length-decode :
    (count : ℕ) (r : Result (List ℕ)) (vs : List ℕ) → decode count r ≡ ok vs → length vs ≡ count
unfolding reply_data
length-decode count (err e) vs h = cc
length-decode count (ok []) vs h = cc
length-decode count (ok (func ∷ [])) vs h = cc
length-decode count (ok (func ∷ n ∷ rest)) vs h = ground (arith, length-words count (take n rest))

-- A read that succeeds was one of function 3 or 4 with 1 to 125 registers, and returns exactly as
-- many values as registers were asked for.
pub read_registers-length :
    (s : Slave) (function address count : ℕ) (vs : List ℕ)
    → read_registers s function address count ≡ ok vs
    → ((function ≡ 3) ⊎ (function ≡ 4)) × (1 ≤ count) × (count ≤ 125) × (length vs ≡ count)
unfolding read_registers
read_registers-length s function address count vs h =
    ground (arith, length-decode count (ask s (request function address count)) vs)

-- A slave behind TCP that answers the first attempt: its reply, with whatever transaction,
-- protocol and unit it names and whatever follows it, arrives in pieces of any size.
pub record Answers (s : Slave) (pdu body : List ℕ) : Type 0 where
  pub over_tcp : s.protocol ≡ tcp
  pub events : List Event
  pub arrives : (s.network (mbap_request s.unit 1 pdu) 0).link ≡ opened events
  pub t1 : ℕ
  pub t0 : ℕ
  pub p1 : ℕ
  pub p0 : ℕ
  pub unit : ℕ
  pub more : List ℕ
  pub reply :
      ahead events
      ≡ (t1 ∷ t0 ∷ p1 ∷ p0 ∷ (length body + 1) / 256 ∷ (length body + 1) % 256 ∷ unit ∷ [])
        ++ (body ++ more)

pub ask-Answers :
    (s : Slave) (pdu body : List ℕ)
    → Answers s pdu body
    → length body < 65535
    → check_body body ≡ ok body
    → ask s pdu ≡ ok body
unfolding ask attempt_once
ask-Answers s pdu body a small good =
    transaction_first s.protocol s.address s.limit 2 s.gateway
      (s.network (sent s.protocol s.unit pdu)) body
      (rw (a.over_tcp, a.arrives)
        (tcp_transaction-reply s.limit a.t1 a.t0 a.p1 a.p0 a.unit body a.more a.events small a.reply
          ∙ good))

-- Reading 1 to 125 registers by function 3 or 4 from a slave behind TCP, whose reply to the first
-- attempt holds values in the number that was asked for, returns these values.
pub read_registers-reply :
    (s : Slave) (function address : ℕ) (vs : List ℕ)
    → (function ≡ 3) ⊎ (function ≡ 4)
    → 1 ≤ length vs
    → length vs ≤ 125
    → Answers s (request function address (length vs)) (registers_reply function vs)
    → read_registers s function address (length vs) ≡ ok vs
unfolding read_registers reply_data check_body
read_registers-reply s function address vs f few many a =
    let n : length (pack_words vs) ≡ length vs * 2 = length-pack_words vs in
    let plain : check_body (registers_reply function vs) ≡ ok (registers_reply function vs) =
      ground arith in
    let asked : ask s (request function address (length vs)) ≡ ok (registers_reply function vs) =
      ask-Answers s _ _ a (omega arith) plain in
    let known : (function == 3 || function == 4) ≡ true = ground arith in
    let in_bounds : in_range (length vs) max_registers ≡ true = ground arith in
    rw (known, in_bounds, asked, take_all (pack_words vs), n, ==_refl, words-pack_words)
