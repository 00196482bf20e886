-- ===== src/Modbus/Wire/Replies.antt =====
-- What the two framings make of a well-formed reply, however the connection cuts it.
use rpinode.Modbus.Error.{ok, err, modbus, bad_crc}
use rpinode.Modbus.Socket.{Event, recv_exact, opened}
use rpinode.Modbus.Socket.Delivery.{ahead, recv_exact-ahead}
use rpinode.Modbus.Wire.{
  crc16, check_body, check_rtu, txn_on_socket, tcp_transaction, rtu_response,
  rtu_over_tcp_transaction, is_error_reply,
}
use rpinode.Modbus.Wire.Corrupt.{with_crc, check_rtu-with_crc, IsByte, check_rtu_one_byte}
use rpinode.Text.{Text}
use rpinode.Prelude.{
  ℕ, ◌+◌, ◌-◌, ◌*◌, ◌/◌, ◌%◌, ◌≤◌, ◌<◌, ◌≡◌, ◌≢◌, All, ◌∙◌, ap, List, [], ◌∷◌, ◌++◌, length, take,
  drop, ltb, ◌⊎◌, arith, length-append, le→not_ltb, ==_refl, take-length-append, drop-length-append,
  true, false, ◌==◌, ◌||◌,
}

module _ (limit : Text) where
  -- The next bytes, when it is known what they are.
  recv_exact_known :
      (xs ys : List ℕ) (events : List Event)
      → ahead events ≡ xs ++ ys
      → (rest : List Event) × (recv_exact limit (length xs) events ≡ ok (xs, rest))
        × (ahead rest ≡ ys)
  recv_exact_known xs ys events h =
      let (rest, e, left) =
        recv_exact-ahead limit (length xs) events
          (omega (arith, ap length h, length-append xs ys)) in
      (
        rest,
        e ∙ ap (λ (t : List ℕ). ok (t, rest)) (ap (take (length xs)) h ∙ take-length-append xs ys),
        left ∙ ap (drop (length xs)) h ∙ drop-length-append xs ys,
      )

  -- A TCP reply with a body of less than 65535 bytes: whatever its transaction, protocol and unit,
  -- however the connection cuts it and whatever follows, the body that the header's length announces
  -- is judged by its function code alone.
  pub tcp_transaction-reply :
      (t1 t0 p1 p0 unit : ℕ) (body more : List ℕ) (events : List Event)
      → length body < 65535
      → ahead events
        ≡ (t1 ∷ t0 ∷ p1 ∷ p0 ∷ (length body + 1) / 256 ∷ (length body + 1) % 256 ∷ unit ∷ [])
          ++ (body ++ more)
      → tcp_transaction limit (opened events) ≡ check_body body
  unfolding tcp_transaction txn_on_socket
  tcp_transaction-reply t1 t0 p1 p0 unit body more events small h =
      let hdr : List ℕ =
        t1 ∷ t0 ∷ p1 ∷ p0 ∷ (length body + 1) / 256 ∷ (length body + 1) % 256 ∷ unit ∷ [] in
      let (rest, e, left) = recv_exact_known hdr (body ++ more) events h in
      let (rest', e', left') = recv_exact_known body more rest left in
      let n : (length body + 1) / 256 * 256 + (length body + 1) % 256 ≡ length body + 1 =
        omega arith in
      let m : length body + 1 - 1 ≡ length body = omega arith in
      let big : ltb (length body + 1) 1 ≡ false = le→not_ltb 1 (length body + 1) (omega arith) in
      rw (e, n, big, m, e')

-- The shapes of an RTU reply's body: a read's data behind their count, a write's echo of four
-- bytes, an exception's code.
pub data IsRtuBody : List ℕ → Type 0 where
  read :
      (func count : ℕ) (data_bytes : List ℕ)
      → ((func ≡ 1) ⊎ (func ≡ 2)) ⊎ ((func ≡ 3) ⊎ (func ≡ 4))
      → length data_bytes ≡ count
      → IsRtuBody (func ∷ count ∷ data_bytes)
  write :
      (func a b c d : ℕ)
      → ((func ≡ 5) ⊎ (func ≡ 6)) ⊎ ((func ≡ 15) ⊎ (func ≡ 16))
      → IsRtuBody (func ∷ a ∷ b ∷ c ∷ d ∷ [])
  raised : (func code : ℕ) → is_error_reply func ≡ true → IsRtuBody (func ∷ code ∷ [])

IsRtuBody-nonempty : {body : List ℕ} → IsRtuBody body → 0 < length body
IsRtuBody-nonempty (read f c d _ _) = omega arith
IsRtuBody-nonempty (write f a b c d _) = omega arith
IsRtuBody-nonempty (raised f c _) = omega arith

-- The whole frame of a reply.
abbrev pub rtu_frame : ℕ → List ℕ → List ℕ
rtu_frame unit body = with_crc (unit ∷ body) (crc16 (unit ∷ body))

check_rtu-frame :
    (unit : ℕ) (body : List ℕ) → 0 < length body → check_rtu (rtu_frame unit body) ≡ check_body body
check_rtu-frame unit body h =
    rw (check_rtu-with_crc (unit ∷ body) (crc16 (unit ∷ body)) (omega arith), ==_refl)

module _ (limit : Text) where
  -- A reply is framed by its body, whatever its checksum.
  rtu_response-frame :
      (unit crc : ℕ) (body more : List ℕ) (events : List Event)
      → IsRtuBody body
      → ahead events ≡ with_crc (unit ∷ body) crc ++ more
      → (rtu_response limit events ≡ ok (with_crc (unit ∷ body) crc))
  unfolding rtu_response
  rtu_response-frame unit crc body more events (read func count data_bytes f n) h =
      let tail : List ℕ = data_bytes ++ crc % 256 ∷ crc / 256 ∷ [] in
      let (r1, e1, l1) =
        recv_exact_known limit (unit ∷ func ∷ []) (count ∷ tail ++ more) events h in
      let (r2, e2, l2) = recv_exact_known limit (count ∷ []) (tail ++ more) r1 l1 in
      let (r3, e3, l3) = recv_exact_known limit tail more r2 l2 in
      let sized : count + 2 ≡ length tail =
        omega (arith, length-append data_bytes (crc % 256 ∷ crc / 256 ∷ [])) in
      let plain : is_error_reply func ≡ false = ground arith in
      let reads : (func == 1 || func == 2 || func == 3 || func == 4) ≡ true = ground arith in
      rw (e1, plain, reads, e2, sized, e3)
  rtu_response-frame unit crc body more events (write func a b c d f) h =
      let lo : ℕ = crc % 256 in
      let hi : ℕ = crc / 256 in
      let (r1, e1, l1) =
        recv_exact_known limit (unit ∷ func ∷ []) ((a ∷ b ∷ c ∷ d ∷ lo ∷ hi ∷ []) ++ more) events
          h in
      let (r2, e2, l2) = recv_exact_known limit (a ∷ b ∷ c ∷ d ∷ lo ∷ hi ∷ []) more r1 l1 in
      let plain : is_error_reply func ≡ false = ground arith in
      let unread : (func == 1 || func == 2 || func == 3 || func == 4) ≡ false = ground arith in
      let writes : (func == 5 || func == 6 || func == 15 || func == 16) ≡ true = ground arith in
      rw (e1, plain, unread, writes, e2)
  rtu_response-frame unit crc body more events (raised func code e) h =
      let lo : ℕ = crc % 256 in
      let hi : ℕ = crc / 256 in
      let (r1, e1, l1) =
        recv_exact_known limit (unit ∷ func ∷ []) ((code ∷ lo ∷ hi ∷ []) ++ more) events h in
      let (r2, e2, l2) = recv_exact_known limit (code ∷ lo ∷ hi ∷ []) more r1 l1 in rw (e1, e, e2)

  -- An RTU reply of a read, of a write or of a raised exception, with its checksum, is judged by
  -- the function code of its body alone, however the connection cuts it and whatever follows.
  pub rtu_over_tcp_transaction-reply :
      (unit : ℕ) (body more : List ℕ) (events : List Event)
      → IsRtuBody body
      → ahead events ≡ rtu_frame unit body ++ more
      → rtu_over_tcp_transaction limit (opened events) ≡ check_body body
  unfolding rtu_over_tcp_transaction
  rtu_over_tcp_transaction-reply unit body more events shape h =
      rw (rtu_response-frame unit (crc16 (unit ∷ body)) body more events shape h)
        (check_rtu-frame unit body (IsRtuBody-nonempty shape))

  -- An RTU response in which one byte before the checksum was changed on the way into another byte,
  -- and which after that still has the shape of a reply, so that its function code and its count of
  -- bytes announce the length that it has, is not accepted, however the connection cuts it and whatever
  -- follows: the transaction raises the checksum error, with the checksum received and the one computed.
  pub rtu_over_tcp_transaction_one_byte :
      (unit : ℕ) (body more xs ys : List ℕ) (a b : ℕ) (events : List Event)
      → IsRtuBody body
      → unit ∷ body ≡ xs ++ b ∷ ys
      → All IsByte xs
      → All IsByte ys
      → a < 256
      → b < 256
      → a ≢ b
      → ahead events ≡ with_crc (unit ∷ body) (crc16 (xs ++ a ∷ ys)) ++ more
      → rtu_over_tcp_transaction limit (opened events)
        ≡ err (modbus (bad_crc (crc16 (xs ++ a ∷ ys)) (crc16 (xs ++ b ∷ ys))))
  unfolding rtu_over_tcp_transaction
  rtu_over_tcp_transaction_one_byte unit body more xs ys a b events shape e hx hy ha hb ne h =
      let crc = crc16 (xs ++ a ∷ ys) in
      let long : 1 ≤ length xs + length ys =
        omega (arith, ap length e, length-append xs (b ∷ ys), IsRtuBody-nonempty shape) in
      rw (rtu_response-frame unit crc body more events shape h) (
        ap (λ (f : List ℕ). check_rtu (with_crc f crc)) e
        ∙ check_rtu_one_byte xs ys a b long hx hy ha hb ne)
