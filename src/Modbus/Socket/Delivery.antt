-- ===== src/Modbus/Socket/Delivery.antt =====
-- However a connection cuts its bytes into pieces, the reader sees one row of bytes.
use rpinode.Modbus.Error.{Exc, Result, ok, err}
use rpinode.Modbus.Socket.{Event, chunk, fault, rest_of, recv_from, recv_exact}
use rpinode.Text.{Text}
use rpinode.Prelude.{
  ℕ, zero, suc, ◌+◌, ◌-◌, ◌≤◌, ◌<◌, ◌≡◌, refl, sym, ◌∙◌, ap, List, [], ◌∷◌, ◌++◌, length, take,
  drop, leb, false, inl, inr, arith, Bool-cases, take-append_le, take-append_ge, drop-append_le,
  drop-append_ge, length-append,
}
use mathlib.Core.List.{append_assoc, append-nil}

-- The bytes that arrive before the connection is closed or fails.
unfoldable pub ahead : List Event → List ℕ
ahead [] = []
ahead (fault f ∷ events) = []
ahead (chunk [] ∷ events) = []
ahead (chunk (b ∷ bs) ∷ events) = (b ∷ bs) ++ ahead events

ahead-rest_of :
    (limit : Text) (bs : List ℕ) (events : List Event)
    → ahead (rest_of limit bs events) ≡ bs ++ ahead events
unfolding ahead
ahead-rest_of limit [] events = refl
ahead-rest_of limit (b ∷ bs) events = refl

module _ (limit : Text) where
  abbrev Reads : List ℕ → ℕ → List Event → Result (List ℕ × List Event) → Type 0
  Reads buf need events r =
      (rest : List Event) × (r ≡ ok (buf ++ take need (ahead events), rest))
      × (ahead rest ≡ drop need (ahead events))

  recv_from-Reads :
      (buf : List ℕ) (need : ℕ) (events : List Event)
      → need ≤ length (ahead events)
      → Reads buf need events (recv_from limit buf need events)
  unfolding recv_from ahead
  recv_from-Reads buf zero events h =
      (events, ap (λ b. ok (b, events)) (sym (append-nil buf)), refl)
  recv_from-Reads buf (suc need) [] h = absurd (omega arith)
  recv_from-Reads buf (suc need) (fault f ∷ events) h = absurd (omega arith)
  recv_from-Reads buf (suc need) (chunk [] ∷ events) h = absurd (omega arith)
  recv_from-Reads buf (suc need) (chunk (b ∷ bs) ∷ events) h =
      elim (Bool-cases (leb (suc need) (length (b ∷ bs)))) [
        | inl enough ↦
            let within : suc need ≤ length (b ∷ bs) = ground arith in
            (
              rest_of limit (drop (suc need) (b ∷ bs)) events,
              rw (enough, take-append_le (suc need) (b ∷ bs) (ahead events) within),
              ahead-rest_of limit _ events
                  ∙ sym (drop-append_le (suc need) (b ∷ bs) (ahead events) within),
            )
        | inr short ↦
            let over : length bs ≤ need = ground arith in
            let (rest, e, left) =
              recv_from-Reads (buf ++ b ∷ bs) (need - length bs) events
                (omega (arith, length-append (b ∷ bs) (ahead events))) in
            (
              rest,
              rw short (
                  e
                  ∙ ap (λ (t : List ℕ). ok (t, rest))
                      (append_assoc buf (b ∷ bs) (take (need - length bs) (ahead events))
                        ∙ ap (λ (t : List ℕ). buf ++ t)
                            (ap (◌∷◌ b) (sym (take-append_ge need bs (ahead events) over))))),
              left ∙ sym (drop-append_ge need bs (ahead events) over),
            )
      ]

  -- With enough bytes ahead, the call returns the next n of them, however they are cut into
  -- pieces, and leaves exactly the others ahead.
  pub recv_exact-ahead :
      (n : ℕ) (events : List Event)
      → n ≤ length (ahead events)
      → (rest : List Event) × (recv_exact limit n events ≡ ok (take n (ahead events), rest))
        × (ahead rest ≡ drop n (ahead events))
  unfolding recv_exact
  recv_exact-ahead n events h = recv_from-Reads [] n events h

  recv_from_short :
      (buf : List ℕ) (need : ℕ) (events : List Event)
      → length (ahead events) < need
      → (e : Exc) × (recv_from limit buf need events ≡ err e)
  unfolding recv_from ahead
  recv_from_short buf zero events h = elim h [ ]
  recv_from_short buf (suc need) [] h = (_, refl)
  recv_from_short buf (suc need) (fault f ∷ events) h = (_, refl)
  recv_from_short buf (suc need) (chunk [] ∷ events) h = (_, refl)
  recv_from_short buf (suc need) (chunk (b ∷ bs) ∷ events) h =
      let fewer : suc (length bs) + length (ahead events) < suc need =
        omega (arith, length-append bs (ahead events)) in
      let (e, raised) = recv_from_short (buf ++ b ∷ bs) (need - length bs) events (omega arith) in
      let short : leb (suc need) (length (b ∷ bs)) ≡ false = ground arith in (e, rw short raised)

  -- With too few bytes ahead, the call raises.
  pub recv_exact_short :
      (n : ℕ) (events : List Event)
      → length (ahead events) < n
      → (e : Exc) × (recv_exact limit n events ≡ err e)
  unfolding recv_exact
  recv_exact_short n events h = recv_from_short [] n events h
