-- ===== src/Text/Decimal.antt =====
-- Printing a number and reading it back.
use rpinode.Text.{Text, is_digit, decimal_from, decimal, number_from, number}
use rpinode.Prelude.{
  ℕ, zero, suc, ◌+◌, ◌/◌, ◌%◌, ◌<◌, ◌≡◌, sym, ◌∙◌, ap, true, [], ◌∷◌, arith, All, ltb, inl, inr,
  Bool-cases, ◌≢◌,
}

-- Reading on from what stands for `n` reads the digits that are left.
decimal_from-number :
    (fuel n : ℕ) (acc : Text)
    → n < fuel
    → number_from 0 (decimal_from fuel n acc) ≡ number_from n acc
unfolding decimal_from number_from
decimal_from-number zero n acc h = elim h [ ]
decimal_from-number (suc fuel) n acc h = elim (Bool-cases (ltb n 10)) [
  | inl small ↦ rw small (ap (λ (k : ℕ). number_from k acc) (omega arith))
  | inr big ↦ rw big (
      decimal_from-number fuel (n / 10) ((b'0' + n % 10) ∷ acc) (ground arith)
      ∙ ap (λ (k : ℕ). number_from k acc) (omega arith))
]

-- `int(str(n))` is n.
pub number-decimal : (n : ℕ) → number (decimal n) ≡ n
unfolding number decimal number_from
number-decimal n = decimal_from-number (suc n) n [] (omega arith)

pub decimal-injective : (m n : ℕ) → decimal m ≡ decimal n → m ≡ n
decimal-injective m n e = sym (number-decimal m) ∙ ap number e ∙ number-decimal n

abbrev pub IsDigit : ℕ → Type 0
IsDigit c = is_digit c ≡ true

decimal_from-IsDigit :
    (fuel n : ℕ) (acc : Text) → All IsDigit acc → All IsDigit (decimal_from fuel n acc)
unfolding decimal_from
decimal_from-IsDigit zero n acc h = h
decimal_from-IsDigit (suc fuel) n acc h = elim (Bool-cases (ltb n 10)) [
  | inl small ↦ rw small (ground arith, h)
  | inr big ↦ rw big (decimal_from-IsDigit fuel (n / 10) ((b'0' + n % 10) ∷ acc) (ground arith, h))
]

pub decimal-IsDigit : (n : ℕ) → All IsDigit (decimal n)
unfolding decimal
decimal-IsDigit n = decimal_from-IsDigit (suc n) n [] tt

decimal_from-nonempty : (fuel n : ℕ) (c : ℕ) (acc : Text) → decimal_from fuel n (c ∷ acc) ≢ []
unfolding decimal_from
decimal_from-nonempty zero n c acc e = cc
decimal_from-nonempty (suc fuel) n c acc e =
    ground (arith, decimal_from-nonempty fuel (n / 10) (b'0' + n % 10) (c ∷ acc))

pub decimal-nonempty : (n : ℕ) → decimal n ≢ []
unfolding decimal decimal_from
decimal-nonempty n e = ground (arith, decimal_from-nonempty n (n / 10) (b'0' + n % 10) [])
