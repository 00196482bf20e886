-- ===== src/Mstp/Iam/Lines.antt =====
-- A printed I-Am line is read back.
use rpinode.Mstp.Iam.{span, digits_of, digits_group, parse_iam}
use rpinode.Text.{Text, is_digit, is_hex, upper, number, decimal}
use rpinode.Text.Decimal.{number-decimal, IsDigit, decimal-IsDigit, decimal-nonempty}
use rpinode.Text.Strip.{IsSpace, IsInk, strip-append}
use rpinode.Prelude.{
  ℕ, ◌≡◌, ◌≢◌, refl, ap, ◌∙◌, Bool, true, false, some, [], ◌∷◌, ◌++◌, All, All-append, arith,
}

abbrev IsTrue : (ℕ → Bool) → ℕ → Type 0
IsTrue p c = p c ≡ true

span-append :
    (p : ℕ → Bool) (s : Text) (c : ℕ) (rest : Text)
    → All (IsTrue p) s
    → p c ≡ false
    → span p (s ++ c ∷ rest) ≡ (s, c ∷ rest)
unfolding span
span-append p [] c rest h hc = rw hc
span-append p (a ∷ s) c rest (h, hs) hc = rw (h, span-append p s c rest hs hc)

span-All : (p : ℕ → Bool) (s : Text) → All (IsTrue p) s → span p s ≡ (s, [])
unfolding span
span-All p [] h = refl
span-All p (a ∷ s) (h, hs) = rw (h, span-All p s hs)

All-digit-IsInk : (s : Text) → All IsDigit s → All IsInk s
All-digit-IsInk [] h = tt
All-digit-IsInk (c ∷ s) (h, hs) = (ground arith, All-digit-IsInk s hs)

abbrev pub IsHex : ℕ → Type 0
IsHex c = is_hex c ≡ true

All-hex-IsInk : (s : Text) → All IsHex s → All IsInk s
All-hex-IsInk [] h = tt
All-hex-IsInk (c ∷ s) (h, hs) = (ground arith, All-hex-IsInk s hs)

digits_of_run : (s rest : Text) → s ≢ [] → digits_of (s, rest) ≡ some (number s, rest)
digits_of_run [] rest h = absurd (h refl)
digits_of_run (c ∷ s) rest h = refl

digits_of-decimal : (n : ℕ) (rest : Text) → digits_of (decimal n, rest) ≡ some (n, rest)
digits_of-decimal n rest =
    digits_of_run (decimal n) rest (decimal-nonempty n)
    ∙ ap (λ (k : ℕ). some (k, rest)) (number-decimal n)

digits_group-append :
    (n c : ℕ) (rest : Text)
    → is_digit c ≡ false
    → digits_group (decimal n ++ c ∷ rest) ≡ some (n, c ∷ rest)
unfolding digits_group
digits_group-append n c rest hc =
    ap digits_of (span-append is_digit (decimal n) c rest (decimal-IsDigit n) hc)
    ∙ digits_of-decimal n (c ∷ rest)

digits_group-decimal : (n : ℕ) → digits_group (decimal n) ≡ some (n, [])
unfolding digits_group
digits_group-decimal n =
    ap digits_of (span-All is_digit (decimal n) (decimal-IsDigit n)) ∙ digits_of-decimal n []

-- The line behind its name.
abbrev numbers : ℕ → Text → ℕ → Text
numbers device mac apdu = decimal device ++ b';' ∷ (mac ++ b';' ∷ decimal apdu)

-- What the discovery tool prints for a device.
abbrev pub iam_line : ℕ → Text → ℕ → Text
iam_line device mac apdu = b'I' ∷ b'A' ∷ b'M' ∷ b';' ∷ numbers device mac apdu

numbers-IsInk :
    (device : ℕ) (mac : Text) (apdu : ℕ) → All IsHex mac → All IsInk (numbers device mac apdu)
numbers-IsInk device mac apdu h =
    All-append IsInk (decimal device) _ (All-digit-IsInk _ (decimal-IsDigit device)) (
      refl,
      All-append IsInk mac _ (All-hex-IsInk mac h) (refl, All-digit-IsInk _ (decimal-IsDigit apdu)),
    )

-- A printed line with an address of hexadecimal digits, with white space on both sides, is read back
-- as its device, its address in upper case and its length.
pub parse_iam-iam_line :
    (before after : Text) (device : ℕ) (mac : Text) (apdu : ℕ)
    → All IsSpace before
    → All IsSpace after
    → All IsHex mac
    → parse_iam (before ++ (iam_line device mac apdu ++ after))
      ≡ some (record { device = device; mac = upper mac; apdu = apdu })
unfolding parse_iam
parse_iam-iam_line before after device mac apdu hb ha hm = rw (
  strip-append before b'I' (b'A' ∷ b'M' ∷ b';' ∷ numbers device mac apdu) after hb
      (refl, (refl, (refl, (refl, numbers-IsInk device mac apdu hm)))) ha,
  digits_group-append device b';' (mac ++ b';' ∷ decimal apdu) refl,
  span-append is_hex mac b';' (decimal apdu) hm refl,
  digits_group-decimal apdu,
)
