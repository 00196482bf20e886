-- ===== src/Mstp/Iam.antt =====
-- `_IAM_RE` and the reading of a line of the discovery tool in `_parse_line` of
-- src/services/bacnet_mstp.py. The digits and the white space of a line are those of ASCII.
pub mod Lines
use rpinode.Text.{Text, codes, is_digit, is_hex, strip, upper, number}
use rpinode.Prelude.Options.{◌>>=◌}
use rpinode.Prelude.{
  ℕ, Bool, true, false, Option, none, some, List, [], ◌∷◌, ◌&&◌, ◌==◌, if◌then◌else◌,
}

-- What an I-Am line says: the device, its address in upper case, the length of its messages.
pub record Iam : Type 0 where
  pub device : ℕ
  pub mac : Text
  pub apdu : ℕ

-- The longest run of characters that pass a test, and what follows it.
unfoldable pub span : (ℕ → Bool) → Text → Text × Text
span p [] = ([], [])
span p (c ∷ s) = let rest = span p s in if p c then (c ∷ rest.0, rest.1) else ([], c ∷ s)

-- `;` and what follows it.
abbrev pub behind_semicolon : Text → Option Text
behind_semicolon [] = none
behind_semicolon (c ∷ s) = if c == b';' then some s else none

abbrev digits_of : Text × Text → Option (ℕ × Text)
digits_of ([], rest) = none
digits_of (c ∷ run, rest) = some (number (c ∷ run), rest)

-- `(\d+)`
unfoldable pub digits_group : Text → Option (ℕ × Text)
digits_group s = digits_of (span is_digit s)

-- `IAM;`
abbrev pub behind_iam : Text → Option Text
behind_iam [] = none
behind_iam (a ∷ []) = none
behind_iam (a ∷ b ∷ []) = none
behind_iam (a ∷ b ∷ c ∷ s) =
    if a == b'I' && b == b'A' && c == b'M' then behind_semicolon s else none

abbrev at_end : Text → Iam → Option Iam
at_end [] i = some i
at_end (c ∷ s) i = none

-- `_IAM_RE.match(line.strip())` and the three groups.
unfoldable pub parse_iam : Text → Option Iam
parse_iam line = do
  tail ← behind_iam (strip line)
  device ← digits_group tail
  tail ← behind_semicolon device.1
  let mac = span is_hex tail
  tail ← behind_semicolon mac.1
  apdu ← digits_group tail
  at_end apdu.1 (record { device = device.0; mac = upper mac.0; apdu = apdu.0 })
