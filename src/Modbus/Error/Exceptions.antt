-- ===== src/Modbus/Error/Exceptions.antt =====
-- What becomes of an error of the slave itself.
use rpinode.Bits.{holds_below, holds_below-lt}
use rpinode.Modbus.Error.{
  exception, message, is_exception, Kind, illegal, timeout, other, exception_name,
  classify_modbus_error,
}
use rpinode.Text.{codes, starts_with, decimal}
use rpinode.Text.Contains.{contains-append}
use rpinode.Prelude.{ℕ, ◌<◌, ◌≡◌, refl, ◌++◌, [], Bool, true, false, ◌||◌, ◌==◌, if◌then◌else◌}

-- The kind that the probe should count for a code.
abbrev pub is_02 : ℕ → Bool
is_02 code = code == 2 || code == 102 || code == 202

abbrev same_kind : Kind → Bool → Bool
same_kind illegal b = b
same_kind timeout b = false
same_kind other b = if b then false else true

agrees : ℕ → Bool
unfolding classify_modbus_error message exception_name decimal starts_with
agrees code = same_kind (classify_modbus_error (message (exception code))) (is_02 code)

all_agree : holds_below agrees 256 ≡ true
unfolding holds_below agrees
all_agree = refl

same_kind-if : (k : Kind) (b : Bool) → same_kind k b ≡ true → k ≡ (if b then illegal else other)
same_kind-if illegal true h = refl
same_kind-if illegal false h = cc
same_kind-if timeout b h = cc
same_kind-if other true h = cc
same_kind-if other false h = refl

-- Of the codes that a reply can carry, the probe counts 2 as an illegal address, and also 102 and
-- 202, which the code has no name for and which it prints; every other one is another error.
pub classify_modbus_error-exception :
    (code : ℕ)
    → code < 256
    → classify_modbus_error (message (exception code))
      ≡ (if code == 2 || code == 102 || code == 202 then illegal else other)
classify_modbus_error-exception code h =
    same_kind-if _ (is_02 code) (unfold agrees in holds_below-lt agrees 256 code h all_agree)

-- An error of the slave itself is never asked for again.
pub is_exception-exception : (code : ℕ) → is_exception (exception code) ≡ true
unfolding is_exception message
is_exception-exception code =
    contains-append (codes "Exception Modbus") [] (codes " : " ++ exception_name code)
