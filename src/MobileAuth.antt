-- ===== src/MobileAuth.antt =====
-- The access tokens and the signed session cookies of src/services/mobile_auth.py. The hash, the
-- signature, the parsing of a number and the clocks are arguments; a query that raises has no rows.
pub mod Cookies
mod Tests
use rpinode.Sort.{text_le}
use rpinode.Text.{Text, codes, text_eq, decimal}
use rpinode.Prelude.{
  ℕ, ◌+◌, Bool, true, false, ◌&&◌, ◌||◌, not, Option, none, some, List, [], ◌∷◌, ◌++◌, ltb, ◌==◌,
  if◌then◌else◌,
}
use rpinode.Rows.{any_row}

abbrev pub session_lifetime_seconds : ℕ
session_lifetime_seconds = 28800

-- `hash_token`, `hmac.new(secret, payload, sha256).hexdigest()`, and `int` of a text, where it does
-- not raise.
pub record Crypto : Type 0 where
  pub hash_token : Text → Text
  pub sign : Text → Text → Text
  pub int_of : Text → Option ℕ

-- What the configuration holds under `mobile_session_secret`.
pub record Config : Type 0 where
  pub mobile_session_secret : Option Text

-- `_get_session_secret`: a secret that is missing or empty is drawn and saved. What this call of
-- `secrets.token_hex(32)` draws is an argument, and so of every function that may draw.
abbrev pub with_secret : Text → Option Text → Option Text × Text
with_secret drawn none = (some drawn, drawn)
with_secret drawn (some []) = (some drawn, drawn)
with_secret drawn (some (a ∷ s)) = (some (a ∷ s), a ∷ s)

unfoldable pub get_session_secret : Text → Config → Config × Text
get_session_secret drawn config =
    let found = with_secret drawn config.mobile_session_secret in
    (record config { mobile_session_secret = found.0 }, found.1)

-- A row of `mobile_access_tokens`.
pub record Access : Type 0 where
  pub token_hash : Text
  pub expire_at : Text

-- The texts of times are compared as SQLite compares them.
unfoldable pub is_access_token_valid : Crypto → Text → Option (List Access) → Text → Bool
is_access_token_valid c now rows [] = false
is_access_token_valid c now none (a ∷ token) = false
is_access_token_valid c now (some rows) (a ∷ token) =
    any_row (λ r. text_eq r.token_hash (c.hash_token (a ∷ token)) && not (text_le r.expire_at now))
      rows

unfoldable pub create_session_cookie_value : Crypto → Text → ℕ → Config → Config × Text
create_session_cookie_value c drawn now config =
    let (config', secret) = get_session_secret drawn config in
    let payload = decimal (now + session_lifetime_seconds) in
    (config', payload ++ (codes "." ++ c.sign secret payload))

-- `value.partition(".")`, where there is a point.
unfoldable pub partition : Text → Option (Text × Text)
partition [] = none
partition (a ∷ s) =
    let rest = partition s in
    if a == b'.'
    then some ([], s)
    else elim rest [ none ↦ none | some (before, after) ↦ some (a ∷ before, after) ]

-- `hmac.compare_digest`, which raises for a text that is not ASCII.
unfoldable pub compare_digest : Text → Text → Option Bool
compare_digest s t =
    if any_row (λ c. not (ltb c 128)) s || any_row (λ c. not (ltb c 128)) t
    then none
    else some (text_eq s t)

-- `time.time() < expiry`, if the payload is a number.
unfoldable pub not_expired : Crypto → ℕ → Text → Bool
not_expired c now payload = elim (c.int_of payload) [ none ↦ false | some expiry ↦ ltb now expiry ]

unfoldable pub checked : Crypto → ℕ → Text → Option Bool → Option Bool
checked c now payload none = none
checked c now payload (some false) = some false
checked c now payload (some true) = some (not_expired c now payload)

-- The answer, where no call raises, with the configuration.
unfoldable pub verify_session_cookie : Crypto → Text → ℕ → Text → Config → Config × Option Bool
verify_session_cookie c drawn now value config = elim (partition value) [
  | none ↦ (config, some false)
  | some (payload, sig) ↦
      let (config', secret) = get_session_secret drawn config in
      (config', checked c now payload (compare_digest sig (c.sign secret payload)))
]
