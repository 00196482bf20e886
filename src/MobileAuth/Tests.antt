-- ===== src/MobileAuth/Tests.antt =====
-- A cookie under a signature that forgets its arguments, with a number parser for digits.
use rpinode.MobileAuth.{
  Crypto, Config, create_session_cookie_value, verify_session_cookie, get_session_secret,
}
use rpinode.MobileAuth.Cookies.{
  IsValid, verify_session_cookie-IsValid, verify_session_cookie-create_session_cookie_value,
}
use rpinode.Text.{Text, codes, number}
use rpinode.Text.Decimal.{number-decimal}
use rpinode.Prelude.{◌+◌, ◌≡◌, ◌↔◌, refl, ap, true, none, some, ltb}

abbrev crypto : Crypto
crypto = record {
  hash_token = λ t. t;
  sign = λ secret payload. codes "5f";
  int_of = λ s. some (number s);
}

-- What the creation of a cookie draws, and what its check would draw.
abbrev drawn : Text
drawn = codes "c0ffee"

abbrev drawn_later : Text
drawn_later = codes "decade"

abbrev config : Config
config = record { mobile_session_secret = none }

verify_session_cookie-IsValid_example :
    ((verify_session_cookie crypto drawn 50 (codes "99.5f") config).1 ≡ some true)
    ↔ IsValid crypto (get_session_secret drawn config).1 50 (codes "99.5f")
verify_session_cookie-IsValid_example =
    verify_session_cookie-IsValid crypto drawn 50 (codes "99.5f") config (λ secret payload. refl)

verify_session_cookie-create_session_cookie_value_example :
    (verify_session_cookie crypto drawn_later 20000
      (create_session_cookie_value crypto drawn 100 config).1
      (create_session_cookie_value crypto drawn 100 config).0).1
    ≡ some (ltb 20000 (100 + 28800))
verify_session_cookie-create_session_cookie_value_example =
    verify_session_cookie-create_session_cookie_value crypto drawn drawn_later 100 20000 config b'c'
      (codes "0ffee") (λ secret payload. refl) (λ n. ap some (number-decimal n)) refl
