-- ===== src/MobileAuth/Cookies.antt =====
-- Which session cookies are accepted.
use mathlib.Core.Option.{none-ne-some, some-injective}
use mathlib.Core.Path.{subst}
use rpinode.MobileAuth.{
  Crypto, Config, session_lifetime_seconds, with_secret, get_session_secret,
  create_session_cookie_value, partition, compare_digest, not_expired, checked,
  verify_session_cookie,
}
use rpinode.Text.{Text, codes, text_eq, decimal}
use rpinode.Text.Contains.{text_eq_iff}
use rpinode.Text.Decimal.{IsDigit, decimal-IsDigit}
use rpinode.Prelude.{
  ℕ, ◌+◌, ◌<◌, ◌≡◌, ◌↔◌, refl, sym, ap, ◌∙◌, inl, inr, Bool, true, false, ◌||◌, not, Option, none,
  some, [], ◌∷◌, ◌++◌, ltb, ◌==◌, arith, Bool-cases, Option-cases, All,
}
use rpinode.Rows.{any_row}

-- The signatures and the secrets that are drawn are hexadecimal digits, and so of ASCII.
abbrev pub IsAscii : Text → Type 0
IsAscii s = any_row (λ c. not (ltb c 128)) s ≡ false

-- A text up to a first point.
pub partition-append :
    (before after : Text)
    → All (λ c. (c == b'.') ≡ false) before
    → partition (before ++ (codes "." ++ after)) ≡ some (before, after)
unfolding partition
partition-append [] after h = refl
partition-append (c ∷ before) after (h, hs) = rw (h, partition-append before after hs) refl

partition_sound :
    (value payload sig : Text)
    → partition value ≡ some (payload, sig)
    → (value ≡ payload ++ (codes "." ++ sig)) × All (λ c. (c == b'.') ≡ false) payload
unfolding partition
partition_sound [] payload sig e = absurd (none-ne-some _ e)
partition_sound (a ∷ s) payload sig e = elim (Bool-cases (a == b'.')) [
  | inl point ↦
      let here : a ≡ b'.' = ground arith in
      subst
        (λ (p : Text × Text).
          (a ∷ s ≡ p.0 ++ (codes "." ++ p.1)) × All (λ c. (c == b'.') ≡ false) p.0)
        (some-injective _ _ (rw (point, partition) at e)) (ap (λ (x : ℕ). x ∷ s) here, tt)
  | inr other ↦ elim (Option-cases (partition s)) [
    | inl missing ↦ absurd (none-ne-some _ (rw (other, partition, missing) at e))
    | inr ((before, after), there) ↦
        let (whole, hs) = partition_sound s before after there in
        subst
          (λ (p : Text × Text).
            (a ∷ s ≡ p.0 ++ (codes "." ++ p.1)) × All (λ c. (c == b'.') ≡ false) p.0)
          (some-injective _ _ (rw (other, partition, there) at e)) (ap (◌∷◌ a) whole, (other, hs))
  ]
]

compare_digest-ascii :
    (s t : Text) → IsAscii s → IsAscii t → compare_digest s t ≡ some (text_eq s t)
unfolding compare_digest
compare_digest-ascii s t h k = rw (h, k) refl

-- A comparison that says yes is one of a text with itself.
compare_digest-same : (s t : Text) → compare_digest s t ≡ some true → s ≡ t
unfolding compare_digest
compare_digest-same s t e =
    elim (Bool-cases (any_row (λ c. not (ltb c 128)) s || any_row (λ c. not (ltb c 128)) t)) [
      | inl raised ↦ absurd (none-ne-some _ (rw raised at e))
      | inr ascii ↦ (text_eq_iff s t).0 (some-injective _ _ (rw ascii at e))
    ]

checked-accepts :
    (c : Crypto) (now : ℕ) (payload : Text) (o : Option Bool)
    → checked c now payload o ≡ some true
    → (o ≡ some true) × (not_expired c now payload ≡ true)
unfolding checked
checked-accepts c now payload none e = absurd (none-ne-some _ e)
checked-accepts c now payload (some false) e = cc
checked-accepts c now payload (some true) e = (refl, some-injective _ _ e)

not_expired-number :
    (c : Crypto) (now : ℕ) (payload : Text)
    → not_expired c now payload ≡ true
    → (expiry : ℕ) × (c.int_of payload ≡ some expiry) × (now < expiry)
unfolding not_expired
not_expired-number c now payload e = elim (Option-cases (c.int_of payload)) [
  | inl bad ↦ cc
  | inr (expiry, read) ↦
      let l : ltb now expiry ≡ true = rw (read, not_expired) at e in (expiry, read, ground arith)
]

-- The value is a payload without a point, a point, and the signature of the payload; and the payload
-- is the number of a time to come.
pub record IsValid (c : Crypto) (secret : Text) (now : ℕ) (value : Text) : Type 0 where
  pub payload : Text
  pub expiry : ℕ
  pub signed : value ≡ payload ++ (codes "." ++ c.sign secret payload)
  pub no_point : All (λ a. (a == b'.') ≡ false) payload
  pub read : c.int_of payload ≡ some expiry
  pub later : now < expiry

verify-found :
    (c : Crypto) (drawn : Text) (now : ℕ) (payload sig : Text) (value : Text) (config : Config)
    → partition value ≡ some (payload, sig)
    → (verify_session_cookie c drawn now value config).1
      ≡ checked c now payload
          (compare_digest sig (c.sign (get_session_secret drawn config).1 payload))
unfolding verify_session_cookie
verify-found c drawn now payload sig value config e = rw (e, verify_session_cookie) refl

accepts-IsValid :
    (c : Crypto) (drawn : Text) (now : ℕ) (value : Text) (config : Config)
    → (verify_session_cookie c drawn now value config).1 ≡ some true
    → IsValid c (get_session_secret drawn config).1 now value
unfolding verify_session_cookie
accepts-IsValid c drawn now value config e = elim (Option-cases (partition value)) [
  | inl missing ↦ absurd (ground (arith, rw (missing, verify_session_cookie) at e))
  | inr ((payload, sig), found) ↦
      let (same, fresh) =
        checked-accepts c now payload _
          (sym (verify-found c drawn now payload sig value config found) ∙ e) in
      let (expiry, read, later) = not_expired-number c now payload fresh in
      let (whole, no_point) = partition_sound value payload sig found in
      let mine = compare_digest-same sig _ same in
      record {
        payload = payload;
        expiry = expiry;
        signed = whole ∙ ap (λ (x : Text). payload ++ (codes "." ++ x)) mine;
        no_point = no_point;
        read = read;
        later = later;
      }
]

checked-true :
    (c : Crypto) (now : ℕ) (payload : Text)
    → checked c now payload (some true) ≡ some (not_expired c now payload)
unfolding checked
checked-true c now payload = refl

-- A signed payload is judged by its number alone.
verify-signed :
    (c : Crypto) (drawn : Text) (now : ℕ) (payload : Text) (config : Config)
    → IsAscii (c.sign (get_session_secret drawn config).1 payload)
    → All (λ a. (a == b'.') ≡ false) payload
    → (verify_session_cookie c drawn now
        (payload ++ (codes "." ++ c.sign (get_session_secret drawn config).1 payload))
        config).1
      ≡ some (not_expired c now payload)
verify-signed c drawn now payload config ascii no_point =
    let sig = c.sign (get_session_secret drawn config).1 payload in
    verify-found c drawn now payload sig _ config (partition-append payload sig no_point)
    ∙ ap (checked c now payload)
        (compare_digest-ascii sig sig ascii ascii ∙ ap some ((text_eq_iff sig sig).1 refl))
    ∙ checked-true c now payload

not_expired-later :
    (c : Crypto) (now : ℕ) (payload : Text) (expiry : ℕ)
    → c.int_of payload ≡ some expiry
    → not_expired c now payload ≡ ltb now expiry
unfolding not_expired
not_expired-later c now payload expiry e = rw (e, not_expired) refl

-- Where signatures are of ASCII, a session cookie is accepted exactly when it is a payload without a
-- point, a point, and the signature of the payload with the secret of the box, and the payload is read
-- as a time that is still to come.
pub verify_session_cookie-IsValid :
    (c : Crypto) (drawn : Text) (now : ℕ) (value : Text) (config : Config)
    → ((secret payload : Text) → IsAscii (c.sign secret payload))
    → ((verify_session_cookie c drawn now value config).1 ≡ some true)
      ↔ IsValid c (get_session_secret drawn config).1 now value
verify_session_cookie-IsValid c drawn now value config ascii = (
  accepts-IsValid c drawn now value config,
  λ v.
      let l : ltb now v.expiry ≡ true = ground arith in
      subst (λ (x : Text). (verify_session_cookie c drawn now x config).1 ≡ some true)
        (sym v.signed)
        (verify-signed c drawn now v.payload config (ascii _ _) v.no_point
          ∙ ap some (not_expired-later c now v.payload v.expiry v.read ∙ l)),
)

digits_no_point : (s : Text) → All IsDigit s → All (λ a. (a == b'.') ≡ false) s
digits_no_point [] h = tt
digits_no_point (c ∷ s) (h, hs) = (ground arith, digits_no_point s hs)

-- The secret that was drawn is the one of every later call, whatever that would draw.
with_secret-twice :
    (drawn again : Text) (o : Option Text) (a : ℕ) (s : Text)
    → drawn ≡ a ∷ s
    → (with_secret again (with_secret drawn o).0).1 ≡ (with_secret drawn o).1
with_secret-twice drawn again none a s e =
    subst (λ (x : Text). (with_secret again (some x)).1 ≡ x) (sym e) refl
with_secret-twice drawn again (some []) a s e =
    subst (λ (x : Text). (with_secret again (some x)).1 ≡ x) (sym e) refl
with_secret-twice drawn again (some (b ∷ t)) a s e = refl

get_session_secret-again :
    (drawn again : Text) (config : Config) (a : ℕ) (s : Text)
    → drawn ≡ a ∷ s
    → (get_session_secret again (get_session_secret drawn config).0).1
      ≡ (get_session_secret drawn config).1
unfolding get_session_secret
get_session_secret-again drawn again config a s e =
    with_secret-twice drawn again config.mobile_session_secret a s e

-- Where signatures are of ASCII, `int` reads what `str` prints, and the secret that the creation may
-- draw is not empty, the cookie that a box creates is accepted by it for 28,800 seconds, and not after
-- them, with the configuration that the creation leaves, whatever secret the check would draw.
pub verify_session_cookie-create_session_cookie_value :
    (c : Crypto) (drawn again : Text) (created now : ℕ) (config : Config) (a : ℕ) (s : Text)
    → ((secret payload : Text) → IsAscii (c.sign secret payload))
    → ((n : ℕ) → c.int_of (decimal n) ≡ some n)
    → drawn ≡ a ∷ s
    → (verify_session_cookie c again now
        (create_session_cookie_value c drawn created config).1
        (create_session_cookie_value c drawn created config).0).1
      ≡ some (ltb now (created + 28800))
unfolding create_session_cookie_value
verify_session_cookie-create_session_cookie_value c drawn again created now config a s ascii reads
      e =
    let saved = (get_session_secret drawn config).0 in
    let payload = decimal (created + session_lifetime_seconds) in
    let same = get_session_secret-again drawn again config a s e in
    ap
      (λ (x : Text).
        (verify_session_cookie c again now (payload ++ (codes "." ++ c.sign x payload)) saved).1)
      (sym same)
    ∙ verify-signed c again now payload saved (ascii _ _)
        (digits_no_point payload (decimal-IsDigit (created + session_lifetime_seconds)))
    ∙ ap some (not_expired-later c now payload _ (reads (created + session_lifetime_seconds)))
