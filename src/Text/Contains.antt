-- ===== src/Text/Contains.antt =====
-- Searching a text that is known in part.
use rpinode.Text.{Text, text_eq, starts_with, contains}
use rpinode.Prelude.{◌≡◌, refl, ◌↔◌, true, [], ◌∷◌, ◌++◌, ==_refl, arith}

pub starts_with-append : (prefix rest : Text) → starts_with (prefix ++ rest) prefix ≡ true
unfolding starts_with
starts_with-append [] [] = refl
starts_with-append [] (a ∷ rest) = refl
starts_with-append (a ∷ prefix) rest = rw (==_refl a, starts_with-append prefix rest)

-- A text that is written with the needle in the middle contains it.
pub contains-append :
    (needle before rest : Text) → contains needle (before ++ (needle ++ rest)) ≡ true
unfolding contains
contains-append [] [] [] = refl
contains-append [] [] (a ∷ rest) = refl
contains-append (c ∷ needle) [] rest = rw (starts_with-append (c ∷ needle) rest)
contains-append needle (a ∷ before) rest = ground (arith, contains-append needle before rest)

text_eq_refl : (s : Text) → text_eq s s ≡ true
unfolding text_eq
text_eq_refl [] = refl
text_eq_refl (a ∷ s) = rw (==_refl a, text_eq_refl s)

text_eq_sound : (s t : Text) → text_eq s t ≡ true → s ≡ t
unfolding text_eq
text_eq_sound [] [] h = refl
text_eq_sound [] (b ∷ t) h = cc
text_eq_sound (a ∷ s) [] h = cc
text_eq_sound (a ∷ s) (b ∷ t) h = ground (arith, text_eq_sound s t)

-- The test on texts decides their equality.
pub text_eq_iff : (s t : Text) → (text_eq s t ≡ true) ↔ (s ≡ t)
text_eq_iff s t = (text_eq_sound s t, λ e. rw e (text_eq_refl t))
