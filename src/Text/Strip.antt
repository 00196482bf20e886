-- ===== src/Text/Strip.antt =====
-- Stripping and splitting texts.
use rpinode.Text.{Text, is_space, lstrip, strip_before, rstrip, strip}
use rpinode.Prelude.{ℕ, ◌≡◌, refl, ap, ◌∙◌, true, false, [], ◌∷◌, ◌++◌, All}

abbrev pub IsSpace : ℕ → Type 0
IsSpace c = is_space c ≡ true

abbrev pub IsInk : ℕ → Type 0
IsInk c = is_space c ≡ false

lstrip-append : (pad s : Text) → All IsSpace pad → lstrip (pad ++ s) ≡ lstrip s
lstrip-append [] s h = refl
lstrip-append (c ∷ pad) s (h, hs) = rw h (lstrip-append pad s hs)

rstrip_spaces : (pad : Text) → All IsSpace pad → rstrip pad ≡ []
rstrip_spaces [] h = refl
rstrip_spaces (c ∷ pad) (h, hs) = rw (rstrip_spaces pad hs, h)

strip_before_ink : (c : ℕ) (s : Text) → IsInk c → strip_before c s ≡ c ∷ s
strip_before_ink c [] h = rw h
strip_before_ink c (d ∷ s) h = refl

rstrip-append : (s pad : Text) → All IsInk s → All IsSpace pad → rstrip (s ++ pad) ≡ s
rstrip-append [] pad hs hp = rstrip_spaces pad hp
rstrip-append (c ∷ s) pad (h, hs) hp = rw (rstrip-append s pad hs hp) (strip_before_ink c s h)

-- White space on both sides of a text without any is taken away.
pub strip-append :
    (before : Text) (c : ℕ) (s after : Text)
    → All IsSpace before
    → All IsInk (c ∷ s)
    → All IsSpace after
    → strip (before ++ (c ∷ s ++ after)) ≡ c ∷ s
unfolding strip
strip-append before c s after hb (h, hs) ha =
    ap rstrip (lstrip-append before (c ∷ s ++ after) hb)
    ∙ rw h (rstrip-append (c ∷ s) after (h, hs) ha)
