-- ===== src/Mstp/Stream/Header.antt =====
-- The eight bytes at a preamble that the search has found.
use rpinode.Mstp.Stream.{Frame, find_from, slice}
use rpinode.Mstp.Stream.Search.{find_from_sound}
use rpinode.Prelude.{
  ℕ, ◌+◌, ◌-◌, ◌*◌, ◌≤◌, ◌≡◌, refl, ◌∙◌, ap, some, List, [], ◌∷◌, arith, length, drop, length-drop,
  take,
}

-- The header at a preamble with eight bytes left.
pub record HeaderAt (stream : List ℕ) (idx : ℕ) : Type 0 where
  pub f : Frame
  pub hi : ℕ
  pub lo : ℕ
  pub check : ℕ
  pub tail : List ℕ
  pub found : drop idx stream ≡ 0x55 ∷ 0xff ∷ f.ftype ∷ f.dest ∷ f.src ∷ hi ∷ lo ∷ check ∷ tail
  pub bytes :
      slice stream idx (idx + 8) ≡ 0x55 ∷ 0xff ∷ f.ftype ∷ f.dest ∷ f.src ∷ hi ∷ lo ∷ check ∷ []
  pub sized : f.length_field ≡ hi * 256 + lo

take_eight : (idx : ℕ) (xs : List ℕ) → take (idx + 8 - idx) xs ≡ take 8 xs
take_eight idx xs = ap (λ (n : ℕ). take n xs) {y = 8} (omega arith)

header_of :
    (stream : List ℕ) (idx : ℕ) (rest : List ℕ)
    → drop idx stream ≡ 0x55 ∷ 0xff ∷ rest
    → 6 ≤ length rest
    → HeaderAt stream idx
header_of stream idx (t ∷ d ∷ s ∷ hi ∷ lo ∷ c ∷ tail) e h = record {
  f = record { ftype = t; dest = d; src = s; length_field = hi * 256 + lo };
  hi = hi;
  lo = lo;
  check = c;
  tail = tail;
  found = e;
  bytes = take_eight idx (drop idx stream) ∙ ap (take 8) e;
  sized = refl;
}
header_of stream idx rest e h = absurd (omega arith)

rest_long :
    (stream : List ℕ) (idx : ℕ) (rest : List ℕ)
    → drop idx stream ≡ 0x55 ∷ 0xff ∷ rest
    → idx + 8 ≤ length stream
    → 6 ≤ length rest
rest_long stream idx rest e h = omega (arith, ap length e, length-drop idx stream)

pub header_at :
    (stream : List ℕ) (i idx : ℕ)
    → find_from stream i ≡ some idx
    → idx + 8 ≤ length stream
    → HeaderAt stream idx
header_at stream i idx e h =
    let (rest, later, found) = find_from_sound stream i idx e in
    header_of stream idx rest found (rest_long stream idx rest found h)
