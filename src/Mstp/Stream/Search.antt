-- ===== src/Mstp/Stream/Search.antt =====
-- Where the preamble search of the stream decoder lands.
use rpinode.Mstp.Stream.{find_preamble, find_from}
use rpinode.Prelude.{
  ℕ, zero, suc, ◌+◌, ◌≤◌, ◌≡◌, refl, sym, ◌∙◌, ap, none, some, List, [], ◌∷◌, ◌&&◌, ◌==◌, inl, inr,
  Bool-cases, arith, drop,
}

pub drop-nil : (n : ℕ) → drop {A = ℕ} n [] ≡ []
drop-nil zero = refl
drop-nil (suc n) = refl

pub drop-drop : (i k : ℕ) (xs : List ℕ) → drop k (drop i xs) ≡ drop (k + i) xs
drop-drop zero k xs = ap (λ (n : ℕ). drop n xs) (omega arith)
drop-drop (suc i) k [] = drop-nil k ∙ sym (drop-nil (k + suc i))
drop-drop (suc i) k (x ∷ xs) =
    drop-drop i k xs ∙ ap (λ (n : ℕ). drop n (x ∷ xs)) {x = suc (k + i)} (omega arith)

-- A preamble that is found stands where the search says, at or after its start.
find_preamble_sound :
    (at : ℕ) (xs : List ℕ) (idx : ℕ)
    → find_preamble at xs ≡ some idx
    → (k : ℕ) × (rest : List ℕ) × (idx ≡ k + at) × (drop k xs ≡ 0x55 ∷ 0xff ∷ rest)
unfolding find_preamble
find_preamble_sound at [] idx h = cc
find_preamble_sound at (a ∷ []) idx h = cc
find_preamble_sound at (a ∷ b ∷ rest) idx h = elim (Bool-cases (a == 0x55 && b == 0xff)) [
  | inl here ↦ (0, rest, ground arith, ground arith)
  | inr later ↦
      let (k, r, place, found) = find_preamble_sound (at + 1) (b ∷ rest) idx (ground arith) in
      (suc k, r, omega arith, found)
]

pub find_from_sound :
    (stream : List ℕ) (i idx : ℕ)
    → find_from stream i ≡ some idx
    → (rest : List ℕ) × (i ≤ idx) × (drop idx stream ≡ 0x55 ∷ 0xff ∷ rest)
unfolding find_from
find_from_sound stream i idx h =
    let (k, rest, place, found) = find_preamble_sound i (drop i stream) idx h in
    (rest, omega arith, ap (λ (n : ℕ). drop n stream) place ∙ sym (drop-drop i k stream) ∙ found)

-- Past the last two bytes nothing is found.
pub find_from_end : (stream : List ℕ) (i : ℕ) → drop i stream ≡ [] → find_from stream i ≡ none
unfolding find_from find_preamble
find_from_end stream i h = rw h
