-- ===== src/Rows/Lookup.antt =====
-- Fetching a row by its number after a statement on the table.
use rpinode.Rows.{delete, change, first, Distinct}
use mathlib.Core.Option.{some-injective}
use rpinode.Prelude.{
  ℕ, ◌<◌, ◌≡◌, ◌≢◌, refl, ap, ◌∙◌, inl, inr, true, false, Option, some, List, [], ◌∷◌, ◌++◌, ◌==◌,
  ==_refl, arith, Bool-cases, All,
}

module _ {ℓ} {A : Type ℓ} (id : A → ℕ) where
  -- `SELECT * … WHERE id = ?`
  abbrev pub by_id : ℕ → List A → Option A
  by_id i rows = first (λ a. id a == i) rows

  pub by_id-set_same :
      (a b : A) (rows : List A)
      → by_id (id a) rows ≡ some b
      → by_id (id a) (change (λ c. id c == id a) (λ c. a) rows) ≡ some a
  by_id-set_same a b [] e = cc
  by_id-set_same a b (c ∷ rows) e = elim (Bool-cases (id c == id a)) [
    | inl hit ↦ rw (hit, ==_refl (id a))
    | inr miss ↦ rw (miss, miss) (by_id-set_same a b rows (rw miss at e))
  ]

  pub by_id-change_same :
      (i : ℕ) (f : A → A) (b : A) (rows : List A)
      → ((a : A) → id (f a) ≡ id a)
      → by_id i rows ≡ some b
      → by_id i (change (λ c. id c == i) f rows) ≡ some (f b)
  by_id-change_same i f b [] g e = cc
  by_id-change_same i f b (c ∷ rows) g e = elim (Bool-cases (id c == i)) [
    | inl hit ↦
        let still : (id (f c) == i) ≡ true = ap (λ (k : ℕ). k == i) (g c) ∙ hit in
        rw (hit, still) (ap (λ x. some (f x)) (some-injective c b (rw hit at e)))
    | inr miss ↦ rw (miss, miss) (by_id-change_same i f b rows g (rw miss at e))
  ]

  -- Where the numbers are distinct, each row is the one of its number.
  pub by_id-Distinct :
      (rows : List A) → Distinct id rows → All (λ a. by_id (id a) rows ≡ some a) rows
  by_id-Distinct [] h = tt
  by_id-Distinct (a ∷ rows) (h, hs) =
      (rw (==_refl (id a)) refl, All-later rows h (by_id-Distinct rows hs))
    where
      All-later :
          (later : List A)
          → All (λ b. id a ≢ id b) later
          → All (λ b. by_id (id b) rows ≡ some b) later
          → All (λ b. by_id (id b) (a ∷ rows) ≡ some b) later
      All-later [] n g = tt
      All-later (b ∷ later) (n, ns) (g, gs) =
          let other : (id a == id b) ≡ false = ground arith in (rw other g, All-later later ns gs)

  -- Another row is not touched.
  pub by_id-change_other :
      (i j : ℕ) (f : A → A) (rows : List A)
      → i ≢ j
      → ((a : A) → id a ≡ j → id (f a) ≡ j)
      → by_id i (change (λ c. id c == j) f rows) ≡ by_id i rows
  by_id-change_other i j f [] n g = refl
  by_id-change_other i j f (c ∷ rows) n g =
      let rest = by_id-change_other i j f rows n g in
      elim (Bool-cases (id c == j)) [
        | inl hit ↦
            let at : id (f c) ≡ j = g c (ground arith) in
            let away : (id (f c) == i) ≡ false = ground arith in
            let off : (id c == i) ≡ false = ground arith in rw (hit, away, off) rest
        | inr miss ↦ elim (Bool-cases (id c == i)) [
          | inl found ↦ rw (miss, found)
          | inr other ↦ rw (miss, other) rest
        ]
      ]

  pub by_id-append_new :
      (a : A) (rows : List A) → All (λ b. id b < id a) rows → by_id (id a) (rows ++ a ∷ []) ≡ some a
  by_id-append_new a [] h = rw (==_refl (id a))
  by_id-append_new a (b ∷ rows) (h, hs) =
      let other : (id b == id a) ≡ false = ground arith in rw other (by_id-append_new a rows hs)

  -- The rows of other numbers are not touched.
  pub delete-change :
      (i : ℕ) (f : A → A) (rows : List A)
      → ((a : A) → id a ≡ i → id (f a) ≡ i)
      → delete (λ a. id a == i) (change (λ a. id a == i) f rows) ≡ delete (λ a. id a == i) rows
  delete-change i f [] g = refl
  delete-change i f (a ∷ rows) g =
      let rest = delete-change i f rows g in
      elim (Bool-cases (id a == i)) [
        | inl hit ↦
            let there : id (f a) ≡ i = g a (ground arith) in
            let same : (id (f a) == i) ≡ true = ground arith in rw (hit, same) rest
        | inr miss ↦ rw (miss, miss) (ap (◌∷◌ a) rest)
      ]

  pub delete-append :
      (i : ℕ) (a : A) (rows : List A)
      → id a ≡ i
      → delete (λ b. id b == i) (rows ++ a ∷ []) ≡ delete (λ b. id b == i) rows
  delete-append i a [] e = let same : (id a == i) ≡ true = ground arith in rw same refl
  delete-append i a (b ∷ rows) e =
      let rest = delete-append i a rows e in
      elim (Bool-cases (id b == i)) [ inl hit ↦ rw hit rest | inr miss ↦ rw miss (ap (◌∷◌ b) rest) ]
