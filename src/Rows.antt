-- ===== src/Rows.antt =====
-- The statements of SQL that the services use, on a table as the list of its rows in the order of
-- their numbers.
pub mod Lookup
pub mod Loops
pub mod Tables
use rpinode.Prelude.{
  ℕ, zero, suc, ◌≡◌, ◌≢◌, refl, ap, ap₂, sym, ◌∙◌, Bool, true, false, ◌||◌, not, Option, none, some,
  List, [], ◌∷◌, ◌++◌, map, inl, inr, Bool-cases, if◌then◌else◌, All,
}
use mathlib.Core.Option.{some-injective}
use mathlib.Core.Path.{subst}

module _ {ℓ} {A : Type ℓ} where
  -- `SELECT … WHERE test`
  abbrev pub select : (A → Bool) → List A → List A
  select test [] = []
  select test (a ∷ rows) = let rest = select test rows in if test a then a ∷ rest else rest

  -- `DELETE … WHERE test`
  abbrev pub delete : (A → Bool) → List A → List A
  delete test rows = select (λ a. not (test a)) rows

  -- `UPDATE … SET f WHERE test`
  abbrev pub change : (A → Bool) → (A → A) → List A → List A
  change test f [] = []
  change test f (a ∷ rows) = (if test a then f a else a) ∷ change test f rows

  -- `SELECT … WHERE test` and `fetchone()`
  abbrev pub first : (A → Bool) → List A → Option A
  first test [] = none
  first test (a ∷ rows) = let rest = first test rows in if test a then some a else rest

  abbrev pub any_row : (A → Bool) → List A → Bool
  any_row test [] = false
  any_row test (a ∷ rows) = test a || any_row test rows

  -- `SELECT COUNT(*) … WHERE test`
  abbrev pub count_rows : (A → Bool) → List A → ℕ
  count_rows test [] = 0
  count_rows test (a ∷ rows) = let rest = count_rows test rows in if test a then suc rest else rest

module _ {ℓ κ} {A : Type ℓ} (P : A → Type κ) where
  pub All-select : (test : A → Bool) (rows : List A) → All P rows → All P (select test rows)
  All-select test [] h = tt
  All-select test (a ∷ rows) (h, hs) = elim (Bool-cases (test a)) [
    | inl hit ↦ rw hit (h, All-select test rows hs)
    | inr miss ↦ rw miss (All-select test rows hs)
  ]

  pub All-select_test :
      (test : A → Bool) (rows : List A) → ((a : A) → test a ≡ true → P a) → All P (select test rows)
  All-select_test test [] g = tt
  All-select_test test (a ∷ rows) g = elim (Bool-cases (test a)) [
    | inl hit ↦ rw hit (g a hit, All-select_test test rows g)
    | inr miss ↦ rw miss (All-select_test test rows g)
  ]

  -- What a change keeps of a row that it touches, it keeps of all.
  pub All-change :
      (test : A → Bool) (f : A → A) (rows : List A)
      → ((a : A) → test a ≡ true → P a → P (f a))
      → All P rows
      → All P (change test f rows)
  All-change test f [] g h = tt
  All-change test f (a ∷ rows) g (h, hs) = elim (Bool-cases (test a)) [
    | inl hit ↦ rw hit (g a hit h, All-change test f rows g hs)
    | inr miss ↦ rw miss (h, All-change test f rows g hs)
  ]

  pub first-All :
      (test : A → Bool) (a : A) (rows : List A) → All P rows → first test rows ≡ some a → P a
  first-All test a [] h e = cc
  first-All test a (b ∷ rows) (h, hs) e = elim (Bool-cases (test b)) [
    | inl hit ↦ subst P (some-injective b a (rw hit at e)) h
    | inr miss ↦ first-All test a rows hs (rw miss at e)
  ]

module _ {ℓ} {A : Type ℓ} where
  pub first-test :
      (test : A → Bool) (a : A) (rows : List A) → first test rows ≡ some a → test a ≡ true
  first-test test a [] e = cc
  first-test test a (b ∷ rows) e = elim (Bool-cases (test b)) [
    | inl hit ↦ subst (λ x. test x ≡ true) (some-injective b a (rw hit at e)) hit
    | inr miss ↦ first-test test a rows (rw miss at e)
  ]

module _ {ℓ κ} {A : Type ℓ} {K : Type κ} (key : A → K) where
  -- No key stands twice.
  abbrev pub Distinct : List A → Type (ℓ ⊔ κ)
  Distinct [] = Unit
  Distinct (a ∷ rows) = All (λ b. key a ≢ key b) rows × Distinct rows

  pub Distinct-select :
      (test : A → Bool) (rows : List A) → Distinct rows → Distinct (select test rows)
  Distinct-select test [] h = tt
  Distinct-select test (a ∷ rows) (h, hs) = elim (Bool-cases (test a)) [
    | inl hit ↦ rw hit (All-select _ test rows h, Distinct-select test rows hs)
    | inr miss ↦ rw miss (Distinct-select test rows hs)
  ]

  -- A change that leaves the keys leaves them distinct.
  pub Distinct-change :
      (test : A → Bool) (f : A → A) (rows : List A)
      → ((a : A) → test a ≡ true → key (f a) ≡ key a)
      → Distinct rows
      → Distinct (change test f rows)
  Distinct-change test f [] g h = tt
  Distinct-change test f (a ∷ rows) g (h, hs) =
      let away = All-change _ test f rows (λ b t n e. n (e ∙ g b t)) h in
      elim (Bool-cases (test a)) [
        | inl hit ↦ rw hit (
          subst (λ k. All (λ b. k ≢ key b) (change test f rows)) (sym (g a hit)) away,
          Distinct-change test f rows g hs,
        )
        | inr miss ↦ rw miss (away, Distinct-change test f rows g hs)
      ]

  pub All-append_one {μ} :
      (P : A → Type μ) (a : A) (rows : List A) → All P rows → P a → All P (rows ++ a ∷ [])
  All-append_one P a [] h k = (k, tt)
  All-append_one P a (b ∷ rows) (h, hs) k = (h, All-append_one P a rows hs k)

  -- An `INSERT` of a row with a new key.
  pub Distinct-append :
      (a : A) (rows : List A)
      → All (λ b. key b ≢ key a) rows
      → Distinct rows
      → Distinct (rows ++ a ∷ [])
  Distinct-append a [] new h = (tt, tt)
  Distinct-append a (b ∷ rows) (n, new) (h, hs) =
      (All-append_one _ a rows h n, Distinct-append a rows new hs)
