-- ===== src/Rows/Loops.antt =====
-- A loop over rows that were fetched, with a statement on the row of each by its number, against one
-- pass over the table.
use mathlib.Core.Path.{subst}
use rpinode.Rows.{select, All-select, Distinct}
use rpinode.Prelude.{
  ℕ, ◌≡◌, ◌≢◌, refl, ap, sym, ◌∙◌, Bool, true, false, ◌||◌, Option, none, some, List, [], ◌∷◌, inl,
  inr, arith, Bool-cases, Option-cases, ◌==◌, ==_refl, if◌then◌else◌, All,
}

module _ {ℓ} {A : Type ℓ} (id : A → ℕ) (act : A → A → Option A) where
  -- A row with its new value, or without it.
  abbrev pub kept : Option A → List A → List A
  kept none rows = rows
  kept (some a) rows = a ∷ rows

  -- The statement for the fetched row s: `act s` on each row with its number.
  abbrev pub visit : A → List A → List A
  visit s [] = []
  visit s (a ∷ rows) =
      let rest = visit s rows in if id a == id s then kept (act s a) rest else a ∷ rest

  abbrev pub visit_all : List A → List A → List A
  visit_all [] rows = rows
  visit_all (s ∷ fetched) rows = visit_all fetched (visit s rows)

  -- One pass over the table.
  abbrev pub sweep : (A → Bool) → List A → List A
  sweep test [] = []
  sweep test (a ∷ rows) =
      let rest = sweep test rows in if test a then kept (act a a) rest else a ∷ rest

  visit_absent : (s : A) (rows : List A) → All (λ b. id s ≢ id b) rows → visit s rows ≡ rows
  visit_absent s [] h = refl
  visit_absent s (a ∷ rows) (h, hs) =
      let other : (id a == id s) ≡ false = ground arith in
      rw other (ap (◌∷◌ a) (visit_absent s rows hs))

  visit_all-cons :
      (fetched : List A) (a : A) (rows : List A)
      → All (λ b. id a ≢ id b) fetched
      → visit_all fetched (a ∷ rows) ≡ a ∷ visit_all fetched rows
  visit_all-cons [] a rows h = refl
  visit_all-cons (s ∷ fetched) a rows (h, hs) =
      let other : (id a == id s) ≡ false = ground arith in
      rw other (visit_all-cons fetched a (visit s rows) hs)

  visit_self :
      (a : A) (rows : List A)
      → All (λ b. id a ≢ id b) rows
      → visit a (a ∷ rows) ≡ kept (act a a) rows
  visit_self a rows h = rw (==_refl (id a)) (ap (kept (act a a)) (visit_absent a rows h))

  -- Where the numbers are distinct and a change keeps the number, the loop over the rows that meet a
  -- test is the pass over them.
  pub visit_all-sweep :
      (test : A → Bool) (rows : List A)
      → ((s a b : A) → act s a ≡ some b → id b ≡ id a)
      → Distinct id rows
      → visit_all (select test rows) rows ≡ sweep test rows
  visit_all-sweep test [] g h = refl
  visit_all-sweep test (a ∷ rows) g (h, hs) =
      let away = All-select (λ b. id a ≢ id b) test rows h in
      let rest = visit_all-sweep test rows g hs in
      let at = λ (o : List A). visit_all (select test rows) o in
      elim (Bool-cases (test a)) [
        | inl hit ↦ elim (Option-cases (act a a)) [
          | inl gone ↦
              simp hit
                (ap at (visit_self a rows h ∙ ap (λ o. kept o rows) gone) ∙ rest ∙ rw gone refl)
          | inr (b, there) ↦
              let moved =
                subst (λ k. All (λ c. k ≢ id c) (select test rows)) (sym (g a a b there)) away in
              simp hit (
                ap at (visit_self a rows h ∙ ap (λ o. kept o rows) there)
                ∙ visit_all-cons (select test rows) b rows moved
                ∙ ap (◌∷◌ b) rest
                ∙ rw there refl)
        ]
        | inr miss ↦ rw miss (visit_all-cons (select test rows) a rows away ∙ ap (◌∷◌ a) rest)
      ]

  -- Two passes over rows that differ are one.
  pub sweep-sweep :
      (test other : A → Bool) (rows : List A)
      → ((a : A) → test a ≡ true → other a ≡ false)
      → ((a b : A) → act a a ≡ some b → other b ≡ other a)
      → sweep other (sweep test rows) ≡ sweep (λ a. test a || other a) rows
  sweep-sweep test other [] apart keeps = refl
  sweep-sweep test other (a ∷ rows) apart keeps =
      let rest = sweep-sweep test other rows apart keeps in
      elim (Bool-cases (test a)) [
        | inl hit ↦ elim (Option-cases (act a a)) [
          | inl gone ↦ rw (hit, gone) rest
          | inr (b, there) ↦ rw (hit, there, keeps a b there ∙ apart a hit) (ap (◌∷◌ b) rest)
        ]
        | inr miss ↦ elim (Bool-cases (other a)) [
          | inl second ↦ rw (miss, second) (ap (kept (act a a)) rest)
          | inr neither ↦ rw (miss, neither) (ap (◌∷◌ a) rest)
        ]
      ]

  module _ {μ} (P : A → Type μ) where
    pub All-sweep :
        (test : A → Bool) (rows : List A)
        → ((a b : A) → act a a ≡ some b → P a → P b)
        → All P rows
        → All P (sweep test rows)
    All-sweep test [] g h = tt
    All-sweep test (a ∷ rows) g (h, hs) = elim (Bool-cases (test a)) [
      | inl hit ↦ elim (Option-cases (act a a)) [
        | inl gone ↦ rw (hit, gone) (All-sweep test rows g hs)
        | inr (b, there) ↦ rw (hit, there) (g a b there h, All-sweep test rows g hs)
      ]
      | inr miss ↦ rw miss (h, All-sweep test rows g hs)
    ]

  module _ {κ} {K : Type κ} (key : A → K)
      (keeps : (s a b : A) → act s a ≡ some b → key b ≡ key a) where
    pub Distinct-sweep :
        (test : A → Bool) (rows : List A) → Distinct key rows → Distinct key (sweep test rows)
    Distinct-sweep test [] h = tt
    Distinct-sweep test (a ∷ rows) (h, hs) =
        let rest = Distinct-sweep test rows hs in
        let away =
          All-sweep (λ b. key a ≢ key b) test rows (λ b c e n same. n (same ∙ keeps b b c e)) h in
        elim (Bool-cases (test a)) [
          | inl hit ↦ elim (Option-cases (act a a)) [
            | inl gone ↦ rw (hit, gone) rest
            | inr (b, there) ↦
                rw (hit, there)
                  (
                    subst (λ k. All (λ c. k ≢ key c) (sweep test rows)) (sym (keeps a a b there))
                        away,
                    rest,
                  )
          ]
          | inr miss ↦ rw miss (away, rest)
        ]
