-- ===== src/Rows/Tables.antt =====
-- A table whose rows have distinct numbers, below the next one that `AUTOINCREMENT` gives.
use rpinode.Rows.{
  select, change, Distinct, Distinct-select, Distinct-change, Distinct-append, All-select,
  All-change, All-append_one,
}
use rpinode.Rows.Loops.{sweep, All-sweep, Distinct-sweep}
use mathlib.Core.Path.{subst}
use rpinode.Prelude.{
  ℕ, suc, ◌<◌, ◌≡◌, sym, Bool, true, Option, some, List, [], ◌∷◌, ◌++◌, arith, All,
}

module _ {ℓ κ} {A : Type ℓ} {P Q : A → Type κ} (f : (a : A) → P a → Q a) where
  pub All-map_proof : (rows : List A) → All P rows → All Q rows
  All-map_proof [] h = tt
  All-map_proof (a ∷ rows) (h, hs) = (f a h, All-map_proof rows hs)

pub record IsTable {ℓ} {A : Type ℓ} (id : A → ℕ) (next : ℕ) (rows : List A) : Type ℓ where
  pub distinct : Distinct id rows
  pub below : All (λ a. id a < next) rows

module _ {ℓ} {A : Type ℓ} (id : A → ℕ) (next : ℕ) (rows : List A) (h : IsTable id next rows) where
  pub IsTable-select : (test : A → Bool) → IsTable id next (select test rows)
  IsTable-select test = record {
    distinct = Distinct-select id test rows h.distinct;
    below = All-select _ test rows h.below;
  }

  pub IsTable-change :
      (test : A → Bool) (f : A → A)
      → ((a : A) → test a ≡ true → id (f a) ≡ id a)
      → IsTable id next (change test f rows)
  IsTable-change test f keeps = record {
    distinct = Distinct-change id test f rows keeps h.distinct;
    below = All-change _ test f rows (λ a t b. subst (λ i. i < next) (sym (keeps a t)) b) h.below;
  }

  pub IsTable-append : (a : A) → id a ≡ next → IsTable id (suc next) (rows ++ a ∷ [])
  IsTable-append a e = record {
    distinct =
        Distinct-append id a rows (All-map_proof (λ b l same. omega arith) rows h.below) h.distinct;
    below =
        All-append_one id _ a rows (All-map_proof (λ b l. omega arith) rows h.below) (omega arith);
  }

  pub IsTable-sweep :
      (act : A → A → Option A) (test : A → Bool)
      → ((s a b : A) → act s a ≡ some b → id b ≡ id a)
      → IsTable id next (sweep id act test rows)
  IsTable-sweep act test keeps = record {
    distinct = Distinct-sweep id act id keeps test rows h.distinct;
    below =
        All-sweep id act _ test rows (λ a b e l. subst (λ i. i < next) (sym (keeps a a b e)) l)
          h.below;
  }
