-- ===== src/Sort/Order.antt =====
-- What a sort keeps.
use rpinode.Sort.{insert_by, sort_by}
use rpinode.Prelude.{Bool, inl, inr, List, [], ◌∷◌, All, Bool-cases}

module _ {ℓ κ} {A : Type ℓ} (P : A → Type κ) (le : A → A → Bool) where
  All-insert_by : (a : A) (rows : List A) → P a → All P rows → All P (insert_by le a rows)
  All-insert_by a [] h hs = (h, tt)
  All-insert_by a (b ∷ rows) h (g, gs) = elim (Bool-cases (le a b)) [
    | inl before ↦ rw before (h, (g, gs))
    | inr after ↦ rw after (g, All-insert_by a rows h gs)
  ]

  pub All-sort_by : (rows : List A) → All P rows → All P (sort_by le rows)
  All-sort_by [] h = tt
  All-sort_by (a ∷ rows) (h, hs) = All-insert_by a (sort_by le rows) h (All-sort_by rows hs)
