-- ===== src/Sort.antt =====
-- Sorting by insertion, for `sorted`, `list.sort` and `ORDER BY`, and the order of texts.
pub mod Order
use rpinode.Text.{Text}
use rpinode.Prelude.{ℕ, Bool, true, false, ◌&&◌, ◌||◌, List, [], ◌∷◌, ltb, ◌==◌, if◌then◌else◌}

module _ {ℓ} {A : Type ℓ} (le : A → A → Bool) where
  abbrev pub insert_by : A → List A → List A
  insert_by a [] = a ∷ []
  insert_by a (b ∷ rows) = let rest = insert_by a rows in if le a b then a ∷ b ∷ rows else b ∷ rest

  -- Elements that compare equal keep their order.
  abbrev pub sort_by : List A → List A
  sort_by [] = []
  sort_by (a ∷ rows) = insert_by a (sort_by rows)

-- `s <= t` of texts, by their code points.
unfoldable pub text_le : Text → Text → Bool
text_le [] t = true
text_le (a ∷ s) [] = false
text_le (a ∷ s) (b ∷ t) = ltb a b || (a == b && text_le s t)
