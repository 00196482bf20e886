-- ===== src/ModbusMgr/Points/Only.antt =====
-- A selection of points leaves the other tables.
use mathlib.Core.Option.{none-ne-some, some-injective}
use mathlib.Core.Path.{subst}
use rpinode.Dict.{get, code_eq}
use rpinode.ModbusMgr.{Point, Store, or_default, point_key}
use rpinode.ModbusMgr.Points.{Selected, same_slot, insert_point, select_point, select_points}
use rpinode.Prelude.Options.{>>=-some}
use rpinode.Prelude.{ℕ, ◌≡◌, refl, ap, ◌∙◌, some, List, [], ◌∷◌, inl, inr, Bool-cases, Option-cases}
use rpinode.Rows.{any_row}
use rpinode.Text.{Text}

-- Only the table of points may differ.
abbrev pub IsOnly : Store → Store → Type 0
IsOnly st st' = st' ≡ record st { points = st'.points; next_point = st'.next_point }

insert_point-IsOnly : (p : Point) (st st' : Store) → insert_point p st ≡ some st' → IsOnly st st'
unfolding insert_point
insert_point-IsOnly p st st' e = elim (Bool-cases (any_row (same_slot p) st.points)) [
  | inl taken ↦ absurd (none-ne-some _ (rw taken at e))
  | inr free ↦ subst (IsOnly st) (some-injective _ _ (rw free at e)) refl
]

select_point-IsOnly :
    (device_id site_id unit : ℕ) (existing : List (Text × ℕ)) (q : Selected) (st st' : Store)
    → select_point device_id site_id unit existing q st ≡ some st'
    → IsOnly st st'
unfolding select_point
select_point-IsOnly device_id site_id unit existing q st st' e =
    elim (Option-cases (get (point_key (or_default q.function 3) q.reg) existing)) [
      | inr (i, there) ↦ elim (Bool-cases q.is_monitored) [
        | inl on ↦ subst (IsOnly st) (some-injective _ _ (rw (there, select_point, on) at e)) refl
        | inr off ↦ subst (IsOnly st) (some-injective _ _ (rw (there, select_point, off) at e)) refl
      ]
      | inl missing ↦ elim (Bool-cases q.is_monitored) [
        | inl on ↦ insert_point-IsOnly _ st st' (rw (missing, select_point, on) at e)
        | inr off ↦
            subst (IsOnly st) (some-injective _ _ (rw (missing, select_point, off) at e)) refl
      ]
    ]

pub select_points-IsOnly :
    (device_id site_id unit : ℕ) (existing : List (Text × ℕ)) (selected : List Selected)
    (st st' : Store)
    → select_points device_id site_id unit existing selected st ≡ some st'
    → IsOnly st st'
unfolding select_points
select_points-IsOnly device_id site_id unit existing [] st st' e =
    subst (IsOnly st) (some-injective _ _ e) refl
select_points-IsOnly device_id site_id unit existing (q ∷ selected) st st' e =
    let (mid, done, e1) = >>=-some (select_point device_id site_id unit existing q st) _ st' e in
    let rest = select_points-IsOnly device_id site_id unit existing selected mid st' e1 in
    rest
    ∙ ap (λ (s : Store). record s { points = st'.points; next_point = st'.next_point })
        (select_point-IsOnly device_id site_id unit existing q st mid done)
