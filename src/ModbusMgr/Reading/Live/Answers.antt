-- ===== src/ModbusMgr/Reading/Live/Answers.antt =====
-- The rows of a reading, and what an answer leaves of a point.
use mathlib.Core.Option.{some-injective}
use rpinode.Dict.{get, code_eq}
use rpinode.Modbus.Error.{Result, ok, err}
use rpinode.ModbusMgr.{Point, Store, or_default}
use rpinode.ModbusMgr.Reading.{
  Value, Row, unit_of, ask_row, show_read, note_read, point_row, row_le, joined,
  get_site_modbus_points,
}
use rpinode.ModbusMgr.Reading.Decode.{World}
use rpinode.Prelude.{
  ℕ, ◌≡◌, ◌≢◌, refl, sym, ap, ◌∙◌, ◌⊎◌, inl, inr, Bool, true, some, List, [], ◌∷◌, ◌==◌,
  Option-cases, All,
}
use rpinode.Rows.{first, Distinct, All-select}
use rpinode.Rows.Lookup.{by_id, by_id-Distinct, by_id-change_same, by_id-change_other}
use rpinode.Sort.Order.{All-sort_by}
use rpinode.Text.{Text, decimal}

-- The point after an answer: a value that was read is kept with its time.
abbrev pub point_after : World → Result (Text × Text) → Point → Point
point_after w (ok v) p = record p { last_value = some v.0; last_read_ts = some w.now }
point_after w (err e) p = p

-- The row is the one of its number.
abbrev pub IsRowOf : Store → Row → Type 0
IsRowOf st r = point_row r.point.id st ≡ some r

joined-IsRowOf :
    (st : Store) (points : List Point)
    → All (λ p. by_id (λ q. q.id) p.id st.points ≡ some p) points
    → All (IsRowOf st) (joined st.devices st.templates points)
unfolding joined point_row
joined-IsRowOf st [] h = tt
joined-IsRowOf st (p ∷ points) (h, hs) =
    elim (Option-cases (first (λ d. d.id == p.device_id) st.devices)) [
      | inl alone ↦ rw (alone, joined) (joined-IsRowOf st points hs)
      | inr (d, there) ↦ elim (Option-cases (first (λ t. t.id == d.template_id) st.templates)) [
        | inl bare ↦ rw (there, joined, bare) (joined-IsRowOf st points hs)
        | inr (t, known) ↦
            rw (there, joined, known) (rw (h, point_row, there) refl, joined-IsRowOf st points hs)
      ]
    ]

pub get_site_modbus_points-IsRowOf :
    (site_id : ℕ) (only_monitored : Bool) (st : Store)
    → Distinct (λ p. p.id) st.points
    → All (IsRowOf st) (get_site_modbus_points site_id only_monitored st)
unfolding get_site_modbus_points
get_site_modbus_points-IsRowOf site_id only_monitored st h = All-sort_by (IsRowOf st) row_le _ (
    All-select (IsRowOf st) _ _
      (joined-IsRowOf st st.points (by_id-Distinct (λ p. p.id) st.points h)))

-- Two rows of the same number are the same.
pub same_row :
    (st : Store) (r s : Row) → IsRowOf st r → IsRowOf st s → r.point.id ≡ s.point.id → r ≡ s
same_row st r s h k e = some-injective r s (sym h ∙ ap (λ (i : ℕ). point_row i st) e ∙ k)

pub show_read-value :
    (w : World) (res : Result (Text × Text)) (p : Point) (points : List Point)
    → (show_read w res p points).0 ≡ (show_read w res p []).0
unfolding show_read
show_read-value w (ok v) p points = refl
show_read-value w (err e) p points = refl

-- The row of the point is as before, or as it is after the answer.
abbrev pub IsOpen : World → Result (Text × Text) → Point → List Point → Type 0
IsOpen w res p points =
    (by_id (λ q. q.id) p.id points ≡ some p)
    ⊎ (by_id (λ q. q.id) p.id points ≡ some (point_after w res p))

pub show_read-same :
    (w : World) (res : Result (Text × Text)) (p : Point) (points : List Point)
    → IsOpen w res p points
    → by_id (λ q. q.id) p.id (show_read w res p points).1 ≡ some (point_after w res p)
unfolding show_read note_read
show_read-same w (ok v) p points (inl before) =
    by_id-change_same (λ q. q.id) p.id _ p points (λ q. refl) before
show_read-same w (ok v) p points (inr after) =
    by_id-change_same (λ q. q.id) p.id _ (point_after w (ok v) p) points (λ q. refl) after
show_read-same w (err e) p points (inl before) = before
show_read-same w (err e) p points (inr after) = after

pub show_read-other :
    (w : World) (res : Result (Text × Text)) (p : Point) (i : ℕ) (points : List Point)
    → i ≢ p.id
    → by_id (λ q. q.id) i (show_read w res p points).1 ≡ by_id (λ q. q.id) i points
unfolding show_read note_read
show_read-other w (ok v) p i points n = by_id-change_other (λ q. q.id) i p.id _ points n (λ q k. k)
show_read-other w (err e) p i points n = refl

-- The answer of a row, and what is shown of it.
abbrev pub answer : World → Row → Result (Text × Text)
answer w r = ask_row w r (or_default (unit_of w r) 0)

abbrev pub shown : World → Row → Value
shown w r = (show_read w (answer w r) r.point []).0

-- A row that can be asked: the one of its number, with a unit, and monitored.
pub record CanAsk (w : World) (st : Store) (r : Row) : Type 0 where
  pub its : IsRowOf st r
  pub known : (unit : ℕ) × (unit_of w r ≡ some unit)
  pub on : r.point.is_monitored ≡ true

-- The results have what is shown of the row, and the table what was read.
pub record IsNoted (w : World) (r : Row) (results : List (Text × Value)) (points : List Point)
    : Type 0 where
  pub listed : get (decimal r.point.id) results ≡ some (shown w r)
  pub written : by_id (λ q. q.id) r.point.id points ≡ some (point_after w (answer w r) r.point)
