-- ===== src/ModbusMgr/Reading/Live.antt =====
-- Reading all points of a site against reading them one by one.
mod Answers
mod Loop
use mathlib.Core.Option.{none-ne-some, some-injective}
use mathlib.Core.Path.{subst}
use rpinode.Dict.{get, put, code_eq, get-put, get-put_self}
use rpinode.Modbus.Error.{Result, ok, err}
use rpinode.ModbusMgr.{Template, Device, Point, Store, or_default}
use rpinode.ModbusMgr.Reading.{
  Value, Row, unit_of, ask_row, show_read, read_value, retained_value, note_read, point_row,
  read_single_point_live, row_le, joined, get_site_modbus_points, read_rows,
  read_site_monitored_points_live,
}
use rpinode.ModbusMgr.Reading.Decode.{World}
use rpinode.Prelude.Options.{◌>>=◌}
use rpinode.Prelude.{
  ℕ, ◌≡◌, ◌≢◌, refl, sym, ap, ◌∙◌, ◌⊎◌, inl, inr, Bool, true, false, ◌&&◌, ◌||◌, not, Option, none,
  some, List, [], ◌∷◌, ◌==◌, ==_iff, ==_refl, arith, Bool-cases, Option-cases, if◌then◌else◌, All,
}
use rpinode.Rows.{select, change, first, Distinct, All-select, All-select_test}
use rpinode.Rows.Lookup.{by_id, by_id-Distinct, by_id-change_same, by_id-change_other}
use rpinode.Sort.{sort_by}
use rpinode.Sort.Order.{All-sort_by}
use rpinode.Text.{Text, text_eq, decimal}
use rpinode.Text.Contains.{text_eq_iff}
use rpinode.Text.Decimal.{decimal-injective}
use rpinode.ModbusMgr.Reading.Live.Answers.{
  point_after, IsRowOf, get_site_modbus_points-IsRowOf, same_row, show_read-value, IsOpen,
  show_read-same, show_read-other, answer, shown, CanAsk, IsNoted,
}
use rpinode.ModbusMgr.Reading.Live.Loop.{turn_points, IsLoop, read_rows-IsLoop, IsRowOf-single}

-- What is shown of a row when the site is read, in the results and in the table, is what reading its
-- point alone gives.
pub record Agrees (w : World) (st st' : Store) (results : List (Text × Value)) (r : Row)
    : Type 0 where
  pub alone : Store
  pub value : Value
  pub single : read_single_point_live w r.point.id st ≡ some (alone, some value)
  pub listed : get (decimal r.point.id) results ≡ some value
  pub written : by_id (λ q. q.id) r.point.id st'.points ≡ by_id (λ q. q.id) r.point.id alone.points

IsRowOf-point :
    (st : Store) (r : Row) → IsRowOf st r → by_id (λ q. q.id) r.point.id st.points ≡ some r.point
unfolding point_row
IsRowOf-point st r h = elim (Option-cases (by_id (λ q. q.id) r.point.id st.points)) [
  | inl gone ↦ absurd (none-ne-some _ (rw (gone, point_row) at h))
  | inr (p, there) ↦ elim (Option-cases (first (λ d. d.id == p.device_id) st.devices)) [
    | inl alone ↦ absurd (none-ne-some _ (rw (there, point_row, alone) at h))
    | inr (d, known) ↦
        there
        ∙ ap (λ (x : Row). some x.point) (some-injective _ _ (rw (there, point_row, known) at h))
  ]
]

All-monitored :
    (site_id : ℕ) (st : Store)
    → All (λ r. r.point.is_monitored ≡ true) (get_site_modbus_points site_id true st)
unfolding get_site_modbus_points
All-monitored site_id st =
    All-sort_by (λ (r : Row). r.point.is_monitored ≡ true) row_le
      (select (λ r. r.point.site_id == site_id && (not true || r.point.is_monitored))
        (joined st.devices st.templates st.points))
      (All-select_test (λ (r : Row). r.point.is_monitored ≡ true)
        (λ r. r.point.site_id == site_id && (not true || r.point.is_monitored))
        (joined st.devices st.templates st.points) (λ r h. ground arith))

-- The unit of the slave is known.
abbrev pub HasUnit : World → Row → Type 0
HasUnit w r = (unit : ℕ) × (unit_of w r ≡ some unit)

All-CanAsk :
    (w : World) (st : Store) (rows : List Row)
    → All (IsRowOf st) rows
    → All (λ r. r.point.is_monitored ≡ true) rows
    → All (HasUnit w) rows
    → All (CanAsk w st) rows
All-CanAsk w st [] h k g = tt
All-CanAsk w st (r ∷ rows) (h, hs) (k, ks) (g, gs) =
    (record { its = h; known = g; on = k }, All-CanAsk w st rows hs ks gs)

rows-IsOpen :
    (w : World) (st : Store) (rows : List Row)
    → All (CanAsk w st) rows
    → All (λ r. IsOpen w (answer w r) r.point st.points) rows
rows-IsOpen w st [] h = tt
rows-IsOpen w st (r ∷ rows) (h, hs) = (inl (IsRowOf-point st r h.its), rows-IsOpen w st rows hs)

All-Agrees :
    (w : World) (st st' : Store) (results : List (Text × Value)) (rows : List Row)
    → All (CanAsk w st) rows
    → All (λ r. IsNoted w r results st'.points) rows
    → All (Agrees w st st' results) rows
All-Agrees w st st' results [] h k = tt
All-Agrees w st st' results (r ∷ rows) (h, hs) (k, ks) = (
  record {
    alone = record st { points = turn_points w st r st.points };
    value = shown w r;
    single = IsRowOf-single w st r h;
    listed = k.listed;
    written =
        k.written
        ∙ sym (show_read-same w (answer w r) r.point st.points (inl (IsRowOf-point st r h.its)));
  },
  All-Agrees w st st' results rows hs ks,
)

-- Where the numbers of the points are distinct and the unit of each slave is known, the reading of a
-- site ends, and for each monitored point of the site it shows what the reading of that point
-- alone would show at the start, and leaves in the table what that reading would leave of the point.
pub read_site_monitored_points_live-Agrees :
    (w : World) (site_id : ℕ) (st : Store)
    → Distinct (λ p. p.id) st.points
    → All (HasUnit w) (get_site_modbus_points site_id true st)
    → (st' : Store) × (results : List (Text × Value)) × (read_site_monitored_points_live w site_id
          st
        ≡ some (st', results))
      × All (Agrees w st st' results) (get_site_modbus_points site_id true st)
unfolding read_site_monitored_points_live
read_site_monitored_points_live-Agrees w site_id st h units =
    let rows = get_site_modbus_points site_id true st in
    let can =
      All-CanAsk w st rows (get_site_modbus_points-IsRowOf site_id true st h)
        (All-monitored site_id st) units in
    let done = read_rows-IsLoop w st rows [] st.points can (rows-IsOpen w st rows can) in
    let st' = record st { points = done.points' } in
    (
      st',
      done.results',
      rw (done.ends, ◌>>=◌) refl,
      All-Agrees w st st' done.results' rows can done.noted,
    )
