-- ===== src/ModbusMgr/Reach/Points.antt =====
-- The readings and the settings of points keep the tables of src/services/modbus_mgr.py sound.
use mathlib.Core.Option.{some-injective}
use mathlib.Core.Path.{subst}
use rpinode.Modbus.Error.{Result, ok, err}
use rpinode.ModbusMgr.{Point, Store, or_default}
use rpinode.ModbusMgr.Points.{
  Selected, Settings, save_device_points_selection, update_point_settings,
}
use rpinode.ModbusMgr.Points.Only.{select_points-IsOnly}
use rpinode.ModbusMgr.Points.Sound.{
  ArePoints, ArePoints-change, update_point_settings-HasPoints,
  save_device_points_selection-HasPoints,
}
use rpinode.ModbusMgr.Reading.{
  Value, Row, unit_of, ask_row, point_row, get_site_modbus_points, note_read, show_read,
  read_single_point_live, read_rows, read_site_monitored_points_live,
}
use rpinode.ModbusMgr.Reading.Decode.{World}
use rpinode.Prelude.Options.{>>=-some}
use rpinode.Prelude.{
  ℕ, ◌≡◌, refl, sym, ap, true, Option, some, List, [], ◌∷◌, ◌==◌, inl, inr, Bool-cases,
  Option-cases,
}
use rpinode.Rows.{first}
use rpinode.Text.{Text}
use rpinode.ModbusMgr.Reach.Keeps.{IsSound}

show_read-ArePoints :
    (w : World) (res : Result (Text × Text)) (p : Point) (next : ℕ) (points : List Point)
    → ArePoints next points
    → ArePoints next (show_read w res p points).1
unfolding show_read note_read
show_read-ArePoints w (ok v) p next points h =
    ArePoints-change next points h _ _ (λ q. refl) (λ q. refl) (λ q r. r)
show_read-ArePoints w (err x) p next points h = h

read_rows-ArePoints :
    (w : World) (rows : List Row) (results results' : List (Text × Value)) (next : ℕ)
    (points points' : List Point)
    → ArePoints next points
    → read_rows w rows results points ≡ some (results', points')
    → ArePoints next points'
unfolding read_rows
read_rows-ArePoints w [] results results' next points points' h e =
    subst (ArePoints next) (ap (λ p. p.1) (some-injective _ _ e)) h
read_rows-ArePoints w (r ∷ rows) results results' next points points' h e =
    elim (Bool-cases r.point.is_monitored) [
      | inl on ↦
          let (unit, _, e1) = >>=-some (unit_of w r) _ _ (simp on at e) in
          read_rows-ArePoints w rows _ results' next _ points'
            (show_read-ArePoints w (ask_row w r unit) r.point next points h) e1
      | inr off ↦ read_rows-ArePoints w rows results results' next points points' h (rw off at e)
    ]

pub read_single_point_live-IsSound :
    (w : World) (id : ℕ) (st st' : Store) (shown : Option Value)
    → IsSound st
    → read_single_point_live w id st ≡ some (st', shown)
    → IsSound st'
unfolding read_single_point_live
read_single_point_live-IsSound w id st st' shown h e = elim (Option-cases (point_row id st)) [
  | inl missing ↦
      subst IsSound (ap (λ p. p.0) (some-injective _ _ (rw (missing, read_single_point_live) at e)))
        h
  | inr (r, there) ↦
      let (unit, _, e1) = >>=-some (unit_of w r) _ _ (rw (there, read_single_point_live) at e) in
      subst IsSound (ap (λ p. p.0) (some-injective _ _ e1)) record {
        templates = h.templates;
        devices = h.devices;
        points = show_read-ArePoints w (ask_row w r unit) r.point st.next_point st.points h.points;
      }
]

pub read_site_monitored_points_live-IsSound :
    (w : World) (site : ℕ) (st st' : Store) (shown : List (Text × Value))
    → IsSound st
    → read_site_monitored_points_live w site st ≡ some (st', shown)
    → IsSound st'
unfolding read_site_monitored_points_live
read_site_monitored_points_live-IsSound w site st st' shown h e =
    let rows = get_site_modbus_points site true st in
    let ((results, points), done, same) = >>=-some (read_rows w rows [] st.points) _ _ e in
    subst IsSound (ap (λ p. p.0) (some-injective _ _ same)) record {
      templates = h.templates;
      devices = h.devices;
      points = read_rows-ArePoints w rows [] results st.next_point st.points points h.points done;
    }

pub save_device_points_selection-IsSound :
    (device site : ℕ) (selected : List Selected) (st st' : Store)
    → IsSound st
    → save_device_points_selection device site selected st ≡ some st'
    → IsSound st'
unfolding save_device_points_selection
save_device_points_selection-IsSound device site selected st st' h e =
    subst IsSound (sym (select_points-IsOnly device site _ _ selected st st' e)) record {
      templates = h.templates;
      devices = h.devices;
      points = save_device_points_selection-HasPoints device site selected st st' h.points e;
    }

pub update_point_settings-IsSound :
    (id : ℕ) (s : Settings) (st : Store) → IsSound st → IsSound (update_point_settings id s st).0
unfolding update_point_settings
update_point_settings-IsSound id s st h = elim (Option-cases (first (λ p. p.id == id) st.points)) [
  | inl missing ↦ rw (missing, update_point_settings) h
  | inr (r, there) ↦
      let points = update_point_settings-HasPoints id s st h.points in
      elim (Bool-cases (or_default s.is_monitored r.is_monitored)) [
        | inl on ↦
            rw (there, update_point_settings, on)
              record {
                templates = h.templates;
                devices = h.devices;
                points = rw (there, update_point_settings, on) at points;
              }
        | inr off ↦
            rw (there, update_point_settings, off)
              record {
                templates = h.templates;
                devices = h.devices;
                points = rw (there, update_point_settings, off) at points;
              }
      ]
]
