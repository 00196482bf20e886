-- ===== src/ModbusMgr/Reading.antt =====
-- The readings of points in src/services/modbus_mgr.py, over the decoding of their values. A call that
-- raises has no result.
pub mod Decode
pub mod Values
pub mod Live
use rpinode.Dict.{put, code_eq}
use rpinode.Modbus.Access.{Slave, read_registers, read_bits}
use rpinode.Modbus.Error.{Exc, index_error, Result, ok, err}
use rpinode.ModbusMgr.{
  Float, Template, Device, Point, Store, or_default, or_number, or_text, or_one,
}
use rpinode.Prelude.Int.{ℤ, pos, negsuc}
use rpinode.Prelude.Options.{◌>>=◌}
use rpinode.Prelude.{
  ℕ, zero, suc, ◌+◌, ◌-◌, ◌*◌, Bool, true, false, ◌&&◌, ◌||◌, not, Option, none, some, List, [],
  ◌∷◌, ◌++◌, ltb, ◌==◌, if◌then◌else◌,
}
use rpinode.Rows.{select, change, first}
use rpinode.Sort.{sort_by, text_le}
use rpinode.Text.{Text, codes, text_eq, lower, decimal}
use rpinode.ModbusMgr.Reading.Decode.{World, read_point_value}

-- What is shown of a point.
pub record Value : Type 0 where
  pub value : Option Text
  pub display : Text
  pub error : Option Text
  pub retained : Bool
  pub ts : ℕ

-- A row of a point with its device, and the unit of either. The statements of this file fill the unit
-- of every point that they write.
pub record Row : Type 0 where
  pub point : Point
  pub device : Device

abbrev pub slave_unit : Row → ℕ
slave_unit r = or_default r.point.slave_unit (or_default r.device.slave_unit 1)

-- `p["slave_unit"] or (int(address) if protocol == "mstp" else 1)`
unfoldable pub unit_of : World → Row → Option ℕ
unit_of w r =
    if not (slave_unit r == 0)
    then some (slave_unit r)
    else if text_eq r.device.protocol (codes "mstp")
    then w.int_of r.device.address
    else some 1

-- `f" {p['unit']}" if p["unit"] else ""`
unfoldable pub unit_str : Option Text → Text
unit_str none = []
unit_str (some []) = []
unit_str (some (c ∷ s)) = codes " " ++ (c ∷ s)

abbrev pub dash : Text
dash = codes "—"

-- The last value that was read, or the error.
unfoldable pub retained_value : World → Point → Exc → Value
retained_value w p e = elim p.last_value [
  | some v ↦ record {
    value = some v;
    display = v ++ unit_str p.unit;
    error = none;
    retained = true;
    ts = or_number p.last_read_ts w.now;
  }
  | none ↦ record {
    value = none;
    display = dash;
    error = some (w.error_text e);
    retained = false;
    ts = w.now;
  }
]

unfoldable pub read_value : World → Text × Text → Point → Value
read_value w (raw, shown) p = record {
  value = some raw;
  display = shown ++ unit_str p.unit;
  error = none;
  retained = false;
  ts = w.now;
}

-- `UPDATE modbus_points SET last_value = ?, last_read_ts = ? WHERE id = ?`
unfoldable pub note_read : World → Text → ℕ → List Point → List Point
note_read w raw id points =
    change (λ p. p.id == id) (λ p. record p { last_value = some raw; last_read_ts = some w.now })
      points

-- The attempt to read a row: what is shown, and the table.
unfoldable pub show_read : World → Result (Text × Text) → Point → List Point → Value × List Point
show_read w (ok v) p points = (read_value w v p, note_read w v.0 p.id points)
show_read w (err e) p points = (retained_value w p e, points)

unfoldable pub ask_row : World → Row → ℕ → Result (Text × Text)
ask_row w r unit =
    read_point_value w
      (w.slave r.device.protocol r.device.address (or_number r.device.port 502) unit)
      r.point.function r.point.reg r.point.type r.point.scale r.point.base

-- The row of a point with its device, if both are there.
unfoldable pub point_row : ℕ → Store → Option Row
point_row point_id st = do
  p ← first (λ p. p.id == point_id) st.points
  d ← first (λ d. d.id == p.device_id) st.devices
  some (record { point = p; device = d })

-- No row is no value, inside; a call that raises has no result.
unfoldable pub read_single_point_live : World → ℕ → Store → Option (Store × Option Value)
read_single_point_live w point_id st = elim (point_row point_id st) [
  | none ↦ some (st, none)
  | some r ↦ unit_of w r >>= λ unit.
      let shown = show_read w (ask_row w r unit) r.point st.points in
      some (record st { points = shown.1 }, some shown.0)
]

-- `d.name, p.function, p.reg`
unfoldable pub row_le : Row → Row → Bool
row_le r s =
    if text_eq r.device.name s.device.name
    then if r.point.function == s.point.function
      then not (ltb s.point.reg r.point.reg)
      else ltb r.point.function s.point.function
    else text_le r.device.name s.device.name

-- The points with their devices, where the device and its template are there.
unfoldable pub joined : List Device → List Template → List Point → List Row
joined devices templates [] = []
joined devices templates (p ∷ points) =
    let rest = joined devices templates points in
    elim (first (λ d. d.id == p.device_id) devices) [
      | none ↦ rest
      | some d ↦ elim (first (λ t. t.id == d.template_id) templates) [
        | none ↦ rest
        | some _ ↦ record { point = p; device = d } ∷ rest
      ]
    ]

unfoldable pub get_site_modbus_points : ℕ → Bool → Store → List Row
get_site_modbus_points site_id only_monitored st = sort_by row_le (
    select (λ r. r.point.site_id == site_id && (not only_monitored || r.point.is_monitored))
      (joined st.devices st.templates st.points))

-- `for p in points`
unfoldable pub read_rows :
    World → List Row → List (Text × Value) → List Point → Option (List (Text × Value) × List Point)
read_rows w [] results points = some (results, points)
read_rows w (r ∷ rows) results points =
    if r.point.is_monitored
    then unit_of w r >>= (λ unit.
      let shown = show_read w (ask_row w r unit) r.point points in
      read_rows w rows (put (decimal r.point.id) shown.0 results) shown.1)
    else read_rows w rows results points

unfoldable pub read_site_monitored_points_live :
    World → ℕ → Store → Option (Store × List (Text × Value))
read_site_monitored_points_live w site_id st =
    read_rows w (get_site_modbus_points site_id true st) [] st.points >>= λ done.
    some (record st { points = done.1 }, done.0)

unfoldable pub cached_value : World → Point → Value
cached_value w p = elim p.last_value [
  | some v ↦ record {
    value = some v;
    display = v ++ unit_str p.unit;
    error = none;
    retained = false;
    ts = or_number p.last_read_ts w.now;
  }
  | none ↦ record { value = none; display = dash; error = none; retained = false; ts = w.now }
]

cached_rows : World → List Row → List (Text × Value) → List (Text × Value)
cached_rows w [] results = results
cached_rows w (r ∷ rows) results =
    cached_rows w rows (put (decimal r.point.id) (cached_value w r.point) results)

unfoldable pub get_site_monitored_cached_values : World → ℕ → Store → List (Text × Value)
unfolding cached_rows
get_site_monitored_cached_values w site_id st =
    cached_rows w (get_site_modbus_points site_id true st) []
