-- ===== src/ModbusMgr/Points.antt =====
-- The devices and the points of src/services/modbus_mgr.py. A statement that breaks the constraint
-- `UNIQUE(device_id, function, reg)` raises, and the connection takes back what was written: no
-- result.
pub mod Only
pub mod Sound
use rpinode.Dict.{get, put, code_eq}
use rpinode.ModbusMgr.{
  Float, float_one, Register, Template, Device, Point, Store, or_default, or_number, or_one,
  point_key,
}
use rpinode.Prelude.Options.{◌>>=◌}
use rpinode.Rows.{select, delete, change, first, any_row}
use rpinode.Text.{Text, codes, decimal}
use rpinode.Prelude.{
  ℕ, zero, suc, ◌+◌, Bool, true, false, ◌&&◌, ◌||◌, not, Option, none, some, List, [], ◌∷◌, ◌++◌,
  ◌==◌, if◌then◌else◌,
}

-- `add_device_to_site`, with `int(slave_unit or 1)`. The table does not enforce its references.
unfoldable pub add_device_to_site :
    ℕ → ℕ → Text → Text → Text → Option ℕ → Option ℕ → Store → Store × ℕ
add_device_to_site site_id template_id name protocol address port slave_unit st = (
  record st {
    devices =
        st.devices
        ++ record {
          id = st.next_device;
          site_id = site_id;
          template_id = template_id;
          name = name;
          protocol = protocol;
          address = address;
          port = port;
          slave_unit = some (or_number slave_unit 1);
        }
          ∷ [];
    next_device = suc st.next_device;
  },
  st.next_device,
)

-- `get_site_devices`: the devices of a site with their templates.
unfoldable pub get_site_devices : ℕ → List Template → List Device → List (Device × Template)
get_site_devices site_id templates [] = []
get_site_devices site_id templates (d ∷ devices) =
    let rest = get_site_devices site_id templates devices in
    elim (first (λ t. t.id == d.template_id) templates) [
      | none ↦ rest
      | some t ↦ if d.site_id == site_id then (d, t) ∷ rest else rest
    ]

abbrev pub get_device_points : ℕ → Store → List Point
get_device_points device_id st = select (λ p. p.device_id == device_id) st.points

unfoldable pub delete_device_from_site : ℕ → Store → Store
delete_device_from_site device_id st = record st {
  points = delete (λ p. p.device_id == device_id) st.points;
  devices = delete (λ d. d.id == device_id) st.devices;
}

-- A point of the selection: only its register is always there.
pub record Selected : Type 0 where
  pub reg : ℕ
  pub function : Option ℕ
  pub base : Option ℕ
  pub name : Option Text
  pub type : Option Text
  pub scale : Option Float
  pub unit : Option Text
  pub slave_unit : Option ℕ
  pub is_monitored : Bool

-- `dev_row["slave_unit"]`, or 1 without a row or a value.
unfoldable pub dev_slave_unit : ℕ → Store → ℕ
dev_slave_unit device_id st =
    or_default (first (λ d. d.id == device_id) st.devices >>= λ d. d.slave_unit) 1

existing_from : List Point → List (Text × ℕ) → List (Text × ℕ)
existing_from [] found = found
existing_from (p ∷ points) found =
    existing_from points (put (point_key p.function p.reg) p.id found)

-- `existing`: the numbers of the points of the device by their keys.
unfoldable pub existing_ids : ℕ → List Point → List (Text × ℕ)
unfolding existing_from
existing_ids device_id points = existing_from (select (λ p. p.device_id == device_id) points) []

-- The columns that a selection writes.
unfoldable pub reselected : ℕ → Selected → Point → Point
reselected unit q p = record p {
  is_monitored = true;
  name = or_default q.name (codes "Reg " ++ decimal q.reg);
  type = or_default q.type (codes "int16");
  scale = or_one (or_default q.scale float_one);
  unit = some (or_default q.unit []);
  base = or_default q.base 0;
  slave_unit = some (or_number q.slave_unit (if unit == 0 then 1 else unit));
}

-- A new row, before the columns of the selection.
abbrev new_point : ℕ → ℕ → Selected → ℕ → Point
new_point device_id site_id q id = record {
  id = id;
  site_id = site_id;
  device_id = device_id;
  reg = q.reg;
  function = or_default q.function 3;
  base = 0;
  slave_unit = none;
  name = [];
  type = [];
  scale = float_one;
  unit = none;
  is_monitored = true;
  is_recorded = false;
  cadence = codes "1m";
  last_value = none;
  last_read_ts = none;
}

-- The same device, function and register.
abbrev pub same_slot : Point → Point → Bool
same_slot p q = p.device_id == q.device_id && (p.function == q.function && p.reg == q.reg)

-- `INSERT INTO modbus_points …`
unfoldable pub insert_point : Point → Store → Option Store
insert_point p st =
    if any_row (same_slot p) st.points
    then none
    else some (record st { points = st.points ++ p ∷ []; next_point = suc st.next_point })

unfoldable pub select_point : ℕ → ℕ → ℕ → List (Text × ℕ) → Selected → Store → Option Store
select_point device_id site_id unit existing q st =
    elim (get (point_key (or_default q.function 3) q.reg) existing) [
      | some i ↦
          if q.is_monitored
          then some (record st { points = change (λ p. p.id == i) (reselected unit q) st.points })
          else some (record st { points = delete (λ p. p.id == i) st.points })
      | none ↦
          if q.is_monitored
          then insert_point (reselected unit q (new_point device_id site_id q st.next_point)) st
          else some st
    ]

-- `for p in selected_points`
unfoldable pub select_points : ℕ → ℕ → ℕ → List (Text × ℕ) → List Selected → Store → Option Store
select_points device_id site_id unit existing [] st = some st
select_points device_id site_id unit existing (q ∷ selected) st =
    select_point device_id site_id unit existing q st >>= λ st'.
    select_points device_id site_id unit existing selected st'

unfoldable pub save_device_points_selection : ℕ → ℕ → List Selected → Store → Option Store
save_device_points_selection device_id site_id selected st =
    select_points device_id site_id (dev_slave_unit device_id st) (existing_ids device_id st.points)
      selected st

-- The settings of a point that are given.
pub record Settings : Type 0 where
  pub is_monitored : Option Bool
  pub is_recorded : Option Bool
  pub cadence : Option Text

-- The row with the new settings, of which those that are not given are those of the fetched row r.
unfoldable pub with_settings : Settings → Point → Point → Point
with_settings s r p = record p {
  is_monitored = true;
  is_recorded = or_default s.is_recorded r.is_recorded;
  cadence = or_default s.cadence r.cadence;
}

-- Whether the point was there, and the table. A point that is not monitored any more is deleted.
unfoldable pub update_point_settings : ℕ → Settings → Store → Store × Bool
update_point_settings point_id s st = elim (first (λ p. p.id == point_id) st.points) [
  | none ↦ (st, false)
  | some r ↦
      if or_default s.is_monitored r.is_monitored
      then (
        record st { points = change (λ p. p.id == point_id) (with_settings s r) st.points },
        true,
      )
      else (record st { points = delete (λ p. p.id == point_id) st.points }, true)
]

unfoldable pub delete_modbus_point : ℕ → Store → Store
delete_modbus_point point_id st = record st { points = delete (λ p. p.id == point_id) st.points }
