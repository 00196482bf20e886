-- ===== src/ModbusMgr.antt =====
-- The tables of src/services/modbus_mgr.py, as src/core/schema.sql declares them. A column that every
-- statement fills is no option; the time of the last change of a row is left out. A number of the
-- type REAL is given by its 64 bits, and the registers of a template stand for their JSON.
pub mod Templates
pub mod Fleet
pub mod Points
pub mod Reading
pub mod Reach
mod Tests
use rpinode.Dict.{put, code_eq}
use rpinode.Text.{Text, codes, decimal}
use rpinode.Prelude.{
  ℕ, Bool, true, false, Option, none, some, List, [], ◌∷◌, ◌++◌, ◌==◌, if◌then◌else◌,
}

abbrev pub Float : Type 0
Float = ℕ

-- `1.0`, and the test for `0.0` and `-0.0`.
abbrev pub float_one : Float
float_one = 0x3ff0000000000000

abbrev pub float_truthy : Float → Bool
float_truthy f = if f == 0 then false else if f == 0x8000000000000000 then false else true

-- A register of a template: only its number is always there, and another key is there with a value or
-- not at all. The value `null` is left out: `handle_modbus_template_save` of src/web/server.py, the one
-- caller of `save_template`, and `normalize_fleet_definition_to_local` write every key with a value.
pub record Register : Type 0 where
  pub reg : ℕ
  pub function : Option ℕ
  pub base : Option ℕ
  pub name : Option Text
  pub type : Option Text
  pub scale : Option Float
  pub unit : Option Text

pub record Template : Type 0 where
  pub id : ℕ
  pub template_uuid : Text
  pub revision_uuid : Text
  pub parent_revision_uuid : Option Text
  pub name : Text
  pub manufacturer : Option Text
  pub version : ℕ
  pub is_shared : Bool
  pub is_local_hidden : Bool
  pub created_by_node : Option Text
  pub registers : List Register

pub record Device : Type 0 where
  pub id : ℕ
  pub site_id : ℕ
  pub template_id : ℕ
  pub name : Text
  pub protocol : Text
  pub address : Text
  pub port : Option ℕ
  pub slave_unit : Option ℕ

pub record Point : Type 0 where
  pub id : ℕ
  pub site_id : ℕ
  pub device_id : ℕ
  pub reg : ℕ
  pub function : ℕ
  pub base : ℕ
  pub slave_unit : Option ℕ
  pub name : Text
  pub type : Text
  pub scale : Float
  pub unit : Option Text
  pub is_monitored : Bool
  pub is_recorded : Bool
  pub cadence : Text
  pub last_value : Option Text
  pub last_read_ts : Option ℕ

-- Each table with its next number.
pub record Store : Type 0 where
  pub templates : List Template
  pub next_template : ℕ
  pub devices : List Device
  pub next_device : ℕ
  pub points : List Point
  pub next_point : ℕ

-- `x.get(k, d)`
abbrev pub or_default {ℓ} : {A : Type ℓ} → Option A → A → A
or_default none d = d
or_default (some a) d = a

-- `x or d` of a number that may be missing.
abbrev pub or_number : Option ℕ → ℕ → ℕ
or_number none d = d
or_number (some n) d = if n == 0 then d else n

-- `x or d` of a text that may be missing.
abbrev pub or_text : Option Text → Text → Text
or_text none d = d
or_text (some []) d = d
or_text (some (c ∷ s)) d = c ∷ s

-- `float(x or 1.0)`
abbrev pub or_one : Float → Float
or_one f = if float_truthy f then f else float_one

-- `f"{function}:{reg}"`
abbrev pub point_key : ℕ → ℕ → Text
point_key function reg = decimal function ++ (codes ":" ++ decimal reg)

abbrev pub register_key : Register → Text
register_key r = point_key (or_default r.function 3) r.reg

abbrev pub map_from : List Register → List (Text × Register) → List (Text × Register)
map_from [] found = found
map_from (r ∷ registers) found = map_from registers (put (register_key r) r found)

-- `tpl_map`: a later register takes the place of one with the same key.
unfoldable pub tpl_map : List Register → List (Text × Register)
tpl_map registers = map_from registers []
