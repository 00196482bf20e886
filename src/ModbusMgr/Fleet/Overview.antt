-- ===== src/ModbusMgr/Fleet/Overview.antt =====
-- `get_templates_overview` of src/services/modbus_mgr.py: the templates of the box and those that the
-- fleet offers.
use rpinode.Dict.{get, put, code_eq}
use rpinode.ModbusMgr.{Template, Store, or_default}
use rpinode.ModbusMgr.Templates.{get_all_templates}
use rpinode.Prelude.Options.{◌>>=◌}
use rpinode.Text.{Text, text_eq}
use rpinode.Prelude.{
  ℕ, Bool, true, false, Option, none, some, List, [], ◌∷◌, map, length, ltb, if◌then◌else◌,
}
use rpinode.ModbusMgr.Fleet.{Definition}

-- A line of the list of the fleet.
pub record Offer : Type 0 where
  pub name : Text
  pub version : ℕ
  pub local_version : Option ℕ
  pub needs_update : Bool
  pub reads_count : ℕ
  pub is_installed : Bool
  pub local_id : Option ℕ

abbrev uuid_map : List Template → List (Text × Template) → List (Text × Template)
uuid_map [] found = found
uuid_map (t ∷ templates) found =
    let more = uuid_map templates (put t.template_uuid t found) in
    let same = uuid_map templates found in if text_eq t.template_uuid [] then same else more

abbrev name_map : List Template → List (Text × Template) → List (Text × Template)
name_map [] found = found
name_map (t ∷ templates) found = name_map templates (put t.name t found)

-- `local_uuid_map.get(t_uuid) or local_name_map.get(name)`
unfoldable pub local_match : List Template → Text → Definition → Option Template
local_match templates key d = elim (d.template_uuid >>= λ u. get u (uuid_map templates [])) [
  | some t ↦ some t
  | none ↦ get key (name_map templates [])
]

abbrev offer : List Template → Text × Definition → Offer
offer templates (key, d) =
    let fleet_version = or_default d.version 1 in
    elim (local_match templates key d) [
      | some t ↦ record {
        name = key;
        version = fleet_version;
        local_version = some t.version;
        needs_update = ltb t.version fleet_version;
        reads_count = length d.reads;
        is_installed = true;
        local_id = some t.id;
      }
      | none ↦ record {
        name = key;
        version = fleet_version;
        local_version = none;
        needs_update = false;
        reads_count = length d.reads;
        is_installed = false;
        local_id = none;
      }
    ]

-- The templates that are shown, and the list of the fleet.
unfoldable pub get_templates_overview :
    Bool → List (Text × Definition) → Store → List Template × List Offer
get_templates_overview is_registered remote st =
    let shown = get_all_templates false st in
    (shown, map (offer shown) (if is_registered then remote else []))
