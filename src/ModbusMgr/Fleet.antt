-- ===== src/ModbusMgr/Fleet.antt =====
-- The exchange of templates with the fleet in src/services/modbus_mgr.py: the two formats, the
-- import, the sharing and the overview. What the server holds is an argument. Of a shared definition,
-- the constant port, unit and commands and the second copy of its fields are left out.
pub mod Formats
pub mod Overview
use rpinode.Dict.{get, put, code_eq}
use rpinode.ModbusMgr.{Float, float_one, Register, Template, Store, or_default, or_number, or_text}
use rpinode.ModbusMgr.Templates.{get_template, get_all_templates, update_template, insert_template}
use rpinode.Prelude.Options.{◌>>=◌}
use rpinode.Rows.{first, change}
use rpinode.Text.{Text, codes, text_eq, decimal, lower}
use rpinode.Prelude.{
  ℕ, zero, suc, ◌+◌, Bool, true, false, ◌&&◌, ◌||◌, not, Option, none, some, List, [], ◌∷◌, ◌++◌,
  map, length, ltb, ◌==◌, if◌then◌else◌,
}

-- A read of a definition of the fleet; every key may be missing.
pub record Read : Type 0 where
  pub address : Option ℕ
  pub reg : Option ℕ
  pub function : Option ℕ
  pub label : Option Text
  pub name : Option Text
  pub type : Option Text
  pub scale : Option Float
  pub unit : Option Text

pub record Definition : Type 0 where
  pub template_uuid : Option Text
  pub revision_uuid : Option Text
  pub parent_revision_uuid : Option Text
  pub name : Option Text
  pub manufacturer : Option Text
  pub notes : Option Text
  pub version : Option ℕ
  pub created_by_node : Option Text
  pub base : Option ℕ
  pub reads : List Read

-- `type_map.get(raw_type, "uint16")`
unfoldable pub local_type : Text → Text
local_type t =
    if text_eq t (codes "i16") || text_eq t (codes "int16")
    then codes "int16"
    else if text_eq t (codes "f32") || text_eq t (codes "float32")
    then codes "float32"
    else if text_eq t (codes "u32") || text_eq t (codes "uint32")
    then codes "uint32"
    else if text_eq t (codes "i32") || text_eq t (codes "int32")
    then codes "int32"
    else codes "uint16"

-- `type_str`
unfoldable pub fleet_type : Text → Text
fleet_type t =
    if text_eq t (codes "uint16")
    then codes "u16"
    else if text_eq t (codes "int16")
    then codes "i16"
    else if text_eq t (codes "float32")
    then codes "f32"
    else if text_eq t (codes "int32")
    then codes "i32"
    else if text_eq t (codes "uint32")
    then codes "u32"
    else codes "u16"

-- `r.get("address")` unless it is missing, and `r.get("reg", 0)` then.
abbrev pub address_of : Read → ℕ
address_of r = or_default r.address (or_default r.reg 0)

unfoldable pub normalize_read : ℕ → Read → Register
normalize_read base r = record {
  reg = address_of r;
  function = some (or_default r.function 3);
  base = some base;
  name = some (or_text r.label (or_text r.name (codes "Reg " ++ decimal (address_of r))));
  type = some (local_type (lower (or_default r.type (codes "uint16"))));
  scale = some (or_default r.scale float_one);
  unit = some (or_text r.unit []);
}

-- The name, the manufacturer and the registers.
unfoldable pub normalize_fleet_definition_to_local : Text → Definition → Text × Text × List Register
normalize_fleet_definition_to_local name d = (
  name,
  or_text d.notes (or_text d.manufacturer []),
  map (normalize_read (or_default d.base 0)) d.reads,
)

unfoldable pub format_register : Register → Read
format_register r = record {
  address = some r.reg;
  reg = none;
  function = some (or_default r.function 3);
  label = some (or_default r.name []);
  name = none;
  type = some (fleet_type (or_default r.type (codes "uint16")));
  scale = some (or_default r.scale float_one);
  unit = some (or_default r.unit []);
}

-- `registers[0].get("base", 0) if registers else 0`
abbrev pub first_base : List Register → ℕ
first_base [] = 0
first_base (r ∷ registers) = or_default r.base 0

unfoldable pub format_local_template_for_fleet : Template → Definition
format_local_template_for_fleet t = record {
  template_uuid = some t.template_uuid;
  revision_uuid = some t.revision_uuid;
  parent_revision_uuid = t.parent_revision_uuid;
  name = some t.name;
  manufacturer = some (or_text t.manufacturer []);
  notes = some (or_text t.manufacturer []);
  version = some (if t.version == 0 then 1 else t.version);
  created_by_node = t.created_by_node;
  base = some (first_base t.registers);
  reads = map format_register t.registers;
}

abbrev pub is_some_text : Option Text → Text → Bool
is_some_text none s = false
is_some_text (some t) s = text_eq t s

-- The definition that the text names, with its key.
abbrev pub find_remote : Text → List (Text × Definition) → Option (Text × Definition)
find_remote wanted remote =
    first
      (λ p.
        text_eq p.0 wanted
        || (is_some_text p.1.template_uuid wanted || is_some_text p.1.name wanted))
      remote

-- `template_uuid = ? OR name = ?`
abbrev pub same_template : Option Text → Text → Template → Bool
same_template uuid name t = is_some_text uuid t.template_uuid || text_eq t.name name

-- The row that is written, where the columns that may not be NULL have their values.
unfoldable pub imported : Text → Definition → Text → Text → Template → Template
imported name d uuid revision t =
    let norm = normalize_fleet_definition_to_local name d in
    record t {
      name = norm.0;
      manufacturer = some norm.1;
      registers = norm.2;
      template_uuid = uuid;
      revision_uuid = revision;
      parent_revision_uuid = d.parent_revision_uuid;
      version = or_number d.version 1;
      is_shared = true;
      is_local_hidden = false;
      created_by_node = some (or_text d.created_by_node (codes "Flotte"));
    }

-- A row with a number and nothing else, to be written over.
abbrev pub blank : ℕ → Template
blank id = record {
  id = id;
  template_uuid = [];
  revision_uuid = [];
  parent_revision_uuid = none;
  name = [];
  manufacturer = none;
  version = 1;
  is_shared = true;
  is_local_hidden = false;
  created_by_node = none;
  registers = [];
}

-- The row of the name or the identifier is written over, or a new one is inserted.
abbrev pub install_as : Text → Definition → Text → Text → Store → Option Store
install_as name d uuid revision st = elim (first (same_template (some uuid) name) st.templates) [
  | some t ↦ update_template (imported name d uuid revision t) st
  | none ↦ insert_template (imported name d uuid revision (blank st.next_template)) st
]

-- Without an identifier or a revision the statement raises.
unfoldable pub install : Text → Definition → Store → Option Store
install key d st = do
  uuid ← d.template_uuid
  revision ← d.revision_uuid
  install_as (or_text d.name key) d uuid revision st

-- Whether the text was found; a constraint that is broken raises.
unfoldable pub import_template_from_fleet :
    Text → List (Text × Definition) → Store → Option (Store × Bool)
import_template_from_fleet wanted remote st = elim (find_remote wanted remote) [
  | none ↦ some (st, false)
  | some (key, d) ↦ install key d st >>= λ st'. some (st', true)
]

-- What `share_template_to_fleet` sends, under which key, and the table that it leaves.
unfoldable pub share_template_to_fleet : ℕ → Store → Store × Option (Text × Definition)
share_template_to_fleet template_id st = elim (get_template template_id st) [
  | none ↦ (st, none)
  | some _ ↦
      let templates =
        change (λ t. t.id == template_id) (λ t. record t { is_shared = true }) st.templates in
      let st' = record st { templates = templates } in
      (
        st',
        get_template template_id st' >>= λ t.
            some (or_text (some t.template_uuid) t.name, format_local_template_for_fleet t),
      )
]

-- What the end of `save_template` sends to a fleet that the box is registered with.
unfoldable pub notification : Bool → ℕ → Store → Option (Text × Definition)
notification is_registered template_id st = get_template template_id st >>= λ t.
    if t.is_shared && is_registered
    then some (or_text (some t.template_uuid) t.name, format_local_template_for_fleet t)
    else none
