-- ===== src/ModbusMgr/Templates.antt =====
-- `save_template`, `delete_template` and the reads of templates in src/services/modbus_mgr.py. What
-- `uuid4`, `uuid5` and `gethostname` return are arguments. A statement that breaks a constraint of its
-- table raises, and the connection takes back what was written: no result. What a save then sends to
-- the fleet stands with the exchange.
pub mod Sync
pub mod Expected
pub mod Saved
use rpinode.Dict.{get, code_eq}
use rpinode.ModbusMgr.{
  Float, float_one, Register, Template, Device, Point, Store, or_default, or_text, or_one,
  point_key, tpl_map,
}
use rpinode.Prelude.Options.{◌>>=◌}
use rpinode.Rows.{select, delete, change, first, any_row, count_rows}
use rpinode.Rows.Loops.{visit_all}
use rpinode.Text.{Text, text_eq, codes}
use rpinode.Prelude.{
  ℕ, zero, suc, ◌+◌, Bool, true, false, ◌&&◌, ◌||◌, not, Option, none, some, List, [], ◌∷◌, ◌++◌,
  ◌==◌, ltb, if◌then◌else◌,
}

-- `get_template`
abbrev pub get_template : ℕ → Store → Option Template
get_template template_id st = first (λ t. t.id == template_id) st.templates

-- What a save draws or asks: two new identifiers, the name of the host, `uuid5` of a name.
pub record Fresh : Type 0 where
  pub root : Text
  pub revision : Text
  pub hostname : Text
  pub uuid5 : Text → Text

-- What a save is given.
pub record Request : Type 0 where
  pub name : Text
  pub manufacturer : Option Text
  pub registers : List Register
  pub template_id : Option ℕ
  pub is_shared : Option Bool

-- The template that is changed: none without a number, and none for a number that is not there.
abbrev pub existing_template : Option ℕ → Store → Option Template
existing_template none st = none
existing_template (some i) st = if i == 0 then none else get_template i st

-- `int(existing.get("version") or 1)`
abbrev pub current_version : Template → ℕ
current_version t = if t.version == 0 then 1 else t.version

-- The new row of a template that is there.
unfoldable pub revised : Fresh → Request → Template → Template
revised w q t =
    let shared = or_default q.is_shared t.is_shared in
    record t {
      name = q.name;
      manufacturer = q.manufacturer;
      registers = q.registers;
      template_uuid = or_text (some t.template_uuid) (w.uuid5 q.name);
      revision_uuid = w.revision;
      parent_revision_uuid = if shared then some t.revision_uuid else t.parent_revision_uuid;
      version = if shared then current_version t + 1 else current_version t;
      is_shared = shared;
      is_local_hidden = false;
    }

-- The row of a new template.
unfoldable pub created : Fresh → Request → ℕ → Template
created w q id = record {
  id = id;
  template_uuid = w.root;
  revision_uuid = w.revision;
  parent_revision_uuid = none;
  name = q.name;
  manufacturer = q.manufacturer;
  version = 1;
  is_shared = or_default q.is_shared false;
  is_local_hidden = false;
  created_by_node = some w.hostname;
  registers = q.registers;
}

-- `revision_uuid TEXT NOT NULL UNIQUE`, for the row with the number.
abbrev pub revision_taken : ℕ → Text → List Template → Bool
revision_taken id revision templates =
    any_row (λ t. not (t.id == id) && text_eq t.revision_uuid revision) templates

-- `UPDATE modbus_templates SET … WHERE id = ?`
abbrev pub update_template : Template → Store → Option Store
update_template row st =
    if revision_taken row.id row.revision_uuid st.templates
    then none
    else some (record st { templates = change (λ t. t.id == row.id) (λ t. row) st.templates })

-- `INSERT INTO modbus_templates …` of a row with the next number.
abbrev pub insert_template : Template → Store → Option Store
insert_template row st =
    if revision_taken row.id row.revision_uuid st.templates
    then none
    else some
        (record st { templates = st.templates ++ row ∷ []; next_template = suc st.next_template })

unfoldable pub write_template : Fresh → Request → Store → Option (Store × ℕ)
write_template w q st = elim (existing_template q.template_id st) [
  | some t ↦ update_template (revised w q t) st >>= λ st'. some (st', t.id)
  | none ↦ insert_template (created w q st.next_template) st >>= λ st'. some (st', st.next_template)
]

-- `UPDATE modbus_points SET name = ?, …` with the values of a register, else of the fetched point s.
unfoldable pub synced : Register → Point → Point → Point
synced r s p = record p {
  name = or_default r.name s.name;
  type = or_default r.type s.type;
  scale = or_one (or_default r.scale float_one);
  unit = some (or_default r.unit []);
  base = or_default r.base 0;
}

-- What becomes of the row of a fetched point s: changed, deleted, or kept because it is recorded.
unfoldable pub sync_point : List Register → Point → Point → Option Point
sync_point registers s p = elim (get (point_key s.function s.reg) (tpl_map registers)) [
  | some r ↦ some (synced r s p)
  | none ↦ if s.is_recorded then some p else none
]

-- `for dev in devices`, with the statements on the points that it fetches.
unfoldable pub sync_devices : List Register → List Device → List Point → List Point
sync_devices registers [] points = points
sync_devices registers (d ∷ devices) points =
    sync_devices registers devices (
      visit_all (λ p. p.id) (sync_point registers) (select (λ p. p.device_id == d.id) points)
        points)

unfoldable pub save_template : Fresh → Request → Store → Option (Store × ℕ)
save_template w q st = do
  (st', id) ← write_template w q st
  some (
    record st' {
      points = sync_devices q.registers (select (λ d. d.template_id == id) st'.devices) st'.points;
    },
    id,
  )

-- `delete_template`: whether it did, and the table. The message names the number of devices.
pub data Deletion : Type 0 where
  used_by : ℕ → Deletion
  done : Deletion

abbrev pub shared_row : Option Template → Bool
shared_row none = false
shared_row (some t) = t.is_shared

unfoldable pub delete_template : ℕ → Store → Store × Deletion
delete_template template_id st =
    let cnt = count_rows (λ d. d.template_id == template_id) st.devices in
    if ltb 0 cnt
    then (st, used_by cnt)
    else if shared_row (get_template template_id st)
    then (
      record st {
        templates =
            change (λ t. t.id == template_id) (λ t. record t { is_local_hidden = true })
              st.templates;
      },
      done,
    )
    else (record st { templates = delete (λ t. t.id == template_id) st.templates }, done)

-- `get_all_templates`, in the order of the table: the page sorts them by name.
abbrev pub get_all_templates : Bool → Store → List Template
get_all_templates include_hidden st =
    if include_hidden then st.templates else select (λ t. not t.is_local_hidden) st.templates
