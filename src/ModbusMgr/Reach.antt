-- ===== src/ModbusMgr/Reach.antt =====
-- The operations of src/services/modbus_mgr.py as steps of its tables, and what holds after any of
-- them.
pub mod Keeps
pub mod Points
use mathlib.Core.Option.{none-ne-some, some-injective}
use mathlib.Core.Path.{subst}
use rpinode.Modbus.Error.{Result, ok, err}
use rpinode.ModbusMgr.{Template, Device, Point, Store, or_default, or_text}
use rpinode.ModbusMgr.Fleet.{
  Definition, find_remote, imported, blank, same_template, install_as, install,
  import_template_from_fleet, share_template_to_fleet,
}
use rpinode.ModbusMgr.Points.{
  Selected, Settings, add_device_to_site, delete_device_from_site, save_device_points_selection,
  update_point_settings, delete_modbus_point,
}
use rpinode.ModbusMgr.Points.Only.{select_points-IsOnly}
use rpinode.ModbusMgr.Points.Sound.{
  ArePoints, HasPoints, ArePoints-select, ArePoints-change, ArePoints-sync,
  update_point_settings-HasPoints, save_device_points_selection-HasPoints,
}
use rpinode.ModbusMgr.Reading.{
  Value, Row, unit_of, ask_row, point_row, get_site_modbus_points, note_read, show_read,
  read_single_point_live, read_rows, read_site_monitored_points_live,
}
use rpinode.ModbusMgr.Reading.Decode.{World}
use rpinode.ModbusMgr.Templates.{
  Fresh, Request, get_template, existing_template, revised, created, revision_taken,
  update_template, insert_template, write_template, save_template, delete_template, shared_row,
}
use rpinode.Prelude.Options.{◌>>=◌, >>=-some}
use rpinode.Prelude.{
  ℕ, ◌≡◌, refl, sym, ap, ◌∙◌, Bool, true, false, not, Option, none, some, List, [], ◌∷◌, ltb, ◌==◌,
  ==_iff, arith, inl, inr, Bool-cases, Option-cases, if◌then◌else◌,
}
use rpinode.Rows.{select, count_rows, change, first, Distinct-select}
use rpinode.Rows.Tables.{IsTable, IsTable-select, IsTable-change, IsTable-append}
use rpinode.Text.{Text}
use rpinode.ModbusMgr.Reach.Keeps.{
  IsSound, save_template-IsSound, delete_template-IsSound, import_template_from_fleet-IsSound,
  share_template_to_fleet-IsSound,
}
use rpinode.ModbusMgr.Reach.Points.{
  read_single_point_live-IsSound, read_site_monitored_points_live-IsSound,
  save_device_points_selection-IsSound, update_point_settings-IsSound,
}

-- One call that ends without an exception.
pub data Step (st : Store) : Store → Type 0 where
  save :
      (w : Fresh) (q : Request) (st' : Store) (id : ℕ)
      → save_template w q st ≡ some (st', id)
      → Step st st'
  remove : (id : ℕ) → Step st (delete_template id st).0
  fetch :
      (wanted : Text) (remote : List (Text × Definition)) (st' : Store) (found : Bool)
      → import_template_from_fleet wanted remote st ≡ some (st', found)
      → Step st st'
  share : (id : ℕ) → Step st (share_template_to_fleet id st).0
  add_device :
      (site template : ℕ) (name protocol address : Text) (port unit : Option ℕ)
      → Step st (add_device_to_site site template name protocol address port unit st).0
  drop_device : (id : ℕ) → Step st (delete_device_from_site id st)
  choose :
      (device site : ℕ) (selected : List Selected) (st' : Store)
      → save_device_points_selection device site selected st ≡ some st'
      → Step st st'
  set : (id : ℕ) (s : Settings) → Step st (update_point_settings id s st).0
  drop_point : (id : ℕ) → Step st (delete_modbus_point id st)
  read_one :
      (w : World) (id : ℕ) (st' : Store) (shown : Option Value)
      → read_single_point_live w id st ≡ some (st', shown)
      → Step st st'
  read_site :
      (w : World) (site : ℕ) (st' : Store) (shown : List (Text × Value))
      → read_site_monitored_points_live w site st ≡ some (st', shown)
      → Step st st'

-- Every call that ends without an exception keeps the tables sound.
Step-IsSound : (st st' : Store) → Step st st' → IsSound st → IsSound st'
unfolding add_device_to_site delete_device_from_site delete_modbus_point
Step-IsSound st st' (save w q _ id e) h = save_template-IsSound w q st st' id h e
Step-IsSound st _ (remove id) h = delete_template-IsSound id st h
Step-IsSound st st' (fetch wanted remote _ found e) h =
    import_template_from_fleet-IsSound wanted remote st st' found h e
Step-IsSound st _ (share id) h = share_template_to_fleet-IsSound id st h
Step-IsSound st _ (add_device site template name protocol address port unit) h = record {
  templates = h.templates;
  devices = IsTable-append (λ d. d.id) st.next_device st.devices h.devices _ refl;
  points = h.points;
}
Step-IsSound st _ (drop_device id) h = record {
  templates = h.templates;
  devices = IsTable-select (λ d. d.id) st.next_device st.devices h.devices _;
  points = ArePoints-select st.next_point st.points h.points _;
}
Step-IsSound st st' (choose device site selected _ e) h =
    save_device_points_selection-IsSound device site selected st st' h e
Step-IsSound st _ (set id s) h = update_point_settings-IsSound id s st h
Step-IsSound st _ (drop_point id) h = record {
  templates = h.templates;
  devices = h.devices;
  points = ArePoints-select st.next_point st.points h.points _;
}
Step-IsSound st st' (read_one w id _ shown e) h =
    read_single_point_live-IsSound w id st st' shown h e
Step-IsSound st st' (read_site w site _ shown e) h =
    read_site_monitored_points_live-IsSound w site st st' shown h e

-- The tables that any row of calls can leave, from the empty ones.
abbrev pub empty_store : Store
empty_store = record {
  templates = [];
  next_template = 1;
  devices = [];
  next_device = 1;
  points = [];
  next_point = 1;
}

pub data Reachable : Store → Type 0 where
  start : Reachable empty_store
  then_step : {st st' : Store} → Reachable st → Step st st' → Reachable st'

-- From empty tables, whatever calls of the module follow each other and end without an exception: in
-- each table the numbers are distinct and below the next one, no two points have the same device,
-- function and register, and every point that is recorded is monitored.
pub Reachable-IsSound : (st : Store) → Reachable st → IsSound st
Reachable-IsSound _ start = record {
  templates = record { distinct = tt; below = tt };
  devices = record { distinct = tt; below = tt };
  points = record { table = record { distinct = tt; below = tt }; slots = tt; ruled = tt };
}
Reachable-IsSound st' (then_step {st = st} r s) = Step-IsSound st st' s (Reachable-IsSound st r)
