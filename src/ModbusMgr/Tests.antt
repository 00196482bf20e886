-- ===== src/ModbusMgr/Tests.antt =====
-- A small site: one template of two registers, its device, two points.
use rpinode.Modbus.Access.{Slave, request}
use rpinode.Modbus.Access.Registers.{Answers, registers_reply}
use rpinode.Modbus.Error.{ok}
use rpinode.Modbus.Socket.{chunk, opened}
use rpinode.Modbus.Socket.Delivery.{ahead}
use rpinode.Modbus.Transaction.{tcp}
use rpinode.ModbusMgr.{float_one, Register, Template, Device, Point, Store}
use rpinode.ModbusMgr.Fleet.{Definition, import_template_from_fleet, share_template_to_fleet}
use rpinode.ModbusMgr.Fleet.Formats.{
  IsComplete, uint16, IsCopy, import_template_from_fleet-share_template_to_fleet,
}
use rpinode.ModbusMgr.Reach.{start, then_step, save, empty_store, Reachable-IsSound}
use rpinode.ModbusMgr.Reach.Keeps.{IsSound}
use rpinode.ModbusMgr.Reading.{
  Value, unit_of, joined, row_le, get_site_modbus_points, read_site_monitored_points_live,
}
use rpinode.ModbusMgr.Reading.Decode.{World, read_point_value}
use rpinode.ModbusMgr.Reading.Live.{HasUnit, Agrees, read_site_monitored_points_live-Agrees}
use rpinode.ModbusMgr.Reading.Values.{int16 as signed16, read_point_value-signed}
use rpinode.ModbusMgr.Templates.{
  Fresh, Request, existing_template, get_template, created, write_template, sync_devices,
  save_template,
}
use rpinode.ModbusMgr.Templates.Saved.{IsDone, save_template-IsSaved}
use rpinode.Prelude.Int.{negsuc}
use rpinode.Prelude.{ℕ, ◌≡◌, refl, inl, true, false, none, some, List, [], ◌∷◌, arith, All}
use rpinode.Text.{Text, codes, text_eq}

abbrev register : ℕ → Text → Text → Register
register reg name type = record {
  reg = reg;
  function = some 3;
  base = some 1;
  name = some name;
  type = some type;
  scale = some float_one;
  unit = some (codes "kW");
}

abbrev registers : List Register
registers =
    register 1 (codes "Power") (codes "int16") ∷ register 2 (codes "State") (codes "uint16") ∷ []

abbrev template : Template
template = record {
  id = 1;
  template_uuid = codes "u1";
  revision_uuid = codes "r1";
  parent_revision_uuid = none;
  name = codes "Meter";
  manufacturer = some (codes "Maker");
  version = 3;
  is_shared = true;
  is_local_hidden = false;
  created_by_node = none;
  registers = registers;
}

abbrev device : Device
device = record {
  id = 1;
  site_id = 4;
  template_id = 1;
  name = codes "Meter 1";
  protocol = codes "tcp";
  address = codes "192.168.1.20";
  port = none;
  slave_unit = some 1;
}

abbrev point : ℕ → ℕ → Point
point id reg = record {
  id = id;
  site_id = 4;
  device_id = 1;
  reg = reg;
  function = 3;
  base = 1;
  slave_unit = some 1;
  name = codes "old";
  type = codes "int16";
  scale = float_one;
  unit = none;
  is_monitored = true;
  is_recorded = false;
  cadence = codes "1m";
  last_value = none;
  last_read_ts = none;
}

abbrev store : Store
store = record {
  templates = template ∷ [];
  next_template = 2;
  devices = device ∷ [];
  next_device = 2;
  points = point 1 1 ∷ point 2 9 ∷ [];
  next_point = 3;
}

abbrev fresh : Fresh
fresh = record { root = codes "u2"; revision = codes "r2"; hostname = codes "box"; uuid5 = λ s. s }

abbrev change_request : Request
change_request = record {
  name = codes "Meter";
  manufacturer = none;
  registers = registers;
  template_id = some 1;
  is_shared = none;
}

save_template-IsSaved_example : IsDone fresh change_request (existing_template (some 1) store) store
save_template-IsSaved_example =
    save_template-IsSaved fresh change_request store
      (record { distinct = (tt, tt); below = (omega arith, tt) }) (tt, tt)
      (((λ e. omega arith), tt), (tt, tt))

-- A slave that has -5 in its first register.
abbrev slave : Slave
slave = record {
  protocol = tcp;
  address = codes "192.168.1.20";
  unit = 1;
  limit = codes "0.4";
  gateway = record { last_time = 1000; now = 1020 };
  network = λ asked k. record {
    link = opened (chunk (0 ∷ 1 ∷ 0 ∷ 0 ∷ 0 ∷ 5 ∷ 1 ∷ 3 ∷ 2 ∷ 255 ∷ 251 ∷ []) ∷ []);
    over_at = 1100;
  };
}

abbrev world : World
world = record {
  slave = λ protocol address port unit. slave;
  print_int = λ z scale. codes "n";
  print_single = λ v scale. codes "x";
  int_of = λ s. none;
  error_text = λ e. codes "error";
  now = 1700000000;
}

slave-Answers : Answers slave (request 3 0 1) (registers_reply 3 (65531 ∷ []))
unfolding ahead
slave-Answers = record {
  over_tcp = refl;
  events = chunk (0 ∷ 1 ∷ 0 ∷ 0 ∷ 0 ∷ 5 ∷ 1 ∷ 3 ∷ 2 ∷ 255 ∷ 251 ∷ []) ∷ [];
  arrives = refl;
  t1 = 0;
  t0 = 1;
  p1 = 0;
  p0 = 0;
  unit = 1;
  more = [];
  reply = refl;
}

read_point_value-signed_example :
    read_point_value world slave 3 1 (codes "int16") float_one 1 ≡ ok (codes "n", codes "n")
read_point_value-signed_example =
    read_point_value-signed world slave 3 1 1 (codes "int16") float_one (negsuc 4) (inl refl)
      (inl (omega arith)) signed16 (omega arith) slave-Answers

units : All (HasUnit world) (get_site_modbus_points 4 true store)
unfolding get_site_modbus_points joined row_le unit_of text_eq
units = ((1, refl), ((1, refl), tt))

read_site_monitored_points_live-Agrees_example :
    (st' : Store) × (results : List (Text × Value)) × (read_site_monitored_points_live world 4 store
      ≡ some (st', results))
    × All (Agrees world store st' results) (get_site_modbus_points 4 true store)
read_site_monitored_points_live-Agrees_example =
    read_site_monitored_points_live-Agrees world 4 store (((λ e. omega arith), tt), (tt, tt)) units

complete : (r : ℕ) (c : ℕ) (name : Text) → IsComplete 1 (register r (c ∷ name) (codes "uint16"))
complete r c name = record {
  function = 3;
  initial = c;
  name = name;
  type = codes "uint16";
  known = uint16;
  scale = float_one;
  unit = codes "kW";
  is = refl;
}

abbrev states : Template
states = record template { registers = register 2 (codes "State") (codes "uint16") ∷ [] }

abbrev ours : Store
ours = record store { templates = states ∷ [] }

import_template_from_fleet-share_template_to_fleet_example :
    (sent : Definition) × (theirs' : Store) × (u : Template) × ((share_template_to_fleet 1 ours).1
      ≡ some (codes "u1", sent))
    × (import_template_from_fleet (codes "u1") ((codes "u1", sent) ∷ []) empty_store
        ≡ some (theirs', true))
    × (get_template 1 theirs' ≡ some u)
    × IsCopy states u
import_template_from_fleet-share_template_to_fleet_example =
    import_template_from_fleet-share_template_to_fleet 1 ours empty_store states b'u' b'M'
      (codes "1") (codes "eter") refl refl refl (complete 2 b'S' (codes "tate"), tt)
      (record { distinct = tt; below = tt }) refl refl

abbrev new_request : Request
new_request = record change_request { template_id = none; is_shared = some true }

-- A template is created.
created_store : (st' : Store) × (save_template fresh new_request empty_store ≡ some (st', 1))
unfolding save_template write_template created sync_devices
created_store = (_, refl)

Reachable-IsSound_example : IsSound created_store.0
Reachable-IsSound_example =
    Reachable-IsSound created_store.0
      (then_step start (save fresh new_request created_store.0 1 created_store.1))
