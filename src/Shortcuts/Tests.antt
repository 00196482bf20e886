-- ===== src/Shortcuts/Tests.antt =====
-- Two shortcuts of one device.
use rpinode.Rows.{any_row}
use rpinode.Shortcuts.{Url, Table, current_routes}
use rpinode.Shortcuts.Routes.{asks_for, any_row-current_routes}
use rpinode.Text.{Text, codes, text_eq}
use rpinode.Prelude.{◌≡◌, refl, Option, some, [], ◌∷◌, true, false}

abbrev split : Text → Option Url
split url = some (record {
  scheme = codes "http";
  ip = some (codes "10.0.0.7");
  is_private = true;
  is_loopback = false;
  is_link_local = false;
})

abbrev table : Table
table = record {
  rows =
      record { id = 1; site_id = 4; label = codes "Plant"; url = codes "http://10.0.0.7/" }
      ∷ record { id = 2; site_id = 4; label = codes "Alarms"; url = codes "http://10.0.0.7/a" }
      ∷ [];
  next = 3;
}

any_row-current_routes_example :
    any_row (text_eq (codes "10.0.0.7/32")) (current_routes split (some 4) table)
    ≡ any_row (asks_for split 4 (codes "10.0.0.7/32")) table.rows
any_row-current_routes_example = any_row-current_routes split 4 table (codes "10.0.0.7/32") refl
