-- ===== src/IpScan/Tests.antt =====
-- Two devices of a site that change their addresses.
use rpinode.IpScan.{Device, Found, update_db_results}
use rpinode.IpScan.Owners.{AreApart, update_db_results-AreApart}
use rpinode.Text.{Text, codes, text_eq}
use rpinode.Prelude.{refl, none, some, List, [], ◌∷◌}

abbrev device : Text → Text → Device
device mac ip = record {
  site_id = 1;
  mac = mac;
  vendor = none;
  last_ip = some ip;
  last_ports = codes "[]";
  last_iface = codes "eth0";
  bacnet_instance = none;
  bacnet_name = none;
  modbus_info = none;
  last_seen = codes "2026-01-01";
}

abbrev devices : List Device
devices = device (codes "aa") (codes "10.0.0.1") ∷ device (codes "bb") (codes "10.0.0.2") ∷ []

-- The second device now has the address of the first.
abbrev found : List Found
found =
    record {
      ip = codes "10.0.0.1";
      mac = codes "BB";
      vendor = codes "Inconnu";
      ports = codes "[502]";
      iface = codes "eth0";
      bacnet_instance = none;
      bacnet_name = none;
      modbus_info = none;
      last_seen = codes "2026-01-02";
    }
    ∷ []

update_db_results-AreApart_example : AreApart (update_db_results (some 1) found devices)
unfolding text_eq
update_db_results-AreApart_example =
    update_db_results-AreApart (some 1) found devices
      ((record { keys = refl; ips = refl }, tt), (tt, tt))
