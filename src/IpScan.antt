-- ===== src/IpScan.antt =====
-- `update_db_results` of src/services/ipscan.py: the devices that a scan found are merged into the
-- table of devices, of which the rows are in the order of insertion. The ports of a device are kept
-- as they are printed.
pub mod Owners
mod Tests
use rpinode.Text.{Text, codes, text_eq, lower}
use rpinode.Prelude.{
  ℕ, ◌+◌, Bool, true, false, ◌&&◌, ◌||◌, not, Option, none, some, List, [], ◌∷◌, map, leb, ◌==◌,
  if◌then◌else◌,
}

-- A row of `discovered_devices`.
pub record Device : Type 0 where
  pub site_id : ℕ
  pub mac : Text
  pub vendor : Option Text
  pub last_ip : Option Text
  pub last_ports : Text
  pub last_iface : Text
  pub bacnet_instance : Option ℕ
  pub bacnet_name : Option Text
  pub modbus_info : Option Text
  pub last_seen : Text

-- What the scan says of a device.
pub record Found : Type 0 where
  pub ip : Text
  pub mac : Text
  pub vendor : Text
  pub ports : Text
  pub iface : Text
  pub bacnet_instance : Option ℕ
  pub bacnet_name : Option Text
  pub modbus_info : Option Text
  pub last_seen : Text

abbrev pub is_ip : Option Text → Text → Bool
is_ip none ip = false
is_ip (some i) ip = text_eq i ip

-- `UPDATE discovered_devices SET last_ip = NULL WHERE site_id = ? AND mac != ? AND last_ip = ?`
unfoldable pub release : ℕ → Text → Text → Device → Device
release site mac ip d =
    if d.site_id == site && (not (text_eq d.mac mac) && is_ip d.last_ip ip)
    then record d { last_ip = none }
    else d

-- `UNIQUE(site_id, mac)`
abbrev pub has_key : ℕ → Text → Device → Bool
has_key site mac d = d.site_id == site && text_eq d.mac mac

abbrev pub coalesce {ℓ} : {A : Type ℓ} → Option A → Option A → Option A
coalesce none old = old
coalesce (some new) old = some new

-- A vendor that is not known is replaced.
abbrev vendor_of : Option Text → Text → Option Text
vendor_of none new = some new
vendor_of (some v) new = if text_eq v (codes "Inconnu") then some new else some v

-- `VALUES (…)`
abbrev pub new_device : ℕ → Found → Device
new_device site f = record {
  site_id = site;
  mac = lower f.mac;
  vendor = some f.vendor;
  last_ip = some f.ip;
  last_ports = f.ports;
  last_iface = f.iface;
  bacnet_instance = f.bacnet_instance;
  bacnet_name = f.bacnet_name;
  modbus_info = f.modbus_info;
  last_seen = f.last_seen;
}

-- `DO UPDATE SET …`
abbrev pub merged : Found → Device → Device
merged f d = record d {
  vendor = vendor_of d.vendor f.vendor;
  last_ip = some f.ip;
  last_ports = f.ports;
  last_iface = f.iface;
  bacnet_instance = coalesce f.bacnet_instance d.bacnet_instance;
  bacnet_name = coalesce f.bacnet_name d.bacnet_name;
  modbus_info = coalesce f.modbus_info d.modbus_info;
  last_seen = f.last_seen;
}

-- `INSERT INTO discovered_devices … ON CONFLICT(site_id, mac)`
unfoldable pub upsert : ℕ → Found → List Device → List Device
upsert site f [] = new_device site f ∷ []
upsert site f (d ∷ devices) =
    if has_key site (lower f.mac) d then merged f d ∷ devices else d ∷ upsert site f devices

unfoldable pub update_device : ℕ → Found → List Device → List Device
update_device site f devices = upsert site f (map (release site (lower f.mac) f.ip) devices)

-- `for d in devices`
unfoldable pub update_devices : ℕ → List Found → List Device → List Device
update_devices site [] devices = devices
update_devices site (f ∷ found) devices = update_devices site found (update_device site f devices)

-- Without a current site nothing is stored.
unfoldable pub update_db_results : Option ℕ → List Found → List Device → List Device
update_db_results none found devices = devices
update_db_results (some site) found devices =
    if site == 0 then devices else update_devices site found devices
