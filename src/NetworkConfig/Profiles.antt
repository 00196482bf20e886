-- ===== src/NetworkConfig/Profiles.antt =====
-- The profiles of a site in src/services/network_config.py: what they ask for, and how they are saved.
use rpinode.ModbusMgr.{or_text}
use rpinode.Rows.{any_row, select}
use rpinode.Text.{Text, codes, text_eq}
use rpinode.Prelude.{ℕ, Bool, ◌&&◌, Option, none, some, List, [], ◌∷◌, ◌++◌, ◌==◌, if◌then◌else◌}
use rpinode.NetworkConfig.{
  Profile, World, Net, did, called_wifi, apply_eth0_profile, split_commas, clean_addresses,
  is_filled,
}

-- What the profiles of a site ask for, in their order.
pub data Request : Type 0 where
  eth0 : Text → Option Text → Option Text → Option Text → Request
  manage_wifi : Request

abbrev pub reset_eth0 : Request
reset_eth0 = eth0 (codes "auto") none none none

abbrev pub is_interface : Text → Profile → Bool
is_interface name p = text_eq p.interface name

unfoldable pub requests : List Profile → List Request
requests [] = []
requests (p ∷ profiles) =
    let rest = requests profiles in
    if is_interface (codes "eth0") p
    then eth0 p.method p.addresses p.gateway p.dhcp_range ∷ rest
    else if is_interface (codes "wlan0") p
    then manage_wifi ∷ rest
    else rest

-- Without a profile of eth0, it goes back to DHCP.
unfoldable pub site_requests : ℕ → List Profile → List Request
site_requests site_id table =
    let profiles = select (λ p. p.site_id == site_id) table in
    requests profiles
    ++ (if any_row (is_interface (codes "eth0")) profiles then [] else reset_eth0 ∷ [])

unfoldable pub apply_requests : World → List Request → Net → Net
apply_requests w [] n = n
apply_requests w (eth0 method addresses gateway dhcp_range ∷ rest) n =
    apply_requests w rest (apply_eth0_profile w method addresses gateway dhcp_range n)
apply_requests w (manage_wifi ∷ rest) n = apply_requests w rest (did called_wifi n)

unfoldable pub apply_site_network_profiles : World → ℕ → List Profile → Net → Net
apply_site_network_profiles w site_id table n = apply_requests w (site_requests site_id table) n

-- The addresses of a profile that is saved.
pub data Given : Type 0 where
  items : List Text → Given
  written : Text → Given
  nothing : Given

abbrev given_list : World → Given → List Text
given_list w (items xs) = xs
given_list w (written s) = elim (w.parse_json s) [ some xs ↦ xs | none ↦ split_commas s ]
given_list w nothing = []

pub record Saved : Type 0 where
  pub interface : Option Text
  pub iface : Option Text
  pub method : Option Text
  pub addresses : Given
  pub gateway : Option Text
  pub dhcp_range : Option Text
  pub ssid : Option Text
  pub psk : Option Text

abbrev method_of : Option Text → Text
method_of none = codes "auto"
method_of (some m) = m

abbrev saved_row : World → ℕ → Bool → Text → Saved → Profile
saved_row w site_id is_dirty iface p = record {
  site_id = site_id;
  interface = iface;
  method = method_of p.method;
  addresses = some (w.dump_json (clean_addresses (given_list w p.addresses)));
  gateway = p.gateway;
  dhcp_range = p.dhcp_range;
  ssid = p.ssid;
  psk = p.psk;
  is_dirty = is_dirty;
}

-- `INSERT … ON CONFLICT(site_id, interface) DO UPDATE`
unfoldable pub upsert : Profile → List Profile → List Profile
upsert p [] = p ∷ []
upsert p (q ∷ table) =
    if q.site_id == p.site_id && text_eq q.interface p.interface
    then p ∷ table
    else q ∷ upsert p table

unfoldable pub save_site_network_profiles :
    World → ℕ → Bool → List Saved → List Profile → List Profile
save_site_network_profiles w site_id is_dirty [] table = table
save_site_network_profiles w site_id is_dirty (p ∷ profiles) table =
    let iface = or_text p.interface (or_text p.iface []) in
    let saved =
      save_site_network_profiles w site_id is_dirty profiles
        (upsert (saved_row w site_id is_dirty iface p) table) in
    let skipped = save_site_network_profiles w site_id is_dirty profiles table in
    if is_filled iface then saved else skipped
