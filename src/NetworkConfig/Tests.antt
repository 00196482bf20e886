-- ===== src/NetworkConfig/Tests.antt =====
-- A site with a fixed address, and a publication that the fleet takes.
use rpinode.NetworkConfig.{World, exited, Net, Profile, publish_tailscale_routes}
use rpinode.NetworkConfig.Profiles.{site_requests}
use rpinode.NetworkConfig.Eth0.{is_eth0, wants_eth0, site_requests-eth0, mine}
use rpinode.NetworkConfig.Publish.{IsPublication, publish_tailscale_routes-IsPublication}
use rpinode.Rows.{select, first}
use rpinode.Text.{codes, text_eq}
use rpinode.Prelude.{◌≡◌, true, false, none, some, [], ◌∷◌, ◌==◌, arith}

abbrev world : World
world = record {
  run = λ c. exited 0 [];
  connection = codes "Wired";
  routes = codes "10.0.0.7/32" ∷ [];
  headscale_active = some true;
  routes_synced = some true;
  parse_json = λ s. none;
  dump_json = λ xs. codes "[]";
}

abbrev net : Net
net = record { routes_published = none; effects = [] }

publish_tailscale_routes-IsPublication_example :
    IsPublication world false net (publish_tailscale_routes world false net)
publish_tailscale_routes-IsPublication_example =
    publish_tailscale_routes-IsPublication world false net

abbrev profile : Profile
profile = record {
  site_id = 4;
  interface = codes "eth0";
  method = codes "manual";
  addresses = some (codes "10.0.0.2/24");
  gateway = none;
  dhcp_range = none;
  ssid = none;
  psk = none;
  is_dirty = false;
}

site_requests-eth0_example :
    select is_eth0 (site_requests 4 (profile ∷ []))
    ≡ wants_eth0 (first mine (select (λ p. p.site_id == 4) (profile ∷ []))) ∷ []
unfolding text_eq
site_requests-eth0_example = site_requests-eth0 4 (profile ∷ []) (omega arith)
