-- ===== src/Tracker/Tests.antt =====
-- A look of the tracker at a forced site, and a hint.
use rpinode.Presence.{Site, Forced, State, Gsm}
use rpinode.Presence.Start.{get_forced_site}
use rpinode.Text.{codes, text_eq, starts_with}
use rpinode.Presence.{is_automatic}
use rpinode.Tracker.{World, is_provisional_site, build_site_hint_for_sync, check_and_update_site}
use rpinode.Tracker.Forcing.{IsForced, check_and_update_site-IsForced}
use rpinode.Tracker.Hints.{IsGiven, IsHint, build_site_hint_for_sync-IsHint}
use rpinode.Prelude.{◌≡◌, refl, true, false, none, some, []}

abbrev gsm : Gsm
gsm = record { mcc = codes "206"; mnc = some (codes "01"); enodeb = 4711 }

-- A server that knows another site for the cell.
abbrev world : World
world = record {
  gsm = gsm;
  gsm_label = gsm;
  host = codes "box";
  boot = some (codes "b1");
  is_registered = true;
  sync_location = λ hint db.
      (db, some (record { chantier = some (codes "AUTO-1", codes "1"); has_profiles = false }));
  pick = λ g db. none;
}

abbrev school : Forced
school = record { name = codes "School"; external_id = none }

abbrev forced_state : State
forced_state = record {
  db = record {
    sites = [];
    next_site = 1;
    antennas = [];
    next_antenna = 1;
    site_antennas = [];
    presences = [];
  };
  current = none;
  forced = some school;
}

forced_state-school : get_forced_site forced_state ≡ some school
unfolding get_forced_site text_eq
forced_state-school = refl

check_and_update_site-IsForced_example :
    IsForced world school forced_state (check_and_update_site world forced_state)
check_and_update_site-IsForced_example =
    check_and_update_site-IsForced world school forced_state forced_state-school

abbrev local : Site
local = record {
  id = 1;
  name = codes "School";
  external_id = none;
  is_provisional = false;
  is_dirty = false;
}

local_hint : build_site_hint_for_sync gsm (codes "AUTO-1") true (some local) ≡ some (codes "School")
unfolding build_site_hint_for_sync is_provisional_site is_automatic starts_with text_eq
local_hint = refl

build_site_hint_for_sync-IsHint_example :
    IsGiven (codes "School") × IsHint gsm (codes "AUTO-1") true (some local) (codes "School")
build_site_hint_for_sync-IsHint_example =
    build_site_hint_for_sync-IsHint gsm (codes "AUTO-1") true (some local) (codes "School")
      local_hint
