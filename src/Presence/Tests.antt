-- ===== src/Presence/Tests.antt =====
-- A label, a start and a forced site on small tables.
use rpinode.Presence.{Site, State, Gsm, find_site, label_current_location}
use rpinode.Presence.Start.{
  clear_current_location_if_new_boot, external_of, force_site, get_forced_site,
}
use rpinode.Presence.Boot.{
  IsStarted, Life, born, restart, file, clear_current_location_if_new_boot-IsStarted,
  force_site-survives,
}
use rpinode.Text.{Text, codes, text_eq}
use rpinode.Prelude.{◌≡◌, ◌≢◌, refl, true, false, none, some, [], ◌∷◌, arith}

abbrev gsm : Gsm
gsm = record { mcc = codes "206"; mnc = some (codes "01"); enodeb = 4711 }

abbrev temporary : Site
temporary = record {
  id = 1;
  name = codes "TEMP-206-01-4711";
  external_id = none;
  is_provisional = true;
  is_dirty = true;
}

abbrev school : Site
school = record {
  id = 1;
  name = codes "School";
  external_id = some (codes "9");
  is_provisional = false;
  is_dirty = true;
}

-- The node is on a temporary site.
abbrev before : State
before = record {
  db = record {
    sites = temporary ∷ [];
    next_site = 2;
    antennas = [];
    next_antenna = 1;
    site_antennas = [];
    presences = record { host = codes "box"; site_id = 1; is_current = true } ∷ [];
  };
  current = some (record {
    id = 1;
    name = codes "TEMP-206-01-4711";
    is_provisional = true;
    boot_id = some (codes "b1");
  });
  forced = none;
}

-- The temporary site gets the name, and keeps its row.
abbrev after : State
after = record {
  db = record {
    sites = school ∷ [];
    next_site = 2;
    antennas = record { id = 1; mcc = codes "206"; mnc = codes "01"; enodeb = 4711 } ∷ [];
    next_antenna = 2;
    site_antennas = (1, 1) ∷ [];
    presences =
        record { host = codes "box"; site_id = 1; is_current = false }
        ∷ record { host = codes "box"; site_id = 1; is_current = true }
        ∷ [];
  };
  current = some (record {
    id = 1;
    name = codes "School";
    is_provisional = false;
    boot_id = some (codes "b1");
  });
  forced = none;
}

before-not_forced : get_forced_site before ≡ none
unfolding get_forced_site
before-not_forced = refl

clear_current_location_if_new_boot-IsStarted_example :
    IsStarted
      (codes "box")
      (some (codes "b2"))
      before
      (clear_current_location_if_new_boot gsm (codes "box") (some (codes "b2")) before)
clear_current_location_if_new_boot-IsStarted_example =
    clear_current_location_if_new_boot-IsStarted gsm (codes "box") (some (codes "b2")) before
      before-not_forced

abbrev name : Text
name = codes "School"

named : name ≢ []
named e = ground arith

-- After the force, the file is lost and the system starts again.
abbrev forced_before : State
forced_before = force_site gsm (codes "box") (some (codes "b1")) name before

abbrev restarted : State
restarted =
    (clear_current_location_if_new_boot gsm (codes "box") none
      (record forced_before { current = none })).1

restarted-Life : Life forced_before restarted
restarted-Life = restart gsm (codes "box") none (file none born)

force_site-survives_example :
    clear_current_location_if_new_boot gsm (codes "box") none restarted
    ≡ (elim (label_current_location gsm
        (codes "box")
        none
        name
        false
        (external_of (find_site (λ s. text_eq s.name name) before.db.sites))
        restarted) [ none ↦ (none, restarted) | some s ↦ (some false, s) ])
force_site-survives_example =
    force_site-survives gsm gsm (codes "box") (codes "box") (some (codes "b1")) none name before
      restarted named restarted-Life
