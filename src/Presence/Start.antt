-- ===== src/Presence/Start.antt =====
-- The current and the forced site of src/services/presence.py, and a start of the system.
use rpinode.Presence.{
  Site, Presence, Current, Forced, State, Gsm, find_site, is_text, is_automatic, left,
  label_current_location,
}
use rpinode.Text.{Text, codes, text_eq}
use rpinode.Prelude.{Bool, true, false, ◌||◌, Option, none, some, [], map, if◌then◌else◌}

-- `get_forced_site`
unfoldable pub get_forced_site : State → Option Forced
get_forced_site st = elim st.forced [
  | none ↦ none
  | some f ↦ if text_eq f.name [] then none else some f
]

abbrev pub name_of : Option Current → Text
name_of none = codes "Inconnu"
name_of (some c) = if text_eq c.name [] then codes "Inconnu" else c.name

-- `get_current_site_name`
abbrev pub get_current_site_name : State → Text
get_current_site_name st = name_of st.current

abbrev provisional_of : Option Current → Bool
provisional_of none = true
provisional_of (some c) =
    c.is_provisional || (is_automatic c.name || text_eq c.name (codes "Inconnu"))

-- `is_current_site_provisional`
abbrev pub is_current_site_provisional : State → Bool
is_current_site_provisional st = provisional_of st.current

-- A call whose exception is caught further out leaves the state as it was.
abbrev pub or_kept : Option State → State → State
or_kept none st = st
or_kept (some st') st = st'

abbrev pub external_of : Option Site → Option Text
external_of none = none
external_of (some s) = s.external_id

-- `force_site`: the file is written before the label, which may raise.
unfoldable pub force_site : Gsm → Text → Option Text → Text → State → State
force_site gsm host boot name st =
    let external_id = external_of (find_site (λ s. text_eq s.name name) st.db.sites) in
    let st' : State = record st {
      forced = some (record { name = name; external_id = external_id });
    } in
    or_kept (label_current_location gsm host boot name false external_id st') st'

-- `release_forced_site`
unfoldable pub release_forced_site : State → State
release_forced_site st = record st { forced = none }

abbrev pub leave : Text → Presence → Presence
leave host p = if text_eq p.host host then left p else p

-- `clear_current_location`, where the file can be deleted.
unfoldable pub clear_current_location : Text → State → State
clear_current_location host st = record st {
  current = none;
  db = record st.db { presences = map (leave host) st.db.presences };
}

-- `session.get("boot_id") == boot_actuel`, with a number of the boot and a file that are there.
abbrev pub same_boot : Option Text → Option Current → Bool
same_boot none c = false
same_boot (some b) none = false
same_boot (some b) (some c) = is_text c.boot_id b

-- The end of a start with a forced site: the exception of a label leaves the start, and the state as
-- it was.
abbrev pub restored : State → Option State → Option Bool × State
restored st none = (none, st)
restored st (some st') = (some false, st')

-- `clear_current_location_if_new_boot`: whether the site was cleared, or `none` where the call
-- raises, and the state.
unfoldable pub clear_current_location_if_new_boot :
    Gsm → Text → Option Text → State → Option Bool × State
clear_current_location_if_new_boot gsm host boot st = elim (get_forced_site st) [
  | some f ↦ restored st (label_current_location gsm host boot f.name false f.external_id st)
  | none ↦
      if same_boot boot st.current
      then (some false, st)
      else (some true, clear_current_location host st)
]
