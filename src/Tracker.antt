-- ===== src/Tracker.antt =====
-- `check_and_update_site` of src/services/tracker.py: one look at the cell, the server and the
-- tables. What the modem says, the row that SQLite picks for an antenna, and what the server answers
-- and changes in the tables are arguments. An exception ends the look, and the loop of the tracker
-- catches it; the network profiles are effects, in their order.
pub mod Forcing
pub mod Hints
mod Tests
use mathlib.Core.Option
use rpinode.Presence.{
  Site, Db, Current, Forced, State, Gsm, has_gsm, is_automatic, is_text, find_site,
  label_current_location,
}
use rpinode.Presence.Start.{get_forced_site, get_current_site_name, is_current_site_provisional}
use rpinode.Text.{Text, codes, text_eq, decimal}
use rpinode.Prelude.{
  ℕ, Bool, true, false, ◌&&◌, ◌||◌, not, Option, none, some, List, [], ◌∷◌, ◌++◌, ◌==◌,
  if◌then◌else◌,
}

-- `sync_data`, as far as it is used: the name and the number of the site, and whether there are
-- network profiles.
pub record Sync : Type 0 where
  pub chantier : Option (Text × Text)
  pub has_profiles : Bool

-- The server, the modem (asked again for a label), the boot and the choice of SQLite.
pub record World : Type 0 where
  pub gsm : Gsm
  pub gsm_label : Gsm
  pub host : Text
  pub boot : Option Text
  pub is_registered : Bool
  pub sync_location : Option Text → Db → Db × Option Sync
  pub pick : Gsm → Db → Option Site

pub data Effect : Type 0 where
  announced : Option Text → Effect
  renamed : Text → Text → Effect
  saved_profiles : ℕ → Effect
  applied_profiles : ℕ → Effect

-- `_is_provisional_site`
unfoldable pub is_provisional_site : Text → Bool → Bool
is_provisional_site name is_provisional =
    is_provisional || (text_eq name (codes "Inconnu") || is_automatic name)

-- `_find_local_site_for_gsm`
abbrev pub find_local_site_for_gsm : World → Db → Option Site
find_local_site_for_gsm w db = if has_gsm w.gsm then w.pick w.gsm db else none

-- `_build_site_hint_for_sync`
unfoldable pub build_site_hint_for_sync : Gsm → Text → Bool → Option Site → Option Text
build_site_hint_for_sync gsm current_site current_is_prov (some s) =
    if is_provisional_site s.name s.is_provisional then none else some s.name
build_site_hint_for_sync gsm current_site current_is_prov none =
    if has_gsm gsm
    then none
    else if text_eq current_site [] || is_provisional_site current_site current_is_prov
    then none
    else some current_site

-- `trusted_local_name`, where it is not empty.
abbrev pub trusted_local_name : Option Site → Option Text
trusted_local_name none = none
trusted_local_name (some s) =
    if is_provisional_site s.name s.is_provisional || text_eq s.name [] then none else some s.name

abbrev label : World → Text → Bool → Option Text → State → Option State
label w name provisional external_id st =
    label_current_location w.gsm_label w.host w.boot name provisional external_id st

-- A label, then effects that depend on the state that it leaves; an exception ends the look.
abbrev pub after : Option State → (State → List Effect) → State → List Effect → State × List Effect
after none then_effects st effects = (st, effects)
after (some st') then_effects st effects = (st', effects ++ then_effects st')

abbrev row_effects : Bool → Option Site → List Effect
row_effects profiles none = []
row_effects profiles (some s) =
    (if profiles then saved_profiles s.id ∷ [] else []) ++ applied_profiles s.id ∷ []

-- The server knows the site.
unfoldable pub follow_server :
    World → Option Site → Text → Text → Bool → State → List Effect → State × List Effect
follow_server w local_site dist_name dist_id profiles st effects =
    elim (if is_automatic dist_name then trusted_local_name local_site else none) [
      | some trusted ↦
          after (label w trusted false (some dist_id) st) (λ st'. renamed dist_id trusted ∷ []) st
            effects
      | none ↦
          if text_eq dist_name (get_current_site_name st)
          then (st, effects)
          else after (label w dist_name (is_automatic dist_name) (some dist_id) st)
              (λ st'.
                row_effects profiles (find_site (λ s. is_text s.external_id dist_id) st'.db.sites))
              st effects
    ]

abbrev printed : Option Text → Text
printed none = codes "None"
printed (some s) = s

-- `f"TEMP-{mcc}-{mnc}-{enodeb}"`
abbrev pub temp_name : Gsm → Text
temp_name g =
    codes "TEMP-" ++ (g.mcc ++ (codes "-" ++ (printed g.mnc ++ (codes "-" ++ decimal g.enodeb))))

-- The resolution by the tables alone, or a temporary site.
unfoldable pub follow_antenna : World → Option Site → State → List Effect → State × List Effect
follow_antenna w local_site st effects =
    if not (has_gsm w.gsm) then (st, effects) else elim local_site [
      | some s ↦
          if text_eq s.name (get_current_site_name st)
          then (st, effects)
          else after (label w s.name (is_provisional_site s.name s.is_provisional) none st)
              (λ st'. applied_profiles s.id ∷ []) st effects
      | none ↦
          if text_eq (temp_name w.gsm) (get_current_site_name st)
          then (st, effects)
          else after (label w (temp_name w.gsm) true none st)
              (λ st'.
                row_effects false (find_site (λ s. text_eq s.name (temp_name w.gsm)) st'.db.sites))
              st effects
    ]

abbrev chantier_of : Option Sync → Option (Text × Text)
chantier_of none = none
chantier_of (some d) = d.chantier

abbrev profiles_of : Option Sync → Bool
profiles_of none = false
profiles_of (some d) = d.has_profiles

-- The look after the answer of the server.
unfoldable pub follow :
    World → Option Site → Option Sync → State → List Effect → State × List Effect
follow w local_site answer st effects =
    elim (if w.gsm.enodeb == 0 then none else chantier_of answer) [
      | some (dist_name, dist_id) ↦
          follow_server w local_site dist_name dist_id (profiles_of answer) st effects
      | none ↦ follow_antenna w local_site st effects
    ]

-- The call of the server with a hint: the tables that it leaves, its answer, the effect.
abbrev pub sync : World → Option Text → State → State × (Option Sync × List Effect)
sync w hint st =
    if w.is_registered
    then (
      record st { db = (w.sync_location hint st.db).0 },
      ((w.sync_location hint st.db).1, announced hint ∷ []),
    )
    else (st, (none, []))

unfoldable pub check_forced : World → Forced → State → State × List Effect
check_forced w f st =
    let s = sync w (some f.name) st in
    if text_eq f.name (get_current_site_name st)
    then (s.0, s.1.1)
    else after (label w f.name false f.external_id s.0) (λ st'. []) s.0 s.1.1

unfoldable pub check_and_update_site : World → State → State × List Effect
check_and_update_site w st = elim (get_forced_site st) [
  | some f ↦ check_forced w f st
  | none ↦
      let local_site = find_local_site_for_gsm w st.db in
      let hint =
        build_site_hint_for_sync w.gsm (get_current_site_name st) (is_current_site_provisional st)
          local_site in
      let s = sync w hint st in follow w local_site s.1.0 s.0 s.1.1
]
