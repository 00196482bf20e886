-- ===== src/NetworkConfig.antt =====
-- The network of a site in src/services/network_config.py: its profiles, the commands that apply one to
-- eth0, and the routes that are announced. What a command does, the parsing and the printing of JSON,
-- the state of the enrolment and the answer of the fleet are arguments.
pub mod Publish
pub mod Eth0
pub mod Profiles
mod Tests
use rpinode.ModbusMgr.{or_text}
use rpinode.Rows.{any_row, select}
use rpinode.Text.{Text, codes, text_eq, strip, contains, lower}
use rpinode.Prelude.{
  ℕ, zero, suc, Bool, true, false, ◌&&◌, ◌||◌, not, Option, none, some, List, [], ◌∷◌, ◌++◌, map,
  ◌==◌, if◌then◌else◌,
}

-- A row of `site_network_profiles`.
pub record Profile : Type 0 where
  pub site_id : ℕ
  pub interface : Text
  pub method : Text
  pub addresses : Option Text
  pub gateway : Option Text
  pub dhcp_range : Option Text
  pub ssid : Option Text
  pub psk : Option Text
  pub is_dirty : Bool

-- A command ends with a code and its messages, or it is not started or runs out of time.
pub data Exit : Type 0 where
  exited : ℕ → Text → Exit
  raised : Exit

pub record World : Type 0 where
  pub run : Text → Exit
  -- What names the connection of eth0, and the routes of the shortcuts.
  pub connection : Text
  pub routes : List Text
  -- Whether the enrolment is active, and whether the fleet took the routes; none where that raises.
  pub headscale_active : Option Bool
  pub routes_synced : Option Bool
  -- The items of a text of JSON as texts, and the text of a list.
  pub parse_json : Text → Option (List Text)
  pub dump_json : List Text → Text

-- `",".join(…)`
abbrev pub join_commas : List Text → Text
join_commas [] = []
join_commas (s ∷ []) = s
join_commas (s ∷ t ∷ ts) = s ++ (codes "," ++ join_commas (t ∷ ts))

-- `s.split(",")`
abbrev add_first : ℕ → List Text → List Text
add_first c [] = (c ∷ []) ∷ []
add_first c (s ∷ ss) = (c ∷ s) ∷ ss

abbrev pub split_commas : Text → List Text
split_commas [] = [] ∷ []
split_commas (c ∷ s) =
    let rest = split_commas s in if c == b',' then [] ∷ rest else add_first c rest

abbrev drop_char : ℕ → Text → Text
drop_char q [] = []
drop_char q (c ∷ s) = let rest = drop_char q s in if c == q then rest else c ∷ s

abbrev drop_last_char : ℕ → Text → Text
drop_last_char q [] = []
drop_last_char q (c ∷ s) = elim (drop_last_char q s) [
  | [] ↦ if c == q then [] else c ∷ []
  | d ∷ t ↦ c ∷ d ∷ t
]

-- `s.strip(q)` of one character.
abbrev pub strip_char : ℕ → Text → Text
strip_char q s = drop_last_char q (drop_char q s)

-- `str(a).strip().strip('"').strip("'").strip()`, without what is empty then.
unfoldable pub clean_address : Text → Text
clean_address a = strip (strip_char b'\'' (strip_char b'"' (strip a)))

abbrev pub is_filled : Text → Bool
is_filled [] = false
is_filled (c ∷ s) = true

unfoldable pub clean_addresses : List Text → List Text
clean_addresses xs = select is_filled (map clean_address xs)

-- `json.loads(addresses) if addresses else []`, else the parts between commas.
unfoldable pub address_list : World → Option Text → List Text
address_list w none = []
address_list w (some []) = []
address_list w (some (c ∷ s)) = elim (w.parse_json (c ∷ s)) [
  | some items ↦ items
  | none ↦ split_commas (c ∷ s)
]

abbrev pub quoted : Text → Text
quoted s = codes "'" ++ (s ++ codes "'")

abbrev con_name : World → Text
con_name w = or_text (some (strip w.connection)) (codes "eth0-manual")

abbrev shared_part : Text → Option Text → Text
shared_part method dhcp_range =
    if text_eq method (codes "shared")
    then codes " ipv4.shared-dhcp-range " ++ quoted (or_text dhcp_range [])
    else []

-- `nm_cmd`
unfoldable pub nm_cmd : World → Text → Option Text → Option Text → Option Text → Text
nm_cmd w method addresses gateway dhcp_range =
    codes "sudo nmcli con mod "
    ++ (quoted (con_name w)
        ++ (if text_eq method (codes "auto")
            then codes
                " ipv4.method auto ipv4.addresses '' ipv4.gateway '' ipv4.shared-dhcp-range ''"
            else codes " ipv4.method "
              ++ (method
                  ++ (codes " ipv4.addresses "
                      ++ (quoted (join_commas (clean_addresses (address_list w addresses)))
                          ++ (codes " ipv4.gateway "
                              ++ (quoted (or_text gateway [])
                                  ++ shared_part method dhcp_range)))))))

-- The last set of routes that was published, and what is done outside, in order.
pub data Effect : Type 0 where
  command : Text → Effect
  sync_routes : List Text → Effect
  called_wifi : Effect

pub record Net : Type 0 where
  pub routes_published : Option (List Text)
  pub effects : List Effect

unfoldable pub same_routes : List Text → List Text → Bool
same_routes [] [] = true
same_routes [] (t ∷ ts) = false
same_routes (s ∷ ss) [] = false
same_routes (s ∷ ss) (t ∷ ts) = text_eq s t && same_routes ss ts

abbrev pub is_published : List Text → Option (List Text) → Bool
is_published routes none = false
is_published routes (some old) = same_routes routes old

abbrev pub did : Effect → Net → Net
did e n = record n { effects = n.effects ++ e ∷ [] }

abbrev pub advertise : List Text → Text
advertise routes = codes "sudo tailscale set --advertise-routes=" ++ join_commas routes

-- The end of a publication: the routes are noted, unless the fleet is asked and does not take them.
abbrev pub note_routes : Option Bool → Option Bool → List Text → Net → Net
note_routes none synced routes n = n
note_routes (some false) synced routes n = record n { routes_published = some routes }
note_routes (some true) (some true) routes n =
    did (sync_routes routes) (record n { routes_published = some routes })
note_routes (some true) (some false) routes n = did (sync_routes routes) n
note_routes (some true) none routes n = did (sync_routes routes) n

unfoldable pub sync_published : World → Net → Net
sync_published w n = note_routes w.headscale_active w.routes_synced w.routes n

-- After the command: the state, and whether the call raised.
abbrev pub published : World → Net → Exit → Net × Bool
published w n raised = (n, true)
published w n (exited zero message) = (sync_published w n, false)
published w n (exited (suc code) message) = (n, false)

unfoldable pub publish_tailscale_routes : World → Bool → Net → Net × Bool
publish_tailscale_routes w force n =
    if is_published w.routes n.routes_published && not force
    then (n, false)
    else published w (did (command (advertise w.routes)) n) (w.run (advertise w.routes))

-- `subprocess.run` with `check`, then the rest; a command that raises ends the application.
abbrev pub run_then : World → Bool → Text → (Net → Net) → Net → Net
run_then w check cmd rest n = elim (w.run cmd) [
  | raised ↦ did (command cmd) n
  | exited zero err ↦ rest (did (command cmd) n)
  | exited (suc code) err ↦ if check then did (command cmd) n else rest (did (command cmd) n)
]

abbrev flush_cmd : Text
flush_cmd = codes "sudo ip addr flush dev eth0"

-- The last steps: the connection comes up, or the addresses are flushed once more; the routes.
unfoldable pub bring_up : World → Net → Net
bring_up w n =
    let up = codes "sudo nmcli con up " ++ quoted (con_name w) in
    let publish = λ (m : Net). (publish_tailscale_routes w false m).0 in
    elim (w.run up) [
      | raised ↦ did (command up) n
      | exited zero err ↦ publish (did (command up) n)
      | exited (suc code) err ↦ run_then w false flush_cmd publish (did (command up) n)
    ]

unfoldable pub apply_eth0_profile :
    World → Text → Option Text → Option Text → Option Text → Net → Net
apply_eth0_profile w method addresses gateway dhcp_range n =
    run_then w false (codes "sudo nmcli con down " ++ quoted (con_name w))
      (run_then w false flush_cmd (
        run_then w true (nm_cmd w method addresses gateway dhcp_range) (
          run_then w true
            (codes "sudo nmcli con mod "
              ++ (quoted (con_name w) ++ codes " ipv4.never-default yes"))
            (bring_up w))))
      n
