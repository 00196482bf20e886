-- ===== src/Shortcuts.antt =====
-- The shortcuts of a site in src/services/shortcuts.py: web addresses of devices, and the routes that
-- make them reachable. `urlsplit` and `IPv4Address` are arguments.
pub mod Routes
mod Tests
use rpinode.ModbusMgr.{or_text}
use rpinode.Rows.{select, delete, any_row}
use rpinode.Sort.{sort_by, text_le}
use rpinode.Text.{Text, codes, text_eq, strip}
use rpinode.Prelude.{
  ℕ, zero, suc, Bool, true, false, ◌&&◌, ◌||◌, not, Option, none, some, List, [], ◌∷◌, ◌++◌, map,
  length, ltb, ◌==◌, if◌then◌else◌,
}

abbrev libelle_max : ℕ
libelle_max = 64

abbrev url_max : ℕ
url_max = 255

-- The parts of an address: the scheme, and the printed IPv4 address of the host, where it is one and
-- the port is valid.
pub record Url : Type 0 where
  pub scheme : Text
  pub ip : Option Text
  pub is_private : Bool
  pub is_loopback : Bool
  pub is_link_local : Bool

pub data Invalid : Type 0 where
  no_label too_long bad_url bad_scheme no_ip not_local : Invalid

-- The label, the address and the IP, or the reason.
pub data Checked : Type 0 where
  accepted : Text → Text → Text → Checked
  rejected : Invalid → Checked

abbrev is_web : Text → Bool
is_web scheme = text_eq scheme (codes "http") || text_eq scheme (codes "https")

abbrev check_ip : Text → Text → Url → Option Text → Checked
check_ip libelle url u none = rejected no_ip
check_ip libelle url u (some ip) =
    if not u.is_private || (u.is_loopback || u.is_link_local)
    then rejected not_local
    else accepted libelle url ip

-- An address that cannot be split is refused too.
abbrev check_url : Text → Text → Option Url → Checked
check_url libelle url none = rejected bad_url
check_url libelle url (some u) =
    if is_web u.scheme then check_ip libelle url u u.ip else rejected bad_scheme

unfoldable pub valider : (Text → Option Url) → Option Text → Option Text → Checked
valider urlsplit label address =
    let libelle = strip (or_text label []) in
    let url = strip (or_text address []) in
    if text_eq libelle []
    then rejected no_label
    else if ltb libelle_max (length libelle) || ltb url_max (length url)
    then rejected too_long
    else check_url libelle url (urlsplit url)

-- A row of `site_shortcuts`, and the table with its next number.
pub record Shortcut : Type 0 where
  pub id : ℕ
  pub site_id : ℕ
  pub label : Text
  pub url : Text

pub record Table : Type 0 where
  pub rows : List Shortcut
  pub next : ℕ

-- `ORDER BY label, id`
abbrev pub shortcut_le : Shortcut → Shortcut → Bool
shortcut_le s t = if text_eq s.label t.label then not (ltb t.id s.id) else text_le s.label t.label

unfoldable pub list_shortcuts : Option ℕ → Table → List Shortcut
list_shortcuts none table = []
list_shortcuts (some site_id) table =
    if site_id == 0 then [] else sort_by shortcut_le (select (λ s. s.site_id == site_id) table.rows)

abbrev insert_checked : ℕ → Checked → Table → Table × Option Invalid
insert_checked site_id (rejected why) table = (table, some why)
insert_checked site_id (accepted libelle url ip) table = (
  record {
    rows =
        table.rows
        ++ record { id = table.next; site_id = site_id; label = libelle; url = url } ∷ [];
    next = suc table.next;
  },
  none,
)

-- The table, and why the shortcut was refused.
unfoldable pub add_shortcut :
    (Text → Option Url) → ℕ → Option Text → Option Text → Table → Table × Option Invalid
add_shortcut urlsplit site_id libelle url table =
    insert_checked site_id (valider urlsplit libelle url) table

abbrev is_shortcut : ℕ → ℕ → Shortcut → Bool
is_shortcut site_id shortcut_id s = s.id == shortcut_id && s.site_id == site_id

-- The table, and whether a row was deleted.
unfoldable pub delete_shortcut : ℕ → ℕ → Table → Table × Bool
delete_shortcut site_id shortcut_id table = (
  record table { rows = delete (is_shortcut site_id shortcut_id) table.rows },
  any_row (is_shortcut site_id shortcut_id) table.rows,
)

-- The IP of a shortcut that is valid.
abbrev pub ip_of : Checked → Option Text
ip_of (accepted libelle url ip) = some ip
ip_of (rejected why) = none

-- `ips.add(…)` of a set, as a list without repetition.
abbrev pub add_ip : Option Text → List Text → List Text
add_ip none ips = ips
add_ip (some ip) ips = if any_row (text_eq ip) ips then ips else ip ∷ ips

unfoldable pub ips_of : (Text → Option Url) → List Shortcut → List Text
ips_of urlsplit [] = []
ips_of urlsplit (s ∷ shortcuts) =
    add_ip (ip_of (valider urlsplit (some s.label) (some s.url))) (ips_of urlsplit shortcuts)

abbrev pub route : Text → Text
route ip = ip ++ codes "/32"

-- The routes of the current site, which is its row, if there is one.
unfoldable pub current_routes : (Text → Option Url) → Option ℕ → Table → List Text
current_routes urlsplit none table = []
current_routes urlsplit (some site_id) table =
    sort_by text_le (map route (ips_of urlsplit (list_shortcuts (some site_id) table)))

-- The external number of the site, and the labels and the addresses.
unfoldable pub sync_payload :
    Option (ℕ × Option Text) → Table → Option (Option Text × List (Text × Text))
sync_payload none table = none
sync_payload (some (site_id, external_id)) table =
    some (external_id, map (λ s. (s.label, s.url)) (list_shortcuts (some site_id) table))
