-- ===== src/Presence.antt =====
-- `label_current_location` and the forced and the current site of src/services/presence.py. The
-- tables of the database are rows in the order of insertion, with the constraints of
-- src/core/schema.sql: a statement that breaks one raises, and the connection then takes back all
-- that its block has done. The position and the cell that are stored with an antenna are not
-- modelled, since nothing here reads them.
pub mod Tables
pub mod Written
pub mod Row
pub mod Cell
pub mod Label
pub mod Start
pub mod Boot
mod Tests
use mathlib.Core.Option
use rpinode.Prelude.Options.{◌>>=◌}
use rpinode.Text.{Text, codes, starts_with, text_eq}
use rpinode.Prelude.{
  ℕ, ◌+◌, Bool, true, false, ◌&&◌, ◌||◌, not, Option, none, some, List, [], ◌∷◌, ◌++◌, map, ◌==◌,
  if◌then◌else◌,
}

-- A row of the table of sites.
pub record Site : Type 0 where
  pub id : ℕ
  pub name : Text
  pub external_id : Option Text
  pub is_provisional : Bool
  pub is_dirty : Bool

-- A row of the table of antennas.
pub record Antenna : Type 0 where
  pub id : ℕ
  pub mcc : Text
  pub mnc : Text
  pub enodeb : ℕ

-- A row of the table of presences, with the name of the node for its number.
pub record Presence : Type 0 where
  pub host : Text
  pub site_id : ℕ
  pub is_current : Bool

pub record Db : Type 0 where
  pub sites : List Site
  pub next_site : ℕ
  pub antennas : List Antenna
  pub next_antenna : ℕ
  pub site_antennas : List (ℕ × ℕ)
  pub presences : List Presence

-- The file with the current site, which a restart of the system loses.
pub record Current : Type 0 where
  pub id : ℕ
  pub name : Text
  pub is_provisional : Bool
  pub boot_id : Option Text

-- The file with the site that was forced by hand.
pub record Forced : Type 0 where
  pub name : Text
  pub external_id : Option Text

pub record State : Type 0 where
  pub db : Db
  pub current : Option Current
  pub forced : Option Forced

-- What the modem says of the cell: no text, or no number, where it says nothing.
pub record Gsm : Type 0 where
  pub mcc : Text
  pub mnc : Option Text
  pub enodeb : ℕ

-- `gsm.get("mcc") and gsm.get("enodeb")`
abbrev pub has_gsm : Gsm → Bool
has_gsm g = not (text_eq g.mcc []) && not (g.enodeb == 0)

-- `name.startswith("AUTO-") or name.startswith("TEMP-")`
unfoldable pub is_automatic : Text → Bool
is_automatic name = starts_with name (codes "AUTO-") || starts_with name (codes "TEMP-")

unfoldable pub find_site : (Site → Bool) → List Site → Option Site
find_site p [] = none
find_site p (s ∷ sites) = if p s then some s else find_site p sites

-- An SQL equation with a column that may be NULL.
abbrev pub is_text : Option Text → Text → Bool
is_text none t = false
is_text (some s) t = text_eq s t

abbrev pub same_external : Option Text → Option Text → Bool
same_external a none = false
same_external a (some e) = is_text a e

-- Another row with the name or the external number of this one.
unfoldable pub clashes : Site → List Site → Bool
clashes s [] = false
clashes s (t ∷ sites) =
    (not (t.id == s.id) && (text_eq t.name s.name || same_external t.external_id s.external_id))
    || clashes s sites

-- `UPDATE sites SET … WHERE id = ?`
unfoldable pub set_site : Site → List Site → List Site
set_site s [] = []
set_site s (t ∷ sites) = (if t.id == s.id then s else t) ∷ set_site s sites

unfoldable pub update_site : Site → Db → Option (ℕ × Db)
update_site s db =
    if clashes s db.sites then none else some (s.id, record db { sites = set_site s db.sites })

-- `INSERT INTO sites …` and `lastrowid`
unfoldable pub insert_site : Text → Option Text → Bool → Db → Option (ℕ × Db)
insert_site name external_id is_provisional db =
    let s : Site = record {
      id = db.next_site;
      name = name;
      external_id = external_id;
      is_provisional = is_provisional;
      is_dirty = true;
    } in
    if clashes s db.sites
    then none
    else some (s.id, record db { sites = db.sites ++ s ∷ []; next_site = db.next_site + 1 })

-- `COALESCE(a, b)`
abbrev pub coalesce : Option Text → Option Text → Option Text
coalesce none b = b
coalesce (some a) b = some a

-- The site of the first presence of the node that is current.
unfoldable pub current_site : Text → List Presence → List Site → Option Site
current_site host [] sites = none
current_site host (p ∷ presences) sites =
    if text_eq p.host host && p.is_current
    then elim (find_site (λ s. s.id == p.site_id) sites) [
      | none ↦ current_site host presences sites
      | some s ↦ some s
    ]
    else current_site host presences sites

-- `if external_id` and the search for it.
abbrev pub find_external : Option Text → List Site → Option Site
find_external none sites = none
find_external (some []) sites = none
find_external (some (c ∷ e)) sites = find_site (λ s. is_text s.external_id (c ∷ e)) sites

-- The third step: the provisional site at hand gets the name, or a new site is made.
abbrev pub rename_or_insert : Text → Option Text → Bool → Option Site → Db → Option (ℕ × Db)
rename_or_insert name external_id is_provisional none db =
    insert_site name external_id is_provisional db
rename_or_insert name external_id is_provisional (some s) db =
    if s.is_provisional || is_automatic s.name
    then update_site
        (record s {
          name = name;
          external_id = coalesce s.external_id external_id;
          is_provisional = is_provisional;
          is_dirty = true;
        })
        db
    else insert_site name external_id is_provisional db

-- The first part of `label_current_location`: the row of the site, by its external number, by its
-- name, or made.
unfoldable pub resolve_site : Text → Text → Bool → Option Text → Db → Option (ℕ × Db)
resolve_site host name is_provisional external_id db = elim (find_external external_id db.sites) [
  | some s ↦
      update_site (record s { name = name; is_provisional = is_provisional; is_dirty = true }) db
  | none ↦ elim (find_site (λ s. text_eq s.name name) db.sites) [
    | some s ↦
        update_site
          (record s {
            external_id = coalesce s.external_id external_id;
            is_provisional = is_provisional;
            is_dirty = true;
          })
          db
    | none ↦
        rename_or_insert name external_id is_provisional (current_site host db.presences db.sites)
          db
  ]
]

unfoldable pub find_antenna : Text → Text → ℕ → List Antenna → Option Antenna
find_antenna mcc mnc enodeb [] = none
find_antenna mcc mnc enodeb (a ∷ antennas) =
    if text_eq a.mcc mcc && (text_eq a.mnc mnc && a.enodeb == enodeb)
    then some a
    else find_antenna mcc mnc enodeb antennas

-- `INSERT INTO antennas … ON CONFLICT …` and the number of the row.
unfoldable pub upsert_antenna : Text → Text → ℕ → Db → ℕ × Db
upsert_antenna mcc mnc enodeb db = elim (find_antenna mcc mnc enodeb db.antennas) [
  | some a ↦ (a.id, db)
  | none ↦ (
    db.next_antenna,
    record db {
      antennas =
          db.antennas
          ++ record { id = db.next_antenna; mcc = mcc; mnc = mnc; enodeb = enodeb } ∷ [];
      next_antenna = db.next_antenna + 1;
    },
  )
]

unfoldable pub has_link : ℕ × ℕ → List (ℕ × ℕ) → Bool
has_link l [] = false
has_link l (k ∷ links) = (k.0 == l.0 && k.1 == l.1) || has_link l links

-- `INSERT OR IGNORE INTO site_antennas …`
unfoldable pub link_antenna : ℕ → ℕ → Db → Db
link_antenna site antenna db =
    if has_link (site, antenna) db.site_antennas
    then db
    else record db { site_antennas = db.site_antennas ++ (site, antenna) ∷ [] }

-- The second and third part: a cell without a network code is inserted, but not found again.
unfoldable pub note_antenna : Gsm → ℕ → Db → Option Db
note_antenna g site db =
    if has_gsm g
    then elim g.mnc [
      | none ↦ none
      | some mnc ↦ let a = upsert_antenna g.mcc mnc g.enodeb db in some (link_antenna site a.0 a.1)
    ]
    else some db

abbrev pub left : Presence → Presence
left p = record p { is_current = false }

-- The last part: the presences before are over, and a new one is current.
unfoldable pub note_presence : Text → ℕ → Db → Db
note_presence host site db = record db {
  presences =
      map left db.presences ++ record { host = host; site_id = site; is_current = true } ∷ [];
}

-- `label_current_location`, with the modem's answer, the name of the node and the number of the
-- boot; `none` is an exception, and leaves the state as it was.
unfoldable pub label_current_location :
    Gsm → Text → Option Text → Text → Bool → Option Text → State → Option State
label_current_location gsm host boot name provisional external_id st = do
  let is_prov = provisional || is_automatic name
  site ← resolve_site host name is_prov external_id st.db
  db ← note_antenna gsm site.0 site.1
  some (record st {
    db = note_presence host site.0 db;
    current = some (record { id = site.0; name = name; is_provisional = is_prov; boot_id = boot });
  })
