-- ===== src/Presence/Cell.antt =====
-- What noting the antenna of the cell leaves in the tables.
use mathlib.Core.Option.{some-injective, none-ne-some}
use mathlib.Core.Path.{subst}
use rpinode.Presence.{
  Antenna, Db, Gsm, has_gsm, find_antenna, upsert_antenna, has_link, link_antenna, note_antenna,
}
use rpinode.Text.{Text, text_eq}
use rpinode.Text.Contains.{text_eq_iff}
use rpinode.Prelude.{
  ℕ, ◌≡◌, refl, sym, ◌∙◌, ap, true, ◌&&◌, none, some, List, [], ◌∷◌, ◌++◌, ◌==◌, ==_refl, arith,
  inl, inr, Bool-cases, Option-cases,
}
use mathlib.Core.Bool.{false≢true}

-- The site has the antenna of the cell.
abbrev pub IsLinked : Gsm → ℕ → Db → Type 0
IsLinked g site db =
    (mnc : Text) × (a : Antenna) × (g.mnc ≡ some mnc)
    × (find_antenna g.mcc mnc g.enodeb db.antennas ≡ some a)
    × (has_link (site, a.id) db.site_antennas ≡ true)

find_antenna_last :
    (mcc mnc : Text) (enodeb i : ℕ) (antennas : List Antenna)
    → find_antenna mcc mnc enodeb antennas ≡ none
    → find_antenna mcc mnc enodeb
        (antennas ++ record { id = i; mcc = mcc; mnc = mnc; enodeb = enodeb } ∷ [])
      ≡ some (record { id = i; mcc = mcc; mnc = mnc; enodeb = enodeb })
unfolding find_antenna
find_antenna_last mcc mnc enodeb i [] h =
    rw ((text_eq_iff mcc mcc).1 refl, (text_eq_iff mnc mnc).1 refl, ==_refl enodeb)
find_antenna_last mcc mnc enodeb i (a ∷ antennas) h =
    elim (Bool-cases (text_eq a.mcc mcc && (text_eq a.mnc mnc && a.enodeb == enodeb))) [
      | inl hit ↦ absurd (none-ne-some a (sym (rw hit at h)))
      | inr miss ↦ rw miss (find_antenna_last mcc mnc enodeb i antennas (rw miss at h))
    ]

has_link_last : (l : ℕ × ℕ) (links : List (ℕ × ℕ)) → has_link l (links ++ l ∷ []) ≡ true
unfolding has_link
has_link_last l [] = rw (==_refl l.0, ==_refl l.1)
has_link_last l (k ∷ links) = ground (arith, has_link_last l links)

-- What noting the antenna leaves.
pub record IsNoted (g : Gsm) (site : ℕ) (db db' : Db) : Type 0 where
  pub sites : db'.sites ≡ db.sites
  pub next : db'.next_site ≡ db.next_site
  pub presences : db'.presences ≡ db.presences
  pub linked : has_gsm g ≡ true → IsLinked g site db'

link_antenna-has_link :
    (site antenna : ℕ) (db : Db)
    → has_link (site, antenna) (link_antenna site antenna db).site_antennas ≡ true
unfolding link_antenna
link_antenna-has_link site antenna db =
    elim (Bool-cases (has_link (site, antenna) db.site_antennas)) [
      | inl there ↦ rw there there
      | inr fresh ↦ rw fresh (has_link_last (site, antenna) db.site_antennas)
    ]

link_antenna-keeps :
    (site antenna : ℕ) (db : Db)
    → ((link_antenna site antenna db).sites ≡ db.sites)
      × ((link_antenna site antenna db).next_site ≡ db.next_site)
      × ((link_antenna site antenna db).presences ≡ db.presences)
      × ((link_antenna site antenna db).antennas ≡ db.antennas)
unfolding link_antenna
link_antenna-keeps site antenna db = elim (Bool-cases (has_link (site, antenna) db.site_antennas)) [
  | inl there ↦ simp there (refl, refl, refl, refl)
  | inr fresh ↦ simp fresh (refl, refl, refl, refl)
]

record IsUpserted (mcc mnc : Text) (enodeb : ℕ) (db : Db) (a : ℕ × Db) : Type 0 where
  row : Antenna
  own : a.0 ≡ row.id
  found : find_antenna mcc mnc enodeb a.1.antennas ≡ some row
  sites : a.1.sites ≡ db.sites
  next : a.1.next_site ≡ db.next_site
  presences : a.1.presences ≡ db.presences

upserted :
    (mcc mnc : Text) (enodeb : ℕ) (db : Db)
    → IsUpserted mcc mnc enodeb db (upsert_antenna mcc mnc enodeb db)
unfolding upsert_antenna
upserted mcc mnc enodeb db = elim (Option-cases (find_antenna mcc mnc enodeb db.antennas)) [
  | inr (a, found) ↦
      rw (found, upsert_antenna)
        record { row = a; own = refl; found = found; sites = refl; next = refl; presences = refl }
  | inl fresh ↦
      rw (fresh, upsert_antenna)
        record {
          row = record { id = db.next_antenna; mcc = mcc; mnc = mnc; enodeb = enodeb };
          own = refl;
          found = find_antenna_last mcc mnc enodeb db.next_antenna db.antennas fresh;
          sites = refl;
          next = refl;
          presences = refl;
        }
]

linked_to :
    (g : Gsm) (site : ℕ) (mnc : Text) (db : Db)
    → g.mnc ≡ some mnc
    → (let a = upsert_antenna g.mcc mnc g.enodeb db in
        IsNoted g site db (link_antenna site a.0 a.1))
linked_to g site mnc db known =
    let a = upsert_antenna g.mcc mnc g.enodeb db in
    let u = upserted g.mcc mnc g.enodeb db in
    let (sites, next, presences, antennas) = link_antenna-keeps site a.0 a.1 in
    record {
      sites = sites ∙ u.sites;
      next = next ∙ u.next;
      presences = presences ∙ u.presences;
      linked = λ h. (
        mnc,
        u.row,
        known,
        ap (find_antenna g.mcc mnc g.enodeb) antennas ∙ u.found,
        ap (λ (k : ℕ). has_link (site, k) (link_antenna site a.0 a.1).site_antennas) (sym u.own)
            ∙ link_antenna-has_link site a.0 a.1,
      );
    }

pub note_antenna-IsNoted :
    (g : Gsm) (site : ℕ) (db db' : Db) → note_antenna g site db ≡ some db' → IsNoted g site db db'
unfolding note_antenna
note_antenna-IsNoted g site db db' e = elim (Bool-cases (has_gsm g)) [
  | inr deaf ↦ subst (IsNoted g site db) (some-injective _ _ (rw deaf at e)) record {
    sites = refl;
    next = refl;
    presences = refl;
    linked = λ h. absurd (false≢true (sym deaf ∙ h));
  }
  | inl hears ↦ elim (Option-cases g.mnc) [
    | inl bare ↦ absurd (none-ne-some _ (rw (hears, bare, note_antenna) at e))
    | inr (mnc, known) ↦
        subst (IsNoted g site db) (some-injective _ _ (rw (hears, known, note_antenna) at e))
          (linked_to g site mnc db known)
  ]
]
