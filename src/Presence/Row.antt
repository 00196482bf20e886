-- ===== src/Presence/Row.antt =====
-- Which row of the table of sites a label stands for.
use mathlib.Core.Option.{some-injective}
use rpinode.Presence.{
  Site, Presence, Db, is_automatic, find_site, current_site, find_external, rename_or_insert,
  resolve_site, update_site, insert_site,
}
use rpinode.Presence.Tables.{AreApart, AreSites, find_site-All, find_site_id}
use rpinode.Presence.Written.{IsWritten, update_site-IsWritten, insert_site-IsWritten, new_site}
use rpinode.Text.{Text, text_eq}
use rpinode.Text.Contains.{text_eq_iff}
use rpinode.Prelude.{
  ℕ, ◌<◌, ◌≡◌, refl, ◌∙◌, ap, Bool, ◌&&◌, ◌||◌, Option, none, some, List, [], ◌∷◌, ◌==◌, inl, inr,
  Bool-cases, Option-cases,
}

-- The row of the site that a label stands for.
pub record IsResolved (db : Db) (name : Text) (prov : Bool) (i : ℕ) (db' : Db) : Type 0 where
  pub row : Site
  pub own : i ≡ row.id
  pub named : row.name ≡ name
  pub flagged : row.is_provisional ≡ prov
  pub written : IsWritten db row db'

find_external_id :
    (external_id : Option Text) (sites : List Site) (s : Site)
    → AreApart sites
    → find_external external_id sites ≡ some s
    → find_site (λ u. u.id == s.id) sites ≡ some s
find_external_id none sites s h e = cc
find_external_id (some []) sites s h e = cc
find_external_id (some (c ∷ x)) sites s h e = find_site_id _ sites s h e

current_site_id :
    (host : Text) (presences : List Presence) (sites : List Site) (s : Site)
    → AreApart sites
    → current_site host presences sites ≡ some s
    → find_site (λ u. u.id == s.id) sites ≡ some s
unfolding current_site
current_site_id host [] sites s h e = cc
current_site_id host (p ∷ presences) sites s h e =
    elim (Bool-cases (text_eq p.host host && p.is_current)) [
      | inl hit ↦ elim (Option-cases (find_site (λ u. u.id == p.site_id) sites)) [
        | inl gone ↦ current_site_id host presences sites s h (rw (hit, gone, current_site) at e)
        | inr (t, found) ↦
            let same : t ≡ s = some-injective t s (rw (hit, found, current_site) at e) in
            find_site_id _ sites s h (found ∙ ap some same)
      ]
      | inr miss ↦ current_site_id host presences sites s h (rw miss at e)
    ]

updated :
    (s t : Site) (name : Text) (prov : Bool) (db db' : Db) (i : ℕ)
    → AreSites db
    → find_site (λ u. u.id == s.id) db.sites ≡ some t
    → s.name ≡ name
    → s.is_provisional ≡ prov
    → update_site s db ≡ some (i, db')
    → IsResolved db name prov i db'
updated s t name prov db db' i h e named flagged r =
    let (own, written) = update_site-IsWritten s t db db' i h e r in
    record { row = s; own = own; named = named; flagged = flagged; written = written }

inserted :
    (name : Text) (external_id : Option Text) (prov : Bool) (db db' : Db) (i : ℕ)
    → AreSites db
    → insert_site name external_id prov db ≡ some (i, db')
    → IsResolved db name prov i db'
inserted name external_id prov db db' i h r = record {
  row = new_site i name external_id prov;
  own = refl;
  named = refl;
  flagged = refl;
  written = insert_site-IsWritten name external_id prov db db' i h r;
}

rename_or_insert-IsResolved :
    (name : Text) (external_id : Option Text) (prov : Bool) (o : Option Site) (db db' : Db) (i : ℕ)
    → AreSites db
    → ((s : Site) → o ≡ some s → find_site (λ u. u.id == s.id) db.sites ≡ some s)
    → rename_or_insert name external_id prov o db ≡ some (i, db')
    → IsResolved db name prov i db'
rename_or_insert-IsResolved name external_id prov none db db' i h at r =
    inserted name external_id prov db db' i h r
rename_or_insert-IsResolved name external_id prov (some s) db db' i h at r =
    elim (Bool-cases (s.is_provisional || is_automatic s.name)) [
      | inl renamed ↦ updated _ s name prov db db' i h (at s refl) refl refl (rw renamed at r)
      | inr stays ↦ inserted name external_id prov db db' i h (rw stays at r)
    ]

pub resolve_site-IsResolved :
    (host name : Text) (prov : Bool) (external_id : Option Text) (db db' : Db) (i : ℕ)
    → AreSites db
    → resolve_site host name prov external_id db ≡ some (i, db')
    → IsResolved db name prov i db'
unfolding resolve_site
resolve_site-IsResolved host name prov external_id db db' i h r =
    elim (Option-cases (find_external external_id db.sites)) [
      | inr (s, known) ↦
          updated _ s name prov db db' i h (find_external_id external_id db.sites s h.apart known)
            refl refl (rw (known, resolve_site) at r)
      | inl unknown ↦ elim (Option-cases (find_site (λ s. text_eq s.name name) db.sites)) [
        | inr (s, named) ↦
            updated _ s name prov db db' i h (find_site_id _ db.sites s h.apart named)
              ((text_eq_iff s.name name).0
                (find_site-All (λ x. x.id < db.next_site) _ db.sites s h.below named).1)
              refl (rw (unknown, named, resolve_site) at r)
        | inl fresh ↦
            rename_or_insert-IsResolved name external_id prov
              (current_site host db.presences db.sites) db db' i h
              (λ s e. current_site_id host db.presences db.sites s h.apart e)
              (rw (unknown, fresh, resolve_site) at r)
      ]
    ]
