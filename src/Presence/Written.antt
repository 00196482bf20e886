-- ===== src/Presence/Written.antt =====
-- What updating and inserting a row of the table of sites leaves.
use mathlib.Core.Option.{some-injective, none-ne-some}
use mathlib.Core.Path.{subst}
use rpinode.Presence.{Site, Db, find_site, clashes, update_site, insert_site}
use rpinode.Text.{Text}
use rpinode.Prelude.{
  ℕ, ◌+◌, ◌≡◌, refl, sym, ap, Bool, true, false, Option, some, List, [], ◌∷◌, ◌++◌, ◌==◌, ==_refl,
  All, All-append, arith, inl, inr, Bool-cases,
}
use rpinode.Presence.Tables.{
  IsApart, AreApart, IsBelow, AreSites, find_site-All, clashes-IsApart, clashes-tail,
  set_site-AreApart, set_site-IsBelow, find_site-set_site,
}

-- What a statement on the table of sites leaves: the row s, found by its number, and nothing else
-- of the database has changed.
pub record IsWritten (db : Db) (s : Site) (db' : Db) : Type 0 where
  pub kept : AreSites db'
  pub found : find_site (λ u. u.id == s.id) db'.sites ≡ some s
  pub presences : db'.presences ≡ db.presences
  pub links : db'.site_antennas ≡ db.site_antennas

pub update_site-IsWritten :
    (s t : Site) (db db' : Db) (i : ℕ)
    → AreSites db
    → find_site (λ u. u.id == s.id) db.sites ≡ some t
    → update_site s db ≡ some (i, db')
    → (i ≡ s.id) × IsWritten db s db'
unfolding update_site
update_site-IsWritten s t db db' i h e r = elim (Bool-cases (clashes s db.sites)) [
  | inl clash ↦ absurd (none-ne-some _ (rw clash at r))
  | inr free ↦
      let done = some-injective _ _ (rw free at r) in
      let (below, same) = find_site-All (IsBelow db.next_site) _ db.sites t h.below e in
      (
        sym (ap (λ x. x.0) done),
        subst (IsWritten db s) (ap (λ x. x.1) done) record {
          kept = record {
            apart = set_site-AreApart s db.sites free h.apart;
            below = set_site-IsBelow db.next_site s db.sites (ground arith) h.below;
          };
          found = find_site-set_site s t db.sites e;
          presences = refl;
          links = refl;
        },
      )
]

fresh-IsApart :
    (s : Site) (sites : List Site)
    → clashes s sites ≡ false
    → All (IsBelow s.id) sites
    → All (λ t. IsApart t s) sites
fresh-IsApart s [] e h = tt
fresh-IsApart s (t ∷ sites) e (h, hs) = (
  clashes-IsApart s t sites (ground arith) e,
  fresh-IsApart s sites (clashes-tail s t sites e) hs,
)

AreApart-snoc :
    (s : Site) (sites : List Site)
    → AreApart sites
    → All (λ t. IsApart t s) sites
    → AreApart (sites ++ s ∷ [])
AreApart-snoc s [] h hs = (tt, tt)
AreApart-snoc s (t ∷ sites) (h, hs) (g, gs) =
    (All-append (IsApart t) sites (s ∷ []) h (g, tt), AreApart-snoc s sites hs gs)

find_site_last :
    (s : Site) (sites : List Site)
    → All (IsBelow s.id) sites
    → find_site (λ u. u.id == s.id) (sites ++ s ∷ []) ≡ some s
unfolding find_site
find_site_last s [] h = rw (==_refl s.id)
find_site_last s (t ∷ sites) (h, hs) =
    let other : (t.id == s.id) ≡ false = ground arith in rw other (find_site_last s sites hs)

All-IsBelow-suc : (n : ℕ) (sites : List Site) → All (IsBelow n) sites → All (IsBelow (n + 1)) sites
All-IsBelow-suc n [] h = tt
All-IsBelow-suc n (t ∷ sites) (h, hs) = (omega arith, All-IsBelow-suc n sites hs)

-- The row that a new site gets.
abbrev pub new_site : ℕ → Text → Option Text → Bool → Site
new_site i name external_id prov = record {
  id = i;
  name = name;
  external_id = external_id;
  is_provisional = prov;
  is_dirty = true;
}

pub insert_site-IsWritten :
    (name : Text) (external_id : Option Text) (prov : Bool) (db db' : Db) (i : ℕ)
    → AreSites db
    → insert_site name external_id prov db ≡ some (i, db')
    → IsWritten db (new_site i name external_id prov) db'
unfolding insert_site
insert_site-IsWritten name external_id prov db db' i h r =
    let s : Site = new_site db.next_site name external_id prov in
    elim (Bool-cases (clashes s db.sites)) [
      | inl clash ↦ absurd (none-ne-some _ (rw clash at r))
      | inr free ↦
          let done = some-injective _ _ (rw free at r) in
          subst (λ x. IsWritten db (new_site x.0 name external_id prov) x.1) done
            record {
              kept = record {
                apart = AreApart-snoc s db.sites h.apart (fresh-IsApart s db.sites free h.below);
                below =
                    All-append (IsBelow (db.next_site + 1)) db.sites (s ∷ [])
                      (All-IsBelow-suc db.next_site db.sites h.below) (omega arith, tt);
              };
              found = find_site_last s db.sites h.below;
              presences = refl;
              links = refl;
            }
    ]
