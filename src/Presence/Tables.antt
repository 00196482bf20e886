-- ===== src/Presence/Tables.antt =====
-- The constraints of the table of sites, and what its statements keep.
use mathlib.Core.Option.{some-injective}
use mathlib.Core.Path.{subst}
use rpinode.Presence.{Site, Db, find_site, same_external, clashes, set_site}
use rpinode.Text.{Text, text_eq}
use rpinode.Text.Contains.{text_eq_iff}
use rpinode.Prelude.{
  ℕ, ◌<◌, ◌≡◌, refl, Bool, true, false, Option, none, some, List, [], ◌∷◌, ◌==◌, ==_refl, All,
  arith, inl, inr, Bool-cases,
}

-- Two rows that may stand in one table.
pub record IsApart (s t : Site) : Type 0 where
  pub ids : (s.id == t.id) ≡ false
  pub names : text_eq s.name t.name ≡ false
  pub externals : same_external s.external_id t.external_id ≡ false

abbrev pub AreApart : List Site → Type 0
AreApart [] = Unit
AreApart (s ∷ sites) = All (IsApart s) sites × AreApart sites

abbrev pub IsBelow : ℕ → Site → Type 0
IsBelow n s = s.id < n

-- No number, name or external number stands twice, and the numbers to come are fresh.
pub record AreSites (db : Db) : Type 0 where
  pub apart : AreApart db.sites
  pub below : All (IsBelow db.next_site) db.sites

pub find_site-All :
    (P : Site → Type 0) (p : Site → Bool) (sites : List Site) (s : Site)
    → All P sites
    → find_site p sites ≡ some s
    → P s × (p s ≡ true)
unfolding find_site
find_site-All P p [] s h e = cc
find_site-All P p (t ∷ sites) s (h, hs) e = elim (Bool-cases (p t)) [
  | inl hit ↦
      let same : t ≡ s = some-injective t s (rw hit at e) in
      (subst P same h, subst (λ x. p x ≡ true) same hit)
  | inr miss ↦ find_site-All P p sites s hs (rw miss at e)
]

-- The row that a search finds is also found by its number.
pub find_site_id :
    (p : Site → Bool) (sites : List Site) (s : Site)
    → AreApart sites
    → find_site p sites ≡ some s
    → find_site (λ t. t.id == s.id) sites ≡ some s
unfolding find_site
find_site_id p [] s h e = cc
find_site_id p (t ∷ sites) s (h, hs) e = elim (Bool-cases (p t)) [
  | inl hit ↦ let same : t ≡ s = some-injective t s (rw hit at e) in rw (same, ==_refl s.id)
  | inr miss ↦
      let found : find_site p sites ≡ some s = rw miss at e in
      rw ((find_site-All (IsApart t) p sites s h found).0.ids) (find_site_id p sites s hs found)
]

same_external_sym : (a b : Option Text) → same_external a b ≡ false → same_external b a ≡ false
same_external_sym none none h = refl
same_external_sym none (some b) h = refl
same_external_sym (some a) none h = refl
same_external_sym (some a) (some b) h = ground (arith, text_eq_iff a b, text_eq_iff b a)

pub IsApart-sym : (s t : Site) → IsApart s t → IsApart t s
IsApart-sym s t h = record {
  ids = let e = h.ids in ground arith;
  names = let e = h.names in ground (arith, text_eq_iff s.name t.name, text_eq_iff t.name s.name);
  externals = same_external_sym s.external_id t.external_id h.externals;
}

-- A row that does not clash is apart from the rows with other numbers.
pub clashes-IsApart :
    (s t : Site) (sites : List Site)
    → (t.id == s.id) ≡ false
    → clashes s (t ∷ sites) ≡ false
    → IsApart t s
unfolding clashes
clashes-IsApart s t sites other h = record {
  ids = other;
  names = ground arith;
  externals = ground arith;
}

All-IsApart-set_site :
    (s t : Site) (sites : List Site)
    → IsApart t s
    → All (IsApart t) sites
    → All (IsApart t) (set_site s sites)
unfolding set_site
All-IsApart-set_site s t [] h hs = tt
All-IsApart-set_site s t (u ∷ sites) h (g, gs) = elim (Bool-cases (u.id == s.id)) [
  | inl hit ↦ rw hit (h, All-IsApart-set_site s t sites h gs)
  | inr miss ↦ rw miss (g, All-IsApart-set_site s t sites h gs)
]

pub clashes-tail :
    (s t : Site) (sites : List Site) → clashes s (t ∷ sites) ≡ false → clashes s sites ≡ false
unfolding clashes
clashes-tail s t sites h = ground arith

-- Behind a row with the number of s, which is the only one, nothing changes and all is apart from s.
set_site_rest :
    (s t : Site) (sites : List Site)
    → (t.id == s.id) ≡ true
    → All (IsApart t) sites
    → clashes s sites ≡ false
    → (set_site s sites ≡ sites) × All (IsApart s) sites
unfolding set_site
set_site_rest s t [] hit h e = (refl, tt)
set_site_rest s t (u ∷ sites) hit (h, hs) e =
    let (same, apart) = set_site_rest s t sites hit hs (clashes-tail s u sites e) in
    let d = h.ids in
    let other : (u.id == s.id) ≡ false = ground arith in
    (rw (other, same), (IsApart-sym u s (clashes-IsApart s u sites other e), apart))

pub set_site-AreApart :
    (s : Site) (sites : List Site)
    → clashes s sites ≡ false
    → AreApart sites
    → AreApart (set_site s sites)
unfolding set_site
set_site-AreApart s [] e h = tt
set_site-AreApart s (t ∷ sites) e (h, hs) = elim (Bool-cases (t.id == s.id)) [
  | inl hit ↦
      let (same, apart) = set_site_rest s t sites hit h (clashes-tail s t sites e) in
      rw (hit, same) (apart, hs)
  | inr miss ↦ rw miss (
    All-IsApart-set_site s t sites (clashes-IsApart s t sites miss e) h,
    set_site-AreApart s sites (clashes-tail s t sites e) hs,
  )
]

pub set_site-IsBelow :
    (n : ℕ) (s : Site) (sites : List Site)
    → s.id < n
    → All (IsBelow n) sites
    → All (IsBelow n) (set_site s sites)
unfolding set_site
set_site-IsBelow n s [] h hs = tt
set_site-IsBelow n s (t ∷ sites) h (g, gs) = elim (Bool-cases (t.id == s.id)) [
  | inl hit ↦ rw hit (h, set_site-IsBelow n s sites h gs)
  | inr miss ↦ rw miss (g, set_site-IsBelow n s sites h gs)
]

pub find_site-set_site :
    (s t : Site) (sites : List Site)
    → find_site (λ u. u.id == s.id) sites ≡ some t
    → find_site (λ u. u.id == s.id) (set_site s sites) ≡ some s
unfolding find_site set_site
find_site-set_site s t [] e = cc
find_site-set_site s t (u ∷ sites) e = elim (Bool-cases (u.id == s.id)) [
  | inl hit ↦ rw (hit, ==_refl s.id)
  | inr miss ↦ rw (miss, miss) (find_site-set_site s t sites (rw miss at e))
]
