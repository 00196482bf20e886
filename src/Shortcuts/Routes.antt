-- ===== src/Shortcuts/Routes.antt =====
-- Which routes the shortcuts of a site ask for.
use rpinode.Rows.{select, any_row}
use rpinode.Shortcuts.{
  Url, Shortcut, Table, valider, ip_of, add_ip, ips_of, route, shortcut_le, list_shortcuts,
  current_routes,
}
use rpinode.Sort.{insert_by, sort_by, text_le}
use rpinode.Text.{Text, text_eq}
use rpinode.Text.Contains.{text_eq_iff}
use rpinode.Prelude.{
  ℕ, ◌≡◌, refl, sym, ap, ◌∙◌, inl, inr, Bool, true, false, ◌&&◌, ◌||◌, Option, none, some, List, [],
  ◌∷◌, map, ◌==◌, arith, Bool-cases,
}
use mathlib.Core.Path.{subst}

module _ {ℓ} {A : Type ℓ} (test : A → Bool) where
  or_swap : (a b c : Bool) → (a || (b || c)) ≡ (b || (a || c))
  or_swap a b c = ground arith

  any_row-insert_by :
      (le : A → A → Bool) (a : A) (rows : List A)
      → any_row test (insert_by le a rows) ≡ (test a || any_row test rows)
  any_row-insert_by le a [] = refl
  any_row-insert_by le a (b ∷ rows) = elim (Bool-cases (le a b)) [
    | inl before ↦ rw before refl
    | inr after ↦ rw after (
        ap (λ x. test b || x) (any_row-insert_by le a rows)
        ∙ or_swap (test b) (test a) (any_row test rows))
  ]

  -- Sorting keeps what is there.
  pub any_row-sort_by :
      (le : A → A → Bool) (rows : List A) → any_row test (sort_by le rows) ≡ any_row test rows
  any_row-sort_by le [] = refl
  any_row-sort_by le (a ∷ rows) =
      any_row-insert_by le a (sort_by le rows) ∙ ap (λ x. test a || x) (any_row-sort_by le rows)

  any_row-select :
      (which : A → Bool) (rows : List A)
      → any_row test (select which rows) ≡ any_row (λ a. which a && test a) rows
  any_row-select which [] = refl
  any_row-select which (a ∷ rows) = elim (Bool-cases (which a)) [
    | inl hit ↦ rw hit (ap (λ x. test a || x) (any_row-select which rows))
    | inr miss ↦ rw miss (any_row-select which rows)
  ]

-- The route is that of the IP, if there is one.
abbrev pub is_route : Text → Option Text → Bool
is_route t none = false
is_route t (some ip) = text_eq t (route ip)

-- The shortcut of the site is valid and has the route.
abbrev pub asks_for : (Text → Option Url) → ℕ → Text → Shortcut → Bool
asks_for urlsplit site_id t s =
    s.site_id == site_id && is_route t (ip_of (valider urlsplit (some s.label) (some s.url)))

or_twice : (a b : Bool) → (a || (a || b)) ≡ (a || b)
or_twice a b = ground arith

or_second : (a b c : Bool) → (a || c) ≡ c → (a || (b || c)) ≡ (b || c)
or_second a b c h = ground arith

known_ip :
    (t ip : Text) (ips : List Text)
    → any_row (text_eq ip) ips ≡ true
    → (text_eq t (route ip) || any_row (text_eq t) (map route ips))
      ≡ any_row (text_eq t) (map route ips)
known_ip t ip [] e = cc
known_ip t ip (j ∷ ips) e =
    let rest = any_row (text_eq t) (map route ips) in
    elim (Bool-cases (text_eq ip j)) [
      | inl same ↦
          subst
            (λ (x : Text).
              (text_eq t (route x) || (text_eq t (route j) || rest))
              ≡ (text_eq t (route j) || rest))
            (sym ((text_eq_iff ip j).0 same)) (or_twice (text_eq t (route j)) rest)
      | inr other ↦
          or_second (text_eq t (route ip)) (text_eq t (route j)) rest
            (known_ip t ip ips (rw other at e))
    ]

any_row-add_ip :
    (t : Text) (o : Option Text) (ips : List Text)
    → any_row (text_eq t) (map route (add_ip o ips))
      ≡ (is_route t o || any_row (text_eq t) (map route ips))
any_row-add_ip t none ips = refl
any_row-add_ip t (some ip) ips = elim (Bool-cases (any_row (text_eq ip) ips)) [
  | inl known ↦ rw known (sym (known_ip t ip ips known))
  | inr new ↦ rw new refl
]

any_row-ips_of :
    (urlsplit : Text → Option Url) (t : Text) (shortcuts : List Shortcut)
    → any_row (text_eq t) (map route (ips_of urlsplit shortcuts))
      ≡ any_row (λ s. is_route t (ip_of (valider urlsplit (some s.label) (some s.url)))) shortcuts
unfolding ips_of
any_row-ips_of urlsplit t [] = refl
any_row-ips_of urlsplit t (s ∷ shortcuts) =
    any_row-add_ip t (ip_of (valider urlsplit (some s.label) (some s.url)))
      (ips_of urlsplit shortcuts)
    ∙ ap (λ x. is_route t (ip_of (valider urlsplit (some s.label) (some s.url))) || x)
        (any_row-ips_of urlsplit t shortcuts)

-- For a site with a number other than 0, a text is among the routes exactly when a shortcut of the site
-- is valid and its IP with `/32` is that text, whatever the order of the shortcuts and however many
-- share an IP.
pub any_row-current_routes :
    (urlsplit : Text → Option Url) (site_id : ℕ) (table : Table) (t : Text)
    → (site_id == 0) ≡ false
    → any_row (text_eq t) (current_routes urlsplit (some site_id) table)
      ≡ any_row (asks_for urlsplit site_id t) table.rows
unfolding current_routes list_shortcuts
any_row-current_routes urlsplit site_id table t there =
    let asks =
      λ (s : Shortcut). is_route t (ip_of (valider urlsplit (some s.label) (some s.url))) in
    let mine = λ (s : Shortcut). s.site_id == site_id in
    any_row-sort_by (text_eq t) text_le _
    ∙ any_row-ips_of urlsplit t (list_shortcuts (some site_id) table)
    ∙ rw there (
        any_row-sort_by asks shortcut_le (select mine table.rows)
        ∙ any_row-select asks mine table.rows)
