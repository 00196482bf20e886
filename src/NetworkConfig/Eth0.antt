-- ===== src/NetworkConfig/Eth0.antt =====
-- Which profile of a site eth0 gets.
use mathlib.Core.List.{append-nil}
use rpinode.NetworkConfig.{Profile}
use rpinode.NetworkConfig.Profiles.{
  Request, eth0, manage_wifi, reset_eth0, is_interface, requests, site_requests,
}
use rpinode.Rows.{any_row, count_rows, first, select}
use rpinode.Text.{codes}
use rpinode.Prelude.{
  ℕ, ◌≡◌, ◌≤◌, refl, ap, ◌∙◌, inl, inr, Bool, true, false, Option, none, some, List, [], ◌∷◌, ◌++◌,
  ◌==◌, arith, Bool-cases, if◌then◌else◌,
}

abbrev pub is_eth0 : Request → Bool
is_eth0 (eth0 method addresses gateway dhcp_range) = true
is_eth0 manage_wifi = false

abbrev pub wants_eth0 : Option Profile → Request
wants_eth0 none = reset_eth0
wants_eth0 (some p) = eth0 p.method p.addresses p.gateway p.dhcp_range

abbrev pub mine : Profile → Bool
mine p = is_interface (codes "eth0") p

no_requests :
    (profiles : List Profile)
    → count_rows mine profiles ≡ 0
    → (select is_eth0 (requests profiles) ≡ [])
      × (first mine profiles ≡ none)
      × (any_row mine profiles ≡ false)
unfolding requests
no_requests [] e = (refl, refl, refl)
no_requests (p ∷ profiles) e = elim (Bool-cases (mine p)) [
  | inl hit ↦ absurd (ground (arith, rw hit at e))
  | inr miss ↦
      let (nothing, absent, none_there) = no_requests profiles (rw miss at e) in
      elim (Bool-cases (is_interface (codes "wlan0") p)) [
        | inl wifi ↦ rw (miss, wifi) (nothing, absent, none_there)
        | inr other ↦ rw (miss, other) (nothing, absent, none_there)
      ]
]

one_request :
    (profiles : List Profile)
    → count_rows mine profiles ≤ 1
    → select is_eth0 (requests profiles ++ (if any_row mine profiles then [] else reset_eth0 ∷ []))
      ≡ wants_eth0 (first mine profiles) ∷ []
unfolding requests
one_request [] e = refl
one_request (p ∷ profiles) e = elim (Bool-cases (mine p)) [
  | inl hit ↦
      let alone : count_rows mine profiles ≡ 0 = ground (arith, rw hit at e) in
      let (nothing, absent, none_there) = no_requests profiles alone in
      rw hit (
        ap (◌∷◌ (eth0 p.method p.addresses p.gateway p.dhcp_range))
          (ap (select is_eth0) (append-nil (requests profiles)) ∙ nothing))
  | inr miss ↦
      let rest = one_request profiles (rw miss at e) in
      elim (Bool-cases (is_interface (codes "wlan0") p)) [
        | inl wifi ↦ rw (miss, wifi) rest
        | inr other ↦ rw (miss, other) rest
      ]
]

-- Where a site has at most one profile of eth0, as the table demands, applying its profiles configures
-- eth0 exactly once: by that profile, or back to DHCP when there is none.
pub site_requests-eth0 :
    (site_id : ℕ) (table : List Profile)
    → count_rows mine (select (λ p. p.site_id == site_id) table) ≤ 1
    → select is_eth0 (site_requests site_id table)
      ≡ wants_eth0 (first mine (select (λ p. p.site_id == site_id) table)) ∷ []
unfolding site_requests
site_requests-eth0 site_id table h = one_request (select (λ p. p.site_id == site_id) table) h
