-- ===== src/Tracker/Hints.antt =====
-- What is said to the server of the site at hand.
use mathlib.Core.Option.{some-injective, none-ne-some}
use mathlib.Core.Path.{subst}
use rpinode.Presence.{Site, Gsm, has_gsm, is_automatic}
use rpinode.Text.{Text, codes, starts_with, text_eq}
use rpinode.Text.Contains.{text_eq_iff}
use rpinode.Tracker.{is_provisional_site, build_site_hint_for_sync}
use rpinode.Prelude.{
  ◌≡◌, ◌≢◌, refl, Bool, false, ◌||◌, Option, none, some, [], inl, inr, arith, Bool-cases,
}

-- A name that a person gave.
pub record IsGiven (name : Text) : Type 0 where
  pub known : name ≢ codes "Inconnu"
  pub not_auto : starts_with name (codes "AUTO-") ≡ false
  pub not_temp : starts_with name (codes "TEMP-") ≡ false

-- The site that a hint names, and why it is safe.
pub data IsHint (gsm : Gsm) (current_site : Text) (current_is_prov : Bool)
    (local_site : Option Site) (hint : Text) : Type 0 where
  known :
      (s : Site)
      → local_site ≡ some s
      → s.name ≡ hint
      → s.is_provisional ≡ false
      → IsHint gsm current_site current_is_prov local_site hint
  deaf :
      local_site ≡ none
      → has_gsm gsm ≡ false
      → current_site ≡ hint
      → current_site ≢ []
      → current_is_prov ≡ false
      → IsHint gsm current_site current_is_prov local_site hint

-- A name and a flag that the test lets pass.
sure-IsGiven :
    (name : Text) (flag : Bool)
    → is_provisional_site name flag ≡ false
    → (flag ≡ false) × IsGiven name
unfolding is_provisional_site is_automatic
sure-IsGiven name flag h = (
  ground arith,
  record {
    known = λ e. ground (arith, (text_eq_iff name (codes "Inconnu")).1 e);
    not_auto = ground arith;
    not_temp = ground arith;
  },
)

-- A hint that is sent is not the name of an unknown site, nor one that begins with AUTO- or TEMP-.
-- It is the name of the site that the tables hold for the cell at hand, whose row is not
-- provisional, or, where they hold none and the modem knows no cell, that of the current site,
-- which is not empty and is not flagged as provisional.
pub build_site_hint_for_sync-IsHint :
    (gsm : Gsm) (current_site : Text) (current_is_prov : Bool) (local_site : Option Site)
    (hint : Text)
    → build_site_hint_for_sync gsm current_site current_is_prov local_site ≡ some hint
    → IsGiven hint × IsHint gsm current_site current_is_prov local_site hint
unfolding build_site_hint_for_sync
build_site_hint_for_sync-IsHint gsm current_site current_is_prov (some s) hint h =
    elim (Bool-cases (is_provisional_site s.name s.is_provisional)) [
      | inl prov ↦ absurd (none-ne-some _ (rw prov at h))
      | inr sure ↦
          let same : s.name ≡ hint = some-injective _ _ (rw sure at h) in
          let (flag, given) = sure-IsGiven s.name s.is_provisional sure in
          (subst IsGiven same given, known s refl same flag)
    ]
build_site_hint_for_sync-IsHint gsm current_site current_is_prov none hint h =
    elim (Bool-cases (has_gsm gsm)) [
      | inl hears ↦ absurd (none-ne-some _ (rw hears at h))
      | inr quiet ↦
          elim (Bool-cases
            (text_eq current_site [] || is_provisional_site current_site current_is_prov)) [
              | inl unsure ↦ absurd (none-ne-some _ (rw (quiet, unsure) at h))
              | inr sure ↦
                  let same : current_site ≡ hint = some-injective _ _ (rw (quiet, sure) at h) in
                  let plain : is_provisional_site current_site current_is_prov ≡ false =
                    ground arith in
                  let (flag, given) = sure-IsGiven current_site current_is_prov plain in
                  let shown : current_site ≢ [] =
                    λ e. ground (arith, (text_eq_iff current_site []).1 e) in
                  (subst IsGiven same given, deaf refl quiet same shown flag)
            ]
    ]
