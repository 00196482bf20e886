-- ===== src/Tracker/Forcing.antt =====
-- A site that was forced by hand is not replaced.
use mathlib.Core.Option.{some-injective, none-ne-some}
use mathlib.Core.Path.{subst}
use mathlib.Core.List.{append-nil}
use rpinode.Presence.{
  Current, Forced, State, Gsm, is_automatic, resolve_site, note_antenna, label_current_location,
}
use rpinode.Presence.Start.{get_forced_site, get_current_site_name, name_of}
use rpinode.Text.{Text, text_eq}
use rpinode.Text.Contains.{text_eq_iff}
use rpinode.Tracker.{World, Effect, announced, after, sync, check_forced, check_and_update_site}
use rpinode.Prelude.{
  ◌≡◌, refl, sym, ◌∙◌, ap, Bool, false, ◌||◌, Option, none, some, List, [], ◌∷◌, ◌⊎◌, inl, inr,
  Bool-cases, Option-cases, if◌then◌else◌,
}

label_current_location-current :
    (gsm : Gsm) (host : Text) (boot : Option Text) (name : Text) (provisional : Bool)
    (external_id : Option Text) (st st' : State)
    → label_current_location gsm host boot name provisional external_id st ≡ some st'
    → ((c : Current) × (st'.current ≡ some c) × (c.name ≡ name)) × (st'.forced ≡ st.forced)
unfolding label_current_location
label_current_location-current gsm host boot name provisional external_id st st' h =
    elim (Option-cases
      (resolve_site host name (provisional || is_automatic name) external_id st.db)) [
        | inl clash ↦ absurd (none-ne-some _ (rw (clash, label_current_location) at h))
        | inr ((i, db), found) ↦ elim (Option-cases (note_antenna gsm i db)) [
          | inl bare ↦ absurd (none-ne-some _ (rw (found, label_current_location, bare) at h))
          | inr (db', noted) ↦
              let done = some-injective _ _ (rw (found, label_current_location, noted) at h) in
              ((_, sym (ap (λ s. s.current) done), refl), sym (ap (λ s. s.forced) done))
        ]
      ]

get_forced_site_named :
    (st : State) (f : Forced) → get_forced_site st ≡ some f → text_eq f.name [] ≡ false
unfolding get_forced_site
get_forced_site_named st f h = elim (Option-cases st.forced) [
  | inl none_there ↦ absurd (none-ne-some _ (rw (none_there, get_forced_site) at h))
  | inr (g, there) ↦ elim (Bool-cases (text_eq g.name [])) [
    | inl empty ↦ absurd (none-ne-some _ (rw (there, get_forced_site, empty) at h))
    | inr named ↦
        let same : g ≡ f = some-injective _ _ (rw (there, get_forced_site, named) at h) in
        subst (λ x. text_eq x.name [] ≡ false) same named
  ]
]

-- What a look leaves that found the forced site f: the right side of `at` is a label that raised, on
-- the tables that the server left.
pub record IsForced (w : World) (f : Forced) (st : State) (r : State × List Effect) : Type 0 where
  pub still : r.0.forced ≡ st.forced
  pub told : r.1 ≡ (if w.is_registered then announced (some f.name) ∷ [] else [])
  pub at :
      (get_current_site_name r.0 ≡ f.name)
      ⊎ ((r.0 ≡ (sync w (some f.name) st).0)
          × (r.0.current ≡ st.current)
          × (label_current_location w.gsm_label w.host w.boot f.name false f.external_id r.0
              ≡ none))

sync-keeps :
    (w : World) (hint : Option Text) (st : State)
    → ((sync w hint st).0.forced ≡ st.forced)
      × ((sync w hint st).0.current ≡ st.current)
      × ((sync w hint st).1.1 ≡ (if w.is_registered then announced hint ∷ [] else []))
sync-keeps w hint st = elim (Bool-cases w.is_registered) [
  | inl yours ↦ simp yours (refl, refl, refl)
  | inr alone ↦ simp alone (refl, refl, refl)
]

get_current_site_name-current :
    (st : State) (c : Current) (name : Text)
    → st.current ≡ some c
    → c.name ≡ name
    → text_eq name [] ≡ false
    → get_current_site_name st ≡ name
get_current_site_name-current st c name h e named = ap name_of h ∙ rw (e, named)

-- The label of the forced site, at the state that the server left.
relabel-IsForced :
    (w : World) (f : Forced) (st s : State) (effects : List Effect)
    → text_eq f.name [] ≡ false
    → s ≡ (sync w (some f.name) st).0
    → s.forced ≡ st.forced
    → s.current ≡ st.current
    → effects ≡ (if w.is_registered then announced (some f.name) ∷ [] else [])
    → IsForced w f st (
        after
          (label_current_location w.gsm_label w.host w.boot f.name false f.external_id s)
          (λ _. [])
          s
          effects)
relabel-IsForced w f st s effects named left forced current told =
    elim (Option-cases
      (label_current_location w.gsm_label w.host w.boot f.name false f.external_id s)) [
        | inl raised ↦
            rw (raised, after)
              record { still = forced; told = told; at = inr (left, current, raised) }
        | inr (s', labelled) ↦
            let ((c, at, e), kept) =
              label_current_location-current w.gsm_label w.host w.boot f.name false f.external_id s
                s' labelled in
            rw (labelled, after)
              record {
                still = kept ∙ forced;
                told = append-nil effects ∙ told;
                at = inl (get_current_site_name-current s' c f.name at e named);
              }
      ]

check_forced-IsForced :
    (w : World) (f : Forced) (st : State)
    → text_eq f.name [] ≡ false
    → IsForced w f st (check_forced w f st)
unfolding check_forced
check_forced-IsForced w f st named =
    let s = sync w (some f.name) st in
    let (forced, current, told) = sync-keeps w (some f.name) st in
    elim (Bool-cases (text_eq f.name (get_current_site_name st))) [
      | inl there ↦ rw there record {
        still = forced;
        told = told;
        at = inl (ap name_of current ∙ sym ((text_eq_iff _ _).0 there));
      }
      | inr away ↦ rw away (relabel-IsForced w f st s.0 s.1.1 named refl forced current told)
    ]

-- While a site is forced, a look of the tracker tells the server of no other site, and ends with the
-- forced site as the current one, whatever the cell, the server and the tables say. It leaves the
-- forced site in force. The one exception is that labelling the forced site raises on the state that
-- the server left, which is then the state that the look leaves, with the current site as it was.
pub check_and_update_site-IsForced :
    (w : World) (f : Forced) (st : State)
    → get_forced_site st ≡ some f
    → IsForced w f st (check_and_update_site w st)
unfolding check_and_update_site
check_and_update_site-IsForced w f st h =
    rw (h, check_and_update_site) (check_forced-IsForced w f st (get_forced_site_named st f h))
