-- ===== src/Presence/Boot.antt =====
-- The site across a start of the system: kept, cleared, or forced again.
use mathlib.Core.Bool.{false≢true}
use mathlib.Core.Option.{some-injective, none-ne-some}
use rpinode.Rows.{select}
use rpinode.Presence.{
  Presence, Current, Forced, Db, State, Gsm, is_text, find_site, resolve_site, note_antenna,
  is_automatic, label_current_location,
}
use rpinode.Presence.Start.{
  external_of, restored, get_forced_site, force_site, leave, clear_current_location, same_boot,
  clear_current_location_if_new_boot,
}
use rpinode.Text.{Text, text_eq}
use rpinode.Text.Contains.{text_eq_iff}
use rpinode.Prelude.{
  ◌≡◌, ◌≢◌, refl, sym, ◌∙◌, ap, Bool, true, false, ◌||◌, not, ◌⊎◌, Option, none, some, List, [],
  ◌∷◌, map, All, arith, inl, inr, Bool-cases, Option-cases,
}

-- The node is on no site.
abbrev pub IsGone : Text → Presence → Type 0
IsGone host p = (p.host ≢ host) ⊎ (p.is_current ≡ false)

All-leave :
    (host : Text) (presences : List Presence) → All (IsGone host) (map (leave host) presences)
All-leave host [] = tt
All-leave host (p ∷ presences) = elim (Bool-cases (text_eq p.host host)) [
  | inl ours ↦ (rw ours (inr refl), All-leave host presences)
  | inr other ↦ (
    rw other (inl (λ e. false≢true (sym other ∙ (text_eq_iff p.host host).1 e))),
    All-leave host presences,
  )
]

-- The presences of the other nodes.
abbrev pub others : Text → List Presence → List Presence
others host presences = select (λ p. not (text_eq p.host host)) presences

others-leave :
    (host : Text) (presences : List Presence)
    → others host (map (leave host) presences) ≡ others host presences
others-leave host [] = refl
others-leave host (p ∷ presences) = elim (Bool-cases (text_eq p.host host)) [
  | inl ours ↦ rw (ours, ours) (others-leave host presences)
  | inr other ↦ rw (other, other) (ap (◌∷◌ p) (others-leave host presences))
]

-- The file of the current site has the number of the boot at hand.
pub record IsSameBoot (boot : Option Text) (current : Option Current) : Type 0 where
  pub number : Text
  pub file : Current
  pub booted : boot ≡ some number
  pub there : current ≡ some file
  pub same : file.boot_id ≡ some number

-- What a start makes of a state without a forced site.
pub data IsStarted (host : Text) (boot : Option Text) (st : State)
    : Option Bool × State → Type 0 where
  kept : IsSameBoot boot st.current → IsStarted host boot st (some false, st)
  cleared :
      (st' : State)
      → ¬ IsSameBoot boot st.current
      → st'.current ≡ none
      → All (IsGone host) st'.db.presences
      → others host st'.db.presences ≡ others host st.db.presences
      → st'.db.sites ≡ st.db.sites
      → IsStarted host boot st (some true, st')

is_text-true : (o : Option Text) (b : Text) → is_text o b ≡ true → o ≡ some b
is_text-true none b h = cc
is_text-true (some a) b h = ap some ((text_eq_iff a b).0 h)

same_boot-true :
    (boot : Option Text) (current : Option Current)
    → same_boot boot current ≡ true
    → IsSameBoot boot current
same_boot-true none current h = cc
same_boot-true (some b) none h = cc
same_boot-true (some b) (some c) h = record {
  number = b;
  file = c;
  booted = refl;
  there = refl;
  same = is_text-true c.boot_id b h;
}

IsSameBoot-same_boot :
    (boot : Option Text) (current : Option Current)
    → IsSameBoot boot current
    → same_boot boot current ≡ true
IsSameBoot-same_boot boot current h =
    rw (h.booted, h.there, h.same) ((text_eq_iff h.number h.number).1 refl)

-- Without a forced site, a start keeps the state, and says that it cleared nothing, when the file of
-- the current site is there with the number of the boot at hand, and only then. Otherwise it says that
-- it cleared the site: there is no current site, no presence of this node is current, and the sites
-- and the presences of the other nodes are the same.
pub clear_current_location_if_new_boot-IsStarted :
    (gsm : Gsm) (host : Text) (boot : Option Text) (st : State)
    → get_forced_site st ≡ none
    → IsStarted host boot st (clear_current_location_if_new_boot gsm host boot st)
unfolding clear_current_location_if_new_boot clear_current_location
clear_current_location_if_new_boot-IsStarted gsm host boot st h =
    elim (Bool-cases (same_boot boot st.current)) [
      | inl same ↦
          rw (h, clear_current_location_if_new_boot, same)
            (kept (same_boot-true boot st.current same))
      | inr new ↦
          rw (h, clear_current_location_if_new_boot, new)
            (cleared _ (λ s. false≢true (sym new ∙ IsSameBoot-same_boot boot st.current s)) refl
              (All-leave host st.db.presences) (others-leave host st.db.presences) refl)
    ]

label_current_location-forced :
    (gsm : Gsm) (host : Text) (boot : Option Text) (name : Text) (provisional : Bool)
    (external_id : Option Text) (st st' : State)
    → label_current_location gsm host boot name provisional external_id st ≡ some st'
    → st'.forced ≡ st.forced
unfolding label_current_location
label_current_location-forced gsm host boot name provisional external_id st st' h =
    elim (Option-cases
      (resolve_site host name (provisional || is_automatic name) external_id st.db)) [
        | inl clash ↦ absurd (none-ne-some _ (rw (clash, label_current_location) at h))
        | inr ((i, db), found) ↦ elim (Option-cases (note_antenna gsm i db)) [
          | inl bare ↦ absurd (none-ne-some _ (rw (found, label_current_location, bare) at h))
          | inr (db', noted) ↦ sym (
              ap (λ s. s.forced)
                (some-injective _ _ (rw (found, label_current_location, noted) at h)))
        ]
      ]

-- The forced site and the external number that it had then.
abbrev pub forced_as : Text → State → Forced
forced_as name st = record {
  name = name;
  external_id = external_of (find_site (λ s. text_eq s.name name) st.db.sites);
}

force_site-forced :
    (gsm : Gsm) (host : Text) (boot : Option Text) (name : Text) (st : State)
    → (force_site gsm host boot name st).forced ≡ some (forced_as name st)
unfolding force_site
force_site-forced gsm host boot name st =
    let f = forced_as name st in
    elim (Option-cases (
      label_current_location gsm host boot name false f.external_id
        (record st { forced = some f }))) [
          | inl raised ↦ rw (raised, force_site) refl
          | inr (st', done) ↦
              rw (done, force_site)
                (label_current_location-forced gsm host boot name false f.external_id _ st' done)
        ]

get_forced_site-forced :
    (st : State) (f : Forced) → st.forced ≡ some f → f.name ≢ [] → get_forced_site st ≡ some f
unfolding get_forced_site
get_forced_site-forced st f h named =
    let shown : text_eq f.name [] ≡ false = ground (arith, text_eq_iff f.name []) in
    rw (h, get_forced_site, shown)

start_forced :
    (gsm : Gsm) (host : Text) (boot : Option Text) (st : State) (f : Forced)
    → get_forced_site st ≡ some f
    → clear_current_location_if_new_boot gsm host boot st
      ≡ restored st (label_current_location gsm host boot f.name false f.external_id st)
unfolding clear_current_location_if_new_boot
start_forced gsm host boot st f h = rw (h, clear_current_location_if_new_boot)

restored-forced :
    (st : State) (o : Option State)
    → ((st' : State) → o ≡ some st' → st'.forced ≡ st.forced)
    → (restored st o).1.forced ≡ st.forced
restored-forced st none h = refl
restored-forced st (some st') h = h st' refl

start-keeps :
    (gsm : Gsm) (host : Text) (boot : Option Text) (st : State)
    → (clear_current_location_if_new_boot gsm host boot st).1.forced ≡ st.forced
unfolding clear_current_location_if_new_boot clear_current_location
start-keeps gsm host boot st = elim (Option-cases (get_forced_site st)) [
  | inl none_there ↦ elim (Bool-cases (same_boot boot st.current)) [
    | inl same ↦ rw (none_there, clear_current_location_if_new_boot, same) refl
    | inr new ↦ rw (none_there, clear_current_location_if_new_boot, new) refl
  ]
  | inr (f, there) ↦
      rw (there, clear_current_location_if_new_boot)
        (restored-forced st _
          (label_current_location-forced gsm host boot f.name false f.external_id st))
]

-- What may happen as long as no site is forced and none is released: starts, labels, clearings, and
-- any change of the file of the current site and of the tables.
pub data Life (st : State) : State → Type 0 where
  born : Life st st
  restart :
      {s : State} (gsm : Gsm) (host : Text) (boot : Option Text)
      → Life st s
      → Life st (clear_current_location_if_new_boot gsm host boot s).1
  relabel :
      {s s' : State} (gsm : Gsm) (host : Text) (boot : Option Text) (name : Text)
      (provisional : Bool) (external_id : Option Text)
      → Life st s
      → label_current_location gsm host boot name provisional external_id s ≡ some s'
      → Life st s'
  clear : {s : State} (host : Text) → Life st s → Life st (clear_current_location host s)
  file :
      {s : State} (current : Option Current) → Life st s → Life st (record s { current = current })
  store : {s : State} (db : Db) → Life st s → Life st (record s { db = db })

Life-forced : {st s : State} → Life st s → s.forced ≡ st.forced
unfolding clear_current_location
Life-forced born = refl
Life-forced (restart gsm host boot l) = start-keeps gsm host boot _ ∙ Life-forced l
Life-forced (relabel gsm host boot name provisional external_id l e) =
    label_current_location-forced gsm host boot name provisional external_id _ _ e ∙ Life-forced l
Life-forced (clear host l) = Life-forced l
Life-forced (file current l) = Life-forced l
Life-forced (store db l) = Life-forced l

-- The end of a start, written out.
restored_both :
    (st : State) (o : Option State)
    → restored st o ≡ (elim o [ none ↦ (none, st) | some s ↦ (some false, s) ])
restored_both st none = refl
restored_both st (some s) = refl

-- A site with a name that was forced by hand is forced again at every later start, whatever the
-- number of the boot, after any starts, labels and clearings and any changes of the tables and of the
-- file of the current site, as long as no site is forced or released: the start labels the location
-- with the forced name and with the external number that the site had when it was forced. It then
-- says that it cleared nothing; or the label raises, and so does the start, with the state as it was.
pub force_site-survives :
    (gsm gsm' : Gsm) (host host' : Text) (boot boot' : Option Text) (name : Text) (st st' : State)
    → name ≢ []
    → Life (force_site gsm host boot name st) st'
    → clear_current_location_if_new_boot gsm' host' boot' st'
      ≡ (elim (label_current_location gsm' host' boot' name false
          (external_of (find_site (λ s. text_eq s.name name) st.db.sites))
          st') [ none ↦ (none, st') | some s ↦ (some false, s) ])
force_site-survives gsm gsm' host host' boot boot' name st st' h l =
    start_forced gsm' host' boot' st' (forced_as name st) (
      get_forced_site-forced st' (forced_as name st)
        (Life-forced l ∙ force_site-forced gsm host boot name st) h)
    ∙ restored_both st' _
