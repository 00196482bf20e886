-- ===== src/ModbusMgr/Templates/Saved.antt =====
-- What a save of a template leaves: its row, its version and history, the other templates, and the
-- points of the devices that use it.
use mathlib.Core.Option.{none-ne-some}
use mathlib.Core.Path.{subst}
use rpinode.ModbusMgr.{Template, Device, Store, or_default}
use rpinode.ModbusMgr.Templates.{
  get_template, Fresh, Request, existing_template, current_version, revised, created,
  revision_taken, write_template, sync_point, sync_devices, save_template,
}
use rpinode.ModbusMgr.Templates.Sync.{of_devices, sync_devices-sweep}
use rpinode.ModbusMgr.Templates.Expected.{expected, sweep_same, sync_point-expected}
use rpinode.Rows.{delete, select, change, first-test, Distinct, Distinct-select}
use rpinode.Rows.Lookup.{by_id-set_same, by_id-append_new, delete-change, delete-append}
use rpinode.Rows.Loops.{sweep}
use rpinode.Rows.Tables.{IsTable}
use rpinode.Prelude.{
  ℕ, suc, ◌+◌, ◌≡◌, refl, sym, ap₂, ◌∙◌, ◌⊎◌, inl, inr, Bool, true, false, Option, none, some, List,
  [], ◌∷◌, ◌++◌, ◌==◌, ==_iff, Bool-cases, Option-cases,
}

-- The version and the history of the saved row: a new template starts with version 1; a change of a
-- shared one has the next version and names the revision that it changes; a change of another one
-- leaves both.
abbrev pub IsNext : Bool → Option Template → Template → Type 0
IsNext shared none t = (t.version ≡ 1) × (t.parent_revision_uuid ≡ none)
IsNext true (some old) t =
    (t.version ≡ current_version old + 1) × (t.parent_revision_uuid ≡ some old.revision_uuid)
IsNext false (some old) t =
    (t.version ≡ current_version old) × (t.parent_revision_uuid ≡ old.parent_revision_uuid)

abbrev pub shared_before : Option Template → Bool
shared_before none = false
shared_before (some t) = t.is_shared

pub record IsRow (w : Fresh) (q : Request) (old : Option Template) (t : Template) : Type 0 where
  pub name : t.name ≡ q.name
  pub manufacturer : t.manufacturer ≡ q.manufacturer
  pub registers : t.registers ≡ q.registers
  pub revision : t.revision_uuid ≡ w.revision
  pub shared : t.is_shared ≡ or_default q.is_shared (shared_before old)
  pub shown : t.is_local_hidden ≡ false
  pub next : IsNext t.is_shared old t

-- The number of the row that a save writes.
abbrev pub saved_id : Option Template → Store → ℕ
saved_id none st = st.next_template
saved_id (some t) st = t.id

pub record IsSaved (w : Fresh) (q : Request) (old : Option Template) (st : Store) (st' : Store)
    : Type 0 where
  pub row : (t : Template) × (get_template (saved_id old st) st' ≡ some t) × IsRow w q old t
  pub others :
      delete (λ t. t.id == saved_id old st) st'.templates
      ≡ delete (λ t. t.id == saved_id old st) st.templates
  pub devices : st'.devices ≡ st.devices
  pub points :
      st'.points
      ≡ sweep
          (λ p. p.id)
          (λ s p. expected q.registers p)
          (of_devices (select (λ d. d.template_id == saved_id old st) st.devices))
          st.points

revised-IsRow : (w : Fresh) (q : Request) (t : Template) → IsRow w q (some t) (revised w q t)
unfolding revised
revised-IsRow w q t = elim (Bool-cases (or_default q.is_shared t.is_shared)) [
  | inl shared ↦ simp shared record {
    name = refl;
    manufacturer = refl;
    registers = refl;
    revision = refl;
    shared = sym shared;
    shown = refl;
    next = (refl, refl);
  }
  | inr kept ↦ simp kept record {
    name = refl;
    manufacturer = refl;
    registers = refl;
    revision = refl;
    shared = sym kept;
    shown = refl;
    next = (refl, refl);
  }
]

created-IsRow : (w : Fresh) (q : Request) (id : ℕ) → IsRow w q none (created w q id)
unfolding created
created-IsRow w q id = record {
  name = refl;
  manufacturer = refl;
  registers = refl;
  revision = refl;
  shared = refl;
  shown = refl;
  next = (refl, refl);
}

existing_template-id :
    (o : Option ℕ) (st : Store) (t : Template)
    → existing_template o st ≡ some t
    → get_template t.id st ≡ some t
existing_template-id none st t e = cc
existing_template-id (some i) st t e = elim (Bool-cases (i == 0)) [
  | inl zero_id ↦ absurd (none-ne-some _ (rw zero_id at e))
  | inr there ↦
      let found : get_template i st ≡ some t = rw there at e in
      let hit : (t.id == i) ≡ true = first-test (λ u. u.id == i) t st.templates found in
      let same : t.id ≡ i = (==_iff t.id i).0 hit in
      subst (λ k. get_template k st ≡ some t) (sym same) found
]

-- The end of a save, after its row was written.
synced-IsSaved :
    (w : Fresh) (q : Request) (old : Option Template) (st mid : Store)
    → write_template w q st ≡ some (mid, saved_id old st)
    → Distinct (λ d. d.id) st.devices
    → Distinct (λ p. p.id) st.points
    → mid.devices ≡ st.devices
    → mid.points ≡ st.points
    → ((t : Template) × (get_template (saved_id old st) mid ≡ some t) × IsRow w q old t)
    → delete (λ t. t.id == saved_id old st) mid.templates
      ≡ delete (λ t. t.id == saved_id old st) st.templates
    → (st' : Store) × (save_template w q st ≡ some (st', saved_id old st)) × IsSaved w q old st st'
unfolding save_template
synced-IsSaved w q old st mid written hd hp same_devices same_points row others =
    let linked = λ (ds : List Device). select (λ d. d.template_id == saved_id old st) ds in
    (
      record mid { points = sync_devices q.registers (linked mid.devices) mid.points },
      rw (written, save_template) refl,
      record {
        row = row;
        others = others;
        devices = same_devices;
        points =
            ap₂ (λ ds ps. sync_devices q.registers (linked ds) ps) same_devices same_points
            ∙ sync_devices-sweep q.registers (linked st.devices) st.points
                (Distinct-select (λ d. d.id) _ st.devices hd) hp
            ∙ sweep_same (sync_point q.registers) (λ s p. expected q.registers p)
                (of_devices (linked st.devices)) st.points (sync_point-expected q.registers);
      },
    )

-- Either another template has the drawn revision, and the save raises, or it succeeds.
unfoldable pub IsDone : (w : Fresh) (q : Request) (old : Option Template) (st : Store) → Type 0
IsDone w q old st =
    ((revision_taken (saved_id old st) w.revision st.templates ≡ true)
      × (save_template w q st ≡ none))
    ⊎ ((st' : Store) × (save_template w q st ≡ some (st', saved_id old st))
        × IsSaved w q old st st')

module _ (w : Fresh) (q : Request) (st : Store)
    (ht : IsTable (λ t. t.id) st.next_template st.templates) (hd : Distinct (λ d. d.id) st.devices)
    (hp : Distinct (λ p. p.id) st.points) where
  created-IsDone : existing_template q.template_id st ≡ none → IsDone w q none st
  unfolding save_template write_template created IsDone
  created-IsDone e = elim (Bool-cases (revision_taken st.next_template w.revision st.templates)) [
    | inl taken ↦ inl (taken, rw (e, write_template, taken) refl)
    | inr free ↦
        let t = created w q st.next_template in
        inr (
          synced-IsSaved w q none st
            (record st { templates = st.templates ++ t ∷ []; next_template = suc st.next_template })
            (rw (e, write_template, free) refl) hd hp refl refl
            (t, by_id-append_new (λ u. u.id) t st.templates ht.below, created-IsRow w q _)
            (delete-append (λ u. u.id) st.next_template t st.templates refl))
  ]

  revised-IsDone :
      (t : Template) → existing_template q.template_id st ≡ some t → IsDone w q (some t) st
  unfolding save_template write_template revised IsDone
  revised-IsDone t e = elim (Bool-cases (revision_taken t.id w.revision st.templates)) [
    | inl taken ↦ inl (taken, rw (e, write_template, taken) refl)
    | inr free ↦
        let u = revised w q t in
        inr (
          synced-IsSaved w q (some t) st
            (record st { templates = change (λ v. v.id == t.id) (λ v. u) st.templates })
            (rw (e, write_template, free) refl) hd hp refl refl
            (
              u,
              by_id-set_same (λ v. v.id) u t st.templates
                  (existing_template-id q.template_id st t e),
              revised-IsRow w q t,
            )
            (delete-change (λ v. v.id) t.id (λ v. u) st.templates (λ v _. refl)))
  ]

  -- In tables where the numbers are distinct, a save raises exactly when another template has the
  -- revision that it draws. Else it writes the row of the template that it names, or a new one with
  -- the next number: with the given values, shown, with the next version and the revision that it
  -- replaces when it is shared, and with version 1 and no history when it is new. It leaves the other
  -- templates and the devices, and its loops over the points do what one pass over the points of
  -- the devices of the template does. With a register of its function, 3 where the register has none,
  -- and of its number, the last one of these, a point takes its name and its type where it has them,
  -- and its scale, unit and base, 1.0, empty and 0 where it has none, and keeps all else. A point
  -- without such a register is deleted unless it is recorded, and a recorded one stays as it was.
  pub save_template-IsSaved : IsDone w q (existing_template q.template_id st) st
  save_template-IsSaved = elim (Option-cases (existing_template q.template_id st)) [
    | inl new ↦ subst (λ o. IsDone w q o st) (sym new) (created-IsDone new)
    | inr (t, there) ↦ subst (λ o. IsDone w q o st) (sym there) (revised-IsDone t there)
  ]
