-- ===== src/ModbusMgr/Points/Sound.antt =====
-- The invariant of the table of points: numbers and slots are distinct, and what is recorded is
-- monitored. Every statement on the table keeps it.
use mathlib.Core.Option.{none-ne-some, some-injective}
use mathlib.Core.Path.{subst}
use rpinode.Dict.{get, code_eq}
use rpinode.ModbusMgr.{Register, Device, Point, Store, or_default, point_key}
use rpinode.ModbusMgr.Points.{
  Selected, Settings, reselected, same_slot, new_point, insert_point, select_point, select_points,
  existing_ids, dev_slave_unit, save_device_points_selection, with_settings, update_point_settings,
}
use rpinode.ModbusMgr.Templates.{synced, sync_point, sync_devices}
use rpinode.ModbusMgr.Templates.Sync.{
  sync_point-cases, sync_point-keeps, sync_devices-sweep, of_devices,
}
use rpinode.Rows.{
  select, change, any_row, first, Distinct, All-select, All-change, All-append_one, Distinct-select,
  Distinct-change, Distinct-append,
}
use rpinode.Rows.Loops.{All-sweep, Distinct-sweep}
use rpinode.Rows.Tables.{IsTable, IsTable-select, IsTable-change, IsTable-append, IsTable-sweep}
use rpinode.Text.{Text}
use rpinode.Prelude.{
  ℕ, ◌≡◌, ◌≢◌, refl, sym, ap, ◌⊎◌, inl, inr, Bool, true, false, not, some, List, [], ◌∷◌, ◌==◌,
  arith, Bool-cases, Option-cases, All,
}

-- What the constraint of the table of points keeps apart.
abbrev pub slot : Point → ℕ × ℕ × ℕ
slot p = (p.device_id, p.function, p.reg)

-- What is recorded is monitored.
abbrev pub IsRuled : Point → Type 0
IsRuled p = (p.is_recorded ≡ false) ⊎ (p.is_monitored ≡ true)

pub record ArePoints (next : ℕ) (points : List Point) : Type 0 where
  pub table : IsTable (λ p. p.id) next points
  pub slots : Distinct slot points
  pub ruled : All IsRuled points

module _ (next : ℕ) (points : List Point) (h : ArePoints next points) where
  pub ArePoints-select : (test : Point → Bool) → ArePoints next (select test points)
  ArePoints-select test = record {
    table = IsTable-select (λ p. p.id) next points h.table test;
    slots = Distinct-select slot test points h.slots;
    ruled = All-select IsRuled test points h.ruled;
  }

  -- An update that writes neither the number nor the slot.
  pub ArePoints-change :
      (test : Point → Bool) (f : Point → Point)
      → ((p : Point) → (f p).id ≡ p.id)
      → ((p : Point) → slot (f p) ≡ slot p)
      → ((p : Point) → IsRuled p → IsRuled (f p))
      → ArePoints next (change test f points)
  ArePoints-change test f keeps_id keeps_slot keeps_rule = record {
    table = IsTable-change (λ p. p.id) next points h.table test f (λ p _. keeps_id p);
    slots = Distinct-change slot test f points (λ p _. keeps_slot p) h.slots;
    ruled = All-change IsRuled test f points (λ p _ r. keeps_rule p r) h.ruled;
  }

  pub ArePoints-sync :
      (registers : List Register) (devices : List Device)
      → Distinct (λ d. d.id) devices
      → ArePoints next (sync_devices registers devices points)
  unfolding synced
  ArePoints-sync registers devices k =
      let keeps_id = sync_point-keeps (λ p. p.id) registers (λ r s p. refl) in
      let keeps_slot = sync_point-keeps slot registers (λ r s p. refl) in
      let keeps_rule : (p q : Point) → sync_point registers p p ≡ some q → IsRuled p → IsRuled q =
        λ p q e r. elim (sync_point-cases registers p p q e) [
          | inl (g, same) ↦ subst IsRuled (sym same) r
          | inr (same, _) ↦ subst IsRuled (sym same) r
        ] in
      subst (ArePoints next) (sym (sync_devices-sweep registers devices points k h.table.distinct))
        record {
          table =
              IsTable-sweep (λ p. p.id) next points h.table (sync_point registers)
                (of_devices devices) keeps_id;
          slots =
              Distinct-sweep (λ p. p.id) (sync_point registers) slot keeps_slot (of_devices devices)
                points h.slots;
          ruled =
              All-sweep (λ p. p.id) (sync_point registers) IsRuled (of_devices devices) points
                keeps_rule h.ruled;
        }

not_same_slot : (p q : Point) → same_slot p q ≡ false → slot q ≢ slot p
not_same_slot p q e same =
    let d : q.device_id ≡ p.device_id = ap (λ (s : ℕ × ℕ × ℕ). s.0) same in
    let f : q.function ≡ p.function = ap (λ (s : ℕ × ℕ × ℕ). s.1) same in
    let r : q.reg ≡ p.reg = ap (λ (s : ℕ × ℕ × ℕ). s.2) same in ground arith

free_slot :
    (p : Point) (points : List Point)
    → any_row (same_slot p) points ≡ false
    → All (λ q. slot q ≢ slot p) points
free_slot p [] e = tt
free_slot p (q ∷ points) e = elim (Bool-cases (same_slot p q)) [
  | inl taken ↦ absurd (ground arith)
  | inr other ↦ (not_same_slot p q other, free_slot p points (rw other at e))
]

-- The points of a store are sound.
abbrev pub HasPoints : Store → Type 0
HasPoints st = ArePoints st.next_point st.points

insert_point-HasPoints :
    (p : Point) (st st' : Store)
    → HasPoints st
    → p.id ≡ st.next_point
    → IsRuled p
    → insert_point p st ≡ some st'
    → HasPoints st'
unfolding insert_point
insert_point-HasPoints p st st' h e r done = elim (Bool-cases (any_row (same_slot p) st.points)) [
  | inl taken ↦ absurd (none-ne-some _ (rw (taken, insert_point) at done))
  | inr free ↦ subst HasPoints (some-injective _ _ (rw (free, insert_point) at done)) record {
    table = IsTable-append (λ q. q.id) st.next_point st.points h.table p e;
    slots = Distinct-append slot p st.points (free_slot p st.points free) h.slots;
    ruled = All-append_one slot IsRuled p st.points h.ruled r;
  }
]

select_point-HasPoints :
    (device_id site_id unit : ℕ) (existing : List (Text × ℕ)) (q : Selected) (st st' : Store)
    → HasPoints st
    → select_point device_id site_id unit existing q st ≡ some st'
    → HasPoints st'
unfolding select_point reselected
select_point-HasPoints device_id site_id unit existing q st st' h done =
    elim (Option-cases (get (point_key (or_default q.function 3) q.reg) existing)) [
      | inr (i, there) ↦ elim (Bool-cases q.is_monitored) [
        | inl on ↦ subst HasPoints (some-injective _ _ (rw (there, select_point, on) at done)) (
            ArePoints-change st.next_point st.points h (λ p. p.id == i) (reselected unit q)
              (λ p. refl) (λ p. refl) (λ p r. inr refl))
        | inr off ↦
            subst HasPoints (some-injective _ _ (rw (there, select_point, off) at done))
              (ArePoints-select st.next_point st.points h (λ p. not (p.id == i)))
      ]
      | inl missing ↦ elim (Bool-cases q.is_monitored) [
        | inl on ↦
            insert_point-HasPoints (reselected unit q (new_point device_id site_id q st.next_point))
              st st' h refl (inr refl) (rw (missing, select_point, on) at done)
        | inr off ↦ subst HasPoints (some-injective _ _ (rw (missing, select_point, off) at done)) h
      ]
    ]

select_points-HasPoints :
    (device_id site_id unit : ℕ) (existing : List (Text × ℕ)) (selected : List Selected)
    (st st' : Store)
    → HasPoints st
    → select_points device_id site_id unit existing selected st ≡ some st'
    → HasPoints st'
unfolding select_points
select_points-HasPoints device_id site_id unit existing [] st st' h done =
    subst HasPoints (some-injective _ _ done) h
select_points-HasPoints device_id site_id unit existing (q ∷ selected) st st' h done =
    elim (Option-cases (select_point device_id site_id unit existing q st)) [
      | inl raised ↦ absurd (none-ne-some _ (rw (raised, select_points) at done))
      | inr (mid, first_done) ↦
          select_points-HasPoints device_id site_id unit existing selected mid st'
            (select_point-HasPoints device_id site_id unit existing q st mid h first_done)
            (rw (first_done, select_points) at done)
    ]

pub save_device_points_selection-HasPoints :
    (device_id site_id : ℕ) (selected : List Selected) (st st' : Store)
    → HasPoints st
    → save_device_points_selection device_id site_id selected st ≡ some st'
    → HasPoints st'
unfolding save_device_points_selection
save_device_points_selection-HasPoints device_id site_id selected st st' h done =
    select_points-HasPoints device_id site_id (dev_slave_unit device_id st)
      (existing_ids device_id st.points) selected st st' h done

pub update_point_settings-HasPoints :
    (point_id : ℕ) (s : Settings) (st : Store)
    → HasPoints st
    → HasPoints (update_point_settings point_id s st).0
unfolding update_point_settings with_settings
update_point_settings-HasPoints point_id s st h =
    elim (Option-cases (first (λ p. p.id == point_id) st.points)) [
      | inl missing ↦ rw (missing, update_point_settings) h
      | inr (r, there) ↦ elim (Bool-cases (or_default s.is_monitored r.is_monitored)) [
        | inl on ↦
            rw (there, update_point_settings, on)
              (ArePoints-change st.next_point st.points h (λ p. p.id == point_id)
                (with_settings s r) (λ p. refl) (λ p. refl) (λ p k. inr refl))
        | inr off ↦
            rw (there, update_point_settings, off)
              (ArePoints-select st.next_point st.points h (λ p. not (p.id == point_id)))
      ]
    ]
