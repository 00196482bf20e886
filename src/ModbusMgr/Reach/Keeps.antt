-- ===== src/ModbusMgr/Reach/Keeps.antt =====
-- The operations on templates keep the tables of src/services/modbus_mgr.py sound.
use mathlib.Core.Option.{none-ne-some, some-injective}
use mathlib.Core.Path.{subst}
use rpinode.ModbusMgr.{Template, Store, or_text}
use rpinode.ModbusMgr.Fleet.{
  Definition, find_remote, imported, same_template, install_as, install, import_template_from_fleet,
  share_template_to_fleet,
}
use rpinode.ModbusMgr.Points.Sound.{HasPoints, ArePoints-sync}
use rpinode.ModbusMgr.Templates.{
  Fresh, Request, get_template, existing_template, revised, created, revision_taken,
  update_template, insert_template, write_template, save_template, delete_template, shared_row,
}
use rpinode.Prelude.Options.{>>=-some}
use rpinode.Prelude.{
  ℕ, ◌≡◌, refl, sym, ap, Bool, some, List, ltb, ◌==◌, ==_iff, inl, inr, Bool-cases, Option-cases,
}
use rpinode.Rows.{count_rows, first, Distinct-select}
use rpinode.Rows.Tables.{IsTable, IsTable-select, IsTable-change, IsTable-append}
use rpinode.Text.{Text}

-- The numbers of each table are distinct and below the next one, the slots of the points are
-- distinct, and what is recorded is monitored.
pub record IsSound (st : Store) : Type 0 where
  pub templates : IsTable (λ t. t.id) st.next_template st.templates
  pub devices : IsTable (λ d. d.id) st.next_device st.devices
  pub points : HasPoints st

update_template-IsSound :
    (row : Template) (st st' : Store) → IsSound st → update_template row st ≡ some st' → IsSound st'
update_template-IsSound row st st' h e =
    elim (Bool-cases (revision_taken row.id row.revision_uuid st.templates)) [
      | inl taken ↦ absurd (none-ne-some _ (rw taken at e))
      | inr free ↦ subst IsSound (some-injective _ _ (rw free at e)) record {
        templates =
            IsTable-change (λ t. t.id) st.next_template st.templates h.templates
              (λ t. t.id == row.id) (λ t. row) (λ t hit. sym ((==_iff _ _).0 hit));
        devices = h.devices;
        points = h.points;
      }
    ]

insert_template-IsSound :
    (row : Template) (st st' : Store)
    → IsSound st
    → row.id ≡ st.next_template
    → insert_template row st ≡ some st'
    → IsSound st'
insert_template-IsSound row st st' h k e =
    elim (Bool-cases (revision_taken row.id row.revision_uuid st.templates)) [
      | inl taken ↦ absurd (none-ne-some _ (rw taken at e))
      | inr free ↦ subst IsSound (some-injective _ _ (rw free at e)) record {
        templates = IsTable-append (λ t. t.id) st.next_template st.templates h.templates row k;
        devices = h.devices;
        points = h.points;
      }
    ]

write_template-IsSound :
    (w : Fresh) (q : Request) (st st' : Store) (id : ℕ)
    → IsSound st
    → write_template w q st ≡ some (st', id)
    → IsSound st'
unfolding write_template revised created
write_template-IsSound w q st st' id h e =
    elim (Option-cases (existing_template q.template_id st)) [
      | inl new ↦ elim (Option-cases (insert_template (created w q st.next_template) st)) [
        | inl raised ↦ absurd (none-ne-some _ (rw (new, write_template, raised) at e))
        | inr (mid, done) ↦
            subst IsSound (ap (λ p. p.0) (some-injective _ _ (rw (new, write_template, done) at e)))
              (insert_template-IsSound (created w q st.next_template) st mid h refl done)
      ]
      | inr (t, there) ↦ elim (Option-cases (update_template (revised w q t) st)) [
        | inl raised ↦ absurd (none-ne-some _ (rw (there, write_template, raised) at e))
        | inr (mid, done) ↦
            subst IsSound
              (ap (λ p. p.0) (some-injective _ _ (rw (there, write_template, done) at e)))
              (update_template-IsSound (revised w q t) st mid h done)
      ]
    ]

pub save_template-IsSound :
    (w : Fresh) (q : Request) (st st' : Store) (id : ℕ)
    → IsSound st
    → save_template w q st ≡ some (st', id)
    → IsSound st'
unfolding save_template
save_template-IsSound w q st st' id h e = elim (Option-cases (write_template w q st)) [
  | inl raised ↦ absurd (none-ne-some _ (rw (raised, save_template) at e))
  | inr ((mid, i), written) ↦
      let g = write_template-IsSound w q st mid i h written in
      subst IsSound (ap (λ p. p.0) (some-injective _ _ (rw (written, save_template) at e))) record {
        templates = g.templates;
        devices = g.devices;
        points =
            ArePoints-sync mid.next_point mid.points g.points q.registers _
              (Distinct-select (λ d. d.id) _ mid.devices g.devices.distinct);
      }
]

pub delete_template-IsSound : (id : ℕ) (st : Store) → IsSound st → IsSound (delete_template id st).0
unfolding delete_template
delete_template-IsSound id st h =
    elim (Bool-cases (ltb 0 (count_rows (λ d. d.template_id == id) st.devices))) [
      | inl used ↦ rw used h
      | inr unused ↦ elim (Bool-cases (shared_row (get_template id st))) [
        | inl shared ↦
            rw (unused, shared)
              record {
                templates =
                    IsTable-change (λ t. t.id) st.next_template st.templates h.templates _ _
                      (λ t _. refl);
                devices = h.devices;
                points = h.points;
              }
        | inr ours ↦
            rw (unused, ours)
              record {
                templates = IsTable-select (λ t. t.id) st.next_template st.templates h.templates _;
                devices = h.devices;
                points = h.points;
              }
      ]
    ]

install_as-IsSound :
    (name : Text) (d : Definition) (uuid revision : Text) (st st' : Store)
    → IsSound st
    → install_as name d uuid revision st ≡ some st'
    → IsSound st'
unfolding imported
install_as-IsSound name d uuid revision st st' h e =
    elim (Option-cases (first (same_template (some uuid) name) st.templates)) [
      | inl new ↦ insert_template-IsSound _ st st' h refl (rw (new, install_as) at e)
      | inr (t, there) ↦ update_template-IsSound _ st st' h (rw (there, install_as) at e)
    ]

install-IsSound :
    (key : Text) (d : Definition) (st st' : Store)
    → IsSound st
    → install key d st ≡ some st'
    → IsSound st'
unfolding install
install-IsSound key d st st' h e =
    let (uuid, _, e1) = >>=-some d.template_uuid _ st' e in
    let (revision, _, e2) = >>=-some d.revision_uuid _ st' e1 in
    install_as-IsSound (or_text d.name key) d uuid revision st st' h e2

pub import_template_from_fleet-IsSound :
    (wanted : Text) (remote : List (Text × Definition)) (st st' : Store) (found : Bool)
    → IsSound st
    → import_template_from_fleet wanted remote st ≡ some (st', found)
    → IsSound st'
unfolding import_template_from_fleet
import_template_from_fleet-IsSound wanted remote st st' found h e =
    elim (Option-cases (find_remote wanted remote)) [
      | inl missing ↦
          subst IsSound
            (ap (λ p. p.0) (some-injective _ _ (rw (missing, import_template_from_fleet) at e))) h
      | inr ((key, d), there) ↦
          let (mid, done, same) =
            >>=-some (install key d st) _ _ (rw (there, import_template_from_fleet) at e) in
          subst IsSound (ap (λ p. p.0) (some-injective _ _ same))
            (install-IsSound key d st mid h done)
    ]

pub share_template_to_fleet-IsSound :
    (id : ℕ) (st : Store) → IsSound st → IsSound (share_template_to_fleet id st).0
unfolding share_template_to_fleet
share_template_to_fleet-IsSound id st h = elim (Option-cases (get_template id st)) [
  | inl missing ↦ rw (missing, share_template_to_fleet) h
  | inr (t, there) ↦
      rw (there, share_template_to_fleet)
        record {
          templates =
              IsTable-change (λ t. t.id) st.next_template st.templates h.templates _ _
                (λ t _. refl);
          devices = h.devices;
          points = h.points;
        }
]
