-- ===== src/ModbusMgr/Fleet/Formats.antt =====
-- The two formats of a template: what a box shares with the fleet, another box installs.
use mathlib.Core.Path.{subst}
use rpinode.ModbusMgr.{Float, Register, Template, Store, or_text}
use rpinode.ModbusMgr.Fleet.{
  Definition, local_type, fleet_type, normalize_read, format_register, first_base,
  format_local_template_for_fleet, normalize_fleet_definition_to_local, blank, find_remote,
  same_template, imported, install_as, install, import_template_from_fleet, share_template_to_fleet,
}
use rpinode.ModbusMgr.Templates.{get_template, current_version, revision_taken, insert_template}
use rpinode.Prelude.{
  ℕ, suc, ◌≡◌, refl, sym, ap, ap₂, ◌∙◌, true, false, Option, none, some, List, [], ◌∷◌, ◌++◌, map,
  ◌==◌, arith, if◌then◌else◌, All,
}
use rpinode.Rows.{first}
use rpinode.Rows.Lookup.{by_id-change_same, by_id-append_new}
use rpinode.Rows.Tables.{IsTable}
use rpinode.Text.{Text, codes, text_eq, lower}
use rpinode.Text.Contains.{text_eq_iff}

-- The types that both formats have.
pub data LocalType : Text → Type 0 where
  uint16 : LocalType (codes "uint16")
  int16 : LocalType (codes "int16")
  float32 : LocalType (codes "float32")
  uint32 : LocalType (codes "uint32")
  int32 : LocalType (codes "int32")

-- A register that has every key, a name that is not empty, such a type, and the given base.
pub record IsComplete (base : ℕ) (r : Register) : Type 0 where
  pub function : ℕ
  pub initial : ℕ
  pub name : Text
  pub type : Text
  pub known : LocalType type
  pub scale : Float
  pub unit : Text
  pub is : r ≡ (record {
    reg = r.reg;
    function = some function;
    base = some base;
    name = some (initial ∷ name);
    type = some type;
    scale = some scale;
    unit = some unit;
  })

local_type-fleet_type : (t : Text) → LocalType t → local_type (lower (fleet_type t)) ≡ t
unfolding local_type fleet_type text_eq
local_type-fleet_type _ uint16 = refl
local_type-fleet_type _ int16 = refl
local_type-fleet_type _ float32 = refl
local_type-fleet_type _ uint32 = refl
local_type-fleet_type _ int32 = refl

or_text_self : (s : Text) → or_text (some s) [] ≡ s
or_text_self [] = refl
or_text_self (c ∷ s) = refl

-- A complete register comes back from the format of the fleet as it was.
pub normalize_read-format_register :
    (base : ℕ) (r : Register) → IsComplete base r → normalize_read base (format_register r) ≡ r
unfolding normalize_read format_register
normalize_read-format_register base r c =
    subst (λ (x : Register). normalize_read base (format_register x) ≡ x) (sym c.is)
      (rw (local_type-fleet_type c.type c.known, or_text_self c.unit) refl)

pub map-normalize_read :
    (base : ℕ) (registers : List Register)
    → All (IsComplete base) registers
    → map (normalize_read base) (map format_register registers) ≡ registers
map-normalize_read base [] h = refl
map-normalize_read base (r ∷ registers) (h, hs) =
    ap₂ ◌∷◌ (normalize_read-format_register base r h) (map-normalize_read base registers hs)

-- The row that is installed has what the shared template has.
pub record IsCopy (t u : Template) : Type 0 where
  pub name : u.name ≡ t.name
  pub manufacturer : u.manufacturer ≡ some (or_text t.manufacturer [])
  pub registers : u.registers ≡ t.registers
  pub version : u.version ≡ current_version t
  pub root : u.template_uuid ≡ t.template_uuid
  pub revision : u.revision_uuid ≡ t.revision_uuid
  pub parent : u.parent_revision_uuid ≡ t.parent_revision_uuid
  pub shared : u.is_shared ≡ true

or_text_twice :
    (o : Option Text)
    → or_text (some (or_text o [])) (or_text (some (or_text o [])) []) ≡ or_text o []
or_text_twice none = refl
or_text_twice (some []) = refl
or_text_twice (some (c ∷ s)) = refl

version_twice :
    (v : ℕ)
    → (let n = if v == 0 then 1 else v in if n == 0 then 1 else n) ≡ (if v == 0 then 1 else v)
version_twice v = ground arith

-- A template with a name, that is installed from the format in which another box sent it.
imported-IsCopy :
    (t blank : Template)
    → All (IsComplete (first_base t.registers)) t.registers
    → IsCopy t
        (imported t.name (format_local_template_for_fleet t) t.template_uuid t.revision_uuid blank)
unfolding imported normalize_fleet_definition_to_local format_local_template_for_fleet
imported-IsCopy t blank h = record {
  name = refl;
  manufacturer = ap some (or_text_twice t.manufacturer);
  registers = map-normalize_read (first_base t.registers) t.registers h;
  version = version_twice t.version;
  root = refl;
  revision = refl;
  parent = refl;
  shared = refl;
}

or_text_full : (s k : Text) (c : ℕ) (rest : Text) → s ≡ c ∷ rest → or_text (some s) k ≡ s
or_text_full s k c rest e = subst (λ x. or_text (some x) k ≡ x) (sym e) refl

share_template_to_fleet-sent :
    (id : ℕ) (st : Store) (t : Template) (c : ℕ) (uuid : Text)
    → get_template id st ≡ some t
    → t.template_uuid ≡ c ∷ uuid
    → (share_template_to_fleet id st).1 ≡ some (t.template_uuid, format_local_template_for_fleet t)
unfolding share_template_to_fleet format_local_template_for_fleet
share_template_to_fleet-sent id st t c uuid there root =
    let marked =
      by_id-change_same (λ u. u.id) id (λ u. record u { is_shared = true }) t st.templates
        (λ u. refl) there in
    rw (there, share_template_to_fleet, marked)
      (ap (λ k. some (k, format_local_template_for_fleet t))
        (or_text_full t.template_uuid t.name c uuid root))

install-new :
    (key : Text) (t : Template) (st : Store) (d : ℕ) (name : Text)
    → t.name ≡ d ∷ name
    → first (same_template (some t.template_uuid) t.name) st.templates ≡ none
    → revision_taken st.next_template t.revision_uuid st.templates ≡ false
    → IsTable (λ u. u.id) st.next_template st.templates
    → All (IsComplete (first_base t.registers)) t.registers
    → (st' : Store) × (u : Template) × (install key (format_local_template_for_fleet t) st
        ≡ some st')
      × (get_template st.next_template st' ≡ some u)
      × IsCopy t u
unfolding install imported format_local_template_for_fleet
install-new key t st d name named new free table h =
    let full = or_text_full t.name key d name named in
    let u =
      imported t.name (format_local_template_for_fleet t) t.template_uuid t.revision_uuid
        (blank st.next_template) in
    (
      record st { templates = st.templates ++ u ∷ []; next_template = suc st.next_template },
      u,
      ap (λ n. install_as n (format_local_template_for_fleet t) t.template_uuid t.revision_uuid st)
            full
          ∙ rw (new, install_as, insert_template, free) refl,
      by_id-append_new (λ v. v.id) u st.templates table.below,
      imported-IsCopy t (blank st.next_template) h,
    )

import_template_from_fleet-key :
    (key : Text) (sent : Definition) (st st' : Store)
    → install key sent st ≡ some st'
    → import_template_from_fleet key ((key, sent) ∷ []) st ≡ some (st', true)
unfolding import_template_from_fleet
import_template_from_fleet-key key sent st st' e =
    let found : find_remote key ((key, sent) ∷ []) ≡ some (key, sent) =
      rw ((text_eq_iff key key).1 refl) refl in
    rw (found, import_template_from_fleet, e) refl

-- A template with an identifier and a name that are not empty, whose registers have every key, a name
-- that is not empty, a type that both formats have, and one base: once a box has shared it, another
-- box that has neither a template of its identifier or name nor one of its revision installs it under
-- its next number, with the name, the registers, the version, the identifiers and the history that it
-- has, and shared.
pub import_template_from_fleet-share_template_to_fleet :
    (id : ℕ) (ours theirs : Store) (t : Template) (c d : ℕ) (uuid name : Text)
    → get_template id ours ≡ some t
    → t.template_uuid ≡ c ∷ uuid
    → t.name ≡ d ∷ name
    → All (IsComplete (first_base t.registers)) t.registers
    → IsTable (λ u. u.id) theirs.next_template theirs.templates
    → first (same_template (some t.template_uuid) t.name) theirs.templates ≡ none
    → revision_taken theirs.next_template t.revision_uuid theirs.templates ≡ false
    → (sent : Definition) × (theirs' : Store) × (u : Template) × ((share_template_to_fleet id
          ours).1
        ≡ some (t.template_uuid, sent))
      × (import_template_from_fleet t.template_uuid ((t.template_uuid, sent) ∷ []) theirs
          ≡ some (theirs', true))
      × (get_template theirs.next_template theirs' ≡ some u)
      × IsCopy t u
import_template_from_fleet-share_template_to_fleet id ours theirs t c d uuid name there root named h
      table new free =
    let (theirs', u, installed, got, copy) =
      install-new t.template_uuid t theirs d name named new free table h in
    (
      format_local_template_for_fleet t,
      theirs',
      u,
      share_template_to_fleet-sent id ours t c uuid there root,
      import_template_from_fleet-key t.template_uuid _ theirs theirs' installed,
      got,
      copy,
    )
