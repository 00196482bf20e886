-- ===== src/ModbusMgr/Templates/Sync.antt =====
-- The points of the devices of a template after a save: the nested loops of the code are one pass over
-- the table.
use mathlib.Core.Option.{none-ne-some, some-injective}
use rpinode.Dict.{get, code_eq}
use rpinode.ModbusMgr.{Register, Device, Point, point_key, tpl_map}
use rpinode.ModbusMgr.Templates.{synced, sync_point, sync_devices}
use rpinode.Rows.{any_row, Distinct}
use rpinode.Rows.Loops.{sweep, sweep-sweep, visit_all-sweep, Distinct-sweep}
use rpinode.Prelude.{
  ℕ, ◌≡◌, ◌≢◌, refl, ap, sym, ◌∙◌, ◌⊎◌, inl, inr, Bool, true, false, some, List, [], ◌∷◌, ◌==◌,
  arith, Bool-cases, Option-cases, All,
}

-- What a fetched point s makes of a row p: the row with the values of a register of its key, or the
-- row itself.
pub sync_point-cases :
    (registers : List Register) (s p p' : Point)
    → sync_point registers s p ≡ some p'
    → ((r : Register) × (p' ≡ synced r s p)) ⊎ ((p' ≡ p) × (s.is_recorded ≡ true))
unfolding sync_point
sync_point-cases registers s p p' h =
    elim (Option-cases (get (point_key s.function s.reg) (tpl_map registers))) [
      | inr (r, found) ↦ inl (r, sym (some-injective _ _ (rw (found, sync_point) at h)))
      | inl missing ↦ elim (Bool-cases s.is_recorded) [
        | inl recorded ↦
            inr (sym (some-injective _ _ (rw (missing, sync_point, recorded) at h)), recorded)
        | inr dropped ↦ absurd (none-ne-some _ (rw (missing, sync_point, dropped) at h))
      ]
    ]

-- A sync leaves whatever the columns that it writes do not matter to.
pub sync_point-keeps {κ} :
    {K : Type κ} (key : Point → K) (registers : List Register)
    → ((r : Register) (s p : Point) → key (synced r s p) ≡ key p)
    → (s p p' : Point) → sync_point registers s p ≡ some p'
    → key p' ≡ key p
sync_point-keeps key registers keeps s p p' h = elim (sync_point-cases registers s p p' h) [
  | inl (r, e) ↦ ap key e ∙ keeps r s p
  | inr (e, recorded) ↦ ap key e
]

-- The point belongs to one of the devices.
abbrev pub of_devices : List Device → Point → Bool
of_devices devices p = any_row (λ d. p.device_id == d.id) devices

not_of_devices :
    (d : Device) (devices : List Device) (p : Point)
    → All (λ e. d.id ≢ e.id) devices
    → (p.device_id == d.id) ≡ true
    → of_devices devices p ≡ false
not_of_devices d [] p h e = refl
not_of_devices d (f ∷ devices) p (n, h) e = ground (arith, not_of_devices d devices p h e)

of_devices-device :
    (devices : List Device) (p q : Point)
    → q.device_id ≡ p.device_id
    → of_devices devices q ≡ of_devices devices p
of_devices-device devices p q e = ap (λ (i : ℕ). any_row (λ d. i == d.id) devices) e

pub sync_devices-sweep :
    (registers : List Register) (devices : List Device) (points : List Point)
    → Distinct (λ d. d.id) devices
    → Distinct (λ p. p.id) points
    → sync_devices registers devices points
      ≡ sweep (λ p. p.id) (sync_point registers) (of_devices devices) points
unfolding sync_devices synced
sync_devices-sweep registers [] points h hs = sym (sweep_none points)
  where
    sweep_none :
        (rows : List Point) → sweep (λ p. p.id) (sync_point registers) (λ p. false) rows ≡ rows
    sweep_none [] = refl
    sweep_none (p ∷ rows) = ap (◌∷◌ p) (sweep_none rows)
sync_devices-sweep registers (d ∷ devices) points (h, hs) k =
    let keeps_id = sync_point-keeps (λ p. p.id) registers (λ r s p. refl) in
    let keeps_device = sync_point-keeps (λ p. p.device_id) registers (λ r s p. refl) in
    let mine = λ (p : Point). p.device_id == d.id in
    ap (sync_devices registers devices)
      (visit_all-sweep (λ p. p.id) (sync_point registers) mine points keeps_id k)
    ∙ sync_devices-sweep registers devices _ hs
        (Distinct-sweep (λ p. p.id) (sync_point registers) (λ p. p.id) keeps_id mine points k)
    ∙ sweep-sweep (λ p. p.id) (sync_point registers) mine (of_devices devices) points
        (λ p e. not_of_devices d devices p h e)
        (λ p q e. of_devices-device devices p q (keeps_device p p q e))
