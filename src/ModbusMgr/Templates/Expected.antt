-- ===== src/ModbusMgr/Templates/Expected.antt =====
-- What a save of a template means for a point, by the last register of its function and number.
use mathlib.Core.Path.{subst}
use rpinode.Dict.{get, put, get-put, code_eq}
use rpinode.ModbusMgr.{
  Register, Point, Float, float_one, float_truthy, or_default, or_one, point_key, register_key,
  map_from, tpl_map,
}
use rpinode.ModbusMgr.Templates.{synced, sync_point}
use rpinode.Rows.Loops.{sweep, kept}
use rpinode.Text.{Text, text_eq, decimal}
use rpinode.Text.Contains.{text_eq_iff}
use rpinode.Text.Decimal.{IsDigit, decimal-IsDigit, decimal-injective}
use rpinode.Prelude.{
  ℕ, ◌≡◌, refl, sym, ◌∙◌, ap, ap₂, Bool, true, false, ◌&&◌, Option, none, some, List, [], ◌∷◌, ◌++◌,
  ◌==◌, inl, inr, arith, All, Bool-cases, if◌then◌else◌,
}

-- The value of a key, or another one.
abbrev pub given {ℓ} : {A : Type ℓ} → Option A → A → A
given none d = d
given (some a) d = a

-- The first of two that is there.
abbrev pub or_else {ℓ} : {A : Type ℓ} → Option A → Option A → Option A
or_else none o = o
or_else (some a) o = some a

-- The last register of a function and a number.
abbrev pub last_register : ℕ → ℕ → List Register → Option Register
last_register function reg [] = none
last_register function reg (r ∷ registers) =
    or_else (last_register function reg registers)
      (if given r.function 3 == function && r.reg == reg then some r else none)

-- A scale that is there and is not 0, or 1.0.
abbrev pub scale_of : Option Float → Float
scale_of none = float_one
scale_of (some f) = if float_truthy f then f else float_one

-- The point with the values of a register.
abbrev pub linked_to : Register → Point → Point
linked_to r p = record {
  id = p.id;
  site_id = p.site_id;
  device_id = p.device_id;
  reg = p.reg;
  function = p.function;
  base = given r.base 0;
  slave_unit = p.slave_unit;
  name = given r.name p.name;
  type = given r.type p.type;
  scale = scale_of r.scale;
  unit = some (given r.unit []);
  is_monitored = p.is_monitored;
  is_recorded = p.is_recorded;
  cadence = p.cadence;
  last_value = p.last_value;
  last_read_ts = p.last_read_ts;
}

-- What becomes of a point with its register, if there is one.
abbrev pub outcome : Point → Option Register → Option Point
outcome p (some r) = some (linked_to r p)
outcome p none = if p.is_recorded then some p else none

-- The point after the save, if it is still there.
abbrev pub expected : List Register → Point → Option Point
expected registers p = outcome p (last_register p.function p.reg registers)

-- What stands before the first colon and behind it is determined.
split_colon :
    (xs us ys vs : Text)
    → All IsDigit xs
    → All IsDigit us
    → xs ++ b':' ∷ ys ≡ us ++ b':' ∷ vs
    → (xs ≡ us) × (ys ≡ vs)
split_colon [] [] ys vs h k e = (refl, cc)
split_colon [] (u ∷ us) ys vs h (k, ks) e =
    let same : b':' ≡ u = cc in absurd (ground (arith, subst IsDigit (sym same) k))
split_colon (x ∷ xs) [] ys vs (h, hs) k e =
    let same : x ≡ b':' = cc in absurd (ground (arith, subst IsDigit same h))
split_colon (x ∷ xs) (u ∷ us) ys vs (h, hs) (k, ks) e =
    let first : x ≡ u = cc in let (rest, behind) = split_colon xs us ys vs hs ks cc in (cc, behind)

point_key-injective : (f g m n : ℕ) → point_key f m ≡ point_key g n → (f ≡ g) × (m ≡ n)
point_key-injective f g m n e =
    let (first, second) =
      split_colon (decimal f) (decimal g) (decimal m) (decimal n) (decimal-IsDigit f)
        (decimal-IsDigit g) e in
    (decimal-injective f g first, decimal-injective m n second)

-- Two keys are the same text exactly when functions and numbers are the same.
same_key : (f g m n : ℕ) → text_eq (point_key f m) (point_key g n) ≡ (f == g && m == n)
same_key f g m n = elim (Bool-cases (f == g && m == n)) [
  | inl same ↦
      let first : f ≡ g = ground arith in
      let second : m ≡ n = ground arith in
      (text_eq_iff _ _).1 (ap₂ point_key first second) ∙ sym same
  | inr differ ↦ elim (Bool-cases (text_eq (point_key f m) (point_key g n))) [
    | inl equal ↦
        let (first, second) = point_key-injective f g m n ((text_eq_iff _ _).0 equal) in
        ground arith
    | inr other ↦ other ∙ sym differ
  ]
]

or_given {ℓ} : {A : Type ℓ} (o : Option A) (d : A) → or_default o d ≡ given o d
or_given none d = refl
or_given (some n) d = refl

or_else_assoc {ℓ} :
    {A : Type ℓ} (a b c : Option A) → or_else a (or_else b c) ≡ or_else (or_else a b) c
or_else_assoc none b c = refl
or_else_assoc (some a) b c = refl

or_else_if {ℓ} :
    {A : Type ℓ} (t : Bool) (a : A) (o : Option A)
    → (if t then some a else o) ≡ or_else (if t then some a else none) o
or_else_if true a o = refl
or_else_if false a o = refl

or_else-none {ℓ} : {A : Type ℓ} (o : Option A) → or_else o none ≡ o
or_else-none none = refl
or_else-none (some a) = refl

get-map_from :
    (f n : ℕ) (registers : List Register) (found : List (Text × Register))
    → get (point_key f n) (map_from registers found)
      ≡ or_else (last_register f n registers) (get (point_key f n) found)
get-map_from f n [] found = refl
get-map_from f n (r ∷ registers) found =
    let key = register_key r in
    let old = get (point_key f n) found in
    let here : text_eq key (point_key f n) ≡ (given r.function 3 == f && r.reg == n) =
      same_key (or_default r.function 3) f r.reg n
      ∙ ap (λ (x : ℕ). x == f && r.reg == n) (or_given r.function 3) in
    get-map_from f n registers (put key r found)
    ∙ ap (or_else (last_register f n registers)) (
        get-put key (point_key f n) r found
        ∙ ap (λ t. if t then some r else old) here
        ∙ or_else_if (given r.function 3 == f && r.reg == n) r old)
    ∙ or_else_assoc (last_register f n registers) _ old

get-tpl_map :
    (f n : ℕ) (registers : List Register)
    → get (point_key f n) (tpl_map registers) ≡ last_register f n registers
unfolding tpl_map get
get-tpl_map f n registers =
    get-map_from f n registers [] ∙ or_else-none (last_register f n registers)

scale_same : (o : Option Float) → or_one (or_default o float_one) ≡ scale_of o
scale_same none = refl
scale_same (some f) = refl

synced-linked_to : (r : Register) (p : Point) → synced r p p ≡ linked_to r p
unfolding synced
synced-linked_to r p = rw (
  or_given r.name p.name,
  or_given r.type p.type,
  scale_same r.scale,
  or_given r.unit [],
  or_given r.base 0,
)

sync_point-outcome :
    (registers : List Register) (p : Point) (o : Option Register)
    → get (point_key p.function p.reg) (tpl_map registers) ≡ o
    → sync_point registers p p ≡ outcome p o
unfolding sync_point
sync_point-outcome registers p none e = rw (e, sync_point) refl
sync_point-outcome registers p (some r) e = rw (e, sync_point) (ap some (synced-linked_to r p))

-- The code on a point that it fetched is the specification.
pub sync_point-expected :
    (registers : List Register) (p : Point) → sync_point registers p p ≡ expected registers p
sync_point-expected registers p =
    sync_point-outcome registers p _ (get-tpl_map p.function p.reg registers)

-- Passes with changes that agree.
pub sweep_same :
    (act other : Point → Point → Option Point) (test : Point → Bool) (rows : List Point)
    → ((p : Point) → act p p ≡ other p p)
    → sweep (λ p. p.id) act test rows ≡ sweep (λ p. p.id) other test rows
sweep_same act other test [] h = refl
sweep_same act other test (p ∷ rows) h =
    let rest = sweep_same act other test rows h in
    elim (Bool-cases (test p)) [
      | inl hit ↦ rw (hit, h p) (ap (kept (λ q. q.id) other (other p p)) rest)
      | inr miss ↦ rw miss (ap (◌∷◌ p) rest)
    ]
