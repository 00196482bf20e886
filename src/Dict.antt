-- ===== src/Dict.antt =====
-- Python's `dict` as a list of its items in the order of insertion. A key that is there keeps its
-- place when its value changes.
use rpinode.Prelude.{
  ℕ, ◌≡◌, refl, ◌↔◌, Bool, true, false, inl, inr, Option, none, some, List, [], ◌∷◌, arith,
  Bool-cases, ==_iff, if◌then◌else◌, All, map,
}
use rpinode.Prelude.{◌==◌ as nat_beq}
use mathlib.Core.Option.{some-injective}
use mathlib.Core.Path.{subst, sym}
use rpinode.Text.{Text, text_eq}
use rpinode.Text.Contains.{text_eq_iff}

pub record Eq {ℓ} (K : Type ℓ) : Type ℓ where
  pub beq : K → K → Bool
  pub beq_iff : (a b : K) → (beq a b ≡ true) ↔ (a ≡ b)

instance abbrev pub nat_eq : Eq ℕ
nat_eq = record { beq = nat_beq; beq_iff = ==_iff }

instance abbrev pub code_eq : Eq Text
code_eq = record { beq = text_eq; beq_iff = text_eq_iff }

module _ {ℓ} {K : Type ℓ} ⦃e : Eq K⦄ where
  beq_refl : (k : K) → e.beq k k ≡ true
  beq_refl k = (e.beq_iff k k).1 refl

  beq_sym : (a b : K) → e.beq a b ≡ false → e.beq b a ≡ false
  beq_sym a b h = ground (arith, e.beq_iff a b, e.beq_iff b a)

module _ {ℓ κ} {K : Type ℓ} {V : Type κ} ⦃e : Eq K⦄ where
  -- `d.get(k)`
  unfoldable pub get : K → List (K × V) → Option V
  get k [] = none
  get k ((j, v) ∷ d) = if e.beq j k then some v else get k d

  -- `d[k] = v`
  unfoldable pub put : K → V → List (K × V) → List (K × V)
  put k v [] = (k, v) ∷ []
  put k v ((j, w) ∷ d) = if e.beq j k then (j, v) ∷ d else (j, w) ∷ put k v d

  pub get-put_self : (k : K) (v : V) (d : List (K × V)) → get k (put k v d) ≡ some v
  unfolding get put
  get-put_self k v [] = rw (beq_refl k)
  get-put_self k v ((j, w) ∷ d) = elim (Bool-cases (e.beq j k)) [
    | inl same ↦ rw (same, same)
    | inr other ↦ rw (other, other) (get-put_self k v d)
  ]

  pub get-put :
      (k j : K) (v : V) (d : List (K × V))
      → get j (put k v d) ≡ (if e.beq k j then some v else get j d)
  unfolding get put
  get-put k j v [] = refl
  get-put k j v ((i, w) ∷ d) =
      ground (arith, e.beq_iff k j, e.beq_iff i k, e.beq_iff i j, get-put k j v d)

  abbrev pub keys : List (K × V) → List K
  keys = map (λ p. p.0)

  -- No key stands twice.
  abbrev pub NoTwice : List (K × V) → Type ℓ
  NoTwice [] = Unit
  NoTwice ((k, v) ∷ d) = All (λ p. e.beq p.0 k ≡ false) d × NoTwice d

  All-put :
      (i k : K) (v : V) (d : List (K × V))
      → e.beq k i ≡ false
      → All (λ p. e.beq p.0 i ≡ false) d
      → All (λ p. e.beq p.0 i ≡ false) (put k v d)
  unfolding put
  All-put i k v [] h hs = (h, tt)
  All-put i k v ((j, w) ∷ d) h (g, hs) = elim (Bool-cases (e.beq j k)) [
    | inl same ↦ rw same (g, hs)
    | inr other ↦ rw other (g, All-put i k v d h hs)
  ]

  pub NoTwice-put : (k : K) (v : V) (d : List (K × V)) → NoTwice d → NoTwice (put k v d)
  unfolding put
  NoTwice-put k v [] h = (tt, tt)
  NoTwice-put k v ((j, w) ∷ d) (h, hs) = elim (Bool-cases (e.beq j k)) [
    | inl same ↦ rw same (h, hs)
    | inr other ↦ rw other (All-put j k v d (beq_sym j k other) h, NoTwice-put k v d hs)
  ]

  -- What holds of every item and of a new one holds after the new one is put.
  pub All-put_item {μ} :
      (P : K × V → Type μ) (k : K) (v : V) (d : List (K × V))
      → P (k, v)
      → All P d
      → All P (put k v d)
  unfolding put
  All-put_item P k v [] h hs = (h, tt)
  All-put_item P k v ((j, w) ∷ d) h (g, hs) = elim (Bool-cases (e.beq j k)) [
    | inl same ↦ rw same (subst (λ i. P (i, v)) (sym ((e.beq_iff j k).0 same)) h, hs)
    | inr other ↦ rw other (g, All-put_item P k v d h hs)
  ]

  -- What holds of every item holds of the one that is got.
  pub get-All {μ} :
      (P : K × V → Type μ) (k : K) (v : V) (d : List (K × V))
      → All P d
      → get k d ≡ some v
      → P (k, v)
  unfolding get
  get-All P k v [] hs h = cc
  get-All P k v ((j, w) ∷ d) (g, hs) h = elim (Bool-cases (e.beq j k)) [
    | inl same ↦
        let found : w ≡ v = some-injective w v (rw same at h) in
        subst (λ i. P (i, v)) ((e.beq_iff j k).0 same) (subst (λ x. P (j, x)) found g)
    | inr other ↦ get-All P k v d hs (rw other at h)
  ]
