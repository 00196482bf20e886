-- ===== src/Prelude/Int.antt =====
-- Integers over the native natural numbers: `negsuc n` is -(n + 1).
use Prim.Native.Nat.{ℕ, max, min}

pub data ℤ : Type 0 where
  pos negsuc : ℕ → ℤ

-- `max(lo, min(hi, z))` between bounds that are natural numbers.
abbrev pub clamp : ℕ → ℕ → ℤ → ℕ
clamp lo hi (pos n) = max lo (min hi n)
clamp lo hi (negsuc n) = lo
