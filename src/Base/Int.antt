-- ===== src/Base/Int.antt =====
-- Signed integers over the native numbers; `negsuc n` is -(n + 1).
use Prim.Native.Nat.{ℕ, suc}
use mathlib.Core.Bool.{Bool, true, false}
use arcade_launcher_stream_e.Base.Tests.{ltb}

pub data ℤ : Type 0 where
  pos : ℕ → ℤ
  negsuc : ℕ → ℤ

-- The absolute value.
abbrev pub magnitude : ℤ → ℕ
magnitude (pos n) = n
magnitude (negsuc n) = suc n

-- a < b for the signed integer a and the number b
abbrev pub below : ℤ → ℕ → Bool
below (pos n) b = ltb n b
below (negsuc n) b = true

-- b < a for the signed integer a and the number b
abbrev pub above : ℤ → ℕ → Bool
above (pos n) b = ltb b n
above (negsuc n) b = false
