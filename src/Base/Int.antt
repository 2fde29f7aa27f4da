-- ===== src/Base/Int.antt =====
-- Signed integers over the native numbers, for Go's `int`, `int16` and `int32`, with the
-- conversions to and from two's complement words.
use Prim.Native.Nat.{ℕ, suc, ◌+◌, ◌-◌, ◌%◌, ◌≤◌, ◌<◌}
use mathlib.Core.Path.{◌≡◌}
use mathlib.Core.Bool.{Bool, true, false}
use native.Mathlib.Omega.{arith}
use ele_bbs_go.Base.Tests.{ltb, leb, ◌==◌, ==_refl, if◌then◌else◌}

-- `negsuc n` is -(n + 1).
pub data ℤ : Type 0 where
  pos : ℕ → ℤ
  negsuc : ℕ → ℤ

abbrev pub pos_part : ℤ → ℕ
pos_part (pos n) = n
pos_part (negsuc n) = 0

abbrev pub neg_part : ℤ → ℕ
neg_part (pos n) = 0
neg_part (negsuc n) = suc n

abbrev pub sub_ℕ : ℕ → ℕ → ℤ
sub_ℕ a b = if leb b a then pos (a - b) else negsuc (b - a - 1)

infixl 65 ◌+ℤ◌ ◌-ℤ◌
infix 50 ◌≤ℤ◌
unfoldable pub ◌+ℤ◌ : ℤ → ℤ → ℤ
a +ℤ b = sub_ℕ (pos_part a + pos_part b) (neg_part a + neg_part b)

unfoldable pub ◌-ℤ◌ : ℤ → ℤ → ℤ
a -ℤ b = sub_ℕ (pos_part a + neg_part b) (neg_part a + pos_part b)

abbrev pub ◌≤ℤ◌ : ℤ → ℤ → Type 0
a ≤ℤ b = pos_part a + neg_part b ≤ pos_part b + neg_part a

abbrev pub ℤ_eq : ℤ → ℤ → Bool
ℤ_eq (pos a) (pos b) = a == b
ℤ_eq (negsuc a) (negsuc b) = a == b
ℤ_eq _ _ = false

pub ℤ_eq_refl : (c : ℤ) → ℤ_eq c c ≡ true
ℤ_eq_refl (pos n) = ==_refl n
ℤ_eq_refl (negsuc n) = ==_refl n

abbrev pub ltb_ℤ : ℤ → ℤ → Bool
ltb_ℤ a b = ltb (pos_part a + neg_part b) (pos_part b + neg_part a)

-- The bit pattern of the low 16 or 32 bits: Go's `uint16(v)` and `uint32(v)`.
abbrev pub to_u16 : ℤ → ℕ
to_u16 (pos n) = n % 65536
to_u16 (negsuc n) = 65535 - n % 65536

abbrev pub to_u32 : ℤ → ℕ
to_u32 (pos n) = n % 4294967296
to_u32 (negsuc n) = 4294967295 - n % 4294967296

-- The signed reading of a bit pattern: Go's `int16(w)` and `int32(w)`.
abbrev pub from_u16 : ℕ → ℤ
from_u16 w = if ltb w 32768 then pos w else negsuc (65535 - w)

abbrev pub from_u32 : ℕ → ℤ
from_u32 w = if ltb w 2147483648 then pos w else negsuc (4294967295 - w)

abbrev pub IsI16 : ℤ → Type 0
IsI16 (pos n) = n < 32768
IsI16 (negsuc n) = n < 32768

abbrev pub IsI32 : ℤ → Type 0
IsI32 (pos n) = n < 2147483648
IsI32 (negsuc n) = n < 2147483648

pub from_u16-to_u16 : (v : ℤ) → IsI16 v → from_u16 (to_u16 v) ≡ v
from_u16-to_u16 (pos n) h = ground arith
from_u16-to_u16 (negsuc n) h = ground arith

pub from_u32-to_u32 : (v : ℤ) → IsI32 v → from_u32 (to_u32 v) ≡ v
from_u32-to_u32 (pos n) h = ground arith
from_u32-to_u32 (negsuc n) h = ground arith
