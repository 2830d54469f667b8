-- ===== src/Base/Int.antt =====
-- Go's signed integers: integers over the native numbers, and the wrap-around of int32 and int64.
use mathlib.Core.Path.{◌≡◌}
use mathlib.Core.Bool.{Bool}
use native.Mathlib.Omega.{arith}
use Prim.Native.Nat.{ℕ, suc, ◌+◌, ◌-◌, ◌*◌, ◌%◌, ◌^◌, ◌≤◌}
use mathop_operator.Base.Tests.{ltb, leb, eqb, if◌then◌else◌}

-- `negsuc n` is -(n + 1).
pub data ℤ : Type 0 where
  pos : ℕ → ℤ
  negsuc : ℕ → ℤ

abbrev pub pos_part : ℤ → ℕ
pos_part (pos n) = n
pos_part (negsuc n) = 0

abbrev pub neg_part : ℤ → ℕ
neg_part (pos n) = 0
neg_part (negsuc n) = suc n

-- a - b, as an integer.
abbrev pub sub_ℕ : ℕ → ℕ → ℤ
sub_ℕ a b = if leb b a then pos (a - b) else negsuc (b - a - 1)

infixl 65 ◌+ℤ◌ ◌-ℤ◌
infixl 70 ◌*ℤ◌
infix 50 ◌≤ℤ◌
unfoldable pub ◌+ℤ◌ : ℤ → ℤ → ℤ
a +ℤ b = sub_ℕ (pos_part a + pos_part b) (neg_part a + neg_part b)

unfoldable pub ◌-ℤ◌ : ℤ → ℤ → ℤ
a -ℤ b = sub_ℕ (pos_part a + neg_part b) (neg_part a + pos_part b)

unfoldable pub ◌*ℤ◌ : ℤ → ℤ → ℤ
pos a *ℤ pos b = pos (a * b)
pos a *ℤ negsuc b = sub_ℕ 0 (a * suc b)
negsuc a *ℤ pos b = sub_ℕ 0 (suc a * b)
negsuc a *ℤ negsuc b = pos (suc a * suc b)

abbrev pub ◌≤ℤ◌ : ℤ → ℤ → Type 0
a ≤ℤ b = pos_part a + neg_part b ≤ pos_part b + neg_part a

abbrev pub ltb_ℤ : ℤ → ℤ → Bool
ltb_ℤ a b = ltb (pos_part a + neg_part b) (pos_part b + neg_part a)

abbrev pub leb_ℤ : ℤ → ℤ → Bool
leb_ℤ a b = leb (pos_part a + neg_part b) (pos_part b + neg_part a)

abbrev pub eqb_ℤ : ℤ → ℤ → Bool
eqb_ℤ a b = eqb (pos_part a + neg_part b) (pos_part b + neg_part a)

-- The w-bit pattern of an integer, as a number below 2 ^ w.
abbrev pub bits : ℕ → ℤ → ℕ
bits w (pos n) = n % 2 ^ w
bits w (negsuc n) = 2 ^ w - 1 - n % 2 ^ w

-- The integer that a 32-bit or a 64-bit pattern stands for in two's complement.
abbrev pub signed32 : ℕ → ℤ
signed32 p = if ltb p 0x8000_0000 then pos p else negsuc (0xffff_ffff - p)

abbrev pub signed64 : ℕ → ℤ
signed64 p = if ltb p 0x8000_0000_0000_0000 then pos p else negsuc (0xffff_ffff_ffff_ffff - p)

-- The conversions int32(x) and int64(x).
unfoldable pub to_int32 : ℤ → ℤ
to_int32 x = signed32 (bits 32 x)

unfoldable pub to_int64 : ℤ → ℤ
to_int64 x = signed64 (bits 64 x)

abbrev pub min_int32 : ℤ
min_int32 = negsuc 0x7fff_ffff

abbrev pub max_int32 : ℤ
max_int32 = pos 0x7fff_ffff

pub record InInt32 (x : ℤ) : Type 0 where
  pub above : min_int32 ≤ℤ x
  pub below : x ≤ℤ max_int32

pub to_int32-InInt32 : (x : ℤ) → InInt32 (to_int32 x)
unfolding to_int32
to_int32-InInt32 (pos n) = ground arith
to_int32-InInt32 (negsuc n) = ground arith

pub to_int32_id : (x : ℤ) → InInt32 x → to_int32 x ≡ x
unfolding to_int32
to_int32_id (pos n) h = ground arith
to_int32_id (negsuc n) h = ground arith

-- Truncation to 32 bits after truncation to 64 bits is truncation to 32 bits.
pub bits32-signed64 : (x : ℤ) → bits 32 (to_int64 x) ≡ bits 32 x
unfolding to_int64
bits32-signed64 (pos n) = ground arith
bits32-signed64 (negsuc n) = ground arith

pub to_int32-to_int64 : (x : ℤ) → to_int32 (to_int64 x) ≡ to_int32 x
unfolding to_int32
to_int32-to_int64 x = ap signed32 (bits32-signed64 x)
  where
    ap : (f : ℕ → ℤ) {a b : ℕ} → a ≡ b → f a ≡ f b
    ap f p = λ i. f (p i)
