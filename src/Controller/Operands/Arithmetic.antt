-- ===== src/Controller/Operands/Arithmetic.antt =====
-- The int32 arithmetic of AddReconciler, SubtractReconciler and SquareReconciler.
use mathop_operator.Base.{◌≡◌, ◌∙◌, arith, ◌≤◌, suc}
use native.Mathlib.Nat.{mul-le-mul}
use mathop_operator.Base.Int.{
  ◌≤ℤ◌, ℤ, ◌+ℤ◌, ◌-ℤ◌, ◌*ℤ◌, to_int32, InInt32, to_int32-InInt32, to_int32_id, to_int32-to_int64,
  negsuc, ◌≤ℤ◌, pos,
}
use mathop_operator.Controller.Operands.{add_int32, sub_int32}
use mathop_operator.Controller.Square.{square_int32}

-- A sum is an int32, and it is the sum of the integers where that is an int32.
pub add_int32_exact :
    (x y : ℤ) → InInt32 (add_int32 x y) × (InInt32 (x +ℤ y) → add_int32 x y ≡ x +ℤ y)
unfolding add_int32
add_int32_exact x y = (to_int32-InInt32 (x +ℤ y), to_int32_id (x +ℤ y))

-- What a subtraction takes away, an addition had added, also where the addition wrapped around.
pub sub_int32-add_int32 : (x y : ℤ) → InInt32 x → InInt32 y → sub_int32 (add_int32 x y) y ≡ x
unfolding add_int32 sub_int32 to_int32 ◌+ℤ◌ ◌-ℤ◌
sub_int32-add_int32 (pos a) (pos b) hx hy = ground arith
sub_int32-add_int32 (pos a) (negsuc b) hx hy = ground arith
sub_int32-add_int32 (negsuc a) (pos b) hx hy = ground arith
sub_int32-add_int32 (negsuc a) (negsuc b) hx hy = ground arith

-- The square is taken in int64 first; the result is that of the integers, wrapped to int32 once.
pub square_int32_once : (x : ℤ) → square_int32 x ≡ to_int32 (x *ℤ x)
unfolding square_int32
square_int32_once x = to_int32-to_int64 (x *ℤ x)

-- The squares of the int64 numbers of at most 46340 in size are exact.
pub square_int32_exact : (x : ℤ) → negsuc 46339 ≤ℤ x → x ≤ℤ pos 46340 → square_int32 x ≡ x *ℤ x
unfolding ◌*ℤ◌
square_int32_exact x low high = square_int32_once x ∙ to_int32_id (x *ℤ x) (in_range x low high)
  where
    in_range : (x : ℤ) → negsuc 46339 ≤ℤ x → x ≤ℤ pos 46340 → InInt32 (x *ℤ x)
    in_range (pos a) low high =
        let h : a ≤ 46340 = omega (arith, high) in ground (arith, mul-le-mul h h)
    in_range (negsuc a) low high =
        let h : suc a ≤ 46340 = omega (arith, low) in ground (arith, mul-le-mul h h)
