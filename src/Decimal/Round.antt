-- ===== src/Decimal/Round.antt =====
-- Rounding: to the nearest, exact where nothing is cut off, and idle on results of 28 digits.
use native.Mathlib.Nat.{div-add-mod, mod-lt}
use quantlab_v.Prelude.{ℕ, ◌+◌, ◌-◌, ◌*◌, ◌^◌, ◌≤◌, ◌<◌, ◌≡◌, arith, lt→ltb, le→leb}
use quantlab_v.Prelude.Int.{ℤ, pos, negsuc, mag, ◌*ℤ◌}
use quantlab_v.Decimal.{Decimal, div_even, fix, quantize, precision}

-- The rounded quotient is off by half a unit at most, on either side.
pub div_even_nearest :
    (n m : ℕ) → 0 < m → (2 * (div_even n m * m) ≤ 2 * n + m) × (2 * n ≤ 2 * (div_even n m * m) + m)
unfolding div_even
div_even_nearest n m h = grind (arith, div-add-mod n m, mod-lt n h)

-- A result of at most 28 digits is left as it is.
pub fix_small : (d : Decimal) → mag d.coef < 10 ^ precision → fix d ≡ d
unfolding fix
fix_small d h = rw (lt→ltb _ _ h)

pub *ℤ_one : (z : ℤ) → z *ℤ pos 1 ≡ z
unfolding ◌*ℤ◌
*ℤ_one (pos n) = ground arith
*ℤ_one (negsuc n) = ground arith

-- Quantizing to the places that a number has changes nothing.
pub quantize_same :
    (z : ℤ) (k : ℕ) → quantize k (record { coef = z; scale = k }) ≡ record { coef = z; scale = k }
unfolding quantize
quantize_same z k = let e : k - k ≡ 0 = omega arith in rw (le→leb k k (omega arith), e, *ℤ_one z)
