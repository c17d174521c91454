-- ===== src/Decimal.antt =====
-- `decimal.Decimal` of Python's standard library, in the default context of 28 digits with
-- rounding to even, for what the program uses: finite numbers, literals, comparison, `+ - * /`,
-- `quantize`, `math.floor` and `abs`. A number is `coef` / 10 ^ `scale`. Python's exponent may
-- also be positive; such a value is kept here with scale 0. A zero has no sign, trailing zeros
-- that a division strips are kept, and `quantize` past 28 digits, which raises, is out of the
-- model: none of these changes a comparison or a sum of values in range.
pub mod Order
pub mod Round
pub mod Cents
use quantlab_v.Prelude.{
  ℕ, zero, suc, ◌+◌, ◌-◌, ◌*◌, ◌/◌, ◌%◌, ◌^◌, max, Bool, true, false, not, ltb, leb, ◌==◌,
  if◌then◌else◌,
}
use quantlab_v.Prelude.Int
use quantlab_v.Prelude.Int.{ℤ, pos, negsuc, pos_part, neg_part, mag, ◌+ℤ◌, ◌*ℤ◌}
use quantlab_v.Prelude.Result.{Result, ok, err, zero_division}

pub record Decimal : Type 0 where
  pub coef : ℤ
  pub scale : ℕ

-- `Decimal("c.ss")`, by its digits and the number of those behind the point
abbrev pub dec : ℕ → ℕ → Decimal
dec c s = record { coef = pos c; scale = s }

-- `Decimal("0.0")`
abbrev pub nought : Decimal
nought = dec 0 0

abbrev pub of_ℤ : ℤ → Decimal
of_ℤ z = record { coef = z; scale = 0 }

-- the sides of a comparison at a common scale
unfoldable pub left : Decimal → Decimal → ℕ
left a b = pos_part a.coef * 10 ^ b.scale + neg_part b.coef * 10 ^ a.scale

unfoldable pub right : Decimal → Decimal → ℕ
right a b = pos_part b.coef * 10 ^ a.scale + neg_part a.coef * 10 ^ b.scale

-- `a < b`
unfoldable pub lt : Decimal → Decimal → Bool
unfolding left right
lt a b = ltb (left a b) (right a b)

-- `a <= b`
abbrev pub le : Decimal → Decimal → Bool
le a b = not (lt b a)

-- `a == b`
abbrev pub eq : Decimal → Decimal → Bool
eq a b = if lt a b then false else not (lt b a)

-- `round(n / m)`, a tie to the even neighbour
unfoldable pub div_even : ℕ → ℕ → ℕ
div_even n m =
    let q = n / m in
    let r = n % m in if ltb (2 * r) m then q else if ltb m (2 * r) then q + 1 else q + q % 2

-- a function of the magnitude, with the sign kept
unfoldable pub on_mag : (ℕ → ℕ) → ℤ → ℤ
on_mag f (pos n) = pos (f n)
on_mag f (negsuc n) = Int.neg (pos (f (suc n)))

-- the number of decimal digits; the fuel is never used up at n ≤ fuel
count_digits : ℕ → ℕ → ℕ
count_digits zero n = 0
count_digits (suc fuel) n = elim (n == 0) [ true ↦ 0 | false ↦ suc (count_digits fuel (n / 10)) ]

pub digits : ℕ → ℕ
unfolding count_digits
digits n = count_digits n n

abbrev pub precision : ℕ
precision = 28

-- The context's rounding of an exact result to 28 digits.
unfoldable pub fix : Decimal → Decimal
unfolding digits div_even on_mag
fix d =
    let excess = digits (mag d.coef) - precision in
    let rounded = on_mag (λ n. div_even n (10 ^ excess)) d.coef in
    if ltb (mag d.coef) (10 ^ precision)
    then d
    else record { coef = rounded *ℤ pos (10 ^ (excess - d.scale)); scale = d.scale - excess }

-- `a + b`
unfoldable pub add : Decimal → Decimal → Decimal
add a b =
    let s = max a.scale b.scale in
    fix (record {
      coef = a.coef *ℤ pos (10 ^ (s - a.scale)) +ℤ b.coef *ℤ pos (10 ^ (s - b.scale));
      scale = s;
    })

-- `-a`
unfoldable pub neg : Decimal → Decimal
neg a = fix (record { coef = Int.neg a.coef; scale = a.scale })

-- `a - b`
unfoldable pub sub : Decimal → Decimal → Decimal
unfolding add
sub a b = add a (record { coef = Int.neg b.coef; scale = b.scale })

-- `a * b`
unfoldable pub mul : Decimal → Decimal → Decimal
mul a b = fix (record { coef = a.coef *ℤ b.coef; scale = a.scale + b.scale })

-- `abs(a)`
unfoldable pub abs : Decimal → Decimal
abs a = fix (record { coef = pos (mag a.coef); scale = a.scale })

-- `a.quantize(Decimal(1).scaleb(-k))`, also `round(a, k)` and the value of `f"{a:.{k}f}"`
unfoldable pub quantize : ℕ → Decimal → Decimal
unfolding div_even on_mag
quantize k a =
    let wider = a.coef *ℤ pos (10 ^ (k - a.scale)) in
    let rounded = on_mag (λ n. div_even n (10 ^ (a.scale - k))) a.coef in
    if leb a.scale k
    then record { coef = wider; scale = k }
    else record { coef = rounded; scale = k }

-- The quotient, for a divisor that is not zero. Of an inexact quotient one more digit than the
-- precision is kept, moved off a tie, and then rounded.
unfoldable pub quotient : Decimal → Decimal → Decimal
unfolding digits
quotient a b =
    let up = digits (mag b.coef) + (precision + 1) - digits (mag a.coef) in
    let down = digits (mag a.coef) - (digits (mag b.coef) + (precision + 1)) in
    let n = mag a.coef * 10 ^ up in
    let m = mag b.coef * 10 ^ down in
    let q = n / m in
    let kept = if n % m == 0 then q else if q % 5 == 0 then q + 1 else q in
    let sign = if leb (neg_part a.coef) 0 then pos 1 else negsuc 0 in
    let sign_b = if leb (neg_part b.coef) 0 then pos 1 else negsuc 0 in
    let places = a.scale + up in
    let taken = b.scale + down in
    fix (record {
      coef = sign *ℤ sign_b *ℤ pos (kept * 10 ^ (taken - places));
      scale = places - taken;
    })

-- `a / b`
unfoldable pub div : Decimal → Decimal → Result Decimal
unfolding quotient
div a b = if mag b.coef == 0 then err zero_division else ok (quotient a b)

-- `math.floor(a)`
unfoldable pub floor : Decimal → ℤ
floor a = elim a.coef [ pos n ↦ pos (n / 10 ^ a.scale) | negsuc n ↦ negsuc (n / 10 ^ a.scale) ]

-- `max(a, b)` and `min(a, b)`: of two equal values the first
unfoldable pub max_of : Decimal → Decimal → Decimal
max_of a b = if lt a b then b else a

unfoldable pub min_of : Decimal → Decimal → Decimal
min_of a b = if lt b a then b else a
