-- ===== src/Decimal/Order.antt =====
-- The comparison of decimals is the order of the numbers they stand for: total, transitive, and
-- blind to trailing zeros.
use native.Mathlib.Nat.{pow-suc, mul-le-mul_right, le_of_mul-le-mul_right}
use quantlab_v.Prelude.{
  ℕ, zero, suc, ◌+◌, ◌*◌, ◌^◌, ◌≤◌, ◌<◌, ◌≡◌, inl, inr, true, false, arith, Bool-cases, ltb→lt,
  ltb_false→le,
}
use quantlab_v.Prelude.Int.{pos_part, neg_part}
use quantlab_v.Decimal.{Decimal, left, right, lt, max_of, min_of}

-- `10 ^ n` is positive.
pub pow_pos : (n : ℕ) → 0 < 10 ^ n
pow_pos zero = omega arith
pow_pos (suc n) = omega (arith, pow_pos n, pow-suc 10 n)

-- `a < b` and `a ≤ b` as orders of natural numbers.
pub lt→left-lt-right : (a b : Decimal) → lt a b ≡ true → left a b < right a b
unfolding lt
lt→left-lt-right a b h = ltb→lt _ _ h

pub not_lt→right-le-left : (a b : Decimal) → lt a b ≡ false → right a b ≤ left a b
unfolding lt
not_lt→right-le-left a b h = ltb_false→le _ _ h

pub left-swap : (a b : Decimal) → left b a ≡ right a b
unfolding left right
left-swap a b = omega arith

pub le→not_lt : (a b : Decimal) → right a b ≤ left a b → lt a b ≡ false
unfolding lt
le→not_lt a b h = ground (arith, h)

pub lt_asym : (a b : Decimal) → lt a b ≡ true → lt b a ≡ false
lt_asym a b h = le→not_lt b a (omega (arith, lt→left-lt-right a b h, left-swap a b, left-swap b a))

pub lt_irrefl : (a : Decimal) → lt a a ≡ false
lt_irrefl a = le→not_lt a a (omega (arith, left-swap a a))

-- The two inequalities, each multiplied by the third scale, add up; then the middle scale cancels.
cross :
    (p n p' n' q m x y z : ℕ)
    → 0 < y
    → p' * x + n * y ≤ p * y + n' * x
    → q * y + n' * z ≤ p' * z + m * y
    → q * x + n * z ≤ p * z + m * x
cross p n p' n' q m x y z hy h k =
    let hz : (p' * x + n * y) * z ≤ (p * y + n' * x) * z = mul-le-mul_right z h in
    let kx : (q * y + n' * z) * x ≤ (p' * z + m * y) * x = mul-le-mul_right x k in
    let s : (q * x + n * z) * y ≤ (p * z + m * x) * y = omega (arith, hz, kx) in
    le_of_mul-le-mul_right s hy

-- If `b` is at most `a` and `c` is at most `b` then `c` is at most `a`.
pub not_lt_trans : (a b c : Decimal) → lt a b ≡ false → lt b c ≡ false → lt a c ≡ false
unfolding left right
not_lt_trans a b c h k = le→not_lt a c (
    cross (pos_part a.coef) (neg_part a.coef) (pos_part b.coef) (neg_part b.coef) (pos_part c.coef)
      (neg_part c.coef) (10 ^ a.scale) (10 ^ b.scale) (10 ^ c.scale) (pow_pos b.scale)
      (not_lt→right-le-left a b h) (not_lt→right-le-left b c k))

-- What is not below the larger of two is below neither.
pub not_lt-max_of :
    (h a b : Decimal) → lt h (max_of a b) ≡ false → (lt h a ≡ false) × (lt h b ≡ false)
unfolding max_of
not_lt-max_of h a b e = elim (Bool-cases (lt a b)) [
  | inl k ↦
      let above : lt h b ≡ false = rw (k, max_of) at e in
      (not_lt_trans h b a above (lt_asym a b k), above)
  | inr k ↦ let above : lt h a ≡ false = rw (k, max_of) at e in (above, not_lt_trans h a b above k)
]

-- What the smaller of two is not below, neither is.
pub not_lt-min_of :
    (l a b : Decimal) → lt (min_of a b) l ≡ false → (lt a l ≡ false) × (lt b l ≡ false)
unfolding min_of
not_lt-min_of l a b e = elim (Bool-cases (lt b a)) [
  | inl k ↦
      let below : lt b l ≡ false = rw (k, min_of) at e in
      (not_lt_trans a b l (lt_asym b a k) below, below)
  | inr k ↦ let below : lt a l ≡ false = rw (k, min_of) at e in (below, not_lt_trans b a l k below)
]
