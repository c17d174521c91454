-- ===== src/Decimal/Cents.antt =====
-- Amounts in whole cents: sums of them are exact.
use quantlab_v.Prelude.{◌^◌, ◌<◌, ◌≡◌}
use quantlab_v.Prelude.Int.{ℤ, mag, ◌+ℤ◌}
use quantlab_v.Decimal.{Decimal, add, quantize, precision}
use quantlab_v.Decimal.Round.{fix_small, quantize_same, *ℤ_one}

-- `z` cents
abbrev pub cents : ℤ → Decimal
cents z = record { coef = z; scale = 2 }

pub add-cents : (x y : ℤ) → mag (x +ℤ y) < 10 ^ precision → add (cents x) (cents y) ≡ cents (x +ℤ y)
unfolding add
add-cents x y h = rw (*ℤ_one x, *ℤ_one y) (fix_small (cents (x +ℤ y)) h)

-- A balance and an amount in cents give a balance in cents.
pub quantize-add-cents :
    (x y : ℤ)
    → mag (x +ℤ y) < 10 ^ precision
    → quantize 2 (add (cents x) (cents y)) ≡ cents (x +ℤ y)
quantize-add-cents x y h = rw (add-cents x y h) (quantize_same (x +ℤ y) 2)
