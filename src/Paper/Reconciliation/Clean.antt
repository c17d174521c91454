-- ===== src/Paper/Reconciliation/Clean.antt =====
-- Reconciliation: a book agrees with itself, and whole-share books that agree are the same.
use quantlab_v.Prelude.{ℕ, ◌-◌, ◌^◌, ◌<◌, max, ◌≡◌, refl, ◌↔◌, true, false, List, [], ◌∷◌, arith}
use quantlab_v.Prelude.Int
use quantlab_v.Prelude.Int.{ℤ, pos, ◌+ℤ◌, +ℤ_parts, neg_parts, eq_of_parts}
use quantlab_v.Prelude.Dict.{Dict}
use quantlab_v.Time.{DateTime}
use quantlab_v.Decimal.{Decimal, nought, precision, sub, add, abs, lt}
use quantlab_v.Decimal.Order.{not_lt_trans}
use quantlab_v.Decimal.Round.{fix_small, *ℤ_one}
use quantlab_v.Paper.Adapter.{BrokerAccount, held}
use quantlab_v.Paper.Reconciliation.{
  TradeBreak, no_severity, cash_breaks, position_breaks, all_position_breaks, all_instruments,
  worst, reconcile, is_empty,
}

-- The report of a severity: none exactly if there is no break.
pub worst-no_severity : (bs : List TradeBreak) → (worst bs ≡ no_severity) ↔ (is_empty bs ≡ true)
unfolding worst
worst-no_severity [] = (λ h. refl, λ h. refl)
worst-no_severity (b ∷ bs) = (λ h. ground arith, λ h. ground arith)

negate_self : (z : ℤ) → z +ℤ Int.neg z ≡ pos 0
negate_self z =
    omega (arith, +ℤ_parts z (Int.neg z), neg_parts z, eq_of_parts (z +ℤ Int.neg z) (pos 0))

zero_small : 0 < 10 ^ precision
zero_small = omega arith

-- The difference of a number and itself is a zero.
difference_self : (d : Decimal) → abs (sub d d) ≡ record { coef = pos 0; scale = d.scale }
unfolding abs sub add
difference_self d =
    let m : max d.scale d.scale ≡ d.scale = omega arith in
    let z : d.scale - d.scale ≡ 0 = omega arith in
    let nil : Decimal = record { coef = pos 0; scale = d.scale } in
    rw (m, z, *ℤ_one d.coef, *ℤ_one (Int.neg d.coef), negate_self d.coef, fix_small nil zero_small)
      (fix_small nil zero_small)

not_positive : (s : ℕ) → lt nought (record { coef = pos 0; scale = s }) ≡ false
unfolding lt
not_positive s = ground arith

position_breaks_self : (i : ℕ) (q : Decimal) → position_breaks i q q ≡ []
unfolding position_breaks
position_breaks_self i q = rw (difference_self q, not_positive q.scale)

all_position_breaks_self : (is : List ℕ) (b : Dict Decimal) → all_position_breaks is b b ≡ []
unfolding all_position_breaks
all_position_breaks_self [] b = refl
all_position_breaks_self (i ∷ is) b =
    rw (position_breaks_self i (held i b)) (all_position_breaks_self is b)

cash_breaks_self :
    (cash tolerance : Decimal) → lt tolerance nought ≡ false → cash_breaks cash cash tolerance ≡ []
unfolding cash_breaks
cash_breaks_self cash tolerance h =
    let nil : Decimal = record { coef = pos 0; scale = cash.scale } in
    rw (difference_self cash, not_lt_trans tolerance nought nil h (not_positive cash.scale))

-- A book that agrees with the broker's, checked with a tolerance that is not negative, has a clean
-- report without a break.
pub reconcile_self :
    (account : BrokerAccount) (tolerance : Decimal) (now : DateTime)
    → lt tolerance nought ≡ false
    → let r = reconcile account.cash_balance account.positions account tolerance now in
      (r.is_clean ≡ true) × (r.breaks ≡ []) × (r.max_severity ≡ no_severity)
unfolding reconcile
reconcile_self account tolerance now h =
    let none_in_cash = cash_breaks_self account.cash_balance tolerance h in
    let none_in_positions =
      all_position_breaks_self (all_instruments account.positions account.positions)
        account.positions in
    rw (none_in_cash, none_in_positions) (refl, refl, refl)
