-- ===== src/Data/Fundamentals/Order.antt =====
-- The order of the query for a value: among rows in UTC, that of the periods and of time.
use quantlab_v.Prelude.{
  ◌≤◌, ◌≡◌, refl, sym, ◌∙◌, ◌⊎◌, inl, inr, true, false, Option, none, some, arith, Bool-cases,
}
use quantlab_v.Prelude.Sort.{IsOrder}
use quantlab_v.Time.{Date, IsUtc, date_lt, same_date, iso_lt}
use quantlab_v.Time.Iso.{iso_lt-IsOrder, iso_lt-eq-earlier}
use quantlab_v.Data.Fundamentals.{FundamentalValue, is_newer, is_period}

pub is_newer-IsOrder : (p : Option Date) → IsOrder (is_newer p)
is_newer-IsOrder (some p) = record {
  asym = λ x y h. iso_lt-IsOrder.asym y.available_at x.available_at h;
  trans = λ x y z h k. iso_lt-IsOrder.trans z.available_at y.available_at x.available_at k h;
}
is_newer-IsOrder none = record { asym = λ x y h. ground arith; trans = λ x y z h k. ground arith }

-- A period is the one that is asked for, if one is.
abbrev pub IsPeriod : Option Date → Date → Type 0
IsPeriod none d = Unit
IsPeriod (some p) d = d ≡ p

-- The row is of an earlier period than the other, or of the same and available no later.
abbrev pub IsNoNewer : FundamentalValue → FundamentalValue → Type 0
IsNoNewer x r =
    (date_lt x.period_end r.period_end ≡ true)
    ⊎ ((x.period_end ≡ r.period_end) × (x.available_at.instant ≤ r.available_at.instant))

same_date→eq : (a b : Date) → same_date a b ≡ true → a ≡ b
same_date→eq a b h = ground arith

date_eq_of : (a b : Date) → date_lt a b ≡ false → date_lt b a ≡ false → a ≡ b
date_eq_of a b h k = ground arith

pub is_period→IsPeriod : (p : Option Date) (d : Date) → is_period p d ≡ true → IsPeriod p d
is_period→IsPeriod none d h = tt
is_period→IsPeriod (some p) d h = same_date→eq d p h

pub IsPeriod→is_period : (p : Option Date) (d : Date) → IsPeriod p d → is_period p d ≡ true
IsPeriod→is_period none d h = refl
IsPeriod→is_period (some p) d h = ground arith

not_later :
    (x r : FundamentalValue)
    → IsUtc x.available_at
    → IsUtc r.available_at
    → iso_lt r.available_at x.available_at ≡ false
    → x.available_at.instant ≤ r.available_at.instant
not_later x r u v h = ground (arith, sym (iso_lt-eq-earlier r.available_at x.available_at v u) ∙ h)

-- Among rows of the period that is asked for, the order of the query is that of period and time.
pub is_newer-IsNoNewer :
    (p : Option Date) (x r : FundamentalValue)
    → IsUtc x.available_at
    → IsUtc r.available_at
    → IsPeriod p x.period_end
    → IsPeriod p r.period_end
    → is_newer p x r ≡ false
    → IsNoNewer x r
is_newer-IsNoNewer (some p) x r u v a b h = inr (a ∙ sym b, not_later x r u v h)
is_newer-IsNoNewer none x r u v a b h = elim (Bool-cases (date_lt x.period_end r.period_end)) [
  | inl e ↦ inl e
  | inr e ↦
      let (k, l) = parts e in inr (date_eq_of x.period_end r.period_end e k, not_later x r u v l)
]
  where
    parts :
        date_lt x.period_end r.period_end ≡ false
        → (date_lt r.period_end x.period_end ≡ false)
          × (iso_lt r.available_at x.available_at ≡ false)
    parts e = ground (arith, h, e)
