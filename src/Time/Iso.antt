-- ===== src/Time/Iso.antt =====
-- The order of moments by their texts (`isoformat`), which among moments in UTC is that of time.
use quantlab_v.Prelude.{◌≡◌, arith}
use quantlab_v.Prelude.Int.{◌+ℤ◌}
use quantlab_v.Prelude.Sort.{IsOrder}
use quantlab_v.Time.{DateTime, wall, replace_utc, IsUtc, offset_rank, iso_lt, earlier}

pub iso_lt-IsOrder : IsOrder iso_lt
iso_lt-IsOrder = record { asym = λ x y h. ground arith; trans = λ x y z h k. ground arith }

pub wall-IsUtc : (t : DateTime) → IsUtc t → wall t ≡ t.instant
unfolding wall ◌+ℤ◌
wall-IsUtc t u = ground arith

pub offset_rank-IsUtc : (t : DateTime) → IsUtc t → offset_rank t ≡ 1
unfolding offset_rank
offset_rank-IsUtc t u = rw (u.0, u.1)

pub iso_lt-eq-earlier : (s t : DateTime) → IsUtc s → IsUtc t → iso_lt s t ≡ earlier s t
iso_lt-eq-earlier s t u v =
    ground (arith, wall-IsUtc s u, wall-IsUtc t v, offset_rank-IsUtc s u, offset_rank-IsUtc t v)

-- To put the zone in place of itself changes nothing.
pub replace_utc-IsUtc : (t : DateTime) → IsUtc t → replace_utc t ≡ t
unfolding replace_utc wall ◌+ℤ◌
replace_utc-IsUtc t u = ground arith
