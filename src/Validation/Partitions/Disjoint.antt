-- ===== src/Validation/Partitions/Disjoint.antt =====
-- A scheme that is accepted has partitions that do not overlap.
use quantlab_v.Prelude.{◌<◌, ◌≡◌, inl, inr, false, List, [], ◌∷◌, arith, Bool-cases, All}
use quantlab_v.Prelude.Result.{ok, >>=-eq-ok}
use quantlab_v.Prelude.Sort.{sort_by, sort_by-All}
use quantlab_v.Time.{IsDate, date_lt, date_le, to_ordinal}
use quantlab_v.Time.Days.{date_le→le, date_gt→gt}
use quantlab_v.Validation.Partitions.{TimePartition, starts_before, no_overlap, new_scheme}

-- A partition as `TimePartition` accepts it, with dates that exist.
abbrev pub IsPartition : TimePartition → Type 0
IsPartition p = IsDate p.start_date × IsDate p.end_date × (date_lt p.end_date p.start_date ≡ false)

abbrev pub Ends : TimePartition → List TimePartition → Type 0
Ends p ps = All (λ (q : TimePartition). to_ordinal p.end_date < to_ordinal q.start_date) ps

-- Each partition ends before every later one starts.
abbrev pub IsDisjoint : List TimePartition → Type 0
IsDisjoint [] = Unit
IsDisjoint (p ∷ ps) = Ends p ps × IsDisjoint ps

Ends-after :
    (p q : TimePartition) (ps : List TimePartition)
    → IsPartition q
    → to_ordinal p.end_date < to_ordinal q.start_date
    → Ends q ps
    → Ends p ps
Ends-after p q [] v l h = tt
Ends-after p q (r ∷ rs) v l h =
    let inner = date_le→le q.start_date q.end_date v.0 v.1 (rw v.2) in
    (omega arith, Ends-after p q rs v l h.1)

no_overlap-IsDisjoint :
    (ps : List TimePartition) → All IsPartition ps → no_overlap ps ≡ ok tt → IsDisjoint ps
unfolding no_overlap
no_overlap-IsDisjoint [] v h = tt
no_overlap-IsDisjoint (p ∷ []) v h = (tt, tt)
no_overlap-IsDisjoint (p ∷ q ∷ ps) v h = elim (Bool-cases (date_le q.start_date p.end_date)) [
  | inl e ↦ absurd (cc (rw e at h))
  | inr e ↦
      let rest = no_overlap-IsDisjoint (q ∷ ps) v.1 (rw e at h) in
      let l = date_gt→gt q.start_date p.end_date v.1.0.0 v.0.1 e in
      ((l, Ends-after p q ps v.1.0 l rest.0), rest)
]

-- For partitions with dates that exist and that end no earlier than they start: in order of their
-- starts, the partitions of an accepted scheme end each before the next begins,
-- and before all that follow; the scheme holds the partitions that were given.
pub new_scheme-IsDisjoint :
    (ps : List TimePartition) {scheme : List TimePartition}
    → All IsPartition ps
    → new_scheme ps ≡ ok scheme
    → (scheme ≡ ps) × IsDisjoint (sort_by starts_before ps)
unfolding new_scheme
new_scheme-IsDisjoint ps v h =
    let (u, e, k) = >>=-eq-ok (no_overlap (sort_by starts_before ps)) _ h in
    (
      cc k,
      no_overlap-IsDisjoint (sort_by starts_before ps) (sort_by-All starts_before IsPartition ps v)
          e,
    )
