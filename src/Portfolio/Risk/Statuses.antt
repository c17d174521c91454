-- ===== src/Portfolio/Risk/Statuses.antt =====
-- The status of a decision: no constraint rejects, and one that adjusts shows.
use quantlab_v.Prelude.{
  ◌≡◌, refl, ◌⊎◌, inl, inr, true, false, List, [], ◌∷◌, map, any, arith, Bool, Bool-cases, All,
  Text,
}
use quantlab_v.Prelude.Dict.{Dict}
use quantlab_v.Decimal.{Decimal}
use quantlab_v.Portfolio.Constraints.{
  ConstraintStatus, pass, adjust, ConstraintResult, Weights, status_of, apply_max_name_weight,
  apply_max_sector_weight, apply_gross_exposure,
}
use quantlab_v.Portfolio.Risk.{RiskSpec, is_reject, is_adjust, constrain, overall_status}

-- The constraint passed or adjusted the weights.
abbrev pub IsLenient : ConstraintResult → Type 0
IsLenient r = (r.status ≡ pass) ⊎ (r.status ≡ adjust)

-- A pass if all results are passes, and an adjustment if they are not.
abbrev pub IsStatus : List ConstraintResult → ConstraintStatus → Type 0
IsStatus results status =
    ((status ≡ pass) × All (λ (r : ConstraintResult). r.status ≡ pass) results)
    ⊎ ((status ≡ adjust) × ¬ All (λ (r : ConstraintResult). r.status ≡ pass) results)

status_of-lenient : (b : Bool) → (status_of b ≡ pass) ⊎ (status_of b ≡ adjust)
status_of-lenient true = inr refl
status_of-lenient false = inl refl

name-IsLenient : (cap : Decimal) (ws : Weights) → IsLenient (apply_max_name_weight cap ws).1
unfolding apply_max_name_weight
name-IsLenient cap ws = status_of-lenient _

sector-IsLenient :
    (cap unknown : Decimal) (sectors : Dict Text) (ws : Weights)
    → IsLenient (apply_max_sector_weight cap unknown sectors ws).1
unfolding apply_max_sector_weight
sector-IsLenient cap unknown [] ws = inl refl
sector-IsLenient cap unknown (s ∷ ss) ws = status_of-lenient _

gross-IsLenient :
    (cap buffer : Decimal) (ws : Weights) → IsLenient (apply_gross_exposure cap buffer ws).1
unfolding apply_gross_exposure
gross-IsLenient cap buffer ws = ground arith

pub constrain-IsLenient :
    (spec : RiskSpec) (sectors : Dict Text) (ws : Weights)
    → All IsLenient (constrain spec sectors ws).1
unfolding constrain
constrain-IsLenient spec sectors ws =
    (name-IsLenient _ _, (sector-IsLenient _ _ sectors _, (gross-IsLenient _ _ _, tt)))

abbrev statuses : List ConstraintResult → List ConstraintStatus
statuses results = map (λ (r : ConstraintResult). r.status) results

no_reject :
    (results : List ConstraintResult)
    → All IsLenient results
    → any is_reject (statuses results) ≡ false
no_reject [] h = refl
no_reject (r ∷ results) h = elim h.0 [
  | inl e ↦ rw e (no_reject results h.1)
  | inr e ↦ rw e (no_reject results h.1)
]

no_adjust :
    (results : List ConstraintResult)
    → All IsLenient results
    → any is_adjust (statuses results) ≡ false
    → All (λ (r : ConstraintResult). r.status ≡ pass) results
no_adjust [] h k = tt
no_adjust (r ∷ results) h k = elim h.0 [
  | inl e ↦ (e, no_adjust results h.1 (rw e at k))
  | inr e ↦ absurd (cc (rw e at k))
]

some_adjust :
    (results : List ConstraintResult)
    → any is_adjust (statuses results) ≡ true
    → ¬ All (λ (r : ConstraintResult). r.status ≡ pass) results
some_adjust [] k = absurd (cc k)
some_adjust (r ∷ results) k = λ a. some_adjust results (rw (a.0) at k) a.1

pub overall_status-IsStatus :
    (results : List ConstraintResult)
    → All IsLenient results
    → IsStatus results (overall_status results)
unfolding overall_status
overall_status-IsStatus results h = elim (Bool-cases (any is_adjust (statuses results))) [
  | inl e ↦ inr (rw (no_reject results h, e), some_adjust results e)
  | inr e ↦ inl (rw (no_reject results h, e), no_adjust results h e)
]
