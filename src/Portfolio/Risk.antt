-- ===== src/Portfolio/Risk.antt =====
-- The risk engine (quantlab/portfolio/risk.py): the constraints, applied in turn until they change
-- nothing. The one text of a violation is a data type.
pub mod Approval
pub mod Positions
pub mod Rounds
pub mod Statuses
use quantlab_v.Prelude.{
  ℕ, zero, suc, Bool, true, false, ◌&&◌, Option, none, some, List, [], ◌∷◌, map, ltb, ◌==◌,
  if◌then◌else◌, get_or, any, Text,
}
use quantlab_v.Prelude.Result.{◌>>=◌, Result, ok}
use quantlab_v.Prelude.Dict.{Dict, keys, lookup}
use quantlab_v.Prelude.Sort.{sort_by}
use quantlab_v.Decimal
use quantlab_v.Decimal.{Decimal, nought}
use quantlab_v.Domain.Identity.{InstrumentId}
use quantlab_v.Domain.Portfolio.{
  TargetPosition, TargetPortfolio, new_target_position, new_target_portfolio,
}
use quantlab_v.Portfolio.Constraints.{
  ConstraintStatus, pass, adjust, reject, ConstraintResult, Weights, apply_max_name_weight,
  apply_max_sector_weight, apply_gross_exposure,
}

pub record RiskSpec : Type 0 where
  pub max_name_weight : Decimal
  pub max_sector_weight : Decimal
  pub max_unknown_sector_weight : Decimal
  pub gross_exposure_cap : Decimal
  pub min_cash_buffer_pct : Decimal
  pub max_adv_participation : Decimal
  pub no_trade_band_pct : Decimal
  pub min_trade_dollar : Decimal
  pub max_turnover_pct : Decimal
  pub max_iterations : ℕ

-- "Risk constraints did not converge within max iterations"
pub data Violation : Type 0 where
  not_converged : Violation

pub record RiskDecision : Type 0 where
  pub status : ConstraintStatus
  pub adjusted_target : TargetPortfolio
  pub results : List ConstraintResult
  pub violations : List Violation

-- one pass of the three constraints, with their results
unfoldable pub constrain : RiskSpec → Dict Text → Weights → Weights × List ConstraintResult
constrain spec sectors weights =
    let (w1, r1) = apply_max_name_weight spec.max_name_weight weights in
    let (w2, r2) =
      apply_max_sector_weight spec.max_sector_weight spec.max_unknown_sector_weight sectors w1 in
    let (w3, r3) = apply_gross_exposure spec.gross_exposure_cap spec.min_cash_buffer_pct w2 in
    (w3, r1 ∷ r2 ∷ r3 ∷ [])

-- every entry of the first dict is in the second, with an equal value
unfoldable pub is_sub_dict : Weights → Weights → Bool
is_sub_dict [] e = true
is_sub_dict ((i, w) ∷ d) e =
    (elim (lookup i e) [ none ↦ false | some v ↦ Decimal.eq w v ]) && is_sub_dict d e

-- `d == e` for dicts
unfoldable pub same_weights : Weights → Weights → Bool
unfolding is_sub_dict
same_weights d e = is_sub_dict d e && is_sub_dict e d

-- the loop, with the iterations that are left; `none` where they run out
unfoldable pub settle_weights : ℕ → RiskSpec → Dict Text → Weights → Option Weights
unfolding same_weights
settle_weights zero spec sectors weights = none
settle_weights (suc left) spec sectors weights =
    let next = (constrain spec sectors weights).0 in
    elim (same_weights next weights) [
      | true ↦ some weights
      | false ↦ settle_weights left spec sectors next
    ]

abbrev pub is_reject : ConstraintStatus → Bool
is_reject reject = true
is_reject _ = false

abbrev pub is_adjust : ConstraintStatus → Bool
is_adjust adjust = true
is_adjust _ = false

unfoldable pub overall_status : List ConstraintResult → ConstraintStatus
overall_status results =
    let statuses = map (λ (r : ConstraintResult). r.status) results in
    if any is_reject statuses then reject else if any is_adjust statuses then adjust else pass

-- the positions with a positive weight, by identifier
unfoldable pub adjusted_positions : Weights → List InstrumentId → Result (List TargetPosition)
adjusted_positions weights [] = ok []
adjusted_positions weights (i ∷ ids) =
    let w = get_or (lookup i weights) nought in
    let rest = adjusted_positions weights ids in
    if Decimal.lt nought w
    then (do
      p ←
          new_target_position
            (record { instrument_id = i; target_weight = w; target_quantity = none })
      positions ← rest
      ok (p ∷ positions))
    else rest

abbrev pub weights_of : TargetPortfolio → Weights
weights_of target =
    map (λ (p : TargetPosition). (p.instrument_id, p.target_weight)) target.positions

unfoldable pub decide :
    TargetPortfolio → List ConstraintResult → Option Weights → Result RiskDecision
unfolding adjusted_positions overall_status
decide target results none = ok (record {
  status = reject;
  adjusted_target = target;
  results = results;
  violations = not_converged ∷ [];
})
decide target results (some weights) = do
  positions ← adjusted_positions weights (sort_by ltb (keys weights))
  adjusted ← new_target_portfolio (record target { positions = positions })
  ok (record {
    status = overall_status results;
    adjusted_target = adjusted;
    results = results;
    violations = [];
  })

-- the results are those of the first iteration
abbrev pub first_results : RiskSpec → Dict Text → Weights → List ConstraintResult
first_results spec sectors weights =
    if spec.max_iterations == 0 then [] else (constrain spec sectors weights).1

-- `RiskEngine.apply`
unfoldable pub apply : RiskSpec → TargetPortfolio → Dict Text → Result RiskDecision
unfolding decide settle_weights
apply spec target sectors = elim (weights_of target) [
  | [] ↦ ok (record { status = pass; adjusted_target = target; results = []; violations = [] })
  | e ∷ weights ↦
      decide target (first_results spec sectors (e ∷ weights))
        (settle_weights spec.max_iterations spec sectors (e ∷ weights))
]
