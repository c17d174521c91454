-- ===== src/Portfolio/Risk/Approval.antt =====
-- What the risk engine decides: weights that its constraints leave alone, or a rejection.
use mathlib.Core.Path.{subst}
use quantlab_v.Prelude.{
  ℕ, ◌<◌, ◌≡◌, refl, sym, ap, ◌∙◌, ◌≢◌, ◌⊎◌, inl, inr, false, none, some, List, [], ◌∷◌, arith, ltb,
  ◌==◌, Option-cases, All, Text,
}
use quantlab_v.Prelude.Result.{ok, >>=-eq-ok, ok-injective}
use quantlab_v.Prelude.Dict.{Dict, keys, lookup}
use quantlab_v.Prelude.Sort.{IsSorted, sort_by, sort_by-IsSorted}
use quantlab_v.Decimal.{Decimal}
use quantlab_v.Domain.Identity.{InstrumentId}
use quantlab_v.Domain.Portfolio.{TargetPosition, TargetPortfolio, new_target_portfolio}
use quantlab_v.Domain.Portfolio.Unique.{IsUnique}
use quantlab_v.Domain.Portfolio.Checks.{new_target_portfolio-ok}
use quantlab_v.Portfolio.Constraints.{reject, ConstraintResult, Weights}
use quantlab_v.Portfolio.Risk.{
  RiskSpec, RiskDecision, not_converged, constrain, settle_weights, adjusted_positions,
  overall_status, weights_of, decide, first_results, apply,
}
use quantlab_v.Portfolio.Risk.Rounds.{
  rounds, IsSettled, settle_weights-IsSettled, settle_weights-unsettled,
}
use quantlab_v.Portfolio.Risk.Positions.{
  positive, ids_of, weight_in, lookup-all_positions, ids-IsSorted, ltb-IsOrder,
}
use quantlab_v.Portfolio.Risk.Statuses.{
  IsLenient, constrain-IsLenient, IsStatus, overall_status-IsStatus,
}

-- The decision is on the weights after some number of passes, below the bound, that one more pass
-- leaves as they are. The target keeps its identity and holds each instrument with a positive weight
-- at that weight, in the order of the identifiers, once, and nothing else. The status tells whether
-- the first pass adjusted anything, and there is no violation.
pub record IsApproved (spec : RiskSpec) (sectors : Dict Text) (target : TargetPortfolio)
    (d : RiskDecision) : Type 0 where
  pub passes : ℕ
  pub within : passes < spec.max_iterations
  pub settled : IsSettled spec sectors (rounds spec sectors passes (weights_of target))
  pub weights :
      (i : InstrumentId)
      → lookup i (weights_of d.adjusted_target)
        ≡ positive (weight_in (rounds spec sectors passes (weights_of target)) i)
  pub ordered : IsSorted ltb (ids_of d.adjusted_target.positions)
  pub once : IsUnique (ids_of d.adjusted_target.positions)
  pub same_portfolio : d.adjusted_target.portfolio_id ≡ target.portfolio_id
  pub same_time : d.adjusted_target.decision_time ≡ target.decision_time
  pub same_source : d.adjusted_target.source_alpha_snapshot_id ≡ target.source_alpha_snapshot_id
  pub audited : d.results ≡ (constrain spec sectors (weights_of target)).1
  pub status : IsStatus d.results d.status
  pub no_violation : d.violations ≡ []

-- No number of passes below the bound settles the weights; the target is rejected as it is.
pub record IsRejected (spec : RiskSpec) (sectors : Dict Text) (target : TargetPortfolio)
    (d : RiskDecision) : Type 0 where
  pub unsettled : ¬ (
      (n : ℕ) × (n < spec.max_iterations)
      × IsSettled spec sectors (rounds spec sectors n (weights_of target)))
  pub status : d.status ≡ reject
  pub unchanged : d.adjusted_target ≡ target
  pub violation : d.violations ≡ not_converged ∷ []

-- What `decide` returns for settled weights.
decide-settled :
    (target : TargetPortfolio) (results : List ConstraintResult) (ws : Weights) (d : RiskDecision)
    → decide target results (some ws) ≡ ok d
    → (ps : List TargetPosition) × (adjusted_positions ws (sort_by ltb (keys ws)) ≡ ok ps)
      × IsUnique (ids_of ps)
      × (record {
        status = overall_status results;
        adjusted_target = record target { positions = ps };
        results = results;
        violations = [];
      }
          ≡ d)
unfolding decide
decide-settled target results ws d h =
    let ids = sort_by ltb (keys ws) in
    let (ps, ep, h1) = >>=-eq-ok (adjusted_positions ws ids) _ h in
    let t : TargetPortfolio = record target { positions = ps } in
    let (u, eu, h2) = >>=-eq-ok (new_target_portfolio t) _ h1 in
    let (same, once) = new_target_portfolio-ok t u eu in
    let made : RiskDecision = record {
      status = overall_status results;
      adjusted_target = t;
      results = results;
      violations = [];
    } in
    (
      ps,
      ep,
      once,
      ap (λ (x : TargetPortfolio). record made { adjusted_target = x }) (sym same)
          ∙ ok-injective h2,
    )

first_results-pass :
    (spec : RiskSpec) (sectors : Dict Text) (ws : Weights) (n : ℕ)
    → n < spec.max_iterations
    → first_results spec sectors ws ≡ (constrain spec sectors ws).1
first_results-pass spec sectors ws n l =
    let some_pass : (spec.max_iterations == 0) ≡ false = ground (arith, l) in rw some_pass

decide-IsApproved :
    (spec : RiskSpec) (sectors : Dict Text) (target : TargetPortfolio) (d : RiskDecision) (n : ℕ)
    → let ws = weights_of target in
      n < spec.max_iterations
      → IsSettled spec sectors (rounds spec sectors n ws)
      → decide target (first_results spec sectors ws) (some (rounds spec sectors n ws)) ≡ ok d
      → IsApproved spec sectors target d
decide-IsApproved spec sectors target d n l f h =
    let ws = weights_of target in
    let out = rounds spec sectors n ws in
    let results = first_results spec sectors ws in
    let first = first_results-pass spec sectors ws n l in
    let (ps, ep, once, made) = decide-settled target results out d h in
    let approved : IsApproved spec sectors target (record {
      status = overall_status results;
      adjusted_target = record target { positions = ps };
      results = results;
      violations = [];
    }) =
      record {
        passes = n;
        within = l;
        settled = f;
        weights = λ i. lookup-all_positions out ps i ep;
        ordered =
            ids-IsSorted out (sort_by ltb (keys out)) ps
              (sort_by-IsSorted ltb ltb-IsOrder (keys out)) ep;
        once = once;
        same_portfolio = refl;
        same_time = refl;
        same_source = refl;
        audited = first;
        status =
            overall_status-IsStatus results
              (subst (All IsLenient) (sym first) (constrain-IsLenient spec sectors ws));
        no_violation = refl;
      } in
    subst (IsApproved spec sectors target) made approved

decide-IsRejected :
    (spec : RiskSpec) (sectors : Dict Text) (target : TargetPortfolio)
    (results : List ConstraintResult) (d : RiskDecision)
    → ¬ (
        (n : ℕ) × (n < spec.max_iterations)
        × IsSettled spec sectors (rounds spec sectors n (weights_of target)))
    → decide target results none ≡ ok d
    → IsRejected spec sectors target d
unfolding decide
decide-IsRejected spec sectors target results d u h =
    let made = ok-injective h in
    record {
      unsettled = u;
      status = sym (ap (λ (x : RiskDecision). x.status) made);
      unchanged = sym (ap (λ (x : RiskDecision). x.adjusted_target) made);
      violation = sym (ap (λ (x : RiskDecision). x.violations) made);
    }

Weights-cases :
    (ws : Weights) → (ws ≡ []) ⊎ ((e : InstrumentId × Decimal) × (rest : Weights) × (ws ≡ e ∷ rest))
Weights-cases [] = inl refl
Weights-cases (e ∷ rest) = inr (e, rest, refl)

-- On a target with positions the engine decides what its constraints settle on.
apply-eq-decide :
    (spec : RiskSpec) (target : TargetPortfolio) (sectors : Dict Text)
    → weights_of target ≢ []
    → let ws = weights_of target in
      apply spec target sectors
      ≡ decide target
          (first_results spec sectors ws)
          (settle_weights spec.max_iterations spec sectors ws)
unfolding apply
apply-eq-decide spec target sectors n = elim (Weights-cases (weights_of target)) [
  | inl e ↦ absurd (n e)
  | inr (e, rest, q) ↦ rw (q, apply)
]

-- A decision on a target with positions is one of two. If some number of passes of the constraints,
-- below the bound on iterations, leads to weights that one more pass leaves alone, the target with
-- exactly the positive ones of these weights is approved, with its identity kept, in the order of
-- the identifiers, as a pass if all results of the first pass are passes and as an adjustment if
-- not, without a violation. If none does, the target is rejected as it is, with the violation.
pub apply-decides :
    (spec : RiskSpec) (target : TargetPortfolio) (sectors : Dict Text) (d : RiskDecision)
    → weights_of target ≢ []
    → apply spec target sectors ≡ ok d
    → IsApproved spec sectors target d ⊎ IsRejected spec sectors target d
apply-decides spec target sectors d n h =
    let ws = weights_of target in
    let left = spec.max_iterations in
    let decided = sym (apply-eq-decide spec target sectors n) ∙ h in
    elim (Option-cases (settle_weights left spec sectors ws)) [
      | inl e ↦
          let never = settle_weights-unsettled spec sectors left ws e in
          inr (
            decide-IsRejected spec sectors target (first_results spec sectors ws) d
              (λ x. never x.0 x.1 x.2) (rw e at decided))
      | inr (out, e) ↦
          let (k, l, r, f) = settle_weights-IsSettled spec sectors left ws out e in
          let settled : settle_weights left spec sectors ws ≡ some (rounds spec sectors k ws) =
            e ∙ ap (λ (o : Weights). some o) (sym r) in
          inl (
            decide-IsApproved spec sectors target d k l (subst (IsSettled spec sectors) (sym r) f)
              (rw settled at decided))
    ]
