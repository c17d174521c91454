-- ===== src/Tests/Targets.antt =====
-- Selection, construction and the risk engine.
use quantlab_v.Prelude.Table
use quantlab_v.Portfolio.Constraints as Constraints
use quantlab_v.Portfolio.Constraints.{
  pass, adjust, gross_exposure, capped_weights, sectors_within_limit, gross_within_limit,
  weights_value, sectors_value, total_value, apply_max_name_weight, cap_names,
  apply_max_sector_weight, sector_weights, scale_sector, cap_sectors, sum_weights, scale_all,
  apply_gross_exposure,
}
use quantlab_v.Portfolio.Risk.{
  RiskSpec, RiskDecision, apply, decide, settle_weights, constrain, same_weights, is_sub_dict,
  overall_status, adjusted_positions, weights_of,
}
use quantlab_v.Portfolio.Risk.Approval.{IsApproved, IsRejected, apply-decides}
use quantlab_v.Prelude.{
  ℕ, ◌≤◌, ◌≡◌, refl, ◌⊎◌, Bool, true, false, none, some, List, [], ◌∷◌, ltb, length, All, Text,
}
use quantlab_v.Prelude.Int
use quantlab_v.Prelude.Result.{Result, ok}
use quantlab_v.Prelude.Dict.{Dict, insert}
use quantlab_v.Decimal
use quantlab_v.Decimal.{Decimal, dec}
use quantlab_v.Domain.Portfolio.{
  TargetPosition, TargetPortfolio, new_target_position, new_target_portfolio, unique_from,
  require_unique_instruments,
}
use quantlab_v.Domain.Identity.{
  require_nonempty, require_timezone_aware, require_nonnegative_decimal,
}
use quantlab_v.Factors.{
  FactorValue, FactorSnapshot, insufficient_history, is_valid, scores_of, valid_scores,
}
use quantlab_v.Portfolio.Selection.{
  TopKBufferSelector, SelectedAsset, select, by_rank, ranking_of, new_selector, rank_from, rank_of,
  retain, retain_all, fill_up, distinct,
}
use quantlab_v.Portfolio.Selection.Steps.{same_asset, IsPick}
use quantlab_v.Portfolio.Selection.Picks.{Protected, select-picks}
use quantlab_v.Prelude.Sort.{IsSorted, sort_by, insert_sorted}
use quantlab_v.Prelude.Distinct.{IsDistinct}
use quantlab_v.Portfolio.Weighting.{assign, allocate, equal_weights_of, equal_weights}
use quantlab_v.Portfolio.Construction.{
  PortfolioSpec, equal, ConstructionRequest, construct, target_of, weigh, target_positions,
  cap_name, holdings_of,
}
use quantlab_v.Portfolio.Construction.Targets.{IsTarget, construct-IsTarget}
use quantlab_v.Tests.Data.{name, other_name, morning, christmas_eve}

abbrev pub higher : ℕ → ℕ → Bool
higher a b = ltb b a

abbrev scores : Dict ℕ
scores = (3, 50) ∷ (5, 90) ∷ (7, 70) ∷ (9, 70) ∷ []

abbrev selector : TopKBufferSelector
selector = record { target_size = 2; buffer_size = 3 }

-- The holding 9 is third, and stays before the second.
select-picks_example :
    let out = select higher selector scores (9 ∷ []) in
    (length out ≡ 2)
    × IsSorted by_rank out
    × IsDistinct same_asset out
    × All (IsPick selector (ranking_of higher scores) (9 ∷ [])) out
    × (1 ≤ 2 → Protected selector (ranking_of higher scores) (9 ∷ []) out)
select-picks_example =
    select-picks higher selector scores (9 ∷ []) (refl, (refl, (refl, (refl, tt))))

abbrev scored : ℕ → ℕ → ℕ × FactorValue ℕ
scored i s = (i, record { instrument_id = i; value = some s; missing_reason = none })

abbrev pub snapshot : FactorSnapshot ℕ
snapshot = record {
  factor_id = name;
  version = name;
  session = christmas_eve;
  as_of = morning;
  values =
      scored 7 70
      ∷ (3, record { instrument_id = 3; value = none; missing_reason = some insufficient_history })
      ∷ scored 5 90
      ∷ [];
  content_hash = other_name;
}

abbrev pub portfolio_spec : PortfolioSpec
portfolio_spec = record {
  strategy_id = name;
  target_size = 3;
  buffer_size = 4;
  weighting_method = equal;
  cash_buffer_pct = dec 5 2;
  max_name_weight = dec 40 2;
}

abbrev request : ConstructionRequest ℕ
request = record {
  portfolio_id = name;
  decision_time = morning;
  alpha_snapshot = snapshot;
  universe = 3 ∷ 5 ∷ 7 ∷ [];
  current_portfolio = none;
  spec = portfolio_spec;
}

abbrev pub no_weights : List (SelectedAsset ℕ) → Decimal → Dict Decimal
no_weights assets total = []

abbrev capped : ℕ → TargetPosition
capped i = record { instrument_id = i; target_weight = dec 40 2; target_quantity = none }

abbrev target : List TargetPosition → TargetPortfolio
target ps = record {
  portfolio_id = name;
  decision_time = morning;
  positions = ps;
  source_alpha_snapshot_id = other_name;
}

abbrev made : Result TargetPortfolio
made = construct higher no_weights request

-- Both names would have 0.475, and are capped.
made-constructed : made ≡ ok (target (capped 5 ∷ capped 7 ∷ []))
unfolding construct weigh target_positions cap_name holdings_of new_selector valid_scores scores_of
    is_valid select ranking_of rank_from rank_of retain retain_all fill_up distinct sort_by
    insert_sorted equal_weights equal_weights_of assign allocate insert new_target_position
    new_target_portfolio unique_from require_unique_instruments require_nonempty
    require_timezone_aware require_nonnegative_decimal Decimal.lt Decimal.left Decimal.right
    Decimal.add Decimal.sub Decimal.neg Decimal.fix Decimal.quantize Decimal.quotient
    Decimal.div_even Decimal.on_mag Int.◌+ℤ◌ Int.◌-ℤ◌ Int.◌*ℤ◌ Int.neg
made-constructed = refl

construct-IsTarget_example :
    let t = target (capped 5 ∷ capped 7 ∷ []) in
    (t ≡ target_of higher no_weights request t.positions) × IsTarget (dec 40 2) t.positions
construct-IsTarget_example =
    construct-IsTarget higher no_weights request (target (capped 5 ∷ capped 7 ∷ []))
      made-constructed

abbrev pub risk_spec : RiskSpec
risk_spec = record {
  max_name_weight = dec 40 2;
  max_sector_weight = dec 70 2;
  max_unknown_sector_weight = dec 10 2;
  gross_exposure_cap = dec 10 1;
  min_cash_buffer_pct = dec 5 2;
  max_adv_participation = dec 10 2;
  no_trade_band_pct = dec 1 2;
  min_trade_dollar = dec 100 0;
  max_turnover_pct = dec 10 1;
  max_iterations = 5;
}

abbrev weighted : ℕ → ℕ → TargetPosition
weighted i n = record { instrument_id = i; target_weight = dec n 2; target_quantity = none }

abbrev heavy : TargetPortfolio
heavy = target (weighted 5 50 ∷ weighted 7 20 ∷ [])

abbrev sectors : Dict Text
sectors = (5, name) ∷ (7, name) ∷ []

abbrev decided : RiskDecision
decided = record {
  status = adjust;
  adjusted_target = target (weighted 5 40 ∷ weighted 7 20 ∷ []);
  results =
      record {
        name = Constraints.max_name_weight;
        status = adjust;
        reason = capped_weights;
        before_value = weights_value (weights_of heavy);
        after_value = weights_value ((5, dec 40 2) ∷ (7, dec 20 2) ∷ []);
      }
      ∷ record {
        name = Constraints.max_sector_weight;
        status = pass;
        reason = sectors_within_limit;
        before_value = sectors_value ((name, dec 60 2) ∷ []);
        after_value = weights_value ((5, dec 40 2) ∷ (7, dec 20 2) ∷ []);
      }
      ∷ record {
        name = gross_exposure;
        status = pass;
        reason = gross_within_limit;
        before_value = total_value (dec 60 2);
        after_value = total_value (dec 60 2);
      }
      ∷ [];
  violations = [];
}

-- The first name is cut to the cap, and the second pass changes nothing.
heavy-decided : apply risk_spec heavy sectors ≡ ok decided
unfolding apply decide settle_weights constrain same_weights is_sub_dict overall_status
    adjusted_positions apply_max_name_weight cap_names apply_max_sector_weight sector_weights
    scale_sector cap_sectors sum_weights scale_all apply_gross_exposure
    quantlab_v.Prelude.Table.find quantlab_v.Prelude.Table.put sort_by insert_sorted insert
    new_target_position new_target_portfolio unique_from require_unique_instruments require_nonempty
    require_timezone_aware require_nonnegative_decimal Decimal.lt Decimal.left Decimal.right
    Decimal.add Decimal.sub Decimal.neg Decimal.fix Decimal.quantize Decimal.quotient
    Decimal.div_even Decimal.on_mag Decimal.mul Int.◌+ℤ◌ Int.◌-ℤ◌ Int.◌*ℤ◌ Int.neg
heavy-decided = refl

apply-decides_example :
    IsApproved risk_spec sectors heavy decided ⊎ IsRejected risk_spec sectors heavy decided
apply-decides_example = apply-decides risk_spec heavy sectors decided (λ e. cc e) heavy-decided
