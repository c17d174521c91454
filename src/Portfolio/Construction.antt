-- ===== src/Portfolio/Construction.antt =====
-- Construction of a target portfolio (quantlab/portfolio/construction.py). The branch of the weights
-- by inverse volatility is a parameter: a function of the selected assets and the total.
pub mod Targets
use quantlab_v.Prelude.{
  ℕ, Bool, not, ◌&&◌, Option, none, some, List, [], ◌∷◌, map, ltb, if◌then◌else◌, get_or, filter,
  contains, Text,
}
use quantlab_v.Prelude.Result.{◌>>=◌, Result, ok}
use quantlab_v.Prelude.Dict.{Dict, keys, lookup}
use quantlab_v.Prelude.Sort.{sort_by}
use quantlab_v.Time.{DateTime}
use quantlab_v.Decimal
use quantlab_v.Decimal.{Decimal, nought, dec}
use quantlab_v.Domain.Identity.{InstrumentId}
use quantlab_v.Domain.Portfolio.{
  Position, PortfolioSnapshot, TargetPosition, TargetPortfolio, new_target_position,
  new_target_portfolio,
}
use quantlab_v.Factors.{FactorSnapshot, valid_scores}
use quantlab_v.Portfolio.Selection.{SelectedAsset, new_selector, select}
use quantlab_v.Portfolio.Weighting.{equal_weights}

pub data WeightingMethod : Type 0 where
  equal inverse_volatility : WeightingMethod

pub record PortfolioSpec : Type 0 where
  pub strategy_id : Text
  pub target_size : ℕ
  pub buffer_size : ℕ
  pub weighting_method : WeightingMethod
  pub cash_buffer_pct : Decimal
  pub max_name_weight : Decimal

pub record ConstructionRequest (Score : Type 0) : Type 0 where
  pub portfolio_id : Text
  pub decision_time : DateTime
  pub alpha_snapshot : FactorSnapshot Score
  pub universe : List InstrumentId
  pub current_portfolio : Option PortfolioSnapshot
  pub spec : PortfolioSpec

-- `weight > max_name_weight`, where the cap is not zero
unfoldable pub cap_name : Decimal → Decimal → Decimal
cap_name max_name_weight weight =
    if not (Decimal.eq max_name_weight nought) && Decimal.lt max_name_weight weight
    then max_name_weight
    else weight

-- the positions by identifier
unfoldable pub target_positions :
    Decimal → Dict Decimal → List InstrumentId → Result (List TargetPosition)
unfolding cap_name
target_positions cap weights [] = ok []
target_positions cap weights (i ∷ ids) = do
  p ← new_target_position (record {
    instrument_id = i;
    target_weight = cap_name cap (get_or (lookup i weights) nought);
    target_quantity = none;
  })
  rest ← target_positions cap weights ids
  ok (p ∷ rest)

-- the holdings with a positive quantity
unfoldable pub holdings_of : Option PortfolioSnapshot → List InstrumentId
holdings_of none = []
holdings_of (some s) =
    map (λ (p : Position). p.instrument_id)
      (filter (λ (p : Position). Decimal.lt nought p.quantity) s.positions)

module _ {Score : Type 0} (higher : Score → Score → Bool)
    (by_volatility : List (SelectedAsset Score) → Decimal → Dict Decimal) where
  -- the scores of the universe
  abbrev pub eligible_scores : ConstructionRequest Score → Dict Score
  eligible_scores r =
      filter (λ (e : InstrumentId × Score). contains e.0 r.universe) (valid_scores r.alpha_snapshot)

  abbrev pub raw_weights : PortfolioSpec → List (SelectedAsset Score) → Dict Decimal
  raw_weights spec assets =
      let gross = Decimal.quantize 6 (Decimal.sub (dec 10 1) spec.cash_buffer_pct) in
      elim spec.weighting_method [
        | equal ↦ equal_weights assets gross
        | inverse_volatility ↦ by_volatility assets gross
      ]

  abbrev pub target_of : ConstructionRequest Score → List TargetPosition → TargetPortfolio
  target_of r positions = record {
    portfolio_id = r.portfolio_id;
    decision_time = r.decision_time;
    positions = positions;
    source_alpha_snapshot_id = r.alpha_snapshot.content_hash;
  }

  unfoldable pub weigh :
      ConstructionRequest Score → List (SelectedAsset Score) → Result TargetPortfolio
  unfolding target_positions
  weigh r [] = new_target_portfolio (target_of r [])
  weigh r (a ∷ assets) = do
    let weights = raw_weights r.spec (a ∷ assets)
    positions ← target_positions r.spec.max_name_weight weights (sort_by ltb (keys weights))
    new_target_portfolio (target_of r positions)

  -- `PortfolioConstructor.construct`
  unfoldable pub construct : ConstructionRequest Score → Result TargetPortfolio
  unfolding weigh holdings_of
  construct r = do
    selector ← new_selector r.spec.target_size r.spec.buffer_size
    weigh r (select higher selector (eligible_scores r) (holdings_of r.current_portfolio))
