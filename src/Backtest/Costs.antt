-- ===== src/Backtest/Costs.antt =====
-- Costs, participation and the reference price (quantlab/backtest/costs.py, participation.py,
-- execution.py).
use quantlab_v.Prelude.{Option, none, some, if◌then◌else◌}
use quantlab_v.Decimal
use quantlab_v.Decimal.{Decimal, nought, dec, of_ℤ}
use quantlab_v.Domain.Orders.{OrderSide, buy, sell}
use quantlab_v.Domain.Market.{MarketBar}

pub record SlippageModel : Type 0 where
  pub slippage_bps : Decimal

-- `SlippageModel.execute_price`: the price and the slippage of one share. The divisor is 10000.0.
unfoldable pub execute_price : SlippageModel → Decimal → OrderSide → Decimal × Decimal
execute_price m reference_price side =
    let slip_pct = Decimal.quotient m.slippage_bps (dec 100000 1) in
    let slip_amount = Decimal.quantize 4 (Decimal.mul reference_price slip_pct) in
    let slipped_price : Decimal = elim side [
      | buy ↦ Decimal.add reference_price slip_amount
      | sell ↦ Decimal.sub reference_price slip_amount
    ] in
    (Decimal.quantize 4 slipped_price, slip_amount)

pub record FeeModel : Type 0 where
  pub commission_per_share : Decimal
  pub min_commission : Decimal

-- `FeeModel.calculate_fees`
unfoldable pub calculate_fees : FeeModel → Decimal → Decimal → Decimal
calculate_fees m quantity price =
    let raw_fee = Decimal.mul quantity m.commission_per_share in
    Decimal.quantize 2 (Decimal.max_of raw_fee m.min_commission)

pub record VolumeParticipationModel : Type 0 where
  pub max_participation_pct : Decimal

-- `VolumeParticipationModel.max_executable_quantity`
unfoldable pub max_executable_quantity : VolumeParticipationModel → Decimal → Decimal
max_executable_quantity m bar_volume =
    if Decimal.le bar_volume nought
    then nought
    else of_ℤ (Decimal.floor (Decimal.mul bar_volume m.max_participation_pct))

-- `NextOpenExecution.reference_price`
unfoldable pub reference_price : MarketBar → Option Decimal
reference_price bar =
    if Decimal.le bar.open_price nought then none else some (Decimal.quantize 4 bar.open_price)
