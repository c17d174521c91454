-- ===== src/Paper/Recovery.antt =====
-- Recovery of an account from its fills (quantlab/paper/recovery.py).
pub mod Replay
use quantlab_v.Prelude.{Bool, List, [], ◌∷◌, if◌then◌else◌, Text}
use quantlab_v.Prelude.Dict.{Dict, insert, erase}
use quantlab_v.Prelude.Sort.{sort_by}
use quantlab_v.Time.{earlier}
use quantlab_v.Decimal
use quantlab_v.Decimal.{Decimal, nought, of_ℤ}
use quantlab_v.Paper.Adapter.{BrokerAccount, PaperFill, PaperOrderSide, buy, sell, held}

-- One round of the loop, on the cash and the positions.
unfoldable pub replay_buy : PaperFill → Decimal × Dict Decimal → Decimal × Dict Decimal
replay_buy f (cash, positions) =
    let notional = Decimal.mul f.price (of_ℤ f.quantity) in
    (
      Decimal.sub cash (Decimal.add notional f.commission),
      insert f.instrument_id (Decimal.add (held f.instrument_id positions) (of_ℤ f.quantity))
          positions,
    )

unfoldable pub replay_sell : PaperFill → Decimal × Dict Decimal → Decimal × Dict Decimal
replay_sell f (cash, positions) =
    let notional = Decimal.mul f.price (of_ℤ f.quantity) in
    let new_qty = Decimal.sub (held f.instrument_id positions) (of_ℤ f.quantity) in
    (
      Decimal.add cash (Decimal.sub notional f.commission),
      if Decimal.le new_qty nought
          then erase f.instrument_id positions
          else insert f.instrument_id new_qty positions,
    )

unfoldable pub replay_fill :
    PaperOrderSide → PaperFill → Decimal × Dict Decimal → Decimal × Dict Decimal
unfolding replay_buy replay_sell
replay_fill buy f s = replay_buy f s
replay_fill sell f s = replay_sell f s

unfoldable pub replay : List PaperFill → Decimal × Dict Decimal → Decimal × Dict Decimal
replay [] s = s
replay (f ∷ fills) s = replay fills (replay_fill f.side f s)

abbrev pub filled_before : PaperFill → PaperFill → Bool
filled_before f g = earlier f.filled_at g.filled_at

abbrev pub account_of : Text → Decimal × Dict Decimal → BrokerAccount
account_of account_id (cash, positions) = record {
  account_id = account_id;
  cash_balance = cash;
  buying_power = cash;
  positions = positions;
}

-- `DisasterRecoveryEngine.reconstruct_from_fills`
unfoldable pub reconstruct_from_fills : Text → Decimal → List PaperFill → BrokerAccount
reconstruct_from_fills account_id initial_cash fills =
    account_of account_id (replay (sort_by filled_before fills) (initial_cash, []))
