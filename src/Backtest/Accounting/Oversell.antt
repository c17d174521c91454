-- ===== src/Backtest/Accounting/Oversell.antt =====
-- A sale of more than is held: the exception comes after the cash has been posted.
use quantlab_v.Prelude.{◌+◌, ◌≡◌, refl, true, [], ◌∷◌, arith, length, length-append, Text}
use quantlab_v.Prelude.Result.{err, cannot_sell}
use quantlab_v.Decimal
use quantlab_v.Decimal.{Decimal}
use quantlab_v.Domain.Orders.{sell, Fill}
use quantlab_v.Backtest.Ledger.{get_quantity, record_cash}
use quantlab_v.Backtest.Ledger.Positions.{apply_sell-short}
use quantlab_v.Backtest.Accounting.{AccountingEngine, apply_fill, inflow}

-- A fill that sells more than is held raises and leaves the positions alone, and yet its proceeds
-- are in the cash balance, with a transaction for them.
pub apply_fill-oversell :
    (id : Text) (fill : Fill) (e : AccountingEngine)
    → Decimal.lt (get_quantity fill.instrument_id e.position_ledger) fill.quantity ≡ true
    → let (r, e') = apply_fill id fill sell e in
      (r ≡ err cannot_sell)
      × (e'.position_ledger ≡ e.position_ledger)
      × (e'.cash_ledger.balance
          ≡ Decimal.quantize 2 (Decimal.add e.cash_ledger.balance (inflow fill)))
      × (length e'.cash_ledger.transactions ≡ length e.cash_ledger.transactions + 1)
unfolding apply_fill record_cash
apply_fill-oversell id fill e h =
    let short = apply_sell-short fill.instrument_id fill.quantity fill.price e.position_ledger h in
    rw short (refl, refl, refl, omega (arith, length-append e.cash_ledger.transactions (_ ∷ [])))
