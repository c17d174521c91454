-- ===== src/Backtest/Ledger.antt =====
-- The cash ledger and the position ledger (quantlab/backtest/ledger.py). A method takes the object
-- last and returns the new one. The `description` of a transaction, which is only shown, is left
-- out.
pub mod Cash
pub mod Positions
use quantlab_v.Prelude.{Option, none, some, List, [], ◌∷◌, ◌++◌, if◌then◌else◌, Text}
use quantlab_v.Prelude.Result.{◌>>=◌, Result, ok, err, cannot_sell}
use quantlab_v.Prelude.Dict.{Dict, lookup, insert, erase}
use quantlab_v.Time.{DateTime}
use quantlab_v.Decimal
use quantlab_v.Decimal.{Decimal, nought}
use quantlab_v.Domain.Identity.{InstrumentId}

pub data TransactionType : Type 0 where
  initial_cash buy_fill sell_fill commission_fee dividend_payment : TransactionType
  split_adjustment delisting_settlement : TransactionType

pub record CashTransaction : Type 0 where
  pub transaction_id : Text
  pub timestamp : DateTime
  pub transaction_type : TransactionType
  pub amount : Decimal
  pub balance_after : Decimal
  pub instrument_id : Option InstrumentId

pub record PositionLot : Type 0 where
  pub instrument_id : InstrumentId
  pub quantity : Decimal
  pub cost_basis_per_share : Decimal

-- `PositionLot.total_cost`
unfoldable pub total_cost : PositionLot → Decimal
total_cost lot = Decimal.quantize 4 (Decimal.mul lot.quantity lot.cost_basis_per_share)

pub record CashLedger : Type 0 where
  pub initial : Decimal
  pub balance : Decimal
  pub transactions : List CashTransaction

-- `CashLedger.__init__`
unfoldable pub new_cash_ledger : Decimal → CashLedger
new_cash_ledger cash = record { initial = cash; balance = cash; transactions = [] }

-- `CashLedger.record`; the transaction that it returns is the last of the list
unfoldable pub record_cash :
    Text → DateTime → TransactionType → Decimal → Option InstrumentId → CashLedger → CashLedger
record_cash transaction_id timestamp transaction_type amount instrument_id l =
    let new_balance = Decimal.quantize 2 (Decimal.add l.balance amount) in
    let tx : CashTransaction = record {
      transaction_id = transaction_id;
      timestamp = timestamp;
      transaction_type = transaction_type;
      amount = amount;
      balance_after = new_balance;
      instrument_id = instrument_id;
    } in
    record l { balance = new_balance; transactions = l.transactions ++ tx ∷ [] }

pub record PositionLedger : Type 0 where
  pub positions : Dict PositionLot
  pub realized_pnl : Decimal

-- `PositionLedger.__init__`
unfoldable pub new_position_ledger : PositionLedger
new_position_ledger = record { positions = []; realized_pnl = nought }

unfoldable pub get_quantity : InstrumentId → PositionLedger → Decimal
get_quantity i l = elim (lookup i l.positions) [ none ↦ nought | some lot ↦ lot.quantity ]

abbrev pub lot_of : InstrumentId → Decimal → Decimal → PositionLot
lot_of i q c = record { instrument_id = i; quantity = q; cost_basis_per_share = c }

abbrev pub put_lot : InstrumentId → PositionLot → PositionLedger → PositionLedger
put_lot i lot l = record l { positions = insert i lot l.positions }

-- `current_lot is None or current_lot.quantity == 0`, and what follows
unfoldable pub bought : InstrumentId → Decimal → Decimal → Option PositionLot → Result PositionLot
bought i quantity price none = ok (lot_of i quantity price)
bought i quantity price (some lot) =
    if Decimal.eq lot.quantity nought then ok (lot_of i quantity price) else (do
      let new_qty = Decimal.add lot.quantity quantity
      let cost =
          Decimal.add (Decimal.mul lot.quantity lot.cost_basis_per_share)
            (Decimal.mul quantity price)
      avg ← Decimal.div cost new_qty
      ok (lot_of i new_qty (Decimal.quantize 4 avg)))

-- `PositionLedger.apply_buy`
unfoldable pub apply_buy : InstrumentId → Decimal → Decimal → PositionLedger → Result PositionLedger
unfolding bought
apply_buy i quantity price l = do
  lot ← bought i quantity price (lookup i l.positions)
  ok (put_lot i lot l)

-- the holding after a sale that is covered
unfoldable pub sold : InstrumentId → Decimal → PositionLot → PositionLedger → PositionLedger
sold i quantity lot l =
    let remaining_qty = Decimal.sub lot.quantity quantity in
    if Decimal.eq remaining_qty nought
    then record l { positions = erase i l.positions }
    else put_lot i (lot_of i remaining_qty lot.cost_basis_per_share) l

unfoldable pub realized_of : Decimal → Decimal → PositionLot → Decimal
realized_of quantity price lot =
    Decimal.quantize 2 (Decimal.mul (Decimal.sub price lot.cost_basis_per_share) quantity)

unfoldable pub book_pnl : Decimal → PositionLedger → PositionLedger
book_pnl realized l = record l {
  realized_pnl = Decimal.quantize 2 (Decimal.add l.realized_pnl realized);
}

-- `PositionLedger.apply_sell`, with the realized profit; it raises before it writes
unfoldable pub apply_sell :
    InstrumentId → Decimal → Decimal → PositionLedger → Result (Decimal × PositionLedger)
apply_sell i quantity price l = elim (lookup i l.positions) [
  | none ↦ err cannot_sell
  | some lot ↦
      if Decimal.lt lot.quantity quantity
      then err cannot_sell
      else ok (
        realized_of quantity price lot,
        sold i quantity lot (book_pnl (realized_of quantity price lot) l),
      )
]

-- `PositionLedger.apply_split`
unfoldable pub apply_split : InstrumentId → Decimal → PositionLedger → Result PositionLedger
apply_split i split_ratio l = elim (lookup i l.positions) [
  | none ↦ ok l
  | some lot ↦ if Decimal.eq lot.quantity nought then ok l else (do
    let new_qty = Decimal.quantize 4 (Decimal.mul lot.quantity split_ratio)
    cost ← Decimal.div lot.cost_basis_per_share split_ratio
    ok (put_lot i (lot_of i new_qty (Decimal.quantize 4 cost)) l))
]
