-- ===== src/Backtest/Accounting/Audit.antt =====
-- The audit trail of the whole engine: every method posts to the cash ledger by `record_cash` alone.
use quantlab_v.Prelude.{inl, inr, List, [], ◌∷◌, Bool-cases, Option-cases, get_or, Text}
use quantlab_v.Prelude.Result.{Result, ok, err}
use quantlab_v.Time.{DateTime}
use quantlab_v.Decimal
use quantlab_v.Decimal.{Decimal}
use quantlab_v.Domain.Orders.{OrderSide, buy, sell, Fill}
use quantlab_v.Domain.Market.{
  CorporateAction, CorporateActionType, split, dividend, symbol_change, merger, spinoff, delisting,
}
use quantlab_v.Backtest.Ledger.{PositionLedger, apply_buy, apply_sell, apply_split, get_quantity}
use quantlab_v.Backtest.Ledger.Cash.{IsAudited, record_cash-IsAudited}
use quantlab_v.Backtest.Accounting.{
  AccountingEngine, Outcome, settle, settle_sale, positive, apply_fill, apply_dividend,
  credit_delisting, apply_held, apply_corporate_action,
}

abbrev pub IsSound : AccountingEngine → Type 0
IsSound e = IsAudited e.cash_ledger

settle-IsSound :
    (r : Result PositionLedger) (e : AccountingEngine) → IsSound e → IsSound (settle r e).1
settle-IsSound (ok p) e h = h
settle-IsSound (err x) e h = h

settle_sale-IsSound :
    (r : Result (Decimal × PositionLedger)) (e : AccountingEngine)
    → IsSound e
    → IsSound (settle_sale r e).1
settle_sale-IsSound (ok (d, p)) e h = h
settle_sale-IsSound (err x) e h = h

-- A fill, settled or refused, leaves the audit trail whole.
pub apply_fill-IsSound :
    (id : Text) (fill : Fill) (side : OrderSide) (e : AccountingEngine)
    → IsSound e
    → IsSound (apply_fill id fill side e).1
unfolding apply_fill
apply_fill-IsSound id fill buy e h =
    settle-IsSound (apply_buy fill.instrument_id fill.quantity fill.price e.position_ledger) _
      (record_cash-IsAudited _ _ _ _ _ e.cash_ledger h)
apply_fill-IsSound id fill sell e h =
    settle_sale-IsSound (apply_sell fill.instrument_id fill.quantity fill.price e.position_ledger) _
      (record_cash-IsAudited _ _ _ _ _ e.cash_ledger h)

apply_dividend-IsSound :
    (id : Text) (a : CorporateAction) (t : DateTime) (q : Decimal) (e : AccountingEngine)
    → IsSound e
    → IsSound (apply_dividend id a t q e).1
unfolding apply_dividend
apply_dividend-IsSound id a t q e h = elim (Option-cases (positive a.cash_amount)) [
  | inl n ↦ rw (n, apply_dividend) h
  | inr (d, s) ↦ rw (s, apply_dividend) (record_cash-IsAudited _ _ _ _ _ e.cash_ledger h)
]

credit_delisting-IsSound :
    (id : Text) (a : CorporateAction) (t : DateTime) (c : Decimal) (o : Outcome)
    → IsSound o.1
    → IsSound (credit_delisting id a t c o).1
unfolding credit_delisting
credit_delisting-IsSound id a t c (err x, e) h = h
credit_delisting-IsSound id a t c (ok d, e) h = elim (Bool-cases (Decimal.lt Decimal.nought c)) [
  | inl p ↦ rw p (record_cash-IsAudited _ _ _ _ _ e.cash_ledger h)
  | inr p ↦ rw p h
]

apply_held-IsSound :
    (id : Text) (a : CorporateAction) (t : DateTime) (q : Decimal) (k : CorporateActionType)
    (e : AccountingEngine)
    → IsSound e
    → IsSound (apply_held id a t q k e).1
unfolding apply_held
apply_held-IsSound id a t q split e h = elim (Option-cases (positive a.ratio)) [
  | inl n ↦ rw (n, apply_held) h
  | inr (r, s) ↦
      rw (s, apply_held) (settle-IsSound (apply_split a.instrument_id r e.position_ledger) e h)
]
apply_held-IsSound id a t q dividend e h = apply_dividend-IsSound id a t q e h
apply_held-IsSound id a t q delisting e h = credit_delisting-IsSound id a t _ _ (
    settle_sale-IsSound
      (apply_sell a.instrument_id q (get_or a.cash_amount Decimal.nought) e.position_ledger) e h)
apply_held-IsSound id a t q symbol_change e h = h
apply_held-IsSound id a t q merger e h = h
apply_held-IsSound id a t q spinoff e h = h

-- So does a corporate action.
pub apply_corporate_action-IsSound :
    (id : Text) (a : CorporateAction) (t : DateTime) (e : AccountingEngine)
    → IsSound e
    → IsSound (apply_corporate_action id a t e).1
unfolding apply_corporate_action
apply_corporate_action-IsSound id a t e h =
    elim (Bool-cases (Decimal.le (get_quantity a.instrument_id e.position_ledger) Decimal.nought)) [
      | inl p ↦ rw p h
      | inr p ↦ rw p (apply_held-IsSound id a t _ a.action_type e h)
    ]

-- What the engine is told to do, one after the other; a refusal does not stop the series.
pub data Command : Type 0 where
  trade : Text → Fill → OrderSide → Command
  action : Text → CorporateAction → DateTime → Command

abbrev pub perform : Command → AccountingEngine → Outcome
perform (trade id f s) e = apply_fill id f s e
perform (action id a t) e = apply_corporate_action id a t e

abbrev pub run : List Command → AccountingEngine → AccountingEngine
run [] e = e
run (c ∷ cs) e = run cs (perform c e).1

perform-IsSound : (c : Command) (e : AccountingEngine) → IsSound e → IsSound (perform c e).1
perform-IsSound (trade id f s) e h = apply_fill-IsSound id f s e h
perform-IsSound (action id a t) e h = apply_corporate_action-IsSound id a t e h

-- After any series of fills and corporate actions, refused ones included, the transactions lead
-- from the initial cash to the balance, each by its amount.
pub run-IsSound : (cs : List Command) (e : AccountingEngine) → IsSound e → IsSound (run cs e)
run-IsSound [] e h = h
run-IsSound (c ∷ cs) e h = run-IsSound cs (perform c e).1 (perform-IsSound c e h)
