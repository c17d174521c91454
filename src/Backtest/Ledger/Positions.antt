-- ===== src/Backtest/Ledger/Positions.antt =====
-- The position ledger: a sale must be covered, other holdings are never touched, and the books stay
-- a dictionary.
use quantlab_v.Prelude.{
  ◌≡◌, ◌↔◌, inl, inr, true, false, Option, none, some, arith, ◌==◌, if◌then◌else◌, Bool-cases,
  Option-cases,
}
use quantlab_v.Prelude.Result.{ok, err, cannot_sell}
use quantlab_v.Prelude.Dict.{lookup, lookup-insert, lookup-erase, IsDict, insert-IsDict}
use quantlab_v.Decimal
use quantlab_v.Decimal.{Decimal, nought}
use quantlab_v.Domain.Identity.{InstrumentId}
use quantlab_v.Backtest.Ledger.{
  PositionLedger, PositionLot, lot_of, get_quantity, sold, book_pnl, realized_of, apply_buy,
  apply_sell,
}

-- Whether the holding covers a sale.
abbrev pub Covered : InstrumentId → Decimal → PositionLedger → PositionLot → Type 0
Covered i quantity l lot =
    (lookup i l.positions ≡ some lot) × (Decimal.lt lot.quantity quantity ≡ false)

-- A sale of a positive quantity goes through exactly when no less than that is held; whatever is
-- held of other instruments, and whatever the price.
pub apply_sell-iff_held :
    (i : InstrumentId) (quantity price : Decimal) (l : PositionLedger)
    → Decimal.lt nought quantity ≡ true
    → ((r : Decimal) × (l' : PositionLedger) × (apply_sell i quantity price l ≡ ok (r, l')))
      ↔ (Decimal.lt (get_quantity i l) quantity ≡ false)
unfolding apply_sell get_quantity
apply_sell-iff_held i quantity price l pos = elim (Option-cases (lookup i l.positions)) [
  | inl missing ↦ (
    λ x. absurd (cc (rw (missing, apply_sell) at x.2)),
    λ h. absurd (cc (pos, rw (missing, get_quantity) at h)),
  )
  | inr (lot, e) ↦ elim (Bool-cases (Decimal.lt lot.quantity quantity)) [
    | inl short ↦ (
      λ x. absurd (cc (rw (e, short, apply_sell) at x.2)),
      λ h. absurd (cc (short, rw (e, get_quantity) at h)),
    )
    | inr enough ↦ (
      λ x. rw (e, get_quantity) enough,
      λ h. (
        realized_of quantity price lot,
        sold i quantity lot (book_pnl (realized_of quantity price lot) l),
        rw (e, enough, apply_sell),
      ),
    )
  ]
]

-- After a covered sale the lot is reduced by the quantity at its old cost, or gone if nothing
-- remains, and every other holding is as it was; the profit is the quantity times what the price is
-- above that cost, in cents, and is added to the total.
pub apply_sell-effect :
    (i j : InstrumentId) (quantity price : Decimal) (l : PositionLedger) {r : Decimal}
    {l' : PositionLedger} (lot : PositionLot)
    → Covered i quantity l lot
    → apply_sell i quantity price l ≡ ok (r, l')
    → let remaining = Decimal.sub lot.quantity quantity in
      let left : Option PositionLot =
        if Decimal.eq remaining nought
        then none
        else some (lot_of i remaining lot.cost_basis_per_share) in
      (lookup j l'.positions ≡ (if i == j then left else lookup j l.positions))
      × (r ≡ Decimal.quantize 2 (Decimal.mul (Decimal.sub price lot.cost_basis_per_share) quantity))
      × (l'.realized_pnl ≡ Decimal.quantize 2 (Decimal.add l.realized_pnl r))
unfolding apply_sell sold realized_of book_pnl
apply_sell-effect i j quantity price l lot c h = ground (
  arith,
  lookup-insert i j (lot_of i (Decimal.sub lot.quantity quantity) lot.cost_basis_per_share)
      l.positions,
  lookup-erase i j l.positions,
)

-- An uncovered sale raises.
pub apply_sell-short :
    (i : InstrumentId) (quantity price : Decimal) (l : PositionLedger)
    → Decimal.lt (get_quantity i l) quantity ≡ true
    → apply_sell i quantity price l ≡ err cannot_sell
unfolding apply_sell get_quantity
apply_sell-short i quantity price l h = ground arith

-- A purchase or a split touches its own instrument alone.
pub apply_buy-other :
    (i j : InstrumentId) (quantity price : Decimal) (l : PositionLedger) {l' : PositionLedger}
    → apply_buy i quantity price l ≡ ok l'
    → (i == j) ≡ false
    → lookup j l'.positions ≡ lookup j l.positions
unfolding apply_buy
apply_buy-other i j quantity price l h n = grind (arith, lookup-insert)

abbrev pub IsBook : PositionLedger → Type 0
IsBook l = IsDict l.positions

-- The dictionary law is kept by the three operations.
pub apply_buy-IsBook :
    (i : InstrumentId) (quantity price : Decimal) (l : PositionLedger) {l' : PositionLedger}
    → IsBook l
    → apply_buy i quantity price l ≡ ok l'
    → IsBook l'
unfolding apply_buy
apply_buy-IsBook i quantity price l v h = grind (arith, insert-IsDict)
