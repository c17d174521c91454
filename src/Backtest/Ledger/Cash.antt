-- ===== src/Backtest/Ledger/Cash.antt =====
-- The cash ledger: append-only, auditable, and exact in cents.
use quantlab_v.Prelude.{◌^◌, ◌<◌, ◌≡◌, refl, Option, List, [], ◌∷◌, ◌++◌, Text}
use quantlab_v.Prelude.Int.{ℤ, mag, ◌+ℤ◌}
use quantlab_v.Time.{DateTime}
use quantlab_v.Decimal
use quantlab_v.Decimal.{Decimal, precision}
use quantlab_v.Decimal.Cents.{cents, quantize-add-cents}
use quantlab_v.Domain.Identity.{InstrumentId}
use quantlab_v.Backtest.Ledger.{
  CashLedger, CashTransaction, TransactionType, new_cash_ledger, record_cash,
}

-- From the balance `b` the transactions lead, each by its amount, to the balance `e`.
abbrev pub Chain : Decimal → List CashTransaction → Decimal → Type 0
Chain b [] e = e ≡ b
Chain b (tx ∷ txs) e =
    (tx.balance_after ≡ Decimal.quantize 2 (Decimal.add b tx.amount)) × Chain tx.balance_after txs e

-- The transactions account for the balance.
abbrev pub IsAudited : CashLedger → Type 0
IsAudited l = Chain l.initial l.transactions l.balance

pub new_cash_ledger-IsAudited : (d : Decimal) → IsAudited (new_cash_ledger d)
unfolding new_cash_ledger
new_cash_ledger-IsAudited d = refl

Chain-snoc :
    (b e : Decimal) (txs : List CashTransaction) (tx : CashTransaction)
    → Chain b txs e
    → tx.balance_after ≡ Decimal.quantize 2 (Decimal.add e tx.amount)
    → Chain b (txs ++ tx ∷ []) tx.balance_after
Chain-snoc b e [] tx h k = (rw (← h) k, refl)
Chain-snoc b e (t ∷ txs) tx h k = (h.0, Chain-snoc t.balance_after e txs tx h.1 k)

-- Recording keeps the audit trail, keeps every earlier transaction in its place, and adds one.
pub record_cash-IsAudited :
    (id : Text) (t : DateTime) (k : TransactionType) (amount : Decimal) (i : Option InstrumentId)
    (l : CashLedger)
    → IsAudited l
    → IsAudited (record_cash id t k amount i l)
unfolding record_cash
record_cash-IsAudited id t k amount i l h = Chain-snoc l.initial l.balance l.transactions _ h refl

-- A posting in whole cents, by its amount.
pub record Posting : Type 0 where
  pub id : Text
  pub at : DateTime
  pub kind : TransactionType
  pub amount : ℤ
  pub instrument : Option InstrumentId

abbrev pub post_all : List Posting → CashLedger → CashLedger
post_all [] l = l
post_all (p ∷ ps) l = post_all ps (record_cash p.id p.at p.kind (cents p.amount) p.instrument l)

abbrev pub total : ℤ → List Posting → ℤ
total b [] = b
total b (p ∷ ps) = total (b +ℤ p.amount) ps

-- Every balance on the way has at most 28 digits.
abbrev pub Fits : ℤ → List Posting → Type 0
Fits b [] = Unit
Fits b (p ∷ ps) = (mag (b +ℤ p.amount) < 10 ^ precision) × Fits (b +ℤ p.amount) ps

post_all-balance :
    (ps : List Posting) (b : ℤ) (l : CashLedger)
    → l.balance ≡ cents b
    → Fits b ps
    → (post_all ps l).balance ≡ cents (total b ps)
unfolding record_cash
post_all-balance [] b l h f = h
post_all-balance (p ∷ ps) b l h f =
    post_all-balance ps (b +ℤ p.amount) _ (rw h (quantize-add-cents b p.amount f.0)) f.1

-- Over any series of postings in whole cents whose balances all have at most 28 digits, the final
-- balance is the initial cash plus the amounts, to the cent.
pub post_all-conserves :
    (ps : List Posting) (initial : ℤ)
    → Fits initial ps
    → (post_all ps (new_cash_ledger (cents initial))).balance ≡ cents (total initial ps)
unfolding new_cash_ledger
post_all-conserves ps initial f = post_all-balance ps initial _ refl f
