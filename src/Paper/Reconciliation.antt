-- ===== src/Paper/Reconciliation.antt =====
-- Reconciliation of the shadow book with the broker's records (quantlab/paper/reconciliation.py,
-- quantlab/paper/breaks.py). The `reason` of a break and the hash of the report, which are derived
-- from the rest, are left out.
pub mod Clean
use quantlab_v.Prelude.{
  Bool, true, false, not, Option, none, some, List, [], ◌∷◌, ◌++◌, ltb, if◌then◌else◌, filter, any,
}
use quantlab_v.Prelude.Dict.{Dict, has, keys}
use quantlab_v.Prelude.Sort.{sort_by}
use quantlab_v.Time.{DateTime}
use quantlab_v.Decimal
use quantlab_v.Decimal.{Decimal, nought, dec}
use quantlab_v.Domain.Identity.{InstrumentId}
use quantlab_v.Paper.Adapter.{BrokerAccount, held}

pub data BreakSeverity : Type 0 where
  no_severity warning critical : BreakSeverity

pub data BreakType : Type 0 where
  cash_mismatch position_quantity_mismatch missing_position unexpected_position : BreakType
  dividend_mismatch : BreakType

pub record TradeBreak : Type 0 where
  pub break_type : BreakType
  pub instrument_id : Option InstrumentId
  pub shadow_value : Decimal
  pub broker_value : Decimal
  pub difference : Decimal
  pub severity : BreakSeverity

pub record ReconciliationReport : Type 0 where
  pub as_of : DateTime
  pub is_clean : Bool
  pub breaks : List TradeBreak
  pub max_severity : BreakSeverity

-- part 1: more than a hundred is critical
unfoldable pub cash_breaks : Decimal → Decimal → Decimal → List TradeBreak
cash_breaks shadow_cash broker_cash cash_tolerance =
    let cash_diff = Decimal.abs (Decimal.sub shadow_cash broker_cash) in
    let found : TradeBreak = record {
      break_type = cash_mismatch;
      instrument_id = none;
      shadow_value = shadow_cash;
      broker_value = broker_cash;
      difference = cash_diff;
      severity = if Decimal.lt (dec 10000 2) cash_diff then critical else warning;
    } in
    if Decimal.lt cash_tolerance cash_diff then found ∷ [] else []

-- the body of the loop of part 2
unfoldable pub position_breaks : InstrumentId → Decimal → Decimal → List TradeBreak
position_breaks inst s_qty b_qty =
    let qty_diff = Decimal.abs (Decimal.sub s_qty b_qty) in
    let found : TradeBreak = record {
      break_type =
          if Decimal.eq s_qty nought
          then unexpected_position
          else if Decimal.eq b_qty nought
          then missing_position
          else position_quantity_mismatch;
      instrument_id = some inst;
      shadow_value = s_qty;
      broker_value = b_qty;
      difference = qty_diff;
      severity = critical;
    } in
    if Decimal.lt nought qty_diff then found ∷ [] else []

unfoldable pub all_position_breaks :
    List InstrumentId → Dict Decimal → Dict Decimal → List TradeBreak
unfolding position_breaks
all_position_breaks [] shadow broker = []
all_position_breaks (i ∷ is) shadow broker =
    position_breaks i (held i shadow) (held i broker) ++ all_position_breaks is shadow broker

-- `sorted(set(a) | set(b))`, by the text of the identifier
unfoldable pub all_instruments : Dict Decimal → Dict Decimal → List InstrumentId
all_instruments shadow broker =
    sort_by ltb (keys shadow ++ filter (λ i. not (has i shadow)) (keys broker))

abbrev pub is_critical : TradeBreak → Bool
is_critical b = elim b.severity [ critical ↦ true | _ ↦ false ]

unfoldable pub worst : List TradeBreak → BreakSeverity
worst [] = no_severity
worst (b ∷ bs) = if any is_critical (b ∷ bs) then critical else warning

abbrev pub is_empty {ℓ} : {A : Type ℓ} → List A → Bool
is_empty [] = true
is_empty (x ∷ xs) = false

-- `ShadowReconciler.reconcile`; `now` is `as_of`, or the wall clock
unfoldable pub reconcile :
    Decimal → Dict Decimal → BrokerAccount → Decimal → DateTime → ReconciliationReport
unfolding cash_breaks all_position_breaks all_instruments worst
reconcile shadow_cash shadow_positions account cash_tolerance now =
    let breaks =
      cash_breaks shadow_cash account.cash_balance cash_tolerance
      ++ all_position_breaks (all_instruments shadow_positions account.positions) shadow_positions
          account.positions in
    record { as_of = now; is_clean = is_empty breaks; breaks = breaks; max_severity = worst breaks }
