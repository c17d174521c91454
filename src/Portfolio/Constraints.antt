-- ===== src/Portfolio/Constraints.antt =====
-- The constraints on weights (quantlab/portfolio/constraints.py). Each returns the adjusted weights
-- and a result for the audit. The texts that a result may hold are a data type.
pub mod Caps
use quantlab_v.Prelude.{Bool, true, false, [], ◌∷◌, if◌then◌else◌, get_or, Text, text_eq}
use quantlab_v.Prelude.Dict.{Dict, lookup, insert}
use quantlab_v.Prelude.Table.{Table, find, put}
use quantlab_v.Decimal
use quantlab_v.Decimal.{Decimal, nought, dec}
use quantlab_v.Domain.Identity.{InstrumentId}

pub data ConstraintStatus : Type 0 where
  pass adjust reject : ConstraintStatus

abbrev pub Weights : Type 0
Weights = Dict Decimal

pub data ConstraintName : Type 0 where
  max_name_weight max_sector_weight gross_exposure : ConstraintName

-- the reasons; the last one shows a total and what it was scaled down to
pub data Reason : Type 0 where
  capped_weights weights_within_limit no_sector_mapping : Reason
  scaled_sectors sectors_within_limit gross_within_limit : Reason
  gross_scaled_down : Decimal → Decimal → Reason

-- weights, totals by sector, or one total
pub data AuditValue : Type 0 where
  weights_value : Weights → AuditValue
  sectors_value : Table Text Decimal → AuditValue
  total_value : Decimal → AuditValue

pub record ConstraintResult : Type 0 where
  pub name : ConstraintName
  pub status : ConstraintStatus
  pub reason : Reason
  pub before_value : AuditValue
  pub after_value : AuditValue

abbrev pub status_of : Bool → ConstraintStatus
status_of violations = if violations then adjust else pass

-- the loop of `MaxNameWeightConstraint.apply`: `adjusted[inst] = max_weight` where it is exceeded
unfoldable pub cap_names : Decimal → Weights → Weights × Bool
cap_names max_weight [] = ([], false)
cap_names max_weight ((inst, w) ∷ weights) =
    let (rest, violations) = cap_names max_weight weights in
    if Decimal.lt max_weight w
    then ((inst, max_weight) ∷ rest, true)
    else ((inst, w) ∷ rest, violations)

-- `MaxNameWeightConstraint.apply`
unfoldable pub apply_max_name_weight : Decimal → Weights → Weights × ConstraintResult
unfolding cap_names
apply_max_name_weight max_weight weights =
    let (adjusted, violations) = cap_names max_weight weights in
    (
      adjusted,
      record {
        name = max_name_weight;
        status = status_of violations;
        reason = if violations then capped_weights else weights_within_limit;
        before_value = weights_value weights;
        after_value = weights_value adjusted;
      },
    )

-- "UNKNOWN"
abbrev pub unknown : Text
unknown = b'U' ∷ b'N' ∷ b'K' ∷ b'N' ∷ b'O' ∷ b'W' ∷ b'N' ∷ []

-- `sectors.get(inst, "UNKNOWN")`
abbrev pub sector_of : Dict Text → InstrumentId → Text
sector_of sectors inst = get_or (lookup inst sectors) unknown

-- the totals by sector, in the order in which the sectors occur
unfoldable pub sector_weights : Dict Text → Weights → Table Text Decimal → Table Text Decimal
sector_weights sectors [] totals = totals
sector_weights sectors ((inst, w) ∷ weights) totals =
    let sec = sector_of sectors inst in
    let total = get_or (find text_eq sec totals) nought in
    sector_weights sectors weights (put text_eq sec (Decimal.add total w) totals)

-- the inner loop: every member of the sector is scaled from its weight before
unfoldable pub scale_sector : Dict Text → Text → Decimal → Weights → Weights → Weights
scale_sector sectors sec scale [] adjusted = adjusted
scale_sector sectors sec scale ((inst, w) ∷ weights) adjusted =
    scale_sector sectors sec scale weights (
      if text_eq (sector_of sectors inst) sec
      then insert inst (Decimal.quantize 6 (Decimal.mul w scale)) adjusted
      else adjusted)

-- the loop over the totals
unfoldable pub cap_sectors :
    Decimal → Decimal → Dict Text → Weights → Table Text Decimal → Weights × Bool → Weights × Bool
cap_sectors max_sector max_unknown sectors weights [] s = s
cap_sectors max_sector max_unknown sectors weights ((sec, total_w) ∷ totals)
      (adjusted, violations) =
    let cap = if text_eq sec unknown then max_unknown else max_sector in
    let scaled = scale_sector sectors sec (Decimal.quotient cap total_w) weights adjusted in
    cap_sectors max_sector max_unknown sectors weights totals
      (if Decimal.lt cap total_w then (scaled, true) else (adjusted, violations))

-- `MaxSectorWeightConstraint.apply`; an absent mapping is an empty one
unfoldable pub apply_max_sector_weight :
    Decimal → Decimal → Dict Text → Weights → Weights × ConstraintResult
apply_max_sector_weight max_sector max_unknown [] weights = (
  weights,
  record {
    name = max_sector_weight;
    status = pass;
    reason = no_sector_mapping;
    before_value = weights_value weights;
    after_value = weights_value weights;
  },
)
apply_max_sector_weight max_sector max_unknown (s ∷ ss) weights =
    let totals = sector_weights (s ∷ ss) weights [] in
    let (adjusted, violations) =
      cap_sectors max_sector max_unknown (s ∷ ss) weights totals (weights, false) in
    (
      adjusted,
      record {
        name = max_sector_weight;
        status = status_of violations;
        reason = if violations then scaled_sectors else sectors_within_limit;
        before_value = sectors_value totals;
        after_value = weights_value adjusted;
      },
    )

-- `sum(weights.values())`
unfoldable pub sum_weights : Decimal → Weights → Decimal
sum_weights total [] = total
sum_weights total ((inst, w) ∷ weights) = sum_weights (Decimal.add total w) weights

unfoldable pub scale_all : Decimal → Weights → Weights
scale_all scale [] = []
scale_all scale ((inst, w) ∷ weights) =
    (inst, Decimal.quantize 6 (Decimal.mul w scale)) ∷ scale_all scale weights

-- `GrossExposureConstraint.apply`
unfoldable pub apply_gross_exposure : Decimal → Decimal → Weights → Weights × ConstraintResult
unfolding scale_all sum_weights
apply_gross_exposure gross_cap min_cash_buffer weights =
    let total_w = sum_weights nought weights in
    let max_allowed = Decimal.quantize 6 (Decimal.sub gross_cap min_cash_buffer) in
    let adjusted = scale_all (Decimal.quotient max_allowed total_w) weights in
    if Decimal.le total_w max_allowed
    then (
      weights,
      record {
        name = gross_exposure;
        status = pass;
        reason = gross_within_limit;
        before_value = total_value total_w;
        after_value = total_value total_w;
      },
    )
    else (
      adjusted,
      record {
        name = gross_exposure;
        status = adjust;
        reason = gross_scaled_down total_w max_allowed;
        before_value = total_value total_w;
        after_value = total_value (sum_weights (dec 0 0) adjusted);
      },
    )
