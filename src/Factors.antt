-- ===== src/Factors.antt =====
-- The contracts of factors (quantlab/factors/contracts.py): values, and snapshots of them. A score is
-- a floating-point number in the source; its type is a parameter here.
use quantlab_v.Prelude.{Bool, true, not, ◌&&◌, Option, some, [], ◌∷◌, is_some, Text}
use quantlab_v.Prelude.Dict.{Dict}
use quantlab_v.Time.{Date, DateTime}
use quantlab_v.Domain.Identity.{InstrumentId}

pub data MissingReason : Type 0 where
  insufficient_history missing_fundamental invalid_denominator : MissingReason
  stale_data out_of_range not_in_universe : MissingReason

pub record FactorValue (Score : Type 0) : Type 0 where
  pub instrument_id : InstrumentId
  pub value : Option Score
  pub missing_reason : Option MissingReason

pub record FactorSnapshot (Score : Type 0) : Type 0 where
  pub factor_id : Text
  pub version : Text
  pub session : Date
  pub as_of : DateTime
  pub values : Dict (FactorValue Score)
  pub content_hash : Text

module _ {Score : Type 0} where
  -- `FactorValue.is_valid`
  unfoldable pub is_valid : FactorValue Score → Bool
  is_valid v = is_some v.value && not (is_some v.missing_reason)

  abbrev pub score_entry : InstrumentId → Bool → Option Score → Dict Score → Dict Score
  score_entry i true (some s) rest = (i, s) ∷ rest
  score_entry i _ _ rest = rest

  -- `FactorSnapshot.valid_scores`
  unfoldable pub scores_of : Dict (FactorValue Score) → Dict Score
  unfolding is_valid
  scores_of [] = []
  scores_of ((i, v) ∷ values) = score_entry i (is_valid v) v.value (scores_of values)

  unfoldable pub valid_scores : FactorSnapshot Score → Dict Score
  unfolding scores_of
  valid_scores s = scores_of s.values
