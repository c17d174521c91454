-- ===== src/Validation/Trials.antt =====
-- The trial ledger (quantlab/validation/trials.py). The hash of a specification (SHA-256 of its
-- JSON text) is a parameter, and a floating-point statistic is kept as its text.
pub mod AppendOnly
use quantlab_v.Prelude.{ℕ, none, some, List, [], ◌∷◌, ◌++◌, map, length, filter, Text, text_eq}
use quantlab_v.Prelude.Table.{Table, find, put}
use quantlab_v.Time.{DateTime}

pub record TrialRecord : Type 0 where
  pub trial_id : Text
  pub campaign_id : Text
  pub candidate_id : Text
  pub trial_spec : Text
  pub spec_hash : Text
  pub observed_sharpe : Text
  pub observed_cagr : Text
  pub recorded_at : DateTime

pub record TrialLedger : Type 0 where
  pub trials : List TrialRecord
  pub by_hash : Table Text TrialRecord

-- `TrialLedger.__init__`
abbrev pub new_ledger : TrialLedger
new_ledger = record { trials = []; by_hash = [] }

-- `total_trials`
unfoldable pub total_trials : TrialLedger → ℕ
total_trials l = length l.trials

module _ (hash : Text → Text) where
  unfoldable pub trial_of : Text → Text → Text → Text → Text → Text → DateTime → TrialRecord
  trial_of trial_id campaign_id candidate_id trial_spec sharpe cagr now = record {
    trial_id = trial_id;
    campaign_id = campaign_id;
    candidate_id = candidate_id;
    trial_spec = trial_spec;
    spec_hash = hash trial_spec;
    observed_sharpe = sharpe;
    observed_cagr = cagr;
    recorded_at = now;
  }

  -- `record_once`: the record that it returns, and the ledger
  unfoldable pub record_once :
      Text → Text → Text → Text → Text → Text → DateTime → TrialLedger → TrialRecord × TrialLedger
  record_once trial_id campaign_id candidate_id trial_spec sharpe cagr now l =
      let new = trial_of trial_id campaign_id candidate_id trial_spec sharpe cagr now in
      elim (find text_eq (hash trial_spec) l.by_hash) [
        | some old ↦ (old, l)
        | none ↦ (
          new,
          record {
            trials = l.trials ++ new ∷ [];
            by_hash = put text_eq (hash trial_spec) new l.by_hash;
          },
        )
      ]

-- `get_sharpes_for_campaign`
unfoldable pub get_sharpes_for_campaign : Text → TrialLedger → List Text
get_sharpes_for_campaign campaign_id l =
    map (λ (t : TrialRecord). t.observed_sharpe)
      (filter (λ (t : TrialRecord). text_eq t.campaign_id campaign_id) l.trials)
