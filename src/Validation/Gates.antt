-- ===== src/Validation/Gates.antt =====
-- Hard gates and the verdict (quantlab/validation/gates.py, verdicts.py). A reason is the fact that
-- its text reports.
pub mod Policy
use quantlab_v.Prelude.{
  Bool, true, false, not, ◌||◌, Option, none, some, List, [], ◌∷◌, ◌++◌, map, if◌then◌else◌, filter,
  Text,
}
use quantlab_v.Time.{DateTime}

-- `FrozenCandidate` of quantlab/validation/candidate.py, without the configuration itself
pub record FrozenCandidate : Type 0 where
  pub candidate_id : Text
  pub strategy_id : Text
  pub code_fingerprint : Text
  pub frozen_at : DateTime
  pub config_hash : Text

pub data HardGateType : Type 0 where
  lookahead_leakage data_integrity authority reproducibility lockbox_discipline : HardGateType

pub data GateReason : Type 0 where
  not_frozen empty_lineage lookahead corrupted differing_hashes : GateReason

pub data Reason : Type 0 where
  gate_failed : HardGateType → Option GateReason → Reason
  cost_fragile concentrated multiple_testing all_passed : Reason

pub record GateDecision : Type 0 where
  pub gate_type : HardGateType
  pub passed : Bool
  pub reason : Option GateReason

abbrev pub gate : HardGateType → Bool → Option GateReason → GateDecision
gate t p r = record { gate_type = t; passed = p; reason = r }

-- `not s`
abbrev pub no_text : Text → Bool
no_text [] = true
no_text (c ∷ s) = false

-- `evaluate_authority`
unfoldable pub evaluate_authority : Option FrozenCandidate → GateDecision
evaluate_authority none = gate authority false (some not_frozen)
evaluate_authority (some c) =
    if no_text c.code_fingerprint || no_text c.config_hash
    then gate authority false (some empty_lineage)
    else gate authority true none

-- `evaluate_leakage`
unfoldable pub evaluate_leakage : Bool → GateDecision
evaluate_leakage lookahead_detected =
    if lookahead_detected
    then gate lookahead_leakage false (some lookahead)
    else gate lookahead_leakage true none

-- `evaluate_all`
unfoldable pub evaluate_all : Option FrozenCandidate → Bool → Bool → Bool → List GateDecision
unfolding evaluate_authority evaluate_leakage
evaluate_all candidate lookahead_detected data_corrupt reproducibility_failed =
    evaluate_authority candidate
    ∷ (if lookahead_detected then evaluate_leakage true else evaluate_leakage false)
    ∷ (if data_corrupt
        then gate data_integrity false (some corrupted)
        else gate data_integrity true none)
    ∷ (if reproducibility_failed
        then gate reproducibility false (some differing_hashes)
        else gate reproducibility true none)
    ∷ []

pub data ValidationVerdict : Type 0 where
  rejected research_only validated paper_candidate : ValidationVerdict

-- What the verdict reads of the robustness artifact and the multiple-testing evidence.
pub record Evidence : Type 0 where
  pub is_cost_fragile : Bool
  pub is_excessively_concentrated : Bool
  pub is_multiple_testing_warned : Bool

abbrev pub when : Bool → Reason → List Reason
when b r = if b then r ∷ [] else []

-- `failed_gates`
abbrev pub failed_gates : List GateDecision → List GateDecision
failed_gates gates = filter (λ (g : GateDecision). not g.passed) gates

abbrev pub soft_verdict : Evidence → Bool → ValidationVerdict × List Reason
soft_verdict e is_paper_eligible =
    if e.is_cost_fragile || e.is_excessively_concentrated || e.is_multiple_testing_warned
    then (
      research_only,
      when e.is_cost_fragile cost_fragile
          ++ when e.is_excessively_concentrated concentrated
          ++ when e.is_multiple_testing_warned multiple_testing,
    )
    else if is_paper_eligible
    then (paper_candidate, all_passed ∷ [])
    else (validated, all_passed ∷ [])

-- `VerdictEngine.determine_verdict`
unfoldable pub determine_verdict :
    List GateDecision → Evidence → Bool → ValidationVerdict × List Reason
determine_verdict hard_gates e is_paper_eligible = elim (failed_gates hard_gates) [
  | [] ↦ soft_verdict e is_paper_eligible
  | g ∷ gs ↦ (rejected, map (λ (x : GateDecision). gate_failed x.gate_type x.reason) (g ∷ gs))
]
