-- ===== src/Validation/Gates/Policy.antt =====
-- The policy: a failed hard gate rejects, whatever the evidence; a paper candidate has passed all.
use quantlab_v.Prelude.{
  ◌≡◌, refl, ◌↔◌, ◌⊎◌, inl, inr, Bool, true, false, Option, List, [], ◌∷◌, arith, Bool-cases,
  is_some, All,
}
use quantlab_v.Validation.Gates.{
  FrozenCandidate, GateDecision, rejected, paper_candidate, Evidence, evaluate_authority,
  evaluate_all, determine_verdict, failed_gates, soft_verdict,
}

abbrev pub AllPassed : List GateDecision → Type 0
AllPassed gates = All (λ (g : GateDecision). g.passed ≡ true) gates

failed_gates-nil : (gates : List GateDecision) → failed_gates gates ≡ [] → AllPassed gates
failed_gates-nil [] h = tt
failed_gates-nil (g ∷ gates) h = elim (Bool-cases g.passed) [
  | inl p ↦ (p, failed_gates-nil gates (ground arith))
  | inr p ↦ absurd (ground arith)
]

passed-no_failed : (gates : List GateDecision) → AllPassed gates → failed_gates gates ≡ []
passed-no_failed [] h = refl
passed-no_failed (g ∷ gates) h = ground (arith, passed-no_failed gates h.1)

List-cases :
    (l : List GateDecision)
    → (l ≡ []) ⊎ ((g : GateDecision) × (gs : List GateDecision) × (l ≡ g ∷ gs))
List-cases [] = inl refl
List-cases (g ∷ gs) = inr (g, gs, refl)

soft :
    (e : Evidence) (p : Bool)
    → ((soft_verdict e p).0 ≡ paper_candidate) ↔ (
        (e.is_cost_fragile ≡ false)
        × (e.is_excessively_concentrated ≡ false)
        × (e.is_multiple_testing_warned ≡ false)
        × (p ≡ true))
soft e p = (λ h. ground arith, λ h. ground arith)

soft_not_rejected : (e : Evidence) (p : Bool) → (soft_verdict e p).0 ≡ rejected → ⊥
soft_not_rejected e p h = ground arith

-- A paper candidate needs every hard gate passed, none of the three warnings, and eligibility; and
-- these are enough.
pub paper_candidate_iff :
    (gates : List GateDecision) (e : Evidence) (p : Bool)
    → ((determine_verdict gates e p).0 ≡ paper_candidate) ↔ (
        AllPassed gates
        × ((e.is_cost_fragile ≡ false)
            × (e.is_excessively_concentrated ≡ false)
            × (e.is_multiple_testing_warned ≡ false)
            × (p ≡ true)))
unfolding determine_verdict
paper_candidate_iff gates e p = elim (List-cases (failed_gates gates)) [
  | inl n ↦ (
    λ h. (failed_gates-nil gates n, (soft e p).0 (rw (n, determine_verdict) at h)),
    λ h. rw (n, determine_verdict) ((soft e p).1 h.1),
  )
  | inr (g, gs, n) ↦ (
    λ h. absurd (cc (rw (n, determine_verdict) at h)),
    λ h. absurd (cc (n, passed-no_failed gates h.0)),
  )
]

-- With a failed gate the verdict is a rejection, whatever the evidence; with none it
-- is not.
pub determine_verdict-rejected :
    (gates : List GateDecision) (e : Evidence) (p : Bool)
    → ((determine_verdict gates e p).0 ≡ rejected) ↔ (AllPassed gates → ⊥)
unfolding determine_verdict
determine_verdict-rejected gates e p = elim (List-cases (failed_gates gates)) [
  | inl n ↦ (
    λ h. absurd (soft_not_rejected e p (rw (n, determine_verdict) at h)),
    λ h. absurd (h (failed_gates-nil gates n)),
  )
  | inr (g, gs, n) ↦ (λ h a. cc (n, passed-no_failed gates a), λ h. rw (n, determine_verdict))
]

-- The gates of a run all pass exactly if there is a candidate, which passes the gate of authority,
-- and none of the three faults was found.
pub evaluate_all-passed :
    (c : Option FrozenCandidate) (look corrupt unrepeatable : Bool)
    → AllPassed (evaluate_all c look corrupt unrepeatable) ↔ (
        (is_some c ≡ true)
        × ((evaluate_authority c).passed ≡ true)
        × (look ≡ false)
        × (corrupt ≡ false)
        × (unrepeatable ≡ false))
unfolding evaluate_all
evaluate_all-passed c look corrupt unrepeatable = (λ h. ground arith, λ h. ground arith)
