-- ===== src/Validation/Trials/AppendOnly.antt =====
-- The trial ledger only grows, and a specification is recorded once.
use quantlab_v.Prelude.{
  ◌≡◌, sym, ap, ◌∙◌, inl, inr, Option, some, List, [], ◌∷◌, ◌++◌, append-nil, append_assoc,
  Bool-cases, Option-cases, Text, text_eq,
}
use quantlab_v.Prelude.Table.{find, text_eq_refl, text_eq→eq, find-put_self, find-put_ne}
use quantlab_v.Time.{DateTime}
use quantlab_v.Validation.Trials.{TrialRecord, TrialLedger, trial_of, record_once}

-- An attempt to record.
pub record Attempt : Type 0 where
  pub trial_id : Text
  pub campaign_id : Text
  pub candidate_id : Text
  pub trial_spec : Text
  pub sharpe : Text
  pub cagr : Text
  pub now : DateTime

module _ (hash : Text → Text) where
  abbrev pub attempt : Attempt → TrialLedger → TrialRecord × TrialLedger
  attempt a l =
      record_once hash a.trial_id a.campaign_id a.candidate_id a.trial_spec a.sharpe a.cagr a.now l

  abbrev pub attempts : List Attempt → TrialLedger → TrialLedger
  attempts [] l = l
  attempts (a ∷ more) l = attempts more (attempt a l).1

  attempt-appends :
      (a : Attempt) (l : TrialLedger)
      → (more : List TrialRecord) × ((attempt a l).1.trials ≡ l.trials ++ more)
  unfolding record_once
  attempt-appends a l = elim (Option-cases (find text_eq (hash a.trial_spec) l.by_hash)) [
    | inr (x, e) ↦ ([], rw (e, record_once, append-nil))
    | inl e ↦ (
      trial_of hash a.trial_id a.campaign_id a.candidate_id a.trial_spec a.sharpe a.cagr a.now ∷ [],
      rw (e, record_once),
    )
  ]

  -- Over any series of attempts the records so far stay, in their order, at the front.
  attempts-append :
      (as_made : List Attempt) (l : TrialLedger)
      → (more : List TrialRecord) × ((attempts as_made l).trials ≡ l.trials ++ more)
  attempts-append [] l = ([], sym (append-nil l.trials))
  attempts-append (a ∷ rest) l =
      let (m, e) = attempt-appends a l in
      let (m', e') = attempts-append rest (attempt a l).1 in
      (m ++ m', e' ∙ ap (λ (t : List TrialRecord). t ++ m') e ∙ append_assoc l.trials m m')

  abbrev pub recorded : Text → TrialLedger → Option TrialRecord
  recorded spec l = find text_eq (hash spec) l.by_hash

  recorded-attempt :
      (a : Attempt) (spec : Text) (t : TrialRecord) (l : TrialLedger)
      → recorded spec l ≡ some t
      → recorded spec (attempt a l).1 ≡ some t
  unfolding record_once
  recorded-attempt a spec t l h = elim (Option-cases (find text_eq (hash a.trial_spec) l.by_hash)) [
    | inr (x, e) ↦ rw (e, record_once) h
    | inl e ↦ elim (Bool-cases (text_eq (hash a.trial_spec) (hash spec))) [
      | inl same ↦
          let k = text_eq→eq (hash a.trial_spec) (hash spec) same in
          absurd (cc (e, h, ap (λ (q : Text). find text_eq q l.by_hash) k))
      | inr other ↦
          rw
            (
              e,
              record_once,
              find-put_ne text_eq text_eq_refl text_eq→eq _ (hash spec) _ l.by_hash other,
            )
            h
    ]
  ]

  recorded-attempts :
      (more : List Attempt) (spec : Text) (t : TrialRecord) (l : TrialLedger)
      → recorded spec l ≡ some t
      → recorded spec (attempts more l) ≡ some t
  recorded-attempts [] spec t l h = h
  recorded-attempts (a ∷ more) spec t l h =
      recorded-attempts more spec t (attempt a l).1 (recorded-attempt a spec t l h)

  attempt-recorded :
      (a : Attempt) (l : TrialLedger) → recorded a.trial_spec (attempt a l).1 ≡ some (attempt a l).0
  unfolding record_once
  attempt-recorded a l = elim (Option-cases (find text_eq (hash a.trial_spec) l.by_hash)) [
    | inr (x, e) ↦ rw (e, record_once) e
    | inl e ↦ rw (e, record_once) (find-put_self text_eq text_eq_refl text_eq→eq _ _ l.by_hash)
  ]

  old-attempt :
      (a : Attempt) (t : TrialRecord) (l : TrialLedger)
      → recorded a.trial_spec l ≡ some t
      → attempt a l ≡ (t, l)
  unfolding record_once
  old-attempt a t l h = rw (h, record_once)

  -- A specification is recorded once: after any further attempts, one with the same specification
  -- gets the first record and leaves the ledger as it is; the attempts between only append records.
  pub record_once-idempotent :
      (first again : Attempt) (between : List Attempt) (l : TrialLedger)
      → again.trial_spec ≡ first.trial_spec
      → let (t, l1) = attempt first l in
        let l2 = attempts between l1 in
        (attempt again l2 ≡ (t, l2)) × ((more : List TrialRecord) × (l2.trials ≡ l1.trials ++ more))
  record_once-idempotent first again between l e =
      let (t, l1) = attempt first l in
      let kept = recorded-attempts between first.trial_spec t l1 (attempt-recorded first l) in
      (old-attempt again t (attempts between l1) (rw e kept), attempts-append between l1)
