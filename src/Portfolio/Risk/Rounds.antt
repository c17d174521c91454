-- ===== src/Portfolio/Risk/Rounds.antt =====
-- The loop of the risk engine: passes of the constraints until the weights are settled.
use mathlib.Core.Option.{some-injective}
use mathlib.Core.Path.{subst}
use quantlab_v.Prelude.{ℕ, zero, suc, ◌<◌, ◌≡◌, inl, inr, true, none, some, arith, Bool-cases, Text}
use quantlab_v.Prelude.Dict.{Dict}
use quantlab_v.Portfolio.Constraints.{Weights}
use quantlab_v.Portfolio.Risk.{RiskSpec, constrain, same_weights, settle_weights}

module _ (spec : RiskSpec) (sectors : Dict Text) where
  -- The weights after some passes of the constraints.
  abbrev pub rounds : ℕ → Weights → Weights
  rounds zero ws = ws
  rounds (suc n) ws = rounds n (constrain spec sectors ws).0

  -- One more pass leaves every weight as it is, up to its value.
  abbrev pub IsSettled : Weights → Type 0
  IsSettled ws = same_weights (constrain spec sectors ws).0 ws ≡ true

  pub settle_weights-IsSettled :
      (left : ℕ) (ws out : Weights)
      → settle_weights left spec sectors ws ≡ some out
      → (n : ℕ) × (n < left) × (rounds n ws ≡ out) × IsSettled out
  unfolding settle_weights
  settle_weights-IsSettled zero ws out h = absurd (ground arith)
  settle_weights-IsSettled (suc left) ws out h =
      let next = (constrain spec sectors ws).0 in
      elim (Bool-cases (same_weights next ws)) [
        | inl e ↦
            let k : ws ≡ out = some-injective ws out (rw (e, settle_weights) at h) in
            (zero, omega arith, k, subst IsSettled k e)
        | inr e ↦
            let (n, l, r, f) =
              settle_weights-IsSettled left next out (rw (e, settle_weights) at h) in
            (suc n, omega arith, r, f)
      ]

  pub settle_weights-unsettled :
      (left : ℕ) (ws : Weights)
      → settle_weights left spec sectors ws ≡ none
      → (n : ℕ) → n < left
      → ¬ IsSettled (rounds n ws)
  unfolding settle_weights
  settle_weights-unsettled zero ws h n l = absurd (omega arith)
  settle_weights-unsettled (suc left) ws h zero l = λ f. cc (rw (f, settle_weights) at h)
  settle_weights-unsettled (suc left) ws h (suc n) l =
      let next = (constrain spec sectors ws).0 in
      elim (Bool-cases (same_weights next ws)) [
        | inl e ↦ absurd (cc (rw (e, settle_weights) at h))
        | inr e ↦ settle_weights-unsettled left next (rw (e, settle_weights) at h) n (omega arith)
      ]
