-- ===== src/Portfolio/Risk/Positions.antt =====
-- The positions that the risk engine makes of weights: the positive ones, by identifier.
use mathlib.Core.Path.{subst}
use quantlab_v.Prelude.{
  ℕ, ◌≡◌, refl, sym, ap, ◌∙◌, inl, inr, true, false, ◌||◌, Option, none, some, List, [], ◌∷◌, map,
  arith, ltb, ◌==◌, if◌then◌else◌, Bool-cases, get_or, any, contains, All,
}
use quantlab_v.Prelude.Result.{ok, >>=-eq-ok, ok-injective}
use quantlab_v.Prelude.Dict.{keys, lookup}
use quantlab_v.Prelude.Distinct.{any-sort_by}
use quantlab_v.Prelude.Sort.{IsOrder, IsSorted, sort_by}
use quantlab_v.Decimal
use quantlab_v.Decimal.{Decimal, nought}
use quantlab_v.Decimal.Order.{lt_irrefl}
use quantlab_v.Domain.Identity.{InstrumentId}
use quantlab_v.Domain.Portfolio.{TargetPosition, new_target_position}
use quantlab_v.Domain.Portfolio.Checks.{new_target_position-ok}
use quantlab_v.Portfolio.Constraints.{Weights}
use quantlab_v.Portfolio.Risk.{adjusted_positions}

-- A weight is kept if it is positive.
abbrev pub positive : Decimal → Option Decimal
positive w = if Decimal.lt nought w then some w else none

abbrev pub ids_of : List TargetPosition → List InstrumentId
ids_of positions = map (λ (p : TargetPosition). p.instrument_id) positions

abbrev pairs_of : List TargetPosition → Weights
pairs_of positions = map (λ (p : TargetPosition). (p.instrument_id, p.target_weight)) positions

abbrev pub weight_in : Weights → InstrumentId → Decimal
weight_in ws i = get_or (lookup i ws) nought

-- The first position, if its weight is positive, and the others.
adjusted_positions-cons :
    (ws : Weights) (j : InstrumentId) (ids : List InstrumentId) (out : List TargetPosition)
    → Decimal.lt nought (weight_in ws j) ≡ true
    → adjusted_positions ws (j ∷ ids) ≡ ok out
    → (q : TargetPosition) × (rest : List TargetPosition) × (q.instrument_id ≡ j)
      × (q.target_weight ≡ weight_in ws j)
      × (adjusted_positions ws ids ≡ ok rest)
      × (q ∷ rest ≡ out)
unfolding adjusted_positions
adjusted_positions-cons ws j ids out e h =
    let p : TargetPosition = record {
      instrument_id = j;
      target_weight = weight_in ws j;
      target_quantity = none;
    } in
    let (q, eq, h1) = >>=-eq-ok (new_target_position p) _ (rw e at h) in
    let (rest, er, h2) = >>=-eq-ok (adjusted_positions ws ids) _ h1 in
    let same = (new_target_position-ok p q eq).0 in
    (
      q,
      rest,
      ap (λ (x : TargetPosition). x.instrument_id) same,
      ap (λ (x : TargetPosition). x.target_weight) same,
      er,
      ok-injective h2,
    )

adjusted_positions-skip :
    (ws : Weights) (j : InstrumentId) (ids : List InstrumentId) (out : List TargetPosition)
    → Decimal.lt nought (weight_in ws j) ≡ false
    → adjusted_positions ws (j ∷ ids) ≡ ok out
    → adjusted_positions ws ids ≡ ok out
unfolding adjusted_positions
adjusted_positions-skip ws j ids out e h = rw e at h

lookup-adjusted_positions :
    (ws : Weights) (ids : List InstrumentId) (out : List TargetPosition) (i : InstrumentId)
    → adjusted_positions ws ids ≡ ok out
    → lookup i (pairs_of out) ≡ (if contains i ids then positive (weight_in ws i) else none)
lookup-adjusted_positions ws [] out i h =
    subst (λ (l : List TargetPosition). lookup i (pairs_of l) ≡ none) (nil_of h) refl
  where
    nil_of : adjusted_positions ws [] ≡ ok out → [] ≡ out
    nil_of k = unfold adjusted_positions in ok-injective k
lookup-adjusted_positions ws (j ∷ ids) out i h =
    elim (Bool-cases (Decimal.lt nought (weight_in ws j))) [
      | inr e ↦
          let ih =
            lookup-adjusted_positions ws ids out i (adjusted_positions-skip ws j ids out e h) in
          elim (Bool-cases (i == j)) [
            | inl k ↦
                let same : i ≡ j = ground (arith, k) in
                let gone : positive (weight_in ws i) ≡ none = rw (same, e) in
                rw k (ih ∙ rw gone (ground arith))
            | inr k ↦ rw k ih
          ]
      | inl e ↦
          let (q, rest, a, b, er, made) = adjusted_positions-cons ws j ids out e h in
          let ih = lookup-adjusted_positions ws ids rest i er in
          subst
            (λ (l : List TargetPosition).
              lookup i (pairs_of l)
              ≡ (if contains i (j ∷ ids) then positive (weight_in ws i) else none))
            made
            (elim (Bool-cases (i == j)) [
              | inl k ↦
                  let same : i ≡ j = ground (arith, k) in
                  let here : (q.instrument_id == i) ≡ true = ground (arith, a, same) in
                  let kept : positive (weight_in ws i) ≡ some (weight_in ws j) = rw (same, e) in
                  rw (k, here, b, kept)
              | inr k ↦
                  let other : (q.instrument_id == i) ≡ false = ground (arith, a, k) in
                  rw (k, other) ih
            ])
    ]

contains-eq-any : (i : ℕ) (l : List ℕ) → contains i l ≡ any (λ x. i == x) l
contains-eq-any i [] = refl
contains-eq-any i (x ∷ l) = ap (λ b. (i == x) || b) (contains-eq-any i l)

absent_of : (i : ℕ) (ws : Weights) → contains i (keys ws) ≡ false → lookup i ws ≡ none
absent_of i [] h = refl
absent_of i ((j, w) ∷ ws) h = ground (arith, absent_of i ws)

-- The positions over all keys carry exactly the positive weights.
pub lookup-all_positions :
    (ws : Weights) (out : List TargetPosition) (i : InstrumentId)
    → adjusted_positions ws (sort_by ltb (keys ws)) ≡ ok out
    → lookup i (pairs_of out) ≡ positive (weight_in ws i)
lookup-all_positions ws out i h =
    let ids = sort_by ltb (keys ws) in
    let found = lookup-adjusted_positions ws ids out i h in
    elim (Bool-cases (contains i ids)) [
      | inl e ↦ found ∙ rw e
      | inr e ↦
          let missing : contains i (keys ws) ≡ false =
            contains-eq-any i (keys ws)
            ∙ sym (any-sort_by ltb (λ x. i == x) (keys ws))
            ∙ sym (contains-eq-any i ids)
            ∙ e in
          found ∙ rw e (rw (absent_of i ws missing, lt_irrefl nought))
    ]

ids-All :
    (P : InstrumentId → Type 0) (ws : Weights) (ids : List InstrumentId) (out : List TargetPosition)
    → All P ids
    → adjusted_positions ws ids ≡ ok out
    → All P (ids_of out)
ids-All P ws [] out a h = subst (λ (l : List TargetPosition). All P (ids_of l)) (nil_of h) tt
  where
    nil_of : adjusted_positions ws [] ≡ ok out → [] ≡ out
    nil_of k = unfold adjusted_positions in ok-injective k
ids-All P ws (j ∷ ids) out a h = elim (Bool-cases (Decimal.lt nought (weight_in ws j))) [
  | inr e ↦ ids-All P ws ids out a.1 (adjusted_positions-skip ws j ids out e h)
  | inl e ↦
      let (q, rest, k, b, er, made) = adjusted_positions-cons ws j ids out e h in
      subst (λ (l : List TargetPosition). All P (ids_of l)) made
        (subst P (sym k) a.0, ids-All P ws ids rest a.1 er)
]

pub ids-IsSorted :
    (ws : Weights) (ids : List InstrumentId) (out : List TargetPosition)
    → IsSorted ltb ids
    → adjusted_positions ws ids ≡ ok out
    → IsSorted ltb (ids_of out)
ids-IsSorted ws [] out s h =
    subst (λ (l : List TargetPosition). IsSorted ltb (ids_of l)) (nil_of h) tt
  where
    nil_of : adjusted_positions ws [] ≡ ok out → [] ≡ out
    nil_of k = unfold adjusted_positions in ok-injective k
ids-IsSorted ws (j ∷ ids) out s h = elim (Bool-cases (Decimal.lt nought (weight_in ws j))) [
  | inr e ↦ ids-IsSorted ws ids out s.1 (adjusted_positions-skip ws j ids out e h)
  | inl e ↦
      let (q, rest, k, b, er, made) = adjusted_positions-cons ws j ids out e h in
      subst (λ (l : List TargetPosition). IsSorted ltb (ids_of l)) made
        (
          subst (λ (x : ℕ). All (λ (y : ℕ). ltb y x ≡ false) (ids_of rest)) (sym k)
              (ids-All (λ (y : ℕ). ltb y j ≡ false) ws ids rest s.0 er),
          ids-IsSorted ws ids rest s.1 er,
        )
]

pub ltb-IsOrder : IsOrder ltb
ltb-IsOrder = record { asym = λ x y h. ground arith; trans = λ x y z h k. ground arith }
