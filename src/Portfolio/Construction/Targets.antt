-- ===== src/Portfolio/Construction/Targets.antt =====
-- What a constructed target holds: positions in the order of their identifiers, none twice, none
-- negative and none above the cap.
use mathlib.Core.Path.{subst}
use quantlab_v.Prelude.{
  ◌≡◌, refl, sym, ap, ◌∙◌, inl, inr, Bool, false, none, List, [], ◌∷◌, map, arith, ltb, Bool-cases,
  get_or, All,
}
use quantlab_v.Prelude.Result.{ok, >>=-eq-ok, ok-injective}
use quantlab_v.Prelude.Dict.{Dict, keys, lookup}
use quantlab_v.Prelude.Sort.{sort_by, IsSorted, IsOrder, sort_by-IsSorted}
use quantlab_v.Decimal
use quantlab_v.Decimal.{Decimal, nought}
use quantlab_v.Decimal.Order.{lt_irrefl}
use quantlab_v.Domain.Identity.{InstrumentId}
use quantlab_v.Domain.Portfolio.{TargetPosition, TargetPortfolio, new_target_position}
use quantlab_v.Domain.Portfolio.Unique.{IsUnique}
use quantlab_v.Domain.Portfolio.Checks.{new_target_position-ok, new_target_portfolio-ok}
use quantlab_v.Portfolio.Selection.{SelectedAsset, new_selector}
use quantlab_v.Portfolio.Construction.{
  ConstructionRequest, cap_name, target_positions, raw_weights, target_of, weigh, construct,
}

-- The weight is not negative and, where the cap is not zero, not above it.
abbrev pub IsCapped : Decimal → TargetPosition → Type 0
IsCapped cap p =
    (Decimal.lt p.target_weight nought ≡ false)
    × (Decimal.eq cap nought ≡ false → Decimal.lt cap p.target_weight ≡ false)

abbrev pub position_ids : List TargetPosition → List InstrumentId
position_ids ps = map (λ (p : TargetPosition). p.instrument_id) ps

cap_name-le :
    (cap w : Decimal) → Decimal.eq cap nought ≡ false → Decimal.lt cap (cap_name cap w) ≡ false
unfolding cap_name
cap_name-le cap w h = elim (Bool-cases (Decimal.lt cap w)) [
  | inl e ↦ rw (h, e) (lt_irrefl cap)
  | inr e ↦ rw (h, e) e
]

target_positions-ok :
    (cap : Decimal) (ws : Dict Decimal) (ids : List InstrumentId) (out : List TargetPosition)
    → target_positions cap ws ids ≡ ok out
    → (position_ids out ≡ ids) × All (IsCapped cap) out
unfolding target_positions
target_positions-ok cap ws [] out h =
    subst (λ (l : List TargetPosition). (position_ids l ≡ []) × All (IsCapped cap) l)
      (ok-injective h) (refl, tt)
target_positions-ok cap ws (i ∷ ids) out h =
    let w = cap_name cap (get_or (lookup i ws) nought) in
    let p : TargetPosition = record {
      instrument_id = i;
      target_weight = w;
      target_quantity = none;
    } in
    let (q, eq, h1) = >>=-eq-ok (new_target_position p) _ h in
    let (rest, er, h2) = >>=-eq-ok (target_positions cap ws ids) _ h1 in
    let (same, positive) = new_target_position-ok p q eq in
    let (named, capped) = target_positions-ok cap ws ids rest er in
    let good : IsCapped cap q = rw same (positive, cap_name-le cap (get_or (lookup i ws) nought)) in
    subst (λ (l : List TargetPosition). (position_ids l ≡ i ∷ ids) × All (IsCapped cap) l)
      (ok-injective h2)
      (
        ap (λ (x : TargetPosition). x.instrument_id ∷ position_ids rest) same
            ∙ ap (λ (l : List InstrumentId). i ∷ l) named,
        (good, capped),
      )

ids-IsOrder : IsOrder ltb
ids-IsOrder = record { asym = λ x y h. ground arith; trans = λ x y z h k. ground arith }

-- The positions stand in the order of their identifiers, none twice, and each is capped.
abbrev pub IsTarget : Decimal → List TargetPosition → Type 0
IsTarget cap ps =
    IsSorted ltb (position_ids ps) × IsUnique (position_ids ps) × All (IsCapped cap) ps

module _ {Score : Type 0} (higher : Score → Score → Bool)
    (by_volatility : List (SelectedAsset Score) → Decimal → Dict Decimal) where
  weigh-IsTarget :
      (r : ConstructionRequest Score) (assets : List (SelectedAsset Score)) (t : TargetPortfolio)
      → weigh higher by_volatility r assets ≡ ok t
      → (t ≡ target_of higher by_volatility r t.positions)
        × IsTarget r.spec.max_name_weight t.positions
  unfolding weigh
  weigh-IsTarget r [] t h =
      let (same, once) = new_target_portfolio-ok _ t h in
      subst
        (λ (x : TargetPortfolio).
          (x ≡ target_of higher by_volatility r x.positions)
          × IsTarget r.spec.max_name_weight x.positions)
        (sym same) (refl, (tt, tt, tt))
  weigh-IsTarget r (a ∷ assets) t h =
      let ws = raw_weights higher by_volatility r.spec (a ∷ assets) in
      let cap = r.spec.max_name_weight in
      let ids = sort_by ltb (keys ws) in
      let (ps, ep, h1) = >>=-eq-ok (target_positions cap ws ids) _ h in
      let (same, once) = new_target_portfolio-ok _ t h1 in
      let (named, capped) = target_positions-ok cap ws ids ps ep in
      let sorted : IsSorted ltb (position_ids ps) =
        rw named (sort_by-IsSorted ltb ids-IsOrder (keys ws)) in
      subst
        (λ (x : TargetPortfolio).
          (x ≡ target_of higher by_volatility r x.positions) × IsTarget cap x.positions)
        (sym same) (refl, (sorted, once, capped))

  -- A constructed target carries the request's identifier and decision time and the snapshot's hash.
  -- Its positions stand in the order of their identifiers, none twice; no weight is negative and,
  -- where the cap is not zero, none is above it.
  pub construct-IsTarget :
      (r : ConstructionRequest Score) (t : TargetPortfolio)
      → construct higher by_volatility r ≡ ok t
      → (t ≡ target_of higher by_volatility r t.positions)
        × IsTarget r.spec.max_name_weight t.positions
  unfolding construct
  construct-IsTarget r t h =
      let (s, es, h1) = >>=-eq-ok (new_selector r.spec.target_size r.spec.buffer_size) _ h in
      weigh-IsTarget r _ t h1
