-- ===== src/Portfolio/Planner/Plans.antt =====
-- What a plan holds: valid new market orders, the sells before the buys.
use quantlab_v.Prelude.{
  ◌≡◌, refl, ap, ◌∙◌, inl, inr, Option, none, some, List, [], ◌∷◌, ◌++◌, arith, Bool-cases,
  Option-cases, All, All-append,
}
use quantlab_v.Prelude.Result.{ok, >>=-eq-ok}
use quantlab_v.Prelude.Dict.{Dict, lookup}
use quantlab_v.Decimal
use quantlab_v.Decimal.{Decimal, nought}
use quantlab_v.Domain.Identity.{InstrumentId}
use quantlab_v.Domain.Orders.{Order, OrderSide, buy, sell, market, created, new_order}
use quantlab_v.Domain.Orders.Lifecycle.{IsOrder, new_order-eq}
use quantlab_v.Domain.Portfolio.{PortfolioSnapshot, TargetPortfolio}
use quantlab_v.Portfolio.Planner.{
  OrderPlanningSpec, OrderPlan, Planned, Market, order_of, file, plan_trade, plan_one, plan_all,
  plan, nothing_planned, empty_plan, current_quantities, target_weights, planned_instruments,
}

-- A new market order of a side that passed validation, made at the moment of the target's
-- decision.
abbrev pub IsNew : TargetPortfolio → OrderSide → Order → Type 0
IsNew t side o =
    IsOrder o
    × (o.side ≡ side)
    × (o.state ≡ created)
    × (o.order_type ≡ market)
    × (o.created_at ≡ t.decision_time)

abbrev pub IsFiled : TargetPortfolio → Planned → Type 0
IsFiled t p = All (IsNew t sell) p.sells × All (IsNew t buy) p.buys

file-IsFiled :
    (t : TargetPortfolio) (price : Decimal) (side : OrderSide) (o : Order) (p : Planned)
    → IsNew t side o
    → IsFiled t p
    → IsFiled t (file price side o p)
unfolding file
file-IsFiled t price sell o p n h = (All-append (IsNew t sell) p.sells (o ∷ []) h.0 (n, tt), h.1)
file-IsFiled t price buy o p n h = (h.0, All-append (IsNew t buy) p.buys (o ∷ []) h.1 (n, tt))

plan_trade-IsFiled :
    (m : Market) (t : TargetPortfolio) (i : InstrumentId) (price : Decimal)
    (x : Option (OrderSide × Decimal)) (p p' : Planned)
    → IsFiled t p
    → plan_trade m t i price x p ≡ ok p'
    → IsFiled t p'
unfolding plan_trade
plan_trade-IsFiled m t i price none p p' h e = ground arith
plan_trade-IsFiled m t i price (some (side, qty)) p p' h e =
    let o = order_of (m.order_id i) t.decision_time i side qty in
    let (o', e', k) = >>=-eq-ok (new_order o) _ e in
    let same : o' ≡ o = new_order-eq o o' e' in
    let valid : IsOrder o = e' ∙ ap (λ (y : Order). ok y) same in
    let new : IsNew t side o = (valid, refl, refl, refl, refl) in
    let out : p' ≡ file price side o p = ground (arith, k, same) in
    rw out (file-IsFiled t price side o p new h)

plan_one-IsFiled :
    (spec : OrderPlanningSpec) (m : Market) (t : TargetPortfolio) (q w : Dict Decimal)
    (i : InstrumentId) (p p' : Planned)
    → IsFiled t p
    → plan_one spec m t q w i p ≡ ok p'
    → IsFiled t p'
unfolding plan_one
plan_one-IsFiled spec m t q w i p p' h e = elim (Option-cases (lookup i m.prices)) [
  | inl n ↦ let k : ok p ≡ ok p' = rw (n, plan_one) at e in ground arith
  | inr (price, s) ↦ elim (Bool-cases (Decimal.le price nought)) [
    | inl z ↦ let k : ok p ≡ ok p' = rw (s, z, plan_one) at e in ground arith
    | inr z ↦ plan_trade-IsFiled m t i price _ p p' h (rw (s, z, plan_one) at e)
  ]
]

plan_all-IsFiled :
    (spec : OrderPlanningSpec) (m : Market) (t : TargetPortfolio) (q w : Dict Decimal)
    (is : List InstrumentId) (p p' : Planned)
    → IsFiled t p
    → plan_all spec m t q w is p ≡ ok p'
    → IsFiled t p'
unfolding plan_all
plan_all-IsFiled spec m t q w [] p p' h e = ground arith
plan_all-IsFiled spec m t q w (i ∷ is) p p' h e =
    let (p1, e1, k) = >>=-eq-ok (plan_one spec m t q w i p) _ e in
    plan_all-IsFiled spec m t q w is p1 p' (plan_one-IsFiled spec m t q w i p p1 h e1) k

-- A plan carries the target's moment of decision, and its orders are valid new market orders made at
-- that moment: first the sells, then the buys.
pub plan-orders :
    (spec : OrderPlanningSpec) (now : Option PortfolioSnapshot) (target : TargetPortfolio)
    (m : Market) (out : OrderPlan)
    → plan spec now target m ≡ ok out
    → (sells : List Order) × (buys : List Order) × (out.decision_time ≡ target.decision_time)
      × (out.orders ≡ sells ++ buys)
      × All (IsNew target sell) sells
      × All (IsNew target buy) buys
unfolding plan
plan-orders spec now target m out e = elim (Bool-cases (Decimal.le m.total_equity nought)) [
  | inl z ↦
      let k : ok (empty_plan target) ≡ ok out = rw z at e in
      ([], [], ground arith, ground arith, tt, tt)
  | inr z ↦
      let q = current_quantities now in
      let w = target_weights target in
      let (p, e1, k) =
        >>=-eq-ok (plan_all spec m target q w (planned_instruments q w) nothing_planned) _
          (rw z at e) in
      let f =
        plan_all-IsFiled spec m target q w (planned_instruments q w) nothing_planned p (tt, tt)
          e1 in
      (p.sells, p.buys, ground (arith, k), ground (arith, k), f.0, f.1)
]
