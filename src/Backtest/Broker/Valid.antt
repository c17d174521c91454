-- ===== src/Backtest/Broker/Valid.antt =====
-- The broker returns valid orders for valid orders, on every branch.
use mathlib.Core.Path.{subst}
use quantlab_v.Prelude.{◌≡◌, inl, inr, Option, none, some, Bool-cases, Option-cases, Text}
use quantlab_v.Prelude.Result.{ok, >>=-eq-ok, ok-injective}
use quantlab_v.Time.{DateTime}
use quantlab_v.Decimal
use quantlab_v.Decimal.{Decimal, nought}
use quantlab_v.Domain.Orders.{
  Order, OrderState, submitted, rejected, is_terminal, Fill, new_fill, transition,
}
use quantlab_v.Domain.Orders.Lifecycle.{IsOrder, transition_to-ok}
use quantlab_v.Domain.Market.{MarketBar}
use quantlab_v.Backtest.Costs.{reference_price}
use quantlab_v.Backtest.Broker.{
  SimulatedBroker, is_created, activate, reject, executable, fill_order, against_bar, work_order,
  execute_order,
}

transition-IsOrder :
    (o : Order) (next : OrderState) (t : DateTime) (o' : Order)
    → IsOrder o
    → transition o next t ≡ ok o'
    → IsOrder o'
unfolding transition
transition-IsOrder o next t o' v h = (transition_to-ok o next t {o' = o'} v h).0

-- The order of a result.
abbrev Returned : Order × Option Fill → Type 0
Returned r = IsOrder r.0

reject-IsOrder :
    (o : Order) (t : DateTime) (r : Order × Option Fill)
    → IsOrder o
    → reject o t ≡ ok r
    → Returned r
unfolding reject
reject-IsOrder o t r v h =
    let (u, e, k) = >>=-eq-ok (transition o rejected t) _ h in
    subst Returned (ok-injective k) (transition-IsOrder o rejected t u v e)

module _ (b : SimulatedBroker) (id source : Text) (t : DateTime) (r : Order × Option Fill) where
  fill_order-IsOrder :
      (o : Order) (price q : Decimal)
      → IsOrder o
      → fill_order b id source o price q t ≡ ok r
      → Returned r
  unfolding fill_order
  fill_order-IsOrder o price q v h =
      let (u, e, h') = >>=-eq-ok (transition o _ t) _ h in
      let (g, e', k) = >>=-eq-ok (new_fill _) _ h' in
      subst Returned (ok-injective k) (transition-IsOrder o _ t u v e)

  against_bar-IsOrder :
      (o : Order) (m : MarketBar) → IsOrder o → against_bar b id source o m t ≡ ok r → Returned r
  unfolding against_bar
  against_bar-IsOrder o m v h = elim (Option-cases (reference_price m)) [
    | inl n ↦ reject-IsOrder o t r v (rw (n, against_bar) at h)
    | inr (price, e) ↦ elim (Bool-cases (Decimal.le price nought)) [
      | inl z ↦ reject-IsOrder o t r v (rw (e, z, against_bar) at h)
      | inr z ↦ elim (Option-cases (executable b.participation_model m.volume o.quantity)) [
        | inl n ↦ subst Returned (ok-injective (rw (e, z, n, against_bar) at h)) v
        | inr (q, s) ↦ fill_order-IsOrder o price q v (rw (e, z, s, against_bar) at h)
      ]
    ]
  ]

  work_order-IsOrder :
      (o : Order) (bar : Option MarketBar)
      → IsOrder o
      → work_order b id source o bar t ≡ ok r
      → Returned r
  unfolding work_order
  work_order-IsOrder o none v h = reject-IsOrder o t r v h
  work_order-IsOrder o (some m) v h = against_bar-IsOrder o m v h

activate-IsOrder :
    (o active : Order) (t : DateTime) → IsOrder o → activate o t ≡ ok active → IsOrder active
unfolding activate
activate-IsOrder o active t v h = elim (Bool-cases (is_created o.state)) [
  | inl c ↦ transition-IsOrder o submitted t active v (rw (c, activate) at h)
  | inr c ↦ subst IsOrder (ok-injective (rw (c, activate) at h)) v
]

pub execute_order-IsOrder :
    (b : SimulatedBroker) (id source : Text) (o : Order) (bar : Option MarketBar) (t : DateTime)
    (r : Order × Option Fill)
    → IsOrder o
    → execute_order b id source o bar t ≡ ok r
    → IsOrder r.0
unfolding execute_order
execute_order-IsOrder b id source o bar t r v h = elim (Bool-cases (is_terminal o.state)) [
  | inl e ↦ subst Returned (ok-injective (rw e at h)) v
  | inr e ↦
      let (active, s, k) = >>=-eq-ok (activate o t) _ (rw e at h) in
      work_order-IsOrder b id source t r active bar (activate-IsOrder o active t v s) k
]
