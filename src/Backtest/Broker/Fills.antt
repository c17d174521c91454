-- ===== src/Backtest/Broker/Fills.antt =====
-- What the broker fills: never more than the order or the cap, and the state tells which.
use quantlab_v.Prelude.{
  ◌≡◌, ap, ◌∙◌, inl, inr, true, false, Option, none, some, arith, if◌then◌else◌, Bool-cases,
  Option-cases, Text,
}
use mathlib.Core.Option.{some-injective}
use quantlab_v.Prelude.Result.{ok, >>=-eq-ok}
use quantlab_v.Time.{DateTime}
use quantlab_v.Decimal
use quantlab_v.Decimal.{Decimal, nought}
use quantlab_v.Decimal.Order.{lt_asym, lt_irrefl}
use quantlab_v.Domain.Orders.{
  Order, OrderState, submitted, partially_filled, filled, rejected, is_terminal, Fill, new_fill,
  transition,
}
use quantlab_v.Domain.Orders.Lifecycle.{IsOrder, transition_to-ok}
use quantlab_v.Domain.Market.{MarketBar}
use mathlib.Core.Path.{subst}
use quantlab_v.Backtest.Costs.{VolumeParticipationModel, max_executable_quantity, reference_price}
use quantlab_v.Backtest.Broker.{
  SimulatedBroker, is_created, activate, reject, executable, fill_order, against_bar, work_order,
  execute_order,
}

-- The quantity is at most the order's and, where there is a model, at most its cap.
abbrev pub IsWithin : Option VolumeParticipationModel → Decimal → Decimal → Decimal → Type 0
IsWithin none volume quantity q = Decimal.lt quantity q ≡ false
IsWithin (some m) volume quantity q =
    (Decimal.lt quantity q ≡ false) × (Decimal.lt (max_executable_quantity m volume) q ≡ false)

narrowed :
    (cap quantity : Decimal)
    → let q = if Decimal.lt cap quantity then cap else quantity in
      (Decimal.lt quantity q ≡ false) × (Decimal.lt cap q ≡ false)
narrowed cap quantity = ground (arith, lt_irrefl cap, lt_irrefl quantity, lt_asym cap quantity)

executable-IsWithin :
    (p : Option VolumeParticipationModel) (volume quantity q : Decimal)
    → executable p volume quantity ≡ some q
    → IsWithin p volume quantity q
unfolding executable
executable-IsWithin none volume quantity q h = ground (arith, lt_irrefl quantity)
executable-IsWithin (some m) volume quantity q h =
    let cap = max_executable_quantity m volume in
    elim (Bool-cases (Decimal.le cap nought)) [
      | inl e ↦ absurd (ground arith)
      | inr e ↦
          rw
            (← some-injective (if Decimal.lt cap quantity then cap else quantity) q
              (rw (e, executable) at h))
            (narrowed cap quantity)
    ]

-- A terminal order is returned as it is, with no fill.
execute_order-terminal :
    (b : SimulatedBroker) (id source : Text) (o : Order) (bar : Option MarketBar) (t : DateTime)
    → is_terminal o.state ≡ true
    → execute_order b id source o bar t ≡ ok (o, none)
unfolding execute_order
execute_order-terminal b id source o bar t h = rw h

new_fill-eq : (f f' : Fill) → new_fill f ≡ ok f' → f' ≡ f
unfolding new_fill
new_fill-eq f f' h = ground arith

-- The state after a fill: filled if the quantity is not below the order's.
abbrev pub state_after : Order → Decimal → OrderState
state_after o q = if Decimal.le o.quantity q then filled else partially_filled

fill_order-ok :
    (b : SimulatedBroker) (id source : Text) (o : Order) (price q : Decimal) (t : DateTime)
    (o' : Order) (f : Fill)
    → fill_order b id source o price q t ≡ ok (o', some f)
    → (transition o (state_after o q) t ≡ ok o')
      × (f.quantity ≡ q)
      × (f.instrument_id ≡ o.instrument_id)
unfolding fill_order
fill_order-ok b id source o price q t o' f h =
    let (u, e, h') = >>=-eq-ok (transition o (state_after o q) t) _ h in
    let (g, e', h'') = >>=-eq-ok (new_fill _) _ h' in
    let n = new_fill-eq _ g e' in
    (ground (arith, e, h''), ground (arith, n, h''), ground (arith, n, h''))

-- What a transition leaves of an order.
abbrev pub Kept : Order → OrderState → Order → Type 0
Kept o next o' =
    IsOrder o'
    × (o'.state ≡ next)
    × (o'.quantity ≡ o.quantity)
    × (o'.instrument_id ≡ o.instrument_id)

transition-Kept :
    (o : Order) (next : OrderState) (t : DateTime) (o' : Order)
    → IsOrder o
    → transition o next t ≡ ok o'
    → Kept o next o'
unfolding transition
transition-Kept o next t o' v h = ground (arith, transition_to-ok o next t {o' = o'} v h)

reject-no_fill :
    (o : Order) (t : DateTime) (o' : Order) (f : Fill) → reject o t ≡ ok (o', some f) → ⊥
unfolding reject
reject-no_fill o t o' f h = let (r, e, k) = >>=-eq-ok (transition o rejected t) _ h in cc k

-- What is known of a fill of the order `o`, worked on as `active`.
abbrev pub IsFillOf : SimulatedBroker → Option MarketBar → Order → Order → Fill → Type 0
IsFillOf b none o o' f = ⊥
IsFillOf b (some m) o o' f =
    IsWithin b.participation_model m.volume o.quantity f.quantity
    × (f.instrument_id ≡ o.instrument_id)
    × Kept o (state_after o f.quantity) o'

module _ (b : SimulatedBroker) (id source : Text) (t : DateTime) (o' : Order) (f : Fill) where
  filled-IsFillOf :
      (o : Order) (m : MarketBar) (price q : Decimal)
      → IsOrder o
      → IsWithin b.participation_model m.volume o.quantity q
      → fill_order b id source o price q t ≡ ok (o', some f)
      → IsFillOf b (some m) o o' f
  filled-IsFillOf o m price q v w h =
      let (e, eq_q, eq_i) = fill_order-ok b id source o price q t o' f h in
      rw eq_q (w, eq_i, transition-Kept o (state_after o q) t o' v e)

  against_bar-IsFillOf :
      (o : Order) (m : MarketBar)
      → IsOrder o
      → against_bar b id source o m t ≡ ok (o', some f)
      → IsFillOf b (some m) o o' f
  unfolding against_bar
  against_bar-IsFillOf o m v h = elim (Option-cases (reference_price m)) [
    | inl n ↦ absurd (reject-no_fill o t o' f (rw (n, against_bar) at h))
    | inr (price, e) ↦ elim (Bool-cases (Decimal.le price nought)) [
      | inl z ↦ absurd (reject-no_fill o t o' f (rw (e, z, against_bar) at h))
      | inr z ↦ elim (Option-cases (executable b.participation_model m.volume o.quantity)) [
        | inl n ↦ absurd (cc (rw (e, z, n, against_bar) at h))
        | inr (q, s) ↦
            filled-IsFillOf o m price q v
              (executable-IsWithin b.participation_model m.volume o.quantity q s)
              (rw (e, z, s, against_bar) at h)
      ]
    ]
  ]

  work_order-IsFillOf :
      (o : Order) (bar : Option MarketBar)
      → IsOrder o
      → work_order b id source o bar t ≡ ok (o', some f)
      → IsFillOf b bar o o' f
  unfolding work_order
  work_order-IsFillOf o none v h = absurd (reject-no_fill o t o' f h)
  work_order-IsFillOf o (some m) v h = against_bar-IsFillOf o m v h

  activate-Same :
      (o active : Order)
      → IsOrder o
      → activate o t ≡ ok active
      → IsOrder active × (active.quantity ≡ o.quantity) × (active.instrument_id ≡ o.instrument_id)
  unfolding activate
  activate-Same o active v h = elim (Bool-cases (is_created o.state)) [
    | inl c ↦
        let (k, s, q, i) = transition-Kept o submitted t active v (rw (c, activate) at h) in
        (k, q, i)
    | inr c ↦ ground arith
  ]

-- A fill comes only from a bar, for the order's instrument, of at most the order's quantity and at
-- most the cap of the bar's volume. The order that is returned is valid, with its quantity
-- unchanged, and filled exactly if the fill is not below that quantity, else partially filled.
pub execute_order-fill :
    (b : SimulatedBroker) (id source : Text) (o : Order) (bar : Option MarketBar) (t : DateTime)
    (o' : Order) (f : Fill)
    → IsOrder o
    → execute_order b id source o bar t ≡ ok (o', some f)
    → IsFillOf b bar o o' f
unfolding execute_order
execute_order-fill b id source o bar t o' f v h = elim (Bool-cases (is_terminal o.state)) [
  | inl e ↦ absurd (cc (rw e at h))
  | inr e ↦
      let (active, s, k) = >>=-eq-ok (activate o t) _ (rw e at h) in
      let (w, q, i) = activate-Same b id source t o' f o active v s in
      moved active bar q i (work_order-IsFillOf b id source t o' f active bar w k)
]
  where
    moved :
        (active : Order) (bar : Option MarketBar)
        → active.quantity ≡ o.quantity
        → active.instrument_id ≡ o.instrument_id
        → IsFillOf b bar active o' f
        → IsFillOf b bar o o' f
    moved active none q i x = x
    moved active (some m) q i (w, fi, (k, st, kq, ki)) = (
      subst (λ z. IsWithin b.participation_model m.volume z f.quantity) q w,
      fi ∙ i,
      (
        k,
        st ∙ ap (λ (z : Decimal). if Decimal.le z f.quantity then filled else partially_filled) q,
        kq ∙ q,
        ki ∙ i,
      ),
    )
