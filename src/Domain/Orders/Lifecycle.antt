-- ===== src/Domain/Orders/Lifecycle.antt =====
-- The life of an order: transitions keep it valid, go upwards, and end in a terminal state.
use quantlab_v.Prelude.{
  ℕ, suc, ◌+◌, ◌≤◌, ◌<◌, ◌≡◌, ap, ◌⊎◌, true, false, some, arith, if◌then◌else◌,
}
use quantlab_v.Prelude.Result.{ok, err, illegal_transition}
use quantlab_v.Time.{DateTime, earlier}
use quantlab_v.Domain.Identity.{require_timezone_aware}
use quantlab_v.Domain.Orders.{
  Order, OrderState, created, submitted, partially_filled, filled, cancelled, rejected, is_terminal,
  is_transition, state_eq, new_order, transition_to, can_transition,
}

-- An order that its constructor accepts.
abbrev pub IsOrder : Order → Type 0
IsOrder o = new_order o ≡ ok o

-- How far an order has come.
abbrev pub rank : OrderState → ℕ
rank created = 0
rank submitted = 1
rank partially_filled = 2
rank filled = 3
rank cancelled = 3
rank rejected = 3

-- A constructor returns its own argument.
pub new_order-eq : (o o' : Order) → new_order o ≡ ok o' → o' ≡ o
unfolding new_order
new_order-eq o o' h = ground arith

state_eq→eq : (s n : OrderState) → state_eq s n ≡ true → s ≡ n
state_eq→eq s n h = ground arith

-- What a successful transition did.
abbrev pub Moved : Order → OrderState → DateTime → Order → Type 0
Moved o next t o' =
    (is_terminal o.state ≡ false)
    × (is_transition o.state next ≡ true)
    × (earlier t o.created_at ≡ false)
    × (o' ≡ record o { state = next; state_updated_at = some t })

-- A successful call either repeats a terminal state and changes nothing, or takes an arrow of the
-- table at a moment not before the creation and changes the state and its time alone; what it
-- returns passes validation if the order did.
pub transition_to-ok :
    (o : Order) (next : OrderState) (t : DateTime) {o' : Order}
    → IsOrder o
    → transition_to o next t ≡ ok o'
    → IsOrder o'
      × (((is_terminal o.state ≡ true) × (next ≡ o.state) × (o' ≡ o)) ⊎ Moved o next t o')
unfolding transition_to require_timezone_aware
transition_to-ok o next t {o'} v h = ground (
  arith,
  state_eq→eq next o.state,
  new_order-eq (record o { state = next; state_updated_at = some t }) o',
)

-- The table only goes upwards.
rank_up : (s n : OrderState) → is_transition s n ≡ true → rank s < rank n
rank_up s n h = ground arith

-- A series of transitions, each of which takes an arrow.
pub data Run (o : Order) : ℕ → Order → Type 0 where
  here : Run o 0 o
  step :
      {k : ℕ} {o' o'' : Order} (next : OrderState) (t : DateTime)
      → Run o k o'
      → Moved o' next t o''
      → Run o (suc k) o''

Run-rank : {o o' : Order} {k : ℕ} → Run o k o' → rank o.state + k ≤ rank o'.state
Run-rank here = omega arith
Run-rank (step {o' = o'} next t r m) =
    omega (arith, Run-rank r, rank_up o'.state next m.1, ap (λ (x : Order). rank x.state) m.3)

rank_max : (s : OrderState) → rank s ≤ 3
rank_max s = ground arith

-- A run of moves that change an order's state has at most three of them.
pub Run-bounded : {o o' : Order} (k : ℕ) → Run o k o' → k ≤ 3
Run-bounded {o' = o'} k r = omega (arith, Run-rank r, rank_max o'.state)

stamped :
    (o : Order) (next : OrderState) (t : DateTime)
    → IsOrder o
    → t.aware ≡ true
    → earlier t o.created_at ≡ false
    → IsOrder (record o { state = next; state_updated_at = some t })
unfolding new_order require_timezone_aware
stamped o next t v a e = ground arith

-- `can_transition` tells exactly which moves of a valid order that is not yet terminal are made at
-- an aware moment not before its creation: the call returns the order in the new state if the
-- test passes, and raises if it does not.
pub can_transition-decides :
    (o : Order) (next : OrderState) (t : DateTime)
    → IsOrder o
    → t.aware ≡ true
    → earlier t o.created_at ≡ false
    → is_terminal o.state ≡ false
    → transition_to o next t ≡ (
        if can_transition o.state next
        then ok (record o { state = next; state_updated_at = some t })
        else err illegal_transition)
unfolding can_transition transition_to require_timezone_aware
can_transition-decides o next t v a e n = ground (arith, stamped o next t v a e)
