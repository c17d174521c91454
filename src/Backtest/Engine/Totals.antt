-- ===== src/Backtest/Engine/Totals.antt =====
-- The state of the back test through its loop: sound books, totals that are those of the fills, and
-- waiting orders that can still be worked on.
use mathlib.Core.Path.{subst}
use quantlab_v.Prelude.{
  ◌≡◌, refl, sym, ap, ◌∙◌, ◌⊎◌, inl, inr, Bool, true, Option, none, some, List, [], ◌∷◌, ◌++◌,
  arith, Bool-cases, all, All, All-append,
}
use quantlab_v.Prelude.Result.{Result, ok, err, >>=-eq-ok, ok-injective}
use quantlab_v.Prelude.Dict.{Dict, lookup}
use quantlab_v.Prelude.Table.{find}
use quantlab_v.Time.{Date, DateTime, same_date}
use quantlab_v.Decimal
use quantlab_v.Decimal.{Decimal, nought}
use quantlab_v.Domain.Market.{MarketBar, CorporateAction}
use quantlab_v.Domain.Orders.{Order, OrderState, OrderSide, created, submitted, buy, sell, Fill}
use quantlab_v.Domain.Orders.Lifecycle.{IsOrder}
use quantlab_v.Factors.{FactorSnapshot}
use quantlab_v.Portfolio.Selection.{SelectedAsset}
use quantlab_v.Portfolio.Construction.{construct}
use quantlab_v.Portfolio.Risk as Risk
use quantlab_v.Domain.Portfolio.{TargetPortfolio}
use quantlab_v.Portfolio.Planner.{plan}
use quantlab_v.Portfolio.Planner.Plans.{IsNew, plan-orders}
use quantlab_v.Backtest.Broker.{execute_order}
use quantlab_v.Backtest.Broker.Valid.{execute_order-IsOrder}
use quantlab_v.Backtest.Accounting.{
  AccountingEngine, apply_fill, apply_corporate_action, mark_to_market, new_engine,
}
use quantlab_v.Backtest.Accounting.Audit.{
  IsSound, apply_fill-IsSound, apply_corporate_action-IsSound,
}
use quantlab_v.Backtest.Ledger.Cash.{new_cash_ledger-IsAudited}
use quantlab_v.Backtest.Clock.{
  SimulationEvent, Payload, action_event, open_event, close_event, decision_event, bar_event,
  order_event, fill_event,
}
use quantlab_v.Backtest.Engine.{
  BacktestSpec, Providers, Simulation, account, is_submitted, keep_order, broker_of, planning_of,
  apply_actions, book_fill, execute_one, execute_all, on_open, on_close, on_decision, market_of,
  handle, simulate, fresh, run_over, run, from_bars,
}

-- A valid order that was not yet filled, in part or whole, cancelled or rejected.
abbrev pub IsWaiting : Order → Type 0
IsWaiting o = IsOrder o × ((o.state ≡ created) ⊎ (o.state ≡ submitted))

-- `total`, with the fees of the fills added one after the other
unfoldable pub add_fees : Decimal → List Fill → Decimal
add_fees total [] = total
add_fees total (f ∷ fills) = add_fees (Decimal.add total f.fees) fills

-- The audit trail leads from the initial cash to the balance, the reported fees are those of the
-- fills, and the pending orders are waiting.
pub record IsConsistent (s : Simulation) : Type 0 where
  pub sound : IsSound s.accounting
  pub fees : s.total_fees ≡ add_fees nought s.all_fills
  pub waiting : All IsWaiting s.pending_orders

add_fees-append :
    (total : Decimal) (fs : List Fill) (f : Fill)
    → add_fees total (fs ++ f ∷ []) ≡ Decimal.add (add_fees total fs) f.fees
unfolding add_fees
add_fees-append total [] f = refl
add_fees-append total (g ∷ fs) f = add_fees-append (Decimal.add total g.fees) fs f

account-eq :
    (o : Result (Unit {0}) × AccountingEngine) (s s' : Simulation)
    → account o s ≡ ok s'
    → record s { accounting = o.1 } ≡ s'
account-eq (ok u, e) s s' h = ok-injective h
account-eq (err x, e) s s' h = absurd (cc h)

-- New books that are sound keep the state consistent.
account-IsConsistent :
    (o : Result (Unit {0}) × AccountingEngine) (s s' : Simulation)
    → IsSound o.1
    → s.total_fees ≡ add_fees nought s.all_fills
    → All IsWaiting s.pending_orders
    → account o s ≡ ok s'
    → IsConsistent s'
account-IsConsistent o s s' b f p h =
    subst IsConsistent (account-eq o s s' h) (record { sound = b; fees = f; waiting = p })

is_submitted→eq : (st : OrderState) → is_submitted st ≡ true → st ≡ submitted
is_submitted→eq st h = ground arith

keep_order-IsConsistent :
    (o : Order) (s : Simulation) → IsOrder o → IsConsistent s → IsConsistent (keep_order o s)
unfolding keep_order
keep_order-IsConsistent o s v h = elim (Bool-cases (is_submitted o.state)) [
  | inl e ↦ record {
    sound = h.sound;
    fees = h.fees;
    waiting = rw e (
        All-append IsWaiting s.pending_orders (o ∷ []) h.waiting
          ((v, inr (is_submitted→eq o.state e)), tt));
  }
  | inr e ↦ record { sound = h.sound; fees = h.fees; waiting = rw e h.waiting }
]

new-IsWaiting :
    (target : TargetPortfolio) (side : OrderSide) (os : List Order)
    → All (IsNew target side) os
    → All IsWaiting os
new-IsWaiting target side [] h = tt
new-IsWaiting target side (o ∷ os) h = ((h.0.0, inl h.0.2), new-IsWaiting target side os h.1)

module _ {Score : Type 0} (higher : Score → Score → Bool)
    (by_volatility : List (SelectedAsset Score) → Decimal → Dict Decimal) (w : Providers Score)
    (spec : BacktestSpec) where
  apply_actions-IsConsistent :
      (sess : Date) (t : DateTime) (actions : List CorporateAction) (s s' : Simulation)
      → IsConsistent s
      → apply_actions higher by_volatility w spec sess t actions s ≡ ok s'
      → IsConsistent s'
  unfolding apply_actions
  apply_actions-IsConsistent sess t [] s s' h e = subst IsConsistent (ok-injective e) h
  apply_actions-IsConsistent sess t (a ∷ actions) s s' h e =
      let o = apply_corporate_action (w.action_transaction_id sess a) a t s.accounting in
      let (s1, e1, k) = >>=-eq-ok (account o s) _ e in
      apply_actions-IsConsistent sess t actions s1 s'
        (account-IsConsistent o s s1
          (apply_corporate_action-IsSound (w.action_transaction_id sess a) a t s.accounting h.sound)
          h.fees h.waiting e1)
        k

  book_fill-IsConsistent :
      (sess : Date) (o : Order) (bar : Option MarketBar) (f : Option Fill) (s s' : Simulation)
      → IsConsistent s
      → book_fill higher by_volatility w spec sess o bar f s ≡ ok s'
      → IsConsistent s'
  unfolding book_fill
  book_fill-IsConsistent sess o bar none s s' h e = subst IsConsistent (ok-injective e) h
  book_fill-IsConsistent sess o bar (some f) s s' h e =
      account-IsConsistent (apply_fill (w.fill_transaction_id sess f) f o.side s.accounting) _ s'
        (apply_fill-IsSound (w.fill_transaction_id sess f) f o.side s.accounting h.sound)
        (ap (λ (d : Decimal). Decimal.add d f.fees) h.fees
          ∙ sym (add_fees-append nought s.all_fills f))
        h.waiting e

  execute_one-IsConsistent :
      (sess : Date) (t : DateTime) (bars : Dict MarketBar) (o : Order) (s s' : Simulation)
      → IsOrder o
      → IsConsistent s
      → execute_one higher by_volatility w spec sess t bars o s ≡ ok s'
      → IsConsistent s'
  unfolding execute_one
  execute_one-IsConsistent sess t bars o s s' v h e =
      let bar = lookup o.instrument_id bars in
      let call = execute_order (broker_of spec) (w.fill_id sess o) w.fill_source o bar t in
      let (r, er, k) = >>=-eq-ok call _ e in
      let (booked, eb, k') =
        >>=-eq-ok (book_fill higher by_volatility w spec sess o bar r.1 s) _ k in
      let valid =
        execute_order-IsOrder (broker_of spec) (w.fill_id sess o) w.fill_source o bar t r v er in
      subst IsConsistent (ok-injective k') (
        keep_order-IsConsistent r.0 booked valid
          (book_fill-IsConsistent sess o bar r.1 s booked h eb))

  execute_all-IsConsistent :
      (sess : Date) (t : DateTime) (bars : Dict MarketBar) (os : List Order) (s s' : Simulation)
      → All IsWaiting os
      → IsConsistent s
      → execute_all higher by_volatility w spec sess t bars os s ≡ ok s'
      → IsConsistent s'
  unfolding execute_all
  execute_all-IsConsistent sess t bars [] s s' v h e = subst IsConsistent (ok-injective e) h
  execute_all-IsConsistent sess t bars (o ∷ os) s s' v h e =
      let (s1, e1, k) = >>=-eq-ok (execute_one higher by_volatility w spec sess t bars o s) _ e in
      execute_all-IsConsistent sess t bars os s1 s' v.1
        (execute_one-IsConsistent sess t bars o s s1 v.0.0 h e1) k

  on_open-IsConsistent :
      (sess : Date) (t : DateTime) (s s' : Simulation)
      → IsConsistent s
      → on_open higher by_volatility w spec sess t s ≡ ok s'
      → IsConsistent s'
  unfolding on_open
  on_open-IsConsistent sess t s s' h e =
      let acts = apply_actions higher by_volatility w spec sess t (w.corporate_actions sess) s in
      let (s1, e1, k) = >>=-eq-ok acts _ e in
      let h1 = apply_actions-IsConsistent sess t (w.corporate_actions sess) s s1 h e1 in
      execute_all-IsConsistent sess t (w.bars sess) s1.pending_orders
        (record s1 { pending_orders = [] }) s' h1.waiting
        (record { sound = h1.sound; fees = h1.fees; waiting = tt }) k

  on_close-IsConsistent :
      (sess : Date) (t : DateTime) (s s' : Simulation)
      → IsConsistent s
      → on_close higher by_volatility w spec sess t s ≡ ok s'
      → IsConsistent s'
  unfolding on_close
  on_close-IsConsistent sess t s s' h e =
      let closes = from_bars (λ (b : MarketBar). b.close) (w.bars sess) in
      let (snap, e1, k) =
        >>=-eq-ok (mark_to_market t closes s.last_known_prices s.accounting) _ e in
      subst IsConsistent (ok-injective k)
        (record { sound = h.sound; fees = h.fees; waiting = h.waiting })

  on_decision-IsConsistent :
      (sess : Date) (t : DateTime) (alpha : Option (Date → FactorSnapshot Score))
      (s s' : Simulation)
      → IsConsistent s
      → on_decision higher by_volatility w spec sess t alpha s ≡ ok s'
      → IsConsistent s'
  unfolding on_decision
  on_decision-IsConsistent sess t none s s' h e = subst IsConsistent (ok-injective e) h
  on_decision-IsConsistent sess t (some alpha) s s' h e =
      let (raw, e1, k1) = >>=-eq-ok (construct higher by_volatility _) _ e in
      let (d, e2, k2) = >>=-eq-ok (Risk.apply spec.risk_spec raw (w.sectors sess)) _ k1 in
      let m = market_of higher by_volatility w spec sess s in
      let call =
        plan (planning_of spec.risk_spec) (find same_date sess s.snapshots) d.adjusted_target m in
      let (p, e3, k3) = >>=-eq-ok call _ k2 in
      let (sells, buys, timed, all, ns, nb) = plan-orders _ _ d.adjusted_target m p e3 in
      let new : All IsWaiting p.orders = rw all (
        All-append IsWaiting sells buys (new-IsWaiting d.adjusted_target sell sells ns)
          (new-IsWaiting d.adjusted_target buy buys nb)) in
      subst IsConsistent (ok-injective k3) (record {
        sound = h.sound;
        fees = h.fees;
        waiting = All-append IsWaiting s.pending_orders p.orders h.waiting new;
      })

  handle-IsConsistent :
      (p : Payload) (ev : SimulationEvent) (s s' : Simulation)
      → IsConsistent s
      → handle higher by_volatility w spec p ev s ≡ ok s'
      → IsConsistent s'
  handle-IsConsistent open_event ev s s' h e = on_open-IsConsistent ev.session ev.timestamp s s' h e
  handle-IsConsistent close_event ev s s' h e =
      on_close-IsConsistent ev.session ev.timestamp s s' h e
  handle-IsConsistent (decision_event n) ev s s' h e =
      on_decision-IsConsistent ev.session ev.timestamp w.alpha s s' h e
  handle-IsConsistent (action_event a) ev s s' h e = subst IsConsistent (ok-injective e) h
  handle-IsConsistent (bar_event b) ev s s' h e = subst IsConsistent (ok-injective e) h
  handle-IsConsistent (order_event o) ev s s' h e = subst IsConsistent (ok-injective e) h
  handle-IsConsistent (fill_event f) ev s s' h e = subst IsConsistent (ok-injective e) h

  simulate-IsConsistent :
      (evs : List SimulationEvent) (s s' : Simulation)
      → IsConsistent s
      → simulate higher by_volatility w spec evs s ≡ ok s'
      → IsConsistent s'
  unfolding simulate
  simulate-IsConsistent [] s s' h e = subst IsConsistent (ok-injective e) h
  simulate-IsConsistent (ev ∷ evs) s s' h e =
      let (s1, e1, k) = >>=-eq-ok (handle higher by_volatility w spec ev.payload ev s) _ e in
      simulate-IsConsistent evs s1 s' (handle-IsConsistent ev.payload ev s s1 h e1) k

  run_over-IsConsistent :
      (sessions : List Date) (s : Simulation)
      → run_over higher by_volatility w spec sessions ≡ ok s
      → IsConsistent s
  unfolding new_engine add_fees
  run_over-IsConsistent [] s e = absurd (cc e)
  run_over-IsConsistent (d ∷ ds) s e =
      simulate-IsConsistent _ (fresh higher by_volatility w spec) s
        (record { sound = new_cash_ledger-IsAudited spec.initial_cash; fees = refl; waiting = tt })
        e

  -- A back test that ends does so with books whose transactions lead from the initial cash to the
  -- balance, with the total of the fees of its fills, and with pending orders that are valid and
  -- still created or submitted; whatever the providers of data return.
  pub run-IsConsistent : (s : Simulation) → run higher by_volatility w spec ≡ ok s → IsConsistent s
  unfolding run
  run-IsConsistent s e = run_over-IsConsistent (w.sessions spec.start_session spec.end_session) s e
