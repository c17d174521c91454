-- ===== src/Paper/Simulation/Days.antt =====
-- Every session of the simulation trades each instrument once and reconciles cleanly.
use quantlab_v.Prelude.{
  ℕ, zero, suc, ◌+◌, ◌-◌, ◌*◌, ◌<◌, ◌≡◌, refl, inl, inr, false, List, [], ◌∷◌, arith, ltb,
  if◌then◌else◌, Bool-cases, length, Text,
}
use quantlab_v.Prelude.Result.{ok}
use quantlab_v.Time.{Date, IsDate, date_le, next_day, to_ordinal, weekday}
use quantlab_v.Time.Days.{to_ordinal-next_day, next_day-IsDate, date_le→le}
use quantlab_v.Decimal
use quantlab_v.Decimal.{Decimal, dec, nought}
use quantlab_v.Domain.Identity.{InstrumentId}
use quantlab_v.Paper.Adapter.{get_account, set_prices}
use quantlab_v.Paper.Reconciliation.Clean.{reconcile_self}
use quantlab_v.Paper.Simulation.{
  Surroundings, Progress, PaperForwardEvidence, submit_daily, reconcile_day, simulate_day,
  simulate_days, weekdays_from, instruments_from, evidence_of, simulate, fresh, flat_prices,
}

-- The counters after `orders` more orders and `days` more sessions.
abbrev Counted : ℕ → ℕ → Progress → Progress → Type 0
Counted orders days p p' =
    (p'.total_orders ≡ p.total_orders + orders)
    × (p'.total_fills ≡ p.total_fills + orders)
    × (p'.clean_recons ≡ p.clean_recons + days)

submit_daily-Counted :
    (w : Surroundings) (s : Date) (i : ℕ) (insts : List InstrumentId) (p : Progress)
    → Counted (length insts) 0 p (submit_daily w s i insts p)
unfolding submit_daily
submit_daily-Counted w s i [] p = omega arith
submit_daily-Counted w s i (inst ∷ insts) p =
    omega (arith, submit_daily-Counted w s (i + 1) insts _)

one_positive : Decimal.lt (dec 100 2) nought ≡ false
unfolding Decimal.lt
one_positive = refl

reconcile_day-Counted :
    (w : Surroundings) (s : Date) (p : Progress) → Counted 0 1 p (reconcile_day w s p)
unfolding reconcile_day
reconcile_day-Counted w s p =
    let r = reconcile_self (get_account p.adapter) (dec 100 2) (w.reconciled_at s) one_positive in
    rw (r.0) (omega arith)

simulate_day-Counted :
    (w : Surroundings) (insts : List InstrumentId) (s : Date) (p : Progress)
    → Counted (length insts) 1 p (simulate_day w insts s p)
unfolding simulate_day
simulate_day-Counted w insts s p =
    let q : Progress = record p { adapter = set_prices (flat_prices insts) p.adapter } in
    let traded = submit_daily w s 0 insts q in
    omega (arith, submit_daily-Counted w s 0 insts q, reconcile_day-Counted w s traded)

simulate_days-Counted :
    (w : Surroundings) (insts : List InstrumentId) (ss : List Date) (p : Progress)
    → Counted (length ss * length insts) (length ss) p (simulate_days w insts ss p)
unfolding simulate_days
simulate_days-Counted w insts [] p = omega arith
simulate_days-Counted w insts (s ∷ ss) p = grind (
  arith,
  simulate_day-Counted w insts s p,
  simulate_days-Counted w insts ss (simulate_day w insts s p),
)

weekdays_from-ends :
    (fuel : ℕ) (cur end : Date)
    → IsDate cur
    → IsDate end
    → to_ordinal end + 1 - to_ordinal cur < fuel
    → (ds : List Date) × (weekdays_from fuel cur end ≡ ok ds)
unfolding weekdays_from
weekdays_from-ends zero cur end v w h = elim h [ ]
weekdays_from-ends (suc fuel) cur end v w h = elim (Bool-cases (date_le cur end)) [
  | inr over ↦ ([], rw (over, weekdays_from))
  | inl inside ↦
      let (rest, e) =
        weekdays_from-ends fuel (next_day cur) end (next_day-IsDate cur v) w
          (omega (arith, to_ordinal-next_day cur v, date_le→le cur end v w inside)) in
      ((if ltb (weekday cur) 5 then cur ∷ rest else rest), rw (inside, weekdays_from, e))
]

-- Between two dates the simulation ends. Its evidence counts thirty orders and thirty fills for
-- each of its sessions, and a clean reconciliation for each.
pub simulate-counts :
    (w : Surroundings) (id : Text) (start end : Date) (cash : Decimal)
    → IsDate start
    → IsDate end
    → (ev : PaperForwardEvidence) × (simulate w id start end cash ≡ ok ev)
      × (ev.orders_count ≡ ev.total_sessions * 30)
      × (ev.fills_count ≡ ev.total_sessions * 30)
      × (ev.clean_reconciliations ≡ ev.total_sessions)
unfolding simulate
simulate-counts w id start end cash v u =
    let (ds, e) =
      weekdays_from-ends (suc (to_ordinal end + 1 - to_ordinal start)) start end v u
        (omega arith) in
    let c = simulate_days-Counted w (instruments_from 0 30) ds (fresh w cash) in
    (
      evidence_of id start end ds (simulate_days w (instruments_from 0 30) ds (fresh w cash)),
      rw e,
      omega arith,
      omega arith,
      omega arith,
    )
