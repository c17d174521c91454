-- ===== src/Tests/Paper.antt =====
-- Paper trading.
use quantlab_v.Prelude.{ℕ, ◌+◌, ◌≡◌, refl, true, false, List, [], ◌∷◌}
use quantlab_v.Prelude.Int.{pos}
use quantlab_v.Decimal.{dec, nought, lt}
use quantlab_v.Time.{DateTime}
use quantlab_v.Paper.Adapter.{
  PaperOrder, PaperOrderSide, buy, sell, pending, BrokerAccount, new_adapter, get_account,
}
use quantlab_v.Paper.Recovery.{reconstruct_from_fills}
use quantlab_v.Paper.Recovery.Replay.{Submission, submit_all, InTime, reconstruct-submit_all}
use quantlab_v.Paper.Reconciliation.{reconcile, no_severity}
use quantlab_v.Paper.Reconciliation.Clean.{reconcile_self}
use quantlab_v.Tests.Data.{name, morning, evening, christmas_eve}

abbrev order : PaperOrderSide → ℕ → PaperOrder
order side n = record {
  order_id = name;
  session = christmas_eve;
  instrument_id = 7;
  side = side;
  quantity = pos n;
  order_type = name;
  status = pending;
}

-- The price is set before the order.
abbrev submission : DateTime → PaperOrderSide → ℕ → Submission
submission t side n = record {
  prices = (7, dec (2000 + n) 2) ∷ [];
  fill_id = name;
  now = t;
  order = order side n;
}

-- The last sale is of more than is held.
abbrev submissions : List Submission
submissions = submission morning buy 10 ∷ submission evening sell 4 ∷ submission evening sell 9 ∷ []

in_time : InTime submissions
in_time = ((refl, (refl, tt)), ((refl, tt), (tt, tt)))

reconstruct-submit_all_example :
    let (fills, last) =
      submit_all submissions (new_adapter name (dec 100000 2) (dec 50 1) (dec 100 2)) in
    reconstruct_from_fills last.account_id (dec 100000 2) fills ≡ get_account last
reconstruct-submit_all_example =
    reconstruct-submit_all submissions name (dec 100000 2) (dec 50 1) (dec 100 2) in_time

abbrev account : BrokerAccount
account = record {
  account_id = name;
  cash_balance = dec 99950 2;
  buying_power = dec 99950 2;
  positions = (7, dec 10 0) ∷ (9, dec 25 1) ∷ [];
}

tolerance_nonneg : lt (dec 100 2) nought ≡ false
unfolding lt
tolerance_nonneg = refl

reconcile_self_example :
    let r = reconcile account.cash_balance account.positions account (dec 100 2) evening in
    (r.is_clean ≡ true) × (r.breaks ≡ []) × (r.max_severity ≡ no_severity)
reconcile_self_example = reconcile_self account (dec 100 2) evening tolerance_nonneg
