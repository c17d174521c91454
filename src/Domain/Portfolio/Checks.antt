-- ===== src/Domain/Portfolio/Checks.antt =====
-- What the constructors of target portfolios return: their argument, when it passes the checks.
use quantlab_v.Prelude.{◌≡◌, sym, false, map, arith}
use quantlab_v.Prelude.Result.{ok, >>=-eq-ok, ok-injective}
use quantlab_v.Decimal
use quantlab_v.Decimal.{Decimal, nought}
use quantlab_v.Domain.Identity.{
  require_nonempty, require_timezone_aware, require_nonnegative_decimal,
}
use quantlab_v.Domain.Portfolio.{
  TargetPosition, TargetPortfolio, new_target_position, new_target_portfolio,
  require_unique_instruments,
}
use quantlab_v.Domain.Portfolio.Unique.{IsUnique, require_unique_instruments_iff}

pub new_target_position-ok :
    (p q : TargetPosition)
    → new_target_position p ≡ ok q
    → (q ≡ p) × (Decimal.lt p.target_weight nought ≡ false)
unfolding new_target_position require_nonnegative_decimal
new_target_position-ok p q h = ground (arith, h)

pub new_target_portfolio-ok :
    (t u : TargetPortfolio)
    → new_target_portfolio t ≡ ok u
    → (u ≡ t) × IsUnique (map (λ (p : TargetPosition). p.instrument_id) t.positions)
unfolding new_target_portfolio
new_target_portfolio-ok t u h =
    let (a, ea, h1) = >>=-eq-ok (require_nonempty t.portfolio_id) _ h in
    let (b, eb, h2) = >>=-eq-ok (require_timezone_aware t.decision_time) _ h1 in
    let ids = map (λ (p : TargetPosition). p.instrument_id) t.positions in
    let (c, ec, h3) = >>=-eq-ok (require_unique_instruments ids) _ h2 in
    let (d, ed, h4) = >>=-eq-ok (require_nonempty t.source_alpha_snapshot_id) _ h3 in
    (sym (ok-injective h4), (require_unique_instruments_iff ids).0 ec)
