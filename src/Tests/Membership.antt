-- ===== src/Tests/Membership.antt =====
-- Membership of the universe.
use quantlab_v.Prelude.{
  ℕ, ◌≡◌, refl, true, ◌&&◌, none, some, List, [], ◌∷◌, ltb, any, contains, Text,
}
use quantlab_v.Prelude.Result.{Result, ok}
use quantlab_v.Prelude.Sort.{IsSorted, sort_by, insert_sorted}
use quantlab_v.Time.{Date, date}
use quantlab_v.Decimal.{Decimal, dec}
use quantlab_v.Domain.Identity.{InstrumentId, Instrument, equity, etf, active}
use quantlab_v.Universe.{
  UniverseRule, UniverseEngine, source_instruments, is_active, allow, is_on, keep_liquid,
  get_tradable_universe,
}
use quantlab_v.Universe.Members.{is_id, get_tradable_universe-members}
use quantlab_v.Tests.Data.{name, other_name, christmas_eve}

abbrev share : InstrumentId → Instrument
share i = record {
  instrument_id = i;
  issuer_name = name;
  security_name = name;
  instrument_type = equity;
  exchange = other_name;
  currency = name;
  active_from = date 2010 1 1;
  status = active;
  active_to = none;
}

-- One share has ended, and one instrument is no share.
abbrev an_engine : UniverseEngine
an_engine = record {
  bar_store = none;
  instruments = some (
      share 9
      ∷ record (share 4) { active_to = some (date 2015 1 1) }
      ∷ record (share 5) { instrument_type = etf }
      ∷ share 2
      ∷ []);
}

abbrev a_rule : UniverseRule
a_rule = record {
  allowed_types = equity ∷ [];
  min_median_dollar_volume = none;
  liquidity_lookback_days = 20;
  exchanges = other_name ∷ [];
}

abbrev as_written : Text → Text
as_written t = t

abbrev same_day : Date → ℕ → Date
same_day d n = d

abbrev first_of : List Decimal → Result Decimal
first_of [] = ok (dec 0 0)
first_of (x ∷ l) = ok x

members_ok :
    get_tradable_universe as_written same_day first_of christmas_eve a_rule none an_engine
    ≡ ok (2 ∷ 9 ∷ [])
unfolding get_tradable_universe keep_liquid sort_by insert_sorted
members_ok = refl

get_tradable_universe-members_example :
    let eligible = λ (i : InstrumentId).
      any
        (λ (c : Instrument).
          is_id i c
          && (is_active christmas_eve c
              && allow a_rule.allowed_types c
              && is_on as_written same_day first_of a_rule.exchanges c))
        (source_instruments none an_engine) in
    IsSorted ltb (2 ∷ 9 ∷ [])
    × ((i : InstrumentId) → contains i (2 ∷ 9 ∷ []) ≡ true → eligible i ≡ true)
    × (a_rule.min_median_dollar_volume ≡ none
        → (i : InstrumentId) → contains i (2 ∷ 9 ∷ []) ≡ eligible i)
get_tradable_universe-members_example =
    get_tradable_universe-members as_written same_day first_of christmas_eve a_rule none an_engine
      (2 ∷ 9 ∷ []) members_ok
