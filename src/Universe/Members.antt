-- ===== src/Universe/Members.antt =====
-- The members of the universe at a date.
use quantlab_v.Prelude.{
  ℕ, ◌*◌, min, ◌≡◌, refl, sym, ap, ◌∙◌, Bool, true, ◌&&◌, Option, none, some, List, [], ◌∷◌, map,
  arith, ltb, ◌==◌, filter, any, contains, Text,
}
use quantlab_v.Prelude.Result.{Result, ok, >>=-eq-ok, ok-injective}
use quantlab_v.Prelude.Sort.{sort_by, IsSorted, IsOrder, sort_by-IsSorted}
use quantlab_v.Prelude.Distinct.{any-sort_by}
use quantlab_v.Time.{Date}
use quantlab_v.Decimal.{Decimal}
use quantlab_v.Domain.Identity.{InstrumentId, Instrument}
use quantlab_v.Data.Bars.{MarketBarStore}
use quantlab_v.Universe.{
  UniverseRule, UniverseEngine, source_instruments, is_active, allow, is_on, is_candidate,
  keep_liquid, filter_liquid, read_bars, get_tradable_universe,
}

ids-IsOrder : IsOrder ltb
ids-IsOrder = record { asym = λ x y h. ground arith; trans = λ x y z h k. ground arith }

abbrev pub is_id : InstrumentId → Instrument → Bool
is_id i c = i == c.instrument_id

contains→any : (i : InstrumentId) (l : List ℕ) → contains i l ≡ any (λ j. i == j) l
contains→any i [] = refl
contains→any i (x ∷ l) = ground (arith, contains→any i l)

any-ids :
    (i : InstrumentId) (l : List Instrument)
    → any (λ j. i == j) (map (λ c. c.instrument_id) l) ≡ any (is_id i) l
any-ids i [] = refl
any-ids i (c ∷ l) = ground (arith, any-ids i l)

any-filter :
    (p q : Instrument → Bool) (l : List Instrument) → any p (filter q l) ≡ any (λ c. p c && q c) l
any-filter p q [] = refl
any-filter p q (c ∷ l) = ground (arith, any-filter p q l)

any-filter_le :
    (p q : Instrument → Bool) (l : List Instrument) → any p (filter q l) ≡ true → any p l ≡ true
any-filter_le p q (c ∷ l) h = ground (arith, any-filter_le p q l)
any-filter_le p q [] h = h

module _ (upper : Text → Text) (days_before : Date → ℕ → Date)
    (median : List Decimal → Result Decimal) where
  -- The filter by liquidity only takes away, and only where a least volume is given.
  keep_liquid-kept :
      (rules : UniverseRule) (as_of : Date) (least : Option Decimal) (store : Option MarketBarStore)
      (l kept : List Instrument) (i : InstrumentId)
      → keep_liquid upper days_before median rules as_of least store l ≡ ok kept
      → (any (is_id i) kept ≡ true → any (is_id i) l ≡ true) × (least ≡ none → kept ≡ l)
  unfolding keep_liquid
  keep_liquid-kept rules as_of none store l kept i h =
      let same : l ≡ kept = ok-injective h in (rw (sym same) (λ k. k), λ e. sym same)
  keep_liquid-kept rules as_of (some least) none l kept i h =
      let same : l ≡ kept = ok-injective h in (rw (sym same) (λ k. k), λ e. sym same)
  keep_liquid-kept rules as_of (some least) (some store) l kept i h =
      let start = days_before as_of (rules.liquidity_lookback_days * 2) in
      let (bars, e, k) = >>=-eq-ok (read_bars start as_of store l []) _ h in
      let (liquid, e2, k2) =
        >>=-eq-ok (filter_liquid median least (min 5 rules.liquidity_lookback_days) bars) _ k in
      (
        rw (sym (ok-injective k2))
            (any-filter_le (is_id i) (λ c. contains c.instrument_id liquid) l),
        λ x. absurd (cc x),
      )

  -- The universe at a date is sorted, and each member is an instrument that is active at the date, of
  -- an allowed type and on an allowed exchange; with no least volume, all of these are members.
  pub get_tradable_universe-members :
      (as_of : Date) (rules : UniverseRule) (given : Option (List Instrument)) (e : UniverseEngine)
      (out : List InstrumentId)
      → get_tradable_universe upper days_before median as_of rules given e ≡ ok out
      → let eligible = λ (i : InstrumentId).
        any
          (λ (c : Instrument).
            is_id i c
            && (is_active as_of c
                && allow rules.allowed_types c
                && is_on upper days_before median rules.exchanges c))
          (source_instruments given e) in
        IsSorted ltb out
        × ((i : InstrumentId) → contains i out ≡ true → eligible i ≡ true)
        × (rules.min_median_dollar_volume ≡ none → (i : InstrumentId) → contains i out ≡ eligible i)
  unfolding get_tradable_universe
  get_tradable_universe-members as_of rules given e out h =
      let source = source_instruments given e in
      let listed = filter (is_candidate upper days_before median rules as_of) source in
      let (kept, ek, k) =
        >>=-eq-ok
          (keep_liquid upper days_before median rules as_of rules.min_median_dollar_volume
            e.bar_store listed)
          _ h in
      let made = ok-injective k in
      let member = λ (i : InstrumentId).
        ap (contains i) (sym made)
        ∙ contains→any i (sort_by ltb (map (λ c. c.instrument_id) kept))
        ∙ any-sort_by ltb (λ j. i == j) (map (λ c. c.instrument_id) kept)
        ∙ any-ids i kept in
      let taken = λ (i : InstrumentId).
        keep_liquid-kept rules as_of rules.min_median_dollar_volume e.bar_store listed kept i ek in
      let eligible = λ (i : InstrumentId).
        any-filter (is_id i) (is_candidate upper days_before median rules as_of) source in
      (
        rw (sym made) (sort_by-IsSorted ltb ids-IsOrder (map (λ c. c.instrument_id) kept)),
        λ i c. sym (eligible i) ∙ (taken i).0 (sym (member i) ∙ c),
        λ none_given i. member i ∙ ap (any (is_id i)) ((taken i).1 none_given) ∙ eligible i,
      )
