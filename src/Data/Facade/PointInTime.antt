-- ===== src/Data/Facade/PointInTime.antt =====
-- No bar from after the moment of the question, whatever is cached.
use quantlab_v.Prelude.{
  ◌≡◌, refl, ap, inl, inr, Bool, true, false, not, ◌||◌, Option, none, some, List, [], ◌∷◌,
  if◌then◌else◌, Bool-cases, Option-cases, get_or, filter, All,
}
use mathlib.Core.Path.{subst}
use quantlab_v.Prelude.Result.{Result, ok, err, ◌>>=◌, >>=-eq-ok, Result-cases}
use quantlab_v.Prelude.Dict.{lookup}
use quantlab_v.Time.{Date, DateTime, date_lt}
use quantlab_v.Domain.Identity.{InstrumentId}
use quantlab_v.Domain.Market.{raw, CorporateAction}
use quantlab_v.Data.Actions.{Actions, get_actions, record_action}
use quantlab_v.Data.Adjust.{apply_adjustments}
use quantlab_v.Data.Bars.{Bars, get_bars, write_daily_bars}
use quantlab_v.Data.Bars.Reads.{get_bars-requested}
use quantlab_v.Data.Facade.{
  CachedBars, PointInTimeDataFacade, same_moment, is_observed, slice_entry, cached_adjusted,
  is_empty, keep_adjusted, adjust_observed, fetch_observed, get_market_bars,
}
use quantlab_v.Data.Facade.Current.{
  IsVisible, IsCurrent, apply_adjustments-All, filter_both, filter_observed, All-weaken,
  same_observed, store_adjusted-IsCurrent,
}

-- An answer that is not an exception holds visible bars only.
abbrev pub IsAnswer : Date → Date → DateTime → Result Bars → Type 0
IsAnswer start end as_of (ok bars) = All (IsVisible start end as_of) bars
IsAnswer start end as_of (err e) = Unit

cached_adjusted-IsVisible :
    (i : InstrumentId) (start end : Date) (as_of : DateTime) (f : PointInTimeDataFacade)
    (out : Bars)
    → IsCurrent f
    → cached_adjusted i start end as_of f ≡ some out
    → All (IsVisible start end as_of) out
unfolding cached_adjusted
cached_adjusted-IsVisible i start end as_of f out h e =
    elim (Bool-cases (same_moment f.adjusted_as_of as_of)) [
      | inr other ↦ absurd (cc (rw other at e))
      | inl same ↦
          at_moment f.adjusted_as_of (lookup i f.adjusted_cache) refl refl same (rw same at e)
    ]
  where
    at_moment :
        (s : Option DateTime) (o : Option CachedBars)
        → f.adjusted_as_of ≡ s
        → lookup i f.adjusted_cache ≡ o
        → same_moment s as_of ≡ true
        → slice_entry start end o ≡ some out
        → All (IsVisible start end as_of) out
    at_moment none o k l same e = absurd (cc same)
    at_moment (some t) none k l same e = absurd (cc e)
    at_moment (some t) (some c) k l same e =
        elim (Bool-cases (date_lt start c.start_date || date_lt c.end_date end)) [
          | inl narrow ↦ absurd (cc (rw narrow at e))
          | inr wide ↦
              subst (All (IsVisible start end as_of))
                (ap (λ (x : Option Bars). get_or x []) (rw wide at e))
                (filter_both start end as_of c.bars
                  (same_observed (some t) as_of t c.bars same refl (h.observed t i c k l)))
        ]

module _ (date_of : DateTime → Date) where
  adjust_observed-visible :
      (i : InstrumentId) (start end : Date) (as_of : DateTime) (bars : Bars)
      (f : PointInTimeDataFacade)
      → All (IsVisible start end as_of) bars
      → IsCurrent f
      → let (answer, g) = adjust_observed date_of i start end as_of bars f in
        IsAnswer start end as_of answer × IsCurrent g
  unfolding adjust_observed
  adjust_observed-visible i start end as_of bars f a h =
      let (actions, store) = get_actions i (some start) (some (date_of as_of)) f.action_store in
      let g : PointInTimeDataFacade = record f { action_store = store } in
      kept (actions >>= λ (x : Actions). apply_adjustments bars x (some as_of)) g
        (record { observed = h.observed }) refl
    where
      visible :
          (o : Result Actions) (out : Bars)
          → (o >>= λ (x : Actions). apply_adjustments bars x (some as_of)) ≡ ok out
          → All (IsVisible start end as_of) out
      visible o out e =
          let (x, q, k) = >>=-eq-ok o _ e in
          apply_adjustments-All (IsVisible start end as_of) (λ b y v. v) bars out x (some as_of) a k

      kept :
          (r : Result Bars) (g : PointInTimeDataFacade)
          → IsCurrent g
          → ((get_actions i (some start) (some (date_of as_of)) f.action_store).0
              >>= λ (x : Actions). apply_adjustments bars x (some as_of))
            ≡ r
          → IsAnswer start end as_of (keep_adjusted date_of i start end as_of r g).0
            × IsCurrent (keep_adjusted date_of i start end as_of r g).1
      kept (err e) g c q = (tt, c)
      kept (ok out) g c q =
          let v = visible _ out q in
          (v, store_adjusted-IsCurrent i start end as_of out g (All-weaken start end as_of out v) c)

  fetch_observed-visible :
      (i : InstrumentId) (start end : Date) (as_of : DateTime) (want : Bool)
      (f : PointInTimeDataFacade)
      → IsCurrent f
      → let (answer, g) =
          fetch_observed date_of i start end as_of want (get_bars i start end raw f.bar_store) f in
        IsAnswer start end as_of answer × IsCurrent g
  fetch_observed-visible i start end as_of want f h =
      elim (Result-cases (get_bars i start end raw f.bar_store)) [
        | inl (x, e) ↦ rw (e, fetch_observed) (tt, h)
        | inr (bars, e) ↦
            let valid = filter (is_observed as_of) bars in
            let seen =
              filter_observed i start end as_of bars
                (get_bars-requested i start end raw f.bar_store bars e) in
            elim (Bool-cases (not want || is_empty valid)) [
              | inl plain ↦ rw (e, fetch_observed, plain) (seen, h)
              | inr more ↦
                  rw (e, fetch_observed, more)
                    (adjust_observed-visible i start end as_of valid f seen h)
            ]
      ]

  get_market_bars-visible :
      (i : InstrumentId) (start end : Date) (as_of : DateTime) (want : Bool)
      (f : PointInTimeDataFacade)
      → IsCurrent f
      → let (answer, g) = get_market_bars date_of i start end as_of want f in
        IsAnswer start end as_of answer × IsCurrent g
  unfolding get_market_bars
  get_market_bars-visible i start end as_of want f h =
      elim (Option-cases (if want then cached_adjusted i start end as_of f else none)) [
        | inl e ↦ rw (e, get_market_bars) (fetch_observed-visible i start end as_of want f h)
        | inr (out, e) ↦ rw (e, get_market_bars) (hit want out e, h)
      ]
    where
      hit :
          (b : Bool) (out : Bars)
          → (if b then cached_adjusted i start end as_of f else none) ≡ some out
          → All (IsVisible start end as_of) out
      hit true out e = cached_adjusted-IsVisible i start end as_of f out h e
      hit false out e = absurd (cc e)

-- What is asked of the facade, or done to its stores.
pub data Call : Type 0 where
  bars_call : InstrumentId → Date → Date → DateTime → Bool → Call
  action_call : CorporateAction → Call
  write_call : Bars → Call

pub record Answer : Type 0 where
  pub start_date : Date
  pub end_date : Date
  pub as_of : DateTime
  pub bars : Result Bars

module _ (date_of : DateTime → Date) where
  -- The answers of a series of calls.
  unfoldable pub answers : List Call → PointInTimeDataFacade → List Answer
  answers [] f = []
  answers (bars_call i start end as_of want ∷ calls) f =
      let (bars, g) = get_market_bars date_of i start end as_of want f in
      record { start_date = start; end_date = end; as_of = as_of; bars = bars } ∷ answers calls g
  answers (action_call a ∷ calls) f =
      answers calls (record f { action_store = record_action a f.action_store })
  answers (write_call bars ∷ calls) f =
      answers calls (record f { bar_store = write_daily_bars bars f.bar_store })

  answers-visible :
      (calls : List Call) (f : PointInTimeDataFacade)
      → IsCurrent f
      → All (λ a. IsAnswer a.start_date a.end_date a.as_of a.bars) (answers calls f)
  unfolding answers
  answers-visible [] f h = tt
  answers-visible (bars_call i start end as_of want ∷ calls) f h =
      let (seen, current) = get_market_bars-visible date_of i start end as_of want f h in
      (seen, answers-visible calls _ current)
  answers-visible (action_call a ∷ calls) f h =
      answers-visible calls _ (record { observed = h.observed })
  answers-visible (write_call bars ∷ calls) f h =
      answers-visible calls _ (record { observed = h.observed })

  -- Over any calls, with the stores changed in between, a new facade answers each question with bars
  -- that lie in the range of the question and were observed by its moment, from its cache or not.
  pub answers-point_in_time :
      (calls : List Call) (f : PointInTimeDataFacade)
      → f.adjusted_as_of ≡ none
      → All (λ a. IsAnswer a.start_date a.end_date a.as_of a.bars) (answers calls f)
  answers-point_in_time calls f new =
      answers-visible calls f (record { observed = λ t i c k l. absurd (cc (new, k)) })
