-- ===== src/Data/Facade/Current.antt =====
-- The cache of the facade holds what was observed by its moment.
use quantlab_v.Prelude.{
  ◌≡◌, refl, ap, inl, inr, true, Option, none, some, List, [], ◌∷◌, arith, ◌==◌, Bool-cases, get_or,
  filter, All,
}
use mathlib.Core.Path.{subst}
use quantlab_v.Prelude.Result.{ok, >>=-eq-ok, ok-injective}
use quantlab_v.Prelude.Dict.{lookup, lookup-insert}
use quantlab_v.Prelude.Sort.{sort_by-All}
use quantlab_v.Prelude.Table.{Table, find}
use quantlab_v.Time.{Date, DateTime, same_date}
use quantlab_v.Domain.Identity.{InstrumentId}
use quantlab_v.Domain.Market.{MarketBar, CorporateAction, new_bar}
use quantlab_v.Data.Adjust.{
  Factor, one, by_session, adjusted, adjust_bars, apply_adjustments,
  compute_cumulative_adjustment_factors,
}
use quantlab_v.Data.Bars.{Bars, is_requested}
use quantlab_v.Data.Bars.Reads.{new_bar-eq}
use quantlab_v.Data.Facade.{
  CachedBars, PointInTimeDataFacade, same_moment, is_within, is_observed, move_to, covers,
  store_adjusted,
}

-- A bar that the question may see.
abbrev pub IsVisible : Date → Date → DateTime → MarketBar → Type 0
IsVisible start end as_of b = (is_within start end b ≡ true) × (is_observed as_of b ≡ true)

-- What is cached was observed by the moment of the cache.
pub record IsCurrent (f : PointInTimeDataFacade) : Type 0 where
  pub observed :
      (t : DateTime) (i : InstrumentId) (c : CachedBars)
      → f.adjusted_as_of ≡ some t
      → lookup i f.adjusted_cache ≡ some c
      → All (λ b. is_observed t b ≡ true) c.bars

module _ (P : MarketBar → Type 0)
    (keep : (b : MarketBar) (f : Factor) → P b → P (adjusted b f)) where
  adjust_bars-All :
      (factors : Table Date Factor) (bars out : Bars)
      → All P bars
      → adjust_bars factors bars ≡ ok out
      → All P out
  unfolding adjust_bars
  adjust_bars-All factors [] out a h = subst (All P) (ok-injective h) tt
  adjust_bars-All factors (r ∷ bars) out a h =
      let f = get_or (find same_date r.session factors) (one, one) in
      let (b, e, k) = >>=-eq-ok (new_bar (adjusted r f)) _ h in
      let (rest, e2, k2) = >>=-eq-ok (adjust_bars factors bars) _ k in
      subst (All P) (ok-injective k2)
        (subst P (new_bar-eq _ b e) (keep r f a.0), adjust_bars-All factors bars rest a.1 e2)

  pub apply_adjustments-All :
      (bars out : Bars) (actions : List CorporateAction) (as_of : Option DateTime)
      → All P bars
      → apply_adjustments bars actions as_of ≡ ok out
      → All P out
  unfolding apply_adjustments
  apply_adjustments-All bars out actions as_of a h =
      let (factors, e, k) =
        >>=-eq-ok (compute_cumulative_adjustment_factors bars actions as_of) _ h in
      adjust_bars-All factors _ out (sort_by-All by_session P bars a) k

pub filter_both :
    (start end : Date) (as_of : DateTime) (bars : Bars)
    → All (λ b. is_observed as_of b ≡ true) bars
    → All (IsVisible start end as_of) (filter (is_within start end) bars)
filter_both start end as_of [] h = tt
filter_both start end as_of (b ∷ bars) h = elim (Bool-cases (is_within start end b)) [
  | inl e ↦ rw e ((e, h.0), filter_both start end as_of bars h.1)
  | inr e ↦ rw e (filter_both start end as_of bars h.1)
]

pub filter_observed :
    (i : InstrumentId) (start end : Date) (as_of : DateTime) (bars : Bars)
    → All (λ b. is_requested i start end b ≡ true) bars
    → All (IsVisible start end as_of) (filter (is_observed as_of) bars)
filter_observed i start end as_of [] h = tt
filter_observed i start end as_of (b ∷ bars) h = elim (Bool-cases (is_observed as_of b)) [
  | inl e ↦ rw e ((ground (arith, h.0), e), filter_observed i start end as_of bars h.1)
  | inr e ↦ rw e (filter_observed i start end as_of bars h.1)
]

pub All-weaken :
    (start end : Date) (as_of : DateTime) (bars : Bars)
    → All (IsVisible start end as_of) bars
    → All (λ b. is_observed as_of b ≡ true) bars
All-weaken start end as_of [] h = tt
All-weaken start end as_of (b ∷ bars) h = (h.0.1, All-weaken start end as_of bars h.1)

-- Equal moments see the same.
pub same_observed :
    (s : Option DateTime) (t u : DateTime) (bars : Bars)
    → same_moment s t ≡ true
    → s ≡ some u
    → All (λ b. is_observed u b ≡ true) bars
    → All (λ b. is_observed t b ≡ true) bars
same_observed none t u [] h e a = tt
same_observed none t u (b ∷ bars) h e a = absurd (cc)
same_observed (some s) t u [] h e a = tt
same_observed (some s) t u (b ∷ bars) h e a = (
  ground (arith, a.0, ap (λ (o : Option DateTime). (get_or o s).instant) e),
  same_observed (some s) t u bars h e a.1,
)

move_to-IsCurrent :
    (as_of : DateTime) (f : PointInTimeDataFacade) → IsCurrent f → IsCurrent (move_to as_of f)
move_to-IsCurrent as_of f h = elim (Bool-cases (same_moment f.adjusted_as_of as_of)) [
  | inl e ↦ rw e h
  | inr e ↦ rw e (record { observed = λ t i c k l. absurd (cc l) })
]

-- Where the cache has moved to is the moment, as far as it sees.
move_to-observed :
    (as_of t : DateTime) (f : PointInTimeDataFacade) (bars : Bars)
    → (move_to as_of f).adjusted_as_of ≡ some t
    → All (λ b. is_observed as_of b ≡ true) bars
    → All (λ b. is_observed t b ≡ true) bars
move_to-observed as_of t f bars h a = elim (Bool-cases (same_moment f.adjusted_as_of as_of)) [
  | inl e ↦ back f.adjusted_as_of bars e (rw e at h) a
  | inr e ↦ same_observed (some as_of) t as_of bars (ground (arith, rw e at h)) refl a
]
  where
    back :
        (s : Option DateTime) (l : Bars)
        → same_moment s as_of ≡ true
        → s ≡ some t
        → All (λ b. is_observed as_of b ≡ true) l
        → All (λ b. is_observed t b ≡ true) l
    back s [] e k a = tt
    back none (b ∷ l) e k a = absurd (cc)
    back (some s) (b ∷ l) e k a = (
      ground (arith, a.0, ap (λ (o : Option DateTime). (get_or o s).instant) k),
      back (some s) l e k a.1,
    )

pub store_adjusted-IsCurrent :
    (i : InstrumentId) (start end : Date) (as_of : DateTime) (bars : Bars)
    (f : PointInTimeDataFacade)
    → All (λ b. is_observed as_of b ≡ true) bars
    → IsCurrent f
    → IsCurrent (store_adjusted i start end as_of bars f)
unfolding store_adjusted
store_adjusted-IsCurrent i start end as_of bars f a h =
    let g = move_to as_of f in
    let current = move_to-IsCurrent as_of f h in
    elim (Bool-cases (covers start end (lookup i g.adjusted_cache))) [
      | inl e ↦ rw (e, store_adjusted) current
      | inr e ↦
          rw (e, store_adjusted)
            (record {
              observed = λ t j c k l. elim (Bool-cases (i == j)) [
                | inl same ↦
                    let entry = rw (lookup-insert i j _ g.adjusted_cache, same) at l in
                    subst (λ (x : CachedBars). All (λ b. is_observed t b ≡ true) x.bars)
                      (ap (λ (o : Option CachedBars). get_or o c) entry)
                      (move_to-observed as_of t f bars k a)
                | inr other ↦
                    current.observed t j c k (rw (lookup-insert i j _ g.adjusted_cache, other) at l)
              ];
            })
    ]
