-- ===== src/Data/Fundamentals/Latest.antt =====
-- The value as of a moment is the latest that was available, whatever is recorded later.
use quantlab_v.Prelude.{
  ◌≤◌, ◌<◌, ◌≡◌, refl, ap, ◌∙◌, ◌⊎◌, inl, inr, true, false, Option, none, some, List, [], ◌∷◌,
  arith, Bool-cases, any, All, Text, text_eq,
}
use mathlib.Core.Path.{subst}
use quantlab_v.Prelude.Result.{ok}
use quantlab_v.Prelude.Table.{text_eq_refl, text_eq→eq}
use quantlab_v.Time.{Date, DateTime, IsUtc}
use quantlab_v.Time.Iso.{iso_lt-eq-earlier, replace_utc-IsUtc}
use quantlab_v.Domain.Identity.{InstrumentId}
use quantlab_v.Data.Query.{
  select_latest, IsLatest, Holds, select_latest-IsLatest, select_latest-append_other,
}
use quantlab_v.Data.Fundamentals.{
  FundamentalValue, SqlFundamentalStore, new_fundamental, insert_or_ignore, same_natural_key,
  is_newer, is_visible, is_period, load_row, record_statements, as_of,
}
use quantlab_v.Data.Fundamentals.Order.{
  IsPeriod, IsNoNewer, is_newer-IsOrder, is_period→IsPeriod, IsPeriod→is_period, is_newer-IsNoNewer,
}

-- A row as the store keeps it: a statement that passed its checks, available at a moment in UTC.
abbrev pub IsStored : FundamentalValue → Type 0
IsStored r = IsUtc r.available_at × (new_fundamental r ≡ ok r)

-- What becomes available after a moment.
abbrev pub IsFuture : DateTime → FundamentalValue → Type 0
IsFuture t s = IsUtc s.available_at × (t.instant < s.available_at.instant)

load_row-IsStored : (r : FundamentalValue) → IsStored r → load_row (some r) ≡ ok (some r)
load_row-IsStored r h = rw (replace_utc-IsUtc r.available_at h.0, h.1)

head_eq : {x y : FundamentalValue} {xs ys : List FundamentalValue} → x ∷ xs ≡ y ∷ ys → x ≡ y
head_eq e = cc e

tail_eq : {x y : FundamentalValue} {xs ys : List FundamentalValue} → x ∷ xs ≡ y ∷ ys → xs ≡ ys
tail_eq e = cc e

module _ (lower : Text → Text) (i : InstrumentId) (t : DateTime) (utc : IsUtc t) (metric : Text)
    (period : Option Date) where
  abbrev latest : SqlFundamentalStore → Option FundamentalValue
  latest rows = select_latest (is_newer period) (is_visible lower i t metric period) rows

  hidden : (s : FundamentalValue) → IsFuture t s → is_visible lower i t metric period s ≡ false
  hidden s f = ground (arith, iso_lt-eq-earlier t s.available_at utc f.0, f.1)

  latest-insert_or_ignore :
      (s : FundamentalValue) (rows : SqlFundamentalStore)
      → IsFuture t s
      → latest (insert_or_ignore s rows) ≡ latest rows
  unfolding insert_or_ignore
  latest-insert_or_ignore s rows f = elim (Bool-cases (any (same_natural_key s) rows)) [
    | inl there ↦ rw there
    | inr new ↦ rw new (
        select_latest-append_other (is_newer period) (is_visible lower i t metric period) rows s
          (hidden s f))
  ]

  latest-record_statements :
      (statements : List FundamentalValue) (rows : SqlFundamentalStore)
      → All (IsFuture t) statements
      → latest (record_statements lower statements rows) ≡ latest rows
  unfolding record_statements
  latest-record_statements [] rows f = refl
  latest-record_statements (s ∷ statements) rows f =
      latest-record_statements statements
        (insert_or_ignore (record s { metric = lower s.metric }) rows) f.1
      ∙ latest-insert_or_ignore (record s { metric = lower s.metric }) rows f.0

  -- A row of the instrument, the metric and the period that was available by the moment.
  abbrev pub IsAvailable : FundamentalValue → Type 0
  IsAvailable r =
      (r.instrument_id ≡ i)
      × (r.metric ≡ lower metric)
      × (r.available_at.instant ≤ t.instant)
      × IsPeriod period r.period_end

  -- No row was available, or this is one that was, and none that was is newer.
  abbrev pub IsAnswer : SqlFundamentalStore → Option FundamentalValue → Type 0
  IsAnswer rows none = All (λ x. ¬ IsAvailable x) rows
  IsAnswer rows (some r) =
      Holds rows r × IsAvailable r × All (λ x. (¬ IsAvailable x) ⊎ IsNoNewer x r) rows

  is_visible-IsAvailable :
      (r : FundamentalValue)
      → IsUtc r.available_at
      → is_visible lower i t metric period r ≡ true
      → IsAvailable r
  is_visible-IsAvailable r u h =
      let at_metric : text_eq r.metric (lower metric) ≡ true = ground (arith, h) in
      let in_period : is_period period r.period_end ≡ true = ground (arith, h) in
      (
        ground (arith, h),
        text_eq→eq r.metric (lower metric) at_metric,
        ground (arith, h, iso_lt-eq-earlier t r.available_at utc u),
        is_period→IsPeriod period r.period_end in_period,
      )

  visible_of :
      (r : FundamentalValue)
      → IsUtc r.available_at
      → IsAvailable r
      → is_visible lower i t metric period r ≡ true
  visible_of r u a =
      let same : text_eq r.metric (lower metric) ≡ true = rw (a.1) (text_eq_refl (lower metric)) in
      ground (
        arith,
        a.0,
        same,
        a.2,
        IsPeriod→is_period period r.period_end a.3,
        iso_lt-eq-earlier t r.available_at utc u,
      )

  hidden_row :
      (x : FundamentalValue)
      → IsUtc x.available_at
      → is_visible lower i t metric period x ≡ false
      → ¬ IsAvailable x
  hidden_row x u e = λ a. cc (e, visible_of x u a)

  rows_hidden :
      (rows : SqlFundamentalStore)
      → All IsStored rows
      → All (λ x. is_visible lower i t metric period x ≡ false) rows
      → All (λ x. ¬ IsAvailable x) rows
  rows_hidden [] s h = tt
  rows_hidden (x ∷ rows) s h = (hidden_row x s.0.0 h.0, rows_hidden rows s.1 h.1)

  none_newer :
      (r : FundamentalValue) (rows : SqlFundamentalStore)
      → IsUtc r.available_at
      → IsAvailable r
      → All IsStored rows
      → All
          (λ x. (is_visible lower i t metric period x ≡ false) ⊎ (is_newer period x r ≡ false))
          rows
      → All (λ x. (¬ IsAvailable x) ⊎ IsNoNewer x r) rows
  none_newer r [] v a s h = tt
  none_newer r (x ∷ rows) v a s h = (
    elim (Bool-cases (is_visible lower i t metric period x)) [
      | inr e ↦ inl (hidden_row x s.0.0 e)
      | inl e ↦ elim h.0 [
        | inl out ↦ absurd (cc (e, out))
        | inr old ↦
            let b = is_visible-IsAvailable x s.0.0 e in
            inr (is_newer-IsNoNewer period x r s.0.0 v b.3 a.3 old)
      ]
    ],
    none_newer r rows v a s.1 h.1,
  )

  stored :
      (r : FundamentalValue) (rows : SqlFundamentalStore)
      → All IsStored rows
      → Holds rows r
      → IsStored r
  stored r [] s ([], after, e) = absurd (cc e)
  stored r [] s (y ∷ before, after, e) = absurd (cc e)
  stored r (x ∷ rows) s ([], after, e) = subst IsStored (head_eq e) s.0
  stored r (x ∷ rows) s (y ∷ before, after, e) = stored r rows s.1 (before, after, tail_eq e)

  IsLatest-IsAnswer :
      (rows : SqlFundamentalStore) (r : Option FundamentalValue)
      → All IsStored rows
      → IsLatest (is_newer period) (is_visible lower i t metric period) rows r
      → IsAnswer rows r × (load_row r ≡ ok r)
  IsLatest-IsAnswer rows none s h = (rows_hidden rows s h, refl)
  IsLatest-IsAnswer rows (some r) s h =
      let kept = stored r rows s h.0 in
      let a = is_visible-IsAvailable r kept.0 h.1 in
      ((h.0, a, none_newer r rows kept.0 a s h.2), load_row-IsStored r kept)

  -- If the moment and those of the rows are in UTC and the rows pass their checks, then the value as
  -- of the moment is a row of the instrument, the metric and the period that was available by then,
  -- than which no other such row is of a later period, or of the same and available later; or there
  -- is no such row and no value. Statements that become available after the moment, in UTC, recorded
  -- in the meantime, change nothing of it.
  pub as_of-IsAnswer :
      (statements : List FundamentalValue) (rows : SqlFundamentalStore)
      → All IsStored rows
      → All (IsFuture t) statements
      → (r : Option FundamentalValue) × IsAnswer rows r
        × (as_of lower i t metric period rows ≡ ok r)
        × (as_of lower i t metric period (record_statements lower statements rows) ≡ ok r)
  unfolding as_of
  as_of-IsAnswer statements rows s f =
      let r = latest rows in
      let found =
        select_latest-IsLatest (is_newer period) (is_visible lower i t metric period) rows
          (is_newer-IsOrder period) in
      let (answer, loads) = IsLatest-IsAnswer rows r s found in
      (r, answer, loads, ap load_row (latest-record_statements statements rows f) ∙ loads)
