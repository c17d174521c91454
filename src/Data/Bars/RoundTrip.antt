-- ===== src/Data/Bars/RoundTrip.antt =====
-- What was written to an empty store is read back, whatever the partitions.
use quantlab_v.Prelude.{
  ℕ, zero, suc, ◌+◌, ◌-◌, ◌≡◌, refl, sym, ◌∙◌, fun_ext, inl, inr, Bool, true, false, ◌&&◌, none,
  some, [], ◌∷◌, ◌++◌, arith, ltb, leb, ◌==◌, ==_refl, Bool-cases, Option-cases, get_or, length,
  filter, All, All-append,
}
use quantlab_v.Prelude.Result.{ok}
use quantlab_v.Prelude.Sort.{sort_by, IsSorted, sort_by-IsSorted, sort_by-All}
use quantlab_v.Prelude.Distinct.{length-filter-sort_by}
use quantlab_v.Prelude.Table.{Table, find, put, find-put_self, find-put_ne}
use quantlab_v.Prelude.Group.{group_by, has_key, group_at-group_by, IsTable, group_by-IsTable}
use quantlab_v.Time.{Date, IsUtc}
use quantlab_v.Time.Iso.{replace_utc-IsUtc}
use quantlab_v.Domain.Identity.{InstrumentId}
use quantlab_v.Domain.Market.{MarketBar, BarPriceSemantic, new_bar}
use quantlab_v.Data.Adjust.{by_session}
use quantlab_v.Data.Adjust.Reference.{by_session-IsOrder}
use quantlab_v.Data.Bars.{
  Bars, MarketBarStore, PartitionKey, same_key, partition_key, key_of, semantic_code,
  write_partitions, write_daily_bars, is_requested, read_years, load_bars, get_bars,
}

same_key_refl : (k : PartitionKey) → same_key k k ≡ true
same_key_refl (i, s, y) = rw (==_refl i, ==_refl s, ==_refl y)

same_key→eq : (k j : PartitionKey) → same_key k j ≡ true → k ≡ j
same_key→eq (i, s, y) (j, t, z) h = ground arith

-- Each key is written once.
find-write_partitions :
    (k : PartitionKey) (groups : Table PartitionKey Bars) (s : MarketBarStore)
    → IsTable same_key key_of same_key_refl same_key→eq groups
    → find same_key k (write_partitions groups s)
      ≡ (elim (find same_key k groups) [ some v ↦ some v | none ↦ find same_key k s ])
unfolding write_partitions find
find-write_partitions k [] s h = refl
find-write_partitions k ((j, rows) ∷ groups) s h =
    let rest = find-write_partitions k groups (put same_key j rows s) h.1 in
    elim (Bool-cases (same_key j k)) [
      | inl e ↦
          let here : j ≡ k = same_key→eq j k e in
          let absent : find same_key k groups ≡ none = rw (sym here) (h.0) in
          rw e (
            rest
            ∙ rw (absent, sym here) (find-put_self same_key same_key_refl same_key→eq j rows s))
      | inr e ↦ elim (Option-cases (find same_key k groups)) [
        | inr (v, q) ↦ rw (e, q) (rest ∙ rw q)
        | inl q ↦
            rw (e, q) (rest ∙ rw q (find-put_ne same_key same_key_refl same_key→eq j k rows s e))
      ]
    ]

-- A partition of the store holds the bars of its key.
partition_of :
    (k : PartitionKey) (bars : Bars)
    → get_or (find same_key k (write_daily_bars bars [])) []
      ≡ filter (has_key same_key key_of k) bars
unfolding write_daily_bars find
partition_of k bars =
    let groups = group_by same_key key_of bars [] in
    let written =
      find-write_partitions k groups []
        (group_by-IsTable same_key key_of same_key_refl same_key→eq bars [] tt) in
    let grouped = group_at-group_by same_key key_of same_key_refl same_key→eq k bars [] in
    elim (Option-cases (find same_key k groups)) [
      | inl e ↦ rw (written, e) (rw e at grouped)
      | inr (v, e) ↦ rw (written, e) (rw e at grouped)
    ]

abbrev pub count : (MarketBar → Bool) → Bars → ℕ
count p bars = length (filter p bars)

-- A bar that is asked for.
abbrev pub is_wanted : InstrumentId → BarPriceSemantic → Date → Date → MarketBar → Bool
is_wanted i semantic start end b =
    is_requested i start end b && semantic_code b.semantic == semantic_code semantic

-- The bars that are asked for, of the years from one year on.
abbrev in_years : ℕ → ℕ → MarketBar → Bool
in_years y n b = leb y b.session.year && ltb b.session.year (y + n)

count-append : (p : MarketBar → Bool) (xs ys : Bars) → count p (xs ++ ys) ≡ count p xs + count p ys
count-append p [] ys = omega arith
count-append p (x ∷ xs) ys = ground (arith, count-append p xs ys)

count-partition :
    (p : MarketBar → Bool) (i : InstrumentId) (semantic : BarPriceSemantic) (start end : Date)
    (y n : ℕ) (bars : Bars)
    → count p (
          filter
            (is_requested i start end)
            (filter (has_key same_key key_of (partition_key i semantic y)) bars))
        + count (λ b. p b && is_wanted i semantic start end b && in_years (y + 1) n b) bars
      ≡ count (λ b. p b && is_wanted i semantic start end b && in_years y (suc n) b) bars
count-partition p i semantic start end y n [] = refl
count-partition p i semantic start end y n (b ∷ bars) =
    let ih = count-partition p i semantic start end y n bars in
    elim (Bool-cases (p b)) [ inr e ↦ ground (arith, ih, e) | inl e ↦ ground (arith, ih, e) ]

count-none :
    (p : MarketBar → Bool) (bars : Bars) → ((b : MarketBar) → p b ≡ false) → count p bars ≡ 0
count-none p [] h = refl
count-none p (b ∷ bars) h = rw (h b) (count-none p bars h)

count-eq :
    (p q : MarketBar → Bool) (bars : Bars)
    → ((b : MarketBar) → p b ≡ q b)
    → count p bars ≡ count q bars
count-eq p q bars h = rw (fun_ext h)

count-read_years :
    (p : MarketBar → Bool) (i : InstrumentId) (semantic : BarPriceSemantic) (start end : Date)
    (y n : ℕ) (bars : Bars)
    → count p (read_years i semantic start end y n (write_daily_bars bars []))
      ≡ count (λ b. p b && is_wanted i semantic start end b && in_years y n b) bars
unfolding read_years
count-read_years p i semantic start end y zero bars = sym (count-none _ bars (λ b. no_year b))
  where
    no_year : (b : MarketBar) → (p b && is_wanted i semantic start end b && in_years y 0 b) ≡ false
    no_year b = ground arith
count-read_years p i semantic start end y (suc n) bars =
    count-append p _ (read_years i semantic start end (y + 1) n (write_daily_bars bars []))
    ∙ rw
        (
          partition_of (partition_key i semantic y) bars,
          count-read_years p i semantic start end (y + 1) n bars,
        )
        (count-partition p i semantic start end y n bars)

-- A session in the range is of a year of the range.
every_year :
    (i : InstrumentId) (semantic : BarPriceSemantic) (start end : Date) (x : Bool) (b : MarketBar)
    → (x && is_wanted i semantic start end b && in_years start.year (end.year + 1 - start.year) b)
      ≡ (x && is_wanted i semantic start end b)
every_year i semantic start end x b = ground arith

-- A bar that passes its checks, observed at a moment in UTC.
abbrev pub IsValidBar : MarketBar → Type 0
IsValidBar b = IsUtc b.observed_at × (new_bar b ≡ ok b)

load_bars-valid : (rows : Bars) → All IsValidBar rows → load_bars rows ≡ ok rows
unfolding load_bars
load_bars-valid [] h = refl
load_bars-valid (b ∷ rows) h =
    rw (replace_utc-IsUtc b.observed_at h.0.0, h.0.1, load_bars-valid rows h.1)

filter-keeps :
    (p : MarketBar → Bool) (bars : Bars) → All IsValidBar bars → All IsValidBar (filter p bars)
filter-keeps p [] h = tt
filter-keeps p (b ∷ bars) h = elim (Bool-cases (p b)) [
  | inl e ↦ rw e (h.0, filter-keeps p bars h.1)
  | inr e ↦ rw e (filter-keeps p bars h.1)
]

read_years-valid :
    (i : InstrumentId) (semantic : BarPriceSemantic) (start end : Date) (y n : ℕ) (bars : Bars)
    → All IsValidBar bars
    → All IsValidBar (read_years i semantic start end y n (write_daily_bars bars []))
unfolding read_years
read_years-valid i semantic start end y zero bars h = tt
read_years-valid i semantic start end y (suc n) bars h =
    All-append IsValidBar _ _
      (filter-keeps (is_requested i start end) _ (
        rw (partition_of (partition_key i semantic y) bars)
          (filter-keeps (has_key same_key key_of (partition_key i semantic y)) bars h)))
      (read_years-valid i semantic start end (y + 1) n bars h)

-- Valid bars that were observed at moments in UTC, written to an empty store in any order, are read
-- back by session: the bars of the instrument and the semantic in the range, each as often as it was
-- written.
pub get_bars-write_daily_bars :
    (i : InstrumentId) (start end : Date) (semantic : BarPriceSemantic) (bars : Bars)
    → All IsValidBar bars
    → (out : Bars) × (get_bars i start end semantic (write_daily_bars bars []) ≡ ok out)
      × IsSorted by_session out
      × ((p : MarketBar → Bool)
          → count p out ≡ count (λ b. p b && is_wanted i semantic start end b) bars)
unfolding get_bars
get_bars-write_daily_bars i start end semantic bars h =
    let n = end.year + 1 - start.year in
    let rows = read_years i semantic start end start.year n (write_daily_bars bars []) in
    (
      sort_by by_session rows,
      load_bars-valid (sort_by by_session rows) (
          sort_by-All by_session IsValidBar rows
            (read_years-valid i semantic start end start.year n bars h)),
      sort_by-IsSorted by_session by_session-IsOrder rows,
      λ p.
          length-filter-sort_by by_session p rows
          ∙ count-read_years p i semantic start end start.year n bars
          ∙ count-eq _ _ bars (λ b. every_year i semantic start end (p b) b),
    )
