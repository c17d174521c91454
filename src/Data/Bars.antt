-- ===== src/Data/Bars.antt =====
-- The store of daily bars (quantlab/data/market_bars.py). A partition is its list of rows, under the
-- instrument, the code of the price semantic and the year; its file is written as a whole. A row is
-- a bar, whose moment is read back with UTC in place of its zone.
pub mod Reads
pub mod RoundTrip
use quantlab_v.Prelude.{
  ℕ, zero, suc, ◌+◌, ◌-◌, Bool, ◌&&◌, List, [], ◌∷◌, ◌++◌, map, ◌==◌, if◌then◌else◌, get_or, filter,
  any,
}
use quantlab_v.Prelude.Result.{Result, ok, ◌>>=◌}
use quantlab_v.Prelude.Sort.{sort_by}
use quantlab_v.Prelude.Table.{Table, find, put}
use quantlab_v.Prelude.Group.{group_by}
use quantlab_v.Time.{Date, replace_utc, same_date, date_lt, date_le}
use quantlab_v.Domain.Identity.{InstrumentId}
use quantlab_v.Domain.Market.{MarketBar, BarPriceSemantic, raw, total_return_adjusted, new_bar}
use quantlab_v.Data.Adjust.{by_session}

abbrev pub semantic_code : BarPriceSemantic → ℕ
semantic_code raw = 0
semantic_code total_return_adjusted = 1

-- instrument, semantic and year
abbrev pub PartitionKey : Type 0
PartitionKey = ℕ × ℕ × ℕ

abbrev pub same_key : PartitionKey → PartitionKey → Bool
same_key (i, s, y) (j, t, z) = i == j && s == t && y == z

abbrev pub Bars : Type 0
Bars = List MarketBar

abbrev pub MarketBarStore : Type 0
MarketBarStore = Table PartitionKey Bars

-- `_partition_key`
abbrev pub partition_key : InstrumentId → BarPriceSemantic → ℕ → PartitionKey
partition_key i semantic year = (i, semantic_code semantic, year)

abbrev pub key_of : MarketBar → PartitionKey
key_of b = partition_key b.instrument_id b.semantic b.session.year

-- one file for each partition, in place of the old one
unfoldable pub write_partitions : Table PartitionKey Bars → MarketBarStore → MarketBarStore
write_partitions [] s = s
write_partitions ((key, rows) ∷ partitions) s =
    write_partitions partitions (put same_key key rows s)

-- `write_daily_bars`
unfoldable pub write_daily_bars : Bars → MarketBarStore → MarketBarStore
unfolding write_partitions group_by
write_daily_bars bars s = write_partitions (group_by same_key key_of bars []) s

-- the dates of the rows, each once
unfoldable pub distinct_dates : List Date → List Date
distinct_dates [] = []
distinct_dates (d ∷ ds) =
    let rest = distinct_dates ds in if any (same_date d) rest then rest else d ∷ rest

-- the files that begin with the instrument and the semantic
unfoldable pub sessions_held : InstrumentId → BarPriceSemantic → MarketBarStore → List Date
sessions_held i semantic [] = []
sessions_held i semantic (((j, t, y), rows) ∷ s) =
    let rest = sessions_held i semantic s in
    if j == i && t == semantic_code semantic
    then map (λ (b : MarketBar). b.session) rows ++ rest
    else rest

-- `list_sessions`
unfoldable pub list_sessions : InstrumentId → BarPriceSemantic → MarketBarStore → List Date
unfolding distinct_dates sessions_held
list_sessions i semantic s = sort_by date_lt (distinct_dates (sessions_held i semantic s))

abbrev pub is_requested : InstrumentId → Date → Date → MarketBar → Bool
is_requested i start end b =
    date_le start b.session && date_le b.session end && b.instrument_id == i

-- the rows of the years from one year on
unfoldable pub read_years :
    InstrumentId → BarPriceSemantic → Date → Date → ℕ → ℕ → MarketBarStore → Bars
read_years i semantic start end year zero s = []
read_years i semantic start end year (suc n) s =
    filter (is_requested i start end) (get_or (find same_key (partition_key i semantic year) s) [])
    ++ read_years i semantic start end (year + 1) n s

unfoldable pub load_bars : Bars → Result Bars
load_bars [] = ok []
load_bars (r ∷ rs) = do
  b ← new_bar (record r { observed_at = replace_utc r.observed_at })
  rest ← load_bars rs
  ok (b ∷ rest)

-- `get_bars`
unfoldable pub get_bars :
    InstrumentId → Date → Date → BarPriceSemantic → MarketBarStore → Result Bars
unfolding read_years load_bars
get_bars i start end semantic s =
    load_bars (
      sort_by by_session (read_years i semantic start end start.year (end.year + 1 - start.year) s))
