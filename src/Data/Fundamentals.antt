-- ===== src/Data/Fundamentals.antt =====
-- The store of fundamentals (quantlab/data/fundamentals.py), with the unique index of
-- migrations/versions/0005_ingest_idempotency.py. The table is its list of rows in the order of
-- their identifiers; a row is a statement, whose moment is stored as the text `isoformat` makes, by
-- which the queries compare, and is read back with UTC in place of its zone. The instrument of a
-- statement is on record. The method `str.lower` is a parameter.
pub mod Latest
mod Order
use quantlab_v.Prelude.{
  Bool, true, not, ◌&&◌, ◌||◌, Option, none, some, List, [], ◌∷◌, ◌++◌, ◌==◌, if◌then◌else◌, filter,
  any, Text, text_eq,
}
use quantlab_v.Prelude.Result.{Result, ok, ◌>>=◌, ◌>>◌}
use quantlab_v.Prelude.Sort.{sort_by}
use quantlab_v.Time.{Date, DateTime, replace_utc, same_date, date_lt, iso_lt, iso_eq}
use quantlab_v.Decimal.{Decimal}
use quantlab_v.Domain.Identity.{InstrumentId, require_nonempty, require_timezone_aware}
use quantlab_v.Data.Actions.{same_int}
use quantlab_v.Data.Query.{select_latest}

pub record FundamentalValue : Type 0 where
  pub instrument_id : InstrumentId
  pub period_end : Date
  pub filing_date : Date
  pub available_at : DateTime
  pub metric : Text
  pub value : Decimal
  pub is_restatement : Bool
  pub source : Text

-- `FundamentalValue.__post_init__`
unfoldable pub new_fundamental : FundamentalValue → Result FundamentalValue
new_fundamental v = do
  require_timezone_aware v.available_at
  require_nonempty v.metric
  require_nonempty v.source
  ok v

-- `SqlFundamentalStore`: its table
abbrev pub SqlFundamentalStore : Type 0
SqlFundamentalStore = List FundamentalValue

-- the unique index `uq_fundamentals_natural_key`
unfoldable pub same_natural_key : FundamentalValue → FundamentalValue → Bool
same_natural_key a b =
    a.instrument_id == b.instrument_id
    && same_date a.period_end b.period_end
    && same_date a.filing_date b.filing_date
    && iso_eq a.available_at b.available_at
    && text_eq a.metric b.metric
    && same_int a.value.coef b.value.coef
    && a.value.scale == b.value.scale

-- `INSERT OR IGNORE`
unfoldable pub insert_or_ignore : FundamentalValue → SqlFundamentalStore → SqlFundamentalStore
unfolding same_natural_key
insert_or_ignore v rows = if any (same_natural_key v) rows then rows else rows ++ v ∷ []

abbrev pub load_value : FundamentalValue → Result FundamentalValue
load_value r = new_fundamental (record r { available_at = replace_utc r.available_at })

abbrev pub load_row : Option FundamentalValue → Result (Option FundamentalValue)
load_row none = ok none
load_row (some r) = do v ← load_value r; ok (some v)

unfoldable pub load_rows : List FundamentalValue → Result (List FundamentalValue)
load_rows [] = ok []
load_rows (r ∷ rs) = do v ← load_value r; rest ← load_rows rs; ok (v ∷ rest)

abbrev pub is_period : Option Date → Date → Bool
is_period none d = true
is_period (some p) d = same_date d p

-- `ORDER BY available_at`, and with no period given `ORDER BY period_end, available_at`
abbrev pub is_later : FundamentalValue → FundamentalValue → Bool
is_later a b = iso_lt b.available_at a.available_at

abbrev pub is_newer : Option Date → FundamentalValue → FundamentalValue → Bool
is_newer (some p) a b = is_later a b
is_newer none a b =
    date_lt b.period_end a.period_end || not (date_lt a.period_end b.period_end) && is_later a b

abbrev pub by_available : FundamentalValue → FundamentalValue → Bool
by_available a b = iso_lt a.available_at b.available_at

module _ (lower : Text → Text) where
  -- `record_statements`
  unfoldable pub record_statements :
      List FundamentalValue → SqlFundamentalStore → SqlFundamentalStore
  unfolding insert_or_ignore
  record_statements [] rows = rows
  record_statements (s ∷ statements) rows =
      record_statements statements (insert_or_ignore (record s { metric = lower s.metric }) rows)

  -- `record_statement`
  abbrev pub record_statement : FundamentalValue → SqlFundamentalStore → SqlFundamentalStore
  record_statement s rows = record_statements (s ∷ []) rows

  -- the `WHERE` clause of `as_of`
  abbrev pub is_visible : InstrumentId → DateTime → Text → Option Date → FundamentalValue → Bool
  is_visible i t metric period r =
      r.instrument_id == i
      && text_eq r.metric (lower metric)
      && not (iso_lt t r.available_at)
      && is_period period r.period_end

  -- `as_of`
  unfoldable pub as_of :
      InstrumentId
      → DateTime
      → Text
      → Option Date
      → SqlFundamentalStore
      → Result (Option FundamentalValue)
  unfolding select_latest
  as_of i t metric period rows =
      load_row (select_latest (is_newer period) (is_visible i t metric period) rows)

  abbrev pub is_revision : InstrumentId → Date → Text → FundamentalValue → Bool
  is_revision i period metric r =
      r.instrument_id == i && same_date r.period_end period && text_eq r.metric (lower metric)

  -- `restatement_history`
  unfoldable pub restatement_history :
      InstrumentId → Date → Text → SqlFundamentalStore → Result (List FundamentalValue)
  unfolding load_rows
  restatement_history i period metric rows =
      load_rows (sort_by by_available (filter (is_revision i period metric) rows))
