-- ===== src/Data/Macro.antt =====
-- The store of vintages of macroeconomic series (quantlab/data/macro.py). The table is its list of
-- rows in the order of their identifiers; a row is a vintage, whose moment is stored as the text
-- `isoformat` makes, by which the queries compare, and is read back with UTC in place of its zone.
-- The method `str.upper` is a parameter.
pub mod Latest
use quantlab_v.Prelude.{
  Bool, true, not, ◌&&◌, ◌||◌, Option, none, some, List, [], ◌∷◌, ◌++◌, filter, Text, text_eq,
}
use quantlab_v.Prelude.Result.{Result, ok, ◌>>=◌, ◌>>◌}
use quantlab_v.Prelude.Sort.{sort_by}
use quantlab_v.Time.{Date, DateTime, replace_utc, same_date, date_lt, iso_lt}
use quantlab_v.Decimal.{Decimal}
use quantlab_v.Domain.Identity.{require_nonempty, require_timezone_aware}
use quantlab_v.Data.Query.{select_latest}

pub record MacroVintage : Type 0 where
  pub series_id : Text
  pub period_date : Date
  pub release_time : DateTime
  pub value : Decimal
  pub source : Text

-- `MacroVintage.__post_init__`
unfoldable pub new_vintage : MacroVintage → Result MacroVintage
new_vintage v = do
  require_nonempty v.series_id
  require_timezone_aware v.release_time
  require_nonempty v.source
  ok v

-- `SqlMacroStore`: its table
abbrev pub SqlMacroStore : Type 0
SqlMacroStore = List MacroVintage

abbrev pub load_vintage : MacroVintage → Result MacroVintage
load_vintage r = new_vintage (record r { release_time = replace_utc r.release_time })

abbrev pub load_row : Option MacroVintage → Result (Option MacroVintage)
load_row none = ok none
load_row (some r) = do v ← load_vintage r; ok (some v)

unfoldable pub load_rows : List MacroVintage → Result (List MacroVintage)
load_rows [] = ok []
load_rows (r ∷ rs) = do v ← load_vintage r; rest ← load_rows rs; ok (v ∷ rest)

abbrev pub is_period : Option Date → Date → Bool
is_period none d = true
is_period (some p) d = same_date d p

-- `ORDER BY release_time`, and with no period given `ORDER BY period_date, release_time`
abbrev pub is_later : MacroVintage → MacroVintage → Bool
is_later a b = iso_lt b.release_time a.release_time

abbrev pub is_newer : Option Date → MacroVintage → MacroVintage → Bool
is_newer (some p) a b = is_later a b
is_newer none a b =
    date_lt b.period_date a.period_date || not (date_lt a.period_date b.period_date) && is_later a b

abbrev pub by_release : MacroVintage → MacroVintage → Bool
by_release a b = iso_lt a.release_time b.release_time

module _ (upper : Text → Text) where
  -- `record_vintages`: a plain `INSERT`
  unfoldable pub record_vintages : List MacroVintage → SqlMacroStore → SqlMacroStore
  record_vintages [] rows = rows
  record_vintages (v ∷ vintages) rows =
      record_vintages vintages (rows ++ record v { series_id = upper v.series_id } ∷ [])

  -- `record_vintage`
  abbrev pub record_vintage : MacroVintage → SqlMacroStore → SqlMacroStore
  record_vintage v rows = record_vintages (v ∷ []) rows

  -- the `WHERE` clause of `as_of`
  abbrev pub is_visible : Text → DateTime → Option Date → MacroVintage → Bool
  is_visible series t period r =
      text_eq r.series_id (upper series)
      && not (iso_lt t r.release_time)
      && is_period period r.period_date

  -- `as_of`
  unfoldable pub as_of :
      Text → DateTime → Option Date → SqlMacroStore → Result (Option MacroVintage)
  unfolding select_latest
  as_of series t period rows =
      load_row (select_latest (is_newer period) (is_visible series t period) rows)

  abbrev pub is_vintage : Text → Date → MacroVintage → Bool
  is_vintage series period r = text_eq r.series_id (upper series) && same_date r.period_date period

  -- `vintages_for_period`
  unfoldable pub vintages_for_period : Text → Date → SqlMacroStore → Result (List MacroVintage)
  unfolding load_rows
  vintages_for_period series period rows =
      load_rows (sort_by by_release (filter (is_vintage series period) rows))
