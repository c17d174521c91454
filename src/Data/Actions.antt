-- ===== src/Data/Actions.antt =====
-- The store of corporate actions (SqlCorporateActionStore of quantlab/data/corporate_actions.py).
-- The table is its list of rows in the order of their identifiers; a row is an action, whose
-- moments are read back with UTC in place of their zone. Rows with one effective date are selected
-- in the order of identifiers.
pub mod Refinement
use quantlab_v.Prelude.{
  ℕ, Bool, true, false, ◌&&◌, Option, none, some, List, [], ◌∷◌, ◌++◌, ◌==◌, if◌then◌else◌, filter,
  any,
}
use quantlab_v.Prelude.Int.{ℤ, pos, negsuc}
use quantlab_v.Prelude.Result.{Result, ok, err, ◌>>=◌}
use quantlab_v.Prelude.Dict.{Dict, lookup, insert, erase}
use quantlab_v.Prelude.Sort.{sort_by}
use quantlab_v.Time.{Date, replace_utc, same_date, date_lt, date_le}
use quantlab_v.Decimal.{Decimal}
use quantlab_v.Domain.Identity.{InstrumentId}
use quantlab_v.Domain.Market.{
  CorporateActionType, split, dividend, symbol_change, merger, spinoff, delisting, CorporateAction,
  new_action,
}

abbrev pub Actions : Type 0
Actions = List CorporateAction

pub record SqlCorporateActionStore : Type 0 where
  pub rows : Actions
  pub history_cache : Dict Actions

-- the place of the type among the types
abbrev pub type_code : CorporateActionType → ℕ
type_code split = 0
type_code dividend = 1
type_code symbol_change = 2
type_code merger = 3
type_code spinoff = 4
type_code delisting = 5

-- equal texts of two decimals: the same digits and places
abbrev pub same_int : ℤ → ℤ → Bool
same_int (pos a) (pos b) = a == b
same_int (negsuc a) (negsuc b) = a == b
same_int _ _ = false

abbrev pub same_text : Option Decimal → Option Decimal → Bool
same_text none none = true
same_text (some a) (some b) = same_int a.coef b.coef && a.scale == b.scale
same_text _ _ = false

-- the unique index `uq_actions_natural_key`
unfoldable pub same_natural_key : CorporateAction → CorporateAction → Bool
same_natural_key a b =
    a.instrument_id == b.instrument_id
    && type_code a.action_type == type_code b.action_type
    && same_date a.effective_at b.effective_at
    && same_text a.ratio b.ratio
    && same_text a.cash_amount b.cash_amount

-- `INSERT OR IGNORE`
unfoldable pub insert_or_ignore : CorporateAction → Actions → Actions
unfolding same_natural_key
insert_or_ignore a rows = if any (same_natural_key a) rows then rows else rows ++ a ∷ []

-- `record_action`
unfoldable pub record_action : CorporateAction → SqlCorporateActionStore → SqlCorporateActionStore
unfolding insert_or_ignore
record_action a s = record {
  rows = insert_or_ignore a s.rows;
  history_cache = erase a.instrument_id s.history_cache;
}

unfoldable pub load_actions : Actions → Result Actions
load_actions [] = ok []
load_actions (r ∷ rs) = do
  a ← new_action (record r {
    announced_at = replace_utc r.announced_at;
    available_at = replace_utc r.available_at;
  })
  rest ← load_actions rs
  ok (a ∷ rest)

abbrev pub of_instrument : InstrumentId → CorporateAction → Bool
of_instrument i a = a.instrument_id == i

abbrev pub by_effective : CorporateAction → CorporateAction → Bool
by_effective a b = date_lt a.effective_at b.effective_at

-- `SELECT * ... WHERE instrument_id = ? ORDER BY effective_at ASC`, and the actions of the rows
unfoldable pub query_history : InstrumentId → Actions → Result Actions
unfolding load_actions
query_history i rows = load_actions (sort_by by_effective (filter (of_instrument i) rows))

abbrev pub cache_history :
    InstrumentId
    → Result Actions
    → SqlCorporateActionStore
    → Result Actions × SqlCorporateActionStore
cache_history i (err e) s = (err e, s)
cache_history i (ok history) s =
    (ok history, record s { history_cache = insert i history s.history_cache })

-- `_full_history`
unfoldable pub full_history :
    InstrumentId → SqlCorporateActionStore → Result Actions × SqlCorporateActionStore
unfolding query_history
full_history i s = elim (lookup i s.history_cache) [
  | some cached ↦ (ok cached, s)
  | none ↦ cache_history i (query_history i s.rows) s
]

-- the slice between two dates, either of which may be missing
abbrev pub is_between : Option Date → Option Date → Date → Bool
is_between none none d = true
is_between (some a) none d = date_le a d
is_between none (some b) d = date_le d b
is_between (some a) (some b) d = date_le a d && date_le d b

unfoldable pub slice_history : Option Date → Option Date → Actions → Actions
slice_history none none history = history
slice_history start end history =
    filter (λ (a : CorporateAction). is_between start end a.effective_at) history

-- `get_actions`
unfoldable pub get_actions :
    InstrumentId
    → Option Date
    → Option Date
    → SqlCorporateActionStore
    → Result Actions × SqlCorporateActionStore
unfolding full_history slice_history
get_actions i start end s =
    let (history, s') = full_history i s in (history >>= λ h. ok (slice_history start end h), s')
