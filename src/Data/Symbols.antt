-- ===== src/Data/Symbols.antt =====
-- The histories of symbols (quantlab/data/instruments.py). The method `str.upper` is a parameter.
pub mod Unambiguous
use quantlab_v.Prelude.{Bool, true, ◌&&◌, Option, none, some, List, [], ◌∷◌, filter, Text}
use quantlab_v.Prelude.Result.{
  Result, ok, err, ◌>>=◌, ◌>>◌, raise_if, overlapping_symbols, ambiguous_symbol,
}
use quantlab_v.Prelude.Sort.{sort_by}
use quantlab_v.Prelude.Table.{Table, pair_eq}
use quantlab_v.Prelude.Group.{group_by}
use quantlab_v.Time.{Date, date_lt, date_le}
use quantlab_v.Domain.Identity.{InstrumentId, SymbolHistory}

abbrev pub Histories : Type 0
Histories = List SymbolHistory

abbrev pub by_valid_from : SymbolHistory → SymbolHistory → Bool
by_valid_from g h = date_lt g.valid_from h.valid_from

-- `h.valid_from <= as_of and (h.valid_to is None or as_of <= h.valid_to)`
abbrev pub until : Option Date → Date → Bool
until none d = true
until (some t) d = date_le d t

abbrev pub is_valid_at : Date → SymbolHistory → Bool
is_valid_at d h = date_le h.valid_from d && until h.valid_to d

-- one history and the next
abbrev pub check_pair : Option Date → SymbolHistory → Result (Unit {0})
check_pair none next = err overlapping_symbols
check_pair (some valid_to) next = raise_if (date_le next.valid_from valid_to) overlapping_symbols

-- the loop over the sorted histories of one symbol
unfoldable pub check_sorted : Histories → Result (Unit {0})
check_sorted [] = ok tt
check_sorted (h ∷ []) = ok tt
check_sorted (h ∷ next ∷ hs) = check_pair h.valid_to next >> check_sorted (next ∷ hs)

-- the loop over the groups
unfoldable pub check_groups : Table (Text × Text) Histories → Result (Unit {0})
unfolding check_sorted
check_groups [] = ok tt
check_groups ((key, hs) ∷ groups) = check_sorted (sort_by by_valid_from hs) >> check_groups groups

-- one match at most
abbrev pub only_match : Histories → Result (Option InstrumentId)
only_match [] = ok none
only_match (h ∷ []) = ok (some h.instrument_id)
only_match (h ∷ g ∷ hs) = err ambiguous_symbol

module _ (upper : Text → Text) where
  abbrev pub key_of : SymbolHistory → Text × Text
  key_of h = (upper h.symbol, upper h.exchange)

  -- `validate_non_overlapping_history`
  unfoldable pub validate_non_overlapping_history : Histories → Result (Unit {0})
  unfolding group_by check_groups
  validate_non_overlapping_history histories = check_groups (group_by pair_eq key_of histories [])

  abbrev pub is_match : Text × Text → Date → SymbolHistory → Bool
  is_match key d h = pair_eq (key_of h) key && is_valid_at d h

  -- `resolve_symbol_in_memory`
  unfoldable pub resolve_symbol_in_memory :
      Histories → Text → Text → Date → Result (Option InstrumentId)
  resolve_symbol_in_memory histories symbol exchange as_of =
      only_match (filter (is_match (upper symbol, upper exchange) as_of) histories)
