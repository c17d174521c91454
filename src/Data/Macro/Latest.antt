-- ===== src/Data/Macro/Latest.antt =====
-- The vintage as of a moment is the latest that was released, whatever is recorded later: both by
-- the texts of the moments.
use quantlab_v.Prelude.{
  ◌≡◌, refl, ap, ◌∙◌, true, false, Option, none, some, List, [], ◌∷◌, ◌++◌, arith, All, Text,
}
use quantlab_v.Prelude.Sort.{IsOrder}
use quantlab_v.Time.{Date, DateTime, iso_lt}
use quantlab_v.Data.Query.{
  select_latest, IsLatest, select_latest-IsLatest, select_latest-append_other,
}
use quantlab_v.Data.Macro.{
  MacroVintage, SqlMacroStore, is_newer, is_visible, load_row, record_vintages, as_of,
}

is_newer-IsOrder : (p : Option Date) → IsOrder (is_newer p)
is_newer-IsOrder (some p) = record {
  asym = λ x y h. ground arith;
  trans = λ x y z h k. ground arith;
}
is_newer-IsOrder none = record { asym = λ x y h. ground arith; trans = λ x y z h k. ground arith }

abbrev pub IsFuture : DateTime → MacroVintage → Type 0
IsFuture t v = iso_lt t v.release_time ≡ true

module _ (upper : Text → Text) (series : Text) (t : DateTime) (period : Option Date) where
  abbrev latest : SqlMacroStore → Option MacroVintage
  latest rows = select_latest (is_newer period) (is_visible upper series t period) rows

  hidden : (v : MacroVintage) → IsFuture t v → is_visible upper series t period v ≡ false
  hidden v f = ground arith

  latest-record_vintages :
      (vintages : List MacroVintage) (rows : SqlMacroStore)
      → All (IsFuture t) vintages
      → latest (record_vintages upper vintages rows) ≡ latest rows
  unfolding record_vintages
  latest-record_vintages [] rows f = refl
  latest-record_vintages (v ∷ vintages) rows f =
      let row : MacroVintage = record v { series_id = upper v.series_id } in
      latest-record_vintages vintages (rows ++ row ∷ []) f.1
      ∙ select_latest-append_other (is_newer period) (is_visible upper series t period) rows row
          (hidden row f.0)

  -- The vintage as of a moment is read from a row that the query selects, than which no other such
  -- row comes first in its order, or there is no such row and no vintage; and vintages with a later
  -- text than the moment's, recorded in the meantime, change nothing of it.
  pub vintage-IsLatest :
      (vintages : List MacroVintage) (rows : SqlMacroStore)
      → All (IsFuture t) vintages
      → (r : Option MacroVintage) × IsLatest
          (is_newer period)
          (is_visible upper series t period)
          rows
          r
        × (as_of upper series t period rows ≡ load_row r)
        × (as_of upper series t period (record_vintages upper vintages rows) ≡ load_row r)
  unfolding as_of
  vintage-IsLatest vintages rows f = (
    latest rows,
    select_latest-IsLatest (is_newer period) (is_visible upper series t period) rows
        (is_newer-IsOrder period),
    refl,
    ap load_row (latest-record_vintages vintages rows f),
  )
