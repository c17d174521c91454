-- ===== src/Validation/Partitions.antt =====
-- Time partitions (quantlab/validation/partitions.py).
pub mod Disjoint
use quantlab_v.Prelude.{
  Bool, true, false, ◌&&◌, ◌||◌, Option, none, some, List, [], ◌∷◌, if◌then◌else◌, filter, Text,
  text_eq,
}
use quantlab_v.Prelude.Int.{ℤ, pos, ltb_ℤ}
use quantlab_v.Prelude.Result.{
  Result, ok, ◌>>◌, raise_if, partition_reversed, negative_days, partition_overlap,
}
use quantlab_v.Prelude.Sort.{sort_by}
use quantlab_v.Time.{Date, date_lt, date_le}

pub data PartitionType : Type 0 where
  train validation test : PartitionType

abbrev pub type_eq : PartitionType → PartitionType → Bool
type_eq train train = true
type_eq validation validation = true
type_eq test test = true
type_eq _ _ = false

pub record TimePartition : Type 0 where
  pub partition_id : Text
  pub partition_type : PartitionType
  pub start_date : Date
  pub end_date : Date
  pub purge_days : ℤ
  pub embargo_days : ℤ

-- `TimePartition.__post_init__`
unfoldable pub new_partition : TimePartition → Result TimePartition
new_partition p = do
  raise_if (date_lt p.end_date p.start_date) partition_reversed
  raise_if (ltb_ℤ p.purge_days (pos 0) || ltb_ℤ p.embargo_days (pos 0)) negative_days
  ok p

-- `TimePartition.contains`
unfoldable pub covers : TimePartition → Date → Bool
covers p d = date_le p.start_date d && date_le d p.end_date

abbrev pub starts_before : TimePartition → TimePartition → Bool
starts_before p q = date_lt p.start_date q.start_date

-- the loop over neighbours of `PartitionScheme.__post_init__`
unfoldable pub no_overlap : List TimePartition → Result (Unit {0})
no_overlap [] = ok tt
no_overlap (cur ∷ []) = ok tt
no_overlap (cur ∷ nxt ∷ rest) =
    raise_if (date_le nxt.start_date cur.end_date) partition_overlap >> no_overlap (nxt ∷ rest)

-- `PartitionScheme.__post_init__`
unfoldable pub new_scheme : List TimePartition → Result (List TimePartition)
new_scheme partitions = do no_overlap (sort_by starts_before partitions); ok partitions

-- `PartitionScheme.get_partition`
unfoldable pub get_partition : Text → List TimePartition → Option TimePartition
get_partition id [] = none
get_partition id (p ∷ ps) = if text_eq p.partition_id id then some p else get_partition id ps

-- `PartitionScheme.get_by_type`
unfoldable pub get_by_type : PartitionType → List TimePartition → List TimePartition
get_by_type t ps = filter (λ (p : TimePartition). type_eq p.partition_type t) ps
