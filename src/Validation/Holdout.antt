-- ===== src/Validation/Holdout.antt =====
-- The lockbox (quantlab/validation/holdout.py). The wall clock and the fresh identifier are
-- arguments.
pub mod OneWay
use quantlab_v.Prelude.{Bool, none, some, List, [], ◌∷◌, if◌then◌else◌, is_some, Text, text_eq}
use quantlab_v.Prelude.Table.{Table, find, put, pair_eq}
use quantlab_v.Time.{DateTime}

pub record HoldoutAccess : Type 0 where
  pub access_id : Text
  pub candidate_id : Text
  pub partition_id : Text
  pub actor : Text
  pub purpose : Text
  pub accessed_at : DateTime

-- `HoldoutService`: its dict of consumed holdouts
abbrev pub HoldoutService : Type 0
HoldoutService = Table (Text × Text) HoldoutAccess

-- `HoldoutService.__init__`
abbrev pub new_service : HoldoutService
new_service = []

unfoldable pub is_consumed : Text → Text → HoldoutService → Bool
is_consumed candidate_id partition_id s = is_some (find pair_eq (candidate_id, partition_id) s)

abbrev pub access_of : Text → Text → Text → Text → Text → DateTime → HoldoutAccess
access_of access_id candidate_id partition_id actor purpose now = record {
  access_id = access_id;
  candidate_id = candidate_id;
  partition_id = partition_id;
  actor = actor;
  purpose = purpose;
  accessed_at = now;
}

-- `open_holdout`
unfoldable pub open_holdout :
    Text → Text → Text → Text → Text → DateTime → HoldoutService → HoldoutAccess × HoldoutService
open_holdout access_id candidate_id partition_id actor purpose now s =
    let access = access_of access_id candidate_id partition_id actor purpose now in
    elim (find pair_eq (candidate_id, partition_id) s) [
      | some existing ↦ (existing, s)
      | none ↦ (access, put pair_eq (candidate_id, partition_id) access s)
    ]

-- `get_access_history`
unfoldable pub get_access_history : Text → HoldoutService → List HoldoutAccess
get_access_history candidate_id [] = []
get_access_history candidate_id (((cand, part), access) ∷ s) =
    let rest = get_access_history candidate_id s in
    if text_eq cand candidate_id then access ∷ rest else rest
