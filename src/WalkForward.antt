-- ===== src/WalkForward.antt =====
-- Purged walk-forward splits (quantlab/ml/splits.py, quantlab/ml/walk_forward.py). Counts of
-- sessions are natural numbers.
pub mod Folds
mod Slices
use quantlab_v.Prelude.{
  ℕ, zero, suc, ◌+◌, ◌-◌, true, false, none, some, List, [], ◌∷◌, ◌++◌, leb, if◌then◌else◌, length,
  get_elem?, take, drop,
}
use quantlab_v.Prelude.Result.{
  ◌>>=◌, ◌>>◌, Result, ok, err, raise_if, fold_leak, index_range, out_of_fuel,
}
use quantlab_v.Prelude.Sort.{sort_by}
use quantlab_v.Time.{Date, date_lt, date_le}

pub data WindowType : Type 0 where
  rolling expanding : WindowType

pub record FoldSplit : Type 0 where
  pub fold_index : ℕ
  pub train_sessions : List Date
  pub test_sessions : List Date
  pub train_start : Date
  pub train_end : Date
  pub test_start : Date
  pub test_end : Date
  pub purge_sessions : ℕ
  pub embargo_sessions : ℕ

-- `FoldSplit.__post_init__`
unfoldable pub new_fold : FoldSplit → Result FoldSplit
new_fold f = do raise_if (date_le f.test_start f.train_end) fold_leak; ok f

pub record WalkForwardSpec : Type 0 where
  pub window_type : WindowType
  pub min_train_sessions : ℕ
  pub train_window_sessions : ℕ
  pub test_window_sessions : ℕ
  pub step_sessions : ℕ
  pub purge_sessions : ℕ
  pub embargo_sessions : ℕ

-- `l[a:b]`
abbrev pub slice : List Date → ℕ → ℕ → List Date
slice l a b = take (b - a) (drop a l)

-- `l[i]` and `l[-1]`
abbrev pub at : List Date → ℕ → Result Date
at l i = elim (get_elem? l i) [ none ↦ err index_range | some d ↦ ok d ]

abbrev pub last : List Date → Result Date
last [] = err index_range
last (d ∷ l) = at (d ∷ l) (length l)

-- the train window that ends before the purge gap
unfoldable pub train_start_idx : WalkForwardSpec → ℕ → ℕ
train_start_idx spec train_end_idx = elim spec.window_type [
  | expanding ↦ 0
  | rolling ↦ train_end_idx - spec.train_window_sessions
]

unfoldable pub train_window : WalkForwardSpec → List Date → ℕ → List Date
unfolding train_start_idx
train_window spec sessions cur =
    let train_end_idx = cur - spec.purge_sessions in
    slice sessions (train_start_idx spec train_end_idx) train_end_idx

unfoldable pub test_window : WalkForwardSpec → List Date → ℕ → List Date
test_window spec sessions cur = slice sessions cur (cur + spec.test_window_sessions)

unfoldable pub fold_at : WalkForwardSpec → ℕ → List Date → List Date → Result FoldSplit
fold_at spec fold_idx train test = do
  train_start ← at train 0
  train_end ← last train
  test_start ← at test 0
  test_end ← last test
  new_fold (record {
    fold_index = fold_idx;
    train_sessions = train;
    test_sessions = test;
    train_start = train_start;
    train_end = train_end;
    test_start = test_start;
    test_end = test_end;
    purge_sessions = spec.purge_sessions;
    embargo_sessions = spec.embargo_sessions;
  })

-- One round of the loop: the folds so far, and the next index of a fold is their number.
unfoldable pub split_round :
    WalkForwardSpec → List Date → ℕ → List FoldSplit → Result (List FoldSplit)
unfolding train_window test_window fold_at
split_round spec sessions cur folds =
    let train = train_window spec sessions cur in
    if leb spec.min_train_sessions (length train)
    then (do
      fold ← fold_at spec (length folds) train (test_window spec sessions cur)
      ok (folds ++ fold ∷ []))
    else ok folds

-- the `while`
unfoldable pub split_from :
    ℕ → WalkForwardSpec → List Date → ℕ → List FoldSplit → Result (List FoldSplit)
split_from zero spec sessions cur folds = err out_of_fuel
split_from (suc fuel) spec sessions cur folds =
    elim (leb (cur + spec.test_window_sessions) (length sessions)) [
      | false ↦ ok folds
      | true ↦ elim (split_round spec sessions cur folds) [
        | err e ↦ err e
        | ok more ↦ split_from fuel spec sessions (cur + spec.step_sessions) more
      ]
    ]

-- `PurgedWalkForwardCV.split`: each round moves on by a step of at least one session
unfoldable pub split : List Date → WalkForwardSpec → Result (List FoldSplit)
unfolding split_from split_round
split sessions spec =
    let sorted_sessions = sort_by date_lt sessions in
    split_from (length sorted_sessions + 2) spec sorted_sessions
      (spec.min_train_sessions + spec.purge_sessions) []
