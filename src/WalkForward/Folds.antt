-- ===== src/WalkForward/Folds.antt =====
-- Walk-forward folds: the loop ends for every step of at least one session, and between training
-- and test lies the purge gap.
use quantlab_v.Prelude.{
  ℕ, zero, suc, ◌+◌, ◌-◌, ◌≤◌, ◌<◌, min, ◌≡◌, ◌∙◌, ◌≢◌, inl, inr, true, List, [], ◌∷◌, ◌++◌, arith,
  leb, leb→le, Bool-cases, length,
}
use quantlab_v.Prelude.Result.{Result, ok, err, ◌>>=◌, Result-cases, out_of_fuel}
use quantlab_v.Prelude.Sort.{sort_by}
use quantlab_v.Time.{Date, date_lt}
use quantlab_v.WalkForward.{
  FoldSplit, WalkForwardSpec, WindowType, rolling, expanding, train_window, test_window, fold_at,
  new_fold, split_round, split_from, split, at, last,
}

-- How much a fold trains on, of the sessions before its purge gap: all of them, or the last ones, as
-- many as the window holds.
abbrev pub IsWindow : WindowType → ℕ → List Date → List Date → Type 0
IsWindow expanding window before train = before ≡ []
IsWindow rolling window before train = length train ≡ min window (length before + length train)

-- Where a fold lies in the sessions: what is left before it, the training, the purge gap, the test,
-- and what comes after.
pub record IsPurged (spec : WalkForwardSpec) (sessions : List Date) (f : FoldSplit) : Type 0 where
  pub before : List Date
  pub gap : List Date
  pub after : List Date
  pub order : sessions ≡ before ++ f.train_sessions ++ gap ++ f.test_sessions ++ after
  pub purged : length gap ≡ spec.purge_sessions
  pub tested : length f.test_sessions ≡ spec.test_window_sessions
  pub trained : spec.min_train_sessions ≤ length f.train_sessions
  pub window : IsWindow spec.window_type spec.train_window_sessions before f.train_sessions
  pub no_leak : date_lt f.train_end f.test_start ≡ true

-- The first session of the window that ends before a session.
abbrev start_of : WindowType → ℕ → ℕ → ℕ
start_of expanding window end = 0
start_of rolling window end = end - window

bind-fuel :
    {A B : Type 0} (m : Result A) (f : A → Result B)
    → m ≢ err out_of_fuel
    → ((a : A) → f a ≢ err out_of_fuel)
    → (m >>= f) ≢ err out_of_fuel
bind-fuel (ok a) f h k = k a
bind-fuel (err x) f h k = λ e. h (cc e)

at-fuel : (l : List Date) (i : ℕ) → at l i ≢ err out_of_fuel
at-fuel l i = ground arith

last-fuel : (l : List Date) → last l ≢ err out_of_fuel
last-fuel [] = ground arith
last-fuel (d ∷ l) = at-fuel (d ∷ l) (length l)

new_fold-fuel : (f : FoldSplit) → new_fold f ≢ err out_of_fuel
unfolding new_fold
new_fold-fuel f = ground arith

fold_at-fuel :
    (spec : WalkForwardSpec) (i : ℕ) (train test : List Date)
    → fold_at spec i train test ≢ err out_of_fuel
unfolding fold_at
fold_at-fuel spec i train test = bind-fuel (at train 0) _ (at-fuel train 0) λ a.
    bind-fuel (last train) _ (last-fuel train) λ b.
      bind-fuel (at test 0) _ (at-fuel test 0)
        λ c. bind-fuel (last test) _ (last-fuel test) λ d. new_fold-fuel _

-- The round itself needs no fuel.
split_round-fuel :
    (spec : WalkForwardSpec) (sessions : List Date) (cur : ℕ) (folds : List FoldSplit)
    → split_round spec sessions cur folds ≢ err out_of_fuel
unfolding split_round
split_round-fuel spec sessions cur folds e =
    let train = train_window spec sessions cur in
    elim (Bool-cases (leb spec.min_train_sessions (length train))) [
      | inr short ↦ cc (rw short at e)
      | inl long ↦
          bind-fuel (fold_at spec (length folds) train (test_window spec sessions cur)) _
            (fold_at-fuel spec (length folds) train (test_window spec sessions cur)) (λ a k. cc k)
            (rw long at e)
    ]

split_from-ends :
    (fuel : ℕ) (spec : WalkForwardSpec) (sessions : List Date) (cur : ℕ) (folds : List FoldSplit)
    → 1 ≤ spec.step_sessions
    → length sessions + 1 - cur < fuel
    → split_from fuel spec sessions cur folds ≢ err out_of_fuel
unfolding split_from
split_from-ends zero spec sessions cur folds s l e = elim l [ ]
split_from-ends (suc fuel) spec sessions cur folds s l e =
    elim (Bool-cases (leb (cur + spec.test_window_sessions) (length sessions))) [
      | inr over ↦ cc (rw (over, split_from) at e)
      | inl fits ↦ elim (Result-cases (split_round spec sessions cur folds)) [
        | inl (x, bad) ↦
            split_round-fuel spec sessions cur folds (bad ∙ (rw (fits, bad, split_from) at e))
        | inr (more, good) ↦
            split_from-ends fuel spec sessions (cur + spec.step_sessions) more s
              (omega (arith, leb→le _ _ fits)) (rw (fits, good, split_from) at e)
      ]
    ]

-- With a step of at least one session the loop ends within its fuel.
pub split-ends :
    (sessions : List Date) (spec : WalkForwardSpec)
    → 1 ≤ spec.step_sessions
    → split sessions spec ≢ err out_of_fuel
unfolding split
split-ends sessions spec s = split_from-ends _ spec (sort_by date_lt sessions) _ [] s (omega arith)
