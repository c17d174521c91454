-- ===== src/Tests/Research.antt =====
-- Walk-forward splits, validation and jobs.
use quantlab_v.Prelude.{
  ℕ, ◌≡◌, refl, ◌≢◌, ◌↔◌, true, false, Option, none, some, List, [], ◌∷◌, ◌++◌, arith, All, Text,
}
use quantlab_v.Prelude.Result.{ok, err, out_of_fuel}
use quantlab_v.Prelude.Sort.{sort_by}
use quantlab_v.Prelude.Table.{find}
use quantlab_v.Time
use quantlab_v.Time.{Date, IsDate, date}
use quantlab_v.WalkForward.{WalkForwardSpec, FoldSplit, rolling, split}
use quantlab_v.WalkForward.Folds.{split-ends}
use quantlab_v.Validation.Holdout.{new_service, is_consumed}
use quantlab_v.Validation.Holdout.OneWay.{Request, request, requests, open_holdout-one_way}
use quantlab_v.Validation.Trials.{TrialRecord, new_ledger}
use quantlab_v.Validation.Trials.AppendOnly.{Attempt, attempt, attempts, record_once-idempotent}
use quantlab_v.Validation.Partitions.{
  TimePartition, train, test, new_scheme, no_overlap, starts_before,
}
use quantlab_v.Validation.Partitions.Disjoint.{IsPartition, IsDisjoint, new_scheme-IsDisjoint}
use quantlab_v.Validation.Gates.{
  FrozenCandidate, GateDecision, Evidence, paper_candidate, rejected, evaluate_all,
  determine_verdict,
}
use quantlab_v.Validation.Gates.Policy.{AllPassed, paper_candidate_iff, determine_verdict-rejected}
use quantlab_v.Jobs.{
  JobRecord, JobRepository, running, pending_job, new_repository, create_once, get_by_id,
  get_by_idempotency_key, update_status,
}
use quantlab_v.Jobs.Idempotent.{IsUpdate, create_once-idempotent, update_status-effect}
use quantlab_v.Tests.Data.{name, other_name, morning, evening, christmas_eve}

-- Two sessions of training, one of purge, one of test.
abbrev a_spec : WalkForwardSpec
a_spec = record {
  window_type = rolling;
  min_train_sessions = 2;
  train_window_sessions = 2;
  test_window_sessions = 1;
  step_sessions = 1;
  purge_sessions = 1;
  embargo_sessions = 0;
}

abbrev sessions : List Date
sessions =
    date 2020 12 24 ∷ date 2020 12 21 ∷ date 2020 12 22 ∷ date 2020 12 23 ∷ date 2020 12 28 ∷ []

abbrev fold : ℕ → List Date → List Date → Date → Date → Date → FoldSplit
fold i tr te a b c = record {
  fold_index = i;
  train_sessions = tr;
  test_sessions = te;
  train_start = a;
  train_end = b;
  test_start = c;
  test_end = c;
  purge_sessions = 1;
  embargo_sessions = 0;
}

abbrev folds : List FoldSplit
folds =
    fold 0 (date 2020 12 21 ∷ date 2020 12 22 ∷ []) (date 2020 12 24 ∷ []) (date 2020 12 21)
      (date 2020 12 22) (date 2020 12 24)
    ∷ fold 1 (date 2020 12 22 ∷ date 2020 12 23 ∷ []) (date 2020 12 28 ∷ []) (date 2020 12 22)
        (date 2020 12 23) (date 2020 12 28)
    ∷ []

split-ends_example : split sessions a_spec ≢ err out_of_fuel
split-ends_example = split-ends sessions a_spec (omega arith)

abbrev asked_by : Text → Request
asked_by who = record {
  access_id = who;
  candidate_id = name;
  partition_id = name;
  actor = who;
  purpose = who;
  now = morning;
}

open_holdout-one_way_example :
    let (access, s1) = request (asked_by name) new_service in
    let s2 = requests (asked_by other_name ∷ []) s1 in
    (is_consumed name name s2 ≡ true) × (request (asked_by other_name) s2 ≡ (access, s2))
open_holdout-one_way_example =
    open_holdout-one_way (asked_by name) (asked_by other_name) (asked_by other_name ∷ [])
      new_service refl refl

abbrev attempt_on : Text → Text → Attempt
attempt_on spec id = record {
  trial_id = id;
  campaign_id = name;
  candidate_id = name;
  trial_spec = spec;
  sharpe = name;
  cagr = name;
  now = morning;
}

abbrev plain : Text → Text
plain s = s

record_once-idempotent_example :
    let (t, l1) = attempt plain (attempt_on name name) new_ledger in
    let l2 = attempts plain (attempt_on other_name name ∷ []) l1 in
    (attempt plain (attempt_on name other_name) l2 ≡ (t, l2))
    × ((more : List TrialRecord) × (l2.trials ≡ l1.trials ++ more))
record_once-idempotent_example =
    record_once-idempotent plain (attempt_on name name) (attempt_on name other_name)
      (attempt_on other_name name ∷ []) new_ledger refl

abbrev job : JobRecord
job = pending_job name name name name morning

create_once-idempotent_example :
    (r' : JobRepository) × (create_once name morning name name name new_repository ≡ ok (job, r'))
    × (get_by_id name r' ≡ some job)
    × (get_by_idempotency_key name name r' ≡ some job)
    × (create_once other_name evening name name other_name r' ≡ ok (job, r'))
unfolding quantlab_v.Prelude.Table.find
create_once-idempotent_example =
    create_once-idempotent name other_name morning evening name name name other_name new_repository
      refl refl refl

abbrev repository : JobRepository
repository = record { jobs_by_id = (name, job) ∷ []; index = ((name, name), name) ∷ [] }

job_there : get_by_id name repository ≡ some job
unfolding get_by_id quantlab_v.Prelude.Table.find
job_there = refl

update_status-effect_example :
    (job' : JobRecord) × (r' : JobRepository) × (update_status name evening running
        (some name)
        none
        repository
      ≡ ok (job', r'))
    × IsUpdate evening running (some name) none job job'
    × (get_by_id name r' ≡ some job')
    × (get_by_id other_name r' ≡ get_by_id other_name repository)
    × (r'.index ≡ repository.index)
update_status-effect_example =
    update_status-effect name other_name evening running (some name) none repository job job_there
      refl

abbrev partitions : List TimePartition
partitions =
    record {
      partition_id = name;
      partition_type = test;
      start_date = christmas_eve;
      end_date = date 2021 1 4;
      purge_days = quantlab_v.Prelude.Int.pos 5;
      embargo_days = quantlab_v.Prelude.Int.pos 0;
    }
    ∷ record {
      partition_id = other_name;
      partition_type = train;
      start_date = date 2020 1 2;
      end_date = date 2020 12 16;
      purge_days = quantlab_v.Prelude.Int.pos 5;
      embargo_days = quantlab_v.Prelude.Int.pos 0;
    }
    ∷ []

dates_exist : All IsPartition partitions
unfolding Time.days_in_month
dates_exist =
    let d : IsDate christmas_eve = record {
      some_year = refl;
      some_month = refl;
      some_day = refl;
    } in
    let e : IsDate (date 2021 1 4) = record {
      some_year = refl;
      some_month = refl;
      some_day = refl;
    } in
    let a : IsDate (date 2020 1 2) = record {
      some_year = refl;
      some_month = refl;
      some_day = refl;
    } in
    let b : IsDate (date 2020 12 16) = record {
      some_year = refl;
      some_month = refl;
      some_day = refl;
    } in
    ((d, e, refl), ((a, b, refl), tt))

accepted : new_scheme partitions ≡ ok partitions
unfolding new_scheme no_overlap quantlab_v.Prelude.Sort.sort_by
    quantlab_v.Prelude.Sort.insert_sorted
accepted = refl

new_scheme-IsDisjoint_example :
    (partitions ≡ partitions) × IsDisjoint (sort_by starts_before partitions)
new_scheme-IsDisjoint_example = new_scheme-IsDisjoint partitions dates_exist accepted

abbrev candidate : Option FrozenCandidate
candidate = some (record {
  candidate_id = name;
  strategy_id = name;
  code_fingerprint = name;
  frozen_at = morning;
  config_hash = name;
})

abbrev clean : Evidence
clean = record {
  is_cost_fragile = false;
  is_excessively_concentrated = false;
  is_multiple_testing_warned = false;
}

abbrev gates : List GateDecision
gates = evaluate_all candidate false false false

paper_candidate_iff_example :
    ((determine_verdict gates clean true).0 ≡ paper_candidate)
    ↔ (AllPassed gates × ((false ≡ false) × (false ≡ false) × (false ≡ false) × (true ≡ true)))
paper_candidate_iff_example = paper_candidate_iff gates clean true

determine_verdict-rejected_example :
    ((determine_verdict (evaluate_all candidate true false false) clean true).0 ≡ rejected)
    ↔ (AllPassed (evaluate_all candidate true false false) → ⊥)
determine_verdict-rejected_example =
    determine_verdict-rejected (evaluate_all candidate true false false) clean true
