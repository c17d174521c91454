-- ===== src/Jobs.antt =====
-- The job repository in memory (quantlab/infrastructure/jobs.py). Payloads and results are texts;
-- the wall clock and the fresh identifier are arguments.
pub mod Idempotent
use quantlab_v.Prelude.{
  Bool, true, false, ◌||◌, Option, none, some, [], ◌∷◌, if◌then◌else◌, Text, text_eq,
}
use quantlab_v.Prelude.Result.{Result, ok, err, ◌>>=◌, empty_key, missing_key, job_not_found}
use quantlab_v.Prelude.Table.{Table, find, put, pair_eq}
use quantlab_v.Time.{DateTime}

pub data JobStatus : Type 0 where
  pending running completed failed cancelled : JobStatus

pub record JobRecord : Type 0 where
  pub job_id : Text
  pub job_type : Text
  pub idempotency_key : Text
  pub status : JobStatus
  pub payload : Text
  pub result : Option Text
  pub error : Option Text
  pub created_at : DateTime
  pub updated_at : DateTime

pub record JobRepository : Type 0 where
  pub jobs_by_id : Table Text JobRecord
  pub index : Table (Text × Text) Text

-- `InMemoryJobRepository.__init__`
abbrev pub new_repository : JobRepository
new_repository = record { jobs_by_id = []; index = [] }

-- `not s`
abbrev pub is_empty_text : Text → Bool
is_empty_text [] = true
is_empty_text (c ∷ s) = false

abbrev pub pending_job : Text → Text → Text → Text → DateTime → JobRecord
pending_job job_id job_type idempotency_key payload now = record {
  job_id = job_id;
  job_type = job_type;
  idempotency_key = idempotency_key;
  status = pending;
  payload = payload;
  result = none;
  error = none;
  created_at = now;
  updated_at = now;
}

-- `d[k]`
abbrev pub require_job : Option JobRecord → Result JobRecord
require_job none = err missing_key
require_job (some j) = ok j

unfoldable pub create_fresh :
    Text → DateTime → Text → Text → Text → JobRepository → Result (JobRecord × JobRepository)
create_fresh job_id now job_type idempotency_key payload r =
    let job = pending_job job_id job_type idempotency_key payload now in
    ok (
      job,
      record {
        jobs_by_id = put text_eq job_id job r.jobs_by_id;
        index = put pair_eq (job_type, idempotency_key) job_id r.index;
      },
    )

-- `create_once`
unfoldable pub create_once :
    Text → DateTime → Text → Text → Text → JobRepository → Result (JobRecord × JobRepository)
unfolding create_fresh
create_once job_id now job_type idempotency_key payload r =
    if is_empty_text job_type || is_empty_text idempotency_key
    then err empty_key
    else elim (find pair_eq (job_type, idempotency_key) r.index) [
      | none ↦ create_fresh job_id now job_type idempotency_key payload r
      | some existing_id ↦
          require_job (find text_eq existing_id r.jobs_by_id) >>= λ job. ok (job, r)
    ]

-- `get_by_id`
unfoldable pub get_by_id : Text → JobRepository → Option JobRecord
get_by_id job_id r = find text_eq job_id r.jobs_by_id

-- `get_by_idempotency_key`
unfoldable pub get_by_idempotency_key : Text → Text → JobRepository → Option JobRecord
get_by_idempotency_key job_type idempotency_key r =
    elim (find pair_eq (job_type, idempotency_key) r.index) [
      | none ↦ none
      | some job_id ↦ find text_eq job_id r.jobs_by_id
    ]

-- `x if x is not None else old`
abbrev pub replaced : Option Text → Option Text → Option Text
replaced none old = old
replaced (some x) old = some x

-- `update_status`; the wall clock is in UTC, so `require_utc` passes
unfoldable pub update_status :
    Text
    → DateTime
    → JobStatus
    → Option Text
    → Option Text
    → JobRepository
    → Result (JobRecord × JobRepository)
update_status job_id now status result error r = elim (find text_eq job_id r.jobs_by_id) [
  | none ↦ err job_not_found
  | some existing ↦
      let updated : JobRecord = record existing {
        status = status;
        result = replaced result existing.result;
        error = replaced error existing.error;
        updated_at = now;
      } in
      ok (updated, record r { jobs_by_id = put text_eq job_id updated r.jobs_by_id })
]
