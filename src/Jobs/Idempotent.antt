-- ===== src/Jobs/Idempotent.antt =====
-- A job is created once for each key, and its updates reach every later reader.
use quantlab_v.Prelude.{◌≡◌, refl, false, Option, none, some, Text, text_eq}
use quantlab_v.Prelude.Result.{ok}
use quantlab_v.Prelude.Table.{
  find, put, pair_eq, pair_eq_refl, pair_eq→eq, text_eq_refl, text_eq→eq, find-put_self,
  find-put_ne,
}
use quantlab_v.Time.{DateTime}
use quantlab_v.Jobs.{
  JobRecord, JobRepository, JobStatus, is_empty_text, pending_job, replaced, create_once, get_by_id,
  get_by_idempotency_key, update_status,
}

-- A first request for a key makes a pending job, which is then found by its identifier and by its
-- key; a repeated request, with whatever payload and at whatever time, returns that same job and
-- leaves the repository as it is.
pub create_once-idempotent :
    (id id' : Text) (now now' : DateTime) (kind key payload payload' : Text) (r : JobRepository)
    → is_empty_text kind ≡ false
    → is_empty_text key ≡ false
    → find pair_eq (kind, key) r.index ≡ none
    → let job = pending_job id kind key payload now in
      (r' : JobRepository) × (create_once id now kind key payload r ≡ ok (job, r'))
      × (get_by_id id r' ≡ some job)
      × (get_by_idempotency_key kind key r' ≡ some job)
      × (create_once id' now' kind key payload' r' ≡ ok (job, r'))
unfolding create_once get_by_id get_by_idempotency_key
create_once-idempotent id id' now now' kind key payload payload' r h k n =
    let job = pending_job id kind key payload now in
    let by_id = find-put_self text_eq text_eq_refl text_eq→eq id job r.jobs_by_id in
    let by_key = find-put_self pair_eq pair_eq_refl pair_eq→eq (kind, key) id r.index in
    (
      record {
        jobs_by_id = put text_eq id job r.jobs_by_id;
        index = put pair_eq (kind, key) id r.index;
      },
      rw (h, k, n, create_once),
      by_id,
      rw (by_key, get_by_idempotency_key, by_id),
      rw (h, k, by_key, create_once, by_id),
    )

-- What an update makes of an optional field: a new value replaces the old one, and without one the
-- old one stays.
abbrev pub Replaces : Option Text → Option Text → Option Text → Type 0
Replaces none old field = field ≡ old
Replaces (some x) old field = field ≡ some x

replaced-Replaces : (new old : Option Text) → Replaces new old (replaced new old)
replaced-Replaces none old = refl
replaced-Replaces (some y) old = refl

-- The job after an update, beside the one before.
pub record IsUpdate (now : DateTime) (status : JobStatus) (result error : Option Text)
    (job job' : JobRecord) : Type 0 where
  pub same_id : job'.job_id ≡ job.job_id
  pub same_type : job'.job_type ≡ job.job_type
  pub same_key : job'.idempotency_key ≡ job.idempotency_key
  pub same_payload : job'.payload ≡ job.payload
  pub same_creation : job'.created_at ≡ job.created_at
  pub new_status : job'.status ≡ status
  pub new_time : job'.updated_at ≡ now
  pub new_result : Replaces result job.result job'.result
  pub new_error : Replaces error job.error job'.error

-- An update of a known job changes its status and its time, replaces the result and the error only
-- where new ones are given, and keeps identity, key, payload and creation time; it returns the job
-- that is then found by the identifier, and another job and the index are untouched.
pub update_status-effect :
    (id other : Text) (now : DateTime) (status : JobStatus) (result error : Option Text)
    (r : JobRepository) (job : JobRecord)
    → get_by_id id r ≡ some job
    → text_eq id other ≡ false
    → (job' : JobRecord) × (r' : JobRepository) × (update_status id now status result error r
        ≡ ok (job', r'))
      × IsUpdate now status result error job job'
      × (get_by_id id r' ≡ some job')
      × (get_by_id other r' ≡ get_by_id other r)
      × (r'.index ≡ r.index)
unfolding update_status get_by_id
update_status-effect id other now status result error r job h n =
    let job' : JobRecord = record job {
      status = status;
      result = replaced result job.result;
      error = replaced error job.error;
      updated_at = now;
    } in
    (
      job',
      record r { jobs_by_id = put text_eq id job' r.jobs_by_id },
      rw (h, update_status),
      record {
        same_id = refl;
        same_type = refl;
        same_key = refl;
        same_payload = refl;
        same_creation = refl;
        new_status = refl;
        new_time = refl;
        new_result = replaced-Replaces result job.result;
        new_error = replaced-Replaces error job.error;
      },
      find-put_self text_eq text_eq_refl text_eq→eq id job' r.jobs_by_id,
      find-put_ne text_eq text_eq_refl text_eq→eq id other job' r.jobs_by_id n,
      refl,
    )
