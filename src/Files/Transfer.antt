-- ===== src/Files/Transfer.antt =====
-- internal/files/transfer.go: the jobs of the transfers. The map is a list with one job for an identifier;
-- instants are numbers of seconds. A call that starts a job looks at the quota and enters its job in two
-- critical sections, so that what other calls do can come between: such a job is pending.
pub mod Quota
pub mod Running
pub mod Lifetime
use secure_crt.Base.{
  ℕ, ◌+◌, ◌-◌, suc, Bool, true, false, not, ◌&&◌, Option, none, some, List, [], ◌∷◌, ltb, leb,
  if◌then◌else◌, Bytes, bytes_eq, codes,
}
use secure_crt.Base.Outcome.{Outcome, failed, returned}
use secure_crt.Files.Copy.{CopyError, canceled, Progress}

pub data JobKind : Type 0 where
  job_copy job_delete : JobKind

pub data JobState : Type 0 where
  job_running job_done job_failed job_cancelled : JobState

pub record Job : Type 0 where
  pub id : Bytes
  pub kind : JobKind
  pub state : JobState
  pub user_id : Bytes
  pub progress : Progress
  pub error : Option CopyError
  pub started_at : ℕ
  pub finished_at : Option ℕ
  pub is_cancelled : Bool

pub data TransferError : Type 0 where
  job_not_found too_many_jobs session_not_found : TransferError

abbrev pub max_jobs_per_user : ℕ
max_jobs_per_user = 8

-- Half an hour.
abbrev pub job_retention : ℕ
job_retention = 1800

abbrev pub is_running : JobState → Bool
is_running job_running = true
is_running _ = false

abbrev pub runs_for : Bytes → Job → Bool
runs_for user_id j = bytes_eq j.user_id user_id && is_running j.state

unfoldable pub count : (Job → Bool) → List Job → ℕ
count test [] = 0
count test (j ∷ jobs) = let rest = count test jobs in if test j then suc rest else rest

unfoldable pub check_quota : Bytes → List Job → Outcome TransferError (Unit {0})
check_quota user_id jobs =
    if leb max_jobs_per_user (count (runs_for user_id) jobs)
    then failed too_many_jobs
    else returned tt

unfoldable pub delete_where : (Job → Bool) → List Job → List Job
delete_where test [] = []
delete_where test (j ∷ jobs) =
    let rest = delete_where test jobs in if test j then rest else j ∷ rest

abbrev pub has_id : Bytes → Job → Bool
has_id id j = bytes_eq j.id id

unfoldable pub enter : Job → List Job → List Job
enter j jobs = j ∷ delete_where (has_id j.id) jobs

unfoldable pub find : (Job → Bool) → List Job → Option Job
find test [] = none
find test (j ∷ jobs) = let rest = find test jobs in if test j then some j else rest

unfoldable pub update : Bytes → (Job → Job) → List Job → List Job
update id f [] = []
update id f (j ∷ jobs) =
    let rest = update id f jobs in if bytes_eq j.id id then f j ∷ rest else j ∷ rest

-- How a job ends; the text of an error is `user_facing`.
abbrev pub ended_with : ℕ → Option CopyError → Job → Job
ended_with now none j = record j { state = job_done; finished_at = some now }
ended_with now (some canceled) j = record j { state = job_cancelled; finished_at = some now }
ended_with now (some e) j = record j { state = job_failed; finished_at = some now; error = some e }

-- `FinishedAt.Before(now - retention)`.
abbrev pub is_old : ℕ → Job → Bool
is_old now j = elim j.finished_at [ none ↦ false | some t ↦ ltb (t + job_retention) now ]

unfoldable pub sweep : ℕ → List Job → List Job
sweep now jobs = delete_where (is_old now) jobs

unfoldable pub finish : Bytes → ℕ → Option CopyError → List Job → List Job
finish id now result jobs = sweep now (update id (ended_with now result) jobs)

-- The job as it is made; both kinds of start make it so.
abbrev pub new_job : Bytes → JobKind → Bytes → ℕ → Job
new_job id kind user_id now = record {
  id = id;
  kind = kind;
  state = job_running;
  user_id = user_id;
  progress = record {
    total_bytes = 0;
    done_bytes = 0;
    total_files = 0;
    done_files = 0;
    current = [];
  };
  error = none;
  started_at = now;
  finished_at = none;
  is_cancelled = false;
}

abbrev pub owned_by : Bytes → Option Job → Outcome TransferError Job
owned_by user_id none = failed job_not_found
owned_by user_id (some j) =
    if not (bytes_eq j.user_id user_id) then failed job_not_found else returned j

unfoldable pub get : Bytes → Bytes → List Job → Outcome TransferError Job
get user_id id jobs = owned_by user_id (find (has_id id) jobs)

-- The context of the job is cancelled; its goroutine sees that.
abbrev pub cancelled_job : Job → Job
cancelled_job j = record j { is_cancelled = true }

abbrev pub cancel_found :
    Bytes → List Job → Outcome TransferError Job → List Job × Outcome TransferError (Unit {0})
cancel_found id jobs (failed e) = (jobs, failed e)
cancel_found id jobs (returned j) = (update id cancelled_job jobs, returned tt)

unfoldable pub cancel : Bytes → Bytes → List Job → List Job × Outcome TransferError (Unit {0})
cancel user_id id jobs = cancel_found id jobs (get user_id id jobs)

unfoldable pub shutdown : List Job → List Job
shutdown [] = []
shutdown (j ∷ jobs) = cancelled_job j ∷ shutdown jobs

pub record State : Type 0 where
  pub jobs : List Job
  pub pending : List Job

-- The first part of `StartCopy` and of `StartDelete`, once their sessions have been found.
unfoldable pub start :
    Bytes → JobKind → Bytes → ℕ → State → State × Outcome TransferError (Unit {0})
start id kind user_id now st = elim (check_quota user_id st.jobs) [
  | failed e ↦ (st, failed e)
  | returned _ ↦ (record st { pending = new_job id kind user_id now ∷ st.pending }, returned tt)
]

abbrev pub register_found : State → Option Job → State
register_found st none = st
register_found st (some j) = record st {
  jobs = enter j st.jobs;
  pending = delete_where (has_id j.id) st.pending;
}

-- The second part, of the pending job with an identifier.
unfoldable pub register : Bytes → State → State
register id st = register_found st (find (has_id id) st.pending)

pub data Step : Type 0 where
  starting : Bytes → JobKind → Bytes → ℕ → Step
  registering : Bytes → Step
  reporting : Bytes → Progress → Step
  finishing : Bytes → ℕ → Option CopyError → Step
  cancelling : Bytes → Bytes → Step
  shutting_down : Step

unfoldable pub after_step : State → Step → State
after_step st (starting id kind user_id now) = (start id kind user_id now st).0
after_step st (registering id) = register id st
after_step st (reporting id p) = record st {
  jobs = update id (λ j. record j { progress = p }) st.jobs;
}
after_step st (finishing id now result) = record st { jobs = finish id now result st.jobs }
after_step st (cancelling user_id id) = record st { jobs = (cancel user_id id st.jobs).0 }
after_step st shutting_down = record st { jobs = shutdown st.jobs }

unfoldable pub after_steps : State → List Step → State
after_steps st [] = st
after_steps st (s ∷ steps) = after_steps (after_step st s) steps
