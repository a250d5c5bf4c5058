-- ===== src/Queue/Timeouts.antt =====
-- Jobs that take too long: backend/server/services/queue/timeout_checker.go.
pub mod Failing
mod Tests
use buildbeaver.Base.{
  ltb, if◌then◌else◌, ℕ, ◌+◌, Bool, false, not, Option, none, some, List, [], ◌∷◌, ◌++◌,
}
use buildbeaver.Models.{
  codes, WorkflowStatus, queued, submitted, running, failed, has_finished, status_eq, unset,
  ErrorInfo, message, Job, Step,
}
use buildbeaver.Queue.{select, Db, Result, ok, err, M, ◌>>=◌, ◌>>◌, pure, when, for_each}
use buildbeaver.Queue.Services.{Env, list_by_job_id}
use buildbeaver.Queue.Updates.{update_job_status, update_step_status}

-- `hasJobTimedOut`, where `After` is a strict order.
unfoldable pub queued_too_long : ℕ → ℕ → Option ℕ → Bool
queued_too_long now timeout none = false
queued_too_long now timeout (some queued_at) = ltb (queued_at + timeout) now

unfoldable pub has_job_timed_out : ℕ → ℕ → Job → Bool
unfolding queued_too_long
has_job_timed_out now timeout job =
    if has_finished job.status then false else queued_too_long now timeout job.timings.queued_at

-- `ListByStatus`, all of its pages.
unfoldable pub list_by_status : WorkflowStatus → List Job → List Job
list_by_status status = select (λ j. status_eq j.status status)

-- `findTimedOutJobs`
unfoldable pub find_timed_out_jobs : ℕ → ℕ → List Job → WorkflowStatus → List Job
find_timed_out_jobs now timeout jobs status =
    select (has_job_timed_out now timeout) (list_by_status status jobs)

unfoldable pub timed_out_jobs : ℕ → ℕ → List Job → List Job
timed_out_jobs now timeout jobs =
    find_timed_out_jobs now timeout jobs queued
    ++ (find_timed_out_jobs now timeout jobs submitted
        ++ find_timed_out_jobs now timeout jobs running)

abbrev pub job_timed_out : ErrorInfo
job_timed_out = message (codes "error: job timed out")

abbrev pub parent_timed_out : ErrorInfo
parent_timed_out = message (codes "error: step failed because parent job timed out")

-- What `checkForTimeouts` returns, and the database it leaves.
pub record Checked : Type 0 where
  pub timed_out_count : ℕ
  pub error_count : ℕ
  pub db : Db

module _ (env : Env) where
  -- The body of the loop over the steps of the job.
  unfoldable pub fail_step : Step → M (Unit {0})
  fail_step step =
      when (not (has_finished step.status))
        (do update_step_status env step.id failed (some parent_timed_out) unset; pure tt)

  unfoldable pub fail_timed_out_job : Job → M (Unit {0})
  fail_timed_out_job job = do
    update_job_status env job.id failed (some job_timed_out) unset
    steps ← list_by_job_id job.id
    for_each (fail_step) steps

  -- Each job is failed in a transaction of its own: one that ends with an error leaves the database
  -- as it was, and is counted.
  unfoldable pub count_outcome : Result (Unit {0} × Db) → Checked → Checked
  count_outcome (ok (u, db)) c = record c { timed_out_count = c.timed_out_count + 1; db = db }
  count_outcome (err e) c = record c { error_count = c.error_count + 1 }

  unfoldable pub fail_all : List Job → Checked → Checked
  unfolding count_outcome
  fail_all [] c = c
  fail_all (job ∷ jobs) c = fail_all jobs (count_outcome (fail_timed_out_job job c.db) c)

  -- `checkForTimeouts`
  unfoldable pub check_for_timeouts : ℕ → Db → Checked
  check_for_timeouts timeout db =
      fail_all (timed_out_jobs db.now timeout db.jobs)
        (record { timed_out_count = 0; error_count = 0; db = db })
