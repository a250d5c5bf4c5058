-- ===== src/Queue/Selection/Choice.antt =====
-- What the query for the next job of a runner chooses.
use buildbeaver.Base.{◌≡◌, refl, subst, Option, none, some}
use buildbeaver.Models.{Job}
use buildbeaver.Queue.{Next, earliest-Next, Runner, Db, Result, ok, err, found}
use buildbeaver.Queue.Selection.{ready_for, job_time, find_queued_job}

unfoldable pub chosen : Result (Job × Db) → Option Job
chosen (ok (j, db)) = some j
chosen (err e) = none

-- A runner is given a job that is ready for it, and of those one that was created the earliest; and
-- if any job is ready for it, it is given one.
pub find_queued_job-Next :
    (runner : Runner) (db : Db)
    → Next job_time (ready_for db runner) db.jobs (chosen (find_queued_job runner db))
unfolding find_queued_job chosen
find_queued_job-Next runner db =
    subst (Next job_time (ready_for db runner) db.jobs) (found-chosen _)
      (earliest-Next job_time (ready_for db runner) db.jobs)
  where
    found-chosen : (o : Option Job) → o ≡ chosen (found o db)
    found-chosen none = refl
    found-chosen (some j) = refl
