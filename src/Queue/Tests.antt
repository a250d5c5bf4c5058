-- ===== src/Queue/Tests.antt =====
-- The theorems about the updates and the choice of jobs at a concrete database.
use buildbeaver.Base.{◌≡◌, refl, true, false, some, [], ◌∷◌, arith}
use buildbeaver.Models.{
  is_empty, queued, running, failed, succeeded, status_valid, has_finished, status_eq, name_char,
  matches_name, name_valid, tag, etag_eq, already_sealed, job_type_valid, distinct, Job,
  docker_valid, submitted_has_runner, job_valid, build_valid,
}
use buildbeaver.Queue.{
  find_row, put_row, select, earlier, earliest, Next, Runner, Db, ok, err, OnOk, Succeeds,
}
use buildbeaver.Queue.Services.{
  read_build, list_by_build_id, list_by_job_id, seal_log, tag_matches, update_job_row,
  publish_event,
}
use buildbeaver.Queue.Selection.{
  runner_key, read_repo, read_runner, read_commit, job_type_eq, blocks, defers, labels_suffice,
  same_owner, ready_for, job_time, find_queued_job, depends_on, list_dependencies,
}
use buildbeaver.Queue.Dequeue.{
  find_or_create_identity, get_initial_workflows_to_run, token_of, submit_steps, submit, dequeue,
}
use buildbeaver.Queue.Updates.{
  enter_status, job_event, update_job, tally_job, tally_jobs, next_build_status, apply_build_status,
  maintain_unfinished, maintain_build_status,
}
use buildbeaver.Queue.Updates.Success.{Open, maintain_build_status-Succeeds}
use buildbeaver.Queue.Updates.Finishing.{finished_once}
use buildbeaver.Queue.Dequeue.Handover.{Submitted, dequeue-Submitted}
use buildbeaver.Queue.Samples.{env, no_timings, job, build, log, db, is_ok}

maintain_build_status-Succeeds_example : Succeeds (maintain_build_status env 1 db)
unfolding find_row build_valid status_valid is_empty Open
maintain_build_status-Succeeds_example =
    maintain_build_status-Succeeds env 1 build db refl refl (omega arith)
      (log 9 false, 20 ∷ 30 ∷ [], refl, refl, refl)

-- What is left after the first job has succeeded.
abbrev succeeded_job : Job
succeeded_job = record (job 1 20 succeeded) {
  etag = tag 4;
  updated_at = 50;
  timings = record no_timings { finished_at = some 50 };
}

abbrev after_success : Db
after_success = record db {
  jobs = succeeded_job ∷ job 2 10 queued ∷ [];
  logs = record (log 1 true) { size_bytes = 50 } ∷ log 2 false ∷ log 9 false ∷ [];
  events = job_event succeeded_job ∷ [];
}

succeeds : update_job env (job 1 20 succeeded) true db ≡ ok (succeeded_job, after_success)
unfolding update_job enter_status seal_log find_row put_row update_job_row publish_event job_event
    job_valid docker_valid submitted_has_runner distinct name_valid matches_name name_char is_empty
    job_type_valid status_valid tag_matches etag_eq
succeeds = refl

finished_once_example : update_job env (job 1 20 failed) true after_success ≡ err already_sealed
unfolding has_finished
finished_once_example =
    finished_once env (job 1 20 succeeded) (job 1 20 failed) true true db after_success succeeds
      refl refl refl

dequeue-Submitted_example : OnOk (dequeue env 4 db) λ x d.
    (r : Runner) × (j : Job) × (find_row runner_key 4 db.runners ≡ some r)
    × (r.enabled ≡ true)
    × Next job_time (ready_for db r) db.jobs (some j)
    × Submitted j r x.job d
dequeue-Submitted_example = dequeue-Submitted env 4 db

abbrev first_written : Job
first_written = record (job 1 20 running) { etag = tag 3 }

abbrev after_first : Db
after_first = record db { jobs = first_written ∷ job 2 10 queued ∷ [] }

first_writes : update_job_row env (job 1 20 running) db ≡ ok (first_written, after_first)
unfolding find_row put_row update_job_row job_valid docker_valid submitted_has_runner distinct
    name_valid matches_name name_char is_empty job_type_valid status_valid tag_matches etag_eq
first_writes = refl

-- The runner is handed a job.
dequeues : is_ok (dequeue env 4 db) ≡ true
unfolding dequeue read_runner read_build read_repo read_commit find_queued_job ready_for same_owner
    blocks defers job_type_eq labels_suffice status_eq earliest earlier select list_by_job_id
    list_dependencies depends_on find_or_create_identity submit submit_steps update_job enter_status
    update_job_row publish_event job_event maintain_build_status maintain_unfinished
    list_by_build_id tally_jobs tally_job next_build_status apply_build_status find_row put_row
    job_valid docker_valid submitted_has_runner distinct name_valid matches_name name_char is_empty
    job_type_valid status_valid tag_matches etag_eq has_finished get_initial_workflows_to_run
    token_of
dequeues = refl
