-- ===== src/Queue/Timeouts/Tests.antt =====
-- The theorems about timeouts at a concrete database.
use buildbeaver.Base.{◌≡◌, refl, true, some, [], ◌∷◌}
use buildbeaver.Models.{
  is_empty, queued, failed, status_valid, has_finished, status_eq, name_char, matches_name,
  name_valid, get_etag, etag_eq, job_type_valid, distinct, Job, docker_valid, submitted_has_runner,
  job_valid,
}
use buildbeaver.Queue.{find_row, put_row, select, Db, OnOk}
use buildbeaver.Queue.Services.{
  job_key, read_job, read_build, list_by_build_id, list_by_job_id, seal_log, tag_matches,
  update_job_row, publish_event,
}
use buildbeaver.Queue.Samples.{env, no_timings, job, db, is_ok}
use buildbeaver.Queue.Updates.{
  enter_status, job_event, update_job, tally_job, tally_jobs, next_build_status, apply_build_status,
  maintain_unfinished, maintain_build_status, update_job_status,
}
use buildbeaver.Queue.Timeouts.{fail_timed_out_job}
use buildbeaver.Queue.Timeouts.Failing.{fail_timed_out_job-failed}

-- A job that was queued 40 before now.
abbrev waiting : Job
waiting = record (job 1 20 queued) { timings = record no_timings { queued_at = some 10 } }

abbrev late : Db
late = record db { jobs = waiting ∷ job 2 10 queued ∷ [] }

fail_timed_out_job-failed_example :
    OnOk
      (fail_timed_out_job env waiting late)
      λ _ d. (k : Job) × (find_row job_key 1 d.jobs ≡ some k) × (k.status ≡ failed)
fail_timed_out_job-failed_example = fail_timed_out_job-failed env waiting late

-- The job and the build's status are updated.
fails : is_ok (fail_timed_out_job env waiting late) ≡ true
unfolding fail_timed_out_job update_job_status read_job read_build get_etag list_by_job_id status_eq
    select update_job enter_status seal_log update_job_row publish_event job_event
    maintain_build_status maintain_unfinished list_by_build_id tally_jobs tally_job
    next_build_status apply_build_status find_row put_row job_valid docker_valid
    submitted_has_runner distinct name_valid matches_name name_char is_empty job_type_valid
    status_valid tag_matches etag_eq has_finished
fails = refl
