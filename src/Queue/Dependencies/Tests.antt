-- ===== src/Queue/Dependencies/Tests.antt =====
-- The theorems about dependencies at a concrete database.
use buildbeaver.Base.{◌≡◌, refl, true, false, []}
use buildbeaver.Models.{
  codes, text_eq, is_empty, queued, status_valid, has_finished, name_char, matches_name, name_valid,
  not_found, JobDependency, job_type_valid, distinct, docker_valid, submitted_has_runner, job_valid,
}
use buildbeaver.Queue.{find_row, first, err, OnOk}
use buildbeaver.Queue.Selection.{ready_for}
use buildbeaver.Queue.Dependencies.{
  is_named, read_by_name, depend_on, create_dependency, update_deferred_dependencies,
  create_job_row, create_job,
}
use buildbeaver.Queue.Dependencies.Deferral.{create_dependency-ready_for}
use buildbeaver.Queue.Samples.{env, job, agent, db, is_ok}

abbrev on_missing : JobDependency
on_missing = record { workflow = codes "release"; job_name = codes "build" }

abbrev on_test : JobDependency
on_test = record { workflow = []; job_name = codes "test" }

-- A job of the default workflow may not depend on a job of another workflow that is to come.
missing_job_refused : create_dependency (job 1 20 queued) on_missing db ≡ err not_found
unfolding create_dependency text_eq depend_on read_by_name first is_named
missing_job_refused = refl

create_dependency-ready_for_example :
    OnOk
      (create_dependency (job 2 10 queued) on_test db)
      λ _ d. ready_for d agent (job 2 10 queued) ≡ false
unfolding read_by_name is_named first text_eq has_finished
create_dependency-ready_for_example =
    create_dependency-ready_for (job 2 10 queued) (job 1 20 queued) on_test agent db refl refl

-- A job is created.
creates : is_ok (create_job env (record (job 3 30 queued) { name = codes "lint" }) db) ≡ true
unfolding create_job create_job_row find_row job_valid docker_valid submitted_has_runner distinct
    name_valid matches_name name_char is_empty job_type_valid status_valid
    update_deferred_dependencies
creates = refl
