-- ===== src/Queue/Dependencies.antt =====
-- The dependencies of a new job: `Create` and `createDependency` of
-- backend/server/services/job/job_service.go, and what they call of
-- backend/server/store/jobs/jobs.go.
pub mod Deferral
mod Tests
use buildbeaver.Base.{
  ◌==◌, if◌then◌else◌, ℕ, Bool, true, false, not, ◌&&◌, Option, none, some, List, [], ◌∷◌, ◌++◌,
  map,
}
use buildbeaver.Models.{
  Text, text_eq, tag, not_found, already_exists, invalid, JobDependency, Job, job_valid,
}
use buildbeaver.Queue.{
  find_row, first, DependencyRow, M, ◌>>=◌, ◌>>◌, pure, throw, get_db, modify, guard, for_each,
}
use buildbeaver.Queue.Services.{Env, job_key}

-- `ReadByName`
unfoldable pub is_named : ℕ → Text → Text → Job → Bool
is_named build workflow name j =
    j.build_id == build && text_eq j.workflow workflow && text_eq j.name name

unfoldable pub read_by_name : ℕ → Text → Text → List Job → Option Job
read_by_name build workflow name = first (is_named build workflow name)

-- `CreateDependency` and `CreateDeferredDependency`
unfoldable pub insert_dependency : DependencyRow → M (Unit {0})
insert_dependency row = modify (λ db. record db { dependencies = db.dependencies ++ (row ∷ []) })

unfoldable pub dependency_on : Job → Job → DependencyRow
dependency_on job target = record {
  build_id = job.build_id;
  source_job_id = job.id;
  target_job_id = some target.id;
  target = none;
}

unfoldable pub deferred_dependency_on : Job → JobDependency → DependencyRow
deferred_dependency_on job d = record {
  build_id = job.build_id;
  source_job_id = job.id;
  target_job_id = none;
  target = some (d.workflow, d.job_name);
}

-- The workflow of the job that `ReadByName` returns with its error: a job without any field set.
abbrev pub unread_workflow : Text
unread_workflow = []

-- `createDependency`
unfoldable pub depend_on : Job → JobDependency → Option Job → M (Unit {0})
unfolding dependency_on deferred_dependency_on
depend_on job d (some target) = insert_dependency (dependency_on job target)
depend_on job d none =
    if not (text_eq job.workflow unread_workflow)
    then insert_dependency (deferred_dependency_on job d)
    else throw not_found

unfoldable pub create_dependency : Job → JobDependency → M (Unit {0})
create_dependency job d = do
  db ← get_db
  depend_on job d (read_by_name job.build_id d.workflow d.job_name db.jobs)

-- The `where` clause of `UpdateDeferredDependencies`, and what it sets.
unfoldable pub waits_for : Job → DependencyRow → Bool
waits_for target row =
    row.build_id == target.build_id
    && elim row.target [
      | some (workflow, name) ↦ text_eq workflow target.workflow && text_eq name target.name
      | none ↦ false
    ]
    && elim row.target_job_id [ some id ↦ false | none ↦ true ]

unfoldable pub resolve : Job → DependencyRow → DependencyRow
unfolding waits_for
resolve target row =
    if waits_for target row
    then record row { target_job_id = some target.id; target = none }
    else row

unfoldable pub update_deferred_dependencies : Job → M (Unit {0})
update_deferred_dependencies target =
    modify (λ db. record db { dependencies = map (resolve target) db.dependencies })

module _ (env : Env) where
  -- `Create` of the store, with the ETag of `ResourceTable.Create`.
  unfoldable pub create_job_row : Job → M Job
  create_job_row j = do
    db ← get_db
    guard (job_valid j) invalid
    guard (elim (find_row job_key j.id db.jobs) [ some old ↦ false | none ↦ true ]) already_exists
    let new = record j { etag = tag (env.job_hash j) }
    modify (λ db. record db { jobs = db.jobs ++ (new ∷ []) })
    pure new

  -- `Create` of the service. The rows of labels are the job's list; ownerships and links are not
  -- modelled.
  unfoldable pub create_job : Job → M Job
  create_job j = do
    job ← create_job_row j
    for_each (create_dependency job) job.depends
    update_deferred_dependencies job
    pure job
