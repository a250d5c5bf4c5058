-- ===== src/Queue/Enqueue.antt =====
-- How builds come into the queue: backend/server/services/queue/queue_service.go, and what it calls to
-- create logs, builds, jobs and steps. The parser of build definitions is an argument.
pub mod Graphs
pub mod Operations
pub mod Compatible
pub mod Rows
pub mod Outcomes
pub mod Limits
mod Tests
use buildbeaver.Base.{
  ◌==◌, if◌then◌else◌, length, any, ℕ, ◌+◌, Bool, true, false, not, ◌&&◌, Option, none, some, List,
  [], ◌∷◌, ◌++◌, map,
}
use buildbeaver.Models.{
  Text, codes, text_eq, failed, tag, already_exists, invalid, mismatched_ids, message, Job, is_set,
  Step, step_valid, Build, build_valid,
}
use buildbeaver.Graph.{DagLib, new_dag, walk, JobGraph, BuildGraph, step_node, job_node}
use buildbeaver.Queue.{
  find_row, put_row, select, LogDescriptor, Runner, Repo, Db, M, ◌>>=◌, ◌>>◌, pure, get_db, modify,
  found_or, guard, for_each,
}
use buildbeaver.Queue.Services.{Env, job_key, step_key, build_key}
use buildbeaver.Queue.Updates.{update_build, update_job, update_step, maintain_build_status}
use buildbeaver.Queue.Selection.{repo_key, same_owner}
use buildbeaver.Queue.Dependencies.{create_job}
use buildbeaver.Queue.Enqueue.Graphs.{new_id}

-- `NewLogDescriptor`
unfoldable pub new_log_descriptor : ℕ → ℕ → ℕ → LogDescriptor
new_log_descriptor id parent resource = record {
  id = id;
  parent_log_id = parent;
  resource_id = resource;
  sealed = false;
  size_bytes = 0;
}

-- `Create` of the log service.
unfoldable pub create_log : ℕ → ℕ → M ℕ
create_log parent resource = do
  id ← new_id
  db ← get_db
  guard (is_set id && is_set db.now && is_set resource) invalid
  modify (λ db. record db { logs = db.logs ++ (new_log_descriptor id parent resource ∷ []) })
  pure id

-- `IncrementBuildCounter`: the count is 0 if no row is found.
unfoldable pub increment_counter : ℕ → Repo → Repo
increment_counter id r = if r.id == id then record r { build_counter = r.build_counter + 1 } else r

unfoldable pub increment_build_counter : ℕ → M ℕ
unfolding increment_counter
increment_build_counter id = do
  modify (λ db. record db { repos = map (increment_counter id) db.repos })
  db ← get_db
  pure (elim (find_row repo_key id db.repos) [ some r ↦ r.build_counter | none ↦ 0 ])

-- A row with the ID is not there yet.
unfoldable pub is_free {ℓ} : {A : Type ℓ} → Option A → Bool
is_free none = true
is_free (some a) = false

module _ (env : Env) where
  -- `Create` of the build service.
  unfoldable pub create_build_row : Build → M Build
  unfolding is_free
  create_build_row b = do
    guard (build_valid b) invalid
    number ← increment_build_counter b.repo_id
    db ← get_db
    guard (is_free (find_row build_key b.id db.builds)) already_exists
    let new = record b { name = number; etag = tag (env.build_hash (record b { name = number })) }
    modify (λ db. record db { builds = db.builds ++ (new ∷ []) })
    pure new

  -- `createBuild`
  unfoldable pub create_queued_build : Build → M Build
  unfolding create_log create_build_row
  create_queued_build b = do
    log ← create_log 0 b.id
    b' ← create_build_row (record b { log_descriptor_id = log })
    update_build env b' true

  -- `createJob`
  unfoldable pub create_queued_job : Build → Job → M Job
  unfolding create_log
  create_queued_job build job = do
    log ← create_log build.log_descriptor_id job.id
    guard (job.build_id == build.id) mismatched_ids
    job' ← create_job env (record job { log_descriptor_id = log })
    update_job env job' true

  -- `Create` of the step service, and `createStep`.
  unfoldable pub create_step_row : Step → M Step
  unfolding is_free
  create_step_row s = do
    guard (step_valid s) invalid
    db ← get_db
    guard (is_free (find_row step_key s.id db.steps)) already_exists
    let new = record s { etag = tag (env.step_hash s) }
    modify (λ db. record db { steps = db.steps ++ (new ∷ []) })
    pure new

  unfoldable pub create_queued_step : Job → Step → M (Unit {0})
  unfolding create_log create_step_row
  create_queued_step job step = do
    log ← create_log job.log_descriptor_id step.id
    guard (step.job_id == job.id) mismatched_ids
    step' ← create_step_row (record step { log_descriptor_id = log })
    update_step env job step' true
    pure tt

-- `RunnerCompatibleWithJob` of backend/server/store/runners/runners.go: the labels of the runner that
-- the job names are as many as those that the job names.
unfoldable pub has_labels : List Text → List Text → Bool
has_labels [] labels = true
has_labels (l ∷ ls) labels =
    length (select (λ x. any (text_eq x) (l ∷ ls)) labels) == length (l ∷ ls)

-- The test that the row is not soft-deleted.
abbrev pub is_deleted : Runner → Bool
is_deleted r = elim r.deleted_at [ none ↦ false | some t ↦ true ]

unfoldable pub runner_compatible_with_job : Db → Job → Bool
unfolding has_labels
runner_compatible_with_job db job =
    any (λ r. same_owner db r job && not (is_deleted r) && has_labels job.runs_on r.labels)
      db.runners

unfoldable pub fail_queued_step : Step → Step
fail_queued_step s = record s { status = failed }

-- The body of the loop of `failJobsWithNoCompatibleRunner`.
unfoldable pub fail_if_incompatible : Db → JobGraph → JobGraph
unfolding fail_queued_step
fail_if_incompatible db g = if runner_compatible_with_job db g.job then g else record {
  job = record (g.job) {
    status = failed;
    error = some (message (codes "No runners are capable of running this job"));
  };
  steps = map fail_queued_step g.steps;
}

unfoldable pub fail_jobs_with_no_compatible_runner : List JobGraph → M (List JobGraph)
unfolding fail_if_incompatible
fail_jobs_with_no_compatible_runner gs = do db ← get_db; pure (map (fail_if_incompatible db) gs)

abbrev pub graph_key : JobGraph → ℕ
graph_key g = g.job.id

-- The created job graphs in the list of all, which holds pointers to them.
unfoldable pub put_all : List JobGraph → List JobGraph → List JobGraph
put_all [] gs = gs
put_all (c ∷ cs) gs = put_all cs (put_row graph_key c gs)

module _ (env : Env) (lib : DagLib) where
  -- `JobGraph.Walk` with `createStep`.
  unfoldable pub create_steps : Job → List Step → M (Unit {0})
  create_steps job steps = do
    d ← found_or invalid (new_dag lib (map step_node steps))
    for_each (create_queued_step env job) (walk lib steps d)

  -- The callback of the walk over the jobs, for a job that does not exist yet.
  unfoldable pub enqueue_new : Build → JobGraph → M (List JobGraph)
  unfolding create_steps
  enqueue_new build g = do
    job ← create_queued_job env build g.job
    create_steps job g.steps
    pure (record g { job = job } ∷ [])

  -- The walk, with the jobs that it creates.
  unfoldable pub enqueue_each : Build → List JobGraph → M (List JobGraph)
  unfolding is_free
  enqueue_each build [] = pure []
  enqueue_each build (g ∷ gs) = do
    db ← get_db
    new ← if is_free (find_row job_key g.job.id db.jobs) then enqueue_new build g else pure []
    rest ← enqueue_each build gs
    pure (new ++ rest)

  -- `enqueueJobs`
  unfoldable pub enqueue_jobs : BuildGraph → M (BuildGraph × List JobGraph)
  unfolding fail_jobs_with_no_compatible_runner enqueue_each put_all
  enqueue_jobs g = do
    jobs ← fail_jobs_with_no_compatible_runner g.jobs
    d ← found_or invalid (new_dag lib (map job_node jobs))
    created ← enqueue_each g.build (walk lib jobs d)
    build ← maintain_build_status env g.build.id
    pure (record { build = build; jobs = put_all created jobs }, created)

  -- `enqueueBuild`
  unfoldable pub enqueue_build : BuildGraph → M BuildGraph
  unfolding enqueue_jobs
  enqueue_build g = do
    build ← create_queued_build env g.build
    r ← enqueue_jobs (record g { build = build })
    pure r.0
