-- ===== src/Queue/Enqueue/Operations.antt =====
-- The operations of the queue service that read builds and enqueue them.
use buildbeaver.Base.{leb, ◌==◌, length, ℕ, false, not, Option, none, some, List, []}
use buildbeaver.Models.{
  Text, codes, failed, has_finished, unset, validation_failed, ErrorInfo, message, WorkflowTimings,
  Job, BuildOptions, Build,
}
use buildbeaver.Graph.{DagLib, JobGraph, BuildGraph, build_graph_valid}
use buildbeaver.Queue.{Repo, ok, err, M, ◌>>=◌, ◌>>◌, pure, get_db, found_or, guard}
use buildbeaver.Queue.Services.{Env, read_job, read_build, list_by_build_id, list_by_job_id}
use buildbeaver.Queue.Selection.{read_repo, read_commit}
use buildbeaver.Queue.Enqueue.Graphs.{
  new_id, map_each, populate_defaults, JobDefinition, LimitsConfig, Definitions, append_job_graphs,
  make_new_build_graph,
}
use buildbeaver.Queue.Enqueue.{create_queued_build, enqueue_jobs, enqueue_build}

-- `ReadBuildGraph` and `ReadJobGraph`.
unfoldable pub with_steps : Job → M JobGraph
with_steps job = do steps ← list_by_job_id job.id; pure (record { job = job; steps = steps })

unfoldable pub read_build_graph : ℕ → M BuildGraph
unfolding with_steps map_each
read_build_graph id = do
  build ← read_build id
  jobs ← list_by_build_id build.id
  graphs ← map_each with_steps jobs
  pure (record { build = build; jobs = graphs })

unfoldable pub read_job_graph : ℕ → M JobGraph
unfolding with_steps
read_job_graph id = do job ← read_job id; with_steps job

-- `QueuedBuild`
pub record QueuedBuild : Type 0 where
  pub repo : Repo
  pub commit : ℕ
  pub graph : BuildGraph

unfoldable pub read_queued_build : ℕ → M QueuedBuild
unfolding read_build_graph
read_queued_build id = do
  graph ← read_build_graph id
  repo ← read_repo graph.build.repo_id
  commit ← read_commit graph.build.commit_id
  pure (record { repo = repo; commit = commit; graph = graph })

-- `CheckBuildConfigLength`
unfoldable pub check_build_config_length : LimitsConfig → ℕ → M (Unit {0})
check_build_config_length limits n = do
  guard (not (n == 0)) validation_failed
  guard (leb n limits.max_build_config_length) validation_failed

-- A row of `commits`.
pub record Commit : Type 0 where
  pub id : ℕ
  pub repo_id : ℕ
  pub config : Text
  pub config_type : Text

unfoldable pub failed_at : ℕ → WorkflowTimings
failed_at now = record {
  queued_at = some now;
  submitted_at = some now;
  running_at = some now;
  finished_at = some now;
  canceled_at = none;
}

unfoldable pub with_options : Option BuildOptions → BuildGraph → BuildGraph
with_options none g = g
with_options (some opts) g = record g { build = record (g.build) { opts = opts } }

unfoldable pub failed_build : Commit → Text → ErrorInfo → M Build
unfolding failed_at
failed_build commit ref error = do
  db ← get_db
  id ← new_id
  pure (record {
    id = id;
    name = 0;
    repo_id = commit.repo_id;
    created_at = db.now;
    updated_at = 0;
    etag = unset;
    commit_id = commit.id;
    log_descriptor_id = 0;
    ref = ref;
    status = failed;
    timings = failed_at db.now;
    error = some error;
    opts = record { force = false; nodes_to_run = [] };
  })

-- The result of a computation, whose effects are undone if it ends with an error.
unfoldable pub attempt : {A : Type 0} → M A → M (Option A)
attempt m db = elim (m db) [ ok (a, db') ↦ ok (some a, db') | err e ↦ ok (none, db) ]

module _ (env : Env) (lib : DagLib) (defs : Definitions) (limits : LimitsConfig) where
  -- `createFailedBuild`
  unfoldable pub create_failed_build :
      Commit → Text → Option BuildOptions → ErrorInfo → M BuildGraph
  unfolding failed_build with_options
  create_failed_build commit ref opts error = do
    build ← failed_build commit ref error
    g ← populate_defaults (record { build = build; jobs = [] })
    let g' = with_options opts g
    build' ← create_queued_build env g'.build
    pure (record g' { build = build' })

  -- `EnqueueBuildFromBuildDefinition`
  unfoldable pub enqueue_build_from_definition :
      ℕ → ℕ → List JobDefinition → Text → Option BuildOptions → M BuildGraph
  enqueue_build_from_definition repo commit jobs ref opts = do
    g ← make_new_build_graph defs lib limits repo commit jobs ref opts
    enqueue_build env lib g

  -- What follows `makeNewBuildGraph` in `EnqueueBuildFromCommit`.
  unfoldable pub enqueue_or_fail :
      Commit → Text → Option BuildOptions → Option BuildGraph → M BuildGraph
  unfolding create_failed_build
  enqueue_or_fail commit ref opts (some g) = enqueue_build env lib g
  enqueue_or_fail commit ref opts none =
      create_failed_build commit ref opts (message (codes "error parsing build configuration"))

  -- `EnqueueBuildFromCommit`; the rest of an error's message is not modelled.
  unfoldable pub enqueue_parsed :
      Commit → Text → Option BuildOptions → Option (List JobDefinition) → M BuildGraph
  unfolding enqueue_or_fail create_failed_build attempt
  enqueue_parsed commit ref opts none =
      create_failed_build commit ref opts (message (codes "error parsing build definition"))
  enqueue_parsed commit ref opts (some jobs) = do
    g ← attempt (make_new_build_graph defs lib limits commit.repo_id commit.id jobs ref opts)
    enqueue_or_fail commit ref opts g

  unfoldable pub enqueue_build_from_commit : Commit → Text → Option BuildOptions → M BuildGraph
  unfolding enqueue_parsed
  enqueue_build_from_commit commit ref opts =
      enqueue_parsed commit ref opts
        (defs.parse limits.max_steps_per_job commit.config commit.config_type)

  -- `addJobsToBuild`; transactions run one at a time, so its row lock has no effect here.
  unfoldable pub add_jobs_to_build : ℕ → List JobDefinition → M (BuildGraph × List JobGraph)
  unfolding read_build_graph
  add_jobs_to_build id jobs = do
    g ← read_build_graph id
    guard (not (has_finished g.build.status)) validation_failed
    g₁ ← append_job_graphs defs limits g jobs
    g₂ ← populate_defaults g₁
    guard (build_graph_valid lib g₂) validation_failed
    enqueue_jobs env lib g₂

  -- `AddConfigToBuild`
  unfoldable pub add_config_to_build : ℕ → Text → Text → M (BuildGraph × List JobGraph)
  unfolding add_jobs_to_build check_build_config_length
  add_config_to_build id config config_type = do
    check_build_config_length limits (length config)
    jobs ← found_or validation_failed (defs.parse limits.max_steps_per_job config config_type)
    add_jobs_to_build id jobs
