-- ===== src/Queue/Enqueue/Graphs.antt =====
-- The graph of a new build, and how definitions are appended to a graph: `makeNewBuildGraph`,
-- `makeJobGraphs` and `makeJobGraphsAndAppendToBuildGraph`, and `PopulateDefaults` of
-- backend/server/dto and backend/common/models.
use buildbeaver.Base.{
  leb, if◌then◌else◌, length, all, ℕ, suc, ◌+◌, false, not, ◌&&◌, Option, none, some, List, [], ◌∷◌,
  ◌++◌,
}
use buildbeaver.Models.{
  Text, codes, is_empty, WorkflowStatus, queued, unknown, other, unset, validation_failed, invalid,
  external, ErrorInfo, message, WorkflowTimings, JobDependency, Service, ArtifactDefinition,
  JobType, DockerPullStrategy, Job, is_set, Step, BuildOptions, Build,
}
use buildbeaver.Graph.{DagLib, JobGraph, BuildGraph, build_graph_valid}
use buildbeaver.Graph.Trimming.{trim_build}
use buildbeaver.Queue.{M, ◌>>=◌, ◌>>◌, pure, get_db, modify, found_or, guard}

-- `NewBuildID` and its like: an ID that was not given out before.
unfoldable pub new_id : M ℕ
new_id = do db ← get_db; modify (λ db. record db { next_id = suc db.next_id }); pure db.next_id

unfoldable pub id_or_new : ℕ → M ℕ
id_or_new id = if is_set id then pure id else new_id

unfoldable pub or_set : ℕ → ℕ → ℕ
or_set n default = if is_set n then n else default

unfoldable pub status_or_queued : WorkflowStatus → WorkflowStatus
status_or_queued (other []) = queued
status_or_queued unknown = queued
status_or_queued s = s

unfoldable pub error_or_empty : Option ErrorInfo → ErrorInfo
error_or_empty none = message []
error_or_empty (some e) = e

-- `PopulateDefaults` of a step, a job, a job graph and a build graph.
unfoldable pub populate_step : Job → Step → M Step
unfolding id_or_new or_set status_or_queued error_or_empty
populate_step job s = do
  id ← id_or_new s.id
  pure (record s {
    id = id;
    job_id = job.id;
    created_at = or_set s.created_at job.created_at;
    updated_at = or_set s.updated_at job.created_at;
    status = status_or_queued s.status;
    error = some (error_or_empty s.error);
  })

unfoldable pub populate_job : Build → Job → M Job
unfolding id_or_new or_set status_or_queued
populate_job build j = do
  id ← id_or_new j.id
  pure (record j {
    id = id;
    build_id = build.id;
    created_at = or_set j.created_at build.created_at;
    updated_at = or_set j.updated_at build.created_at;
    status = status_or_queued j.status;
  })

-- A loop that replaces each element.
unfoldable pub map_each : {A B : Type 0} → (A → M B) → List A → M (List B)
map_each f [] = pure []
map_each f (x ∷ xs) = do y ← f x; ys ← map_each f xs; pure (y ∷ ys)

unfoldable pub populate_job_graph : Build → JobGraph → M JobGraph
unfolding populate_step populate_job map_each
populate_job_graph build g = do
  job ← populate_job build g.job
  steps ← map_each (populate_step job) g.steps
  pure (record { job = job; steps = steps })

unfoldable pub populate_build : Build → M Build
unfolding id_or_new or_set status_or_queued
populate_build b = do
  db ← get_db
  id ← id_or_new b.id
  let created = or_set b.created_at db.now
  pure (record b {
    id = id;
    created_at = created;
    updated_at = or_set b.updated_at created;
    status = status_or_queued b.status;
  })

unfoldable pub populate_defaults : BuildGraph → M BuildGraph
unfolding populate_build populate_job_graph
populate_defaults g = do
  build ← populate_build g.build
  jobs ← map_each (populate_job_graph build) g.jobs
  pure (record { build = build; jobs = jobs })

-- `StepDefinition`, `JobDefinition` and `BuildDefinition`, with the fields that are modelled.
pub record StepDefinition : Type 0 where
  pub name : Text
  pub commands : List Text
  pub depends : List Text

pub record JobDefinition : Type 0 where
  pub name : Text
  pub workflow : Text
  pub depends : List JobDependency
  pub services : List Service
  pub type : JobType
  pub runs_on : List Text
  pub docker_image : Text
  pub docker_pull : DockerPullStrategy
  pub fingerprint_commands : List Text
  pub artifact_definitions : List ArtifactDefinition
  pub environment : List Text
  pub steps : List StepDefinition

-- `LimitsConfig`
pub record LimitsConfig : Type 0 where
  pub max_build_config_length : ℕ
  pub max_jobs_per_build : ℕ
  pub max_steps_per_job : ℕ

-- `hashstructure.Hash` of a definition, printed in hexadecimal digits, and the parser, given the most
-- steps of a job, a configuration and its type; `none` is their error.
pub record Definitions : Type 0 where
  pub hash : JobDefinition → Option Text
  pub parse : ℕ → Text → Text → Option (List JobDefinition)

abbrev pub queued_timings : ℕ → WorkflowTimings
queued_timings now = record {
  queued_at = some now;
  submitted_at = none;
  running_at = none;
  finished_at = none;
  canceled_at = none;
}

-- The bodies of the loops of `makeJobGraphs`.
unfoldable pub make_step : Build → StepDefinition → M Step
make_step build s = do
  id ← new_id
  db ← get_db
  pure (record {
    id = id;
    created_at = db.now;
    updated_at = 0;
    etag = unset;
    name = s.name;
    commands = s.commands;
    depends = s.depends;
    job_id = 0;
    repo_id = build.repo_id;
    runner_id = 0;
    log_descriptor_id = 0;
    status = queued;
    error = none;
    timings = queued_timings db.now;
  })

unfoldable pub make_job : Build → JobDefinition → Text → M Job
make_job build d hash = do
  id ← new_id
  db ← get_db
  pure (record {
    id = id;
    created_at = db.now;
    updated_at = db.now;
    etag = unset;
    name = d.name;
    workflow = d.workflow;
    depends = d.depends;
    services = d.services;
    type = d.type;
    runs_on = d.runs_on;
    docker_image = d.docker_image;
    docker_pull = d.docker_pull;
    artifact_definitions = d.artifact_definitions;
    environment = d.environment;
    fingerprint_commands = d.fingerprint_commands;
    build_id = build.id;
    repo_id = build.repo_id;
    commit_id = build.commit_id;
    log_descriptor_id = 0;
    runner_id = 0;
    indirect_to_job_id = 0;
    ref = build.ref;
    status = queued;
    error = none;
    timings = queued_timings db.now;
    fingerprint = [];
    fingerprint_hash_type = none;
    definition_data_hash_type = codes "FNV";
    definition_data_hash = hash;
  })

module _ (defs : Definitions) where
  unfoldable pub make_job_graph : Build → JobDefinition → M JobGraph
  unfolding make_step make_job map_each
  make_job_graph build d = do
    hash ← found_or external (defs.hash d)
    steps ← map_each (make_step build) d.steps
    job ← make_job build d hash
    pure (record { job = job; steps = steps })

  unfoldable pub make_job_graphs : Build → List JobDefinition → M (List JobGraph)
  unfolding make_job_graph map_each
  make_job_graphs build = map_each (make_job_graph build)

  unfoldable pub append_job_graphs : LimitsConfig → BuildGraph → List JobDefinition → M BuildGraph
  unfolding make_job_graphs
  append_job_graphs limits g jobs = do
    guard (leb (length g.jobs + length jobs) limits.max_jobs_per_build) validation_failed
    new ← make_job_graphs g.build jobs
    pure (record g { jobs = g.jobs ++ new })

  -- The part of `makeNewBuildGraph` that deals with options.
  unfoldable pub apply_options : DagLib → Option BuildOptions → BuildGraph → M BuildGraph
  unfolding trim_build
  apply_options lib none g = pure g
  apply_options lib (some opts) g =
      let g' = record g { build = record (g.build) { opts = opts } } in
      if leb 1 (length opts.nodes_to_run) && all (λ q. not (is_empty q.job_name)) opts.nodes_to_run
      then found_or invalid (trim_build lib opts.nodes_to_run g')
      else pure g'

  unfoldable pub new_build : ℕ → ℕ → Text → M Build
  new_build repo commit ref = do
    db ← get_db
    id ← new_id
    pure (record {
      id = id;
      name = 0;
      repo_id = repo;
      created_at = db.now;
      updated_at = 0;
      etag = unset;
      commit_id = commit;
      log_descriptor_id = 0;
      ref = ref;
      status = queued;
      timings = queued_timings db.now;
      error = none;
      opts = record { force = false; nodes_to_run = [] };
    })

  unfoldable pub make_new_build_graph :
      DagLib → LimitsConfig → ℕ → ℕ → List JobDefinition → Text → Option BuildOptions → M BuildGraph
  unfolding new_build append_job_graphs apply_options populate_defaults
  make_new_build_graph lib limits repo commit jobs ref opts = do
    build ← new_build repo commit ref
    g ← append_job_graphs limits (record { build = build; jobs = [] }) jobs
    g' ← populate_defaults g
    g'' ← apply_options lib opts g'
    guard (build_graph_valid lib g'') validation_failed
    pure g''
