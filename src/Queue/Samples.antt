-- ===== src/Queue/Samples.antt =====
-- A small database: a build with two jobs, their logs, and a runner.
use buildbeaver.Base.{ℕ, Bool, true, false, none, some, [], ◌∷◌}
use buildbeaver.Models.{
  codes, WorkflowStatus, queued, submitted, running, tag, WorkflowTimings, exec, pull_default, Job,
  Build,
}
use buildbeaver.Queue.{LogDescriptor, Runner, Db, Result, ok, err}
use buildbeaver.Queue.Services.{Env}

-- A hash that tells the statuses apart.
abbrev pub hash_status : WorkflowStatus → ℕ
hash_status queued = 1
hash_status submitted = 2
hash_status running = 3
hash_status _ = 4

abbrev pub env : Env
env = record {
  job_hash = λ j. hash_status j.status;
  step_hash = λ s. hash_status s.status;
  build_hash = λ b. hash_status b.status;
  create_identity_jwt = λ id. some (codes "token");
}

abbrev pub no_timings : WorkflowTimings
no_timings = record {
  queued_at = none;
  submitted_at = none;
  running_at = none;
  finished_at = none;
  canceled_at = none;
}

abbrev pub job : ℕ → ℕ → WorkflowStatus → Job
job id created_at status = record {
  id = id;
  created_at = created_at;
  updated_at = created_at;
  etag = tag 1;
  name = codes "test";
  workflow = [];
  depends = [];
  services = [];
  type = exec;
  runs_on = [];
  docker_image = [];
  docker_pull = pull_default;
  artifact_definitions = [];
  environment = [];
  fingerprint_commands = [];
  build_id = 1;
  repo_id = 1;
  commit_id = 1;
  log_descriptor_id = id;
  runner_id = 0;
  indirect_to_job_id = 0;
  ref = codes "main";
  status = status;
  error = none;
  timings = no_timings;
  fingerprint = [];
  fingerprint_hash_type = none;
  definition_data_hash_type = [];
  definition_data_hash = [];
}

abbrev pub build : Build
build = record {
  id = 1;
  name = 1;
  repo_id = 1;
  created_at = 5;
  updated_at = 5;
  etag = tag 1;
  commit_id = 1;
  log_descriptor_id = 9;
  ref = codes "main";
  status = running;
  timings = no_timings;
  error = none;
  opts = record { force = false; nodes_to_run = [] };
}

abbrev pub log : ℕ → Bool → LogDescriptor
log id sealed = record {
  id = id;
  parent_log_id = 0;
  resource_id = id;
  sealed = sealed;
  size_bytes = 0;
}

abbrev pub agent : Runner
agent = record {
  id = 4;
  legal_entity_id = 6;
  supported_job_types = exec ∷ [];
  labels = [];
  enabled = true;
  deleted_at = none;
}

abbrev pub db : Db
db = record {
  now = 50;
  next_id = 100;
  builds = build ∷ [];
  jobs = job 1 20 queued ∷ job 2 10 queued ∷ [];
  steps = [];
  logs = log 1 false ∷ log 2 false ∷ log 9 false ∷ [];
  dependencies = [];
  identities = [];
  events = [];
  runners = agent ∷ [];
  repos = record { id = 1; legal_entity_id = 6; has_external_id = false; build_counter = 6 } ∷ [];
  commits = 1 ∷ [];
  scm_notified = [];
  list_blobs = λ id. some (20 ∷ 30 ∷ []);
}

abbrev pub is_ok : {A : Type 0} → Result (A × Db) → Bool
is_ok (ok r) = true
is_ok (err e) = false
