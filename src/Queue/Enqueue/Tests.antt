-- ===== src/Queue/Enqueue/Tests.antt =====
-- The theorems about enqueueing at a concrete database, and runs of the operations.
use buildbeaver.Base.{
  length, All, ℕ, zero, suc, ◌≤◌, ◌≡◌, refl, true, none, some, List, [], ◌∷◌, map,
}
use mathlib.Core.List.Memᴰ
use buildbeaver.Models.{
  codes, is_empty, queued, status_valid, has_finished, status_eq, name_char, matches_name,
  name_valid, fqn_eq, etag_eq, exec, pull_default, job_type_valid, distinct, job_fqn_dependencies,
  docker_valid, submitted_has_runner, job_valid, is_blank, step_valid, build_valid,
}
use buildbeaver.Graph.{
  Vertex, DagLib, vertex_by_name, connect_all, at_vertex, walk, JobGraph, job_node, is_some,
  job_dependencies_exist, build_graph_valid,
}
use buildbeaver.Queue.{find_row, put_row, select, ok, OnOk}
use buildbeaver.Queue.Services.{
  read_build, list_by_build_id, seal_log, tag_matches, update_job_row, update_step_row,
  update_build_row, publish_event, notify_scm_build_updated,
}
use buildbeaver.Queue.Enqueue.{
  new_log_descriptor, increment_build_counter, create_queued_build, create_queued_job,
  create_queued_step, runner_compatible_with_job, fail_if_incompatible, enqueue_new, enqueue_each,
  enqueue_build,
}
use buildbeaver.Queue.Enqueue.Graphs.{
  new_id, JobDefinition, LimitsConfig, Definitions, make_new_build_graph,
}
use buildbeaver.Queue.Enqueue.Operations.{
  enqueue_build_from_definition, enqueue_build_from_commit, add_jobs_to_build,
}
use buildbeaver.Graph.Validation.{connect_all-job_dependencies_exist}
use buildbeaver.Queue.Enqueue.Compatible.{ready_for-fail_if_incompatible}
use buildbeaver.Queue.Enqueue.Outcomes.{Present, enqueue_each-idempotent}
use buildbeaver.Queue.Enqueue.Limits.{add_jobs_to_build-length}
use buildbeaver.Queue.Samples.{env, job, build, agent, db, is_ok}
use buildbeaver.Queue.Updates.{
  enter_status, update_build, update_job, update_step, tally_jobs, next_build_status,
  maintain_unfinished, maintain_build_status,
}
use buildbeaver.Queue.Selection.{job_type_eq, labels_suffice, same_owner, ready_for}
use buildbeaver.Queue.Dependencies.{update_deferred_dependencies, create_job_row, create_job}

-- A library that accepts every graph, and walks in the order of the vertices.
abbrev vertices : ℕ → ℕ → List Vertex
vertices i zero = []
vertices i (suc n) = some i ∷ vertices (suc i) n

abbrev lib : DagLib
lib = record {
  validate = λ n es. true;
  walk = λ n es. vertices 0 n;
  descendents = λ n es v. some [];
  set_list = λ vs. vs;
}

abbrev lint : JobDefinition
lint = record {
  name = codes "lint";
  workflow = [];
  depends = [];
  services = [];
  type = exec;
  runs_on = [];
  docker_image = [];
  docker_pull = pull_default;
  fingerprint_commands = [];
  artifact_definitions = [];
  environment = [];
  steps = record { name = codes "run"; commands = codes "make" ∷ []; depends = [] } ∷ [];
}

abbrev defs : Definitions
defs = record {
  hash = λ d. some (codes "0f");
  parse = λ limit config config_type. some (lint ∷ []);
}

abbrev limits : LimitsConfig
limits = record { max_build_config_length = 100; max_jobs_per_build = 3; max_steps_per_job = 5 }

abbrev new_graph : JobGraph
new_graph = record { job = record (job 3 30 queued) { name = codes "lint" }; steps = [] }

-- A new build is made from a definition.
enqueues :
    is_ok (enqueue_build_from_definition env lib defs limits 1 1 (lint ∷ []) (codes "main") none db)
    ≡ true
unfolding enqueue_build_from_definition make_new_build_graph new_id build_graph_valid build_valid
    is_empty status_valid step_valid name_valid job_valid matches_name name_char is_blank
    job_type_valid docker_valid submitted_has_runner distinct vertex_by_name fqn_eq update_build
    notify_scm_build_updated find_row job_fqn_dependencies enqueue_build create_queued_build
    increment_build_counter enter_status update_build_row tag_matches etag_eq publish_event
    runner_compatible_with_job same_owner walk at_vertex enqueue_new create_queued_job create_job
    create_job_row update_deferred_dependencies update_job update_job_row create_queued_step
    update_step update_step_row maintain_build_status read_build put_row has_finished
    maintain_unfinished list_by_build_id next_build_status tally_jobs select status_eq
enqueues = refl

-- Of a definition that makes too many jobs, a failed build is made.
fails_build :
    is_ok (
      enqueue_build_from_commit env lib defs
        (record limits { max_jobs_per_build = 0 })
        (record { id = 1; repo_id = 1; config = codes "jobs"; config_type = codes "yaml" })
        (codes "main")
        none
        db)
    ≡ true
unfolding enqueue_build_from_commit make_new_build_graph new_id create_queued_build build_valid
    is_empty status_valid increment_build_counter find_row update_build notify_scm_build_updated
    enter_status seal_log new_log_descriptor update_build_row tag_matches etag_eq publish_event
fails_build = refl

ready_for-fail_if_incompatible_example : fail_if_incompatible db new_graph ≡ new_graph
unfolding ready_for same_owner find_row status_eq job_type_eq labels_suffice distinct
ready_for-fail_if_incompatible_example =
    ready_for-fail_if_incompatible db agent new_graph (Memᴰ.head refl) refl refl refl refl

enqueue_each-idempotent_example : OnOk (enqueue_each env lib build (new_graph ∷ []) db) λ _ d.
    All (Present d.jobs) (new_graph ∷ [])
    × (enqueue_each env lib build (new_graph ∷ []) d ≡ ok ([], d))
enqueue_each-idempotent_example = enqueue_each-idempotent env lib build (new_graph ∷ []) db

add_jobs_to_build-length_example :
    OnOk
      (add_jobs_to_build env lib defs limits 1 (lint ∷ []) db)
      λ r _. (1 ≤ length r.0.jobs) × (length r.0.jobs ≤ 3)
add_jobs_to_build-length_example = add_jobs_to_build-length env lib defs limits 1 (lint ∷ []) db

connect_all-job_dependencies_exist_example :
    is_some (connect_all (map job_node (new_graph ∷ [])) (map job_node (new_graph ∷ [])))
    ≡ job_dependencies_exist (new_graph ∷ [])
connect_all-job_dependencies_exist_example = connect_all-job_dependencies_exist (new_graph ∷ [])
