-- ===== src/Parser/Jobs.antt =====
-- Jobs and steps: `Parse`, `parseJobs`, `parseJob` and `parseStep` of parser_v0.3.go.
use mathlib.Core.Option
use buildbeaver.Base.{
  ltb, if◌then◌else◌, length, any, ℕ, Bool, true, false, not, ◌&&◌, ◌||◌, Option, none, some, List,
  [], ◌∷◌, ◌++◌,
}
use buildbeaver.Models.{
  Text, codes, text_eq, is_empty, ArtifactDefinition, JobType, docker, exec, other_type,
  DockerPullStrategy, pull_default, pull_never, pull_always, pull_if_not_exists, other_pull,
}
use buildbeaver.Parser.Raw.{
  Raw, nil_value, text, Object, as_text, as_array, as_object, field, if_set, each, ◌>>=◌, ◌>>◌,
  require,
}
use buildbeaver.Parser.Patterns.{lower, job_name_parts, find_submatch}
use buildbeaver.Parser.References.{Reference, text_or_array, parse_job_dependencies}
use buildbeaver.Parser.Fields.{
  JobEnvVar, RegistryAuth, JobService, parse_docker_auth_or_nil, parse_environment, parse_artifacts,
  parse_service, parse_runs_on, parse_fingerprint, parse_step_commands,
}

pub data StepExecution : Type 0 where
  sequential parallel : StepExecution

-- `StepDefinitionData` and `JobDefinitionData`
pub record StepData : Type 0 where
  pub name : Text
  pub description : Text
  pub commands : List Text
  pub depends : List Text

pub record JobData : Type 0 where
  pub name : Text
  pub workflow : Text
  pub description : Text
  pub depends : List Reference
  pub services : List JobService
  pub type : JobType
  pub runs_on : List Text
  pub docker_image : Text
  pub docker_pull : DockerPullStrategy
  pub docker_auth : Option RegistryAuth
  pub docker_shell : Option Text
  pub step_execution : StepExecution
  pub fingerprint_commands : List Text
  pub artifact_definitions : List ArtifactDefinition
  pub environment : List JobEnvVar
  pub steps : List StepData

-- The switches of `Scan`, over the lower case of a text.
unfoldable pub step_execution_of : Text → Option StepExecution
step_execution_of t =
    if is_empty t || text_eq t (codes "sequential")
    then some sequential
    else if text_eq t (codes "parallel")
    then some parallel
    else none

unfoldable pub job_type_of : Text → Option JobType
job_type_of t =
    if is_empty t || text_eq t (codes "docker")
    then some docker
    else if text_eq t (codes "exec")
    then some exec
    else none

unfoldable pub pull_of : Text → Option DockerPullStrategy
pull_of t =
    if is_empty t || text_eq t (codes "default")
    then some pull_default
    else if text_eq t (codes "never")
    then some pull_never
    else if text_eq t (codes "always")
    then some pull_always
    else if text_eq t (codes "if-not-exists")
    then some pull_if_not_exists
    else none

-- `Scan` of a decoded value: nil, a text, or what is refused.
unfoldable pub scan_step_execution : Raw → Option StepExecution
unfolding step_execution_of lower is_empty text_eq
scan_step_execution nil_value = some sequential
scan_step_execution (text s) = step_execution_of (lower s)
scan_step_execution _ = none

unfoldable pub scan_job_type : Raw → Option JobType
unfolding job_type_of lower is_empty text_eq
scan_job_type nil_value = some docker
scan_job_type (text s) = job_type_of (lower s)
scan_job_type _ = none

unfoldable pub scan_pull : Raw → Option DockerPullStrategy
unfolding pull_of lower is_empty text_eq
scan_pull nil_value = some pull_default
scan_pull (text s) = pull_of (lower s)
scan_pull _ = none

-- A read of a map without a test: nil if the key is not there.
abbrev pub or_nil : Option Raw → Raw
or_nil none = nil_value
or_nil (some r) = r

unfoldable pub parse_job_name : Raw → Option (Text × Text)
unfolding as_text find_submatch
parse_job_name raw = do s ← as_text raw; find_submatch job_name_parts s

-- The field `workflow`, after the workflow of the name.
unfoldable pub parse_workflow : Text → Raw → Option Text
unfolding as_text is_empty
parse_workflow workflow raw = do
  w ← as_text raw
  require (not (not (is_empty workflow) && not (is_empty w)))
  some w

-- What the field `docker` sets.
pub record DockerData : Type 0 where
  pub type : JobType
  pub shell : Option Text
  pub image : Text
  pub pull : DockerPullStrategy
  pub auth : Option RegistryAuth

abbrev pub no_docker : JobType → DockerData
no_docker type = record { type = type; shell = none; image = []; pull = other_pull; auth = none }

-- Whether a job with a field `docker` may have the type.
unfoldable pub allows_docker : JobType → Bool
allows_docker exec = false
allows_docker _ = true

unfoldable pub parse_docker : JobType → Raw → Option DockerData
unfolding allows_docker as_object as_text field scan_pull parse_docker_auth_or_nil
parse_docker type raw = do
  require (allows_docker type)
  config ← as_object raw
  shell ← if_set (field (codes "shell") config) none (λ r. Option.map some (as_text r))
  image ← if_set (field (codes "image") config) [] as_text
  pull ← scan_pull (or_nil (field (codes "pull") config))
  auth ← parse_docker_auth_or_nil config
  some (record { type = docker; shell = shell; image = image; pull = pull; auth = auth })

unfoldable pub parse_services : Raw → Option (List JobService)
unfolding as_array each parse_service
parse_services raw = do values ← as_array raw; each parse_service values

-- The name of the last step, on which a step of a sequential job depends.
unfoldable pub last_name : List StepData → List Text
last_name [] = []
last_name (s ∷ []) = s.name ∷ []
last_name (s ∷ t ∷ ss) = last_name (t ∷ ss)

unfoldable pub add_name : Text → List Text → List Text
add_name s names = if any (text_eq s) names then names else names ++ (s ∷ [])

unfoldable pub step_names : List Raw → List Text → Option (List Text)
unfolding as_text add_name text_eq
step_names [] names = some names
step_names (r ∷ rs) names = do s ← as_text r; step_names rs (add_name s names)

-- The list in the field `depends` of a step.
unfoldable pub step_depends : Object → Option (List Raw)
unfolding field text_or_array
step_depends raw = if_set (field (codes "depends") raw) [] text_or_array

unfoldable pub dependencies_by : StepExecution → List StepData → List Raw → Option (List Text)
unfolding last_name step_names
dependencies_by sequential steps [] = some (last_name steps)
dependencies_by sequential steps (r ∷ rs) = none
dependencies_by parallel steps raws = step_names raws []

-- `parseStepDependencies`
unfoldable pub parse_step_dependencies : StepExecution → List StepData → Object → Option (List Text)
unfolding step_depends dependencies_by
parse_step_dependencies execution steps raw = do
  raws ← step_depends raw
  dependencies_by execution steps raws

unfoldable pub parse_step : StepExecution → List StepData → Object → Option StepData
unfolding as_text field parse_step_commands parse_step_dependencies
parse_step execution steps raw = do
  name ← if_set (field (codes "name") raw) [] as_text
  description ← if_set (field (codes "description") raw) [] as_text
  commands ← if_set (field (codes "commands") raw) [] parse_step_commands
  depends ← parse_step_dependencies execution steps raw
  some (record { name = name; description = description; commands = commands; depends = depends })

-- `MaxStepsPerJob`, where 0 is no limit.
unfoldable pub within_limit : ℕ → ℕ → Bool
within_limit limit n = not (ltb 0 limit && ltb limit n)

-- The loop over the steps of a job.
unfoldable pub parse_steps : ℕ → StepExecution → List StepData → List Raw → Option (List StepData)
unfolding as_object parse_step within_limit
parse_steps limit execution steps [] = some steps
parse_steps limit execution steps (r ∷ rs) = do
  element ← as_object r
  step ← parse_step execution steps element
  require (within_limit limit (length (steps ++ (step ∷ []))))
  parse_steps limit execution (steps ++ (step ∷ [])) rs

unfoldable pub parse_steps_field : ℕ → StepExecution → Raw → Option (List StepData)
unfolding as_array parse_steps
parse_steps_field limit execution raw = do
  values ← as_array raw
  parse_steps limit execution [] values

unfoldable pub parse_job : ℕ → Object → Option JobData
unfolding parse_job_name parse_workflow as_text parse_runs_on parse_job_dependencies scan_job_type
    parse_docker scan_step_execution parse_services parse_fingerprint parse_artifacts
    parse_environment parse_steps_field field
parse_job limit raw = do
  full_name ← if_set (field (codes "name") raw) ([], []) parse_job_name
  workflow ← if_set (field (codes "workflow") raw) full_name.0 (parse_workflow full_name.0)
  description ← if_set (field (codes "description") raw) [] as_text
  runs_on ← if_set (field (codes "runs_on") raw) [] parse_runs_on
  depends ← if_set (field (codes "depends") raw) [] parse_job_dependencies
  type ← if_set (field (codes "type") raw) other_type scan_job_type
  d ← if_set (field (codes "docker") raw) (no_docker type) (parse_docker type)
  execution ← scan_step_execution (or_nil (field (codes "step_execution") raw))
  services ← if_set (field (codes "services") raw) [] parse_services
  fingerprint ← if_set (field (codes "fingerprint") raw) [] parse_fingerprint
  artifacts ← if_set (field (codes "artifacts") raw) [] parse_artifacts
  environment ← if_set (field (codes "environment") raw) [] parse_environment
  steps ← if_set (field (codes "steps") raw) [] (parse_steps_field limit execution)
  some (record {
    name = full_name.1;
    workflow = workflow;
    description = description;
    depends = depends;
    services = services;
    type = d.type;
    runs_on = runs_on;
    docker_image = d.image;
    docker_pull = d.pull;
    docker_auth = d.auth;
    docker_shell = d.shell;
    step_execution = execution;
    fingerprint_commands = fingerprint;
    artifact_definitions = artifacts;
    environment = environment;
    steps = steps;
  })

-- The kinds that a job may have.
unfoldable pub is_job_kind : Option Raw → Bool
unfolding text_eq
is_job_kind none = true
is_job_kind (some (text s)) = text_eq s (codes "pipeline") || text_eq s (codes "job")
is_job_kind (some _) = false

unfoldable pub parse_job_element : ℕ → Raw → Option JobData
unfolding as_object field is_job_kind parse_job
parse_job_element limit raw = do
  element ← as_object raw
  require (is_job_kind (field (codes "kind") element))
  parse_job limit element

-- `parseJobs`
unfoldable pub parse_jobs : ℕ → List Raw → Option (List JobData)
unfolding each parse_job_element
parse_jobs limit = each (parse_job_element limit)

-- `Parse`, for the most steps of a job.
unfoldable pub parse_v03 : ℕ → Object → Option (List JobData)
unfolding field as_array parse_jobs
parse_v03 limit element = do
  jobs ← field (codes "jobs") element
  values ← as_array jobs
  parse_jobs limit values
