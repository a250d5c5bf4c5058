-- ===== src/Parser/Version2.antt =====
-- Version 0.2 of build definitions: what parser_v0.2.go does otherwise than parser_v0.3.go. Jobs have
-- no workflows, and the variables of steps are added to those of the job.
use buildbeaver.Base.{length, ℕ, ◌&&◌, Option, none, some, List, [], ◌∷◌, ◌++◌}
use mathlib.Core.Option
use buildbeaver.Models.{Text, codes, other_type}
use buildbeaver.Parser.Raw.{
  Raw, Object, as_text, as_array, as_object, field, if_set, each, ◌>>=◌, ◌>>◌, require,
}
use buildbeaver.Parser.Patterns.{is_word, is_name, is_starred, only_if, find_submatch}
use buildbeaver.Parser.References.{
  Reference, job_only, with_artifact, ◌else_try◌, record_job_dependency, text_or_array,
}
use buildbeaver.Parser.Fields.{
  JobEnvVar, parse_environment, parse_artifacts, parse_runs_on, parse_fingerprint,
  parse_step_commands,
}
use buildbeaver.Parser.Jobs.{
  StepExecution, StepData, JobData, scan_step_execution, scan_job_type, or_nil, no_docker,
  parse_docker, parse_services, parse_step_dependencies, within_limit, is_job_kind,
}

-- `jobDependsOnOneArtifactFromJobRegex02` and the other four.
unfoldable pub one_artifact_parts_02 : List Text → Option (Text × Text)
unfolding is_name is_starred is_word
one_artifact_parts_02 (k ∷ j ∷ l ∷ a ∷ []) =
    only_if (is_word (codes "jobs") k && is_starred j && is_word (codes "artifacts") l && is_name a)
      (j, a)
one_artifact_parts_02 _ = none

unfoldable pub all_artifacts_parts_02 : List Text → Option Text
unfolding is_starred is_word
all_artifacts_parts_02 (k ∷ j ∷ l ∷ []) =
    only_if (is_word (codes "jobs") k && is_starred j && is_word (codes "artifacts") l) j
all_artifacts_parts_02 _ = none

unfoldable pub all_artifacts_short_parts_02 : List Text → Option Text
unfolding is_starred is_word
all_artifacts_short_parts_02 (j ∷ l ∷ []) =
    only_if (is_starred j && is_word (codes "artifacts") l) j
all_artifacts_short_parts_02 _ = none

unfoldable pub job_parts_02 : List Text → Option Text
unfolding is_starred is_word
job_parts_02 (k ∷ j ∷ []) = only_if (is_word (codes "jobs") k && is_starred j) j
job_parts_02 _ = none

unfoldable pub job_short_parts_02 : List Text → Option Text
unfolding is_starred
job_short_parts_02 (j ∷ []) = only_if (is_starred j) j
job_short_parts_02 _ = none

unfoldable pub parse_reference_02 : Text → Option Reference
unfolding find_submatch
parse_reference_02 s =
    Option.map (λ (j, a). with_artifact a ([], j)) (find_submatch one_artifact_parts_02 s)
    else_try Option.map (λ j. with_artifact [] ([], j)) (find_submatch all_artifacts_parts_02 s)
    else_try Option.map (λ j. with_artifact [] ([], j))
        (find_submatch all_artifacts_short_parts_02 s)
    else_try Option.map (λ j. job_only ([], j)) (find_submatch job_parts_02 s)
    else_try Option.map (λ j. job_only ([], j)) (find_submatch job_short_parts_02 s)

unfoldable pub record_all_02 : List Raw → List Reference → Option (List Reference)
unfolding parse_reference_02 record_job_dependency as_text
record_all_02 [] ds = some ds
record_all_02 (raw ∷ raws) ds = do
  s ← as_text raw
  r ← parse_reference_02 s
  record_all_02 raws (record_job_dependency r ds)

unfoldable pub parse_job_dependencies_02 : Raw → Option (List Reference)
unfolding record_all_02 text_or_array
parse_job_dependencies_02 raw = do raws ← text_or_array raw; record_all_02 raws []

-- `parseStep`, with the environment of the job.
unfoldable pub parse_step_02 :
    StepExecution → List StepData → List JobEnvVar → Object → Option (StepData × List JobEnvVar)
unfolding as_text field parse_step_commands parse_step_dependencies parse_environment
parse_step_02 execution steps env raw = do
  name ← if_set (field (codes "name") raw) [] as_text
  description ← if_set (field (codes "description") raw) [] as_text
  commands ← if_set (field (codes "commands") raw) [] parse_step_commands
  depends ← parse_step_dependencies execution steps raw
  vars ← if_set (field (codes "environment") raw) [] parse_environment
  some (
    record { name = name; description = description; commands = commands; depends = depends },
    env ++ vars,
  )

unfoldable pub parse_steps_02 :
    ℕ
    → StepExecution
    → List StepData
    → List JobEnvVar
    → List Raw
    → Option (List StepData × List JobEnvVar)
unfolding as_object parse_step_02 within_limit
parse_steps_02 limit execution steps env [] = some (steps, env)
parse_steps_02 limit execution steps env (r ∷ rs) = do
  element ← as_object r
  p ← parse_step_02 execution steps env element
  require (within_limit limit (length (steps ++ (p.0 ∷ []))))
  parse_steps_02 limit execution (steps ++ (p.0 ∷ [])) p.1 rs

-- What the field `steps` of a job sets.
abbrev pub StepsAndVars : Type 0
StepsAndVars = List StepData × List JobEnvVar

abbrev pub no_steps : StepsAndVars
no_steps = ([], [])

unfoldable pub parse_steps_field_02 : ℕ → StepExecution → Raw → Option StepsAndVars
unfolding as_array parse_steps_02
parse_steps_field_02 limit execution raw = do
  values ← as_array raw
  parse_steps_02 limit execution [] [] values

unfoldable pub parse_job_02 : ℕ → Object → Option JobData
unfolding as_text parse_runs_on parse_job_dependencies_02 scan_job_type parse_docker
    scan_step_execution parse_services parse_fingerprint parse_artifacts parse_steps_field_02 field
parse_job_02 limit raw = do
  name ← if_set (field (codes "name") raw) [] as_text
  description ← if_set (field (codes "description") raw) [] as_text
  runs_on ← if_set (field (codes "runs_on") raw) [] parse_runs_on
  depends ← if_set (field (codes "depends") raw) [] parse_job_dependencies_02
  type ← if_set (field (codes "type") raw) other_type scan_job_type
  d ← if_set (field (codes "docker") raw) (no_docker type) (parse_docker type)
  execution ← scan_step_execution (or_nil (field (codes "step_execution") raw))
  services ← if_set (field (codes "services") raw) [] parse_services
  fingerprint ← if_set (field (codes "fingerprint") raw) [] parse_fingerprint
  artifacts ← if_set (field (codes "artifacts") raw) [] parse_artifacts
  s ← if_set (field (codes "steps") raw) no_steps (parse_steps_field_02 limit execution)
  some (record {
    name = name;
    workflow = [];
    description = description;
    depends = depends;
    services = services;
    type = d.type;
    runs_on = runs_on;
    docker_image = d.image;
    docker_pull = d.pull;
    docker_auth = d.auth;
    docker_shell = d.shell;
    step_execution = execution;
    fingerprint_commands = fingerprint;
    artifact_definitions = artifacts;
    environment = s.1;
    steps = s.0;
  })

unfoldable pub parse_job_element_02 : ℕ → Raw → Option JobData
unfolding as_object field is_job_kind parse_job_02
parse_job_element_02 limit raw = do
  element ← as_object raw
  require (is_job_kind (field (codes "kind") element))
  parse_job_02 limit element

unfoldable pub parse_jobs_02 : ℕ → List Raw → Option (List JobData)
unfolding each parse_job_element_02
parse_jobs_02 limit = each (parse_job_element_02 limit)

unfoldable pub parse_v02 : ℕ → Object → Option (List JobData)
unfolding field as_array parse_jobs_02
parse_v02 limit element = do
  jobs ← field (codes "jobs") element
  values ← as_array jobs
  parse_jobs_02 limit values
