-- ===== src/Parser/Tests.antt =====
-- Build definitions at concrete texts.
use mathlib.Core.Option
use buildbeaver.Base.{OnSome, All, ◌≡◌, refl, none, some, List, [], ◌∷◌, ◌++◌, map}
use buildbeaver.Models.{Text, codes}
use buildbeaver.Parser.Raw.{text, array, no_items, item}
use buildbeaver.Parser.Patterns.{
  is_name, job_name_parts, one_artifact_parts, all_artifacts_parts, job_parts,
  all_artifacts_short_parts, find_submatch,
}
use buildbeaver.Parser.References.{
  job_only, with_artifact, parse_reference, parse_job_dependencies, workflow_dependency_from_string,
}
use buildbeaver.Parser.Jobs.{JobData}
use buildbeaver.Parser.Versions.{
  Yaml, scalar, sequence, mapping, no_nodes, node, no_pairs, pair, Readers, parse,
}
use buildbeaver.Parser.Agreement.{fqn_of_reference, workflow_dependency-parse_reference}
use buildbeaver.Parser.FullSyntax.{the_job, wanted_parts, parse_reference-full}
use buildbeaver.Parser.Accepted.{Accepted, parse-Accepted}

-- Against the comment in parser.go, this is the job `jobs` with all its artifacts, and not the job
-- `artifacts` in the full syntax.
jobs_artifacts :
    parse_reference (codes "jobs.artifacts") ≡ some (with_artifact [] ([], codes "jobs"))
unfolding parse_reference one_artifact_parts all_artifacts_parts all_artifacts_short_parts job_parts
    job_name_parts
jobs_artifacts = refl

-- Only the line that has the form of a name is read.
second_line :
    find_submatch job_name_parts (codes "no name!" ++ (10 ∷ codes "lint.go"))
    ≡ some (codes "lint", codes "go")
unfolding find_submatch job_name_parts
second_line = refl

abbrev one_step : Text → Yaml
one_step name =
    mapping
      (pair (codes "name") (scalar name) (pair (codes "commands") (scalar (codes "make")) no_pairs))

-- A job with two steps.
abbrev document : Yaml
document = mapping (
    pair (codes "version") (scalar (codes "0.3")) (
      pair (codes "jobs")
        (sequence (
          node
            (mapping (
              pair (codes "name") (scalar (codes "ci.test")) (
                pair (codes "depends") (scalar (codes "build.artifacts")) (
                  pair (codes "steps")
                    (sequence (node (one_step (codes "a")) (node (one_step (codes "b")) no_nodes)))
                    no_pairs))))
            no_nodes))
        no_pairs))

abbrev readers : Readers
readers = record { yaml = λ t. some document; json = λ t. none; jsonnet = λ t. none }

abbrev step_deps : JobData → List (Text × List Text)
step_deps j = map (λ s. (s.name, s.depends)) j.steps

parsed :
    Option.map (map step_deps) (parse readers 20 [] (codes "yaml"))
    ≡ some (((codes "a", []) ∷ (codes "b", codes "a" ∷ []) ∷ []) ∷ [])
unfolding parse job_name_parts one_artifact_parts all_artifacts_parts all_artifacts_short_parts
parsed = refl

parse-Accepted_example : OnSome (parse readers 20 [] (codes "yaml")) (All (Accepted 20))
parse-Accepted_example = parse-Accepted readers 20 [] (codes "yaml")

workflow_dependency-parse_reference_example :
    workflow_dependency_from_string (codes "ci.test.artifacts")
    ≡ fqn_of_reference (parse_reference (codes "ci.test.artifacts"))
workflow_dependency-parse_reference_example =
    workflow_dependency-parse_reference (codes "ci.test.artifacts")

parse_reference-full_example :
    parse_reference (codes "workflow.ci.jobs.artifacts")
    ≡ some (job_only (codes "ci", codes "artifacts"))
unfolding wanted_parts is_name
parse_reference-full_example =
    parse_reference-full (codes "ci") (codes "artifacts") the_job refl refl tt

-- The second of two dependencies on jobs of one name is not recorded, but for its artifacts.
one_of_a_name :
    parse_job_dependencies (array (item (text (codes "a.x")) (item (text (codes "b.x")) no_items)))
    ≡ some (job_only (codes "a", codes "x") ∷ [])
unfolding parse_job_dependencies parse_reference one_artifact_parts all_artifacts_parts
    all_artifacts_short_parts job_parts job_name_parts
one_of_a_name = refl
