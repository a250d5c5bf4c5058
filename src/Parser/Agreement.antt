-- ===== src/Parser/Agreement.antt =====
-- The two readings of a dependency: by `parseJobDependencies` and by `WorkflowDependencyFromString`.
use mathlib.Core.Option
use buildbeaver.Base.{◌≡◌, refl, Option, none, some, []}
use buildbeaver.Models.{Text, NodeFqn, new_node_fqn_for_job}
use buildbeaver.Parser.Patterns.{
  Captured, job_name_parts, one_artifact_parts, all_artifacts_parts, job_parts,
  all_artifacts_short_parts, find_submatch,
}
use buildbeaver.Parser.References.{
  Reference, job_only, with_artifact, ◌else_try◌, parse_reference, fqn_of,
  workflow_dependency_from_string,
}

abbrev pub fqn_of_reference : Option Reference → NodeFqn
fqn_of_reference none = new_node_fqn_for_job [] []
fqn_of_reference (some r) = new_node_fqn_for_job r.workflow r.job_name

-- The name that `WorkflowDependencyFromString` gives a dependency is that of the workflow and the job of
-- the dependency that `parseJobDependencies` makes of it, and the empty name if it makes none.
pub workflow_dependency-parse_reference :
    (s : Text) → workflow_dependency_from_string s ≡ fqn_of_reference (parse_reference s)
unfolding workflow_dependency_from_string parse_reference
workflow_dependency-parse_reference s =
    readings (find_submatch one_artifact_parts s) (find_submatch all_artifacts_parts s)
      (find_submatch all_artifacts_short_parts s) (find_submatch job_parts s)
      (find_submatch job_name_parts s)
  where
    readings :
        (o : Option (Captured × Text)) (a b c d : Option Captured)
        → elim o as (λ _. NodeFqn) [
          | some (x, y) ↦ fqn_of x
          | none ↦ elim a as (λ _. NodeFqn) [
            | some x ↦ fqn_of x
            | none ↦ elim b as (λ _. NodeFqn) [
              | some x ↦ fqn_of x
              | none ↦ elim c as (λ _. NodeFqn) [
                | some x ↦ fqn_of x
                | none ↦ elim d as (λ _. NodeFqn) [
                  | some x ↦ fqn_of x
                  | none ↦ new_node_fqn_for_job [] []
                ]
              ]
            ]
          ]
        ]
          ≡ fqn_of_reference (
              Option.map (λ (x, y). with_artifact y x) o
              else_try Option.map (with_artifact []) a
              else_try Option.map (with_artifact []) b
              else_try Option.map job_only c
              else_try Option.map job_only d)
    readings (some x) a b c d = refl
    readings none (some x) b c d = refl
    readings none none (some x) c d = refl
    readings none none none (some x) d = refl
    readings none none none none (some x) = refl
    readings none none none none none = refl
