-- ===== src/Parser/References.antt =====
-- The dependencies of a job: `parseJobDependencies` of parser_v0.3.go, and
-- `WorkflowDependencyFromString` of parser.go.
use buildbeaver.Base.{if◌then◌else◌, Option, none, some, List, [], ◌∷◌, ◌++◌}
use buildbeaver.Models.{Text, text_eq, NodeFqn, new_node_fqn_for_job}
use mathlib.Core.Option
use buildbeaver.Parser.Raw.{Raw, text, array, elements, as_text, ◌>>=◌}
use buildbeaver.Parser.Patterns.{
  Captured, job_name_parts, one_artifact_parts, all_artifacts_parts, job_parts,
  all_artifacts_short_parts, find_submatch,
}

pub record ArtifactDependency : Type 0 where
  pub workflow : Text
  pub job_name : Text
  pub group_name : Text

-- A `JobDependency` with its artifacts.
pub record Reference : Type 0 where
  pub workflow : Text
  pub job_name : Text
  pub artifacts : List ArtifactDependency

abbrev pub job_only : Captured → Reference
job_only (w, j) = record { workflow = w; job_name = j; artifacts = [] }

abbrev pub with_artifact : Text → Captured → Reference
with_artifact a (w, j) = record {
  workflow = w;
  job_name = j;
  artifacts = record { workflow = w; job_name = j; group_name = a } ∷ [];
}

infixr 20 ◌else_try◌
abbrev pub ◌else_try◌ {ℓ} : {A : Type ℓ} → Option A → Option A → Option A
some a else_try o = some a
none else_try o = o

-- The body of the loop of `parseJobDependencies`.
unfoldable pub parse_reference : Text → Option Reference
unfolding find_submatch
parse_reference s =
    Option.map (λ (c, a). with_artifact a c) (find_submatch one_artifact_parts s)
    else_try Option.map (with_artifact []) (find_submatch all_artifacts_parts s)
    else_try Option.map (with_artifact []) (find_submatch all_artifacts_short_parts s)
    else_try Option.map job_only (find_submatch job_parts s)
    else_try Option.map job_only (find_submatch job_name_parts s)

-- `recordJobDependency`, on the map by the name of the job.
unfoldable pub record_job_dependency : Reference → List Reference → List Reference
record_job_dependency r [] = r ∷ []
record_job_dependency r (d ∷ ds) =
    let rest = record_job_dependency r ds in
    if text_eq d.job_name r.job_name
    then record d { artifacts = d.artifacts ++ r.artifacts } ∷ ds
    else d ∷ rest

unfoldable pub record_all : List Raw → List Reference → Option (List Reference)
unfolding parse_reference record_job_dependency as_text
record_all [] ds = some ds
record_all (raw ∷ raws) ds = do
  s ← as_text raw
  r ← parse_reference s
  record_all raws (record_job_dependency r ds)

-- A text stands for the list of it.
unfoldable pub text_or_array : Raw → Option (List Raw)
unfolding elements
text_or_array (text s) = some (text s ∷ [])
text_or_array (array rs) = some (elements rs)
text_or_array _ = none

unfoldable pub parse_job_dependencies : Raw → Option (List Reference)
unfolding record_all text_or_array
parse_job_dependencies raw = do raws ← text_or_array raw; record_all raws []

abbrev pub fqn_of : Captured → NodeFqn
fqn_of (w, j) = new_node_fqn_for_job w j

-- `WorkflowDependencyFromString`
unfoldable pub workflow_dependency_from_string : Text → NodeFqn
unfolding find_submatch
workflow_dependency_from_string s = elim (find_submatch one_artifact_parts s) [
  | some (c, a) ↦ fqn_of c
  | none ↦ elim (find_submatch all_artifacts_parts s) [
    | some c ↦ fqn_of c
    | none ↦ elim (find_submatch all_artifacts_short_parts s) [
      | some c ↦ fqn_of c
      | none ↦ elim (find_submatch job_parts s) [
        | some c ↦ fqn_of c
        | none ↦ elim (find_submatch job_name_parts s) [
          | some c ↦ fqn_of c
          | none ↦ new_node_fqn_for_job [] []
        ]
      ]
    ]
  ]
]
