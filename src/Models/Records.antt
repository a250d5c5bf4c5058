-- ===== src/Models/Records.antt =====
-- The records that the database holds, and their validation:
-- backend/common/models/job.go, step.go, build.go and the types of their fields.
use buildbeaver.Base.{
  ltb, leb, ◌==◌, length, any, all, ℕ, Bool, true, false, not, ◌&&◌, ◌||◌, Option, List, [], ◌∷◌,
  map,
}
use buildbeaver.Models.Strings.{Text, text_eq, is_empty}
use buildbeaver.Models.Status.{WorkflowStatus, submitted, status_valid}
use buildbeaver.Models.Names.{
  resource_name_max_length, matches_name, name_valid, NodeFqn, new_node_fqn_for_job,
}

-- `ETag`: the empty string, `ETagAny`, or the hash of a row.
pub data ETag : Type 0 where
  unset any_tag : ETag
  tag : ℕ → ETag

-- `GetETag`: the caller's tag if it gave one, else the one that was read.
unfoldable pub get_etag : ETag → ETag → ETag
get_etag current unset = current
get_etag current given = given

-- Go's `==` on ETags.
unfoldable pub etag_eq : ETag → ETag → Bool
etag_eq unset unset = true
etag_eq any_tag any_tag = true
etag_eq (tag a) (tag b) = a == b
etag_eq _ _ = false

-- The errors that modelled code returns, under the codes of backend/common/gerror.
pub data Error : Type 0 where
  not_found validation_failed optimistic_lock_failed already_exists runner_disabled already_sealed :
      Error
  unsupported_status invalid mismatched_ids external : Error

-- `models.Error`, which holds a message. `jobs_failed n` stands for "n job(s) failed".
pub data ErrorInfo : Type 0 where
  message : Text → ErrorInfo
  jobs_failed : ℕ → ErrorInfo

pub record WorkflowTimings : Type 0 where
  pub queued_at : Option ℕ
  pub submitted_at : Option ℕ
  pub running_at : Option ℕ
  pub finished_at : Option ℕ
  pub canceled_at : Option ℕ

pub record JobDependency : Type 0 where
  pub workflow : Text
  pub job_name : Text

pub record Service : Type 0 where
  pub name : Text
  pub docker_image : Text

pub record ArtifactDefinition : Type 0 where
  pub group_name : Text
  pub paths : List Text

pub data JobType : Type 0 where
  docker exec other_type : JobType

-- `DockerPullStrategy`: one of the four constants, or another string.
pub data DockerPullStrategy : Type 0 where
  pull_default pull_never pull_always pull_if_not_exists other_pull : DockerPullStrategy

unfoldable pub job_type_valid : JobType → Bool
job_type_valid other_type = false
job_type_valid _ = true

unfoldable pub pull_valid : DockerPullStrategy → Bool
pull_valid other_pull = false
pull_valid _ = true

-- `JobDependency.Validate`
unfoldable pub dependency_valid : JobDependency → Bool
dependency_valid d = (is_empty d.workflow || name_valid d.workflow) && name_valid d.job_name

-- `Service.Validate`
unfoldable pub service_valid : Service → Bool
service_valid s =
    not (is_empty s.name)
    && matches_name s.name
    && leb (length s.name) resource_name_max_length
    && not (is_empty s.docker_image)

-- `filepath.IsAbs`, on Unix.
unfoldable pub is_abs : Text → Bool
is_abs [] = false
is_abs (c ∷ s) = c == b'/'

-- `ArtifactDefinition.Validate`
unfoldable pub artifact_valid : ArtifactDefinition → Bool
artifact_valid a =
    name_valid a.group_name && leb 1 (length a.paths) && all (λ p. not (is_abs p)) a.paths

-- No two texts of the list are equal.
unfoldable pub distinct : List Text → Bool
distinct [] = true
distinct (s ∷ ss) = not (any (text_eq s) ss) && distinct ss

-- A job. `deleted_at` is not modelled: nothing that is modelled here deletes a job softly.
pub record Job : Type 0 where
  pub id : ℕ
  pub created_at : ℕ
  pub updated_at : ℕ
  pub etag : ETag
  pub name : Text
  pub workflow : Text
  pub depends : List JobDependency
  pub services : List Service
  pub type : JobType
  pub runs_on : List Text
  pub docker_image : Text
  pub docker_pull : DockerPullStrategy
  pub artifact_definitions : List ArtifactDefinition
  pub environment : List Text
  pub fingerprint_commands : List Text
  pub build_id : ℕ
  pub repo_id : ℕ
  pub commit_id : ℕ
  pub log_descriptor_id : ℕ
  pub runner_id : ℕ
  pub indirect_to_job_id : ℕ
  pub ref : Text
  pub status : WorkflowStatus
  pub error : Option ErrorInfo
  pub timings : WorkflowTimings
  pub fingerprint : Text
  pub fingerprint_hash_type : Option Text
  pub definition_data_hash_type : Text
  pub definition_data_hash : Text

-- `Job.GetFQN` and `Job.GetFQNDependencies`
unfoldable pub job_fqn : Job → NodeFqn
unfolding new_node_fqn_for_job
job_fqn j = new_node_fqn_for_job j.workflow j.name

unfoldable pub dependency_fqn : JobDependency → NodeFqn
unfolding new_node_fqn_for_job
dependency_fqn d = new_node_fqn_for_job d.workflow d.job_name

unfoldable pub job_fqn_dependencies : Job → List NodeFqn
unfolding dependency_fqn
job_fqn_dependencies j = map dependency_fqn j.depends

-- `ResourceID.Valid` and `Time.IsZero`
abbrev pub is_set : ℕ → Bool
is_set n = ltb 0 n

unfoldable pub docker_valid : Job → Bool
docker_valid j = elim j.type [
  | docker ↦ not (is_empty j.docker_image) && pull_valid j.docker_pull
  | _ ↦ true
]

unfoldable pub submitted_has_runner : WorkflowStatus → ℕ → Bool
submitted_has_runner submitted runner = is_set runner
submitted_has_runner _ runner = true

-- `Job.Validate`
unfoldable pub job_valid : Job → Bool
unfolding docker_valid submitted_has_runner distinct dependency_valid service_valid artifact_valid
job_valid j =
    is_set j.id
    && is_set j.created_at
    && is_set j.updated_at
    && is_set j.build_id
    && is_set j.repo_id
    && is_set j.commit_id
    && not (is_empty j.ref)
    && name_valid j.name
    && (is_empty j.workflow || name_valid j.workflow)
    && job_type_valid j.type
    && docker_valid j
    && status_valid j.status
    && submitted_has_runner j.status j.runner_id
    && all name_valid j.runs_on
    && all dependency_valid j.depends
    && distinct (map (λ d. d.job_name) j.depends)
    && all service_valid j.services
    && distinct (map (λ s. s.name) j.services)
    && all artifact_valid j.artifact_definitions
    && distinct (map (λ a. a.group_name) j.artifact_definitions)
    && all (λ e. not (is_empty e)) j.environment

pub record Step : Type 0 where
  pub id : ℕ
  pub created_at : ℕ
  pub updated_at : ℕ
  pub etag : ETag
  pub name : Text
  pub commands : List Text
  pub depends : List Text
  pub job_id : ℕ
  pub repo_id : ℕ
  pub runner_id : ℕ
  pub log_descriptor_id : ℕ
  pub status : WorkflowStatus
  pub error : Option ErrorInfo
  pub timings : WorkflowTimings

-- `strings.Trim(command, " \n") == ""`
unfoldable pub is_blank : Text → Bool
is_blank = all (λ c. c == b' ' || c == 10)

-- `Step.Validate`
unfoldable pub step_valid : Step → Bool
unfolding is_blank
step_valid s =
    is_set s.id
    && is_set s.created_at
    && is_set s.updated_at
    && is_set s.repo_id
    && is_set s.job_id
    && name_valid s.name
    && status_valid s.status
    && leb 1 (length s.commands)
    && all (λ c. not (is_blank c)) s.commands

pub record BuildOptions : Type 0 where
  pub force : Bool
  pub nodes_to_run : List NodeFqn

pub record Build : Type 0 where
  pub id : ℕ
  pub name : ℕ
  pub repo_id : ℕ
  pub created_at : ℕ
  pub updated_at : ℕ
  pub etag : ETag
  pub commit_id : ℕ
  pub log_descriptor_id : ℕ
  pub ref : Text
  pub status : WorkflowStatus
  pub timings : WorkflowTimings
  pub error : Option ErrorInfo
  pub opts : BuildOptions

-- `Build.Validate`
unfoldable pub build_valid : Build → Bool
build_valid b =
    is_set b.id
    && is_set b.repo_id
    && is_set b.created_at
    && is_set b.updated_at
    && is_set b.commit_id
    && not (is_empty b.ref)
    && status_valid b.status
