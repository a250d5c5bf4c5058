-- ===== src/Queue/Selection.antt =====
-- The queries of backend/server/store/jobs/jobs.go: the next job for a runner, `FindQueuedJob`, and
-- the jobs that a job depends on or can be replaced by.
pub mod Choice
use buildbeaver.Base.{
  leb, ◌==◌, if◌then◌else◌, any, all, ℕ, Bool, true, false, not, ◌&&◌, Option, none, some, List, [],
  ◌∷◌,
}
use buildbeaver.Models.{
  Text, text_eq, queued, succeeded, has_finished, status_eq, JobType, docker, exec, other_type, Job,
  is_set,
}
use buildbeaver.Queue.{
  find_row, select, earliest, DependencyRow, Runner, Repo, Db, M, ◌>>=◌, ◌>>◌, pure, get_db, found,
}

abbrev pub repo_key : Repo → ℕ
repo_key r = r.id

abbrev pub runner_key : Runner → ℕ
runner_key r = r.id

unfoldable pub read_repo : ℕ → M Repo
read_repo id = do db ← get_db; found (find_row repo_key id db.repos)

unfoldable pub read_runner : ℕ → M Runner
read_runner id = do db ← get_db; found (find_row runner_key id db.runners)

unfoldable pub read_commit : ℕ → M ℕ
read_commit id = do db ← get_db; found (find_row (λ c. c) id db.commits)

unfoldable pub job_type_eq : JobType → JobType → Bool
job_type_eq docker docker = true
job_type_eq exec exec = true
job_type_eq other_type other_type = true
job_type_eq _ _ = false

-- `dependencySubQuery`: the row makes the job depend on another one that exists and is not finished.
unfoldable pub blocks : List Job → Job → DependencyRow → Bool
blocks jobs job row = row.source_job_id == job.id && elim row.target_job_id [
  | some target ↦ any (λ j. j.id == target && not (has_finished j.status)) jobs
  | none ↦ false
]

-- `deferredDependencySubQuery`: the row names a job of another workflow that does not exist yet.
unfoldable pub defers : Job → DependencyRow → Bool
defers job row =
    row.source_job_id == job.id && elim row.target [ some target ↦ true | none ↦ false ]

-- `labelOrs`. A job that needs no labels has the list of none, which is null in the database; the
-- rows of `job_labels` are the elements of the list.
unfoldable pub labels_suffice : List Text → List Text → Bool
labels_suffice [] runner = true
labels_suffice (l ∷ ls) [] = false
labels_suffice (l ∷ ls) (r ∷ rs) = all (λ label. any (text_eq label) (r ∷ rs)) (l ∷ ls)

-- The repository of the job belongs to the runner's legal entity.
unfoldable pub same_owner : Db → Runner → Job → Bool
same_owner db runner job = elim (find_row repo_key job.repo_id db.repos) [
  | some repo ↦ repo.legal_entity_id == runner.legal_entity_id
  | none ↦ false
]

-- The `where` clauses of the query.
unfoldable pub ready_for : Db → Runner → Job → Bool
ready_for db runner job =
    same_owner db runner job
    && status_eq job.status queued
    && not (any (blocks db.jobs job) db.dependencies)
    && not (any (defers job) db.dependencies)
    && any (job_type_eq job.type) runner.supported_job_types
    && labels_suffice job.runs_on runner.labels

-- The time of `order by job_created_at`.
abbrev pub job_time : Job → ℕ
job_time j = j.created_at

unfoldable pub find_queued_job : Runner → M Job
find_queued_job runner = do
  db ← get_db
  found (earliest job_time (select (ready_for db runner) db.jobs))

-- `ListDependencies`
unfoldable pub depends_on : Job → Job → DependencyRow → Bool
depends_on source target row =
    row.source_job_id == source.id
    && elim row.target_job_id [ some id ↦ id == target.id | none ↦ false ]

unfoldable pub list_dependencies : Job → M (List Job)
list_dependencies job = do
  db ← get_db
  pure (select (λ target. any (depends_on job target) db.dependencies) db.jobs)

-- `ReadByFingerprint`: the latest job that succeeded with the fingerprint, and was not skipped.
unfoldable pub matches_fingerprint : Job → Text → Text → Job → Bool
matches_fingerprint job fingerprint hash_type j =
    j.repo_id == job.repo_id
    && text_eq j.workflow job.workflow
    && text_eq j.name job.name
    && text_eq j.fingerprint fingerprint
    && elim j.fingerprint_hash_type [ some t ↦ text_eq t hash_type | none ↦ false ]
    && status_eq j.status succeeded
    && elim j.error [ some e ↦ false | none ↦ true ]
    && not (is_set j.indirect_to_job_id)

unfoldable pub later : Job → Option Job → Job
later j none = j
later j (some k) = if leb k.created_at j.created_at then j else k

unfoldable pub latest : List Job → Option Job
unfolding later
latest [] = none
latest (j ∷ js) = some (later j (latest js))

unfoldable pub read_by_fingerprint : Job → Text → Text → List Job → Option Job
read_by_fingerprint job fingerprint hash_type jobs =
    latest (select (matches_fingerprint job fingerprint hash_type) jobs)
