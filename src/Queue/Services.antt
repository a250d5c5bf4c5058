-- ===== src/Queue/Services.antt =====
-- The other services and stores that the queue service calls.
use buildbeaver.Base.{◌==◌, ℕ, ◌+◌, Bool, true, false, not, Option, none, some, List, [], ◌∷◌, ◌++◌}
use buildbeaver.Models.{
  Text, ETag, any_tag, tag, etag_eq, optimistic_lock_failed, already_sealed, invalid, external, Job,
  job_valid, Step, step_valid, Build, build_valid,
}
use buildbeaver.Queue.{
  find_row, put_row, select, LogDescriptor, EventData, Repo, M, ◌>>=◌, ◌>>◌, pure, get_db, modify,
  found_or, found, when, guard,
}

-- What is not code of the repository: hashstructure.Hash on the rows, and the signing of tokens.
pub record Env : Type 0 where
  pub job_hash : Job → ℕ
  pub step_hash : Step → ℕ
  pub build_hash : Build → ℕ
  pub create_identity_jwt : ℕ → Option Text

-- Every `Read` and `List...` of the stores.
abbrev pub job_key : Job → ℕ
job_key j = j.id

abbrev pub step_key : Step → ℕ
step_key s = s.id

abbrev pub build_key : Build → ℕ
build_key b = b.id

abbrev pub log_key : LogDescriptor → ℕ
log_key l = l.id

unfoldable pub read_job : ℕ → M Job
read_job id = do db ← get_db; found (find_row job_key id db.jobs)

unfoldable pub read_step : ℕ → M Step
read_step id = do db ← get_db; found (find_row step_key id db.steps)

unfoldable pub read_build : ℕ → M Build
read_build id = do db ← get_db; found (find_row build_key id db.builds)

-- `ListByBuildID` and `ListByJobID`
unfoldable pub list_by_build_id : ℕ → M (List Job)
list_by_build_id id = do db ← get_db; pure (select (λ j. j.build_id == id) db.jobs)

unfoldable pub list_by_job_id : ℕ → M (List Step)
list_by_job_id id = do db ← get_db; pure (select (λ s. s.job_id == id) db.steps)

abbrev pub total : List ℕ → ℕ
total [] = 0
total (n ∷ ns) = n + total ns

-- `Seal`, which fails with the blob store; the sum of the sizes is left unbounded.
unfoldable pub seal_log : ℕ → M (Unit {0})
seal_log id = do
  db ← get_db
  descriptor ← found (find_row log_key id db.logs)
  guard (not descriptor.sealed) already_sealed
  sizes ← found_or external (db.list_blobs id)
  let sealed = record descriptor { sealed = true; size_bytes = descriptor.size_bytes + total sizes }
  modify (λ db. record db { logs = put_row log_key sealed db.logs })

-- The `where` clause of `updateWhere` in backend/server/store/resource_table.go.
unfoldable pub tag_matches : ETag → ETag → Bool
tag_matches any_tag row = true
tag_matches given row = etag_eq given row

-- `UpdateByID`: the row is found by its ID and ETag, and its creation time stays.
module _ (env : Env) where
  unfoldable pub update_job_row : Job → M Job
  update_job_row j = do
    db ← get_db
    guard (job_valid j) invalid
    old ← found_or optimistic_lock_failed (find_row job_key j.id db.jobs)
    let new = record j { etag = tag (env.job_hash j); created_at = old.created_at }
    guard (tag_matches j.etag old.etag) optimistic_lock_failed
    modify (λ db. record db { jobs = put_row job_key new db.jobs })
    pure new

  unfoldable pub update_step_row : Step → M Step
  update_step_row s = do
    db ← get_db
    guard (step_valid s) invalid
    old ← found_or optimistic_lock_failed (find_row step_key s.id db.steps)
    let new = record s { etag = tag (env.step_hash s); created_at = old.created_at }
    guard (tag_matches s.etag old.etag) optimistic_lock_failed
    modify (λ db. record db { steps = put_row step_key new db.steps })
    pure new

  unfoldable pub update_build_row : Build → M Build
  update_build_row b = do
    db ← get_db
    guard (build_valid b) invalid
    old ← found_or optimistic_lock_failed (find_row build_key b.id db.builds)
    let new = record b { etag = tag (env.build_hash b); created_at = old.created_at }
    guard (tag_matches b.etag old.etag) optimistic_lock_failed
    modify (λ db. record db { builds = put_row build_key new db.builds })
    pure new

-- `PublishEvent`
unfoldable pub publish_event : EventData → M (Unit {0})
publish_event e = modify (λ db. record db { events = db.events ++ (e ∷ []) })

unfoldable pub external_repo : Option Repo → Bool
external_repo none = false
external_repo (some repo) = repo.has_external_id

-- `notifySCMBuildUpdated`, whose errors the caller ignores: only a repo of an external SCM is
-- notified.
unfoldable pub notify_scm_build_updated : Build → M (Unit {0})
unfolding external_repo
notify_scm_build_updated b = do
  db ← get_db
  when (external_repo (find_row (λ (r : Repo). r.id) b.repo_id db.repos))
      (modify (λ db. record db { scm_notified = (b.id, b.status) ∷ db.scm_notified }))

-- `DeleteIdentity`; it is no error that there is none.
unfoldable pub delete_identity : ℕ → M (Unit {0})
delete_identity build =
    modify (λ db. record db { identities = select (λ b. not (b == build)) db.identities })
