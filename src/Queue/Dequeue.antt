-- ===== src/Queue/Dequeue.antt =====
-- The hand-over of a job to a runner, `Dequeue` and `UpdateJobFingerprint` of
-- backend/server/services/queue/queue_service.go.
pub mod Handover
use buildbeaver.Base.{◌==◌, if◌then◌else◌, any, ℕ, not, Option, none, some, List, [], ◌∷◌, map}
use buildbeaver.Models.{
  Text, is_empty, submitted, status_eq, ETag, get_etag, runner_disabled, Job, Step, Build,
}
use buildbeaver.Queue.{select, Runner, Repo, M, ◌>>=◌, ◌>>◌, pure, get_db, modify, when, guard}
use buildbeaver.Queue.Services.{Env, read_job, read_build, list_by_job_id, update_job_row}
use buildbeaver.Queue.Selection.{
  read_repo, read_runner, read_commit, find_queued_job, list_dependencies, read_by_fingerprint,
}
use buildbeaver.Queue.Updates.{update_job, update_step, maintain_build_status}

-- `FindOrCreateIdentity`: the identity is the build's, and its grants are not modelled.
unfoldable pub find_or_create_identity : ℕ → M ℕ
find_or_create_identity build_id = do
  build ← read_build build_id
  read_repo build.repo_id
  db ← get_db
  when (not (any (λ b. b == build_id) db.identities))
      (modify (λ db. record db { identities = build_id ∷ db.identities }))
  pure build_id

-- `getInitialWorkflowsToRun`
unfoldable pub get_initial_workflows_to_run : Build → List Text
get_initial_workflows_to_run build =
    select (λ w. not (is_empty w)) (map (λ fqn. fqn.workflow_name) build.opts.nodes_to_run)

pub record RunnableJob : Type 0 where
  pub job : Job
  pub steps : List Step
  pub jobs : List Job
  pub repo : Repo
  pub commit : ℕ
  pub jwt : Text
  pub workflows_to_run : List Text

-- The token, and the empty one with an error that is not looked at.
unfoldable pub token_of : Option Text → Text
token_of (some jwt) = jwt
token_of none = []

module _ (env : Env) where
  -- The loop over the steps, which changes the steps that are handed over.
  unfoldable pub submit_steps : Job → Runner → List Step → M (List Step)
  submit_steps job runner [] = pure []
  submit_steps job runner (step ∷ steps) = do
    step' ←
        update_step env job (record step { status = submitted; runner_id = runner.id })
          (not (status_eq step.status submitted))
    steps' ← submit_steps job runner steps
    pure (step' ∷ steps')

  -- The updates of `Dequeue`.
  unfoldable pub submit : Job → List Step → Runner → M (Job × List Step)
  submit job steps runner = do
    job' ←
        update_job env (record job { status = submitted; runner_id = runner.id })
          (not (status_eq job.status submitted))
    steps' ← submit_steps job' runner steps
    maintain_build_status env job'.build_id
    pure (job', steps')

  unfoldable pub dequeue : ℕ → M RunnableJob
  unfolding token_of get_initial_workflows_to_run
  dequeue runner_id = do
    runner ← read_runner runner_id
    guard runner.enabled runner_disabled
    job ← find_queued_job runner
    build ← read_build job.build_id
    repo ← read_repo job.repo_id
    commit ← read_commit build.commit_id
    steps ← list_by_job_id job.id
    jobs ← list_dependencies job
    identity ← find_or_create_identity build.id
    submitted_job ← submit job steps runner
    pure (record {
      job = submitted_job.0;
      steps = submitted_job.1;
      jobs = jobs;
      repo = repo;
      commit = commit;
      jwt = token_of (env.create_identity_jwt identity);
      workflows_to_run = get_initial_workflows_to_run build;
    })

-- The ID to indirect to; the invalid ID if there is no match, or if the build is forced.
unfoldable pub indirect_to : Build → Option Job → ℕ
indirect_to build none = 0
indirect_to build (some j) = if build.opts.force then 0 else j.id

module _ (env : Env) where
  unfoldable pub update_job_fingerprint : ℕ → Text → Text → ETag → M Job
  update_job_fingerprint id fingerprint hash_type etag = do
    job ← read_job id
    build ← read_build job.build_id
    db ← get_db
    update_job_row env (record job {
      updated_at = db.now;
      etag = get_etag job.etag etag;
      fingerprint = fingerprint;
      fingerprint_hash_type = some hash_type;
      indirect_to_job_id =
          indirect_to build (read_by_fingerprint job fingerprint hash_type db.jobs);
    })
