-- ===== src/Queue/Updates.antt =====
-- The updates of backend/server/services/queue/queue_service.go: a changed status is recorded in the
-- row with its time, seals the log when it is final, is published as an event, and is carried over
-- to the build.
pub mod BuildStatus
pub mod Maintenance
pub mod Finishing
pub mod Success
use buildbeaver.Base.{
  ltb, if◌then◌else◌, ℕ, ◌+◌, Bool, true, false, not, ◌&&◌, ◌||◌, Option, none, some, List, [], ◌∷◌,
}
use buildbeaver.Models.{
  WorkflowStatus, queued, submitted, running, failed, succeeded, canceled, has_finished, status_eq,
  ETag, get_etag, unsupported_status, ErrorInfo, jobs_failed, WorkflowTimings, Job, Step, Build,
}
use buildbeaver.Queue.{
  build_status_changed, job_status_changed, step_status_changed, EventData, M, ◌>>=◌, ◌>>◌, pure,
  throw, get_db, when,
}
use buildbeaver.Queue.Services.{
  Env, read_job, read_step, read_build, list_by_build_id, seal_log, update_job_row, update_step_row,
  update_build_row, publish_event, notify_scm_build_updated, delete_identity,
}

-- The `switch` that `updateBuild`, `updateJob` and `updateStep` have in common.
unfoldable pub enter_status : ℕ → WorkflowStatus → ℕ → WorkflowTimings → M WorkflowTimings
enter_status now queued log t = pure (record t { queued_at = some now })
enter_status now submitted log t = pure (record t { submitted_at = some now })
enter_status now running log t = pure (record t { running_at = some now })
enter_status now succeeded log t = do seal_log log; pure (record t { finished_at = some now })
enter_status now failed log t = do seal_log log; pure (record t { finished_at = some now })
enter_status now canceled log t = do seal_log log; pure (record t { canceled_at = some now })
enter_status now _ log t = throw unsupported_status

unfoldable pub build_event : Build → EventData
build_event b = record {
  build_id = b.id;
  type = build_status_changed;
  resource_id = b.id;
  payload = b.status;
}

unfoldable pub job_event : Job → EventData
job_event j = record {
  build_id = j.build_id;
  type = job_status_changed;
  resource_id = j.id;
  payload = j.status;
}

unfoldable pub step_event : Job → Step → EventData
step_event j s = record {
  build_id = j.build_id;
  type = step_status_changed;
  resource_id = s.id;
  payload = s.status;
}

module _ (env : Env) where
  unfoldable pub update_build : Build → Bool → M Build
  update_build build status_changed = do
    db ← get_db
    timings ← enter_status db.now build.status build.log_descriptor_id build.timings
    build' ← update_build_row env (record build { updated_at = db.now; timings = timings })
    notify_scm_build_updated build'
    when status_changed (publish_event (build_event build'))
    pure build'

  unfoldable pub update_job : Job → Bool → M Job
  update_job job status_changed = do
    db ← get_db
    timings ← enter_status db.now job.status job.log_descriptor_id job.timings
    job' ← update_job_row env (record job { updated_at = db.now; timings = timings })
    when status_changed (publish_event (job_event job'))
    pure job'

  unfoldable pub update_step : Job → Step → Bool → M Step
  update_step job step status_changed = do
    db ← get_db
    timings ← enter_status db.now step.status step.log_descriptor_id step.timings
    step' ← update_step_row env (record step { updated_at = db.now; timings = timings })
    when status_changed (publish_event (step_event job step'))
    pure step'

-- The variables of the loop in `maintainBuildStatus`.
pub record Tally : Type 0 where
  pub failed_jobs : ℕ
  pub all_jobs_done : Bool
  pub next_status : Option WorkflowStatus

-- The body of that loop, for a build of the given status.
unfoldable pub tally_job : WorkflowStatus → Job → Tally → Tally
tally_job build job t = record {
  failed_jobs =
      if status_eq job.status failed || status_eq job.status canceled
      then t.failed_jobs + 1
      else t.failed_jobs;
  all_jobs_done = if not (has_finished job.status) then false else t.all_jobs_done;
  next_status =
      if not (status_eq job.status queued) && status_eq build queued
      then some running
      else t.next_status;
}

unfoldable pub tally_jobs : WorkflowStatus → List Job → Tally → Tally
unfolding tally_job
tally_jobs build [] t = t
tally_jobs build (job ∷ jobs) t = tally_jobs build jobs (tally_job build job t)

-- What follows the loop: the next status and error of the build, if they change.
unfoldable pub next_build_status : Tally → Option (WorkflowStatus × Option ErrorInfo)
next_build_status t =
    if t.all_jobs_done
    then (if ltb 0 t.failed_jobs
        then some (failed, some (jobs_failed t.failed_jobs))
        else some (succeeded, none))
    else elim t.next_status [ none ↦ none | some s ↦ some (s, none) ]

abbrev pub empty_tally : Tally
empty_tally = record { failed_jobs = 0; all_jobs_done = true; next_status = none }

module _ (env : Env) where
  -- `if nextStatus != ""`
  unfoldable pub apply_build_status :
      Build → Tally → Option (WorkflowStatus × Option ErrorInfo) → M Build
  apply_build_status build t none = pure build
  apply_build_status build t (some (status, error)) = do
    build' ←
        update_build env (record build { error = error; status = status })
          (not (status_eq build.status status))
    when t.all_jobs_done (delete_identity build'.id)
    pure build'

  unfoldable pub maintain_unfinished : Build → M Build
  unfolding apply_build_status
  maintain_unfinished build = do
    jobs ← list_by_build_id build.id
    let t = tally_jobs build.status jobs empty_tally
    apply_build_status build t (next_build_status t)

  -- `maintainBuildStatus`; transactions run one at a time, so its row lock has no effect here.
  unfoldable pub maintain_build_status : ℕ → M Build
  maintain_build_status id = do
    build ← read_build id
    if has_finished build.status then pure build else maintain_unfinished build

  -- `dto.UpdateJobStatus` and `dto.UpdateStepStatus`
  unfoldable pub update_job_status : ℕ → WorkflowStatus → Option ErrorInfo → ETag → M Job
  update_job_status id status error etag = do
    job ← read_job id
    job' ←
        update_job env
          (record job { etag = get_etag job.etag etag; error = error; status = status })
          (not (status_eq job.status status))
    maintain_build_status job'.build_id
    pure job'

  unfoldable pub update_step_status : ℕ → WorkflowStatus → Option ErrorInfo → ETag → M Step
  update_step_status id status error etag = do
    step ← read_step id
    job ← read_job step.job_id
    update_step env job
        (record step { etag = get_etag step.etag etag; error = error; status = status })
        (not (status_eq step.status status))
