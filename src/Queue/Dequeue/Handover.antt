-- ===== src/Queue/Dequeue/Handover.antt =====
-- What a runner that dequeues is given.
use buildbeaver.Base.{
  ◌==◌, ℕ, ◌≡◌, refl, ap, subst, ◌∙◌, Bool, true, not, some, List, [], ◌∷◌, arith,
}
use buildbeaver.Models.{submitted, status_eq, not_found, runner_disabled, Job, Step}
use buildbeaver.Queue.{
  find_row, select, Next, Runner, Db, Result, ok, err, guard, OnOk, OnOk-bind, anything,
}
use buildbeaver.Queue.Services.{
  Env, job_key, read_build, list_by_job_id, update_step_row, publish_event,
}
use buildbeaver.Queue.Updates.BuildStatus.{enter_status-frame}
use buildbeaver.Queue.Updates.Maintenance.{maintain_build_status-jobs}
use buildbeaver.Queue.Updates.Finishing.{found-lem, guard-lem, update_job-effect}
use buildbeaver.Queue.Updates.{enter_status, update_job, update_step, maintain_build_status}
use buildbeaver.Queue.Dequeue.{find_or_create_identity, submit_steps, submit, dequeue}
use buildbeaver.Queue.Selection.{
  runner_key, read_repo, read_runner, read_commit, ready_for, job_time, find_queued_job,
  list_dependencies,
}
use buildbeaver.Queue.Selection.Choice.{chosen, find_queued_job-Next}

find_queued_job-OnOk :
    (r : Runner) (db : Db)
    → OnOk (find_queued_job r db) λ j d. Next job_time (ready_for db r) db.jobs (some j)
unfolding chosen
find_queued_job-OnOk r db = after (find_queued_job r db) (find_queued_job-Next r db)
  where
    after :
        (x : Result (Job × Db))
        → Next job_time (ready_for db r) db.jobs (chosen x)
        → OnOk x λ j d. Next job_time (ready_for db r) db.jobs (some j)
    after (ok (j, d)) h = h
    after (err e) h = tt

-- The job that is handed over is a row of the database, submitted to the runner.
abbrev pub Submitted : Job → Runner → Job → Db → Type 0
Submitted job r j d =
    (find_row job_key job.id d.jobs ≡ some j)
    × (j.id ≡ job.id)
    × (j.status ≡ submitted)
    × (j.runner_id ≡ r.id)

module _ (env : Env) where
  update_step_row-jobs :
      (s : Step) (db : Db) → OnOk (update_step_row env s db) λ _ d. d.jobs ≡ db.jobs
  unfolding update_step_row
  update_step_row-jobs s db = ground arith

  pub update_step-jobs :
      (job : Job) (s : Step) (c : Bool) (db : Db)
      → OnOk (update_step env job s c db) λ _ d. d.jobs ≡ db.jobs
  unfolding update_step publish_event
  update_step-jobs job s c db =
      OnOk-bind (enter_status db.now s.status s.log_descriptor_id s.timings) _ _ _
        (enter_status-frame db.now s.status s.log_descriptor_id s.timings db)
        λ t d₁ f₁.
          OnOk-bind (update_step_row env (record s { updated_at = db.now; timings = t })) _ _ _
            (update_step_row-jobs (record s { updated_at = db.now; timings = t }) d₁)
            λ s₂ d₂ f₂. ground (arith, f₁.0)

  submit_steps-jobs :
      (job : Job) (r : Runner) (steps : List Step) (db : Db)
      → OnOk (submit_steps env job r steps db) λ _ d. d.jobs ≡ db.jobs
  unfolding submit_steps
  submit_steps-jobs job r [] db = refl
  submit_steps-jobs job r (s ∷ steps) db =
      OnOk-bind
        (update_step env job (record s { status = submitted; runner_id = r.id })
          (not (status_eq s.status submitted)))
        _ _ _
        (update_step-jobs job (record s { status = submitted; runner_id = r.id })
          (not (status_eq s.status submitted)) db)
        λ s₁ d₁ f₁.
          OnOk-bind (submit_steps env job r steps) _ _ _ (submit_steps-jobs job r steps d₁)
            λ _ d₂ f₂. f₂ ∙ f₁

  submit-Submitted :
      (job : Job) (steps : List Step) (r : Runner) (db : Db)
      → OnOk (submit env job steps r db) λ x d. Submitted job r x.0 d
  unfolding submit
  submit-Submitted job steps r db =
      OnOk-bind
        (update_job env (record job { status = submitted; runner_id = r.id })
          (not (status_eq job.status submitted)))
        _ _ _
        (update_job-effect env (record job { status = submitted; runner_id = r.id })
          (not (status_eq job.status submitted)) db)
        λ j d₁ f₁.
          OnOk-bind (submit_steps env j r steps) _ _ _ (submit_steps-jobs j r steps d₁)
            λ steps' d₂ f₂.
              OnOk-bind (maintain_build_status env j.build_id) _ _ _
                (maintain_build_status-jobs env j.build_id d₂)
                λ b d₃ f₃. (ap (find_row job_key job.id) (f₃ ∙ f₂) ∙ f₁.0, f₁.4, f₁.1, f₁.5)

  -- If a runner is handed a job, then the runner exists and is enabled; the job was one that was
  -- created the earliest of those that were ready for the runner; and it is now a row that has the
  -- same ID, is submitted, and is assigned to the runner.
  pub dequeue-Submitted :
      (runner_id : ℕ) (db : Db)
      → OnOk (dequeue env runner_id db) λ x d.
        (r : Runner) × (job : Job) × (find_row runner_key runner_id db.runners ≡ some r)
        × (r.enabled ≡ true)
        × Next job_time (ready_for db r) db.jobs (some job)
        × Submitted job r x.job d
  unfolding dequeue read_runner read_build read_repo read_commit list_by_job_id list_dependencies
  dequeue-Submitted runner_id db =
      OnOk-bind (read_runner runner_id) _ _ _
        (found-lem not_found (find_row runner_key runner_id db.runners) db)
        λ r d₁ f₁.
          OnOk-bind (guard r.enabled runner_disabled) _ _ _ (guard-lem r.enabled runner_disabled d₁)
            λ _ d₂ f₂. OnOk-bind (find_queued_job r) _ _ _ (find_queued_job-OnOk r d₂) λ job d₃ f₃.
              OnOk-bind (read_build job.build_id) _ _ _ (anything (read_build job.build_id d₃))
                λ build d₄ _.
                  OnOk-bind (read_repo job.repo_id) _ _ _ (anything (read_repo job.repo_id d₄))
                    λ repo d₅ _.
                      OnOk-bind (read_commit build.commit_id) _ _ _
                        (anything (read_commit build.commit_id d₅))
                        λ commit d₆ _.
                          OnOk-bind (find_or_create_identity build.id) _ _ _
                            (anything (find_or_create_identity build.id d₆))
                            λ identity d₇ _.
                              OnOk-bind
                                (submit env job (select (λ s. s.job_id == job.id) d₆.steps) r) _ _ _
                                (submit-Submitted job _ r d₇)
                                λ x d₈ f₈. (
                                  r,
                                  job,
                                  f₁.0,
                                  f₂.0,
                                  subst (λ d. Next job_time (ready_for d r) d.jobs (some job))
                                      (f₂.1 ∙ f₁.1) f₃,
                                  f₈,
                                )
