-- ===== src/Queue/Timeouts/Failing.antt =====
-- What becomes of the jobs that timed out.
use buildbeaver.Base.{
  ◌==◌, if◌then◌else◌, length, length-append, ℕ, suc, ◌+◌, ◌≡◌, refl, sym, ap, ◌∙◌, ◌⊎◌, Bool, true,
  false, not, ◌&&◌, Option, some, List, [], ◌∷◌, ◌++◌, arith,
}
use buildbeaver.Models.{
  WorkflowStatus, queued, submitted, running, failed, has_finished, status_eq, ETag, unset,
  get_etag, not_found, ErrorInfo, Job, Step,
}
use buildbeaver.Queue.{
  find_row, find_row-key, select, Db, Result, ok, err, M, ◌>>◌, pure, when, for_each, OnOk,
  OnOk-bind, OnOk-map,
}
use buildbeaver.Queue.Services.{Env, job_key, step_key, read_job, read_step, list_by_job_id}
use buildbeaver.Queue.Updates.BuildStatus.{count}
use buildbeaver.Queue.Updates.{
  update_job, update_step, maintain_build_status, update_job_status, update_step_status,
}
use buildbeaver.Queue.Timeouts.{
  has_job_timed_out, list_by_status, find_timed_out_jobs, timed_out_jobs, job_timed_out,
  parent_timed_out, Checked, fail_step, fail_timed_out_job, count_outcome, fail_all,
  check_for_timeouts,
}
use buildbeaver.Queue.Dequeue.Handover.{update_step-jobs}
use buildbeaver.Queue.Updates.Maintenance.{maintain_build_status-jobs}
use buildbeaver.Queue.Updates.Finishing.{found-lem, update_job-effect}

-- The jobs that are checked: those that wait or run.
unfoldable pub is_pending : WorkflowStatus → Bool
is_pending queued = true
is_pending submitted = true
is_pending running = true
is_pending _ = false

unfoldable pub must_fail : ℕ → ℕ → Job → Bool
must_fail now timeout job = has_job_timed_out now timeout job && is_pending job.status

length-timed_out_jobs :
    (now timeout : ℕ) (jobs : List Job)
    → length (timed_out_jobs now timeout jobs)
      ≡ length (find_timed_out_jobs now timeout jobs queued)
        + length (find_timed_out_jobs now timeout jobs submitted)
        + length (find_timed_out_jobs now timeout jobs running)
unfolding timed_out_jobs
length-timed_out_jobs now timeout jobs = omega (
  arith,
  length-append (find_timed_out_jobs now timeout jobs queued) (
      find_timed_out_jobs now timeout jobs submitted
      ++ find_timed_out_jobs now timeout jobs running),
  length-append (find_timed_out_jobs now timeout jobs submitted)
      (find_timed_out_jobs now timeout jobs running),
)

find_timed_out_jobs-cons :
    (now timeout : ℕ) (s : WorkflowStatus) (j : Job) (jobs : List Job)
    → length (find_timed_out_jobs now timeout (j ∷ jobs) s) ≡ (
        if status_eq j.status s && has_job_timed_out now timeout j
        then suc (length (find_timed_out_jobs now timeout jobs s))
        else length (find_timed_out_jobs now timeout jobs s))
unfolding find_timed_out_jobs list_by_status select
find_timed_out_jobs-cons now timeout s j jobs = ground arith

one_status :
    (s : WorkflowStatus)
    → ((status_eq s queued ≡ true)
        × (status_eq s submitted ≡ false)
        × (status_eq s running ≡ false)
        × (is_pending s ≡ true))
      ⊎ (((status_eq s queued ≡ false)
            × (status_eq s submitted ≡ true)
            × (status_eq s running ≡ false)
            × (is_pending s ≡ true))
          ⊎ (((status_eq s queued ≡ false)
                × (status_eq s submitted ≡ false)
                × (status_eq s running ≡ true)
                × (is_pending s ≡ true))
              ⊎ ((status_eq s queued ≡ false)
                  × (status_eq s submitted ≡ false)
                  × (status_eq s running ≡ false)
                  × (is_pending s ≡ false))))
unfolding status_eq is_pending
one_status s = ground arith

timed_out_jobs-count :
    (now timeout : ℕ) (jobs : List Job)
    → length (timed_out_jobs now timeout jobs) ≡ count (must_fail now timeout) jobs
unfolding count must_fail
timed_out_jobs-count now timeout [] =
    unfold timed_out_jobs find_timed_out_jobs list_by_status select in refl
timed_out_jobs-count now timeout (j ∷ jobs) = ground (
  arith,
  one_status j.status,
  length-timed_out_jobs now timeout jobs,
  length-timed_out_jobs now timeout (j ∷ jobs),
  find_timed_out_jobs-cons now timeout queued j jobs,
  find_timed_out_jobs-cons now timeout submitted j jobs,
  find_timed_out_jobs-cons now timeout running j jobs,
  timed_out_jobs-count now timeout jobs,
)

module _ (env : Env) where
  count_outcome-one :
      (x : Result (Unit {0} × Db)) (c : Checked)
      → (count_outcome env x c).timed_out_count + (count_outcome env x c).error_count
        ≡ c.timed_out_count + c.error_count + 1
  unfolding count_outcome
  count_outcome-one (ok (u, d)) c = omega arith
  count_outcome-one (err e) c = omega arith

  fail_all-count :
      (jobs : List Job) (c : Checked)
      → (fail_all env jobs c).timed_out_count + (fail_all env jobs c).error_count
        ≡ c.timed_out_count + c.error_count + length jobs
  unfolding fail_all
  fail_all-count [] c = omega arith
  fail_all-count (j ∷ jobs) c = omega (
    arith,
    fail_all-count jobs (count_outcome env (fail_timed_out_job env j c.db) c),
    count_outcome-one (fail_timed_out_job env j c.db) c,
  )

  -- A check deals with every job that waits or runs and has timed out, exactly once, whether or not
  -- the transactions of the others fail.
  pub check_for_timeouts-count :
      (timeout : ℕ) (db : Db)
      → (check_for_timeouts env timeout db).timed_out_count
          + (check_for_timeouts env timeout db).error_count
        ≡ count (must_fail db.now timeout) db.jobs
  unfolding check_for_timeouts
  check_for_timeouts-count timeout db = omega (
    arith,
    fail_all-count (timed_out_jobs db.now timeout db.jobs)
        (record { timed_out_count = 0; error_count = 0; db = db }),
    timed_out_jobs-count db.now timeout db.jobs,
  )

  update_step_status-jobs :
      (id : ℕ) (status : WorkflowStatus) (error : Option ErrorInfo) (etag : ETag) (db : Db)
      → OnOk (update_step_status env id status error etag db) λ _ d. d.jobs ≡ db.jobs
  unfolding update_step_status read_step read_job
  update_step_status-jobs id status error etag db =
      OnOk-bind (read_step id) _ _ _ (found-lem not_found (find_row step_key id db.steps) db)
        λ step d₁ f₁.
          OnOk-bind (read_job step.job_id) _ _ _
            (found-lem not_found (find_row job_key step.job_id d₁.jobs) d₁)
            λ job d₂ f₂.
              OnOk-map (update_step env job _ _ d₂) _ _ (update_step-jobs env job _ _ d₂)
                λ _ _ g. g ∙ ap (λ d. d.jobs) (f₂.1 ∙ f₁.1)

  fail_step-jobs : (s : Step) (db : Db) → OnOk (fail_step env s db) λ _ d. d.jobs ≡ db.jobs
  unfolding fail_step
  fail_step-jobs s db = at_test (not (has_finished s.status))
    where
      at_test :
          (b : Bool)
          → OnOk
              (when b
                (do update_step_status env s.id failed (some parent_timed_out) unset; pure tt)
                db)
              λ _ d. d.jobs ≡ db.jobs
      at_test true =
          OnOk-bind (update_step_status env s.id failed (some parent_timed_out) unset) _ _ _
            (update_step_status-jobs s.id failed (some parent_timed_out) unset db) λ _ d f. f
      at_test false = refl

  for_each-jobs :
      (f : Step → M (Unit {0})) (steps : List Step) (db : Db)
      → ((s : Step) (d : Db) → OnOk (f s d) λ _ d'. d'.jobs ≡ d.jobs)
      → OnOk (for_each f steps db) λ _ d. d.jobs ≡ db.jobs
  for_each-jobs f [] db h = refl
  for_each-jobs f (s ∷ steps) db h =
      OnOk-bind (f s) _ _ _ (h s db)
        λ _ d g. OnOk-map (for_each f steps d) _ _ (for_each-jobs f steps d h) λ _ d' g'. g' ∙ g

  update_job_status-row :
      (id : ℕ) (status : WorkflowStatus) (error : Option ErrorInfo) (etag : ETag) (db : Db)
      → OnOk
          (update_job_status env id status error etag db)
          λ _ d. (k : Job) × (find_row job_key id d.jobs ≡ some k) × (k.status ≡ status)
  unfolding update_job_status read_job
  update_job_status-row id status error etag db =
      OnOk-bind (read_job id) _ _ _ (found-lem not_found (find_row job_key id db.jobs) db)
        λ job d₁ f₁.
          OnOk-bind
            (update_job env
              (record job { etag = get_etag job.etag etag; error = error; status = status })
              (not (status_eq job.status status)))
            _ _ _
            (update_job-effect env
              (record job { etag = get_etag job.etag etag; error = error; status = status })
              (not (status_eq job.status status)) d₁)
            λ k d₂ f₂.
              OnOk-bind (maintain_build_status env k.build_id) _ _ _
                (maintain_build_status-jobs env k.build_id d₂)
                λ b d₃ f₃. (
                  k,
                  ap (λ i. find_row job_key i d₃.jobs) (sym (find_row-key job_key id db.jobs f₁.0))
                      ∙ ap (find_row job_key job.id) f₃
                      ∙ f₂.0,
                  f₂.1,
                )

  -- When a job that timed out was failed without an error, its row has failed.
  pub fail_timed_out_job-failed :
      (job : Job) (db : Db)
      → OnOk
          (fail_timed_out_job env job db)
          λ _ d. (k : Job) × (find_row job_key job.id d.jobs ≡ some k) × (k.status ≡ failed)
  unfolding fail_timed_out_job list_by_job_id
  fail_timed_out_job-failed job db =
      OnOk-bind (update_job_status env job.id failed (some job_timed_out) unset) _ _ _
        (update_job_status-row job.id failed (some job_timed_out) unset db)
        λ _ d f.
          OnOk-map (for_each (fail_step env) (select (λ s. s.job_id == job.id) d.steps) d) _ _
            (for_each-jobs (fail_step env) (select (λ s. s.job_id == job.id) d.steps) d
              fail_step-jobs)
            λ _ d' g. (f.0, ap (find_row job_key job.id) g ∙ f.1, f.2)
