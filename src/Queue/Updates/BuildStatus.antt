-- ===== src/Queue/Updates/BuildStatus.antt =====
-- The status that `maintainBuildStatus` gives a build, against a description of it.
use buildbeaver.Base.{
  ltb, if◌then◌else◌, any, all, ℕ, suc, ◌+◌, ◌≡◌, refl, Bool, true, false, not, ◌&&◌, Option, none,
  some, List, [], ◌∷◌, arith,
}
use buildbeaver.Models.{
  WorkflowStatus, queued, running, failed, succeeded, canceled, has_finished, status_eq, ErrorInfo,
  WorkflowTimings, Job, Build,
}
use buildbeaver.Queue.Services.{
  Env, build_key, seal_log, update_build_row, publish_event, notify_scm_build_updated,
}
use buildbeaver.Queue.{put_row, Db, OnOk, OnOk-bind}
use buildbeaver.Queue.Updates.{
  enter_status, update_build, Tally, tally_job, tally_jobs, next_build_status, empty_tally,
}

-- A job that failed or was canceled.
unfoldable pub is_broken : Job → Bool
is_broken j = elim j.status [ failed ↦ true | canceled ↦ true | _ ↦ false ]

unfoldable pub is_finished : Job → Bool
is_finished j = has_finished j.status

unfoldable pub is_queued : Job → Bool
is_queued j = elim j.status [ queued ↦ true | _ ↦ false ]

unfoldable pub count {ℓ} : {A : Type ℓ} → (A → Bool) → List A → ℕ
count p [] = 0
count p (x ∷ xs) = if p x then suc (count p xs) else count p xs

-- A build whose jobs are all finished has failed if one of them failed or was canceled, and has
-- succeeded otherwise. A queued build runs as soon as one of its jobs is not queued any more.
unfoldable pub expected_status : WorkflowStatus → List Job → WorkflowStatus
expected_status build jobs =
    if all is_finished jobs
    then (if any is_broken jobs then failed else succeeded)
    else if status_eq build queued && any (λ j. not (is_queued j)) jobs
    then running
    else build

tally_jobs-eq :
    (b : WorkflowStatus) (jobs : List Job) (t : Tally)
    → (tally_jobs b jobs t).failed_jobs ≡ t.failed_jobs + count is_broken jobs
unfolding tally_jobs count is_broken status_eq
tally_jobs-eq b [] t = omega arith
tally_jobs-eq b (j ∷ jobs) t = ground (arith, tally_jobs-eq b jobs (tally_job b j t))

tally_jobs-done :
    (b : WorkflowStatus) (jobs : List Job) (t : Tally)
    → (tally_jobs b jobs t).all_jobs_done ≡ (all is_finished jobs && t.all_jobs_done)
unfolding tally_jobs is_finished
tally_jobs-done b [] t = refl
tally_jobs-done b (j ∷ jobs) t = ground (arith, tally_jobs-done b jobs (tally_job b j t))

pub tally_jobs-next :
    (b : WorkflowStatus) (jobs : List Job) (t : Tally)
    → (tally_jobs b jobs t).next_status ≡ (
        if status_eq b queued && any (λ j. not (is_queued j)) jobs
        then some running
        else t.next_status)
unfolding tally_jobs is_queued status_eq
tally_jobs-next b [] t = ground arith
tally_jobs-next b (j ∷ jobs) t = ground (arith, tally_jobs-next b jobs (tally_job b j t))

count_pos {ℓ} : {A : Type ℓ} (p : A → Bool) (xs : List A) → ltb 0 (count p xs) ≡ any p xs
unfolding count
count_pos p [] = refl
count_pos p (x ∷ xs) = ground (arith, count_pos p xs)

abbrev pub status_or : WorkflowStatus → Option (WorkflowStatus × Option ErrorInfo) → WorkflowStatus
status_or s none = s
status_or s (some (t, e)) = t

-- The loop and the tests behind it decide what the description says.
pub next_build_status-expected :
    (b : WorkflowStatus) (jobs : List Job)
    → status_or b (next_build_status (tally_jobs b jobs empty_tally)) ≡ expected_status b jobs
unfolding next_build_status expected_status
next_build_status-expected b jobs = ground (
  arith,
  tally_jobs-eq b jobs empty_tally,
  tally_jobs-done b jobs empty_tally,
  tally_jobs-next b jobs empty_tally,
  count_pos is_broken jobs,
)

pub enter_status-frame :
    (now : ℕ) (s : WorkflowStatus) (log : ℕ) (t : WorkflowTimings) (db : Db)
    → OnOk (enter_status now s log t db) λ u d.
      (d.jobs ≡ db.jobs)
      × (d.builds ≡ db.builds)
      × (d.steps ≡ db.steps)
      × (d.events ≡ db.events)
      × (d.now ≡ db.now)
unfolding enter_status seal_log
enter_status-frame now queued log t db = ground arith
enter_status-frame now _ log t db = ground arith

notify-frame :
    (b : Build) (db : Db)
    → OnOk (notify_scm_build_updated b db) λ _ d.
      (d.jobs ≡ db.jobs)
      × (d.builds ≡ db.builds)
      × (d.steps ≡ db.steps)
      × (d.events ≡ db.events)
      × (d.now ≡ db.now)
unfolding notify_scm_build_updated
notify-frame b db = ground arith

module _ (env : Env) where
  update_build_row-frame :
      (b : Build) (db : Db)
      → OnOk (update_build_row env b db) λ c d.
        (c.status ≡ b.status)
        × (c.id ≡ b.id)
        × (d.jobs ≡ db.jobs)
        × (d.builds ≡ put_row build_key c db.builds)
  unfolding update_build_row
  update_build_row-frame b db = ground arith

  pub update_build-frame :
      (b : Build) (c : Bool) (db : Db)
      → OnOk (update_build env b c db) λ b' d.
        (b'.status ≡ b.status)
        × (b'.id ≡ b.id)
        × (d.jobs ≡ db.jobs)
        × (d.builds ≡ put_row build_key b' db.builds)
  unfolding update_build publish_event
  update_build-frame b c db =
      OnOk-bind (enter_status db.now b.status b.log_descriptor_id b.timings) _ _ _
        (enter_status-frame db.now b.status b.log_descriptor_id b.timings db)
        λ t d₁ f₁.
          OnOk-bind (update_build_row env (record b { updated_at = db.now; timings = t })) _ _ _
            (update_build_row-frame (record b { updated_at = db.now; timings = t }) d₁)
            λ b₂ d₂ f₂.
              OnOk-bind (notify_scm_build_updated b₂) _ _ _ (notify-frame b₂ d₂)
                λ _ d₃ f₃. ground arith
