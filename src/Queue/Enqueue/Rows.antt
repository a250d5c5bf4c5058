-- ===== src/Queue/Enqueue/Rows.antt =====
-- The rows of jobs while jobs are enqueued.
use buildbeaver.Base.{
  ◌==◌, ℕ, ◌≡◌, refl, sym, ap, ◌∙◌, ◌≢◌, Bool, true, Option, none, some, List, [], ◌∷◌, ◌++◌, map,
  arith,
}
use buildbeaver.Models.{
  tag, Error, optimistic_lock_failed, invalid, mismatched_ids, JobDependency, Job, job_valid, Step,
  Build,
}
use buildbeaver.Graph.{DagLib, new_dag, walk, step_node}
use buildbeaver.Queue.{
  find_row, find_row-put_row_ne, Db, M, ◌>>=◌, found_or, guard, for_each, OnOk, OnOk-bind, OnOk-map,
  anything,
}
use buildbeaver.Queue.Services.{Env, job_key, tag_matches, update_job_row, publish_event}
use buildbeaver.Queue.Updates.{enter_status, update_job, update_step}
use buildbeaver.Queue.Updates.Finishing.{found-lem, guard-lem, update_job-effect}
use buildbeaver.Queue.Dequeue.Handover.{update_step-jobs}
use buildbeaver.Queue.Dependencies.{
  insert_dependency, depend_on, create_dependency, update_deferred_dependencies, create_job_row,
  create_job,
}
use buildbeaver.Queue.Enqueue.Graphs.{new_id}
use buildbeaver.Queue.Enqueue.{
  create_log, create_queued_job, create_step_row, create_queued_step, create_steps,
}
use buildbeaver.Queue.Updates.BuildStatus.{enter_status-frame}

-- A computation that leaves the jobs as they are.
abbrev pub Quiet : {A : Type 0} → M A → Type 0
Quiet m = (db : Db) → OnOk (m db) λ _ d. d.jobs ≡ db.jobs

>>=-Quiet :
    {A B : Type 0} (m : M A) (f : A → M B) → Quiet m → ((a : A) → Quiet (f a)) → Quiet (m >>= f)
>>=-Quiet m f h k db =
    OnOk-bind m f db _ (h db) λ a d e. OnOk-map (f a d) _ _ (k a d) λ _ _ e'. e' ∙ e

guard-Quiet : (b : Bool) (e : Error) → Quiet (guard b e)
guard-Quiet b e db = OnOk-map (guard b e db) _ _ (guard-lem b e db) λ _ _ f. ap (λ d. d.jobs) f.1

pub found_or-Quiet : {A : Type 0} (e : Error) (o : Option A) → Quiet (found_or e o)
found_or-Quiet e o db =
    OnOk-map (found_or e o db) _ _ (found-lem e o db) λ _ _ f. ap (λ d. d.jobs) f.1

for_each-Quiet :
    {A : Type 0} (f : A → M (Unit {0})) (xs : List A)
    → ((x : A) → Quiet (f x))
    → Quiet (for_each f xs)
for_each-Quiet f [] h = λ db. refl
for_each-Quiet f (x ∷ xs) h = >>=-Quiet (f x) (λ _. for_each f xs) (h x) λ _. for_each-Quiet f xs h

create_log-Quiet : (parent resource : ℕ) → Quiet (create_log parent resource)
unfolding create_log new_id
create_log-Quiet parent resource db = ground arith

create_dependency-Quiet : (job : Job) (d : JobDependency) → Quiet (create_dependency job d)
unfolding create_dependency depend_on insert_dependency
create_dependency-Quiet job d db = ground arith

find_row-append_old :
    {A : Type 0} (key : A → ℕ) (id : ℕ) (xs ys : List A) {r : A}
    → find_row key id xs ≡ some r
    → find_row key id (xs ++ ys) ≡ some r
unfolding find_row
find_row-append_old key id [] ys h = cc
find_row-append_old key id (x ∷ xs) ys {r} h =
    ground (arith, find_row-append_old key id xs ys {r = r})

find_row-append_new :
    {A : Type 0} (key : A → ℕ) (a : A) (xs : List A)
    → find_row key (key a) xs ≡ none
    → find_row key (key a) (xs ++ (a ∷ [])) ≡ some a
unfolding find_row
find_row-append_new key a [] h = ground arith
find_row-append_new key a (x ∷ xs) h = ground (arith, find_row-append_new key a xs)

module _ (env : Env) where
  create_step_row-Quiet : (s : Step) → Quiet (create_step_row env s)
  unfolding create_step_row
  create_step_row-Quiet s db = ground arith

  create_queued_step-Quiet : (job : Job) (s : Step) → Quiet (create_queued_step env job s)
  unfolding create_queued_step
  create_queued_step-Quiet job s =
      >>=-Quiet (create_log job.log_descriptor_id s.id) _
        (create_log-Quiet job.log_descriptor_id s.id)
        λ log.
          >>=-Quiet (guard (s.job_id == job.id) mismatched_ids) _
            (guard-Quiet (s.job_id == job.id) mismatched_ids)
            λ _.
              >>=-Quiet (create_step_row env (record s { log_descriptor_id = log })) _
                (create_step_row-Quiet (record s { log_descriptor_id = log }))
                λ s'.
                  >>=-Quiet (update_step env job s' true) _ (update_step-jobs env job s' true)
                    λ _ _. refl

  pub create_steps-Quiet :
      (lib : DagLib) (job : Job) (steps : List Step) → Quiet (create_steps env lib job steps)
  unfolding create_steps
  create_steps-Quiet lib job steps =
      >>=-Quiet (found_or invalid (new_dag lib (map step_node steps))) _
        (found_or-Quiet invalid (new_dag lib (map step_node steps)))
        λ d.
          for_each-Quiet (create_queued_step env job) (walk lib steps d)
            (create_queued_step-Quiet job)

  create_job_row-effect :
      (j : Job) (db : Db)
      → OnOk (create_job_row env j db) λ new d.
        (new.id ≡ j.id) × (find_row job_key j.id db.jobs ≡ none) × (d.jobs ≡ db.jobs ++ (new ∷ []))
  unfolding create_job_row
  create_job_row-effect j db = ground arith

  create_job-effect :
      (j : Job) (db : Db)
      → OnOk (create_job env j db) λ new d.
        (new.id ≡ j.id) × (find_row job_key j.id db.jobs ≡ none) × (d.jobs ≡ db.jobs ++ (new ∷ []))
  unfolding create_job update_deferred_dependencies
  create_job-effect j db =
      OnOk-bind (create_job_row env j) _ _ _ (create_job_row-effect j db) λ new d₁ f.
        OnOk-bind (for_each (create_dependency new) new.depends) _ _ _
          (for_each-Quiet (create_dependency new) new.depends (create_dependency-Quiet new) d₁)
          λ _ d₂ e. (f.0, f.1, e ∙ f.2)

  update_job_row-others :
      (j : Job) (id : ℕ) (db : Db)
      → j.id ≢ id
      → OnOk
          (update_job_row env j db)
          λ _ d. find_row job_key id d.jobs ≡ find_row job_key id db.jobs
  unfolding update_job_row
  update_job_row-others j id db h =
      OnOk-bind (guard (job_valid j) invalid) _ _ _ (guard-lem (job_valid j) invalid db) λ _ d₁ f₁.
        OnOk-bind (found_or optimistic_lock_failed (find_row job_key j.id db.jobs)) _ _ _
          (found-lem optimistic_lock_failed (find_row job_key j.id db.jobs) d₁)
          λ old d₂ f₂.
            OnOk-bind (guard (tag_matches j.etag old.etag) optimistic_lock_failed) _ _ _
              (guard-lem (tag_matches j.etag old.etag) optimistic_lock_failed d₂)
              λ _ d₃ f₃.
                find_row-put_row_ne job_key id
                  (record j { etag = tag (env.job_hash j); created_at = old.created_at }) d₃.jobs h
                ∙ ap (λ d. find_row job_key id d.jobs) (f₃.1 ∙ f₂.1 ∙ f₁.1)

  update_job-others :
      (j : Job) (c : Bool) (id : ℕ) (db : Db)
      → j.id ≢ id
      → OnOk (update_job env j c db) λ _ d. find_row job_key id d.jobs ≡ find_row job_key id db.jobs
  unfolding update_job publish_event
  update_job-others j c id db h =
      OnOk-bind (enter_status db.now j.status j.log_descriptor_id j.timings) _ _ _
        (enter_status-frame db.now j.status j.log_descriptor_id j.timings db)
        λ t d₁ f₁.
          OnOk-bind (update_job_row env (record j { updated_at = db.now; timings = t })) _ _ _
            (update_job_row-others (record j { updated_at = db.now; timings = t }) id d₁ h)
            λ k d₂ f₂. ground (arith, f₂, ap (find_row job_key id) f₁.0)

  -- A created job has a row, and the rows of other jobs stay as they are.
  pub create_queued_job-own :
      (build : Build) (j : Job) (db : Db)
      → OnOk (create_queued_job env build j db) λ k d. find_row job_key j.id d.jobs ≡ some k
  unfolding create_queued_job
  create_queued_job-own build j db =
      OnOk-bind (create_log build.log_descriptor_id j.id) _ _ _
        (anything (create_log build.log_descriptor_id j.id db))
        λ log d₁ _.
          OnOk-bind (guard (j.build_id == build.id) mismatched_ids) _ _ _
            (anything (guard (j.build_id == build.id) mismatched_ids d₁))
            λ _ d₂ _.
              OnOk-bind (create_job env (record j { log_descriptor_id = log })) _ _ _
                (create_job-effect (record j { log_descriptor_id = log }) d₂)
                λ k d₃ f.
                  OnOk-map (update_job env k true d₃) _ _ (update_job-effect env k true d₃)
                    λ k' d₄ g. ap (λ i. find_row job_key i d₄.jobs) (sym f.0) ∙ g.0

  pub create_queued_job-others :
      (build : Build) (j : Job) (id : ℕ) (db : Db) {k : Job}
      → j.id ≢ id
      → find_row job_key id db.jobs ≡ some k
      → OnOk (create_queued_job env build j db) λ _ d. find_row job_key id d.jobs ≡ some k
  unfolding create_queued_job
  create_queued_job-others build j id db n h =
      OnOk-bind (create_log build.log_descriptor_id j.id) _ _ _
        (create_log-Quiet build.log_descriptor_id j.id db)
        λ log d₁ e₁.
          OnOk-bind (guard (j.build_id == build.id) mismatched_ids) _ _ _
            (guard-Quiet (j.build_id == build.id) mismatched_ids d₁)
            λ _ d₂ e₂.
              OnOk-bind (create_job env (record j { log_descriptor_id = log })) _ _ _
                (create_job-effect (record j { log_descriptor_id = log }) d₂)
                λ k₃ d₃ f.
                  OnOk-map (update_job env k₃ true d₃) _ _
                    (update_job-others k₃ true id d₃ (rw f.0 n))
                    λ _ d₄ g.
                      g
                      ∙ ap (find_row job_key id) f.2
                      ∙ find_row-append_old job_key id d₂.jobs (k₃ ∷ [])
                          (ap (find_row job_key id) (e₂ ∙ e₁) ∙ h)
