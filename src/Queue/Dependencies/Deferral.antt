-- ===== src/Queue/Dependencies/Deferral.antt =====
-- Which dependencies hold a job back, and when they are resolved.
use buildbeaver.Base.{
  ◌==◌, if◌then◌else◌, Bool-cases, some-inj, any, ◌≡◌, refl, sym, ap, subst, ◌∙◌, inl, inr, Bool,
  true, false, not, ◌&&◌, some, List, [], ◌∷◌, ◌++◌, map, arith,
}
use buildbeaver.Models.{has_finished, JobDependency, Job}
use buildbeaver.Queue.{first, DependencyRow, Runner, Db, for_each, OnOk, OnOk-bind, anything}
use buildbeaver.Queue.Services.{Env}
use buildbeaver.Queue.Selection.{blocks, ready_for}
use buildbeaver.Queue.Dependencies.{
  read_by_name, insert_dependency, dependency_on, depend_on, create_dependency, waits_for, resolve,
  update_deferred_dependencies, create_job_row, create_job,
}

unresolved-resolve :
    (target : Job) (rows : List DependencyRow)
    → any (waits_for target) (map (resolve target) rows) ≡ false
unfolding resolve waits_for
unresolved-resolve target [] = refl
unresolved-resolve target (r ∷ rows) = ground (arith, unresolved-resolve target rows)

-- Once a job was created, no dependency waits for a job of its build, workflow and name any more.
pub create_job-waits_for :
    (env : Env) (j : Job) (db : Db)
    → OnOk (create_job env j db) λ job d. any (waits_for job) d.dependencies ≡ false
unfolding create_job update_deferred_dependencies
create_job-waits_for env j db =
    OnOk-bind (create_job_row env j) _ _ _ (anything (create_job_row env j db)) λ job d₁ _.
      OnOk-bind (for_each (create_dependency job) job.depends) _ _ _
        (anything (for_each (create_dependency job) job.depends d₁))
        λ _ d₂ _. unresolved-resolve job d₂.dependencies

any-append {ℓ} :
    {A : Type ℓ} (p : A → Bool) (xs : List A) (x : A) → p x ≡ true → any p (xs ++ (x ∷ [])) ≡ true
any-append p [] x h = ground (arith, h)
any-append p (y ∷ ys) x h = ground (arith, any-append p ys x h)

first-any {ℓ} :
    {A : Type ℓ} (p q : A → Bool) (xs : List A) {x : A}
    → first p xs ≡ some x
    → q x ≡ true
    → any q xs ≡ true
unfolding first
first-any p q [] f h = cc
first-any p q (y ∷ ys) {x} f h = elim (Bool-cases (p y)) [
  | inl e ↦ ground (arith, h, some-inj (sym (ap (λ b. if b then some y else first p ys) e) ∙ f))
  | inr e ↦
      ground (arith, first-any p q ys (sym (ap (λ b. if b then some y else first p ys) e) ∙ f) h)
]

blocks-dependency_on :
    (job target : Job) (p : Job → Bool) (jobs : List Job)
    → first p jobs ≡ some target
    → has_finished target.status ≡ false
    → blocks jobs job (dependency_on job target) ≡ true
unfolding blocks dependency_on
blocks-dependency_on job target p jobs e f = ground (
  arith,
  first-any p (λ j. j.id == target.id && not (has_finished j.status)) jobs e (ground (arith, f)),
)

ready_for-blocked :
    (db : Db) (runner : Runner) (job : Job)
    → any (blocks db.jobs job) db.dependencies ≡ true
    → ready_for db runner job ≡ false
unfolding ready_for
ready_for-blocked db runner job h = ground (arith, h)

-- A job that was made to depend on a job that is not finished is not ready for any runner.
pub create_dependency-ready_for :
    (job target : Job) (d : JobDependency) (runner : Runner) (db : Db)
    → read_by_name job.build_id d.workflow d.job_name db.jobs ≡ some target
    → has_finished target.status ≡ false
    → OnOk (create_dependency job d db) λ _ db'. ready_for db' runner job ≡ false
unfolding create_dependency depend_on insert_dependency read_by_name
create_dependency-ready_for job target d runner db e f =
    subst (λ o. OnOk (depend_on job d o db) λ _ db'. ready_for db' runner job ≡ false) (sym e)
      (ready_for-blocked
        (record db { dependencies = db.dependencies ++ (dependency_on job target ∷ []) }) runner job
        (any-append (blocks db.jobs job) db.dependencies (dependency_on job target)
          (blocks-dependency_on job target _ db.jobs e f)))
