-- ===== src/Queue/Enqueue/Outcomes.antt =====
-- What the walk over the jobs of a graph leaves of the table of jobs.
use buildbeaver.Base.{
  if◌then◌else◌, All, ℕ, ◌≡◌, refl, sym, ap, ◌∙◌, ◌≢◌, Option, none, some, List, [], ◌∷◌,
}
use buildbeaver.Models.{Job, Build}
use buildbeaver.Graph.{DagLib, JobGraph}
use buildbeaver.Queue.{find_row, Db, ok, M, pure, OnOk, OnOk-bind, OnOk-map, OnOk-both, >>=-ok}
use buildbeaver.Queue.Services.{Env, job_key}
use buildbeaver.Queue.Enqueue.Rows.{
  create_steps-Quiet, create_queued_job-own, create_queued_job-others,
}
use buildbeaver.Queue.Enqueue.{is_free, create_queued_job, create_steps, enqueue_new, enqueue_each}

-- The job of the graph has a row.
unfoldable pub Present : List Job → JobGraph → Type 0
Present rows g = (j : Job) × (find_row job_key g.job.id rows ≡ some j)

module _ (env : Env) (lib : DagLib) (build : Build) where
  enqueue_new-Present :
      (g : JobGraph) (db : Db) → OnOk (enqueue_new env lib build g db) λ _ d. Present d.jobs g
  unfolding enqueue_new Present
  enqueue_new-Present g db =
      OnOk-bind (create_queued_job env build g.job) _ _ _ (create_queued_job-own env build g.job db)
        λ j d₁ e₁.
          OnOk-bind (create_steps env lib j g.steps) _ _ _ (create_steps-Quiet env lib j g.steps d₁)
            λ _ d₂ e₂. (j, ap (find_row job_key g.job.id) e₂ ∙ e₁)

  enqueue_new-others :
      (g : JobGraph) (id : ℕ) (db : Db) {k : Job}
      → g.job.id ≢ id
      → find_row job_key id db.jobs ≡ some k
      → OnOk (enqueue_new env lib build g db) λ _ d. find_row job_key id d.jobs ≡ some k
  unfolding enqueue_new
  enqueue_new-others g id db n h =
      OnOk-bind (create_queued_job env build g.job) _ _ _
        (create_queued_job-others env build g.job id db n h)
        λ j d₁ e₁.
          OnOk-bind (create_steps env lib j g.steps) _ _ _ (create_steps-Quiet env lib j g.steps d₁)
            λ _ d₂ e₂. ap (find_row job_key id) e₂ ∙ e₁

  -- The callback of the walk, given the result of the read.
  abbrev enqueue_if_free : JobGraph → Option Job → M (List JobGraph)
  enqueue_if_free g o = if is_free o then enqueue_new env lib build g else pure []

  enqueue_if_free-keeps :
      (g : JobGraph) (o : Option Job) (id : ℕ) (db : Db) {k : Job}
      → find_row job_key g.job.id db.jobs ≡ o
      → find_row job_key id db.jobs ≡ some k
      → OnOk (enqueue_if_free g o db) λ _ d. find_row job_key id d.jobs ≡ some k
  unfolding is_free
  enqueue_if_free-keeps g (some j) id db e h = h
  enqueue_if_free-keeps g none id db {k} e h = enqueue_new-others g id db other h
    where
      missing : none ≡ some k → ⊥
      missing c = cc

      other : g.job.id ≢ id
      other i = absurd (missing (sym e ∙ ap (λ n. find_row job_key n db.jobs) i ∙ h))

  enqueue_if_free-Present :
      (g : JobGraph) (o : Option Job) (db : Db)
      → find_row job_key g.job.id db.jobs ≡ o
      → OnOk (enqueue_if_free g o db) λ _ d. Present d.jobs g
  unfolding is_free Present
  enqueue_if_free-Present g (some j) db e = (j, e)
  enqueue_if_free-Present g none db e = enqueue_new-Present g db

  enqueue_each-keeps :
      (gs : List JobGraph) (id : ℕ) (db : Db) {k : Job}
      → find_row job_key id db.jobs ≡ some k
      → OnOk (enqueue_each env lib build gs db) λ _ d. find_row job_key id d.jobs ≡ some k
  unfolding enqueue_each
  enqueue_each-keeps [] id db h = h
  enqueue_each-keeps (g ∷ gs) id db h =
      OnOk-bind (enqueue_if_free g (find_row job_key g.job.id db.jobs)) _ _ _
        (enqueue_if_free-keeps g (find_row job_key g.job.id db.jobs) id db refl h)
        λ new d₁ e₁.
          OnOk-bind (enqueue_each env lib build gs) _ _ _ (enqueue_each-keeps gs id d₁ e₁)
            λ rest d₂ e₂. e₂

  enqueue_each-Present :
      (gs : List JobGraph) (db : Db)
      → OnOk (enqueue_each env lib build gs db) λ _ d. All (Present d.jobs) gs
  unfolding enqueue_each Present
  enqueue_each-Present [] db = tt
  enqueue_each-Present (g ∷ gs) db =
      OnOk-bind (enqueue_if_free g (find_row job_key g.job.id db.jobs)) _ _ _
        (enqueue_if_free-Present g (find_row job_key g.job.id db.jobs) db refl)
        λ new d₁ (j, e₁).
          OnOk-bind (enqueue_each env lib build gs) _ _ _
            (OnOk-both (enqueue_each env lib build gs d₁) _ _ (enqueue_each-keeps gs g.job.id d₁ e₁)
              (enqueue_each-Present gs d₁))
            λ rest d₂ f. ((j, f.0), f.1)

  enqueue_each-nothing :
      (gs : List JobGraph) (db : Db)
      → All (Present db.jobs) gs
      → enqueue_each env lib build gs db ≡ ok ([], db)
  unfolding enqueue_each Present is_free
  enqueue_each-nothing [] db h = refl
  enqueue_each-nothing (g ∷ gs) db h = rw h.0.1 (
      >>=-ok (enqueue_each env lib build gs) (λ rest. pure rest) db
        (enqueue_each-nothing gs db h.1))

  -- If a walk over job graphs ends without an error, then all their jobs have rows, and a second walk
  -- over them creates nothing and leaves the database as it is.
  pub enqueue_each-idempotent :
      (gs : List JobGraph) (db : Db)
      → OnOk
          (enqueue_each env lib build gs db)
          λ _ d. All (Present d.jobs) gs × (enqueue_each env lib build gs d ≡ ok ([], d))
  enqueue_each-idempotent gs db =
      OnOk-map (enqueue_each env lib build gs db) _ _ (enqueue_each-Present gs db)
        λ _ d h. (h, enqueue_each-nothing gs d h)
