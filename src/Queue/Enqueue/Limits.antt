-- ===== src/Queue/Enqueue/Limits.antt =====
-- The number of jobs that `addJobsToBuild` leaves in a build.
use buildbeaver.Base.{
  leb, length, length-append, ℕ, suc, ◌+◌, ◌≤◌, ◌≡◌, refl, ap, ◌∙◌, not, List, [], ◌∷◌, map, arith,
}
use buildbeaver.Models.{has_finished, validation_failed, invalid}
use buildbeaver.Graph.{DagLib, new_dag, walk, JobGraph, BuildGraph, job_node, build_graph_valid}
use buildbeaver.Queue.{put_row, Db, M, found_or, guard, OnOk, OnOk-bind, OnOk-map, anything}
use buildbeaver.Queue.Services.{Env}
use buildbeaver.Queue.Updates.{maintain_build_status}
use buildbeaver.Queue.Updates.Finishing.{guard-lem}
use buildbeaver.Queue.Enqueue.Graphs.{
  map_each, populate_job_graph, populate_build, populate_defaults, JobDefinition, LimitsConfig,
  Definitions, make_job_graph, make_job_graphs, append_job_graphs,
}
use buildbeaver.Queue.Enqueue.Operations.{read_build_graph, add_jobs_to_build}
use buildbeaver.Queue.Enqueue.{
  fail_if_incompatible, fail_jobs_with_no_compatible_runner, graph_key, put_all, enqueue_each,
  enqueue_jobs,
}

length-map_each :
    {A B : Type 0} (f : A → M B) (xs : List A) (db : Db)
    → OnOk (map_each f xs db) λ ys _. length ys ≡ length xs
unfolding map_each
length-map_each f [] db = refl
length-map_each f (x ∷ xs) db =
    OnOk-bind (f x) _ _ _ (anything (f x db))
      λ y d₁ _. OnOk-bind (map_each f xs) _ _ _ (length-map_each f xs d₁) λ ys d₂ e. ap suc e

length-map {ℓ κ} :
    {A : Type ℓ} {B : Type κ} (f : A → B) (xs : List A) → length (map f xs) ≡ length xs
length-map f [] = refl
length-map f (x ∷ xs) = ap suc (length-map f xs)

length-put_row :
    {A : Type 0} (key : A → ℕ) (a : A) (xs : List A) → length (put_row key a xs) ≡ length xs
unfolding put_row
length-put_row key a [] = refl
length-put_row key a (x ∷ xs) = ground (arith, length-put_row key a xs)

length-put_all : (cs gs : List JobGraph) → length (put_all cs gs) ≡ length gs
unfolding put_all
length-put_all [] gs = refl
length-put_all (c ∷ cs) gs =
    length-put_all cs (put_row graph_key c gs) ∙ length-put_row graph_key c gs

populate_defaults-length :
    (g : BuildGraph) (db : Db)
    → OnOk (populate_defaults g db) λ g' _. length g'.jobs ≡ length g.jobs
unfolding populate_defaults
populate_defaults-length g db =
    OnOk-bind (populate_build g.build) _ _ _ (anything (populate_build g.build db)) λ b d₁ _.
      OnOk-bind (map_each (populate_job_graph b) g.jobs) _ _ _
        (length-map_each (populate_job_graph b) g.jobs d₁) λ jobs d₂ e. e

append_job_graphs-length :
    (defs : Definitions) (limits : LimitsConfig) (g : BuildGraph) (jobs : List JobDefinition)
    (db : Db)
    → OnOk (append_job_graphs defs limits g jobs db) λ g' _.
      (length g'.jobs ≡ length g.jobs + length jobs) × (length g'.jobs ≤ limits.max_jobs_per_build)
unfolding append_job_graphs make_job_graphs
append_job_graphs-length defs limits g jobs db =
    OnOk-bind
      (guard (leb (length g.jobs + length jobs) limits.max_jobs_per_build) validation_failed) _ _ _
      (guard-lem (leb (length g.jobs + length jobs) limits.max_jobs_per_build) validation_failed db)
      λ _ d₁ f.
        OnOk-bind (map_each (make_job_graph defs g.build) jobs) _ _ _
          (length-map_each (make_job_graph defs g.build) jobs d₁)
          λ new d₂ e. ground (arith, e, f.0, length-append g.jobs new)

enqueue_jobs-length :
    (env : Env) (lib : DagLib) (g : BuildGraph) (db : Db)
    → OnOk (enqueue_jobs env lib g db) λ r _. length r.0.jobs ≡ length g.jobs
unfolding enqueue_jobs fail_jobs_with_no_compatible_runner
enqueue_jobs-length env lib g db =
    OnOk-bind (found_or invalid (new_dag lib (map job_node (map (fail_if_incompatible db) g.jobs))))
      _ _ _
      (anything
        (found_or invalid (new_dag lib (map job_node (map (fail_if_incompatible db) g.jobs))) db))
      λ dag d₁ _.
        OnOk-bind
          (enqueue_each env lib g.build (walk lib (map (fail_if_incompatible db) g.jobs) dag)) _ _ _
          (anything
            (enqueue_each env lib g.build (walk lib (map (fail_if_incompatible db) g.jobs) dag) d₁))
          λ created d₂ _.
            OnOk-bind (maintain_build_status env g.build.id) _ _ _
              (anything (maintain_build_status env g.build.id d₂))
              λ b d₃ _.
                length-put_all created (map (fail_if_incompatible db) g.jobs)
                ∙ length-map (fail_if_incompatible db) g.jobs

module _ (env : Env) (lib : DagLib) (defs : Definitions) (limits : LimitsConfig) where
  -- If jobs were added to a build, then its graph has at least as many jobs as were given, and at most
  -- as many as the limit allows.
  pub add_jobs_to_build-length :
      (id : ℕ) (jobs : List JobDefinition) (db : Db)
      → OnOk
          (add_jobs_to_build env lib defs limits id jobs db)
          λ r _. (length jobs ≤ length r.0.jobs) × (length r.0.jobs ≤ limits.max_jobs_per_build)
  unfolding add_jobs_to_build
  add_jobs_to_build-length id jobs db =
      OnOk-bind (read_build_graph id) _ _ _ (anything (read_build_graph id db)) λ g d₁ _.
        OnOk-bind (guard (not (has_finished g.build.status)) validation_failed) _ _ _
          (anything (guard (not (has_finished g.build.status)) validation_failed d₁))
          λ _ d₂ _.
            OnOk-bind (append_job_graphs defs limits g jobs) _ _ _
              (append_job_graphs-length defs limits g jobs d₂)
              λ g₁ d₃ e₁.
                OnOk-bind (populate_defaults g₁) _ _ _ (populate_defaults-length g₁ d₃) λ g₂ d₄ e₂.
                  OnOk-bind (guard (build_graph_valid lib g₂) validation_failed) _ _ _
                    (anything (guard (build_graph_valid lib g₂) validation_failed d₄))
                    λ _ d₅ _.
                      OnOk-map (enqueue_jobs env lib g₂ d₅) _ _ (enqueue_jobs-length env lib g₂ d₅)
                        λ r d₆ e₃. ground (arith, e₁.0, e₁.1, e₂, e₃)
