-- ===== src/Queue/Updates/Maintenance.antt =====
-- What `maintainBuildStatus` leaves behind.
use buildbeaver.Base.{
  ◌==◌, if◌then◌else◌, Option-cases, ℕ, ◌≡◌, refl, sym, ap, subst, ◌∙◌, inl, inr, Bool, true, false,
  not, Option, none, some, List, arith,
}
use buildbeaver.Models.{WorkflowStatus, has_finished, status_eq, not_found, ErrorInfo, Job, Build}
use buildbeaver.Queue.{
  find_row, find_row-key, find_row-put_row_own, select, Db, Result, ok, err, ◌>>◌, pure, found,
  when, OnOk, OnOk-bind, OnOk-map, >>=-err,
}
use buildbeaver.Queue.Services.{Env, build_key, read_build, list_by_build_id, delete_identity}
use buildbeaver.Queue.Updates.BuildStatus.{
  expected_status, status_or, next_build_status-expected, update_build-frame,
}
use buildbeaver.Queue.Updates.{
  update_build, Tally, tally_jobs, next_build_status, empty_tally, apply_build_status,
  maintain_unfinished, maintain_build_status,
}

-- The new status of the row, by its old status and the jobs.
unfoldable pub settled_status : Build → List Job → WorkflowStatus
settled_status old jobs =
    if has_finished old.status then old.status else expected_status old.status jobs

abbrev pub own_jobs : ℕ → Db → List Job
own_jobs id db = select (λ j. j.build_id == id) db.jobs

module _ (env : Env) where
  -- What `maintainBuildStatus` leaves: the jobs as they were, and as the row of the build a build of
  -- the given status.
  abbrev Maintained : ℕ → Db → WorkflowStatus → Build → Db → Type 0
  Maintained id db s b d =
      (b.status ≡ s) × (d.jobs ≡ db.jobs) × (find_row build_key id d.builds ≡ some b)

  delete_identity-frame :
      (id : ℕ) (db : Db)
      → OnOk (delete_identity id db) λ _ d. (d.jobs ≡ db.jobs) × (d.builds ≡ db.builds)
  unfolding delete_identity
  delete_identity-frame id db = ground arith

  apply_build_status-lem :
      (old : Build) (t : Tally) (o : Option (WorkflowStatus × Option ErrorInfo)) (db : Db)
      → find_row build_key old.id db.builds ≡ some old
      → OnOk (apply_build_status env old t o db) (Maintained old.id db (status_or old.status o))
  unfolding apply_build_status
  apply_build_status-lem old t none db h = (refl, refl, h)
  apply_build_status-lem old t (some (s, e)) db h =
      OnOk-bind (update_build env (record old { error = e; status = s }) _) _ _ _
        (update_build-frame env (record old { error = e; status = s })
          (not (status_eq old.status s)) db)
        λ b₁ d₁ f₁. leave t.all_jobs_done b₁ d₁ (
          f₁.0,
          f₁.2,
          ap (find_row build_key old.id) f₁.3
              ∙ find_row-put_row_own build_key old.id b₁ old db.builds f₁.1 h,
        )
    where
      leave :
          (done : Bool) (b : Build) (d : Db)
          → Maintained old.id db s b d
          → OnOk ((when done (delete_identity b.id) >> pure b) d) (Maintained old.id db s)
      leave true b d f =
          OnOk-bind (delete_identity b.id) _ _ _ (delete_identity-frame b.id d)
            λ _ d₂ g. (f.0, g.0 ∙ f.1, ap (find_row build_key old.id) g.1 ∙ f.2)
      leave false b d f = f

  maintain_found :
      (old : Build) (finished : Bool) (db : Db)
      → has_finished old.status ≡ finished
      → find_row build_key old.id db.builds ≡ some old
      → OnOk
          ((if finished then pure old else maintain_unfinished env old) db)
          (Maintained old.id db (settled_status old (own_jobs old.id db)))
  unfolding settled_status maintain_unfinished list_by_build_id
  maintain_found old true db e h = (ground arith, refl, h)
  maintain_found old false db e h =
      subst
        (λ s.
          OnOk
            (apply_build_status env old (tally_jobs old.status (own_jobs old.id db) empty_tally)
              (next_build_status (tally_jobs old.status (own_jobs old.id db) empty_tally)) db)
            (Maintained old.id db s))
        (rw (e, next_build_status-expected old.status (own_jobs old.id db)))
        (apply_build_status-lem old (tally_jobs old.status (own_jobs old.id db) empty_tally) _ db h)

  pub maintain_build_status-expected :
      (id : ℕ) (old : Build) (db : Db)
      → find_row build_key id db.builds ≡ some old
      → OnOk (maintain_build_status env id db) λ b d.
        (b.status ≡ settled_status old (select (λ j. j.build_id == id) db.jobs))
        × (d.jobs ≡ db.jobs)
        × (find_row build_key id d.builds ≡ some b)
  unfolding maintain_build_status read_build
  maintain_build_status-expected id old db h =
      subst
        (λ (o : Option Build).
          OnOk
            (elim (found o db) as (λ _. Result (Build × Db)) [
              | ok (b, d) ↦ (if has_finished b.status then pure b else maintain_unfinished env b) d
              | err e ↦ err e
            ])
            (Maintained id db (settled_status old (own_jobs id db))))
        (sym h)
        (subst
          (λ i.
            find_row build_key i db.builds ≡ some old
            → OnOk ((if has_finished old.status then pure old else maintain_unfinished env old) db)
                (Maintained i db (settled_status old (own_jobs i db))))
          (find_row-key build_key id db.builds h)
          (maintain_found old (has_finished old.status) db refl) h)

  build_not_found :
      (id : ℕ) (db : Db) → find_row build_key id db.builds ≡ none → read_build id db ≡ err not_found
  unfolding read_build
  build_not_found id db e = rw e

  pub maintain_build_status-jobs :
      (id : ℕ) (db : Db) → OnOk (maintain_build_status env id db) λ _ d. d.jobs ≡ db.jobs
  unfolding maintain_build_status
  maintain_build_status-jobs id db = elim (Option-cases (find_row build_key id db.builds)) [
    | inl e ↦
        subst (λ x. OnOk x λ _ d. d.jobs ≡ db.jobs)
          (sym (>>=-err {B = Build} (read_build id) _ db {e = not_found} (build_not_found id db e)))
          tt
    | inr (old, e) ↦
        OnOk-map (maintain_build_status env id db) _ _ (maintain_build_status-expected id old db e)
          λ _ _ f. f.1
  ]
