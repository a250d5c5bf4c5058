-- ===== src/Queue/Updates/Finishing.antt =====
-- What an update of a job or a step leaves behind: its event, and its sealed log.
use buildbeaver.Base.{
  if◌then◌else◌, Bool-cases, ℕ, ◌+◌, ◌≡◌, refl, sym, ap, subst, ◌∙◌, inl, inr, Bool, true, false,
  not, Option, none, some, List, [], ◌∷◌, ◌++◌, arith,
}
use buildbeaver.Models.{
  WorkflowStatus, failed, succeeded, canceled, has_finished, tag, Error, not_found,
  optimistic_lock_failed, already_sealed, invalid, external, WorkflowTimings, Job, job_valid,
}
use buildbeaver.Queue.{
  find_row, put_row, find_row-key, find_row-put_row_own, LogDescriptor, Db, ok, err, ◌>>◌, pure,
  found_or, found, when, guard, OnOk, OnOk-bind, OnOk-map, OnOk-both, OnOk-ok, >>=-err,
}
use buildbeaver.Queue.Services.{
  Env, job_key, log_key, total, seal_log, tag_matches, update_job_row, publish_event,
}
use buildbeaver.Queue.Updates.BuildStatus.{enter_status-frame}
use buildbeaver.Queue.Updates.{enter_status, job_event, update_job}

-- The log is sealed.
unfoldable pub Sealed : ℕ → List LogDescriptor → Type 0
Sealed log logs = (l : LogDescriptor) × (find_row log_key log logs ≡ some l) × (l.sealed ≡ true)

pub found-lem :
    {A : Type 0} (e : Error) (o : Option A) (db : Db)
    → OnOk (found_or e o db) λ a d. (o ≡ some a) × (d ≡ db)
found-lem e none db = tt
found-lem e (some a) db = (refl, refl)

pub guard-lem : (b : Bool) (e : Error) (db : Db) → OnOk (guard b e db) λ _ d. (b ≡ true) × (d ≡ db)
guard-lem true e db = (refl, refl)
guard-lem false e db = tt

abbrev sealed_with : List ℕ → LogDescriptor → LogDescriptor
sealed_with sizes l = record l { sealed = true; size_bytes = l.size_bytes + total sizes }

seal_log-Sealed : (id : ℕ) (db : Db) → OnOk (seal_log id db) λ _ d. Sealed id d.logs
unfolding seal_log Sealed
seal_log-Sealed id db =
    OnOk-bind (found (find_row log_key id db.logs)) _ _ _
      (found-lem not_found (find_row log_key id db.logs) db)
      λ l d f.
        OnOk-bind (guard (not l.sealed) already_sealed) _ _ _
          (guard-lem (not l.sealed) already_sealed d)
          λ _ d₂ g.
            OnOk-bind (found_or external (db.list_blobs id)) _ _ _
              (found-lem external (db.list_blobs id) d₂)
              λ sizes d₃ h. (
                sealed_with sizes l,
                ap (λ x. find_row log_key id (put_row log_key (sealed_with sizes l) x.logs))
                      (h.1 ∙ g.1 ∙ f.1)
                    ∙ find_row-put_row_own log_key id (sealed_with sizes l) l db.logs
                        (find_row-key log_key id db.logs f.0) f.0,
                refl,
              )

enter_status-Sealed :
    (now : ℕ) (s : WorkflowStatus) (log : ℕ) (t : WorkflowTimings) (db : Db)
    → has_finished s ≡ true
    → OnOk (enter_status now s log t db) λ _ d. Sealed log d.logs
unfolding enter_status has_finished
enter_status-Sealed now succeeded log t db h =
    OnOk-bind (seal_log log) _ _ _ (seal_log-Sealed log db) λ _ d f. f
enter_status-Sealed now failed log t db h =
    OnOk-bind (seal_log log) _ _ _ (seal_log-Sealed log db) λ _ d f. f
enter_status-Sealed now canceled log t db h =
    OnOk-bind (seal_log log) _ _ _ (seal_log-Sealed log db) λ _ d f. f
enter_status-Sealed now _ log t db h = ground arith

-- A job's update, so far: no event is published, and a final status has sealed the log.
enter_status-left :
    (now : ℕ) (s : WorkflowStatus) (log : ℕ) (t : WorkflowTimings) (db : Db)
    → OnOk
        (enter_status now s log t db)
        λ _ d. (d.events ≡ db.events) × (has_finished s ≡ true → Sealed log d.logs)
enter_status-left now s log t db = elim (Bool-cases (has_finished s)) [
  | inl f ↦
      OnOk-map (enter_status now s log t db) _ _
        (OnOk-both (enter_status now s log t db) _ _ (enter_status-frame now s log t db)
          (enter_status-Sealed now s log t db f))
        λ u d g. (g.0.3, λ _. g.1)
  | inr f ↦
      OnOk-map (enter_status now s log t db) _ _ (enter_status-frame now s log t db)
        λ u d g. (g.3, λ h. cc)
]

enter_status_refused :
    (now : ℕ) (s : WorkflowStatus) (log : ℕ) (t : WorkflowTimings) (db : Db)
    → has_finished s ≡ true
    → Sealed log db.logs
    → enter_status now s log t db ≡ err already_sealed
unfolding enter_status has_finished seal_log Sealed
enter_status_refused now s log t db h f = ground (arith, f.1, f.2)

module _ (env : Env) where
  abbrev stored : Job → Job → Job
  stored j old = record j { etag = tag (env.job_hash j); created_at = old.created_at }

  update_job_row-frame :
      (j : Job) (db : Db)
      → OnOk (update_job_row env j db) λ k d.
        (k.status ≡ j.status)
        × (k.id ≡ j.id)
        × (k.log_descriptor_id ≡ j.log_descriptor_id)
        × (d.logs ≡ db.logs)
        × (d.events ≡ db.events)
        × (find_row job_key j.id d.jobs ≡ some k)
        × (k.runner_id ≡ j.runner_id)
  unfolding update_job_row
  update_job_row-frame j db =
      OnOk-bind (guard (job_valid j) invalid) _ _ _ (guard-lem (job_valid j) invalid db) λ _ d₁ f₁.
        OnOk-bind (found_or optimistic_lock_failed (find_row job_key j.id db.jobs)) _ _ _
          (found-lem optimistic_lock_failed (find_row job_key j.id db.jobs) d₁)
          λ old d₂ f₂.
            OnOk-bind (guard (tag_matches j.etag old.etag) optimistic_lock_failed) _ _ _
              (guard-lem (tag_matches j.etag old.etag) optimistic_lock_failed d₂)
              λ _ d₃ f₃. (
                refl,
                refl,
                refl,
                ap (λ d. d.logs) (f₃.1 ∙ f₂.1 ∙ f₁.1),
                ap (λ d. d.events) (f₃.1 ∙ f₂.1 ∙ f₁.1),
                ap (λ d. find_row job_key j.id (put_row job_key (stored j old) d.jobs))
                      (f₃.1 ∙ f₂.1 ∙ f₁.1)
                    ∙ find_row-put_row_own job_key j.id (stored j old) old db.jobs refl f₂.0,
                refl,
              )

  -- What an update that ends without an error leaves behind.
  pub update_job-effect :
      (j : Job) (changed : Bool) (db : Db)
      → OnOk (update_job env j changed db) λ k d.
        (find_row job_key j.id d.jobs ≡ some k)
        × (k.status ≡ j.status)
        × (d.events ≡ (if changed then db.events ++ (job_event k ∷ []) else db.events))
        × (has_finished j.status ≡ true → Sealed j.log_descriptor_id d.logs)
        × (k.id ≡ j.id)
        × (k.runner_id ≡ j.runner_id)
  unfolding update_job publish_event
  update_job-effect j changed db =
      OnOk-bind (enter_status db.now j.status j.log_descriptor_id j.timings) _ _ _
        (enter_status-left db.now j.status j.log_descriptor_id j.timings db)
        λ t d₁ f₁.
          OnOk-bind (update_job_row env (record j { updated_at = db.now; timings = t })) _ _ _
            (update_job_row-frame (record j { updated_at = db.now; timings = t }) d₁)
            λ k d₂ f₂. publish changed k d₁ d₂ f₁ f₂
    where
      publish :
          (c : Bool) (k : Job) (d₁ d₂ : Db)
          → (d₁.events ≡ db.events)
            × (has_finished j.status ≡ true → Sealed j.log_descriptor_id d₁.logs)
          → (k.status ≡ j.status)
            × (k.id ≡ j.id)
            × (k.log_descriptor_id ≡ j.log_descriptor_id)
            × (d₂.logs ≡ d₁.logs)
            × (d₂.events ≡ d₁.events)
            × (find_row job_key j.id d₂.jobs ≡ some k)
            × (k.runner_id ≡ j.runner_id)
          → OnOk ((when c (publish_event (job_event k)) >> pure k) d₂) λ k d.
            (find_row job_key j.id d.jobs ≡ some k)
            × (k.status ≡ j.status)
            × (d.events ≡ (if c then db.events ++ (job_event k ∷ []) else db.events))
            × (has_finished j.status ≡ true → Sealed j.log_descriptor_id d.logs)
            × (k.id ≡ j.id)
            × (k.runner_id ≡ j.runner_id)
      publish true k d₁ d₂ f g = (
        g.5,
        g.0,
        ap (λ es. es ++ (job_event k ∷ [])) (g.4 ∙ f.0),
        λ h. subst (Sealed j.log_descriptor_id) (sym g.3) (f.1 h),
        g.1,
        g.6,
      )
      publish false k d₁ d₂ f g =
          (g.5, g.0, g.4 ∙ f.0, λ h. subst (Sealed j.log_descriptor_id) (sym g.3) (f.1 h), g.1, g.6)

  -- After an update of a job to a final status that ended without an error, an update of a job with
  -- the same log to a final status is refused, because the log is sealed: a job finishes once.
  pub finished_once :
      (j k : Job) (c c' : Bool) (db d : Db) {j' : Job}
      → update_job env j c db ≡ ok (j', d)
      → has_finished j.status ≡ true
      → has_finished k.status ≡ true
      → k.log_descriptor_id ≡ j.log_descriptor_id
      → update_job env k c' d ≡ err already_sealed
  unfolding update_job
  finished_once j k c c' db d h f g e =
      >>=-err (enter_status d.now k.status k.log_descriptor_id k.timings) _ d (
        enter_status_refused d.now k.status k.log_descriptor_id k.timings d g
          (subst (λ l. Sealed l d.logs) (sym e) ((OnOk-ok _ h (update_job-effect j c db)).3 f)))

  -- Of two writers that read a job with the same ETag, only the first succeeds: if its row got
  -- another ETag then the second, whose job is valid, is refused as a failed optimistic lock.
  pub stale_writer_fails :
      (j k j' : Job) (db d : Db)
      → update_job_row env j db ≡ ok (j', d)
      → k.id ≡ j.id
      → job_valid k ≡ true
      → tag_matches k.etag j'.etag ≡ false
      → update_job_row env k d ≡ err optimistic_lock_failed
  unfolding update_job_row
  stale_writer_fails j k j' db d h e v t =
      rw (v, ap (λ i. find_row job_key i d.jobs) e ∙ (OnOk-ok _ h (update_job_row-frame j db)).5, t)
