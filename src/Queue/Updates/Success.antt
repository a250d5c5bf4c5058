-- ===== src/Queue/Updates/Success.antt =====
-- When the maintenance of a build's status ends without an error.
use buildbeaver.Base.{
  if◌then◌else◌, ℕ, ◌+◌, ◌<◌, ◌≡◌, refl, sym, ap, subst, ◌∙◌, Bool, true, false, not, Option, none,
  some, List, ◌∷◌, arith,
}
use buildbeaver.Models.{
  WorkflowStatus, running, failed, succeeded, status_valid, has_finished, status_eq, ETag, unset,
  any_tag, tag, etag_eq, ErrorInfo, WorkflowTimings, Job, Build, build_valid,
}
use buildbeaver.Queue.{
  find_row, put_row, find_row-key, LogDescriptor, Repo, Db, ok, ◌>>◌, pure, modify, when, OnOk-ok,
  Succeeds, >>=-Succeeds, >>=-ok,
}
use buildbeaver.Queue.Services.{
  Env, build_key, log_key, read_build, list_by_build_id, total, seal_log, tag_matches,
  update_build_row, publish_event, external_repo, notify_scm_build_updated, delete_identity,
}
use buildbeaver.Queue.Updates.BuildStatus.{tally_jobs-next, enter_status-frame}
use buildbeaver.Queue.Updates.{
  enter_status, build_event, update_build, Tally, tally_jobs, next_build_status, empty_tally,
  apply_build_status, maintain_unfinished, maintain_build_status,
}
use buildbeaver.Queue.Updates.Maintenance.{own_jobs}

-- A log that can still be sealed, and whose chunks the blob store lists.
unfoldable pub Open : ℕ → Db → Type 0
Open log db =
    (l : LogDescriptor) × (sizes : List ℕ) × (find_row log_key log db.logs ≡ some l)
    × (l.sealed ≡ false)
    × (db.list_blobs log ≡ some sizes)

seal_log-Succeeds : (id : ℕ) (db : Db) → Open id db → Succeeds (seal_log id db)
unfolding seal_log Open
seal_log-Succeeds id db (l, sizes, f, s, b) = (
  tt,
  record db {
    logs =
        put_row log_key (record l { sealed = true; size_bytes = l.size_bytes + total sizes })
          db.logs;
  },
  rw (f, s, b) refl,
)

-- The statuses that `maintainBuildStatus` sets.
unfoldable pub is_maintained : WorkflowStatus → Bool
is_maintained running = true
is_maintained succeeded = true
is_maintained failed = true
is_maintained _ = false

enter_status-Succeeds :
    (now : ℕ) (s : WorkflowStatus) (log : ℕ) (t : WorkflowTimings) (db : Db)
    → is_maintained s ≡ true
    → Open log db
    → Succeeds (enter_status now s log t db)
unfolding enter_status is_maintained
enter_status-Succeeds now running log t db h o = (_, _, refl)
enter_status-Succeeds now succeeded log t db h o =
    >>=-Succeeds (seal_log log) _ db (seal_log-Succeeds log db o) λ _ d _. (_, _, refl)
enter_status-Succeeds now failed log t db h o =
    >>=-Succeeds (seal_log log) _ db (seal_log-Succeeds log db o) λ _ d _. (_, _, refl)
enter_status-Succeeds now _ log t db h o = cc

etag_eq_refl : (e : ETag) → etag_eq e e ≡ true
unfolding etag_eq
etag_eq_refl unset = refl
etag_eq_refl any_tag = refl
etag_eq_refl (tag n) = ground arith

tag_matches_refl : (e : ETag) → tag_matches e e ≡ true
unfolding tag_matches
tag_matches_refl any_tag = refl
tag_matches_refl e = etag_eq_refl e

build_valid-status :
    (b : Build) (now : ℕ) (s : WorkflowStatus) (t : WorkflowTimings) (e : Option ErrorInfo)
    → build_valid b ≡ true
    → 0 < now
    → is_maintained s ≡ true
    → build_valid (record b { status = s; updated_at = now; timings = t; error = e }) ≡ true
unfolding build_valid is_maintained status_valid
build_valid-status b now s t e h n m = ground arith

when-Succeeds : (c : Bool) (f : Db → Db) (db : Db) → Succeeds (when c (modify f) db)
when-Succeeds true f db = (tt, f db, refl)
when-Succeeds false f db = (tt, db, refl)

notify-Succeeds : (b : Build) (db : Db) → Succeeds (notify_scm_build_updated b db)
unfolding notify_scm_build_updated
notify-Succeeds b db =
    when-Succeeds (external_repo (find_row (λ (r : Repo). r.id) b.repo_id db.repos))
      (λ db. record db { scm_notified = (b.id, b.status) ∷ db.scm_notified }) db

module _ (env : Env) where
  abbrev stored_build : Build → Build → Build
  stored_build b old = record b { etag = tag (env.build_hash b); created_at = old.created_at }

  update_build_row-Succeeds :
      (b old : Build) (db : Db)
      → build_valid b ≡ true
      → find_row build_key b.id db.builds ≡ some old
      → tag_matches b.etag old.etag ≡ true
      → Succeeds (update_build_row env b db)
  unfolding update_build_row
  update_build_row-Succeeds b old db v f t = (
    stored_build b old,
    record db { builds = put_row build_key (stored_build b old) db.builds },
    rw (v, f, t) refl,
  )

  update_build-Succeeds :
      (old : Build) (s : WorkflowStatus) (e : Option ErrorInfo) (c : Bool) (db : Db)
      → build_valid old ≡ true
      → 0 < db.now
      → is_maintained s ≡ true
      → Open old.log_descriptor_id db
      → find_row build_key old.id db.builds ≡ some old
      → Succeeds (update_build env (record old { error = e; status = s }) c db)
  unfolding update_build publish_event
  update_build-Succeeds old s e c db v n m o f =
      >>=-Succeeds (enter_status db.now s old.log_descriptor_id old.timings) _ db
        (enter_status-Succeeds db.now s old.log_descriptor_id old.timings db m o)
        λ t d₁ p₁.
          >>=-Succeeds
            (update_build_row env
              (record old { error = e; status = s; updated_at = db.now; timings = t }))
            _ d₁
            (update_build_row-Succeeds
              (record old { error = e; status = s; updated_at = db.now; timings = t }) old d₁
              (build_valid-status old db.now s t e v n m)
              (ap (find_row build_key old.id)
                  (OnOk-ok _ p₁
                    (enter_status-frame db.now s old.log_descriptor_id old.timings db)).1
                ∙ f)
              (tag_matches_refl old.etag))
            λ b d₂ p₂.
              >>=-Succeeds (notify_scm_build_updated b) _ d₂ (notify-Succeeds b d₂)
                λ _ d₃ p₃. published c b d₃
    where
      published :
          (c : Bool) (b : Build) (d : Db)
          → Succeeds ((when c (publish_event (build_event b)) >> pure b) d)
      published true b d = (_, _, refl)
      published false b d = (_, _, refl)

  next_status-maintained :
      (b : WorkflowStatus) (jobs : List Job) {s : WorkflowStatus} {e : Option ErrorInfo}
      → next_build_status (tally_jobs b jobs empty_tally) ≡ some (s, e)
      → is_maintained s ≡ true
  unfolding next_build_status is_maintained
  next_status-maintained b jobs h = ground (arith, tally_jobs-next b jobs empty_tally)

  apply_build_status-Succeeds :
      (old : Build) (t : Tally) (o : Option (WorkflowStatus × Option ErrorInfo)) (db : Db)
      → ((s : WorkflowStatus) (e : Option ErrorInfo) → o ≡ some (s, e) → is_maintained s ≡ true)
      → find_row build_key old.id db.builds ≡ some old
      → build_valid old ≡ true
      → 0 < db.now
      → Open old.log_descriptor_id db
      → Succeeds (apply_build_status env old t o db)
  unfolding apply_build_status delete_identity
  apply_build_status-Succeeds old t none db m f v n o = (_, _, refl)
  apply_build_status-Succeeds old t (some (s, e)) db m f v n o =
      >>=-Succeeds (update_build env (record old { error = e; status = s }) _) _ db
        (update_build-Succeeds old s e (not (status_eq old.status s)) db v n (m s e refl) o f)
        λ b d p. ended t.all_jobs_done b d
    where
      ended :
          (done : Bool) (b : Build) (d : Db)
          → Succeeds ((when done (delete_identity b.id) >> pure b) d)
      ended true b d = (_, _, refl)
      ended false b d = (_, _, refl)

  maintain_found-Succeeds :
      (old : Build) (finished : Bool) (db : Db)
      → find_row build_key old.id db.builds ≡ some old
      → build_valid old ≡ true
      → 0 < db.now
      → Open old.log_descriptor_id db
      → Succeeds ((if finished then pure old else maintain_unfinished env old) db)
  unfolding maintain_unfinished list_by_build_id
  maintain_found-Succeeds old true db f v n o = (_, _, refl)
  maintain_found-Succeeds old false db f v n o =
      apply_build_status-Succeeds old (tally_jobs old.status (own_jobs old.id db) empty_tally) _ db
        (λ s e h. next_status-maintained old.status (own_jobs old.id db) h) f v n o

  read_build-ok :
      (id : ℕ) (old : Build) (db : Db)
      → find_row build_key id db.builds ≡ some old
      → read_build id db ≡ ok (old, db)
  unfolding read_build
  read_build-ok id old db f = rw f refl

  -- If a build is found that is valid, its log is not sealed, the blob store lists the chunks of that log,
  -- and the time is not zero, then `maintainBuildStatus` ends without an error.
  pub maintain_build_status-Succeeds :
      (id : ℕ) (old : Build) (db : Db)
      → find_row build_key id db.builds ≡ some old
      → build_valid old ≡ true
      → 0 < db.now
      → Open old.log_descriptor_id db
      → Succeeds (maintain_build_status env id db)
  unfolding maintain_build_status
  maintain_build_status-Succeeds id old db f v n o =
      subst Succeeds (sym (>>=-ok (read_build id) _ db (read_build-ok id old db f))) (
        maintain_found-Succeeds old (has_finished old.status) db
          (subst (λ i. find_row build_key i db.builds ≡ some old)
            (sym (find_row-key build_key id db.builds f)) f)
          v n o)
