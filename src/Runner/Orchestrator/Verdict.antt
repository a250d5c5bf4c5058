-- ===== src/Runner/Orchestrator/Verdict.antt =====
-- The last status of a job.
use buildbeaver.Base.{
  OnSome, any, All, ◌≡◌, refl, ◌↔◌, Bool, true, false, Option, none, some, List, [], ◌∷◌, arith,
}
use buildbeaver.Models.{succeeded}
use buildbeaver.Models.Laws.{status_eq_iff}
use buildbeaver.Runner.Orchestrator.{
  StepDoc, error_valid, WalkState, status_of_error, TearDown, upload_failed, JobRun,
  dependency_failed, error_before_walk, bad_step, error_after_walk, error_after_tear_down,
  job_error, job_status,
}

-- Nothing is wrong with a step, as far as the runner knows: it was not attempted, or succeeded.
unfoldable pub NotBad : Option StepDoc → Type 0
NotBad o = OnSome o λ d. (error_valid d.error ≡ false) × (d.status ≡ succeeded)

bad_step-NotBad : (o : Option StepDoc) → (bad_step o ≡ false) ↔ NotBad o
unfolding bad_step NotBad
bad_step-NotBad none = ((λ _. tt), (λ _. refl))
bad_step-NotBad (some d) = (
  λ h. (ground (arith, h), ground (arith, h, status_eq_iff d.status succeeded)),
  λ (v, s). ground (arith, v, (status_eq_iff d.status succeeded).1 s),
)

any-All {ℓ κ} :
    {A : Type ℓ} (p : A → Bool) (P : A → Type κ) (xs : List A)
    → ((x : A) → (p x ≡ false) ↔ P x)
    → (any p xs ≡ false) ↔ All P xs
any-All p P [] h = ((λ _. tt), (λ _. refl))
any-All p P (x ∷ xs) h = (
  λ e. ((h x).0 (ground arith), (any-All p P xs h).0 (ground arith)),
  λ (g, gs). ground (arith, (h x).1 g, (any-All p P xs h).1 gs),
)

unfoldable pub artifacts_uploaded : TearDown → Bool
artifacts_uploaded (upload_failed e) = false
artifacts_uploaded _ = true

job_status-tests :
    (r : JobRun) (steps : List StepDoc) (st : WalkState)
    → (job_status r steps st ≡ succeeded) ↔ (
        (any error_valid r.dependency_errors ≡ false)
        × (r.prepare ≡ none)
        × (any (λ s. bad_step (st.attempted s.name)) steps ≡ false)
        × (artifacts_uploaded r.tear_down ≡ true))
unfolding job_status job_error error_before_walk dependency_failed error_after_walk
    error_after_tear_down status_of_error artifacts_uploaded
job_status-tests r steps st = (ground arith, ground arith)

-- A job is reported as succeeded exactly when no job that it depends on has an error, it was
-- prepared without an error, every step that was attempted succeeded without an error, and the upload
-- of its artifacts did not fail. Steps that were not attempted, since the server did not take the
-- first update of their status, play no part.
pub job_status-succeeded :
    (r : JobRun) (steps : List StepDoc) (st : WalkState)
    → (job_status r steps st ≡ succeeded) ↔ (
        All (λ e. error_valid e ≡ false) r.dependency_errors
        × (r.prepare ≡ none)
        × All (λ s. NotBad (st.attempted s.name)) steps
        × (artifacts_uploaded r.tear_down ≡ true))
job_status-succeeded r steps st =
    let (there, back) = job_status-tests r steps st in
    let (jobs, jobs_back) =
      any-All error_valid (λ e. error_valid e ≡ false) r.dependency_errors λ e. (λ h. h, λ h. h) in
    let (walked, walked_back) =
      any-All (λ (s : StepDoc). bad_step (st.attempted s.name))
        (λ (s : StepDoc). NotBad (st.attempted s.name)) steps
        λ s. bad_step-NotBad (st.attempted s.name) in
    (
      λ h. let (a, p, s, u) = there h in (jobs a, p, walked s, u),
      λ (a, p, s, u). back (jobs_back a, p, walked_back s, u),
    )
