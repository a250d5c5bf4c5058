-- ===== src/Runner/Orchestrator/Tests.antt =====
-- A job of two steps, where the second depends on the first.
use buildbeaver.Base.{All, ◌≡◌, refl, ◌↔◌, true, false, none, some, List, [], ◌∷◌}
use mathlib.Core.List.Memᴰ
use buildbeaver.Models.{codes, text_eq, queued, running, succeeded, status_eq, tag}
use buildbeaver.Runner.Orchestrator.{
  StepDoc, error_valid, WalkState, put, empty_walk, updated, start_step, check_dependency,
  check_dependencies, Outcome, lifecycle_error, execute_step, step_error, run_step, status_of_error,
  finish_step, Returned, starts, runs, finishes, Walked, begin, next, torn_down, JobRun,
  dependency_failed, error_before_walk, bad_step, error_after_walk, error_after_tear_down,
  job_error, job_status,
}
use buildbeaver.Runner.Orchestrator.Walking.{Succeeded, Walked-Succeeded}
use buildbeaver.Runner.Orchestrator.Verdict.{NotBad, artifacts_uploaded, job_status-succeeded}

abbrev compile : StepDoc
compile = record {
  id = 1;
  name = codes "compile";
  depends = [];
  status = queued;
  error = none;
  etag = tag 1;
}

abbrev check : StepDoc
check = record {
  id = 2;
  name = codes "check";
  depends = codes "compile" ∷ [];
  status = queued;
  error = none;
  etag = tag 1;
}

abbrev steps : List StepDoc
steps = compile ∷ check ∷ []

abbrev fine : Outcome
fine = record { pre = none; execute = none; post = none }

abbrev running_doc : StepDoc → StepDoc
running_doc s = updated running none (tag 2) s

unfoldable ran_through : StepDoc → WalkState → WalkState
ran_through s st =
    finish_step (some (tag 3)) (running_doc s)
      (run_step none (running_doc s) (start_step (some (tag 2)) s st))

-- The callback of the first step, and then that of the second.
unfoldable both_done : WalkState
both_done = ran_through check (ran_through compile empty_walk)

both_done-Walked : Walked steps none both_done
unfolding both_done ran_through start_step run_step finish_step updated put text_eq Returned
    step_error execute_step check_dependencies check_dependency error_valid status_eq
    lifecycle_error
both_done-Walked =
    next
      (next
        (next
          (next
            (next (next begin (starts compile (some (tag 2)) (Memᴰ.head refl) refl tt))
              (runs (running_doc compile) fine none refl refl))
            (finishes (running_doc compile) (some (tag 3)) refl))
          (starts check (some (tag 2)) (Memᴰ.tail (Memᴰ.head refl)) refl (refl, tt)))
        (runs (running_doc check) fine none refl refl))
      (finishes (running_doc check) (some (tag 3)) refl)

Walked-Succeeded_example : All (Succeeded both_done.attempted) (codes "compile" ∷ [])
unfolding both_done ran_through start_step run_step finish_step updated put text_eq
Walked-Succeeded_example =
    Walked-Succeeded steps none (codes "check") (record check { status = succeeded; etag = tag 3 })
      both_done-Walked refl refl

abbrev fine_run : JobRun
fine_run = record { dependency_errors = none ∷ []; prepare = none; tear_down = torn_down }

job_status-succeeded_example : (job_status fine_run steps both_done ≡ succeeded) ↔ (
    All (λ e. error_valid e ≡ false) fine_run.dependency_errors
    × (fine_run.prepare ≡ none)
    × All (λ s. NotBad (both_done.attempted s.name)) steps
    × (artifacts_uploaded fine_run.tear_down ≡ true))
job_status-succeeded_example = job_status-succeeded fine_run steps both_done

-- A step whose dependency was not attempted ends the process.
missing_dependency_example :
    execute_step (start_step none compile empty_walk).attempted fine check ≡ none
unfolding execute_step check_dependencies check_dependency start_step
missing_dependency_example = refl

-- The job succeeds though none of its steps was attempted.
unattempted_example :
    job_status fine_run steps (start_step none check (start_step none compile empty_walk))
    ≡ succeeded
unfolding job_status job_error error_before_walk dependency_failed error_valid error_after_walk
    bad_step error_after_tear_down status_of_error start_step
unattempted_example = refl
