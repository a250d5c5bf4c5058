-- ===== src/Runner/Orchestrator.antt =====
-- The execution of one job: backend/runner/orchestrator.go. A map by step name is a function. What
-- the server and the executor answer is an input of each operation. The server's answer to a status
-- update is the step with this status and error, under a new ETag.
pub mod Walking
pub mod Verdict
mod Tests
use buildbeaver.Base.{
  if◌then◌else◌, any, All, ℕ, ◌≡◌, Bool, true, false, not, ◌||◌, Option, none, some, List, [], ◌∷◌,
}
use mathlib.Core.List.{Memᴰ}
use buildbeaver.Models.{
  Text, codes, text_eq, is_empty, WorkflowStatus, running, failed, succeeded, status_eq, ETag,
  ErrorInfo, message, jobs_failed,
}

-- `documents.Step`, with the fields that are used here.
pub record StepDoc : Type 0 where
  pub id : ℕ
  pub name : Text
  pub depends : List Text
  pub status : WorkflowStatus
  pub error : Option ErrorInfo
  pub etag : ETag

-- `Valid` of an error: it is there, and its message is not empty.
unfoldable pub error_valid : Option ErrorInfo → Bool
error_valid none = false
error_valid (some (message s)) = not (is_empty s)
error_valid (some (jobs_failed n)) = true

-- How far the callback of the walk has come for a step: before its first update of the status, before
-- the execution, before the last update of the status, and at its end.
pub data Phase : Type 0 where
  waiting returned : Phase
  started ran : StepDoc → Phase

-- `attemptedStepsByName`, and the phases.
pub record WalkState : Type 0 where
  pub attempted : Text → Option StepDoc
  pub phase : Text → Phase

unfoldable pub put {ℓ} : {A : Type ℓ} → Text → A → (Text → A) → Text → A
put name a f n = if text_eq n name then a else f n

abbrev pub empty_walk : WalkState
empty_walk = record { attempted = λ n. none; phase = λ n. waiting }

-- `UpdateStepStatus`, when it succeeds.
unfoldable pub updated : WorkflowStatus → Option ErrorInfo → ETag → StepDoc → StepDoc
updated status error etag s = record s { status = status; error = error; etag = etag }

-- The callback up to `recordAttemptedStep`; the answer is the new ETag, or an error.
unfoldable pub start_step : Option ETag → StepDoc → WalkState → WalkState
unfolding put updated
start_step none s st = record st { phase = put s.name returned st.phase }
start_step (some etag) s st =
    let doc = updated running none etag s in
    record {
      attempted = put s.name (some doc) st.attempted;
      phase = put s.name (started doc) st.phase;
    }

-- The loop over the dependencies in `executeStep`. If a dependency was not attempted, then the
-- message of the error reads a field of the nil pointer, which ends the process.
pub data Check : Type 0 where
  passes panics : Check
  fails : ErrorInfo → Check

unfoldable pub check_dependency : Option StepDoc → Check
unfolding error_valid
check_dependency none = panics
check_dependency (some d) =
    if error_valid d.error
    then fails (message (codes "Step dependency failed"))
    else if not (status_eq d.status succeeded)
    then fails (message (codes "Step dependency did not succeed"))
    else passes

unfoldable pub check_dependencies : (Text → Option StepDoc) → List Text → Check
unfolding check_dependency
check_dependencies attempted [] = passes
check_dependencies attempted (d ∷ ds) =
    let rest = check_dependencies attempted ds in
    elim (check_dependency (attempted d)) [ passes ↦ rest | c ↦ c ]

-- What `PreExecuteStep`, `ExecuteStep` and `PostExecuteStep` return. The last one is always called,
-- and its error is returned only if there is no other.
pub record Outcome : Type 0 where
  pub pre : Option ErrorInfo
  pub execute : Option ErrorInfo
  pub post : Option ErrorInfo

unfoldable pub or_else : Option ErrorInfo → Option ErrorInfo → Option ErrorInfo
or_else (some e) error = some e
or_else none error = error

unfoldable pub lifecycle_error : Outcome → Option ErrorInfo
unfolding or_else
lifecycle_error o = or_else o.pre (or_else o.execute o.post)

-- `executeStep`; `none` is the end of the process.
unfoldable pub execute_step :
    (Text → Option StepDoc) → Outcome → StepDoc → Option (Option ErrorInfo)
unfolding check_dependencies lifecycle_error
execute_step attempted o s = elim (check_dependencies attempted s.depends) [
  | passes ↦ some (lifecycle_error o)
  | fails e ↦ some (some e)
  | panics ↦ none
]

-- The callback between its two updates: a job error is the error of each of its steps.
unfoldable pub step_error :
    Option ErrorInfo → (Text → Option StepDoc) → Outcome → StepDoc → Option (Option ErrorInfo)
unfolding execute_step
step_error (some e) attempted o s = some (some e)
step_error none attempted o s = execute_step attempted o s

unfoldable pub run_step : Option ErrorInfo → StepDoc → WalkState → WalkState
unfolding put
run_step error doc st = record st {
  phase = put doc.name (ran (record doc { error = error })) st.phase;
}

unfoldable pub status_of_error : Option ErrorInfo → WorkflowStatus
status_of_error none = succeeded
status_of_error (some e) = failed

-- The rest of the callback, with `recordCompletedStep`.
unfoldable pub finish_step : Option ETag → StepDoc → WalkState → WalkState
unfolding put updated status_of_error
finish_step none doc st = record st { phase = put doc.name returned st.phase }
finish_step (some etag) doc st = record {
  attempted =
      put doc.name (some (updated (status_of_error doc.error) doc.error etag doc)) st.attempted;
  phase = put doc.name returned st.phase;
}

unfoldable pub Returned : WalkState → Text → Type 0
Returned st n = st.phase n ≡ returned

-- The parallel walk, for a job that was prepared with this error, if any: the callback of each step
-- is called once, when those of its dependencies have returned, and callbacks interleave.
pub data WalkStep (steps : List StepDoc) (before : Option ErrorInfo)
    : WalkState → WalkState → Type 0 where
  starts :
      {st : WalkState} (s : StepDoc) (answer : Option ETag)
      → Memᴰ s steps
      → st.phase s.name ≡ waiting
      → All (Returned st) s.depends
      → WalkStep steps before st (start_step answer s st)
  runs :
      {st : WalkState} (doc : StepDoc) (o : Outcome) (error : Option ErrorInfo)
      → st.phase doc.name ≡ started doc
      → step_error before st.attempted o doc ≡ some error
      → WalkStep steps before st (run_step error doc st)
  finishes :
      {st : WalkState} (doc : StepDoc) (answer : Option ETag)
      → st.phase doc.name ≡ ran doc
      → WalkStep steps before st (finish_step answer doc st)

-- The states that the walk can come to.
pub data Walked (steps : List StepDoc) (before : Option ErrorInfo) : WalkState → Type 0 where
  begin : Walked steps before empty_walk
  next :
      {st st' : WalkState}
      → Walked steps before st
      → WalkStep steps before st st'
      → Walked steps before st'

-- The errors of the jobs that the job depends on, `prepareJob`, and `tearDownJob`, of which only a
-- failed upload of artifacts matters.
pub data TearDown : Type 0 where
  torn_down : TearDown
  upload_failed other_error : ErrorInfo → TearDown

pub record JobRun : Type 0 where
  pub dependency_errors : List (Option ErrorInfo)
  pub prepare : Option ErrorInfo
  pub tear_down : TearDown

unfoldable pub dependency_failed : JobRun → Bool
unfolding error_valid
dependency_failed r = any error_valid r.dependency_errors

-- `jobErr` when the walk begins.
unfoldable pub error_before_walk : JobRun → Option ErrorInfo
unfolding dependency_failed
error_before_walk r =
    if dependency_failed r then some (message (codes "Job dependency failed")) else r.prepare

-- The loop over the attempted steps behind the walk; the map holds no other steps.
unfoldable pub bad_step : Option StepDoc → Bool
unfolding error_valid
bad_step none = false
bad_step (some d) = error_valid d.error || not (status_eq d.status succeeded)

unfoldable pub error_after_walk : Option ErrorInfo → List StepDoc → WalkState → Option ErrorInfo
unfolding bad_step
error_after_walk (some e) steps st = some e
error_after_walk none steps st =
    if any (λ s. bad_step (st.attempted s.name)) steps
    then some (message (codes "Step failed"))
    else none

-- The part that tears the job down if it was prepared.
unfoldable pub error_after_tear_down : Option ErrorInfo → TearDown → Option ErrorInfo
error_after_tear_down none (upload_failed e) = some e
error_after_tear_down error _ = error

-- The error with which the job finishes, and its last status.
unfoldable pub job_error : JobRun → List StepDoc → WalkState → Option ErrorInfo
unfolding error_before_walk error_after_walk error_after_tear_down
job_error r steps st =
    let error = error_after_walk (error_before_walk r) steps st in
    if dependency_failed r then error else error_after_tear_down error r.tear_down

unfoldable pub job_status : JobRun → List StepDoc → WalkState → WorkflowStatus
unfolding job_error status_of_error
job_status r steps st = status_of_error (job_error r steps st)
