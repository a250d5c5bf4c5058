-- ===== src/Models/Status.antt =====
-- backend/common/models/workflow.go: the status of a build, a job or a step.
use buildbeaver.Base.{◌==◌, if◌then◌else◌, ℕ, Bool, true, false, Option, none, some}
use buildbeaver.Models.Strings.{Text, codes, text_eq}

-- `other` holds any string that is not one of the constants; `other []` is the empty string.
pub data WorkflowStatus : Type 0 where
  queued submitted running failed succeeded canceled unknown : WorkflowStatus
  other : Text → WorkflowStatus

unfoldable pub to_string : WorkflowStatus → Text
to_string queued = codes "queued"
to_string submitted = codes "submitted"
to_string running = codes "running"
to_string failed = codes "failed"
to_string succeeded = codes "succeeded"
to_string canceled = codes "canceled"
to_string unknown = codes "unknown"
to_string (other s) = s

-- A lookup in `workflowStatuses`.
unfoldable pub workflow_statuses : Text → Option WorkflowStatus
workflow_statuses s =
    if text_eq s (codes "queued")
    then some queued
    else if text_eq s (codes "submitted")
    then some submitted
    else if text_eq s (codes "running")
    then some running
    else if text_eq s (codes "failed")
    then some failed
    else if text_eq s (codes "succeeded")
    then some succeeded
    else if text_eq s (codes "canceled")
    then some canceled
    else if text_eq s (codes "unknown")
    then some unknown
    else none

-- `Valid`
unfoldable pub status_valid : WorkflowStatus → Bool
status_valid (other s) = elim (workflow_statuses s) [ none ↦ false | some _ ↦ true ]
status_valid _ = true

unfoldable pub has_finished : WorkflowStatus → Bool
has_finished failed = true
has_finished succeeded = true
has_finished canceled = true
has_finished _ = false

unfoldable pub to_github_state : WorkflowStatus → Text
to_github_state queued = codes "pending"
to_github_state submitted = codes "pending"
to_github_state running = codes "pending"
to_github_state failed = codes "failure"
to_github_state succeeded = codes "success"
to_github_state canceled = codes "failure"
to_github_state unknown = codes "error"
to_github_state (other s) = codes "error"

-- `Scan`: a database value is null, a string, or of a type that is refused.
pub data DbValue : Type 0 where
  null refused : DbValue
  str : Text → DbValue

unfoldable pub scan_status : DbValue → Option WorkflowStatus
scan_status null = some unknown
scan_status refused = none
scan_status (str s) = elim (workflow_statuses s) [ none ↦ some unknown | some t ↦ some t ]

-- `Value`
unfoldable pub status_value : WorkflowStatus → DbValue
unfolding to_string
status_value s = str (to_string s)

-- Go's `==` on statuses.
abbrev code_of : WorkflowStatus → ℕ
code_of queued = 0
code_of submitted = 1
code_of running = 2
code_of failed = 3
code_of succeeded = 4
code_of canceled = 5
code_of unknown = 6
code_of (other s) = 7

unfoldable pub status_eq : WorkflowStatus → WorkflowStatus → Bool
unfolding text_eq
status_eq (other s) (other t) = text_eq s t
status_eq a b = code_of a == code_of b
