-- ===== src/Runner/Scheduler/Loop.antt =====
-- `loop` of backend/runner/scheduler.go: when it returns, what its `select` waits for, and the
-- states that it reaches while goroutines report in any order.
use buildbeaver.Base.{
  ltb, ◌==◌, if◌then◌else◌, ℕ, ◌-◌, ◌≡◌, Bool, true, not, ◌&&◌, ◌||◌, Option, none, some,
}
use buildbeaver.Base.Integers.{pos, ltb_ℤ}
use buildbeaver.Runner.Scheduler.{
  Scheduler, Outcome, going, start, poll, PollResult, failed, no_job, handle_poll_result,
  job_complete,
}

-- The two tests at the head of the loop.
unfoldable pub returns : Scheduler → Bool
returns s =
    (s.exiting && not s.polling && s.running_jobs == 0)
    || (s.exiting_when_quiet
        && not s.polling
        && s.running_jobs == 0
        && ltb s.last_build_completed s.last_poll_started)

-- What `select` can receive. A poll that sends the runtime information reports no job.
pub data Event : Type 0 where
  exit_signal exit_when_quiet_signal poll_timer job_completed info_sent info_failed : Event
  dequeued : PollResult → Event

-- The `select` statement; `none` if the channel is nil, or nobody sends on it.
unfoldable pub select : ℕ → Event → Scheduler → Option Outcome
unfolding poll handle_poll_result job_complete
select now exit_signal s =
    if not s.exiting then some (going (record s { exiting = true })) else none
select now exit_when_quiet_signal s =
    if not s.exiting && not s.exiting_when_quiet
    then some (going (record s { exiting_when_quiet = true }))
    else none
select now poll_timer s =
    if not s.exiting && not s.polling && ltb_ℤ (pos s.running_jobs) s.parallel_jobs
    then some (if not s.polling then poll now s else going s)
    else none
select now job_completed s =
    if ltb 0 s.jobs_in_flight
    then some (job_complete now (record s { jobs_in_flight = s.jobs_in_flight - 1 }))
    else none
select now info_sent s =
    if ltb 0 s.info_polls
    then some (handle_poll_result now no_job (record s { info_polls = s.info_polls - 1 }))
    else none
select now info_failed s =
    if ltb 0 s.info_polls
    then some (handle_poll_result now failed (record s { info_polls = s.info_polls - 1 }))
    else none
select now (dequeued res) s =
    if ltb 0 s.dequeue_polls
    then some (handle_poll_result now res (record s { dequeue_polls = s.dequeue_polls - 1 }))
    else none

-- One round of the loop: `none` once it has returned, or if the event cannot happen.
unfoldable pub round : ℕ → Event → Scheduler → Option Outcome
unfolding returns select
round now e s = if returns s then none else select now e s

-- The states that the loop reaches, from its startup poll on.
pub data Reach (s₀ : Scheduler) : Scheduler → Type 0 where
  started : (now : ℕ) (s : Scheduler) → poll now (start s₀) ≡ going s → Reach s₀ s
  next :
      (now : ℕ) (e : Event) (s t : Scheduler)
      → Reach s₀ s
      → round now e s ≡ some (going t)
      → Reach s₀ t
