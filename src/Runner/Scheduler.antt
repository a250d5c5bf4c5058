-- ===== src/Runner/Scheduler.antt =====
-- backend/runner/scheduler.go: the loop that polls the server for jobs and runs them.
pub mod Loop
pub mod Invariant
pub mod Exit
mod Tests
use buildbeaver.Base.{ltb, ◌==◌, if◌then◌else◌, ℕ, ◌+◌, ◌-◌, Bool, true, false}
use buildbeaver.Base.Integers.{ℤ, pos, negsuc, ltb_ℤ}

-- `parallel_jobs` is the Go `int` that the flag `parallel_jobs` sets, which may be negative.
-- `polling`, `running_jobs`, `exiting`, `exiting_when_quiet`, `runtime_info_sent` and the two times
-- are fields of the source's `state`; the two counters are `stats`. The last three fields count the
-- goroutines that were started and have not reported yet: polls that send the runtime information,
-- polls that dequeue, and jobs.
pub record Scheduler : Type 0 where
  pub parallel_jobs : ℤ
  pub runtime_info_sent : Bool
  pub running_jobs : ℕ
  pub last_build_completed : ℕ
  pub last_poll_started : ℕ
  pub polling : Bool
  pub exiting : Bool
  pub exiting_when_quiet : Bool
  pub successful_poll_count : ℕ
  pub failed_poll_count : ℕ
  pub info_polls : ℕ
  pub dequeue_polls : ℕ
  pub jobs_in_flight : ℕ

pub data Panic : Type 0 where
  already_polling not_polling too_many_jobs negative_jobs : Panic

pub data Outcome : Type 0 where
  going : Scheduler → Outcome
  panic : Panic → Outcome

infixl 5 ◌>>=◌
abbrev pub ◌>>=◌ : Outcome → (Scheduler → Outcome) → Outcome
going s >>= f = f s
panic p >>= f = panic p

-- `NewJobScheduler`: `half_cpus` is `runtime.NumCPU() / 2`, and `minimum` is `minimumParallelJobs`.
abbrev pub minimum_parallel_jobs : ℕ
minimum_parallel_jobs = 2

abbrev is_zero : ℤ → Bool
is_zero (pos n) = n == 0
is_zero (negsuc n) = false

unfoldable pub new_job_scheduler : ℤ → ℕ → Scheduler
new_job_scheduler configured half_cpus = record {
  parallel_jobs =
      if is_zero configured
      then pos (if ltb half_cpus minimum_parallel_jobs then minimum_parallel_jobs else half_cpus)
      else configured;
  runtime_info_sent = false;
  running_jobs = 0;
  last_build_completed = 0;
  last_poll_started = 0;
  polling = false;
  exiting = false;
  exiting_when_quiet = false;
  successful_poll_count = 0;
  failed_poll_count = 0;
  info_polls = 0;
  dequeue_polls = 0;
  jobs_in_flight = 0;
}

-- `recordSuccessfulPoll` and `recordFailedPoll`; the counters are left unbounded.
abbrev record_successful_poll : Scheduler → Scheduler
record_successful_poll s = record s { successful_poll_count = s.successful_poll_count + 1 }

abbrev record_failed_poll : Scheduler → Scheduler
record_failed_poll s = record s { failed_poll_count = s.failed_poll_count + 1 }

-- `Start`, up to the call of `loop`.
unfoldable pub start : Scheduler → Scheduler
start s = record s {
  running_jobs = 0;
  runtime_info_sent = false;
  polling = false;
  exiting = false;
  exiting_when_quiet = false;
}

-- `poll` starts a goroutine, whose request depends on `runtime_info_sent`.
unfoldable pub poll : ℕ → Scheduler → Outcome
poll now s =
    let t = record s { last_poll_started = now; polling = true } in
    if s.polling
    then panic already_polling
    else if s.runtime_info_sent
    then going (record t { dequeue_polls = s.dequeue_polls + 1 })
    else going (record t { info_polls = s.info_polls + 1 })

-- What the goroutine of `poll` reports: an error, or perhaps a job.
pub data PollResult : Type 0 where
  failed no_job got_job : PollResult

-- The last part of `handlePollResult`: a job is started if the result holds one.
unfoldable pub start_job : ℕ → PollResult → Scheduler → Outcome
unfolding poll
start_job now got_job s =
    let t = record s { running_jobs = s.running_jobs + 1; jobs_in_flight = s.jobs_in_flight + 1 } in
    if ltb_ℤ s.parallel_jobs (pos t.running_jobs)
    then panic too_many_jobs
    else (if ltb_ℤ (pos t.running_jobs) s.parallel_jobs then poll now t else going t)
start_job now _ s = going s

unfoldable pub handle_poll_result : ℕ → PollResult → Scheduler → Outcome
unfolding poll start_job
handle_poll_result now failed s =
    if s.polling
    then going (record_failed_poll (record s { polling = false }))
    else panic not_polling
handle_poll_result now res s =
    if s.polling
    then (do
      let t = record_successful_poll (record s { polling = false })
      u ←
          (if t.runtime_info_sent
            then going t
            else poll now (record t { runtime_info_sent = true }))
      start_job now res u)
    else panic not_polling

-- The case `<-s.jobCompleteC` of the loop.
unfoldable pub job_complete : ℕ → Scheduler → Outcome
unfolding poll
job_complete now s =
    if s.running_jobs == 0
    then panic negative_jobs
    else (let t = record s { running_jobs = s.running_jobs - 1; last_build_completed = now } in
        if t.polling then going t else poll now t)
