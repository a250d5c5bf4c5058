-- ===== src/Runner/Scheduler/Invariant.antt =====
-- The invariant of the scheduler's state: its counters and the goroutines in flight.
use buildbeaver.Base.{
  if◌then◌else◌, Bool-cases, ℕ, ◌+◌, ◌≤◌, ◌<◌, ◌≡◌, subst, ◌≢◌, inl, inr, Bool, true, false, Option,
  none, some, arith,
}
use buildbeaver.Base.Integers.{ℤ, pos_part, is_negative}
use buildbeaver.Runner.Scheduler.{
  Scheduler, Panic, too_many_jobs, Outcome, going, panic, new_job_scheduler, start, poll, failed,
  no_job, got_job,
}
use buildbeaver.Runner.Scheduler.Loop.{
  returns, Event, exit_signal, dequeued, select, round, Reach, started, next,
}

-- A scheduler with a negative number of parallel jobs runs none and has no room for one.
pub record Inv (s : Scheduler) : Type 0 where
  pub one_poll : s.info_polls + s.dequeue_polls ≡ (if s.polling then 1 else 0)
  pub jobs_counted : s.jobs_in_flight ≡ s.running_jobs
  pub capable : is_negative s.parallel_jobs ≡ false → 0 < pos_part s.parallel_jobs
  pub capped : s.running_jobs ≤ pos_part s.parallel_jobs
  pub room :
      s.polling ≡ true
      → is_negative s.parallel_jobs ≡ false
      → s.running_jobs < pos_part s.parallel_jobs
  pub info_first : s.runtime_info_sent ≡ false → s.dequeue_polls ≡ 0
  pub info_once : s.runtime_info_sent ≡ true → s.info_polls ≡ 0

-- The invariant of an outcome, where only a negative number of parallel jobs, as the flag tells, makes
-- the scheduler panic, at a job that it should start.
abbrev pub Safe : Bool → Outcome → Type 0
Safe negative (going s) = Inv s × (is_negative s.parallel_jobs ≡ negative)
Safe negative (panic p) = (negative ≡ true) × (p ≡ too_many_jobs)

abbrev pub Allowed : Bool → Option Outcome → Type 0
Allowed negative none = Unit
Allowed negative (some o) = Safe negative o

select-Safe :
    (now : ℕ) (e : Event) (s : Scheduler)
    → Inv s
    → Allowed (is_negative s.parallel_jobs) (select now e s)
unfolding select
select-Safe now exit_signal s v = ground arith
select-Safe now (dequeued failed) s v = ground arith
select-Safe now (dequeued no_job) s v = ground arith
select-Safe now (dequeued got_job) s v = ground arith
select-Safe now _ s v = ground arith

pub round-Safe :
    (now : ℕ) (e : Event) (s : Scheduler)
    → Inv s
    → Allowed (is_negative s.parallel_jobs) (round now e s)
unfolding returns round
round-Safe now e s v = elim (Bool-cases (returns s)) [
  | inl done ↦ rw done tt
  | inr more ↦ rw more (select-Safe now e s v)
]

start-Safe :
    (configured : ℤ) (half_cpus now : ℕ)
    → Safe (is_negative configured) (poll now (start (new_job_scheduler configured half_cpus)))
unfolding poll start new_job_scheduler
start-Safe configured half_cpus now = ground arith

module _ (configured : ℤ) (half_cpus : ℕ) where
  Reach-Safe :
      {s : Scheduler}
      → Reach (new_job_scheduler configured half_cpus) s
      → Safe (is_negative configured) (going s)
  Reach-Safe (started now s p) =
      subst (Safe (is_negative configured)) p (start-Safe configured half_cpus now)
  Reach-Safe (next now e s t r p) =
      let (v, n) = Reach-Safe r in
      subst (λ b. Safe b (going t)) n
        (subst (Allowed (is_negative s.parallel_jobs)) p (round-Safe now e s v))

  -- In every state that the loop reaches, the counters agree with the goroutines in flight.
  pub Reach-Inv : {s : Scheduler} → Reach (new_job_scheduler configured half_cpus) s → Inv s
  Reach-Inv r = (Reach-Safe r).0

  pub Reach-negative :
      {s : Scheduler}
      → Reach (new_job_scheduler configured half_cpus) s
      → is_negative s.parallel_jobs ≡ is_negative configured
  Reach-negative r = (Reach-Safe r).1

  -- From a new scheduler whose number of parallel jobs is not negative, in whatever order the goroutines
  -- report, no round of the loop panics.
  pub round_never_panics :
      (s : Scheduler) (now : ℕ) (e : Event) (why : Panic)
      → is_negative configured ≡ false
      → Reach (new_job_scheduler configured half_cpus) s
      → round now e s ≢ some (panic why)
  round_never_panics s now e why n r p =
      let (negative, _) =
        subst (Allowed (is_negative s.parallel_jobs)) p (round-Safe now e s (Reach-Inv r)) in
      cc (negative, Reach-negative r, n)
