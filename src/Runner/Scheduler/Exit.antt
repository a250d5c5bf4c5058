-- ===== src/Runner/Scheduler/Exit.antt =====
-- How the loop of backend/runner/scheduler.go ends.
use buildbeaver.Base.{
  ltb, if◌then◌else◌, Bool-cases, length, All, ℕ, ◌+◌, ◌-◌, ◌*◌, ◌≤◌, ◌<◌, ◌≡◌, refl, sym, subst,
  ◌∙◌, ◌≢◌, inl, inr, Bool, true, false, Option, none, some, List, [], ◌∷◌, arith,
}
use buildbeaver.Base.Integers.{ℤ, is_negative}
use buildbeaver.Runner.Scheduler.{
  Scheduler, Panic, Outcome, going, panic, new_job_scheduler, failed, no_job, got_job,
}
use buildbeaver.Runner.Scheduler.Loop.{
  returns, Event, exit_signal, exit_when_quiet_signal, poll_timer, job_completed, info_failed,
  dequeued, select, round, Reach,
}
use buildbeaver.Runner.Scheduler.Invariant.{
  Inv, Allowed, round-Safe, Reach-Inv, Reach-negative, round_never_panics,
}

returns_idle :
    (s : Scheduler)
    → Inv s
    → returns s ≡ true
    → (s.jobs_in_flight ≡ 0) × (s.info_polls ≡ 0) × (s.dequeue_polls ≡ 0)
unfolding returns
returns_idle s v h = ground arith

-- Once the loop returns, so that `Stop` or `StopWhenQuiet` can return, no job is running and no
-- poll is under way.
pub returns_leaves_nothing :
    (configured : ℤ) (half_cpus : ℕ) (s : Scheduler)
    → Reach (new_job_scheduler configured half_cpus) s
    → returns s ≡ true
    → (s.jobs_in_flight ≡ 0) × (s.info_polls ≡ 0) × (s.dequeue_polls ≡ 0)
returns_leaves_nothing configured half_cpus s r = returns_idle s (Reach-Inv configured half_cpus r)

-- An event that the scheduler's own timer and goroutines bring about.
abbrev pub is_own : Event → Bool
is_own exit_signal = false
is_own exit_when_quiet_signal = false
is_own _ = true

-- The event that a state waits for.
abbrev awaited : Scheduler → Event
awaited s =
    if ltb 0 s.info_polls
    then info_failed
    else if ltb 0 s.dequeue_polls
    then dequeued failed
    else if ltb 0 s.jobs_in_flight
    then job_completed
    else poll_timer

own : (s : Scheduler) → is_own (awaited s) ≡ true
own s = ground arith

select-awaited :
    (s : Scheduler) (now : ℕ)
    → Inv s
    → is_negative s.parallel_jobs ≡ false
    → returns s ≡ false
    → select now (awaited s) s ≢ none
unfolding returns select
select-awaited s now v n h = ground arith

round-eq-select :
    (s : Scheduler) (now : ℕ) (e : Event) → returns s ≡ false → round now e s ≡ select now e s
unfolding round
round-eq-select s now e h = rw h

going_of :
    (o : Option Outcome)
    → o ≢ none
    → ((why : Panic) → o ≢ some (panic why))
    → (t : Scheduler) × (o ≡ some (going t))
going_of none n p = absurd (n refl)
going_of (some (going t)) n p = (t, refl)
going_of (some (panic why)) n p = absurd (p why refl)

-- If the number of parallel jobs is not negative, then while the loop has not returned, it is never
-- stuck: some event of its own, its poll timer or a report of a goroutine that is in flight, takes it
-- to a next state.
pub never_stuck :
    (configured : ℤ) (half_cpus : ℕ) (s : Scheduler) (now : ℕ)
    → is_negative configured ≡ false
    → Reach (new_job_scheduler configured half_cpus) s
    → returns s ≡ false
    → (e : Event) × (is_own e ≡ true) × ((t : Scheduler) × (round now e s ≡ some (going t)))
never_stuck configured half_cpus s now n r h = (
  awaited s,
  own s,
  going_of _
      (rw (round-eq-select s now (awaited s) h) (
        select-awaited s now (Reach-Inv configured half_cpus r)
          (Reach-negative configured half_cpus r ∙ n) h))
      (λ why. round_never_panics configured half_cpus s now (awaited s) why n r),
)

-- The rounds that are left, counted by the goroutines that will report.
abbrev pub work : Scheduler → ℕ
work s = 3 * s.jobs_in_flight + 2 * s.info_polls + s.dequeue_polls

select_exiting :
    (s t : Scheduler) (now : ℕ) (e : Event)
    → Inv s
    → s.exiting ≡ true
    → e ≢ dequeued got_job
    → select now e s ≡ some (going t)
    → (t.exiting ≡ true) × (work t < work s)
unfolding select
select_exiting s t now (dequeued failed) v x n h = ground arith
select_exiting s t now (dequeued no_job) v x n h = ground arith
select_exiting s t now (dequeued got_job) v x n h = absurd (n refl)
select_exiting s t now job_completed v x n h = ground arith
select_exiting s t now _ v x n h = ground arith

abbrev pub follow : Option Outcome → (Scheduler → Option Scheduler) → Option Scheduler
follow (some (going t)) f = f t
follow _ f = none

follow-eq-some :
    (o : Option Outcome) (f : Scheduler → Option Scheduler) {t : Scheduler}
    → follow o f ≡ some t
    → (u : Scheduler) × (o ≡ some (going u)) × (f u ≡ some t)
follow-eq-some none f h = cc
follow-eq-some (some (going u)) f h = (u, refl, h)
follow-eq-some (some (panic why)) f h = cc

-- The rounds of a list of events, each with its time.
unfoldable pub rounds : List (ℕ × Event) → Scheduler → Option Scheduler
rounds [] s = some s
rounds ((now, e) ∷ es) s = follow (round now e s) (rounds es)

round_exiting :
    (s t : Scheduler) (now : ℕ) (e : Event)
    → Inv s
    → s.exiting ≡ true
    → e ≢ dequeued got_job
    → round now e s ≡ some (going t)
    → Inv t × (t.exiting ≡ true) × (work t < work s)
unfolding round
round_exiting s t now e v x n h = elim (Bool-cases (returns s)) [
  | inl done ↦ cc
  | inr more ↦
      let (y, less) = select_exiting s t now e v x n (sym (round-eq-select s now e more) ∙ h) in
      ((subst (Allowed (is_negative s.parallel_jobs)) h (round-Safe now e s v)).0, y, less)
]

-- An event other than a poll that reports a job.
abbrev pub NoJob : (ℕ × Event) → Type 0
NoJob (now, e) = e ≢ dequeued got_job

rounds-le-work :
    (es : List (ℕ × Event)) (s t : Scheduler)
    → Inv s
    → s.exiting ≡ true
    → All NoJob es
    → rounds es s ≡ some t
    → length es + work t ≤ work s
unfolding rounds
rounds-le-work [] s t v x n h = ground arith
rounds-le-work ((now, e) ∷ es) s t v x n h =
    let (u, p, q) = follow-eq-some (round now e s) (rounds es) h in
    let (w, y, less) = round_exiting s u now e v x n.0 p in
    omega (arith, rounds-le-work es u t w y n.1 q)

-- After the exit signal no poll dequeues, since its context is cancelled. Then the loop goes through
-- at most `work s` more rounds, three for each job in flight and two for a poll.
pub exit_ends :
    (configured : ℤ) (half_cpus : ℕ) (es : List (ℕ × Event)) (s t : Scheduler)
    → Reach (new_job_scheduler configured half_cpus) s
    → s.exiting ≡ true
    → All NoJob es
    → rounds es s ≡ some t
    → length es ≤ work s
exit_ends configured half_cpus es s t r x n h =
    omega (arith, rounds-le-work es s t (Reach-Inv configured half_cpus r) x n h)

quiet_failure :
    (s : Scheduler) (now : ℕ)
    → Inv s
    → s.exiting_when_quiet ≡ true
    → s.jobs_in_flight ≡ 0
    → 0 < s.dequeue_polls
    → s.last_build_completed < s.last_poll_started
    → (t : Scheduler) × (round now (dequeued failed) s ≡ some (going t)) × (returns t ≡ true)
unfolding returns round
quiet_failure s now v q j d l = (
  record s {
    polling = false;
    failed_poll_count = s.failed_poll_count + 1;
    dequeue_polls = s.dequeue_polls - 1;
  },
  ground arith,
  ground arith,
)

-- `StopWhenQuiet` also stops when the last poll failed: with no job running and a dequeue under way
-- that was started after the last job completed, an error from it makes the loop return, whatever
-- jobs are left in the queue.
pub quiet_after_failed_poll :
    (configured : ℤ) (half_cpus : ℕ) (s : Scheduler) (now : ℕ)
    → Reach (new_job_scheduler configured half_cpus) s
    → s.exiting_when_quiet ≡ true
    → s.jobs_in_flight ≡ 0
    → 0 < s.dequeue_polls
    → s.last_build_completed < s.last_poll_started
    → (t : Scheduler) × (round now (dequeued failed) s ≡ some (going t)) × (returns t ≡ true)
quiet_after_failed_poll configured half_cpus s now r q j d l =
    quiet_failure s now (Reach-Inv configured half_cpus r) q j d l
