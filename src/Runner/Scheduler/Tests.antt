-- ===== src/Runner/Scheduler/Tests.antt =====
-- Runs of the scheduler, and the theorems about it at concrete inputs.
use buildbeaver.Base.{◌≤◌, ◌≡◌, refl, ◌≢◌, true, false, none, some, [], ◌∷◌}
use buildbeaver.Base.Integers.{pos, negsuc}
use buildbeaver.Runner.Scheduler.{
  Scheduler, negative_jobs, going, panic, new_job_scheduler, start, poll, got_job, no_job,
  too_many_jobs,
}
use buildbeaver.Runner.Scheduler.Loop.{
  returns, Event, exit_signal, exit_when_quiet_signal, poll_timer, job_completed, info_sent,
  info_failed, dequeued, round, Reach, started, next,
}
use buildbeaver.Runner.Scheduler.Invariant.{Inv, Reach-Inv, round_never_panics}
use buildbeaver.Runner.Scheduler.Exit.{is_own, never_stuck, work, rounds, exit_ends}

abbrev initial : Scheduler
initial = new_job_scheduler (pos 2) 8

-- The first poll is under way.
abbrev polled : Scheduler
polled = record (start initial) { last_poll_started = 5; polling = true; info_polls = 1 }

abbrev dequeuing : Scheduler
dequeuing = record polled {
  last_poll_started = 6;
  runtime_info_sent = true;
  successful_poll_count = 1;
  info_polls = 0;
  dequeue_polls = 1;
}

abbrev busy : Scheduler
busy = record dequeuing {
  last_poll_started = 7;
  successful_poll_count = 2;
  running_jobs = 1;
  jobs_in_flight = 1;
}

Reach-polled : Reach initial polled
unfolding new_job_scheduler poll start
Reach-polled = started 5 polled refl

Reach-dequeuing : Reach initial dequeuing
unfolding new_job_scheduler start round
Reach-dequeuing = next 6 info_sent polled dequeuing Reach-polled refl

Reach-busy : Reach initial busy
unfolding new_job_scheduler start round
Reach-busy = next 7 (dequeued got_job) dequeuing busy Reach-dequeuing refl

-- Two jobs fill the scheduler: it stops polling.
full :
    ((t : Scheduler) × (round 8 (dequeued got_job) busy ≡ some (going t))
      × (t.polling ≡ false)
      × (t.running_jobs ≡ 2))
unfolding new_job_scheduler start round
full = (
  record busy {
    polling = false;
    successful_poll_count = 3;
    running_jobs = 2;
    jobs_in_flight = 2;
    dequeue_polls = 0;
  },
  refl,
  refl,
  refl,
)

round_never_panics_example : round 8 job_completed busy ≢ some (panic negative_jobs)
round_never_panics_example =
    round_never_panics (pos 2) 8 busy 8 job_completed negative_jobs refl Reach-busy

Reach-Inv_example : Inv busy
Reach-Inv_example = Reach-Inv (pos 2) 8 Reach-busy

abbrev stopping : Scheduler
stopping = record polled { exiting = true }

Reach-stopping : Reach initial stopping
unfolding new_job_scheduler start round
Reach-stopping = next 6 exit_signal polled stopping Reach-polled refl

abbrev stopped : Scheduler
stopped = record stopping { polling = false; failed_poll_count = 1; info_polls = 0 }

Reach-stopped : Reach initial stopped
unfolding new_job_scheduler start round
Reach-stopped = next 7 info_failed stopping stopped Reach-stopping refl

never_stuck_example :
    (e : Event) × (is_own e ≡ true) × ((t : Scheduler) × (round 9 e busy ≡ some (going t)))
unfolding new_job_scheduler start returns
never_stuck_example = never_stuck (pos 2) 8 busy 9 refl Reach-busy refl

exit_ends_example : 1 ≤ work stopping
unfolding new_job_scheduler start round rounds
exit_ends_example =
    exit_ends (pos 2) 8 ((7, info_failed) ∷ []) stopping stopped Reach-stopping refl ((λ p. cc), tt)
      refl

abbrev quiet : Scheduler
quiet = record dequeuing { exiting_when_quiet = true }

Reach-quiet : Reach initial quiet
unfolding new_job_scheduler start round
Reach-quiet = next 7 exit_when_quiet_signal dequeuing quiet Reach-dequeuing refl

-- With `-parallel_jobs=-1` a first dequeue is under way, since the loop polls at its start.
abbrev wrongly_configured : Scheduler
wrongly_configured = record dequeuing { parallel_jobs = negsuc 0 }

-- If it brings a job, the scheduler panics.
panics_at_first_job : round 8 (dequeued got_job) wrongly_configured ≡ some (panic too_many_jobs)
unfolding round start
panics_at_first_job = refl

-- If it brings none, no goroutine is in flight and the poll timer is not armed.
abbrev deaf : Scheduler
deaf = record wrongly_configured { polling = false; successful_poll_count = 2; dequeue_polls = 0 }

no_job_makes_deaf : round 8 (dequeued no_job) wrongly_configured ≡ some (going deaf)
unfolding round start
no_job_makes_deaf = refl

stays_deaf : round 9 poll_timer deaf ≡ none
unfolding round start
stays_deaf = refl
