-- ===== src/Examples/Jobs.antt =====
-- Runs of the job queue.
use roomies.Base.{ℕ, ◌+◌, ◌*◌, ◌≤◌, ◌≡◌, ◌⊎◌, refl, none, some, [], ◌∷◌, arith}
use roomies.Base.Result.{ok, err}
use roomies.Base.Sql.{count_where}
use roomies.Base.Tx.{transact}
use roomies.Queue.{
  DurableJob, outbox_message, Store, job_lease_lost, lease_to, acquire_next_job, holds_lease,
  complete_outbox_job, fail_outbox_job, job_backoff, second,
}
use roomies.Queue.Acquired.{IsDue, Acquired, acquire_next_job_takes}
use roomies.Queue.Fence.{here, stale_handle_refused}
use roomies.Queue.Retry.{job_backoff_schedule}

abbrev waiting : DurableJob
waiting = record {
  id = 1;
  kind = outbox_message;
  dedupe_key = 3;
  payload = some 2;
  available_at = 0;
  lease_owner = none;
  lease_expires_at = none;
  lease_generation = 0;
  attempts = 0;
  max_attempts = 5;
  last_error = none;
  dead_lettered_at = none;
  completed_at = none;
  created_at = 0;
  updated_at = 0;
}

abbrev queued : Store
queued = record { jobs = waiting ∷ []; outbox = [] }

abbrev first_handle : DurableJob
first_handle = lease_to 10 5 30 waiting

abbrev second_handle : DurableJob
second_handle = lease_to 40 6 30 first_handle

abbrev leased_once : Store
leased_once = record { jobs = first_handle ∷ []; outbox = [] }

abbrev leased_twice : Store
leased_twice = record { jobs = second_handle ∷ []; outbox = [] }

first_run : acquire_next_job 10 5 30 queued ≡ ok (some first_handle, leased_once)
unfolding acquire_next_job
first_run = refl

second_run : acquire_next_job 40 6 30 leased_once ≡ ok (some second_handle, leased_twice)
unfolding acquire_next_job
second_run = refl

stale_handle_refused_example :
    (transact (complete_outbox_job 41 first_handle (some 2)) leased_twice
      ≡ (err job_lease_lost, leased_twice))
    × (transact (fail_outbox_job 41 first_handle (some 2) "late" none) leased_twice
        ≡ (err job_lease_lost, leased_twice))
stale_handle_refused_example =
    stale_handle_refused queued leased_once leased_twice 10 5 30 40 6 30 (refl, tt) first_run here
      second_run refl here 41 (some 2) "late" none

none_holds : count_where (holds_lease 50 first_handle) queued.jobs ≡ 0
unfolding holds_lease
none_holds = refl

waiting-IsDue : IsDue 10 waiting
waiting-IsDue = (refl, refl, ground arith, tt)

acquire_next_job_takes_example :
    (row j : DurableJob) × (t : Store) × (acquire_next_job 10 5 30 queued ≡ ok (some j, t))
    × Acquired 10 5 30 queued t row j
acquire_next_job_takes_example =
    acquire_next_job_takes 10 5 30 queued waiting (refl, tt) refl waiting-IsDue

job_backoff_schedule_example :
    (job_backoff 0 ≡ second)
    × (job_backoff 1 ≡ second)
    × (◌≡◌ {A = ℕ} 3 0
        ⊎ ((1 ≤ 3) × (3 ≤ 5) × (job_backoff (3 + 1) ≡ 2 * job_backoff 3))
        ⊎ ((6 ≤ 3) × (job_backoff 3 ≡ 32 * second)))
job_backoff_schedule_example = job_backoff_schedule 3
