-- ===== src/Queue/Enqueue.antt =====
-- New messages and their jobs (the two INSERTs of `enqueueInvitationNotificationTx` in
-- src/backend/internal/repository/reliability.go, and of `EnqueueTx` in
-- src/backend/internal/repository/notifications.go).
use Prim.Native.String.{String}
use roomies.Base.{ℕ, not, ◌||◌, none, some, ◌∷◌, ◌==◌}
use roomies.Base.Sql.{count_where}
use roomies.Base.Tx.{read, modify, fail_if, ◌>>=◌, ◌>>◌}
use roomies.Queue.{
  DurableJob, JobKind, OutboxMessage, Payload, pending, unique_violation, Action, set_jobs,
  set_outbox,
}

abbrev pub new_message : ℕ → String → ℕ → Payload → ℕ → ℕ → OutboxMessage
new_message id topic key payload available now = record {
  id = id;
  topic = topic;
  dedupe_key = key;
  payload = payload;
  status = pending;
  available_at = available;
  dispatched_at = none;
  last_error = none;
  created_at = now;
  updated_at = now;
}

abbrev pub new_job : ℕ → JobKind → ℕ → ℕ → ℕ → ℕ → ℕ → DurableJob
new_job id kind key message available now max_attempts = record {
  id = id;
  kind = kind;
  dedupe_key = key;
  payload = some message;
  available_at = available;
  lease_owner = none;
  lease_expires_at = none;
  lease_generation = 0;
  attempts = 0;
  max_attempts = max_attempts;
  last_error = none;
  dead_lettered_at = none;
  completed_at = none;
  created_at = now;
  updated_at = now;
}

-- PRIMARY KEY(id) and UNIQUE(dedupe_key) of both tables.
unfoldable pub insert_message : OutboxMessage → Action (Unit {0})
insert_message m = do
  n ← read (λ s. count_where (λ x. x.id == m.id || x.dedupe_key == m.dedupe_key) s.outbox)
  fail_if (not (n == 0)) unique_violation
  modify (λ s. set_outbox (m ∷ s.outbox) s)

unfoldable pub insert_job : DurableJob → Action (Unit {0})
insert_job j = do
  n ← read (λ s. count_where (λ x. x.id == j.id || x.dedupe_key == j.dedupe_key) s.jobs)
  fail_if (not (n == 0)) unique_violation
  modify (λ s. set_jobs (j ∷ s.jobs) s)

-- The message and the job that dispatches it.
unfoldable pub enqueue : OutboxMessage → DurableJob → Action (Unit {0})
unfolding insert_message insert_job
enqueue m j = do insert_message m; insert_job j
