-- ===== src/Queue.antt =====
-- The durable job queue and its outbox (src/backend/internal/repository/jobs.go). Rows are as the
-- tables `durable_jobs` and `outbox_messages` of src/backend/internal/database/migrations.go hold
-- them; times and durations are nanoseconds; a worker's name is a number, 0 for the empty text.
pub mod Enqueue
pub mod Candidate
pub mod Lease
pub mod Acquired
pub mod Fence
pub mod Retry
use Prim.Native.String.{String}
use roomies.Base.{
  ℕ, zero, suc, ◌+◌, ◌-◌, ◌*◌, ◌^◌, Bool, true, false, not, ◌&&◌, ◌||◌, Option, none, some, List,
  [], ◌∷◌, ltb, leb, ◌==◌, if◌then◌else◌,
}
use roomies.Base.Sql.{select_one, count_where, update_where}
use roomies.Base.Tx.{Tx, pure, fail, read, modify, fail_if, or_fail, ◌>>=◌, ◌>>◌}

-- `dispatch_outbox_message` and `dispatch_notification`
pub data JobKind : Type 0 where
  outbox_message notification : JobKind

pub record DurableJob : Type 0 where
  pub id : ℕ
  pub kind : JobKind
  pub dedupe_key : ℕ
  -- the message's id in the JSON text, or nothing where `DecodeJobPayload` fails
  pub payload : Option ℕ
  pub available_at : ℕ
  pub lease_owner : Option ℕ
  pub lease_expires_at : Option ℕ
  pub lease_generation : ℕ
  pub attempts : ℕ
  pub max_attempts : ℕ
  pub last_error : Option String
  pub dead_lettered_at : Option ℕ
  pub completed_at : Option ℕ
  pub created_at : ℕ
  pub updated_at : ℕ

pub data MessageStatus : Type 0 where
  pending dispatched dead_lettered : MessageStatus

-- The JSON text of a message: what the code looks at is the `delivery` field.
pub data Payload : Type 0 where
  malformed : String → Payload
  object : Option String → String → Payload

pub record OutboxMessage : Type 0 where
  pub id : ℕ
  pub topic : String
  pub dedupe_key : ℕ
  pub payload : Payload
  pub status : MessageStatus
  pub available_at : ℕ
  pub dispatched_at : Option ℕ
  pub last_error : Option String
  pub created_at : ℕ
  pub updated_at : ℕ

pub record Store : Type 0 where
  pub jobs : List DurableJob
  pub outbox : List OutboxMessage

pub data QueueError : Type 0 where
  job_lease_lost transition_rejected no_rows bad_json unique_violation : QueueError

abbrev pub Action : Type 0 → Type 0
Action = Tx QueueError Store

-- `lease_expires_at IS NULL OR lease_expires_at <= now`
abbrev pub lease_is_free : ℕ → Option ℕ → Bool
lease_is_free now none = true
lease_is_free now (some t) = leb t now

-- `lease_expires_at IS NOT NULL AND lease_expires_at > now`
abbrev pub lease_is_live : ℕ → Option ℕ → Bool
lease_is_live now none = false
lease_is_live now (some t) = ltb now t

abbrev pub is_null : Option ℕ → Bool
is_null none = true
is_null (some _) = false

abbrev pub same_owner : Option ℕ → ℕ → Bool
same_owner none o = false
same_owner (some p) o = p == o

-- completed_at IS NULL AND dead_lettered_at IS NULL AND available_at <= now AND the lease is free
unfoldable pub is_runnable : ℕ → DurableJob → Bool
is_runnable now j =
    is_null j.completed_at
    && is_null j.dead_lettered_at
    && leb j.available_at now
    && lease_is_free now j.lease_expires_at

-- ORDER BY available_at ASC, created_at ASC, id ASC
unfoldable pub precedes : DurableJob → DurableJob → Bool
precedes a b =
    if a.available_at == b.available_at
    then (if a.created_at == b.created_at then ltb a.id b.id else ltb a.created_at b.created_at)
    else ltb a.available_at b.available_at

-- `selectJobCandidateTx`: the first runnable row in that order.
unfoldable pub select_job_candidate : ℕ → List DurableJob → Option DurableJob
unfolding is_runnable precedes
select_job_candidate now [] = none
select_job_candidate now (j ∷ js) =
    let rest = select_job_candidate now js in
    if is_runnable now j
    then elim rest [ none ↦ some j | some k ↦ if precedes k j then some k else some j ]
    else rest

abbrev pub lease_to : ℕ → ℕ → ℕ → DurableJob → DurableJob
lease_to now owner duration j = record j {
  lease_owner = some owner;
  lease_expires_at = some (now + duration);
  lease_generation = j.lease_generation + 1;
  attempts = j.attempts + 1;
  updated_at = now;
}

abbrev pub find_job : ℕ → List DurableJob → Option DurableJob
find_job id = select_one (λ j. j.id == id)

abbrev pub may_lease : ℕ → ℕ → DurableJob → Bool
may_lease now id j = j.id == id && is_runnable now j

abbrev pub set_jobs : List DurableJob → Store → Store
set_jobs js s = record s { jobs = js }

-- The UPDATE of `AcquireNextJob`, and the row that it reads back.
unfoldable pub take_lease : ℕ → ℕ → ℕ → ℕ → Action (Option DurableJob)
take_lease now owner duration id = do
  modify (λ s. set_jobs (update_where (may_lease now id) (lease_to now owner duration) s.jobs) s)
  j ← (λ s. or_fail (find_job id s.jobs) no_rows s)
  pure (some j)

-- No row is changed where another worker took the candidate: that is no job and no error.
unfoldable pub acquire_candidate : ℕ → ℕ → ℕ → DurableJob → Action (Option DurableJob)
unfolding take_lease
acquire_candidate now owner duration c = do
  n ← read (λ s. count_where (may_lease now c.id) s.jobs)
  if n == 0 then pure none else take_lease now owner duration c.id

unfoldable pub acquire_next_job : ℕ → ℕ → ℕ → Action (Option DurableJob)
unfolding acquire_candidate select_job_candidate
acquire_next_job now owner duration = do
  candidate ← read (λ s. select_job_candidate now s.jobs)
  elim candidate [ none ↦ pure none | some c ↦ acquire_candidate now owner duration c ]

-- `jobLeaseOwner`: the empty name where the column is NULL.
abbrev pub job_lease_owner : DurableJob → ℕ
job_lease_owner j = elim j.lease_owner [ none ↦ 0 | some o ↦ o ]

-- The WHERE clause that fences every change by a worker: the handle's owner and generation, an
-- open job, and a lease that has not expired.
unfoldable pub holds_lease : ℕ → DurableJob → DurableJob → Bool
holds_lease now handle j =
    j.id == handle.id
    && same_owner j.lease_owner (job_lease_owner handle)
    && j.lease_generation == handle.lease_generation
    && is_null j.completed_at
    && is_null j.dead_lettered_at
    && lease_is_live now j.lease_expires_at

-- `UPDATE durable_jobs SET … WHERE …` and `requireLeaseRow`.
update_leased : ℕ → DurableJob → (DurableJob → DurableJob) → Action (Unit {0})
unfolding holds_lease
update_leased now handle f = do
  n ← read (λ s. count_where (holds_lease now handle) s.jobs)
  fail_if (not (n == 1)) job_lease_lost
  modify (λ s. set_jobs (update_where (holds_lease now handle) f s.jobs) s)

abbrev pub is_pending : MessageStatus → Bool
is_pending pending = true
is_pending dispatched = false
is_pending dead_lettered = false

abbrev pub pending_message : ℕ → OutboxMessage → Bool
pending_message id m = m.id == id && is_pending m.status

abbrev pub set_outbox : List OutboxMessage → Store → Store
set_outbox ms s = record s { outbox = ms }

-- `UPDATE outbox_messages SET … WHERE id = … AND status = 'pending'` and `requireOneRow`.
pub update_pending : ℕ → (OutboxMessage → OutboxMessage) → Action (Unit {0})
update_pending id f = do
  n ← read (λ s. count_where (pending_message id) s.outbox)
  fail_if (not (n == 1)) transition_rejected
  modify (λ s. set_outbox (update_where (pending_message id) f s.outbox) s)

-- `delete(value, "delivery")` on the JSON text: unchanged where the field is not there.
abbrev pub redact : ℕ → OutboxMessage → Payload → Action (Unit {0})
redact now m (malformed _) = fail bad_json
redact now m (object none rest) = pure tt
redact now m (object (some _) rest) = modify (λ s.
    set_outbox
      (update_where (λ x. x.dedupe_key == m.dedupe_key)
        (λ x. record x { payload = object none rest; updated_at = now }) s.outbox)
      s)

-- `clearOutboxDeliveryPayloadTx`
unfoldable pub clear_delivery_payload : ℕ → ℕ → Action (Unit {0})
clear_delivery_payload now dedupe_key = do
  found ← read (λ s. select_one (λ m. m.dedupe_key == dedupe_key) s.outbox)
  elim found [ none ↦ pure tt | some m ↦ redact now m m.payload ]

-- `clearOutboxDeliveryPayloadByIDTx`
pub clear_delivery_payload_by_id : ℕ → ℕ → Action (Unit {0})
unfolding clear_delivery_payload
clear_delivery_payload_by_id now id = do
  m ← (λ s. or_fail (select_one (λ m. m.id == id) s.outbox) no_rows s)
  clear_delivery_payload now m.dedupe_key

abbrev pub complete_job : ℕ → DurableJob → DurableJob
complete_job now j = record j {
  completed_at = some now;
  lease_owner = none;
  lease_expires_at = none;
  updated_at = now;
  last_error = none;
}

-- The message part of `CompleteOutboxJob`; `none` is the empty message id.
dispatch_message : ℕ → Option ℕ → Action (Unit {0})
unfolding update_pending clear_delivery_payload_by_id
dispatch_message now none = pure tt
dispatch_message now (some id) = do
  update_pending id (λ m. record m {
    status = dispatched;
    dispatched_at = some now;
    updated_at = now;
    last_error = none;
  })
  clear_delivery_payload_by_id now id

unfoldable pub complete_outbox_job : ℕ → DurableJob → Option ℕ → Action (Unit {0})
unfolding update_leased dispatch_message
complete_outbox_job now handle message = do
  update_leased now handle (complete_job now)
  dispatch_message now message

abbrev pub second : ℕ
second = 1000000000

abbrev pub min : ℕ → ℕ → ℕ
min a b = if ltb a b then a else b

-- `1 << k`
abbrev pub shift_one : ℕ → ℕ
shift_one k = 2 ^ k

unfoldable pub job_backoff : ℕ → ℕ
job_backoff attempt =
    let attempt' = if ltb attempt 1 then 1 else attempt in
    let backoff = shift_one (min (attempt' - 1) 5) * second in
    if ltb (32 * second) backoff then 32 * second else backoff

-- When a failed job may run again: after its backoff, and not before the provider's own time,
-- where the provider gave one.
unfoldable pub retry_time : ℕ → ℕ → Option ℕ → ℕ
unfolding job_backoff
retry_time now attempts none = now + job_backoff attempts
retry_time now attempts (some t) =
    if ltb (now + job_backoff attempts) t then t else now + job_backoff attempts

abbrev pub is_exhausted : DurableJob → Bool
is_exhausted j = leb j.max_attempts j.attempts

abbrev pub dead_letter : ℕ → String → DurableJob → DurableJob
dead_letter now cause j = record j {
  dead_lettered_at = some now;
  lease_owner = none;
  lease_expires_at = none;
  last_error = some cause;
  updated_at = now;
}

abbrev pub retry_later : ℕ → String → ℕ → DurableJob → DurableJob
retry_later now cause at j = record j {
  available_at = at;
  lease_owner = none;
  lease_expires_at = none;
  last_error = some cause;
  updated_at = now;
}

abbrev pub fail_job : ℕ → DurableJob → String → Option ℕ → DurableJob → DurableJob
fail_job now handle cause retry_at j =
    if is_exhausted handle
    then dead_letter now cause j
    else retry_later now cause (retry_time now handle.attempts retry_at) j

-- The message part of `failOutboxJob`.
fail_message : ℕ → Bool → String → Option ℕ → Action (Unit {0})
unfolding update_pending clear_delivery_payload_by_id
fail_message now dead cause none = pure tt
fail_message now true cause (some id) = do
  update_pending id
      (λ m. record m { status = dead_lettered; last_error = some cause; updated_at = now })
  clear_delivery_payload_by_id now id
fail_message now false cause (some id) =
    update_pending id (λ m. record m { last_error = some cause; updated_at = now })

-- `failOutboxJob`; `FailOutboxJob` gives no retry time, `FailOutboxJobAt` the provider's.
unfoldable pub fail_outbox_job : ℕ → DurableJob → Option ℕ → String → Option ℕ → Action (Unit {0})
unfolding update_leased fail_message retry_time
fail_outbox_job now handle message cause retry_at = do
  update_leased now handle (fail_job now handle cause retry_at)
  fail_message now (is_exhausted handle) cause message
