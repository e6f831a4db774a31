-- ===== src/Worker.antt =====
-- One round of the worker (`RunOnce` of src/backend/internal/worker/worker.go) on the queue and the
-- invitations, where notifications, household domains and sessions are not configured. Each call of a
-- repository is a transaction of its own; one reading of the clock stands for those of a round. The
-- JSON of a notification, the cipher and the provider are parameters, and a short text stands for the
-- message of an error that a library or the database gives.
pub mod Sends
use Prim.Native.String.{String}
use roomies.Base.{ℕ, Bool, true, false, not, ◌&&◌, ◌||◌, Option, none, some, ◌==◌, if◌then◌else◌}
use roomies.Base.Sql.{select_one}
use roomies.Base.Result.{Result, ok, err}
use roomies.Base.Tx.{transact}
use roomies.Queue.{
  DurableJob, OutboxMessage, MessageStatus, Payload, malformed, object, acquire_next_job,
  complete_outbox_job, fail_outbox_job, is_pending,
}
use roomies.Invitations.{
  Tables, InvitationNotification, InvitationError, unavailable, Topic, house_invitation_created,
  house_invitation_revoked, house_invitation_accepted, on_queue,
}
use roomies.Invitations.Links.{same_text}
use roomies.Invitations.Ops.{invitation_delivery_available}

-- What a round did: the provider was called with a notification and, where there is one, the link.
pub data Round : Type 0 where
  sent : InvitationNotification → Option String → Round
  not_sent : Round

-- The provider answers with the text of its error, or nothing.
pub record Worker : Type 0 where
  pub owner : ℕ
  pub lease_duration : ℕ
  pub decode : String → Option InvitationNotification
  pub decrypt : Option (String → ℕ → ℕ → ℕ → Option String)
  pub provider : Option (InvitationNotification → Option String → Option String)

abbrev pub is_created : Topic → Bool
is_created house_invitation_created = true
is_created house_invitation_revoked = false
is_created house_invitation_accepted = false

-- `CompleteOutboxJob` and `FailOutboxJob`, whose own error the round returns.
unfoldable pub complete : ℕ → DurableJob → Option ℕ → Tables → Tables
unfolding complete_outbox_job
complete now job message s = (transact (on_queue (complete_outbox_job now job message)) s).1

unfoldable pub failed : ℕ → DurableJob → Option ℕ → String → Tables → Tables
unfolding fail_outbox_job
failed now job message cause s =
    (transact (on_queue (fail_outbox_job now job message cause none)) s).1

-- What `InvitationDeliveryAvailable` answers: available, unavailable, or another error.
pub data Availability : Type 0 where
  available gone unknown : Availability

abbrev pub availability : Result InvitationError (Option InvitationError) → Availability
availability (ok none) = available
availability (ok (some e)) = gone
availability (err unavailable) = gone
availability (err _) = unknown

module _ (w : Worker) (now : ℕ) (job : DurableJob) (message : OutboxMessage) where
  unfoldable pub after_send :
      InvitationNotification → Option String → Option String → Tables → Round × Tables
  unfolding complete failed
  after_send n url none s = (sent n url, complete now job (some message.id) s)
  after_send n url (some cause) s = (sent n url, failed now job (some message.id) cause s)

  abbrev give_up : String → Tables → Round × Tables
  give_up cause s = (not_sent, failed now job (some message.id) cause s)

  -- `DispatchInvitation` and what follows it.
  unfoldable pub send :
      (InvitationNotification → Option String → Option String)
      → InvitationNotification
      → Option String
      → Tables
      → Round × Tables
  unfolding after_send
  send provider n url s = after_send n url (provider n url) s

  -- The link of an available invitation.
  unfoldable pub send_sealed :
      (InvitationNotification → Option String → Option String)
      → InvitationNotification
      → Option (Option String)
      → Tables
      → Round × Tables
  unfolding send failed
  send_sealed provider n none s = give_up "invitation delivery cipher is not configured" s
  send_sealed provider n (some none) s = give_up "decrypt" s
  send_sealed provider n (some (some url)) s = send provider n (some url) s

  abbrev pub decrypted : InvitationNotification → String → Option (Option String)
  decrypted n d = elim w.decrypt [
    | none ↦ none
    | some decrypt ↦ some (decrypt d n.invitation_id n.house_id job.id)
  ]

  unfoldable pub with_delivery :
      (InvitationNotification → Option String → Option String)
      → InvitationNotification
      → String
      → Availability
      → Tables
      → Round × Tables
  unfolding send_sealed complete failed
  with_delivery provider n d available s = send_sealed provider n (decrypted n d) s
  with_delivery provider n d gone s = (not_sent, complete now job (some message.id) s)
  with_delivery provider n d unknown s = give_up "invitation" s

  unfoldable pub without_delivery : Availability → Tables → Round × Tables
  unfolding complete failed
  without_delivery available s = give_up "invitation delivery payload is unavailable" s
  without_delivery gone s = (not_sent, complete now job (some message.id) s)
  without_delivery unknown s = give_up "invitation" s

  abbrev pub has_cipher : Bool
  has_cipher = elim w.decrypt [ none ↦ false | some _ ↦ true ]

  unfoldable pub deliver :
      (InvitationNotification → Option String → Option String)
      → InvitationNotification
      → Option String
      → Tables
      → Round × Tables
  unfolding with_delivery without_delivery send invitation_delivery_available
  deliver provider n (some d) s =
      let r = transact (invitation_delivery_available now n.invitation_id) s in
      with_delivery provider n d (availability r.0) r.1
  deliver provider n none s =
      if is_created n.topic && has_cipher
      then (let r = transact (invitation_delivery_available now n.invitation_id) s in
          without_delivery (availability r.0) r.1)
      else send provider n none s

  unfoldable pub with_provider :
      Option (InvitationNotification → Option String → Option String)
      → Option InvitationNotification
      → Option String
      → Tables
      → Round × Tables
  unfolding deliver failed
  with_provider provider none d s = give_up "json" s
  with_provider none (some n) d s = give_up "invitation provider is not configured" s
  with_provider (some provider) (some n) d s = deliver provider n d s

  unfoldable pub with_payload : Payload → Tables → Round × Tables
  unfolding with_provider failed
  with_payload (malformed _) s = give_up "json" s
  with_payload (object d text) s = with_provider w.provider (w.decode text) d s

  -- The message was read; a settled one only completes the job.
  unfoldable pub dispatch : Tables → Round × Tables
  unfolding with_payload complete failed
  dispatch s =
      if is_pending message.status
      then (if same_text message.topic "notification.delivery"
          then give_up "notification provider is not configured" s
          else with_payload message.payload s)
      else (not_sent, complete now job none s)

module _ (w : Worker) (now : ℕ) where
  unfoldable pub with_message : DurableJob → ℕ → Option OutboxMessage → Tables → Round × Tables
  unfolding dispatch failed
  with_message job id none s = (not_sent, failed now job (some id) "no rows" s)
  with_message job id (some m) s = dispatch w now job m s

  unfoldable pub with_id : DurableJob → Option ℕ → Tables → Round × Tables
  unfolding with_message failed
  with_id job none s = (not_sent, failed now job none "json" s)
  with_id job (some id) s = with_message job id (select_one (λ m. m.id == id) s.queue.outbox) s

  unfoldable pub with_job : Result InvitationError (Option DurableJob) → Tables → Round × Tables
  unfolding with_id
  with_job (err e) s = (not_sent, s)
  with_job (ok none) s = (not_sent, s)
  with_job (ok (some job)) s = with_id job job.payload s

  unfoldable pub run_once : Tables → Round × Tables
  unfolding with_job acquire_next_job
  run_once s =
      let r = transact (on_queue (acquire_next_job now w.owner w.lease_duration)) s in
      with_job r.0 r.1
