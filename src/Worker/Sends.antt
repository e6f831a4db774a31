-- ===== src/Worker/Sends.antt =====
-- Which links the worker sends (src/backend/internal/worker/worker.go).
use Prim.Native.String.{String}
use roomies.Base.{
  ℕ, ◌≡◌, refl, subst, Bool, true, false, ◌&&◌, Option, none, some, arith, ◌==◌, if◌then◌else◌,
  Bool-cases, Option-cases, inl, inr,
}
use roomies.Base.Sql.{select_one}
use roomies.Base.Result.{Result, ok, err}
use roomies.Base.Tx.{transact}
use roomies.Queue
use roomies.Queue.{
  DurableJob, OutboxMessage, Payload, malformed, object, Store, QueueError, acquire_next_job,
  is_pending,
}
use roomies.Invitations.{
  Tables, HouseInvitation, InvitationNotification, InvitationError, InvitationStatus, pending,
  find_invitation, is_overdue, on_queue, set_queue, store_error,
}
use roomies.Invitations
use roomies.Invitations.Links.{same_text}
use roomies.Invitations.Ops.{invitation_delivery_available, check_pending, lock_house}
use roomies.Worker.{
  Worker, Round, sent, Availability, available, gone, unknown, availability, after_send, send,
  send_sealed, with_delivery, without_delivery, deliver, with_provider, with_payload, dispatch,
  with_message, with_id, with_job, run_once, is_created, has_cipher,
}

-- The invitation is there, pending and in time.
pub IsOpen : ℕ → ℕ → Tables → Type 0
IsOpen now id s =
    (x : HouseInvitation) × (find_invitation id s.invitations ≡ some x)
    × (Invitations.is_pending x.status ≡ true)
    × (is_overdue now x ≡ false)

available-IsOpen :
    (now id : ℕ) (s : Tables)
    → availability (transact (invitation_delivery_available now id) s).0 ≡ available
    → IsOpen now id s
unfolding IsOpen invitation_delivery_available check_pending lock_house
available-IsOpen now id s h = elim (Option-cases (select_one (λ i. i.id == id) s.invitations)) [
  | inl absent ↦ absurd (ground arith)
  | inr (x, there) ↦ elim (Option-cases (select_one (λ h. h.id == x.house_id) s.house.houses)) [
    | inl no_house ↦ absurd (ground arith)
    | inr (house, house_there) ↦ elim (Bool-cases (Invitations.is_pending x.status)) [
      | inr settled ↦ absurd (ground arith)
      | inl waits ↦ elim (Bool-cases (is_overdue now x)) [
        | inr in_time ↦ (x, there, waits, in_time)
        | inl late ↦ absurd (ground arith)
      ]
    ]
  ]
]

-- The result of a round sends this link.
Sends : InvitationNotification → String → Round × Tables → Type 0
Sends n url r = r.0 ≡ sent n (some url)

module _ (w : Worker) (now : ℕ) (job : DurableJob) (message : OutboxMessage)
    (n : InvitationNotification) (url : String) where
  send_lem :
      (provider : InvitationNotification → Option String → Option String)
      (m : InvitationNotification) (u : Option String) (s : Tables)
      → Sends n url (send w now job message provider m u s)
      → (m ≡ n) × (u ≡ some url)
  unfolding Sends send after_send
  send_lem provider m u s h = elim (Option-cases (provider m u)) [
    | inl fine ↦ (ground (arith, fine), ground (arith, fine))
    | inr (cause, bad) ↦ (ground (arith, bad), ground (arith, bad))
  ]

  sealed_lem :
      (provider : InvitationNotification → Option String → Option String)
      (m : InvitationNotification) (o : Option (Option String)) (s : Tables)
      → Sends n url (send_sealed w now job message provider m o s)
      → m ≡ n
  unfolding send_sealed Sends
  sealed_lem provider m none s h = cc
  sealed_lem provider m (some none) s h = cc
  sealed_lem provider m (some (some u)) s h = (send_lem provider m (some u) s h).0

  with_delivery_lem :
      (provider : InvitationNotification → Option String → Option String)
      (m : InvitationNotification) (d : String) (a : Availability) (s : Tables)
      → Sends n url (with_delivery w now job message provider m d a s)
      → (m ≡ n) × (a ≡ available)
  unfolding with_delivery Sends
  with_delivery_lem provider m d available s h = (sealed_lem provider m _ s h, refl)
  with_delivery_lem provider m d gone s h = cc
  with_delivery_lem provider m d unknown s h = cc

  without_lem :
      (a : Availability) (s : Tables) → Sends n url (without_delivery w now job message a s) → ⊥
  unfolding without_delivery Sends
  without_lem available s h = cc
  without_lem gone s h = cc
  without_lem unknown s h = cc

  deliver_lem :
      (provider : InvitationNotification → Option String → Option String)
      (m : InvitationNotification) (d : Option String) (s : Tables)
      → Sends n url (deliver w now job message provider m d s)
      → IsOpen now n.invitation_id s
  unfolding deliver
  deliver_lem provider m (some d) s h =
      let (same, free) = with_delivery_lem provider m d _ _ h in
      subst (λ k. IsOpen now k.invitation_id s) same (available-IsOpen now m.invitation_id s free)
  deliver_lem provider m none s h = go (is_created m.topic && has_cipher w now job message) h
    where
      go :
          (b : Bool)
          → Sends n url (
              if b
              then without_delivery w now job message
                  (availability (transact (invitation_delivery_available now m.invitation_id) s).0)
                  (transact (invitation_delivery_available now m.invitation_id) s).1
              else send w now job message provider m none s)
          → IsOpen now n.invitation_id s
      go true k = absurd (without_lem _ _ k)
      go false k = absurd (let e = (send_lem provider m none s k).1 in cc)

  provider_lem :
      (provider : Option (InvitationNotification → Option String → Option String))
      (o : Option InvitationNotification) (d : Option String) (s : Tables)
      → Sends n url (with_provider w now job message provider o d s)
      → IsOpen now n.invitation_id s
  unfolding with_provider Sends
  provider_lem provider none d s h = cc
  provider_lem none (some m) d s h = cc
  provider_lem (some provider) (some m) d s h = deliver_lem provider m d s h

  payload_lem :
      (p : Payload) (s : Tables)
      → Sends n url (with_payload w now job message p s)
      → IsOpen now n.invitation_id s
  unfolding with_payload Sends
  payload_lem (malformed t) s h = cc
  payload_lem (object d text) s h = provider_lem w.provider (w.decode text) d s h

  dispatch_lem :
      (s : Tables) → Sends n url (dispatch w now job message s) → IsOpen now n.invitation_id s
  unfolding dispatch Sends
  dispatch_lem s h = elim (Bool-cases (is_pending message.status)) [
    | inr settled ↦ absurd (ground arith)
    | inl waits ↦ elim (Bool-cases (same_text message.topic "notification.delivery")) [
      | inl other ↦ absurd (ground arith)
      | inr invitation ↦ payload_lem message.payload s (ground arith)
    ]
  ]

module _ (w : Worker) (now : ℕ) (n : InvitationNotification) (url : String) where
  message_lem :
      (job : DurableJob) (id : ℕ) (o : Option OutboxMessage) (s : Tables)
      → Sends n url (with_message w now job id o s)
      → IsOpen now n.invitation_id s
  unfolding with_message Sends
  message_lem job id none s h = cc
  message_lem job id (some m) s h = dispatch_lem w now job m n url s h

  id_lem :
      (job : DurableJob) (o : Option ℕ) (s : Tables)
      → Sends n url (with_id w now job o s)
      → IsOpen now n.invitation_id s
  unfolding with_id Sends
  id_lem job none s h = cc
  id_lem job (some id) s h = message_lem job id (select_one (λ m. m.id == id) s.queue.outbox) s h

  job_lem :
      (r : Result InvitationError (Option DurableJob)) (s : Tables)
      → Sends n url (with_job w now r s)
      → IsOpen now n.invitation_id s
  unfolding with_job Sends
  job_lem (err e) s h = cc
  job_lem (ok none) s h = cc
  job_lem (ok (some job)) s h = id_lem job job.payload s h

on_queue-invitations :
    {A : Type 0} (m : Queue.Action A) (s : Tables)
    → (transact (on_queue m) s).1.invitations ≡ s.invitations
on_queue-invitations {A} m s = go (m s.queue)
  where
    go :
        (x : Result QueueError (A × Store))
        → (elim (elim x as (λ _. Result InvitationError (A × Tables)) [
          | ok r ↦ ok (r.0, set_queue r.1 s)
          | err e ↦ err store_error
        ])
            as (λ _. Result InvitationError A × Tables) [
              | ok r ↦ (ok r.0, r.1)
              | err e ↦ (err e, s)
            ]).1.invitations
          ≡ s.invitations
    go (ok r) = refl
    go (err e) = refl

-- A round of the worker gives the provider a link only for an invitation that is there, pending and
-- in time when the round begins.
pub run_once_sends :
    (w : Worker) (now : ℕ) (n : InvitationNotification) (url : String) (s : Tables)
    → (run_once w now s).0 ≡ sent n (some url)
    → IsOpen now n.invitation_id s
unfolding run_once Sends IsOpen
run_once_sends w now n url s h =
    let r = transact (on_queue (acquire_next_job now w.owner w.lease_duration)) s in
    let (x, there, waits, in_time) = job_lem w now n url r.0 r.1 h in
    let same = on_queue-invitations (acquire_next_job now w.owner w.lease_duration) s in
    (x, subst (λ is. find_invitation n.invitation_id is ≡ some x) same there, waits, in_time)
