-- ===== src/Invitations/Notices.antt =====
-- The statements of a transaction on invitations that leave the rows of invitations and members as
-- they are (src/backend/internal/repository/reliability.go): a relation between the tables before and
-- after that respects each of them respects chains of them.
use Prim.Native.String.{String}
use roomies.Base.{ℕ, ◌≡◌, refl, true, Option, none, some, List, [], ◌∷◌, ◌++◌}
use roomies.Base.Result.{Result, ok, err}
use roomies.Base.Tx.{◌>>=◌}
use roomies.Base.Keeps.{Keeps, keep_one, keep_bind, keep_find, keep_pure, keep_modify}
use roomies.Houses.{EventType, HouseEvent, append_event, member_joined, invitation_accepted}
use roomies.Queue
use roomies.Queue.{Store, QueueError, OutboxMessage, DurableJob, clear_delivery_payload}
use roomies.Queue.Enqueue.{enqueue}
use roomies.Invitations.{
  Action, Tables, HouseInvitation, InvitationNotification, InvitationError, AuditEvent, created_key,
  accepted_key, notify, house_invitation_accepted, set_house, set_audit, Topic, store_error,
  set_queue, on_queue,
}
use roomies.Invitations.Ops.{
  lock_house, clear_invitation_delivery, clear_all, insert_audit_event, insert_house_event,
  audit_event, house_event, Library, Fresh, enqueue_notification, record_change, delivery_of,
  announce_acceptance,
}

-- What is asked of the relation, one field per kind of statement.
pub record Quiet (R : Tables → Tables → Type 0) : Type 0 where
  pub same : (s : Tables) → R s s
  pub chains : (s t u : Tables) → R s t → R t u → R s u
  pub clears :
      (now key : ℕ) (s : Tables) (q : Store)
      → clear_delivery_payload now key s.queue ≡ ok (tt, q)
      → R s (set_queue q s)
  pub enqueues :
      (m : OutboxMessage) (j : DurableJob) (s : Tables) (q : Store)
      → enqueue m j s.queue ≡ ok (tt, q)
      → R s (set_queue q s)
  pub logs : (a : AuditEvent) (s : Tables) → R s (set_audit (s.audit ++ a ∷ []) s)
  pub publishes : (e : HouseEvent) (s : Tables) → R s (set_house (append_event true e s.house) s)

module _ (R : Tables → Tables → Type 0) (quiet : Quiet R) where
  abbrev pub KeepsRows : {A : Type 0} → Action A → Type 0
  KeepsRows m = Keeps R m

  pub bind :
      {A B : Type 0} (m : Action A) (f : A → Action B)
      → KeepsRows m
      → ((a : A) → KeepsRows (f a))
      → KeepsRows (m >>= f)
  bind = keep_bind R quiet.chains

  pub on_queue_rows :
      {A : Type 0} (m : Queue.Action A)
      → ((a : A) (s : Tables) (q : Store) → m s.queue ≡ ok (a, q) → R s (set_queue q s))
      → KeepsRows (on_queue m)
  on_queue_rows {A} m respects s r h = go (m s.queue) refl h
    where
      go :
          (x : Result QueueError (A × Store))
          → m s.queue ≡ x
          → ◌≡◌ {A = Result InvitationError (A × Tables)}
              (elim x [ ok r ↦ ok (r.0, set_queue r.1 s) | err e ↦ err store_error ])
              (ok r)
          → R s r.1
      go (ok (a, q)) is e = keep_one R a s (set_queue q s) r (respects a s q is) e
      go (err x) is e = cc

  pub lock_house_rows : (house : ℕ) → KeepsRows (lock_house house)
  unfolding lock_house
  lock_house_rows house = bind _ _ (keep_find R quiet.same _ _) (λ _. keep_pure R quiet.same _)

  pub clear_rows : (now id : ℕ) → KeepsRows (clear_invitation_delivery now id)
  unfolding clear_invitation_delivery
  clear_rows now id = on_queue_rows _ (λ _. quiet.clears now (created_key id))

  pub clear_all_rows : (now : ℕ) (is : List HouseInvitation) → KeepsRows (clear_all now is)
  unfolding clear_all
  clear_all_rows now [] = keep_pure R quiet.same _
  clear_all_rows now (i ∷ is) = bind _ _ (clear_rows now i.id) (λ _. clear_all_rows now is)

  pub record_change_rows :
      (now : ℕ) (action : Topic) (type : EventType) (actor : ℕ) (i : HouseInvitation)
      → KeepsRows (record_change now action type actor i)
  unfolding record_change insert_audit_event insert_house_event
  record_change_rows now action type actor i =
      bind _ _ (keep_modify R _ (λ s. quiet.logs (audit_event now action actor i.house_id i) s))
        (λ _. keep_modify R _ (λ s. quiet.publishes (house_event type i.house_id actor i.id) s))

  module _ (lib : Library) where
    pub enqueue_rows :
        (now : ℕ) (ids : Fresh) (key : ℕ) (n : InvitationNotification) (delivery : Option String)
        → KeepsRows (enqueue_notification lib now ids key n delivery)
    unfolding enqueue_notification
    enqueue_rows now ids key n delivery = on_queue_rows _ (λ _. quiet.enqueues _ _)

    pub delivery_rows :
        (deliver : Option (ℕ → Option String)) (job : ℕ) → KeepsRows (delivery_of lib deliver job)
    unfolding delivery_of
    delivery_rows none job = keep_pure R quiet.same _
    delivery_rows (some deliver) job =
        bind _ _ (keep_find R quiet.same (λ _. deliver job) _) (λ _. keep_pure R quiet.same _)

    pub announce_rows :
        (now : ℕ) (ids : Fresh) (actor : ℕ) (i : HouseInvitation)
        → KeepsRows (announce_acceptance lib now ids actor i)
    unfolding announce_acceptance insert_house_event
    announce_rows now ids actor i = bind _ _ (clear_rows now i.id) (λ _.
        bind _ _
          (enqueue_rows now ids (accepted_key i.id)
            (notify house_invitation_accepted i now (some actor)) none)
          (λ _.
            bind _ _ (record_change_rows now house_invitation_accepted invitation_accepted actor i)
              (λ _.
                bind _ _
                  (keep_modify R _
                    (λ s. quiet.publishes (house_event member_joined i.house_id actor actor) s))
                  (λ _. keep_pure R quiet.same i))))
