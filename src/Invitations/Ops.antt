-- ===== src/Invitations/Ops.antt =====
-- The transactions on invitations: `CreateInvitation`, `ListInvitations`, `RevokeInvitation`,
-- `AcceptInvitation` and `InvitationDeliveryAvailable` of
-- src/backend/internal/repository/reliability.go.
use Prim.Native.String.{String}
use roomies.Base.{
  ℕ, Bool, true, false, not, ◌&&◌, ◌||◌, Option, none, some, List, [], ◌∷◌, ◌++◌, ◌==◌,
  if◌then◌else◌,
}
use roomies.Base.Sql.{select_where, select_one, count_where, update_where}
use roomies.Base.Tx.{pure, fail, read, modify, fail_if, or_fail, ◌>>=◌, ◌>>◌}
use roomies.Models.{Role, HouseMember}
use roomies.Houses.{
  EventType, HouseEvent, of_member, set_members, append_event, invitation_created,
  invitation_revoked, invitation_accepted, member_joined,
}
use roomies.Queue.{object, clear_delivery_payload, outbox_message}
use roomies.Queue.Enqueue.{new_message, new_job, enqueue}
use roomies.Invitations.{
  InvitationStatus, pending, accepted, revoked, expired, is_pending, HouseInvitation, Topic,
  house_invitation_created, house_invitation_revoked, house_invitation_accepted,
  InvitationNotification, AuditEvent, InvitationError, email_required, pending_exists, unavailable,
  state_conflict, house_missing, store_error, failed_delivery, Action, set_invitations, set_house,
  set_audit, on_queue, created_key, revoke_key, accepted_key, of_token, of_house, pending_for,
  is_overdue, expiring, open_row, expire, revoke, accept, notify,
}

-- `lockHouse`
unfoldable pub lock_house : ℕ → Action (Unit {0})
lock_house house = do
  h ← (λ s. or_fail (select_one (λ h. h.id == house) s.house.houses) house_missing s)
  pure tt

-- `clearInvitationDeliveryPayloadTx`
unfoldable pub clear_invitation_delivery : ℕ → ℕ → Action (Unit {0})
clear_invitation_delivery now id = on_queue (clear_delivery_payload now (created_key id))

-- The loop of `expirePendingInvitationsTx` over the rows that the SELECT found.
unfoldable pub clear_all : ℕ → List HouseInvitation → Action (Unit {0})
clear_all now [] = pure tt
clear_all now (i ∷ is) = do clear_invitation_delivery now i.id; clear_all now is

unfoldable pub expire_pending_invitations : ℕ → ℕ → Action (Unit {0})
unfolding clear_all
expire_pending_invitations house now = do
  gone ← read (λ s. select_where (expiring house now) s.invitations)
  modify (λ s. set_invitations (update_where (expiring house now) expire s.invitations) s)
  clear_all now gone

-- `markInvitationExpiredTx`: no row is no error, and nothing more is done then.
unfoldable pub mark_invitation_expired : ℕ → ℕ → Action (Unit {0})
unfolding clear_invitation_delivery
mark_invitation_expired now id = do
  n ← read (λ s. count_where (open_row id) s.invitations)
  modify (λ s. set_invitations (update_where (open_row id) expire s.invitations) s)
  if n == 0 then pure tt else clear_invitation_delivery now id

-- `insertAuditEventTx` and `insertHouseEventTx`
abbrev pub audit_event : ℕ → Topic → ℕ → ℕ → HouseInvitation → AuditEvent
audit_event now action actor house i = record {
  actor_id = actor;
  house_id = house;
  action = action;
  target_id = i.id;
  email = i.email;
  role = i.role;
  created_at = now;
}

abbrev pub house_event : EventType → ℕ → ℕ → ℕ → HouseEvent
house_event type house actor resource = record {
  house_id = house;
  event_type = type;
  actor_id = actor;
  resource_id = resource;
}

unfoldable pub insert_audit_event : AuditEvent → Action (Unit {0})
insert_audit_event e = modify (λ s. set_audit (s.audit ++ e ∷ []) s)

unfoldable pub insert_house_event : HouseEvent → Action (Unit {0})
insert_house_event e = modify (λ s. set_house (append_event true e s.house) s)

-- `houseEventParams` and `auditEventParams` of one change of an invitation.
unfoldable pub record_change : ℕ → Topic → EventType → ℕ → HouseInvitation → Action (Unit {0})
unfolding insert_audit_event insert_house_event
record_change now action type actor i = do
  insert_audit_event (audit_event now action actor i.house_id i)
  insert_house_event (house_event type i.house_id actor i.id)

-- The member that an acceptance adds; ON CONFLICT (house_id, user_id) DO NOTHING.
abbrev pub new_member : ℕ → ℕ → ℕ → HouseInvitation → HouseMember
new_member member_id actor now i = record {
  id = member_id;
  house_id = i.house_id;
  user_id = actor;
  role = i.role;
  joined_at = now;
  user_name = "";
  user_email = "";
}

unfoldable pub insert_absent_member : HouseMember → Action (Unit {0})
insert_absent_member m = do
  k ← read (λ s. count_where (λ x. x.id == m.id) s.house.members)
  fail_if (not (k == 0)) store_error
  modify (λ s. set_house (set_members (m ∷ s.house.members) s.house) s)

unfoldable pub insert_member : HouseMember → Action (Unit {0})
unfolding insert_absent_member
insert_member m = do
  n ← read (λ s. count_where (of_member m.house_id m.user_id) s.house.members)
  if n == 0 then insert_absent_member m else pure tt

-- PRIMARY KEY(id), UNIQUE(token_hash) and the unique index on pending rows.
abbrev pub clashes : HouseInvitation → HouseInvitation → Bool
clashes i x = x.id == i.id || x.token_hash == i.token_hash || pending_for i.house_id i.email x

unfoldable pub insert_invitation : HouseInvitation → Action (Unit {0})
insert_invitation i = do
  n ← read (λ s. count_where (clashes i) s.invitations)
  fail_if (not (n == 0)) pending_exists
  modify (λ s. set_invitations (i ∷ s.invitations) s)

abbrev pub new_invitation : ℕ → ℕ → ℕ → Role → ℕ → ℕ → ℕ → ℕ → HouseInvitation
new_invitation id house email role hash actor now expires = record {
  id = id;
  house_id = house;
  email = email;
  role = role;
  token_hash = hash;
  status = pending;
  created_by = actor;
  created_at = now;
  expires_at = expires;
  accepted_by = none;
  accepted_at = none;
  revoked_by = none;
  revoked_at = none;
}

-- `AcceptedBy != nil && *AcceptedBy == actorID`
abbrev pub accepted_before : Option ℕ → ℕ → Bool
accepted_before none actor = false
accepted_before (some by) actor = by == actor

-- What the code uses of the JSON, hashing and text libraries.
pub record Library : Type 0 where
  pub encode : InvitationNotification → String
  pub topic_text : Topic → String
  pub hash_token : ℕ → ℕ
  pub normalize : ℕ → ℕ

-- The identifiers that `models.NewID` makes for a message and its job.
pub record Fresh : Type 0 where
  pub message_id : ℕ
  pub job_id : ℕ

module _ (lib : Library) where
  -- `enqueueInvitationNotificationTx`
  unfoldable pub enqueue_notification :
      ℕ → Fresh → ℕ → InvitationNotification → Option String → Action (Unit {0})
  enqueue_notification now ids key n delivery = on_queue (
      enqueue
        (new_message ids.message_id (lib.topic_text n.topic) key (object delivery (lib.encode n))
          now now)
        (new_job ids.job_id outbox_message key ids.message_id now now 5))

  -- `deliver` is the encrypted acceptance URL, for an invitation and a job, where the repository has
  -- a cipher; see Invitations/Links.
  unfoldable pub delivery_of : Option (ℕ → Option String) → ℕ → Action (Option String)
  delivery_of none job = pure none
  delivery_of (some deliver) job = do text ← or_fail (deliver job) failed_delivery; pure (some text)

  -- The part of `CreateInvitation` that writes the new row.
  unfoldable pub create_row :
      ℕ → Fresh → Option (ℕ → Option String) → HouseInvitation → Action HouseInvitation
  unfolding insert_invitation enqueue_notification record_change delivery_of
  create_row now ids deliver i = do
    insert_invitation i
    delivery ← delivery_of deliver ids.job_id
    enqueue_notification now ids (created_key i.id) (notify house_invitation_created i now none)
        delivery
    record_change now house_invitation_created invitation_created i.created_by i
    pure i

  -- The checks before it, on the row that is to be written.
  unfoldable pub create_checked :
      ℕ → Fresh → Option (ℕ → Option String) → HouseInvitation → Action HouseInvitation
  unfolding lock_house expire_pending_invitations create_row
  create_checked now ids deliver i = do
    fail_if (i.email == 0) email_required
    lock_house i.house_id
    expire_pending_invitations i.house_id now
    n ← read (λ s. count_where (pending_for i.house_id i.email) s.invitations)
    fail_if (not (n == 0)) pending_exists
    create_row now ids deliver i

  unfoldable pub create_invitation :
      ℕ → ℕ → Fresh → ℕ → ℕ → ℕ → ℕ → Role → ℕ → Option (ℕ → Option String) → Action HouseInvitation
  unfolding create_checked
  create_invitation now id ids token house actor email role expires deliver =
      create_checked now ids deliver (
        new_invitation id house (lib.normalize email) role (lib.hash_token token) actor now expires)

  -- The part of `RevokeInvitation` after its checks.
  unfoldable pub revoke_open : ℕ → Fresh → ℕ → ℕ → HouseInvitation → Action HouseInvitation
  unfolding clear_invitation_delivery enqueue_notification record_change
  revoke_open now ids house actor i =
      let i' = revoke actor now i in
      (do
        modify (λ s.
            set_invitations
              (update_where (λ x. x.id == i.id && x.house_id == house && is_pending x.status)
                (revoke actor now) s.invitations)
              s)
        clear_invitation_delivery now i.id
        enqueue_notification now ids (revoke_key i.id) (notify house_invitation_revoked i' now none)
            none
        record_change now house_invitation_revoked invitation_revoked actor i'
        pure i')

  -- The states of the row that `RevokeInvitation` found.
  unfoldable pub revoke_found :
      ℕ → Fresh → ℕ → ℕ → HouseInvitation → InvitationStatus → Action HouseInvitation
  unfolding revoke_open mark_invitation_expired
  revoke_found now ids house actor i revoked = pure i
  revoke_found now ids house actor i accepted = fail state_conflict
  revoke_found now ids house actor i expired = fail state_conflict
  revoke_found now ids house actor i pending =
      if is_overdue now i
      then mark_invitation_expired now i.id >> fail state_conflict
      else revoke_open now ids house actor i

  unfoldable pub revoke_invitation : ℕ → Fresh → ℕ → ℕ → ℕ → Action HouseInvitation
  unfolding revoke_found lock_house
  revoke_invitation now ids house id actor = do
    lock_house house
    i ← (λ s. or_fail (select_one (of_house house id) s.invitations) unavailable s)
    revoke_found now ids house actor i i.status

  -- The part of `AcceptInvitation` after the rows of the member and of the invitation.
  unfoldable pub announce_acceptance : ℕ → Fresh → ℕ → HouseInvitation → Action HouseInvitation
  unfolding clear_invitation_delivery enqueue_notification record_change
  announce_acceptance now ids actor i' = do
    clear_invitation_delivery now i'.id
    enqueue_notification now ids (accepted_key i'.id)
        (notify house_invitation_accepted i' now (some actor)) none
    record_change now house_invitation_accepted invitation_accepted actor i'
    insert_house_event (house_event member_joined i'.house_id actor actor)
    pure i'

  -- The part after its checks.
  unfoldable pub accept_open : ℕ → Fresh → ℕ → ℕ → HouseInvitation → Action HouseInvitation
  unfolding announce_acceptance insert_member
  accept_open now ids member_id actor i = do
    insert_member (new_member member_id actor now i)
    modify (λ s. set_invitations (update_where (open_row i.id) (accept actor now) s.invitations) s)
    announce_acceptance now ids actor (accept actor now i)

  -- The states of the row that `AcceptInvitation` found.
  unfoldable pub accept_found :
      ℕ → Fresh → ℕ → ℕ → HouseInvitation → InvitationStatus → Action HouseInvitation
  unfolding accept_open mark_invitation_expired
  accept_found now ids member_id actor i accepted =
      if accepted_before i.accepted_by actor then pure i else fail unavailable
  accept_found now ids member_id actor i revoked = fail unavailable
  accept_found now ids member_id actor i expired = fail unavailable
  accept_found now ids member_id actor i pending =
      if is_overdue now i
      then mark_invitation_expired now i.id >> fail unavailable
      else accept_open now ids member_id actor i

  unfoldable pub accept_invitation : ℕ → Fresh → ℕ → ℕ → ℕ → ℕ → Action HouseInvitation
  unfolding accept_found lock_house
  accept_invitation now ids member_id token actor email = do
    found ←
        (λ s. or_fail (select_one (of_token (lib.hash_token token)) s.invitations) unavailable s)
    lock_house found.house_id
    i ← (λ s. or_fail (select_one (of_token (lib.hash_token token)) s.invitations) unavailable s)
    fail_if (not (i.email == lib.normalize email)) unavailable
    accept_found now ids member_id actor i i.status

-- `ListInvitations`: the rows of the house, for the caller to order by the time of creation.
unfoldable pub list_invitations : ℕ → ℕ → Action (List HouseInvitation)
unfolding expire_pending_invitations
list_invitations now house = do
  expire_pending_invitations house now
  read (λ s. select_where (λ i. i.house_id == house) s.invitations)

-- `InvitationDeliveryAvailable` commits the expiry and then reports an error, which is the answer
-- `some unavailable` here.
unfoldable pub check_pending : ℕ → HouseInvitation → Action (Option InvitationError)
unfolding mark_invitation_expired
check_pending now i =
    if is_pending i.status
    then (if is_overdue now i
        then mark_invitation_expired now i.id >> pure (some unavailable)
        else pure none)
    else fail unavailable

unfoldable pub invitation_delivery_available : ℕ → ℕ → Action (Option InvitationError)
unfolding check_pending lock_house
invitation_delivery_available now id = do
  found ← (λ s. or_fail (select_one (λ i. i.id == id) s.invitations) unavailable s)
  lock_house found.house_id
  i ← (λ s. or_fail (select_one (λ i. i.id == id) s.invitations) store_error s)
  check_pending now i
