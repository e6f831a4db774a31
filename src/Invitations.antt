-- ===== src/Invitations.antt =====
-- Invitations to a house (src/backend/internal/repository/reliability.go). One reading of the clock
-- stands for the two or three that a transaction makes. Tokens, mail addresses and identifiers are
-- only compared, so they are numbers, and 0 is the empty text. The JSON encoding of a notification,
-- the hash of a token, the normal form of an address, the URL library and the delivery cipher are
-- parameters.
pub mod Ops
pub mod Notices
pub mod Statements
pub mod Rows
pub mod Unique
pub mod Links
pub mod Requests
pub mod Runs
pub mod Accepting
pub mod Acceptance
pub mod Joining
pub mod Progress
use Prim.Native.String.{String}
use roomies.Base.{
  ℕ, ◌+◌, ◌*◌, Bool, true, false, not, ◌&&◌, ◌||◌, Option, none, some, List, [], ◌∷◌, ◌++◌, ltb,
  ◌==◌, if◌then◌else◌,
}
use roomies.Base.Sql.{select_where, select_one, count_where, update_where}
use roomies.Base.Result.{Result, ok, err}
use roomies.Base.Tx.{Tx, pure, fail, read, modify, fail_if, or_fail, ◌>>=◌, ◌>>◌}
use roomies.Models.{Role, HouseMember}
use roomies.Houses.{Houses, HouseEvent, EventType, of_member, set_members}
use roomies.Queue
use roomies.Queue.{Store}

-- CHECK(status IN ('pending','accepted','revoked','expired'))
pub data InvitationStatus : Type 0 where
  pending accepted revoked expired : InvitationStatus

abbrev pub is_pending : InvitationStatus → Bool
is_pending pending = true
is_pending accepted = false
is_pending revoked = false
is_pending expired = false

-- A row of `house_invitations`.
pub record HouseInvitation : Type 0 where
  pub id : ℕ
  pub house_id : ℕ
  pub email : ℕ
  pub role : Role
  pub token_hash : ℕ
  pub status : InvitationStatus
  pub created_by : ℕ
  pub created_at : ℕ
  pub expires_at : ℕ
  pub accepted_by : Option ℕ
  pub accepted_at : Option ℕ
  pub revoked_by : Option ℕ
  pub revoked_at : Option ℕ

pub data Topic : Type 0 where
  house_invitation_created house_invitation_revoked house_invitation_accepted : Topic

-- `providers.InvitationNotification` without its `Delivery` field.
pub record InvitationNotification : Type 0 where
  pub topic : Topic
  pub invitation_id : ℕ
  pub house_id : ℕ
  pub email : ℕ
  pub role : Role
  pub status : InvitationStatus
  pub occurred_at : ℕ
  pub accepted_by : Option ℕ

pub record AuditEvent : Type 0 where
  pub actor_id : ℕ
  pub house_id : ℕ
  pub action : Topic
  pub target_id : ℕ
  pub email : ℕ
  pub role : Role
  pub created_at : ℕ

-- The tables that the transactions on invitations read and write.
pub record Tables : Type 0 where
  pub house : Houses
  pub invitations : List HouseInvitation
  pub queue : Store
  pub audit : List AuditEvent

-- `store_error` is any other error of the database, and `failed_delivery` one of the delivery URL
-- or of the cipher.
pub data InvitationError : Type 0 where
  email_required pending_exists unavailable state_conflict house_missing : InvitationError
  store_error failed_delivery : InvitationError

abbrev pub Action : Type 0 → Type 0
Action = Tx InvitationError Tables

abbrev pub set_invitations : List HouseInvitation → Tables → Tables
set_invitations xs s = record s { invitations = xs }

abbrev pub set_queue : Store → Tables → Tables
set_queue q s = record s { queue = q }

abbrev pub set_house : Houses → Tables → Tables
set_house h s = record s { house = h }

abbrev pub set_audit : List AuditEvent → Tables → Tables
set_audit a s = record s { audit = a }

-- A statement on the queue inside of the transaction.
abbrev pub on_queue : {A : Type 0} → Queue.Action A → Action A
on_queue m s = elim (m s.queue) [ ok r ↦ ok (r.0, set_queue r.1 s) | err e ↦ err store_error ]

-- The keys "outbox:invitation:<id>", "…:<id>:revoke" and "…:<id>:accepted".
abbrev pub created_key : ℕ → ℕ
created_key id = 4 * id

abbrev pub revoke_key : ℕ → ℕ
revoke_key id = 4 * id + 1

abbrev pub accepted_key : ℕ → ℕ
accepted_key id = 4 * id + 2

abbrev pub find_invitation : ℕ → List HouseInvitation → Option HouseInvitation
find_invitation id = select_one (λ i. i.id == id)

abbrev pub of_token : ℕ → HouseInvitation → Bool
of_token hash i = i.token_hash == hash

abbrev pub of_house : ℕ → ℕ → HouseInvitation → Bool
of_house house id i = i.house_id == house && i.id == id

-- house_id = … AND email_normalized = … AND status = 'pending'
abbrev pub pending_for : ℕ → ℕ → HouseInvitation → Bool
pending_for house email i = i.house_id == house && i.email == email && is_pending i.status

-- `ExpiresAt.Before(now)`
abbrev pub is_overdue : ℕ → HouseInvitation → Bool
is_overdue now i = ltb i.expires_at now

-- house_id = … AND status = 'pending' AND expires_at < …
abbrev pub expiring : ℕ → ℕ → HouseInvitation → Bool
expiring house now i = i.house_id == house && is_pending i.status && is_overdue now i

-- id = … AND status = 'pending'
abbrev pub open_row : ℕ → HouseInvitation → Bool
open_row id i = i.id == id && is_pending i.status

abbrev pub expire : HouseInvitation → HouseInvitation
expire i = record i { status = expired }

abbrev pub revoke : ℕ → ℕ → HouseInvitation → HouseInvitation
revoke actor now i = record i { status = revoked; revoked_by = some actor; revoked_at = some now }

abbrev pub accept : ℕ → ℕ → HouseInvitation → HouseInvitation
accept actor now i = record i {
  status = accepted;
  accepted_by = some actor;
  accepted_at = some now;
}

abbrev pub notify : Topic → HouseInvitation → ℕ → Option ℕ → InvitationNotification
notify topic i now by = record {
  topic = topic;
  invitation_id = i.id;
  house_id = i.house_id;
  email = i.email;
  role = i.role;
  status = i.status;
  occurred_at = now;
  accepted_by = by;
}
