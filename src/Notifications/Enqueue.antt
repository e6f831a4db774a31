-- ===== src/Notifications/Enqueue.antt =====
-- New notifications: `EnqueueTx` of src/backend/internal/repository/notifications.go. The JSON text of
-- a payload, the time zones and the identifiers drawn for each member are parameters.
pub mod Deliveries
pub mod Once
use Prim.Native.String.{String}
use roomies.Base.{
  ℕ, ◌+◌, ◌*◌, Bool, true, false, not, ◌&&◌, none, some, List, [], ◌∷◌, ltb, ◌==◌, if◌then◌else◌,
}
use roomies.Base.Sql.{select_where, count_where}
use roomies.Base.Tx.{Tx, pure, read, modify, fail_if, ◌>>=◌, ◌>>◌}
use roomies.Models.{HouseMember}
use roomies.Queue.{Payload, object, OutboxMessage, DurableJob, notification}
use roomies.Queue.Enqueue.{new_message, new_job, insert_message, insert_job}
use roomies.Notifications.{
  Category, Delivery, NotificationPreferences, Tables, Action, store_error, same_category,
  is_digest, get_preferences, category_enabled, set_deliveries, on_queue,
}
use roomies.Notifications.Times.{Zone, notification_available_at}
use roomies.Notifications.Payload.{NotificationPayload, generic_text}

-- What happened, and when.
pub record Notice : Type 0 where
  pub house_id : ℕ
  pub category : Category
  pub resource_type : ℕ
  pub resource_id : ℕ
  pub occurrence : ℕ

pub record Setting : Type 0 where
  pub zone : String → Zone
  pub json : NotificationPayload → String

-- The time of a call and its new identifiers.
pub record Call : Type 0 where
  pub now : ℕ
  pub delivery_id : ℕ → ℕ
  pub message_id : ℕ → ℕ
  pub job_id : ℕ → ℕ

-- UNIQUE(house_id, user_id, category, resource_type, resource_id, occurrence_at)
abbrev pub is_delivery_of : Notice → ℕ → Delivery → Bool
is_delivery_of n user d =
    d.house_id == n.house_id
    && d.user_id == user
    && same_category d.category n.category
    && d.resource_type == n.resource_type
    && d.resource_id == n.resource_id
    && d.occurrence_at == n.occurrence

-- The members of the house whose preferences have the category on, and those without any.
abbrev pub has_enabled : Notice → List NotificationPreferences → HouseMember → Bool
has_enabled n ps m =
    m.house_id == n.house_id
    && category_enabled (get_preferences n.house_id m.user_id ps) n.category

abbrev pub user_ids : List HouseMember → List ℕ
user_ids [] = []
user_ids (m ∷ ms) = m.user_id ∷ user_ids ms

abbrev pub receivers : Notice → Tables → List ℕ
receivers n s = user_ids (select_where (has_enabled n s.preferences) s.house.members)

-- The occurrence, or now where it has passed.
abbrev pub delivery_time : ℕ → ℕ → ℕ
delivery_time occurrence now = if ltb occurrence now then now else occurrence

-- `"notification:" + id`
abbrev pub notification_key : ℕ → ℕ
notification_key id = 4 * id + 3

abbrev pub insert_delivery : Delivery → Action (Unit {0})
insert_delivery d = do
  k ← read (λ s. count_where (λ x. x.id == d.id) s.deliveries)
  fail_if (not (k == 0)) store_error
  modify (λ s. set_deliveries (d ∷ s.deliveries) s)

module _ (env : Setting) (call : Call) (n : Notice) where
  abbrev pub available_for : NotificationPreferences → ℕ
  available_for p =
      notification_available_at (env.zone p.timezone) (delivery_time n.occurrence call.now) p

  abbrev pub new_delivery : ℕ → NotificationPreferences → Delivery
  new_delivery user p = record {
    id = call.delivery_id user;
    house_id = n.house_id;
    user_id = user;
    category = n.category;
    resource_type = n.resource_type;
    resource_id = n.resource_id;
    occurrence_at = n.occurrence;
    cadence = p.cadence;
    available_at = available_for p;
    dispatched_at = none;
  }

  abbrev pub new_payload : ℕ → NotificationPreferences → NotificationPayload
  new_payload user p = record {
    notification_id = some (call.delivery_id user);
    house_id = n.house_id;
    user_id = user;
    category = some n.category;
    resource_type = some n.resource_type;
    resource_id = some n.resource_id;
    text = generic_text n.category;
    digest = is_digest p.cadence;
    category_counts = none;
  }

  abbrev pub trigger_message : ℕ → NotificationPreferences → OutboxMessage
  trigger_message user p =
      new_message (call.message_id user) "notification.delivery"
        (notification_key (call.delivery_id user)) (object none (env.json (new_payload user p)))
        (available_for p) call.now

  abbrev pub trigger_job : ℕ → NotificationPreferences → DurableJob
  trigger_job user p =
      new_job (call.job_id user) notification (notification_key (call.delivery_id user))
        (call.message_id user) (available_for p) call.now 8

  -- The message with ON CONFLICT(dedupe_key) DO NOTHING; the job follows a new message.
  unfoldable pub insert_trigger : ℕ → NotificationPreferences → Action (Unit {0})
  insert_trigger user p =
      let m = trigger_message user p in
      read (λ s. count_where (λ x. x.dedupe_key == m.dedupe_key) s.queue.outbox) >>= λ k.
      if k == 0 then on_queue (insert_message m >> insert_job (trigger_job user p)) else pure tt

  unfoldable pub notify : ℕ → NotificationPreferences → Action (Unit {0})
  unfolding insert_trigger
  notify user p = insert_delivery (new_delivery user p) >> insert_trigger user p

  -- ON CONFLICT(…) DO NOTHING, and `continue` where no row was new.
  unfoldable pub enqueue_user : ℕ → Action (Unit {0})
  unfolding notify
  enqueue_user user = read (λ s. get_preferences n.house_id user s.preferences) >>= λ p.
      read (λ s. count_where (is_delivery_of n user) s.deliveries) >>= λ k.
      if k == 0 then notify user p else pure tt

  unfoldable pub enqueue_users : List ℕ → Action (Unit {0})
  unfolding enqueue_user
  enqueue_users [] = pure tt
  enqueue_users (user ∷ users) = enqueue_user user >> enqueue_users users

  unfoldable pub enqueue : Action (Unit {0})
  unfolding enqueue_users
  enqueue = read (receivers n) >>= enqueue_users
