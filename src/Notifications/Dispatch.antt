-- ===== src/Notifications/Dispatch.antt =====
-- Sending a notification to the devices of a member: `WithAuthorizedDispatch` of
-- src/backend/internal/repository/notifications.go. The answers of the push services are a parameter.
-- What was sent stays sent where the transaction is rolled back, so that it is kept apart.
pub mod Targets
pub mod Stable
pub mod Revoked
pub mod Once
use Prim.Native.String.{String}
use roomies.Base.{
  ℕ, ◌+◌, Bool, true, false, not, ◌&&◌, ◌||◌, Option, none, some, List, [], ◌∷◌, ◌++◌, ltb, leb,
  ◌==◌, if◌then◌else◌,
}
use roomies.Base.Sql.{select_one, select_where, count_where, update_where}
use roomies.Base.Result.{Result, ok, err}
use roomies.Houses.{of_member}
use roomies.Queue.{is_null}
use roomies.Notifications.{
  Category, Platform, Delivery, NotificationPreferences, Subscription, Quarantine, Tables,
  NotificationError, invalid_input, house_missing, store_error, is_digest, get_preferences,
  category_enabled, set_deliveries, set_subscriptions,
}
use roomies.Notifications.Payload.{
  Text, household_updates, CategoryCounts, NotificationPayload, count_category,
  total_notification_count,
}
use roomies.Notifications.Subscriptions.{Secret, Cipher, of_owner, is_open, revoke_at}

pub record NotificationTarget : Type 0 where
  pub id : ℕ
  pub platform : Platform
  pub secret : Secret

-- What a push service answers: it took the message, it says that the device is gone, or an error.
pub data Answer : Type 0 where
  accepted gone failed : Answer

-- The calls of the push services, and `NotificationDispatchSummary`.
pub record Sent : Type 0 where
  pub calls : List NotificationTarget
  pub invalid_target_ids : List ℕ
  pub dispatched : Bool

abbrev pub nothing_sent : Sent
nothing_sent = record { calls = []; invalid_target_ids = []; dispatched = false }

abbrev pub Run : Type 0
Run = Sent × Result NotificationError Tables

abbrev pub append_sent : Sent → Sent → Sent
append_sent a b = record {
  calls = a.calls ++ b.calls;
  invalid_target_ids = a.invalid_target_ids ++ b.invalid_target_ids;
  dispatched = a.dispatched || b.dispatched;
}

abbrev pub sent_before : Sent → Run → Run
sent_before a (b, r) = (append_sent a b, r)

-- The loop goes on after a target that did not fail.
abbrev pub and_then : Run → (Tables → Run) → Run
and_then (a, ok s) k = sent_before a (k s)
and_then (a, err e) k = (a, err e)

abbrev pub has_id : ℕ → Subscription → Bool
has_id id x = x.id == id

abbrev pub revoke_target : ℕ → ℕ → Tables → Tables
revoke_target now id s =
    set_subscriptions (update_where (has_id id) (revoke_at now) s.subscriptions) s

abbrev pub quarantine_row : ℕ → Subscription → Quarantine
quarantine_row house x = record { house_id = house; target_id = x.id; key_id = x.key_id }

-- `quarantineInvalidTarget`
abbrev pub quarantine_invalid_target : ℕ → ℕ → Subscription → Tables → Tables
quarantine_invalid_target now house x s =
    let t = revoke_target now x.id s in
    record t { quarantined = quarantine_row house x ∷ t.quarantined }

abbrev pub reseal : ℕ → String → Subscription → Subscription
reseal key text x = record x { key_id = some key; ciphertext = some text }

abbrev pub is_open_with_id : ℕ → Subscription → Bool
is_open_with_id id x = x.id == id && is_open x

abbrev pub store_rotated : ℕ → ℕ → Option String → Tables → Result NotificationError Tables
store_rotated key id none s = err store_error
store_rotated key id (some text) s =
    ok (set_subscriptions (update_where (is_open_with_id id) (reseal key text) s.subscriptions) s)

abbrev pub is_key : Option ℕ → ℕ → Bool
is_key none key = false
is_key (some k) key = k == key

-- A secret under an older key is stored again under the current one.
abbrev pub rotate_key : Cipher → Subscription → Secret → Tables → Result NotificationError Tables
rotate_key cipher x secret s =
    if is_key x.key_id cipher.current_key_id
    then ok s
    else store_rotated cipher.current_key_id x.id (cipher.encrypt x.id secret) s

abbrev pub target_of : Subscription → Secret → NotificationTarget
target_of x secret = record { id = x.id; platform = x.platform; secret = secret }

abbrev pub answered : ℕ → NotificationTarget → Answer → Tables → Run
answered now t failed s =
    (record { calls = t ∷ []; invalid_target_ids = []; dispatched = false }, err store_error)
answered now t accepted s =
    (record { calls = t ∷ []; invalid_target_ids = []; dispatched = true }, ok s)
answered now t gone s = (
  record { calls = t ∷ []; invalid_target_ids = []; dispatched = true },
  ok (revoke_target now t.id s),
)

module _ (cipher : Cipher) (send : NotificationTarget → Answer) (now house : ℕ) where
  abbrev pub dispatch_rotated : NotificationTarget → Result NotificationError Tables → Run
  dispatch_rotated t (ok s) = answered now t (send t) s
  dispatch_rotated t (err e) = (nothing_sent, err e)

  abbrev pub dispatch_decrypted : Subscription → Tables → Option Secret → Run
  dispatch_decrypted x s none = (
    record { calls = []; invalid_target_ids = x.id ∷ []; dispatched = false },
    ok (quarantine_invalid_target now house x s),
  )
  dispatch_decrypted x s (some secret) =
      dispatch_rotated (target_of x secret) (rotate_key cipher x secret s)

  unfoldable pub dispatch_target : Subscription → Tables → Run
  dispatch_target x s = dispatch_decrypted x s (cipher.decrypt x.id x.ciphertext)

  -- The loop over the subscriptions.
  unfoldable pub dispatch_targets : List Subscription → Tables → Run
  unfolding dispatch_target
  dispatch_targets [] s = (nothing_sent, ok s)
  dispatch_targets (x ∷ xs) s = and_then (dispatch_target x s) (dispatch_targets xs)

abbrev pub insert_by_id : Subscription → List Subscription → List Subscription
insert_by_id x [] = x ∷ []
insert_by_id x (y ∷ ys) =
    let rest = insert_by_id x ys in if leb x.id y.id then x ∷ y ∷ ys else y ∷ rest

-- ORDER BY id
abbrev pub order_by_id : List Subscription → List Subscription
order_by_id [] = []
order_by_id (x ∷ xs) = insert_by_id x (order_by_id xs)

abbrev pub is_null_id : Option ℕ → ℕ → Bool
is_null_id none id = false
is_null_id (some k) id = k == id

-- The rows of one notification, or those of the digest that are due; the order is of no effect.
abbrev pub is_requested : ℕ → NotificationPayload → Delivery → Bool
is_requested now p d =
    d.house_id == p.house_id
    && d.user_id == p.user_id
    && is_null d.dispatched_at
    && (if p.digest
        then is_digest d.cadence && leb d.available_at now
        else is_null_id p.notification_id d.id)

abbrev pub enabled_counts : NotificationPreferences → List Delivery → CategoryCounts
enabled_counts p [] = record { expenses_created = 0; reminders = 0 }
enabled_counts p (d ∷ ds) =
    let rest = enabled_counts p ds in
    if category_enabled p d.category then count_category d.category rest else rest

-- The deliveries of the run, by their identifiers: `WHERE id IN (…)`.
abbrev pub in_deliveries : List Delivery → Delivery → Bool
in_deliveries [] d = false
in_deliveries (x ∷ xs) d = d.id == x.id || in_deliveries xs d

abbrev pub mark_dispatched : ℕ → List Delivery → Tables → Tables
mark_dispatched now ds s =
    set_deliveries
      (update_where (in_deliveries ds) (λ d. record d { dispatched_at = some now }) s.deliveries) s

abbrev pub category_wanted : NotificationPreferences → Option Category → Bool
category_wanted p none = false
category_wanted p (some c) = category_enabled p c

-- `len(counts) > 0 || !requested.Digest && notificationCategoryEnabled(…)`
abbrev pub is_wanted : NotificationPreferences → NotificationPayload → CategoryCounts → Bool
is_wanted p requested counts =
    ltb 0 (total_notification_count counts)
    || (not requested.digest && category_wanted p requested.category)

abbrev pub digest_payload : NotificationPayload → CategoryCounts → NotificationPayload
digest_payload p counts = record p {
  notification_id = none;
  category = none;
  resource_type = none;
  resource_id = none;
  text = household_updates (total_notification_count counts);
  category_counts = some counts;
}

abbrev pub dispatch_payload : NotificationPayload → CategoryCounts → NotificationPayload
dispatch_payload p counts = if p.digest then digest_payload p counts else p

abbrev pub is_receiver_open : NotificationPayload → Subscription → Bool
is_receiver_open p x = of_owner p.house_id p.user_id x && is_open x

-- The subscriptions that the run reads.
abbrev pub open_targets : NotificationPayload → Tables → List Subscription
open_targets p s = order_by_id (select_where (is_receiver_open p) s.subscriptions)

abbrev pub is_member : NotificationPayload → Tables → Bool
is_member p s = not (count_where (of_member p.house_id p.user_id) s.house.members == 0)

-- A house that is gone is no error.
abbrev pub has_house : NotificationPayload → Tables → Bool
has_house p s = not (count_where (λ h. h.id == p.house_id) s.house.houses == 0)

module _ (cipher : Option Cipher) (send : NotificationPayload → NotificationTarget → Answer)
    (now : ℕ) (requested : NotificationPayload) where
  abbrev pub send_all : Option Cipher → NotificationPayload → Tables → Run
  send_all none p s = (nothing_sent, err invalid_input)
  send_all (some c) p s =
      dispatch_targets c (send p) now requested.house_id (open_targets requested s) s

  abbrev pub send_wanted : Bool → NotificationPayload → Tables → Run
  send_wanted false p s = (nothing_sent, ok s)
  send_wanted true p s = send_all cipher p s

  abbrev pub dispatch_deliveries : List Delivery → Tables → Run
  dispatch_deliveries [] s = (nothing_sent, ok s)
  dispatch_deliveries (d ∷ ds) s =
      let p = get_preferences requested.house_id requested.user_id s.preferences in
      let counts = enabled_counts p (d ∷ ds) in
      and_then (send_wanted (is_wanted p requested counts) (dispatch_payload requested counts) s)
        (λ t. (nothing_sent, ok (mark_dispatched now (d ∷ ds) t)))

  abbrev pub dispatch_to_member : Bool → Tables → Run
  dispatch_to_member false s = (nothing_sent, ok s)
  dispatch_to_member true s =
      dispatch_deliveries (select_where (is_requested now requested) s.deliveries) s

  unfoldable pub with_authorized_dispatch : Tables → Run
  unfolding dispatch_targets
  with_authorized_dispatch s =
      if has_house requested s
      then dispatch_to_member (is_member requested s) s
      else (nothing_sent, ok s)

-- The tables after a run: the old ones where it is rolled back.
abbrev pub tables_after : Run → Tables → Tables
tables_after (sent, ok t) s = t
tables_after (sent, err e) s = s
