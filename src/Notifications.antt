-- ===== src/Notifications.antt =====
-- Notifications to the members of a house (src/backend/internal/repository/notifications.go): rows,
-- preferences and errors. Texts are numbers where the code only stores and compares them.
pub mod Times
pub mod Payload
pub mod Enqueue
pub mod Subscriptions
pub mod Dispatch
pub mod Devices
pub mod Revoking
pub mod Runs
use Prim.Native.String.{String}
use roomies.Base.{
  ℕ, Bool, true, false, not, ◌&&◌, ◌||◌, Option, none, some, List, [], ◌∷◌, ltb, ◌==◌,
  if◌then◌else◌,
}
use roomies.Base.Sql.{select_one, count_where, update_where}
use roomies.Base.Result.{ok, err}
use roomies.Base.Tx.{Tx, pure, read, modify, fail_if, or_fail, ◌>>=◌, ◌>>◌}
use roomies.Models.{HouseMember}
use roomies.Houses.{Houses}
use roomies.Queue
use roomies.Queue.{Store}

pub data Category : Type 0 where
  expense_created reminder : Category

pub data Cadence : Type 0 where
  immediate daily_digest : Cadence

abbrev pub is_reminder : Category → Bool
is_reminder expense_created = false
is_reminder reminder = true

abbrev pub same_category : Category → Category → Bool
same_category expense_created c = not (is_reminder c)
same_category reminder c = is_reminder c

abbrev pub is_digest : Cadence → Bool
is_digest immediate = false
is_digest daily_digest = true

pub record NotificationPreferences : Type 0 where
  pub house_id : ℕ
  pub user_id : ℕ
  pub expense_created_enabled : Bool
  pub reminder_enabled : Bool
  pub cadence : Cadence
  pub timezone : String
  pub quiet_start_minutes : Option ℕ
  pub quiet_end_minutes : Option ℕ
  pub digest_minutes : ℕ

-- A row of `notification_deliveries`.
pub record Delivery : Type 0 where
  pub id : ℕ
  pub house_id : ℕ
  pub user_id : ℕ
  pub category : Category
  pub resource_type : ℕ
  pub resource_id : ℕ
  pub occurrence_at : ℕ
  pub cadence : Cadence
  pub available_at : ℕ
  pub dispatched_at : Option ℕ

pub data Platform : Type 0 where
  web_push android_fcm : Platform

-- A row of `notification_subscriptions`, less the label and the times that are only shown; the key
-- and the secret are `none` for the empty text.
pub record Subscription : Type 0 where
  pub id : ℕ
  pub house_id : ℕ
  pub user_id : ℕ
  pub platform : Platform
  pub identity_hash : ℕ
  pub key_id : Option ℕ
  pub ciphertext : Option String
  pub revoked_at : Option ℕ

-- The audit rows of quarantined subscriptions.
pub record Quarantine : Type 0 where
  pub house_id : ℕ
  pub target_id : ℕ
  pub key_id : Option ℕ

pub record Tables : Type 0 where
  pub house : Houses
  pub preferences : List NotificationPreferences
  pub deliveries : List Delivery
  pub subscriptions : List Subscription
  pub quarantined : List Quarantine
  pub queue : Store

-- `store_error` is any other error of the database.
pub data NotificationError : Type 0 where
  invalid_input notification_not_found house_missing store_error : NotificationError

abbrev pub Action : Type 0 → Type 0
Action = Tx NotificationError Tables

abbrev pub set_deliveries : List Delivery → Tables → Tables
set_deliveries ds s = record s { deliveries = ds }

abbrev pub set_subscriptions : List Subscription → Tables → Tables
set_subscriptions xs s = record s { subscriptions = xs }

abbrev pub set_queue : Store → Tables → Tables
set_queue q s = record s { queue = q }

-- A statement on the queue inside of the transaction.
abbrev pub on_queue : {A : Type 0} → Queue.Action A → Action A
on_queue m s = elim (m s.queue) [ ok r ↦ ok (r.0, set_queue r.1 s) | err e ↦ err store_error ]

-- The preferences of a member who has stored none.
abbrev pub default_preferences : ℕ → ℕ → NotificationPreferences
default_preferences house user = record {
  house_id = house;
  user_id = user;
  expense_created_enabled = true;
  reminder_enabled = true;
  cadence = immediate;
  timezone = "UTC";
  quiet_start_minutes = none;
  quiet_end_minutes = none;
  digest_minutes = 480;
}

abbrev pub of_user : ℕ → ℕ → NotificationPreferences → Bool
of_user house user p = p.house_id == house && p.user_id == user

abbrev pub or_default : ℕ → ℕ → Option NotificationPreferences → NotificationPreferences
or_default house user none = default_preferences house user
or_default house user (some p) = p

-- `GetPreferences` and `getPreferencesTx`
abbrev pub get_preferences : ℕ → ℕ → List NotificationPreferences → NotificationPreferences
get_preferences house user ps = or_default house user (select_one (of_user house user) ps)

-- `notificationCategoryEnabled`
abbrev pub category_enabled : NotificationPreferences → Category → Bool
category_enabled p expense_created = p.expense_created_enabled
category_enabled p reminder = p.reminder_enabled

-- v >= 0 && v < 1440
abbrev pub valid_minute : ℕ → Bool
valid_minute v = ltb v 1440

-- Both quiet minutes or none, and each in range.
abbrev pub valid_quiet : Option ℕ → Option ℕ → Bool
valid_quiet none none = true
valid_quiet (some start) (some end) = valid_minute start && valid_minute end
valid_quiet none (some _) = false
valid_quiet (some _) none = false

-- The checks of `PutPreferences`; `known` tells whether the name of a time zone loads.
abbrev pub valid_preferences : (String → Bool) → NotificationPreferences → Bool
valid_preferences known p =
    known p.timezone
    && valid_quiet p.quiet_start_minutes p.quiet_end_minutes
    && valid_minute p.digest_minutes

-- The rows of other members, and this one: ON CONFLICT (house_id, user_id) DO UPDATE.
abbrev pub upsert_preferences :
    NotificationPreferences → List NotificationPreferences → List NotificationPreferences
upsert_preferences p [] = p ∷ []
upsert_preferences p (q ∷ qs) =
    let rest = upsert_preferences p qs in
    if of_user p.house_id p.user_id q then p ∷ qs else q ∷ rest

unfoldable pub put_preferences : (String → Bool) → NotificationPreferences → Action (Unit {0})
put_preferences known p = do
  fail_if (not (valid_preferences known p)) invalid_input
  modify (λ s. record s { preferences = upsert_preferences p s.preferences })
