-- ===== src/Notifications/Payload.antt =====
-- The payload of a notification (src/backend/internal/repository/notifications.go). A field with the
-- empty text, which the JSON text omits, is `none`.
use Prim.Native.String.{String}
use roomies.Base.{ℕ, ◌+◌, Bool, Option}
use roomies.Notifications.{Category, expense_created, reminder}

pub data Text : Type 0 where
  generic : String → Text
  household_updates : ℕ → Text

pub record CategoryCounts : Type 0 where
  pub expenses_created : ℕ
  pub reminders : ℕ

pub record NotificationPayload : Type 0 where
  pub notification_id : Option ℕ
  pub house_id : ℕ
  pub user_id : ℕ
  pub category : Option Category
  pub resource_type : Option ℕ
  pub resource_id : Option ℕ
  pub text : Text
  pub digest : Bool
  pub category_counts : Option CategoryCounts

abbrev pub generic_text : Category → Text
generic_text reminder = generic "A scheduled household reminder is due"
generic_text expense_created = generic "A shared expense was added"

-- `counts[category]++`
abbrev pub count_category : Category → CategoryCounts → CategoryCounts
count_category expense_created c = record c { expenses_created = c.expenses_created + 1 }
count_category reminder c = record c { reminders = c.reminders + 1 }

abbrev pub total_notification_count : CategoryCounts → ℕ
total_notification_count c = c.expenses_created + c.reminders
