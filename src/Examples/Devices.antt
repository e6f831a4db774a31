-- ===== src/Examples/Devices.antt =====
-- Notifications to the devices of a house.
use roomies.Base.{ℕ, ◌≤◌, ◌<◌, ◌≡◌, ◌≢◌, ◌⊎◌, refl, false, true, none, some, [], ◌∷◌, ◌++◌, arith}
use roomies.Base.Result.{Result, ok, err}
use roomies.Base.Sql.{count_where}
use roomies.Notifications.{
  reminder, immediate, daily_digest, web_push, NotificationPreferences, Subscription,
  NotificationError, Tables,
}
use roomies.Notifications.Times.{notification_available_at, is_quiet}
use roomies.Notifications.Times.Quiet.{IsSteady, available_at_quiet}
use roomies.Notifications.Payload.{NotificationPayload, generic}
use roomies.Notifications.Enqueue.{Notice, enqueue}
use roomies.Notifications.Enqueue.Deliveries.{deliveries_of}
use roomies.Notifications.Enqueue.Once.{enqueue_once}
use roomies.Notifications.Subscriptions.{Cipher, is_lockable, revoke_subscription}
use roomies.Notifications.Dispatch.{
  NotificationTarget, Run, nothing_sent, Answer, accepted, is_requested, is_member, has_house,
  has_id, with_authorized_dispatch, tables_after,
}
use roomies.Notifications.Dispatch.Targets.{was_called, dispatch_authorized}
use roomies.Notifications.Dispatch.Once.{dispatch_once}
use roomies.Notifications.Runs.{enqueues, dispatches, done, next, revoked_never_called}
use roomies.Examples.Schedule.{utc, setting, call_at, no_notifications}

utc-IsSteady : IsSteady utc
utc-IsSteady = record {
  in_day = λ t. ground arith;
  local_date = λ day minute small. (ground (arith, small), ground (arith, small));
  later = λ t day minute small before. ground (arith, small, before);
}

-- Nothing from ten in the evening to seven in the morning.
abbrev at_night : NotificationPreferences
at_night = record {
  house_id = 7;
  user_id = 12;
  expense_created_enabled = true;
  reminder_enabled = true;
  cadence = immediate;
  timezone = "UTC";
  quiet_start_minutes = some 1320;
  quiet_end_minutes = some 420;
  digest_minutes = 480;
}

-- At eleven on the third day.
at_seven : notification_available_at utc 5700 at_night ≡ 6180
unfolding notification_available_at
at_seven = refl

available_at_quiet_example :
    ((at_night.cadence ≡ immediate)
      × (5700 ≤ notification_available_at utc 5700 at_night)
      × (is_quiet 1320 420 (utc.local (notification_available_at utc 5700 at_night)).minute ≡ false)
      × ((is_quiet 1320 420 (utc.local 5700).minute ≡ true)
          ⊎ (notification_available_at utc 5700 at_night ≡ 5700)))
    ⊎ ((at_night.cadence ≡ daily_digest)
        × (5700 < notification_available_at utc 5700 at_night)
        × ((utc.local (notification_available_at utc 5700 at_night)).minute
            ≡ at_night.digest_minutes))
available_at_quiet_example =
    available_at_quiet utc 5700 at_night 1320 420 utc-IsSteady refl refl (ground arith)
      (ground arith) (ground arith)

abbrev due : Notice
due = record {
  house_id = 7;
  category = reminder;
  resource_type = 1;
  resource_id = 4;
  occurrence = 20;
}

abbrev phone : Subscription
phone = record {
  id = 31;
  house_id = 7;
  user_id = 12;
  platform = web_push;
  identity_hash = 5;
  key_id = some 1;
  ciphertext = some "sealed";
  revoked_at = none;
}

abbrev with_phone : Tables
with_phone = record no_notifications { subscriptions = phone ∷ [] }

abbrev after_run : Result NotificationError (Unit {0} × Tables) → Tables → Tables
after_run (ok r) s = r.1
after_run (err e) s = s

abbrev enqueued : Tables
enqueued = after_run (enqueue setting (call_at 25) due with_phone) with_phone

enqueue_run : enqueue setting (call_at 25) due with_phone ≡ ok (tt, enqueued)
unfolding enqueue roomies.Queue.Enqueue.insert_message roomies.Queue.Enqueue.insert_job
enqueue_run = refl

enqueue_once_example :
    (deliveries_of due 12 enqueued ≡ 1)
    × (enqueue setting (call_at 90) due enqueued ≡ ok (tt, enqueued))
enqueue_once_example =
    enqueue_once setting (call_at 25) (call_at 90) due 12 with_phone enqueued
      (λ other. ground arith) refl enqueue_run

abbrev sealed_with : ℕ → Cipher
sealed_with key = record {
  current_key_id = key;
  encrypt = λ _ _. some "sealed";
  decrypt =
      λ _ _. some (record { endpoint = "https://push"; p256dh = "k"; auth = "a"; token = "" });
}

abbrev to_bob : ℕ → NotificationPayload
to_bob id = record {
  notification_id = some id;
  house_id = 7;
  user_id = 12;
  category = some reminder;
  resource_type = some 1;
  resource_id = some 4;
  text = generic "A scheduled household reminder is due";
  digest = false;
  category_counts = none;
}

abbrev takes_all : NotificationPayload → NotificationTarget → Answer
takes_all p t = accepted

abbrev first_run : Run
first_run = with_authorized_dispatch (some (sealed_with 2)) takes_all 30 (to_bob 25012) enqueued

abbrev dispatched : Tables
dispatched = tables_after first_run enqueued

first_run_calls : was_called 31 first_run.0.calls ≡ true
unfolding with_authorized_dispatch enqueue roomies.Queue.Enqueue.insert_message
    roomies.Queue.Enqueue.insert_job
first_run_calls = refl

first_run_commits : first_run.1 ≡ ok dispatched
unfolding with_authorized_dispatch enqueue roomies.Queue.Enqueue.insert_message
    roomies.Queue.Enqueue.insert_job
first_run_commits = refl

dispatch_authorized_example :
    (has_house (to_bob 25012) enqueued ≡ true)
    × (is_member (to_bob 25012) enqueued ≡ true)
    × (count_where (is_requested 30 (to_bob 25012)) enqueued.deliveries ≢ 0)
    × (count_where (is_lockable 7 12 31) enqueued.subscriptions ≢ 0)
dispatch_authorized_example =
    dispatch_authorized (some (sealed_with 2)) takes_all 30 (to_bob 25012) 31 enqueued
      first_run_calls

dispatch_once_example :
    with_authorized_dispatch (some (sealed_with 3)) takes_all 80 (to_bob 25012) dispatched
    ≡ (nothing_sent, ok dispatched)
dispatch_once_example =
    dispatch_once (some (sealed_with 2)) (some (sealed_with 3)) takes_all takes_all 30 80
      (to_bob 25012) enqueued dispatched refl first_run_commits

abbrev revoked : Tables
revoked = after_run (revoke_subscription 40 7 12 31 dispatched) dispatched

revoke_run : revoke_subscription 40 7 12 31 dispatched ≡ ok (tt, revoked)
unfolding revoke_subscription with_authorized_dispatch enqueue roomies.Queue.Enqueue.insert_message
    roomies.Queue.Enqueue.insert_job
revoke_run = refl

one_phone : count_where (has_id 31) dispatched.subscriptions ≤ 1
unfolding revoke_subscription with_authorized_dispatch enqueue roomies.Queue.Enqueue.insert_message
    roomies.Queue.Enqueue.insert_job
one_phone = ground arith

abbrev second_due : Notice
second_due = record due { occurrence = 50 }

abbrev enqueued_again : Tables
enqueued_again = after_run (enqueue setting (call_at 60) second_due revoked) revoked

enqueue_again_run : enqueue setting (call_at 60) second_due revoked ≡ ok (tt, enqueued_again)
unfolding revoke_subscription with_authorized_dispatch enqueue roomies.Queue.Enqueue.insert_message
    roomies.Queue.Enqueue.insert_job
enqueue_again_run = refl

abbrev second_run : Run
second_run =
    with_authorized_dispatch (some (sealed_with 2)) takes_all 70 (to_bob 60012) enqueued_again

revoked_never_called_example : was_called 31 ([] ++ second_run.0.calls ++ []) ≡ false
revoked_never_called_example =
    revoked_never_called 40 7 12 31 dispatched revoked (tables_after second_run enqueued_again)
      ([] ++ second_run.0.calls ++ []) one_phone revoke_run
      (next (enqueues setting (call_at 60) second_due enqueue_again_run)
        (next (dispatches (some (sealed_with 2)) takes_all 70 (to_bob 60012)) done))
