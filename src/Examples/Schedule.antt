-- ===== src/Examples/Schedule.antt =====
-- Runs of the scheduler.
use roomies.Base.{
  ℕ, ◌+◌, ◌*◌, ◌/◌, ◌%◌, ◌≤◌, ◌≡◌, refl, true, none, some, [], ◌∷◌, arith, ltb, ◌==◌, if◌then◌else◌,
  Bool-cases, inl, inr,
}
use roomies.Base.Sql.{count_where}
use roomies.Notifications
use roomies.Notifications.Times.{Zone}
use roomies.Notifications.Enqueue.{Setting, Call, enqueue}
use roomies.Scheduler.{
  Recurrence, ScheduledHouseEvent, Tables, run_scheduler, run_due_scheduled_event,
}
use roomies.Scheduler.Due.{IsLater}
use roomies.Scheduler.Occurrences.{has_event, is_announcement}
use roomies.Scheduler.Runs.{runs, done, announced_once}
use roomies.Examples.Data.{people}

-- A time is a number of minutes, and the days are those of UTC.
abbrev pub utc : Zone
utc = record {
  local = λ t. record { day = t / 1440; minute = t % 1440 };
  date = λ day minute. day * 1440 + minute;
}

abbrev pub setting : Setting
setting = record { zone = λ _. utc; json = λ _. "{}" }

abbrev pub call_at : ℕ → Call
call_at now = record {
  now = now;
  delivery_id = λ user. 1000 * now + user;
  message_id = λ user. 1000 * now + user + 100;
  job_id = λ user. 1000 * now + user + 200;
}

abbrev pub no_notifications : Notifications.Tables
no_notifications = record {
  house = record {
    houses = record { id = 7; name = "home"; created_at = 0 } ∷ [];
    members = people;
    events = [];
  };
  preferences = [];
  deliveries = [];
  subscriptions = [];
  quarantined = [];
  queue = record { jobs = []; outbox = [] };
}

-- Every ten minutes, five times.
abbrev every_ten : Recurrence
every_ten = record {
  validate = λ _ _. true;
  next = λ _ at. some (if ltb at 50 then some (at + 10) else none);
}

abbrev plants : ScheduledHouseEvent
plants = record {
  id = 4;
  house_id = 7;
  creator_id = 11;
  title = "plants";
  timezone = "UTC";
  dtstart_local = "";
  rrule = "";
  ex_dates = some [];
  next_occurrence_at = some 10;
  enabled = true;
  lease_owner = none;
  lease_expires_at = none;
  lease_generation = 0;
  updated_at = 0;
}

abbrev garden : Tables
garden = record { scheduled = plants ∷ []; due_events = []; notifications = no_notifications }

abbrev after_one : Tables
after_one = (run_scheduler every_ten setting (call_at 25) 1 5 30 garden).1

abbrev after_two : Tables
after_two = (run_scheduler every_ten setting (call_at 26) 1 6 30 after_one).1

every_ten-IsLater : IsLater every_ten
every_ten-IsLater e ex_dates at n h = elim (Bool-cases (ltb at 50)) [
  | inl early ↦ ground (arith, early, h)
  | inr late ↦ absurd (ground (arith, late, h))
]

two_occurrences : after_two.due_events ≡ (
    record { house_id = 7; event_id = 4; occurrence_at = 20 }
    ∷ record { house_id = 7; event_id = 4; occurrence_at = 10 }
    ∷ [])
unfolding run_due_scheduled_event enqueue roomies.Queue.Enqueue.insert_message
    roomies.Queue.Enqueue.insert_job
two_occurrences = refl

one_row : (id : ℕ) → count_where (has_event id) garden.scheduled ≤ 1
one_row id = elim (Bool-cases (4 == id)) [
  | inl here ↦ ground (arith, here)
  | inr other ↦ ground (arith, other)
]

announced_once_example : count_where (is_announcement 4 10) after_two.due_events ≤ 1
announced_once_example =
    announced_once every_ten garden after_two 4 10 every_ten-IsLater one_row refl
      (runs setting (call_at 25) 1 5 30 (runs setting (call_at 26) 1 6 30 done))
