-- ===== src/Scheduler.antt =====
-- Scheduled events of a house: `RunDueScheduledEvent` of src/backend/internal/repository/scheduler.go,
-- and how events are saved and deleted (src/backend/internal/repository/notifications.go). The
-- expansion of recurrence rules (src/backend/internal/recurrence/recurrence.go) is a parameter.
pub mod Due
pub mod Occurrences
pub mod Runs
use Prim.Native.String.{String}
use roomies.Base.{
  ℕ, ◌+◌, ◌-◌, Bool, true, false, not, ◌&&◌, ◌||◌, Option, none, some, List, [], ◌∷◌, ltb, leb,
  ◌==◌, if◌then◌else◌,
}
use roomies.Base.Sql.{select_one, count_where, update_where, delete_where}
use roomies.Base.Result.{Result, ok, err}
use roomies.Base.Tx.{Tx, pure, read, modify, fail, fail_if, or_fail, ◌>>=◌, ◌>>◌}
use roomies.Queue.{lease_is_free, lease_is_live, same_owner}
use roomies.Notifications
use roomies.Notifications.{reminder}
use roomies.Notifications.Enqueue.{Setting, Call, Notice, enqueue}

-- `recurrence.Spec`
pub record Spec : Type 0 where
  pub timezone : String
  pub dtstart_local : String
  pub rule : String
  pub ex_dates : List String

-- `Validate` and `Next`; the next time, where there is one, is after the given time.
pub record Recurrence : Type 0 where
  pub validate : Spec → ℕ → Bool
  pub next : Spec → ℕ → Option (Option ℕ)

-- A row of `scheduled_house_events`; the exceptions are `none` where their JSON text does not decode.
pub record ScheduledHouseEvent : Type 0 where
  pub id : ℕ
  pub house_id : ℕ
  pub creator_id : ℕ
  pub title : String
  pub timezone : String
  pub dtstart_local : String
  pub rrule : String
  pub ex_dates : Option (List String)
  pub next_occurrence_at : Option ℕ
  pub enabled : Bool
  pub lease_owner : Option ℕ
  pub lease_expires_at : Option ℕ
  pub lease_generation : ℕ
  pub updated_at : ℕ

-- A row `scheduled_event.due` of `house_events`.
pub record DueEvent : Type 0 where
  pub house_id : ℕ
  pub event_id : ℕ
  pub occurrence_at : ℕ

pub record Tables : Type 0 where
  pub scheduled : List ScheduledHouseEvent
  pub due_events : List DueEvent
  pub notifications : Notifications.Tables

pub data ScheduleError : Type 0 where
  invalid_schedule event_not_found schedule_lease_lost bad_exceptions bad_rule unique_violation :
      ScheduleError
  notification_failed : Notifications.NotificationError → ScheduleError

abbrev pub Action : Type 0 → Type 0
Action = Tx ScheduleError Tables

abbrev pub set_scheduled : List ScheduledHouseEvent → Tables → Tables
set_scheduled es s = record s { scheduled = es }

abbrev pub on_notifications : {A : Type 0} → Notifications.Action A → Action A
on_notifications m s = elim (m s.notifications) [
  | ok r ↦ ok (r.0, record s { notifications = r.1 })
  | err e ↦ err (notification_failed e)
]

-- What a request stores.
pub record ScheduleRequest : Type 0 where
  pub title : String
  pub spec : Spec
  pub enabled : Bool

abbrev pub is_event : ℕ → ℕ → ScheduledHouseEvent → Bool
is_event house id e = e.id == id && e.house_id == house

abbrev pub apply_request :
    ℕ → ScheduleRequest → Option ℕ → ScheduledHouseEvent → ScheduledHouseEvent
apply_request now req next e = record e {
  title = req.title;
  timezone = req.spec.timezone;
  dtstart_local = req.spec.dtstart_local;
  rrule = req.spec.rule;
  ex_dates = some req.spec.ex_dates;
  next_occurrence_at = next;
  enabled = req.enabled;
  updated_at = now;
}

abbrev pub new_event : ℕ → ℕ → ℕ → ℕ → ScheduleRequest → Option ℕ → ScheduledHouseEvent
new_event now id house creator req next = record {
  id = id;
  house_id = house;
  creator_id = creator;
  title = req.title;
  timezone = req.spec.timezone;
  dtstart_local = req.spec.dtstart_local;
  rrule = req.spec.rule;
  ex_dates = some req.spec.ex_dates;
  next_occurrence_at = next;
  enabled = req.enabled;
  lease_owner = none;
  lease_expires_at = none;
  lease_generation = 0;
  updated_at = now;
}

-- The checks of `saveScheduledEvent`, and the first occurrence from now on.
abbrev pub first_occurrence : Recurrence → ℕ → ScheduleRequest → Action (Option ℕ)
first_occurrence rules now req = do
  fail_if (not (rules.validate req.spec now)) invalid_schedule
  or_fail (rules.next req.spec (now - 1)) invalid_schedule

unfoldable pub update_scheduled_event : Recurrence → ℕ → ℕ → ℕ → ScheduleRequest → Action (Unit {0})
update_scheduled_event rules now house id req = do
  next ← first_occurrence rules now req
  n ← read (λ s. count_where (is_event house id) s.scheduled)
  modify (λ s.
      set_scheduled (update_where (is_event house id) (apply_request now req next) s.scheduled) s)
  fail_if (n == 0) event_not_found

unfoldable pub create_scheduled_event :
    Recurrence → ℕ → ℕ → ℕ → ℕ → ScheduleRequest → Action (Unit {0})
create_scheduled_event rules now id house creator req = do
  next ← first_occurrence rules now req
  n ← read (λ s. count_where (λ e. e.id == id) s.scheduled)
  fail_if (not (n == 0)) unique_violation
  modify (λ s. set_scheduled (new_event now id house creator req next ∷ s.scheduled) s)

unfoldable pub delete_scheduled_event : ℕ → ℕ → Action (Unit {0})
delete_scheduled_event house id = do
  n ← read (λ s. count_where (is_event house id) s.scheduled)
  modify (λ s. set_scheduled (delete_where (is_event house id) s.scheduled) s)
  fail_if (n == 0) event_not_found

-- next_occurrence_at <= k, which no NULL is
abbrev pub is_at_most : Option ℕ → ℕ → Bool
is_at_most none k = false
is_at_most (some n) k = leb n k

abbrev pub is_due : ℕ → ScheduledHouseEvent → Bool
is_due now e =
    e.enabled && is_at_most e.next_occurrence_at now && lease_is_free now e.lease_expires_at

abbrev pub next_or_zero : ScheduledHouseEvent → ℕ
next_or_zero e = elim e.next_occurrence_at [ none ↦ 0 | some n ↦ n ]

-- ORDER BY next_occurrence_at, id
abbrev pub comes_first : ScheduledHouseEvent → ScheduledHouseEvent → Bool
comes_first a b =
    if next_or_zero a == next_or_zero b
    then ltb a.id b.id
    else ltb (next_or_zero a) (next_or_zero b)

abbrev pub earlier_event : ScheduledHouseEvent → Option ScheduledHouseEvent → ScheduledHouseEvent
earlier_event e none = e
earlier_event e (some f) = if comes_first f e then f else e

-- LIMIT 1
unfoldable pub select_due : ℕ → List ScheduledHouseEvent → Option ScheduledHouseEvent
select_due now [] = none
select_due now (e ∷ es) =
    let rest = select_due now es in if is_due now e then some (earlier_event e rest) else rest

abbrev pub spec_of : ScheduledHouseEvent → List String → Spec
spec_of e ex_dates = record {
  timezone = e.timezone;
  dtstart_local = e.dtstart_local;
  rule = e.rrule;
  ex_dates = ex_dates;
}

abbrev pub is_claimable : ℕ → ScheduledHouseEvent → ScheduledHouseEvent → Bool
is_claimable now e x =
    x.id == e.id && x.lease_generation == e.lease_generation && lease_is_free now x.lease_expires_at

abbrev pub claim_for : ℕ → ℕ → ℕ → ScheduledHouseEvent → ScheduledHouseEvent
claim_for now owner duration x = record x {
  lease_owner = some owner;
  lease_expires_at = some (now + duration);
  lease_generation = x.lease_generation + 1;
  updated_at = now;
}

abbrev pub is_claimed : ℕ → ℕ → ScheduledHouseEvent → ScheduledHouseEvent → Bool
is_claimed now owner e x =
    x.id == e.id
    && same_owner x.lease_owner owner
    && x.lease_generation == e.lease_generation + 1
    && lease_is_live now x.lease_expires_at

abbrev pub is_some : Option ℕ → Bool
is_some none = false
is_some (some _) = true

abbrev pub advance_to : ℕ → Option ℕ → ScheduledHouseEvent → ScheduledHouseEvent
advance_to now next x = record x {
  next_occurrence_at = next;
  enabled = is_some next;
  lease_owner = none;
  lease_expires_at = none;
  updated_at = now;
}

-- What the event announces: a reminder of its occurrence (the resource type is a number here).
abbrev pub notice_of : ℕ → ScheduledHouseEvent → Notice
notice_of kind e = record {
  house_id = e.house_id;
  category = reminder;
  resource_type = kind;
  resource_id = e.id;
  occurrence = next_or_zero e;
}

abbrev pub due_event : ScheduledHouseEvent → DueEvent
due_event e = record { house_id = e.house_id; event_id = e.id; occurrence_at = next_or_zero e }

-- The rest of the transaction on an occurrence, fenced by the owner and the generation.
abbrev pub finish_announcement : ℕ → ℕ → ScheduledHouseEvent → Option ℕ → Action Bool
finish_announcement now owner e next = do
  modify (λ s. record s { due_events = due_event e ∷ s.due_events })
  n ← read (λ s. count_where (is_claimed now owner e) s.scheduled)
  modify (λ s.
      set_scheduled (update_where (is_claimed now owner e) (advance_to now next) s.scheduled) s)
  fail_if (not (n == 1)) schedule_lease_lost
  pure true

module _ (rules : Recurrence) (env : Setting) (call : Call) (kind owner duration : ℕ) where
  abbrev pub announce : ScheduledHouseEvent → Option ℕ → Action Bool
  announce e next = do
    on_notifications (enqueue env call (notice_of kind e))
    finish_announcement call.now owner e next

  unfoldable pub announce_next : ScheduledHouseEvent → Action Bool
  announce_next e = do
    ex_dates ← or_fail e.ex_dates bad_exceptions
    next ← or_fail (rules.next (spec_of e ex_dates) (next_or_zero e)) bad_rule
    announce e next

  -- Nothing is changed where the row was claimed by another worker.
  unfoldable pub claim_event : ScheduledHouseEvent → Action Bool
  unfolding announce_next
  claim_event e = read (λ s. count_where (is_claimable call.now e) s.scheduled) >>= λ n.
      modify (λ s.
        set_scheduled
          (update_where (is_claimable call.now e) (claim_for call.now owner duration) s.scheduled)
          s)
      >> (if n == 0 then pure false else announce_next e)

  abbrev pub run_candidate : Option ScheduledHouseEvent → Action Bool
  run_candidate none = pure false
  run_candidate (some e) = claim_event e

  unfoldable pub run_due_scheduled_event : Action Bool
  unfolding claim_event select_due
  run_due_scheduled_event = read (λ s. select_due call.now s.scheduled) >>= run_candidate

-- The transaction commits only where an occurrence was announced.
abbrev pub commit_due :
    Result ScheduleError (Bool × Tables) → Tables → Result ScheduleError Bool × Tables
commit_due (ok (true, t)) s = (ok true, t)
commit_due (ok (false, t)) s = (ok false, s)
commit_due (err e) s = (err e, s)

abbrev pub run_scheduler :
    Recurrence → Setting → Call → ℕ → ℕ → ℕ → Tables → Result ScheduleError Bool × Tables
run_scheduler rules env call kind owner duration s =
    commit_due (run_due_scheduled_event rules env call kind owner duration s) s
