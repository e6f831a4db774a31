-- ===== src/Household/Calendar.antt =====
-- The calendar of a house (`SaveCalendar` and `DeleteCalendar` of
-- src/backend/internal/repository/household.go).
use Prim.Native.String.{String}
use roomies.Base.{ℕ, Bool, false, not, Option, none, some, List, ltb, if◌then◌else◌}
use roomies.Base.Tx.{fail_if, ◌>>◌}
use roomies.Household.{
  Action, invalid_input, calendar, updated, create_resource, update_resource, delete_versioned,
}

pub record CalendarEvent : Type 0 where
  pub title : String
  pub description : String
  pub timezone : String
  pub start_local : String
  pub end_local : String
  pub all_day : Bool
  pub rrule : String
  pub exdates : List String

-- `recurrence.Validate` at a time, and the instant of a local time in a zone, or nothing where it does
-- not parse.
pub record TimeZones : Type 0 where
  pub validate : ℕ → CalendarEvent → Bool
  pub instant : String → String → Option ℕ

-- e1 != nil || e2 != nil || !end.After(start)
abbrev pub ends_after : Option ℕ → Option ℕ → Bool
ends_after (some start) (some end) = ltb start end
ends_after (some start) none = false
ends_after none end = false

abbrev pub is_valid_event : TimeZones → ℕ → CalendarEvent → Bool
is_valid_event zones now e =
    if zones.validate now e
    then ends_after (zones.instant e.timezone e.start_local) (zones.instant e.timezone e.end_local)
    else false

unfoldable pub create_calendar :
    TimeZones → ℕ → ℕ → ℕ → ℕ → CalendarEvent → Action CalendarEvent (Unit {0})
unfolding create_resource
create_calendar zones now id house actor e = do
  fail_if (not (is_valid_event zones now e)) invalid_input
  create_resource calendar none now id house actor e

unfoldable pub update_calendar :
    TimeZones → ℕ → ℕ → ℕ → ℕ → ℕ → CalendarEvent → Action CalendarEvent (Unit {0})
unfolding update_resource
update_calendar zones now house id version actor e = do
  fail_if (not (is_valid_event zones now e)) invalid_input
  update_resource calendar updated none (λ old. e) now house id version actor

unfoldable pub delete_calendar : ℕ → ℕ → ℕ → ℕ → Action CalendarEvent (Unit {0})
unfolding delete_versioned
delete_calendar house id version actor = delete_versioned calendar house id version actor
