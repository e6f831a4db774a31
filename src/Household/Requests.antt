-- ===== src/Household/Requests.antt =====
-- The handlers of src/backend/internal/handlers/household.go that change groceries, chores and calendar
-- events. The texts of a request are trimmed and counted by parameters.
use Prim.Native.String.{String}
use roomies.Base.{ℕ, Bool, true, ◌||◌, Option, none, some, ltb, ◌==◌, if◌then◌else◌}
use roomies.Base.Sql.{select_one}
use roomies.Base.Result.{Result, ok, err}
use roomies.Base.Tx.{transact}
use roomies.Models.{HouseMember, is_monitor}
use roomies.Houses.{of_member, is_empty}
use roomies.Expenses.Requests.{can_mutate_owned_resource}
use roomies.Household.{
  HouseholdError, household_not_found, version_conflict, invalid_occurrence, already_completed,
  invalid_input, unique_violation, Row, Shelf, Action, of_row,
}
use roomies.Household.Groceries.{
  Grocery, create_grocery, update_grocery, toggle_grocery, delete_grocery,
}
use roomies.Household.Chores.{Chore, Recurrence, create_chore, update_chore, delete_chore}
use roomies.Household.Calendar.{
  CalendarEvent, TimeZones, create_calendar, update_calendar, delete_calendar,
}

-- `strings.TrimSpace` and the number of runes.
pub record Texts : Type 0 where
  pub trim : String → String
  pub runes : String → ℕ

-- The kinds of answers.
pub data Reply : Type 0 where
  done : Reply
  not_a_member read_only not_owner : Reply
  invalid_body invalid_field_length version_required : Reply
  not_found conflict bad_request failed : Reply

-- `householdError`
abbrev pub household_error : HouseholdError → Reply
household_error household_not_found = not_found
household_error version_conflict = conflict
household_error already_completed = conflict
household_error invalid_occurrence = bad_request
household_error invalid_input = bad_request
household_error unique_violation = failed

abbrev pub Handler : Type 0 → Type 0
Handler B = Shelf B → Reply × Shelf B

module _ {B : Type 0} where
  abbrev pub answer : Result HouseholdError (Unit {0}) × Shelf B → Reply × Shelf B
  answer (ok _, s) = (done, s)
  answer (err e, s) = (household_error e, s)

  -- The transaction of a handler.
  abbrev pub run : Action B (Unit {0}) → Handler B
  run m s = answer (transact m s)

  -- `mutator`
  abbrev pub mutator : Option HouseMember → (HouseMember → Handler B) → Handler B
  mutator none k s = (not_a_member, s)
  mutator (some m) k s = if is_monitor m.role then (read_only, s) else k m s

  abbrev pub as_mutator : ℕ → ℕ → (HouseMember → Handler B) → Handler B
  as_mutator house caller k s = mutator (select_one (of_member house caller) s.members) k s

  -- The row must be there, and be of the caller where the caller is no admin.
  abbrev pub owned : ℕ → HouseMember → Option (Row B) → (Row B → Handler B) → Handler B
  owned caller m none k s = (not_found, s)
  owned caller m (some x) k s =
      if can_mutate_owned_resource m x.creator_id caller then k x s else (not_owner, s)

  abbrev pub as_owner : ℕ → ℕ → ℕ → (Row B → Handler B) → Handler B
  as_owner house id caller k =
      as_mutator house caller (λ m s. owned caller m (select_one (of_row house id) s.rows) k s)

  -- The content of a request: an answer where it is refused.
  abbrev pub with_content : Result Reply B → (B → Handler B) → Handler B
  with_content (err r) k s = (r, s)
  with_content (ok b) k s = k b s

  -- `req.Version < 1`, and `versionParam`, where a text that does not parse is 0.
  abbrev pub with_version : ℕ → Handler B → Handler B
  with_version version k s = if version == 0 then (version_required, s) else k s

  abbrev pub handle_create : (B → Action B (Unit {0})) → ℕ → ℕ → Result Reply B → Handler B
  handle_create create house caller content =
      as_mutator house caller (λ m. with_content content (λ b. run (create b)))

  -- What `decode` makes of the request may take a field from the row that is there.
  abbrev pub handle_update_owned :
      (B → Action B (Unit {0})) → ℕ → ℕ → ℕ → ℕ → (B → Result Reply B) → Handler B
  handle_update_owned update house id version caller decode =
      as_owner house id caller
        (λ x. with_content (decode x.content) (λ b. with_version version (run (update b))))

  abbrev pub handle_delete_owned : Action B (Unit {0}) → ℕ → ℕ → ℕ → ℕ → Handler B
  handle_delete_owned remove house id version caller =
      as_owner house id caller (λ x. with_version version (run remove))

module _ (texts : Texts) where
  abbrev pub is_too_long : ℕ → String → Bool
  is_too_long n text = ltb n (texts.runes text)

  abbrev pub trim_grocery : Grocery → Grocery
  trim_grocery g = record g {
    name = texts.trim g.name;
    quantity = texts.trim g.quantity;
    unit = texts.trim g.unit;
    note = texts.trim g.note;
  }

  abbrev pub check_grocery : Grocery → Result Reply Grocery
  check_grocery g =
      if is_empty g.name
        || is_too_long 160 g.name
        || is_too_long 40 g.quantity
        || is_too_long 40 g.unit
        || is_too_long 1000 g.note
      then err invalid_field_length
      else ok g

  -- `groceryRequest`
  abbrev pub grocery_request : Option Grocery → Result Reply Grocery
  grocery_request none = err invalid_body
  grocery_request (some g) = check_grocery (trim_grocery g)

  -- A title of 160 runes at most, and a description of 4000.
  abbrev pub is_bad_title : String → String → Bool
  is_bad_title title description =
      is_empty title || is_too_long 160 title || is_too_long 4000 description

  abbrev pub trim_chore : Chore → Chore
  trim_chore c = record c { title = texts.trim c.title; description = texts.trim c.description }

  abbrev pub check_chore : Chore → Result Reply Chore
  check_chore c = if is_bad_title c.title c.description then err invalid_field_length else ok c

  abbrev pub set_enabled : Option Bool → Bool → Chore → Chore
  set_enabled none old c = record c { enabled = old }
  set_enabled (some b) old c = record c { enabled = b }

  -- `choreRequest`, with the flag of the request where it has one.
  abbrev pub chore_request : Option Bool → Option Chore → Bool → Result Reply Chore
  chore_request flag none old = err invalid_body
  chore_request flag (some c) old = check_chore (trim_chore (set_enabled flag old c))

  abbrev pub trim_calendar : CalendarEvent → CalendarEvent
  trim_calendar e = record e { title = texts.trim e.title; description = texts.trim e.description }

  abbrev pub check_calendar : CalendarEvent → Result Reply CalendarEvent
  check_calendar e = if is_bad_title e.title e.description then err invalid_field_length else ok e

  -- `calendarRequest`
  abbrev pub calendar_request : Option CalendarEvent → Result Reply CalendarEvent
  calendar_request none = err invalid_body
  calendar_request (some e) = check_calendar (trim_calendar e)

  module _ (now house id version caller : ℕ) where
    pub handle_create_grocery : Option Grocery → Shelf Grocery → Reply × Shelf Grocery
    handle_create_grocery body =
        handle_create (create_grocery now id house caller) house caller (grocery_request body)

    pub handle_update_grocery : Option Grocery → Shelf Grocery → Reply × Shelf Grocery
    handle_update_grocery body = as_mutator house caller (λ m.
        with_content (grocery_request body)
          (λ g. with_version version (run (update_grocery now house id version caller g))))

    -- A body that does not decode has no flag.
    pub handle_toggle_grocery : Option Bool → Shelf Grocery → Reply × Shelf Grocery
    handle_toggle_grocery none = as_mutator house caller (λ m s. (version_required, s))
    handle_toggle_grocery (some checked) =
        as_mutator house caller
          (λ m. with_version version (run (toggle_grocery now house id version caller checked)))

    pub handle_delete_grocery : Shelf Grocery → Reply × Shelf Grocery
    handle_delete_grocery =
        as_mutator house caller
          (λ m. with_version version (run (delete_grocery house id version caller)))

    unfoldable pub handle_create_chore :
        Recurrence → Option Bool → Option Chore → Shelf Chore → Reply × Shelf Chore
    handle_create_chore rule flag body =
        handle_create (create_chore rule now id house caller) house caller
          (chore_request flag body true)

    unfoldable pub handle_update_chore :
        Recurrence → Option Bool → Option Chore → Shelf Chore → Reply × Shelf Chore
    handle_update_chore rule flag body =
        handle_update_owned (update_chore rule now house id version caller) house id version caller
          (λ old. chore_request flag body old.enabled)

    unfoldable pub handle_delete_chore : Shelf Chore → Reply × Shelf Chore
    handle_delete_chore =
        handle_delete_owned (delete_chore house id version caller) house id version caller

    unfoldable pub handle_create_calendar :
        TimeZones → Option CalendarEvent → Shelf CalendarEvent → Reply × Shelf CalendarEvent
    handle_create_calendar zones body =
        handle_create (create_calendar zones now id house caller) house caller
          (calendar_request body)

    unfoldable pub handle_update_calendar :
        TimeZones → Option CalendarEvent → Shelf CalendarEvent → Reply × Shelf CalendarEvent
    handle_update_calendar zones body =
        handle_update_owned (update_calendar zones now house id version caller) house id version
          caller (λ old. calendar_request body)

    unfoldable pub handle_delete_calendar : Shelf CalendarEvent → Reply × Shelf CalendarEvent
    handle_delete_calendar =
        handle_delete_owned (delete_calendar house id version caller) house id version caller
