-- ===== src/Examples/Chores.antt =====
-- Runs of the groceries, the chores and the chat of a house.
use roomies.Base.{ℕ, ◌-◌, ◌+◌, ◌≡◌, refl, false, true, none, some, List, [], ◌∷◌, arith}
use roomies.Base.Result.{ok, err}
use roomies.Base.Sql.{select_one, count_where}
use roomies.Base.Tx.{transact}
use roomies.Household.{
  Row, Shelf, HouseholdError, already_completed, grocery, updated, mutation, add_mutation,
  next_version, set_rows, record_mutation, ensure_active_assignee, require_versioned_row,
  update_versioned, update_resource, delete_versioned, delete_row, require_versioned_row,
}
use roomies.Household.Groceries.{Grocery, edit_grocery}
use roomies.Household.Stale.{Write, update, delete, write, write_all}
use roomies.Household.Refused.{stale_version_refused}
use roomies.Household.Chores.{
  Chore, delete_chore, ChoreCompletion, ChoreTables, Recurrence, of_occurrence, logged,
  set_completions, complete_chore, store_completion, insert_completion, insert_new_completion,
}
use roomies.Household.Once.{complete_chore_once}
use roomies.Household.{deleted, chat}
use roomies.Household.Chat.{Chats, ChatMessage, delete_message, delete_chat}
use roomies.Household.Removed.{
  ChatRequest, create, edit, delete as delete_text, retain, run_all_chat, IsErased,
  run_all_chat-IsErased,
}
use roomies.Household.Removed.Deleted.{deleted_text_stays_away}
use roomies.Household.Owned.{is_it}
use roomies.Household.Requests.{Texts, handle_delete_chore}
use roomies.Household.Calendar.{CalendarEvent}
use roomies.Household.Foreign.{deletes, removes, serve_chore, serve_calendar, foreign_rows_kept}
use roomies.Examples.Data.{people}

abbrev milk : Grocery
milk = record {
  name = "milk";
  quantity = "1";
  unit = "l";
  note = "";
  assignee_id = none;
  checked = false;
  checked_by = none;
  checked_at = none;
  position = 0;
}

abbrev milk_row : Row Grocery
milk_row = record {
  id = 1;
  house_id = 7;
  creator_id = 11;
  version = 1;
  created_at = 0;
  updated_at = 0;
  content = milk;
}

abbrev list : Shelf Grocery
list = record { members = people; rows = milk_row ∷ []; mutations = [] }

abbrev more : Grocery → Grocery
more = edit_grocery (record milk { quantity = "2" })

abbrev first_write : Write Grocery
first_write = update updated none more 10 7 1 1 11

abbrev written : Shelf Grocery
written =
    add_mutation (mutation 7 (some 11) updated grocery 1)
      (set_rows (next_version more 10 milk_row ∷ []) list)

first_write_commits : write grocery first_write list ≡ ok (tt, written)
unfolding write update_resource ensure_active_assignee update_versioned require_versioned_row
    record_mutation
first_write_commits = refl

abbrev later : List (Write Grocery)
later = update updated none more 20 7 1 2 12 ∷ []

stale_version_refused_example :
    (e : HouseholdError) × (transact
        (write grocery (delete 7 1 1 12))
        (write_all grocery later written)
      ≡ (err e, write_all grocery later written))
stale_version_refused_example =
    stale_version_refused grocery 1 1 first_write (delete 7 1 1 12) later list written (omega arith)
      refl first_write_commits (refl, tt) refl

abbrev dishes : Chore
dishes = record {
  title = "dishes";
  description = "";
  assignee_id = none;
  timezone = "UTC";
  due_local = "2026-01-01T08:00:00";
  rrule = "FREQ=DAILY";
  exdates = [];
  enabled = true;
}

-- A rule with an occurrence at every time.
abbrev every_time : Recurrence
every_time = record { validate = λ now c. true; next = λ c t. some (t + 1) }

abbrev done_by : ℕ → ℕ → ChoreCompletion
done_by id user = record {
  id = id;
  chore_id = 3;
  house_id = 7;
  occurrence_at = 100;
  completed_by = user;
  completed_at = 120;
}

abbrev chores : ChoreTables
chores = record { shelf = record { members = people; rows = []; mutations = [] }; completions = [] }

abbrev completed_once : ChoreTables
completed_once = logged (done_by 1 11) (set_completions (done_by 1 11 ∷ []) chores)

first_completion :
    complete_chore every_time dishes (done_by 1 11) chores ≡ ok (done_by 1 11, completed_once)
unfolding complete_chore store_completion insert_completion insert_new_completion
first_completion = refl

complete_chore_once_example :
    (count_where (of_occurrence 3 100) [] ≡ 0)
    × (completed_once.completions ≡ done_by 1 11 ∷ [])
    × (transact (complete_chore every_time dishes (done_by 2 12)) completed_once
        ≡ (err already_completed, completed_once))
complete_chore_once_example =
    complete_chore_once every_time dishes (done_by 1 11) (done_by 2 12) chores
      (done_by 1 11, completed_once) refl first_completion refl refl (λ e. omega (arith, e))

abbrev quiet : Chats
quiet = record {
  messages = [];
  last_cursor = 0;
  retention = record {
    available_at = 0;
    lease_owner = none;
    lease_expires_at = none;
    lease_generation = 0;
    last_completed_at = none;
  };
  mutations = [];
}

abbrev talk : List ChatRequest
talk =
    create 10 1 7 11 "hello"
    ∷ create 11 2 7 12 "secret"
    ∷ delete_text 12 7 2 12
    ∷ edit 13 7 2 12 "again"
    ∷ retain 20 5 30 100
    ∷ []

-- A message that is deleted, and the store then.
abbrev said : ChatMessage
said = record {
  cursor = 1;
  id = 2;
  house_id = 7;
  author_id = 12;
  body = some "secret";
  created_at = 5;
  updated_at = 5;
  deleted_at = none;
  redacted_at = none;
}

abbrev before_delete : Chats
before_delete = record quiet { messages = said ∷ []; last_cursor = 1 }

abbrev after_deletion : Chats
after_deletion = record before_delete {
  messages = delete_message 9 said ∷ [];
  mutations = mutation 7 (some 12) deleted chat 2 ∷ [];
}

delete_run : delete_chat 9 7 2 12 before_delete ≡ ok (tt, after_deletion)
unfolding delete_chat
delete_run = refl

deleted_text_stays_away_example : IsErased 2 (run_all_chat (λ t. t - 9) talk after_deletion)
deleted_text_stays_away_example =
    deleted_text_stays_away (λ t. t - 9) 9 7 2 12 talk before_delete (ground arith) delete_run

run_all_chat-IsErased_example : IsErased 2 (run_all_chat (λ t. t - 9) talk after_deletion)
run_all_chat-IsErased_example =
    run_all_chat-IsErased (λ t. t - 9) 2 talk after_deletion (refl, refl)

abbrev dishes_row : Row Chore
dishes_row = record {
  id = 3;
  house_id = 7;
  creator_id = 11;
  version = 1;
  created_at = 0;
  updated_at = 0;
  content = dishes;
}

abbrev dinner : Row CalendarEvent
dinner = record {
  id = 5;
  house_id = 7;
  creator_id = 11;
  version = 1;
  created_at = 0;
  updated_at = 0;
  content = record {
    title = "dinner";
    description = "";
    timezone = "UTC";
    start_local = "";
    end_local = "";
    all_day = false;
    rrule = "";
    exdates = [];
  };
}

abbrev chore_shelf : Shelf Chore
chore_shelf = record { members = people; rows = dishes_row ∷ []; mutations = [] }

abbrev calendar_shelf : Shelf CalendarEvent
calendar_shelf = record { members = people; rows = dinner ∷ []; mutations = [] }

abbrev any_text : Texts
any_text = record { trim = λ t. t; runes = λ _. 1 }

-- Bob asks to delete what Ann made.
foreign_rows_kept_example :
    (select_one (is_it dishes_row) (serve_chore any_text 9 7 3 1 12 deletes chore_shelf).1.rows
      ≡ some dishes_row)
    × (select_one (is_it dinner) (serve_calendar any_text 9 7 3 1 12 removes calendar_shelf).1.rows
        ≡ some dinner)
foreign_rows_kept_example =
    foreign_rows_kept any_text 9 7 3 1 12 deletes removes dishes_row chore_shelf dinner
      calendar_shelf refl refl refl refl

-- Ann may.
own_row_deleted : (serve_chore any_text 9 7 3 1 11 deletes chore_shelf).1.rows ≡ []
unfolding handle_delete_chore delete_chore delete_versioned delete_row require_versioned_row
    record_mutation
own_row_deleted = refl
