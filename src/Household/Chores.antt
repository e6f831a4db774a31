-- ===== src/Household/Chores.antt =====
-- Chores and their completions (`SaveChore`, `DeleteChore` and `CompleteChore` of
-- src/backend/internal/repository/household.go). `recurrence.Validate` and `recurrence.Next` are
-- parameters; times lie after the first nanosecond.
use Prim.Native.String.{String}
use roomies.Base.{
  ℕ, ◌-◌, Bool, false, not, ◌&&◌, Option, none, some, List, ◌∷◌, ◌==◌, if◌then◌else◌,
}
use roomies.Base.Sql.{select_one, count_where}
use roomies.Base.Tx.{Tx, pure, read, modify, fail_if, or_fail, ◌>>=◌, ◌>>◌}
use roomies.Household.{
  Action, HouseholdError, invalid_input, invalid_occurrence, already_completed, unique_violation,
  household_not_found, Shelf, chore, updated, completed, create_resource, update_resource,
  delete_versioned, add_mutation, mutation,
}

pub record Chore : Type 0 where
  pub title : String
  pub description : String
  pub assignee_id : Option ℕ
  pub timezone : String
  pub due_local : String
  pub rrule : String
  pub exdates : List String
  pub enabled : Bool

pub record ChoreCompletion : Type 0 where
  pub id : ℕ
  pub chore_id : ℕ
  pub house_id : ℕ
  pub occurrence_at : ℕ
  pub completed_by : ℕ
  pub completed_at : ℕ

pub record Recurrence : Type 0 where
  pub validate : ℕ → Chore → Bool
  pub next : Chore → ℕ → Option ℕ

unfoldable pub create_chore : Recurrence → ℕ → ℕ → ℕ → ℕ → Chore → Action Chore (Unit {0})
unfolding create_resource
create_chore rule now id house actor c = do
  fail_if (not (rule.validate now c)) invalid_input
  create_resource chore c.assignee_id now id house actor c

unfoldable pub update_chore : Recurrence → ℕ → ℕ → ℕ → ℕ → ℕ → Chore → Action Chore (Unit {0})
unfolding update_resource
update_chore rule now house id version actor c = do
  fail_if (not (rule.validate now c)) invalid_input
  update_resource chore updated c.assignee_id (λ old. c) now house id version actor

unfoldable pub delete_chore : ℕ → ℕ → ℕ → ℕ → Action Chore (Unit {0})
unfolding delete_versioned
delete_chore house id version actor = delete_versioned chore house id version actor

pub record ChoreTables : Type 0 where
  pub shelf : Shelf Chore
  pub completions : List ChoreCompletion

abbrev pub of_occurrence : ℕ → ℕ → ChoreCompletion → Bool
of_occurrence chore_id at c = c.chore_id == chore_id && c.occurrence_at == at

-- `next == nil || !next.Equal(occurrence)`
abbrev pub is_occurrence : Option ℕ → ℕ → Bool
is_occurrence none at = false
is_occurrence (some t) at = t == at

abbrev pub set_completions : List ChoreCompletion → ChoreTables → ChoreTables
set_completions cs s = record s { completions = cs }

-- PRIMARY KEY(id); ON CONFLICT (chore_id, occurrence_at) DO NOTHING
unfoldable pub insert_new_completion : ChoreCompletion → Tx HouseholdError ChoreTables (Unit {0})
insert_new_completion c = do
  k ← read (λ s. count_where (λ x. x.id == c.id) s.completions)
  fail_if (not (k == 0)) unique_violation
  modify (λ s. set_completions (c ∷ s.completions) s)

unfoldable pub insert_completion : ChoreCompletion → Tx HouseholdError ChoreTables (Unit {0})
unfolding insert_new_completion
insert_completion c = do
  n ← read (λ s. count_where (of_occurrence c.chore_id c.occurrence_at) s.completions)
  if n == 0 then insert_new_completion c else pure tt

abbrev pub logged : ChoreCompletion → ChoreTables → ChoreTables
logged c s = record s {
  shelf =
      add_mutation (mutation c.house_id (some c.completed_by) completed chore c.chore_id) s.shelf;
}

-- The row that is there after the INSERT must be the new one.
unfoldable pub store_completion : ChoreCompletion → Tx HouseholdError ChoreTables ChoreCompletion
unfolding insert_completion
store_completion c = do
  insert_completion c
  found ← (λ s.
      or_fail (select_one (of_occurrence c.chore_id c.occurrence_at) s.completions)
        household_not_found s)
  fail_if (not (found.id == c.id)) already_completed
  modify (logged c)
  pure c

unfoldable pub complete_chore :
    Recurrence → Chore → ChoreCompletion → Tx HouseholdError ChoreTables ChoreCompletion
unfolding store_completion
complete_chore rule content c = do
  fail_if (not (is_occurrence (rule.next content (c.occurrence_at - 1)) c.occurrence_at))
      invalid_occurrence
  store_completion c
