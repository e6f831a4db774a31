-- ===== src/Household.antt =====
-- What a house keeps together (src/backend/internal/repository/household.go): the columns, errors and
-- statements that the tables of groceries, chores and calendar events share. A transaction on one of
-- them writes that table and the log, and reads the members. The texts of a row are numbers where they
-- are only stored; `recurrence` is a parameter.
pub mod Groceries
pub mod Calendar
pub mod Chores
pub mod Chat
pub mod Removed
pub mod Stale
pub mod Refused
pub mod Once
pub mod Requests
pub mod Owned
pub mod Foreign
use roomies.Base.{
  ℕ, ◌+◌, Bool, true, false, not, ◌&&◌, ◌||◌, Option, none, some, List, [], ◌∷◌, ◌++◌, ◌==◌,
  if◌then◌else◌,
}
use roomies.Base.Sql.{count_where, update_where, delete_where}
use roomies.Base.Tx.{Tx, pure, fail, read, modify, fail_if, ◌>>=◌, ◌>>◌}
use roomies.Models.{HouseMember}
use roomies.Houses.{of_member}

pub data HouseholdError : Type 0 where
  household_not_found version_conflict invalid_occurrence already_completed : HouseholdError
  invalid_input unique_violation : HouseholdError

-- The action and the resource of a row of `audit_events`, and of `house_events`.
pub data Verb : Type 0 where
  created updated toggled deleted completed redacted : Verb

pub data Resource : Type 0 where
  grocery chore calendar chat : Resource

-- No actor is the worker.
pub record Mutation : Type 0 where
  pub house_id : ℕ
  pub actor_id : Option ℕ
  pub verb : Verb
  pub resource : Resource
  pub target_id : ℕ

abbrev pub mutation : ℕ → Option ℕ → Verb → Resource → ℕ → Mutation
mutation house actor verb resource id = record {
  house_id = house;
  actor_id = actor;
  verb = verb;
  resource = resource;
  target_id = id;
}

-- The columns that the three tables share, and the others as `content`.
pub record Row (B : Type 0) : Type 0 where
  pub id : ℕ
  pub house_id : ℕ
  pub creator_id : ℕ
  pub version : ℕ
  pub created_at : ℕ
  pub updated_at : ℕ
  pub content : B

pub record Shelf (B : Type 0) : Type 0 where
  pub members : List HouseMember
  pub rows : List (Row B)
  pub mutations : List Mutation

abbrev pub Action : Type 0 → Type 0 → Type 0
Action B = Tx HouseholdError (Shelf B)

module _ {B : Type 0} where
  abbrev pub set_rows : List (Row B) → Shelf B → Shelf B
  set_rows rs s = record s { rows = rs }

  abbrev pub of_row : ℕ → ℕ → Row B → Bool
  of_row house id r = r.house_id == house && r.id == id

  -- house_id = … AND id = … AND version = …
  abbrev pub at_version : ℕ → ℕ → ℕ → Row B → Bool
  at_version house id version r = of_row house id r && r.version == version

  abbrev pub add_mutation : Mutation → Shelf B → Shelf B
  add_mutation m s = record s { mutations = s.mutations ++ m ∷ [] }

  -- `recordMutation`
  unfoldable pub record_mutation : ℕ → Option ℕ → Verb → Resource → ℕ → Action B (Unit {0})
  record_mutation house actor verb resource id =
      modify (add_mutation (mutation house actor verb resource id))

  unfoldable pub ensure_active_assignee : ℕ → Option ℕ → Action B (Unit {0})
  ensure_active_assignee house none = pure tt
  ensure_active_assignee house (some user) = do
    n ← read (λ s. count_where (of_member house user) s.members)
    fail_if (n == 0) invalid_input

  -- `requireVersionedRow`, after a statement that changed `n` rows.
  unfoldable pub require_versioned_row : ℕ → ℕ → ℕ → Action B (Unit {0})
  require_versioned_row n house id =
      if n == 0
      then (λ s.
          if count_where (of_row house id) s.rows == 0
          then fail household_not_found s
          else fail version_conflict s)
      else pure tt

  -- `UPDATE … SET …, version = version + 1, updated_at = … WHERE …`
  abbrev pub next_version : (B → B) → ℕ → Row B → Row B
  next_version f now r = record r {
    content = f r.content;
    version = r.version + 1;
    updated_at = now;
  }

  unfoldable pub update_versioned : (B → B) → ℕ → ℕ → ℕ → ℕ → Action B (Unit {0})
  unfolding require_versioned_row
  update_versioned f now house id version = do
    n ← read (λ s. count_where (at_version house id version) s.rows)
    modify
        (λ s. set_rows (update_where (at_version house id version) (next_version f now) s.rows) s)
    require_versioned_row n house id

  unfoldable pub delete_row : ℕ → ℕ → ℕ → Action B (Unit {0})
  unfolding require_versioned_row
  delete_row house id version = do
    n ← read (λ s. count_where (at_version house id version) s.rows)
    modify (λ s. set_rows (delete_where (at_version house id version) s.rows) s)
    require_versioned_row n house id

  -- PRIMARY KEY(id)
  unfoldable pub insert_row : Row B → Action B (Unit {0})
  insert_row r = do
    n ← read (λ s. count_where (λ x. x.id == r.id) s.rows)
    fail_if (not (n == 0)) unique_violation
    modify (λ s. set_rows (r ∷ s.rows) s)

  abbrev pub new_row : ℕ → ℕ → ℕ → ℕ → B → Row B
  new_row id house actor now content = record {
    id = id;
    house_id = house;
    creator_id = actor;
    version = 1;
    created_at = now;
    updated_at = now;
    content = content;
  }

  -- The three transactions of a table, with the assignee where the table has one.
  unfoldable pub create_resource : Resource → Option ℕ → ℕ → ℕ → ℕ → ℕ → B → Action B (Unit {0})
  unfolding ensure_active_assignee insert_row record_mutation
  create_resource resource assignee now id house actor content = do
    ensure_active_assignee house assignee
    insert_row (new_row id house actor now content)
    record_mutation house (some actor) created resource id

  unfoldable pub update_resource :
      Resource → Verb → Option ℕ → (B → B) → ℕ → ℕ → ℕ → ℕ → ℕ → Action B (Unit {0})
  unfolding ensure_active_assignee update_versioned record_mutation
  update_resource resource verb assignee f now house id version actor = do
    ensure_active_assignee house assignee
    update_versioned f now house id version
    record_mutation house (some actor) verb resource id

  -- `deleteVersioned`
  unfoldable pub delete_versioned : Resource → ℕ → ℕ → ℕ → ℕ → Action B (Unit {0})
  unfolding delete_row record_mutation
  delete_versioned resource house id version actor = do
    delete_row house id version
    record_mutation house (some actor) deleted resource id
