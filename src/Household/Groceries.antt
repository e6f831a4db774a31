-- ===== src/Household/Groceries.antt =====
-- The grocery list (`CreateGrocery`, `UpdateGrocery`, `ToggleGrocery` and `DeleteGrocery` of
-- src/backend/internal/repository/household.go).
use Prim.Native.String.{String}
use roomies.Base.{ℕ, Bool, true, false, Option, none, some}
use roomies.Household.{
  Action, grocery, updated, toggled, create_resource, update_resource, delete_versioned,
}

pub record Grocery : Type 0 where
  pub name : String
  pub quantity : String
  pub unit : String
  pub note : String
  pub assignee_id : Option ℕ
  pub checked : Bool
  pub checked_by : Option ℕ
  pub checked_at : Option ℕ
  pub position : ℕ

-- A new item is not checked: the INSERT leaves those columns to their defaults.
abbrev pub unchecked : Grocery → Grocery
unchecked g = record g { checked = false; checked_by = none; checked_at = none }

-- The UPDATE leaves them as they are.
abbrev pub edit_grocery : Grocery → Grocery → Grocery
edit_grocery new old = record new {
  checked = old.checked;
  checked_by = old.checked_by;
  checked_at = old.checked_at;
}

abbrev pub toggle : ℕ → ℕ → Bool → Grocery → Grocery
toggle actor now true g = record g {
  checked = true;
  checked_by = some actor;
  checked_at = some now;
}
toggle actor now false g = record g { checked = false; checked_by = none; checked_at = none }

pub create_grocery : ℕ → ℕ → ℕ → ℕ → Grocery → Action Grocery (Unit {0})
unfolding create_resource
create_grocery now id house actor g =
    create_resource grocery g.assignee_id now id house actor (unchecked g)

pub update_grocery : ℕ → ℕ → ℕ → ℕ → ℕ → Grocery → Action Grocery (Unit {0})
unfolding update_resource
update_grocery now house id version actor g =
    update_resource grocery updated g.assignee_id (edit_grocery g) now house id version actor

pub toggle_grocery : ℕ → ℕ → ℕ → ℕ → ℕ → Bool → Action Grocery (Unit {0})
unfolding update_resource
toggle_grocery now house id version actor checked =
    update_resource grocery toggled none (toggle actor now checked) now house id version actor

pub delete_grocery : ℕ → ℕ → ℕ → ℕ → Action Grocery (Unit {0})
unfolding delete_versioned
delete_grocery house id version actor = delete_versioned grocery house id version actor
