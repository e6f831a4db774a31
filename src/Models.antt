-- ===== src/Models.antt =====
-- The rows of the database and the bodies of requests (src/backend/internal/models/models.go).
-- Identifiers are only compared, so they are numbers; times are numbers of nanoseconds. A float
-- copy of an amount in cents (`Amount`, `ShareAmount`) is derived output and is left out.
use Prim.Native.String.{String}
use roomies.Base.{ℕ, Bool, true, false}
use roomies.Base.Int.{ℤ}

-- CHECK(role IN ('admin','member','monitor'))
pub data Role : Type 0 where
  admin member monitor : Role

-- CHECK(visibility IN ('shared','private'))
pub data Visibility : Type 0 where
  shared private : Visibility

abbrev pub is_admin : Role → Bool
is_admin admin = true
is_admin member = false
is_admin monitor = false

abbrev pub is_monitor : Role → Bool
is_monitor admin = false
is_monitor member = false
is_monitor monitor = true

abbrev pub is_shared : Visibility → Bool
is_shared shared = true
is_shared private = false

pub record House : Type 0 where
  pub id : ℕ
  pub name : String
  pub created_at : ℕ

pub record HouseMember : Type 0 where
  pub id : ℕ
  pub house_id : ℕ
  pub user_id : ℕ
  pub role : Role
  pub joined_at : ℕ
  pub user_name : String
  pub user_email : String

pub record Expense : Type 0 where
  pub id : ℕ
  pub house_id : ℕ
  pub payer_id : ℕ
  pub amount_cents : ℤ
  pub description : String
  pub category : String
  pub date : String
  pub visibility : Visibility
  pub created_at : ℕ
  pub payer_name : String

pub record ExpenseVisibility : Type 0 where
  pub expense_id : ℕ
  pub user_id : ℕ

pub record ExpenseSplit : Type 0 where
  pub id : ℕ
  pub expense_id : ℕ
  pub user_id : ℕ
  pub share_amount_cents : ℤ
  pub user_name : String

-- The amount of an entry is the request's float, of a type that the caller gives.
pub record SplitEntry (F : Type 0) : Type 0 where
  pub user_id : ℕ
  pub amount : F

pub record BalanceEntry : Type 0 where
  pub user_id : ℕ
  pub user_name : String
  pub paid : ℤ
  pub owed : ℤ
  pub net : ℤ

pub record BalanceSettlement : Type 0 where
  pub from_user_id : ℕ
  pub from_user_name : String
  pub to_user_id : ℕ
  pub to_user_name : String
  pub amount : ℤ
