-- ===== src/Expenses.antt =====
-- Expenses and who may see them: src/backend/internal/repository/expenses.go, and `visibleExpense` of
-- src/backend/internal/handlers/expenses.go, over the tables of src/backend/internal/database/migrations.go.
pub mod Stored
pub mod Visible
pub mod Requests
use Prim.Native.String.{String}
use roomies.Base.{
  ℕ, suc, ◌+◌, Bool, true, false, not, ◌&&◌, ◌||◌, Option, none, some, List, [], ◌∷◌, ◌++◌, map,
  length, any, ltb, leb, ◌==◌, if◌then◌else◌,
}
use roomies.Base.Int.{ℤ, pos, add64, eqb_ℤ, leb_ℤ, ltb_ℤ}
use roomies.Base.Sql.{select_where, select_one, count_where, update_where, delete_where}
use roomies.Base.Result.{Result, ok, err}
use roomies.Base.Tx.{Tx, pure, fail, read, modify, fail_if, or_fail, ◌>>=◌, ◌>>◌, transact}
use roomies.Models.{
  House, HouseMember, Expense, ExpenseSplit, ExpenseVisibility, Visibility, shared, private,
  is_shared, is_monitor,
}
use roomies.Money.{max_money_cents}

pub data ExpenseError : Type 0 where
  house_not_found expense_not_found invalid_participant : ExpenseError
  amount_not_positive no_split negative_share wrong_total : ExpenseError
  unique_violation check_violation enqueue_failed event_failed : ExpenseError

-- A row of `house_events` with the notification that `EnqueueTx` queues beside it.
pub record Notice : Type 0 where
  pub house_id : ℕ
  pub actor_id : ℕ
  pub expense_id : ℕ

pub record Ledger : Type 0 where
  pub houses : List House
  pub members : List HouseMember
  pub expenses : List Expense
  pub visibility : List ExpenseVisibility
  pub splits : List ExpenseSplit
  pub notices : List Notice

abbrev pub Action : Type 0 → Type 0
Action = Tx ExpenseError Ledger

abbrev pub set_expenses : List Expense → Ledger → Ledger
set_expenses es s = record s { expenses = es }

abbrev pub set_splits : List ExpenseSplit → Ledger → Ledger
set_splits ss s = record s { splits = ss }

abbrev pub set_visible : List ExpenseVisibility → Ledger → Ledger
set_visible vs s = record s { visibility = vs }

lock_house : ℕ → Action (Unit {0})
lock_house house = do
  h ← (λ s. or_fail (select_one (λ h. h.id == house) s.houses) house_not_found s)
  pure tt

abbrev pub is_member : ℕ → ℕ → HouseMember → Bool
is_member house user m = m.house_id == house && m.user_id == user

abbrev pub may_share : ℕ → ℕ → HouseMember → Bool
may_share house user m = m.house_id == house && m.user_id == user && not (is_monitor m.role)

-- The two loops of `validateParticipants`: each count must be 1.
unfoldable pub check_visible : ℕ → List HouseMember → List ℕ → Bool
check_visible house ms [] = true
check_visible house ms (u ∷ us) =
    count_where (is_member house u) ms == 1 && check_visible house ms us

check_shares : ℕ → List HouseMember → List ExpenseSplit → Bool
check_shares house ms [] = true
check_shares house ms (s ∷ ss) =
    count_where (may_share house s.user_id) ms == 1 && check_shares house ms ss

validate_participants : ℕ → List ℕ → List ExpenseSplit → Action (Unit {0})
unfolding check_visible check_shares
validate_participants house visible splits = do
  a ← read (λ s. check_visible house s.members visible)
  fail_if (not a) invalid_participant
  b ← read (λ s. check_shares house s.members splits)
  fail_if (not b) invalid_participant

-- The loop of `validateMoneyAmounts`, with `splitTotal`.
total_shares : ℤ → List ExpenseSplit → Result ExpenseError ℤ
total_shares total [] = ok total
total_shares total (s ∷ ss) =
    let rest = total_shares (add64 total s.share_amount_cents) ss in
    if ltb_ℤ s.share_amount_cents (pos 0) then err negative_share else rest

abbrev pub compare_total : ℤ → Result ExpenseError ℤ → Result ExpenseError (Unit {0})
compare_total amount (ok total) = if eqb_ℤ total amount then ok tt else err wrong_total
compare_total amount (err e) = err e

validate_money_amounts : Expense → List ExpenseSplit → Result ExpenseError (Unit {0})
unfolding total_shares
validate_money_amounts e splits =
    if leb_ℤ e.amount_cents (pos 0)
    then err amount_not_positive
    else (if length splits == 0
        then err no_split
        else compare_total e.amount_cents (total_shares (pos 0) splits))

abbrev pub lift : Result ExpenseError (Unit {0}) → Action (Unit {0})
lift (ok _) = pure tt
lift (err e) = fail e

-- CHECK(amount_cents > 0 AND amount_cents <= 9999999999)
abbrev pub amount_in_range : ℤ → Bool
amount_in_range a = ltb_ℤ (pos 0) a && leb_ℤ a max_money_cents

-- `insertVisibility`: PRIMARY KEY(expense_id, user_id)
insert_visibility : ℕ → List ℕ → Action (Unit {0})
insert_visibility expense [] = pure tt
insert_visibility expense (u ∷ us) = do
  n ← read (λ s. count_where (λ v. v.expense_id == expense && v.user_id == u) s.visibility)
  fail_if (not (n == 0)) unique_violation
  modify (λ s. set_visible (record { expense_id = expense; user_id = u } ∷ s.visibility) s)
  insert_visibility expense us

-- CHECK(share_amount_cents >= 0 AND share_amount_cents <= 9999999999)
abbrev pub share_in_range : ℤ → Bool
share_in_range a = leb_ℤ (pos 0) a && leb_ℤ a max_money_cents

abbrev pub same_split : ExpenseSplit → ExpenseSplit → Bool
same_split s x = x.id == s.id || x.expense_id == s.expense_id && x.user_id == s.user_id

-- `insertSplits`: PRIMARY KEY(id) and UNIQUE(expense_id, user_id)
insert_splits : List ExpenseSplit → Action (Unit {0})
insert_splits [] = pure tt
insert_splits (x ∷ xs) = do
  n ← read (λ s. count_where (same_split x) s.splits)
  fail_if (not (n == 0)) unique_violation
  fail_if (not (share_in_range x.share_amount_cents)) check_violation
  modify (λ s. set_splits (x ∷ s.splits) s)
  insert_splits xs

insert_expense : Expense → Action (Unit {0})
insert_expense e = do
  n ← read (λ s. count_where (λ x. x.id == e.id) s.expenses)
  fail_if (not (n == 0)) unique_violation
  fail_if (not (amount_in_range e.amount_cents)) check_violation
  modify (λ s. set_expenses (e ∷ s.expenses) s)

-- The notifications of the repository: none is configured, or `EnqueueTx` and then the INSERT of the
-- event succeed as the two tests say, of the expense and the tables as they are then.
pub data Announcer : Type 0 where
  off : Announcer
  through : (Expense → Ledger → Bool) → (Expense → Ledger → Bool) → Announcer

-- The notification and the event of a shared expense; an error of either is an error of the whole.
notify : (Expense → Ledger → Bool) → (Expense → Ledger → Bool) → Expense → Action (Unit {0})
notify enqueue_tx insert_event e = do
  queued ← read (enqueue_tx e)
  fail_if (not queued) enqueue_failed
  stored ← read (insert_event e)
  fail_if (not stored) event_failed
  modify (λ s. record s {
    notices =
        record { house_id = e.house_id; actor_id = e.payer_id; expense_id = e.id } ∷ s.notices;
  })

announce : Announcer → Expense → Action (Unit {0})
unfolding notify
announce off e = pure tt
announce (through enqueue_tx insert_event) e =
    if is_shared e.visibility then notify enqueue_tx insert_event e else pure tt

-- `CreateAggregate`
unfoldable pub create_aggregate :
    Announcer → Expense → List ℕ → List ExpenseSplit → Action (Unit {0})
unfolding lock_house validate_participants validate_money_amounts insert_expense insert_visibility
    insert_splits announce
create_aggregate notifications e visible splits = do
  lock_house e.house_id
  validate_participants e.house_id visible splits
  lift (validate_money_amounts e splits)
  insert_expense e
  insert_visibility e.id visible
  insert_splits splits
  announce notifications e

abbrev pub of_house : ℕ → ℕ → Expense → Bool
of_house house id e = e.house_id == house && e.id == id

-- SET amount_cents, description, category, date
abbrev pub update_fields : Expense → Expense → Expense
update_fields e x = record x {
  amount_cents = e.amount_cents;
  description = e.description;
  category = e.category;
  date = e.date;
}

-- The checks and the replacement of the splits, where a request has new ones.
validate_splits : Expense → Option (List ExpenseSplit) → Action (Unit {0})
unfolding validate_participants validate_money_amounts
validate_splits e none = pure tt
validate_splits e (some ss) = do
  validate_participants e.house_id [] ss
  lift (validate_money_amounts e ss)

replace_splits : Expense → Option (List ExpenseSplit) → Action (Unit {0})
unfolding insert_splits
replace_splits e none = pure tt
replace_splits e (some ss) = do
  modify (λ s. set_splits (delete_where (λ x. x.expense_id == e.id) s.splits) s)
  insert_splits ss

update_row : Expense → Action (Unit {0})
update_row e = do
  n ← read (λ s. count_where (of_house e.house_id e.id) s.expenses)
  fail_if (not (amount_in_range e.amount_cents) && not (n == 0)) check_violation
  fail_if (n == 0) expense_not_found
  modify
      (λ s. set_expenses (update_where (of_house e.house_id e.id) (update_fields e) s.expenses) s)

-- `UpdateAggregate`
unfoldable pub update_aggregate : Expense → Option (List ExpenseSplit) → Action (Unit {0})
unfolding lock_house validate_splits update_row replace_splits
update_aggregate e splits = do
  lock_house e.house_id
  validate_splits e splits
  update_row e
  replace_splits e splits

-- `Delete`: the splits and the visibility of a deleted expense go with it (ON DELETE CASCADE).
unfoldable pub delete_expense : ℕ → ℕ → Action (Unit {0})
delete_expense house id = do
  n ← read (λ s. count_where (of_house house id) s.expenses)
  fail_if (n == 0) expense_not_found
  modify (λ s. record s {
    expenses = delete_where (of_house house id) s.expenses;
    splits = delete_where (λ x. x.expense_id == id) s.splits;
    visibility = delete_where (λ v. v.expense_id == id) s.visibility;
  })

-- `SetVisibility`
unfoldable pub set_visibility : ℕ → ℕ → Visibility → List ℕ → Action (Unit {0})
unfolding lock_house validate_participants insert_visibility
set_visibility house id vis visible = do
  lock_house house
  validate_participants house visible []
  n ← read (λ s. count_where (of_house house id) s.expenses)
  fail_if (n == 0) expense_not_found
  modify (λ s.
      set_expenses
        (update_where (of_house house id) (λ e. record e { visibility = vis }) s.expenses) s)
  modify (λ s. set_visible (delete_where (λ v. v.expense_id == id) s.visibility) s)
  insert_visibility id visible

abbrev pub splits_of : ℕ → Ledger → List ExpenseSplit
splits_of id s = select_where (λ x. x.expense_id == id) s.splits

-- `ListByHouse`, without its order: shared, the caller's own, or shown to the caller.
abbrev pub shown_to : ℕ → ℕ → List ExpenseVisibility → Bool
shown_to id user = any (λ v. v.expense_id == id && v.user_id == user)

unfoldable pub list_by_house : ℕ → ℕ → Ledger → List Expense
list_by_house house user s =
    select_where
      (λ e.
        e.house_id == house
        && (is_shared e.visibility || e.payer_id == user || shown_to e.id user s.visibility))
      s.expenses

-- `GetVisibleUsers`
abbrev pub visible_users : ℕ → Ledger → List ExpenseVisibility
visible_users id s = select_where (λ v. v.expense_id == id) s.visibility

-- `visibleExpense` of the handlers, for the row that `GetByHouseAndID` finds; `none` is the 404.
unfoldable pub check_access : ℕ → Ledger → Expense → Option Expense
check_access user s e =
    if not (not (is_shared e.visibility)) || e.payer_id == user
    then some e
    else (if any (λ v. v.user_id == user) (visible_users e.id s) then some e else none)

abbrev pub access_row : ℕ → Ledger → Option Expense → Option Expense
access_row user s none = none
access_row user s (some e) = check_access user s e

unfoldable pub visible_expense : ℕ → ℕ → ℕ → Ledger → Option Expense
unfolding check_access
visible_expense house id user s = access_row user s (select_one (of_house house id) s.expenses)
