-- ===== src/Expenses/Requests.antt =====
-- The handlers of src/backend/internal/handlers/expenses.go that read and change expenses, with the
-- rules of src/backend/internal/handlers/authorization.go. Everything a handler reads before its
-- transaction is a `Result` whose error is the answer; then the transaction runs.
pub mod Hidden
pub mod Steady
pub mod Permitted
pub mod Foreign
use Prim.Native.String.{String}
use roomies.Base.{
  ℕ, Bool, true, false, not, ◌&&◌, ◌||◌, Option, none, some, List, [], ◌∷◌, length, ◌==◌,
  if◌then◌else◌,
}
use roomies.Base.Int.{ℤ, eqb_ℤ}
use roomies.Base.Sql.{select_one, select_where}
use roomies.Base.Result.{Result, ok, err, ◌>>=◌, ◌>>◌, fail_if}
use roomies.Base.Tx.{transact}
use roomies.Models.{
  HouseMember, Expense, ExpenseSplit, SplitEntry, Visibility, shared, private, is_shared, is_admin,
  is_monitor,
}
use roomies.Money.{Float64, money_to_cents}
use roomies.Splits.{SplitError, validate_visible_users, build_splits, build_custom_splits}
use roomies.Houses.{is_empty}
use roomies.Expenses.{
  Ledger, ExpenseError, invalid_participant, expense_not_found, Announcer, is_member,
  create_aggregate, update_aggregate, delete_expense, set_visibility, splits_of, list_by_house,
  visible_expense,
}

-- The answers of the handlers, by their status.
pub data Reply : Type 0 where
  listed : List Expense → Reply
  shown : Expense → List ExpenseSplit → Reply
  created updated : Expense → Reply
  deleted visibility_updated : Reply
  not_a_member forbidden bad_request not_found internal_error : Reply

-- The `visibility` text of a request: missing, one of the two, or any other.
pub data VisibilityText : Type 0 where
  missing unknown : VisibilityText
  known : Visibility → VisibilityText

pub record CreateExpenseRequest (F : Type 0) : Type 0 where
  pub amount : F
  pub description : String
  pub category : String
  pub date : String
  pub visibility : VisibilityText
  pub visible_to : List ℕ
  pub split : List (SplitEntry F)

pub record UpdateExpenseRequest (F : Type 0) : Type 0 where
  pub amount : Option F
  pub description : Option String
  pub category : Option String
  pub date : Option String
  pub split : Option (List (SplitEntry F))

pub record SetVisibilityRequest : Type 0 where
  pub visibility : VisibilityText
  pub visible_to : List ℕ

abbrev pub can_create_house_content : HouseMember → Bool
can_create_house_content m = not (is_monitor m.role)

abbrev pub can_mutate_owned_resource : HouseMember → ℕ → ℕ → Bool
can_mutate_owned_resource m owner user =
    not (is_monitor m.role) && (is_admin m.role || owner == user)

abbrev pub can_change_owned_resource_visibility : HouseMember → ℕ → ℕ → Bool
can_change_owned_resource_visibility m owner user = not (is_monitor m.role) && owner == user

-- A missing value, or an error of a helper, as the answer `reply`.
abbrev pub or_reply : {A : Type 0} → Option A → Reply → Result Reply A
or_reply none reply = err reply
or_reply (some a) reply = ok a

abbrev pub or_bad_request : {E A : Type 0} → Result E A → Result Reply A
or_bad_request (ok a) = ok a
or_bad_request (err _) = err bad_request

abbrev pub load_house_member : ℕ → ℕ → Ledger → Result Reply HouseMember
load_house_member house user s = or_reply (select_one (is_member house user) s.members) not_a_member

abbrev pub list_members : ℕ → Ledger → List HouseMember
list_members house s = select_where (λ m. m.house_id == house) s.members

-- The answer to an error of a transaction.
abbrev pub error_reply : ExpenseError → Reply
error_reply invalid_participant = bad_request
error_reply expense_not_found = not_found
error_reply _ = internal_error

-- `Create` asks for no missing expense.
abbrev pub create_error_reply : ExpenseError → Reply
create_error_reply invalid_participant = bad_request
create_error_reply _ = internal_error

-- `Delete` asks for no participant.
abbrev pub delete_error_reply : ExpenseError → Reply
delete_error_reply expense_not_found = not_found
delete_error_reply _ = internal_error

abbrev pub answer :
    (ExpenseError → Reply) → Reply → Result ExpenseError (Unit {0}) × Ledger → Reply × Ledger
answer on_error reply (ok _, s) = (reply, s)
answer on_error reply (err e, s) = (on_error e, s)

-- The known visibility of a request; a creation reads a missing one as shared.
abbrev pub visibility_or_shared : VisibilityText → Result Reply Visibility
visibility_or_shared missing = ok shared
visibility_or_shared unknown = err bad_request
visibility_or_shared (known v) = ok v

abbrev pub required_visibility : VisibilityText → Result Reply Visibility
required_visibility (known v) = ok v
required_visibility _ = err bad_request

-- `visible_to` is for private expenses, and names members.
abbrev pub check_visible_to : Visibility → List ℕ → List HouseMember → Result Reply (Unit {0})
check_visible_to v visible members = do
  fail_if (is_shared v && not (length visible == 0)) bad_request
  or_bad_request (validate_visible_users visible members)

pub handle_list : ℕ → ℕ → Ledger → Result Reply Reply
handle_list house caller s = do
  m ← load_house_member house caller s
  ok (listed (list_by_house house caller s))

pub handle_get : ℕ → ℕ → ℕ → Ledger → Result Reply Reply
handle_get house id caller s = do
  m ← load_house_member house caller s
  e ← or_reply (visible_expense house id caller s) not_found
  ok (shown e (splits_of id s))

-- The member and the visible row that `Delete` may delete and `Update` may change.
pub owned_expense : ℕ → ℕ → ℕ → Ledger → Result Reply Expense
owned_expense house id caller s = do
  m ← load_house_member house caller s
  e ← or_reply (visible_expense house id caller s) not_found
  fail_if (not (can_mutate_owned_resource m e.payer_id caller)) forbidden
  ok e

abbrev pub run_delete : ℕ → ℕ → Result Reply Expense → Ledger → Reply × Ledger
run_delete house id (err reply) s = (reply, s)
run_delete house id (ok e) s =
    answer delete_error_reply deleted (transact (delete_expense house id) s)

pub handle_delete : ℕ → ℕ → ℕ → Ledger → Reply × Ledger
unfolding owned_expense
handle_delete house id caller s = run_delete house id (owned_expense house id caller s) s

-- What `SetVisibility` checks before its transaction; `none` is a body that does not decode.
pub visibility_plan :
    ℕ → ℕ → ℕ → Option SetVisibilityRequest → Ledger → Result Reply (Visibility × List ℕ)
visibility_plan house id caller body s = do
  m ← load_house_member house caller s
  e ← or_reply (visible_expense house id caller s) not_found
  fail_if (not (can_change_owned_resource_visibility m e.payer_id caller)) forbidden
  req ← or_reply body bad_request
  v ← required_visibility req.visibility
  check_visible_to v req.visible_to (list_members house s)
  ok (v, req.visible_to)

abbrev pub run_visibility : ℕ → ℕ → Result Reply (Visibility × List ℕ) → Ledger → Reply × Ledger
run_visibility house id (err reply) s = (reply, s)
run_visibility house id (ok (v, visible)) s =
    answer error_reply visibility_updated (transact (set_visibility house id v visible) s)

pub handle_set_visibility : ℕ → ℕ → ℕ → Option SetVisibilityRequest → Ledger → Reply × Ledger
unfolding visibility_plan
handle_set_visibility house id caller body s =
    run_visibility house id (visibility_plan house id caller body s) s

abbrev is_absent : {A : Type 0} → Option A → Bool
is_absent none = true
is_absent (some _) = false

-- Code outside the repository: floats, identifiers, `strings.TrimSpace`, the parser of dates.
module _ (fl : Float64) (new_id : ℕ → ℕ) (trim_space : String → String)
    (is_date : String → Bool) where
  pub validate_expense_fields : fl.F → String → String → Result Reply ℤ
  validate_expense_fields amount description date = do
    cents ← or_bad_request (money_to_cents fl amount)
    fail_if (is_empty (trim_space description)) bad_request
    fail_if (not (is_empty date) && not (is_date date)) bad_request
    ok cents

  -- What `Create` checks and computes before its transaction.
  pub create_plan :
      ℕ
      → ℕ
      → ℕ
      → String
      → ℕ
      → Option (CreateExpenseRequest fl.F)
      → Ledger
      → Result Reply (Expense × List ℕ × List ExpenseSplit)
  unfolding validate_expense_fields
  create_plan expense_id house now today caller body s = do
    m ← load_house_member house caller s
    fail_if (not (can_create_house_content m)) forbidden
    req ← or_reply body bad_request
    cents ← validate_expense_fields req.amount req.description req.date
    v ← visibility_or_shared req.visibility
    check_visible_to v req.visible_to (list_members house s)
    splits ←
        or_bad_request (build_splits fl new_id expense_id cents req.split (list_members house s))
    ok (
      record {
        id = expense_id;
        house_id = house;
        payer_id = caller;
        amount_cents = cents;
        description = trim_space req.description;
        category = trim_space req.category;
        date = if is_empty req.date then today else req.date;
        visibility = v;
        created_at = now;
        payer_name = m.user_name;
      },
      req.visible_to,
      splits,
    )

  abbrev pub run_create :
      Announcer → Result Reply (Expense × List ℕ × List ExpenseSplit) → Ledger → Reply × Ledger
  run_create notifications (err reply) s = (reply, s)
  run_create notifications (ok (e, visible, splits)) s =
      answer create_error_reply (created e)
        (transact (create_aggregate notifications e visible splits) s)

  pub handle_create :
      Announcer
      → ℕ
      → ℕ
      → ℕ
      → String
      → ℕ
      → Option (CreateExpenseRequest fl.F)
      → Ledger
      → Reply × Ledger
  unfolding create_plan
  handle_create notifications expense_id house now today caller body s =
      run_create notifications (create_plan expense_id house now today caller body s) s

  -- The new amount: a changed amount needs new splits.
  abbrev pub new_amount : ℤ → Option fl.F → Option (List (SplitEntry fl.F)) → Result Reply ℤ
  new_amount old none splits = ok old
  new_amount old (some x) splits = do
    cents ← or_bad_request (money_to_cents fl x)
    fail_if (not (eqb_ℤ cents old) && is_absent splits) bad_request
    ok cents

  abbrev pub new_description : String → Option String → Result Reply String
  new_description old none = ok old
  new_description old (some d) =
      if is_empty (trim_space d) then err bad_request else ok (trim_space d)

  abbrev pub new_category : String → Option String → String
  new_category old none = old
  new_category old (some c) = trim_space c

  abbrev pub new_date : String → Option String → Result Reply String
  new_date old none = ok old
  new_date old (some d) = if is_date d then ok d else err bad_request

  abbrev pub new_splits :
      ℕ
      → ℤ
      → Option (List (SplitEntry fl.F))
      → List HouseMember
      → Result Reply (Option (List ExpenseSplit))
  new_splits expense_id cents none members = ok none
  new_splits expense_id cents (some es) members = do
    splits ← or_bad_request (build_custom_splits fl new_id expense_id cents es members)
    ok (some splits)

  pub update_plan :
      ℕ
      → ℕ
      → ℕ
      → Option (UpdateExpenseRequest fl.F)
      → Ledger
      → Result Reply (Expense × Option (List ExpenseSplit))
  unfolding owned_expense
  update_plan house id caller body s = do
    e ← owned_expense house id caller s
    req ← or_reply body bad_request
    cents ← new_amount e.amount_cents req.amount req.split
    description ← new_description e.description req.description
    date ← new_date e.date req.date
    splits ← new_splits e.id cents req.split (list_members house s)
    ok (
      record e {
        amount_cents = cents;
        description = description;
        category = new_category e.category req.category;
        date = date;
      },
      splits,
    )

  abbrev pub run_update :
      Result Reply (Expense × Option (List ExpenseSplit)) → Ledger → Reply × Ledger
  run_update (err reply) s = (reply, s)
  run_update (ok (e, splits)) s =
      answer error_reply (updated e) (transact (update_aggregate e splits) s)

  pub handle_update : ℕ → ℕ → ℕ → Option (UpdateExpenseRequest fl.F) → Ledger → Reply × Ledger
  unfolding update_plan
  handle_update house id caller body s = run_update (update_plan house id caller body s) s
