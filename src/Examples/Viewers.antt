-- ===== src/Examples/Viewers.antt =====
-- Runs of the expenses and of the requests for them.
use Prim.Native.String.{String}
use roomies.Base.{
  ◌≡◌, ◌⊎◌, refl, Bool, true, false, List, ◌||◌, if◌then◌else◌, none, some, [], ◌∷◌, ◌==◌, contains,
}
use roomies.Base.Result.{ok, err}
use roomies.Models.{private, Expense}
use roomies.Base.Sql.{select_one}
use roomies.Models.{is_shared}
use roomies.Expenses.{Ledger, visible_expense, list_by_house, set_visibility}
use roomies.Expenses.Visible.{ids, visible_expense-list_by_house, set_visibility-visible_expense}
use roomies.Expenses.Requests.{
  handle_get, handle_list, handle_delete, handle_set_visibility, handle_update,
}
use roomies.Expenses.Requests.Hidden.{hidden_expense_kept}
use roomies.Expenses.Requests
use roomies.Expenses.{off}
use roomies.Expenses.Requests.Steady.{IsFound}
use roomies.Expenses.Requests.Foreign.{
  ExpenseRequest, updates, deletes, shows, serve_expenses, foreign_expense_kept,
}
use roomies.Examples.Data.{hundredths, people, bill, bill_splits, count_up, keep_body}

abbrev ledger : Ledger
ledger = record {
  houses = record { id = 7; name = "home"; created_at = 0 } ∷ [];
  members = people;
  expenses = bill ∷ [];
  visibility = [];
  splits = bill_splits 50;
  notices = [];
}

abbrev hidden_ledger : Ledger
hidden_ledger = record ledger {
  expenses = record bill { visibility = private } ∷ [];
  visibility = record { expense_id = 50; user_id = 12 } ∷ [];
}

visible_expense-list_by_house_example :
    visible_expense 7 50 13 hidden_ledger
    ≡ select_one (λ e. e.id == 50) (list_by_house 7 13 hidden_ledger)
visible_expense-list_by_house_example =
    visible_expense-list_by_house 7 50 13 hidden_ledger (refl, tt)

set_visibility_run : set_visibility 7 50 private (12 ∷ []) ledger ≡ ok (tt, hidden_ledger)
unfolding set_visibility
set_visibility_run = refl

set_visibility-visible_expense_example : visible_expense 7 50 13 hidden_ledger ≡ (
    if is_shared private || bill.payer_id == 13 || contains (12 ∷ []) 13
    then some (record bill { visibility = private })
    else none)
set_visibility-visible_expense_example =
    set_visibility-visible_expense 7 50 13 private (12 ∷ []) ledger hidden_ledger bill refl
      set_visibility_run

-- Requests for an expense that ann shows to bob alone.
abbrev any_date : String → Bool
any_date _ = true

hidden_expense_kept_example :
    (reply : Requests.Reply) × ((reply ≡ Requests.not_a_member) ⊎ (reply ≡ Requests.not_found))
    × ((handle_list 7 13 hidden_ledger ≡ err Requests.not_a_member)
        ⊎ ((es : List Expense) × (handle_list 7 13 hidden_ledger ≡ ok (Requests.listed es))
            × (contains (ids es) 50 ≡ false)))
    × (handle_get 7 50 13 hidden_ledger ≡ err reply)
    × (handle_update hundredths count_up keep_body any_date 7 50 13 none hidden_ledger
        ≡ (reply, hidden_ledger))
    × (handle_delete 7 50 13 hidden_ledger ≡ (reply, hidden_ledger))
    × (handle_set_visibility 7 50 13 none hidden_ledger ≡ (reply, hidden_ledger))
hidden_expense_kept_example =
    hidden_expense_kept hundredths count_up keep_body any_date 7 50 13 none none hidden_ledger refl
      refl

-- Bob, who is no admin, tries to take away the expense that ann paid, and to open it.
abbrev attempts : List (ExpenseRequest hundredths.F)
attempts =
    deletes 7 50 12
    ∷ shows 7 50 12 (some (record { visibility = Requests.known private; visible_to = [] }))
    ∷ updates 7 50 12 none
    ∷ []

foreign_expense_kept_example :
    IsFound bill (serve_expenses hundredths count_up keep_body any_date off attempts ledger)
foreign_expense_kept_example =
    foreign_expense_kept hundredths count_up keep_body any_date off bill attempts ledger refl refl
