-- ===== src/Examples/Created.antt =====
-- A run of the creation of an expense.
use roomies.Base.{◌+◌, ◌≡◌, refl, true, [], ◌∷◌, sum_by, arith}
use roomies.Base.Int.{pos, add64, wrap64, ◌+ℤ◌}
use roomies.Base.Result.{ok}
use roomies.Splits.Even.{cents}
use roomies.Expenses.{Ledger, through, create_aggregate}
use roomies.Expenses.Stored.{part, create_aggregate-stored}
use roomies.Examples.Data.{people, bill, bill_splits, share}

abbrev no_expense : Ledger
no_expense = record {
  houses = record { id = 7; name = "home"; created_at = 0 } ∷ [];
  members = people;
  expenses = [];
  visibility = [];
  splits = [];
  notices = [];
}

abbrev one_expense : Ledger
one_expense = record no_expense {
  expenses = bill ∷ [];
  splits = share 61 12 500 "bob" ∷ share 60 11 501 "ann" ∷ [];
  notices = record { house_id = 7; actor_id = 11; expense_id = 50 } ∷ [];
}

create_aggregate_run :
    create_aggregate (through (λ _ _. true) (λ _ _. true)) bill [] (bill_splits 50) no_expense
    ≡ ok (tt, one_expense)
unfolding create_aggregate add64 wrap64 ◌+ℤ◌
create_aggregate_run = refl

create_aggregate-stored_example :
    (one_expense.expenses ≡ bill ∷ no_expense.expenses)
    × (bill.amount_cents ≡ pos (sum_by cents (bill_splits 50)))
    × (sum_by (part 50) one_expense.splits
        ≡ sum_by (part 50) no_expense.splits + sum_by (part 50) (bill_splits 50))
create_aggregate-stored_example =
    create_aggregate-stored (through (λ _ _. true) (λ _ _. true)) bill [] (bill_splits 50)
      no_expense create_aggregate_run (omega arith) 50
