-- ===== src/Examples/Debts.antt =====
-- Runs of the balances.
use Prim.Native.String.{String}
use roomies.Base.{
  ℕ, ◌-◌, ◌≤◌, ◌≡◌, refl, Bool, true, false, List, [], ◌∷◌, map, length, arith, sum_by, All,
}
use roomies.Base.Int.{ℤ, pos, negsuc, ◌+ℤ◌, ◌-ℤ◌, neg, neg64, add64, sub64, wrap64}
use roomies.Base.Result.{ok}
use roomies.Models.{BalanceEntry, BalanceSettlement}
use roomies.Balances.{BalanceInCents, calculate_settlements, get_balances, in_cents}
use roomies.Balances.Settle.{
  credit, debt, credit_of, debt_of, received, sent, calculate_settlements-clears,
  calculate_settlements_payments, IsPayment, IsBounded,
}
use roomies.Balances.Clears.{get_balances-clears}
use roomies.Balances.Totals.{IsStored}
use roomies.Examples.Data.{identity_sort, people, bill, bill_splits}

abbrev nets : List BalanceInCents
nets =
    record { user_id = 11; user_name = "ann"; net = pos 500 }
    ∷ record { user_id = 12; user_name = "bob"; net = negsuc 299 }
    ∷ record { user_id = 13; user_name = "cid"; net = negsuc 199 }
    ∷ []

nets-IsBounded : All IsBounded nets
nets-IsBounded = ground arith

calculate_settlements-clears_example :
    (sum_by (received 11) (calculate_settlements identity_sort nets) ≡ sum_by (credit_of 11) nets)
    × (sum_by (sent 11) (calculate_settlements identity_sort nets) ≡ sum_by (debt_of 11) nets)
calculate_settlements-clears_example =
    calculate_settlements-clears identity_sort nets nets-IsBounded refl 11

calculate_settlements_payments_example :
    All IsPayment (calculate_settlements identity_sort nets)
    × (length (calculate_settlements identity_sort nets) ≤ length nets - 1)
calculate_settlements_payments_example =
    calculate_settlements_payments identity_sort nets nets-IsBounded

abbrev no_order : String → String → Bool
no_order _ _ = false

abbrev entry : ℕ → String → ℤ → ℤ → ℤ → BalanceEntry
entry u name paid owed net = record {
  user_id = u;
  user_name = name;
  paid = paid;
  owed = owed;
  net = net;
}

abbrev bill_entries : List BalanceEntry
bill_entries =
    entry 11 "ann" (pos 1001) (pos 501) (pos 500)
    ∷ entry 12 "bob" (pos 0) (pos 500) (negsuc 499)
    ∷ []

abbrev bill_settlements : List BalanceSettlement
bill_settlements =
    record {
      from_user_id = 12;
      from_user_name = "bob";
      to_user_id = 11;
      to_user_name = "ann";
      amount = pos 500;
    }
    ∷ []

get_balances_run :
    get_balances identity_sort no_order no_order true people (bill ∷ []) bill_splits
    ≡ ok (bill_entries, bill_settlements)
unfolding get_balances calculate_settlements add64 wrap64 ◌+ℤ◌ sub64 ◌-ℤ◌ neg neg64
get_balances_run = refl

bill-IsStored : All (IsStored bill_splits) (bill ∷ [])
bill-IsStored = ground arith

get_balances-clears_example :
    (sum_by credit (map in_cents bill_entries) ≡ sum_by debt (map in_cents bill_entries))
    × (sum_by (received 11) bill_settlements ≡ sum_by (credit_of 11) (map in_cents bill_entries))
    × (sum_by (sent 11) bill_settlements ≡ sum_by (debt_of 11) (map in_cents bill_entries))
get_balances-clears_example =
    get_balances-clears identity_sort no_order no_order true people (bill ∷ []) bill_splits
      bill-IsStored (omega arith) get_balances_run 11
