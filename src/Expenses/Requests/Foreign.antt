-- ===== src/Expenses/Requests/Foreign.antt =====
-- Requests of those who may not change an expense (src/backend/internal/handlers/expenses.go with
-- src/backend/internal/handlers/authorization.go).
use Prim.Native.String.{String}
use roomies.Base.{
  ℕ, ◌≡◌, ◌∙◌, refl, ap, sym, Bool, false, ◌&&◌, Option, List, [], ◌∷◌, any, arith, ◌==◌,
}
use roomies.Base.Result.{Result, ok, err, >>=-eq-ok}
use roomies.Base.Tx.{transact}
use roomies.Base.Keeps.{keep_transact}
use roomies.Models.{HouseMember, Expense, ExpenseSplit, Visibility}
use roomies.Money.{Float64}
use roomies.Expenses.{
  Ledger, ExpenseError, Action, Announcer, of_house, create_aggregate, update_aggregate,
  delete_expense, set_visibility,
}
use roomies.Expenses.Requests.{
  Reply, CreateExpenseRequest, UpdateExpenseRequest, SetVisibilityRequest, or_reply, answer,
  can_mutate_owned_resource, can_change_owned_resource_visibility, owned_expense, handle_delete,
  visibility_plan, handle_set_visibility, create_plan, handle_create, update_plan, handle_update,
  run_delete, run_visibility, run_update, run_create, deleted, visibility_updated, updated, created,
  bad_request, error_reply, delete_error_reply, create_error_reply, new_amount, new_description,
  new_date, new_splits, list_members,
}
use roomies.Expenses.Requests.Steady.{
  IsFound, Stays, same, KeepsRow, create-Stays, delete-Stays, set_visibility-Stays, update-Stays,
}
use roomies.Expenses.Requests.Permitted.{
  is_permitted, is_for, Passed, select_one-holds, Passed-other, owned_expense-Passed,
  visibility_plan-Passed, ok_value,
}

-- The requests that change something, each with the house, the expense and the caller.
pub data ExpenseRequest (F : Type 0) : Type 0 where
  creates : ℕ → ℕ → ℕ → String → ℕ → Option (CreateExpenseRequest F) → ExpenseRequest F
  updates : ℕ → ℕ → ℕ → Option (UpdateExpenseRequest F) → ExpenseRequest F
  deletes : ℕ → ℕ → ℕ → ExpenseRequest F
  shows : ℕ → ℕ → ℕ → Option SetVisibilityRequest → ExpenseRequest F

-- The request is for the expense, and the caller may do what it asks for.
abbrev pub may_touch : {F : Type 0} → Expense → List HouseMember → ExpenseRequest F → Bool
may_touch x ms (creates _ _ _ _ _ _) = false
may_touch x ms (updates house id caller _) =
    is_for x house id && is_permitted can_mutate_owned_resource x caller ms
may_touch x ms (deletes house id caller) =
    is_for x house id && is_permitted can_mutate_owned_resource x caller ms
may_touch x ms (shows house id caller _) =
    is_for x house id && is_permitted can_change_owned_resource_visibility x caller ms

answer-Stays :
    (x : Expense) (on_error : ExpenseError → Reply) (reply : Reply) (m : Action (Unit {0}))
    (s : Ledger)
    → KeepsRow x m
    → Stays x s (answer on_error reply (transact m s)).1
answer-Stays x on_error reply m s k = go (transact m s) (keep_transact (Stays x) m s (same x s) k)
  where
    go :
        (r : Result ExpenseError (Unit {0}) × Ledger)
        → Stays x s r.1
        → Stays x s (answer on_error reply r).1
    go (ok _, t) h = h
    go (err e, t) h = h

delete_keeps :
    (x : Expense) (house id caller : ℕ) (s : Ledger)
    → IsFound x s
    → (is_for x house id && is_permitted can_mutate_owned_resource x caller s.members) ≡ false
    → Stays x s (handle_delete house id caller s).1
unfolding handle_delete
delete_keeps x house id caller s found barred = go (owned_expense house id caller s) refl
  where
    go :
        (r : Result Reply Expense)
        → owned_expense house id caller s ≡ r
        → Stays x s (run_delete house id r s).1
    go (err reply) h = same x s
    go (ok e) h =
        let other =
          Passed-other can_mutate_owned_resource house id caller s x e found barred
            (owned_expense-Passed house id caller s h) in
        answer-Stays x delete_error_reply deleted (delete_expense house id) s
          (delete-Stays x house id other)

show_keeps :
    (x : Expense) (house id caller : ℕ) (body : Option SetVisibilityRequest) (s : Ledger)
    → IsFound x s
    → (is_for x house id && is_permitted can_change_owned_resource_visibility x caller s.members)
      ≡ false
    → Stays x s (handle_set_visibility house id caller body s).1
unfolding handle_set_visibility
show_keeps x house id caller body s found barred = go (visibility_plan house id caller body s) refl
  where
    go :
        (r : Result Reply (Visibility × List ℕ))
        → visibility_plan house id caller body s ≡ r
        → Stays x s (run_visibility house id r s).1
    go (err reply) h = same x s
    go (ok (v, visible)) h =
        let (e, passed) = visibility_plan-Passed house id caller body s h in
        let other =
          Passed-other can_change_owned_resource_visibility house id caller s x e found barred
            passed in
        answer-Stays x error_reply visibility_updated (set_visibility house id v visible) s
          (set_visibility-Stays x house id other v visible)

-- Code outside the repository: floats, identifiers, `strings.TrimSpace`, the parser of dates.
module _ (fl : Float64) (new_id : ℕ → ℕ) (trim_space : String → String) (is_date : String → Bool)
    (notifications : Announcer) where
  update_plan-Passed :
      (house id caller : ℕ) (body : Option (UpdateExpenseRequest fl.F)) (s : Ledger)
      {r : Expense × Option (List ExpenseSplit)}
      → update_plan fl new_id trim_space is_date house id caller body s ≡ ok r
      → (e : Expense) × Passed can_mutate_owned_resource house id caller s e
        × (r.0.house_id ≡ e.house_id)
        × (r.0.id ≡ e.id)
  unfolding update_plan
  update_plan-Passed house id caller body s h =
      let (e, owned, h1) = >>=-eq-ok (owned_expense house id caller s) _ h in
      let (req, decoded, h2) = >>=-eq-ok (or_reply body bad_request) _ h1 in
      let (cents, read, h3) =
        >>=-eq-ok (new_amount fl new_id trim_space is_date e.amount_cents req.amount req.split) _
          h2 in
      let (description, worded, h4) =
        >>=-eq-ok (new_description fl new_id trim_space is_date e.description req.description) _
          h3 in
      let (date, dated, h5) =
        >>=-eq-ok (new_date fl new_id trim_space is_date e.date req.date) _ h4 in
      let (splits, shared_out, h6) =
        >>=-eq-ok
          (new_splits fl new_id trim_space is_date e.id cents req.split (list_members house s)) _
          h5 in
      let value = ok_value h6 in
      (
        e,
        owned_expense-Passed house id caller s owned,
        sym (ap (λ q. q.0.house_id) value),
        sym (ap (λ q. q.0.id) value),
      )

  update_keeps :
      (x : Expense) (house id caller : ℕ) (body : Option (UpdateExpenseRequest fl.F)) (s : Ledger)
      → IsFound x s
      → (is_for x house id && is_permitted can_mutate_owned_resource x caller s.members) ≡ false
      → Stays x s (handle_update fl new_id trim_space is_date house id caller body s).1
  unfolding handle_update
  update_keeps x house id caller body s found barred =
      go (update_plan fl new_id trim_space is_date house id caller body s) refl
    where
      go :
          (r : Result Reply (Expense × Option (List ExpenseSplit)))
          → update_plan fl new_id trim_space is_date house id caller body s ≡ r
          → Stays x s (run_update fl new_id trim_space is_date r s).1
      go (err reply) h = same x s
      go (ok (y, splits)) h =
          let (e, passed, eh, ei) = update_plan-Passed house id caller body s h in
          let other =
            Passed-other can_mutate_owned_resource house id caller s x e found barred passed in
          let here = select_one-holds (of_house house id) s.expenses {a = e} passed.row_found in
          let apart : (y.house_id == x.house_id && y.id == x.id) ≡ false =
            ground (arith, other, here, eh, ei) in
          answer-Stays x error_reply (updated y) (update_aggregate y splits) s
            (update-Stays x y splits apart)

  create_keeps :
      (x : Expense) (expense_id house now : ℕ) (today : String) (caller : ℕ)
      (body : Option (CreateExpenseRequest fl.F)) (s : Ledger)
      → Stays x s
          (handle_create fl new_id trim_space is_date notifications expense_id house now today
            caller body s).1
  unfolding handle_create
  create_keeps x expense_id house now today caller body s =
      go (create_plan fl new_id trim_space is_date expense_id house now today caller body s)
    where
      go :
          (r : Result Reply (Expense × List ℕ × List ExpenseSplit))
          → Stays x s (run_create fl new_id trim_space is_date notifications r s).1
      go (err reply) = same x s
      go (ok (e, visible, splits)) =
          answer-Stays x create_error_reply (created e)
            (create_aggregate notifications e visible splits) s
            (create-Stays x notifications e visible splits)

  unfoldable pub serve_expense : ExpenseRequest fl.F → Ledger → Ledger
  unfolding handle_create handle_update handle_delete handle_set_visibility
  serve_expense (creates expense_id house now today caller body) s =
      (handle_create fl new_id trim_space is_date notifications expense_id house now today caller
        body s).1
  serve_expense (updates house id caller body) s =
      (handle_update fl new_id trim_space is_date house id caller body s).1
  serve_expense (deletes house id caller) s = (handle_delete house id caller s).1
  serve_expense (shows house id caller body) s = (handle_set_visibility house id caller body s).1

  unfoldable pub serve_expenses : List (ExpenseRequest fl.F) → Ledger → Ledger
  unfolding serve_expense
  serve_expenses [] s = s
  serve_expenses (r ∷ rs) s = serve_expenses rs (serve_expense r s)

  serve_expense-Stays :
      (x : Expense) (r : ExpenseRequest fl.F) (s : Ledger)
      → IsFound x s
      → may_touch x s.members r ≡ false
      → Stays x s (serve_expense r s)
  unfolding serve_expense
  serve_expense-Stays x (creates expense_id house now today caller body) s found barred =
      create_keeps x expense_id house now today caller body s
  serve_expense-Stays x (updates house id caller body) s found barred =
      update_keeps x house id caller body s found barred
  serve_expense-Stays x (deletes house id caller) s found barred =
      delete_keeps x house id caller s found barred
  serve_expense-Stays x (shows house id caller body) s found barred =
      show_keeps x house id caller body s found barred

  -- An expense is changed by those alone who may. Where the expense is the row under its house and
  -- identifier, and in a sequence of requests to create, update, delete and show expenses no one that
  -- is for this expense comes from a caller that a membership in the house permits it (for an update
  -- and a deletion as the payer or an admin, for the visibility as the payer, in all cases not as a
  -- monitor), the row is the same after the sequence.
  pub foreign_expense_kept :
      (x : Expense) (rs : List (ExpenseRequest fl.F)) (s : Ledger)
      → IsFound x s
      → any (may_touch x s.members) rs ≡ false
      → IsFound x (serve_expenses rs s)
  unfolding serve_expenses
  foreign_expense_kept x [] s found barred = found
  foreign_expense_kept x (r ∷ rs) s found barred =
      let one = serve_expense-Stays x r s found (ground (arith, barred)) in
      foreign_expense_kept x rs (serve_expense r s) (one.row found)
        (ap (λ ms. any (may_touch x ms) rs) one.members ∙ ground (arith, barred))
