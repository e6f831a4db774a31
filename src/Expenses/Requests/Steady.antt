-- ===== src/Expenses/Requests/Steady.antt =====
-- Which statements of the transactions on expenses leave a row as it is
-- (src/backend/internal/repository/expenses.go).
use roomies.Base.{
  ℕ, ◌≡◌, ◌∙◌, refl, ap, subst, Bool, true, false, not, ◌&&◌, Option, none, some, List, [], ◌∷◌,
  arith, ◌==◌, Bool-cases, inl, inr,
}
use roomies.Base.Sql.{select_one, count_where, update_where, delete_where}
use roomies.Base.Result.{Result, ok, err}
use roomies.Base.Tx.{pure, read, fail_if, modify, ◌>>=◌}
use roomies.Base.Keeps.{
  Keeps, keep_bind, keep_pure, keep_read, keep_modify, keep_fail, keep_fail_if, keep_find, keep_if,
}
use roomies.Models.{Expense, ExpenseSplit, ExpenseVisibility, Visibility, is_shared}
use roomies.Expenses.{
  Ledger, ExpenseError, Action, Announcer, off, through, house_not_found, invalid_participant,
  expense_not_found, unique_violation, check_violation, enqueue_failed, event_failed, set_expenses,
  set_splits, set_visible, lock_house, check_visible, check_shares, validate_participants,
  validate_money_amounts, lift, amount_in_range, insert_visibility, share_in_range, same_split,
  insert_splits, insert_expense, notify, announce, create_aggregate, of_house, update_fields,
  validate_splits, replace_splits, update_row, update_aggregate, delete_expense, set_visibility,
}

-- The row of the table under the house and the identifier of `x` is `x`.
abbrev pub IsFound : Expense → Ledger → Type 0
IsFound x s = select_one (of_house x.house_id x.id) s.expenses ≡ some x

pub record Stays (x : Expense) (s t : Ledger) : Type 0 where
  pub row :
      select_one (of_house x.house_id x.id) s.expenses ≡ some x
      → select_one (of_house x.house_id x.id) t.expenses ≡ some x
  pub members : t.members ≡ s.members

module _ (x : Expense) where
  abbrev is_it : Expense → Bool
  is_it = of_house x.house_id x.id

  select-update :
      (p : Expense → Bool) (f : Expense → Expense)
      → ((e : Expense) → p e ≡ true → is_it e ≡ false)
      → ((e : Expense) → p e ≡ true → is_it (f e) ≡ false)
      → (es : List Expense) → select_one is_it (update_where p f es) ≡ select_one is_it es
  select-update p f before after [] = refl
  select-update p f before after (e ∷ es) = elim (Bool-cases (p e)) [
    | inl hit ↦ ground (arith, hit, before e hit, after e hit, select-update p f before after es)
    | inr miss ↦ ground (arith, miss, select-update p f before after es)
  ]

  select-delete :
      (p : Expense → Bool)
      → ((e : Expense) → p e ≡ true → is_it e ≡ false)
      → (es : List Expense) → select_one is_it (delete_where p es) ≡ select_one is_it es
  select-delete p before [] = refl
  select-delete p before (e ∷ es) = elim (Bool-cases (p e)) [
    | inl hit ↦ ground (arith, hit, before e hit, select-delete p before es)
    | inr miss ↦ ground (arith, miss, select-delete p before es)
  ]

  absent_row :
      (id : ℕ) (es : List Expense)
      → (count_where (λ e. e.id == id) es == 0) ≡ true
      → (x.id == id) ≡ true
      → select_one is_it es ≡ none
  absent_row id [] h same = refl
  absent_row id (e ∷ es) h same =
      let rest = absent_row id es (ground (arith, h)) same in ground (arith, h, same, rest)

  other_row :
      (house id : ℕ) (e : Expense)
      → (house == x.house_id && id == x.id) ≡ false
      → of_house house id e ≡ true
      → is_it e ≡ false
  other_row house id e other here = ground (arith, other, here)

  -- A change of the expenses that keeps the row, and a change of other tables.
  table-Stays :
      (f : List Expense → List Expense)
      → ((es : List Expense) → select_one is_it (f es) ≡ select_one is_it es)
      → (s : Ledger) → Stays x s (set_expenses (f s.expenses) s)
  table-Stays f same s = record { row = λ h. same s.expenses ∙ h; members = refl }

  aside : (s t : Ledger) → t.expenses ≡ s.expenses → t.members ≡ s.members → Stays x s t
  aside s t same members = record { row = λ h. ap (select_one is_it) same ∙ h; members = members }

  pub same : (s : Ledger) → Stays x s s
  same s = record { row = λ h. h; members = refl }

  pub chains : (s t u : Ledger) → Stays x s t → Stays x t u → Stays x s u
  chains s t u f g = record { row = λ h. g.row (f.row h); members = g.members ∙ f.members }

  abbrev pub KeepsRow : {A : Type 0} → Action A → Type 0
  KeepsRow m = Keeps (Stays x) m

  bind :
      {A B : Type 0} (m : Action A) (f : A → Action B)
      → KeepsRow m
      → ((a : A) → KeepsRow (f a))
      → KeepsRow (m >>= f)
  bind = keep_bind (Stays x) chains

  refuse : (b : Bool) (e : ExpenseError) → KeepsRow (fail_if b e)
  refuse b e = keep_fail_if (Stays x) same b e

  look : {A : Type 0} (f : Ledger → A) → KeepsRow (read f)
  look f = keep_read (Stays x) same f

  nothing : KeepsRow (pure tt)
  nothing = keep_pure (Stays x) same tt

  splits_aside : (f : Ledger → List ExpenseSplit) → KeepsRow (modify (λ s. set_splits (f s) s))
  splits_aside f = keep_modify (Stays x) _ (λ s. aside s (set_splits (f s) s) refl refl)

  visible_aside :
      (f : Ledger → List ExpenseVisibility) → KeepsRow (modify (λ s. set_visible (f s) s))
  visible_aside f = keep_modify (Stays x) _ (λ s. aside s (set_visible (f s) s) refl refl)

  lock-Stays : (house : ℕ) → KeepsRow (lock_house house)
  unfolding lock_house
  lock-Stays house =
      bind _ _
        (keep_find (Stays x) same (λ s. select_one (λ h. h.id == house) s.houses) house_not_found)
        (λ _. nothing)

  participants-Stays :
      (house : ℕ) (visible : List ℕ) (splits : List ExpenseSplit)
      → KeepsRow (validate_participants house visible splits)
  unfolding validate_participants
  participants-Stays house visible splits =
      bind _ _ (look (λ s. check_visible house s.members visible)) (λ a.
        bind _ _ (refuse (not a) invalid_participant) (λ _.
          bind _ _ (look (λ s. check_shares house s.members splits))
            (λ b. refuse (not b) invalid_participant)))

  lift-Stays : (r : Result ExpenseError (Unit {0})) → KeepsRow (lift r)
  lift-Stays (ok _) = nothing
  lift-Stays (err e) = keep_fail (Stays x) e

  visibility-Stays : (id : ℕ) (us : List ℕ) → KeepsRow (insert_visibility id us)
  unfolding insert_visibility
  visibility-Stays id [] = nothing
  visibility-Stays id (u ∷ us) =
      bind _ _ (look (λ s. count_where (λ v. v.expense_id == id && v.user_id == u) s.visibility))
        (λ n. bind _ _ (refuse (not (n == 0)) unique_violation) (λ _.
          bind _ _ (visible_aside (λ s. record { expense_id = id; user_id = u } ∷ s.visibility))
            (λ _. visibility-Stays id us)))

  splits-Stays : (ss : List ExpenseSplit) → KeepsRow (insert_splits ss)
  unfolding insert_splits
  splits-Stays [] = nothing
  splits-Stays (p ∷ ps) = bind _ _ (look (λ s. count_where (same_split p) s.splits)) (λ n.
      bind _ _ (refuse (not (n == 0)) unique_violation) (λ _.
        bind _ _ (refuse (not (share_in_range p.share_amount_cents)) check_violation)
          (λ _. bind _ _ (splits_aside (λ s. p ∷ s.splits)) (λ _. splits-Stays ps))))

  abbrev add_notice : Expense → Ledger → Ledger
  add_notice e s = record s {
    notices =
        record { house_id = e.house_id; actor_id = e.payer_id; expense_id = e.id } ∷ s.notices;
  }

  announce-Stays : (a : Announcer) (e : Expense) → KeepsRow (announce a e)
  unfolding announce notify
  announce-Stays off e = nothing
  announce-Stays (through enqueue_tx insert_event) e =
      keep_if (Stays x) (is_shared e.visibility) _ _
        (bind _ _ (look (enqueue_tx e)) (λ q. bind _ _ (refuse (not q) enqueue_failed) (λ _.
          bind _ _ (look (insert_event e)) (λ t. bind _ _ (refuse (not t) event_failed) (λ _.
            keep_modify (Stays x) (add_notice e) (λ s. aside s (add_notice e s) refl refl))))))
        nothing

  insert-Stays : (e : Expense) → KeepsRow (insert_expense e)
  unfolding insert_expense
  insert-Stays e s r run = elim (Bool-cases (count_where (λ y. y.id == e.id) s.expenses == 0)) [
    | inr taken ↦ absurd (ground (arith, run, taken))
    | inl free ↦ elim (Bool-cases (amount_in_range e.amount_cents)) [
      | inr large ↦ absurd (ground (arith, run, free, large))
      | inl fits ↦
          let stored : set_expenses (e ∷ s.expenses) s ≡ r.1 = ground (arith, run, free, fits) in
          subst (Stays x s) stored (record {
            row = λ h. elim (Bool-cases (x.id == e.id)) [
              | inl same_id ↦ cc (absent_row e.id s.expenses free same_id, h)
              | inr other ↦ ground (arith, h, other)
            ];
            members = refl;
          })
    ]
  ]

  pub create-Stays :
      (a : Announcer) (e : Expense) (visible : List ℕ) (splits : List ExpenseSplit)
      → KeepsRow (create_aggregate a e visible splits)
  unfolding create_aggregate
  create-Stays a e visible splits = bind _ _ (lock-Stays e.house_id) (λ _.
      bind _ _ (participants-Stays e.house_id visible splits) (λ _.
        bind _ _ (lift-Stays (validate_money_amounts e splits)) (λ _.
          bind _ _ (insert-Stays e) (λ _.
            bind _ _ (visibility-Stays e.id visible)
              (λ _. bind _ _ (splits-Stays splits) (λ _. announce-Stays a e))))))

  -- The statements of a request for the house and the identifier of another row.
  module _ (house id : ℕ) (other : (house == x.house_id && id == x.id) ≡ false) where
    apart : (e : Expense) → of_house house id e ≡ true → is_it e ≡ false
    apart e here = other_row house id e other here

    update_rows-Stays :
        (f : Expense → Expense)
        → ((e : Expense) → is_it e ≡ false → is_it (f e) ≡ false)
        → KeepsRow (modify (λ s. set_expenses (update_where (of_house house id) f s.expenses) s))
    update_rows-Stays f named = keep_modify (Stays x) _ (
        table-Stays (update_where (of_house house id) f)
          (select-update (of_house house id) f apart (λ e here. named e (apart e here))))

    abbrev delete_row : Ledger → Ledger
    delete_row s = record s {
      expenses = delete_where (of_house house id) s.expenses;
      splits = delete_where (λ p. p.expense_id == id) s.splits;
      visibility = delete_where (λ v. v.expense_id == id) s.visibility;
    }

    pub delete-Stays : KeepsRow (delete_expense house id)
    unfolding delete_expense
    delete-Stays = bind _ _ (look (λ s. count_where (of_house house id) s.expenses)) (λ n.
        bind _ _ (refuse (n == 0) expense_not_found) (λ _. keep_modify (Stays x) delete_row (λ s.
          record {
            row = λ h. select-delete (of_house house id) apart s.expenses ∙ h;
            members = refl;
          })))

    pub set_visibility-Stays :
        (v : Visibility) (visible : List ℕ) → KeepsRow (set_visibility house id v visible)
    unfolding set_visibility
    set_visibility-Stays v visible = bind _ _ (lock-Stays house) (λ _.
        bind _ _ (participants-Stays house visible []) (λ _.
          bind _ _ (look (λ s. count_where (of_house house id) s.expenses)) (λ n.
            bind _ _ (refuse (n == 0) expense_not_found) (λ _.
              bind _ _ (update_rows-Stays (λ e. record e { visibility = v }) (λ e h. h)) (λ _.
                bind _ _ (visible_aside (λ s. delete_where (λ v. v.expense_id == id) s.visibility))
                  (λ _. visibility-Stays id visible))))))

  pub update-Stays :
      (e : Expense) (splits : Option (List ExpenseSplit))
      → (e.house_id == x.house_id && e.id == x.id) ≡ false
      → KeepsRow (update_aggregate e splits)
  unfolding update_aggregate validate_splits update_row replace_splits
  update-Stays e splits other = bind _ _ (lock-Stays e.house_id) (λ _.
      bind _ _ (checks splits) (λ _.
        bind _ _
          (bind _ _ (look (λ s. count_where (of_house e.house_id e.id) s.expenses)) (λ n.
            bind _ _ (refuse (not (amount_in_range e.amount_cents) && not (n == 0)) check_violation)
              (λ _.
                bind _ _ (refuse (n == 0) expense_not_found)
                  (λ _. update_rows-Stays e.house_id e.id other (update_fields e) (λ y h. h)))))
          (λ _. replaces splits)))
    where
      checks : (o : Option (List ExpenseSplit)) → KeepsRow (validate_splits e o)
      checks none = nothing
      checks (some ss) =
          bind _ _ (participants-Stays e.house_id [] ss)
            (λ _. lift-Stays (validate_money_amounts e ss))

      replaces : (o : Option (List ExpenseSplit)) → KeepsRow (replace_splits e o)
      replaces none = nothing
      replaces (some ss) =
          bind _ _ (splits_aside (λ s. delete_where (λ p. p.expense_id == e.id) s.splits))
            (λ _. splits-Stays ss)
