-- ===== src/Expenses/Visible.antt =====
-- Who may see an expense (`visibleExpense` of src/backend/internal/handlers/expenses.go against
-- `ListByHouse` and `SetVisibility` of src/backend/internal/repository/expenses.go).
use roomies.Base.{
  ℕ, ◌≡◌, ◌∙◌, refl, ap, sym, Bool, false, ◌&&◌, ◌||◌, Option, none, some, List, [], ◌∷◌, map, any,
  contains, Distinct, arith, ◌==◌, ==→eq, ==_refl, if◌then◌else◌, Bool-cases, Option-cases, inl,
  inr,
}
use roomies.Base.Sql.{select_where, select_one, count_where, update_where, delete_where}
use roomies.Base.Result.{ok}
use roomies.Models.{Expense, ExpenseVisibility, Visibility, is_shared}
use roomies.Expenses.{
  Ledger, of_house, shown_to, list_by_house, check_access, access_row, visible_expense,
  insert_visibility, set_visibility, set_visible, set_expenses, check_visible,
}

abbrev pub ids : List Expense → List ℕ
ids = map (λ e. e.id)

abbrev pub may_see : ℕ → List ExpenseVisibility → Expense → Bool
may_see user vs e = is_shared e.visibility || e.payer_id == user || shown_to e.id user vs

any-select :
    (id user : ℕ) (vs : List ExpenseVisibility)
    → any (λ v. v.user_id == user) (select_where (λ v. v.expense_id == id) vs) ≡ shown_to id user vs
any-select id user [] = refl
any-select id user (v ∷ vs) = ground (arith, any-select id user vs)

pub check_access-eq :
    (user : ℕ) (s : Ledger) (e : Expense)
    → check_access user s e ≡ (if may_see user s.visibility e then some e else none)
unfolding check_access
check_access-eq user s e = ground (arith, any-select e.id user s.visibility)

module _ (house id user : ℕ) (vs : List ExpenseVisibility) where
  abbrev pub listed : List Expense → List Expense
  listed = select_where (λ e. e.house_id == house && may_see user vs e)

  absent :
      (es : List Expense)
      → contains (ids es) id ≡ false
      → select_one (λ e. e.id == id) (listed es) ≡ none
  absent [] h = refl
  absent (e ∷ es) h = ground (arith, absent es)

  abbrev seen : Option Expense → Option Expense
  seen none = none
  seen (some e) = if may_see user vs e then some e else none

  seen-select_one :
      (es : List Expense)
      → Distinct (ids es)
      → seen (select_one (of_house house id) es) ≡ select_one (λ e. e.id == id) (listed es)
  seen-select_one [] d = refl
  seen-select_one (e ∷ es) d = elim (Bool-cases (e.id == id)) [
    | inl here ↦
        let gone = absent es (ap (contains (ids es)) (sym (==→eq e.id id here)) ∙ d.0) in
        ground (arith, gone, seen-select_one es d.1)
    | inr other ↦ ground (arith, seen-select_one es d.1)
  ]

-- The single fetch and the list agree on who may see an expense: where the ids of the expenses are
-- distinct, fetching an expense gives the row with that id of the caller's list for the house, and
-- the 404 where the list has none.
pub visible_expense-list_by_house :
    (house id user : ℕ) (s : Ledger)
    → Distinct (ids s.expenses)
    → visible_expense house id user s ≡ select_one (λ e. e.id == id) (list_by_house house user s)
unfolding visible_expense list_by_house
visible_expense-list_by_house house id user s d =
    access-seen (select_one (of_house house id) s.expenses)
    ∙ seen-select_one house id user s.visibility s.expenses d
  where
    access-seen : (o : Option Expense) → access_row user s o ≡ seen house id user s.visibility o
    access-seen none = refl
    access-seen (some e) = check_access-eq user s e

shown-delete :
    (id user : ℕ) (vs : List ExpenseVisibility)
    → shown_to id user (delete_where (λ v. v.expense_id == id) vs) ≡ false
shown-delete id user [] = refl
shown-delete id user (v ∷ vs) = ground (arith, shown-delete id user vs)

shown-insert :
    (id user : ℕ) (us : List ℕ) (s : Ledger) {t : Ledger}
    → insert_visibility id us s ≡ ok (tt, t)
    → (t.expenses ≡ s.expenses)
      × (shown_to id user t.visibility ≡ (contains us user || shown_to id user s.visibility))
unfolding insert_visibility
shown-insert id user [] s h = ground arith
shown-insert id user (u ∷ us) s {t} h =
    elim (Bool-cases (count_where (λ v. v.expense_id == id && v.user_id == u) s.visibility == 0)) [
      | inr taken ↦ ground arith
      | inl free ↦
          let s' : Ledger =
            set_visible (record { expense_id = id; user_id = u } ∷ s.visibility) s in
          let rest = shown-insert id user us s' {t = t} (ground arith) in
          ground (arith, rest, ==_refl id)
    ]

abbrev set_visible_option : Visibility → Option Expense → Option Expense
set_visible_option vis none = none
set_visible_option vis (some e) = some (record e { visibility = vis })

select-update :
    (house id : ℕ) (vis : Visibility) (es : List Expense) {e : Expense}
    → select_one (of_house house id) es ≡ some e
    → select_one
        (of_house house id)
        (update_where (of_house house id) (λ x. record x { visibility = vis }) es)
      ≡ some (record e { visibility = vis })
select-update house id vis [] h = cc
select-update house id vis (x ∷ es) {e} h = elim (Bool-cases (of_house house id x)) [
  | inl here ↦
      let q : ◌≡◌ {A = Option Expense} (some x) (some e) = ground arith in
      let same : (if of_house house id x then record x { visibility = vis } else x)
          ≡ record x { visibility = vis } =
        rw here refl in
      rw same (rw here (ap (set_visible_option vis) q))
  | inr other ↦
      let rest = select-update house id vis es {e = e} (ground arith) in
      let same : (if of_house house id x then record x { visibility = vis } else x) ≡ x =
        rw other refl in
      rw same (rw other rest)
]

-- The tables that `set_visibility` inserts the new rows into.
abbrev cleared : ℕ → ℕ → Visibility → Ledger → Ledger
cleared house id vis s = set_visible (delete_where (λ v. v.expense_id == id) s.visibility) (
    set_expenses (update_where (of_house house id) (λ e. record e { visibility = vis }) s.expenses)
      s)

set_visibility-insert :
    (house id : ℕ) (vis : Visibility) (visible : List ℕ) (s : Ledger) {t : Ledger}
    → set_visibility house id vis visible s ≡ ok (tt, t)
    → insert_visibility id visible (cleared house id vis s) ≡ ok (tt, t)
unfolding set_visibility
set_visibility-insert house id vis visible s {t} h =
    elim (Option-cases (select_one (λ x. x.id == house) s.houses)) [
      | inl gone ↦ ground arith
      | inr (x, there) ↦ elim (Bool-cases (check_visible house s.members visible)) [
        | inr bad ↦ ground arith
        | inl good ↦ elim (Bool-cases (count_where (of_house house id) s.expenses == 0)) [
          | inl missing ↦ ground arith
          | inr present ↦ ground arith
        ]
      ]
    ]

id_of :
    (house id : ℕ) (es : List Expense) {e : Expense}
    → select_one (of_house house id) es ≡ some e
    → e.id ≡ id
id_of house id [] h = cc
id_of house id (x ∷ es) {e} h = elim (Bool-cases (of_house house id x)) [
  | inl here ↦ let q : x ≡ e = ground arith in sym (ap (λ y. y.id) q) ∙ ==→eq x.id id (ground arith)
  | inr other ↦ id_of house id es {e = e} (ground arith)
]

-- Making an expense visible to a list of users, where it succeeds, shows it in its new visibility
-- to everyone if it is shared, and otherwise to its payer and the listed users alone; all others get the
-- 404.
pub set_visibility-visible_expense :
    (house id user : ℕ) (vis : Visibility) (visible : List ℕ) (s t : Ledger) (e : Expense)
    → select_one (of_house house id) s.expenses ≡ some e
    → set_visibility house id vis visible s ≡ ok (tt, t)
    → visible_expense house id user t ≡ (
        if is_shared vis || e.payer_id == user || contains visible user
        then some (record e { visibility = vis })
        else none)
unfolding set_visibility visible_expense
set_visibility-visible_expense house id user vis visible s t e found h =
    let inserted = set_visibility-insert house id vis visible s {t = t} h in
    let shown = shown-insert id user visible (cleared house id vis s) {t = t} inserted in
    let row = select-update house id vis s.expenses {e = e} found in
    let gone = shown-delete id user s.visibility in
    let found' : select_one (of_house house id) t.expenses ≡ some (record e { visibility = vis }) =
      ap (select_one (of_house house id)) shown.0 ∙ row in
    let whose = id_of house id s.expenses {e = e} found in
    let access = check_access-eq user t (record e { visibility = vis }) in
    let listed' : shown_to e.id user t.visibility ≡ contains visible user =
      ap (λ n. shown_to n user t.visibility) whose ∙ ground (arith, shown, gone) in
    ap (access_row user t) found'
    ∙ access
    ∙ ap
        (λ b.
          if is_shared vis || e.payer_id == user || b
          then some (record e { visibility = vis })
          else none)
        listed'
