-- ===== src/Expenses/Requests/Hidden.antt =====
-- Expenses that a caller may not see, in the requests of src/backend/internal/handlers/expenses.go.
use Prim.Native.String.{String}
use roomies.Base.{
  ℕ, ◌≡◌, ◌∙◌, ◌⊎◌, refl, ap, Bool, true, false, ◌&&◌, ◌||◌, Option, none, List, [], ◌∷◌, contains,
  arith, ◌==◌, ==→eq, Bool-cases, Option-cases, inl, inr,
}
use roomies.Base.Sql.{select_one, count_where}
use roomies.Base.Result.{ok, err}
use roomies.Models.{Expense, ExpenseVisibility, is_shared}
use roomies.Money.{Float64}
use roomies.Expenses.{
  Ledger, is_member, of_house, access_row, visible_expense, list_by_house, shown_to,
}
use roomies.Expenses.Visible.{ids, may_see, listed, check_access-eq}
use roomies.Expenses.Requests.{
  Reply, not_a_member, not_found, SetVisibilityRequest, UpdateExpenseRequest, handle_get,
  handle_list, handle_delete, handle_set_visibility, handle_update,
}
use roomies.Expenses.Requests

-- A row with the identifier that is shared, or that the user paid.
abbrev pub is_open : ℕ → ℕ → Expense → Bool
is_open id user e = e.id == id && (is_shared e.visibility || e.payer_id == user)

abbrev pub is_shown : ℕ → ℕ → ExpenseVisibility → Bool
is_shown id user v = v.expense_id == id && v.user_id == user

not_shown :
    (id user : ℕ) (vs : List ExpenseVisibility)
    → count_where (is_shown id user) vs ≡ 0
    → shown_to id user vs ≡ false
not_shown id user [] h = refl
not_shown id user (v ∷ vs) h = ground (arith, h, not_shown id user vs)

module _ (id user : ℕ) (vs : List ExpenseVisibility) (unseen : shown_to id user vs ≡ false) where
  not_seen :
      (e : Expense) → is_open id user e ≡ false → (e.id == id) ≡ true → may_see user vs e ≡ false
  not_seen e closed same =
      let unshown : shown_to e.id user vs ≡ false =
        ap (λ i. shown_to i user vs) (==→eq e.id id same) ∙ unseen in
      ground (arith, closed, same, unshown)

  unlisted :
      (house : ℕ) (es : List Expense)
      → count_where (is_open id user) es ≡ 0
      → contains (ids (listed house id user vs es)) id ≡ false
  unlisted house [] h = refl
  unlisted house (e ∷ es) h = elim (Bool-cases (e.id == id)) [
    | inl same ↦ ground (arith, not_seen e (ground (arith, h)) same, unlisted house es)
    | inr other ↦ ground (arith, other, unlisted house es)
  ]

hidden_row :
    (house id user : ℕ) (s : Ledger) (es : List Expense)
    → shown_to id user s.visibility ≡ false
    → count_where (is_open id user) es ≡ 0
    → access_row user s (select_one (of_house house id) es) ≡ none
hidden_row house id user s [] unseen h = refl
hidden_row house id user s (e ∷ es) unseen h = elim (Bool-cases (of_house house id e)) [
  | inl here ↦
      let closed =
        not_seen id user s.visibility unseen e (ground (arith, h, here)) (ground (arith, here)) in
      rw here (check_access-eq user s e ∙ ground (arith, closed))
  | inr other ↦ rw other (hidden_row house id user s es unseen (ground (arith, h)))
]

module _ (fl : Float64) (new_id : ℕ → ℕ) (trim_space : String → String) (is_date : String → Bool)
    (house id caller : ℕ) (update : Option (UpdateExpenseRequest fl.F))
    (visibility : Option SetVisibilityRequest) (s : Ledger) where
  -- An expense that is not shown to the caller is kept from it. Where no row with the identifier is
  -- shared or was paid by the caller, and no row of the visibility table shows it to the caller: the
  -- caller's list of the house does not hold the identifier; reading, updating, deleting and showing
  -- it all get the same answer, that of a missing expense or of a missing member; and nothing
  -- changes.
  pub hidden_expense_kept :
      count_where (is_open id caller) s.expenses ≡ 0
      → count_where (is_shown id caller) s.visibility ≡ 0
      → (reply : Reply) × ((reply ≡ not_a_member) ⊎ (reply ≡ not_found))
        × ((handle_list house caller s ≡ err not_a_member)
            ⊎ ((es : List Expense) × (handle_list house caller s ≡ ok (Requests.listed es))
                × (contains (ids es) id ≡ false)))
        × (handle_get house id caller s ≡ err reply)
        × (handle_update fl new_id trim_space is_date house id caller update s ≡ (reply, s))
        × (handle_delete house id caller s ≡ (reply, s))
        × (handle_set_visibility house id caller visibility s ≡ (reply, s))
  unfolding handle_get handle_list handle_update handle_delete handle_set_visibility visible_expense
      list_by_house
  hidden_expense_kept closed unshown =
      let unseen = not_shown id caller s.visibility unshown in
      let hidden : visible_expense house id caller s ≡ none =
        hidden_row house id caller s s.expenses unseen closed in
      elim (Option-cases (select_one (is_member house caller) s.members)) [
        | inl stranger ↦ (
          not_a_member,
          inl refl,
          inl (ground arith),
          ground arith,
          ground arith,
          ground arith,
          ground arith,
        )
        | inr (m, found) ↦ (
          not_found,
          inr refl,
          inr (
            list_by_house house caller s,
            ground arith,
            unlisted id caller s.visibility unseen house s.expenses closed,
          ),
          ground arith,
          ground arith,
          ground arith,
          ground arith,
        )
      ]
