-- ===== src/Splits.antt =====
-- How an expense is shared out (src/backend/internal/handlers/expenses.go: `validateVisibleUsers`,
-- `buildSplits`, `buildCustomSplits`). `new_id i` is the i-th identifier that `models.NewID` makes.
use roomies.Base.{
  ℕ, zero, suc, ◌+◌, Bool, true, false, not, List, [], ◌∷◌, map, length, contains, if◌then◌else◌,
}
use roomies.Base.Int.{ℤ, pos, ◌+ℤ◌, ltb_ℤ, div_ℤ, mod_ℤ, eqb_ℤ, add64}
use roomies.Base.Sql.{select_where}
use roomies.Base.Result.{Result, ok, err, ◌>>=◌}
use roomies.Models.{HouseMember, ExpenseSplit, SplitEntry, is_monitor}
use roomies.Money.{Float64, money_to_cents}
pub mod Even
pub mod Custom

pub data SplitError : Type 0 where
  empty_split not_eligible duplicate_user bad_amount wrong_total no_eligible_member : SplitError
  not_a_member duplicate_visible : SplitError

abbrev pub user_ids : List HouseMember → List ℕ
user_ids = map (λ m. m.user_id)

-- The members with `Role != "monitor"`.
abbrev pub active_members : List HouseMember → List HouseMember
active_members = select_where (λ m. not (is_monitor m.role))

-- The loop of `validateVisibleUsers`.
visible_loop : List ℕ → List ℕ → List ℕ → Result SplitError (Unit {0})
visible_loop member_set seen [] = ok tt
visible_loop member_set seen (u ∷ us) =
    let rest = visible_loop member_set (u ∷ seen) us in
    if not (contains member_set u)
    then err not_a_member
    else (if contains seen u then err duplicate_visible else rest)

unfoldable pub validate_visible_users : List ℕ → List HouseMember → Result SplitError (Unit {0})
unfolding visible_loop
validate_visible_users ids members = visible_loop (user_ids members) [] ids

-- The body of the loop of `buildSplits` from index `i` on.
even_splits : (ℕ → ℕ) → ℕ → ℤ → ℤ → ℕ → List HouseMember → List ExpenseSplit
even_splits new_id expense_id base remainder i [] = []
even_splits new_id expense_id base remainder i (m ∷ ms) =
    record {
      id = new_id i;
      expense_id = expense_id;
      user_id = m.user_id;
      share_amount_cents = if ltb_ℤ (pos i) remainder then base +ℤ pos 1 else base;
      user_name = "";
    }
    ∷ even_splits new_id expense_id base remainder (suc i) ms

module _ (fl : Float64) (new_id : ℕ → ℕ) (expense_id : ℕ) where
  -- The checks of one requested entry, and its share in cents.
  entry_share : List ℕ → List ℕ → SplitEntry fl.F → Result SplitError ℤ
  entry_share eligible seen e =
      if not (contains eligible e.user_id)
      then err not_eligible
      else (if contains seen e.user_id
          then err duplicate_user
          else elim (money_to_cents fl e.amount) [ err _ ↦ err bad_amount | ok share ↦ ok share ])

  abbrev custom_split : ℕ → SplitEntry fl.F → ℤ → ExpenseSplit
  custom_split i e share = record {
    id = new_id i;
    expense_id = expense_id;
    user_id = e.user_id;
    share_amount_cents = share;
    user_name = "";
  }

  -- The loop of `buildCustomSplits`: the running total, then the splits that are appended.
  custom_loop :
      List ℕ → ℕ → List ℕ → ℤ → List (SplitEntry fl.F) → Result SplitError (ℤ × List ExpenseSplit)
  unfolding entry_share
  custom_loop eligible i seen total [] = ok (total, [])
  custom_loop eligible i seen total (e ∷ es) = do
    share ← entry_share eligible seen e
    r ← custom_loop eligible (suc i) (e.user_id ∷ seen) (add64 total share) es
    ok (r.0, custom_split i e share ∷ r.1)

  unfoldable pub build_custom_splits :
      ℤ → List (SplitEntry fl.F) → List HouseMember → Result SplitError (List ExpenseSplit)
  unfolding custom_loop
  build_custom_splits amount [] members = err empty_split
  build_custom_splits amount (e ∷ es) members = do
    r ← custom_loop (user_ids (active_members members)) 0 [] (pos 0) (e ∷ es)
    if eqb_ℤ r.0 amount then ok r.1 else err wrong_total

  split_evenly : ℤ → List HouseMember → Result SplitError (List ExpenseSplit)
  unfolding even_splits
  split_evenly amount [] = err no_eligible_member
  split_evenly amount (m ∷ ms) =
      let n = length (m ∷ ms) in
      ok (even_splits new_id expense_id (div_ℤ amount n) (mod_ℤ amount n) 0 (m ∷ ms))

  unfoldable pub build_splits :
      ℤ → List (SplitEntry fl.F) → List HouseMember → Result SplitError (List ExpenseSplit)
  unfolding split_evenly
  build_splits amount [] members = split_evenly amount (active_members members)
  build_splits amount (e ∷ es) members = build_custom_splits amount (e ∷ es) members
