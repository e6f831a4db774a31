-- ===== src/Balances/Clears.antt =====
-- The answer of `GetBalances` (src/backend/internal/handlers/balances.go): its balances and its
-- settlements together.
use Prim.Native.String.{String}
use mathlib.Core.List.{Perm}
use mathlib.Core.Path.{subst₂}
use roomies.Base.{
  ℕ, ◌+◌, ◌<◌, ◌≡◌, refl, Bool, not, List, [], ◌∷◌, map, length, sum_by, All, arith, ◌==◌,
}
use roomies.Base.Int.{ℤ, pos, negsuc, pos_part, neg_part, sub64, wrap64, ◌-ℤ◌, i64_half}
use roomies.Base.Perms.{sum_by-Perm}
use roomies.Base.Result.{ok, >>=-eq-ok, fail_if}
use roomies.Models.{Expense, ExpenseSplit, HouseMember, BalanceEntry, BalanceSettlement}
use roomies.Splits.{active_members}
use roomies.Balances.{
  Sort, not_a_member, no_eligible_member, Accounts, keys, Names, set_name, initial_names,
  initial_accounts, expense_loop, balance_entry, in_cents, participant_less, participants, entries,
  get_balances, calculate_settlements,
}
use roomies.Balances.Settle.{
  credit, debt, credit_of, debt_of, received, IsBounded, sent, calculate_settlements-clears,
}
use roomies.Balances.Totals.{
  IsAccounted, IsStored, volume, set_name-IsAccounted, IsTotal-le, expense_loop-IsAccounted,
}

initial_names-IsAccounted :
    (ms : List HouseMember) (names : Names)
    → IsAccounted (record { paid = λ _. pos 0; owed = λ _. pos 0; names = names }) 0 0
    → IsAccounted
        (record { paid = λ _. pos 0; owed = λ _. pos 0; names = initial_names ms names })
        0
        0
initial_names-IsAccounted [] names h = h
initial_names-IsAccounted (m ∷ ms) names h =
    initial_names-IsAccounted ms (set_name m.user_id m.user_name names)
      (set_name-IsAccounted m.user_id m.user_name h)

initial_accounts-IsAccounted : (ms : List HouseMember) → IsAccounted (initial_accounts ms) 0 0
initial_accounts-IsAccounted ms = initial_names-IsAccounted ms [] (record {
  distinct = tt;
  paid = record { nonneg = λ k. refl; elsewhere = λ k c. refl; total = refl };
  owed = record { nonneg = λ k. refl; elsewhere = λ k c. refl; total = refl };
})

-- Two sums below 2^63 are subtracted exactly.
sub64_parts :
    (a b : ℤ)
    → neg_part a ≡ 0
    → neg_part b ≡ 0
    → pos_part a < i64_half
    → pos_part b < i64_half
    → pos_part (sub64 a b) + pos_part b ≡ neg_part (sub64 a b) + pos_part a
unfolding sub64 wrap64 ◌-ℤ◌
sub64_parts (pos a) (pos b) _ _ h k = ground arith
sub64_parts (pos a) (negsuc b) _ n h k = absurd (omega arith)
sub64_parts (negsuc a) b n _ h k = absurd (omega arith)

sub64_bounds :
    (a b : ℤ)
    → neg_part a ≡ 0
    → neg_part b ≡ 0
    → pos_part a < i64_half
    → pos_part b < i64_half
    → (pos_part (sub64 a b) < i64_half) × (neg_part (sub64 a b) < i64_half)
unfolding sub64 wrap64 ◌-ℤ◌
sub64_bounds (pos a) (pos b) _ _ h k = ground arith
sub64_bounds (pos a) (negsuc b) _ n h k = absurd (omega arith)
sub64_bounds (negsuc a) b n _ h k = absurd (omega arith)

module _ (acc : Accounts) {q : ℕ} (h : IsAccounted acc q q) (small : q < i64_half) where
  net_parts :
      (u : ℕ)
      → credit (in_cents (balance_entry acc u)) + pos_part (acc.owed u)
        ≡ debt (in_cents (balance_entry acc u)) + pos_part (acc.paid u)
  net_parts u =
      sub64_parts (acc.paid u) (acc.owed u) (h.paid.nonneg u) (h.owed.nonneg u)
        (omega (arith, IsTotal-le u h.paid)) (omega (arith, IsTotal-le u h.owed))

  sum-net_parts :
      (us : List ℕ)
      → sum_by credit (map in_cents (map (balance_entry acc) us))
          + sum_by (λ u. pos_part (acc.owed u)) us
        ≡ sum_by debt (map in_cents (map (balance_entry acc) us))
          + sum_by (λ u. pos_part (acc.paid u)) us
  sum-net_parts [] = refl
  sum-net_parts (u ∷ us) = omega (arith, net_parts u, sum-net_parts us)

  net-IsBounded : (u : ℕ) → IsBounded (in_cents (balance_entry acc u))
  net-IsBounded u =
      sub64_bounds (acc.paid u) (acc.owed u) (h.paid.nonneg u) (h.owed.nonneg u)
        (omega (arith, IsTotal-le u h.paid)) (omega (arith, IsTotal-le u h.owed))

  nets-IsBounded : (us : List ℕ) → All IsBounded (map in_cents (map (balance_entry acc) us))
  nets-IsBounded [] = tt
  nets-IsBounded (u ∷ us) = (net-IsBounded u, nets-IsBounded us)

  -- All credits together are all debts together.
  entries_balance :
      (so : Sort) (str_eq name_lt : String → String → Bool)
      → sum_by credit (map in_cents (entries so str_eq name_lt acc))
        ≡ sum_by debt (map in_cents (entries so str_eq name_lt acc))
  entries_balance so str_eq name_lt =
      let us = participants so str_eq name_lt acc in
      let moved : Perm (keys acc.names) us =
        so.sort_slice-perm (participant_less so str_eq name_lt acc.names) (keys acc.names) in
      omega (
        arith,
        sum-net_parts us,
        sum_by-Perm (λ u. pos_part (acc.paid u)) moved,
        sum_by-Perm (λ u. pos_part (acc.owed u)) moved,
        h.paid.total,
        h.owed.total,
      )

-- Of the balances that the handler answers all credits together are all debts together, and its
-- settlements clear them: each user receives exactly the credits, and sends exactly the debts, of
-- the entries under its identifier. The rows are as the table's checks demand (positive amounts,
-- shares of zero or more), and all cents together stay below 2^63.
pub get_balances-clears :
    (so : Sort) (str_eq name_lt : String → String → Bool) (is_member : Bool)
    (members : List HouseMember) (expenses : List Expense) (get_splits : ℕ → List ExpenseSplit)
    {bs : List BalanceEntry} {ss : List BalanceSettlement}
    → All (IsStored get_splits) expenses
    → sum_by (volume get_splits) expenses < i64_half
    → get_balances so str_eq name_lt is_member members expenses get_splits ≡ ok (bs, ss)
    → (u : ℕ)
    → (sum_by credit (map in_cents bs) ≡ sum_by debt (map in_cents bs))
      × (sum_by (received u) ss ≡ sum_by (credit_of u) (map in_cents bs))
      × (sum_by (sent u) ss ≡ sum_by (debt_of u) (map in_cents bs))
unfolding get_balances
get_balances-clears so str_eq name_lt is_member members expenses get_splits {bs} {ss} stored b run
      u =
    let (_, _, past_member) = >>=-eq-ok (fail_if (not is_member) not_a_member) _ run in
    let (_, _, past_count) =
      >>=-eq-ok (fail_if (length (active_members members) == 0) no_eligible_member) _ past_member in
    let start = initial_accounts (active_members members) in
    let (acc, looped, answered) = >>=-eq-ok (expense_loop get_splits start expenses) _ past_count in
    let (q, accounted, small) =
      expense_loop-IsAccounted get_splits expenses {acc = start} {acc' = acc} {p = 0} stored
        (omega arith) (initial_accounts-IsAccounted (active_members members)) looped in
    let es = entries so str_eq name_lt acc in
    let same_entries : es ≡ bs = cc in
    let same_settlements : calculate_settlements so (map in_cents es) ≡ ss = cc in
    let balanced = entries_balance acc accounted small so str_eq name_lt in
    let cleared =
      calculate_settlements-clears so (map in_cents es)
        (nets-IsBounded acc accounted small (participants so str_eq name_lt acc)) balanced u in
    subst₂
      (λ x y.
        (sum_by credit (map in_cents x) ≡ sum_by debt (map in_cents x))
        × (sum_by (received u) y ≡ sum_by (credit_of u) (map in_cents x))
        × (sum_by (sent u) y ≡ sum_by (debt_of u) (map in_cents x)))
      same_entries same_settlements (balanced, cleared.0, cleared.1)
