-- ===== src/Balances.antt =====
-- Balances and settlements (src/backend/internal/handlers/balances.go). The maps of the handler are
-- functions (`paid`, `owed`: a missing key reads 0) and an association list (`participantNames`).
-- `sort.Slice`, and the order in which Go walks a map, are the parameter `Sort`.
pub mod Settle
pub mod Totals
pub mod Clears
use Prim.Native.String.{String}
use mathlib.Core.List.{Perm}
use roomies.Base.{
  ℕ, zero, suc, ◌+◌, ◌≡◌, Bool, true, false, not, List, [], ◌∷◌, map, length, ltb, ◌==◌,
  if◌then◌else◌,
}
use roomies.Base.Int.{ℤ, pos, neg64, ltb_ℤ, eqb_ℤ, is_zero, add64, sub64}
use roomies.Base.Sql.{select_where}
use roomies.Base.Result.{Result, ok, err, ◌>>=◌, ◌>>◌, fail_if}
use roomies.Models.{Expense, ExpenseSplit, HouseMember, BalanceEntry, BalanceSettlement}
use roomies.Splits.{active_members}

-- `sort.Slice` rearranges a slice.
pub record Sort : Type 1 where
  pub sort_slice : {A : Type 0} → (A → A → Bool) → List A → List A
  pub sort_slice-perm :
      {A : Type 0} (less : A → A → Bool) (xs : List A) → Perm xs (sort_slice less xs)

pub record BalanceInCents : Type 0 where
  pub user_id : ℕ
  pub user_name : String
  pub net : ℤ

-- The smaller of the credit and the debt.
abbrev pub settled_amount : ℤ → ℤ → ℤ
settled_amount credit debit = let debt = neg64 debit in if ltb_ℤ debt credit then debt else credit

-- `if net == 0 { i++ }`: a settled entry is left behind, any other keeps what is left of its net.
abbrev pub advance : BalanceInCents → ℤ → List BalanceInCents → List BalanceInCents
advance b net rest = if is_zero net then rest else record b { net = net } ∷ rest

-- The loop over `creditors[i:]` and `debtors[j:]`. Each round passes one entry at least, so their
-- number is enough fuel.
pub settle : ℕ → List BalanceInCents → List BalanceInCents → List BalanceSettlement
settle zero cs ds = []
settle (suc f) [] ds = []
settle (suc f) (c ∷ cs) [] = []
settle (suc f) (c ∷ cs) (d ∷ ds) =
    let amount = settled_amount c.net d.net in
    record {
      from_user_id = d.user_id;
      from_user_name = d.user_name;
      to_user_id = c.user_id;
      to_user_name = c.user_name;
      amount = amount;
    }
    ∷ settle f (advance c (sub64 c.net amount) cs) (advance d (add64 d.net amount) ds)

abbrev pub is_creditor : BalanceInCents → Bool
is_creditor b = ltb_ℤ (pos 0) b.net

abbrev pub is_debtor : BalanceInCents → Bool
is_debtor b = ltb_ℤ b.net (pos 0)

module _ (so : Sort) where
  open so use {sort_slice}

  abbrev pub creditors : List BalanceInCents → List BalanceInCents
  creditors bs = sort_slice (λ a b. ltb_ℤ b.net a.net) (select_where is_creditor bs)

  abbrev pub debtors : List BalanceInCents → List BalanceInCents
  debtors bs = sort_slice (λ a b. ltb_ℤ a.net b.net) (select_where is_debtor bs)

  unfoldable pub calculate_settlements : List BalanceInCents → List BalanceSettlement
  unfolding settle
  calculate_settlements bs =
      settle (length (creditors bs) + length (debtors bs)) (creditors bs) (debtors bs)

-- A Go map of `int64` sums.
abbrev pub Sums : Type 0
Sums = ℕ → ℤ

-- `m[k] += v`
abbrev pub add_to : Sums → ℕ → ℤ → Sums
add_to m k v = λ j. if j == k then add64 (m j) v else m j

abbrev pub Names : Type 0
Names = List (ℕ × String)

-- `participantNames[k] = v`
abbrev pub set_name : ℕ → String → Names → Names
set_name k v [] = (k, v) ∷ []
set_name k v (e ∷ m) = if e.0 == k then (k, v) ∷ m else e ∷ set_name k v m

abbrev pub name_of : Names → ℕ → String
name_of [] k = ""
name_of (e ∷ m) k = if e.0 == k then e.1 else name_of m k

abbrev pub keys : Names → List ℕ
keys = map (λ e. e.0)

pub record Accounts : Type 0 where
  pub paid : Sums
  pub owed : Sums
  pub names : Names

pub data BalanceError : Type 0 where
  not_a_member no_eligible_member no_splits unequal_splits : BalanceError

-- `for _, split := range splits`: the accounts and `splitTotal`.
pub split_loop : Accounts → ℤ → List ExpenseSplit → Accounts × ℤ
split_loop acc total [] = (acc, total)
split_loop acc total (s ∷ ss) =
    split_loop
      (record acc {
        names = set_name s.user_id s.user_name acc.names;
        owed = add_to acc.owed s.user_id s.share_amount_cents;
      })
      (add64 total s.share_amount_cents) ss

-- The accounts of one expense, with the handler's two checks of its splits.
pub account_expense : List ExpenseSplit → Accounts → Expense → Result BalanceError Accounts
unfolding split_loop
account_expense splits acc e =
    let paid_acc = record acc {
      names = set_name e.payer_id e.payer_name acc.names;
      paid = add_to acc.paid e.payer_id e.amount_cents;
    } in
    let (acc', total) = split_loop paid_acc (pos 0) splits in
    elim splits [
      | [] ↦ err no_splits
      | _ ∷ _ ↦ if eqb_ℤ total e.amount_cents then ok acc' else err unequal_splits
    ]

-- `for _, expense := range expenses`
pub expense_loop : (ℕ → List ExpenseSplit) → Accounts → List Expense → Result BalanceError Accounts
unfolding account_expense
expense_loop get_splits acc [] = ok acc
expense_loop get_splits acc (e ∷ es) =
    account_expense (get_splits e.id) acc e >>= λ acc'. expense_loop get_splits acc' es

-- The accounts before the first expense: the eligible members with nothing paid and nothing owed.
abbrev pub initial_names : List HouseMember → Names → Names
initial_names [] names = names
initial_names (m ∷ ms) names = initial_names ms (set_name m.user_id m.user_name names)

abbrev pub initial_accounts : List HouseMember → Accounts
initial_accounts ms = record { paid = λ _. pos 0; owed = λ _. pos 0; names = initial_names ms [] }

abbrev pub balance_entry : Accounts → ℕ → BalanceEntry
balance_entry acc u = record {
  user_id = u;
  user_name = name_of acc.names u;
  paid = acc.paid u;
  owed = acc.owed u;
  net = sub64 (acc.paid u) (acc.owed u);
}

abbrev pub in_cents : BalanceEntry → BalanceInCents
in_cents b = record { user_id = b.user_id; user_name = b.user_name; net = b.net }

-- What the handler answers of the final accounts: `name_lt` is Go's `<` on strings.
module _ (so : Sort) (str_eq name_lt : String → String → Bool) where
  open so use {sort_slice}

  abbrev pub participant_less : Names → ℕ → ℕ → Bool
  participant_less names i j =
      if str_eq (name_of names i) (name_of names j)
      then ltb i j
      else name_lt (name_of names i) (name_of names j)

  abbrev pub participants : Accounts → List ℕ
  participants acc = sort_slice (participant_less acc.names) (keys acc.names)

  abbrev pub entries : Accounts → List BalanceEntry
  entries acc = map (balance_entry acc) (participants acc)

  -- `is_member` tells whether the caller is a member of the house; `members`, `expenses` and
  -- `get_splits` are the rows that the repositories answer.
  unfoldable pub get_balances :
      Bool
      → List HouseMember
      → List Expense
      → (ℕ → List ExpenseSplit)
      → Result BalanceError (List BalanceEntry × List BalanceSettlement)
  unfolding expense_loop
  get_balances is_member members expenses get_splits = do
    fail_if (not is_member) not_a_member
    fail_if (length (active_members members) == 0) no_eligible_member
    acc ← expense_loop get_splits (initial_accounts (active_members members)) expenses
    ok (entries acc, calculate_settlements so (map in_cents (entries acc)))
