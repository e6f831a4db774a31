-- ===== src/Examples/Data.antt =====
-- Data that the examples share: a `float64` of hundredths, a sort, and a house with its rows.
use Prim.Native.String.{String}
use mathlib.Core.List.{Permᴰ}
use roomies.Base.{ℕ, ◌+◌, ◌-◌, ◌*◌, ◌/◌, ◌^◌, ◌≤◌, ◌≡◌, refl, false, List, [], ◌∷◌, arith, ltb, leb}
use roomies.Base.Int.{ℤ, pos, negsuc, ◌≤ℤ◌}
use roomies.Models.{HouseMember, Expense, ExpenseSplit, admin, member, monitor, shared}
use roomies.Money.{Float64}
use roomies.Balances.{Sort}

-- A `float64` of hundredths: 1.5 is 150.
abbrev pub distance : ℕ → ℕ → ℕ
distance a b = (a - b) + (b - a)

abbrev pub of_int_part : ℤ → ℕ
of_int_part (pos n) = 100 * n
of_int_part (negsuc n) = 0

abbrev pub round_part : ℕ → ℕ
round_part a = 100 * ((a + 50) / 100)

pub hundredths_nonneg :
    (x n : ℕ)
    → n ≤ 2 ^ 53
    → false ≡ false
    → leb x (100 * 0) ≡ false
    → ltb (100 * n) (round_part (100 * x)) ≡ false
    → pos 0 ≤ℤ pos (round_part (100 * x) / 100)
hundredths_nonneg x n b h k l = ground arith

pub hundredths_le :
    (x n : ℕ)
    → n ≤ 2 ^ 53
    → false ≡ false
    → leb x (100 * 0) ≡ false
    → ltb (100 * n) (round_part (100 * x)) ≡ false
    → pos (round_part (100 * x) / 100) ≤ℤ pos n
hundredths_le x n b h k l = ground arith

abbrev pub hundredths : Float64
hundredths = record {
  F = ℕ;
  is_nan = λ _. false;
  is_inf = λ _. false;
  leb = leb;
  gtb = λ a b. ltb b a;
  times_100 = λ a. 100 * a;
  sub = distance;
  round = round_part;
  abs = λ a. a;
  of_int = of_int_part;
  to_int64 = λ a. pos (a / 100);
  tolerance = 0;
  round_nonneg = hundredths_nonneg;
  round_le = hundredths_le;
}

pub perm_refl : {A : Type 0} (xs : List A) → Permᴰ xs xs
perm_refl [] = Permᴰ.nil
perm_refl (x ∷ xs) = Permᴰ.cons refl (perm_refl xs)

abbrev pub identity_sort : Sort
identity_sort = record { sort_slice = λ _ xs. xs; sort_slice-perm = λ _ xs. ∣ perm_refl xs ∣₁ }

abbrev pub ann : HouseMember
ann = record {
  id = 1;
  house_id = 7;
  user_id = 11;
  role = admin;
  joined_at = 0;
  user_name = "ann";
  user_email = "";
}

abbrev pub bob : HouseMember
bob = record {
  id = 2;
  house_id = 7;
  user_id = 12;
  role = member;
  joined_at = 0;
  user_name = "bob";
  user_email = "";
}

abbrev pub mon : HouseMember
mon = record {
  id = 3;
  house_id = 7;
  user_id = 13;
  role = monitor;
  joined_at = 0;
  user_name = "mon";
  user_email = "";
}

abbrev pub people : List HouseMember
people = ann ∷ bob ∷ mon ∷ []

abbrev pub bill : Expense
bill = record {
  id = 50;
  house_id = 7;
  payer_id = 11;
  amount_cents = pos 1001;
  description = "food";
  category = "home";
  date = "2024-01-02";
  visibility = shared;
  created_at = 5;
  payer_name = "ann";
}

abbrev pub share : ℕ → ℕ → ℕ → String → ExpenseSplit
share i u n name = record {
  id = i;
  expense_id = 50;
  user_id = u;
  share_amount_cents = pos n;
  user_name = name;
}

abbrev pub bill_splits : ℕ → List ExpenseSplit
bill_splits _ = share 60 11 501 "ann" ∷ share 61 12 500 "bob" ∷ []

abbrev pub count_up : ℕ → ℕ
count_up i = 60 + i

abbrev pub keep_body : String → String
keep_body b = b
