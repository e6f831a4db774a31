-- ===== src/Money.antt =====
-- Amounts of money: `moneyToCents` of src/backend/internal/handlers/expenses.go over an abstract
-- `float64`, whose operations and documented laws are the record `Float64`.
use roomies.Base.{ℕ, ◌≤◌, ◌^◌, ◌≡◌, Bool, false, ◌||◌, arith, if◌then◌else◌}
use roomies.Base.Int.{ℤ, pos, ◌≤ℤ◌}
use roomies.Base.Result.{Result, ok, err}

pub data MoneyError : Type 0 where
  not_positive too_precise too_large : MoneyError

-- Go's `float64` and the functions of package `math` that the code calls.
pub record Float64 : Type 1 where
  pub F : Type 0
  pub is_nan : F → Bool
  pub is_inf : F → Bool
  -- `a <= b` and `a > b`: both are false when a NaN stands on either side.
  pub leb : F → F → Bool
  pub gtb : F → F → Bool
  pub times_100 : F → F
  pub sub : F → F → F
  pub round : F → F
  pub abs : F → F
  pub of_int : ℤ → F
  pub to_int64 : F → ℤ
  -- the literal 0.000001
  pub tolerance : F
  -- An integer up to 2^53 is exact. A rounded number that is not above it, of an argument that is
  -- positive, converts to an integer that is not above it and not negative.
  pub round_nonneg :
      (x : F) (n : ℕ)
      → n ≤ 2 ^ 53
      → is_nan x ≡ false
      → leb x (of_int (pos 0)) ≡ false
      → gtb (round (times_100 x)) (of_int (pos n)) ≡ false
      → pos 0 ≤ℤ to_int64 (round (times_100 x))
  pub round_le :
      (x : F) (n : ℕ)
      → n ≤ 2 ^ 53
      → is_nan x ≡ false
      → leb x (of_int (pos 0)) ≡ false
      → gtb (round (times_100 x)) (of_int (pos n)) ≡ false
      → to_int64 (round (times_100 x)) ≤ℤ pos n

abbrev pub max_money_cents : ℤ
max_money_cents = pos 9999999999

module _ (fl : Float64) where
  open fl use {F, is_nan, is_inf, leb, gtb, times_100, sub, round, abs, of_int, to_int64, tolerance}

  unfoldable pub money_to_cents : F → Result MoneyError ℤ
  money_to_cents amount =
      let scaled = times_100 amount in
      let rounded = round scaled in
      if is_nan amount || is_inf amount || leb amount (of_int (pos 0))
      then err not_positive
      else (if gtb (abs (sub scaled rounded)) tolerance
          then err too_precise
          else (if gtb rounded (of_int max_money_cents)
              then err too_large
              else ok (to_int64 rounded)))

  -- An amount that is accepted lies between 0 and the supported maximum.
  pub money_to_cents_bounds :
      (x : F) {c : ℤ} → money_to_cents x ≡ ok c → (pos 0 ≤ℤ c) × (c ≤ℤ max_money_cents)
  unfolding money_to_cents
  money_to_cents_bounds x h = ground (arith, fl.round_nonneg x 9999999999, fl.round_le x 9999999999)
