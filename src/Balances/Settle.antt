-- ===== src/Balances/Settle.antt =====
-- What the settlements of `calculateSettlements` (src/backend/internal/handlers/balances.go) give each
-- user.
use mathlib.Core.List.{Perm}
use native.Mathlib.Nat.{ℕ_set}
use native.Mathlib.Bridge.{le_prop}
use roomies.Base.Perms.{sum_by-Perm, length-Perm, All-Perm}
use roomies.Base.{
  ℕ, zero, suc, ◌+◌, ◌-◌, ◌≤◌, ◌<◌, ◌≡◌, refl, ◌⊎◌, ◌∙◌, sym, true, List, [], ◌∷◌, length, sum_by,
  All, arith, ◌==◌, if◌then◌else◌, inl, inr,
}
use roomies.Base.Int.{
  ℤ, pos_part, neg_part, ◌+ℤ◌, ◌-ℤ◌, neg, add64, sub64, neg64, wrap64, i64_half, is_zero, ltb_ℤ,
}
use roomies.Base.Sql.{select_where}
use roomies.Models.{BalanceSettlement}
use roomies.Balances.{
  BalanceInCents, Sort, settled_amount, advance, settle, is_creditor, is_debtor, creditors, debtors,
  calculate_settlements,
}

abbrev pub credit : BalanceInCents → ℕ
credit b = pos_part b.net

abbrev pub debt : BalanceInCents → ℕ
debt b = neg_part b.net

-- What the entries of user `u` are owed, and what they owe.
abbrev pub credit_of : ℕ → BalanceInCents → ℕ
credit_of u b = if b.user_id == u then credit b else 0

abbrev pub debt_of : ℕ → BalanceInCents → ℕ
debt_of u b = if b.user_id == u then debt b else 0

-- What user `u` gets and pays by a settlement.
abbrev pub received : ℕ → BalanceSettlement → ℕ
received u s = if s.to_user_id == u then pos_part s.amount else 0

abbrev pub sent : ℕ → BalanceSettlement → ℕ
sent u s = if s.from_user_id == u then pos_part s.amount else 0

-- The net lies in the range of `int64`, and is not its least value.
abbrev pub IsBounded : BalanceInCents → Type 0
IsBounded b = (credit b < i64_half) × (debt b < i64_half)

abbrev InCredit : BalanceInCents → Type 0
InCredit b = (0 < credit b) × (credit b < i64_half) × (debt b ≡ 0)

abbrev InDebt : BalanceInCents → Type 0
InDebt b = (0 < debt b) × (debt b < i64_half) × (credit b ≡ 0)

-- One round: the amount is positive and at most both nets, and one of the two is settled by it.
record Round (c d : ℤ) : Type 0 where
  positive : (0 < pos_part (settled_amount c d)) × (neg_part (settled_amount c d) ≡ 0)
  from_credit : pos_part (sub64 c (settled_amount c d)) + pos_part (settled_amount c d) ≡ pos_part c
  no_debt : neg_part (sub64 c (settled_amount c d)) ≡ 0
  from_debt : neg_part (add64 d (settled_amount c d)) + pos_part (settled_amount c d) ≡ neg_part d
  no_credit : pos_part (add64 d (settled_amount c d)) ≡ 0
  one_settled :
      (is_zero (sub64 c (settled_amount c d)) ≡ true)
      ⊎ (is_zero (add64 d (settled_amount c d)) ≡ true)

round :
    (c d : ℤ)
    → 0 < pos_part c
    → pos_part c < i64_half
    → 0 < neg_part d
    → neg_part d < i64_half
    → Round c d
unfolding ◌+ℤ◌ ◌-ℤ◌ neg add64 sub64 neg64 wrap64
round c d p p' q q' = ground arith

-- An entry that is left behind has nothing left, so `advance` keeps every sum.
sum-advance-credit :
    (b : BalanceInCents) (net : ℤ) (rest : List BalanceInCents)
    → sum_by credit (advance b net rest) ≡ pos_part net + sum_by credit rest
sum-advance-credit b net rest = ground arith

sum-advance-debt :
    (b : BalanceInCents) (net : ℤ) (rest : List BalanceInCents)
    → sum_by debt (advance b net rest) ≡ neg_part net + sum_by debt rest
sum-advance-debt b net rest = ground arith

advance-credit_of :
    (u : ℕ) (b : BalanceInCents) (net : ℤ) (rest : List BalanceInCents)
    → sum_by (credit_of u) (advance b net rest)
      ≡ (if b.user_id == u then pos_part net else 0) + sum_by (credit_of u) rest
advance-credit_of u b net rest = ground arith

advance-debt_of :
    (u : ℕ) (b : BalanceInCents) (net : ℤ) (rest : List BalanceInCents)
    → sum_by (debt_of u) (advance b net rest)
      ≡ (if b.user_id == u then neg_part net else 0) + sum_by (debt_of u) rest
advance-debt_of u b net rest = ground arith

advance-InCredit :
    (b : BalanceInCents) (net : ℤ) (rest : List BalanceInCents)
    → neg_part net ≡ 0
    → pos_part net < i64_half
    → All InCredit rest
    → All InCredit (advance b net rest)
advance-InCredit b net rest z k h = ground arith

advance-InDebt :
    (b : BalanceInCents) (net : ℤ) (rest : List BalanceInCents)
    → pos_part net ≡ 0
    → neg_part net < i64_half
    → All InDebt rest
    → All InDebt (advance b net rest)
advance-InDebt b net rest z k h = ground arith

length-advance :
    (b : BalanceInCents) (net : ℤ) (rest : List BalanceInCents)
    → (length (advance b net rest) ≤ suc (length rest))
      × (is_zero net ≡ true → length (advance b net rest) ≡ length rest)
length-advance b net rest = ground arith

no_debts : (ds : List BalanceInCents) → All InDebt ds → sum_by debt ds ≡ 0 → ds ≡ []
no_debts [] h e = refl
no_debts (d ∷ ds) h e = absurd (omega arith)

no_credits : (cs : List BalanceInCents) → All InCredit cs → sum_by credit cs ≡ 0 → cs ≡ []
no_credits [] h e = refl
no_credits (c ∷ cs) h e = absurd (omega arith)

-- The two lists that a round leaves are shorter, together, than those it began with.
round_shrinks :
    (c d : BalanceInCents) (x y : ℤ) (cs ds : List BalanceInCents)
    → (is_zero x ≡ true) ⊎ (is_zero y ≡ true)
    → length (advance c x cs) + length (advance d y ds) ≤ suc (length cs + length ds)
round_shrinks c d x y cs ds (inl p) =
    omega (arith, (length-advance c x cs).1 p, length-advance d y ds)
round_shrinks c d x y cs ds (inr q) =
    omega (arith, length-advance c x cs, (length-advance d y ds).1 q)

settle_clears :
    (u f : ℕ) (cs ds : List BalanceInCents)
    → length cs + length ds ≤ f
    → All InCredit cs
    → All InDebt ds
    → sum_by credit cs ≡ sum_by debt ds
    → (sum_by (received u) (settle f cs ds) ≡ sum_by (credit_of u) cs)
      × (sum_by (sent u) (settle f cs ds) ≡ sum_by (debt_of u) ds)
unfolding settle
settle_clears u zero [] [] b hc hd e = (refl, refl)
settle_clears u zero [] (d ∷ ds) b hc hd e = absurd (omega arith)
settle_clears u zero (c ∷ cs) ds b hc hd e = absurd (omega arith)
settle_clears u (suc f) [] ds b hc hd e = rw (no_debts ds hd (sym e)) (refl, refl)
settle_clears u (suc f) (c ∷ cs) [] b hc hd e = absurd (omega arith)
settle_clears u (suc f) (c ∷ cs) (d ∷ ds) b hc hd e =
    let a = settled_amount c.net d.net in
    let cs' = advance c (sub64 c.net a) cs in
    let ds' = advance d (add64 d.net a) ds in
    let r = round c.net d.net hc.0.0 hc.0.1 hd.0.0 hd.0.1 in
    let shorter = round_shrinks c d (sub64 c.net a) (add64 d.net a) cs ds r.one_settled in
    let (got, paid) =
      settle_clears u f cs' ds' (omega (arith, shorter))
        (advance-InCredit c (sub64 c.net a) cs r.no_debt (omega (arith, r.from_credit)) hc.1)
        (advance-InDebt d (add64 d.net a) ds r.no_credit (omega (arith, r.from_debt)) hd.1)
        (omega (
          arith,
          sum-advance-credit c (sub64 c.net a) cs,
          sum-advance-debt d (add64 d.net a) ds,
          r.from_credit,
          r.from_debt,
        )) in
    (
      ground (arith, got, advance-credit_of u c (sub64 c.net a) cs, r.from_credit),
      ground (arith, paid, advance-debt_of u d (add64 d.net a) ds, r.from_debt),
    )

-- Every payment is of a positive amount.
abbrev pub IsPayment : BalanceSettlement → Type 0
IsPayment s = (0 < pos_part s.amount) × (neg_part s.amount ≡ 0)

settle_payments :
    (f : ℕ) (cs ds : List BalanceInCents)
    → All InCredit cs
    → All InDebt ds
    → All IsPayment (settle f cs ds) × (length (settle f cs ds) ≤ length cs + length ds - 1)
unfolding settle
settle_payments zero cs ds hc hd = (tt, omega arith)
settle_payments (suc f) [] ds hc hd = (tt, omega arith)
settle_payments (suc f) (c ∷ cs) [] hc hd = (tt, omega arith)
settle_payments (suc f) (c ∷ cs) (d ∷ ds) hc hd =
    let a = settled_amount c.net d.net in
    let r = round c.net d.net hc.0.0 hc.0.1 hd.0.0 hd.0.1 in
    let (payments, few) =
      settle_payments f (advance c (sub64 c.net a) cs) (advance d (add64 d.net a) ds)
        (advance-InCredit c (sub64 c.net a) cs r.no_debt (omega (arith, r.from_credit)) hc.1)
        (advance-InDebt d (add64 d.net a) ds r.no_credit (omega (arith, r.from_debt)) hd.1) in
    (
      (r.positive, payments),
      omega (arith, few, round_shrinks c d (sub64 c.net a) (add64 d.net a) cs ds r.one_settled),
    )

select_creditors :
    (bs : List BalanceInCents) → All IsBounded bs → All InCredit (select_where is_creditor bs)
select_creditors [] h = tt
select_creditors (b ∷ bs) h = ground (arith, select_creditors bs h.1)

select_debtors :
    (bs : List BalanceInCents) → All IsBounded bs → All InDebt (select_where is_debtor bs)
select_debtors [] h = tt
select_debtors (b ∷ bs) h = ground (arith, select_debtors bs h.1)

-- Selecting the creditors loses no credit, since everybody else has none.
sum-creditors :
    (f : BalanceInCents → ℕ) (bs : List BalanceInCents)
    → ((b : BalanceInCents) → credit b ≡ 0 → f b ≡ 0)
    → sum_by f (select_where is_creditor bs) ≡ sum_by f bs
sum-creditors f [] h = refl
sum-creditors f (b ∷ bs) h = ground (arith, sum-creditors f bs h, h b)

sum-debtors :
    (f : BalanceInCents → ℕ) (bs : List BalanceInCents)
    → ((b : BalanceInCents) → debt b ≡ 0 → f b ≡ 0)
    → sum_by f (select_where is_debtor bs) ≡ sum_by f bs
sum-debtors f [] h = refl
sum-debtors f (b ∷ bs) h = ground (arith, sum-debtors f bs h, h b)

length-select :
    (bs : List BalanceInCents)
    → length (select_where is_creditor bs) + length (select_where is_debtor bs) ≤ length bs
length-select [] = omega arith
length-select (b ∷ bs) = ground (arith, length-select bs)

module _ (so : Sort) (bs : List BalanceInCents) where
  creditors-perm : Perm (select_where is_creditor bs) (creditors so bs)
  creditors-perm = so.sort_slice-perm (λ a b. ltb_ℤ b.net a.net) (select_where is_creditor bs)

  debtors-perm : Perm (select_where is_debtor bs) (debtors so bs)
  debtors-perm = so.sort_slice-perm (λ a b. ltb_ℤ a.net b.net) (select_where is_debtor bs)

  creditors-InCredit : All IsBounded bs → All InCredit (creditors so bs)
  creditors-InCredit h =
      All-Perm InCredit (λ b. hlevel (le_prop, ℕ_set)) creditors-perm (select_creditors bs h)

  debtors-InDebt : All IsBounded bs → All InDebt (debtors so bs)
  debtors-InDebt h =
      All-Perm InDebt (λ b. hlevel (le_prop, ℕ_set)) debtors-perm (select_debtors bs h)

  sum-creditors_sorted :
      (f : BalanceInCents → ℕ)
      → ((b : BalanceInCents) → credit b ≡ 0 → f b ≡ 0)
      → sum_by f (creditors so bs) ≡ sum_by f bs
  sum-creditors_sorted f h = sym (sum_by-Perm f creditors-perm) ∙ sum-creditors f bs h

  sum-debtors_sorted :
      (f : BalanceInCents → ℕ)
      → ((b : BalanceInCents) → debt b ≡ 0 → f b ≡ 0)
      → sum_by f (debtors so bs) ≡ sum_by f bs
  sum-debtors_sorted f h = sym (sum_by-Perm f debtors-perm) ∙ sum-debtors f bs h

-- Where each net lies strictly between -2^63 and 2^63, and the credits and the debts of a house balance, the settlements clear them all: each user
-- receives what its entries are owed, and pays what they owe, in whatever order the sort leaves
-- entries of equal net.
pub calculate_settlements-clears :
    (so : Sort) (bs : List BalanceInCents)
    → All IsBounded bs
    → sum_by credit bs ≡ sum_by debt bs
    → (u : ℕ)
    → (sum_by (received u) (calculate_settlements so bs) ≡ sum_by (credit_of u) bs)
      × (sum_by (sent u) (calculate_settlements so bs) ≡ sum_by (debt_of u) bs)
unfolding calculate_settlements
calculate_settlements-clears so bs h e u =
    let (got, paid) =
      settle_clears u (length (creditors so bs) + length (debtors so bs)) (creditors so bs)
        (debtors so bs) (omega arith) (creditors-InCredit so bs h) (debtors-InDebt so bs h)
        (sum-creditors_sorted so bs credit (λ b z. z)
          ∙ e
          ∙ sym (sum-debtors_sorted so bs debt (λ b z. z))) in
    (
      got ∙ sum-creditors_sorted so bs (credit_of u) (λ b z. ground arith),
      paid ∙ sum-debtors_sorted so bs (debt_of u) (λ b z. ground arith),
    )

-- Where each net lies strictly between -2^63 and 2^63, every settlement moves a positive amount, and there are fewer of them than of the balances, or none of
-- either.
pub calculate_settlements_payments :
    (so : Sort) (bs : List BalanceInCents)
    → All IsBounded bs
    → All IsPayment (calculate_settlements so bs)
      × (length (calculate_settlements so bs) ≤ length bs - 1)
unfolding calculate_settlements
calculate_settlements_payments so bs h =
    let (payments, few) =
      settle_payments (length (creditors so bs) + length (debtors so bs)) (creditors so bs)
        (debtors so bs) (creditors-InCredit so bs h) (debtors-InDebt so bs h) in
    (
      payments,
      omega (
        arith,
        few,
        length-Perm (creditors-perm so bs),
        length-Perm (debtors-perm so bs),
        length-select bs,
      ),
    )
