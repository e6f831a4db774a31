-- ===== src/Expenses/Stored.antt =====
-- What a created expense leaves in the tables (`CreateAggregate` of
-- src/backend/internal/repository/expenses.go).
use roomies.Base.{
  ℕ, ◌+◌, ◌<◌, ◌≡◌, ◌∙◌, refl, ap, sym, false, ◌&&◌, List, [], ◌∷◌, length, sum_by, arith, ◌==◌,
  if◌then◌else◌, Bool-cases, Option-cases, inl, inr,
}
use roomies.Base.Int.{ℤ, pos, negsuc, pos_part, add64, add64_pos, i64_half, ltb_ℤ, leb_ℤ}
use roomies.Base.Sql.{count_where, select_one}
use roomies.Base.Result.{Result, ok, err}
use roomies.Base.Tx.{>>=-eq-ok}
use roomies.Models.{Expense, ExpenseSplit, is_shared}
use roomies.Splits.Even.{cents}
use roomies.Expenses.{
  Ledger, ExpenseError, total_shares, validate_money_amounts, insert_visibility, insert_splits,
  insert_expense, create_aggregate, lock_house, validate_participants, lift, announce, notify,
  Announcer, off, through, set_splits, set_visible, same_split, share_in_range, amount_in_range,
  check_visible, check_shares, compare_total,
}

-- What a split is worth to the expense `id`.
abbrev pub part : ℕ → ExpenseSplit → ℕ
part id x = if x.expense_id == id then cents x else 0

share_pos : (a : ℤ) → ltb_ℤ a (pos 0) ≡ false → a ≡ pos (pos_part a)
share_pos (pos n) h = refl
share_pos (negsuc n) h = ground arith

total_shares-sum :
    (n : ℕ) (ss : List ExpenseSplit) {t : ℤ}
    → total_shares (pos n) ss ≡ ok t
    → n + sum_by cents ss < i64_half
    → t ≡ pos (n + sum_by cents ss)
unfolding total_shares
total_shares-sum n [] {t} h b = let e : pos n ≡ t = cc in sym e ∙ ap pos (omega arith)
total_shares-sum n (s ∷ ss) {t} h b = elim (Bool-cases (ltb_ℤ s.share_amount_cents (pos 0))) [
  | inl bad ↦ ground arith
  | inr good ↦
      let step : add64 (pos n) s.share_amount_cents ≡ pos (n + cents s) =
        ap (add64 (pos n)) (share_pos s.share_amount_cents good)
        ∙ add64_pos n (cents s) (omega (arith, b)) in
      let rest : total_shares (pos (n + cents s)) ss ≡ ok t =
        ap (λ x. total_shares x ss) (sym step) ∙ ground arith in
      total_shares-sum (n + cents s) ss {t = t} rest (omega (arith, b)) ∙ ap pos (omega arith)
]

compare_total-same :
    (a : ℤ) (r : Result ExpenseError ℤ) → compare_total a r ≡ ok tt → (t : ℤ) × (r ≡ ok t) × (t ≡ a)
compare_total-same a (ok t) h = (t, refl, ground arith)
compare_total-same a (err e) h = cc

validate_money_amounts-sum :
    (e : Expense) (ss : List ExpenseSplit)
    → validate_money_amounts e ss ≡ ok tt
    → sum_by cents ss < i64_half
    → e.amount_cents ≡ pos (sum_by cents ss)
unfolding validate_money_amounts
validate_money_amounts-sum e ss h b = elim (Bool-cases (leb_ℤ e.amount_cents (pos 0))) [
  | inl low ↦ ground arith
  | inr positive ↦ elim (Bool-cases (length ss == 0)) [
    | inl empty ↦ ground arith
    | inr full ↦
        let (t, summed, same) =
          compare_total-same e.amount_cents (total_shares (pos 0) ss) (ground arith) in
        sym same ∙ total_shares-sum 0 ss {t = t} summed (omega (arith, b)) ∙ ap pos (omega arith)
  ]
]

insert_splits-part :
    (id : ℕ) (xs : List ExpenseSplit) (s : Ledger) {t : Ledger}
    → insert_splits xs s ≡ ok (tt, t)
    → (t.expenses ≡ s.expenses)
      × (sum_by (part id) t.splits ≡ sum_by (part id) s.splits + sum_by (part id) xs)
unfolding insert_splits
insert_splits-part id [] s h = ground arith
insert_splits-part id (x ∷ xs) s {t} h =
    elim (Bool-cases (count_where (same_split x) s.splits == 0)) [
      | inr taken ↦ ground arith
      | inl free ↦ elim (Bool-cases (share_in_range x.share_amount_cents)) [
        | inr large ↦ ground arith
        | inl fits ↦
            let s' : Ledger = set_splits (x ∷ s.splits) s in
            let rest = insert_splits-part id xs s' {t = t} (ground arith) in
            (rest.0, rest.1 ∙ omega arith)
      ]
    ]

insert_visibility-keeps :
    (id : ℕ) (us : List ℕ) (s : Ledger) {t : Ledger}
    → insert_visibility id us s ≡ ok (tt, t)
    → (t.expenses ≡ s.expenses) × (t.splits ≡ s.splits)
unfolding insert_visibility
insert_visibility-keeps id [] s h = ground arith
insert_visibility-keeps id (u ∷ us) s {t} h =
    elim (Bool-cases (count_where (λ v. v.expense_id == id && v.user_id == u) s.visibility == 0)) [
      | inr taken ↦ ground arith
      | inl free ↦
          let s' : Ledger =
            set_visible (record { expense_id = id; user_id = u } ∷ s.visibility) s in
          insert_visibility-keeps id us s' {t = t} (ground arith)
    ]

announce-keeps :
    (notifications : Announcer) (e : Expense) (s : Ledger) {t : Ledger}
    → announce notifications e s ≡ ok (tt, t)
    → (t.expenses ≡ s.expenses) × (t.splits ≡ s.splits)
unfolding announce notify
announce-keeps off e s h = ground arith
announce-keeps (through enqueue_tx insert_event) e s h =
    elim (Bool-cases (is_shared e.visibility)) [
      | inr silent ↦ ground arith
      | inl told ↦ elim (Bool-cases (enqueue_tx e s)) [
        | inr lost ↦ ground arith
        | inl queued ↦ elim (Bool-cases (insert_event e s)) [
          | inr lost ↦ ground arith
          | inl stored ↦ ground arith
        ]
      ]
    ]

insert_expense-adds :
    (e : Expense) (s : Ledger) {t : Ledger}
    → insert_expense e s ≡ ok (tt, t)
    → (t.expenses ≡ e ∷ s.expenses) × (t.splits ≡ s.splits)
unfolding insert_expense
insert_expense-adds e s h = elim (Bool-cases (count_where (λ x. x.id == e.id) s.expenses == 0)) [
  | inr taken ↦ ground arith
  | inl free ↦ elim (Bool-cases (amount_in_range e.amount_cents)) [
    | inr large ↦ ground arith
    | inl fits ↦ ground arith
  ]
]

lock_house-keeps : (house : ℕ) (s : Ledger) {t : Ledger} → lock_house house s ≡ ok (tt, t) → t ≡ s
unfolding lock_house
lock_house-keeps house s h = elim (Option-cases (select_one (λ x. x.id == house) s.houses)) [
  | inl gone ↦ ground arith
  | inr (x, there) ↦ ground arith
]

validate_participants-keeps :
    (house : ℕ) (visible : List ℕ) (splits : List ExpenseSplit) (s : Ledger) {t : Ledger}
    → validate_participants house visible splits s ≡ ok (tt, t)
    → t ≡ s
unfolding validate_participants
validate_participants-keeps house visible splits s h =
    elim (Bool-cases (check_visible house s.members visible)) [
      | inr bad ↦ ground arith
      | inl good ↦ elim (Bool-cases (check_shares house s.members splits)) [
        | inr bad ↦ ground arith
        | inl fine ↦ ground arith
      ]
    ]

lift-keeps :
    (r : Result ExpenseError (Unit {0})) (s : Ledger) {t : Ledger}
    → lift r s ≡ ok (tt, t)
    → (r ≡ ok tt) × (t ≡ s)
lift-keeps (ok tt) s h = (refl, ground arith)
lift-keeps (err e) s h = cc

-- A created expense is stored with splits that come to its amount: the row is added to the expenses,
-- the amount is the sum of the splits, and the stored cents of each expense grow by exactly those that
-- were given for it. The shares that were given stay below 2^63 cents together.
pub create_aggregate-stored :
    (notifications : Announcer) (e : Expense) (visible : List ℕ) (splits : List ExpenseSplit)
    (s : Ledger) {t : Ledger}
    → create_aggregate notifications e visible splits s ≡ ok (tt, t)
    → sum_by cents splits < i64_half
    → (id : ℕ)
    → (t.expenses ≡ e ∷ s.expenses)
      × (e.amount_cents ≡ pos (sum_by cents splits))
      × (sum_by (part id) t.splits ≡ sum_by (part id) s.splits + sum_by (part id) splits)
unfolding create_aggregate
create_aggregate-stored notifications e visible splits s {t} h b id =
    let (_, s1, locked, h1) = >>=-eq-ok (lock_house e.house_id) _ s h in
    let (_, s2, checked, h2) =
      >>=-eq-ok (validate_participants e.house_id visible splits) _ s1 h1 in
    let (_, s3, lifted, h3) = >>=-eq-ok (lift (validate_money_amounts e splits)) _ s2 h2 in
    let (_, s4, added, h4) = >>=-eq-ok (insert_expense e) _ s3 h3 in
    let (_, s5, shown, h5) = >>=-eq-ok (insert_visibility e.id visible) _ s4 h4 in
    let (_, s6, split, h6) = >>=-eq-ok (insert_splits splits) _ s5 h5 in
    let start : s3 ≡ s =
      (lift-keeps (validate_money_amounts e splits) s2 {t = s3} lifted).1
      ∙ validate_participants-keeps e.house_id visible splits s1 {t = s2} checked
      ∙ lock_house-keeps e.house_id s {t = s1} locked in
    let amounts = (lift-keeps (validate_money_amounts e splits) s2 {t = s3} lifted).0 in
    let row = insert_expense-adds e s3 {t = s4} added in
    let seen = insert_visibility-keeps e.id visible s4 {t = s5} shown in
    let parts = insert_splits-part id splits s5 {t = s6} split in
    let told = announce-keeps notifications e s6 {t = t} h6 in
    (
      told.0 ∙ parts.0 ∙ seen.0 ∙ row.0 ∙ ap (λ x. e ∷ x.expenses) start,
      validate_money_amounts-sum e splits amounts b,
      ap (sum_by (part id)) told.1
          ∙ parts.1
          ∙ ap (λ x. sum_by (part id) x + sum_by (part id) splits)
              (seen.1 ∙ row.1 ∙ ap (λ x. x.splits) start),
    )
