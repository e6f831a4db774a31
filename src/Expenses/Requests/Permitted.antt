-- ===== src/Expenses/Requests/Permitted.antt =====
-- What a request on an expense found where a rule of src/backend/internal/handlers/authorization.go let it
-- pass (src/backend/internal/handlers/expenses.go).
use roomies.Base.{
  ℕ, ◌≡◌, ◌∙◌, refl, ap, subst, Bool, true, false, not, ◌&&◌, Option, none, some, List, [], ◌∷◌,
  arith, ◌==◌, ==→eq, Bool-cases, Option-cases, inl, inr,
}
use roomies.Base.Sql.{select_one, count_where}
use roomies.Base.Result.{Result, ok, fail_if, >>=-eq-ok}
use roomies.Models.{HouseMember, Expense, Visibility}
use roomies.Expenses.{Ledger, is_member, of_house, check_access, visible_expense}
use roomies.Expenses.Requests.{
  Reply, SetVisibilityRequest, or_reply, load_house_member, can_mutate_owned_resource,
  can_change_owned_resource_visibility, owned_expense, visibility_plan, not_found, not_a_member,
  forbidden,
}
use roomies.Expenses.Requests.Steady.{IsFound}

abbrev pub Permit : Type 0
Permit = HouseMember → ℕ → ℕ → Bool

-- Some membership of the user in the house of the expense permits it.
abbrev pub is_permitted : Permit → Expense → ℕ → List HouseMember → Bool
is_permitted permit x user ms =
    not (count_where (λ m. is_member x.house_id user m && permit m x.payer_id user) ms == 0)

abbrev pub is_for : Expense → ℕ → ℕ → Bool
is_for x house id = house == x.house_id && id == x.id

pub select_one-holds :
    {A : Type 0} (p : A → Bool) (xs : List A) {a : A} → select_one p xs ≡ some a → p a ≡ true
select_one-holds p [] h = cc
select_one-holds p (y ∷ ys) {a} h = elim (Bool-cases (p y)) [
  | inl hit ↦ let e : y ≡ a = ground (arith, h, hit) in subst (λ z. p z ≡ true) e hit
  | inr miss ↦ select_one-holds p ys {a = a} (ground (arith, h, miss))
]

member_counts :
    (p q : HouseMember → Bool) (ms : List HouseMember) {m : HouseMember}
    → select_one p ms ≡ some m
    → q m ≡ true
    → (count_where (λ n. p n && q n) ms == 0) ≡ false
member_counts p q [] h k = cc
member_counts p q (n ∷ ms) {m} h k = elim (Bool-cases (p n)) [
  | inl hit ↦
      let e : n ≡ m = ground (arith, h, hit) in
      let also : q n ≡ true = ap q e ∙ k in ground (arith, hit, also)
  | inr miss ↦
      let rest = member_counts p q ms {m = m} (ground (arith, h, miss)) k in
      ground (arith, miss, rest)
]

seen_row :
    (house id user : ℕ) (s : Ledger) {e : Expense}
    → visible_expense house id user s ≡ some e
    → select_one (of_house house id) s.expenses ≡ some e
unfolding visible_expense check_access
seen_row house id user s {e} h = elim (Option-cases (select_one (of_house house id) s.expenses)) [
  | inl absent ↦ absurd (ground (arith, h, absent))
  | inr (y, there) ↦ ground (arith, h, there)
]

-- What a request found before its transaction, where the permit let it pass.
pub record Passed (permit : Permit) (house id caller : ℕ) (s : Ledger) (e : Expense) : Type 0 where
  pub member : HouseMember
  pub member_found : select_one (is_member house caller) s.members ≡ some member
  pub row_found : select_one (of_house house id) s.expenses ≡ some e
  pub permitted : permit member e.payer_id caller ≡ true

-- A request that passed is for another expense.
pub Passed-other :
    (permit : Permit) (house id caller : ℕ) (s : Ledger) (x e : Expense)
    → IsFound x s
    → (is_for x house id && is_permitted permit x caller s.members) ≡ false
    → Passed permit house id caller s e
    → is_for x house id ≡ false
Passed-other permit house id caller s x e found barred h = elim (Bool-cases (is_for x house id)) [
  | inr other ↦ other
  | inl hit ↦
      let eh : house ≡ x.house_id = ==→eq house x.house_id (ground (arith, hit)) in
      let ei : id ≡ x.id = ==→eq id x.id (ground (arith, hit)) in
      let row = subst (λ k. select_one (of_house k id) s.expenses ≡ some e) eh h.row_found in
      let row' = subst (λ k. select_one (of_house x.house_id k) s.expenses ≡ some e) ei row in
      let same_row : e ≡ x = cc (row', found) in
      let member =
        subst (λ k. select_one (is_member k caller) s.members ≡ some h.member) eh h.member_found in
      let allowed = subst (λ y. permit h.member y.payer_id caller ≡ true) same_row h.permitted in
      let counted =
        member_counts (is_member x.house_id caller) (λ m. permit m x.payer_id caller) s.members
          {m = h.member} member allowed in
      absurd (ground (arith, hit, barred, counted))
]

pub ok_value : {A : Type 0} {a b : A} → ◌≡◌ {A = Result Reply A} (ok a) (ok b) → a ≡ b
ok_value h = cc

pub or_reply-ok :
    {A : Type 0} (o : Option A) (reply : Reply) {a : A} → or_reply o reply ≡ ok a → o ≡ some a
or_reply-ok none reply h = cc
or_reply-ok (some b) reply h = cc

pass_if : (b : Bool) (reply : Reply) {u : Unit {0}} → fail_if (not b) reply ≡ ok u → b ≡ true
pass_if true reply h = refl
pass_if false reply h = cc

pub owned_expense-Passed :
    (house id caller : ℕ) (s : Ledger) {e : Expense}
    → owned_expense house id caller s ≡ ok e
    → Passed can_mutate_owned_resource house id caller s e
unfolding owned_expense
owned_expense-Passed house id caller s {e} h =
    let (m, loaded, h1) = >>=-eq-ok (load_house_member house caller s) _ h in
    let (y, seen, h2) = >>=-eq-ok (or_reply (visible_expense house id caller s) not_found) _ h1 in
    let (_, passed, h3) =
      >>=-eq-ok (fail_if (not (can_mutate_owned_resource m y.payer_id caller)) forbidden) _ h2 in
    let same_row : y ≡ e = cc in
    subst (Passed can_mutate_owned_resource house id caller s) same_row (record {
      member = m;
      member_found =
          or_reply-ok (select_one (is_member house caller) s.members) not_a_member loaded;
      row_found = seen_row house id caller s (or_reply-ok _ not_found seen);
      permitted = pass_if (can_mutate_owned_resource m y.payer_id caller) forbidden passed;
    })

pub visibility_plan-Passed :
    (house id caller : ℕ) (body : Option SetVisibilityRequest) (s : Ledger)
    {r : Visibility × List ℕ}
    → visibility_plan house id caller body s ≡ ok r
    → (e : Expense) × Passed can_change_owned_resource_visibility house id caller s e
unfolding visibility_plan
visibility_plan-Passed house id caller body s h =
    let (m, loaded, h1) = >>=-eq-ok (load_house_member house caller s) _ h in
    let (y, seen, h2) = >>=-eq-ok (or_reply (visible_expense house id caller s) not_found) _ h1 in
    let (_, passed, h3) =
      >>=-eq-ok (fail_if (not (can_change_owned_resource_visibility m y.payer_id caller)) forbidden)
        _ h2 in
    (
      y,
      record {
        member = m;
        member_found =
            or_reply-ok (select_one (is_member house caller) s.members) not_a_member loaded;
        row_found = seen_row house id caller s (or_reply-ok _ not_found seen);
        permitted =
            pass_if (can_change_owned_resource_visibility m y.payer_id caller) forbidden passed;
      },
    )
