-- ===== src/Balances/Totals.antt =====
-- The accounts of a house balance (`GetBalances` of src/backend/internal/handlers/balances.go): the
-- totals of what was paid and what is owed.
use Prim.Native.String.{String}
use mathlib.Core.Path.{subst₂}
use roomies.Base.{
  ℕ, ◌+◌, ◌≤◌, ◌<◌, ◌≡◌, refl, ap, sym, subst, ◌∙◌, true, false, List, [], ◌∷◌, sum_by, All,
  contains, Distinct, arith, ◌==◌, if◌then◌else◌, Bool-cases, ==→eq, inl, inr,
}
use roomies.Base.Int.{ℤ, pos, negsuc, pos_part, neg_part, add64, add64_pos, i64_half, eqb_ℤ, ◌≤ℤ◌}
use roomies.Models.{Expense, ExpenseSplit}
use roomies.Balances.{
  Sums, add_to, Names, set_name, keys, Accounts, split_loop, account_expense, expense_loop,
}
use roomies.Base.Result.{ok, >>=-eq-ok}
use roomies.Splits.Even.{cents}
use native.Mathlib.Nat.{add-zero, add_assoc}

-- A map of sums over the distinct keys `ks` that come to `total`, with nothing elsewhere.
pub record IsTotal (m : Sums) (ks : List ℕ) (t : ℕ) : Type 0 where
  pub nonneg : (k : ℕ) → neg_part (m k) ≡ 0
  pub elsewhere : (k : ℕ) → contains ks k ≡ false → m k ≡ pos 0
  pub total : sum_by (λ k. pos_part (m k)) ks ≡ t

contains-set_name :
    (k j : ℕ) (v : String) (m : Names)
    → contains (keys (set_name k v m)) j ≡ (if k == j then true else contains (keys m) j)
contains-set_name k j v [] = ground arith
contains-set_name k j v (e ∷ m) = ground (arith, contains-set_name k j v m)

Distinct-set_name :
    (k : ℕ) (v : String) (m : Names) → Distinct (keys m) → Distinct (keys (set_name k v m))
Distinct-set_name k v [] d = (refl, tt)
Distinct-set_name k v (e ∷ m) d =
    ground (arith, Distinct-set_name k v m d.1, contains-set_name k e.0 v m)

sum-set_name :
    (f : ℕ → ℕ) (k : ℕ) (v : String) (m : Names)
    → (contains (keys m) k ≡ false → f k ≡ 0)
    → sum_by f (keys (set_name k v m)) ≡ sum_by f (keys m)
sum-set_name f k v [] h = ground arith
sum-set_name f k v (e ∷ m) h = elim (Bool-cases (e.0 == k)) [
  | inl same ↦ rw same (ground arith)
  | inr other ↦ rw other (omega (arith, sum-set_name f k v m (λ c. h (rw other c))))
]

-- An addition at a key that is not there changes no sum.
sum-add_elsewhere :
    (m : Sums) (k : ℕ) (x : ℤ) (ks : List ℕ)
    → contains ks k ≡ false
    → sum_by (λ j. pos_part (add_to m k x j)) ks ≡ sum_by (λ j. pos_part (m j)) ks
sum-add_elsewhere m k x [] h = refl
sum-add_elsewhere m k x (j ∷ ks) h = ground (arith, sum-add_elsewhere m k x ks)

sum-add_to :
    (m : Sums) (k n : ℕ) (ks : List ℕ)
    → Distinct ks
    → contains ks k ≡ true
    → add64 (m k) (pos n) ≡ pos (pos_part (m k) + n)
    → sum_by (λ j. pos_part (add_to m k (pos n) j)) ks ≡ sum_by (λ j. pos_part (m j)) ks + n
sum-add_to m k n [] d c e = cc
sum-add_to m k n (j ∷ ks) d c e = elim (Bool-cases (j == k)) [
  | inl same ↦ ground (arith, sum-add_elsewhere m k (pos n) ks)
  | inr other ↦ ground (arith, sum-add_to m k n ks d.1)
]

add64_part :
    (z : ℤ) (n : ℕ)
    → neg_part z ≡ 0
    → pos_part z + n < i64_half
    → add64 z (pos n) ≡ pos (pos_part z + n)
add64_part (pos a) n h b = add64_pos a n b
add64_part (negsuc a) n h b = absurd (omega arith)

-- A sum over the keys bounds each of its terms.
le-sum : (f : ℕ → ℕ) (k : ℕ) (ks : List ℕ) → contains ks k ≡ true → f k ≤ sum_by f ks
le-sum f k [] c = cc
le-sum f k (j ∷ ks) c = ground (arith, le-sum f k ks)

IsTotal-set_name :
    {m : Sums} {t : ℕ} (k : ℕ) (v : String) (names : Names)
    → IsTotal m (keys names) t
    → IsTotal m (keys (set_name k v names)) t
IsTotal-set_name {m} {t} k v names h = record {
  nonneg = h.nonneg;
  elsewhere = λ j c. h.elsewhere j (ground (arith, contains-set_name k j v names));
  total = sum-set_name (λ j. pos_part (m j)) k v names (λ c. rw (h.elsewhere k c)) ∙ h.total;
}

IsTotal-add_to :
    {m : Sums} {ks : List ℕ} {t : ℕ} (k n : ℕ)
    → Distinct ks
    → contains ks k ≡ true
    → t + n < i64_half
    → IsTotal m ks t
    → IsTotal (add_to m k (pos n)) ks (t + n)
IsTotal-add_to {m} {ks} {t} k n d c b h =
    let small = le-sum (λ j. pos_part (m j)) k ks c in
    let exact = add64_part (m k) n (h.nonneg k) (omega (arith, h.total, small)) in
    record {
      nonneg = λ j. elim (Bool-cases (j == k)) [
        | inl same ↦ ground (arith, exact, ap m (==→eq j k same))
        | inr other ↦ ground (arith, h.nonneg j)
      ];
      elsewhere = λ j out. elim (Bool-cases (j == k)) [
        | inl same ↦ absurd (ground (arith, ap (contains ks) (==→eq j k same)))
        | inr other ↦ ground (arith, h.elsewhere j)
      ];
      total = omega (arith, sum-add_to m k n ks d c exact, h.total);
    }

-- Accounts in which `p` was paid and `o` is owed in total.
pub record IsAccounted (acc : Accounts) (p o : ℕ) : Type 0 where
  pub distinct : Distinct (keys acc.names)
  pub paid : IsTotal acc.paid (keys acc.names) p
  pub owed : IsTotal acc.owed (keys acc.names) o

named : (k : ℕ) (v : String) (m : Names) → contains (keys (set_name k v m)) k ≡ true
named k v m = ground (arith, contains-set_name k k v m)

pub set_name-IsAccounted :
    {acc : Accounts} {p o : ℕ} (k : ℕ) (v : String)
    → IsAccounted acc p o
    → IsAccounted (record acc { names = set_name k v acc.names }) p o
set_name-IsAccounted {acc} k v h = record {
  distinct = Distinct-set_name k v acc.names h.distinct;
  paid = IsTotal-set_name k v acc.names h.paid;
  owed = IsTotal-set_name k v acc.names h.owed;
}

-- No sum of the map is above the total.
pub IsTotal-le : {m : Sums} {ks : List ℕ} {t : ℕ} (k : ℕ) → IsTotal m ks t → pos_part (m k) ≤ t
IsTotal-le {m} {ks} {t} k h = elim (Bool-cases (contains ks k)) [
  | inl inside ↦ omega (arith, h.total, le-sum (λ j. pos_part (m j)) k ks inside)
  | inr outside ↦ omega (arith, ap pos_part (h.elsewhere k outside))
]

owe-IsAccounted :
    {acc : Accounts} {p o : ℕ} (k n : ℕ) (v : String)
    → o + n < i64_half
    → IsAccounted acc p o
    → IsAccounted
        (record acc { names = set_name k v acc.names; owed = add_to acc.owed k (pos n) })
        p
        (o + n)
owe-IsAccounted {acc} k n v b h =
    let d = Distinct-set_name k v acc.names h.distinct in
    record {
      distinct = d;
      paid = IsTotal-set_name k v acc.names h.paid;
      owed = IsTotal-add_to k n d (named k v acc.names) b (IsTotal-set_name k v acc.names h.owed);
    }

pay-IsAccounted :
    {acc : Accounts} {p o : ℕ} (k n : ℕ) (v : String)
    → p + n < i64_half
    → IsAccounted acc p o
    → IsAccounted
        (record acc { names = set_name k v acc.names; paid = add_to acc.paid k (pos n) })
        (p + n)
        o
pay-IsAccounted {acc} k n v b h =
    let d = Distinct-set_name k v acc.names h.distinct in
    record {
      distinct = d;
      paid = IsTotal-add_to k n d (named k v acc.names) b (IsTotal-set_name k v acc.names h.paid);
      owed = IsTotal-set_name k v acc.names h.owed;
    }

-- CHECK(share_amount_cents >= 0)
abbrev pub IsShare : ExpenseSplit → Type 0
IsShare s = pos 0 ≤ℤ s.share_amount_cents

pos-part : (z : ℤ) → pos 0 ≤ℤ z → z ≡ pos (pos_part z)
pos-part (pos n) h = refl
pos-part (negsuc n) h = absurd (omega arith)

split_step :
    (s : ExpenseSplit) (ss : List ExpenseSplit) (acc : Accounts) (t : ℕ)
    → IsShare s
    → t + cents s < i64_half
    → split_loop acc (pos t) (s ∷ ss)
      ≡ split_loop
          (record acc {
            names = set_name s.user_id s.user_name acc.names;
            owed = add_to acc.owed s.user_id (pos (cents s));
          })
          (pos (t + cents s))
          ss
unfolding split_loop
split_step s ss acc t h b =
    let after = λ (x y : ℤ).
      split_loop
        (record acc {
          names = set_name s.user_id s.user_name acc.names;
          owed = add_to acc.owed s.user_id x;
        })
        y ss in
    (λ i.
      after (pos-part s.share_amount_cents h i) (add64 (pos t) (pos-part s.share_amount_cents h i)))
    ∙ ap (after (pos (cents s))) (add64_pos t (cents s) b)

split_loop-IsAccounted :
    (ss : List ExpenseSplit) {acc : Accounts} {p o : ℕ} (t : ℕ)
    → All IsShare ss
    → t + sum_by cents ss < i64_half
    → o + sum_by cents ss < i64_half
    → IsAccounted acc p o
    → IsAccounted (split_loop acc (pos t) ss).0 p (o + sum_by cents ss)
      × ((split_loop acc (pos t) ss).1 ≡ pos (t + sum_by cents ss))
unfolding split_loop
split_loop-IsAccounted [] {acc} {p} {o} t hs b b' h = (rw add-zero h, ap pos (omega arith))
split_loop-IsAccounted (s ∷ ss) {acc} {p} {o} t hs b b' h =
    let n = cents s in
    let acc' : Accounts = record acc {
      names = set_name s.user_id s.user_name acc.names;
      owed = add_to acc.owed s.user_id (pos n);
    } in
    let (accounted, total) =
      split_loop-IsAccounted ss {acc = acc'} {p = p} {o = o + n} (t + n) hs.1 (omega arith)
        (omega arith) (owe-IsAccounted s.user_id n s.user_name (omega arith) h) in
    rw (split_step s ss acc t hs.0 (omega arith), ← add_assoc) (accounted, rw (← add_assoc) total)

-- The rows of an expense as the table holds them: CHECK(amount_cents > 0) and shares of zero or
-- more.
abbrev pub IsStored : (ℕ → List ExpenseSplit) → Expense → Type 0
IsStored get_splits e = (pos 1 ≤ℤ e.amount_cents) × All IsShare (get_splits e.id)

-- All the cents that the sums of the handler meet.
abbrev pub volume : (ℕ → List ExpenseSplit) → Expense → ℕ
volume get_splits e = pos_part e.amount_cents + sum_by cents (get_splits e.id)

abbrev pay : Accounts → Expense → ℤ → Accounts
pay acc e amount = record acc {
  names = set_name e.payer_id e.payer_name acc.names;
  paid = add_to acc.paid e.payer_id amount;
}

account_expense_lem :
    (splits : List ExpenseSplit) (acc : Accounts) (e : Expense) {acc' : Accounts}
    → account_expense splits acc e ≡ ok acc'
    → ((split_loop (pay acc e e.amount_cents) (pos 0) splits).0 ≡ acc')
      × (eqb_ℤ (split_loop (pay acc e e.amount_cents) (pos 0) splits).1 e.amount_cents ≡ true)
unfolding account_expense
account_expense_lem [] acc e h = cc
account_expense_lem (s ∷ ss) acc e h = ground arith

account_expense-IsAccounted :
    (get_splits : ℕ → List ExpenseSplit) (e : Expense) {acc acc' : Accounts} {p : ℕ}
    → IsStored get_splits e
    → p + volume get_splits e < i64_half
    → IsAccounted acc p p
    → account_expense (get_splits e.id) acc e ≡ ok acc'
    → IsAccounted acc' (p + pos_part e.amount_cents) (p + pos_part e.amount_cents)
      × (pos_part e.amount_cents ≡ sum_by cents (get_splits e.id))
account_expense-IsAccounted get_splits e {acc} {acc'} {p} stored b h run =
    let splits = get_splits e.id in
    let n = pos_part e.amount_cents in
    let amount = pos-part e.amount_cents (omega arith) in
    let (ended, equal) = account_expense_lem splits acc e run in
    let paid : IsAccounted (pay acc e e.amount_cents) (p + n) p =
      subst (λ x. IsAccounted (pay acc e x) (p + n) p) (sym amount)
        (pay-IsAccounted e.payer_id n e.payer_name (omega arith) h) in
    let (owed, total) = split_loop-IsAccounted splits 0 stored.1 (omega arith) (omega arith) paid in
    let same : n ≡ sum_by cents splits = ground (arith, total, equal, amount) in
    (subst₂ (λ a x. IsAccounted a (p + n) (p + x)) ended (sym same) owed, same)

pub expense_loop-IsAccounted :
    (get_splits : ℕ → List ExpenseSplit) (es : List Expense) {acc acc' : Accounts} {p : ℕ}
    → All (IsStored get_splits) es
    → p + sum_by (volume get_splits) es < i64_half
    → IsAccounted acc p p
    → expense_loop get_splits acc es ≡ ok acc'
    → (q : ℕ) × IsAccounted acc' q q × (q < i64_half)
unfolding expense_loop
expense_loop-IsAccounted get_splits [] {acc} {acc'} {p} stored b h run =
    let e : acc ≡ acc' = cc in (p, rw (← e) h, omega arith)
expense_loop-IsAccounted get_splits (e ∷ es) {acc} {acc'} {p} stored b h run =
    let (mid, first, rest) = >>=-eq-ok (account_expense (get_splits e.id) acc e) _ run in
    let (accounted, equal) =
      account_expense-IsAccounted get_splits e {acc = acc} {acc' = mid} {p = p} stored.0
        (omega arith) h first in
    expense_loop-IsAccounted get_splits es {acc = mid} {acc' = acc'}
      {p = p + pos_part e.amount_cents} stored.1 (omega arith) accounted rest
