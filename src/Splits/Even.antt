-- ===== src/Splits/Even.antt =====
-- Even shares (`buildSplits` in src/backend/internal/handlers/expenses.go without requested splits).
use Prim.Native.Nat.{min}
use roomies.Base.{
  ℕ, suc, ◌+◌, ◌-◌, ◌*◌, ◌/◌, ◌%◌, ◌≡◌, refl, ap, ◌⊎◌, List, [], ◌∷◌, map, length, sum_by, All,
  arith,
}
use roomies.Base.Int.{ℤ, pos, pos_part, ◌+ℤ◌}
use roomies.Base.Result.{ok}
use roomies.Models.{HouseMember, ExpenseSplit}
use roomies.Money.{Float64}
use roomies.Splits.{even_splits, split_evenly, build_splits, active_members, user_ids}

abbrev pub cents : ExpenseSplit → ℕ
cents s = pos_part s.share_amount_cents

-- From index `i` on, the splits come to the base for each member and one cent more for each index
-- below the remainder.
sum-even_splits :
    (new_id : ℕ → ℕ) (eid b r i : ℕ) (ms : List HouseMember)
    → sum_by cents (even_splits new_id eid (pos b) (pos r) i ms)
      ≡ length ms * b + min (r - i) (length ms)
unfolding even_splits ◌+ℤ◌
sum-even_splits new_id eid b r i [] = omega arith
sum-even_splits new_id eid b r i (m ∷ ms) =
    ground (arith, sum-even_splits new_id eid b r (suc i) ms)

users-even_splits :
    (new_id : ℕ → ℕ) (eid : ℕ) (b r : ℤ) (i : ℕ) (ms : List HouseMember)
    → map (λ s. s.user_id) (even_splits new_id eid b r i ms) ≡ user_ids ms
unfolding even_splits
users-even_splits new_id eid b r i [] = refl
users-even_splits new_id eid b r i (m ∷ ms) =
    ap (λ us. m.user_id ∷ us) (users-even_splits new_id eid b r (suc i) ms)

-- A share of the base amount or of one cent more.
abbrev pub IsNear : ℕ → ExpenseSplit → Type 0
IsNear b s = (s.share_amount_cents ≡ pos b) ⊎ (s.share_amount_cents ≡ pos (b + 1))

IsNear-even_splits :
    (new_id : ℕ → ℕ) (eid b r i : ℕ) (ms : List HouseMember)
    → All (IsNear b) (even_splits new_id eid (pos b) (pos r) i ms)
unfolding even_splits ◌+ℤ◌
IsNear-even_splits new_id eid b r i [] = tt
IsNear-even_splits new_id eid b r i (m ∷ ms) =
    (ground arith, IsNear-even_splits new_id eid b r (suc i) ms)

quotient_total : (a k : ℕ) → suc k * (a / suc k) + min (a % suc k - 0) (suc k) ≡ a
quotient_total a k = omega arith

module _ (fl : Float64) (new_id : ℕ → ℕ) (eid : ℕ) where
  split_evenly_exact :
      (a : ℕ) (ms : List HouseMember) {ss : List ExpenseSplit}
      → split_evenly fl new_id eid (pos a) ms ≡ ok ss
      → (sum_by cents ss ≡ a)
        × (map (λ s. s.user_id) ss ≡ user_ids ms)
        × All (IsNear (a / length ms)) ss
  unfolding split_evenly
  split_evenly_exact a [] h = cc
  split_evenly_exact a (m ∷ ms) {ss} h =
      let n = length (m ∷ ms) in
      let e : even_splits new_id eid (pos (a / n)) (pos (a % n)) 0 (m ∷ ms) ≡ ss = cc in
      rw (← e) (
        rw (sum-even_splits new_id eid (a / n) (a % n) 0 (m ∷ ms)) (quotient_total a (length ms)),
        users-even_splits new_id eid (pos (a / n)) (pos (a % n)) 0 (m ∷ ms),
        IsNear-even_splits new_id eid (a / n) (a % n) 0 (m ∷ ms),
      )

  -- Without requested splits the whole amount is shared out: the shares come to it exactly, one
  -- share for each member who is no monitor, in their order, and each is the quotient of the amount
  -- by their number or one cent more.
  pub build_splits-even :
      (a : ℕ) (members : List HouseMember) {ss : List ExpenseSplit}
      → build_splits fl new_id eid (pos a) [] members ≡ ok ss
      → (sum_by cents ss ≡ a)
        × (map (λ s. s.user_id) ss ≡ user_ids (active_members members))
        × All (IsNear (a / length (active_members members))) ss
  unfolding build_splits
  build_splits-even a members h = split_evenly_exact a (active_members members) h
