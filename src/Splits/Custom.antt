-- ===== src/Splits/Custom.antt =====
-- Requested shares (`buildCustomSplits` in src/backend/internal/handlers/expenses.go), and the users
-- to whom a private expense is shown (`validateVisibleUsers`).
use roomies.Base.{
  ℕ, suc, ◌+◌, ◌*◌, ◌≤◌, ◌<◌, ◌≡◌, refl, ap, sym, ◌∙◌, ◌↔◌, true, false, List, [], ◌∷◌, map, length,
  sum_by, All, contains, Distinct, arith,
}
use roomies.Base.Int.{ℤ, pos, negsuc, pos_part, add64, add64_pos, i64_half, ◌≤ℤ◌}
use roomies.Base.Result.{ok, >>=-eq-ok}
use roomies.Models.{HouseMember, ExpenseSplit, SplitEntry}
use roomies.Money.{Float64, money_to_cents, money_to_cents_bounds, max_money_cents}
use roomies.Splits.{
  entry_share, custom_split, custom_loop, build_custom_splits, active_members, user_ids,
  visible_loop, validate_visible_users,
}
use roomies.Splits.Even.{cents}

-- Every element lies in `set`, none lies in `seen`, and none stands twice.
abbrev pub Fresh : List ℕ → List ℕ → List ℕ → Type 0
Fresh set seen [] = Unit
Fresh set seen (u ∷ us) =
    (contains set u ≡ true) × (contains seen u ≡ false) × Fresh set (u ∷ seen) us

visible_loop_iff : (set seen us : List ℕ) → (visible_loop set seen us ≡ ok tt) ↔ Fresh set seen us
unfolding visible_loop
visible_loop_iff set seen [] = (λ _. tt, λ _. refl)
visible_loop_iff set seen (u ∷ us) = (
  λ h. ground (arith, (visible_loop_iff set (u ∷ seen) us).0),
  λ h. ground (arith, (visible_loop_iff set (u ∷ seen) us).1),
)

add64_share :
    (total : ℕ) (share : ℤ)
    → pos 0 ≤ℤ share
    → total + pos_part share < i64_half
    → add64 (pos total) share ≡ pos (total + pos_part share)
add64_share total (pos n) low b = add64_pos total n b
add64_share total (negsuc n) low b = absurd (omega arith)

abbrev pub InRange : ExpenseSplit → Type 0
InRange s = (pos 0 ≤ℤ s.share_amount_cents) × (s.share_amount_cents ≤ℤ max_money_cents)

share_le : (share : ℤ) → pos 0 ≤ℤ share → share ≤ℤ max_money_cents → pos_part share ≤ 9999999999
share_le (pos n) low high = omega arith
share_le (negsuc n) low high = absurd (omega arith)

module _ (fl : Float64) (new_id : ℕ → ℕ) (eid : ℕ) (set : List ℕ) where
  entry_share_lem :
      (seen : List ℕ) (e : SplitEntry fl.F) {c : ℤ}
      → entry_share fl new_id eid set seen e ≡ ok c
      → (contains set e.user_id ≡ true)
        × (contains seen e.user_id ≡ false)
        × (money_to_cents fl e.amount ≡ ok c)
  unfolding entry_share
  entry_share_lem seen e h = ground arith

  -- What the loop has checked when it ends well, from a running total that cannot overflow.
  custom_loop_sound :
      (i : ℕ) (seen : List ℕ) (total : ℕ) (es : List (SplitEntry fl.F)) {r : ℤ × List ExpenseSplit}
      → custom_loop fl new_id eid set i seen (pos total) es ≡ ok r
      → total + length es * 9999999999 < i64_half
      → (r.0 ≡ pos (total + sum_by cents r.1))
        × (map (λ s. s.user_id) r.1 ≡ map (λ e. e.user_id) es)
        × Fresh set seen (map (λ s. s.user_id) r.1)
        × All InRange r.1
  unfolding custom_loop
  custom_loop_sound i seen total [] {r} h b =
      let e : ◌≡◌ {A = ℤ × List ExpenseSplit} (pos total, []) r = cc in
      rw (← e) (ap pos (omega arith), refl, tt, tt)
  custom_loop_sound i seen total (e ∷ es) {r} h b =
      let (share, checked, h1) = >>=-eq-ok (entry_share fl new_id eid set seen e) _ h in
      let looped_on =
        custom_loop fl new_id eid set (suc i) (e.user_id ∷ seen) (add64 (pos total) share) es in
      let (r', looped, h2) = >>=-eq-ok looped_on _ h1 in
      let (member, unseen, converted) = entry_share_lem seen e checked in
      let eq : (r'.0, custom_split fl new_id eid i e share ∷ r'.1) ≡ r = cc in
      let (low, high) = money_to_cents_bounds fl e.amount converted in
      let capped = share_le share low high in
      let added = add64_share total share low (omega arith) in
      let (sum, users, fresh, ranges) =
        custom_loop_sound (suc i) (e.user_id ∷ seen) (total + pos_part share) es {r = r'}
          (rw added at looped) (omega arith) in
      rw (← eq) (
        rw sum (ap pos (omega arith)),
        ap (λ us. e.user_id ∷ us) users,
        (member, unseen, fresh),
        ((low, high), ranges),
      )

-- Elements that are not in `u ∷ seen` are not `u`, and not in `seen`.
unseen_split :
    (u : ℕ) (seen us : List ℕ)
    → All (λ v. contains (u ∷ seen) v ≡ false) us
    → (contains us u ≡ false) × All (λ v. contains seen v ≡ false) us
unseen_split u seen [] h = (refl, tt)
unseen_split u seen (v ∷ us) h =
    let (a, b) = unseen_split u seen us h.1 in (ground arith, (ground arith, b))

unseen_join :
    (u : ℕ) (seen us : List ℕ)
    → contains us u ≡ false
    → All (λ v. contains seen v ≡ false) us
    → All (λ v. contains (u ∷ seen) v ≡ false) us
unseen_join u seen [] h k = tt
unseen_join u seen (v ∷ us) h k = (ground arith, unseen_join u seen us (ground arith) k.1)

Distinct-Fresh :
    (set seen us : List ℕ)
    → Distinct us
    → All (λ u. contains set u ≡ true) us
    → All (λ u. contains seen u ≡ false) us
    → Fresh set seen us
Distinct-Fresh set seen [] d m n = tt
Distinct-Fresh set seen (u ∷ us) d m n =
    (m.0, n.0, Distinct-Fresh set (u ∷ seen) us d.1 m.1 (unseen_join u seen us d.0 n.1))

none_seen : (us : List ℕ) → All (λ u. contains [] u ≡ false) us
none_seen [] = tt
none_seen (u ∷ us) = (refl, none_seen us)

Fresh-Distinct :
    (set seen us : List ℕ)
    → Fresh set seen us
    → Distinct us × All (λ u. contains set u ≡ true) us × All (λ u. contains seen u ≡ false) us
Fresh-Distinct set seen [] h = (tt, tt, tt)
Fresh-Distinct set seen (u ∷ us) h =
    let (distinct, members, unseen) = Fresh-Distinct set (u ∷ seen) us h.2 in
    let (other, rest) = unseen_split u seen us unseen in
    ((other, distinct), (h.0, members), (h.1, rest))

-- Requested shares that are accepted come to the amount exactly: one split for each entry, for the
-- users that were asked for, no user twice, none of them a monitor or an outsider, and every share
-- between 0 and the maximum. A body of 1 MiB holds fewer than 2^20 entries, so no sum overflows.
pub build_custom_splits_sound :
    (fl : Float64) (new_id : ℕ → ℕ) (eid : ℕ) (amount : ℤ) (es : List (SplitEntry fl.F))
    (members : List HouseMember) {ss : List ExpenseSplit}
    → build_custom_splits fl new_id eid amount es members ≡ ok ss
    → length es ≤ 1048576
    → (amount ≡ pos (sum_by cents ss))
      × (map (λ s. s.user_id) ss ≡ map (λ e. e.user_id) es)
      × Distinct (map (λ s. s.user_id) ss)
      × All (λ u. contains (user_ids (active_members members)) u ≡ true) (map (λ s. s.user_id) ss)
      × All InRange ss
unfolding build_custom_splits
build_custom_splits_sound fl new_id eid amount [] members h b = cc
build_custom_splits_sound fl new_id eid amount (e ∷ es) members {ss} h b =
    let set = user_ids (active_members members) in
    let (r, looped, tested) = >>=-eq-ok (custom_loop fl new_id eid set 0 [] (pos 0) (e ∷ es)) _ h in
    let (sum, users, fresh, ranges) =
      custom_loop_sound fl new_id eid set 0 [] 0 (e ∷ es) looped (omega arith) in
    let (distinct, eligible, _) = Fresh-Distinct set [] (map (λ s. s.user_id) r.1) fresh in
    let same : (r.1 ≡ ss) × (r.0 ≡ amount) = ground arith in
    rw (← same.0) (sym same.1 ∙ sum ∙ ap pos (omega arith), users, distinct, eligible, ranges)

-- The visible users are accepted exactly when each is a member of the house and none stands twice.
pub validate_visible_users_iff :
    (ids : List ℕ) (members : List HouseMember)
    → (validate_visible_users ids members ≡ ok tt)
      ↔ (All (λ u. contains (user_ids members) u ≡ true) ids × Distinct ids)
unfolding validate_visible_users
validate_visible_users_iff ids members =
    let set = user_ids members in
    (
      λ h.
          let (distinct, inside, _) =
            Fresh-Distinct set [] ids ((visible_loop_iff set [] ids).0 h) in
          (inside, distinct),
      λ h. (visible_loop_iff set [] ids).1 (Distinct-Fresh set [] ids h.1 h.0 (none_seen ids)),
    )
