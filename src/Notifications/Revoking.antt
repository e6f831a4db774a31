-- ===== src/Notifications/Revoking.antt =====
-- What `RevokeSubscription` leaves (src/backend/internal/repository/notifications.go).
use roomies.Base.{
  ℕ, ◌≤◌, ◌≡◌, refl, subst, true, false, List, [], ◌∷◌, arith, ◌==◌, Bool-cases, Option-cases, inl,
  inr,
}
use roomies.Base.Sql.{select_one, count_where, update_where}
use roomies.Base.Result.{ok}
use roomies.Notifications.{Subscription, Tables, set_subscriptions}
use roomies.Notifications.Subscriptions.{is_lockable, revoke_at, revoke_subscription}
use roomies.Notifications.Dispatch.{is_open_with_id, has_id}
use roomies.Notifications.Dispatch.Revoked.{is_closed}

no_row :
    (id house user now : ℕ) (xs : List Subscription)
    → count_where (has_id id) xs ≡ 0
    → (count_where (is_lockable house user id) xs ≡ 0)
      × (count_where
            (is_open_with_id id)
            (update_where (is_lockable house user id) (revoke_at now) xs)
          ≡ 0)
no_row id house user now [] h = (refl, refl)
no_row id house user now (x ∷ xs) h =
    let rest = no_row id house user now xs (ground (arith, h)) in
    let away : (x.id == id) ≡ false = elim (Bool-cases (x.id == id)) [
      | inl here ↦ absurd (ground (arith, here, h))
      | inr away ↦ away
    ] in
    let miss : is_lockable house user id x ≡ false = ground (arith, away) in
    (ground (arith, miss, rest), ground (arith, miss, away, rest))

only_row :
    (id house user now : ℕ) (xs : List Subscription)
    → count_where (has_id id) xs ≤ 1
    → (count_where (is_lockable house user id) xs == 0) ≡ false
    → count_where (is_open_with_id id) (update_where (is_lockable house user id) (revoke_at now) xs)
      ≡ 0
only_row id house user now [] h k = cc
only_row id house user now (x ∷ xs) h k = elim (Bool-cases (x.id == id)) [
  | inl here ↦
      let rest = no_row id house user now xs (ground (arith, here, h)) in
      let hit : is_lockable house user id x ≡ true =
        elim (Bool-cases (is_lockable house user id x)) [
          | inl hit ↦ hit
          | inr miss ↦ absurd (ground (arith, miss, rest, k))
        ] in
      ground (arith, hit, rest)
  | inr away ↦
      let miss : is_lockable house user id x ≡ false = ground (arith, away) in
      let rest =
        only_row id house user now xs (ground (arith, away, h)) (ground (arith, miss, k)) in
      ground (arith, miss, away, rest)
]

pub revoke_closes :
    (now house user id : ℕ) (s t : Tables)
    → count_where (has_id id) s.subscriptions ≤ 1
    → revoke_subscription now house user id s ≡ ok (tt, t)
    → is_closed id t ≡ true
unfolding revoke_subscription
revoke_closes now house user id s t one h =
    let q = is_lockable house user id in
    elim (Option-cases (select_one (λ h. h.id == house) s.house.houses)) [
      | inl missing ↦ absurd (ground (arith, missing, h))
      | inr (x, found) ↦ elim (Option-cases (select_one q s.subscriptions)) [
        | inl missing ↦ absurd (ground (arith, found, missing, h))
        | inr (y, row) ↦ elim (Bool-cases (count_where q s.subscriptions == 0)) [
          | inl none_there ↦ absurd (ground (arith, found, row, none_there, h))
          | inr there ↦
              let e : set_subscriptions (update_where q (revoke_at now) s.subscriptions) s ≡ t =
                ground (arith, found, row, there, h) in
              let zero = only_row id house user now s.subscriptions one there in
              subst (λ t. is_closed id t ≡ true) e (ground (arith, zero))
        ]
      ]
    ]
