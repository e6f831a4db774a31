-- ===== src/Notifications/Enqueue/Once.antt =====
-- Enqueueing an occurrence again (`EnqueueTx` of
-- src/backend/internal/repository/notifications.go).
use roomies.Base.{
  ℕ, ◌≤◌, ◌≡◌, refl, subst, ◌∙◌, Bool, true, false, ◌||◌, List, [], ◌∷◌, arith, ◌==◌, ==_refl,
  ==→eq, Bool-cases, inl, inr,
}
use roomies.Base.Result.{ok}
use roomies.Base.Keeps.{Keeps, keep_bind, keep_pure}
use roomies.Base.Tx.{>>=-eq-ok, >>=-ok}
use roomies.Notifications.{Tables, get_preferences}
use roomies.Notifications.Enqueue.{
  Notice, Setting, Call, receivers, enqueue_user, enqueue_users, enqueue,
}
use roomies.Notifications.Enqueue.Deliveries.{
  deliveries_of, Grows, Grows-refl, Grows-trans, notify_settles,
}

abbrev pub has_user : ℕ → List ℕ → Bool
has_user user [] = false
has_user user (u ∷ us) = u == user || has_user user us

module _ (env : Setting) (call : Call) (n : Notice) where
  enqueue_user_settles :
      (user : ℕ) (s : Tables) (r : Unit {0} × Tables)
      → enqueue_user env call n user s ≡ ok r
      → Grows n s r.1 × (1 ≤ deliveries_of n user r.1)
  unfolding enqueue_user
  enqueue_user_settles user s r h = elim (Bool-cases (deliveries_of n user s == 0)) [
    | inl absent ↦
        notify_settles env call n user (get_preferences n.house_id user s.preferences) s r
          (ground arith) (ground (arith, absent, h))
    | inr there ↦
        let e : s ≡ r.1 = ground (arith, there, h) in
        subst (λ t. Grows n s t × (1 ≤ deliveries_of n user t)) e (Grows-refl n s, ground arith)
  ]

  enqueue_users-Grows : (users : List ℕ) → Keeps (Grows n) (enqueue_users env call n users)
  unfolding enqueue_users
  enqueue_users-Grows [] = keep_pure (Grows n) (Grows-refl n) tt
  enqueue_users-Grows (user ∷ users) =
      keep_bind (Grows n) (Grows-trans n) (enqueue_user env call n user)
        (λ _. enqueue_users env call n users) (λ s r h. (enqueue_user_settles user s r h).0)
        (λ _. enqueue_users-Grows users)

  enqueue_users_settles :
      (users : List ℕ) (user : ℕ) (s : Tables) (r : Unit {0} × Tables)
      → has_user user users ≡ true
      → enqueue_users env call n users s ≡ ok r
      → 1 ≤ deliveries_of n user r.1
  unfolding enqueue_users
  enqueue_users_settles [] user s r there h = cc
  enqueue_users_settles (u ∷ us) user s r there h =
      let (a, t, first, second) =
        >>=-eq-ok (enqueue_user env call n u) (λ _. enqueue_users env call n us) s h in
      elim (Bool-cases (u == user)) [
        | inl here ↦
            let e = ==→eq u user here in
            let settled = (enqueue_user_settles u s (a, t) first).1 in
            let later = (enqueue_users-Grows us t r second).more u in
            subst (λ x. 1 ≤ deliveries_of n x r.1) e (ground (arith, settled, later))
        | inr other ↦ enqueue_users_settles us user t r (ground arith) second
      ]

pub enqueue_keeps_subscriptions :
    (env : Setting) (call : Call) (n : Notice) (s t : Tables)
    → enqueue env call n s ≡ ok (tt, t)
    → t.subscriptions ≡ s.subscriptions
unfolding enqueue
enqueue_keeps_subscriptions env call n s t run =
    (enqueue_users-Grows env call n (receivers n s) s (tt, t) run).subscriptions

-- Where each of the users has a delivery already, nothing is done.
enqueue_user_again :
    (env : Setting) (call : Call) (n : Notice) (user : ℕ) (t : Tables)
    → 1 ≤ deliveries_of n user t
    → enqueue_user env call n user t ≡ ok (tt, t)
unfolding enqueue_user
enqueue_user_again env call n user t there = ground (arith, there)

enqueue_users_again :
    (env : Setting) (call : Call) (n : Notice) (users : List ℕ) (t : Tables)
    → ((user : ℕ) → has_user user users ≡ true → 1 ≤ deliveries_of n user t)
    → enqueue_users env call n users t ≡ ok (tt, t)
unfolding enqueue_users
enqueue_users_again env call n [] t there = refl
enqueue_users_again env call n (u ∷ us) t there =
    let first = enqueue_user_again env call n u t (there u (ground (arith, ==_refl u))) in
    >>=-ok (enqueue_user env call n u) (λ _. enqueue_users env call n us) t first
    ∙ enqueue_users_again env call n us t (λ user h. there user (ground (arith, h)))

-- Where the constraint of the table holds of an occurrence and a run of `EnqueueTx` succeeds, each
-- receiver, a member of the house who has the category on, then has exactly one delivery of the
-- occurrence; and another run for it, at any time and with any identifiers, succeeds and leaves every
-- table as it is.
pub enqueue_once :
    (env : Setting) (call again : Call) (n : Notice) (user : ℕ) (s t : Tables)
    → ((other : ℕ) → deliveries_of n other s ≤ 1)
    → has_user user (receivers n s) ≡ true
    → enqueue env call n s ≡ ok (tt, t)
    → (deliveries_of n user t ≡ 1) × (enqueue env again n t ≡ ok (tt, t))
unfolding enqueue
enqueue_once env call again n user s t unique receives run =
    let g = enqueue_users-Grows env call n (receivers n s) s (tt, t) run in
    let settles = λ (u : ℕ) (h : has_user u (receivers n s) ≡ true).
      enqueue_users_settles env call n (receivers n s) u s (tt, t) h run in
    let same : receivers n t ≡ receivers n s = rw (g.house, g.preferences) refl in
    let low = settles user receives in
    let high = g.one user (unique user) in
    (ground (arith, low, high), rw same (enqueue_users_again env again n (receivers n s) t settles))
