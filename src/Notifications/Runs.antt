-- ===== src/Notifications/Runs.antt =====
-- Sequences of the operations of src/backend/internal/repository/notifications.go, and of changes of
-- the houses by other parts, with the calls of the push services that they make.
use Prim.Native.String.{String}
use roomies.Base.{
  ℕ, ◌≤◌, ◌≡◌, refl, ap, sym, Bool, true, false, not, Option, List, [], ◌∷◌, ◌++◌, arith, ◌==◌,
  Bool-cases, inl, inr,
}
use roomies.Base.Sql.{select_one, count_where, update_where}
use roomies.Base.Result.{ok}
use roomies.Base.Keeps.{
  Keeps, keep_bind, keep_pure, keep_read, keep_modify, keep_fail_if, keep_find,
}
use roomies.Base.Tx.{◌>>=◌, read}
use roomies.Houses.{Houses}
use roomies.Notifications.{
  Subscription, NotificationPreferences, Tables, set_subscriptions, put_preferences,
  valid_preferences, upsert_preferences, house_missing, notification_not_found, Action,
}
use roomies.Notifications.Payload.{NotificationPayload}
use roomies.Notifications.Enqueue.{Setting, Call, Notice, enqueue}
use roomies.Notifications.Enqueue.Once.{enqueue_keeps_subscriptions}
use roomies.Notifications.Subscriptions.{
  Texts, Cipher, SubscriptionRequest, is_lockable, revoke_at, lock_house_for_delivery,
  lock_subscription, revoke_subscription, create_subscription,
}
use roomies.Notifications.Dispatch.{
  NotificationTarget, Answer, tables_after, with_authorized_dispatch, is_open_with_id, has_id,
}
use roomies.Notifications.Dispatch.Targets.{was_called, was_called-++, dispatch_authorized}
use roomies.Notifications.Devices.{registers_row, create_elsewhere}
use roomies.Notifications.Dispatch.Revoked.{closed-update, is_closed, dispatch_stays_closed}
use roomies.Notifications.Revoking.{revoke_closes}

-- One committed operation, or a run of the dispatcher, with the devices that it calls; a new
-- subscription is for another device than the row with the identifier.
pub data Step (id : ℕ) : Tables → List NotificationTarget → Tables → Type 0 where
  enqueues :
      (env : Setting) (call : Call) (n : Notice) {s t : Tables}
      → enqueue env call n s ≡ ok (tt, t)
      → Step id s [] t
  dispatches :
      (cipher : Option Cipher) (send : NotificationPayload → NotificationTarget → Answer) (now : ℕ)
      (p : NotificationPayload) {s : Tables}
      → Step id s
          (with_authorized_dispatch cipher send now p s).0.calls
          (tables_after (with_authorized_dispatch cipher send now p s) s)
  revokes :
      (now house user row : ℕ) {s t : Tables}
      → revoke_subscription now house user row s ≡ ok (tt, t)
      → Step id s [] t
  registers :
      (texts : Texts) (cipher : Option Cipher) (house user fresh_id : ℕ) (req : SubscriptionRequest)
      (x : Subscription) {s t : Tables}
      → registers_row texts id house user req s ≡ false
      → (fresh_id == id) ≡ false
      → create_subscription texts cipher house user fresh_id req s ≡ ok (x, t)
      → Step id s [] t
  prefers :
      (known : String → Bool) (p : NotificationPreferences) {s t : Tables}
      → put_preferences known p s ≡ ok (tt, t)
      → Step id s [] t
  changes_houses : (h : Houses) {s : Tables} → Step id s [] (record s { house = h })

pub data Steps (id : ℕ) : Tables → List NotificationTarget → Tables → Type 0 where
  done : {s : Tables} → Steps id s [] s
  next :
      {s t u : Tables} {a b : List NotificationTarget}
      → Step id s a t
      → Steps id t b u
      → Steps id s (a ++ b) u

lockable-open :
    (id house user : ℕ) (xs : List Subscription)
    → count_where (is_open_with_id id) xs ≡ 0
    → count_where (is_lockable house user id) xs ≡ 0
lockable-open id house user [] h = refl
lockable-open id house user (x ∷ xs) h = elim (Bool-cases (is_open_with_id id x)) [
  | inl hit ↦ absurd (ground (arith, hit, h))
  | inr miss ↦
      let rest = lockable-open id house user xs (ground (arith, miss, h)) in
      ground (arith, miss, rest)
]

module _ (id : ℕ) where
  abbrev StaysClosed : Tables → Tables → Type 0
  StaysClosed s t = is_closed id s ≡ true → is_closed id t ≡ true

  same : (s : Tables) → StaysClosed s s
  same s c = c

  chain :
      {A B : Type 0} (m : Action A) (f : A → Action B)
      → Keeps StaysClosed m
      → ((a : A) → Keeps StaysClosed (f a))
      → Keeps StaysClosed (m >>= f)
  chain m f = keep_bind StaysClosed (λ s t u h k c. k (h c)) m f

  lock_house-StaysClosed : (house : ℕ) → Keeps StaysClosed (lock_house_for_delivery house)
  lock_house-StaysClosed house =
      chain _ _
        (keep_find StaysClosed same (λ s. select_one (λ h. h.id == house) s.house.houses)
          house_missing)
        (λ _. keep_pure StaysClosed same tt)

  revoke-StaysClosed :
      (now house user row : ℕ) → Keeps StaysClosed (revoke_subscription now house user row)
  unfolding revoke_subscription
  revoke-StaysClosed now house user row =
      let q = is_lockable house user row in
      chain (lock_house_for_delivery house) _ (lock_house-StaysClosed house) (λ _.
        chain (lock_subscription house user row) _
          (chain _ _
            (keep_find StaysClosed same (λ s. select_one q s.subscriptions) notification_not_found)
            (λ _. keep_pure StaysClosed same tt))
          (λ _.
            chain (read (λ s. count_where q s.subscriptions)) _
              (keep_read StaysClosed same (λ s. count_where q s.subscriptions))
              (λ n.
                chain _ _
                  (keep_modify StaysClosed
                    (λ s. set_subscriptions (update_where q (revoke_at now) s.subscriptions) s)
                    (λ s c. closed-update id q (revoke_at now) s (λ x e. ground (arith, e)) c))
                  (λ _. keep_fail_if StaysClosed same (n == 0) notification_not_found))))

  preferences_stay_closed :
      (known : String → Bool) (p : NotificationPreferences) (s t : Tables)
      → put_preferences known p s ≡ ok (tt, t)
      → t.subscriptions ≡ s.subscriptions
  unfolding put_preferences
  preferences_stay_closed known p s t h = elim (Bool-cases (not (valid_preferences known p))) [
    | inl bad ↦ absurd (ground (arith, bad, h))
    | inr good ↦
        let e : (record s { preferences = upsert_preferences p s.preferences }) ≡ t =
          ground (arith, good, h) in
        sym (ap (λ x. x.subscriptions) e)
  ]

  step_closed :
      {s t : Tables} {a : List NotificationTarget}
      → Step id s a t
      → is_closed id s ≡ true
      → (is_closed id t ≡ true) × (was_called id a ≡ false)
  step_closed (enqueues env call n {s} {t} e) c =
      let same = enqueue_keeps_subscriptions env call n s t e in (rw same c, refl)
  step_closed (dispatches cipher send now p {s}) c =
      let r = with_authorized_dispatch cipher send now p s in
      (
        dispatch_stays_closed id cipher send now p s c,
        elim (Bool-cases (was_called id r.0.calls)) [
          | inr silent ↦ silent
          | inl called ↦
              let facts = dispatch_authorized cipher send now p id s called in
              let zero =
                lockable-open id p.house_id p.user_id s.subscriptions (ground (arith, c)) in
              absurd (facts.3 zero)
        ],
      )
  step_closed (revokes now house user row {s} {t} e) c =
      (revoke-StaysClosed now house user row s (tt, t) e c, refl)
  step_closed (registers texts cipher house user fresh_id req x {s} {t} h other e) c =
      (create_elsewhere texts cipher house user fresh_id id req s (x, t) h other c e, refl)
  step_closed (prefers known p {s} {t} e) c =
      let same = preferences_stay_closed known p s t e in (rw same c, refl)
  step_closed (changes_houses h) c = (c, refl)

  Steps-closed :
      {s t : Tables} {a : List NotificationTarget}
      → Steps id s a t
      → is_closed id s ≡ true
      → was_called id a ≡ false
  Steps-closed done c = refl
  Steps-closed (next {a = a} {b = b} step steps) c =
      let now = step_closed step c in
      let later = Steps-closed steps now.0 in ground (arith, was_called-++ id a b, now.1, later)

-- A device whose subscription was revoked is never called again. Where a row is the only one with its
-- identifier and `RevokeSubscription` of it succeeds, no later sequence of enqueued notifications,
-- runs of the dispatcher, further revocations, changes of preferences or of the houses, and
-- registrations of other devices, makes a call with that identifier.
pub revoked_never_called :
    (now house user id : ℕ) (s t u : Tables) (calls : List NotificationTarget)
    → count_where (has_id id) s.subscriptions ≤ 1
    → revoke_subscription now house user id s ≡ ok (tt, t)
    → Steps id t calls u
    → was_called id calls ≡ false
revoked_never_called now house user id s t u calls one h steps =
    Steps-closed id steps (revoke_closes now house user id s t one h)
