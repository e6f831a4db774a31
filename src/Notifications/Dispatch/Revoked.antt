-- ===== src/Notifications/Dispatch/Revoked.antt =====
-- Subscriptions that are not open, under the operations of
-- src/backend/internal/repository/notifications.go.
use roomies.Base.{
  ℕ, ◌≤◌, ◌≡◌, refl, Bool, true, false, Option, List, [], ◌∷◌, arith, ◌==◌, Bool-cases, inl, inr,
}
use roomies.Base.Sql.{select_where, count_where, update_where}
use roomies.Base.Result.{ok, err}
use roomies.Notifications.{Subscription, Delivery, Tables, get_preferences, set_subscriptions}
use roomies.Notifications.Payload.{NotificationPayload}
use roomies.Notifications.Subscriptions.{Cipher, revoke_at}
use roomies.Notifications.Dispatch.{
  NotificationTarget, nothing_sent, Answer, Run, send_wanted, dispatch_deliveries, is_member,
  has_house, with_authorized_dispatch, is_wanted, enabled_counts, dispatch_payload, mark_dispatched,
  is_open_with_id, has_id, revoke_target, reseal, tables_after, dispatch_to_member, is_requested,
}
use roomies.Notifications.Dispatch.Stable.{IsStable, and_then-leaves, ok-leaves, wanted-leaves}

pub count_update :
    {A : Type 0} (p q : A → Bool) (f : A → A)
    → ((x : A) → p (f x) ≡ true → p x ≡ true)
    → (xs : List A) → count_where p (update_where q f xs) ≤ count_where p xs
count_update p q f keeps [] = ground arith
count_update p q f keeps (x ∷ xs) =
    let rest = count_update p q f keeps xs in
    elim (Bool-cases (q x)) [
      | inr miss ↦ ground (arith, miss, rest)
      | inl hit ↦ elim (Bool-cases (p (f x))) [
        | inl after ↦ ground (arith, hit, after, keeps x after, rest)
        | inr away ↦ ground (arith, hit, away, rest)
      ]
    ]

-- No row with the identifier is open.
abbrev pub is_closed : ℕ → Tables → Bool
is_closed id s = count_where (is_open_with_id id) s.subscriptions == 0

module _ (id : ℕ) where
  pub closed-update :
      (q : Subscription → Bool) (f : Subscription → Subscription) (s : Tables)
      → ((x : Subscription) → is_open_with_id id (f x) ≡ true → is_open_with_id id x ≡ true)
      → is_closed id s ≡ true
      → is_closed id (set_subscriptions (update_where q f s.subscriptions) s) ≡ true
  closed-update q f s keeps h =
      ground (arith, h, count_update (is_open_with_id id) q f keeps s.subscriptions)

  closed-revoke :
      (now target : ℕ) (s : Tables)
      → is_closed id s ≡ true
      → is_closed id (revoke_target now target s) ≡ true
  closed-revoke now target s h =
      closed-update (has_id target) (revoke_at now) s (λ x e. ground (arith, e)) h

  closed-IsStable : IsStable (λ s. is_closed id s ≡ true)
  closed-IsStable = record {
    revokes = closed-revoke;
    quarantines = λ now house x s h. closed-revoke now x.id s h;
    reseals = λ key row text s h.
        closed-update (is_open_with_id row) (reseal key text) s (λ x k. ground (arith, k)) h;
  }

  module _ (cipher : Option Cipher) (send : NotificationPayload → NotificationTarget → Answer)
      (now : ℕ) (requested : NotificationPayload) where
    deliveries-leaves :
        (ds : List Delivery) (s u : Tables)
        → is_closed id s ≡ true
        → (dispatch_deliveries cipher send now requested ds s).1 ≡ ok u
        → is_closed id u ≡ true
    deliveries-leaves [] s u h e = ok-leaves closed-IsStable s u h e
    deliveries-leaves (d ∷ ds) s u h e =
        let p = get_preferences requested.house_id requested.user_id s.preferences in
        let counts = enabled_counts p (d ∷ ds) in
        and_then-leaves closed-IsStable
          (send_wanted cipher send now requested (is_wanted p requested counts)
            (dispatch_payload requested counts) s)
          (λ t. (nothing_sent, ok (mark_dispatched now (d ∷ ds) t)))
          (λ t k.
            wanted-leaves closed-IsStable cipher send now requested (is_wanted p requested counts)
              (dispatch_payload requested counts) s t h k)
          (λ t k v l. ok-leaves closed-IsStable (mark_dispatched now (d ∷ ds) t) v k l) u e

    after-closed :
        (r : Run) (s : Tables)
        → is_closed id s ≡ true
        → ((u : Tables) → r.1 ≡ ok u → is_closed id u ≡ true)
        → is_closed id (tables_after r s) ≡ true
    after-closed (a, ok t) s h k = k t refl
    after-closed (a, err e) s h k = h

    member-leaves :
        (b : Bool) (s u : Tables)
        → is_closed id s ≡ true
        → (dispatch_to_member cipher send now requested b s).1 ≡ ok u
        → is_closed id u ≡ true
    member-leaves false s u h e = ok-leaves closed-IsStable s u h e
    member-leaves true s u h e =
        deliveries-leaves (select_where (is_requested now requested) s.deliveries) s u h e

    -- A run, also one that is rolled back, opens no subscription.
    pub dispatch_stays_closed :
        (s : Tables)
        → is_closed id s ≡ true
        → is_closed id (tables_after (with_authorized_dispatch cipher send now requested s) s)
          ≡ true
    unfolding with_authorized_dispatch
    dispatch_stays_closed s h = elim (Bool-cases (has_house requested s)) [
      | inr missing ↦ rw missing h
      | inl there ↦
          after-closed (with_authorized_dispatch cipher send now requested s) s h
            (λ u e. member-leaves (is_member requested s) s u h (ground (arith, there, e)))
    ]
