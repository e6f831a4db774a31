-- ===== src/Notifications/Dispatch/Targets.antt =====
-- Which devices a run of `WithAuthorizedDispatch` calls
-- (src/backend/internal/repository/notifications.go).
use roomies.Base.{
  ℕ, ◌≡◌, ◌≢◌, refl, ◌⊎◌, Bool, true, false, ◌&&◌, ◌||◌, Option, none, some, List, [], ◌∷◌, ◌++◌,
  arith, leb, ◌==◌, Bool-cases, inl, inr,
}
use roomies.Base.Sql.{select_where, count_where}
use roomies.Base.Result.{Result, ok, err}
use roomies.Notifications.{Subscription, Delivery, Tables, NotificationError, get_preferences}
use roomies.Notifications.Payload.{NotificationPayload}
use roomies.Notifications.Subscriptions.{Cipher, Secret, is_lockable}
use roomies.Notifications.Dispatch.{
  NotificationTarget, nothing_sent, Answer, accepted, gone, failed, Run, and_then, answered,
  dispatch_rotated, dispatch_decrypted, dispatch_target, dispatch_targets, insert_by_id,
  order_by_id, is_requested, is_receiver_open, open_targets, send_all, send_wanted,
  dispatch_deliveries, is_member, has_house, with_authorized_dispatch, is_wanted, enabled_counts,
  dispatch_payload, mark_dispatched, rotate_key, target_of,
}

abbrev pub was_called : ℕ → List NotificationTarget → Bool
was_called id [] = false
was_called id (t ∷ ts) = t.id == id || was_called id ts

abbrev pub has_row : ℕ → List Subscription → Bool
has_row id [] = false
has_row id (x ∷ xs) = x.id == id || has_row id xs

pub was_called-++ :
    (id : ℕ) (a b : List NotificationTarget)
    → was_called id (a ++ b) ≡ (was_called id a || was_called id b)
was_called-++ id [] b = refl
was_called-++ id (t ∷ ts) b = ground (arith, was_called-++ id ts b)

Result-cases :
    {A : Type 0} (r : Result NotificationError A)
    → ((a : A) × (r ≡ ok a)) ⊎ ((e : NotificationError) × (r ≡ err e))
Result-cases (ok a) = inl (a, refl)
Result-cases (err e) = inr (e, refl)

-- What the calls of a step and of what follows it have in common.
pub and_then-calls :
    (id : ℕ) (r : Run) (k : Tables → Run) (P : Bool)
    → (was_called id r.0.calls ≡ true → P ≡ true)
    → ((t : Tables) → r.1 ≡ ok t → was_called id (k t).0.calls ≡ true → P ≡ true)
    → was_called id (and_then r k).0.calls ≡ true
    → P ≡ true
and_then-calls id (a, err e) k P first later h = first h
and_then-calls id (a, ok t) k P first later h = elim (Bool-cases (was_called id a.calls)) [
  | inl now ↦ first now
  | inr not_now ↦ later t refl (ground (arith, was_called-++ id a.calls (k t).0.calls, not_now, h))
]

answered-calls :
    (id now : ℕ) (t : NotificationTarget) (a : Answer) (s : Tables)
    → was_called id (answered now t a s).0.calls ≡ true
    → (t.id == id) ≡ true
answered-calls id now t accepted s h = ground (arith, h)
answered-calls id now t gone s h = ground (arith, h)
answered-calls id now t failed s h = ground (arith, h)

module _ (cipher : Cipher) (send : NotificationTarget → Answer) (now house : ℕ) where
  decrypted-calls :
      (id : ℕ) (x : Subscription) (s : Tables) (o : Option Secret)
      → was_called id (dispatch_decrypted cipher send now house x s o).0.calls ≡ true
      → (x.id == id) ≡ true
  decrypted-calls id x s none h = cc
  decrypted-calls id x s (some secret) h = go (rotate_key cipher x secret s) h
    where
      go :
          (r : Result NotificationError Tables)
          → was_called id (dispatch_rotated cipher send now house (target_of x secret) r).0.calls
            ≡ true
          → (x.id == id) ≡ true
      go (ok t) h = answered-calls id now (target_of x secret) (send (target_of x secret)) t h
      go (err e) h = cc

  targets-calls :
      (id : ℕ) (xs : List Subscription) (s : Tables)
      → was_called id (dispatch_targets cipher send now house xs s).0.calls ≡ true
      → has_row id xs ≡ true
  unfolding dispatch_targets dispatch_target
  targets-calls id [] s h = cc
  targets-calls id (x ∷ xs) s h =
      and_then-calls id (dispatch_target cipher send now house x s)
        (dispatch_targets cipher send now house xs) (has_row id (x ∷ xs))
        (λ k.
          let e = decrypted-calls id x s (cipher.decrypt x.id x.ciphertext) k in ground (arith, e))
        (λ t e k. let rest = targets-calls id xs t k in ground (arith, rest)) h

has_row-insert :
    (id : ℕ) (x : Subscription) (ys : List Subscription)
    → has_row id (insert_by_id x ys) ≡ has_row id (x ∷ ys)
has_row-insert id x [] = refl
has_row-insert id x (y ∷ ys) = elim (Bool-cases (leb x.id y.id)) [
  | inl e ↦ ground (arith, e)
  | inr e ↦ ground (arith, e, has_row-insert id x ys)
]

has_row-order : (id : ℕ) (xs : List Subscription) → has_row id (order_by_id xs) ≡ has_row id xs
has_row-order id [] = refl
has_row-order id (x ∷ xs) =
    ground (arith, has_row-insert id x (order_by_id xs), has_row-order id xs)

has_row-select :
    (id : ℕ) (p : NotificationPayload) (xs : List Subscription)
    → has_row id (select_where (is_receiver_open p) xs) ≡ true
    → count_where (is_lockable p.house_id p.user_id id) xs ≢ 0
has_row-select id p [] h = λ z. cc
has_row-select id p (x ∷ xs) h = elim (Bool-cases (is_receiver_open p x && x.id == id)) [
  | inl hit ↦ λ z. ground (arith, hit, z)
  | inr miss ↦
      let rest = has_row-select id p xs (ground (arith, miss, h)) in λ z. rest (ground (arith, z))
]

present :
    {A : Type 0} (q : A → Bool) (x : A) (xs ys : List A)
    → select_where q xs ≡ x ∷ ys
    → count_where q xs ≢ 0
present q x [] ys h = λ z. cc
present q x (y ∷ rest) ys h = elim (Bool-cases (q y)) [
  | inl hit ↦ λ z. ground (arith, hit, z)
  | inr miss ↦
      let later = present q x rest ys (ground (arith, miss, h)) in
      λ z. later (ground (arith, miss, z))
]

module _ (cipher : Option Cipher) (send : NotificationPayload → NotificationTarget → Answer)
    (now : ℕ) (requested : NotificationPayload) (id : ℕ) where
  all-calls :
      (o : Option Cipher) (p : NotificationPayload) (s : Tables)
      → was_called id (send_all cipher send now requested o p s).0.calls ≡ true
      → count_where (is_lockable requested.house_id requested.user_id id) s.subscriptions ≢ 0
  all-calls none p s h = λ z. cc
  all-calls (some c) p s h =
      let row = targets-calls c (send p) now requested.house_id id (open_targets requested s) s h in
      has_row-select id requested s.subscriptions (
        ground (
          arith,
          row,
          has_row-order id (select_where (is_receiver_open requested) s.subscriptions),
        ))

  wanted-calls :
      (b : Bool) (p : NotificationPayload) (s : Tables)
      → was_called id (send_wanted cipher send now requested b p s).0.calls ≡ true
      → count_where (is_lockable requested.house_id requested.user_id id) s.subscriptions ≢ 0
  wanted-calls false p s h = λ z. cc
  wanted-calls true p s h = all-calls cipher p s h

  marked-calls :
      (r : Run) (f : Tables → Tables)
      → was_called id (and_then r (λ t. (nothing_sent, ok (f t)))).0.calls ≡ true
      → was_called id r.0.calls ≡ true
  marked-calls (a, err e) f h = h
  marked-calls (a, ok t) f h = ground (arith, was_called-++ id a.calls [], h)

  deliveries-calls :
      (ds : List Delivery) (s : Tables)
      → was_called id (dispatch_deliveries cipher send now requested ds s).0.calls ≡ true
      → count_where (is_lockable requested.house_id requested.user_id id) s.subscriptions ≢ 0
  deliveries-calls [] s h = λ z. cc
  deliveries-calls (d ∷ ds) s h =
      let p = get_preferences requested.house_id requested.user_id s.preferences in
      let counts = enabled_counts p (d ∷ ds) in
      wanted-calls (is_wanted p requested counts) (dispatch_payload requested counts) s (
        marked-calls
          (send_wanted cipher send now requested (is_wanted p requested counts)
            (dispatch_payload requested counts) s)
          (mark_dispatched now (d ∷ ds)) h)

  some_delivery :
      (ds : List Delivery) (s : Tables)
      → was_called id (dispatch_deliveries cipher send now requested ds s).0.calls ≡ true
      → select_where (is_requested now requested) s.deliveries ≡ ds
      → count_where (is_requested now requested) s.deliveries ≢ 0
  some_delivery [] s h e = λ z. cc
  some_delivery (d ∷ ds) s h e = present (is_requested now requested) d s.deliveries ds e

  -- A device is called only in a house that is there, for a user who is a member of it, with a
  -- delivery that is asked for and not yet dispatched, and where an open subscription of that user in
  -- that house has the device's identifier.
  pub dispatch_authorized :
      (s : Tables)
      → was_called id (with_authorized_dispatch cipher send now requested s).0.calls ≡ true
      → (has_house requested s ≡ true)
        × (is_member requested s ≡ true)
        × (count_where (is_requested now requested) s.deliveries ≢ 0)
        × (count_where (is_lockable requested.house_id requested.user_id id) s.subscriptions ≢ 0)
  unfolding with_authorized_dispatch
  dispatch_authorized s h = elim (Bool-cases (has_house requested s)) [
    | inr missing ↦ absurd (ground (arith, missing, h))
    | inl house ↦ elim (Bool-cases (is_member requested s)) [
      | inr out ↦ absurd (ground (arith, house, out, h))
      | inl inside ↦
          let ds = select_where (is_requested now requested) s.deliveries in
          let h' : was_called id (dispatch_deliveries cipher send now requested ds s).0.calls
              ≡ true =
            ground (arith, house, inside, h) in
          (house, inside, some_delivery ds s h' refl, deliveries-calls ds s h')
    ]
  ]
