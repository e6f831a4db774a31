-- ===== src/Notifications/Dispatch/Once.antt =====
-- Dispatching a notification again (`WithAuthorizedDispatch` of
-- src/backend/internal/repository/notifications.go).
use roomies.Base.{
  ℕ, ◌≡◌, refl, subst, ◌∙◌, Bool, false, not, ◌&&◌, Option, some, List, [], ◌∷◌, arith, ==_refl,
  Bool-cases, inl, inr,
}
use roomies.Base.Sql.{select_where, count_where, update_where}
use roomies.Base.Result.{ok, err}
use roomies.Notifications.{Delivery, Tables, get_preferences}
use roomies.Notifications.Payload.{NotificationPayload}
use roomies.Notifications.Subscriptions.{Cipher}
use roomies.Notifications.Dispatch.{
  NotificationTarget, nothing_sent, Answer, Run, and_then, in_deliveries, is_requested, send_wanted,
  dispatch_deliveries, is_member, has_house, with_authorized_dispatch, is_wanted, enabled_counts,
  dispatch_payload, mark_dispatched,
}
use roomies.Notifications.Dispatch.Stable.{IsStable, wanted-leaves}

abbrev left_out : (Delivery → Bool) → List Delivery → Delivery → Bool
left_out q ds x = q x && not (in_deliveries ds x)

left_out_more :
    (q : Delivery → Bool) (d : Delivery) (ds xs : List Delivery)
    → count_where (left_out q ds) xs ≡ 0
    → count_where (left_out q (d ∷ ds)) xs ≡ 0
left_out_more q d ds [] h = refl
left_out_more q d ds (x ∷ xs) h = elim (Bool-cases (left_out q ds x)) [
  | inl out ↦ absurd (ground (arith, out, h))
  | inr inside ↦
      let rest = left_out_more q d ds xs (ground (arith, inside, h)) in ground (arith, inside, rest)
]

none_left_out :
    (q : Delivery → Bool) (xs : List Delivery) → count_where (left_out q (select_where q xs)) xs ≡ 0
none_left_out q [] = refl
none_left_out q (x ∷ xs) =
    let rest = none_left_out q xs in
    elim (Bool-cases (q x)) [
      | inr miss ↦ ground (arith, miss, rest)
      | inl hit ↦
          let more = left_out_more q x (select_where q xs) xs rest in
          ground (arith, hit, ==_refl x.id, more)
    ]

-- A delivery that is marked is not asked for.
select_marked :
    (now later : ℕ) (p : NotificationPayload) (ds xs : List Delivery)
    → p.digest ≡ false
    → count_where (left_out (is_requested now p) ds) xs ≡ 0
    → select_where
        (is_requested later p)
        (update_where (in_deliveries ds) (λ d. record d { dispatched_at = some now }) xs)
      ≡ []
select_marked now later p ds [] single h = refl
select_marked now later p ds (x ∷ xs) single h =
    let rest = select_marked now later p ds xs single (ground (arith, h)) in
    elim (Bool-cases (in_deliveries ds x)) [
      | inl hit ↦ ground (arith, hit, rest)
      | inr miss ↦
          let away : is_requested later p x ≡ false = ground (arith, miss, single, h) in
          ground (arith, miss, away, rest)
    ]

-- The time plays a part only in a digest.
any_time :
    (now later : ℕ) (p : NotificationPayload) (xs : List Delivery)
    → p.digest ≡ false
    → select_where (is_requested later p) xs ≡ select_where (is_requested now p) xs
any_time now later p [] single = refl
any_time now later p (x ∷ xs) single =
    let rest = any_time now later p xs single in
    let same : is_requested later p x ≡ is_requested now p x = rw single refl in
    rw same (rw rest refl)

deliveries-IsStable : (ds : List Delivery) → IsStable (λ s. s.deliveries ≡ ds)
deliveries-IsStable ds = record {
  revokes = λ now row s h. h;
  quarantines = λ now house x s h. h;
  reseals = λ key row text s h. h;
}

module _ (cipher : Option Cipher) (send : NotificationPayload → NotificationTarget → Answer)
    (now later : ℕ) (p : NotificationPayload) (single : p.digest ≡ false) where
  then_marked :
      (r : Run) (ds : List Delivery) (s t : Tables)
      → ((u : Tables) → r.1 ≡ ok u → u.deliveries ≡ s.deliveries)
      → count_where (left_out (is_requested now p) ds) s.deliveries ≡ 0
      → (and_then r (λ u. (nothing_sent, ok (mark_dispatched now ds u)))).1 ≡ ok t
      → select_where (is_requested later p) t.deliveries ≡ []
  then_marked (a, err e) ds s t keeps all h = cc
  then_marked (a, ok u) ds s t keeps all h =
      let e : mark_dispatched now ds u ≡ t = cc in
      let same = keeps u refl in
      subst (λ t. select_where (is_requested later p) t.deliveries ≡ []) e
        (rw same (select_marked now later p ds s.deliveries single all))

  deliveries_done :
      (ds : List Delivery) (s t : Tables)
      → select_where (is_requested now p) s.deliveries ≡ ds
      → (dispatch_deliveries cipher send now p ds s).1 ≡ ok t
      → select_where (is_requested later p) t.deliveries ≡ []
  deliveries_done [] s t found h =
      let e : s ≡ t = cc in
      subst (λ t. select_where (is_requested later p) t.deliveries ≡ []) e
        (any_time now later p s.deliveries single ∙ found)
  deliveries_done (d ∷ ds) s t found h =
      let prefs = get_preferences p.house_id p.user_id s.preferences in
      let counts = enabled_counts prefs (d ∷ ds) in
      let wanted = is_wanted prefs p counts in
      let payload = dispatch_payload p counts in
      then_marked (send_wanted cipher send now p wanted payload s) (d ∷ ds) s t
        (λ u e.
          wanted-leaves (deliveries-IsStable s.deliveries) cipher send now p wanted payload s u refl
            e)
        (subst (λ ds. count_where (left_out (is_requested now p) ds) s.deliveries ≡ 0) found
          (none_left_out (is_requested now p) s.deliveries))
        h

nothing_asked :
    (cipher : Option Cipher) (send : NotificationPayload → NotificationTarget → Answer) (now : ℕ)
    (p : NotificationPayload) (t : Tables)
    → select_where (is_requested now p) t.deliveries ≡ []
    → with_authorized_dispatch cipher send now p t ≡ (nothing_sent, ok t)
unfolding with_authorized_dispatch
nothing_asked cipher send now p t h = elim (Bool-cases (has_house p t)) [
  | inr missing ↦ rw missing refl
  | inl there ↦ elim (Bool-cases (is_member p t)) [
    | inr out ↦ rw there (rw out refl)
    | inl inside ↦ rw there (rw inside (rw h refl))
  ]
]

-- A notification is dispatched once. Where a run for a single notification, not a digest, commits,
-- a further run for it, at any time, with any cipher and whatever the push services would answer,
-- calls no device and changes nothing.
pub dispatch_once :
    (cipher late_cipher : Option Cipher)
    (send late_send : NotificationPayload → NotificationTarget → Answer) (now later : ℕ)
    (p : NotificationPayload) (s t : Tables)
    → p.digest ≡ false
    → (with_authorized_dispatch cipher send now p s).1 ≡ ok t
    → with_authorized_dispatch late_cipher late_send later p t ≡ (nothing_sent, ok t)
unfolding with_authorized_dispatch
dispatch_once cipher late_cipher send late_send now later p s t single h =
    let Again : Tables → Type 0 =
      λ t. with_authorized_dispatch late_cipher late_send later p t ≡ (nothing_sent, ok t) in
    elim (Bool-cases (has_house p s)) [
      | inr missing ↦ let e : s ≡ t = ground (arith, missing, h) in subst Again e (rw missing refl)
      | inl there ↦ elim (Bool-cases (is_member p s)) [
        | inr out ↦
            let e : s ≡ t = ground (arith, there, out, h) in subst Again e (rw there (rw out refl))
        | inl inside ↦ nothing_asked late_cipher late_send later p t (
            deliveries_done cipher send now later p single
              (select_where (is_requested now p) s.deliveries) s t refl
              (ground (arith, there, inside, h)))
      ]
    ]
