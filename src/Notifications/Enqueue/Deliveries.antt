-- ===== src/Notifications/Enqueue/Deliveries.antt =====
-- The deliveries of an occurrence (`EnqueueTx` of
-- src/backend/internal/repository/notifications.go).
use roomies.Base.{
  ℕ, ◌≤◌, ◌≡◌, refl, sym, subst, ◌∙◌, true, ◌∷◌, arith, ◌==◌, ==_refl, ==→eq, Bool-cases, inl, inr,
}
use roomies.Base.Sql.{count_where}
use roomies.Base.Result.{Result, ok, err}
use roomies.Base.Keeps.{Keeps, keep_bind, keep_pure, keep_read, keep_if}
use roomies.Base.Tx.{pure, ◌>>◌, >>=-eq-ok}
use roomies.Queue
use roomies.Queue.Enqueue.{insert_message, insert_job}
use roomies.Queue.{QueueError, Store}
use roomies.Notifications.{
  Category, expense_created, reminder, Delivery, NotificationPreferences, Tables, same_category,
  set_deliveries, set_queue, on_queue,
}
use roomies.Notifications.Enqueue.{
  Notice, Setting, Call, is_delivery_of, new_delivery, insert_delivery, insert_trigger,
  trigger_message, trigger_job, notify,
}

abbrev pub deliveries_of : Notice → ℕ → Tables → ℕ
deliveries_of n user s = count_where (is_delivery_of n user) s.deliveries

-- The members, their preferences and subscriptions stay, and so do the deliveries of the occurrence, at most one for
-- a user.
pub record Grows (n : Notice) (s t : Tables) : Type 0 where
  pub house : t.house ≡ s.house
  pub preferences : t.preferences ≡ s.preferences
  pub subscriptions : t.subscriptions ≡ s.subscriptions
  pub more : (user : ℕ) → deliveries_of n user s ≤ deliveries_of n user t
  pub one : (user : ℕ) → deliveries_of n user s ≤ 1 → deliveries_of n user t ≤ 1

same_category_refl : (c : Category) → same_category c c ≡ true
same_category_refl expense_created = refl
same_category_refl reminder = refl

module _ (n : Notice) where
  Grows-same :
      {s t : Tables}
      → t.house ≡ s.house
      → t.preferences ≡ s.preferences
      → t.subscriptions ≡ s.subscriptions
      → t.deliveries ≡ s.deliveries
      → Grows n s t
  Grows-same h p x d = record {
    house = h;
    preferences = p;
    subscriptions = x;
    more = λ user. rw d (ground arith);
    one = λ user small. rw d small;
  }

  pub Grows-refl : (s : Tables) → Grows n s s
  Grows-refl s = Grows-same refl refl refl refl

  pub Grows-trans : (s t u : Tables) → Grows n s t → Grows n t u → Grows n s u
  Grows-trans s t u h k = record {
    house = k.house ∙ h.house;
    preferences = k.preferences ∙ h.preferences;
    subscriptions = k.subscriptions ∙ h.subscriptions;
    more = λ user. let a = h.more user in let b = k.more user in ground (arith, a, b);
    one = λ user small. k.one user (h.one user small);
  }

  on_queue-Grows : {A : Type 0} (m : Queue.Action A) → Keeps (Grows n) (on_queue m)
  on_queue-Grows {A} m s r h = go (m s.queue) refl h
    where
      go : (x : Result QueueError (A × Store)) → m s.queue ≡ x → on_queue m s ≡ ok r → Grows n s r.1
      go (ok q) e h =
          let t : set_queue q.1 s ≡ r.1 = ground (arith, e) in
          subst (Grows n s) t (Grows-same refl refl refl refl)
      go (err x) e h = ground (arith, e)

-- A delivery of the occurrence is of one user.
own_delivery :
    (n : Notice) (user other : ℕ) (d : Delivery)
    → d.user_id ≡ user
    → is_delivery_of n other d ≡ true
    → other ≡ user
own_delivery n user other d e h = elim (Bool-cases (d.user_id == other)) [
  | inl same ↦ let q = ==→eq d.user_id other same in sym q ∙ e
  | inr away ↦ absurd (ground (arith, away, h))
]

module _ (env : Setting) (call : Call) (n : Notice) where
  insert-Grows :
      (user : ℕ) (p : NotificationPreferences) (s : Tables)
      → deliveries_of n user s ≡ 0
      → Grows n s (set_deliveries (new_delivery env call n user p ∷ s.deliveries) s)
  insert-Grows user p s none_there = record {
    house = refl;
    preferences = refl;
    subscriptions = refl;
    more = λ other. ground arith;
    one = λ other small.
        elim (Bool-cases (is_delivery_of n other (new_delivery env call n user p))) [
          | inr miss ↦ ground (arith, miss, small)
          | inl hit ↦
              let e = own_delivery n user other (new_delivery env call n user p) refl hit in
              let z : deliveries_of n other s ≡ 0 =
                subst (λ u. deliveries_of n u s ≡ 0) (sym e) none_there in
              ground (arith, hit, z)
        ];
  }

  trigger-Grows :
      (user : ℕ) (p : NotificationPreferences) → Keeps (Grows n) (insert_trigger env call n user p)
  unfolding insert_trigger
  trigger-Grows user p =
      let m = trigger_message env call n user p in
      keep_bind (Grows n) (Grows-trans n) _ _
        (keep_read (Grows n) (Grows-refl n)
          (λ s. count_where (λ x. x.dedupe_key == m.dedupe_key) s.queue.outbox))
        (λ k.
          keep_if (Grows n) (k == 0)
            (on_queue (insert_message m >> insert_job (trigger_job env call n user p))) (pure tt)
            (on_queue-Grows n _) (keep_pure (Grows n) (Grows-refl n) tt))

  insert_delivery_lem :
      (d : Delivery) (s t : Tables)
      → insert_delivery d s ≡ ok (tt, t)
      → set_deliveries (d ∷ s.deliveries) s ≡ t
  insert_delivery_lem d s t h =
      elim (Bool-cases (count_where (λ x. x.id == d.id) s.deliveries == 0)) [
        | inl fresh ↦ ground arith
        | inr taken ↦ ground arith
      ]

  own_new :
      (user : ℕ) (p : NotificationPreferences)
      → is_delivery_of n user (new_delivery env call n user p) ≡ true
  own_new user p = ground (
    arith,
    ==_refl n.house_id,
    ==_refl user,
    same_category_refl n.category,
    ==_refl n.resource_type,
    ==_refl n.resource_id,
    ==_refl n.occurrence,
  )

  pub notify_settles :
      (user : ℕ) (p : NotificationPreferences) (s : Tables) (r : Unit {0} × Tables)
      → deliveries_of n user s ≡ 0
      → notify env call n user p s ≡ ok r
      → Grows n s r.1 × (1 ≤ deliveries_of n user r.1)
  unfolding notify
  notify_settles user p s r none_there h =
      let d : Delivery = new_delivery env call n user p in
      let (a, t, first, second) =
        >>=-eq-ok (insert_delivery d) (λ _. insert_trigger env call n user p) s h in
      let e = insert_delivery_lem d s t first in
      let u : Tables = set_deliveries (d ∷ s.deliveries) s in
      let g : Grows n s t = subst (Grows n s) e (insert-Grows user p s none_there) in
      let here : 1 ≤ deliveries_of n user t =
        subst (λ x. 1 ≤ deliveries_of n user x) e (ground (arith, own_new user p)) in
      let k = trigger-Grows user p t r second in
      let more = k.more user in (Grows-trans n s t r.1 g k, ground (arith, here, more))
