-- ===== src/Scheduler/Due.antt =====
-- What a run that announces an occurrence does (src/backend/internal/repository/scheduler.go).
use Prim.Native.String.{String}
use roomies.Base.{
  ℕ, ◌<◌, ◌≡◌, refl, ap, subst, sym, ◌∙◌, Bool, true, false, Option, some, List, [], ◌∷◌, arith,
  ◌==◌, Bool-cases, Option-cases, inl, inr,
}
use roomies.Base.Sql.{count_where, update_where}
use roomies.Base.Result.{Result, ok, err}
use roomies.Base.Tx.{>>=-eq-ok}
use roomies.Notifications
use roomies.Notifications.Enqueue.{Setting, Call, enqueue}
use roomies.Scheduler.{
  Recurrence, ScheduledHouseEvent, Tables, on_notifications, set_scheduled, is_due, comes_first,
  select_due, spec_of, is_claimable, claim_for, is_claimed, advance_to, next_or_zero, notice_of,
  due_event, finish_announcement, announce, announce_next, claim_event, run_due_scheduled_event,
}

-- What the rules of the parameter promise.
abbrev pub IsLater : Recurrence → Type 0
IsLater rules =
    (e : ScheduledHouseEvent) (ex_dates : List String) (at n : ℕ)
    → rules.next (spec_of e ex_dates) at ≡ some (some n)
    → at < n

first_row :
    (now : ℕ) (x e : ScheduledHouseEvent) (xs : List ScheduledHouseEvent)
    → is_due now x ≡ true
    → x ≡ e
    → (is_due now e ≡ true)
      × ((q : ScheduledHouseEvent → Bool) → q e ≡ true → (count_where q (x ∷ xs) == 0) ≡ false)
first_row now x e xs due same = (
  subst (λ y. is_due now y ≡ true) same due,
  λ q hit. let here : q x ≡ true = subst (λ y. q y ≡ true) (sym same) hit in ground (arith, here),
)

-- The event that is announced is due and is one of the rows.
pub select_due_lem :
    (now : ℕ) (es : List ScheduledHouseEvent) (e : ScheduledHouseEvent)
    → select_due now es ≡ some e
    → (is_due now e ≡ true)
      × ((q : ScheduledHouseEvent → Bool) → q e ≡ true → (count_where q es == 0) ≡ false)
unfolding select_due
select_due_lem now [] e h = cc
select_due_lem now (x ∷ xs) e h = elim (Bool-cases (is_due now x)) [
  | inr early ↦
      let rest = select_due_lem now xs e (ground (arith, early, h)) in
      (rest.0, λ q hit. let there = rest.1 q hit in ground (arith, there))
  | inl due ↦ elim (Option-cases (select_due now xs)) [
    | inl alone ↦ first_row now x e xs due (ground (arith, due, alone, h))
    | inr (f, found) ↦ elim (Bool-cases (comes_first f x)) [
      | inr after ↦ first_row now x e xs due (ground (arith, due, found, after, h))
      | inl before ↦
          let rest = select_due_lem now xs f found in
          let same : f ≡ e = ground (arith, due, found, before, h) in
          (
            subst (λ y. is_due now y ≡ true) same rest.0,
            λ q hit.
                let there = rest.1 q (subst (λ y. q y ≡ true) (sym same) hit) in
                ground (arith, there),
          )
    ]
  ]
]

pub record Fired (rules : Recurrence) (now owner duration : ℕ) (s t : Tables) : Type 0 where
  pub event : ScheduledHouseEvent
  pub next : Option ℕ
  pub ex_dates : List String
  pub selected : select_due now s.scheduled ≡ some event
  pub computed : rules.next (spec_of event ex_dates) (next_or_zero event) ≡ some next
  pub rows :
      t.scheduled
      ≡ update_where
          (is_claimed now owner event)
          (advance_to now next)
          (update_where (is_claimable now event) (claim_for now owner duration) s.scheduled)
  pub only :
      count_where
        (is_claimed now owner event)
        (update_where (is_claimable now event) (claim_for now owner duration) s.scheduled)
      ≡ 1
  pub logged : t.due_events ≡ due_event event ∷ s.due_events

on_notifications_lem :
    {A : Type 0} (m : Notifications.Action A) (s : Tables) (r : A × Tables)
    → on_notifications m s ≡ ok r
    → (r.1.scheduled ≡ s.scheduled) × (r.1.due_events ≡ s.due_events)
on_notifications_lem {A} m s r h = go (m s.notifications) refl h
  where
    go :
        (x : Result Notifications.NotificationError (A × Notifications.Tables))
        → m s.notifications ≡ x
        → on_notifications m s ≡ ok r
        → (r.1.scheduled ≡ s.scheduled) × (r.1.due_events ≡ s.due_events)
    go (ok q) e h =
        let t : (record s { notifications = q.1 }) ≡ r.1 = ground (arith, e) in
        (sym (ap (λ x. x.scheduled) t), sym (ap (λ x. x.due_events) t))
    go (err x) e h = absurd (ground (arith, e))

module _ (rules : Recurrence) (env : Setting) (call : Call) (kind owner duration : ℕ) where
  record Announced (e : ScheduledHouseEvent) (next : Option ℕ) (s t : Tables) : Type 0 where
    rows :
        t.scheduled
        ≡ update_where (is_claimed call.now owner e) (advance_to call.now next) s.scheduled
    only : count_where (is_claimed call.now owner e) s.scheduled ≡ 1
    logged : t.due_events ≡ due_event e ∷ s.due_events

  announce_lem :
      (e : ScheduledHouseEvent) (next : Option ℕ) (s t : Tables)
      → announce rules env call kind owner duration e next s ≡ ok (true, t)
      → Announced e next s t
  announce_lem e next s t h =
      let q = is_claimed call.now owner e in
      let (a, u, first, rest) =
        >>=-eq-ok (on_notifications (enqueue env call (notice_of kind e)))
          (λ _. finish_announcement call.now owner e next) s h in
      let same = on_notifications_lem (enqueue env call (notice_of kind e)) s (a, u) first in
      elim (Bool-cases (count_where q u.scheduled == 1)) [
        | inr lost ↦ absurd (ground (arith, lost, rest))
        | inl won ↦
            let e' : (record u {
              due_events = due_event e ∷ u.due_events;
              scheduled = update_where q (advance_to call.now next) u.scheduled;
            })
                ≡ t =
              ground (arith, won, rest) in
            record {
              rows =
                  sym (ap (λ x. x.scheduled) e')
                  ∙ ap (λ x. update_where q (advance_to call.now next) x) same.0;
              only = subst (λ x. count_where q x ≡ 1) same.0 (ground (arith, won));
              logged = sym (ap (λ x. x.due_events) e') ∙ ap (λ x. due_event e ∷ x) same.1;
            }
      ]

  announce_next_lem :
      (e : ScheduledHouseEvent) (s t : Tables)
      → announce_next rules env call kind owner duration e s ≡ ok (true, t)
      → (next : Option ℕ) × (ex_dates : List String) × (rules.next
            (spec_of e ex_dates)
            (next_or_zero e)
          ≡ some next)
        × Announced e next s t
  unfolding announce_next
  announce_next_lem e s t h = elim (Option-cases e.ex_dates) [
    | inl broken ↦ absurd (ground (arith, broken, h))
    | inr (ex_dates, decoded) ↦
        elim (Option-cases (rules.next (spec_of e ex_dates) (next_or_zero e))) [
          | inl broken ↦ absurd (ground (arith, decoded, broken, h))
          | inr (next, computed) ↦
              let run : announce rules env call kind owner duration e next s ≡ ok (true, t) =
                ground (arith, decoded, computed, h) in
              (next, ex_dates, computed, announce_lem e next s t run)
        ]
  ]

  -- A run that announces an occurrence.
  pub run_due_lem :
      (s t : Tables)
      → run_due_scheduled_event rules env call kind owner duration s ≡ ok (true, t)
      → Fired rules call.now owner duration s t
  unfolding run_due_scheduled_event claim_event
  run_due_lem s t h = elim (Option-cases (select_due call.now s.scheduled)) [
    | inl idle ↦ absurd (ground (arith, idle, h))
    | inr (e, selected) ↦
        elim (Bool-cases (count_where (is_claimable call.now e) s.scheduled == 0)) [
          | inl lost ↦ absurd (ground (arith, selected, lost, h))
          | inr won ↦
              let u : Tables =
                set_scheduled
                  (update_where (is_claimable call.now e) (claim_for call.now owner duration)
                    s.scheduled)
                  s in
              let run : announce_next rules env call kind owner duration e u ≡ ok (true, t) =
                ground (arith, selected, won, h) in
              let (next, ex_dates, computed, did) = announce_next_lem e u t run in
              record {
                event = e;
                next = next;
                ex_dates = ex_dates;
                selected = selected;
                computed = computed;
                rows = did.rows;
                only = did.only;
                logged = did.logged;
              }
        ]
  ]
