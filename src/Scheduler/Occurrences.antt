-- ===== src/Scheduler/Occurrences.antt =====
-- The occurrences that sequences of runs announce (src/backend/internal/repository/scheduler.go).
use Prim.Native.String.{String}
use roomies.Base.{
  ℕ, ◌≤◌, ◌≡◌, refl, subst, sym, ◌∙◌, ◌⊎◌, Bool, true, false, ◌&&◌, Option, none, some, List, [],
  ◌∷◌, arith, leb, ◌==◌, ==_refl, ==→eq, Bool-cases, Option-cases, inl, inr,
}
use roomies.Base.Sql.{count_where, update_where, delete_where}
use roomies.Scheduler.{
  Recurrence, ScheduledHouseEvent, DueEvent, Tables, is_due, is_at_most, spec_of, is_claimable,
  claim_for, is_claimed, advance_to, next_or_zero, due_event,
}
use roomies.Scheduler.Due.{IsLater, Fired, select_due_lem}

abbrev pub has_event : ℕ → ScheduledHouseEvent → Bool
has_event id x = x.id == id

-- The next occurrence of the event is not after the time.
abbrev pub is_behind : ℕ → ℕ → ScheduledHouseEvent → Bool
is_behind id k x = x.id == id && is_at_most x.next_occurrence_at k

-- The row of an occurrence of an event.
abbrev pub is_announcement : ℕ → ℕ → DueEvent → Bool
is_announcement id k d = d.event_id == id && d.occurrence_at == k

-- An identifier is of one row; an announced occurrence is announced once and lies before the next
-- one.
pub record IsOnce (s : Tables) : Type 0 where
  pub ids : (id : ℕ) → count_where (has_event id) s.scheduled ≤ 1
  pub once : (id k : ℕ) → count_where (is_announcement id k) s.due_events ≤ 1
  pub past :
      (id k : ℕ)
      → (count_where (is_announcement id k) s.due_events ≡ 0)
        ⊎ (count_where (is_behind id k) s.scheduled ≡ 0)

count_kept :
    {A : Type 0} (p q : A → Bool) (f : A → A)
    → ((x : A) → q x ≡ true → p (f x) ≡ p x)
    → (xs : List A) → count_where p (update_where q f xs) ≡ count_where p xs
count_kept p q f same [] = refl
count_kept p q f same (x ∷ xs) =
    let rest = count_kept p q f same xs in
    elim (Bool-cases (q x)) [
      | inl hit ↦ ground (arith, hit, same x hit, rest)
      | inr miss ↦ ground (arith, miss, rest)
    ]

pub count_deleted :
    {A : Type 0} (p q : A → Bool) (xs : List A)
    → count_where p (delete_where q xs) ≤ count_where p xs
count_deleted p q [] = ground arith
count_deleted p q (x ∷ xs) =
    let rest = count_deleted p q xs in
    elim (Bool-cases (q x)) [
      | inl hit ↦ ground (arith, hit, rest)
      | inr miss ↦ ground (arith, miss, rest)
    ]

-- Two rows: another one with the identifier would be a second.
none_behind :
    (now owner k : ℕ) (e : ScheduledHouseEvent) (next : Option ℕ) (xs : List ScheduledHouseEvent)
    → count_where (has_event e.id) xs ≡ 0
    → (count_where (is_claimed now owner e) xs ≡ 0)
      × (count_where
            (is_behind e.id k)
            (update_where (is_claimed now owner e) (advance_to now next) xs)
          ≡ 0)
none_behind now owner k e next [] h = (refl, refl)
none_behind now owner k e next (x ∷ xs) h = elim (Bool-cases (x.id == e.id)) [
  | inl here ↦ absurd (ground (arith, here, h))
  | inr away ↦
      let rest = none_behind now owner k e next xs (ground (arith, away, h)) in
      (ground (arith, away, rest), ground (arith, away, rest))
]

advanced :
    (now owner k : ℕ) (e : ScheduledHouseEvent) (next : Option ℕ) (xs : List ScheduledHouseEvent)
    → is_at_most next k ≡ false
    → count_where (has_event e.id) xs ≤ 1
    → count_where (is_claimed now owner e) xs ≡ 1
    → count_where
        (is_behind e.id k)
        (update_where (is_claimed now owner e) (advance_to now next) xs)
      ≡ 0
advanced now owner k e next [] later one only = refl
advanced now owner k e next (x ∷ xs) later one only = elim (Bool-cases (x.id == e.id)) [
  | inr away ↦
      let rest =
        advanced now owner k e next xs later (ground (arith, away, one))
          (ground (arith, away, only)) in
      ground (arith, away, rest)
  | inl here ↦
      let rest = none_behind now owner k e next xs (ground (arith, here, one)) in
      elim (Bool-cases (is_claimed now owner e x)) [
        | inl hit ↦ ground (arith, hit, later, rest)
        | inr miss ↦ absurd (ground (arith, miss, rest, only))
      ]
]

due_next :
    (now : ℕ) (e : ScheduledHouseEvent)
    → is_due now e ≡ true
    → e.next_occurrence_at ≡ some (next_or_zero e)
due_next now e due = elim (Option-cases e.next_occurrence_at) [
  | inl absent ↦ absurd (ground (arith, absent, due))
  | inr (n, there) ↦ rw there refl
]

later_next :
    (rules : Recurrence) (e : ScheduledHouseEvent) (ex_dates : List String) (next : Option ℕ)
    (k : ℕ)
    → IsLater rules
    → rules.next (spec_of e ex_dates) (next_or_zero e) ≡ some next
    → k ≤ next_or_zero e
    → is_at_most next k ≡ false
later_next rules e ex_dates none k later computed small = refl
later_next rules e ex_dates (some n) k later computed small =
    let after = later e ex_dates (next_or_zero e) n computed in ground (arith, after, small)

other_row :
    (now owner id : ℕ) (e x : ScheduledHouseEvent)
    → is_claimed now owner e x ≡ true
    → (e.id == id) ≡ false
    → (x.id == id) ≡ false
other_row now owner id e x hit other = elim (Bool-cases (x.id == e.id)) [
  | inl same ↦ let q = ==→eq x.id e.id same in subst (λ i. (i == id) ≡ false) (sym q) other
  | inr away ↦ absurd (ground (arith, away, hit))
]

module _ (rules : Recurrence) (later : IsLater rules) (now owner duration : ℕ) (s t : Tables)
    (f : Fired rules now owner duration s t) (h : IsOnce s) where
  abbrev claimed : List ScheduledHouseEvent
  claimed = update_where (is_claimable now f.event) (claim_for now owner duration) s.scheduled

  kept-rows :
      (p : ScheduledHouseEvent → Bool)
      → ((x : ScheduledHouseEvent) → p (claim_for now owner duration x) ≡ p x)
      → count_where p claimed ≡ count_where p s.scheduled
  kept-rows p same =
      count_kept p (is_claimable now f.event) (claim_for now owner duration) (λ x hit. same x)
        s.scheduled

  ids_after : (id : ℕ) → count_where (has_event id) t.scheduled ≤ 1
  ids_after id =
      let first = kept-rows (has_event id) (λ x. refl) in
      let second =
        count_kept (has_event id) (is_claimed now owner f.event) (advance_to now f.next)
          (λ x hit. refl) claimed in
      let one = h.ids id in rw f.rows (ground (arith, first, second, one))

  past_after :
      (k : ℕ) → k ≤ next_or_zero f.event → count_where (is_behind f.event.id k) t.scheduled ≡ 0
  past_after k small =
      let first = kept-rows (has_event f.event.id) (λ x. refl) in
      let one = h.ids f.event.id in
      rw f.rows (
        advanced now owner k f.event f.next claimed
          (later_next rules f.event f.ex_dates f.next k later f.computed small)
          (ground (arith, first, one)) f.only)

  others_after :
      (id k : ℕ)
      → (f.event.id == id) ≡ false
      → count_where (is_behind id k) t.scheduled ≡ count_where (is_behind id k) s.scheduled
  others_after id k other =
      let first = kept-rows (is_behind id k) (λ x. refl) in
      let second =
        count_kept (is_behind id k) (is_claimed now owner f.event) (advance_to now f.next)
          (λ x hit. let away = other_row now owner id f.event x hit other in ground (arith, away))
          claimed in
      rw f.rows (second ∙ first)

  -- The event that is announced is not past its occurrence.
  not_past :
      (k : ℕ)
      → next_or_zero f.event ≤ k
      → (count_where (is_behind f.event.id k) s.scheduled == 0) ≡ false
  not_past k small =
      let due = select_due_lem now s.scheduled f.event f.selected in
      let next = due_next now f.event due.0 in
      due.1 (is_behind f.event.id k) (rw next (ground (arith, ==_refl f.event.id, small)))

  log_after :
      (id k : ℕ)
      → is_announcement id k (due_event f.event) ≡ false
      → count_where (is_announcement id k) t.due_events
        ≡ count_where (is_announcement id k) s.due_events
  log_after id k miss = rw f.logged (ground (arith, miss))

  -- An occurrence that is not before the announced one was not announced.
  not_announced :
      (k : ℕ)
      → next_or_zero f.event ≤ k
      → count_where (is_announcement f.event.id k) s.due_events ≡ 0
  not_announced k small = elim (h.past f.event.id k) [
    | inl never ↦ never
    | inr behind ↦ absurd (let there = not_past k small in ground (arith, there, behind))
  ]

  own_after :
      (k : ℕ)
      → (count_where (is_announcement f.event.id k) t.due_events ≤ 1)
        × ((count_where (is_announcement f.event.id k) t.due_events ≡ 0)
            ⊎ (count_where (is_behind f.event.id k) t.scheduled ≡ 0))
  own_after k = elim (Bool-cases (next_or_zero f.event == k)) [
    | inl here ↦
        let e = ==→eq (next_or_zero f.event) k here in
        let fresh = not_announced k (ground (arith, e)) in
        (
          rw f.logged (ground (arith, here, ==_refl f.event.id, fresh)),
          inr (past_after k (ground (arith, e))),
        )
    | inr away ↦
        let log = log_after f.event.id k (ground (arith, away)) in
        let one = h.once f.event.id k in
        (
          rw log one,
          elim (Bool-cases (leb k (next_or_zero f.event))) [
            | inl before ↦ inr (past_after k (ground (arith, before)))
            | inr after ↦ inl (rw log (not_announced k (ground (arith, after))))
          ],
        )
  ]

  announced_after :
      (id k : ℕ)
      → (count_where (is_announcement id k) t.due_events ≤ 1)
        × ((count_where (is_announcement id k) t.due_events ≡ 0)
            ⊎ (count_where (is_behind id k) t.scheduled ≡ 0))
  announced_after id k = elim (Bool-cases (f.event.id == id)) [
    | inr other ↦
        let log = log_after id k (ground (arith, other)) in
        let rows = others_after id k other in rw (log, rows) (h.once id k, h.past id k)
    | inl same ↦
        let e = ==→eq f.event.id id same in
        subst
          (λ id.
            (count_where (is_announcement id k) t.due_events ≤ 1)
            × ((count_where (is_announcement id k) t.due_events ≡ 0)
                ⊎ (count_where (is_behind id k) t.scheduled ≡ 0)))
          e (own_after k)
  ]

  pub fired-IsOnce : IsOnce t
  fired-IsOnce = record {
    ids = ids_after;
    once = λ id k. (announced_after id k).0;
    past = λ id k. (announced_after id k).1;
  }
