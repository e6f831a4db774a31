-- ===== src/Scheduler/Runs.antt =====
-- Sequences of runs of the scheduler (src/backend/internal/repository/scheduler.go) by any workers,
-- with events deleted and notifications changed in between.
use roomies.Base.{
  ℕ, ◌≤◌, ◌≡◌, refl, subst, Bool, true, false, [], arith, ◌==◌, Bool-cases, inl, inr,
}
use roomies.Base.Sql.{count_where, delete_where}
use roomies.Base.Result.{Result, ok, err}
use roomies.Notifications
use roomies.Notifications.Enqueue.{Setting, Call}
use roomies.Scheduler.{
  Recurrence, Tables, ScheduleError, commit_due, run_scheduler, run_due_scheduled_event, is_event,
  delete_scheduled_event, set_scheduled,
}
use roomies.Scheduler.Due.{IsLater, Fired, run_due_lem}
use roomies.Scheduler.Occurrences.{
  has_event, is_behind, is_announcement, IsOnce, fired-IsOnce, count_deleted,
}

pub data Runs (rules : Recurrence) : Tables → Tables → Type 0 where
  done : {s : Tables} → Runs rules s s
  runs :
      (env : Setting) (call : Call) (kind owner duration : ℕ) {s t : Tables}
      → Runs rules (run_scheduler rules env call kind owner duration s).1 t
      → Runs rules s t
  deletes :
      (house id : ℕ) {s t u : Tables}
      → delete_scheduled_event house id s ≡ ok (tt, t)
      → Runs rules t u
      → Runs rules s u
  notifies :
      (n : Notifications.Tables) {s t : Tables}
      → Runs rules (record s { notifications = n }) t
      → Runs rules s t

module _ (rules : Recurrence) (later : IsLater rules) where
  commit-IsOnce :
      (now owner duration : ℕ) (s : Tables) (r : Result ScheduleError (Bool × Tables))
      → ((t : Tables) → r ≡ ok (true, t) → Fired rules now owner duration s t)
      → IsOnce s
      → IsOnce (commit_due r s).1
  commit-IsOnce now owner duration s (ok (true, t)) fired h =
      fired-IsOnce rules later now owner duration s t (fired t refl) h
  commit-IsOnce now owner duration s (ok (false, t)) fired h = h
  commit-IsOnce now owner duration s (err e) fired h = h

  delete-IsOnce :
      (house id : ℕ) (s t : Tables)
      → delete_scheduled_event house id s ≡ ok (tt, t)
      → IsOnce s
      → IsOnce t
  unfolding delete_scheduled_event
  delete-IsOnce house id s t e h =
      let q = is_event house id in
      elim (Bool-cases (count_where q s.scheduled == 0)) [
        | inl missing ↦ absurd (ground (arith, missing, e))
        | inr there ↦
            let same : set_scheduled (delete_where q s.scheduled) s ≡ t =
              ground (arith, there, e) in
            subst IsOnce same (record {
              ids = λ id.
                  let a = h.ids id in
                  let b = count_deleted (has_event id) q s.scheduled in ground (arith, a, b);
              once = h.once;
              past = λ id k. elim (h.past id k) [
                | inl never ↦ inl never
                | inr gone ↦
                    let b = count_deleted (is_behind id k) q s.scheduled in
                    inr (ground (arith, gone, b))
              ];
            })
      ]

  Runs-IsOnce : {s t : Tables} → Runs rules s t → IsOnce s → IsOnce t
  Runs-IsOnce done h = h
  Runs-IsOnce (runs env call kind owner duration {s} {t} rest) h = Runs-IsOnce rest (
      commit-IsOnce call.now owner duration s
        (run_due_scheduled_event rules env call kind owner duration s)
        (λ t e. run_due_lem rules env call kind owner duration s t e) h)
  Runs-IsOnce (deletes house id {s} {t} {u} e rest) h =
      Runs-IsOnce rest (delete-IsOnce house id s t e h)
  Runs-IsOnce (notifies n {s} {t} rest) h =
      Runs-IsOnce rest (record { ids = h.ids; once = h.once; past = h.past })

-- No occurrence of a scheduled event is announced twice. Where the rules give times after the one they
-- are asked for, identifiers are of one row and nothing is announced yet, every sequence of runs of
-- the scheduler, by any workers at any times, of deletions of events and of changes of the
-- notifications leaves at most one row of an event and an occurrence in the log.
pub announced_once :
    (rules : Recurrence) (s t : Tables) (event occurrence : ℕ)
    → IsLater rules
    → ((id : ℕ) → count_where (has_event id) s.scheduled ≤ 1)
    → s.due_events ≡ []
    → Runs rules s t
    → count_where (is_announcement event occurrence) t.due_events ≤ 1
announced_once rules s t event occurrence later unique empty steps =
    (Runs-IsOnce rules later steps (record {
      ids = unique;
      once = λ id k. rw empty (ground arith);
      past = λ id k. inl (rw empty refl);
    })).once
      event occurrence
