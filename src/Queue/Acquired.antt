-- ===== src/Queue/Acquired.antt =====
-- Which job `AcquireNextJob` of src/backend/internal/repository/jobs.go takes, and what its row is then.
use roomies.Base.{
  ℕ, ◌+◌, ◌≤◌, ◌<◌, ◌≡◌, ◌⊎◌, true, false, Option, none, some, List, [], ◌∷◌, All, All-mono,
  Distinct, ap, subst, arith, ◌==◌, if◌then◌else◌, Bool-cases, Option-cases, inl, inr,
}
use roomies.Base.Result.{ok}
use roomies.Queue.{
  DurableJob, Store, is_runnable, precedes, select_job_candidate, find_job, acquire_next_job,
}
use roomies.Queue.Candidate.{ids, none_runnable, select_job_candidate-IsCandidate}
use roomies.Queue.Lease.{acquire_next_job-Taken}

-- No lease, or one that has ended.
abbrev pub IsFree : ℕ → Option ℕ → Type 0
IsFree now none = Unit
IsFree now (some t) = t ≤ now

-- The job is neither completed nor given up, its time has come, and no worker holds it.
abbrev pub IsDue : ℕ → DurableJob → Type 0
IsDue now j =
    (j.completed_at ≡ none)
    × (j.dead_lettered_at ≡ none)
    × (j.available_at ≤ now)
    × IsFree now j.lease_expires_at

-- In the order of the times at which the jobs may run, then of their creation, then of the ids.
abbrev pub IsFirst : DurableJob → DurableJob → Type 0
IsFirst a b =
    (a.available_at < b.available_at)
    ⊎ ((a.available_at ≡ b.available_at)
        × ((a.created_at < b.created_at) ⊎ ((a.created_at ≡ b.created_at) × (a.id ≤ b.id))))

-- The row that was taken, what it is then, and the tables.
pub record Acquired (now owner duration : ℕ) (s t : Store) (row j : DurableJob) : Type 0 where
  pub found : find_job row.id s.jobs ≡ some row
  pub due : IsDue now row
  pub first : All (λ k. (¬ IsDue now k) ⊎ IsFirst row k) s.jobs
  pub leased : j ≡ record row {
    lease_owner = some owner;
    lease_expires_at = some (now + duration);
    lease_generation = row.lease_generation + 1;
    attempts = row.attempts + 1;
    updated_at = now;
  }
  pub stored : find_job row.id t.jobs ≡ some j
  pub others : (id : ℕ) → find_job id t.jobs ≡ (if id == row.id then some j else find_job id s.jobs)
  pub outbox_kept : t.outbox ≡ s.outbox

is_runnable-IsDue : (now : ℕ) (j : DurableJob) → is_runnable now j ≡ true → IsDue now j
unfolding is_runnable
is_runnable-IsDue now j h = ground arith

IsDue-runs : (now : ℕ) (j : DurableJob) → IsDue now j → is_runnable now j ≡ true
unfolding is_runnable
IsDue-runs now j h = ground arith

precedes-IsFirst : (a b : DurableJob) → precedes b a ≡ false → IsFirst a b
unfolding precedes
precedes-IsFirst a b h = ground arith

All-found :
    (P : DurableJob → Type 0) (id : ℕ) (js : List DurableJob) {j : DurableJob}
    → All P js
    → find_job id js ≡ some j
    → P j
All-found P id [] h f = cc
All-found P id (k ∷ js) {j} h f = elim (Bool-cases (k.id == id)) [
  | inl here ↦ let e : k ≡ j = ground (arith, f, here) in subst P e h.0
  | inr other ↦ All-found P id js {j = j} h.1 (ground (arith, f, other))
]

passed :
    (now : ℕ) (c k : DurableJob)
    → (is_runnable now k ≡ true → precedes k c ≡ false)
    → (¬ IsDue now k) ⊎ IsFirst c k
passed now c k h = elim (Bool-cases (is_runnable now k)) [
  | inl ready ↦ inr (precedes-IsFirst c k (h ready))
  | inr idle ↦ inl (λ due. absurd (ground (arith, idle, IsDue-runs now k due)))
]

some_candidate :
    (now : ℕ) (js : List DurableJob) (k : DurableJob)
    → find_job k.id js ≡ some k
    → IsDue now k
    → (c : DurableJob) × (select_job_candidate now js ≡ some c)
some_candidate now js k there due = elim (Option-cases (select_job_candidate now js)) [
  | inr chosen ↦ chosen
  | inl nothing ↦
      let idle =
        All-found (λ j. is_runnable now j ≡ false) k.id js {j = k} (none_runnable now js nothing)
          there in
      absurd (ground (arith, idle, IsDue-runs now k due))
]

-- Where a row of the table may run and ids are distinct, `AcquireNextJob` succeeds. It takes the row
-- that comes first, by the time from which it may run, then by its creation, then by its id, of all
-- rows that may run. The row gets the worker's name, a lease until `duration` from now, the next
-- generation and one more attempt; no other row and no message changes.
pub acquire_next_job_takes :
    (now owner duration : ℕ) (s : Store) (k : DurableJob)
    → Distinct (ids s.jobs)
    → find_job k.id s.jobs ≡ some k
    → IsDue now k
    → (row j : DurableJob) × (t : Store) × (acquire_next_job now owner duration s ≡ ok (some j, t))
      × Acquired now owner duration s t row j
acquire_next_job_takes now owner duration s k d there due =
    let (c, chosen) = some_candidate now s.jobs k there due in
    let (j, t, run, taken) = acquire_next_job-Taken now owner duration s d chosen in
    let row = taken.candidate in
    let cand = select_job_candidate-IsCandidate now s.jobs taken.chosen in
    let named : j.id ≡ row.id = ap (λ x. x.id) taken.leased in
    (
      row,
      j,
      t,
      run,
      record {
        found = cand.found d;
        due = is_runnable-IsDue now row cand.runnable;
        first = All-mono _ _ s.jobs (passed now row) cand.first;
        leased = taken.leased;
        stored = subst (λ i. find_job i t.jobs ≡ some j) named taken.stored;
        others = λ id.
            subst (λ i. find_job id t.jobs ≡ (if id == i then some j else find_job id s.jobs)) named
              (taken.others id);
        outbox_kept = taken.outbox_kept;
      },
    )
