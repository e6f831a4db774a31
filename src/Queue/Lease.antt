-- ===== src/Queue/Lease.antt =====
-- The lease protocol of the job queue (src/backend/internal/repository/jobs.go): the row, the handle and
-- the rest of the table when a worker takes a job.
use roomies.Base.{
  ℕ, ◌≡◌, refl, ap, ◌∙◌, ◌≢◌, true, false, some, List, [], ◌∷◌, Distinct, arith, ◌==◌, ==→eq,
  if◌then◌else◌, Bool-cases, Option-cases, inl, inr,
}
use roomies.Base.Sql.{count_where, update_where}
use roomies.Base.Result.{ok}
use roomies.Queue.{
  DurableJob, Store, is_runnable, select_job_candidate, lease_to, find_job, may_lease,
  acquire_next_job, set_jobs,
}
use roomies.Queue.Candidate.{ids, find_job-update, select_job_candidate-IsCandidate}

count-found :
    (now : ℕ) (c : DurableJob) (js : List DurableJob)
    → find_job c.id js ≡ some c
    → is_runnable now c ≡ true
    → (count_where (may_lease now c.id) js == 0) ≡ false
count-found now c [] h r = cc
count-found now c (j ∷ js) h r = elim (Bool-cases (j.id == c.id)) [
  | inl same ↦ let e : j ≡ c = ground arith in ground (arith, ap (is_runnable now) e)
  | inr other ↦ ground (arith, count-found now c js)
]

pub find_job-id :
    (id : ℕ) (js : List DurableJob) {j : DurableJob} → find_job id js ≡ some j → j.id ≡ id
find_job-id id [] h = cc
find_job-id id (k ∷ js) {j} h = ground (arith, find_job-id id js {j = j})

module _ (now owner duration : ℕ) (js : List DurableJob) (c : DurableJob) where
  taken : List DurableJob
  taken = update_where (may_lease now c.id) (lease_to now owner duration) js

  find_job-taken :
      find_job c.id js ≡ some c
      → is_runnable now c ≡ true
      → find_job c.id taken ≡ some (lease_to now owner duration c)
  unfolding taken
  find_job-taken found ready =
      rw
        (
          find_job-update (may_lease now c.id) (lease_to now owner duration) (λ j. refl) c.id js,
          found,
        )
        (ground arith)

  find_job-taken_ne : (id : ℕ) → id ≢ c.id → find_job id taken ≡ find_job id js
  unfolding taken
  find_job-taken_ne id ne =
      rw (find_job-update (may_lease now c.id) (lease_to now owner duration) (λ j. refl) id js)
        (elim (Option-cases (find_job id js)) [
          | inl absent ↦ rw absent
          | inr (j, there) ↦ rw there (ground (arith, find_job-id id js there))
        ])

-- What a worker has when it took a job, and what became of the table.
pub record Taken (now owner duration : ℕ) (s t : Store) (j : DurableJob) : Type 0 where
  pub candidate : DurableJob
  pub chosen : select_job_candidate now s.jobs ≡ some candidate
  pub leased : j ≡ lease_to now owner duration candidate
  pub stored : find_job j.id t.jobs ≡ some j
  pub others : (id : ℕ) → find_job id t.jobs ≡ (if id == j.id then some j else find_job id s.jobs)
  pub outbox_kept : t.outbox ≡ s.outbox

-- What `AcquireNextJob` does where it has a candidate.
pub acquire_next_job-Taken :
    (now owner duration : ℕ) (s : Store) {c : DurableJob}
    → Distinct (ids s.jobs)
    → select_job_candidate now s.jobs ≡ some c
    → (j : DurableJob) × (t : Store) × (acquire_next_job now owner duration s ≡ ok (some j, t))
      × Taken now owner duration s t j
unfolding acquire_next_job taken
acquire_next_job-Taken now owner duration s {c} d h =
    let cand = select_job_candidate-IsCandidate now s.jobs h in
    let found = cand.found d in
    let js = taken now owner duration s.jobs c in
    let stored = find_job-taken now owner duration s.jobs c found cand.runnable in
    (
      lease_to now owner duration c,
      set_jobs js s,
      ground (arith, h, count-found now c s.jobs found cand.runnable, stored),
      record {
        candidate = c;
        chosen = h;
        leased = refl;
        stored = stored;
        others = λ id. elim (Bool-cases (id == c.id)) [
          | inl same ↦ rw same (ap (λ i. find_job i js) (==→eq id c.id same) ∙ stored)
          | inr other ↦
              rw other (find_job-taken_ne now owner duration s.jobs c id (λ e. ground arith))
        ];
        outbox_kept = refl;
      },
    )
