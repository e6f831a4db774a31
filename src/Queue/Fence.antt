-- ===== src/Queue/Fence.antt =====
-- Fencing of stale workers (src/backend/internal/repository/jobs.go). The transactions of all workers
-- happen one after another, in any order: a `Step` is one that commits, and one that fails leaves
-- the store as it was.
use roomies.Base.{
  ℕ, ◌+◌, ◌≤◌, ◌<◌, ◌≡◌, refl, ap, subst, ◌∙◌, Bool, true, false, Option, none, some, List, [], ◌∷◌,
  Distinct, contains, arith, ◌==◌, ==→eq, Bool-cases, Option-cases, inl, inr, ◌||◌, sym,
}
use mathlib.Core.Path.{subst₂}
use Prim.Native.String.{String}
use roomies.Base.Sql.{select_one, count_where, update_where}
use roomies.Base.Result.{ok, err}
use roomies.Base.Tx.{>>=-eq-ok, transact}
use roomies.Queue.{
  DurableJob, Store, OutboxMessage, job_lease_lost, find_job, acquire_next_job, holds_lease,
  update_leased, update_pending, clear_delivery_payload, clear_delivery_payload_by_id,
  dispatch_message, fail_message, complete_outbox_job, fail_outbox_job, select_job_candidate,
  may_lease, lease_to, complete_job, fail_job,
}
use roomies.Queue.Candidate.{ids, ids-update, find_job-update, select_job_candidate-IsCandidate}
use roomies.Queue.Enqueue.{enqueue}
use roomies.Queue.Lease.{Taken, acquire_next_job-Taken}

-- A transaction of some worker that commits.
pub data Step (s : Store) : Store → Type 0 where
  acquired :
      {t : Store} (now owner duration : ℕ) (j : Option DurableJob)
      → acquire_next_job now owner duration s ≡ ok (j, t)
      → Step s t
  completed :
      {t : Store} (now : ℕ) (handle : DurableJob) (message : Option ℕ)
      → complete_outbox_job now handle message s ≡ ok (tt, t)
      → Step s t
  failed :
      {t : Store} (now : ℕ) (handle : DurableJob) (message : Option ℕ) (cause : String)
      (at : Option ℕ)
      → fail_outbox_job now handle message cause at s ≡ ok (tt, t)
      → Step s t
  enqueued :
      {t : Store} (m : OutboxMessage) (j : DurableJob) → enqueue m j s ≡ ok (tt, t) → Step s t
  redacted : {t : Store} (now key : ℕ) → clear_delivery_payload now key s ≡ ok (tt, t) → Step s t

pub data Reach (s : Store) : Store → Type 0 where
  here : Reach s s
  next : {t u : Store} → Reach s t → Step t u → Reach s u

abbrev generation : Option DurableJob → ℕ
generation none = 0
generation (some j) = j.lease_generation

-- The ids of the rows stay distinct, and no generation goes back.
record Advances (s t : Store) : Type 0 where
  distinct : Distinct (ids s.jobs) → Distinct (ids t.jobs)
  mono : (id : ℕ) → generation (find_job id s.jobs) ≤ generation (find_job id t.jobs)

Advances-refl : (s : Store) → Advances s s
Advances-refl s = record { distinct = λ d. d; mono = λ id. omega arith }

Advances-trans : {s t u : Store} → Advances s t → Advances t u → Advances s u
Advances-trans h k = record {
  distinct = λ d. k.distinct (h.distinct d);
  mono = λ id. omega (arith, h.mono id, k.mono id);
}

Advances-update :
    (p : DurableJob → Bool) (f : DurableJob → DurableJob) {s t : Store}
    → ((j : DurableJob) → (f j).id ≡ j.id)
    → ((j : DurableJob) → j.lease_generation ≤ (f j).lease_generation)
    → t.jobs ≡ update_where p f s.jobs
    → Advances s t
Advances-update p f {s} {t} keeps grows e = record {
  distinct = λ d. rw (e, ids-update p f keeps s.jobs) d;
  mono = λ id.
      rw (e, find_job-update p f keeps id s.jobs)
        (elim (Option-cases (find_job id s.jobs)) [
          | inl absent ↦ rw absent (omega arith)
          | inr (j, there) ↦ rw there (ground (arith, grows j))
        ]);
}

-- A key that no row has.
no_row :
    (id key : ℕ) (js : List DurableJob)
    → count_where (λ x. x.id == id || x.dedupe_key == key) js ≡ 0
    → (contains (ids js) id ≡ false) × (find_job id js ≡ none)
no_row id key [] h = (refl, refl)
no_row id key (j ∷ js) h = ground (arith, no_row id key js)

Advances-insert :
    (j : DurableJob) {s t : Store}
    → count_where (λ x. x.id == j.id || x.dedupe_key == j.dedupe_key) s.jobs ≡ 0
    → t.jobs ≡ j ∷ s.jobs
    → Advances s t
Advances-insert j {s} {t} fresh e =
    let (absent, unfound) = no_row j.id j.dedupe_key s.jobs fresh in
    record {
      distinct = λ d. rw e (absent, d);
      mono = λ id. rw e (elim (Bool-cases (j.id == id)) [
        | inl same ↦
            rw (ap (λ i. find_job i s.jobs) (sym (==→eq j.id id same)) ∙ unfound) (omega arith)
        | inr other ↦ rw other (omega arith)
      ]);
    }

enqueue_jobs :
    (m : OutboxMessage) (j : DurableJob) (s : Store) {t : Store}
    → enqueue m j s ≡ ok (tt, t)
    → (count_where (λ x. x.id == j.id || x.dedupe_key == j.dedupe_key) s.jobs ≡ 0)
      × (t.jobs ≡ j ∷ s.jobs)
unfolding enqueue
enqueue_jobs m j s h =
    elim (Bool-cases
      (count_where (λ x. x.id == m.id || x.dedupe_key == m.dedupe_key) s.outbox == 0)) [
        | inr taken ↦ ground arith
        | inl free ↦
            elim (Bool-cases
              (count_where (λ x. x.id == j.id || x.dedupe_key == j.dedupe_key) s.jobs == 0)) [
                | inr taken ↦ ground arith
                | inl fresh ↦ ground arith
              ]
      ]

update_pending-keeps :
    (id : ℕ) (f : OutboxMessage → OutboxMessage) (s : Store) {t : Store}
    → update_pending id f s ≡ ok (tt, t)
    → t.jobs ≡ s.jobs
unfolding update_pending
update_pending-keeps id f s h = ground arith

clear_delivery_payload-keeps :
    (now key : ℕ) (s : Store) {t : Store}
    → clear_delivery_payload now key s ≡ ok (tt, t)
    → t.jobs ≡ s.jobs
unfolding clear_delivery_payload
clear_delivery_payload-keeps now key s h = ground arith

clear_delivery_payload_by_id-keeps :
    (now id : ℕ) (s : Store) {t : Store}
    → clear_delivery_payload_by_id now id s ≡ ok (tt, t)
    → t.jobs ≡ s.jobs
unfolding clear_delivery_payload_by_id
clear_delivery_payload_by_id-keeps now id s h =
    elim (Option-cases (select_one (λ m. m.id == id) s.outbox)) [
      | inl absent ↦ ground arith
      | inr (m, there) ↦ ground (arith, clear_delivery_payload-keeps now m.dedupe_key s)
    ]

dispatch_message-keeps :
    (now : ℕ) (message : Option ℕ) (s : Store) {t : Store}
    → dispatch_message now message s ≡ ok (tt, t)
    → t.jobs ≡ s.jobs
unfolding dispatch_message
dispatch_message-keeps now none s h = ground arith
dispatch_message-keeps now (some id) s h =
    let (_, u, first, second) = >>=-eq-ok (update_pending id _) _ s h in
    clear_delivery_payload_by_id-keeps now id u second ∙ update_pending-keeps id _ s first

fail_message-keeps :
    (now : ℕ) (dead : Bool) (cause : String) (message : Option ℕ) (s : Store) {t : Store}
    → fail_message now dead cause message s ≡ ok (tt, t)
    → t.jobs ≡ s.jobs
unfolding fail_message
fail_message-keeps now dead cause none s h = ground arith
fail_message-keeps now true cause (some id) s h =
    let (_, u, first, second) = >>=-eq-ok (update_pending id _) _ s h in
    clear_delivery_payload_by_id-keeps now id u second ∙ update_pending-keeps id _ s first
fail_message-keeps now false cause (some id) s h = update_pending-keeps id _ s h

update_leased_lem :
    (now : ℕ) (handle : DurableJob) (f : DurableJob → DurableJob) (s : Store) {t : Store}
    → update_leased now handle f s ≡ ok (tt, t)
    → t.jobs ≡ update_where (holds_lease now handle) f s.jobs
unfolding update_leased
update_leased_lem now handle f s h = ground arith

acquire-Advances :
    (now owner duration : ℕ) (s : Store) {j : Option DurableJob} {t : Store}
    → acquire_next_job now owner duration s ≡ ok (j, t)
    → Advances s t
unfolding acquire_next_job
acquire-Advances now owner duration s {j} {t} run =
    elim (Option-cases (select_job_candidate now s.jobs)) [
      | inl idle ↦ let e : s ≡ t = ground arith in rw (← e) (Advances-refl s)
      | inr (c, chosen) ↦ elim (Bool-cases (count_where (may_lease now c.id) s.jobs == 0)) [
        | inl gone ↦ let e : s ≡ t = ground arith in rw (← e) (Advances-refl s)
        | inr there ↦
            Advances-update (may_lease now c.id) (lease_to now owner duration) (λ k. refl)
              (λ k. omega arith) (ground arith)
      ]
    ]

Step-Advances : {s t : Store} → Step s t → Advances s t
unfolding complete_outbox_job fail_outbox_job
Step-Advances {s} {t} (acquired now owner duration j run) =
    acquire-Advances now owner duration s run
Step-Advances {s} {t} (completed now handle message run) =
    let (_, u, first, second) = >>=-eq-ok (update_leased now handle (complete_job now)) _ s run in
    Advances-update (holds_lease now handle) (complete_job now) (λ j. refl) (λ j. omega arith)
      (dispatch_message-keeps now message u second ∙ update_leased_lem now handle _ s first)
Step-Advances {s} {t} (failed now handle message cause at run) =
    let f = fail_job now handle cause at in
    let (_, u, first, second) = >>=-eq-ok (update_leased now handle f) _ s run in
    Advances-update (holds_lease now handle) f (λ j. ground arith) (λ j. ground arith)
      (fail_message-keeps now _ cause message u second ∙ update_leased_lem now handle f s first)
Step-Advances {s} {t} (enqueued m j run) =
    let (fresh, e) = enqueue_jobs m j s run in Advances-insert j fresh e
Step-Advances {s} {t} (redacted now key run) =
    let e : t.jobs ≡ s.jobs = clear_delivery_payload-keeps now key s run in
    record { distinct = λ d. rw e d; mono = λ id. rw e (omega arith) }

Reach-Advances : {s t : Store} → Reach s t → Advances s t
Reach-Advances {s} here = Advances-refl s
Reach-Advances (next r st) = Advances-trans (Reach-Advances r) (Step-Advances st)

-- A handle whose generation the row has left behind matches no row.
absent_holder :
    (now : ℕ) (h : DurableJob) (js : List DurableJob)
    → contains (ids js) h.id ≡ false
    → count_where (holds_lease now h) js ≡ 0
unfolding holds_lease
absent_holder now h [] c = refl
absent_holder now h (j ∷ js) c = ground (arith, absent_holder now h js)

stale_holder :
    (now : ℕ) (h : DurableJob) (js : List DurableJob)
    → Distinct (ids js)
    → h.lease_generation < generation (find_job h.id js)
    → count_where (holds_lease now h) js ≡ 0
unfolding holds_lease
stale_holder now h [] d l = absurd (omega arith)
stale_holder now h (j ∷ js) d l = elim (Bool-cases (j.id == h.id)) [
  | inl same ↦
      ground (arith, absent_holder now h js, d.0, ap (contains (ids js)) (==→eq j.id h.id same))
  | inr other ↦ ground (arith, stale_holder now h js d.1)
]

-- Every change by a handle that matches no row is refused, and nothing of the store changes.
pub unleased_handle_refused :
    (now : ℕ) (h : DurableJob) (message : Option ℕ) (cause : String) (at : Option ℕ) (s : Store)
    → count_where (holds_lease now h) s.jobs ≡ 0
    → (transact (complete_outbox_job now h message) s ≡ (err job_lease_lost, s))
      × (transact (fail_outbox_job now h message cause at) s ≡ (err job_lease_lost, s))
unfolding complete_outbox_job fail_outbox_job update_leased
unleased_handle_refused now h message cause at s e = (ground arith, ground arith)

no_job :
    (now owner duration : ℕ) (s : Store)
    → select_job_candidate now s.jobs ≡ none
    → acquire_next_job now owner duration s ≡ ok (none, s)
unfolding acquire_next_job
no_job now owner duration s e = ground arith

-- What a worker took, from the result of the call.
pub acquired-Taken :
    (now owner duration : ℕ) (s : Store) {j : DurableJob} {t : Store}
    → Distinct (ids s.jobs)
    → acquire_next_job now owner duration s ≡ ok (some j, t)
    → Taken now owner duration s t j
acquired-Taken now owner duration s {j} {t} d run =
    elim (Option-cases (select_job_candidate now s.jobs)) [
      | inl idle ↦ cc (no_job now owner duration s idle)
      | inr (c, chosen) ↦
          let (j', t', run', taken) = acquire_next_job-Taken now owner duration s d chosen in
          let same : (j' ≡ j) × (t' ≡ t) = ground arith in
          subst₂ (λ x y. Taken now owner duration s y x) same.0 same.1 taken
    ]

-- That is the next generation of the row.
Taken-generation :
    {now owner duration : ℕ} {s t : Store} {j : DurableJob}
    → Distinct (ids s.jobs)
    → Taken now owner duration s t j
    → (generation (find_job j.id t.jobs) ≡ j.lease_generation)
      × (j.lease_generation ≡ generation (find_job j.id s.jobs) + 1)
Taken-generation {now} {owner} {duration} {s} {t} {j} d h =
    let found = (select_job_candidate-IsCandidate now s.jobs h.chosen).found d in
    (ap generation h.stored, rw h.leased (rw found refl))

-- A worker takes a job and gets its handle; later, whatever happened in between, some worker takes
-- the same job. From then on, whatever happens, completing or failing the job with the first
-- handle is refused with `ErrJobLeaseLost` and changes nothing.
pub stale_handle_refused :
    (s u w : Store) {t v : Store} {handle other : DurableJob}
    (now1 owner1 duration1 now2 owner2 duration2 : ℕ)
    → Distinct (ids s.jobs)
    → acquire_next_job now1 owner1 duration1 s ≡ ok (some handle, t)
    → Reach t u
    → acquire_next_job now2 owner2 duration2 u ≡ ok (some other, v)
    → other.id ≡ handle.id
    → Reach v w
    → (now : ℕ) (message : Option ℕ) (cause : String) (at : Option ℕ)
    → (transact (complete_outbox_job now handle message) w ≡ (err job_lease_lost, w))
      × (transact (fail_outbox_job now handle message cause at) w ≡ (err job_lease_lost, w))
stale_handle_refused s u w {t} {v} {handle} {other} now1 owner1 duration1 now2 owner2 duration2 d
      first r second same r' now message cause at =
    let a = acquire-Advances now1 owner1 duration1 s first in
    let b = Reach-Advances r in
    let c = acquire-Advances now2 owner2 duration2 u second in
    let e = Reach-Advances r' in
    let du : Distinct (ids u.jobs) = b.distinct (a.distinct d) in
    let dw : Distinct (ids w.jobs) = e.distinct (c.distinct du) in
    let g = Taken-generation d (acquired-Taken now1 owner1 duration1 s d first) in
    let g' = Taken-generation du (acquired-Taken now2 owner2 duration2 u du second) in
    unleased_handle_refused now handle message cause at w (
      stale_holder now handle w.jobs dw (
        later g.0 (b.mono handle.id)
          (subst
            (λ i.
              (generation (find_job i v.jobs) ≡ other.lease_generation)
              × (other.lease_generation ≡ generation (find_job i u.jobs) + 1))
            same g')
          (e.mono handle.id)))
  where
    later :
        {x y z q : ℕ}
        → x ≡ handle.lease_generation
        → x ≤ y
        → (z ≡ other.lease_generation) × (other.lease_generation ≡ y + 1)
        → z ≤ q
        → handle.lease_generation < q
    later h1 h2 h3 h4 = omega arith
