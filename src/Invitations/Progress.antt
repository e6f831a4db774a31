-- ===== src/Invitations/Progress.antt =====
-- An invitation that is open can be accepted (src/backend/internal/repository/reliability.go).
use roomies.Base.{
  ℕ, ◌≤◌, ◌≡◌, refl, sym, ◌∙◌, subst, Bool, true, false, ◌||◌, none, some, List, [], ◌∷◌, ◌++◌, All,
  arith, ◌==◌, ==_refl, Bool-cases, Option-cases, inl, inr,
}
use roomies.Base.Sql.{select_one, count_where, update_where}
use roomies.Base.Result.{ok}
use roomies.Houses.{of_member, set_members, append_event, member_joined, invitation_accepted}
use roomies.Queue.{
  OutboxMessage, DurableJob, Store, Payload, object, malformed, clear_delivery_payload,
  outbox_message, set_outbox,
}
use roomies.Queue.Enqueue.{enqueue, new_message, new_job, insert_message, insert_job}
use roomies.Invitations.{
  HouseInvitation, Tables, pending, is_overdue, accept, open_row, created_key, accepted_key,
  set_queue, set_house, set_audit, set_invitations, notify, house_invitation_accepted,
}
use roomies.Invitations.Ops.{
  Library, Fresh, accept_invitation, accept_found, accept_open, announce_acceptance, new_member,
  insert_member, insert_absent_member, clear_invitation_delivery, enqueue_notification,
  record_change, insert_audit_event, insert_house_event, audit_event, house_event,
}
use roomies.Invitations.Accepting.{IsAddressed, accept_addressed}

abbrev pub is_object : Payload → Bool
is_object (malformed _) = false
is_object (object _ _) = true

-- Every message is JSON that decodes.
abbrev pub AreReadable : List OutboxMessage → Type 0
AreReadable = All (λ m. is_object m.payload ≡ true)

-- The message's id, the job's id and the key of the notice are new in both tables of the queue.
abbrev pub same_message : ℕ → ℕ → OutboxMessage → Bool
same_message id key m = m.id == id || m.dedupe_key == key

abbrev pub same_job : ℕ → ℕ → DurableJob → Bool
same_job id key j = j.id == id || j.dedupe_key == key

pub record IsFree (ids : Fresh) (key : ℕ) (q : Store) : Type 0 where
  pub message : count_where (same_message ids.message_id key) q.outbox ≡ 0
  pub job : count_where (same_job ids.job_id key) q.jobs ≡ 0

readable-find :
    (key : ℕ) (ms : List OutboxMessage) {m : OutboxMessage}
    → AreReadable ms
    → select_one (λ x. x.dedupe_key == key) ms ≡ some m
    → is_object m.payload ≡ true
readable-find key [] r h = cc
readable-find key (x ∷ ms) {m} r h = elim (Bool-cases (x.dedupe_key == key)) [
  | inl here ↦ let e : x ≡ m = ground arith in subst (λ y. is_object y.payload ≡ true) e r.0
  | inr other ↦ readable-find key ms {m = m} r.1 (ground arith)
]

count-update :
    (p q : OutboxMessage → Bool) (f : OutboxMessage → OutboxMessage)
    → ((m : OutboxMessage) → q (f m) ≡ q m)
    → (ms : List OutboxMessage) → count_where q (update_where p f ms) ≡ count_where q ms
count-update p q f keeps [] = refl
count-update p q f keeps (m ∷ ms) = elim (Bool-cases (p m)) [
  | inl hit ↦ ground (arith, count-update p q f keeps ms, keeps m)
  | inr miss ↦ ground (arith, count-update p q f keeps ms)
]

-- Clearing a delivery succeeds on such tables, and takes no id or key.
cleared :
    (now key : ℕ) (ids : Fresh) (key' : ℕ) (q : Store)
    → AreReadable q.outbox
    → IsFree ids key' q
    → (q' : Store) × (clear_delivery_payload now key q ≡ ok (tt, q')) × IsFree ids key' q'
unfolding clear_delivery_payload
cleared now key ids key' q r free =
    elim (Option-cases (select_one (λ m. m.dedupe_key == key) q.outbox)) [
      | inl absent ↦ (q, ground arith, free)
      | inr (m, there) ↦ with_payload m m.payload refl there (readable-find key q.outbox r there)
    ]
  where
    with_payload :
        (m : OutboxMessage) (p : Payload)
        → m.payload ≡ p
        → select_one (λ m. m.dedupe_key == key) q.outbox ≡ some m
        → is_object m.payload ≡ true
        → (q' : Store) × (clear_delivery_payload now key q ≡ ok (tt, q')) × IsFree ids key' q'
    with_payload m (malformed t) is there good = absurd (ground arith)
    with_payload m (object none t) is there good = (q, ground arith, free)
    with_payload m (object (some d) t) is there good =
        let f : OutboxMessage → OutboxMessage =
          λ x. record x { payload = object none t; updated_at = now } in
        (
          set_outbox (update_where (λ x. x.dedupe_key == m.dedupe_key) f q.outbox) q,
          ground arith,
          record {
            message =
                count-update (λ x. x.dedupe_key == m.dedupe_key) (same_message ids.message_id key')
                  f (λ x. refl) q.outbox
                ∙ free.message;
            job = free.job;
          },
        )

enqueued :
    (m : OutboxMessage) (j : DurableJob) (q : Store)
    → count_where (same_message m.id m.dedupe_key) q.outbox ≡ 0
    → count_where (same_job j.id j.dedupe_key) q.jobs ≡ 0
    → (q' : Store) × (enqueue m j q ≡ ok (tt, q'))
unfolding enqueue insert_message insert_job
enqueued m j q free_message free_job =
    (record q { outbox = m ∷ q.outbox; jobs = j ∷ q.jobs }, ground arith)

module _ (lib : Library) (now : ℕ) (ids : Fresh) (member_id token actor email : ℕ) where
  after : HouseInvitation → Store → Tables → Tables
  after i q s =
      let s1 =
        set_audit (s.audit ++ audit_event now house_invitation_accepted actor i.house_id i ∷ [])
          (set_queue q s) in
      let s2 =
        set_house
          (append_event true (house_event invitation_accepted i.house_id actor i.id) s1.house) s1 in
      set_house (append_event true (house_event member_joined i.house_id actor actor) s2.house) s2

  announces :
      (i : HouseInvitation) (s : Tables)
      → AreReadable s.queue.outbox
      → IsFree ids (accepted_key i.id) s.queue
      → (t : Tables) × (announce_acceptance lib now ids actor i s ≡ ok (i, t))
        × (t.house.members ≡ s.house.members)
  unfolding after announce_acceptance clear_invitation_delivery enqueue_notification record_change
      insert_audit_event insert_house_event
  announces i s r free =
      let (q, run, free') = cleared now (created_key i.id) ids (accepted_key i.id) s.queue r free in
      let (q', run') =
        enqueued
          (new_message ids.message_id (lib.topic_text house_invitation_accepted) (accepted_key i.id)
            (object none (lib.encode (notify house_invitation_accepted i now (some actor)))) now
            now)
          (new_job ids.job_id outbox_message (accepted_key i.id) ids.message_id now now 5) q
          free'.message free'.job in
      (after i q' s, ground (arith, run, run'), refl)

  joins :
      (i : HouseInvitation) (s : Tables)
      → count_where (λ m. m.id == member_id) s.house.members ≡ 0
      → (t : Tables) × (insert_member (new_member member_id actor now i) s ≡ ok (tt, t))
        × (t.queue ≡ s.queue)
        × (1 ≤ count_where (of_member i.house_id actor) t.house.members)
  unfolding insert_member insert_absent_member
  joins i s free =
      elim (Bool-cases (count_where (of_member i.house_id actor) s.house.members == 0)) [
        | inr there ↦ (s, ground arith, refl, ground arith)
        | inl absent ↦
            let new = new_member member_id actor now i in
            (
              set_house (set_members (new ∷ s.house.members) s.house) s,
              ground arith,
              refl,
              rw (==_refl i.house_id, ==_refl actor) (omega arith),
            )
      ]

  -- A user can accept a pending invitation that is in time and for the user's mail address, of a house
  -- that is there, and is a member of the house then: where the identifiers that the transaction draws
  -- and the key of its notice are new, and every stored message is JSON that decodes, the transaction
  -- succeeds.
  pub accept_invitation_succeeds :
      (s : Tables) (x : HouseInvitation)
      → IsAddressed lib now ids member_id token actor email s x
      → x.status ≡ pending
      → is_overdue now x ≡ false
      → count_where (λ m. m.id == member_id) s.house.members ≡ 0
      → IsFree ids (accepted_key x.id) s.queue
      → AreReadable s.queue.outbox
      → (t : Tables) × (accept_invitation lib now ids member_id token actor email s
          ≡ ok (accept actor now x, t))
        × (1 ≤ count_where (of_member x.house_id actor) t.house.members)
  unfolding accept_found accept_open
  accept_invitation_succeeds s x a is in_time free_member free readable =
      let (t, run, queue, there) = joins x s free_member in
      let u : Tables =
        set_invitations (update_where (open_row x.id) (accept actor now) t.invitations) t in
      let (w, run', members) =
        announces (accept actor now x) u (subst (λ q. AreReadable q.outbox) (sym queue) readable)
          (subst (IsFree ids (accepted_key x.id)) (sym queue) free) in
      (
        w,
        accept_addressed lib now ids member_id token actor email a ∙ ground (arith, run, run'),
        subst (λ ms. 1 ≤ count_where (of_member x.house_id actor) ms) (sym members) there,
      )
