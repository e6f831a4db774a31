-- ===== src/Invitations/Statements.antt =====
-- The transactions of src/backend/internal/repository/reliability.go as chains of SQL statements: a
-- relation between the tables before and after that respects every statement holds of every
-- transaction that commits.
use Prim.Native.String.{String}
use roomies.Base.{ℕ, ◌≡◌, refl, Bool, true, false, not, ◌&&◌, Option, none, arith, ◌==◌}
use roomies.Base.Sql.{select_one, count_where, update_where}
use roomies.Base.Result.{ok}
use roomies.Base.Tx.{modify, fail, ◌>>=◌}
use roomies.Base.Keeps.{
  keep_find, keep_pure, keep_read, keep_modify, keep_fail, keep_fail_if, keep_if,
}
use roomies.Models.{Role, HouseMember}
use roomies.Houses.{invitation_created, invitation_revoked}
use roomies.Invitations.{
  Tables, HouseInvitation, InvitationError, created_key, revoke_key, notify,
  house_invitation_created, house_invitation_revoked, store_error, pending_exists, email_required,
  unavailable, pending_for, of_house, of_token, expire, revoke, accept, expiring, open_row,
  is_pending, set_invitations, InvitationStatus, pending, accepted, revoked, expired,
}
use roomies.Invitations.Ops.{
  expire_pending_invitations, mark_invitation_expired, insert_member, new_member, insert_invitation,
  Library, Fresh, create_row, create_checked, create_invitation, revoke_open, revoke_found,
  revoke_invitation, accept_open, accept_found, accept_invitation, check_pending, list_invitations,
  invitation_delivery_available,
}
use roomies.Invitations.Notices.{
  Quiet, KeepsRows, bind, lock_house_rows, clear_rows, clear_all_rows, record_change_rows,
  enqueue_rows, delivery_rows, announce_rows,
}

-- A change of a row to another status, by which the row stays the same invitation.
pub record IsSettled (i j : HouseInvitation) : Type 0 where
  pub id : j.id ≡ i.id
  pub house_id : j.house_id ≡ i.house_id
  pub email : j.email ≡ i.email
  pub token_hash : j.token_hash ≡ i.token_hash
  pub not_pending : is_pending j.status ≡ false

-- What is asked of the relation, besides of the quiet statements; `J` tells which members may join.
pub record Respects (R : Tables → Tables → Type 0) (J : HouseMember → Type 0) : Type 0 where
  pub quiet : Quiet R
  pub settles :
      (p : HouseInvitation → Bool) (f : HouseInvitation → HouseInvitation) (s : Tables)
      → ((i : HouseInvitation) → p i ≡ true → is_pending i.status ≡ true)
      → ((i : HouseInvitation) → IsSettled i (f i))
      → R s (set_invitations (update_where p f s.invitations) s)
  pub adds :
      (i : HouseInvitation) (s t : Tables)
      → is_pending i.status ≡ true
      → insert_invitation i s ≡ ok (tt, t)
      → R s t
  pub joins : (m : HouseMember) (s t : Tables) → J m → insert_member m s ≡ ok (tt, t) → R s t

module _ (R : Tables → Tables → Type 0) (J : HouseMember → Type 0) (ok_R : Respects R J) where
  update_rows :
      (p : HouseInvitation → Bool) (f : HouseInvitation → HouseInvitation)
      → ((i : HouseInvitation) → p i ≡ true → is_pending i.status ≡ true)
      → ((i : HouseInvitation) → IsSettled i (f i))
      → KeepsRows R ok_R.quiet (modify (λ s. set_invitations (update_where p f s.invitations) s))
  update_rows p f pends settled = keep_modify R _ (λ s. ok_R.settles p f s pends settled)

  expire_rows : (house now : ℕ) → KeepsRows R ok_R.quiet (expire_pending_invitations house now)
  unfolding expire_pending_invitations
  expire_rows house now = bind R ok_R.quiet _ _ (keep_read R ok_R.quiet.same _) (λ gone.
      bind R ok_R.quiet _ _
        (update_rows (expiring house now) expire (λ i h. ground arith)
          (λ i. record {
            id = refl;
            house_id = refl;
            email = refl;
            token_hash = refl;
            not_pending = refl;
          }))
        (λ _. clear_all_rows R ok_R.quiet now gone))

  mark_rows : (now id : ℕ) → KeepsRows R ok_R.quiet (mark_invitation_expired now id)
  unfolding mark_invitation_expired
  mark_rows now id =
      bind R ok_R.quiet _ _
        (keep_read R ok_R.quiet.same (λ s. count_where (open_row id) s.invitations))
        (λ n.
          bind R ok_R.quiet _ _
            (update_rows (open_row id) expire (λ i h. ground arith)
              (λ i. record {
                id = refl;
                house_id = refl;
                email = refl;
                token_hash = refl;
                not_pending = refl;
              }))
            (λ _.
              keep_if R (n == 0) _ _ (keep_pure R ok_R.quiet.same _)
                (clear_rows R ok_R.quiet now id)))

  insert_member_rows : (m : HouseMember) → J m → KeepsRows R ok_R.quiet (insert_member m)
  insert_member_rows m may s (tt, t) h = ok_R.joins m s t may h

  insert_invitation_rows :
      (i : HouseInvitation)
      → is_pending i.status ≡ true
      → KeepsRows R ok_R.quiet (insert_invitation i)
  insert_invitation_rows i is s (tt, t) h = ok_R.adds i s t is h

  module _ (lib : Library) where
    create_row_rows :
        (now : ℕ) (ids : Fresh) (deliver : Option (ℕ → Option String)) (i : HouseInvitation)
        → is_pending i.status ≡ true
        → KeepsRows R ok_R.quiet (create_row lib now ids deliver i)
    unfolding create_row
    create_row_rows now ids deliver i is = bind R ok_R.quiet _ _ (insert_invitation_rows i is) (λ _.
        bind R ok_R.quiet _ _ (delivery_rows R ok_R.quiet lib deliver ids.job_id) (λ delivery.
          bind R ok_R.quiet _ _
            (enqueue_rows R ok_R.quiet lib now ids (created_key i.id)
              (notify house_invitation_created i now none) delivery)
            (λ _.
              bind R ok_R.quiet _ _
                (record_change_rows R ok_R.quiet now house_invitation_created invitation_created
                  i.created_by i)
                (λ _. keep_pure R ok_R.quiet.same i))))

    create_checked_rows :
        (now : ℕ) (ids : Fresh) (deliver : Option (ℕ → Option String)) (i : HouseInvitation)
        → is_pending i.status ≡ true
        → KeepsRows R ok_R.quiet (create_checked lib now ids deliver i)
    unfolding create_checked
    create_checked_rows now ids deliver i is =
        bind R ok_R.quiet _ _ (keep_fail_if R ok_R.quiet.same (i.email == 0) email_required) (λ _.
          bind R ok_R.quiet _ _ (lock_house_rows R ok_R.quiet i.house_id) (λ _.
            bind R ok_R.quiet _ _ (expire_rows i.house_id now) (λ _.
              bind R ok_R.quiet _ _
                (keep_read R ok_R.quiet.same
                  (λ s. count_where (pending_for i.house_id i.email) s.invitations))
                (λ n.
                  bind R ok_R.quiet _ _
                    (keep_fail_if R ok_R.quiet.same (not (n == 0)) pending_exists)
                    (λ _. create_row_rows now ids deliver i is)))))

    pub create_rows :
        (now id : ℕ) (ids : Fresh) (token house actor email : ℕ) (role : Role) (expires : ℕ)
        (deliver : Option (ℕ → Option String))
        → KeepsRows R ok_R.quiet
            (create_invitation lib now id ids token house actor email role expires deliver)
    unfolding create_invitation
    create_rows now id ids token house actor email role expires deliver =
        create_checked_rows now ids deliver _ refl

    revoke_open_rows :
        (now : ℕ) (ids : Fresh) (house actor : ℕ) (i : HouseInvitation)
        → KeepsRows R ok_R.quiet (revoke_open lib now ids house actor i)
    unfolding revoke_open
    revoke_open_rows now ids house actor i =
        bind R ok_R.quiet _ _
          (update_rows (λ x. x.id == i.id && x.house_id == house && is_pending x.status)
            (revoke actor now) (λ x h. ground arith)
            (λ x. record {
              id = refl;
              house_id = refl;
              email = refl;
              token_hash = refl;
              not_pending = refl;
            }))
          (λ _. bind R ok_R.quiet _ _ (clear_rows R ok_R.quiet now i.id) (λ _.
            bind R ok_R.quiet _ _
              (enqueue_rows R ok_R.quiet lib now ids (revoke_key i.id)
                (notify house_invitation_revoked (revoke actor now i) now none) none)
              (λ _.
                bind R ok_R.quiet _ _
                  (record_change_rows R ok_R.quiet now house_invitation_revoked invitation_revoked
                    actor (revoke actor now i))
                  (λ _. keep_pure R ok_R.quiet.same (revoke actor now i)))))

    expired_rows :
        (now id : ℕ) (e : InvitationError) {A : Type 0}
        → KeepsRows R ok_R.quiet (mark_invitation_expired now id >>= λ _. fail {A = A} e)
    expired_rows now id e = bind R ok_R.quiet _ _ (mark_rows now id) (λ _. keep_fail R e)

    revoke_found_rows :
        (now : ℕ) (ids : Fresh) (house actor : ℕ) (i : HouseInvitation) (status : InvitationStatus)
        → KeepsRows R ok_R.quiet (revoke_found lib now ids house actor i status)
    unfolding revoke_found
    revoke_found_rows now ids house actor i revoked = keep_pure R ok_R.quiet.same _
    revoke_found_rows now ids house actor i accepted = keep_fail R _
    revoke_found_rows now ids house actor i expired = keep_fail R _
    revoke_found_rows now ids house actor i pending =
        keep_if R _ _ _ (expired_rows now i.id _) (revoke_open_rows now ids house actor i)

    pub revoke_rows :
        (now : ℕ) (ids : Fresh) (house id actor : ℕ)
        → KeepsRows R ok_R.quiet (revoke_invitation lib now ids house id actor)
    unfolding revoke_invitation
    revoke_rows now ids house id actor =
        bind R ok_R.quiet _ _ (lock_house_rows R ok_R.quiet house) (λ _.
          bind R ok_R.quiet _ _
            (keep_find R ok_R.quiet.same (λ s. select_one (of_house house id) s.invitations)
              unavailable)
            (λ i. revoke_found_rows now ids house actor i i.status))

    accept_open_rows :
        (now : ℕ) (ids : Fresh) (member_id actor : ℕ) (i : HouseInvitation)
        → J (new_member member_id actor now i)
        → KeepsRows R ok_R.quiet (accept_open lib now ids member_id actor i)
    unfolding accept_open
    accept_open_rows now ids member_id actor i may =
        bind R ok_R.quiet _ _ (insert_member_rows (new_member member_id actor now i) may) (λ _.
          bind R ok_R.quiet _ _
            (update_rows (open_row i.id) (accept actor now) (λ x h. ground arith)
              (λ x. record {
                id = refl;
                house_id = refl;
                email = refl;
                token_hash = refl;
                not_pending = refl;
              }))
            (λ _. announce_rows R ok_R.quiet lib now ids actor (accept actor now i)))

    accept_found_rows :
        (now : ℕ) (ids : Fresh) (member_id actor : ℕ) (i : HouseInvitation)
        (status : InvitationStatus)
        → J (new_member member_id actor now i)
        → KeepsRows R ok_R.quiet (accept_found lib now ids member_id actor i status)
    unfolding accept_found
    accept_found_rows now ids member_id actor i accepted may =
        keep_if R _ _ _ (keep_pure R ok_R.quiet.same _) (keep_fail R _)
    accept_found_rows now ids member_id actor i revoked may = keep_fail R _
    accept_found_rows now ids member_id actor i expired may = keep_fail R _
    accept_found_rows now ids member_id actor i pending may =
        keep_if R _ _ _ (expired_rows now i.id _) (accept_open_rows now ids member_id actor i may)

    pub accept_rows :
        (now : ℕ) (ids : Fresh) (member_id token actor email : ℕ)
        → ((i : HouseInvitation) → J (new_member member_id actor now i))
        → KeepsRows R ok_R.quiet (accept_invitation lib now ids member_id token actor email)
    unfolding accept_invitation
    accept_rows now ids member_id token actor email may =
        bind R ok_R.quiet _ _
          (keep_find R ok_R.quiet.same
            (λ s. select_one (of_token (lib.hash_token token)) s.invitations) unavailable)
          (λ found. bind R ok_R.quiet _ _ (lock_house_rows R ok_R.quiet found.house_id) (λ _.
            bind R ok_R.quiet _ _
              (keep_find R ok_R.quiet.same
                (λ s. select_one (of_token (lib.hash_token token)) s.invitations) unavailable)
              (λ i.
                bind R ok_R.quiet _ _
                  (keep_fail_if R ok_R.quiet.same (not (i.email == lib.normalize email))
                    unavailable)
                  (λ _. accept_found_rows now ids member_id actor i i.status (may i)))))

  pub list_rows : (now house : ℕ) → KeepsRows R ok_R.quiet (list_invitations now house)
  unfolding list_invitations
  list_rows now house =
      bind R ok_R.quiet _ _ (expire_rows house now) (λ _. keep_read R ok_R.quiet.same _)

  check_rows : (now : ℕ) (i : HouseInvitation) → KeepsRows R ok_R.quiet (check_pending now i)
  unfolding check_pending
  check_rows now i =
      keep_if R _ _ _
        (keep_if R _ _ _
          (bind R ok_R.quiet _ _ (mark_rows now i.id) (λ _. keep_pure R ok_R.quiet.same _))
          (keep_pure R ok_R.quiet.same _))
        (keep_fail R _)

  pub available_rows : (now id : ℕ) → KeepsRows R ok_R.quiet (invitation_delivery_available now id)
  unfolding invitation_delivery_available
  available_rows now id =
      bind R ok_R.quiet _ _
        (keep_find R ok_R.quiet.same (λ s. select_one (λ i. i.id == id) s.invitations) unavailable)
        (λ found. bind R ok_R.quiet _ _ (lock_house_rows R ok_R.quiet found.house_id) (λ _.
          bind R ok_R.quiet _ _
            (keep_find R ok_R.quiet.same (λ s. select_one (λ i. i.id == id) s.invitations)
              store_error)
            (λ i. check_rows now i)))
