-- ===== src/Invitations/Acceptance.antt =====
-- Accepting an invitation once and twice, and an invitation that is overdue
-- (src/backend/internal/repository/reliability.go).
use roomies.Base.{
  ℕ, ◌≡◌, refl, sym, ◌∙◌, ap, subst, ◌⊎◌, true, false, Option, none, some, List, [], ◌∷◌, arith,
  ◌==◌, if◌then◌else◌, ==→eq, Bool-cases, inl, inr,
}
use roomies.Base.Sql.{select_one, update_where}
use roomies.Base.Result.{Result, ok, err}
use roomies.Base.Tx.{transact, fail, ◌>>=◌}
use roomies.Invitations.{
  HouseInvitation, Tables, Action, InvitationError, InvitationStatus, pending, accepted, revoked,
  expired, is_overdue, of_token, of_house, open_row, accept, unavailable, state_conflict,
}
use roomies.Invitations.Ops.{
  Library, Fresh, accept_invitation, accept_found, accepted_before, mark_invitation_expired,
  revoke_invitation, revoke_found, lock_house,
}
use roomies.Invitations.Accepting.{
  IsAddressed, IsJoined, addressed, accept_addressed, accept_open_lem,
}

before_eq : (o : Option ℕ) (actor : ℕ) → (o ≡ some actor) ⊎ (accepted_before o actor ≡ false)
before_eq none actor = inr refl
before_eq (some by) actor = elim (Bool-cases (by == actor)) [
  | inl same ↦ inl (ap some (==→eq by actor same))
  | inr other ↦ inr other
]

-- An error after the expiry: the transaction is rolled back, whatever the expiry did.
never_ok :
    {A : Type 0} (m : Action (Unit {0})) (e : InvitationError) (s : Tables)
    → (x : InvitationError) × ((m >>= λ _. fail {A = A} e) s ≡ err x)
never_ok {A} m e s = go (m s)
  where
    go :
        (r : Result InvitationError (Unit {0} × Tables))
        → (x : InvitationError) × (◌≡◌ {A = Result InvitationError (A × Tables)}
            (elim r [ ok p ↦ err e | err y ↦ err y ])
            (err x))
    go (ok p) = (e, refl)
    go (err y) = (y, refl)

found_accepted :
    (hash actor now : ℕ) (x : HouseInvitation) (xs : List HouseInvitation)
    → select_one (of_token hash) xs ≡ some x
    → x.status ≡ pending
    → select_one (of_token hash) (update_where (open_row x.id) (accept actor now) xs)
      ≡ some (accept actor now x)
found_accepted hash actor now x [] h p = cc
found_accepted hash actor now x (y ∷ ys) h p = elim (Bool-cases (of_token hash y)) [
  | inl here ↦
      let e : y ≡ x = ground arith in
      let hit : open_row x.id y ≡ true =
        subst (λ z. open_row x.id z ≡ true) (sym e) (ground arith) in
      let changed : (if open_row x.id y then accept actor now y else y) ≡ accept actor now y =
        rw hit refl in
      rw changed (rw here (ap (λ z. some (accept actor now z)) e))
  | inr other ↦
      let rest = found_accepted hash actor now x ys (ground arith) p in
      let away : of_token hash (if open_row x.id y then accept actor now y else y) ≡ false =
        elim (Bool-cases (open_row x.id y)) [ inl hit ↦ rw hit other | inr miss ↦ rw miss other ] in
      rw away rest
]

module _ (lib : Library) (now : ℕ) (ids : Fresh) (member_id token actor email : ℕ) where
  -- The two ways in which `accept_invitation` succeeds.
  unfoldable pub Accepted : Tables → HouseInvitation × Tables → HouseInvitation → Type 0
  Accepted s r x =
      ((x.status ≡ accepted) × (x.accepted_by ≡ some actor) × (r ≡ (x, s)))
      ⊎ ((x.status ≡ pending)
          × (is_overdue now x ≡ false)
          × (r.0 ≡ accept actor now x)
          × IsJoined lib now ids member_id token actor email s r.1 x)

  found_result :
      (x : HouseInvitation) (st : InvitationStatus) (s : Tables) (r : HouseInvitation × Tables)
      → x.status ≡ st
      → accept_found lib now ids member_id actor x st s ≡ ok r
      → Accepted s r x
  unfolding Accepted accept_found
  found_result x accepted s r is h = elim (before_eq x.accepted_by actor) [
    | inr other ↦ absurd (ground arith)
    | inl same ↦ inl (is, same, ground arith)
  ]
  found_result x revoked s r is h = cc
  found_result x expired s r is h = cc
  found_result x pending s r is h = elim (Bool-cases (is_overdue now x)) [
    | inl late ↦
        let (e, never) =
          never_ok {A = HouseInvitation} (mark_invitation_expired now x.id) unavailable s in
        absurd (ground arith)
    | inr in_time ↦
        let (value, joined) =
          accept_open_lem lib now ids member_id token actor email x s r (ground arith) in
        inr (is, in_time, value, joined)
  ]

  -- An acceptance that succeeds has found the invitation of the token, for the caller's mail address
  -- and of a house that is there. Either the caller accepted it before, and then nothing changes; or
  -- it was pending and in time, and it is now accepted by the caller, who is a member of the house,
  -- with the invited role if new there, while no other row of invitations or members changes.
  pub accept_invitation_sound :
      (s : Tables) (r : HouseInvitation × Tables)
      → accept_invitation lib now ids member_id token actor email s ≡ ok r
      → (x : HouseInvitation) × IsAddressed lib now ids member_id token actor email s x
        × Accepted s r x
  accept_invitation_sound s r h =
      let (x, a) = addressed lib now ids member_id token actor email s r h in
      (
        x,
        a,
        found_result x x.status s r refl
            (sym (accept_addressed lib now ids member_id token actor email a) ∙ h),
      )

-- Accepting again, at any later time, as the same user with the same token and address, gives the
-- same invitation and changes nothing.
pub accept_invitation_twice :
    (lib : Library) (now later : ℕ) (ids ids' : Fresh) (member_id member_id' token actor email : ℕ)
    (s : Tables) (r : HouseInvitation × Tables)
    → accept_invitation lib now ids member_id token actor email s ≡ ok r
    → accept_invitation lib later ids' member_id' token actor email r.1 ≡ ok r
unfolding Accepted accept_found
accept_invitation_twice lib now later ids ids' member_id member_id' token actor email s r h =
    let (x, a, how) = accept_invitation_sound lib now ids member_id token actor email s r h in
    elim how [
      | inl (is, by, same) ↦
          let a' : IsAddressed lib later ids' member_id' token actor email s x = record {
            found = a.found;
            house = a.house;
            house_found = a.house_found;
            address = a.address;
          } in
          rw same (
            accept_addressed lib later ids' member_id' token actor email a'
            ∙ accepted_already x s is by)
      | inr (is, in_time, value, joined) ↦
          let y = accept actor now x in
          let a' : IsAddressed lib later ids' member_id' token actor email r.1 y = record {
            found =
                rw joined.settled
                  (found_accepted (lib.hash_token token) actor now x s.invitations a.found is);
            house = a.house;
            house_found = rw joined.houses a.house_found;
            address = a.address;
          } in
          accept_addressed lib later ids' member_id' token actor email a'
          ∙ accepted_already y r.1 refl refl
          ∙ ap (λ z. ok (z, r.1)) (sym value)
    ]
  where
    accepted_already :
        (y : HouseInvitation) (t : Tables)
        → y.status ≡ accepted
        → y.accepted_by ≡ some actor
        → accept_found lib later ids' member_id' actor y y.status t ≡ ok (y, t)
    accepted_already y t is by = ground arith

-- Accepting or revoking a pending invitation after its time fails and leaves all tables as they are,
-- the invitation pending included: the expiry that both write is rolled back with the error.
pub overdue_invitation_stays :
    (lib : Library) (now : ℕ) (ids : Fresh) (member_id token actor email : ℕ) (s : Tables)
    (x : HouseInvitation)
    → IsAddressed lib now ids member_id token actor email s x
    → select_one (of_house x.house_id x.id) s.invitations ≡ some x
    → x.status ≡ pending
    → is_overdue now x ≡ true
    → ((e : InvitationError) × (transact
            (accept_invitation lib now ids member_id token actor email)
            s
          ≡ (err e, s)))
      × ((e : InvitationError) × (transact (revoke_invitation lib now ids x.house_id x.id actor) s
            ≡ (err e, s)))
unfolding accept_found revoke_invitation revoke_found lock_house
overdue_invitation_stays lib now ids member_id token actor email s x a found is late =
    let (e, never) =
      never_ok {A = HouseInvitation} (mark_invitation_expired now x.id) unavailable s in
    let (e', never') =
      never_ok {A = HouseInvitation} (mark_invitation_expired now x.id) state_conflict s in
    (
      (e, ground (arith, accept_addressed lib now ids member_id token actor email a)),
      (e', ground (arith, a.house_found)),
    )
