-- ===== src/Invitations/Accepting.antt =====
-- What `AcceptInvitation` of src/backend/internal/repository/reliability.go looked at and wrote.
use roomies.Base.{
  ℕ, ◌≡◌, refl, sym, ◌∙◌, ap, true, none, some, ◌∷◌, arith, ◌==◌, if◌then◌else◌, Bool-cases,
  Option-cases, inl, inr,
}
use roomies.Base.Sql.{select_one, count_where, update_where}
use roomies.Base.Result.{ok}
use roomies.Base.Keeps.{bind-Returns, pure-Returns}
use roomies.Base.Tx.{>>=-eq-ok}
use roomies.Models.{House}
use roomies.Houses.{of_member, set_members, member_joined, invitation_accepted}
use roomies.Invitations.{
  HouseInvitation, Tables, of_token, open_row, accept, set_invitations, set_house, accepted_key,
  notify, house_invitation_accepted,
}
use roomies.Invitations.Ops.{
  Library, Fresh, accept_invitation, accept_found, accept_open, announce_acceptance, new_member,
  insert_member, insert_absent_member, lock_house, clear_invitation_delivery, enqueue_notification,
  record_change, insert_house_event, house_event,
}
use roomies.Invitations.Notices.{Quiet, announce_rows}

-- The rows of invitations and of members are what they were.
pub record SameRows (s t : Tables) : Type 0 where
  pub invitations : t.invitations ≡ s.invitations
  pub members : t.house.members ≡ s.house.members
  pub houses : t.house.houses ≡ s.house.houses

SameRows-Quiet : Quiet SameRows
SameRows-Quiet = record {
  same = λ s. record { invitations = refl; members = refl; houses = refl };
  chains = λ s t u h k. record {
    invitations = k.invitations ∙ h.invitations;
    members = k.members ∙ h.members;
    houses = k.houses ∙ h.houses;
  };
  clears = λ now key s q h. record { invitations = refl; members = refl; houses = refl };
  enqueues = λ m j s q h. record { invitations = refl; members = refl; houses = refl };
  logs = λ a s. record { invitations = refl; members = refl; houses = refl };
  publishes = λ e s. record { invitations = refl; members = refl; houses = refl };
}

module _ (lib : Library) (now : ℕ) (ids : Fresh) (member_id token actor email : ℕ) where
  -- The row of the token, of a house that is there, for the caller's mail address.
  pub record IsAddressed (s : Tables) (x : HouseInvitation) : Type 0 where
    pub found : select_one (of_token (lib.hash_token token)) s.invitations ≡ some x
    pub house : House
    pub house_found : select_one (λ h. h.id == x.house_id) s.house.houses ≡ some house
    pub address : (x.email == lib.normalize email) ≡ true

  pub accept_addressed :
      {s : Tables} {x : HouseInvitation}
      → IsAddressed s x
      → accept_invitation lib now ids member_id token actor email s
        ≡ accept_found lib now ids member_id actor x x.status s
  unfolding accept_invitation lock_house
  accept_addressed {s} {x} a = ground (arith, a.found, a.house_found, a.address)

  pub addressed :
      (s : Tables) (r : HouseInvitation × Tables)
      → accept_invitation lib now ids member_id token actor email s ≡ ok r
      → (x : HouseInvitation) × IsAddressed s x
  unfolding accept_invitation lock_house
  addressed s r h =
      elim (Option-cases (select_one (of_token (lib.hash_token token)) s.invitations)) [
        | inl gone ↦ absurd (ground arith)
        | inr (x, there) ↦
            elim (Option-cases (select_one (λ h. h.id == x.house_id) s.house.houses)) [
              | inl no_house ↦ absurd (ground arith)
              | inr (house, house_there) ↦ elim (Bool-cases (x.email == lib.normalize email)) [
                | inr other ↦ absurd (ground arith)
                | inl mine ↦ (
                  x,
                  record {
                    found = there;
                    house = house;
                    house_found = house_there;
                    address = mine;
                  },
                )
              ]
            ]
      ]

  -- What a first acceptance of the row `x` leaves: the row is settled for the caller, and the caller,
  -- if not a member of the house before, is one now, with the role of the row.
  pub record IsJoined (s t : Tables) (x : HouseInvitation) : Type 0 where
    pub settled : t.invitations ≡ update_where (open_row x.id) (accept actor now) s.invitations
    pub houses : t.house.houses ≡ s.house.houses
    pub members :
        (t.house.members ≡ (
          if count_where (of_member x.house_id actor) s.house.members == 0
          then new_member member_id actor now x ∷ s.house.members
          else s.house.members))

  joined_cases :
      (x : HouseInvitation) (s t : Tables)
      → insert_member (new_member member_id actor now x) s ≡ ok (tt, t)
      → (t.invitations ≡ s.invitations)
        × (t.house.houses ≡ s.house.houses)
        × (t.house.members ≡ (
            if count_where (of_member x.house_id actor) s.house.members == 0
            then new_member member_id actor now x ∷ s.house.members
            else s.house.members))
  unfolding insert_member insert_absent_member
  joined_cases x s t h =
      elim (Bool-cases (count_where (of_member x.house_id actor) s.house.members == 0)) [
        | inr there ↦
            let e : s ≡ t = ground arith in
            rw there (
              ap (λ y. y.invitations) (sym e),
              ap (λ y. y.house.houses) (sym e),
              ap (λ y. y.house.members) (sym e),
            )
        | inl absent ↦
            elim (Bool-cases (count_where (λ y. y.id == member_id) s.house.members == 0)) [
              | inr taken ↦ absurd (ground arith)
              | inl free ↦
                  let e : set_house
                        (set_members (new_member member_id actor now x ∷ s.house.members) s.house) s
                      ≡ t =
                    ground arith in
                  rw absent (
                    ap (λ y. y.invitations) (sym e),
                    ap (λ y. y.house.houses) (sym e),
                    ap (λ y. y.house.members) (sym e),
                  )
            ]
      ]

  announced :
      (x : HouseInvitation) (s : Tables) (r : HouseInvitation × Tables)
      → announce_acceptance lib now ids actor x s ≡ ok r
      → r.0 ≡ x
  unfolding announce_acceptance
  announced x = bind-Returns x (clear_invitation_delivery now x.id) _ (λ _.
      bind-Returns x
        (enqueue_notification lib now ids (accepted_key x.id)
          (notify house_invitation_accepted x now (some actor)) none)
        _
        (λ _.
          bind-Returns x (record_change now house_invitation_accepted invitation_accepted actor x) _
            (λ _.
              bind-Returns x (insert_house_event (house_event member_joined x.house_id actor actor))
                _ (λ _. pure-Returns x))))

  pub accept_open_lem :
      (x : HouseInvitation) (s : Tables) (r : HouseInvitation × Tables)
      → accept_open lib now ids member_id actor x s ≡ ok r
      → (r.0 ≡ accept actor now x) × IsJoined s r.1 x
  unfolding accept_open
  accept_open_lem x s r h =
      let (_, t, first, rest) =
        >>=-eq-ok (insert_member (new_member member_id actor now x)) _ s h in
      let u : Tables =
        set_invitations (update_where (open_row x.id) (accept actor now) t.invitations) t in
      let (rows, houses, members) = joined_cases x s t first in
      let quiet =
        announce_rows SameRows SameRows-Quiet lib now ids actor (accept actor now x) u r rest in
      (
        announced (accept actor now x) u r rest,
        record {
          settled = quiet.invitations ∙ ap (update_where (open_row x.id) (accept actor now)) rows;
          houses = quiet.houses ∙ houses;
          members = quiet.members ∙ members;
        },
      )
