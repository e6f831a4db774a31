-- ===== src/Houses/Requests.antt =====
-- The handlers of src/backend/internal/handlers/houses.go that change a house, in any order.
use Prim.Native.String.{String}
use mathlib.Core.Path.{subst₂}
use roomies.Base.{
  ℕ, ◌≡◌, refl, ◌⊎◌, Bool, true, false, ◌||◌, Option, none, some, List, [], ◌∷◌, All-mono, arith,
  ◌==◌, Bool-cases, Option-cases, inl, inr,
}
use roomies.Base.Sql.{count_where}
use roomies.Base.Result.{Result, ok, err}
use roomies.Base.Tx.{transact}
use roomies.Models.{Role, admin, is_admin, House, HouseMember}
use roomies.Houses.{
  Houses, HouseError, HouseEvent, Reply, not_a_member, only_admins, of_member, update_member_role,
  remove_member, create_with_admin, append_event, answer, get_member, role_request, as_admin,
  is_empty, created, new_house, new_creator, handle_create, handle_update_member_role,
  handle_remove_member, event, role_updated, member_removed,
}
use roomies.Houses.Managed.{IsManaged, update_member_role-IsManaged, remove_member-IsManaged}

count-or :
    (i h u : ℕ) (ms : List HouseMember)
    → count_where (λ x. x.id == i || of_member h u x) ms ≡ 0
    → count_where (of_member h u) ms ≡ 0
count-or i h u [] e = refl
count-or i h u (x ∷ ms) e = ground (arith, count-or i h u ms)

create_cases :
    (house : House) (m : HouseMember) (s : Houses)
    → ((transact (create_with_admin house m) s).1 ≡ s)
      ⊎ ((count_where (λ x. x.id == m.id || of_member m.house_id m.user_id x) s.members ≡ 0)
          × ((transact (create_with_admin house m) s).1
              ≡ record s { houses = house ∷ s.houses; members = m ∷ s.members }))
unfolding create_with_admin
create_cases house m s = elim (Bool-cases (count_where (λ h. h.id == house.id) s.houses == 0)) [
  | inr taken ↦ inl (ground arith)
  | inl free ↦
      elim (Bool-cases
        (count_where (λ x. x.id == m.id || of_member m.house_id m.user_id x) s.members == 0)) [
          | inr taken ↦ inl (ground arith)
          | inl free' ↦ inr (ground arith, ground arith)
        ]
]

member_key :
    (h u : ℕ) (m : HouseMember) → of_member h u m ≡ true → (m.house_id ≡ h) × (m.user_id ≡ u)
member_key h u m e = ground arith

-- A house is created with its admin, or not at all.
create-IsManaged :
    (house : House) (m : HouseMember) (s : Houses)
    → m.house_id ≡ house.id
    → m.role ≡ admin
    → IsManaged s
    → IsManaged (transact (create_with_admin house m) s).1
create-IsManaged house m s at role v = elim (create_cases house m s) [
  | inl same ↦ rw same v
  | inr (fresh, created) ↦
      let absent = count-or m.id m.house_id m.user_id s.members fresh in
      rw created (record {
        unique = λ h u. elim (Bool-cases (of_member h u m)) [
          | inl mine ↦
              let (house_eq, user_eq) = member_key h u m mine in
              let absent' =
                subst₂ (λ a b. count_where (of_member a b) s.members ≡ 0) house_eq user_eq absent in
              rw (mine, absent') (omega arith)
          | inr other ↦ ground (arith, v.unique h u)
        ];
        managed = (ground arith, All-mono _ _ s.houses (λ h b. omega (arith, b)) v.managed);
      })
]

append-IsManaged :
    (events : Bool) (e : HouseEvent) {s : Houses}
    → IsManaged s
    → IsManaged (append_event events e s)
append-IsManaged true e v = record { unique = v.unique; managed = v.managed }
append-IsManaged false e v = v

answer-IsManaged :
    (events : Bool) (e : HouseEvent) (r : Result HouseError (Unit {0}) × Houses)
    → IsManaged r.1
    → IsManaged (answer events e r).1
answer-IsManaged events e (ok x, s) v = append-IsManaged events e v
answer-IsManaged events e (err x, s) v = v

module _ (events : Bool) (house caller target : ℕ) where
  role_request-IsManaged :
      (body : Option (Option Role)) (s : Houses)
      → IsManaged s
      → IsManaged (role_request events house caller target body s).1
  unfolding role_request
  role_request-IsManaged none s v = v
  role_request-IsManaged (some none) s v = v
  role_request-IsManaged (some (some role)) s v =
      answer-IsManaged events (event events house caller target role_updated)
        (transact (update_member_role house target role) s)
        (update_member_role-IsManaged house target role s v)

  as_admin-IsManaged :
      (m : Option HouseMember) (k : Houses → Reply × Houses) (s : Houses)
      → IsManaged (k s).1
      → IsManaged s
      → IsManaged (as_admin events house caller target m k s).1
  unfolding as_admin
  as_admin-IsManaged none k s w v = v
  as_admin-IsManaged (some m) k s w v = elim (Bool-cases (is_admin m.role)) [
    | inl yes_admin ↦ rw yes_admin w
    | inr no_admin ↦ rw no_admin v
  ]

-- The requests that change a house: the identifiers and the time that a creation draws, then the
-- house, the caller, the target and the body.
pub data Request : Type 0 where
  create : ℕ → ℕ → ℕ → ℕ → Option String → Request
  update_role : ℕ → ℕ → ℕ → Option (Option Role) → Request
  remove : ℕ → ℕ → ℕ → Request

pub handle : Bool → Request → Houses → Reply × Houses
handle events (create house_id member_id caller now body) s =
    handle_create house_id member_id caller now body s
handle events (update_role house caller target body) s =
    handle_update_member_role events house caller target body s
handle events (remove house caller target) s = handle_remove_member events house caller target s

pub handle_all : Bool → List Request → Houses → Houses
unfolding handle
handle_all events [] s = s
handle_all events (r ∷ rs) s = handle_all events rs (handle events r s).1

created-IsManaged :
    (r : Result HouseError (Unit {0}) × Houses) → IsManaged r.1 → IsManaged (created r).1
created-IsManaged (ok x, s) v = v
created-IsManaged (err x, s) v = v

handle_create-IsManaged :
    (house_id member_id caller now : ℕ) (body : Option String) (s : Houses)
    → IsManaged s
    → IsManaged (handle_create house_id member_id caller now body s).1
unfolding handle_create
handle_create-IsManaged house_id member_id caller now none s v = v
handle_create-IsManaged house_id member_id caller now (some name) s v =
    let house = new_house house_id now name in
    let creator = new_creator house_id member_id caller now in
    elim (Bool-cases (is_empty name)) [
      | inl blank ↦ rw blank v
      | inr named ↦ rw named (
          created-IsManaged (transact (create_with_admin house creator) s)
            (create-IsManaged house creator s refl refl v))
    ]

handle-IsManaged :
    (events : Bool) (r : Request) (s : Houses) → IsManaged s → IsManaged (handle events r s).1
unfolding handle handle_update_member_role handle_remove_member
handle-IsManaged events (create house_id member_id caller now body) s v =
    handle_create-IsManaged house_id member_id caller now body s v
handle-IsManaged events (update_role house caller target body) s v =
    as_admin-IsManaged events house caller target (get_member house caller s) _ s
      (role_request-IsManaged events house caller target body s v) v
handle-IsManaged events (remove house caller target) s v =
    as_admin-IsManaged events house caller target (get_member house caller s) _ s
      (answer-IsManaged events (event events house caller target member_removed)
        (transact (remove_member house target) s) (remove_member-IsManaged house target s v))
      v

-- Whatever requests are made, in whatever order, by whomever: every house has an admin after them,
-- and no user is a member of a house twice.
pub handle_all-IsManaged :
    (events : Bool) (rs : List Request) (s : Houses)
    → IsManaged s
    → IsManaged (handle_all events rs s)
unfolding handle_all
handle_all-IsManaged events [] s v = v
handle_all-IsManaged events (r ∷ rs) s v =
    handle_all-IsManaged events rs (handle events r s).1 (handle-IsManaged events r s v)

-- A caller who is no admin member of the house changes nothing by either request, and is told why.
pub non_admin_refused :
    (events : Bool) (house caller target : ℕ) (body : Option (Option Role)) (s : Houses)
    → ((m : HouseMember) → get_member house caller s ≡ some m → is_admin m.role ≡ false)
    → (reply : Reply) × ((reply ≡ not_a_member) ⊎ (reply ≡ only_admins))
      × (handle_update_member_role events house caller target body s ≡ (reply, s))
      × (handle_remove_member events house caller target s ≡ (reply, s))
unfolding handle_update_member_role handle_remove_member as_admin
non_admin_refused events house caller target body s h =
    elim (Option-cases (get_member house caller s)) [
      | inl stranger ↦ (not_a_member, inl refl, ground arith, ground arith)
      | inr (m, found) ↦
          (only_admins, inr refl, ground (arith, h m found), ground (arith, h m found))
    ]
