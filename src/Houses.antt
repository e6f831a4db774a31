-- ===== src/Houses.antt =====
-- Houses and their members: the operations of src/backend/internal/repository/houses.go that change
-- state, and the handlers of src/backend/internal/handlers/houses.go around them.
pub mod Admins
pub mod Managed
pub mod Requests
use Prim.Native.String.{String}
use roomies.Base.{
  ℕ, ◌+◌, Bool, true, false, not, ◌&&◌, ◌||◌, Option, none, some, List, [], ◌∷◌, ◌++◌, leb, ◌==◌,
  if◌then◌else◌,
}
use roomies.Base.Sql.{select_one, count_where, update_where, delete_where}
use roomies.Base.Result.{Result, ok, err}
use roomies.Base.Tx.{Tx, pure, fail, read, modify, fail_if, or_fail, ◌>>=◌, ◌>>◌, transact}
use roomies.Models.{Role, admin, member, monitor, is_admin, is_monitor, House, HouseMember}

pub data HouseError : Type 0 where
  house_not_found member_not_found last_admin unique_violation : HouseError

-- The rows that the handlers, and the transactions on invitations, append to `house_events`.
pub data EventType : Type 0 where
  house_created role_updated member_removed : EventType
  invitation_created invitation_revoked invitation_accepted member_joined : EventType

pub record HouseEvent : Type 0 where
  pub house_id : ℕ
  pub event_type : EventType
  pub actor_id : ℕ
  pub resource_id : ℕ

-- The tables that the house repository writes, and the events of the handlers.
pub record Houses : Type 0 where
  pub houses : List House
  pub members : List HouseMember
  pub events : List HouseEvent

abbrev pub Action : Type 0 → Type 0
Action = Tx HouseError Houses

abbrev pub of_member : ℕ → ℕ → HouseMember → Bool
of_member house user m = m.house_id == house && m.user_id == user

abbrev pub is_house_admin : ℕ → HouseMember → Bool
is_house_admin house m = m.house_id == house && is_admin m.role

abbrev pub set_members : List HouseMember → Houses → Houses
set_members ms s = record s { members = ms }

-- `lockHouse`: the house must be there; the lock is what makes transactions happen in turn.
lock_house : ℕ → Action (Unit {0})
lock_house house = do
  h ← (λ s. or_fail (select_one (λ h. h.id == house) s.houses) house_not_found s)
  pure tt

-- `ensureAnotherAdmin`: `count <= 1` is refused.
ensure_another_admin : ℕ → Action (Unit {0})
ensure_another_admin house = do
  n ← read (λ s. count_where (is_house_admin house) s.members)
  fail_if (leb n 1) last_admin

find_member : ℕ → ℕ → Action HouseMember
find_member house user s = or_fail (select_one (of_member house user) s.members) member_not_found s

-- The guard of both operations: a change that takes an admin away needs another one.
keep_an_admin : Bool → ℕ → Action (Unit {0})
unfolding ensure_another_admin
keep_an_admin true house = ensure_another_admin house
keep_an_admin false house = pure tt

-- `CreateWithAdmin`: PRIMARY KEY(id) of both tables and UNIQUE(house_id, user_id) hold of the new
-- rows, or nothing is inserted.
unfoldable pub create_with_admin : House → HouseMember → Action (Unit {0})
create_with_admin house m = do
  n ← read (λ s. count_where (λ h. h.id == house.id) s.houses)
  fail_if (not (n == 0)) unique_violation
  modify (λ s. record s { houses = house ∷ s.houses })
  k ← read (λ s. count_where (λ x. x.id == m.id || of_member m.house_id m.user_id x) s.members)
  fail_if (not (k == 0)) unique_violation
  modify (λ s. set_members (m ∷ s.members) s)

unfoldable pub update_member_role : ℕ → ℕ → Role → Action (Unit {0})
unfolding lock_house find_member keep_an_admin
update_member_role house user role = do
  lock_house house
  m ← find_member house user
  keep_an_admin (is_admin m.role && not (is_admin role)) house
  modify (λ s.
      set_members (update_where (of_member house user) (λ x. record x { role = role }) s.members) s)

unfoldable pub remove_member : ℕ → ℕ → Action (Unit {0})
unfolding lock_house find_member keep_an_admin
remove_member house user = do
  lock_house house
  m ← find_member house user
  keep_an_admin (is_admin m.role) house
  modify (λ s. set_members (delete_where (of_member house user) s.members) s)

abbrev pub is_empty : String → Bool
is_empty String.[] = true
is_empty (String.◌∷◌ _ _) = false

-- The answers of the handlers.
pub data Reply : Type 0 where
  done : Reply
  name_required create_failed : Reply
  not_a_member only_admins invalid_body invalid_role cannot_drop_last_admin no_such_member : Reply

-- `GetMember`, which the handlers read before they open a transaction.
abbrev pub get_member : ℕ → ℕ → Houses → Option HouseMember
get_member house user s = select_one (of_member house user) s.members

-- `errors.Is(err, ErrLastAdmin)` is told apart; any other error is answered as a missing member.
abbrev pub member_reply : Result HouseError (Unit {0}) → Reply
member_reply (ok _) = done
member_reply (err last_admin) = cannot_drop_last_admin
member_reply (err house_not_found) = no_such_member
member_reply (err member_not_found) = no_such_member
member_reply (err unique_violation) = no_such_member

-- `AppendHouseEvent` after a success, where the event repository is configured.
abbrev pub append_event : Bool → HouseEvent → Houses → Houses
append_event true e s = record s { events = s.events ++ e ∷ [] }
append_event false e s = s

abbrev pub answer : Bool → HouseEvent → Result HouseError (Unit {0}) × Houses → Reply × Houses
answer events e (ok _, s) = (done, append_event events e s)
answer events e (err x, s) = (member_reply (err x), s)

module _ (events : Bool) (house caller target : ℕ) where
  abbrev event : EventType → HouseEvent
  event type = record {
    house_id = house;
    event_type = type;
    actor_id = caller;
    resource_id = target;
  }

  -- The role text of a request body: `none` for a body that does not decode, `some none` for a
  -- text that is none of the three roles.
  role_request : Option (Option Role) → Houses → Reply × Houses
  role_request none s = (invalid_body, s)
  role_request (some none) s = (invalid_role, s)
  role_request (some (some role)) s =
      answer events (event role_updated) (transact (update_member_role house target role) s)

  -- Both handlers: the caller must be a member, and an admin.
  as_admin : Option HouseMember → (Houses → Reply × Houses) → Houses → Reply × Houses
  as_admin none k s = (not_a_member, s)
  as_admin (some m) k s = if is_admin m.role then k s else (only_admins, s)

  pub handle_update_member_role : Option (Option Role) → Houses → Reply × Houses
  unfolding role_request as_admin
  handle_update_member_role body s = as_admin (get_member house caller s) (role_request body) s

  pub handle_remove_member : Houses → Reply × Houses
  unfolding as_admin
  handle_remove_member s =
      as_admin (get_member house caller s)
        (λ x. answer events (event member_removed) (transact (remove_member house target) x)) s

abbrev pub created : Result HouseError (Unit {0}) × Houses → Reply × Houses
created (ok _, s) = (done, s)
created (err _, s) = (create_failed, s)

abbrev pub new_house : ℕ → ℕ → String → House
new_house house_id now name = record { id = house_id; name = name; created_at = now }

abbrev pub new_creator : ℕ → ℕ → ℕ → ℕ → HouseMember
new_creator house_id member_id caller now = record {
  id = member_id;
  house_id = house_id;
  user_id = caller;
  role = admin;
  joined_at = now;
  user_name = "";
  user_email = "";
}

-- `Create`, with the two identifiers that `models.NewID` makes and the trimmed name of a body that
-- decodes. The creator becomes the admin of the house.
unfoldable pub handle_create : ℕ → ℕ → ℕ → ℕ → Option String → Houses → Reply × Houses
handle_create house_id member_id caller now none s = (invalid_body, s)
handle_create house_id member_id caller now (some name) s =
    if is_empty name
    then (name_required, s)
    else created (
        transact
          (create_with_admin (new_house house_id now name)
            (new_creator house_id member_id caller now))
          s)
