-- ===== src/Household/Foreign.antt =====
-- Requests on chores and calendar events of other members
-- (src/backend/internal/handlers/household.go).
use roomies.Base.{
  ℕ, ◌≡◌, refl, subst, Bool, true, false, not, ◌&&◌, Option, none, some, arith, ◌==◌, ==→eq,
  Bool-cases, inl, inr,
}
use roomies.Base.Sql.{select_one}
use roomies.Base.Result.{Result, ok, err}
use roomies.Base.Tx.{fail_if, ◌>>◌, transact}
use roomies.Base.Keeps.{Keeps, keep_bind, keep_fail_if, keep_transact}
use roomies.Models.{HouseMember, is_monitor}
use roomies.Houses.{of_member}
use roomies.Household.{
  HouseholdError, invalid_input, Row, Shelf, Action, of_row, updated, calendar, chore,
}
use roomies.Household.Chores.{Chore, Recurrence, create_chore, update_chore, delete_chore}
use roomies.Household.Calendar.{
  CalendarEvent, TimeZones, is_valid_event, create_calendar, update_calendar, delete_calendar,
}
use roomies.Household.Owned.{is_it, Stays, create-Stays, update-Stays, delete-Stays}
use roomies.Expenses.Requests.{can_mutate_owned_resource}
use roomies.Household.Requests.{
  Texts, Reply, Handler, answer, run, mutator, owned, as_owner, with_content, with_version,
  handle_create, handle_update_owned, handle_delete_owned, chore_request, calendar_request,
  handle_create_chore, handle_update_chore, handle_delete_chore, handle_create_calendar,
  handle_update_calendar, handle_delete_calendar,
}

abbrev pub is_allowed : Option HouseMember → ℕ → ℕ → Bool
is_allowed none owner caller = false
is_allowed (some m) owner caller = can_mutate_owned_resource m owner caller

-- The caller is a member of the house, no monitor, and an admin or the creator of the row.
abbrev pub may_change : {B : Type 0} → Row B → ℕ → ℕ → Shelf B → Bool
may_change x house caller s =
    x.house_id == house
    && is_allowed (select_one (of_member house caller) s.members) x.creator_id caller

module _ {B : Type 0} (x : Row B) (s : Shelf B) (there : select_one (is_it x) s.rows ≡ some x) where
  -- The row is there in what a handler leaves.
  abbrev Kept : Handler B → Type 0
  Kept k = select_one (is_it x) (k s).1.rows ≡ some x

  run-Kept : (m : Action B (Unit {0})) → Keeps (Stays x) m → Kept (run m)
  run-Kept m keeps = go (transact m s) (keep_transact (Stays x) m s (λ h. h) keeps there)
    where
      go :
          (r : Result HouseholdError (Unit {0}) × Shelf B)
          → select_one (is_it x) r.1.rows ≡ some x
          → select_one (is_it x) (answer r).1.rows ≡ some x
      go (ok _, t) h = h
      go (err _, t) h = h

  mutator-Kept :
      (o : Option HouseMember) (k : HouseMember → Handler B)
      → ((m : HouseMember) → o ≡ some m → Kept (k m))
      → Kept (mutator o k)
  mutator-Kept none k h = there
  mutator-Kept (some m) k h = elim (Bool-cases (is_monitor m.role)) [
    | inl watching ↦ rw watching there
    | inr active ↦ rw active (h m refl)
  ]

  content-Kept :
      (o : Result Reply B) (k : B → Handler B) → ((b : B) → Kept (k b)) → Kept (with_content o k)
  content-Kept (err r) k h = there
  content-Kept (ok b) k h = h b

  version-Kept : (version : ℕ) (k : Handler B) → Kept k → Kept (with_version version k)
  version-Kept version k h = elim (Bool-cases (version == 0)) [
    | inl zero ↦ rw zero there
    | inr given ↦ rw given h
  ]

  module _ (house id caller : ℕ) (foreign : may_change x house caller s ≡ false) where
    other_key :
        (m : HouseMember) (y : Row B)
        → select_one (of_member house caller) s.members ≡ some m
        → select_one (of_row house id) s.rows ≡ some y
        → can_mutate_owned_resource m y.creator_id caller ≡ true
        → (x.house_id == house && x.id == id) ≡ false
    other_key m y member found passed = elim (Bool-cases (x.house_id == house && x.id == id)) [
      | inr other ↦ other
      | inl same ↦
          let a : x.house_id ≡ house = ==→eq x.house_id house (ground (arith, same)) in
          let b : x.id ≡ id = ==→eq x.id id (ground (arith, same)) in
          let found' : select_one (of_row house id) s.rows ≡ some x =
            subst (λ h. select_one (of_row h id) s.rows ≡ some x) a
              (subst (λ i. select_one (of_row x.house_id i) s.rows ≡ some x) b there) in
          let e : y ≡ x = cc in
          let passed' : can_mutate_owned_resource m x.creator_id caller ≡ true =
            subst (λ z. can_mutate_owned_resource m z.creator_id caller ≡ true) e passed in
          absurd (ground (arith, foreign, same, member, passed'))
    ]

    -- A request that passes is on another row.
    owned-Kept :
        (m : HouseMember) (o : Option (Row B)) (k : Row B → Handler B)
        → select_one (of_member house caller) s.members ≡ some m
        → select_one (of_row house id) s.rows ≡ o
        → ((x.house_id == house && x.id == id) ≡ false → (y : Row B) → Kept (k y))
        → Kept (owned caller m o k)
    owned-Kept m none k member found h = there
    owned-Kept m (some y) k member found h =
        elim (Bool-cases (can_mutate_owned_resource m y.creator_id caller)) [
          | inr refused ↦ rw refused there
          | inl passed ↦ rw passed (h (other_key m y member found passed) y)
        ]

    create-Kept :
        (create : B → Action B (Unit {0})) (content : Result Reply B)
        → ((b : B) → Keeps (Stays x) (create b))
        → Kept (handle_create create house caller content)
    create-Kept create content keeps =
        mutator-Kept (select_one (of_member house caller) s.members)
          (λ m. with_content content (λ b. run (create b)))
          (λ m member.
            content-Kept content (λ b. run (create b)) (λ b. run-Kept (create b) (keeps b)))

    owner-Kept :
        (k : Row B → Handler B)
        → ((x.house_id == house && x.id == id) ≡ false → (y : Row B) → Kept (k y))
        → Kept (as_owner house id caller k)
    owner-Kept k h =
        mutator-Kept (select_one (of_member house caller) s.members)
          (λ m s. owned caller m (select_one (of_row house id) s.rows) k s)
          (λ m member. owned-Kept m (select_one (of_row house id) s.rows) k member refl h)

    update-Kept :
        (update : B → Action B (Unit {0})) (version : ℕ) (decode : B → Result Reply B)
        → ((x.house_id == house && x.id == id) ≡ false → (b : B) → Keeps (Stays x) (update b))
        → Kept (handle_update_owned update house id version caller decode)
    update-Kept update version decode keeps =
        owner-Kept
          (λ y. with_content (decode y.content) (λ b. with_version version (run (update b))))
          (λ other y.
            content-Kept (decode y.content) (λ b. with_version version (run (update b)))
              (λ b. version-Kept version (run (update b)) (run-Kept (update b) (keeps other b))))

    delete-Kept :
        (remove : Action B (Unit {0})) (version : ℕ)
        → ((x.house_id == house && x.id == id) ≡ false → Keeps (Stays x) remove)
        → Kept (handle_delete_owned remove house id version caller)
    delete-Kept remove version keeps =
        owner-Kept (λ y. with_version version (run remove))
          (λ other y. version-Kept version (run remove) (run-Kept remove (keeps other)))

-- A check before a transaction.
after_check-Stays :
    {B : Type 0} (x : Row B) (b : Bool) (m : Action B (Unit {0}))
    → Keeps (Stays x) m
    → Keeps (Stays x) (fail_if b invalid_input >> m)
after_check-Stays x b m keeps =
    keep_bind (Stays x) (λ s t u h k e. k (h e)) (fail_if b invalid_input) (λ _. m)
      (keep_fail_if (Stays x) (λ s h. h) b invalid_input) (λ _. keeps)

pub data ChoreCall : Type 0 where
  creates : Recurrence → Option Bool → Option Chore → ChoreCall
  updates : Recurrence → Option Bool → Option Chore → ChoreCall
  deletes : ChoreCall

pub data CalendarCall : Type 0 where
  adds : TimeZones → Option CalendarEvent → CalendarCall
  edits : TimeZones → Option CalendarEvent → CalendarCall
  removes : CalendarCall

module _ (texts : Texts) (now house id version caller : ℕ) where
  abbrev pub serve_chore : ChoreCall → Handler Chore
  serve_chore (creates rule flag body) =
      handle_create_chore texts now house id version caller rule flag body
  serve_chore (updates rule flag body) =
      handle_update_chore texts now house id version caller rule flag body
  serve_chore deletes = handle_delete_chore texts now house id version caller

  abbrev pub serve_calendar : CalendarCall → Handler CalendarEvent
  serve_calendar (adds zones body) =
      handle_create_calendar texts now house id version caller zones body
  serve_calendar (edits zones body) =
      handle_update_calendar texts now house id version caller zones body
  serve_calendar removes = handle_delete_calendar texts now house id version caller

  chore_kept :
      (call : ChoreCall) (x : Row Chore) (s : Shelf Chore)
      → select_one (is_it x) s.rows ≡ some x
      → may_change x house caller s ≡ false
      → select_one (is_it x) (serve_chore call s).1.rows ≡ some x
  unfolding handle_create_chore handle_update_chore handle_delete_chore create_chore update_chore
      delete_chore
  chore_kept (creates rule flag body) x s there foreign =
      create-Kept x s there house id caller foreign (create_chore rule now id house caller)
        (chore_request texts flag body true)
        (λ c.
          after_check-Stays x (not (rule.validate now c)) _
            (create-Stays x chore c.assignee_id now id house caller c))
  chore_kept (updates rule flag body) x s there foreign =
      update-Kept x s there house id caller foreign (update_chore rule now house id version caller)
        version (λ old. chore_request texts flag body old.enabled)
        (λ other c.
          after_check-Stays x (not (rule.validate now c)) _ (
            update-Stays x chore updated c.assignee_id (λ old. c) now house id version caller
              other))
  chore_kept deletes x s there foreign =
      delete-Kept x s there house id caller foreign (delete_chore house id version caller) version
        (λ other. delete-Stays x chore house id version caller other)

  calendar_kept :
      (call : CalendarCall) (x : Row CalendarEvent) (s : Shelf CalendarEvent)
      → select_one (is_it x) s.rows ≡ some x
      → may_change x house caller s ≡ false
      → select_one (is_it x) (serve_calendar call s).1.rows ≡ some x
  unfolding handle_create_calendar handle_update_calendar handle_delete_calendar create_calendar
      update_calendar delete_calendar
  calendar_kept (adds zones body) x s there foreign =
      create-Kept x s there house id caller foreign (create_calendar zones now id house caller)
        (calendar_request texts body)
        (λ e.
          after_check-Stays x (not (is_valid_event zones now e)) _
            (create-Stays x calendar none now id house caller e))
  calendar_kept (edits zones body) x s there foreign =
      update-Kept x s there house id caller foreign
        (update_calendar zones now house id version caller) version
        (λ old. calendar_request texts body)
        (λ other e.
          after_check-Stays x (not (is_valid_event zones now e)) _
            (update-Stays x calendar updated none (λ old. e) now house id version caller other))
  calendar_kept removes x s there foreign =
      delete-Kept x s there house id caller foreign (delete_calendar house id version caller)
        version (λ other. delete-Stays x calendar house id version caller other)

-- A chore and a calendar event of another member stay as they are. Where a row is the one found under
-- its house and identifier, and the request is for another house, or the caller is no member there,
-- or a monitor, or neither an admin nor the creator of the row, the request to create, update or
-- delete a chore, and a calendar event, leaves the row as it is.
pub foreign_rows_kept :
    (texts : Texts) (now house id version caller : ℕ) (call : ChoreCall) (event : CalendarCall)
    (x : Row Chore) (s : Shelf Chore) (y : Row CalendarEvent) (t : Shelf CalendarEvent)
    → select_one (is_it x) s.rows ≡ some x
    → may_change x house caller s ≡ false
    → select_one (is_it y) t.rows ≡ some y
    → may_change y house caller t ≡ false
    → (select_one (is_it x) (serve_chore texts now house id version caller call s).1.rows ≡ some x)
      × (select_one (is_it y) (serve_calendar texts now house id version caller event t).1.rows
          ≡ some y)
foreign_rows_kept texts now house id version caller call event x s y t here foreign there alien = (
  chore_kept texts now house id version caller call x s here foreign,
  calendar_kept texts now house id version caller event y t there alien,
)
