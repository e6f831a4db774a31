-- ===== src/Houses/Managed.antt =====
-- Admins under the operations of src/backend/internal/repository/houses.go: the invariant of the
-- tables.
use roomies.Base.{
  ℕ, ◌≤◌, ◌<◌, ◌≡◌, ◌⊎◌, true, not, ◌&&◌, some, List, All, All-mono, arith, leb, ◌==◌, ==→eq,
  Bool-cases, Option-cases, inl, inr,
}
use roomies.Base.Sql.{select_one, count_where, update_where, delete_where}
use roomies.Base.Tx.{transact}
use roomies.Models.{Role, is_admin, HouseMember}
use roomies.Houses.{Houses, of_member, is_house_admin, update_member_role, remove_member}
use roomies.Houses.Admins.{
  set_role, admins_of_one, admins-update, admins-promote, admins-update_ne, admins-delete,
  admins-delete_ne, members-update, members-delete,
}

-- UNIQUE(house_id, user_id), and every house has an admin.
pub record IsManaged (s : Houses) : Type 0 where
  pub unique : (h u : ℕ) → count_where (of_member h u) s.members ≤ 1
  pub managed : All (λ h. 1 ≤ count_where (is_house_admin h.id) s.members) s.houses

-- What an operation of the repository leaves behind: the old tables, or the houses as they were
-- with other members.
update_cases :
    (house user : ℕ) (role : Role) (s : Houses)
    → ((transact (update_member_role house user role) s).1 ≡ s)
      ⊎ ((m : HouseMember) × (select_one (of_member house user) s.members ≡ some m)
          × ((is_admin m.role && not (is_admin role)) ≡ true
              → 1 < count_where (is_house_admin house) s.members)
          × ((transact (update_member_role house user role) s).1 ≡ record s {
            members = update_where (of_member house user) (set_role role) s.members;
          }))
unfolding update_member_role
update_cases house user role s = elim (Option-cases (select_one (λ h. h.id == house) s.houses)) [
  | inl gone ↦ inl (ground arith)
  | inr (h, there) ↦ elim (Option-cases (select_one (of_member house user) s.members)) [
    | inl absent ↦ inl (ground arith)
    | inr (m, found) ↦ elim (Bool-cases (is_admin m.role && not (is_admin role))) [
      | inr free ↦ inr (m, found, (λ g. ground arith), ground arith)
      | inl guarded ↦ elim (Bool-cases (leb (count_where (is_house_admin house) s.members) 1)) [
        | inl last ↦ inl (ground arith)
        | inr more ↦ inr (m, found, (λ g. ground arith), ground arith)
      ]
    ]
  ]
]

remove_cases :
    (house user : ℕ) (s : Houses)
    → ((transact (remove_member house user) s).1 ≡ s)
      ⊎ ((m : HouseMember) × (select_one (of_member house user) s.members ≡ some m)
          × (is_admin m.role ≡ true → 1 < count_where (is_house_admin house) s.members)
          × ((transact (remove_member house user) s).1
              ≡ record s { members = delete_where (of_member house user) s.members }))
unfolding remove_member
remove_cases house user s = elim (Option-cases (select_one (λ h. h.id == house) s.houses)) [
  | inl gone ↦ inl (ground arith)
  | inr (h, there) ↦ elim (Option-cases (select_one (of_member house user) s.members)) [
    | inl absent ↦ inl (ground arith)
    | inr (m, found) ↦ elim (Bool-cases (is_admin m.role)) [
      | inr free ↦ inr (m, found, (λ g. ground arith), ground arith)
      | inl guarded ↦ elim (Bool-cases (leb (count_where (is_house_admin house) s.members) 1)) [
        | inl last ↦ inl (ground arith)
        | inr more ↦ inr (m, found, (λ g. ground arith), ground arith)
      ]
    ]
  ]
]

module _ (house user : ℕ) (ms : List HouseMember) {m : HouseMember}
    (one : count_where (of_member house user) ms ≤ 1)
    (found : select_one (of_member house user) ms ≡ some m) where
  update_managed :
      (role : Role) (h : ℕ)
      → ((is_admin m.role && not (is_admin role)) ≡ true
          → 1 < count_where (is_house_admin house) ms)
      → 1 ≤ count_where (is_house_admin h) ms
      → 1 ≤ count_where (is_house_admin h) (update_where (of_member house user) (set_role role) ms)
  update_managed Role.admin h guard b = omega (arith, b, admins-promote house user h ms)
  update_managed Role.member h guard b = elim (Bool-cases (h == house)) [
    | inl same ↦ ground (
      arith,
      guard,
      ==→eq h house same,
      admins-update house user Role.member h ms,
      admins_of_one house user ms one found,
    )
    | inr other ↦ rw (admins-update_ne house user Role.member h ms (λ e. ground arith)) b
  ]
  update_managed Role.monitor h guard b = elim (Bool-cases (h == house)) [
    | inl same ↦ ground (
      arith,
      guard,
      ==→eq h house same,
      admins-update house user Role.monitor h ms,
      admins_of_one house user ms one found,
    )
    | inr other ↦ rw (admins-update_ne house user Role.monitor h ms (λ e. ground arith)) b
  ]

  delete_managed :
      (h : ℕ)
      → (is_admin m.role ≡ true → 1 < count_where (is_house_admin house) ms)
      → 1 ≤ count_where (is_house_admin h) ms
      → 1 ≤ count_where (is_house_admin h) (delete_where (of_member house user) ms)
  delete_managed h guard b = elim (Bool-cases (h == house)) [
    | inl same ↦ ground (
      arith,
      guard,
      ==→eq h house same,
      admins-delete house user h ms,
      admins_of_one house user ms one found,
    )
    | inr other ↦ rw (admins-delete_ne house user h ms (λ e. ground arith)) b
  ]

-- Changing a role never leaves a house without an admin, whatever the request: where the change
-- would, it is refused and the tables stay as they are.
pub update_member_role-IsManaged :
    (house user : ℕ) (role : Role) (s : Houses)
    → IsManaged s
    → IsManaged (transact (update_member_role house user role) s).1
update_member_role-IsManaged house user role s v = elim (update_cases house user role s) [
  | inl same ↦ rw same v
  | inr (m, found, guard, changed) ↦ rw changed (record {
    unique = λ h u. rw (members-update house user role h u s.members) (v.unique h u);
    managed =
        All-mono _ _ s.houses
          (λ h b. update_managed house user s.members (v.unique house user) found role h.id guard b)
          v.managed;
  })
]

-- Removing a member never leaves a house without an admin.
pub remove_member-IsManaged :
    (house user : ℕ) (s : Houses)
    → IsManaged s
    → IsManaged (transact (remove_member house user) s).1
remove_member-IsManaged house user s v = elim (remove_cases house user s) [
  | inl same ↦ rw same v
  | inr (m, found, guard, changed) ↦ rw changed (record {
    unique = λ h u. omega (arith, members-delete house user h u s.members, v.unique h u);
    managed =
        All-mono _ _ s.houses
          (λ h b. delete_managed house user s.members (v.unique house user) found h.id guard b)
          v.managed;
  })
]
