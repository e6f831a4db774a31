-- ===== src/Houses/Admins.antt =====
-- The counts of members and admins under each change of the table
-- (src/backend/internal/repository/houses.go).
use roomies.Base.{
  ℕ, ◌+◌, ◌≤◌, ◌≡◌, ◌≢◌, refl, ap, ◌&&◌, some, List, [], ◌∷◌, arith, if◌then◌else◌, Bool-cases, inl,
  inr,
}
use roomies.Base.Sql.{select_one, count_where, update_where, delete_where}
use roomies.Models.{Role, admin, is_admin, HouseMember}
use roomies.Houses.{of_member, is_house_admin}

abbrev pub set_role : Role → HouseMember → HouseMember
set_role role m = record m { role = role }

module _ (house user : ℕ) where
  -- Rows of the member that are admins.
  abbrev pub admins_of_member : List HouseMember → ℕ
  admins_of_member = count_where (λ x. of_member house user x && is_admin x.role)

  no_admins_of :
      (ms : List HouseMember) → count_where (of_member house user) ms ≡ 0 → admins_of_member ms ≡ 0
  no_admins_of [] h = refl
  no_admins_of (x ∷ ms) h = ground (arith, no_admins_of ms)

  pub admins_of_one :
      (ms : List HouseMember) {m : HouseMember}
      → count_where (of_member house user) ms ≤ 1
      → select_one (of_member house user) ms ≡ some m
      → admins_of_member ms ≡ (if is_admin m.role then 1 else 0)
  admins_of_one [] b h = cc
  admins_of_one (x ∷ ms) {m} b h = elim (Bool-cases (of_member house user x)) [
    | inl here ↦
        let e : x ≡ m = ground arith in ground (arith, no_admins_of ms, ap (λ y. is_admin y.role) e)
    | inr other ↦ ground (arith, admins_of_one ms {m = m})
  ]

  pub admins-update :
      (role : Role) (h : ℕ) (ms : List HouseMember)
      → count_where (is_house_admin h) ms
        ≤ count_where (is_house_admin h) (update_where (of_member house user) (set_role role) ms)
          + admins_of_member ms
  admins-update role h [] = omega arith
  admins-update role h (x ∷ ms) = ground (arith, admins-update role h ms)

  pub admins-promote :
      (h : ℕ) (ms : List HouseMember)
      → count_where (is_house_admin h) ms
        ≤ count_where (is_house_admin h) (update_where (of_member house user) (set_role admin) ms)
  admins-promote h [] = omega arith
  admins-promote h (x ∷ ms) = ground (arith, admins-promote h ms)

  pub admins-update_ne :
      (role : Role) (h : ℕ) (ms : List HouseMember)
      → h ≢ house
      → count_where (is_house_admin h) (update_where (of_member house user) (set_role role) ms)
        ≡ count_where (is_house_admin h) ms
  admins-update_ne role h [] ne = refl
  admins-update_ne role h (x ∷ ms) ne = ground (arith, admins-update_ne role h ms ne)

  pub admins-delete :
      (h : ℕ) (ms : List HouseMember)
      → count_where (is_house_admin h) ms
        ≤ count_where (is_house_admin h) (delete_where (of_member house user) ms)
          + admins_of_member ms
  admins-delete h [] = omega arith
  admins-delete h (x ∷ ms) = ground (arith, admins-delete h ms)

  pub admins-delete_ne :
      (h : ℕ) (ms : List HouseMember)
      → h ≢ house
      → count_where (is_house_admin h) (delete_where (of_member house user) ms)
        ≡ count_where (is_house_admin h) ms
  admins-delete_ne h [] ne = refl
  admins-delete_ne h (x ∷ ms) ne = ground (arith, admins-delete_ne h ms ne)

  -- A change of roles keeps every member where it was, and a deletion adds none.
  pub members-update :
      (role : Role) (h u : ℕ) (ms : List HouseMember)
      → count_where (of_member h u) (update_where (of_member house user) (set_role role) ms)
        ≡ count_where (of_member h u) ms
  members-update role h u [] = refl
  members-update role h u (x ∷ ms) = ground (arith, members-update role h u ms)

  pub members-delete :
      (h u : ℕ) (ms : List HouseMember)
      → count_where (of_member h u) (delete_where (of_member house user) ms)
        ≤ count_where (of_member h u) ms
  members-delete h u [] = omega arith
  members-delete h u (x ∷ ms) = ground (arith, members-delete h u ms)
